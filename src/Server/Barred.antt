-- ===== src/Server/Barred.antt =====
-- What a request without a session may do: the routes that ask for one refuse it
-- (src/server/production/auth.ts and app.ts).
pub mod Rules
pub mod Routes
pub mod Dispatch
