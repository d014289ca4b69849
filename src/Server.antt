-- ===== src/Server.antt =====
-- The request handlers of the production server (src/server/production/auth.ts and app.ts).
pub mod World
pub mod Http
pub mod Inputs
pub mod Public
pub mod Auth
pub mod Response
pub mod Routes
pub mod Keeps
pub mod Safe
pub mod Interleaving
pub mod Ensures
pub mod Login
pub mod Claim
pub mod Amounts
pub mod Prices
pub mod Barred
