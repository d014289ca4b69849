-- ===== src/Server/Routes.antt =====
-- The routes of `handleProductionRequest` (src/server/production/app.ts).
pub mod Account
pub mod Machines
pub mod Sessions
pub mod Telemetry
pub mod Capabilities
pub mod Requests
pub mod Quotes
pub mod Grants
pub mod Settlements
pub mod Submission
pub mod Confirmation
pub mod Dispatch
