-- ===== src/Store.antt =====
-- The production store (src/server/production/memory-store.ts, types.ts).
pub mod Types
pub mod State
pub mod Limits
pub mod Auth
pub mod Machines
pub mod Events
pub mod Lamports
pub mod Capabilities
pub mod Requests
pub mod Quotes
pub mod Acceptance
pub mod Grants
pub mod Receipts
pub mod Settlements
pub mod Lifecycles
