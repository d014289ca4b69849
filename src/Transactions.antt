-- ===== src/Transactions.antt =====
-- Solana transactions (src/server/production/transactions.ts).
pub mod Flow
pub mod Heights
pub mod Signed
pub mod Confirm
pub mod Prepare
pub mod Laws
pub mod Submission
