-- ===== src/Tests.antt =====
-- The theorems at concrete inputs.
pub mod Data
pub mod Market
pub mod Amounts
pub mod Streams
pub mod Policies
pub mod Fleets
pub mod Telemetries
pub mod Server
