-- ===== src/Telemetry.antt =====
pub mod Snapshot
pub mod Checks
