-- ===== src/Telemetry/Snapshot.antt =====
-- Telemetry snapshots (src/telemetry/snapshot.ts).
use machina_sol.Prelude.{String, Option}
use machina_sol.Number.{Number}

pub data MachineHealth : Type 0 where
  nominal degraded faulted offline : MachineHealth

pub record Location : Type 0 where
  pub lat : Number
  pub lon : Number
  pub altitude_m : Option Number

pub record Pose : Type 0 where
  pub x : Number
  pub y : Number
  pub z : Option Number
  pub yaw_deg : Option Number

pub record MachineTelemetrySnapshot : Type 0 where
  pub machine_id : String
  pub observed_at : String
  pub battery_pct : Option Number
  pub health : MachineHealth
  pub signal_pct : Option Number
  pub progress_pct : Option Number
  pub location : Option Location
  pub pose : Option Pose
  pub telemetry_ref : Option String
