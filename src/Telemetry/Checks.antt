-- ===== src/Telemetry/Checks.antt =====
-- What telemetry must hold (normalizeTelemetrySnapshot and telemetryIsUsable of
-- src/telemetry/snapshot.ts). A time is a number of milliseconds from the earliest date that
-- JavaScript has, -8.64e15.
use machina_sol.Prelude.{
  ℕ, ◌+◌, ◌-◌, ◌≡◌, refl, sym, ap, ◌∙◌, String, Bool, true, false, not, ◌||◌, ◌&&◌, Option, none,
  some, leb, ◌==◌, if◌then◌else◌, Result, ok, err, arith,
}
use machina_sol.Number.{negsuc, Number, finite, of_nat, number_lt, is_finite}
use machina_sol.Telemetry.Snapshot.{MachineHealth, MachineTelemetrySnapshot, Location, Pose}

-- `new Date(text).getTime()`, which is NaN for no date, and `new Date(time).toISOString()`.
pub record Dates : Type 0 where
  pub time : String → Option ℕ
  pub iso : ℕ → String

-- The value throws.
pct : Option Number → Bool
pct none = false
pct (some v) = number_lt v (of_nat 0) || (number_lt (of_nat 100) v || not (is_finite v))

not_finite : Option Number → Bool
not_finite none = false
not_finite (some v) = not (is_finite v)

-- -n, for n at least one
minus : ℕ → Number
minus n = finite (negsuc (n - 1)) 0

location_fault : Option Location → Option String
unfolding not_finite minus
location_fault none = none
location_fault (some l) =
    if not (is_finite l.lat)
    then some "latitude must be finite"
    else if not (is_finite l.lon)
    then some "longitude must be finite"
    else if not_finite l.altitude_m
    then some "altitudeM must be finite"
    else if number_lt l.lat (minus 90) || number_lt (of_nat 90) l.lat
    then some "invalid latitude"
    else if number_lt l.lon (minus 180) || number_lt (of_nat 180) l.lon
    then some "invalid longitude"
    else none

pose_fault : Option Pose → Option String
unfolding not_finite
pose_fault none = none
pose_fault (some p) =
    if not (is_finite p.x)
    then some "pose.x must be finite"
    else if not (is_finite p.y)
    then some "pose.y must be finite"
    else if not_finite p.z
    then some "pose.z must be finite"
    else if not_finite p.yaw_deg
    then some "pose.yawDeg must be finite"
    else none

-- The first message that the values deserve.
unfoldable pub fault :
    Option Number → Option Number → Option Number → Option Location → Option Pose → Option String
unfolding pct location_fault pose_fault
fault battery signal progress location pose =
    if pct battery
    then some "batteryPct must be 0-100"
    else if pct signal
    then some "signalPct must be 0-100"
    else if pct progress
    then some "progressPct must be 0-100"
    else elim (location_fault location) [ some message ↦ some message | none ↦ pose_fault pose ]

unfoldable pub normalize_telemetry_snapshot :
    Dates → MachineTelemetrySnapshot → Result MachineTelemetrySnapshot
normalize_telemetry_snapshot dates input =
    if input.machine_id == ""
    then err "telemetry machine id required"
    else elim (dates.time input.observed_at) [
      | none ↦ err "invalid telemetry timestamp"
      | some t ↦
          elim (fault input.battery_pct input.signal_pct input.progress_pct input.location
            input.pose) [
              | some message ↦ err message
              | none ↦ ok (record input { observed_at = dates.iso t })
            ]
    ]

abbrev pub is_down : MachineHealth → Bool
is_down MachineHealth.offline = true
is_down MachineHealth.faulted = true
is_down _ = false

unfoldable pub telemetry_is_usable : Dates → MachineTelemetrySnapshot → (now max_age_ms : ℕ) → Bool
telemetry_is_usable dates snapshot now max_age_ms = elim (dates.time snapshot.observed_at) [
  | none ↦ false
  | some t ↦ not (is_down snapshot.health) && (leb t now && leb now (t + max_age_ms))
]

-- What is normal stays as it is.
normal :
    (dates : Dates) (output : MachineTelemetrySnapshot) (t : ℕ)
    → (output.machine_id == "") ≡ false
    → dates.time output.observed_at ≡ some t
    → fault output.battery_pct output.signal_pct output.progress_pct output.location output.pose
      ≡ none
    → dates.iso t ≡ output.observed_at
    → normalize_telemetry_snapshot dates output ≡ ok output
unfolding normalize_telemetry_snapshot
normal dates output t named dated right iso = ground arith

-- What is normalized is a text of a time, and the rest of the input.
normal_form :
    (dates : Dates) (input output : MachineTelemetrySnapshot) (seen : Option ℕ)
    → dates.time input.observed_at ≡ seen
    → normalize_telemetry_snapshot dates input ≡ ok output
    → (t : ℕ) × ((output.machine_id == "") ≡ false)
      × (fault output.battery_pct output.signal_pct output.progress_pct output.location output.pose
          ≡ none)
      × (dates.iso t ≡ output.observed_at)
unfolding normalize_telemetry_snapshot
normal_form dates input output none dated h = absurd (ground arith)
normal_form dates input output (some t) dated h = (t, ground arith, ground arith, ground arith)

-- Telemetry that is normalized again stays as it is, where the ISO text of a time names that time.
pub normalize_telemetry_snapshot-idempotent :
    (dates : Dates) (input output : MachineTelemetrySnapshot)
    → ((t : ℕ) → dates.time (dates.iso t) ≡ some t)
    → normalize_telemetry_snapshot dates input ≡ ok output
    → normalize_telemetry_snapshot dates output ≡ ok output
normalize_telemetry_snapshot-idempotent dates input output again h =
    let (t, named, right, iso) =
      normal_form dates input output (dates.time input.observed_at) refl h in
    normal dates output t named (ap dates.time (sym iso) ∙ again t) right iso
