-- ===== src/Fleet.antt =====
-- Fleets of machines (src/fleet/registry.ts and the summary of src/fleet/availability.ts).
pub mod Laws
use machina_sol.Prelude.{
  ℕ, ◌+◌, String, Bool, true, false, not, ◌||◌, ◌&&◌, Option, none, some, or_else, List, [], ◌∷◌,
  ◌++◌, map, any, all, filter, nat_eq, leb, length, codes, includes, distinct, ◌==◌, if◌then◌else◌,
  Result, ok, err, ◌>>=◌,
}
use machina_sol.Number.{Number, of_nat, number_lt}
use machina_sol.Chars.{Chars}
use machina_sol.Dict.{Dict, put}
use machina_sol.Telemetry.Snapshot.{MachineHealth}
use machina_sol.Machine.{
  machine_roles, machine_capabilities, MachineIdentity, MachineRuntimeStatus, validate_machine_id,
  validate_machine_identity, machine_has_capabilities, allowed, same_status,
  can_transition_machine_status,
}
use MachineRuntimeStatus.{idle, assigned, working, completed, faulted, offline}

-- A `MachineRegistryEntry` with the fields of the fleet.
pub record FleetRegistryEntry : Type 0 where
  pub identity : MachineIdentity
  pub created_at : String
  pub updated_at : String
  pub status : MachineRuntimeStatus
  pub session_id : Option String
  pub fleet_id : Option String
  pub site_id : Option String
  pub last_telemetry_ref : Option String
  pub battery_pct : Option Number
  pub health : Option MachineHealth
  pub active_job_id : Option String

unfoldable pub transition_machine_status :
    FleetRegistryEntry → MachineRuntimeStatus → String → Result FleetRegistryEntry
transition_machine_status machine to now =
    if not (can_transition_machine_status machine.status to)
    then err "invalid machine status transition"
    else ok (record machine { status = to; updated_at = now })

-- A `MachineRegistryEntry`, which has no fleet yet.
unfoldable pub create_registry_entry : MachineIdentity → String → Result FleetRegistryEntry
create_registry_entry input now = validate_machine_identity input >>= λ machine. ok (record {
  identity = machine;
  created_at = now;
  updated_at = now;
  status = idle;
  session_id = none;
  fleet_id = none;
  site_id = none;
  last_telemetry_ref = none;
  battery_pct = none;
  health = none;
  active_job_id = none;
})

unfoldable pub register_machine :
    MachineIdentity → Option String → Option String → String → Result FleetRegistryEntry
register_machine input fleet_id site_id now = validate_machine_identity input >>= λ machine.
    create_registry_entry machine now >>= λ base.
    ok (record base { fleet_id = fleet_id; site_id = site_id })

out_of_range : Option Number → Bool
out_of_range none = false
out_of_range (some b) = number_lt b (of_nat 0) || number_lt (of_nat 100) b

keep_or : {A : Type 0} → Option A → Option A → Option A
keep_or none old = old
keep_or (some new) old = some new

unfoldable pub update_machine_telemetry :
    FleetRegistryEntry
    → String
    → Option Number
    → Option MachineHealth
    → String
    → Result FleetRegistryEntry
unfolding out_of_range keep_or
update_machine_telemetry entry telemetry_ref battery_pct health now =
    if telemetry_ref == ""
    then err "telemetry reference required"
    else if out_of_range battery_pct
    then err "batteryPct must be 0-100"
    else ok (record entry {
      last_telemetry_ref = some telemetry_ref;
      battery_pct = keep_or battery_pct entry.battery_pct;
      health = keep_or health entry.health;
      updated_at = now;
    })

abbrev pub is_assignable_status : MachineRuntimeStatus → Bool
is_assignable_status idle = true
is_assignable_status completed = true
is_assignable_status _ = false

abbrev pub is_failed_health : Option MachineHealth → Bool
is_failed_health (some MachineHealth.faulted) = true
is_failed_health (some MachineHealth.offline) = true
is_failed_health _ = false

abbrev pub reason_if : Bool → String → List String
reason_if true reason = reason ∷ []
reason_if false reason = []

battery_or_full : Option Number → Number
battery_or_full none = of_nat 100
battery_or_full (some b) = b

-- The reasons; the machine may be assigned where there are none. The first two messages also name
-- the status and the health.
unfoldable pub assignment_reasons : FleetRegistryEntry → String → List String → Number → List String
unfolding battery_or_full
assignment_reasons entry job_id required_capabilities min_battery_pct =
    reason_if (not (is_assignable_status entry.status)) "machine status is not assignable"
    ++ reason_if (is_failed_health entry.health) "machine health"
    ++ reason_if (number_lt (battery_or_full entry.battery_pct) min_battery_pct)
        "battery below assignment threshold"
    ++ reason_if (not (machine_has_capabilities entry.identity required_capabilities))
        "machine missing required capability"
    ++ reason_if (job_id == "") "job id required"

unfoldable pub can_assign_machine : FleetRegistryEntry → String → List String → Number → Bool
can_assign_machine entry job_id required_capabilities min_battery_pct =
    nat_eq (length (assignment_reasons entry job_id required_capabilities min_battery_pct)) 0

unfoldable pub assign_machine_to_job :
    FleetRegistryEntry → String → List String → String → Result FleetRegistryEntry
assign_machine_to_job entry job_id required_capabilities now =
    if not (can_assign_machine entry job_id required_capabilities (of_nat 15))
    then err "machine is not assignable"
    else transition_machine_status entry assigned now >>= λ e.
        ok (record e { active_job_id = some job_id })

abbrev pub available_status : MachineRuntimeStatus → MachineRuntimeStatus
available_status offline = idle
available_status faulted = idle
available_status completed = idle
available_status idle = idle
available_status assigned = assigned
available_status working = working

unfoldable pub mark_machine_available : FleetRegistryEntry → String → FleetRegistryEntry
mark_machine_available entry now = record entry {
  status = available_status entry.status;
  active_job_id = none;
  updated_at = now;
}

unfoldable pub mark_machine_offline : FleetRegistryEntry → String → String → FleetRegistryEntry
mark_machine_offline entry reason now = record entry {
  status = offline;
  health = some MachineHealth.offline;
  active_job_id = none;
  updated_at = now;
  identity = record entry.identity {
    metadata = put "offlineReason" reason entry.identity.metadata;
  };
}

pub record FleetReadiness : Type 0 where
  pub ready : ℕ
  pub degraded : ℕ
  pub offline_count : ℕ
  pub active : ℕ

abbrev pub is_offline : FleetRegistryEntry → Bool
is_offline e =
    same_status e.status offline
    || (elim e.health [ some MachineHealth.offline ↦ true | _ ↦ false ])

abbrev pub is_degraded : FleetRegistryEntry → Bool
is_degraded e = same_status e.status faulted || (elim e.health [
  | some MachineHealth.degraded ↦ true
  | some MachineHealth.faulted ↦ true
  | _ ↦ false
])

abbrev pub is_active : FleetRegistryEntry → Bool
is_active e = elim e.active_job_id [ none ↦ false | some id ↦ not (id == "") ]

unfoldable pub count_entry : FleetReadiness → FleetRegistryEntry → FleetReadiness
count_entry s e =
    let active' : ℕ = if is_active e then s.active + 1 else s.active in
    if is_offline e
    then record s { offline_count = s.offline_count + 1; active = active' }
    else if is_degraded e
    then record s { degraded = s.degraded + 1; active = active' }
    else record s { ready = s.ready + 1; active = active' }

-- The reduction of the entries.
unfoldable pub readiness_from : FleetReadiness → List FleetRegistryEntry → FleetReadiness
unfolding count_entry
readiness_from s [] = s
readiness_from s (e ∷ es) = readiness_from (count_entry s e) es

unfoldable pub summarize_fleet_readiness : List FleetRegistryEntry → FleetReadiness
summarize_fleet_readiness entries =
    readiness_from (record { ready = 0; degraded = 0; offline_count = 0; active = 0 }) entries
