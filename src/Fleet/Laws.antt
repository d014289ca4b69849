-- ===== src/Fleet/Laws.antt =====
-- What the assignment of a machine promises.
use machina_sol.Prelude.{
  ◌+◌, ◌≡◌, ◌∙◌, String, Bool, true, false, List, [], ◌∷◌, any, length, Result, ok, err, arith,
}
use machina_sol.Number.{Number, of_nat}
use machina_sol.Machine.{MachineRuntimeStatus, allowed, can_transition_machine_status}
use machina_sol.Fleet.{
  FleetRegistryEntry, FleetReadiness, is_assignable_status, assignment_reasons, can_assign_machine,
  transition_machine_status, assign_machine_to_job, count_entry, readiness_from,
  summarize_fleet_readiness,
}

assignable_status :
    (entry : FleetRegistryEntry) (job_id : String) (required : List String) (least : Number)
    → can_assign_machine entry job_id required least ≡ true
    → is_assignable_status entry.status ≡ true
unfolding can_assign_machine assignment_reasons
assignable_status entry job_id required least h = ground arith

abbrev pub is_ok : {A : Type 0} → Result A → Bool
is_ok (ok a) = true
is_ok (err e) = false

assigns_from :
    (status : MachineRuntimeStatus)
    → is_assignable_status status ≡ true
    → can_transition_machine_status status MachineRuntimeStatus.assigned ≡ true
unfolding can_transition_machine_status allowed any
assigns_from status h = ground arith

-- A machine is assigned exactly when the check has no objection: the change of status behind it
-- never throws.
pub assign_machine_to_job-can_assign :
    (entry : FleetRegistryEntry) (job_id : String) (required : List String) (now : String)
    → is_ok (assign_machine_to_job entry job_id required now)
      ≡ can_assign_machine entry job_id required (of_nat 15)
unfolding assign_machine_to_job transition_machine_status
assign_machine_to_job-can_assign entry job_id required now =
    ground (arith, assignable_status entry job_id required (of_nat 15), assigns_from entry.status)

-- A machine that was just assigned to a job is refused for every further job, whatever the job asks
-- for and whatever battery is enough.
pub assign_machine_to_job-once :
    (entry entry' : FleetRegistryEntry) (job_id other : String) (required needed : List String)
    (now : String) (least : Number)
    → assign_machine_to_job entry job_id required now ≡ ok entry'
    → can_assign_machine entry' other needed least ≡ false
unfolding assign_machine_to_job transition_machine_status
assign_machine_to_job-once entry entry' job_id other required needed now least h =
    ground (arith, assignable_status entry' other needed least)

readiness_from-total :
    (s : FleetReadiness) (es : List FleetRegistryEntry)
    → (readiness_from s es).ready
        + (readiness_from s es).degraded
        + (readiness_from s es).offline_count
      ≡ s.ready + s.degraded + s.offline_count + length es
unfolding readiness_from count_entry
readiness_from-total s [] = omega arith
readiness_from-total s (e ∷ es) = readiness_from-total (count_entry s e) es ∙ ground arith

-- The summary of a fleet counts every machine once, as ready, degraded or offline.
pub summarize_fleet_readiness-total :
    (entries : List FleetRegistryEntry)
    → (summarize_fleet_readiness entries).ready
        + (summarize_fleet_readiness entries).degraded
        + (summarize_fleet_readiness entries).offline_count
      ≡ length entries
unfolding summarize_fleet_readiness
summarize_fleet_readiness-total entries = readiness_from-total _ entries ∙ omega arith
