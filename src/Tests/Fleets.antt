-- ===== src/Tests/Fleets.antt =====
-- Jobs, machines and fleets.
use machina_sol.Chars.{big_int, is_digits, trim}
use machina_sol.Decimal.{
  join, after_dot, is_fraction, before_dot, is_digits1, match_decimal, normalize_decimal_amount,
  decimal_to_base_units, assert_positive_decimal_amount,
}
use machina_sol.Prelude.{
  includes, any, all, codes, ◌≡◌, refl, true, false, not, ◌||◌, ◌&&◌, none, some, [], ◌∷◌, ok,
}
use machina_sol.Number.{number_lt, of_nat}
use machina_sol.Telemetry.Snapshot.{MachineHealth}
use machina_sol.WorkOrder.{is_id, filled}
use machina_sol.Job.{
  can_transition_job, MachineJob, MachineJobStatus, JobPatch, create_machine_job, transition_job,
  transition_job-proof, same_status, brings_proof,
}
use machina_sol.Machine.{
  can_transition_machine_status, machine_has_capabilities, MachineRuntimeStatus,
}
use machina_sol.Fleet.{
  transition_machine_status, assignment_reasons, FleetRegistryEntry, assign_machine_to_job,
  can_assign_machine,
}
use machina_sol.Fleet.Laws.{is_ok, assign_machine_to_job-can_assign, assign_machine_to_job-once}

abbrev job_in : MachineJobStatus → MachineJob
job_in status = record {
  job_id = "job-1";
  machine_id = "robot";
  required_capabilities = "mapping" ∷ [];
  status = status;
  settlement_amount = "1";
  settlement_asset = none;
  recipient = "ada";
  created_at = "2026-01-01";
  updated_at = "2026-01-01";
  previous_job_id = none;
  telemetry_ref = none;
  settlement_intent_id = none;
  proof_id = some "proof";
}

abbrev no_change : JobPatch
no_change = record { settlement_intent_id = none; proof_id = none; telemetry_ref = none }

creates_job :
    create_machine_job (job_in MachineJobStatus.created) "2026-01-01"
    ≡ ok (job_in MachineJobStatus.created)
unfolding create_machine_job is_id codes all assert_positive_decimal_amount decimal_to_base_units
    normalize_decimal_amount match_decimal is_digits1 before_dot trim is_digits is_fraction
    after_dot big_int join
creates_job = refl

assigns :
    transition_job
      (job_in MachineJobStatus.created)
      MachineJobStatus.assigned
      no_change
      "2026-01-01"
    ≡ ok (job_in MachineJobStatus.assigned)
unfolding transition_job can_transition_job any
assigns = refl

settles :
    transition_job
      (job_in MachineJobStatus.proof_submitted)
      MachineJobStatus.settled
      no_change
      "2026-01-01"
    ≡ ok (job_in MachineJobStatus.settled)
unfolding transition_job can_transition_job any
settles = refl

transition_job-proof_example :
    ((not (same_status MachineJobStatus.settled MachineJobStatus.settled)
        || (filled (some "proof")
            && same_status MachineJobStatus.proof_submitted MachineJobStatus.proof_submitted))
      ≡ true)
    × ((not (same_status MachineJobStatus.settled MachineJobStatus.proof_submitted)
          || (brings_proof no_change || filled (some "proof")))
        ≡ true)
transition_job-proof_example =
    transition_job-proof (job_in MachineJobStatus.proof_submitted) (job_in MachineJobStatus.settled)
      MachineJobStatus.settled no_change "2026-01-01" settles

abbrev rover : FleetRegistryEntry
rover = record {
  identity = record {
    machine_id = "rover-1";
    role = "rover";
    wallet_address = "wallet";
    operator_id = "ada";
    capabilities = "mapping" ∷ [];
    label = none;
    owner = none;
    metadata = [];
  };
  created_at = "2026-01-01";
  updated_at = "2026-01-01";
  status = MachineRuntimeStatus.idle;
  session_id = none;
  fleet_id = none;
  site_id = none;
  last_telemetry_ref = none;
  battery_pct = some (of_nat 80);
  health = some MachineHealth.nominal;
  active_job_id = none;
}

abbrev busy_rover : FleetRegistryEntry
busy_rover = record rover {
  status = MachineRuntimeStatus.assigned;
  updated_at = "2026-01-02";
  active_job_id = some "job-1";
}

assign_machine_to_job-can_assign_example :
    is_ok (assign_machine_to_job rover "job-1" ("mapping" ∷ []) "2026-01-02")
    ≡ can_assign_machine rover "job-1" ("mapping" ∷ []) (of_nat 15)
assign_machine_to_job-can_assign_example =
    assign_machine_to_job-can_assign rover "job-1" ("mapping" ∷ []) "2026-01-02"

assigns_rover : assign_machine_to_job rover "job-1" ("mapping" ∷ []) "2026-01-02" ≡ ok busy_rover
unfolding assign_machine_to_job can_assign_machine assignment_reasons number_lt
    machine_has_capabilities all includes transition_machine_status can_transition_machine_status
assigns_rover = refl

assign_machine_to_job-once_example :
    can_assign_machine busy_rover "job-2" ("mapping" ∷ []) (of_nat 5) ≡ false
assign_machine_to_job-once_example =
    assign_machine_to_job-once rover busy_rover "job-1" "job-2" ("mapping" ∷ []) ("mapping" ∷ [])
      "2026-01-02" (of_nat 5) assigns_rover
