-- ===== src/Job.antt =====
-- Machine jobs (src/jobs/lifecycle.ts). Capabilities are the code's strings; there is one chain.
use machina_sol.Prelude.{
  ℕ, suc, ◌≤◌, ◌<◌, ◌≡◌, String, Bool, true, false, not, ◌||◌, ◌&&◌, Option, none, List, [], ◌∷◌,
  any, nat_eq, length, codes, if◌then◌else◌, Result, ok, err, arith,
}
use machina_sol.Decimal.{assert_positive_decimal_amount}
use machina_sol.WorkOrder.{is_id, filled, patched}

pub data MachineJobStatus : Type 0 where
  created assigned running proof_submitted settled cancelled failed : MachineJobStatus

pub record MachineJob : Type 0 where
  pub job_id : String
  pub machine_id : String
  pub required_capabilities : List String
  pub status : MachineJobStatus
  pub settlement_amount : String
  pub settlement_asset : Option String
  pub recipient : String
  pub created_at : String
  pub updated_at : String
  pub previous_job_id : Option String
  pub telemetry_ref : Option String
  pub settlement_intent_id : Option String
  pub proof_id : Option String

unfoldable pub transitions : MachineJobStatus → List MachineJobStatus
transitions created = assigned ∷ cancelled ∷ []
transitions assigned = running ∷ cancelled ∷ failed ∷ []
transitions running = proof_submitted ∷ failed ∷ []
transitions proof_submitted = settled ∷ failed ∷ []
transitions settled = []
transitions cancelled = []
transitions failed = []

abbrev pub same_status : MachineJobStatus → MachineJobStatus → Bool
same_status created created = true
same_status assigned assigned = true
same_status running running = true
same_status proof_submitted proof_submitted = true
same_status settled settled = true
same_status cancelled cancelled = true
same_status failed failed = true
same_status _ _ = false

positive_amount : Result (Unit {0}) → Bool
positive_amount (ok u) = true
positive_amount (err e) = false

-- The job starts as created, whatever status and times the input names.
unfoldable pub create_machine_job : MachineJob → String → Result MachineJob
unfolding positive_amount
create_machine_job input now =
    if not (is_id 80 input.job_id)
    then err "invalid job id"
    else if nat_eq (length input.required_capabilities) 0
    then err "job requires at least one capability"
    else if not (positive_amount (assert_positive_decimal_amount (codes input.settlement_amount) 9))
    then err "invalid settlement amount"
    else ok (record input { status = created; created_at = now; updated_at = now })

unfoldable pub can_transition_job : MachineJobStatus → MachineJobStatus → Bool
unfolding transitions
can_transition_job from to = any (same_status to) (transitions from)

-- `none` leaves a field; `some v` sets it, and v may be undefined.
pub record JobPatch : Type 0 where
  pub settlement_intent_id : Option (Option String)
  pub proof_id : Option (Option String)
  pub telemetry_ref : Option (Option String)

-- patch.proofId, when it is there and not empty
abbrev pub brings_proof : JobPatch → Bool
brings_proof patch = filled (patched patch.proof_id none)

moved_job : MachineJob → MachineJobStatus → JobPatch → String → MachineJob
moved_job job to patch now = record job {
  settlement_intent_id = patched patch.settlement_intent_id job.settlement_intent_id;
  proof_id = patched patch.proof_id job.proof_id;
  telemetry_ref = patched patch.telemetry_ref job.telemetry_ref;
  status = to;
  updated_at = now;
}

-- The first message also names the two states.
unfoldable pub transition_job :
    MachineJob → MachineJobStatus → JobPatch → String → Result MachineJob
unfolding moved_job
transition_job job to patch now =
    if not (can_transition_job job.status to)
    then err "invalid job transition"
    else if same_status to proof_submitted
        && (not (brings_proof patch) && not (filled job.proof_id))
    then err "proof id required before proof submission"
    else if same_status to settled && not (filled job.proof_id)
    then err "proof required before settlement"
    else ok (moved_job job to patch now)

-- Every way a job can go: created, then moved.
pub data Runs : ℕ → MachineJob → Type 0 where
  starts :
      (input job : MachineJob) (now : String) → create_machine_job input now ≡ ok job → Runs 0 job
  moves :
      (n : ℕ) (job job' : MachineJob) (to : MachineJobStatus) (patch : JobPatch) (now : String)
      → Runs n job
      → transition_job job to patch now ≡ ok job'
      → Runs (suc n) job'

abbrev stage : MachineJobStatus → ℕ
stage created = 0
stage assigned = 1
stage running = 2
stage proof_submitted = 3
stage _ = 4

can_transition_job-stage :
    (from to : MachineJobStatus) → can_transition_job from to ≡ true → stage from < stage to
unfolding can_transition_job transitions any
can_transition_job-stage from to h = ground arith

transition_job-stage :
    (job job' : MachineJob) (to : MachineJobStatus) (patch : JobPatch) (now : String)
    → transition_job job to patch now ≡ ok job'
    → stage job.status < stage job'.status
unfolding transition_job moved_job
transition_job-stage job job' to patch now h =
    ground (arith, can_transition_job-stage job.status to)

Runs-stage : (n : ℕ) (job : MachineJob) → Runs n job → n ≤ stage job.status
Runs-stage n job (starts input job' now e) = omega arith
Runs-stage n job (moves m before after to patch now r e) =
    omega (arith, Runs-stage m before r, transition_job-stage before after to patch now e)

stage-le : (status : MachineJobStatus) → stage status ≤ 4
stage-le status = ground arith

-- A job that is created and then moved along the table makes at most four moves.
Runs-ends : (n : ℕ) (job : MachineJob) → Runs n job → n ≤ 4
Runs-ends n job r = omega (arith, Runs-stage n job r, stage-le job.status)

-- A move to settled starts from a submitted proof, which the job then has; and a move to a
-- submitted proof brings a proof, or the job has one.
pub transition_job-proof :
    (job job' : MachineJob) (to : MachineJobStatus) (patch : JobPatch) (now : String)
    → transition_job job to patch now ≡ ok job'
    → ((not (same_status to settled)
          || (filled job.proof_id && same_status job.status proof_submitted))
        ≡ true)
      × ((not (same_status to proof_submitted) || (brings_proof patch || filled job.proof_id))
          ≡ true)
unfolding transition_job can_transition_job transitions any
transition_job-proof job job' to patch now h = (ground arith, ground arith)
