-- ===== src/WorkOrder/Laws.antt =====
-- The life of a work order: its end, what a settled one holds, and what its feedback promises.
use machina_sol.Prelude.{
  ℕ, ◌≤◌, ◌<◌, ◌≡◌, refl, ap, String, Bool, true, false, not, ◌&&◌, none, [], ◌++◌, map, any,
  length, ok, arith, suc,
}
use machina_sol.WorkOrder.{
  feedback_at, reason_if, WorkOrderStage, MachineWorkOrder, WorkOrderPatch, WorkActionKind,
  WorkActionFeedback, next, same_stage, filled, wanted, create_work_order, candidate,
  needs_requirements, validate_work_order_requirements, transition_work_order, next_action_feedback,
  settlement_reasons, allowed_work_order_actions,
}

-- Every way an order can go: created, then moved.
pub data Reaches : ℕ → MachineWorkOrder → Type 0 where
  created :
      (input order : MachineWorkOrder) (now : String)
      → create_work_order input now ≡ ok order
      → Reaches 0 order
  moved :
      (n : ℕ) (order order' : MachineWorkOrder) (to : WorkOrderStage) (patch : WorkOrderPatch)
      (now : String)
      → Reaches n order
      → transition_work_order order to patch now ≡ ok order'
      → Reaches (suc n) order'

-- How far along a stage is.
abbrev progress : WorkOrderStage → ℕ
progress WorkOrderStage.queued = 0
progress WorkOrderStage.assigned = 1
progress WorkOrderStage.preparing = 2
progress WorkOrderStage.working = 3
progress WorkOrderStage.proof_submitted = 4
progress _ = 5

next-progress :
    (from to : WorkOrderStage)
    → any (same_stage to) (next from) ≡ true
    → progress from < progress to
unfolding next any
next-progress from to h = ground arith

transition-progress :
    (order order' : MachineWorkOrder) (to : WorkOrderStage) (patch : WorkOrderPatch) (now : String)
    → transition_work_order order to patch now ≡ ok order'
    → progress order.stage < progress order'.stage
unfolding transition_work_order candidate
transition-progress order order' to patch now h = ground (arith, next-progress order.stage to)

Reaches-progress : (n : ℕ) (order : MachineWorkOrder) → Reaches n order → n ≤ progress order.stage
unfolding create_work_order
Reaches-progress n order (created input order' now e) = omega arith
Reaches-progress n order (moved m before after to patch now r e) =
    omega (arith, Reaches-progress m before r, transition-progress before after to patch now e)

progress-le : (stage : WorkOrderStage) → progress stage ≤ 5
progress-le stage = ground arith

-- A work order makes at most five moves, so every order comes to an end.
pub Reaches-ends : (n : ℕ) (order : MachineWorkOrder) → Reaches n order → n ≤ 5
Reaches-ends n order r = omega (arith, Reaches-progress n order r, progress-le order.stage)

-- What an order with its proof submitted, or settled, holds.
pub record IsReady (order : MachineWorkOrder) : Type 0 where
  pub telemetry :
      needs_requirements order.stage ≡ true
      → wanted order.requirement.telemetry_required ≡ true
      → filled order.telemetry_ref ≡ true
  pub proof :
      needs_requirements order.stage ≡ true
      → wanted order.requirement.proof_required ≡ true
      → filled order.proof_id ≡ true
  pub intent : order.stage ≡ WorkOrderStage.settled → filled order.settlement_intent_id ≡ true

no_reasons :
    (a b c : Bool) (x y z : String)
    → length (reason_if a x ++ reason_if b y ++ reason_if c z) ≡ 0
    → (a ≡ false) × (b ≡ false) × (c ≡ false)
no_reasons false false false x y z h = (refl, refl, refl)
no_reasons true b c x y z h = absurd (ground arith)
no_reasons false true c x y z h = absurd (ground arith)
no_reasons false false true x y z h = absurd (ground arith)

IsReady-of_no_reasons :
    (order : MachineWorkOrder)
    → (needs_requirements order.stage ≡ true → length (validate_work_order_requirements order) ≡ 0)
    → IsReady order
unfolding validate_work_order_requirements
IsReady-of_no_reasons order h = record {
  telemetry = λ needs wants.
      let (a, b, c) = parts needs in
      implied (wanted order.requirement.telemetry_required) (filled order.telemetry_ref) wants a;
  proof = λ needs wants.
      let (a, b, c) = parts needs in
      implied (wanted order.requirement.proof_required) (filled order.proof_id) wants b;
  intent = λ settled.
      let (a, b, c) = parts (ap needs_requirements settled) in
      implied (same_stage order.stage WorkOrderStage.settled) (filled order.settlement_intent_id)
        (ap (λ st. same_stage st WorkOrderStage.settled) settled) c;
}
  where
    parts :
        needs_requirements order.stage ≡ true
        → ((wanted order.requirement.telemetry_required && not (filled order.telemetry_ref))
            ≡ false)
          × ((wanted order.requirement.proof_required && not (filled order.proof_id)) ≡ false)
          × ((same_stage order.stage WorkOrderStage.settled
                && not (filled order.settlement_intent_id))
              ≡ false)
    parts needs =
        no_reasons _ _ _ "telemetry reference required" "proof required"
          "settlement intent required" (h needs)

    implied : (a b : Bool) → a ≡ true → (a && not b) ≡ false → b ≡ true
    implied a b p q = ground arith

-- Every order that is reached by creation and transitions is ready for its stage: the telemetry and
-- the proof that it requires are there from the proof on, and a settled one has its intent.
pub Reaches-IsReady : (n : ℕ) (order : MachineWorkOrder) → Reaches n order → IsReady order
unfolding create_work_order transition_work_order candidate
Reaches-IsReady n order (created input order' now e) =
    IsReady-of_no_reasons order (λ needs. absurd (ground arith))
Reaches-IsReady n order (moved m before after to patch now r e) =
    IsReady-of_no_reasons order (λ needs. ground arith)

-- Where an action leads.
abbrev pub target : WorkActionFeedback → WorkOrderStage
target f = elim f.action [
  | WorkActionKind.assign ↦ WorkOrderStage.assigned
  | WorkActionKind.prepare ↦ WorkOrderStage.preparing
  | WorkActionKind.start ↦ WorkOrderStage.working
  | WorkActionKind.submit_proof ↦ WorkOrderStage.proof_submitted
  | WorkActionKind.settle ↦ WorkOrderStage.settled
  | WorkActionKind.cancel ↦ WorkOrderStage.cancelled
  | WorkActionKind.fail ↦ WorkOrderStage.failed
]

targets_at :
    (stage : WorkOrderStage) (order : MachineWorkOrder)
    → map target (feedback_at stage order) ≡ next stage
unfolding feedback_at next
targets_at WorkOrderStage.queued order = refl
targets_at WorkOrderStage.assigned order = refl
targets_at WorkOrderStage.preparing order = refl
targets_at WorkOrderStage.working order = refl
targets_at WorkOrderStage.proof_submitted order = refl
targets_at WorkOrderStage.settled order = refl
targets_at WorkOrderStage.failed order = refl
targets_at WorkOrderStage.cancelled order = refl

-- The feedback names exactly the moves that the table allows, in its order.
pub next_action_feedback-targets :
    (order : MachineWorkOrder)
    → map target (next_action_feedback order) ≡ allowed_work_order_actions order
unfolding next_action_feedback
next_action_feedback-targets order = targets_at order.stage order

-- An order that is ready for settlement settles.
pub settlement_reasons-settles :
    (order : MachineWorkOrder) (now : String)
    → settlement_reasons order ≡ []
    → (order' : MachineWorkOrder) × (transition_work_order order WorkOrderStage.settled
          (record {
            machine_id = none;
            telemetry_ref = none;
            proof_id = none;
            settlement_intent_id = none;
            result_ref = none;
          })
          now
        ≡ ok order')
      × (order'.stage ≡ WorkOrderStage.settled)
unfolding settlement_reasons transition_work_order candidate validate_work_order_requirements next
    any
settlement_reasons-settles order now h =
    (record order { stage = WorkOrderStage.settled; updated_at = now }, ground arith, refl)
