-- ===== src/WorkOrder.antt =====
-- Work orders (src/jobs/work-order.ts, src/jobs/requirements.ts). Capabilities are strings, as the
-- code's string literals.
pub mod Laws
use machina_sol.Prelude.{
  ℕ, String, Bool, true, false, not, ◌||◌, ◌&&◌, Option, none, some, List, [], ◌∷◌, ◌++◌, any, all,
  leb, nat_eq, length, includes, distinct, is_some, codes, if◌then◌else◌, Result, ok, err, ◌==◌,
}
use machina_sol.Chars.{Chars}

pub data WorkOrderStage : Type 0 where
  queued assigned preparing working proof_submitted settled failed cancelled : WorkOrderStage

pub record WorkOrderRequirement : Type 0 where
  pub capabilities : List String
  pub telemetry_required : Option Bool
  pub proof_required : Option Bool
  pub expected_outputs : Option (List String)

pub record SettlementTerms : Type 0 where
  pub chain : String
  pub amount : String
  pub asset : String
  pub recipient : String

pub record MachineWorkOrder : Type 0 where
  pub work_order_id : String
  pub machine_id : Option String
  pub stage : WorkOrderStage
  pub requirement : WorkOrderRequirement
  pub settlement : SettlementTerms
  pub created_at : String
  pub updated_at : String
  pub telemetry_ref : Option String
  pub proof_id : Option String
  pub settlement_intent_id : Option String
  pub result_ref : Option String

-- The edges of the table `next`, in its order.
unfoldable pub next : WorkOrderStage → List WorkOrderStage
next queued = assigned ∷ cancelled ∷ []
next assigned = preparing ∷ cancelled ∷ failed ∷ []
next preparing = working ∷ failed ∷ cancelled ∷ []
next working = proof_submitted ∷ failed ∷ []
next proof_submitted = settled ∷ failed ∷ []
next settled = []
next failed = []
next cancelled = []

within : ℕ → ℕ → ℕ → Bool
within low high c = leb low c && leb c high

-- [a-z0-9] without regard to case, which for an expression without the flag `u` is ASCII only
is_id_start : ℕ → Bool
unfolding within
is_id_start c = within b'a' b'z' c || (within b'A' b'Z' c || within b'0' b'9' c)

is_id_char : ℕ → Bool
unfolding is_id_start
is_id_char c =
    is_id_start c || (nat_eq c b'.' || (nat_eq c b'_' || (nat_eq c b':' || nat_eq c b'-')))

is_id_chars : ℕ → Chars → Bool
unfolding is_id_char
is_id_chars most [] = false
is_id_chars most (c ∷ cs) =
    is_id_start c && (leb 2 (length cs) && (leb (length cs) most && all is_id_char cs))

-- /^[a-z0-9][a-z0-9._:-]{2,most}$/i
unfoldable pub is_id : ℕ → String → Bool
unfolding is_id_chars
is_id most text = is_id_chars most (codes text)

-- The order takes its place in the queue, whatever stage and times the input names.
unfoldable pub create_work_order : MachineWorkOrder → String → Result MachineWorkOrder
unfolding is_id
create_work_order input now =
    if not (is_id 90 input.work_order_id)
    then err "invalid work order id"
    else if nat_eq (length input.requirement.capabilities) 0
    then err "work order requires capabilities"
    else ok (record input { stage = queued; created_at = now; updated_at = now })

abbrev pub allowed_work_order_actions : MachineWorkOrder → List WorkOrderStage
allowed_work_order_actions order = next order.stage

abbrev pub same_stage : WorkOrderStage → WorkOrderStage → Bool
same_stage queued queued = true
same_stage assigned assigned = true
same_stage preparing preparing = true
same_stage working working = true
same_stage proof_submitted proof_submitted = true
same_stage settled settled = true
same_stage failed failed = true
same_stage cancelled cancelled = true
same_stage _ _ = false

-- Is an optional text there, and not empty?
abbrev pub filled : Option String → Bool
filled none = false
filled (some text) = not (text == "")

abbrev pub wanted : Option Bool → Bool
wanted none = false
wanted (some b) = b

abbrev pub reason_if : Bool → String → List String
reason_if true reason = reason ∷ []
reason_if false reason = []

unfoldable pub validate_work_order_requirements : MachineWorkOrder → List String
validate_work_order_requirements order =
    reason_if (wanted order.requirement.telemetry_required && not (filled order.telemetry_ref))
      "telemetry reference required"
    ++ reason_if (wanted order.requirement.proof_required && not (filled order.proof_id))
        "proof required"
    ++ reason_if (same_stage order.stage settled && not (filled order.settlement_intent_id))
        "settlement intent required"

-- `none` leaves a field; `some v` sets it, and v may be undefined.
pub record WorkOrderPatch : Type 0 where
  pub machine_id : Option (Option String)
  pub telemetry_ref : Option (Option String)
  pub proof_id : Option (Option String)
  pub settlement_intent_id : Option (Option String)
  pub result_ref : Option (Option String)

abbrev pub patched : Option (Option String) → Option String → Option String
patched none old = old
patched (some new) old = new

unfoldable pub candidate :
    MachineWorkOrder → WorkOrderStage → WorkOrderPatch → String → MachineWorkOrder
candidate order to patch now = record order {
  machine_id = patched patch.machine_id order.machine_id;
  telemetry_ref = patched patch.telemetry_ref order.telemetry_ref;
  proof_id = patched patch.proof_id order.proof_id;
  settlement_intent_id = patched patch.settlement_intent_id order.settlement_intent_id;
  result_ref = patched patch.result_ref order.result_ref;
  stage = to;
  updated_at = now;
}

abbrev pub needs_requirements : WorkOrderStage → Bool
needs_requirements proof_submitted = true
needs_requirements settled = true
needs_requirements _ = false

-- The messages join the reasons, or name the stages.
unfoldable pub transition_work_order :
    MachineWorkOrder → WorkOrderStage → WorkOrderPatch → String → Result MachineWorkOrder
transition_work_order order to patch now =
    if not (any (same_stage to) (next order.stage))
    then err "invalid work order transition"
    else if needs_requirements to
        && not (nat_eq (length (validate_work_order_requirements (candidate order to patch now))) 0)
    then err "requirements are missing"
    else ok (candidate order to patch now)

unfoldable pub validate_work_order_requirement : WorkOrderRequirement → List String
unfolding is_id
validate_work_order_requirement requirement =
    reason_if (nat_eq (length requirement.capabilities) 0) "at least one capability is required"
    ++ reason_if
        (not
          (nat_eq (length (distinct requirement.capabilities)) (length requirement.capabilities)))
        "duplicate capabilities are not allowed"
    ++ reason_if
        (elim requirement.expected_outputs [
          | none ↦ false
          | some outputs ↦ any (λ o. not (is_id 96 o)) outputs
        ])
        "expected output references must be stable ids"

pub data WorkActionKind : Type 0 where
  assign prepare start submit_proof settle cancel fail : WorkActionKind

pub record WorkActionFeedback : Type 0 where
  pub action : WorkActionKind
  pub allowed : Bool
  pub stage : WorkOrderStage
  pub reasons : List String
  pub required_capabilities : List String

base : MachineWorkOrder → WorkActionKind → Bool → List String → WorkActionFeedback
base order action allowed reasons = record {
  action = action;
  allowed = allowed;
  stage = order.stage;
  reasons = reasons;
  required_capabilities = order.requirement.capabilities;
}

unfoldable pub feedback_at : WorkOrderStage → MachineWorkOrder → List WorkActionFeedback
unfolding base
feedback_at queued order = base order assign true [] ∷ base order cancel true [] ∷ []
feedback_at assigned order =
    base order prepare (filled order.machine_id)
      (reason_if (not (filled order.machine_id)) "machine assignment required")
    ∷ base order cancel true []
    ∷ base order fail true []
    ∷ []
feedback_at preparing order =
    base order start true [] ∷ base order fail true [] ∷ base order cancel true [] ∷ []
feedback_at working order =
    base order submit_proof (filled order.telemetry_ref)
      (reason_if (not (filled order.telemetry_ref)) "telemetry reference required")
    ∷ base order fail true []
    ∷ []
feedback_at proof_submitted order =
    let ready = filled order.proof_id && filled order.settlement_intent_id in
    base order settle ready (reason_if (not ready) "proof and settlement intent required")
    ∷ base order fail true []
    ∷ []
feedback_at _ order = []

unfoldable pub next_action_feedback : MachineWorkOrder → List WorkActionFeedback
unfolding feedback_at
next_action_feedback order = feedback_at order.stage order

-- The reasons, which the error joins; none is no error.
unfoldable pub settlement_reasons : MachineWorkOrder → List String
settlement_reasons order =
    reason_if (not (same_stage order.stage proof_submitted)) "stage is not ready for settlement"
    ++ reason_if (not (filled order.proof_id)) "proof id required"
    ++ reason_if (not (filled order.telemetry_ref)) "telemetry reference required"
    ++ reason_if (not (filled order.settlement_intent_id)) "settlement intent required"
