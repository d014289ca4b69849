-- ===== src/Tests/Streams.antt =====
-- Streams, rates and work orders.
use machina_sol.Prelude.{
  all, codes, includes, ◌≤◌, ◌≡◌, refl, true, false, none, some, [], ◌∷◌, map, any, arith, ok,
}
use machina_sol.Dict.{get}
use machina_sol.Telemetry.Snapshot.{MachineHealth}
use machina_sol.Store.Types.{TelemetryEventRecord}
use machina_sol.Hub.{can_subscribe, Subscriber, Sockets, subscribe, publish}
use machina_sol.Hub.Laws.{IsBounded, owned_by, subscribe-IsBounded, publish-reached, reached}
use machina_sol.RateLimit.{RequestRateLimiter, assert, assert-bound}
use machina_sol.RateLimit.Window.{passed, passed-limit}
use machina_sol.Prelude.{length}
use machina_sol.WorkOrder.{
  candidate, next, WorkOrderStage, MachineWorkOrder, WorkOrderPatch, create_work_order,
  transition_work_order, next_action_feedback, allowed_work_order_actions, settlement_reasons,
}
use machina_sol.WorkOrder.Laws.{
  Reaches, IsReady, target, Reaches-ends, Reaches-IsReady, next_action_feedback-targets,
  settlement_reasons-settles,
}

abbrev stream : Subscriber
stream = record { response = 1; user_id = "ada"; machine_ids = "robot" ∷ [] }

abbrev pub open_sockets : Sockets
open_sockets = record { destroyed = λ r. false; write = λ r. true }

abbrev event : TelemetryEventRecord
event = record {
  id = "event";
  machine_id = "robot";
  received_at = "2026-01-01";
  snapshot = record {
    machine_id = "robot";
    observed_at = "2026-01-01";
    battery_pct = none;
    health = MachineHealth.nominal;
    signal_pct = none;
    progress_pct = none;
    location = none;
    pose = none;
    telemetry_ref = none;
  };
}

no_streams-IsBounded : IsBounded []
unfolding owned_by
no_streams-IsBounded = record { total = ground arith; per_user = λ user_id. ground arith }

subscribes : subscribe "ada" ("robot" ∷ []) 1 [] ≡ some (stream ∷ [])
unfolding subscribe can_subscribe
subscribes = refl

publish-reached_example :
    (publish open_sockets "ada" event (stream ∷ [])).1
    ≡ reached open_sockets "ada" event.machine_id (stream ∷ [])
publish-reached_example = publish-reached open_sockets "ada" event (stream ∷ [])

reaches : reached open_sockets "ada" event.machine_id (stream ∷ []) ≡ 1 ∷ []
unfolding reached includes
reaches = refl

one_stream-IsBounded : IsBounded (stream ∷ [])
one_stream-IsBounded =
    subscribe-IsBounded "ada" ("robot" ∷ []) 1 [] (stream ∷ []) subscribes no_streams-IsBounded

abbrev limiter : RequestRateLimiter
limiter = record { limit = 2; window_ms = 60; max_keys = 4; buckets = [] }

key_unseen : get "key" limiter.buckets ≡ none
unfolding get
key_unseen = refl

-- The key asks three times, and another key in between.
passed-limit_example :
    passed "key" (("key", 5) ∷ ("other", 6) ∷ ("key", 6) ∷ ("key", 7) ∷ []) limiter ≤ 2
passed-limit_example =
    passed-limit limiter "key" 5 (("other", 6) ∷ ("key", 6) ∷ ("key", 7) ∷ []) (ground arith)
      key_unseen (λ _. ground arith, (λ _. ground arith, (λ _. ground arith, tt))) (ground arith)

assert-bound_example : length (assert limiter "key" 5).0.buckets ≤ 4
assert-bound_example = assert-bound limiter "key" 5 (ground arith) (ground arith)

abbrev work : MachineWorkOrder
work = record {
  work_order_id = "order-1";
  machine_id = some "robot";
  stage = WorkOrderStage.queued;
  requirement = record {
    capabilities = "mapping" ∷ [];
    telemetry_required = some true;
    proof_required = none;
    expected_outputs = none;
  };
  settlement = record { chain = "solana"; amount = "1"; asset = "SOL"; recipient = "bob-wallet" };
  created_at = "2026-01-01";
  updated_at = "2026-01-01";
  telemetry_ref = some "telemetry";
  proof_id = some "proof";
  settlement_intent_id = some "intent";
  result_ref = none;
}

creates : create_work_order work "2026-01-01" ≡ ok work
unfolding create_work_order codes all
creates = refl

abbrev nothing_new : WorkOrderPatch
nothing_new = record {
  machine_id = none;
  telemetry_ref = none;
  proof_id = none;
  settlement_intent_id = none;
  result_ref = none;
}

abbrev assigned_work : MachineWorkOrder
assigned_work = record work { stage = WorkOrderStage.assigned; updated_at = "2026-01-02" }

assigns :
    transition_work_order work WorkOrderStage.assigned nothing_new "2026-01-02" ≡ ok assigned_work
unfolding transition_work_order any next candidate
assigns = refl

order_reached : Reaches 1 assigned_work
order_reached =
    Reaches.moved 0 work assigned_work WorkOrderStage.assigned nothing_new "2026-01-02"
      (Reaches.created work work "2026-01-01" creates) assigns

Reaches-ends_example : 1 ≤ 5
Reaches-ends_example = Reaches-ends 1 assigned_work order_reached

Reaches-IsReady_example : IsReady assigned_work
Reaches-IsReady_example = Reaches-IsReady 1 assigned_work order_reached

next_action_feedback-targets_example :
    map target (next_action_feedback work) ≡ allowed_work_order_actions work
next_action_feedback-targets_example = next_action_feedback-targets work

abbrev proved_work : MachineWorkOrder
proved_work = record work { stage = WorkOrderStage.proof_submitted }

no_reasons_left : settlement_reasons proved_work ≡ []
unfolding settlement_reasons
no_reasons_left = refl

settlement_reasons-settles_example :
    (order : MachineWorkOrder) × (transition_work_order proved_work WorkOrderStage.settled
        nothing_new "2026-01-03"
      ≡ ok order)
    × (order.stage ≡ WorkOrderStage.settled)
settlement_reasons-settles_example =
    settlement_reasons-settles proved_work "2026-01-03" no_reasons_left
