-- ===== src/Server/Routes/Sessions.antt =====
-- The routes of runtime sessions and work orders (src/server/production/app.ts).
use machina_sol.Prelude.{
  String, false, Option, none, some, List, [], ◌∷◌, all, map, includes, or_default, ◌==◌,
  if◌then◌else◌, Result, ok, err,
}
use machina_sol.Number.{of_nat}
use machina_sol.Json.{Json}
use machina_sol.Texts.{◌^^◌}
use machina_sol.Base58.{is_solana_address}
use machina_sol.Session.{
  RuntimeMode, CreateMachineSessionInput, MachineSession, create_machine_session,
}
use machina_sol.WorkOrder.{WorkOrderStage, MachineWorkOrder, create_work_order}
use machina_sol.Store.Types.{
  AuthSessionRecord, PersistentMachineCapability, PersistentRuntimeSession, PersistentWorkOrder,
}
use machina_sol.Store.Machines as StoreMachines
use machina_sol.Store.Machines.{
  create_runtime_session, list_runtime_sessions, end_runtime_session, list_work_orders,
}
use machina_sol.Store.Events.{list_machine_capabilities}
use machina_sol.Server.World.{
  Outside, App, Outcome, done, refused, crashed, pure, lift, ensure, require, read, change, now_iso,
  uuid, ◌>>=◌, ◌>>◌,
}
use machina_sol.Server.Http.{Request, ServerConfig, read_json_body}
use machina_sol.Server.Inputs.{
  parameter, required_text, optional_text, string_list, decimal, optional_boolean,
  requested_list_limit,
}
use machina_sol.Server.Public.{
  texts, array_of, object_of, public_runtime_session, public_work_order,
}
use machina_sol.Server.Auth.{authenticate}
use machina_sol.Server.Response.{
  Response, respond, yes_ok, guard_post, guard_mutation, require_owned_machine, segment,
}
use machina_sol.Server.Routes.Machines.{is_post, are_capabilities}

mode_text : RuntimeMode → String
mode_text RuntimeMode.fixture = "fixture"
mode_text RuntimeMode.live_read = "live-read"

stage_text : WorkOrderStage → String
stage_text WorkOrderStage.queued = "queued"
stage_text WorkOrderStage.assigned = "assigned"
stage_text WorkOrderStage.preparing = "preparing"
stage_text WorkOrderStage.working = "working"
stage_text WorkOrderStage.proof_submitted = "proof_submitted"
stage_text WorkOrderStage.settled = "settled"
stage_text WorkOrderStage.failed = "failed"
stage_text WorkOrderStage.cancelled = "cancelled"

-- A machine that the address or the body names must be the user's; the identifier is decoded for
-- that check only.
unfoldable pub require_owned_parameter :
    Outside → (user_id : String) → Option String → App (Unit {0})
require_owned_parameter o user_id none = pure tt
require_owned_parameter o user_id (some value) = do
  machine_id ← segment o value
  _ ← require_owned_machine o user_id machine_id
  pure tt

unfoldable pub require_owned_option : Outside → (user_id : String) → Option String → App (Unit {0})
require_owned_option o user_id none = pure tt
require_owned_option o user_id (some machine_id) = do
  _ ← require_owned_machine o user_id machine_id
  pure tt

unfoldable pub list_sessions_route : Outside → Request → AuthSessionRecord → App Response
list_sessions_route o req session = do
  let machine_id = parameter "machineId" req.query
  require_owned_parameter o session.user_id machine_id
  limit ← lift (requested_list_limit req)
  found ←
      read o (λ s. list_runtime_sessions o.env s session.user_id machine_id (some (of_nat limit)))
  respond 200 (yes_ok ∷ ("sessions", array_of (map public_runtime_session found)) ∷ [])

or_refused : {A : Type 0} → Result A → Outcome A
or_refused (ok a) = done a
or_refused (err message) = refused 400 message

-- The stored record of a session.
session_record : Outside → AuthSessionRecord → MachineSession → PersistentRuntimeSession
unfolding mode_text
session_record o owner m = record {
  session_id = m.session_id;
  owner_user_id = owner.user_id;
  machine_id = m.machine_id;
  chain = m.chain;
  wallet_address = m.wallet_address;
  operator_id = m.operator_id;
  policy_profile_id = m.policy_profile_id;
  mode = mode_text m.mode;
  nonce_hash = o.sha256 m.nonce;
  metadata = or_default m.metadata (object_of []);
  created_at = m.created_at;
  updated_at = m.updated_at;
  ended_at = none;
}

capability_texts : List PersistentMachineCapability → Json
capability_texts found = texts (map (λ (c : PersistentMachineCapability). c.capability) found)

unfoldable pub create_session_route :
    Outside → ServerConfig → Request → AuthSessionRecord → App Response
unfolding or_refused session_record capability_texts
create_session_route o config req session = do
  guard_mutation o config req "POST" session.user_id "runtime-sessions"
  body ← read_json_body o req
  machine_id ← lift (required_text 64 body "machineId")
  machine ← require_owned_machine o session.user_id machine_id
  capabilities ← read o (λ s. list_machine_capabilities s session.user_id machine_id)
  profile ← lift (optional_text 128 body "policyProfileId")
  fresh ← uuid o
  at ← now_iso o
  let input : CreateMachineSessionInput = record {
    wallet_address = machine.wallet_address;
    machine_id = machine_id;
    operator_id = session.user_id;
    policy_profile_id = some (or_default profile "standard-machine-policy");
    machine_label = some machine.label;
    mode = some RuntimeMode.live_read;
    nonce = none;
    now = none;
    metadata = some (object_of (("capabilities", capability_texts capabilities) ∷ []));
  }
  m ← lift (or_refused (create_machine_session o.dates o.sha256_hex24 input fresh at))
  let r = session_record o session m
  created ← change o (λ s. create_runtime_session s r)
  ensure created 409 "runtime session could not be created"
  respond 201 (yes_ok ∷ ("session", public_runtime_session r) ∷ [])

-- /api/runtime/sessions
unfoldable pub sessions_route : Outside → ServerConfig → Request → App Response
unfolding list_sessions_route create_session_route
sessions_route o config req = do
  session ← authenticate o req (is_post req)
  if req.method == "GET"
      then list_sessions_route o req session
      else create_session_route o config req session

-- /api/runtime/sessions/<id>/end
unfoldable pub end_session_route : Outside → ServerConfig → Request → String → App Response
end_session_route o config req part = do
  session ← guard_post o config req "runtime-sessions"
  session_id ← segment o part
  at ← now_iso o
  found ← change o (λ s. end_runtime_session s session.user_id session_id at)
  r ← require found 409 "runtime session was not found or is already ended"
  respond 200 (yes_ok ∷ ("session", public_runtime_session r) ∷ [])

unfoldable pub list_orders_route : Outside → Request → AuthSessionRecord → App Response
list_orders_route o req session = do
  let machine_id = parameter "machineId" req.query
  require_owned_parameter o session.user_id machine_id
  limit ← lift (requested_list_limit req)
  found ← read o (λ s. list_work_orders o.env s session.user_id machine_id (some (of_nat limit)))
  respond 200 (yes_ok ∷ ("workOrders", array_of (map public_work_order found)) ∷ [])

-- An order for a machine asks for capabilities that the machine advertises.
unfoldable pub require_advertised :
    Outside → (user_id : String) → Option String → List String → App (Unit {0})
require_advertised o user_id none required = pure tt
require_advertised o user_id (some machine_id) required = do
  found ← read o (λ s. list_machine_capabilities s user_id machine_id)
  ensure
      (all (λ c. includes c (map (λ (a : PersistentMachineCapability). a.capability) found))
        required)
      422 "assigned machine does not advertise all required capabilities"

-- An error of createWorkOrder is no HttpError.
or_crashed : {A : Type 0} → Result A → Outcome A
or_crashed (ok a) = done a
or_crashed (err message) = crashed

order_record : AuthSessionRecord → MachineWorkOrder → PersistentWorkOrder
unfolding stage_text
order_record owner w = record {
  work_order_id = w.work_order_id;
  owner_user_id = owner.user_id;
  machine_id = w.machine_id;
  stage = stage_text w.stage;
  required_capabilities = w.requirement.capabilities;
  telemetry_required = or_default w.requirement.telemetry_required false;
  proof_required = or_default w.requirement.proof_required false;
  expected_outputs = or_default w.requirement.expected_outputs [];
  settlement_chain = w.settlement.chain;
  settlement_amount = w.settlement.amount;
  settlement_asset = w.settlement.asset;
  settlement_recipient = w.settlement.recipient;
  telemetry_ref = none;
  proof_id = none;
  settlement_intent_id = none;
  result_ref = none;
  created_at = w.created_at;
  updated_at = w.updated_at;
}

unfoldable pub create_order_route :
    Outside → ServerConfig → Request → AuthSessionRecord → App Response
unfolding or_crashed order_record
create_order_route o config req session = do
  guard_mutation o config req "POST" session.user_id "work-orders"
  body ← read_json_body o req
  machine_id ← lift (optional_text 64 body "machineId")
  require_owned_option o session.user_id machine_id
  required ← lift (string_list 16 body "requiredCapabilities")
  ensure (are_capabilities required) 400 "at least one supported required capability is required"
  require_advertised o session.user_id machine_id required
  asset ← lift (optional_text 16 body "settlementAsset")
  ensure (or_default asset "SOL" == "SOL") 400 "SOL is the only supported settlement asset"
  recipient ← lift (required_text 44 body "settlementRecipient")
  ensure (is_solana_address recipient) 400 "invalid settlement recipient"
  amount ← lift (decimal o body "settlementAmount")
  outputs ← lift (string_list 16 body "expectedOutputs")
  at ← now_iso o
  id ← uuid o
  telemetry_required ← lift (optional_boolean body "telemetryRequired" false)
  proof_required ← lift (optional_boolean body "proofRequired" false)
  let input : MachineWorkOrder = record {
    work_order_id = "wo_" ^^ id;
    machine_id = machine_id;
    stage = WorkOrderStage.queued;
    requirement = record {
      capabilities = required;
      telemetry_required = some telemetry_required;
      proof_required = some proof_required;
      expected_outputs = some outputs;
    };
    settlement = record { chain = "solana"; amount = amount; asset = "SOL"; recipient = recipient };
    created_at = at;
    updated_at = at;
    telemetry_ref = none;
    proof_id = none;
    settlement_intent_id = none;
    result_ref = none;
  }
  w ← lift (or_crashed (create_work_order input at))
  let r = order_record session w
  created ← change o (λ s. StoreMachines.create_work_order s r)
  ensure created 409 "work order could not be created"
  respond 201 (yes_ok ∷ ("workOrder", public_work_order r) ∷ [])

-- /api/work-orders
unfoldable pub orders_route : Outside → ServerConfig → Request → App Response
unfolding list_orders_route create_order_route
orders_route o config req = do
  session ← authenticate o req (is_post req)
  if req.method == "GET"
      then list_orders_route o req session
      else create_order_route o config req session
