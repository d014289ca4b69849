-- ===== src/Server/Routes/Settlements.antt =====
-- The routes that list, show, create and cancel settlements (src/server/production/app.ts).
use machina_sol.Prelude.{
  ℕ, ◌+◌, ◌*◌, ◌/◌, ◌%◌, ◌^◌, ltb, leb, nat_eq, String, Bool, true, false, not, ◌&&◌, ◌||◌, Option,
  none, some, [], ◌∷◌, map, codes, is_some, ◌==◌, if◌then◌else◌,
}
use machina_sol.Number.{of_nat}
use machina_sol.Texts.{text_of_nat}
use machina_sol.Store.Types.{
  AuthSessionRecord, OwnedMachineRecord, PersistentResourceRequest, PersistentResourceQuote,
  SettlementRecord, SettlementState,
}
use machina_sol.Store.Lamports.{parts_of}
use machina_sol.Store.Requests.{resource_request, same_option}
use machina_sol.Store.Acceptance.{accepted_resource_quote}
use machina_sol.Store.Machines.{machine}
use machina_sol.Store.Settlements.{
  SettlementPatch, is_payable, settlement, list_settlements, settlement_for_resource_request,
  create_settlement_for_accepted_request, transition_settlement,
}
use machina_sol.Server.World.{
  Outside, App, Outcome, done, refused, crashed, pure, lift, ensure, require, read, change, now_iso,
  uuid, ◌>>=◌, ◌>>◌,
}
use machina_sol.Server.Http.{Request, ServerConfig, assert_origin_allowed, read_json_body}
use machina_sol.Server.Inputs.{required_text, requested_list_limit}
use machina_sol.Server.Public.{flag, array_of, public_settlement}
use machina_sol.Server.Auth.{authenticate}
use machina_sol.Server.Response.{
  Response, respond, yes_ok, use_get, json_mutation, assert_settlement_rate, require_owned_machine,
  segment,
}
use machina_sol.Server.Routes.Machines.{is_post}

unfoldable pub bounded_lamports : ℕ → Outcome ℕ
bounded_lamports lamports =
    if leb lamports 0 || ltb 100_000_000_000_000 lamports
    then refused 422 "quoted settlement amount is outside policy bounds"
    else done lamports

unfoldable pub product_of : Option (ℕ × ℕ) → Option (ℕ × ℕ) → Outcome ℕ
unfolding bounded_lamports
product_of (some (a, a_scale)) (some (b, b_scale)) =
    let numerator = a * b * 1_000_000_000 in
    let denominator = 10 ^ (a_scale + b_scale) in
    if not (nat_eq (numerator % denominator) 0)
    then refused 422 "quoted settlement has sub-lamport precision"
    else bounded_lamports (numerator / denominator)
product_of _ _ = crashed

-- BigInt throws where a part is no digits.
unfoldable pub quoted_sol_to_lamports : String → String → Outcome ℕ
unfolding product_of
quoted_sol_to_lamports price quantity =
    product_of (parts_of (codes price)) (parts_of (codes quantity))

-- An accepted or granted request with a provider.
payable_request : Option PersistentResourceRequest → Option PersistentResourceRequest
payable_request none = none
payable_request (some r) =
    if is_payable r.state && is_some r.provider_machine_id then some r else none

abbrev pub reached_submission : SettlementState → Bool
reached_submission SettlementState.submitting = true
reached_submission SettlementState.submitted = true
reached_submission SettlementState.confirmed = true
reached_submission _ = false

abbrev pub is_failed : SettlementState → Bool
is_failed SettlementState.failed = true
is_failed _ = false

-- A settlement that the request has already is answered, unless its transaction may be out.
unfoldable pub resume : SettlementRecord → App Response
resume existing = do
  ensure (not (reached_submission existing.state)) 409
      "settlement already reached submission; resume status reconciliation instead"
  respond 200 (
      yes_ok
      ∷ ("settlement", public_settlement existing)
      ∷ ("resumed", flag true)
      ∷ (
        "resumable",
        flag (
            not (is_failed existing.state)
            || not (same_option existing.error_code (some "SUBMISSION_UNAVAILABLE"))),
      )
      ∷ [])

payable_quote :
    PersistentResourceRequest → Option PersistentResourceQuote → Option PersistentResourceQuote
payable_quote r none = none
payable_quote r (some q) =
    if q.asset == "SOL"
      && (same_option (some q.provider_machine_id) r.provider_machine_id
          && same_option (some q.capability_id) r.capability_id)
    then some q
    else none

-- The settlement that a request and its accepted quote call for.
unfoldable pub new_settlement :
    (id at : String)
    → AuthSessionRecord
    → PersistentResourceRequest
    → PersistentResourceQuote
    → (requester provider : OwnedMachineRecord) → ℕ
    → SettlementRecord
new_settlement id at session request quote requester provider lamports = record {
  id = id;
  resource_request_id = request.id;
  resource_quote_id = quote.id;
  owner_user_id = session.user_id;
  machine_id = requester.machine_id;
  source_wallet = session.wallet_address;
  recipient_wallet = provider.wallet_address;
  amount_lamports = text_of_nat lamports;
  state = SettlementState.created;
  unsigned_transaction = none;
  transaction_signature = none;
  last_valid_block_height = none;
  error_code = none;
  created_at = at;
  updated_at = at;
}

unfoldable pub settle_request :
    Outside → AuthSessionRecord → (request_id : String) → PersistentResourceRequest → App Response
unfolding payable_quote
settle_request o session request_id request = do
  found ← read o (λ s. accepted_resource_quote s session.user_id request_id)
  quote ←
      require (payable_quote request found) 422
        "settlement requires the selected accepted SOL quote"
  requester ← require_owned_machine o session.user_id request.requester_machine_id
  provided ← read o (λ s. machine s quote.provider_machine_id)
  provider ← require provided 409 "provider machine is unavailable"
  at ← now_iso o
  id ← uuid o
  lamports ← lift (quoted_sol_to_lamports quote.amount request.quantity)
  created ← change o (λ s.
      create_settlement_for_accepted_request s
        (new_settlement id at session request quote requester provider lamports))
  r ← require created 409 "settlement already exists or trusted request/quote linkage changed"
  respond 201 (yes_ok ∷ ("settlement", public_settlement r) ∷ [])

unfoldable pub resume_or_settle :
    Outside
    → AuthSessionRecord
    → (request_id : String) → PersistentResourceRequest
    → Option SettlementRecord
    → App Response
resume_or_settle o session request_id request (some existing) = resume existing
resume_or_settle o session request_id request none = settle_request o session request_id request

unfoldable pub create_settlement_route :
    Outside → ServerConfig → Request → AuthSessionRecord → App Response
unfolding payable_request settle_request
create_settlement_route o config req session = do
  json_mutation req "POST"
  lift (assert_origin_allowed o config req)
  assert_settlement_rate o req session.user_id
  body ← read_json_body o req
  request_id ← lift (required_text 128 body "resourceRequestId")
  found ← read o (λ s. resource_request s session.user_id request_id)
  request ←
      require (payable_request found) 422
        "settlement requires an accepted or granted resource request with a persisted SOL quote"
  existing ← read o (λ s. settlement_for_resource_request s session.user_id request_id)
  resume_or_settle o session request_id request existing

unfoldable pub list_settlements_route : Outside → Request → AuthSessionRecord → App Response
list_settlements_route o req session = do
  most ← lift (requested_list_limit req)
  found ← read o (λ s. list_settlements o.env s session.user_id (some (of_nat most)))
  respond 200 (yes_ok ∷ ("settlements", array_of (map public_settlement found)) ∷ [])

-- /api/settlements
unfoldable pub settlements_route : Outside → ServerConfig → Request → App Response
unfolding list_settlements_route create_settlement_route
settlements_route o config req = do
  session ← authenticate o req (is_post req)
  if req.method == "GET"
      then list_settlements_route o req session
      else create_settlement_route o config req session

-- /api/settlements/<id>
unfoldable pub settlement_route : Outside → Request → String → App Response
settlement_route o req part = do
  use_get req
  session ← authenticate o req false
  id ← segment o part
  found ← read o (λ s. settlement s session.user_id id)
  r ← require found 404 "settlement not found"
  respond 200 (yes_ok ∷ ("settlement", public_settlement r) ∷ [])

-- The checks of an action on a settlement: the session, the settlement's key and the settlement.
unfoldable pub guard_settlement :
    Outside → ServerConfig → Request → String → App (AuthSessionRecord × String × SettlementRecord)
guard_settlement o config req part = do
  json_mutation req "POST"
  lift (assert_origin_allowed o config req)
  session ← authenticate o req true
  assert_settlement_rate o req session.user_id
  id ← segment o part
  found ← read o (λ s. settlement s session.user_id id)
  r ← require found 404 "settlement not found"
  pure (session, id, r)

-- A patch of the state and the error code.
abbrev pub moved : SettlementState → String → Option (Option String) → SettlementPatch
moved state at error_code = record {
  state = state;
  updated_at = at;
  unsigned_transaction = none;
  transaction_signature = none;
  last_valid_block_height = none;
  error_code = error_code;
}

abbrev pub may_cancel : SettlementState → Bool
may_cancel SettlementState.created = true
may_cancel SettlementState.awaiting_signature = true
may_cancel _ = false

-- /api/settlements/<id>/cancel
unfoldable pub cancel_settlement_route : Outside → ServerConfig → Request → String → App Response
cancel_settlement_route o config req part = do
  (session, id, r) ← guard_settlement o config req part
  at ← now_iso o
  ensure (may_cancel r.state) 409 "only an unsubmitted settlement can be cancelled"
  changed ← change o (λ s.
      transition_settlement s session.user_id id r.state
        (moved SettlementState.cancelled at (some (some "SIGNING_CANCELLED"))))
  updated ← require changed 409 "settlement state changed while cancelling"
  respond 200 (yes_ok ∷ ("cancelled", flag true) ∷ ("settlement", public_settlement updated) ∷ [])
