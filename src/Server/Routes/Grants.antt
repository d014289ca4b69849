-- ===== src/Server/Routes/Grants.antt =====
-- The routes of access grants and receipts (src/server/production/app.ts).
use machina_sol.Prelude.{String, false, not, Option, none, some, [], ◌∷◌, ◌==◌, if◌then◌else◌}
use machina_sol.Json.{Json}
use machina_sol.Store.Types.{
  AuthSessionRecord, PersistentAccessGrant, AccessGrantState, ResourceReceiptState,
}
use machina_sol.Store.State.{is_expired}
use machina_sol.Store.Grants.{
  CreateAccessGrantInput, create_access_grant, access_grant, transition_access_grant,
}
use machina_sol.Store.Receipts.{
  CreateResourceReceiptInput, create_resource_receipt, resource_receipt,
  transition_resource_receipt,
}
use machina_sol.Store.Receipts as StoreReceipts
use machina_sol.Store.Settlements.{receipt_settlement}
use machina_sol.Server.World.{
  Outside, App, Outcome, done, refused, crashed, pure, lift, ensure, require, read, change, now_iso,
  uuid, ◌>>=◌, ◌>>◌,
}
use machina_sol.Server.Http.{Request, ServerConfig, read_json_body}
use machina_sol.Server.Inputs.{required_text, optional_text, optional_iso_timestamp}
use machina_sol.Server.Public.{public_grant, public_receipt, projection_json}
use machina_sol.Server.Auth.{authenticate}
use machina_sol.Server.Response.{
  Response, respond, yes_ok, use_get, guard_post, guard_mutation, segment,
}
use machina_sol.Server.Routes.Machines.{is_post}
use machina_sol.Server.Routes.Requests.{grant_json, receipt_json}

unfoldable pub show_grant_route : Outside → AuthSessionRecord → String → App Response
show_grant_route o session id = do
  at ← now_iso o
  grant ← change o (λ s. access_grant o.env s session.user_id id at)
  respond 200 (yes_ok ∷ ("grant", grant_json grant) ∷ [])

unfoldable pub create_grant_route :
    Outside → ServerConfig → Request → AuthSessionRecord → String → App Response
create_grant_route o config req session id = do
  guard_mutation o config req "POST" session.user_id "marketplace-grants"
  body ← read_json_body o req
  expires_at ← lift (optional_iso_timestamp o body "expiresAt")
  at ← now_iso o
  ensure (not (is_expired expires_at at)) 422 "grant expiresAt must be in the future"
  quote_id ← lift (required_text 128 body "quoteId")
  access_reference ← lift (optional_text 256 body "accessReference")
  grant_id ← uuid o
  let input : CreateAccessGrantInput = record {
    resource_request_id = id;
    resource_quote_id = quote_id;
    access_reference = access_reference;
    expires_at = expires_at;
  }
  created ← change o (λ s. create_access_grant s grant_id session.user_id input at)
  grant ←
      require created 409
        "access grant requires an accepted provider-owned quote and must be unique"
  respond 201 (yes_ok ∷ ("grant", public_grant grant) ∷ [])

-- /api/marketplace/requests/<id>/grant
unfoldable pub grant_route : Outside → ServerConfig → Request → String → App Response
unfolding show_grant_route create_grant_route
grant_route o config req part = do
  session ← authenticate o req (is_post req)
  id ← segment o part
  if req.method == "GET"
      then show_grant_route o session id
      else create_grant_route o config req session id

pub data GrantAction : Type 0 where
  activate revoke expire : GrantAction

abbrev pub first_from : GrantAction → AccessGrantState
first_from GrantAction.activate = AccessGrantState.pending
first_from GrantAction.revoke = AccessGrantState.pending
first_from GrantAction.expire = AccessGrantState.active

abbrev pub action_state : GrantAction → AccessGrantState
action_state GrantAction.activate = AccessGrantState.active
action_state GrantAction.revoke = AccessGrantState.revoked
action_state GrantAction.expire = AccessGrantState.expired

unfoldable pub move_grant :
    Outside
    → (user_id id : String) → (from to : AccessGrantState) → App (Option PersistentAccessGrant)
move_grant o user_id id from to = do
  at ← now_iso o
  change o (λ s. transition_access_grant s user_id id from to at)

-- The second attempt; an activation has none.
unfoldable pub second_move :
    Outside
    → (user_id id : String) → GrantAction
    → Option PersistentAccessGrant
    → App (Option PersistentAccessGrant)
unfolding move_grant
second_move o user_id id action (some grant) = pure (some grant)
second_move o user_id id GrantAction.activate none = pure none
second_move o user_id id GrantAction.revoke none =
    move_grant o user_id id AccessGrantState.active AccessGrantState.revoked
second_move o user_id id GrantAction.expire none =
    move_grant o user_id id AccessGrantState.pending AccessGrantState.expired

-- /api/marketplace/grants/<id>/(activate|revoke|expire)
unfoldable pub grant_action_route :
    Outside → ServerConfig → Request → String → GrantAction → App Response
unfolding move_grant second_move
grant_action_route o config req part action = do
  session ← guard_post o config req "marketplace-grants"
  id ← segment o part
  first ← move_grant o session.user_id id (first_from action) (action_state action)
  second ← second_move o session.user_id id action first
  grant ← require second 409 "access grant transition is unauthorized or invalid"
  respond 200 (yes_ok ∷ ("grant", public_grant grant) ∷ [])

-- /api/marketplace/requests/<id>/receipt-settlement
unfoldable pub receipt_settlement_route : Outside → Request → String → App Response
receipt_settlement_route o req part = do
  use_get req
  session ← authenticate o req false
  id ← segment o part
  found ← read o (λ s. receipt_settlement o.env s session.user_id id)
  settlement ← require found 404 "confirmed receipt-linked settlement not found"
  respond 200 (yes_ok ∷ ("settlement", projection_json settlement) ∷ [])

unfoldable pub show_receipt_route : Outside → AuthSessionRecord → String → App Response
show_receipt_route o session id = do
  receipt ← read o (λ s. resource_receipt o.env s session.user_id id)
  respond 200 (yes_ok ∷ ("receipt", receipt_json receipt) ∷ [])

-- textValue(body, 'accessGrantId', …) ?? textValue(body, 'grantId', { required: true, … })!
grant_id_of : Json → Outcome (Option String) → Outcome String
grant_id_of body (done (some id)) = done id
grant_id_of body (done none) = required_text 128 body "grantId"
grant_id_of body (refused status message) = refused status message
grant_id_of body crashed = crashed

unfoldable pub create_receipt_route :
    Outside → ServerConfig → Request → AuthSessionRecord → String → App Response
unfolding grant_id_of
create_receipt_route o config req session id = do
  guard_mutation o config req "POST" session.user_id "marketplace-receipts"
  body ← read_json_body o req
  grant_id ← lift (grant_id_of body (optional_text 128 body "accessGrantId"))
  settlement_id ← lift (optional_text 128 body "settlementId")
  evidence ← lift (optional_text 256 body "evidenceReference")
  result ← lift (optional_text 256 body "resultReference")
  at ← now_iso o
  receipt_id ← uuid o
  let input : CreateResourceReceiptInput = record {
    resource_request_id = id;
    access_grant_id = grant_id;
    settlement_id = settlement_id;
    evidence_reference = evidence;
    result_reference = result;
  }
  created ← change o (λ s. create_resource_receipt s receipt_id session.user_id input at)
  receipt ←
      require created 409
        "receipt requires an active provider-owned grant and valid confirmed settlement linkage"
  respond 201 (yes_ok ∷ ("receipt", public_receipt receipt) ∷ [])

-- /api/marketplace/requests/<id>/receipt
unfoldable pub receipt_route : Outside → ServerConfig → Request → String → App Response
unfolding show_receipt_route create_receipt_route
receipt_route o config req part = do
  session ← authenticate o req (is_post req)
  id ← segment o part
  if req.method == "GET"
      then show_receipt_route o session id
      else create_receipt_route o config req session id

-- /api/marketplace/receipts/<id>/(verify|reject)
unfoldable pub receipt_action_route :
    Outside → ServerConfig → Request → String → StoreReceipts.Outcome → App Response
receipt_action_route o config req part outcome = do
  session ← guard_post o config req "marketplace-receipts"
  id ← segment o part
  at ← now_iso o
  changed ← change o (λ s.
      transition_resource_receipt s session.user_id id ResourceReceiptState.recorded outcome at)
  receipt ← require changed 409 "receipt transition is unauthorized or invalid"
  respond 200 (yes_ok ∷ ("receipt", public_receipt receipt) ∷ [])
