-- ===== src/Store/Receipts.antt =====
-- Receipts of granted access, and what they do to the request.
use mathlib.Core.List.{head?}
use machina_sol.Prelude.{
  String, Bool, true, false, not, ◌&&◌, ◌||◌, Option, none, some, filter, sort, ◌==◌, if◌then◌else◌,
}
use machina_sol.Dict.{get, put, values}
use machina_sol.Store.Types.{
  PersistentAccessGrant, PersistentResourceReceipt, SettlementRecord, ResourceRequestState,
  ResourceReceiptState, SettlementState,
}
use machina_sol.Store.State.{Env, ProductionStore, is_expired}
use machina_sol.Store.Machines.{newest}
use machina_sol.Store.Events.{or_compare}
use machina_sol.Store.Grants.{is_active_grant, expire_grant, has_live_receipt, advance_request}

pub record CreateResourceReceiptInput : Type 0 where
  pub resource_request_id : String
  pub access_grant_id : String
  pub settlement_id : Option String
  pub evidence_reference : Option String
  pub result_reference : Option String

abbrev pub is_confirmed : SettlementState → Bool
is_confirmed SettlementState.confirmed = true
is_confirmed _ = false

-- A named settlement is confirmed, and of the request.
unfoldable pub settles : String → Option SettlementRecord → Bool
settles request_id none = false
settles request_id (some t) = t.resource_request_id == request_id && is_confirmed t.state

unfoldable pub has_settlement : ProductionStore → String → Option String → Bool
unfolding settles
has_settlement s request_id none = true
has_settlement s request_id (some id) = settles request_id (get id s.settlements)

unfoldable pub new_receipt :
    String
    → String
    → CreateResourceReceiptInput
    → PersistentAccessGrant
    → String
    → PersistentResourceReceipt
new_receipt id user_id input grant now = record {
  id = id;
  resource_request_id = input.resource_request_id;
  access_grant_id = grant.id;
  settlement_id = input.settlement_id;
  provider_owner_user_id = user_id;
  requester_owner_user_id = grant.requester_owner_user_id;
  state = ResourceReceiptState.recorded;
  evidence_reference = input.evidence_reference;
  result_reference = input.result_reference;
  created_at = now;
  updated_at = now;
}

-- `id` is the new UUID.
unfoldable pub create_resource_receipt :
    ProductionStore
    → String
    → String
    → CreateResourceReceiptInput
    → String
    → ProductionStore × Option PersistentResourceReceipt
create_resource_receipt s id user_id input now = elim (get input.access_grant_id s.grants) [
  | none ↦ (s, none)
  | some grant ↦
      if not (grant.resource_request_id == input.resource_request_id)
        || (not (grant.provider_owner_user_id == user_id) || not (is_active_grant grant.state))
      then (s, none)
      else if is_expired grant.expires_at now
      then (expire_grant grant.id grant now s, none)
      else if has_live_receipt s input.resource_request_id
          || not (has_settlement s input.resource_request_id input.settlement_id)
      then (s, none)
      else (
        record s {
          resource_receipts = put id (new_receipt id user_id input grant now) s.resource_receipts;
        },
        some (new_receipt id user_id input grant now),
      )
]

unfoldable pub resource_receipt :
    Env → ProductionStore → String → String → Option PersistentResourceReceipt
resource_receipt env s user_id request_id = head? (
    sort (λ a b. or_compare (newest env a.created_at b.created_at) (env.locale_compare b.id a.id))
      (filter
        (λ r.
          r.resource_request_id == request_id
          && (r.provider_owner_user_id == user_id || r.requester_owner_user_id == user_id))
        (values s.resource_receipts)))

abbrev pub same_receipt_state : ResourceReceiptState → ResourceReceiptState → Bool
same_receipt_state ResourceReceiptState.recorded ResourceReceiptState.recorded = true
same_receipt_state ResourceReceiptState.verified ResourceReceiptState.verified = true
same_receipt_state ResourceReceiptState.rejected ResourceReceiptState.rejected = true
same_receipt_state _ _ = false

abbrev pub is_recorded : ResourceReceiptState → Bool
is_recorded ResourceReceiptState.recorded = true
is_recorded _ = false

-- The two outcomes that a requester may give a receipt.
pub data Outcome : Type 0 where
  verified rejected : Outcome

abbrev pub outcome_state : Outcome → ResourceReceiptState
outcome_state verified = ResourceReceiptState.verified
outcome_state rejected = ResourceReceiptState.rejected

-- state === 'granted' || state === 'accepted'
abbrev pub is_fulfillable : ResourceRequestState → Bool
is_fulfillable ResourceRequestState.granted = true
is_fulfillable ResourceRequestState.accepted = true
is_fulfillable _ = false

unfoldable pub follow_receipt : Outcome → String → String → ProductionStore → ProductionStore
follow_receipt verified request_id now s =
    advance_request is_fulfillable ResourceRequestState.fulfilled request_id now s
follow_receipt rejected request_id now s = s

unfoldable pub transition_resource_receipt :
    ProductionStore
    → String
    → String
    → ResourceReceiptState
    → Outcome
    → String
    → ProductionStore × Option PersistentResourceReceipt
transition_resource_receipt s user_id receipt_id from to now =
    elim (get receipt_id s.resource_receipts) [
      | none ↦ (s, none)
      | some receipt ↦
          let updated = record receipt { state = outcome_state to; updated_at = now } in
          if not (receipt.requester_owner_user_id == user_id)
            || (not (same_receipt_state receipt.state from) || not (is_recorded from))
          then (s, none)
          else (
            follow_receipt to receipt.resource_request_id now
                (record s { resource_receipts = put receipt_id updated s.resource_receipts }),
            some updated,
          )
    ]
