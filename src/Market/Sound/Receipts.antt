-- ===== src/Market/Sound/Receipts.antt =====
-- Receipts stay sound, and so does the request that a verified receipt fulfils.
use machina_sol.Prelude.{
  String, ◌≡◌, refl, true, false, not, ◌&&◌, ◌||◌, some, arith, ◌==◌, eq_iff, if_cases,
  option_cases,
}
use machina_sol.Dict.{Dict, get, put}
use machina_sol.Dict.Laws.{any-values-false}
use machina_sol.Dict.Unique.{Inherits, Inherits-IsUnique, put-Inherits, put-IsUnique}
use machina_sol.Store.Types.{
  PersistentAccessGrant, PersistentResourceReceipt, ResourceRequestState, ResourceReceiptState,
}
use machina_sol.Store.State.{ProductionStore, is_expired, is_live_receipt}
use machina_sol.Store.Grants.{has_live_receipt, is_active_grant}
use machina_sol.Store.Receipts.{
  CreateResourceReceiptInput, Outcome, outcome_state, is_fulfillable, has_settlement, new_receipt,
  same_receipt_state, is_recorded, follow_receipt, create_resource_receipt,
  transition_resource_receipt,
}
use machina_sol.Market.{received_for, IsSound}
use machina_sol.Market.Sound.Parts.{change_receipts-IsSound, After, stay}
use machina_sol.Market.Sound.Grants.{advance-IsSound, expire_grant-IsSound}

follow_receipt-IsSound :
    (to : Outcome) (request_id now : String) (s : ProductionStore)
    → IsSound s
    → IsSound (follow_receipt to request_id now s)
unfolding follow_receipt
follow_receipt-IsSound Outcome.verified request_id now s h =
    advance-IsSound is_fulfillable ResourceRequestState.fulfilled request_id now s refl h
follow_receipt-IsSound Outcome.rejected request_id now s h = h

-- A receipt is created where the request has no live one.
fresh_receipt :
    (s : ProductionStore) (user : String) (input : CreateResourceReceiptInput)
    (grant : PersistentAccessGrant) (id now j : String) (r : PersistentResourceReceipt) (t : String)
    → has_live_receipt s input.resource_request_id ≡ false
    → get j s.resource_receipts ≡ some r
    → received_for r ≡ some t
    → received_for (new_receipt id user input grant now) ≡ some t
    → j ≡ id
unfolding has_live_receipt new_receipt
fresh_receipt s user input grant id now j r t free e f new = absurd (
    ground (
      arith,
      eq_iff r.resource_request_id input.resource_request_id,
      any-values-false
          (λ x. x.resource_request_id == input.resource_request_id && is_live_receipt x.state) j r
          s.resource_receipts,
    ))

pub create_receipt-IsSound :
    (s : ProductionStore) (id user : String) (input : CreateResourceReceiptInput) (now : String)
    → IsSound s
    → After IsSound (create_resource_receipt s id user input now)
unfolding create_resource_receipt
create_receipt-IsSound s id user input now h =
    option_cases (After IsSound) (get input.access_grant_id s.grants) _ _ (λ _. stay h)
      λ grant _.
        if_cases (After IsSound)
          (not (grant.resource_request_id == input.resource_request_id)
            || (not (grant.provider_owner_user_id == user) || not (is_active_grant grant.state)))
          _ _ (λ _. stay h)
          λ _.
            if_cases (After IsSound) (is_expired grant.expires_at now) _ _
              (λ _. stay (expire_grant-IsSound grant.id now grant s h))
              λ _.
                if_cases (After IsSound)
                  (has_live_receipt s input.resource_request_id
                    || not (has_settlement s input.resource_request_id input.settlement_id))
                  _ _ (λ _. stay h)
                  (λ free. stay (
                    change_receipts-IsSound s _
                      (put-IsUnique received_for id _ s.resource_receipts h.one_receipt
                        (λ j r t. fresh_receipt s user input grant id now j r t (ground arith)))
                      h))

-- Only a recorded receipt takes an outcome.
put_outcome-Inherits :
    (k now : String) (receipt : PersistentResourceReceipt) (from : ResourceReceiptState)
    (to : Outcome) (m : Dict PersistentResourceReceipt)
    → get k m ≡ some receipt
    → same_receipt_state receipt.state from ≡ true
    → is_recorded from ≡ true
    → Inherits received_for m
        (put k (record receipt { state = outcome_state to; updated_at = now }) m)
put_outcome-Inherits k now receipt from to m e same recorded =
    put-Inherits received_for k _ m λ t f. (receipt, e, ground arith)

pub transition_receipt-IsSound :
    (s : ProductionStore) (user receipt_id : String) (from : ResourceReceiptState) (to : Outcome)
    (now : String)
    → IsSound s
    → After IsSound (transition_resource_receipt s user receipt_id from to now)
unfolding transition_resource_receipt
transition_receipt-IsSound s user receipt_id from to now h =
    option_cases (After IsSound) (get receipt_id s.resource_receipts) _ _ (λ _. stay h)
      λ receipt e.
        if_cases (After IsSound)
          (not (receipt.requester_owner_user_id == user)
            || (not (same_receipt_state receipt.state from) || not (is_recorded from)))
          _ _ (λ _. stay h)
          (λ allowed. stay (
            follow_receipt-IsSound to receipt.resource_request_id now _ (
              change_receipts-IsSound s _
                (Inherits-IsUnique received_for
                  (put_outcome-Inherits receipt_id now receipt from to s.resource_receipts e
                    (ground arith) (ground arith))
                  h.one_receipt)
                h)))
