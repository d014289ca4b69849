-- ===== src/Server/Routes/Confirmation.antt =====
-- The confirmation of a settlement (src/server/production/app.ts).
use machina_sol.Prelude.{
  String, Bool, true, false, ◌&&◌, ◌||◌, Option, none, some, List, [], ◌∷◌, ◌==◌, if◌then◌else◌,
}
use machina_sol.Number.{of_nat}
use machina_sol.Json.{Json}
use machina_sol.Transactions.Flow.{ErrorCode, Checked}
use machina_sol.Transactions.Heights.{BlockhashValidity, check_blockhash_validity}
use machina_sol.Transactions.Confirm.{
  Visibility, TransactionConfirmation, TransactionLifecycleAssessment, get_transaction_confirmation,
  assess_transaction_lifecycle,
}
use machina_sol.Store.Types.{SettlementRecord, SettlementState}
use machina_sol.Store.Settlements.{transition_settlement, same_settlement_state}
use machina_sol.Server.World.{
  Outside, App, done, crashed, pure, lift, require, change, on_node, now, now_iso, ◌>>=◌,
}
use machina_sol.Server.Http.{Request, ServerConfig}
use machina_sol.Server.Public.{text, flag, public_settlement}
use machina_sol.Server.Response.{Response, respond, yes_ok, send_solana_error}
use machina_sol.Server.Routes.Settlements.{guard_settlement, moved}
use machina_sol.Server.Routes.Submission.{solana_error}

-- The signature of a settlement that is submitted, or may be.
submission_of : SettlementRecord → Option String
submission_of r =
    if same_settlement_state r.state SettlementState.submitting
      || same_settlement_state r.state SettlementState.submitted
    then r.transaction_signature
    else none

is_not_found : TransactionConfirmation → Bool
is_not_found (TransactionConfirmation.pending Visibility.not_found) = true
is_not_found _ = false

is_observed : TransactionConfirmation → Bool
is_observed (TransactionConfirmation.pending Visibility.observed) = true
is_observed _ = false

abbrev pub is_submitted : SettlementState → Bool
is_submitted SettlementState.submitted = true
is_submitted _ = false

-- A transaction that the node sees is submitted.
unfoldable pub observe :
    Outside
    → (user_id id at : String) → SettlementRecord
    → TransactionConfirmation
    → App SettlementRecord
unfolding is_observed
observe o user_id id at r c =
    if same_settlement_state r.state SettlementState.submitting && is_observed c
    then (do
      changed ← change o (λ s.
          transition_settlement s user_id id SettlementState.submitting (record {
            state = SettlementState.submitted;
            updated_at = at;
            unsigned_transaction = none;
            transaction_signature = some r.transaction_signature;
            last_valid_block_height = none;
            error_code = some none;
          }))
      require changed 409 "settlement state changed while reconciling submission")
    else pure r

-- The state and the error code that an assessment ends with, its name, and whether the transaction
-- was certainly submitted.
ending : TransactionLifecycleAssessment → Option (SettlementState × Option String × String × Bool)
ending (TransactionLifecycleAssessment.still_pending ms) = none
ending TransactionLifecycleAssessment.timed_out = none
ending TransactionLifecycleAssessment.dropped =
    some (SettlementState.failed, some "TRANSACTION_DROPPED", "dropped", false)
ending TransactionLifecycleAssessment.confirmed =
    some (SettlementState.confirmed, none, "confirmed", true)
ending TransactionLifecycleAssessment.failed =
    some (SettlementState.failed, some "ON_CHAIN_FAILURE", "failed", true)

unfoldable pub still : SettlementRecord → TransactionLifecycleAssessment → App Response
still r (TransactionLifecycleAssessment.still_pending ms) = respond 200 (
    yes_ok
    ∷ ("settlement", public_settlement r)
    ∷ ("submitted", flag (is_submitted r.state))
    ∷ ("confirmed", flag false)
    ∷ ("state", text "pending")
    ∷ ("lifecycle", text "pending")
    ∷ ("retryAfterMs", Json.number (of_nat ms))
    ∷ [])
still r _ = respond 200 (
    yes_ok
    ∷ ("settlement", public_settlement r)
    ∷ ("submitted", flag (is_submitted r.state))
    ∷ ("confirmed", flag false)
    ∷ ("state", text "timed_out")
    ∷ ("lifecycle", text "timed_out")
    ∷ ("errorCode", text "CONFIRMATION_TIMEOUT")
    ∷ ("reconciliationRequired", flag true)
    ∷ [])

-- A dropped transaction may be prepared again.
again : String → List (String × Json)
again name = if name == "dropped" then ("mayPrepareAgain", flag true) ∷ [] else []

unfoldable pub finish :
    Outside
    → (user_id id at : String) → SettlementRecord
    → TransactionLifecycleAssessment
    → Option (SettlementState × Option String × String × Bool)
    → App Response
unfolding again
finish o user_id id at r a none = still r a
finish o user_id id at r a (some (state, code, name, out)) = do
  changed ← change o (λ s. transition_settlement s user_id id r.state (moved state at (some code)))
  updated ← require changed 409 "settlement state changed while confirming"
  respond 200 (
      yes_ok
      ∷ ("settlement", public_settlement updated)
      ∷ ("submitted", flag (is_submitted r.state || out))
      ∷ ("confirmed", flag (name == "confirmed"))
      ∷ ("state", text name)
      ∷ ("lifecycle", text name)
      ∷ again name)

unfoldable pub conclude :
    Outside
    → (user_id id at : String) → SettlementRecord
    → TransactionLifecycleAssessment
    → App Response
unfolding ending
conclude o user_id id at r a = finish o user_id id at r a (ending a)

unfoldable pub reconcile :
    Outside
    → (user_id id at : String) → SettlementRecord
    → TransactionConfirmation
    → Option BlockhashValidity
    → App Response
unfolding observe
reconcile o user_id id at r c validity = do
  r' ← observe o user_id id at r c
  later ← now o
  a ←
      lift
        (elim (assess_transaction_lifecycle (record {
          confirmation = c;
          submitted_at = o.dates.time r.updated_at;
          now = some later;
          pending_timeout_ms = none;
          blockhash_validity = validity;
        })) [ none ↦ crashed | some a ↦ done a ])
  conclude o user_id id at r' a

unfoldable pub with_validity :
    Outside
    → (user_id id at : String) → SettlementRecord
    → TransactionConfirmation
    → Checked BlockhashValidity
    → App Response
unfolding reconcile
with_validity o user_id id at r c (Checked.failed e) = send_solana_error e
with_validity o user_id id at r c Checked.type_error =
    send_solana_error (solana_error ErrorCode.blockheight_unavailable true)
with_validity o user_id id at r c (Checked.done v) = reconcile o user_id id at r c (some v)

unfoldable pub check_lifetime :
    Outside → (user_id id at : String) → SettlementRecord → TransactionConfirmation → App Response
unfolding with_validity
check_lifetime o user_id id at r c = do
  height ←
      require r.last_valid_block_height 409
        "submitted settlement is missing blockhash lifetime data"
  v ← on_node o (check_blockhash_validity o.rpc height)
  with_validity o user_id id at r c v

unfoldable pub with_confirmation :
    Outside
    → (user_id id at : String) → SettlementRecord
    → Checked TransactionConfirmation
    → App Response
unfolding is_not_found check_lifetime reconcile
with_confirmation o user_id id at r (Checked.failed e) = send_solana_error e
with_confirmation o user_id id at r Checked.type_error =
    send_solana_error (solana_error ErrorCode.confirmation_unavailable true)
with_confirmation o user_id id at r (Checked.done c) =
    if is_not_found c
    then check_lifetime o user_id id at r c
    else reconcile o user_id id at r c none

-- /api/settlements/<id>/confirm
unfoldable pub confirm_route : Outside → ServerConfig → Request → String → App Response
unfolding submission_of with_confirmation
confirm_route o config req part = do
  (session, id, r) ← guard_settlement o config req part
  at ← now_iso o
  signature ← require (submission_of r) 409 "settlement has not entered submission reconciliation"
  c ← on_node o (get_transaction_confirmation o.rpc signature)
  with_confirmation o session.user_id id at r c
