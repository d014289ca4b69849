-- ===== src/Transactions/Confirm.antt =====
-- The confirmation of a submitted transaction, and what its state means.
use machina_sol.Prelude.{
  ℕ, ◌-◌, String, Bool, true, false, not, min, leb, nat_eq, Option, none, some, ◌==◌, if◌then◌else◌,
}
use machina_sol.Number.{Number}
use machina_sol.Json.{Json, Items, member, safe_nat}
use machina_sol.Base58.{is_solana_signature}
use machina_sol.Transactions.Flow.{
  ErrorCode, Checked, done, fail, Answer, answered, thrown, RpcTransport, Flow, lift, request,
  ◌>>=◌, type_error,
}
use machina_sol.Transactions.Heights.{BlockhashValidity}

pub data Visibility : Type 0 where
  not_found observed : Visibility

pub data Commitment : Type 0 where
  confirmed finalized : Commitment

pub data TransactionConfirmation : Type 0 where
  pending : Visibility → TransactionConfirmation
  confirmed_as : Commitment → TransactionConfirmation
  failed_on_chain : TransactionConfirmation

-- err !== null && err !== undefined
abbrev is_present : Json → Bool
is_present Json.null = false
is_present Json.undefined = false
is_present _ = true

commitment_of : Json → TransactionConfirmation
commitment_of (Json.string text) =
    if text == "confirmed"
    then TransactionConfirmation.confirmed_as Commitment.confirmed
    else if text == "finalized"
    then TransactionConfirmation.confirmed_as Commitment.finalized
    else TransactionConfirmation.pending Visibility.observed
commitment_of _ = TransactionConfirmation.pending Visibility.observed

-- A status that is an object.
status_record : Json → Checked TransactionConfirmation
unfolding commitment_of
status_record status = elim (member "err" status) [
  | none ↦ type_error
  | some failure ↦
      if is_present failure
      then done TransactionConfirmation.failed_on_chain
      else elim (member "confirmationStatus" status) [
        | none ↦ type_error
        | some name ↦ done (commitment_of name)
      ]
]

unfoldable pub status_of : Json → Checked TransactionConfirmation
unfolding status_record
status_of Json.null = done (TransactionConfirmation.pending Visibility.not_found)
status_of (Json.object fields) = status_record (Json.object fields)
status_of (Json.array xs) = status_record (Json.array xs)
status_of _ = fail ErrorCode.invalid_confirmation_response true

-- result.value is an array of one status.
unfoldable pub confirmation_result : Json → Checked TransactionConfirmation
confirmation_result (Json.array (Items.item status Items.no_items)) = status_of status
confirmation_result _ = fail ErrorCode.invalid_confirmation_response true

confirmation_answered : Answer → Checked TransactionConfirmation
confirmation_answered (thrown text) = fail ErrorCode.confirmation_unavailable true
confirmation_answered (answered result) = elim (member "value" result) [
  | none ↦ type_error
  | some value ↦ confirmation_result value
]

unfoldable pub get_transaction_confirmation : RpcTransport → String → Flow TransactionConfirmation
unfolding confirmation_answered
get_transaction_confirmation t signature =
    if not (is_solana_signature signature)
    then lift (fail ErrorCode.invalid_transaction_signature false)
    else do result ← request t "getSignatureStatuses"; lift (confirmation_answered result)

pub data TransactionLifecycleAssessment : Type 0 where
  still_pending : (retry_after_ms : ℕ) → TransactionLifecycleAssessment
  timed_out dropped confirmed failed : TransactionLifecycleAssessment

abbrev pub default_confirmation_timeout_ms : ℕ
default_confirmation_timeout_ms = 120_000

-- The times are milliseconds since the earliest date that JavaScript has, and `none` for an invalid
-- date, so the subtraction of ℕ is Math.max(0, now - submittedAt).
pub record LifecycleInput : Type 0 where
  pub confirmation : TransactionConfirmation
  pub submitted_at : Option ℕ
  pub now : Option ℕ
  pub pending_timeout_ms : Option Number
  pub blockhash_validity : Option BlockhashValidity

pub timeout_of : Option Number → Option ℕ
timeout_of none = some default_confirmation_timeout_ms
timeout_of (some n) = safe_nat n

unfoldable pub waited : ℕ → ℕ → TransactionLifecycleAssessment
waited elapsed timeout =
    if leb timeout elapsed
    then TransactionLifecycleAssessment.timed_out
    else TransactionLifecycleAssessment.still_pending (min 5_000 (timeout - elapsed))

-- `none` is the TypeError of invalid timing inputs.
unfoldable pub assess_times : Option ℕ → Option ℕ → Option ℕ → Option TransactionLifecycleAssessment
unfolding waited
assess_times (some submitted_at) (some now) (some timeout) =
    if nat_eq timeout 0 then none else some (waited (now - submitted_at) timeout)
assess_times _ _ _ = none

unfoldable pub is_expired_validity : Option BlockhashValidity → Bool
is_expired_validity (some (BlockhashValidity.expired current last by)) = true
is_expired_validity _ = false

unfoldable pub assess_pending : Visibility → LifecycleInput → Option TransactionLifecycleAssessment
unfolding timeout_of is_expired_validity
assess_pending Visibility.not_found input =
    if is_expired_validity input.blockhash_validity
    then some TransactionLifecycleAssessment.dropped
    else assess_times input.submitted_at input.now (timeout_of input.pending_timeout_ms)
assess_pending Visibility.observed input =
    assess_times input.submitted_at input.now (timeout_of input.pending_timeout_ms)

unfoldable pub assess_confirmation :
    TransactionConfirmation → LifecycleInput → Option TransactionLifecycleAssessment
unfolding assess_pending
assess_confirmation (TransactionConfirmation.confirmed_as c) input =
    some TransactionLifecycleAssessment.confirmed
assess_confirmation TransactionConfirmation.failed_on_chain input =
    some TransactionLifecycleAssessment.failed
assess_confirmation (TransactionConfirmation.pending seen) input = assess_pending seen input

unfoldable pub assess_transaction_lifecycle : LifecycleInput → Option TransactionLifecycleAssessment
unfolding assess_confirmation
assess_transaction_lifecycle input = assess_confirmation input.confirmation input

pub data ConfirmationState : Type 0 where
  is_pending is_confirmed is_failed : ConfirmationState

abbrev pub state_of : TransactionConfirmation → ConfirmationState
state_of (TransactionConfirmation.pending seen) = ConfirmationState.is_pending
state_of (TransactionConfirmation.confirmed_as c) = ConfirmationState.is_confirmed
state_of TransactionConfirmation.failed_on_chain = ConfirmationState.is_failed

unfoldable pub confirmation_state : RpcTransport → String → Flow ConfirmationState
confirmation_state t signature = do
  confirmation ← get_transaction_confirmation t signature
  lift (done (state_of confirmation))
