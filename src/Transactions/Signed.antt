-- ===== src/Transactions/Signed.antt =====
-- Simulation and submission of a signed transaction.
use machina_sol.Prelude.{
  ℕ, String, Bool, true, false, not, ◌||◌, ◌&&◌, nat_eq, Option, none, some, [], ◌∷◌, codes,
  if◌then◌else◌,
}
use machina_sol.Chars.{Chars}
use machina_sol.Json.{Json, member, has_own, truthy, safe_nat}
use machina_sol.Base58.{is_solana_signature}
use machina_sol.Transactions.Flow.{
  ErrorCode, Checked, done, fail, Answer, answered, thrown, RpcTransport, Flow, lift, request,
  ◌>>=◌, type_error,
}
use machina_sol.Transactions.Heights.{BlockhashValidity, check_blockhash_validity}

starts_with : Chars → Chars → Bool
starts_with [] text = true
starts_with (c ∷ cs) [] = false
starts_with (c ∷ cs) (d ∷ ds) = nat_eq c d && starts_with cs ds

contains_chars : Chars → Chars → Bool
unfolding starts_with
contains_chars cs [] = starts_with cs []
contains_chars cs (d ∷ ds) = starts_with cs (d ∷ ds) || contains_chars cs ds

-- text.includes(part)
unfoldable pub contains : String → String → Bool
unfolding contains_chars
contains text part = contains_chars (codes part) (codes text)

unfoldable pub is_expired_error : String → Bool
is_expired_error text =
    contains text "blockhashnotfound"
    || (contains text "blockhash not found"
        || (contains text "block height exceeded" || contains text "blockhash expired"))

unfoldable pub is_preflight_error : String → Bool
is_preflight_error text =
    contains text "preflight"
    || (contains text "simulation failed"
        || (contains text "instructionerror" || contains text "instruction error"))

pub record SimulationSuccess : Type 0 where
  pub units_consumed : Option ℕ

units_of : Json → Option ℕ
units_of (Json.number n) = safe_nat n
units_of _ = none

abbrev pub is_null : Json → Bool
is_null Json.null = true
is_null _ = false

-- result.value, once it is seen to have a property `err`.
unfoldable pub simulated : RpcTransport → Json → Checked SimulationSuccess
unfolding units_of
simulated t value = elim (member "err" value) [
  | none ↦ type_error
  | some failure ↦
      if not (is_null failure)
      then (if is_expired_error (t.error_text failure)
          then fail ErrorCode.blockhash_expired false
          else fail ErrorCode.simulation_rejected false)
      else elim (member "unitsConsumed" value) [
        | none ↦ type_error
        | some units ↦ done record { units_consumed = units_of units }
      ]
]

unfoldable pub simulation_result : RpcTransport → Answer → Checked SimulationSuccess
unfolding simulated
simulation_result t (thrown text) =
    if is_expired_error text
    then fail ErrorCode.blockhash_expired false
    else fail ErrorCode.simulation_unavailable true
simulation_result t (answered result) = elim (member "value" result) [
  | none ↦ type_error
  | some value ↦
      if not (truthy value) || not (has_own "err" value)
      then fail ErrorCode.simulation_unavailable true
      else simulated t value
]

unfoldable pub simulate_signed_transaction : RpcTransport → Flow SimulationSuccess
simulate_signed_transaction t = do
  result ← request t "simulateTransaction"
  lift (simulation_result t result)

unfoldable pub submission_result : Answer → Checked String
submission_result (thrown text) =
    if is_expired_error text
    then fail ErrorCode.blockhash_expired false
    else if is_preflight_error text
    then fail ErrorCode.preflight_rejected false
    else fail ErrorCode.submission_unavailable true
submission_result (answered (Json.string signature)) =
    if is_solana_signature signature
    then done signature
    else fail ErrorCode.invalid_submission_response false
submission_result (answered _) = fail ErrorCode.invalid_submission_response false

unfoldable pub refuse_expired : BlockhashValidity → Checked (Unit {0})
refuse_expired (BlockhashValidity.expired current last by) = fail ErrorCode.blockhash_expired false
refuse_expired (BlockhashValidity.valid current last remaining) = done tt

-- `none` is a submission without a last valid block height.
unfoldable pub require_valid : RpcTransport → Option String → Flow (Unit {0})
unfolding refuse_expired
require_valid t none = lift (done tt)
require_valid t (some last_valid_block_height) = do
  validity ← check_blockhash_validity t last_valid_block_height
  lift (refuse_expired validity)

unfoldable pub submit_signed_transaction : RpcTransport → Option String → Flow String
submit_signed_transaction t last_valid_block_height = do
  _ ← require_valid t last_valid_block_height
  _ ← simulate_signed_transaction t
  signature ← request t "sendTransaction"
  lift (submission_result signature)
