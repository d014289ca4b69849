-- ===== src/Transactions/Flow.antt =====
-- The errors of src/server/production/transactions.ts, and calls of the RPC transport in sequence.
use machina_sol.Prelude.{String, Bool, List, ◌∷◌}
use machina_sol.Json.{Json}

pub data ErrorCode : Type 0 where
  invalid_settlement_address invalid_settlement_amount invalid_settlement_reference : ErrorCode
  invalid_blockhash_response blockheight_unavailable blockhash_expired : ErrorCode
  signed_transaction_too_large invalid_signed_transaction transaction_message_mismatch : ErrorCode
  transaction_not_fully_signed invalid_transaction_signature : ErrorCode
  simulation_rejected simulation_unavailable preflight_rejected submission_unavailable : ErrorCode
  invalid_submission_response confirmation_unavailable invalid_confirmation_response : ErrorCode

-- SAFE_MESSAGES
unfoldable pub safe_message : ErrorCode → String
safe_message invalid_settlement_address = "settlement wallets are invalid"
safe_message invalid_settlement_amount = "settlement amount is invalid"
safe_message invalid_settlement_reference = "settlement reference is invalid"
safe_message invalid_blockhash_response = "Solana RPC returned an invalid blockhash response"
safe_message blockheight_unavailable = "current Solana block height is unavailable"
safe_message blockhash_expired =
    "the prepared transaction blockhash has expired; prepare a new transaction"
safe_message signed_transaction_too_large = "signed transaction exceeds the Solana packet size"
safe_message invalid_signed_transaction = "signed transaction is malformed"
safe_message transaction_message_mismatch =
    "signed transaction does not match the server-prepared settlement"
safe_message transaction_not_fully_signed = "transaction is not fully signed"
safe_message invalid_transaction_signature = "transaction signature is invalid"
safe_message simulation_rejected = "Solana transaction simulation rejected the transaction"
safe_message simulation_unavailable = "Solana transaction simulation is temporarily unavailable"
safe_message preflight_rejected = "Solana RPC preflight rejected the transaction"
safe_message submission_unavailable = "Solana transaction submission is temporarily unavailable"
safe_message invalid_submission_response = "Solana RPC returned an invalid submission response"
safe_message confirmation_unavailable = "Solana transaction status is temporarily unavailable"
safe_message invalid_confirmation_response =
    "Solana RPC returned an invalid transaction status response"

pub record SolanaTransactionError : Type 0 where
  pub code : ErrorCode
  pub retryable : Bool

-- What a function leaves: its value, its own error, or the TypeError of a property of nothing.
pub data Checked {ℓ} (A : Type ℓ) : Type ℓ where
  done : A → Checked A
  failed : SolanaTransactionError → Checked A
  type_error : Checked A

abbrev pub fail {ℓ} : {A : Type ℓ} → ErrorCode → Bool → Checked A
fail code retryable = failed record { code = code; retryable = retryable }

-- What `transport.request` answers: a value, or an error, given by its lower-case text.
pub data Answer : Type 0 where
  answered : Json → Answer
  thrown : String → Answer

-- The node behind the transport, whose answer may depend on the calls made before, the latest first;
-- `error_text` is JSON.stringify(error).toLowerCase().
pub record RpcTransport : Type 0 where
  pub answer : List String → String → Answer
  pub error_text : Json → String

-- A function that calls the transport: from the calls made before to those made after.
abbrev pub Flow : Type 0 → Type 0
Flow A = List String → List String × Checked A

abbrev pub request : RpcTransport → String → Flow Answer
request t method calls = (method ∷ calls, done (t.answer calls method))

abbrev pub lift : {A : Type 0} → Checked A → Flow A
lift c calls = (calls, c)

-- What follows a part of a function, unless the part threw.
abbrev pub continue :
    {A B : Type 0} → List String × Checked A → (A → Flow B) → List String × Checked B
continue (made, done a) f = f a made
continue (made, failed e) f = (made, failed e)
continue (made, type_error) f = (made, type_error)

infixl 5 ◌>>=◌
abbrev pub ◌>>=◌ : {A B : Type 0} → Flow A → (A → Flow B) → Flow B
(m >>= f) calls = continue (m calls) f
