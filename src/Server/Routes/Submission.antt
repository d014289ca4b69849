-- ===== src/Server/Routes/Submission.antt =====
-- The preparation and the submission of a settlement (src/server/production/app.ts).
use machina_sol.Prelude.{
  ℕ, String, Bool, true, false, ◌&&◌, Option, none, some, List, [], ◌∷◌, codes, is_some, ◌==◌,
  if◌then◌else◌,
}
use machina_sol.Number.{pos}
use machina_sol.Chars.{big_int}
use machina_sol.Texts.{text_of_nat}
use machina_sol.Transactions.Flow.{SolanaTransactionError, ErrorCode, Checked, fail}
use machina_sol.Transactions.Prepare.{
  PreparedTransaction, prepare_sol_transfer, inspect_signed_transaction,
}
use machina_sol.Transactions.Signed.{submit_signed_transaction}
use machina_sol.Store.Types.{SettlementRecord, SettlementState}
use machina_sol.Store.Settlements.{SettlementPatch, transition_settlement, same_settlement_state}
use machina_sol.Server.World.{
  Outside, App, Outcome, done, refused, crashed, ensure, require, change, on_node, now_iso, ◌>>=◌,
  ◌>>◌,
}
use machina_sol.Server.Http.{Request, ServerConfig, read_json_body}
use machina_sol.Server.Inputs.{required_text}
use machina_sol.Server.Public.{text, flag, object_of, public_settlement}
use machina_sol.Server.Response.{
  Response, respond, yes_ok, send_solana_error, error_json, error_code_text,
}
use machina_sol.Server.Routes.Settlements.{guard_settlement, moved}

abbrev pub solana_error : ErrorCode → Bool → SolanaTransactionError
solana_error code retryable = record { code = code; retryable = retryable }

-- A transaction that was prepared and waits for its signature.
waiting_transaction : SettlementRecord → Option String
waiting_transaction r =
    if same_settlement_state r.state SettlementState.awaiting_signature
      && is_some r.last_valid_block_height
    then r.unsigned_transaction
    else none

abbrev pub may_prepare : SettlementState → Bool
may_prepare SettlementState.created = true
may_prepare SettlementState.cancelled = true
may_prepare SettlementState.failed = true
may_prepare _ = false

-- The patch of a prepared settlement.
abbrev pub prepared_patch : PreparedTransaction → String → SettlementPatch
prepared_patch p at = record {
  state = SettlementState.awaiting_signature;
  updated_at = at;
  unsigned_transaction = some (some p.base64);
  transaction_signature = some none;
  last_valid_block_height = some (some (text_of_nat p.last_valid_block_height));
  error_code = some none;
}

unfoldable pub store_prepared :
    Outside
    → (user_id id at : String) → SettlementRecord
    → Checked PreparedTransaction
    → App Response
store_prepared o user_id id at r (Checked.failed e) = send_solana_error e
store_prepared o user_id id at r Checked.type_error =
    send_solana_error (solana_error ErrorCode.invalid_blockhash_response true)
store_prepared o user_id id at r (Checked.done p) = do
  changed ← change o (λ s. transition_settlement s user_id id r.state (prepared_patch p at))
  updated ← require changed 409 "settlement state changed while preparing"
  respond 200 (
      yes_ok
      ∷ ("settlement", public_settlement updated)
      ∷ ("unsignedTransaction", text p.base64)
      ∷ ("signingMode", text "caller-wallet")
      ∷ ("broadcast", flag false)
      ∷ [])

-- The amount of a settlement is the text of a number, so BigInt reads it.
unfoldable pub prepare_again : Outside → (user_id id at : String) → SettlementRecord → App Response
unfolding store_prepared
prepare_again o user_id id at r = do
  ensure (may_prepare r.state) 409 "settlement is not ready to prepare"
  prepared ← on_node o (
      prepare_sol_transfer o.kit o.rpc r.source_wallet r.recipient_wallet
        (pos (big_int (codes r.amount_lamports))) r.id)
  store_prepared o user_id id at r prepared

-- A transaction that waits is answered again.
unfoldable pub prepare_unless :
    Outside → (user_id id at : String) → SettlementRecord → Option String → App Response
prepare_unless o user_id id at r (some unsigned) = respond 200 (
    yes_ok
    ∷ ("settlement", public_settlement r)
    ∷ ("unsignedTransaction", text unsigned)
    ∷ ("signingMode", text "caller-wallet")
    ∷ ("broadcast", flag false)
    ∷ ("resumed", flag true)
    ∷ [])
prepare_unless o user_id id at r none = prepare_again o user_id id at r

-- /api/settlements/<id>/prepare
unfoldable pub prepare_route : Outside → ServerConfig → Request → String → App Response
unfolding waiting_transaction
prepare_route o config req part = do
  (session, id, r) ← guard_settlement o config req part
  at ← now_iso o
  prepare_unless o session.user_id id at r (waiting_transaction r)

-- The claim of the signature, before anything is sent.
abbrev pub claim_patch : String → String → SettlementPatch
claim_patch signature at = record {
  state = SettlementState.submitting;
  updated_at = at;
  unsigned_transaction = none;
  transaction_signature = some (some signature);
  last_valid_block_height = none;
  error_code = some none;
}

abbrev pub submitted_patch : String → String → SettlementPatch
submitted_patch signature at = record {
  state = SettlementState.submitted;
  updated_at = at;
  unsigned_transaction = none;
  transaction_signature = some (some signature);
  last_valid_block_height = none;
  error_code = none;
}

abbrev unknown_patch : String → String → String → SettlementPatch
unknown_patch signature code at = record {
  state = SettlementState.submitting;
  updated_at = at;
  unsigned_transaction = none;
  transaction_signature = some (some signature);
  last_valid_block_height = none;
  error_code = some (some code);
}

-- A signature that is not the transaction's own is an error.
same_signature : String → Checked String → Checked String
same_signature signature (Checked.done s) =
    if s == signature then Checked.done s else fail ErrorCode.invalid_submission_response false
same_signature signature (Checked.failed e) = Checked.failed e
same_signature signature Checked.type_error = Checked.type_error

-- The transaction may be out.
is_unknown : ErrorCode → Bool
is_unknown ErrorCode.submission_unavailable = true
is_unknown ErrorCode.invalid_submission_response = true
is_unknown _ = false

or_record : Option SettlementRecord → SettlementRecord → SettlementRecord
or_record none r = r
or_record (some r') r = r'

-- What the client is told of a transaction that was sent.
unfoldable pub report_submitted : String → Option SettlementRecord → App Response
report_submitted signature none = respond 503 (
    ("ok", flag false)
    ∷ (
      "error",
      object_of (
          ("code", text "SETTLEMENT_STATE_PERSISTENCE_FAILED")
          ∷ (
            "message",
            text
                "transaction was submitted but settlement state persistence requires reconciliation",
          )
          ∷ ("retryable", flag false)
          ∷ []),
    )
    ∷ ("transactionSignature", text signature)
    ∷ ("reconciliationRequired", flag true)
    ∷ [])
report_submitted signature (some updated) = respond 202 (
    yes_ok
    ∷ ("settlement", public_settlement updated)
    ∷ ("submitted", flag true)
    ∷ ("confirmed", flag false)
    ∷ [])

unfoldable pub record_submitted : Outside → (user_id id signature : String) → App Response
record_submitted o user_id id signature = do
  at ← now_iso o
  changed ← change o (λ s.
      transition_settlement s user_id id SettlementState.submitting (submitted_patch signature at))
  report_submitted signature changed

unfoldable pub record_unknown :
    Outside
    → (user_id id signature : String) → SettlementRecord
    → SolanaTransactionError
    → App Response
unfolding or_record
record_unknown o user_id id signature claimed e = do
  at ← now_iso o
  reconciling ← change o (λ s.
      transition_settlement s user_id id SettlementState.submitting
        (unknown_patch signature (error_code_text e.code) at))
  respond 202 (
      yes_ok
      ∷ ("settlement", public_settlement (or_record reconciling claimed))
      ∷ ("submitted", flag false)
      ∷ ("confirmed", flag false)
      ∷ ("submissionState", text "unknown")
      ∷ ("reconciliationRequired", flag true)
      ∷ ("error", error_json e)
      ∷ [])

unfoldable pub record_failed :
    Outside → (user_id id : String) → SolanaTransactionError → App Response
record_failed o user_id id e = do
  at ← now_iso o
  _ ← change o (λ s.
      transition_settlement s user_id id SettlementState.submitting
        (moved SettlementState.failed at (some (some (error_code_text e.code)))))
  send_solana_error e

unfoldable pub after_error :
    Outside
    → (user_id id signature : String) → SettlementRecord
    → SolanaTransactionError
    → App Response
unfolding is_unknown record_unknown record_failed
after_error o user_id id signature claimed e =
    if is_unknown e.code
    then record_unknown o user_id id signature claimed e
    else record_failed o user_id id e

unfoldable pub after_submission :
    Outside → (user_id id signature : String) → SettlementRecord → Checked String → App Response
unfolding record_submitted
after_submission o user_id id signature claimed (Checked.done s) = record_submitted o user_id id s
after_submission o user_id id signature claimed (Checked.failed e) =
    after_error o user_id id signature claimed e
after_submission o user_id id signature claimed Checked.type_error =
    after_error o user_id id signature claimed (solana_error ErrorCode.submission_unavailable true)

-- The signed transaction is claimed for the settlement, and then sent.
unfoldable pub submit_inspected :
    Outside → (user_id id at : String) → SettlementRecord → Checked (String × List ℕ) → App Response
unfolding same_signature after_submission
submit_inspected o user_id id at r (Checked.failed e) = send_solana_error e
submit_inspected o user_id id at r Checked.type_error =
    send_solana_error (solana_error ErrorCode.invalid_signed_transaction false)
submit_inspected o user_id id at r (Checked.done (signature, bytes)) = do
  changed ← change o (λ s.
      transition_settlement s user_id id SettlementState.awaiting_signature
        (claim_patch signature at))
  claimed ←
      require changed 409 "settlement state changed or transaction signature is already claimed"
  sent ← on_node o (submit_signed_transaction o.rpc r.last_valid_block_height)
  after_submission o user_id id signature claimed (same_signature signature sent)

-- An error of the text of the body is caught too, and answered as a malformed transaction.
inspected : Outside → Outcome String → String → Checked (String × List ℕ)
inspected o (done signed) unsigned = inspect_signed_transaction o.kit signed unsigned
inspected o (refused status message) unsigned = fail ErrorCode.invalid_signed_transaction false
inspected o crashed unsigned = fail ErrorCode.invalid_signed_transaction false

-- /api/settlements/<id>/submit
unfoldable pub submit_route : Outside → ServerConfig → Request → String → App Response
unfolding waiting_transaction inspected
submit_route o config req part = do
  (session, id, r) ← guard_settlement o config req part
  at ← now_iso o
  unsigned ←
      require (waiting_transaction r) 409 "settlement is not awaiting a valid wallet signature"
  body ← read_json_body o req
  submit_inspected o session.user_id id at r
      (inspected o (required_text 2048 body "signedTransaction") unsigned)
