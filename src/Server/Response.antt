-- ===== src/Server/Response.antt =====
-- What the routes share: responses, and the checks that most of them make (src/server/http.ts and
-- src/server/production/app.ts).
use machina_sol.Prelude.{
  ℕ, String, Bool, true, false, ◌||◌, Option, none, some, List, [], ◌∷◌, ◌==◌, if◌then◌else◌,
}
use machina_sol.Texts.{◌^^◌}
use machina_sol.Json.{Json}
use machina_sol.RateLimit.{RequestRateLimiter}
use machina_sol.Transactions.Flow.{SolanaTransactionError, ErrorCode, safe_message}
use machina_sol.Transactions.Signed.{contains}
use machina_sol.Store.Types.{OwnedMachineRecord, AuthSessionRecord}
use machina_sol.Store.Machines.{owned_machine}
use machina_sol.Server.World.{
  Outside, Limiters, App, Outcome, done, refused, crashed, pure, lift, ensure, require, read, limit,
  ◌>>=◌, ◌>>◌,
}
use machina_sol.Server.Http.{Request, ServerConfig, assert_origin_allowed}
use machina_sol.Server.Auth.{authenticate, request_ip}
use machina_sol.Server.Inputs.{safe_segment}
use machina_sol.Server.Public.{text, flag, object_of}

-- What `sendJson` sends; `undefined` fields stay out.
pub record Response : Type 0 where
  pub status : ℕ
  pub body : Json
  pub cookies : List String

unfoldable pub respond : ℕ → List (String × Json) → App Response
respond status fields = pure (record { status = status; body = object_of fields; cookies = [] })

abbrev pub yes_ok : String × Json
yes_ok = ("ok", flag true)

-- The status and the fields of a Solana error.
unfoldable pub solana_status : SolanaTransactionError → ℕ
solana_status e = elim e.code [
  | ErrorCode.blockhash_expired ↦ 409
  | _ ↦ if e.retryable then 503 else 422
]

unfoldable pub error_code_text : ErrorCode → String
error_code_text ErrorCode.invalid_settlement_address = "INVALID_SETTLEMENT_ADDRESS"
error_code_text ErrorCode.invalid_settlement_amount = "INVALID_SETTLEMENT_AMOUNT"
error_code_text ErrorCode.invalid_settlement_reference = "INVALID_SETTLEMENT_REFERENCE"
error_code_text ErrorCode.invalid_blockhash_response = "INVALID_BLOCKHASH_RESPONSE"
error_code_text ErrorCode.blockheight_unavailable = "BLOCKHEIGHT_UNAVAILABLE"
error_code_text ErrorCode.blockhash_expired = "BLOCKHASH_EXPIRED"
error_code_text ErrorCode.signed_transaction_too_large = "SIGNED_TRANSACTION_TOO_LARGE"
error_code_text ErrorCode.invalid_signed_transaction = "INVALID_SIGNED_TRANSACTION"
error_code_text ErrorCode.transaction_message_mismatch = "TRANSACTION_MESSAGE_MISMATCH"
error_code_text ErrorCode.transaction_not_fully_signed = "TRANSACTION_NOT_FULLY_SIGNED"
error_code_text ErrorCode.invalid_transaction_signature = "INVALID_TRANSACTION_SIGNATURE"
error_code_text ErrorCode.simulation_rejected = "SIMULATION_REJECTED"
error_code_text ErrorCode.simulation_unavailable = "SIMULATION_UNAVAILABLE"
error_code_text ErrorCode.preflight_rejected = "PREFLIGHT_REJECTED"
error_code_text ErrorCode.submission_unavailable = "SUBMISSION_UNAVAILABLE"
error_code_text ErrorCode.invalid_submission_response = "INVALID_SUBMISSION_RESPONSE"
error_code_text ErrorCode.confirmation_unavailable = "CONFIRMATION_UNAVAILABLE"
error_code_text ErrorCode.invalid_confirmation_response = "INVALID_CONFIRMATION_RESPONSE"

unfoldable pub error_json : SolanaTransactionError → Json
error_json e = object_of (
    ("code", text (error_code_text e.code))
    ∷ ("message", text (safe_message e.code))
    ∷ ("retryable", flag e.retryable)
    ∷ [])

unfoldable pub send_solana_error : SolanaTransactionError → App Response
send_solana_error e = respond (solana_status e) (("ok", flag false) ∷ ("error", error_json e) ∷ [])

-- jsonMutation(req, res, allowed)
unfoldable pub json_mutation : Request → String → App (Unit {0})
json_mutation req allowed =
    ensure (req.method == allowed) 405 (req.method ^^ " is not allowed; use " ^^ allowed)

unfoldable pub use_get : Request → App (Unit {0})
use_get req = ensure (req.method == "GET") 405 "use GET"

abbrev set_mutation : RequestRateLimiter → Limiters → Limiters
set_mutation r l = record l { mutation = r }

abbrev set_settlement : RequestRateLimiter → Limiters → Limiters
set_settlement r l = record l { settlement = r }

rate_key : Request → String → String → String
rate_key req user_id scope = user_id ^^ ":" ^^ scope ^^ ":" ^^ request_ip req

-- assertMutationRate(req, userId, scope)
unfoldable pub assert_mutation_rate : Outside → Request → String → String → App (Unit {0})
unfolding rate_key
assert_mutation_rate o req user_id scope =
    limit o Limiters.mutation set_mutation (rate_key req user_id scope)

-- assertMutationRate(req, userId, 'settlements', settlementLimiter)
unfoldable pub assert_settlement_rate : Outside → Request → String → App (Unit {0})
unfolding rate_key
assert_settlement_rate o req user_id =
    limit o Limiters.settlement set_settlement (rate_key req user_id "settlements")

-- The checks of a route that only takes POST: the method, the origin, the session with its CSRF
-- token, and the rate.
unfoldable pub guard_post :
    Outside → ServerConfig → Request → (scope : String) → App AuthSessionRecord
guard_post o config req scope = do
  json_mutation req "POST"
  lift (assert_origin_allowed o config req)
  session ← authenticate o req true
  assert_mutation_rate o req session.user_id scope
  pure session

-- The checks of the mutation of a route that has a read too, after the session was found.
unfoldable pub guard_mutation :
    Outside → ServerConfig → Request → (method user_id scope : String) → App (Unit {0})
guard_mutation o config req method user_id scope = do
  json_mutation req method
  lift (assert_origin_allowed o config req)
  assert_mutation_rate o req user_id scope

unfoldable pub require_owned_machine :
    Outside → (user_id machine_id : String) → App OwnedMachineRecord
require_owned_machine o user_id machine_id = do
  found ← read o (λ s. owned_machine s user_id machine_id)
  require found 404 "machine not found"

-- The test of `isPersistenceConstraintError` on the message of an error of the store in memory.
unfoldable pub is_constraint_message : String → Bool
is_constraint_message message =
    contains message "already exists"
    || (contains message "not owned"
        || (contains message "must be selected together"
            || contains message "does not match provider request"))

-- What a route makes of an error of the store.
unfoldable pub after_attempt : Option String → String → Outcome (Unit {0})
after_attempt none conflict = done tt
after_attempt (some message) conflict =
    if is_constraint_message message then refused 409 conflict else crashed

-- A part of the address, where the route has one.
abbrev pub segment : Outside → String → App String
segment o value = lift (safe_segment o value)
