-- ===== src/Server/Auth.antt =====
-- Wallet authentication (src/server/production/auth.ts and crypto.ts).
use machina_sol.Prelude.{
  ℕ, ◌+◌, ◌/◌, String, Bool, false, not, ◌&&◌, ◌||◌, Option, none, some, List, [], ◌∷◌, ltb, leb,
  codes, ◌==◌, if◌then◌else◌,
}
use machina_sol.Texts.{◌^^◌, trim_text, text_length, text_of_nat}
use machina_sol.Dict.{get}
use machina_sol.RateLimit.{RequestRateLimiter}
use machina_sol.Base58.{is_solana_address, is_solana_signature, decode_base58}
use machina_sol.Store.Types.{AuthSessionRecord, WalletChallengeRecord}
use machina_sol.Store.Auth.{
  create_challenge, active_challenge, consume_challenge, create_authenticated_session,
  session_by_token_hash,
}
use machina_sol.Server.World.{
  Outside, Limiters, App, pure, ensure, require, read, change, now, uuid, opaque_token, limit,
  ◌>>=◌, ◌>>◌,
}
use machina_sol.Server.Http.{Request, ServerConfig, cookies}

abbrev pub auth_challenge_ttl_ms : ℕ
auth_challenge_ttl_ms = 300_000

abbrev pub auth_session_ttl_ms : ℕ
auth_session_ttl_ms = 43_200_000

unfoldable pub request_ip : Request → String
request_ip req = elim req.remote_address [ none ↦ "unknown" | some address ↦ address ]

secure : ServerConfig → String
secure config = if config.secure_cookies then "; Secure" else ""

unfoldable pub session_cookie : String → ServerConfig → String
unfolding secure
session_cookie token config =
    "mfi_console_session="
    ^^ token
    ^^ "; Path=/; HttpOnly; SameSite=Strict; Max-Age="
    ^^ text_of_nat (auth_session_ttl_ms / 1000)
    ^^ secure config

unfoldable pub expired_session_cookie : ServerConfig → String
unfolding secure
expired_session_cookie config =
    "mfi_console_session=; Path=/; HttpOnly; SameSite=Strict; Max-Age=0" ^^ secure config

unfoldable pub csrf_cookie : String → ServerConfig → String
unfolding secure
csrf_cookie token config =
    "mfi_console_csrf="
    ^^ token
    ^^ "; Path=/; SameSite=Strict; Max-Age="
    ^^ text_of_nat (auth_session_ttl_ms / 1000)
    ^^ secure config

unfoldable pub expired_csrf_cookie : ServerConfig → String
unfolding secure
expired_csrf_cookie config =
    "mfi_console_csrf=; Path=/; SameSite=Strict; Max-Age=0" ^^ secure config

-- constantTimeHashEqual compares all bytes of two texts of one length, so it is equality.
unfoldable pub hash_equals : Outside → String → String → Bool
hash_equals o expected_hash value = o.sha256 value == expected_hash

-- An error of `createPublicKey` or `verify` is a failure.
checked_by : Outside → String → Option (List ℕ) → Option (List ℕ) → Bool
checked_by o message (some key) (some signature) = elim (o.verify_ed25519 message key signature) [
  | none ↦ false
  | some valid ↦ valid
]
checked_by o message _ _ = false

unfoldable pub verify_solana_message_signature :
    Outside → (wallet_address signature message : String) → Bool
unfolding checked_by
verify_solana_message_signature o wallet_address signature message =
    if not (is_solana_address wallet_address) || not (is_solana_signature signature)
    then false
    else checked_by o message (decode_base58 (codes wallet_address))
        (decode_base58 (codes signature))

unfoldable pub wallet_challenge_message :
    (audience wallet_address challenge_id nonce issued_at expires_at genesis_hash : String) → String
wallet_challenge_message audience wallet_address challenge_id nonce issued_at expires_at
      genesis_hash =
    "Machina Console authentication\n\nOrigin: " ^^ audience ^^ "\nWallet: " ^^ wallet_address
    ^^ "\nChain: solana:" ^^ genesis_hash ^^ "\nChallenge: " ^^ challenge_id ^^ "\nNonce: " ^^ nonce
    ^^ "\nIssued At: " ^^ issued_at ^^ "\nExpiration Time: " ^^ expires_at
    ^^ "\n\nSign this message to authenticate. This does not authorize a transaction."

-- config.publicOrigin ?? `http://${host}:${port}`
audience_of : ServerConfig → String
audience_of config = elim config.public_origin [
  | none ↦ "http://" ^^ config.host ^^ ":" ^^ config.port
  | some origin ↦ origin
]

genesis_of : ServerConfig → String
genesis_of config = elim config.solana_genesis_hash [
  | none ↦ "fixture-unverified"
  | some hash ↦ hash
]

abbrev set_challenge_global : RequestRateLimiter → Limiters → Limiters
set_challenge_global r l = record l { challenge_global = r }

abbrev set_challenge_ip : RequestRateLimiter → Limiters → Limiters
set_challenge_ip r l = record l { challenge_ip = r }

abbrev set_challenge : RequestRateLimiter → Limiters → Limiters
set_challenge r l = record l { challenge = r }

abbrev set_verification_global : RequestRateLimiter → Limiters → Limiters
set_verification_global r l = record l { verification_global = r }

abbrev set_verification_ip : RequestRateLimiter → Limiters → Limiters
set_verification_ip r l = record l { verification_ip = r }

abbrev set_verification : RequestRateLimiter → Limiters → Limiters
set_verification r l = record l { verification = r }

pub record Challenge : Type 0 where
  pub challenge_id : String
  pub message : String
  pub expires_at : String

-- The record that a challenge leaves in the store.
unfoldable pub challenge_record :
    Outside → ServerConfig → (wallet challenge_id nonce : String) → (at : ℕ) → WalletChallengeRecord
unfolding audience_of genesis_of
challenge_record o config wallet challenge_id nonce at = record {
  id = challenge_id;
  wallet_address = wallet;
  message =
      wallet_challenge_message (audience_of config) wallet challenge_id nonce (o.dates.iso at)
        (o.dates.iso (at + auth_challenge_ttl_ms)) (genesis_of config);
  nonce_hash = o.sha256 nonce;
  expires_at = o.dates.iso (at + auth_challenge_ttl_ms);
  consumed_at = none;
}

-- `at` is the time of the call.
unfoldable pub challenge : Outside → ServerConfig → String → Request → ℕ → App Challenge
challenge o config wallet_address req at = do
  let wallet = trim_text wallet_address
  ensure (is_solana_address wallet) 400 "walletAddress must be a valid Solana address"
  let ip = request_ip req
  limit o Limiters.challenge_global set_challenge_global "global"
  limit o Limiters.challenge_ip set_challenge_ip ip
  limit o Limiters.challenge set_challenge (ip ^^ ":" ^^ wallet)
  challenge_id ← uuid o
  nonce ← opaque_token o 32
  let found = challenge_record o config wallet challenge_id nonce at
  _ ← change o (λ s. (create_challenge s found (o.dates.iso at), tt))
  pure (record {
    challenge_id = challenge_id;
    message = found.message;
    expires_at = found.expires_at;
  })

pub record Login : Type 0 where
  pub session : AuthSessionRecord
  pub session_token : String
  pub csrf_token : String

unfoldable pub verify :
    Outside → (challenge_id wallet_address signature : String) → Request → ℕ → App Login
verify o challenge_id' wallet_address' signature req at = do
  let challenge_id = trim_text challenge_id'
  let wallet_address = trim_text wallet_address'
  let ip = request_ip req
  limit o Limiters.verification_global set_verification_global "global"
  limit o Limiters.verification_ip set_verification_ip ip
  limit o Limiters.verification set_verification (ip ^^ ":" ^^ wallet_address)
  ensure
      (not (
        challenge_id == ""
        || (ltb 128 (text_length challenge_id) || not (is_solana_address wallet_address))))
      400 "invalid wallet authentication input"
  let verified_at = o.dates.iso at
  active ← read o (λ s. active_challenge s challenge_id wallet_address verified_at)
  found ← require active 401 "wallet challenge is expired, consumed, or unknown"
  ensure (verify_solana_message_signature o wallet_address (trim_text signature) found.message) 401
      "wallet signature verification failed"
  consumed ← change o (λ s. consume_challenge s challenge_id wallet_address verified_at)
  _ ← require consumed 401 "wallet challenge is expired, consumed, or unknown"
  session_token ← opaque_token o 32
  csrf_token ← opaque_token o 32
  id ← uuid o
  user_id ← uuid o
  let proposed : AuthSessionRecord = record {
    id = id;
    user_id = user_id;
    wallet_address = wallet_address;
    token_hash = o.sha256 session_token;
    csrf_hash = o.sha256 csrf_token;
    expires_at = o.dates.iso (at + auth_session_ttl_ms);
    revoked_at = none;
  }
  saved ← change o (λ s. create_authenticated_session s proposed wallet_address)
  pure (record { session = saved; session_token = session_token; csrf_token = csrf_token })

-- The first value of x-csrf-token is compared.
unfoldable pub csrf_valid : Outside → AuthSessionRecord → Request → Bool
csrf_valid o session req = elim req.csrf [
  | [] ↦ false
  | value ∷ values ↦ leb (text_length value) 256 && hash_equals o session.csrf_hash value
]

unfoldable pub session_token_of : Request → Option String
session_token_of req = elim (get "mfi_console_session" (cookies req)) [
  | none ↦ none
  | some token ↦ if token == "" || ltb 256 (text_length token) then none else some token
]

unfoldable pub authenticate : Outside → Request → Bool → App AuthSessionRecord
unfolding session_token_of
authenticate o req require_csrf = do
  token ← require (session_token_of req) 401 "authentication required"
  at ← now o
  found ← read o (λ s. session_by_token_hash s (o.sha256 token) (o.dates.iso at))
  session ← require found 401 "authentication session is expired or revoked"
  ensure (not (require_csrf && not (csrf_valid o session req))) 403
      "valid X-CSRF-Token header required"
  pure session
