-- ===== src/Tests/Server.antt =====
-- The theorems on the request handlers at concrete inputs.
use machina_sol.Prelude.{
  all, ℕ, ◌≤◌, ◌<◌, String, ◌≡◌, refl, true, false, Option, none, some, find, text_lt, text_le,
  units, units_lt, List, [], ◌∷◌, codes, arith,
}
use machina_sol.Number.{number_le, of_nat}
use machina_sol.Json.{member, Json, Fields}
use machina_sol.Texts.{
  trim_text, trim_text_start, trim_text_end, text_length, cut_at, split_on, text_of_nat,
}
use machina_sol.RateLimit.{RequestRateLimiter, assert, prune, prune_loop}
use machina_sol.Decimal.{Parts, match_decimal, is_digits1, before_dot, after_dot, is_fraction}
use machina_sol.Store.Types.{AuthSessionRecord, WalletChallengeRecord, SettlementState}
use machina_sol.Store.State.{empty_store}
use machina_sol.Store.Lamports.{decimal_at_most, parts_of, IsProduct, is_exact_amount}
use machina_sol.Store.Settlements.{transition_settlement}
use machina_sol.Transactions.Flow.{Checked}
use machina_sol.Base58.{is_solana_address, is_solana_signature, decode_base58}
use machina_sol.Dict.{get, put, values}
use machina_sol.Store.Auth.{
  active_challenge, is_active_challenge, consume_challenge, create_authenticated_session,
  session_by_token_hash,
}
use machina_sol.Chars.{big_int, is_digits, is_whitespace}
use machina_sol.Server.World.{
  ◌>>=◌, limit, ensure, require, read, change, pure, opaque_token, uuid, now, Limiters, State,
  Outside, done, refused, wait,
}
use machina_sol.Server.Http.{Request, ServerConfig, cookies}
use machina_sol.Server.Auth.{
  hash_equals, Login, verify, authenticate, session_token_of, request_ip,
  verify_solana_message_signature, csrf_valid,
}
use machina_sol.Server.Ensures.{Predicate, KeptByOthers}
use machina_sol.Server.Login.{IsSigned, IsLoggedIn, verify-IsSigned, IsLive, authenticate-IsLive}
use machina_sol.Server.Inputs.{is_plain_decimal, property, decimal}
use machina_sol.Server.Prices.{price_within_limit-at_most}
use machina_sol.Server.Routes.Requests.{price_within_limit}
use machina_sol.Server.Keeps.{Holds}
use machina_sol.Server.Safe.{safe}
use machina_sol.Server.Interleaving.{Traffic, serve, started, serve-safe}
use machina_sol.Server.Routes.Dispatch.{handle_production_request}
use machina_sol.Server.Barred.Dispatch.{
  is_open_path, IsUnanswered, handle_production_request-unauthenticated,
}
use machina_sol.Server.Routes.Settlements.{new_settlement, quoted_sol_to_lamports}
use machina_sol.Server.Routes.Submission.{submit_inspected, claim_patch}
use machina_sol.Server.Claim.{submit_inspected-unclaimed}
use machina_sol.Server.Amounts.{
  new_settlement-amount, quoted_sol_to_lamports-exact, quoted_sol_to_lamports_complete,
}
use machina_sol.Tests.Data.{sample_env, payment, offer, open_request, robot, server}
use machina_sol.Tests.Amounts.{node, kit}
use machina_sol.Tests.Streams.{open_sockets}

-- 32 zero bytes, and 64.
abbrev wallet : String
wallet = "11111111111111111111111111111111"

abbrev signature : String
signature = "1111111111111111111111111111111111111111111111111111111111111111"

abbrev fresh : RequestRateLimiter
fresh = record { limit = 20; window_ms = 60_000; max_keys = 100; buckets = [] }

abbrev limiters : Limiters
limiters = record {
  challenge_global = fresh;
  challenge_ip = fresh;
  challenge = fresh;
  verification_global = fresh;
  verification_ip = fresh;
  verification = fresh;
  telemetry_global = fresh;
  telemetry_ip = fresh;
  telemetry = fresh;
  mutation = fresh;
  settlement = fresh;
}

abbrev today : ℕ → String
today at = "2026-01-01"

abbrev outside : Outside
outside = record {
  others = λ moment s. s;
  clock = λ moment. moment;
  random_uuid = λ moment. "uuid";
  random_token = λ bytes moment. "token";
  dates = record { time = λ text. some 5; iso = today };
  env = sample_env;
  sha256 = λ text. text;
  sha256_hex24 = λ text. text;
  verify_ed25519 = λ message key signature. some true;
  rpc = node;
  kit = kit;
  sockets = open_sockets;
  decode_uri_component = λ text. some text;
  json_parse = λ text.
      some (Json.object (Fields.field "walletAddress" (Json.string wallet) Fields.no_fields));
  utf8 = λ bytes. "{}";
  number_of = λ value. of_nat 2;
  number_text = λ n. "2";
  lower = λ text. text;
  url = λ text. none;
}

abbrev config : ServerConfig
config = record {
  host = "127.0.0.1";
  port = "8787";
  public_origin = none;
  platform_hostname = none;
  secure_cookies = true;
  solana_genesis_hash = none;
  telemetry_retention_days = none;
  telemetry_max_events_per_machine = none;
}

-- A POST of JSON.
abbrev ask : String → Option String → Request
ask path cookie = record {
  method = "POST";
  path = path;
  query = [];
  remote_address = some "10.0.0.1";
  origin = none;
  host = some "127.0.0.1:8787";
  cookie = cookie;
  csrf = "csrf" ∷ [];
  authorization = none;
  content_encoding = none;
  content_length = none;
  content_type = some "application/json";
  chunks = (123 ∷ 125 ∷ []) ∷ [];
}

abbrev traffic : Traffic
traffic = record {
  config = config;
  network = [];
  arrives = λ depth moment. (moment, ask "/api/auth/challenge" none);
}

abbrev asked : List (ℕ × Request)
asked =
    (1, ask "/api/auth/challenge" none)
    ∷ (2, ask "/api/machines" (some "mfi_console_session=token"))
    ∷ []

serve-safe_example : Holds safe (serve 2 outside traffic asked 0 (started limiters))
serve-safe_example = serve-safe 2 outside traffic asked 0 limiters

abbrev at_start : State
at_start = record { shared = started limiters; calls = []; moment = 0 }

no_token : session_token_of (ask "/api/settlements" none) ≡ none
unfolding session_token_of get cookies split_on cut_at
no_token = refl

closed_path : is_open_path (split_on b'/' "/api/settlements") ≡ false
unfolding is_open_path split_on
closed_path = refl

handle_production_request-unauthenticated_example :
    ((handle_production_request outside config [] 1 (ask "/api/settlements" none) at_start).0
      ≡ at_start)
    × IsUnanswered
        (handle_production_request outside config [] 1 (ask "/api/settlements" none) at_start).1
handle_production_request-unauthenticated_example =
    handle_production_request-unauthenticated outside config [] 1 (ask "/api/settlements" none)
      at_start no_token closed_path

abbrev open_challenge : WalletChallengeRecord
open_challenge = record {
  id = "login";
  wallet_address = wallet;
  message = "sign in";
  nonce_hash = "hash";
  expires_at = "2026-01-02";
  consumed_at = none;
}

abbrev challenged : State
challenged = record {
  shared = record (started limiters) {
    store = record empty_store { challenges = ("login", open_challenge) ∷ [] };
  };
  calls = [];
  moment = 0;
}

abbrev login : Login
login = record {
  session = record {
    id = "uuid";
    user_id = "uuid";
    wallet_address = wallet;
    token_hash = "token";
    csrf_hash = "token";
    expires_at = "2026-01-01";
    revoked_at = none;
  };
  session_token = "token";
  csrf_token = "token";
}

logs_in :
    (verify outside "login" wallet signature (ask "/api/auth/verify" none) 0 challenged).1
    ≡ done login
unfolding verify ◌>>=◌ limit assert get ensure trim_text text_length is_solana_address codes read
    require active_challenge is_active_challenge request_ip prune prune_loop put pure change
    consume_challenge create_authenticated_session opaque_token uuid verify_solana_message_signature
    is_solana_signature decode_base58 trim_text_start trim_text_end is_whitespace text_lt text_le
    units units_lt
logs_in = refl

-- The challenge of the store that the login finds.
abbrev Here : Predicate
Here s = s.challenges ≡ ("login", open_challenge) ∷ []

nobody_else : (P : Predicate) → KeptByOthers outside P
nobody_else P = record { keep = λ moment s p. p }

verify-IsSigned_example :
    IsSigned outside Here (trim_text "login") (trim_text wallet) (trim_text signature) (today 0)
    × IsLoggedIn
        (trim_text "login")
        (trim_text wallet)
        login.session
        (verify outside "login" wallet signature
          (ask "/api/auth/verify" none)
          0
          challenged).0.shared.store
verify-IsSigned_example =
    verify-IsSigned outside Here "login" wallet signature (ask "/api/auth/verify" none) 0 challenged
      login (nobody_else Here) (nobody_else _) refl logs_in

abbrev session : AuthSessionRecord
session = record {
  id = "session";
  user_id = "ada";
  wallet_address = wallet;
  token_hash = "token";
  csrf_hash = "csrf";
  expires_at = "2026-01-02";
  revoked_at = none;
}

abbrev signed_in : State
signed_in = record {
  shared = record (started limiters) {
    store = record empty_store { sessions = ("session", session) ∷ [] };
  };
  calls = [];
  moment = 0;
}

abbrev with_cookie : Request
with_cookie = ask "/api/machines" (some "mfi_console_session=token")

lets_in : (authenticate outside with_cookie true signed_in).1 ≡ done session
unfolding authenticate ◌>>=◌ require session_token_of get cookies split_on cut_at now read
    session_by_token_hash find values ensure csrf_valid trim_text put text_length text_lt
    hash_equals
lets_in = refl

authenticate-IsLive_example : IsLive outside with_cookie true signed_in session
authenticate-IsLive_example = authenticate-IsLive outside with_cookie true signed_in session lets_in

unclaimed :
    (transition_settlement
      (wait outside at_start).shared.store
      "ada"
      "payment"
      SettlementState.awaiting_signature
      (claim_patch signature "2026-01-01")).1
    ≡ none
unfolding transition_settlement get
unclaimed = refl

submit_inspected-unclaimed_example :
    ((submit_inspected outside "ada" "payment" "2026-01-01" payment
        (Checked.done (signature, 1 ∷ []))
        at_start).0.calls
      ≡ [])
    × ((submit_inspected outside "ada" "payment" "2026-01-01" payment
          (Checked.done (signature, 1 ∷ []))
          at_start).1
        ≡ refused 409 "settlement state changed or transaction signature is already claimed")
submit_inspected-unclaimed_example =
    submit_inspected-unclaimed outside "ada" "payment" "2026-01-01" payment signature (1 ∷ [])
      at_start unclaimed

abbrev half : Parts
half = record { whole = b'0' ∷ []; fraction = some (b'5' ∷ []) }

abbrev three : Parts
three = record { whole = b'3' ∷ []; fraction = none }

is_half : match_decimal (codes "0.5") ≡ some half
unfolding match_decimal codes is_digits1 before_dot is_digits all is_fraction after_dot
is_half = refl

is_three : match_decimal (codes "3") ≡ some three
unfolding match_decimal codes is_digits1 before_dot is_digits all is_fraction after_dot
is_three = refl

quotes : quoted_sol_to_lamports "0.5" "3" ≡ done 1_500_000_000
unfolding quoted_sol_to_lamports parts_of is_digits all before_dot codes after_dot big_int
quotes = refl

quoted_sol_to_lamports-exact_example :
    IsProduct half three 1_500_000_000
    × ((0 < 1_500_000_000)
        × ((1_500_000_000 ≤ 100_000_000_000_000)
            × (is_exact_amount "0.5" "3" (text_of_nat 1_500_000_000) ≡ true)))
quoted_sol_to_lamports-exact_example =
    quoted_sol_to_lamports-exact "0.5" "3" half three 1_500_000_000 is_half is_three quotes

quoted_sol_to_lamports_complete_example : quoted_sol_to_lamports "0.5" "3" ≡ done 1_500_000_000
unfolding big_int
quoted_sol_to_lamports_complete_example =
    quoted_sol_to_lamports_complete "0.5" "3" half three 1_500_000_000 is_half is_three refl
      (omega arith) (omega arith)

new_settlement-amount_example : IsProduct half three (
    big_int (
      codes
        (new_settlement "payment" "2026-01-06" session open_request offer robot server
          1_500_000_000).amount_lamports))
new_settlement-amount_example =
    new_settlement-amount "payment" "2026-01-06" session open_request offer robot server half three
      1_500_000_000 is_half is_three quotes

abbrev body : Json
body = Json.object (
    Fields.field "priceAmount" (Json.string " 0.5 ")
      (Fields.field "maxPrice" (Json.string "3") Fields.no_fields))

accepts_half : decimal outside body "priceAmount" ≡ done "0.5"
unfolding decimal text_length property member trim_text is_plain_decimal before_dot codes is_digits
    all after_dot number_le
accepts_half = refl

accepts_three : decimal outside body "maxPrice" ≡ done "3"
unfolding decimal text_length property member trim_text is_plain_decimal before_dot codes is_digits
    all after_dot number_le
accepts_three = refl

price_within_limit-at_most_example : decimal_at_most "0.5" "3" ≡ some (price_within_limit "0.5" "3")
price_within_limit-at_most_example =
    price_within_limit-at_most outside body body "priceAmount" "maxPrice" "0.5" "3" accepts_half
      accepts_three
