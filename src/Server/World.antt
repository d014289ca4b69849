-- ===== src/Server/World.antt =====
-- What a request handler works on, and how it calls, waits and throws.
--
-- Node runs one handler at a time until it waits (`await`), and other handlers run then. So an
-- action goes from the moment and the state that it finds to those that it leaves, and before each
-- access of the store the other requests act, as `others` says.
use machina_sol.Prelude.{
  ℕ, suc, String, Bool, Option, none, some, List, if◌then◌else◌, Result, ok, err,
}
use machina_sol.Number.{Number}
use machina_sol.Json.{Json}
use machina_sol.Store.State.{Env, ProductionStore}
use machina_sol.Hub.{TelemetryHub, Sockets}
use machina_sol.RateLimit.{RequestRateLimiter, assert}
use machina_sol.Telemetry.Checks.{Dates}
use machina_sol.Transactions.Flow.{RpcTransport, Checked, Flow}
use machina_sol.Transactions.Prepare.{Kit}

-- What an action leaves: a value, an HttpError, or another error, which the server answers by 500.
pub data Outcome {ℓ} (A : Type ℓ) : Type ℓ where
  done : A → Outcome A
  refused : ℕ → String → Outcome A
  crashed : Outcome A

-- The rate limiters of auth.ts and app.ts.
pub record Limiters : Type 0 where
  pub challenge_global : RequestRateLimiter
  pub challenge_ip : RequestRateLimiter
  pub challenge : RequestRateLimiter
  pub verification_global : RequestRateLimiter
  pub verification_ip : RequestRateLimiter
  pub verification : RequestRateLimiter
  pub telemetry_global : RequestRateLimiter
  pub telemetry_ip : RequestRateLimiter
  pub telemetry : RequestRateLimiter
  pub mutation : RequestRateLimiter
  pub settlement : RequestRateLimiter

-- What all requests share.
pub record Shared : Type 0 where
  pub store : ProductionStore
  pub hub : TelemetryHub
  pub limiters : Limiters

-- `calls` are the calls of this request on the Solana node, the latest first.
pub record State : Type 0 where
  pub shared : Shared
  pub calls : List String
  pub moment : ℕ

-- What the handlers use of Node, of the environment and of other requests; what changes in time is a
-- function of the moment. A time counts milliseconds from the earliest date of JavaScript.
pub record Outside : Type 0 where
  pub others : ℕ → Shared → Shared
  pub clock : ℕ → ℕ
  pub random_uuid : ℕ → String
  -- randomBytes(n).toString('base64url'), for n bytes
  pub random_token : ℕ → ℕ → String
  pub dates : Dates
  pub env : Env
  -- createHash('sha256') in base64url, and the first 24 hexadecimal digits of it
  pub sha256 : String → String
  pub sha256_hex24 : String → String
  -- verify(null, message, key, signature), whose error is `none`
  pub verify_ed25519 : (message : String) → (key signature : List ℕ) → Option Bool
  pub rpc : RpcTransport
  pub kit : Kit
  pub sockets : Sockets
  -- decodeURIComponent, whose error is `none`; JSON.parse; Buffer.toString('utf8')
  pub decode_uri_component : String → Option String
  pub json_parse : String → Option Json
  pub utf8 : List ℕ → String
  -- Number(value) and String(number)
  pub number_of : Json → Number
  pub number_text : Number → String
  -- text.toLowerCase(), and the hostname and host of new URL(text), whose error is `none`
  pub lower : String → String
  pub url : String → Option (String × String)

abbrev pub App : Type 0 → Type 0
App A = State → State × Outcome A

unfoldable pub pure : {A : Type 0} → A → App A
pure a st = (st, done a)

unfoldable pub lift : {A : Type 0} → Outcome A → App A
lift r st = (st, r)

unfoldable pub refuse : {A : Type 0} → ℕ → String → App A
refuse status message st = (st, refused status message)

abbrev pub follow : {A B : Type 0} → State → Outcome A → (A → App B) → State × Outcome B
follow st (done a) f = f a st
follow st (refused status message) f = (st, refused status message)
follow st crashed f = (st, crashed)

infixl 5 ◌>>=◌ ◌>>◌
unfoldable pub ◌>>=◌ : {A B : Type 0} → App A → (A → App B) → App B
unfolding pure lift refuse
(m >>= f) st = let (st', r) = m st in follow st' r f

abbrev pub ◌>>◌ : {A B : Type 0} → App A → App B → App B
m >> n = m >>= λ _. n

-- `if (!b) throw new HttpError(status, message)`
unfoldable pub ensure : Bool → ℕ → String → App (Unit {0})
ensure b status message st = (st, if b then done tt else refused status message)

-- The value, or the HttpError that takes its place.
unfoldable pub require : {A : Type 0} → Option A → ℕ → String → App A
require none status message st = (st, refused status message)
require (some a) status message st = (st, done a)

module _ (o : Outside) where
  -- The other requests act, once and as they like.
  abbrev pub wait : State → State
  wait st = record st { shared = o.others st.moment st.shared; moment = suc st.moment }

  unfoldable pub waiting : App (Unit {0})
  waiting st = (wait st, done tt)

  -- A read of the store.
  unfoldable pub read : {A : Type 0} → (ProductionStore → A) → App A
  read f st = (wait st, done (f (wait st).shared.store))

  abbrev pub put_store : State → ProductionStore → State
  put_store st s = record st { shared = record st.shared { store = s } }

  -- A call that changes the store.
  unfoldable pub change : {A : Type 0} → (ProductionStore → ProductionStore × A) → App A
  change f st = let (s, a) = f (wait st).shared.store in (put_store (wait st) s, done a)

  -- A call that throws leaves the store, and its message.
  unfoldable pub attempt : (ProductionStore → Result ProductionStore) → App (Option String)
  attempt f st = elim (f (wait st).shared.store) [
    | ok s ↦ (put_store (wait st) s, done none)
    | err message ↦ (wait st, done (some message))
  ]

  -- A call that reads the state of the hub or changes it. It does not wait.
  unfoldable pub with_hub : {A : Type 0} → (TelemetryHub → TelemetryHub × A) → App A
  with_hub f st =
      let (h, a) = f st.shared.hub in (record st { shared = record st.shared { hub = h } }, done a)

  -- new Date(), randomUUID(), randomBytes(n): each at a moment of its own.
  unfoldable pub now : App ℕ
  now st = (record st { moment = suc st.moment }, done (o.clock st.moment))

  unfoldable pub now_iso : App String
  now_iso st = (record st { moment = suc st.moment }, done (o.dates.iso (o.clock st.moment)))

  unfoldable pub uuid : App String
  uuid st = (record st { moment = suc st.moment }, done (o.random_uuid st.moment))

  unfoldable pub opaque_token : ℕ → App String
  opaque_token bytes st =
      (record st { moment = suc st.moment }, done (o.random_token bytes st.moment))

  -- A call of the Solana node, which takes time.
  unfoldable pub on_node : {A : Type 0} → Flow A → App (Checked A)
  on_node f st = let (calls, r) = f st.calls in (record (wait st) { calls = calls }, done r)

  -- limiter.assert(key), for the limiter that the two functions read and write.
  unfoldable pub limit :
      (Limiters → RequestRateLimiter)
      → (RequestRateLimiter → Limiters → Limiters)
      → String
      → App (Unit {0})
  limit get set key st =
      let (r, passes) = assert (get st.shared.limiters) key (o.clock st.moment) in
      (
        record st {
          shared = record st.shared { limiters = set r st.shared.limiters };
          moment = suc st.moment;
        },
        if passes then done tt else refused 429 "request rate limit exceeded; retry later",
      )
