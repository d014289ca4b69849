-- ===== src/Server/Keeps.antt =====
-- Invariants of actions: one rule for each way to build an action. The other requests keep the
-- invariant too (`Relies`), and then an action keeps it whatever they do while it waits.
use machina_sol.Prelude.{
  ℕ, String, Bool, true, false, Option, none, some, if◌then◌else◌, Result, ok, err,
}
use machina_sol.Store.State.{ProductionStore}
use machina_sol.Hub.{TelemetryHub}
use machina_sol.RateLimit.{RequestRateLimiter}
use machina_sol.Transactions.Flow.{Flow}
use machina_sol.Market.{after}
use machina_sol.Server.World.{
  Outcome, done, refused, crashed, Limiters, Shared, State, Outside, App, pure, lift, refuse,
  follow, ◌>>=◌, ensure, require, wait, waiting, read, change, attempt, with_hub, now, now_iso,
  uuid, opaque_token, on_node, limit,
}

-- An invariant of the store and of the hub.
pub record Invariant : Type 1 where
  pub OfStore : ProductionStore → Type 0
  pub OfHub : TelemetryHub → Type 0

abbrev pub Holds : Invariant → Shared → Type 0
Holds P s = P.OfStore s.store × P.OfHub s.hub

-- The other requests keep the invariant.
pub record Relies (P : Invariant) (o : Outside) : Type 0 where
  pub keep : (moment : ℕ) (s : Shared) → Holds P s → Holds P (o.others moment s)

-- The action keeps the invariant, whether it answers or throws.
pub record Keeps {A : Type 0} (P : Invariant) (m : App A) : Type 0 where
  pub at : (st : State) → Holds P st.shared → Holds P (m st).0.shared

module _ {P : Invariant} {A : Type 0} where
  pub Keeps-pure : (a : A) → Keeps P (pure a)
  unfolding pure
  Keeps-pure a = record { at = λ st h. h }

  pub Keeps-lift : (r : Outcome A) → Keeps P (lift r)
  unfolding lift
  Keeps-lift r = record { at = λ st h. h }

  pub Keeps-refuse : (status : ℕ) (message : String) → Keeps P (refuse {A = A} status message)
  unfolding refuse
  Keeps-refuse status message = record { at = λ st h. h }

  pub Keeps-require :
      (a : Option A) (status : ℕ) (message : String) → Keeps P (require a status message)
  unfolding require
  Keeps-require none status message = record { at = λ st h. h }
  Keeps-require (some a) status message = record { at = λ st h. h }

  pub Keeps-if : (b : Bool) (m n : App A) → Keeps P m → Keeps P n → Keeps P (if b then m else n)
  Keeps-if true m n km kn = km
  Keeps-if false m n km kn = kn

module _ {P : Invariant} {A B : Type 0} where
  Keeps-follow :
      (st : State) (r : Outcome A) (f : A → App B)
      → ((a : A) → Keeps P (f a))
      → Holds P st.shared
      → Holds P (follow st r f).0.shared
  Keeps-follow st (done a) f kf h = (kf a).at st h
  Keeps-follow st (refused status message) f kf h = h
  Keeps-follow st crashed f kf h = h

  pub Keeps-bind :
      (m : App A) (f : A → App B) → Keeps P m → ((a : A) → Keeps P (f a)) → Keeps P (m >>= f)
  unfolding ◌>>=◌
  Keeps-bind m f km kf = record {
    at = λ st h. let (st', r) = m st in Keeps-follow st' r f kf (km.at st h);
  }

  pub Keeps-option :
      (x : Option B) (f : B → App A) (m : App A)
      → ((b : B) → Keeps P (f b))
      → Keeps P m
      → Keeps P (elim x [ none ↦ m | some b ↦ f b ])
  Keeps-option none f m kf km = km
  Keeps-option (some b) f m kf km = kf b

module _ {P : Invariant} where
  pub Keeps-ensure : (b : Bool) (status : ℕ) (message : String) → Keeps P (ensure b status message)
  unfolding ensure
  Keeps-ensure b status message = record { at = λ st h. h }

module _ {P : Invariant} {o : Outside} (r : Relies P o) where
  pub Keeps-waiting : Keeps P (waiting o)
  unfolding waiting
  Keeps-waiting = record { at = λ st h. r.keep st.moment st.shared h }

  pub Keeps-read : {A : Type 0} (f : ProductionStore → A) → Keeps P (read o f)
  unfolding read
  Keeps-read f = record { at = λ st h. r.keep st.moment st.shared h }

  pub Keeps-change :
      {A : Type 0} (f : ProductionStore → ProductionStore × A)
      → ((s : ProductionStore) → P.OfStore s → P.OfStore (f s).0)
      → Keeps P (change o f)
  unfolding change
  Keeps-change f kf = record {
    at = λ st h.
        let kept = r.keep st.moment st.shared h in
        (kf (o.others st.moment st.shared).store kept.0, kept.1);
  }

  attempted :
      (st : State) (x : Result ProductionStore)
      → Holds P (wait o st).shared
      → P.OfStore (after (wait o st).shared.store x)
      → Holds P
          (elim x as (λ _. State × Outcome (Option String)) [
            | ok s ↦
                (record (wait o st) { shared = record (wait o st).shared { store = s } }, done none)
            | err message ↦ (wait o st, done (some message))
          ]).0.shared
  attempted st (ok s) h k = (k, h.1)
  attempted st (err message) h k = h

  pub Keeps-attempt :
      (f : ProductionStore → Result ProductionStore)
      → ((s : ProductionStore) → P.OfStore s → P.OfStore (after s (f s)))
      → Keeps P (attempt o f)
  unfolding attempt
  Keeps-attempt f kf = record {
    at = λ st h.
        let kept = r.keep st.moment st.shared h in
        attempted st (f (o.others st.moment st.shared).store) kept
          (kf (o.others st.moment st.shared).store kept.0);
  }

  pub Keeps-on_node : {A : Type 0} (f : Flow A) → Keeps P (on_node o f)
  unfolding on_node
  Keeps-on_node f = record { at = λ st h. r.keep st.moment st.shared h }

module _ {P : Invariant} (o : Outside) where
  pub Keeps-with_hub :
      {A : Type 0} (f : TelemetryHub → TelemetryHub × A)
      → ((hub : TelemetryHub) → P.OfHub hub → P.OfHub (f hub).0)
      → Keeps P (with_hub o f)
  unfolding with_hub
  Keeps-with_hub f kf = record { at = λ st h. (h.0, kf st.shared.hub h.1) }

  pub Keeps-now : Keeps P (now o)
  unfolding now
  Keeps-now = record { at = λ st h. h }

  pub Keeps-now_iso : Keeps P (now_iso o)
  unfolding now_iso
  Keeps-now_iso = record { at = λ st h. h }

  pub Keeps-uuid : Keeps P (uuid o)
  unfolding uuid
  Keeps-uuid = record { at = λ st h. h }

  pub Keeps-opaque_token : (bytes : ℕ) → Keeps P (opaque_token o bytes)
  unfolding opaque_token
  Keeps-opaque_token bytes = record { at = λ st h. h }

  pub Keeps-limit :
      (get : Limiters → RequestRateLimiter) (set : RequestRateLimiter → Limiters → Limiters)
      (key : String)
      → Keeps P (limit o get set key)
  unfolding limit
  Keeps-limit get set key = record { at = λ st h. h }

pub ruleset keeps_rules = (
  Keeps-pure, Keeps-lift, Keeps-refuse, Keeps-require, Keeps-if, Keeps-bind, Keeps-option,
  Keeps-ensure, Keeps-waiting, Keeps-read, Keeps-on_node, Keeps-now, Keeps-now_iso, Keeps-uuid,
  Keeps-opaque_token, Keeps-limit,
)
