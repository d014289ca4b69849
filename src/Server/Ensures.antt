-- ===== src/Server/Ensures.antt =====
-- What an action answers and how it leaves the store, from what holds of the store that it finds: one
-- rule for each way to build an action that a login uses.
use machina_sol.Prelude.{if◌then◌else◌, ℕ, String, Bool, true, false, Option, none, some, ◌≡◌, refl}
use machina_sol.RateLimit.{RequestRateLimiter}
use machina_sol.Store.State.{ProductionStore}
use machina_sol.Server.World.{
  Outcome, done, refused, crashed, State, Shared, Outside, Limiters, App, pure, follow, ◌>>=◌,
  ensure, require, read, change, uuid, opaque_token, limit,
}

abbrev pub Predicate : Type 1
Predicate = ProductionStore → Type 0

-- The answer has `F` and its store has `Q`, where there is an answer.
abbrev pub AnswersIn : {A : Type 0} → (A → Type 0) → (A → Predicate) → State × Outcome A → Type 0
AnswersIn F Q (st, done a) = F a × Q a st.shared.store
AnswersIn F Q (st, refused status message) = Unit
AnswersIn F Q (st, crashed) = Unit

pub record Ensures {A : Type 0} (P : Predicate) (m : App A) (F : A → Type 0) (Q : A → Predicate)
    : Type 0 where
  pub at : (st : State) → P st.shared.store → AnswersIn F Q (m st)

-- Other requests keep the predicate of the store.
pub record KeptByOthers (o : Outside) (P : Predicate) : Type 0 where
  pub keep : (moment : ℕ) (s : Shared) → P s.store → P (o.others moment s).store

module _ {A B : Type 0} {F : A → Type 0} {Q : A → Predicate} {G : B → Type 0}
    {R : B → Predicate} where
  Ensures-follow :
      (r : State × Outcome A) (f : A → App B)
      → AnswersIn F Q r
      → ((a : A) → F a → Ensures (Q a) (f a) G R)
      → AnswersIn G R (follow r.0 r.1 f)
  Ensures-follow (st, done a) f (fact, q) k = (k a fact).at st q
  Ensures-follow (st, refused status message) f q k = tt
  Ensures-follow (st, crashed) f q k = tt

  pub Ensures-bind :
      {P : Predicate} (m : App A) (f : A → App B)
      → Ensures P m F Q
      → ((a : A) → F a → Ensures (Q a) (f a) G R)
      → Ensures P (m >>= f) G R
  unfolding ◌>>=◌
  Ensures-bind m f e k = record { at = λ st p. Ensures-follow (m st) f (e.at st p) k }

counted_in :
    (P : Predicate) (st : State) (passes : Bool)
    → P st.shared.store
    → AnswersIn {A = Unit {0}}
        (λ _. Unit)
        (λ _. P)
        (st, if passes then done tt else refused 429 "request rate limit exceeded; retry later")
counted_in P st true p = (tt, p)
counted_in P st false p = tt

module _ {P : Predicate} where
  pub Ensures-ensure :
      (b : Bool) (status : ℕ) (message : String)
      → Ensures P (ensure b status message) (λ _. b ≡ true) (λ _. P)
  unfolding ensure
  Ensures-ensure true status message = record { at = λ st p. (refl, p) }
  Ensures-ensure false status message = record { at = λ st p. tt }

  pub Ensures-uuid : (o : Outside) → Ensures P (uuid o) (λ _. Unit) (λ _. P)
  unfolding uuid
  Ensures-uuid o = record { at = λ st p. (tt, p) }

  pub Ensures-opaque_token :
      (o : Outside) (bytes : ℕ) → Ensures P (opaque_token o bytes) (λ _. Unit) (λ _. P)
  unfolding opaque_token
  Ensures-opaque_token o bytes = record { at = λ st p. (tt, p) }

  pub Ensures-limit :
      (o : Outside) (get : Limiters → RequestRateLimiter)
      (set : RequestRateLimiter → Limiters → Limiters) (key : String)
      → Ensures P (limit o get set key) (λ _. Unit) (λ _. P)
  unfolding limit
  Ensures-limit o get set key = record { at = λ st p. counted_in P (limit o get set key st).0 _ p }

module _ {A : Type 0} {P : Predicate} where
  pub Ensures-require :
      (a : Option A) (status : ℕ) (message : String)
      → Ensures P (require a status message) (λ b. a ≡ some b) (λ _. P)
  unfolding require
  Ensures-require none status message = record { at = λ st p. tt }
  Ensures-require (some a) status message = record { at = λ st p. (refl, p) }

  -- What is read stood in a store that has the predicate.
  pub Ensures-read :
      (o : Outside) (f : ProductionStore → A)
      → KeptByOthers o P
      → Ensures P (read o f) (λ a. (s : ProductionStore) × P s × (f s ≡ a)) (λ _. P)
  unfolding read
  Ensures-read o f kept = record {
    at = λ st p.
        let q = kept.keep st.moment st.shared p in
        (((o.others st.moment st.shared).store, q, refl), q);
  }

  pub Ensures-change :
      (o : Outside) (f : ProductionStore → ProductionStore × A) (Q : A → Predicate)
      → KeptByOthers o P
      → ((s : ProductionStore) → P s → Q (f s).1 (f s).0)
      → Ensures P (change o f) (λ _. Unit) Q
  unfolding change
  Ensures-change o f Q kept next = record {
    at = λ st p. (tt, next (o.others st.moment st.shared).store (kept.keep st.moment st.shared p));
  }

  pub Ensures-pure :
      (a : A) (F : A → Type 0) (Q : A → Predicate)
      → F a
      → ((s : ProductionStore) → P s → Q a s)
      → Ensures P (pure a) F Q
  unfolding pure
  Ensures-pure a F Q fact next = record { at = λ st p. (fact, next st.shared.store p) }

  -- More may be asked of the store that is found.
  pub Ensures-from :
      {P' : Predicate} (m : App A) (F : A → Type 0) (Q : A → Predicate)
      → ((s : ProductionStore) → P' s → P s)
      → Ensures P m F Q
      → Ensures P' m F Q
  Ensures-from m F Q weaker e = record { at = λ st p. e.at st (weaker st.shared.store p) }
