-- ===== src/Server/Barred/Rules.antt =====
-- Actions that are refused and change nothing.
use machina_sol.Prelude.{
  ℕ, String, Bool, true, false, Option, none, some, ◌≡◌, ◌∙◌, refl, arith, if◌then◌else◌,
}
use machina_sol.Server.World.{
  Outcome, done, refused, crashed, State, Outside, App, lift, follow, ◌>>=◌, ensure, require,
}
use machina_sol.Server.Http.{Request, ServerConfig}
use machina_sol.Server.Auth.{authenticate, session_token_of}
use machina_sol.Server.Response.{guard_post, json_mutation, use_get}
use machina_sol.Server.Routes.Settlements.{guard_settlement}

-- No answer.
abbrev pub IsRefusal : {A : Type 0} → Outcome A → Type 0
IsRefusal (done a) = ⊥
IsRefusal (refused status message) = Unit
IsRefusal crashed = Unit

-- The action changes nothing.
pub record Rests {A : Type 0} (m : App A) : Type 0 where
  pub at : (st : State) → (m st).0 ≡ st

-- It is refused too.
pub record Bars {A : Type 0} (m : App A) : Type 0 where
  pub at : (st : State) → ((m st).0 ≡ st) × IsRefusal (m st).1

module _ {A : Type 0} where
  pub Rests-lift : (r : Outcome A) → Rests (lift r)
  unfolding lift
  Rests-lift r = record { at = λ st. refl }

  pub Bars-require :
      (a : Option A) (status : ℕ) (message : String) → a ≡ none → Bars (require a status message)
  unfolding require
  Bars-require none status message e = record { at = λ st. (refl, tt) }
  Bars-require (some a) status message e = absurd (ground arith)

  pub Bars-if : (b : Bool) (m n : App A) → Bars m → Bars n → Bars (if b then m else n)
  Bars-if true m n h k = h
  Bars-if false m n h k = k

pub Rests-ensure : (b : Bool) (status : ℕ) (message : String) → Rests (ensure b status message)
unfolding ensure
Rests-ensure b status message = record { at = λ st. refl }

module _ {A B : Type 0} where
  stopped :
      (st : State) (s : State × Outcome A) (f : A → App B)
      → (s.0 ≡ st) × IsRefusal s.1
      → ((follow s.0 s.1 f).0 ≡ st) × IsRefusal (follow s.0 s.1 f).1
  stopped st (st', done a) f (e, i) = absurd i
  stopped st (st', refused status message) f (e, i) = (e, tt)
  stopped st (st', crashed) f (e, i) = (e, tt)

  pub Bars-bind : (m : App A) (f : A → App B) → Bars m → Bars (m >>= f)
  unfolding ◌>>=◌
  Bars-bind m f h = record { at = λ st. stopped st (m st) f (h.at st) }

  later :
      (st : State) (s : State × Outcome A) (f : A → App B)
      → s.0 ≡ st
      → ((a : A) → Bars (f a))
      → ((follow s.0 s.1 f).0 ≡ st) × IsRefusal (follow s.0 s.1 f).1
  later st (st', done a) f e h = let (rests, refusal) = (h a).at st' in (rests ∙ e, refusal)
  later st (st', refused status message) f e h = (e, tt)
  later st (st', crashed) f e h = (e, tt)

  pub Bars-after : (m : App A) (f : A → App B) → Rests m → ((a : A) → Bars (f a)) → Bars (m >>= f)
  unfolding ◌>>=◌
  Bars-after m f rests h = record { at = λ st. later st (m st) f (rests.at st) h }

pub ruleset bar_rules = (Rests-lift, Rests-ensure, Bars-require, Bars-if, Bars-bind, Bars-after)

module _ (o : Outside) (config : ServerConfig) (req : Request)
    (no_session : session_token_of req ≡ none) where
  pub authenticate-barred : (csrf : Bool) → Bars (authenticate o req csrf)
  unfolding authenticate
  authenticate-barred csrf = search (bar_rules, no_session)

  pub guard_post-barred : (scope : String) → Bars (guard_post o config req scope)
  unfolding guard_post json_mutation
  guard_post-barred scope = search (bar_rules, authenticate-barred) depth 30

  pub guard_settlement-barred : (part : String) → Bars (guard_settlement o config req part)
  unfolding guard_settlement json_mutation
  guard_settlement-barred part = search (bar_rules, authenticate-barred) depth 30

pub json_mutation-Rests : (req : Request) (method : String) → Rests (json_mutation req method)
unfolding json_mutation
json_mutation-Rests req method = search bar_rules

pub use_get-Rests : (req : Request) → Rests (use_get req)
unfolding use_get
use_get-Rests req = search bar_rules

pub ruleset barred_rules = (
  bar_rules, authenticate-barred, guard_post-barred, guard_settlement-barred, use_get-Rests,
  json_mutation-Rests,
)
