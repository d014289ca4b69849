-- ===== src/Server/Barred/Dispatch.antt =====
-- Without a session a request changes nothing, but for the login and the telemetry of machines
-- (`handleProductionRequest` of src/server/production/app.ts).
use machina_sol.Prelude.{
  String, ℕ, Bool, true, false, not, ◌&&◌, ◌||◌, Option, none, some, List, [], ◌∷◌, ◌==◌, ◌≡◌, refl,
  arith, if◌then◌else◌,
}
use machina_sol.Texts.{split_on}
use machina_sol.Json.{Json}
use machina_sol.Server.World.{
  Outcome, done, refused, crashed, State, Outside, App, pure, follow, ◌>>=◌,
}
use machina_sol.Server.Http.{Request, ServerConfig}
use machina_sol.Server.Auth.{session_token_of}
use machina_sol.Server.Response.{Response}
use machina_sol.Server.Routes.Dispatch.{
  handled, unhandled, route_one, route_two, route_three, route_request, route_action, route_four,
  route_six, route_parts, route_path, handle_production_request,
}
use machina_sol.Server.Barred.Rules.{Bars, IsRefusal}
use machina_sol.Server.Barred.Routes.{barred_route_rules}

-- The paths that need no session: /api/auth/challenge, /api/auth/verify and
-- /api/machines/<id>/telemetry.
abbrev open_parts : List String → Bool
open_parts (a ∷ b ∷ []) = a == "auth" && (b == "challenge" || b == "verify")
open_parts (a ∷ b ∷ c ∷ []) = a == "machines" && c == "telemetry"
open_parts _ = false

unfoldable pub is_open_path : List String → Bool
is_open_path (root ∷ api ∷ parts) = open_parts parts
is_open_path _ = false

-- No response.
abbrev pub IsUnanswered : Outcome (Option Response) → Type 0
IsUnanswered (done none) = Unit
IsUnanswered (done (some r)) = ⊥
IsUnanswered (refused status message) = Unit
IsUnanswered crashed = Unit

-- The action changes nothing, neither what the requests share nor the calls of the node.
record Leaves (m : App (Option Response)) : Type 0 where
  pub at : (st : State) → ((m st).0 ≡ st) × IsUnanswered (m st).1

kept_back :
    (st : State) (s : State × Outcome Response)
    → (s.0 ≡ st) × IsRefusal s.1
    → ((follow s.0 s.1 (λ r. pure (some r))).0 ≡ st)
      × IsUnanswered (follow s.0 s.1 (λ r. pure (some r))).1
kept_back st (st', done r) (e, i) = absurd i
kept_back st (st', refused status message) (e, i) = (e, tt)
kept_back st (st', crashed) (e, i) = (e, tt)

Leaves-handled : (m : App Response) → Bars m → Leaves (handled m)
unfolding handled ◌>>=◌
Leaves-handled m h = record { at = λ st. kept_back st (m st) (h.at st) }

Leaves-unhandled : Leaves unhandled
unfolding unhandled pure
Leaves-unhandled = record { at = λ st. (refl, tt) }

Leaves-if :
    (b : Bool) (m n : App (Option Response)) → Leaves m → Leaves n → Leaves (if b then m else n)
Leaves-if true m n h k = h
Leaves-if false m n h k = k

Leaves-else :
    (b : Bool) (m n : App (Option Response)) → b ≡ false → Leaves n → Leaves (if b then m else n)
Leaves-else true m n e k = absurd (ground arith)
Leaves-else false m n e k = k

closed_telemetry :
    (a b c : String)
    → open_parts (a ∷ b ∷ c ∷ []) ≡ false
    → (a == "machines" && (not (b == "") && c == "telemetry")) ≡ false
closed_telemetry a b c closed = ground arith

ruleset leave_rules = (barred_route_rules, Leaves-handled, Leaves-unhandled, Leaves-if)

module _ (o : Outside) (config : ServerConfig) (network : List (String × Json)) (stream : ℕ)
    (req : Request) (no_session : session_token_of req ≡ none) where
  one : (a : String) → Leaves (route_one o config network stream req a)
  unfolding route_one
  one a = search (leave_rules, no_session) depth 60

  two :
      (a b : String)
      → open_parts (a ∷ b ∷ []) ≡ false
      → Leaves (route_two o config network stream req a b)
  unfolding route_two
  two a b closed = Leaves-else (a == "auth" && b == "challenge") _ _ (ground arith) (
      Leaves-else (a == "auth" && b == "verify") _ _ (ground arith)
        (search (leave_rules, no_session) depth 60))

  three :
      (a b c : String)
      → open_parts (a ∷ b ∷ c ∷ []) ≡ false
      → Leaves (route_three o config network stream req a b c)
  unfolding route_three
  three a b c closed =
      search (leave_rules, Leaves-else, closed_telemetry a b c closed, no_session) depth 60

  request : (id d : String) → Leaves (route_request o config network stream req id d)
  unfolding route_request
  request id d = search (leave_rules, no_session) depth 60

  action : (b id d : String) → Leaves (route_action o config network stream req b id d)
  unfolding route_action
  action b id d = search (leave_rules, no_session) depth 60

  four : (a b c d : String) → Leaves (route_four o config network stream req a b c d)
  unfolding route_four
  four a b c d = search (leave_rules, no_session, request, action) depth 60

  six : (a b c d e f : String) → Leaves (route_six o config network stream req a b c d e f)
  unfolding route_six
  six a b c d e f = search (leave_rules, no_session) depth 60

  parts :
      (xs : List String)
      → open_parts xs ≡ false
      → Leaves (route_parts o config network stream req xs)
  unfolding route_parts
  parts [] closed = Leaves-unhandled
  parts (a ∷ []) closed = one a
  parts (a ∷ b ∷ []) closed = two a b closed
  parts (a ∷ b ∷ c ∷ []) closed = three a b c closed
  parts (a ∷ b ∷ c ∷ d ∷ []) closed = four a b c d
  parts (a ∷ b ∷ c ∷ d ∷ e ∷ []) closed = Leaves-unhandled
  parts (a ∷ b ∷ c ∷ d ∷ e ∷ f ∷ []) closed = six a b c d e f
  parts (a ∷ b ∷ c ∷ d ∷ e ∷ f ∷ g ∷ xs) closed = Leaves-unhandled

  path :
      (xs : List String)
      → is_open_path xs ≡ false
      → Leaves (route_path o config network stream req xs)
  unfolding route_path is_open_path
  path [] closed = Leaves-unhandled
  path (a ∷ []) closed = Leaves-unhandled
  path (root ∷ api ∷ xs) closed = Leaves-if _ _ _ (parts xs closed) Leaves-unhandled

-- A request without a session cookie, on any path but those of the login and of the telemetry of a
-- machine, changes nothing: what the requests share, the clock and the calls of the node are what they
-- were, and it gets no response but an error.
pub handle_production_request-unauthenticated :
    (o : Outside) (config : ServerConfig) (network : List (String × Json)) (stream : ℕ)
    (req : Request) (st : State)
    → session_token_of req ≡ none
    → is_open_path (split_on b'/' req.path) ≡ false
    → ((handle_production_request o config network stream req st).0 ≡ st)
      × IsUnanswered (handle_production_request o config network stream req st).1
unfolding handle_production_request
handle_production_request-unauthenticated o config network stream req st no_session closed =
    (path o config network stream req no_session (split_on b'/' req.path) closed).at st
