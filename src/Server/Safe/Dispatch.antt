-- ===== src/Server/Safe/Dispatch.antt =====
-- Every request of the production server keeps the invariant (`handleProductionRequest` of
-- src/server/production/app.ts).
use machina_sol.Prelude.{String, ℕ, List, [], ◌∷◌}
use machina_sol.Texts.{split_on}
use machina_sol.Json.{Json}
use machina_sol.Server.World.{Outside, App}
use machina_sol.Server.Http.{Request, ServerConfig}
use machina_sol.Server.Response.{Response}
use machina_sol.Server.Routes.Dispatch.{
  handled, unhandled, route_one, route_two, route_three, route_request, route_action, route_four,
  route_six, route_parts, route_path, handle_production_request,
}
use machina_sol.Server.Keeps.{Keeps, Relies, keeps_rules}
use machina_sol.Server.Safe.{safe}
use machina_sol.Server.Safe.Accounts.{account_rules}
use machina_sol.Server.Safe.Trade.{trade_rules}
use machina_sol.Server.Safe.Payments.{payment_rules}

handled-kept : (m : App Response) → Keeps safe m → Keeps safe (handled m)
unfolding handled
handled-kept m k = search keeps_rules

unhandled-kept : Keeps safe unhandled
unfolding unhandled
unhandled-kept = search keeps_rules

ruleset dispatch_rules =
    (keeps_rules, handled-kept, unhandled-kept, account_rules, trade_rules, payment_rules)

module _ {o : Outside} (r : Relies safe o) (config : ServerConfig) (network : List (String × Json))
    (stream : ℕ) (req : Request) where
  one-kept : (a : String) → Keeps safe (route_one o config network stream req a)
  unfolding route_one
  one-kept a = search dispatch_rules depth 60

  two-kept : (a b : String) → Keeps safe (route_two o config network stream req a b)
  unfolding route_two
  two-kept a b = search dispatch_rules depth 60

  three-kept : (a b c : String) → Keeps safe (route_three o config network stream req a b c)
  unfolding route_three
  three-kept a b c = search dispatch_rules depth 60

  request-kept : (id d : String) → Keeps safe (route_request o config network stream req id d)
  unfolding route_request
  request-kept id d = search dispatch_rules depth 60

  action-kept : (b id d : String) → Keeps safe (route_action o config network stream req b id d)
  unfolding route_action
  action-kept b id d = search dispatch_rules depth 60

  four-kept : (a b c d : String) → Keeps safe (route_four o config network stream req a b c d)
  unfolding route_four
  four-kept a b c d = search (dispatch_rules, request-kept, action-kept) depth 60

  six-kept : (a b c d e f : String) → Keeps safe (route_six o config network stream req a b c d e f)
  unfolding route_six
  six-kept a b c d e f = search dispatch_rules depth 60

  parts-kept : (parts : List String) → Keeps safe (route_parts o config network stream req parts)
  unfolding route_parts
  parts-kept [] = unhandled-kept
  parts-kept (a ∷ []) = one-kept a
  parts-kept (a ∷ b ∷ []) = two-kept a b
  parts-kept (a ∷ b ∷ c ∷ []) = three-kept a b c
  parts-kept (a ∷ b ∷ c ∷ d ∷ []) = four-kept a b c d
  parts-kept (a ∷ b ∷ c ∷ d ∷ e ∷ []) = unhandled-kept
  parts-kept (a ∷ b ∷ c ∷ d ∷ e ∷ f ∷ []) = six-kept a b c d e f
  parts-kept (a ∷ b ∷ c ∷ d ∷ e ∷ f ∷ g ∷ parts) = unhandled-kept

  path-kept : (parts : List String) → Keeps safe (route_path o config network stream req parts)
  unfolding route_path
  path-kept [] = unhandled-kept
  path-kept (a ∷ []) = unhandled-kept
  path-kept (root ∷ api ∷ parts) = search (keeps_rules, parts-kept) depth 60

-- A request
pub handle_production_request-kept :
    (o : Outside) (config : ServerConfig) (network : List (String × Json)) (stream : ℕ)
    (req : Request)
    → Relies safe o
    → Keeps safe (handle_production_request o config network stream req)
unfolding handle_production_request
handle_production_request-kept o config network stream req r =
    path-kept r config network stream req (split_on b'/' req.path)
