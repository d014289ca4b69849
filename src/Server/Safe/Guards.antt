-- ===== src/Server/Safe/Guards.antt =====
-- What the routes share keeps the invariant: the body, the session and the checks.
use machina_sol.Prelude.{String, ℕ, Bool, List}
use machina_sol.Json.{Json}
use machina_sol.Server.World.{Outside}
use machina_sol.Server.Http.{Request, ServerConfig}
use machina_sol.Server.Auth.{authenticate}
use machina_sol.Server.Http.{read_json_body}
use machina_sol.Server.Response.{
  assert_mutation_rate, assert_settlement_rate, guard_mutation, guard_post, json_mutation,
  require_owned_machine, respond, use_get,
}
use machina_sol.Server.Routes.Account.{body_for_mutation}
use machina_sol.Server.Keeps.{Keeps, Relies}
use machina_sol.Server.Safe.{safe}
use machina_sol.Server.Safe.Calls.{call_rules}

module _ {o : Outside} (r : Relies safe o) (config : ServerConfig) (req : Request) where
  pub read_json_body-kept : Keeps safe (read_json_body o req)
  unfolding read_json_body
  read_json_body-kept = search call_rules depth 60

  pub authenticate-kept : (csrf : Bool) → Keeps safe (authenticate o req csrf)
  unfolding authenticate
  authenticate-kept csrf = search call_rules depth 60

  pub assert_mutation_rate-kept :
      (user scope : String) → Keeps safe (assert_mutation_rate o req user scope)
  unfolding assert_mutation_rate
  assert_mutation_rate-kept user scope = search call_rules depth 60

  pub assert_settlement_rate-kept : (user : String) → Keeps safe (assert_settlement_rate o req user)
  unfolding assert_settlement_rate
  assert_settlement_rate-kept user = search call_rules depth 60

  pub json_mutation-kept : (method : String) → Keeps safe (json_mutation req method)
  unfolding json_mutation
  json_mutation-kept method = search call_rules depth 60

  pub use_get-kept : Keeps safe (use_get req)
  unfolding use_get
  use_get-kept = search call_rules depth 60

  pub guard_post-kept : (scope : String) → Keeps safe (guard_post o config req scope)
  unfolding guard_post
  guard_post-kept scope =
      search (call_rules, json_mutation-kept, authenticate-kept, assert_mutation_rate-kept) depth 60

  pub guard_mutation-kept :
      (method user scope : String) → Keeps safe (guard_mutation o config req method user scope)
  unfolding guard_mutation
  guard_mutation-kept method user scope =
      search (call_rules, json_mutation-kept, assert_mutation_rate-kept) depth 60

  pub require_owned_machine-kept : (user id : String) → Keeps safe (require_owned_machine o user id)
  unfolding require_owned_machine
  require_owned_machine-kept user id = search call_rules depth 60

  pub body_for_mutation-kept : Keeps safe (body_for_mutation o config req)
  unfolding body_for_mutation
  body_for_mutation-kept = search (call_rules, read_json_body-kept) depth 60

  pub respond-kept :
      (status : ℕ) (fields : List (String × Json)) → Keeps safe (respond status fields)
  unfolding respond
  respond-kept status fields = search call_rules depth 60

pub ruleset guard_rules = (
  call_rules, read_json_body-kept, authenticate-kept, assert_mutation_rate-kept,
  assert_settlement_rate-kept, json_mutation-kept, use_get-kept, guard_post-kept,
  guard_mutation-kept, require_owned_machine-kept, body_for_mutation-kept, respond-kept,
)
