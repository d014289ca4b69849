-- ===== src/Server/Safe/Accounts.antt =====
-- The routes of accounts, machines, sessions and telemetry keep the invariant.
use machina_sol.Prelude.{String, ℕ, Option, none, some, List}
use machina_sol.Json.{Json}
use machina_sol.Server.World.{Outside}
use machina_sol.Server.Http.{Request, ServerConfig}
use machina_sol.Server.Safe.Guards.{guard_rules}
use machina_sol.Server.Auth.{challenge, verify}
use machina_sol.Server.Routes.Account.{
  challenge_route, logout_route, network_route, session_route, verify_route,
}
use machina_sol.Server.Routes.Machines.{
  create_credential_route, credentials_route, list_capabilities_route, list_credentials_route,
  list_machines_route, machine_capabilities_route, machines_route, register_machine_route,
  replace_capabilities_route, revoke_credential_route,
}
use machina_sol.Server.Routes.Sessions.{
  create_order_route, create_session_route, end_session_route, list_orders_route,
  list_sessions_route, orders_route, require_advertised, require_owned_option,
  require_owned_parameter, sessions_route,
}
use machina_sol.Server.Routes.Telemetry.{
  ingest_route, list_telemetry_route, machine_telemetry_route, stream_route, telemetry_route,
}
use machina_sol.Server.Keeps.{Keeps, Relies}
use machina_sol.Server.Safe.{safe}

module _ {o : Outside} (r : Relies safe o) (config : ServerConfig) (req : Request) where
  pub challenge-kept : (wallet : String) (at : ℕ) → Keeps safe (challenge o config wallet req at)
  unfolding challenge
  challenge-kept wallet at = search guard_rules depth 60

  pub verify-kept :
      (id wallet signature : String) (at : ℕ) → Keeps safe (verify o id wallet signature req at)
  unfolding verify
  verify-kept id wallet signature at = search guard_rules depth 60

  pub challenge_route-kept : Keeps safe (challenge_route o config req)
  unfolding challenge_route
  challenge_route-kept = search (guard_rules, challenge-kept) depth 60

  pub verify_route-kept : Keeps safe (verify_route o config req)
  unfolding verify_route
  verify_route-kept = search (guard_rules, verify-kept) depth 60

  pub session_route-kept : Keeps safe (session_route o req)
  unfolding session_route
  session_route-kept = search guard_rules depth 60

  pub logout_route-kept : Keeps safe (logout_route o config req)
  unfolding logout_route
  logout_route-kept = search guard_rules depth 60

  pub network_route-kept :
      (network : List (String × Json)) → Keeps safe (network_route o req network)
  unfolding network_route
  network_route-kept network = search guard_rules depth 60

  pub machines_route-kept : Keeps safe (machines_route o config req)
  unfolding machines_route list_machines_route register_machine_route
  machines_route-kept = search guard_rules depth 60

  pub credentials_route-kept : (part : String) → Keeps safe (credentials_route o config req part)
  unfolding credentials_route list_credentials_route create_credential_route
  credentials_route-kept part = search guard_rules depth 60

  pub revoke_credential_route-kept :
      (part : String) → Keeps safe (revoke_credential_route o config req part)
  unfolding revoke_credential_route
  revoke_credential_route-kept part = search guard_rules depth 60

  pub machine_capabilities_route-kept :
      (part : String) → Keeps safe (machine_capabilities_route o config req part)
  unfolding machine_capabilities_route list_capabilities_route replace_capabilities_route
  machine_capabilities_route-kept part = search guard_rules depth 60

  pub require_owned_parameter-kept :
      (user : String) (value : Option String) → Keeps safe (require_owned_parameter o user value)
  unfolding require_owned_parameter
  require_owned_parameter-kept user none = search guard_rules depth 60
  require_owned_parameter-kept user (some v) = search guard_rules depth 60

  pub require_owned_option-kept :
      (user : String) (value : Option String) → Keeps safe (require_owned_option o user value)
  unfolding require_owned_option
  require_owned_option-kept user none = search guard_rules depth 60
  require_owned_option-kept user (some v) = search guard_rules depth 60

  pub require_advertised-kept :
      (user : String) (value : Option String) (required : List String)
      → Keeps safe (require_advertised o user value required)
  unfolding require_advertised
  require_advertised-kept user none required = search guard_rules depth 60
  require_advertised-kept user (some v) required = search guard_rules depth 60

  pub sessions_route-kept : Keeps safe (sessions_route o config req)
  unfolding sessions_route list_sessions_route create_session_route
  sessions_route-kept = search (guard_rules, require_owned_parameter-kept) depth 60

  pub end_session_route-kept : (part : String) → Keeps safe (end_session_route o config req part)
  unfolding end_session_route
  end_session_route-kept part = search guard_rules depth 60

  pub orders_route-kept : Keeps safe (orders_route o config req)
  unfolding orders_route list_orders_route create_order_route
  orders_route-kept =
      search
        (
          guard_rules, require_owned_parameter-kept, require_owned_option-kept,
          require_advertised-kept,
        )
        depth 60

  pub machine_telemetry_route-kept :
      (part : String) → Keeps safe (machine_telemetry_route o config req part)
  unfolding machine_telemetry_route list_telemetry_route ingest_route
  machine_telemetry_route-kept part = search guard_rules depth 60

  pub telemetry_route-kept : Keeps safe (telemetry_route o req)
  unfolding telemetry_route
  telemetry_route-kept = search (guard_rules, require_owned_parameter-kept) depth 60

  pub stream_route-kept : (stream : ℕ) → Keeps safe (stream_route o req stream)
  unfolding stream_route
  stream_route-kept stream = search guard_rules depth 60

pub ruleset account_rules = (
  guard_rules, challenge-kept, verify-kept, challenge_route-kept, verify_route-kept,
  session_route-kept, logout_route-kept, network_route-kept, machines_route-kept,
  credentials_route-kept, revoke_credential_route-kept, machine_capabilities_route-kept,
  require_owned_parameter-kept, require_owned_option-kept, require_advertised-kept,
  sessions_route-kept, end_session_route-kept, orders_route-kept, machine_telemetry_route-kept,
  telemetry_route-kept, stream_route-kept,
)
