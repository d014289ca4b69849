-- ===== src/Server/Barred/Routes.antt =====
-- Without a session each route that asks for one is refused, and changes nothing.
use machina_sol.Prelude.{String, ℕ, List, none, ◌≡◌}
use machina_sol.Json.{Json}
use machina_sol.Server.World.{Outside}
use machina_sol.Server.Http.{Request, ServerConfig}
use machina_sol.Server.Auth.{session_token_of}
use machina_sol.Store.Receipts as StoreReceipts
use machina_sol.Server.Routes.Grants.{GrantAction}
use machina_sol.Server.Routes.Account.{logout_route, network_route, session_route}
use machina_sol.Server.Routes.Capabilities.{capabilities_route, capability_route, providers_route}
use machina_sol.Server.Routes.Confirmation.{confirm_route}
use machina_sol.Server.Routes.Grants.{
  grant_action_route, grant_route, receipt_action_route, receipt_route, receipt_settlement_route,
}
use machina_sol.Server.Routes.Machines.{
  credentials_route, machine_capabilities_route, machines_route, revoke_credential_route,
}
use machina_sol.Server.Routes.Quotes.{
  accept_quote_route, accept_request_route, quotes_route, withdraw_quote_route,
}
use machina_sol.Server.Routes.Requests.{
  cancel_request_route, compatible_providers_route, provider_requests_route, reject_request_route,
  request_route, requests_route, select_provider_route,
}
use machina_sol.Server.Routes.Sessions.{end_session_route, orders_route, sessions_route}
use machina_sol.Server.Routes.Settlements.{
  cancel_settlement_route, settlement_route, settlements_route,
}
use machina_sol.Server.Routes.Submission.{prepare_route, submit_route}
use machina_sol.Server.Routes.Telemetry.{stream_route, telemetry_route}
use machina_sol.Server.Barred.Rules.{Bars, barred_rules}

module _ (o : Outside) (config : ServerConfig) (req : Request)
    (no_session : session_token_of req ≡ none) where
  pub session_route-barred : Bars (session_route o req)
  unfolding session_route
  session_route-barred = search (barred_rules, no_session) depth 30

  pub logout_route-barred : Bars (logout_route o config req)
  unfolding logout_route
  logout_route-barred = search (barred_rules, no_session) depth 30

  pub network_route-barred : (network : List (String × Json)) → Bars (network_route o req network)
  unfolding network_route
  network_route-barred network = search (barred_rules, no_session) depth 30

  pub machines_route-barred : Bars (machines_route o config req)
  unfolding machines_route
  machines_route-barred = search (barred_rules, no_session) depth 30

  pub credentials_route-barred : (part : String) → Bars (credentials_route o config req part)
  unfolding credentials_route
  credentials_route-barred part = search (barred_rules, no_session) depth 30

  pub revoke_credential_route-barred :
      (part : String) → Bars (revoke_credential_route o config req part)
  unfolding revoke_credential_route
  revoke_credential_route-barred part = search (barred_rules, no_session) depth 30

  pub machine_capabilities_route-barred :
      (part : String) → Bars (machine_capabilities_route o config req part)
  unfolding machine_capabilities_route
  machine_capabilities_route-barred part = search (barred_rules, no_session) depth 30

  pub sessions_route-barred : Bars (sessions_route o config req)
  unfolding sessions_route
  sessions_route-barred = search (barred_rules, no_session) depth 30

  pub end_session_route-barred : (part : String) → Bars (end_session_route o config req part)
  unfolding end_session_route
  end_session_route-barred part = search (barred_rules, no_session) depth 30

  pub orders_route-barred : Bars (orders_route o config req)
  unfolding orders_route
  orders_route-barred = search (barred_rules, no_session) depth 30

  pub telemetry_route-barred : Bars (telemetry_route o req)
  unfolding telemetry_route
  telemetry_route-barred = search (barred_rules, no_session) depth 30

  pub stream_route-barred : (stream : ℕ) → Bars (stream_route o req stream)
  unfolding stream_route
  stream_route-barred stream = search (barred_rules, no_session) depth 30

  pub providers_route-barred : Bars (providers_route o req)
  unfolding providers_route
  providers_route-barred = search (barred_rules, no_session) depth 30

  pub capabilities_route-barred : Bars (capabilities_route o config req)
  unfolding capabilities_route
  capabilities_route-barred = search (barred_rules, no_session) depth 30

  pub capability_route-barred : (part : String) → Bars (capability_route o config req part)
  unfolding capability_route
  capability_route-barred part = search (barred_rules, no_session) depth 30

  pub provider_requests_route-barred : Bars (provider_requests_route o req)
  unfolding provider_requests_route
  provider_requests_route-barred = search (barred_rules, no_session) depth 30

  pub requests_route-barred : Bars (requests_route o config req)
  unfolding requests_route
  requests_route-barred = search (barred_rules, no_session) depth 30

  pub cancel_request_route-barred : (part : String) → Bars (cancel_request_route o config req part)
  unfolding cancel_request_route
  cancel_request_route-barred part = search (barred_rules, no_session) depth 30

  pub reject_request_route-barred : (part : String) → Bars (reject_request_route o config req part)
  unfolding reject_request_route
  reject_request_route-barred part = search (barred_rules, no_session) depth 30

  pub compatible_providers_route-barred :
      (part : String) → Bars (compatible_providers_route o req part)
  unfolding compatible_providers_route
  compatible_providers_route-barred part = search (barred_rules, no_session) depth 30

  pub select_provider_route-barred :
      (part : String) → Bars (select_provider_route o config req part)
  unfolding select_provider_route
  select_provider_route-barred part = search (barred_rules, no_session) depth 30

  pub request_route-barred : (part : String) → Bars (request_route o req part)
  unfolding request_route
  request_route-barred part = search (barred_rules, no_session) depth 30

  pub quotes_route-barred : (part : String) → Bars (quotes_route o config req part)
  unfolding quotes_route
  quotes_route-barred part = search (barred_rules, no_session) depth 30

  pub withdraw_quote_route-barred : (part : String) → Bars (withdraw_quote_route o config req part)
  unfolding withdraw_quote_route
  withdraw_quote_route-barred part = search (barred_rules, no_session) depth 30

  pub accept_quote_route-barred :
      (part quote : String) → Bars (accept_quote_route o config req part quote)
  unfolding accept_quote_route
  accept_quote_route-barred part quote = search (barred_rules, no_session) depth 30

  pub accept_request_route-barred : (part : String) → Bars (accept_request_route o config req part)
  unfolding accept_request_route
  accept_request_route-barred part = search (barred_rules, no_session) depth 30

  pub grant_route-barred : (part : String) → Bars (grant_route o config req part)
  unfolding grant_route
  grant_route-barred part = search (barred_rules, no_session) depth 30

  pub grant_action_route-barred :
      (part : String) (action : GrantAction) → Bars (grant_action_route o config req part action)
  unfolding grant_action_route
  grant_action_route-barred part action = search (barred_rules, no_session) depth 30

  pub receipt_settlement_route-barred : (part : String) → Bars (receipt_settlement_route o req part)
  unfolding receipt_settlement_route
  receipt_settlement_route-barred part = search (barred_rules, no_session) depth 30

  pub receipt_route-barred : (part : String) → Bars (receipt_route o config req part)
  unfolding receipt_route
  receipt_route-barred part = search (barred_rules, no_session) depth 30

  pub receipt_action_route-barred :
      (part : String) (outcome : StoreReceipts.Outcome)
      → Bars (receipt_action_route o config req part outcome)
  unfolding receipt_action_route
  receipt_action_route-barred part outcome = search (barred_rules, no_session) depth 30

  pub settlements_route-barred : Bars (settlements_route o config req)
  unfolding settlements_route
  settlements_route-barred = search (barred_rules, no_session) depth 30

  pub settlement_route-barred : (part : String) → Bars (settlement_route o req part)
  unfolding settlement_route
  settlement_route-barred part = search (barred_rules, no_session) depth 30

  pub cancel_settlement_route-barred :
      (part : String) → Bars (cancel_settlement_route o config req part)
  unfolding cancel_settlement_route
  cancel_settlement_route-barred part = search (barred_rules, no_session) depth 30

  pub prepare_route-barred : (part : String) → Bars (prepare_route o config req part)
  unfolding prepare_route
  prepare_route-barred part = search (barred_rules, no_session) depth 30

  pub submit_route-barred : (part : String) → Bars (submit_route o config req part)
  unfolding submit_route
  submit_route-barred part = search (barred_rules, no_session) depth 30

  pub confirm_route-barred : (part : String) → Bars (confirm_route o config req part)
  unfolding confirm_route
  confirm_route-barred part = search (barred_rules, no_session) depth 30

pub ruleset barred_route_rules = (
  session_route-barred, logout_route-barred, network_route-barred, machines_route-barred,
  credentials_route-barred, revoke_credential_route-barred, machine_capabilities_route-barred,
  sessions_route-barred, end_session_route-barred, orders_route-barred, telemetry_route-barred,
  stream_route-barred, providers_route-barred, capabilities_route-barred, capability_route-barred,
  provider_requests_route-barred, requests_route-barred, cancel_request_route-barred,
  reject_request_route-barred, compatible_providers_route-barred, select_provider_route-barred,
  request_route-barred, quotes_route-barred, withdraw_quote_route-barred, accept_quote_route-barred,
  accept_request_route-barred, grant_route-barred, grant_action_route-barred,
  receipt_settlement_route-barred, receipt_route-barred, receipt_action_route-barred,
  settlements_route-barred, settlement_route-barred, cancel_settlement_route-barred,
  prepare_route-barred, submit_route-barred, confirm_route-barred,
)
