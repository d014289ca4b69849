-- ===== src/Server/Safe/Trade.antt =====
-- The routes of the marketplace keep the invariant.
use machina_sol.Prelude.{String, Option, none, some, List}
use machina_sol.Server.World.{Outside}
use machina_sol.Server.Http.{Request, ServerConfig}
use machina_sol.Store.Types.{AccessGrantState, PersistentAccessGrant, PersistentResourceRequest}
use machina_sol.Server.Routes.Grants.{GrantAction}
use machina_sol.Store.Receipts as StoreReceipts
use machina_sol.Server.Safe.Guards.{guard_rules}
use machina_sol.Server.Routes.Capabilities.{
  capabilities_route, capability_route, create_capability_route, list_capabilities_route,
  patch_capability_route, providers_route, show_capability_route,
}
use machina_sol.Server.Routes.Grants.{
  GrantAction, create_grant_route, create_receipt_route, grant_action_route, grant_route,
  move_grant, receipt_action_route, receipt_route, receipt_settlement_route, second_move,
  show_grant_route, show_receipt_route,
}
use machina_sol.Server.Routes.Quotes.{
  accept_quote, accept_quote_route, accept_request_route, create_quote_route, list_quotes_route,
  quotes_route, withdraw_quote_route,
}
use machina_sol.Server.Routes.Requests.{
  cancel_request_route, chosen_capability, compatible_providers_route, create_request_route,
  list_requests_route, or_as_provider, provider_requests_route, reject_request_route, request_route,
  requests_route, select_provider_route, visible_request,
}
use machina_sol.Server.Keeps.{Keeps, Relies}
use machina_sol.Server.Safe.{safe}

module _ {o : Outside} (r : Relies safe o) (config : ServerConfig) (req : Request) where
  pub providers_route-kept : Keeps safe (providers_route o req)
  unfolding providers_route
  providers_route-kept = search guard_rules depth 60

  pub capabilities_route-kept : Keeps safe (capabilities_route o config req)
  unfolding capabilities_route list_capabilities_route create_capability_route
  capabilities_route-kept = search guard_rules depth 60

  pub capability_route-kept : (part : String) → Keeps safe (capability_route o config req part)
  unfolding capability_route show_capability_route patch_capability_route
  capability_route-kept part = search guard_rules depth 60

  pub chosen_capability-kept :
      (id : Option String) (kind : String) (rails : List String) (most : String)
      → Keeps safe (chosen_capability o id kind rails most)
  unfolding chosen_capability
  chosen_capability-kept none kind rails most = search guard_rules depth 60
  chosen_capability-kept (some id) kind rails most = search guard_rules depth 60

  pub provider_requests_route-kept : Keeps safe (provider_requests_route o req)
  unfolding provider_requests_route
  provider_requests_route-kept = search guard_rules depth 60

  pub requests_route-kept : Keeps safe (requests_route o config req)
  unfolding requests_route list_requests_route create_request_route
  requests_route-kept = search (guard_rules, chosen_capability-kept) depth 60

  pub cancel_request_route-kept :
      (part : String) → Keeps safe (cancel_request_route o config req part)
  unfolding cancel_request_route
  cancel_request_route-kept part = search guard_rules depth 60

  pub reject_request_route-kept :
      (part : String) → Keeps safe (reject_request_route o config req part)
  unfolding reject_request_route
  reject_request_route-kept part = search guard_rules depth 60

  pub compatible_providers_route-kept :
      (part : String) → Keeps safe (compatible_providers_route o req part)
  unfolding compatible_providers_route
  compatible_providers_route-kept part = search guard_rules depth 60

  pub select_provider_route-kept :
      (part : String) → Keeps safe (select_provider_route o config req part)
  unfolding select_provider_route
  select_provider_route-kept part = search guard_rules depth 60

  pub or_as_provider-kept :
      (user id : String) (own : Option PersistentResourceRequest)
      → Keeps safe (or_as_provider o user id own)
  unfolding or_as_provider
  or_as_provider-kept user id (some r) = search guard_rules depth 60
  or_as_provider-kept user id none = search guard_rules depth 60

  pub visible_request-kept : (user id : String) → Keeps safe (visible_request o user id)
  unfolding visible_request
  visible_request-kept user id = search (guard_rules, or_as_provider-kept) depth 60

  pub request_route-kept : (part : String) → Keeps safe (request_route o req part)
  unfolding request_route
  request_route-kept part = search (guard_rules, visible_request-kept) depth 60

  pub quotes_route-kept : (part : String) → Keeps safe (quotes_route o config req part)
  unfolding quotes_route list_quotes_route create_quote_route
  quotes_route-kept part = search (guard_rules, visible_request-kept) depth 60

  pub withdraw_quote_route-kept :
      (part : String) → Keeps safe (withdraw_quote_route o config req part)
  unfolding withdraw_quote_route
  withdraw_quote_route-kept part = search guard_rules depth 60

  pub accept_quote_route-kept :
      (part quote : String) → Keeps safe (accept_quote_route o config req part quote)
  unfolding accept_quote_route accept_quote
  accept_quote_route-kept part quote = search guard_rules depth 60

  pub accept_request_route-kept :
      (part : String) → Keeps safe (accept_request_route o config req part)
  unfolding accept_request_route accept_quote
  accept_request_route-kept part = search guard_rules depth 60

  pub grant_route-kept : (part : String) → Keeps safe (grant_route o config req part)
  unfolding grant_route show_grant_route create_grant_route
  grant_route-kept part = search guard_rules depth 60

  pub move_grant-kept :
      (user id : String) (from to : AccessGrantState) → Keeps safe (move_grant o user id from to)
  unfolding move_grant
  move_grant-kept user id from to = search guard_rules depth 60

  pub second_move-kept :
      (user id : String) (action : GrantAction) (found : Option PersistentAccessGrant)
      → Keeps safe (second_move o user id action found)
  unfolding second_move
  second_move-kept user id action (some g) = search guard_rules depth 60
  second_move-kept user id GrantAction.activate none = search guard_rules depth 60
  second_move-kept user id GrantAction.revoke none = search (guard_rules, move_grant-kept) depth 60
  second_move-kept user id GrantAction.expire none = search (guard_rules, move_grant-kept) depth 60

  pub grant_action_route-kept :
      (part : String) (action : GrantAction)
      → Keeps safe (grant_action_route o config req part action)
  unfolding grant_action_route
  grant_action_route-kept part action =
      search (guard_rules, move_grant-kept, second_move-kept) depth 60

  pub receipt_settlement_route-kept :
      (part : String) → Keeps safe (receipt_settlement_route o req part)
  unfolding receipt_settlement_route
  receipt_settlement_route-kept part = search guard_rules depth 60

  pub receipt_route-kept : (part : String) → Keeps safe (receipt_route o config req part)
  unfolding receipt_route show_receipt_route create_receipt_route
  receipt_route-kept part = search guard_rules depth 60

  pub receipt_action_route-kept :
      (part : String) (outcome : StoreReceipts.Outcome)
      → Keeps safe (receipt_action_route o config req part outcome)
  unfolding receipt_action_route
  receipt_action_route-kept part outcome = search guard_rules depth 60

pub ruleset trade_rules = (
  guard_rules, providers_route-kept, capabilities_route-kept, capability_route-kept,
  chosen_capability-kept, provider_requests_route-kept, requests_route-kept,
  cancel_request_route-kept, reject_request_route-kept, compatible_providers_route-kept,
  select_provider_route-kept, or_as_provider-kept, visible_request-kept, request_route-kept,
  quotes_route-kept, withdraw_quote_route-kept, accept_quote_route-kept, accept_request_route-kept,
  grant_route-kept, move_grant-kept, second_move-kept, grant_action_route-kept,
  receipt_settlement_route-kept, receipt_route-kept, receipt_action_route-kept,
)
