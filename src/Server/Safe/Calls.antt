-- ===== src/Server/Safe/Calls.antt =====
-- Every call of the store that a request makes keeps the invariant, and every call of the hub.
use machina_sol.Prelude.{ℕ, String, Option, none, some, List, [], ◌∷◌, ◌≡◌, refl}
use machina_sol.Number.{Number}
use machina_sol.Hub.{TelemetryHub, subscribe}
use machina_sol.Hub.Laws.{
  IsBounded, publish-IsBounded, subscribe-IsBounded, disconnect_user-IsBounded,
}
use machina_sol.Store.Types.{
  PersistentResourceRequest, CreateResourceQuoteInput, SettlementRecord, ResourceRequestState,
  AccessGrantState, ResourceReceiptState, SettlementState,
}
use machina_sol.Store.State.{Env, ProductionStore}
use machina_sol.Store.Requests.{
  create_resource_request, transition_resource_request, cancel_resource_request,
  reject_resource_request,
}
use machina_sol.Store.Quotes.{create_resource_quote, list_resource_quotes, withdraw_resource_quote}
use machina_sol.Store.Acceptance.{accept_resource_quote}
use machina_sol.Store.Grants.{
  CreateAccessGrantInput, create_access_grant, access_grant, transition_access_grant,
}
use machina_sol.Store.Receipts.{
  CreateResourceReceiptInput, Outcome, create_resource_receipt, transition_resource_receipt,
}
use machina_sol.Store.Settlements.{
  create_settlement_for_accepted_request, SettlementPatch, transition_settlement,
}
use machina_sol.Market.{after, IsSound}
use machina_sol.Market.Sound.Requests.{
  create_request-IsSound, select-IsSound, cancel-IsSound, reject-IsSound,
}
use machina_sol.Market.Sound.Quotes.{create_quote-IsSound, list_quotes-IsSound, withdraw-IsSound}
use machina_sol.Market.Sound.Acceptance.{accept-IsSound}
use machina_sol.Market.Sound.Grants.{
  create_grant-IsSound, read_grant-IsSound, transition_grant-IsSound,
}
use machina_sol.Market.Sound.Receipts.{create_receipt-IsSound, transition_receipt-IsSound}
use machina_sol.Market.Sound.Settlements.{create_settlement-IsSound, transition_settlement-IsSound}
use machina_sol.Server.Keeps.{keeps_rules, Keeps-change, Keeps-attempt, Keeps-with_hub}
use machina_sol.Server.Routes.Telemetry.{added}
use machina_sol.Market.Sound.Frame.{
  SameMarket, SameMarket-IsSound, create_challenge-SameMarket, consume_challenge-SameMarket,
  create_authenticated_session-SameMarket, revoke_session-SameMarket,
  create_machine_credential-SameMarket, revoke_machine_credential-SameMarket,
  replace_machine_capabilities-SameMarket, create_runtime_session-SameMarket,
  end_runtime_session-SameMarket, create_work_order-SameMarket,
  create_provider_capability-SameMarket, update_provider_capability-SameMarket,
  insert_telemetry-SameMarket, create_owned_machine-SameMarket,
}

pub create_request-kept :
    (s : ProductionStore) (request : PersistentResourceRequest)
    → IsSound s
    → IsSound (after s (create_resource_request s request))
create_request-kept s request h = (create_request-IsSound s request h).at

pub select_provider-kept :
    (s : ProductionStore) (user request machine capability now : String)
    → IsSound s
    → IsSound (
        (transition_resource_request s user request
          (ResourceRequestState.pending ∷ [])
          ResourceRequestState.pending
          (some machine)
          (some capability)
          now).0)
select_provider-kept s user request machine capability now h =
    (select-IsSound s user request now (some machine) (some capability) h).at

pub cancel_request-kept :
    (s : ProductionStore) (user request now : String)
    → IsSound s
    → IsSound ((cancel_resource_request s user request now).0)
cancel_request-kept s user request now h = (cancel-IsSound s user request now h).at

pub reject_request-kept :
    (s : ProductionStore) (user request now : String)
    → IsSound s
    → IsSound ((reject_resource_request s user request now).0)
reject_request-kept s user request now h = (reject-IsSound s user request now h).at

pub create_quote-kept :
    (env : Env) (s : ProductionStore) (id user : String) (input : CreateResourceQuoteInput)
    (now : String)
    → IsSound s
    → IsSound ((create_resource_quote env s id user input now).0)
create_quote-kept env s id user input now h = (create_quote-IsSound env s id user input now h).at

pub list_quotes-kept :
    (env : Env) (s : ProductionStore) (user request : String) (most : Option Number) (now : String)
    → IsSound s
    → IsSound ((list_resource_quotes env s user request most now).0)
list_quotes-kept env s user request most now h =
    (list_quotes-IsSound env s user request most now h).at

pub withdraw_quote-kept :
    (s : ProductionStore) (user quote now : String)
    → IsSound s
    → IsSound ((withdraw_resource_quote s user quote now).0)
withdraw_quote-kept s user quote now h = (withdraw-IsSound s user quote now h).at

pub accept_quote-kept :
    (s : ProductionStore) (user request quote now : String)
    → IsSound s
    → IsSound ((accept_resource_quote s user request quote now).0)
accept_quote-kept s user request quote now h = (accept-IsSound s user request quote now h).at

pub create_grant-kept :
    (s : ProductionStore) (id user : String) (input : CreateAccessGrantInput) (now : String)
    → IsSound s
    → IsSound ((create_access_grant s id user input now).0)
create_grant-kept s id user input now h = (create_grant-IsSound s id user input now h).at

pub read_grant-kept :
    (env : Env) (s : ProductionStore) (user request now : String)
    → IsSound s
    → IsSound ((access_grant env s user request now).0)
read_grant-kept env s user request now h = (read_grant-IsSound env s user request now h).at

pub transition_grant-kept :
    (s : ProductionStore) (user grant : String) (from to : AccessGrantState) (now : String)
    → IsSound s
    → IsSound ((transition_access_grant s user grant from to now).0)
transition_grant-kept s user grant from to now h =
    (transition_grant-IsSound s user grant from to now h).at

pub create_receipt-kept :
    (s : ProductionStore) (id user : String) (input : CreateResourceReceiptInput) (now : String)
    → IsSound s
    → IsSound ((create_resource_receipt s id user input now).0)
create_receipt-kept s id user input now h = (create_receipt-IsSound s id user input now h).at

pub transition_receipt-kept :
    (s : ProductionStore) (user receipt : String) (from : ResourceReceiptState) (to : Outcome)
    (now : String)
    → IsSound s
    → IsSound ((transition_resource_receipt s user receipt from to now).0)
transition_receipt-kept s user receipt from to now h =
    (transition_receipt-IsSound s user receipt from to now h).at

pub create_settlement-kept :
    (s : ProductionStore) (settlement : SettlementRecord)
    → IsSound s
    → IsSound ((create_settlement_for_accepted_request s settlement).0)
create_settlement-kept s settlement h = (create_settlement-IsSound s settlement h).at

pub transition_settlement_to-kept :
    (s : ProductionStore) (user settlement : String) (from : SettlementState)
    (patch : SettlementPatch)
    → IsSound s
    → IsSound ((transition_settlement s user settlement from patch).0)
transition_settlement_to-kept s user settlement from patch h =
    (transition_settlement-IsSound s user settlement from patch h).at

subscribe_or-IsBounded :
    (user : String) (machines : List String) (stream : ℕ) (hub : TelemetryHub)
    (found : Option TelemetryHub)
    → subscribe user machines stream hub ≡ found
    → IsBounded hub
    → IsBounded (added found hub).0
unfolding added
subscribe_or-IsBounded user machines stream hub none e b = b
subscribe_or-IsBounded user machines stream hub (some hub') e b =
    subscribe-IsBounded user machines stream hub hub' e b

-- A subscription, refused or not.
pub added-IsBounded :
    (user : String) (machines : List String) (stream : ℕ) (hub : TelemetryHub)
    → IsBounded hub
    → IsBounded (added (subscribe user machines stream hub) hub).0
added-IsBounded user machines stream hub =
    subscribe_or-IsBounded user machines stream hub (subscribe user machines stream hub) refl

pub ruleset call_rules = (
  keeps_rules, Keeps-change, Keeps-attempt, Keeps-with_hub, SameMarket-IsSound,
  create_challenge-SameMarket, consume_challenge-SameMarket,
  create_authenticated_session-SameMarket, revoke_session-SameMarket,
  create_machine_credential-SameMarket, revoke_machine_credential-SameMarket,
  replace_machine_capabilities-SameMarket, create_runtime_session-SameMarket,
  end_runtime_session-SameMarket, create_work_order-SameMarket,
  create_provider_capability-SameMarket, update_provider_capability-SameMarket,
  insert_telemetry-SameMarket, create_owned_machine-SameMarket, create_request-kept,
  select_provider-kept, cancel_request-kept, reject_request-kept, create_quote-kept,
  list_quotes-kept, withdraw_quote-kept, accept_quote-kept, create_grant-kept, read_grant-kept,
  transition_grant-kept, create_receipt-kept, transition_receipt-kept, create_settlement-kept,
  transition_settlement_to-kept, publish-IsBounded, disconnect_user-IsBounded, added-IsBounded,
)
