-- ===== src/Store/Lifecycles.antt =====
-- The lifecycles of requests, as their parties read them.
use machina_sol.Prelude.{String, ◌||◌, some, List, [], ◌∷◌, take, is_some, distinct, if◌then◌else◌}
use machina_sol.Number.{of_nat}
use machina_sol.Store.Types.{ResourceRequestLifecycle}
use machina_sol.Store.State.{Env, ProductionStore}
use machina_sol.Store.Limits.{max_production_list_limit}
use machina_sol.Store.Requests.{resource_request, provider_resource_request}
use machina_sol.Store.Quotes.{list_resource_quotes}
use machina_sol.Store.Grants.{access_grant}
use machina_sol.Store.Receipts.{resource_receipt}
use machina_sol.Store.Settlements.{receipt_settlement}

-- One lifecycle; the four reads run in turn.
unfoldable pub lifecycle_of :
    Env → ProductionStore → String → String → String → ProductionStore × ResourceRequestLifecycle
lifecycle_of env s user_id request_id now =
    let (s₁, quotes) =
      list_resource_quotes env s user_id request_id (some (of_nat max_production_list_limit)) now in
    let (s₂, grant) = access_grant env s₁ user_id request_id now in
    (
      s₂,
      record {
        resource_request_id = request_id;
        quotes = quotes;
        grant = grant;
        receipt = resource_receipt env s₂ user_id request_id;
        receipt_settlement = receipt_settlement env s₂ user_id request_id;
      },
    )

unfoldable pub lifecycles_from :
    Env
    → ProductionStore
    → String
    → List String
    → String
    → ProductionStore × List ResourceRequestLifecycle
lifecycles_from env s user_id [] now = (s, [])
lifecycles_from env s user_id (id ∷ ids) now =
    let authorized =
      is_some (resource_request s user_id id) || is_some (provider_resource_request s user_id id) in
    let (s₁, lifecycle) = lifecycle_of env s user_id id now in
    let (s₂, rest) = lifecycles_from env (if authorized then s₁ else s) user_id ids now in
    (s₂, if authorized then lifecycle ∷ rest else rest)

unfoldable pub resource_request_lifecycles :
    Env
    → ProductionStore
    → String
    → List String
    → String
    → ProductionStore × List ResourceRequestLifecycle
resource_request_lifecycles env s user_id request_ids now =
    lifecycles_from env s user_id (take max_production_list_limit (distinct request_ids)) now
