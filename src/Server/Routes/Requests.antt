-- ===== src/Server/Routes/Requests.antt =====
-- The routes of resource requests (src/server/production/app.ts).
use machina_sol.Prelude.{
  ℕ, ◌*◌, ◌-◌, ◌^◌, max, leb, String, Bool, true, false, ◌&&◌, Option, none, some, List, [], ◌∷◌,
  map, codes, includes, or_default, ◌==◌, if◌then◌else◌,
}
use machina_sol.Number.{of_nat}
use machina_sol.Json.{Json}
use machina_sol.Store.Lamports.{parts_of}
use machina_sol.Store.Types.{
  ProviderCapabilityRow, PersistentResourceRequest, PersistentAccessGrant,
  PersistentResourceReceipt, AuthSessionRecord, ResourceRequestState,
}
use machina_sol.Store.State.{is_unavailable}
use machina_sol.Store.Capabilities.{find_provider_capabilities, provider_capability, serves_rails}
use machina_sol.Store.Requests.{
  create_resource_request, list_resource_requests, list_provider_resource_requests,
  resource_request, provider_resource_request, transition_resource_request, cancel_resource_request,
  reject_resource_request,
}
use machina_sol.Store.Quotes.{list_resource_quotes}
use machina_sol.Store.Grants.{access_grant}
use machina_sol.Store.Receipts.{resource_receipt}
use machina_sol.Server.World.{
  Outside, App, pure, lift, ensure, require, read, change, attempt, now_iso, uuid, ◌>>=◌, ◌>>◌,
}
use machina_sol.Server.Http.{Request, ServerConfig, read_json_body}
use machina_sol.Server.Inputs.{
  required_text, optional_text, string_list, decimal, requested_list_limit,
}
use machina_sol.Server.Public.{
  flag, array_of, public_capability, public_request, public_quote, public_grant, public_receipt,
}
use machina_sol.Server.Auth.{authenticate}
use machina_sol.Server.Response.{
  Response, respond, yes_ok, use_get, guard_post, guard_mutation, require_owned_machine,
  after_attempt, segment,
}
use machina_sol.Server.Routes.Machines.{is_post}
use machina_sol.Server.Routes.Capabilities.{resource_types, found_or_crashed}

-- Prices that a capability may have were checked to be decimals, so the `none` of `parts_of`, where
-- `BigInt` throws, does not occur.
unfoldable pub within_parts : Option (ℕ × ℕ) → Option (ℕ × ℕ) → Bool
within_parts (some (a, a_scale)) (some (b, b_scale)) =
    let scale = max a_scale b_scale in leb (a * 10 ^ (scale - a_scale)) (b * 10 ^ (scale - b_scale))
within_parts _ _ = false

unfoldable pub price_within_limit : String → String → Bool
unfolding within_parts
price_within_limit price max_price =
    within_parts (parts_of (codes price)) (parts_of (codes max_price))

price_fits : Option String → String → Bool
price_fits none max_price = true
price_fits (some amount) max_price = price_within_limit amount max_price

-- /api/marketplace/provider/requests
unfoldable pub provider_requests_route : Outside → Request → App Response
provider_requests_route o req = do
  use_get req
  session ← authenticate o req false
  most ← lift (requested_list_limit req)
  found ← read o (λ s. list_provider_resource_requests o.env s session.user_id (some (of_nat most)))
  respond 200 (yes_ok ∷ ("requests", array_of (map public_request found)) ∷ [])

unfoldable pub list_requests_route : Outside → Request → AuthSessionRecord → App Response
list_requests_route o req session = do
  most ← lift (requested_list_limit req)
  found ← read o (λ s. list_resource_requests o.env s session.user_id (some (of_nat most)))
  respond 200 (yes_ok ∷ ("requests", array_of (map public_request found)) ∷ [])

-- A capability that is there and not unavailable.
usable : Option ProviderCapabilityRow → Option ProviderCapabilityRow
usable none = none
usable (some c) = if is_unavailable c.availability then none else some c

-- The capability that a new request names, which must fit it.
unfoldable pub chosen_capability :
    Outside
    → Option String
    → (resource_type : String) → List String
    → (max_price : String) → App (Option ProviderCapabilityRow)
unfolding usable price_fits
chosen_capability o none resource_type rails max_price = pure none
chosen_capability o (some id) resource_type rails max_price = do
  found ← read o (λ s. provider_capability s none id)
  c ← require (usable found) 404 "provider capability not found or unavailable"
  ensure (c.resource_type == resource_type) 422 "selected capability does not match resourceType"
  ensure (serves_rails rails c.rail_tags) 422 "selected capability has no compatible runtime rail"
  ensure (price_fits c.price_amount max_price) 422 "provider advertised price exceeds maxPrice"
  pure (some c)

provider_of : Option ProviderCapabilityRow → Option String
provider_of none = none
provider_of (some c) = some c.provider_machine_id

unfoldable pub create_request_route :
    Outside → ServerConfig → Request → AuthSessionRecord → App Response
unfolding provider_of
create_request_route o config req session = do
  guard_mutation o config req "POST" session.user_id "marketplace-requests"
  body ← read_json_body o req
  requester ← lift (required_text 64 body "requesterMachineId")
  _ ← require_owned_machine o session.user_id requester
  resource_type ← lift (required_text 64 body "resourceType")
  ensure (includes resource_type resource_types) 400 "unsupported resourceType"
  rails ← lift (string_list 16 body "preferredRails")
  quantity ← lift (decimal o body "quantity")
  max_price ← lift (decimal o body "maxPrice")
  capability_id ← lift (optional_text 128 body "capabilityId")
  capability ← chosen_capability o capability_id resource_type rails max_price
  at ← now_iso o
  id ← uuid o
  purpose ← lift (required_text 256 body "purpose")
  let request : PersistentResourceRequest = record {
    id = id;
    owner_user_id = session.user_id;
    requester_machine_id = requester;
    capability_id = capability_id;
    provider_machine_id = provider_of capability;
    resource_type = resource_type;
    quantity = quantity;
    max_price = max_price;
    preferred_rails = rails;
    purpose = purpose;
    quote_amount = none;
    quote_asset = none;
    state = ResourceRequestState.pending;
    created_at = at;
    updated_at = at;
  }
  failure ← attempt o (λ s. create_resource_request s request)
  lift (after_attempt failure "resource request could not be created")
  respond 201 (yes_ok ∷ ("request", public_request request) ∷ [])

-- /api/marketplace/requests
unfoldable pub requests_route : Outside → ServerConfig → Request → App Response
unfolding list_requests_route create_request_route
requests_route o config req = do
  session ← authenticate o req (is_post req)
  if req.method == "GET"
      then list_requests_route o req session
      else create_request_route o config req session

-- /api/marketplace/requests/<id>/cancel
unfoldable pub cancel_request_route : Outside → ServerConfig → Request → String → App Response
cancel_request_route o config req part = do
  session ← guard_post o config req "marketplace-requests"
  id ← segment o part
  found ← read o (λ s. resource_request s session.user_id id)
  _ ← require found 404 "resource request not found"
  at ← now_iso o
  changed ← change o (λ s. cancel_resource_request s session.user_id id at)
  updated ← require changed 409 "resource request is no longer cancellable"
  respond 200 (yes_ok ∷ ("cancelled", flag true) ∷ ("request", public_request updated) ∷ [])

-- /api/marketplace/requests/<id>/reject
unfoldable pub reject_request_route : Outside → ServerConfig → Request → String → App Response
reject_request_route o config req part = do
  session ← guard_post o config req "marketplace-requests"
  id ← segment o part
  at ← now_iso o
  changed ← change o (λ s. reject_resource_request s session.user_id id at)
  updated ← require changed 409 "only the selected provider can reject a targeted pending request"
  respond 200 (yes_ok ∷ ("rejected", flag true) ∷ ("request", public_request updated) ∷ [])

-- /api/marketplace/requests/<id>/compatible-providers
unfoldable pub compatible_providers_route : Outside → Request → String → App Response
compatible_providers_route o req part = do
  use_get req
  session ← authenticate o req false
  id ← segment o part
  found ← read o (λ s. resource_request s session.user_id id)
  request ← require found 404 "resource request not found"
  most ← lift (requested_list_limit req)
  fitting ← read o (λ s.
      find_provider_capabilities o.env s
        (record {
          resource_type = request.resource_type;
          preferred_rails = request.preferred_rails;
          max_price = some request.max_price;
          capability_id = request.capability_id;
        })
        (some (of_nat most)))
  capabilities ← lift (found_or_crashed fitting)
  respond 200 (yes_ok ∷ ("capabilities", array_of (map public_capability capabilities)) ∷ [])

-- /api/marketplace/requests/<id>/select-provider
unfoldable pub select_provider_route : Outside → ServerConfig → Request → String → App Response
unfolding usable price_fits
select_provider_route o config req part = do
  session ← guard_post o config req "marketplace-requests"
  id ← segment o part
  found ← read o (λ s. resource_request s session.user_id id)
  request ← require found 404 "resource request not found"
  body ← read_json_body o req
  capability_id ← lift (required_text 128 body "capabilityId")
  offered ← read o (λ s. provider_capability s none capability_id)
  c ← require (usable offered) 404 "provider capability not found or unavailable"
  ensure
      (c.resource_type == request.resource_type
        && (serves_rails request.preferred_rails c.rail_tags
            && price_fits c.price_amount request.max_price))
      422 "provider capability is not compatible with this request"
  at ← now_iso o
  changed ← change o (λ s.
      transition_resource_request s session.user_id id (ResourceRequestState.pending ∷ [])
        ResourceRequestState.pending (some c.provider_machine_id) (some c.id) at)
  updated ← require changed 409 "resource request is no longer selectable"
  respond 200
      (yes_ok ∷ ("request", public_request updated) ∷ ("capability", public_capability c) ∷ [])

unfoldable pub or_as_provider :
    Outside
    → (user_id id : String) → Option PersistentResourceRequest
    → App (Option PersistentResourceRequest)
or_as_provider o user_id id (some request) = pure (some request)
or_as_provider o user_id id none = read o (λ s. provider_resource_request s user_id id)

-- The request as its owner sees it, or else as a provider does.
unfoldable pub visible_request :
    Outside → (user_id id : String) → App (Option PersistentResourceRequest)
visible_request o user_id id = do
  own ← read o (λ s. resource_request s user_id id)
  or_as_provider o user_id id own

unfoldable pub grant_json : Option PersistentAccessGrant → Json
grant_json none = Json.null
grant_json (some g) = public_grant g

unfoldable pub receipt_json : Option PersistentResourceReceipt → Json
receipt_json none = Json.null
receipt_json (some r) = public_receipt r

-- /api/marketplace/requests/<id>: the three reads of `Promise.all` are made in their order.
unfoldable pub request_route : Outside → Request → String → App Response
unfolding grant_json receipt_json
request_route o req part = do
  use_get req
  session ← authenticate o req false
  id ← segment o part
  found ← visible_request o session.user_id id
  request ← require found 404 "resource request not found"
  most ← lift (requested_list_limit req)
  at ← now_iso o
  quotes ← change o (λ s. list_resource_quotes o.env s session.user_id id (some (of_nat most)) at)
  grant_at ← now_iso o
  grant ← change o (λ s. access_grant o.env s session.user_id id grant_at)
  receipt ← read o (λ s. resource_receipt o.env s session.user_id id)
  effective ← visible_request o session.user_id id
  respond 200 (
      yes_ok
      ∷ ("request", public_request (or_default effective request))
      ∷ ("quotes", array_of (map public_quote quotes))
      ∷ ("grant", grant_json grant)
      ∷ ("receipt", receipt_json receipt)
      ∷ [])
