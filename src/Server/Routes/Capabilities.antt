-- ===== src/Server/Routes/Capabilities.antt =====
-- The routes of providers and their capabilities (src/server/production/app.ts).
use machina_sol.Prelude.{
  ltb, String, false, not, ◌||◌, Option, none, some, List, [], ◌∷◌, ◌++◌, any, map, filter, length,
  includes, distinct, or_default, ◌==◌, if◌then◌else◌,
}
use machina_sol.Number.{of_nat}
use machina_sol.Json.{Json}
use machina_sol.Texts.{trim_text, text_length, split_on}
use machina_sol.Store.Types.{
  ProviderCapabilityRow, ProviderCapabilityPatch, AuthSessionRecord, Availability,
}
use machina_sol.Store.Capabilities.{
  list_provider_capabilities, find_provider_capabilities, provider_capability,
  create_provider_capability, update_provider_capability,
}
use machina_sol.Server.World.{
  Outside, App, Outcome, done, refused, crashed, lift, ensure, require, read, change, now_iso, uuid,
  ◌>>=◌, ◌>>◌,
}
use machina_sol.Server.Http.{Request, ServerConfig, read_json_body}
use machina_sol.Server.Inputs.{
  property, parameter, required_text, optional_text, string_list, decimal, nullable_price,
  requested_list_limit,
}
use machina_sol.Server.Public.{text, array_of, object_of, public_capability, availability_text}
use machina_sol.Server.Auth.{authenticate}
use machina_sol.Server.Response.{
  Response, respond, yes_ok, use_get, guard_mutation, require_owned_machine, segment,
}
use machina_sol.Server.Routes.Machines.{is_post}

-- RESOURCE_TYPES (src/console/services/resources.ts)
abbrev pub resource_types : List String
resource_types =
    "weather-data" ∷ "soil-sensor-data" ∷ "route-map" ∷ "charging-slot" ∷ "compute-burst"
    ∷ "bandwidth-grant" ∷ "telemetry-feed" ∷ []

-- All values of a parameter of the address.
unfoldable pub all_parameters : String → List (String × String) → List String
all_parameters key [] = []
all_parameters key ((name, value) ∷ query) =
    let rest = all_parameters key query in if name == key then value ∷ rest else rest

split_all : List String → List String
split_all [] = []
split_all (v ∷ vs) = split_on b',' v ++ split_all vs

unfoldable pub preferred_rails : Request → List String
unfolding split_all
preferred_rails req = distinct (
    filter (λ v. not (v == ""))
      (map trim_text (split_all (all_parameters "preferredRail" req.query))))

max_price_of : Outside → Option String → Outcome (Option String)
max_price_of o none = done none
max_price_of o (some input) =
    elim (decimal o (object_of (("maxPrice", text input) ∷ [])) "maxPrice") [
      | done value ↦ done (some value)
      | refused status message ↦ refused status message
      | crashed ↦ crashed
    ]

-- A comparison of prices in the store may throw.
unfoldable pub found_or_crashed : {A : Type 0} → Option A → Outcome A
found_or_crashed none = crashed
found_or_crashed (some a) = done a

-- /api/marketplace/providers
unfoldable pub providers_route : Outside → Request → App Response
unfolding max_price_of
providers_route o req = do
  use_get req
  _ ← authenticate o req false
  let resource_type = trim_text (or_default (parameter "resourceType" req.query) "")
  ensure (includes resource_type resource_types) 400
      "resourceType must be a supported resource type"
  let rails = preferred_rails req
  ensure (not (ltb 16 (length rails) || any (λ r. ltb 64 (text_length r)) rails)) 400
      "preferredRail must contain at most 16 short rail identifiers"
  max_price ← lift (max_price_of o (parameter "maxPrice" req.query))
  most ← lift (requested_list_limit req)
  found ← read o (λ s.
      find_provider_capabilities o.env s
        (record {
          resource_type = resource_type;
          preferred_rails = rails;
          max_price = max_price;
          capability_id = none;
        })
        (some (of_nat most)))
  providers ← lift (found_or_crashed found)
  respond 200 (yes_ok ∷ ("providers", array_of (map public_capability providers)) ∷ [])

availability_of : String → Option Availability
availability_of value =
    if value == "available"
    then some Availability.available
    else if value == "limited"
    then some Availability.limited
    else if value == "unavailable"
    then some Availability.unavailable
    else none

unfoldable pub list_capabilities_route : Outside → Request → AuthSessionRecord → App Response
list_capabilities_route o req session = do
  most ← lift (requested_list_limit req)
  found ←
      read o (λ s. list_provider_capabilities o.env s (some session.user_id) (some (of_nat most)))
  respond 200 (yes_ok ∷ ("capabilities", array_of (map public_capability found)) ∷ [])

unfoldable pub create_capability_route :
    Outside → ServerConfig → Request → AuthSessionRecord → App Response
unfolding availability_of
create_capability_route o config req session = do
  guard_mutation o config req "POST" session.user_id "marketplace-capabilities"
  body ← read_json_body o req
  provider_machine_id ← lift (required_text 64 body "providerMachineId")
  _ ← require_owned_machine o session.user_id provider_machine_id
  resource_type ← lift (required_text 64 body "resourceType")
  ensure (includes resource_type resource_types) 400 "unsupported resourceType"
  named ← lift (optional_text 32 body "availability")
  availability ← require (availability_of (or_default named "available")) 400 "invalid availability"
  price ← lift (nullable_price o body none none)
  at ← now_iso o
  label ← lift (required_text 128 body "label")
  unit ← lift (required_text 64 body "unit")
  rail_tags ← lift (string_list 16 body "railTags")
  id ← uuid o
  let input : ProviderCapabilityRow = record {
    id = id;
    provider_machine_id = provider_machine_id;
    owner_user_id = session.user_id;
    resource_type = resource_type;
    label = label;
    unit = unit;
    rail_tags = rail_tags;
    availability = availability;
    price_amount = price.0;
    price_asset = price.1;
    created_at = at;
    updated_at = at;
  }
  created ← change o (λ s. create_provider_capability s session.user_id input id at)
  capability ← require created 409 "provider capability already exists or machine ownership changed"
  respond 201 (yes_ok ∷ ("capability", public_capability capability) ∷ [])

-- /api/marketplace/capabilities
unfoldable pub capabilities_route : Outside → ServerConfig → Request → App Response
unfolding list_capabilities_route create_capability_route
capabilities_route o config req = do
  session ← authenticate o req (is_post req)
  if req.method == "GET"
      then list_capabilities_route o req session
      else create_capability_route o config req session

unfoldable pub show_capability_route : Outside → AuthSessionRecord → String → App Response
show_capability_route o session id = do
  found ← read o (λ s. provider_capability s (some session.user_id) id)
  capability ← require found 404 "provider capability not found"
  respond 200 (yes_ok ∷ ("capability", public_capability capability) ∷ [])

-- A capability of the user.
own_capability : String → Option ProviderCapabilityRow → Option ProviderCapabilityRow
own_capability user_id none = none
own_capability user_id (some c) = if c.owner_user_id == user_id then some c else none

patched_rails : Json → List String → Outcome (List String)
patched_rails body current = elim (property "railTags" body) [
  | Json.undefined ↦ done current
  | _ ↦ string_list 16 body "railTags"
]

unfoldable pub patch_capability_route :
    Outside → ServerConfig → Request → AuthSessionRecord → String → App Response
unfolding availability_of own_capability patched_rails
patch_capability_route o config req session id = do
  guard_mutation o config req "PATCH" session.user_id "marketplace-capabilities"
  found ← read o (λ s. provider_capability s (some session.user_id) id)
  current ← require (own_capability session.user_id found) 404 "provider capability not found"
  body ← read_json_body o req
  named ← lift (optional_text 32 body "availability")
  availability ←
      require (availability_of (or_default named (availability_text current.availability))) 400
        "invalid availability"
  price ← lift (nullable_price o body current.price_amount current.price_asset)
  label ← lift (optional_text 128 body "label")
  unit ← lift (optional_text 64 body "unit")
  rail_tags ← lift (patched_rails body current.rail_tags)
  at ← now_iso o
  let patch : ProviderCapabilityPatch = record {
    label = or_default label current.label;
    unit = or_default unit current.unit;
    rail_tags = rail_tags;
    availability = availability;
    price_amount = price.0;
    price_asset = price.1;
    updated_at = at;
  }
  changed ← change o (λ s. update_provider_capability s session.user_id id patch)
  updated ← require changed 409 "provider capability label conflicts or capability changed"
  respond 200 (yes_ok ∷ ("capability", public_capability updated) ∷ [])

-- /api/marketplace/capabilities/<id>
unfoldable pub capability_route : Outside → ServerConfig → Request → String → App Response
unfolding show_capability_route patch_capability_route
capability_route o config req part = do
  session ← authenticate o req (req.method == "PATCH")
  id ← segment o part
  if req.method == "GET"
      then show_capability_route o session id
      else patch_capability_route o config req session id
