-- ===== src/Store/Capabilities.antt =====
-- Capabilities that providers offer, and the decimal amounts of the store.
use mathlib.Core.Option
use machina_sol.Prelude.{
  String, Bool, true, false, not, ◌&&◌, ◌||◌, Option, none, some, List, [], ◌∷◌, any, filter, sort,
  take, includes, ◌==◌, if◌then◌else◌,
}
use machina_sol.Number.{Number}
use machina_sol.Dict.{get, put, values}
use machina_sol.Store.Types.{ProviderCapabilityRow, ProviderCapabilityPatch}
use machina_sol.Store.State.{Env, ProductionStore, is_unavailable}
use machina_sol.Store.Limits.{bounded_limit}
use machina_sol.Store.Machines.{owns}
use machina_sol.Store.Events.{or_compare}
use machina_sol.Store.Lamports.{decimal_at_most}

-- The capability shows to all while it is offered, and to its owner always.
unfoldable pub is_visible_to : Option String → ProviderCapabilityRow → Bool
is_visible_to none c = not (is_unavailable c.availability)
is_visible_to (some user_id) c = not (is_unavailable c.availability) || c.owner_user_id == user_id

unfoldable pub list_provider_capabilities :
    Env → ProductionStore → Option String → Option Number → List ProviderCapabilityRow
list_provider_capabilities env s user_id limit = take (bounded_limit limit) (
    sort
      (λ a b.
        or_compare (env.locale_compare a.resource_type b.resource_type)
          (env.locale_compare a.label b.label))
      (filter (is_visible_to user_id) (values s.capabilities)))

-- rails.length === 0 || rails.some((rail) => tags.includes(rail))
unfoldable pub serves_rails : List String → List String → Bool
serves_rails [] tags = true
serves_rails (r ∷ rs) tags = any (λ rail. includes rail tags) (r ∷ rs)

pub record CapabilityFilters : Type 0 where
  pub resource_type : String
  pub preferred_rails : List String
  pub max_price : Option String
  pub capability_id : Option String

-- maxPrice === null || priceAmount === null || decimalAtMost(priceAmount, maxPrice)
abbrev within_price : Option String → Option String → Option Bool
within_price none price = some true
within_price (some maximum) none = some true
within_price (some maximum) (some amount) = decimal_at_most amount maximum

-- id === null || id === other
abbrev pub is_unset_or : Option String → String → Bool
is_unset_or none other = true
is_unset_or (some id) other = id == other

-- `none` where a price is no decimal, and the comparison throws.
unfoldable pub fits_filters : CapabilityFilters → ProviderCapabilityRow → Option Bool
fits_filters f c =
    if not (is_unavailable c.availability)
      && (c.resource_type == f.resource_type
          && (is_unset_or f.capability_id c.id && serves_rails f.preferred_rails c.rail_tags))
    then within_price f.max_price c.price_amount
    else some false

-- A filter whose test may throw.
unfoldable pub filter_or_throw {ℓ} : {A : Type ℓ} → (A → Option Bool) → List A → Option (List A)
filter_or_throw p [] = some []
filter_or_throw p (x ∷ xs) =
    let rest = filter_or_throw p xs in
    elim (p x) [ none ↦ none | some keep ↦ Option.map (λ ys. if keep then x ∷ ys else ys) rest ]

unfoldable pub find_provider_capabilities :
    Env → ProductionStore → CapabilityFilters → Option Number → Option (List ProviderCapabilityRow)
find_provider_capabilities env s filters limit =
    Option.map
      (λ found. take (bounded_limit limit) (
        sort (λ a b. or_compare (env.locale_compare a.label b.label) (env.locale_compare a.id b.id))
          found))
      (filter_or_throw (fits_filters filters) (values s.capabilities))

unfoldable pub provider_capability :
    ProductionStore → Option String → String → Option ProviderCapabilityRow
provider_capability s user_id capability_id = elim (get capability_id s.capabilities) [
  | none ↦ none
  | some c ↦ if is_visible_to user_id c then some c else none
]

-- Another row of the provider with the type and label?
unfoldable pub is_duplicate : String → String → String → ProviderCapabilityRow → Bool
is_duplicate provider_machine_id resource_type label c =
    c.provider_machine_id == provider_machine_id
    && (c.resource_type == resource_type && c.label == label)

-- `input` lacks the id, the owner and the dates; `id` is the new UUID.
unfoldable pub create_provider_capability :
    ProductionStore
    → String
    → ProviderCapabilityRow
    → String
    → String
    → ProductionStore × Option ProviderCapabilityRow
unfolding is_duplicate
create_provider_capability s user_id input id now =
    let capability = record input {
      id = id;
      owner_user_id = user_id;
      created_at = now;
      updated_at = now;
    } in
    if not (owns s user_id input.provider_machine_id)
      || any (is_duplicate input.provider_machine_id input.resource_type input.label)
          (values s.capabilities)
    then (s, none)
    else (record s { capabilities = put id capability s.capabilities }, some capability)

unfoldable pub apply_patch : ProviderCapabilityRow → ProviderCapabilityPatch → ProviderCapabilityRow
apply_patch c patch = record c {
  label = patch.label;
  unit = patch.unit;
  rail_tags = patch.rail_tags;
  availability = patch.availability;
  price_amount = patch.price_amount;
  price_asset = patch.price_asset;
  updated_at = patch.updated_at;
}

unfoldable pub update_provider_capability :
    ProductionStore
    → String
    → String
    → ProviderCapabilityPatch
    → ProductionStore × Option ProviderCapabilityRow
unfolding apply_patch is_duplicate
update_provider_capability s user_id capability_id patch = elim (get capability_id s.capabilities) [
  | none ↦ (s, none)
  | some c ↦
      if not (c.owner_user_id == user_id)
        || any
            (λ d.
              not (d.id == capability_id)
              && is_duplicate c.provider_machine_id c.resource_type patch.label d)
            (values s.capabilities)
      then (s, none)
      else (
        record s { capabilities = put capability_id (apply_patch c patch) s.capabilities },
        some (apply_patch c patch),
      )
]

-- current && (its owner or its machine differs)
unfoldable pub belongs_to_another : ProviderCapabilityRow → Option ProviderCapabilityRow → Bool
belongs_to_another r none = false
belongs_to_another r (some current) =
    not (current.owner_user_id == r.owner_user_id)
    || not (current.provider_machine_id == r.provider_machine_id)

unfoldable pub upsert_provider_capability :
    ProductionStore → ProviderCapabilityRow → ProductionStore
unfolding belongs_to_another
upsert_provider_capability s r =
    if belongs_to_another r (get r.id s.capabilities)
      || not (owns s r.owner_user_id r.provider_machine_id)
    then s
    else record s { capabilities = put r.id r s.capabilities }
