-- ===== src/Store/Requests.antt =====
-- Resource requests: creation, reads, and the changes of state that need no quote.
use machina_sol.Prelude.{
  String, Bool, true, false, not, ◌&&◌, ◌||◌, Option, none, some, List, any, filter, sort, take,
  is_some, or_else, includes, ◌==◌, Result, ok, err, if◌then◌else◌,
}
use machina_sol.Number.{Number}
use machina_sol.Dict.{Dict, get, has, put, values, update_where}
use machina_sol.Store.Types.{
  ProviderCapabilityRow, PersistentResourceRequest, PersistentResourceQuote, ResourceRequestState,
  ResourceQuoteState,
}
use machina_sol.Store.State.{Env, ProductionStore, is_open, is_offered, is_unavailable}
use machina_sol.Store.Limits.{bounded_limit}
use machina_sol.Store.Machines.{owns, newest}
use machina_sol.Store.Events.{owned_ids}
use machina_sol.Store.Capabilities.{serves_rails, is_unset_or}

-- a === b for values that may be null
abbrev pub same_option : Option String → Option String → Bool
same_option none none = true
same_option none (some b) = false
same_option (some a) none = false
same_option (some a) (some b) = a == b

-- The selected capability is of the named provider and the requested type.
unfoldable pub matches_capability : PersistentResourceRequest → Option ProviderCapabilityRow → Bool
matches_capability r none = false
matches_capability r (some c) =
    same_option (some c.provider_machine_id) r.provider_machine_id
    && c.resource_type == r.resource_type

-- record.capabilityId !== null, and the capability does not fit
unfoldable pub misses_capability :
    ProductionStore → PersistentResourceRequest → Option String → Bool
unfolding matches_capability
misses_capability s r none = false
misses_capability s r (some id) = not (matches_capability r (get id s.capabilities))

unfoldable pub create_resource_request :
    ProductionStore → PersistentResourceRequest → Result ProductionStore
unfolding misses_capability
create_resource_request s r =
    if has r.id s.requests
    then err "resource request already exists"
    else if not (owns s r.owner_user_id r.requester_machine_id)
    then err "requester machine is not owned by request owner"
    else if not (is_some r.capability_id) && is_some r.provider_machine_id
        || is_some r.capability_id && not (is_some r.provider_machine_id)
    then err "capability and provider must be selected together"
    else if misses_capability s r r.capability_id
    then err "selected capability does not match provider request"
    else ok (record s { requests = put r.id r s.requests })

unfoldable pub list_resource_requests :
    Env → ProductionStore → String → Option Number → List PersistentResourceRequest
list_resource_requests env s user_id limit = take (bounded_limit limit) (
    sort (λ a b. newest env a.created_at b.created_at)
      (filter (λ r. r.owner_user_id == user_id) (values s.requests)))

-- A capability of the user that could serve the request.
unfoldable pub is_compatible : String → PersistentResourceRequest → ProviderCapabilityRow → Bool
is_compatible user_id r c =
    c.owner_user_id == user_id
    && (not (is_unavailable c.availability)
        && (c.resource_type == r.resource_type
            && (is_unset_or r.capability_id c.id && serves_rails r.preferred_rails c.rail_tags)))

has_quoted : ProductionStore → String → PersistentResourceRequest → Bool
has_quoted s user_id r =
    any (λ q. q.resource_request_id == r.id && q.provider_owner_user_id == user_id)
      (values s.quotes)

-- Does the request show to the user as a provider? A selected provider's owner sees it always;
-- an open request shows to those who quoted it or could.
shows_to_provider : ProductionStore → String → PersistentResourceRequest → Option String → Bool
unfolding is_compatible has_quoted
shows_to_provider s user_id r none =
    is_open r.state
    && (has_quoted s user_id r || any (is_compatible user_id r) (values s.capabilities))
shows_to_provider s user_id r (some machine_id) = owns s user_id machine_id

-- The list reads the ids of the user's machines instead.
lists_for_provider : ProductionStore → String → PersistentResourceRequest → Option String → Bool
unfolding shows_to_provider
lists_for_provider s user_id r none = shows_to_provider s user_id r none
lists_for_provider s user_id r (some machine_id) = includes machine_id (owned_ids s user_id)

unfoldable pub list_provider_resource_requests :
    Env → ProductionStore → String → Option Number → List PersistentResourceRequest
unfolding lists_for_provider
list_provider_resource_requests env s user_id limit = take (bounded_limit limit) (
    sort (λ a b. newest env a.created_at b.created_at)
      (filter (λ r. lists_for_provider s user_id r r.provider_machine_id) (values s.requests)))

unfoldable pub resource_request :
    ProductionStore → String → String → Option PersistentResourceRequest
resource_request s user_id request_id = elim (get request_id s.requests) [
  | none ↦ none
  | some r ↦ if r.owner_user_id == user_id then some r else none
]

unfoldable pub provider_resource_request :
    ProductionStore → String → String → Option PersistentResourceRequest
unfolding shows_to_provider
provider_resource_request s user_id request_id = elim (get request_id s.requests) [
  | none ↦ none
  | some r ↦ if shows_to_provider s user_id r r.provider_machine_id then some r else none
]

abbrev pub same_state : ResourceRequestState → ResourceRequestState → Bool
same_state ResourceRequestState.pending ResourceRequestState.pending = true
same_state ResourceRequestState.quoted ResourceRequestState.quoted = true
same_state ResourceRequestState.accepted ResourceRequestState.accepted = true
same_state ResourceRequestState.granted ResourceRequestState.granted = true
same_state ResourceRequestState.fulfilled ResourceRequestState.fulfilled = true
same_state ResourceRequestState.rejected ResourceRequestState.rejected = true
same_state ResourceRequestState.cancelled ResourceRequestState.cancelled = true
same_state _ _ = false

unfoldable pub transition_resource_request :
    ProductionStore
    → String
    → String
    → List ResourceRequestState
    → ResourceRequestState
    → Option String
    → Option String
    → String
    → ProductionStore × Option PersistentResourceRequest
transition_resource_request s user_id request_id from to provider_machine_id capability_id now =
    elim (get request_id s.requests) [
      | none ↦ (s, none)
      | some r ↦
          let updated = record r {
            state = to;
            provider_machine_id = or_else provider_machine_id r.provider_machine_id;
            capability_id = or_else capability_id r.capability_id;
            updated_at = now;
          } in
          if not (r.owner_user_id == user_id) || not (any (same_state r.state) from)
          then (s, none)
          else (record s { requests = put request_id updated s.requests }, some updated)
    ]

-- Every offered quote of the request becomes declined.
unfoldable pub decline_offers :
    String → String → Dict PersistentResourceQuote → Dict PersistentResourceQuote
decline_offers request_id now =
    update_where (λ _ q. q.resource_request_id == request_id && is_offered q.state)
      (λ q. record q { state = ResourceQuoteState.declined; updated_at = now })

unfoldable pub cancel_resource_request :
    ProductionStore → String → String → String → ProductionStore × Option PersistentResourceRequest
unfolding decline_offers
cancel_resource_request s user_id request_id now = elim (get request_id s.requests) [
  | none ↦ (s, none)
  | some r ↦
      let cancelled = record r { state = ResourceRequestState.cancelled; updated_at = now } in
      if not (r.owner_user_id == user_id) || not (is_open r.state) then (s, none) else (
        record s {
          requests = put request_id cancelled s.requests;
          quotes = decline_offers request_id now s.quotes;
        },
        some cancelled,
      )
]

-- record.providerMachineId !== null, of a machine of the user
unfoldable pub is_selected_provider : ProductionStore → String → Option String → Bool
is_selected_provider s user_id none = false
is_selected_provider s user_id (some machine_id) = owns s user_id machine_id

unfoldable pub reject_resource_request :
    ProductionStore → String → String → String → ProductionStore × Option PersistentResourceRequest
unfolding decline_offers is_selected_provider
reject_resource_request s user_id request_id now = elim (get request_id s.requests) [
  | none ↦ (s, none)
  | some r ↦
      let rejected = record r { state = ResourceRequestState.rejected; updated_at = now } in
      if not (is_selected_provider s user_id r.provider_machine_id) || not (is_open r.state)
      then (s, none)
      else (
        record s {
          requests = put request_id rejected s.requests;
          quotes = decline_offers request_id now s.quotes;
        },
        some rejected,
      )
]
