-- ===== src/Store/Grants.antt =====
-- Access grants: a provider grants access to an accepted request, and may take it back.
use mathlib.Core.List.{head?}
use machina_sol.Prelude.{
  String, Bool, true, false, not, ◌&&◌, ◌||◌, Option, none, some, any, filter, sort, ◌==◌,
  if◌then◌else◌,
}
use machina_sol.Dict.{get, put, values}
use machina_sol.Store.Types.{
  PersistentResourceRequest, PersistentResourceQuote, PersistentAccessGrant, ResourceRequestState,
  AccessGrantState,
}
use machina_sol.Store.State.{
  Env, ProductionStore, is_expired, is_accepted, is_live_grant, is_live_receipt,
}
use machina_sol.Store.Machines.{newest}
use machina_sol.Store.Events.{or_compare}

pub record CreateAccessGrantInput : Type 0 where
  pub resource_request_id : String
  pub resource_quote_id : String
  pub access_reference : Option String
  pub expires_at : Option String

abbrev pub is_accepted_request : ResourceRequestState → Bool
is_accepted_request ResourceRequestState.accepted = true
is_accepted_request _ = false

abbrev pub is_granted_request : ResourceRequestState → Bool
is_granted_request ResourceRequestState.granted = true
is_granted_request _ = false

unfoldable pub is_live_grant_for : String → PersistentAccessGrant → Bool
is_live_grant_for request_id g = g.resource_request_id == request_id && is_live_grant g.state

unfoldable pub may_grant :
    ProductionStore
    → String
    → CreateAccessGrantInput
    → PersistentResourceRequest
    → PersistentResourceQuote
    → String
    → Bool
unfolding is_live_grant_for
may_grant s user_id input request quote now =
    is_accepted_request request.state
    && (is_accepted quote.state
        && (quote.resource_request_id == request.id
            && (quote.provider_owner_user_id == user_id
                && (not (is_expired input.expires_at now)
                    && not (any (is_live_grant_for request.id) (values s.grants))))))

unfoldable pub new_grant :
    String
    → String
    → CreateAccessGrantInput
    → PersistentResourceRequest
    → PersistentResourceQuote
    → String
    → PersistentAccessGrant
new_grant id user_id input request quote now = record {
  id = id;
  resource_request_id = request.id;
  resource_quote_id = quote.id;
  provider_owner_user_id = user_id;
  provider_machine_id = quote.provider_machine_id;
  requester_owner_user_id = request.owner_user_id;
  requester_machine_id = request.requester_machine_id;
  state = AccessGrantState.pending;
  access_reference = input.access_reference;
  expires_at = input.expires_at;
  created_at = now;
  updated_at = now;
}

-- `id` is the new UUID.
unfoldable pub create_access_grant :
    ProductionStore
    → String
    → String
    → CreateAccessGrantInput
    → String
    → ProductionStore × Option PersistentAccessGrant
create_access_grant s id user_id input now = elim (get input.resource_request_id s.requests) [
  | none ↦ (s, none)
  | some request ↦ elim (get input.resource_quote_id s.quotes) [
    | none ↦ (s, none)
    | some quote ↦
        if may_grant s user_id input request quote now
        then (
          record s { grants = put id (new_grant id user_id input request quote now) s.grants },
          some (new_grant id user_id input request quote now),
        )
        else (s, none)
  ]
]

-- A receipt of the request that was not rejected.
unfoldable pub has_live_receipt : ProductionStore → String → Bool
has_live_receipt s request_id =
    any (λ r. r.resource_request_id == request_id && is_live_receipt r.state)
      (values s.resource_receipts)

-- if (request?.state === from) the request takes the state `to`
unfoldable pub advance_request :
    (ResourceRequestState → Bool)
    → ResourceRequestState
    → String
    → String
    → ProductionStore
    → ProductionStore
advance_request test to request_id now s = elim (get request_id s.requests) [
  | none ↦ s
  | some request ↦
      if test request.state
      then record s {
        requests = put request.id (record request { state = to; updated_at = now }) s.requests;
      }
      else s
]

-- A granted request without a live receipt goes back to accepted.
unfoldable pub release_request : String → String → ProductionStore → ProductionStore
release_request request_id now s =
    if has_live_receipt s request_id
    then s
    else advance_request is_granted_request ResourceRequestState.accepted request_id now s

-- A grant's new state, and the request that it releases.
unfoldable pub expire_grant :
    String → PersistentAccessGrant → String → ProductionStore → ProductionStore
expire_grant key grant now s = release_request grant.resource_request_id now (record s {
  grants = put key (record grant { state = AccessGrantState.expired; updated_at = now }) s.grants;
})

-- Is the user a party of it?
unfoldable pub is_party : String → PersistentAccessGrant → Bool
is_party user_id g = g.provider_owner_user_id == user_id || g.requester_owner_user_id == user_id

unfoldable pub newest_grant : Env → ProductionStore → String → String → Option PersistentAccessGrant
unfolding is_party
newest_grant env s user_id request_id = head? (
    sort (λ a b. or_compare (newest env a.created_at b.created_at) (env.locale_compare b.id a.id))
      (filter (λ g. g.resource_request_id == request_id && is_party user_id g) (values s.grants)))

unfoldable pub access_grant :
    Env
    → ProductionStore
    → String
    → String
    → String
    → ProductionStore × Option PersistentAccessGrant
access_grant env s user_id request_id now = elim (newest_grant env s user_id request_id) [
  | none ↦ (s, none)
  | some grant ↦
      if is_live_grant grant.state && is_expired grant.expires_at now
      then (
        expire_grant grant.id grant now s,
        some (record grant { state = AccessGrantState.expired; updated_at = now }),
      )
      else (s, some grant)
]

-- The transitions of a grant.
abbrev pub may_become : AccessGrantState → AccessGrantState → Bool
may_become AccessGrantState.pending AccessGrantState.active = true
may_become AccessGrantState.pending AccessGrantState.revoked = true
may_become AccessGrantState.pending AccessGrantState.expired = true
may_become AccessGrantState.active AccessGrantState.revoked = true
may_become AccessGrantState.active AccessGrantState.expired = true
may_become _ _ = false

abbrev pub same_grant_state : AccessGrantState → AccessGrantState → Bool
same_grant_state AccessGrantState.pending AccessGrantState.pending = true
same_grant_state AccessGrantState.active AccessGrantState.active = true
same_grant_state AccessGrantState.revoked AccessGrantState.revoked = true
same_grant_state AccessGrantState.expired AccessGrantState.expired = true
same_grant_state _ _ = false

abbrev pub is_active_grant : AccessGrantState → Bool
is_active_grant AccessGrantState.active = true
is_active_grant _ = false

-- What becomes of the request when its grant takes the state `to`.
unfoldable pub follow_grant : AccessGrantState → String → String → ProductionStore → ProductionStore
follow_grant AccessGrantState.active request_id now s =
    advance_request is_accepted_request ResourceRequestState.granted request_id now s
follow_grant AccessGrantState.revoked request_id now s = release_request request_id now s
follow_grant AccessGrantState.expired request_id now s = release_request request_id now s
follow_grant AccessGrantState.pending request_id now s = s

unfoldable pub put_grant_state :
    String → PersistentAccessGrant → AccessGrantState → String → ProductionStore → ProductionStore
put_grant_state grant_id grant to now s = record s {
  grants = put grant_id (record grant { state = to; updated_at = now }) s.grants;
}

unfoldable pub transition_access_grant :
    ProductionStore
    → String
    → String
    → AccessGrantState
    → AccessGrantState
    → String
    → ProductionStore × Option PersistentAccessGrant
transition_access_grant s user_id grant_id from to now = elim (get grant_id s.grants) [
  | none ↦ (s, none)
  | some grant ↦
      if not (grant.provider_owner_user_id == user_id)
        || (not (same_grant_state grant.state from) || not (may_become from to))
      then (s, none)
      else if is_active_grant to && is_expired grant.expires_at now
      then (put_grant_state grant_id grant AccessGrantState.expired now s, none)
      else (
        follow_grant to grant.resource_request_id now (put_grant_state grant_id grant to now s),
        some (record grant { state = to; updated_at = now }),
      )
]
