-- ===== src/Market/Sound/Grants.antt =====
-- Grants stay sound, and so does what they do to the request.
use machina_sol.Prelude.{
  String, ◌≡◌, refl, Bool, true, false, not, ◌&&◌, ◌||◌, none, some, arith, ◌==◌, eq_iff, if_cases,
  option_cases,
}
use machina_sol.Dict.{Dict, get, put}
use machina_sol.Dict.Laws.{any-values-false}
use machina_sol.Dict.Unique.{Inherits, Inherits-IsUnique, put-Inherits, put-IsUnique}
use machina_sol.Store.Types.{
  PersistentResourceRequest, PersistentResourceQuote, PersistentAccessGrant, ResourceRequestState,
  AccessGrantState,
}
use machina_sol.Store.State.{Env, ProductionStore, is_expired, is_open, is_live_grant}
use machina_sol.Store.Grants.{
  CreateAccessGrantInput, is_live_grant_for, is_accepted_request, is_granted_request, may_grant,
  new_grant, create_access_grant, has_live_receipt, advance_request, release_request, expire_grant,
  newest_grant, access_grant, may_become, same_grant_state, is_active_grant, follow_grant,
  put_grant_state, transition_access_grant,
}
use machina_sol.Market.{granted_for, IsSound}
use machina_sol.Market.Sound.Parts.{
  put-HasIds, put_closed-Closes, change_requests-IsSound, change_grants-IsSound, After, stay,
}

pub advance-IsSound :
    (test : ResourceRequestState → Bool) (to : ResourceRequestState) (request_id now : String)
    (s : ProductionStore)
    → is_open to ≡ false
    → IsSound s
    → IsSound (advance_request test to request_id now s)
unfolding advance_request
advance-IsSound test to request_id now s shut h =
    option_cases IsSound (get request_id s.requests) _ _ (λ _. h)
      λ request e.
        if_cases IsSound (test request.state) _ _
          (λ _.
            change_requests-IsSound s _ (put-HasIds request.id _ s.requests refl h.request_ids)
              (put_closed-Closes request.id _ s.requests shut) h)
          (λ _. h)

release-IsSound :
    (request_id now : String) (s : ProductionStore)
    → IsSound s
    → IsSound (release_request request_id now s)
unfolding release_request
release-IsSound request_id now s h =
    if_cases IsSound (has_live_receipt s request_id) _ _ (λ _. h)
      (λ _.
        advance-IsSound is_granted_request ResourceRequestState.accepted request_id now s refl h)

follow_grant-IsSound :
    (to : AccessGrantState) (request_id now : String) (s : ProductionStore)
    → IsSound s
    → IsSound (follow_grant to request_id now s)
unfolding follow_grant
follow_grant-IsSound AccessGrantState.pending request_id now s h = h
follow_grant-IsSound AccessGrantState.active request_id now s h =
    advance-IsSound is_accepted_request ResourceRequestState.granted request_id now s refl h
follow_grant-IsSound AccessGrantState.revoked request_id now s h =
    release-IsSound request_id now s h
follow_grant-IsSound AccessGrantState.expired request_id now s h =
    release-IsSound request_id now s h

-- A grant that is no longer live carries no tag.
put_ended-Inherits :
    (k : String) (g : PersistentAccessGrant) (m : Dict PersistentAccessGrant)
    → granted_for g ≡ none
    → Inherits granted_for m (put k g m)
put_ended-Inherits k g m e = put-Inherits granted_for k g m (λ t f. absurd (ground arith))

pub expire_grant-IsSound :
    (key now : String) (grant : PersistentAccessGrant) (s : ProductionStore)
    → IsSound s
    → IsSound (expire_grant key grant now s)
unfolding expire_grant
expire_grant-IsSound key now grant s h = release-IsSound grant.resource_request_id now _ (
    change_grants-IsSound s _
      (Inherits-IsUnique granted_for (put_ended-Inherits key _ s.grants refl) h.one_grant) h)

pub read_grant-IsSound :
    (env : Env) (s : ProductionStore) (user request_id now : String)
    → IsSound s
    → After IsSound (access_grant env s user request_id now)
unfolding access_grant
read_grant-IsSound env s user request_id now h =
    option_cases (After IsSound) (newest_grant env s user request_id) _ _ (λ _. stay h)
      λ grant _.
        if_cases (After IsSound) (is_live_grant grant.state && is_expired grant.expires_at now) _ _
          (λ _. stay (expire_grant-IsSound grant.id now grant s h)) (λ _. stay h)

-- A grant is created where the request has no live one.
fresh_grant :
    (s : ProductionStore) (user : String) (input : CreateAccessGrantInput)
    (request : PersistentResourceRequest) (quote : PersistentResourceQuote) (id now j : String)
    (g : PersistentAccessGrant) (t : String)
    → may_grant s user input request quote now ≡ true
    → get j s.grants ≡ some g
    → granted_for g ≡ some t
    → granted_for (new_grant id user input request quote now) ≡ some t
    → j ≡ id
unfolding may_grant new_grant is_live_grant_for
fresh_grant s user input request quote id now j g t allowed e f new = absurd (
    ground (
      arith,
      eq_iff g.resource_request_id request.id,
      any-values-false (λ x. is_live_grant_for request.id x) j g s.grants,
    ))

pub create_grant-IsSound :
    (s : ProductionStore) (id user : String) (input : CreateAccessGrantInput) (now : String)
    → IsSound s
    → After IsSound (create_access_grant s id user input now)
unfolding create_access_grant
create_grant-IsSound s id user input now h =
    option_cases (After IsSound) (get input.resource_request_id s.requests) _ _ (λ _. stay h)
      λ request _.
        option_cases (After IsSound) (get input.resource_quote_id s.quotes) _ _ (λ _. stay h)
          λ quote _.
            if_cases (After IsSound) (may_grant s user input request quote now) _ _
              (λ allowed. stay (
                change_grants-IsSound s _
                  (put-IsUnique granted_for id _ s.grants h.one_grant
                    (λ j g t. fresh_grant s user input request quote id now j g t allowed))
                  h))
              (λ _. stay h)

-- A grant that stays live was live.
live_of_may_become :
    (from to : AccessGrantState)
    → may_become from to ≡ true
    → is_live_grant to ≡ true
    → is_live_grant from ≡ true
live_of_may_become AccessGrantState.pending to h l = refl
live_of_may_become AccessGrantState.active to h l = refl
live_of_may_become AccessGrantState.revoked to h l = h
live_of_may_become AccessGrantState.expired to h l = h

live_of_same :
    (a b : AccessGrantState) → same_grant_state a b ≡ true → is_live_grant a ≡ is_live_grant b
live_of_same a b h = ground arith

put_grant_state-Inherits :
    (s : ProductionStore) (k now : String) (grant : PersistentAccessGrant)
    (from to : AccessGrantState)
    → get k s.grants ≡ some grant
    → same_grant_state grant.state from ≡ true
    → may_become from to ≡ true
    → Inherits granted_for s.grants (put k (record grant { state = to; updated_at = now }) s.grants)
put_grant_state-Inherits s k now grant from to e same allowed =
    put-Inherits granted_for k _ s.grants
      λ t f. (grant, e, ground (arith, live_of_may_become from to, live_of_same grant.state from))

pub transition_grant-IsSound :
    (s : ProductionStore) (user grant_id : String) (from to : AccessGrantState) (now : String)
    → IsSound s
    → After IsSound (transition_access_grant s user grant_id from to now)
unfolding transition_access_grant put_grant_state
transition_grant-IsSound s user grant_id from to now h =
    option_cases (After IsSound) (get grant_id s.grants) _ _ (λ _. stay h)
      λ grant e.
        if_cases (After IsSound)
          (not (grant.provider_owner_user_id == user)
            || (not (same_grant_state grant.state from) || not (may_become from to)))
          _ _ (λ _. stay h)
          λ allowed.
            if_cases (After IsSound) (is_active_grant to && is_expired grant.expires_at now) _ _
              (λ _. stay (
                change_grants-IsSound s _
                  (Inherits-IsUnique granted_for (put_ended-Inherits grant_id _ s.grants refl)
                    h.one_grant)
                  h))
              (λ _. stay (
                follow_grant-IsSound to grant.resource_request_id now _ (
                  change_grants-IsSound s _
                    (Inherits-IsUnique granted_for
                      (put_grant_state-Inherits s grant_id now grant from to e (ground arith)
                        (ground arith))
                      h.one_grant)
                    h)))
