-- ===== src/Market/Sound/Requests.antt =====
-- The creation, selection and end of requests stay sound.
use machina_sol.Prelude.{
  String, ◌≡◌, refl, true, false, not, ◌&&◌, ◌||◌, Option, none, [], ◌∷◌, arith, any, is_some, ◌==◌,
  if_cases, option_cases,
}
use machina_sol.Dict.{Dict, get, has}
use machina_sol.Dict.Unique.{Inherits, Inherits-refl, update_where-Inherits}
use machina_sol.Store.Types.{
  PersistentResourceRequest, PersistentResourceQuote, ResourceRequestState,
}
use machina_sol.Store.State.{ProductionStore, is_open}
use machina_sol.Store.Requests.{
  is_selected_provider, misses_capability, same_state, decline_offers, create_resource_request,
  transition_resource_request, cancel_resource_request, reject_resource_request,
}
use machina_sol.Store.Machines.{owns}
use machina_sol.Market.{accepted_for, IsSound}
use machina_sol.Market.Sound.Parts.{
  put-HasIds, put_closed-Closes, put_open-Closes, not-IsClosed_of_open, not-IsClosed_of_none,
  change-IsSound, After, AfterResult, stay, refused, returned,
}

decline-Inherits :
    (id now : String) (m : Dict PersistentResourceQuote)
    → Inherits accepted_for m (decline_offers id now m)
unfolding decline_offers
decline-Inherits id now m = update_where-Inherits accepted_for _ _ m (λ v. refl)

absent_of_fresh :
    (k : String) (m : Dict PersistentResourceRequest) → has k m ≡ false → get k m ≡ none
unfolding has
absent_of_fresh k m h = ground arith

pub create_request-IsSound :
    (s : ProductionStore) (r : PersistentResourceRequest)
    → IsSound s
    → AfterResult IsSound s (create_resource_request s r)
unfolding create_resource_request
create_request-IsSound s r h =
    if_cases (AfterResult IsSound s) (has r.id s.requests) _ _ (λ _. refused h)
      λ fresh.
        if_cases (AfterResult IsSound s) (not (owns s r.owner_user_id r.requester_machine_id)) _ _
          (λ _. refused h)
          λ _.
            if_cases (AfterResult IsSound s)
              (not (is_some r.capability_id) && is_some r.provider_machine_id
                || is_some r.capability_id && not (is_some r.provider_machine_id))
              _ _ (λ _. refused h)
              λ _.
                if_cases (AfterResult IsSound s) (misses_capability s r r.capability_id) _ _
                  (λ _. refused h)
                  λ _. returned (
                    change-IsSound s s.quotes _ (put-HasIds r.id r s.requests refl h.request_ids)
                      (Inherits-refl accepted_for s.quotes)
                      (put_open-Closes r.id r s.requests (
                        not-IsClosed_of_none r.id s.requests
                          (absent_of_fresh r.id s.requests fresh)))
                      h)

pending_is_open :
    (st : ResourceRequestState)
    → same_state st ResourceRequestState.pending ≡ true
    → is_open st ≡ true
pending_is_open ResourceRequestState.pending h = refl
pending_is_open ResourceRequestState.quoted h = refl
pending_is_open ResourceRequestState.accepted h = h
pending_is_open ResourceRequestState.granted h = h
pending_is_open ResourceRequestState.fulfilled h = h
pending_is_open ResourceRequestState.rejected h = h
pending_is_open ResourceRequestState.cancelled h = h

pub select-IsSound :
    (s : ProductionStore) (user request_id now : String) (machine capability : Option String)
    → IsSound s
    → After IsSound (
        transition_resource_request s user request_id
          (ResourceRequestState.pending ∷ [])
          ResourceRequestState.pending
          machine
          capability
          now)
unfolding transition_resource_request any
select-IsSound s user request_id now machine capability h =
    option_cases (After IsSound) (get request_id s.requests) _ _ (λ _. stay h)
      λ r e.
        if_cases (After IsSound)
          (not (r.owner_user_id == user)
            || not (any (same_state r.state) (ResourceRequestState.pending ∷ [])))
          _ _ (λ _. stay h)
          λ allowed. stay (
            change-IsSound s s.quotes _
              (put-HasIds request_id _ s.requests (h.request_ids request_id r e) h.request_ids)
              (Inherits-refl accepted_for s.quotes)
              (put_open-Closes request_id _ s.requests (
                not-IsClosed_of_open request_id r s.requests e
                  (unfold any in ground (arith, pending_is_open r.state))))
              h)

pub cancel-IsSound :
    (s : ProductionStore) (user request_id now : String)
    → IsSound s
    → After IsSound (cancel_resource_request s user request_id now)
unfolding cancel_resource_request
cancel-IsSound s user request_id now h =
    option_cases (After IsSound) (get request_id s.requests) _ _ (λ _. stay h)
      λ r e.
        if_cases (After IsSound) (not (r.owner_user_id == user) || not (is_open r.state)) _ _
          (λ _. stay h)
          λ _. stay (
            change-IsSound s _ _
              (put-HasIds request_id _ s.requests (h.request_ids request_id r e) h.request_ids)
              (decline-Inherits request_id now s.quotes)
              (put_closed-Closes request_id _ s.requests refl) h)

pub reject-IsSound :
    (s : ProductionStore) (user request_id now : String)
    → IsSound s
    → After IsSound (reject_resource_request s user request_id now)
unfolding reject_resource_request
reject-IsSound s user request_id now h =
    option_cases (After IsSound) (get request_id s.requests) _ _ (λ _. stay h)
      λ r e.
        if_cases (After IsSound)
          (not (is_selected_provider s user r.provider_machine_id) || not (is_open r.state)) _ _
          (λ _. stay h)
          λ _. stay (
            change-IsSound s _ _
              (put-HasIds request_id _ s.requests (h.request_ids request_id r e) h.request_ids)
              (decline-Inherits request_id now s.quotes)
              (put_closed-Closes request_id _ s.requests refl) h)
