-- ===== src/Market/Sound/Quotes.antt =====
-- The offer, listing and withdrawal of quotes stay sound.
use machina_sol.Prelude.{
  String, ◌≡◌, refl, sym, ap, ◌∙◌, true, not, ◌&&◌, Option, none, some, arith, any, ◌==◌, subst,
  if◌then◌else◌, if_cases, option_cases,
}
use machina_sol.Number.{Number}
use machina_sol.Dict.{Dict, get, put, values}
use machina_sol.Dict.Unique.{Inherits, Inherits-trans, put-Inherits, update_where-Inherits}
use machina_sol.Store.Types.{
  ProviderCapabilityRow, PersistentResourceRequest, PersistentResourceQuote,
  CreateResourceQuoteInput, ResourceRequestState,
}
use machina_sol.Store.State.{Env, ProductionStore, is_expired, is_open, is_offered}
use machina_sol.Store.Quotes.{
  create_resource_quote, offer_quote, new_quote, expire_offers, is_offer_for, is_live_offer, reopen,
  withdrawn_state, withdraw_offer, list_resource_quotes, withdraw_resource_quote, may_quote,
}
use machina_sol.Market.{accepted_for, IsSound}
use machina_sol.Market.Sound.Parts.{
  HasIds, Closes, Closes-refl, put-HasIds, put_open-Closes, not-IsClosed_of_open, change-IsSound,
  After, stay,
}

pub expire-Inherits :
    (id : String) (provider : Option String) (now : String) (m : Dict PersistentResourceQuote)
    → Inherits accepted_for m (expire_offers id provider now m)
unfolding expire_offers
expire-Inherits id provider now m = update_where-Inherits accepted_for _ _ m (λ v. refl)

-- A quote that is not accepted carries no tag.
put_unaccepted-Inherits :
    (k : String) (q : PersistentResourceQuote) (m : Dict PersistentResourceQuote)
    → accepted_for q ≡ none
    → Inherits accepted_for m (put k q m)
put_unaccepted-Inherits k q m e = put-Inherits accepted_for k q m (λ t f. absurd (ground arith))

offer-IsSound :
    (s : ProductionStore) (id user : String) (input : CreateResourceQuoteInput)
    (request : PersistentResourceRequest) (capability : ProviderCapabilityRow) (now : String)
    → get request.id s.requests ≡ some request
    → is_open request.state ≡ true
    → IsSound s
    → After IsSound (offer_quote s id user input request capability now)
unfolding offer_quote new_quote
offer-IsSound s id user input request capability now e open' h =
    let expired = expire-Inherits request.id (some capability.provider_machine_id) now s.quotes in
    if_cases (After IsSound)
      (any (is_live_offer request.id capability.provider_machine_id)
        (values (expire_offers request.id (some capability.provider_machine_id) now s.quotes)))
      _ _
      (λ _. stay (change-IsSound s _ s.requests h.request_ids expired (Closes-refl s.requests) h))
      (λ _. stay (
        change-IsSound s _ _ (put-HasIds request.id _ s.requests refl h.request_ids)
          (Inherits-trans accepted_for expired (put_unaccepted-Inherits id _ _ refl))
          (put_open-Closes request.id _ s.requests
            (not-IsClosed_of_open request.id request s.requests e open'))
          h))

may_quote-is_open :
    (env : Env) (s : ProductionStore) (user : String) (input : CreateResourceQuoteInput)
    (request : PersistentResourceRequest) (capability : ProviderCapabilityRow) (now : String)
    → may_quote env s user input request capability now ≡ true
    → is_open request.state ≡ true
unfolding may_quote
may_quote-is_open env s user input request capability now h = ground arith

pub create_quote-IsSound :
    (env : Env) (s : ProductionStore) (id user : String) (input : CreateResourceQuoteInput)
    (now : String)
    → IsSound s
    → After IsSound (create_resource_quote env s id user input now)
unfolding create_resource_quote
create_quote-IsSound env s id user input now h =
    option_cases (After IsSound) (get input.resource_request_id s.requests) _ _ (λ _. stay h)
      λ request e.
        option_cases (After IsSound) (get input.capability_id s.capabilities) _ _ (λ _. stay h)
          λ capability _.
            if_cases (After IsSound) (may_quote env s user input request capability now) _ _
              (λ allowed.
                offer-IsSound s id user input request capability now
                  (subst (λ k. get k s.requests ≡ some request)
                    (sym (h.request_ids input.resource_request_id request e)) e)
                  (may_quote-is_open env s user input request capability now allowed) h)
              (λ _. stay h)

-- What a map of requests keeps.
record Keeps (m n : Dict PersistentResourceRequest) : Type 0 where
  ids : HasIds n
  closes : Closes m n

put-Keeps :
    (id : String) (request r : PersistentResourceRequest) (m : Dict PersistentResourceRequest)
    → get id m ≡ some request
    → is_open request.state ≡ true
    → r.id ≡ request.id
    → HasIds m
    → Keeps m (put id r m)
put-Keeps id request r m e open' same ids = record {
  ids = put-HasIds id r m (same ∙ ids id request e) ids;
  closes = put_open-Closes id r m (not-IsClosed_of_open id request m e open');
}

reopen-Keeps :
    (id : String) (request : PersistentResourceRequest) (quotes : Dict PersistentResourceQuote)
    (now : String) (m : Dict PersistentResourceRequest)
    → get id m ≡ some request
    → HasIds m
    → Keeps m (reopen id request quotes now m)
unfolding reopen
reopen-Keeps id request quotes now m e ids =
    elim request.state
        as (λ st.
          request.state ≡ st
          → Keeps m (elim st [ ResourceRequestState.quoted ↦ reopened | _ ↦ m ])) [
            | ResourceRequestState.quoted ↦ λ quoted.
                if_cases (Keeps m) (any (is_offer_for id) (values quotes)) _ _ (λ _. same)
                  (λ _. put-Keeps id request _ m e (ap is_open quoted) refl ids)
            | _ ↦ λ _. same
          ]
      refl
  where
    same : Keeps m m
    same = record { ids = ids; closes = Closes-refl m }

    reopened : Dict PersistentResourceRequest
    reopened =
        if any (is_offer_for id) (values quotes)
        then m
        else put id (record request { state = ResourceRequestState.pending; updated_at = now }) m

pub list_quotes-IsSound :
    (env : Env) (s : ProductionStore) (user request_id : String) (limit : Option Number)
    (now : String)
    → IsSound s
    → After IsSound (list_resource_quotes env s user request_id limit now)
unfolding list_resource_quotes
list_quotes-IsSound env s user request_id limit now h =
    option_cases (After IsSound) (get request_id s.requests) _ _ (λ _. stay h)
      λ request e.
        if_cases (After IsSound)
          (not (request.owner_user_id == user)
            && not (
                any (λ q. q.resource_request_id == request_id && q.provider_owner_user_id == user)
                  (values s.quotes)))
          _ _ (λ _. stay h)
          λ _.
            let kept =
              reopen-Keeps request_id request (expire_offers request_id none now s.quotes) now
                s.requests e h.request_ids in
            stay (
              change-IsSound s _ _ kept.ids (expire-Inherits request_id none now s.quotes)
                kept.closes h)

withdraw_offer-IsSound :
    (s : ProductionStore) (quote_id : String) (quote : PersistentResourceQuote)
    (request : PersistentResourceRequest) (now : String)
    → get request.id s.requests ≡ some request
    → is_open request.state ≡ true
    → IsSound s
    → After IsSound (withdraw_offer s quote_id quote request now)
unfolding withdraw_offer
withdraw_offer-IsSound s quote_id quote request now e open' h =
    if_cases (After IsSound) (is_expired quote.expires_at now) _ _ (λ _. changed _ _)
      (λ _. changed _ _)
  where
    untagged :
        accepted_for (record quote { state = withdrawn_state quote now; updated_at = now }) ≡ none
    untagged = unfold withdrawn_state in ground arith

    changed :
        (shown : Option (PersistentResourceRequest × PersistentResourceQuote))
        (st : ResourceRequestState)
        → After IsSound (
          record s {
            quotes = expire_offers request.id none now (
                put quote_id
                  (record quote { state = withdrawn_state quote now; updated_at = now })
                  s.quotes);
            requests = put request.id (record request { state = st; updated_at = now }) s.requests;
          },
          shown,
        )
    changed shown st = stay (
        change-IsSound s _ _ (put-HasIds request.id _ s.requests refl h.request_ids)
          (Inherits-trans accepted_for (put_unaccepted-Inherits quote_id _ s.quotes untagged)
            (expire-Inherits request.id none now _))
          (put_open-Closes request.id _ s.requests
            (not-IsClosed_of_open request.id request s.requests e open'))
          h)

pub withdraw-IsSound :
    (s : ProductionStore) (user quote_id now : String)
    → IsSound s
    → After IsSound (withdraw_resource_quote s user quote_id now)
unfolding withdraw_resource_quote
withdraw-IsSound s user quote_id now h =
    option_cases (After IsSound) (get quote_id s.quotes) _ _ (λ _. stay h)
      λ quote _.
        option_cases (After IsSound) (get quote.resource_request_id s.requests) _ _ (λ _. stay h)
          λ request e.
            if_cases (After IsSound)
              (quote.provider_owner_user_id == user
                && (is_offered quote.state && is_open request.state))
              _ _
              (λ allowed.
                withdraw_offer-IsSound s quote_id quote request now
                  (subst (λ k. get k s.requests ≡ some request)
                    (sym (h.request_ids quote.resource_request_id request e)) e)
                  (ground arith) h)
              (λ _. stay h)
