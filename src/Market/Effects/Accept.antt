-- ===== src/Market/Effects/Accept.antt =====
-- What accepting a quote does (`acceptResourceQuote` of src/server/production/memory-store.ts).
use mathlib.Core.Option
use machina_sol.Prelude.{
  String, ◌≡◌, ◌≢◌, refl, subst, inl, inr, true, false, not, ◌&&◌, Option, some, arith, ◌==◌,
  eq_iff, eq_refl, Option-cases, if◌then◌else◌, if_cases, option_cases, some_inj,
}
use machina_sol.Dict.{Dict, get, put}
use machina_sol.Dict.Laws.{get-put, get-put_self, get-update_where}
use machina_sol.Store.Types.{
  PersistentResourceRequest, PersistentResourceQuote, ResourceRequestState, ResourceQuoteState,
}
use machina_sol.Store.State.{ProductionStore, is_expired, is_open, is_offered}
use machina_sol.Store.Acceptance.{decline_others, accept_resource_quote}

-- Request `request_id` and quote `quote_id` before and after they are matched.
pub record IsAcceptance (s t : ProductionStore) (user request_id quote_id now : String)
    (request : PersistentResourceRequest) (quote : PersistentResourceQuote) : Type 0 where
  -- The requester's own open request, and an offer for it that has not expired.
  pub was_open :
      (r : PersistentResourceRequest) × (get request_id s.requests ≡ some r)
      × (r.owner_user_id ≡ user)
      × (is_open r.state ≡ true)
  pub was_offered :
      (q : PersistentResourceQuote) × (get quote_id s.quotes ≡ some q)
      × (q.resource_request_id ≡ request_id)
      × (is_offered q.state ≡ true)
      × (is_expired q.expires_at now ≡ false)
  pub stores_request : get request_id t.requests ≡ some request
  pub stores_quote : get quote_id t.quotes ≡ some quote
  pub request_accepted : request.state ≡ ResourceRequestState.accepted
  pub quote_accepted : quote.state ≡ ResourceQuoteState.accepted
  -- The request takes the terms of the quote.
  pub takes_amount : request.quote_amount ≡ some quote.amount
  pub takes_asset : request.quote_asset ≡ some quote.asset
  pub takes_provider : request.provider_machine_id ≡ some quote.provider_machine_id
  pub takes_capability : request.capability_id ≡ some quote.capability_id
  -- Every other offer for the request is declined, and its other quotes stay.
  pub declines :
      (k : String) (q : PersistentResourceQuote)
      → get k s.quotes ≡ some q
      → q.resource_request_id ≡ request_id
      → (k == quote_id) ≡ false
      → get k t.quotes
        ≡ some (
            if is_offered q.state
            then record q { state = ResourceQuoteState.declined; updated_at = now }
            else q)
  -- No offer for the request is left.
  pub no_offer :
      (k : String) (q : PersistentResourceQuote)
      → get k t.quotes ≡ some q
      → q.resource_request_id ≡ request_id
      → is_offered q.state ≡ false
  -- The quotes for other requests stay.
  pub others_stay :
      (k : String) (q : PersistentResourceQuote)
      → get k s.quotes ≡ some q
      → q.resource_request_id ≢ request_id
      → get k t.quotes ≡ some q

get-decline_others :
    (k request_id quote_id now : String) (m : Dict PersistentResourceQuote)
    → get k (decline_others request_id quote_id now m)
      ≡ Option.map
          (λ q.
            if q.resource_request_id == request_id && (not (k == quote_id) && is_offered q.state)
            then record q { state = ResourceQuoteState.declined; updated_at = now }
            else q)
          (get k m)
unfolding decline_others
get-decline_others k request_id quote_id now m = get-update_where k _ _ m

no_offer_left :
    (k request_id quote_id now : String) (m : Dict PersistentResourceQuote)
    (chosen q : PersistentResourceQuote)
    → get quote_id m ≡ some chosen
    → is_offered chosen.state ≡ false
    → get k (decline_others request_id quote_id now m) ≡ some q
    → q.resource_request_id ≡ request_id
    → is_offered q.state ≡ false
no_offer_left k request_id quote_id now m chosen q e closed f for = elim (Option-cases (get k m)) [
  | inl absent ↦ absurd (ground (arith, get-decline_others k request_id quote_id now m))
  | inr (v, found) ↦ ground (
    arith,
    get-decline_others k request_id quote_id now m,
    eq_iff k quote_id,
    eq_iff v.resource_request_id request_id,
  )
]

others_stay_left :
    (k request_id quote_id now : String) (m : Dict PersistentResourceQuote)
    (q : PersistentResourceQuote)
    → get k m ≡ some q
    → q.resource_request_id ≢ request_id
    → get k (decline_others request_id quote_id now m) ≡ some q
others_stay_left k request_id quote_id now m q e other =
    ground (
      arith,
      get-decline_others k request_id quote_id now m,
      eq_iff q.resource_request_id request_id,
    )

declined_left :
    (k request_id quote_id now : String) (chosen : PersistentResourceQuote)
    (m : Dict PersistentResourceQuote) (q : PersistentResourceQuote)
    → get k m ≡ some q
    → q.resource_request_id ≡ request_id
    → (k == quote_id) ≡ false
    → get k (decline_others request_id quote_id now (put quote_id chosen m))
      ≡ some (
          if is_offered q.state
          then record q { state = ResourceQuoteState.declined; updated_at = now }
          else q)
declined_left k request_id quote_id now chosen m q e for other = ground (
  arith,
  get-decline_others k request_id quote_id now (put quote_id chosen m),
  get-put k quote_id chosen m,
  eq_iff quote_id k,
  eq_iff k quote_id,
  eq_iff q.resource_request_id request_id,
)

-- Behind the guard.
matched :
    (s : ProductionStore) (user request_id quote_id now : String)
    (request : PersistentResourceRequest) (quote : PersistentResourceQuote)
    → get request_id s.requests ≡ some request
    → get quote_id s.quotes ≡ some quote
    → request.owner_user_id ≡ user
    → is_open request.state ≡ true
    → quote.resource_request_id ≡ request_id
    → is_offered quote.state ≡ true
    → is_expired quote.expires_at now ≡ false
    → (let accepted = record quote { state = ResourceQuoteState.accepted; updated_at = now } in
        let updated = record request {
          capability_id = some quote.capability_id;
          provider_machine_id = some quote.provider_machine_id;
          quote_amount = some quote.amount;
          quote_asset = some quote.asset;
          state = ResourceRequestState.accepted;
          updated_at = now;
        } in
        IsAcceptance s
          (record s {
            quotes = decline_others request_id quote_id now (put quote_id accepted s.quotes);
            requests = put request_id updated s.requests;
          })
          user
          request_id
          quote_id
          now
          updated
          accepted)
matched s user request_id quote_id now request quote e f owner open' for offered fresh = record {
  was_open = (request, e, owner, open');
  was_offered = (quote, f, for, offered, fresh);
  stores_request = get-put_self request_id _ s.requests;
  stores_quote = ground (
    arith,
    eq_refl quote_id,
    get-decline_others quote_id request_id quote_id now (
        put quote_id (record quote { state = ResourceQuoteState.accepted; updated_at = now })
          s.quotes),
    get-put_self quote_id (record quote { state = ResourceQuoteState.accepted; updated_at = now })
        s.quotes,
  );
  request_accepted = refl;
  quote_accepted = refl;
  takes_amount = refl;
  takes_asset = refl;
  takes_provider = refl;
  takes_capability = refl;
  declines = λ k q.
      declined_left k request_id quote_id now
        (record quote { state = ResourceQuoteState.accepted; updated_at = now }) s.quotes q;
  no_offer = λ k q.
      no_offer_left k request_id quote_id now _
        (record quote { state = ResourceQuoteState.accepted; updated_at = now }) q
        (get-put_self quote_id _ s.quotes) refl;
  others_stay = λ k q found other.
      others_stay_left k request_id quote_id now _ q
        (ground (
          arith,
          get-put k quote_id
              (record quote { state = ResourceQuoteState.accepted; updated_at = now }) s.quotes,
          eq_iff quote_id k,
        ))
        other;
}

reply :
    {s t : ProductionStore} {user request_id quote_id now : String}
    {u v : PersistentResourceRequest × PersistentResourceQuote}
    → some u ≡ some v
    → IsAcceptance s t user request_id quote_id now u.0 u.1
    → IsAcceptance s t user request_id quote_id now v.0 v.1
reply {s = s} {t = t} {user = user} {request_id = request_id} {quote_id = quote_id} {now = now} e =
    subst (λ p. IsAcceptance s t user request_id quote_id now p.0 p.1) (some_inj e)

-- An accepted quote binds the request to its terms, every other offer for it is declined, and no
-- other quote changes.
pub accept_resource_quote-IsAcceptance :
    (s : ProductionStore) (user request_id quote_id now : String)
    (request : PersistentResourceRequest) (quote : PersistentResourceQuote)
    → (accept_resource_quote s user request_id quote_id now).1 ≡ some (request, quote)
    → IsAcceptance s
        (accept_resource_quote s user request_id quote_id now).0
        user
        request_id
        quote_id
        now
        request
        quote
unfolding accept_resource_quote
accept_resource_quote-IsAcceptance s user request_id quote_id now request quote =
    option_cases P (get request_id s.requests) _ _ (λ _ h. absurd (ground arith))
      λ r e.
        option_cases P (get quote_id s.quotes) _ _ (λ _ h. absurd (ground arith))
          λ q f.
            if_cases P
              (r.owner_user_id == user
                && (q.resource_request_id == request_id
                    && (is_offered q.state
                        && (is_open r.state && not (is_expired q.expires_at now)))))
              _ _
              (λ allowed h. reply h (
                matched s user request_id quote_id now r q e f
                  (ground (arith, eq_iff r.owner_user_id user)) (ground arith)
                  (ground (arith, eq_iff q.resource_request_id request_id)) (ground arith)
                  (ground arith)))
              (λ _ h. absurd (ground arith))
  where
    P : ProductionStore × Option (PersistentResourceRequest × PersistentResourceQuote) → Type 0
    P t =
        t.1 ≡ some (request, quote) → IsAcceptance s t.0 user request_id quote_id now request quote
