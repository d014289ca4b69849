-- ===== src/Store/Quotes.antt =====
-- Quotes: a provider offers and withdraws them.
use mathlib.Core.Option
use machina_sol.Prelude.{
  String, Bool, true, false, not, ◌&&◌, ◌||◌, Option, none, some, List, [], any, filter, sort, take,
  ◌==◌, if◌then◌else◌,
}
use machina_sol.Number.{Number, number_lt, number_le, of_nat}
use machina_sol.Dict.{Dict, get, put, values, update_where}
use machina_sol.Store.Types.{
  ProviderCapabilityRow, PersistentResourceRequest, PersistentResourceQuote,
  CreateResourceQuoteInput, ResourceRequestState, ResourceQuoteState,
}
use machina_sol.Store.State.{
  Env, ProductionStore, is_expired, is_open, is_offered, is_live_quote, is_unavailable,
}
use machina_sol.Store.Limits.{bounded_limit}
use machina_sol.Store.Machines.{owns, newest}
use machina_sol.Store.Capabilities.{serves_rails}

-- request.capabilityId !== null && request.capabilityId !== capability.id
unfoldable pub names_another : Option String → String → Bool
names_another none id = false
names_another (some wanted) id = not (wanted == id)

-- The guard of `createResourceQuote` on the request, the capability and the terms.
unfoldable pub may_quote :
    Env
    → ProductionStore
    → String
    → CreateResourceQuoteInput
    → PersistentResourceRequest
    → ProviderCapabilityRow
    → String
    → Bool
unfolding names_another
may_quote env s user_id input request capability now =
    owns s user_id capability.provider_machine_id
    && (capability.owner_user_id == user_id
        && (not (is_unavailable capability.availability)
            && (capability.resource_type == request.resource_type
                && (serves_rails request.preferred_rails capability.rail_tags
                    && (is_open request.state
                        && (not (number_le (env.to_number input.amount) (of_nat 0))
                            && (not (
                                  number_lt (env.to_number request.max_price)
                                    (env.to_number input.amount))
                                && (not (is_expired input.expires_at now)
                                    && not
                                        (names_another request.capability_id capability.id)))))))))

-- Offered quotes of the request that are past their date become expired; `provider` narrows the
-- loop to the quotes of one machine.
unfoldable pub expire_offers :
    String → Option String → String → Dict PersistentResourceQuote → Dict PersistentResourceQuote
expire_offers request_id provider now =
    update_where
      (λ _ q.
        q.resource_request_id == request_id
        && ((elim provider [ none ↦ true | some id ↦ q.provider_machine_id == id ])
            && (is_offered q.state && is_expired q.expires_at now)))
      (λ q. record q { state = ResourceQuoteState.expired; updated_at = now })

-- A quote of the provider for the request that is offered or accepted.
unfoldable pub is_live_offer : String → String → PersistentResourceQuote → Bool
is_live_offer request_id provider_machine_id q =
    q.resource_request_id == request_id
    && (q.provider_machine_id == provider_machine_id && is_live_quote q.state)

unfoldable pub new_quote :
    String
    → String
    → CreateResourceQuoteInput
    → PersistentResourceRequest
    → ProviderCapabilityRow
    → String
    → PersistentResourceQuote
new_quote id user_id input request capability now = record {
  id = id;
  resource_request_id = request.id;
  provider_owner_user_id = user_id;
  provider_machine_id = capability.provider_machine_id;
  capability_id = capability.id;
  amount = input.amount;
  asset = input.asset;
  state = ResourceQuoteState.offered;
  expires_at = input.expires_at;
  created_at = now;
  updated_at = now;
}

-- The part behind the guard: `id` is the new UUID.
unfoldable pub offer_quote :
    ProductionStore
    → String
    → String
    → CreateResourceQuoteInput
    → PersistentResourceRequest
    → ProviderCapabilityRow
    → String
    → ProductionStore × Option PersistentResourceQuote
offer_quote s id user_id input request capability now =
    let quotes = expire_offers request.id (some capability.provider_machine_id) now s.quotes in
    let quote = new_quote id user_id input request capability now in
    if any (is_live_offer request.id capability.provider_machine_id) (values quotes)
    then (record s { quotes = quotes }, none)
    else (
      record s {
        quotes = put id quote quotes;
        requests =
            put request.id
              (record request { state = ResourceRequestState.quoted; updated_at = now }) s.requests;
      },
      some quote,
    )

unfoldable pub create_resource_quote :
    Env
    → ProductionStore
    → String
    → String
    → CreateResourceQuoteInput
    → String
    → ProductionStore × Option PersistentResourceQuote
create_resource_quote env s id user_id input now = elim (get input.resource_request_id s.requests) [
  | none ↦ (s, none)
  | some request ↦ elim (get input.capability_id s.capabilities) [
    | none ↦ (s, none)
    | some capability ↦
        if may_quote env s user_id input request capability now
        then offer_quote s id user_id input request capability now
        else (s, none)
  ]
]

-- An offered quote of the request.
unfoldable pub is_offer_for : String → PersistentResourceQuote → Bool
is_offer_for request_id q = q.resource_request_id == request_id && is_offered q.state

-- A request whose last offer went goes back to pending.
unfoldable pub reopen :
    String
    → PersistentResourceRequest
    → Dict PersistentResourceQuote
    → String
    → Dict PersistentResourceRequest
    → Dict PersistentResourceRequest
unfolding is_offer_for
reopen request_id request quotes now requests = elim request.state [
  | ResourceRequestState.quoted ↦
      if any (is_offer_for request_id) (values quotes)
      then requests
      else put request_id
          (record request { state = ResourceRequestState.pending; updated_at = now }) requests
  | _ ↦ requests
]

unfoldable pub list_resource_quotes :
    Env
    → ProductionStore
    → String
    → String
    → Option Number
    → String
    → ProductionStore × List PersistentResourceQuote
list_resource_quotes env s user_id request_id limit now = elim (get request_id s.requests) [
  | none ↦ (s, [])
  | some request ↦
      let requester = request.owner_user_id == user_id in
      let provider =
        any (λ q. q.resource_request_id == request_id && q.provider_owner_user_id == user_id)
          (values s.quotes) in
      let quotes = expire_offers request_id none now s.quotes in
      if not requester && not provider then (s, []) else (
        record s { quotes = quotes; requests = reopen request_id request quotes now s.requests },
        take (bounded_limit limit) (
            sort (λ a b. newest env a.created_at b.created_at)
              (filter
                (λ q.
                  q.resource_request_id == request_id
                  && (requester || q.provider_owner_user_id == user_id))
                (values quotes))),
      )
]

-- quote.expiresAt !== null && quote.expiresAt <= now ? 'expired' : 'withdrawn'
unfoldable pub withdrawn_state : PersistentResourceQuote → String → ResourceQuoteState
withdrawn_state quote now =
    if is_expired quote.expires_at now
    then ResourceQuoteState.expired
    else ResourceQuoteState.withdrawn

unfoldable pub withdraw_offer :
    ProductionStore
    → String
    → PersistentResourceQuote
    → PersistentResourceRequest
    → String
    → ProductionStore × Option (PersistentResourceRequest × PersistentResourceQuote)
unfolding is_offer_for
withdraw_offer s quote_id quote request now =
    let quotes = expire_offers request.id none now (
      put quote_id (record quote { state = withdrawn_state quote now; updated_at = now })
        s.quotes) in
    let updated = record request {
      state =
          if any (is_offer_for request.id) (values quotes)
          then ResourceRequestState.quoted
          else ResourceRequestState.pending;
      updated_at = now;
    } in
    let s' = record s { quotes = quotes; requests = put request.id updated s.requests } in
    if is_expired quote.expires_at now
    then (s', none)
    else (s', Option.map (λ q. (updated, q)) (get quote_id quotes))

unfoldable pub withdraw_resource_quote :
    ProductionStore
    → String
    → String
    → String
    → ProductionStore × Option (PersistentResourceRequest × PersistentResourceQuote)
withdraw_resource_quote s user_id quote_id now = elim (get quote_id s.quotes) [
  | none ↦ (s, none)
  | some quote ↦ elim (get quote.resource_request_id s.requests) [
    | none ↦ (s, none)
    | some request ↦
        if quote.provider_owner_user_id == user_id
          && (is_offered quote.state && is_open request.state)
        then withdraw_offer s quote_id quote request now
        else (s, none)
  ]
]
