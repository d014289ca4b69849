-- ===== src/Store/Acceptance.antt =====
-- The requester of a resource accepts a quote.
use machina_sol.Prelude.{String, not, ◌&&◌, Option, none, some, find, ◌==◌, if◌then◌else◌}
use machina_sol.Dict.{Dict, get, put, values, update_where}
use machina_sol.Store.Types.{
  PersistentResourceRequest, PersistentResourceQuote, ResourceRequestState, ResourceQuoteState,
}
use machina_sol.Store.State.{ProductionStore, is_expired, is_open, is_offered, is_accepted}

unfoldable pub accepted_resource_quote :
    ProductionStore → String → String → Option PersistentResourceQuote
accepted_resource_quote s user_id request_id = elim (get request_id s.requests) [
  | none ↦ none
  | some request ↦
      if request.owner_user_id == user_id
      then find (λ q. q.resource_request_id == request_id && is_accepted q.state) (values s.quotes)
      else none
]

-- The other offers for the request become declined.
unfoldable pub decline_others :
    String → String → String → Dict PersistentResourceQuote → Dict PersistentResourceQuote
decline_others request_id quote_id now =
    update_where
      (λ id q. q.resource_request_id == request_id && (not (id == quote_id) && is_offered q.state))
      (λ q. record q { state = ResourceQuoteState.declined; updated_at = now })

unfoldable pub accept_resource_quote :
    ProductionStore
    → String
    → String
    → String
    → String
    → ProductionStore × Option (PersistentResourceRequest × PersistentResourceQuote)
accept_resource_quote s user_id request_id quote_id now = elim (get request_id s.requests) [
  | none ↦ (s, none)
  | some request ↦ elim (get quote_id s.quotes) [
    | none ↦ (s, none)
    | some quote ↦
        let accepted = record quote { state = ResourceQuoteState.accepted; updated_at = now } in
        let updated = record request {
          capability_id = some quote.capability_id;
          provider_machine_id = some quote.provider_machine_id;
          quote_amount = some quote.amount;
          quote_asset = some quote.asset;
          state = ResourceRequestState.accepted;
          updated_at = now;
        } in
        if request.owner_user_id == user_id
          && (quote.resource_request_id == request_id
              && (is_offered quote.state
                  && (is_open request.state && not (is_expired quote.expires_at now))))
        then (
          record s {
            quotes = decline_others request_id quote_id now (put quote_id accepted s.quotes);
            requests = put request_id updated s.requests;
          },
          some (updated, accepted),
        )
        else (s, none)
  ]
]
