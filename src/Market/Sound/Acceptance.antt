-- ===== src/Market/Sound/Acceptance.antt =====
-- The acceptance of a quote stays sound.
use machina_sol.Prelude.{
  String, ◌≡◌, refl, ◌∙◌, inl, inr, true, false, not, ◌&&◌, some, arith, ◌==◌, eq_iff, eq_refl,
  Bool-cases, subst, if_cases, option_cases,
}
use machina_sol.Dict.{Dict, get, put}
use machina_sol.Dict.Laws.{get-put}
use machina_sol.Dict.Unique.{Inherits, Inherits-IsUnique, update_where-Inherits, put-IsUnique}
use machina_sol.Store.Types.{PersistentResourceRequest, PersistentResourceQuote}
use machina_sol.Store.State.{ProductionStore, is_expired, is_open, is_offered}
use machina_sol.Store.Acceptance.{decline_others, accept_resource_quote}
use machina_sol.Market.{accepted_for, IsClosed, IsSound}
use machina_sol.Market.Sound.Parts.{
  put-HasIds, put_closed-Closes, not-IsClosed_of_open, After, stay,
}

decline_others-Inherits :
    (request_id quote_id now : String) (m : Dict PersistentResourceQuote)
    → Inherits accepted_for m (decline_others request_id quote_id now m)
unfolding decline_others
decline_others-Inherits request_id quote_id now m =
    update_where-Inherits accepted_for _ _ m (λ v. refl)

-- The quote that is accepted, for a request that is still open, is the only one.
accepted-IsSound :
    (s : ProductionStore) (request_id quote_id now : String)
    (request updated : PersistentResourceRequest) (accepted : PersistentResourceQuote)
    → get request_id s.requests ≡ some request
    → is_open request.state ≡ true
    → updated.id ≡ request.id
    → is_open updated.state ≡ false
    → accepted_for accepted ≡ some request_id
    → IsSound s
    → IsSound (record s {
      quotes = decline_others request_id quote_id now (put quote_id accepted s.quotes);
      requests = put request_id updated s.requests;
    })
accepted-IsSound s request_id quote_id now request updated accepted e open' same shut tag h =
    record {
      request_ids =
          put-HasIds request_id updated s.requests (same ∙ h.request_ids request_id request e)
            h.request_ids;
      one_accepted =
          Inherits-IsUnique accepted_for (decline_others-Inherits request_id quote_id now _)
            (put-IsUnique accepted_for quote_id accepted s.quotes h.one_accepted fresh);
      accepted_closed = λ k q id f g.
          let (v, f', g') =
            (decline_others-Inherits request_id quote_id now
                (put quote_id accepted s.quotes)).origin
              k q id f g in
          closed k v id f' g';
      settlement_ids = h.settlement_ids;
      one_grant = h.one_grant;
      one_receipt = h.one_receipt;
      one_settlement = h.one_settlement;
      one_signature = h.one_signature;
    }
  where
    fresh :
        (j : String) (w : PersistentResourceQuote) (t : String)
        → get j s.quotes ≡ some w
        → accepted_for w ≡ some t
        → accepted_for accepted ≡ some t
        → j ≡ quote_id
    fresh j w t f g tag' = absurd (
        not-IsClosed_of_open request_id request s.requests e open'
          (subst (IsClosed s.requests) (ground arith) (h.accepted_closed j w t f g)))

    closed :
        (k : String) (v : PersistentResourceQuote) (id : String)
        → get k (put quote_id accepted s.quotes) ≡ some v
        → accepted_for v ≡ some id
        → IsClosed (put request_id updated s.requests) id
    closed k v id f g = elim (Bool-cases (quote_id == k)) [
      | inl mine ↦ (
        updated,
        ground (
          arith,
          get-put k quote_id accepted s.quotes,
          get-put id request_id updated s.requests,
          eq_refl request_id,
        ),
        shut,
      )
      | inr other ↦
          (put_closed-Closes request_id updated s.requests shut).still id
            (h.accepted_closed k v id (ground (arith, get-put k quote_id accepted s.quotes)) g)
    ]

pub accept-IsSound :
    (s : ProductionStore) (user request_id quote_id now : String)
    → IsSound s
    → After IsSound (accept_resource_quote s user request_id quote_id now)
unfolding accept_resource_quote
accept-IsSound s user request_id quote_id now h =
    option_cases (After IsSound) (get request_id s.requests) _ _ (λ _. stay h)
      λ request e.
        option_cases (After IsSound) (get quote_id s.quotes) _ _ (λ _. stay h)
          λ quote _.
            if_cases (After IsSound)
              (request.owner_user_id == user
                && (quote.resource_request_id == request_id
                    && (is_offered quote.state
                        && (is_open request.state && not (is_expired quote.expires_at now)))))
              _ _
              (λ allowed. stay (
                accepted-IsSound s request_id quote_id now request _ _ e (ground arith) refl refl
                  (ground (arith, eq_iff quote.resource_request_id request_id)) h))
              (λ _. stay h)
