-- ===== src/Market/Effects/Payment.antt =====
-- What a settlement needs, and what it may become (`createSettlementForAcceptedRequest` and
-- `transitionSettlement` of src/server/production/memory-store.ts).
use machina_sol.Prelude.{
  String, ◌≡◌, ◌≢◌, sym, subst, inl, inr, true, false, ◌&&◌, Option, some, arith, ◌==◌, eq_iff,
  if_cases, option_cases, codes, some_inj,
}
use machina_sol.Dict.{get}
use machina_sol.Dict.Laws.{any-values-false}
use machina_sol.Store.Types.{PersistentResourceRequest, PersistentResourceQuote, SettlementRecord}
use machina_sol.Store.State.{ProductionStore, is_accepted}
use machina_sol.Chars.{big_int}
use machina_sol.Chars.Laws.{chars_eq-eq}
use machina_sol.Decimal.{Parts, match_decimal}
use machina_sol.Store.Lamports.{is_exact_amount, IsProduct, exact_lamports-exact}
use machina_sol.Store.Settlements.{
  is_blank, is_payable, has_wallet, is_wallet_of, has_settlement_for, may_settle,
  create_settlement_for_accepted_request,
}

-- The settlement `r` pays an accepted quote of an accepted request, once.
pub record IsPayment (s : ProductionStore) (r : SettlementRecord) : Type 0 where
  pub request : PersistentResourceRequest
  pub quote : PersistentResourceQuote
  pub of_request : get r.resource_request_id s.requests ≡ some request
  pub of_quote : get r.resource_quote_id s.quotes ≡ some quote
  pub payable : is_payable request.state ≡ true
  pub accepted : is_accepted quote.state ≡ true
  pub quote_of_request : quote.resource_request_id ≡ request.id
  pub payer_owns : request.owner_user_id ≡ r.owner_user_id
  pub in_sol : quote.asset ≡ "SOL"
  -- The payer's wallet is the user's, and the recipient's is the provider machine's.
  pub source : is_wallet_of s r.source_wallet r.owner_user_id ≡ true
  pub recipient : has_wallet r.recipient_wallet (get quote.provider_machine_id s.machines) ≡ true
  -- No other settlement is of the request.
  pub only :
      (k : String) (t : SettlementRecord)
      → get k s.settlements ≡ some t
      → t.resource_request_id ≢ request.id
  -- The lamports are the price times the quantity, to the last one.
  pub exact :
      (p q : Parts)
      → match_decimal (codes quote.amount) ≡ some p
      → match_decimal (codes request.quantity) ≡ some q
      → IsProduct p q (big_int (codes r.amount_lamports))

exact_of_guard :
    (price quantity amount : String) (p q : Parts)
    → is_exact_amount price quantity amount ≡ true
    → match_decimal (codes price) ≡ some p
    → match_decimal (codes quantity) ≡ some q
    → IsProduct p q (big_int (codes amount))
unfolding is_exact_amount
exact_of_guard price quantity amount p q h e f =
    elim (exact_lamports-exact (codes price) (codes quantity) p q e f) [
      | inl (t, made, product) ↦
          subst (λ c. IsProduct p q (big_int c)) (chars_eq-eq t (codes amount) (ground arith))
            product
      | inr (none', _) ↦ absurd (ground arith)
    ]

only_of_guard :
    (s : ProductionStore) (id k : String) (t : SettlementRecord)
    → has_settlement_for s id ≡ false
    → get k s.settlements ≡ some t
    → t.resource_request_id ≢ id
unfolding has_settlement_for
only_of_guard s id k t h e same = ground (
  arith,
  eq_iff t.resource_request_id id,
  any-values-false (λ x. x.resource_request_id == id) k t s.settlements,
)

-- A settlement that is created pays the accepted quote of an accepted or granted request in SOL,
-- from the payer's wallet to the provider's, by the exact amount, and is the only one.
pub create_settlement-IsPayment :
    (s : ProductionStore) (r t : SettlementRecord)
    → (create_settlement_for_accepted_request s r).1 ≡ some t
    → (t ≡ r) × IsPayment s r
unfolding create_settlement_for_accepted_request may_settle
create_settlement-IsPayment s r t =
    option_cases P (get r.resource_request_id s.requests) _ _ (λ _ h. absurd (ground arith))
      λ request e.
        option_cases P (get r.resource_quote_id s.quotes) _ _ (λ _ h. absurd (ground arith))
          λ quote f.
            if_cases P (is_blank r && may_settle s r request quote) _ _
              (λ allowed h. (
                sym (some_inj h),
                record {
                  request = request;
                  quote = quote;
                  of_request = e;
                  of_quote = f;
                  payable = ground arith;
                  accepted = ground arith;
                  quote_of_request = ground (arith, eq_iff quote.resource_request_id request.id);
                  payer_owns = ground (arith, eq_iff request.owner_user_id r.owner_user_id);
                  in_sol = ground (arith, eq_iff quote.asset "SOL");
                  source = ground arith;
                  recipient = ground arith;
                  only = λ k u. only_of_guard s request.id k u (ground arith);
                  exact = λ p q.
                      exact_of_guard quote.amount request.quantity r.amount_lamports p q
                        (ground arith);
                },
              ))
              (λ _ h. absurd (ground arith))
  where
    P : ProductionStore × Option SettlementRecord → Type 0
    P u = u.1 ≡ some t → (t ≡ r) × IsPayment s r
