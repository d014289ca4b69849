-- ===== src/Market/Sound/Parts.antt =====
-- The parts of soundness, each kept by the writes that the calls make.
use machina_sol.Prelude.{
  Result, ok, err, String, ◌≡◌, inl, inr, true, false, none, some, arith, ◌==◌, eq_iff, Bool-cases,
}
use machina_sol.Dict.{Dict, get, put}
use machina_sol.Dict.Laws.{get-put}
use machina_sol.Dict.Unique.{IsUnique, Inherits, Inherits-refl, Inherits-IsUnique}
use machina_sol.Store.Types.{
  PersistentResourceRequest, PersistentResourceQuote, PersistentAccessGrant,
  PersistentResourceReceipt, SettlementRecord,
}
use machina_sol.Store.State.{ProductionStore, is_open}
use machina_sol.Market.{
  after, accepted_for, granted_for, received_for, settled_for, signed_by, IsClosed, IsSound,
}

abbrev pub HasIds : Dict PersistentResourceRequest → Type 0
HasIds m = (k : String) (r : PersistentResourceRequest) → get k m ≡ some r → r.id ≡ k

-- What was closed stays closed.
pub record Closes (m n : Dict PersistentResourceRequest) : Type 0 where
  pub still : (id : String) → IsClosed m id → IsClosed n id

pub Closes-refl : (m : Dict PersistentResourceRequest) → Closes m m
Closes-refl m = record { still = λ id c. c }

pub put-HasIds :
    (k : String) (r : PersistentResourceRequest) (m : Dict PersistentResourceRequest)
    → r.id ≡ k
    → HasIds m
    → HasIds (put k r m)
put-HasIds k r m e h j q f = ground (arith, get-put j k r m, eq_iff k j, h j q)

-- Writing a closed request.
pub put_closed-Closes :
    (k : String) (r : PersistentResourceRequest) (m : Dict PersistentResourceRequest)
    → is_open r.state ≡ false
    → Closes m (put k r m)
put_closed-Closes k r m shut = record {
  still = λ id (q, e, f). elim (Bool-cases (k == id)) [
    | inl same ↦ (r, ground (arith, get-put id k r m), shut)
    | inr other ↦ (q, ground (arith, get-put id k r m), f)
  ];
}

-- Writing a request where none is closed.
pub put_open-Closes :
    (k : String) (r : PersistentResourceRequest) (m : Dict PersistentResourceRequest)
    → ¬ IsClosed m k
    → Closes m (put k r m)
put_open-Closes k r m free = record {
  still = λ id (q, e, f). elim (Bool-cases (k == id)) [
    | inl same ↦ absurd (free (q, (rw ((eq_iff k id).0 same) e), f))
    | inr other ↦ (q, ground (arith, get-put id k r m), f)
  ];
}

pub not-IsClosed_of_open :
    (k : String) (r : PersistentResourceRequest) (m : Dict PersistentResourceRequest)
    → get k m ≡ some r
    → is_open r.state ≡ true
    → ¬ IsClosed m k
not-IsClosed_of_open k r m e open' (q, f, g) = ground arith

pub not-IsClosed_of_none :
    (k : String) (m : Dict PersistentResourceRequest) → get k m ≡ none → ¬ IsClosed m k
not-IsClosed_of_none k m e (q, f, g) = ground arith

-- A change of quotes that accepts none, and of requests that reopens none.
pub change-IsSound :
    (s : ProductionStore) (quotes : Dict PersistentResourceQuote)
    (requests : Dict PersistentResourceRequest)
    → HasIds requests
    → Inherits accepted_for s.quotes quotes
    → Closes s.requests requests
    → IsSound s
    → IsSound (record s { quotes = quotes; requests = requests })
change-IsSound s quotes requests ids inherits closes h = record {
  request_ids = ids;
  one_accepted = Inherits-IsUnique accepted_for inherits h.one_accepted;
  accepted_closed = λ k q id e f.
      let (v, e', f') = inherits.origin k q id e f in
      closes.still id (h.accepted_closed k v id e' f');
  settlement_ids = h.settlement_ids;
  one_grant = h.one_grant;
  one_receipt = h.one_receipt;
  one_settlement = h.one_settlement;
  one_signature = h.one_signature;
}

-- What holds of the store that a call leaves.
pub record After (P : ProductionStore → Type 0) {A : Type 0} (t : ProductionStore × A)
    : Type 0 where
  pub at : P t.0

pub stay :
    {P : ProductionStore → Type 0} {A : Type 0} {s : ProductionStore} {a : A} → P s → After P (s, a)
stay h = record { at = h }

-- What holds of the store after a call that may throw.
pub record AfterResult (P : ProductionStore → Type 0) (s : ProductionStore)
    (t : Result ProductionStore) : Type 0 where
  pub at : P (after s t)

pub refused :
    {P : ProductionStore → Type 0} {s : ProductionStore} {e : String}
    → P s
    → AfterResult P s (err e)
refused h = record { at = h }

pub returned : {P : ProductionStore → Type 0} {s t : ProductionStore} → P t → AfterResult P s (ok t)
returned h = record { at = h }

pub change_requests-IsSound :
    (s : ProductionStore) (requests : Dict PersistentResourceRequest)
    → HasIds requests
    → Closes s.requests requests
    → IsSound s
    → IsSound (record s { requests = requests })
change_requests-IsSound s requests ids closes h =
    change-IsSound s s.quotes requests ids (Inherits-refl accepted_for s.quotes) closes h

pub change_grants-IsSound :
    (s : ProductionStore) (grants : Dict PersistentAccessGrant)
    → IsUnique granted_for grants
    → IsSound s
    → IsSound (record s { grants = grants })
change_grants-IsSound s grants unique h = record {
  request_ids = h.request_ids;
  settlement_ids = h.settlement_ids;
  one_accepted = h.one_accepted;
  accepted_closed = h.accepted_closed;
  one_grant = unique;
  one_receipt = h.one_receipt;
  one_settlement = h.one_settlement;
  one_signature = h.one_signature;
}

pub change_receipts-IsSound :
    (s : ProductionStore) (receipts : Dict PersistentResourceReceipt)
    → IsUnique received_for receipts
    → IsSound s
    → IsSound (record s { resource_receipts = receipts })
change_receipts-IsSound s receipts unique h = record {
  request_ids = h.request_ids;
  settlement_ids = h.settlement_ids;
  one_accepted = h.one_accepted;
  accepted_closed = h.accepted_closed;
  one_grant = h.one_grant;
  one_receipt = unique;
  one_settlement = h.one_settlement;
  one_signature = h.one_signature;
}

pub change_settlements-IsSound :
    (s : ProductionStore) (settlements : Dict SettlementRecord)
    → ((k : String) (t : SettlementRecord) → get k settlements ≡ some t → t.id ≡ k)
    → IsUnique settled_for settlements
    → IsUnique signed_by settlements
    → IsSound s
    → IsSound (record s { settlements = settlements })
change_settlements-IsSound s settlements ids one_request one_signature h = record {
  request_ids = h.request_ids;
  settlement_ids = ids;
  one_accepted = h.one_accepted;
  accepted_closed = h.accepted_closed;
  one_grant = h.one_grant;
  one_receipt = h.one_receipt;
  one_settlement = one_request;
  one_signature = one_signature;
}
