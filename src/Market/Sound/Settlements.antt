-- ===== src/Market/Sound/Settlements.antt =====
-- Settlements stay sound: one for a request, and one for a signature.
use machina_sol.Prelude.{
  String, ◌≡◌, refl, sym, true, false, not, ◌&&◌, ◌||◌, none, some, arith, ◌==◌, eq_iff, eq_refl,
  if_cases, option_cases,
}
use machina_sol.Dict.{Dict, get, put}
use machina_sol.Dict.Laws.{get-put, any-values-false}
use machina_sol.Dict.Unique.{IsUnique, Inherits, Inherits-IsUnique, put-Inherits, put-IsUnique}
use machina_sol.Store.Types.{PersistentResourceRequest, SettlementRecord, SettlementState}
use machina_sol.Store.State.{ProductionStore}
use machina_sol.Store.Requests.{same_option}
use machina_sol.Store.Settlements.{
  is_blank, may_settle, has_settlement_for, create_settlement_for_accepted_request, SettlementPatch,
  apply_patch, same_settlement_state, is_claimed, transition_settlement,
}
use machina_sol.Market.{settled_for, signed_by, IsSound}
use machina_sol.Market.Sound.Parts.{change_settlements-IsSound, After, stay}

put_own-ids :
    (k : String) (t : SettlementRecord) (m : Dict SettlementRecord)
    → t.id ≡ k
    → ((j : String) (u : SettlementRecord) → get j m ≡ some u → u.id ≡ j)
    → (j : String) (u : SettlementRecord) → get j (put k t m) ≡ some u
    → u.id ≡ j
put_own-ids k t m e ids j u f = ground (arith, get-put j k t m, eq_iff k j, ids j u)

fresh_settlement :
    (s : ProductionStore) (r t : SettlementRecord) (request : PersistentResourceRequest)
    (j id : String)
    → has_settlement_for s request.id ≡ false
    → r.resource_request_id ≡ request.id
    → get j s.settlements ≡ some t
    → settled_for t ≡ some id
    → settled_for r ≡ some id
    → j ≡ r.id
unfolding has_settlement_for
fresh_settlement s r t request j id free same e f new = absurd (
    ground (
      arith,
      eq_iff t.resource_request_id request.id,
      any-values-false (λ x. x.resource_request_id == request.id) j t s.settlements,
    ))

-- A new settlement has no signature.
unsigned_of_blank : (r : SettlementRecord) → is_blank r ≡ true → signed_by r ≡ none
unfolding is_blank
unsigned_of_blank r h = ground arith

pub create_settlement-IsSound :
    (s : ProductionStore) (r : SettlementRecord)
    → IsSound s
    → After IsSound (create_settlement_for_accepted_request s r)
unfolding create_settlement_for_accepted_request
create_settlement-IsSound s r h =
    option_cases (After IsSound) (get r.resource_request_id s.requests) _ _ (λ _. stay h)
      λ request e.
        option_cases (After IsSound) (get r.resource_quote_id s.quotes) _ _ (λ _. stay h)
          λ quote _.
            if_cases (After IsSound) (is_blank r && may_settle s r request quote) _ _
              (λ allowed. stay (
                change_settlements-IsSound s _
                  (put_own-ids r.id r s.settlements refl h.settlement_ids)
                  (put-IsUnique settled_for r.id r s.settlements h.one_settlement (λ j t id.
                    fresh_settlement s r t request j id (unfold may_settle in ground arith)
                      (sym (h.request_ids r.resource_request_id request e))))
                  (Inherits-IsUnique signed_by
                    (put-Inherits signed_by r.id r s.settlements
                      (λ t f. absurd (ground (arith, unsigned_of_blank r))))
                    h.one_signature)
                  h))
              (λ _. stay h)

-- The settlement of a request changes, but not its request.
put_patched-Inherits :
    (k : String) (t : SettlementRecord) (patch : SettlementPatch) (m : Dict SettlementRecord)
    → get k m ≡ some t
    → Inherits settled_for m (put k (apply_patch t patch) m)
unfolding apply_patch
put_patched-Inherits k t patch m e = put-Inherits settled_for k _ m λ id f. (t, e, f)

-- A signature that the patch sets is no other settlement's; without one the old one stays.
put_signed-IsUnique :
    (s : ProductionStore) (k : String) (t : SettlementRecord) (patch : SettlementPatch)
    → get k s.settlements ≡ some t
    → is_claimed s k patch.transaction_signature ≡ false
    → IsSound s
    → IsUnique signed_by (put k (apply_patch t patch) s.settlements)
unfolding apply_patch is_claimed
put_signed-IsUnique s k t patch e free h =
    put-IsUnique signed_by k _ s.settlements h.one_signature λ j u signature f g new. ground (
      arith,
      eq_refl signature,
      eq_iff u.id k,
      h.settlement_ids j u,
      h.one_signature.agree j k u t signature,
      any-values-false
          (λ x. not (x.id == k) && same_option x.transaction_signature (some signature)) j u
          s.settlements,
    )

pub transition_settlement-IsSound :
    (s : ProductionStore) (user settlement_id : String) (from : SettlementState)
    (patch : SettlementPatch)
    → IsSound s
    → After IsSound (transition_settlement s user settlement_id from patch)
unfolding transition_settlement
transition_settlement-IsSound s user settlement_id from patch h =
    option_cases (After IsSound) (get settlement_id s.settlements) _ _ (λ _. stay h)
      λ t e.
        if_cases (After IsSound)
          (not (t.owner_user_id == user)
            || (not (same_settlement_state t.state from)
                || is_claimed s settlement_id patch.transaction_signature))
          _ _ (λ _. stay h)
          (λ allowed. stay (
            change_settlements-IsSound s _
              (put_own-ids settlement_id (apply_patch t patch) s.settlements
                (unfold apply_patch in h.settlement_ids settlement_id t e) h.settlement_ids)
              (Inherits-IsUnique settled_for
                (put_patched-Inherits settlement_id t patch s.settlements e) h.one_settlement)
              (put_signed-IsUnique s settlement_id t patch e (ground arith) h) h))
