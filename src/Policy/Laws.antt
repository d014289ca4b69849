-- ===== src/Policy/Laws.antt =====
-- What it means that a policy has no objection.
use machina_sol.Prelude.{
  ℕ, ◌*◌, ◌^◌, ◌≤◌, ◌<◌, ◌≡◌, refl, ap, ◌∙◌, String, Bool, true, false, some, List, [], ◌++◌, codes,
  includes, Result, ok, err, bind-eq-ok, arith,
}
use machina_sol.Chars.{trim}
use machina_sol.Decimal.{
  Parts, match_decimal, mantissa, places, decimal_to_base_units, assert_positive_decimal_amount,
}
use machina_sol.Decimal.Exact.{decimal_amount_gt-exact}
use machina_sol.Policy.{
  SettlementAmountLimit, decide, evaluate_settlement_amount_limit, amount_exceeds_limit,
  PolicyProfile, IntentInput, reason_if, succeeds, exceeding, forbidden_role,
  validate_policy_for_intent,
}

decide-accepted :
    (amount maximum : Result ℕ) (decimals : ℕ)
    → (decide amount maximum decimals).accepted ≡ true
    → (a m : ℕ) × (amount ≡ ok a) × (maximum ≡ ok m) × (a ≤ m)
unfolding decide
decide-accepted (ok a) (ok m) decimals h = (a, m, refl, refl, ground arith)
decide-accepted (ok a) (err e) decimals h = absurd (ground arith)
decide-accepted (err e) maximum decimals h = absurd (ground arith)

-- An amount that is accepted converts, and so does its limit, and in base units it is at most the
-- limit.
pub evaluate_settlement_amount_limit-accepted :
    (input : SettlementAmountLimit)
    → (evaluate_settlement_amount_limit input).accepted ≡ true
    → (a m : ℕ) × (decimal_to_base_units
          (codes input.amount)
          (evaluate_settlement_amount_limit input).decimals
        ≡ ok a)
      × (decimal_to_base_units
            (codes input.max_amount)
            (evaluate_settlement_amount_limit input).decimals
          ≡ ok m)
      × (a ≤ m)
unfolding evaluate_settlement_amount_limit
evaluate_settlement_amount_limit-accepted input h =
    decide-accepted _ _ (evaluate_settlement_amount_limit input).decimals h

-- What a policy allows.
pub record IsAllowed (policy : PolicyProfile) (input : IntentInput) : Type 0 where
  pub rail : includes input.chain policy.allowed_rails ≡ true
  pub asset : includes input.asset policy.allowed_assets ≡ true
  pub role : forbidden_role input.role policy.machine_roles ≡ false
  -- As decimals, the amount is not more than the limit.
  pub amount :
      (p q : Parts) × (match_decimal (trim (codes input.amount)) ≡ some p)
      × (match_decimal (trim (codes policy.max_amount_per_intent)) ≡ some q)
      × ¬ (mantissa q * 10 ^ places p < mantissa p * 10 ^ places q)

no_reasons :
    (a b c d e : Bool) (p q r s t : String)
    → reason_if a p ++ reason_if b q ++ reason_if c r ++ reason_if d s ++ reason_if e t ≡ []
    → (a ≡ false) × (b ≡ false) × (c ≡ false) × (d ≡ false) × (e ≡ false)
no_reasons a b c d e p q r s t h =
    (ground arith, ground arith, ground arith, ground arith, ground arith)

within_limit :
    (valid : Bool) (policy : PolicyProfile) (input : IntentInput)
    → valid ≡ true
    → exceeding valid policy input ≡ ok false
    → (p q : Parts) × (match_decimal (trim (codes input.amount)) ≡ some p)
      × (match_decimal (trim (codes policy.max_amount_per_intent)) ≡ some q)
      × ¬ (mantissa q * 10 ^ places p < mantissa p * 10 ^ places q)
unfolding exceeding amount_exceeds_limit
within_limit false policy input v h = absurd (ground arith)
within_limit true policy input v h =
    let (p, q, e, f, iff) =
      decimal_amount_gt-exact (codes input.amount) (codes policy.max_amount_per_intent) _ false h in
    (p, q, e, f, λ more. ground (arith, iff.1 more))

-- An intent without objections is on an allowed rail, in an allowed asset, for an allowed role, and
-- its amount, as a decimal, is at most the limit.
pub validate_policy_for_intent-IsAllowed :
    (policy : PolicyProfile) (input : IntentInput)
    → validate_policy_for_intent policy input ≡ ok []
    → IsAllowed policy input
unfolding validate_policy_for_intent
validate_policy_for_intent-IsAllowed policy input h =
    let (exceeded, ran, none_left) =
      bind-eq-ok
        (exceeding (succeeds (assert_positive_decimal_amount (codes input.amount) 9)) policy input)
        _ h in
    let (rail, asset, valid, limit, role) = no_reasons _ _ _ _ _ _ _ _ _ _ (ok_inj none_left) in
    record {
      rail = ground arith;
      asset = ground arith;
      role = role;
      amount = within_limit _ policy input (ground arith) (ran ∙ ap ok limit);
    }
  where
    ok_inj : {a b : List String} → ok a ≡ ok b → a ≡ b
    ok_inj e = ground arith
