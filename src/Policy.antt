-- ===== src/Policy.antt =====
-- Limits on amounts and policy profiles (src/settlement/policy-limits.ts, src/policy/profiles.ts).
-- There is one chain, and assets and roles are the code's strings.
pub mod Laws
use machina_sol.Prelude.{
  ℕ, String, Bool, true, false, not, ◌||◌, ◌&&◌, nat_eq, ltb, Option, none, some, List, [], ◌∷◌,
  ◌++◌, length, codes, includes, ◌==◌, if◌then◌else◌, Result, ok, err, ◌>>=◌,
}
use machina_sol.Decimal.{
  decimal_to_base_units, decimal_amount_lte, decimal_amount_gt, assert_positive_decimal_amount,
}

pub record SettlementAmountLimit : Type 0 where
  pub asset : Option String
  pub amount : String
  pub max_amount : String
  pub decimals : Option ℕ

pub record SettlementAmountDecision : Type 0 where
  pub accepted : Bool
  pub amount_base_units : Option ℕ
  pub max_base_units : Option ℕ
  pub decimals : ℕ
  pub reasons : List String

unfoldable pub decimals_for_settlement : Option String → ℕ
decimals_for_settlement none = 9
decimals_for_settlement (some asset) = if asset == "USDC" then 6 else 9

value_of : Result ℕ → Option ℕ
value_of (ok n) = some n
value_of (err e) = none

reason_of : Result ℕ → List String
reason_of (ok n) = []
reason_of (err e) = e ∷ []

-- The message also names the maximum.
exceeds : Option ℕ → Option ℕ → List String
exceeds (some a) (some m) = if ltb m a then "amount exceeds policy limit" ∷ [] else []
exceeds _ _ = []

is_empty : List String → Bool
is_empty [] = true
is_empty (x ∷ xs) = false

unfoldable pub decide : Result ℕ → Result ℕ → ℕ → SettlementAmountDecision
unfolding value_of reason_of exceeds is_empty
decide amount maximum decimals =
    let reasons : List String =
      reason_of amount ++ reason_of maximum ++ exceeds (value_of amount) (value_of maximum) in
    record {
      accepted = is_empty reasons;
      amount_base_units = value_of amount;
      max_base_units = value_of maximum;
      decimals = decimals;
      reasons = reasons;
    }

unfoldable pub evaluate_settlement_amount_limit : SettlementAmountLimit → SettlementAmountDecision
unfolding decide
evaluate_settlement_amount_limit input =
    let decimals : ℕ = elim input.decimals [
      | none ↦ decimals_for_settlement input.asset
      | some d ↦ d
    ] in
    decide (decimal_to_base_units (codes input.amount) decimals)
      (decimal_to_base_units (codes input.max_amount) decimals) decimals

-- The message of the error joins the reasons.
unfoldable pub assert_amount_within_limit : SettlementAmountLimit → Result (Unit {0})
assert_amount_within_limit input =
    if (evaluate_settlement_amount_limit input).accepted then ok tt else err "amount is refused"

unfoldable pub amount_within_limit : String → String → Option String → Result Bool
amount_within_limit amount max_amount asset =
    decimal_amount_lte (codes amount) (codes max_amount) (decimals_for_settlement asset)

unfoldable pub amount_exceeds_limit : String → String → Option String → Result Bool
amount_exceeds_limit amount max_amount asset =
    decimal_amount_gt (codes amount) (codes max_amount) (decimals_for_settlement asset)

pub record PolicyProfile : Type 0 where
  pub policy_id : String
  pub display_name : String
  pub allowed_rails : List String
  pub allowed_assets : List String
  pub max_amount_per_intent : String
  pub max_session_budget : Option String
  pub machine_roles : List String
  pub capability_tags : List String

abbrev pub default_policy_profile : PolicyProfile
default_policy_profile = record {
  policy_id = "standard-machine-policy";
  display_name = "Standard machine runtime policy";
  allowed_rails = "solana" ∷ [];
  allowed_assets = "SOL" ∷ "USDC" ∷ [];
  max_amount_per_intent = "1000";
  max_session_budget = some "5000";
  machine_roles = "robot" ∷ "drone" ∷ "sensor" ∷ "edge-node" ∷ [];
  capability_tags = "telemetry" ∷ "receipt-verification" ∷ "caller-wallet-settlement" ∷ [];
}

pub record IntentInput : Type 0 where
  pub chain : String
  pub asset : String
  pub amount : String
  pub role : Option String

abbrev pub reason_if : Bool → String → List String
reason_if true reason = reason ∷ []
reason_if false reason = []

unfoldable pub succeeds : Result (Unit {0}) → Bool
succeeds (ok u) = true
succeeds (err e) = false

-- An amount that is not valid is not compared; a comparison may throw.
unfoldable pub exceeding : Bool → PolicyProfile → IntentInput → Result Bool
exceeding false policy input = ok false
exceeding true policy input =
    amount_exceeds_limit input.amount policy.max_amount_per_intent (some input.asset)

unfoldable pub forbidden_role : Option String → List String → Bool
forbidden_role none roles = false
forbidden_role (some role) roles = not (role == "") && not (includes role roles)

-- The reasons, whose messages also name the rail, the asset, the limit or the role.
unfoldable pub validate_policy_for_intent : PolicyProfile → IntentInput → Result (List String)
unfolding succeeds exceeding forbidden_role
validate_policy_for_intent policy input =
    let amount_valid : Bool = succeeds (assert_positive_decimal_amount (codes input.amount) 9) in
    exceeding amount_valid policy input >>= λ exceeded. ok (
      reason_if (not (includes input.chain policy.allowed_rails)) "rail is not allowed by policy"
      ++ reason_if (not (includes input.asset policy.allowed_assets))
          "asset is not allowed by policy"
      ++ reason_if (not amount_valid) "amount must be greater than zero"
      ++ reason_if exceeded "amount exceeds policy limit"
      ++ reason_if (forbidden_role input.role policy.machine_roles) "machine role is not allowed")
