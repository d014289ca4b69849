-- ===== src/Tests/Policies.antt =====
-- Networks, evidence and policies.
use machina_sol.Prelude.{
  includes, all, ℕ, ◌≡◌, refl, true, false, none, some, List, [], ◌∷◌, ok, err, codes, any, find,
  ◌==◌,
}
use machina_sol.Json.{Json}
use machina_sol.Transactions.Flow.{answered, RpcTransport}
use machina_sol.Network.{
  verdict_on, known_genesis_hash, resolve_solana_network_expectation, SolanaCluster,
  VerifiedSolanaNetwork, ExpectationOrHash, verify_solana_network, Verdict,
}
use machina_sol.Network.Laws.{IsIdentified, verify_solana_network-IsIdentified}
use machina_sol.Decimal.{
  assert_positive_decimal_amount, decimal_to_base_units, normalize_decimal_amount, match_decimal,
  is_digits1, before_dot, is_fraction, after_dot, join, decimal_amount_gt, compare_decimal_amounts,
  base_units, is_zeros, strip_leading, strip_trailing, zeros,
}
use machina_sol.Chars.{
  chars_eq, trim, is_digits, big_int, is_digit, is_whitespace, trim_end, trim_start, value_from,
}
use machina_sol.Evidence.{
  field_summary, EvidenceSource, ReceiptEvidenceField, ReceiptExpectation, is_unavailable_source,
  not_refuted, canonical_field_name, expected_receipt_field_names,
  summarize_receipt_expectation_evidence,
}
use machina_sol.Evidence.Laws.{summary-evidence}
use machina_sol.Policy.{
  amount_exceeds_limit, decimals_for_settlement, exceeding, forbidden_role, succeeds,
  decimals_for_settlement, SettlementAmountLimit, evaluate_settlement_amount_limit,
  default_policy_profile, IntentInput, validate_policy_for_intent,
}
use machina_sol.Policy.Laws.{IsAllowed, validate_policy_for_intent-IsAllowed}

abbrev genesis_node : RpcTransport
genesis_node = record {
  answer = λ calls method. answered (Json.string "EtWTRABZaYq6iMfeYKouRu166VU2xqa1wcaWoxPkrZBG");
  error_text = λ e. "";
}

abbrev devnet_hash : List ℕ
devnet_hash = codes "EtWTRABZaYq6iMfeYKouRu166VU2xqa1wcaWoxPkrZBG"

abbrev devnet_expected : ExpectationOrHash
devnet_expected =
    ExpectationOrHash.expectation
      (record { cluster = SolanaCluster.devnet; expected_genesis_hash = devnet_hash })

abbrev devnet_verified : VerifiedSolanaNetwork
devnet_verified = record {
  cluster = SolanaCluster.devnet;
  expected_genesis_hash = devnet_hash;
  actual_genesis_hash = devnet_hash;
}

verifies : verify_solana_network genesis_node devnet_expected ≡ Verdict.accepted devnet_verified
unfolding verify_solana_network codes resolve_solana_network_expectation known_genesis_hash trim
    chars_eq verdict_on
verifies = refl

verify_solana_network-IsIdentified_example :
    IsIdentified genesis_node devnet_expected devnet_verified
verify_solana_network-IsIdentified_example =
    verify_solana_network-IsIdentified genesis_node devnet_expected devnet_verified verifies

abbrev memo_expected : ReceiptExpectation
memo_expected = record {
  status = none;
  from = none;
  to = none;
  recipient = none;
  amount = none;
  asset = none;
  memo = some "rent";
  session_id = none;
  machine_id = none;
}

abbrev memo_evidence : List ReceiptEvidenceField
memo_evidence =
    record {
      field = "memo";
      source = EvidenceSource.memo_log;
      matched = some true;
      expected = some "rent";
      actual = some "rent";
      detail = none;
    }
    ∷ []

summary_matches :
    (summarize_receipt_expectation_evidence memo_expected memo_evidence).matched ≡ true
unfolding summarize_receipt_expectation_evidence all expected_receipt_field_names field_summary find
summary_matches = refl

memo_named : any (λ n. n == "memo") (expected_receipt_field_names memo_expected) ≡ true
unfolding expected_receipt_field_names any
memo_named = refl

summary-evidence_example :
    (e : ReceiptEvidenceField) × (find (λ f. canonical_field_name f.field == "memo") memo_evidence
      ≡ some e)
    × (is_unavailable_source e.source ≡ false)
    × (not_refuted e.matched ≡ true)
summary-evidence_example =
    summary-evidence memo_expected memo_evidence "memo" summary_matches memo_named

abbrev small_payment : SettlementAmountLimit
small_payment = record { asset = some "SOL"; amount = "1.5"; max_amount = "2"; decimals = none }

small_accepted : (evaluate_settlement_amount_limit small_payment).accepted ≡ true
unfolding evaluate_settlement_amount_limit codes decimal_to_base_units decimals_for_settlement
    normalize_decimal_amount match_decimal is_digits1 before_dot trim is_digits all is_fraction
    after_dot big_int join
small_accepted = refl

abbrev small_intent : IntentInput
small_intent = record { chain = "solana"; asset = "SOL"; amount = "1.5"; role = some "robot" }

no_objection : validate_policy_for_intent default_policy_profile small_intent ≡ ok []
unfolding validate_policy_for_intent codes assert_positive_decimal_amount decimal_to_base_units
    normalize_decimal_amount match_decimal is_digits1 before_dot trim is_digits all is_fraction
    after_dot big_int join amount_exceeds_limit decimal_amount_gt compare_decimal_amounts
    decimals_for_settlement is_digit is_whitespace trim_end trim_start value_from base_units
    is_zeros strip_leading strip_trailing zeros exceeding forbidden_role succeeds any includes
no_objection = refl

validate_policy_for_intent-IsAllowed_example : IsAllowed default_policy_profile small_intent
validate_policy_for_intent-IsAllowed_example =
    validate_policy_for_intent-IsAllowed default_policy_profile small_intent no_objection

-- A USDC amount with seven decimal places is no reason in the list, but an error.
usdc_throws :
    validate_policy_for_intent default_policy_profile
      (record { chain = "solana"; asset = "USDC"; amount = "1.0000001"; role = none })
    ≡ err "amount has more than the allowed decimal places"
unfolding validate_policy_for_intent codes assert_positive_decimal_amount decimal_to_base_units
    normalize_decimal_amount match_decimal is_digits1 before_dot trim is_digits all is_fraction
    after_dot big_int join amount_exceeds_limit decimal_amount_gt compare_decimal_amounts
    decimals_for_settlement is_digit is_whitespace trim_end trim_start value_from base_units
    is_zeros strip_leading strip_trailing zeros exceeding forbidden_role succeeds any includes
usdc_throws = refl
