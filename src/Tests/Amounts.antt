-- ===== src/Tests/Amounts.antt =====
-- Amounts, addresses and transactions.
use machina_sol.Prelude.{
  ltb, units, all, ℕ, ◌+◌, ◌*◌, ◌^◌, ◌≤◌, ◌<◌, String, ◌≡◌, ◌↔◌, refl, ◌⊎◌, true, none, some, [],
  ◌∷◌, codes, ok,
}
use machina_sol.Number.{of_nat}
use machina_sol.Json.{safe_nat, Json}
use machina_sol.Chars.{chars_eq, is_digits, Chars, trim, big_int}
use machina_sol.Decimal.{
  compare_decimal_amounts, join, after_dot, is_fraction, before_dot, is_digits1,
  normalize_decimal_amount, Parts, match_decimal, mantissa, places, decimal_to_base_units,
  decimal_amount_gt,
}
use machina_sol.Decimal.Exact.{IsExact, decimal_to_base_units-IsExact, decimal_amount_gt-exact}
use machina_sol.Store.Lamports.{IsProduct, exact_lamports, exact_lamports-exact}
use machina_sol.Base58.{decode_base58, encode_base58, is_solana_signature}
use machina_sol.Base58.RoundTrip.{decode_base58-encode_base58}
use machina_sol.Base58.Laws.{number_from, bytes_value, decode_base58-value}
use machina_sol.Transactions.Flow.{done, Answer, answered, RpcTransport}
use machina_sol.Transactions.Heights.{BlockhashValidity, check_blockhash_validity}
use machina_sol.Transactions.Signed.{submit_signed_transaction}
use machina_sol.Transactions.Confirm.{
  Visibility, TransactionConfirmation, LifecycleInput, TransactionLifecycleAssessment, assess_times,
  assess_transaction_lifecycle,
}
use machina_sol.Transactions.Prepare.{
  Kit, IsInspected, inspect_signed_transaction, inspect_signed_transaction-IsInspected,
}
use machina_sol.Transactions.Submission.{IsSent, IsNotSent, submit_signed_transaction-order}
use machina_sol.Transactions.Laws.{
  IsConsistent, check_blockhash_validity-IsConsistent, assess_transaction_lifecycle-dropped,
  assess_times-pending,
}

one_and_a_half : decimal_to_base_units (codes "01.50") 9 ≡ ok 1_500_000_000
unfolding decimal_to_base_units codes normalize_decimal_amount match_decimal is_digits1 before_dot
    trim is_digits all is_fraction after_dot big_int join
one_and_a_half = refl

decimal_to_base_units-IsExact_example :
    (p : Parts) × (match_decimal (trim (codes "01.50")) ≡ some p)
    × IsExact p 9 1_500_000_000
    × (0 < 1_500_000_000)
decimal_to_base_units-IsExact_example =
    decimal_to_base_units-IsExact (codes "01.50") 9 1_500_000_000 one_and_a_half

more : decimal_amount_gt (codes "1.5") (codes "1.25") 9 ≡ ok true
unfolding decimal_amount_gt codes compare_decimal_amounts decimal_to_base_units
    normalize_decimal_amount match_decimal is_digits1 before_dot trim is_digits all is_fraction
    after_dot big_int join
more = refl

decimal_amount_gt-exact_example :
    (p q : Parts) × (match_decimal (trim (codes "1.5")) ≡ some p)
    × (match_decimal (trim (codes "1.25")) ≡ some q)
    × ((true ≡ true) ↔ (mantissa q * 10 ^ places p < mantissa p * 10 ^ places q))
decimal_amount_gt-exact_example = decimal_amount_gt-exact (codes "1.5") (codes "1.25") 9 true more

abbrev half : Parts
half = record { whole = b'0' ∷ []; fraction = some (b'5' ∷ []) }

abbrev three : Parts
three = record { whole = b'3' ∷ []; fraction = none }

reads_half : match_decimal (codes "0.5") ≡ some half
unfolding match_decimal codes is_digits1 before_dot is_digits all is_fraction after_dot
reads_half = refl

reads_three : match_decimal (codes "3") ≡ some three
unfolding match_decimal codes is_digits1 before_dot is_digits all is_fraction after_dot
reads_three = refl

exact_lamports-exact_example :
    ((t : Chars) × (exact_lamports (codes "0.5") (codes "3") ≡ some t)
      × IsProduct half three (big_int t))
    ⊎ ((exact_lamports (codes "0.5") (codes "3") ≡ none) × ((u : ℕ) → ¬ IsProduct half three u))
exact_lamports-exact_example =
    exact_lamports-exact (codes "0.5") (codes "3") half three reads_half reads_three

decodes : decode_base58 (codes "12Z") ≡ some (0 ∷ 90 ∷ [])
unfolding decode_base58 codes
decodes = refl

decode_base58-value_example : number_from 0 (codes "12Z") ≡ some (bytes_value 0 (0 ∷ 90 ∷ []))
decode_base58-value_example = decode_base58-value (codes "12Z") (0 ∷ 90 ∷ []) decodes

are_bytes : all (λ x. ltb x 256) (0 ∷ 90 ∷ []) ≡ true
unfolding all
are_bytes = refl

decode_base58-encode_base58_example :
    decode_base58 (encode_base58 (0 ∷ 90 ∷ [])) ≡ some (0 ∷ 90 ∷ [])
decode_base58-encode_base58_example = decode_base58-encode_base58 0 (90 ∷ []) are_bytes

-- A node at height 90 that lets simulations succeed.
abbrev height_of : String → Answer
height_of method = answered (Json.number (of_nat 90))

abbrev pub node : RpcTransport
node = record { answer = λ calls method. height_of method; error_text = λ e. "" }

ten_left :
    check_blockhash_validity node "100" []
    ≡ ("getBlockHeight" ∷ [], done (BlockhashValidity.valid 90 100 10))
unfolding check_blockhash_validity is_digits1 is_digits all codes safe_nat big_int
ten_left = refl

check_blockhash_validity-IsConsistent_example : IsConsistent (BlockhashValidity.valid 90 100 10)
check_blockhash_validity-IsConsistent_example =
    check_blockhash_validity-IsConsistent node "100" [] ("getBlockHeight" ∷ [])
      (BlockhashValidity.valid 90 100 10) ten_left

submit_signed_transaction-order_example :
    IsSent node (some "100") [] (submit_signed_transaction node (some "100") [])
    ⊎ IsNotSent [] (submit_signed_transaction node (some "100") [])
submit_signed_transaction-order_example = submit_signed_transaction-order node (some "100") []

abbrev lost : LifecycleInput
lost = record {
  confirmation = TransactionConfirmation.pending Visibility.not_found;
  submitted_at = some 0;
  now = some 1_000;
  pending_timeout_ms = none;
  blockhash_validity = some (BlockhashValidity.expired 120 100 20);
}

lost_is_dropped : assess_transaction_lifecycle lost ≡ some TransactionLifecycleAssessment.dropped
unfolding assess_transaction_lifecycle
lost_is_dropped = refl

assess_transaction_lifecycle-dropped_example :
    (TransactionConfirmation.pending Visibility.not_found
      ≡ TransactionConfirmation.pending Visibility.not_found)
    × ((current last by : ℕ) × (some (BlockhashValidity.expired 120 100 20)
          ≡ some (BlockhashValidity.expired current last by)))
assess_transaction_lifecycle-dropped_example =
    assess_transaction_lifecycle-dropped lost lost_is_dropped

waits :
    assess_times (some 1_000) (some 3_000) (some 6_000)
    ≡ some (TransactionLifecycleAssessment.still_pending 4_000)
unfolding assess_times
waits = refl

assess_times-pending_example : (0 < 4_000) × (4_000 ≤ 5_000) × (2_000 + 4_000 ≤ 6_000)
assess_times-pending_example = assess_times-pending 1_000 3_000 6_000 4_000 waits

-- A signature of 64 bytes whose base58 text is 64 ones.
abbrev ones : String
ones = "1111111111111111111111111111111111111111111111111111111111111111"

abbrev pub kit : Kit
kit = record {
  compile = λ source recipient amount blockhash height memo. none;
  from_base64 = λ text. 1 ∷ 2 ∷ [];
  decode =
      λ bytes. some (record { message_bytes = 7 ∷ []; is_fully_signed = true; signature = ones });
}

inspects : inspect_signed_transaction kit "AQI=" "AAI=" ≡ done (ones, 1 ∷ 2 ∷ [])
unfolding inspect_signed_transaction units chars_eq is_solana_signature codes
inspects = refl

inspect_signed_transaction-IsInspected_example : IsInspected kit "AQI=" "AAI=" ones (1 ∷ 2 ∷ [])
inspect_signed_transaction-IsInspected_example =
    inspect_signed_transaction-IsInspected kit "AQI=" "AAI=" ones (1 ∷ 2 ∷ []) inspects
