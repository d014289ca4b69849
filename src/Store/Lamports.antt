-- ===== src/Store/Lamports.antt =====
-- Exact decimal arithmetic of the store (`decimalAtMost` and `exactLamports` of
-- src/server/production/memory-store.ts).
use native.Mathlib.Nat.{div-add-mod, mul-mod_left}
use machina_sol.Prelude.{
  ℕ, ◌+◌, ◌-◌, ◌*◌, ◌/◌, ◌%◌, ◌^◌, ◌<◌, String, ◌≡◌, sym, ap, ◌∙◌, Bool, false, Option, none, some,
  [], ◌++◌, arith, leb, nat_eq, max, length, codes, if◌then◌else◌, ◌⊎◌, inl, inr, Bool-cases,
  Option-cases, nat_eq_iff, ◌≢◌,
}
use machina_sol.Chars.{Chars, big_int, print, is_digits, chars_eq}
use machina_sol.Chars.Laws.{big_int-print}
use machina_sol.Decimal.{Parts, match_decimal, mantissa, places, before_dot, after_dot}
use machina_sol.Decimal.Exact.{pow_pos}

-- The second part of input.split('.'), or the default ''.
unfoldable pub second_part : Option Chars → Chars
second_part none = []
second_part (some rest) = before_dot rest

-- `{ digits, scale }`; `none` where `BigInt` refuses the digits. Prices are stored after a check
-- that they are decimals, so signs and hexadecimal digits, which `BigInt` reads too, do not occur.
unfoldable pub parts_of : Chars → Option (ℕ × ℕ)
unfolding second_part
parts_of input =
    let fraction = second_part (after_dot input) in
    let digits = before_dot input ++ fraction in
    if is_digits digits then some (big_int digits, length fraction) else none

unfoldable pub at_most : ℕ × ℕ → ℕ × ℕ → Bool
at_most (left, left_scale) (right, right_scale) =
    let scale = max left_scale right_scale in
    leb (left * 10 ^ (scale - left_scale)) (right * 10 ^ (scale - right_scale))

-- `none` where the code throws.
unfoldable pub decimal_at_most : String → String → Option Bool
unfolding at_most
decimal_at_most value maximum = elim (parts_of (codes value)) [
  | none ↦ none
  | some left ↦ elim (parts_of (codes maximum)) [
    | none ↦ none
    | some right ↦ some (at_most left right)
  ]
]

unfoldable pub lamports_of : Parts → Parts → Option Chars
lamports_of price count =
    let numerator = mantissa price * mantissa count * 1_000_000_000 in
    let divisor = 10 ^ (places price + places count) in
    if nat_eq (numerator % divisor) 0 then some (print (numerator / divisor)) else none

unfoldable pub exact_lamports : Chars → Chars → Option Chars
unfolding lamports_of
exact_lamports unit_price quantity = elim (match_decimal unit_price) [
  | none ↦ none
  | some price ↦ elim (match_decimal quantity) [
    | none ↦ none
    | some count ↦ lamports_of price count
  ]
]

-- exactLamports(unitPrice, quantity) === amountLamports, where `null` equals no text
unfoldable pub is_exact_amount : String → String → String → Bool
is_exact_amount unit_price quantity amount_lamports =
    elim (exact_lamports (codes unit_price) (codes quantity)) [
      | none ↦ false
      | some lamports ↦ chars_eq lamports (codes amount_lamports)
    ]

-- `u` lamports are the price times the quantity, in SOL.
abbrev pub IsProduct : Parts → Parts → ℕ → Type 0
IsProduct price count u =
    u * 10 ^ (places price + places count) ≡ mantissa price * mantissa count * 1_000_000_000

quotient_text-some :
    (n d : ℕ) (t : Chars)
    → 0 < d
    → (if nat_eq (n % d) 0 then some (print (n / d)) else none) ≡ some t
    → big_int t * d ≡ n
quotient_text-some n d t h e = elim (Bool-cases (nat_eq (n % d) 0)) [
  | inl even ↦
      let text : print (n / d) ≡ t = ground arith in
      let value : n / d ≡ big_int t = sym (big_int-print (n / d)) ∙ ap big_int text in
      rw (← value) (omega (arith, div-add-mod n d, (nat_eq_iff (n % d) 0).0 even))
  | inr odd ↦ ground arith
]

quotient_text-none :
    (n d u : ℕ) → (if nat_eq (n % d) 0 then some (print (n / d)) else none) ≡ none → u * d ≢ n
quotient_text-none n d u h e = let even : n % d ≡ 0 = rw (← e) (mul-mod_left u d) in ground arith

-- The amount in lamports is exact: for a price and a quantity that are decimals, the result is the
-- number of lamports that they make, or `none` where they make no whole number of lamports.
pub exact_lamports-exact :
    (unit_price quantity : Chars) (p q : Parts)
    → match_decimal unit_price ≡ some p
    → match_decimal quantity ≡ some q
    → ((t : Chars) × (exact_lamports unit_price quantity ≡ some t) × IsProduct p q (big_int t))
      ⊎ ((exact_lamports unit_price quantity ≡ none) × ((u : ℕ) → ¬ IsProduct p q u))
unfolding exact_lamports
exact_lamports-exact unit_price quantity p q e f =
    let run : exact_lamports unit_price quantity ≡ lamports_of p q = ground arith in
    elim (Option-cases (lamports_of p q)) [
      | inl none' ↦ inr (run ∙ none', λ u. quotient_text-none _ _ u none')
      | inr (t, some') ↦
          inl (t, run ∙ some', quotient_text-some _ _ t (pow_pos (places p + places q)) some')
    ]
