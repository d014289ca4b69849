-- ===== src/Decimal/Exact.antt =====
-- Base units are exact: no rounding, no overflow, and comparisons are those of the rational numbers.
use Prim.Native.Nat.{compare, Ordering}
use machina_sol.Prelude.{
  ℕ, zero, suc, ◌+◌, ◌-◌, ◌*◌, ◌^◌, ◌≤◌, ◌<◌, ◌≡◌, ◌↔◌, refl, sym, ap, ◌∙◌, Bool, true, false, ◌&&◌,
  some, [], ◌∷◌, ◌++◌, nat_eq, all, arith, length, take, inl, inr, Option-cases, Result, ok,
  bind-eq-ok, subst,
}
use native.Mathlib.Nat.{one-le-pow, mul-lt-mul_of_pos_right, lt_of_mul-lt-mul_right}
use machina_sol.Chars.{Chars, trim, is_digit, is_digits, big_int}
use machina_sol.Chars.Laws.{big_int-append, big_int-cons}
use machina_sol.Decimal.{
  mantissa, places, Parts, before_dot, after_dot, match_decimal, digits_of, strip_leading,
  strip_trailing, is_zeros, or_zero, zeros, join, normalize_decimal_amount, base_units,
  decimal_to_base_units, compare_decimal_amounts, decimal_amount_gt,
}
use machina_sol.Decimal.Split.{
  before_dot-digits, after_dot-digits, before_dot-append, after_dot-append, strip_leading-digits,
  match_decimal-whole, match_decimal-fraction,
}
use machina_sol.Decimal.Laws.{
  pow_add, big_int-strip_leading, big_int-nil, Stripped, strip_trailing-Stripped, big_int-or_zero,
  big_int-padded,
}

-- `u` is the amount in units of 10 ^ -d.
abbrev pub IsExact : Parts → ℕ → ℕ → Type 0
IsExact p d u = u * 10 ^ places p ≡ mantissa p * 10 ^ d

-- The arithmetic of a fraction `g` that went through strip and pad.
padded_value :
    (bg bf lg lf z d : ℕ)
    → lg + z ≡ lf
    → bg * 10 ^ z ≡ bf
    → lg ≤ d
    → bg * 10 ^ (d - lg) * 10 ^ lf ≡ bf * 10 ^ d
padded_value bg bf lg lf z d l e h =
    let split : 10 ^ d ≡ 10 ^ (d - lg) * 10 ^ lg =
      ap (λ (t : ℕ). 10 ^ t) (omega arith) ∙ pow_add (d - lg) lg in
    let split' : 10 ^ lf ≡ 10 ^ lg * 10 ^ z = ap (λ (t : ℕ). 10 ^ t) (sym l) ∙ pow_add lg z in
    rw (split, split', ← e) (omega arith)

big_int_zero_digit : big_int (b'0' ∷ []) ≡ 0
big_int_zero_digit = big_int-cons b'0' [] ∙ (rw big_int-nil (omega arith))

zero_value : (z n : ℕ) → big_int [] * 10 ^ z ≡ n → n ≡ 0
zero_value z n e = sym e ∙ ap (λ (t : ℕ). t * 10 ^ z) big_int-nil ∙ (omega arith)

-- The value that base_units computes from a fraction, and what the fraction was worth.
fraction_value :
    (cs : Chars) (d : ℕ)
    → length (or_zero (strip_trailing cs)) ≤ d
    → big_int (or_zero (take d (or_zero (strip_trailing cs) ++ zeros d))) * 10 ^ length cs
      ≡ big_int cs * 10 ^ d
fraction_value cs d h = go (strip_trailing cs) (strip_trailing-Stripped cs) h
  where
    go :
        (g : Chars)
        → Stripped cs g
        → length (or_zero g) ≤ d
        → big_int (or_zero (take d (or_zero g ++ zeros d))) * 10 ^ length cs ≡ big_int cs * 10 ^ d
    go [] s k =
        rw
          (
            big_int-or_zero (take d ((b'0' ∷ []) ++ zeros d)),
            big_int-padded (b'0' ∷ []) d k,
            big_int_zero_digit,
            zero_value s.zeros (big_int cs) s.scaled,
          )
          (omega arith)
    go (c ∷ g) s k =
        rw (big_int-or_zero (take d ((c ∷ g) ++ zeros d)), big_int-padded (c ∷ g) d k)
          (padded_value (big_int (c ∷ g)) (big_int cs) (length (c ∷ g)) (length cs) s.zeros d
            s.lengths s.scaled k)

base_units-eq-ok :
    (text w f : Chars) (d u : ℕ)
    → before_dot text ≡ w
    → digits_of (after_dot text) ≡ f
    → base_units text d ≡ ok u
    → (length f ≤ d) × (u ≡ big_int w * 10 ^ d + big_int (or_zero (take d (f ++ zeros d))))
unfolding base_units
base_units-eq-ok text w f d u p q h = ground arith

base_units-join :
    (whole fraction : Chars) (d u : ℕ)
    → is_digits whole ≡ true
    → base_units (join whole fraction) d ≡ ok u
    → u * 10 ^ length fraction ≡ big_int (whole ++ fraction) * 10 ^ d
unfolding join
base_units-join whole [] d u w h =
    let digits = strip_leading-digits whole w in
    let r =
      base_units-eq-ok (strip_leading whole) (strip_leading whole) [] d u
        (before_dot-digits (strip_leading whole) digits)
        (ap digits_of (after_dot-digits (strip_leading whole) digits)) h in
    rw
      (
        r.1,
        big_int-append whole [],
        big_int-strip_leading whole,
        big_int-or_zero (take d ([] ++ zeros d)),
        big_int-padded [] d r.0,
        big_int-nil,
      )
      (omega arith)
base_units-join whole (c ∷ cs) d u w h =
    let digits = strip_leading-digits whole w in
    let g = or_zero (strip_trailing (c ∷ cs)) in
    let r =
      base_units-eq-ok (join whole (c ∷ cs)) (strip_leading whole) g d u
        (before_dot-append (strip_leading whole) g digits)
        (ap digits_of (after_dot-append (strip_leading whole) g digits)) h in
    rw (r.1, big_int-append whole (c ∷ cs), big_int-strip_leading whole)
      (omega (arith, fraction_value (c ∷ cs) d r.0))

normalize-eq-ok :
    (amount n : Chars)
    → normalize_decimal_amount amount ≡ ok n
    → (p : Parts) × (match_decimal (trim amount) ≡ some p)
      × (n ≡ join p.whole (digits_of p.fraction))
      × (nat_eq (big_int p.whole) 0 && is_zeros (digits_of p.fraction) ≡ false)
unfolding normalize_decimal_amount
normalize-eq-ok amount n h = elim (Option-cases (match_decimal (trim amount))) [
  | inl e ↦ ground arith
  | inr (p, e) ↦ (p, e, ground arith, ground arith)
]

pub pow_pos : (n : ℕ) → 0 < 10 ^ n
pow_pos n = one-le-pow n 10 (omega arith)

mul-pos_zero : (a b : ℕ) → 0 < b → a * b ≡ 0 → a ≡ 0
mul-pos_zero zero b h e = refl
mul-pos_zero (suc a) b h e = absurd (grind arith)

-- Digits worth nothing are zeros.
is_zeros-of_value : (cs : Chars) → is_digits cs ≡ true → big_int cs ≡ 0 → is_zeros cs ≡ true
unfolding is_digits is_digit is_zeros all
is_zeros-of_value [] h e = refl
is_zeros-of_value (c ∷ cs) h e =
    let sum : (c - b'0') * 10 ^ length cs + big_int cs ≡ 0 = sym (big_int-cons c cs) ∙ e in
    let head : c - b'0' ≡ 0 =
      mul-pos_zero (c - b'0') (10 ^ length cs) (pow_pos (length cs)) (omega arith) in
    ground (arith, is_zeros-of_value cs)

units_pos :
    (p : Parts) (d u : ℕ)
    → is_digits (digits_of p.fraction) ≡ true
    → nat_eq (big_int p.whole) 0 && is_zeros (digits_of p.fraction) ≡ false
    → IsExact p d u
    → 0 < u
units_pos p d zero f nz e =
    let l = places p in
    let m : mantissa p ≡ 0 =
      mul-pos_zero (mantissa p) (10 ^ d) (pow_pos d) (sym e ∙ (omega arith)) in
    let sum : big_int p.whole * 10 ^ l + big_int (digits_of p.fraction) ≡ 0 =
      sym (big_int-append p.whole (digits_of p.fraction)) ∙ m in
    let whole : big_int p.whole ≡ 0 =
      mul-pos_zero (big_int p.whole) (10 ^ l) (pow_pos l) (omega arith) in
    ground (arith, is_zeros-of_value (digits_of p.fraction) f (omega arith))
units_pos p d (suc u) f nz e = omega arith

-- When the conversion succeeds, the amount is a decimal number of which the result is the exact
-- value in units of 10 ^ -decimals, and the result is positive.
pub decimal_to_base_units-IsExact :
    (amount : Chars) (decimals u : ℕ)
    → decimal_to_base_units amount decimals ≡ ok u
    → (p : Parts) × (match_decimal (trim amount) ≡ some p) × IsExact p decimals u × (0 < u)
unfolding decimal_to_base_units
decimal_to_base_units-IsExact amount decimals u h =
    let steps =
      bind-eq-ok (normalize_decimal_amount amount) (λ n. base_units n decimals) (ground arith) in
    let (p, matched, joined, positive) = normalize-eq-ok amount steps.0 steps.1 in
    let exact =
      base_units-join p.whole (digits_of p.fraction) decimals u
        (match_decimal-whole (trim amount) p matched)
        (subst (λ n. base_units n decimals ≡ ok u) joined steps.2) in
    (
      p,
      matched,
      exact,
      units_pos p decimals u (match_decimal-fraction (trim amount) p matched) positive exact,
    )

-- Scaling both sides of a comparison by positive factors keeps it.
cross_lt :
    (u v a b m n s : ℕ)
    → 0 < a
    → 0 < b
    → 0 < s
    → u * a ≡ m * s
    → v * b ≡ n * s
    → (v < u) ↔ (n * a < m * b)
cross_lt u v a b m n s pa pb ps eu ev = (there, back)
  where
    left : n * a * s ≡ v * (a * b)
    left = omega (arith, ap (λ (t : ℕ). t * a) ev)

    right : m * b * s ≡ u * (a * b)
    right = omega (arith, ap (λ (t : ℕ). t * b) eu)

    pab : 0 < a * b
    pab = grind arith

    there : v < u → n * a < m * b
    there h = lt_of_mul-lt-mul_right s (rw (left, right) (mul-lt-mul_of_pos_right h pab))

    back : n * a < m * b → v < u
    back h = lt_of_mul-lt-mul_right (a * b) (rw (← left, ← right) (mul-lt-mul_of_pos_right h ps))

-- Reading a comparison back from the Boolean that it gives.
gt_of_order :
    (u v : ℕ) (o : Ordering) (b : Bool)
    → ◌≡◌ {A = Result Ordering} (ok (compare u v)) (ok o)
    → ◌≡◌ {A = Result Bool} (ok (elim o [ Ordering.gt ↦ true | _ ↦ false ])) (ok b)
    → (b ≡ true) ↔ (v < u)
gt_of_order u v o b e f = ground arith

-- `left > right` on amounts is the comparison of the rational numbers that they denote.
pub decimal_amount_gt-exact :
    (left right : Chars) (decimals : ℕ) (b : Bool)
    → decimal_amount_gt left right decimals ≡ ok b
    → (p q : Parts) × (match_decimal (trim left) ≡ some p)
      × (match_decimal (trim right) ≡ some q)
      × ((b ≡ true) ↔ (mantissa q * 10 ^ places p < mantissa p * 10 ^ places q))
unfolding decimal_amount_gt compare_decimal_amounts
decimal_amount_gt-exact left right decimals b h =
    let outer = bind-eq-ok (compare_decimal_amounts left right decimals) _ h in
    let first = bind-eq-ok (decimal_to_base_units left decimals) _ outer.1 in
    let second = bind-eq-ok (decimal_to_base_units right decimals) _ first.2 in
    let (p, mp, ep, _) = decimal_to_base_units-IsExact left decimals first.0 first.1 in
    let (q, mq, eq', _) = decimal_to_base_units-IsExact right decimals second.0 second.1 in
    let scaled =
      cross_lt first.0 second.0 (10 ^ places p) (10 ^ places q) (mantissa p) (mantissa q)
        (10 ^ decimals) (pow_pos (places p)) (pow_pos (places q)) (pow_pos decimals) ep eq' in
    let reads = gt_of_order first.0 second.0 outer.0 b second.2 outer.2 in
    (p, q, mp, mq, ((λ t. scaled.0 (reads.0 t)), (λ l. reads.1 (scaled.1 l))))
