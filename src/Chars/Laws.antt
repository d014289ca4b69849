-- ===== src/Chars/Laws.antt =====
-- The value of digit strings.
use machina_sol.Prelude.{
  true, nat_eq_iff, ℕ, zero, suc, ◌+◌, ◌-◌, ◌*◌, ◌/◌, ◌%◌, ◌^◌, ◌<◌, ◌≡◌, refl, ap, ◌∙◌, [], ◌∷◌,
  ◌++◌, ltb, arith, length, inl, inr, Bool-cases,
}
use native.Mathlib.Nat.{pow-suc}
use machina_sol.Chars.{chars_eq, Chars, value_from, big_int, print_from, print}

-- The value of the digits read so far counts once for each digit to come.
pub value_from-eq : (acc : ℕ) (cs : Chars) → value_from acc cs ≡ acc * 10 ^ length cs + big_int cs
unfolding value_from big_int
value_from-eq acc [] = omega arith
value_from-eq acc (c ∷ cs) = rw (pow-suc 10 (length cs)) (
    omega (arith, value_from-eq (acc * 10 + (c - b'0')) cs, value_from-eq (0 * 10 + (c - b'0')) cs))

value_from-append :
    (acc : ℕ) (xs ys : Chars) → value_from acc (xs ++ ys) ≡ value_from (value_from acc xs) ys
unfolding value_from
value_from-append acc [] ys = refl
value_from-append acc (x ∷ xs) ys = value_from-append (acc * 10 + (x - b'0')) xs ys

pub big_int-append : (xs ys : Chars) → big_int (xs ++ ys) ≡ big_int xs * 10 ^ length ys + big_int ys
unfolding big_int
big_int-append xs ys = value_from-append 0 xs ys ∙ value_from-eq (value_from 0 xs) ys

pub big_int-cons :
    (c : ℕ) (cs : Chars) → big_int (c ∷ cs) ≡ (c - b'0') * 10 ^ length cs + big_int cs
unfolding big_int value_from
big_int-cons c cs =
    value_from-eq (0 * 10 + (c - b'0')) cs
    ∙ ap (λ (d : ℕ). d * 10 ^ length cs + big_int cs) (omega arith)

big_int-digit : (d : ℕ) (cs : Chars) → big_int ((b'0' + d) ∷ cs) ≡ d * 10 ^ length cs + big_int cs
big_int-digit d cs =
    big_int-cons (b'0' + d) cs ∙ ap (λ (e : ℕ). e * 10 ^ length cs + big_int cs) (omega arith)

-- n = 10 * (n / 10) + n % 10, scaled
regroup : (n p : ℕ) → n / 10 * (p * 10) + n % 10 * p ≡ n * p
regroup n p =
    let e : n ≡ n / 10 * 10 + n % 10 = omega arith in omega (arith, ap (λ (t : ℕ). t * p) e)

big_int-print_from :
    (fuel n : ℕ) (acc : Chars)
    → n < fuel
    → big_int (print_from fuel n acc) ≡ n * 10 ^ length acc + big_int acc
unfolding print_from
big_int-print_from zero n acc h = absurd (omega arith)
big_int-print_from (suc fuel) n acc h = elim (Bool-cases (ltb n 10)) [
  | inl small ↦ rw small (big_int-digit n acc)
  | inr large ↦ rw large (
      omega (
        arith,
        big_int-print_from fuel (n / 10) ((b'0' + n % 10) ∷ acc) (ground arith),
        big_int-digit (n % 10) acc,
        ap (λ (t : ℕ). n / 10 * t) (pow-suc 10 (length acc)),
        regroup n (10 ^ length acc),
      ))
]

pub big_int-print : (n : ℕ) → big_int (print n) ≡ n
unfolding print big_int
big_int-print n = omega (arith, big_int-print_from (suc n) n [] (omega arith))

pub chars_eq-eq : (a b : Chars) → chars_eq a b ≡ true → a ≡ b
unfolding chars_eq
chars_eq-eq [] [] h = refl
chars_eq-eq [] (b ∷ bs) h = ground arith
chars_eq-eq (a ∷ as') [] h = ground arith
chars_eq-eq (a ∷ as') (b ∷ bs) h = ground (arith, chars_eq-eq as' bs, nat_eq_iff a b)
