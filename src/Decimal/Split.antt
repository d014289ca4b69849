-- ===== src/Decimal/Split.antt =====
-- How a decimal text falls apart at its dot.
use machina_sol.Prelude.{
  ℕ, ◌≡◌, refl, true, false, ◌&&◌, Option, none, some, [], ◌∷◌, ◌++◌, nat_eq, all, arith, inl, inr,
  Bool-cases,
}
use machina_sol.Chars.{Chars, is_digit, is_digits}
use machina_sol.Decimal.{
  Parts, before_dot, after_dot, is_digits1, is_fraction, match_decimal, digits_of, strip_leading,
}

not_dot : (c : ℕ) → is_digit c ≡ true → nat_eq c b'.' ≡ false
unfolding is_digit
not_dot c h = ground arith

pub before_dot-digits : (w : Chars) → is_digits w ≡ true → before_dot w ≡ w
unfolding before_dot is_digits all
before_dot-digits [] h = refl
before_dot-digits (c ∷ cs) h = ground (arith, not_dot c, before_dot-digits cs)

pub after_dot-digits : (w : Chars) → is_digits w ≡ true → after_dot w ≡ none
unfolding after_dot is_digits all
after_dot-digits [] h = refl
after_dot-digits (c ∷ cs) h = ground (arith, not_dot c, after_dot-digits cs)

pub before_dot-append : (w g : Chars) → is_digits w ≡ true → before_dot (w ++ (b'.' ∷ g)) ≡ w
unfolding before_dot is_digits all
before_dot-append [] g h = refl
before_dot-append (c ∷ cs) g h = ground (arith, not_dot c, before_dot-append cs g)

pub after_dot-append : (w g : Chars) → is_digits w ≡ true → after_dot (w ++ (b'.' ∷ g)) ≡ some g
unfolding after_dot is_digits all
after_dot-append [] g h = refl
after_dot-append (c ∷ cs) g h = ground (arith, not_dot c, after_dot-append cs g)

pub strip_leading-digits : (w : Chars) → is_digits w ≡ true → is_digits (strip_leading w) ≡ true
unfolding strip_leading is_digits all
strip_leading-digits [] h = refl
strip_leading-digits (c ∷ []) h = h
strip_leading-digits (c ∷ d ∷ ds) h = ground (arith, strip_leading-digits (d ∷ ds))

-- The parts of a match are digits.
pub match_decimal-whole :
    (text : Chars) (p : Parts) → match_decimal text ≡ some p → is_digits p.whole ≡ true
unfolding match_decimal is_digits1
match_decimal-whole text p h =
    elim (Bool-cases (is_digits1 (before_dot text) && is_fraction (after_dot text))) [
      | inl e ↦ ground (arith, digits1-digits (before_dot text))
      | inr e ↦ ground arith
    ]
  where
    digits1-digits : (cs : Chars) → is_digits1 cs ≡ true → is_digits cs ≡ true
    digits1-digits [] k = ground arith
    digits1-digits (c ∷ cs) k = k

fraction-digits : (o : Option Chars) → is_fraction o ≡ true → is_digits (digits_of o) ≡ true
unfolding is_fraction is_digits1 is_digits all
fraction-digits none h = refl
fraction-digits (some []) h = ground arith
fraction-digits (some (c ∷ cs)) h = h

pub match_decimal-fraction :
    (text : Chars) (p : Parts)
    → match_decimal text ≡ some p
    → is_digits (digits_of p.fraction) ≡ true
unfolding match_decimal
match_decimal-fraction text p h =
    elim (Bool-cases (is_digits1 (before_dot text) && is_fraction (after_dot text))) [
      | inl e ↦ ground (arith, fraction-digits (after_dot text))
      | inr e ↦ ground arith
    ]
