-- ===== src/Decimal/Laws.antt =====
-- The values of the parts of an amount.
use machina_sol.Prelude.{
  ℕ, zero, suc, ◌+◌, ◌-◌, ◌*◌, ◌^◌, ◌≤◌, ◌≡◌, refl, sym, ap, ◌∙◌, [], ◌∷◌, ◌++◌, nat_eq, arith,
  length, take, inl, inr, Bool-cases, nat_eq_iff,
}
use native.Mathlib.Nat.{pow-suc, mul_assoc, add-zero}
use machina_sol.Chars.{Chars, value_from, big_int}
use machina_sol.Chars.Laws.{big_int-append, big_int-cons}
use machina_sol.Decimal.{strip_leading, strip_trailing, cons_unless_zero, or_zero, zeros}

pub pow_add : (a b : ℕ) → 10 ^ (a + b) ≡ 10 ^ a * 10 ^ b
pow_add a zero = rw add-zero (omega arith)
pow_add a (suc b) =
    ap (λ (e : ℕ). 10 ^ e) (let e : a + suc b ≡ suc (a + b) = omega arith in e)
    ∙ (rw (pow-suc 10 (a + b), pow-suc 10 b, pow_add a b) (mul_assoc (10 ^ a) (10 ^ b) 10))

big_int-zero_cons : (c : ℕ) (cs : Chars) → c ≡ b'0' → big_int (c ∷ cs) ≡ big_int cs
big_int-zero_cons c cs e = big_int-cons c cs ∙ (rw e (omega arith))

-- Stripping leading zeros keeps the value.
pub big_int-strip_leading : (cs : Chars) → big_int (strip_leading cs) ≡ big_int cs
unfolding strip_leading
big_int-strip_leading [] = refl
big_int-strip_leading (c ∷ []) = refl
big_int-strip_leading (c ∷ d ∷ ds) = elim (Bool-cases (nat_eq c b'0')) [
  | inl e ↦ rw e (
      big_int-strip_leading (d ∷ ds) ∙ sym (big_int-zero_cons c (d ∷ ds) ((nat_eq_iff c b'0').0 e)))
  | inr e ↦ rw e refl
]

pub big_int-nil : big_int [] ≡ 0
unfolding big_int
big_int-nil = refl

-- The zeros that go at the end divide the value by a power of ten.
pub record Stripped (cs ds : Chars) : Type 0 where
  pub zeros : ℕ
  pub lengths : length ds + zeros ≡ length cs
  pub scaled : big_int ds * 10 ^ zeros ≡ big_int cs

scaled-cons :
    (c z : ℕ) (cs ds : Chars)
    → length ds + z ≡ length cs
    → big_int ds * 10 ^ z ≡ big_int cs
    → big_int (c ∷ ds) * 10 ^ z ≡ big_int (c ∷ cs)
scaled-cons c z cs ds l e =
    rw (big_int-cons c ds, big_int-cons c cs, ← l, pow_add (length ds) z) (omega (arith, e))

Stripped-cons : (c : ℕ) (cs ds : Chars) → Stripped cs ds → Stripped (c ∷ cs) (cons_unless_zero c ds)
Stripped-cons c cs [] s = elim (Bool-cases (nat_eq c b'0')) [
  | inl e ↦ rw e (record {
    zeros = suc s.zeros;
    lengths = omega (arith, s.lengths);
    scaled =
        rw (big_int-nil, big_int-zero_cons c cs ((nat_eq_iff c b'0').0 e))
          (omega (arith, s.scaled, ap (λ (t : ℕ). t * 10 ^ s.zeros) big_int-nil));
  })
  | inr e ↦ rw e (record {
    zeros = s.zeros;
    lengths = omega (arith, s.lengths);
    scaled = scaled-cons c s.zeros cs [] s.lengths s.scaled;
  })
]
Stripped-cons c cs (d ∷ ds) s = record {
  zeros = s.zeros;
  lengths = omega (arith, s.lengths);
  scaled = scaled-cons c s.zeros cs (d ∷ ds) s.lengths s.scaled;
}

pub strip_trailing-Stripped : (cs : Chars) → Stripped cs (strip_trailing cs)
unfolding strip_trailing
strip_trailing-Stripped [] = record { zeros = 0; lengths = omega arith; scaled = omega arith }
strip_trailing-Stripped (c ∷ cs) =
    Stripped-cons c cs (strip_trailing cs) (strip_trailing-Stripped cs)

pub big_int-or_zero : (cs : Chars) → big_int (or_zero cs) ≡ big_int cs
unfolding big_int value_from
big_int-or_zero [] = refl
big_int-or_zero (c ∷ cs) = refl

pub big_int-zeros : (n : ℕ) → big_int (zeros n) ≡ 0
unfolding zeros
big_int-zeros zero = big_int-nil
big_int-zeros (suc n) = big_int-zero_cons b'0' (zeros n) refl ∙ big_int-zeros n

length-zeros : (n : ℕ) → length (zeros n) ≡ n
unfolding zeros
length-zeros zero = refl
length-zeros (suc n) = ap suc (length-zeros n)

take-zeros : (d n : ℕ) → d ≤ n → take d (zeros n) ≡ zeros d
unfolding zeros
take-zeros zero n h = refl
take-zeros (suc d) zero h = absurd (omega arith)
take-zeros (suc d) (suc n) h = ap (◌∷◌ b'0') (take-zeros d n (omega arith))

take-padded :
    (g : Chars) (d n : ℕ) → length g ≤ d → d ≤ n → take d (g ++ zeros n) ≡ g ++ zeros (d - length g)
take-padded [] d n h k = take-zeros d n k ∙ ap zeros (omega arith)
take-padded (c ∷ g) zero n h k = absurd (omega arith)
take-padded (c ∷ g) (suc d) n h k =
    ap (◌∷◌ c)
      (take-padded g d n (omega arith) (omega arith) ∙ ap (λ (e : ℕ). g ++ zeros e) (omega arith))

-- Padding a fraction with zeros to `d` places multiplies its value.
pub big_int-padded :
    (g : Chars) (d : ℕ)
    → length g ≤ d
    → big_int (take d (g ++ zeros d)) ≡ big_int g * 10 ^ (d - length g)
big_int-padded g d h =
    ap big_int (take-padded g d d h (omega arith))
    ∙ big_int-append g (zeros (d - length g))
    ∙ (rw (big_int-zeros (d - length g), length-zeros (d - length g)) (omega arith))
