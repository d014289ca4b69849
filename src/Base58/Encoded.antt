-- ===== src/Base58/Encoded.antt =====
-- The text that encodeBase58 writes (src/adapters/solana/validation.ts): its number and its ones.
use mathlib.Core.List.{append-nil}
use machina_sol.Prelude.{
  ℕ, zero, suc, ◌+◌, ◌*◌, ◌/◌, ◌<◌, ◌≡◌, refl, ap, ◌∙◌, sym, subst, Bool, true, false, ◌&&◌, ltb,
  ltb→lt, some, List, [], ◌∷◌, ◌++◌, arith, nat_eq, inl, inr, all, Bool-cases,
}
use native.Mathlib.Nat.{mod-lt}
use machina_sol.Chars.{Chars}
use machina_sol.Base58.{
  alphabet, mul_add, leading, repeat, reverse, encode_digits, char_at, chars_of, drop_only_ones,
}
use machina_sol.Base58.Laws.{value_of, number_from, bytes_value, mul_add-value}
use machina_sol.Base58.Canonical.{is_canonical, canonical, mul_add-canonical, canonical-zero}
use machina_sol.Base58.Alphabet.{
  digit_above, number_from-ones, chars_of-append, number_from-chars_of,
}

-- Digits on top of which none is zero begin with no '1'.
chars_of-cons : (d : ℕ) (ds : List ℕ) → chars_of (d ∷ ds) ≡ char_at d alphabet ∷ chars_of ds
unfolding chars_of
chars_of-cons d ds = refl

unfoldable pub begins_with : ℕ → List ℕ → Bool
begins_with x [] = true
begins_with x (y ∷ ys) = nat_eq y x

-- Something in front, and it is not `x`.
starts_otherwise-append :
    (x : ℕ) (xs ys : List ℕ) → begins_with x xs ≡ false → begins_with x (xs ++ ys) ≡ false
unfolding begins_with
starts_otherwise-append x [] ys h = absurd (ground arith)
starts_otherwise-append x (y ∷ xs) ys h = h

pub leading-repeat :
    (n x : ℕ) (xs : List ℕ) → begins_with x xs ≡ false → leading x (repeat n x ++ xs) ≡ n
unfolding leading repeat begins_with
leading-repeat zero x [] h = refl
leading-repeat zero x (y ∷ xs) h = ground arith
leading-repeat (suc n) x xs h = ground (arith, leading-repeat n x xs)

leading-only : (n x : ℕ) → leading x (repeat n x) ≡ n
unfolding leading repeat
leading-only zero x = refl
leading-only (suc n) x = ground (arith, leading-only n x)

chars_of-starts :
    (d : ℕ) (ds : List ℕ)
    → is_canonical 58 (d ∷ ds) ≡ true
    → begins_with b'1' (chars_of (reverse (d ∷ ds))) ≡ false
unfolding is_canonical value_of reverse chars_of begins_with
chars_of-starts d [] h = digit_above d (ground arith) (ground arith)
chars_of-starts d (e ∷ ds) h = rw (chars_of-append (reverse (e ∷ ds)) d) (
    starts_otherwise-append b'1' (chars_of (reverse (e ∷ ds))) (char_at d alphabet ∷ [])
      (chars_of-starts e ds (ground arith)))

drop_only_ones-starts : (cs : Chars) → begins_with b'1' cs ≡ false → drop_only_ones cs ≡ cs
unfolding drop_only_ones begins_with all
drop_only_ones-starts [] h = refl
drop_only_ones-starts (c ∷ cs) h = ground arith

-- The digits that encodeBase58 keeps: a lowest one, and above it none that is zero on top.
unfoldable pub is_loose : List ℕ → Bool
is_loose [] = false
is_loose (d ∷ ds) = ltb d 58 && is_canonical 58 ds

mul_add-loose : (b : ℕ) (ds : List ℕ) → is_loose ds ≡ true → is_loose (mul_add 58 256 b ds) ≡ true
unfolding is_loose mul_add
mul_add-loose b [] h = absurd (ground arith)
mul_add-loose b (d ∷ ds) h = ground (
  arith,
  mod-lt (b + d * 256) {m = 58} (omega arith),
  mul_add-canonical 58 256 ((b + d * 256) / 58) ds (omega arith) (omega arith),
)

pub encode_digits-loose :
    (ds bs : List ℕ) → is_loose ds ≡ true → is_loose (encode_digits ds bs) ≡ true
unfolding encode_digits
encode_digits-loose ds [] h = h
encode_digits-loose ds (b ∷ bs) h =
    encode_digits-loose (mul_add 58 256 b ds) bs (mul_add-loose b ds h)

pub encode_digits-value :
    (ds bs : List ℕ) → value_of 58 (encode_digits ds bs) ≡ bytes_value (value_of 58 ds) bs
unfolding encode_digits bytes_value
encode_digits-value ds [] = refl
encode_digits-value ds (b ∷ bs) =
    encode_digits-value (mul_add 58 256 b ds) bs
    ∙ ap (λ n. bytes_value n bs) (mul_add-value 58 256 b ds (omega arith))

pub single_zero : is_loose (0 ∷ []) ≡ true
unfolding is_loose is_canonical
single_zero = refl

-- Digits of zero that are kept are the single zero.
loose-zero : (ds : List ℕ) → is_loose ds ≡ true → value_of 58 ds ≡ 0 → ds ≡ 0 ∷ []
unfolding is_loose value_of
loose-zero [] h eq = absurd (ground arith)
loose-zero (d ∷ ds) h eq = ground (arith, canonical-zero 58 ds)

loose-canonical :
    (d : ℕ) (ds : List ℕ)
    → is_loose (d ∷ ds) ≡ true
    → 0 < value_of 58 (d ∷ ds)
    → is_canonical 58 (d ∷ ds) ≡ true
unfolding is_loose
loose-canonical d ds h more = canonical 58 d ds (ground arith) more (ground arith)

canonical-all : (ds : List ℕ) → is_canonical 58 ds ≡ true → all (λ d. ltb d 58) ds ≡ true
unfolding is_canonical all
canonical-all [] h = refl
canonical-all (d ∷ ds) h = ground (arith, canonical-all ds)

-- The text of kept digits, behind `n` ones: none of its own is in front.
unfoldable pub body_of : List ℕ → Chars
unfolding drop_only_ones chars_of reverse
body_of ds = drop_only_ones (chars_of (reverse ds))

body_of-zero : body_of (0 ∷ []) ≡ []
unfolding body_of chars_of reverse drop_only_ones alphabet all
body_of-zero = refl

body_of-canonical :
    (d : ℕ) (ds : List ℕ)
    → is_canonical 58 (d ∷ ds) ≡ true
    → body_of (d ∷ ds) ≡ chars_of (reverse (d ∷ ds))
unfolding body_of
body_of-canonical d ds h =
    drop_only_ones-starts (chars_of (reverse (d ∷ ds))) (chars_of-starts d ds h)

module _ (n : ℕ) where
  unfoldable pub Spells : List ℕ → Type 0
  Spells ds =
      (number_from 0 (repeat n b'1' ++ body_of ds) ≡ some (value_of 58 ds))
      × (leading b'1' (repeat n b'1' ++ body_of ds) ≡ n)

  Spells-zero : Spells (0 ∷ [])
  unfolding Spells value_of number_from
  Spells-zero =
      rw (body_of-zero) (
        number_from-ones n [],
        ap (leading b'1') (append-nil (repeat n b'1')) ∙ leading-only n b'1',
      )

  Spells-canonical : (d : ℕ) (ds : List ℕ) → is_canonical 58 (d ∷ ds) ≡ true → Spells (d ∷ ds)
  unfolding Spells
  Spells-canonical d ds h = rw (body_of-canonical d ds h) (
    number_from-ones n (chars_of (reverse (d ∷ ds)))
        ∙ number_from-chars_of (d ∷ ds) (canonical-all (d ∷ ds) h),
    leading-repeat n b'1' (chars_of (reverse (d ∷ ds))) (chars_of-starts d ds h),
  )

  pub Spells-loose : (ds : List ℕ) → is_loose ds ≡ true → Spells ds
  unfolding is_loose
  Spells-loose [] h = absurd (ground arith)
  Spells-loose (d ∷ ds) h = elim (Bool-cases (ltb 0 (value_of 58 (d ∷ ds)))) [
    | inl more ↦
        Spells-canonical d ds (loose-canonical d ds h (ltb→lt 0 (value_of 58 (d ∷ ds)) more))
    | inr zero_left ↦ subst Spells (sym (loose-zero (d ∷ ds) h (ground arith))) Spells-zero
  ]
