-- ===== src/Base58/Laws.antt =====
-- The value of what base58 texts decode to.
use mathlib.Core.Option
use machina_sol.Prelude.{
  ℕ, zero, suc, ◌+◌, ◌*◌, ◌/◌, ◌<◌, ◌≤◌, ◌≡◌, ◌≢◌, refl, ap, ◌∙◌, sym, Option, none, some, List, [],
  ◌∷◌, ◌++◌, arith, nat_eq, Bool-cases, inl, inr, nat_eq_iff, Option-cases,
}
use native.Mathlib.Nat.{div-add-mod, div-lt_self}
use machina_sol.Chars.{Chars}
use machina_sol.Base58.{
  alphabet, index_of, push_carry, mul_add, decode_digits, leading, repeat, reverse, decode_base58,
}

-- The number that digits make, the lowest first.
unfoldable pub value_of : ℕ → List ℕ → ℕ
value_of base [] = 0
value_of base (d ∷ ds) = d + base * value_of base ds

pub positive : (n : ℕ) → n ≢ 0 → 0 < n
positive n nonzero = ground arith

pub smaller : (n base turns : ℕ) → 1 < base → n ≤ suc turns → n ≢ 0 → n / base ≤ turns
smaller n base turns b h nonzero = elim (Bool-cases (nat_eq n 0)) [
  | inl none_left ↦ absurd (nonzero ((nat_eq_iff n 0).0 none_left))
  | inr more ↦ omega (arith, div-lt_self {n = n} {k = base} (positive n nonzero) b)
]

pub push_carry-value :
    (base turns carry : ℕ)
    → 1 < base
    → carry ≤ turns
    → value_of base (push_carry base turns carry) ≡ carry
unfolding push_carry value_of
push_carry-value base zero carry b h = ground arith
push_carry-value base (suc turns) carry b h = elim (Bool-cases (nat_eq carry 0)) [
  | inl none_left ↦ ground (arith, nat_eq_iff carry 0)
  | inr more ↦ ground (
    arith,
    div-add-mod carry base,
    smaller carry base turns,
    push_carry-value base turns (carry / base),
  )
]

pub mul_add-value :
    (base factor carry : ℕ) (ds : List ℕ)
    → 1 < base
    → value_of base (mul_add base factor carry ds) ≡ value_of base ds * factor + carry
unfolding mul_add value_of
mul_add-value base factor carry [] b =
    push_carry-value base carry carry b (omega arith) ∙ omega arith
mul_add-value base factor carry (d ∷ ds) b =
    let shown : value_of base (mul_add base factor ((carry + d * factor) / base) ds)
        ≡ value_of base ds * factor + (carry + d * factor) / base =
      mul_add-value base factor ((carry + d * factor) / base) ds b in
    rw (shown) (omega (arith, div-add-mod (carry + d * factor) base))

-- Horner's rule over the characters of a text.
unfoldable pub number_from : ℕ → Chars → Option ℕ
number_from n [] = some n
number_from n (c ∷ cs) = elim (index_of c alphabet) [
  | none ↦ none
  | some i ↦ number_from (n * 58 + i) cs
]

pub decode_digits-value :
    (bytes : List ℕ) (cs : Chars)
    → Option.map (value_of 256) (decode_digits bytes cs) ≡ number_from (value_of 256 bytes) cs
unfolding decode_digits number_from
decode_digits-value bytes [] = refl
decode_digits-value bytes (c ∷ cs) = elim (Option-cases (index_of c alphabet)) [
  | inl outside ↦ ground arith
  | inr (i, found) ↦
      ground (arith, decode_digits-value (mul_add 256 58 i bytes) cs, mul_add-value 256 58 i bytes)
]

-- The number that bytes make, the highest first.
unfoldable pub bytes_value : ℕ → List ℕ → ℕ
bytes_value n [] = n
bytes_value n (b ∷ bs) = bytes_value (n * 256 + b) bs

pub bytes_value-append :
    (n b : ℕ) (bs : List ℕ) → bytes_value n (bs ++ (b ∷ [])) ≡ bytes_value n bs * 256 + b
unfolding bytes_value
bytes_value-append n b [] = refl
bytes_value-append n b (c ∷ bs) = bytes_value-append (n * 256 + c) b bs

pub bytes_value-reverse : (ds : List ℕ) → bytes_value 0 (reverse ds) ≡ value_of 256 ds
unfolding bytes_value reverse value_of
bytes_value-reverse [] = refl
bytes_value-reverse (d ∷ ds) =
    rw (bytes_value-append 0 d (reverse ds), bytes_value-reverse ds) (omega arith)

-- Zeros on top change no value.
pub value_of-zeros : (n : ℕ) (ds : List ℕ) → value_of 256 (ds ++ repeat n 0) ≡ value_of 256 ds
unfolding value_of repeat
value_of-zeros zero [] = refl
value_of-zeros (suc n) [] = rw (value_of-zeros n []) (omega arith)
value_of-zeros n (d ∷ ds) = ground (arith, value_of-zeros n ds)

-- A text that decodes spells, in base 58, the number that its bytes spell in base 256.
pub decode_base58-value :
    (text : Chars) (bytes : List ℕ)
    → decode_base58 text ≡ some bytes
    → number_from 0 text ≡ some (bytes_value 0 bytes)
unfolding decode_base58 value_of
decode_base58-value [] bytes h = ground arith
decode_base58-value (c ∷ cs) bytes h = elim (Option-cases (decode_digits [] (c ∷ cs))) [
  | inl refused ↦ ground arith
  | inr (ds, found) ↦
      let zeros = leading b'1' (c ∷ cs) in
      let shown : reverse (ds ++ repeat zeros 0) ≡ bytes = ground arith in
      let value : bytes_value 0 (reverse (ds ++ repeat zeros 0)) ≡ value_of 256 ds =
        bytes_value-reverse (ds ++ repeat zeros 0) ∙ value_of-zeros zeros ds in
      sym (decode_digits-value [] (c ∷ cs))
      ∙ ap (Option.map (value_of 256)) found
      ∙ ap some (sym value ∙ ap (bytes_value 0) shown)
]
