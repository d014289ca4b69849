-- ===== src/Base58/RoundTrip.antt =====
-- encodeBase58 and decodeBase58 (src/adapters/solana/validation.ts): what one writes, the other reads.
use mathlib.Core.Option
use mathlib.Core.List.{append-nil, append_assoc}
use machina_sol.Prelude.{
  ℕ, zero, suc, ◌<◌, ◌≡◌, refl, ap, ◌∙◌, sym, subst, true, ltb, some, List, [], ◌∷◌, ◌++◌, arith,
  nat_eq, inl, inr, all, nat_eq_iff, Option-cases, Bool-cases, some_inj,
}
use machina_sol.Chars.{Chars}
use machina_sol.Base58.{
  decode_digits, leading, repeat, reverse, decode_base58, encode_digits, encode_base58,
}
use machina_sol.Base58.Laws.{
  value_of, number_from, bytes_value, decode_digits-value, bytes_value-reverse, value_of-zeros,
}
use machina_sol.Base58.Canonical.{
  is_canonical, decode_digits-canonical, canonical_unique, canonical-zero, canonical-append,
}
use machina_sol.Base58.Encoded.{
  begins_with, leading-repeat, encode_digits-loose, encode_digits-value, body_of, Spells,
  Spells-loose, single_zero,
}

reverse-append : (xs : List ℕ) (x : ℕ) → reverse (xs ++ (x ∷ [])) ≡ x ∷ reverse xs
unfolding reverse
reverse-append [] x = refl
reverse-append (y ∷ xs) x = ap (λ zs. zs ++ (y ∷ [])) (reverse-append xs x)

reverse-reverse : (xs : List ℕ) → reverse (reverse xs) ≡ xs
unfolding reverse
reverse-reverse [] = refl
reverse-reverse (x ∷ xs) = reverse-append (reverse xs) x ∙ ap (λ ys. x ∷ ys) (reverse-reverse xs)

repeat-append : (n x : ℕ) → repeat n x ++ (x ∷ []) ≡ x ∷ repeat n x
unfolding repeat
repeat-append zero x = refl
repeat-append (suc n) x = ap (λ ys. x ∷ ys) (repeat-append n x)

are_bytes-append :
    (xs : List ℕ) (x : ℕ)
    → all (λ b. ltb b 256) xs ≡ true
    → x < 256
    → all (λ b. ltb b 256) (xs ++ (x ∷ [])) ≡ true
unfolding all
are_bytes-append [] x h k = ground arith
are_bytes-append (y ∷ xs) x h k = ground (arith, are_bytes-append xs x)

are_bytes-reverse :
    (xs : List ℕ) → all (λ b. ltb b 256) xs ≡ true → all (λ b. ltb b 256) (reverse xs) ≡ true
unfolding all reverse
are_bytes-reverse [] h = refl
are_bytes-reverse (x ∷ xs) h =
    are_bytes-append (reverse xs) x (are_bytes-reverse xs (ground arith)) (ground arith)

-- Bytes are zeros in front of digits without a zero on top.
Splits : List ℕ → Type 0
Splits bs =
    (ds : List ℕ) × (is_canonical 256 ds ≡ true) × (bs ≡ reverse (ds ++ repeat (leading 0 bs) 0))

Splits-zero : (bs : List ℕ) → Splits bs → Splits (0 ∷ bs)
unfolding Splits leading repeat
Splits-zero bs (ds, h, eq) =
    let zeros = repeat (leading 0 bs) 0 in
    (
      ds,
      h,
      ap (λ xs. 0 ∷ xs) eq
          ∙ sym (reverse-append (ds ++ zeros) 0)
          ∙ ap reverse (
              append_assoc ds zeros (0 ∷ [])
              ∙ ap (λ xs. ds ++ xs) (repeat-append (leading 0 bs) 0)),
    )

Splits-more :
    (b : ℕ) (bs : List ℕ) → 0 < b → b < 256 → all (λ b. ltb b 256) bs ≡ true → Splits (b ∷ bs)
unfolding Splits repeat reverse begins_with
Splits-more b bs more small h = (
  reverse bs ++ (b ∷ []),
  canonical-append 256 (reverse bs) b more small (are_bytes-reverse bs h),
  sym (reverse-append (reverse bs) b ∙ ap (λ xs. b ∷ xs) (reverse-reverse bs))
      ∙ ap reverse (sym (append-nil (reverse bs ++ (b ∷ []))))
      ∙ ap (λ n. reverse ((reverse bs ++ (b ∷ [])) ++ repeat n 0))
          (sym (leading-repeat 0 0 (b ∷ bs) (ground arith))),
)

Splits-nothing : Splits []
unfolding Splits repeat reverse leading is_canonical
Splits-nothing = ([], refl, refl)

Splits-bytes : (bs : List ℕ) → all (λ b. ltb b 256) bs ≡ true → Splits bs
unfolding all
Splits-bytes [] h = Splits-nothing
Splits-bytes (b ∷ bs) h = elim (Bool-cases (nat_eq b 0)) [
  | inl same ↦
      subst (λ x. Splits (x ∷ bs)) (sym ((nat_eq_iff b 0).0 same))
        (Splits-zero bs (Splits-bytes bs (ground arith)))
  | inr other ↦ Splits-more b bs (ground arith) (ground arith) (ground arith)
]

value-zeros_in_front :
    (bs ds : List ℕ)
    → bs ≡ reverse (ds ++ repeat (leading 0 bs) 0)
    → bytes_value 0 bs ≡ value_of 256 ds
value-zeros_in_front bs ds eq =
    ap (bytes_value 0) eq
    ∙ bytes_value-reverse (ds ++ repeat (leading 0 bs) 0)
    ∙ value_of-zeros (leading 0 bs) ds

-- decodeBase58 finds the digits that the text's number has.
decode_digits-found :
    (text : Chars) (ds : List ℕ)
    → is_canonical 256 ds ≡ true
    → number_from 0 text ≡ some (value_of 256 ds)
    → decode_digits [] text ≡ some ds
unfolding value_of is_canonical number_from
decode_digits-found text ds h eq =
    let value : Option.map (value_of 256) (decode_digits [] text) ≡ some (value_of 256 ds) =
      decode_digits-value [] text ∙ eq in
    elim (Option-cases (decode_digits [] text)) [
      | inl outside ↦ absurd (ground arith)
      | inr (found, here) ↦
          here
          ∙ ap some (
              canonical_unique found ds (decode_digits-canonical [] text found refl here) h
                (some_inj (sym (ap (Option.map (value_of 256)) here) ∙ value)))
    ]

decode_base58-found :
    (c : ℕ) (cs : Chars) (ds : List ℕ)
    → is_canonical 256 ds ≡ true
    → number_from 0 (c ∷ cs) ≡ some (value_of 256 ds)
    → decode_base58 (c ∷ cs) ≡ some (reverse (ds ++ repeat (leading b'1' (c ∷ cs)) 0))
unfolding decode_base58
decode_base58-found c cs ds h eq = rw (decode_digits-found (c ∷ cs) ds h eq, decode_base58) refl

-- A text that spells the number of the bytes, with a one for each zero in front, is read as them.
reads :
    (text : Chars) (b : ℕ) (bs ds : List ℕ)
    → is_canonical 256 ds ≡ true
    → b ∷ bs ≡ reverse (ds ++ repeat (leading 0 (b ∷ bs)) 0)
    → number_from 0 text ≡ some (value_of 256 ds)
    → leading b'1' text ≡ leading 0 (b ∷ bs)
    → decode_base58 text ≡ some (b ∷ bs)
unfolding number_from leading repeat reverse
reads [] b bs ds h eq number ones =
    let none_left : ds ≡ [] = canonical-zero 256 ds h (sym (some_inj number)) in
    let nothing : b ∷ bs ≡ [] =
      eq
      ∙ ap (λ xs. reverse (xs ++ repeat (leading 0 (b ∷ bs)) 0)) none_left
      ∙ ap (λ n. reverse (repeat n 0)) (sym ones) in
    absurd (ground arith)
reads (c ∷ cs) b bs ds h eq number ones =
    decode_base58-found c cs ds h number
    ∙ ap (λ n. some (reverse (ds ++ repeat n 0))) ones
    ∙ ap some (sym eq)

decode_base58-reads :
    (text : Chars) (b : ℕ) (bs : List ℕ)
    → Splits (b ∷ bs)
    → number_from 0 text ≡ some (bytes_value 0 (b ∷ bs))
    → leading b'1' text ≡ leading 0 (b ∷ bs)
    → decode_base58 text ≡ some (b ∷ bs)
unfolding Splits
decode_base58-reads text b bs (ds, h, eq) number ones =
    reads text b bs ds h eq (number ∙ ap some (value-zeros_in_front (b ∷ bs) ds eq)) ones

-- What encodeBase58 writes of bytes, at least one, decodeBase58 reads back as those bytes: zeros in
-- front, and nothing but zeros, included.
pub decode_base58-encode_base58 :
    (b : ℕ) (bs : List ℕ)
    → all (λ x. ltb x 256) (b ∷ bs) ≡ true
    → decode_base58 (encode_base58 (b ∷ bs)) ≡ some (b ∷ bs)
unfolding encode_base58 Spells body_of value_of
decode_base58-encode_base58 b bs h =
    let digits = encode_digits (0 ∷ []) (b ∷ bs) in
    let spelled : Spells (leading 0 (b ∷ bs)) digits =
      Spells-loose (leading 0 (b ∷ bs)) digits
        (encode_digits-loose (0 ∷ []) (b ∷ bs) single_zero) in
    decode_base58-reads (encode_base58 (b ∷ bs)) b bs (Splits-bytes (b ∷ bs) h)
      (spelled.0 ∙ ap some (encode_digits-value (0 ∷ []) (b ∷ bs))) spelled.1
