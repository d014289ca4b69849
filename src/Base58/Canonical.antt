-- ===== src/Base58/Canonical.antt =====
-- Digits without a zero on top: the loops of base58 texts (src/adapters/solana/validation.ts) keep them so.
use machina_sol.Prelude.{
  ℕ, zero, suc, ◌+◌, ◌*◌, ◌/◌, ◌%◌, ◌<◌, ◌≤◌, ◌≡◌, ◌≢◌, refl, sym, subst, Bool, true, ◌&&◌, some,
  List, [], ◌∷◌, ◌++◌, arith, nat_eq, ltb, inl, inr, all, Option-cases, if_cases,
}
use native.Mathlib.Nat.{div-add-mod, mod-lt, mul-pos}
use machina_sol.Chars.{Chars}
use machina_sol.Base58.{alphabet, index_of, push_carry, mul_add, decode_digits}
use machina_sol.Base58.Laws.{value_of, smaller, push_carry-value, mul_add-value}

-- Every digit is below the base, and no digit on top is zero.
unfoldable pub is_canonical : ℕ → List ℕ → Bool
unfolding value_of
is_canonical base [] = true
is_canonical base (d ∷ ds) = ltb d base && (ltb 0 (value_of base (d ∷ ds)) && is_canonical base ds)

pub canonical :
    (base d : ℕ) (ds : List ℕ)
    → d < base
    → 0 < value_of base (d ∷ ds)
    → is_canonical base ds ≡ true
    → is_canonical base (d ∷ ds) ≡ true
unfolding is_canonical
canonical base d ds small more rest = ground arith

push_carry-canonical :
    (base turns carry : ℕ)
    → 1 < base
    → carry ≤ turns
    → is_canonical base (push_carry base turns carry) ≡ true
unfolding push_carry is_canonical
push_carry-canonical base zero carry b h = refl
push_carry-canonical base (suc turns) carry b h =
    if_cases (λ ds. is_canonical base ds ≡ true) (nat_eq carry 0) []
      ((carry % base) ∷ push_carry base turns (carry / base)) (λ none_left. refl)
      (λ more.
        let nonzero : carry ≢ 0 = ground arith in
        let less : carry / base ≤ turns = smaller carry base turns b h nonzero in
        let shown : value_of base (push_carry base turns (carry / base)) ≡ carry / base =
          push_carry-value base turns (carry / base) b less in
        canonical base (carry % base) (push_carry base turns (carry / base))
          (mod-lt carry {m = base} (omega arith))
          (rw (shown) (omega (arith, div-add-mod carry base)))
          (push_carry-canonical base turns (carry / base) b less))

pub mul_add-canonical :
    (base factor carry : ℕ) (ds : List ℕ)
    → 1 < base
    → 0 < factor
    → is_canonical base ds ≡ true
    → is_canonical base (mul_add base factor carry ds) ≡ true
unfolding mul_add is_canonical
mul_add-canonical base factor carry [] b f h = push_carry-canonical base carry carry b (omega arith)
mul_add-canonical base factor carry (d ∷ ds) b f h =
    let carried = carry + d * factor in
    let next = mul_add base factor (carried / base) ds in
    let value : value_of base ((carried % base) ∷ next) ≡ value_of base (d ∷ ds) * factor + carry =
      mul_add-value base factor carry (d ∷ ds) b in
    let more : 0 < value_of base (d ∷ ds) = ground arith in
    canonical base (carried % base) next (mod-lt carried {m = base} (omega arith))
      (subst (λ v. 0 < v) (sym value) (omega (arith, mul-pos more f)))
      (mul_add-canonical base factor (carried / base) ds b f (ground arith))

pub decode_digits-canonical :
    (bytes : List ℕ) (cs : Chars) (ds : List ℕ)
    → is_canonical 256 bytes ≡ true
    → decode_digits bytes cs ≡ some ds
    → is_canonical 256 ds ≡ true
unfolding decode_digits
decode_digits-canonical bytes [] ds h eq = ground arith
decode_digits-canonical bytes (c ∷ cs) ds h eq = elim (Option-cases (index_of c alphabet)) [
  | inl outside ↦ ground arith
  | inr (i, found) ↦
      decode_digits-canonical (mul_add 256 58 i bytes) cs ds
        (mul_add-canonical 256 58 i bytes (omega arith) (omega arith) h) (ground arith)
]

-- Digits without a zero on top are told by their number.
pub canonical_unique :
    (as' bs : List ℕ)
    → is_canonical 256 as' ≡ true
    → is_canonical 256 bs ≡ true
    → value_of 256 as' ≡ value_of 256 bs
    → as' ≡ bs
unfolding is_canonical value_of
canonical_unique [] [] h k eq = refl
canonical_unique [] (b ∷ bs) h k eq = absurd (ground arith)
canonical_unique (a ∷ as') [] h k eq = absurd (ground arith)
canonical_unique (a ∷ as') (b ∷ bs) h k eq = ground (arith, canonical_unique as' bs)

-- Only no digits make zero.
pub canonical-zero :
    (base : ℕ) (ds : List ℕ) → is_canonical base ds ≡ true → value_of base ds ≡ 0 → ds ≡ []
unfolding is_canonical value_of
canonical-zero base [] h eq = refl
canonical-zero base (d ∷ ds) h eq = absurd (ground arith)

top_above : (base : ℕ) (ds : List ℕ) (d : ℕ) → 0 < d → 0 < base → 0 < value_of base (ds ++ (d ∷ []))
unfolding value_of
top_above base [] d more some_base = omega arith
top_above base (e ∷ ds) d more some_base =
    omega (arith, mul-pos some_base (top_above base ds d more some_base))

-- A top digit above zero.
pub canonical-append :
    (base : ℕ) (ds : List ℕ) (d : ℕ)
    → 0 < d
    → d < base
    → all (λ x. ltb x base) ds ≡ true
    → is_canonical base (ds ++ (d ∷ [])) ≡ true
unfolding is_canonical value_of all
canonical-append base [] d more small h = canonical base d [] small (omega arith) refl
canonical-append base (e ∷ ds) d more small h =
    let rest : is_canonical base (ds ++ (d ∷ [])) ≡ true =
      canonical-append base ds d more small (ground arith) in
    canonical base e (ds ++ (d ∷ [])) (ground arith) (top_above base (e ∷ ds) d more (omega arith))
      rest
