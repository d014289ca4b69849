-- ===== src/Base58/Alphabet.antt =====
-- The characters of ALPHABET and their places (src/adapters/solana/validation.ts).
use machina_sol.Prelude.{
  ℕ, zero, suc, ◌+◌, ◌*◌, ◌<◌, ◌≡◌, refl, ap, ◌∙◌, sym, subst, Bool, true, false, ◌&&◌, ltb, Option,
  none, some, List, [], ◌∷◌, ◌++◌, arith, nat_eq, inl, inr, all, nat_eq_iff, Option-cases,
  Bool-cases,
}
use machina_sol.Chars.{Chars}
use machina_sol.Base58.{alphabet, index_of, repeat, reverse, char_at, chars_of}
use machina_sol.Base58.Laws.{value_of, number_from}

is_at : ℕ → Option ℕ → Bool
is_at i none = false
is_at i (some j) = nat_eq j i

-- Every digit below `n` is found at its own place.
found_below : ℕ → Bool
unfolding char_at index_of is_at
found_below zero = true
found_below (suc n) = is_at n (index_of (char_at n alphabet) alphabet) && found_below n

is_at-some : (i : ℕ) (o : Option ℕ) → is_at i o ≡ true → o ≡ some i
unfolding is_at
is_at-some i none h = absurd (ground arith)
is_at-some i (some j) h = ground arith

found_below-at :
    (n i : ℕ) → found_below n ≡ true → i < n → index_of (char_at i alphabet) alphabet ≡ some i
unfolding found_below
found_below-at zero i h less = absurd (ground arith)
found_below-at (suc n) i h less = elim (Bool-cases (nat_eq i n)) [
  | inl same ↦ is_at-some i (index_of (char_at i alphabet) alphabet) (
      subst (λ k. is_at k (index_of (char_at k alphabet) alphabet) ≡ true)
        (sym ((nat_eq_iff i n).0 same)) (ground arith))
  | inr other ↦ found_below-at n i (ground arith) (ground arith)
]

all_found : found_below 58 ≡ true
unfolding found_below alphabet
all_found = refl

digit_found : (i : ℕ) → i < 58 → index_of (char_at i alphabet) alphabet ≡ some i
digit_found i less = found_below-at 58 i all_found less

one_is_zero : index_of b'1' alphabet ≡ some 0
unfolding index_of alphabet
one_is_zero = refl

pub digit_above : (i : ℕ) → i < 58 → 0 < i → nat_eq (char_at i alphabet) b'1' ≡ false
digit_above i less more = elim (Bool-cases (nat_eq (char_at i alphabet) b'1')) [
  | inr other ↦ other
  | inl same ↦
      absurd (ground (arith, digit_found i less, one_is_zero, nat_eq_iff (char_at i alphabet) b'1'))
]

pub number_from-ones : (n : ℕ) (cs : Chars) → number_from 0 (repeat n b'1' ++ cs) ≡ number_from 0 cs
unfolding number_from repeat
number_from-ones zero cs = refl
number_from-ones (suc n) cs = rw (one_is_zero, number_from) (number_from-ones n cs)

number_from-append :
    (n m i : ℕ) (cs : Chars)
    → i < 58
    → number_from n cs ≡ some m
    → number_from n (cs ++ (char_at i alphabet ∷ [])) ≡ some (m * 58 + i)
unfolding number_from
number_from-append n m i [] less h = ground (arith, digit_found i less)
number_from-append n m i (c ∷ cs) less h = elim (Option-cases (index_of c alphabet)) [
  | inl outside ↦ absurd (ground arith)
  | inr (j, found) ↦
      rw (found, number_from) (number_from-append (n * 58 + j) m i cs less (ground arith))
]

pub chars_of-append :
    (ds : List ℕ) (d : ℕ) → chars_of (ds ++ (d ∷ [])) ≡ chars_of ds ++ (char_at d alphabet ∷ [])
unfolding chars_of
chars_of-append [] d = refl
chars_of-append (e ∷ ds) d = ap (λ cs. char_at e alphabet ∷ cs) (chars_of-append ds d)

pub number_from-chars_of :
    (ds : List ℕ)
    → all (λ d. ltb d 58) ds ≡ true
    → number_from 0 (chars_of (reverse ds)) ≡ some (value_of 58 ds)
unfolding reverse value_of all chars_of number_from
number_from-chars_of [] h = refl
number_from-chars_of (d ∷ ds) h =
    let rest : number_from 0 (chars_of (reverse ds)) ≡ some (value_of 58 ds) =
      number_from-chars_of ds (ground arith) in
    rw (chars_of-append (reverse ds) d) (
      number_from-append 0 (value_of 58 ds) d (chars_of (reverse ds)) (ground arith) rest
      ∙ ap some (omega arith))
