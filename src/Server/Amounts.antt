-- ===== src/Server/Amounts.antt =====
-- The amount that a route computes for a settlement, and the store's own check of it
-- (`quotedSolToLamports` of src/server/production/app.ts, `exactLamports` of
-- src/server/production/memory-store.ts).
use native.Mathlib.Nat.{div-add-mod, mul-mod_left, mul-div_cancel}
use machina_sol.Prelude.{
  ℕ, ◌+◌, ◌*◌, ◌/◌, ◌%◌, ◌^◌, ◌≤◌, ◌<◌, String, ◌≡◌, refl, sym, ap, subst, ◌∙◌, true, Option, none,
  some, [], ◌∷◌, ◌++◌, nat_eq, nat_eq_iff, all, codes, arith, inl, inr, Bool-cases,
}
use machina_sol.Chars.{Chars, big_int, print, is_digits, chars_eq}
use machina_sol.Texts.{text_of_nat, codes-text_of_nat}
use machina_sol.Decimal.{Parts, match_decimal, mantissa, places, digits_of, before_dot, after_dot}
use machina_sol.Decimal.Split.{match_decimal-whole, match_decimal-fraction, before_dot-digits}
use machina_sol.Decimal.Exact.{pow_pos}
use machina_sol.Store.Lamports.{
  parts_of, second_part, exact_lamports, lamports_of, is_exact_amount, IsProduct,
}
use machina_sol.Chars.Laws.{big_int-print}
use machina_sol.Store.Types.{
  AuthSessionRecord, PersistentResourceRequest, PersistentResourceQuote, OwnedMachineRecord,
}
use machina_sol.Server.World.{done}
use machina_sol.Server.Routes.Settlements.{
  quoted_sol_to_lamports, product_of, bounded_lamports, new_settlement,
}

all-append :
    (xs ys : Chars) → is_digits xs ≡ true → is_digits ys ≡ true → is_digits (xs ++ ys) ≡ true
unfolding is_digits all
all-append [] ys h k = k
all-append (x ∷ xs) ys h k = ground (arith, all-append xs ys)

matched :
    (text : Chars) (p : Parts)
    → match_decimal text ≡ some p
    → (before_dot text ≡ p.whole) × (after_dot text ≡ p.fraction)
unfolding match_decimal
matched text p e = (ground arith, ground arith)

second_part-digits :
    (o : Option Chars) → is_digits (digits_of o) ≡ true → second_part o ≡ digits_of o
unfolding second_part
second_part-digits none h = refl
second_part-digits (some cs) h = before_dot-digits cs h

-- A decimal has the parts that its match finds.
pub parts_of-decimal :
    (text : Chars) (p : Parts)
    → match_decimal text ≡ some p
    → parts_of text ≡ some (mantissa p, places p)
unfolding parts_of
parts_of-decimal text p e =
    let (whole, fraction) = matched text p e in
    let behind : second_part (after_dot text) ≡ digits_of p.fraction =
      ap second_part fraction ∙ second_part-digits p.fraction (match_decimal-fraction text p e) in
    let digits : is_digits (p.whole ++ digits_of p.fraction) ≡ true =
      all-append p.whole (digits_of p.fraction) (match_decimal-whole text p e)
        (match_decimal-fraction text p e) in
    rw (whole, behind, digits) refl

chars_eq_refl : (cs : Chars) → chars_eq cs cs ≡ true
unfolding chars_eq
chars_eq_refl [] = refl
chars_eq_refl (c ∷ cs) = ground (arith, chars_eq_refl cs, nat_eq_iff c c)

bounded_done :
    (m n : ℕ) → bounded_lamports m ≡ done n → (m ≡ n) × ((0 < n) × (n ≤ 100_000_000_000_000))
unfolding bounded_lamports
bounded_done m n e = (ground arith, (ground arith, ground arith))

bounded_ok : (n : ℕ) → 0 < n → n ≤ 100_000_000_000_000 → bounded_lamports n ≡ done n
unfolding bounded_lamports
bounded_ok n h k = ground arith

quoted-product :
    (price quantity : String) (p q : Parts)
    → match_decimal (codes price) ≡ some p
    → match_decimal (codes quantity) ≡ some q
    → quoted_sol_to_lamports price quantity
      ≡ product_of (some (mantissa p, places p)) (some (mantissa q, places q))
unfolding quoted_sol_to_lamports
quoted-product price quantity p q e f =
    rw (parts_of-decimal (codes price) p e, parts_of-decimal (codes quantity) q f) refl

product_done :
    (p q : Parts) (n : ℕ)
    → product_of (some (mantissa p, places p)) (some (mantissa q, places q)) ≡ done n
    → (mantissa p * mantissa q * 1_000_000_000 % 10 ^ (places p + places q) ≡ 0)
      × (bounded_lamports (mantissa p * mantissa q * 1_000_000_000 / 10 ^ (places p + places q))
          ≡ done n)
unfolding product_of
product_done p q n e =
    elim (Bool-cases
      (nat_eq (mantissa p * mantissa q * 1_000_000_000 % 10 ^ (places p + places q)) 0)) [
        | inl even ↦ ((nat_eq_iff _ 0).0 even, ground arith)
        | inr odd ↦ absurd (ground arith)
      ]

product-exact :
    (p q : Parts) (n : ℕ)
    → IsProduct p q n
    → product_of (some (mantissa p, places p)) (some (mantissa q, places q)) ≡ bounded_lamports n
unfolding product_of
product-exact p q n e =
    rw
      (
        ← e,
        mul-mod_left n (10 ^ (places p + places q)),
        mul-div_cancel n (pow_pos (places p + places q)),
      )
      refl

lamports_of-exact : (p q : Parts) (n : ℕ) → IsProduct p q n → lamports_of p q ≡ some (print n)
unfolding lamports_of
lamports_of-exact p q n e =
    rw
      (
        ← e,
        mul-mod_left n (10 ^ (places p + places q)),
        mul-div_cancel n (pow_pos (places p + places q)),
      )
      refl

exact-text :
    (price quantity : String) (p q : Parts) (n : ℕ)
    → match_decimal (codes price) ≡ some p
    → match_decimal (codes quantity) ≡ some q
    → IsProduct p q n
    → is_exact_amount price quantity (text_of_nat n) ≡ true
unfolding is_exact_amount exact_lamports
exact-text price quantity p q n e f h =
    let same : chars_eq (print n) (codes (text_of_nat n)) ≡ true =
      rw (codes-text_of_nat n) (chars_eq_refl (print n)) in
    let value = lamports_of-exact p q n h in ground arith

divided : (m d n : ℕ) → m % d ≡ 0 → m / d ≡ n → n * d ≡ m
divided m d n even value = rw (← value) (omega (arith, div-add-mod m d, even))

-- The amount that a route computes is exact and within the bounds, and the store accepts its text as
-- the amount of a settlement for the price and the quantity.
pub quoted_sol_to_lamports-exact :
    (price quantity : String) (p q : Parts) (n : ℕ)
    → match_decimal (codes price) ≡ some p
    → match_decimal (codes quantity) ≡ some q
    → quoted_sol_to_lamports price quantity ≡ done n
    → IsProduct p q n
      × ((0 < n)
          × ((n ≤ 100_000_000_000_000) × (is_exact_amount price quantity (text_of_nat n) ≡ true)))
quoted_sol_to_lamports-exact price quantity p q n e f h =
    let (even, bounded) = product_done p q n (sym (quoted-product price quantity p q e f) ∙ h) in
    let (value, (positive, small)) = bounded_done _ n bounded in
    let exact : IsProduct p q n = divided _ _ n even value in
    (exact, (positive, (small, exact-text price quantity p q n e f exact)))

-- A price and a quantity that make a positive number of lamports within the bound are not refused:
-- the route computes that number.
pub quoted_sol_to_lamports_complete :
    (price quantity : String) (p q : Parts) (n : ℕ)
    → match_decimal (codes price) ≡ some p
    → match_decimal (codes quantity) ≡ some q
    → IsProduct p q n
    → 0 < n
    → n ≤ 100_000_000_000_000
    → quoted_sol_to_lamports price quantity ≡ done n
quoted_sol_to_lamports_complete price quantity p q n e f h positive small =
    quoted-product price quantity p q e f ∙ product-exact p q n h ∙ bounded_ok n positive small

-- The settlement that a route writes for a price and a quantity is prepared for exactly the lamports
-- that they make: the number that the preparation reads from its amount is their product.
pub new_settlement-amount :
    (id at : String) (session : AuthSessionRecord) (request : PersistentResourceRequest)
    (quote : PersistentResourceQuote) (requester provider : OwnedMachineRecord) (p q : Parts)
    (n : ℕ)
    → match_decimal (codes quote.amount) ≡ some p
    → match_decimal (codes request.quantity) ≡ some q
    → quoted_sol_to_lamports quote.amount request.quantity ≡ done n
    → IsProduct p q (
        big_int
          (codes (new_settlement id at session request quote requester provider n).amount_lamports))
unfolding new_settlement
new_settlement-amount id at session request quote requester provider p q n e f h =
    subst (IsProduct p q) (sym (ap big_int (codes-text_of_nat n) ∙ big_int-print n))
      (quoted_sol_to_lamports-exact quote.amount request.quantity p q n e f h).0
