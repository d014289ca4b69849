-- ===== src/Server/Prices.antt =====
-- The comparison of prices by the routes and by the store (`decimal` and `priceWithinLimit` of
-- src/server/production/app.ts, `decimalAtMost` of src/server/production/memory-store.ts).
use machina_sol.Prelude.{
  ℕ, String, ◌≡◌, refl, true, Option, none, some, [], ◌∷◌, leb, codes, length, arith,
}
use machina_sol.Json.{Json}
use machina_sol.Chars.{Chars, is_digits}
use machina_sol.Decimal.{
  Parts, match_decimal, mantissa, places, before_dot, after_dot, is_digits1, is_fraction,
}
use machina_sol.Store.Lamports.{at_most, decimal_at_most}
use machina_sol.Server.World.{Outside, done}
use machina_sol.Server.Inputs.{decimal, is_plain_decimal, is_short_fraction}
use machina_sol.Server.Routes.Requests.{price_within_limit, within_parts}
use machina_sol.Server.Amounts.{parts_of-decimal}

digits1_of_some :
    (cs : Chars) → leb 1 (length cs) ≡ true → is_digits cs ≡ true → is_digits1 cs ≡ true
unfolding is_digits1
digits1_of_some [] h k = ground arith
digits1_of_some (c ∷ cs) h k = k

short_fraction : (f : Option Chars) → is_short_fraction f ≡ true → is_fraction f ≡ true
unfolding is_short_fraction is_fraction
short_fraction none h = refl
short_fraction (some cs) h = ground (arith, digits1_of_some cs)

-- A plain decimal matches the expression that the amounts are read by.
plain-match : (cs : Chars) → is_plain_decimal cs ≡ true → (p : Parts) × (match_decimal cs ≡ some p)
unfolding is_plain_decimal match_decimal
plain-match cs h = (
  record { whole = before_dot cs; fraction = after_dot cs },
  ground (arith, digits1_of_some (before_dot cs), short_fraction (after_dot cs)),
)

decimal-plain :
    (o : Outside) (input : Json) (key value : String)
    → decimal o input key ≡ done value
    → is_plain_decimal (codes value) ≡ true
unfolding decimal
decimal-plain o input key value e = ground arith

within_parts-at_most : (p q : ℕ × ℕ) → within_parts (some p) (some q) ≡ at_most p q
unfolding within_parts at_most
within_parts-at_most (a, a_scale) (b, b_scale) = refl

compared :
    (price limit : String) (p q : Parts)
    → match_decimal (codes price) ≡ some p
    → match_decimal (codes limit) ≡ some q
    → decimal_at_most price limit ≡ some (price_within_limit price limit)
unfolding decimal_at_most price_within_limit
compared price limit p q e f =
    let left = parts_of-decimal (codes price) p e in
    let right = parts_of-decimal (codes limit) q f in
    let same = within_parts-at_most (mantissa p, places p) (mantissa q, places q) in ground arith

-- Prices that the routes accept never make the store's comparison throw, and the routes' own
-- comparison of them is the store's.
pub price_within_limit-at_most :
    (o : Outside) (input input' : Json) (key key' price limit : String)
    → decimal o input key ≡ done price
    → decimal o input' key' ≡ done limit
    → decimal_at_most price limit ≡ some (price_within_limit price limit)
price_within_limit-at_most o input input' key key' price limit e f =
    let (p, matches) = plain-match (codes price) (decimal-plain o input key price e) in
    let (q, matches') = plain-match (codes limit) (decimal-plain o input' key' limit f) in
    compared price limit p q matches matches'
