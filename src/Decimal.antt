-- ===== src/Decimal.antt =====
-- Decimal amounts (src/settlement/amounts.ts).
pub mod Split
pub mod Laws
pub mod Exact
use machina_sol.Prelude.{
  ℕ, zero, suc, ◌+◌, ◌-◌, ◌*◌, ◌/◌, ◌%◌, ◌^◌, String, Bool, true, false, not, ◌&&◌, ◌||◌, Option,
  none, some, List, [], ◌∷◌, ◌++◌, leb, ltb, nat_eq, all, length, take, if◌then◌else◌, Result, ok,
  err, ◌>>=◌, Ordering,
}
use Prim.Native.Nat.{compare}
use machina_sol.Number.{Number, finite, pos, negsuc, nan, infinite}
use machina_sol.Chars.{Chars, trim, is_digits, big_int, print}

-- What the match of /^\d+(\.\d+)?$/ finds: the digits before the dot, and those behind it.
pub record Parts : Type 0 where
  pub whole : Chars
  pub fraction : Option Chars

-- text.split('.')[0]
unfoldable pub before_dot : Chars → Chars
before_dot [] = []
before_dot (c ∷ cs) = let rest = before_dot cs in if nat_eq c b'.' then [] else c ∷ rest

-- What stands behind the first dot.
unfoldable pub after_dot : Chars → Option Chars
after_dot [] = none
after_dot (c ∷ cs) = let rest = after_dot cs in if nat_eq c b'.' then some cs else rest

unfoldable pub is_digits1 : Chars → Bool
is_digits1 [] = false
is_digits1 (c ∷ cs) = is_digits (c ∷ cs)

unfoldable pub is_fraction : Option Chars → Bool
is_fraction none = true
is_fraction (some cs) = is_digits1 cs

-- /^\d+(\.\d+)?$/
unfoldable pub match_decimal : Chars → Option Parts
match_decimal text =
    if is_digits1 (before_dot text) && is_fraction (after_dot text)
    then some (record { whole = before_dot text; fraction = after_dot text })
    else none

-- parts[1] ?? ''
abbrev pub digits_of : Option Chars → Chars
digits_of none = []
digits_of (some cs) = cs

-- All the digits of an amount, as one number, and how many of them stand behind the dot: the
-- amount is mantissa / 10 ^ places.
abbrev pub mantissa : Parts → ℕ
mantissa p = big_int (p.whole ++ digits_of p.fraction)

abbrev pub places : Parts → ℕ
places p = length (digits_of p.fraction)

-- whole.replace(/^0+(?=\d)/, '') on a digit string
unfoldable pub strip_leading : Chars → Chars
strip_leading [] = []
strip_leading (c ∷ []) = c ∷ []
strip_leading (c ∷ d ∷ ds) =
    let rest = strip_leading (d ∷ ds) in if nat_eq c b'0' then rest else c ∷ d ∷ ds

abbrev pub cons_unless_zero : ℕ → Chars → Chars
cons_unless_zero c [] = if nat_eq c b'0' then [] else c ∷ []
cons_unless_zero c (d ∷ ds) = c ∷ d ∷ ds

-- fraction.replace(/0+$/, '')
unfoldable pub strip_trailing : Chars → Chars
strip_trailing [] = []
strip_trailing (c ∷ cs) = cons_unless_zero c (strip_trailing cs)

-- /^0*$/
unfoldable pub is_zeros : Chars → Bool
is_zeros cs = all (λ c. nat_eq c b'0') cs

-- text || '0'
abbrev pub or_zero : Chars → Chars
or_zero [] = b'0' ∷ []
or_zero (c ∷ cs) = c ∷ cs

unfoldable pub join : Chars → Chars → Chars
unfolding strip_leading strip_trailing
join whole [] = strip_leading whole
join whole (c ∷ cs) = strip_leading whole ++ (b'.' ∷ or_zero (strip_trailing (c ∷ cs)))

normalize_parts : Option Parts → Result Chars
normalize_parts none = err "amount must be a positive decimal string"
normalize_parts (some parts) =
    if nat_eq (big_int parts.whole) 0 && is_zeros (digits_of parts.fraction)
    then err "amount must be greater than zero"
    else ok (join parts.whole (digits_of parts.fraction))

unfoldable pub normalize_decimal_amount : Chars → Result Chars
unfolding normalize_parts
normalize_decimal_amount amount = normalize_parts (match_decimal (trim amount))

unfoldable pub zeros : ℕ → Chars
zeros zero = []
zeros (suc n) = b'0' ∷ zeros n

-- The base units of a normalized amount; the message of the error also names the number.
unfoldable pub base_units : Chars → ℕ → Result ℕ
unfolding zeros
base_units normalized decimals =
    let whole = before_dot normalized in
    let fraction = digits_of (after_dot normalized) in
    if ltb decimals (length fraction)
    then err "amount has more than the allowed decimal places"
    else ok (
        big_int whole * 10 ^ decimals
        + big_int (or_zero (take decimals (fraction ++ zeros decimals))))

unfoldable pub decimal_to_base_units : Chars → ℕ → Result ℕ
unfolding base_units
decimal_to_base_units amount decimals =
    if ltb 36 decimals
    then err "invalid decimals"
    else do normalized ← normalize_decimal_amount amount; base_units normalized decimals

unfoldable pub compare_decimal_amounts : Chars → Chars → ℕ → Result Ordering
compare_decimal_amounts left right decimals = do
  l ← decimal_to_base_units left decimals
  r ← decimal_to_base_units right decimals
  ok (compare l r)

unfoldable pub decimal_amount_lte : Chars → Chars → ℕ → Result Bool
decimal_amount_lte left right decimals = do
  order ← compare_decimal_amounts left right decimals
  ok (elim order [ Ordering.gt ↦ false | _ ↦ true ])

unfoldable pub decimal_amount_gt : Chars → Chars → ℕ → Result Bool
decimal_amount_gt left right decimals = do
  order ← compare_decimal_amounts left right decimals
  ok (elim order [ Ordering.gt ↦ true | _ ↦ false ])

unfoldable pub assert_positive_decimal_amount : Chars → ℕ → Result (Unit {0})
assert_positive_decimal_amount amount decimals = do
  units ← decimal_to_base_units amount decimals
  ok tt
