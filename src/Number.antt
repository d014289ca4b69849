-- ===== src/Number.antt =====
-- JavaScript's numbers: a finite double is a fraction `m / 2 ^ k`, beside NaN and the infinities.
-- Comparisons are exact, and false where a side is NaN.
use machina_sol.Prelude.{ℕ, suc, ◌*◌, ◌^◌, Bool, true, false, not, ◌&&◌, ltb}

-- `negsuc n` is -(n + 1).
pub data ℤ : Type 0 where
  pos : ℕ → ℤ
  negsuc : ℕ → ℤ

pub data Number : Type 0 where
  nan : Number
  infinite : Bool → Number
  finite : ℤ → ℕ → Number

abbrev pub of_nat : ℕ → Number
of_nat n = finite (pos n) 0

-- m / 2 ^ k < n / 2 ^ l
fraction_lt : ℤ → ℕ → ℤ → ℕ → Bool
fraction_lt (pos m) k (pos n) l = ltb (m * 2 ^ l) (n * 2 ^ k)
fraction_lt (pos m) k (negsuc n) l = false
fraction_lt (negsuc m) k (pos n) l = true
fraction_lt (negsuc m) k (negsuc n) l = ltb (suc n * 2 ^ k) (suc m * 2 ^ l)

-- a < b; the sign of an infinity is `true` for +∞
unfoldable pub number_lt : Number → Number → Bool
unfolding fraction_lt
number_lt nan b = false
number_lt (infinite s) nan = false
number_lt (infinite s) (infinite t) = not s && t
number_lt (infinite s) (finite n l) = not s
number_lt (finite m k) nan = false
number_lt (finite m k) (infinite t) = t
number_lt (finite m k) (finite n l) = fraction_lt m k n l

unfoldable pub is_nan : Number → Bool
is_nan nan = true
is_nan (infinite s) = false
is_nan (finite m k) = false

-- Number.isFinite(a)
unfoldable pub is_finite : Number → Bool
is_finite nan = false
is_finite (infinite s) = false
is_finite (finite m k) = true

-- a <= b
unfoldable pub number_le : Number → Number → Bool
unfolding is_nan number_lt
number_le a b = not (is_nan a) && (not (is_nan b) && not (number_lt b a))
