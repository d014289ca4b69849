-- ===== src/Json.antt =====
-- Values of unknown shape, as answers of a Solana RPC node are read.
use machina_sol.Prelude.{
  ℕ, String, Bool, true, false, not, ◌&&◌, Option, none, some, ◌==◌, if◌then◌else◌, leb, nat_eq,
  ◌/◌, ◌%◌, ◌^◌,
}
use machina_sol.Number.{pos, negsuc, Number, nan, infinite, finite}

mutual
  pub data Json : Type 0 where
    undefined null : Json
    boolean : Bool → Json
    number : Number → Json
    string : String → Json
    array : Items → Json
    object : Fields → Json

  pub data Items : Type 0 where
    no_items : Items
    item : Json → Items → Items

  pub data Fields : Type 0 where
    no_fields : Fields
    field : String → Json → Fields → Fields

unfoldable pub find_field : String → Fields → Option Json
find_field name no_fields = none
find_field name (field key value fields) =
    if key == name then some value else find_field name fields

-- value.name, where `none` is a TypeError. Only objects have the properties that the code reads.
unfoldable pub member : String → Json → Option Json
unfolding find_field
member name undefined = none
member name null = none
member name (boolean b) = some undefined
member name (number n) = some undefined
member name (string s) = some undefined
member name (array xs) = some undefined
member name (object fields) = elim (find_field name fields) [
  | none ↦ some undefined
  | some v ↦ some v
]

-- Object.prototype.hasOwnProperty.call(value, name)
unfoldable pub has_own : String → Json → Bool
unfolding find_field
has_own name (object fields) = elim (find_field name fields) [ none ↦ false | some v ↦ true ]
has_own name _ = false

-- Is a number zero or NaN?
is_zero : Number → Bool
is_zero nan = true
is_zero (infinite s) = false
is_zero (finite (pos m) k) = nat_eq m 0
is_zero (finite (negsuc m) k) = false

unfoldable pub truthy : Json → Bool
unfolding is_zero
truthy undefined = false
truthy null = false
truthy (boolean b) = b
truthy (number n) = not (is_zero n)
truthy (string s) = not (s == "")
truthy (array _) = true
truthy (object _) = true

-- Number.isSafeInteger(n) && n >= 0
unfoldable pub safe_nat : Number → Option ℕ
safe_nat nan = none
safe_nat (infinite s) = none
safe_nat (finite (negsuc m) k) = none
safe_nat (finite (pos m) k) =
    if nat_eq (m % 2 ^ k) 0 && leb (m / 2 ^ k) 9_007_199_254_740_991 then some (m / 2 ^ k) else none
