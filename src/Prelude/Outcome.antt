-- ===== src/Prelude/Outcome.antt =====
-- A function that throws leaves the message of its error in place of a value.
use Prim.Native.String.{String}
use mathlib.Core.Path.{◌≡◌, refl}

pub data Result {ℓ} (Value : Type ℓ) : Type ℓ where
  err : (message : String) → Result Value
  ok : (value : Value) → Result Value

module _ {κ μ} {Value : Type κ} {Next : Type μ} where
  -- What follows a call, unless it threw.
  infixl 5 ◌>>=◌
  abbrev pub ◌>>=◌ : Result Value → (Value → Result Next) → Result Next
  err message >>= next = err message
  ok value >>= next = next value

  -- Where the whole succeeds, so did the first part, and the second on its value.
  pub bind-eq-ok :
      (first : Result Value) (next : Value → Result Next) {last : Next}
      → first >>= next ≡ ok last
      → (value : Value) × (first ≡ ok value) × (next value ≡ ok last)
  bind-eq-ok (err message) next thrown = cc
  bind-eq-ok (ok value) next returned = (value, refl, returned)
