-- ===== src/Prelude/Text.antt =====
-- JavaScript's order on strings: by UTF-16 code units.
use Prim.Native.Char.{code}
use Prim.Native.Nat.{ℕ, ◌+◌, ◌-◌, ◌/◌, ◌%◌, Ordering, compare}
use Prim.Native.String.{String}
use mathlib.Core.Path.{◌≡◌, refl}
use mathlib.Core.Bool.{Bool, true, false, not}
use mathlib.Core.List.{List, [], ◌∷◌}
use native.Mathlib.Omega.{arith}
use text.Mathlib.Text.{◌==◌}
use machina_sol.Prelude.Tests.{if◌then◌else◌, ltb}
use machina_sol.Prelude.Lists.{any, filter}

-- The code points of a text.
unfoldable pub codes : String → List ℕ
codes String.[] = []
codes (String.◌∷◌ c s) = code c ∷ codes s

-- The code units of a text; a code point past 0xffff is a surrogate pair.
unfoldable pub units : String → List ℕ
units String.[] = []
units (String.◌∷◌ c s) =
    let rest = units s in
    if ltb (code c) 0x10000
    then code c ∷ rest
    else (0xd800 + (code c - 0x10000) / 0x400) ∷ (0xdc00 + (code c - 0x10000) % 0x400) ∷ rest

unfoldable pub units_lt : List ℕ → List ℕ → Bool
units_lt [] [] = false
units_lt [] (b ∷ bs) = true
units_lt (a ∷ as') [] = false
units_lt (a ∷ as') (b ∷ bs) =
    let rest = units_lt as' bs in
    elim (compare a b) [ Ordering.lt ↦ true | Ordering.eq ↦ rest | Ordering.gt ↦ false ]

-- `a < b` and `a <= b` on strings.
unfoldable pub text_lt : String → String → Bool
unfolding units units_lt
text_lt a b = units_lt (units a) (units b)

unfoldable pub text_le : String → String → Bool
unfolding text_lt
text_le a b = not (text_lt b a)

-- `xs.includes(x)` on strings.
unfoldable pub includes : String → List String → Bool
unfolding any
includes x xs = any (λ y. y == x) xs

-- `[...new Set(xs)]`: the first occurrence of each text stays.
unfoldable pub distinct : List String → List String
unfolding filter
distinct [] = []
distinct (x ∷ xs) = x ∷ filter (λ y. not (y == x)) (distinct xs)

units_lt_trans : (a b c : List ℕ) → units_lt a b ≡ true → units_lt c b ≡ false → units_lt a c ≡ true
unfolding units_lt
units_lt_trans [] [] c h k = ground arith
units_lt_trans [] (b ∷ bs) [] h k = ground arith
units_lt_trans [] (b ∷ bs) (c ∷ cs) h k = refl
units_lt_trans (a ∷ as') [] c h k = ground arith
units_lt_trans (a ∷ as') (b ∷ bs) [] h k = ground arith
units_lt_trans (a ∷ as') (b ∷ bs) (c ∷ cs) h k = ground (arith, units_lt_trans as' bs cs)

-- A text before `b` is before every text that is not before `b`.
pub text_lt-of_le : (a b c : String) → text_lt a b ≡ true → text_le b c ≡ true → text_lt a c ≡ true
unfolding text_le
text_lt-of_le a b c h k = units_lt_trans (units a) (units b) (units c) h (ground arith)
