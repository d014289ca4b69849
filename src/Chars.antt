-- ===== src/Chars.antt =====
-- Texts as lists of code points, for the code that walks them: `trim`, tests on digits, `BigInt`
-- of a digit string, `toString` of a natural number.
pub mod Laws
use machina_sol.Prelude.{
  ℕ, zero, suc, ◌+◌, ◌-◌, ◌*◌, ◌/◌, ◌%◌, String, Bool, true, false, not, ◌&&◌, ◌||◌, Option, none,
  some, List, [], ◌∷◌, ◌++◌, leb, ltb, nat_eq, all, if◌then◌else◌,
}
use mathlib.Core.List.{reverse}

abbrev pub Chars : Type 0
Chars = List ℕ

-- The white space that `String.prototype.trim` removes.
unfoldable pub is_whitespace : ℕ → Bool
is_whitespace c =
    (leb 9 c && leb c 13)
    || (nat_eq c 32
        || (nat_eq c 0xa0
            || (nat_eq c 0x1680
                || ((leb 0x2000 c && leb c 0x200a)
                    || (nat_eq c 0x2028
                        || (nat_eq c 0x2029
                            || (nat_eq c 0x202f
                                || (nat_eq c 0x205f || (nat_eq c 0x3000 || nat_eq c 0xfeff)))))))))

unfoldable pub trim_start : Chars → Chars
trim_start [] = []
trim_start (c ∷ cs) = if is_whitespace c then trim_start cs else c ∷ cs

unfoldable pub trim_end : Chars → Chars
trim_end [] = []
trim_end (c ∷ cs) =
    let rest = trim_end cs in
    elim rest [ [] ↦ if is_whitespace c then [] else c ∷ [] | d ∷ ds ↦ c ∷ d ∷ ds ]

-- text.trim()
unfoldable pub trim : Chars → Chars
unfolding trim_start trim_end is_whitespace
trim cs = trim_end (trim_start cs)

unfoldable pub is_digit : ℕ → Bool
is_digit c = leb b'0' c && leb c b'9'

-- /^\d*$/
unfoldable pub is_digits : Chars → Bool
unfolding is_digit
is_digits cs = all is_digit cs

-- Horner's rule over the digits that follow a value.
unfoldable pub value_from : ℕ → Chars → ℕ
value_from acc [] = acc
value_from acc (c ∷ cs) = value_from (acc * 10 + (c - b'0')) cs

-- BigInt(digits), which is 0 for the empty text
unfoldable pub big_int : Chars → ℕ
unfolding value_from
big_int cs = value_from 0 cs

unfoldable pub print_from : ℕ → ℕ → Chars → Chars
print_from zero n acc = acc
print_from (suc fuel) n acc =
    let rest = print_from fuel (n / 10) ((b'0' + n % 10) ∷ acc) in
    if ltb n 10 then (b'0' + n) ∷ acc else rest

-- n.toString(); a number has at most `n + 1` digits.
unfoldable pub print : ℕ → Chars
unfolding print_from
print n = print_from (suc n) n []

unfoldable pub chars_eq : Chars → Chars → Bool
chars_eq [] [] = true
chars_eq [] (b ∷ bs) = false
chars_eq (a ∷ as') [] = false
chars_eq (a ∷ as') (b ∷ bs) = nat_eq a b && chars_eq as' bs
