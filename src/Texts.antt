-- ===== src/Texts.antt =====
-- Texts, as JavaScript's strings are trimmed, measured, cut and printed.
use Prim.Native.Char.{Char, code}
use Prim.Native.String
use machina_sol.Prelude.{
  ℕ, zero, suc, ◌+◌, ◌/◌, ◌%◌, ◌≡◌, refl, String, true, ◌&&◌, Option, none, some, List, [], ◌∷◌,
  ltb, nat_eq, length, codes, units, ◌==◌, if◌then◌else◌, arith,
}
use machina_sol.Chars.{Chars, is_digit, is_whitespace, print, print_from}

infixr 66 ◌^^◌
abbrev pub ◌^^◌ : String → String → String
a ^^ b = String.◌++◌ a b

unfoldable pub trim_text_start : String → String
trim_text_start String.[] = ""
trim_text_start (String.◌∷◌ c s) =
    if is_whitespace (code c) then trim_text_start s else String.◌∷◌ c s

unfoldable pub trim_text_end : String → String
trim_text_end String.[] = ""
trim_text_end (String.◌∷◌ c s) =
    let rest = trim_text_end s in
    if rest == "" && is_whitespace (code c) then "" else String.◌∷◌ c rest

-- text.trim()
unfoldable pub trim_text : String → String
unfolding trim_text_start trim_text_end is_whitespace
trim_text s = trim_text_end (trim_text_start s)

-- text.length
unfoldable pub text_length : String → ℕ
unfolding units
text_length s = length (units s)

prepend : Char → List String → List String
prepend c [] = String.◌∷◌ c "" ∷ []
prepend c (t ∷ ts) = String.◌∷◌ c t ∷ ts

-- text.split(c), for one character given by its code
unfoldable pub split_on : ℕ → String → List String
unfolding prepend
split_on at String.[] = "" ∷ []
split_on at (String.◌∷◌ c s) =
    let rest = split_on at s in if nat_eq (code c) at then "" ∷ rest else prepend c rest

grow : Char → Option (String × String) → Option (String × String)
grow c none = none
grow c (some (before, after)) = some (String.◌∷◌ c before, after)

-- What stands before and after the first place of a character; `none` where it has none.
unfoldable pub cut_at : ℕ → String → Option (String × String)
unfolding grow
cut_at at String.[] = none
cut_at at (String.◌∷◌ c s) =
    let rest = cut_at at s in if nat_eq (code c) at then some ("", s) else grow c rest

-- The rest after n digits.
unfoldable pub after_digits : ℕ → Option Chars → Option Chars
after_digits n none = none
after_digits zero (some cs) = some cs
after_digits (suc n) (some []) = none
after_digits (suc n) (some (c ∷ cs)) = if is_digit c then after_digits n (some cs) else none

-- The rest after one character.
unfoldable pub after_char : ℕ → Option Chars → Option Chars
after_char c none = none
after_char c (some []) = none
after_char c (some (d ∷ cs)) = if nat_eq c d then some cs else none

-- /^\d{4}-\d{2}-\d{2}T/
unfoldable pub after_date : Chars → Option Chars
unfolding after_digits after_char
after_date cs =
    after_char b'T' (
      after_digits 2
        (after_char b'-' (after_digits 2 (after_char b'-' (after_digits 4 (some cs))))))

digit_char : ℕ → Char
digit_char n =
    if nat_eq n 0
    then "0"
    else if nat_eq n 1
    then "1"
    else if nat_eq n 2
    then "2"
    else if nat_eq n 3
    then "3"
    else if nat_eq n 4
    then "4"
    else if nat_eq n 5
    then "5"
    else if nat_eq n 6
    then "6"
    else if nat_eq n 7
    then "7"
    else if nat_eq n 8
    then "8"
    else "9"

unfoldable pub digits_from : ℕ → ℕ → String → String
unfolding digit_char
digits_from zero n acc = acc
digits_from (suc fuel) n acc =
    let rest = digits_from fuel (n / 10) (String.◌∷◌ (digit_char (n % 10)) acc) in
    if ltb n 10 then String.◌∷◌ (digit_char n) acc else rest

-- n.toString(); a number has at most `n + 1` digits.
unfoldable pub text_of_nat : ℕ → String
unfolding digits_from
text_of_nat n = digits_from (suc n) n ""

code-digit_char : (n : ℕ) → ltb n 10 ≡ true → code (digit_char n) ≡ b'0' + n
unfolding digit_char
code-digit_char zero h = refl
code-digit_char (suc zero) h = refl
code-digit_char (suc (suc zero)) h = refl
code-digit_char (suc (suc (suc zero))) h = refl
code-digit_char (suc (suc (suc (suc zero)))) h = refl
code-digit_char (suc (suc (suc (suc (suc zero))))) h = refl
code-digit_char (suc (suc (suc (suc (suc (suc zero)))))) h = refl
code-digit_char (suc (suc (suc (suc (suc (suc (suc zero))))))) h = refl
code-digit_char (suc (suc (suc (suc (suc (suc (suc (suc zero)))))))) h = refl
code-digit_char (suc (suc (suc (suc (suc (suc (suc (suc (suc zero))))))))) h = refl
code-digit_char (suc (suc (suc (suc (suc (suc (suc (suc (suc (suc n)))))))))) h =
    absurd (ground arith)

codes-digits_from :
    (fuel n : ℕ) (acc : String) → codes (digits_from fuel n acc) ≡ print_from fuel n (codes acc)
unfolding digits_from print_from codes
codes-digits_from zero n acc = refl
codes-digits_from (suc fuel) n acc = ground (
  arith,
  code-digit_char n,
  code-digit_char (n % 10),
  codes-digits_from fuel (n / 10) (String.◌∷◌ (digit_char (n % 10)) acc),
)

-- Both ways to print a number agree.
pub codes-text_of_nat : (n : ℕ) → codes (text_of_nat n) ≡ print n
unfolding text_of_nat print codes
codes-text_of_nat n = codes-digits_from (suc n) n ""
