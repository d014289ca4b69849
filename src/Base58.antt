-- ===== src/Base58.antt =====
-- Base58 texts, and the tests for Solana addresses and signatures
-- (src/adapters/solana/validation.ts).
pub mod Laws
pub mod Canonical
pub mod Alphabet
pub mod Encoded
pub mod RoundTrip
use machina_sol.Prelude.{
  ℕ, zero, suc, ◌+◌, ◌*◌, ◌/◌, ◌%◌, Bool, true, false, not, ◌&&◌, Option, none, some, List, [], ◌∷◌,
  ◌++◌, String, codes, length, all, leb, nat_eq, if◌then◌else◌,
}
use machina_sol.Chars.{Chars}

abbrev pub alphabet : Chars
unfolding codes
alphabet = codes "123456789ABCDEFGHJKLMNPQRSTUVWXYZabcdefghijkmnopqrstuvwxyz"

-- ALPHABET.indexOf(char), where `none` is -1
unfoldable pub index_of : ℕ → Chars → Option ℕ
index_of c [] = none
index_of c (a ∷ as') =
    let rest = index_of c as' in
    if nat_eq a c then some 0 else elim rest [ none ↦ none | some i ↦ some (suc i) ]

-- while (carry > 0) push(carry % base), carry / base; as many turns as the carry is large are enough.
unfoldable pub push_carry : ℕ → ℕ → ℕ → List ℕ
push_carry base zero carry = []
push_carry base (suc turns) carry =
    let rest = push_carry base turns (carry / base) in
    if nat_eq carry 0 then [] else (carry % base) ∷ rest

-- One turn of the outer loop: every digit, the lowest first, is multiplied by `factor`, and the
-- carry goes on. For the base 256, `carry & 0xff` is the rest and `carry >> 8` the quotient.
unfoldable pub mul_add : ℕ → ℕ → ℕ → List ℕ → List ℕ
unfolding push_carry
mul_add base factor carry [] = push_carry base carry carry
mul_add base factor carry (d ∷ ds) =
    ((carry + d * factor) % base) ∷ mul_add base factor ((carry + d * factor) / base) ds

-- The loop over the characters; a character outside the alphabet throws.
unfoldable pub decode_digits : List ℕ → Chars → Option (List ℕ)
unfolding mul_add index_of
decode_digits bytes [] = some bytes
decode_digits bytes (c ∷ cs) = elim (index_of c alphabet) [
  | none ↦ none
  | some i ↦ decode_digits (mul_add 256 58 i bytes) cs
]

-- The items in front that are `x`.
unfoldable pub leading : ℕ → List ℕ → ℕ
leading x [] = 0
leading x (y ∷ ys) = let rest = leading x ys in if nat_eq y x then suc rest else 0

unfoldable pub repeat : ℕ → ℕ → List ℕ
repeat zero x = []
repeat (suc n) x = x ∷ repeat n x

unfoldable pub reverse : List ℕ → List ℕ
reverse [] = []
reverse (x ∷ xs) = reverse xs ++ (x ∷ [])

-- `none` where the code throws; the empty text is no base58 text.
unfoldable pub decode_base58 : Chars → Option (List ℕ)
unfolding decode_digits leading repeat reverse
decode_base58 [] = none
decode_base58 (c ∷ cs) = elim (decode_digits [] (c ∷ cs)) [
  | none ↦ none
  | some bytes ↦ some (reverse (bytes ++ repeat (leading b'1' (c ∷ cs)) 0))
]

unfoldable pub encode_digits : List ℕ → List ℕ → List ℕ
unfolding mul_add
encode_digits digits [] = digits
encode_digits digits (byte ∷ bytes) = encode_digits (mul_add 58 256 byte digits) bytes

-- ALPHABET[digit]
unfoldable pub char_at : ℕ → Chars → ℕ
char_at i [] = 0
char_at zero (c ∷ cs) = c
char_at (suc i) (c ∷ cs) = char_at i cs

unfoldable pub chars_of : List ℕ → Chars
unfolding char_at
chars_of [] = []
chars_of (d ∷ ds) = char_at d alphabet ∷ chars_of ds

-- .replace(/^1(?=1*$)/u, '')
unfoldable pub drop_only_ones : Chars → Chars
drop_only_ones [] = []
drop_only_ones (c ∷ cs) = if all (λ d. nat_eq d b'1') (c ∷ cs) then cs else c ∷ cs

unfoldable pub encode_base58 : List ℕ → Chars
unfolding encode_digits leading repeat reverse chars_of drop_only_ones
encode_base58 [] = []
encode_base58 (b ∷ bs) =
    repeat (leading 0 (b ∷ bs)) b'1'
    ++ drop_only_ones (chars_of (reverse (encode_digits (0 ∷ []) (b ∷ bs))))

decodes_to : ℕ → Option (List ℕ) → Bool
decodes_to n none = false
decodes_to n (some bytes) = nat_eq (length bytes) n

-- A text of 32 to 44 characters that decodes to 32 bytes.
unfoldable pub is_solana_address : String → Bool
unfolding decodes_to decode_base58
is_solana_address text =
    leb 32 (length (codes text))
    && (leb (length (codes text)) 44 && decodes_to 32 (decode_base58 (codes text)))

-- A text of 64 to 88 characters that decodes to 64 bytes.
unfoldable pub is_solana_signature : String → Bool
unfolding decodes_to decode_base58
is_solana_signature text =
    leb 64 (length (codes text))
    && (leb (length (codes text)) 88 && decodes_to 64 (decode_base58 (codes text)))
