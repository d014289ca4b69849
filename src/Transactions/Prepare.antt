-- ===== src/Transactions/Prepare.antt =====
-- The transfer that the server prepares, and the check that what comes back signed is that transfer.
use machina_sol.Prelude.{
  ℕ, ◌≡◌, ◌<◌, ◌≤◌, String, Bool, true, false, not, ◌||◌, ◌&&◌, ltb, leb, nat_eq, Option, none,
  some, List, ◌++◌, all, length, codes, units, if◌then◌else◌, if_cases, option_cases, arith,
}
use machina_sol.Number.{ℤ, pos, negsuc}
use machina_sol.Chars.{Chars, trim, chars_eq}
use machina_sol.Chars.Laws.{chars_eq-eq}
use machina_sol.Json.{Json, member, truthy}
use machina_sol.Base58.{is_solana_address, is_solana_signature}
use machina_sol.Transactions.Flow.{
  ErrorCode, Checked, done, fail, Answer, answered, thrown, RpcTransport, Flow, lift, request,
  ◌>>=◌, type_error,
}
use machina_sol.Transactions.Heights.{parse_height}

pub record DecodedTransaction : Type 0 where
  pub message_bytes : List ℕ
  -- what assertIsFullySignedTransaction accepts
  pub is_fully_signed : Bool
  pub signature : String

-- Of @solana/kit and Node: the compiled transfer with a memo, as a base64 text, where `none` is an
-- error; Buffer.from(text, 'base64'); and the transaction decoder.
pub record Kit : Type 0 where
  pub compile :
      (source recipient : String) → ℕ → (blockhash : String) → ℕ → (memo : Chars) → Option String
  pub from_base64 : String → List ℕ
  pub decode : List ℕ → Option DecodedTransaction

pub record PreparedTransaction : Type 0 where
  pub base64 : String
  pub last_valid_block_height : ℕ

within : ℕ → ℕ → ℕ → Bool
within low high c = leb low c && leb c high

-- [A-Za-z0-9:_-]
unfoldable pub is_reference_char : ℕ → Bool
unfolding within
is_reference_char c =
    within b'A' b'Z' c
    || (within b'a' b'z' c
        || (within b'0' b'9' c || (nat_eq c b':' || (nat_eq c b'_' || nat_eq c b'-'))))

-- /^[A-Za-z0-9:_-]{1,128}$/u
unfoldable pub is_reference : Chars → Bool
is_reference cs = leb 1 (length cs) && (leb (length cs) 128 && all is_reference_char cs)

abbrev pub memo_of : Chars → Chars
memo_of reference = codes "machinefi:settlement:" ++ reference

is_positive : ℤ → Option ℕ
is_positive (negsuc n) = none
is_positive (pos n) = if nat_eq n 0 then none else some n

-- A text that is more than blanks.
blockhash_of : Json → Option String
blockhash_of (Json.string text) = if nat_eq (length (trim (codes text))) 0 then none else some text
blockhash_of _ = none

compiled : Option String → ℕ → Checked PreparedTransaction
compiled none last_valid = fail ErrorCode.invalid_blockhash_response false
compiled (some base64) last_valid =
    done record { base64 = base64; last_valid_block_height = last_valid }

height_field : Json → Checked ℕ
height_field value = elim (member "lastValidBlockHeight" value) [
  | none ↦ type_error
  | some height ↦ parse_height height ErrorCode.invalid_blockhash_response
]

unfoldable pub then_compile :
    Kit → (source recipient : String) → ℕ → String → Chars → Checked ℕ → Checked PreparedTransaction
unfolding compiled
then_compile kit source recipient amount blockhash memo (Checked.done height) =
    compiled (kit.compile source recipient amount blockhash height memo) height
then_compile kit source recipient amount blockhash memo (Checked.failed e) = Checked.failed e
then_compile kit source recipient amount blockhash memo Checked.type_error = type_error

with_value : Kit → (source recipient : String) → ℕ → Chars → Json → Checked PreparedTransaction
unfolding blockhash_of height_field then_compile
with_value kit source recipient amount memo value =
    if not (truthy value)
    then fail ErrorCode.invalid_blockhash_response false
    else elim (member "blockhash" value) [
      | none ↦ type_error
      | some text ↦ elim (blockhash_of text) [
        | none ↦ fail ErrorCode.invalid_blockhash_response false
        | some blockhash ↦
            then_compile kit source recipient amount blockhash memo (height_field value)
      ]
    ]

unfoldable pub with_latest :
    Kit → (source recipient : String) → ℕ → Chars → Answer → Checked PreparedTransaction
unfolding with_value
with_latest kit source recipient amount memo (thrown text) =
    fail ErrorCode.invalid_blockhash_response true
with_latest kit source recipient amount memo (answered latest) = elim (member "value" latest) [
  | none ↦ type_error
  | some value ↦ with_value kit source recipient amount memo value
]

unfoldable pub prepare_sol_transfer :
    Kit
    → RpcTransport
    → (source recipient : String) → ℤ
    → (reference : String) → Flow PreparedTransaction
unfolding is_positive is_reference
prepare_sol_transfer kit t source recipient amount settlement_reference =
    let reference = trim (codes settlement_reference) in
    if not (is_solana_address source) || not (is_solana_address recipient)
    then lift (fail ErrorCode.invalid_settlement_address false)
    else elim (is_positive amount) [
      | none ↦ lift (fail ErrorCode.invalid_settlement_amount false)
      | some lamports ↦
          if not (is_reference reference)
          then lift (fail ErrorCode.invalid_settlement_reference false)
          else do
            latest ← request t "getLatestBlockhash"
            lift (with_latest kit source recipient lamports (memo_of reference) latest)
    ]

abbrev pub max_signed_transaction_bytes : ℕ
max_signed_transaction_bytes = 1232

-- Math.ceil(MAX_SIGNED_TRANSACTION_BYTES * 4 / 3) + 8
abbrev pub max_signed_text : ℕ
max_signed_text = 1651

compared : List ℕ → DecodedTransaction → DecodedTransaction → Checked (String × List ℕ)
compared bytes signed unsigned =
    if not (chars_eq signed.message_bytes unsigned.message_bytes)
    then fail ErrorCode.transaction_message_mismatch false
    else if not signed.is_fully_signed
    then fail ErrorCode.transaction_not_fully_signed false
    else if not (is_solana_signature signed.signature)
    then fail ErrorCode.invalid_transaction_signature false
    else done (signed.signature, bytes)

decoded : Kit → List ℕ → String → Checked (String × List ℕ)
unfolding compared
decoded kit bytes expected = elim (kit.decode bytes) [
  | none ↦ fail ErrorCode.invalid_signed_transaction false
  | some signed ↦ elim (kit.decode (kit.from_base64 expected)) [
    | none ↦ fail ErrorCode.invalid_signed_transaction false
    | some unsigned ↦ compared bytes signed unsigned
  ]
]

unfoldable pub inspect_signed_transaction :
    Kit → (signed expected : String) → Checked (String × List ℕ)
unfolding decoded
inspect_signed_transaction kit signed_base64 expected_unsigned_base64 =
    let bytes = kit.from_base64 signed_base64 in
    if ltb max_signed_text (length (units signed_base64))
    then fail ErrorCode.signed_transaction_too_large false
    else if nat_eq (length bytes) 0
    then fail ErrorCode.invalid_signed_transaction false
    else if ltb max_signed_transaction_bytes (length bytes)
    then fail ErrorCode.signed_transaction_too_large false
    else decoded kit bytes expected_unsigned_base64

-- The signed transaction is the one that the server prepared.
pub record IsInspected (kit : Kit) (signed_base64 expected : String) (signature : String)
    (bytes : List ℕ) : Type 0 where
  pub same_bytes : bytes ≡ kit.from_base64 signed_base64
  pub not_empty : 0 < length bytes
  pub fits : length bytes ≤ 1232
  pub message :
      (signed unsigned : DecodedTransaction) × (kit.decode bytes ≡ some signed)
      × (kit.decode (kit.from_base64 expected) ≡ some unsigned)
      × (signed.message_bytes ≡ unsigned.message_bytes)
      × (signed.is_fully_signed ≡ true)
      × (signed.signature ≡ signature)
  pub is_signature : is_solana_signature signature ≡ true

-- A signed transaction is accepted only if its message is, byte for byte, the message that the
-- server prepared, it is fully signed by a well-formed signature, and it fits in a packet.
pub inspect_signed_transaction-IsInspected :
    (kit : Kit) (signed expected signature : String) (bytes : List ℕ)
    → inspect_signed_transaction kit signed expected ≡ done (signature, bytes)
    → IsInspected kit signed expected signature bytes
unfolding inspect_signed_transaction decoded compared
inspect_signed_transaction-IsInspected kit signed expected signature bytes =
    if_cases P (ltb max_signed_text (length (units signed))) _ _ (λ _ h. absurd (ground arith))
      λ _.
        if_cases P (nat_eq (length (kit.from_base64 signed)) 0) _ _ (λ _ h. absurd (ground arith))
          λ some_bytes.
            if_cases P (ltb max_signed_transaction_bytes (length (kit.from_base64 signed))) _ _
              (λ _ h. absurd (ground arith))
              λ small.
                option_cases P (kit.decode (kit.from_base64 signed)) _ _
                  (λ _ h. absurd (ground arith))
                  λ s e.
                    option_cases P (kit.decode (kit.from_base64 expected)) _ _
                      (λ _ h. absurd (ground arith))
                      λ u f.
                        if_cases P (not (chars_eq s.message_bytes u.message_bytes)) _ _
                          (λ _ h. absurd (ground arith))
                          λ same.
                            if_cases P (not s.is_fully_signed) _ _ (λ _ h. absurd (ground arith))
                              λ full.
                                if_cases P (not (is_solana_signature s.signature)) _ _
                                  (λ _ h. absurd (ground arith))
                                  λ formed h. record {
                                    same_bytes = ground arith;
                                    not_empty = ground arith;
                                    fits = ground arith;
                                    message = (
                                      s,
                                      u,
                                      ground arith,
                                      f,
                                      chars_eq-eq s.message_bytes u.message_bytes (ground arith),
                                      ground arith,
                                      ground arith,
                                    );
                                    is_signature = ground arith;
                                  }
  where
    P : Checked (String × List ℕ) → Type 0
    P r = r ≡ done (signature, bytes) → IsInspected kit signed expected signature bytes
