-- ===== src/Transactions/Heights.antt =====
-- Block heights, and whether a blockhash is still valid.
use machina_sol.Prelude.{
  ℕ, ◌-◌, String, Bool, true, false, ltb, Option, none, some, codes, if◌then◌else◌,
}
use machina_sol.Chars.{big_int}
use machina_sol.Decimal.{is_digits1}
use machina_sol.Json.{Json, safe_nat}
use machina_sol.Transactions.Flow.{
  ErrorCode, Checked, done, fail, Answer, answered, thrown, RpcTransport, Flow, lift, request,
  ◌>>=◌,
}

is_height_unavailable : ErrorCode → Bool
is_height_unavailable ErrorCode.blockheight_unavailable = true
is_height_unavailable _ = false

height_or : ErrorCode → Option ℕ → Checked ℕ
unfolding is_height_unavailable
height_or code none = fail code (is_height_unavailable code)
height_or code (some n) = done n

-- A safe number that is not negative, or a text of digits, at least one.
unfoldable pub parse_height : Json → ErrorCode → Checked ℕ
unfolding height_or
parse_height (Json.number n) code = height_or code (safe_nat n)
parse_height (Json.string text) code =
    height_or code (if is_digits1 (codes text) then some (big_int (codes text)) else none)
parse_height _ code = height_or code none

-- The heights; the code prints them as decimal texts.
pub data BlockhashValidity : Type 0 where
  valid : (current_block_height last_valid_block_height remaining_blocks : ℕ) → BlockhashValidity
  expired : (current_block_height last_valid_block_height expired_by_blocks : ℕ) → BlockhashValidity

unfoldable pub height_answered : Answer → Checked ℕ
unfolding parse_height
height_answered (answered raw) = parse_height raw ErrorCode.blockheight_unavailable
height_answered (thrown text) = fail ErrorCode.blockheight_unavailable true

unfoldable pub validity_at : ℕ → ℕ → BlockhashValidity
validity_at current last_valid =
    if ltb last_valid current
    then BlockhashValidity.expired current last_valid (current - last_valid)
    else BlockhashValidity.valid current last_valid (last_valid - current)

-- The height that the node names, against the last valid one.
unfoldable pub height_against : RpcTransport → ℕ → Flow BlockhashValidity
unfolding height_answered validity_at
height_against t last_valid = do
  raw ← request t "getBlockHeight"
  current ← lift (height_answered raw)
  lift (done (validity_at current last_valid))

unfoldable pub check_blockhash_validity : RpcTransport → String → Flow BlockhashValidity
unfolding height_against
check_blockhash_validity t last_valid_block_height = do
  last_valid ←
      lift (parse_height (Json.string last_valid_block_height) ErrorCode.invalid_blockhash_response)
  height_against t last_valid
