-- ===== src/Session.antt =====
-- Machine sessions (src/sessions/session.ts). There is one chain.
use machina_sol.Prelude.{
  ℕ, String, not, ◌||◌, Option, none, some, ltb, codes, ◌==◌, if◌then◌else◌, Result, ok, err, ◌>>=◌,
  is_some, or_default,
}
use machina_sol.Texts.{◌^^◌, after_date, trim_text, text_length}
use machina_sol.Json.{Json}
use machina_sol.Base58.{is_solana_address}
use machina_sol.Machine.{validate_machine_id}
use machina_sol.Telemetry.Checks.{Dates}

pub data RuntimeMode : Type 0 where
  fixture live_read : RuntimeMode

pub record CreateMachineSessionInput : Type 0 where
  pub wallet_address : String
  pub machine_id : String
  pub operator_id : String
  pub policy_profile_id : Option String
  pub machine_label : Option String
  pub mode : Option RuntimeMode
  pub nonce : Option String
  pub now : Option String
  pub metadata : Option Json

pub record MachineSession : Type 0 where
  pub session_id : String
  pub chain : String
  pub wallet_address : String
  pub machine_id : String
  pub machine_label : Option String
  pub operator_id : String
  pub policy_profile_id : String
  pub created_at : String
  pub updated_at : String
  pub mode : RuntimeMode
  pub nonce : String
  pub metadata : Option Json

-- The message of a text that is too long also names the maximum.
unfoldable pub clean : String → String → ℕ → Result String
clean value field most =
    let trimmed = trim_text value in
    if trimmed == ""
    then err (field ^^ " is required")
    else if ltb most (text_length trimmed)
    then err (field ^^ " is too long")
    else ok trimmed

unfoldable pub optional_clean : Option String → String → ℕ → Result (Option String)
optional_clean none field most = ok none
optional_clean (some value) field most =
    let trimmed = trim_text value in
    if trimmed == ""
    then ok none
    else if ltb most (text_length trimmed)
    then err (field ^^ " is too long")
    else ok (some trimmed)

-- A given time is kept as it is; `at` is the time where none is given.
unfoldable pub timestamp : Dates → Option String → String → Result String
timestamp dates none at = ok at
timestamp dates (some value) at =
    if not (is_some (after_date (codes value))) || not (is_some (dates.time value))
    then err "now must be a valid ISO timestamp"
    else ok value

unfoldable pub validate_wallet_for_rail : String → Result (Unit {0})
validate_wallet_for_rail wallet_address =
    if not (is_solana_address wallet_address) then err "invalid Solana wallet address" else ok tt

-- The input [chain, …, createdAt].join('|') of the hash.
unfoldable pub session_seed :
    (wallet_address machine_id operator_id policy_profile_id nonce created_at : String) → String
session_seed wallet_address machine_id operator_id policy_profile_id nonce created_at =
    "solana|" ^^ wallet_address ^^ "|" ^^ machine_id ^^ "|" ^^ operator_id ^^ "|"
    ^^ policy_profile_id ^^ "|" ^^ nonce ^^ "|" ^^ created_at

-- mode === 'fixture' ? `${machineId}:${operatorId}:fixture` : randomUUID()
default_nonce : Option RuntimeMode → (machine_id operator_id fresh : String) → String
default_nonce (some RuntimeMode.fixture) machine_id operator_id fresh =
    machine_id ^^ ":" ^^ operator_id ^^ ":fixture"
default_nonce _ machine_id operator_id fresh = fresh

-- `hash` is the first 24 hexadecimal digits of SHA-256, `fresh` a UUID and `at` the time.
unfoldable pub create_machine_session :
    Dates
    → (String → String)
    → CreateMachineSessionInput
    → (fresh at : String) → Result MachineSession
unfolding default_nonce
create_machine_session dates hash input fresh at = do
  wallet_address ← clean input.wallet_address "walletAddress" 128
  _ ← validate_wallet_for_rail wallet_address
  machine_id ← clean input.machine_id "machineId" 64
  _ ← validate_machine_id machine_id
  operator_id ← clean input.operator_id "operatorId" 128
  policy_profile_id ←
      clean (or_default input.policy_profile_id "standard-machine-policy") "policyProfileId" 128
  machine_label ← optional_clean input.machine_label "machineLabel" 128
  supplied ← optional_clean input.nonce "nonce" 256
  created_at ← timestamp dates input.now at
  let nonce = or_default supplied (default_nonce input.mode machine_id operator_id fresh)
  ok (record {
    session_id =
        "mfi_solana_"
        ^^ hash
            (session_seed wallet_address machine_id operator_id policy_profile_id nonce created_at);
    chain = "solana";
    wallet_address = wallet_address;
    machine_id = machine_id;
    machine_label = machine_label;
    operator_id = operator_id;
    policy_profile_id = policy_profile_id;
    created_at = created_at;
    updated_at = created_at;
    mode = or_default input.mode RuntimeMode.live_read;
    nonce = nonce;
    metadata = input.metadata;
  })
