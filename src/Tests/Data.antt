-- ===== src/Tests/Data.antt =====
-- A small market: a request of a robot, an offer for it, and what follows.
use Prim.Native.Nat.{Ordering}
use machina_sol.Prelude.{none, some, [], ◌∷◌}
use machina_sol.Number.{of_nat}
use machina_sol.Store.Types.{
  WalletChallengeRecord, OwnedMachineRecord, PersistentResourceRequest, PersistentResourceQuote,
  PersistentAccessGrant, SettlementRecord, SettlementState, ResourceRequestState,
  ResourceQuoteState, AccessGrantState,
}
use machina_sol.Store.State.{Env, ProductionStore, empty_store}

-- An order of texts and a reading of numbers that are enough for the data below.
abbrev pub sample_env : Env
sample_env = record { locale_compare = λ a b. Ordering.eq; to_number = λ text. of_nat 2 }

abbrev pub robot : OwnedMachineRecord
robot = record {
  machine_id = "robot";
  owner_user_id = "ada";
  label = "Robot";
  role = "robot_arm";
  wallet_address = "ada-wallet";
  created_at = "2026-01-01";
  updated_at = "2026-01-01";
}

abbrev pub server : OwnedMachineRecord
server = record {
  machine_id = "server";
  owner_user_id = "bob";
  label = "Server";
  role = "edge_node";
  wallet_address = "bob-wallet";
  created_at = "2026-01-01";
  updated_at = "2026-01-01";
}

abbrev pub open_request : PersistentResourceRequest
open_request = record {
  id = "request";
  owner_user_id = "ada";
  requester_machine_id = "robot";
  capability_id = none;
  provider_machine_id = none;
  resource_type = "compute";
  quantity = "3";
  max_price = "2.5";
  preferred_rails = [];
  purpose = "train";
  quote_amount = none;
  quote_asset = none;
  state = ResourceRequestState.quoted;
  created_at = "2026-01-02";
  updated_at = "2026-01-02";
}

abbrev pub offer : PersistentResourceQuote
offer = record {
  id = "offer";
  resource_request_id = "request";
  provider_owner_user_id = "bob";
  provider_machine_id = "server";
  capability_id = "gpu";
  amount = "0.5";
  asset = "SOL";
  state = ResourceQuoteState.offered;
  expires_at = some "2026-02-01";
  created_at = "2026-01-03";
  updated_at = "2026-01-03";
}

abbrev pub rival : PersistentResourceQuote
rival = record offer { id = "rival"; provider_machine_id = "laptop"; amount = "0.75" }

abbrev pub offered_store : ProductionStore
offered_store = record empty_store {
  machines = ("robot", robot) ∷ ("server", server) ∷ [];
  wallet_users = ("ada-wallet", "ada") ∷ ("bob-wallet", "bob") ∷ [];
  requests = ("request", open_request) ∷ [];
  quotes = ("offer", offer) ∷ ("rival", rival) ∷ [];
}

abbrev pub accepted_request : PersistentResourceRequest
accepted_request = record open_request {
  capability_id = some "gpu";
  provider_machine_id = some "server";
  quote_amount = some "0.5";
  quote_asset = some "SOL";
  state = ResourceRequestState.accepted;
  updated_at = "2026-01-04";
}

abbrev pub accepted_offer : PersistentResourceQuote
accepted_offer = record offer { state = ResourceQuoteState.accepted; updated_at = "2026-01-04" }

abbrev pub pending_grant : PersistentAccessGrant
pending_grant = record {
  id = "grant";
  resource_request_id = "request";
  resource_quote_id = "offer";
  provider_owner_user_id = "bob";
  provider_machine_id = "server";
  requester_owner_user_id = "ada";
  requester_machine_id = "robot";
  state = AccessGrantState.pending;
  access_reference = none;
  expires_at = some "2026-02-01";
  created_at = "2026-01-05";
  updated_at = "2026-01-05";
}

abbrev pub accepted_store : ProductionStore
accepted_store = record offered_store {
  requests = ("request", accepted_request) ∷ [];
  quotes = ("offer", accepted_offer) ∷ [];
  grants = ("grant", pending_grant) ∷ [];
}

-- Three units at half a SOL are one and a half thousand million lamports.
abbrev pub payment : SettlementRecord
payment = record {
  id = "payment";
  resource_request_id = "request";
  resource_quote_id = "offer";
  owner_user_id = "ada";
  machine_id = "robot";
  source_wallet = "ada-wallet";
  recipient_wallet = "bob-wallet";
  amount_lamports = "1500000000";
  state = SettlementState.created;
  unsigned_transaction = none;
  transaction_signature = none;
  last_valid_block_height = none;
  error_code = none;
  created_at = "2026-01-06";
  updated_at = "2026-01-06";
}

abbrev pub login : WalletChallengeRecord
login = record {
  id = "login";
  wallet_address = "ada-wallet";
  message = "sign in";
  nonce_hash = "hash";
  expires_at = "2026-01-02";
  consumed_at = none;
}

abbrev pub login_store : ProductionStore
login_store = record empty_store { challenges = ("login", login) ∷ [] }
