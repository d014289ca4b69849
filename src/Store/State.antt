-- ===== src/Store/State.antt =====
-- The maps of `MemoryProductionStore` (src/server/production/memory-store.ts), and what it calls of
-- the environment.
use machina_sol.Prelude.{String, Bool, true, false, Option, none, some, [], Ordering, text_le}
use machina_sol.Number.{Number}
use machina_sol.Dict.{Dict}
use machina_sol.Store.Types.{
  WalletChallengeRecord, AuthSessionRecord, OwnedMachineRecord, MachineCredentialRecord,
  TelemetryEventRecord, PersistentMachineCapability, PersistentRuntimeSession, PersistentWorkOrder,
  ProviderCapabilityRow, PersistentResourceRequest, PersistentResourceQuote, PersistentAccessGrant,
  PersistentResourceReceipt, SettlementRecord, ResourceRequestState, ResourceQuoteState,
  AccessGrantState, ResourceReceiptState, Availability,
}

-- `String.prototype.localeCompare`, whose order depends on the locale, and `Number(text)`, which
-- rounds a text to a double.
pub record Env : Type 0 where
  pub locale_compare : String → String → Ordering
  pub to_number : String → Number

pub record ProductionStore : Type 0 where
  pub challenges : Dict WalletChallengeRecord
  pub sessions : Dict AuthSessionRecord
  pub wallet_users : Dict String
  pub machines : Dict OwnedMachineRecord
  pub credentials : Dict MachineCredentialRecord
  pub telemetry : Dict TelemetryEventRecord
  pub capabilities : Dict ProviderCapabilityRow
  pub machine_capabilities : Dict PersistentMachineCapability
  pub runtime_sessions : Dict PersistentRuntimeSession
  pub work_orders : Dict PersistentWorkOrder
  pub requests : Dict PersistentResourceRequest
  pub quotes : Dict PersistentResourceQuote
  pub grants : Dict PersistentAccessGrant
  pub resource_receipts : Dict PersistentResourceReceipt
  pub settlements : Dict SettlementRecord

abbrev pub empty_store : ProductionStore
empty_store = record {
  challenges = [];
  sessions = [];
  wallet_users = [];
  machines = [];
  credentials = [];
  telemetry = [];
  capabilities = [];
  machine_capabilities = [];
  runtime_sessions = [];
  work_orders = [];
  requests = [];
  quotes = [];
  grants = [];
  resource_receipts = [];
  settlements = [];
}

-- `expiresAt !== null && expiresAt <= now`
unfoldable pub is_expired : Option String → String → Bool
is_expired none now = false
is_expired (some at) now = text_le at now

-- ['pending', 'quoted'].includes(state)
abbrev pub is_open : ResourceRequestState → Bool
is_open ResourceRequestState.pending = true
is_open ResourceRequestState.quoted = true
is_open _ = false

abbrev pub is_offered : ResourceQuoteState → Bool
is_offered ResourceQuoteState.offered = true
is_offered _ = false

abbrev pub is_accepted : ResourceQuoteState → Bool
is_accepted ResourceQuoteState.accepted = true
is_accepted _ = false

-- !['declined', 'withdrawn', 'expired'].includes(state)
abbrev pub is_live_quote : ResourceQuoteState → Bool
is_live_quote ResourceQuoteState.offered = true
is_live_quote ResourceQuoteState.accepted = true
is_live_quote _ = false

-- state === 'pending' || state === 'active'
abbrev pub is_live_grant : AccessGrantState → Bool
is_live_grant AccessGrantState.pending = true
is_live_grant AccessGrantState.active = true
is_live_grant _ = false

-- state !== 'rejected'
abbrev pub is_live_receipt : ResourceReceiptState → Bool
is_live_receipt ResourceReceiptState.rejected = false
is_live_receipt _ = true

abbrev pub is_unavailable : Availability → Bool
is_unavailable Availability.unavailable = true
is_unavailable _ = false
