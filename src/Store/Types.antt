-- ===== src/Store/Types.antt =====
-- The records of src/server/production/types.ts. Identifiers, timestamps (ISO 8601) and amounts are
-- strings; `null` is `none`. A union of string literals that the store only compares is a string,
-- and one that it branches on is a data type.
use machina_sol.Prelude.{String, Bool, Option, List}
use machina_sol.Json.{Json}
use machina_sol.Telemetry.Snapshot.{MachineTelemetrySnapshot}

pub record WalletChallengeRecord : Type 0 where
  pub id : String
  pub wallet_address : String
  pub message : String
  pub nonce_hash : String
  pub expires_at : String
  pub consumed_at : Option String

pub record AuthSessionRecord : Type 0 where
  pub id : String
  pub user_id : String
  pub wallet_address : String
  pub token_hash : String
  pub csrf_hash : String
  pub expires_at : String
  pub revoked_at : Option String

pub record OwnedMachineRecord : Type 0 where
  pub machine_id : String
  pub owner_user_id : String
  pub label : String
  pub role : String
  pub wallet_address : String
  pub created_at : String
  pub updated_at : String

pub record MachineCredentialRecord : Type 0 where
  pub id : String
  pub machine_id : String
  pub secret_hash : String
  pub label : String
  pub created_at : String
  pub expires_at : Option String
  pub revoked_at : Option String

pub record TelemetryEventRecord : Type 0 where
  pub id : String
  pub machine_id : String
  pub received_at : String
  pub snapshot : MachineTelemetrySnapshot

pub record PersistentMachineCapability : Type 0 where
  pub machine_id : String
  pub owner_user_id : String
  pub capability : String
  pub created_at : String

pub record PersistentRuntimeSession : Type 0 where
  pub session_id : String
  pub owner_user_id : String
  pub machine_id : String
  pub chain : String
  pub wallet_address : String
  pub operator_id : String
  pub policy_profile_id : String
  pub mode : String
  pub nonce_hash : String
  pub metadata : Json
  pub created_at : String
  pub updated_at : String
  pub ended_at : Option String

pub record PersistentWorkOrder : Type 0 where
  pub work_order_id : String
  pub owner_user_id : String
  pub machine_id : Option String
  pub stage : String
  pub required_capabilities : List String
  pub telemetry_required : Bool
  pub proof_required : Bool
  pub expected_outputs : List String
  pub settlement_chain : String
  pub settlement_amount : String
  pub settlement_asset : String
  pub settlement_recipient : String
  pub telemetry_ref : Option String
  pub proof_id : Option String
  pub settlement_intent_id : Option String
  pub result_ref : Option String
  pub created_at : String
  pub updated_at : String

pub data Availability : Type 0 where
  available limited unavailable : Availability

pub record ProviderCapabilityRow : Type 0 where
  pub id : String
  pub provider_machine_id : String
  pub owner_user_id : String
  pub resource_type : String
  pub label : String
  pub unit : String
  pub rail_tags : List String
  pub availability : Availability
  pub price_amount : Option String
  pub price_asset : Option String
  pub created_at : String
  pub updated_at : String

pub record ProviderCapabilityPatch : Type 0 where
  pub label : String
  pub unit : String
  pub rail_tags : List String
  pub availability : Availability
  pub price_amount : Option String
  pub price_asset : Option String
  pub updated_at : String

pub data ResourceRequestState : Type 0 where
  pending quoted accepted granted fulfilled rejected cancelled : ResourceRequestState

pub record PersistentResourceRequest : Type 0 where
  pub id : String
  pub owner_user_id : String
  pub requester_machine_id : String
  pub capability_id : Option String
  pub provider_machine_id : Option String
  pub resource_type : String
  pub quantity : String
  pub max_price : String
  pub preferred_rails : List String
  pub purpose : String
  pub quote_amount : Option String
  pub quote_asset : Option String
  pub state : ResourceRequestState
  pub created_at : String
  pub updated_at : String

pub data ResourceQuoteState : Type 0 where
  offered accepted declined withdrawn expired : ResourceQuoteState

pub record PersistentResourceQuote : Type 0 where
  pub id : String
  pub resource_request_id : String
  pub provider_owner_user_id : String
  pub provider_machine_id : String
  pub capability_id : String
  pub amount : String
  pub asset : String
  pub state : ResourceQuoteState
  pub expires_at : Option String
  pub created_at : String
  pub updated_at : String

pub record CreateResourceQuoteInput : Type 0 where
  pub resource_request_id : String
  pub capability_id : String
  pub amount : String
  pub asset : String
  pub expires_at : Option String

pub data AccessGrantState : Type 0 where
  pending active revoked expired : AccessGrantState

pub record PersistentAccessGrant : Type 0 where
  pub id : String
  pub resource_request_id : String
  pub resource_quote_id : String
  pub provider_owner_user_id : String
  pub provider_machine_id : String
  pub requester_owner_user_id : String
  pub requester_machine_id : String
  pub state : AccessGrantState
  pub access_reference : Option String
  pub expires_at : Option String
  pub created_at : String
  pub updated_at : String

pub data ResourceReceiptState : Type 0 where
  recorded verified rejected : ResourceReceiptState

pub record PersistentResourceReceipt : Type 0 where
  pub id : String
  pub resource_request_id : String
  pub access_grant_id : String
  pub settlement_id : Option String
  pub provider_owner_user_id : String
  pub requester_owner_user_id : String
  pub state : ResourceReceiptState
  pub evidence_reference : Option String
  pub result_reference : Option String
  pub created_at : String
  pub updated_at : String

pub data SettlementState : Type 0 where
  created awaiting_signature submitting submitted confirmed failed cancelled : SettlementState

pub record SettlementRecord : Type 0 where
  pub id : String
  pub resource_request_id : String
  pub resource_quote_id : String
  pub owner_user_id : String
  pub machine_id : String
  pub source_wallet : String
  pub recipient_wallet : String
  pub amount_lamports : String
  pub state : SettlementState
  pub unsigned_transaction : Option String
  pub transaction_signature : Option String
  pub last_valid_block_height : Option String
  pub error_code : Option String
  pub created_at : String
  pub updated_at : String

-- The parts of a settlement that a receipt's reader sees.
pub record ReceiptSettlementProjection : Type 0 where
  pub id : String
  pub resource_request_id : String
  pub state : SettlementState
  pub transaction_signature : Option String
  pub updated_at : String

pub record ResourceRequestLifecycle : Type 0 where
  pub resource_request_id : String
  pub quotes : List PersistentResourceQuote
  pub grant : Option PersistentAccessGrant
  pub receipt : Option PersistentResourceReceipt
  pub receipt_settlement : Option ReceiptSettlementProjection
