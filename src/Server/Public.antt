-- ===== src/Server/Public.antt =====
-- What the routes show of the records (the `public…` functions of src/server/production/app.ts):
-- JSON objects without the users who own them, and without hashes of secrets.
use machina_sol.Prelude.{String, Bool, Option, none, some, List, [], ◌∷◌, map}
use machina_sol.Number.{Number}
use machina_sol.Json.{Json, Items, Fields}
use machina_sol.Telemetry.Snapshot.{MachineTelemetrySnapshot, MachineHealth, Location, Pose}
use machina_sol.Store.Types.{
  OwnedMachineRecord, MachineCredentialRecord, TelemetryEventRecord, PersistentMachineCapability,
  PersistentRuntimeSession, PersistentWorkOrder, ProviderCapabilityRow, PersistentResourceRequest,
  PersistentResourceQuote, PersistentAccessGrant, PersistentResourceReceipt, SettlementRecord,
  ReceiptSettlementProjection, Availability, ResourceRequestState, ResourceQuoteState,
  AccessGrantState, ResourceReceiptState, SettlementState,
}

abbrev pub text : String → Json
text s = Json.string s

abbrev pub flag : Bool → Json
flag b = Json.boolean b

abbrev pub nullable : Option String → Json
nullable none = Json.null
nullable (some s) = Json.string s

-- A field that is left out has the value `undefined`.
abbrev pub optional : Option String → Json
optional none = Json.undefined
optional (some s) = Json.string s

optional_number : Option Number → Json
optional_number none = Json.undefined
optional_number (some n) = Json.number n

unfoldable pub items_of : List Json → Items
items_of [] = Items.no_items
items_of (v ∷ vs) = Items.item v (items_of vs)

abbrev pub array_of : List Json → Json
array_of vs = Json.array (items_of vs)

abbrev pub texts : List String → Json
texts ss = array_of (map text ss)

unfoldable pub fields_of : List (String × Json) → Fields
fields_of [] = Fields.no_fields
fields_of ((k, v) ∷ kvs) = Fields.field k v (fields_of kvs)

abbrev pub object_of : List (String × Json) → Json
object_of kvs = Json.object (fields_of kvs)

unfoldable pub public_machine : OwnedMachineRecord → Json
public_machine m = object_of (
    ("machineId", text m.machine_id)
    ∷ ("label", text m.label)
    ∷ ("role", text m.role)
    ∷ ("walletAddress", text m.wallet_address)
    ∷ ("createdAt", text m.created_at)
    ∷ ("updatedAt", text m.updated_at)
    ∷ [])

unfoldable pub public_machine_credential : MachineCredentialRecord → Json
public_machine_credential c = object_of (
    ("id", text c.id)
    ∷ ("label", text c.label)
    ∷ ("createdAt", text c.created_at)
    ∷ ("expiresAt", nullable c.expires_at)
    ∷ ("revokedAt", nullable c.revoked_at)
    ∷ ("scope", text "telemetry:write")
    ∷ [])

unfoldable pub public_machine_capability : PersistentMachineCapability → Json
public_machine_capability c = object_of (
    ("machineId", text c.machine_id)
    ∷ ("capability", text c.capability)
    ∷ ("createdAt", text c.created_at)
    ∷ [])

unfoldable pub public_runtime_session : PersistentRuntimeSession → Json
public_runtime_session r = object_of (
    ("sessionId", text r.session_id)
    ∷ ("machineId", text r.machine_id)
    ∷ ("chain", text r.chain)
    ∷ ("walletAddress", text r.wallet_address)
    ∷ ("operatorId", text r.operator_id)
    ∷ ("policyProfileId", text r.policy_profile_id)
    ∷ ("mode", text r.mode)
    ∷ ("metadata", r.metadata)
    ∷ ("createdAt", text r.created_at)
    ∷ ("updatedAt", text r.updated_at)
    ∷ ("endedAt", nullable r.ended_at)
    ∷ [])

unfoldable pub public_work_order : PersistentWorkOrder → Json
public_work_order r = object_of (
    ("workOrderId", text r.work_order_id)
    ∷ ("machineId", nullable r.machine_id)
    ∷ ("stage", text r.stage)
    ∷ ("requiredCapabilities", texts r.required_capabilities)
    ∷ ("telemetryRequired", flag r.telemetry_required)
    ∷ ("proofRequired", flag r.proof_required)
    ∷ ("expectedOutputs", texts r.expected_outputs)
    ∷ ("settlementChain", text r.settlement_chain)
    ∷ ("settlementAmount", text r.settlement_amount)
    ∷ ("settlementAsset", text r.settlement_asset)
    ∷ ("settlementRecipient", text r.settlement_recipient)
    ∷ ("telemetryRef", nullable r.telemetry_ref)
    ∷ ("proofId", nullable r.proof_id)
    ∷ ("settlementIntentId", nullable r.settlement_intent_id)
    ∷ ("resultRef", nullable r.result_ref)
    ∷ ("createdAt", text r.created_at)
    ∷ ("updatedAt", text r.updated_at)
    ∷ [])

abbrev pub availability_text : Availability → String
availability_text Availability.available = "available"
availability_text Availability.limited = "limited"
availability_text Availability.unavailable = "unavailable"

unfoldable pub public_capability : ProviderCapabilityRow → Json
public_capability c = object_of (
    ("id", text c.id)
    ∷ ("providerMachineId", text c.provider_machine_id)
    ∷ ("resourceType", text c.resource_type)
    ∷ ("label", text c.label)
    ∷ ("unit", text c.unit)
    ∷ ("railTags", texts c.rail_tags)
    ∷ ("availability", text (availability_text c.availability))
    ∷ ("priceAmount", nullable c.price_amount)
    ∷ ("priceAsset", nullable c.price_asset)
    ∷ ("createdAt", text c.created_at)
    ∷ ("updatedAt", text c.updated_at)
    ∷ [])

abbrev request_state_text : ResourceRequestState → String
request_state_text ResourceRequestState.pending = "pending"
request_state_text ResourceRequestState.quoted = "quoted"
request_state_text ResourceRequestState.accepted = "accepted"
request_state_text ResourceRequestState.granted = "granted"
request_state_text ResourceRequestState.fulfilled = "fulfilled"
request_state_text ResourceRequestState.rejected = "rejected"
request_state_text ResourceRequestState.cancelled = "cancelled"

unfoldable pub public_request : PersistentResourceRequest → Json
public_request r = object_of (
    ("id", text r.id)
    ∷ ("requesterMachineId", text r.requester_machine_id)
    ∷ ("capabilityId", nullable r.capability_id)
    ∷ ("providerMachineId", nullable r.provider_machine_id)
    ∷ ("resourceType", text r.resource_type)
    ∷ ("quantity", text r.quantity)
    ∷ ("maxPrice", text r.max_price)
    ∷ ("preferredRails", texts r.preferred_rails)
    ∷ ("purpose", text r.purpose)
    ∷ ("quoteAmount", nullable r.quote_amount)
    ∷ ("quoteAsset", nullable r.quote_asset)
    ∷ ("state", text (request_state_text r.state))
    ∷ ("createdAt", text r.created_at)
    ∷ ("updatedAt", text r.updated_at)
    ∷ [])

abbrev quote_state_text : ResourceQuoteState → String
quote_state_text ResourceQuoteState.offered = "offered"
quote_state_text ResourceQuoteState.accepted = "accepted"
quote_state_text ResourceQuoteState.declined = "declined"
quote_state_text ResourceQuoteState.withdrawn = "withdrawn"
quote_state_text ResourceQuoteState.expired = "expired"

unfoldable pub public_quote : PersistentResourceQuote → Json
public_quote q = object_of (
    ("id", text q.id)
    ∷ ("resourceRequestId", text q.resource_request_id)
    ∷ ("providerMachineId", text q.provider_machine_id)
    ∷ ("capabilityId", text q.capability_id)
    ∷ ("amount", text q.amount)
    ∷ ("asset", text q.asset)
    ∷ ("state", text (quote_state_text q.state))
    ∷ ("expiresAt", nullable q.expires_at)
    ∷ ("createdAt", text q.created_at)
    ∷ ("updatedAt", text q.updated_at)
    ∷ [])

abbrev grant_state_text : AccessGrantState → String
grant_state_text AccessGrantState.pending = "pending"
grant_state_text AccessGrantState.active = "active"
grant_state_text AccessGrantState.revoked = "revoked"
grant_state_text AccessGrantState.expired = "expired"

unfoldable pub public_grant : PersistentAccessGrant → Json
public_grant g = object_of (
    ("id", text g.id)
    ∷ ("resourceRequestId", text g.resource_request_id)
    ∷ ("resourceQuoteId", text g.resource_quote_id)
    ∷ ("providerMachineId", text g.provider_machine_id)
    ∷ ("requesterMachineId", text g.requester_machine_id)
    ∷ ("state", text (grant_state_text g.state))
    ∷ ("accessReference", nullable g.access_reference)
    ∷ ("expiresAt", nullable g.expires_at)
    ∷ ("createdAt", text g.created_at)
    ∷ ("updatedAt", text g.updated_at)
    ∷ [])

abbrev receipt_state_text : ResourceReceiptState → String
receipt_state_text ResourceReceiptState.recorded = "recorded"
receipt_state_text ResourceReceiptState.verified = "verified"
receipt_state_text ResourceReceiptState.rejected = "rejected"

unfoldable pub public_receipt : PersistentResourceReceipt → Json
public_receipt r = object_of (
    ("id", text r.id)
    ∷ ("resourceRequestId", text r.resource_request_id)
    ∷ ("accessGrantId", text r.access_grant_id)
    ∷ ("settlementId", nullable r.settlement_id)
    ∷ ("state", text (receipt_state_text r.state))
    ∷ ("evidenceReference", nullable r.evidence_reference)
    ∷ ("resultReference", nullable r.result_reference)
    ∷ ("createdAt", text r.created_at)
    ∷ ("updatedAt", text r.updated_at)
    ∷ [])

abbrev pub settlement_state_text : SettlementState → String
settlement_state_text SettlementState.created = "created"
settlement_state_text SettlementState.awaiting_signature = "awaiting_signature"
settlement_state_text SettlementState.submitting = "submitting"
settlement_state_text SettlementState.submitted = "submitted"
settlement_state_text SettlementState.confirmed = "confirmed"
settlement_state_text SettlementState.failed = "failed"
settlement_state_text SettlementState.cancelled = "cancelled"

unfoldable pub public_settlement : SettlementRecord → Json
public_settlement t = object_of (
    ("id", text t.id)
    ∷ ("resourceRequestId", text t.resource_request_id)
    ∷ ("resourceQuoteId", text t.resource_quote_id)
    ∷ ("machineId", text t.machine_id)
    ∷ ("sourceWallet", text t.source_wallet)
    ∷ ("recipientWallet", text t.recipient_wallet)
    ∷ ("amountLamports", text t.amount_lamports)
    ∷ ("state", text (settlement_state_text t.state))
    ∷ ("unsignedTransaction", nullable t.unsigned_transaction)
    ∷ ("transactionSignature", nullable t.transaction_signature)
    ∷ ("lastValidBlockHeight", nullable t.last_valid_block_height)
    ∷ ("errorCode", nullable t.error_code)
    ∷ ("createdAt", text t.created_at)
    ∷ ("updatedAt", text t.updated_at)
    ∷ [])

-- The parts of a settlement that the store shows for a receipt, as they are.
unfoldable pub projection_json : ReceiptSettlementProjection → Json
projection_json p = object_of (
    ("id", text p.id)
    ∷ ("resourceRequestId", text p.resource_request_id)
    ∷ ("state", text (settlement_state_text p.state))
    ∷ ("transactionSignature", nullable p.transaction_signature)
    ∷ ("updatedAt", text p.updated_at)
    ∷ [])

abbrev health_text : MachineHealth → String
health_text MachineHealth.nominal = "nominal"
health_text MachineHealth.degraded = "degraded"
health_text MachineHealth.faulted = "faulted"
health_text MachineHealth.offline = "offline"

location_json : Option Location → Json
unfolding optional_number
location_json none = Json.undefined
location_json (some l) = object_of (
    ("lat", Json.number l.lat)
    ∷ ("lon", Json.number l.lon)
    ∷ ("altitudeM", optional_number l.altitude_m)
    ∷ [])

pose_json : Option Pose → Json
unfolding optional_number
pose_json none = Json.undefined
pose_json (some p) = object_of (
    ("x", Json.number p.x)
    ∷ ("y", Json.number p.y)
    ∷ ("z", optional_number p.z)
    ∷ ("yawDeg", optional_number p.yaw_deg)
    ∷ [])

snapshot_json : MachineTelemetrySnapshot → Json
unfolding location_json pose_json optional_number
snapshot_json s = object_of (
    ("machineId", text s.machine_id)
    ∷ ("observedAt", text s.observed_at)
    ∷ ("health", text (health_text s.health))
    ∷ ("batteryPct", optional_number s.battery_pct)
    ∷ ("signalPct", optional_number s.signal_pct)
    ∷ ("progressPct", optional_number s.progress_pct)
    ∷ ("telemetryRef", optional s.telemetry_ref)
    ∷ ("location", location_json s.location)
    ∷ ("pose", pose_json s.pose)
    ∷ [])

unfoldable pub event_json : TelemetryEventRecord → Json
unfolding snapshot_json
event_json e = object_of (
    ("id", text e.id)
    ∷ ("machineId", text e.machine_id)
    ∷ ("receivedAt", text e.received_at)
    ∷ ("snapshot", snapshot_json e.snapshot)
    ∷ [])
