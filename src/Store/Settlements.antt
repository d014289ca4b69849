-- ===== src/Store/Settlements.antt =====
-- Settlements: one for each accepted request, paid by one signed transaction.
use mathlib.Core.Option
use machina_sol.Prelude.{
  String, Bool, true, false, not, ◌&&◌, ◌||◌, Option, none, some, List, any, find, filter, sort,
  take, is_some, ◌==◌, Result, ok, err, if◌then◌else◌,
}
use machina_sol.Number.{Number}
use machina_sol.Dict.{get, put, values}
use machina_sol.Store.Types.{
  OwnedMachineRecord, PersistentResourceRequest, PersistentResourceQuote, PersistentResourceReceipt,
  SettlementRecord, ReceiptSettlementProjection, ResourceRequestState, SettlementState,
}
use machina_sol.Store.State.{Env, ProductionStore, is_accepted}
use machina_sol.Store.Limits.{bounded_limit}
use machina_sol.Store.Machines.{newest}
use machina_sol.Store.Lamports.{is_exact_amount}
use machina_sol.Store.Receipts.{resource_receipt, settles}
use machina_sol.Store.Requests.{same_option}

abbrev is_created : SettlementState → Bool
is_created SettlementState.created = true
is_created _ = false

-- A settlement starts without a transaction.
unfoldable pub is_blank : SettlementRecord → Bool
is_blank r =
    is_created r.state
    && (not (is_some r.unsigned_transaction)
        && (not (is_some r.transaction_signature)
            && (not (is_some r.last_valid_block_height) && not (is_some r.error_code))))

-- ['accepted', 'granted'].includes(state)
abbrev pub is_payable : ResourceRequestState → Bool
is_payable ResourceRequestState.accepted = true
is_payable ResourceRequestState.granted = true
is_payable _ = false

-- requester?.machineId === machineId
unfoldable pub is_machine : String → Option OwnedMachineRecord → Bool
is_machine machine_id none = false
is_machine machine_id (some m) = m.machine_id == machine_id

-- provider?.walletAddress === wallet
unfoldable pub has_wallet : String → Option OwnedMachineRecord → Bool
has_wallet wallet none = false
has_wallet wallet (some m) = m.wallet_address == wallet

-- this.walletUsers.get(wallet) === user
unfoldable pub is_wallet_of : ProductionStore → String → String → Bool
is_wallet_of s wallet user_id = same_option (get wallet s.wallet_users) (some user_id)

unfoldable pub has_settlement_for : ProductionStore → String → Bool
has_settlement_for s request_id =
    any (λ t. t.resource_request_id == request_id) (values s.settlements)

unfoldable pub may_settle :
    ProductionStore → SettlementRecord → PersistentResourceRequest → PersistentResourceQuote → Bool
may_settle s r request quote =
    request.owner_user_id == r.owner_user_id
    && (is_payable request.state
        && (quote.resource_request_id == request.id
            && (is_accepted quote.state
                && (quote.asset == "SOL"
                    && (is_machine r.machine_id (get request.requester_machine_id s.machines)
                        && (has_wallet r.recipient_wallet (get quote.provider_machine_id s.machines)
                            && (is_wallet_of s r.source_wallet r.owner_user_id
                                && (is_exact_amount quote.amount request.quantity r.amount_lamports
                                    && not (has_settlement_for s request.id)))))))))

unfoldable pub create_settlement_for_accepted_request :
    ProductionStore → SettlementRecord → ProductionStore × Option SettlementRecord
create_settlement_for_accepted_request s r = elim (get r.resource_request_id s.requests) [
  | none ↦ (s, none)
  | some request ↦ elim (get r.resource_quote_id s.quotes) [
    | none ↦ (s, none)
    | some quote ↦
        if is_blank r && may_settle s r request quote
        then (record s { settlements = put r.id r s.settlements }, some r)
        else (s, none)
  ]
]

unfoldable pub create_settlement : ProductionStore → SettlementRecord → Result ProductionStore
create_settlement s r =
    let (s', created) = create_settlement_for_accepted_request s r in
    elim created [
      | none ↦ err "settlement requires a unique accepted resource request and quote"
      | some settlement ↦ ok s'
    ]

unfoldable pub list_settlements :
    Env → ProductionStore → String → Option Number → List SettlementRecord
list_settlements env s user_id limit = take (bounded_limit limit) (
    sort (λ a b. newest env a.created_at b.created_at)
      (filter (λ t. t.owner_user_id == user_id) (values s.settlements)))

unfoldable pub settlement_for_resource_request :
    ProductionStore → String → String → Option SettlementRecord
settlement_for_resource_request s user_id request_id =
    find (λ t. t.owner_user_id == user_id && t.resource_request_id == request_id)
      (values s.settlements)

unfoldable pub projection : SettlementRecord → ReceiptSettlementProjection
projection t = record {
  id = t.id;
  resource_request_id = t.resource_request_id;
  state = t.state;
  transaction_signature = t.transaction_signature;
  updated_at = t.updated_at;
}

-- receipt?.settlementId ? settlements.get(receipt.settlementId) : undefined
unfoldable pub settlement_of :
    ProductionStore → Option PersistentResourceReceipt → Option SettlementRecord
settlement_of s none = none
settlement_of s (some receipt) = elim receipt.settlement_id [
  | none ↦ none
  | some id ↦ if id == "" then none else get id s.settlements
]

unfoldable pub receipt_settlement :
    Env → ProductionStore → String → String → Option ReceiptSettlementProjection
receipt_settlement env s user_id request_id =
    let found = settlement_of s (resource_receipt env s user_id request_id) in
    if settles request_id found then Option.map projection found else none

unfoldable pub settlement : ProductionStore → String → String → Option SettlementRecord
settlement s user_id settlement_id = elim (get settlement_id s.settlements) [
  | none ↦ none
  | some t ↦ if t.owner_user_id == user_id then some t else none
]

-- A partial patch: `none` leaves the field, `some v` sets it to `v`, which may be null.
pub record SettlementPatch : Type 0 where
  pub state : SettlementState
  pub updated_at : String
  pub unsigned_transaction : Option (Option String)
  pub transaction_signature : Option (Option String)
  pub last_valid_block_height : Option (Option String)
  pub error_code : Option (Option String)

abbrev patched : Option (Option String) → Option String → Option String
patched none old = old
patched (some new) old = new

unfoldable pub apply_patch : SettlementRecord → SettlementPatch → SettlementRecord
apply_patch t patch = record t {
  state = patch.state;
  updated_at = patch.updated_at;
  unsigned_transaction = patched patch.unsigned_transaction t.unsigned_transaction;
  transaction_signature = patched patch.transaction_signature t.transaction_signature;
  last_valid_block_height = patched patch.last_valid_block_height t.last_valid_block_height;
  error_code = patched patch.error_code t.error_code;
}

abbrev pub same_settlement_state : SettlementState → SettlementState → Bool
same_settlement_state SettlementState.created SettlementState.created = true
same_settlement_state SettlementState.awaiting_signature SettlementState.awaiting_signature = true
same_settlement_state SettlementState.submitting SettlementState.submitting = true
same_settlement_state SettlementState.submitted SettlementState.submitted = true
same_settlement_state SettlementState.confirmed SettlementState.confirmed = true
same_settlement_state SettlementState.failed SettlementState.failed = true
same_settlement_state SettlementState.cancelled SettlementState.cancelled = true
same_settlement_state _ _ = false

-- Does another settlement hold the signature that the patch sets?
unfoldable pub is_claimed : ProductionStore → String → Option (Option String) → Bool
is_claimed s settlement_id none = false
is_claimed s settlement_id (some none) = false
is_claimed s settlement_id (some (some signature)) =
    any (λ t. not (t.id == settlement_id) && same_option t.transaction_signature (some signature))
      (values s.settlements)

unfoldable pub transition_settlement :
    ProductionStore
    → String
    → String
    → SettlementState
    → SettlementPatch
    → ProductionStore × Option SettlementRecord
transition_settlement s user_id settlement_id from patch = elim (get settlement_id s.settlements) [
  | none ↦ (s, none)
  | some t ↦
      if not (t.owner_user_id == user_id)
        || (not (same_settlement_state t.state from)
            || is_claimed s settlement_id patch.transaction_signature)
      then (s, none)
      else (
        record s { settlements = put settlement_id (apply_patch t patch) s.settlements },
        some (apply_patch t patch),
      )
]
