-- ===== src/Market.antt =====
-- The marketplace as a whole: the calls on the store that change requests, quotes, grants,
-- receipts and settlements, and what holds between any two of them.
pub mod Sound
pub mod Effects
use mathlib.Core.Option
use machina_sol.Prelude.{
  ℕ, ◌+◌, ◌≤◌, String, ◌≡◌, ◌≢◌, refl, sym, ap, ◌∙◌, ◌⊎◌, inl, inr, Bool, true, false, not, ◌&&◌,
  ◌||◌, Option, none, some, List, [], ◌∷◌, ◌++◌, map, arith, Ordering, any, all, find, filter, sort,
  take, drop, length, is_some, or_else, includes, distinct, text_lt, text_le, ◌==◌, eq_iff, eq_refl,
  Bool-cases, Option-cases, Result, ok, err, if◌then◌else◌, find-eq-some, find-eq-none-any,
}
use machina_sol.Number.{Number, number_lt, number_le, of_nat}
use machina_sol.Dict.{Dict, get, has, put, values, update_where, delete_where}
use machina_sol.Dict.Laws.{get-put, get-put_self, get-update_where, any-values-false}
use machina_sol.Dict.Unique.{IsUnique, put-IsUnique}
use machina_sol.Store.Types.{
  WalletChallengeRecord, AuthSessionRecord, OwnedMachineRecord, MachineCredentialRecord,
  TelemetryEventRecord, PersistentMachineCapability, PersistentRuntimeSession, PersistentWorkOrder,
  ProviderCapabilityRow, ProviderCapabilityPatch, PersistentResourceRequest,
  PersistentResourceQuote, CreateResourceQuoteInput, PersistentAccessGrant,
  PersistentResourceReceipt, SettlementRecord, ReceiptSettlementProjection,
  ResourceRequestLifecycle, ResourceRequestState, ResourceQuoteState, AccessGrantState,
  ResourceReceiptState, SettlementState, Availability,
}
use machina_sol.Store.State.{
  Env, ProductionStore, empty_store, is_expired, is_open, is_offered, is_accepted, is_live_quote,
  is_live_grant, is_live_receipt, is_unavailable,
}
use machina_sol.Store.Limits.{bounded_limit, max_production_list_limit, bounded_limit_bounds}
use machina_sol.Store.Auth.{create_authenticated_session}
use machina_sol.Store.Machines.{create_owned_machine}
use machina_sol.Store.Capabilities.{create_provider_capability, update_provider_capability}
use machina_sol.Store.Requests.{
  create_resource_request, transition_resource_request, cancel_resource_request,
  reject_resource_request,
}
use machina_sol.Store.Quotes.{create_resource_quote, list_resource_quotes, withdraw_resource_quote}
use machina_sol.Store.Acceptance.{accept_resource_quote}
use machina_sol.Store.Grants.{
  CreateAccessGrantInput, create_access_grant, access_grant, transition_access_grant,
}
use machina_sol.Store.Receipts.{
  CreateResourceReceiptInput, Outcome, create_resource_receipt, transition_resource_receipt,
}
use machina_sol.Store.Settlements.{
  create_settlement_for_accepted_request, SettlementPatch, transition_settlement,
}

-- What the routes of app.ts call to trade, each with its arguments, and what it takes before: a login,
-- machines and capabilities; `id` is a fresh UUID and `now` the time.
pub data Call : Type 0 where
  log_in : AuthSessionRecord → (wallet : String) → Call
  create_machine : OwnedMachineRecord → Call
  offer_capability : (user : String) → ProviderCapabilityRow → (id now : String) → Call
  change_capability : (user capability : String) → ProviderCapabilityPatch → Call
  create_request : PersistentResourceRequest → Call
  select_provider : (user request machine capability now : String) → Call
  cancel_request : (user request now : String) → Call
  reject_request : (user request now : String) → Call
  create_quote : (id user : String) → CreateResourceQuoteInput → (now : String) → Call
  list_quotes : (user request : String) → Option Number → (now : String) → Call
  withdraw_quote : (user quote now : String) → Call
  accept_quote : (user request quote now : String) → Call
  create_grant : (id user : String) → CreateAccessGrantInput → (now : String) → Call
  read_grant : (user request now : String) → Call
  transition_grant :
      (user grant : String) → AccessGrantState → AccessGrantState → (now : String) → Call
  create_receipt : (id user : String) → CreateResourceReceiptInput → (now : String) → Call
  transition_receipt :
      (user receipt : String) → ResourceReceiptState → Outcome → (now : String) → Call
  create_settlement : SettlementRecord → Call
  transition_settlement_to : (user settlement : String) → SettlementState → SettlementPatch → Call

-- A call that throws leaves the store.
abbrev pub after : ProductionStore → Result ProductionStore → ProductionStore
after s (ok t) = t
after s (err e) = s

-- The selection of a provider is a transition from pending to pending (app.ts).
unfoldable pub step : Env → ProductionStore → Call → ProductionStore
step env s (log_in proposed wallet) = (create_authenticated_session s proposed wallet).0
step env s (create_machine m) = after s (create_owned_machine s m)
step env s (offer_capability user input id now) = (create_provider_capability s user input id now).0
step env s (change_capability user capability patch) =
    (update_provider_capability s user capability patch).0
step env s (create_request r) = after s (create_resource_request s r)
step env s (select_provider user request machine capability now) =
    (transition_resource_request s user request (ResourceRequestState.pending ∷ [])
      ResourceRequestState.pending (some machine) (some capability) now).0
step env s (cancel_request user request now) = (cancel_resource_request s user request now).0
step env s (reject_request user request now) = (reject_resource_request s user request now).0
step env s (create_quote id user input now) = (create_resource_quote env s id user input now).0
step env s (list_quotes user request limit now) =
    (list_resource_quotes env s user request limit now).0
step env s (withdraw_quote user quote now) = (withdraw_resource_quote s user quote now).0
step env s (accept_quote user request quote now) =
    (accept_resource_quote s user request quote now).0
step env s (create_grant id user input now) = (create_access_grant s id user input now).0
step env s (read_grant user request now) = (access_grant env s user request now).0
step env s (transition_grant user grant from to now) =
    (transition_access_grant s user grant from to now).0
step env s (create_receipt id user input now) = (create_resource_receipt s id user input now).0
step env s (transition_receipt user receipt from to now) =
    (transition_resource_receipt s user receipt from to now).0
step env s (create_settlement r) = (create_settlement_for_accepted_request s r).0
step env s (transition_settlement_to user settlement from patch) =
    (transition_settlement s user settlement from patch).0

unfoldable pub run : Env → ProductionStore → List Call → ProductionStore
run env s [] = s
run env s (c ∷ cs) = run env (step env s c) cs

-- The request that a record counts for, while it counts.
abbrev pub accepted_for : PersistentResourceQuote → Option String
accepted_for q = if is_accepted q.state then some q.resource_request_id else none

abbrev pub granted_for : PersistentAccessGrant → Option String
granted_for g = if is_live_grant g.state then some g.resource_request_id else none

abbrev pub received_for : PersistentResourceReceipt → Option String
received_for r = if is_live_receipt r.state then some r.resource_request_id else none

abbrev pub settled_for : SettlementRecord → Option String
settled_for t = some t.resource_request_id

abbrev pub signed_by : SettlementRecord → Option String
signed_by t = t.transaction_signature

-- The request exists, and takes no more quotes.
abbrev pub IsClosed : Dict PersistentResourceRequest → String → Type 0
IsClosed requests id =
    (r : PersistentResourceRequest) × (get id requests ≡ some r) × (is_open r.state ≡ false)

-- What holds between any two calls.
pub record IsSound (s : ProductionStore) : Type 0 where
  pub request_ids :
      (k : String) (r : PersistentResourceRequest) → get k s.requests ≡ some r → r.id ≡ k
  pub settlement_ids : (k : String) (t : SettlementRecord) → get k s.settlements ≡ some t → t.id ≡ k
  -- A request has at most one accepted quote, and is then closed.
  pub one_accepted : IsUnique accepted_for s.quotes
  pub accepted_closed :
      (k : String) (q : PersistentResourceQuote) (id : String)
      → get k s.quotes ≡ some q
      → accepted_for q ≡ some id
      → IsClosed s.requests id
  -- A request has at most one pending or active grant, one receipt that is not rejected, and one
  -- settlement; a signature belongs to one settlement.
  pub one_grant : IsUnique granted_for s.grants
  pub one_receipt : IsUnique received_for s.resource_receipts
  pub one_settlement : IsUnique settled_for s.settlements
  pub one_signature : IsUnique signed_by s.settlements
