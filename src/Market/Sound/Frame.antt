-- ===== src/Market/Sound/Frame.antt =====
-- The calls of the store that do not concern the marketplace leave its parts, so they keep it sound.
use machina_sol.Prelude.{String, ◌≡◌, refl, sym, subst, ℕ, List, some, ap, arith}
use machina_sol.Dict.{Dict, get}
use machina_sol.Store.Types.{
  PersistentResourceRequest, PersistentResourceQuote, PersistentAccessGrant,
  PersistentResourceReceipt, SettlementRecord, WalletChallengeRecord, AuthSessionRecord,
  OwnedMachineRecord, MachineCredentialRecord, TelemetryEventRecord, PersistentRuntimeSession,
  PersistentWorkOrder, ProviderCapabilityRow, ProviderCapabilityPatch,
}
use machina_sol.Store.State.{Env, ProductionStore}
use machina_sol.Store.Auth.{
  create_challenge, consume_challenge, create_authenticated_session, revoke_session,
}
use machina_sol.Store.Machines.{
  create_owned_machine, create_machine_credential, revoke_machine_credential,
  create_runtime_session, end_runtime_session, create_work_order,
}
use machina_sol.Store.Events.{insert_telemetry, replace_machine_capabilities}
use machina_sol.Store.Capabilities.{create_provider_capability, update_provider_capability}
use machina_sol.Market.{
  IsSound, IsClosed, accepted_for, granted_for, received_for, settled_for, signed_by, after,
}
use machina_sol.Dict.Unique.{IsUnique}

-- The parts of a store that the marketplace is made of.
pub record Market : Type 0 where
  pub requests : Dict PersistentResourceRequest
  pub quotes : Dict PersistentResourceQuote
  pub grants : Dict PersistentAccessGrant
  pub resource_receipts : Dict PersistentResourceReceipt
  pub settlements : Dict SettlementRecord

abbrev market : ProductionStore → Market
market s = record {
  requests = s.requests;
  quotes = s.quotes;
  grants = s.grants;
  resource_receipts = s.resource_receipts;
  settlements = s.settlements;
}

abbrev pub SameMarket : ProductionStore → ProductionStore → Type 0
SameMarket s t = market t ≡ market s

pub SameMarket-IsSound : {s t : ProductionStore} → SameMarket s t → IsSound s → IsSound t
SameMarket-IsSound {s} {t} m h = record {
  request_ids = λ k r e. h.request_ids k r (subst (λ d. get k d ≡ some r) (ap Market.requests m) e);
  settlement_ids =
      λ k r e. h.settlement_ids k r (subst (λ d. get k d ≡ some r) (ap Market.settlements m) e);
  one_accepted = subst (IsUnique accepted_for) (ap Market.quotes (sym m)) h.one_accepted;
  accepted_closed = λ k q id e f.
      subst (λ requests. IsClosed requests id) (ap Market.requests (sym m))
        (h.accepted_closed k q id (subst (λ d. get k d ≡ some q) (ap Market.quotes m) e) f);
  one_grant = subst (IsUnique granted_for) (ap Market.grants (sym m)) h.one_grant;
  one_receipt = subst (IsUnique received_for) (ap Market.resource_receipts (sym m)) h.one_receipt;
  one_settlement = subst (IsUnique settled_for) (ap Market.settlements (sym m)) h.one_settlement;
  one_signature = subst (IsUnique signed_by) (ap Market.settlements (sym m)) h.one_signature;
}

pub create_challenge-SameMarket :
    (s : ProductionStore) (c : WalletChallengeRecord) (now : String)
    → SameMarket s (create_challenge s c now)
unfolding create_challenge
create_challenge-SameMarket s c now = refl

pub consume_challenge-SameMarket :
    (s : ProductionStore) (id wallet now : String)
    → SameMarket s (consume_challenge s id wallet now).0
unfolding consume_challenge
consume_challenge-SameMarket s id wallet now = ground arith

pub create_authenticated_session-SameMarket :
    (s : ProductionStore) (proposed : AuthSessionRecord) (wallet : String)
    → SameMarket s (create_authenticated_session s proposed wallet).0
unfolding create_authenticated_session
create_authenticated_session-SameMarket s proposed wallet = refl

pub revoke_session-SameMarket :
    (s : ProductionStore) (id now : String) → SameMarket s (revoke_session s id now)
unfolding revoke_session
revoke_session-SameMarket s id now = ground arith

pub create_owned_machine-SameMarket :
    (s : ProductionStore) (m : OwnedMachineRecord)
    → SameMarket s (after s (create_owned_machine s m))
unfolding create_owned_machine
create_owned_machine-SameMarket s m = ground arith

pub create_machine_credential-SameMarket :
    (s : ProductionStore) (user : String) (c : MachineCredentialRecord)
    → SameMarket s (create_machine_credential s user c).0
unfolding create_machine_credential
create_machine_credential-SameMarket s user c = ground arith

pub revoke_machine_credential-SameMarket :
    (s : ProductionStore) (user id now : String)
    → SameMarket s (revoke_machine_credential s user id now).0
unfolding revoke_machine_credential
revoke_machine_credential-SameMarket s user id now = ground arith

pub replace_machine_capabilities-SameMarket :
    (s : ProductionStore) (user machine : String) (capabilities : List String) (now : String)
    → SameMarket s (replace_machine_capabilities s user machine capabilities now).0
unfolding replace_machine_capabilities
replace_machine_capabilities-SameMarket s user machine capabilities now = ground arith

pub create_runtime_session-SameMarket :
    (s : ProductionStore) (r : PersistentRuntimeSession)
    → SameMarket s (create_runtime_session s r).0
unfolding create_runtime_session
create_runtime_session-SameMarket s r = ground arith

pub end_runtime_session-SameMarket :
    (s : ProductionStore) (user id now : String)
    → SameMarket s (end_runtime_session s user id now).0
unfolding end_runtime_session
end_runtime_session-SameMarket s user id now = ground arith

pub create_work_order-SameMarket :
    (s : ProductionStore) (r : PersistentWorkOrder) → SameMarket s (create_work_order s r).0
unfolding create_work_order
create_work_order-SameMarket s r = ground arith

pub insert_telemetry-SameMarket :
    (env : Env) (s : ProductionStore) (event : TelemetryEventRecord) (before : String) (most : ℕ)
    → SameMarket s (insert_telemetry env s event before most)
unfolding insert_telemetry
insert_telemetry-SameMarket env s event before most = refl

pub create_provider_capability-SameMarket :
    (s : ProductionStore) (user : String) (input : ProviderCapabilityRow) (id now : String)
    → SameMarket s (create_provider_capability s user input id now).0
unfolding create_provider_capability
create_provider_capability-SameMarket s user input id now = ground arith

pub update_provider_capability-SameMarket :
    (s : ProductionStore) (user id : String) (patch : ProviderCapabilityPatch)
    → SameMarket s (update_provider_capability s user id patch).0
unfolding update_provider_capability
update_provider_capability-SameMarket s user id patch = ground arith
