-- ===== src/Store/Machines.antt =====
-- Machines, their credentials, capabilities, sessions and work orders.
use machina_sol.Prelude.{
  String, Bool, true, false, not, ◌&&◌, ◌||◌, Option, none, some, List, [], Ordering, any, filter,
  sort, take, is_some, ◌==◌, Result, ok, err, if◌then◌else◌,
}
use machina_sol.Number.{Number}
use machina_sol.Dict.{get, has, put, values}
use machina_sol.Store.Types.{
  OwnedMachineRecord, MachineCredentialRecord, PersistentRuntimeSession, PersistentWorkOrder,
}
use machina_sol.Store.State.{Env, ProductionStore, is_expired}
use machina_sol.Store.Limits.{bounded_limit}

-- machine?.ownerUserId === userId
unfoldable pub is_owned_by : String → Option OwnedMachineRecord → Bool
is_owned_by user_id none = false
is_owned_by user_id (some machine) = machine.owner_user_id == user_id

-- this.machines.get(machineId)?.ownerUserId === userId
unfoldable pub owns : ProductionStore → String → String → Bool
unfolding is_owned_by
owns s user_id machine_id = is_owned_by user_id (get machine_id s.machines)

-- `b.localeCompare(a)` on the dates: the newest first.
abbrev pub newest : Env → String → String → Ordering
newest env a b = env.locale_compare b a

unfoldable pub list_owned_machines :
    Env → ProductionStore → String → Option Number → List OwnedMachineRecord
list_owned_machines env s user_id limit = take (bounded_limit limit) (
    sort (λ a b. newest env a.created_at b.created_at)
      (filter (λ m. m.owner_user_id == user_id) (values s.machines)))

unfoldable pub owned_machine : ProductionStore → String → String → Option OwnedMachineRecord
unfolding is_owned_by
owned_machine s user_id machine_id =
    let found = get machine_id s.machines in if is_owned_by user_id found then found else none

unfoldable pub machine : ProductionStore → String → Option OwnedMachineRecord
machine s machine_id = get machine_id s.machines

unfoldable pub create_owned_machine : ProductionStore → OwnedMachineRecord → Result ProductionStore
create_owned_machine s m =
    if has m.machine_id s.machines
    then err "machine already exists"
    else ok (record s { machines = put m.machine_id m s.machines })

unfoldable pub create_machine_credential :
    ProductionStore → String → MachineCredentialRecord → ProductionStore × Bool
create_machine_credential s user_id c =
    if has c.id s.credentials || not (owns s user_id c.machine_id)
    then (s, false)
    else (record s { credentials = put c.id c s.credentials }, true)

unfoldable pub list_machine_credentials :
    Env → ProductionStore → String → String → Option Number → List MachineCredentialRecord
list_machine_credentials env s user_id machine_id limit =
    if not (owns s user_id machine_id)
    then []
    else take (bounded_limit limit) (
        sort (λ a b. newest env a.created_at b.created_at)
          (filter (λ c. c.machine_id == machine_id) (values s.credentials)))

unfoldable pub machine_credential :
    ProductionStore → String → String → String → Option MachineCredentialRecord
machine_credential s id secret_hash now = elim (get id s.credentials) [
  | none ↦ none
  | some c ↦
      if not (c.secret_hash == secret_hash) || (is_some c.revoked_at || is_expired c.expires_at now)
      then none
      else some c
]

unfoldable pub revoke_machine_credential :
    ProductionStore → String → String → String → ProductionStore × Bool
revoke_machine_credential s user_id credential_id now = elim (get credential_id s.credentials) [
  | none ↦ (s, false)
  | some c ↦ if not (owns s user_id c.machine_id) || is_some c.revoked_at then (s, false) else (
    record s { credentials = put credential_id (record c { revoked_at = some now }) s.credentials },
    true,
  )
]

unfoldable pub create_runtime_session :
    ProductionStore → PersistentRuntimeSession → ProductionStore × Bool
create_runtime_session s r =
    if has r.session_id s.runtime_sessions
      || (not (owns s r.owner_user_id r.machine_id)
          || any (λ c. c.machine_id == r.machine_id && not (is_some c.ended_at))
              (values s.runtime_sessions))
    then (s, false)
    else (record s { runtime_sessions = put r.session_id r s.runtime_sessions }, true)

-- machineId === null || record.machineId === machineId
abbrev pub selects : Option String → String → Bool
selects none id = true
selects (some wanted) id = id == wanted

unfoldable pub list_runtime_sessions :
    Env → ProductionStore → String → Option String → Option Number → List PersistentRuntimeSession
list_runtime_sessions env s user_id machine_id limit = take (bounded_limit limit) (
    sort (λ a b. newest env a.created_at b.created_at)
      (filter (λ r. r.owner_user_id == user_id && selects machine_id r.machine_id)
        (values s.runtime_sessions)))

unfoldable pub end_runtime_session :
    ProductionStore → String → String → String → ProductionStore × Option PersistentRuntimeSession
end_runtime_session s user_id session_id now = elim (get session_id s.runtime_sessions) [
  | none ↦ (s, none)
  | some r ↦ if not (r.owner_user_id == user_id) || is_some r.ended_at then (s, none) else (
    record s {
      runtime_sessions =
          put session_id (record r { ended_at = some now; updated_at = now }) s.runtime_sessions;
    },
    some (record r { ended_at = some now; updated_at = now }),
  )
]

-- record.machineId !== null && the machine is not the owner's
unfoldable pub is_foreign : ProductionStore → String → Option String → Bool
is_foreign s user_id none = false
is_foreign s user_id (some machine_id) = not (owns s user_id machine_id)

unfoldable pub create_work_order : ProductionStore → PersistentWorkOrder → ProductionStore × Bool
unfolding is_foreign
create_work_order s r =
    if has r.work_order_id s.work_orders
    then (s, false)
    else if is_foreign s r.owner_user_id r.machine_id
    then (s, false)
    else (record s { work_orders = put r.work_order_id r s.work_orders }, true)

-- machineId === null || record.machineId === machineId, for a record that may name none
abbrev selects_order : Option String → Option String → Bool
selects_order none id = true
selects_order (some wanted) none = false
selects_order (some wanted) (some id) = id == wanted

unfoldable pub list_work_orders :
    Env → ProductionStore → String → Option String → Option Number → List PersistentWorkOrder
list_work_orders env s user_id machine_id limit = take (bounded_limit limit) (
    sort (λ a b. newest env a.created_at b.created_at)
      (filter (λ r. r.owner_user_id == user_id && selects_order machine_id r.machine_id)
        (values s.work_orders)))

unfoldable pub work_order : ProductionStore → String → String → Option PersistentWorkOrder
work_order s user_id work_order_id = elim (get work_order_id s.work_orders) [
  | none ↦ none
  | some r ↦ if r.owner_user_id == user_id then some r else none
]
