-- ===== src/Store/Events.antt =====
-- Telemetry events and capability lists of machines.
use Prim.Native.String
use text.Mathlib.Text.{starts_with}
use machina_sol.Prelude.{
  ℕ, String, Bool, true, not, ◌&&◌, ◌||◌, Option, none, some, List, [], ◌∷◌, map, Ordering, filter,
  sort, take, drop, includes, distinct, text_lt, ◌==◌, if◌then◌else◌,
}
use machina_sol.Number.{Number}
use machina_sol.Dict.{Dict, get, put, values, delete_where}
use machina_sol.Store.Types.{TelemetryEventRecord, PersistentMachineCapability}
use machina_sol.Store.State.{Env, ProductionStore}
use machina_sol.Store.Limits.{bounded_limit}
use machina_sol.Store.Machines.{owns, newest, selects}

-- for (const id of ids) m.delete(id)
unfoldable pub delete_all {ℓ} : {V : Type ℓ} → List String → Dict V → Dict V
delete_all ids m = delete_where (λ k _. includes k ids) m

-- The ids of the machine's events past the newest `max_per_machine`.
unfoldable pub surplus : Env → String → ℕ → Dict TelemetryEventRecord → List String
surplus env machine_id max_per_machine events =
    map (λ e. e.id)
      (drop max_per_machine (
        sort (λ a b. newest env a.received_at b.received_at)
          (filter (λ e. e.machine_id == machine_id) (values events))))

unfoldable pub insert_telemetry :
    Env → ProductionStore → TelemetryEventRecord → String → ℕ → ProductionStore
insert_telemetry env s event retention_before max_per_machine =
    let kept : Dict TelemetryEventRecord =
      delete_where (λ _ e. text_lt e.received_at retention_before)
        (put event.id event s.telemetry) in
    record s { telemetry = delete_all (surplus env event.machine_id max_per_machine kept) kept }

-- new Set(machine ids of the owner)
unfoldable pub owned_ids : ProductionStore → String → List String
owned_ids s user_id =
    map (λ m. m.machine_id) (filter (λ m. m.owner_user_id == user_id) (values s.machines))

unfoldable pub recent_telemetry :
    Env → ProductionStore → String → Option String → Number → List TelemetryEventRecord
recent_telemetry env s user_id machine_id limit = take (bounded_limit (some limit)) (
    sort (λ a b. newest env a.received_at b.received_at)
      (filter (λ e. includes e.machine_id (owned_ids s user_id) && selects machine_id e.machine_id)
        (values s.telemetry)))

-- Does the event replace the latest one of its machine?
unfoldable pub is_later : TelemetryEventRecord → Option TelemetryEventRecord → Bool
is_later event none = true
is_later event (some current) =
    text_lt current.received_at event.received_at
    || event.received_at == current.received_at && text_lt current.id event.id

unfoldable pub latest_from :
    List String → Dict TelemetryEventRecord → List TelemetryEventRecord → Dict TelemetryEventRecord
latest_from owned latest [] = latest
latest_from owned latest (event ∷ events) =
    latest_from owned
      (if includes event.machine_id owned && is_later event (get event.machine_id latest)
        then put event.machine_id event latest
        else latest)
      events

-- `a || b` on comparisons: the second decides a tie.
abbrev pub or_compare : Ordering → Ordering → Ordering
or_compare Ordering.eq b = b
or_compare a b = a

unfoldable pub latest_telemetry :
    Env → ProductionStore → String → Option Number → List TelemetryEventRecord
latest_telemetry env s user_id limit = take (bounded_limit limit) (
    sort (λ a b. or_compare (newest env a.received_at b.received_at) (env.locale_compare b.id a.id))
      (values (latest_from (owned_ids s user_id) [] (values s.telemetry))))

-- `${machineId}\0${capability}`
unfoldable pub capability_key : String → String → String
capability_key machine_id capability = String.◌++◌ (String.◌++◌ machine_id "\0") capability

unfoldable pub put_capabilities :
    List PersistentMachineCapability
    → Dict PersistentMachineCapability
    → Dict PersistentMachineCapability
put_capabilities [] m = m
put_capabilities (r ∷ rs) m =
    put_capabilities rs (put (capability_key r.machine_id r.capability) r m)

unfoldable pub replace_machine_capabilities :
    ProductionStore
    → String
    → String
    → List String
    → String
    → ProductionStore × Option (List PersistentMachineCapability)
replace_machine_capabilities s user_id machine_id capabilities now =
    let records : List PersistentMachineCapability =
      map
        (λ c. record {
          machine_id = machine_id;
          owner_user_id = user_id;
          capability = c;
          created_at = now;
        })
        (distinct capabilities) in
    if not (owns s user_id machine_id) then (s, none) else (
      record s {
        machine_capabilities = put_capabilities records (
            delete_where (λ k _. starts_with k (String.◌++◌ machine_id "\0"))
              s.machine_capabilities);
      },
      some records,
    )

unfoldable pub list_machine_capabilities :
    ProductionStore → String → String → List PersistentMachineCapability
list_machine_capabilities s user_id machine_id =
    if not (owns s user_id machine_id)
    then []
    else filter (λ r. r.machine_id == machine_id) (values s.machine_capabilities)
