-- ===== src/Hub.antt =====
-- The fan-out of telemetry to open streams (src/server/production/telemetry-hub.ts). A stream is
-- known by a number; its socket, and whether a write finds room, are Node's.
pub mod Laws
use machina_sol.Prelude.{
  ℕ, ◌+◌, String, Bool, true, false, not, ◌||◌, ◌&&◌, Option, none, some, List, [], ◌∷◌, ◌++◌, leb,
  nat_eq, filter, includes, length, ◌==◌, if◌then◌else◌,
}
use machina_sol.Store.Types.{TelemetryEventRecord}

pub record Subscriber : Type 0 where
  pub response : ℕ
  pub user_id : String
  pub machine_ids : List String

-- response.destroyed, and whether response.write finds room.
pub record Sockets : Type 0 where
  pub destroyed : ℕ → Bool
  pub write : ℕ → Bool

-- The `Set` of subscribers, in the order of their arrival.
abbrev pub TelemetryHub : Type 0
TelemetryHub = List Subscriber

abbrev pub max_telemetry_subscribers : ℕ
max_telemetry_subscribers = 256

abbrev pub max_telemetry_subscribers_per_user : ℕ
max_telemetry_subscribers_per_user = 8

unfoldable pub remove : ℕ → TelemetryHub → TelemetryHub
remove response = filter (λ s. not (nat_eq s.response response))

-- The loop of `canSubscribe`, from the count so far.
unfoldable pub has_room_for : String → ℕ → TelemetryHub → Bool
has_room_for user_id owned [] = true
has_room_for user_id owned (s ∷ hub) =
    let owned' = if s.user_id == user_id then owned + 1 else owned in
    let later = has_room_for user_id owned' hub in
    if leb max_telemetry_subscribers_per_user owned' then false else later

unfoldable pub can_subscribe : String → TelemetryHub → Bool
unfolding has_room_for
can_subscribe user_id hub =
    if leb max_telemetry_subscribers (length hub) then false else has_room_for user_id 0 hub

-- `none` is the RangeError.
unfoldable pub subscribe : String → List String → ℕ → TelemetryHub → Option TelemetryHub
subscribe user_id machine_ids response hub =
    if not (can_subscribe user_id hub)
    then none
    else some
        (hub ++ (record { response = response; user_id = user_id; machine_ids = machine_ids } ∷ []))

-- The timer of a stream: a keepalive that finds no room ends it.
unfoldable pub heartbeat : Sockets → ℕ → TelemetryHub → TelemetryHub
heartbeat sockets response hub =
    if sockets.destroyed response || not (sockets.write response) then remove response hub else hub

unfoldable pub follows : String → TelemetryEventRecord → Subscriber → Bool
follows owner_user_id event s =
    s.user_id == owner_user_id && includes event.machine_id s.machine_ids

-- The loop of `publish` over a copy of the subscribers: what is left, and the streams written to.
unfoldable pub publish_to :
    Sockets → String → TelemetryEventRecord → (copy hub : TelemetryHub) → TelemetryHub × List ℕ
unfolding follows
publish_to sockets owner event [] hub = (hub, [])
publish_to sockets owner event (s ∷ copy) hub =
    let skipped = publish_to sockets owner event copy hub in
    let dropped = publish_to sockets owner event copy (remove s.response hub) in
    if not (follows owner event s)
    then skipped
    else if sockets.destroyed s.response
    then dropped
    else if not (sockets.write s.response)
    then (dropped.0, s.response ∷ dropped.1)
    else (skipped.0, s.response ∷ skipped.1)

unfoldable pub publish :
    Sockets → String → TelemetryEventRecord → TelemetryHub → TelemetryHub × List ℕ
publish sockets owner_user_id event hub = publish_to sockets owner_user_id event hub hub

-- The loop of `disconnectUser` over a copy.
unfoldable pub disconnect_from : String → (copy hub : TelemetryHub) → TelemetryHub
unfolding remove
disconnect_from user_id [] hub = hub
disconnect_from user_id (s ∷ copy) hub =
    let skipped = disconnect_from user_id copy hub in
    let removed = disconnect_from user_id copy (remove s.response hub) in
    if not (s.user_id == user_id) then skipped else removed

unfoldable pub disconnect_user : String → TelemetryHub → TelemetryHub
disconnect_user user_id hub = disconnect_from user_id hub hub

unfoldable pub close : TelemetryHub → TelemetryHub
close hub = []
