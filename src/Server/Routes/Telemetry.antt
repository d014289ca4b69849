-- ===== src/Server/Routes/Telemetry.antt =====
-- The routes of telemetry (src/server/production/app.ts).
use machina_sol.Prelude.{
  ℕ, ◌+◌, ◌-◌, ◌*◌, leb, String, Bool, true, false, not, ◌&&◌, ◌||◌, Option, none, some, List, [],
  ◌∷◌, all, map, length, nat_eq, codes, includes, is_some, or_default, ◌==◌, if◌then◌else◌, Result,
  ok, err,
}
use machina_sol.Number.{Number, of_nat}
use machina_sol.Chars.{is_whitespace}
use machina_sol.Json.{Json, Fields}
use Prim.Native.Char.{code}
use machina_sol.Texts.{trim_text_start, cut_at}
use machina_sol.RateLimit.{RequestRateLimiter}
use machina_sol.Hub.{publish, can_subscribe, subscribe, TelemetryHub}
use machina_sol.Telemetry.Snapshot.{MachineHealth, MachineTelemetrySnapshot, Location, Pose}
use machina_sol.Telemetry.Checks.{normalize_telemetry_snapshot}
use machina_sol.Store.Types.{OwnedMachineRecord, MachineCredentialRecord, TelemetryEventRecord}
use machina_sol.Store.Machines.{machine, machine_credential, list_owned_machines}
use machina_sol.Store.Events.{insert_telemetry, recent_telemetry, latest_telemetry}
use machina_sol.Server.World.{
  Outside, Limiters, App, Outcome, done, refused, crashed, lift, ensure, require, read, change,
  with_hub, limit, now, uuid, ◌>>=◌, ◌>>◌,
}
use machina_sol.Server.Http.{Request, ServerConfig, read_json_body}
use machina_sol.Server.Inputs.{
  property, parameter, required_text, optional_text, optional_finite, requested_list_limit,
}
use machina_sol.Server.Public.{text, flag, array_of, event_json}
use machina_sol.Server.Auth.{authenticate, request_ip}
use machina_sol.Server.Response.{
  Response, respond, yes_ok, json_mutation, use_get, require_owned_machine, segment,
}
use machina_sol.Server.Routes.Sessions.{require_owned_parameter}

-- Another field than the allowed ones.
unfoldable pub has_other : List String → Fields → Bool
has_other allowed Fields.no_fields = false
has_other allowed (Fields.field key value fields) =
    not (includes key allowed) || has_other allowed fields

infixl 5 ◌⊳◌
-- What follows a check of a field.
◌⊳◌ : {A B : Type 0} → Outcome A → (A → Outcome B) → Outcome B
done a ⊳ f = f a
refused status message ⊳ f = refused status message
crashed ⊳ f = crashed

whole_location : Option Number → Option Number → Option Number → Outcome (Option Location)
whole_location (some lat) (some lon) altitude_m =
    done (some (record { lat = lat; lon = lon; altitude_m = altitude_m }))
whole_location _ _ altitude_m = refused 400 "\"location\" is incomplete"

whole_pose : Option Number → Option Number → Option Number → Option Number → Outcome (Option Pose)
whole_pose (some x) (some y) z yaw_deg =
    done (some (record { x = x; y = y; z = z; yaw_deg = yaw_deg }))
whole_pose _ _ z yaw_deg = refused 400 "\"pose\" is incomplete"

-- telemetryPoint(input, 'location')
unfoldable pub location_point : Json → Outcome (Option Location)
unfolding ◌⊳◌ whole_location
location_point input = elim (property "location" input) [
  | Json.undefined ↦ done none
  | Json.object fields ↦
      if has_other ("lat" ∷ "lon" ∷ "altitudeM" ∷ []) fields
      then refused 400 "\"location\" contains unsupported fields"
      else (optional_finite (Json.object fields) "lat" ⊳ λ lat.
          optional_finite (Json.object fields) "lon" ⊳ λ lon.
          optional_finite (Json.object fields) "altitudeM" ⊳ λ altitude_m.
          whole_location lat lon altitude_m)
  | _ ↦ refused 400 "\"location\" must be an object"
]

-- telemetryPoint(input, 'pose')
unfoldable pub pose_point : Json → Outcome (Option Pose)
unfolding ◌⊳◌ whole_pose
pose_point input = elim (property "pose" input) [
  | Json.undefined ↦ done none
  | Json.object fields ↦
      if has_other ("x" ∷ "y" ∷ "z" ∷ "yawDeg" ∷ []) fields
      then refused 400 "\"pose\" contains unsupported fields"
      else (optional_finite (Json.object fields) "x" ⊳ λ x.
          optional_finite (Json.object fields) "y" ⊳ λ y.
          optional_finite (Json.object fields) "z" ⊳ λ z.
          optional_finite (Json.object fields) "yawDeg" ⊳ λ yaw_deg. whole_pose x y z yaw_deg)
  | _ ↦ refused 400 "\"pose\" must be an object"
]

health_of : Json → Option MachineHealth
health_of (Json.string t) =
    if t == "nominal"
    then some MachineHealth.nominal
    else if t == "degraded"
    then some MachineHealth.degraded
    else if t == "faulted"
    then some MachineHealth.faulted
    else if t == "offline"
    then some MachineHealth.offline
    else none
health_of _ = none

within : ℕ → ℕ → ℕ → Bool
within low high c = leb low c && leb c high

is_id_char : ℕ → Bool
unfolding within
is_id_char c = within b'0' b'9' c || (within b'a' b'f' c || nat_eq c b'-')

is_token_char : ℕ → Bool
unfolding within
is_token_char c =
    within b'A' b'Z' c
    || (within b'a' b'z' c || (within b'0' b'9' c || (nat_eq c b'_' || nat_eq c b'-')))

abbrev pub Bearer : Type 0
Bearer = String × String

-- `[0-9a-f-]{36}` and `[A-Za-z0-9_-]{32,128}`, on both sides of the point.
is_bearer : String → String → Bool
unfolding is_id_char is_token_char
is_bearer id token =
    nat_eq (length (codes id)) 36
    && (all is_id_char (codes id)
        && (leb 32 (length (codes token))
            && (leb (length (codes token)) 128 && all is_token_char (codes token))))

-- What follows a prefix, given by its codes.
after_prefix : List ℕ → String → Option String
after_prefix [] s = some s
after_prefix (c ∷ cs) String.[] = none
after_prefix (c ∷ cs) (String.◌∷◌ d s) = if nat_eq (code d) c then after_prefix cs s else none

-- What follows one blank or more.
after_blanks : String → Option String
after_blanks String.[] = none
after_blanks (String.◌∷◌ c s) = if is_whitespace (code c) then some (trim_text_start s) else none

bearer_parts : String → Option Bearer
unfolding is_bearer
bearer_parts rest = elim (cut_at b'.' rest) [
  | none ↦ none
  | some (id, token) ↦ if is_bearer id token then some (id, token) else none
]

-- /^Bearer\s+([0-9a-f-]{36})\.([A-Za-z0-9_-]{32,128})$/u
unfoldable pub bearer_of : String → Option Bearer
unfolding after_prefix after_blanks bearer_parts
bearer_of authorization = elim (after_prefix (codes "Bearer") authorization) [
  | none ↦ none
  | some after ↦ elim (after_blanks after) [ none ↦ none | some rest ↦ bearer_parts rest ]
]

unfoldable pub credential_from_request : Request → Outcome Bearer
credential_from_request req = elim req.origin [
  | some origin ↦ refused 403 "machine credentials are not accepted from browser-origin requests"
  | none ↦ elim (bearer_of (or_default req.authorization "")) [
    | none ↦ refused 401 "valid machine bearer credential required"
    | some bearer ↦ done bearer
  ]
]

abbrev set_telemetry_global : RequestRateLimiter → Limiters → Limiters
set_telemetry_global r l = record l { telemetry_global = r }

abbrev set_telemetry_ip : RequestRateLimiter → Limiters → Limiters
set_telemetry_ip r l = record l { telemetry_ip = r }

abbrev set_telemetry : RequestRateLimiter → Limiters → Limiters
set_telemetry r l = record l { telemetry = r }

or_refused : {A : Type 0} → Result A → Outcome A
or_refused (ok a) = done a
or_refused (err message) = refused 400 message

-- The snapshot that the body describes, once normalized.
unfoldable pub snapshot_of : Outside → Json → String → Outcome MachineTelemetrySnapshot
unfolding ◌⊳◌ health_of or_refused
snapshot_of o body machine_id = elim (health_of (property "health" body)) [
  | none ↦ refused 400 "invalid telemetry health"
  | some health ↦ required_text 64 body "observedAt" ⊳ λ observed_at.
      optional_finite body "batteryPct" ⊳ λ battery. optional_finite body "signalPct" ⊳ λ signal.
      optional_finite body "progressPct" ⊳ λ progress.
      optional_text 128 body "telemetryRef" ⊳ λ telemetry_ref. location_point body ⊳ λ location.
      pose_point body ⊳ λ pose. or_refused (
        normalize_telemetry_snapshot o.dates (record {
          machine_id = machine_id;
          observed_at = observed_at;
          battery_pct = battery;
          health = health;
          signal_pct = signal;
          progress_pct = progress;
          location = location;
          pose = pose;
          telemetry_ref = telemetry_ref;
        }))
]

-- A time at most two minutes ahead and at most a day behind; NaN passes every comparison.
unfoldable pub within_skew : Option ℕ → ℕ → Bool
within_skew none at = true
within_skew (some observed) at = leb observed (at + 120_000) && leb at (observed + 86_400_000)

machine_of : Option MachineCredentialRecord → String → Bool
machine_of none machine_id = false
machine_of (some c) machine_id = c.machine_id == machine_id

unfoldable pub list_telemetry_route : Outside → Request → String → App Response
list_telemetry_route o req machine_id = do
  session ← authenticate o req false
  _ ← require_owned_machine o session.user_id machine_id
  most ← lift (requested_list_limit req)
  events ← read o (λ s. recent_telemetry o.env s session.user_id (some machine_id) (of_nat most))
  respond 200 (yes_ok ∷ ("events", array_of (map event_json events)) ∷ [])

-- `sent` answers the streams that got the event, which the response does not show.
unfoldable pub ingest_route : Outside → ServerConfig → Request → String → App Response
unfolding machine_of
ingest_route o config req machine_id = do
  json_mutation req "POST"
  bearer ← lift (credential_from_request req)
  limit o Limiters.telemetry_global set_telemetry_global "global"
  limit o Limiters.telemetry_ip set_telemetry_ip (request_ip req)
  at ← now o
  credential ← read o (λ s. machine_credential s bearer.0 (o.sha256 bearer.1) (o.dates.iso at))
  ensure (machine_of credential machine_id) 403 "machine credential is invalid for this machine"
  limit o Limiters.telemetry set_telemetry bearer.0
  found ← read o (λ s. machine s machine_id)
  owner ← require found 404 "machine not found"
  body ← read_json_body o req
  snapshot ← lift (snapshot_of o body machine_id)
  ensure (within_skew (o.dates.time snapshot.observed_at) at) 422
      "telemetry observedAt is outside the accepted clock-skew window"
  id ← uuid o
  let event : TelemetryEventRecord = record {
    id = id;
    machine_id = machine_id;
    received_at = o.dates.iso at;
    snapshot = snapshot;
  }
  let days = or_default config.telemetry_retention_days 30
  let most = or_default config.telemetry_max_events_per_machine 10_000
  _ ←
      change o
        (λ s. (insert_telemetry o.env s event (o.dates.iso (at - days * 86_400_000)) most, tt))
  _ ← with_hub o (λ hub. publish o.sockets owner.owner_user_id event hub)
  respond 202 (
      yes_ok
      ∷ ("accepted", flag true)
      ∷ ("eventId", text id)
      ∷ ("receivedAt", text event.received_at)
      ∷ [])

-- /api/machines/<id>/telemetry
unfoldable pub machine_telemetry_route : Outside → ServerConfig → Request → String → App Response
unfolding list_telemetry_route ingest_route
machine_telemetry_route o config req part = do
  machine_id ← segment o part
  if req.method == "GET"
      then list_telemetry_route o req machine_id
      else ingest_route o config req machine_id

-- The test of `latest`, and whether it is asked for.
latest_flag : Option String → Outcome Bool
latest_flag none = done false
latest_flag (some value) =
    if value == "true"
    then done true
    else if value == "false"
    then done false
    else refused 400 "latest must be true or false"

-- /api/telemetry
unfoldable pub telemetry_route : Outside → Request → App Response
unfolding latest_flag
telemetry_route o req = do
  use_get req
  session ← authenticate o req false
  let machine_id = parameter "machineId" req.query
  latest ← lift (latest_flag (parameter "latest" req.query))
  ensure (not (latest && is_some machine_id)) 400 "latest=true cannot be combined with machineId"
  require_owned_parameter o session.user_id machine_id
  most ← lift (requested_list_limit req)
  events ← read o (λ s.
      if latest
      then latest_telemetry o.env s session.user_id (some (of_nat most))
      else recent_telemetry o.env s session.user_id machine_id (of_nat most))
  respond 200 (yes_ok ∷ ("events", array_of (map event_json events)) ∷ [])

unfoldable pub added : Option TelemetryHub → TelemetryHub → TelemetryHub × Bool
added none hub = (hub, false)
added (some hub') hub = (hub', true)

-- /api/telemetry/stream: the stream has a number, and its body is what the hub writes. The end of
-- the session and of the connection remove it from the hub later.
unfoldable pub stream_route : Outside → Request → (stream : ℕ) → App Response
unfolding added
stream_route o req stream = do
  use_get req
  session ← authenticate o req false
  machines ← read o (λ s. list_owned_machines o.env s session.user_id none)
  room ← with_hub o (λ hub. (hub, can_subscribe session.user_id hub))
  ensure room 429 "telemetry stream subscriber limit reached; retry later"
  subscribed ← with_hub o (λ hub.
      added
        (subscribe session.user_id (map (λ (m : OwnedMachineRecord). m.machine_id) machines) stream
          hub)
        hub)
  lift (
      if subscribed
      then done (record { status = 200; body = Json.undefined; cookies = [] })
      else crashed)
