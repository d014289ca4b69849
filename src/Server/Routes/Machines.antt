-- ===== src/Server/Routes/Machines.antt =====
-- The routes of machines, their credentials and capabilities (src/server/production/app.ts).
use machina_sol.Prelude.{
  ℕ, ◌+◌, ◌*◌, ◌%◌, ◌/◌, ◌^◌, leb, String, Bool, true, false, not, ◌&&◌, Option, none, some, List,
  [], ◌∷◌, all, map, length, nat_eq, includes, ◌==◌, if◌then◌else◌, Result, ok, err, or_default,
}
use machina_sol.Number.{Number, of_nat, finite, pos}
use machina_sol.Json.{Json}
use machina_sol.Texts.{◌^^◌}
use machina_sol.Machine.{validate_machine_id, machine_roles, machine_capabilities}
use machina_sol.Store.Types.{OwnedMachineRecord, MachineCredentialRecord, AuthSessionRecord}
use machina_sol.Store.Machines.{
  list_owned_machines, create_owned_machine, list_machine_credentials, create_machine_credential,
  revoke_machine_credential,
}
use machina_sol.Store.Events.{replace_machine_capabilities, list_machine_capabilities}
use machina_sol.Server.World.{
  Outside, App, lift, ensure, require, read, change, attempt, now, now_iso, uuid, opaque_token,
  ◌>>=◌, ◌>>◌,
}
use machina_sol.Server.Http.{Request, ServerConfig, read_json_body}
use machina_sol.Server.Inputs.{
  property, required_text, optional_text, string_list, requested_list_limit,
}
use machina_sol.Server.Public.{
  text, flag, array_of, public_machine, public_machine_credential, public_machine_capability,
}
use machina_sol.Server.Auth.{authenticate}
use machina_sol.Server.Response.{
  Response, respond, yes_ok, guard_post, guard_mutation, require_owned_machine, after_attempt,
  segment,
}

is_ok : Result (Unit {0}) → Bool
is_ok (ok u) = true
is_ok (err e) = false

abbrev pub is_post : Request → Bool
is_post req = req.method == "POST"

unfoldable pub list_machines_route : Outside → Request → AuthSessionRecord → App Response
list_machines_route o req session = do
  limit ← lift (requested_list_limit req)
  machines ← read o (λ s. list_owned_machines o.env s session.user_id (some (of_nat limit)))
  respond 200 (yes_ok ∷ ("machines", array_of (map public_machine machines)) ∷ [])

unfoldable pub register_machine_route :
    Outside → ServerConfig → Request → AuthSessionRecord → App Response
unfolding is_ok
register_machine_route o config req session = do
  guard_mutation o config req "POST" session.user_id "machines"
  body ← read_json_body o req
  machine_id ← lift (required_text 64 body "machineId")
  ensure (is_ok (validate_machine_id machine_id)) 400 "invalid machineId"
  role ← lift (required_text 32 body "role")
  ensure (includes role machine_roles) 400 "invalid machine role"
  at ← now_iso o
  label ← lift (required_text 128 body "label")
  let machine : OwnedMachineRecord = record {
    machine_id = machine_id;
    owner_user_id = session.user_id;
    label = label;
    role = role;
    wallet_address = session.wallet_address;
    created_at = at;
    updated_at = at;
  }
  failure ← attempt o (λ s. create_owned_machine s machine)
  lift (after_attempt failure "machineId is already registered")
  respond 201 (yes_ok ∷ ("machine", public_machine machine) ∷ [])

-- /api/machines
unfoldable pub machines_route : Outside → ServerConfig → Request → App Response
unfolding list_machines_route register_machine_route
machines_route o config req = do
  session ← authenticate o req (is_post req)
  if req.method == "GET"
      then list_machines_route o req session
      else register_machine_route o config req session

-- A whole number from 1 to 365.
whole_days : Number → Option ℕ
whole_days (finite (pos m) k) =
    if nat_eq (m % 2 ^ k) 0 && (leb 1 (m / 2 ^ k) && leb (m / 2 ^ k) 365)
    then some (m / 2 ^ k)
    else none
whole_days _ = none

days_of : Outside → Json → Number
days_of o Json.undefined = of_nat 90
days_of o Json.null = of_nat 90
days_of o (Json.number n) = n
days_of o value = o.number_of value

unfoldable pub list_credentials_route :
    Outside → Request → AuthSessionRecord → String → App Response
list_credentials_route o req session machine_id = do
  limit ← lift (requested_list_limit req)
  found ←
      read o
        (λ s. list_machine_credentials o.env s session.user_id machine_id (some (of_nat limit)))
  respond 200 (yes_ok ∷ ("credentials", array_of (map public_machine_credential found)) ∷ [])

unfoldable pub create_credential_route :
    Outside → ServerConfig → Request → AuthSessionRecord → String → App Response
unfolding whole_days days_of
create_credential_route o config req session machine_id = do
  guard_mutation o config req "POST" session.user_id "machine-credentials"
  body ← read_json_body o req
  id ← uuid o
  token ← opaque_token o 36
  at ← now o
  days ←
      require (whole_days (days_of o (property "expiresInDays" body))) 400
        "expiresInDays must be 1-365"
  label ← lift (optional_text 80 body "label")
  let credential : MachineCredentialRecord = record {
    id = id;
    machine_id = machine_id;
    secret_hash = o.sha256 token;
    label = or_default label "telemetry ingestion";
    created_at = o.dates.iso at;
    expires_at = some (o.dates.iso (at + days * 86_400_000));
    revoked_at = none;
  }
  created ← change o (λ s. create_machine_credential s session.user_id credential)
  ensure created 409 "machine credential could not be created"
  respond 201 (
      yes_ok
      ∷ ("credential", text (id ^^ "." ^^ token))
      ∷ ("machineId", text machine_id)
      ∷ ("scope", text "telemetry:write")
      ∷ ("expiresAt", text (o.dates.iso (at + days * 86_400_000)))
      ∷ (
        "warning",
        text
            "This credential is shown once. Store it in the machine secret manager; do not place it in telemetry payloads.",
      )
      ∷ [])

-- /api/machines/<id>/credentials
unfoldable pub credentials_route : Outside → ServerConfig → Request → String → App Response
unfolding list_credentials_route create_credential_route
credentials_route o config req part = do
  session ← authenticate o req (is_post req)
  machine_id ← segment o part
  _ ← require_owned_machine o session.user_id machine_id
  if req.method == "GET"
      then list_credentials_route o req session machine_id
      else create_credential_route o config req session machine_id

-- /api/machine-credentials/<id>/revoke
unfoldable pub revoke_credential_route : Outside → ServerConfig → Request → String → App Response
revoke_credential_route o config req part = do
  session ← guard_post o config req "machine-credentials"
  credential_id ← segment o part
  at ← now_iso o
  revoked ← change o (λ s. revoke_machine_credential s session.user_id credential_id at)
  ensure revoked 404 "machine credential not found"
  respond 200 (yes_ok ∷ ("revoked", flag true) ∷ [])

abbrev pub are_capabilities : List String → Bool
are_capabilities cs = not (nat_eq (length cs) 0) && all (λ c. includes c machine_capabilities) cs

unfoldable pub list_capabilities_route : Outside → AuthSessionRecord → String → App Response
list_capabilities_route o session machine_id = do
  found ← read o (λ s. list_machine_capabilities s session.user_id machine_id)
  respond 200 (yes_ok ∷ ("capabilities", array_of (map public_machine_capability found)) ∷ [])

unfoldable pub replace_capabilities_route :
    Outside → ServerConfig → Request → AuthSessionRecord → String → App Response
replace_capabilities_route o config req session machine_id = do
  guard_mutation o config req "POST" session.user_id "machine-capabilities"
  body ← read_json_body o req
  capabilities ← lift (string_list 16 body "capabilities")
  ensure (are_capabilities capabilities) 400 "at least one supported machine capability is required"
  at ← now_iso o
  replaced ←
      change o (λ s. replace_machine_capabilities s session.user_id machine_id capabilities at)
  updated ← require replaced 404 "machine not found"
  respond 200 (yes_ok ∷ ("capabilities", array_of (map public_machine_capability updated)) ∷ [])

-- /api/machines/<id>/capabilities
unfoldable pub machine_capabilities_route : Outside → ServerConfig → Request → String → App Response
unfolding list_capabilities_route replace_capabilities_route
machine_capabilities_route o config req part = do
  session ← authenticate o req (is_post req)
  machine_id ← segment o part
  _ ← require_owned_machine o session.user_id machine_id
  if req.method == "GET"
      then list_capabilities_route o session machine_id
      else replace_capabilities_route o config req session machine_id
