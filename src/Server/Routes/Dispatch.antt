-- ===== src/Server/Routes/Dispatch.antt =====
-- Which route a request takes (`handleProductionRequest` of src/server/production/app.ts).
use machina_sol.Prelude.{
  ℕ, String, not, ◌&&◌, ◌||◌, Option, none, some, List, [], ◌∷◌, ◌==◌, if◌then◌else◌,
}
use machina_sol.Json.{Json}
use machina_sol.Texts.{split_on}
use machina_sol.Store.Receipts as StoreReceipts
use machina_sol.Server.World.{Outside, App, pure, ◌>>=◌}
use machina_sol.Server.Http.{Request, ServerConfig}
use machina_sol.Server.Response.{Response}
use machina_sol.Server.Routes.Account.{
  challenge_route, verify_route, session_route, logout_route, network_route,
}
use machina_sol.Server.Routes.Machines.{
  machines_route, credentials_route, revoke_credential_route, machine_capabilities_route,
}
use machina_sol.Server.Routes.Sessions.{sessions_route, end_session_route, orders_route}
use machina_sol.Server.Routes.Telemetry.{machine_telemetry_route, telemetry_route, stream_route}
use machina_sol.Server.Routes.Capabilities.{providers_route, capabilities_route, capability_route}
use machina_sol.Server.Routes.Requests.{
  provider_requests_route, requests_route, cancel_request_route, reject_request_route,
  compatible_providers_route, select_provider_route, request_route,
}
use machina_sol.Server.Routes.Quotes.{
  quotes_route, withdraw_quote_route, accept_quote_route, accept_request_route,
}
use machina_sol.Server.Routes.Grants.{
  GrantAction, grant_route, grant_action_route, receipt_settlement_route, receipt_route,
  receipt_action_route,
}
use machina_sol.Server.Routes.Settlements.{
  settlements_route, settlement_route, cancel_settlement_route,
}
use machina_sol.Server.Routes.Submission.{prepare_route, submit_route}
use machina_sol.Server.Routes.Confirmation.{confirm_route}

-- The route answers, and the request is handled.
unfoldable pub handled : App Response → App (Option Response)
handled m = m >>= λ r. pure (some r)

-- No route takes the request.
unfoldable pub unhandled : App (Option Response)
unhandled = pure none

-- A request, with what its handler needs of the server: the fields of the network, and the number of
-- its stream.
module _ (o : Outside) (config : ServerConfig) (network : List (String × Json)) (stream : ℕ)
    (req : Request) where
  -- /api/<a>
  unfoldable pub route_one : String → App (Option Response)
  unfolding handled unhandled
  route_one a =
      if a == "machines"
      then handled (machines_route o config req)
      else if a == "work-orders"
      then handled (orders_route o config req)
      else if a == "telemetry"
      then handled (telemetry_route o req)
      else if a == "settlements"
      then handled (settlements_route o config req)
      else unhandled

  -- /api/<a>/<b>
  unfoldable pub route_two : (a b : String) → App (Option Response)
  unfolding handled unhandled
  route_two a b =
      if a == "auth" && b == "challenge"
      then handled (challenge_route o config req)
      else if a == "auth" && b == "verify"
      then handled (verify_route o config req)
      else if a == "auth" && b == "session"
      then handled (session_route o req)
      else if a == "auth" && b == "logout"
      then handled (logout_route o config req)
      else if a == "production" && b == "network"
      then handled (network_route o req network)
      else if a == "runtime" && b == "sessions"
      then handled (sessions_route o config req)
      else if a == "telemetry" && b == "stream"
      then handled (stream_route o req stream)
      else if a == "marketplace" && b == "providers"
      then handled (providers_route o req)
      else if a == "marketplace" && b == "capabilities"
      then handled (capabilities_route o config req)
      else if a == "marketplace" && b == "requests"
      then handled (requests_route o config req)
      else if a == "settlements" && not (b == "")
      then handled (settlement_route o req b)
      else unhandled

  -- /api/<a>/<b>/<c>
  unfoldable pub route_three : (a b c : String) → App (Option Response)
  unfolding handled unhandled
  route_three a b c =
      if a == "machines" && (not (b == "") && c == "credentials")
      then handled (credentials_route o config req b)
      else if a == "machine-credentials" && (not (b == "") && c == "revoke")
      then handled (revoke_credential_route o config req b)
      else if a == "machines" && (not (b == "") && c == "capabilities")
      then handled (machine_capabilities_route o config req b)
      else if a == "machines" && (not (b == "") && c == "telemetry")
      then handled (machine_telemetry_route o config req b)
      else if a == "marketplace" && (b == "capabilities" && not (c == ""))
      then handled (capability_route o config req c)
      else if a == "marketplace" && (b == "provider" && c == "requests")
      then handled (provider_requests_route o req)
      else if a == "marketplace" && (b == "requests" && not (c == ""))
      then handled (request_route o req c)
      else if a == "settlements" && (not (b == "") && c == "prepare")
      then handled (prepare_route o config req b)
      else if a == "settlements" && (not (b == "") && c == "submit")
      then handled (submit_route o config req b)
      else if a == "settlements" && (not (b == "") && c == "confirm")
      then handled (confirm_route o config req b)
      else if a == "settlements" && (not (b == "") && c == "cancel")
      then handled (cancel_settlement_route o config req b)
      else unhandled

  -- /api/marketplace/requests/<id>/<d>
  unfoldable pub route_request : (id d : String) → App (Option Response)
  unfolding handled unhandled
  route_request id d =
      if d == "cancel"
      then handled (cancel_request_route o config req id)
      else if d == "reject"
      then handled (reject_request_route o config req id)
      else if d == "compatible-providers"
      then handled (compatible_providers_route o req id)
      else if d == "select-provider"
      then handled (select_provider_route o config req id)
      else if d == "quotes"
      then handled (quotes_route o config req id)
      else if d == "accept"
      then handled (accept_request_route o config req id)
      else if d == "grant"
      then handled (grant_route o config req id)
      else if d == "receipt-settlement"
      then handled (receipt_settlement_route o req id)
      else if d == "receipt"
      then handled (receipt_route o config req id)
      else unhandled

  -- /api/marketplace/<b>/<id>/<d>, but for the requests
  unfoldable pub route_action : (b id d : String) → App (Option Response)
  unfolding handled unhandled
  route_action b id d =
      if b == "quotes" && d == "withdraw"
      then handled (withdraw_quote_route o config req id)
      else if b == "grants" && d == "activate"
      then handled (grant_action_route o config req id GrantAction.activate)
      else if b == "grants" && d == "revoke"
      then handled (grant_action_route o config req id GrantAction.revoke)
      else if b == "grants" && d == "expire"
      then handled (grant_action_route o config req id GrantAction.expire)
      else if b == "receipts" && d == "verify"
      then handled (receipt_action_route o config req id StoreReceipts.Outcome.verified)
      else if b == "receipts" && d == "reject"
      then handled (receipt_action_route o config req id StoreReceipts.Outcome.rejected)
      else unhandled

  -- /api/<a>/<b>/<c>/<d>
  unfoldable pub route_four : (a b c d : String) → App (Option Response)
  unfolding handled unhandled
  route_four a b c d =
      if a == "runtime" && (b == "sessions" && (not (c == "") && d == "end"))
      then handled (end_session_route o config req c)
      else if c == "" || not (a == "marketplace")
      then unhandled
      else if b == "requests"
      then route_request c d
      else route_action b c d

  -- /api/marketplace/requests/<id>/quotes/<id>/accept
  unfoldable pub route_six : (a b c d e f : String) → App (Option Response)
  unfolding handled unhandled
  route_six a b c d e f =
      if a == "marketplace"
        && (b == "requests"
            && (not (c == "") && (d == "quotes" && (not (e == "") && f == "accept"))))
      then handled (accept_quote_route o config req c e)
      else unhandled

  -- What stands after /api/.
  unfoldable pub route_parts : List String → App (Option Response)
  unfolding unhandled
  route_parts (a ∷ []) = route_one a
  route_parts (a ∷ b ∷ []) = route_two a b
  route_parts (a ∷ b ∷ c ∷ []) = route_three a b c
  route_parts (a ∷ b ∷ c ∷ d ∷ []) = route_four a b c d
  route_parts (a ∷ b ∷ c ∷ d ∷ e ∷ f ∷ []) = route_six a b c d e f
  route_parts _ = unhandled

  unfoldable pub route_path : List String → App (Option Response)
  unfolding unhandled
  route_path (root ∷ api ∷ parts) =
      if root == "" && api == "api" then route_parts parts else unhandled
  route_path _ = unhandled

  -- `none` is the answer `false`, for a request of another part of the server.
  unfoldable pub handle_production_request : App (Option Response)
  unfolding route_path
  handle_production_request = route_path (split_on b'/' req.path)
