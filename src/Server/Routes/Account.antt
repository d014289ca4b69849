-- ===== src/Server/Routes/Account.antt =====
-- The routes of /api/auth and the network (src/server/production/app.ts).
use machina_sol.Prelude.{String, true, false, List, [], ◌∷◌}
use machina_sol.Json.{Json}
use machina_sol.Hub.{disconnect_user}
use machina_sol.Store.Auth.{revoke_session}
use machina_sol.Server.World.{Outside, App, pure, lift, change, with_hub, now, now_iso, ◌>>=◌, ◌>>◌}
use machina_sol.Server.Http.{Request, ServerConfig, assert_origin_allowed, read_json_body}
use machina_sol.Server.Inputs.{required_text}
use machina_sol.Server.Public.{text, flag, object_of}
use machina_sol.Server.Auth.{
  challenge, verify, authenticate, session_cookie, csrf_cookie, expired_session_cookie,
  expired_csrf_cookie,
}
use machina_sol.Server.Response.{Response, respond, yes_ok, json_mutation, use_get}

-- bodyForMutation
unfoldable pub body_for_mutation : Outside → ServerConfig → Request → App Json
body_for_mutation o config req = do lift (assert_origin_allowed o config req); read_json_body o req

-- /api/auth/challenge
unfoldable pub challenge_route : Outside → ServerConfig → Request → App Response
challenge_route o config req = do
  json_mutation req "POST"
  body ← body_for_mutation o config req
  wallet ← lift (required_text 44 body "walletAddress")
  at ← now o
  c ← challenge o config wallet req at
  respond 201 (
      yes_ok
      ∷ ("challengeId", text c.challenge_id)
      ∷ ("message", text c.message)
      ∷ ("expiresAt", text c.expires_at)
      ∷ [])

-- /api/auth/verify
unfoldable pub verify_route : Outside → ServerConfig → Request → App Response
verify_route o config req = do
  json_mutation req "POST"
  body ← body_for_mutation o config req
  challenge_id ← lift (required_text 128 body "challengeId")
  wallet ← lift (required_text 44 body "walletAddress")
  signature ← lift (required_text 88 body "signature")
  at ← now o
  login ← verify o challenge_id wallet signature req at
  pure (record {
    status = 200;
    body = object_of (
        yes_ok
        ∷ ("authenticated", flag true)
        ∷ ("userId", text login.session.user_id)
        ∷ ("walletAddress", text login.session.wallet_address)
        ∷ ("expiresAt", text login.session.expires_at)
        ∷ ("csrfToken", text login.csrf_token)
        ∷ []);
    cookies = session_cookie login.session_token config ∷ csrf_cookie login.csrf_token config ∷ [];
  })

-- /api/auth/session
unfoldable pub session_route : Outside → Request → App Response
session_route o req = do
  use_get req
  s ← authenticate o req false
  respond 200 (
      yes_ok
      ∷ ("authenticated", flag true)
      ∷ ("userId", text s.user_id)
      ∷ ("walletAddress", text s.wallet_address)
      ∷ ("expiresAt", text s.expires_at)
      ∷ [])

-- /api/auth/logout
unfoldable pub logout_route : Outside → ServerConfig → Request → App Response
logout_route o config req = do
  json_mutation req "POST"
  lift (assert_origin_allowed o config req)
  s ← authenticate o req true
  at ← now_iso o
  _ ← change o (λ st. (revoke_session st s.id at, tt))
  _ ← with_hub o (λ hub. (disconnect_user s.user_id hub, tt))
  pure (record {
    status = 200;
    body = object_of (yes_ok ∷ ("authenticated", flag false) ∷ []);
    cookies = expired_session_cookie config ∷ expired_csrf_cookie config ∷ [];
  })

-- /api/production/network: `network` are the fields of the verified network.
unfoldable pub network_route : Outside → Request → (network : List (String × Json)) → App Response
network_route o req network = do
  use_get req
  _ ← authenticate o req false
  respond 200 (yes_ok ∷ network)
