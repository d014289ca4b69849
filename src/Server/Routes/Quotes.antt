-- ===== src/Server/Routes/Quotes.antt =====
-- The routes of quotes (src/server/production/app.ts).
use machina_sol.Prelude.{String, true, not, some, [], ◌∷◌, map, or_default, ◌==◌, if◌then◌else◌}
use machina_sol.Number.{of_nat}
use machina_sol.Store.Types.{AuthSessionRecord, CreateResourceQuoteInput}
use machina_sol.Store.State.{is_expired}
use machina_sol.Store.Quotes.{create_resource_quote, list_resource_quotes, withdraw_resource_quote}
use machina_sol.Store.Acceptance.{accept_resource_quote}
use machina_sol.Server.World.{
  Outside, App, lift, ensure, require, change, now_iso, uuid, ◌>>=◌, ◌>>◌,
}
use machina_sol.Server.Http.{Request, ServerConfig, read_json_body}
use machina_sol.Server.Inputs.{
  required_text, optional_text, decimal, optional_iso_timestamp, requested_list_limit,
}
use machina_sol.Server.Public.{flag, array_of, public_request, public_quote}
use machina_sol.Server.Auth.{authenticate}
use machina_sol.Server.Response.{Response, respond, yes_ok, guard_post, guard_mutation, segment}
use machina_sol.Server.Routes.Machines.{is_post}
use machina_sol.Server.Routes.Requests.{visible_request}

unfoldable pub list_quotes_route : Outside → Request → AuthSessionRecord → String → App Response
list_quotes_route o req session id = do
  found ← visible_request o session.user_id id
  _ ← require found 404 "resource request not found"
  most ← lift (requested_list_limit req)
  at ← now_iso o
  quotes ← change o (λ s. list_resource_quotes o.env s session.user_id id (some (of_nat most)) at)
  respond 200 (yes_ok ∷ ("quotes", array_of (map public_quote quotes)) ∷ [])

unfoldable pub create_quote_route :
    Outside → ServerConfig → Request → AuthSessionRecord → String → App Response
create_quote_route o config req session id = do
  guard_mutation o config req "POST" session.user_id "marketplace-quotes"
  body ← read_json_body o req
  expires_at ← lift (optional_iso_timestamp o body "expiresAt")
  at ← now_iso o
  ensure (not (is_expired expires_at at)) 422 "quote expiresAt must be in the future"
  asset ← lift (optional_text 16 body "asset")
  ensure (or_default asset "SOL" == "SOL") 400 "SOL is the only executable settlement asset"
  capability_id ← lift (required_text 128 body "capabilityId")
  amount ← lift (decimal o body "amount")
  quote_id ← uuid o
  let input : CreateResourceQuoteInput = record {
    resource_request_id = id;
    capability_id = capability_id;
    amount = amount;
    asset = "SOL";
    expires_at = expires_at;
  }
  created ← change o (λ s. create_resource_quote o.env s quote_id session.user_id input at)
  quote ←
      require created 409
        "quote is unauthorized, incompatible, duplicate, or outside request limits"
  respond 201 (yes_ok ∷ ("quote", public_quote quote) ∷ [])

-- /api/marketplace/requests/<id>/quotes
unfoldable pub quotes_route : Outside → ServerConfig → Request → String → App Response
unfolding list_quotes_route create_quote_route
quotes_route o config req part = do
  session ← authenticate o req (is_post req)
  id ← segment o part
  if req.method == "GET"
      then list_quotes_route o req session id
      else create_quote_route o config req session id

-- /api/marketplace/quotes/<id>/withdraw
unfoldable pub withdraw_quote_route : Outside → ServerConfig → Request → String → App Response
withdraw_quote_route o config req part = do
  session ← guard_post o config req "marketplace-quotes"
  id ← segment o part
  at ← now_iso o
  changed ← change o (λ s. withdraw_resource_quote s session.user_id id at)
  withdrawn ← require changed 409 "quote is unauthorized, expired, accepted, or already withdrawn"
  respond 200 (
      yes_ok
      ∷ ("withdrawn", flag true)
      ∷ ("request", public_request withdrawn.0)
      ∷ ("quote", public_quote withdrawn.1)
      ∷ [])

-- The acceptance, from either route.
unfoldable pub accept_quote :
    Outside → AuthSessionRecord → (request_id quote_id : String) → App Response
accept_quote o session request_id quote_id = do
  at ← now_iso o
  changed ← change o (λ s. accept_resource_quote s session.user_id request_id quote_id at)
  accepted ←
      require changed 409 "quote is unavailable, expired, or resource request is not selectable"
  respond 200
      (yes_ok ∷ ("request", public_request accepted.0) ∷ ("quote", public_quote accepted.1) ∷ [])

-- /api/marketplace/requests/<id>/quotes/<id>/accept
unfoldable pub accept_quote_route :
    Outside → ServerConfig → Request → (part quote : String) → App Response
unfolding accept_quote
accept_quote_route o config req part quote = do
  session ← guard_post o config req "marketplace-quotes"
  request_id ← segment o part
  quote_id ← segment o quote
  accept_quote o session request_id quote_id

-- /api/marketplace/requests/<id>/accept
unfoldable pub accept_request_route : Outside → ServerConfig → Request → String → App Response
unfolding accept_quote
accept_request_route o config req part = do
  session ← guard_post o config req "marketplace-quotes"
  body ← read_json_body o req
  request_id ← segment o part
  quote_id ← lift (required_text 128 body "quoteId")
  accept_quote o session request_id quote_id
