-- ===== src/Tests/Market.antt =====
-- The market at work.
use machina_sol.Prelude.{
  String, List, all, any, filter, sort, ◌≡◌, refl, false, none, some, [], ◌∷◌, codes, text_le,
}
use machina_sol.Dict.{has, update_where, values, get, put}
use machina_sol.Store.Types.{
  AccessGrantState, ProviderCapabilityRow, Availability, AuthSessionRecord,
}
use machina_sol.Store.State.{empty_store, is_expired}
use machina_sol.Store.Auth.{consume_challenge, create_authenticated_session}
use machina_sol.Store.Quotes.{
  offer_quote, may_quote, is_live_offer, new_quote, create_resource_quote, expire_offers,
  list_resource_quotes,
}
use machina_sol.Store.Acceptance.{decline_others, accept_resource_quote}
use machina_sol.Store.Grants.{
  may_grant, new_grant, create_access_grant, newest_grant, access_grant, transition_access_grant,
}
use machina_sol.Chars.{big_int, chars_eq, is_digit, is_digits, print, print_from, value_from}
use machina_sol.Decimal.{is_digits1, match_decimal, before_dot, after_dot, is_fraction}
use machina_sol.Store.Lamports.{is_exact_amount, exact_lamports}
use machina_sol.Store.Settlements.{
  is_blank, may_settle, is_machine, has_wallet, is_wallet_of, has_settlement_for,
  create_settlement_for_accepted_request,
}
use machina_sol.Store.Machines.{owns, is_owned_by, create_owned_machine}
use machina_sol.Store.Capabilities.{create_provider_capability, serves_rails}
use machina_sol.Store.Requests.{create_resource_request}
use machina_sol.Number.{number_le, number_lt}
use machina_sol.Market.{step, Call, run, IsSound}
use machina_sol.Market.Sound.{run_empty-IsSound}
use machina_sol.Market.Effects.Accept.{IsAcceptance, accept_resource_quote-IsAcceptance}
use machina_sol.Market.Effects.Access.{
  IsGrantChange, Attempt, tried, consume_challenge-once, access_grant-fresh,
  list_resource_quotes-fresh, transition_access_grant-IsGrantChange,
}
use machina_sol.Market.Effects.Payment.{IsPayment, create_settlement-IsPayment}
use machina_sol.Tests.Data.{
  robot, server, sample_env, open_request, offer, offered_store, accepted_request, accepted_offer,
  pending_grant, accepted_store, payment, login, login_store,
}

abbrev gpu : ProviderCapabilityRow
gpu = record {
  id = "gpu";
  provider_machine_id = "server";
  owner_user_id = "bob";
  resource_type = "compute";
  label = "GPU";
  unit = "hour";
  rail_tags = [];
  availability = Availability.available;
  price_amount = some "0.5";
  price_asset = some "SOL";
  created_at = "2026-01-01";
  updated_at = "2026-01-01";
}

abbrev session_of : String → String → AuthSessionRecord
session_of user wallet = record {
  id = user;
  user_id = user;
  wallet_address = wallet;
  token_hash = user;
  csrf_hash = user;
  expires_at = "2026-03-01";
  revoked_at = none;
}

-- Ada and Bob log in with their machines, Bob offers a capability, and they trade.
abbrev trade : List Call
trade =
    Call.log_in (session_of "ada" "ada-wallet") "ada-wallet"
    ∷ Call.log_in (session_of "bob" "bob-wallet") "bob-wallet"
    ∷ Call.create_machine robot
    ∷ Call.create_machine server
    ∷ Call.offer_capability "bob" gpu "gpu" "2026-01-01"
    ∷ Call.create_request open_request
    ∷ Call.create_quote "offer" "bob"
        (record {
          resource_request_id = "request";
          capability_id = "gpu";
          amount = "0.5";
          asset = "SOL";
          expires_at = some "2026-02-01";
        })
        "2026-01-03"
    ∷ Call.accept_quote "ada" "request" "offer" "2026-01-04"
    ∷ Call.create_grant "grant" "bob"
        (record {
          resource_request_id = "request";
          resource_quote_id = "offer";
          access_reference = none;
          expires_at = some "2026-02-01";
        })
        "2026-01-05"
    ∷ Call.create_settlement payment
    ∷ []

traded :
    ((run sample_env empty_store trade).requests ≡ ("request", accepted_request) ∷ [])
    × ((run sample_env empty_store trade).quotes ≡ ("offer", accepted_offer) ∷ [])
    × ((run sample_env empty_store trade).grants ≡ ("grant", pending_grant) ∷ [])
    × ((run sample_env empty_store trade).settlements ≡ ("payment", payment) ∷ [])
unfolding run step create_access_grant accept_resource_quote create_resource_quote
    create_resource_request has create_provider_capability owns create_owned_machine
    create_authenticated_session may_quote serves_rails is_live_offer new_quote expire_offers
    update_where is_expired text_le decline_others is_owned_by number_le number_lt offer_quote
    may_grant new_grant create_settlement_for_accepted_request get is_blank may_settle is_machine
    has_wallet is_wallet_of is_exact_amount exact_lamports match_decimal before_dot codes is_digits
    all is_fraction after_dot big_int chars_eq is_digit print print_from value_from put values any
    has_settlement_for is_digits1
traded = (refl, refl, refl, refl)

run_empty-IsSound_example : IsSound (run sample_env empty_store trade)
run_empty-IsSound_example = run_empty-IsSound sample_env trade

accept_answers :
    (accept_resource_quote offered_store "ada" "request" "offer" "2026-01-04").1
    ≡ some (accepted_request, accepted_offer)
unfolding accept_resource_quote get is_expired text_le
accept_answers = refl

accept_resource_quote-IsAcceptance_example :
    IsAcceptance offered_store
      (accept_resource_quote offered_store "ada" "request" "offer" "2026-01-04").0
      "ada"
      "request"
      "offer"
      "2026-01-04"
      accepted_request
      accepted_offer
accept_resource_quote-IsAcceptance_example =
    accept_resource_quote-IsAcceptance offered_store "ada" "request" "offer" "2026-01-04"
      accepted_request accepted_offer accept_answers

settlement_answers :
    (create_settlement_for_accepted_request accepted_store payment).1 ≡ some payment
unfolding create_settlement_for_accepted_request get is_blank may_settle is_machine has_wallet
    is_wallet_of is_exact_amount exact_lamports match_decimal before_dot codes is_digits all
    is_fraction after_dot big_int chars_eq is_digit print print_from value_from put values any
    has_settlement_for is_digits1
settlement_answers = refl

create_settlement-IsPayment_example : (payment ≡ payment) × IsPayment accepted_store payment
create_settlement-IsPayment_example =
    create_settlement-IsPayment accepted_store payment payment settlement_answers

login_answers :
    (consume_challenge login_store "login" "ada-wallet" "2026-01-01").1
    ≡ some (record login { consumed_at = some "2026-01-01" })
unfolding consume_challenge get text_le
login_answers = refl

-- A second attempt fails, and so does a third one.
abbrev second_attempt : List Attempt
second_attempt = record { id = "login"; wallet = "ada-wallet"; now = "2026-01-01" } ∷ []

consume_challenge-once_example :
    (consume_challenge
      (tried second_attempt (consume_challenge login_store "login" "ada-wallet" "2026-01-01").0)
      "login"
      "ada-wallet"
      "2026-01-01").1
    ≡ none
consume_challenge-once_example =
    consume_challenge-once login_store "login" "ada-wallet" "2026-01-01"
      (record login { consumed_at = some "2026-01-01" }) second_attempt "ada-wallet" "2026-01-01"
      login_answers

grant_answers :
    (transition_access_grant accepted_store "bob" "grant" AccessGrantState.pending
      AccessGrantState.active "2026-01-05").1
    ≡ some (record pending_grant { state = AccessGrantState.active; updated_at = "2026-01-05" })
unfolding transition_access_grant get is_expired text_le
grant_answers = refl

transition_access_grant-IsGrantChange_example :
    IsGrantChange accepted_store
      (transition_access_grant accepted_store "bob" "grant" AccessGrantState.pending
        AccessGrantState.active "2026-01-05").0
      "bob"
      "grant"
      AccessGrantState.pending
      AccessGrantState.active
      "2026-01-05"
      (record pending_grant { state = AccessGrantState.active; updated_at = "2026-01-05" })
transition_access_grant-IsGrantChange_example =
    transition_access_grant-IsGrantChange accepted_store "bob" "grant" AccessGrantState.pending
      AccessGrantState.active "2026-01-05"
      (record pending_grant { state = AccessGrantState.active; updated_at = "2026-01-05" })
      grant_answers

grant_reads :
    (access_grant sample_env accepted_store "ada" "request" "2026-01-05").1 ≡ some pending_grant
unfolding access_grant get newest_grant sort filter values is_expired text_le
grant_reads = refl

access_grant-fresh_example : is_expired (some "2026-02-01") "2026-01-05" ≡ false
access_grant-fresh_example =
    access_grant-fresh sample_env accepted_store "ada" "request" "2026-01-05" pending_grant
      grant_reads refl

request_found : get "request" offered_store.requests ≡ some open_request
unfolding get
request_found = refl

offer_listed :
    get "offer"
      (list_resource_quotes sample_env offered_store "ada" "request" none "2026-01-05").0.quotes
    ≡ some offer
unfolding list_resource_quotes get expire_offers update_where is_expired text_le
offer_listed = refl

list_resource_quotes-fresh_example : is_expired (some "2026-02-01") "2026-01-05" ≡ false
list_resource_quotes-fresh_example =
    list_resource_quotes-fresh sample_env offered_store "ada" "request" none "2026-01-05"
      open_request "offer" offer request_found refl offer_listed refl refl
