-- ===== src/Market/Sound.antt =====
-- Every call of the marketplace keeps it sound, so every store that calls reach is sound.
pub mod Parts
pub mod Frame
pub mod Requests
pub mod Quotes
pub mod Acceptance
pub mod Grants
pub mod Receipts
pub mod Settlements
use machina_sol.Prelude.{arith, String, List, [], ◌∷◌, Option, none, some, ◌≡◌, refl}
use machina_sol.Store.State.{Env, ProductionStore, empty_store}
use machina_sol.Dict.{get}
use machina_sol.Dict.Unique.{IsUnique}
use machina_sol.Market.{
  Call, step, run, IsSound, accepted_for, granted_for, received_for, settled_for, signed_by,
}
use machina_sol.Market.Sound.Parts.{After, AfterResult}
use machina_sol.Market.Sound.Frame.{
  SameMarket-IsSound, create_authenticated_session-SameMarket, create_owned_machine-SameMarket,
  create_provider_capability-SameMarket, update_provider_capability-SameMarket,
}
use machina_sol.Market.Sound.Requests.{
  create_request-IsSound, select-IsSound, cancel-IsSound, reject-IsSound,
}
use machina_sol.Market.Sound.Quotes.{create_quote-IsSound, list_quotes-IsSound, withdraw-IsSound}
use machina_sol.Market.Sound.Acceptance.{accept-IsSound}
use machina_sol.Market.Sound.Grants.{
  create_grant-IsSound, read_grant-IsSound, transition_grant-IsSound,
}
use machina_sol.Market.Sound.Receipts.{create_receipt-IsSound, transition_receipt-IsSound}
use machina_sol.Market.Sound.Settlements.{create_settlement-IsSound, transition_settlement-IsSound}

pub step-IsSound : (env : Env) (s : ProductionStore) (c : Call) → IsSound s → IsSound (step env s c)
unfolding step
step-IsSound env s (Call.log_in proposed wallet) h =
    SameMarket-IsSound (create_authenticated_session-SameMarket s proposed wallet) h
step-IsSound env s (Call.create_machine m) h =
    SameMarket-IsSound (create_owned_machine-SameMarket s m) h
step-IsSound env s (Call.offer_capability user input id now) h =
    SameMarket-IsSound (create_provider_capability-SameMarket s user input id now) h
step-IsSound env s (Call.change_capability user capability patch) h =
    SameMarket-IsSound (update_provider_capability-SameMarket s user capability patch) h
step-IsSound env s (Call.create_request r) h = (create_request-IsSound s r h).at
step-IsSound env s (Call.select_provider user request machine capability now) h =
    (select-IsSound s user request now (some machine) (some capability) h).at
step-IsSound env s (Call.cancel_request user request now) h =
    (cancel-IsSound s user request now h).at
step-IsSound env s (Call.reject_request user request now) h =
    (reject-IsSound s user request now h).at
step-IsSound env s (Call.create_quote id user input now) h =
    (create_quote-IsSound env s id user input now h).at
step-IsSound env s (Call.list_quotes user request limit now) h =
    (list_quotes-IsSound env s user request limit now h).at
step-IsSound env s (Call.withdraw_quote user quote now) h = (withdraw-IsSound s user quote now h).at
step-IsSound env s (Call.accept_quote user request quote now) h =
    (accept-IsSound s user request quote now h).at
step-IsSound env s (Call.create_grant id user input now) h =
    (create_grant-IsSound s id user input now h).at
step-IsSound env s (Call.read_grant user request now) h =
    (read_grant-IsSound env s user request now h).at
step-IsSound env s (Call.transition_grant user grant from to now) h =
    (transition_grant-IsSound s user grant from to now h).at
step-IsSound env s (Call.create_receipt id user input now) h =
    (create_receipt-IsSound s id user input now h).at
step-IsSound env s (Call.transition_receipt user receipt from to now) h =
    (transition_receipt-IsSound s user receipt from to now h).at
step-IsSound env s (Call.create_settlement r) h = (create_settlement-IsSound s r h).at
step-IsSound env s (Call.transition_settlement_to user settlement from patch) h =
    (transition_settlement-IsSound s user settlement from patch h).at

nothing_in : {V : Type 0} (k : String) (v : V) → ¬ (get k [] ≡ some v)
unfolding get
nothing_in k v e = ground arith

nothing-IsUnique : {V : Type 0} (tag : V → Option String) → IsUnique tag []
nothing-IsUnique tag = record { agree = λ j k v w t e. absurd (nothing_in j v e) }

pub empty-IsSound : IsSound empty_store
empty-IsSound = record {
  request_ids = λ k r e. absurd (nothing_in k r e);
  settlement_ids = λ k t e. absurd (nothing_in k t e);
  one_accepted = nothing-IsUnique accepted_for;
  accepted_closed = λ k q id e. absurd (nothing_in k q e);
  one_grant = nothing-IsUnique granted_for;
  one_receipt = nothing-IsUnique received_for;
  one_settlement = nothing-IsUnique settled_for;
  one_signature = nothing-IsUnique signed_by;
}

run-IsSound :
    (env : Env) (s : ProductionStore) (calls : List Call) → IsSound s → IsSound (run env s calls)
unfolding run
run-IsSound env s [] h = h
run-IsSound env s (c ∷ cs) h = run-IsSound env (step env s c) cs (step-IsSound env s c h)

-- Whatever calls are made on an empty store, in any order and with any arguments, the store that
-- they leave is sound.
pub run_empty-IsSound : (env : Env) (calls : List Call) → IsSound (run env empty_store calls)
run_empty-IsSound env calls = run-IsSound env empty_store calls empty-IsSound
