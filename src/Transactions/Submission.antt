-- ===== src/Transactions/Submission.antt =====
-- What a submission of a signed transaction rests on, and the order of its calls
-- (`submitSignedTransaction` of src/server/production/transactions.ts).
use machina_sol.Prelude.{
  ℕ, ◌≤◌, ◌≡◌, refl, sym, ap, subst, String, true, false, ltb, Option, none, some, List, [], ◌∷◌,
  ◌++◌, ◌⊎◌, inl, inr, arith, codes, includes, Bool-cases, Option-cases,
}
use machina_sol.Chars.{big_int}
use machina_sol.Decimal.{is_digits1}
use machina_sol.Json.{Json, member, safe_nat}
use machina_sol.Base58.{is_solana_signature}
use machina_sol.Transactions.Flow.{
  SolanaTransactionError, ErrorCode, Checked, done, failed, type_error, Answer, answered, thrown,
  RpcTransport, lift, request, ◌>>=◌, continue,
}
use machina_sol.Transactions.Heights.{
  parse_height, height_answered, height_against, validity_at, check_blockhash_validity,
}
use machina_sol.Transactions.Signed.{
  SimulationSuccess, simulated, simulation_result, simulate_signed_transaction, submission_result,
  refuse_expired, require_valid, submit_signed_transaction, is_null,
}

-- The node names a block height, as a number or as a text of digits.
abbrev pub Names : Answer → ℕ → Type 0
Names (answered (Json.number n)) height = safe_nat n ≡ some height
Names (answered (Json.string text)) height =
    (is_digits1 (codes text) ≡ true) × (height ≡ big_int (codes text))
Names _ height = true ≡ false

-- Where a last valid block height is given, the node names one that is not past it.
abbrev pub IsWithin : RpcTransport → Option String → List String → Type 0
IsWithin t none calls = Unit {0}
IsWithin t (some text) calls =
    (current : ℕ) × (Names (t.answer calls "getBlockHeight") current)
    × (is_digits1 (codes text) ≡ true)
    × (current ≤ big_int (codes text))

-- The calls before the simulation: the check of the height, where one is given.
abbrev pub checked_calls : Option String → List String → List String
checked_calls none calls = calls
checked_calls (some text) calls = "getBlockHeight" ∷ calls

-- The node answers a simulation without an error.
abbrev pub IsClean : Answer → Type 0
IsClean a =
    (result value failure : Json) × (a ≡ answered result)
    × (member "value" result ≡ some value)
    × (member "err" value ≡ some failure)
    × (is_null failure ≡ true)

-- The transaction is sent last, behind the checks, and a signature that is returned is the node's.
pub record IsSent (t : RpcTransport) (last : Option String) (calls : List String)
    (run : List String × Checked String) : Type 0 where
  pub order : run.0 ≡ "sendTransaction" ∷ "simulateTransaction" ∷ checked_calls last calls
  pub within : IsWithin t last calls
  pub clean : IsClean (t.answer (checked_calls last calls) "simulateTransaction")
  pub answer :
      (signature : String)
      → run.1 ≡ done signature
      → (t.answer ("simulateTransaction" ∷ checked_calls last calls) "sendTransaction"
          ≡ answered (Json.string signature))
        × (is_solana_signature signature ≡ true)

-- Nothing is sent, and no signature is returned.
pub record IsNotSent {A : Type 0} (calls : List String) (run : List String × Checked A)
    : Type 0 where
  pub made : (new : List String) × (run.0 ≡ new ++ calls) × (includes "sendTransaction" new ≡ false)
  pub no_value : (a : A) → ¬ (run.1 ≡ done a)

Names-height : (a : Answer) (current : ℕ) → height_answered a ≡ done current → Names a current
unfolding height_answered parse_height
Names-height (answered (Json.number n)) current h = elim (Option-cases (safe_nat n)) [
  | inl unsafe ↦ absurd (ground arith)
  | inr (k, safe) ↦ ground arith
]
Names-height (answered (Json.string text)) current h = (ground arith, ground arith)
Names-height (answered Json.undefined) current h = absurd (ground arith)
Names-height (answered Json.null) current h = absurd (ground arith)
Names-height (answered (Json.boolean b)) current h = absurd (ground arith)
Names-height (answered (Json.array xs)) current h = absurd (ground arith)
Names-height (answered (Json.object fs)) current h = absurd (ground arith)
Names-height (thrown text) current h = absurd (ground arith)

parse_height-digits :
    (text : String) (code : ErrorCode) (last : ℕ)
    → parse_height (Json.string text) code ≡ done last
    → (is_digits1 (codes text) ≡ true) × (last ≡ big_int (codes text))
unfolding parse_height
parse_height-digits text code last h = (ground arith, ground arith)

submission_result-answered :
    (a : Answer) (signature : String)
    → submission_result a ≡ done signature
    → (a ≡ answered (Json.string signature)) × (is_solana_signature signature ≡ true)
unfolding submission_result
submission_result-answered (answered (Json.string text)) signature h = (ground arith, ground arith)
submission_result-answered (answered (Json.number n)) signature h = absurd (ground arith)
submission_result-answered (answered Json.undefined) signature h = absurd (ground arith)
submission_result-answered (answered Json.null) signature h = absurd (ground arith)
submission_result-answered (answered (Json.boolean b)) signature h = absurd (ground arith)
submission_result-answered (answered (Json.array xs)) signature h = absurd (ground arith)
submission_result-answered (answered (Json.object fs)) signature h = absurd (ground arith)
submission_result-answered (thrown text) signature h = absurd (ground arith)

simulated-clean :
    (t : RpcTransport) (value : Json) (u : SimulationSuccess)
    → simulated t value ≡ done u
    → (failure : Json) × (member "err" value ≡ some failure) × (is_null failure ≡ true)
unfolding simulated
simulated-clean t value u h = elim (Option-cases (member "err" value)) [
  | inl absent ↦ absurd (ground arith)
  | inr (failure, found) ↦ (failure, found, ground arith)
]

simulation_result-clean :
    (t : RpcTransport) (a : Answer) (u : SimulationSuccess)
    → simulation_result t a ≡ done u
    → IsClean a
unfolding simulation_result
simulation_result-clean t (thrown text) u h = absurd (ground arith)
simulation_result-clean t (answered result) u h = elim (Option-cases (member "value" result)) [
  | inl absent ↦ absurd (ground arith)
  | inr (value, found) ↦
      let (failure, err', null') = simulated-clean t value u (ground arith) in
      (result, value, failure, refl, found, err', null')
]

not_done_failed : {A : Type 0} (e : SolanaTransactionError) (a : A) → ¬ (failed e ≡ done a)
not_done_failed e a h = ground arith

not_done_type_error : {A : Type 0} (a : A) → ¬ (type_error ≡ done a)
not_done_type_error a h = ground arith

-- The check of the height passes, or it ends the submission.
abbrev IsChecked :
    RpcTransport → Option String → List String → List String × Checked (Unit {0}) → Type 0
IsChecked t last calls run =
    ((run ≡ (checked_calls last calls, done tt)) × IsWithin t last calls) ⊎ IsNotSent calls run

refused-IsChecked :
    (t : RpcTransport) (text : String) (calls : List String) (current last : ℕ)
    → Names (t.answer calls "getBlockHeight") current
    → (is_digits1 (codes text) ≡ true) × (last ≡ big_int (codes text))
    → IsChecked t
        (some text)
        calls
        ("getBlockHeight" ∷ calls, refuse_expired (validity_at current last))
unfolding validity_at refuse_expired includes
refused-IsChecked t text calls current last names (digits, value) =
    elim (Bool-cases (ltb last current)) [
      | inl past ↦
          inr
            (record { made = ("getBlockHeight" ∷ [], refl, refl); no_value = λ u h. ground arith })
      | inr within ↦ inl (ground arith, (current, names, digits, ground arith))
    ]

height-IsChecked :
    (t : RpcTransport) (text : String) (calls : List String) (last : ℕ) (current : Checked ℕ)
    → height_answered (t.answer calls "getBlockHeight") ≡ current
    → (is_digits1 (codes text) ≡ true) × (last ≡ big_int (codes text))
    → IsChecked t (some text) calls (
        continue
          (continue ("getBlockHeight" ∷ calls, current) (λ c. lift (done (validity_at c last))))
          (λ v. lift (refuse_expired v)))
unfolding includes
height-IsChecked t text calls last (done current) e digits =
    refused-IsChecked t text calls current last (Names-height _ current e) digits
height-IsChecked t text calls last (failed x) e digits =
    inr (record { made = ("getBlockHeight" ∷ [], refl, refl); no_value = not_done_failed x })
height-IsChecked t text calls last type_error e digits =
    inr (record { made = ("getBlockHeight" ∷ [], refl, refl); no_value = not_done_type_error })

parsed-IsChecked :
    (t : RpcTransport) (text : String) (calls : List String) (last : Checked ℕ)
    → parse_height (Json.string text) ErrorCode.invalid_blockhash_response ≡ last
    → IsChecked t
        (some text)
        calls
        (continue (continue (calls, last) (height_against t)) (λ v. lift (refuse_expired v)))
unfolding height_against includes
parsed-IsChecked t text calls (done last) e =
    height-IsChecked t text calls last (height_answered (t.answer calls "getBlockHeight")) refl
      (parse_height-digits text _ last e)
parsed-IsChecked t text calls (failed x) e =
    inr (record { made = ([], refl, refl); no_value = not_done_failed x })
parsed-IsChecked t text calls type_error e =
    inr (record { made = ([], refl, refl); no_value = not_done_type_error })

require_valid-IsChecked :
    (t : RpcTransport) (last : Option String) (calls : List String)
    → IsChecked t last calls (require_valid t last calls)
unfolding require_valid check_blockhash_validity
require_valid-IsChecked t none calls = inl (refl, tt)
require_valid-IsChecked t (some text) calls =
    parsed-IsChecked t text calls
      (parse_height (Json.string text) ErrorCode.invalid_blockhash_response) refl

-- A new list of calls in front of the checked ones.
checked_new :
    (last : Option String) (calls : List String)
    → (new : List String) × ("simulateTransaction" ∷ checked_calls last calls ≡ new ++ calls)
      × (includes "sendTransaction" new ≡ false)
unfolding includes
checked_new none calls = ("simulateTransaction" ∷ [], refl, refl)
checked_new (some text) calls = ("simulateTransaction" ∷ "getBlockHeight" ∷ [], refl, refl)

-- What a submission does behind the check of the height.
simulate_and_send :
    RpcTransport → List String → Checked SimulationSuccess → List String × Checked String
simulate_and_send t before simulation =
    continue ("simulateTransaction" ∷ before, simulation)
      λ _. request t "sendTransaction" >>= λ signature. lift (submission_result signature)

simulate_and_send-IsSent :
    (t : RpcTransport) (last : Option String) (calls : List String)
    (simulation : Checked SimulationSuccess)
    → IsWithin t last calls
    → simulation_result t (t.answer (checked_calls last calls) "simulateTransaction") ≡ simulation
    → IsSent t last calls (simulate_and_send t (checked_calls last calls) simulation)
      ⊎ IsNotSent calls (simulate_and_send t (checked_calls last calls) simulation)
unfolding simulate_and_send
simulate_and_send-IsSent t last calls (done u) within e = inl (record {
  order = refl;
  within = within;
  clean = simulation_result-clean t _ u e;
  answer = λ signature. submission_result-answered _ signature;
})
simulate_and_send-IsSent t last calls (failed x) within e =
    inr (record { made = checked_new last calls; no_value = not_done_failed x })
simulate_and_send-IsSent t last calls type_error within e =
    inr (record { made = checked_new last calls; no_value = not_done_type_error })

checked-IsSent :
    (t : RpcTransport) (last : Option String) (calls : List String)
    (run : List String × Checked (Unit {0}))
    → IsChecked t last calls run
    → (let sent = continue run λ _. simulate_signed_transaction t >>= λ _.
          request t "sendTransaction" >>= λ signature. lift (submission_result signature) in
        IsSent t last calls sent ⊎ IsNotSent calls sent)
unfolding simulate_signed_transaction simulate_and_send
checked-IsSent t last calls (made, done u) (inl (e, within)) =
    subst
      (λ before.
        (let sent =
            simulate_and_send t before
              (simulation_result t (t.answer before "simulateTransaction")) in
          IsSent t last calls sent ⊎ IsNotSent calls sent))
      (sym (ap (λ p. p.0) e))
      (simulate_and_send-IsSent t last calls
        (simulation_result t (t.answer (checked_calls last calls) "simulateTransaction")) within
        refl)
checked-IsSent t last calls (made, failed x) (inl (e, within)) = absurd (ground arith)
checked-IsSent t last calls (made, type_error) (inl (e, within)) = absurd (ground arith)
checked-IsSent t last calls (made, done u) (inr stopped) = absurd (stopped.no_value u refl)
checked-IsSent t last calls (made, failed x) (inr stopped) =
    inr (record { made = stopped.made; no_value = not_done_failed x })
checked-IsSent t last calls (made, type_error) (inr stopped) =
    inr (record { made = stopped.made; no_value = not_done_type_error })

-- A transaction is sent only after the node named a block height that is not past the last valid one,
-- where one is given, and after it then answered a simulation without an error; a signature that is
-- returned is well formed and is what the node answered to the sending. Otherwise nothing is sent and
-- no signature is returned.
pub submit_signed_transaction-order :
    (t : RpcTransport) (last : Option String) (calls : List String)
    → IsSent t last calls (submit_signed_transaction t last calls)
      ⊎ IsNotSent calls (submit_signed_transaction t last calls)
unfolding submit_signed_transaction
submit_signed_transaction-order t last calls =
    checked-IsSent t last calls (require_valid t last calls) (require_valid-IsChecked t last calls)
