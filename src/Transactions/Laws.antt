-- ===== src/Transactions/Laws.antt =====
-- What the steps of a Solana transaction promise: validity in blocks, and when a transaction counts as
-- dropped.
use machina_sol.Prelude.{
  ℕ, ◌+◌, ◌-◌, ◌≤◌, ◌<◌, ◌≡◌, refl, subst, String, true, ltb, Option, none, some, List, inl, inr,
  arith, Bool-cases, if_cases,
}
use machina_sol.Json.{Json}
use machina_sol.Transactions.Flow.{
  ErrorCode, Checked, done, failed, RpcTransport, lift, continue, type_error,
}
use machina_sol.Transactions.Heights.{
  BlockhashValidity, parse_height, height_answered, height_against, validity_at,
  check_blockhash_validity,
}
use machina_sol.Transactions.Confirm.{
  Visibility, TransactionConfirmation, LifecycleInput, TransactionLifecycleAssessment,
  is_expired_validity, assess_pending, assess_confirmation, timeout_of, waited, assess_times,
  assess_transaction_lifecycle,
}

-- The numbers of a validity agree: what is left until the last valid block, or how far it is past.
abbrev pub IsConsistent : BlockhashValidity → Type 0
IsConsistent (BlockhashValidity.valid current last remaining) = current + remaining ≡ last
IsConsistent (BlockhashValidity.expired current last by) = (current ≡ last + by) × (0 < by)

validity_at-IsConsistent : (current last : ℕ) → IsConsistent (validity_at current last)
unfolding validity_at
validity_at-IsConsistent current last =
    if_cases IsConsistent (ltb last current) _ _ (λ past. (ground arith, ground arith))
      (λ within. ground arith)

done_inj :
    {A : Type 0} {calls made : List String} {a b : A}
    → ◌≡◌ {A = List String × Checked A} (calls, done a) (made, done b)
    → a ≡ b
done_inj h = ground arith

IsConsistent-at :
    (calls made : List String) (last : ℕ) (v : BlockhashValidity) (current : Checked ℕ)
    → continue (calls, current) (λ c. lift (done (validity_at c last))) ≡ (made, done v)
    → IsConsistent v
IsConsistent-at calls made last v (done c) h =
    subst IsConsistent (done_inj h) (validity_at-IsConsistent c last)
IsConsistent-at calls made last v (failed e) h = absurd (ground arith)
IsConsistent-at calls made last v type_error h = absurd (ground arith)

IsConsistent-against :
    (t : RpcTransport) (calls made : List String) (v : BlockhashValidity) (last : Checked ℕ)
    → continue (calls, last) (height_against t) ≡ (made, done v)
    → IsConsistent v
unfolding height_against
IsConsistent-against t calls made v (done l) h =
    IsConsistent-at _ made l v (height_answered (t.answer calls "getBlockHeight")) h
IsConsistent-against t calls made v (failed e) h = absurd (ground arith)
IsConsistent-against t calls made v type_error h = absurd (ground arith)

-- A validity that the check answers is consistent, whatever the node says.
pub check_blockhash_validity-IsConsistent :
    (t : RpcTransport) (last : String) (calls made : List String) (v : BlockhashValidity)
    → check_blockhash_validity t last calls ≡ (made, done v)
    → IsConsistent v
unfolding check_blockhash_validity
check_blockhash_validity-IsConsistent t last calls made v h =
    IsConsistent-against t calls made v
      (parse_height (Json.string last) ErrorCode.invalid_blockhash_response) h

-- Waiting alone never drops a transaction.
assess_times-not_dropped :
    (submitted now timeout : Option ℕ)
    → ¬ (assess_times submitted now timeout ≡ some TransactionLifecycleAssessment.dropped)
unfolding assess_times waited
assess_times-not_dropped submitted now timeout h = ground arith

dropped_of :
    (c : TransactionConfirmation) (input : LifecycleInput)
    → assess_confirmation c input ≡ some TransactionLifecycleAssessment.dropped
    → (c ≡ TransactionConfirmation.pending Visibility.not_found)
      × (is_expired_validity input.blockhash_validity ≡ true)
unfolding assess_confirmation assess_pending
dropped_of (TransactionConfirmation.confirmed_as c) input h = absurd (ground arith)
dropped_of TransactionConfirmation.failed_on_chain input h = absurd (ground arith)
dropped_of (TransactionConfirmation.pending Visibility.observed) input h =
    absurd (assess_times-not_dropped _ _ _ h)
dropped_of (TransactionConfirmation.pending Visibility.not_found) input h =
    elim (Bool-cases (is_expired_validity input.blockhash_validity)) [
      | inl past ↦ (refl, past)
      | inr other ↦ absurd (
          ground (
            arith,
            assess_times-not_dropped input.submitted_at input.now
                (timeout_of input.pending_timeout_ms),
          ))
    ]

expired_of :
    (v : Option BlockhashValidity)
    → is_expired_validity v ≡ true
    → (current last by : ℕ) × (v ≡ some (BlockhashValidity.expired current last by))
unfolding is_expired_validity
expired_of (some (BlockhashValidity.expired current last by)) h = (current, last, by, refl)
expired_of (some (BlockhashValidity.valid current last by)) h = absurd (ground arith)
expired_of none h = absurd (ground arith)

-- A transaction is called dropped, so that it may be prepared again, only when the node has not
-- seen it and its blockhash is past the last valid block.
pub assess_transaction_lifecycle-dropped :
    (input : LifecycleInput)
    → assess_transaction_lifecycle input ≡ some TransactionLifecycleAssessment.dropped
    → (input.confirmation ≡ TransactionConfirmation.pending Visibility.not_found)
      × ((current last by : ℕ) × (input.blockhash_validity
            ≡ some (BlockhashValidity.expired current last by)))
unfolding assess_transaction_lifecycle
assess_transaction_lifecycle-dropped input h =
    let (not_found, past) = dropped_of input.confirmation input h in
    (not_found, expired_of input.blockhash_validity past)

-- A transaction that stays pending has waited less than its timeout, and is looked at again after a
-- delay that is not zero, at most five seconds, and not past the timeout.
pub assess_times-pending :
    (submitted now timeout retry : ℕ)
    → assess_times (some submitted) (some now) (some timeout)
      ≡ some (TransactionLifecycleAssessment.still_pending retry)
    → (0 < retry) × (retry ≤ 5_000) × ((now - submitted) + retry ≤ timeout)
unfolding assess_times waited
assess_times-pending submitted now timeout retry h = (ground arith, ground arith, ground arith)
