-- ===== src/JobPolicy.antt =====
-- The policy of a machine job (src/jobs/policy.ts).
use machina_sol.Prelude.{
  ℕ, ◌+◌, ◌*◌, ◌^◌, ◌<◌, ◌≤◌, ◌≡◌, refl, ap, ◌∙◌, String, Bool, true, false, not, ◌||◌, Option,
  none, some, List, ◌++◌, any, nat_eq, length, codes, includes, ◌==◌, Result, ok, err, ◌>>=◌,
  bind-eq-ok, arith,
}
use machina_sol.Number.{Number, finite, negsuc, number_lt}
use machina_sol.Chars.{trim}
use machina_sol.Decimal.{Parts, match_decimal, mantissa, places}
use machina_sol.Decimal.Exact.{decimal_amount_gt-exact}
use machina_sol.Telemetry.Snapshot.{MachineTelemetrySnapshot}
use machina_sol.Telemetry.Checks.{Dates, is_down, telemetry_is_usable}
use machina_sol.Machine.{MachineIdentity, machine_has_capabilities}
use machina_sol.Job.{MachineJob}
use machina_sol.Policy.{reason_if, amount_exceeds_limit}

pub record MachineJobPolicy : Type 0 where
  pub policy_id : String
  pub allowed_chains : List String
  pub max_amount : String
  pub min_battery_pct : Option Number
  pub allowed_capabilities : Option (List String)

pub record MachinePolicyDecision : Type 0 where
  pub accepted : Bool
  pub policy_id : String
  pub reasons : List String
  pub machine_id : String
  pub job_id : String

forbids : Option (List String) → List String → Bool
forbids none required = false
forbids (some allowed) required = any (λ c. not (includes c allowed)) required

-- telemetry.batteryPct ?? -1
battery_or_minus_one : Option Number → Number
battery_or_minus_one none = finite (negsuc 0) 0
battery_or_minus_one (some b) = b

is_low : Option Number → Option Number → Bool
unfolding battery_or_minus_one
is_low none battery = false
is_low (some least) battery = number_lt (battery_or_minus_one battery) least

unfoldable pub policy_reasons :
    Dates
    → MachineIdentity
    → MachineJob
    → MachineTelemetrySnapshot
    → MachineJobPolicy
    → ℕ
    → Bool
    → List String
unfolding forbids is_low
policy_reasons dates machine job telemetry policy now exceeds =
    reason_if (not (machine.machine_id == job.machine_id)) "job machine mismatch"
    ++ reason_if
        (not (telemetry.machine_id == machine.machine_id)
          || not (telemetry.machine_id == job.machine_id))
        "telemetry machine mismatch"
    ++ reason_if (not (machine_has_capabilities machine job.required_capabilities))
        "machine missing required capability"
    ++ reason_if (forbids policy.allowed_capabilities job.required_capabilities)
        "capability not allowed by policy"
    ++ reason_if (not (includes "solana" policy.allowed_chains))
        "settlement rail not allowed by policy"
    ++ reason_if exceeds "settlement amount exceeds policy limit"
    ++ reason_if (is_low policy.min_battery_pct telemetry.battery_pct)
        "battery below policy threshold"
    ++ reason_if (not (telemetry_is_usable dates telemetry now (15 * 60000)))
        "telemetry is stale or unhealthy"

-- The comparison of the amounts may throw.
unfoldable pub evaluate_machine_job_policy :
    Dates
    → MachineIdentity
    → MachineJob
    → MachineTelemetrySnapshot
    → MachineJobPolicy
    → ℕ
    → Result MachinePolicyDecision
evaluate_machine_job_policy dates machine job telemetry policy now =
    amount_exceeds_limit job.settlement_amount policy.max_amount job.settlement_asset >>= λ exceeds.
    let reasons : List String = policy_reasons dates machine job telemetry policy now exceeds in
    ok (record {
      accepted = nat_eq (length reasons) 0;
      policy_id = policy.policy_id;
      reasons = reasons;
      machine_id = machine.machine_id;
      job_id = job.job_id;
    })

-- What an accepted job has.
pub record IsFit (dates : Dates) (machine : MachineIdentity) (job : MachineJob)
    (telemetry : MachineTelemetrySnapshot) (policy : MachineJobPolicy) (now : ℕ) : Type 0 where
  pub same_machine : (machine.machine_id == job.machine_id) ≡ true
  pub same_telemetry : (telemetry.machine_id == job.machine_id) ≡ true
  pub able : machine_has_capabilities machine job.required_capabilities ≡ true
  pub healthy : is_down telemetry.health ≡ false
  -- The telemetry is at most 15 minutes old, and not of the future.
  pub fresh : (t : ℕ) × (dates.time telemetry.observed_at ≡ some t) × (t ≤ now) × (now ≤ t + 900000)
  -- As decimals, the amount is not more than the limit.
  pub amount :
      (p q : Parts) × (match_decimal (trim (codes job.settlement_amount)) ≡ some p)
      × (match_decimal (trim (codes policy.max_amount)) ≡ some q)
      × ¬ (mantissa q * 10 ^ places p < mantissa p * 10 ^ places q)

usable-fresh :
    (dates : Dates) (s : MachineTelemetrySnapshot) (now : ℕ) (seen : Option ℕ)
    → dates.time s.observed_at ≡ seen
    → telemetry_is_usable dates s now (15 * 60000) ≡ true
    → (t : ℕ) × (dates.time s.observed_at ≡ some t) × (t ≤ now) × (now ≤ t + 900000)
unfolding telemetry_is_usable
usable-fresh dates s now none dated h = absurd (ground arith)
usable-fresh dates s now (some t) dated h = (t, dated, ground arith, ground arith)

usable-healthy :
    (dates : Dates) (s : MachineTelemetrySnapshot) (now : ℕ)
    → telemetry_is_usable dates s now (15 * 60000) ≡ true
    → is_down s.health ≡ false
unfolding telemetry_is_usable
usable-healthy dates s now h = ground arith

not_more :
    (amount max_amount : String) (asset : Option String)
    → amount_exceeds_limit amount max_amount asset ≡ ok false
    → (p q : Parts) × (match_decimal (trim (codes amount)) ≡ some p)
      × (match_decimal (trim (codes max_amount)) ≡ some q)
      × ¬ (mantissa q * 10 ^ places p < mantissa p * 10 ^ places q)
unfolding amount_exceeds_limit
not_more amount max_amount asset h =
    let (p, q, e, f, iff) = decimal_amount_gt-exact (codes amount) (codes max_amount) _ false h in
    (p, q, e, f, λ more. ground (arith, iff.1 more))

no_objection :
    (a b c d e f g i : Bool) (p q r s t u v w : String)
    → nat_eq
        (length (
          reason_if a p
          ++ reason_if b q
          ++ reason_if c r
          ++ reason_if d s
          ++ reason_if e t
          ++ reason_if f u
          ++ reason_if g v
          ++ reason_if i w))
        0
      ≡ true
    → (a ≡ false) × (b ≡ false) × (c ≡ false) × (f ≡ false) × (i ≡ false)
no_objection a b c d e f g i p q r s t u v w h =
    (ground arith, ground arith, ground arith, ground arith, ground arith)

-- A job is accepted only for the machine that it names, with telemetry of that machine that is
-- healthy and at most 15 minutes old, all the capabilities that it requires, and an amount that is,
-- as a decimal, at most the limit.
pub evaluate_machine_job_policy-IsFit :
    (dates : Dates) (machine : MachineIdentity) (job : MachineJob)
    (telemetry : MachineTelemetrySnapshot) (policy : MachineJobPolicy) (now : ℕ)
    (decision : MachinePolicyDecision)
    → evaluate_machine_job_policy dates machine job telemetry policy now ≡ ok decision
    → decision.accepted ≡ true
    → IsFit dates machine job telemetry policy now
unfolding evaluate_machine_job_policy policy_reasons
evaluate_machine_job_policy-IsFit dates machine job telemetry policy now decision h accepted =
    let (exceeds, ran, decided) =
      bind-eq-ok (amount_exceeds_limit job.settlement_amount policy.max_amount job.settlement_asset)
        _ h in
    let (a, b, c, f, i) =
      no_objection _ _ _ _ _ _ _ _ _ _ _ _ _ _ _ _ (ap is_accepted decided ∙ accepted') in
    record {
      same_machine = ground arith;
      same_telemetry = ground arith;
      able = ground arith;
      healthy = usable-healthy dates telemetry now (ground arith);
      fresh = usable-fresh dates telemetry now _ refl (ground arith);
      amount = not_more _ _ _ (ran ∙ ap ok f);
    }
  where
    is_accepted : Result MachinePolicyDecision → Bool
    is_accepted (ok d) = d.accepted
    is_accepted (err e) = false

    accepted' : is_accepted (ok decision) ≡ true
    accepted' = accepted
