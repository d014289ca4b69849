-- ===== src/Tests/Telemetries.antt =====
-- Telemetry and the policy of a job. A time is written as as many strokes.
use machina_sol.Prelude.{
  ℕ, zero, suc, ◌≡◌, refl, ap, String, true, none, some, [], ◌∷◌, length, codes, ok,
}
use machina_sol.Number.{is_finite, number_lt, of_nat}
use machina_sol.Telemetry.Snapshot.{MachineHealth, MachineTelemetrySnapshot}
use machina_sol.Telemetry.Checks.{fault, Dates, normalize_telemetry_snapshot}
use machina_sol.Machine.{MachineIdentity, machine_has_capabilities}
use machina_sol.Prelude.{all, any, includes}
use machina_sol.Telemetry.Checks.{telemetry_is_usable}
use machina_sol.Policy.{amount_exceeds_limit, decimals_for_settlement}
use machina_sol.Chars.{
  trim, is_digits, big_int, is_digit, is_whitespace, trim_end, trim_start, value_from,
}
use machina_sol.Decimal.{
  decimal_amount_gt, compare_decimal_amounts, decimal_to_base_units, normalize_decimal_amount,
  match_decimal, is_digits1, before_dot, is_fraction, after_dot, join, base_units, is_zeros,
  strip_leading, strip_trailing, zeros,
}
use machina_sol.Job.{MachineJob, MachineJobStatus}
use machina_sol.JobPolicy.{
  MachineJobPolicy, MachinePolicyDecision, IsFit, policy_reasons, evaluate_machine_job_policy,
  evaluate_machine_job_policy-IsFit,
}

unfoldable strokes : ℕ → String
strokes zero = ""
strokes (suc n) = String.◌∷◌ "|" (strokes n)

abbrev unary : Dates
unary = record { time = λ text. some (length (codes text)); iso = strokes }

counts : (n : ℕ) → length (codes (strokes n)) ≡ n
unfolding strokes codes
counts zero = refl
counts (suc n) = ap suc (counts n)

again : (t : ℕ) → unary.time (unary.iso t) ≡ some t
again t = ap some (counts t)

abbrev reading : MachineTelemetrySnapshot
reading = record {
  machine_id = "robot";
  observed_at = "||";
  battery_pct = some (of_nat 80);
  health = MachineHealth.nominal;
  signal_pct = none;
  progress_pct = none;
  location = none;
  pose = none;
  telemetry_ref = none;
}

normalizes : normalize_telemetry_snapshot unary reading ≡ ok reading
unfolding normalize_telemetry_snapshot strokes fault number_lt is_finite codes
normalizes = refl

abbrev robot : MachineIdentity
robot = record {
  machine_id = "robot";
  role = "rover";
  wallet_address = "wallet";
  operator_id = "ada";
  capabilities = "mapping" ∷ [];
  label = none;
  owner = none;
  metadata = [];
}

abbrev mapping_job : MachineJob
mapping_job = record {
  job_id = "job-1";
  machine_id = "robot";
  required_capabilities = "mapping" ∷ [];
  status = MachineJobStatus.created;
  settlement_amount = "1";
  settlement_asset = none;
  recipient = "ada";
  created_at = "2026-01-01";
  updated_at = "2026-01-01";
  previous_job_id = none;
  telemetry_ref = none;
  settlement_intent_id = none;
  proof_id = none;
}

abbrev careful : MachineJobPolicy
careful = record {
  policy_id = "careful";
  allowed_chains = "solana" ∷ [];
  max_amount = "5";
  min_battery_pct = some (of_nat 20);
  allowed_capabilities = some ("mapping" ∷ []);
}

abbrev approval : MachinePolicyDecision
approval = record {
  accepted = true;
  policy_id = "careful";
  reasons = [];
  machine_id = "robot";
  job_id = "job-1";
}

approves : evaluate_machine_job_policy unary robot mapping_job reading careful 5 ≡ ok approval
unfolding evaluate_machine_job_policy amount_exceeds_limit decimal_amount_gt compare_decimal_amounts
    decimal_to_base_units decimals_for_settlement normalize_decimal_amount match_decimal is_digits1
    before_dot trim codes is_digits all is_fraction after_dot big_int join is_digit is_whitespace
    trim_end trim_start value_from base_units is_zeros strip_leading strip_trailing zeros
    policy_reasons machine_has_capabilities number_lt any includes telemetry_is_usable
approves = refl

evaluate_machine_job_policy-IsFit_example : IsFit unary robot mapping_job reading careful 5
evaluate_machine_job_policy-IsFit_example =
    evaluate_machine_job_policy-IsFit unary robot mapping_job reading careful 5 approval approves
      refl
