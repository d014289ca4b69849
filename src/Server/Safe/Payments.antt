-- ===== src/Server/Safe/Payments.antt =====
-- The routes of settlements keep the invariant.
use machina_sol.Prelude.{String, ℕ, Bool, Option, none, some, List}
use machina_sol.Server.World.{Outside}
use machina_sol.Server.Http.{Request, ServerConfig}
use machina_sol.Store.Types.{
  AuthSessionRecord, PersistentResourceRequest, SettlementRecord, SettlementState,
}
use machina_sol.Transactions.Flow.{Checked, SolanaTransactionError}
use machina_sol.Transactions.Prepare.{PreparedTransaction}
use machina_sol.Transactions.Heights.{BlockhashValidity}
use machina_sol.Transactions.Confirm.{TransactionConfirmation, TransactionLifecycleAssessment}
use machina_sol.Server.Safe.Guards.{guard_rules}
use machina_sol.Server.Response.{send_solana_error}
use machina_sol.Server.Routes.Confirmation.{
  check_lifetime, conclude, confirm_route, finish, observe, reconcile, still, with_confirmation,
  with_validity,
}
use machina_sol.Server.Routes.Settlements.{
  cancel_settlement_route, create_settlement_route, guard_settlement, list_settlements_route,
  resume, resume_or_settle, settle_request, settlement_route, settlements_route,
}
use machina_sol.Server.Routes.Submission.{
  after_error, after_submission, prepare_again, prepare_route, prepare_unless, record_failed,
  record_submitted, record_unknown, report_submitted, store_prepared, submit_inspected,
  submit_route,
}
use machina_sol.Server.Keeps.{Keeps, Relies}
use machina_sol.Server.Safe.{safe}

module _ {o : Outside} (r : Relies safe o) (config : ServerConfig) (req : Request) where
  pub resume-kept : (found : SettlementRecord) → Keeps safe (resume found)
  unfolding resume
  resume-kept found = search guard_rules depth 60

  pub settle_request-kept :
      (session : AuthSessionRecord) (id : String) (request : PersistentResourceRequest)
      → Keeps safe (settle_request o session id request)
  unfolding settle_request
  settle_request-kept session id request = search guard_rules depth 60

  pub resume_or_settle-kept :
      (session : AuthSessionRecord) (id : String) (request : PersistentResourceRequest)
      (found : Option SettlementRecord)
      → Keeps safe (resume_or_settle o session id request found)
  unfolding resume_or_settle
  resume_or_settle-kept session id request (some t) = search (guard_rules, resume-kept) depth 60
  resume_or_settle-kept session id request none = search (guard_rules, settle_request-kept) depth 60

  pub settlements_route-kept : Keeps safe (settlements_route o config req)
  unfolding settlements_route list_settlements_route create_settlement_route
  settlements_route-kept = search (guard_rules, resume_or_settle-kept) depth 60

  pub settlement_route-kept : (part : String) → Keeps safe (settlement_route o req part)
  unfolding settlement_route
  settlement_route-kept part = search guard_rules depth 60

  pub guard_settlement-kept : (part : String) → Keeps safe (guard_settlement o config req part)
  unfolding guard_settlement
  guard_settlement-kept part = search guard_rules depth 60

  pub cancel_settlement_route-kept :
      (part : String) → Keeps safe (cancel_settlement_route o config req part)
  unfolding cancel_settlement_route
  cancel_settlement_route-kept part = search (guard_rules, guard_settlement-kept) depth 60

  pub send_solana_error-kept : (e : SolanaTransactionError) → Keeps safe (send_solana_error e)
  unfolding send_solana_error
  send_solana_error-kept e = search guard_rules depth 60

  pub store_prepared-kept :
      (user id at : String) (found : SettlementRecord) (p : Checked PreparedTransaction)
      → Keeps safe (store_prepared o user id at found p)
  unfolding store_prepared
  store_prepared-kept user id at found (Checked.failed e) =
      search (guard_rules, send_solana_error-kept) depth 60
  store_prepared-kept user id at found Checked.type_error =
      search (guard_rules, send_solana_error-kept) depth 60
  store_prepared-kept user id at found (Checked.done p) = search guard_rules depth 60

  pub prepare_again-kept :
      (user id at : String) (found : SettlementRecord)
      → Keeps safe (prepare_again o user id at found)
  unfolding prepare_again
  prepare_again-kept user id at found = search (guard_rules, store_prepared-kept) depth 60

  pub prepare_unless-kept :
      (user id at : String) (found : SettlementRecord) (waiting : Option String)
      → Keeps safe (prepare_unless o user id at found waiting)
  unfolding prepare_unless
  prepare_unless-kept user id at found (some unsigned) = search guard_rules depth 60
  prepare_unless-kept user id at found none = search (guard_rules, prepare_again-kept) depth 60

  pub prepare_route-kept : (part : String) → Keeps safe (prepare_route o config req part)
  unfolding prepare_route
  prepare_route-kept part =
      search (guard_rules, guard_settlement-kept, prepare_unless-kept) depth 60

  pub report_submitted-kept :
      (signature : String) (found : Option SettlementRecord)
      → Keeps safe (report_submitted signature found)
  unfolding report_submitted
  report_submitted-kept signature none = search guard_rules depth 60
  report_submitted-kept signature (some t) = search guard_rules depth 60

  pub record_submitted-kept :
      (user id signature : String) → Keeps safe (record_submitted o user id signature)
  unfolding record_submitted
  record_submitted-kept user id signature = search (guard_rules, report_submitted-kept) depth 60

  pub after_error-kept :
      (user id signature : String) (claimed : SettlementRecord) (e : SolanaTransactionError)
      → Keeps safe (after_error o user id signature claimed e)
  unfolding after_error record_unknown record_failed
  after_error-kept user id signature claimed e =
      search (guard_rules, send_solana_error-kept) depth 60

  pub after_submission-kept :
      (user id signature : String) (claimed : SettlementRecord) (c : Checked String)
      → Keeps safe (after_submission o user id signature claimed c)
  unfolding after_submission
  after_submission-kept user id signature claimed (Checked.failed e) =
      search (guard_rules, after_error-kept) depth 60
  after_submission-kept user id signature claimed Checked.type_error =
      search (guard_rules, after_error-kept) depth 60
  after_submission-kept user id signature claimed (Checked.done s) =
      search (guard_rules, record_submitted-kept) depth 60

  pub submit_inspected-kept :
      (user id at : String) (found : SettlementRecord) (c : Checked (String × List ℕ))
      → Keeps safe (submit_inspected o user id at found c)
  unfolding submit_inspected
  submit_inspected-kept user id at found (Checked.failed e) =
      search (guard_rules, send_solana_error-kept) depth 60
  submit_inspected-kept user id at found Checked.type_error =
      search (guard_rules, send_solana_error-kept) depth 60
  submit_inspected-kept user id at found (Checked.done (signature, bytes)) =
      search (guard_rules, after_submission-kept) depth 60

  pub submit_route-kept : (part : String) → Keeps safe (submit_route o config req part)
  unfolding submit_route
  submit_route-kept part =
      search (guard_rules, guard_settlement-kept, submit_inspected-kept) depth 60

  pub observe-kept :
      (user id at : String) (found : SettlementRecord) (c : TransactionConfirmation)
      → Keeps safe (observe o user id at found c)
  unfolding observe
  observe-kept user id at found c = search guard_rules depth 60

  pub still-kept :
      (found : SettlementRecord) (a : TransactionLifecycleAssessment) → Keeps safe (still found a)
  unfolding still
  still-kept found (TransactionLifecycleAssessment.still_pending ms) = search guard_rules depth 60
  still-kept found _ = search guard_rules depth 60

  pub finish-kept :
      (user id at : String) (found : SettlementRecord) (a : TransactionLifecycleAssessment)
      (e : Option (SettlementState × Option String × String × Bool))
      → Keeps safe (finish o user id at found a e)
  unfolding finish
  finish-kept user id at found a none = search (guard_rules, still-kept) depth 60
  finish-kept user id at found a (some (state, code, name, out)) = search guard_rules depth 60

  pub conclude-kept :
      (user id at : String) (found : SettlementRecord) (a : TransactionLifecycleAssessment)
      → Keeps safe (conclude o user id at found a)
  unfolding conclude
  conclude-kept user id at found a = search (guard_rules, finish-kept) depth 60

  pub reconcile-kept :
      (user id at : String) (found : SettlementRecord) (c : TransactionConfirmation)
      (v : Option BlockhashValidity)
      → Keeps safe (reconcile o user id at found c v)
  unfolding reconcile
  reconcile-kept user id at found c v = search (guard_rules, observe-kept, conclude-kept) depth 60

  pub with_validity-kept :
      (user id at : String) (found : SettlementRecord) (c : TransactionConfirmation)
      (v : Checked BlockhashValidity)
      → Keeps safe (with_validity o user id at found c v)
  unfolding with_validity
  with_validity-kept user id at found c (Checked.failed e) =
      search (guard_rules, send_solana_error-kept) depth 60
  with_validity-kept user id at found c Checked.type_error =
      search (guard_rules, send_solana_error-kept) depth 60
  with_validity-kept user id at found c (Checked.done v) =
      search (guard_rules, reconcile-kept) depth 60

  pub with_confirmation-kept :
      (user id at : String) (found : SettlementRecord) (c : Checked TransactionConfirmation)
      → Keeps safe (with_confirmation o user id at found c)
  unfolding with_confirmation check_lifetime
  with_confirmation-kept user id at found (Checked.failed e) =
      search (guard_rules, send_solana_error-kept) depth 60
  with_confirmation-kept user id at found Checked.type_error =
      search (guard_rules, send_solana_error-kept) depth 60
  with_confirmation-kept user id at found (Checked.done c) =
      search (guard_rules, reconcile-kept, with_validity-kept) depth 60

  pub confirm_route-kept : (part : String) → Keeps safe (confirm_route o config req part)
  unfolding confirm_route
  confirm_route-kept part =
      search (guard_rules, guard_settlement-kept, with_confirmation-kept) depth 60

pub ruleset payment_rules = (
  guard_rules, resume-kept, settle_request-kept, resume_or_settle-kept, settlements_route-kept,
  settlement_route-kept, guard_settlement-kept, cancel_settlement_route-kept,
  send_solana_error-kept, store_prepared-kept, prepare_again-kept, prepare_unless-kept,
  prepare_route-kept, report_submitted-kept, record_submitted-kept, after_error-kept,
  after_submission-kept, submit_inspected-kept, submit_route-kept, observe-kept, still-kept,
  finish-kept, conclude-kept, reconcile-kept, with_validity-kept, with_confirmation-kept,
  confirm_route-kept,
)
