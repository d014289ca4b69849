-- ===== src/Server/Claim.antt =====
-- A settlement's transaction is sent only once it is claimed (src/server/production/app.ts).
use machina_sol.Prelude.{ℕ, String, none, List, ◌≡◌, arith}
use machina_sol.Store.Types.{SettlementRecord, SettlementState}
use machina_sol.Store.Settlements.{transition_settlement}
use machina_sol.Transactions.Flow.{Checked}
use machina_sol.Server.World.{State, Outside, refused, change, require, wait, ◌>>=◌}
use machina_sol.Server.Routes.Submission.{submit_inspected, claim_patch}

-- Where the claim of the signature fails, nothing is sent: the node is not called at all, and the
-- answer is the error 409.
pub submit_inspected-unclaimed :
    (o : Outside) (user_id id at : String) (found : SettlementRecord) (signature : String)
    (bytes : List ℕ) (st : State)
    → (transition_settlement
        (wait o st).shared.store
        user_id
        id
        SettlementState.awaiting_signature
        (claim_patch signature at)).1
      ≡ none
    → ((submit_inspected o user_id id at found (Checked.done (signature, bytes)) st).0.calls
        ≡ st.calls)
      × ((submit_inspected o user_id id at found (Checked.done (signature, bytes)) st).1
          ≡ refused 409 "settlement state changed or transaction signature is already claimed")
unfolding submit_inspected ◌>>=◌ change require
submit_inspected-unclaimed o user_id id at found signature bytes st e = (ground arith, ground arith)
