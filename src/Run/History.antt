-- ===== src/Run/History.antt =====
-- What holds of every ledger that a sequence of calls leaves.
use orvo_agent.Base.{subst, ◌∙◌, ap, sym, String, Option, Result, ◌≡◌, refl, none, some, ok, raise}
use orvo_agent.Run.Ledger.{
  append_dispatch_outcome, append_artifact_ref, append_connector_outcome, update_run, create_run,
  LedgerCall, perform_ledger, update_stored, loaded_run, commit_run, if_free, create_if_new,
  IsLedger, RunOutcome, LedgerOps,
}
use orvo_agent.Redaction.Engine.{Engine}
use orvo_agent.Run.Record.{RunRecord}
use orvo_agent.Run.Evolution.{Evolves, IsRun}
use orvo_agent.Model.{Error}
use orvo_agent.Cases.Detection.{Host}
use orvo_agent.Run.Appends.{with_dispatch-Evolves, with_artifact-Evolves, with_outcome-Evolves}
use orvo_agent.Run.Invariant.{changed_run-Evolves, new_run-IsRun}

-- What a call returned, and the ledger it left: it failed and the ledger is as it was, or it saved one
-- valid run, which is new or evolved from the stored one.
abbrev pub SteppedRun : {St : Type 0} → LedgerOps St → Engine → St → RunOutcome St → Type 0
SteppedRun S E st (raise e, st') = st' ≡ st
SteppedRun S E st (ok r', st') =
    (st' ≡ S.persist_run st r')
    × (((r : RunRecord) → S.get_run st r'.run_id ≡ some r → IsRun r → IsRun r' × Evolves E r r')
        × (S.get_run st r'.run_id ≡ none → IsRun r'))

-- Every stored run is valid.
abbrev pub AllRuns : {St : Type 0} → LedgerOps St → St → Type 0
AllRuns S st = (id : String) (r : RunRecord) → S.get_run st id ≡ some r → IsRun r

none-ne-some : (r : RunRecord) → none ≡ some r → ⊥
none-ne-some r h = cc

pub some-eq : (r s : RunRecord) → some r ≡ some s → r ≡ s
some-eq r s h = cc

module _ {St : Type 0} (S : LedgerOps St) (E : Engine) {Inv : St → Type 0}
    (L : IsLedger S Inv) where
  if_free-SteppedRun :
      (st : St) (r : RunRecord) (stored : Option RunRecord)
      → S.get_run st r.run_id ≡ stored
      → IsRun r
      → SteppedRun S E st (if_free S st r stored)
  unfolding if_free
  if_free-SteppedRun st r none g v =
      (refl, (λ old h w. absurd (none-ne-some old (sym g ∙ h)), λ _. v))
  if_free-SteppedRun st r (some old) g v = refl

  create_if_new-SteppedRun :
      (st : St) (built : Result Error RunRecord)
      → ((r : RunRecord) → built ≡ ok r → IsRun r)
      → SteppedRun S E st (create_if_new S st built)
  unfolding create_if_new
  create_if_new-SteppedRun st (raise e) f = refl
  create_if_new-SteppedRun st (ok r) f =
      if_free-SteppedRun st r (S.get_run st r.run_id) refl (f r refl)

  -- A change that keeps runs valid and lets them evolve.
  abbrev Keeps : (RunRecord → Result Error RunRecord) → Type 0
  Keeps change = (r r' : RunRecord) → IsRun r → change r ≡ ok r' → IsRun r' × Evolves E r r'

  commit_run-SteppedRun :
      (st : St) (id : String) (r : RunRecord) (change : RunRecord → Result Error RunRecord)
      (built : Result Error RunRecord)
      → Inv st
      → S.get_run st id ≡ some r
      → IsRun r
      → change r ≡ built
      → Keeps change
      → SteppedRun S E st (commit_run S st built)
  unfolding commit_run
  commit_run-SteppedRun st id r change (raise e) i g v c k = refl
  commit_run-SteppedRun st id r change (ok r') i g v c k =
      let (w, x) = k r r' v c in
      let at : S.get_run st r'.run_id ≡ some r =
        ap (S.get_run st) (x.run_id ∙ L.get_id st id r i g) ∙ g in
      (refl, (λ s h _. (w, subst (λ z. Evolves E z r') (some-eq r s (sym at ∙ h)) x), λ h. w))

  loaded_run-SteppedRun :
      (st : St) (id : String) (change : RunRecord → Result Error RunRecord)
      (stored : Option RunRecord)
      → Inv st
      → AllRuns S st
      → S.get_run st id ≡ stored
      → Keeps change
      → SteppedRun S E st (loaded_run S st id change stored)
  unfolding loaded_run
  loaded_run-SteppedRun st id change none i a g k = refl
  loaded_run-SteppedRun st id change (some r) i a g k =
      commit_run-SteppedRun st id r change (change r) i g (a id r g) refl k

  update_stored-SteppedRun :
      (st : St) (id : String) (change : RunRecord → Result Error RunRecord)
      → Inv st
      → AllRuns S st
      → Keeps change
      → SteppedRun S E st (update_stored S st id change)
  unfolding update_stored
  update_stored-SteppedRun st id change i a k =
      loaded_run-SteppedRun st id change (S.get_run st id) i a refl k

  pub perform_ledger-SteppedRun :
      (st : St) (H : Host) (call : LedgerCall)
      → Inv st
      → AllRuns S st
      → SteppedRun S E st (perform_ledger S E st H call)
  unfolding perform_ledger
  perform_ledger-SteppedRun st H (create_run business trigger id at ref digest metadata) i a =
      create_if_new-SteppedRun st _
        (λ r e. (new_run-IsRun E H business trigger id at ref digest metadata r e).0)
  perform_ledger-SteppedRun st H (update_run id u) i a =
      update_stored-SteppedRun st id _ i a (λ r r' v e. changed_run-Evolves E u r r' e)
  perform_ledger-SteppedRun st H (append_connector_outcome id o) i a =
      update_stored-SteppedRun st id _ i a (with_outcome-Evolves E o)
  perform_ledger-SteppedRun st H (append_artifact_ref id o) i a =
      update_stored-SteppedRun st id _ i a (with_artifact-Evolves E o)
  perform_ledger-SteppedRun st H (append_dispatch_outcome id o) i a =
      update_stored-SteppedRun st id _ i a (with_dispatch-Evolves E o)
