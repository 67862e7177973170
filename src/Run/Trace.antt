-- ===== src/Run/Trace.antt =====
-- What holds along every sequence of calls of the ledger.
use orvo_agent.Base.{
  string_eq, ap, ◌∙◌, arith, sym, ◌==◌, subst, Bool-cases, List, ◌⊎◌, Option, ◌≡◌, String, refl, [],
  ◌∷◌, none, some, ok, raise, inl, inr,
}
use orvo_agent.Run.Ledger.{perform_ledger, LedgerCall, run_ledger, RunOutcome, IsLedger, LedgerOps}
use orvo_agent.Redaction.Engine.{Engine}
use orvo_agent.Run.Record.{RunRecord}
use orvo_agent.Run.History.{perform_ledger-SteppedRun, some-eq, SteppedRun, AllRuns}
use orvo_agent.Run.Evolution.{Evolves-trans, Evolves-refl, IsRun, Evolves}
use orvo_agent.Cases.Detection.{Host}

-- The stored run `r` is still there, as it evolved.
abbrev pub Survives : {St : Type 0} → LedgerOps St → Engine → St → String → RunRecord → Type 0
Survives S E st id r = (r' : RunRecord) × (S.get_run st id ≡ some r') × Evolves E r r'

module _ {St : Type 0} (S : LedgerOps St) (E : Engine) {Inv : St → Type 0}
    (L : IsLedger S Inv) where
  get-persist_runs :
      (st : St) (r : RunRecord) (id : String)
      → ((r.run_id ≡ id) × (S.get_run (S.persist_run st r) id ≡ some r))
        ⊎ (S.get_run (S.persist_run st r) id ≡ S.get_run st id)
  get-persist_runs st r id = elim (Bool-cases (r.run_id == id)) [
    | inl y ↦ inl (ground arith, ground (arith, L.get-persist st r id))
    | inr n ↦ inr (ground (arith, L.get-persist st r id))
  ]

  -- The saved run is valid, whether it is new or not.
  IsRun-of_saved :
      (st : St) (r' : RunRecord) (stored : Option RunRecord)
      → AllRuns S st
      → S.get_run st r'.run_id ≡ stored
      → ((r : RunRecord) → S.get_run st r'.run_id ≡ some r → IsRun r → IsRun r' × Evolves E r r')
      → (S.get_run st r'.run_id ≡ none → IsRun r')
      → IsRun r'
  IsRun-of_saved st r' none a g f n = n g
  IsRun-of_saved st r' (some r) a g f n = (f r g (a r'.run_id r g)).0

  AllRuns-persist :
      (st : St) (r' : RunRecord) → AllRuns S st → IsRun r' → AllRuns S (S.persist_run st r')
  AllRuns-persist st r' a v id r h = elim (get-persist_runs st r' id) [
    | inl p ↦ subst IsRun (some-eq r' r (sym p.1 ∙ h)) v
    | inr e ↦ a id r (sym e ∙ h)
  ]

  Sound-of_SteppedRun :
      (st : St) (out : RunOutcome St)
      → Inv st
      → AllRuns S st
      → SteppedRun S E st out
      → Inv out.1 × AllRuns S out.1
  Sound-of_SteppedRun st (raise e, st') i a s = (subst Inv (sym s) i, subst (AllRuns S) (sym s) a)
  Sound-of_SteppedRun st (ok r', st') i a s =
      let v = IsRun-of_saved st r' (S.get_run st r'.run_id) a refl s.1.0 s.1.1 in
      (
        subst Inv (sym s.0) (L.persist-Inv st r' i),
        subst (AllRuns S) (sym s.0) (AllRuns-persist st r' a v),
      )

  Survives-of_SteppedRun :
      (st : St) (out : RunOutcome St) (id : String) (r : RunRecord)
      → AllRuns S st
      → S.get_run st id ≡ some r
      → SteppedRun S E st out
      → Survives S E out.1 id r
  Survives-of_SteppedRun st (raise e, st') id r a g s =
      (r, subst (λ x. S.get_run x id ≡ some r) (sym s) g, Evolves-refl E r)
  Survives-of_SteppedRun st (ok r', st') id r a g s =
      subst (λ x. Survives S E x id r) (sym s.0)
        (elim (get-persist_runs st r' id) [
          | inr e ↦ (r, e ∙ g, Evolves-refl E r)
          | inl p ↦
              let at : S.get_run st r'.run_id ≡ some r = ap (S.get_run st) p.0 ∙ g in
              (r', p.1, (s.1.0 r at (a id r g)).1)
        ])

  -- Over any lawful ledger of valid runs: every sequence of calls leaves valid runs, and a stored run
  -- is still there with its identity; its records stay in place, unchanged but for redactions, and
  -- others may follow; and of a run that is over nothing changes but for redactions.
  pub run_ledger-Survives :
      (st : St) (calls : List (Host × LedgerCall)) (id : String) (r : RunRecord)
      → Inv st
      → AllRuns S st
      → S.get_run st id ≡ some r
      → AllRuns S (run_ledger S E st calls) × Survives S E (run_ledger S E st calls) id r
  unfolding run_ledger
  run_ledger-Survives st [] id r i a g = (a, (r, g, Evolves-refl E r))
  run_ledger-Survives st ((H, call) ∷ calls) id r i a g =
      let s = perform_ledger-SteppedRun S E L st H call i a in
      let (i', a') = Sound-of_SteppedRun st (perform_ledger S E st H call) i a s in
      let (r', g', e) = Survives-of_SteppedRun st (perform_ledger S E st H call) id r a g s in
      let (a'', (r'', g'', e')) =
        run_ledger-Survives (perform_ledger S E st H call).1 calls id r' i' a' g' in
      (a'', (r'', g'', Evolves-trans E r r' r'' e e'))
