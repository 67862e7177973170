-- ===== src/External/Audit.antt =====
-- What the audit records of external actions leave in the run ledger.
use orvo_agent.Base.{
  guard-eq-ok, String, Option, none, some, [], ◌∷◌, ◌≡◌, ◌≢◌, refl, sym, ap, ◌∙◌, ok, raise, Result,
  >>=-eq-ok, ok-injective, ◌==◌, string_eq, if◌then◌else◌, ℕ, ◌++◌, arith, raise-ne-ok,
}
use orvo_agent.Model.{is_before, min_length, Error}
use orvo_agent.Redaction.Engine.{Engine}
use orvo_agent.Platform.{Platform}
use orvo_agent.Run.Record.{RunRecord, ConnectorRunOutcome, ConnectorStatus, validate_outcome}
use orvo_agent.Run.Ledger.{
  LedgerOps, IsLedger, update_stored, with_outcome, loaded_run, commit_run, ensure_open_for_append,
}
use orvo_agent.External.Request.{
  ledger_metadata, AuditFacts, ExternalActionRequest, ExternalActionProvider, Builtins,
}
use orvo_agent.External.Execute.{audit_outcome, append_audit, append_outcome}
use orvo_agent.Run.Metadata.{redact_metadata}

-- the run with the outcome at the end
abbrev pub extended : RunRecord → ConnectorRunOutcome → RunRecord
extended run o = record run { connector_outcomes = run.connector_outcomes ++ (o ∷ []) }

pub with_outcome-ok :
    (o : ConnectorRunOutcome) (run r : RunRecord) → with_outcome o run ≡ ok r → r ≡ extended run o
unfolding with_outcome
with_outcome-ok o run r h =
    let (x, k, q) = >>=-eq-ok (ensure_open_for_append run) _ h in sym (ok-injective q)

validate_outcome-status :
    (E : Engine) (o v : ConnectorRunOutcome) → validate_outcome E o ≡ ok v → v.status ≡ o.status
unfolding validate_outcome
validate_outcome-status E o v h =
    let (_, _, h1) = >>=-eq-ok (min_length "connector_id" o.connector_id) _ h in
    let (_, _, h2) = >>=-eq-ok (min_length "connector_type" o.connector_type) _ h1 in
    let (_, h3) = guard-eq-ok (is_before o.finished_at o.started_at) _ _ h2 in
    ap (λ (x : ConnectorRunOutcome). x.status) (sym (ok-injective h3))

pub validate_outcome-metadata :
    (E : Engine) (o v : ConnectorRunOutcome)
    → validate_outcome E o ≡ ok v
    → v.metadata ≡ redact_metadata E o.metadata
unfolding validate_outcome
validate_outcome-metadata E o v h =
    let (_, _, h1) = >>=-eq-ok (min_length "connector_id" o.connector_id) _ h in
    let (_, _, h2) = >>=-eq-ok (min_length "connector_type" o.connector_type) _ h1 in
    let (_, h3) = guard-eq-ok (is_before o.finished_at o.started_at) _ _ h2 in
    ap (λ (x : ConnectorRunOutcome). x.metadata) (sym (ok-injective h3))

module _ {St : Type 0} (S : LedgerOps St) {Inv : St → Type 0} (L : IsLedger S Inv) where
  -- An append that succeeds: the run was there, and now ends with the outcome.
  pub record Appended (st after : St) (id : String) (o : ConnectorRunOutcome) : Type 0 where
    pub run : RunRecord
    pub was : S.get_run st id ≡ some run
    pub now : S.get_run after id ≡ some (extended run o)
    pub inv : Inv after
    pub others : (j : String) → j ≢ id → S.get_run after j ≡ S.get_run st j

  committed-Appended :
      (st : St) (id : String) (o : ConnectorRunOutcome) (run r : RunRecord)
      (m : Result Error RunRecord)
      → Inv st
      → S.get_run st id ≡ some run
      → with_outcome o run ≡ m
      → (commit_run S st m).0 ≡ ok r
      → Appended st (commit_run S st m).1 id o
  unfolding commit_run
  committed-Appended st id o run r (raise e) i g k h = absurd (raise-ne-ok _ _ h)
  committed-Appended st id o run r (ok r') i g k h =
      let e = with_outcome-ok o run r' k in
      let at : r'.run_id ≡ id = ap (λ (x : RunRecord). x.run_id) e ∙ L.get_id st id run i g in
      record {
        run = run;
        was = g;
        now = L.get-persist st r' id ∙ stored_at e at;
        inv = L.persist-Inv st r' i;
        others = λ j n. L.get-persist st r' j ∙ untouched j at n;
      }
    where
      untouched :
          (j : String)
          → r'.run_id ≡ id
          → j ≢ id
          → (if r'.run_id == j then some r' else S.get_run st j) ≡ S.get_run st j
      untouched j at n = ground arith

      stored_at :
          r' ≡ extended run o
          → r'.run_id ≡ id
          → (if r'.run_id == id then some r' else S.get_run st id) ≡ some (extended run o)
      stored_at e at = ground arith

  loaded-Appended :
      (st : St) (id : String) (o : ConnectorRunOutcome) (r : RunRecord) (found : Option RunRecord)
      → Inv st
      → S.get_run st id ≡ found
      → (loaded_run S st id (with_outcome o) found).0 ≡ ok r
      → Appended st (loaded_run S st id (with_outcome o) found).1 id o
  unfolding loaded_run
  loaded-Appended st id o r none i g h = absurd (raise-ne-ok _ _ h)
  loaded-Appended st id o r (some run) i g h = committed-Appended st id o run r _ i g refl h

  module _ (E : Engine) (P : Platform) (B : Builtins) (p : ExternalActionProvider) where
    append_outcome-Appended :
        (st : St) (id : String) (r : RunRecord) (m : Result Error ConnectorRunOutcome)
        → Inv st
        → (append_outcome S st id m).0 ≡ ok r
        → (o : ConnectorRunOutcome) × (m ≡ ok o) × Appended st (append_outcome S st id m).1 id o
    unfolding append_outcome update_stored
    append_outcome-Appended st id r (raise e) i h = absurd (raise-ne-ok _ _ h)
    append_outcome-Appended st id r (ok o) i h = (o, refl, loaded-Appended st id o r _ i refl h)

    pub append_audit-Appended :
        (st : St) (q : ExternalActionRequest) (status : ConnectorStatus) (now : ℕ) (state : String)
        (facts : AuditFacts) (summary : Option String) (r : RunRecord)
        → Inv st
        → (append_audit S E P B p st q status now state facts summary).0 ≡ ok r
        → (o : ConnectorRunOutcome) × (validate_outcome E
              (audit_outcome p q status now (ledger_metadata E B p q state facts) summary)
            ≡ ok o)
          × (o.status ≡ status)
          × Appended st (append_audit S E P B p st q status now state facts summary).1 q.run_id o
    unfolding append_audit audit_outcome
    append_audit-Appended st q status now state facts summary r i h =
        let (o, v, a) = append_outcome-Appended st q.run_id r _ i h in
        (
          o,
          v,
          validate_outcome-status E
              (audit_outcome p q status now (ledger_metadata E B p q state facts) summary) o v,
          a,
        )
