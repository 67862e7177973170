-- ===== src/External/Marks.antt =====
-- A key that is recorded as executed stays recorded, whatever external actions follow.
use orvo_agent.Base.{
  String, Option, none, some, List, [], ◌∷◌, ◌≡◌, refl, sym, ap, ◌∙◌, ok, raise, Result, string_eq,
  ℕ, ◌++◌, true, arith,
}
use orvo_agent.Value.{get_field, Value, dict}
use orvo_agent.Model.{Error, Datetime}
use orvo_agent.Redaction.Engine.{Engine}
use orvo_agent.Platform.{Platform}
use orvo_agent.Run.Record.{RunRecord, ConnectorRunOutcome, ConnectorStatus}
use orvo_agent.Run.Ledger.{update_stored, with_outcome, loaded_run, commit_run, LedgerOps, IsLedger}
use orvo_agent.External.Execute.{
  planned_facts, executed_facts, Refusal, ClientAnswer, ExternalFailure, ExternalActionClient,
  World, execute_external_action, act_in_run, act, call_client, conclude, after_audit, append_audit,
  append_outcome, returned,
}
use orvo_agent.External.Request.{
  plain_facts, provider_response_ref, ExternalActionError, AuditFacts, ExternalActionRequest,
  ExternalActionProvider, holds_text, Builtins, has_executed_key,
}
use orvo_agent.External.Audit.{with_outcome-ok}
use orvo_agent.Workflow.Record.{WorkflowActionLedgerRecord}

has_executed_key-append :
    (xs ys : List ConnectorRunOutcome) (key : String)
    → has_executed_key xs key ≡ true
    → has_executed_key (xs ++ ys) key ≡ true
unfolding has_executed_key
has_executed_key-append [] ys key h = absurd (cc)
has_executed_key-append (o ∷ xs) ys key h = ground (arith, has_executed_key-append xs ys key)

pub has_executed_key-last :
    (xs : List ConnectorRunOutcome) (o : ConnectorRunOutcome) (key : String)
    → o.status ≡ ConnectorStatus.succeeded
    → holds_text (get_field o.metadata "idempotency_key") key ≡ true
    → has_executed_key (xs ++ (o ∷ [])) key ≡ true
unfolding has_executed_key
has_executed_key-last [] o key s h = rw h (rw s refl)
has_executed_key-last (x ∷ xs) o key s h = ground (arith, has_executed_key-last xs o key s h)

module _ {St : Type 0} (S : LedgerOps St) {Inv : St → Type 0} (L : IsLedger S Inv)
    (id key : String) where
  -- The run with the id records an execution of the key.
  pub record Marked (st : St) : Type 0 where
    pub inv : Inv st
    pub run : RunRecord
    pub stored : S.get_run st id ≡ some run
    pub executed : has_executed_key run.connector_outcomes key ≡ true

  committed-Marked :
      (st : St) (j : String) (o : ConnectorRunOutcome) (run : RunRecord)
      (m : Result Error RunRecord)
      → S.get_run st j ≡ some run
      → with_outcome o run ≡ m
      → Marked st
      → Marked (commit_run S st m).1
  unfolding commit_run
  committed-Marked st j o run (raise e) g h k = k
  committed-Marked st j o run (ok r) g h k =
      let e = with_outcome-ok o run r h in
      let at : r.run_id ≡ j = ap (λ (x : RunRecord). x.run_id) e ∙ L.get_id st j run k.inv g in
      elim (string_eq.dec r.run_id id) [
        | yes same ↦
            let both = sym k.stored ∙ ap (S.get_run st) (sym same ∙ at) ∙ g in
            let alike : k.run ≡ run = cc in
            record {
              inv = L.persist-Inv st r k.inv;
              run = r;
              stored = L.get-persist st r id ∙ ground arith;
              executed =
                  ap (λ (x : RunRecord). has_executed_key x.connector_outcomes key) e
                  ∙ has_executed_key-append run.connector_outcomes (o ∷ []) key (
                      ap (λ (x : RunRecord). has_executed_key x.connector_outcomes key) (sym alike)
                      ∙ k.executed);
            }
        | no other ↦ record {
          inv = L.persist-Inv st r k.inv;
          run = k.run;
          stored = L.get-persist st r id ∙ (let g' = k.stored in ground arith);
          executed = k.executed;
        }
      ]

  loaded-Marked :
      (st : St) (j : String) (o : ConnectorRunOutcome) (found : Option RunRecord)
      → S.get_run st j ≡ found
      → Marked st
      → Marked (loaded_run S st j (with_outcome o) found).1
  unfolding loaded_run
  loaded-Marked st j o none g k = k
  loaded-Marked st j o (some run) g k = committed-Marked st j o run _ g refl k

  append_outcome-Marked :
      (st : St) (j : String) (m : Result Error ConnectorRunOutcome)
      → Marked st
      → Marked (append_outcome S st j m).1
  unfolding append_outcome update_stored
  append_outcome-Marked st j (raise e) k = k
  append_outcome-Marked st j (ok o) k = loaded-Marked st j o _ refl k

  module _ (E : Engine) (P : Platform) (B : Builtins) (p : ExternalActionProvider) where
    append_audit-Marked :
        (st : St) (q : ExternalActionRequest) (status : ConnectorStatus) (now : ℕ) (state : String)
        (facts : AuditFacts) (summary : Option String)
        → Marked st
        → Marked (append_audit S E P B p st q status now state facts summary).1
    unfolding append_audit
    append_audit-Marked st q status now state facts summary k =
        append_outcome-Marked st q.run_id _ k

    after_audit-Marked :
        (requests : List (St × ExternalActionRequest)) (answer : Result ExternalFailure Value)
        (out : Result Error RunRecord × St)
        → Marked out.1
        → Marked (after_audit S E P B p requests answer out).1.runs
    unfolding after_audit
    after_audit-Marked requests answer (raise e, st) k = k
    after_audit-Marked requests answer (ok r, st) k = k

    conclude-Marked :
        (w : World St) (q : ExternalActionRequest) (now : ℕ) (state : String)
        (answer : ClientAnswer)
        → Marked w.runs
        → Marked (conclude S E P B p w q now state answer).1.runs
    unfolding conclude
    conclude-Marked w q now state (returned (dict d)) k = after_audit-Marked w.requests _ _ (
        append_audit-Marked w.runs q ConnectorStatus.succeeded now state
          (executed_facts d (provider_response_ref B p q d)) none k)
    conclude-Marked w q now state _ k = after_audit-Marked w.requests _ _ (
        append_audit-Marked w.runs q ConnectorStatus.failed now state plain_facts
          (some "external provider failed") k)

    call_client-Marked :
        (client : ExternalActionClient St) (requests : List (St × ExternalActionRequest))
        (q : ExternalActionRequest) (now : ℕ) (state : String) (out : Result Error RunRecord × St)
        → Marked out.1
        → Marked (call_client S E P B p client requests q now state out).1.runs
    unfolding call_client
    call_client-Marked client requests q now state (raise e, st) k = k
    call_client-Marked client requests q now state (ok r, st) k = conclude-Marked _ q now state _ k

    act-Marked :
        (client : ExternalActionClient St) (w : World St) (q : ExternalActionRequest) (now : ℕ)
        (state : String) (refusal : Option Refusal)
        → Marked w.runs
        → Marked (act S E P B p client w q now state refusal).1.runs
    unfolding act
    act-Marked client w q now state (some refusal) k = after_audit-Marked w.requests _ _ (
        append_audit-Marked w.runs q ConnectorStatus.skipped now state refusal.facts
          (some refusal.summary) k)
    act-Marked client w q now state none k =
        call_client-Marked client w.requests q now state _
          (append_audit-Marked w.runs q ConnectorStatus.skipped now state planned_facts none k)

    act_in_run-Marked :
        (client : ExternalActionClient St)
        (actions : Option (String → List WorkflowActionLedgerRecord)) (w : World St)
        (q : ExternalActionRequest) (now : ℕ) (m : Result ExternalActionError RunRecord)
        → Marked w.runs
        → Marked (act_in_run S E P B p client actions w q now m).1.runs
    unfolding act_in_run
    act_in_run-Marked client actions w q now (raise e) k = k
    act_in_run-Marked client actions w q now (ok run) k = act-Marked client w q now _ _ k

    pub execute_external_action-Marked :
        (client : ExternalActionClient St)
        (actions : Option (String → List WorkflowActionLedgerRecord)) (w : World St)
        (q : ExternalActionRequest) (now : Option Datetime)
        → Marked w.runs
        → Marked (execute_external_action S E P B p client actions w q now).1.runs
    unfolding execute_external_action
    execute_external_action-Marked client actions w q now k =
        act_in_run-Marked client actions w q _ _ k
