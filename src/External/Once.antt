-- ===== src/External/Once.antt =====
-- An external action that succeeded is not sent again under its idempotency key.
use orvo_agent.Base.{
  true-ne-false, All-append, append_assoc, String, Option, none, some, List, [], ◌∷◌, ◌≡◌, refl,
  sym, ap, ◌∙◌, ok, raise, Result, string_eq, ℕ, ◌++◌, true, subst, raise-ne-ok, inl, inr, All,
}
use orvo_agent.Value.{get_field, Value, dict}
use orvo_agent.Model.{Error, Datetime}
use orvo_agent.Redaction.Engine.{Engine}
use orvo_agent.Platform.{Platform}
use orvo_agent.Run.Record.{validate_outcome, RunRecord, ConnectorRunOutcome, ConnectorStatus}
use orvo_agent.Run.Ledger.{LedgerOps, IsLedger}
use orvo_agent.External.Execute.{
  planned_facts, append_audit, executed_facts, audit_outcome, Refusal, ClientAnswer,
  ExternalFailure, World, act_in_run, act, call_client, conclude, after_audit,
  execute_external_action, ExternalActionClient, returned,
}
use orvo_agent.External.Request.{
  has_executed_key, plain_facts, holds_text, provider_response_ref, ledger_metadata,
  ExternalActionError, AuditFacts, ExternalActionRequest, ExternalActionProvider, Builtins,
}
use orvo_agent.Workflow.Record.{WorkflowActionLedgerRecord}
use orvo_agent.External.Marks.{has_executed_key-last, execute_external_action-Marked, Marked}
use orvo_agent.External.Guards.{execute_external_action-Sends, IsPermitted}
use orvo_agent.External.Audit.{extended, Appended, append_audit-Appended}

-- Redaction and the validators leave the idempotency key in the audit records of the request.
abbrev pub KeepsKey : Engine → Builtins → ExternalActionProvider → ExternalActionRequest → Type 0
KeepsKey E B p q =
    (now : ℕ) (state : String) (facts : AuditFacts) (o : ConnectorRunOutcome)
    → validate_outcome E
        (audit_outcome p q ConnectorStatus.succeeded now (ledger_metadata E B p q state facts) none)
      ≡ ok o
    → holds_text (get_field o.metadata "idempotency_key") q.idempotency_key ≡ true

-- A call with its provider, its client, and the records that it may look up.
abbrev pub ExternalCall : Type 0 → Type 0
ExternalCall St =
    ExternalActionProvider
    × ExternalActionClient St
    × Option (String → List WorkflowActionLedgerRecord)
    × ExternalActionRequest
    × Option Datetime

-- The request is for that run and that key.
abbrev pub IsFor : {St : Type 0} → String → String → St × ExternalActionRequest → Type 0
IsFor id key sent = (sent.1.run_id ≡ id) × (sent.1.idempotency_key ≡ key)

module _ {St : Type 0} (S : LedgerOps St) (E : Engine) (P : Platform) (B : Builtins) where
  -- the world after the calls, refused and failed ones included
  unfoldable pub run_external : World St → List (ExternalCall St) → World St
  unfolding execute_external_action
  run_external w [] = w
  run_external w ((p, client, actions, q, now) ∷ calls) =
      run_external (execute_external_action S E P B p client actions w q now).1 calls

module _ {St : Type 0} (S : LedgerOps St) {Inv : St → Type 0} (L : IsLedger S Inv) (E : Engine)
    (P : Platform) (B : Builtins) where
  module _ (p : ExternalActionProvider) (q : ExternalActionRequest) (kept : KeepsKey E B p q) where
    Marked-of_Appended :
        (st after : St) (now : ℕ) (state : String) (facts : AuditFacts)
        → (o : ConnectorRunOutcome) × (validate_outcome E (
              audit_outcome p q ConnectorStatus.succeeded now
                (ledger_metadata E B p q state facts)
                none)
            ≡ ok o)
          × (o.status ≡ ConnectorStatus.succeeded)
          × Appended S L st after q.run_id o
        → Marked S L q.run_id q.idempotency_key after
    Marked-of_Appended st after now state facts (o, v, s, a) = record {
      inv = a.inv;
      run = extended a.run o;
      stored = a.now;
      executed =
          has_executed_key-last a.run.connector_outcomes o q.idempotency_key s
            (kept now state facts o v);
    }

    after_audit-ok :
        (requests : List (St × ExternalActionRequest)) (answer : Result ExternalFailure Value)
        (out : Result Error RunRecord × St) (v : Value)
        → (after_audit S E P B p requests answer out).0 ≡ ok v
        → (r : RunRecord) × (out.0 ≡ ok r)
          × (answer ≡ ok v)
          × ((after_audit S E P B p requests answer out).1.runs ≡ out.1)
    unfolding after_audit
    after_audit-ok requests answer (raise e, st) v h = absurd (raise-ne-ok _ _ h)
    after_audit-ok requests answer (ok r, st) v h = (r, refl, h, refl)

    conclude-executed :
        (w : World St) (now : ℕ) (state : String) (answer : ClientAnswer) (v : Value)
        → Inv w.runs
        → (conclude S E P B p w q now state answer).0 ≡ ok v
        → Marked S L q.run_id q.idempotency_key (conclude S E P B p w q now state answer).1.runs
    unfolding conclude
    conclude-executed w now state (returned (dict d)) v i h =
        let facts = executed_facts d (provider_response_ref B p q d) in
        let (r, k, _, e) =
          after_audit-ok w.requests _
            (append_audit S E P B p w.runs q ConnectorStatus.succeeded now state facts none) v h in
        subst (Marked S L q.run_id q.idempotency_key) (sym e) (
          Marked-of_Appended w.runs _ now state facts (
            append_audit-Appended S L E P B p w.runs q ConnectorStatus.succeeded now state facts
              none r i k))
    conclude-executed w now state _ v i h =
        let (_, _, e, _) =
          after_audit-ok w.requests _
            (append_audit S E P B p w.runs q ConnectorStatus.failed now state plain_facts
              (some "external provider failed"))
            v h in
        absurd (raise-ne-ok _ _ e)

    call_client-executed :
        (client : ExternalActionClient St) (requests : List (St × ExternalActionRequest)) (now : ℕ)
        (state : String) (out : Result Error RunRecord × St) (v : Value)
        → ((r : RunRecord) → out.0 ≡ ok r → Inv out.1)
        → (call_client S E P B p client requests q now state out).0 ≡ ok v
        → Marked S L q.run_id q.idempotency_key
            (call_client S E P B p client requests q now state out).1.runs
    unfolding call_client
    call_client-executed client requests now state (raise e, st) v i h = absurd (raise-ne-ok _ _ h)
    call_client-executed client requests now state (ok r, st) v i h =
        conclude-executed _ now state _ v (i r refl) h

    act-executed :
        (client : ExternalActionClient St) (w : World St) (now : ℕ) (state : String)
        (refusal : Option Refusal) (v : Value)
        → Inv w.runs
        → (act S E P B p client w q now state refusal).0 ≡ ok v
        → Marked S L q.run_id q.idempotency_key (act S E P B p client w q now state refusal).1.runs
    unfolding act
    act-executed client w now state (some refusal) v i h =
        let (_, _, e, _) =
          after_audit-ok w.requests _
            (append_audit S E P B p w.runs q ConnectorStatus.skipped now state refusal.facts
              (some refusal.summary))
            v h in
        absurd (raise-ne-ok _ _ e)
    act-executed client w now state none v i h =
        call_client-executed client w.requests now state _ v
          (λ r k.
            (append_audit-Appended S L E P B p w.runs q ConnectorStatus.skipped now state
              planned_facts none r i k).3.inv)
          h

    act_in_run-executed :
        (client : ExternalActionClient St)
        (actions : Option (String → List WorkflowActionLedgerRecord)) (w : World St) (now : ℕ)
        (m : Result ExternalActionError RunRecord) (v : Value)
        → Inv w.runs
        → (act_in_run S E P B p client actions w q now m).0 ≡ ok v
        → Marked S L q.run_id q.idempotency_key
            (act_in_run S E P B p client actions w q now m).1.runs
    unfolding act_in_run
    act_in_run-executed client actions w now (raise e) v i h = absurd (raise-ne-ok _ _ h)
    act_in_run-executed client actions w now (ok run) v i h = act-executed client w now _ _ v i h

    execute_external_action-executed :
        (client : ExternalActionClient St)
        (actions : Option (String → List WorkflowActionLedgerRecord)) (w : World St)
        (now : Option Datetime) (v : Value)
        → Inv w.runs
        → (execute_external_action S E P B p client actions w q now).0 ≡ ok v
        → Marked S L q.run_id q.idempotency_key
            (execute_external_action S E P B p client actions w q now).1.runs
    unfolding execute_external_action
    execute_external_action-executed client actions w now v i h =
        act_in_run-executed client actions w _ _ v i h

  -- The requests that the calls sent, none of them for the run and the key.
  abbrev pub SendsOthers : String → String → World St → World St → Type 0
  SendsOthers id key before after =
      (sent : List (St × ExternalActionRequest)) × (after.requests ≡ sent ++ before.requests)
      × All (λ r. ¬ IsFor id key r) sent

  permitted-differs :
      (id key : String) (p : ExternalActionProvider) (w : World St)
      (actions : Option (String → List WorkflowActionLedgerRecord)) (q : ExternalActionRequest)
      (at : St)
      → Marked S L id key w.runs
      → IsPermitted S L E P B p w actions q at
      → ¬ IsFor id key (at, q)
  permitted-differs id key p w actions q at k a f =
      let both = sym k.stored ∙ ap (S.get_run w.runs) (sym f.0) ∙ a.stored in
      let same : k.run ≡ a.run = cc in
      true-ne-false (
        sym k.executed
        ∙ ap (λ (x : RunRecord). has_executed_key x.connector_outcomes key) same
        ∙ ap (has_executed_key a.run.connector_outcomes) (sym f.1)
        ∙ a.cleared.fresh)

  SendsOthers-cons :
      (id key : String) (before middle after : World St)
      → SendsOthers id key before middle
      → SendsOthers id key middle after
      → SendsOthers id key before after
  SendsOthers-cons id key before middle after (xs, e, f) (ys, g, h) = (
    ys ++ xs,
    g ∙ ap (◌++◌ ys) e ∙ sym (append_assoc ys xs before.requests),
    All-append (λ r. ¬ IsFor id key r) ys xs h f,
  )

  execute-SendsOthers :
      (id key : String) (p : ExternalActionProvider) (client : ExternalActionClient St)
      (actions : Option (String → List WorkflowActionLedgerRecord)) (w : World St)
      (q : ExternalActionRequest) (now : Option Datetime)
      → Marked S L id key w.runs
      → SendsOthers id key w (execute_external_action S E P B p client actions w q now).1
  execute-SendsOthers id key p client actions w q now k =
      elim (execute_external_action-Sends S L E P B p client actions w q now k.inv) [
        | inl e ↦ ([], e, tt)
        | inr s ↦ ((s.0, q) ∷ [], s.1, (permitted-differs id key p w actions q s.0 k s.2, tt))
      ]

  run_external-SendsOthers :
      (id key : String) (w : World St) (calls : List (ExternalCall St))
      → Marked S L id key w.runs
      → SendsOthers id key w (run_external S E P B w calls)
  unfolding run_external
  run_external-SendsOthers id key w [] k = ([], refl, tt)
  run_external-SendsOthers id key w ((p, client, actions, q, now) ∷ calls) k =
      let next = (execute_external_action S E P B p client actions w q now).1 in
      SendsOthers-cons id key w next (run_external S E P B next calls)
        (execute-SendsOthers id key p client actions w q now k)
        (run_external-SendsOthers id key next calls
          (execute_external_action-Marked S L id key E P B p client actions w q now k))

  -- Over a lawful ledger: if a request succeeds, and redaction leaves its idempotency key as it is,
  -- then whatever calls follow, by whichever providers, no request for the same run with that key
  -- reaches a client again.
  pub run_external-once :
      (p : ExternalActionProvider) (client : ExternalActionClient St)
      (actions : Option (String → List WorkflowActionLedgerRecord)) (w : World St)
      (q : ExternalActionRequest) (now : Option Datetime) (v : Value)
      (calls : List (ExternalCall St))
      → KeepsKey E B p q
      → Inv w.runs
      → (execute_external_action S E P B p client actions w q now).0 ≡ ok v
      → SendsOthers q.run_id q.idempotency_key
          (execute_external_action S E P B p client actions w q now).1
          (run_external S E P B (execute_external_action S E P B p client actions w q now).1 calls)
  run_external-once p client actions w q now v calls kept i h =
      run_external-SendsOthers q.run_id q.idempotency_key _ calls
        (execute_external_action-executed p q kept client actions w now v i h)
