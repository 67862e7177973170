-- ===== src/External/Guards.antt =====
-- A provider is called only for a request that passed every guard, and once for a key.
use orvo_agent.Base.{
  All, ◌>>=◌, String, Option, none, some, List, ◌∷◌, ◌≡◌, ◌≢◌, refl, sym, ap, ◌∙◌, ok, raise,
  Result, >>=-eq-ok, ◌==◌, string_eq, ℕ, true, false, arith, raise-ne-ok, ◌⊎◌, inl, inr, contains,
}
use orvo_agent.Value.{dict, Value}
use orvo_agent.Model.{is_set, Error, Datetime}
use orvo_agent.Redaction.Engine.{Engine}
use orvo_agent.Platform.{Platform}
use orvo_agent.Run.Record.{RunRecord, ConnectorRunOutcome, ConnectorStatus}
use orvo_agent.Run.Ledger.{LedgerOps, IsLedger}
use orvo_agent.External.Execute.{
  audit_outcome, planned_facts, ExternalActionClient, normalized_toolkit, Refusal, ClientAnswer,
  ExternalFailure, execute_external_action, act_in_run, act, call_client, conclude, after_audit,
  World, refusal_of, returned,
}
use orvo_agent.External.Request.{
  ledger_metadata, is_allowed, find_approved_workflow_action, reserved_core_toolkits,
  ExternalActionError, validate_request, has_executed_key, scoped_run, ExternalActionRequest,
  ExternalActionProvider, Builtins,
}
use orvo_agent.Workflow.Record.{WorkflowActionLedgerRecord}
use orvo_agent.External.Audit.{append_audit-Appended, extended}
use orvo_agent.Base.Membership.{In}
use orvo_agent.External.Cleared.{IsOther, contains-In, has_executed_key-IsOther}
use orvo_agent.External.Approval.{HasApproval, find_approved_workflow_action-HasApproval}
use orvo_agent.Run.Kept.{SameOutcome}
use orvo_agent.Run.Revalidated.{validate_outcome-SameOutcome}

-- What the four tests establish of a request that they let through.
pub record IsCleared (P : Platform) (B : Builtins) (p : ExternalActionProvider)
    (q : ExternalActionRequest) (run : RunRecord) (approved : Option WorkflowActionLedgerRecord)
    : Type 0 where
  pub fresh : has_executed_key run.connector_outcomes q.idempotency_key ≡ false
  pub not_reserved : contains reserved_core_toolkits (normalized_toolkit P B q) ≡ false
  pub allowed : is_allowed p q ≡ true
  pub approval :
      (q.operation_type == "write") ≡ true → (r : WorkflowActionLedgerRecord) × (approved ≡ some r)

is_set-some : {A : Type 0} (o : Option A) → is_set o ≡ true → (a : A) × (o ≡ some a)
unfolding is_set
is_set-some none h = absurd (cc)
is_set-some (some a) h = (a, refl)

refusal_of-none :
    (P : Platform) (B : Builtins) (p : ExternalActionProvider) (q : ExternalActionRequest)
    (run : RunRecord) (approved : Option WorkflowActionLedgerRecord)
    → refusal_of P B p q run approved ≡ none
    → IsCleared P B p q run approved
unfolding refusal_of
refusal_of-none P B p q run approved h = record {
  fresh = ground arith;
  not_reserved = ground arith;
  allowed = ground arith;
  approval = λ w. is_set-some approved (ground arith);
}

module _ {St : Type 0} (S : LedgerOps St) {Inv : St → Type 0} (L : IsLedger S Inv) (E : Engine)
    (P : Platform) (B : Builtins) (p : ExternalActionProvider) where
  -- A request that reached the client, with the ledger of that time.
  pub record IsPermitted (w : World St)
      (actions : Option (String → List WorkflowActionLedgerRecord)) (q : ExternalActionRequest)
      (at : St) : Type 0 where
    pub run : RunRecord
    pub valid : validate_request E P q ≡ ok tt
    pub stored : S.get_run w.runs q.run_id ≡ some run
    pub own : run.business_id ≡ q.business_id
    pub cleared : IsCleared P B p q run (find_approved_workflow_action actions p q)
    pub audit : ConnectorRunOutcome
    pub listed : In (q.toolkit, q.action_key) p.allowed_actions
    pub first_time : All (IsOther q.idempotency_key) run.connector_outcomes
    pub approved : (q.operation_type == "write") ≡ true → HasApproval actions p q
    pub state : String
    pub started : ℕ
    pub attempt :
        SameOutcome E
          (audit_outcome p q ConnectorStatus.skipped started
            (ledger_metadata E B p q state planned_facts)
            none)
          audit
    pub audited : S.get_run at q.run_id ≡ some (extended run audit)
    pub others : (id : String) → id ≢ q.run_id → S.get_run at id ≡ S.get_run w.runs id

  -- The requests that a call sends: none, or that one.
  abbrev pub Sends :
      World St
      → Option (String → List WorkflowActionLedgerRecord)
      → ExternalActionRequest
      → World St
      → Type 0
  Sends w actions q after =
      (after.requests ≡ w.requests)
      ⊎ ((at : St) × (after.requests ≡ (at, q) ∷ w.requests) × IsPermitted w actions q at)

  after_audit-requests :
      (requests : List (St × ExternalActionRequest)) (answer : Result ExternalFailure Value)
      (out : Result Error RunRecord × St)
      → (after_audit S E P B p requests answer out).1.requests ≡ requests
  unfolding after_audit
  after_audit-requests requests answer (raise e, st) = refl
  after_audit-requests requests answer (ok r, st) = refl

  conclude-requests :
      (w : World St) (q : ExternalActionRequest) (now : ℕ) (state : String) (answer : ClientAnswer)
      → (conclude S E P B p w q now state answer).1.requests ≡ w.requests
  unfolding conclude
  conclude-requests w q now state (returned (dict d)) = after_audit-requests w.requests _ _
  conclude-requests w q now state _ = after_audit-requests w.requests _ _

  call_client-Sends :
      (client : ExternalActionClient St) (w : World St)
      (actions : Option (String → List WorkflowActionLedgerRecord)) (q : ExternalActionRequest)
      (now : ℕ) (state : String) (out : Result Error RunRecord × St)
      → ((r : RunRecord) → out.0 ≡ ok r → IsPermitted w actions q out.1)
      → Sends w actions q (call_client S E P B p client w.requests q now state out).1
  unfolding call_client
  call_client-Sends client w actions q now state (raise e, st) f = inl refl
  call_client-Sends client w actions q now state (ok r, st) f =
      inr (st, conclude-requests _ q now state _, f r refl)

  act-Sends :
      (client : ExternalActionClient St) (w : World St)
      (actions : Option (String → List WorkflowActionLedgerRecord)) (q : ExternalActionRequest)
      (now : ℕ) (state : String) (refusal : Option Refusal) (run : RunRecord)
      → Inv w.runs
      → validate_request E P q ≡ ok tt
      → S.get_run w.runs q.run_id ≡ some run
      → run.business_id ≡ q.business_id
      → refusal_of P B p q run (find_approved_workflow_action actions p q) ≡ refusal
      → Sends w actions q (act S E P B p client w q now state refusal).1
  unfolding act
  act-Sends client w actions q now state (some refusal) run i v g b h =
      inl (after_audit-requests w.requests _ _)
  act-Sends client w actions q now state none run i v g b h =
      call_client-Sends client w actions q now state _ (λ r k.
        let (o, x, s, a) =
          append_audit-Appended S L E P B p w.runs q ConnectorStatus.skipped now state planned_facts
            none r i k in
        let both = sym a.was ∙ g in
        let same : a.run ≡ run = cc in
        let cleared = refusal_of-none P B p q run (find_approved_workflow_action actions p q) h in
        record {
          run = run;
          valid = v;
          stored = g;
          own = b;
          cleared = cleared;
          listed =
              unfold is_allowed in
              contains-In p.allowed_actions (q.toolkit, q.action_key) cleared.allowed;
          first_time =
              has_executed_key-IsOther run.connector_outcomes q.idempotency_key cleared.fresh;
          approved = λ write.
              let (record_found, e) = cleared.approval write in
              find_approved_workflow_action-HasApproval actions p q record_found e;
          audit = o;
          state = state;
          started = now;
          attempt = validate_outcome-SameOutcome E _ o x;
          others = a.others;
          audited = a.now ∙ ap (λ x. some (extended x o)) same;
        })

  scoped_run-ok :
      (q : ExternalActionRequest) (o : Option RunRecord) (run : RunRecord)
      → scoped_run E q o ≡ ok run
      → (o ≡ some run) × (run.business_id ≡ q.business_id)
  unfolding scoped_run
  scoped_run-ok q none run h = absurd (raise-ne-ok _ _ h)
  scoped_run-ok q (some r) run h = ground arith

  act_in_run-Sends :
      (client : ExternalActionClient St)
      (actions : Option (String → List WorkflowActionLedgerRecord)) (w : World St)
      (q : ExternalActionRequest) (now : ℕ) (m : Result ExternalActionError RunRecord)
      → Inv w.runs
      → (validate_request E P q >>= λ checked. scoped_run E q (S.get_run w.runs q.run_id)) ≡ m
      → Sends w actions q (act_in_run S E P B p client actions w q now m).1
  unfolding act_in_run
  act_in_run-Sends client actions w q now (raise e) i h = inl refl
  act_in_run-Sends client actions w q now (ok run) i h =
      let (_, v, k) = >>=-eq-ok (validate_request E P q) _ h in
      let (g, b) = scoped_run-ok q _ run k in act-Sends client w actions q now _ _ run i v g b refl

  -- A call sends at most one request to the client, its own, and only if the request is well formed,
  -- its run is stored for the business, no execution of its key is recorded there, its toolkit is not
  -- reserved, the provider allows the action, and for a write the action ledger lists for the business
  -- the record that the request names, approved, waiting for execution, and for this key, provider,
  -- toolkit and action. In the run ledger that the client is called with, the run ends with one more
  -- record, the redacted record of a skipped attempt, and every other run is as before.
  pub execute_external_action-Sends :
      (client : ExternalActionClient St)
      (actions : Option (String → List WorkflowActionLedgerRecord)) (w : World St)
      (q : ExternalActionRequest) (now : Option Datetime)
      → Inv w.runs
      → Sends w actions q (execute_external_action S E P B p client actions w q now).1
  unfolding execute_external_action
  execute_external_action-Sends client actions w q now i =
      act_in_run-Sends client actions w q _ _ i refl
