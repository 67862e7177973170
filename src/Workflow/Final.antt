-- ===== src/Workflow/Final.antt =====
-- What was decided stays decided.
use orvo_agent.Base.{
  [], ◌∷◌, string_eq, pair_eq, none, some, Option, String, refl, ◌≡◌, sym, ap, ◌∙◌, ◌≢◌, List, ℕ,
  some-ne-none,
}
use orvo_agent.Base.Dict
use orvo_agent.Base.Dict.{get-put_other}
use orvo_agent.Redaction.Redactor.{Redactor}
use orvo_agent.Platform.{Platform}
use orvo_agent.Workflow.Record.{
  WorkflowActionLedgerRecord, WorkflowApprovalRequest, ApprovalRequestStatus,
}
use orvo_agent.Workflow.Ledger.{
  record_planned_action, record_new, planned_request_id, PlannedAction, record_or_reuse,
  ApprovalChoice, ActionStore,
}
use orvo_agent.Workflow.Calls.{
  perform_action-Consistent, AllUse, CallUses, ActionCall, run_actions, perform_action, plan,
  decide,
}
use orvo_agent.Workflow.Outcome.{
  decide_approval_request-DecisionOutcome, DecisionOutcome, Decision, taken, invalid_decision,
  not_found, already_decided,
}
use orvo_agent.Workflow.Consistent.{Consistent, DistinctIds}
use orvo_agent.Workflow.Keeps.{planned_request_id-some}

pending_of_same :
    (c : ApprovalChoice) (id : String) (p q : WorkflowApprovalRequest) (st : ActionStore)
    → Dict.get st.approvals c.approval_request_id ≡ some p
    → p.status ≡ ApprovalRequestStatus.pending
    → c.approval_request_id ≡ id
    → Dict.get st.approvals id ≡ some q
    → q.status ≡ ApprovalRequestStatus.pending
pending_of_same c id p q st g b e f =
    let h = sym g ∙ ap (Dict.get st.approvals) e ∙ f in
    let same : p ≡ q = cc in sym (ap (λ (x : WorkflowApprovalRequest). x.status) same) ∙ b

module _ (id : String) (q : WorkflowApprovalRequest)
    (over : q.status ≢ ApprovalRequestStatus.pending) where
  DecisionOutcome-keeps :
      (st : ActionStore) (c : ApprovalChoice) (out : Decision)
      → DecisionOutcome st c out
      → Dict.get st.approvals id ≡ some q
      → Dict.get out.1.approvals id ≡ some q
  DecisionOutcome-keeps st c _ (taken d p w after h g own b s) f =
      s.other_requests id (λ e. over (pending_of_same c id p q st g b e f)) ∙ f
  DecisionOutcome-keeps st c _ (invalid_decision e h n) f = f
  DecisionOutcome-keeps st c _ (not_found e h n) f = f
  DecisionOutcome-keeps st c _ (already_decided e p h g own n) f = f

  module _ (P : Platform) (R : Redactor) (Used : String → String → Type 0) where
    record_new-keeps :
        (st : ActionStore) (a : PlannedAction) (o : Option String)
        → planned_request_id P R a ≡ o
        → Dict.get st.actions (a.business_id, a.idempotency_key) ≡ none
        → DistinctIds P.sha256 Used
        → Used a.business_id a.idempotency_key
        → Consistent P.sha256 Used st
        → Dict.get st.approvals id ≡ some q
        → Dict.get (record_new P R st a o).1.approvals id ≡ some q
    unfolding record_new
    record_new-keeps st a none h n u k i f = f
    record_new-keeps st a (some new) h n u k i f =
        let e = i.entries id q f in
        let there = i.filed q.business_id e.key e.entry e.found in
        let other : ¬ (new ≡ id) = λ same.
          let (b, j) =
            u "workflow-approval" a.business_id q.business_id a.idempotency_key e.key k there.used
              (sym (planned_request_id-some P R Used a new h).0 ∙ same ∙ e.id_eq) in
          some-ne-none _ (sym e.found ∙ ap (Dict.get st.actions) (λ t. (sym b t, sym j t)) ∙ n) in
        get-put_other st.approvals new id _ other ∙ f

    record_or_reuse-keeps :
        (st : ActionStore) (a : PlannedAction) (o : Option WorkflowActionLedgerRecord)
        → Dict.get st.actions (a.business_id, a.idempotency_key) ≡ o
        → DistinctIds P.sha256 Used
        → Used a.business_id a.idempotency_key
        → Consistent P.sha256 Used st
        → Dict.get st.approvals id ≡ some q
        → Dict.get (record_or_reuse P R st a o).1.approvals id ≡ some q
    unfolding record_or_reuse
    record_or_reuse-keeps st a (some r) n u k i f = f
    record_or_reuse-keeps st a none n u k i f = record_new-keeps st a _ refl n u k i f

    record_planned_action-keeps :
        (st : ActionStore) (a : PlannedAction)
        → DistinctIds P.sha256 Used
        → Used a.business_id a.idempotency_key
        → Consistent P.sha256 Used st
        → Dict.get st.approvals id ≡ some q
        → Dict.get (record_planned_action P R st a).1.approvals id ≡ some q
    unfolding record_planned_action
    record_planned_action-keeps st a u k i f = record_or_reuse-keeps st a _ refl u k i f

  module _ (P : Platform) (R : Redactor) (Used : String → String → Type 0) where
    perform_action-keeps :
        (st : ActionStore) (now : ℕ) (call : ActionCall)
        → DistinctIds P.sha256 Used
        → CallUses Used call
        → Consistent P.sha256 Used st
        → Dict.get st.approvals id ≡ some q
        → Dict.get (perform_action P R st now call).approvals id ≡ some q
    unfolding perform_action
    perform_action-keeps st now (plan a) u k i f =
        record_planned_action-keeps (record P { now = now }) R Used st a u k i f
    perform_action-keeps st now (decide c) u k i f =
        DecisionOutcome-keeps st c _
          (decide_approval_request-DecisionOutcome (record P { now = now }) R Used st c u i) f

    -- If the keys in use have distinct ids: from a consistent store, a request that was decided is
    -- never changed again, by any sequence of recordings under these keys and of decisions.
    pub run_actions-final :
        (st : ActionStore) (calls : List (ℕ × ActionCall))
        → DistinctIds P.sha256 Used
        → AllUse Used calls
        → Consistent P.sha256 Used st
        → Dict.get st.approvals id ≡ some q
        → Dict.get (run_actions P R st calls).approvals id ≡ some q
    unfolding run_actions
    run_actions-final st [] u k i f = f
    run_actions-final st ((now, call) ∷ calls) u k i f =
        run_actions-final (perform_action P R st now call) calls u k.1
          (perform_action-Consistent P R Used st now call u k.0 i)
          (perform_action-keeps st now call u k.0 i f)
