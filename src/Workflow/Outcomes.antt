-- ===== src/Workflow/Outcomes.antt =====
-- What a single call of the action ledger does.
use orvo_agent.Base.{
  string_eq, pair_eq, none, some, Option, String, refl, ◌≡◌, sym, ap, ◌∙◌, false, ◌≢◌,
}
use orvo_agent.Base.Dict
use orvo_agent.Base.Dict.{Dict, get-put_same, get-put_other}
use orvo_agent.Redaction.Redactor.{Redactor}
use orvo_agent.Platform.{Platform}
use orvo_agent.Workflow.Record.{
  decided_status, decision_states, WorkflowApprovalDecisionRecord, WorkflowApprovalRequest,
  WorkflowActionLedgerRecord, ApprovalDecision,
}
use orvo_agent.Workflow.Ledger.{
  ApprovalChoice, decided_request, decided_record, decided, PlannedAction, record_planned_action,
  record_or_reuse, record_new, ActionStore,
}
use orvo_agent.Workflow.Settles.{settled}
use orvo_agent.Workflow.Consistent.{HasEntry}

module _ (P : Platform) (R : Redactor) where
  record_new-stored :
      (st : ActionStore) (a : PlannedAction) (o : Option String)
      → Dict.get (record_new P R st a o).1.actions (a.business_id, a.idempotency_key)
        ≡ some (record_new P R st a o).0.entry
  unfolding record_new
  record_new-stored st a none = get-put_same st.actions _ _
  record_new-stored st a (some id) = get-put_same st.actions _ _

  record_or_reuse-stored :
      (st : ActionStore) (a : PlannedAction) (o : Option WorkflowActionLedgerRecord)
      → Dict.get st.actions (a.business_id, a.idempotency_key) ≡ o
      → Dict.get (record_or_reuse P R st a o).1.actions (a.business_id, a.idempotency_key)
        ≡ some (record_or_reuse P R st a o).0.entry
  unfolding record_or_reuse
  record_or_reuse-stored st a (some r) h = h
  record_or_reuse-stored st a none h = record_new-stored st a _

  pub record_planned_action-stored :
      (st : ActionStore) (a : PlannedAction)
      → Dict.get (record_planned_action P R st a).1.actions (a.business_id, a.idempotency_key)
        ≡ some (record_planned_action P R st a).0.entry
  unfolding record_planned_action
  record_planned_action-stored st a = record_or_reuse-stored st a _ refl

  pub record_planned_action_of_known :
      (st : ActionStore) (a : PlannedAction) (r : WorkflowActionLedgerRecord)
      → Dict.get st.actions (a.business_id, a.idempotency_key) ≡ some r
      → record_planned_action P R st a
        ≡ (record { entry = r; created = false; approval_request = none }, st)
  unfolding record_planned_action record_or_reuse
  record_planned_action_of_known st a r h = ap (record_or_reuse P R st a) h

-- Recording an action again for the same business and idempotency key, whatever else it asks for and
-- whenever, returns the record of the first time, creates nothing, and leaves the store as it is.
pub record_planned_action-again :
    (P Q : Platform) (R S : Redactor) (st : ActionStore) (a again : PlannedAction)
    → again.business_id ≡ a.business_id
    → again.idempotency_key ≡ a.idempotency_key
    → record_planned_action Q S (record_planned_action P R st a).1 again ≡ (
      record {
        entry = (record_planned_action P R st a).0.entry;
        created = false;
        approval_request = none;
      },
      (record_planned_action P R st a).1,
    )
record_planned_action-again P Q R S st a again b k = record_planned_action_of_known Q S _ again _ (
    ap (Dict.get (record_planned_action P R st a).1.actions) (λ t. (b t, k t))
    ∙ record_planned_action-stored P R st a)

-- What a decision does to the store: the record and the request are set, and nothing else.
pub record Settled (st after : ActionStore) (id : String) (d : ApprovalDecision)
    (q : WorkflowApprovalRequest) (w : WorkflowApprovalDecisionRecord) : Type 0 where
  pub key : String
  pub old : WorkflowActionLedgerRecord
  pub was : Dict.get st.actions (q.business_id, key) ≡ some old
  pub is_linked : old.ledger_id ≡ q.ledger_id
  pub stored_entry : Dict.get after.actions (q.business_id, key) ≡ some w.entry
  pub stored_request : Dict.get after.approvals id ≡ some w.approval_request
  pub other_entries :
      (j : String × String)
      → (q.business_id, key) ≢ j
      → Dict.get after.actions j ≡ Dict.get st.actions j
  pub other_requests : (j : String) → id ≢ j → Dict.get after.approvals j ≡ Dict.get st.approvals j
  pub states : (w.entry.approval_state, w.entry.execution_state) ≡ decision_states d
  pub status : w.approval_request.status ≡ decided_status d
  pub entry_kept : w.entry ≡ record old {
    approval_state = w.entry.approval_state;
    execution_state = w.entry.execution_state;
    updated_at = w.entry.updated_at;
  }
  pub no_side_effect : w.side_effects_executed ≡ 0

module _ (P : Platform) (R : Redactor) (Used : String → String → Type 0) where
  pub settled-Settled :
      (st : ActionStore) (c : ApprovalChoice) (d : ApprovalDecision) (q : WorkflowApprovalRequest)
      (e : HasEntry P.sha256 st c.approval_request_id q)
      → Settled st
          (settled P R Used st c d q e.key e.entry)
          c.approval_request_id
          d
          q
          (decided P R c d q ((q.business_id, e.key), e.entry)).result
  unfolding settled decided decided_record decided_request
  settled-Settled st c d q e = record {
    key = e.key;
    old = e.entry;
    was = e.found;
    is_linked = sym e.ledger_id;
    stored_entry = get-put_same st.actions _ _;
    stored_request = get-put_same st.approvals _ _;
    other_entries = λ j n. get-put_other st.actions _ j _ n;
    other_requests = λ j n. get-put_other st.approvals _ j _ n;
    states = refl;
    status = refl;
    entry_kept = refl;
    no_side_effect = refl;
  }
