-- ===== src/Workflow/Handover.antt =====
-- Approving a request hands its action from the approval queue to the execution queue.
use orvo_agent.Base.{
  none-ne-some, String, some, string_eq, pair_eq, ◌≡◌, ◌≢◌, refl, sym, ap, ◌∙◌, ok, subst,
}
use orvo_agent.Base.Dict
use orvo_agent.Base.Membership.{In}
use orvo_agent.Redaction.Redactor.{Redactor}
use orvo_agent.Platform.{Platform}
use orvo_agent.Workflow.Record.{
  ExecutionState, WorkflowActionLedgerRecord, parse_decision, WorkflowApprovalDecisionRecord,
  WorkflowApprovalRequest, decided_status, ApprovalState, ApprovalRequestStatus, ApprovalDecision,
}
use orvo_agent.Workflow.Ledger.{decide_approval_request, ApprovalChoice, ActionStore}
use orvo_agent.Workflow.Outcome.{
  decide_approval_request-DecisionOutcome, DecisionOutcome, Decision, taken, invalid_decision,
  not_found, already_decided,
}
use orvo_agent.Workflow.Consistent.{DistinctIds, Consistent}
use orvo_agent.Workflow.Outcomes.{Settled}
use orvo_agent.Workflow.Awaiting.{execution_records-IsApproved, Filed, IsApproved, IsAwaiting}
use orvo_agent.Workflow.Queues.{execution_records, pending_pairs}
use orvo_agent.Workflow.Exact.{pending_pairs-IsAwaiting, Filed-unique}
use orvo_agent.Catalog.{is_registered}
use orvo_agent.Workflow.Settles.{decide_approval_request-Consistent}

-- A decision with a known word on a pending request of the business is taken.
taken_of_outcome :
    (st : ActionStore) (c : ApprovalChoice) (d : ApprovalDecision) (q : WorkflowApprovalRequest)
    (out : Decision)
    → parse_decision c.decision ≡ some d
    → Dict.get st.approvals c.approval_request_id ≡ some q
    → q.business_id ≡ c.business_id
    → q.status ≡ ApprovalRequestStatus.pending
    → DecisionOutcome st c out
    → (w : WorkflowApprovalDecisionRecord) × (out.0 ≡ ok w)
      × Settled st out.1 c.approval_request_id d q w
taken_of_outcome st c d q _ h g own p (taken d' q' w after h' g' own' p' s) =
    let parsed = sym h' ∙ h in
    let stored = sym g' ∙ g in
    let e : d' ≡ d = cc in
    let f : q' ≡ q = cc in
    (
      w,
      refl,
      subst
          (λ (x : ApprovalDecision × WorkflowApprovalRequest).
            Settled st after c.approval_request_id x.0 x.1 w)
          (λ t. (e t, f t)) s,
    )
taken_of_outcome st c d q _ h g own p (invalid_decision e k n) = absurd (none-ne-some _ (sym n ∙ h))
taken_of_outcome st c d q _ h g own p (not_found e k n) = absurd (n q g own)
taken_of_outcome st c d q _ h g own p (already_decided e q' k g' own' n) =
    let stored = sym g' ∙ g in
    let f : q' ≡ q = cc in absurd (n (ap (λ (x : WorkflowApprovalRequest). x.status) f ∙ p))

decided-not_pending : (d : ApprovalDecision) → decided_status d ≢ ApprovalRequestStatus.pending
decided-not_pending ApprovalDecision.approved e = cc
decided-not_pending ApprovalDecision.rejected e = cc

-- The request that was decided is not pending.
Settled-not_pending :
    (st after : ActionStore) (b : String) (d : ApprovalDecision) (q p : WorkflowApprovalRequest)
    (w : WorkflowApprovalDecisionRecord) (s : WorkflowActionLedgerRecord)
    → Settled st after q.approval_request_id d q w
    → IsAwaiting after b p s
    → p.approval_request_id ≢ q.approval_request_id
Settled-not_pending st after b d q p w s t a e =
    let both = sym a.stored ∙ ap (Dict.get after.approvals) e ∙ t.stored_request in
    let same : p ≡ w.approval_request = cc in
    decided-not_pending d
      (sym t.status ∙ sym (ap (λ (x : WorkflowApprovalRequest). x.status) same) ∙ a.open_request)

module _ (P : Platform) (R : Redactor) (Used : String → String → Type 0) (st : ActionStore)
    (i : Consistent P.sha256 Used st) (u : DistinctIds P.sha256 Used) (b : String) where
  Settled-IsApproved :
      (after : ActionStore) (q : WorkflowApprovalRequest) (r : WorkflowActionLedgerRecord)
      (w : WorkflowApprovalDecisionRecord)
      → IsAwaiting st b q r
      → Settled st after q.approval_request_id ApprovalDecision.approved q w
      → IsApproved after b w.entry × (w.entry.ledger_id ≡ r.ledger_id)
  Settled-IsApproved after q r w a t =
      let mine : Filed st b t.old =
        (t.key, ap (λ c. Dict.get st.actions (c, t.key)) (sym a.own) ∙ t.was) in
      let same =
        Filed-unique P.sha256 Used st i u b t.old r mine a.filed (t.is_linked ∙ a.linked) in
      (
        record {
          filed = (t.key, ap (λ c. Dict.get after.actions (c, t.key)) (sym a.own) ∙ t.stored_entry);
          registered =
              ap (λ (x : WorkflowActionLedgerRecord). is_registered x.action_key) t.entry_kept
              ∙ ap (λ (x : WorkflowActionLedgerRecord). is_registered x.action_key) same
              ∙ a.registered;
          approved = ap (λ (x : ApprovalState × ExecutionState). x.0) t.states;
          waiting = ap (λ (x : ApprovalState × ExecutionState). x.1) t.states;
        },
        ap (λ (x : WorkflowActionLedgerRecord). x.ledger_id) t.entry_kept
            ∙ ap (λ (x : WorkflowActionLedgerRecord). x.ledger_id) same,
      )

  -- In a consistent store, if the keys in use have distinct ids: approving a request that stands in
  -- the approval queue of the business succeeds; afterwards its record stands in the execution queue,
  -- and the request no longer stands in the approval queue.
  pub approval-hands_over :
      (q : WorkflowApprovalRequest) (r : WorkflowActionLedgerRecord) (c : ApprovalChoice)
      → In (q, some r) (pending_pairs st b)
      → c.business_id ≡ b
      → c.approval_request_id ≡ q.approval_request_id
      → parse_decision c.decision ≡ some ApprovalDecision.approved
      → (w : WorkflowApprovalDecisionRecord) × ((decide_approval_request P R st c).0 ≡ ok w)
        × In w.entry (execution_records (decide_approval_request P R st c).1 b)
        × (w.entry.ledger_id ≡ r.ledger_id)
        × ((p : WorkflowApprovalRequest) (s : WorkflowActionLedgerRecord)
            → In (p, some s) (pending_pairs (decide_approval_request P R st c).1 b)
            → p.approval_request_id ≢ q.approval_request_id)
  approval-hands_over q r c m own id word =
      let a = (pending_pairs-IsAwaiting P.sha256 Used st i u b q r).0 m in
      let after = (decide_approval_request P R st c).1 in
      let j = decide_approval_request-Consistent P R Used st c u i in
      let (w, e, t) =
        taken_of_outcome st c ApprovalDecision.approved q _ word
          (ap (Dict.get st.approvals) id ∙ a.stored) (a.own ∙ sym own) a.open_request
          (decide_approval_request-DecisionOutcome P R Used st c u i) in
      let s = subst (λ x. Settled st after x ApprovalDecision.approved q w) id t in
      let (x, l) = Settled-IsApproved after q r w a s in
      (
        w,
        e,
        (execution_records-IsApproved P.sha256 Used after j b w.entry).1 x,
        l,
        λ p v n.
            Settled-not_pending st after b ApprovalDecision.approved q p w v s
              ((pending_pairs-IsAwaiting P.sha256 Used after j u b p v).0 n),
      )
