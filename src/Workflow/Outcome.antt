-- ===== src/Workflow/Outcome.antt =====
-- All outcomes of a decision on an approval request.
use orvo_agent.Base.{
  ◌<>◌, none-ne-some, string_eq, pair_eq, none, some, Option, Option-cases, String, refl, ◌≡◌, sym,
  ap, ◌∙◌, arith, inl, inr, ◌==◌, true, false, raise, ok, Result, ok, raise, ◌≢◌, Bool-cases, subst,
}
use orvo_agent.Base.Dict
use orvo_agent.Base.Dict.{Dict}
use orvo_agent.Redaction.Redactor.{Redactor}
use orvo_agent.Platform.{Platform}
use orvo_agent.Workflow.Record.{
  request_status_text, ledger_error, known_decision, parse_decision, validate_approval_decision,
  ApprovalDecision, WorkflowApprovalDecisionRecord, WorkflowApprovalRequest,
  WorkflowActionLedgerError, ApprovalRequestStatus, request_status_eq,
}
use orvo_agent.Workflow.Ledger.{
  decided, commit_decision, decision_of, decide_approval_request, ApprovalChoice, ActionStore,
}
use orvo_agent.Workflow.Consistent.{Consistent, DistinctIds}
use orvo_agent.Workflow.Outcomes.{settled-Settled, Settled}
use orvo_agent.Workflow.Settles.{find_own-entry, settled}
use orvo_agent.Workflow.Decision.{
  decision_of-succeeds, scoped_request_of_own, scoped_request_of_other, validate_of_parsed,
}

abbrev pub Decision : Type 0
Decision = Result WorkflowActionLedgerError WorkflowApprovalDecisionRecord × ActionStore

-- A decision is taken, or it is refused and the store stays as it is.
pub data DecisionOutcome (st : ActionStore) (c : ApprovalChoice) : Decision → Type 0 where
  taken :
      (d : ApprovalDecision) (q : WorkflowApprovalRequest) (w : WorkflowApprovalDecisionRecord)
      (after : ActionStore)
      → parse_decision c.decision ≡ some d
      → Dict.get st.approvals c.approval_request_id ≡ some q
      → q.business_id ≡ c.business_id
      → q.status ≡ ApprovalRequestStatus.pending
      → Settled st after c.approval_request_id d q w
      → DecisionOutcome st c (ok w, after)
  invalid_decision :
      (e : WorkflowActionLedgerError)
      → e.code ≡ "invalid_approval_decision"
      → parse_decision c.decision ≡ none
      → DecisionOutcome st c (raise e, st)
  not_found :
      (e : WorkflowActionLedgerError)
      → e.code ≡ "approval_request_not_found"
      → ((q : WorkflowApprovalRequest)
          → Dict.get st.approvals c.approval_request_id ≡ some q
          → q.business_id ≢ c.business_id)
      → DecisionOutcome st c (raise e, st)
  already_decided :
      (e : WorkflowActionLedgerError) (q : WorkflowApprovalRequest)
      → e.code ≡ "approval_request_already_decided"
      → Dict.get st.approvals c.approval_request_id ≡ some q
      → q.business_id ≡ c.business_id
      → q.status ≢ ApprovalRequestStatus.pending
      → DecisionOutcome st c (raise e, st)

pub other_of_stored :
    {o : Option WorkflowApprovalRequest} {p q : WorkflowApprovalRequest} {b : String}
    → o ≡ some q
    → o ≡ some p
    → q.business_id ≢ b
    → p.business_id ≢ b
other_of_stored g s n h = ground (arith, g, s)

module _ (P : Platform) (R : Redactor) (Used : String → String → Type 0) where
  decide_of_error :
      (st : ActionStore) (c : ApprovalChoice) (e : WorkflowActionLedgerError)
      → decision_of P R st c ≡ raise e
      → decide_approval_request P R st c ≡ (raise e, st)
  unfolding decide_approval_request commit_decision
  decide_of_error st c e h = ap (commit_decision st c.approval_request_id) h

  unknown_decision-outcome :
      (st : ActionStore) (c : ApprovalChoice)
      → parse_decision c.decision ≡ none
      → DecisionOutcome st c (decide_approval_request P R st c)
  unfolding decision_of validate_approval_decision known_decision ledger_error
  unknown_decision-outcome st c h =
      let e =
        ledger_error R "invalid_approval_decision"
          "approval decision must be approved or rejected" in
      subst (DecisionOutcome st c) (sym (decide_of_error st c e (rw h refl)))
        (invalid_decision e refl h)

  -- a decision with a known word
  module _ (st : ActionStore) (c : ApprovalChoice) (d : ApprovalDecision)
      (parsed : parse_decision c.decision ≡ some d) where
    no_request-outcome :
        ((q : WorkflowApprovalRequest)
          → Dict.get st.approvals c.approval_request_id ≡ some q
          → q.business_id ≢ c.business_id)
        → DecisionOutcome st c (decide_approval_request P R st c)
    unfolding decision_of ledger_error
    no_request-outcome n =
        let e = ledger_error R "approval_request_not_found" "approval request not found" in
        subst (DecisionOutcome st c)
          (sym (
            decide_of_error st c e (
              rw (validate_of_parsed P R _ d parsed)
                (rw (scoped_request_of_other P R _ _ n) refl))))
          (not_found e refl n)

    late_decision-outcome :
        (q : WorkflowApprovalRequest)
        → Dict.get st.approvals c.approval_request_id ≡ some q
        → q.business_id ≡ c.business_id
        → (q.status == ApprovalRequestStatus.pending) ≡ false
        → DecisionOutcome st c (decide_approval_request P R st c)
    unfolding decision_of ledger_error
    late_decision-outcome q g own n =
        let e =
          ledger_error R "approval_request_already_decided"
            ("approval request already decided with status " <> request_status_text q.status) in
        subst (DecisionOutcome st c)
          (sym (
            decide_of_error st c e (
              rw (validate_of_parsed P R _ d parsed)
                (rw (scoped_request_of_own P R _ _ q g own) (rw n refl)))))
          (already_decided e q refl g own (ground arith))

    taken-outcome :
        (q : WorkflowApprovalRequest)
        → Dict.get st.approvals c.approval_request_id ≡ some q
        → q.business_id ≡ c.business_id
        → (q.status == ApprovalRequestStatus.pending) ≡ true
        → DistinctIds P.sha256 Used
        → Consistent P.sha256 Used st
        → DecisionOutcome st c (decide_approval_request P R st c)
    unfolding decide_approval_request commit_decision settled decided
    taken-outcome q g own p u i =
        let pending : q.status ≡ ApprovalRequestStatus.pending = ground arith in
        let e = i.entries c.approval_request_id q g in
        let found = find_own-entry P R Used st c q i u own e in
        let settles = decision_of-succeeds P R st c d q _ parsed g own pending found in
        subst (DecisionOutcome st c) (sym (ap (commit_decision st c.approval_request_id) settles))
          (taken d q _ _ parsed g own pending (settled-Settled P R Used st c d q e))

  -- The outcomes by whether the request is there.
  stored_request-outcome :
      (st : ActionStore) (c : ApprovalChoice) (d : ApprovalDecision)
      (o : Option WorkflowApprovalRequest)
      → parse_decision c.decision ≡ some d
      → Dict.get st.approvals c.approval_request_id ≡ o
      → DistinctIds P.sha256 Used
      → Consistent P.sha256 Used st
      → DecisionOutcome st c (decide_approval_request P R st c)
  stored_request-outcome st c d none h g u i =
      no_request-outcome st c d h (λ q s. absurd (none-ne-some _ (sym g ∙ s)))
  stored_request-outcome st c d (some q) h g u i =
      elim (string_eq.dec q.business_id c.business_id) [
        | no n ↦ no_request-outcome st c d h (λ p s. other_of_stored g s n)
        | yes own ↦ elim (Bool-cases (q.status == ApprovalRequestStatus.pending)) [
          | inl p ↦ taken-outcome st c d h q g own p u i
          | inr p ↦ late_decision-outcome st c d h q g own p
        ]
      ]

  -- In a consistent store, if the keys in use have distinct ids, a decision is refused only for an
  -- unknown word, a request that is not there or belongs to another business, or one that was
  -- decided before; the store then stays as it is. Every other decision is taken: the request and
  -- its record are set to its states, no other request or record changes, and no side effect is
  -- run.
  pub decide_approval_request-DecisionOutcome :
      (st : ActionStore) (c : ApprovalChoice)
      → DistinctIds P.sha256 Used
      → Consistent P.sha256 Used st
      → DecisionOutcome st c (decide_approval_request P R st c)
  decide_approval_request-DecisionOutcome st c u i =
      elim (Option-cases (parse_decision c.decision)) [
        | inl h ↦ unknown_decision-outcome st c h
        | inr h ↦ stored_request-outcome st c h.0 _ h.1 refl u i
      ]
