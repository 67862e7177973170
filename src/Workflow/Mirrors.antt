-- ===== src/Workflow/Mirrors.antt =====
-- Deciding a request in the SQLite store mirrors deciding it in the in-memory store.
use orvo_agent.Base.{
  String, false, Option, none, some, [], ◌∷◌, ◌==◌, string_eq, pair_eq, All, map, ◌≢◌, Result, ok,
  raise, ◌≡◌, refl, arith, ◌<>◌,
}
use orvo_agent.Base.Dict
use orvo_agent.Base.Dict.{Dict, NodupKeys, values, get-nil}
use orvo_agent.Redaction.Redactor.{Redactor}
use orvo_agent.Platform.{Platform}
use orvo_agent.Workflow.Record.{
  request_status_text, ledger_error, known_decision, validate_approval_decision, parse_decision,
  WorkflowActionLedgerRecord, WorkflowActionLedgerError, WorkflowApprovalDecisionRecord,
  WorkflowApprovalRequest, ApprovalRequestStatus, ApprovalDecision, request_status_eq,
}
use orvo_agent.Workflow.Sqlite.{Tables, action_row, request_row, Codec}
use orvo_agent.Workflow.Mirror.{All-of_get, read_back, tables_of}
use orvo_agent.Workflow.Ledger.{
  commit_decision, decide_approval_request, decision_of, ApprovalChoice, ActionStore, find_action,
}
use orvo_agent.Workflow.Updates.{
  found_request, settle_rows, check_decision_row, decide_approval_request_row, is_request,
  is_action, approval_from_row, fetch_one,
}
use orvo_agent.Workflow.Outcome.{Decision}
use orvo_agent.Workflow.Consistent.{DistinctIds, Consistent}
use orvo_agent.Workflow.Decision.{
  scoped_request_of_own, scoped_request_of_other, validate_of_parsed,
}

module _ (P : Platform) (R : Redactor) (C : Codec) where
  -- A request as it is read back.
  abbrev pub read_request : WorkflowApprovalRequest → WorkflowApprovalRequest
  read_request q = approval_from_row P R C (request_row P R C q)

  abbrev pub read_decision : WorkflowApprovalDecisionRecord → WorkflowApprovalDecisionRecord
  read_decision w = record w {
    entry = read_back P R C w.entry;
    approval_request = read_request w.approval_request;
  }

  -- the answer of the SQLite store for an answer of the in-memory store
  unfoldable pub mirrored :
      Decision → Result WorkflowActionLedgerError (Option WorkflowApprovalDecisionRecord) × Tables
  unfolding tables_of
  mirrored (raise e, st) = (raise e, tables_of P R C st)
  mirrored (ok w, st) = (ok (some (read_decision w)), tables_of P R C st)

  pub fetch-action :
      (d : Dict (String × String) WorkflowActionLedgerRecord) (b l : String)
      (pair : (String × String) × WorkflowActionLedgerRecord)
      → find_action d b l ≡ some pair
      → fetch_one (is_action b l) (map (action_row P R C) (values d))
        ≡ some (action_row P R C pair.1)
  unfolding find_action fetch_one is_action action_row
  fetch-action [] b l pair h = absurd (cc)
  fetch-action ((k, r) ∷ d) b l pair h = ground (arith, fetch-action d b l pair)

  pub fetch-request :
      (d : Dict String WorkflowApprovalRequest) (b id : String) (q : WorkflowApprovalRequest)
      → All (λ (x : String × WorkflowApprovalRequest). x.1.approval_request_id ≡ x.0) d
      → Dict.get d id ≡ some q
      → q.business_id ≡ b
      → fetch_one (is_request b id) (map (request_row P R C) (values d))
        ≡ some (request_row P R C q)
  unfolding fetch_one is_request request_row Dict.get
  fetch-request [] b id q a h own = absurd (cc)
  fetch-request ((k, p) ∷ d) b id q a h own =
      let first = a.0 in ground (arith, fetch-request d b id q a.1)

  fetch-no_request :
      (d : Dict String WorkflowApprovalRequest) (b id : String)
      → NodupKeys d
      → All (λ (x : String × WorkflowApprovalRequest). x.1.approval_request_id ≡ x.0) d
      → ((q : WorkflowApprovalRequest) → Dict.get d id ≡ some q → q.business_id ≢ b)
      → fetch_one (is_request b id) (map (request_row P R C) (values d)) ≡ none
  unfolding fetch_one is_request request_row Dict.get
  fetch-no_request [] b id u a n = refl
  fetch-no_request ((k, p) ∷ d) b id u a n =
      let first = a.0 in
      let fresh = u.0 in
      let rest = fetch-no_request d b id u.1 a.1 (λ q g. n q (ground arith)) in
      let mine = n p in ground (arith, n p)

module _ (P : Platform) (R : Redactor) (C : Codec) (Used : String → String → Type 0)
    (st : ActionStore) (i : Consistent P.sha256 Used st) (u : DistinctIds P.sha256 Used)
    (c : ApprovalChoice) where
  pub requests-own :
      All (λ (x : String × WorkflowApprovalRequest). x.1.approval_request_id ≡ x.0) st.approvals
  requests-own =
      All-of_get (λ id q. q.approval_request_id ≡ id) st.approvals i.nodup_requests
        (λ id q g. (i.entries id q g).own_id)

  -- Both stores refuse with one error.
  refused-mirrors :
      (e : WorkflowActionLedgerError)
      → check_decision_row P R C (tables_of P R C st) c ≡ raise e
      → decision_of P R st c ≡ raise e
      → decide_approval_request_row P R C (tables_of P R C st) c
        ≡ mirrored P R C (decide_approval_request P R st c)
  unfolding decide_approval_request_row settle_rows decide_approval_request commit_decision mirrored
  refused-mirrors e h k = rw h (rw k refl)

  pub unknown-mirrors :
      parse_decision c.decision ≡ none
      → decide_approval_request_row P R C (tables_of P R C st) c
        ≡ mirrored P R C (decide_approval_request P R st c)
  unfolding check_decision_row decision_of validate_approval_decision known_decision
  unknown-mirrors h =
      refused-mirrors
        (ledger_error R "invalid_approval_decision"
          "approval decision must be approved or rejected")
        (rw h refl) (rw h refl)

  module _ (d : ApprovalDecision) (parsed : parse_decision c.decision ≡ some d) where
    pub missing-mirrors :
        ((q : WorkflowApprovalRequest)
          → Dict.get st.approvals c.approval_request_id ≡ some q
          → q.business_id ≢ c.business_id)
        → decide_approval_request_row P R C (tables_of P R C st) c
          ≡ mirrored P R C (decide_approval_request P R st c)
    unfolding check_decision_row decision_of found_request tables_of
    missing-mirrors n =
        refused-mirrors (ledger_error R "approval_request_not_found" "approval request not found")
          (rw (validate_of_parsed P R _ d parsed) (
            rw
              (fetch-no_request P R C st.approvals c.business_id c.approval_request_id
                i.nodup_requests requests-own n)
              refl))
          (rw (validate_of_parsed P R _ d parsed) (rw (scoped_request_of_other P R _ _ n) refl))

    pub late-mirrors :
        (q : WorkflowApprovalRequest)
        → Dict.get st.approvals c.approval_request_id ≡ some q
        → q.business_id ≡ c.business_id
        → (q.status == ApprovalRequestStatus.pending) ≡ false
        → decide_approval_request_row P R C (tables_of P R C st) c
          ≡ mirrored P R C (decide_approval_request P R st c)
    unfolding check_decision_row decision_of found_request tables_of approval_from_row request_row
    late-mirrors q g own n =
        refused-mirrors
          (ledger_error R "approval_request_already_decided"
            ("approval request already decided with status " <> request_status_text q.status))
          (rw (validate_of_parsed P R _ d parsed) (
            rw
              (fetch-request P R C st.approvals c.business_id c.approval_request_id q requests-own g
                own)
              (rw n refl)))
          (rw (validate_of_parsed P R _ d parsed)
            (rw (scoped_request_of_own P R _ _ q g own) (rw n refl)))
