-- ===== src/Workflow/Mirroring.antt =====
-- The SQLite store behaves as the in-memory store does, call by call.
use orvo_agent.Base.{
  ap, ok, ◌==◌, map, String, true, some, string_eq, pair_eq, All, ◌≡◌, refl, sym, ◌∙◌, arith,
}
use orvo_agent.Base.Dict
use orvo_agent.Base.Dict.{Dict, NodupKeys, values, get-nil}
use orvo_agent.Redaction.Redactor.{Redactor}
use orvo_agent.Platform.{Platform, coerce_utc}
use orvo_agent.Workflow.Record.{
  decision_audit_event, ApprovalRequestStatus, parse_decision, safe_text,
  WorkflowActionLedgerRecord, WorkflowApprovalRequest, ApprovalDecision, request_status_eq,
}
use orvo_agent.Workflow.Sqlite.{record_from_row, request_row, action_row, Codec}
use orvo_agent.Workflow.Ledger.{
  commit_decision, decide_approval_request, decided_request, decided_record, decided, Decided,
  ApprovalChoice, ActionStore,
}
use orvo_agent.Workflow.Consistent.{HasEntry, DistinctIds, Consistent}
use orvo_agent.Workflow.Updates.{
  decision_of_rows, found_row, found_request, decide_approval_request_row, settle_rows,
  check_decision_row, fetch_one, approval_from_row, decided_request_row, decided_action_row,
  decided_tables, is_request, is_action,
}
use orvo_agent.Workflow.Mirror.{All-of_get, tables_of}
use orvo_agent.Workflow.Mirrors.{requests-own, fetch-request, fetch-action, mirrored, read_request}
use orvo_agent.Workflow.Rows.{fetch_one-update_where, update_where-put}
use orvo_agent.Workflow.Settles.{find_own-entry}
use orvo_agent.Workflow.Decision.{validate_of_parsed, decision_of-succeeds}

module _ (P : Platform) (R : Redactor) (C : Codec) (Used : String → String → Type 0)
    (st : ActionStore) (i : Consistent P.sha256 Used st) (u : DistinctIds P.sha256 Used)
    (c : ApprovalChoice) where
  module _ (d : ApprovalDecision) (q : WorkflowApprovalRequest)
      (g : Dict.get st.approvals c.approval_request_id ≡ some q)
      (own : q.business_id ≡ c.business_id) where
    abbrev entry_of : HasEntry P.sha256 st c.approval_request_id q
    entry_of = i.entries c.approval_request_id q g

    abbrev decided_of : Decided
    decided_of = decided P R c d q ((q.business_id, entry_of.key), entry_of.entry)

    -- The UPDATE of the action table touches the record of the request, and no other.
    only_entry :
        All
          (λ (x : (String × String) × WorkflowActionLedgerRecord).
            is_action c.business_id q.ledger_id (action_row P R C x.1) ≡ true
            → x.0 ≡ (q.business_id, entry_of.key))
          st.actions
    unfolding is_action action_row
    only_entry =
        All-of_get
          (λ key r.
            is_action c.business_id q.ledger_id (action_row P R C r) ≡ true
            → key ≡ (q.business_id, entry_of.key))
          st.actions i.nodup
          (λ key r h t.
            let f = i.filed key.0 key.1 r h in
            let e = i.filed q.business_id entry_of.key entry_of.entry entry_of.found in
            let same : r.ledger_id ≡ q.ledger_id = ground arith in
            let (b, k) =
              u "workflow-action" key.0 q.business_id key.1 entry_of.key f.used e.used
                (sym f.ledger_id ∙ same ∙ entry_of.ledger_id ∙ e.ledger_id) in
            λ j. (b j, k j))

    entry-is_action : is_action c.business_id q.ledger_id (action_row P R C entry_of.entry) ≡ true
    unfolding is_action action_row
    entry-is_action =
        let b = (i.filed q.business_id entry_of.key entry_of.entry entry_of.found).business_id in
        let l = entry_of.ledger_id in ground arith

    only_request :
        All
          (λ (x : String × WorkflowApprovalRequest).
            is_request c.business_id c.approval_request_id (request_row P R C x.1) ≡ true
            → x.0 ≡ c.approval_request_id)
          st.approvals
    unfolding is_request request_row
    only_request =
        All-of_get
          (λ id p.
            is_request c.business_id c.approval_request_id (request_row P R C p) ≡ true
            → id ≡ c.approval_request_id)
          st.approvals i.nodup_requests
          (λ id p h t. let e = (i.entries id p h).own_id in ground arith)

    request-is_request : is_request c.business_id c.approval_request_id (request_row P R C q) ≡ true
    unfolding is_request request_row
    request-is_request = let e = entry_of.own_id in ground arith

    -- The UPDATE statements write what the in-memory store writes.
    updated-mirrors :
        decided_tables P R C (tables_of P R C st) c d (read_request P R C q)
        ≡ tables_of P R C (record {
          actions = Dict.put st.actions decided_of.key decided_of.entry;
          approvals = Dict.put st.approvals c.approval_request_id decided_of.request;
        })
    unfolding decided_tables tables_of decided decided_record decided_request decided_action_row
        decided_request_row action_row request_row approval_from_row
    updated-mirrors =
        let a =
          update_where-put (is_action c.business_id q.ledger_id)
            (decided_action_row P R C d (coerce_utc P c.now)) (action_row P R C) st.actions
            (q.business_id, entry_of.key) entry_of.entry decided_of.entry i.nodup only_entry
            entry_of.found entry-is_action refl in
        let b =
          update_where-put (is_request c.business_id c.approval_request_id)
            (decided_request_row P R C d (coerce_utc P c.now) (safe_text R (some c.actor_ref))
              (safe_text R (some c.reason)))
            (request_row P R C) st.approvals c.approval_request_id q decided_of.request
            i.nodup_requests only_request g request-is_request refl in
        λ t. record { actions = a t; requests = b t }

    fetched_entry :
        fetch_one
          (is_action c.business_id q.ledger_id)
          (decided_tables P R C (tables_of P R C st) c d (read_request P R C q)).actions
        ≡ some (action_row P R C decided_of.entry)
    unfolding decided_tables tables_of decided decided_record decided_action_row action_row
        approval_from_row request_row is_action
    fetched_entry =
        fetch_one-update_where (is_action c.business_id q.ledger_id)
          (decided_action_row P R C d (coerce_utc P c.now))
          (map (action_row P R C) (values st.actions)) (action_row P R C entry_of.entry) (λ y. refl)
          (fetch-action P R C st.actions c.business_id q.ledger_id
            ((q.business_id, entry_of.key), entry_of.entry)
            (find_own-entry P R Used st c q i u own entry_of))

    fetched_request :
        fetch_one
          (is_request c.business_id c.approval_request_id)
          (decided_tables P R C (tables_of P R C st) c d (read_request P R C q)).requests
        ≡ some (request_row P R C decided_of.request)
    unfolding decided_tables tables_of decided decided_request decided_request_row request_row
        is_request
    fetched_request =
        fetch_one-update_where (is_request c.business_id c.approval_request_id)
          (decided_request_row P R C d (coerce_utc P c.now) (safe_text R (some c.actor_ref))
            (safe_text R (some c.reason)))
          (map (request_row P R C) (values st.approvals)) (request_row P R C q) (λ y. refl)
          (fetch-request P R C st.approvals c.business_id c.approval_request_id q
            (requests-own P R C Used st i u c) g own)

    check-passes :
        parse_decision c.decision ≡ some d
        → (q.status == ApprovalRequestStatus.pending) ≡ true
        → check_decision_row P R C (tables_of P R C st) c ≡ ok (d, read_request P R C q)
    unfolding check_decision_row found_request found_row tables_of approval_from_row request_row
    check-passes parsed p = rw (validate_of_parsed P R _ d parsed) (
        rw
          (fetch-request P R C st.approvals c.business_id c.approval_request_id q
            (requests-own P R C Used st i u c) g own)
          (rw p (
            rw
              (fetch-action P R C st.actions c.business_id q.ledger_id
                ((q.business_id, entry_of.key), entry_of.entry)
                (find_own-entry P R Used st c q i u own entry_of))
              refl)))

    settled-mirrors :
        settle_rows P R C (tables_of P R C st) c (ok (d, read_request P R C q))
        ≡ mirrored P R C (commit_decision st c.approval_request_id (ok decided_of))
    unfolding settle_rows mirrored commit_decision decision_of_rows decided decision_audit_event
        record_from_row action_row decided_record decided_request approval_from_row request_row
    settled-mirrors = rw fetched_entry (rw fetched_request (rw updated-mirrors refl))

    pub taken-mirrors :
        parse_decision c.decision ≡ some d
        → (q.status == ApprovalRequestStatus.pending) ≡ true
        → decide_approval_request_row P R C (tables_of P R C st) c
          ≡ mirrored P R C (decide_approval_request P R st c)
    unfolding decide_approval_request_row decide_approval_request
    taken-mirrors parsed p =
        let pending : q.status ≡ ApprovalRequestStatus.pending = ground arith in
        let memory =
          decision_of-succeeds P R st c d q ((q.business_id, entry_of.key), entry_of.entry) parsed g
            own pending (find_own-entry P R Used st c q i u own entry_of) in
        ap (settle_rows P R C (tables_of P R C st) c) (check-passes parsed p)
        ∙ settled-mirrors
        ∙ ap (λ m. mirrored P R C (commit_decision st c.approval_request_id m)) (sym memory)
