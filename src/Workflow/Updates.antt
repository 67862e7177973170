-- ===== src/Workflow/Updates.antt =====
-- The listings and `decide_approval_request` of `SQLiteWorkflowActionLedgerStore` in
-- app/brain/workflow_action_ledger.py.
use orvo_agent.Base.{
  ℕ, String, Bool, not, ◌&&◌, Option, none, some, List, [], ◌∷◌, ◌==◌, string_eq, map, filter,
  if◌then◌else◌, Result, ok, raise, raise_if, ◌>>=◌, ◌>>◌, ◌<>◌,
}
use orvo_agent.Base.Sort.{sort_by, text_leb}
use orvo_agent.Redaction.Redactor.{Redactor}
use orvo_agent.Base.Offset.{from_z}
use orvo_agent.Platform.{iso, Platform, coerce_utc}
use orvo_agent.Workflow.Record.{
  WorkflowApprovalDecisionRecord, request_status_text, decision_audit_event,
  WorkflowActionLedgerError, WorkflowApprovalRequest, WorkflowActionLedgerRecord, safe_text,
  validate_approval_decision, ledger_error, decided_status, decision_states, ApprovalRequestStatus,
  ApprovalDecision, request_status_eq,
}
use orvo_agent.Workflow.Ledger.{ApprovalChoice}
use orvo_agent.Workflow.Sqlite.{
  json_loads_object, Tables, record_from_row, parse_iso_or_now, Codec, RequestRow, ActionRow,
}

-- `ORDER BY created_at, ledger_id`, which compares texts
unfoldable pub action_row_leb : ActionRow → ActionRow → Bool
unfolding text_leb
action_row_leb r s =
    if r.created_at == s.created_at
    then text_leb r.ledger_id s.ledger_id
    else text_leb r.created_at s.created_at

-- `ORDER BY requested_at, approval_request_id`
unfoldable pub request_row_leb : RequestRow → RequestRow → Bool
unfolding text_leb
request_row_leb q p =
    if q.requested_at == p.requested_at
    then text_leb q.approval_request_id p.approval_request_id
    else text_leb q.requested_at p.requested_at

-- `WHERE business_id = ? AND approval_request_id = ?`
unfoldable pub is_request : String → String → RequestRow → Bool
is_request b id q = q.business_id == b && q.approval_request_id == id

-- `WHERE business_id = ? AND ledger_id = ?`
unfoldable pub is_action : String → String → ActionRow → Bool
is_action b id r = r.business_id == b && r.ledger_id == id

-- `fetchone()` of the rows that meet a condition
unfoldable pub fetch_one : {A : Type 0} → (A → Bool) → List A → Option A
fetch_one p [] = none
fetch_one p (x ∷ xs) = if p x then some x else fetch_one p xs

-- `UPDATE ... WHERE`
unfoldable pub update_where : {A : Type 0} → (A → Bool) → (A → A) → List A → List A
update_where p f [] = []
update_where p f (x ∷ xs) = let rest = update_where p f xs in if p x then f x ∷ rest else x ∷ rest

module _ (P : Platform) (R : Redactor) (C : Codec) where
  -- `_parse_iso` of a column that may be null
  unfoldable pub parse_iso : Option String → Option ℕ
  parse_iso none = none
  parse_iso (some s) = if s == "" then none else some (C.fromisoformat (from_z s))

  -- `_approval_from_row`
  unfoldable pub approval_from_row : RequestRow → WorkflowApprovalRequest
  unfolding parse_iso parse_iso_or_now json_loads_object
  approval_from_row q = record {
    approval_request_id = q.approval_request_id;
    ledger_id = q.ledger_id;
    business_id = q.business_id;
    case_id = q.case_id;
    action_key = q.action_key;
    requester_ref = q.requester_ref;
    status = q.status;
    requested_at = parse_iso_or_now P R C q.requested_at;
    decided_at = parse_iso q.decided_at;
    decision_actor_ref = q.decision_actor_ref;
    decision_reason = q.decision_reason;
    metadata = json_loads_object P R C q.metadata_json;
  }

  -- `list_actions`
  unfoldable pub list_action_rows : Tables → String → List WorkflowActionLedgerRecord
  unfolding filter sort_by action_row_leb record_from_row
  list_action_rows T b =
      map (record_from_row P R C)
        (sort_by action_row_leb (filter (λ (r : ActionRow). r.business_id == b) T.actions))

  -- `list_approval_requests`
  unfoldable pub list_request_rows : Tables → String → List WorkflowApprovalRequest
  unfolding filter sort_by request_row_leb approval_from_row
  list_request_rows T b =
      map approval_from_row
        (sort_by request_row_leb (filter (λ (q : RequestRow). q.business_id == b) T.requests))

  -- the columns that the decision sets
  unfoldable pub decided_action_row : ApprovalDecision → ℕ → ActionRow → ActionRow
  decided_action_row d now r = record r {
    approval_state = (decision_states d).0;
    execution_state = (decision_states d).1;
    updated_at = iso P now;
  }

  unfoldable pub decided_request_row :
      ApprovalDecision → ℕ → Option String → Option String → RequestRow → RequestRow
  decided_request_row d now actor reason q = record q {
    status = decided_status d;
    decided_at = some (iso P now);
    decision_actor_ref = actor;
    decision_reason = reason;
  }

  -- `request_row is None`
  unfoldable pub found_request : Option RequestRow → Result WorkflowActionLedgerError RequestRow
  unfolding ledger_error
  found_request none =
      raise (ledger_error R "approval_request_not_found" "approval request not found")
  found_request (some row) = ok row

  -- `record_row is None`
  unfoldable pub found_row : Option ActionRow → Result WorkflowActionLedgerError (Unit {0})
  unfolding ledger_error
  found_row none =
      raise (ledger_error R "approval_record_not_found" "approval ledger record not found")
  found_row (some row) = ok tt

  -- the checks, with the decision and the request that were found
  unfoldable pub check_decision_row :
      Tables
      → ApprovalChoice
      → Result WorkflowActionLedgerError (ApprovalDecision × WorkflowApprovalRequest)
  unfolding validate_approval_decision found_request fetch_one is_request is_action
      approval_from_row ledger_error found_row
  check_decision_row T c = do
    d ← validate_approval_decision R c.decision
    row ← found_request (fetch_one (is_request c.business_id c.approval_request_id) T.requests)
    raise_if (not ((approval_from_row row).status == ApprovalRequestStatus.pending)) (
        ledger_error R "approval_request_already_decided"
          ("approval request already decided with status " <> request_status_text row.status))
    found_row (fetch_one (is_action c.business_id row.ledger_id) T.actions)
    ok (d, approval_from_row row)

  -- the UPDATE statements
  unfoldable pub decided_tables :
      Tables → ApprovalChoice → ApprovalDecision → WorkflowApprovalRequest → Tables
  unfolding update_where is_request is_action decided_action_row decided_request_row safe_text
      coerce_utc
  decided_tables T c d q =
      let now = coerce_utc P c.now in
      record {
        actions =
            update_where (is_action c.business_id q.ledger_id) (decided_action_row d now) T.actions;
        requests =
            update_where (is_request c.business_id c.approval_request_id)
              (decided_request_row d now (safe_text R (some c.actor_ref))
                (safe_text R (some c.reason)))
              T.requests;
      }

  -- What the two rows that are read back make of the answer; without them `_record_from_row` fails.
  unfoldable pub decision_of_rows :
      ApprovalChoice
      → ApprovalDecision
      → Option ActionRow
      → Option RequestRow
      → Option WorkflowApprovalDecisionRecord
  unfolding record_from_row approval_from_row decision_audit_event safe_text coerce_utc
  decision_of_rows c d (some r) (some q) =
      let entry = record_from_row P R C r in
      let request = approval_from_row q in
      some (record {
        entry = entry;
        approval_request = request;
        audit_event =
            decision_audit_event P R entry request d (safe_text R (some c.actor_ref))
              (safe_text R (some c.reason)) (coerce_utc P c.now);
        side_effects_executed = 0;
      })
  decision_of_rows c d _ _ = none

  -- the answer after the checks
  unfoldable pub settle_rows :
      Tables
      → ApprovalChoice
      → Result WorkflowActionLedgerError (ApprovalDecision × WorkflowApprovalRequest)
      → Result WorkflowActionLedgerError (Option WorkflowApprovalDecisionRecord) × Tables
  unfolding decided_tables decision_of_rows fetch_one is_action is_request
  settle_rows T c (raise e) = (raise e, T)
  settle_rows T c (ok (d, q)) =
      let U = decided_tables T c d q in
      (
        ok (
            decision_of_rows c d (fetch_one (is_action c.business_id q.ledger_id) U.actions)
              (fetch_one (is_request c.business_id c.approval_request_id) U.requests)),
        U,
      )

  -- `SQLiteWorkflowActionLedgerStore.decide_approval_request`
  unfoldable pub decide_approval_request_row :
      Tables
      → ApprovalChoice
      → Result WorkflowActionLedgerError (Option WorkflowApprovalDecisionRecord) × Tables
  unfolding settle_rows check_decision_row
  decide_approval_request_row T c = settle_rows T c (check_decision_row T c)
