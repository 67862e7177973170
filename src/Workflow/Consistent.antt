-- ===== src/Workflow/Consistent.antt =====
-- The invariant of the action ledger: records stand under their business and idempotency key, and
-- each approval request has its record, in the same state.
use orvo_agent.Base.{string_eq, pair_eq, some, String, ◌≡◌, Never}
use orvo_agent.Base.Dict
use orvo_agent.Base.Dict.{Dict, NodupKeys, get-put}
use orvo_agent.Workflow.Record.{
  WorkflowApprovalRequest, WorkflowActionLedgerRecord, stable_id, ApprovalState,
  ApprovalRequestStatus, ExecutionState, pending_execution, failed,
}
use orvo_agent.Workflow.Ledger.{ActionStore}

-- What the status of a request says of its record.
abbrev pub Agrees : ApprovalRequestStatus → ApprovalState → ExecutionState → Type 0
Agrees ApprovalRequestStatus.pending s x = s ≡ ApprovalState.pending
Agrees ApprovalRequestStatus.approved s x = (s ≡ ApprovalState.approved) × (x ≡ pending_execution)
Agrees ApprovalRequestStatus.rejected s x = (s ≡ ApprovalState.rejected) × (x ≡ failed)
Agrees ApprovalRequestStatus.cancelled s x = Never

-- The ids of the keys in use are distinct: no two of them have hashes that start alike.
abbrev pub DistinctIds : (String → String) → (String → String → Type 0) → Type 0
DistinctIds sha256 Used =
    (prefix b c k j : String)
    → Used b k
    → Used c j
    → stable_id sha256 prefix b k ≡ stable_id sha256 prefix c j
    → (b ≡ c) × (k ≡ j)

-- A record under its key.
pub record IsFiled (sha256 : String → String) (Used : String → String → Type 0) (b k : String)
    (r : WorkflowActionLedgerRecord) : Type 0 where
  pub business_id : r.business_id ≡ b
  pub ledger_id : r.ledger_id ≡ stable_id sha256 "workflow-action" b k
  pub idempotency_key : r.idempotency_key ≡ k
  pub used : Used b k

-- The record that a request is about, for a request under its id.
pub record HasEntry (sha256 : String → String) (st : ActionStore) (id : String)
    (q : WorkflowApprovalRequest) : Type 0 where
  pub key : String
  pub entry : WorkflowActionLedgerRecord
  pub found : Dict.get st.actions (q.business_id, key) ≡ some entry
  pub id_eq : id ≡ stable_id sha256 "workflow-approval" q.business_id key
  pub own_id : q.approval_request_id ≡ id
  pub ledger_id : q.ledger_id ≡ entry.ledger_id
  pub case_id : q.case_id ≡ entry.case_id
  pub action_key : q.action_key ≡ entry.action_key
  pub request_id : entry.approval_request_id ≡ some id
  pub agrees : Agrees q.status entry.approval_state entry.execution_state

pub record Consistent (sha256 : String → String) (Used : String → String → Type 0)
    (st : ActionStore) : Type 0 where
  pub nodup : NodupKeys st.actions
  pub nodup_requests : NodupKeys st.approvals
  pub filed :
      (b k : String) (r : WorkflowActionLedgerRecord)
      → Dict.get st.actions (b, k) ≡ some r
      → IsFiled sha256 Used b k r
  pub entries :
      (id : String) (q : WorkflowApprovalRequest)
      → Dict.get st.approvals id ≡ some q
      → HasEntry sha256 st id q

-- A request keeps its record when the store changes elsewhere.
pub HasEntry-moved :
    (sha256 : String → String) (st after : ActionStore) (id : String) (q : WorkflowApprovalRequest)
    → (e : HasEntry sha256 st id q) → Dict.get after.actions (q.business_id, e.key) ≡ some e.entry
    → HasEntry sha256 after id q
HasEntry-moved sha256 st after id q e h = record {
  key = e.key;
  entry = e.entry;
  found = h;
  id_eq = e.id_eq;
  own_id = e.own_id;
  ledger_id = e.ledger_id;
  case_id = e.case_id;
  action_key = e.action_key;
  request_id = e.request_id;
  agrees = e.agrees;
}
