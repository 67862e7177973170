-- ===== src/Workflow/Ledger.antt =====
-- `InMemoryWorkflowActionLedgerStore` of app/brain/workflow_action_ledger.py.
use orvo_agent.Base.{
  ℕ, filter, not, ◌&&◌, ◌>>=◌, ◌>>◌, [], ◌∷◌, string_eq, ◌<>◌, ◌==◌, none, some, raise_if, raise,
  ok, List, Bool, true, false, Option, Result, String, if◌then◌else◌,
}
use orvo_agent.Base.{pair_eq}
use orvo_agent.Base.Dict
use orvo_agent.Base.Dict.{Dict, values}
use orvo_agent.Value.{Fields, str, fields_of}
use orvo_agent.Model.{Datetime}
use orvo_agent.Redaction.Redactor.{Redactor, safe_metadata}
use orvo_agent.Platform.{Platform, coerce_utc}
use orvo_agent.Workflow.Record.{
  request_status_text, decided_status, decision_states, ApprovalState, ApprovalRequestStatus,
  safe_text, source_text, WorkflowActionLedgerError, validate_approval_decision,
  decision_audit_event, ApprovalDecision, ledger_error, WorkflowActionLedgerWrite, stable_id,
  WorkflowApprovalDecisionRecord, ActionSource, ExecutionState, WorkflowActionLedgerRecord,
  WorkflowApprovalRequest, request_status_eq,
}

-- `_actions` and `_approvals`
pub record ActionStore : Type 0 where
  pub actions : Dict (String × String) WorkflowActionLedgerRecord
  pub approvals : Dict String WorkflowApprovalRequest

-- The arguments of `record_planned_action`.
pub record PlannedAction : Type 0 where
  pub business_id : String
  pub case_id : String
  pub action_key : String
  pub idempotency_key : String
  pub execution_state : ExecutionState
  pub approval_required : Bool
  pub source : ActionSource
  pub actor_ref : Option String
  pub params : Fields
  pub rule_id : Option String
  pub now : Option Datetime

-- The arguments of `decide_approval_request`.
pub record ApprovalChoice : Type 0 where
  pub business_id : String
  pub approval_request_id : String
  pub decision : String
  pub actor_ref : String
  pub reason : String
  pub now : Option Datetime

-- `{"source": source, "rule_id": rule_id} if rule_id else {"source": source}`
unfoldable pub request_metadata : ActionSource → Option String → Fields
request_metadata s none = fields_of (("source", str (source_text s)) ∷ [])
request_metadata s (some rule_id) =
    if rule_id == ""
    then fields_of (("source", str (source_text s)) ∷ [])
    else fields_of (("source", str (source_text s)) ∷ ("rule_id", str rule_id) ∷ [])

-- The first action of the business with the ledger id, with its key.
unfoldable pub find_action :
    Dict (String × String) WorkflowActionLedgerRecord
    → String
    → String
    → Option ((String × String) × WorkflowActionLedgerRecord)
find_action [] business_id ledger_id = none
find_action ((key, r) ∷ actions) business_id ledger_id =
    if r.business_id == business_id && r.ledger_id == ledger_id
    then some (key, r)
    else find_action actions business_id ledger_id

-- What a decision writes and returns.
pub record Decided : Type 0 where
  pub key : String × String
  pub entry : WorkflowActionLedgerRecord
  pub request : WorkflowApprovalRequest
  pub result : WorkflowApprovalDecisionRecord

abbrev pub of_business : String → WorkflowActionLedgerRecord → Bool
of_business b r = r.business_id == b

abbrev pub request_of_business : String → WorkflowApprovalRequest → Bool
request_of_business b q = q.business_id == b

unfoldable pub list_actions : ActionStore → String → List WorkflowActionLedgerRecord
unfolding filter
list_actions st business_id = filter (of_business business_id) (values st.actions)

unfoldable pub list_approval_requests : ActionStore → String → List WorkflowApprovalRequest
unfolding filter
list_approval_requests st business_id =
    filter (request_of_business business_id) (values st.approvals)

module _ (R : Redactor) where
  -- `request is None or request.business_id != business_id`
  unfoldable pub scoped_request :
      Option WorkflowApprovalRequest
      → String
      → Result WorkflowActionLedgerError WorkflowApprovalRequest
  unfolding ledger_error
  scoped_request none business_id =
      raise (ledger_error R "approval_request_not_found" "approval request not found")
  scoped_request (some q) business_id =
      if q.business_id == business_id
      then ok q
      else raise (ledger_error R "approval_request_not_found" "approval request not found")

  -- `record_key is None`
  unfoldable pub found_action :
      Option ((String × String) × WorkflowActionLedgerRecord)
      → Result WorkflowActionLedgerError ((String × String) × WorkflowActionLedgerRecord)
  unfolding ledger_error
  found_action none =
      raise (ledger_error R "approval_record_not_found" "approval ledger record not found")
  found_action (some pair) = ok pair

-- the `replace` of the record and of the request
unfoldable pub decided_record :
    ApprovalDecision → ℕ → WorkflowActionLedgerRecord → WorkflowActionLedgerRecord
decided_record d now r = record r {
  approval_state = (decision_states d).0;
  execution_state = (decision_states d).1;
  updated_at = now;
}

unfoldable pub decided_request :
    ApprovalDecision
    → ℕ
    → Option String
    → Option String
    → WorkflowApprovalRequest
    → WorkflowApprovalRequest
decided_request d now actor_ref reason q = record q {
  status = decided_status d;
  decided_at = some now;
  decision_actor_ref = actor_ref;
  decision_reason = reason;
}

-- the writes of `decide_approval_request`
unfoldable pub commit_decision :
    ActionStore
    → String
    → Result WorkflowActionLedgerError Decided
    → Result WorkflowActionLedgerError WorkflowApprovalDecisionRecord × ActionStore
commit_decision st id (raise e) = (raise e, st)
commit_decision st id (ok w) = (
  ok w.result,
  record {
    actions = Dict.put st.actions w.key w.entry;
    approvals = Dict.put st.approvals id w.request;
  },
)

module _ (P : Platform) (R : Redactor) where
  -- the id of the request for an action, if it needs one
  unfoldable pub planned_request_id : PlannedAction → Option String
  unfolding stable_id
  planned_request_id a =
      if a.approval_required
      then some (stable_id P.sha256 "workflow-approval" a.business_id a.idempotency_key)
      else none

  -- the record that `record_planned_action` stores
  unfoldable pub planned_record : PlannedAction → WorkflowActionLedgerRecord
  unfolding stable_id planned_request_id safe_text coerce_utc safe_metadata
  planned_record a = record {
    ledger_id = stable_id P.sha256 "workflow-action" a.business_id a.idempotency_key;
    business_id = a.business_id;
    case_id = a.case_id;
    action_key = a.action_key;
    source = a.source;
    actor_ref = safe_text R a.actor_ref;
    idempotency_key = a.idempotency_key;
    approval_state =
        if a.approval_required then ApprovalState.pending else ApprovalState.not_required;
    execution_state = a.execution_state;
    params = safe_metadata R a.params;
    rule_id = a.rule_id;
    approval_request_id = planned_request_id a;
    created_at = coerce_utc P a.now;
    updated_at = coerce_utc P a.now;
  }

  -- the request that it stores under the id
  unfoldable pub planned_request : PlannedAction → String → WorkflowApprovalRequest
  unfolding stable_id safe_text coerce_utc request_metadata
  planned_request a id = record {
    approval_request_id = id;
    ledger_id = stable_id P.sha256 "workflow-action" a.business_id a.idempotency_key;
    business_id = a.business_id;
    case_id = a.case_id;
    action_key = a.action_key;
    requester_ref = safe_text R a.actor_ref;
    status = ApprovalRequestStatus.pending;
    requested_at = coerce_utc P a.now;
    decided_at = none;
    decision_actor_ref = none;
    decision_reason = none;
    metadata = request_metadata a.source a.rule_id;
  }

  -- the writes of `record_planned_action`
  unfoldable pub record_new :
      ActionStore → PlannedAction → Option String → WorkflowActionLedgerWrite × ActionStore
  unfolding planned_record planned_request
  record_new st a none = (
    record { entry = planned_record a; created = true; approval_request = none },
    record st {
      actions = Dict.put st.actions (a.business_id, a.idempotency_key) (planned_record a);
    },
  )
  record_new st a (some id) = (
    record {
      entry = planned_record a;
      created = true;
      approval_request = some (planned_request a id);
    },
    record {
      actions = Dict.put st.actions (a.business_id, a.idempotency_key) (planned_record a);
      approvals = Dict.put st.approvals id (planned_request a id);
    },
  )

  -- the test for an action with the key
  unfoldable pub record_or_reuse :
      ActionStore
      → PlannedAction
      → Option WorkflowActionLedgerRecord
      → WorkflowActionLedgerWrite × ActionStore
  unfolding record_new planned_request_id
  record_or_reuse st a (some existing) =
      (record { entry = existing; created = false; approval_request = none }, st)
  record_or_reuse st a none = record_new st a (planned_request_id a)

  unfoldable pub record_planned_action :
      ActionStore → PlannedAction → WorkflowActionLedgerWrite × ActionStore
  unfolding record_or_reuse
  record_planned_action st a =
      record_or_reuse st a (Dict.get st.actions (a.business_id, a.idempotency_key))

  -- what is written and returned, once the record is found
  unfoldable pub decided :
      ApprovalChoice
      → ApprovalDecision
      → WorkflowApprovalRequest
      → (String × String) × WorkflowActionLedgerRecord
      → Decided
  unfolding decided_record decided_request decision_audit_event safe_text coerce_utc
  decided c d q (key, r) =
      let now = coerce_utc P c.now in
      let actor = safe_text R (some c.actor_ref) in
      let reason = safe_text R (some c.reason) in
      let entry = decided_record d now r in
      let request = decided_request d now actor reason q in
      record {
        key = key;
        entry = entry;
        request = request;
        result = record {
          entry = entry;
          approval_request = request;
          audit_event = decision_audit_event P R entry request d actor reason now;
          side_effects_executed = 0;
        };
      }

  -- `decide_approval_request` before its writes
  unfoldable pub decision_of :
      ActionStore → ApprovalChoice → Result WorkflowActionLedgerError Decided
  unfolding scoped_request found_action decided validate_approval_decision find_action ledger_error
  decision_of st c = do
    d ← validate_approval_decision R c.decision
    q ← scoped_request R (Dict.get st.approvals c.approval_request_id) c.business_id
    raise_if (not (q.status == ApprovalRequestStatus.pending)) (
        ledger_error R "approval_request_already_decided"
          ("approval request already decided with status " <> request_status_text q.status))
    pair ← found_action R (find_action st.actions c.business_id q.ledger_id)
    ok (decided c d q pair)

  unfoldable pub decide_approval_request :
      ActionStore
      → ApprovalChoice
      → Result WorkflowActionLedgerError WorkflowApprovalDecisionRecord × ActionStore
  unfolding commit_decision decision_of
  decide_approval_request st c = commit_decision st c.approval_request_id (decision_of st c)
