-- ===== src/Workflow/Record.antt =====
-- The records and the vocabularies of app/brain/workflow_action_ledger.py, with its helpers.
use orvo_agent.Base.{[], ◌∷◌}
use orvo_agent.Base.Text.{text_prefix}
use orvo_agent.Base.{
  ℕ, String, Bool, Option, none, some, ◌<>◌, ◌==◌, string_eq, if◌then◌else◌, Eq, Result, ok, raise,
}
use orvo_agent.Value.{fields_of, Value, Fields, str, dict}
use orvo_agent.Redaction.Redactor.{dict_or, Redactor}
use orvo_agent.Platform.{iso, Platform, text_or_null}

pub data ApprovalState : Type 0 where
  not_required pending approved rejected cancelled : ApprovalState

pub data ExecutionState : Type 0 where
  dry_run suggestion_only blocked_approval_required skipped_duplicate : ExecutionState
  pending_execution executed failed : ExecutionState

pub data ApprovalRequestStatus : Type 0 where
  pending approved rejected cancelled : ApprovalRequestStatus

pub data ApprovalDecision : Type 0 where
  approved rejected : ApprovalDecision

pub data ActionSource : Type 0 where
  workflow manual_operator : ActionSource

pub ApprovalState-discrete : Discrete ApprovalState
ApprovalState-discrete = hlevel

instance unfoldable pub approval_state_eq : Eq ApprovalState
unfolding ApprovalState-discrete
approval_state_eq = record { dec = ApprovalState-discrete }

pub ExecutionState-discrete : Discrete ExecutionState
ExecutionState-discrete = hlevel

instance unfoldable pub execution_state_eq : Eq ExecutionState
unfolding ExecutionState-discrete
execution_state_eq = record { dec = ExecutionState-discrete }

pub ApprovalRequestStatus-discrete : Discrete ApprovalRequestStatus
ApprovalRequestStatus-discrete = hlevel

instance unfoldable pub request_status_eq : Eq ApprovalRequestStatus
unfolding ApprovalRequestStatus-discrete
request_status_eq = record { dec = ApprovalRequestStatus-discrete }

-- The literals of the source.
abbrev pub approval_state_text : ApprovalState → String
approval_state_text ApprovalState.not_required = "not_required"
approval_state_text ApprovalState.pending = "pending"
approval_state_text ApprovalState.approved = "approved"
approval_state_text ApprovalState.rejected = "rejected"
approval_state_text ApprovalState.cancelled = "cancelled"

abbrev pub execution_state_text : ExecutionState → String
execution_state_text dry_run = "dry_run"
execution_state_text suggestion_only = "suggestion_only"
execution_state_text blocked_approval_required = "blocked_approval_required"
execution_state_text skipped_duplicate = "skipped_duplicate"
execution_state_text pending_execution = "pending_execution"
execution_state_text executed = "executed"
execution_state_text failed = "failed"

abbrev pub request_status_text : ApprovalRequestStatus → String
request_status_text ApprovalRequestStatus.pending = "pending"
request_status_text ApprovalRequestStatus.approved = "approved"
request_status_text ApprovalRequestStatus.rejected = "rejected"
request_status_text ApprovalRequestStatus.cancelled = "cancelled"

abbrev pub decision_text : ApprovalDecision → String
decision_text ApprovalDecision.approved = "approved"
decision_text ApprovalDecision.rejected = "rejected"

abbrev pub source_text : ActionSource → String
source_text workflow = "workflow"
source_text manual_operator = "manual_operator"

pub record WorkflowActionLedgerRecord : Type 0 where
  pub ledger_id : String
  pub business_id : String
  pub case_id : String
  pub action_key : String
  pub source : ActionSource
  pub actor_ref : Option String
  pub idempotency_key : String
  pub approval_state : ApprovalState
  pub execution_state : ExecutionState
  pub params : Fields
  pub rule_id : Option String
  pub approval_request_id : Option String
  pub created_at : ℕ
  pub updated_at : ℕ

pub record WorkflowApprovalRequest : Type 0 where
  pub approval_request_id : String
  pub ledger_id : String
  pub business_id : String
  pub case_id : String
  pub action_key : String
  pub requester_ref : Option String
  pub status : ApprovalRequestStatus
  pub requested_at : ℕ
  pub decided_at : Option ℕ
  pub decision_actor_ref : Option String
  pub decision_reason : Option String
  pub metadata : Fields

-- The field `record` of the source is `entry` here.
pub record WorkflowActionLedgerWrite : Type 0 where
  pub entry : WorkflowActionLedgerRecord
  pub created : Bool
  pub approval_request : Option WorkflowApprovalRequest

pub record WorkflowApprovalDecisionRecord : Type 0 where
  pub entry : WorkflowActionLedgerRecord
  pub approval_request : WorkflowApprovalRequest
  pub audit_event : Value
  pub side_effects_executed : ℕ

pub record WorkflowActionLedgerError : Type 0 where
  pub code : String
  pub message : String

-- `_validate_approval_decision` before its error
unfoldable pub parse_decision : String → Option ApprovalDecision
parse_decision s =
    if s == "approved"
    then some ApprovalDecision.approved
    else if s == "rejected"
    then some ApprovalDecision.rejected
    else none

-- `_decision_states`
abbrev pub decision_states : ApprovalDecision → ApprovalState × ExecutionState
decision_states ApprovalDecision.approved = (ApprovalState.approved, pending_execution)
decision_states ApprovalDecision.rejected = (ApprovalState.rejected, failed)

-- the status of a request that was decided so
abbrev pub decided_status : ApprovalDecision → ApprovalRequestStatus
decided_status ApprovalDecision.approved = ApprovalRequestStatus.approved
decided_status ApprovalDecision.rejected = ApprovalRequestStatus.rejected

module _ (R : Redactor) where
  -- `WorkflowActionLedgerError(code, message)`
  unfoldable pub ledger_error : String → String → WorkflowActionLedgerError
  ledger_error code message = record {
    code = code;
    message = if R.text message == "" then "Workflow action ledger error" else R.text message;
  }

  -- `redact_text(value) if value else None`
  unfoldable pub safe_text : Option String → Option String
  safe_text none = none
  safe_text (some s) = if s == "" then none else some (R.text s)

  -- the error of `_validate_approval_decision`
  unfoldable pub known_decision :
      Option ApprovalDecision → Result WorkflowActionLedgerError ApprovalDecision
  unfolding ledger_error
  known_decision (some d) = ok d
  known_decision none =
      raise
        (ledger_error "invalid_approval_decision" "approval decision must be approved or rejected")

  -- `_validate_approval_decision`
  unfoldable pub validate_approval_decision :
      String → Result WorkflowActionLedgerError ApprovalDecision
  unfolding known_decision parse_decision
  validate_approval_decision s = known_decision (parse_decision s)

-- `_stable_id`, over `sha256`
unfoldable pub stable_id : (String → String) → String → String → String → String
unfolding text_prefix
stable_id sha256 prefix business_id idempotency_key =
    prefix
    <> "/"
    <> business_id
    <> "/"
    <> text_prefix 16 (sha256 (business_id <> ":" <> idempotency_key))

module _ (P : Platform) (R : Redactor) where
  -- `_decision_audit_event`
  unfoldable pub decision_audit_event :
      WorkflowActionLedgerRecord
      → WorkflowApprovalRequest
      → ApprovalDecision
      → Option String
      → Option String
      → ℕ
      → Value
  decision_audit_event r q d actor_ref reason now =
      let event : Value = dict (
        fields_of (
          ("event_type", str "workflow_approval_decided")
          ∷ ("business_id", str r.business_id)
          ∷ ("approval_request_id", str q.approval_request_id)
          ∷ ("ledger_id", str r.ledger_id)
          ∷ ("case_id", str r.case_id)
          ∷ ("action_key", str r.action_key)
          ∷ ("decision", str (decision_text d))
          ∷ ("approval_state", str (approval_state_text r.approval_state))
          ∷ ("execution_state", str (execution_state_text r.execution_state))
          ∷ ("actor_ref", text_or_null actor_ref)
          ∷ ("reason", text_or_null reason)
          ∷ ("created_at", str (iso P now))
          ∷ [])) in
      dict_or (R.secrets event) event
