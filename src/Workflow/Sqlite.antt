-- ===== src/Workflow/Sqlite.antt =====
-- `record_planned_action` of `SQLiteWorkflowActionLedgerStore` in app/brain/workflow_action_ledger.py,
-- over tables as lists of rows. `Codec` stands for `json` and `datetime.fromisoformat`.
use orvo_agent.Base.{
  ℕ, String, Bool, true, false, Option, none, some, List, [], ◌∷◌, ◌++◌, ◌==◌, string_eq,
  if◌then◌else◌, Result, ok, raise,
}
use orvo_agent.Value.{Value, Fields, dict, end}
use orvo_agent.Redaction.Redactor.{Redactor, dict_or_empty}
use orvo_agent.Base.Offset.{from_z}
use orvo_agent.Platform.{iso, Platform}
use orvo_agent.Workflow.Record.{
  WorkflowActionLedgerWrite, WorkflowApprovalRequest, WorkflowActionLedgerRecord,
  ApprovalRequestStatus, ActionSource, ApprovalState, ExecutionState,
}
use orvo_agent.Workflow.Ledger.{planned_request_id, planned_record, planned_request, PlannedAction}

pub record Codec : Type 0 where
  -- `json.dumps(value, sort_keys=True, separators=(",", ":"), default=str)`
  pub dumps : Value → String
  pub loads : String → Value
  -- `fromisoformat`, in UTC, of a text that `isoformat` writes; the tables hold no other times, and what
  -- the code raises on other texts is not modelled
  pub fromisoformat : String → ℕ

-- A row of workflow_action_ledger.
pub record ActionRow : Type 0 where
  pub ledger_id : String
  pub business_id : String
  pub case_id : String
  pub action_key : String
  pub source : ActionSource
  pub actor_ref : Option String
  pub idempotency_key : String
  pub approval_state : ApprovalState
  pub execution_state : ExecutionState
  pub params_json : String
  pub rule_id : Option String
  pub approval_request_id : Option String
  pub created_at : String
  pub updated_at : String

-- A row of workflow_approval_requests, as it is inserted.
pub record RequestRow : Type 0 where
  pub approval_request_id : String
  pub ledger_id : String
  pub business_id : String
  pub case_id : String
  pub action_key : String
  pub requester_ref : Option String
  pub status : ApprovalRequestStatus
  pub requested_at : String
  pub decided_at : Option String
  pub decision_actor_ref : Option String
  pub decision_reason : Option String
  pub metadata_json : String

pub record Tables : Type 0 where
  pub actions : List ActionRow
  pub requests : List RequestRow

-- What the store raises: the KeyError of a record that is not there, or the IntegrityError of a row
-- that breaks a key.
pub data TableError : Type 0 where
  key_error integrity_error : TableError

-- `SELECT * FROM workflow_action_ledger WHERE business_id = ? AND idempotency_key = ?`
unfoldable pub select_action : List ActionRow → String → String → Option ActionRow
select_action [] b k = none
select_action (r ∷ rows) b k =
    let rest = select_action rows b k in
    if r.business_id == b then (if r.idempotency_key == k then some r else rest) else rest

-- A row with the primary key or with the unique pair is there.
unfoldable pub conflicts : List ActionRow → ActionRow → Bool
conflicts [] row = false
conflicts (r ∷ rows) row =
    let rest = conflicts rows row in
    if r.ledger_id == row.ledger_id
    then true
    else if r.business_id == row.business_id
    then (if r.idempotency_key == row.idempotency_key then true else rest)
    else rest

-- A request with the primary key is there.
unfoldable pub has_request : List RequestRow → String → Bool
has_request [] id = false
has_request (q ∷ rows) id =
    let rest = has_request rows id in if q.approval_request_id == id then true else rest

module _ (P : Platform) (R : Redactor) (C : Codec) where
  -- `_json_dumps`
  unfoldable pub json_dumps : Fields → String
  json_dumps d = C.dumps (R.secrets (dict d))

  -- `_json_loads_object`
  unfoldable pub json_loads_object : String → Fields
  json_loads_object s = if s == "" then end else dict_or_empty (C.loads s)

  -- `_parse_iso(value) or _now_utc()`
  unfoldable pub parse_iso_or_now : String → ℕ
  parse_iso_or_now s = if s == "" then P.now else C.fromisoformat (from_z s)

  -- the row that is inserted for a record
  unfoldable pub action_row : WorkflowActionLedgerRecord → ActionRow
  unfolding json_dumps
  action_row r = record {
    ledger_id = r.ledger_id;
    business_id = r.business_id;
    case_id = r.case_id;
    action_key = r.action_key;
    source = r.source;
    actor_ref = r.actor_ref;
    idempotency_key = r.idempotency_key;
    approval_state = r.approval_state;
    execution_state = r.execution_state;
    params_json = json_dumps r.params;
    rule_id = r.rule_id;
    approval_request_id = r.approval_request_id;
    created_at = iso P r.created_at;
    updated_at = iso P r.updated_at;
  }

  -- a time that may be missing
  abbrev iso_or_null : Option ℕ → Option String
  iso_or_null none = none
  iso_or_null (some t) = some (iso P t)

  -- the row that is inserted for a request
  unfoldable pub request_row : WorkflowApprovalRequest → RequestRow
  unfolding json_dumps
  request_row q = record {
    approval_request_id = q.approval_request_id;
    ledger_id = q.ledger_id;
    business_id = q.business_id;
    case_id = q.case_id;
    action_key = q.action_key;
    requester_ref = q.requester_ref;
    status = q.status;
    requested_at = iso P q.requested_at;
    decided_at = iso_or_null q.decided_at;
    decision_actor_ref = q.decision_actor_ref;
    decision_reason = q.decision_reason;
    metadata_json = json_dumps q.metadata;
  }

  -- `_record_from_row`
  unfoldable pub record_from_row : ActionRow → WorkflowActionLedgerRecord
  unfolding json_loads_object parse_iso_or_now
  record_from_row r = record {
    ledger_id = r.ledger_id;
    business_id = r.business_id;
    case_id = r.case_id;
    action_key = r.action_key;
    source = r.source;
    actor_ref = r.actor_ref;
    idempotency_key = r.idempotency_key;
    approval_state = r.approval_state;
    execution_state = r.execution_state;
    params = json_loads_object r.params_json;
    rule_id = r.rule_id;
    approval_request_id = r.approval_request_id;
    created_at = parse_iso_or_now r.created_at;
    updated_at = parse_iso_or_now r.updated_at;
  }

  abbrev pub TableAnswer : Type 0
  TableAnswer = Result TableError WorkflowActionLedgerWrite × Tables

  -- `_get_action_by_idempotency_key` on the tables, and the return
  unfoldable pub answer_with :
      Tables → Bool → Option WorkflowApprovalRequest → Option ActionRow → TableAnswer
  unfolding record_from_row
  answer_with T created request none = (raise key_error, T)
  answer_with T created request (some row) = (
    ok (record { entry = record_from_row row; created = created; approval_request = request }),
    T,
  )

  -- the INSERT of the request, if the action needs one; an error rolls the transaction back
  unfoldable pub insert_request :
      Tables → PlannedAction → List ActionRow → Option String → TableAnswer
  unfolding answer_with request_row select_action has_request planned_request
  insert_request T a actions none =
      answer_with (record T { actions = actions }) true none
        (select_action actions a.business_id a.idempotency_key)
  insert_request T a actions (some id) =
      if has_request T.requests id
      then (raise integrity_error, T)
      else answer_with
          (record {
            actions = actions;
            requests = T.requests ++ (request_row (planned_request P R a id) ∷ []);
          })
          true (some (planned_request P R a id))
          (select_action actions a.business_id a.idempotency_key)

  -- `SQLiteWorkflowActionLedgerStore.record_planned_action`
  unfoldable pub record_planned_action_row : Tables → PlannedAction → TableAnswer
  unfolding insert_request answer_with conflicts select_action action_row planned_record
      planned_request_id
  record_planned_action_row T a =
      let row = action_row (planned_record P R a) in
      if conflicts T.actions row
      then answer_with T false none (select_action T.actions a.business_id a.idempotency_key)
      else insert_request T a (T.actions ++ (row ∷ [])) (planned_request_id P R a)
