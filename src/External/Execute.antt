-- ===== src/External/Execute.antt =====
-- `execute_external_action` of app/brain/external_actions.py.
use orvo_agent.Base.{
  ℕ, String, not, ◌&&◌, Option, none, some, List, [], ◌∷◌, ◌==◌, string_eq, if◌then◌else◌, contains,
  ◌<>◌, Result, ok, raise, ◌>>=◌,
}
use orvo_agent.Value.{Value, Fields, dict}
use orvo_agent.Model.{is_set, Error, Datetime}
use orvo_agent.Redaction.Engine.{Engine}
use orvo_agent.Platform.{Platform, coerce_utc}
use orvo_agent.Run.Record.{validate_outcome, ConnectorStatus, RunRecord, ConnectorRunOutcome}
use orvo_agent.Run.Ledger.{LedgerOps, update_stored, with_outcome}
use orvo_agent.External.Request.{
  provider_response_ref, scoped_run, approval_state, result_projection, reserved_core_toolkits,
  validate_request, find_approved_workflow_action, external_error, ledger_metadata,
  ExternalActionProvider, is_allowed, has_executed_key, Builtins, plain_facts, AuditFacts,
  ExternalActionError, ExternalActionRequest,
}
use orvo_agent.Workflow.Record.{WorkflowActionLedgerRecord}

-- What the call raises: an error of the boundary, or one of the run ledger.
pub data ExternalFailure : Type 0 where
  boundary : ExternalActionError → ExternalFailure
  ledger : Error → ExternalFailure

-- What the client did: it raised, or it returned a value.
pub data ClientAnswer : Type 0 where
  failed : ClientAnswer
  returned : Value → ClientAnswer

-- The run ledger, and the requests that reached the client, each with the ledger of that time.
pub record World (St : Type 0) : Type 0 where
  pub runs : St
  pub requests : List (St × ExternalActionRequest)

-- the client, which may answer by what it was asked before
abbrev pub ExternalActionClient : Type 0 → Type 0
ExternalActionClient St = List (St × ExternalActionRequest) → ExternalActionRequest → ClientAnswer

-- A reason not to act: how it is audited, and the error.
pub record Refusal : Type 0 where
  pub facts : AuditFacts
  pub summary : String
  pub code : String
  pub reason : String

abbrev pub planned_facts : AuditFacts
planned_facts = record plain_facts { execution_state = some "attempt_planned_before_side_effect" }

-- the facts of a success
abbrev pub executed_facts : Fields → String → AuditFacts
executed_facts response ref = record plain_facts {
  execution_state = some "executed";
  response = some response;
  response_ref = some ref;
}

abbrev duplicate_refusal : Refusal
duplicate_refusal = record {
  facts = record plain_facts { idempotency_decision = "duplicate" };
  summary = "external action duplicate idempotency key";
  code = "external_action_duplicate";
  reason = "external action idempotency key was already executed";
}

abbrev reserved_refusal : String → Refusal
reserved_refusal toolkit = record {
  facts = record plain_facts { allowlist_decision = "denied"; reserved_toolkit = some toolkit };
  summary = "external action toolkit is reserved for Orvo core connectors";
  code = "external_action_toolkit_reserved";
  reason = "external action toolkit is reserved for Orvo core connectors";
}

abbrev allowlist_refusal : Refusal
allowlist_refusal = record {
  facts = record plain_facts { allowlist_decision = "denied" };
  summary = "external action not allowed by Orvo allowlist";
  code = "external_action_not_allowed";
  reason = "external action is not allowed by Orvo policy";
}

abbrev approval_refusal : Refusal
approval_refusal = record {
  facts = plain_facts;
  summary = "external write action requires approved workflow action before execution";
  code = "external_action_approval_required";
  reason = "external write action requires approved workflow action before side effects";
}

-- `request.toolkit.lower().strip()`
unfoldable pub normalized_toolkit : Platform → Builtins → ExternalActionRequest → String
normalized_toolkit P B q = P.strip (B.lower q.toolkit)

-- The four tests before the client is called, in their order.
unfoldable pub refusal_of :
    Platform
    → Builtins
    → ExternalActionProvider
    → ExternalActionRequest
    → RunRecord
    → Option WorkflowActionLedgerRecord
    → Option Refusal
unfolding has_executed_key is_allowed normalized_toolkit
refusal_of P B p q run approved =
    if has_executed_key run.connector_outcomes q.idempotency_key
    then some duplicate_refusal
    else if contains reserved_core_toolkits (normalized_toolkit P B q)
    then some (reserved_refusal (normalized_toolkit P B q))
    else if not (is_allowed p q)
    then some allowlist_refusal
    else if q.operation_type == "write" && not (is_set approved)
    then some approval_refusal
    else none

-- the `ConnectorRunOutcome` of `_append_audit_outcome`, before its validators
unfoldable pub audit_outcome :
    ExternalActionProvider
    → ExternalActionRequest
    → ConnectorStatus
    → ℕ
    → Fields
    → Option String
    → ConnectorRunOutcome
audit_outcome p q status now metadata summary = record {
  connector_id = "external-action:" <> p.provider_name <> ":" <> q.toolkit <> ":" <> q.action_key;
  connector_type = "external_action";
  status = status;
  health_state = none;
  started_at = now;
  finished_at = some now;
  metrics_count = none;
  error_summary = summary;
  evidence_refs = [];
  metadata = metadata;
}

-- the append, once the outcome is validated
unfoldable pub append_outcome :
    {St : Type 0}
    → LedgerOps St
    → St
    → String
    → Result Error ConnectorRunOutcome
    → Result Error RunRecord × St
unfolding update_stored with_outcome
append_outcome S st id (raise e) = (raise e, st)
append_outcome S st id (ok o) = update_stored S st id (with_outcome o)

module _ {St : Type 0} (S : LedgerOps St) (E : Engine) (P : Platform) (B : Builtins)
    (p : ExternalActionProvider) where
  -- `_append_audit_outcome` of `_ledger_metadata`
  unfoldable pub append_audit :
      St
      → ExternalActionRequest
      → ConnectorStatus
      → ℕ
      → String
      → AuditFacts
      → Option String
      → Result Error RunRecord × St
  unfolding append_outcome audit_outcome ledger_metadata validate_outcome
  append_audit st q status now state facts summary = append_outcome S st q.run_id (
      validate_outcome E
        (audit_outcome p q status now (ledger_metadata E B p q state facts) summary))

  abbrev pub Answer : Type 0
  Answer = Result ExternalFailure Value × World St

  -- an error of the ledger, or what was to be raised or returned
  unfoldable pub after_audit :
      List (St × ExternalActionRequest)
      → Result ExternalFailure Value
      → Result Error RunRecord × St
      → Answer
  after_audit requests answer (raise e, st) =
      (raise (ledger e), record { runs = st; requests = requests })
  after_audit requests answer (ok r, st) = (answer, record { runs = st; requests = requests })

  -- what follows the client's answer
  unfoldable pub conclude : World St → ExternalActionRequest → ℕ → String → ClientAnswer → Answer
  unfolding after_audit append_audit external_error result_projection provider_response_ref
  conclude w q now state (returned (dict response)) =
      let ref = provider_response_ref B p q response in
      after_audit w.requests (ok (result_projection E p q state response ref)) (
        append_audit w.runs q ConnectorStatus.succeeded now state (executed_facts response ref)
          none)
  conclude w q now state _ =
      after_audit w.requests
        (raise (
          boundary (external_error E "external_action_provider_failed" "external provider failed")))
        (append_audit w.runs q ConnectorStatus.failed now state plain_facts
          (some "external provider failed"))

  -- the call of the client, once the attempt is audited
  unfoldable pub call_client :
      ExternalActionClient St
      → List (St × ExternalActionRequest)
      → ExternalActionRequest
      → ℕ
      → String
      → Result Error RunRecord × St
      → Answer
  unfolding conclude
  call_client client requests q now state (raise e, st) =
      (raise (ledger e), record { runs = st; requests = requests })
  call_client client requests q now state (ok r, st) =
      conclude (record { runs = st; requests = (st, q) ∷ requests }) q now state (client requests q)

  -- what follows the four tests
  unfoldable pub act :
      ExternalActionClient St
      → World St
      → ExternalActionRequest
      → ℕ
      → String
      → Option Refusal
      → Answer
  unfolding call_client append_audit after_audit external_error
  act client w q now state (some refusal) =
      after_audit w.requests (raise (boundary (external_error E refusal.code refusal.reason))) (
        append_audit w.runs q ConnectorStatus.skipped now state refusal.facts
          (some refusal.summary))
  act client w q now state none =
      call_client client w.requests q now state
        (append_audit w.runs q ConnectorStatus.skipped now state planned_facts none)

  -- what follows `_load_scoped_run`
  unfoldable pub act_in_run :
      ExternalActionClient St
      → Option (String → List WorkflowActionLedgerRecord)
      → World St
      → ExternalActionRequest
      → ℕ
      → Result ExternalActionError RunRecord
      → Answer
  unfolding act refusal_of find_approved_workflow_action approval_state
  act_in_run client actions w q now (raise e) = (raise (boundary e), w)
  act_in_run client actions w q now (ok run) =
      let approved = find_approved_workflow_action actions p q in
      act client w q now (approval_state q approved) (refusal_of P B p q run approved)

  -- `execute_external_action`
  unfoldable pub execute_external_action :
      ExternalActionClient St
      → Option (String → List WorkflowActionLedgerRecord)
      → World St
      → ExternalActionRequest
      → Option Datetime
      → Answer
  unfolding act_in_run validate_request scoped_run coerce_utc
  execute_external_action client actions w q now =
      act_in_run client actions w q (coerce_utc P now)
        (validate_request E P q >>= λ checked. scoped_run E q (S.get_run w.runs q.run_id))
