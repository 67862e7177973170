-- ===== src/Automation/Rule.antt =====
-- Rules, their validation and the projections of app/brain/workflow_automation.py.
use orvo_agent.Base.{
  ℕ, String, Bool, true, false, not, ◌&&◌, ◌||◌, Option, none, some, List, [], ◌∷◌, ◌==◌, string_eq,
  nat_eq, if◌then◌else◌, contains, ◌++◌, ◌<>◌, leb, Result, ok, raise, raise_if, ◌>>=◌, ◌>>◌,
}
use orvo_agent.Base.Text.{strip, text_prefix}
use orvo_agent.Value.{
  ℤ, pos, negsuc, Value, Fields, str, bool, int, other, dict, fields_of, get_field,
}
use orvo_agent.Redaction.Engine.{Engine}
use orvo_agent.Redaction.Secrets.{redact_fields, redact_secrets}
use orvo_agent.Platform.{iso, Platform}
use orvo_agent.Cases.Status.{
  case_type_text, status_text, Severity, freshness_eq, info, warning, critical, stale, degraded,
  missing,
}
use orvo_agent.Cases.Record.{Case, Snapshot}
use orvo_agent.Catalog.{
  side_effect_text, mode_text, action_catalog, action_mode_eq, ActionDefinition, suggestion,
}
use orvo_agent.Workflow.Record.{
  execution_state_text, ExecutionState, blocked_approval_required, suggestion_only, dry_run,
}
use orvo_agent.Redaction.Text.{redact_text}

-- What the rules take from Python: `int`, with `none` where it raises; `json.dumps` with sorted keys;
-- and `==` and `str` on values of types that are not modelled.
pub record Dynamics : Type 0 where
  pub int_of : Value → Option ℤ
  pub dumps : Value → String
  pub other_is_bool : String → Bool → Bool
  pub str_of : Value → String

pub record WorkflowAutomationError : Type 0 where
  pub code : String
  pub message : String

pub record CaseWorkflowCondition : Type 0 where
  pub field_name : String
  pub value : Value

pub record WorkflowAction : Type 0 where
  pub action_key : String
  pub params : Fields

pub record WorkflowRule : Type 0 where
  pub rule_id : String
  pub business_id : String
  pub trigger : String
  pub conditions : List CaseWorkflowCondition
  pub actions : List WorkflowAction

-- `WORKFLOW_TRIGGER_VALUES`
abbrev pub workflow_trigger_values : List String
workflow_trigger_values = "case_opened" ∷ "case_updated" ∷ "manual" ∷ []

abbrev pub severity_text : Severity → String
severity_text info = "info"
severity_text warning = "warning"
severity_text critical = "critical"

-- `_is_case_degraded`
unfoldable pub is_case_degraded : List Snapshot → Bool
is_case_degraded [] = false
is_case_degraded (s ∷ snapshots) =
    contains (stale ∷ degraded ∷ missing ∷ []) s.freshness_state || is_case_degraded snapshots

-- `_condition_actual` before its error
unfoldable pub condition_actual : Case → String → Option Value
unfolding is_case_degraded
condition_actual c field_name =
    if field_name == "status"
    then some (str (status_text c.status))
    else if field_name == "case_type"
    then some (str (case_type_text c.case_type))
    else if field_name == "severity"
    then some (str (severity_text c.severity))
    else if field_name == "min_priority_score"
    then some (int (pos c.priority_score))
    else if field_name == "degraded"
    then some (bool (is_case_degraded c.evidence_snapshots))
    else none

-- `m >= n`
abbrev int_geb : ℤ → ℤ → Bool
int_geb (pos m) (pos n) = leb n m
int_geb (pos m) (negsuc n) = true
int_geb (negsuc m) (pos n) = false
int_geb (negsuc m) (negsuc n) = leb m n

-- `actual == value`, for a text, a number of the case or a Boolean
unfoldable pub equals : Dynamics → Value → Value → Bool
equals Y (str s) (str t) = s == t
equals Y (bool b) (bool c) = if b then c else not c
equals Y (bool b) (int (pos n)) = n == (if b then 1 else 0)
equals Y (bool b) (other r) = Y.other_is_bool r b
equals Y _ _ = false

-- `_is_non_empty_string`
unfoldable pub is_non_empty_string : Option Value → Bool
unfolding strip
is_non_empty_string (some (str s)) = not (strip s == "")
is_non_empty_string _ = false

-- the names of the list that are not given
unfoldable pub missing_fields : Fields → List String → List String
unfolding is_non_empty_string
missing_fields params [] = []
missing_fields params (name ∷ names) =
    let rest = missing_fields params names in
    if is_non_empty_string (get_field params name) then rest else name ∷ rest

-- `_missing_required_action_params`
unfoldable pub missing_required_action_params : ActionDefinition → Fields → List String
unfolding missing_fields
missing_required_action_params d params = missing_fields params (
    (if d.requires_reason then "reason" ∷ [] else [])
    ++ (if d.requires_comment then "comment" ∷ [] else [])
    ++ d.input_fields)

abbrev is_empty_list : {A : Type 0} → List A → Bool
is_empty_list [] = true
is_empty_list (x ∷ xs) = false

-- `', '.join(names)`
abbrev joined : List String → String
joined [] = ""
joined (name ∷ []) = name
joined (name ∷ names) = name <> ", " <> joined names

-- `_execution_status`
unfoldable pub execution_status : ActionDefinition → ExecutionState
unfolding action_mode_eq
execution_status d =
    if d.requires_approval
    then blocked_approval_required
    else if d.mode == suggestion
    then suggestion_only
    else dry_run

-- `_approval_gate_projection`
unfoldable pub approval_gate_projection : ActionDefinition → Value
approval_gate_projection d =
    if d.requires_approval
    then dict (
        fields_of (
          ("required", bool true)
          ∷ ("state", str "pending_approval")
          ∷ ("reason", str "approval_required_before_execution")
          ∷ []))
    else dict (fields_of (("required", bool false) ∷ ("state", str "not_required") ∷ []))

module _ (E : Engine) where
  -- `WorkflowAutomationError(code, message)`
  unfoldable pub automation_error : String → String → WorkflowAutomationError
  automation_error code message = record {
    code = code;
    message =
        if redact_text E message == "" then "Workflow automation error" else redact_text E message;
  }

  -- the loop of `_validate_rule` over the actions, with the definitions that it looks up
  unfoldable pub validate_action :
      Case
      → WorkflowAction
      → Option ActionDefinition
      → Result WorkflowAutomationError ActionDefinition
  unfolding automation_error missing_required_action_params
  validate_action c a none = raise (
      automation_error "unknown_workflow_action_key"
        ("unknown workflow action_key: " <> a.action_key))
  validate_action c a (some d) = do
    raise_if
        (not (is_empty_list d.case_families)
          && not (contains d.case_families (case_type_text c.case_type)))
        (automation_error "action_not_allowed_for_case_type" (
          "workflow action_key "
          <> a.action_key
          <> " is not registered for case_type "
          <> case_type_text c.case_type))
    raise_if (not (is_empty_list (missing_required_action_params d a.params))) (
        automation_error "missing_workflow_action_params" (
          "workflow action_key "
          <> a.action_key
          <> " missing required params: "
          <> joined (missing_required_action_params d a.params)))
    ok d

  unfoldable pub validate_actions :
      Case
      → List WorkflowAction
      → Result WorkflowAutomationError (List (WorkflowAction × ActionDefinition))
  unfolding validate_action action_catalog
  validate_actions c [] = ok []
  validate_actions c (a ∷ actions) = do
    d ← validate_action c a (action_catalog a.action_key)
    rest ← validate_actions c actions
    ok ((a, d) ∷ rest)

  -- `_validate_rule`, with the definitions of the actions
  unfoldable pub validate_rule :
      WorkflowRule
      → Case
      → Result WorkflowAutomationError (List (WorkflowAction × ActionDefinition))
  unfolding automation_error validate_actions strip
  validate_rule r c = do
    raise_if (not (r.business_id == c.business_id)) (
        automation_error "business_scope_mismatch"
          "workflow rule business_id does not match case business_id")
    raise_if (strip r.rule_id == "")
        (automation_error "invalid_workflow_rule" "workflow rule_id is required")
    raise_if (not (contains workflow_trigger_values r.trigger)) (
        automation_error "unsupported_workflow_trigger"
          ("unsupported workflow trigger: " <> r.trigger))
    validate_actions c r.actions

  -- `_condition_matches`
  unfoldable pub condition_matches :
      Dynamics → CaseWorkflowCondition → Value → Result WorkflowAutomationError Bool
  unfolding automation_error equals
  condition_matches Y k actual =
      if k.field_name == "min_priority_score"
      then compare_scores (Y.int_of actual) (Y.int_of k.value)
      else ok (equals Y actual k.value)
    where
      compare_scores : Option ℤ → Option ℤ → Result WorkflowAutomationError Bool
      compare_scores (some m) (some n) = ok (int_geb m n)
      compare_scores _ _ = raise (
          automation_error "invalid_workflow_condition"
            "min_priority_score condition value must be an integer")

  -- `_condition_projection`, once the actual value is found; with what was matched
  unfoldable pub condition_result :
      Dynamics
      → CaseWorkflowCondition
      → Option Value
      → Result WorkflowAutomationError (Bool × Value)
  unfolding condition_matches automation_error
  condition_result Y k none = raise (
      automation_error "unsupported_workflow_condition"
        ("unsupported workflow condition field: " <> k.field_name))
  condition_result Y k (some actual) = do
    matched ← condition_matches Y k actual
    ok (
      matched,
      redact_secrets E (
          dict (
            fields_of (
              ("field", str k.field_name)
              ∷ ("expected", k.value)
              ∷ ("actual", actual)
              ∷ ("matched", bool matched)
              ∷ []))),
    )

  unfoldable pub condition_results :
      Dynamics
      → Case
      → List CaseWorkflowCondition
      → Result WorkflowAutomationError (List (Bool × Value))
  unfolding condition_result condition_actual
  condition_results Y c [] = ok []
  condition_results Y c (k ∷ conditions) = do
    result ← condition_result Y k (condition_actual c k.field_name)
    rest ← condition_results Y c conditions
    ok (result ∷ rest)

  module _ (P : Platform) (Y : Dynamics) where
    -- `make_workflow_idempotency_key`
    unfoldable pub make_workflow_idempotency_key :
        String → String → String → String → Fields → String
    unfolding text_prefix
    make_workflow_idempotency_key business_id rule_id case_id action_key params =
        let fingerprint : Value = dict (
          fields_of (
            ("business_id", str business_id)
            ∷ ("rule_id", str rule_id)
            ∷ ("case_id", str case_id)
            ∷ ("action_key", str action_key)
            ∷ ("params", dict (redact_fields E params))
            ∷ [])) in
        "workflow/"
        <> business_id
        <> "/"
        <> rule_id
        <> "/"
        <> case_id
        <> "/"
        <> action_key
        <> "/"
        <> text_prefix 16 (P.sha256 (Y.dumps (redact_secrets E fingerprint)))

    -- the key of an action of the rule on the case
    abbrev pub action_idempotency_key : WorkflowRule → Case → WorkflowAction → String
    action_idempotency_key r c a =
        make_workflow_idempotency_key c.business_id r.rule_id c.case_id a.action_key a.params

    -- `_planned_action_projection`
    unfoldable pub planned_action_projection :
        WorkflowRule → Case → WorkflowAction → ActionDefinition → ℕ → Fields
    unfolding make_workflow_idempotency_key execution_status approval_gate_projection
    planned_action_projection r c a d now =
        let key = action_idempotency_key r c a in
        let status = execution_state_text (execution_status d) in
        redact_fields E (
          fields_of (
            ("action_key", str a.action_key)
            ∷ ("mode", str (mode_text d.mode))
            ∷ ("side_effect", str (side_effect_text d.side_effect))
            ∷ ("requires_approval", bool d.requires_approval)
            ∷ ("approval_gate", approval_gate_projection d)
            ∷ ("execution_status", str status)
            ∷ ("idempotency_key", str key)
            ∷ ("params", dict (redact_fields E a.params))
            ∷ (
              "audit_event",
              dict (
                  fields_of (
                    ("event_type", str "workflow_action_planned")
                    ∷ ("rule_id", str r.rule_id)
                    ∷ ("case_id", str c.case_id)
                    ∷ ("action_key", str a.action_key)
                    ∷ ("idempotency_key", str key)
                    ∷ ("execution_status", str status)
                    ∷ ("created_at", str (iso P now))
                    ∷ [])),
            )
            ∷ []))

    -- `_skipped_duplicate_action_projection`
    unfoldable pub skipped_duplicate_action_projection :
        WorkflowRule → Case → String → String → ℕ → Option String → Fields
    skipped_duplicate_action_projection r c action_key key now ledger_id = redact_fields E (
        fields_of (
          ("action_key", str action_key)
          ∷ ("idempotency_key", str key)
          ∷ ("execution_status", str "skipped_duplicate")
          ∷ ("reason", str "duplicate_idempotency_key")
          ∷ (
            "audit_event",
            dict (
                fields_of (
                  ("event_type", str "workflow_action_skipped_duplicate")
                  ∷ ("rule_id", str r.rule_id)
                  ∷ ("case_id", str c.case_id)
                  ∷ ("action_key", str action_key)
                  ∷ ("idempotency_key", str key)
                  ∷ ("execution_status", str "skipped_duplicate")
                  ∷ ("reason", str "duplicate_idempotency_key")
                  ∷ ("created_at", str (iso P now))
                  ∷ [])),
          )
          ∷ elim ledger_id [ none ↦ [] | some id ↦ ("ledger_id", str id) ∷ [] ]))
