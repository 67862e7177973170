-- ===== src/Examples/Automations.antt =====
-- The theorems on workflow rules on a concrete rule and case.
use orvo_agent.Base.{List, [], ◌∷◌, none, some, refl, ◌≡◌, ok, true, false, string_eq}
use orvo_agent.Value.{bool, fields_of, dict, end, str, field, Value, pos}
use orvo_agent.Redaction.Redactor.{redactor}
use orvo_agent.Catalog.{
  case_transition, manual, action_catalog, definition, ActionDefinition, external,
  approval_required,
}
use orvo_agent.Workflow.Record.{ApprovalState, blocked_approval_required}
use orvo_agent.Examples.Data.{open_case_1}
use orvo_agent.Examples.Runs.{plain_engine}
use orvo_agent.Examples.Workflow.{platform, no_actions}
use orvo_agent.Automation.Rule.{WorkflowRule, WorkflowAction, Dynamics}
use orvo_agent.Workflow.Ledger.{ActionStore, planned_record}
use orvo_agent.Automation.Simulate.{
  simulated, planned_arguments, simulate_case_workflow, Simulation,
}
use orvo_agent.Automation.Simulated.{simulate_case_workflow-again, external_action-is_blocked}
use orvo_agent.Redaction.Secrets.{redact_secrets}

abbrev dynamics : Dynamics
dynamics = record {
  int_of = λ v. some (pos 1);
  dumps = λ v. "{}";
  other_is_bool = λ r b. false;
  str_of = λ v. "x";
}

abbrev acknowledge : WorkflowAction
acknowledge = record { action_key = "acknowledge_case"; params = end }

abbrev ask_external : WorkflowAction
ask_external = record {
  action_key = "request_external_action";
  params = field "reason" (str "stock") end;
}

abbrev open_rule : WorkflowRule
open_rule = record {
  rule_id = "rule-1";
  business_id = "shop";
  trigger = "manual";
  conditions = record { field_name = "status"; value = str "open" } ∷ [];
  actions = acknowledge ∷ acknowledge ∷ [];
}

abbrev acknowledge_definition : ActionDefinition
acknowledge_definition =
    record (definition "acknowledge_case" "Acknowledge case" manual case_transition) {
      api_enabled = true;
      api_mode = some "manual_operator_mutation";
      status_effect = some "acknowledged";
    }

abbrev two_actions : List (WorkflowAction × ActionDefinition)
two_actions = (acknowledge, acknowledge_definition) ∷ (acknowledge, acknowledge_definition) ∷ []

abbrev external_definition : ActionDefinition
external_definition = record {
  action_key = "request_external_action";
  label = "Request external action";
  mode = approval_required;
  side_effect = external;
  api_enabled = false;
  api_mode = some "approval_required_disabled";
  status_effect = none;
  requires_reason = true;
  requires_comment = false;
  input_fields = [];
  requires_approval = true;
  case_families = [];
  notes = some "Registered but disabled until governed approvals and durable idempotency exist.";
}

external_definition-found : action_catalog "request_external_action" ≡ some external_definition
unfolding action_catalog string_eq
external_definition-found = refl

external_action-is_blocked_example :
    ((planned_record platform (redactor plain_engine) (
        planned_arguments plain_engine platform dynamics open_rule open_case_1 none 100 ask_external
          external_definition)).approval_state
      ≡ ApprovalState.pending)
    × ((planned_record platform (redactor plain_engine) (
          planned_arguments plain_engine platform dynamics open_rule open_case_1 none 100
            ask_external external_definition)).execution_state
        ≡ blocked_approval_required)
external_action-is_blocked_example =
    external_action-is_blocked plain_engine platform dynamics open_rule open_case_1 none 100
      ask_external external_definition external_definition-found refl

abbrev status_result : Value
status_result = redact_secrets plain_engine (
    dict (
      fields_of (
        ("field", str "status")
        ∷ ("expected", str "open")
        ∷ ("actual", str "open")
        ∷ ("matched", bool true)
        ∷ [])))

abbrev open_simulation : Simulation
open_simulation =
    simulated plain_engine platform dynamics open_rule open_case_1 none ((true, status_result) ∷ [])
      (some no_actions) two_actions 100

open_rule-simulates :
    simulate_case_workflow plain_engine platform dynamics open_rule open_case_1 none none
      (some no_actions)
    ≡ ok open_simulation
unfolding simulate_case_workflow string_eq
open_rule-simulates = refl

simulate_case_workflow-again_example :
    (after : ActionStore) × (open_simulation.plan.ledger ≡ some after)
    × ((t : Simulation) × (simulate_case_workflow plain_engine platform dynamics open_rule
            open_case_1 none none
            (some after)
          ≡ ok t)
        × (t.matched ≡ open_simulation.matched)
        × (t.plan.actions ≡ [])
        × (t.plan.ledger ≡ some after))
simulate_case_workflow-again_example =
    simulate_case_workflow-again plain_engine platform dynamics open_rule open_case_1 none none none
      no_actions open_simulation open_rule-simulates
