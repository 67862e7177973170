-- ===== src/Automation/Simulate.antt =====
-- `_dedupe_planned_actions` and `simulate_case_workflow` of app/brain/workflow_automation.py.
use orvo_agent.Base.{
  ℕ, String, Bool, true, false, ◌&&◌, Option, none, some, List, [], ◌∷◌, string_eq, if◌then◌else◌,
  map, contains, Result, ok, ◌>>=◌,
}
use orvo_agent.Value.{
  pos, Value, Fields, str, int, bool, dict, list, fields_of, get_field, put_field,
}
use orvo_agent.Model.{Datetime, aware}
use orvo_agent.Redaction.Engine.{Engine}
use orvo_agent.Redaction.Redactor.{redactor}
use orvo_agent.Redaction.Secrets.{redact_secrets}
use orvo_agent.Platform.{iso, Platform, coerce_utc}
use orvo_agent.Cases.Record.{Case}
use orvo_agent.Catalog.{values_of, ActionDefinition}
use orvo_agent.Workflow.Record.{approval_state_text, WorkflowActionLedgerWrite, workflow}
use orvo_agent.Workflow.Ledger.{ActionStore, PlannedAction, record_planned_action}
use orvo_agent.Automation.Rule.{
  severity_text, WorkflowAutomationError, condition_results, skipped_duplicate_action_projection,
  validate_rule, WorkflowAction, execution_status, planned_action_projection, WorkflowRule,
  Dynamics,
}
use orvo_agent.Cases.Status.{status_text, case_type_text}

-- An action of the plan, with the key that it was compared by.
abbrev pub Planned : Type 0
Planned = String × Fields

-- The two lists that `_dedupe_planned_actions` returns, and the ledger after it.
pub record Plan : Type 0 where
  pub actions : List Planned
  pub skipped_actions : List Fields
  pub ledger : Option ActionStore

unfoldable pub add_action : Planned → Plan → Plan
add_action a p = record p { actions = a ∷ p.actions }

unfoldable pub add_skipped : Fields → Plan → Plan
add_skipped s p = record p { skipped_actions = s ∷ p.skipped_actions }

-- `str(d[key])`, from `d.get(key)` for a key that is there
unfoldable pub text_of : Dynamics → Option Value → String
text_of Y none = ""
text_of Y (some (str s)) = s
text_of Y (some v) = Y.str_of v

-- the `update` of a planned action by what was recorded
unfoldable pub with_record : Fields → WorkflowActionLedgerWrite → Fields
unfolding put_field
with_record d w =
    let e =
      put_field (put_field d "ledger_id" (str w.entry.ledger_id)) "approval_state"
        (str (approval_state_text w.entry.approval_state)) in
    elim w.approval_request [
      | none ↦ e
      | some q ↦ put_field e "approval_request_id" (str q.approval_request_id)
    ]

module _ (E : Engine) (P : Platform) (Y : Dynamics) (r : WorkflowRule) (c : Case)
    (actor_ref : Option String) (now : ℕ) where
  -- the key that the plan compares by: the one in the redacted projection
  unfoldable pub planned_key : WorkflowAction → ActionDefinition → String
  unfolding text_of planned_action_projection
  planned_key a d =
      text_of Y (get_field (planned_action_projection E P Y r c a d now) "idempotency_key")

  -- the arguments of `record_planned_action`; redaction leaves the words of the status as they are
  unfoldable pub planned_arguments : WorkflowAction → ActionDefinition → PlannedAction
  unfolding planned_key execution_status
  planned_arguments a d = record {
    business_id = c.business_id;
    case_id = c.case_id;
    action_key = a.action_key;
    idempotency_key = planned_key a d;
    execution_state = execution_status d;
    approval_required = d.requires_approval;
    source = workflow;
    actor_ref = actor_ref;
    params = a.params;
    rule_id = some r.rule_id;
    now = some (aware now);
  }

  -- what is done with a recorded action
  unfoldable pub file_action :
      WorkflowAction → ActionDefinition → WorkflowActionLedgerWrite → Plan → Plan
  unfolding planned_key planned_action_projection skipped_duplicate_action_projection with_record
      add_action add_skipped
  file_action a d w rest =
      if w.created
      then add_action (planned_key a d, with_record (planned_action_projection E P Y r c a d now) w)
          rest
      else add_skipped
          (skipped_duplicate_action_projection E P Y r c a.action_key (planned_key a d) now
            (some w.entry.ledger_id))
          rest

  -- `_dedupe_planned_actions`, from the keys seen so far
  unfoldable pub dedupe_planned_actions :
      List String → Option ActionStore → List (WorkflowAction × ActionDefinition) → Plan
  unfolding planned_key planned_arguments file_action record_planned_action add_action add_skipped
      planned_action_projection skipped_duplicate_action_projection
  dedupe_planned_actions seen st [] = record { actions = []; skipped_actions = []; ledger = st }
  dedupe_planned_actions seen none ((a, d) ∷ actions) =
      let key = planned_key a d in
      let again = dedupe_planned_actions seen none actions in
      let next = dedupe_planned_actions (key ∷ seen) none actions in
      if contains seen key
      then add_skipped (skipped_duplicate_action_projection E P Y r c a.action_key key now none)
          again
      else add_action (key, planned_action_projection E P Y r c a d now) next
  dedupe_planned_actions seen (some st) ((a, d) ∷ actions) =
      let key = planned_key a d in
      let w = record_planned_action P (redactor E) st (planned_arguments a d) in
      let again = dedupe_planned_actions seen (some st) actions in
      let next = dedupe_planned_actions (key ∷ seen) (some w.1) actions in
      if contains seen key
      then add_skipped (skipped_duplicate_action_projection E P Y r c a.action_key key now none)
          again
      else file_action a d w.0 next

-- `all(result["matched"] for result in results)`
unfoldable pub all_matched : List (Bool × Value) → Bool
all_matched [] = true
all_matched ((b, v) ∷ results) = b && all_matched results

-- What `simulate_case_workflow` returns before it is redacted.
pub record Simulation : Type 0 where
  pub matched : Bool
  pub conditions : List Value
  pub plan : Plan
  pub generated_at : ℕ

module _ (E : Engine) (P : Platform) (Y : Dynamics) (r : WorkflowRule) (c : Case)
    (actor_ref : Option String) where
  -- the plan of a rule that matches, and of one that does not
  unfoldable pub plan_if :
      Bool → Option ActionStore → List (WorkflowAction × ActionDefinition) → ℕ → Plan
  unfolding dedupe_planned_actions
  plan_if true st actions now = dedupe_planned_actions E P Y r c actor_ref now [] st actions
  plan_if false st actions now = record { actions = []; skipped_actions = []; ledger = st }

  -- what is returned, once the rule and its conditions are checked
  unfoldable pub simulated :
      List (Bool × Value)
      → Option ActionStore
      → List (WorkflowAction × ActionDefinition)
      → ℕ
      → Simulation
  unfolding all_matched plan_if
  simulated results st actions now = record {
    matched = all_matched results;
    conditions = map (λ (x : Bool × Value). x.1) results;
    plan = plan_if (all_matched results) st actions now;
    generated_at = now;
  }

  unfoldable pub simulate_case_workflow :
      Option Datetime → Option ActionStore → Result WorkflowAutomationError Simulation
  unfolding validate_rule condition_results simulated coerce_utc
  simulate_case_workflow now st = do
    actions ← validate_rule E r c
    results ← condition_results E Y c r.conditions
    ok (simulated results st actions (coerce_utc P now))

  -- the dict that is returned
  unfoldable pub simulation_projection : Simulation → Value
  simulation_projection s = redact_secrets E (
      dict (
        fields_of (
          ("rule_id", str r.rule_id)
          ∷ ("business_id", str r.business_id)
          ∷ ("trigger", str r.trigger)
          ∷ (
            "case",
            dict (
                fields_of (
                  ("case_id", str c.case_id)
                  ∷ ("case_type", str (case_type_text c.case_type))
                  ∷ ("status", str (status_text c.status))
                  ∷ ("severity", str (severity_text c.severity))
                  ∷ ("priority_score", int (pos c.priority_score))
                  ∷ ("title", str c.title)
                  ∷ [])),
          )
          ∷ ("matched", bool s.matched)
          ∷ ("conditions", list (values_of s.conditions))
          ∷ ("actions", list (values_of (map (λ (a : Planned). dict a.1) s.plan.actions)))
          ∷ ("skipped_actions", list (values_of (map dict s.plan.skipped_actions)))
          ∷ ("side_effects_executed", int (pos 0))
          ∷ ("generated_at", str (iso P s.generated_at))
          ∷ [])))
