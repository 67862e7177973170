-- ===== src/Automation/Simulated.antt =====
-- What a simulation does to the ledger, and what becomes of actions with an external side effect.
use orvo_agent.Base.{
  ◌&&◌, ℕ, String, Bool, true, false, Option, some, List, [], ◌∷◌, string_eq, ok, >>=-eq-ok,
  ok-injective, ◌≡◌, refl, sym, ap, ◌∙◌, arith, subst,
}
use orvo_agent.Model.{Datetime}
use orvo_agent.Redaction.Engine.{Engine}
use orvo_agent.Redaction.Redactor.{redactor}
use orvo_agent.Platform.{Platform, coerce_utc}
use orvo_agent.Cases.Record.{Case}
use orvo_agent.Catalog.{
  ActionSideEffect, find_definition, action_catalog, action_definitions, ActionDefinition, external,
  action_mode_eq,
}
use orvo_agent.Workflow.Record.{ApprovalState, blocked_approval_required}
use orvo_agent.Automation.Rule.{
  condition_results, validate_rule, WorkflowAction, execution_status, WorkflowRule, Dynamics,
}
use orvo_agent.Workflow.Ledger.{ActionStore, planned_record}
use orvo_agent.Automation.Simulate.{
  simulated, all_matched, Simulation, planned_arguments, simulate_case_workflow, plan_if,
}
use orvo_agent.Automation.Rerun.{dedupe_planned_actions-IsEmptyPlan}

-- an external side effect only behind an approval
abbrev gated : ActionSideEffect → Bool → Bool
gated external requires_approval = requires_approval
gated _ requires_approval = true

abbrev is_gated : ActionDefinition → Bool
is_gated d = gated d.side_effect d.requires_approval

abbrev all_gated : List ActionDefinition → Bool
all_gated [] = true
all_gated (d ∷ ds) = is_gated d && all_gated ds

action_definitions-all_gated : all_gated action_definitions ≡ true
unfolding action_definitions
action_definitions-all_gated = refl

found-is_gated :
    (ds : List ActionDefinition) (key : String) (d : ActionDefinition)
    → all_gated ds ≡ true
    → find_definition ds key ≡ some d
    → is_gated d ≡ true
found-is_gated [] key d g h = absurd (cc)
found-is_gated (e ∷ ds) key d g h = ground (arith, found-is_gated ds key d)

action_catalog-is_gated :
    (key : String) (d : ActionDefinition)
    → action_catalog key ≡ some d
    → d.side_effect ≡ external
    → d.requires_approval ≡ true
unfolding action_catalog
action_catalog-is_gated key d h e =
    subst (λ x. gated x d.requires_approval ≡ true) e
      (found-is_gated action_definitions key d action_definitions-all_gated h)

module _ (E : Engine) (P : Platform) (Y : Dynamics) (r : WorkflowRule) (c : Case)
    (actor_ref : Option String) where
  -- An action of the catalog with an external side effect is filed as blocked, and pending approval.
  pub external_action-is_blocked :
      (now : ℕ) (a : WorkflowAction) (d : ActionDefinition)
      → action_catalog a.action_key ≡ some d
      → d.side_effect ≡ external
      → ((planned_record P
            (redactor E)
            (planned_arguments E P Y r c actor_ref now a d)).approval_state
          ≡ ApprovalState.pending)
        × ((planned_record P
              (redactor E)
              (planned_arguments E P Y r c actor_ref now a d)).execution_state
            ≡ blocked_approval_required)
  unfolding planned_record planned_arguments execution_status
  external_action-is_blocked now a d h e =
      let g = action_catalog-is_gated a.action_key d h e in (rw g refl, rw g refl)

  -- The plan of a simulation that is run again on the ledger that it left.
  plan_if-again :
      (matched : Bool) (st : ActionStore) (actions : List (WorkflowAction × ActionDefinition))
      (now later : ℕ)
      → (after : ActionStore) × ((plan_if E P Y r c actor_ref matched (some st) actions now).ledger
          ≡ some after)
        × ((plan_if E P Y r c actor_ref matched (some after) actions later).actions ≡ [])
        × ((plan_if E P Y r c actor_ref matched (some after) actions later).ledger ≡ some after)
  unfolding plan_if
  plan_if-again true st actions now later =
      let (after, e, i) =
        dedupe_planned_actions-IsEmptyPlan E P Y r c actor_ref st now later actions in
      (after, e, i.no_action, i.unchanged)
  plan_if-again false st actions now later = (st, refl, refl, refl)

  -- A simulation with a ledger that succeeds, run again on the ledger that it left, whenever, succeeds
  -- with the same answer on the conditions, plans no action, and leaves the ledger as it is.
  pub simulate_case_workflow-again :
      (now later : Option Datetime) (st : ActionStore) (s : Simulation)
      → simulate_case_workflow E P Y r c actor_ref now (some st) ≡ ok s
      → (after : ActionStore) × (s.plan.ledger ≡ some after)
        × ((t : Simulation) × (simulate_case_workflow E P Y r c actor_ref later (some after) ≡ ok t)
            × (t.matched ≡ s.matched)
            × (t.plan.actions ≡ [])
            × (t.plan.ledger ≡ some after))
  unfolding simulate_case_workflow simulated
  simulate_case_workflow-again now later st s h =
      let (actions, v, h1) = >>=-eq-ok (validate_rule E r c) _ h in
      let (results, k, h2) = >>=-eq-ok (condition_results E Y c r.conditions) _ h1 in
      let e = ok-injective h2 in
      let (after, l, n, u) =
        plan_if-again (all_matched results) st actions (coerce_utc P now) (coerce_utc P later) in
      (
        after,
        ap (λ (x : Simulation). x.plan.ledger) (sym e) ∙ l,
        (
          simulated E P Y r c actor_ref results (some after) actions (coerce_utc P later),
          rw v (rw k refl),
          ap (λ (x : Simulation). x.matched) e,
          n,
          u,
        ),
      )
