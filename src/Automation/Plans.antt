-- ===== src/Automation/Plans.antt =====
-- What a plan contains: every action of the rule once, and each key at most once.
use orvo_agent.Base.{
  if◌then◌else◌, not, map, filter, ◌≢◌, Bool, pair_eq, none, some, ℕ, String, false, Option, List,
  [], ◌∷◌, string_eq, ◌+◌, contains, length, ◌≡◌,
}
use orvo_agent.Base.Dict
use orvo_agent.Model.{is_set}
use orvo_agent.Redaction.Engine.{Engine}
use orvo_agent.Platform.{Platform}
use orvo_agent.Cases.Record.{Case}
use orvo_agent.Automation.Simulate.{planned_key, Plan, Planned}
use orvo_agent.Automation.Rule.{WorkflowAction, WorkflowRule, Dynamics}
use orvo_agent.Catalog.{ActionDefinition}
use orvo_agent.Workflow.Record.{WorkflowActionLedgerWrite}
use orvo_agent.Workflow.Ledger.{PlannedAction, ActionStore}

-- The first occurrence of each key, of those that were not seen before.
abbrev pub firsts : List String → List String → List String
firsts seen [] = []
firsts seen (k ∷ keys) =
    let again = firsts seen keys in
    let next = firsts (k ∷ seen) keys in if contains seen k then again else k ∷ next

-- The action ledger, if there is one, has a record for the key.
abbrev pub is_filed : Option ActionStore → String → String → Bool
is_filed none business_id key = false
is_filed (some st) business_id key = is_set (Dict.get st.actions (business_id, key))

module _ (E : Engine) (P : Platform) (Y : Dynamics) (r : WorkflowRule) (c : Case)
    (actor_ref : Option String) (now : ℕ) where
  abbrev keys_of : List (WorkflowAction × ActionDefinition) → List String
  keys_of actions =
      map (λ (x : WorkflowAction × ActionDefinition). planned_key E P Y r c actor_ref now x.0 x.1)
        actions

  -- The plan has, in the order of the rule, exactly the first occurrence of each key for which the
  -- action ledger has no record yet, and skips the other actions.
  pub record IsPlan (seen : List String) (st : Option ActionStore)
      (actions : List (WorkflowAction × ActionDefinition)) (p : Plan) : Type 0 where
    pub planned :
        map (λ (x : Planned). x.0) p.actions
        ≡ filter
            (λ k. not (is_filed st c.business_id k))
            (firsts seen (
              map
                (λ (x : WorkflowAction × ActionDefinition).
                  planned_key E P Y r c actor_ref now x.0 x.1)
                actions))
    pub skipped : length p.actions + length p.skipped_actions ≡ length actions

  -- What recording an action tells of the keys that have a record.
  abbrev Records : ActionStore → PlannedAction → WorkflowActionLedgerWrite × ActionStore → Type 0
  Records st x out =
      (out.0.created ≡ not (is_filed (some st) x.business_id x.idempotency_key))
      × ((k : String)
          → k ≢ x.idempotency_key
          → is_filed (some out.1) x.business_id k ≡ is_filed (some st) x.business_id k)

  abbrev ActionList : Type 0
  ActionList = List (WorkflowAction × ActionDefinition)
