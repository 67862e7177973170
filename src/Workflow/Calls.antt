-- ===== src/Workflow/Calls.antt =====
-- Sequences of calls of the action ledger.
use orvo_agent.Base.{ℕ, String, List, [], ◌∷◌}
use orvo_agent.Platform.{Platform}
use orvo_agent.Workflow.Ledger.{
  decide_approval_request, ActionStore, record_planned_action, ApprovalChoice, PlannedAction,
}
use orvo_agent.Redaction.Redactor.{Redactor}
use orvo_agent.Workflow.Consistent.{Consistent, DistinctIds}
use orvo_agent.Workflow.Keeps.{record_planned_action-Consistent}
use orvo_agent.Workflow.Settles.{decide_approval_request-Consistent}

-- The operations of `WorkflowActionLedgerStore` that change it, as data.
pub data ActionCall : Type 0 where
  plan : PlannedAction → ActionCall
  decide : ApprovalChoice → ActionCall

-- The key that a call files a record under is in use.
abbrev pub CallUses : (String → String → Type 0) → ActionCall → Type 0
CallUses Used (plan a) = Used a.business_id a.idempotency_key
CallUses Used (decide c) = Unit

abbrev pub AllUse : (String → String → Type 0) → List (ℕ × ActionCall) → Type 0
AllUse Used [] = Unit
AllUse Used ((now, call) ∷ calls) = CallUses Used call × AllUse Used calls

module _ (P : Platform) (R : Redactor) where
  -- the store after a call, at a time
  unfoldable pub perform_action : ActionStore → ℕ → ActionCall → ActionStore
  unfolding record_planned_action decide_approval_request
  perform_action st now (plan a) = (record_planned_action (record P { now = now }) R st a).1
  perform_action st now (decide c) = (decide_approval_request (record P { now = now }) R st c).1

  -- the store after the calls, refused ones included
  unfoldable pub run_actions : ActionStore → List (ℕ × ActionCall) → ActionStore
  unfolding perform_action
  run_actions st [] = st
  run_actions st ((now, call) ∷ calls) = run_actions (perform_action st now call) calls

  module _ (Used : String → String → Type 0) where
    pub perform_action-Consistent :
        (st : ActionStore) (now : ℕ) (call : ActionCall)
        → DistinctIds P.sha256 Used
        → CallUses Used call
        → Consistent P.sha256 Used st
        → Consistent P.sha256 Used (perform_action st now call)
    unfolding perform_action
    perform_action-Consistent st now (plan a) u k i =
        record_planned_action-Consistent (record P { now = now }) R Used st a k i
    perform_action-Consistent st now (decide c) u k i =
        decide_approval_request-Consistent (record P { now = now }) R Used st c u i

    -- If the keys in use have distinct ids: from a consistent store, every sequence of recordings
    -- under these keys and of decisions, refused ones included, leads to a consistent store.
    pub run_actions-Consistent :
        (st : ActionStore) (calls : List (ℕ × ActionCall))
        → DistinctIds P.sha256 Used
        → AllUse Used calls
        → Consistent P.sha256 Used st
        → Consistent P.sha256 Used (run_actions st calls)
    unfolding run_actions
    run_actions-Consistent st [] u k i = i
    run_actions-Consistent st ((now, call) ∷ calls) u k i =
        run_actions-Consistent (perform_action st now call) calls u k.1
          (perform_action-Consistent st now call u k.0 i)
