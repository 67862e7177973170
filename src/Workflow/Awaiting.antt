-- ===== src/Workflow/Awaiting.antt =====
-- What stands in the approval queue and in the execution queue.
use orvo_agent.Base.{
  String, true, some, string_eq, option_eq, pair_eq, ◌≡◌, sym, ap, ◌∙◌, arith, ◌↔◌,
}
use orvo_agent.Base.Dict
use orvo_agent.Base.Dict.{Dict, get-put, values}
use orvo_agent.Base.Membership.{
  In, In-filter, In-of_filter, In-sort_by, In-of_sort_by, In-values, In-of_values,
}
use orvo_agent.Workflow.Record.{
  WorkflowApprovalRequest, WorkflowActionLedgerRecord, ApprovalState, ApprovalRequestStatus,
  pending_execution, blocked_approval_required, approval_state_eq, execution_state_eq,
  request_status_eq,
}
use orvo_agent.Workflow.Ledger.{of_business, list_actions, ActionStore}
use orvo_agent.Workflow.Consistent.{Consistent}
use orvo_agent.Catalog.{is_registered}
use orvo_agent.Workflow.Queues.{update_leb, is_pending_execution, execution_records}

-- A record that the business has filed.
abbrev pub Filed : ActionStore → String → WorkflowActionLedgerRecord → Type 0
Filed st b r = (k : String) × (Dict.get st.actions (b, k) ≡ some r)

-- An approved action that waits to be executed.
pub record IsApproved (st : ActionStore) (b : String) (r : WorkflowActionLedgerRecord)
    : Type 0 where
  pub filed : Filed st b r
  pub registered : is_registered r.action_key ≡ true
  pub approved : r.approval_state ≡ ApprovalState.approved
  pub waiting : r.execution_state ≡ pending_execution

-- A request that waits for a decision, with its record.
pub record IsAwaiting (st : ActionStore) (b : String) (q : WorkflowApprovalRequest)
    (r : WorkflowActionLedgerRecord) : Type 0 where
  pub stored : Dict.get st.approvals q.approval_request_id ≡ some q
  pub own : q.business_id ≡ b
  pub open_request : q.status ≡ ApprovalRequestStatus.pending
  pub filed : Filed st b r
  pub linked : q.ledger_id ≡ r.ledger_id
  pub registered : is_registered r.action_key ≡ true
  pub blocked : r.execution_state ≡ blocked_approval_required

module _ (sha256 : String → String) (Used : String → String → Type 0) (st : ActionStore)
    (i : Consistent sha256 Used st) where
  pub In-list_actions :
      (b : String) (r : WorkflowActionLedgerRecord) → Filed st b r → In r (list_actions st b)
  unfolding list_actions
  In-list_actions b r (k, g) =
      In-filter (of_business b) r _ (In-values st.actions (b, k) r g)
        (let own = (i.filed b k r g).business_id in ground arith)

  pub In-of_list_actions :
      (b : String) (r : WorkflowActionLedgerRecord) → In r (list_actions st b) → Filed st b r
  unfolding list_actions
  In-of_list_actions b r m =
      let (n, h) = In-of_filter (of_business b) r _ m in
      let (key, g) = In-of_values st.actions r i.nodup n in
      let own : key.0 ≡ b = let f = (i.filed key.0 key.1 r g).business_id in ground arith in
      (key.1, ap (λ c. Dict.get st.actions (c, key.1)) (sym own) ∙ g)

  -- In a consistent store, the execution queue of a business holds exactly its filed records with a
  -- registered action that are approved and wait for execution.
  pub execution_records-IsApproved :
      (b : String) (r : WorkflowActionLedgerRecord)
      → In r (execution_records st b) ↔ IsApproved st b r
  unfolding execution_records is_pending_execution
  execution_records-IsApproved b r = (
    λ m.
        let (n, h) = In-of_filter is_pending_execution r _ (In-of_sort_by update_leb r _ m) in
        record {
          filed = In-of_list_actions b r n;
          registered = ground arith;
          approved = ground arith;
          waiting = ground arith;
        },
    λ a. In-sort_by update_leb r _ (
        In-filter is_pending_execution r _ (In-list_actions b r a.filed)
          (let x = a.registered in let y = a.approved in let z = a.waiting in ground arith)),
  )
