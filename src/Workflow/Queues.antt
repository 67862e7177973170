-- ===== src/Workflow/Queues.antt =====
-- app/brain/workflow_approval_queue.py and app/brain/workflow_execution_queue.py: the projections of
-- the action ledger that an operator sees.
use orvo_agent.Base.{
  String, Bool, true, false, ◌&&◌, Option, none, some, List, [], ◌∷◌, ◌==◌, string_eq, option_eq,
  if◌then◌else◌, map, filter, ◌++◌, ltb, length,
}
use orvo_agent.Base.Dict
use orvo_agent.Base.Dict.{Dict}
use orvo_agent.Base.Sort.{sort_by, text_leb}
use orvo_agent.Value.{
  ℤ, pos, negsuc, Value, Fields, str, bool, int, dict, list, fields_of, no_fields,
}
use orvo_agent.Listing.{limited}
use orvo_agent.Catalog.{
  side_effect_text, action_catalog, mode_text, values_of, is_registered, ActionDefinition,
}
use orvo_agent.Redaction.Redactor.{Redactor, dict_or}
use orvo_agent.Platform.{iso, Platform, text_or_null}
use orvo_agent.Workflow.Record.{
  execution_state_text, approval_state_text, source_text, request_status_text,
  WorkflowActionLedgerRecord, WorkflowApprovalRequest, ApprovalState, ApprovalRequestStatus,
  pending_execution, blocked_approval_required, approval_state_eq, execution_state_eq,
  request_status_eq,
}
use orvo_agent.Workflow.Ledger.{list_approval_requests, list_actions, ActionStore}

abbrev pub Pair : Type 0
Pair = WorkflowApprovalRequest × Option WorkflowActionLedgerRecord

-- the loop of `_records_by_ledger_id`
unfoldable pub index_by_ledger_id :
    List WorkflowActionLedgerRecord
    → Dict String WorkflowActionLedgerRecord
    → Dict String WorkflowActionLedgerRecord
index_by_ledger_id [] d = d
index_by_ledger_id (r ∷ records) d = index_by_ledger_id records (Dict.put d r.ledger_id r)

-- `_is_pending_approval`
unfoldable pub is_pending_approval : Pair → Bool
unfolding is_registered
is_pending_approval (q, none) = false
is_pending_approval (q, some r) =
    q.ledger_id == r.ledger_id
    && q.business_id == r.business_id
    && q.case_id == r.case_id
    && q.action_key == r.action_key
    && some q.approval_request_id == r.approval_request_id
    && q.status == ApprovalRequestStatus.pending
    && is_registered r.action_key
    && r.approval_state == ApprovalState.pending
    && r.execution_state == blocked_approval_required

-- the order by `(requested_at, approval_request_id)`
unfoldable pub pair_leb : Pair → Pair → Bool
unfolding text_leb
pair_leb (q, r) (p, s) =
    if ltb q.requested_at p.requested_at
    then true
    else if ltb p.requested_at q.requested_at
    then false
    else text_leb q.approval_request_id p.approval_request_id

-- the request with what is found under its ledger id
unfoldable pub paired : Dict String WorkflowActionLedgerRecord → WorkflowApprovalRequest → Pair
paired by_id q = (q, Dict.get by_id q.ledger_id)

-- `pending_pairs` after the sort
unfoldable pub pending_pairs : ActionStore → String → List Pair
unfolding list_actions list_approval_requests index_by_ledger_id paired is_pending_approval pair_leb
pending_pairs st business_id =
    let by_id = index_by_ledger_id (list_actions st business_id) [] in
    sort_by pair_leb
      (filter is_pending_approval (map (paired by_id) (list_approval_requests st business_id)))

-- `_is_pending_execution`
unfoldable pub is_pending_execution : WorkflowActionLedgerRecord → Bool
unfolding is_registered
is_pending_execution r =
    is_registered r.action_key
    && r.approval_state == ApprovalState.approved
    && r.execution_state == pending_execution

-- the order by `(updated_at, ledger_id)`
unfoldable pub update_leb : WorkflowActionLedgerRecord → WorkflowActionLedgerRecord → Bool
unfolding text_leb
update_leb r s =
    if ltb r.updated_at s.updated_at
    then true
    else if ltb s.updated_at r.updated_at
    then false
    else text_leb r.ledger_id s.ledger_id

-- `records` of the execution queue after the sort
unfoldable pub execution_records : ActionStore → String → List WorkflowActionLedgerRecord
unfolding list_actions is_pending_execution update_leb
execution_records st business_id =
    sort_by update_leb (filter is_pending_execution (list_actions st business_id))

-- `max(limit, 0)`
abbrev pub at_least_zero : ℤ → ℤ
at_least_zero (pos n) = pos n
at_least_zero (negsuc n) = pos 0

-- `xs if limit is None else xs[: max(limit, 0)]`
unfoldable pub selected : {A : Type 0} → Option ℤ → List A → List A
unfolding limited
selected none xs = xs
selected (some n) xs = limited (some (at_least_zero n)) xs

-- `if request.metadata: payload["metadata"] = request.metadata`
abbrev pub if_fields : String → Fields → List (String × Value)
if_fields key d = if no_fields d then [] else (key, dict d) ∷ []

module _ (P : Platform) (R : Redactor) where
  -- `_approval_request_projection`
  unfoldable pub approval_request_projection :
      WorkflowApprovalRequest → WorkflowActionLedgerRecord → Value
  approval_request_projection q r =
      let payload : Value = dict (
        fields_of (
          ("approval_request_id", str q.approval_request_id)
          ∷ ("ledger_id", str q.ledger_id)
          ∷ ("business_id", str q.business_id)
          ∷ ("case_id", str q.case_id)
          ∷ ("action_key", str q.action_key)
          ∷ ("requester_ref", text_or_null q.requester_ref)
          ∷ ("status", str (request_status_text q.status))
          ∷ ("approval_state", str (approval_state_text r.approval_state))
          ∷ ("execution_state", str (execution_state_text r.execution_state))
          ∷ ("source", str (source_text r.source))
          ∷ ("rule_id", text_or_null r.rule_id)
          ∷ ("idempotency_key", str r.idempotency_key)
          ∷ ("params", dict r.params)
          ∷ ("requested_at", str (iso P q.requested_at))
          ∷ ("decision_state", str "pending_human_approval")
          ∷ ("approval_execution_enabled", bool false)
          ∷ ("side_effects_executed", int (pos 0))
          ∷ if_fields "metadata" q.metadata)) in
      dict_or (R.secrets payload) payload

  -- `... for request, record in selected if record is not None`
  unfoldable pub pair_projections : List Pair → List Value
  unfolding approval_request_projection
  pair_projections [] = []
  pair_projections ((q, none) ∷ pairs) = pair_projections pairs
  pair_projections ((q, some r) ∷ pairs) = approval_request_projection q r ∷ pair_projections pairs

  -- `list_workflow_approval_queue`
  unfoldable pub list_workflow_approval_queue : ActionStore → String → Option ℤ → Value
  unfolding pending_pairs selected pair_projections
  list_workflow_approval_queue st business_id limit =
      let pairs = pending_pairs st business_id in
      let shown = selected limit pairs in
      let payload : Value = dict (
        fields_of (
          ("business_id", str business_id)
          ∷ ("approval_execution_enabled", bool false)
          ∷ ("decision_state", str "pending_human_approval")
          ∷ ("side_effects_executed", int (pos 0))
          ∷ ("total", int (pos (length pairs)))
          ∷ ("returned", int (pos (length shown)))
          ∷ ("approval_requests", list (values_of (pair_projections shown)))
          ∷ [])) in
      dict_or (R.secrets payload) payload

  -- what `_queue_action_projection` takes from the catalog; a key that is not there is a KeyError,
  -- which cannot happen for the records of the queue
  abbrev pub definition_fields : Option ActionDefinition → List (String × Value)
  definition_fields none = []
  definition_fields (some d) =
      ("label", str d.label)
      ∷ ("mode", str (mode_text d.mode))
      ∷ ("side_effect", str (side_effect_text d.side_effect))
      ∷ ("requires_approval", bool d.requires_approval)
      ∷ []

  -- `_queue_action_projection`
  unfoldable pub queue_action_projection : WorkflowActionLedgerRecord → Value
  unfolding action_catalog
  queue_action_projection r =
      let payload : Value = dict (
        fields_of (
          (("ledger_id", str r.ledger_id)
            ∷ ("business_id", str r.business_id)
            ∷ ("case_id", str r.case_id)
            ∷ ("action_key", str r.action_key)
            ∷ definition_fields (action_catalog r.action_key))
          ++ (("source", str (source_text r.source))
              ∷ ("rule_id", text_or_null r.rule_id)
              ∷ ("approval_request_id", text_or_null r.approval_request_id)
              ∷ ("idempotency_key", str r.idempotency_key)
              ∷ ("actor_ref", text_or_null r.actor_ref)
              ∷ ("approval_state", str (approval_state_text r.approval_state))
              ∷ ("execution_state", str (execution_state_text r.execution_state))
              ∷ ("params", dict r.params)
              ∷ ("created_at", str (iso P r.created_at))
              ∷ ("updated_at", str (iso P r.updated_at))
              ∷ ("executor_state", str "not_implemented")
              ∷ ("side_effects_executed", int (pos 0))
              ∷ []))) in
      dict_or (R.secrets payload) payload

  -- `list_workflow_execution_queue`
  unfoldable pub list_workflow_execution_queue : ActionStore → String → Option ℤ → Value
  unfolding execution_records selected queue_action_projection
  list_workflow_execution_queue st business_id limit =
      let records = execution_records st business_id in
      let shown = selected limit records in
      let payload : Value = dict (
        fields_of (
          ("business_id", str business_id)
          ∷ ("execution_enabled", bool false)
          ∷ ("executor_state", str "not_implemented")
          ∷ ("side_effects_executed", int (pos 0))
          ∷ ("total", int (pos (length records)))
          ∷ ("returned", int (pos (length shown)))
          ∷ ("actions", list (values_of (map queue_action_projection shown)))
          ∷ [])) in
      dict_or (R.secrets payload) payload
