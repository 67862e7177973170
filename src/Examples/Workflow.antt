-- ===== src/Examples/Workflow.antt =====
-- The theorems of the action ledger and its queues on concrete stores.
use orvo_agent.Base.{
  none-ne-some, ℕ, String, none, some, List, [], ◌∷◌, string_eq, pair_eq, ◌≡◌, ◌≢◌, refl, sym, ◌∙◌,
  ◌↔◌, ok, true, false, inl,
}
use orvo_agent.Base.Dict
use orvo_agent.Base.Dict.{get-nil}
use orvo_agent.Base.Membership.{In}
use orvo_agent.Value.{end}
use orvo_agent.Base.{option_eq}
use orvo_agent.Base.Sort.{sort_by}
use orvo_agent.Workflow.Record.{
  request_status_eq, approval_state_eq, execution_state_eq, parse_decision,
}
use orvo_agent.Platform.{Platform}
use orvo_agent.Workflow.Record.{
  WorkflowApprovalDecisionRecord, WorkflowActionLedgerRecord, WorkflowApprovalRequest,
  ApprovalRequestStatus, ApprovalDecision, blocked_approval_required, workflow,
}
use orvo_agent.Workflow.Ledger.{
  decided_request, planned_record, planned_request, decided_record, decide_approval_request,
  record_planned_action, ApprovalChoice, PlannedAction, ActionStore,
}
use orvo_agent.Workflow.Calls.{run_actions-Consistent, run_actions, ActionCall, plan, decide}
use orvo_agent.Workflow.Outcome.{decide_approval_request-DecisionOutcome, DecisionOutcome}
use orvo_agent.Examples.Data.{example_redactor}
use orvo_agent.Workflow.Consistent.{Consistent, DistinctIds}
use orvo_agent.Workflow.Queues.{execution_records, pending_pairs}
use orvo_agent.Workflow.Keeps.{record_planned_action-Consistent}
use orvo_agent.Workflow.Settles.{decide_approval_request-Consistent}
use orvo_agent.Workflow.Outcomes.{record_planned_action-again}
use orvo_agent.Workflow.Final.{run_actions-final}
use orvo_agent.Workflow.Awaiting.{execution_records-IsApproved, IsApproved, IsAwaiting}
use orvo_agent.Workflow.Exact.{pending_pairs-IsAwaiting}
use orvo_agent.Workflow.Handover.{approval-hands_over}

abbrev pub platform : Platform
platform = record {
  now = 100;
  local = λ t. t;
  isoformat = λ t. "2026-01-01T00:00:00+00:00";
  sha256 = λ s. s;
  strip = λ s. s;
}

-- the one key of the examples
abbrev pub InUse : String → String → Type 0
InUse b k = (b ≡ "shop") × (k ≡ "k1")

pub distinct : DistinctIds platform.sha256 InUse
distinct prefix b c k j u v e = (u.0 ∙ sym v.0, u.1 ∙ sym v.1)

abbrev pub no_actions : ActionStore
no_actions = record { actions = []; approvals = [] }

pub no_actions-Consistent : Consistent platform.sha256 InUse no_actions
no_actions-Consistent = record {
  nodup = tt;
  nodup_requests = tt;
  filed = λ b k r h. absurd (none-ne-some _ (sym (get-nil (b, k)) ∙ h));
  entries = λ id q h. absurd (none-ne-some _ (sym (get-nil id) ∙ h));
}

abbrev pub external_action : PlannedAction
external_action = record {
  business_id = "shop";
  case_id = "case-1";
  action_key = "request_external_action";
  idempotency_key = "k1";
  execution_state = blocked_approval_required;
  approval_required = true;
  source = workflow;
  actor_ref = some "ana";
  params = end;
  rule_id = none;
  now = none;
}

abbrev approve : ApprovalChoice
approve = record {
  business_id = "shop";
  approval_request_id = "workflow-approval/shop/shop:k1";
  decision = "approved";
  actor_ref = "eva";
  reason = "fine";
  now = none;
}

abbrev asked : ActionStore
asked = (record_planned_action platform example_redactor no_actions external_action).1

asked-Consistent : Consistent platform.sha256 InUse asked
asked-Consistent =
    record_planned_action-Consistent platform example_redactor InUse no_actions external_action
      (refl, refl) no_actions-Consistent

abbrev asked_request : WorkflowApprovalRequest
asked_request =
    planned_request platform example_redactor external_action "workflow-approval/shop/shop:k1"

abbrev asked_entry : WorkflowActionLedgerRecord
asked_entry = planned_record platform example_redactor external_action

abbrev agreed : ActionStore
agreed = (decide_approval_request platform example_redactor asked approve).1

agreed-Consistent : Consistent platform.sha256 InUse agreed
agreed-Consistent =
    decide_approval_request-Consistent platform example_redactor InUse asked approve distinct
      asked-Consistent

abbrev pub two_calls : List (ℕ × ActionCall)
two_calls = (100, plan external_action) ∷ (200, decide approve) ∷ []

run_actions-Consistent_example :
    Consistent platform.sha256 InUse (run_actions platform example_redactor no_actions two_calls)
run_actions-Consistent_example =
    run_actions-Consistent platform example_redactor InUse no_actions two_calls distinct
      ((refl, refl), (tt, tt)) no_actions-Consistent

decide_approval_request-DecisionOutcome_example :
    DecisionOutcome asked approve (decide_approval_request platform example_redactor asked approve)
decide_approval_request-DecisionOutcome_example =
    decide_approval_request-DecisionOutcome platform example_redactor InUse asked approve distinct
      asked-Consistent

record_planned_action-again_example :
    record_planned_action platform example_redactor asked external_action ≡ (
      record {
        entry =
            (record_planned_action platform example_redactor no_actions external_action).0.entry;
        created = false;
        approval_request = none;
      },
      asked,
    )
record_planned_action-again_example =
    record_planned_action-again platform platform example_redactor example_redactor no_actions
      external_action external_action refl refl

abbrev agreed_request : WorkflowApprovalRequest
agreed_request =
    decided_request ApprovalDecision.approved 100 (some "eva") (some "fine") asked_request

agreed_request-stored :
    Dict.get agreed.approvals "workflow-approval/shop/shop:k1" ≡ some agreed_request
unfolding Dict.get decide_approval_request string_eq record_planned_action Dict.put
    request_status_eq
agreed_request-stored = refl

agreed_request-over : agreed_request.status ≢ ApprovalRequestStatus.pending
unfolding decided_request
agreed_request-over e = cc

run_actions-final_example :
    Dict.get
      (run_actions platform example_redactor agreed two_calls).approvals
      "workflow-approval/shop/shop:k1"
    ≡ some agreed_request
run_actions-final_example =
    run_actions-final "workflow-approval/shop/shop:k1" agreed_request agreed_request-over platform
      example_redactor InUse agreed two_calls distinct ((refl, refl), (tt, tt)) agreed-Consistent
      agreed_request-stored

execution_records-IsApproved_example :
    In (decided_record ApprovalDecision.approved 100 asked_entry) (execution_records agreed "shop")
    ↔ IsApproved agreed "shop" (decided_record ApprovalDecision.approved 100 asked_entry)
execution_records-IsApproved_example =
    execution_records-IsApproved platform.sha256 InUse agreed agreed-Consistent "shop"
      (decided_record ApprovalDecision.approved 100 asked_entry)

pending_pairs-IsAwaiting_example :
    In (asked_request, some asked_entry) (pending_pairs asked "shop")
    ↔ IsAwaiting asked "shop" asked_request asked_entry
pending_pairs-IsAwaiting_example =
    pending_pairs-IsAwaiting platform.sha256 InUse asked asked-Consistent distinct "shop"
      asked_request asked_entry

asked_pair-In : In (asked_request, some asked_entry) (pending_pairs asked "shop")
unfolding pending_pairs sort_by record_planned_action Dict.get Dict.put string_eq option_eq
    request_status_eq approval_state_eq execution_state_eq
asked_pair-In = inl refl

approve_id : approve.approval_request_id ≡ asked_request.approval_request_id
unfolding planned_request
approve_id = refl

approve_word : parse_decision approve.decision ≡ some ApprovalDecision.approved
unfolding parse_decision string_eq
approve_word = refl

approval-hands_over_example :
    (w : WorkflowApprovalDecisionRecord) × ((decide_approval_request platform example_redactor asked
        approve).0
      ≡ ok w)
    × In w.entry (
        execution_records
          (decide_approval_request platform example_redactor asked approve).1
          "shop")
    × (w.entry.ledger_id ≡ asked_entry.ledger_id)
    × ((p : WorkflowApprovalRequest) (s : WorkflowActionLedgerRecord)
        → In
            (p, some s)
            (pending_pairs
              (decide_approval_request platform example_redactor asked approve).1
              "shop")
        → p.approval_request_id ≢ asked_request.approval_request_id)
approval-hands_over_example =
    approval-hands_over platform example_redactor InUse asked asked-Consistent distinct "shop"
      asked_request asked_entry approve asked_pair-In refl approve_id approve_word
