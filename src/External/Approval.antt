-- ===== src/External/Approval.antt =====
-- What the record is that `_find_approved_workflow_action` finds.
use orvo_agent.Base.{
  String, Option, none, some, List, [], ◌∷◌, ◌≡◌, ◌≢◌, refl, sym, ap, ◌∙◌, ◌==◌, ◌&&◌, string_eq,
  Bool, true, arith, inl, inr, none-ne-some, Bool-cases, if◌then◌else◌,
}
use orvo_agent.Base.Membership.{In}
use orvo_agent.Value.{Value, get_field, str, null, bool, int, list, tuple, dict, other}
use orvo_agent.Workflow.Record.{
  WorkflowActionLedgerRecord, ApprovalState, ExecutionState, pending_execution, approval_state_eq,
  execution_state_eq,
}
use orvo_agent.External.Request.{
  find_approved_workflow_action, find_approved, is_approved_for, holds_text, ExternalActionProvider,
  ExternalActionRequest,
}

-- The record is the one that the request names; it is approved, waits for execution, and is for this
-- key, provider, toolkit and action.
pub record Approves (p : ExternalActionProvider) (q : ExternalActionRequest)
    (r : WorkflowActionLedgerRecord) : Type 0 where
  pub linked : q.workflow_action_ledger_id ≡ some r.ledger_id
  pub named : r.ledger_id ≢ ""
  pub approved : r.approval_state ≡ ApprovalState.approved
  pub waiting : r.execution_state ≡ pending_execution
  pub key : r.idempotency_key ≡ q.idempotency_key
  pub action : r.action_key ≡ "request_external_action"
  pub provider : get_field r.params "provider" ≡ some (str p.provider_name)
  pub toolkit : get_field r.params "toolkit" ≡ some (str q.toolkit)
  pub external_action_key : get_field r.params "external_action_key" ≡ some (str q.action_key)

-- An action ledger is given, and its list for the business of the request has such a record.
abbrev pub HasApproval :
    Option (String → List WorkflowActionLedgerRecord)
    → ExternalActionProvider
    → ExternalActionRequest
    → Type 0
HasApproval actions p q =
    (list_actions : String → List WorkflowActionLedgerRecord) × (actions ≡ some list_actions)
    × ((r : WorkflowActionLedgerRecord) × In r (list_actions q.business_id) × Approves p q r)

holds_text-str : (o : Option Value) (t : String) → holds_text o t ≡ true → o ≡ some (str t)
unfolding holds_text
holds_text-str (some (str s)) t h = ap (λ x. some (str x)) (ground arith)
holds_text-str none t h = absurd (cc)
holds_text-str (some null) t h = absurd (cc)
holds_text-str (some (bool b)) t h = absurd (cc)
holds_text-str (some (int n)) t h = absurd (cc)
holds_text-str (some (list xs)) t h = absurd (cc)
holds_text-str (some (tuple xs)) t h = absurd (cc)
holds_text-str (some (dict d)) t h = absurd (cc)
holds_text-str (some (other r)) t h = absurd (cc)

all_seven :
    (a b c d e f g : Bool)
    → (a && b && c && d && e && f && g) ≡ true
    → (a ≡ true) × (b ≡ true) × (c ≡ true) × (d ≡ true) × (e ≡ true) × (f ≡ true) × (g ≡ true)
all_seven a b c d e f g h = ground arith

text_of_test : (a b : String) → (a == b) ≡ true → a ≡ b
text_of_test a b h = ground arith

approval_of_test : (a b : ApprovalState) → (a == b) ≡ true → a ≡ b
approval_of_test a b h = ground arith

execution_of_test : (a b : ExecutionState) → (a == b) ≡ true → a ≡ b
execution_of_test a b h = ground arith

is_approved_for-Approves :
    (p : ExternalActionProvider) (q : ExternalActionRequest) (r : WorkflowActionLedgerRecord)
    → q.workflow_action_ledger_id ≡ some r.ledger_id
    → r.ledger_id ≢ ""
    → is_approved_for p q r ≡ true
    → Approves p q r
unfolding is_approved_for approval_state_eq execution_state_eq string_eq
is_approved_for-Approves p q r l n h =
    let (a, b, c, d, e, f, g) =
      all_seven (r.approval_state == ApprovalState.approved)
        (r.execution_state == pending_execution) (r.idempotency_key == q.idempotency_key)
        (r.action_key == "request_external_action")
        (holds_text (get_field r.params "provider") p.provider_name)
        (holds_text (get_field r.params "toolkit") q.toolkit)
        (holds_text (get_field r.params "external_action_key") q.action_key) h in
    record {
      linked = l;
      named = n;
      approved = approval_of_test _ _ a;
      waiting = execution_of_test _ _ b;
      key = text_of_test _ _ c;
      action = text_of_test _ _ d;
      provider = holds_text-str _ _ e;
      toolkit = holds_text-str _ _ f;
      external_action_key = holds_text-str _ _ g;
    }

find_approved-In :
    (p : ExternalActionProvider) (q : ExternalActionRequest) (id : String)
    (records : List WorkflowActionLedgerRecord) (r : WorkflowActionLedgerRecord)
    → find_approved p q id records ≡ some r
    → In r records × (r.ledger_id ≡ id) × (is_approved_for p q r ≡ true)
unfolding find_approved
find_approved-In p q id [] r h = absurd (none-ne-some r h)
find_approved-In p q id (x ∷ records) r h = elim (string_eq.dec x.ledger_id id) [
  | yes e ↦ elim (Bool-cases (is_approved_for p q x)) [
    | inl y ↦
        let same : x ≡ r = ground arith in
        (
          inl same,
          ap (λ (z : WorkflowActionLedgerRecord). z.ledger_id) (sym same) ∙ e,
          ap (is_approved_for p q) (sym same) ∙ y,
        )
    | inr n ↦ absurd (ground arith)
  ]
  | no n ↦ let (m, i, a) = find_approved-In p q id records r (ground arith) in (inr m, i, a)
]

found-HasApproval :
    (list_actions : String → List WorkflowActionLedgerRecord) (p : ExternalActionProvider)
    (q : ExternalActionRequest) (named : Option String) (r : WorkflowActionLedgerRecord)
    → q.workflow_action_ledger_id ≡ named
    → elim named [
      | none ↦ none
      | some id ↦ if id == "" then none else find_approved p q id (list_actions q.business_id)
    ]
      ≡ some r
    → HasApproval (some list_actions) p q
found-HasApproval list_actions p q none r n h = absurd (none-ne-some r h)
found-HasApproval list_actions p q (some id) r n h = elim (string_eq.dec id "") [
  | yes e ↦ absurd (ground arith)
  | no other_id ↦
      let (m, i, a) = find_approved-In p q id (list_actions q.business_id) r (ground arith) in
      (
        list_actions,
        refl,
        (r, m, is_approved_for-Approves p q r (n ∙ ap some (sym i)) (λ e. other_id (sym i ∙ e)) a),
      )
]

pub find_approved_workflow_action-HasApproval :
    (actions : Option (String → List WorkflowActionLedgerRecord)) (p : ExternalActionProvider)
    (q : ExternalActionRequest) (r : WorkflowActionLedgerRecord)
    → find_approved_workflow_action actions p q ≡ some r
    → HasApproval actions p q
unfolding find_approved_workflow_action
find_approved_workflow_action-HasApproval none p q r h = absurd (none-ne-some r h)
find_approved_workflow_action-HasApproval (some list_actions) p q r h =
    found-HasApproval list_actions p q q.workflow_action_ledger_id r refl h
