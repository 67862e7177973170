-- ===== src/Workflow/Decision.antt =====
-- When a decision on an approval request succeeds, and what it changes.
use orvo_agent.Base.{
  raise, ◌≢◌, ap, not, [], ◌∷◌, string_eq, pair_eq, ◌==◌, none, some, ok, Option, String, refl,
  true, ◌≡◌, >>=-eq-ok, guard-eq-ok, arith,
}
use orvo_agent.Base.Dict
use orvo_agent.Base.Dict.{Dict, NodupKeys}
use orvo_agent.Redaction.Redactor.{Redactor}
use orvo_agent.Platform.{Platform}
use orvo_agent.Workflow.Record.{
  ledger_error, known_decision, parse_decision, WorkflowApprovalRequest, ApprovalDecision,
  WorkflowActionLedgerRecord, validate_approval_decision, request_status_eq, ApprovalRequestStatus,
}
use orvo_agent.Workflow.Ledger.{
  decided, Decided, ApprovalChoice, found_action, scoped_request, ActionStore, find_action,
  decision_of,
}

pub find_action-get :
    (actions : Dict (String × String) WorkflowActionLedgerRecord) (b l : String)
    (key : String × String) (r : WorkflowActionLedgerRecord)
    → NodupKeys actions
    → find_action actions b l ≡ some (key, r)
    → (Dict.get actions key ≡ some r) × (r.business_id ≡ b) × (r.ledger_id ≡ l)
unfolding find_action Dict.get
find_action-get [] b l key r n h = absurd (cc)
find_action-get ((j, s) ∷ actions) b l key r n h =
    ground (arith, find_action-get actions b l key r n.1)

pub find_action-none :
    (actions : Dict (String × String) WorkflowActionLedgerRecord) (b l : String)
    (key : String × String) (r : WorkflowActionLedgerRecord)
    → find_action actions b l ≡ none
    → Dict.get actions key ≡ some r
    → ¬ ((r.business_id ≡ b) × (r.ledger_id ≡ l))
unfolding find_action Dict.get
find_action-none [] b l key r h g = absurd (cc)
find_action-none ((j, s) ∷ actions) b l key r h g =
    ground (arith, find_action-none actions b l key r)

-- The decision that was taken, the pending request of the business, and the record it is about.
pub record DecidedFrom (P : Platform) (R : Redactor) (st : ActionStore) (c : ApprovalChoice)
    (w : Decided) : Type 0 where
  pub decision : ApprovalDecision
  pub request : WorkflowApprovalRequest
  pub key : String × String
  pub entry : WorkflowActionLedgerRecord
  pub parsed : parse_decision c.decision ≡ some decision
  pub stored : Dict.get st.approvals c.approval_request_id ≡ some request
  pub own : request.business_id ≡ c.business_id
  pub is_pending : request.status ≡ ApprovalRequestStatus.pending
  pub found : find_action st.actions c.business_id request.ledger_id ≡ some (key, entry)
  pub result : w ≡ decided P R c decision request (key, entry)

module _ (P : Platform) (R : Redactor) where
  known_decision-ok :
      (o : Option ApprovalDecision) (d : ApprovalDecision) → known_decision R o ≡ ok d → o ≡ some d
  unfolding known_decision
  known_decision-ok none d h = absurd (cc)
  known_decision-ok (some e) d h = cc

  validate-ok :
      (s : String) (d : ApprovalDecision)
      → validate_approval_decision R s ≡ ok d
      → parse_decision s ≡ some d
  unfolding validate_approval_decision
  validate-ok s d h = known_decision-ok (parse_decision s) d h

  scoped_request-ok :
      (o : Option WorkflowApprovalRequest) (b : String) (q : WorkflowApprovalRequest)
      → scoped_request R o b ≡ ok q
      → (o ≡ some q) × (q.business_id ≡ b)
  unfolding scoped_request
  scoped_request-ok none b q h = absurd (cc)
  scoped_request-ok (some p) b q h = ground arith

  found_action-ok :
      (o : Option ((String × String) × WorkflowActionLedgerRecord))
      (pair : (String × String) × WorkflowActionLedgerRecord)
      → found_action R o ≡ ok pair
      → o ≡ some pair
  unfolding found_action
  found_action-ok none pair h = absurd (cc)
  found_action-ok (some p) pair h = cc

  pub decision_of-DecidedFrom :
      (st : ActionStore) (c : ApprovalChoice) (w : Decided)
      → decision_of P R st c ≡ ok w
      → DecidedFrom P R st c w
  unfolding decision_of
  decision_of-DecidedFrom st c w h =
      let (d, hd, h1) = >>=-eq-ok (validate_approval_decision R c.decision) _ h in
      let (q, hq, h2) =
        >>=-eq-ok (scoped_request R (Dict.get st.approvals c.approval_request_id) c.business_id) _
          h1 in
      let (g, h3) = guard-eq-ok (not (q.status == ApprovalRequestStatus.pending)) _ _ h2 in
      let (pair, hp, h4) =
        >>=-eq-ok (found_action R (find_action st.actions c.business_id q.ledger_id)) _ h3 in
      let sq = scoped_request-ok _ _ _ hq in
      record {
        decision = d;
        request = q;
        key = pair.0;
        entry = pair.1;
        parsed = validate-ok _ _ hd;
        stored = sq.0;
        own = sq.1;
        is_pending = ground arith;
        found = found_action-ok _ _ hp;
        result = cc;
      }

  pub validate_of_parsed :
      (s : String) (d : ApprovalDecision)
      → parse_decision s ≡ some d
      → validate_approval_decision R s ≡ ok d
  unfolding validate_approval_decision known_decision
  validate_of_parsed s d h = ap (known_decision R) h

  pub scoped_request_of_own :
      (o : Option WorkflowApprovalRequest) (b : String) (q : WorkflowApprovalRequest)
      → o ≡ some q
      → q.business_id ≡ b
      → scoped_request R o b ≡ ok q
  unfolding scoped_request
  scoped_request_of_own none b q h own = absurd (cc)
  scoped_request_of_own (some p) b q h own = ground arith

  pub scoped_request_of_other :
      (o : Option WorkflowApprovalRequest) (b : String)
      → ((q : WorkflowApprovalRequest) → o ≡ some q → q.business_id ≢ b)
      → scoped_request R o b
        ≡ raise (ledger_error R "approval_request_not_found" "approval request not found")
  unfolding scoped_request
  scoped_request_of_other none b n = refl
  scoped_request_of_other (some p) b n = let differ = n p refl in ground arith

  found_action_of_some :
      (o : Option ((String × String) × WorkflowActionLedgerRecord))
      (pair : (String × String) × WorkflowActionLedgerRecord)
      → o ≡ some pair
      → found_action R o ≡ ok pair
  unfolding found_action
  found_action_of_some none pair h = absurd (cc)
  found_action_of_some (some p) pair h = cc

  is_pending_of_eq :
      (q : WorkflowApprovalRequest)
      → q.status ≡ ApprovalRequestStatus.pending
      → (q.status == ApprovalRequestStatus.pending) ≡ true
  is_pending_of_eq q h = ground arith

  pub decision_of-succeeds :
      (st : ActionStore) (c : ApprovalChoice) (d : ApprovalDecision) (q : WorkflowApprovalRequest)
      (pair : (String × String) × WorkflowActionLedgerRecord)
      → parse_decision c.decision ≡ some d
      → Dict.get st.approvals c.approval_request_id ≡ some q
      → q.business_id ≡ c.business_id
      → q.status ≡ ApprovalRequestStatus.pending
      → find_action st.actions c.business_id q.ledger_id ≡ some pair
      → decision_of P R st c ≡ ok (decided P R c d q pair)
  unfolding decision_of
  decision_of-succeeds st c d q pair hd hq own p hf = rw (validate_of_parsed _ d hd) (
      rw (scoped_request_of_own _ _ q hq own)
        (rw (is_pending_of_eq q p) (rw (found_action_of_some _ pair hf) refl)))
