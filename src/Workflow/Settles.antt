-- ===== src/Workflow/Settles.antt =====
-- A decision keeps the invariant of the action ledger, and so does every sequence of calls.
use orvo_agent.Base.{
  some, ok, raise, Result, ◌≢◌, string_eq, pair_eq, String, refl, ◌≡◌, sym, ap, ◌∙◌, subst, inl,
  inr,
}
use orvo_agent.Base.Dict
use orvo_agent.Base.Dict.{
  get-put_same, get-put_other, get-put_cases, Dict, NodupKeys, get-put, put-NodupKeys,
}
use orvo_agent.Platform.{Platform}
use orvo_agent.Workflow.Record.{
  decision_states, WorkflowActionLedgerError, decided_status, ApprovalDecision, stable_id,
  WorkflowApprovalRequest, WorkflowActionLedgerRecord,
}
use orvo_agent.Workflow.Ledger.{
  find_action, decide_approval_request, decision_of, decided_request, decided_record,
  commit_decision, decided, Decided, ApprovalChoice, ActionStore,
}
use orvo_agent.Redaction.Redactor.{Redactor}
use orvo_agent.Workflow.Consistent.{Agrees, DistinctIds, HasEntry-moved, HasEntry, Consistent}
use orvo_agent.Workflow.Decision.{decision_of-DecidedFrom, find_action-get}
use orvo_agent.Workflow.Decision.{find_action-none}
use orvo_agent.Base.{◌∙◌, Option-cases}
use orvo_agent.Workflow.Keeps.{put-IsFiled}

module _ (P : Platform) (R : Redactor) (Used : String → String → Type 0) where
  -- The search for the record of a request finds no other one.
  found_entry :
      (st : ActionStore) (id : String) (q : WorkflowApprovalRequest) (b : String)
      (pair : (String × String) × WorkflowActionLedgerRecord)
      → Consistent P.sha256 Used st
      → DistinctIds P.sha256 Used
      → find_action st.actions b q.ledger_id ≡ some pair
      → (e : HasEntry P.sha256 st id q) → pair ≡ ((q.business_id, e.key), e.entry)
  found_entry st id q b pair i u f e =
      let (g, _, l) = find_action-get _ _ _ pair.0 pair.1 i.nodup f in
      let here = i.filed pair.0.0 pair.0.1 pair.1 g in
      let there = i.filed q.business_id e.key e.entry e.found in
      let (p, k) =
        u "workflow-action" pair.0.0 q.business_id pair.0.1 e.key here.used there.used
          (sym here.ledger_id ∙ l ∙ e.ledger_id ∙ there.ledger_id) in
      let same : pair.0 ≡ (q.business_id, e.key) = λ t. (p t, k t) in
      let stored = sym g ∙ ap (Dict.get st.actions) same ∙ e.found in
      let alike : pair.1 ≡ e.entry = cc in λ t. (same t, alike t)

  pub find_own-entry :
      (st : ActionStore) (c : ApprovalChoice) (q : WorkflowApprovalRequest)
      → Consistent P.sha256 Used st
      → DistinctIds P.sha256 Used
      → q.business_id ≡ c.business_id
      → (e : HasEntry P.sha256 st c.approval_request_id q)
      → find_action st.actions c.business_id q.ledger_id ≡ some ((q.business_id, e.key), e.entry)
  find_own-entry st c q i u own e =
      let there = i.filed q.business_id e.key e.entry e.found in
      elim (Option-cases (find_action st.actions c.business_id q.ledger_id)) [
        | inl n ↦
            absurd (find_action-none _ _ _ _ _ n e.found (there.business_id ∙ own, sym e.ledger_id))
        | inr f ↦ f.1 ∙ ap some (found_entry st _ q c.business_id f.0 i u f.1 e)
      ]

  -- the store after the decision on a request with that record
  unfoldable pub settled :
      ActionStore
      → ApprovalChoice
      → ApprovalDecision
      → WorkflowApprovalRequest
      → String
      → WorkflowActionLedgerRecord
      → ActionStore
  unfolding decided
  settled st c d q k r = record {
    actions =
        Dict.put st.actions (q.business_id, k) (decided P R c d q ((q.business_id, k), r)).entry;
    approvals =
        Dict.put st.approvals c.approval_request_id
          (decided P R c d q ((q.business_id, k), r)).request;
  }

  decision_states-Agrees :
      (d : ApprovalDecision) → Agrees (decided_status d) (decision_states d).0 (decision_states d).1
  decision_states-Agrees ApprovalDecision.approved = (refl, refl)
  decision_states-Agrees ApprovalDecision.rejected = (refl, refl)

  settled_entry :
      (st : ActionStore) (c : ApprovalChoice) (d : ApprovalDecision) (q : WorkflowApprovalRequest)
      (e : HasEntry P.sha256 st c.approval_request_id q)
      → HasEntry P.sha256
          (settled st c d q e.key e.entry)
          c.approval_request_id
          (decided P R c d q ((q.business_id, e.key), e.entry)).request
  unfolding settled decided decided_record decided_request
  settled_entry st c d q e = record {
    key = e.key;
    entry = (decided P R c d q ((q.business_id, e.key), e.entry)).entry;
    found = get-put_same st.actions _ _;
    id_eq = e.id_eq;
    own_id = e.own_id;
    ledger_id = e.ledger_id;
    case_id = e.case_id;
    action_key = e.action_key;
    request_id = e.request_id;
    agrees = decision_states-Agrees d;
  }

  other_entry :
      (st : ActionStore) (c : ApprovalChoice) (d : ApprovalDecision) (q : WorkflowApprovalRequest)
      (e : HasEntry P.sha256 st c.approval_request_id q) (id : String) (p : WorkflowApprovalRequest)
      → c.approval_request_id ≢ id
      → HasEntry P.sha256 st id p
      → HasEntry P.sha256 (settled st c d q e.key e.entry) id p
  unfolding settled
  other_entry st c d q e id p n f =
      let other : ¬ (◌≡◌ {A = String × String} (q.business_id, e.key) (p.business_id, f.key)) =
        λ same. n (
          e.id_eq
          ∙ ap (λ (x : String × String). stable_id P.sha256 "workflow-approval" x.0 x.1) same
          ∙ sym f.id_eq) in
      HasEntry-moved P.sha256 st _ id p f (get-put_other st.actions _ _ _ other ∙ f.found)

  settled-Consistent :
      (st : ActionStore) (c : ApprovalChoice) (d : ApprovalDecision) (q : WorkflowApprovalRequest)
      (e : HasEntry P.sha256 st c.approval_request_id q)
      → Consistent P.sha256 Used st
      → Consistent P.sha256 Used (settled st c d q e.key e.entry)
  unfolding settled decided decided_record
  settled-Consistent st c d q e i =
      let f = i.filed q.business_id e.key e.entry e.found in
      record {
        nodup = put-NodupKeys st.actions _ _ i.nodup;
        nodup_requests = put-NodupKeys st.approvals _ _ i.nodup_requests;
        filed = put-IsFiled P R Used st q.business_id e.key _ i (record {
          business_id = f.business_id;
          ledger_id = f.ledger_id;
          idempotency_key = f.idempotency_key;
          used = f.used;
        });
        entries = λ id p g. elim (get-put_cases st.approvals c.approval_request_id id _ p g) [
          | inl s ↦
              subst
                (λ (x : String × WorkflowApprovalRequest).
                  HasEntry P.sha256 (settled st c d q e.key e.entry) x.0 x.1)
                (λ t. (s.0 t, sym s.1 t)) (settled_entry st c d q e)
          | inr s ↦ other_entry st c d q e id p s.0 (i.entries id p s.1)
        ];
      }

  commit_decision-Consistent :
      (st : ActionStore) (c : ApprovalChoice) (o : Result WorkflowActionLedgerError Decided)
      → decision_of P R st c ≡ o
      → DistinctIds P.sha256 Used
      → Consistent P.sha256 Used st
      → Consistent P.sha256 Used (commit_decision st c.approval_request_id o).1
  unfolding commit_decision settled decided
  commit_decision-Consistent st c (raise e) h u i = i
  commit_decision-Consistent st c (ok w) h u i =
      let f = decision_of-DecidedFrom P R st c w h in
      let e = i.entries c.approval_request_id f.request f.stored in
      let same =
        f.result
        ∙ ap (decided P R c f.decision f.request)
            (found_entry st _ f.request c.business_id (f.key, f.entry) i u f.found e) in
      subst (λ v. Consistent P.sha256 Used (commit_decision st c.approval_request_id (ok v)).1)
        (sym same) (settled-Consistent st c f.decision f.request e i)

  pub decide_approval_request-Consistent :
      (st : ActionStore) (c : ApprovalChoice)
      → DistinctIds P.sha256 Used
      → Consistent P.sha256 Used st
      → Consistent P.sha256 Used (decide_approval_request P R st c).1
  unfolding decide_approval_request
  decide_approval_request-Consistent st c u i = commit_decision-Consistent st c _ refl u i
