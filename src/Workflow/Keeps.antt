-- ===== src/Workflow/Keeps.antt =====
-- Both operations of the action ledger keep its invariant.
use orvo_agent.Base.{
  string_eq, pair_eq, none, some, Option, String, refl, ◌≡◌, sym, ap, ◌∙◌, arith, subst, inl, inr,
}
use orvo_agent.Base.{some-ne-none}
use orvo_agent.Base.Dict
use orvo_agent.Base.Dict.{
  get-put_same, get-put_other, get-put_cases, Dict, NodupKeys, get-put, put-NodupKeys,
}
use orvo_agent.Platform.{Platform}
use orvo_agent.Workflow.Record.{
  stable_id, WorkflowApprovalRequest, WorkflowActionLedgerRecord, ApprovalState,
}
use orvo_agent.Workflow.Ledger.{
  record_planned_action, record_or_reuse, planned_request_id, planned_request, record_new,
  PlannedAction, planned_record, ActionStore,
}
use orvo_agent.Redaction.Redactor.{Redactor}
use orvo_agent.Workflow.Consistent.{HasEntry-moved, HasEntry, Consistent, IsFiled}

module _ (P : Platform) (R : Redactor) (Used : String → String → Type 0) where
  planned_record-IsFiled :
      (a : PlannedAction)
      → Used a.business_id a.idempotency_key
      → IsFiled P.sha256 Used a.business_id a.idempotency_key (planned_record P R a)
  unfolding planned_record
  planned_record-IsFiled a u = record {
    business_id = refl;
    ledger_id = refl;
    idempotency_key = refl;
    used = u;
  }

  IsFiled-at :
      (b k c j : String) (r s : WorkflowActionLedgerRecord)
      → IsFiled P.sha256 Used b k r
      → ◌≡◌ {A = String × String} (b, k) (c, j)
      → s ≡ r
      → IsFiled P.sha256 Used c j s
  IsFiled-at b k c j r s f e h = record {
    business_id = cc;
    ledger_id = cc;
    idempotency_key = cc;
    used = subst (λ (p : String × String). Used p.0 p.1) e f.used;
  }

  -- Writing a filed record keeps the others filed.
  pub put-IsFiled :
      (st : ActionStore) (b k : String) (r : WorkflowActionLedgerRecord)
      → Consistent P.sha256 Used st
      → IsFiled P.sha256 Used b k r
      → (c j : String) (s : WorkflowActionLedgerRecord)
      → Dict.get (Dict.put st.actions (b, k) r) (c, j) ≡ some s
      → IsFiled P.sha256 Used c j s
  put-IsFiled st b k r i f c j s h = elim (get-put_cases st.actions (b, k) (c, j) r s h) [
    | inl p ↦ IsFiled-at b k c j r s f p.0 p.1
    | inr g ↦ i.filed c j s g.1
  ]

  -- A request keeps its record when a new one is filed.
  kept_entry :
      (st after : ActionStore) (a : PlannedAction) (r : WorkflowActionLedgerRecord)
      → Dict.get st.actions (a.business_id, a.idempotency_key) ≡ none
      → after.actions ≡ Dict.put st.actions (a.business_id, a.idempotency_key) r
      → (id : String) (q : WorkflowApprovalRequest) → HasEntry P.sha256 st id q
      → HasEntry P.sha256 after id q
  kept_entry st after a r n e id q h =
      let other : ¬ (
          ◌≡◌ {A = String × String} (a.business_id, a.idempotency_key) (q.business_id, h.key)) =
        λ same. some-ne-none _ (sym h.found ∙ ap (Dict.get st.actions) (sym same) ∙ n) in
      HasEntry-moved P.sha256 st after id q h (
        ap (λ d. Dict.get d (q.business_id, h.key)) e
        ∙ get-put_other st.actions _ _ r other
        ∙ h.found)

  pub planned_request_id-some :
      (a : PlannedAction) (id : String)
      → planned_request_id P R a ≡ some id
      → (id ≡ stable_id P.sha256 "workflow-approval" a.business_id a.idempotency_key)
        × ((planned_record P R a).approval_state ≡ ApprovalState.pending)
  unfolding planned_request_id planned_record
  planned_request_id-some a id h = ground arith

  new_entry :
      (st : ActionStore) (a : PlannedAction) (id : String)
      → planned_request_id P R a ≡ some id
      → HasEntry P.sha256 (record_new P R st a (some id)).1 id (planned_request P R a id)
  unfolding record_new planned_request planned_record
  new_entry st a id h = record {
    key = a.idempotency_key;
    entry = planned_record P R a;
    found = get-put_same st.actions _ _;
    id_eq = (planned_request_id-some a id h).0;
    own_id = refl;
    ledger_id = refl;
    case_id = refl;
    action_key = refl;
    request_id = h;
    agrees = (planned_request_id-some a id h).1;
  }

  record_new-Consistent :
      (st : ActionStore) (a : PlannedAction) (o : Option String)
      → planned_request_id P R a ≡ o
      → Dict.get st.actions (a.business_id, a.idempotency_key) ≡ none
      → Used a.business_id a.idempotency_key
      → Consistent P.sha256 Used st
      → Consistent P.sha256 Used (record_new P R st a o).1
  unfolding record_new
  record_new-Consistent st a none h n u i = record {
    nodup = put-NodupKeys st.actions _ _ i.nodup;
    nodup_requests = i.nodup_requests;
    filed = put-IsFiled st _ _ (planned_record P R a) i (planned_record-IsFiled a u);
    entries = λ id q g. kept_entry st _ a (planned_record P R a) n refl id q (i.entries id q g);
  }
  record_new-Consistent st a (some new) h n u i = record {
    nodup = put-NodupKeys st.actions _ _ i.nodup;
    nodup_requests = put-NodupKeys st.approvals _ _ i.nodup_requests;
    filed = put-IsFiled st _ _ (planned_record P R a) i (planned_record-IsFiled a u);
    entries = λ id q g. elim (get-put_cases st.approvals new id (planned_request P R a new) q g) [
      | inl p ↦
          subst
            (λ (x : String × WorkflowApprovalRequest).
              HasEntry P.sha256 (record_new P R st a (some new)).1 x.0 x.1)
            (λ t. (p.0 t, sym p.1 t)) (new_entry st a new h)
      | inr p ↦ kept_entry st _ a (planned_record P R a) n refl id q (i.entries id q p.1)
    ];
  }

  record_or_reuse-Consistent :
      (st : ActionStore) (a : PlannedAction) (o : Option WorkflowActionLedgerRecord)
      → Dict.get st.actions (a.business_id, a.idempotency_key) ≡ o
      → Used a.business_id a.idempotency_key
      → Consistent P.sha256 Used st
      → Consistent P.sha256 Used (record_or_reuse P R st a o).1
  unfolding record_or_reuse
  record_or_reuse-Consistent st a (some r) h u i = i
  record_or_reuse-Consistent st a none h u i =
      record_new-Consistent st a (planned_request_id P R a) refl h u i

  pub record_planned_action-Consistent :
      (st : ActionStore) (a : PlannedAction)
      → Used a.business_id a.idempotency_key
      → Consistent P.sha256 Used st
      → Consistent P.sha256 Used (record_planned_action P R st a).1
  unfolding record_planned_action
  record_planned_action-Consistent st a u i = record_or_reuse-Consistent st a _ refl u i
