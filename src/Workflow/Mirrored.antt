-- ===== src/Workflow/Mirrored.antt =====
-- Recording an action in the SQLite store mirrors recording it in the in-memory store.
use orvo_agent.Base.{
  Option, inr, inl, Option-cases, String, false, none, some, [], ◌∷◌, ◌++◌, string_eq, pair_eq, All,
  map, ◌≢◌, ok, ◌≡◌, refl, sym, ap, ◌∙◌, some-ne-none,
}
use orvo_agent.Base.Dict
use orvo_agent.Base.Dict.{Dict, NodupKeys, values, get-nil}
use orvo_agent.Redaction.Redactor.{Redactor}
use orvo_agent.Platform.{Platform}
use orvo_agent.Workflow.Sqlite.{
  TableAnswer, insert_request, RequestRow, answer_with, request_row, action_row, select_action,
  record_planned_action_row, ActionRow, Codec,
}
use orvo_agent.Workflow.Ledger.{
  record_or_reuse, record_new, record_planned_action, planned_request, planned_request_id,
  planned_record, PlannedAction, ActionStore,
}
use orvo_agent.Workflow.Consistent.{DistinctIds, Consistent}
use orvo_agent.Workflow.Record.{WorkflowActionLedgerWrite, WorkflowActionLedgerRecord}
use orvo_agent.Workflow.Mirror.{
  has_request-none, conflicts-none, conflicts_of_selected, select_action-some, map-append_one,
  read_write, select_action-last, put-new, All-of_get, select_action-none, tables_of, IsKeyed,
}
use orvo_agent.Workflow.Keeps.{planned_request_id-some}
use orvo_agent.Workflow.Outcomes.{record_planned_action_of_known}

All-map-values :
    {K V B : Type 0} (f : V → B) (Q : B → Type 0) (d : Dict K V)
    → All (λ (x : K × V). Q (f x.1)) d
    → All Q (map f (values d))
All-map-values f Q [] h = tt
All-map-values f Q ((k, v) ∷ d) (h, t) = (h, All-map-values f Q d t)

module _ (P : Platform) (R : Redactor) (C : Codec) (Used : String → String → Type 0)
    (st : ActionStore) (i : Consistent P.sha256 Used st) (u : DistinctIds P.sha256 Used)
    (a : PlannedAction) (in_use : Used a.business_id a.idempotency_key) where
  actions-IsKeyed :
      All (λ (x : (String × String) × WorkflowActionLedgerRecord). IsKeyed x.0 x.1) st.actions
  actions-IsKeyed =
      All-of_get IsKeyed st.actions i.nodup
        (λ key r g. let f = i.filed key.0 key.1 r g in (f.business_id, f.idempotency_key))

  abbrev new_row : ActionRow
  new_row = action_row P R C (planned_record P R a)

  -- With a record under the key, both stores return it.
  known-mirrored :
      (r : WorkflowActionLedgerRecord)
      → Dict.get st.actions (a.business_id, a.idempotency_key) ≡ some r
      → record_planned_action_row P R C (tables_of P R C st) a ≡ (
        ok (read_write P R C (record { entry = r; created = false; approval_request = none })),
        tables_of P R C st,
      )
  unfolding record_planned_action_row tables_of answer_with action_row planned_record
  known-mirrored r g =
      let s =
        select_action-some P R C st.actions a.business_id a.idempotency_key r actions-IsKeyed g in
      rw (conflicts_of_selected (tables_of P R C st).actions new_row (action_row P R C r) s)
        (rw s refl)

  no_row :
      Dict.get st.actions (a.business_id, a.idempotency_key) ≡ none
      → select_action (map (action_row P R C) (values st.actions)) a.business_id a.idempotency_key
        ≡ none
  no_row n = select_action-none P R C st.actions a.business_id a.idempotency_key actions-IsKeyed n

  -- Another key has another ledger id.
  no_ledger_id :
      Dict.get st.actions (a.business_id, a.idempotency_key) ≡ none
      → All
          (λ (x : ActionRow). x.ledger_id ≢ new_row.ledger_id)
          (map (action_row P R C) (values st.actions))
  unfolding action_row planned_record
  no_ledger_id n =
      All-map-values (action_row P R C) (λ (x : ActionRow). x.ledger_id ≢ new_row.ledger_id)
        st.actions
        (All-of_get (λ key r. r.ledger_id ≢ new_row.ledger_id) st.actions i.nodup
          (λ key r g e.
            let f = i.filed key.0 key.1 r g in
            let (b, k) =
              u "workflow-action" key.0 a.business_id key.1 a.idempotency_key f.used in_use
                (sym f.ledger_id ∙ e) in
            some-ne-none _ (sym g ∙ ap (Dict.get st.actions) (λ t. (b t, k t)) ∙ n)))

  no_request_id :
      (id : String)
      → planned_request_id P R a ≡ some id
      → Dict.get st.actions (a.business_id, a.idempotency_key) ≡ none
      → All
          (λ (x : RequestRow). x.approval_request_id ≢ id)
          (map (request_row P R C) (values st.approvals))
  unfolding request_row
  no_request_id id h n =
      All-map-values (request_row P R C) (λ (x : RequestRow). x.approval_request_id ≢ id)
        st.approvals
        (All-of_get (λ j q. q.approval_request_id ≢ id) st.approvals i.nodup_requests
          (λ j q g e.
            let x = i.entries j q g in
            let f = i.filed q.business_id x.key x.entry x.found in
            let (b, k) =
              u "workflow-approval" q.business_id a.business_id x.key a.idempotency_key f.used
                in_use
                (sym x.id_eq ∙ sym x.own_id ∙ e ∙ (planned_request_id-some P R Used a id h).0) in
            some-ne-none _ (sym x.found ∙ ap (Dict.get st.actions) (λ t. (b t, k t)) ∙ n)))

  appended_rows :
      Dict.get st.actions (a.business_id, a.idempotency_key) ≡ none
      → map
          (action_row P R C)
          (values (Dict.put st.actions (a.business_id, a.idempotency_key) (planned_record P R a)))
        ≡ map (action_row P R C) (values st.actions) ++ (new_row ∷ [])
  appended_rows n =
      ap (map (action_row P R C)) (put-new st.actions _ (planned_record P R a) n)
      ∙ map-append_one (action_row P R C) (values st.actions) (planned_record P R a)

  selected_new :
      Dict.get st.actions (a.business_id, a.idempotency_key) ≡ none
      → select_action
          (map (action_row P R C) (values st.actions) ++ (new_row ∷ []))
          a.business_id
          a.idempotency_key
        ≡ some new_row
  unfolding action_row planned_record
  selected_new n =
      select_action-last (map (action_row P R C) (values st.actions)) new_row (no_row n)

  fresh_requests :
      (id : String)
      → planned_request_id P R a ≡ some id
      → Dict.get st.actions (a.business_id, a.idempotency_key) ≡ none
      → Dict.get st.approvals id ≡ none
  fresh_requests id h n = elim (Option-cases (Dict.get st.approvals id)) [
    | inl e ↦ e
    | inr q ↦
        let x = i.entries id q.0 q.1 in
        let f = i.filed q.0.business_id x.key x.entry x.found in
        let (b, k) =
          u "workflow-approval" q.0.business_id a.business_id x.key a.idempotency_key f.used in_use
            (sym x.id_eq ∙ (planned_request_id-some P R Used a id h).0) in
        absurd (some-ne-none _ (sym x.found ∙ ap (Dict.get st.actions) (λ t. (b t, k t)) ∙ n))
  ]

  appended_requests :
      (id : String)
      → Dict.get st.approvals id ≡ none
      → map (request_row P R C) (values (Dict.put st.approvals id (planned_request P R a id)))
        ≡ map (request_row P R C) (values st.approvals)
          ++ (request_row P R C (planned_request P R a id) ∷ [])
  appended_requests id n =
      ap (map (request_row P R C)) (put-new st.approvals id (planned_request P R a id) n)
      ∙ map-append_one (request_row P R C) (values st.approvals) (planned_request P R a id)

  -- What both stores answer for a new key.
  insert_request-mirrors :
      (o : Option String)
      → planned_request_id P R a ≡ o
      → Dict.get st.actions (a.business_id, a.idempotency_key) ≡ none
      → insert_request P R C
          (tables_of P R C st)
          a
          (map (action_row P R C) (values st.actions) ++ (new_row ∷ []))
          o
        ≡ (
          ok (read_write P R C (record_new P R st a o).0),
          tables_of P R C (record_new P R st a o).1,
        )
  unfolding insert_request answer_with tables_of record_new
  insert_request-mirrors none h n = rw (selected_new n) (rw (appended_rows n) refl)
  insert_request-mirrors (some id) h n =
      rw
        (has_request-none (map (request_row P R C) (values st.approvals)) id (no_request_id id h n))
        (rw (selected_new n)
          (rw (appended_rows n) (rw (appended_requests id (fresh_requests id h n)) refl)))

  new-mirrored :
      Dict.get st.actions (a.business_id, a.idempotency_key) ≡ none
      → record_planned_action_row P R C (tables_of P R C st) a ≡ (
        ok (read_write P R C (record_planned_action P R st a).0),
        tables_of P R C (record_planned_action P R st a).1,
      )
  unfolding record_planned_action_row tables_of record_planned_action record_or_reuse
  new-mirrored n =
      rw
        (conflicts-none (map (action_row P R C) (values st.actions)) new_row (no_ledger_id n)
          (no_row n))
        (rw n (insert_request-mirrors (planned_request_id P R a) refl n))

  -- the answer of the SQLite store for an answer of the in-memory store
  abbrev answered : WorkflowActionLedgerWrite × ActionStore → TableAnswer P R C
  answered x = (ok (read_write P R C x.0), tables_of P R C x.1)

  -- One recording in the SQLite store is that recording in the in-memory store.
  pub record_planned_action_row-mirrors : record_planned_action_row P R C (tables_of P R C st) a ≡ (
    ok (read_write P R C (record_planned_action P R st a).0),
    tables_of P R C (record_planned_action P R st a).1,
  )
  record_planned_action_row-mirrors =
      elim (Option-cases (Dict.get st.actions (a.business_id, a.idempotency_key))) [
        | inl n ↦ new-mirrored n
        | inr r ↦
            known-mirrored r.0 r.1
            ∙ ap (λ (x : WorkflowActionLedgerWrite × ActionStore). answered x)
                (sym (record_planned_action_of_known P R st a r.0 r.1))
      ]
