-- ===== src/Workflow/Exact.antt =====
-- The approval queue holds exactly the requests that wait for a decision.
use orvo_agent.Base.{
  none-ne-some, String, true, some, List, [], ◌∷◌, string_eq, option_eq, pair_eq, map, ◌≡◌, ◌⊎◌,
  inl, inr, sym, ap, ◌∙◌, arith, subst, ◌↔◌,
}
use orvo_agent.Base.Dict
use orvo_agent.Base.Dict.{
  get-nil, get-put_cases, get-put_same, get-put_other, Dict, get-put, values,
}
use orvo_agent.Base.Membership.{
  In, In-filter, In-of_filter, In-map, In-of_map, In-sort_by, In-of_sort_by, In-values,
  In-of_values,
}
use orvo_agent.Workflow.Record.{
  WorkflowApprovalRequest, WorkflowActionLedgerRecord, ApprovalState, approval_state_eq,
  execution_state_eq, request_status_eq,
}
use orvo_agent.Workflow.Ledger.{
  request_of_business, list_approval_requests, list_actions, ActionStore,
}
use orvo_agent.Workflow.Consistent.{Agrees, DistinctIds, Consistent}
use orvo_agent.Workflow.Queues.{
  Pair, pair_leb, paired, pending_pairs, is_pending_approval, index_by_ledger_id,
}
use orvo_agent.Workflow.Awaiting.{IsAwaiting, In-of_list_actions, Filed, In-list_actions}

index-keeps :
    (records : List WorkflowActionLedgerRecord) (d : Dict String WorkflowActionLedgerRecord)
    (id : String)
    → (x : WorkflowActionLedgerRecord) × (Dict.get d id ≡ some x)
    → (y : WorkflowActionLedgerRecord) × (Dict.get (index_by_ledger_id records d) id ≡ some y)
unfolding index_by_ledger_id
index-keeps [] d id h = h
index-keeps (r ∷ records) d id (x, h) =
    index-keeps records (Dict.put d r.ledger_id r) id (elim (string_eq.dec r.ledger_id id) [
      | yes e ↦ (r, get-put d r.ledger_id id r ∙ ground arith)
      | no n ↦ (x, get-put_other d r.ledger_id id r n ∙ h)
    ])

-- A record in the list is found under its id, or another one with that id is.
index-finds :
    (records : List WorkflowActionLedgerRecord) (d : Dict String WorkflowActionLedgerRecord)
    (r : WorkflowActionLedgerRecord)
    → In r records
    → (y : WorkflowActionLedgerRecord) × (Dict.get (index_by_ledger_id records d) r.ledger_id
        ≡ some y)
unfolding index_by_ledger_id
index-finds [] d r m = elim m [ ]
index-finds (s ∷ records) d r (inl e) = index-keeps records (Dict.put d s.ledger_id s) r.ledger_id (
  s,
  ap (λ (x : WorkflowActionLedgerRecord). Dict.get (Dict.put d s.ledger_id s) x.ledger_id) (sym e)
      ∙ get-put_same d s.ledger_id s,
)
index-finds (s ∷ records) d r (inr m) = index-finds records (Dict.put d s.ledger_id s) r m

index_sound :
    (records : List WorkflowActionLedgerRecord) (d : Dict String WorkflowActionLedgerRecord)
    (id : String) (r : WorkflowActionLedgerRecord)
    → Dict.get (index_by_ledger_id records d) id ≡ some r
    → (In r records × (r.ledger_id ≡ id)) ⊎ (Dict.get d id ≡ some r)
unfolding index_by_ledger_id
index_sound [] d id r h = inr h
index_sound (s ∷ records) d id r h = elim (index_sound records (Dict.put d s.ledger_id s) id r h) [
  | inl m ↦ inl (inr m.0, m.1)
  | inr g ↦ elim (get-put_cases d s.ledger_id id s r g) [
    | inl e ↦ inl (inl (sym e.1), ap (λ (x : WorkflowActionLedgerRecord). x.ledger_id) e.1 ∙ e.0)
    | inr e ↦ inr e.1
  ]
]

module _ (sha256 : String → String) (Used : String → String → Type 0) (st : ActionStore)
    (i : Consistent sha256 Used st) (u : DistinctIds sha256 Used) (b : String) where
  -- The ledger id determines the record.
  pub Filed-unique :
      (r s : WorkflowActionLedgerRecord)
      → Filed st b r
      → Filed st b s
      → r.ledger_id ≡ s.ledger_id
      → r ≡ s
  Filed-unique r s (k, g) (j, h) e =
      let f = i.filed b k r g in
      let f' = i.filed b j s h in
      let (_, same) =
        u "workflow-action" b b k j f.used f'.used (sym f.ledger_id ∙ e ∙ f'.ledger_id) in
      let both = sym g ∙ ap (λ x. Dict.get st.actions (b, x)) same ∙ h in cc

  abbrev by_id : Dict String WorkflowActionLedgerRecord
  by_id = index_by_ledger_id (list_actions st b) []

  by_id-Filed :
      (r : WorkflowActionLedgerRecord) → Filed st b r → Dict.get by_id r.ledger_id ≡ some r
  by_id-Filed r f =
      let (y, h) = index-finds (list_actions st b) [] r (In-list_actions sha256 Used st i b r f) in
      h
      ∙ ap some (elim (index_sound (list_actions st b) [] r.ledger_id y h) [
        | inl m ↦ Filed-unique y r (In-of_list_actions sha256 Used st i b y m.0) f m.1
        | inr g ↦ absurd (none-ne-some _ (sym (get-nil r.ledger_id) ∙ g))
      ])

  by_id_sound :
      (id : String) (r : WorkflowActionLedgerRecord)
      → Dict.get by_id id ≡ some r
      → Filed st b r × (r.ledger_id ≡ id)
  by_id_sound id r h = elim (index_sound (list_actions st b) [] id r h) [
    | inl m ↦ (In-of_list_actions sha256 Used st i b r m.0, m.1)
    | inr g ↦ absurd (none-ne-some _ (sym (get-nil id) ∙ g))
  ]

  In-list_approval_requests :
      (q : WorkflowApprovalRequest) (r : WorkflowActionLedgerRecord)
      → IsAwaiting st b q r
      → In q (list_approval_requests st b)
  unfolding list_approval_requests
  In-list_approval_requests q r a =
      In-filter (request_of_business b) q _
        (In-values st.approvals q.approval_request_id q a.stored) (let own = a.own in ground arith)

  -- What the queue tests of a request and its record.
  is_pending-IsAwaiting :
      (q : WorkflowApprovalRequest) (r : WorkflowActionLedgerRecord)
      → In q (list_approval_requests st b)
      → Dict.get by_id q.ledger_id ≡ some r
      → is_pending_approval (q, some r) ≡ true
      → IsAwaiting st b q r
  unfolding list_approval_requests is_pending_approval
  is_pending-IsAwaiting q r m g h =
      let (n, own) = In-of_filter (request_of_business b) q _ m in
      let (id, s) = In-of_values st.approvals q i.nodup_requests n in
      let e = (i.entries id q s).own_id in
      let (f, l) = by_id_sound q.ledger_id r g in
      record {
        stored = ap (Dict.get st.approvals) e ∙ s;
        own = ground arith;
        open_request = ground arith;
        filed = f;
        linked = sym l;
        registered = ground arith;
        blocked = ground arith;
      }

  IsAwaiting-is_pending :
      (q : WorkflowApprovalRequest) (r : WorkflowActionLedgerRecord)
      → IsAwaiting st b q r
      → is_pending_approval (q, some r) ≡ true
  unfolding is_pending_approval
  IsAwaiting-is_pending q r a =
      let e = i.entries q.approval_request_id q a.stored in
      let mine : Filed st b e.entry =
        (e.key, ap (λ c. Dict.get st.actions (c, e.key)) (sym a.own) ∙ e.found) in
      let same = Filed-unique e.entry r mine a.filed (sym e.ledger_id ∙ a.linked) in
      let f = i.filed b a.filed.0 r a.filed.1 in
      let b1 = f.business_id in
      let b2 = a.own in
      let l = a.linked in
      let c : q.case_id ≡ r.case_id =
        e.case_id ∙ ap (λ (x : WorkflowActionLedgerRecord). x.case_id) same in
      let k : q.action_key ≡ r.action_key =
        e.action_key ∙ ap (λ (x : WorkflowActionLedgerRecord). x.action_key) same in
      let o : r.approval_request_id ≡ some q.approval_request_id =
        sym (ap (λ (x : WorkflowActionLedgerRecord). x.approval_request_id) same) ∙ e.request_id in
      let p = a.open_request in
      let g = a.registered in
      let x = a.blocked in
      let s : r.approval_state ≡ ApprovalState.pending =
        sym (ap (λ (x : WorkflowActionLedgerRecord). x.approval_state) same)
        ∙ subst (λ t. Agrees t e.entry.approval_state e.entry.execution_state) p e.agrees in
      ground arith

  -- In a consistent store, if the keys in use have distinct ids, the approval queue of a business
  -- holds a request with a record exactly if the request is stored for the business and pending, the
  -- record is the filed one with its ledger id, and that has a registered action which is blocked
  -- until approval.
  pub pending_pairs-IsAwaiting :
      (q : WorkflowApprovalRequest) (r : WorkflowActionLedgerRecord)
      → In (q, some r) (pending_pairs st b) ↔ IsAwaiting st b q r
  unfolding pending_pairs paired
  pending_pairs-IsAwaiting q r = (
    λ m.
        let (n, h) =
          In-of_filter is_pending_approval (q, some r) _ (In-of_sort_by pair_leb (q, some r) _ m) in
        let (p, k, e) = In-of_map (paired by_id) (q, some r) (list_approval_requests st b) n in
        let same : p ≡ q = ap (λ (x : Pair). x.0) e in
        is_pending-IsAwaiting q r (subst (λ x. In x (list_approval_requests st b)) same k)
          (ap (λ (x : WorkflowApprovalRequest). Dict.get by_id x.ledger_id) (sym same)
            ∙ ap (λ (x : Pair). x.1) e)
          h,
    λ a.
        let found : paired by_id q ≡ (q, some r) =
          ap (λ o. (q, o)) (ap (Dict.get by_id) a.linked ∙ by_id-Filed r a.filed) in
        In-sort_by pair_leb (q, some r) _
          (In-filter is_pending_approval (q, some r) _
            (subst (λ x. In x (map (paired by_id) (list_approval_requests st b))) found
              (In-map (paired by_id) q _ (In-list_approval_requests q r a)))
            (IsAwaiting-is_pending q r a)),
  )
