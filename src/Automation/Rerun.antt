-- ===== src/Automation/Rerun.antt =====
-- Running a rule again on the same case plans nothing.
use orvo_agent.Base.{
  true-ne-false, ℕ, String, true, false, Option, none, some, List, [], ◌∷◌, string_eq, pair_eq,
  contains, length, ◌≡◌, refl, sym, ap, ◌∙◌, arith, Bool-cases, inl, inr, All, suc, some-ne-none,
  subst,
}
use orvo_agent.Base.Dict
use orvo_agent.Base.Dict.{get-put_other}
use orvo_agent.Redaction.Engine.{Engine}
use orvo_agent.Redaction.Redactor.{Redactor, redactor}
use orvo_agent.Platform.{Platform}
use orvo_agent.Cases.Record.{Case}
use orvo_agent.Workflow.Ledger.{
  PlannedAction, record_planned_action, record_or_reuse, record_new, ActionStore,
}
use orvo_agent.Automation.Rule.{planned_action_projection, WorkflowAction, WorkflowRule, Dynamics}
use orvo_agent.Workflow.Record.{WorkflowActionLedgerWrite, WorkflowActionLedgerRecord}
use orvo_agent.Automation.Simulate.{
  Plan, text_of, add_action, dedupe_planned_actions, planned_arguments, file_action, add_skipped,
  planned_key,
}
use orvo_agent.Catalog.{ActionDefinition}
use orvo_agent.Value.{get_field, Fields}
use orvo_agent.Workflow.Outcomes.{record_planned_action_of_known, record_planned_action-stored}
use orvo_agent.Redaction.Secrets.{redact_entry, redact_fields}

-- The business has filed a record under the key.
abbrev pub IsRecorded : String → ActionStore → String → Type 0
IsRecorded b st key = (x : WorkflowActionLedgerRecord) × (Dict.get st.actions (b, key) ≡ some x)

-- Every record stays filed as it is.
abbrev pub KeepsRecords : ActionStore → ActionStore → Type 0
KeepsRecords st after =
    (k : String × String) (x : WorkflowActionLedgerRecord)
    → Dict.get st.actions k ≡ some x
    → Dict.get after.actions k ≡ some x

module _ (P : Platform) (R : Redactor) where
  put_keeps :
      (st : ActionStore) (a : PlannedAction) (y : WorkflowActionLedgerRecord)
      → Dict.get st.actions (a.business_id, a.idempotency_key) ≡ none
      → (k : String × String) (x : WorkflowActionLedgerRecord) → Dict.get st.actions k ≡ some x
      → Dict.get (Dict.put st.actions (a.business_id, a.idempotency_key) y) k ≡ some x
  put_keeps st a y n k x h =
      get-put_other st.actions _ k y
        (λ e. some-ne-none _ (sym h ∙ ap (Dict.get st.actions) (sym e) ∙ n))
      ∙ h

  record_new-KeepsRecords :
      (st : ActionStore) (a : PlannedAction) (o : Option String)
      → Dict.get st.actions (a.business_id, a.idempotency_key) ≡ none
      → KeepsRecords st (record_new P R st a o).1
  unfolding record_new
  record_new-KeepsRecords st a none n k x h = put_keeps st a _ n k x h
  record_new-KeepsRecords st a (some id) n k x h = put_keeps st a _ n k x h

  record_or_reuse-KeepsRecords :
      (st : ActionStore) (a : PlannedAction) (o : Option WorkflowActionLedgerRecord)
      → Dict.get st.actions (a.business_id, a.idempotency_key) ≡ o
      → KeepsRecords st (record_or_reuse P R st a o).1
  unfolding record_or_reuse
  record_or_reuse-KeepsRecords st a (some y) n k x h = h
  record_or_reuse-KeepsRecords st a none n k x h = record_new-KeepsRecords st a _ n k x h

  record_planned_action-KeepsRecords :
      (st : ActionStore) (a : PlannedAction) → KeepsRecords st (record_planned_action P R st a).1
  unfolding record_planned_action
  record_planned_action-KeepsRecords st a = record_or_reuse-KeepsRecords st a _ refl

module _ (E : Engine) (P : Platform) (Y : Dynamics) (r : WorkflowRule) (c : Case)
    (actor_ref : Option String) where
  -- The key does not depend on the time.
  planned_key-now :
      (now later : ℕ) (a : WorkflowAction) (d : ActionDefinition)
      → planned_key E P Y r c actor_ref now a d ≡ planned_key E P Y r c actor_ref later a d
  unfolding planned_key planned_action_projection text_of redact_fields redact_entry get_field
      string_eq
  planned_key-now now later a d = refl

  -- The ledger after a plan: nothing is lost, and the keys of the actions are filed.
  pub record HasFiled (st : ActionStore) (now : ℕ)
      (actions : List (WorkflowAction × ActionDefinition)) (p : Plan) : Type 0 where
    pub after : ActionStore
    pub ledger : p.ledger ≡ some after
    pub kept : KeepsRecords st after
    pub filed :
        All
          (λ (x : WorkflowAction × ActionDefinition).
            IsRecorded c.business_id after (planned_key E P Y r c actor_ref now x.0 x.1))
          actions

  add_skipped-HasFiled :
      (st : ActionStore) (now : ℕ) (a : WorkflowAction) (d : ActionDefinition)
      (actions : List (WorkflowAction × ActionDefinition)) (s : Fields) (p : Plan)
      → IsRecorded c.business_id st (planned_key E P Y r c actor_ref now a d)
      → HasFiled st now actions p
      → HasFiled st now ((a, d) ∷ actions) (add_skipped s p)
  unfolding add_skipped
  add_skipped-HasFiled st now a d actions s p (x, g) f = record {
    after = f.after;
    ledger = f.ledger;
    kept = f.kept;
    filed = ((x, f.kept _ x g), f.filed);
  }

  file_action-ledger :
      (now : ℕ) (a : WorkflowAction) (d : ActionDefinition) (w : WorkflowActionLedgerWrite)
      (p : Plan)
      → (file_action E P Y r c actor_ref now a d w p).ledger ≡ p.ledger
  unfolding file_action add_action add_skipped
  file_action-ledger now a d w p = ground arith

  recorded-HasFiled :
      (st : ActionStore) (now : ℕ) (a : WorkflowAction) (d : ActionDefinition)
      (actions : List (WorkflowAction × ActionDefinition)) (p : Plan)
      → HasFiled
          (record_planned_action P
            (redactor E)
            st
            (planned_arguments E P Y r c actor_ref now a d)).1
          now
          actions
          p
      → HasFiled st now ((a, d) ∷ actions) (
          file_action E P Y r c actor_ref now a d
            (record_planned_action P
              (redactor E)
              st
              (planned_arguments E P Y r c actor_ref now a d)).0
            p)
  unfolding planned_arguments
  recorded-HasFiled st now a d actions p f =
      let args = planned_arguments E P Y r c actor_ref now a d in
      record {
        after = f.after;
        ledger = file_action-ledger now a d _ p ∙ f.ledger;
        kept =
            λ k x h. f.kept k x (record_planned_action-KeepsRecords P (redactor E) st args k x h);
        filed = ((_, f.kept _ _ (record_planned_action-stored P (redactor E) st args)), f.filed);
      }

  abbrev pub SeenRecorded : ActionStore → List String → Type 0
  SeenRecorded st seen = (k : String) → contains seen k ≡ true → IsRecorded c.business_id st k

  seen-cons :
      (st : ActionStore) (seen : List String) (key : String)
      → SeenRecorded st seen
      → IsRecorded c.business_id st key
      → SeenRecorded st (key ∷ seen)
  seen-cons st seen key f g k h = elim (string_eq.dec k key) [
    | yes e ↦ subst (IsRecorded c.business_id st) (sym e) g
    | no n ↦ f k (ground arith)
  ]

  record_planned_action-IsRecorded :
      (st : ActionStore) (now : ℕ) (a : WorkflowAction) (d : ActionDefinition)
      → IsRecorded c.business_id
          (record_planned_action P
            (redactor E)
            st
            (planned_arguments E P Y r c actor_ref now a d)).1
          (planned_key E P Y r c actor_ref now a d)
  unfolding planned_arguments
  record_planned_action-IsRecorded st now a d = (
    _,
    record_planned_action-stored P (redactor E) st (planned_arguments E P Y r c actor_ref now a d),
  )

  pub dedupe-HasFiled :
      (seen : List String) (st : ActionStore) (now : ℕ)
      (actions : List (WorkflowAction × ActionDefinition))
      → SeenRecorded st seen
      → HasFiled st now actions
          (dedupe_planned_actions E P Y r c actor_ref now seen (some st) actions)
  unfolding dedupe_planned_actions
  dedupe-HasFiled seen st now [] f = record {
    after = st;
    ledger = refl;
    kept = λ k x h. h;
    filed = tt;
  }
  dedupe-HasFiled seen st now ((a, d) ∷ actions) f =
      let key = planned_key E P Y r c actor_ref now a d in
      let args = planned_arguments E P Y r c actor_ref now a d in
      let next = (record_planned_action P (redactor E) st args).1 in
      elim (Bool-cases (contains seen key)) [
        | inl e ↦ rw e (
            add_skipped-HasFiled st now a d actions _ _ (f key e)
              (dedupe-HasFiled seen st now actions f))
        | inr e ↦ rw e (
            recorded-HasFiled st now a d actions _ (
              dedupe-HasFiled (key ∷ seen) next now actions (
                seen-cons next seen key
                  (λ k m.
                    let (x, g) = f k m in
                    (x, record_planned_action-KeepsRecords P (redactor E) st args _ x g))
                  (record_planned_action-IsRecorded st now a d))))
      ]

  -- A plan in which nothing is new.
  pub record IsEmptyPlan (st : ActionStore) (n : ℕ) (p : Plan) : Type 0 where
    pub no_action : p.actions ≡ []
    pub all_skipped : length p.skipped_actions ≡ n
    pub unchanged : p.ledger ≡ some st

  add_skipped-IsEmptyPlan :
      (st : ActionStore) (n : ℕ) (s : Fields) (p : Plan)
      → IsEmptyPlan st n p
      → IsEmptyPlan st (suc n) (add_skipped s p)
  unfolding add_skipped
  add_skipped-IsEmptyPlan st n s p i = record {
    no_action = i.no_action;
    all_skipped = ap suc i.all_skipped;
    unchanged = i.unchanged;
  }

  recorded-IsEmptyPlan :
      (st : ActionStore) (now : ℕ) (n : ℕ) (a : WorkflowAction) (d : ActionDefinition)
      (w : WorkflowActionLedgerWrite) (p : Plan)
      → w.created ≡ false
      → IsEmptyPlan st n p
      → IsEmptyPlan st (suc n) (file_action E P Y r c actor_ref now a d w p)
  unfolding file_action
  recorded-IsEmptyPlan st now n a d w p h i = rw h (add_skipped-IsEmptyPlan st n _ p i)

  known_action :
      (st : ActionStore) (now : ℕ) (a : WorkflowAction) (d : ActionDefinition)
      → IsRecorded c.business_id st (planned_key E P Y r c actor_ref now a d)
      → ((record_planned_action P
            (redactor E)
            st
            (planned_arguments E P Y r c actor_ref now a d)).0.created
          ≡ false)
        × ((record_planned_action P
              (redactor E)
              st
              (planned_arguments E P Y r c actor_ref now a d)).1
            ≡ st)
  unfolding planned_arguments
  known_action st now a d (x, g) =
      let e =
        record_planned_action_of_known P (redactor E) st
          (planned_arguments E P Y r c actor_ref now a d) x g in
      (
        ap (λ (o : WorkflowActionLedgerWrite × ActionStore). o.0.created) e,
        ap (λ (o : WorkflowActionLedgerWrite × ActionStore). o.1) e,
      )

  filed-IsEmptyPlan :
      (seen : List String) (st : ActionStore) (now : ℕ)
      (actions : List (WorkflowAction × ActionDefinition))
      → All
          (λ (x : WorkflowAction × ActionDefinition).
            IsRecorded c.business_id st (planned_key E P Y r c actor_ref now x.0 x.1))
          actions
      → IsEmptyPlan st
          (length actions)
          (dedupe_planned_actions E P Y r c actor_ref now seen (some st) actions)
  unfolding dedupe_planned_actions
  filed-IsEmptyPlan seen st now [] f = record {
    no_action = refl;
    all_skipped = refl;
    unchanged = refl;
  }
  filed-IsEmptyPlan seen st now ((a, d) ∷ actions) (f, fs) =
      let key = planned_key E P Y r c actor_ref now a d in
      let w =
        record_planned_action P (redactor E) st (planned_arguments E P Y r c actor_ref now a d) in
      let (old, same) = known_action st now a d f in
      elim (Bool-cases (contains seen key)) [
        | inl e ↦ rw e (add_skipped-IsEmptyPlan st _ _ _ (filed-IsEmptyPlan seen st now actions fs))
        | inr e ↦ rw e (
            recorded-IsEmptyPlan st now (length actions) a d w.0 _ old (
              subst
                (λ x.
                  IsEmptyPlan st (length actions)
                    (dedupe_planned_actions E P Y r c actor_ref now (key ∷ seen) (some x) actions))
                (sym same) (filed-IsEmptyPlan (key ∷ seen) st now actions fs)))
      ]

  All-later :
      (st : ActionStore) (now later : ℕ) (actions : List (WorkflowAction × ActionDefinition))
      → All
          (λ (x : WorkflowAction × ActionDefinition).
            IsRecorded c.business_id st (planned_key E P Y r c actor_ref now x.0 x.1))
          actions
      → All
          (λ (x : WorkflowAction × ActionDefinition).
            IsRecorded c.business_id st (planned_key E P Y r c actor_ref later x.0 x.1))
          actions
  All-later st now later [] f = tt
  All-later st now later ((a, d) ∷ actions) (f, fs) = (
    subst (IsRecorded c.business_id st) (planned_key-now now later a d) f,
    All-later st now later actions fs,
  )

  -- With a ledger: planning the actions of a rule again on the same case, at any later time, plans
  -- nothing, skips every action, and leaves the ledger as the first plan left it.
  pub dedupe_planned_actions-IsEmptyPlan :
      (st : ActionStore) (now later : ℕ) (actions : List (WorkflowAction × ActionDefinition))
      → (after : ActionStore) × ((dedupe_planned_actions E P Y r c actor_ref now []
            (some st)
            actions).ledger
          ≡ some after)
        × IsEmptyPlan after
            (length actions)
            (dedupe_planned_actions E P Y r c actor_ref later [] (some after) actions)
  dedupe_planned_actions-IsEmptyPlan st now later actions =
      let f = dedupe-HasFiled [] st now actions (λ k m. absurd (true-ne-false (sym m))) in
      (
        f.after,
        f.ledger,
        filed-IsEmptyPlan [] f.after later actions (All-later f.after now later actions f.filed),
      )
