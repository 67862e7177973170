-- ===== src/Workflow/Durable.antt =====
-- Sequences of calls of the SQLite store and of the in-memory store.
use orvo_agent.Base.{
  ap, ℕ, String, Option, none, some, List, [], ◌∷◌, ◌==◌, string_eq, pair_eq, Result, ok, raise,
  ◌≡◌, refl, sym, ◌∙◌, Option-cases, inl, inr, none-ne-some, Bool-cases,
}
use orvo_agent.Base.Dict
use orvo_agent.Redaction.Redactor.{Redactor}
use orvo_agent.Platform.{iso, Platform}
use orvo_agent.Workflow.Record.{
  parse_decision, WorkflowApprovalRequest, WorkflowApprovalDecisionRecord,
  WorkflowActionLedgerError, WorkflowActionLedgerWrite, ApprovalRequestStatus, ApprovalDecision,
  request_status_eq,
}
use orvo_agent.Workflow.Calls.{
  perform_action-Consistent, AllUse, run_actions, CallUses, ActionCall, perform_action, plan,
  decide,
}
use orvo_agent.Workflow.Sqlite.{
  TableAnswer, json_dumps, request_row, action_row, Tables, record_planned_action_row, Codec,
  TableError,
}
use orvo_agent.Workflow.Mirrors.{late-mirrors, unknown-mirrors, missing-mirrors, mirrored}
use orvo_agent.Workflow.Mirror.{read_write, tables_of}
use orvo_agent.Workflow.Ledger.{
  ApprovalChoice, decide_approval_request, record_planned_action, ActionStore,
}
use orvo_agent.Workflow.Updates.{decide_approval_request_row}
use orvo_agent.Workflow.Outcome.{other_of_stored, Decision}
use orvo_agent.Workflow.Consistent.{DistinctIds, Consistent}
use orvo_agent.Workflow.Mirroring.{taken-mirrors}
use orvo_agent.Workflow.Mirrored.{record_planned_action_row-mirrors}

-- What a call of either store answers.
pub data StoreAnswer : Type 0 where
  written : Result TableError WorkflowActionLedgerWrite → StoreAnswer
  settled_as :
      Result WorkflowActionLedgerError (Option WorkflowApprovalDecisionRecord) → StoreAnswer

module _ (P : Platform) (R : Redactor) (C : Codec) where
  -- a call of the SQLite store
  unfoldable pub perform_row : Tables → ℕ → ActionCall → StoreAnswer × Tables
  unfolding record_planned_action_row decide_approval_request_row
  perform_row T now (plan a) =
      let out = record_planned_action_row (record P { now = now }) R C T a in (written out.0, out.1)
  perform_row T now (decide c) =
      let out = decide_approval_request_row (record P { now = now }) R C T c in
      (settled_as out.0, out.1)

  unfoldable pub run_rows : Tables → List (ℕ × ActionCall) → List StoreAnswer × Tables
  unfolding perform_row
  run_rows T [] = ([], T)
  run_rows T ((now, call) ∷ calls) =
      let out = perform_row T now call in
      let rest = run_rows out.1 calls in (out.0 ∷ rest.0, rest.1)

  -- the answer of the in-memory store to a call, with its records as they are read back from rows
  unfoldable pub memory_answer : ActionStore → ℕ → ActionCall → StoreAnswer
  unfolding mirrored record_planned_action decide_approval_request
  memory_answer st now (plan a) = written (
      ok (
        read_write (record P { now = now }) R C
          (record_planned_action (record P { now = now }) R st a).0))
  memory_answer st now (decide c) =
      settled_as
        (mirrored (record P { now = now }) R C
          (decide_approval_request (record P { now = now }) R st c)).0

  unfoldable pub memory_answers : ActionStore → List (ℕ × ActionCall) → List StoreAnswer
  unfolding memory_answer perform_action
  memory_answers st [] = []
  memory_answers st ((now, call) ∷ calls) =
      memory_answer st now call ∷ memory_answers (perform_action P R st now call) calls

  -- The rows do not depend on the clock.
  tables_of-now :
      (st : ActionStore) (now : ℕ) → tables_of (record P { now = now }) R C st ≡ tables_of P R C st
  unfolding tables_of action_row request_row json_dumps iso
  tables_of-now st now = refl

  mirrored-tables : (out : Decision) → (mirrored P R C out).1 ≡ tables_of P R C out.1
  unfolding mirrored
  mirrored-tables (raise e, st) = refl
  mirrored-tables (ok w, st) = refl

abbrev answered_as : StoreAnswer → Tables → StoreAnswer × Tables
answered_as answer T = (answer, T)

abbrev answered_then : StoreAnswer → List StoreAnswer × Tables → List StoreAnswer × Tables
answered_then answer rest = (answer ∷ rest.0, rest.1)

module _ (P : Platform) (R : Redactor) (C : Codec) (Used : String → String → Type 0) where
  stored-mirrors :
      (st : ActionStore) (i : Consistent P.sha256 Used st) (u : DistinctIds P.sha256 Used)
      (c : ApprovalChoice) (d : ApprovalDecision) (o : Option WorkflowApprovalRequest)
      → parse_decision c.decision ≡ some d
      → Dict.get st.approvals c.approval_request_id ≡ o
      → decide_approval_request_row P R C (tables_of P R C st) c
        ≡ mirrored P R C (decide_approval_request P R st c)
  stored-mirrors st i u c d none h g =
      missing-mirrors P R C Used st i u c d h (λ q s. absurd (none-ne-some _ (sym g ∙ s)))
  stored-mirrors st i u c d (some q) h g = elim (string_eq.dec q.business_id c.business_id) [
    | no n ↦ missing-mirrors P R C Used st i u c d h (λ p s. other_of_stored g s n)
    | yes own ↦ elim (Bool-cases (q.status == ApprovalRequestStatus.pending)) [
      | inl p ↦ taken-mirrors P R C Used st i u c d q g own h p
      | inr p ↦ late-mirrors P R C Used st i u c d h q g own p
    ]
  ]

  pub decide_approval_request_row-mirrors :
      (st : ActionStore) (i : Consistent P.sha256 Used st) (u : DistinctIds P.sha256 Used)
      (c : ApprovalChoice)
      → decide_approval_request_row P R C (tables_of P R C st) c
        ≡ mirrored P R C (decide_approval_request P R st c)
  decide_approval_request_row-mirrors st i u c = elim (Option-cases (parse_decision c.decision)) [
    | inl h ↦ unknown-mirrors P R C Used st i u c h
    | inr h ↦ stored-mirrors st i u c h.0 _ h.1 refl
  ]

module _ (P : Platform) (R : Redactor) (C : Codec) (Used : String → String → Type 0) where
  perform_row-mirrors :
      (st : ActionStore) (now : ℕ) (call : ActionCall)
      → DistinctIds P.sha256 Used
      → CallUses Used call
      → Consistent P.sha256 Used st
      → perform_row P R C (tables_of P R C st) now call
        ≡ (memory_answer P R C st now call, tables_of P R C (perform_action P R st now call))
  unfolding perform_row memory_answer perform_action
  perform_row-mirrors st now (plan a) u k i =
      let Q : Platform = record P { now = now } in
      let e =
        ap (λ T. record_planned_action_row Q R C T a) (sym (tables_of-now P R C st now))
        ∙ record_planned_action_row-mirrors Q R C Used st i u a k in
      ap (λ (x : TableAnswer Q R C). answered_as (written x.0) x.1) e
      ∙ ap (answered_as (memory_answer P R C st now (plan a)))
          (tables_of-now P R C (record_planned_action Q R st a).1 now)
  perform_row-mirrors st now (decide c) u k i =
      let Q : Platform = record P { now = now } in
      let out = decide_approval_request Q R st c in
      let e =
        ap (λ T. decide_approval_request_row Q R C T c) (sym (tables_of-now P R C st now))
        ∙ decide_approval_request_row-mirrors Q R C Used st i u c in
      ap (λ x. answered_as (settled_as x.0) x.1) e
      ∙ ap (answered_as (memory_answer P R C st now (decide c)))
          (mirrored-tables Q R C out ∙ tables_of-now P R C out.1 now)

  -- If the keys in use have distinct ids: from tables that hold the records and requests of a
  -- consistent in-memory store, every sequence of recordings under these keys and of decisions,
  -- refused ones included, gets the answers of the in-memory store from the SQLite store, with the
  -- records as they are read back from their rows, and leaves the tables that hold what the in-memory
  -- store holds afterwards.
  pub run_rows-mirrors :
      (st : ActionStore) (calls : List (ℕ × ActionCall))
      → DistinctIds P.sha256 Used
      → AllUse Used calls
      → Consistent P.sha256 Used st
      → run_rows P R C (tables_of P R C st) calls
        ≡ (memory_answers P R C st calls, tables_of P R C (run_actions P R st calls))
  unfolding run_rows memory_answers run_actions
  run_rows-mirrors st [] u k i = refl
  run_rows-mirrors st ((now, call) ∷ calls) u k i =
      let e = perform_row-mirrors st now call u k.0 i in
      let next = perform_action P R st now call in
      let rest =
        run_rows-mirrors next calls u k.1
          (perform_action-Consistent P R Used st now call u k.0 i) in
      ap (λ (x : StoreAnswer × Tables). answered_then x.0 (run_rows P R C x.1 calls)) e
      ∙ ap (answered_then (memory_answer P R C st now call)) rest
