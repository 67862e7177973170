-- ===== src/Cases/Calls/Step.antt =====
-- What one call does to a store: it fails and leaves the store as it was, or it saves one valid case.
use orvo_agent.Base.{
  arith, inl, inr, raise, sym, subst, Bool-cases, ◌∙◌, true, ap, none, if◌then◌else◌, ok, contains,
  Result, some, Option, ◌≡◌, String, refl,
}
use orvo_agent.Cases.Calls.Defs.{assign, comment, transition, upsert, perform, Call}
use orvo_agent.Cases.Store.{found, update_case, commit, IsLawful, Outcome, StoreOps}
use orvo_agent.Cases.Status.{status_eq, opened, case_status_transitions, ActorType, Status}
use orvo_agent.Cases.Detection.{Host}
use orvo_agent.Redaction.Redactor.{Redactor}
use orvo_agent.Model.{Error, Datetime}
use orvo_agent.Cases.Record.{Detection, Case}
use orvo_agent.Redaction.Engine.{}
use orvo_agent.Cases.Mutations.{assign_case, add_comment, transition_case, upsert_detection}
use orvo_agent.Cases.Built.{Continues}
use orvo_agent.Cases.Opening.{upserted-Upserted, Upserted, IsNew}
use orvo_agent.Cases.Validity.{IsValid}
use orvo_agent.Cases.Upsert.{is_recurrence}
use orvo_agent.Cases.Lifecycle.{transitioned-Transition}
use orvo_agent.Cases.History.{assigned-Continues, commented-Continues, transitioned-Continues}

-- How a call may move the status of a stored case.
pub data Move : Call → Status → Status → Type 0 where
  keeps : {call : Call} (s : Status) → Move call s s
  moves :
      {id : String} {s' : Status} {a : ActorType} {ref : String} {reason : Option String}
      {t : Option Datetime} (s : Status)
      → contains (case_status_transitions s) s' ≡ true
      → Move (transition id s' a ref reason t) s s'
  reopens :
      {d : Detection} {t : Option Datetime} (s : Status)
      → is_recurrence s ≡ true
      → Move (upsert d t) s opened

-- Where a saved case comes from: it continues the stored case with its id, or it is new and no stored
-- case has its key.
pub data Origin {St : Type 0} (S : StoreOps St) (R : Redactor) (st : St) (H : Host) (call : Call)
    (c' : Case) : Type 0 where
  continued :
      (c : Case)
      → S.get_case st c'.case_id ≡ some c
      → Continues R c c'
      → Move call c.status c'.status
      → Origin S R st H call c'
  created :
      (d : Detection)
      → IsNew H d c'
      → S.find_by_dedupe_key st d.business_id d.dedupe_key ≡ none
      → Origin S R st H call c'

-- What a call returned, and the store it left.
abbrev pub Stepped : {St : Type 0} → StoreOps St → Redactor → St → Host → Call → Outcome St → Type 0
Stepped S R st H call (raise e, st') = st' ≡ st
Stepped S R st H call (ok c', st') =
    (st' ≡ S.persist st c') × (IsValid c' × Origin S R st H call c')

module _ {St : Type 0} (S : StoreOps St) (R : Redactor) {Inv : St → Type 0}
    (L : IsLawful S Inv) where
  commit-Stepped :
      (st : St) (H : Host) (call : Call) (built : Result Error Case)
      → ((c' : Case) → built ≡ ok c' → IsValid c' × Origin S R st H call c')
      → Stepped S R st H call (commit S st built)
  unfolding commit
  commit-Stepped st H call (ok c') f = (refl, f c' refl)
  commit-Stepped st H call (raise e) f = refl

  continued-Origin :
      (st : St) (H : Host) (call : Call) (c c' : Case)
      → S.get_case st c.case_id ≡ some c
      → Continues R c c'
      → Move call c.status c'.status
      → IsValid c' × Origin S R st H call c'
  continued-Origin st H call c c' g k m =
      let (v, (s, e)) = k in (v, continued c (ap (S.get_case st) e.case_id ∙ g) k m)

  found-Stepped :
      (st : St) (H : Host) (call : Call) (id : String) (change : Case → Result Error Case)
      (stored : Option Case)
      → Inv st
      → S.get_case st id ≡ stored
      → ((c c' : Case) → change c ≡ ok c' → Continues R c c' × Move call c.status c'.status)
      → Stepped S R st H call (found S st change id stored)
  unfolding found
  found-Stepped st H call id change none i g f = refl
  found-Stepped st H call id change (some c) i g f = commit-Stepped st H call (change c) (λ c' e.
      continued-Origin st H call c c' (ap (S.get_case st) (L.get_id st id c i g) ∙ g) (f c c' e).0
        (f c c' e).1)

  update_case-Stepped :
      (st : St) (H : Host) (call : Call) (id : String) (change : Case → Result Error Case)
      → Inv st
      → ((c c' : Case) → change c ≡ ok c' → Continues R c c' × Move call c.status c'.status)
      → Stepped S R st H call (update_case S st id change)
  unfolding update_case
  update_case-Stepped st H call id change i f =
      found-Stepped st H call id change (S.get_case st id) i refl f

  reopens_or_keeps :
      (d : Detection) (t : Option Datetime) (s s' : Status)
      → s' ≡ (if is_recurrence s then opened else s)
      → Move (upsert d t) s s'
  reopens_or_keeps d t s s' e = elim (Bool-cases (is_recurrence s)) [
    | inl y ↦ subst (Move (upsert d t) s) (sym (e ∙ ground arith)) (reopens s y)
    | inr n ↦ subst (Move (upsert d t) s) (sym (e ∙ ground arith)) (keeps s)
  ]

  Upserted-Origin :
      (st : St) (H : Host) (d : Detection) (t : Option Datetime) (existing : Option Case)
      (c' : Case)
      → Inv st
      → S.find_by_dedupe_key st d.business_id d.dedupe_key ≡ existing
      → Upserted R H d existing c'
      → IsValid c' × Origin S R st H (upsert d t) c'
  Upserted-Origin st H d t none c' i g u = (u.valid, created d u g)
  Upserted-Origin st H d t (some c) c' i g u =
      continued-Origin st H (upsert d t) c c' (L.find-some st d.business_id d.dedupe_key c i g).0
        u.0 (reopens_or_keeps d t c.status c'.status u.1)

  -- Over a lawful store in its invariant: a call that raises leaves the store as it was; a call
  -- that returns a case has saved just that case, which is valid and either continues the stored
  -- case under its id by a move the call may make, or is new while no stored case had its key.
  pub perform-Stepped :
      (st : St) (H : Host) (call : Call) → Inv st → Stepped S R st H call (perform S R st H call)
  unfolding perform upsert_detection transition_case add_comment assign_case
  perform-Stepped st H (upsert d t) i = commit-Stepped st H (upsert d t) _ (λ c' e.
      Upserted-Origin st H d t _ c' i refl
        (upserted-Upserted R H (S.find_by_dedupe_key st d.business_id d.dedupe_key) d t c' e))
  perform-Stepped st H (transition id status a ref reason t) i =
      update_case-Stepped st H (transition id status a ref reason t) id _ i (λ c c' e.
        let m = transitioned-Transition R H status a ref reason t c c' e in
        (
          transitioned-Continues R H status a ref reason t c c' e,
          subst (Move (transition id status a ref reason t) c.status) (sym m.status_is)
              (moves c.status m.edge),
        ))
  perform-Stepped st H (comment id a ref text metadata t) i =
      update_case-Stepped st H (comment id a ref text metadata t) id _ i (λ c c' e.
        let (k, s) = commented-Continues R H a ref text metadata t c c' e in
        (k, subst (Move (comment id a ref text metadata t) c.status) (sym s) (keeps c.status)))
  perform-Stepped st H (assign id a ref assignee t) i =
      update_case-Stepped st H (assign id a ref assignee t) id _ i (λ c c' e.
        let (k, s, _) = assigned-Continues R H a ref assignee t c c' e in
        (k, subst (Move (assign id a ref assignee t) c.status) (sym s) (keeps c.status)))
