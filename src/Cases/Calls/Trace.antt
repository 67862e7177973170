-- ===== src/Cases/Calls/Trace.antt =====
-- What happens to one case along a sequence of calls.
use orvo_agent.Base.{
  contains, false, Bool, true, string_eq, ok, arith, raise, subst, ◌==◌, Bool-cases, ap, ◌⊎◌, some,
  ◌∙◌, none, ◌≡◌, ◌++◌, sym, String, List, refl, ◌∷◌, [], inl, inr,
}
use orvo_agent.Cases.Store.{Outcome, IsLawful, StoreOps}
use orvo_agent.Cases.Record.{Case}
use orvo_agent.Redaction.Redactor.{Redactor}
use orvo_agent.Cases.Detection.{Host}
use orvo_agent.Cases.Built.{Skeleton, Extends}
use orvo_agent.Cases.Timeline.{Grows-refl, Grows-trans}
use orvo_agent.Cases.Calls.Defs.{run, perform, upsert, Call}
use orvo_agent.Cases.Calls.Step.{
  reopens, moves, keeps, perform-Stepped, created, Stepped, continued, Origin, Move,
}
use orvo_agent.Cases.Status.{
  opened, acknowledged, resolved, dismissed, status_eq, case_status_transitions, Status,
}
use orvo_agent.Cases.Calls.Invariant.{perform-Sound, Sound}
use orvo_agent.Cases.Upsert.{is_recurrence}

-- The ids that the calls may give to new cases are not in use. (`uuid4` is taken at its word.)
abbrev pub AreFresh : {St : Type 0} → StoreOps St → Redactor → St → List (Host × Call) → Type 0
AreFresh S R st [] = Unit
AreFresh S R st ((H, call) ∷ calls) =
    (S.get_case st (H.uuid 0) ≡ none) × AreFresh S R (perform S R st H call).1 calls

abbrev pub is_detection : Call → Bool
is_detection (upsert d t) = true
is_detection _ = false

-- No call is a detection.
abbrev pub NoDetection : List (Host × Call) → Type 0
NoDetection [] = Unit
NoDetection ((H, call) ∷ calls) = (is_detection call ≡ false) × NoDetection calls

Extends-refl : (R : Redactor) (c : Case) → Extends R c c []
Extends-refl R c = record {
  case_id = refl;
  business_id = refl;
  dedupe_key = refl;
  case_type = refl;
  opened_at = refl;
  timeline = Grows-refl R c.timeline;
}

Extends-trans :
    (R : Redactor) (c d e : Case) (xs ys : List Skeleton)
    → Extends R c d xs
    → Extends R d e ys
    → Extends R c e (xs ++ ys)
Extends-trans R c d e xs ys h k = record {
  case_id = k.case_id ∙ h.case_id;
  business_id = k.business_id ∙ h.business_id;
  dedupe_key = k.dedupe_key ∙ h.dedupe_key;
  case_type = k.case_type ∙ h.case_type;
  opened_at = k.opened_at ∙ h.opened_at;
  timeline = Grows-trans R c.timeline d.timeline e.timeline xs ys h.timeline k.timeline;
}

no_edge_of_terminal :
    (s s' : Status) → is_recurrence s ≡ true → ¬ (contains (case_status_transitions s) s' ≡ true)
unfolding is_recurrence
no_edge_of_terminal opened s' r e = ground arith
no_edge_of_terminal acknowledged s' r e = ground arith
no_edge_of_terminal Status.in_progress s' r e = ground arith
no_edge_of_terminal resolved s' r e = ground arith
no_edge_of_terminal dismissed s' r e = ground arith

Move-terminal :
    (call : Call) (s s' : Status)
    → is_detection call ≡ false
    → is_recurrence s ≡ true
    → Move call s s'
    → s' ≡ s
Move-terminal call s s' n r (keeps _) = refl
Move-terminal call s s' n r (moves _ e) = absurd (no_edge_of_terminal s s' r e)
Move-terminal call s s' n r (reopens _ e) = absurd (cc)

status_of_Seen :
    (call : Call) (c d : Case)
    → is_detection call ≡ false
    → is_recurrence c.status ≡ true
    → (d ≡ c) ⊎ Move call c.status d.status
    → d.status ≡ c.status
status_of_Seen call c d n r (inl e) = ap (λ (x : Case). x.status) e
status_of_Seen call c d n r (inr m) = Move-terminal call c.status d.status n r m

-- A case `c` that is stored under `id` becomes one that satisfies `Q`, with `added` in its history.
abbrev pub Becomes :
    {St : Type 0} → StoreOps St → Redactor → St → String → Case → (Case → Type 0) → Type 0
Becomes S R st id c Q =
    (c' : Case) × (added : List Skeleton) × (S.get_case st id ≡ some c')
    × Extends R c c' added
    × Q c'

module _ {St : Type 0} (S : StoreOps St) (R : Redactor) {Inv : St → Type 0}
    (L : IsLawful S Inv) where
  -- One call, seen from one stored case: it stays, or it is continued by a move of the call.
  abbrev pub Seen : St → Call → St → String → Case → Type 0
  Seen st call st' id c = Becomes S R st' id c (λ c'. (c' ≡ c) ⊎ Move call c.status c'.status)

  get-persist_cases :
      (st : St) (c' : Case) (id : String)
      → ((c'.case_id ≡ id) × (S.get_case (S.persist st c') id ≡ some c'))
        ⊎ (S.get_case (S.persist st c') id ≡ S.get_case st id)
  get-persist_cases st c' id = elim (Bool-cases (c'.case_id == id)) [
    | inl y ↦ inl (ground arith, ground (arith, L.get-persist st c' id))
    | inr n ↦ inr (ground (arith, L.get-persist st c' id))
  ]

  Seen-of_saved :
      (st : St) (H : Host) (call : Call) (c' : Case) (id : String) (c : Case)
      → S.get_case st (H.uuid 0) ≡ none
      → S.get_case st id ≡ some c
      → c'.case_id ≡ id
      → S.get_case (S.persist st c') id ≡ some c'
      → Origin S R st H call c'
      → Seen st call (S.persist st c') id c
  Seen-of_saved st H call c' id c f g e h (continued d gd k m) =
      let same : d ≡ c = cc in
      (
        c',
        k.1.0 ∷ [],
        h,
        subst (λ x. Extends R x c' (k.1.0 ∷ [])) same k.1.1,
        inr (subst (λ (x : Case). Move call x.status c'.status) same m),
      )
  Seen-of_saved st H call c' id c f g e h (created d n q) =
      let lost : none ≡ some c = sym f ∙ (ap (S.get_case st) (sym n.case_id ∙ e) ∙ g) in cc

  Seen-of_Stepped :
      (st : St) (H : Host) (call : Call) (out : Outcome St) (id : String) (c : Case)
      → S.get_case st (H.uuid 0) ≡ none
      → S.get_case st id ≡ some c
      → Stepped S R st H call out
      → Seen st call out.1 id c
  Seen-of_Stepped st H call (raise e, st') id c f g s =
      (c, [], subst (λ x. S.get_case x id ≡ some c) (sym s) g, Extends-refl R c, inl refl)
  Seen-of_Stepped st H call (ok c', st') id c f g s =
      subst (λ x. Seen st call x id c) (sym s.0)
        (elim (get-persist_cases st c' id) [
          | inr e ↦ (c, [], e ∙ g, Extends-refl R c, inl refl)
          | inl p ↦ Seen-of_saved st H call c' id c f g p.0 p.1 s.1.1
        ])

  pub perform-Seen :
      (st : St) (H : Host) (call : Call) (id : String) (c : Case)
      → Inv st
      → S.get_case st (H.uuid 0) ≡ none
      → S.get_case st id ≡ some c
      → Seen st call (perform S R st H call).1 id c
  perform-Seen st H call id c i f g =
      Seen-of_Stepped st H call (perform S R st H call) id c f g (perform-Stepped S R L st H call i)

  -- From a sound state of a lawful store, if the ids given to new cases are not in use, no call
  -- sequence loses a stored case: it keeps its id, business, key, type and opening time, the events
  -- of its timeline stay in place, unchanged but for redactions of their texts and metadata, and new
  -- events are only appended.
  pub run-Extends :
      (st : St) (calls : List (Host × Call)) (id : String) (c : Case)
      → Sound S Inv st
      → AreFresh S R st calls
      → S.get_case st id ≡ some c
      → Becomes S R (run S R st calls) id c (λ _. Unit)
  unfolding run
  run-Extends st [] id c s f g = (c, [], g, Extends-refl R c, tt)
  run-Extends st ((H, call) ∷ calls) id c s f g =
      let (d, xs, gd, hd, _) = perform-Seen st H call id c s.inv f.0 g in
      let (e, ys, ge, he, _) =
        run-Extends (perform S R st H call).1 calls id d (perform-Sound S R L st H call s) f.1 gd in
      (e, xs ++ ys, ge, Extends-trans R c d e xs ys hd he, tt)

  -- From a sound state of a lawful store, a resolved or dismissed case keeps its status along
  -- every call sequence that has no detection and gives new cases unused ids; the events of its
  -- timeline stay in place, unchanged but for redactions of their texts and metadata, and new events
  -- are only appended.
  pub run-terminal :
      (st : St) (calls : List (Host × Call)) (id : String) (c : Case)
      → Sound S Inv st
      → AreFresh S R st calls
      → NoDetection calls
      → S.get_case st id ≡ some c
      → is_recurrence c.status ≡ true
      → Becomes S R (run S R st calls) id c (λ c'. c'.status ≡ c.status)
  unfolding run
  run-terminal st [] id c s f n g r = (c, [], g, Extends-refl R c, refl)
  run-terminal st ((H, call) ∷ calls) id c s f n g r =
      let (d, xs, gd, hd, m) = perform-Seen st H call id c s.inv f.0 g in
      let same = status_of_Seen call c d n.0 r m in
      let (e, ys, ge, he, q) =
        run-terminal (perform S R st H call).1 calls id d (perform-Sound S R L st H call s) f.1 n.1
          gd (ap is_recurrence same ∙ r) in
      (e, xs ++ ys, ge, Extends-trans R c d e xs ys hd he, q ∙ same)
