-- ===== src/Cases/Built.antt =====
-- What the cases that the operations build have in common with the cases that they start from.
use orvo_agent.Cases.Changes.{append_event}
use orvo_agent.Cases.Validity.{validate_event-SameEvent}
use orvo_agent.Base.{Result, >>=-eq-ok, ◌∙◌, ℕ, ◌≡◌, List, [], ◌∷◌, ◌++◌, ok}
pub use orvo_agent.Cases.Timeline.{skeleton, Skeleton}
use orvo_agent.Cases.Timeline.{Grows, Grows-of_SameEvent, skeleton-SameEvent}
use orvo_agent.Redaction.Redactor.{Redactor}
use orvo_agent.Cases.Status.{actor_type_eq, status_eq}
use orvo_agent.Model.{Error}
use orvo_agent.Cases.Validators.{validate_event}
use orvo_agent.Cases.Record.{Event, Case}
use orvo_agent.Cases.Detection.{Host}
use orvo_agent.Cases.Validity.{validate_event-SameEvent, IsValid, revalidate_case-IsValid}
use orvo_agent.Cases.Same.{SameCase}

-- The case keeps its identity, and its history grows by what `added` lists.
pub record Extends (R : Redactor) (c c' : Case) (added : List Skeleton) : Type 0 where
  pub case_id : c'.case_id ≡ c.case_id
  pub business_id : c'.business_id ≡ c.business_id
  pub dedupe_key : c'.dedupe_key ≡ c.dedupe_key
  pub case_type : c'.case_type ≡ c.case_type
  pub opened_at : c'.opened_at ≡ c.opened_at
  pub timeline : Grows R c.timeline c'.timeline added

-- A copy with one event more, and with the identity of the case.
pub record IsCopy (c d : Case) (e : Event) : Type 0 where
  pub case_id : d.case_id ≡ c.case_id
  pub business_id : d.business_id ≡ c.business_id
  pub dedupe_key : d.dedupe_key ≡ c.dedupe_key
  pub case_type : d.case_type ≡ c.case_type
  pub opened_at : d.opened_at ≡ c.opened_at
  pub timeline : d.timeline ≡ c.timeline ++ (e ∷ [])

pub Extends-of_SameCase :
    (R : Redactor) (c d c' : Case) (e : Event)
    → IsCopy c d e
    → SameCase R d c'
    → Extends R c c' (skeleton e ∷ [])
Extends-of_SameCase R c d c' e k same = record {
  case_id = same.case_id ∙ k.case_id;
  business_id = same.business_id ∙ k.business_id;
  dedupe_key = same.dedupe_key ∙ k.dedupe_key;
  case_type = same.case_type ∙ k.case_type;
  opened_at = same.opened_at ∙ k.opened_at;
  timeline = Grows-of_SameEvent R c.timeline d.timeline c'.timeline e k.timeline same.timeline;
}

pub skeleton-validate_event :
    (R : Redactor) (e e' : Event) → validate_event R e ≡ ok e' → skeleton e' ≡ skeleton e
skeleton-validate_event R e e' h = skeleton-SameEvent R e e' (validate_event-SameEvent R e e' h)

-- An operation on a stored case leaves a valid case with the same identity and one event more.
abbrev pub Continues : Redactor → Case → Case → Type 0
Continues R c c' = IsValid c' × ((s : Skeleton) × Extends R c c' (s ∷ []))

module _ (R : Redactor) (H : Host) where
  -- What `append_event` returns: the validated copy, at the instant of the call.
  pub record Appended (at : Result Error ℕ) (raw : ℕ → Event) (copy : ℕ → Event → Case) (c' : Case)
      : Type 0 where
    pub instant : ℕ
    pub event : Event
    pub at_instant : at ≡ ok instant
    pub from_raw : skeleton event ≡ skeleton (raw instant)
    pub valid : IsValid c'
    pub same : SameCase R (copy instant event) c'

  pub append_event-Appended :
      (at : Result Error ℕ) (raw : ℕ → Event) (copy : ℕ → Event → Case) (c' : Case)
      → append_event R H at raw copy ≡ ok c'
      → Appended at raw copy c'
  unfolding append_event
  append_event-Appended at raw copy c' h =
      let (t, ht, r) = >>=-eq-ok at _ h in
      let (e, he, q) = >>=-eq-ok (validate_event R (raw t)) _ r in
      let (v, s) = revalidate_case-IsValid R (copy t e) c' q in
      record {
        instant = t;
        event = e;
        at_instant = ht;
        from_raw = skeleton-validate_event R (raw t) e he;
        valid = v;
        same = s;
      }

  pub Continues-of_Appended :
      (at : Result Error ℕ) (raw : ℕ → Event) (copy : ℕ → Event → Case) (c c' : Case)
      → ((t : ℕ) (e : Event) → IsCopy c (copy t e) e)
      → Appended at raw copy c'
      → Continues R c c'
  Continues-of_Appended at raw copy c c' k a = (
    a.valid,
    (
      skeleton a.event,
      Extends-of_SameCase R c (copy a.instant a.event) c' a.event (k a.instant a.event) a.same,
    ),
  )
