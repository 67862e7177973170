-- ===== src/Cases/Progress.antt =====
-- The calls that the lifecycle allows do succeed.
use mathlib.Core.Option
use orvo_agent.Base.{
  true, none, ◌∙◌, ltb, ◌>>◌, ◌≤◌, Option, Bool-cases, raise_if, raise-ne-ok, ℕ, if◌then◌else◌,
  Bool, ◌>>=◌, All, ok, raise, inl, inr, string_eq, arith, false, ◌≡◌, ◌==◌, String, Result, List,
  refl, ◌∷◌, [],
}
use orvo_agent.Redaction.Redactor.{Redactor, uri_or_masked, text_or_masked}
use orvo_agent.Model.{is_set, min_length, validate_all, Error}
use orvo_agent.Cases.Validators.{
  revalidate_case, validate_case, redact_case, revalidate_snapshot, validate_metric, validate_event,
  validate_snapshot,
}
use orvo_agent.Cases.Record.{Case, Event, Snapshot, EvidenceMetric}
use orvo_agent.Cases.Validity.{validate_lifecycle_times_of_IsConsistent, IsConsistent, IsValid}
use mathlib.Core.Option.{some}

-- The metric has a name, which `min_length=1` asks for when it is built.
abbrev pub HasName : EvidenceMetric → Type 0
HasName m = (m.metric_key == "") ≡ false

abbrev pub HaveNames : Snapshot → Type 0
HaveNames s = All HasName s.metrics

-- A result that is a value.
abbrev pub Succeeds : {A : Type 0} → Result Error A → Type 0
Succeeds {A} r = (a : A) × (r ≡ ok a)

pub bind-Succeeds :
    {A B : Type 0} (m : Result Error A) (f : A → Result Error B)
    → Succeeds m
    → ((a : A) → Succeeds (f a))
    → Succeeds (m >>= f)
bind-Succeeds (ok a) f s g = g a
bind-Succeeds (raise e) f s g = absurd (raise-ne-ok e s.0 s.1)

pub guard-Succeeds :
    {A : Type 0} (b : Bool) (e : Error) (m : Result Error A)
    → b ≡ false
    → Succeeds m
    → Succeeds (raise_if b e >> m)
guard-Succeeds true e m h s = absurd (cc)
guard-Succeeds false e m h s = s

or_masked-ne-empty : (s : String) → ((if s == "" then "[REDACTED]" else s) == "") ≡ false
unfolding string_eq
or_masked-ne-empty s = elim (Bool-cases (s == "")) [ inl y ↦ rw y refl | inr n ↦ rw n n ]

text_or_masked-ne-empty : (R : Redactor) (s : String) → (text_or_masked R s == "") ≡ false
unfolding text_or_masked
text_or_masked-ne-empty R s = or_masked-ne-empty (R.text s)

uri_or_masked-ne-empty : (R : Redactor) (s : String) → (uri_or_masked R s == "") ≡ false
unfolding uri_or_masked
uri_or_masked-ne-empty R s = or_masked-ne-empty (R.uri s)

validate_all-Succeeds :
    {A : Type 0} (f : A → Result Error A) (P : A → Type 0)
    → ((x : A) → P x → Succeeds (f x))
    → (xs : List A) → All P xs
    → Succeeds (validate_all f xs)
unfolding validate_all
validate_all-Succeeds f P g [] k = ([], refl)
validate_all-Succeeds f P g (x ∷ xs) k = bind-Succeeds (f x) _ (g x k.0) (λ y.
    bind-Succeeds (validate_all f xs) _ (validate_all-Succeeds f P g xs k.1) (λ ys. (y ∷ ys, refl)))

is_set-map : (f : String → String) (o : Option String) → is_set o ≡ is_set (Option.map f o)
unfolding is_set
is_set-map f none = refl
is_set-map f (some s) = refl

ltb-false : (a b : ℕ) → b ≤ a → ltb a b ≡ false
ltb-false a b h = ground arith

IsValid-copy :
    (c : Case) (ss : List Snapshot) (es : List Event)
    → IsValid c
    → IsValid (record c { evidence_snapshots = ss; timeline = es })
IsValid-copy c ss es v = record {
  consistent = record {
    updated = v.consistent.updated;
    acknowledged = v.consistent.acknowledged;
    assigned = v.consistent.assigned;
    resolved = v.consistent.resolved;
    dismissed = v.consistent.dismissed;
    assignment = v.consistent.assignment;
    resolution = v.consistent.resolution;
    dismissal = v.consistent.dismissal;
  };
  bounded = v.bounded;
  has_id = v.has_id;
  has_business = v.has_business;
  has_dedupe_key = v.has_dedupe_key;
}

module _ (R : Redactor) where
  validate_metric-Succeeds :
      (m : EvidenceMetric) → (m.metric_key == "") ≡ false → Succeeds (validate_metric R m)
  unfolding validate_metric min_length
  validate_metric-Succeeds m k = guard-Succeeds _ _ _ k (_, refl)

  validate_snapshot-Succeeds : (s : Snapshot) → Succeeds (validate_snapshot R s)
  unfolding validate_snapshot min_length
  validate_snapshot-Succeeds s = guard-Succeeds _ _ _ (uri_or_masked-ne-empty R s.snapshot_key) (
      guard-Succeeds _ _ _ (uri_or_masked-ne-empty R s.evidence_ref) (
        guard-Succeeds _ _ _ (text_or_masked-ne-empty R s.source)
          (guard-Succeeds _ _ _ (text_or_masked-ne-empty R s.summary) (_, refl))))

  revalidate_snapshot-Succeeds :
      (s : Snapshot) → All HasName s.metrics → Succeeds (revalidate_snapshot R s)
  unfolding revalidate_snapshot
  revalidate_snapshot-Succeeds s k =
      bind-Succeeds _ _
        (validate_all-Succeeds (validate_metric R) HasName validate_metric-Succeeds s.metrics k)
        (λ ms. validate_snapshot-Succeeds (record s { metrics = ms }))

  pub validate_event-Succeeds : (e : Event) → Succeeds (validate_event R e)
  unfolding validate_event min_length
  validate_event-Succeeds e = guard-Succeeds _ _ _ (text_or_masked-ne-empty R e.summary) (_, refl)

  all_events-Succeeds : (es : List Event) → Succeeds (validate_all (validate_event R) es)
  unfolding validate_all
  all_events-Succeeds [] = ([], refl)
  all_events-Succeeds (e ∷ es) =
      bind-Succeeds (validate_event R e) _ (validate_event-Succeeds e) (λ y.
        bind-Succeeds (validate_all (validate_event R) es) _ (all_events-Succeeds es)
          (λ ys. (y ∷ ys, refl)))

  IsConsistent-redact_case : (c : Case) → IsConsistent c → IsConsistent (redact_case R c)
  unfolding redact_case
  IsConsistent-redact_case c v = record {
    updated = v.updated;
    acknowledged = v.acknowledged;
    assigned = v.assigned;
    resolved = v.resolved;
    dismissed = v.dismissed;
    assignment = v.assignment ∙ is_set-map (text_or_masked R) c.assignee_ref;
    resolution = v.resolution;
    dismissal = v.dismissal;
  }

  redact_case-title : (c : Case) → ((redact_case R c).title == "") ≡ false
  unfolding redact_case
  redact_case-title c = text_or_masked-ne-empty R c.title

  validate_case-Succeeds : (c : Case) → IsValid c → Succeeds (validate_case R c)
  unfolding validate_case min_length
  validate_case-Succeeds c v = guard-Succeeds _ _ _ v.has_id (
      guard-Succeeds _ _ _ v.has_business (
        guard-Succeeds _ _ _ v.has_dedupe_key (
          guard-Succeeds _ _ _ (redact_case-title c) (
            guard-Succeeds _ _ _ (ltb-false 100 c.priority_score v.bounded) (
              redact_case R c,
              validate_lifecycle_times_of_IsConsistent (redact_case R c)
                  (IsConsistent-redact_case c v.consistent),
            )))))

  -- A valid case passes validation again.
  pub revalidate_case-Succeeds :
      (c : Case) → IsValid c → All HaveNames c.evidence_snapshots → Succeeds (revalidate_case R c)
  unfolding revalidate_case
  revalidate_case-Succeeds c v k =
      bind-Succeeds _ _
        (validate_all-Succeeds (revalidate_snapshot R) HaveNames revalidate_snapshot-Succeeds
          c.evidence_snapshots k)
        (λ ss. bind-Succeeds _ _ (all_events-Succeeds c.timeline) (λ es.
          validate_case-Succeeds (record c { evidence_snapshots = ss; timeline = es })
            (IsValid-copy c ss es v)))
