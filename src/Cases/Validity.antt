-- ===== src/Cases/Validity.antt =====
-- What the validators of the case models guarantee, and when they accept.
use orvo_agent.Base.{
  subst, ok-injective, Pointwise, ℕ, Bool, false, not, ◌&&◌, ◌≤◌, ◌≡◌, refl, Option, none, some,
  List, [], ◌∷◌, ◌==◌, string_eq, ltb, arith, Result, ok, >>=-eq-ok, guard-eq-ok, sym,
}
use orvo_agent.Value.{Value, str, null, bool, int, list, tuple, dict, other}
use orvo_agent.Cases.Same.{SameEvent, SameMetric, SameSnapshot, SameCase, redacted_value}
use orvo_agent.Redaction.Redactor.{Redactor, text_or_masked, uri_or_masked}
use orvo_agent.Cases.Status.{Status, status_eq}
use orvo_agent.Model.{min_length, Error, validate_all, is_before, is_set}
use orvo_agent.Cases.Validators.{
  redact_string_value, redact_case, validate_lifecycle_times, validate_metric, validate_snapshot,
  revalidate_snapshot, validate_event, validate_case, revalidate_case,
}
use orvo_agent.Cases.Record.{EvidenceMetric, Snapshot, Event, Case}

-- A time stamp, if there is one, is not before the case was opened.
abbrev pub NotBefore : ℕ → Option ℕ → Type 0
NotBefore opened_at none = Unit
NotBefore opened_at (some t) = opened_at ≤ t

-- The lifecycle invariant of a case.
pub record IsConsistent (c : Case) : Type 0 where
  pub updated : c.opened_at ≤ c.updated_at
  pub acknowledged : NotBefore c.opened_at c.acknowledged_at
  pub assigned : NotBefore c.opened_at c.assigned_at
  pub resolved : NotBefore c.opened_at c.resolved_at
  pub dismissed : NotBefore c.opened_at c.dismissed_at
  pub assignment : is_set c.assigned_at ≡ is_set c.assignee_ref
  pub resolution : is_set c.resolved_at ≡ (c.status == Status.resolved)
  pub dismissal : is_set c.dismissed_at ≡ (c.status == Status.dismissed)

le_of_check : (t o : ℕ) → ltb t o ≡ false → o ≤ t
le_of_check t o h = ground arith

NotBefore_of_check : (t : Option ℕ) (o : ℕ) → is_before t o ≡ false → NotBefore o t
unfolding is_before
NotBefore_of_check none o h = tt
NotBefore_of_check (some t) o h = ground arith

eq_of_checks : (a b : Bool) → (a && not b) ≡ false → (b && not a) ≡ false → a ≡ b
eq_of_checks a b g h = ground arith

eq_of_status_checks : (a b : Bool) → (a && not b) ≡ false → (not a && b) ≡ false → b ≡ a
eq_of_status_checks a b g h = ground arith

-- A case that passes the lifecycle check satisfies the invariant, and is returned as it is.
pub validate_lifecycle_times-IsConsistent :
    (c c' : Case) → validate_lifecycle_times c ≡ ok c' → IsConsistent c × (c' ≡ c)
unfolding validate_lifecycle_times
validate_lifecycle_times-IsConsistent c c' h =
    let (h1, r1) = guard-eq-ok _ _ _ h in
    let (h2, r2) = guard-eq-ok _ _ _ r1 in
    let (h3, r3) = guard-eq-ok _ _ _ r2 in
    let (h4, r4) = guard-eq-ok _ _ _ r3 in
    let (h5, r5) = guard-eq-ok _ _ _ r4 in
    let (h6, r6) = guard-eq-ok _ _ _ r5 in
    let (h7, r7) = guard-eq-ok _ _ _ r6 in
    let (h8, r8) = guard-eq-ok _ _ _ r7 in
    let (h9, r9) = guard-eq-ok _ _ _ r8 in
    let (h10, r10) = guard-eq-ok _ _ _ r9 in
    let (h11, r11) = guard-eq-ok _ _ _ r10 in
    (
      record {
        updated = le_of_check c.updated_at c.opened_at h1;
        acknowledged = NotBefore_of_check c.acknowledged_at c.opened_at h2;
        assigned = NotBefore_of_check c.assigned_at c.opened_at h3;
        resolved = NotBefore_of_check c.resolved_at c.opened_at h6;
        dismissed = NotBefore_of_check c.dismissed_at c.opened_at h7;
        assignment = eq_of_checks _ _ h4 h5;
        resolution = eq_of_status_checks _ _ h8 h9;
        dismissal = eq_of_status_checks _ _ h10 h11;
      },
      sym (ok-injective r11),
    )

pub validate_lifecycle_times_of_IsConsistent :
    (c : Case) → IsConsistent c → validate_lifecycle_times c ≡ ok c
unfolding validate_lifecycle_times
validate_lifecycle_times_of_IsConsistent c v = ground arith

-- A stored case: consistent, with a score in range and a name under which it can be found.
pub record IsValid (c : Case) : Type 0 where
  pub consistent : IsConsistent c
  pub bounded : c.priority_score ≤ 100
  pub has_id : (c.case_id == "") ≡ false
  pub has_business : (c.business_id == "") ≡ false
  pub has_dedupe_key : (c.dedupe_key == "") ≡ false

module _ {A : Type 0} (f : A → Result Error A) (P : A → A → Type 0)
    (each : (x y : A) → f x ≡ ok y → P x y) where
  pub validate_all-Pointwise : (xs ys : List A) → validate_all f xs ≡ ok ys → Pointwise P xs ys
  unfolding validate_all
  validate_all-Pointwise [] [] h = tt
  validate_all-Pointwise [] (y ∷ ys) h = absurd (cc)
  validate_all-Pointwise (x ∷ xs) ys h =
      let (y, fy, r) = >>=-eq-ok (f x) _ h in
      let (zs, vz, q) = >>=-eq-ok (validate_all f xs) _ r in
      subst (Pointwise P (x ∷ xs)) (ok-injective q) (each x y fy, validate_all-Pointwise xs zs vz)

module _ (R : Redactor) where
  pub validate_event-SameEvent : (e e' : Event) → validate_event R e ≡ ok e' → SameEvent R e e'
  unfolding validate_event
  validate_event-SameEvent e e' h =
      let (_, _, r) = >>=-eq-ok (min_length "summary" (text_or_masked R e.summary)) _ h in
      subst (SameEvent R e) (ok-injective r) (record {
        event_id = refl;
        event_type = refl;
        actor_type = refl;
        actor_ref = refl;
        run_id = refl;
        case_id = refl;
        artifact_ref = refl;
        evidence_snapshot_ids = refl;
        created_at = refl;
        summary = refl;
        metadata = refl;
      })

  redact_string_value_lem : (v : Value) → redact_string_value R v ≡ redacted_value R v
  unfolding redact_string_value
  redact_string_value_lem (str s) = refl
  redact_string_value_lem null = refl
  redact_string_value_lem (bool b) = refl
  redact_string_value_lem (int n) = refl
  redact_string_value_lem (list xs) = refl
  redact_string_value_lem (tuple xs) = refl
  redact_string_value_lem (dict d) = refl
  redact_string_value_lem (other r) = refl

  validate_metric-SameMetric :
      (m m' : EvidenceMetric) → validate_metric R m ≡ ok m' → SameMetric R m m'
  unfolding validate_metric
  validate_metric-SameMetric m m' h =
      let (_, _, r) = >>=-eq-ok (min_length "metric_key" m.metric_key) _ h in
      subst (SameMetric R m) (ok-injective r) (record {
        metric_key = refl;
        label = refl;
        value = redact_string_value_lem m.value;
        unit = refl;
        currency = refl;
        window = refl;
        observed_at = refl;
        metadata = refl;
      })

  validate_snapshot-SameSnapshot :
      (s s' : Snapshot) (metrics : List EvidenceMetric)
      → Pointwise (SameMetric R) s.metrics metrics
      → validate_snapshot R (record s { metrics = metrics }) ≡ ok s'
      → SameSnapshot R s s'
  unfolding validate_snapshot
  validate_snapshot-SameSnapshot s s' metrics p h =
      let (_, _, h1) = >>=-eq-ok (min_length "snapshot_key" (uri_or_masked R s.snapshot_key)) _ h in
      let (_, _, h2) =
        >>=-eq-ok (min_length "evidence_ref" (uri_or_masked R s.evidence_ref)) _ h1 in
      let (_, _, h3) = >>=-eq-ok (min_length "source" (text_or_masked R s.source)) _ h2 in
      let (_, _, h4) = >>=-eq-ok (min_length "summary" (text_or_masked R s.summary)) _ h3 in
      subst (SameSnapshot R s) (ok-injective h4) (record {
        snapshot_id = refl;
        snapshot_key = refl;
        captured_at = refl;
        run_id = refl;
        artifact_ref = refl;
        evidence_ref = refl;
        source = refl;
        source_label = refl;
        case_type = refl;
        entity_scope = refl;
        summary = refl;
        freshness_state = refl;
        metrics = p;
        metadata = refl;
      })

  revalidate_snapshot-SameSnapshot :
      (s s' : Snapshot) → revalidate_snapshot R s ≡ ok s' → SameSnapshot R s s'
  unfolding revalidate_snapshot
  revalidate_snapshot-SameSnapshot s s' h =
      let (metrics, vm, r) = >>=-eq-ok (validate_all (validate_metric R) s.metrics) _ h in
      validate_snapshot-SameSnapshot s s' metrics
        (validate_all-Pointwise (validate_metric R) (SameMetric R) validate_metric-SameMetric
          s.metrics metrics vm)
        r

  IsValid-redact_case :
      (c : Case)
      → IsConsistent (redact_case R c)
      → (c.case_id == "") ≡ false
      → (c.business_id == "") ≡ false
      → (c.dedupe_key == "") ≡ false
      → ltb 100 c.priority_score ≡ false
      → IsValid (redact_case R c)
  unfolding redact_case
  IsValid-redact_case c v i b d p = record {
    consistent = v;
    bounded = le_of_check 100 c.priority_score p;
    has_id = i;
    has_business = b;
    has_dedupe_key = d;
  }

  -- What validation accepts is valid, and is the case with its texts redacted.
  pub validate_case-IsValid :
      (c c' : Case) → validate_case R c ≡ ok c' → IsValid c' × (c' ≡ redact_case R c)
  unfolding validate_case
  validate_case-IsValid c c' h =
      let (h1, r1) = guard-eq-ok _ _ _ h in
      let (h2, r2) = guard-eq-ok _ _ _ r1 in
      let (h3, r3) = guard-eq-ok _ _ _ r2 in
      let (h4, r4) = guard-eq-ok _ _ _ r3 in
      let (h5, r5) = guard-eq-ok _ _ _ r4 in
      let (v, e) = validate_lifecycle_times-IsConsistent (redact_case R c) c' r5 in
      (subst IsValid (sym e) (IsValid-redact_case c v h1 h2 h3 h5), e)

  redact_case-SameCase :
      (c : Case) (snapshots : List Snapshot) (events : List Event)
      → Pointwise (SameSnapshot R) c.evidence_snapshots snapshots
      → Pointwise (SameEvent R) c.timeline events
      → SameCase R c
          (redact_case R (record c { evidence_snapshots = snapshots; timeline = events }))
  unfolding redact_case
  redact_case-SameCase c snapshots events ps pe = record {
    case_id = refl;
    business_id = refl;
    case_type = refl;
    dedupe_key = refl;
    status = refl;
    severity = refl;
    priority_score = refl;
    opened_at = refl;
    updated_at = refl;
    acknowledged_at = refl;
    assigned_at = refl;
    resolved_at = refl;
    dismissed_at = refl;
    latest_run_id = refl;
    source_run_ids = refl;
    timeline = pe;
    snapshots = ps;
    title = refl;
    assignee_ref = refl;
    entity_scope = refl;
    evidence_refs = refl;
    artifact_refs = refl;
    metadata = refl;
  }

  -- A case that passed validation again is valid. It keeps its identity, state, scores and time
  -- stamps; its title, assignee, references and metadata, and those texts, references, metric values
  -- and metadata of its events and snapshots that redaction applies to, are redacted once; and nothing
  -- else of the events and snapshots is changed.
  pub revalidate_case-IsValid :
      (c c' : Case) → revalidate_case R c ≡ ok c' → IsValid c' × SameCase R c c'
  unfolding revalidate_case
  revalidate_case-IsValid c c' h =
      let (snapshots, vs, r) =
        >>=-eq-ok (validate_all (revalidate_snapshot R) c.evidence_snapshots) _ h in
      let (events, ve, q) = >>=-eq-ok (validate_all (validate_event R) c.timeline) _ r in
      let (v, e) =
        validate_case-IsValid (record c { evidence_snapshots = snapshots; timeline = events }) c'
          q in
      (
        v,
        subst (SameCase R c) (sym e) (
            redact_case-SameCase c snapshots events
              (validate_all-Pointwise (revalidate_snapshot R) (SameSnapshot R)
                revalidate_snapshot-SameSnapshot c.evidence_snapshots snapshots vs)
              (validate_all-Pointwise (validate_event R) (SameEvent R) validate_event-SameEvent
                c.timeline events ve)),
      )
