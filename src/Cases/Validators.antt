-- ===== src/Cases/Validators.antt =====
-- The validators of the pydantic models of app/brain/operational_cases.py.
use orvo_agent.Base.{not, ◌&&◌, ◌==◌, string_eq, ltb, map, Result, ok, raise_if, ◌>>=◌, ◌>>◌}
use orvo_agent.Value.{Value, str}
use orvo_agent.Redaction.Redactor.{Redactor, text_or_masked, uri_or_masked, safe_metadata}
use orvo_agent.Cases.Status.{resolved, dismissed, status_eq}
use orvo_agent.Model.{Error, value_error, min_length, validate_all, is_before, is_set}
use mathlib.Core.Option
use orvo_agent.Cases.Record.{Detection, Event, Snapshot, EvidenceMetric, Case}

-- `OperationalCase.validate_lifecycle_times`
unfoldable pub validate_lifecycle_times : Case → Result Error Case
unfolding is_before is_set
validate_lifecycle_times c = do
  raise_if (ltb c.updated_at c.opened_at) (value_error "updated_at must be after opened_at")
  raise_if (is_before c.acknowledged_at c.opened_at)
      (value_error "acknowledged_at must be after opened_at")
  raise_if (is_before c.assigned_at c.opened_at) (value_error "assigned_at must be after opened_at")
  raise_if (is_set c.assigned_at && not (is_set c.assignee_ref))
      (value_error "assigned case requires assignee_ref")
  raise_if (is_set c.assignee_ref && not (is_set c.assigned_at))
      (value_error "assigned case requires assigned_at")
  raise_if (is_before c.resolved_at c.opened_at) (value_error "resolved_at must be after opened_at")
  raise_if (is_before c.dismissed_at c.opened_at)
      (value_error "dismissed_at must be after opened_at")
  raise_if (c.status == resolved && not (is_set c.resolved_at))
      (value_error "resolved case requires resolved_at")
  raise_if (not (c.status == resolved) && is_set c.resolved_at)
      (value_error "only resolved cases may have resolved_at")
  raise_if (c.status == dismissed && not (is_set c.dismissed_at))
      (value_error "dismissed case requires dismissed_at")
  raise_if (not (c.status == dismissed) && is_set c.dismissed_at)
      (value_error "only dismissed cases may have dismissed_at")
  ok c

module _ (R : Redactor) where
  -- `redact_string_value`
  unfoldable pub redact_string_value : Value → Value
  redact_string_value (str s) = str (R.text s)
  redact_string_value v = v

  -- `OperationalCaseEvidenceMetric`
  unfoldable pub validate_metric : EvidenceMetric → Result Error EvidenceMetric
  unfolding min_length redact_string_value
  validate_metric m = do
    min_length "metric_key" m.metric_key
    ok (record m {
      label = Option.map (text_or_masked R) m.label;
      value = redact_string_value m.value;
      unit = Option.map (text_or_masked R) m.unit;
      currency = Option.map (text_or_masked R) m.currency;
      window = Option.map (text_or_masked R) m.window;
      metadata = safe_metadata R m.metadata;
    })

  -- `OperationalCaseEvidenceSnapshot`; its metrics are validated already
  unfoldable pub validate_snapshot : Snapshot → Result Error Snapshot
  unfolding min_length
  validate_snapshot s = do
    let snapshot_key = uri_or_masked R s.snapshot_key
    let evidence_ref = uri_or_masked R s.evidence_ref
    let source = text_or_masked R s.source
    let summary = text_or_masked R s.summary
    min_length "snapshot_key" snapshot_key
    min_length "evidence_ref" evidence_ref
    min_length "source" source
    min_length "summary" summary
    ok (record s {
      snapshot_key = snapshot_key;
      artifact_ref = Option.map (uri_or_masked R) s.artifact_ref;
      evidence_ref = evidence_ref;
      source = source;
      source_label = Option.map (text_or_masked R) s.source_label;
      entity_scope = safe_metadata R s.entity_scope;
      summary = summary;
      metadata = safe_metadata R s.metadata;
    })

  -- the same from a dump, whose metrics are dicts
  unfoldable pub revalidate_snapshot : Snapshot → Result Error Snapshot
  unfolding validate_snapshot validate_all
  revalidate_snapshot s = do
    metrics ← validate_all validate_metric s.metrics
    validate_snapshot (record s { metrics = metrics })

  -- `OperationalCaseTimelineEvent`
  unfoldable pub validate_event : Event → Result Error Event
  unfolding min_length
  validate_event e = do
    let summary = text_or_masked R e.summary
    min_length "summary" summary
    ok (record e {
      actor_ref = text_or_masked R e.actor_ref;
      artifact_ref = Option.map (uri_or_masked R) e.artifact_ref;
      evidence_snapshot_ids = map (text_or_masked R) e.evidence_snapshot_ids;
      summary = summary;
      metadata = safe_metadata R e.metadata;
    })

  -- the field validators of `OperationalCase`
  unfoldable pub redact_case : Case → Case
  redact_case c = record c {
    title = text_or_masked R c.title;
    assignee_ref = Option.map (text_or_masked R) c.assignee_ref;
    entity_scope = safe_metadata R c.entity_scope;
    evidence_refs = map (uri_or_masked R) c.evidence_refs;
    artifact_refs = map (uri_or_masked R) c.artifact_refs;
    metadata = safe_metadata R c.metadata;
  }

  -- `OperationalCase(...)`: snapshots and events that are model objects are taken as they are
  unfoldable pub validate_case : Case → Result Error Case
  unfolding min_length redact_case validate_lifecycle_times
  validate_case c = do
    min_length "case_id" c.case_id
    min_length "business_id" c.business_id
    min_length "dedupe_key" c.dedupe_key
    min_length "title" (redact_case c).title
    raise_if (ltb 100 c.priority_score)
        (value_error "priority_score: Input should be less than or equal to 100")
    validate_lifecycle_times (redact_case c)

  -- `OperationalCase.model_validate(case.model_dump())`
  unfoldable pub revalidate_case : Case → Result Error Case
  unfolding revalidate_snapshot validate_event validate_case validate_all
  revalidate_case c = do
    snapshots ← validate_all revalidate_snapshot c.evidence_snapshots
    events ← validate_all validate_event c.timeline
    validate_case (record c { evidence_snapshots = snapshots; timeline = events })

  -- `OperationalCaseDetection(...)`
  unfoldable pub validate_detection : Detection → Result Error Detection
  unfolding min_length
  validate_detection d = do
    let title = text_or_masked R d.title
    min_length "business_id" d.business_id
    min_length "dedupe_key" d.dedupe_key
    min_length "title" title
    raise_if (ltb 100 d.priority_score)
        (value_error "priority_score: Input should be less than or equal to 100")
    ok (record d {
      title = title;
      entity_scope = safe_metadata R d.entity_scope;
      evidence_refs = map (uri_or_masked R) d.evidence_refs;
      artifact_refs = map (uri_or_masked R) d.artifact_refs;
      metadata = safe_metadata R d.metadata;
    })
