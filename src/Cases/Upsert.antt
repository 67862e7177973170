-- ===== src/Cases/Upsert.antt =====
-- `upsert_detection` of app/brain/operational_cases.py: the case that a detection opens or updates.
use orvo_agent.Base.{
  ℕ, String, ◌<>◌, Bool, Option, none, some, List, [], ◌∷◌, ◌++◌, ◌==◌, string_eq, contains, map,
  head?, if◌then◌else◌, Result, ◌>>=◌,
}
use orvo_agent.Value.{str, Fields, end, field, merge_fields, no_fields}
use orvo_agent.Redaction.Redactor.{Redactor}
use orvo_agent.Cases.Status.{
  Status, opened, terminal_statuses, case_type_text, EventType, case_opened, case_updated,
  case_reopened, system, status_eq, actor_type_eq,
}
use orvo_agent.Model.{Error, Datetime}
use orvo_agent.Cases.Validators.{validate_event, validate_case, revalidate_case}
use orvo_agent.Cases.Record.{instant_or_now, Snapshot, Event, Detection, Case}
use orvo_agent.Cases.Unique.{unique, unique_snapshots, canonical_snapshot_ids}
use orvo_agent.Cases.Detection.{Host, or_text, snapshots_for_detection}

-- `[run_id] if run_id else []`
unfoldable pub as_list : Option String → List String
as_list none = []
as_list (some s) = if s == "" then [] else s ∷ []

-- `a or b`, for a scope
unfoldable pub or_scope : Fields → Fields → Fields
or_scope d e = if no_fields d then e else d

unfoldable pub is_recurrence : Status → Bool
unfolding status_eq
is_recurrence s = contains terminal_statuses s

-- the copy of the stored case with the detection merged in
unfoldable pub merged_case : Case → Detection → List Snapshot → Event → ℕ → Case
unfolding is_recurrence or_scope or_text as_list unique unique_snapshots merge_fields
merged_case c d snapshots event detected_at =
    let again = is_recurrence c.status in
    record c {
      title = d.title;
      status = if again then opened else c.status;
      severity = d.severity;
      priority_score = d.priority_score;
      entity_scope = or_scope d.entity_scope c.entity_scope;
      updated_at = detected_at;
      acknowledged_at = if again then none else c.acknowledged_at;
      resolved_at = if again then none else c.resolved_at;
      dismissed_at = if again then none else c.dismissed_at;
      latest_run_id = or_text d.run_id c.latest_run_id;
      source_run_ids = unique (c.source_run_ids ++ as_list d.run_id);
      evidence_refs = unique (c.evidence_refs ++ d.evidence_refs);
      artifact_refs = unique (c.artifact_refs ++ d.artifact_refs);
      evidence_snapshots = unique_snapshots (c.evidence_snapshots ++ snapshots);
      timeline = c.timeline ++ (event ∷ []);
      metadata = merge_fields c.metadata d.metadata;
    }

module _ (R : Redactor) (H : Host) where
  -- the event that `upsert_detection` appends
  unfoldable pub detection_event :
      Detection → EventType → String → String → List Snapshot → List String → ℕ → Result Error Event
  unfolding validate_event canonical_snapshot_ids
  detection_event d event_type verb case_id snapshots keys detected_at = validate_event R (record {
    event_id = H.uuid 1;
    event_type = event_type;
    actor_type = system;
    actor_ref = "orvo_runtime";
    run_id = d.run_id;
    case_id = some case_id;
    artifact_ref = head? d.artifact_refs;
    evidence_snapshot_ids = canonical_snapshot_ids snapshots keys;
    created_at = detected_at;
    summary = verb <> " " <> case_type_text d.case_type <> " case from deterministic detection.";
    metadata = field "dedupe_key" (str d.dedupe_key) end;
  })

  -- the branch of `upsert_detection` where no case has the dedupe key
  unfoldable pub open_case : Detection → List Snapshot → List String → ℕ → Result Error Case
  unfolding detection_event as_list unique
  open_case d snapshots keys detected_at = do
    event ← detection_event d case_opened "Opened" (H.uuid 0) snapshots keys detected_at
    validate_case R (record {
      case_id = H.uuid 0;
      business_id = d.business_id;
      case_type = d.case_type;
      dedupe_key = d.dedupe_key;
      title = d.title;
      status = opened;
      severity = d.severity;
      priority_score = d.priority_score;
      entity_scope = d.entity_scope;
      opened_at = detected_at;
      updated_at = detected_at;
      acknowledged_at = none;
      assigned_at = none;
      assignee_ref = none;
      resolved_at = none;
      dismissed_at = none;
      latest_run_id = d.run_id;
      source_run_ids = as_list d.run_id;
      evidence_refs = unique d.evidence_refs;
      artifact_refs = unique d.artifact_refs;
      evidence_snapshots = snapshots;
      timeline = event ∷ [];
      metadata = d.metadata;
    })

  -- the branch of `upsert_detection` where a case has the dedupe key
  unfoldable pub merge_detection :
      Case → Detection → List Snapshot → List String → ℕ → Result Error Case
  unfolding detection_event merged_case
  merge_detection c d snapshots keys detected_at = do
    let again = is_recurrence c.status
    let merged_snapshots = unique_snapshots (c.evidence_snapshots ++ snapshots)
    event ←
        detection_event d (if again then case_reopened else case_updated)
          (if again then "Reopened" else "Updated") c.case_id merged_snapshots keys detected_at
    revalidate_case R (merged_case c d snapshots event detected_at)

  -- the case that `upsert_detection` builds, from the case with the dedupe key if there is one
  unfoldable pub upserted : Option Case → Detection → Option Datetime → Result Error Case
  unfolding snapshots_for_detection instant_or_now open_case merge_detection
  upserted existing d detected_at = do
    instant ← instant_or_now H.now detected_at
    snapshots ← snapshots_for_detection R H d instant
    let keys = map (λ (s : Snapshot). s.snapshot_key) snapshots
    elim existing [
      | none ↦ open_case d snapshots keys instant
      | some c ↦ merge_detection c d snapshots keys instant
    ]
