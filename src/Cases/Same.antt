-- ===== src/Cases/Same.antt =====
-- What validation changes of a case, its events and its snapshots: redaction, and nothing else.
use orvo_agent.Base.{map, Pointwise, ◌≡◌, string_eq}
use mathlib.Core.Option
use orvo_agent.Value.{Value, str}
use orvo_agent.Redaction.Redactor.{Redactor, text_or_masked, uri_or_masked, safe_metadata}
use orvo_agent.Cases.Status.{status_eq}
use orvo_agent.Cases.Record.{EvidenceMetric, Snapshot, Event, Case}

-- An event that passed through validation again: its texts and its metadata are redacted once, and
-- nothing else is changed.
pub record SameEvent (R : Redactor) (e e' : Event) : Type 0 where
  pub event_id : e'.event_id ≡ e.event_id
  pub event_type : e'.event_type ≡ e.event_type
  pub actor_type : e'.actor_type ≡ e.actor_type
  pub actor_ref : e'.actor_ref ≡ text_or_masked R e.actor_ref
  pub run_id : e'.run_id ≡ e.run_id
  pub case_id : e'.case_id ≡ e.case_id
  pub artifact_ref : e'.artifact_ref ≡ Option.map (uri_or_masked R) e.artifact_ref
  pub evidence_snapshot_ids :
      e'.evidence_snapshot_ids ≡ map (text_or_masked R) e.evidence_snapshot_ids
  pub created_at : e'.created_at ≡ e.created_at
  pub summary : e'.summary ≡ text_or_masked R e.summary
  pub metadata : e'.metadata ≡ safe_metadata R e.metadata

-- A value, or a text redacted.
abbrev pub redacted_value : Redactor → Value → Value
redacted_value R (str s) = str (R.text s)
redacted_value R v = v

pub record SameMetric (R : Redactor) (m m' : EvidenceMetric) : Type 0 where
  pub metric_key : m'.metric_key ≡ m.metric_key
  pub label : m'.label ≡ Option.map (text_or_masked R) m.label
  pub value : m'.value ≡ redacted_value R m.value
  pub unit : m'.unit ≡ Option.map (text_or_masked R) m.unit
  pub currency : m'.currency ≡ Option.map (text_or_masked R) m.currency
  pub window : m'.window ≡ Option.map (text_or_masked R) m.window
  pub observed_at : m'.observed_at ≡ m.observed_at
  pub metadata : m'.metadata ≡ safe_metadata R m.metadata

-- A snapshot that passed through validation again: its references, texts, metrics and metadata are
-- redacted once, and nothing else is changed.
pub record SameSnapshot (R : Redactor) (s s' : Snapshot) : Type 0 where
  pub snapshot_id : s'.snapshot_id ≡ s.snapshot_id
  pub snapshot_key : s'.snapshot_key ≡ uri_or_masked R s.snapshot_key
  pub captured_at : s'.captured_at ≡ s.captured_at
  pub run_id : s'.run_id ≡ s.run_id
  pub artifact_ref : s'.artifact_ref ≡ Option.map (uri_or_masked R) s.artifact_ref
  pub evidence_ref : s'.evidence_ref ≡ uri_or_masked R s.evidence_ref
  pub source : s'.source ≡ text_or_masked R s.source
  pub source_label : s'.source_label ≡ Option.map (text_or_masked R) s.source_label
  pub case_type : s'.case_type ≡ s.case_type
  pub entity_scope : s'.entity_scope ≡ safe_metadata R s.entity_scope
  pub summary : s'.summary ≡ text_or_masked R s.summary
  pub freshness_state : s'.freshness_state ≡ s.freshness_state
  pub metrics : Pointwise (SameMetric R) s.metrics s'.metrics
  pub metadata : s'.metadata ≡ safe_metadata R s.metadata

-- A case that passed through validation again: identity, state and stamps are the same, and texts,
-- references, metadata, events and snapshots are redacted once.
pub record SameCase (R : Redactor) (c c' : Case) : Type 0 where
  pub case_id : c'.case_id ≡ c.case_id
  pub business_id : c'.business_id ≡ c.business_id
  pub case_type : c'.case_type ≡ c.case_type
  pub dedupe_key : c'.dedupe_key ≡ c.dedupe_key
  pub status : c'.status ≡ c.status
  pub severity : c'.severity ≡ c.severity
  pub priority_score : c'.priority_score ≡ c.priority_score
  pub opened_at : c'.opened_at ≡ c.opened_at
  pub updated_at : c'.updated_at ≡ c.updated_at
  pub acknowledged_at : c'.acknowledged_at ≡ c.acknowledged_at
  pub assigned_at : c'.assigned_at ≡ c.assigned_at
  pub resolved_at : c'.resolved_at ≡ c.resolved_at
  pub dismissed_at : c'.dismissed_at ≡ c.dismissed_at
  pub latest_run_id : c'.latest_run_id ≡ c.latest_run_id
  pub source_run_ids : c'.source_run_ids ≡ c.source_run_ids
  pub timeline : Pointwise (SameEvent R) c.timeline c'.timeline
  pub snapshots : Pointwise (SameSnapshot R) c.evidence_snapshots c'.evidence_snapshots
  pub title : c'.title ≡ text_or_masked R c.title
  pub assignee_ref : c'.assignee_ref ≡ Option.map (text_or_masked R) c.assignee_ref
  pub entity_scope : c'.entity_scope ≡ safe_metadata R c.entity_scope
  pub evidence_refs : c'.evidence_refs ≡ map (uri_or_masked R) c.evidence_refs
  pub artifact_refs : c'.artifact_refs ≡ map (uri_or_masked R) c.artifact_refs
  pub metadata : c'.metadata ≡ safe_metadata R c.metadata
