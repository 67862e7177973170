-- ===== src/Cases/Record.antt =====
-- The pydantic models of app/brain/operational_cases.py. An instant is a number
-- (microseconds, UTC); a `datetime` argument may lack its time zone.
use orvo_agent.Base.{ℕ, String, Option, none, some, List, string_eq, Result, ok, raise}
use orvo_agent.Value.{Value, Fields}
use orvo_agent.Cases.Status.{Status, CaseType, Severity, Freshness, EventType, ActorType, status_eq}
use orvo_agent.Model.{Error, value_error, Datetime, aware, naive}

-- `_as_utc`
unfoldable pub as_utc : Datetime → Result Error ℕ
as_utc (aware t) = ok t
as_utc (naive t) = raise (value_error "operational case timestamps must be timezone-aware")

-- `_as_utc(value) if value is not None else _now_utc()`
unfoldable pub instant_or_now : ℕ → Option Datetime → Result Error ℕ
unfolding as_utc
instant_or_now now none = ok now
instant_or_now now (some t) = as_utc t

pub record EvidenceMetric : Type 0 where
  pub metric_key : String
  pub label : Option String
  pub value : Value
  pub unit : Option String
  pub currency : Option String
  pub window : Option String
  pub observed_at : Option ℕ
  pub metadata : Fields

pub record Snapshot : Type 0 where
  pub snapshot_id : String
  pub snapshot_key : String
  pub captured_at : ℕ
  pub run_id : Option String
  pub artifact_ref : Option String
  pub evidence_ref : String
  pub source : String
  pub source_label : Option String
  pub case_type : Option CaseType
  pub entity_scope : Fields
  pub summary : String
  pub freshness_state : Freshness
  pub metrics : List EvidenceMetric
  pub metadata : Fields

pub record Event : Type 0 where
  pub event_id : String
  pub event_type : EventType
  pub actor_type : ActorType
  pub actor_ref : String
  pub run_id : Option String
  pub case_id : Option String
  pub artifact_ref : Option String
  pub evidence_snapshot_ids : List String
  pub created_at : ℕ
  pub summary : String
  pub metadata : Fields

pub record Detection : Type 0 where
  pub business_id : String
  pub case_type : CaseType
  pub dedupe_key : String
  pub title : String
  pub severity : Severity
  pub priority_score : ℕ
  pub entity_scope : Fields
  pub evidence_refs : List String
  pub run_id : Option String
  pub artifact_refs : List String
  pub evidence_snapshots : List Snapshot
  pub metadata : Fields

pub record Case : Type 0 where
  pub case_id : String
  pub business_id : String
  pub case_type : CaseType
  pub dedupe_key : String
  pub title : String
  pub status : Status
  pub severity : Severity
  pub priority_score : ℕ
  pub entity_scope : Fields
  pub opened_at : ℕ
  pub updated_at : ℕ
  pub acknowledged_at : Option ℕ
  pub assigned_at : Option ℕ
  pub assignee_ref : Option String
  pub resolved_at : Option ℕ
  pub dismissed_at : Option ℕ
  pub latest_run_id : Option String
  pub source_run_ids : List String
  pub evidence_refs : List String
  pub artifact_refs : List String
  pub evidence_snapshots : List Snapshot
  pub timeline : List Event
  pub metadata : Fields
