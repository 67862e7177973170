-- ===== src/Run/Record.antt =====
-- The models of app/brain/run_ledger.py with their validators.
use mathlib.Core.Option
use orvo_agent.Base.{
  none, some, ◌==◌, not, ◌&&◌, ltb, contains, raise_if, ◌>>=◌, ◌>>◌, raise, ok, [], Result, ℕ,
  Option, ◌∷◌, String, List, Eq,
}
use orvo_agent.Model.{
  validate_all, value_error, naive, aware, Error, min_length, is_before, is_set, Datetime,
}
use orvo_agent.Redaction.Engine.{Engine}
use orvo_agent.Value.{Fields}
use orvo_agent.Run.Metadata.{redact_metadata}
use orvo_agent.Redaction.Text.{redact_text, redact_uri}

-- `ConnectorHealthState` of app/brain/connector_health.py. `ok` is `healthy` here.
pub data HealthState : Type 0 where
  healthy degraded stale unauthorized rate_limited failed : HealthState

pub data TriggerType : Type 0 where
  scheduled forced manual preview backfill : TriggerType

pub data RunStatus : Type 0 where
  running succeeded failed partial cancelled : RunStatus

pub data ConnectorStatus : Type 0 where
  succeeded failed skipped : ConnectorStatus

pub data DispatchStatus : Type 0 where
  sent failed skipped_duplicate skipped queued : DispatchStatus

pub RunStatus-discrete : Discrete RunStatus
RunStatus-discrete = hlevel

instance unfoldable pub run_status_eq : Eq RunStatus
unfolding RunStatus-discrete
run_status_eq = record { dec = RunStatus-discrete }

abbrev pub terminal_run_statuses : List RunStatus
terminal_run_statuses = RunStatus.succeeded ∷ RunStatus.failed ∷ partial ∷ cancelled ∷ []

-- `default_connector_health_state`
abbrev pub default_connector_health_state : ConnectorStatus → HealthState
default_connector_health_state ConnectorStatus.succeeded = healthy
default_connector_health_state ConnectorStatus.skipped = degraded
default_connector_health_state ConnectorStatus.failed = HealthState.failed

pub record ArtifactRef : Type 0 where
  pub artifact_id : String
  pub artifact_type : String
  pub uri : Option String
  pub evidence_refs : List String
  pub operational_case_ids : List String
  pub metadata : Fields
  pub created_at : ℕ

pub record ConnectorRunOutcome : Type 0 where
  pub connector_id : String
  pub connector_type : String
  pub status : ConnectorStatus
  pub health_state : Option HealthState
  pub started_at : ℕ
  pub finished_at : Option ℕ
  pub metrics_count : Option ℕ
  pub error_summary : Option String
  pub evidence_refs : List String
  pub metadata : Fields

pub record DispatchOutcomeRef : Type 0 where
  pub channel : String
  pub status : DispatchStatus
  pub attempt_number : ℕ
  pub idempotency_key : Option String
  pub message_id : Option String
  pub provider_response_ref : Option String
  pub error_summary : Option String
  pub metadata : Fields
  pub created_at : ℕ

pub record RunRecord : Type 0 where
  pub run_id : String
  pub business_id : String
  pub trigger_type : TriggerType
  pub status : RunStatus
  pub started_at : ℕ
  pub finished_at : Option ℕ
  pub config_ref : Option String
  pub config_digest : Option String
  pub connector_outcomes : List ConnectorRunOutcome
  pub artifacts : List ArtifactRef
  pub dispatch_outcomes : List DispatchOutcomeRef
  pub summary_metadata : Fields
  pub error_summary : Option String

-- `_as_utc` of this module
unfoldable pub run_as_utc : Datetime → Result Error ℕ
run_as_utc (aware t) = ok t
run_as_utc (naive t) = raise (value_error "run ledger timestamps must be timezone-aware")

-- `RunRecord.validate_lifecycle_times`
unfoldable pub validate_run_times : RunRecord → Result Error RunRecord
unfolding run_status_eq is_set is_before
validate_run_times r = do
  raise_if (contains terminal_run_statuses r.status && not (is_set r.finished_at))
      (value_error "terminal run requires finished_at")
  raise_if (r.status == running && is_set r.finished_at)
      (value_error "running run cannot have finished_at")
  raise_if (is_before r.finished_at r.started_at)
      (value_error "finished_at must be after started_at")
  ok r

module _ (E : Engine) where
  -- `ArtifactRef`
  unfoldable pub validate_artifact : ArtifactRef → Result Error ArtifactRef
  unfolding min_length redact_metadata
  validate_artifact a = do
    min_length "artifact_id" a.artifact_id
    min_length "artifact_type" a.artifact_type
    ok (record a { uri = Option.map (redact_uri E) a.uri; metadata = redact_metadata E a.metadata })

  -- `ConnectorRunOutcome`
  unfoldable pub validate_outcome : ConnectorRunOutcome → Result Error ConnectorRunOutcome
  unfolding min_length redact_metadata is_before
  validate_outcome o = do
    min_length "connector_id" o.connector_id
    min_length "connector_type" o.connector_type
    raise_if (is_before o.finished_at o.started_at)
        (value_error "finished_at must be after started_at")
    ok (record o {
      health_state = elim o.health_state [
        | none ↦ some (default_connector_health_state o.status)
        | some h ↦ some h
      ];
      error_summary = Option.map (redact_text E) o.error_summary;
      metadata = redact_metadata E o.metadata;
    })

  -- `DispatchOutcomeRef`
  unfoldable pub validate_dispatch : DispatchOutcomeRef → Result Error DispatchOutcomeRef
  unfolding min_length redact_metadata
  validate_dispatch d = do
    min_length "channel" d.channel
    raise_if (ltb d.attempt_number 1)
        (value_error "attempt_number: Input should be greater than or equal to 1")
    ok (record d {
      provider_response_ref = Option.map (redact_uri E) d.provider_response_ref;
      error_summary = Option.map (redact_text E) d.error_summary;
      metadata = redact_metadata E d.metadata;
    })

  -- the field validators of `RunRecord`
  unfoldable pub redact_run : RunRecord → RunRecord
  unfolding redact_metadata
  redact_run r = record r {
    config_ref = Option.map (redact_uri E) r.config_ref;
    summary_metadata = redact_metadata E r.summary_metadata;
    error_summary = Option.map (redact_text E) r.error_summary;
  }

  -- `RunRecord(...)`: its outcomes and references are model objects
  unfoldable pub validate_run : RunRecord → Result Error RunRecord
  unfolding min_length redact_run
  validate_run r = do
    min_length "run_id" r.run_id
    min_length "business_id" r.business_id
    validate_run_times (redact_run r)

  -- `RunRecord.model_validate(record.model_dump())`
  unfoldable pub revalidate_run : RunRecord → Result Error RunRecord
  revalidate_run r = do
    outcomes ← validate_all validate_outcome r.connector_outcomes
    artifacts ← validate_all validate_artifact r.artifacts
    dispatches ← validate_all validate_dispatch r.dispatch_outcomes
    validate_run (record r {
      connector_outcomes = outcomes;
      artifacts = artifacts;
      dispatch_outcomes = dispatches;
    })
