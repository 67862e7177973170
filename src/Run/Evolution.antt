-- ===== src/Run/Evolution.antt =====
-- What a mutation of the ledger does to a stored run.
use orvo_agent.Base.{
  Pointwise, arith, ◌==◌, not, ok-injective, ◌&&◌, true, guard-eq-ok, false, ap, ok, contains, ◌∙◌,
  sym, Bool, ◌≡◌, refl,
}
use orvo_agent.Run.Record.{
  running, run_status_eq, terminal_run_statuses, validate_run_times, RunStatus, RunRecord,
}
use orvo_agent.Run.Ledger.{is_terminal}
use orvo_agent.Redaction.Engine.{Engine}
use orvo_agent.Run.Kept.{
  Repeated, never, Grows, Grows-refl, Grows-trans, Repeated-trans, all-refl, all-trans, SameOutcome,
  SameArtifact, SameDispatch, SameMetadata, SameText, SameReference,
}
use orvo_agent.Model.{is_before, is_set}

-- A run that is over stays as it ended: nothing is added to it, and only redactions are repeated.
pub record Frozen (E : Engine) (r r' : RunRecord) : Type 0 where
  pub status : r'.status ≡ r.status
  pub finished_at : r'.finished_at ≡ r.finished_at
  pub outcomes : Pointwise (Repeated (SameOutcome E)) r.connector_outcomes r'.connector_outcomes
  pub artifacts : Pointwise (Repeated (SameArtifact E)) r.artifacts r'.artifacts
  pub dispatches : Pointwise (Repeated (SameDispatch E)) r.dispatch_outcomes r'.dispatch_outcomes
  pub summary_metadata : Repeated (SameMetadata E) r.summary_metadata r'.summary_metadata
  pub error_summary : Repeated (SameText E) r.error_summary r'.error_summary

-- A run keeps its identity, its records stay in place but for redactions and others may follow, and
-- once over it is frozen.
pub record Evolves (E : Engine) (r r' : RunRecord) : Type 0 where
  pub run_id : r'.run_id ≡ r.run_id
  pub business_id : r'.business_id ≡ r.business_id
  pub trigger_type : r'.trigger_type ≡ r.trigger_type
  pub started_at : r'.started_at ≡ r.started_at
  pub config_ref : Repeated (SameReference E) r.config_ref r'.config_ref
  pub config_digest : r'.config_digest ≡ r.config_digest
  pub outcomes : Grows (SameOutcome E) r.connector_outcomes r'.connector_outcomes
  pub artifacts : Grows (SameArtifact E) r.artifacts r'.artifacts
  pub dispatches : Grows (SameDispatch E) r.dispatch_outcomes r'.dispatch_outcomes
  pub frozen : is_terminal r ≡ true → Frozen E r r'

-- The invariant of a run: it has an end if and only if it is over, not before it began.
pub record IsRun (r : RunRecord) : Type 0 where
  pub ended : is_set r.finished_at ≡ is_terminal r
  pub ordered : is_before r.finished_at r.started_at ≡ false

ended_of_checks :
    (s : RunStatus) (b : Bool)
    → (contains terminal_run_statuses s && not b) ≡ false
    → (s == running && b) ≡ false
    → b ≡ contains terminal_run_statuses s
ended_of_checks s b h k = ground arith

pub validate_run_times-IsRun :
    (r r' : RunRecord) → validate_run_times r ≡ ok r' → IsRun r × (r' ≡ r)
unfolding validate_run_times is_terminal
validate_run_times-IsRun r r' h =
    let (h1, q1) = guard-eq-ok _ _ _ h in
    let (h2, q2) = guard-eq-ok _ _ _ q1 in
    let (h3, q3) = guard-eq-ok _ _ _ q2 in
    (record { ended = ended_of_checks r.status _ h1 h2; ordered = h3 }, sym (ok-injective q3))

pub Evolves-refl : (E : Engine) (r : RunRecord) → Evolves E r r
Evolves-refl E r = record {
  run_id = refl;
  business_id = refl;
  trigger_type = refl;
  started_at = refl;
  config_ref = never;
  config_digest = refl;
  outcomes = Grows-refl (SameOutcome E) r.connector_outcomes;
  artifacts = Grows-refl (SameArtifact E) r.artifacts;
  dispatches = Grows-refl (SameDispatch E) r.dispatch_outcomes;
  frozen = λ _. record {
    status = refl;
    finished_at = refl;
    outcomes = all-refl (SameOutcome E) r.connector_outcomes;
    artifacts = all-refl (SameArtifact E) r.artifacts;
    dispatches = all-refl (SameDispatch E) r.dispatch_outcomes;
    summary_metadata = never;
    error_summary = never;
  };
}

pub Evolves-trans : (E : Engine) (r s t : RunRecord) → Evolves E r s → Evolves E s t → Evolves E r t
unfolding is_terminal
Evolves-trans E r s t h k = record {
  run_id = k.run_id ∙ h.run_id;
  business_id = k.business_id ∙ h.business_id;
  trigger_type = k.trigger_type ∙ h.trigger_type;
  started_at = k.started_at ∙ h.started_at;
  config_ref =
      Repeated-trans (SameReference E) r.config_ref s.config_ref t.config_ref h.config_ref
        k.config_ref;
  config_digest = k.config_digest ∙ h.config_digest;
  outcomes = Grows-trans (SameOutcome E) _ _ _ h.outcomes k.outcomes;
  artifacts = Grows-trans (SameArtifact E) _ _ _ h.artifacts k.artifacts;
  dispatches = Grows-trans (SameDispatch E) _ _ _ h.dispatches k.dispatches;
  frozen = λ over.
      let f = h.frozen over in
      let g = k.frozen (ap (contains terminal_run_statuses) f.status ∙ over) in
      record {
        status = g.status ∙ f.status;
        finished_at = g.finished_at ∙ f.finished_at;
        outcomes = all-trans (SameOutcome E) _ _ _ f.outcomes g.outcomes;
        artifacts = all-trans (SameArtifact E) _ _ _ f.artifacts g.artifacts;
        dispatches = all-trans (SameDispatch E) _ _ _ f.dispatches g.dispatches;
        summary_metadata =
            Repeated-trans (SameMetadata E) r.summary_metadata s.summary_metadata t.summary_metadata
              f.summary_metadata g.summary_metadata;
        error_summary =
            Repeated-trans (SameText E) r.error_summary s.error_summary t.error_summary
              f.error_summary g.error_summary;
      };
}
