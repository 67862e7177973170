-- ===== src/Run/Revalidated.antt =====
-- What validation changes of a run and its records: redaction, and nothing else.
use orvo_agent.Base.{
  Pointwise, guard-eq-ok, ltb, nat_eq, ok-injective, subst, sym, >>=-eq-ok, Option, ok, ◌≡◌, refl,
  none, some,
}
use orvo_agent.Run.Record.{
  redact_run, ConnectorStatus, HealthState, default_connector_health_state, DispatchOutcomeRef,
  ArtifactRef, ConnectorRunOutcome, revalidate_run, validate_run, validate_dispatch,
  validate_artifact, validate_outcome, RunRecord,
}
use orvo_agent.Redaction.Engine.{Engine}
use orvo_agent.Model.{min_length, validate_all, is_before}
use orvo_agent.Run.Evolution.{validate_run_times-IsRun, IsRun}
use orvo_agent.Run.Kept.{
  health_or_default, SameOutcome, SameArtifact, SameDispatch, SameMetadata, SameText, SameReference,
}
use orvo_agent.Cases.Validity.{validate_all-Pointwise}

-- A run that passed through validation again.
pub record SameRun (E : Engine) (r r' : RunRecord) : Type 0 where
  pub run_id : r'.run_id ≡ r.run_id
  pub business_id : r'.business_id ≡ r.business_id
  pub trigger_type : r'.trigger_type ≡ r.trigger_type
  pub status : r'.status ≡ r.status
  pub started_at : r'.started_at ≡ r.started_at
  pub finished_at : r'.finished_at ≡ r.finished_at
  pub config_ref : SameReference E r.config_ref r'.config_ref
  pub config_digest : r'.config_digest ≡ r.config_digest
  pub outcomes : Pointwise (SameOutcome E) r.connector_outcomes r'.connector_outcomes
  pub artifacts : Pointwise (SameArtifact E) r.artifacts r'.artifacts
  pub dispatches : Pointwise (SameDispatch E) r.dispatch_outcomes r'.dispatch_outcomes
  pub summary_metadata : SameMetadata E r.summary_metadata r'.summary_metadata
  pub error_summary : SameText E r.error_summary r'.error_summary

module _ (E : Engine) where
  pub validate_outcome-SameOutcome :
      (o o' : ConnectorRunOutcome) → validate_outcome E o ≡ ok o' → SameOutcome E o o'
  unfolding validate_outcome
  validate_outcome-SameOutcome o o' h =
      let (_, _, h1) = >>=-eq-ok (min_length "connector_id" o.connector_id) _ h in
      let (_, _, h2) = >>=-eq-ok (min_length "connector_type" o.connector_type) _ h1 in
      let (_, h3) = guard-eq-ok (is_before o.finished_at o.started_at) _ _ h2 in
      subst (SameOutcome E o) (ok-injective h3) (record {
        connector_id = refl;
        connector_type = refl;
        status = refl;
        health_state = stated o.health_state o.status;
        started_at = refl;
        finished_at = refl;
        metrics_count = refl;
        error_summary = refl;
        evidence_refs = refl;
        metadata = refl;
      })
    where
      stated :
          (h : Option HealthState) (s : ConnectorStatus)
          → elim h [ none ↦ some (default_connector_health_state s) | some x ↦ some x ]
            ≡ some (health_or_default h s)
      stated none s = refl
      stated (some x) s = refl

  validate_artifact-SameArtifact :
      (a a' : ArtifactRef) → validate_artifact E a ≡ ok a' → SameArtifact E a a'
  unfolding validate_artifact
  validate_artifact-SameArtifact a a' h =
      let (_, _, h1) = >>=-eq-ok (min_length "artifact_id" a.artifact_id) _ h in
      let (_, _, h2) = >>=-eq-ok (min_length "artifact_type" a.artifact_type) _ h1 in
      subst (SameArtifact E a) (ok-injective h2) (record {
        artifact_id = refl;
        artifact_type = refl;
        uri = refl;
        evidence_refs = refl;
        operational_case_ids = refl;
        metadata = refl;
        created_at = refl;
      })

  validate_dispatch-SameDispatch :
      (d d' : DispatchOutcomeRef) → validate_dispatch E d ≡ ok d' → SameDispatch E d d'
  unfolding validate_dispatch
  validate_dispatch-SameDispatch d d' h =
      let (_, _, h1) = >>=-eq-ok (min_length "channel" d.channel) _ h in
      let (_, h2) = guard-eq-ok (ltb d.attempt_number 1) _ _ h1 in
      subst (SameDispatch E d) (ok-injective h2) (record {
        channel = refl;
        status = refl;
        attempt_number = refl;
        idempotency_key = refl;
        message_id = refl;
        provider_response_ref = refl;
        error_summary = refl;
        metadata = refl;
        created_at = refl;
      })

  -- What validation of a run with validated records accepts.
  pub validate_run-redact_run :
      (r r' : RunRecord) → validate_run E r ≡ ok r' → IsRun r' × (r' ≡ redact_run E r)
  unfolding validate_run
  validate_run-redact_run r r' h =
      let (x, k1, q1) = >>=-eq-ok (min_length "run_id" r.run_id) _ h in
      let (y, k2, q2) = >>=-eq-ok (min_length "business_id" r.business_id) _ q1 in
      let (v, e) = validate_run_times-IsRun (redact_run E r) r' q2 in (subst IsRun (sym e) v, e)

  pub revalidate_run-SameRun :
      (r r' : RunRecord) → revalidate_run E r ≡ ok r' → IsRun r' × SameRun E r r'
  unfolding revalidate_run redact_run
  revalidate_run-SameRun r r' h =
      let (os, vo, q1) = >>=-eq-ok (validate_all (validate_outcome E) r.connector_outcomes) _ h in
      let (refs, va, q2) = >>=-eq-ok (validate_all (validate_artifact E) r.artifacts) _ q1 in
      let (ds, vd, q3) = >>=-eq-ok (validate_all (validate_dispatch E) r.dispatch_outcomes) _ q2 in
      let (v, e) = validate_run-redact_run _ r' q3 in
      (
        v,
        subst (SameRun E r) (sym e) (record {
          run_id = refl;
          business_id = refl;
          trigger_type = refl;
          status = refl;
          started_at = refl;
          finished_at = refl;
          config_ref = refl;
          config_digest = refl;
          outcomes =
              validate_all-Pointwise (validate_outcome E) (SameOutcome E)
                validate_outcome-SameOutcome r.connector_outcomes os vo;
          artifacts =
              validate_all-Pointwise (validate_artifact E) (SameArtifact E)
                validate_artifact-SameArtifact r.artifacts refs va;
          dispatches =
              validate_all-Pointwise (validate_dispatch E) (SameDispatch E)
                validate_dispatch-SameDispatch r.dispatch_outcomes ds vd;
          summary_metadata = refl;
          error_summary = refl;
        }),
      )
