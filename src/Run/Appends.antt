-- ===== src/Run/Appends.antt =====
-- What the appends of the ledger do to a stored run.
use orvo_agent.Base.{ok-injective, subst, >>=-eq-ok, arith, false, true, ok, ◌≡◌, refl, [], ◌∷◌}
use orvo_agent.Run.Record.{DispatchOutcomeRef, ArtifactRef, ConnectorRunOutcome, RunRecord}
use orvo_agent.Run.Ledger.{
  with_dispatch, with_artifact, is_terminal, with_outcome, ensure_open_for_append,
}
use orvo_agent.Run.Evolution.{Evolves, IsRun}
use orvo_agent.Redaction.Engine.{Engine}
use orvo_agent.Run.Kept.{Grows-refl, Grows-append, SameOutcome, SameArtifact, SameDispatch, never}

ensure_open-eq-ok :
    (r : RunRecord) (x : Unit {0}) → ensure_open_for_append r ≡ ok x → is_terminal r ≡ false
unfolding ensure_open_for_append
ensure_open-eq-ok r x h = ground arith

open_or_over : (r : RunRecord) → is_terminal r ≡ true → is_terminal r ≡ false → ⊥
open_or_over r h k = cc

-- An append succeeds on an open run only, and the run is otherwise the same.
pub with_outcome-Evolves :
    (E : Engine) (o : ConnectorRunOutcome) (r r' : RunRecord)
    → IsRun r
    → with_outcome o r ≡ ok r'
    → IsRun r' × Evolves E r r'
unfolding with_outcome is_terminal
with_outcome-Evolves E o r r' v h =
    let (x, k, q) = >>=-eq-ok (ensure_open_for_append r) _ h in
    let e = ok-injective q in
    (
      subst IsRun e (record { ended = v.ended; ordered = v.ordered }),
      subst (Evolves E r) e (record {
        run_id = refl;
        business_id = refl;
        trigger_type = refl;
        started_at = refl;
        config_ref = never;
        config_digest = refl;
        outcomes = Grows-append (SameOutcome E) r.connector_outcomes (o ∷ []);
        artifacts = Grows-refl (SameArtifact E) r.artifacts;
        dispatches = Grows-refl (SameDispatch E) r.dispatch_outcomes;
        frozen = λ over. absurd (open_or_over r over (ensure_open-eq-ok r x k));
      }),
    )

pub with_artifact-Evolves :
    (E : Engine) (o : ArtifactRef) (r r' : RunRecord)
    → IsRun r
    → with_artifact o r ≡ ok r'
    → IsRun r' × Evolves E r r'
unfolding with_artifact is_terminal
with_artifact-Evolves E o r r' v h =
    let (x, k, q) = >>=-eq-ok (ensure_open_for_append r) _ h in
    let e = ok-injective q in
    (
      subst IsRun e (record { ended = v.ended; ordered = v.ordered }),
      subst (Evolves E r) e (record {
        run_id = refl;
        business_id = refl;
        trigger_type = refl;
        started_at = refl;
        config_ref = never;
        config_digest = refl;
        outcomes = Grows-refl (SameOutcome E) r.connector_outcomes;
        artifacts = Grows-append (SameArtifact E) r.artifacts (o ∷ []);
        dispatches = Grows-refl (SameDispatch E) r.dispatch_outcomes;
        frozen = λ over. absurd (open_or_over r over (ensure_open-eq-ok r x k));
      }),
    )

pub with_dispatch-Evolves :
    (E : Engine) (o : DispatchOutcomeRef) (r r' : RunRecord)
    → IsRun r
    → with_dispatch o r ≡ ok r'
    → IsRun r' × Evolves E r r'
unfolding with_dispatch is_terminal
with_dispatch-Evolves E o r r' v h =
    let (x, k, q) = >>=-eq-ok (ensure_open_for_append r) _ h in
    let e = ok-injective q in
    (
      subst IsRun e (record { ended = v.ended; ordered = v.ordered }),
      subst (Evolves E r) e (record {
        run_id = refl;
        business_id = refl;
        trigger_type = refl;
        started_at = refl;
        config_ref = never;
        config_digest = refl;
        outcomes = Grows-refl (SameOutcome E) r.connector_outcomes;
        artifacts = Grows-refl (SameArtifact E) r.artifacts;
        dispatches = Grows-append (SameDispatch E) r.dispatch_outcomes (o ∷ []);
        frozen = λ over. absurd (open_or_over r over (ensure_open-eq-ok r x k));
      }),
    )
