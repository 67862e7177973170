-- ===== src/Run/Invariant.antt =====
-- The mutations of the ledger keep runs valid, add to them only, and leave runs that are over alone.
use mathlib.Core.Option
use orvo_agent.Base.{
  Pointwise, nat_eq, ap, ok-injective, ◌∙◌, sym, >>=-eq-ok, arith, String, ℕ, true, Option, ok, ◌≡◌,
  refl, none, some,
}
use orvo_agent.Run.Record.{redact_run, running, run_as_utc, RunStatus, TriggerType, RunRecord}
use orvo_agent.Redaction.Engine.{Engine}
use orvo_agent.Run.Ledger.{
  fresh_run, start_time, merged_metadata, or_else, RunUpdate, updated_run, is_terminal, new_run,
  changed_run, finish_time, check_update,
}
use orvo_agent.Model.{aware, Datetime, is_set}
use orvo_agent.Cases.Detection.{or_default, Host}
use orvo_agent.Run.Evolution.{Evolves, IsRun}
use orvo_agent.Run.Kept.{
  Repeated-once, Grows-once, all-once, SameOutcome, SameArtifact, SameDispatch, SameMetadata,
  SameText, SameReference,
}
use orvo_agent.Run.Revalidated.{revalidate_run-SameRun, validate_run-redact_run}
use orvo_agent.Run.Metadata.{redact_metadata}
use orvo_agent.Redaction.Text.{redact_text}
use orvo_agent.Value.{Fields, merge_fields}

-- The metadata of a run with what an update adds, and its error with the new one, if there is one.
abbrev pub with_metadata : Option Fields → Fields → Fields
with_metadata none d = d
with_metadata (some e) d = merge_fields d e

abbrev pub with_error : Option String → Option String → Option String
with_error none e = e
with_error (some f) e = some f

abbrev pub with_status : Option RunStatus → RunStatus → RunStatus
with_status none s = s
with_status (some t) s = t

-- An update of a run: its identity is kept, each of its records is redacted once more and none is
-- added, it has the status, end, metadata and error of the update, and a run that is over is given
-- none of these.
pub record Updated (E : Engine) (u : RunUpdate) (r r' : RunRecord) : Type 0 where
  pub run_id : r'.run_id ≡ r.run_id
  pub business_id : r'.business_id ≡ r.business_id
  pub trigger_type : r'.trigger_type ≡ r.trigger_type
  pub started_at : r'.started_at ≡ r.started_at
  pub config_ref : SameReference E r.config_ref r'.config_ref
  pub config_digest : r'.config_digest ≡ r.config_digest
  pub status : r'.status ≡ with_status u.new_status r.status
  pub same_end : u.new_finished_at ≡ none → r'.finished_at ≡ r.finished_at
  pub new_end : (t : ℕ) → u.new_finished_at ≡ some (aware t) → r'.finished_at ≡ some t
  pub outcomes : Pointwise (SameOutcome E) r.connector_outcomes r'.connector_outcomes
  pub artifacts : Pointwise (SameArtifact E) r.artifacts r'.artifacts
  pub dispatches : Pointwise (SameDispatch E) r.dispatch_outcomes r'.dispatch_outcomes
  pub summary_metadata :
      SameMetadata E (with_metadata u.new_metadata r.summary_metadata) r'.summary_metadata
  pub error_summary : SameText E (with_error u.new_error r.error_summary) r'.error_summary
  pub refused :
      is_terminal r ≡ true
      → (u.new_status ≡ none)
        × (u.new_finished_at ≡ none)
        × (u.new_metadata ≡ none)
        × (u.new_error ≡ none)

module _ (E : Engine) where
  -- A run that is over accepts no change.
  no_change_when_over :
      (u : RunUpdate) (r : RunRecord) (x : Unit {0})
      → check_update u r ≡ ok x
      → is_terminal r ≡ true
      → (u.new_status ≡ none)
        × (u.new_finished_at ≡ none)
        × (u.new_metadata ≡ none)
        × (u.new_error ≡ none)
  unfolding check_update is_set
  no_change_when_over u r x h t = ground arith

  finish_time-none :
      (o old : Option ℕ) (t : Option Datetime) → t ≡ none → finish_time t old ≡ ok o → o ≡ old
  unfolding finish_time
  finish_time-none o old none e h = sym (ok-injective h)
  finish_time-none o old (some t) e h = cc

  finish_time-some :
      (o old : Option ℕ) (d : Option Datetime) (t : ℕ)
      → d ≡ some (aware t)
      → finish_time d old ≡ ok o
      → o ≡ some t
  unfolding finish_time run_as_utc
  finish_time-some o old d t e h = sym (ok-injective (rw e at h))

  status_of : (o : Option RunStatus) (s : RunStatus) → or_else o s ≡ with_status o s
  status_of none s = refl
  status_of (some t) s = refl

  metadata_of : (o : Option Fields) (d : Fields) → merged_metadata o d ≡ with_metadata o d
  unfolding merged_metadata
  metadata_of none d = refl
  metadata_of (some e) d = refl

  error_of : (o e : Option String) → elim o [ none ↦ e | some f ↦ some f ] ≡ with_error o e
  error_of none e = refl
  error_of (some f) e = refl

  -- An update of a run that succeeds leaves a valid run with the same identity and the same records,
  -- each redacted once more and none added. It has the status, the end, the metadata and the error of
  -- the update where the update gives one, the last two redacted, and its own where not; to a run that
  -- is over the update gave none of these.
  pub changed_run-Updated :
      (u : RunUpdate) (r r' : RunRecord) → changed_run E u r ≡ ok r' → IsRun r' × Updated E u r r'
  unfolding changed_run updated_run
  changed_run-Updated u r r' h =
      let (x, k, q1) = >>=-eq-ok (check_update u r) _ h in
      let (f, kf, q2) = >>=-eq-ok (finish_time u.new_finished_at r.finished_at) _ q1 in
      let (v, s) = revalidate_run-SameRun E (updated_run u f r) r' q2 in
      (
        v,
        record {
          run_id = s.run_id;
          business_id = s.business_id;
          trigger_type = s.trigger_type;
          started_at = s.started_at;
          config_ref = s.config_ref;
          config_digest = s.config_digest;
          status = s.status ∙ status_of u.new_status r.status;
          same_end = λ n. s.finished_at ∙ finish_time-none f r.finished_at u.new_finished_at n kf;
          new_end =
              λ t e. s.finished_at ∙ finish_time-some f r.finished_at u.new_finished_at t e kf;
          outcomes = s.outcomes;
          artifacts = s.artifacts;
          dispatches = s.dispatches;
          summary_metadata =
              s.summary_metadata
              ∙ ap (redact_metadata E) (metadata_of u.new_metadata r.summary_metadata);
          error_summary =
              s.error_summary
              ∙ ap (Option.map (redact_text E)) (error_of u.new_error r.error_summary);
          refused = no_change_when_over u r x k;
        },
      )

  -- An update is an evolution.
  pub changed_run-Evolves :
      (u : RunUpdate) (r r' : RunRecord) → changed_run E u r ≡ ok r' → IsRun r' × Evolves E r r'
  changed_run-Evolves u r r' h =
      let (v, s) = changed_run-Updated u r r' h in
      (
        v,
        record {
          run_id = s.run_id;
          business_id = s.business_id;
          trigger_type = s.trigger_type;
          started_at = s.started_at;
          config_ref = Repeated-once (SameReference E) r.config_ref r'.config_ref s.config_ref;
          config_digest = s.config_digest;
          outcomes = Grows-once (SameOutcome E) r.connector_outcomes _ s.outcomes;
          artifacts = Grows-once (SameArtifact E) r.artifacts _ s.artifacts;
          dispatches = Grows-once (SameDispatch E) r.dispatch_outcomes _ s.dispatches;
          frozen = λ over.
              let (ns, nf, nm, ne) = s.refused over in
              record {
                status = s.status ∙ ap (λ o. with_status o r.status) ns;
                finished_at = s.same_end nf;
                outcomes = all-once (SameOutcome E) r.connector_outcomes _ s.outcomes;
                artifacts = all-once (SameArtifact E) r.artifacts _ s.artifacts;
                dispatches = all-once (SameDispatch E) r.dispatch_outcomes _ s.dispatches;
                summary_metadata =
                    Repeated-once (SameMetadata E) r.summary_metadata r'.summary_metadata (
                      s.summary_metadata
                      ∙ ap (λ o. redact_metadata E (with_metadata o r.summary_metadata)) nm);
                error_summary = Repeated-once (SameText E) r.error_summary r'.error_summary (
                    s.error_summary
                    ∙ ap (λ o. Option.map (redact_text E) (with_error o r.error_summary)) ne);
              };
        },
      )

  -- A new run is valid and running.
  pub new_run-IsRun :
      (H : Host) (business_id : String) (trigger_type : TriggerType) (run_id : Option String)
      (started_at : Option Datetime) (ref digest : Option String) (metadata : Fields)
      (r : RunRecord)
      → new_run E H business_id trigger_type run_id started_at ref digest metadata ≡ ok r
      → IsRun r × (r.status ≡ running) × (r.business_id ≡ business_id)
  unfolding new_run
  new_run-IsRun H business_id trigger_type run_id started_at ref digest metadata r h =
      let (at, k, q) = >>=-eq-ok (start_time H.now started_at) _ h in
      let (v, s) =
        validate_run-redact_run E
          (fresh_run (or_default run_id (H.uuid 0)) business_id trigger_type at ref digest metadata)
          r q in
      (
        v,
        ap (λ (x : RunRecord). x.status) s ∙ unfold redact_run fresh_run in refl,
        ap (λ (x : RunRecord). x.business_id) s ∙ unfold redact_run fresh_run in refl,
      )
