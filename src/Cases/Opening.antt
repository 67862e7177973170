-- ===== src/Cases/Opening.antt =====
-- The case that a detection opens, and which of its two branches `upsert_detection` took.
use mathlib.Core.Option
use orvo_agent.Base.{
  ◌∙◌, if◌then◌else◌, sym, subst, ap, [], some, ◌∷◌, map, >>=-eq-ok, none, ok, ℕ, ◌≡◌, String,
  Option, List, refl,
}
use orvo_agent.Cases.Detection.{snapshots_for_detection, Host}
use orvo_agent.Redaction.Redactor.{text_or_masked, Redactor}
use orvo_agent.Model.{Datetime}
use orvo_agent.Cases.Validators.{redact_case}
use orvo_agent.Cases.Record.{instant_or_now, Event, Snapshot, Case, Detection}
use orvo_agent.Cases.Upsert.{is_recurrence, upserted, open_case, detection_event}
use orvo_agent.Cases.Status.{case_opened, system, opened, EventType}
use orvo_agent.Cases.Validity.{validate_case-IsValid, IsValid}
use orvo_agent.Cases.Built.{Continues, skeleton-validate_event, skeleton}
use orvo_agent.Cases.History.{merge_detection-Continues}

-- A new case: open, under the first id of the call, with the key of the detection and one event.
pub record IsNew (H : Host) (d : Detection) (c : Case) : Type 0 where
  pub valid : IsValid c
  pub case_id : c.case_id ≡ H.uuid 0
  pub business_id : c.business_id ≡ d.business_id
  pub dedupe_key : c.dedupe_key ≡ d.dedupe_key
  pub status : c.status ≡ opened
  pub updated_at : c.updated_at ≡ c.opened_at
  pub unassigned : c.assignee_ref ≡ none
  pub history :
      map skeleton c.timeline
      ≡ (H.uuid 1, case_opened, system, d.run_id, some c.case_id, c.opened_at) ∷ []

-- What `upsert_detection` builds, by what it found under the dedupe key.
abbrev pub Upserted : Redactor → Host → Detection → Option Case → Case → Type 0
Upserted R H d none c' = IsNew H d c'
Upserted R H d (some c) c' =
    Continues R c c' × (c'.status ≡ (if is_recurrence c.status then opened else c.status))

module _ (R : Redactor) (H : Host) where
  detection_event-skeleton :
      (d : Detection) (event_type : EventType) (verb case_id : String) (snapshots : List Snapshot)
      (keys : List String) (t : ℕ) (e : Event)
      → detection_event R H d event_type verb case_id snapshots keys t ≡ ok e
      → skeleton e ≡ (H.uuid 1, event_type, system, d.run_id, some case_id, t)
  unfolding detection_event
  detection_event-skeleton d event_type verb case_id snapshots keys t e h =
      skeleton-validate_event R _ e h

  IsNew-of_IsValid :
      (d : Detection) (snapshots : List Snapshot) (t : ℕ) (e : Event) (raw : Case)
      → IsValid (redact_case R raw)
      → raw.case_id ≡ H.uuid 0
      → raw.business_id ≡ d.business_id
      → raw.dedupe_key ≡ d.dedupe_key
      → raw.status ≡ opened
      → raw.updated_at ≡ raw.opened_at
      → raw.assignee_ref ≡ none
      → raw.timeline ≡ e ∷ []
      → skeleton e ≡ (H.uuid 1, case_opened, system, d.run_id, some raw.case_id, raw.opened_at)
      → IsNew H d (redact_case R raw)
  unfolding redact_case
  IsNew-of_IsValid d snapshots t e raw v i b k s u a tl ev = record {
    valid = v;
    case_id = i;
    business_id = b;
    dedupe_key = k;
    status = s;
    updated_at = u;
    unassigned = ap (Option.map (text_or_masked R)) a;
    history = ap (map skeleton) tl ∙ ap (λ s. s ∷ []) ev;
  }

  open_case-IsNew :
      (d : Detection) (snapshots : List Snapshot) (keys : List String) (t : ℕ) (c : Case)
      → open_case R H d snapshots keys t ≡ ok c
      → IsNew H d c
  unfolding open_case
  open_case-IsNew d snapshots keys t c h =
      let (e, he, r) =
        >>=-eq-ok (detection_event R H d case_opened "Opened" (H.uuid 0) snapshots keys t) _ h in
      let (v, eq) = validate_case-IsValid R _ c r in
      subst (IsNew H d) (sym eq) (
        IsNew-of_IsValid d snapshots t e _ (subst IsValid eq v) refl refl refl refl refl refl refl
          (detection_event-skeleton d case_opened "Opened" (H.uuid 0) snapshots keys t e he))

  -- A detection that succeeds opens a new case in status open under the first id of the host with
  -- one event if nothing had its key, and otherwise continues the stored case, reopening it
  -- exactly if it was closed.
  pub upserted-Upserted :
      (existing : Option Case) (d : Detection) (detected_at : Option Datetime) (c' : Case)
      → upserted R H existing d detected_at ≡ ok c'
      → Upserted R H d existing c'
  unfolding upserted
  upserted-Upserted none d detected_at c' h =
      let (t, ht, r) = >>=-eq-ok (instant_or_now H.now detected_at) _ h in
      let (snapshots, hs, q) = >>=-eq-ok (snapshots_for_detection R H d t) _ r in
      open_case-IsNew d snapshots (map (λ (s : Snapshot). s.snapshot_key) snapshots) t c' q
  upserted-Upserted (some c) d detected_at c' h =
      let (t, ht, r) = >>=-eq-ok (instant_or_now H.now detected_at) _ h in
      let (snapshots, hs, q) = >>=-eq-ok (snapshots_for_detection R H d t) _ r in
      merge_detection-Continues R H c d snapshots (map (λ (s : Snapshot). s.snapshot_key) snapshots)
        t c' q
