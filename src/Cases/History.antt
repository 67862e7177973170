-- ===== src/Cases/History.antt =====
-- What each operation of the case store does to the history and the identity of the case it changes.
use orvo_agent.Base.{
  ◌++◌, >>=-eq-ok, if◌then◌else◌, false, guard-eq-ok, arith, List, ok, ◌≡◌, ℕ, Option, String,
}
use orvo_agent.Redaction.Redactor.{Redactor}
use orvo_agent.Cases.Detection.{Host}
use orvo_agent.Cases.Status.{case_updated, case_reopened, opened, ActorType, Status}
use orvo_agent.Cases.Changes.{
  assigned, transitioned, check_assignment, assigned_case, commented, commented_case,
}
use orvo_agent.Cases.Validity.{revalidate_case-IsValid}
use orvo_agent.Cases.Upsert.{detection_event, is_recurrence, merge_detection, merged_case}
use orvo_agent.Model.{Datetime}
use orvo_agent.Cases.Record.{instant_or_now, Snapshot, Event, Detection, Case}
use orvo_agent.Value.{Fields}
use orvo_agent.Cases.Built.{
  Extends-of_SameCase, skeleton, Continues-of_Appended, append_event-Appended, Continues, IsCopy,
}
use orvo_agent.Cases.Lifecycle.{transitioned-Transition}
use orvo_agent.Cases.Unique.{unique_snapshots}

module _ (R : Redactor) (H : Host) where
  pub transitioned-Continues :
      (status : Status) (actor_type : ActorType) (actor_ref : String) (reason : Option String)
      (transitioned_at : Option Datetime) (c c' : Case)
      → transitioned R H status actor_type actor_ref reason transitioned_at c ≡ ok c'
      → Continues R c c'
  transitioned-Continues status actor_type actor_ref reason transitioned_at c c' h =
      let m =
        transitioned-Transition R H status actor_type actor_ref reason transitioned_at c c' h in
      (m.valid, (_, m.extends))

  commented_case-IsCopy : (c : Case) (t : ℕ) (e : Event) → IsCopy c (commented_case c t e) e
  unfolding commented_case
  commented_case-IsCopy c t e = ground arith

  pub commented-Continues :
      (actor_type : ActorType) (actor_ref comment : String) (metadata : Fields)
      (commented_at : Option Datetime) (c c' : Case)
      → commented R H actor_type actor_ref comment metadata commented_at c ≡ ok c'
      → Continues R c c' × (c'.status ≡ c.status)
  unfolding commented
  commented-Continues actor_type actor_ref comment metadata commented_at c c' h =
      let (_, r) = guard-eq-ok _ _ _ h in
      let a =
        append_event-Appended R H (instant_or_now H.now commented_at) _ (commented_case c) c' r in
      (
        Continues-of_Appended R H _ _ (commented_case c) c c' (commented_case-IsCopy c) a,
        unfold commented_case in a.same.status,
      )

  assigned_case-IsCopy :
      (assignee_ref : String) (c : Case) (t : ℕ) (e : Event)
      → IsCopy c (assigned_case assignee_ref c t e) e
  unfolding assigned_case
  assigned_case-IsCopy assignee_ref c t e = ground arith

  check_assignment-eq-ok :
      (assignee_ref : String) (c : Case) (u : Unit {0})
      → check_assignment assignee_ref c ≡ ok u
      → is_recurrence c.status ≡ false
  unfolding check_assignment
  check_assignment-eq-ok assignee_ref c u h = ground arith

  pub assigned-Continues :
      (actor_type : ActorType) (actor_ref assignee_ref : String) (assigned_at : Option Datetime)
      (c c' : Case)
      → assigned R H actor_type actor_ref assignee_ref assigned_at c ≡ ok c'
      → Continues R c c' × (c'.status ≡ c.status) × (is_recurrence c.status ≡ false)
  unfolding assigned
  assigned-Continues actor_type actor_ref assignee_ref assigned_at c c' h =
      let (u, k, r) = >>=-eq-ok (check_assignment assignee_ref c) _ h in
      let a =
        append_event-Appended R H (instant_or_now H.now assigned_at) _
          (assigned_case assignee_ref c) c' r in
      (
        Continues-of_Appended R H _ _ (assigned_case assignee_ref c) c c'
            (assigned_case-IsCopy assignee_ref c) a,
        unfold assigned_case in a.same.status,
        check_assignment-eq-ok assignee_ref c u k,
      )

  merged_case-IsCopy :
      (c : Case) (d : Detection) (snapshots : List Snapshot) (e : Event) (t : ℕ)
      → IsCopy c (merged_case c d snapshots e t) e
  unfolding merged_case
  merged_case-IsCopy c d snapshots e t = ground arith

  -- A detection on a stored case continues its history; it reopens a closed case, and leaves the
  -- status of any other as it is.
  pub merge_detection-Continues :
      (c : Case) (d : Detection) (snapshots : List Snapshot) (keys : List String) (t : ℕ)
      (c' : Case)
      → merge_detection R H c d snapshots keys t ≡ ok c'
      → Continues R c c' × (c'.status ≡ (if is_recurrence c.status then opened else c.status))
  unfolding merge_detection
  merge_detection-Continues c d snapshots keys t c' h =
      let (e, he, r) =
        >>=-eq-ok
          (detection_event R H d (if is_recurrence c.status then case_reopened else case_updated)
            (if is_recurrence c.status then "Reopened" else "Updated") c.case_id
            (unique_snapshots (c.evidence_snapshots ++ snapshots)) keys t)
          _ h in
      let (v, same) = revalidate_case-IsValid R (merged_case c d snapshots e t) c' r in
      (
        (
          v,
          (
            skeleton e,
            Extends-of_SameCase R c (merged_case c d snapshots e t) c' e
                (merged_case-IsCopy c d snapshots e t) same,
          ),
        ),
        unfold merged_case in same.status,
      )
