-- ===== src/Cases/Moves.antt =====
-- Which status changes are accepted: those of the lifecycle table, with the reason and the time that
-- the call needs.
use orvo_agent.Base.{
  Bool-cases, inl, inr, raise, refl, not, ◌&&◌, some, arith, ◌∙◌, if◌then◌else◌, ◌==◌, All, ◌≤◌,
  ◌≡◌, String, Option, ℕ, contains, Result, Bool, true, false, ok,
}
use orvo_agent.Cases.Status.{
  actor_type_eq, status_eq, operator, terminal_statuses, case_status_transitions, ActorType, Status,
  opened, acknowledged, resolved, dismissed,
}
use orvo_agent.Redaction.Redactor.{Redactor}
use orvo_agent.Cases.Detection.{Host}
use orvo_agent.Cases.Changes.{
  check_assignment, normalized_reason, assigned, transitioned, moved_case, check_transition,
  append_event,
}
use orvo_agent.Model.{status_error, Datetime, Error, is_set}
use orvo_agent.Cases.Validators.{validate_event}
use orvo_agent.Cases.Record.{instant_or_now, Event, Case}
use orvo_agent.Cases.Validity.{NotBefore, IsValid}
use orvo_agent.Cases.Progress.{
  revalidate_case-Succeeds, validate_event-Succeeds, bind-Succeeds, Succeeds, HaveNames,
}
use orvo_agent.Cases.Upsert.{is_recurrence}

module _ (R : Redactor) (H : Host) where
  append_event-Succeeds :
      (at : Result Error ℕ) (raw : ℕ → Event) (copy : ℕ → Event → Case) (t : ℕ)
      → at ≡ ok t
      → ((e : Event) → IsValid (copy t e) × All HaveNames (copy t e).evidence_snapshots)
      → Succeeds (append_event R H at raw copy)
  unfolding append_event
  append_event-Succeeds at raw copy t h v = rw h (
      bind-Succeeds (validate_event R (raw t)) _ (validate_event-Succeeds R (raw t))
        (λ e. revalidate_case-Succeeds R (copy t e) (v e).0 (v e).1))

  edge-ne :
      (current status : Status)
      → contains (case_status_transitions current) status ≡ true
      → ((status == current) ≡ false) × (contains terminal_statuses current ≡ false)
  edge-ne opened status h = ground arith
  edge-ne acknowledged status h = ground arith
  edge-ne Status.in_progress status h = ground arith
  edge-ne resolved status h = ground arith
  edge-ne dismissed status h = ground arith

  check_transition-Succeeds :
      (status : Status) (actor_type : ActorType) (reason : Option String) (c : Case)
      → contains (case_status_transitions c.status) status ≡ true
      → ((actor_type == operator
            && contains terminal_statuses status
            && not (is_set (normalized_reason reason)))
          ≡ false)
      → check_transition status actor_type reason c ≡ ok tt
  unfolding check_transition
  check_transition-Succeeds status actor_type reason c h r =
      let p = edge-ne c.status status h in ground arith

  NotBefore_if :
      (b : Bool) (o t : ℕ) (u : Option ℕ)
      → o ≤ t
      → NotBefore o u
      → NotBefore o (if b then some t else u)
  NotBefore_if true o t u le n = le
  NotBefore_if false o t u le n = n

  is_set_if :
      (b : Bool) (t : ℕ) (u : Option ℕ) → is_set u ≡ false → is_set (if b then some t else u) ≡ b
  unfolding is_set
  is_set_if true t u n = refl
  is_set_if false t u n = n

  not_terminal :
      (s : Status)
      → contains terminal_statuses s ≡ false
      → ((s == resolved) ≡ false) × ((s == dismissed) ≡ false)
  not_terminal s h = ground arith

  moved_case-IsValid :
      (status : Status) (c : Case) (t : ℕ) (e : Event)
      → IsValid c
      → c.opened_at ≤ t
      → contains terminal_statuses c.status ≡ false
      → IsValid (moved_case status c t e)
  unfolding moved_case
  moved_case-IsValid status c t e v le n = record {
    consistent = record {
      updated = le;
      acknowledged = NotBefore_if _ c.opened_at t c.acknowledged_at le v.consistent.acknowledged;
      assigned = v.consistent.assigned;
      resolved = NotBefore_if _ c.opened_at t c.resolved_at le v.consistent.resolved;
      dismissed = NotBefore_if _ c.opened_at t c.dismissed_at le v.consistent.dismissed;
      assignment = v.consistent.assignment;
      resolution =
          is_set_if _ t c.resolved_at (v.consistent.resolution ∙ (not_terminal c.status n).0);
      dismissal =
          is_set_if _ t c.dismissed_at (v.consistent.dismissal ∙ (not_terminal c.status n).1);
    };
    bounded = v.bounded;
    has_id = v.has_id;
    has_business = v.has_business;
    has_dedupe_key = v.has_dedupe_key;
  }

  -- A status change along an edge of the table succeeds for a valid case whose metrics have names,
  -- with a reason if an operator closes the case, at a time with a time zone that is not before
  -- the case was opened.
  pub transitioned-Succeeds :
      (status : Status) (actor_type : ActorType) (actor_ref : String) (reason : Option String)
      (at : Option Datetime) (c : Case) (t : ℕ)
      → IsValid c
      → All HaveNames c.evidence_snapshots
      → contains (case_status_transitions c.status) status ≡ true
      → ((actor_type == operator
            && contains terminal_statuses status
            && not (is_set (normalized_reason reason)))
          ≡ false)
      → instant_or_now H.now at ≡ ok t
      → c.opened_at ≤ t
      → Succeeds (transitioned R H status actor_type actor_ref reason at c)
  unfolding transitioned
  transitioned-Succeeds status actor_type actor_ref reason at c t v k edge reasoned h le =
      rw (check_transition-Succeeds status actor_type reason c edge reasoned) (
        append_event-Succeeds (instant_or_now H.now at) _ (moved_case status c) t h (λ e. (
          moved_case-IsValid status c t e v le (edge-ne c.status status edge).1,
          unfold moved_case in k,
        )))

  terminal-edge :
      (current status : Status)
      → contains terminal_statuses current ≡ true
      → contains (case_status_transitions current) status ≡ false
  terminal-edge opened status h = ground arith
  terminal-edge acknowledged status h = ground arith
  terminal-edge Status.in_progress status h = ground arith
  terminal-edge resolved status h = ground arith
  terminal-edge dismissed status h = ground arith

  check_transition_of_no_edge :
      (status : Status) (actor_type : ActorType) (reason : Option String) (c : Case)
      → contains (case_status_transitions c.status) status ≡ false
      → (m : String) × (check_transition status actor_type reason c ≡ raise (status_error m))
  unfolding check_transition
  check_transition_of_no_edge status actor_type reason c h =
      elim (Bool-cases (status == c.status)) [
        | inl e ↦ rw e (_, refl)
        | inr e ↦ rw (e, h) (_, refl)
      ]

  check_assignment_of_terminal :
      (assignee_ref : String) (c : Case)
      → contains terminal_statuses c.status ≡ true
      → (m : String) × (check_assignment assignee_ref c ≡ raise (status_error m))
  unfolding check_assignment is_recurrence
  check_assignment_of_terminal assignee_ref c h = rw h (_, refl)

  -- On a resolved or dismissed case both a status change and an assignment raise the status error.
  pub terminal-refuses :
      (c : Case) (status : Status) (actor_type : ActorType) (actor_ref assignee_ref : String)
      (reason : Option String) (at : Option Datetime)
      → contains terminal_statuses c.status ≡ true
      → ((m : String) × (transitioned R H status actor_type actor_ref reason at c
            ≡ raise (status_error m)))
        × ((m : String) × (assigned R H actor_type actor_ref assignee_ref at c
              ≡ raise (status_error m)))
  unfolding transitioned assigned
  terminal-refuses c status actor_type actor_ref assignee_ref reason at h =
      let (m, e) =
        check_transition_of_no_edge status actor_type reason c (terminal-edge c.status status h) in
      let (n, f) = check_assignment_of_terminal assignee_ref c h in ((m, rw e refl), (n, rw f refl))
