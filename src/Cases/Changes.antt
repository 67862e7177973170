-- ===== src/Cases/Changes.antt =====
-- `transition_case`, `add_comment` and `assign_case` of app/brain/operational_cases.py: the case that a
-- call builds from the stored one.
use orvo_agent.Base.{
  ok, ℕ, String, ◌<>◌, not, ◌&&◌, Option, none, some, [], ◌∷◌, ◌++◌, ◌==◌, string_eq, contains,
  if◌then◌else◌, Result, raise_if, ◌>>=◌, ◌>>◌,
}
use orvo_agent.Base.Text.{strip}
use orvo_agent.Value.{str, Fields, end, field}
use orvo_agent.Redaction.Redactor.{Redactor}
use orvo_agent.Cases.Status.{
  Status, acknowledged, resolved, dismissed, terminal_statuses, case_status_transitions,
  status_text, EventType, status_changed, case_assigned, operator_comment, ActorType, operator,
  status_eq, actor_type_eq,
}
use orvo_agent.Model.{Error, value_error, status_error, Datetime, is_set}
use orvo_agent.Cases.Validators.{validate_event, revalidate_case}
use orvo_agent.Cases.Record.{instant_or_now, Event, Case}
use orvo_agent.Cases.Detection.{Host}
use orvo_agent.Cases.Upsert.{is_recurrence}

-- `reason.strip() if isinstance(reason, str) and reason.strip() else None`
unfoldable pub normalized_reason : Option String → Option String
normalized_reason none = none
normalized_reason (some s) = if strip s == "" then none else some (strip s)

-- `a or literal`
unfoldable pub or_summary : Option String → String → String
or_summary none d = d
or_summary (some s) d = s

-- the checks of `transition_case`
unfoldable pub check_transition :
    Status → ActorType → Option String → Case → Result Error (Unit {0})
unfolding normalized_reason is_set status_eq actor_type_eq
check_transition status actor_type reason c = do
  raise_if (status == c.status)
      (status_error ("case " <> c.case_id <> " already has status " <> status_text status))
  raise_if (not (contains (case_status_transitions c.status) status)) (
      status_error (
        "case "
        <> c.case_id
        <> " cannot transition from "
        <> status_text c.status
        <> " to "
        <> status_text status))
  raise_if
      (actor_type == operator
        && contains terminal_statuses status
        && not (is_set (normalized_reason reason)))
      (status_error
        ("operator transition to " <> status_text status <> " requires a non-empty reason"))
  ok tt

-- the update of `transition_case`
unfoldable pub moved_case : Status → Case → ℕ → Event → Case
unfolding status_eq
moved_case status c instant event = record c {
  status = status;
  updated_at = instant;
  timeline = c.timeline ++ (event ∷ []);
  acknowledged_at =
      if contains (acknowledged ∷ Status.in_progress ∷ []) status
      then some instant
      else c.acknowledged_at;
  resolved_at = if status == resolved then some instant else c.resolved_at;
  dismissed_at = if status == dismissed then some instant else c.dismissed_at;
}

-- the update of `add_comment`
unfoldable pub commented_case : Case → ℕ → Event → Case
commented_case c instant event = record c {
  updated_at = instant;
  timeline = c.timeline ++ (event ∷ []);
}

-- the checks of `assign_case`
unfoldable pub check_assignment : String → Case → Result Error (Unit {0})
unfolding is_recurrence
check_assignment assignee_ref c = do
  raise_if (is_recurrence c.status)
      (status_error ("case " <> c.case_id <> " cannot assign owner while " <> status_text c.status))
  raise_if (strip assignee_ref == "") (value_error "assignee_ref must be non-empty")
  ok tt

-- the update of `assign_case`
unfoldable pub assigned_case : String → Case → ℕ → Event → Case
assigned_case assignee_ref c instant event = record c {
  assignee_ref = some (strip assignee_ref);
  assigned_at = some instant;
  updated_at = instant;
  timeline = c.timeline ++ (event ∷ []);
}

module _ (R : Redactor) (H : Host) where
  -- the end of `transition_case`, `add_comment` and `assign_case`: the time of the change, its event,
  -- and the copy of the record with both
  unfoldable pub append_event :
      Result Error ℕ → (ℕ → Event) → (ℕ → Event → Case) → Result Error Case
  append_event at raw copy = do
    instant ← at
    event ← validate_event R (raw instant)
    revalidate_case R (copy instant event)

  -- the event of a call by `actor_ref` on the case
  unfoldable pub call_event : EventType → ActorType → String → String → Fields → Case → ℕ → Event
  call_event event_type actor_type actor_ref summary metadata c instant = record {
    event_id = H.uuid 1;
    event_type = event_type;
    actor_type = actor_type;
    actor_ref = actor_ref;
    run_id = none;
    case_id = some c.case_id;
    artifact_ref = none;
    evidence_snapshot_ids = [];
    created_at = instant;
    summary = summary;
    metadata = metadata;
  }

  -- the case that `transition_case` builds
  unfoldable pub transitioned :
      Status → ActorType → String → Option String → Option Datetime → Case → Result Error Case
  unfolding check_transition call_event moved_case or_summary normalized_reason append_event
      instant_or_now
  transitioned status actor_type actor_ref reason transitioned_at c = do
    check_transition status actor_type reason c
    append_event (instant_or_now H.now transitioned_at)
        (call_event status_changed actor_type actor_ref
          (or_summary (normalized_reason reason)
            ("Status changed from " <> status_text c.status <> " to " <> status_text status <> "."))
          (field "from_status" (str (status_text c.status))
            (field "to_status" (str (status_text status)) end))
          c)
        (moved_case status c)

  -- the case that `add_comment` builds
  unfoldable pub commented :
      ActorType → String → String → Fields → Option Datetime → Case → Result Error Case
  unfolding call_event commented_case append_event instant_or_now
  commented actor_type actor_ref comment metadata commented_at c = do
    raise_if (strip comment == "") (value_error "comment must be non-empty")
    append_event (instant_or_now H.now commented_at)
        (call_event operator_comment actor_type actor_ref (strip comment) metadata c)
        (commented_case c)

  -- the case that `assign_case` builds
  unfoldable pub assigned : ActorType → String → String → Option Datetime → Case → Result Error Case
  unfolding check_assignment call_event assigned_case append_event instant_or_now
  assigned actor_type actor_ref assignee_ref assigned_at c = do
    check_assignment assignee_ref c
    append_event (instant_or_now H.now assigned_at)
        (call_event case_assigned actor_type actor_ref
          ("Assigned case to " <> strip assignee_ref <> ".")
          (field "assignee_ref" (str (strip assignee_ref)) end) c)
        (assigned_case assignee_ref c)
