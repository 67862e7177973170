-- ===== src/Cases/Lifecycle.antt =====
-- The case lifecycle: what a transition, a comment or an assignment does to the stored case.
use orvo_agent.Base.{
  false, refl, not, ◌∙◌, subst, [], ◌∷◌, none, >>=-eq-ok, some, if◌then◌else◌, arith, ℕ, ◌&&◌, ◌==◌,
  true, ok, contains, String, Option, ◌≡◌,
}
use orvo_agent.Cases.Built.{Extends-of_SameCase, Extends, append_event-Appended, IsCopy}
use orvo_agent.Cases.Detection.{Host}
use orvo_agent.Cases.Changes.{
  call_event, transitioned, moved_case, normalized_reason, check_transition,
}
use orvo_agent.Cases.Status.{
  resolved, dismissed, opened, acknowledged, status_changed, actor_type_eq, status_eq,
  terminal_statuses, operator, case_status_transitions, ActorType, Status,
}
use orvo_agent.Model.{is_set, Datetime}
use orvo_agent.Cases.Record.{Event, instant_or_now, Case}
use orvo_agent.Redaction.Redactor.{Redactor}
use orvo_agent.Cases.Validity.{IsValid}

-- What a successful transition did: the move is in the table, an operator who closes the case gave a
-- reason, and the status and its stamps are those of the move.
pub record Transition (R : Redactor) (H : Host) (status : Status) (actor_type : ActorType)
    (reason : Option String) (transitioned_at : Option Datetime) (c c' : Case) : Type 0 where
  pub edge : contains (case_status_transitions c.status) status ≡ true
  pub reasoned :
      (actor_type == operator
        && contains terminal_statuses status
        && not (is_set (normalized_reason reason)))
      ≡ false
  pub instant : ℕ
  pub at_instant : instant_or_now H.now transitioned_at ≡ ok instant
  pub status_is : c'.status ≡ status
  pub updated_at : c'.updated_at ≡ instant
  pub acknowledged_at :
      c'.acknowledged_at
      ≡ (if contains terminal_statuses status then c.acknowledged_at else some instant)
  pub resolved_at : c'.resolved_at ≡ (if status == resolved then some instant else c.resolved_at)
  pub dismissed_at :
      c'.dismissed_at ≡ (if status == dismissed then some instant else c.dismissed_at)
  pub valid : IsValid c'
  pub extends :
      Extends R c c' ((H.uuid 1, status_changed, actor_type, none, some c.case_id, instant) ∷ [])

check_transition-eq-ok :
    (status : Status) (actor_type : ActorType) (reason : Option String) (c : Case)
    → check_transition status actor_type reason c ≡ ok tt
    → (contains (case_status_transitions c.status) status ≡ true)
      × ((actor_type == operator
            && contains terminal_statuses status
            && not (is_set (normalized_reason reason)))
          ≡ false)
unfolding check_transition
check_transition-eq-ok status actor_type reason c h = ground arith

moved_case-IsCopy :
    (status : Status) (c : Case) (t : ℕ) (e : Event) → IsCopy c (moved_case status c t e) e
unfolding moved_case
moved_case-IsCopy status c t e = ground arith

-- Where an edge of the table leads, the case is acknowledged or closed.
acknowledges_of_edge :
    (current status : Status) {A : Type 0} (x y : A)
    → contains (case_status_transitions current) status ≡ true
    → (if contains (acknowledged ∷ Status.in_progress ∷ []) status then x else y)
      ≡ (if contains terminal_statuses status then y else x)
acknowledges_of_edge opened status x y h = ground arith
acknowledges_of_edge acknowledged status x y h = ground arith
acknowledges_of_edge Status.in_progress status x y h = ground arith
acknowledges_of_edge resolved status x y h = ground arith
acknowledges_of_edge dismissed status x y h = ground arith

module _ (R : Redactor) (H : Host) where
  -- A status change that succeeds was an edge of the lifecycle table, an operator who closed the
  -- case gave a reason, and the new case has the status and the stamps of the move, is valid, and
  -- has one event more.
  pub transitioned-Transition :
      (status : Status) (actor_type : ActorType) (actor_ref : String) (reason : Option String)
      (transitioned_at : Option Datetime) (c c' : Case)
      → transitioned R H status actor_type actor_ref reason transitioned_at c ≡ ok c'
      → Transition R H status actor_type reason transitioned_at c c'
  unfolding transitioned
  transitioned-Transition status actor_type actor_ref reason transitioned_at c c' h =
      let (u, hu, r) = >>=-eq-ok (check_transition status actor_type reason c) _ h in
      let (edge, reasoned) = check_transition-eq-ok status actor_type reason c hu in
      let a =
        append_event-Appended R H (instant_or_now H.now transitioned_at) _ (moved_case status c) c'
          r in
      record {
        edge = edge;
        reasoned = reasoned;
        instant = a.instant;
        at_instant = a.at_instant;
        status_is = unfold moved_case in a.same.status;
        updated_at = unfold moved_case in a.same.updated_at;
        acknowledged_at =
            unfold moved_case in
            a.same.acknowledged_at
            ∙ acknowledges_of_edge c.status status (some a.instant) c.acknowledged_at edge;
        resolved_at = unfold moved_case in a.same.resolved_at;
        dismissed_at = unfold moved_case in a.same.dismissed_at;
        valid = a.valid;
        extends =
            subst (λ s. Extends R c c' (s ∷ [])) (a.from_raw ∙ unfold call_event in refl)
              (Extends-of_SameCase R c (moved_case status c a.instant a.event) c' a.event
                (moved_case-IsCopy status c a.instant a.event) a.same);
      }
