-- ===== src/Cases/Calls/Defs.antt =====
-- The mutating operations of `OperationalCaseStore` in app/brain/operational_cases.py as data, each
-- with what the host gave it.
use orvo_agent.Base.{String, Option, List, [], ◌∷◌}
use orvo_agent.Value.{Fields}
use orvo_agent.Redaction.Redactor.{Redactor}
use orvo_agent.Cases.Status.{Status, ActorType}
use orvo_agent.Model.{Datetime}
use orvo_agent.Cases.Record.{Detection}
use orvo_agent.Cases.Detection.{Host}
use orvo_agent.Cases.Store.{StoreOps, Outcome}
use orvo_agent.Cases.Mutations.{upsert_detection, transition_case, add_comment, assign_case}

pub data Call : Type 0 where
  upsert : Detection → Option Datetime → Call
  transition : String → Status → ActorType → String → Option String → Option Datetime → Call
  comment : String → ActorType → String → String → Fields → Option Datetime → Call
  assign : String → ActorType → String → String → Option Datetime → Call

module _ {St : Type 0} (S : StoreOps St) (R : Redactor) where
  unfoldable pub perform : St → Host → Call → Outcome St
  perform st H (upsert d t) = upsert_detection S R H st d t
  perform st H (transition id status actor_type actor_ref reason t) =
      transition_case S R H st id status actor_type actor_ref reason t
  perform st H (comment id actor_type actor_ref text metadata t) =
      add_comment S R H st id actor_type actor_ref text metadata t
  perform st H (assign id actor_type actor_ref assignee_ref t) =
      assign_case S R H st id actor_type actor_ref assignee_ref t

  -- the store after the calls, failed ones included
  unfoldable pub run : St → List (Host × Call) → St
  run st [] = st
  run st ((H, call) ∷ calls) = run (perform st H call).1 calls
