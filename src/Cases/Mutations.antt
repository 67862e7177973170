-- ===== src/Cases/Mutations.antt =====
-- The operations of `_OperationalCaseMutations` in app/brain/operational_cases.py, over any store. An
-- operation builds the new case from the stored one; `commit` persists what was built.
use orvo_agent.Base.{String, Option, string_eq}
use orvo_agent.Value.{Fields}
use orvo_agent.Redaction.Redactor.{Redactor}
use orvo_agent.Cases.Status.{Status, ActorType, status_eq, actor_type_eq}
use orvo_agent.Model.{Datetime}
use orvo_agent.Cases.Record.{Detection}
use orvo_agent.Cases.Detection.{Host}
use orvo_agent.Cases.Store.{StoreOps, Outcome, commit, update_case}
use orvo_agent.Cases.Upsert.{upserted}
use orvo_agent.Cases.Changes.{transitioned, commented, assigned}

module _ {St : Type 0} (S : StoreOps St) (R : Redactor) (H : Host) (st : St) where
  unfoldable pub upsert_detection : Detection → Option Datetime → Outcome St
  unfolding upserted commit
  upsert_detection d detected_at =
      commit S st (upserted R H (S.find_by_dedupe_key st d.business_id d.dedupe_key) d detected_at)

  unfoldable pub transition_case :
      String → Status → ActorType → String → Option String → Option Datetime → Outcome St
  unfolding transitioned update_case
  transition_case case_id status actor_type actor_ref reason transitioned_at =
      update_case S st case_id (transitioned R H status actor_type actor_ref reason transitioned_at)

  unfoldable pub add_comment :
      String → ActorType → String → String → Fields → Option Datetime → Outcome St
  unfolding commented update_case
  add_comment case_id actor_type actor_ref comment metadata commented_at =
      update_case S st case_id (commented R H actor_type actor_ref comment metadata commented_at)

  unfoldable pub assign_case : String → ActorType → String → String → Option Datetime → Outcome St
  unfolding assigned update_case
  assign_case case_id actor_type actor_ref assignee_ref assigned_at =
      update_case S st case_id (assigned R H actor_type actor_ref assignee_ref assigned_at)
