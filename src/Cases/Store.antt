-- ===== src/Cases/Store.antt =====
-- What `_OperationalCaseMutations` of app/brain/operational_cases.py needs of a concrete store, and
-- what it may rely on.
use orvo_agent.Base.{
  String, ◌≡◌, Option, none, some, ◌==◌, string_eq, if◌then◌else◌, Result, ok, raise,
}
use orvo_agent.Model.{Error, key_error}
use orvo_agent.Cases.Record.{Case}

pub record StoreOps (St : Type 0) : Type 0 where
  pub get_case : St → String → Option Case
  pub find_by_dedupe_key : St → String → String → Option Case
  pub persist : St → Case → St

-- The contract of a store, over the states that satisfy its own invariant: a persisted case is the
-- one that is read, other cases are not touched, and the search by dedupe key finds a stored case
-- with that key, or there is none.
pub record IsLawful {St : Type 0} (S : StoreOps St) (Inv : St → Type 0) : Type 0 where
  pub persist-Inv : (st : St) (c : Case) → Inv st → Inv (S.persist st c)
  pub get-persist :
      (st : St) (c : Case) (id : String)
      → S.get_case (S.persist st c) id ≡ (if c.case_id == id then some c else S.get_case st id)
  pub get_id :
      (st : St) (id : String) (c : Case) → Inv st → S.get_case st id ≡ some c → c.case_id ≡ id
  pub find-some :
      (st : St) (b k : String) (c : Case)
      → Inv st
      → S.find_by_dedupe_key st b k ≡ some c
      → (S.get_case st c.case_id ≡ some c) × (c.business_id ≡ b) × (c.dedupe_key ≡ k)
  pub find-none :
      (st : St) (b k id : String) (c : Case)
      → S.find_by_dedupe_key st b k ≡ none
      → S.get_case st id ≡ some c
      → ¬ ((c.business_id ≡ b) × (c.dedupe_key ≡ k))

abbrev pub Outcome : Type 0 → Type 0
Outcome St = Result Error Case × St

module _ {St : Type 0} (S : StoreOps St) where
  -- `self._persist(case)` and the return, once the new case is built
  unfoldable pub commit : St → Result Error Case → Outcome St
  commit st (ok c) = (ok c, S.persist st c)
  commit st (raise e) = (raise e, st)

  -- what follows `_load_for_update`
  unfoldable pub found : St → (Case → Result Error Case) → String → Option Case → Outcome St
  unfolding commit
  found st change id none = (raise (key_error id), st)
  found st change id (some c) = commit st (change c)

  -- `_load_for_update(case_id)`, the change of the record, and `_persist`
  unfoldable pub update_case : St → String → (Case → Result Error Case) → Outcome St
  unfolding found
  update_case st id change = found st change id (S.get_case st id)
