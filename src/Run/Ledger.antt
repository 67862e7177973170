-- ===== src/Run/Ledger.antt =====
-- The mutations of `_RunLedgerMutations` in app/brain/run_ledger.py, over any ledger.
use orvo_agent.Base.{
  not, ◌||◌, ◌&&◌, ◌++◌, ◌>>=◌, ◌>>◌, [], ◌∷◌, string_eq, ◌<>◌, ◌==◌, none, raise_if, contains,
  if◌then◌else◌, raise, ok, List, ℕ, Bool, ◌≡◌, some, Option, Result, String,
}
use orvo_agent.Run.Record.{
  running, terminal_run_statuses, validate_run, TriggerType, revalidate_run, RunStatus, run_as_utc,
  DispatchOutcomeRef, ArtifactRef, ConnectorRunOutcome, run_status_eq, RunRecord,
}
use orvo_agent.Model.{value_error, key_error, status_error, Datetime, Error, is_set}
use orvo_agent.Value.{Fields, merge_fields}
use orvo_agent.Redaction.Engine.{Engine}
use orvo_agent.Cases.Detection.{Host, or_default}

pub record LedgerOps (St : Type 0) : Type 0 where
  pub get_run : St → String → Option RunRecord
  pub persist_run : St → RunRecord → St

-- The contract of a ledger: a persisted run is the one that is read, and no other is touched.
pub record IsLedger {St : Type 0} (S : LedgerOps St) (Inv : St → Type 0) : Type 0 where
  pub persist-Inv : (st : St) (r : RunRecord) → Inv st → Inv (S.persist_run st r)
  pub get-persist :
      (st : St) (r : RunRecord) (id : String)
      → S.get_run (S.persist_run st r) id ≡ (if r.run_id == id then some r else S.get_run st id)
  pub get_id :
      (st : St) (id : String) (r : RunRecord) → Inv st → S.get_run st id ≡ some r → r.run_id ≡ id

abbrev pub RunOutcome : Type 0 → Type 0
RunOutcome St = Result Error RunRecord × St

unfoldable pub is_terminal : RunRecord → Bool
unfolding run_status_eq
is_terminal r = contains terminal_run_statuses r.status

-- `_ensure_open_for_append`
unfoldable pub ensure_open_for_append : RunRecord → Result Error (Unit {0})
ensure_open_for_append r =
    raise_if (is_terminal r)
      (status_error ("terminal run " <> r.run_id <> " cannot be appended to"))

-- the appends, once the run is loaded
unfoldable pub with_outcome : ConnectorRunOutcome → RunRecord → Result Error RunRecord
unfolding ensure_open_for_append
with_outcome o r = do
  ensure_open_for_append r
  ok (record r { connector_outcomes = r.connector_outcomes ++ (o ∷ []) })

unfoldable pub with_artifact : ArtifactRef → RunRecord → Result Error RunRecord
unfolding ensure_open_for_append
with_artifact a r = do
  ensure_open_for_append r
  ok (record r { artifacts = r.artifacts ++ (a ∷ []) })

unfoldable pub with_dispatch : DispatchOutcomeRef → RunRecord → Result Error RunRecord
unfolding ensure_open_for_append
with_dispatch d r = do
  ensure_open_for_append r
  ok (record r { dispatch_outcomes = r.dispatch_outcomes ++ (d ∷ []) })

-- What a caller may change of a run.
pub record RunUpdate : Type 0 where
  pub new_status : Option RunStatus
  pub new_finished_at : Option Datetime
  pub new_metadata : Option Fields
  pub new_error : Option String

-- `a or b` for an optional value that is never falsy
abbrev pub or_else : {A : Type 0} → Option A → A → A
or_else none b = b
or_else (some a) b = a

-- the checks of `update_run`
unfoldable pub check_update : RunUpdate → RunRecord → Result Error (Unit {0})
unfolding is_terminal is_set run_status_eq
check_update u r = do
  raise_if
      (is_terminal r
        && (is_set u.new_status
            || is_set u.new_finished_at
            || is_set u.new_metadata
            || is_set u.new_error))
      (status_error ("terminal run " <> r.run_id <> " cannot be mutated"))
  raise_if
      (contains terminal_run_statuses (or_else u.new_status r.status)
        && not (is_set u.new_finished_at || is_set r.finished_at))
      (status_error ("terminal run " <> r.run_id <> " requires finished_at"))
  raise_if (or_else u.new_status r.status == running && is_set u.new_finished_at)
      (status_error ("running run " <> r.run_id <> " cannot have finished_at"))
  ok tt

-- `finished_at` of the copy, as validation reads it
unfoldable pub finish_time : Option Datetime → Option ℕ → Result Error (Option ℕ)
unfolding run_as_utc
finish_time none old = ok old
finish_time (some t) old = do u ← run_as_utc t; ok (some u)

-- `{**record.summary_metadata, **summary_metadata}`
unfoldable pub merged_metadata : Option Fields → Fields → Fields
unfolding merge_fields
merged_metadata none d = d
merged_metadata (some e) d = merge_fields d e

-- the copy that `update_run` makes
unfoldable pub updated_run : RunUpdate → Option ℕ → RunRecord → RunRecord
unfolding merged_metadata
updated_run u finished_at r = record r {
  status = or_else u.new_status r.status;
  finished_at = finished_at;
  summary_metadata = merged_metadata u.new_metadata r.summary_metadata;
  error_summary = elim u.new_error [ none ↦ r.error_summary | some e ↦ some e ];
}

-- `started_at or _now_utc()`, as validation reads it
unfoldable pub start_time : ℕ → Option Datetime → Result Error ℕ
unfolding run_as_utc
start_time now none = ok now
start_time now (some t) = run_as_utc t

-- the record that `create_run` builds
unfoldable pub fresh_run :
    String → String → TriggerType → ℕ → Option String → Option String → Fields → RunRecord
fresh_run run_id business_id trigger_type at config_ref config_digest metadata = record {
  run_id = run_id;
  business_id = business_id;
  trigger_type = trigger_type;
  status = running;
  started_at = at;
  finished_at = none;
  config_ref = config_ref;
  config_digest = config_digest;
  connector_outcomes = [];
  artifacts = [];
  dispatch_outcomes = [];
  summary_metadata = metadata;
  error_summary = none;
}

module _ (E : Engine) where
  -- the run that `update_run` persists
  unfoldable pub changed_run : RunUpdate → RunRecord → Result Error RunRecord
  unfolding check_update finish_time updated_run revalidate_run
  changed_run u r = do
    check_update u r
    finished_at ← finish_time u.new_finished_at r.finished_at
    revalidate_run E (updated_run u finished_at r)

  -- the run that `create_run` persists
  unfoldable pub new_run :
      Host
      → String
      → TriggerType
      → Option String
      → Option Datetime
      → Option String
      → Option String
      → Fields
      → Result Error RunRecord
  unfolding start_time fresh_run
  new_run H business_id trigger_type run_id started_at config_ref config_digest metadata = do
    at ← start_time H.now started_at
    validate_run E (
        fresh_run (or_default run_id (H.uuid 0)) business_id trigger_type at config_ref
          config_digest metadata)

module _ {St : Type 0} (S : LedgerOps St) where
  -- `_persist` of what was built, and the return
  unfoldable pub commit_run : St → Result Error RunRecord → RunOutcome St
  commit_run st (ok r) = (ok r, S.persist_run st r)
  commit_run st (raise e) = (raise e, st)

  -- what follows `_load_for_update`
  unfoldable pub loaded_run :
      St → String → (RunRecord → Result Error RunRecord) → Option RunRecord → RunOutcome St
  unfolding commit_run
  loaded_run st id change none = (raise (key_error ("run not found: " <> id)), st)
  loaded_run st id change (some r) = commit_run st (change r)

  -- `_load_for_update`, the change, and `_persist`
  unfoldable pub update_stored : St → String → (RunRecord → Result Error RunRecord) → RunOutcome St
  unfolding loaded_run
  update_stored st id change = loaded_run st id change (S.get_run st id)

  -- the check of `create_run` that the id is free, and `_persist`
  unfoldable pub if_free : St → RunRecord → Option RunRecord → RunOutcome St
  if_free st r none = (ok r, S.persist_run st r)
  if_free st r (some old) = (raise (value_error ("run already exists: " <> r.run_id)), st)

  unfoldable pub create_if_new : St → Result Error RunRecord → RunOutcome St
  unfolding if_free
  create_if_new st (raise e) = (raise e, st)
  create_if_new st (ok r) = if_free st r (S.get_run st r.run_id)

-- The mutations of the ledger as data.
pub data LedgerCall : Type 0 where
  create_run :
      String
      → TriggerType
      → Option String
      → Option Datetime
      → Option String
      → Option String
      → Fields
      → LedgerCall
  update_run : String → RunUpdate → LedgerCall
  append_connector_outcome : String → ConnectorRunOutcome → LedgerCall
  append_artifact_ref : String → ArtifactRef → LedgerCall
  append_dispatch_outcome : String → DispatchOutcomeRef → LedgerCall

module _ {St : Type 0} (S : LedgerOps St) (E : Engine) where
  unfoldable pub perform_ledger : St → Host → LedgerCall → RunOutcome St
  unfolding update_stored create_if_new new_run changed_run with_outcome with_artifact with_dispatch
  perform_ledger st H (create_run business_id trigger_type run_id started_at ref digest metadata) =
      create_if_new S st
        (new_run E H business_id trigger_type run_id started_at ref digest metadata)
  perform_ledger st H (update_run id u) = update_stored S st id (changed_run E u)
  perform_ledger st H (append_connector_outcome id o) = update_stored S st id (with_outcome o)
  perform_ledger st H (append_artifact_ref id a) = update_stored S st id (with_artifact a)
  perform_ledger st H (append_dispatch_outcome id d) = update_stored S st id (with_dispatch d)

  -- the ledger after the calls, failed ones included
  unfoldable pub run_ledger : St → List (Host × LedgerCall) → St
  run_ledger st [] = st
  run_ledger st ((H, call) ∷ calls) = run_ledger (perform_ledger st H call).1 calls
