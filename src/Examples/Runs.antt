-- ===== src/Examples/Runs.antt =====
-- The run ledger and redaction theorems on concrete runs.
use orvo_agent.Base.{
  ok, sym, string_eq, string_eq, subst, String, List, refl, [], ◌∷◌, none, some, ◌≡◌, arith,
}
use orvo_agent.Base.Dict
use orvo_agent.Redaction.Engine.{plain, Engine}
use orvo_agent.Value.{end, str, dict, field, Fields}
use orvo_agent.Run.Metadata.{redact_metadata-FieldsHaveNoRefs, redact_metadata, FieldsHaveNoRefs}
use orvo_agent.Run.Record.{
  validate_run_times, validate_run, running, run_status_eq, RunStatus, scheduled, RunRecord,
}
use orvo_agent.Model.{validate_all, aware, is_before, is_set}
use orvo_agent.Run.InMemory.{
  list_runs-IsListing, list_runs, run_has_status, run_of_business, run_geb, in_memory_runs-IsLedger,
  in_memory_runs, Runs,
}
use orvo_agent.Run.History.{AllRuns}
use orvo_agent.Cases.Detection.{Host}
use orvo_agent.Run.Ledger.{
  changed_run, RunUpdate, create_run, update_run, LedgerCall, is_terminal, run_ledger,
}
use orvo_agent.Run.Evolution.{IsRun}
use orvo_agent.Run.Trace.{run_ledger-Survives, Survives}
use orvo_agent.Examples.Data.{host_2, host_1}
use orvo_agent.Run.Invariant.{changed_run-Updated, Updated}
use orvo_agent.Listing.{IsListing}
use orvo_agent.Base.Dict.{values}

-- An engine that finds no pattern and splits no reference.
abbrev pub plain_engine : Engine
plain_engine = record {
  scan = λ p s. plain s ∷ [];
  lower = λ s. s;
  urlsplit = λ s. none;
  urlunsplit = λ u. u.path;
  parse_qsl = λ s. [];
  urlencode = λ ps. "";
}

abbrev example_metadata : Fields
example_metadata =
    field "secret_refs" (dict (field "api" (str "secret://shop/meta") end))
      (field "password" (str "hunter2") (field "note" (str "weekly") end))

redact_metadata-FieldsHaveNoRefs_example :
    FieldsHaveNoRefs plain_engine (redact_metadata plain_engine example_metadata)
redact_metadata-FieldsHaveNoRefs_example =
    redact_metadata-FieldsHaveNoRefs plain_engine example_metadata

abbrev finished_run : RunRecord
finished_run = record {
  run_id = "run-1";
  business_id = "shop";
  trigger_type = scheduled;
  status = RunStatus.succeeded;
  started_at = 100;
  finished_at = some 200;
  config_ref = none;
  config_digest = none;
  connector_outcomes = [];
  artifacts = [];
  dispatch_outcomes = [];
  summary_metadata = end;
  error_summary = none;
}

finished_run-IsRun : IsRun finished_run
unfolding is_set is_before is_terminal run_status_eq
finished_run-IsRun = record { ended = refl; ordered = refl }

abbrev ledger_calls : List (Host × LedgerCall)
ledger_calls =
    (
      host_1,
      update_run "run-1" (record {
        new_status = some RunStatus.failed;
        new_finished_at = none;
        new_metadata = none;
        new_error = some "late";
      }),
    )
    ∷ (host_2, create_run "shop" scheduled (some "run-1") none none none end)
    ∷ []

abbrev one_run : Runs
one_run = ("run-1", finished_run) ∷ []

get-one_run : (id : String) (r : RunRecord) → Dict.get one_run id ≡ some r → r ≡ finished_run
unfolding Dict.get
get-one_run id r h = ground arith

one_run-AllRuns : AllRuns in_memory_runs one_run
unfolding in_memory_runs
one_run-AllRuns id r h = subst IsRun (sym (get-one_run id r h)) finished_run-IsRun

stored-finished_run : in_memory_runs.get_run one_run "run-1" ≡ some finished_run
unfolding in_memory_runs Dict.get string_eq
stored-finished_run = refl

run_ledger-Survives_example :
    AllRuns in_memory_runs (run_ledger in_memory_runs plain_engine one_run ledger_calls)
    × Survives in_memory_runs plain_engine
        (run_ledger in_memory_runs plain_engine one_run ledger_calls)
        "run-1"
        finished_run
run_ledger-Survives_example =
    run_ledger-Survives in_memory_runs plain_engine in_memory_runs-IsLedger one_run ledger_calls
      "run-1" finished_run (refl, tt) one_run-AllRuns stored-finished_run

abbrev open_run : RunRecord
open_run = record finished_run { status = running; finished_at = none }

abbrev finish : RunUpdate
finish = record {
  new_status = some RunStatus.succeeded;
  new_finished_at = some (aware 300);
  new_metadata = none;
  new_error = none;
}

finished_now : (r : RunRecord) × (changed_run plain_engine finish open_run ≡ ok r)
unfolding changed_run validate_all validate_run string_eq validate_run_times
finished_now = (_, refl)

changed_run-Updated_example :
    IsRun (finished_now.0) × Updated plain_engine finish open_run (finished_now.0)
changed_run-Updated_example =
    changed_run-Updated plain_engine finish open_run (finished_now.0) (finished_now.1)

list_runs-IsListing_example :
    IsListing run_geb run_of_business run_has_status
      (values one_run)
      none
      (some RunStatus.failed)
      none
      (list_runs one_run none (some RunStatus.failed) none)
list_runs-IsListing_example = list_runs-IsListing one_run none (some RunStatus.failed) none
