-- ===== src/Examples/Externals.antt =====
-- The theorems on external actions on a concrete run, provider and client.
use orvo_agent.Base.{[], ◌∷◌, none, refl, sym, ◌≡◌, ok, subst, true, string_eq, pair_eq, nat_eq}
use orvo_agent.Base.Dict
use orvo_agent.Value.{get_field, end, str, dict, field}
use orvo_agent.Run.Record.{RunRecord, ConnectorStatus, running, scheduled, run_status_eq}
use orvo_agent.Run.InMemory.{AreUnderIds, Runs, in_memory_runs, in_memory_runs-IsLedger}
use orvo_agent.External.Execute.{
  audit_outcome, execute_external_action, ExternalActionClient, World, returned,
}
use orvo_agent.Examples.Runs.{plain_engine}
use orvo_agent.Examples.Workflow.{platform}
use orvo_agent.External.Request.{
  holds_text, result_projection, ledger_metadata, ExternalActionRequest, ExternalActionProvider,
  Builtins,
}
use orvo_agent.External.Guards.{execute_external_action-Sends, Sends}
use orvo_agent.External.Once.{run_external-once, run_external, SendsOthers, KeepsKey}
use orvo_agent.External.Audit.{validate_outcome-metadata}
use orvo_agent.Run.Metadata.{redact_metadata}
use orvo_agent.Run.Ledger.{is_terminal}
use orvo_agent.Redaction.Text.{redact_uri, is_secret_key, normalized_key}

abbrev builtins : Builtins
builtins = record { lower = λ s. s; str_of = λ v. "m-1"; other_is_true = λ s. true }

abbrev open_run : RunRecord
open_run = record {
  run_id = "run-1";
  business_id = "shop";
  trigger_type = scheduled;
  status = running;
  started_at = 100;
  finished_at = none;
  config_ref = none;
  config_digest = none;
  connector_outcomes = [];
  artifacts = [];
  dispatch_outcomes = [];
  summary_metadata = end;
  error_summary = none;
}

abbrev one_run : World Runs
one_run = record { runs = ("run-1", open_run) ∷ []; requests = [] }

abbrev mail_provider : ExternalActionProvider
mail_provider = record {
  allowed_actions = ("gmail", "list_messages") ∷ [];
  provider_name = "composio";
}

abbrev list_mail : ExternalActionRequest
list_mail = record {
  business_id = "shop";
  run_id = "run-1";
  toolkit = "gmail";
  action_key = "list_messages";
  operation_type = "read";
  payload = dict end;
  idempotency_key = "k1";
  actor_ref = none;
  workflow_action_ledger_id = none;
}

abbrev answering : ExternalActionClient Runs
answering requests q = returned (dict (field "id" (str "m-1") end))

one_run-lawful : AreUnderIds one_run.runs
one_run-lawful = (refl, tt)

list_mail-KeepsKey : KeepsKey plain_engine builtins mail_provider list_mail
unfolding ledger_metadata audit_outcome holds_text get_field redact_metadata string_eq
    normalized_key is_secret_key redact_uri
list_mail-KeepsKey now state facts o h =
    subst (λ d. holds_text (get_field d "idempotency_key") "k1" ≡ true)
      (sym (
        validate_outcome-metadata plain_engine
          (audit_outcome mail_provider list_mail ConnectorStatus.succeeded now
            (ledger_metadata plain_engine builtins mail_provider list_mail state facts) none)
          o h))
      refl

execute_external_action-Sends_example :
    Sends in_memory_runs in_memory_runs-IsLedger plain_engine platform builtins mail_provider
      one_run none list_mail
      (execute_external_action in_memory_runs plain_engine platform builtins mail_provider answering
        none one_run list_mail none).1
execute_external_action-Sends_example =
    execute_external_action-Sends in_memory_runs in_memory_runs-IsLedger plain_engine platform
      builtins mail_provider answering none one_run list_mail none one_run-lawful

list_mail-succeeds :
    (execute_external_action in_memory_runs plain_engine platform builtins mail_provider answering
      none one_run list_mail none).0
    ≡ ok (
        result_projection plain_engine mail_provider list_mail "not_required"
          (field "id" (str "m-1") end)
          "composio://gmail/list_messages/m-1")
unfolding execute_external_action string_eq in_memory_runs Dict.get pair_eq is_terminal Dict.put
list_mail-succeeds = refl

run_external-once_example :
    SendsOthers in_memory_runs in_memory_runs-IsLedger plain_engine platform builtins "run-1" "k1"
      (execute_external_action in_memory_runs plain_engine platform builtins mail_provider answering
        none one_run list_mail none).1
      (run_external in_memory_runs plain_engine platform builtins
        (execute_external_action in_memory_runs plain_engine platform builtins mail_provider
          answering none one_run list_mail none).1
        ((mail_provider, answering, none, list_mail, none) ∷ []))
run_external-once_example =
    run_external-once in_memory_runs in_memory_runs-IsLedger plain_engine platform builtins
      mail_provider answering none one_run list_mail none
      (result_projection plain_engine mail_provider list_mail "not_required"
        (field "id" (str "m-1") end) "composio://gmail/list_messages/m-1")
      ((mail_provider, answering, none, list_mail, none) ∷ []) list_mail-KeepsKey one_run-lawful
      list_mail-succeeds
