-- ===== src/Examples/Rows.antt =====
-- The theorems on the SQLite action ledger on concrete records.
use Prim.Native.Char.{Char}
use Prim.Native.String.{◌∷◌ as cons_char}
use text.Mathlib.TextLemmas.{nil-append, cons-append}
use orvo_agent.Base.Offset.{has_z}
use orvo_agent.Base.{
  ◌+◌, ◌||◌, ◌==◌, false, string_eq, ℕ, zero, suc, String, ◌<>◌, ◌-◌, refl, ◌≡◌, ap, ◌∙◌, arith,
  sym,
}
use orvo_agent.Base.Text.{len}
use orvo_agent.Dispatch.Once.{len-append}
use orvo_agent.Value.{dict, end}
use orvo_agent.Platform.{Platform}
use orvo_agent.Examples.Data.{example_redactor}
use orvo_agent.Examples.Workflow.{
  distinct, no_actions-Consistent, InUse, no_actions, platform, two_calls, external_action,
}
use orvo_agent.Workflow.Sqlite.{json_dumps, json_loads_object, action_row, record_from_row, Codec}
use orvo_agent.Workflow.Record.{WorkflowActionLedgerRecord}
use orvo_agent.Workflow.Ledger.{planned_record}
use orvo_agent.Workflow.Mirror.{ReadsTimes, record_from_row-action_row, tables_of}
use orvo_agent.Workflow.Durable.{run_rows-mirrors, run_rows, memory_answers}
use orvo_agent.Workflow.Calls.{run_actions}

-- A time written in unary, with the offset of UTC.
abbrev unary : ℕ → String
unary zero = "+00:00"
unary (suc n) = "x" <> unary n

len-unary : (n : ℕ) → len (unary n) ≡ n + 6
len-unary zero = refl
len-unary (suc n) = len-append "x" (unary n) ∙ omega (arith, len-unary n)

has_z-char :
    (c : Char) (s : String)
    → (cons_char c "" == "Z") ≡ false
    → has_z (cons_char c "" <> s) ≡ has_z s
has_z-char c s n =
    ap has_z (cons-append c "" s ∙ ap (cons_char c) (nil-append s)) ∙ ap (λ b. b || has_z s) n

has_z-x : (s : String) → has_z ("x" <> s) ≡ has_z s
unfolding string_eq
has_z-x s = has_z-char _ s refl

has_z-unary : (n : ℕ) → has_z (unary n) ≡ false
unfolding string_eq
has_z-unary zero = refl
has_z-unary (suc n) = has_z-x (unary n) ∙ has_z-unary n

abbrev unary_platform : Platform
unary_platform = record platform { isoformat = unary }

abbrev codec : Codec
codec = record { dumps = λ v. "{}"; loads = λ s. dict end; fromisoformat = λ s. len s - 6 }

reads-times : ReadsTimes unary_platform example_redactor codec
reads-times = record {
  read = λ t. let h = len-unary t in omega arith;
  offset = has_z-unary;
  nonempty = λ t e. let h = ap len (sym e) ∙ len-unary t in absurd (omega arith);
}

abbrev planned : WorkflowActionLedgerRecord
planned = planned_record unary_platform example_redactor external_action

record_from_row-action_row_example :
    record_from_row unary_platform example_redactor codec
      (action_row unary_platform example_redactor codec planned)
    ≡ record planned {
      params =
          json_loads_object unary_platform example_redactor codec
            (json_dumps unary_platform example_redactor codec planned.params);
    }
record_from_row-action_row_example =
    record_from_row-action_row unary_platform example_redactor codec planned reads-times

run_rows-mirrors_example :
    run_rows platform example_redactor codec
      (tables_of platform example_redactor codec no_actions)
      two_calls
    ≡ (
      memory_answers platform example_redactor codec no_actions two_calls,
      tables_of platform example_redactor codec
          (run_actions platform example_redactor no_actions two_calls),
    )
run_rows-mirrors_example =
    run_rows-mirrors platform example_redactor codec InUse no_actions two_calls distinct
      ((refl, refl), (tt, tt)) no_actions-Consistent
