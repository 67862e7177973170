-- ===== src/Examples/Cases.antt =====
-- The case theorems on concrete cases and calls.
use orvo_agent.Base.Dict
use orvo_agent.Base.{
  raise, String, false, not, ok, ◌&&◌, true, contains, subst, ◌∙◌, nat_eq, sym, string_eq, ◌==◌,
  List, refl, [], ◌∷◌, none, some, ◌≡◌, arith,
}
use orvo_agent.Cases.Status.{
  terminal_statuses, case_status_transitions, actor_type_eq, status_eq, opened, acknowledged,
  dismissed, operator,
}
use orvo_agent.Cases.Detection.{Host}
use orvo_agent.Cases.Validators.{validate_case, revalidate_case}
use orvo_agent.Cases.Record.{instant_or_now, Case}
use orvo_agent.Model.{status_error, is_set}
use orvo_agent.Cases.InMemory.{InMemory, in_memory-IsLawful, IsKeyed, in_memory}
use orvo_agent.Cases.Calls.Invariant.{run-Sound, Sound}
use orvo_agent.Value.{get_field, pos, end}
use orvo_agent.Cases.Calls.Defs.{perform, comment, transition, run, upsert, Call}
use orvo_agent.Cases.Validity.{revalidate_case-IsValid, IsValid}
use orvo_agent.Cases.Same.{SameCase}
use orvo_agent.Base.Dict.{values, get-nil}
use orvo_agent.Cases.Calls.Step.{perform-Stepped, Stepped}
use orvo_agent.Cases.Calls.Trace.{AreFresh, run-terminal, run-Extends, Becomes}
use orvo_agent.Cases.Upsert.{upserted, is_recurrence}
use orvo_agent.Cases.Progress.{revalidate_case-Succeeds, Succeeds}
use orvo_agent.Cases.Lifecycle.{transitioned-Transition, Transition}
use orvo_agent.Cases.Changes.{assigned, normalized_reason, transitioned}
use orvo_agent.Cases.Moves.{terminal-refuses, transitioned-Succeeds}
use orvo_agent.Examples.Data.{
  dismissed_case_1-IsValid, open_case_1-IsValid, sales_drop_today, host_2, dismissed_case_1,
  open_case_1, example_redactor, host_1,
}
use orvo_agent.Cases.Opening.{upserted-Upserted, Upserted}
use orvo_agent.Cases.Listing.{case_leb, list_cases, list_cases-IsListing, of_business, has_status}
use orvo_agent.Redaction.Redactor.{text_or_masked, uri_or_masked}
use orvo_agent.Listing.{IsListing}

abbrev example_calls : List (Host × Call)
example_calls =
    (host_1, upsert sales_drop_today none)
    ∷ (host_2, transition "case-1" acknowledged operator "ana" none none)
    ∷ []

none_ne_some : {A : Type 0} (a : A) → none ≡ some a → ⊥
none_ne_some a h = cc

empty-Sound : Sound in_memory IsKeyed []
unfolding in_memory
empty-Sound = record {
  inv = tt;
  all_valid = λ id c h. absurd (none_ne_some c (sym (get-nil id) ∙ h));
  one_per_key = λ id id' c d h k b e. absurd (none_ne_some c (sym (get-nil id) ∙ h));
}

run-Sound_example : Sound in_memory IsKeyed (run in_memory example_redactor [] example_calls)
run-Sound_example =
    run-Sound in_memory example_redactor in_memory-IsLawful [] example_calls empty-Sound

-- A store with one case.
abbrev store_of : Case → InMemory
store_of c = ("case-1", c) ∷ []

get-store_of :
    (c : Case) (id : String) (d : Case)
    → Dict.get (store_of c) id ≡ some d
    → ("case-1" ≡ id) × (d ≡ c)
unfolding Dict.get
get-store_of c id d h = ground arith

store_of-Sound :
    (c : Case) → c.case_id ≡ "case-1" → IsValid c → Sound in_memory IsKeyed (store_of c)
unfolding in_memory
store_of-Sound c e v = record {
  inv = (e, get-nil "case-1", tt);
  all_valid = λ id d h. subst IsValid (sym (get-store_of c id d h).1) v;
  one_per_key = λ id id' d d' h k b e. sym (get-store_of c id d h).0 ∙ (get-store_of c id' d' k).0;
}

stored-open_case_1 : in_memory.get_case (store_of open_case_1) "case-1" ≡ some open_case_1
unfolding in_memory Dict.get string_eq
stored-open_case_1 = refl

stored-dismissed_case_1 :
    in_memory.get_case (store_of dismissed_case_1) "case-1" ≡ some dismissed_case_1
unfolding in_memory Dict.get string_eq
stored-dismissed_case_1 = refl

abbrev comment_calls : List (Host × Call)
comment_calls = (host_2, comment "case-1" operator "ana" "Called the supplier" end none) ∷ []

fresh-comment_calls : (c : Case) → AreFresh in_memory example_redactor (store_of c) comment_calls
unfolding in_memory Dict.get string_eq nat_eq
fresh-comment_calls c = (refl, tt)

perform-Stepped_example :
    Stepped in_memory example_redactor [] host_1
      (upsert sales_drop_today none)
      (perform in_memory example_redactor [] host_1 (upsert sales_drop_today none))
perform-Stepped_example =
    perform-Stepped in_memory example_redactor in_memory-IsLawful [] host_1
      (upsert sales_drop_today none) tt

run-Extends_example :
    Becomes in_memory example_redactor
      (run in_memory example_redactor (store_of open_case_1) comment_calls)
      "case-1"
      open_case_1
      (λ _. Unit)
run-Extends_example =
    run-Extends in_memory example_redactor in_memory-IsLawful (store_of open_case_1) comment_calls
      "case-1" open_case_1 (store_of-Sound open_case_1 refl open_case_1-IsValid)
      (fresh-comment_calls open_case_1) stored-open_case_1

is_terminal-dismissed_case_1 : is_recurrence dismissed_case_1.status ≡ true
unfolding is_recurrence status_eq
is_terminal-dismissed_case_1 = refl

run-terminal_example :
    Becomes in_memory example_redactor
      (run in_memory example_redactor (store_of dismissed_case_1) comment_calls)
      "case-1"
      dismissed_case_1
      (λ c'. c'.status ≡ dismissed)
run-terminal_example =
    run-terminal in_memory example_redactor in_memory-IsLawful (store_of dismissed_case_1)
      comment_calls "case-1" dismissed_case_1
      (store_of-Sound dismissed_case_1 refl dismissed_case_1-IsValid)
      (fresh-comment_calls dismissed_case_1) (refl, tt) stored-dismissed_case_1
      is_terminal-dismissed_case_1

edge_example : contains (case_status_transitions opened) acknowledged ≡ true
unfolding status_eq
edge_example = refl

reason_example :
    (operator == operator
      && contains terminal_statuses acknowledged
      && not (is_set (normalized_reason none)))
    ≡ false
unfolding status_eq actor_type_eq
reason_example = refl

now_example : instant_or_now 200 none ≡ ok 200
unfolding instant_or_now
now_example = refl

transitioned-Succeeds_example :
    Succeeds
      (transitioned example_redactor host_2 acknowledged operator "ana" none none open_case_1)
transitioned-Succeeds_example =
    transitioned-Succeeds example_redactor host_2 acknowledged operator "ana" none none open_case_1
      200 open_case_1-IsValid tt edge_example reason_example now_example (omega arith)

moved_once :
    Succeeds
      (transitioned example_redactor host_2 acknowledged operator "ana" none none open_case_1)
moved_once =
    transitioned-Succeeds example_redactor host_2 acknowledged operator "ana" none none open_case_1
      200 open_case_1-IsValid tt edge_example reason_example now_example (omega arith)

transitioned-Transition_example :
    Transition example_redactor host_2 acknowledged operator none none open_case_1 (moved_once.0)
transitioned-Transition_example =
    transitioned-Transition example_redactor host_2 acknowledged operator "ana" none none
      open_case_1 (moved_once.0) (moved_once.1)

dismissed_is_terminal : contains terminal_statuses dismissed ≡ true
unfolding status_eq
dismissed_is_terminal = refl

terminal-refuses_example :
    ((m : String) × (transitioned example_redactor host_2 acknowledged operator "ana" none none
          dismissed_case_1
        ≡ raise (status_error m)))
    × ((m : String) × (assigned example_redactor host_2 operator "ana" "bob" none dismissed_case_1
          ≡ raise (status_error m)))
terminal-refuses_example =
    terminal-refuses example_redactor host_2 dismissed_case_1 acknowledged operator "ana" "bob" none
      none dismissed_is_terminal

revalidated : Succeeds (revalidate_case example_redactor open_case_1)
revalidated = revalidate_case-Succeeds example_redactor open_case_1 open_case_1-IsValid tt

revalidate_case-IsValid_example :
    IsValid (revalidated.0) × SameCase example_redactor open_case_1 (revalidated.0)
revalidate_case-IsValid_example =
    revalidate_case-IsValid example_redactor open_case_1 (revalidated.0) (revalidated.1)

opened_by_detection :
    (c : Case) × (upserted example_redactor host_1 none sales_drop_today none ≡ ok c)
unfolding upserted string_eq uri_or_masked get_field text_or_masked validate_case nat_eq
opened_by_detection = (_, refl)

upserted-Upserted_example :
    Upserted example_redactor host_1 sales_drop_today none (opened_by_detection.0)
upserted-Upserted_example =
    upserted-Upserted example_redactor host_1 none sales_drop_today none (opened_by_detection.0)
      (opened_by_detection.1)

list_cases-IsListing_example :
    IsListing case_leb of_business has_status
      (values (store_of open_case_1))
      (some "shop")
      none
      (some (pos 5))
      (list_cases (store_of open_case_1) (some "shop") none (some (pos 5)))
list_cases-IsListing_example =
    list_cases-IsListing (store_of open_case_1) (some "shop") none (some (pos 5))
