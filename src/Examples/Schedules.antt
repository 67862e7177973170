-- ===== src/Examples/Schedules.antt =====
-- The scheduler theorem on concrete schedules.
use orvo_agent.Base.{
  string_eq, false, ◌+◌, filter, true, ◌==◌, Bool, if◌then◌else◌, map, List, String, refl, [], ◌∷◌,
  some, ok, ◌≡◌, ◌↔◌,
}
use orvo_agent.Value.{pos}
use orvo_agent.Scheduler.{run_of, ScheduledReportRun, ReportSchedule, due_schedules, Calendar}
use orvo_agent.Scheduler.Due.{due_schedules-filter, fires, NamesMinute}

-- Every expression means 9:30, and it is 9:30 everywhere.
abbrev half_past_nine : Calendar
half_past_nine = record {
  split = λ s. "30" ∷ "9" ∷ [];
  to_int = λ s. if s == "30" then some (pos 30) else some (pos 9);
  local_time = λ tz now. some (pos 9, pos 30);
  at_local = λ tz now days h m. some (now + 1);
}

abbrev daily : String → Bool → ReportSchedule
daily id enabled = record {
  schedule_id = id;
  business_id = "shop";
  report_type = "daily";
  cron_expression = "30 9 * * *";
  enabled = enabled;
}

abbrev schedules : List ReportSchedule
schedules = daily "a" true ∷ daily "b" false ∷ []

due_now :
    (runs : List ScheduledReportRun) × (due_schedules half_past_nine (λ b. some "UTC") 7 schedules
      ≡ ok runs)
unfolding due_schedules string_eq
due_now = (_, refl)

due_schedules-filter_example :
    (due_now.0 ≡ map (run_of 7) (filter (fires half_past_nine (λ b. some "UTC") 7) schedules))
    × ((s : ReportSchedule)
        → (fires half_past_nine (λ b. some "UTC") 7 s ≡ true)
          ↔ NamesMinute half_past_nine (λ b. some "UTC") 7 s)
due_schedules-filter_example =
    due_schedules-filter half_past_nine (λ b. some "UTC") 7 schedules (due_now.0) (due_now.1)
