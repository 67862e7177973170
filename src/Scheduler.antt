-- ===== src/Scheduler.antt =====
-- Which reports are due: app/brain/scheduler.py. What the code takes from `int`, `str.split` and
-- `zoneinfo` is a `Calendar`; an instant is in UTC.
pub mod Due
use orvo_agent.Base.{
  ◌&&◌, ◌==◌, false, ltb, not, ◌<>◌, ◌++◌, if◌then◌else◌, Result, Option, List, Bool, ℕ, String, [],
  ◌∷◌, none, some, ok, raise, ◌>>=◌,
}
use orvo_agent.Value.{int_eq, ℤ}
use orvo_agent.Model.{value_error, key_error, Error}

pub record ReportSchedule : Type 0 where
  pub schedule_id : String
  pub business_id : String
  pub report_type : String
  pub cron_expression : String
  pub enabled : Bool

pub record ScheduledReportRun : Type 0 where
  pub schedule_id : String
  pub business_id : String
  pub report_type : String
  pub run_at : ℕ

pub record Calendar : Type 0 where
  -- `str.split()`
  pub split : String → List String
  -- `int(s)`; `none` where it raises
  pub to_int : String → Option ℤ
  -- the hour and the minute of `now.astimezone(ZoneInfo(tz))`; `none` where `ZoneInfo` raises
  pub local_time : String → ℕ → Option (ℤ × ℤ)
  -- in UTC: the local date of an instant, that many days later, at an hour and a minute; `none`
  -- where `replace` raises
  pub at_local : String → ℕ → ℕ → ℤ → ℤ → Option ℕ

-- an optional value, or the exception
unfoldable pub or_raise : {A : Type 0} → String → Option A → Result Error A
or_raise message none = raise (value_error message)
or_raise message (some a) = ok a

-- `ZoneInfo(timezone)`, with what it is used for
unfoldable pub in_zone : {A : Type 0} → Option A → Result Error A
in_zone none = raise (key_error "No time zone found")
in_zone (some a) = ok a

-- the choice between the candidates of today and of tomorrow
unfoldable pub later_of : ℕ → ℕ → Result Error ℕ → Result Error ℕ
later_of after today tomorrow = if ltb after today then ok today else tomorrow

-- `ScheduledReportRun(...)` of a schedule that is due
unfoldable pub run_of : ℕ → ReportSchedule → ScheduledReportRun
run_of now s = record {
  schedule_id = s.schedule_id;
  business_id = s.business_id;
  report_type = s.report_type;
  run_at = now;
}

module _ (K : Calendar) where
  -- `_parse_cron`, from the parts
  unfoldable pub cron_of_parts : String → List String → Result Error (ℤ × ℤ)
  unfolding or_raise
  cron_of_parts text (m ∷ h ∷ rest) = do
    minute ← or_raise "invalid literal for int()" (K.to_int m)
    hour ← or_raise "invalid literal for int()" (K.to_int h)
    ok (minute, hour)
  cron_of_parts text _ = raise (value_error ("Invalid cron expression: " <> text))

  -- `_parse_cron`
  unfoldable pub parse_cron : String → Result Error (ℤ × ℤ)
  unfolding cron_of_parts
  parse_cron text = cron_of_parts text (K.split text)

  -- `should_run_schedule`
  unfoldable pub should_run_schedule : ReportSchedule → ℕ → String → Result Error Bool
  unfolding parse_cron in_zone
  should_run_schedule schedule now tz = if not schedule.enabled then ok false else do
    cron ← parse_cron schedule.cron_expression
    local ← in_zone (K.local_time tz now)
    ok (local.0 == cron.1 && local.1 == cron.0)

  -- `next_daily_run`
  unfoldable pub next_daily_run : ReportSchedule → ℕ → String → Result Error ℕ
  unfolding parse_cron later_of in_zone
  next_daily_run schedule after tz = do
    cron ← parse_cron schedule.cron_expression
    here ← in_zone (K.local_time tz after)
    today ← or_raise "hour or minute out of range" (K.at_local tz after 0 cron.1 cron.0)
    later_of after today
        (or_raise "hour or minute out of range" (K.at_local tz after 1 cron.1 cron.0))

  -- the rest of the loop body of `due_schedules`, from the time zone of the business
  unfoldable pub due_at :
      ℕ → ReportSchedule → Option String → Result Error (List ScheduledReportRun)
  unfolding should_run_schedule run_of
  due_at now s none = ok []
  due_at now s (some tz) = do
    due ← should_run_schedule s now tz
    ok (if due then run_of now s ∷ [] else [])

  -- what the loop of `due_schedules` appends; `tz_of` is the time zone of a configured business
  unfoldable pub due_run :
      (String → Option String) → ℕ → ReportSchedule → Result Error (List ScheduledReportRun)
  unfolding due_at
  due_run tz_of now s = if not s.enabled then ok [] else due_at now s (tz_of s.business_id)

  -- `due_schedules`
  unfoldable pub due_schedules :
      (String → Option String) → ℕ → List ReportSchedule → Result Error (List ScheduledReportRun)
  unfolding due_run
  due_schedules tz_of now [] = ok []
  due_schedules tz_of now (s ∷ schedules) = do
    runs ← due_run tz_of now s
    rest ← due_schedules tz_of now schedules
    ok (runs ++ rest)
