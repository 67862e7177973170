-- ===== src/Scheduler/Due.antt =====
-- What the scheduler promises.
use orvo_agent.Base.{
  true, not, raise-ne-ok, ◌↔◌, ◌==◌, ap, ◌∙◌, ok-injective, sym, >>=-eq-ok, arith, map,
  if◌then◌else◌, ◌<◌, ◌≡◌, List, ◌&&◌, false, ℕ, Option, Bool, filter, String, Result, refl, [],
  ◌∷◌, none, some, ok, raise,
}
use orvo_agent.Scheduler.{
  in_zone, due_at, parse_cron, cron_of_parts, run_of, ScheduledReportRun, should_run_schedule,
  ReportSchedule, or_raise, next_daily_run, later_of, due_schedules, due_run, Calendar,
}
use orvo_agent.Model.{Error}
use orvo_agent.Value.{ℤ, int_eq}

-- the call returned `True`
abbrev pub is_due : Result Error Bool → Bool
is_due (ok b) = b
is_due (raise e) = false

abbrev pub is_due_in : Calendar → ℕ → ReportSchedule → Option String → Bool
is_due_in K now s none = false
is_due_in K now s (some tz) = is_due (should_run_schedule K s now tz)

-- The schedule fires at this minute: it is enabled, its business is configured, and its expression
-- names the local hour and minute.
abbrev pub fires : Calendar → (String → Option String) → ℕ → ReportSchedule → Bool
fires K tz_of now s = s.enabled && is_due_in K now s (tz_of s.business_id)

due_at_lem :
    (K : Calendar) (now : ℕ) (s : ReportSchedule) (tz : Option String)
    (runs : List ScheduledReportRun)
    → due_at K now s tz ≡ ok runs
    → runs ≡ (if is_due_in K now s tz then run_of now s ∷ [] else [])
unfolding due_at
due_at_lem K now s none runs h = sym (ok-injective h)
due_at_lem K now s (some tz) runs h =
    let (b, hb, q) = >>=-eq-ok (should_run_schedule K s now tz) _ h in
    sym (ok-injective q) ∙ ap (λ r. if is_due r then run_of now s ∷ [] else []) (sym hb)

due_run_lem :
    (K : Calendar) (tz_of : String → Option String) (now : ℕ) (s : ReportSchedule)
    (runs : List ScheduledReportRun)
    → due_run K tz_of now s ≡ ok runs
    → runs ≡ (if fires K tz_of now s then run_of now s ∷ [] else [])
unfolding due_run
due_run_lem K tz_of now s runs h =
    let inside = due_at_lem K now s (tz_of s.business_id) runs in ground arith

due_schedules_lem :
    (K : Calendar) (tz_of : String → Option String) (now : ℕ) (schedules : List ReportSchedule)
    (runs : List ScheduledReportRun)
    → due_schedules K tz_of now schedules ≡ ok runs
    → runs ≡ map (run_of now) (filter (fires K tz_of now) schedules)
unfolding due_schedules filter
due_schedules_lem K tz_of now [] runs h = sym (ok-injective h)
due_schedules_lem K tz_of now (s ∷ schedules) runs h =
    let (mine, d, q) = >>=-eq-ok (due_run K tz_of now s) _ h in
    let (rest, e, p) = >>=-eq-ok (due_schedules K tz_of now schedules) _ q in
    let a = due_run_lem K tz_of now s mine d in
    let b = due_schedules_lem K tz_of now schedules rest e in
    sym (ok-injective p) ∙ ground (arith, a, b)

-- The schedule is enabled, and the first two fields of its expression are the minute and the hour of
-- this instant in the time zone of its business.
pub record NamesMinute (K : Calendar) (tz_of : String → Option String) (now : ℕ)
    (s : ReportSchedule) : Type 0 where
  pub enabled : s.enabled ≡ true
  pub zone : String
  pub zoned : tz_of s.business_id ≡ some zone
  pub hour : ℤ
  pub minute : ℤ
  pub clock : K.local_time zone now ≡ some (hour, minute)
  pub minute_field : String
  pub hour_field : String
  pub rest : List String
  pub fields : K.split s.cron_expression ≡ minute_field ∷ hour_field ∷ rest
  pub reads_minute : K.to_int minute_field ≡ some minute
  pub reads_hour : K.to_int hour_field ≡ some hour

or_raise-ok : {A : Type 0} (m : String) (o : Option A) (a : A) → or_raise m o ≡ ok a → o ≡ some a
unfolding or_raise
or_raise-ok m none a h = absurd (raise-ne-ok _ _ h)
or_raise-ok m (some b) a h = ap some (ok-injective h)

in_zone-ok : {A : Type 0} (o : Option A) (a : A) → in_zone o ≡ ok a → o ≡ some a
unfolding in_zone
in_zone-ok none a h = absurd (raise-ne-ok _ _ h)
in_zone-ok (some b) a h = ap some (ok-injective h)

module _ (K : Calendar) where
  -- What an expression that is read says.
  abbrev Reads : List String → ℤ × ℤ → Type 0
  Reads parts cron =
      (mf : String) × (hf : String) × (rest : List String) × (parts ≡ mf ∷ hf ∷ rest)
      × (K.to_int mf ≡ some cron.0)
      × (K.to_int hf ≡ some cron.1)

  cron_of_parts-Reads :
      (text : String) (parts : List String) (cron : ℤ × ℤ)
      → cron_of_parts K text parts ≡ ok cron
      → Reads parts cron
  unfolding cron_of_parts
  cron_of_parts-Reads text [] cron h = absurd (raise-ne-ok _ _ h)
  cron_of_parts-Reads text (m ∷ []) cron h = absurd (raise-ne-ok _ _ h)
  cron_of_parts-Reads text (m ∷ hf ∷ rest) cron h =
      let (minute, km, q) = >>=-eq-ok (or_raise "invalid literal for int()" (K.to_int m)) _ h in
      let (hour, kh, r) = >>=-eq-ok (or_raise "invalid literal for int()" (K.to_int hf)) _ q in
      let e = ok-injective r in
      (
        m,
        hf,
        rest,
        refl,
        or_raise-ok _ _ minute km ∙ ap (λ (x : ℤ × ℤ). some x.0) e,
        or_raise-ok _ _ hour kh ∙ ap (λ (x : ℤ × ℤ). some x.1) e,
      )

  is_due-ok : (m : Result Error Bool) → is_due m ≡ true → m ≡ ok true
  is_due-ok (ok b) h = ap ok h
  is_due-ok (raise e) h = absurd (cc)

  when_enabled :
      (b : Bool) (m : Result Error Bool)
      → b ≡ true
      → (if not b then ok false else m) ≡ ok true
      → m ≡ ok true
  when_enabled b m e h = ground arith

  both_eq : (a b c d : ℤ) → (a == b && c == d) ≡ true → (a ≡ b) × (c ≡ d)
  both_eq a b c d h = ground arith

  due-NamesMinute :
      (tz_of : String → Option String) (now : ℕ) (s : ReportSchedule) (tz : String)
      → s.enabled ≡ true
      → tz_of s.business_id ≡ some tz
      → should_run_schedule K s now tz ≡ ok true
      → NamesMinute K tz_of now s
  unfolding should_run_schedule parse_cron
  due-NamesMinute tz_of now s tz e z h =
      let (cron, kc, q) =
        >>=-eq-ok (cron_of_parts K s.cron_expression (K.split s.cron_expression)) _
          (when_enabled s.enabled _ e h) in
      let (local, kl, r) = >>=-eq-ok (in_zone (K.local_time tz now)) _ q in
      let (mf, hf, rest, parts, rm, rh) = cron_of_parts-Reads _ _ cron kc in
      let same = both_eq local.0 cron.1 local.1 cron.0 (ok-injective r) in
      record {
        enabled = e;
        zone = tz;
        zoned = z;
        hour = local.0;
        minute = local.1;
        clock = in_zone-ok _ local kl;
        minute_field = mf;
        hour_field = hf;
        rest = rest;
        fields = parts;
        reads_minute = rm ∙ ap some (sym same.1);
        reads_hour = rh ∙ ap some (sym same.0);
      }

  due_in-NamesMinute :
      (tz_of : String → Option String) (now : ℕ) (s : ReportSchedule) (tz : Option String)
      → s.enabled ≡ true
      → tz_of s.business_id ≡ tz
      → is_due_in K now s tz ≡ true
      → NamesMinute K tz_of now s
  due_in-NamesMinute tz_of now s none e z h = absurd (cc)
  due_in-NamesMinute tz_of now s (some tz) e z h =
      due-NamesMinute tz_of now s tz e z (is_due-ok (should_run_schedule K s now tz) h)

  both_true : (a b : Bool) → (a && b) ≡ true → (a ≡ true) × (b ≡ true)
  both_true a b h = ground arith

  fires-NamesMinute :
      (tz_of : String → Option String) (now : ℕ) (s : ReportSchedule)
      → fires K tz_of now s ≡ true
      → NamesMinute K tz_of now s
  fires-NamesMinute tz_of now s h =
      let (e, d) = both_true s.enabled _ h in
      due_in-NamesMinute tz_of now s (tz_of s.business_id) e refl d

  same_time : (hour minute : ℤ) → (hour == hour && minute == minute) ≡ true
  same_time hour minute = ground arith

  with_enabled :
      (b : Bool) (m : Result Error Bool)
      → b ≡ true
      → m ≡ ok true
      → (if not b then ok false else m) ≡ ok true
  with_enabled b m e h = ground arith

  both : (a b : Bool) → a ≡ true → b ≡ true → (a && b) ≡ true
  both a b h k = ground arith

  should_run_schedule-of_NamesMinute :
      (tz_of : String → Option String) (now : ℕ) (s : ReportSchedule)
      (n : NamesMinute K tz_of now s)
      → should_run_schedule K s now n.zone ≡ ok true
  unfolding should_run_schedule parse_cron cron_of_parts or_raise in_zone
  should_run_schedule-of_NamesMinute tz_of now s n = with_enabled s.enabled _ n.enabled (
      rw n.fields
        (rw n.reads_minute (rw n.reads_hour (rw n.clock (ap ok (same_time n.hour n.minute))))))

  fires-of_NamesMinute :
      (tz_of : String → Option String) (now : ℕ) (s : ReportSchedule)
      → NamesMinute K tz_of now s
      → fires K tz_of now s ≡ true
  fires-of_NamesMinute tz_of now s n =
      both s.enabled (is_due_in K now s (tz_of s.business_id)) n.enabled (
        ap (is_due_in K now s) n.zoned
        ∙ ap is_due (should_run_schedule-of_NamesMinute tz_of now s n))

-- If no schedule makes `due_schedules` raise, it returns a run at this instant for each schedule that
-- fires, in the order of the schedules, and no other; and a schedule fires exactly if it is enabled and
-- the first two fields of its expression are the minute and the hour of this instant in the time zone
-- of its business.
pub due_schedules-filter :
    (K : Calendar) (tz_of : String → Option String) (now : ℕ) (schedules : List ReportSchedule)
    (runs : List ScheduledReportRun)
    → due_schedules K tz_of now schedules ≡ ok runs
    → (runs ≡ map (run_of now) (filter (fires K tz_of now) schedules))
      × ((s : ReportSchedule) → (fires K tz_of now s ≡ true) ↔ NamesMinute K tz_of now s)
due_schedules-filter K tz_of now schedules runs h = (
  due_schedules_lem K tz_of now schedules runs h,
  λ s. (fires-NamesMinute K tz_of now s, fires-of_NamesMinute K tz_of now s),
)

later_of-lt :
    (after today t : ℕ) (candidate : Option ℕ)
    → ((u : ℕ) → candidate ≡ some u → after < u)
    → later_of after today (or_raise "hour or minute out of range" candidate) ≡ ok t
    → after < t
unfolding later_of or_raise
later_of-lt after today t none k h = ground arith
later_of-lt after today t (some u) k h = let l = k u refl in ground arith

-- The next run is after the instant asked about, if tomorrow's time of day is.
pub next_daily_run-lt :
    (K : Calendar) (schedule : ReportSchedule) (after : ℕ) (tz : String) (t : ℕ)
    → ((h m : ℤ) (u : ℕ) → K.at_local tz after 1 h m ≡ some u → after < u)
    → next_daily_run K schedule after tz ≡ ok t
    → after < t
unfolding next_daily_run
next_daily_run-lt K schedule after tz t tomorrow h =
    let (cron, kc, q) = >>=-eq-ok (parse_cron K schedule.cron_expression) _ h in
    let (local, kl, p) = >>=-eq-ok (in_zone (K.local_time tz after)) _ q in
    let (today, kt, r) =
      >>=-eq-ok (or_raise "hour or minute out of range" (K.at_local tz after 0 cron.1 cron.0)) _
        p in
    later_of-lt after today t (K.at_local tz after 1 cron.1 cron.0) (tomorrow cron.1 cron.0) r
