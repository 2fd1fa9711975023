-- ===== src/Billing/Period.antt =====
-- `ResolvePeriod` and `PeriodLabel`.
use cost_ai_grid_poc.Prelude.{
  ℕ, zero, suc, ◌+◌, ◌-◌, ◌*◌, ◌/◌, ◌%◌, String, ◌||◌, Option, none, some, List, [], ◌∷◌, ◌++◌, ltb,
  ◌==◌, str_eq, if◌then◌else◌, Result, ok, err,
}
use cost_ai_grid_poc.Prelude.Int.{ℤ, pos, pos_part, ltb_ℤ, leb_ℤ}
use cost_ai_grid_poc.Calendar.{second, hour, day, month_start, date_of, weekday, hour_of_day}
use cost_ai_grid_poc.Billing.Duration.{parse_day_duration, parse_hour_duration}

-- the start and the end of a window
abbrev pub Window : Type 0
Window = ℕ × ℕ

pub data PeriodError : Type 0 where
  day_duration : ℤ → PeriodError
  hour_duration : ℤ → PeriodError
  unsupported : String → PeriodError

unfoldable pub monthly_window : ℕ → Window
monthly_window ref = let (m, _) = date_of ref in (month_start m * day, month_start (suc m) * day)

unfoldable pub weekly_window : ℕ → Window
unfolding weekday
weekly_window ref =
    let w = weekday ref in
    let days_since_monday = (if w == 0 then 7 else w) - 1 in
    let start = (ref / day - days_since_monday) * day in (start, start + 7 * day)

unfoldable pub daily_window : ℕ → Window
daily_window ref = let start = ref / day * day in (start, start + day)

-- N-day slots from the first of the month; the last one ends with the month
unfoldable pub day_slot : ℕ → ℕ → Window
day_slot days ref =
    let (m, day_of_month) = date_of ref in
    let month = month_start m * day in
    let next_month = month_start (suc m) * day in
    let slot_start = day_of_month / days * days in
    let end = month + (slot_start + days) * day in
    (month + slot_start * day, if ltb next_month end then next_month else end)

-- N-hour slots from midnight; the last one ends with the day
unfoldable pub hour_slot : ℕ → ℕ → Window
unfolding hour_of_day
hour_slot hours ref =
    let midnight = ref / day * day in
    let slot_start = hour_of_day ref / hours * hours in
    let end = midnight + (slot_start + hours) * hour in
    let next_midnight = midnight + day in
    (midnight + slot_start * hour, if ltb next_midnight end then next_midnight else end)

-- the two fallbacks for what is no calendar period
unfoldable pub resolve_hours : String → ℕ → Option ℤ → Result PeriodError Window
resolve_hours period ref none = err (unsupported period)
resolve_hours period ref (some hours) =
    if leb_ℤ hours (pos 0) || ltb_ℤ (pos 24) hours
    then err (hour_duration hours)
    else ok (hour_slot (pos_part hours) ref)

unfoldable pub resolve_days : String → ℕ → Option ℤ → Result PeriodError Window
resolve_days period ref none = resolve_hours period ref (parse_hour_duration period)
resolve_days period ref (some days) =
    if leb_ℤ days (pos 0) || ltb_ℤ (pos 31) days
    then err (day_duration days)
    else ok (day_slot (pos_part days) ref)

unfoldable pub resolve_period : String → ℕ → Result PeriodError Window
unfolding resolve_hours resolve_days
resolve_period period ref =
    if str_eq period "monthly" || str_eq period ""
    then ok (monthly_window ref)
    else if str_eq period "weekly"
    then ok (weekly_window ref)
    else if str_eq period "daily"
    then ok (daily_window ref)
    else resolve_days period ref (parse_day_duration period)

-- `%0wd` of a number below 10 ^ w
unfoldable pub pad : ℕ → ℕ → List ℕ
pad zero n = []
pad (suc w) n = pad w (n / 10) ++ (48 + n % 10) ∷ []

-- t.Format("2006-01"), t.Format("2006-01-02"), t.Format("15:04"); the year is below 10000
unfoldable pub format_month : ℕ → List ℕ
unfolding pad
format_month t = let (m, _) = date_of t in pad 4 (m / 12 + 1) ++ b'-' ∷ pad 2 (m % 12 + 1)

unfoldable pub format_date : ℕ → List ℕ
unfolding format_month
format_date t = let (_, d) = date_of t in format_month t ++ b'-' ∷ pad 2 (d + 1)

unfoldable pub format_time : ℕ → List ℕ
unfolding pad
format_time t = pad 2 (t % day / hour) ++ b':' ∷ pad 2 (t % hour / (60 * second))

-- the week of `t.ISOWeek()`: a week belongs to the year of its Thursday
unfoldable pub iso_week : ℕ → ℕ
iso_week t =
    let thursday = t / day - t / day % 7 + 3 in
    let (m, _) = date_of (thursday * day) in (thursday - month_start (m / 12 * 12)) / 7 + 1

unfoldable pub window_label : String → Window → List ℕ
unfolding format_date format_time iso_week
window_label period (start, end) =
    if str_eq period "monthly" || str_eq period ""
    then format_month start
    else if str_eq period "weekly"
    then pad 4 ((date_of start).0 / 12 + 1) ++ b'-' ∷ b'W' ∷ pad 2 (iso_week start)
    else if str_eq period "daily"
    then format_date start
    else elim (parse_day_duration period) [
      | some _ ↦ format_date start ++ b'/' ∷ format_date (end - day)
      | none ↦ format_date start ++ b'/' ∷ format_time start ++ b'-' ∷ format_time end
    ]

unfoldable pub period_label : String → ℕ → List ℕ
unfolding window_label
period_label period ref = elim (resolve_period period ref) [
  | err _ ↦ format_month ref
  | ok w ↦ window_label period w
]
