-- ===== src/Billing/Tests.antt =====
-- Runs of the period functions at dates of 2024, and the theorems at inputs that meet their
-- hypotheses.
use cost_ai_grid_poc.Prelude.{ℕ, ◌+◌, ◌*◌, ◌≡◌, ◌≢◌, ◌≤◌, ◌<◌, refl, arith, ok, err}
use cost_ai_grid_poc.Prelude.Int.{pos}
use cost_ai_grid_poc.Calendar.{day, hour, date_of, find_month, days_in_month, month_start}
use cost_ai_grid_poc.Billing.{
  Window, codes, resolve_period, period_label, monthly_window, weekly_window, day_slot, hour_slot,
  parse_day_duration, parse_hour_duration, window_label, day_duration,
}
use cost_ai_grid_poc.Billing.Resolve.{
  resolve_period-Holds, resolve_period_stable, resolve_period_error, period_label_stable,
}
use cost_ai_grid_poc.Billing.Label.{monthly_label-injective}

-- Wednesday 3 January, Thursday 29 February and Tuesday 31 December 2024
abbrev january_3 : ℕ
january_3 = 738887 * day

abbrev february_29 : ℕ
february_29 = 738944 * day + 13 * hour

abbrev december_31 : ℕ
december_31 = 739250 * day

ten_day_slots : resolve_period "10d" february_29 ≡ ok (738936 * day, 738945 * day)
unfolding resolve_period day_slot parse_day_duration date_of find_month days_in_month month_start
ten_day_slots = refl

five_hour_slots :
    resolve_period " 5h " february_29 ≡ ok (738944 * day + 10 * hour, 738944 * day + 15 * hour)
unfolding resolve_period hour_slot parse_day_duration parse_hour_duration
five_hour_slots = refl

too_many_days : resolve_period "32d" 0 ≡ err (day_duration (pos 32))
unfolding resolve_period parse_day_duration
too_many_days = refl

february_label : period_label "monthly" february_29 ≡ codes "2024-02"
unfolding period_label resolve_period monthly_window date_of find_month days_in_month month_start
    window_label
february_label = refl

-- Two weeks of 2024, 52 weeks apart, have the same label: the last Monday of December starts ISO
-- week 1 of 2025, and the label joins that number to the year of the Monday.
weekly_label_collides : period_label "weekly" january_3 ≡ period_label "weekly" december_31
unfolding period_label resolve_period weekly_window date_of find_month days_in_month month_start
    window_label
weekly_label_collides = refl

weekly_windows_differ : weekly_window january_3 ≢ weekly_window december_31
unfolding weekly_window
weekly_windows_differ e = grind arith

-- 10 February of year 1, in the second half of a 20-hour slot scheme
abbrev early : ℕ
early = 40 * day + 21 * hour

abbrev late_slot : Window
late_slot = (40 * day + 20 * hour, 41 * day)

early_resolves : resolve_period "20h" early ≡ ok late_slot
unfolding resolve_period hour_slot parse_day_duration parse_hour_duration
early_resolves = refl

resolve_period-Holds_example : (late_slot.0 ≤ early) × (early < late_slot.1)
resolve_period-Holds_example = resolve_period-Holds "20h" early early_resolves

resolve_period_stable_example : resolve_period "20h" (40 * day + 23 * hour) ≡ ok late_slot
resolve_period_stable_example =
    resolve_period_stable "20h" early (40 * day + 23 * hour) early_resolves (omega arith)

resolve_period_error_example : resolve_period "32d" early ≡ err (day_duration (pos 32))
resolve_period_error_example = resolve_period_error "32d" 0 early too_many_days

period_label_stable_example : period_label "20h" (40 * day + 23 * hour) ≡ period_label "20h" early
period_label_stable_example =
    period_label_stable "20h" early (40 * day + 23 * hour) early_resolves (omega arith)

february : (date_of (32 * day)).0 ≡ 1
unfolding date_of find_month days_in_month
february = refl

monthly_label-injective_example :
    resolve_period "monthly" (32 * day) ≡ resolve_period "monthly" early
unfolding date_of find_month days_in_month month_start period_label resolve_period window_label
    monthly_window
monthly_label-injective_example =
    monthly_label-injective (32 * day) early (omega arith) (omega arith) refl
