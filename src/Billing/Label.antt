-- ===== src/Billing/Label.antt =====
-- The monthly and daily labels of `PeriodLabel` tell windows apart.
use cost_ai_grid_poc.Prelude.{ℕ, ◌+◌, ◌*◌, ◌/◌, ◌%◌, ◌<◌, ◌≡◌, ◌∷◌, ◌++◌, arith}
use cost_ai_grid_poc.Calendar.{
  day, month_start, date_of, month_start-suc, date_of_unique, days_in_month_pos,
}
use cost_ai_grid_poc.Billing.Period.{
  monthly_window, resolve_period, pad, format_month, window_label, period_label,
}

-- the number of the month that is the last one with a four-digit year, and one
abbrev last_month : ℕ
last_month = 119988

pad_month :
    (a b c d : ℕ)
    → a < 10000
    → b < 10000
    → c < 100
    → d < 100
    → pad 4 a ++ b'-' ∷ pad 2 c ≡ pad 4 b ++ b'-' ∷ pad 2 d
    → (a ≡ b) × (c ≡ d)
unfolding pad
pad_month a b c d ha hb hc hd e = ground arith

format_month-injective :
    (t u : ℕ)
    → (date_of t).0 < last_month
    → (date_of u).0 < last_month
    → format_month t ≡ format_month u
    → (date_of t).0 ≡ (date_of u).0
unfolding format_month
format_month-injective t u ht hu e =
    let (y, m) =
      pad_month ((date_of t).0 / 12 + 1) ((date_of u).0 / 12 + 1) ((date_of t).0 % 12 + 1)
        ((date_of u).0 % 12 + 1) (omega arith) (omega arith) (omega arith) (omega arith) e in
    omega (arith, y, m)

-- the first of a month has that month
date_of-start : (t : ℕ) → (date_of (month_start (date_of t).0 * day)).0 ≡ (date_of t).0
date_of-start t =
    date_of_unique (month_start (date_of t).0 * day) (date_of t).0 (omega arith)
      (omega (arith, month_start-suc (date_of t).0, days_in_month_pos (date_of t).0))

-- Up to the year 9999, two instants with one monthly label lie in one monthly window.
pub monthly_label-injective :
    (t u : ℕ)
    → (date_of t).0 < 119988
    → (date_of u).0 < 119988
    → period_label "monthly" t ≡ period_label "monthly" u
    → resolve_period "monthly" t ≡ resolve_period "monthly" u
unfolding period_label window_label resolve_period monthly_window
monthly_label-injective t u ht hu e =
    let same =
      format_month-injective (month_start (date_of t).0 * day) (month_start (date_of u).0 * day)
        (omega (arith, date_of-start t)) (omega (arith, date_of-start u)) e in
    let months : (date_of t).0 ≡ (date_of u).0 =
      omega (arith, same, date_of-start t, date_of-start u) in
    rw months
