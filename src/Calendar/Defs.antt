-- ===== src/Calendar/Defs.antt =====
-- The parts of Go's package time that the billing code uses, in UTC. An instant is its number of
-- microseconds, the resolution of the store, since the zero `time.Time`: Monday 1 January of year 1.
-- Months are counted from that January too: month 0 is January of year 1, and month m is in the
-- year m / 12 + 1.
use cost_ai_grid_poc.Prelude.{
  ℕ, zero, suc, ◌+◌, ◌-◌, ◌/◌, ◌%◌, Bool, ◌&&◌, ◌||◌, not, ltb, ◌==◌, if◌then◌else◌,
}

abbrev pub second : ℕ
second = 1_000_000

abbrev pub hour : ℕ
hour = 3_600_000_000

abbrev pub day : ℕ
day = 86_400_000_000

-- the proleptic Gregorian rule
unfoldable pub is_leap : ℕ → Bool
is_leap year = year % 4 == 0 && (not (year % 100 == 0) || year % 400 == 0)

unfoldable pub days_in_month : ℕ → ℕ
unfolding is_leap
days_in_month m =
    let k = m % 12 in
    if k == 1
    then (if is_leap (m / 12 + 1) then 29 else 28)
    else if k == 3 || k == 5 || k == 8 || k == 10
    then 30
    else 31

-- the number of days before the first of month `m`
unfoldable pub month_start : ℕ → ℕ
month_start zero = 0
month_start (suc m) = month_start m + days_in_month m

-- the month that lies `d` days after the first of month `m`, and its day, counted from 0
unfoldable pub find_month : ℕ → ℕ → ℕ → ℕ × ℕ
find_month zero m d = (m, d)
find_month (suc fuel) m d =
    let rest = find_month fuel (suc m) (d - days_in_month m) in
    if ltb d (days_in_month m) then (m, d) else rest

-- `t.Date()`: the month, and the day of the month counted from 0
unfoldable pub date_of : ℕ → ℕ × ℕ
date_of t = find_month (suc (t / day)) 0 (t / day)

-- `t.Weekday()`: Sunday is 0
unfoldable pub weekday : ℕ → ℕ
weekday t = (t / day + 1) % 7

-- `t.Hour()`
unfoldable pub hour_of_day : ℕ → ℕ
hour_of_day t = t % day / hour
