-- ===== src/Billing/Windows.antt =====
-- Each kind of window holds its reference instant, and is the window of all its instants.
use native.Mathlib.Nat.{div-mul-le_self, lt-div-mul-add, div-eq_of_lt-le}
use cost_ai_grid_poc.Prelude.{ℕ, ◌+◌, ◌*◌, ◌/◌, ◌%◌, ◌≤◌, ◌<◌, ◌≡◌, ap, arith}
use cost_ai_grid_poc.Calendar.{
  hour, day, month_start, date_of, date_of_lem, month_start-suc, date_of_unique,
}
use cost_ai_grid_poc.Billing.Period.{
  Window, monthly_window, weekly_window, daily_window, day_slot, hour_slot,
}

-- An instant lies in a window, the end excluded.
abbrev pub Holds : Window → ℕ → Type 0
Holds w t = (w.0 ≤ t) × (t < w.1)

-- A way to choose windows splits time: every instant lies in its window, and every instant of a
-- window chooses that window.
pub record Splits (window : ℕ → Window) : Type 0 where
  pub holds : (t : ℕ) → Holds (window t) t
  pub stable : (t u : ℕ) → Holds (window t) u → window u ≡ window t

-- Two windows that share an instant are one.
pub Splits-disjoint :
    {window : ℕ → Window} (s : Splits window) (t u v : ℕ)
    → Holds (window t) v
    → Holds (window u) v
    → window t ≡ window u
Splits-disjoint s t u v p q = cc (s.stable t v p, s.stable u v q)

pub monthly_window-Splits : Splits monthly_window
unfolding monthly_window
monthly_window-Splits = record {
  holds = λ t.
      let (e, l) = date_of_lem t in (omega arith, omega (arith, month_start-suc (date_of t).0));
  stable = λ t u h. let e = date_of_unique u (date_of t).0 h.0 h.1 in rw e;
}

pub weekly_window-Splits : Splits weekly_window
unfolding weekly_window
weekly_window-Splits = record { holds = λ t. ground arith; stable = λ t u h. ground arith }

-- An instant of day `d` has that day.
days_agree : (d u : ℕ) → d * day ≤ u → u < d * day + day → u / day ≡ d
days_agree d u lo hi = omega arith

pub daily_window-Splits : Splits daily_window
unfolding daily_window
daily_window-Splits = record {
  holds = λ t. omega arith;
  stable = λ t u h. ap (λ (d : ℕ). (d * day, d * day + day)) (days_agree (t / day) u h.0 h.1);
}

-- `d / n * n` is the last multiple of `n` up to `d`.
slot_bounds : (n d : ℕ) → 0 < n → (d / n * n ≤ d) × (d < d / n * n + n)
slot_bounds n d h = (div-mul-le_self d n, lt-div-mul-add h)

slot_unique : (n d e : ℕ) → 0 < n → d / n * n ≤ e → e < d / n * n + n → e / n ≡ d / n
slot_unique n d e h lo hi = div-eq_of_lt-le n lo (rw distrib (omega arith))
  where
    distrib : (d / n + 1) * n ≡ d / n * n + n
    distrib = grind arith

module _ (n t u : ℕ) (positive : 0 < n) (h : Holds (day_slot n t) u) where
  day_slot_month : (date_of u).0 ≡ (date_of t).0
  unfolding day_slot
  day_slot_month = date_of_unique u (date_of t).0 (omega arith) (ground arith)

  day_slot_day : (date_of u).1 / n ≡ (date_of t).1 / n
  unfolding day_slot
  day_slot_day =
      slot_unique n (date_of t).1 (date_of u).1 positive
        (ground (arith, day_slot_month, date_of_lem u, ap month_start day_slot_month))
        (ground (arith, day_slot_month, date_of_lem u, ap month_start day_slot_month))

module _ (n t u : ℕ) (positive : 0 < n) (h : Holds (hour_slot n t) u) where
  hour_slot_midnight : u / day ≡ t / day
  unfolding hour_slot
  hour_slot_midnight = days_agree (t / day) u (omega arith) (ground arith)

  hour_slot_hour : u % day / hour / n ≡ t % day / hour / n
  unfolding hour_slot
  hour_slot_hour =
      slot_unique n (t % day / hour) (u % day / hour) positive (ground (arith, hour_slot_midnight))
        (ground (arith, hour_slot_midnight))

pub day_slot-Splits : (n : ℕ) → 0 < n → Splits (day_slot n)
unfolding day_slot
day_slot-Splits n positive = record {
  holds = λ t.
      ground (arith, date_of_lem t, month_start-suc (date_of t).0, slot_bounds n (date_of t).1);
  stable = λ t u h. rw (day_slot_month n t u positive h, day_slot_day n t u positive h);
}

pub hour_slot-Splits : (n : ℕ) → 0 < n → Splits (hour_slot n)
unfolding hour_slot
hour_slot-Splits n positive = record {
  holds = λ t. ground (arith, slot_bounds n (t % day / hour));
  stable = λ t u h. rw (hour_slot_midnight n t u positive h, hour_slot_hour n t u positive h);
}
