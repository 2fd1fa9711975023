-- ===== src/Billing/Resolve.antt =====
-- `ResolvePeriod` and `PeriodLabel` as a whole, for every period text.
use cost_ai_grid_poc.Prelude.{
  ℕ, ◌≡◌, refl, ◌⊎◌, inl, inr, String, true, false, ◌||◌, Option, none, some, arith, str_eq, Bool,
  if◌then◌else◌, Result, ok, err,
}
use cost_ai_grid_poc.Prelude.Int.{ℤ, pos, pos_part, ltb_ℤ, leb_ℤ}
use cost_ai_grid_poc.Billing.Duration.{parse_day_duration, parse_hour_duration}
use cost_ai_grid_poc.Billing.Period.{
  Window, PeriodError, monthly_window, weekly_window, daily_window, day_slot, hour_slot,
  day_duration, hour_duration, unsupported, resolve_hours, resolve_days, resolve_period,
  period_label,
}
use cost_ai_grid_poc.Billing.Windows.{
  Holds, Splits, monthly_window-Splits, weekly_window-Splits, daily_window-Splits, day_slot-Splits,
  hour_slot-Splits,
}

-- A resolver fails in one way at every instant, or splits time.
abbrev Uniform : (ℕ → Result PeriodError Window) → Type 0
Uniform r =
    ((e : PeriodError) × ((t : ℕ) → r t ≡ err e))
    ⊎ ((window : ℕ → Window) × Splits window × ((t : ℕ) → r t ≡ ok (window t)))

Uniform-if :
    (b : Bool) (r s : ℕ → Result PeriodError Window)
    → (b ≡ true → Uniform r)
    → (b ≡ false → Uniform s)
    → Uniform (λ t. if b then r t else s t)
Uniform-if true r s hr hs = hr refl
Uniform-if false r s hr hs = hs refl

Uniform-ok : (window : ℕ → Window) → Splits window → Uniform (λ t. ok (window t))
Uniform-ok window h = inr (window, h, λ t. refl)

resolve_hours-Uniform : (p : String) (o : Option ℤ) → Uniform (λ t. resolve_hours p t o)
unfolding resolve_hours
resolve_hours-Uniform p none = inl (unsupported p, λ t. refl)
resolve_hours-Uniform p (some n) =
    Uniform-if (leb_ℤ n (pos 0) || ltb_ℤ (pos 24) n) (λ t. err (hour_duration n))
      (λ t. ok (hour_slot (pos_part n) t)) (λ _. inl (hour_duration n, λ t. refl))
      (λ e. Uniform-ok _ (hour_slot-Splits (pos_part n) (ground arith)))

resolve_days-Uniform : (p : String) (o : Option ℤ) → Uniform (λ t. resolve_days p t o)
unfolding resolve_days
resolve_days-Uniform p none = resolve_hours-Uniform p (parse_hour_duration p)
resolve_days-Uniform p (some n) =
    Uniform-if (leb_ℤ n (pos 0) || ltb_ℤ (pos 31) n) (λ t. err (day_duration n))
      (λ t. ok (day_slot (pos_part n) t)) (λ _. inl (day_duration n, λ t. refl))
      (λ e. Uniform-ok _ (day_slot-Splits (pos_part n) (ground arith)))

resolve_period-Uniform : (p : String) → Uniform (resolve_period p)
unfolding resolve_period
resolve_period-Uniform p =
    Uniform-if (str_eq p "monthly" || str_eq p "") (λ t. ok (monthly_window t)) not_monthly
      (λ _. Uniform-ok _ monthly_window-Splits)
      λ _.
        Uniform-if (str_eq p "weekly") (λ t. ok (weekly_window t)) not_weekly
          (λ _. Uniform-ok _ weekly_window-Splits)
          λ _.
            Uniform-if (str_eq p "daily") (λ t. ok (daily_window t)) not_daily
              (λ _. Uniform-ok _ daily_window-Splits)
              λ _. resolve_days-Uniform p (parse_day_duration p)
  where
    not_daily : ℕ → Result PeriodError Window
    not_daily t = resolve_days p t (parse_day_duration p)

    not_weekly : ℕ → Result PeriodError Window
    not_weekly t = if str_eq p "daily" then ok (daily_window t) else not_daily t

    not_monthly : ℕ → Result PeriodError Window
    not_monthly t = if str_eq p "weekly" then ok (weekly_window t) else not_weekly t

-- Whenever a period resolves at an instant, the window that it gives holds the instant: its start
-- is at or before it, and its end is after it.
pub resolve_period-Holds : (p : String) (t : ℕ) {w : Window} → resolve_period p t ≡ ok w → Holds w t
resolve_period-Holds p t h = elim (resolve_period-Uniform p) [
  | inl (e, fails) ↦ cc (fails t)
  | inr (window, s, gives) ↦ ground (arith, gives t, s.holds t)
]

Holds-transfer :
    {r : Result PeriodError Window} {v w : Window} {u : ℕ}
    → r ≡ ok v
    → r ≡ ok w
    → Holds w u
    → Holds v u
Holds-transfer e h l = ground arith

-- A window is the same for all its instants: an instant that lies in the window of another
-- resolves to that very window, so the windows of a period are disjoint and cover time.
pub resolve_period_stable :
    (p : String) (t u : ℕ) {w : Window}
    → resolve_period p t ≡ ok w
    → Holds w u
    → resolve_period p u ≡ ok w
resolve_period_stable p t u h l = elim (resolve_period-Uniform p) [
  | inl (e, fails) ↦ cc (fails t)
  | inr (window, s, gives) ↦ cc (gives t, gives u, s.stable t u (Holds-transfer (gives t) h l))
]

-- Whether a period text is accepted, and the error if it is not, does not depend on the instant.
pub resolve_period_error :
    (p : String) (t u : ℕ) {e : PeriodError}
    → resolve_period p t ≡ err e
    → resolve_period p u ≡ err e
resolve_period_error p t u h = elim (resolve_period-Uniform p) [
  | inl (e, fails) ↦ cc (fails t, fails u)
  | inr (window, s, gives) ↦ cc (gives t)
]

-- The label is constant on a window: an instant that lies in the window of another has its label,
-- so that it names the window in the alerts.
pub period_label_stable :
    (p : String) (t u : ℕ) {w : Window}
    → resolve_period p t ≡ ok w
    → Holds w u
    → period_label p u ≡ period_label p t
unfolding period_label
period_label_stable p t u h l = rw (resolve_period_stable p t u h l, h, period_label)
