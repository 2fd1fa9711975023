-- ===== src/Calendar/Laws.antt =====
-- Months tile the days: the date of an instant is the only one that fits.
use native.Mathlib.Decide.{dec_lt}
use native.Mathlib.Nat.{add-zero}
use cost_ai_grid_poc.Prelude.{ℕ, zero, suc, ◌+◌, ◌-◌, ◌*◌, ◌/◌, ◌≤◌, ◌<◌, ◌≡◌, refl, arith}
use cost_ai_grid_poc.Calendar.Defs.{day, days_in_month, month_start, find_month, date_of}

pub days_in_month_pos : (m : ℕ) → 28 ≤ days_in_month m
unfolding days_in_month
days_in_month_pos m = ground arith

find_month_lem :
    (fuel m d : ℕ)
    → d < fuel
    → let (n, r) = find_month fuel m d in
      (month_start n + r ≡ month_start m + d) × (r < days_in_month n)
unfolding find_month month_start
find_month_lem zero m d h = absurd (omega arith)
find_month_lem (suc fuel) m d h =
    ground (arith, days_in_month_pos m, find_month_lem fuel (suc m) (d - days_in_month m))

month_start_zero : month_start 0 ≡ 0
unfolding month_start
month_start_zero = refl

-- The date of an instant is the month and day at which its day lies.
pub date_of_lem :
    (t : ℕ) → let (m, r) = date_of t in (month_start m + r ≡ t / day) × (r < days_in_month m)
unfolding date_of
date_of_lem t = ground (arith, month_start_zero, find_month_lem (suc (t / day)) 0 (t / day))

pub month_start-suc : (m : ℕ) → month_start (suc m) ≡ month_start m + days_in_month m
unfolding month_start
month_start-suc m = refl

month_start_mono : (k m n : ℕ) → m + k ≡ n → month_start m ≤ month_start n
month_start_mono zero m n e = rw (← e, add-zero) (omega arith)
month_start_mono (suc k) m n e =
    omega (arith, month_start-suc m, month_start_mono k (suc m) n (omega arith))

-- A day lies in one month only.
month_unique :
    (m n r s : ℕ)
    → month_start m + r ≡ month_start n + s
    → r < days_in_month m
    → s < days_in_month n
    → m ≡ n
month_unique m n r s e p q = elim (dec_lt m n) [
  | yes lt ↦
      absurd
        (omega (arith, month_start-suc m, month_start_mono (n - suc m) (suc m) n (omega arith)))
  | no ge ↦ elim (dec_lt n m) [
    | yes gt ↦
        absurd
          (omega (arith, month_start-suc n, month_start_mono (m - suc n) (suc n) m (omega arith)))
    | no le ↦ omega arith
  ]
]

-- An instant between the first of a month and the first of the next has that month.
pub date_of_unique :
    (t m : ℕ) → month_start m * day ≤ t → t < month_start (suc m) * day → (date_of t).0 ≡ m
date_of_unique t m lo hi =
    let (e, l) = date_of_lem t in
    month_unique (date_of t).0 m (date_of t).1 (t / day - month_start m)
      (omega (arith, e, month_start-suc m)) l (omega (arith, month_start-suc m))
