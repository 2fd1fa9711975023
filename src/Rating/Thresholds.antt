-- ===== src/Rating/Thresholds.antt =====
-- `Rater.evaluateThresholds`: the alerts of the quotas whose use has reached a threshold. A
-- consumption is a whole number with the number of its units that make one unit of the quota.
pub mod Fired
pub mod Alerts
use cost_ai_grid_poc.Prelude.{
  ℕ, ◌*◌, String, Bool, true, false, ◌||◌, Option, List, [], ◌∷◌, str_eq, if◌then◌else◌, Result, ok,
  err,
}
use cost_ai_grid_poc.Prelude.Int.{ℤ, pos, ◌*ℤ◌, leb_ℤ}
use cost_ai_grid_poc.Decimal.{Decimals, Columns, is_zero_ℤ}
use cost_ai_grid_poc.Billing.{Window, PeriodError, resolve_period, period_label}
use cost_ai_grid_poc.Models.{QuotaRecord, AlertRecord}
use cost_ai_grid_poc.Store.{
  Store, metering_sum, cost_sum, tenant_cost_sum, quotas_for_tenant, all_tenants_with_quotas,
  insert_alert,
}

abbrev pub million : ℕ
million = 1000000

unfoldable pub is_budget_unit : String → Bool
is_budget_unit unit =
    str_eq unit "USD"
    || str_eq unit "EUR"
    || str_eq unit "GBP"
    || str_eq unit "JPY"
    || str_eq unit "CNY"
    || str_eq unit "CHF"
    || str_eq unit "CAD"
    || str_eq unit "AUD"

abbrev pub threshold_levels : List ℤ
threshold_levels =
    pos (50 * million) ∷ pos (70 * million) ∷ pos (90 * million) ∷ pos (100 * million) ∷ []

abbrev pub levels_of : List ℤ → List ℤ
levels_of [] = threshold_levels
levels_of (t ∷ ts) = t ∷ ts

abbrev pub period_of : String → String
period_of p = if str_eq p "" then "monthly" else p

-- `consumed / limit * 100 >= threshold`, for a limit that is positive
abbrev pub reached : ℕ → ℤ → ℤ → ℤ → Bool
reached scale consumed limit threshold =
    leb_ℤ (threshold *ℤ limit *ℤ pos scale) (consumed *ℤ pos (100 * million * million))

module _ {D : Type 0} {dec : Decimals D} (col : Columns dec) where
  -- what the quota's window holds, in millionths or in finest units of money
  unfoldable pub quota_consumed : Store D → String → QuotaRecord → ℕ → ℕ → ℕ × ℤ
  quota_consumed s tenant q from to =
      if is_budget_unit q.unit
      then (
        col.millionth * million,
        (if str_eq q.meter_name "" || str_eq q.meter_name "*"
            then tenant_cost_sum col s tenant from to
            else cost_sum col s tenant q.meter_name from to),
      )
      else (million, metering_sum s tenant q.meter_name from to)

  unfoldable pub fire_alerts : String → QuotaRecord → List ℕ → ℕ × ℤ → List ℤ → Store D → Store D
  fire_alerts tenant q period consumed [] s = s
  fire_alerts tenant q period (scale, consumed) (threshold ∷ levels) s =
      let fired =
        (insert_alert
          (record {
            tenant_id = tenant;
            meter_name = q.meter_name;
            threshold_pct = threshold;
            consumed = consumed;
            limit_value = q.limit_value;
            period = period;
          })
          s).1 in
      fire_alerts tenant q period (scale, consumed) levels
        (if reached scale consumed q.limit_value threshold then fired else s)

  -- the rest of the body of the loop, with the window of the quota
  unfoldable pub evaluate_window :
      ℕ → String → QuotaRecord → Store D → Result PeriodError Window → Store D
  unfolding fire_alerts
  evaluate_window now tenant q s (err _) = s
  evaluate_window now tenant q s (ok (from, to)) =
      let (scale, consumed) = quota_consumed s tenant q from to in
      if is_zero_ℤ consumed || leb_ℤ q.limit_value (pos 0)
      then s
      else fire_alerts tenant q (period_label (period_of q.period) now) (scale, consumed)
          (levels_of q.thresholds) s

  unfoldable pub evaluate_quota : ℕ → String → QuotaRecord → Store D → Store D
  evaluate_quota now tenant q s =
      evaluate_window now tenant q s (resolve_period (period_of q.period) now)

  unfoldable pub evaluate_quotas : ℕ → String → List QuotaRecord → Store D → Store D
  evaluate_quotas now tenant [] s = s
  evaluate_quotas now tenant (q ∷ qs) s =
      evaluate_quotas now tenant qs (evaluate_quota now tenant q s)

  unfoldable pub evaluate_tenants : ℕ → List String → Store D → Store D
  evaluate_tenants now [] s = s
  evaluate_tenants now (t ∷ ts) s =
      evaluate_tenants now ts (evaluate_quotas now t (quotas_for_tenant s t now) s)

  unfoldable pub evaluate_thresholds : ℕ → Store D → Store D
  evaluate_thresholds now s = evaluate_tenants now (all_tenants_with_quotas s now) s
