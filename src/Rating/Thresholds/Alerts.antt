-- ===== src/Rating/Thresholds/Alerts.antt =====
-- The alerts that a threshold evaluation leaves.
use cost_ai_grid_poc.Prelude.{
  ℕ, ◌≡◌, refl, sym, ap, ◌∙◌, inl, inr, String, ◌||◌, List, [], ◌∷◌, ◌++◌, if◌then◌else◌, any_row,
  Result, ok, err, Bool-cases, All,
}
use cost_ai_grid_poc.Prelude.Int.{ℤ, pos, leb_ℤ}
use cost_ai_grid_poc.Decimal.{Decimals, Columns, is_zero_ℤ}
use cost_ai_grid_poc.Billing.{Window, PeriodError, resolve_period, period_label}
use cost_ai_grid_poc.Models.{QuotaRecord, AlertRecord}
use cost_ai_grid_poc.Store.{
  Store, quotas_for_tenant, all_tenants_with_quotas, insert_alert, same_alert, metering_sum,
  cost_sum, tenant_cost_sum,
}
use cost_ai_grid_poc.Rating.Thresholds.{
  levels_of, period_of, reached, quota_consumed, fire_alerts, evaluate_window, evaluate_quota,
  evaluate_quotas, evaluate_tenants, evaluate_thresholds,
}
use cost_ai_grid_poc.Rating.Thresholds.Fired.{
  add_alert, add_alerts, Fired, add_alerts_fire, add_alerts_settled, add_alerts-append,
}

module _ {D : Type 0} {dec : Decimals D} (col : Columns dec) where
  -- the alert of a quota at a threshold
  abbrev pub alert_at : String → QuotaRecord → List ℕ → ℤ → ℤ → AlertRecord
  alert_at tenant q period consumed threshold = record {
    tenant_id = tenant;
    meter_name = q.meter_name;
    threshold_pct = threshold;
    consumed = consumed;
    limit_value = q.limit_value;
    period = period;
  }

  -- the alerts of the thresholds that are reached
  abbrev pub due_levels : String → QuotaRecord → List ℕ → ℕ → ℤ → List ℤ → List AlertRecord
  due_levels tenant q period scale consumed [] = []
  due_levels tenant q period scale consumed (l ∷ levels) =
      if reached scale consumed q.limit_value l
      then alert_at tenant q period consumed l ∷ due_levels tenant q period scale consumed levels
      else due_levels tenant q period scale consumed levels

  -- what is due for a quota in its window
  abbrev pub due_in :
      ℕ → String → QuotaRecord → Store D → Result PeriodError Window → List AlertRecord
  due_in now tenant q s (err _) = []
  due_in now tenant q s (ok (from, to)) =
      let (scale, consumed) = quota_consumed col s tenant q from to in
      if is_zero_ℤ consumed || leb_ℤ q.limit_value (pos 0)
      then []
      else due_levels tenant q (period_label (period_of q.period) now) scale consumed
          (levels_of q.thresholds)

  abbrev pub due_quotas : ℕ → String → Store D → List QuotaRecord → List AlertRecord
  due_quotas now tenant s [] = []
  due_quotas now tenant s (q ∷ qs) =
      due_in now tenant q s (resolve_period (period_of q.period) now) ++ due_quotas now tenant s qs

  abbrev pub due_tenants : ℕ → Store D → List String → List AlertRecord
  due_tenants now s [] = []
  due_tenants now s (t ∷ ts) =
      due_quotas now t s (quotas_for_tenant s t now) ++ due_tenants now s ts

  -- the alerts that are due now, for every quota in effect
  abbrev pub due : ℕ → Store D → List AlertRecord
  due now s = due_tenants now s (all_tenants_with_quotas s now)

  unfoldable pub with_alerts : Store D → List AlertRecord → Store D
  with_alerts s xs = record s { alerts = xs }

  insert_alert-with :
      (a : AlertRecord) (s : Store D) (xs : List AlertRecord)
      → (insert_alert a (with_alerts s xs)).1 ≡ with_alerts s (add_alert a xs)
  unfolding insert_alert with_alerts add_alert
  insert_alert-with a s xs = elim (Bool-cases (any_row (λ b. same_alert b a) xs)) [
    | inl f ↦ rw f refl
    | inr n ↦ rw n refl
  ]

  fire_alerts-due :
      (levels : List ℤ) (tenant : String) (q : QuotaRecord) (period : List ℕ) (scale : ℕ)
      (consumed : ℤ) (s : Store D) (xs : List AlertRecord)
      → fire_alerts col tenant q period (scale, consumed) levels (with_alerts s xs)
        ≡ with_alerts s (add_alerts (due_levels tenant q period scale consumed levels) xs)
  unfolding fire_alerts add_alerts
  fire_alerts-due [] tenant q period scale consumed s xs = refl
  fire_alerts-due (l ∷ levels) tenant q period scale consumed s xs =
      let a = alert_at tenant q period consumed l in
      elim (Bool-cases (reached scale consumed q.limit_value l)) [
        | inl t ↦ rw t (
            ap (fire_alerts col tenant q period (scale, consumed) levels) (insert_alert-with a s xs)
            ∙ fire_alerts-due levels tenant q period scale consumed s (add_alert a xs))
        | inr n ↦ rw n (fire_alerts-due levels tenant q period scale consumed s xs)
      ]

  pub quota_consumed-with :
      (s : Store D) (xs : List AlertRecord) (t : String) (q : QuotaRecord) (from to : ℕ)
      → quota_consumed col (with_alerts s xs) t q from to ≡ quota_consumed col s t q from to
  unfolding quota_consumed with_alerts metering_sum cost_sum tenant_cost_sum
  quota_consumed-with s xs t q from to = refl

  evaluate_window-due :
      (now : ℕ) (tenant : String) (q : QuotaRecord) (s : Store D) (xs : List AlertRecord)
      (r : Result PeriodError Window)
      → evaluate_window col now tenant q (with_alerts s xs) r
        ≡ with_alerts s (add_alerts (due_in now tenant q s r) xs)
  unfolding evaluate_window
  evaluate_window-due now tenant q s xs (err e) = unfold add_alerts in refl
  evaluate_window-due now tenant q s xs (ok (from, to)) =
      let (scale, consumed) = quota_consumed col s tenant q from to in
      rw (quota_consumed-with s xs tenant q from to)
        (elim (Bool-cases (is_zero_ℤ consumed || leb_ℤ q.limit_value (pos 0))) [
          | inl t ↦ rw t (unfold add_alerts in refl)
          | inr n ↦ rw n (
              fire_alerts-due (levels_of q.thresholds) tenant q
                (period_label (period_of q.period) now) scale consumed s xs)
        ])

  evaluate_quota-due :
      (now : ℕ) (tenant : String) (q : QuotaRecord) (s : Store D) (xs : List AlertRecord)
      → evaluate_quota col now tenant q (with_alerts s xs)
        ≡ with_alerts s
            (add_alerts (due_in now tenant q s (resolve_period (period_of q.period) now)) xs)
  unfolding evaluate_quota
  evaluate_quota-due now tenant q s xs =
      evaluate_window-due now tenant q s xs (resolve_period (period_of q.period) now)

  evaluate_quotas-due :
      (qs : List QuotaRecord) (now : ℕ) (tenant : String) (s : Store D) (xs : List AlertRecord)
      → evaluate_quotas col now tenant qs (with_alerts s xs)
        ≡ with_alerts s (add_alerts (due_quotas now tenant s qs) xs)
  unfolding evaluate_quotas
  evaluate_quotas-due [] now tenant s xs = unfold add_alerts in refl
  evaluate_quotas-due (q ∷ qs) now tenant s xs =
      let d = due_in now tenant q s (resolve_period (period_of q.period) now) in
      ap (evaluate_quotas col now tenant qs) (evaluate_quota-due now tenant q s xs)
      ∙ evaluate_quotas-due qs now tenant s (add_alerts d xs)
      ∙ ap (with_alerts s) (add_alerts-append d (due_quotas now tenant s qs) xs)

  quotas_of-with :
      (s : Store D) (t : String) (now : ℕ) (xs : List AlertRecord)
      → quotas_for_tenant (with_alerts s xs) t now ≡ quotas_for_tenant s t now
  unfolding quotas_for_tenant with_alerts
  quotas_of-with s t now xs = refl

  tenants_of-with :
      (s : Store D) (now : ℕ) (xs : List AlertRecord)
      → all_tenants_with_quotas (with_alerts s xs) now ≡ all_tenants_with_quotas s now
  unfolding all_tenants_with_quotas with_alerts
  tenants_of-with s now xs = refl

  evaluate_tenants-due :
      (ts : List String) (now : ℕ) (s : Store D) (xs : List AlertRecord)
      → evaluate_tenants col now ts (with_alerts s xs)
        ≡ with_alerts s (add_alerts (due_tenants now s ts) xs)
  unfolding evaluate_tenants
  evaluate_tenants-due [] now s xs = unfold add_alerts in refl
  evaluate_tenants-due (t ∷ ts) now s xs =
      let d = due_quotas now t s (quotas_for_tenant s t now) in
      ap (evaluate_tenants col now ts) (
        rw (quotas_of-with s t now xs) (evaluate_quotas-due (quotas_for_tenant s t now) now t s xs))
      ∙ evaluate_tenants-due ts now s (add_alerts d xs)
      ∙ ap (with_alerts s) (add_alerts-append d (due_tenants now s ts) xs)

  evaluate_thresholds-with :
      (now : ℕ) (s : Store D) (xs : List AlertRecord)
      → evaluate_thresholds col now (with_alerts s xs) ≡ with_alerts s (add_alerts (due now s) xs)
  unfolding evaluate_thresholds
  evaluate_thresholds-with now s xs =
      rw (tenants_of-with s now xs) (evaluate_tenants-due (all_tenants_with_quotas s now) now s xs)

  own_alerts : (s : Store D) → with_alerts s s.alerts ≡ s
  unfolding with_alerts
  own_alerts s = refl

  pub evaluate_thresholds-due :
      (now : ℕ) (s : Store D)
      → evaluate_thresholds col now s ≡ with_alerts s (add_alerts (due now s) s.alerts)
  evaluate_thresholds-due now s =
      ap (evaluate_thresholds col now) (sym (own_alerts s))
      ∙ evaluate_thresholds-with now s s.alerts

  alerts_of-with : (s : Store D) (xs : List AlertRecord) → (with_alerts s xs).alerts ≡ xs
  unfolding with_alerts
  alerts_of-with s xs = refl

  -- After an evaluation, for each quota in effect whose period resolves, with a limit above 0 and a
  -- use in its window that is not 0, and for each threshold of it that the use has reached, the table
  -- has an alert of the tenant, the meter, the threshold and the label of the window. The alert may
  -- be that of another quota of the tenant or of another window with the label.
  pub evaluate_thresholds-Fired :
      (now : ℕ) (s : Store D) → All (Fired (evaluate_thresholds col now s).alerts) (due now s)
  evaluate_thresholds-Fired now s =
      rw (evaluate_thresholds-due now s, alerts_of-with s (add_alerts (due now s) s.alerts))
        (add_alerts_fire (due now s) s.alerts)

  -- An evaluation that is repeated at the same instant changes nothing: no alert fires twice.
  pub evaluate_thresholds_settled :
      (now : ℕ) (s : Store D)
      → evaluate_thresholds col now (evaluate_thresholds col now s) ≡ evaluate_thresholds col now s
  evaluate_thresholds_settled now s =
      let xs = add_alerts (due now s) s.alerts in
      ap (evaluate_thresholds col now) (evaluate_thresholds-due now s)
      ∙ evaluate_thresholds-with now s xs
      ∙ ap (with_alerts s)
          (add_alerts_settled (due now s) xs (add_alerts_fire (due now s) s.alerts))
      ∙ sym (evaluate_thresholds-due now s)
