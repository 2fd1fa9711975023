-- ===== src/Api/Status/Alerted.antt =====
-- What `GetQuotaStatus` shows after an evaluation of the thresholds: a threshold that is passed has
-- its alert.
use mathlib.Core.Path.{subst}
use cost_ai_grid_poc.Prelude.{
  ℕ, ◌≤◌, ◌≡◌, sym, ap, ◌∙◌, inl, inr, String, Bool, true, false, ◌&&◌, List, [], ◌∷◌, ◌++◌, map,
  str_eq, eq_iff, length, length-append, where_rows, any_row, Bool-cases, All, ok, arith,
}
use cost_ai_grid_poc.Prelude.Int.{ℤ, pos, ltb_ℤ, leb_ℤ}
use cost_ai_grid_poc.Decimal.{Decimals, Columns, is_zero_ℤ}
use cost_ai_grid_poc.Billing.{resolve_period, period_label}
use cost_ai_grid_poc.Models.{QuotaRecord, AlertRecord}
use cost_ai_grid_poc.Store.{
  Store, quotas_for_tenant, all_tenants_with_quotas, same_label, same_amount,
  alerts_for_tenant_meter, order_by_threshold,
}
use cost_ai_grid_poc.Rating.Thresholds.{
  is_budget_unit, levels_of, period_of, reached, quota_consumed, evaluate_thresholds,
}
use cost_ai_grid_poc.Rating.Thresholds.Fired.{Fired, add_alerts}
use cost_ai_grid_poc.Rating.Thresholds.Alerts.{
  alert_at, due_levels, due_in, due_quotas, due_tenants, due, quota_consumed-with,
  evaluate_thresholds-due, evaluate_thresholds-Fired,
}
use cost_ai_grid_poc.Api.Status.{is_passed, status_consumed, quota_status}
use cost_ai_grid_poc.Api.Status.Listed.{
  is_text, distinct-any, tenant_listed, All-left, All-right, order-any, alert_listed,
}

module _ {D : Type 0} {dec : Decimals D} (col : Columns dec) where
  in_tenants :
      (P : AlertRecord → Type 0) (now : ℕ) (s : Store D) (k : String) (ts : List String)
      → any_row (is_text k) ts ≡ true
      → All P (due_tenants col now s ts)
      → All P (due_quotas col now k s (quotas_for_tenant s k now))
  in_tenants P now s k [] a h = absurd (cc a)
  in_tenants P now s k (t ∷ ts) a h =
      let d = due_quotas col now t s (quotas_for_tenant s t now) in
      elim (Bool-cases (str_eq t k)) [
        | inl u ↦
            let e : t ≡ k = (eq_iff t k).0 u in
            rw (sym e) (All-left P d (due_tenants col now s ts) h)
        | inr n ↦ in_tenants P now s k ts (rw n at a) (All-right P d (due_tenants col now s ts) h)
      ]

  in_quotas :
      (P : AlertRecord → Type 0) (now : ℕ) (s : Store D) (k : String) (q : QuotaRecord)
      (before after : List QuotaRecord)
      → All P (due_quotas col now k s (before ++ q ∷ after))
      → All P (due_in col now k q s (resolve_period (period_of q.period) now))
  in_quotas P now s k q [] after h =
      All-left P (due_in col now k q s (resolve_period (period_of q.period) now)) _ h
  in_quotas P now s k q (b ∷ before) after h =
      in_quotas P now s k q before after
        (All-right P (due_in col now k b s (resolve_period (period_of b.period) now)) _ h)

  -- a threshold that is passed has an alert among those of a list
  abbrev pub IsAlerted : List AlertRecord → ℤ × Bool → Type 0
  IsAlerted alerts (t, passed) =
      passed ≡ true → any_row (λ a. same_amount a.threshold_pct t) alerts ≡ true

  levels-IsAlerted :
      (k : String) (q : QuotaRecord) (period : List ℕ) (scale : ℕ) (consumed : ℤ)
      (xs : List AlertRecord) (levels : List ℤ)
      → ltb_ℤ (pos 0) q.limit_value ≡ true
      → All (Fired xs) (due_levels col k q period scale consumed levels)
      → All
          (IsAlerted (
            order_by_threshold (
              where_rows
                (λ (a : AlertRecord).
                  str_eq a.tenant_id k
                  && str_eq a.meter_name q.meter_name
                  && same_label a.period period)
                xs)))
          (map (λ t. (t, is_passed col (scale, consumed) q.limit_value t)) levels)
  levels-IsAlerted k q period scale consumed xs [] p h = tt
  levels-IsAlerted k q period scale consumed xs (l ∷ levels) p h =
      elim (Bool-cases (reached scale consumed q.limit_value l)) [
        | inl r ↦
            let (f, rest) = rw r at h in
            (
              λ _.
                  order-any (λ a. same_amount a.threshold_pct l) _
                  ∙ alert_listed (alert_at col k q period consumed l) xs f,
              levels-IsAlerted k q period scale consumed xs levels p rest,
            )
        | inr n ↦
            let rest = rw n at h in
            (
              (rw (p, n) (λ e. absurd (cc e))),
              levels-IsAlerted k q period scale consumed xs levels p rest,
            )
      ]

  own_consumed :
      (now : ℕ) (k : String) (s : Store D) (q : QuotaRecord) (from to : ℕ)
      → str_eq q.project_id "" ≡ true
      → status_consumed col (evaluate_thresholds col now s) k q from to
        ≡ quota_consumed col s k q from to
  unfolding status_consumed
  own_consumed now k s q from to j =
      let e =
        ap (λ u. quota_consumed col u k q from to) (evaluate_thresholds-due col now s)
        ∙ quota_consumed-with col s (add_alerts (due col now s) s.alerts) k q from to in
      elim (Bool-cases (is_budget_unit q.unit)) [ inl b ↦ rw b e | inr b ↦ rw (b, j) e ]

  tenant_with_quotas :
      (now : ℕ) (k : String) (s : Store D) (q : QuotaRecord) (before after : List QuotaRecord)
      → quotas_for_tenant s k now ≡ before ++ q ∷ after
      → any_row (is_text k) (all_tenants_with_quotas s now) ≡ true
  unfolding all_tenants_with_quotas quotas_for_tenant
  tenant_with_quotas now k s q before after g =
      let l : 1 ≤ length (before ++ q ∷ after) = omega (arith, length-append before (q ∷ after)) in
      distinct-any k _ ∙ tenant_listed k now s.quotas (subst (λ qs. 1 ≤ length qs) (sym g) l)

  -- the alerts of a quota have fired
  levels-Fired :
      (now : ℕ) (k : String) (s : Store D) (q : QuotaRecord) (before after : List QuotaRecord)
      (from to : ℕ)
      → quotas_for_tenant s k now ≡ before ++ q ∷ after
      → resolve_period (period_of q.period) now ≡ ok (from, to)
      → ltb_ℤ (pos 0) q.limit_value ≡ true
      → is_zero_ℤ (quota_consumed col s k q from to).1 ≡ false
      → let consumed = quota_consumed col s k q from to in
        All (Fired (evaluate_thresholds col now s).alerts) (
          due_levels col k q
            (period_label (period_of q.period) now)
            consumed.0
            consumed.1
            (levels_of q.thresholds))
  levels-Fired now k s q before after from to g r p z =
      let P = Fired (evaluate_thresholds col now s).alerts in
      let all =
        in_tenants P now s k (all_tenants_with_quotas s now)
          (tenant_with_quotas now k s q before after g) (evaluate_thresholds-Fired col now s) in
      let mine = in_quotas P now s k q before after (rw g at all) in
      let n : leb_ℤ q.limit_value (pos 0) ≡ false = ground arith in rw (r, z, n) at mine

  -- After an evaluation of the thresholds, GetQuotaStatus at the same instant lists for a quota of a
  -- tenant (not of one of its projects) in effect, with a limit above 0 and a use in its window
  -- that is not 0, an alert for every threshold that it shows as passed.
  pub quota_status-IsAlerted :
      (now : ℕ) (k : String) (s : Store D) (q : QuotaRecord) (before after : List QuotaRecord)
      (from to : ℕ)
      → quotas_for_tenant s k now ≡ before ++ q ∷ after
      → str_eq q.project_id "" ≡ true
      → resolve_period (period_of q.period) now ≡ ok (from, to)
      → ltb_ℤ (pos 0) q.limit_value ≡ true
      → is_zero_ℤ (quota_consumed col s k q from to).1 ≡ false
      → let status = quota_status col (evaluate_thresholds col now s) k now q from to in
        All (IsAlerted status.alerts) status.thresholds
  unfolding quota_status alerts_for_tenant_meter
  quota_status-IsAlerted now k s q before after from to g j r p z =
      let consumed = quota_consumed col s k q from to in
      rw (own_consumed now k s q from to j) (
        levels-IsAlerted k q (period_label (period_of q.period) now) consumed.0 consumed.1
          (evaluate_thresholds col now s).alerts (levels_of q.thresholds) p
          (levels-Fired now k s q before after from to g r p z))
