-- ===== src/Store/Quotas.antt =====
-- `quotas` and `alerts`. A quota of an id that is not there is an error, `none` here.
use cost_ai_grid_poc.Prelude.{
  ℕ, suc, String, Bool, true, false, ◌&&◌, not, Option, none, some, List, [], ◌∷◌, ◌++◌, ltb, leb,
  ◌+◌, ◌==◌, str_eq, if◌then◌else◌, where_rows, find_row, any_row, update_rows,
}
use cost_ai_grid_poc.Prelude.Int.{ℤ, pos, pos_part, neg_part, leb_ℤ}
use cost_ai_grid_poc.Models.{QuotaRecord, AlertRecord}
use cost_ai_grid_poc.Store.Tables.{Store}
use cost_ai_grid_poc.Store.Metering.{sum_of, in_effect}
use cost_ai_grid_poc.Store.Wallets.{distinct}
use cost_ai_grid_poc.Store.Inventory.{is_null}

-- `effective_to IS NULL OR effective_to > NOW()`
abbrev pub not_ended : Option ℕ → ℕ → Bool
not_ended none at = true
not_ended (some to) at = ltb at to

abbrev pub same_label : List ℕ → List ℕ → Bool
same_label [] [] = true
same_label [] (d ∷ l) = false
same_label (c ∷ k) [] = false
same_label (c ∷ k) (d ∷ l) = c == d && same_label k l

abbrev pub same_amount : ℤ → ℤ → Bool
same_amount a b = pos_part a + neg_part b == pos_part b + neg_part a

abbrev pub quota_tenants : List QuotaRecord → List String
quota_tenants [] = []
quota_tenants (q ∷ qs) = q.tenant_id ∷ quota_tenants qs

-- `ORDER BY threshold_pct`
abbrev pub insert_by_threshold : AlertRecord → List AlertRecord → List AlertRecord
insert_by_threshold a [] = a ∷ []
insert_by_threshold a (b ∷ bs) =
    if leb_ℤ a.threshold_pct b.threshold_pct then a ∷ b ∷ bs else b ∷ insert_by_threshold a bs

abbrev pub order_by_threshold : List AlertRecord → List AlertRecord
order_by_threshold [] = []
order_by_threshold (a ∷ rest) = insert_by_threshold a (order_by_threshold rest)

-- `(tenant_id, meter_name, threshold_pct, period)`
abbrev pub same_alert : AlertRecord → AlertRecord → Bool
same_alert a b =
    str_eq a.tenant_id b.tenant_id
    && str_eq a.meter_name b.meter_name
    && same_amount a.threshold_pct b.threshold_pct
    && same_label a.period b.period

-- the quota that was in effect last, of those in effect together the first
abbrev pub newest : Option QuotaRecord → List QuotaRecord → Option QuotaRecord
newest best [] = best
newest none (q ∷ qs) = newest (some q) qs
newest (some b) (q ∷ qs) = newest (some (if leb q.effective_from b.effective_from then b else q)) qs

abbrev pub limit_of : Option QuotaRecord → ℤ
limit_of none = pos 0
limit_of (some q) = q.limit_value

-- the quotas of the projects of a tenant for a meter, but one
abbrev pub is_project_limit : String → String → ℕ → ℕ → QuotaRecord → Bool
is_project_limit tenant meter exclude_id now q =
    str_eq q.tenant_id tenant
    && str_eq q.meter_name meter
    && not (str_eq q.project_id "")
    && not_ended q.effective_to now
    && not (q.id == exclude_id)

-- the quotas of the tenant itself for a meter
abbrev pub is_tenant_limit : String → String → ℕ → QuotaRecord → Bool
is_tenant_limit tenant meter now q =
    str_eq q.tenant_id tenant
    && str_eq q.meter_name meter
    && str_eq q.project_id ""
    && not_ended q.effective_to now

module _ {D : Type 0} where
  -- `UpsertQuota` always inserts
  unfoldable pub upsert_quota : QuotaRecord → Store D → ℕ × Store D
  upsert_quota q s = (
    s.next_quota_id,
    record s {
      quotas = s.quotas ++ record q { id = s.next_quota_id } ∷ [];
      next_quota_id = suc s.next_quota_id;
    },
  )

  -- without `ORDER BY meter_name`: in the order of insertion
  unfoldable pub quotas_for_tenant : Store D → String → ℕ → List QuotaRecord
  quotas_for_tenant s tenant at =
      where_rows (λ q. str_eq q.tenant_id tenant && in_effect q.effective_from q.effective_to at)
        s.quotas

  unfoldable pub get_quota : Store D → ℕ → Option QuotaRecord
  get_quota s id = find_row (λ q. q.id == id) s.quotas

  unfoldable pub list_quotas : Store D → String → ℕ → List QuotaRecord
  list_quotas s tenant now =
      where_rows
        (λ q.
          in_effect q.effective_from q.effective_to now
          && (if str_eq tenant "" then true else str_eq q.tenant_id tenant))
        s.quotas

  unfoldable pub update_quota : ℕ → QuotaRecord → Store D → Option (Store D)
  update_quota id q s =
      if any_row (λ r. r.id == id) s.quotas
      then some (record s {
        quotas =
            update_rows (λ r. r.id == id)
              (λ r. record q {
                id = r.id;
                effective_from = r.effective_from;
                effective_to = r.effective_to;
              })
              s.quotas;
      })
      else none

  unfoldable pub soft_delete_quota : ℕ → ℕ → Store D → Option (Store D)
  soft_delete_quota id now s =
      if any_row (λ r. r.id == id && is_null r.effective_to) s.quotas
      then some (record s {
        quotas =
            update_rows (λ r. r.id == id && is_null r.effective_to)
              (λ r. record r { effective_to = some now }) s.quotas;
      })
      else none

  unfoldable pub project_limit_sum : Store D → String → String → ℕ → ℕ → ℤ
  project_limit_sum s tenant meter exclude_id now =
      sum_of (λ q. q.limit_value)
        (where_rows (is_project_limit tenant meter exclude_id now) s.quotas)

  -- a tenant with no quota of its own has the limit 0
  unfoldable pub tenant_quota_limit : Store D → String → String → ℕ → ℤ
  tenant_quota_limit s tenant meter now =
      limit_of (newest none (where_rows (is_tenant_limit tenant meter now) s.quotas))

  -- an alert that fired already is not inserted again
  unfoldable pub insert_alert : AlertRecord → Store D → Bool × Store D
  insert_alert a s =
      if any_row (λ b. same_alert b a) s.alerts
      then (false, s)
      else (true, record s { alerts = s.alerts ++ a ∷ [] })

  unfoldable pub alerts_for_tenant_meter : Store D → String → String → List ℕ → List AlertRecord
  alerts_for_tenant_meter s tenant meter period = order_by_threshold (
      where_rows
        (λ (a : AlertRecord).
          str_eq a.tenant_id tenant && str_eq a.meter_name meter && same_label a.period period)
        s.alerts)

  unfoldable pub all_tenants_with_quotas : Store D → ℕ → List String
  all_tenants_with_quotas s at =
      distinct
        (quota_tenants (where_rows (λ q. in_effect q.effective_from q.effective_to at) s.quotas))
