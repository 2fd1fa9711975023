-- ===== src/Api/Status.antt =====
-- `GetQuotaStatus` and `GetEntitlementValue`. The rounded percentage of a status is left out; the
-- map of the projects is the list of its entries.
pub mod Listed
pub mod Alerted
pub mod Entitlement
use Prim.Native.String.{len}
use cost_ai_grid_poc.Prelude.{
  ℕ, String, Bool, true, Option, none, some, List, [], ◌∷◌, ◌++◌, map, ◌||◌, str_eq, ltb,
  if◌then◌else◌, Result, ok, err,
}
use cost_ai_grid_poc.Prelude.Int.{ℤ, pos, ◌+ℤ◌, ◌-ℤ◌, ltb_ℤ, leb_ℤ}
use cost_ai_grid_poc.Decimal.{Decimals, Columns}
use cost_ai_grid_poc.Billing.{Window, PeriodError, resolve_period, period_label}
use cost_ai_grid_poc.Models.{QuotaRecord, AlertRecord}
use cost_ai_grid_poc.Store.{
  Store, metering_sum, metering_sum_by_project, quotas_for_tenant, alerts_for_tenant_meter,
}
use cost_ai_grid_poc.Rating.Thresholds.{
  million, is_budget_unit, levels_of, period_of, reached, quota_consumed,
}
use cost_ai_grid_poc.Api.Errors.{ApiError, bad_request}
use cost_ai_grid_poc.Api.Events.CloudEvents.{max_id_length}

pub record QuotaStatus : Type 0 where
  pub meter_name : String
  pub unit : String
  pub limit : ℤ
  -- the number of units of the amount that make one, and the amount
  pub consumed : ℕ × ℤ
  pub thresholds : List (ℤ × Bool)
  pub alerts : List AlertRecord

pub record QuotaResponse : Type 0 where
  pub tenant_id : String
  -- a label is its numbers, none before it is known
  pub period : List ℕ
  pub quotas : List QuotaStatus
  pub projects : List (String × QuotaStatus)

pub record EntitlementValue : Type 0 where
  pub has_access : Bool
  -- `none` for math.MaxFloat64
  pub balance : Option ℤ
  pub usage : ℤ
  pub overage : ℤ

abbrev or_label : List ℕ → List ℕ → List ℕ
or_label [] label = label
or_label (n ∷ ns) label = n ∷ ns

module _ {D : Type 0} {dec : Decimals D} (col : Columns dec) where
  -- Unlike `evaluateThresholds` the use of a project's quota is that of the project.
  unfoldable pub status_consumed : Store D → String → QuotaRecord → ℕ → ℕ → ℕ × ℤ
  status_consumed s tenant q from to =
      if is_budget_unit q.unit || str_eq q.project_id ""
      then quota_consumed col s tenant q from to
      else (million, metering_sum_by_project s tenant q.project_id q.meter_name from to)

  -- `pct >= t`, with a percentage of 0 where there is no limit
  abbrev pub is_passed : ℕ × ℤ → ℤ → ℤ → Bool
  is_passed (scale, consumed) limit t =
      if ltb_ℤ (pos 0) limit then reached scale consumed limit t else leb_ℤ t (pos 0)

  -- The code keys the thresholds by their text in `%.0f`: of those that round alike it keeps one.
  unfoldable pub quota_status : Store D → String → ℕ → QuotaRecord → ℕ → ℕ → QuotaStatus
  unfolding status_consumed
  quota_status s tenant now q from to =
      let consumed = status_consumed s tenant q from to in
      record {
        meter_name = q.meter_name;
        unit = q.unit;
        limit = q.limit_value;
        consumed = consumed;
        thresholds = map (λ t. (t, is_passed consumed q.limit_value t)) (levels_of q.thresholds);
        alerts =
            alerts_for_tenant_meter s tenant q.meter_name (period_label (period_of q.period) now);
      }

  abbrev with_status : List ℕ → QuotaRecord → QuotaStatus → QuotaResponse → QuotaResponse
  with_status label q status r =
      let named = or_label r.period label in
      if str_eq q.project_id ""
      then record r { period = named; quotas = r.quotas ++ status ∷ [] }
      else record r { period = named; projects = r.projects ++ (q.project_id, status) ∷ [] }

  -- the loop over the quotas
  unfoldable pub quota_statuses :
      Store D → String → ℕ → List QuotaRecord → QuotaResponse → QuotaResponse
  quota_statuses s tenant now [] r = r
  quota_statuses s tenant now (q ∷ qs) r =
      quota_statuses s tenant now qs (elim (resolve_period (period_of q.period) now) [
        | err _ ↦ r
        | ok w ↦
            with_status (period_label (period_of q.period) now) q
              (quota_status s tenant now q w.0 w.1) r
      ])

  unfoldable pub get_quota_status : ℕ → String → Store D → Result ApiError QuotaResponse
  get_quota_status now tenant s =
      let start : QuotaResponse = record {
        tenant_id = tenant;
        period = [];
        quotas = [];
        projects = [];
      } in
      let r = quota_statuses s tenant now (quotas_for_tenant s tenant now) start in
      if str_eq tenant ""
      then err bad_request
      else if ltb max_id_length (len tenant)
      then err bad_request
      else ok (record r { period = or_label r.period (period_label "monthly" now) })

abbrev pub entitlement_of : ℤ × ℤ → EntitlementValue
entitlement_of (limit, usage) =
    let balance = limit -ℤ usage in
    if ltb_ℤ balance (pos 0)
    then record {
      has_access = ltb_ℤ usage limit;
      balance = some (pos 0);
      usage = usage;
      overage = pos 0 -ℤ balance;
    }
    else record {
      has_access = ltb_ℤ usage limit;
      balance = some balance;
      usage = usage;
      overage = pos 0;
    }

module _ {D : Type 0} where
  -- the loop: the limits and the use of the quotas whose period is one
  unfoldable pub entitlement_totals : Store D → String → ℕ → List QuotaRecord → ℤ × ℤ → ℤ × ℤ
  entitlement_totals s tenant now [] totals = totals
  entitlement_totals s tenant now (q ∷ qs) (limit, usage) =
      entitlement_totals s tenant now qs (elim (resolve_period (period_of q.period) now) [
        | err _ ↦ (limit, usage)
        | ok w ↦ (limit +ℤ q.limit_value, usage +ℤ metering_sum s tenant q.meter_name w.0 w.1)
      ])

  -- a customer without a quota has no limit
  unfoldable pub get_entitlement_value : ℕ → String → Store D → EntitlementValue
  unfolding entitlement_totals
  get_entitlement_value now customer s = elim (quotas_for_tenant s customer now) [
    | [] ↦ record { has_access = true; balance = none; usage = pos 0; overage = pos 0 }
    | q ∷ qs ↦ entitlement_of (entitlement_totals s customer now (q ∷ qs) (pos 0, pos 0))
  ]
