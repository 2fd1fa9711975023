-- ===== src/Api/Quotas.antt =====
-- `CreateQuota`, `UpdateQuota` and `DeleteQuota`. An error is the status that is written.
pub mod Overcommit
use cost_ai_grid_poc.Prelude.{
  ℕ, String, Bool, true, false, ◌&&◌, ◌||◌, not, Option, none, some, ◌==◌, str_eq, if◌then◌else◌,
  Result, ok, err,
}
use cost_ai_grid_poc.Prelude.Int.{ℤ, pos, ◌+ℤ◌, ltb_ℤ, leb_ℤ}
use cost_ai_grid_poc.Decimal.{is_zero_ℤ}
use cost_ai_grid_poc.Billing.{resolve_period}
use cost_ai_grid_poc.Models.{QuotaRecord}
use cost_ai_grid_poc.Api.Errors.{ApiError, bad_request, not_found}
use cost_ai_grid_poc.Store.{
  Store, upsert_quota, get_quota, update_quota, soft_delete_quota, project_limit_sum,
  tenant_quota_limit,
}

abbrev pub is_period : String → ℕ → Bool
is_period period now = elim (resolve_period period now) [ ok _ ↦ true | err _ ↦ false ]

-- the defaults of the fields that a request leaves out
abbrev pub with_defaults : ℕ → QuotaRecord → QuotaRecord
with_defaults now q = record q {
  period = if str_eq q.period "" then "monthly" else q.period;
  policy = if str_eq q.policy "" then "deny" else q.policy;
  effective_from = if q.effective_from == 0 then now else q.effective_from;
}

module _ {D : Type 0} where
  -- whether the projects' limits stay within the tenant's, where it has one
  unfoldable pub validate_project_overcommit : Store D → ℕ → QuotaRecord → ℕ → Bool
  validate_project_overcommit s now q exclude_id =
      let tenant_limit = tenant_quota_limit s q.tenant_id q.meter_name now in
      let project_sum = project_limit_sum s q.tenant_id q.meter_name exclude_id now in
      if is_zero_ℤ tenant_limit
      then true
      else not (ltb_ℤ tenant_limit (project_sum +ℤ q.limit_value))

  unfoldable pub create_quota : ℕ → QuotaRecord → Store D → Result ApiError (QuotaRecord × Store D)
  create_quota now q s =
      let q' = with_defaults now q in
      let (id, s') = upsert_quota q' s in
      if str_eq q.tenant_id "" || str_eq q.meter_name "" || str_eq q.unit ""
      then err bad_request
      else if leb_ℤ q.limit_value (pos 0)
      then err bad_request
      else if not (is_period q'.period now)
      then err bad_request
      else if not (str_eq q.project_id "") && not (validate_project_overcommit s now q' 0)
      then err bad_request
      else ok (record q' { id = id }, s')

  -- the quota that is written back, if it is found again
  unfoldable pub handle_update_quota :
      ℕ → ℕ → QuotaRecord → Store D → Result ApiError (Option QuotaRecord × Store D)
  handle_update_quota now id q s =
      let updated : Result ApiError (Option QuotaRecord × Store D) = elim (update_quota id q s) [
        | none ↦ err not_found
        | some s' ↦ ok (get_quota s' id, s')
      ] in
      if not (str_eq q.period "") && not (is_period q.period now)
      then err bad_request
      else if not (str_eq q.project_id "")
          && ltb_ℤ (pos 0) q.limit_value
          && not (validate_project_overcommit s now q id)
      then err bad_request
      else updated

  unfoldable pub delete_quota : ℕ → ℕ → Store D → Result ApiError (Store D)
  delete_quota now id s = elim (soft_delete_quota id now s) [
    | none ↦ err not_found
    | some s' ↦ ok s'
  ]
