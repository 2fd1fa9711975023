-- ===== src/Api/Tests.antt =====
-- Runs of the quota handlers on the fixtures.
use cost_ai_grid_poc.Calendar.{day}
use cost_ai_grid_poc.Rating.Thresholds.{is_budget_unit, quota_consumed, evaluate_thresholds}
use cost_ai_grid_poc.Api.Status.{quota_status}
use cost_ai_grid_poc.Api.Status.Alerted.{IsAlerted, quota_status-IsAlerted}
use cost_ai_grid_poc.Store.{sum_of, metering_sum, quotas_for_tenant}
use cost_ai_grid_poc.Api.Status.{get_entitlement_value, get_quota_status}
use cost_ai_grid_poc.Api.Status.Entitlement.{
  IsEntitlement, limit_now, usage_now, get_entitlement_value-IsEntitlement,
}
use cost_ai_grid_poc.Prelude.{◌≡◌, refl, true, false, All, none, some, [], ◌∷◌, ◌++◌, ok, err}
use cost_ai_grid_poc.Prelude.Int.{ℤ, pos, negsuc, ◌+ℤ◌, ◌-ℤ◌}
use cost_ai_grid_poc.Billing.{resolve_period, daily_window}
use cost_ai_grid_poc.Decimal.{is_zero_ℤ, whole_columns, round_to}
use cost_ai_grid_poc.Models.{QuotaRecord, WalletRecord, WalletLedgerEntry}
use cost_ai_grid_poc.Store.{
  Store, upsert_quota, project_limit_sum, tenant_quota_limit, get_wallet, top_up_wallet,
  top_up_found, insert_ledger_entry,
}
use cost_ai_grid_poc.Fixtures.{wallet, quota, store}
use cost_ai_grid_poc.Api.Errors.{bad_request, internal_server_error, not_implemented}
use cost_ai_grid_poc.Api.Quotas.{with_defaults, validate_project_overcommit, create_quota}
use cost_ai_grid_poc.Api.Quotas.Overcommit.{IsCommitted, create_quota-IsCommitted}
use cost_ai_grid_poc.Api.Wallets.{
  CreateWalletRequest, handle_create_wallet, handle_top_up_wallet, handle_adjust_wallet,
}
use cost_ai_grid_poc.Api.Wallets.Created.{IsFunded, handle_create_wallet-IsFunded}
use cost_ai_grid_poc.Api.Wallets.Credit.{
  IsCredit, handle_adjust_wallet-IsCredit, handle_adjust_wallet_once,
}

abbrev project_quota : QuotaRecord
project_quota = record quota { project_id = "p1"; limit_value = pos 150 }

abbrev created : Store ℤ
created = (upsert_quota (with_defaults 30 project_quota) store).1

project_quota_fits :
    create_quota 30 project_quota store
    ≡ ok (record (with_defaults 30 project_quota) { id = 2 }, created)
unfolding create_quota upsert_quota resolve_period validate_project_overcommit project_limit_sum
    tenant_quota_limit ◌+ℤ◌
project_quota_fits = refl

second_quota_refused : create_quota 40 project_quota created ≡ err bad_request
unfolding create_quota upsert_quota resolve_period validate_project_overcommit project_limit_sum
    tenant_quota_limit ◌+ℤ◌
second_quota_refused = refl

create_quota-IsCommitted_example : IsCommitted 30 "acme" "maas_tokens_in" created
create_quota-IsCommitted_example =
    create_quota-IsCommitted 30 project_quota store project_quota_fits refl

abbrev credited : WalletLedgerEntry ℤ × Store ℤ
credited = top_up_found whole_columns wallet (pos 20000) "promo-1" store

top_up_runs : handle_top_up_wallet whole_columns "w1" (pos 20000) "promo-1" store ≡ ok credited
unfolding handle_top_up_wallet top_up_wallet get_wallet
top_up_runs = refl

adjust_runs : handle_adjust_wallet whole_columns "w1" (pos 20000) "promo-1" store ≡ ok credited
unfolding handle_adjust_wallet top_up_wallet get_wallet
adjust_runs = refl

debit_refused : handle_adjust_wallet whole_columns "w1" (negsuc 5) "" store ≡ err not_implemented
unfolding handle_adjust_wallet
debit_refused = refl

wallet_runs : get_wallet store "w1" ≡ some wallet
unfolding get_wallet
wallet_runs = refl

balance_stored : round_to 10000 (pos 50000) ≡ pos 50000
unfolding round_to
balance_stored = refl

handle_adjust_wallet-IsCredit_example :
    IsCredit whole_columns "w1" (pos 20000) wallet store credited
handle_adjust_wallet-IsCredit_example =
    handle_adjust_wallet-IsCredit whole_columns "w1" (pos 20000) "promo-1" store wallet wallet_runs
      balance_stored adjust_runs

-- after another credit to the wallet
abbrev credited_again : WalletLedgerEntry ℤ × Store ℤ
credited_again = top_up_found whole_columns wallet (pos 30000) "promo-2" credited.1

later_ledger : credited_again.1.wallet_ledger ≡ credited.1.wallet_ledger ++ credited_again.0 ∷ []
unfolding top_up_found insert_ledger_entry
later_ledger = refl

handle_adjust_wallet_once_example :
    (handle_top_up_wallet whole_columns "w1" (pos 70000) "promo-1" credited_again.1
      ≡ err bad_request)
    × (handle_adjust_wallet whole_columns "w1" (pos 70000) "promo-1" credited_again.1
        ≡ err internal_server_error)
handle_adjust_wallet_once_example =
    handle_adjust_wallet_once whole_columns "w1" "promo-1" (pos 20000) (pos 70000) store
      credited_again.1 (credited_again.0 ∷ []) refl adjust_runs later_ledger refl

abbrev request : CreateWalletRequest
request = record { tenant_id = "globex"; project_id = ""; currency = ""; thresholds = [] }

no_wallet_w2 : get_wallet store "w2" ≡ none
unfolding get_wallet
no_wallet_w2 = refl

handle_create_wallet-IsFunded_example :
    (w : WalletRecord ℤ) × (s' : Store ℤ) × (handle_create_wallet whole_columns "w2" 30 request
        store
      ≡ ok (some w, s'))
    × IsFunded whole_columns "w2" (pos 70000) "payment-1" s'
handle_create_wallet-IsFunded_example =
    handle_create_wallet-IsFunded whole_columns "w2" 30 request (pos 70000) "payment-1" store refl
      no_wallet_w2 refl refl

has_quota : quotas_for_tenant store "acme" 30 ≡ quota ∷ []
unfolding quotas_for_tenant
has_quota = refl

get_entitlement_value-IsEntitlement_example :
    IsEntitlement
      (sum_of (limit_now store "acme" 30) (quota ∷ []))
      (sum_of (usage_now store "acme" 30) (quota ∷ []))
      (get_entitlement_value 30 "acme" store)
get_entitlement_value-IsEntitlement_example =
    get_entitlement_value-IsEntitlement store "acme" 30 has_quota

entitlement_runs :
    get_entitlement_value 30 "acme" store
    ≡ record { has_access = true; balance = some (pos 80); usage = pos 120; overage = pos 0 }
unfolding get_entitlement_value quotas_for_tenant metering_sum ◌+ℤ◌ ◌-ℤ◌ resolve_period daily_window
entitlement_runs = refl

status_refused : get_quota_status whole_columns 30 "" store ≡ err bad_request
unfolding get_quota_status
status_refused = refl

day_of_quota : resolve_period "daily" 30 ≡ ok (0, day)
unfolding resolve_period daily_window
day_of_quota = refl

quota_in_use : is_zero_ℤ (quota_consumed whole_columns store "acme" quota 0 day).1 ≡ false
unfolding quota_consumed metering_sum ◌+ℤ◌ is_budget_unit
quota_in_use = refl

-- the use is 60 percent of the limit
quota_status-IsAlerted_example :
    let status =
      quota_status whole_columns
        (evaluate_thresholds whole_columns 30 store)
        "acme"
        30
        quota
        0
        day in
    All (IsAlerted whole_columns status.alerts) status.thresholds
quota_status-IsAlerted_example =
    quota_status-IsAlerted whole_columns 30 "acme" store quota [] [] 0 day has_quota refl
      day_of_quota refl quota_in_use
