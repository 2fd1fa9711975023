-- ===== src/Rating/Tests.antt =====
-- Runs of rating on the fixtures.
use cost_ai_grid_poc.Prelude.{ℕ, ◌≡◌, refl, ap, none, some, [], ◌∷◌, arith, ok, map, All}
use cost_ai_grid_poc.Prelude.Int.{ℤ, pos, ◌+ℤ◌, ◌-ℤ◌, ◌*ℤ◌, ◌≤ℤ◌}
use cost_ai_grid_poc.Decimal.{whole, whole_columns, round_to}
use cost_ai_grid_poc.Calendar.{day}
use cost_ai_grid_poc.Billing.Resolve.{period_label_stable}
use cost_ai_grid_poc.Billing.{resolve_period, daily_window}
use cost_ai_grid_poc.Models.{MeteringEntry, WalletLedgerEntry}
use cost_ai_grid_poc.Store.{
  Store, deduct_from_wallet, deduct_found, unrated_metering_entries, metering_sum_before,
}
use cost_ai_grid_poc.Fixtures.{wallet, tiers, rate, tokens, store}
use cost_ai_grid_poc.Rating.Tiers.{tier_loop, apply_tiered_rate, apply_tiered_rate_cumulative}
use cost_ai_grid_poc.Rating.Tiers.Waterfall.{filled, apply_tiered_rate-filled}
use cost_ai_grid_poc.Rating.Tiers.Marginal.{
  priced, apply_tiered_rate_cumulative-priced, apply_tiered_rate_cumulative_nonneg,
}
use cost_ai_grid_poc.Rating.Index.{RateIndex, match_rate, build_rate_index, or_else}
use cost_ai_grid_poc.Rating.Index.Preferred.{key, first_rate, match_rate-first}
use cost_ai_grid_poc.Rating.Wallets.{deduct_wallets}
use cost_ai_grid_poc.Rating.Wallets.Floor.{IsSolvent, deduct_wallets-IsSolvent}
use cost_ai_grid_poc.Rating.Wallets.Applied.{AreAccounted}
use cost_ai_grid_poc.Rating.Wallets.Accounted.{deduct_wallets-AreAccounted}
use cost_ai_grid_poc.Rating.Wallets.Dust.{balance_of, applied_of, deduct_from_wallet_dust}
use cost_ai_grid_poc.Rating.Thresholds.{evaluate_thresholds}
use cost_ai_grid_poc.Rating.Thresholds.Fired.{Fired}
use cost_ai_grid_poc.Rating.Thresholds.Alerts.{
  due, evaluate_thresholds-Fired, evaluate_thresholds_settled,
}
use cost_ai_grid_poc.Rating.Sweep.{rate_entries, rate_queue, accum_key}
use cost_ai_grid_poc.Rating.Sweep.Cumulative.{charged, total_of, rate_entries-cumulative}
use cost_ai_grid_poc.Rating.Sweep.Drained.{rate_queue_drained}

apply_tiered_rate-filled_example :
    apply_tiered_rate whole (pos 120) tiers ≡ filled whole (pos 120) (pos 0) tiers
apply_tiered_rate-filled_example = apply_tiered_rate-filled whole (pos 120) tiers (omega arith, tt)

waterfall_run : apply_tiered_rate whole (pos 120) tiers ≡ pos 340
unfolding apply_tiered_rate tier_loop ◌-ℤ◌ ◌+ℤ◌ ◌*ℤ◌
waterfall_run = refl

apply_tiered_rate_cumulative-priced_example :
    apply_tiered_rate_cumulative whole (pos 50) (pos 70) tiers
    ≡ priced whole (pos 70) (pos 120) (pos 0) tiers
unfolding ◌+ℤ◌
apply_tiered_rate_cumulative-priced_example =
    apply_tiered_rate_cumulative-priced whole (pos 50) (pos 70) tiers (omega arith)
      (omega arith, tt)

apply_tiered_rate_cumulative_nonneg_example :
    pos 0 ≤ℤ apply_tiered_rate_cumulative whole (pos 50) (pos 70) tiers
apply_tiered_rate_cumulative_nonneg_example =
    apply_tiered_rate_cumulative_nonneg whole (pos 50) (pos 70) tiers (omega arith)
      (omega arith, tt) (omega arith, (omega arith, tt))

match_rate-first_example :
    match_rate (build_rate_index (rate ∷ [])) "acme" "" "model" "maas_tokens_in"
    ≡ or_else (first_rate (key "acme" "" "model" "maas_tokens_in") (rate ∷ [])) (
        or_else (first_rate (key "" "" "model" "maas_tokens_in") (rate ∷ [])) (
          or_else
            (first_rate (key "acme" "" "model" "maas_tokens_in") (rate ∷ []))
            (first_rate (key "" "" "model" "maas_tokens_in") (rate ∷ []))))
match_rate-first_example = match_rate-first (rate ∷ []) "acme" "" "model" "maas_tokens_in"

fallback_run :
    match_rate (build_rate_index (rate ∷ [])) "acme" "" "model" "maas_tokens_in" ≡ some rate
unfolding match_rate build_rate_index
fallback_run = refl

deduct_wallets-IsSolvent_example : IsSolvent whole_columns (deduct_wallets whole_columns store)
unfolding round_to
deduct_wallets-IsSolvent_example =
    deduct_wallets-IsSolvent whole_columns store ((refl, tt), ((omega arith, refl), tt))

deduct_wallets-AreAccounted_example :
    AreAccounted whole_columns (deduct_wallets whole_columns store)
unfolding round_to
deduct_wallets-AreAccounted_example =
    deduct_wallets-AreAccounted whole_columns store
      ((refl, tt), ((omega arith, refl, refl, omega arith), tt))

abbrev dust : WalletLedgerEntry ℤ × Store ℤ
dust = deduct_found whole_columns wallet 1 (pos 4999) store

dust_runs : deduct_from_wallet whole_columns "w1" 1 (pos 4999) store ≡ ok (dust.0, dust.1)
unfolding deduct_from_wallet
dust_runs = refl

deduct_from_wallet_dust_example :
    (map (balance_of whole_columns) dust.1.wallets ≡ pos 50000 ∷ [])
    × (map (applied_of whole_columns) dust.1.cost_entries ≡ pos 0 ∷ [])
unfolding round_to
deduct_from_wallet_dust_example =
    deduct_from_wallet_dust whole_columns "w1" 1 4999 (pos 4999) store ((refl, tt), (refl, tt)) refl
      (omega arith) dust_runs

evaluate_thresholds-Fired_example :
    All (Fired (evaluate_thresholds whole_columns 30 store).alerts) (due whole_columns 30 store)
evaluate_thresholds-Fired_example = evaluate_thresholds-Fired whole_columns 30 store

evaluate_thresholds_settled_example :
    evaluate_thresholds whole_columns 30 (evaluate_thresholds whole_columns 30 store)
    ≡ evaluate_thresholds whole_columns 30 store
evaluate_thresholds_settled_example = evaluate_thresholds_settled whole_columns 30 store

rate_queue_drained_example :
    unrated_metering_entries (rate_queue whole_columns 1 none 30 store) 10 ≡ []
rate_queue_drained_example = rate_queue_drained whole_columns 1 none 30 10 store (omega arith)

abbrev index : RateIndex ℤ
index = build_rate_index (rate ∷ [])

abbrev first_tokens : MeteringEntry
first_tokens = tokens 1 (pos 70) 10

abbrev more_tokens : MeteringEntry
more_tokens = tokens 2 (pos 50) 20

day_resolves : (t : ℕ) → resolve_period "daily" t ≡ ok (daily_window t)
unfolding resolve_period
day_resolves t = refl

one_key : accum_key whole_columns rate more_tokens ≡ accum_key whole_columns rate first_tokens
one_key =
    ap (λ l. record { tenant = "acme"; meter = "maas_tokens_in"; period = l })
      (period_label_stable "daily" 10 20 (day_resolves 10) (unfold daily_window in omega arith))

rate_entries-cumulative_example :
    charged whole_columns
      (rate_entries whole_columns none index store [] (first_tokens ∷ more_tokens ∷ [])).0
    ≡ apply_tiered_rate whole
        (metering_sum_before store "acme" "maas_tokens_in" 0 day 1
          +ℤ total_of (first_tokens ∷ more_tokens ∷ []))
        tiers
      -ℤ apply_tiered_rate whole (metering_sum_before store "acme" "maas_tokens_in" 0 day 1) tiers
unfolding daily_window
rate_entries-cumulative_example =
    rate_entries-cumulative whole_columns first_tokens (more_tokens ∷ []) index store rate refl refl
      fallback_run (day_resolves 10)
      (((fallback_run, daily_window 20, day_resolves 20), one_key), tt)
