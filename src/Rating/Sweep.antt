-- ===== src/Rating/Sweep.antt =====
-- `Rater.sweep` and `tryRuleEngine`: unrated metering entries become cost entries, in batches.
-- The rule engine, github.com/gorules/zen-go, is not part of the repository: `rules` is what it
-- answers, if it is configured.
pub mod Drained
pub mod Cumulative
use cost_ai_grid_poc.Prelude.{
  ℕ, zero, suc, ◌<◌, String, Bool, true, false, ◌&&◌, ◌||◌, not, Option, none, some, List, [], ◌∷◌,
  ◌++◌, str_eq, ltb, leb, ◌==◌, length, if◌then◌else◌, find_row, Result, ok, err,
}
use cost_ai_grid_poc.Prelude.Int.{ℤ, pos, pos_part, leb_ℤ, ◌+ℤ◌}
use cost_ai_grid_poc.Decimal.{Decimals, Columns}
use cost_ai_grid_poc.Billing.{Window, PeriodError, resolve_period, period_label}
use cost_ai_grid_poc.Models.{MeteringEntry, RateRecord, CostEntry, Tier}
use cost_ai_grid_poc.Store.{
  Store, get_compute_instance, tenant_tier, unrated_metering_entries, mark_metering_entries_rated,
  metering_sum_before, all_active_rates, insert_cost_entry_batch, same_label,
}
use cost_ai_grid_poc.Rating.Index.{RateIndex, build_rate_index, match_rate}
use cost_ai_grid_poc.Rating.Tiers.{apply_rate, apply_rate_cumulative}
use cost_ai_grid_poc.Rating.Thresholds.{evaluate_thresholds, period_of}
use cost_ai_grid_poc.Rating.Wallets.{deduct_wallets}

pub record PricingInput : Type 0 where
  pub instance_type : String
  pub tenant_tier : String
  pub tenant_id : String
  pub resource_type : String
  pub meter_name : String
  pub value : ℤ

pub record PricingOutput : Type 0 where
  pub cost_amount : ℤ
  pub currency : String

-- an evaluation that fails is `none`
abbrev pub Rules : Type 0
Rules = Option (PricingInput → Option PricingOutput)

pub record AccumKey : Type 0 where
  pub tenant : String
  pub meter : String
  pub period : List ℕ

abbrev pub same_accum : AccumKey → AccumKey → Bool
same_accum k l = str_eq k.tenant l.tenant && str_eq k.meter l.meter && same_label k.period l.period

-- `priorUsageCache`, the last write first
abbrev pub UsageCache : Type 0
UsageCache = List (AccumKey × ℤ)

abbrev pub cached : AccumKey → UsageCache → Option ℤ
cached k [] = none
cached k (e ∷ cache) = if same_accum e.0 k then some e.1 else cached k cache

-- `New`: a batch size that is not positive is replaced
unfoldable pub batch_size : ℤ → ℕ
batch_size n = if leb_ℤ n (pos 0) then 2000 else pos_part n

abbrev pub is_cumulative : {D : Type 0} → RateRecord D → Bool
is_cumulative rate = elim rate.tiers [ [] ↦ false | t ∷ ts ↦ str_eq rate.tier_mode "cumulative" ]

module _ {D : Type 0} {dec : Decimals D} (col : Columns dec) where
  abbrev pub cost_entry : MeteringEntry → ℕ → D → String → CostEntry D
  cost_entry me rate_id cost currency = record {
    id = 0;
    metering_entry_id = me.id;
    rate_id = rate_id;
    tenant_id = me.tenant_id;
    project_id = me.project_id;
    user_id = me.user_id;
    resource_type = me.resource_type;
    resource_id = me.resource_id;
    meter_name = me.meter_name;
    metered_value = me.value;
    cost_amount = cost;
    currency = currency;
    period_start = me.period_start;
    period_end = me.period_end;
    wallet_applied = dec.zero;
  }

  -- what the engine is asked about an entry
  abbrev pub pricing_input : Store D → MeteringEntry → PricingInput
  pricing_input s me = record {
    instance_type = elim (get_compute_instance s me.resource_id) [
      | none ↦ ""
      | some inst ↦ inst.instance_type
    ];
    tenant_tier = elim (get_compute_instance s me.resource_id) [
      | none ↦ ""
      | some _ ↦ tenant_tier s me.tenant_id
    ];
    tenant_id = me.tenant_id;
    resource_type = me.resource_type;
    meter_name = me.meter_name;
    value = me.value;
  }

  unfoldable pub try_rule_engine : Rules → Store D → MeteringEntry → Option (CostEntry D)
  try_rule_engine none s me = none
  try_rule_engine (some evaluate) s me =
      if not (str_eq me.resource_type "compute_instance")
        || not (str_eq me.meter_name "vm_uptime_seconds")
      then none
      else elim (evaluate (pricing_input s me)) [
        | none ↦ none
        | some output ↦
            some (cost_entry me 0 (dec.new_from_float output.cost_amount) output.currency)
      ]

  abbrev pub accum_key : RateRecord D → MeteringEntry → AccumKey
  accum_key rate me = record {
    tenant = me.tenant_id;
    meter = me.meter_name;
    period = period_label (period_of rate.tier_period) me.period_end;
  }

  -- the usage of the tier's window before the entry: the cache's, or the store's
  abbrev pub prior_usage : Option ℤ → Store D → MeteringEntry → Window → ℤ
  prior_usage (some prior) s me window = prior
  prior_usage none s me (from, to) = metering_sum_before s me.tenant_id me.meter_name from to me.id

  -- the cost under a cumulative rate, and the cache after it
  unfoldable pub cumulative_cost :
      Store D
      → UsageCache
      → MeteringEntry
      → RateRecord D
      → Result PeriodError Window
      → D × UsageCache
  cumulative_cost s cache me rate (err _) = (apply_rate dec me.value rate, cache)
  cumulative_cost s cache me rate (ok window) =
      let key = accum_key rate me in
      let prior = prior_usage (cached key cache) s me window in
      (apply_rate_cumulative dec me.value prior rate, (key, prior +ℤ me.value) ∷ cache)

  unfoldable pub cost_of : Store D → UsageCache → MeteringEntry → RateRecord D → D × UsageCache
  cost_of s cache me rate =
      if is_cumulative rate
      then cumulative_cost s cache me rate
          (resolve_period (period_of rate.tier_period) me.period_end)
      else (apply_rate dec me.value rate, cache)

  -- one round of the loop over a batch: the cost entry, if there is one, and the cache after it
  unfoldable pub rate_entry :
      Rules → RateIndex D → Store D → UsageCache → MeteringEntry → List (CostEntry D) × UsageCache
  rate_entry rules idx s cache me = elim (try_rule_engine rules s me) [
    | some ce ↦ (ce ∷ [], cache)
    | none ↦ elim (match_rate idx me.tenant_id me.instance_type me.resource_type me.meter_name) [
      | none ↦ ([], cache)
      | some rate ↦
          let (cost, cache') = cost_of s cache me rate in
          (cost_entry me rate.id cost rate.currency ∷ [], cache')
    ]
  ]

  -- the cost entries of a batch, and the ids that are marked as rated
  unfoldable pub rate_entries :
      Rules → RateIndex D → Store D → UsageCache → List MeteringEntry → List (CostEntry D) × List ℕ
  rate_entries rules idx s cache [] = ([], [])
  rate_entries rules idx s cache (me ∷ rest) =
      let (costs, cache') = rate_entry rules idx s cache me in
      let (more, ids) = rate_entries rules idx s cache' rest in (costs ++ more, me.id ∷ ids)

  unfoldable pub rate_batch : Rules → RateIndex D → List MeteringEntry → Store D → Store D
  unfolding rate_entries
  rate_batch rules idx entries s =
      let (costs, ids) = rate_entries rules idx s [] entries in
      mark_metering_entries_rated ids (insert_cost_entry_batch col costs s)

  -- the loop over the batches, on fuel
  unfoldable pub rate_batches : ℕ → ℕ → Rules → RateIndex D → Store D → Store D
  rate_batches zero batch rules idx s = s
  rate_batches (suc fuel) batch rules idx s =
      let entries = unrated_metering_entries s batch in
      let s' = rate_batch rules idx entries s in
      let rest = rate_batches fuel batch rules idx s' in
      if length entries == 0 then s else if ltb (length entries) batch then s' else rest

  -- a batch rates an entry at least, so there are no more batches than entries
  unfoldable pub rate_queue : ℕ → Rules → ℕ → Store D → Store D
  rate_queue batch rules now s =
      rate_batches (suc (length s.metering_entries)) batch rules
        (build_rate_index (all_active_rates s now)) s

  -- the rates are those in effect at `now`; the thresholds are evaluated when the queue is empty
  unfoldable pub sweep : ℕ → Rules → ℕ → ℕ → Store D → Store D
  sweep batch rules now later s =
      deduct_wallets col (evaluate_thresholds col later (rate_queue batch rules now s))
