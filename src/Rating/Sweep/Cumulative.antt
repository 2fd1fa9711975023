-- ===== src/Rating/Sweep/Cumulative.antt =====
-- Cumulative tiers across a batch: the usage cache carries the position in the tiers from one
-- entry to the next.
use mathlib.Core.Path.{subst}
use cost_ai_grid_poc.Prelude.{
  ℕ, ◌≡◌, refl, sym, ap, ◌∙◌, true, none, some, List, [], ◌∷◌, eq_refl, ok, All,
}
use cost_ai_grid_poc.Prelude.Int.{ℤ, pos, ◌+ℤ◌, ◌-ℤ◌, int_laws, parts_of_eq}
use cost_ai_grid_poc.Decimal.{Decimals, Columns}
use cost_ai_grid_poc.Billing.{Window, resolve_period}
use cost_ai_grid_poc.Models.{MeteringEntry, RateRecord, CostEntry, Tier}
use cost_ai_grid_poc.Store.{Store, sum_of, metering_sum_before}
use cost_ai_grid_poc.Rating.Index.{RateIndex, match_rate}
use cost_ai_grid_poc.Rating.Tiers.{
  apply_tiered_rate, apply_tiered_rate_cumulative, apply_rate_cumulative,
}
use cost_ai_grid_poc.Rating.Thresholds.{period_of}
use cost_ai_grid_poc.Rating.Thresholds.Fired.{same_label_refl}
use cost_ai_grid_poc.Rating.Sweep.{
  AccumKey, same_accum, UsageCache, cached, is_cumulative, cost_entry, accum_key, try_rule_engine,
  prior_usage, cumulative_cost, cost_of, rate_entry, rate_entries,
}

same_accum_refl : (k : AccumKey) → same_accum k k ≡ true
same_accum_refl k = rw (eq_refl k.tenant, eq_refl k.meter, same_label_refl k.period) refl

-- the usage of a batch
abbrev pub total_of : List MeteringEntry → ℤ
total_of es = sum_of (λ (e : MeteringEntry). e.value) es

module _ {D : Type 0} {dec : Decimals D} (col : Columns dec) where
  open dec use {amount, amount-sub}

  -- the entry has the rate, whose tier window resolves at the end of the entry's period
  abbrev pub IsRated : RateIndex D → RateRecord D → MeteringEntry → Type 0
  IsRated idx rate me =
      (match_rate idx me.tenant_id me.instance_type me.resource_type me.meter_name ≡ some rate)
      × (w : Window) × (resolve_period (period_of rate.tier_period) me.period_end ≡ ok w)

  abbrev pub InRun : RateIndex D → RateRecord D → AccumKey → MeteringEntry → Type 0
  InRun idx rate k me = IsRated idx rate me × (accum_key col rate me ≡ k)

  cost_of_priced :
      (s : Store D) (cache : UsageCache) (me : MeteringEntry) (rate : RateRecord D) {w : Window}
      {prior : ℤ}
      → is_cumulative rate ≡ true
      → resolve_period (period_of rate.tier_period) me.period_end ≡ ok w
      → prior_usage col (cached (accum_key col rate me) cache) s me w ≡ prior
      → cost_of col s cache me rate ≡ (
        apply_rate_cumulative dec me.value prior rate,
        (accum_key col rate me, prior +ℤ me.value) ∷ cache,
      )
  unfolding cost_of cumulative_cost
  cost_of_priced s cache me rate c e p = rw (c, e, p) refl

  rate_entry_priced :
      (idx : RateIndex D) (s : Store D) (cache : UsageCache) (me : MeteringEntry)
      (rate : RateRecord D) {w : Window} {prior : ℤ}
      → is_cumulative rate ≡ true
      → match_rate idx me.tenant_id me.instance_type me.resource_type me.meter_name ≡ some rate
      → resolve_period (period_of rate.tier_period) me.period_end ≡ ok w
      → prior_usage col (cached (accum_key col rate me) cache) s me w ≡ prior
      → rate_entry col none idx s cache me ≡ (
        cost_entry col me rate.id (apply_rate_cumulative dec me.value prior rate) rate.currency
            ∷ [],
        (accum_key col rate me, prior +ℤ me.value) ∷ cache,
      )
  unfolding rate_entry try_rule_engine
  rate_entry_priced idx s cache me rate c m e p =
      rw (rate_entry, m, cost_of_priced s cache me rate c e p) refl

  priced_step :
      (value prior : ℤ) (rate : RateRecord D) {t : Tier D} {ts : List (Tier D)}
      → rate.tiers ≡ t ∷ ts
      → amount (apply_rate_cumulative dec value prior rate)
        ≡ amount (apply_tiered_rate dec (prior +ℤ value) rate.tiers)
          -ℤ amount (apply_tiered_rate dec prior rate.tiers)
  unfolding apply_rate_cumulative apply_tiered_rate_cumulative
  priced_step value prior rate {t} {ts} e = rw e (amount-sub _ _)

  telescope :
      (a b c : D) (x y : ℤ)
      → x ≡ amount b -ℤ amount a
      → y ≡ amount c -ℤ amount b
      → x +ℤ y ≡ amount c -ℤ amount a
  telescope a b c x y e f = omega (int_laws, parts_of_eq e, parts_of_eq f)

  -- the money of some cost entries
  abbrev pub charged : List (CostEntry D) → ℤ
  charged costs = sum_of (λ (c : CostEntry D). amount c.cost_amount) costs

  hit :
      (rate : RateRecord D) (k : AccumKey) (x : ℤ) (cache : UsageCache) (s : Store D)
      (me : MeteringEntry) (w : Window)
      → accum_key col rate me ≡ k
      → prior_usage col (cached (accum_key col rate me) ((k, x) ∷ cache)) s me w ≡ x
  hit rate k x cache s me w e =
      ap (λ j. prior_usage col (cached j ((k, x) ∷ cache)) s me w) e ∙ rw (same_accum_refl k) refl

  regroup : (p v r : ℤ) → p +ℤ v +ℤ r ≡ p +ℤ (v +ℤ r)
  regroup p v r = omega int_laws

  after_last :
      (p v : ℤ) (tiers : List (Tier D))
      → pos 0
        ≡ amount (apply_tiered_rate dec (p +ℤ (v +ℤ pos 0)) tiers)
          -ℤ amount (apply_tiered_rate dec (p +ℤ v) tiers)
  after_last p v tiers =
      let e : p +ℤ (v +ℤ pos 0) ≡ p +ℤ v = omega int_laws in rw e (omega int_laws)

  run_priced :
      (es : List MeteringEntry) (me : MeteringEntry) (idx : RateIndex D) (s : Store D)
      (cache : UsageCache) (rate : RateRecord D) {t : Tier D} {ts : List (Tier D)} {w : Window}
      {prior : ℤ}
      → is_cumulative rate ≡ true
      → rate.tiers ≡ t ∷ ts
      → match_rate idx me.tenant_id me.instance_type me.resource_type me.meter_name ≡ some rate
      → resolve_period (period_of rate.tier_period) me.period_end ≡ ok w
      → prior_usage col (cached (accum_key col rate me) cache) s me w ≡ prior
      → All (InRun idx rate (accum_key col rate me)) es
      → charged (rate_entries col none idx s cache (me ∷ es)).0
        ≡ amount (apply_tiered_rate dec (prior +ℤ total_of (me ∷ es)) rate.tiers)
          -ℤ amount (apply_tiered_rate dec prior rate.tiers)
  unfolding rate_entries
  run_priced [] me idx s cache rate {prior = prior} c q m e p h =
      rw (rate_entry_priced idx s cache me rate c m e p) (
        telescope (apply_tiered_rate dec prior rate.tiers)
          (apply_tiered_rate dec (prior +ℤ me.value) rate.tiers)
          (apply_tiered_rate dec (prior +ℤ (me.value +ℤ pos 0)) rate.tiers)
          (amount (apply_rate_cumulative dec me.value prior rate)) (pos 0)
          (priced_step me.value prior rate q) (after_last prior me.value rate.tiers))
  run_priced (me' ∷ es) me idx s cache rate {prior = prior} c q m e p (((m', w', e'), k), h) =
      let x = prior +ℤ me.value in
      let cache' : UsageCache = (accum_key col rate me, x) ∷ cache in
      let rest =
        run_priced es me' idx s cache' rate c q m' e'
          (hit rate (accum_key col rate me) x cache s me' w' k)
          (subst (λ j. All (InRun idx rate j) es) (sym k) h) in
      rw (rate_entry_priced idx s cache me rate c m e p) (
        telescope (apply_tiered_rate dec prior rate.tiers) (apply_tiered_rate dec x rate.tiers)
          (apply_tiered_rate dec (prior +ℤ (me.value +ℤ total_of (me' ∷ es))) rate.tiers)
          (amount (apply_rate_cumulative dec me.value prior rate))
          (charged (rate_entries col none idx s cache' (me' ∷ es)).0)
          (priced_step me.value prior rate q)
          (subst
            (λ z.
              charged (rate_entries col none idx s cache' (me' ∷ es)).0
              ≡ amount (apply_tiered_rate dec z rate.tiers)
                -ℤ amount (apply_tiered_rate dec x rate.tiers))
            (regroup prior me.value (total_of (me' ∷ es))) rest))

  -- Without pricing rules, a batch of entries that share a cumulative rate, the tenant, the meter and the window of its
  -- tiers is charged together what their total usage costs on top of the usage that the store has
  -- in the window from before the first of them, as if it had come in one entry.
  pub rate_entries-cumulative :
      (me : MeteringEntry) (es : List MeteringEntry) (idx : RateIndex D) (s : Store D)
      (rate : RateRecord D) {t : Tier D} {ts : List (Tier D)} {from to : ℕ}
      → is_cumulative rate ≡ true
      → rate.tiers ≡ t ∷ ts
      → match_rate idx me.tenant_id me.instance_type me.resource_type me.meter_name ≡ some rate
      → resolve_period (period_of rate.tier_period) me.period_end ≡ ok (from, to)
      → All (InRun idx rate (accum_key col rate me)) es
      → let prior = metering_sum_before s me.tenant_id me.meter_name from to me.id in
        charged (rate_entries col none idx s [] (me ∷ es)).0
        ≡ amount (apply_tiered_rate dec (prior +ℤ total_of (me ∷ es)) rate.tiers)
          -ℤ amount (apply_tiered_rate dec prior rate.tiers)
  rate_entries-cumulative me es idx s rate c q m e h = run_priced es me idx s [] rate c q m e refl h
