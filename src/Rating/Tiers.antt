-- ===== src/Rating/Tiers.antt =====
-- `ApplyRate`, `ApplyRateCumulative` and the tier waterfall under them.
pub mod Waterfall
pub mod Marginal
use cost_ai_grid_poc.Prelude.{Option, none, some, List, [], ◌∷◌, if◌then◌else◌}
use cost_ai_grid_poc.Prelude.Int.{ℤ, pos, ◌+ℤ◌, ◌-ℤ◌, ltb_ℤ, leb_ℤ}
use cost_ai_grid_poc.Decimal.{Decimals}
use cost_ai_grid_poc.Models.{Tier, RateRecord}

-- the size of a tier that starts at `prev`; an unbounded one takes all that remains
abbrev pub tier_size : Option ℤ → ℤ → ℤ → ℤ
tier_size none remaining prev = remaining
tier_size (some bound) remaining prev = bound -ℤ prev

-- where the next tier starts
abbrev pub tier_end : Option ℤ → ℤ → ℤ
tier_end none prev = prev
tier_end (some bound) prev = bound

-- what a tier of this size takes of what remains
abbrev pub consumed_of : ℤ → ℤ → ℤ
consumed_of size remaining = if ltb_ℤ remaining size then remaining else size

module _ {D : Type 0} (dec : Decimals D) where
  open dec use {zero, add, sub, mul, new_from_float}

  -- the loop of `applyTieredRate`, over `cost`, `remaining` and `prev`
  unfoldable pub tier_loop : D → ℤ → ℤ → List (Tier D) → D
  tier_loop cost remaining prev [] = cost
  tier_loop cost remaining prev (tier ∷ tiers) =
      let consumed = consumed_of (tier_size tier.up_to remaining prev) remaining in
      let rest =
        tier_loop (add cost (mul (new_from_float consumed) tier.price_per_unit))
          (remaining -ℤ consumed) (tier_end tier.up_to prev) tiers in
      if leb_ℤ remaining (pos 0) then cost else rest

  unfoldable pub apply_tiered_rate : ℤ → List (Tier D) → D
  apply_tiered_rate value tiers = tier_loop zero value (pos 0) tiers

  unfoldable pub apply_rate : ℤ → RateRecord D → D
  apply_rate value rate = elim rate.tiers [
    | [] ↦ mul (new_from_float value) rate.price_per_unit
    | t ∷ ts ↦ apply_tiered_rate value (t ∷ ts)
  ]

  unfoldable pub apply_tiered_rate_cumulative : ℤ → ℤ → List (Tier D) → D
  apply_tiered_rate_cumulative value prior_usage tiers =
      sub (apply_tiered_rate (prior_usage +ℤ value) tiers) (apply_tiered_rate prior_usage tiers)

  unfoldable pub apply_rate_cumulative : ℤ → ℤ → RateRecord D → D
  apply_rate_cumulative value prior_usage rate = elim rate.tiers [
    | [] ↦ mul (new_from_float value) rate.price_per_unit
    | t ∷ ts ↦ apply_tiered_rate_cumulative value prior_usage (t ∷ ts)
  ]
