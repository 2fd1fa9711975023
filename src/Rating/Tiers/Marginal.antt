-- ===== src/Rating/Tiers/Marginal.antt =====
-- Cumulative pricing charges the usage between the prior total and the new one.
use cost_ai_grid_poc.Prelude.{
  ◌+◌, ◌≤◌, ◌⊎◌, ◌≡◌, refl, sym, ap, ◌∙◌, inl, inr, Option, none, some, List, [], ◌∷◌, arith,
  if◌then◌else◌, Bool-cases, Option-cases, All,
}
use cost_ai_grid_poc.Prelude.Int.{
  ℤ, pos, pos_part, neg_part, ◌+ℤ◌, ◌-ℤ◌, ◌≤ℤ◌, leb_ℤ, int_laws, parts_of_eq, leb_ℤ→le, leb_ℤ→gt,
}
use cost_ai_grid_poc.Decimal.{Decimals}
use cost_ai_grid_poc.Models.{Tier}
use cost_ai_grid_poc.Rating.Tiers.{apply_tiered_rate_cumulative}
use cost_ai_grid_poc.Rating.Tiers.Waterfall.{
  over, charge, filled, filled-nil, filled-none, filled-some, IsAscending, apply_tiered_rate-filled,
}

abbrev pub min_ℤ : ℤ → ℤ → ℤ
min_ℤ a b = if leb_ℤ a b then a else b

abbrev pub max_ℤ : ℤ → ℤ → ℤ
max_ℤ a b = if leb_ℤ a b then b else a

-- the length of what the interval from `lo` to `hi` has above `a` and, if there is a bound, below it
pub overlap : ℤ → ℤ → ℤ → Option ℤ → ℤ
overlap lo hi a none = over hi (max_ℤ lo a)
overlap lo hi a (some b) = over (min_ℤ hi b) (max_ℤ lo a)

over_nonneg : (x a : ℤ) → pos 0 ≤ℤ over x a
unfolding over ◌-ℤ◌
over_nonneg x a = ground arith

-- `over` as arithmetic: the usage lies above the bound or it does not
over_cases :
    (x a : ℤ)
    → (pos_part a + neg_part x ≤ pos_part x + neg_part a)
        × (pos_part (over x a) + neg_part x + pos_part a
            ≡ neg_part (over x a) + pos_part x + neg_part a)
      ⊎ (pos_part x + neg_part a ≤ pos_part a + neg_part x)
        × (pos_part (over x a) + neg_part (over x a) ≡ 0)
unfolding over
over_cases x a = elim (Bool-cases (leb_ℤ a x)) [
  | inl e ↦ rw e (inl (leb_ℤ→le a x e, omega int_laws))
  | inr e ↦ rw e (inr (omega (arith, leb_ℤ→gt a x e), refl))
]

max_cases : (a b : ℤ) → (a ≤ℤ b) × (max_ℤ a b ≡ b) ⊎ (b ≤ℤ a) × (max_ℤ a b ≡ a)
max_cases a b = ground arith

min_cases : (a b : ℤ) → (a ≤ℤ b) × (min_ℤ a b ≡ a) ⊎ (b ≤ℤ a) × (min_ℤ a b ≡ b)
min_cases a b = ground arith

-- the two ways to measure, on one bound and on two
overlap-none : (lo hi a : ℤ) → lo ≤ℤ hi → overlap lo hi a none +ℤ over lo a ≡ over hi a
unfolding overlap
overlap-none lo hi a h = elim (max_cases lo a) [
  | inl (le, e) ↦ rw e (omega (int_laws, over_cases lo a, over_cases hi a))
  | inr (le, e) ↦ rw e (omega (int_laws, over_cases lo a, over_cases hi a, over_cases hi lo))
]

overlap-some :
    (lo hi a b : ℤ)
    → lo ≤ℤ hi
    → a ≤ℤ b
    → overlap lo hi a (some b) +ℤ (over lo a -ℤ over lo b) ≡ over hi a -ℤ over hi b
unfolding overlap
overlap-some lo hi a b h k = elim (max_cases lo a) [
  | inl (le, e) ↦ rw e (elim (min_cases hi b) [
    | inl (le', e') ↦ rw e' (omega (int_laws, over_cases))
    | inr (le', e') ↦ rw e' (omega (int_laws, over_cases))
  ])
  | inr (le, e) ↦ rw e (elim (min_cases hi b) [
    | inl (le', e') ↦ rw e' (omega (int_laws, over_cases))
    | inr (le', e') ↦ rw e' (omega (int_laws, over_cases))
  ])
]

overlap_nonneg : (lo hi a : ℤ) (o : Option ℤ) → pos 0 ≤ℤ overlap lo hi a o
unfolding overlap
overlap_nonneg lo hi a none = over_nonneg hi (max_ℤ lo a)
overlap_nonneg lo hi a (some b) = over_nonneg (min_ℤ hi b) (max_ℤ lo a)

sum_nonneg : (a b : ℤ) → pos 0 ≤ℤ a → pos 0 ≤ℤ b → pos 0 ≤ℤ a +ℤ b
sum_nonneg a b h k = omega int_laws

-- No price is below zero.
abbrev pub HasPrices : {D : Type 0} → Decimals D → List (Tier D) → Type 0
HasPrices dec ts = All (λ t. pos 0 ≤ℤ dec.amount t.price_per_unit) ts

module _ {D : Type 0} (dec : Decimals D) where
  open dec use {amount, sub, mul, new_from_float, amount-sub, mul-add, mul-nonneg}

  -- What the usage between `lo` and `hi` costs: each tier has the part of it that lies in the
  -- tier, at the tier's price.
  pub priced : ℤ → ℤ → ℤ → List (Tier D) → ℤ
  priced lo hi prev [] = pos 0
  priced lo hi prev (t ∷ ts) =
      charge dec (overlap lo hi prev t.up_to) t.price_per_unit
      +ℤ elim t.up_to [ none ↦ pos 0 | some b ↦ priced lo hi b ts ]

  -- Charges are linear in the usage.
  charge-diff : (u v w : ℤ) (p : D) → u +ℤ v ≡ w → charge dec u p +ℤ charge dec v p ≡ charge dec w p
  charge-diff u v w p e = sym (mul-add u v p) ∙ ap (λ x. charge dec x p) e

  priced-filled :
      (lo hi prev : ℤ) (ts : List (Tier D))
      → lo ≤ℤ hi
      → IsAscending prev ts
      → priced lo hi prev ts +ℤ filled dec lo prev ts ≡ filled dec hi prev ts
  unfolding priced
  priced-filled lo hi prev [] h asc =
      rw (filled-nil dec lo prev, filled-nil dec hi prev) (omega int_laws)
  priced-filled lo hi prev (t ∷ ts) h asc = elim (Option-cases t.up_to) [
    | inl e ↦
        let c =
          charge-diff (overlap lo hi prev none) (over lo prev) (over hi prev) t.price_per_unit
            (overlap-none lo hi prev h) in
        rw (filled-none dec lo prev t ts e, filled-none dec hi prev t ts e, e)
          (omega (int_laws, parts_of_eq c))
    | inr (b, e) ↦
        let (le, up) = rw e at asc in
        let c =
          charge-diff (overlap lo hi prev (some b)) (over lo prev -ℤ over lo b)
            (over hi prev -ℤ over hi b) t.price_per_unit (overlap-some lo hi prev b h le) in
        let rest = priced-filled lo hi b ts h up in
        rw (filled-some dec lo prev b t ts e, filled-some dec hi prev b t ts e, e)
          (omega (int_laws, parts_of_eq c, parts_of_eq rest))
  ]

  -- With ascending bounds and a value that is not negative, cumulative pricing charges the usage
  -- between the prior total and the new total tier by tier, each unit at the price of the tier that it falls into.
  pub apply_tiered_rate_cumulative-priced :
      (value prior : ℤ) (ts : List (Tier D))
      → pos 0 ≤ℤ value
      → IsAscending (pos 0) ts
      → amount (apply_tiered_rate_cumulative dec value prior ts)
        ≡ priced prior (prior +ℤ value) (pos 0) ts
  unfolding apply_tiered_rate_cumulative
  apply_tiered_rate_cumulative-priced value prior ts h asc =
      rw
        (
          amount-sub,
          apply_tiered_rate-filled dec (prior +ℤ value) ts asc,
          apply_tiered_rate-filled dec prior ts asc,
        )
        (omega (
          int_laws,
          parts_of_eq (priced-filled prior (prior +ℤ value) (pos 0) ts (omega int_laws) asc),
        ))

  priced_nonneg :
      (lo hi prev : ℤ) (ts : List (Tier D)) → HasPrices dec ts → pos 0 ≤ℤ priced lo hi prev ts
  unfolding priced
  priced_nonneg lo hi prev [] h = omega arith
  priced_nonneg lo hi prev (t ∷ ts) (p, h) =
      let c =
        mul-nonneg (overlap lo hi prev t.up_to) t.price_per_unit (overlap_nonneg lo hi prev t.up_to)
          p in
      sum_nonneg _ _ c (elim (Option-cases t.up_to) [
        | inl e ↦ rw e (omega arith)
        | inr (b, e) ↦ rw e (priced_nonneg lo hi b ts h)
      ])

  -- With ascending bounds and no negative price, more usage never costs less: the cumulative
  -- charge for a value that is not negative is not negative.
  pub apply_tiered_rate_cumulative_nonneg :
      (value prior : ℤ) (ts : List (Tier D))
      → pos 0 ≤ℤ value
      → IsAscending (pos 0) ts
      → HasPrices dec ts
      → pos 0 ≤ℤ amount (apply_tiered_rate_cumulative dec value prior ts)
  apply_tiered_rate_cumulative_nonneg value prior ts h asc prices =
      rw (apply_tiered_rate_cumulative-priced value prior ts h asc)
        (priced_nonneg prior (prior +ℤ value) (pos 0) ts prices)
