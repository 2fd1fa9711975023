-- ===== src/Rating/Tiers/Waterfall.antt =====
-- The waterfall charges each unit of usage once, at the price of the tier that it falls into.
use cost_ai_grid_poc.Prelude.{
  ◌≡◌, refl, sym, ap, ◌∙◌, inl, inr, true, false, Option, none, some, List, [], ◌∷◌, arith,
  if◌then◌else◌, Bool-cases, Option-cases,
}
use cost_ai_grid_poc.Prelude.Int.{
  ℤ, pos, ◌+ℤ◌, ◌-ℤ◌, ◌≤ℤ◌, ltb_ℤ, leb_ℤ, int_laws, parts_of_eq, leb_ℤ→le, leb_ℤ→gt, ltb_ℤ→lt,
  ltb_ℤ→ge,
}
use cost_ai_grid_poc.Decimal.{Decimals}
use cost_ai_grid_poc.Models.{Tier}
use cost_ai_grid_poc.Rating.Tiers.{tier_size, tier_end, consumed_of, tier_loop, apply_tiered_rate}

-- the usage beyond the bound `a`
unfoldable pub over : ℤ → ℤ → ℤ
over x a = if leb_ℤ a x then x -ℤ a else pos 0

pub over_above : (x a : ℤ) → a ≤ℤ x → over x a ≡ x -ℤ a
unfolding over
over_above x a h = ground arith

pub over_below : (x a : ℤ) → x ≤ℤ a → over x a ≡ pos 0
unfolding over
over_below x a h = elim (Bool-cases (leb_ℤ a x)) [
  | inl e ↦ rw e (omega (int_laws, leb_ℤ→le a x e))
  | inr e ↦ rw e
]

module _ {D : Type 0} (dec : Decimals D) where
  open dec use {amount, add, mul, new_from_float, amount-add, mul-add}

  -- what `v` units cost at a price
  abbrev pub charge : ℤ → D → ℤ
  charge v price = amount (mul (new_from_float v) price)

  -- What the usage from `prev` to `x` costs: each tier has the part of it that lies in the tier.
  pub filled : ℤ → ℤ → List (Tier D) → ℤ
  filled x prev [] = pos 0
  filled x prev (t ∷ ts) = elim t.up_to [
    | none ↦ charge (over x prev) t.price_per_unit
    | some b ↦ charge (over x prev -ℤ over x b) t.price_per_unit +ℤ filled x b ts
  ]

-- The bounds do not fall, up to the first tier with no bound.
abbrev pub IsAscending : {D : Type 0} → ℤ → List (Tier D) → Type 0
IsAscending prev [] = Unit
IsAscending prev (t ∷ ts) = elim t.up_to [ none ↦ Unit | some b ↦ (prev ≤ℤ b) × IsAscending b ts ]

sub_zero : pos 0 -ℤ pos 0 ≡ pos 0
unfolding ◌-ℤ◌
sub_zero = refl

add_zero : pos 0 +ℤ pos 0 ≡ pos 0
unfolding ◌+ℤ◌
add_zero = refl

zero_add : (a : ℤ) → pos 0 +ℤ a ≡ a
zero_add a = omega int_laws

add_sub : (a b : ℤ) → a +ℤ b -ℤ a ≡ b
add_sub a b = omega int_laws

nothing_left : (a : ℤ) → leb_ℤ (a -ℤ a) (pos 0) ≡ true
unfolding ◌-ℤ◌
nothing_left a = ground arith

consumed_all : (remaining : ℤ) → consumed_of remaining remaining ≡ remaining
consumed_all remaining = ground arith

module _ {D : Type 0} (dec : Decimals D) where
  open dec use {amount, add, mul, new_from_float, amount-add, mul-add}

  pub charge-zero : (p : D) → charge dec (pos 0) p ≡ pos 0
  unfolding ◌+ℤ◌
  charge-zero p = omega (int_laws, parts_of_eq (mul-add (pos 0) (pos 0) p))

  pub filled-nil : (x prev : ℤ) → filled dec x prev [] ≡ pos 0
  unfolding filled
  filled-nil x prev = refl

  pub filled-none :
      (x prev : ℤ) (t : Tier D) (ts : List (Tier D))
      → t.up_to ≡ none
      → filled dec x prev (t ∷ ts) ≡ charge dec (over x prev) t.price_per_unit
  unfolding filled
  filled-none x prev t ts e = rw e

  pub filled-some :
      (x prev b : ℤ) (t : Tier D) (ts : List (Tier D))
      → t.up_to ≡ some b
      → filled dec x prev (t ∷ ts)
        ≡ charge dec (over x prev -ℤ over x b) t.price_per_unit +ℤ filled dec x b ts
  unfolding filled
  filled-some x prev b t ts e = rw e

  filled_below :
      (x prev : ℤ) (ts : List (Tier D))
      → IsAscending prev ts
      → x ≤ℤ prev
      → filled dec x prev ts ≡ pos 0
  unfolding filled
  filled_below x prev [] asc h = refl
  filled_below x prev (t ∷ ts) asc h = elim (Option-cases t.up_to) [
    | inl e ↦ filled-none x prev t ts e ∙ rw (over_below x prev h) (charge-zero t.price_per_unit)
    | inr (b, e) ↦
        let (le, up) = rw e at asc in
        let rest : filled dec x b ts ≡ pos 0 = filled_below x b ts up (omega arith) in
        filled-some x prev b t ts e
        ∙ rw (over_below x prev h, over_below x b (omega arith), rest, sub_zero)
            (rw (charge-zero t.price_per_unit) add_zero)
  ]

  tier_loop_done :
      (cost : D) (remaining prev : ℤ) (ts : List (Tier D))
      → leb_ℤ remaining (pos 0) ≡ true
      → tier_loop dec cost remaining prev ts ≡ cost
  unfolding tier_loop
  tier_loop_done cost remaining prev [] h = refl
  tier_loop_done cost remaining prev (t ∷ ts) h = rw h

  tier_loop_more :
      (cost : D) (remaining prev : ℤ) (t : Tier D) (ts : List (Tier D)) (o : Option ℤ)
      → leb_ℤ remaining (pos 0) ≡ false
      → t.up_to ≡ o
      → let c = consumed_of (tier_size o remaining prev) remaining in
        tier_loop dec cost remaining prev (t ∷ ts)
        ≡ tier_loop dec
            (add cost (mul (new_from_float c) t.price_per_unit))
            (remaining -ℤ c)
            (tier_end o prev)
            ts
  unfolding tier_loop
  tier_loop_more cost remaining prev t ts o h e = rw (h, e)

  loop_ends :
      (cost : D) (remaining prev : ℤ) (ts : List (Tier D))
      → IsAscending prev ts
      → leb_ℤ remaining (pos 0) ≡ true
      → amount (tier_loop dec cost remaining prev ts)
        ≡ amount cost +ℤ filled dec (prev +ℤ remaining) prev ts
  loop_ends cost remaining prev ts asc h = rw (tier_loop_done cost remaining prev ts h) (
      rw
        (filled_below (prev +ℤ remaining) prev ts asc
          (omega (int_laws, leb_ℤ→le remaining (pos 0) h)))
        (omega int_laws))

  -- the usage that a bounded tier takes
  consumed_lem :
      (b prev remaining : ℤ)
      → prev ≤ℤ b
      → pos 0 ≤ℤ remaining
      → consumed_of (b -ℤ prev) remaining
        ≡ over (prev +ℤ remaining) prev -ℤ over (prev +ℤ remaining) b
  consumed_lem b prev remaining h r =
      rw (over_above (prev +ℤ remaining) prev (omega int_laws))
        (elim (Bool-cases (ltb_ℤ remaining (b -ℤ prev))) [
          | inl e ↦ rw e (
              rw
                (over_below (prev +ℤ remaining) b
                  (omega (int_laws, ltb_ℤ→lt remaining (b -ℤ prev) e)))
                (omega int_laws))
          | inr e ↦ rw e (
              rw
                (over_above (prev +ℤ remaining) b
                  (omega (int_laws, ltb_ℤ→ge remaining (b -ℤ prev) e)))
                (omega int_laws))
        ])

  filled_rest :
      (b prev remaining : ℤ) (ts : List (Tier D))
      → IsAscending b ts
      → filled dec (b +ℤ (remaining -ℤ consumed_of (b -ℤ prev) remaining)) b ts
        ≡ filled dec (prev +ℤ remaining) b ts
  filled_rest b prev remaining ts asc = elim (Bool-cases (ltb_ℤ remaining (b -ℤ prev))) [
    | inl e ↦ rw e (
        filled_below (b +ℤ (remaining -ℤ remaining)) b ts asc (omega int_laws)
        ∙ sym (
            filled_below (prev +ℤ remaining) b ts asc
              (omega (int_laws, ltb_ℤ→lt remaining (b -ℤ prev) e))))
    | inr e ↦ rw e (ap (λ x. filled dec x b ts) (omega int_laws))
  ]

  tier_loop_nil :
      (cost : D) (remaining prev : ℤ)
      → amount (tier_loop dec cost remaining prev [])
        ≡ amount cost +ℤ filled dec (prev +ℤ remaining) prev []
  unfolding tier_loop filled
  tier_loop_nil cost remaining prev = omega int_laws

  tier_loop_lem :
      (ts : List (Tier D)) (cost : D) (remaining prev : ℤ)
      → IsAscending prev ts
      → amount (tier_loop dec cost remaining prev ts)
        ≡ amount cost +ℤ filled dec (prev +ℤ remaining) prev ts
  tier_loop_lem [] cost remaining prev asc = tier_loop_nil cost remaining prev
  tier_loop_lem (t ∷ ts) cost remaining prev asc = elim (Bool-cases (leb_ℤ remaining (pos 0))) [
    | inl done ↦ loop_ends cost remaining prev (t ∷ ts) asc done
    | inr more ↦ elim (Option-cases t.up_to) [
      | inl e ↦
          rw (tier_loop_more cost remaining prev t ts none more e, consumed_all remaining)
            (rw (tier_loop_done _ (remaining -ℤ remaining) prev ts (nothing_left remaining)) (
              rw (amount-add, filled-none (prev +ℤ remaining) prev t ts e)
                (rw
                  (over_above (prev +ℤ remaining) prev
                    (omega (int_laws, leb_ℤ→gt remaining (pos 0) more)))
                  (rw (add_sub prev remaining)))))
      | inr (b, e) ↦
          let (le, up) = rw e at asc in
          rw (tier_loop_more cost remaining prev t ts (some b) more e) (
            tier_loop_lem ts _ (remaining -ℤ consumed_of (b -ℤ prev) remaining) b up
            ∙ rw
                (
                  filled_rest b prev remaining ts up,
                  amount-add,
                  filled-some (prev +ℤ remaining) prev b t ts e,
                )
                (rw
                  (consumed_lem b prev remaining le
                    (omega (arith, leb_ℤ→gt remaining (pos 0) more)))
                  (omega int_laws)))
    ]
  ]

  -- With ascending bounds the waterfall charges, for any value, the sum over the tiers of the price
  -- of what the usage has between the tier's bounds.
  pub apply_tiered_rate-filled :
      (value : ℤ) (ts : List (Tier D))
      → IsAscending (pos 0) ts
      → amount (apply_tiered_rate dec value ts) ≡ filled dec value (pos 0) ts
  unfolding apply_tiered_rate
  apply_tiered_rate-filled value ts asc =
      tier_loop_lem ts dec.zero value (pos 0) asc
      ∙ rw (dec.amount-zero, zero_add value) (omega int_laws)
