-- ===== src/Api/Status/Entitlement.antt =====
-- The entitlement of a customer against the sums over its quotas.
use cost_ai_grid_poc.Prelude.{
  ℕ, ◌≡◌, refl, ap₂, ◌∙◌, ◌⊎◌, inl, inr, String, true, some, List, [], ◌∷◌, Bool-cases,
  Result-cases, Result, ok, err, arith,
}
use cost_ai_grid_poc.Prelude.Int.{ℤ, pos, ◌+ℤ◌, ◌-ℤ◌, ltb_ℤ, leb_ℤ, -ℤ_parts, int_laws}
use cost_ai_grid_poc.Billing.{Window, PeriodError, resolve_period}
use cost_ai_grid_poc.Models.{QuotaRecord}
use cost_ai_grid_poc.Store.{Store, sum_of, metering_sum, quotas_for_tenant}
use cost_ai_grid_poc.Rating.Thresholds.{period_of}
use cost_ai_grid_poc.Api.Status.{
  EntitlementValue, entitlement_totals, entitlement_of, get_entitlement_value,
}

-- The value of a limit and a use: the balance less the overage is the limit less the use, neither
-- is negative, one of them is 0, and there is access where the balance is positive.
abbrev pub IsEntitlement : ℤ → ℤ → EntitlementValue → Type 0
IsEntitlement limit usage v =
    (b : ℤ) × (v.balance ≡ some b)
    × (v.usage ≡ usage)
    × (b -ℤ v.overage ≡ limit -ℤ usage)
    × (leb_ℤ (pos 0) b ≡ true)
    × (leb_ℤ (pos 0) v.overage ≡ true)
    × ((b ≡ pos 0) ⊎ (v.overage ≡ pos 0))
    × (v.has_access ≡ ltb_ℤ (pos 0) b)

entitlement_of_lem : (limit usage : ℤ) → IsEntitlement limit usage (entitlement_of (limit, usage))
entitlement_of_lem limit usage = elim (Bool-cases (ltb_ℤ (limit -ℤ usage) (pos 0))) [
  | inl t ↦ rw t (
    pos 0,
    refl,
    refl,
    omega int_laws,
    refl,
    ground (arith, -ℤ_parts limit usage, -ℤ_parts (pos 0) (limit -ℤ usage)),
    inl refl,
    ground (arith, -ℤ_parts limit usage),
  )
  | inr n ↦ rw n (
    limit -ℤ usage,
    refl,
    refl,
    omega int_laws,
    ground (arith, -ℤ_parts limit usage),
    refl,
    inr refl,
    ground (arith, -ℤ_parts limit usage),
  )
]

module _ {D : Type 0} (s : Store D) (customer : String) (now : ℕ) where
  -- the limit of a quota and its use in the window of `now`, 0 where its period is none
  abbrev pub limit_in : Result PeriodError Window → QuotaRecord → ℤ
  limit_in (err _) q = pos 0
  limit_in (ok w) q = q.limit_value

  abbrev pub usage_in : Result PeriodError Window → QuotaRecord → ℤ
  usage_in (err _) q = pos 0
  usage_in (ok w) q = metering_sum s customer q.meter_name w.0 w.1

  abbrev pub limit_now : QuotaRecord → ℤ
  limit_now q = limit_in (resolve_period (period_of q.period) now) q

  abbrev pub usage_now : QuotaRecord → ℤ
  usage_now q = usage_in (resolve_period (period_of q.period) now) q

  more : (a b c : ℤ) → (a +ℤ b) +ℤ c ≡ a +ℤ (b +ℤ c)
  more a b c = omega int_laws

  same : (a b : ℤ) → a +ℤ b ≡ a +ℤ (pos 0 +ℤ b)
  same a b = omega int_laws

  totals_lem :
      (qs : List QuotaRecord) (l u : ℤ)
      → entitlement_totals s customer now qs (l, u)
        ≡ (l +ℤ sum_of limit_now qs, u +ℤ sum_of usage_now qs)
  unfolding entitlement_totals
  totals_lem [] l u =
      let zero_right : (a : ℤ) → a ≡ a +ℤ pos 0 = λ a. omega int_laws in
      ap₂ (λ a b. (a, b)) (zero_right l) (zero_right u)
  totals_lem (q ∷ qs) l u = elim (Result-cases (resolve_period (period_of q.period) now)) [
    | inl (w, m) ↦ rw m (
        totals_lem qs (l +ℤ q.limit_value) (u +ℤ metering_sum s customer q.meter_name w.0 w.1)
        ∙ ap₂ (λ a b. (a, b)) (more l _ _) (more u _ _))
    | inr (e, m) ↦ rw m (totals_lem qs l u ∙ ap₂ (λ a b. (a, b)) (same l _) (same u _))
  ]

  -- A customer that has a quota in effect is answered with an entitlement of the sum of the limits
  -- of its quotas in effect and the sum of their use, in the windows of now, the quotas left out
  -- whose period is none: the balance less the overage is what the limit has above the use, neither
  -- is negative, one of them is 0, and there is access if and only if the balance is positive.
  pub get_entitlement_value-IsEntitlement :
      {q : QuotaRecord} {qs : List QuotaRecord}
      → quotas_for_tenant s customer now ≡ q ∷ qs
      → IsEntitlement
          (sum_of limit_now (q ∷ qs))
          (sum_of usage_now (q ∷ qs))
          (get_entitlement_value now customer s)
  unfolding get_entitlement_value
  get_entitlement_value-IsEntitlement {q} {qs} e =
      let zero_left : (a : ℤ) → pos 0 +ℤ a ≡ a = λ a. omega int_laws in
      let t : entitlement_totals s customer now (q ∷ qs) (pos 0, pos 0)
          ≡ (sum_of limit_now (q ∷ qs), sum_of usage_now (q ∷ qs)) =
        totals_lem (q ∷ qs) (pos 0) (pos 0) ∙ ap₂ (λ a b. (a, b)) (zero_left _) (zero_left _) in
      rw (e, get_entitlement_value, t)
        (entitlement_of_lem (sum_of limit_now (q ∷ qs)) (sum_of usage_now (q ∷ qs)))
