-- ===== src/Api/Quotas/Overcommit.antt =====
-- A project quota that is created does not overcommit its tenant.
use mathlib.Core.Path.{subst}
use cost_ai_grid_poc.Prelude.{
  ℕ, ◌≡◌, refl, ap, ◌∙◌, ◌⊎◌, inl, inr, String, Bool, true, false, ◌&&◌, ◌||◌, not, none, List, [],
  ◌∷◌, ◌++◌, arith, str_eq, if◌then◌else◌, Result, ok, err, where_rows, Bool-cases,
}
use cost_ai_grid_poc.Prelude.Int.{ℤ, pos, ◌+ℤ◌, ◌≤ℤ◌, ltb_ℤ, leb_ℤ, int_laws, ltb_ℤ→ge, leb_ℤ→gt}
use cost_ai_grid_poc.Decimal.{is_zero_ℤ}
use cost_ai_grid_poc.Models.{QuotaRecord}
use cost_ai_grid_poc.Store.{
  Store, sum_of, not_ended, newest, limit_of, is_project_limit, is_tenant_limit, upsert_quota,
  project_limit_sum, tenant_quota_limit,
}
use cost_ai_grid_poc.Api.Errors.{ApiError, bad_request}
use cost_ai_grid_poc.Api.Quotas.{
  is_period, with_defaults, validate_project_overcommit, create_quota,
}

where_rows-skip :
    {A : Type 0} (p : A → Bool) (xs : List A) (x : A)
    → p x ≡ false
    → where_rows p (xs ++ x ∷ []) ≡ where_rows p xs
where_rows-skip p [] x h = rw h refl
where_rows-skip p (y ∷ ys) x h = elim (Bool-cases (p y)) [
  | inl t ↦ rw t (ap (λ zs. y ∷ zs) (where_rows-skip p ys x h))
  | inr n ↦ rw n (where_rows-skip p ys x h)
]

sum_where-last :
    {A : Type 0} (f : A → ℤ) (p : A → Bool) (xs : List A) (x : A)
    → sum_of f (where_rows p (xs ++ x ∷ []))
      ≡ sum_of f (where_rows p xs) +ℤ (if p x then f x else pos 0)
sum_where-last f p [] x = elim (Bool-cases (p x)) [
  | inl t ↦ rw t (omega int_laws)
  | inr n ↦ rw n (omega int_laws)
]
sum_where-last f p (y ∷ ys) x = elim (Bool-cases (p y)) [
  | inl t ↦ rw t (rw (sum_where-last f p ys x) (omega int_laws))
  | inr n ↦ rw n (sum_where-last f p ys x)
]

no_limit :
    (t m : String) (now : ℕ) (q : QuotaRecord)
    → str_eq q.project_id "" ≡ false
    → is_tenant_limit t m now q ≡ false
no_limit t m now q n =
    rw n (lost (str_eq q.tenant_id t && str_eq q.meter_name m) (not_ended q.effective_to now))
  where
    lost : (a b : Bool) → (a && false && b) ≡ false
    lost true b = refl
    lost false b = refl

at_most : (b : Bool) (u v : ℤ) → pos 0 ≤ℤ v → u +ℤ (if b then v else pos 0) ≤ℤ u +ℤ v
at_most true u v h = omega arith
at_most false u v h = omega int_laws

zero_lem : (a : ℤ) → is_zero_ℤ a ≡ true → a ≡ pos 0
zero_lem a z = ground arith

-- what follows a check that does not fail
passed :
    {A : Type 0} (b : Bool) (x : Result ApiError A) {a : A}
    → (if b then err bad_request else x) ≡ ok a
    → (b ≡ false) × (x ≡ ok a)
passed true x h = absurd (cc h)
passed false x h = (refl, h)

module _ {D : Type 0} where
  -- the tenant has no limit for the meter, or the limits of its projects are within it
  abbrev pub IsCommitted : ℕ → String → String → Store D → Type 0
  IsCommitted now tenant meter s =
      (tenant_quota_limit s tenant meter now ≡ pos 0)
      ⊎ (project_limit_sum s tenant meter 0 now ≤ℤ tenant_quota_limit s tenant meter now)

  limit_kept :
      (s : Store D) (q : QuotaRecord) (t m : String) (now : ℕ)
      → str_eq q.project_id "" ≡ false
      → tenant_quota_limit (upsert_quota q s).1 t m now ≡ tenant_quota_limit s t m now
  unfolding tenant_quota_limit upsert_quota
  limit_kept s q t m now n =
      let new : QuotaRecord = record q { id = s.next_quota_id } in
      ap (λ qs. limit_of (newest none qs))
        (where_rows-skip (is_tenant_limit t m now) s.quotas new (no_limit t m now new n))

  sum_grows :
      (s : Store D) (q : QuotaRecord) (t m : String) (now : ℕ)
      → pos 0 ≤ℤ q.limit_value
      → project_limit_sum (upsert_quota q s).1 t m 0 now
        ≤ℤ project_limit_sum s t m 0 now +ℤ q.limit_value
  unfolding project_limit_sum upsert_quota
  sum_grows s q t m now h =
      let new : QuotaRecord = record q { id = s.next_quota_id } in
      rw
        (sum_where-last (λ (r : QuotaRecord). r.limit_value) (is_project_limit t m 0 now) s.quotas
          new)
        (at_most (is_project_limit t m 0 now new)
          (sum_of (λ (r : QuotaRecord). r.limit_value)
            (where_rows (is_project_limit t m 0 now) s.quotas))
          q.limit_value h)

  -- a quota that passes the check fits
  fits :
      (s : Store D) (now : ℕ) (q : QuotaRecord)
      → validate_project_overcommit s now q 0 ≡ true
      → (tenant_quota_limit s q.tenant_id q.meter_name now ≡ pos 0)
        ⊎ (project_limit_sum s q.tenant_id q.meter_name 0 now +ℤ q.limit_value
            ≤ℤ tenant_quota_limit s q.tenant_id q.meter_name now)
  unfolding validate_project_overcommit
  fits s now q v =
      let limit = tenant_quota_limit s q.tenant_id q.meter_name now in
      let total = project_limit_sum s q.tenant_id q.meter_name 0 now +ℤ q.limit_value in
      elim (Bool-cases (is_zero_ℤ limit)) [
        | inl z ↦ inl (zero_lem limit z)
        | inr n ↦
            let e : not (ltb_ℤ limit total) ≡ true = rw n at v in
            inr (ltb_ℤ→ge limit total (ground arith))
      ]

  accepted :
      (now : ℕ) (q : QuotaRecord) (s : Store D) {r : QuotaRecord} {s' : Store D}
      → create_quota now q s ≡ ok (r, s')
      → str_eq q.project_id "" ≡ false
      → (leb_ℤ q.limit_value (pos 0) ≡ false)
        × (validate_project_overcommit s now (with_defaults now q) 0 ≡ true)
        × ((upsert_quota (with_defaults now q) s).1 ≡ s')
  unfolding create_quota
  accepted now q s {r} {s'} h p =
      let (_, h1) =
        passed (str_eq q.tenant_id "" || str_eq q.meter_name "" || str_eq q.unit "") _ h in
      let (l, h2) = passed (leb_ℤ q.limit_value (pos 0)) _ h1 in
      let (_, h3) = passed (not (is_period (with_defaults now q).period now)) _ h2 in
      let (v, h4) =
        passed
          (not (str_eq q.project_id "")
            && not (validate_project_overcommit s now (with_defaults now q) 0))
          _ h3 in
      let v' : not (validate_project_overcommit s now (with_defaults now q) 0) ≡ false =
        rw p at v in
      (l, ground arith, cc h4)

  -- After a project quota is created, the tenant has no limit for the meter, or the limits of its
  -- projects for the meter are together within it.
  pub create_quota-IsCommitted :
      (now : ℕ) (q : QuotaRecord) (s : Store D) {r : QuotaRecord} {s' : Store D}
      → create_quota now q s ≡ ok (r, s')
      → str_eq q.project_id "" ≡ false
      → IsCommitted now q.tenant_id q.meter_name s'
  create_quota-IsCommitted now q s h p =
      let (l, v, e) = accepted now q s h p in
      let q' = with_defaults now q in
      subst (IsCommitted now q.tenant_id q.meter_name) e (elim (fits s now q' v) [
        | inl z ↦ inl (limit_kept s q' q.tenant_id q.meter_name now p ∙ z)
        | inr f ↦ inr (
            rw (limit_kept s q' q.tenant_id q.meter_name now p) (
              omega (
                arith,
                f,
                sum_grows s q' q.tenant_id q.meter_name now
                    (omega (arith, leb_ℤ→gt q.limit_value (pos 0) l)),
              )))
      ])
