-- ===== src/Api/Status/Listed.antt =====
-- The lists behind the tenants with quotas and the alerts of a status.
use cost_ai_grid_poc.Prelude.{
  ℕ, ◌≤◌, ◌≡◌, refl, ap, ◌∙◌, inl, inr, String, Bool, true, false, ◌&&◌, ◌||◌, not, List, [], ◌∷◌,
  ◌++◌, str_eq, eq_iff, length, where_rows, any_row, Bool-cases, All, arith,
}
use cost_ai_grid_poc.Prelude.Int.{leb_ℤ}
use cost_ai_grid_poc.Models.{QuotaRecord, AlertRecord}
use cost_ai_grid_poc.Store.{
  in_effect, quota_tenants, same_label, same_amount, insert_by_threshold, order_by_threshold,
}
use cost_ai_grid_poc.Store.Wallets.{distinct}
use cost_ai_grid_poc.Rating.Thresholds.Fired.{Fired}

abbrev pub is_text : String → String → Bool
is_text k y = str_eq y k

kept_text :
    (k x : String) (ys : List String)
    → str_eq x k ≡ false
    → any_row (is_text k) (where_rows (λ y. not (str_eq y x)) ys) ≡ any_row (is_text k) ys
kept_text k x [] n = refl
kept_text k x (y ∷ ys) n = elim (Bool-cases (str_eq y x)) [
  | inl t ↦
      let o : str_eq y k ≡ false = ap (λ z. str_eq z k) ((eq_iff y x).0 t) ∙ n in
      rw (t, o) (kept_text k x ys n)
  | inr m ↦ rw m (ap (λ b. is_text k y || b) (kept_text k x ys n))
]

pub distinct-any :
    (k : String) (xs : List String) → any_row (is_text k) (distinct xs) ≡ any_row (is_text k) xs
distinct-any k [] = refl
distinct-any k (x ∷ xs) = elim (Bool-cases (str_eq x k)) [
  | inl t ↦ rw t refl
  | inr n ↦ rw n (kept_text k x (distinct xs) n ∙ distinct-any k xs)
]

-- a tenant with a quota in effect is among the tenants with quotas
pub tenant_listed :
    (k : String) (now : ℕ) (qs : List QuotaRecord)
    → 1
      ≤ length (
          where_rows
            (λ q. str_eq q.tenant_id k && in_effect q.effective_from q.effective_to now)
            qs)
    → any_row
        (is_text k)
        (quota_tenants (where_rows (λ q. in_effect q.effective_from q.effective_to now) qs))
      ≡ true
tenant_listed k now [] h = absurd (omega arith)
tenant_listed k now (q ∷ qs) h = elim (Bool-cases (in_effect q.effective_from q.effective_to now)) [
  | inl e ↦ elim (Bool-cases (str_eq q.tenant_id k)) [
    | inl t ↦ rw (e, t) refl
    | inr n ↦ rw (e, n) (tenant_listed k now qs (rw n at h))
  ]
  | inr e ↦ elim (Bool-cases (str_eq q.tenant_id k)) [
    | inl t ↦ rw e (tenant_listed k now qs (rw (t, e) at h))
    | inr n ↦ rw e (tenant_listed k now qs (rw n at h))
  ]
]

pub All-left : {A : Type 0} (P : A → Type 0) (xs ys : List A) → All P (xs ++ ys) → All P xs
All-left P [] ys h = tt
All-left P (x ∷ xs) ys h = (h.0, All-left P xs ys h.1)

pub All-right : {A : Type 0} (P : A → Type 0) (xs ys : List A) → All P (xs ++ ys) → All P ys
All-right P [] ys h = h
All-right P (x ∷ xs) ys h = All-right P xs ys h.1

insert-any :
    (p : AlertRecord → Bool) (a : AlertRecord) (bs : List AlertRecord)
    → any_row p (insert_by_threshold a bs) ≡ (p a || any_row p bs)
insert-any p a [] = refl
insert-any p a (b ∷ bs) = elim (Bool-cases (leb_ℤ a.threshold_pct b.threshold_pct)) [
  | inl t ↦ rw t refl
  | inr n ↦ rw n (ap (λ c. p b || c) (insert-any p a bs) ∙ swap (p b) (p a) (any_row p bs))
]
  where
    swap : (x y z : Bool) → (x || (y || z)) ≡ (y || (x || z))
    swap true true z = refl
    swap true false z = refl
    swap false y z = refl

pub order-any :
    (p : AlertRecord → Bool) (xs : List AlertRecord)
    → any_row p (order_by_threshold xs) ≡ any_row p xs
order-any p [] = refl
order-any p (x ∷ xs) = insert-any p x (order_by_threshold xs) ∙ ap (λ b. p x || b) (order-any p xs)

-- an alert that has fired is listed for its tenant, meter and period
pub alert_listed :
    (d : AlertRecord) (xs : List AlertRecord)
    → Fired xs d
    → any_row
        (λ a. same_amount a.threshold_pct d.threshold_pct)
        (where_rows
          (λ a.
            str_eq a.tenant_id d.tenant_id
            && str_eq a.meter_name d.meter_name
            && same_label a.period d.period)
          xs)
      ≡ true
alert_listed d [] h = absurd (cc h)
alert_listed d (x ∷ xs) h = elim (Bool-cases (str_eq x.tenant_id d.tenant_id)) [
  | inr n ↦ rw n (alert_listed d xs (rw n at h))
  | inl t ↦ elim (Bool-cases (str_eq x.meter_name d.meter_name)) [
    | inr n ↦ rw (t, n) (alert_listed d xs (rw (t, n) at h))
    | inl m ↦ elim (Bool-cases (same_label x.period d.period)) [
      | inr n ↦ rw (t, m, n) (alert_listed d xs (unlabelled x xs t m n h))
      | inl l ↦ elim (Bool-cases (same_amount x.threshold_pct d.threshold_pct)) [
        | inl a ↦ rw (t, m, l, a) refl
        | inr a ↦ let h' : Fired xs d = rw (t, m, a) at h in rw (t, m, l, a) (alert_listed d xs h')
      ]
    ]
  ]
]
  where
    unlabelled :
        (x : AlertRecord) (xs : List AlertRecord)
        → str_eq x.tenant_id d.tenant_id ≡ true
        → str_eq x.meter_name d.meter_name ≡ true
        → same_label x.period d.period ≡ false
        → Fired (x ∷ xs) d
        → Fired xs d
    unlabelled x xs t m n h = elim (Bool-cases (same_amount x.threshold_pct d.threshold_pct)) [
      | inl a ↦ rw (t, m, a, n) at h
      | inr a ↦ rw (t, m, a) at h
    ]
