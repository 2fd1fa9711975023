-- ===== src/Rating/Index/Preferred.antt =====
-- What the index of the rates finds, in terms of the list of rates.
use cost_ai_grid_poc.Prelude.{
  ◌≡◌, refl, sym, ap, ◌∙◌, inl, inr, String, Bool, true, false, ◌&&◌, Option, none, some, List, [],
  ◌∷◌, ◌++◌, str_eq, eq_iff, if◌then◌else◌, any_row, find_row, arith, Bool-cases,
}
use cost_ai_grid_poc.Models.{RateRecord}
use cost_ai_grid_poc.Rating.Index.{
  RateKey, RateIndex, same_key, key_of, lookup, index_rates, build_rate_index, match_rate, or_else,
}

both : (a b : Bool) → (a && b) ≡ true → (a ≡ true) × (b ≡ true)
both a b h = ground arith

same_fields :
    (k l : RateKey)
    → same_key k l ≡ true
    → (k.tenant ≡ l.tenant)
      × (k.instance_type ≡ l.instance_type)
      × (k.resource_type ≡ l.resource_type)
      × (k.meter_name ≡ l.meter_name)
same_fields k l h =
    let (h2, m) =
      both
        (str_eq k.tenant l.tenant
          && str_eq k.instance_type l.instance_type
          && str_eq k.resource_type l.resource_type)
        (str_eq k.meter_name l.meter_name) h in
    let (h1, r) =
      both (str_eq k.tenant l.tenant && str_eq k.instance_type l.instance_type)
        (str_eq k.resource_type l.resource_type) h2 in
    let (t, i) = both (str_eq k.tenant l.tenant) (str_eq k.instance_type l.instance_type) h1 in
    ((eq_iff _ _).0 t, (eq_iff _ _).0 i, (eq_iff _ _).0 r, (eq_iff _ _).0 m)

same_key-eq : (k l m : RateKey) → same_key k l ≡ true → same_key k m ≡ same_key l m
same_key-eq k l m h = let (t, i, r, n) = same_fields k l h in rw (t, i, r, n) refl

abbrev pub key : String → String → String → String → RateKey
key t i resource_type meter_name = record {
  tenant = t;
  instance_type = i;
  resource_type = resource_type;
  meter_name = meter_name;
}

module _ {D : Type 0} where
  -- the first rate with a key
  abbrev pub first_rate : RateKey → List (RateRecord D) → Option (RateRecord D)
  first_rate k rates = find_row (λ r. same_key (key_of r) k) rates

  lookup-append :
      (k : RateKey) (idx : RateIndex D) (r : RateRecord D)
      → lookup k (idx ++ (key_of r, r) ∷ [])
        ≡ or_else (lookup k idx) (if same_key (key_of r) k then some r else none)
  lookup-append k [] r = elim (Bool-cases (same_key (key_of r) k)) [
    | inl t ↦ rw t refl
    | inr n ↦ rw n refl
  ]
  lookup-append k (e ∷ idx) r = elim (Bool-cases (same_key e.0 k)) [
    | inl t ↦ rw t refl
    | inr n ↦ rw n (lookup-append k idx r)
  ]

  lookup_present :
      (k l : RateKey) (idx : RateIndex D)
      → any_row (λ (e : RateKey × RateRecord D). same_key e.0 l) idx ≡ true
      → same_key l k ≡ true
      → (r : RateRecord D) × (lookup k idx ≡ some r)
  lookup_present k l [] h e = absurd (cc h)
  lookup_present k l (x ∷ idx) h e = elim (Bool-cases (same_key x.0 k)) [
    | inl t ↦ (x.1, rw t refl)
    | inr n ↦ elim (Bool-cases (same_key x.0 l)) [
      | inl t ↦ absurd (cc (same_key-eq x.0 l k t, n, e))
      | inr m ↦ rw n (lookup_present k l idx (rw m at h) e)
    ]
  ]

  or_else-none : (o : Option (RateRecord D)) → or_else o none ≡ o
  or_else-none none = refl
  or_else-none (some r) = refl

  lookup-index :
      (rates : List (RateRecord D)) (k : RateKey) (idx : RateIndex D)
      → lookup k (index_rates idx rates) ≡ or_else (lookup k idx) (first_rate k rates)
  unfolding index_rates
  lookup-index [] k idx = sym (or_else-none (lookup k idx))
  lookup-index (r ∷ rates) k idx =
      elim (Bool-cases (any_row (λ (e : RateKey × RateRecord D). same_key e.0 (key_of r)) idx)) [
        | inl t ↦ rw t (lookup-index rates k idx ∙ known t)
        | inr n ↦ rw n (
            lookup-index rates k (idx ++ (key_of r, r) ∷ [])
            ∙ ap (λ o. or_else o (first_rate k rates)) (lookup-append k idx r)
            ∙ added (lookup k idx) (same_key (key_of r) k))
      ]
    where
      known :
          any_row (λ (e : RateKey × RateRecord D). same_key e.0 (key_of r)) idx ≡ true
          → or_else (lookup k idx) (first_rate k rates)
            ≡ or_else (lookup k idx) (first_rate k (r ∷ rates))
      known t = elim (Bool-cases (same_key (key_of r) k)) [
        | inl e ↦ let (q, f) = lookup_present k (key_of r) idx t e in rw f refl
        | inr m ↦ rw m refl
      ]

      added :
          (o : Option (RateRecord D)) (b : Bool)
          → or_else (or_else o (if b then some r else none)) (first_rate k rates)
            ≡ or_else o (if b then some r else first_rate k rates)
      added none true = refl
      added none false = refl
      added (some q) b = refl

  -- The index finds the first rate of the list for the tenant and the instance type; failing that
  -- the first for the instance type and no tenant, then the first for the tenant and no instance
  -- type, then the first for neither, each of the resource type and the meter.
  pub match_rate-first :
      (rates : List (RateRecord D)) (t i rt m : String)
      → match_rate (build_rate_index rates) t i rt m
        ≡ or_else (first_rate (key t i rt m) rates) (
            or_else
              (first_rate (key "" i rt m) rates)
              (or_else (first_rate (key t "" rt m) rates) (first_rate (key "" "" rt m) rates)))
  unfolding match_rate build_rate_index
  match_rate-first rates t i rt m =
      rw
        (
          lookup-index rates (key t i rt m) [],
          lookup-index rates (key "" i rt m) [],
          lookup-index rates (key t "" rt m) [],
          lookup-index rates (key "" "" rt m) [],
        )
        refl
