-- ===== src/Metering/Once.antt =====
-- A sweep over the compute instances bills the time since the last one, once.
use cost_ai_grid_poc.Prelude.{
  ℕ, ◌-◌, ◌<◌, ◌≡◌, refl, ◌∙◌, inl, inr, Bool, true, false, ◌&&◌, some, List, [], ◌∷◌, arith,
  eq_refl, str_eq, leb, if◌then◌else◌, Bool-cases, find_row, any_row, All,
}
use cost_ai_grid_poc.Prelude.Int.{ℤ, pos, ◌+ℤ◌, int_laws, parts_of_eq}
use cost_ai_grid_poc.Prelude.Rows.{where_rows-All}
use cost_ai_grid_poc.Prelude.Keys.{
  string_key, has_key, IsKeyedBy, update_rows-IsKeyedBy, where_rows-IsKeyedBy, find_row-own,
  keyed_update, find_row-other, distinct_keys,
}
use cost_ai_grid_poc.Models.{ComputeInstanceRecord, InstanceTypeRecord}
use cost_ai_grid_poc.Store.{
  Store, billable_compute_instances, get_compute_instance, list_all_instance_types, is_null,
}
use cost_ai_grid_poc.Metering.Sweep.{
  metered_until, meter_compute_instance, meter_each, meter_compute_instances,
}
use cost_ai_grid_poc.Metering.Uptime.{
  uptime, id_of, IsMeteredOnce, AreMeteredOnce, since, metered, step_instances, step_uptime,
}

-- the uptime of an instance after its own round, and after another's
billed :
    (u : ℤ) (created from now : ℕ)
    → leb now from ≡ false
    → u +ℤ pos created ≡ pos from
    → u +ℤ pos (now - from) +ℤ pos created ≡ pos now
billed u created from now l h =
    let lt : from < now = ground arith in omega (int_laws, parts_of_eq h, lt)

unbilled :
    (u : ℤ) (created from : ℕ) → u +ℤ pos created ≡ pos from → u +ℤ pos 0 +ℤ pos created ≡ pos from
unbilled u created from h = omega (int_laws, parts_of_eq h)

module _ {D : Type 0} (types : List InstanceTypeRecord) (now : ℕ) where
  idle :
      (inst : ComputeInstanceRecord) (s : Store D)
      → leb now (since types now inst s) ≡ true
      → meter_compute_instance types now inst s ≡ s
  unfolding meter_compute_instance
  idle inst s t = rw t refl

  step-All :
      (inst : ComputeInstanceRecord) (s : Store D)
      → leb now (since types now inst s) ≡ false
      → get_compute_instance s inst.instance_id ≡ some inst
      → AreMeteredOnce s
      → AreMeteredOnce (meter_compute_instance types now inst s)
  unfolding get_compute_instance
  step-All inst s n g (k, m) =
      let s' = meter_compute_instance types now inst s in
      rw (step_instances types now inst s n) (
        update_rows-IsKeyedBy id_of (has_key id_of inst.instance_id) (metered types now inst s)
            s.compute_instances (λ x. refl) k,
        keyed_update id_of (IsMeteredOnce s) (IsMeteredOnce s') (has_key id_of inst.instance_id)
            (metered types now inst s) inst.instance_id s.compute_instances k g (λ x n. n) own other
            m,
      )
    where
      own :
          IsMeteredOnce s inst
          → IsMeteredOnce
              (meter_compute_instance types now inst s)
              (if has_key id_of inst.instance_id inst then metered types now inst s inst else inst)
      own h = rw (eq_refl inst.instance_id) (
          rw (step_uptime types now inst s inst.instance_id n, eq_refl inst.instance_id)
            (billed (uptime inst.instance_id s) inst.created_at (since types now inst s) now n h))

      other :
          (x : ComputeInstanceRecord)
          → has_key id_of inst.instance_id x ≡ false
          → IsMeteredOnce s x
          → IsMeteredOnce (meter_compute_instance types now inst s) x
      other x d h =
          rw
            (
              step_uptime types now inst s x.instance_id n,
              distinct_keys x.instance_id inst.instance_id d,
            )
            (unbilled (uptime x.instance_id s) x.created_at
              (metered_until x.created_at x.last_metered_at) h)

  -- one round, whether the time has come or not
  round-AreMeteredOnce :
      (inst : ComputeInstanceRecord) (s : Store D)
      → get_compute_instance s inst.instance_id ≡ some inst
      → AreMeteredOnce s
      → AreMeteredOnce (meter_compute_instance types now inst s)
  round-AreMeteredOnce inst s g m = elim (Bool-cases (leb now (since types now inst s))) [
    | inl t ↦ rw (idle inst s t) m
    | inr n ↦ step-All inst s n g m
  ]

  -- the round of one instance leaves the others in the table
  round_finds :
      (inst x : ComputeInstanceRecord) (s : Store D)
      → str_eq x.instance_id inst.instance_id ≡ false
      → get_compute_instance s x.instance_id ≡ some x
      → get_compute_instance (meter_compute_instance types now inst s) x.instance_id ≡ some x
  unfolding get_compute_instance
  round_finds inst x s d g = elim (Bool-cases (leb now (since types now inst s))) [
    | inl t ↦ rw (idle inst s t) g
    | inr n ↦ rw (step_instances types now inst s n) (
        find_row-other id_of x.instance_id inst.instance_id (metered types now inst s)
          s.compute_instances d (λ y. refl)
        ∙ g)
  ]

  -- every instance of a list is the one in the table
  abbrev AreFound : Store D → List ComputeInstanceRecord → Type 0
  AreFound s insts = All (λ i. get_compute_instance s i.instance_id ≡ some i) insts

  rest_found :
      (inst : ComputeInstanceRecord) (insts : List ComputeInstanceRecord) (s : Store D)
      → any_row (has_key id_of inst.instance_id) insts ≡ false
      → AreFound s insts
      → AreFound (meter_compute_instance types now inst s) insts
  rest_found inst [] s k f = tt
  rest_found inst (x ∷ xs) s k f = elim (Bool-cases (has_key id_of inst.instance_id x)) [
    | inl t ↦ let e : true ≡ false = rw t at k in absurd (cc e)
    | inr n ↦ (round_finds inst x s n f.0, rest_found inst xs s (rw n at k) f.1)
  ]

  each-AreMeteredOnce :
      (insts : List ComputeInstanceRecord) (s : Store D)
      → IsKeyedBy id_of insts
      → AreFound s insts
      → AreMeteredOnce s
      → AreMeteredOnce (meter_each types now insts s)
  unfolding meter_each
  each-AreMeteredOnce [] s k f m = m
  each-AreMeteredOnce (inst ∷ insts) s k f m =
      each-AreMeteredOnce insts (meter_compute_instance types now inst s) k.1
        (rest_found inst insts s k.0 f.1) (round-AreMeteredOnce inst s f.0 m)

billable_found :
    {D : Type 0} (s : Store D)
    → IsKeyedBy id_of s.compute_instances
    → IsKeyedBy id_of (billable_compute_instances s)
      × All (λ i. get_compute_instance s i.instance_id ≡ some i) (billable_compute_instances s)
unfolding billable_compute_instances get_compute_instance
billable_found s k =
    let p : ComputeInstanceRecord → Bool =
      λ r. is_null r.deleted_at && str_eq r.state "COMPUTE_INSTANCE_STATE_RUNNING" in
    (
      where_rows-IsKeyedBy id_of p s.compute_instances k,
      where_rows-All (λ i. find_row (has_key id_of i.instance_id) s.compute_instances ≡ some i) p
          s.compute_instances (find_row-own id_of s.compute_instances k),
    )

-- If no two compute instances have one id and the uptime billed for each is the time from its
-- creation to its last metering, it is so after a sweep: the sweep bills each instance the time since the last one,
-- once, and no other time, however the sweeps and their instants follow one another.
pub meter_compute_instances-AreMeteredOnce :
    {D : Type 0} (now : ℕ) (s : Store D)
    → AreMeteredOnce s
    → AreMeteredOnce (meter_compute_instances now s)
unfolding meter_compute_instances
meter_compute_instances-AreMeteredOnce now s m =
    let (k, f) = billable_found s m.0 in
    each-AreMeteredOnce (list_all_instance_types s) now (billable_compute_instances s) s k f m
