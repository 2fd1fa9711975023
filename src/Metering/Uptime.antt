-- ===== src/Metering/Uptime.antt =====
-- The uptime of the compute instances: the sweeps bill each instant of it once.
use cost_ai_grid_poc.Prelude.{
  ℕ, ◌-◌, ◌≡◌, refl, ap, ap₂, ◌∙◌, inl, inr, String, false, ◌&&◌, some, List, [], ◌∷◌, str_eq, leb,
  if◌then◌else◌, Bool-cases, Option-cases, find_row, update_rows, All,
}
use cost_ai_grid_poc.Prelude.Int.{ℤ, pos, ◌+ℤ◌, int_laws}
use cost_ai_grid_poc.Prelude.Keys.{string_key, has_key, IsKeyedBy}
use cost_ai_grid_poc.Models.{ComputeInstanceRecord, InstanceTypeRecord, MeteringEntry}
use cost_ai_grid_poc.Store.{
  Store, MeteringRow, sum_of, default_project_for_tenant, insert_metering_entry,
  insert_metering_entry_batch, update_compute_instance_last_metered,
}
use cost_ai_grid_poc.Store.Sums.{sum_of-last}
use cost_ai_grid_poc.Metering.Meters.{compute_instance_meters}
use cost_ai_grid_poc.Metering.Sweep.{metered_until, resolve_project, meter_compute_instance}

-- what an entry adds to the uptime of an instance
abbrev pub uptime_in : String → MeteringEntry → ℤ
uptime_in id e =
    if str_eq e.resource_id id
      && str_eq e.resource_type "compute_instance"
      && str_eq e.meter_name "vm_uptime_seconds"
    then e.value
    else pos 0

abbrev pub uptime : {D : Type 0} → String → Store D → ℤ
uptime id s = sum_of (λ (r : MeteringRow). uptime_in id r.entry) s.metering_entries

abbrev pub id_of : ComputeInstanceRecord → String
id_of inst = inst.instance_id

-- the uptime that is billed is the time from the creation to the last metering
abbrev pub IsMeteredOnce : {D : Type 0} → Store D → ComputeInstanceRecord → Type 0
IsMeteredOnce s inst =
    uptime inst.instance_id s +ℤ pos inst.created_at
    ≡ pos (metered_until inst.created_at inst.last_metered_at)

abbrev pub AreMeteredOnce : {D : Type 0} → Store D → Type 0
AreMeteredOnce s = IsKeyedBy id_of s.compute_instances × All (IsMeteredOnce s) s.compute_instances

pub meters_uptime :
    (inst : ComputeInstanceRecord) (types : List InstanceTypeRecord) (project id : String)
    (d from to : ℕ)
    → sum_of (uptime_in id) (compute_instance_meters inst types project d from to)
      ≡ (if str_eq inst.instance_id id then pos d else pos 0)
unfolding compute_instance_meters
meters_uptime inst types project id d from to = elim (Bool-cases (str_eq inst.instance_id id)) [
  | inl t ↦ rw t (omega int_laws)
  | inr n ↦ rw n (omega int_laws)
]

more_uptime : (a b c : ℤ) → a +ℤ b +ℤ c ≡ a +ℤ (b +ℤ c)
more_uptime a b c = omega int_laws

module _ {D : Type 0} where
  insert_one :
      (e : MeteringEntry) (id : String) (s : Store D)
      → uptime id (insert_metering_entry e s) ≡ uptime id s +ℤ uptime_in id e
  unfolding insert_metering_entry
  insert_one e id s = sum_of-last (λ (r : MeteringRow). uptime_in id r.entry) s.metering_entries _

  pub insert_uptime :
      (es : List MeteringEntry) (id : String) (s : Store D)
      → uptime id (insert_metering_entry_batch es s) ≡ uptime id s +ℤ sum_of (uptime_in id) es
  unfolding insert_metering_entry_batch
  insert_uptime [] id s = omega int_laws
  insert_uptime (e ∷ es) id s =
      insert_uptime es id (insert_metering_entry e s)
      ∙ ap (λ a. a +ℤ sum_of (uptime_in id) es) (insert_one e id s)
      ∙ more_uptime (uptime id s) (uptime_in id e) (sum_of (uptime_in id) es)

  pub insert_instances :
      (es : List MeteringEntry) (s : Store D)
      → (insert_metering_entry_batch es s).compute_instances ≡ s.compute_instances
  unfolding insert_metering_entry_batch insert_metering_entry
  insert_instances [] s = refl
  insert_instances (e ∷ es) s = insert_instances es (insert_metering_entry e s)

  default_keeps :
      (t : String) (s : Store D)
      → ((default_project_for_tenant s t).1.compute_instances ≡ s.compute_instances)
        × ((default_project_for_tenant s t).1.metering_entries ≡ s.metering_entries)
  unfolding default_project_for_tenant
  default_keeps t s = elim (Bool-cases (str_eq t "")) [
    | inl e ↦ rw e (refl, refl)
    | inr n ↦
        elim (Option-cases (find_row (λ (e : String × String). str_eq e.0 t) s.project_cache)) [
          | inl e ↦ rw (n, e) (refl, refl)
          | inr (p, e) ↦ rw (n, e) (refl, refl)
        ]
  ]

  pub resolve_keeps :
      (p t : String) (s : Store D)
      → ((resolve_project p t s).1.compute_instances ≡ s.compute_instances)
        × ((resolve_project p t s).1.metering_entries ≡ s.metering_entries)
  unfolding resolve_project
  resolve_keeps p t s = elim (Bool-cases (str_eq p "")) [
    | inl e ↦ rw e (default_keeps t s)
    | inr n ↦ rw n (refl, refl)
  ]

  module _ (types : List InstanceTypeRecord) (now : ℕ) (inst : ComputeInstanceRecord)
      (s : Store D) where
    abbrev pub since : ℕ
    since = metered_until inst.created_at inst.last_metered_at

    abbrev pub metered : ComputeInstanceRecord → ComputeInstanceRecord
    metered r = record r { last_metered_at = some now }

    pub step_instances :
        leb now since ≡ false
        → (meter_compute_instance types now inst s).compute_instances
          ≡ update_rows (has_key id_of inst.instance_id) metered s.compute_instances
    unfolding meter_compute_instance update_compute_instance_last_metered
    step_instances n =
        rw
          (
            n,
            insert_instances
                (compute_instance_meters inst types (resolve_project inst.project inst.tenant s).0
                  (now - since) since now)
                (resolve_project inst.project inst.tenant s).1,
            (resolve_keeps inst.project inst.tenant s).0,
          )
          refl

    pub step_uptime :
        (id : String)
        → leb now since ≡ false
        → uptime id (meter_compute_instance types now inst s)
          ≡ uptime id s +ℤ (if str_eq inst.instance_id id then pos (now - since) else pos 0)
    unfolding meter_compute_instance update_compute_instance_last_metered
    step_uptime id n =
        let (project, s1) = resolve_project inst.project inst.tenant s in
        rw n (
          insert_uptime (compute_instance_meters inst types project (now - since) since now) id s1
          ∙ ap₂ ◌+ℤ◌
              (ap (sum_of (λ (r : MeteringRow). uptime_in id r.entry))
                (resolve_keeps inst.project inst.tenant s).1)
              (meters_uptime inst types project id (now - since) since now))
