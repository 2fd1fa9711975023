-- ===== src/Metering/Sweep.antt =====
-- The sweeps, the final metering of a resource that is deleted, and the metering of an event.
use cost_ai_grid_poc.Prelude.{
  ℕ, ◌-◌, String, not, Option, none, some, List, [], ◌∷◌, str_eq, leb, if◌then◌else◌,
}
use cost_ai_grid_poc.Models.{
  ComputeInstanceRecord, ClusterRecord, BareMetalInstanceRecord, InstanceTypeRecord,
}
use cost_ai_grid_poc.Store.{
  Store, default_project_for_tenant, insert_metering_entry, insert_metering_entry_batch,
  billable_compute_instances, update_compute_instance_last_metered, get_compute_instance,
  billable_clusters, update_cluster_last_metered, billable_bare_metal_instances,
  update_bare_metal_instance_last_metered, get_bare_metal_instance, list_all_instance_types,
}
use cost_ai_grid_poc.Metering.States.{
  is_compute_instance_billable, is_bare_metal_billable, is_model_billable,
}
use cost_ai_grid_poc.Metering.Meters.{
  compute_instance_meters, cluster_meters, bare_metal_meter, MaasUsage, usage_start, maas_meters,
}

-- where the next period of a resource starts
abbrev pub metered_until : ℕ → Option ℕ → ℕ
metered_until created_at none = created_at
metered_until created_at (some t) = t

module _ {D : Type 0} where
  unfoldable pub resolve_project : String → String → Store D → String × Store D
  resolve_project project tenant s =
      if not (str_eq project "") then (project, s) else default_project_for_tenant s tenant

  -- one round of the loop of `meterComputeInstances`
  unfoldable pub meter_compute_instance :
      List InstanceTypeRecord → ℕ → ComputeInstanceRecord → Store D → Store D
  meter_compute_instance types now inst s =
      let from = metered_until inst.created_at inst.last_metered_at in
      let (project, s1) = resolve_project inst.project inst.tenant s in
      if leb now from
      then s
      else update_compute_instance_last_metered inst.instance_id now (
          insert_metering_entry_batch
            (compute_instance_meters inst types project (now - from) from now) s1)

  unfoldable pub meter_each :
      List InstanceTypeRecord → ℕ → List ComputeInstanceRecord → Store D → Store D
  meter_each types now [] s = s
  meter_each types now (inst ∷ insts) s =
      meter_each types now insts (meter_compute_instance types now inst s)

  unfoldable pub meter_compute_instances : ℕ → Store D → Store D
  meter_compute_instances now s =
      meter_each (list_all_instance_types s) now (billable_compute_instances s) s

  -- `last_metered_at` is left as it is
  unfoldable pub meter_compute_instance_final : String → ℕ → Store D → Store D
  meter_compute_instance_final id deleted_at s = elim (get_compute_instance s id) [
    | none ↦ s
    | some inst ↦
        let from = metered_until inst.created_at inst.last_metered_at in
        let (project, s1) = resolve_project inst.project inst.tenant s in
        if not (is_compute_instance_billable inst.state)
        then s
        else if leb deleted_at from
        then s
        else insert_metering_entry_batch
            (compute_instance_meters inst (list_all_instance_types s1) project (deleted_at - from)
              from deleted_at)
            s1
  ]

  unfoldable pub meter_cluster : ℕ → ClusterRecord → Store D → Store D
  meter_cluster now cl s =
      let from = metered_until cl.created_at cl.last_metered_at in
      let (project, s1) = resolve_project "" cl.tenant s in
      if leb now from
      then s
      else update_cluster_last_metered cl.cluster_id now
          (insert_metering_entry_batch (cluster_meters cl project (now - from) from now) s1)

  unfoldable pub meter_each_cluster : ℕ → List ClusterRecord → Store D → Store D
  meter_each_cluster now [] s = s
  meter_each_cluster now (cl ∷ cls) s = meter_each_cluster now cls (meter_cluster now cl s)

  unfoldable pub meter_clusters : ℕ → Store D → Store D
  meter_clusters now s = meter_each_cluster now (billable_clusters s) s

  unfoldable pub meter_bare_metal_instance : ℕ → BareMetalInstanceRecord → Store D → Store D
  meter_bare_metal_instance now inst s =
      let from = metered_until inst.created_at inst.last_metered_at in
      let (project, s1) = resolve_project "" inst.tenant s in
      if leb now from
      then s
      else update_bare_metal_instance_last_metered inst.instance_id now (
          insert_metering_entry_batch (bare_metal_meter inst project (now - from) from now ∷ []) s1)

  unfoldable pub meter_each_bare_metal : ℕ → List BareMetalInstanceRecord → Store D → Store D
  meter_each_bare_metal now [] s = s
  meter_each_bare_metal now (inst ∷ insts) s =
      meter_each_bare_metal now insts (meter_bare_metal_instance now inst s)

  unfoldable pub meter_bare_metal_instances : ℕ → Store D → Store D
  meter_bare_metal_instances now s = meter_each_bare_metal now (billable_bare_metal_instances s) s

  unfoldable pub meter_bare_metal_instance_final : String → ℕ → Store D → Store D
  meter_bare_metal_instance_final id deleted_at s = elim (get_bare_metal_instance s id) [
    | none ↦ s
    | some inst ↦
        let from = metered_until inst.created_at inst.last_metered_at in
        let (project, s1) = resolve_project "" inst.tenant s in
        if not (is_bare_metal_billable inst.state)
        then s
        else if leb deleted_at from
        then s
        else insert_metering_entry
            (bare_metal_meter inst project (deleted_at - from) from deleted_at) s1
  ]

  unfoldable pub meter_sweep : ℕ → Store D → Store D
  meter_sweep now s =
      meter_bare_metal_instances now (meter_clusters now (meter_compute_instances now s))

  unfoldable pub meter_maas_event : MaasUsage → Store D → Store D
  meter_maas_event u s =
      let (project, s1) = resolve_project "" u.tenant_id s in
      if not (is_model_billable u.state)
      then s
      else insert_metering_entry_batch (maas_meters u project (usage_start u) u.event_time) s1
