-- ===== src/Api/Events/Resources.antt =====
-- `processComputeInstanceEvent`, `processClusterEvent`, `processOSACComputeInstance` and
-- `processOSACClusterOrder`.
pub mod Heartbeats
use cost_ai_grid_poc.Prelude.{
  ℕ, suc, ◌+◌, ◌-◌, String, Bool, not, Option, none, some, List, [], ◌∷◌, ◌++◌, str_eq,
  if◌then◌else◌,
}
use cost_ai_grid_poc.Prelude.Int.{ℤ, pos, negsuc, ◌*ℤ◌, ltb_ℤ, leb_ℤ}
use cost_ai_grid_poc.Calendar.{second}
use cost_ai_grid_poc.Models.{ComputeInstanceRecord, ClusterRecord, MeteringEntry}
use cost_ai_grid_poc.Metering.{is_compute_instance_billable, is_cluster_billable}
use cost_ai_grid_poc.Metering.{metering_entry}
use cost_ai_grid_poc.Store.{
  Store, upsert_compute_instance, update_compute_instance_last_metered, upsert_cluster,
  update_cluster_last_metered, insert_metering_entry_batch,
}
use cost_ai_grid_poc.Api.Events.CloudEvents.{CloudEvent, EventError, failed}
use cost_ai_grid_poc.Api.Events.Validate.{first_text}
use cost_ai_grid_poc.Api.Events.Payloads.{
  MeteringData, vm_instance_type, cluster_template, ComputeInstanceEventData,
  compute_instance_event_data, ClusterEventData, cluster_event_data,
}

-- `ce.Time.Add(-time.Duration(seconds * float64(time.Second)))`; event times are far from year 1
abbrev pub before : ℕ → ℤ → ℕ
before time (pos d) = time - d
before time (negsuc d) = time + suc d

abbrev pub or_empty : Option String → String
or_empty none = ""
or_empty (some s) = s

abbrev pub heartbeat_instance : CloudEvent → ComputeInstanceEventData → ComputeInstanceRecord
heartbeat_instance ce d = record {
  instance_id = d.instance_id;
  name = "";
  tenant = d.tenant_id;
  project = "";
  cluster_id = "";
  instance_type = "";
  cores = d.cores;
  memory_gib = d.memory_gib;
  state = d.state;
  created_at = before ce.time d.duration_seconds;
  deleted_at = none;
  last_event_id = ce.id;
  last_metered_at = none;
}

abbrev pub heartbeat_entries : CloudEvent → ComputeInstanceEventData → List MeteringEntry
heartbeat_entries ce d =
    entry "vm_uptime_seconds" d.duration_seconds "seconds"
    ∷ entry "vm_cpu_core_seconds" (d.cpu_core_seconds *ℤ pos second) "core_seconds"
    ∷ entry "vm_memory_gib_seconds" (d.memory_gib_seconds *ℤ pos second) "gib_seconds"
    ∷ []
  where
    entry : String → ℤ → String → MeteringEntry
    entry meter value unit =
        metering_entry "compute_instance" d.instance_id d.tenant_id "" "" meter value unit
          (before ce.time d.duration_seconds) ce.time

abbrev pub cluster_entries : CloudEvent → ClusterEventData → List MeteringEntry
cluster_entries ce d =
    (if str_eq d.host_type "_control_plane"
      then entry "cluster_uptime_seconds" d.duration_seconds "seconds" ∷ []
      else [])
    ++ (if ltb_ℤ (pos 0) d.worker_node_seconds
        then entry "cluster_worker_node_seconds" (d.worker_node_seconds *ℤ pos second)
            "node_seconds"
          ∷ []
        else [])
  where
    entry : String → ℤ → String → MeteringEntry
    entry meter value unit =
        metering_entry "cluster" d.cluster_id d.tenant_id "" "" meter value unit
          (before ce.time d.duration_seconds) ce.time

-- the state that a lifecycle event gives its resource
abbrev pub state_of : CloudEvent → MeteringData → String
state_of ce md = if str_eq ce.type "osac.resource.deleted.v1" then "DELETING" else md.current_state

module _ {D : Type 0} where
  unfoldable pub process_compute_instance_event : CloudEvent → Store D → Option EventError × Store D
  process_compute_instance_event ce s = elim (compute_instance_event_data ce.payload) [
    | none ↦ (some failed, s)
    | some d ↦
        let s1 = upsert_compute_instance (heartbeat_instance ce d) s in
        let s2 = insert_metering_entry_batch (heartbeat_entries ce d) s1 in
        if not (is_compute_instance_billable d.state)
        then (none, s)
        else if leb_ℤ d.duration_seconds (pos 0)
        then (some failed, s)
        else (none, update_compute_instance_last_metered d.instance_id ce.time s2)
  ]

  unfoldable pub process_cluster_event : CloudEvent → Store D → Option EventError × Store D
  process_cluster_event ce s = elim (cluster_event_data ce.payload) [
    | none ↦ (some failed, s)
    | some d ↦
        let s1 = insert_metering_entry_batch (cluster_entries ce d) s in
        if not (is_cluster_billable d.state)
        then (none, s)
        else if leb_ℤ d.duration_seconds (pos 0)
        then (some failed, s)
        else (none, update_cluster_last_metered d.cluster_id ce.time s1)
  ]

  unfoldable pub process_osac_compute_instance :
      CloudEvent → MeteringData → Store D → Option EventError × Store D
  process_osac_compute_instance ce md s = (
    none,
    upsert_compute_instance
        (record {
          instance_id = md.resource_id;
          name = "";
          tenant = md.tenant_id;
          project = or_empty md.project_id;
          cluster_id = "";
          instance_type = vm_instance_type md.billing_dimensions;
          cores = pos 0;
          memory_gib = pos 0;
          state = state_of ce md;
          created_at = ce.time;
          deleted_at = none;
          last_event_id = ce.id;
          last_metered_at = none;
        })
        s,
  )

  unfoldable pub process_osac_cluster_order :
      CloudEvent → MeteringData → Store D → Option EventError × Store D
  process_osac_cluster_order ce md s = (
    none,
    upsert_cluster
        (record {
          cluster_id = md.resource_id;
          name = "";
          tenant = md.tenant_id;
          template = first_text (cluster_template md.billing_dimensions) (or_empty md.template_id);
          node_sets = [];
          state = state_of ce md;
          created_at = ce.time;
          deleted_at = none;
          last_event_id = ce.id;
          last_metered_at = none;
        })
        s,
  )
