-- ===== src/Metering/Meters.antt =====
-- The metering entries of a resource over a period.
use cost_ai_grid_poc.Prelude.{
  ℕ, String, ◌&&◌, not, Option, none, some, List, [], ◌∷◌, ◌++◌, str_eq, if◌then◌else◌,
}
use cost_ai_grid_poc.Prelude.Int.{ℤ, pos, ◌+ℤ◌, ◌*ℤ◌, ltb_ℤ}
use cost_ai_grid_poc.Decimal.{is_zero_ℤ}
use cost_ai_grid_poc.Calendar.{second, add_negated}
use cost_ai_grid_poc.Models.{
  ComputeInstanceRecord, ClusterRecord, BareMetalInstanceRecord, NodeSet, InstanceTypeRecord,
  MeteringEntry,
}

abbrev pub metering_entry :
    String → String → String → String → String → String → ℤ → String → ℕ → ℕ → MeteringEntry
metering_entry resource_type id tenant project instance_type meter value unit from to = record {
  id = 0;
  resource_type = resource_type;
  resource_id = id;
  tenant_id = tenant;
  project_id = project;
  user_id = "";
  instance_type = instance_type;
  meter_name = meter;
  value = value;
  unit = unit;
  period_start = from;
  period_end = to;
}

-- the entry of the map of instance types: the last one of the list with the id
abbrev pub type_of :
    Option InstanceTypeRecord → String → List InstanceTypeRecord → Option InstanceTypeRecord
type_of best id [] = best
type_of best id (t ∷ ts) = type_of (if str_eq t.instance_type_id id then some t else best) id ts

-- cores and memory, from the catalog when the instance has no cores
abbrev pub sizes : ComputeInstanceRecord → List InstanceTypeRecord → ℤ × ℤ
sizes inst types =
    if is_zero_ℤ inst.cores && not (str_eq inst.instance_type "")
    then elim (type_of none inst.instance_type types) [
      | none ↦ (inst.cores, inst.memory_gib)
      | some t ↦ (t.cores, t.memory_gib)
    ]
    else (inst.cores, inst.memory_gib)

unfoldable pub compute_instance_meters :
    ComputeInstanceRecord → List InstanceTypeRecord → String → ℕ → ℕ → ℕ → List MeteringEntry
compute_instance_meters inst types project duration from to =
    let (cores, memory) = sizes inst types in
    entry "vm_uptime_seconds" (pos duration) "seconds"
    ∷ entry "vm_cpu_core_seconds" (cores *ℤ pos duration) "core_seconds"
    ∷ entry "vm_memory_gib_seconds" (memory *ℤ pos duration) "gib_seconds"
    ∷ []
  where
    entry : String → ℤ → String → MeteringEntry
    entry meter value unit =
        metering_entry "compute_instance" inst.instance_id inst.tenant project inst.instance_type
          meter value unit from to

abbrev pub total_size : List NodeSet → ℤ
total_size [] = pos 0
total_size (n ∷ ns) = n.size +ℤ total_size ns

abbrev pub node_seconds : ℕ → List NodeSet → ℤ
node_seconds duration [] = pos 0
node_seconds duration (n ∷ ns) = n.size *ℤ pos duration +ℤ node_seconds duration ns

unfoldable pub cluster_meters : ClusterRecord → String → ℕ → ℕ → ℕ → List MeteringEntry
cluster_meters cl project duration from to =
    let nodes = total_size cl.node_sets in
    let seconds = node_seconds duration cl.node_sets in
    entry "cluster_uptime_seconds" (pos duration) "seconds"
    ∷ ((if ltb_ℤ (pos 0) seconds
          then entry "cluster_worker_node_seconds" seconds "node_seconds" ∷ []
          else [])
        ++ (if ltb_ℤ (pos 0) nodes
            then entry "cluster_worker_node_count" (nodes *ℤ pos second) "nodes" ∷ []
            else []))
  where
    entry : String → ℤ → String → MeteringEntry
    entry meter value unit =
        metering_entry "cluster" cl.cluster_id cl.tenant project "" meter value unit from to

abbrev pub bare_metal_meter : BareMetalInstanceRecord → String → ℕ → ℕ → ℕ → MeteringEntry
bare_metal_meter inst project duration from to =
    metering_entry "bare_metal" inst.instance_id inst.tenant project "" "bm_uptime_seconds"
      (pos duration) "seconds" from to

pub record MaasUsage : Type 0 where
  pub model_id : String
  pub tenant_id : String
  pub user_id : String
  pub state : String
  pub tokens_in : ℤ
  pub tokens_out : ℤ
  pub requests : ℤ
  pub event_time : ℕ
  pub duration_seconds : ℤ

-- `EventTime.Add(-time.Duration(DurationSeconds) * time.Second)`
unfoldable pub usage_start : MaasUsage → ℕ
unfolding add_negated
usage_start u = add_negated u.duration_seconds u.event_time

unfoldable pub maas_meters : MaasUsage → String → ℕ → ℕ → List MeteringEntry
maas_meters u project from to =
    metered "maas_tokens_in" u.tokens_in "tokens"
    ++ metered "maas_tokens_out" u.tokens_out "tokens"
    ++ metered "maas_requests" u.requests "requests"
  where
    metered : String → ℤ → String → List MeteringEntry
    metered meter value unit =
        if ltb_ℤ (pos 0) value
        then record (metering_entry "model" u.model_id u.tenant_id project "" meter
            (value *ℤ pos second) unit from to) { user_id = u.user_id }
          ∷ []
        else []
