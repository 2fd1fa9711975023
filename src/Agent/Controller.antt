-- ===== src/Agent/Controller.antt =====
-- The events of the agent: kube-cost-agent/internal/controller/controller.go. An instant and a
-- duration are numbers of microseconds, a quantity of CPU is a number of thousandths. A map of an
-- event's data is a record of its members.
pub mod Handlers
pub mod Heartbeats
use text.Mathlib.Text.{starts_with}
use cost_ai_grid_poc.Prelude.{
  ℕ, ◌+◌, String, Bool, true, false, ◌&&◌, ◌||◌, not, Option, none, some, List, [], ◌∷◌, ◌++◌, map,
  str_eq, any_row, where_rows, find_row, ◌==◌, if◌then◌else◌,
}
use cost_ai_grid_poc.Prelude.Int.{ℤ, pos, ◌-ℤ◌}
use cost_ai_grid_poc.Agent.Kube.{
  member, Container, Pod, Node, PersistentVolumeClaim, Service, ServicePort, Ingress, Object, a_pod,
  a_node, a_claim, a_service, deleted_final_state_unknown, other_object,
}

-- The settings of a Controller, and what it calls of the Kubernetes library.
pub record Settings : Type 0 where
  pub cluster_id : String
  pub default_tenant : String
  pub exclude_namespaces : List String
  -- `Quantity.Value` of k8s.io/apimachinery: a quantity as a whole number
  pub quantity_value : ℕ → ℕ

pub record PodData : Type 0 where
  pub cluster_id : String
  pub tenant : String
  pub action : String
  pub namespace : String
  pub pod : String
  pub node : String
  pub cpu_request : ℕ
  pub cpu_limit : ℕ
  pub mem_request : ℕ
  pub mem_limit : ℕ
  pub gpu_count : ℕ
  pub qos : String
  pub owner_kind : String
  pub owner_name : String
  pub labels : List (String × String)

pub record HeartbeatData : Type 0 where
  pub cluster_id : String
  pub tenant : String
  pub namespace : String
  pub pod : String
  pub node : String
  pub cpu_request : ℕ
  pub memory_request : ℕ
  pub duration_seconds : ℤ

pub record NodeData : Type 0 where
  pub cluster_id : String
  pub action : String
  pub node : String
  pub instance_type : String
  pub zone : String
  pub region : String
  pub spot : Bool
  pub capacity_cpu : ℕ
  pub capacity_mem : ℕ
  pub alloc_cpu : ℕ
  pub alloc_mem : ℕ

pub record ClaimData : Type 0 where
  pub cluster_id : String
  pub tenant : String
  pub action : String
  pub namespace : String
  pub pvc : String
  pub storage_class : String
  pub volume_name : String
  pub access_modes : List String
  pub phase : String
  pub labels : List (String × String)
  pub requested_bytes : Option ℕ
  pub capacity_bytes : Option ℕ

pub record ServiceData : Type 0 where
  pub cluster_id : String
  pub tenant : String
  pub action : String
  pub namespace : String
  pub service : String
  pub type : String
  pub lb_endpoints : List String
  pub ports : List ServicePort
  pub labels : List (String × String)

pub data EventData : Type 0 where
  pod_data : PodData → EventData
  heartbeat_data : HeartbeatData → EventData
  node_data : NodeData → EventData
  claim_data : ClaimData → EventData
  service_data : ServiceData → EventData

-- what is handed to `Emit`
pub record Emitted : Type 0 where
  pub type : String
  pub subject : String
  pub data_of : EventData

abbrev or_empty : Option String → String
or_empty none = ""
or_empty (some s) = s

abbrev amount_of : Option ℕ → ℕ
amount_of none = 0
amount_of (some n) = n

unfoldable pub resolve_tenant : Settings → String → String
resolve_tenant c namespace = if str_eq c.default_tenant "" then namespace else c.default_tenant

unfoldable pub should_exclude : Settings → String → Bool
should_exclude c namespace =
    any_row (λ n. str_eq n namespace) c.exclude_namespaces || starts_with namespace "openshift-"

-- The sum over the containers of a resource of `list`, the requests or the limits.
abbrev pub sum_resource : (Container → List (String × ℕ)) → String → List Container → ℕ
sum_resource list name [] = 0
sum_resource list name (c ∷ cs) = amount_of (member name (list c)) + sum_resource list name cs

-- the CPU and the memory
unfoldable pub aggregate_requests : Pod → ℕ × ℕ
aggregate_requests pod = (
  sum_resource (λ c. c.requests) "cpu" pod.containers,
  sum_resource (λ c. c.requests) "memory" pod.containers,
)

unfoldable pub aggregate_limits : Pod → ℕ × ℕ
aggregate_limits pod = (
  sum_resource (λ c. c.limits) "cpu" pod.containers,
  sum_resource (λ c. c.limits) "memory" pod.containers,
)

-- A limit counts only while the total is 0.
unfoldable pub count_gpus_from : (ℕ → ℕ) → ℕ → List Container → ℕ
count_gpus_from value total [] = total
count_gpus_from value total (c ∷ cs) =
    let requested = total + value (amount_of (member "nvidia.com/gpu" c.requests)) in
    count_gpus_from value
      (if requested == 0 then value (amount_of (member "nvidia.com/gpu" c.limits)) else requested)
      cs

unfoldable pub count_gpus : Settings → Pod → ℕ
unfolding count_gpus_from
count_gpus c pod = count_gpus_from c.quantity_value 0 pod.containers

unfoldable pub resolve_owner : Pod → String × String
resolve_owner pod = elim pod.owner_references [ [] ↦ ("", "") | r ∷ _ ↦ r ]

unfoldable pub pod_event_data : Settings → Pod → String → EventData
pod_event_data c pod action =
    let (cpu_req, mem_req) = aggregate_requests pod in
    let (cpu_lim, mem_lim) = aggregate_limits pod in
    let (owner_kind, owner_name) = resolve_owner pod in
    pod_data (record {
      cluster_id = c.cluster_id;
      tenant = resolve_tenant c pod.namespace;
      action = action;
      namespace = pod.namespace;
      pod = pod.name;
      node = pod.node_name;
      cpu_request = cpu_req;
      cpu_limit = cpu_lim;
      mem_request = c.quantity_value mem_req;
      mem_limit = c.quantity_value mem_lim;
      gpu_count = count_gpus c pod;
      qos = pod.qos_class;
      owner_kind = owner_kind;
      owner_name = owner_name;
      labels = pod.labels;
    })

abbrev has_label : List (String × String) → String → String → Bool
has_label labels key text = str_eq (or_empty (member key labels)) text

unfoldable pub is_spot : List (String × String) → Bool
is_spot labels =
    has_label labels "node.kubernetes.io/lifecycle" "spot"
    || has_label labels "karpenter.sh/capacity-type" "spot"
    || has_label labels "kubernetes.azure.com/scalesetpriority" "spot"
    || has_label labels "cloud.google.com/gke-spot" "true"

unfoldable pub node_event_data : Settings → Node → String → EventData
node_event_data c node action = node_data (record {
  cluster_id = c.cluster_id;
  action = action;
  node = node.name;
  instance_type = or_empty (member "node.kubernetes.io/instance-type" node.labels);
  zone = or_empty (member "topology.kubernetes.io/zone" node.labels);
  region = or_empty (member "topology.kubernetes.io/region" node.labels);
  spot = is_spot node.labels;
  capacity_cpu = amount_of (member "cpu" node.capacity);
  capacity_mem = c.quantity_value (amount_of (member "memory" node.capacity));
  alloc_cpu = amount_of (member "cpu" node.allocatable);
  alloc_mem = c.quantity_value (amount_of (member "memory" node.allocatable));
})

abbrev value_of : Settings → Option ℕ → Option ℕ
value_of c none = none
value_of c (some q) = some (c.quantity_value q)

unfoldable pub pvc_event_data : Settings → PersistentVolumeClaim → String → EventData
pvc_event_data c pvc action = claim_data (record {
  cluster_id = c.cluster_id;
  tenant = resolve_tenant c pvc.namespace;
  action = action;
  namespace = pvc.namespace;
  pvc = pvc.name;
  storage_class = or_empty pvc.storage_class_name;
  volume_name = pvc.volume_name;
  access_modes = pvc.access_modes;
  phase = pvc.phase;
  labels = pvc.labels;
  requested_bytes = value_of c (member "storage" pvc.requests);
  capacity_bytes = value_of c (member "storage" pvc.capacity);
})

-- the address of an ingress that has one, its host name otherwise
unfoldable pub lb_endpoints_of : List Ingress → List String
lb_endpoints_of [] = []
lb_endpoints_of (i ∷ is) =
    let rest = lb_endpoints_of is in
    if not (str_eq i.ip "")
    then i.ip ∷ rest
    else if not (str_eq i.hostname "")
    then i.hostname ∷ rest
    else rest

unfoldable pub service_event_data : Settings → Service → String → EventData
service_event_data c svc action = service_data (record {
  cluster_id = c.cluster_id;
  tenant = resolve_tenant c svc.namespace;
  action = action;
  namespace = svc.namespace;
  service = svc.name;
  type = svc.type;
  lb_endpoints = lb_endpoints_of svc.ingress;
  ports = svc.ports;
  labels = svc.labels;
})
