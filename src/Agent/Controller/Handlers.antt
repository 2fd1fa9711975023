-- ===== src/Agent/Controller/Handlers.antt =====
-- The handlers of the informers and the heartbeats of the pods and nodes.
use Prim.Native.String.{◌++◌ as str_append}
use cost_ai_grid_poc.Prelude.{
  ℕ, String, Bool, ◌||◌, not, Option, none, some, List, [], ◌∷◌, ◌++◌, map, str_eq, where_rows,
  find_row, if◌then◌else◌,
}
use cost_ai_grid_poc.Prelude.Int.{pos, ◌-ℤ◌}
use cost_ai_grid_poc.Agent.Kube.{
  Pod, Node, PersistentVolumeClaim, Service, Object, a_pod, a_node, a_claim, a_service,
  deleted_final_state_unknown,
}
use cost_ai_grid_poc.Agent.Controller.{
  Settings, EventData, heartbeat_data, Emitted, should_exclude, resolve_tenant, aggregate_requests,
  pod_event_data, node_event_data, pvc_event_data, service_event_data,
}

-- `namespace/name`
abbrev pub subject_of : String → String → String
subject_of namespace name = str_append namespace (str_append "/" name)

abbrev pub pod_key : Pod → String
pod_key pod = subject_of pod.namespace pod.name

abbrev emit_one : String → String → EventData → List Emitted
emit_one type subject payload = record { type = type; subject = subject; data_of = payload } ∷ []

abbrev pod_event : Settings → Pod → String → List Emitted
pod_event c pod action =
    if should_exclude c pod.namespace
    then []
    else emit_one "kube.pod.lifecycle" (pod_key pod) (pod_event_data c pod action)

abbrev node_event : Settings → Node → String → List Emitted
node_event c node action = emit_one "kube.node.lifecycle" node.name (node_event_data c node action)

abbrev pvc_event : Settings → PersistentVolumeClaim → String → List Emitted
pvc_event c pvc action =
    if should_exclude c pvc.namespace
    then []
    else emit_one "kube.pvc.lifecycle" (subject_of pvc.namespace pvc.name)
        (pvc_event_data c pvc action)

abbrev service_event : Settings → Service → String → List Emitted
service_event c svc action =
    if not (str_eq svc.type "LoadBalancer") || should_exclude c svc.namespace
    then []
    else emit_one "kube.service.lifecycle" (subject_of svc.namespace svc.name)
        (service_event_data c svc action)

unfoldable pub on_pod_add : Settings → Object → List Emitted
on_pod_add c (a_pod pod) = pod_event c pod "CREATED"
on_pod_add c _ = []

unfoldable pub on_node_add : Settings → Object → List Emitted
on_node_add c (a_node node) = node_event c node "CREATED"
on_node_add c _ = []

unfoldable pub on_pvc_add : Settings → Object → List Emitted
on_pvc_add c (a_claim pvc) = pvc_event c pvc "CREATED"
on_pvc_add c _ = []

unfoldable pub on_service_add : Settings → Object → List Emitted
on_service_add c (a_service svc) = service_event c svc "CREATED"
on_service_add c _ = []

-- `lastHeartbeat`
abbrev pub Beats : Type 0
Beats = List (String × ℕ)

abbrev pub forget : String → Beats → Beats
forget key beats = where_rows (λ e. not (str_eq e.0 key)) beats

abbrev pub beat_of : Option (String × ℕ) → Option ℕ
beat_of none = none
beat_of (some e) = some e.1

abbrev pub last_beat : String → Beats → Option ℕ
last_beat key beats = beat_of (find_row (λ (e : String × ℕ). str_eq e.0 key) beats)

abbrev pod_gone : Settings → Pod → Beats → List Emitted × Beats
pod_gone c pod beats =
    if should_exclude c pod.namespace
    then ([], beats)
    else (pod_event c pod "DELETED", forget (pod_key pod) beats)

-- A tombstone is opened once.
unfoldable pub on_pod_delete : Settings → Object → Beats → List Emitted × Beats
on_pod_delete c (a_pod pod) beats = pod_gone c pod beats
on_pod_delete c (deleted_final_state_unknown (a_pod pod)) beats = pod_gone c pod beats
on_pod_delete c _ beats = ([], beats)

unfoldable pub on_node_delete : Settings → Object → List Emitted
on_node_delete c (a_node node) = node_event c node "DELETED"
on_node_delete c (deleted_final_state_unknown (a_node node)) = node_event c node "DELETED"
on_node_delete c _ = []

unfoldable pub on_pvc_delete : Settings → Object → List Emitted
on_pvc_delete c (a_claim pvc) = pvc_event c pvc "DELETED"
on_pvc_delete c (deleted_final_state_unknown (a_claim pvc)) = pvc_event c pvc "DELETED"
on_pvc_delete c _ = []

unfoldable pub on_service_delete : Settings → Object → List Emitted
on_service_delete c (a_service svc) = service_event c svc "DELETED"
on_service_delete c (deleted_final_state_unknown (a_service svc)) = service_event c svc "DELETED"
on_service_delete c _ = []

abbrev pub or_start : ℕ → Option ℕ → ℕ
or_start started none = started
or_start started (some t) = t

-- when a pod started, or was created
abbrev pub started_at : Pod → ℕ
started_at pod = or_start pod.creation_timestamp pod.start_time

-- the time of the last heartbeat, and before the first one the start of the pod
abbrev pub billed_until : Pod → Beats → ℕ
billed_until pod beats = or_start (started_at pod) (last_beat (pod_key pod) beats)

abbrev pub is_skipped : Settings → Pod → Bool
is_skipped c pod = not (str_eq pod.phase "Running") || should_exclude c pod.namespace

unfoldable pub pod_heartbeat : Settings → ℕ → Pod → Beats → Emitted
pod_heartbeat c now pod beats =
    let (cpu_req, mem_req) = aggregate_requests pod in
    record {
      type = "kube.pod.heartbeat";
      subject = pod_key pod;
      data_of = heartbeat_data (record {
        cluster_id = c.cluster_id;
        tenant = resolve_tenant c pod.namespace;
        namespace = pod.namespace;
        pod = pod.name;
        node = pod.node_name;
        cpu_request = cpu_req;
        memory_request = c.quantity_value mem_req;
        duration_seconds = pos now -ℤ pos (billed_until pod beats);
      });
    }

-- The loop over the pods that the cache lists. Each heartbeat moves the time of its pod.
unfoldable pub emit_pod_heartbeats : Settings → ℕ → List Pod → Beats → List Emitted × Beats
emit_pod_heartbeats c now [] beats = ([], beats)
emit_pod_heartbeats c now (pod ∷ pods) beats =
    let skipped = emit_pod_heartbeats c now pods beats in
    let (out, next) =
      emit_pod_heartbeats c now pods ((pod_key pod, now) ∷ forget (pod_key pod) beats) in
    if is_skipped c pod then skipped else (pod_heartbeat c now pod beats ∷ out, next)

unfoldable pub emit_node_heartbeats : Settings → List Node → List Emitted
emit_node_heartbeats c nodes =
    map
      (λ (node : Node). record {
        type = "kube.node.heartbeat";
        subject = node.name;
        data_of = node_event_data c node "HEARTBEAT";
      })
      nodes

-- the heartbeats of a sequence of ticks, each with its time and the pods that are listed
unfoldable pub heartbeat_loop : Settings → List (ℕ × List Pod) → Beats → List Emitted × Beats
heartbeat_loop c [] beats = ([], beats)
heartbeat_loop c ((now, pods) ∷ ticks) beats =
    let (out, next) = emit_pod_heartbeats c now pods beats in
    let (outs, last) = heartbeat_loop c ticks next in (out ++ outs, last)
