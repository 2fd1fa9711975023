-- ===== src/Watcher.antt =====
-- The watcher of the OSAC events: inventory-watcher/internal/watcher/watcher.go. `now` is the time
-- at which an event is handled. The stream, its reconnection and the backoff are outside.
pub mod Alive
mod Tests
use cost_ai_grid_poc.Prelude.{
  ℕ, String, Bool, true, false, ◌||◌, Option, none, some, List, [], ◌∷◌, ◌++◌, map, str_eq,
  if◌then◌else◌,
}
use cost_ai_grid_poc.Prelude.Int.{ℤ, pos}
use cost_ai_grid_poc.Models.{
  ComputeInstanceRecord, ClusterRecord, NodeSet, BareMetalInstanceRecord, RawEvent,
}
use cost_ai_grid_poc.Store.{
  Store, insert_raw_event, upsert_compute_instance, upsert_cluster, upsert_bare_metal_instance,
  upsert_instance_type, upsert_project, upsert_tenant, mark_compute_instance_deleted,
  mark_cluster_deleted, mark_bare_metal_instance_deleted,
}
use cost_ai_grid_poc.Metering.{meter_compute_instance_final, meter_bare_metal_instance_final}
use cost_ai_grid_poc.Osac.{
  Event, Metadata, ComputeInstance, Cluster, ClusterNodeSet, BareMetalInstance, event_type_created,
  event_type_updated, event_type_deleted,
}

-- `createdAt := now; if t != nil { createdAt = *t }`
abbrev pub or_now : ℕ → Option ℕ → ℕ
or_now now none = now
or_now now (some t) = t

abbrev pub or_zero : Option ℤ → ℤ
or_zero none = pos 0
or_zero (some n) = n

-- the resource, its tenant and the time of an event
unfoldable pub extract_event_meta : ℕ → Event → String × String × ℕ
extract_event_meta now event = elim event.compute_instance [
  | some ci ↦ (ci.id, ci.metadata.tenant, or_now now ci.metadata.creation_timestamp)
  | none ↦ elim event.cluster [
    | some cl ↦ (cl.id, cl.metadata.tenant, or_now now cl.metadata.creation_timestamp)
    | none ↦ elim event.instance_type [
      | some it ↦ (it.id, it.metadata.tenant, or_now now it.metadata.creation_timestamp)
      | none ↦ elim event.bare_metal_instance [
        | some bm ↦ (bm.id, bm.metadata.tenant, or_now now bm.metadata.creation_timestamp)
        | none ↦ elim event.project [
          | some p ↦ (p.id, p.metadata.tenant, now)
          | none ↦ elim event.tenant [ some t ↦ (t.id, t.id, now) | none ↦ ("", "", now) ]
        ]
      ]
    ]
  ]
]

abbrev present : {A : Type 0} → Option A → Bool
present none = false
present (some _) = true

unfoldable pub event_resource_type : Event → String
event_resource_type event =
    if present event.compute_instance
    then "ComputeInstance"
    else if present event.cluster
    then "Cluster"
    else if present event.instance_type
    then "InstanceType"
    else if present event.project
    then "Project"
    else if present event.tenant
    then "Tenant"
    else if present event.bare_metal_instance
    then "BareMetalInstance"
    else if event.has_host_type
    then "HostType"
    else if event.has_cluster_template
    then "ClusterTemplate"
    else if event.has_compute_instance_template
    then "ComputeInstanceTemplate"
    else if event.has_role
    then "Role"
    else if event.has_role_binding
    then "RoleBinding"
    else "Unknown"

-- the record of `upsertComputeInstance`
abbrev pub compute_instance_record : ℕ → String → ComputeInstance → ComputeInstanceRecord
compute_instance_record now event_id ci = record {
  instance_id = ci.id;
  name = ci.metadata.name;
  tenant = ci.metadata.tenant;
  project = "";
  cluster_id = "";
  instance_type = ci.spec.instance_type;
  cores = or_zero ci.spec.cores;
  memory_gib = or_zero ci.spec.memory_gib;
  state = ci.state;
  created_at = or_now now ci.metadata.creation_timestamp;
  deleted_at = none;
  last_event_id = event_id;
  last_metered_at = none;
}

abbrev pub node_set : String × ClusterNodeSet → NodeSet
node_set (_, n) = record { host_type = n.host_type; size = n.size }

-- the record of `upsertCluster`
abbrev pub cluster_record : ℕ → String → Cluster → ClusterRecord
cluster_record now event_id cl = record {
  cluster_id = cl.id;
  name = cl.metadata.name;
  tenant = cl.metadata.tenant;
  template = cl.spec.template;
  node_sets = map node_set cl.spec.node_sets;
  state = cl.state;
  created_at = or_now now cl.metadata.creation_timestamp;
  deleted_at = none;
  last_event_id = event_id;
  last_metered_at = none;
}

-- the record of `upsertBareMetalInstance`
abbrev pub bare_metal_record : ℕ → String → BareMetalInstance → BareMetalInstanceRecord
bare_metal_record now event_id bm = record {
  instance_id = bm.id;
  name = bm.metadata.name;
  tenant = bm.metadata.tenant;
  catalog_item = bm.catalog_item;
  state = bm.state;
  created_at = or_now now bm.metadata.creation_timestamp;
  deleted_at = none;
  last_event_id = event_id;
  last_metered_at = none;
}

-- what is handed to Kafka: the type, the resource and the tenant
pub record Published : Type 0 where
  pub event_type : String
  pub resource_id : String
  pub tenant_id : String

module _ {D : Type 0} where
  unfoldable pub store_raw_event : ℕ → Event → Store D → Store D
  store_raw_event now event s =
      let (resource_id, tenant_id, event_time) = extract_event_meta now event in
      insert_raw_event
        (record {
          id = 0;
          event_id = event.id;
          event_type = event.type;
          event_source = "osac.fulfillment-service";
          event_time = event_time;
          tenant_id = tenant_id;
          resource_type = event_resource_type event;
          resource_id = resource_id;
        })
        s

  unfoldable pub handle_create_or_update : ℕ → Event → Store D → Store D
  handle_create_or_update now event s = elim event.compute_instance [
    | some ci ↦ upsert_compute_instance (compute_instance_record now event.id ci) s
    | none ↦ elim event.cluster [
      | some cl ↦ upsert_cluster (cluster_record now event.id cl) s
      | none ↦ elim event.instance_type [
        | some it ↦
            upsert_instance_type
              (record {
                instance_type_id = it.id;
                name = it.metadata.name;
                cores = it.spec.cores;
                memory_gib = it.spec.memory_gib;
                state = it.spec.state;
              })
              s
        | none ↦ elim event.bare_metal_instance [
          | some bm ↦ upsert_bare_metal_instance (bare_metal_record now event.id bm) s
          | none ↦ elim event.project [
            | some p ↦
                upsert_project
                  (record {
                    project_id = p.id;
                    name = p.metadata.name;
                    tenant = p.metadata.tenant;
                    created_at = or_now now p.metadata.creation_timestamp;
                    deleted_at = none;
                  })
                  s
            | none ↦ elim event.tenant [
              | some t ↦
                  upsert_tenant
                    (record {
                      tenant_id = t.id;
                      name = t.metadata.name;
                      labels = t.metadata.labels;
                      created_at = or_now now t.metadata.creation_timestamp;
                      deleted_at = none;
                    })
                    s
              | none ↦ s
            ]
          ]
        ]
      ]
    ]
  ]

  -- a cluster has no final metering
  unfoldable pub handle_delete : ℕ → Event → Store D → Store D
  handle_delete now event s = elim event.compute_instance [
    | some ci ↦
        let deleted_at = or_now now ci.metadata.deletion_timestamp in
        mark_compute_instance_deleted ci.id deleted_at event.id
          (meter_compute_instance_final ci.id deleted_at s)
    | none ↦ elim event.cluster [
      | some cl ↦ mark_cluster_deleted cl.id (or_now now cl.metadata.deletion_timestamp) event.id s
      | none ↦ elim event.bare_metal_instance [
        | some bm ↦
            let deleted_at = or_now now bm.metadata.deletion_timestamp in
            mark_bare_metal_instance_deleted bm.id deleted_at event.id
              (meter_bare_metal_instance_final bm.id deleted_at s)
        | none ↦ s
      ]
    ]
  ]

  -- With Kafka an event is only published.
  unfoldable pub handle_event : Bool → ℕ → Event → Store D → List Published × Store D
  handle_event has_kafka now event s =
      let (resource_id, tenant_id, _) = extract_event_meta now event in
      let stored = store_raw_event now event s in
      if has_kafka
      then (
        record { event_type = event.type; resource_id = resource_id; tenant_id = tenant_id } ∷ [],
        s,
      )
      else if str_eq event.type event_type_created || str_eq event.type event_type_updated
      then ([], handle_create_or_update now event stored)
      else if str_eq event.type event_type_deleted
      then ([], handle_delete now event stored)
      else ([], stored)

  -- the events of the stream, each with the time at which it is handled
  unfoldable pub watch : Bool → List (ℕ × Event) → Store D → List Published × Store D
  watch has_kafka [] s = ([], s)
  watch has_kafka ((now, event) ∷ events) s =
      let (out, s1) = handle_event has_kafka now event s in
      let (outs, s2) = watch has_kafka events s1 in (out ++ outs, s2)
