-- ===== src/Reconciler.antt =====
-- The reconciler of the inventory with OSAC:
-- inventory-watcher/internal/reconciler/reconciler.go. The lists that the OSAC API answers are
-- arguments, `none` where the call fails. `now` is the time of a run, and a `MapOrder`
-- the order in which Go visits the entries of a map.
pub mod Tables
pub mod Converged
mod Tests
use cost_ai_grid_poc.Prelude.{
  ℕ, ◌≡◌, String, Bool, Option, none, some, List, [], ◌∷◌, str_eq, any_row, upsert_row,
  if◌then◌else◌,
}
use cost_ai_grid_poc.Models.{ComputeInstanceRecord, ClusterRecord, BareMetalInstanceRecord}
use cost_ai_grid_poc.Store.{
  Store, upsert_compute_instance, upsert_cluster, upsert_bare_metal_instance, upsert_instance_type,
  upsert_project, upsert_tenant, upsert_catalog_item, mark_compute_instance_deleted,
  mark_cluster_deleted, mark_bare_metal_instance_deleted, list_alive_compute_instances,
  list_alive_clusters, list_alive_bare_metal_instances,
}
use cost_ai_grid_poc.Osac.{
  ComputeInstance, Cluster, BareMetalInstance, InstanceType, Project, Tenant, CatalogItem,
}
use cost_ai_grid_poc.Watcher.{or_now, compute_instance_record, cluster_record, bare_metal_record}

-- A range over a map visits its entries in some order: all of them, and nothing else.
pub record MapOrder : Type 1 where
  pub range : (A : Type 0) → List A → List A
  pub any-range : (A : Type 0) (p : A → Bool) (xs : List A) → any_row p (range A xs) ≡ any_row p xs

-- what the client of the OSAC API lists, which stops at 10000 items of a kind without an error
pub record Listings : Type 0 where
  pub projects : Option (List Project)
  pub tenants : Option (List Tenant)
  pub compute_instances : Option (List ComputeInstance)
  pub clusters : Option (List Cluster)
  pub instance_types : Option (List InstanceType)
  pub bare_metal_instances : Option (List BareMetalInstance)
  pub cluster_catalog_items : Option (List CatalogItem)
  pub compute_instance_catalog_items : Option (List CatalogItem)
  pub bare_metal_instance_catalog_items : Option (List CatalogItem)

-- the map `osacSet`: an object replaces one with its id
unfoldable pub osac_set : {A : Type 0} → (A → String) → List A → List A → List A
osac_set key set [] = set
osac_set key set (x ∷ xs) =
    osac_set key (upsert_row (λ y. str_eq (key y) (key x)) (λ _. x) x set) xs

-- `_, exists := set[id]`
abbrev pub exists : {A : Type 0} → (A → String) → List A → String → Bool
exists key xs id = any_row (λ x. str_eq (key x) id) xs

module _ {D : Type 0} where
  -- in OSAC but not in the inventory: missed CREATED events
  unfoldable pub create_missing :
      {A : Type 0}
      → (String → Bool)
      → (A → String)
      → (A → Store D → Store D)
      → List A
      → Store D
      → Store D
  create_missing known key upsert [] s = s
  create_missing known key upsert (x ∷ xs) s =
      create_missing known key upsert xs (if known (key x) then s else upsert x s)

  -- in the inventory but not in OSAC: missed DELETED events
  unfoldable pub mark_missing :
      {R : Type 0}
      → (String → Bool)
      → (R → String)
      → (String → Store D → Store D)
      → List R
      → Store D
      → Store D
  mark_missing in_osac key mark [] s = s
  mark_missing in_osac key mark (r ∷ rs) s =
      mark_missing in_osac key mark rs (if in_osac (key r) then s else mark (key r) s)

  unfoldable pub upsert_each : {A : Type 0} → (A → Store D → Store D) → List A → Store D → Store D
  upsert_each upsert [] s = s
  upsert_each upsert (x ∷ xs) s = upsert_each upsert xs (upsert x s)

  module _ (order : MapOrder) where
    -- the two loops, over the objects that are listed and the rows that were alive
    unfoldable pub reconcile_table :
        {A R : Type 0}
        → (A → String)
        → (R → String)
        → (A → Store D → Store D)
        → (String → Store D → Store D)
        → List A
        → List R
        → Store D
        → Store D
    reconcile_table key row_key upsert mark items known s =
        let set = osac_set key [] items in
        mark_missing (exists key set) row_key mark known
          (create_missing (exists row_key known) key upsert (order.range _ set) s)

    unfoldable pub reconcile_compute_instances :
        ℕ → Option (List ComputeInstance) → Store D → Store D
    reconcile_compute_instances now none s = s
    reconcile_compute_instances now (some items) s =
        reconcile_table (λ ci. ci.id) (λ (r : ComputeInstanceRecord). r.instance_id)
          (λ ci. upsert_compute_instance (compute_instance_record now "reconcile" ci))
          (λ id. mark_compute_instance_deleted id now "reconcile") items
          (list_alive_compute_instances s) s

    -- the node sets are not taken over
    unfoldable pub reconcile_clusters : ℕ → Option (List Cluster) → Store D → Store D
    reconcile_clusters now none s = s
    reconcile_clusters now (some items) s =
        reconcile_table (λ cl. cl.id) (λ (r : ClusterRecord). r.cluster_id)
          (λ cl. upsert_cluster (record (cluster_record now "reconcile" cl) { node_sets = [] }))
          (λ id. mark_cluster_deleted id now "reconcile") items (list_alive_clusters s) s

    unfoldable pub reconcile_bare_metal_instances :
        ℕ → Option (List BareMetalInstance) → Store D → Store D
    reconcile_bare_metal_instances now none s = s
    reconcile_bare_metal_instances now (some items) s =
        reconcile_table (λ bm. bm.id) (λ (r : BareMetalInstanceRecord). r.instance_id)
          (λ bm. upsert_bare_metal_instance (bare_metal_record now "reconcile" bm))
          (λ id. mark_bare_metal_instance_deleted id now "reconcile") items
          (list_alive_bare_metal_instances s) s

  unfoldable pub reconcile_projects : ℕ → Option (List Project) → Store D → Store D
  reconcile_projects now none s = s
  reconcile_projects now (some items) s =
      upsert_each
        (λ p. upsert_project (record {
          project_id = p.id;
          name = p.metadata.name;
          tenant = p.metadata.tenant;
          created_at = or_now now p.metadata.creation_timestamp;
          deleted_at = none;
        }))
        items s

  -- the labels are not taken over
  unfoldable pub reconcile_tenants : ℕ → Option (List Tenant) → Store D → Store D
  reconcile_tenants now none s = s
  reconcile_tenants now (some items) s =
      upsert_each
        (λ t. upsert_tenant (record {
          tenant_id = t.id;
          name = t.metadata.name;
          labels = [];
          created_at = or_now now t.metadata.creation_timestamp;
          deleted_at = none;
        }))
        items s

  unfoldable pub reconcile_instance_types : Option (List InstanceType) → Store D → Store D
  reconcile_instance_types none s = s
  reconcile_instance_types (some items) s =
      upsert_each
        (λ it. upsert_instance_type (record {
          instance_type_id = it.id;
          name = it.metadata.name;
          cores = it.spec.cores;
          memory_gib = it.spec.memory_gib;
          state = it.spec.state;
        }))
        items s

  unfoldable pub sync_catalog : String → Option (List CatalogItem) → Store D → Store D
  sync_catalog item_type none s = s
  sync_catalog item_type (some items) s =
      upsert_each
        (λ ci. upsert_catalog_item (record {
          catalog_item_id = ci.id;
          item_type = item_type;
          name = ci.metadata.name;
          title = ci.title;
          description = ci.description;
          template = ci.template;
          published = ci.published;
          tenant = ci.metadata.tenant;
        }))
        items s

  unfoldable pub reconcile_catalog_items : Listings → Store D → Store D
  reconcile_catalog_items l s =
      sync_catalog "bare_metal_instance" l.bare_metal_instance_catalog_items (
        sync_catalog "compute_instance" l.compute_instance_catalog_items
          (sync_catalog "cluster" l.cluster_catalog_items s))

  unfoldable pub reconcile_all : MapOrder → ℕ → Listings → Store D → Store D
  reconcile_all order now l s =
      let s1 = reconcile_projects now l.projects s in
      let s2 = reconcile_tenants now l.tenants s1 in
      let s3 = reconcile_compute_instances order now l.compute_instances s2 in
      let s4 = reconcile_clusters order now l.clusters s3 in
      let s5 = reconcile_instance_types l.instance_types s4 in
      let s6 = reconcile_bare_metal_instances order now l.bare_metal_instances s5 in
      reconcile_catalog_items l s6
