-- ===== src/Reconciler/Converged.antt =====
-- What `ReconcileAll` does to the resources that are alive.
use cost_ai_grid_poc.Prelude.{ℕ, ◌≡◌, refl, ap, ◌∙◌, String, Bool, Option, none, some, List}
use cost_ai_grid_poc.Models.{ComputeInstanceRecord, ClusterRecord, BareMetalInstanceRecord}
use cost_ai_grid_poc.Store.{
  Store, upsert_compute_instance, upsert_cluster, upsert_bare_metal_instance, upsert_instance_type,
  upsert_project, upsert_tenant, upsert_catalog_item, mark_compute_instance_deleted,
  mark_cluster_deleted, mark_bare_metal_instance_deleted, list_alive_compute_instances,
  list_alive_clusters, list_alive_bare_metal_instances,
}
use cost_ai_grid_poc.Store.Alive.{
  alive, alive-upsert, alive-mark, alive-where, instance_alive, cluster_alive, bare_metal_alive,
}
use cost_ai_grid_poc.Osac.{
  ComputeInstance, Cluster, BareMetalInstance, CatalogItem, Project, Tenant, InstanceType,
}
use cost_ai_grid_poc.Reconciler.{
  MapOrder, Listings, exists, reconcile_compute_instances, reconcile_clusters,
  reconcile_bare_metal_instances, reconcile_projects, reconcile_tenants, reconcile_instance_types,
  sync_catalog, reconcile_catalog_items, reconcile_all,
}
use cost_ai_grid_poc.Reconciler.Tables.{
  reconcile_table-alive, reconcile_table-keeps, upsert_each-keeps,
}

-- whether a resource is listed, and where the call failed, whether it was alive
abbrev pub listed_or : {A : Type 0} → (A → String) → Option (List A) → String → Bool → Bool
listed_or key none id was = was
listed_or key (some items) id was = exists key items id

module _ {D : Type 0} where
  -- the tables of the resources
  abbrev tables :
      Store D → List ComputeInstanceRecord × (List ClusterRecord × List BareMetalInstanceRecord)
  tables s = (s.compute_instances, (s.clusters, s.bare_metal_instances))

  abbrev others : Store D → List ClusterRecord × List BareMetalInstanceRecord
  others s = (s.clusters, s.bare_metal_instances)

  module _ (order : MapOrder) (now : ℕ) where
    instances-alive :
        (l : Option (List ComputeInstance)) (s : Store D) (id : String)
        → instance_alive id (reconcile_compute_instances order now l s)
          ≡ listed_or (λ ci. ci.id) l id (instance_alive id s)
    unfolding reconcile_compute_instances upsert_compute_instance mark_compute_instance_deleted
        list_alive_compute_instances
    instances-alive none s id = refl
    instances-alive (some items) s id =
        reconcile_table-alive _ _ _ _ instance_alive
          (λ id x s.
            alive-upsert (λ r. r.instance_id) (λ r. r.deleted_at) x.id id _ _ s.compute_instances
              (λ _. refl) (λ _. refl) refl refl)
          (λ id k s.
            alive-mark (λ r. r.instance_id) (λ r. r.deleted_at) k id _ s.compute_instances
              (λ _. refl) (λ _. refl))
          order items _ s id
          (alive-where (λ r. r.instance_id) (λ r. r.deleted_at) id s.compute_instances)

    clusters-alive :
        (l : Option (List Cluster)) (s : Store D) (id : String)
        → cluster_alive id (reconcile_clusters order now l s)
          ≡ listed_or (λ cl. cl.id) l id (cluster_alive id s)
    unfolding reconcile_clusters upsert_cluster mark_cluster_deleted list_alive_clusters
    clusters-alive none s id = refl
    clusters-alive (some items) s id =
        reconcile_table-alive _ _ _ _ cluster_alive
          (λ id x s.
            alive-upsert (λ r. r.cluster_id) (λ r. r.deleted_at) x.id id _ _ s.clusters (λ _. refl)
              (λ _. refl) refl refl)
          (λ id k s.
            alive-mark (λ r. r.cluster_id) (λ r. r.deleted_at) k id _ s.clusters (λ _. refl)
              (λ _. refl))
          order items _ s id (alive-where (λ r. r.cluster_id) (λ r. r.deleted_at) id s.clusters)

    bare_metal-alive :
        (l : Option (List BareMetalInstance)) (s : Store D) (id : String)
        → bare_metal_alive id (reconcile_bare_metal_instances order now l s)
          ≡ listed_or (λ bm. bm.id) l id (bare_metal_alive id s)
    unfolding reconcile_bare_metal_instances upsert_bare_metal_instance
        mark_bare_metal_instance_deleted list_alive_bare_metal_instances
    bare_metal-alive none s id = refl
    bare_metal-alive (some items) s id =
        reconcile_table-alive _ _ _ _ bare_metal_alive
          (λ id x s.
            alive-upsert (λ r. r.instance_id) (λ r. r.deleted_at) x.id id _ _ s.bare_metal_instances
              (λ _. refl) (λ _. refl) refl refl)
          (λ id k s.
            alive-mark (λ r. r.instance_id) (λ r. r.deleted_at) k id _ s.bare_metal_instances
              (λ _. refl) (λ _. refl))
          order items _ s id
          (alive-where (λ r. r.instance_id) (λ r. r.deleted_at) id s.bare_metal_instances)

    instances-keeps :
        (l : Option (List ComputeInstance)) (s : Store D)
        → others (reconcile_compute_instances order now l s) ≡ others s
    unfolding reconcile_compute_instances upsert_compute_instance mark_compute_instance_deleted
    instances-keeps none s = refl
    instances-keeps (some items) s =
        reconcile_table-keeps others order _ _ _ _ items _ s (λ x s. refl) (λ id s. refl)

    clusters-keeps :
        (l : Option (List Cluster)) (s : Store D)
        → ((reconcile_clusters order now l s).compute_instances ≡ s.compute_instances)
          × ((reconcile_clusters order now l s).bare_metal_instances ≡ s.bare_metal_instances)
    unfolding reconcile_clusters upsert_cluster mark_cluster_deleted
    clusters-keeps none s = (refl, refl)
    clusters-keeps (some items) s = (
      reconcile_table-keeps (λ s. s.compute_instances) order _ _ _ _ items _ s (λ x s. refl)
          (λ id s. refl),
      reconcile_table-keeps (λ s. s.bare_metal_instances) order _ _ _ _ items _ s (λ x s. refl)
          (λ id s. refl),
    )

    bare_metal-keeps :
        (l : Option (List BareMetalInstance)) (s : Store D)
        → ((reconcile_bare_metal_instances order now l s).compute_instances ≡ s.compute_instances)
          × ((reconcile_bare_metal_instances order now l s).clusters ≡ s.clusters)
    unfolding reconcile_bare_metal_instances upsert_bare_metal_instance
        mark_bare_metal_instance_deleted
    bare_metal-keeps none s = (refl, refl)
    bare_metal-keeps (some items) s = (
      reconcile_table-keeps (λ s. s.compute_instances) order _ _ _ _ items _ s (λ x s. refl)
          (λ id s. refl),
      reconcile_table-keeps (λ s. s.clusters) order _ _ _ _ items _ s (λ x s. refl) (λ id s. refl),
    )

    projects-keeps :
        (l : Option (List Project)) (s : Store D) → tables (reconcile_projects now l s) ≡ tables s
    unfolding reconcile_projects upsert_project
    projects-keeps none s = refl
    projects-keeps (some items) s = upsert_each-keeps tables _ items s (λ x s. refl)

    tenants-keeps :
        (l : Option (List Tenant)) (s : Store D) → tables (reconcile_tenants now l s) ≡ tables s
    unfolding reconcile_tenants upsert_tenant
    tenants-keeps none s = refl
    tenants-keeps (some items) s = upsert_each-keeps tables _ items s (λ x s. refl)

  instance_types-keeps :
      (l : Option (List InstanceType)) (s : Store D)
      → tables (reconcile_instance_types l s) ≡ tables s
  unfolding reconcile_instance_types upsert_instance_type
  instance_types-keeps none s = refl
  instance_types-keeps (some items) s = upsert_each-keeps tables _ items s (λ x s. refl)

  sync-keeps :
      (item_type : String) (l : Option (List CatalogItem)) (s : Store D)
      → tables (sync_catalog item_type l s) ≡ tables s
  unfolding sync_catalog upsert_catalog_item
  sync-keeps item_type none s = refl
  sync-keeps item_type (some items) s = upsert_each-keeps tables _ items s (λ x s. refl)

  catalog-keeps : (l : Listings) (s : Store D) → tables (reconcile_catalog_items l s) ≡ tables s
  unfolding reconcile_catalog_items
  catalog-keeps l s = sync-keeps _ _ _ ∙ sync-keeps _ _ _ ∙ sync-keeps _ _ s

  -- After ReconcileAll, whatever the order in which the maps are visited, a compute instance, a
  -- cluster or a bare metal instance is alive if and only if OSAC lists it; those of a kind whose
  -- list could not be read are alive as before.
  pub reconcile_all-Converged :
      (order : MapOrder) (now : ℕ) (l : Listings) (s : Store D) (id : String)
      → (instance_alive id (reconcile_all order now l s)
          ≡ listed_or (λ ci. ci.id) l.compute_instances id (instance_alive id s))
        × (cluster_alive id (reconcile_all order now l s)
            ≡ listed_or (λ cl. cl.id) l.clusters id (cluster_alive id s))
        × (bare_metal_alive id (reconcile_all order now l s)
            ≡ listed_or (λ bm. bm.id) l.bare_metal_instances id (bare_metal_alive id s))
  unfolding reconcile_all
  reconcile_all-Converged order now l s id =
      let s1 = reconcile_projects now l.projects s in
      let s2 = reconcile_tenants now l.tenants s1 in
      let s3 = reconcile_compute_instances order now l.compute_instances s2 in
      let s4 = reconcile_clusters order now l.clusters s3 in
      let s5 = reconcile_instance_types l.instance_types s4 in
      let s6 = reconcile_bare_metal_instances order now l.bare_metal_instances s5 in
      let first = tenants-keeps order now l.tenants s1 ∙ projects-keeps order now l.projects s in
      let i3 = instances-keeps order now l.compute_instances s2 in
      let (c4, b4) = clusters-keeps order now l.clusters s3 in
      let t5 = instance_types-keeps l.instance_types s4 in
      let (c6, d6) = bare_metal-keeps order now l.bare_metal_instances s5 in
      let last = catalog-keeps l s6 in
      let instances = alive (λ (r : ComputeInstanceRecord). r.instance_id) (λ r. r.deleted_at) id in
      let clusters = alive (λ (r : ClusterRecord). r.cluster_id) (λ r. r.deleted_at) id in
      let machines =
        alive (λ (r : BareMetalInstanceRecord). r.instance_id) (λ r. r.deleted_at) id in
      (
        ap instances (ap (λ t. t.0) last ∙ c6 ∙ ap (λ t. t.0) t5 ∙ c4)
            ∙ instances-alive order now l.compute_instances s2 id
            ∙ ap (λ t. listed_or (λ ci. ci.id) l.compute_instances id (instances t.0)) first,
        ap clusters (ap (λ t. t.1.0) last ∙ d6 ∙ ap (λ t. t.1.0) t5)
            ∙ clusters-alive order now l.clusters s3 id
            ∙ ap (λ t. listed_or (λ cl. cl.id) l.clusters id (clusters t.0)) i3
            ∙ ap (λ t. listed_or (λ cl. cl.id) l.clusters id (clusters t.1.0)) first,
        ap machines (ap (λ t. t.1.1) last)
            ∙ bare_metal-alive order now l.bare_metal_instances s5 id
            ∙ ap (λ b. listed_or (λ bm. bm.id) l.bare_metal_instances id (machines b))
                (ap (λ t. t.1.1) t5 ∙ b4 ∙ ap (λ t. t.1) i3 ∙ ap (λ t. t.1.1) first),
      )
