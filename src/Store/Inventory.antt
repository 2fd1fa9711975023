-- ===== src/Store/Inventory.antt =====
-- The inventory tables. An upsert that meets a row with its key keeps the row's `created_at` and
-- `last_metered_at`, and writes `deleted_at` from the new record, which is null in every caller.
use cost_ai_grid_poc.Prelude.{
  ℕ, String, Bool, true, false, ◌&&◌, ◌||◌, not, Option, none, some, List, ◌∷◌, str_eq,
  if◌then◌else◌, where_rows, find_row, update_rows, upsert_row,
}
use cost_ai_grid_poc.Models.{
  ComputeInstanceRecord, ClusterRecord, ModelRecord, BareMetalInstanceRecord, ProjectRecord,
  TenantRecord, CatalogItemRecord, InstanceTypeRecord,
}
use cost_ai_grid_poc.Store.Tables.{Store}

-- `deleted_at IS NULL`
abbrev pub is_null : {A : Type 0} → Option A → Bool
is_null none = true
is_null (some _) = false

abbrev label : String → TenantRecord → Option String
label key t = elim (find_row (λ (e : String × String). str_eq e.0 key) t.labels) [
  | none ↦ none
  | some e ↦ some e.1
]

-- COALESCE of the two labels and the empty text
abbrev tier_label : TenantRecord → String
tier_label t = elim (label "cost-mgmt/tier" t) [
  | some l ↦ l
  | none ↦ elim (label "tier" t) [ some l ↦ l | none ↦ "" ]
]

abbrev project_of : Option ProjectRecord → String
project_of none = "default"
project_of (some p) = if str_eq p.project_id "" then "default" else p.project_id

module _ {D : Type 0} where
  -- the cache answers first; a tenant with no project of its own has the project "default"
  unfoldable pub default_project_for_tenant : Store D → String → String × Store D
  default_project_for_tenant s tenant =
      if str_eq tenant ""
      then ("default", s)
      else elim (find_row (λ (e : String × String). str_eq e.0 tenant) s.project_cache) [
        | some e ↦ (e.1, s)
        | none ↦
            let found =
              project_of (find_row (λ (p : ProjectRecord). str_eq p.tenant tenant) s.projects) in
            (found, record s { project_cache = (tenant, found) ∷ s.project_cache })
      ]

  unfoldable pub tenant_tier : Store D → String → String
  tenant_tier s tenant =
      if str_eq tenant ""
      then "standard"
      else elim (find_row (λ (t : TenantRecord). str_eq t.tenant_id tenant) s.tenants) [
        | none ↦ "standard"
        | some t ↦ if str_eq (tier_label t) "" then "standard" else tier_label t
      ]

  unfoldable pub billable_compute_instances : Store D → List ComputeInstanceRecord
  billable_compute_instances s =
      where_rows (λ r. is_null r.deleted_at && str_eq r.state "COMPUTE_INSTANCE_STATE_RUNNING")
        s.compute_instances

  unfoldable pub update_compute_instance_last_metered : String → ℕ → Store D → Store D
  update_compute_instance_last_metered id t s = record s {
    compute_instances =
        update_rows (λ r. str_eq r.instance_id id) (λ r. record r { last_metered_at = some t })
          s.compute_instances;
  }

  unfoldable pub get_compute_instance : Store D → String → Option ComputeInstanceRecord
  get_compute_instance s id = find_row (λ r. str_eq r.instance_id id) s.compute_instances

  unfoldable pub billable_clusters : Store D → List ClusterRecord
  billable_clusters s =
      where_rows
        (λ r.
          is_null r.deleted_at
          && (str_eq r.state "CLUSTER_STATE_READY" || str_eq r.state "CLUSTER_STATE_PROGRESSING"))
        s.clusters

  unfoldable pub update_cluster_last_metered : String → ℕ → Store D → Store D
  update_cluster_last_metered id t s = record s {
    clusters =
        update_rows (λ r. str_eq r.cluster_id id) (λ r. record r { last_metered_at = some t })
          s.clusters;
  }

  unfoldable pub upsert_model : ModelRecord → Store D → Store D
  upsert_model new s = record s {
    models =
        upsert_row (λ r. str_eq r.model_id new.model_id)
          (λ r. record new { created_at = r.created_at }) new s.models;
  }

  unfoldable pub upsert_compute_instance : ComputeInstanceRecord → Store D → Store D
  upsert_compute_instance new s = record s {
    compute_instances =
        upsert_row (λ r. str_eq r.instance_id new.instance_id)
          (λ r. record new { created_at = r.created_at; last_metered_at = r.last_metered_at })
          (record new { last_metered_at = none }) s.compute_instances;
  }

  unfoldable pub mark_compute_instance_deleted : String → ℕ → String → Store D → Store D
  mark_compute_instance_deleted id deleted_at event_id s = record s {
    compute_instances =
        update_rows (λ r. str_eq r.instance_id id && is_null r.deleted_at)
          (λ r. record r { deleted_at = some deleted_at; last_event_id = event_id })
          s.compute_instances;
  }

  unfoldable pub upsert_cluster : ClusterRecord → Store D → Store D
  upsert_cluster new s = record s {
    clusters =
        upsert_row (λ r. str_eq r.cluster_id new.cluster_id)
          (λ r. record new { created_at = r.created_at; last_metered_at = r.last_metered_at })
          (record new { last_metered_at = none }) s.clusters;
  }

  unfoldable pub mark_cluster_deleted : String → ℕ → String → Store D → Store D
  mark_cluster_deleted id deleted_at event_id s = record s {
    clusters =
        update_rows (λ r. str_eq r.cluster_id id && is_null r.deleted_at)
          (λ r. record r { deleted_at = some deleted_at; last_event_id = event_id }) s.clusters;
  }

  unfoldable pub upsert_bare_metal_instance : BareMetalInstanceRecord → Store D → Store D
  upsert_bare_metal_instance new s = record s {
    bare_metal_instances =
        upsert_row (λ r. str_eq r.instance_id new.instance_id)
          (λ r. record new { created_at = r.created_at; last_metered_at = r.last_metered_at })
          (record new { last_metered_at = none }) s.bare_metal_instances;
  }

  unfoldable pub mark_bare_metal_instance_deleted : String → ℕ → String → Store D → Store D
  mark_bare_metal_instance_deleted id deleted_at event_id s = record s {
    bare_metal_instances =
        update_rows (λ r. str_eq r.instance_id id && is_null r.deleted_at)
          (λ r. record r { deleted_at = some deleted_at; last_event_id = event_id })
          s.bare_metal_instances;
  }

  unfoldable pub billable_bare_metal_instances : Store D → List BareMetalInstanceRecord
  billable_bare_metal_instances s =
      where_rows (λ r. is_null r.deleted_at && str_eq r.state "BARE_METAL_INSTANCE_STATE_RUNNING")
        s.bare_metal_instances

  unfoldable pub update_bare_metal_instance_last_metered : String → ℕ → Store D → Store D
  update_bare_metal_instance_last_metered id t s = record s {
    bare_metal_instances =
        update_rows (λ r. str_eq r.instance_id id) (λ r. record r { last_metered_at = some t })
          s.bare_metal_instances;
  }

  unfoldable pub get_bare_metal_instance : Store D → String → Option BareMetalInstanceRecord
  get_bare_metal_instance s id = find_row (λ r. str_eq r.instance_id id) s.bare_metal_instances

  unfoldable pub list_alive_compute_instances : Store D → List ComputeInstanceRecord
  list_alive_compute_instances s = where_rows (λ r. is_null r.deleted_at) s.compute_instances

  unfoldable pub list_alive_clusters : Store D → List ClusterRecord
  list_alive_clusters s = where_rows (λ r. is_null r.deleted_at) s.clusters

  unfoldable pub list_alive_bare_metal_instances : Store D → List BareMetalInstanceRecord
  list_alive_bare_metal_instances s = where_rows (λ r. is_null r.deleted_at) s.bare_metal_instances

  unfoldable pub upsert_project : ProjectRecord → Store D → Store D
  upsert_project new s = record s {
    projects =
        upsert_row (λ r. str_eq r.project_id new.project_id)
          (λ r. record new { created_at = r.created_at }) new s.projects;
    project_cache =
        where_rows (λ (e : String × String). not (str_eq e.0 new.tenant)) s.project_cache;
  }

  unfoldable pub upsert_tenant : TenantRecord → Store D → Store D
  upsert_tenant new s = record s {
    tenants =
        upsert_row (λ r. str_eq r.tenant_id new.tenant_id)
          (λ r. record new { created_at = r.created_at }) new s.tenants;
  }

  unfoldable pub upsert_instance_type : InstanceTypeRecord → Store D → Store D
  upsert_instance_type new s = record s {
    instance_types =
        upsert_row (λ r. str_eq r.instance_type_id new.instance_type_id) (λ _. new) new
          s.instance_types;
  }

  unfoldable pub get_instance_type : Store D → String → Option InstanceTypeRecord
  get_instance_type s id = find_row (λ r. str_eq r.instance_type_id id) s.instance_types

  unfoldable pub list_all_instance_types : Store D → List InstanceTypeRecord
  list_all_instance_types s = s.instance_types

  -- `item_type` stays
  unfoldable pub upsert_catalog_item : CatalogItemRecord → Store D → Store D
  upsert_catalog_item new s = record s {
    catalog_items =
        upsert_row (λ r. str_eq r.catalog_item_id new.catalog_item_id)
          (λ r. record new { item_type = r.item_type }) new s.catalog_items;
  }
