-- ===== src/Osac.antt =====
-- The objects of the OSAC API: inventory-watcher/internal/osac/types.go, the fields that the
-- watcher and the reconciler read. A pointer is an option, a map the list of its members.
use cost_ai_grid_poc.Prelude.{ℕ, String, Bool, Option, List}
use cost_ai_grid_poc.Prelude.Int.{ℤ}

pub record Metadata : Type 0 where
  pub creation_timestamp : Option ℕ
  pub deletion_timestamp : Option ℕ
  pub name : String
  pub tenant : String
  pub labels : List (String × String)

pub record ClusterNodeSet : Type 0 where
  pub host_type : String
  pub size : ℤ

pub record ClusterSpec : Type 0 where
  pub template : String
  pub node_sets : List (String × ClusterNodeSet)

pub record Cluster : Type 0 where
  pub id : String
  pub metadata : Metadata
  pub spec : ClusterSpec
  -- `status.state`
  pub state : String

pub record ComputeInstanceSpec : Type 0 where
  pub cores : Option ℤ
  pub memory_gib : Option ℤ
  -- `instance_type.id`
  pub instance_type : String

pub record ComputeInstance : Type 0 where
  pub id : String
  pub metadata : Metadata
  pub spec : ComputeInstanceSpec
  -- `status.state`
  pub state : String

pub record InstanceTypeSpec : Type 0 where
  pub cores : ℤ
  pub memory_gib : ℤ
  pub state : String

pub record InstanceType : Type 0 where
  pub id : String
  pub metadata : Metadata
  pub spec : InstanceTypeSpec

pub record Project : Type 0 where
  pub id : String
  pub metadata : Metadata

pub record Tenant : Type 0 where
  pub id : String
  pub metadata : Metadata

pub record BareMetalInstance : Type 0 where
  pub id : String
  pub metadata : Metadata
  -- `spec.catalog_item`
  pub catalog_item : String
  -- `status.state`
  pub state : String

pub record CatalogItem : Type 0 where
  pub id : String
  pub metadata : Metadata
  pub title : String
  pub description : String
  pub template : String
  pub published : Bool

-- An event of the Watch stream. Of the kinds that the service does not keep, only whether the
-- object is there.
pub record Event : Type 0 where
  pub id : String
  pub type : String
  pub cluster : Option Cluster
  pub has_cluster_template : Bool
  pub compute_instance : Option ComputeInstance
  pub has_compute_instance_template : Bool
  pub has_host_type : Bool
  pub instance_type : Option InstanceType
  pub project : Option Project
  pub tenant : Option Tenant
  pub has_role : Bool
  pub has_role_binding : Bool
  pub bare_metal_instance : Option BareMetalInstance

abbrev pub event_type_created : String
event_type_created = "EVENT_TYPE_OBJECT_CREATED"

abbrev pub event_type_updated : String
event_type_updated = "EVENT_TYPE_OBJECT_UPDATED"

abbrev pub event_type_deleted : String
event_type_deleted = "EVENT_TYPE_OBJECT_DELETED"
