-- ===== src/Agent/Kube.antt =====
-- The parts of the Kubernetes objects (k8s.io/api/core/v1) that kube-cost-agent reads. A quantity is
-- a number of thousandths, its method Value a setting of the model. A map is the list of its members, none if it is nil.
use cost_ai_grid_poc.Prelude.{ℕ, String, Option, none, some, List, str_eq, find_row}

-- `m[key]`
abbrev pub member : {A : Type 0} → String → List (String × A) → Option A
member key m = elim (find_row (λ e. str_eq e.0 key) m) [ none ↦ none | some e ↦ some e.1 ]

pub record Container : Type 0 where
  pub requests : List (String × ℕ)
  pub limits : List (String × ℕ)

pub record Pod : Type 0 where
  pub namespace : String
  pub name : String
  pub labels : List (String × String)
  pub node_name : String
  pub containers : List Container
  pub phase : String
  pub qos_class : String
  -- the kind and the name of each
  pub owner_references : List (String × String)
  pub start_time : Option ℕ
  pub creation_timestamp : ℕ

pub record Node : Type 0 where
  pub name : String
  pub labels : List (String × String)
  pub capacity : List (String × ℕ)
  pub allocatable : List (String × ℕ)

pub record PersistentVolumeClaim : Type 0 where
  pub namespace : String
  pub name : String
  pub labels : List (String × String)
  pub storage_class_name : Option String
  pub volume_name : String
  pub access_modes : List String
  pub phase : String
  pub requests : List (String × ℕ)
  pub capacity : List (String × ℕ)

pub record Ingress : Type 0 where
  pub ip : String
  pub hostname : String

pub record ServicePort : Type 0 where
  pub name : String
  pub port : ℕ
  pub protocol : String

pub record Service : Type 0 where
  pub namespace : String
  pub name : String
  pub labels : List (String × String)
  pub type : String
  pub ingress : List Ingress
  pub ports : List ServicePort

-- What an informer hands over: an object, or the last state that is known of a deleted one.
pub data Object : Type 0 where
  a_pod : Pod → Object
  a_node : Node → Object
  a_claim : PersistentVolumeClaim → Object
  a_service : Service → Object
  deleted_final_state_unknown : Object → Object
  other_object : Object
