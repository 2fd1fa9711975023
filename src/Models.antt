-- ===== src/Models.antt =====
-- The rows of the store: inventory-watcher/internal/inventory/models.go. A float64 quantity is a
-- whole number of millionths, the scale of its columns, an instant a number of microseconds (Calendar), JSON that the
-- program only passes on is a text, and a nullable column is an option.
use cost_ai_grid_poc.Prelude.{ℕ, String, Bool, Option, List}
use cost_ai_grid_poc.Prelude.Int.{ℤ}

pub record ComputeInstanceRecord : Type 0 where
  pub instance_id : String
  pub name : String
  pub tenant : String
  pub project : String
  pub cluster_id : String
  pub instance_type : String
  pub cores : ℤ
  pub memory_gib : ℤ
  pub state : String
  pub created_at : ℕ
  pub deleted_at : Option ℕ
  pub last_event_id : String
  pub last_metered_at : Option ℕ

pub record NodeSet : Type 0 where
  pub host_type : String
  pub size : ℤ

pub record ClusterRecord : Type 0 where
  pub cluster_id : String
  pub name : String
  pub tenant : String
  pub template : String
  -- the decoded `node_sets`; a text that does not decode has none
  pub node_sets : List NodeSet
  pub state : String
  pub created_at : ℕ
  pub deleted_at : Option ℕ
  pub last_event_id : String
  pub last_metered_at : Option ℕ

pub record ModelRecord : Type 0 where
  pub model_id : String
  pub name : String
  pub model_name : String
  pub tenant : String
  pub project : String
  pub template : String
  pub state : String
  pub created_at : ℕ
  pub deleted_at : Option ℕ
  pub last_event_id : String

pub record BareMetalInstanceRecord : Type 0 where
  pub instance_id : String
  pub name : String
  pub tenant : String
  pub catalog_item : String
  pub state : String
  pub created_at : ℕ
  pub deleted_at : Option ℕ
  pub last_event_id : String
  pub last_metered_at : Option ℕ

pub record ProjectRecord : Type 0 where
  pub project_id : String
  pub name : String
  pub tenant : String
  pub created_at : ℕ
  pub deleted_at : Option ℕ

pub record TenantRecord : Type 0 where
  pub tenant_id : String
  pub name : String
  -- the members of the JSON object `labels`, which the tier is read from
  pub labels : List (String × String)
  pub created_at : ℕ
  pub deleted_at : Option ℕ

pub record CatalogItemRecord : Type 0 where
  pub catalog_item_id : String
  pub item_type : String
  pub name : String
  pub title : String
  pub description : String
  pub template : String
  pub published : Bool
  pub tenant : String

pub record InstanceTypeRecord : Type 0 where
  pub instance_type_id : String
  pub name : String
  pub cores : ℤ
  pub memory_gib : ℤ
  pub state : String

pub record MeteringEntry : Type 0 where
  pub id : ℕ
  pub resource_type : String
  pub resource_id : String
  pub tenant_id : String
  pub project_id : String
  pub user_id : String
  pub instance_type : String
  pub meter_name : String
  pub value : ℤ
  pub unit : String
  pub period_start : ℕ
  pub period_end : ℕ

pub record RawEvent : Type 0 where
  pub id : ℕ
  pub event_id : String
  pub event_type : String
  pub event_source : String
  pub event_time : ℕ
  pub tenant_id : String
  pub resource_type : String
  pub resource_id : String

pub record QuotaRecord : Type 0 where
  pub id : ℕ
  pub name : String
  pub tenant_id : String
  pub project_id : String
  pub resource_type : String
  pub meter_name : String
  pub limit_value : ℤ
  pub unit : String
  pub period : String
  pub policy : String
  pub thresholds : List ℤ
  pub effective_from : ℕ
  pub effective_to : Option ℕ

pub record AlertRecord : Type 0 where
  pub tenant_id : String
  pub meter_name : String
  pub threshold_pct : ℤ
  pub consumed : ℤ
  pub limit_value : ℤ
  -- the label of the window
  pub period : List ℕ

-- Amounts of money are decimals of the type `D`.
pub record Tier (D : Type 0) : Type 0 where
  pub up_to : Option ℤ
  pub price_per_unit : D

pub record RateRecord (D : Type 0) : Type 0 where
  pub id : ℕ
  pub tenant_id : Option String
  pub resource_type : String
  pub instance_type : String
  pub meter_name : String
  pub koku_metric : String
  pub cost_type : String
  pub price_per_unit : D
  pub currency : String
  pub tiers : List (Tier D)
  pub tier_mode : String
  pub tier_period : String
  pub effective_from : ℕ
  pub effective_to : Option ℕ

pub record CostEntry (D : Type 0) : Type 0 where
  pub id : ℕ
  pub metering_entry_id : ℕ
  pub rate_id : ℕ
  pub tenant_id : String
  pub project_id : String
  pub user_id : String
  pub resource_type : String
  pub resource_id : String
  pub meter_name : String
  pub metered_value : ℤ
  pub cost_amount : D
  pub currency : String
  pub period_start : ℕ
  pub period_end : ℕ
  pub wallet_applied : D

pub record WalletRecord (D : Type 0) : Type 0 where
  pub id : String
  pub tenant_id : String
  pub project_id : String
  pub currency : String
  pub balance : D
  pub balance_floor : D
  pub reference_balance : D
  pub lifecycle_state : String
  pub thresholds : List ℤ
  pub created_at : ℕ

pub data EntryType : Type 0 where
  top_up deduction adjustment : EntryType

pub record WalletLedgerEntry (D : Type 0) : Type 0 where
  pub id : ℕ
  pub wallet_id : String
  pub entry_type : EntryType
  pub amount : D
  pub balance_after : D
  pub currency : String
  pub cost_entry_id : Option ℕ
  pub external_ref : String
  pub reason : String
