-- ===== src/Store/Tables.antt =====
-- The tables that `RunMigrations` creates, and the caches that the process keeps beside them.
use cost_ai_grid_poc.Prelude.{ℕ, String, List, Bool}
use cost_ai_grid_poc.Models.{
  ComputeInstanceRecord, ClusterRecord, ModelRecord, BareMetalInstanceRecord, ProjectRecord,
  TenantRecord, CatalogItemRecord, InstanceTypeRecord, MeteringEntry, QuotaRecord, AlertRecord,
  RawEvent, RateRecord, CostEntry, WalletRecord, WalletLedgerEntry,
}

-- a row of `metering_entries`, with whether `rated_at` is set
pub record MeteringRow : Type 0 where
  pub entry : MeteringEntry
  pub rated : Bool

-- a row of `ingestion_receipts`
pub record Receipt : Type 0 where
  pub source : String
  pub event_id : String
  pub digest : String

pub record Store (D : Type 0) : Type 0 where
  pub compute_instances : List ComputeInstanceRecord
  pub clusters : List ClusterRecord
  pub models : List ModelRecord
  pub bare_metal_instances : List BareMetalInstanceRecord
  pub catalog_items : List CatalogItemRecord
  pub instance_types : List InstanceTypeRecord
  pub projects : List ProjectRecord
  pub tenants : List TenantRecord
  pub metering_entries : List MeteringRow
  -- the sequences behind the serial ids
  pub next_metering_id : ℕ
  pub rates : List (RateRecord D)
  pub cost_entries : List (CostEntry D)
  pub next_cost_id : ℕ
  pub quotas : List QuotaRecord
  pub next_quota_id : ℕ
  pub alerts : List AlertRecord
  pub wallets : List (WalletRecord D)
  pub wallet_ledger : List (WalletLedgerEntry D)
  pub next_ledger_id : ℕ
  pub raw_events : List RawEvent
  pub next_raw_id : ℕ
  -- `last_sent_id` of the one row of `splunk_cursor`
  pub splunk_cursor : ℕ
  pub receipts : List Receipt
  -- `Store.projectCache`
  pub project_cache : List (String × String)
