-- ===== src/Fixtures.antt =====
-- A store with a little of everything, over decimals that are whole numbers.
use cost_ai_grid_poc.Prelude.{ℕ, false, none, some, List, [], ◌∷◌}
use cost_ai_grid_poc.Prelude.Int.{ℤ, pos}
use cost_ai_grid_poc.Models.{
  ComputeInstanceRecord, MeteringEntry, QuotaRecord, Tier, RateRecord, CostEntry, WalletRecord,
}
use cost_ai_grid_poc.Store.{Store}

abbrev pub wallet : WalletRecord ℤ
wallet = record {
  id = "w1";
  tenant_id = "acme";
  project_id = "";
  currency = "USD";
  balance = pos 50000;
  balance_floor = pos 10000;
  reference_balance = pos 50000;
  lifecycle_state = "active";
  thresholds = [];
  created_at = 0;
}

abbrev pub cost : CostEntry ℤ
cost = record {
  id = 1;
  metering_entry_id = 1;
  rate_id = 1;
  tenant_id = "acme";
  project_id = "";
  user_id = "";
  resource_type = "model";
  resource_id = "m1";
  meter_name = "maas_tokens_in";
  metered_value = pos 1000000;
  cost_amount = pos 60000;
  currency = "USD";
  period_start = 0;
  period_end = 10;
  wallet_applied = pos 0;
}

abbrev pub tiers : List (Tier ℤ)
tiers =
    record { up_to = some (pos 100); price_per_unit = pos 3 }
    ∷ record { up_to = none; price_per_unit = pos 2 }
    ∷ []

abbrev pub rate : RateRecord ℤ
rate = record {
  id = 1;
  tenant_id = none;
  resource_type = "model";
  instance_type = "";
  meter_name = "maas_tokens_in";
  koku_metric = "";
  cost_type = "Supplementary";
  price_per_unit = pos 0;
  currency = "USD";
  tiers = tiers;
  tier_mode = "cumulative";
  tier_period = "daily";
  effective_from = 0;
  effective_to = none;
}

abbrev pub tokens : ℕ → ℤ → ℕ → MeteringEntry
tokens id value to = record {
  id = id;
  resource_type = "model";
  resource_id = "m1";
  tenant_id = "acme";
  project_id = "";
  user_id = "";
  instance_type = "";
  meter_name = "maas_tokens_in";
  value = value;
  unit = "tokens";
  period_start = 0;
  period_end = to;
}

abbrev pub quota : QuotaRecord
quota = record {
  id = 1;
  name = "";
  tenant_id = "acme";
  project_id = "";
  resource_type = "";
  meter_name = "maas_tokens_in";
  limit_value = pos 200;
  unit = "tokens";
  period = "daily";
  policy = "";
  thresholds = [];
  effective_from = 0;
  effective_to = none;
}

abbrev pub instance_1 : ComputeInstanceRecord
instance_1 = record {
  instance_id = "i1";
  name = "";
  tenant = "acme";
  project = "p1";
  cluster_id = "";
  instance_type = "";
  cores = pos 2;
  memory_gib = pos 4;
  state = "COMPUTE_INSTANCE_STATE_RUNNING";
  created_at = 100;
  deleted_at = none;
  last_event_id = "";
  last_metered_at = none;
}

abbrev pub store : Store ℤ
store = record {
  compute_instances = instance_1 ∷ [];
  clusters = [];
  models = [];
  bare_metal_instances = [];
  catalog_items = [];
  instance_types = [];
  projects = [];
  tenants = [];
  metering_entries =
      record { entry = tokens 1 (pos 70) 10; rated = false }
      ∷ record { entry = tokens 2 (pos 50) 20; rated = false }
      ∷ [];
  next_metering_id = 3;
  rates = rate ∷ [];
  cost_entries = cost ∷ [];
  next_cost_id = 2;
  quotas = quota ∷ [];
  next_quota_id = 2;
  alerts = [];
  wallets = wallet ∷ [];
  wallet_ledger = [];
  next_ledger_id = 1;
  raw_events = [];
  next_raw_id = 1;
  splunk_cursor = 0;
  receipts = [];
  project_cache = [];
}
