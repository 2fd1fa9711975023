-- ===== src/Reconciler/Tests.antt =====
-- Runs of the reconciler.
use cost_ai_grid_poc.Prelude.{◌≡◌, refl, false, true, none, some, [], ◌∷◌}
use cost_ai_grid_poc.Store.Alive.{instance_alive, cluster_alive, bare_metal_alive}
use cost_ai_grid_poc.Fixtures.{store}
use cost_ai_grid_poc.Osac.{Cluster}
use cost_ai_grid_poc.Reconciler.{MapOrder, Listings, reconcile_all}
use cost_ai_grid_poc.Reconciler.Converged.{reconcile_all-Converged}

abbrev in_order : MapOrder
in_order = record { range = λ A xs. xs; any-range = λ A p xs. refl }

abbrev cluster : Cluster
cluster = record {
  id = "c1";
  metadata = record {
    creation_timestamp = none;
    deletion_timestamp = none;
    name = "";
    tenant = "acme";
    labels = [];
  };
  spec = record { template = ""; node_sets = [] };
  state = "CLUSTER_STATE_READY";
}

-- no compute instance, one cluster, and no answer about the bare metal instances
abbrev listings : Listings
listings = record {
  projects = some [];
  tenants = none;
  compute_instances = some [];
  clusters = some (cluster ∷ []);
  instance_types = none;
  bare_metal_instances = none;
  cluster_catalog_items = none;
  compute_instance_catalog_items = none;
  bare_metal_instance_catalog_items = none;
}

reconcile_all-Converged_example :
    (instance_alive "c1" (reconcile_all in_order 500 listings store) ≡ false)
    × (cluster_alive "c1" (reconcile_all in_order 500 listings store) ≡ true)
    × (bare_metal_alive "c1" (reconcile_all in_order 500 listings store) ≡ false)
reconcile_all-Converged_example = reconcile_all-Converged in_order 500 listings store "c1"

missed_deletion : instance_alive "i1" (reconcile_all in_order 500 listings store) ≡ false
missed_deletion = (reconcile_all-Converged in_order 500 listings store "i1").0
