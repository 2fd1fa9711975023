-- ===== src/Watcher/Tests.antt =====
-- Runs of the watcher.
use cost_ai_grid_poc.Prelude.{String, ℕ, ◌≡◌, refl, false, true, none, some, List, [], ◌∷◌}
use cost_ai_grid_poc.Prelude.Int.{pos}
use cost_ai_grid_poc.Store.Alive.{instance_alive}
use cost_ai_grid_poc.Fixtures.{store}
use cost_ai_grid_poc.Osac.{
  Event, Metadata, event_type_created, event_type_updated, event_type_deleted,
}
use cost_ai_grid_poc.Watcher.{extract_event_meta, handle_event, watch}
use cost_ai_grid_poc.Watcher.Alive.{watch-Alive}

abbrev metadata : Metadata
metadata = record {
  creation_timestamp = some 50;
  deletion_timestamp = none;
  name = "vm";
  tenant = "acme";
  labels = [];
}

abbrev about : String → String → Event
about type id = record {
  id = "e";
  type = type;
  cluster = none;
  has_cluster_template = false;
  compute_instance = some (record {
    id = id;
    metadata = metadata;
    spec = record { cores = some (pos 2); memory_gib = none; instance_type = "small" };
    state = "COMPUTE_INSTANCE_STATE_RUNNING";
  });
  has_compute_instance_template = false;
  has_host_type = false;
  instance_type = none;
  project = none;
  tenant = none;
  has_role = false;
  has_role_binding = false;
  bare_metal_instance = none;
}

abbrev events : List (ℕ × Event)
events =
    (200, about event_type_created "i2")
    ∷ (210, about event_type_deleted "i1")
    ∷ (220, about event_type_updated "i2")
    ∷ []

watch-Alive_example : instance_alive "i1" (watch false events store).1 ≡ false
watch-Alive_example = watch-Alive "i1" events store

created_alive : instance_alive "i2" (watch false events store).1 ≡ true
created_alive = watch-Alive "i2" events store

handed_off : handle_event true 200 (about event_type_deleted "i1") store ≡ (
  record { event_type = event_type_deleted; resource_id = "i1"; tenant_id = "acme" } ∷ [],
  store,
)
unfolding handle_event extract_event_meta
handed_off = refl
