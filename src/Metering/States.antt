-- ===== src/Metering/States.antt =====
-- The billable states of each kind of resource.
use cost_ai_grid_poc.Prelude.{String, Bool, ◌||◌, str_eq}

unfoldable pub is_compute_instance_billable : String → Bool
is_compute_instance_billable state =
    str_eq state "COMPUTE_INSTANCE_STATE_RUNNING" || str_eq state "RUNNING"

unfoldable pub is_cluster_billable : String → Bool
is_cluster_billable state =
    str_eq state "CLUSTER_STATE_READY"
    || str_eq state "CLUSTER_STATE_PROGRESSING"
    || str_eq state "READY"
    || str_eq state "PROGRESSING"

unfoldable pub is_model_billable : String → Bool
is_model_billable state = str_eq state "MODEL_STATE_RUNNING" || str_eq state "RUNNING"

unfoldable pub is_bare_metal_billable : String → Bool
is_bare_metal_billable state =
    str_eq state "BARE_METAL_INSTANCE_STATE_RUNNING" || str_eq state "RUNNING"
