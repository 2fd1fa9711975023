-- ===== src/Api/Events/Payloads.antt =====
-- The structs that the data of an event is decoded into.
use cost_ai_grid_poc.Prelude.{String, Bool, ◌&&◌, Option, none, some, if◌then◌else◌}
use cost_ai_grid_poc.Prelude.Int.{ℤ}
use cost_ai_grid_poc.Json.{
  Json, null, is_struct, field_of, as_text, is_text, as_text?, as_int, is_int, as_float, is_float,
  as_float?,
}

abbrev text : String → Json → String
text k j = as_text (field_of k j)

abbrev int64 : String → Json → ℤ
int64 k j = as_int 63 (field_of k j)

abbrev pub are_text : Json → String → String → String → String → Bool
are_text j k1 k2 k3 k4 =
    is_text (field_of k1 j)
    && is_text (field_of k2 j)
    && is_text (field_of k3 j)
    && is_text (field_of k4 j)

abbrev pub are_int64 : Json → String → String → String → String → Bool
are_int64 j k1 k2 k3 k4 =
    is_int 63 (field_of k1 j)
    && is_int 63 (field_of k2 j)
    && is_int 63 (field_of k3 j)
    && is_int 63 (field_of k4 j)

-- json.Unmarshal of the data of an event
abbrev pub unmarshal : {A : Type 0} → (Json → Bool) → (Json → A) → Option Json → Option A
unmarshal fits make none = none
unmarshal fits make (some j) = if is_struct j && fits j then some (make j) else none

pub record MeteringData : Type 0 where
  pub resource_id : String
  pub resource_type : String
  pub tenant_id : String
  pub project_id : Option String
  pub template_id : Option String
  pub current_state : String
  pub duration_seconds : Option ℤ
  -- `null` if there are none
  pub billing_dimensions : Json

abbrev or_null : Option Json → Json
or_null none = null
or_null (some j) = j

unfoldable pub metering_data : Option Json → Option MeteringData
metering_data =
    unmarshal
      (λ j.
        are_text j "resource_id" "resource_type" "tenant_id" "project_id"
        && are_text j "catalog_item_id" "template_id" "previous_state" "current_state"
        && is_text (field_of "transition_time" j)
        && is_text (field_of "schema_version" j)
        && is_float (field_of "duration_seconds" j))
      (λ j. record {
        resource_id = text "resource_id" j;
        resource_type = text "resource_type" j;
        tenant_id = text "tenant_id" j;
        project_id = as_text? (field_of "project_id" j);
        template_id = as_text? (field_of "template_id" j);
        current_state = text "current_state" j;
        duration_seconds = as_float? (field_of "duration_seconds" j);
        billing_dimensions = or_null (field_of "billing_dimensions" j);
      })

-- The dimensions are decoded without a look at the error: a field of another type is left out.
abbrev pub vm_instance_type : Json → String
vm_instance_type j = text "instance_type" j

abbrev pub cluster_template : Json → String
cluster_template j = text "cluster_template" j

pub record MaasBillingDimensions : Type 0 where
  pub organization_id : String
  pub model : String
  pub prompt_tokens : ℤ
  pub completion_tokens : ℤ
  pub duration_ms : ℤ

unfoldable pub maas_billing_dimensions : Json → MaasBillingDimensions
maas_billing_dimensions j = record {
  organization_id = text "organization_id" j;
  model = text "model" j;
  prompt_tokens = int64 "prompt_tokens" j;
  completion_tokens = int64 "completion_tokens" j;
  duration_ms = int64 "duration_ms" j;
}

pub record ComputeInstanceEventData : Type 0 where
  pub duration_seconds : ℤ
  pub cpu_core_seconds : ℤ
  pub memory_gib_seconds : ℤ
  pub tenant_id : String
  pub instance_id : String
  pub state : String
  pub cores : ℤ
  pub memory_gib : ℤ

unfoldable pub compute_instance_event_data : Option Json → Option ComputeInstanceEventData
compute_instance_event_data =
    unmarshal
      (λ j.
        is_float (field_of "duration_seconds" j)
        && is_int 63 (field_of "cpu_core_seconds" j)
        && is_int 63 (field_of "memory_gib_seconds" j)
        && are_text j "tenant_id" "instance_id" "template" "catalog_item"
        && is_text (field_of "state" j)
        && is_int 31 (field_of "cores" j)
        && is_int 31 (field_of "memory_gib" j))
      (λ j. record {
        duration_seconds = as_float (field_of "duration_seconds" j);
        cpu_core_seconds = int64 "cpu_core_seconds" j;
        memory_gib_seconds = int64 "memory_gib_seconds" j;
        tenant_id = text "tenant_id" j;
        instance_id = text "instance_id" j;
        state = text "state" j;
        cores = as_int 31 (field_of "cores" j);
        memory_gib = as_int 31 (field_of "memory_gib" j);
      })

pub record ClusterEventData : Type 0 where
  pub duration_seconds : ℤ
  pub worker_node_seconds : ℤ
  pub tenant_id : String
  pub cluster_id : String
  pub state : String
  pub host_type : String

unfoldable pub cluster_event_data : Option Json → Option ClusterEventData
cluster_event_data =
    unmarshal
      (λ j.
        is_float (field_of "duration_seconds" j)
        && is_int 63 (field_of "worker_node_seconds" j)
        && is_int 31 (field_of "node_count" j)
        && are_text j "tenant_id" "cluster_id" "template" "state"
        && is_text (field_of "host_type" j))
      (λ j. record {
        duration_seconds = as_float (field_of "duration_seconds" j);
        worker_node_seconds = int64 "worker_node_seconds" j;
        tenant_id = text "tenant_id" j;
        cluster_id = text "cluster_id" j;
        state = text "state" j;
        host_type = text "host_type" j;
      })

pub record MaasEventData : Type 0 where
  pub tenant_id : String
  pub model_id : String
  pub model_name : String
  pub template : String
  pub state : String
  pub tokens_in : ℤ
  pub tokens_out : ℤ
  pub requests : ℤ
  pub duration_seconds : ℤ
  pub request_count : ℤ
  pub user : String
  pub group : String
  pub subscription : String
  pub organization_id : String
  pub model : String
  pub prompt_tokens : ℤ
  pub completion_tokens : ℤ
  pub duration_ms : ℤ

unfoldable pub maas_event_data : Option Json → Option MaasEventData
maas_event_data =
    unmarshal
      (λ j.
        are_text j "tenant_id" "model_id" "model_name" "template"
        && are_text j "state" "user" "group" "subscription"
        && are_text j "organization_id" "cost_center" "provider" "model"
        && are_int64 j "tokens_in" "tokens_out" "requests" "request_count"
        && are_int64 j "prompt_tokens" "completion_tokens" "total_tokens" "cached_input_tokens"
        && are_int64 j "cache_creation_tokens" "reasoning_tokens" "duration_ms" "duration_ms"
        && is_float (field_of "duration_seconds" j))
      (λ j. record {
        tenant_id = text "tenant_id" j;
        model_id = text "model_id" j;
        model_name = text "model_name" j;
        template = text "template" j;
        state = text "state" j;
        tokens_in = int64 "tokens_in" j;
        tokens_out = int64 "tokens_out" j;
        requests = int64 "requests" j;
        duration_seconds = as_float (field_of "duration_seconds" j);
        request_count = int64 "request_count" j;
        user = text "user" j;
        group = text "group" j;
        subscription = text "subscription" j;
        organization_id = text "organization_id" j;
        model = text "model" j;
        prompt_tokens = int64 "prompt_tokens" j;
        completion_tokens = int64 "completion_tokens" j;
        duration_ms = int64 "duration_ms" j;
      })
