-- ===== src/Api/Events/Inference.antt =====
-- `processModelEvent` and `processOSACInference`.
pub mod Unmetered
use Prim.Native.String.{slice}
use text.Mathlib.Text.{find?}
use cost_ai_grid_poc.Prelude.{String, ◌&&◌, Option, none, some, ltb, if◌then◌else◌}
use cost_ai_grid_poc.Prelude.Int.{ℤ, pos, ◌*ℤ◌, ltb_ℤ}
use cost_ai_grid_poc.Decimal.{is_zero_ℤ}
use cost_ai_grid_poc.Models.{ModelRecord}
use cost_ai_grid_poc.Metering.{MaasUsage, meter_maas_event}
use cost_ai_grid_poc.CustomMetrics.Extract.{trim_prefix}
use cost_ai_grid_poc.Store.{Store, upsert_model}
use cost_ai_grid_poc.Api.Events.CloudEvents.{CloudEvent, EventError, failed}
use cost_ai_grid_poc.Api.Events.Validate.{first_text}
use cost_ai_grid_poc.Api.Events.Resources.{before}
use cost_ai_grid_poc.Api.Events.Payloads.{
  MeteringData, MaasBillingDimensions, maas_billing_dimensions, MaasEventData, maas_event_data,
}

-- the second number if it is positive and the first is 0
abbrev pub first_number : ℤ → ℤ → ℤ
first_number a b = if ltb_ℤ (pos 0) b && is_zero_ℤ a then b else a

-- the namespace of a subscription without its prefix; there is none before a leading slash
abbrev pub tenant_of_subscription : String → String
tenant_of_subscription sub = elim (find? sub "/") [
  | none ↦ ""
  | some i ↦ if ltb 0 i then trim_prefix (slice sub 0 i) "ai-tenant-" else ""
]

unfoldable pub tenant_of_model_event : MaasEventData → String
tenant_of_model_event d = first_text d.tenant_id (
    first_text d.organization_id
      (first_text (tenant_of_subscription d.subscription) (first_text d.group d.user)))

-- milliseconds as seconds, in millionths
abbrev pub of_milliseconds : ℤ → ℤ
of_milliseconds ms = ms *ℤ pos 1000

-- The formats of the fields are made one.
unfoldable pub normalize : MaasEventData → MaasEventData
unfolding tenant_of_model_event
normalize d = record d {
  tokens_in = first_number d.tokens_in d.prompt_tokens;
  tokens_out = first_number d.tokens_out d.completion_tokens;
  model_name = first_text d.model_name d.model;
  model_id = first_text d.model_id d.model;
  tenant_id = tenant_of_model_event d;
  duration_seconds = first_number d.duration_seconds (of_milliseconds d.duration_ms);
  requests = first_number d.requests d.request_count;
  state = first_text d.state "MODEL_STATE_RUNNING";
}

abbrev pub model_record : CloudEvent → String → String → String → String → String → ℤ → ModelRecord
model_record ce id name tenant template state duration = record {
  model_id = id;
  name = name;
  model_name = name;
  tenant = tenant;
  project = "";
  template = template;
  state = state;
  created_at = before ce.time duration;
  deleted_at = none;
  last_event_id = ce.id;
}

abbrev pub osac_duration : MeteringData → MaasBillingDimensions → ℤ
osac_duration md bd = elim md.duration_seconds [
  | some d ↦ d
  | none ↦ if ltb_ℤ (pos 0) bd.duration_ms then of_milliseconds bd.duration_ms else pos 0
]

module _ {D : Type 0} where
  unfoldable pub process_model_event : CloudEvent → Store D → Option EventError × Store D
  unfolding normalize
  process_model_event ce s = elim (maas_event_data ce.payload) [
    | none ↦ (some failed, s)
    | some raw ↦
        let d = normalize raw in
        let s1 =
          upsert_model
            (model_record ce d.model_id d.model_name d.tenant_id d.template d.state
              d.duration_seconds)
            s in
        let usage : MaasUsage = record {
          model_id = d.model_id;
          tenant_id = d.tenant_id;
          user_id = d.user;
          state = d.state;
          tokens_in = d.tokens_in;
          tokens_out = d.tokens_out;
          requests = d.requests;
          event_time = ce.time;
          duration_seconds = d.duration_seconds;
        } in
        if ltb_ℤ raw.duration_seconds (pos 0)
        then (some failed, s)
        else (none, meter_maas_event usage s1)
  ]

  unfoldable pub process_osac_inference :
      CloudEvent → MeteringData → Store D → Option EventError × Store D
  process_osac_inference ce md s =
      let bd = maas_billing_dimensions md.billing_dimensions in
      let id = first_text bd.model md.resource_id in
      let duration = osac_duration md bd in
      let tenant = first_text md.tenant_id bd.organization_id in
      let s1 =
        upsert_model (model_record ce id bd.model tenant "" "MODEL_STATE_RUNNING" duration) s in
      let usage : MaasUsage = record {
        model_id = id;
        tenant_id = tenant;
        user_id = "";
        state = "";
        tokens_in = bd.prompt_tokens;
        tokens_out = bd.completion_tokens;
        requests = pos 1;
        event_time = ce.time;
        duration_seconds = duration;
      } in
      (none, meter_maas_event usage s1)
