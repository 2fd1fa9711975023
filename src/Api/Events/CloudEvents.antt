-- ===== src/Api/Events/CloudEvents.antt =====
-- `cloudEventInternal`, the event types, and how an event is refused or fails.
use cost_ai_grid_poc.Prelude.{ℕ, String, Bool, ◌||◌, ◌*◌, Option, List, str_eq}
use cost_ai_grid_poc.Calendar.{second}
use cost_ai_grid_poc.Json.{Json}
use cost_ai_grid_poc.CustomMetrics.Config.{MetricDef}
use cost_ai_grid_poc.CustomMetrics.Extract.{Formats}
use cost_ai_grid_poc.Store.{ReceiptError}

pub record CloudEvent : Type 0 where
  pub spec_version : String
  pub type : String
  pub source : String
  pub id : String
  pub time : ℕ
  pub subject : String
  pub data_content_type : String
  -- the raw `data`, if there is one
  pub payload : Option Json
  pub osac_resource_id : String
  pub osac_resource_type : String
  pub osac_tenant : String
  pub osac_project : String
  pub osac_trace : String

-- what the handler of the events is made with; `digest` is the SHA-256 of the event's encoding
pub record EventHandler : Type 0 where
  pub custom_metrics : Option (List MetricDef)
  pub formats : Formats
  pub digest : CloudEvent → String

-- the causes of an `eventValidationError`
pub data Invalid : Type 0 where
  batch_size spec_version attributes no_payload too_old too_future no_identity id_length : Invalid
  no_extensions v1_payload v1_identity : Invalid

pub data EventError : Type 0 where
  invalid : Invalid → EventError
  collision : ReceiptError → EventError
  -- an error of the processing of an event
  failed : EventError

abbrev pub max_id_length : ℕ
max_id_length = 256

abbrev pub max_event_age : ℕ
max_event_age = 7200 * second

abbrev pub max_event_future : ℕ
max_event_future = 300 * second

abbrev pub max_batch_events : ℕ
max_batch_events = 100

unfoldable pub is_osac_v1_event_type : String → Bool
is_osac_v1_event_type t =
    str_eq t "osac.resource.created.v1"
    || str_eq t "osac.resource.deleted.v1"
    || str_eq t "osac.resource.started.v1"
    || str_eq t "osac.resource.suspended.v1"
    || str_eq t "osac.resource.resumed.v1"
    || str_eq t "osac.resource.updated.v1"
    || str_eq t "osac.resource.heartbeat.v1"

-- the lifecycle events and the usage of an inference
abbrev pub is_v1 : String → Bool
is_v1 t = is_osac_v1_event_type t || str_eq t "osac.inference.usage.v1"
