-- ===== src/Api/Events/Tests.antt =====
-- Runs of the event ingestion on the fixtures.
use cost_ai_grid_poc.Prelude.{
  ℕ, ◌+◌, ◌*◌, ◌≡◌, refl, inl, true, none, some, List, [], ◌∷◌, ◌++◌, All,
}
use cost_ai_grid_poc.Prelude.Int.{ℤ, pos, ◌+ℤ◌, ◌*ℤ◌}
use cost_ai_grid_poc.Calendar.{second}
use cost_ai_grid_poc.Json.{Json, int, str, obj, end, field}
use cost_ai_grid_poc.Models.{RawEvent}
use cost_ai_grid_poc.Metering.Uptime.{uptime}
use cost_ai_grid_poc.CustomMetrics.Extract.{Formats}
use cost_ai_grid_poc.Store.{
  Store, get_compute_instance, receipt_collision, upsert_compute_instance,
  insert_metering_entry_batch, insert_raw_event, update_compute_instance_last_metered,
  claim_ingestion_receipt,
}
use cost_ai_grid_poc.Api.Events.Resources.{process_compute_instance_event}
use cost_ai_grid_poc.Metering.{is_compute_instance_billable}
use cost_ai_grid_poc.Fixtures.{instance_1, store}
use cost_ai_grid_poc.Api.Events.CloudEvents.{
  CloudEvent, EventHandler, is_osac_v1_event_type, is_v1, invalid, collision, too_old, batch_size,
}
use cost_ai_grid_poc.Api.Events.Payloads.{
  ComputeInstanceEventData, compute_instance_event_data, MeteringData, metering_data,
}
use cost_ai_grid_poc.Api.Events.Validate.{identify, classify_event, peek, validate_cloud_event}
use cost_ai_grid_poc.Api.Events.Process.{
  process_event, dispatch, in_transaction, process_claimed, validate_all, process_events,
  ingest_event, ingest_event_batch, status_of,
}
use cost_ai_grid_poc.Api.Events.Replay.{process_events_replayed, ingest_event_collides}
use cost_ai_grid_poc.Api.Events.Once.{
  IsRecorded, records, process_events-IsRecorded, process_events_once,
}
use cost_ai_grid_poc.Api.Events.Recorded.{IsAccepted, process_events-Extends}
use cost_ai_grid_poc.Api.Events.Resources.Heartbeats.{beaten, process_compute_instance_event_bills}
use cost_ai_grid_poc.Api.Events.Inference.Unmetered.{process_event_unmetered}

abbrev formats : Formats
formats = record { parse_float = λ _. none; sprint = λ _. "" }

-- a digest that tells the subjects apart
abbrev handler : EventHandler
handler = record { custom_metrics = none; formats = formats; digest = λ ce. ce.subject }

abbrev beat_payload : Json
beat_payload = obj (
    field "instance_id" (str "i1") (
      field "tenant_id" (str "acme") (
        field "state" (str "RUNNING") (
          field "duration_seconds" (int (pos 60)) (field "cpu_core_seconds" (int (pos 120)) end)))))

abbrev noon : ℕ
noon = 63_800_000_000 * second

abbrev beat : CloudEvent
beat = record {
  spec_version = "1.0";
  type = "osac.compute_instance.lifecycle";
  source = "osac";
  id = "e1";
  time = noon;
  subject = "acme";
  data_content_type = "application/json";
  payload = some beat_payload;
  osac_resource_id = "";
  osac_resource_type = "";
  osac_tenant = "";
  osac_project = "";
  osac_trace = "";
}

abbrev after : Store ℤ
after = (process_claimed handler (beat ∷ []) store).1

beat_accepted : process_events handler noon (beat ∷ []) store ≡ (none, after)
unfolding process_events in_transaction process_claimed process_event dispatch validate_all
    validate_cloud_event identify classify_event peek is_osac_v1_event_type
    compute_instance_event_data process_compute_instance_event upsert_compute_instance
    insert_metering_entry_batch insert_raw_event update_compute_instance_last_metered
    is_compute_instance_billable claim_ingestion_receipt ◌*ℤ◌
beat_accepted = refl

beats_valid : validate_all handler (noon + 1) (beat ∷ beat ∷ []) ≡ none
unfolding validate_all validate_cloud_event identify classify_event peek is_osac_v1_event_type
beats_valid = refl

process_events_replayed_example :
    process_events handler (noon + 1) (beat ∷ beat ∷ []) after ≡ (none, after)
process_events_replayed_example =
    process_events_replayed handler noon (noon + 1) (beat ∷ []) (beat ∷ beat ∷ []) store
      beat_accepted (inl refl, (inl refl, tt)) beats_valid

abbrev other_beat : CloudEvent
other_beat = record beat { subject = "globex" }

other_valid : validate_cloud_event handler noon other_beat ≡ none
unfolding validate_all validate_cloud_event identify classify_event peek is_osac_v1_event_type
other_valid = refl

ingest_event_collides_example :
    ingest_event handler noon other_beat after
    ≡ (some (collision (receipt_collision "osac" "e1")), after)
ingest_event_collides_example =
    ingest_event_collides handler noon noon (beat ∷ []) beat other_beat store beat_accepted
      (inl refl) refl refl refl other_valid

collision_conflicts : status_of (collision (receipt_collision "osac" "e1")) ≡ 409
unfolding status_of
collision_conflicts = refl

process_events-Extends_example :
    (new : List RawEvent) × (after.raw_events ≡ store.raw_events ++ new) × All (IsAccepted noon) new
process_events-Extends_example = process_events-Extends handler noon (beat ∷ []) store beat_accepted

-- two events of one source and id that differ: the batch is refused as a whole
process_events-IsRecorded_example :
    IsRecorded "osac" "e1" (process_events handler noon (beat ∷ other_beat ∷ []) store).1
process_events-IsRecorded_example =
    process_events-IsRecorded handler "osac" "e1" noon (beat ∷ other_beat ∷ []) store refl

process_events_once_example : records "osac" "e1" after.raw_events ≡ 1
process_events_once_example =
    process_events_once handler noon (beat ∷ []) beat store beat_accepted (inl refl) refl

late_refused :
    ingest_event handler (noon + 7201 * second) beat store ≡ (some (invalid too_old), store)
unfolding ingest_event process_events validate_all validate_cloud_event
late_refused = refl

empty_refused : ingest_event_batch handler noon [] store ≡ (some (invalid batch_size), store)
unfolding ingest_event_batch
empty_refused = refl

abbrev beat_decoded : ComputeInstanceEventData
beat_decoded = record {
  duration_seconds = pos 60_000_000;
  cpu_core_seconds = pos 120;
  memory_gib_seconds = pos 0;
  tenant_id = "acme";
  instance_id = "i1";
  state = "RUNNING";
  cores = pos 0;
  memory_gib = pos 0;
}

instance_found : get_compute_instance store "i1" ≡ some instance_1
unfolding get_compute_instance
instance_found = refl

beat_decodes : compute_instance_event_data (some beat_payload) ≡ some beat_decoded
unfolding compute_instance_event_data ◌*ℤ◌
beat_decodes = refl

running_billable : is_compute_instance_billable "RUNNING" ≡ true
unfolding is_compute_instance_billable
running_billable = refl

process_compute_instance_event_bills_example :
    let s' = (process_compute_instance_event beat store).1 in
    (uptime "i1" s' ≡ uptime "i1" store +ℤ pos 60_000_000)
    × (get_compute_instance s' "i1" ≡ some (beaten beat beat_decoded instance_1))
process_compute_instance_event_bills_example =
    process_compute_instance_event_bills beat beat_decoded store instance_1 instance_found
      beat_decodes running_billable refl

abbrev usage_payload : Json
usage_payload = obj (
    field "resource_id" (str "m1") (
      field "resource_type" (str "maas_inference") (
        field "tenant_id" (str "acme")
          (field "billing_dimensions" (obj (field "prompt_tokens" (int (pos 500)) end)) end))))

abbrev usage : CloudEvent
usage = record beat {
  id = "e3";
  type = "osac.inference.usage.v1";
  payload = some usage_payload;
  osac_resource_id = "m1";
  osac_resource_type = "maas_inference";
  osac_tenant = "acme";
}

abbrev usage_decoded : MeteringData
usage_decoded = record {
  resource_id = "m1";
  resource_type = "maas_inference";
  tenant_id = "acme";
  project_id = none;
  template_id = none;
  current_state = "";
  duration_seconds = none;
  billing_dimensions = obj (field "prompt_tokens" (int (pos 500)) end);
}

usage_is_v1 : is_v1 "osac.inference.usage.v1" ≡ true
unfolding is_osac_v1_event_type
usage_is_v1 = refl

usage_decodes : metering_data (some usage_payload) ≡ some usage_decoded
unfolding metering_data
usage_decodes = refl

process_event_unmetered_example :
    ((process_event handler usage store).0 ≡ none)
    × ((process_event handler usage store).1.metering_entries ≡ store.metering_entries)
process_event_unmetered_example =
    process_event_unmetered handler usage usage_decoded store usage_is_v1 usage_decodes refl
