-- ===== src/Api/Events/Process.antt =====
-- `processEvent`, `processEvents` and the requests. A function returns its error, if there is one,
-- and the store that it leaves.
pub mod Keeps
pub mod Loop
use cost_ai_grid_poc.Prelude.{
  ℕ, zero, suc, String, Bool, true, false, ◌||◌, Option, none, some, List, [], ◌∷◌, str_eq, ltb,
  ◌==◌, length, if◌then◌else◌, Result, ok, err,
}
use cost_ai_grid_poc.Models.{RawEvent}
use cost_ai_grid_poc.CustomMetrics.Registry.{has_event_type, process_custom_event}
use cost_ai_grid_poc.Json.{Json}
use cost_ai_grid_poc.Store.{Store, claim_ingestion_receipt, insert_raw_event}
use cost_ai_grid_poc.Api.Events.CloudEvents.{
  CloudEvent, EventHandler, EventError, invalid, collision, failed, batch_size, max_batch_events,
  is_v1,
}
use cost_ai_grid_poc.Api.Events.Payloads.{metering_data}
use cost_ai_grid_poc.Api.Events.Validate.{Identity, identify, validate_cloud_event}
use cost_ai_grid_poc.Api.Events.Resources.{
  process_compute_instance_event, process_cluster_event, process_osac_compute_instance,
  process_osac_cluster_order,
}
use cost_ai_grid_poc.Api.Events.Inference.{process_model_event, process_osac_inference}

abbrev pub raw_event : CloudEvent → Identity → RawEvent
raw_event ce i = record {
  id = 0;
  event_id = ce.id;
  event_type = ce.type;
  event_source = ce.source;
  event_time = ce.time;
  tenant_id = i.tenant_id;
  resource_type = i.resource_type;
  resource_id = i.resource_id;
}

-- the first event that is not valid
unfoldable pub validate_all : EventHandler → ℕ → List CloudEvent → Option EventError
validate_all h now [] = none
validate_all h now (ce ∷ ces) =
    let rest = validate_all h now ces in
    elim (validate_cloud_event h now ce) [ some e ↦ some (invalid e) | none ↦ rest ]

module _ {D : Type 0} where
  unfoldable pub process_osac_resource_event : CloudEvent → Store D → Option EventError × Store D
  process_osac_resource_event ce s = elim (metering_data ce.payload) [
    | none ↦ (some failed, s)
    | some md ↦
        if str_eq md.resource_type "compute_instance"
        then process_osac_compute_instance ce md s
        else if str_eq md.resource_type "cluster_order"
        then process_osac_cluster_order ce md s
        else if str_eq md.resource_type "maas_inference"
        then process_osac_inference ce md s
        else (none, s)
  ]

  -- the call of the registry, which there is
  abbrev pub process_by_registry : EventHandler → CloudEvent → Store D → Option EventError × Store D
  process_by_registry h ce s = elim h.custom_metrics [
    | none ↦ (none, s)
    | some defs ↦ elim ce.payload [
      | none ↦ (some failed, s)
      | some j ↦
          let (e, s') = process_custom_event h.formats defs ce.type j ce.time s in
          (elim e [ none ↦ none | some _ ↦ some failed ], s')
    ]
  ]

  -- the `switch` of `processEvent`
  unfoldable pub dispatch : EventHandler → CloudEvent → Store D → Option EventError × Store D
  dispatch h ce s =
      if is_v1 ce.type
      then process_osac_resource_event ce s
      else if str_eq ce.type "osac.compute_instance.lifecycle"
      then process_compute_instance_event ce s
      else if str_eq ce.type "osac.cluster.lifecycle"
      then process_cluster_event ce s
      else if str_eq ce.type "osac.model.lifecycle" || str_eq ce.type "inference.tokens.used"
      then process_model_event ce s
      else if has_event_type h.custom_metrics ce.type
      then process_by_registry h ce s
      else (none, s)

  unfoldable pub process_event : EventHandler → CloudEvent → Store D → Option EventError × Store D
  process_event h ce s = dispatch h ce (insert_raw_event (raw_event ce (identify h ce)) s)

  -- the loop inside the transaction
  unfoldable pub process_claimed :
      EventHandler → List CloudEvent → Store D → Option EventError × Store D
  process_claimed h [] s = (none, s)
  process_claimed h (ce ∷ ces) s = elim (claim_ingestion_receipt ce.source ce.id (h.digest ce) s) [
    | err e ↦ (some (collision e), s)
    | ok (false, s1) ↦ process_claimed h ces s1
    | ok (true, s1) ↦
        let (e, s2) = process_event h ce s1 in
        elim e [ some x ↦ (some x, s2) | none ↦ process_claimed h ces s2 ]
  ]

  -- A transaction that fails is rolled back. The cache of the projects is no table and the sequences
  -- of the ids are not rolled back: they stay.
  abbrev pub roll_back : Store D → Option EventError × Store D → Option EventError × Store D
  roll_back s (none, s') = (none, s')
  roll_back s (some e, s') = (
    some e,
    record s {
      project_cache = s'.project_cache;
      next_metering_id = s'.next_metering_id;
      next_cost_id = s'.next_cost_id;
      next_quota_id = s'.next_quota_id;
      next_ledger_id = s'.next_ledger_id;
      next_raw_id = s'.next_raw_id;
    },
  )

  unfoldable pub in_transaction :
      (Store D → Option EventError × Store D) → Store D → Option EventError × Store D
  in_transaction fn s = roll_back s (fn s)

  unfoldable pub process_events :
      EventHandler → ℕ → List CloudEvent → Store D → Option EventError × Store D
  unfolding in_transaction
  process_events h now ces s = elim (validate_all h now ces) [
    | some e ↦ (some e, s)
    | none ↦ in_transaction (process_claimed h ces) s
  ]

  -- `IngestEvent` and `ProcessKafkaEvent`
  unfoldable pub ingest_event :
      EventHandler → ℕ → CloudEvent → Store D → Option EventError × Store D
  ingest_event h now ce s = process_events h now (ce ∷ []) s

  unfoldable pub ingest_event_batch :
      EventHandler → ℕ → List CloudEvent → Store D → Option EventError × Store D
  ingest_event_batch h now ces s =
      if length ces == 0 || ltb max_batch_events (length ces)
      then (some (invalid batch_size), s)
      else process_events h now ces s

-- the status of an error
unfoldable pub status_of : EventError → ℕ
status_of (collision _) = 409
status_of (invalid _) = 400
status_of failed = 500
