-- ===== src/Api/Events/Inference/Unmetered.antt =====
-- The inference usage of the OSAC metering service.
use cost_ai_grid_poc.Prelude.{◌≡◌, refl, ap, true, false, none, some, str_eq}
use cost_ai_grid_poc.Metering.{meter_maas_event, is_model_billable}
use cost_ai_grid_poc.Store.{Store, upsert_model, insert_raw_event}
use cost_ai_grid_poc.Api.Events.CloudEvents.{CloudEvent, EventHandler, is_v1}
use cost_ai_grid_poc.Api.Events.Payloads.{MeteringData, metering_data}
use cost_ai_grid_poc.Api.Events.Inference.{process_osac_inference}
use cost_ai_grid_poc.Api.Events.Validate.{identify}
use cost_ai_grid_poc.Api.Events.Process.{
  raw_event, dispatch, process_osac_resource_event, process_event,
}

module _ {D : Type 0} where
  process_osac_inference-metering_entries :
      (ce : CloudEvent) (md : MeteringData) (s : Store D)
      → (process_osac_inference ce md s).1.metering_entries ≡ s.metering_entries
  unfolding process_osac_inference meter_maas_event is_model_billable upsert_model
  process_osac_inference-metering_entries ce md s = refl

  by_type :
      (h : EventHandler) (ce : CloudEvent) (md : MeteringData) (s : Store D)
      → is_v1 ce.type ≡ true
      → metering_data ce.payload ≡ some md
      → md.resource_type ≡ "maas_inference"
      → dispatch h ce s ≡ process_osac_inference ce md s
  unfolding dispatch process_osac_resource_event
  by_type h ce md s v m r =
      let n1 : str_eq md.resource_type "compute_instance" ≡ false =
        ap (λ t. str_eq t "compute_instance") r in
      let n2 : str_eq md.resource_type "cluster_order" ≡ false =
        ap (λ t. str_eq t "cluster_order") r in
      let y : str_eq md.resource_type "maas_inference" ≡ true =
        ap (λ t. str_eq t "maas_inference") r in
      rw v (rw (m, process_osac_resource_event) (rw (n1, n2, y) refl))

  -- An event of the OSAC metering service that carries the usage of an inference is processed
  -- without an error and adds no metering entry, whatever its tokens.
  pub process_event_unmetered :
      (h : EventHandler) (ce : CloudEvent) (md : MeteringData) (s : Store D)
      → is_v1 ce.type ≡ true
      → metering_data ce.payload ≡ some md
      → md.resource_type ≡ "maas_inference"
      → ((process_event h ce s).0 ≡ none)
        × ((process_event h ce s).1.metering_entries ≡ s.metering_entries)
  unfolding process_event insert_raw_event process_osac_inference
  process_event_unmetered h ce md s v m r =
      let s1 = insert_raw_event (raw_event ce (identify h ce)) s in
      let e : dispatch h ce s1 ≡ process_osac_inference ce md s1 = by_type h ce md s1 v m r in
      rw e (refl, process_osac_inference-metering_entries ce md s1)
