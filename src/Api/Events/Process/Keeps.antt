-- ===== src/Api/Events/Process/Keeps.antt =====
-- The handlers of the events leave the raw events and the receipts alone.
use cost_ai_grid_poc.Prelude.{
  ℕ, ◌≡◌, refl, ◌∙◌, inl, inr, String, Bool, true, false, ◌||◌, Option, none, List, [], ◌∷◌,
  Bool-cases, Option-cases, find_row, str_eq, if◌then◌else◌, not, arith,
}
use cost_ai_grid_poc.Prelude.Int.{pos, ltb_ℤ, leb_ℤ}
use cost_ai_grid_poc.Models.{MeteringEntry, RawEvent}
use cost_ai_grid_poc.Metering.{
  MaasUsage, is_model_billable, is_compute_instance_billable, is_cluster_billable, meter_maas_event,
  resolve_project,
}
use cost_ai_grid_poc.CustomMetrics.Registry.{process_custom_event, has_event_type, text_at}
use cost_ai_grid_poc.CustomMetrics.Config.{MetricDef, has_type}
use cost_ai_grid_poc.CustomMetrics.Extract.{Formats}
use cost_ai_grid_poc.Json.{Json, object_of}
use cost_ai_grid_poc.Store.{
  Store, Receipt, default_project_for_tenant, insert_metering_entry, insert_metering_entry_batch,
  upsert_model, upsert_compute_instance, upsert_cluster, update_compute_instance_last_metered,
  update_cluster_last_metered,
}
use cost_ai_grid_poc.Api.Events.CloudEvents.{CloudEvent, EventHandler, EventError, is_v1}
use cost_ai_grid_poc.Api.Events.Payloads.{
  compute_instance_event_data, cluster_event_data, maas_event_data, metering_data,
}
use cost_ai_grid_poc.Api.Events.Resources.{
  process_compute_instance_event, process_cluster_event, process_osac_compute_instance,
  process_osac_cluster_order, heartbeat_entries, heartbeat_instance, cluster_entries,
}
use cost_ai_grid_poc.Api.Events.Inference.{process_model_event, process_osac_inference}
use cost_ai_grid_poc.Api.Events.Process.{process_osac_resource_event, process_by_registry, dispatch}

module _ {D : Type 0} where
  -- the tables of what was received
  abbrev pub received : Store D → List RawEvent × (List Receipt × ℕ)
  received s = (s.raw_events, (s.receipts, s.next_raw_id))

  insert_received :
      (es : List MeteringEntry) (s : Store D)
      → received (insert_metering_entry_batch es s) ≡ received s
  unfolding insert_metering_entry_batch
  insert_received [] s = refl
  insert_received (e ∷ es) s = insert_received es (insert_metering_entry e s)

  project_received :
      (tenant : String) (s : Store D)
      → received (default_project_for_tenant s tenant).1 ≡ received s
  unfolding default_project_for_tenant
  project_received tenant s = ground arith

  maas_received : (u : MaasUsage) (s : Store D) → received (meter_maas_event u s) ≡ received s
  unfolding meter_maas_event resolve_project
  maas_received u s = elim (Bool-cases (not (is_model_billable u.state))) [
    | inl t ↦ rw t refl
    | inr n ↦ rw n (insert_received _ _ ∙ project_received u.tenant_id s)
  ]

  -- a function whose result leaves them alone
  abbrev Leaves : Store D → Option EventError × Store D → Type 0
  Leaves s r = received r.1 ≡ received s

  if_Leaves :
      (b : Bool) (s : Store D) (x y : Option EventError × Store D)
      → Leaves s x
      → Leaves s y
      → Leaves s (if b then x else y)
  if_Leaves true s x y h k = h
  if_Leaves false s x y h k = k

  process_compute_instance_event-Leaves :
      (ce : CloudEvent) (s : Store D) → Leaves s (process_compute_instance_event ce s)
  unfolding process_compute_instance_event update_compute_instance_last_metered
      upsert_compute_instance
  process_compute_instance_event-Leaves ce s =
      elim (Option-cases (compute_instance_event_data ce.payload)) [
        | inl n ↦ rw (n, process_compute_instance_event) refl
        | inr (d, m) ↦
            rw (m, process_compute_instance_event)
              (if_Leaves (not (is_compute_instance_billable d.state)) s (none, s) _ refl
                (if_Leaves (leb_ℤ d.duration_seconds (pos 0)) s _ _ refl (
                  insert_received (heartbeat_entries ce d)
                    (upsert_compute_instance (heartbeat_instance ce d) s))))
      ]

  process_cluster_event-Leaves :
      (ce : CloudEvent) (s : Store D) → Leaves s (process_cluster_event ce s)
  unfolding process_cluster_event update_cluster_last_metered
  process_cluster_event-Leaves ce s = elim (Option-cases (cluster_event_data ce.payload)) [
    | inl n ↦ rw (n, process_cluster_event) refl
    | inr (d, m) ↦
        rw (m, process_cluster_event)
          (if_Leaves (not (is_cluster_billable d.state)) s (none, s) _ refl
            (if_Leaves (leb_ℤ d.duration_seconds (pos 0)) s _ _ refl
              (insert_received (cluster_entries ce d) s)))
  ]

  process_model_event-Leaves : (ce : CloudEvent) (s : Store D) → Leaves s (process_model_event ce s)
  unfolding process_model_event upsert_model
  process_model_event-Leaves ce s = elim (Option-cases (maas_event_data ce.payload)) [
    | inl n ↦ rw (n, process_model_event) refl
    | inr (d, m) ↦
        rw (m, process_model_event)
          (if_Leaves (ltb_ℤ d.duration_seconds (pos 0)) s _ _ refl (maas_received _ _))
  ]

  process_osac_resource_event-Leaves :
      (ce : CloudEvent) (s : Store D) → Leaves s (process_osac_resource_event ce s)
  unfolding process_osac_resource_event process_osac_compute_instance process_osac_cluster_order
      process_osac_inference upsert_compute_instance upsert_cluster upsert_model
  process_osac_resource_event-Leaves ce s = elim (Option-cases (metering_data ce.payload)) [
    | inl n ↦ rw (n, process_osac_resource_event) refl
    | inr (d, m) ↦
        rw (m, process_osac_resource_event)
          (if_Leaves (str_eq d.resource_type "compute_instance") s _ _ refl (
            if_Leaves (str_eq d.resource_type "cluster_order") s _ _ refl
              (if_Leaves (str_eq d.resource_type "maas_inference") s _ _ (maas_received _ _) refl)))
  ]

  process_custom_event-received :
      (f : Formats) (defs : List MetricDef) (t : String) (j : Json) (time : ℕ) (s : Store D)
      → received (process_custom_event f defs t j time s).1 ≡ received s
  unfolding process_custom_event
  process_custom_event-received f defs t j time s =
      elim (Option-cases (find_row (has_type t) defs)) [
        | inl n ↦ rw (n, process_custom_event) refl
        | inr (def, m) ↦ elim (Option-cases (object_of j)) [
          | inl n ↦ rw (m, process_custom_event, n) refl
          | inr (fields, o) ↦
              rw (m, process_custom_event, o)
                (insert_received _ _ ∙ project_received (text_at f fields def.tenant_id_field) s)
        ]
      ]

  process_by_registry-Leaves :
      (h : EventHandler) (ce : CloudEvent) (s : Store D) → Leaves s (process_by_registry h ce s)
  process_by_registry-Leaves h ce s = elim (Option-cases h.custom_metrics) [
    | inl n ↦ rw n refl
    | inr (defs, m) ↦ elim (Option-cases ce.payload) [
      | inl n ↦ rw (m, n) refl
      | inr (j, p) ↦ rw (m, p) (process_custom_event-received h.formats defs ce.type j ce.time s)
    ]
  ]

  -- Every handler leaves the raw events and the receipts as they were.
  pub dispatch-Leaves :
      (h : EventHandler) (ce : CloudEvent) (s : Store D) → received (dispatch h ce s).1 ≡ received s
  unfolding dispatch
  dispatch-Leaves h ce s =
      if_Leaves (is_v1 ce.type) s _ _ (process_osac_resource_event-Leaves ce s) (
        if_Leaves (str_eq ce.type "osac.compute_instance.lifecycle") s _ _
          (process_compute_instance_event-Leaves ce s)
          (if_Leaves (str_eq ce.type "osac.cluster.lifecycle") s _ _
            (process_cluster_event-Leaves ce s)
            (if_Leaves
              (str_eq ce.type "osac.model.lifecycle" || str_eq ce.type "inference.tokens.used") s _
              _ (process_model_event-Leaves ce s)
              (if_Leaves (has_event_type h.custom_metrics ce.type) s _ _
                (process_by_registry-Leaves h ce s) refl))))
