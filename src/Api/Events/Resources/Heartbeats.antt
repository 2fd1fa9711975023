-- ===== src/Api/Events/Resources/Heartbeats.antt =====
-- What the heartbeat of a compute instance does to its uptime and its row.
use cost_ai_grid_poc.Prelude.{
  ◌≡◌, refl, ap, ◌∙◌, Bool, true, false, none, some, eq_refl, str_eq, find_row,
}
use cost_ai_grid_poc.Prelude.Int.{pos, ◌+ℤ◌, int_laws, leb_ℤ}
use cost_ai_grid_poc.Prelude.Rows.{find_row-any, find_row-set, find_row-update}
use cost_ai_grid_poc.Models.{ComputeInstanceRecord}
use cost_ai_grid_poc.Metering.{is_compute_instance_billable}
use cost_ai_grid_poc.Metering.Uptime.{uptime, uptime_in, insert_uptime, insert_instances}
use cost_ai_grid_poc.Store.{
  Store, sum_of, get_compute_instance, upsert_compute_instance,
  update_compute_instance_last_metered, insert_metering_entry_batch,
}
use cost_ai_grid_poc.Api.Events.CloudEvents.{CloudEvent}
use cost_ai_grid_poc.Api.Events.Payloads.{ComputeInstanceEventData, compute_instance_event_data}
use cost_ai_grid_poc.Api.Events.Resources.{
  heartbeat_instance, heartbeat_entries, process_compute_instance_event,
}

module _ (ce : CloudEvent) (d : ComputeInstanceEventData) where
  abbrev billed : {D : Type 0} → Store D → Store D
  billed s = update_compute_instance_last_metered d.instance_id ce.time (
      insert_metering_entry_batch (heartbeat_entries ce d)
        (upsert_compute_instance (heartbeat_instance ce d) s))

  process_compute_instance_event-billed :
      {D : Type 0} (s : Store D)
      → compute_instance_event_data ce.payload ≡ some d
      → is_compute_instance_billable d.state ≡ true
      → leb_ℤ d.duration_seconds (pos 0) ≡ false
      → process_compute_instance_event ce s ≡ (none, billed s)
  unfolding process_compute_instance_event
  process_compute_instance_event-billed s m b l = rw (m, process_compute_instance_event, b, l) refl

  entries_uptime : sum_of (uptime_in d.instance_id) (heartbeat_entries ce d) ≡ d.duration_seconds
  entries_uptime = rw (eq_refl d.instance_id) (omega int_laws)

  billed-uptime :
      {D : Type 0} (s : Store D)
      → uptime d.instance_id (billed s) ≡ uptime d.instance_id s +ℤ d.duration_seconds
  unfolding update_compute_instance_last_metered upsert_compute_instance
  billed-uptime s =
      insert_uptime (heartbeat_entries ce d) d.instance_id
        (upsert_compute_instance (heartbeat_instance ce d) s)
      ∙ ap (λ u. uptime d.instance_id s +ℤ u) entries_uptime

  -- the row of the instance after a heartbeat: it is not deleted
  abbrev pub beaten : ComputeInstanceRecord → ComputeInstanceRecord
  beaten inst = record (heartbeat_instance ce d) {
    deleted_at = none;
    created_at = inst.created_at;
    last_metered_at = some ce.time;
  }

  billed-row :
      {D : Type 0} (s : Store D) (inst : ComputeInstanceRecord)
      → get_compute_instance s d.instance_id ≡ some inst
      → get_compute_instance (billed s) d.instance_id ≡ some (beaten inst)
  unfolding update_compute_instance_last_metered upsert_compute_instance get_compute_instance
  billed-row s inst g =
      let p : ComputeInstanceRecord → Bool = λ r. str_eq r.instance_id d.instance_id in
      let new = heartbeat_instance ce d in
      let s1 = upsert_compute_instance new s in
      let set : ComputeInstanceRecord → ComputeInstanceRecord =
        λ r. record new { created_at = r.created_at; last_metered_at = r.last_metered_at } in
      let upserted : find_row p s1.compute_instances ≡ some (set inst) =
        rw (find_row-any p s.compute_instances g)
          (find_row-set p set s.compute_instances (λ y. eq_refl d.instance_id) g) in
      rw (insert_instances (heartbeat_entries ce d) s1) (
        find_row-update p (λ r. record r { last_metered_at = some ce.time }) s1.compute_instances
          (λ y. refl) upserted)

  -- A heartbeat of a running compute instance that is known adds its duration to the billed uptime
  -- and sets the last metering to the time of the event, whatever was billed until then; it also
  -- takes back the deletion of the instance.
  pub process_compute_instance_event_bills :
      {D : Type 0} (s : Store D) (inst : ComputeInstanceRecord)
      → get_compute_instance s d.instance_id ≡ some inst
      → compute_instance_event_data ce.payload ≡ some d
      → is_compute_instance_billable d.state ≡ true
      → leb_ℤ d.duration_seconds (pos 0) ≡ false
      → let s' = (process_compute_instance_event ce s).1 in
        (uptime d.instance_id s' ≡ uptime d.instance_id s +ℤ d.duration_seconds)
        × (get_compute_instance s' d.instance_id ≡ some (beaten inst))
  process_compute_instance_event_bills s inst g m b l =
      rw (process_compute_instance_event-billed s m b l) (billed-uptime s, billed-row s inst g)
