-- ===== src/Metering/Final.antt =====
-- The final metering of a compute instance that is deleted.
use cost_ai_grid_poc.Prelude.{
  ℕ, ◌-◌, ◌≡◌, refl, sym, ap, ap₂, ◌∙◌, String, true, false, some, List, eq_refl, str_eq, leb,
  find_row,
}
use cost_ai_grid_poc.Prelude.Int.{pos, ◌+ℤ◌}
use cost_ai_grid_poc.Prelude.Keys.{string_key, has_key, found_key}
use cost_ai_grid_poc.Models.{ComputeInstanceRecord, MeteringEntry}
use cost_ai_grid_poc.Store.{
  Store, MeteringRow, sum_of, get_compute_instance, list_all_instance_types,
  insert_metering_entry_batch,
}
use cost_ai_grid_poc.Metering.States.{is_compute_instance_billable}
use cost_ai_grid_poc.Metering.Meters.{compute_instance_meters}
use cost_ai_grid_poc.Metering.Sweep.{metered_until, resolve_project, meter_compute_instance_final}
use cost_ai_grid_poc.Metering.Uptime.{
  uptime_in, uptime, id_of, insert_uptime, insert_instances, resolve_keeps, meters_uptime,
}

-- the end of the last period of an instance
abbrev pub last_end : ComputeInstanceRecord → ℕ
last_end inst = metered_until inst.created_at inst.last_metered_at

module _ {D : Type 0} (id : String) (deleted_at : ℕ) (inst : ComputeInstanceRecord) where
  abbrev final_entries : Store D → List MeteringEntry
  final_entries s =
      let (project, s1) = resolve_project inst.project inst.tenant s in
      compute_instance_meters inst (list_all_instance_types s1) project (deleted_at - last_end inst)
        (last_end inst) deleted_at

  final_lem :
      (s : Store D)
      → get_compute_instance s id ≡ some inst
      → is_compute_instance_billable inst.state ≡ true
      → leb deleted_at (last_end inst) ≡ false
      → meter_compute_instance_final id deleted_at s
        ≡ insert_metering_entry_batch
            (final_entries s)
            (resolve_project inst.project inst.tenant s).1
  unfolding meter_compute_instance_final
  final_lem s g b l = rw (meter_compute_instance_final, g, b, l) refl

  final_found :
      (s : Store D)
      → get_compute_instance s id ≡ some inst
      → get_compute_instance
          (insert_metering_entry_batch
            (final_entries s)
            (resolve_project inst.project inst.tenant s).1)
          id
        ≡ some inst
  unfolding get_compute_instance
  final_found s g =
      ap (find_row (has_key id_of id)) (
        insert_instances (final_entries s) (resolve_project inst.project inst.tenant s).1
        ∙ (resolve_keeps inst.project inst.tenant s).0)
      ∙ g

  own_id : (s : Store D) → get_compute_instance s id ≡ some inst → inst.instance_id ≡ id
  unfolding get_compute_instance
  own_id s g = found_key id_of id s.compute_instances g

  final_uptime :
      (s : Store D)
      → get_compute_instance s id ≡ some inst
      → uptime id (
          insert_metering_entry_batch
            (final_entries s)
            (resolve_project inst.project inst.tenant s).1)
        ≡ uptime id s +ℤ pos (deleted_at - last_end inst)
  final_uptime s g =
      let (project, s1) = resolve_project inst.project inst.tenant s in
      let same : str_eq inst.instance_id id ≡ true =
        ap (λ i. str_eq inst.instance_id i) (sym (own_id s g)) ∙ eq_refl inst.instance_id in
      insert_uptime (final_entries s) id s1
      ∙ ap₂ ◌+ℤ◌
          (ap (sum_of (λ (r : MeteringRow). uptime_in id r.entry))
            (resolve_keeps inst.project inst.tenant s).1)
          (meters_uptime inst (list_all_instance_types s1) project id (deleted_at - last_end inst)
              (last_end inst) deleted_at
            ∙ rw same refl)

  -- The final metering of an instance that is billable and was last metered before its deletion
  -- adds the time in between to its uptime; since it does not move last_metered_at, a second one
  -- with the same time adds it once more.
  pub meter_compute_instance_final_repeats :
      (s : Store D)
      → get_compute_instance s id ≡ some inst
      → is_compute_instance_billable inst.state ≡ true
      → leb deleted_at (last_end inst) ≡ false
      → let s' = meter_compute_instance_final id deleted_at s in
        (uptime id s' ≡ uptime id s +ℤ pos (deleted_at - last_end inst))
        × (uptime id (meter_compute_instance_final id deleted_at s')
            ≡ uptime id s +ℤ pos (deleted_at - last_end inst) +ℤ pos (deleted_at - last_end inst))
  meter_compute_instance_final_repeats s g b l =
      let s' =
        insert_metering_entry_batch (final_entries s)
          (resolve_project inst.project inst.tenant s).1 in
      rw (final_lem s g b l) (
        final_uptime s g,
        rw (final_lem s' (final_found s g) b l) (
            final_uptime s' (final_found s g)
            ∙ ap (λ u. u +ℤ pos (deleted_at - last_end inst)) (final_uptime s g)),
      )
