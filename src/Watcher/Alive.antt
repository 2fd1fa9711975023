-- ===== src/Watcher/Alive.antt =====
-- The compute instances that are alive follow the events of the stream.
use cost_ai_grid_poc.Prelude.{
  ℕ, ◌≡◌, refl, ap, ◌∙◌, inl, inr, String, Bool, false, ◌&&◌, ◌||◌, not, none, some, List, [], ◌∷◌,
  str_eq, Bool-cases, Option-cases, if◌then◌else◌, leb,
}
use cost_ai_grid_poc.Store.{
  Store, insert_raw_event, upsert_compute_instance, upsert_cluster, upsert_bare_metal_instance,
  upsert_instance_type, upsert_project, upsert_tenant, mark_compute_instance_deleted,
  mark_cluster_deleted, mark_bare_metal_instance_deleted, get_compute_instance,
  get_bare_metal_instance, insert_metering_entry,
}
use cost_ai_grid_poc.Store.Alive.{alive, alive-upsert, alive-mark, instance_alive}
use cost_ai_grid_poc.Metering.{
  meter_compute_instance_final, meter_bare_metal_instance_final, metered_until,
  is_compute_instance_billable, is_bare_metal_billable,
}
use cost_ai_grid_poc.Metering.Uptime.{insert_instances, resolve_keeps}
use cost_ai_grid_poc.Osac.{Event, event_type_created, event_type_updated, event_type_deleted}
use cost_ai_grid_poc.Watcher.{
  store_raw_event, handle_create_or_update, handle_delete, handle_event, watch,
}

-- whether a compute instance is alive, by an event on one that was alive or not
abbrev pub observe : String → Event → Bool → Bool
observe id event b = elim event.compute_instance [
  | none ↦ b
  | some ci ↦
      if str_eq event.type event_type_created || str_eq event.type event_type_updated
      then str_eq ci.id id || b
      else if str_eq event.type event_type_deleted
      then not (str_eq ci.id id) && b
      else b
]

abbrev pub observe_all : String → List (ℕ × Event) → Bool → Bool
observe_all id [] b = b
observe_all id ((_, event) ∷ events) b = observe_all id events (observe id event b)

module _ {D : Type 0} where
  final_instances :
      (id : String) (t : ℕ) (s : Store D)
      → (meter_compute_instance_final id t s).compute_instances ≡ s.compute_instances
  unfolding meter_compute_instance_final
  final_instances id t s = elim (Option-cases (get_compute_instance s id)) [
    | inl n ↦ rw (n, meter_compute_instance_final) refl
    | inr (inst, g) ↦ elim (Bool-cases (is_compute_instance_billable inst.state)) [
      | inr n ↦ rw (g, meter_compute_instance_final, n) refl
      | inl b ↦ elim (Bool-cases (leb t (metered_until inst.created_at inst.last_metered_at))) [
        | inl l ↦ rw (g, meter_compute_instance_final, b, l) refl
        | inr l ↦
            rw (g, meter_compute_instance_final, b, l)
              (insert_instances _ _ ∙ (resolve_keeps inst.project inst.tenant s).0)
      ]
    ]
  ]

  bare_metal_final_instances :
      (id : String) (t : ℕ) (s : Store D)
      → (meter_bare_metal_instance_final id t s).compute_instances ≡ s.compute_instances
  unfolding meter_bare_metal_instance_final insert_metering_entry
  bare_metal_final_instances id t s = elim (Option-cases (get_bare_metal_instance s id)) [
    | inl n ↦ rw (n, meter_bare_metal_instance_final) refl
    | inr (inst, g) ↦ elim (Bool-cases (is_bare_metal_billable inst.state)) [
      | inr n ↦ rw (g, meter_bare_metal_instance_final, n) refl
      | inl b ↦ elim (Bool-cases (leb t (metered_until inst.created_at inst.last_metered_at))) [
        | inl l ↦ rw (g, meter_bare_metal_instance_final, b, l) refl
        | inr l ↦ rw (g, meter_bare_metal_instance_final, b, l) ((resolve_keeps "" inst.tenant s).0)
      ]
    ]
  ]

  create_alive :
      (id : String) (now : ℕ) (event : Event) (s : Store D)
      → instance_alive id (handle_create_or_update now event s) ≡ elim event.compute_instance [
        | none ↦ instance_alive id s
        | some ci ↦ str_eq ci.id id || instance_alive id s
      ]
  unfolding handle_create_or_update upsert_compute_instance upsert_cluster
      upsert_bare_metal_instance upsert_instance_type upsert_project upsert_tenant
  create_alive id now event s = elim (Option-cases event.compute_instance) [
    | inr (ci, m) ↦
        rw (m, handle_create_or_update)
          (alive-upsert (λ r. r.instance_id) (λ r. r.deleted_at) ci.id id _ _ s.compute_instances
            (λ _. refl) (λ _. refl) refl refl)
    | inl n ↦ elim (Option-cases event.cluster) [
      | inr (_, m) ↦ rw (n, handle_create_or_update, m) refl
      | inl n2 ↦ elim (Option-cases event.instance_type) [
        | inr (_, m) ↦ rw (n, handle_create_or_update, n2, m) refl
        | inl n3 ↦ elim (Option-cases event.bare_metal_instance) [
          | inr (_, m) ↦ rw (n, handle_create_or_update, n2, n3, m) refl
          | inl n4 ↦ elim (Option-cases event.project) [
            | inr (_, m) ↦ rw (n, handle_create_or_update, n2, n3, n4, m) refl
            | inl n5 ↦ elim (Option-cases event.tenant) [
              | inr (_, m) ↦ rw (n, handle_create_or_update, n2, n3, n4, n5, m) refl
              | inl n6 ↦ rw (n, handle_create_or_update, n2, n3, n4, n5, n6) refl
            ]
          ]
        ]
      ]
    ]
  ]

  delete_alive :
      (id : String) (now : ℕ) (event : Event) (s : Store D)
      → instance_alive id (handle_delete now event s) ≡ elim event.compute_instance [
        | none ↦ instance_alive id s
        | some ci ↦ not (str_eq ci.id id) && instance_alive id s
      ]
  unfolding handle_delete mark_compute_instance_deleted mark_cluster_deleted
      mark_bare_metal_instance_deleted
  delete_alive id now event s = elim (Option-cases event.compute_instance) [
    | inr (ci, m) ↦
        rw (m, handle_delete, final_instances ci.id _ s)
          (alive-mark (λ r. r.instance_id) (λ r. r.deleted_at) ci.id id _ s.compute_instances
            (λ _. refl) (λ _. refl))
    | inl n ↦ elim (Option-cases event.cluster) [
      | inr (_, m) ↦ rw (n, handle_delete, m) refl
      | inl n2 ↦ elim (Option-cases event.bare_metal_instance) [
        | inr (bm, m) ↦
            rw (n, handle_delete, n2, m)
              (ap (alive (λ r. r.instance_id) (λ r. r.deleted_at) id)
                (bare_metal_final_instances bm.id _ s))
        | inl n3 ↦ rw (n, handle_delete, n2, n3) refl
      ]
    ]
  ]

  handle_event_alive :
      (id : String) (now : ℕ) (event : Event) (s : Store D)
      → instance_alive id (handle_event false now event s).1
        ≡ observe id event (instance_alive id s)
  unfolding handle_event store_raw_event insert_raw_event
  handle_event_alive id now event s =
      let stored = store_raw_event now event s in
      let c = create_alive id now event stored in
      let d = delete_alive id now event stored in
      elim (Bool-cases
        (str_eq event.type event_type_created || str_eq event.type event_type_updated)) [
          | inl t ↦ elim (Option-cases event.compute_instance) [
            | inl z ↦ rw (z, t) (rw z at c)
            | inr (ci, z) ↦ rw (z, t) (rw z at c)
          ]
          | inr n ↦ elim (Bool-cases (str_eq event.type event_type_deleted)) [
            | inl t ↦ elim (Option-cases event.compute_instance) [
              | inl z ↦ rw (z, n, t) (rw z at d)
              | inr (ci, z) ↦ rw (z, n, t) (rw z at d)
            ]
            | inr o ↦ elim (Option-cases event.compute_instance) [
              | inl z ↦ rw (z, n, o) refl
              | inr (_, z) ↦ rw (z, n, o) refl
            ]
          ]
        ]

  -- Without Kafka, after a sequence of events of the stream, whatever they are about, a compute
  -- instance is alive if the last of the created, updated or deleted events about it is not a
  -- deleted one, and if there is none, if it was alive before.
  pub watch-Alive :
      (id : String) (events : List (ℕ × Event)) (s : Store D)
      → instance_alive id (watch false events s).1 ≡ observe_all id events (instance_alive id s)
  unfolding watch
  watch-Alive id [] s = refl
  watch-Alive id ((now, event) ∷ events) s =
      watch-Alive id events (handle_event false now event s).1
      ∙ ap (observe_all id events) (handle_event_alive id now event s)
