-- ===== src/CustomMetrics/Registry/Metered.antt =====
-- The metering entries of an event of the operator's.
use cost_ai_grid_poc.Prelude.{
  ℕ, zero, suc, ◌+◌, ◌-◌, ◌*◌, ◌/◌, none, some, ◌≤◌, ◌≡◌, refl, inl, inr, String, true, List, [],
  ◌∷◌, Bool-cases, Option-cases, All, arith, Option,
}
use cost_ai_grid_poc.Prelude.Int.{ℤ, pos, negsuc, pos_part, ltb_ℤ}
use cost_ai_grid_poc.Calendar.{second, max_seconds, add_negated-pos}
use cost_ai_grid_poc.Json.{Fields}
use cost_ai_grid_poc.Models.{MeteringEntry}
use cost_ai_grid_poc.CustomMetrics.Config.{MeterDef, MetricDef}
use cost_ai_grid_poc.CustomMetrics.Extract.{Formats}
use cost_ai_grid_poc.CustomMetrics.Registry.{start_of, text_at, float_at, custom_entries}

-- the whole seconds of a duration that is positive
abbrev pub whole_seconds : Option ℤ → ℕ
whole_seconds none = 0
whole_seconds (some d) = pos_part d / second

start_of-whole_seconds :
    (o : Option ℤ) (time : ℕ)
    → whole_seconds o ≤ max_seconds
    → start_of o time ≡ time - whole_seconds o * second
unfolding start_of
start_of-whole_seconds none time h = omega arith
start_of-whole_seconds (some (pos zero)) time h = ground arith
start_of-whole_seconds (some (pos (suc d))) time h =
    let p : ltb_ℤ (pos 0) (pos (suc d)) ≡ true = ground arith in
    rw (p, start_of) (add_negated-pos (suc d) time h)
start_of-whole_seconds (some (negsuc d)) time h = ground arith

period_of :
    (o : Option ℤ) (time : ℕ)
    → whole_seconds o ≤ max_seconds
    → whole_seconds o * second ≤ time
    → start_of o time + whole_seconds o * second ≡ time
period_of o time h l = omega (arith, start_of-whole_seconds o time h)

module _ (f : Formats) (def : MetricDef) (fields : Fields) where
  -- a positive value of the resource and the tenant that the fields name, over a period that ends
  -- with the event and is as long as the whole seconds of its duration
  abbrev pub IsMetered : ℕ → MeteringEntry → Type 0
  IsMetered time e =
      (ltb_ℤ (pos 0) e.value ≡ true)
      × (e.period_end ≡ time)
      × (e.period_start + whole_seconds (float_at f fields "duration_seconds") * second ≡ time)
      × (e.resource_type ≡ def.resource_type)
      × (e.resource_id ≡ text_at f fields def.resource_id_field)
      × (e.tenant_id ≡ text_at f fields def.tenant_id_field)

  -- If the duration of an event is at most 9223372036 whole seconds, and the event comes that long
  -- after the year 1, each metering entry of it has a positive value, a period that ends with the
  -- event and starts the whole seconds of the duration before it, or with the event if there is no
  -- positive duration, and the resource and the tenant that the fields of the definition name.
  pub custom_entries-IsMetered :
      (project : String) (time : ℕ) (ms : List MeterDef)
      → whole_seconds (float_at f fields "duration_seconds") ≤ max_seconds
      → whole_seconds (float_at f fields "duration_seconds") * second ≤ time
      → All (IsMetered time) (custom_entries f def fields project time ms)
  unfolding custom_entries
  custom_entries-IsMetered project time [] h l = tt
  custom_entries-IsMetered project time (m ∷ ms) h l =
      elim (Option-cases (float_at f fields m.value_field)) [
        | inl n ↦ rw (n, custom_entries) (custom_entries-IsMetered project time ms h l)
        | inr (value, v) ↦ elim (Bool-cases (ltb_ℤ (pos 0) value)) [
          | inl t ↦
              rw (v, custom_entries, t)
                (
                  (
                    t,
                    refl,
                    period_of (float_at f fields "duration_seconds") time h l,
                    refl,
                    refl,
                    refl,
                  ),
                  custom_entries-IsMetered project time ms h l,
                )
          | inr n ↦ rw (v, custom_entries, n) (custom_entries-IsMetered project time ms h l)
        ]
      ]
