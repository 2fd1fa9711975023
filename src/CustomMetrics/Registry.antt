-- ===== src/CustomMetrics/Registry.antt =====
-- `HasEventType`, `ClassifyEvent` and `ProcessEvent`. A registry is the list of the values of its
-- map; the pointer to it may be nil.
pub mod Metered
use cost_ai_grid_poc.Prelude.{
  ℕ, ◌-◌, ◌/◌, ◌*◌, String, Bool, false, Option, none, some, List, [], ◌∷◌, if◌then◌else◌, find_row,
  any_row,
}
use cost_ai_grid_poc.Prelude.Int.{ℤ, pos, ltb_ℤ}
use cost_ai_grid_poc.Calendar.{second, add_negated}
use cost_ai_grid_poc.Json.{Json, Fields, object_of}
use cost_ai_grid_poc.Models.{MeteringEntry}
use cost_ai_grid_poc.Store.{Store, default_project_for_tenant, insert_metering_entry_batch}
use cost_ai_grid_poc.CustomMetrics.Config.{MeterDef, MetricDef, has_type}
use cost_ai_grid_poc.CustomMetrics.Extract.{Formats, extract_field, to_float64, to_string}

pub data CustomError : Type 0 where
  no_definition : String → CustomError
  not_an_object : CustomError

abbrev pub has_event_type : Option (List MetricDef) → String → Bool
has_event_type none t = false
has_event_type (some defs) t = any_row (has_type t) defs

-- a duration that is missing, no number or not positive is left out
unfoldable pub start_of : Option ℤ → ℕ → ℕ
unfolding add_negated
start_of none time = time
start_of (some d) time = if ltb_ℤ (pos 0) d then add_negated d time else time

module _ (f : Formats) where
  -- the text of a field, and the empty text if there is none
  unfoldable pub text_at : Fields → String → String
  text_at fields path = elim (extract_field fields path) [ none ↦ "" | some v ↦ to_string f v ]

  unfoldable pub float_at : Fields → String → Option ℤ
  float_at fields path = elim (extract_field fields path) [ none ↦ none | some v ↦ to_float64 f v ]

  unfoldable pub classify_custom : List MetricDef → String → Fields → String × String × String
  unfolding text_at
  classify_custom defs t fields = elim (find_row (has_type t) defs) [
    | none ↦ ("", "", "")
    | some def ↦ (
      def.resource_type,
      text_at fields def.resource_id_field,
      text_at fields def.tenant_id_field,
    )
  ]

  -- the loop over the meters; a field that is missing, no number or not positive is left out
  unfoldable pub custom_entries :
      MetricDef → Fields → String → ℕ → List MeterDef → List MeteringEntry
  unfolding float_at text_at start_of
  custom_entries def fields project time [] = []
  custom_entries def fields project time (m ∷ ms) =
      let rest = custom_entries def fields project time ms in
      elim (float_at fields m.value_field) [
        | none ↦ rest
        | some value ↦
            if ltb_ℤ (pos 0) value
            then record {
              id = 0;
              resource_type = def.resource_type;
              resource_id = text_at fields def.resource_id_field;
              tenant_id = text_at fields def.tenant_id_field;
              project_id = project;
              user_id = "";
              instance_type = "";
              meter_name = m.meter_name;
              value = value;
              unit = m.unit;
              period_start = start_of (float_at fields "duration_seconds") time;
              period_end = time;
            }
              ∷ rest
            else rest
      ]

  unfoldable pub process_custom_event :
      {D : Type 0} → List MetricDef → String → Json → ℕ → Store D → Option CustomError × Store D
  unfolding custom_entries text_at
  process_custom_event defs t data_json time s = elim (find_row (has_type t) defs) [
    | none ↦ (some (no_definition t), s)
    | some def ↦ elim (object_of data_json) [
      | none ↦ (some not_an_object, s)
      | some fields ↦
          let (project, s1) = default_project_for_tenant s (text_at fields def.tenant_id_field) in
          (none, insert_metering_entry_batch (custom_entries def fields project time def.meters) s1)
    ]
  ]
