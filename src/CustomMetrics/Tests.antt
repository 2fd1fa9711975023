-- ===== src/CustomMetrics/Tests.antt =====
-- A configuration of the operator's, and an event of it.
use cost_ai_grid_poc.Prelude.{
  ◌*◌, ◌≤◌, arith, ◌≡◌, refl, none, some, List, [], ◌∷◌, All, ok, find_row,
}
use cost_ai_grid_poc.Prelude.Int.{pos, ◌*ℤ◌}
use cost_ai_grid_poc.Calendar.{second, max_seconds}
use cost_ai_grid_poc.Json.{Fields, int, str, obj, end, field}
use cost_ai_grid_poc.CustomMetrics.Config.{
  MetricDef, has_type, duplicate_event_type, validate, load,
}
use cost_ai_grid_poc.CustomMetrics.Config.Loaded.{load-finds}
use cost_ai_grid_poc.CustomMetrics.Extract.{Formats, extract_field}
use cost_ai_grid_poc.CustomMetrics.Registry.{custom_entries, start_of, float_at}
use cost_ai_grid_poc.CustomMetrics.Registry.Metered.{
  IsMetered, whole_seconds, custom_entries-IsMetered,
}

abbrev formats : Formats
formats = record { parse_float = λ _. none; sprint = λ _. "" }

abbrev gpu : MetricDef
gpu = record {
  event_type = "acme.gpu.used";
  resource_type = "gpu";
  resource_id_field = "data.gpu.id";
  tenant_id_field = "tenant";
  meters =
      record { meter_name = "gpu_seconds"; value_field = "data.gpu.seconds"; unit = "seconds" }
      ∷ [];
}

gpu_valid : validate (gpu ∷ []) ≡ none
unfolding validate
gpu_valid = refl

twice_refused : validate (gpu ∷ gpu ∷ []) ≡ some (duplicate_event_type 1 "acme.gpu.used")
unfolding validate
twice_refused = refl

load-finds_example :
    (r : List MetricDef) × (load (gpu ∷ []) ≡ ok r)
    × All (λ def. find_row (has_type def.event_type) r ≡ some def) (gpu ∷ [])
load-finds_example = load-finds (gpu ∷ []) gpu_valid

abbrev used : Fields
used = field "tenant" (str "acme") (
    field "gpu" (obj (field "id" (str "g7") (field "seconds" (int (pos 90)) end)))
      (field "duration_seconds" (int (pos 3600)) end))

nested_found : extract_field used "data.gpu.id" ≡ some (str "g7")
unfolding extract_field
nested_found = refl

duration_short : whole_seconds (float_at formats used "duration_seconds") ≤ max_seconds
unfolding float_at extract_field ◌*ℤ◌
duration_short = omega arith

event_late : whole_seconds (float_at formats used "duration_seconds") * second ≤ 4000 * second
unfolding float_at extract_field ◌*ℤ◌
event_late = omega arith

-- a duration of 10^10 seconds starts the period some 267 years after the event
late_start : start_of (some (pos (10_000_000_000 * second))) (4000 * second) ≡ 8_446_748_073_709_551
unfolding start_of
late_start = refl

custom_entries-IsMetered_example :
    All
      (IsMetered formats gpu used (4000 * second))
      (custom_entries formats gpu used "default" (4000 * second) gpu.meters)
custom_entries-IsMetered_example =
    custom_entries-IsMetered formats gpu used "default" (4000 * second) gpu.meters duration_short
      event_late
