-- ===== src/CustomMetrics/Config.antt =====
-- The definitions, `validate` and `LoadFromFile` on a configuration that is read and decoded.
pub mod Loaded
use cost_ai_grid_poc.Prelude.{
  ℕ, zero, suc, String, Bool, true, false, ◌||◌, Option, none, some, List, [], ◌∷◌, str_eq,
  if◌then◌else◌, any_row, upsert_row, Result, ok, err,
}

pub record MeterDef : Type 0 where
  pub meter_name : String
  pub value_field : String
  pub unit : String

pub record MetricDef : Type 0 where
  pub event_type : String
  pub resource_type : String
  pub resource_id_field : String
  pub tenant_id_field : String
  pub meters : List MeterDef

-- the errors of `validate`, with the places in the configuration
pub data ConfigError : Type 0 where
  event_type_required resource_type_required resource_id_field_required : ℕ → ConfigError
  tenant_id_field_required meter_required : ℕ → ConfigError
  duplicate_event_type : ℕ → String → ConfigError
  meter_name_required value_field_required unit_required : ℕ → ℕ → ConfigError

-- the loop over the meters of a definition
unfoldable pub validate_meters : ℕ → ℕ → List MeterDef → Option ConfigError
validate_meters i j [] = none
validate_meters i j (m ∷ ms) =
    let rest = validate_meters i (suc j) ms in
    if str_eq m.meter_name ""
    then some (meter_name_required i j)
    else if str_eq m.value_field ""
    then some (value_field_required i j)
    else if str_eq m.unit ""
    then some (unit_required i j)
    else rest

abbrev pub is_empty : List MeterDef → Bool
is_empty [] = true
is_empty (_ ∷ _) = false

-- the loop over the definitions; `seen` holds the event types before
unfoldable pub validate_from : ℕ → List String → List MetricDef → Option ConfigError
validate_from i seen [] = none
validate_from i seen (def ∷ defs) =
    let rest = validate_from (suc i) (def.event_type ∷ seen) defs in
    let meters = validate_meters i 0 def.meters in
    if str_eq def.event_type ""
    then some (event_type_required i)
    else if str_eq def.resource_type ""
    then some (resource_type_required i)
    else if str_eq def.resource_id_field ""
    then some (resource_id_field_required i)
    else if str_eq def.tenant_id_field ""
    then some (tenant_id_field_required i)
    else if is_empty def.meters
    then some (meter_required i)
    else if any_row (λ t. str_eq t def.event_type) seen
    then some (duplicate_event_type i def.event_type)
    else elim meters [ some e ↦ some e | none ↦ rest ]

unfoldable pub validate : List MetricDef → Option ConfigError
unfolding validate_from validate_meters
validate defs = validate_from 0 [] defs

abbrev pub has_type : String → MetricDef → Bool
has_type t def = str_eq def.event_type t

-- `r.defs[def.EventType] = def` for one definition after another; the map is the list of its values
unfoldable pub add_defs : List MetricDef → List MetricDef → List MetricDef
add_defs [] defs = defs
add_defs (def ∷ rest) defs =
    add_defs rest (upsert_row (has_type def.event_type) (λ _. def) def defs)

unfoldable pub load : List MetricDef → Result ConfigError (List MetricDef)
unfolding validate add_defs
load defs = elim (validate defs) [ some e ↦ err e | none ↦ ok (add_defs defs []) ]
