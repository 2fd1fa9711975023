-- ===== src/Rating/Index.antt =====
-- `buildRateIndex` and `matchRate`. The map from keys to rates is the list of its entries.
pub mod Preferred
use cost_ai_grid_poc.Prelude.{
  String, Bool, ◌&&◌, Option, none, some, List, [], ◌∷◌, ◌++◌, str_eq, if◌then◌else◌, any_row,
  find_row,
}
use cost_ai_grid_poc.Models.{RateRecord}

pub record RateKey : Type 0 where
  pub tenant : String
  pub instance_type : String
  pub resource_type : String
  pub meter_name : String

abbrev pub same_key : RateKey → RateKey → Bool
same_key k l =
    str_eq k.tenant l.tenant
    && str_eq k.instance_type l.instance_type
    && str_eq k.resource_type l.resource_type
    && str_eq k.meter_name l.meter_name

abbrev pub RateIndex : Type 0 → Type 0
RateIndex D = List (RateKey × RateRecord D)

abbrev tenant_of : Option String → String
tenant_of none = ""
tenant_of (some t) = t

module _ {D : Type 0} where
  abbrev pub key_of : RateRecord D → RateKey
  key_of r = record {
    tenant = tenant_of r.tenant_id;
    instance_type = r.instance_type;
    resource_type = r.resource_type;
    meter_name = r.meter_name;
  }

  abbrev pub lookup : RateKey → RateIndex D → Option (RateRecord D)
  lookup k [] = none
  lookup k (e ∷ idx) = if same_key e.0 k then some e.1 else lookup k idx

  unfoldable pub index_rates : RateIndex D → List (RateRecord D) → RateIndex D
  index_rates idx [] = idx
  index_rates idx (r ∷ rates) =
      index_rates
        (if any_row (λ (e : RateKey × RateRecord D). same_key e.0 (key_of r)) idx
          then idx
          else idx ++ (key_of r, r) ∷ [])
        rates

  unfoldable pub build_rate_index : List (RateRecord D) → RateIndex D
  unfolding index_rates
  build_rate_index rates = index_rates [] rates

  abbrev pub or_else : Option (RateRecord D) → Option (RateRecord D) → Option (RateRecord D)
  or_else none o = o
  or_else (some r) o = some r

  unfoldable pub match_rate :
      RateIndex D → String → String → String → String → Option (RateRecord D)
  match_rate idx tenant_id instance_type resource_type meter_name =
      or_else (at tenant_id instance_type)
        (or_else (at "" instance_type) (or_else (at tenant_id "") (at "" "")))
    where
      at : String → String → Option (RateRecord D)
      at t i =
          lookup
            (record {
              tenant = t;
              instance_type = i;
              resource_type = resource_type;
              meter_name = meter_name;
            })
            idx
