-- ===== src/CustomMetrics/Extract.antt =====
-- `extractField`, `toFloat64` and `toString`.
use Prim.Native.Char.{Char, code}
use Prim.Native.String.{len, slice}
use text.Mathlib.Text.{starts_with}
use cost_ai_grid_poc.Prelude.{String, Option, none, some, List, [], ◌∷◌, ◌==◌, if◌then◌else◌}
use cost_ai_grid_poc.Prelude.Int.{ℤ, pos, ◌*ℤ◌}
use cost_ai_grid_poc.Json.{Json, int, num, str, obj, Fields, member}

-- What packages strconv and fmt do here: `strconv.ParseFloat` in millionths, without a result that
-- is no number or infinite, and `%v` of a value that is no text.
pub record Formats : Type 0 where
  pub parse_float : String → Option ℤ
  pub sprint : Json → String

-- `strings.TrimPrefix`
abbrev pub trim_prefix : String → String → String
trim_prefix s prefix = if starts_with s prefix then slice s (len prefix) (len s) else s

-- a character before the first part
abbrev in_front : Char → List String → List String
in_front c [] = String.◌∷◌ c String.[] ∷ []
in_front c (p ∷ parts) = String.◌∷◌ c p ∷ parts

-- `strings.Split(s, ".")`
unfoldable pub split_dots : String → List String
split_dots String.[] = "" ∷ []
split_dots (String.◌∷◌ c s) =
    let rest = split_dots s in if code c == b'.' then "" ∷ rest else in_front c rest

-- the type assertion to a map
abbrev pub fields_in : Json → Option Fields
fields_in (obj fs) = some fs
fields_in _ = none

-- the loop of `extractField` over the parts
unfoldable pub extract_parts : List String → Fields → Option Json
extract_parts [] current = none
extract_parts (part ∷ []) current = member part current
extract_parts (part ∷ q ∷ parts) current = elim (member part current) [
  | none ↦ none
  | some val ↦ elim (fields_in val) [ none ↦ none | some next ↦ extract_parts (q ∷ parts) next ]
]

unfoldable pub extract_field : Fields → String → Option Json
unfolding extract_parts split_dots
extract_field fields path = extract_parts (split_dots (trim_prefix path "data.")) fields

module _ (f : Formats) where
  abbrev pub to_float64 : Json → Option ℤ
  to_float64 (int n) = some (n *ℤ pos 1_000_000)
  to_float64 (num n) = some n
  to_float64 (str s) = f.parse_float s
  to_float64 _ = none

  abbrev pub to_string : Json → String
  to_string (str s) = s
  to_string v = f.sprint v
