-- ===== src/Json.antt =====
-- JSON documents as Go's encoding/json decodes them. The keys of an object are distinct and spelled
-- as in the tags of the structs; a number with a fraction or an exponent is counted in millionths.
use cost_ai_grid_poc.Prelude.{
  ℕ, ◌^◌, ◌-◌, String, Bool, true, false, Option, none, some, str_eq, leb, if◌then◌else◌,
}
use cost_ai_grid_poc.Prelude.Int.{ℤ, pos, negsuc, ◌*ℤ◌}

mutual
  pub data Json : Type 0 where
    null : Json
    bool : Bool → Json
    -- a number without fraction and exponent
    int : ℤ → Json
    num : ℤ → Json
    str : String → Json
    arr : Items → Json
    obj : Fields → Json

  pub data Items : Type 0 where
    nil : Items
    cons : Json → Items → Items

  pub data Fields : Type 0 where
    end : Fields
    field : String → Json → Fields → Fields

abbrev pub member : String → Fields → Option Json
member k end = none
member k (field j v fs) = if str_eq j k then some v else member k fs

-- a struct takes an object, and `null` leaves it as it is
abbrev pub is_struct : Json → Bool
is_struct null = true
is_struct (obj _) = true
is_struct _ = false

-- `map[string]interface{}`
abbrev pub object_of : Json → Option Fields
object_of null = some end
object_of (obj fs) = some fs
object_of _ = none

abbrev pub field_of : String → Json → Option Json
field_of k (obj fs) = member k fs
field_of k _ = none

-- What a field of a struct holds after decoding, and whether decoding it is no error. A field that
-- is absent, `null` or of another type keeps its zero value.
abbrev pub as_text : Option Json → String
as_text (some (str s)) = s
as_text _ = ""

abbrev pub is_text : Option Json → Bool
is_text none = true
is_text (some null) = true
is_text (some (str _)) = true
is_text _ = false

-- a field of type *string
abbrev pub as_text? : Option Json → Option String
as_text? (some (str s)) = some s
as_text? _ = none

-- the integers of `bits + 1` bits
abbrev pub in_range : ℕ → ℤ → Bool
in_range bits (pos n) = leb n (2 ^ bits - 1)
in_range bits (negsuc n) = leb n (2 ^ bits - 1)

abbrev pub as_int : ℕ → Option Json → ℤ
as_int bits (some (int n)) = if in_range bits n then n else pos 0
as_int bits _ = pos 0

abbrev pub is_int : ℕ → Option Json → Bool
is_int bits none = true
is_int bits (some null) = true
is_int bits (some (int n)) = in_range bits n
is_int bits _ = false

abbrev pub as_float? : Option Json → Option ℤ
as_float? (some (int n)) = some (n *ℤ pos 1_000_000)
as_float? (some (num n)) = some n
as_float? _ = none

abbrev pub as_float : Option Json → ℤ
as_float v = elim (as_float? v) [ none ↦ pos 0 | some n ↦ n ]

abbrev pub is_float : Option Json → Bool
is_float none = true
is_float (some null) = true
is_float (some (int _)) = true
is_float (some (num _)) = true
is_float _ = false
