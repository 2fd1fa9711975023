-- ===== src/CustomMetrics/Config/Loaded.antt =====
-- What `validate` makes sure of: the map that is loaded holds every definition.
use mathlib.Core.List.{append-nil, append_assoc}
use cost_ai_grid_poc.Prelude.{
  ℕ, suc, ◌≡◌, refl, sym, ap, ◌∙◌, inl, inr, String, Bool, true, false, ◌||◌, none, some, List, [],
  ◌∷◌, ◌++◌, str_eq, eq_iff, eq_refl, Bool-cases, find_row, any_row, All, ok, arith,
}
use cost_ai_grid_poc.Prelude.Rows.{any_row-skip}
use cost_ai_grid_poc.Prelude.Keys.{string_key, has_key, IsKeyedBy, find_row-own, distinct_keys}
use cost_ai_grid_poc.CustomMetrics.Config.{
  MetricDef, has_type, validate_from, validate, add_defs, load,
}

abbrev type_of_def : MetricDef → String
type_of_def def = def.event_type

one_passed :
    (i : ℕ) (seen : List String) (def : MetricDef) (defs : List MetricDef)
    → validate_from i seen (def ∷ defs) ≡ none
    → (any_row (λ t. str_eq t def.event_type) seen ≡ false)
      × (validate_from (suc i) (def.event_type ∷ seen) defs ≡ none)
unfolding validate_from
one_passed i seen def defs h = ground arith

shown : (a b : Bool) → b ≡ true → (a || b) ≡ true
shown true b h = refl
shown false b h = h

-- no definition has a type that was seen
unseen :
    (i : ℕ) (seen : List String) (defs : List MetricDef) (t : String)
    → validate_from i seen defs ≡ none
    → any_row (λ u. str_eq u t) seen ≡ true
    → any_row (has_key type_of_def t) defs ≡ false
unseen i seen [] t h s = refl
unseen i seen (def ∷ defs) t h s =
    let (new, rest) = one_passed i seen def defs h in
    elim (Bool-cases (has_key type_of_def t def)) [
      | inl e ↦
          let same : t ≡ def.event_type = sym ((eq_iff _ _).0 e) in
          let c : true ≡ false = sym s ∙ ap (λ u. any_row (λ v. str_eq v u) seen) same ∙ new in
          absurd (cc c)
      | inr n ↦ rw n (
          unseen (suc i) (def.event_type ∷ seen) defs t rest
            (shown (str_eq def.event_type t) (any_row (λ u. str_eq u t) seen) s))
    ]

validate_from-IsKeyedBy :
    (i : ℕ) (seen : List String) (defs : List MetricDef)
    → validate_from i seen defs ≡ none
    → IsKeyedBy type_of_def defs
validate_from-IsKeyedBy i seen [] h = tt
validate_from-IsKeyedBy i seen (def ∷ defs) h =
    let (new, rest) = one_passed i seen def defs h in
    (
      unseen (suc i) (def.event_type ∷ seen) defs def.event_type rest
          (rw (eq_refl def.event_type) refl),
      validate_from-IsKeyedBy (suc i) (def.event_type ∷ seen) defs rest,
    )

-- the definitions have no type of a list
abbrev AreNew : List MetricDef → List MetricDef → Type 0
AreNew before defs = All (λ def. any_row (has_key type_of_def def.event_type) before ≡ false) defs

still_new :
    (before : List MetricDef) (def : MetricDef) (defs : List MetricDef)
    → any_row (has_key type_of_def def.event_type) defs ≡ false
    → AreNew before defs
    → AreNew (before ++ def ∷ []) defs
still_new before def [] h n = tt
still_new before def (d ∷ defs) h n = elim (Bool-cases (has_key type_of_def def.event_type d)) [
  | inl t ↦ let e : true ≡ false = rw t at h in absurd (cc e)
  | inr m ↦ (
    any_row-skip (has_key type_of_def d.event_type) before def n.0
        (distinct_keys d.event_type def.event_type m),
    still_new before def defs (rw m at h) n.1,
  )
]

all_new : (defs : List MetricDef) → AreNew [] defs
all_new [] = tt
all_new (d ∷ defs) = (refl, all_new defs)

-- new types are added at the end
add_defs-new :
    (defs before : List MetricDef)
    → IsKeyedBy type_of_def defs
    → AreNew before defs
    → add_defs defs before ≡ before ++ defs
unfolding add_defs
add_defs-new [] before k n = sym (append-nil before)
add_defs-new (def ∷ defs) before k n = rw n.0 (
    add_defs-new defs (before ++ def ∷ []) k.1 (still_new before def defs k.0 n.1)
    ∙ append_assoc before (def ∷ []) defs)

-- If the validation of a configuration finds no error, the registry that is loaded from it holds
-- each of its definitions under the event type of the definition.
pub load-finds :
    (defs : List MetricDef)
    → validate defs ≡ none
    → (r : List MetricDef) × (load defs ≡ ok r)
      × All (λ def. find_row (has_type def.event_type) r ≡ some def) defs
unfolding load
load-finds defs v =
    let k = validate_from-IsKeyedBy 0 [] defs v in
    (
      defs,
      rw (v, load) (ap (λ r. ok r) (add_defs-new defs [] k (all_new defs))),
      find_row-own type_of_def defs k,
    )
