-- ===== src/Prelude/Keys/Order.antt =====
-- Sorting a table by a column keeps its rows and their keys.
use Prim.Native.Nat.{ℕ}
use mathlib.Core.Path.{◌≡◌, refl}
use mathlib.Core.Logic.{inl, inr}
use mathlib.Core.Bool.{Bool, true, false}
use mathlib.Core.List.{List, [], ◌∷◌}
use cost_ai_grid_poc.Prelude.Tests.{leb, Bool-cases}
use cost_ai_grid_poc.Prelude.Lists.{insert_by, order_by, All, any_row}
use cost_ai_grid_poc.Prelude.Keys.{KeyEq, distinct_keys, has_key, IsKeyedBy}

module _ {A K : Type 0} ⦃c : KeyEq K⦄ (key : A → K) (column : A → ℕ) where
  any_row-insert :
      (p : A → Bool) (x : A) (xs : List A)
      → p x ≡ false
      → any_row p xs ≡ false
      → any_row p (insert_by column x xs) ≡ false
  any_row-insert p x [] n h = rw n refl
  any_row-insert p x (y ∷ ys) n h = elim (Bool-cases (leb (column x) (column y))) [
    | inl t ↦ rw t (rw n h)
    | inr m ↦ rw m (elim (Bool-cases (p y)) [
      | inl t ↦ let e : true ≡ false = rw t at h in absurd (cc e)
      | inr l ↦ rw l (any_row-insert p x ys n (rw l at h))
    ])
  ]

  insert_by-IsKeyedBy :
      (x : A) (xs : List A)
      → any_row (has_key key (key x)) xs ≡ false
      → IsKeyedBy key xs
      → IsKeyedBy key (insert_by column x xs)
  insert_by-IsKeyedBy x [] n k = (n, k)
  insert_by-IsKeyedBy x (y ∷ ys) n k = elim (Bool-cases (leb (column x) (column y))) [
    | inl t ↦ rw t (n, k)
    | inr m ↦ rw m (elim (Bool-cases (has_key key (key x) y)) [
      | inl t ↦ let e : true ≡ false = rw t at n in absurd (cc e)
      | inr l ↦ (
        any_row-insert (has_key key (key y)) x ys (distinct_keys (key y) (key x) l) k.0,
        insert_by-IsKeyedBy x ys (rw l at n) k.1,
      )
    ])
  ]

  insert_by-All :
      (P : A → Type 0) (x : A) (xs : List A) → P x → All P xs → All P (insert_by column x xs)
  insert_by-All P x [] p h = (p, h)
  insert_by-All P x (y ∷ ys) p h = elim (Bool-cases (leb (column x) (column y))) [
    | inl t ↦ rw t (p, h)
    | inr m ↦ rw m (h.0, insert_by-All P x ys p h.1)
  ]

  pub order_by-All : (P : A → Type 0) (xs : List A) → All P xs → All P (order_by column xs)
  order_by-All P [] h = tt
  order_by-All P (x ∷ xs) h = insert_by-All P x (order_by column xs) h.0 (order_by-All P xs h.1)

  any_row-order :
      (p : A → Bool) (xs : List A) → any_row p xs ≡ false → any_row p (order_by column xs) ≡ false
  any_row-order p [] h = refl
  any_row-order p (x ∷ xs) h = elim (Bool-cases (p x)) [
    | inl t ↦ let e : true ≡ false = rw t at h in absurd (cc e)
    | inr n ↦ any_row-insert p x (order_by column xs) n (any_row-order p xs (rw n at h))
  ]

  pub order_by-IsKeyedBy : (xs : List A) → IsKeyedBy key xs → IsKeyedBy key (order_by column xs)
  order_by-IsKeyedBy [] k = tt
  order_by-IsKeyedBy (x ∷ xs) k =
      insert_by-IsKeyedBy x (order_by column xs) (any_row-order (has_key key (key x)) xs k.0)
        (order_by-IsKeyedBy xs k.1)
