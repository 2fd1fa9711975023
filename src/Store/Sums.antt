-- ===== src/Store/Sums.antt =====
-- Sums over the rows of a table.
use cost_ai_grid_poc.Prelude.{◌≡◌, List, [], ◌∷◌, ◌++◌}
use cost_ai_grid_poc.Prelude.Int.{ℤ, ◌+ℤ◌, int_laws}
use cost_ai_grid_poc.Store.Metering.{sum_of}

pub sum_of-last :
    {A : Type 0} (f : A → ℤ) (xs : List A) (x : A) → sum_of f (xs ++ x ∷ []) ≡ sum_of f xs +ℤ f x
sum_of-last f [] x = omega int_laws
sum_of-last f (y ∷ ys) x = rw (sum_of-last f ys x) (omega int_laws)
