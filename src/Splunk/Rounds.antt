-- ===== src/Splunk/Rounds.antt =====
-- One round of a sweep: the batch that is read, and what is pending behind it.
use cost_ai_grid_poc.Prelude.{
  ℕ, zero, suc, ◌≤◌, ◌<◌, ◌≡◌, refl, sym, ap, ◌∙◌, inl, inr, ◌⊎◌, List, [], ◌∷◌, ◌++◌, length, take,
  arith,
}
use cost_ai_grid_poc.Models.{RawEvent}
use cost_ai_grid_poc.Store.{Store, raw_events_since}
use cost_ai_grid_poc.Splunk.{last_id}
use cost_ai_grid_poc.Splunk.Pending.{
  IsAscending, pending, drop, take-drop, pending-IsAscending, order_by-IsAscending, last_id-le,
  take-IsAscending, pending-last_id, pending-pending,
}

pub List-cases : {A : Type 0} (xs : List A) → (xs ≡ []) ⊎ ((x : A) × (ys : List A) × (xs ≡ x ∷ ys))
List-cases [] = inl refl
List-cases (x ∷ ys) = inr (x, ys, refl)

pub raw_events_since-pending :
    {D : Type 0} (s : Store D) (c n : ℕ)
    → IsAscending 0 s.raw_events
    → raw_events_since s c n ≡ take n (pending c s.raw_events)
unfolding raw_events_since
raw_events_since-pending s c n h =
    ap (take n)
      (order_by-IsAscending c (pending c s.raw_events) (pending-IsAscending c 0 s.raw_events h))

pub take_none : (n : ℕ) (es : List RawEvent) → 1 ≤ n → take n es ≡ [] → es ≡ []
take_none n [] p h = refl
take_none zero (e ∷ es) p h = absurd (omega arith)
take_none (suc n) (e ∷ es) p h = absurd (cc h)

length-drop : (n : ℕ) (es : List RawEvent) → length (drop n es) ≤ length es
length-drop zero es = omega arith
length-drop (suc n) [] = omega arith
length-drop (suc n) (e ∷ es) = omega (arith, length-drop n es)

drop_less : (n : ℕ) (es : List RawEvent) → 1 ≤ n → 1 ≤ length es → length (drop n es) < length es
drop_less zero es p q = absurd (omega arith)
drop_less (suc n) [] p q = absurd (omega arith)
drop_less (suc n) (e ∷ es) p q = omega (arith, length-drop n es)

-- a batch that is not empty, of n events at most: the rest is what is pending behind its last id
abbrev pub IsBatch : ℕ → ℕ → List RawEvent → RawEvent → List RawEvent → Type 0
IsBatch n c es e xs =
    (pending (last_id e.id xs) es ≡ drop n (pending c es))
    × ((e ∷ xs) ++ pending (last_id e.id xs) es ≡ pending c es)
    × (length (pending (last_id e.id xs) es) < length (pending c es))
    × (c ≤ last_id e.id xs)

pub take-IsBatch :
    (n c : ℕ) (es : List RawEvent) (e : RawEvent) (xs : List RawEvent)
    → IsAscending 0 es
    → 1 ≤ n
    → take n (pending c es) ≡ e ∷ xs
    → IsBatch n c es e xs
take-IsBatch n c es e xs h p t =
    let k = pending-IsAscending c 0 es h in
    let l : last_id c (take n (pending c es)) ≡ last_id e.id xs = ap (last_id c) t in
    let m : c ≤ last_id e.id xs =
      rw l at (last_id-le c (take n (pending c es)) (take-IsAscending c n (pending c es) k)) in
    let r : pending (last_id e.id xs) es ≡ drop n (pending c es) =
      let j : pending (last_id e.id xs) (pending c es) ≡ drop n (pending c es) =
        rw l at (pending-last_id c n (pending c es) k) in
      sym (pending-pending c (last_id e.id xs) es m) ∙ j in
    let a : (e ∷ xs) ++ drop n (pending c es) ≡ pending c es =
      rw t at (take-drop n (pending c es)) in
    let b : 1 ≤ length (pending c es) = rw (sym a) (omega arith) in
    (r, rw r a, rw r (drop_less n (pending c es) p b), m)
