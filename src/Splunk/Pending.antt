-- ===== src/Splunk/Pending.antt =====
-- The raw events after a cursor, in a table whose ids ascend.
use cost_ai_grid_poc.Prelude.{
  ℕ, zero, suc, ◌≤◌, ◌<◌, ◌≡◌, refl, ap, inl, inr, true, false, List, [], ◌∷◌, ◌++◌, ltb, leb,
  length, take, where_rows, insert_by, order_by, Bool-cases, arith,
}
use cost_ai_grid_poc.Models.{RawEvent}
use cost_ai_grid_poc.Splunk.{last_id}

-- the ids ascend from one above `a`
abbrev pub IsAscending : ℕ → List RawEvent → Type 0
IsAscending a [] = Unit {0}
IsAscending a (e ∷ es) = (a < e.id) × IsAscending e.id es

-- the events after a cursor
abbrev pub pending : ℕ → List RawEvent → List RawEvent
pending cursor es = where_rows (λ e. ltb cursor e.id) es

abbrev pub drop : ℕ → List RawEvent → List RawEvent
drop zero es = es
drop (suc n) [] = []
drop (suc n) (e ∷ es) = drop n es

pub take-drop : (n : ℕ) (es : List RawEvent) → take n es ++ drop n es ≡ es
take-drop zero es = refl
take-drop (suc n) [] = refl
take-drop (suc n) (e ∷ es) = ap (λ xs. e ∷ xs) (take-drop n es)

pub drop_short : (n : ℕ) (es : List RawEvent) → ltb (length (take n es)) n ≡ true → drop n es ≡ []
drop_short zero es h = ground arith
drop_short (suc n) [] h = refl
drop_short (suc n) (e ∷ es) h = drop_short n es (ground arith)

IsAscending-weaken : (a b : ℕ) (es : List RawEvent) → a ≤ b → IsAscending b es → IsAscending a es
IsAscending-weaken a b [] h k = tt
IsAscending-weaken a b (e ∷ es) h k = (omega arith, k.1)

pending-all : (a : ℕ) (es : List RawEvent) → IsAscending a es → pending a es ≡ es
pending-all a [] h = refl
pending-all a (e ∷ es) h =
    let t : ltb a e.id ≡ true = ground arith in
    rw t (ap (λ xs. e ∷ xs) (pending-all a es (IsAscending-weaken a e.id es (omega arith) h.1)))

kept-IsAscending : (c a : ℕ) (es : List RawEvent) → IsAscending a es → IsAscending a (pending c es)
kept-IsAscending c a [] h = tt
kept-IsAscending c a (e ∷ es) h =
    let k = kept-IsAscending c e.id es h.1 in
    elim (Bool-cases (ltb c e.id)) [
      | inl t ↦ rw t (h.0, k)
      | inr n ↦ rw n (IsAscending-weaken a e.id (pending c es) (omega (arith, h.0)) k)
    ]

-- what is pending ascends from the cursor
pub pending-IsAscending :
    (c a : ℕ) (es : List RawEvent) → IsAscending a es → IsAscending c (pending c es)
pending-IsAscending c a [] h = tt
pending-IsAscending c a (e ∷ es) h = elim (Bool-cases (ltb c e.id)) [
  | inl t ↦ rw t ((ground arith), kept-IsAscending c e.id es h.1)
  | inr n ↦ rw n (pending-IsAscending c e.id es h.1)
]

-- a table that ascends is in the order of its ids
pub order_by-IsAscending :
    (a : ℕ) (es : List RawEvent) → IsAscending a es → order_by (λ e. e.id) es ≡ es
order_by-IsAscending a [] h = refl
order_by-IsAscending a (e ∷ es) h = rw (order_by-IsAscending e.id es h.1) (first e es h.1)
  where
    first :
        (e : RawEvent) (es : List RawEvent)
        → IsAscending e.id es
        → insert_by (λ x. x.id) e es ≡ e ∷ es
    first e [] k = refl
    first e (x ∷ xs) k = let t : leb e.id x.id ≡ true = ground arith in rw t refl

pub last_id-le : (a : ℕ) (es : List RawEvent) → IsAscending a es → a ≤ last_id a es
last_id-le a [] h = omega arith
last_id-le a (e ∷ es) h = omega (arith, last_id-le e.id es h.1)

pub take-IsAscending : (a n : ℕ) (es : List RawEvent) → IsAscending a es → IsAscending a (take n es)
take-IsAscending a zero es h = tt
take-IsAscending a (suc n) [] h = tt
take-IsAscending a (suc n) (e ∷ es) h = (h.0, take-IsAscending e.id n es h.1)

-- behind the last id of a batch the rest is pending
pub pending-last_id :
    (a n : ℕ) (es : List RawEvent)
    → IsAscending a es
    → pending (last_id a (take n es)) es ≡ drop n es
pending-last_id a zero es h = pending-all a es h
pending-last_id a (suc n) [] h = refl
pending-last_id a (suc n) (e ∷ es) h =
    let m = last_id-le e.id (take n es) (take-IsAscending e.id n es h.1) in
    let f : ltb (last_id e.id (take n es)) e.id ≡ false = ground arith in
    rw f (pending-last_id e.id n es h.1)

-- what is pending behind a later cursor was pending behind an earlier one
pub pending-pending :
    (c m : ℕ) (es : List RawEvent) → c ≤ m → pending m (pending c es) ≡ pending m es
pending-pending c m [] h = refl
pending-pending c m (e ∷ es) h = elim (Bool-cases (ltb c e.id)) [
  | inl t ↦ rw t (elim (Bool-cases (ltb m e.id)) [
    | inl u ↦ rw u (ap (λ xs. e ∷ xs) (pending-pending c m es h))
    | inr u ↦ rw u (pending-pending c m es h)
  ])
  | inr n ↦ let u : ltb m e.id ≡ false = ground arith in rw (n, u) (pending-pending c m es h)
]

pub length-pending : (c : ℕ) (es : List RawEvent) → length (pending c es) ≤ length es
length-pending c [] = omega arith
length-pending c (e ∷ es) = elim (Bool-cases (ltb c e.id)) [
  | inl t ↦ rw t (omega (arith, length-pending c es))
  | inr n ↦ rw n (omega (arith, length-pending c es))
]
