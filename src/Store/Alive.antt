-- ===== src/Store/Alive.antt =====
-- The resources of an inventory table that are alive: which row is not deleted, after an upsert
-- and after a row is marked as deleted.
use cost_ai_grid_poc.Prelude.{
  ℕ, ◌≡◌, refl, sym, ap, ◌∙◌, inl, inr, String, Bool, true, false, ◌&&◌, ◌||◌, not, Option, none,
  List, [], ◌∷◌, ◌++◌, str_eq, eq_iff, any_row, update_rows, upsert_row, where_rows, Bool-cases,
}
use cost_ai_grid_poc.Models.{ComputeInstanceRecord, ClusterRecord, BareMetalInstanceRecord}
use cost_ai_grid_poc.Store.Tables.{Store}
use cost_ai_grid_poc.Store.Inventory.{is_null}

and_false : (b : Bool) → (b && false) ≡ false
and_false true = refl
and_false false = refl

and_true : (b : Bool) → (b && true) ≡ b
and_true true = refl
and_true false = refl

or_true : (b : Bool) → (b || true) ≡ true
or_true true = refl
or_true false = refl

or_false : (b : Bool) → (b || false) ≡ b
or_false true = refl
or_false false = refl

-- keys that are one have one answer
same_key : (a k id : String) → str_eq a k ≡ true → str_eq a id ≡ str_eq k id
same_key a k id t = ap (λ x. str_eq x id) ((eq_iff a k).0 t)

other_key : (a k id : String) → str_eq k id ≡ true → str_eq a k ≡ false → str_eq a id ≡ false
other_key a k id t n = sym (ap (λ x. str_eq a x) ((eq_iff k id).0 t)) ∙ n

module _ {R : Type 0} (key : R → String) (dead : R → Option ℕ) where
  abbrev pub is_alive : String → R → Bool
  is_alive id r = str_eq (key r) id && is_null (dead r)

  -- the resource has a row that is not deleted
  abbrev pub alive : String → List R → Bool
  alive id rows = any_row (is_alive id) rows

  module _ (k id : String) (f : R → R) where
    alive_written :
        (rows : List R)
        → ((r : R) → key (f r) ≡ k)
        → ((r : R) → dead (f r) ≡ none)
        → str_eq k id ≡ true
        → any_row (λ r. str_eq (key r) k) rows ≡ true
        → alive id (update_rows (λ r. str_eq (key r) k) f rows) ≡ true
    alive_written [] hk hd t a = absurd (cc a)
    alive_written (r ∷ rows) hk hd t a = elim (Bool-cases (str_eq (key r) k)) [
      | inl u ↦ rw (u, hk r, hd r, t) refl
      | inr n ↦
          let b : any_row (λ r. str_eq (key r) k) rows ≡ true = rw n at a in
          rw (n, alive_written rows hk hd t b) (or_true (is_alive id r))
    ]

    alive_beside :
        (rows : List R)
        → ((r : R) → key (f r) ≡ k)
        → str_eq k id ≡ false
        → alive id (update_rows (λ r. str_eq (key r) k) f rows) ≡ alive id rows
    alive_beside [] hk n = refl
    alive_beside (r ∷ rows) hk n = elim (Bool-cases (str_eq (key r) k)) [
      | inl u ↦ rw (u, hk r, same_key (key r) k id u, n) (alive_beside rows hk n)
      | inr m ↦ rw m (ap (λ b. is_alive id r || b) (alive_beside rows hk n))
    ]

    alive_last :
        (new : R) (rows : List R) → alive id (rows ++ new ∷ []) ≡ alive id rows || is_alive id new
    alive_last new [] = or_false (is_alive id new)
    alive_last new (r ∷ rows) = elim (Bool-cases (is_alive id r)) [
      | inl t ↦ rw t refl
      | inr n ↦ rw n (alive_last new rows)
    ]

    -- An upsert of a row that is not deleted makes its resource alive, and no other.
    pub alive-upsert :
        (new : R) (rows : List R)
        → ((r : R) → key (f r) ≡ k)
        → ((r : R) → dead (f r) ≡ none)
        → key new ≡ k
        → dead new ≡ none
        → alive id (upsert_row (λ r. str_eq (key r) k) f new rows) ≡ (str_eq k id || alive id rows)
    alive-upsert new rows hk hd nk nd = elim (Bool-cases (any_row (λ r. str_eq (key r) k) rows)) [
      | inl a ↦ elim (Bool-cases (str_eq k id)) [
        | inl t ↦ rw (a, t) (alive_written rows hk hd t a)
        | inr n ↦ rw (a, n) (alive_beside rows hk n)
      ]
      | inr a ↦ elim (Bool-cases (str_eq k id)) [
        | inl t ↦ rw (a, t) (alive_last new rows ∙ rw (nk, nd, t) (or_true (alive id rows)))
        | inr n ↦ rw (a, n) (alive_last new rows ∙ rw (nk, nd, n) (or_false (alive id rows)))
      ]
    ]

    marked_dead :
        (rows : List R)
        → ((r : R) → is_null (dead (f r)) ≡ false)
        → str_eq k id ≡ true
        → alive id (update_rows (λ r. str_eq (key r) k && is_null (dead r)) f rows) ≡ false
    marked_dead [] hd t = refl
    marked_dead (r ∷ rows) hd t =
        let rest = marked_dead rows hd t in
        elim (Bool-cases (str_eq (key r) k)) [
          | inl u ↦ elim (Bool-cases (is_null (dead r))) [
            | inl v ↦
                rw (u, v, hd r, rest)
                  (or_false (str_eq (key (f r)) id && false) ∙ and_false (str_eq (key (f r)) id))
            | inr v ↦
                rw (u, v, v, rest)
                  (or_false (str_eq (key r) id && false) ∙ and_false (str_eq (key r) id))
          ]
          | inr n ↦ rw (n, other_key (key r) k id t n, rest) refl
        ]

    marked_beside :
        (rows : List R)
        → ((r : R) → key (f r) ≡ key r)
        → str_eq k id ≡ false
        → alive id (update_rows (λ r. str_eq (key r) k && is_null (dead r)) f rows) ≡ alive id rows
    marked_beside [] hk n = refl
    marked_beside (r ∷ rows) hk n =
        let rest = marked_beside rows hk n in
        elim (Bool-cases (str_eq (key r) k)) [
          | inl u ↦
              let d = same_key (key r) k id u ∙ n in
              elim (Bool-cases (is_null (dead r))) [
                | inl v ↦ rw (u, v, hk r, d) rest
                | inr v ↦ rw (u, v, d) rest
              ]
          | inr m ↦ rw m (ap (λ b. is_alive id r || b) rest)
        ]

    -- Marking a resource as deleted leaves it dead, and the others as they are.
    pub alive-mark :
        (rows : List R)
        → ((r : R) → key (f r) ≡ key r)
        → ((r : R) → is_null (dead (f r)) ≡ false)
        → alive id (update_rows (λ r. str_eq (key r) k && is_null (dead r)) f rows)
          ≡ (not (str_eq k id) && alive id rows)
    alive-mark rows hk hd = elim (Bool-cases (str_eq k id)) [
      | inl t ↦ rw t (marked_dead rows hd t)
      | inr n ↦ rw n (marked_beside rows hk n)
    ]

  -- a resource has a row among those that are not deleted
  pub alive-where :
      (id : String) (rows : List R)
      → any_row (λ r. str_eq (key r) id) (where_rows (λ r. is_null (dead r)) rows) ≡ alive id rows
  alive-where id [] = refl
  alive-where id (r ∷ rows) = elim (Bool-cases (is_null (dead r))) [
    | inl t ↦
        rw (t, and_true (str_eq (key r) id))
          (ap (λ b. str_eq (key r) id || b) (alive-where id rows))
    | inr n ↦ rw (n, and_false (str_eq (key r) id)) (alive-where id rows)
  ]

module _ {D : Type 0} where
  abbrev pub instance_alive : String → Store D → Bool
  instance_alive id s =
      alive (λ (r : ComputeInstanceRecord). r.instance_id) (λ r. r.deleted_at) id
        s.compute_instances

  abbrev pub cluster_alive : String → Store D → Bool
  cluster_alive id s = alive (λ (r : ClusterRecord). r.cluster_id) (λ r. r.deleted_at) id s.clusters

  abbrev pub bare_metal_alive : String → Store D → Bool
  bare_metal_alive id s =
      alive (λ (r : BareMetalInstanceRecord). r.instance_id) (λ r. r.deleted_at) id
        s.bare_metal_instances
