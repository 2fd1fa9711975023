-- ===== src/Reconciler/Tables.antt =====
-- What the two loops of the reconciliation of a table do to the resources that are alive, for any
-- table on which an upsert makes alive and a mark leaves dead.
use cost_ai_grid_poc.Prelude.{
  ◌≡◌, refl, sym, ap, ◌∙◌, inl, inr, String, Bool, true, false, ◌&&◌, ◌||◌, not, none, List, [],
  ◌∷◌, str_eq, eq_iff, upsert_row, Bool-cases, if◌then◌else◌,
}
use cost_ai_grid_poc.Store.{Store}
use cost_ai_grid_poc.Store.Alive.{alive, alive-upsert}
use cost_ai_grid_poc.Reconciler.{
  MapOrder, osac_set, exists, create_missing, mark_missing, upsert_each, reconcile_table,
}

or_true : (b : Bool) → (b || true) ≡ true
or_true true = refl
or_true false = refl

or_swap : (a b c : Bool) → ((a || b) || c) ≡ (b || (a || c))
or_swap true true c = refl
or_swap true false c = refl
or_swap false b c = refl

-- a key that is tested is tested like the id that it is
tested : (p : String → Bool) (k id : String) → str_eq k id ≡ true → p k ≡ p id
tested p k id t = ap p ((eq_iff k id).0 t)

module _ {A : Type 0} (key : A → String) where
  all_alive : (id : String) (xs : List A) → alive key (λ _. none) id xs ≡ exists key xs id
  all_alive id [] = refl
  all_alive id (x ∷ xs) = elim (Bool-cases (str_eq (key x) id)) [
    | inl t ↦ rw t refl
    | inr n ↦ rw n (all_alive id xs)
  ]

  exists-upsert :
      (id : String) (x : A) (set : List A)
      → exists key (upsert_row (λ y. str_eq (key y) (key x)) (λ _. x) x set) id
        ≡ (str_eq (key x) id || exists key set id)
  exists-upsert id x set =
      sym (all_alive id (upsert_row (λ y. str_eq (key y) (key x)) (λ _. x) x set))
      ∙ alive-upsert key (λ _. none) (key x) id (λ _. x) x set (λ _. refl) (λ _. refl) refl refl
      ∙ ap (λ b. str_eq (key x) id || b) (all_alive id set)

  -- the map has the ids of the list
  pub osac_set-exists :
      (id : String) (set xs : List A)
      → exists key (osac_set key set xs) id ≡ (exists key xs id || exists key set id)
  unfolding osac_set
  osac_set-exists id set [] = refl
  osac_set-exists id set (x ∷ xs) =
      osac_set-exists id (upsert_row (λ y. str_eq (key y) (key x)) (λ _. x) x set) xs
      ∙ ap (λ b. exists key xs id || b) (exists-upsert id x set)
      ∙ sym (or_swap (str_eq (key x) id) (exists key xs id) (exists key set id))

module _ {D A R : Type 0} (key : A → String) (row_key : R → String) (upsert : A → Store D → Store D)
    (mark : String → Store D → Store D) (is_alive : String → Store D → Bool)
    (upsert_alive : (id : String) (x : A) (s : Store D)
      → is_alive id (upsert x s) ≡ (str_eq (key x) id || is_alive id s))
    (mark_alive : (id k : String) (s : Store D)
      → is_alive id (mark k s) ≡ (not (str_eq k id) && is_alive id s)) where
  create-known :
      (known : String → Bool) (id : String) (xs : List A) (s : Store D)
      → known id ≡ true
      → is_alive id (create_missing known key upsert xs s) ≡ is_alive id s
  unfolding create_missing
  create-known known id [] s k = refl
  create-known known id (x ∷ xs) s k = elim (Bool-cases (known (key x))) [
    | inl t ↦ rw t (create-known known id xs s k)
    | inr n ↦ elim (Bool-cases (str_eq (key x) id)) [
      | inl e ↦ absurd (cc (tested known (key x) id e, k, n))
      | inr e ↦ rw n (create-known known id xs (upsert x s) k ∙ upsert_alive id x s ∙ rw e refl)
    ]
  ]

  create-unknown :
      (known : String → Bool) (id : String) (xs : List A) (s : Store D)
      → known id ≡ false
      → is_alive id (create_missing known key upsert xs s) ≡ (exists key xs id || is_alive id s)
  unfolding create_missing
  create-unknown known id [] s k = refl
  create-unknown known id (x ∷ xs) s k = elim (Bool-cases (str_eq (key x) id)) [
    | inl e ↦
        let n : known (key x) ≡ false = tested known (key x) id e ∙ k in
        let u : is_alive id (upsert x s) ≡ true = upsert_alive id x s ∙ rw e refl in
        rw (n, e) (create-unknown known id xs (upsert x s) k ∙ rw u (or_true (exists key xs id)))
    | inr e ↦ elim (Bool-cases (known (key x))) [
      | inl t ↦ rw (t, e) (create-unknown known id xs s k)
      | inr n ↦
          let u : is_alive id (upsert x s) ≡ is_alive id s = upsert_alive id x s ∙ rw e refl in
          rw (n, e) (create-unknown known id xs (upsert x s) k ∙ ap (λ b. exists key xs id || b) u)
    ]
  ]

  mark-listed :
      (in_osac : String → Bool) (id : String) (rs : List R) (s : Store D)
      → in_osac id ≡ true
      → is_alive id (mark_missing in_osac row_key mark rs s) ≡ is_alive id s
  unfolding mark_missing
  mark-listed in_osac id [] s k = refl
  mark-listed in_osac id (r ∷ rs) s k = elim (Bool-cases (in_osac (row_key r))) [
    | inl t ↦ rw t (mark-listed in_osac id rs s k)
    | inr n ↦ elim (Bool-cases (str_eq (row_key r) id)) [
      | inl e ↦ absurd (cc (tested in_osac (row_key r) id e, k, n))
      | inr e ↦ rw n (
          mark-listed in_osac id rs (mark (row_key r) s) k
          ∙ mark_alive id (row_key r) s
          ∙ rw e refl)
    ]
  ]

  and_false : (b : Bool) → (b && false) ≡ false
  and_false true = refl
  and_false false = refl

  mark-unlisted :
      (in_osac : String → Bool) (id : String) (rs : List R) (s : Store D)
      → in_osac id ≡ false
      → is_alive id (mark_missing in_osac row_key mark rs s)
        ≡ (not (exists row_key rs id) && is_alive id s)
  unfolding mark_missing
  mark-unlisted in_osac id [] s k = refl
  mark-unlisted in_osac id (r ∷ rs) s k = elim (Bool-cases (str_eq (row_key r) id)) [
    | inl e ↦
        let n : in_osac (row_key r) ≡ false = tested in_osac (row_key r) id e ∙ k in
        let u : is_alive id (mark (row_key r) s) ≡ false =
          mark_alive id (row_key r) s ∙ rw e refl in
        rw (n, e)
          (mark-unlisted in_osac id rs (mark (row_key r) s) k
            ∙ rw u (and_false (not (exists row_key rs id))))
    | inr e ↦ elim (Bool-cases (in_osac (row_key r))) [
      | inl t ↦ rw (t, e) (mark-unlisted in_osac id rs s k)
      | inr n ↦
          let u : is_alive id (mark (row_key r) s) ≡ is_alive id s =
            mark_alive id (row_key r) s ∙ rw e refl in
          rw (n, e)
            (mark-unlisted in_osac id rs (mark (row_key r) s) k
              ∙ ap (λ b. not (exists row_key rs id) && b) u)
    ]
  ]

  -- After the two loops the resources that are alive are those that are listed.
  pub reconcile_table-alive :
      (order : MapOrder) (items : List A) (known : List R) (s : Store D) (id : String)
      → exists row_key known id ≡ is_alive id s
      → is_alive id (reconcile_table order key row_key upsert mark items known s)
        ≡ exists key items id
  unfolding reconcile_table
  reconcile_table-alive order items known s id k =
      let set = osac_set key [] items in
      let has = exists row_key known in
      let visited = order.range A set in
      let created = create_missing has key upsert visited s in
      let listed : exists key set id ≡ exists key items id =
        osac_set-exists key id [] items ∙ or_none (exists key items id) in
      let seen : exists key visited id ≡ exists key set id =
        order.any-range A (λ x. str_eq (key x) id) set in
      elim (Bool-cases (has id)) [
        | inl t ↦
            let c : is_alive id created ≡ true = create-known has id visited s t ∙ sym k ∙ t in
            elim (Bool-cases (exists key set id)) [
              | inl e ↦ mark-listed (exists key set) id known created e ∙ c ∙ sym e ∙ listed
              | inr e ↦
                  mark-unlisted (exists key set) id known created e ∙ rw t refl ∙ sym e ∙ listed
            ]
        | inr n ↦
            let c : is_alive id created ≡ exists key set id =
              create-unknown has id visited s n
              ∙ rw (sym k ∙ n) (or_none (exists key visited id))
              ∙ seen in
            elim (Bool-cases (exists key set id)) [
              | inl e ↦ mark-listed (exists key set) id known created e ∙ c ∙ listed
              | inr e ↦ mark-unlisted (exists key set) id known created e ∙ rw n c ∙ listed
            ]
      ]
    where
      or_none : (b : Bool) → (b || false) ≡ b
      or_none true = refl
      or_none false = refl

-- The loops leave alone what their steps leave alone.
module _ {D : Type 0} {X : Type 0} (view : Store D → X) where
  pub upsert_each-keeps :
      {A : Type 0} (upsert : A → Store D → Store D) (xs : List A) (s : Store D)
      → ((x : A) (s : Store D) → view (upsert x s) ≡ view s)
      → view (upsert_each upsert xs s) ≡ view s
  unfolding upsert_each
  upsert_each-keeps upsert [] s k = refl
  upsert_each-keeps upsert (x ∷ xs) s k = upsert_each-keeps upsert xs (upsert x s) k ∙ k x s

  if-keeps : (b : Bool) (s t : Store D) → view t ≡ view s → view (if b then s else t) ≡ view s
  if-keeps true s t k = refl
  if-keeps false s t k = k

  create-keeps :
      {A : Type 0} (known : String → Bool) (key : A → String) (upsert : A → Store D → Store D)
      (xs : List A) (s : Store D)
      → ((x : A) (s : Store D) → view (upsert x s) ≡ view s)
      → view (create_missing known key upsert xs s) ≡ view s
  unfolding create_missing
  create-keeps known key upsert [] s k = refl
  create-keeps known key upsert (x ∷ xs) s k =
      create-keeps known key upsert xs (if known (key x) then s else upsert x s) k
      ∙ if-keeps (known (key x)) s (upsert x s) (k x s)

  mark-keeps :
      {R : Type 0} (in_osac : String → Bool) (key : R → String) (mark : String → Store D → Store D)
      (rs : List R) (s : Store D)
      → ((id : String) (s : Store D) → view (mark id s) ≡ view s)
      → view (mark_missing in_osac key mark rs s) ≡ view s
  unfolding mark_missing
  mark-keeps in_osac key mark [] s k = refl
  mark-keeps in_osac key mark (r ∷ rs) s k =
      mark-keeps in_osac key mark rs (if in_osac (key r) then s else mark (key r) s) k
      ∙ if-keeps (in_osac (key r)) s (mark (key r) s) (k (key r) s)

  pub reconcile_table-keeps :
      {A R : Type 0} (order : MapOrder) (key : A → String) (row_key : R → String)
      (upsert : A → Store D → Store D) (mark : String → Store D → Store D) (items : List A)
      (known : List R) (s : Store D)
      → ((x : A) (s : Store D) → view (upsert x s) ≡ view s)
      → ((id : String) (s : Store D) → view (mark id s) ≡ view s)
      → view (reconcile_table order key row_key upsert mark items known s) ≡ view s
  unfolding reconcile_table
  reconcile_table-keeps order key row_key upsert mark items known s u m =
      mark-keeps _ row_key mark known _ m ∙ create-keeps _ key upsert _ s u
