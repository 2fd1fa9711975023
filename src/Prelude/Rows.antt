-- ===== src/Prelude/Rows.antt =====
-- What the operations on the rows of a table keep.
use mathlib.Core.Path.{◌≡◌, refl, ap, ◌∙◌}
use mathlib.Core.Logic.{inl, inr}
use mathlib.Core.Bool.{Bool, true, false, ◌||◌}
use mathlib.Core.Option.{none, some}
use mathlib.Core.List.{List, [], ◌∷◌, ◌++◌}
use cost_ai_grid_poc.Prelude.Tests.{Bool-cases}
use cost_ai_grid_poc.Prelude.Lists.{All, where_rows, find_row, any_row, update_rows}

module _ {A : Type 0} where
  pub find_row-holds : (p : A → Bool) (xs : List A) {x : A} → find_row p xs ≡ some x → p x ≡ true
  find_row-holds p [] h = absurd (cc h)
  find_row-holds p (y ∷ ys) {x} h = elim (Bool-cases (p y)) [
    | inl t ↦ let e : some y ≡ some x = rw t at h in cc (e, t)
    | inr f ↦ find_row-holds p ys (rw f at h)
  ]

  pub find_row-All :
      (Q : A → Type 0) (p : A → Bool) (xs : List A) {x : A}
      → All Q xs
      → find_row p xs ≡ some x
      → Q x
  find_row-All Q p [] q h = absurd (cc h)
  find_row-All Q p (y ∷ ys) {x} q h = elim (Bool-cases (p y)) [
    | inl t ↦ let e : some y ≡ some x = rw t at h in let e' : x ≡ y = cc e in rw e' q.0
    | inr f ↦ find_row-All Q p ys q.1 (rw f at h)
  ]

  -- no row is updated where none is found
  pub update_rows-none :
      (p q : A → Bool) (f : A → A) (xs : List A)
      → ((x : A) → p x ≡ false → q x ≡ false)
      → any_row p xs ≡ false
      → update_rows q f xs ≡ xs
  update_rows-none p q f [] i h = refl
  update_rows-none p q f (x ∷ xs) i h = elim (Bool-cases (p x)) [
    | inl t ↦ let e : true ≡ false = rw t at h in absurd (cc e)
    | inr n ↦ rw (i x n) (ap (λ ys. x ∷ ys) (update_rows-none p q f xs i (rw n at h)))
  ]

  pub update_rows-All :
      (Q : A → Type 0) (p : A → Bool) (f : A → A) (xs : List A)
      → ((x : A) → p x ≡ true → Q x → Q (f x))
      → All Q xs
      → All Q (update_rows p f xs)
  update_rows-All Q p f [] i h = h
  update_rows-All Q p f (x ∷ xs) i h = (
    elim (Bool-cases (p x)) [ inl t ↦ rw t (i x t h.0) | inr n ↦ rw n h.0 ],
    update_rows-All Q p f xs i h.1,
  )

  -- a test that an update does not touch finds as much after it
  pub any_row-update :
      (p q : A → Bool) (f : A → A) (xs : List A)
      → ((x : A) → p (f x) ≡ p x)
      → any_row p (update_rows q f xs) ≡ any_row p xs
  any_row-update p q f [] i = refl
  any_row-update p q f (x ∷ xs) i = rw (any_row-update p q f xs i) (
      ap (λ b. b || any_row p xs)
        (elim (Bool-cases (q x)) [ inl t ↦ rw t (i x) | inr n ↦ rw n refl ]))

  pub find_row-any :
      (p : A → Bool) (xs : List A) {x : A} → find_row p xs ≡ some x → any_row p xs ≡ true
  find_row-any p [] h = absurd (cc h)
  find_row-any p (y ∷ ys) h = elim (Bool-cases (p y)) [
    | inl t ↦ rw t refl
    | inr n ↦ rw n (find_row-any p ys (rw n at h))
  ]

  pub All-map : (P Q : A → Type 0) (xs : List A) → ((x : A) → P x → Q x) → All P xs → All Q xs
  All-map P Q [] i h = tt
  All-map P Q (x ∷ xs) i h = (i x h.0, All-map P Q xs i h.1)

  pub where_rows-All :
      (P : A → Type 0) (p : A → Bool) (xs : List A) → All P xs → All P (where_rows p xs)
  where_rows-All P p [] h = tt
  where_rows-All P p (x ∷ xs) h = elim (Bool-cases (p x)) [
    | inl t ↦ rw t (h.0, where_rows-All P p xs h.1)
    | inr n ↦ rw n (where_rows-All P p xs h.1)
  ]

  -- an update of the rows that a test finds, which it still finds after it
  pub find_row-update :
      (p : A → Bool) (f : A → A) (xs : List A) {x : A}
      → ((y : A) → p (f y) ≡ p y)
      → find_row p xs ≡ some x
      → find_row p (update_rows p f xs) ≡ some (f x)
  find_row-update p f [] i h = absurd (cc h)
  find_row-update p f (y ∷ ys) {x} i h = elim (Bool-cases (p y)) [
    | inl t ↦
        let e : some y ≡ some x = rw t at h in
        let e' : y ≡ x = cc e in rw t (rw (i y ∙ t) (ap (λ z. some (f z)) e'))
    | inr n ↦ rw n (rw n (find_row-update p f ys i (rw n at h)))
  ]

  -- an update that makes the rows satisfy the test
  pub find_row-set :
      (p : A → Bool) (f : A → A) (xs : List A) {x : A}
      → ((y : A) → p (f y) ≡ true)
      → find_row p xs ≡ some x
      → find_row p (update_rows p f xs) ≡ some (f x)
  find_row-set p f [] i h = absurd (cc h)
  find_row-set p f (y ∷ ys) {x} i h = elim (Bool-cases (p y)) [
    | inl t ↦
        let e : some y ≡ some x = rw t at h in
        let e' : y ≡ x = cc e in rw t (rw (i y) (ap (λ z. some (f z)) e'))
    | inr n ↦ rw n (rw n (find_row-set p f ys i (rw n at h)))
  ]

  pub find_row-none : (p : A → Bool) (xs : List A) → find_row p xs ≡ none → any_row p xs ≡ false
  find_row-none p [] h = refl
  find_row-none p (y ∷ ys) h = elim (Bool-cases (p y)) [
    | inl a ↦ let e : some y ≡ none = rw a at h in absurd (cc e)
    | inr n ↦ rw n (find_row-none p ys (rw n at h))
  ]

  pub any_row-skip :
      (p : A → Bool) (xs : List A) (x : A)
      → any_row p xs ≡ false
      → p x ≡ false
      → any_row p (xs ++ x ∷ []) ≡ false
  any_row-skip p [] x h n = rw n refl
  any_row-skip p (y ∷ ys) x h n = elim (Bool-cases (p y)) [
    | inl t ↦ let e : true ≡ false = rw t at h in absurd (cc e)
    | inr m ↦ rw m (any_row-skip p ys x (rw m at h) n)
  ]

  pub any_row-last :
      (p : A → Bool) (xs : List A) (x : A) → p x ≡ true → any_row p (xs ++ x ∷ []) ≡ true
  any_row-last p [] x h = rw h refl
  any_row-last p (y ∷ ys) x h = elim (Bool-cases (p y)) [
    | inl t ↦ rw t refl
    | inr n ↦ rw n (any_row-last p ys x h)
  ]

  pub find_row-last :
      (p : A → Bool) (xs : List A) (x : A)
      → find_row p xs ≡ none
      → p x ≡ true
      → find_row p (xs ++ x ∷ []) ≡ some x
  find_row-last p [] x h t = rw t refl
  find_row-last p (y ∷ ys) x h t = elim (Bool-cases (p y)) [
    | inl a ↦ let e : some y ≡ none = rw a at h in absurd (cc e)
    | inr n ↦ rw n (find_row-last p ys x (rw n at h) t)
  ]

  pub find_row-append :
      (p : A → Bool) (xs ys : List A) {x : A}
      → find_row p xs ≡ some x
      → find_row p (xs ++ ys) ≡ some x
  find_row-append p [] ys h = absurd (cc h)
  find_row-append p (z ∷ zs) ys {x} h = elim (Bool-cases (p z)) [
    | inl t ↦ let e : some z ≡ some x = rw t at h in rw t e
    | inr n ↦ rw n (find_row-append p zs ys (rw n at h))
  ]

  pub any_row-append :
      (p : A → Bool) (xs ys : List A) → any_row p xs ≡ true → any_row p (xs ++ ys) ≡ true
  any_row-append p [] ys h = absurd (cc h)
  any_row-append p (x ∷ xs) ys h = elim (Bool-cases (p x)) [
    | inl t ↦ rw t refl
    | inr n ↦ rw n (any_row-append p xs ys (rw n at h))
  ]
