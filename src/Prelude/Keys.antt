-- ===== src/Prelude/Keys.antt =====
-- Tables with a primary key: no two rows have one key.
pub mod Order
use Prim.Native.Nat.{ℕ}
use Prim.Native.String.{String}
use mathlib.Core.Path.{◌≡◌, refl, ap, ◌∙◌}
use mathlib.Core.Logic.{◌↔◌, ◌⊎◌, inl, inr}
use mathlib.Core.Bool.{Bool, true, false}
use mathlib.Core.Option.{some}
use mathlib.Core.List.{List, [], ◌∷◌}
use text.Mathlib.Text.{◌==◌ as str_eq}
use text.Mathlib.TextEquality.{eq_iff}
use native.Mathlib.Omega.{arith}
use cost_ai_grid_poc.Prelude.Tests.{leb, ◌==◌, if◌then◌else◌, Bool-cases}
use cost_ai_grid_poc.Prelude.Lists.{
  insert_by, order_by, All, where_rows, find_row, any_row, update_rows,
}
use cost_ai_grid_poc.Prelude.Rows.{
  find_row-holds, find_row-any, any_row-update, update_rows-none, All-map,
}

-- The keys of a type can be compared.
pub record KeyEq (K : Type 0) : Type 0 where
  pub beq : K → K → Bool
  pub beq_iff : (k j : K) → (beq k j ≡ true) ↔ (k ≡ j)

instance abbrev pub string_key : KeyEq String
string_key = record { beq = str_eq; beq_iff = eq_iff }

pub nat_key_iff : (k j : ℕ) → (k == j ≡ true) ↔ (k ≡ j)
nat_key_iff k j = ((λ h. ground arith), λ e. ground arith)

instance abbrev pub nat_key : KeyEq ℕ
nat_key = record { beq = ◌==◌; beq_iff = nat_key_iff }

module _ {K : Type 0} ⦃e : KeyEq K⦄ where
  pub beq_refl : (k : K) → e.beq k k ≡ true
  beq_refl k = (e.beq_iff k k).1 refl

  pub distinct_keys : (k j : K) → e.beq k j ≡ false → e.beq j k ≡ false
  distinct_keys k j d = elim (Bool-cases (e.beq j k)) [
    | inl t ↦
        let q : j ≡ k = (e.beq_iff j k).0 t in
        let d' : e.beq k k ≡ false = rw q at d in absurd (cc (d', beq_refl k))
    | inr n ↦ n
  ]

module _ {A K : Type 0} ⦃c : KeyEq K⦄ (key : A → K) where
  abbrev pub has_key : K → A → Bool
  has_key k x = c.beq (key x) k

  abbrev pub IsKeyedBy : List A → Type 0
  IsKeyedBy [] = Unit
  IsKeyedBy (x ∷ xs) = (any_row (has_key (key x)) xs ≡ false) × IsKeyedBy xs

  pub update_rows-IsKeyedBy :
      (q : A → Bool) (f : A → A) (xs : List A)
      → ((x : A) → key (f x) ≡ key x)
      → IsKeyedBy xs
      → IsKeyedBy (update_rows q f xs)
  update_rows-IsKeyedBy q f [] i k = tt
  update_rows-IsKeyedBy q f (x ∷ xs) i k = (
    rw (same_key (Bool-cases (q x)))
        (any_row-update (has_key (key x)) q f xs (λ y. ap (λ j. c.beq j (key x)) (i y)) ∙ k.0),
    update_rows-IsKeyedBy q f xs i k.1,
  )
    where
      same_key : (q x ≡ true) ⊎ (q x ≡ false) → key (if q x then f x else x) ≡ key x
      same_key (inl t) = rw t (i x)
      same_key (inr n) = rw n refl

  any_row-where :
      (p q : A → Bool) (xs : List A) → any_row p xs ≡ false → any_row p (where_rows q xs) ≡ false
  any_row-where p q [] h = refl
  any_row-where p q (x ∷ xs) h = elim (Bool-cases (p x)) [
    | inl t ↦ let e : true ≡ false = rw t at h in absurd (cc e)
    | inr n ↦ elim (Bool-cases (q x)) [
      | inl t ↦ rw t (rw n (any_row-where p q xs (rw n at h)))
      | inr m ↦ rw m (any_row-where p q xs (rw n at h))
    ]
  ]

  pub where_rows-IsKeyedBy :
      (q : A → Bool) (xs : List A) → IsKeyedBy xs → IsKeyedBy (where_rows q xs)
  where_rows-IsKeyedBy q [] k = tt
  where_rows-IsKeyedBy q (x ∷ xs) k = elim (Bool-cases (q x)) [
    | inl t ↦ rw t (any_row-where (has_key (key x)) q xs k.0, where_rows-IsKeyedBy q xs k.1)
    | inr n ↦ rw n (where_rows-IsKeyedBy q xs k.1)
  ]

  pub found_key : (k : K) (xs : List A) {x : A} → find_row (has_key k) xs ≡ some x → key x ≡ k
  found_key k xs h = (c.beq_iff _ _).0 (find_row-holds (has_key k) xs h)

  other_found :
      (x y : A) (xs : List A)
      → any_row (has_key (key x)) xs ≡ false
      → find_row (has_key (key y)) xs ≡ some y
      → find_row (has_key (key y)) (x ∷ xs) ≡ some y
  other_found x y xs none_left h = elim (Bool-cases (has_key (key y) x)) [
    | inl t ↦
        let same : key x ≡ key y = (c.beq_iff _ _).0 t in
        let e : any_row (has_key (key y)) xs ≡ false = rw same at none_left in
        absurd (cc (e, find_row-any (has_key (key y)) xs h))
    | inr n ↦ rw n h
  ]

  -- every row is the one that is found under its key
  pub find_row-own :
      (xs : List A) → IsKeyedBy xs → All (λ x. find_row (has_key (key x)) xs ≡ some x) xs
  find_row-own [] k = tt
  find_row-own (x ∷ xs) k = (
    rw (beq_refl (key x)) refl,
    All-map (λ y. find_row (has_key (key y)) xs ≡ some y)
        (λ y. find_row (has_key (key y)) (x ∷ xs) ≡ some y) xs (λ y h. other_found x y xs k.0 h)
        (find_row-own xs k.1),
  )

  -- An update of the row with a key: what is known of that row, and of all the others.
  pub keyed_update :
      (P Q : A → Type 0) (q : A → Bool) (f : A → A) (k : K) (xs : List A) {w : A}
      → IsKeyedBy xs
      → find_row (has_key k) xs ≡ some w
      → ((x : A) → has_key k x ≡ false → q x ≡ false)
      → (P w → Q (if q w then f w else w))
      → ((x : A) → has_key k x ≡ false → P x → Q x)
      → All P xs
      → All Q (update_rows q f xs)
  keyed_update P Q q f k [] u h i a b p = tt
  keyed_update P Q q f k (x ∷ xs) {w} u h i a b p = elim (Bool-cases (has_key k x)) [
    | inl t ↦
        let e : some x ≡ some w = rw t at h in
        let e' : x ≡ w = cc e in
        let same : key x ≡ k = (c.beq_iff _ _).0 t in
        let left : any_row (has_key k) xs ≡ false = rw same at u.0 in
        (
          rw e' (a (rw e' at p.0)),
          rw (update_rows-none (has_key k) q f xs i left) (others xs left p.1),
        )
    | inr n ↦ (rw (i x n) (b x n p.0), keyed_update P Q q f k xs u.1 (rw n at h) i a b p.1)
  ]
    where
      others : (ys : List A) → any_row (has_key k) ys ≡ false → All P ys → All Q ys
      others [] l p = tt
      others (y ∷ ys) l p = elim (Bool-cases (has_key k y)) [
        | inl t ↦ let e : true ≡ false = rw t at l in absurd (cc e)
        | inr n ↦ (b y n p.0, others ys (rw n at l) p.1)
      ]

  -- a row with another key is found as before
  pub find_row-other :
      (k j : K) (f : A → A) (xs : List A)
      → c.beq k j ≡ false
      → ((x : A) → key (f x) ≡ key x)
      → find_row (has_key k) (update_rows (has_key j) f xs) ≡ find_row (has_key k) xs
  find_row-other k j f [] d i = refl
  find_row-other k j f (x ∷ xs) d i = elim (Bool-cases (has_key j x)) [
    | inl t ↦
        let same : key x ≡ j = (c.beq_iff _ _).0 t in
        let n : c.beq (key x) k ≡ false = rw same (distinct_keys k j d) in
        rw t (rw (ap (λ l. c.beq l k) (i x) ∙ n, n) (find_row-other k j f xs d i))
    | inr n ↦ rw n (elim (Bool-cases (has_key k x)) [
      | inl t ↦ rw t refl
      | inr m ↦ rw m (find_row-other k j f xs d i)
    ])
  ]

  -- the rows of a list with other keys are found as before
  pub rest_found :
      (x : A) (xs rows : List A) (f : A → A)
      → ((y : A) → key (f y) ≡ key y)
      → any_row (has_key (key x)) xs ≡ false
      → All (λ y. find_row (has_key (key y)) rows ≡ some y) xs
      → All (λ y. find_row (has_key (key y)) (update_rows (has_key (key x)) f rows) ≡ some y) xs
  rest_found x [] rows f i k h = tt
  rest_found x (y ∷ ys) rows f i k h = elim (Bool-cases (has_key (key x) y)) [
    | inl t ↦ let e : true ≡ false = rw t at k in absurd (cc e)
    | inr n ↦
        (find_row-other (key y) (key x) f rows n i ∙ h.0, rest_found x ys rows f i (rw n at k) h.1)
  ]
