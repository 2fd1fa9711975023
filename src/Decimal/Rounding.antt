-- ===== src/Decimal/Rounding.antt =====
-- What rounding to the scale of a column keeps: the order, stored values, and what lies within
-- less than half a unit of a stored value.
pub mod Sums
use native.Mathlib.Nat.{div-eq_of_lt-le, div-mul-le_self, le-div_iff_mul-le, mul-le-mul_right}
use native.Mathlib.Decide.{dec_le}
use cost_ai_grid_poc.Prelude.{
  ℕ, zero, suc, ◌+◌, ◌-◌, ◌*◌, ◌/◌, ◌≤◌, ◌<◌, ◌≡◌, refl, sym, ap, ◌∙◌, arith,
}
use cost_ai_grid_poc.Prelude.Int.{
  ℤ, pos, negsuc, pos_part, neg_part, sub_ℕ, ◌+ℤ◌, ◌-ℤ◌, ◌≤ℤ◌, eq_of_parts,
}
use cost_ai_grid_poc.Decimal.{round_to}

-- the number of units nearest to `n`
unfoldable pub nearest : ℕ → ℕ → ℕ
nearest u n = (n + u / 2) / u

nearest_add : (u k d : ℕ) → d + d < u → nearest u (k * u + d) ≡ k
unfolding nearest
nearest_add u k d h = div-eq_of_lt-le u (omega arith) (omega arith)

nearest_sub : (u k d : ℕ) → d + d < u → d ≤ k * u → nearest u (k * u - d) ≡ k
unfolding nearest
nearest_sub u k d h l = div-eq_of_lt-le u (omega arith) (omega arith)

nearest_mono : (u m n : ℕ) → 1 ≤ u → m ≤ n → nearest u m ≤ nearest u n
unfolding nearest
nearest_mono u m n p h = (le-div_iff_mul-le p).1 (omega (arith, div-mul-le_self (m + u / 2) u))

scaled_mono : (u m n : ℕ) → 1 ≤ u → m ≤ n → nearest u m * u ≤ nearest u n * u
scaled_mono u m n p h = mul-le-mul_right u (nearest_mono u m n p h)

nearest_zero : (u : ℕ) → 1 ≤ u → nearest u 0 ≡ 0
unfolding nearest
nearest_zero u p = div-eq_of_lt-le u (omega arith) (omega arith)

negated : (n : ℕ) → (pos_part (sub_ℕ 0 n) ≡ 0) × (neg_part (sub_ℕ 0 n) ≡ n)
negated n = ground arith

-- rounding the two parts of a number apart
pub round_parts :
    (u : ℕ) (a : ℤ)
    → 1 ≤ u
    → (pos_part (round_to u a) ≡ nearest u (pos_part a) * u)
      × (neg_part (round_to u a) ≡ nearest u (neg_part a) * u)
round_parts u (pos n) p = rw (nearest_zero u p) (unfold round_to nearest in (refl, omega arith))
round_parts u (negsuc n) p =
    let (z, e) = negated (nearest u (suc n) * u) in
    rw (nearest_zero u p) (unfold round_to nearest in (omega (arith, z), e))

parts_mono : (a b : ℤ) → a ≤ℤ b → (pos_part a ≤ pos_part b) × (neg_part b ≤ neg_part a)
parts_mono a b h = ground arith

-- Rounding keeps the order.
pub round_to_mono : (u : ℕ) (a b : ℤ) → 1 ≤ u → a ≤ℤ b → round_to u a ≤ℤ round_to u b
round_to_mono u a b p h =
    let (l, m) = parts_mono a b h in
    omega (
      arith,
      round_parts u a p,
      round_parts u b p,
      scaled_mono u (pos_part a) (pos_part b) p l,
      scaled_mono u (neg_part b) (neg_part a) p m,
    )

-- A column holds the number as it is.
abbrev pub IsStored : ℕ → ℤ → Type 0
IsStored u a = round_to u a ≡ a

pub stored_multiple :
    (u : ℕ) (a : ℤ)
    → 1 ≤ u
    → IsStored u a
    → (pos_part a ≡ nearest u (pos_part a) * u) × (neg_part a ≡ nearest u (neg_part a) * u)
stored_multiple u a p h =
    let (x, y) = round_parts u a p in (ap pos_part (sym h) ∙ x, ap neg_part (sym h) ∙ y)

nearest_part_add : (u n d : ℕ) → n ≡ nearest u n * u → d + d < u → nearest u (n + d) * u ≡ n
nearest_part_add u n d e h =
    ap (λ (k : ℕ). nearest u (k + d) * u) e
    ∙ ap (λ (k : ℕ). k * u) (nearest_add u (nearest u n) d h)
    ∙ sym e

small_multiple : (k u n : ℕ) → n ≡ k * u → n < u → n ≡ 0
small_multiple zero u n e h = omega arith
small_multiple (suc k) u n e h = absurd (omega arith)

nearest_part_sub : (u n d : ℕ) → 1 ≤ u → n ≡ nearest u n * u → d + d < u → nearest u (n - d) * u ≡ n
nearest_part_sub u n d p e h = elim (dec_le d n) [
  | yes l ↦
      ap (λ (k : ℕ). nearest u (k - d) * u) e
      ∙ ap (λ (k : ℕ). k * u) (nearest_sub u (nearest u n) d h (omega arith))
      ∙ sym e
  | no g ↦
      let z = small_multiple (nearest u n) u n e (omega arith) in
      ap (λ (k : ℕ). nearest u k * u) (omega arith)
      ∙ ap (λ (k : ℕ). k * u) (nearest_zero u p)
      ∙ omega (arith, z)
]

small_nearest : (u d : ℕ) → d + d < u → nearest u d * u ≡ 0
unfolding nearest
small_nearest u d h =
    let z : (d + u / 2) / u ≡ 0 = div-eq_of_lt-le u (omega arith) (omega arith) in
    ap (λ (k : ℕ). k * u) z ∙ omega arith

-- A number whose parts are rounded to those of `a` is rounded to `a`.
rounded_parts :
    (u : ℕ) (b a : ℤ)
    → 1 ≤ u
    → nearest u (pos_part b) * u ≡ pos_part a
    → nearest u (neg_part b) * u ≡ neg_part a
    → round_to u b ≡ a
rounded_parts u b a p x y =
    let (v, w) = round_parts u b p in eq_of_parts (round_to u b) a (omega (arith, v, w, x, y))

sub_parts :
    (a : ℤ) (d : ℕ)
    → (pos_part (a -ℤ pos d) ≡ pos_part a - d)
      × (neg_part (a -ℤ pos d) ≡ neg_part a + (d - pos_part a))
unfolding ◌-ℤ◌
sub_parts a d = ground arith

add_parts :
    (a : ℤ) (d : ℕ)
    → (pos_part (a +ℤ pos d) ≡ pos_part a + (d - neg_part a))
      × (neg_part (a +ℤ pos d) ≡ neg_part a - d)
unfolding ◌+ℤ◌
add_parts a d = ground arith

nearest_multiple : (u k : ℕ) → 1 ≤ u → nearest u (k * u) * u ≡ k * u
nearest_multiple u k p =
    ap (λ (n : ℕ). nearest u n * u) (omega arith)
    ∙ ap (λ (n : ℕ). n * u) (nearest_add u k 0 (omega arith))

-- What a column holds is rounded to itself.
pub round_to-IsStored : (u : ℕ) (a : ℤ) → 1 ≤ u → IsStored u (round_to u a)
round_to-IsStored u a p =
    let (x, y) = round_parts u a p in
    rounded_parts u (round_to u a) (round_to u a) p
      (ap (λ (n : ℕ). nearest u n * u) x ∙ nearest_multiple u (nearest u (pos_part a)) p ∙ sym x)
      (ap (λ (n : ℕ). nearest u n * u) y ∙ nearest_multiple u (nearest u (neg_part a)) p ∙ sym y)

-- Less than half a unit more or less than a stored value is rounded back to it.
pub round_to-sub :
    (u d : ℕ) (a : ℤ) → 1 ≤ u → IsStored u a → d + d < u → round_to u (a -ℤ pos d) ≡ a
round_to-sub u d a p h l =
    let (x, y) = stored_multiple u a p h in
    let (v, w) = sub_parts a d in
    rounded_parts u (a -ℤ pos d) a p
      (ap (λ (k : ℕ). nearest u k * u) v ∙ nearest_part_sub u (pos_part a) d p x l)
      (ap (λ (k : ℕ). nearest u k * u) w
        ∙ nearest_part_add u (neg_part a) (d - pos_part a) y (omega arith))

pub round_to-add :
    (u d : ℕ) (a : ℤ) → 1 ≤ u → IsStored u a → d + d < u → round_to u (a +ℤ pos d) ≡ a
round_to-add u d a p h l =
    let (x, y) = stored_multiple u a p h in
    let (v, w) = add_parts a d in
    rounded_parts u (a +ℤ pos d) a p
      (ap (λ (k : ℕ). nearest u k * u) v
        ∙ nearest_part_add u (pos_part a) (d - neg_part a) x (omega arith))
      (ap (λ (k : ℕ). nearest u k * u) w ∙ nearest_part_sub u (neg_part a) d p y l)

pub round_to-zero : (u : ℕ) → 1 ≤ u → round_to u (pos 0) ≡ pos 0
round_to-zero u p = rounded_parts u (pos 0) (pos 0) p none_of none_of
  where
    none_of : nearest u 0 * u ≡ 0
    none_of = ap (λ (k : ℕ). k * u) (nearest_zero u p) ∙ omega arith
