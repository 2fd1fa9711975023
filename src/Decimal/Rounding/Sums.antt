-- ===== src/Decimal/Rounding/Sums.antt =====
-- Rounding next to a stored value, and of a negated one.
use native.Mathlib.Nat.{add-mul-div_right}
use cost_ai_grid_poc.Prelude.{ℕ, ◌+◌, ◌*◌, ◌/◌, ◌≤◌, ◌≡◌, ap, ◌∙◌, arith}
use cost_ai_grid_poc.Prelude.Int.{ℤ, pos, pos_part, neg_part, ◌+ℤ◌, ◌-ℤ◌, ◌≤ℤ◌, int_laws}
use cost_ai_grid_poc.Decimal.{round_to}
use cost_ai_grid_poc.Decimal.Rounding.{IsStored, nearest, round_parts, stored_multiple}

nearest-add : (u k d : ℕ) → 1 ≤ u → nearest u (k * u + d) ≡ nearest u d + k
unfolding nearest
nearest-add u k d p =
    ap (λ (n : ℕ). n / u) (omega arith) ∙ add-mul-div_right (d + u / 2) k (omega arith)

-- the units of a stored value stay apart
part_add : (u n d : ℕ) → 1 ≤ u → n ≡ nearest u n * u → nearest u (n + d) * u ≡ n + nearest u d * u
part_add u n d p e =
    ap (λ (k : ℕ). nearest u (k + d) * u) e
    ∙ ap (λ (k : ℕ). k * u) (nearest-add u (nearest u n) d p)
    ∙ omega (arith, e)

sum_parts :
    (a d : ℤ)
    → pos 0 ≤ℤ a
    → pos 0 ≤ℤ d
    → (pos_part (a +ℤ d) ≡ pos_part a + pos_part d) × (neg_part (a +ℤ d) ≡ neg_part d)
unfolding ◌+ℤ◌
sum_parts a d g h = ground arith

-- Of a sum with a stored value, neither negative, the other part is rounded.
pub round_to-sum :
    (u : ℕ) (a d : ℤ)
    → 1 ≤ u
    → IsStored u a
    → pos 0 ≤ℤ a
    → pos 0 ≤ℤ d
    → round_to u (a +ℤ d) ≡ a +ℤ round_to u d
round_to-sum u a d p s g h =
    let (v, w) = sum_parts a d g h in
    let (x, _) = stored_multiple u a p s in
    let (b, c) = round_parts u (a +ℤ d) p in
    let (i, j) = round_parts u d p in
    let b' = b ∙ ap (λ (k : ℕ). nearest u k * u) v ∙ part_add u (pos_part a) (pos_part d) p x in
    let c' = c ∙ ap (λ (k : ℕ). nearest u k * u) w in omega (int_laws, b', c', i, j, g)

negated_parts :
    (d : ℤ) → (pos_part (pos 0 -ℤ d) ≡ neg_part d) × (neg_part (pos 0 -ℤ d) ≡ pos_part d)
unfolding ◌-ℤ◌
negated_parts d = ground arith

-- Rounding is symmetric.
pub round_to-neg : (u : ℕ) (d : ℤ) → 1 ≤ u → round_to u (pos 0 -ℤ d) ≡ pos 0 -ℤ round_to u d
round_to-neg u d p =
    let (v, w) = negated_parts d in
    let (b, c) = round_parts u (pos 0 -ℤ d) p in
    let (i, j) = round_parts u d p in
    let b' = b ∙ ap (λ (k : ℕ). nearest u k * u) v in
    let c' = c ∙ ap (λ (k : ℕ). nearest u k * u) w in omega (int_laws, b', c', i, j)
