-- ===== src/Decimal.antt =====
-- The package github.com/shopspring/decimal, which is not part of the repository: the operations
-- that the program calls on a type `D` of decimals, and what their documentation says of them.
-- Addition, subtraction, negation and comparison are exact, so the decimals in play can be counted
-- in one finest power of ten; a product with a converted float64 is linear in the float.
pub mod Rounding
use cost_ai_grid_poc.Prelude.{ℕ, suc, ◌+◌, ◌*◌, ◌/◌, ◌≤◌, ◌≡◌, refl, sym, Bool, ◌==◌, arith}
use cost_ai_grid_poc.Prelude.Int.{
  ℤ, pos, negsuc, sub_ℕ, pos_part, neg_part, ◌+ℤ◌, ◌-ℤ◌, ◌*ℤ◌, ◌≤ℤ◌, ltb_ℤ, leb_ℤ, *ℤ_distrib,
  *ℤ_nonneg,
}

abbrev pub is_zero_ℤ : ℤ → Bool
is_zero_ℤ a = pos_part a + neg_part a == 0

pub record Decimals (D : Type 0) : Type 0 where
  pub zero : D
  pub add : D → D → D
  pub sub : D → D → D
  pub mul : D → D → D
  pub neg : D → D
  pub is_zero : D → Bool
  pub is_negative : D → Bool
  pub is_positive : D → Bool
  pub greater_than : D → D → Bool
  pub less_than : D → D → Bool
  pub less_than_or_equal : D → D → Bool
  pub new_from_float : ℤ → D
  -- the number that a decimal stands for, in units of the finest power of ten
  pub amount : D → ℤ
  pub amount-zero : amount zero ≡ pos 0
  pub amount-add : (a b : D) → amount (add a b) ≡ amount a +ℤ amount b
  pub amount-sub : (a b : D) → amount (sub a b) ≡ amount a -ℤ amount b
  pub amount-neg : (a : D) → amount (neg a) ≡ pos 0 -ℤ amount a
  pub is_zero_lem : (a : D) → is_zero a ≡ is_zero_ℤ (amount a)
  pub is_negative_lem : (a : D) → is_negative a ≡ ltb_ℤ (amount a) (pos 0)
  pub is_positive_lem : (a : D) → is_positive a ≡ ltb_ℤ (pos 0) (amount a)
  pub greater_than_lem : (a b : D) → greater_than a b ≡ ltb_ℤ (amount b) (amount a)
  pub less_than_lem : (a b : D) → less_than a b ≡ ltb_ℤ (amount a) (amount b)
  pub less_than_or_equal_lem : (a b : D) → less_than_or_equal a b ≡ leb_ℤ (amount a) (amount b)
  pub mul-add :
      (v w : ℤ) (p : D)
      → amount (mul (new_from_float (v +ℤ w)) p)
        ≡ amount (mul (new_from_float v) p) +ℤ amount (mul (new_from_float w) p)
  pub mul-nonneg :
      (v : ℤ) (p : D) → pos 0 ≤ℤ v → pos 0 ≤ℤ amount p → pos 0 ≤ℤ amount (mul (new_from_float v) p)

-- Whole numbers are decimals of this kind.
abbrev pub whole : Decimals ℤ
whole = record {
  zero = pos 0;
  add = ◌+ℤ◌;
  sub = ◌-ℤ◌;
  mul = ◌*ℤ◌;
  neg = λ a. pos 0 -ℤ a;
  is_zero = is_zero_ℤ;
  is_negative = λ a. ltb_ℤ a (pos 0);
  is_positive = λ a. ltb_ℤ (pos 0) a;
  greater_than = λ a b. ltb_ℤ b a;
  less_than = ltb_ℤ;
  less_than_or_equal = leb_ℤ;
  new_from_float = λ v. v;
  amount = λ a. a;
  amount-zero = refl;
  amount-add = λ a b. refl;
  amount-sub = λ a b. refl;
  amount-neg = λ a. refl;
  is_zero_lem = λ a. refl;
  is_negative_lem = λ a. refl;
  is_positive_lem = λ a. refl;
  greater_than_lem = λ a b. refl;
  less_than_lem = λ a b. refl;
  less_than_or_equal_lem = λ a b. refl;
  mul-add = *ℤ_distrib;
  mul-nonneg = *ℤ_nonneg;
}

-- A value that is stored is rounded to the scale of its column, half away from zero: to the
-- nearest multiple of `unit`.
unfoldable pub round_to : ℕ → ℤ → ℤ
round_to unit (pos n) = pos ((n + unit / 2) / unit * unit)
round_to unit (negsuc n) = sub_ℕ 0 ((suc n + unit / 2) / unit * unit)

-- PostgreSQL's NUMERIC(18,6) and NUMERIC(18,10), which are not part of the repository either: what
-- a column of the one scale or the other holds when a decimal is assigned to it. `millionth` and
-- `tenth_nano` are the finest units that go into one unit of the column.
pub record Columns {D : Type 0} (dec : Decimals D) : Type 0 where
  pub scale_6 : D → D
  pub scale_10 : D → D
  pub millionth : ℕ
  pub tenth_nano : ℕ
  pub millionth_pos : 1 ≤ millionth
  pub tenth_nano_pos : 1 ≤ tenth_nano
  pub scale_6_lem : (a : D) → dec.amount (scale_6 a) ≡ round_to millionth (dec.amount a)
  pub scale_10_lem : (a : D) → dec.amount (scale_10 a) ≡ round_to tenth_nano (dec.amount a)

pub round_to-one : (a : ℤ) → round_to 1 a ≡ a
unfolding round_to
round_to-one (pos n) = ground arith
round_to-one (negsuc n) = ground arith

-- columns for whole numbers, with 10000 units to the millionth
abbrev pub whole_columns : Columns whole
whole_columns = record {
  scale_6 = round_to 10000;
  scale_10 = λ a. a;
  millionth = 10000;
  tenth_nano = 1;
  millionth_pos = omega arith;
  tenth_nano_pos = omega arith;
  scale_6_lem = λ a. refl;
  scale_10_lem = λ a. sym (round_to-one a);
}
