-- ===== src/Rating/Wallets/Applied.antt =====
-- A deduction of `DeductWallets`: what is applied to its cost entry, and what the ledger takes for
-- it.
use cost_ai_grid_poc.Prelude.{
  ℕ, ◌≡◌, refl, sym, ap, true, ◌==◌, if◌then◌else◌, update_rows, ◌∙◌, inl, inr, false, ◌||◌, none,
  some, List, Bool-cases, find_row, All, arith,
}
use cost_ai_grid_poc.Prelude.Int.{
  ◌≤ℤ◌, int_laws, parts_of_eq, ltb_ℤ→lt, ◌-ℤ◌, ◌+ℤ◌, ltb_ℤ, ℤ, pos, negsuc,
}
use cost_ai_grid_poc.Prelude.Keys.{nat_key, has_key, IsKeyedBy, update_rows-IsKeyedBy, keyed_update}
use cost_ai_grid_poc.Decimal.{Decimals, Columns, round_to, is_zero_ℤ}
use mathlib.Core.Path.{subst}
use cost_ai_grid_poc.Decimal.Rounding.{IsStored, round_to_mono, round_to-IsStored, round_to-zero}
use cost_ai_grid_poc.Decimal.Rounding.Sums.{round_to-sum, round_to-neg}
use cost_ai_grid_poc.Store.Sums.{sum_of-last}
use cost_ai_grid_poc.Models.{CostEntry, WalletRecord, WalletLedgerEntry}
use cost_ai_grid_poc.Store.{Store, sum_of, deduct_found, insert_ledger_entry}
use cost_ai_grid_poc.Rating.Wallets.{debit_of}

abbrev pub cost_id : {D : Type 0} → CostEntry D → ℕ
cost_id e = e.id

sign_nonneg : (z : ℤ) → (is_zero_ℤ z || ltb_ℤ z (pos 0)) ≡ false → pos 0 ≤ℤ z
sign_nonneg (pos n) h = omega arith
sign_nonneg (negsuc n) h = ground arith

module _ {D : Type 0} {dec : Decimals D} (col : Columns dec) where
  open dec use {
    add, sub, amount, is_zero, is_negative, greater_than, greater_than_lem, amount-sub, amount-add,
  }
  open col use {scale_6, millionth}

  -- no more is applied than the cost, rounded to the scale of the column
  abbrev pub IsWithin : CostEntry D → Type 0
  IsWithin e = amount e.wallet_applied ≤ℤ round_to millionth (amount e.cost_amount)

  -- what a row of the ledger takes for a cost entry
  abbrev pub taken : ℕ → WalletLedgerEntry D → ℤ
  taken id row = elim row.cost_entry_id [
    | none ↦ pos 0
    | some i ↦ if id == i then pos 0 -ℤ amount row.amount else pos 0
  ]

  -- what is applied to an entry is what the ledger takes for it, and no more than the cost
  abbrev pub IsAccounted : List (WalletLedgerEntry D) → CostEntry D → Type 0
  IsAccounted ledger e =
      (pos 0 ≤ℤ amount e.wallet_applied)
      × IsStored millionth (amount e.wallet_applied)
      × (sum_of (taken e.id) ledger ≡ amount e.wallet_applied)
      × IsWithin e

  abbrev pub AreAccounted : Store D → Type 0
  AreAccounted s =
      IsKeyedBy cost_id s.cost_entries × All (IsAccounted s.wallet_ledger) s.cost_entries

  not_negative : (b : D) → (is_zero b || is_negative b) ≡ false → pos 0 ≤ℤ amount b
  not_negative b h =
      sign_nonneg (amount b) (rw (sym (dec.is_zero_lem b), sym (dec.is_negative_lem b)) h)

  pub debit_le :
      (remaining available : D) → amount (debit_of col remaining available) ≤ℤ amount remaining
  debit_le remaining available = elim (Bool-cases (greater_than remaining available)) [
    | inl t ↦ rw t (
        omega (
          arith,
          ltb_ℤ→lt (amount available) (amount remaining)
              (sym (greater_than_lem remaining available) ∙ t),
        ))
    | inr n ↦ rw n (omega arith)
  ]

  pub debit_nonneg :
      (remaining available : D)
      → (is_zero remaining || is_negative remaining) ≡ false
      → (is_zero available || is_negative available) ≡ false
      → pos 0 ≤ℤ amount (debit_of col remaining available)
  debit_nonneg remaining available r a = elim (Bool-cases (greater_than remaining available)) [
    | inl t ↦ rw t (not_negative available a)
    | inr n ↦ rw n (not_negative remaining r)
  ]

  abbrev pub applied : D → CostEntry D → CostEntry D
  applied debit e = record e { wallet_applied = scale_6 (add e.wallet_applied debit) }

  after_debit :
      (e : CostEntry D) (debit : D)
      → amount debit ≤ℤ amount (sub e.cost_amount e.wallet_applied)
      → IsWithin (applied debit e)
  after_debit e debit h = rw (col.scale_6_lem (add e.wallet_applied debit)) (
      round_to_mono millionth (amount (add e.wallet_applied debit)) (amount e.cost_amount)
        col.millionth_pos
        (omega (
          int_laws,
          h,
          parts_of_eq (amount-add e.wallet_applied debit),
          parts_of_eq (amount-sub e.cost_amount e.wallet_applied),
        )))

  deduction_taken :
      (v : WalletRecord D) (i id : ℕ) (debit : D) (s : Store D)
      → taken id (deduct_found col v i debit s).0
        ≡ (if id == i then round_to millionth (amount debit) else pos 0)
  unfolding deduct_found insert_ledger_entry
  deduction_taken v i id debit s = elim (Bool-cases (id == i)) [
    | inl t ↦
        rw
          (
            t,
            col.scale_6_lem (dec.neg debit),
            dec.amount-neg debit,
            round_to-neg millionth (amount debit) col.millionth_pos,
          )
          (omega int_laws)
    | inr n ↦ rw n refl
  ]

  -- the sum over the ledger, with the row of a deduction at its end
  sum_after :
      (v : WalletRecord D) (i id : ℕ) (debit : D) (s : Store D)
      → sum_of (taken id) (deduct_found col v i debit s).1.wallet_ledger
        ≡ sum_of (taken id) s.wallet_ledger
          +ℤ (if id == i then round_to millionth (amount debit) else pos 0)
  unfolding deduct_found insert_ledger_entry
  sum_after v i id debit s =
      sum_of-last (taken id) s.wallet_ledger _
      ∙ ap (λ x. sum_of (taken id) s.wallet_ledger +ℤ x) (deduction_taken v i id debit s)

  own-IsAccounted :
      (v : WalletRecord D) (ce : CostEntry D) (debit : D) (s : Store D)
      → (ce.id == ce.id) ≡ true
      → pos 0 ≤ℤ amount debit
      → amount debit ≤ℤ amount (sub ce.cost_amount ce.wallet_applied)
      → IsAccounted s.wallet_ledger ce
      → IsAccounted (deduct_found col v ce.id debit s).1.wallet_ledger (applied debit ce)
  own-IsAccounted v ce debit s t g h (a, b, c, _) =
      let u = millionth in
      let p = col.millionth_pos in
      let d = amount debit in
      let e : amount (applied debit ce).wallet_applied ≡ amount ce.wallet_applied +ℤ round_to u d =
        col.scale_6_lem (add ce.wallet_applied debit)
        ∙ ap (round_to u) (amount-add ce.wallet_applied debit)
        ∙ round_to-sum u (amount ce.wallet_applied) d p b a g in
      let m : sum_of (taken ce.id) (deduct_found col v ce.id debit s).1.wallet_ledger
          ≡ sum_of (taken ce.id) s.wallet_ledger +ℤ round_to u d =
        rw t at (sum_after v ce.id ce.id debit s) in
      let z : pos 0 ≤ℤ round_to u d =
        subst (λ x. x ≤ℤ round_to u d) (round_to-zero u p) (round_to_mono u (pos 0) d p g) in
      (
        omega (int_laws, parts_of_eq e, z, a),
        subst (IsStored u) (sym (col.scale_6_lem (add ce.wallet_applied debit)))
            (round_to-IsStored u (amount (add ce.wallet_applied debit)) p),
        m ∙ ap (λ x. x +ℤ round_to u d) c ∙ sym e,
        after_debit ce debit h,
      )

  other-IsAccounted :
      (v : WalletRecord D) (ce x : CostEntry D) (debit : D) (s : Store D)
      → (x.id == ce.id) ≡ false
      → IsAccounted s.wallet_ledger x
      → IsAccounted (deduct_found col v ce.id debit s).1.wallet_ledger x
  other-IsAccounted v ce x debit s n (a, b, c, d) =
      let m : sum_of (taken x.id) (deduct_found col v ce.id debit s).1.wallet_ledger
          ≡ sum_of (taken x.id) s.wallet_ledger +ℤ pos 0 =
        rw n at (sum_after v ce.id x.id debit s) in
      let z : amount x.wallet_applied +ℤ pos 0 ≡ amount x.wallet_applied = omega int_laws in
      (a, b, m ∙ ap (λ y. y +ℤ pos 0) c ∙ z, d)

  pub step-AreAccounted :
      (v : WalletRecord D) (ce : CostEntry D) (debit : D) (s : Store D)
      → find_row (has_key cost_id ce.id) s.cost_entries ≡ some ce
      → pos 0 ≤ℤ amount debit
      → amount debit ≤ℤ amount (sub ce.cost_amount ce.wallet_applied)
      → AreAccounted s
      → AreAccounted (deduct_found col v ce.id debit s).1
  step-AreAccounted v ce debit s f g h (k, w) =
      let ledger = (deduct_found col v ce.id debit s).1.wallet_ledger in
      let costs : (deduct_found col v ce.id debit s).1.cost_entries
          ≡ update_rows (has_key cost_id ce.id) (applied debit) s.cost_entries =
        unfold deduct_found insert_ledger_entry in refl in
      rw costs (
        update_rows-IsKeyedBy cost_id (has_key cost_id ce.id) (applied debit) s.cost_entries
            (λ _. refl) k,
        keyed_update cost_id (IsAccounted s.wallet_ledger) (IsAccounted ledger)
            (has_key cost_id ce.id) (applied debit) ce.id s.cost_entries k f (λ x n. n)
            (λ p. elim (Bool-cases (has_key cost_id ce.id ce)) [
              | inl t ↦ rw t (own-IsAccounted v ce debit s t g h p)
              | inr n ↦ rw n (other-IsAccounted v ce ce debit s n p)
            ])
            (λ x n p. other-IsAccounted v ce x debit s n p) w,
      )
