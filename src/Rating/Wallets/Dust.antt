-- ===== src/Rating/Wallets/Dust.antt =====
-- Amounts below half a unit of the columns of the wallets.
use mathlib.Core.Path.{subst}
use cost_ai_grid_poc.Prelude.{
  ℕ, ◌+◌, ◌<◌, ◌≡◌, refl, ap₂, inl, inr, String, Bool, ◌&&◌, List, [], ◌∷◌, map, ◌==◌, Bool-cases,
  ok, All, update_rows,
}
use cost_ai_grid_poc.Prelude.Int.{ℤ, pos}
use cost_ai_grid_poc.Decimal.{Decimals, Columns}
use cost_ai_grid_poc.Decimal.Rounding.{IsStored, round_to-sub, round_to-add}
use cost_ai_grid_poc.Models.{CostEntry, WalletRecord, WalletLedgerEntry}
use cost_ai_grid_poc.Store.{
  Store, has_id, is_active, insert_ledger_entry, deduct_found, deduct_from_wallet,
}
use cost_ai_grid_poc.Store.Wallets.Ledger.{deduct_from_wallet-ok}

-- an update that leaves a column as it is, in the rows with a property
map-update_rows :
    {A B : Type 0} (P : A → Type 0) (column : A → B) (p : A → Bool) (f : A → A) (xs : List A)
    → ((x : A) → P x → column (f x) ≡ column x)
    → All P xs
    → map column (update_rows p f xs) ≡ map column xs
map-update_rows P column p f [] i h = refl
map-update_rows P column p f (x ∷ xs) i h =
    ap₂ ◌∷◌ (elim (Bool-cases (p x)) [ inl t ↦ rw t (i x h.0) | inr n ↦ rw n refl ])
      (map-update_rows P column p f xs i h.1)

module _ {D : Type 0} {dec : Decimals D} (col : Columns dec) where
  open dec use {amount}
  open col use {scale_6, millionth}

  abbrev pub balance_of : WalletRecord D → ℤ
  balance_of w = amount w.balance

  abbrev pub applied_of : CostEntry D → ℤ
  applied_of e = amount e.wallet_applied

  abbrev pub AreStored : Store D → Type 0
  AreStored s =
      All (λ w. IsStored millionth (balance_of w)) s.wallets
      × All (λ e. IsStored millionth (applied_of e)) s.cost_entries

  sub_dust :
      (a b : D) (d : ℕ)
      → amount b ≡ pos d
      → d + d < millionth
      → IsStored millionth (amount a)
      → amount (scale_6 (dec.sub a b)) ≡ amount a
  sub_dust a b d e l h =
      rw (col.scale_6_lem (dec.sub a b), dec.amount-sub a b, e)
        (round_to-sub millionth d (amount a) col.millionth_pos h l)

  add_dust :
      (a b : D) (d : ℕ)
      → amount b ≡ pos d
      → d + d < millionth
      → IsStored millionth (amount a)
      → amount (scale_6 (dec.add a b)) ≡ amount a
  add_dust a b d e l h =
      rw (col.scale_6_lem (dec.add a b), dec.amount-add a b, e)
        (round_to-add millionth d (amount a) col.millionth_pos h l)

  abbrev Unmoved : Store D → WalletLedgerEntry D × Store D → Type 0
  Unmoved s r =
      (map balance_of r.1.wallets ≡ map balance_of s.wallets)
      × (map applied_of r.1.cost_entries ≡ map applied_of s.cost_entries)

  deduct_found_dust :
      (w : WalletRecord D) (ce d : ℕ) (a : D) (s : Store D)
      → AreStored s
      → amount a ≡ pos d
      → d + d < millionth
      → Unmoved s (deduct_found col w ce a s)
  unfolding deduct_found insert_ledger_entry
  deduct_found_dust w ce d a s (hw, hc) e l = (
    map-update_rows (λ w. IsStored millionth (balance_of w)) balance_of
        (λ r. has_id w.id r && is_active r)
        (λ r. record r { balance = scale_6 (dec.sub r.balance a) }) s.wallets
        (λ r h. sub_dust r.balance a d e l h) hw,
    map-update_rows (λ e. IsStored millionth (applied_of e)) applied_of (λ e. e.id == ce)
        (λ e. record e { wallet_applied = scale_6 (dec.add e.wallet_applied a) }) s.cost_entries
        (λ r h. add_dust r.wallet_applied a d e l h) hc,
  )

  -- A deduction of less than half a millionth that succeeds changes no balance and no
  -- wallet_applied, when these are what their columns hold: the cost entry stays unapplied.
  pub deduct_from_wallet_dust :
      (id : String) (ce d : ℕ) (a : D) (s : Store D) {row : WalletLedgerEntry D} {s' : Store D}
      → AreStored s
      → amount a ≡ pos d
      → d + d < millionth
      → deduct_from_wallet col id ce a s ≡ ok (row, s')
      → (map balance_of s'.wallets ≡ map balance_of s.wallets)
        × (map applied_of s'.cost_entries ≡ map applied_of s.cost_entries)
  deduct_from_wallet_dust id ce d a s h e l k =
      let (w, g, q) = deduct_from_wallet-ok col id ce a s k in
      subst (Unmoved s) q (deduct_found_dust w ce d a s h e l)
