-- ===== src/Store/Wallets/Ledger.antt =====
-- The ledger of the wallets: each operation that succeeds leaves its row there.
use mathlib.Core.Path.{subst}
use cost_ai_grid_poc.Prelude.{
  ℕ, ◌≡◌, refl, ap, ◌∙◌, inl, inr, String, ◌&&◌, not, Option, some, [], ◌∷◌, ◌++◌, str_eq,
  Bool-cases, Option-cases, any_row, ok, err,
}
use cost_ai_grid_poc.Prelude.Rows.{find_row-update}
use cost_ai_grid_poc.Decimal.{Decimals, Columns}
use cost_ai_grid_poc.Decimal.Rounding.{round_to-IsStored}
use cost_ai_grid_poc.Models.{WalletRecord, WalletLedgerEntry}
use cost_ai_grid_poc.Store.Tables.{Store}
use cost_ai_grid_poc.Store.Wallets.{
  duplicate_top_up, no_wallet, has_ref, has_id, is_active, get_wallet, active_wallet,
  insert_ledger_entry, top_up_found, top_up_wallet, deduct_found, deduct_from_wallet, adjust_found,
  adjust_wallet,
}
use cost_ai_grid_poc.Store.Wallets.Keyed.{active_id}
use cost_ai_grid_poc.Prelude.Keys.{string_key, found_key}

module _ {D : Type 0} {dec : Decimals D} (col : Columns dec) where
  open dec use {amount}
  open col use {scale_6}

  pub top_up_wallet-ok :
      (id : String) (a : D) (ref : String) (s : Store D) {r : WalletLedgerEntry D × Store D}
      → top_up_wallet col id a ref s ≡ ok r
      → (w : WalletRecord D) × (get_wallet s id ≡ some w) × (top_up_found col w a ref s ≡ r)
  unfolding top_up_wallet
  top_up_wallet-ok id a ref s {r} h =
      elim (Bool-cases (not (str_eq ref "") && any_row (has_ref id ref) s.wallet_ledger)) [
        | inl t ↦ let e : err (duplicate_top_up ref) ≡ ok r = rw t at h in absurd (cc e)
        | inr n ↦ elim (Option-cases (get_wallet s id)) [
          | inl m ↦ let e : err (no_wallet id) ≡ ok r = rw (n, m) at h in absurd (cc e)
          | inr (w, m) ↦
              let e : ok (top_up_found col w a ref s) ≡ ok r = rw (n, m) at h in (w, m, cc e)
        ]
      ]

  pub deduct_from_wallet-ok :
      (id : String) (ce : ℕ) (a : D) (s : Store D) {r : WalletLedgerEntry D × Store D}
      → deduct_from_wallet col id ce a s ≡ ok r
      → (w : WalletRecord D) × (active_wallet s id ≡ some w) × (deduct_found col w ce a s ≡ r)
  unfolding deduct_from_wallet
  deduct_from_wallet-ok id ce a s {r} h = elim (Option-cases (active_wallet s id)) [
    | inl m ↦ let e : err (no_wallet id) ≡ ok r = rw (m, deduct_from_wallet) at h in absurd (cc e)
    | inr (w, m) ↦
        let e : ok (deduct_found col w ce a s) ≡ ok r = rw (m, deduct_from_wallet) at h in
        (w, m, cc e)
  ]

  pub adjust_wallet-ok :
      (id : String) (a : D) (reason : String) (s : Store D) {r : WalletLedgerEntry D × Store D}
      → adjust_wallet col id a reason s ≡ ok r
      → (w : WalletRecord D) × (active_wallet s id ≡ some w) × (adjust_found col w a reason s ≡ r)
  unfolding adjust_wallet
  adjust_wallet-ok id a reason s {r} h = elim (Option-cases (active_wallet s id)) [
    | inl m ↦ let e : err (no_wallet id) ≡ ok r = rw (m, adjust_wallet) at h in absurd (cc e)
    | inr (w, m) ↦
        let e : ok (adjust_found col w a reason s) ≡ ok r = rw (m, adjust_wallet) at h in
        (w, m, cc e)
  ]

  -- the ledger ends with the row, which names the wallet and has the balance that is found now
  abbrev pub IsRecorded :
      (Store D → String → Option (WalletRecord D))
      → String
      → Store D
      → WalletLedgerEntry D × Store D
      → Type 0
  IsRecorded look id s r =
      (r.1.wallet_ledger ≡ s.wallet_ledger ++ r.0 ∷ [])
      × (r.0.wallet_id ≡ id)
      × (w : WalletRecord D) × (look r.1 id ≡ some w)
      × (amount r.0.balance_after ≡ amount w.balance)

  pub stored_again : (a : D) → amount (scale_6 (scale_6 a)) ≡ amount (scale_6 a)
  stored_again a =
      rw (col.scale_6_lem (scale_6 a), col.scale_6_lem a)
        (round_to-IsStored col.millionth (amount a) col.millionth_pos)

  top_up_found-IsRecorded :
      (w : WalletRecord D) (a : D) (ref : String) (s : Store D)
      → get_wallet s w.id ≡ some w
      → IsRecorded get_wallet w.id s (top_up_found col w a ref s)
  unfolding top_up_found insert_ledger_entry get_wallet
  top_up_found-IsRecorded w a ref s g =
      let change : WalletRecord D → WalletRecord D = λ r. record r {
        balance = scale_6 (dec.add r.balance a);
        reference_balance = scale_6 (dec.add r.reference_balance a);
      } in
      (
        refl,
        refl,
        change w,
        find_row-update (has_id w.id) change s.wallets (λ y. refl) g,
        stored_again (dec.add w.balance a),
      )

  deduct_found-IsRecorded :
      (w : WalletRecord D) (ce : ℕ) (a : D) (s : Store D)
      → active_wallet s w.id ≡ some w
      → IsRecorded active_wallet w.id s (deduct_found col w ce a s)
  unfolding deduct_found insert_ledger_entry
  deduct_found-IsRecorded w ce a s g =
      let change : WalletRecord D → WalletRecord D =
        λ r. record r { balance = scale_6 (dec.sub r.balance a) } in
      (
        refl,
        refl,
        change w,
        find_row-update (λ r. has_id w.id r && is_active r) change s.wallets (λ y. refl) g,
        stored_again (dec.sub w.balance a),
      )

  adjust_found-IsRecorded :
      (w : WalletRecord D) (a : D) (reason : String) (s : Store D)
      → active_wallet s w.id ≡ some w
      → IsRecorded active_wallet w.id s (adjust_found col w a reason s)
  unfolding adjust_found insert_ledger_entry
  adjust_found-IsRecorded w a reason s g =
      let change : WalletRecord D → WalletRecord D =
        λ r. record r { balance = scale_6 (dec.add r.balance a) } in
      (
        refl,
        refl,
        change w,
        find_row-update (λ r. has_id w.id r && is_active r) change s.wallets (λ y. refl) g,
        stored_again (dec.add w.balance a),
      )

  IsRecorded-subst :
      (look : Store D → String → Option (WalletRecord D)) (s : Store D) (w : WalletRecord D)
      {id : String} {q r : WalletLedgerEntry D × Store D}
      → w.id ≡ id
      → look s id ≡ some w
      → q ≡ r
      → (look s w.id ≡ some w → IsRecorded look w.id s q)
      → IsRecorded look id s r
  IsRecorded-subst look s w {id} {q} {r} same g e i =
      subst (λ i. IsRecorded look i s r) same
        (subst (λ x. IsRecorded look w.id s x) e (i (ap (λ i. look s i) same ∙ g)))

  pub wallet_found :
      (id : String) (s : Store D) {w : WalletRecord D} → get_wallet s id ≡ some w → w.id ≡ id
  unfolding get_wallet
  wallet_found id s g = found_key (λ (w : WalletRecord D). w.id) id s.wallets g

  -- A top-up that succeeds appends one row to the ledger, of the wallet, whose balance_after is
  -- the balance that the wallet has now.
  pub top_up_wallet-IsRecorded :
      (id : String) (a : D) (ref : String) (s : Store D) {r : WalletLedgerEntry D × Store D}
      → top_up_wallet col id a ref s ≡ ok r
      → IsRecorded get_wallet id s r
  top_up_wallet-IsRecorded id a ref s h =
      let (w, g, e) = top_up_wallet-ok id a ref s h in
      IsRecorded-subst get_wallet s w (wallet_found id s g) g e (top_up_found-IsRecorded w a ref s)

  -- A deduction that succeeds appends one row to the ledger, of the wallet, whose balance_after is
  -- the balance that the active wallet has now.
  pub deduct_from_wallet-IsRecorded :
      (id : String) (ce : ℕ) (a : D) (s : Store D) {r : WalletLedgerEntry D × Store D}
      → deduct_from_wallet col id ce a s ≡ ok r
      → IsRecorded active_wallet id s r
  deduct_from_wallet-IsRecorded id ce a s h =
      let (w, g, e) = deduct_from_wallet-ok id ce a s h in
      IsRecorded-subst active_wallet s w (active_id id s.wallets g) g e
        (deduct_found-IsRecorded w ce a s)

  -- An adjustment that succeeds appends one row to the ledger, of the wallet, whose balance_after
  -- is the balance that the active wallet has now.
  pub adjust_wallet-IsRecorded :
      (id : String) (a : D) (reason : String) (s : Store D) {r : WalletLedgerEntry D × Store D}
      → adjust_wallet col id a reason s ≡ ok r
      → IsRecorded active_wallet id s r
  adjust_wallet-IsRecorded id a reason s h =
      let (w, g, e) = adjust_wallet-ok id a reason s h in
      IsRecorded-subst active_wallet s w (active_id id s.wallets g) g e
        (adjust_found-IsRecorded w a reason s)
