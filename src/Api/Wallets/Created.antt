-- ===== src/Api/Wallets/Created.antt =====
-- A wallet that `CreateWallet` writes, and its first top-up.
use cost_ai_grid_poc.Prelude.{
  ◌≡◌, refl, sym, ◌∙◌, ℕ, String, true, false, some, none, [], ◌∷◌, ◌++◌, str_eq, eq_refl, any_row,
  inl, inr, Bool-cases, ok,
}
use cost_ai_grid_poc.Prelude.Int.{pos, ◌+ℤ◌, int_laws}
use cost_ai_grid_poc.Prelude.Rows.{find_row-last, find_row-none}
use cost_ai_grid_poc.Decimal.{Decimals, Columns, round_to}
use cost_ai_grid_poc.Decimal.Rounding.{round_to-zero}
use cost_ai_grid_poc.Models.{WalletRecord, WalletLedgerEntry}
use cost_ai_grid_poc.Api.Wallets.{
  CreateWalletRequest, new_wallet, handle_create_wallet, handle_top_up_wallet,
}
use cost_ai_grid_poc.Api.Wallets.Credit.{not_refused}
use cost_ai_grid_poc.Store.{
  Store, create_wallet, wallet_row, get_wallet, top_up_found, top_up_wallet, insert_ledger_entry,
}
use cost_ai_grid_poc.Store.Wallets.{has_id, has_ref}
use cost_ai_grid_poc.Store.Wallets.Ledger.{stored_again, top_up_wallet-IsRecorded}

module _ {D : Type 0} {dec : Decimals D} (col : Columns dec) where
  open dec use {amount, add, zero, is_positive}
  open col use {millionth, scale_6}

  -- the store in which the row of the wallet is the last
  abbrev with_wallet : WalletRecord D → Store D → Store D
  with_wallet w s = record s { wallets = s.wallets ++ wallet_row col w ∷ [] }

  create_wallet-new :
      (w : WalletRecord D) (s : Store D)
      → get_wallet s w.id ≡ none
      → create_wallet col w s ≡ ok (with_wallet w s)
  unfolding get_wallet create_wallet
  create_wallet-new w s h = rw (find_row-none (has_id w.id) s.wallets h) refl

  get_wallet-new :
      (w : WalletRecord D) (s : Store D)
      → get_wallet s w.id ≡ none
      → get_wallet (with_wallet w s) w.id ≡ some (wallet_row col w)
  unfolding get_wallet
  get_wallet-new w s h = find_row-last (has_id w.id) s.wallets (wallet_row col w) h (eq_refl w.id)

  top_up_wallet-found :
      (id : String) (w : WalletRecord D) (a : D) (ref : String) (s : Store D)
      → get_wallet s id ≡ some w
      → any_row (has_ref id ref) s.wallet_ledger ≡ false
      → top_up_wallet col id a ref s ≡ ok (top_up_found col w a ref s)
  unfolding top_up_wallet
  top_up_wallet-found id w a ref s g n = elim (Bool-cases (str_eq ref "")) [
    | inl e ↦ rw (e, g) refl
    | inr m ↦ rw (m, n, g) refl
  ]

  first_balance :
      (w : WalletRecord D) (a : D) (ref : String) (s : Store D)
      → amount w.balance ≡ pos 0
      → amount (top_up_found col w a ref s).0.balance_after ≡ round_to millionth (amount a)
  unfolding top_up_found insert_ledger_entry
  first_balance w a ref s z =
      let e : pos 0 +ℤ amount a ≡ amount a = grind int_laws in
      rw
        (
          stored_again col (add w.balance a),
          col.scale_6_lem (add w.balance a),
          dec.amount-add w.balance a,
          z,
          e,
        )
        refl

  stored_zero : amount (scale_6 zero) ≡ pos 0
  stored_zero =
      rw (col.scale_6_lem zero, dec.amount-zero) (round_to-zero millionth col.millionth_pos)

  -- a top-up of `a` is accepted, and leaves the wallet with what its column holds of `a`, as the
  -- row of the ledger says
  abbrev pub IsFunded : String → D → String → Store D → Type 0
  IsFunded id a ref s =
      (r : WalletLedgerEntry D × Store D) × (handle_top_up_wallet col id a ref s ≡ ok r)
      × (amount r.0.balance_after ≡ round_to millionth (amount a))
      × (v : WalletRecord D) × (get_wallet r.1 id ≡ some v)
      × (amount v.balance ≡ round_to millionth (amount a))

  -- CreateWallet with a tenant and an id that is new to the wallets and the ledger is accepted, and
  -- its wallet can be topped up by any positive amount: the balance of the wallet in the new store,
  -- and that of the row of the ledger, is then what the column holds of the amount.
  pub handle_create_wallet-IsFunded :
      (id : String) (now : ℕ) (req : CreateWalletRequest) (a : D) (ref : String) (s : Store D)
      → str_eq req.tenant_id "" ≡ false
      → get_wallet s id ≡ none
      → any_row (has_ref id ref) s.wallet_ledger ≡ false
      → is_positive a ≡ true
      → (w : WalletRecord D) × (s' : Store D) × (handle_create_wallet col id now req s
          ≡ ok (some w, s'))
        × IsFunded id a ref s'
  unfolding handle_create_wallet handle_top_up_wallet
  handle_create_wallet-IsFunded id now req a ref s t h n p =
      let w = new_wallet dec id now req in
      let row = wallet_row col w in
      let s' = with_wallet w s in
      let found = get_wallet-new w s h in
      let topped = top_up_wallet-found id row a ref s' found n in
      let (_, _, v, g, e) = top_up_wallet-IsRecorded col id a ref s' topped in
      let first = first_balance row a ref s' stored_zero in
      (
        row,
        s',
        rw (t, create_wallet-new w s h, found) refl,
        (
          top_up_found col row a ref s',
          rw (not_refused col a p, topped) refl,
          first,
          v,
          g,
          sym e ∙ first,
        ),
      )
