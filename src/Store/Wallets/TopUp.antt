-- ===== src/Store/Wallets/TopUp.antt =====
-- `TopUpWallet` is idempotent in its external reference.
use mathlib.Core.Path.{subst}
use cost_ai_grid_poc.Prelude.{
  ◌≡◌, refl, ap, ◌∙◌, List, ◌++◌, String, true, false, str_eq, eq_refl, any_row, ok, err,
}
use cost_ai_grid_poc.Prelude.Rows.{any_row-last, any_row-append}
use cost_ai_grid_poc.Decimal.{Decimals, Columns}
use cost_ai_grid_poc.Models.{WalletRecord, WalletLedgerEntry}
use cost_ai_grid_poc.Store.Tables.{Store}
use cost_ai_grid_poc.Store.Wallets.{
  duplicate_top_up, has_ref, insert_ledger_entry, top_up_found, top_up_wallet,
}
use cost_ai_grid_poc.Store.Wallets.Ledger.{top_up_wallet-ok, wallet_found}

module _ {D : Type 0} {dec : Decimals D} (col : Columns dec) where
  kept :
      (w : WalletRecord D) (a : D) (ref : String) (s : Store D)
      → any_row (has_ref w.id ref) (top_up_found col w a ref s).1.wallet_ledger ≡ true
  unfolding top_up_found insert_ledger_entry
  kept w a ref s =
      any_row-last (has_ref w.id ref) s.wallet_ledger _ (rw (eq_refl w.id, eq_refl ref) refl)

  refused :
      (id ref : String) (b : D) (s : Store D)
      → str_eq ref "" ≡ false
      → any_row (has_ref id ref) s.wallet_ledger ≡ true
      → top_up_wallet col id b ref s ≡ err (duplicate_top_up ref)
  unfolding top_up_wallet
  refused id ref b s n h = rw (n, h) refl

  -- A top-up with a reference that is not empty succeeds once: in every later store, whose ledger
  -- begins with the one after it, a top-up of the wallet with the reference is refused, whatever its
  -- amount.
  pub top_up_wallet_once :
      (id ref : String) (a b : D) (s t : Store D) (more : List (WalletLedgerEntry D))
      {row : WalletLedgerEntry D} {s' : Store D}
      → str_eq ref "" ≡ false
      → top_up_wallet col id a ref s ≡ ok (row, s')
      → t.wallet_ledger ≡ s'.wallet_ledger ++ more
      → top_up_wallet col id b ref t ≡ err (duplicate_top_up ref)
  top_up_wallet_once id ref a b s t more {row} {s'} n h l =
      let (w, g, e) = top_up_wallet-ok col id a ref s h in
      let there : any_row (has_ref id ref) s'.wallet_ledger ≡ true =
        subst (λ i. any_row (has_ref i ref) s'.wallet_ledger ≡ true) (wallet_found col id s g)
          (subst (λ r. any_row (has_ref w.id ref) r.1.wallet_ledger ≡ true) e (kept w a ref s)) in
      refused id ref b t n (
        ap (any_row (has_ref id ref)) l
        ∙ any_row-append (has_ref id ref) s'.wallet_ledger more there)
