-- ===== src/Rating/Wallets.antt =====
-- `Rater.DeductWallets`: unapplied cost is taken from the tenants' wallets, down to their floors.
pub mod Floor
pub mod Dust
pub mod Applied
pub mod Accounted
use cost_ai_grid_poc.Prelude.{
  ℕ, String, Bool, ◌||◌, not, Option, none, some, List, [], ◌∷◌, if◌then◌else◌, Result, ok, err,
}
use cost_ai_grid_poc.Decimal.{Decimals, Columns}
use cost_ai_grid_poc.Models.{CostEntry, WalletRecord, WalletLedgerEntry}
use cost_ai_grid_poc.Store.{
  Store, WalletError, is_active, get_wallet, get_wallet_for_tenant, all_tenants_with_wallets,
  unapplied_cost_entries, deduct_from_wallet,
}

module _ {D : Type 0} {dec : Decimals D} (col : Columns dec) where
  open dec use {sub, is_zero, is_negative, greater_than}

  -- what a deduction takes: the rest of the cost, or what the wallet has above its floor
  abbrev pub debit_of : D → D → D
  debit_of remaining available = if greater_than remaining available then available else remaining

  -- the loop over the cost entries of one tenant; `wallet` is read again after each deduction
  unfoldable pub deduct_entries : WalletRecord D → List (CostEntry D) → Store D → Store D
  deduct_entries wallet [] s = s
  deduct_entries wallet (ce ∷ rest) s =
      let remaining = sub ce.cost_amount ce.wallet_applied in
      let available = sub wallet.balance wallet.balance_floor in
      let skipped = deduct_entries wallet rest s in
      let next : Store D =
        elim (deduct_from_wallet col wallet.id ce.id (debit_of remaining available) s) [
          | err _ ↦ deduct_entries wallet rest s
          | ok (_, s') ↦ elim (get_wallet s' wallet.id) [
            | none ↦ s'
            | some wallet' ↦ deduct_entries wallet' rest s'
          ]
        ] in
      if is_zero remaining || is_negative remaining
      then skipped
      else if is_zero available || is_negative available
      then s
      else next

  unfoldable pub deduct_tenant : String → Store D → Store D
  unfolding deduct_entries
  deduct_tenant tenant s = elim (get_wallet_for_tenant s tenant) [
    | none ↦ s
    | some wallet ↦
        if is_active wallet
        then deduct_entries wallet (unapplied_cost_entries dec s tenant) s
        else s
  ]

  unfoldable deduct_tenants : List String → Store D → Store D
  unfolding deduct_tenant
  deduct_tenants [] s = s
  deduct_tenants (t ∷ ts) s = deduct_tenants ts (deduct_tenant t s)

  unfoldable pub deduct_wallets : Store D → Store D
  unfolding deduct_tenants
  deduct_wallets s = deduct_tenants (all_tenants_with_wallets s) s
