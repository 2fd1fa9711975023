-- ===== src/Store/Wallets.antt =====
-- `wallets` and `wallet_ledger_entries`. The money columns of both, and `wallet_applied`, are
-- NUMERIC(18,6).
pub mod Keyed
pub mod TopUp
pub mod Ledger
use cost_ai_grid_poc.Prelude.{
  ℕ, suc, ◌≤◌, String, Bool, true, false, ◌&&◌, ◌||◌, not, Option, none, some, List, [], ◌∷◌, ◌++◌,
  leb, ◌==◌, str_eq, if◌then◌else◌, where_rows, find_row, any_row, update_rows, order_by, Result,
  ok, err,
}
use cost_ai_grid_poc.Decimal.{Decimals, Columns}
use cost_ai_grid_poc.Models.{
  CostEntry, WalletRecord, WalletLedgerEntry, EntryType, top_up, deduction, adjustment,
}
use cost_ai_grid_poc.Store.Tables.{Store}

pub data WalletError : Type 0 where
  duplicate_top_up : String → WalletError
  -- no row came back from the `UPDATE`
  no_wallet : String → WalletError
  -- the primary key
  wallet_exists : String → WalletError

-- `SELECT DISTINCT`
abbrev pub distinct : List String → List String
distinct [] = []
distinct (x ∷ xs) = x ∷ where_rows (λ y. not (str_eq y x)) (distinct xs)

module _ {D : Type 0} where
  abbrev pub has_id : String → WalletRecord D → Bool
  has_id id w = str_eq w.id id

  abbrev pub is_active : WalletRecord D → Bool
  is_active w = str_eq w.lifecycle_state "active"

  unfoldable pub get_wallet : Store D → String → Option (WalletRecord D)
  get_wallet s id = find_row (has_id id) s.wallets

  -- `wallets … WHERE id = $2 AND lifecycle_state = 'active'`
  abbrev pub active_wallet : Store D → String → Option (WalletRecord D)
  active_wallet s id = find_row (λ w. has_id id w && is_active w) s.wallets

  -- the row that was created last, of rows created together the first
  abbrev pub latest : Option (WalletRecord D) → List (WalletRecord D) → Option (WalletRecord D)
  latest best [] = best
  latest none (w ∷ ws) = latest (some w) ws
  latest (some b) (w ∷ ws) = latest (some (if leb w.created_at b.created_at then b else w)) ws

  unfoldable pub get_wallet_for_tenant : Store D → String → Option (WalletRecord D)
  get_wallet_for_tenant s tenant =
      latest none (where_rows (λ w. str_eq w.tenant_id tenant && is_active w) s.wallets)

  unfoldable pub all_tenants_with_wallets : Store D → List String
  all_tenants_with_wallets s = distinct (tenants_of (where_rows is_active s.wallets))
    where
      tenants_of : List (WalletRecord D) → List String
      tenants_of [] = []
      tenants_of (w ∷ ws) = w.tenant_id ∷ tenants_of ws

  abbrev pub has_ref : String → String → WalletLedgerEntry D → Bool
  has_ref wallet_id ref e = str_eq e.wallet_id wallet_id && str_eq e.external_ref ref

  -- `INSERT INTO wallet_ledger_entries`
  unfoldable pub insert_ledger_entry : WalletLedgerEntry D → Store D → WalletLedgerEntry D × Store D
  insert_ledger_entry e s =
      let row = record e { id = s.next_ledger_id } in
      (
        row,
        record s {
          wallet_ledger = s.wallet_ledger ++ row ∷ [];
          next_ledger_id = suc s.next_ledger_id;
        },
      )

  unfoldable pub unapplied_cost_entries : Decimals D → Store D → String → List (CostEntry D)
  unapplied_cost_entries dec s tenant =
      order_by (λ e. e.period_start)
        (where_rows
          (λ (e : CostEntry D).
            str_eq e.tenant_id tenant && dec.less_than e.wallet_applied e.cost_amount)
          s.cost_entries)

module _ {D : Type 0} {dec : Decimals D} (col : Columns dec) where
  open dec use {add, sub, neg}
  open col use {scale_6}

  abbrev pub ledger_row :
      WalletRecord D → EntryType → D → D → Option ℕ → String → String → WalletLedgerEntry D
  ledger_row w entry_type amount balance cost_entry_id external_ref reason = record {
    id = 0;
    wallet_id = w.id;
    entry_type = entry_type;
    amount = scale_6 amount;
    balance_after = scale_6 balance;
    currency = w.currency;
    cost_entry_id = cost_entry_id;
    external_ref = external_ref;
    reason = reason;
  }

  -- the row of a wallet
  abbrev pub wallet_row : WalletRecord D → WalletRecord D
  wallet_row w = record w {
    balance = scale_6 w.balance;
    balance_floor = scale_6 w.balance_floor;
    reference_balance = scale_6 w.reference_balance;
  }

  unfoldable pub create_wallet : WalletRecord D → Store D → Result WalletError (Store D)
  create_wallet w s =
      if any_row (has_id w.id) s.wallets
      then err (wallet_exists w.id)
      else ok (record s { wallets = s.wallets ++ wallet_row w ∷ [] })

  -- the transaction of a top-up, on the wallet that it found
  unfoldable pub top_up_found :
      WalletRecord D → D → String → Store D → WalletLedgerEntry D × Store D
  unfolding insert_ledger_entry
  top_up_found w amount external_ref s =
      let balance = scale_6 (add w.balance amount) in
      insert_ledger_entry (ledger_row w top_up amount balance none external_ref "") (record s {
        wallets =
            update_rows (has_id w.id)
              (λ r. record r {
                balance = scale_6 (add r.balance amount);
                reference_balance = scale_6 (add r.reference_balance amount);
              })
              s.wallets;
      })

  unfoldable pub top_up_wallet :
      String → D → String → Store D → Result WalletError (WalletLedgerEntry D × Store D)
  unfolding get_wallet top_up_found
  top_up_wallet wallet_id amount external_ref s =
      if not (str_eq external_ref "") && any_row (has_ref wallet_id external_ref) s.wallet_ledger
      then err (duplicate_top_up external_ref)
      else elim (get_wallet s wallet_id) [
        | none ↦ err (no_wallet wallet_id)
        | some w ↦ ok (top_up_found w amount external_ref s)
      ]

  unfoldable pub deduct_found : WalletRecord D → ℕ → D → Store D → WalletLedgerEntry D × Store D
  unfolding insert_ledger_entry
  deduct_found w cost_entry_id amount s =
      insert_ledger_entry
        (ledger_row w deduction (neg amount) (scale_6 (sub w.balance amount)) (some cost_entry_id)
          "" "")
        (record s {
          wallets =
              update_rows (λ r. has_id w.id r && is_active r)
                (λ r. record r { balance = scale_6 (sub r.balance amount) }) s.wallets;
          cost_entries =
              update_rows (λ e. e.id == cost_entry_id)
                (λ e. record e { wallet_applied = scale_6 (add e.wallet_applied amount) })
                s.cost_entries;
        })

  unfoldable pub deduct_from_wallet :
      String → ℕ → D → Store D → Result WalletError (WalletLedgerEntry D × Store D)
  unfolding deduct_found
  deduct_from_wallet wallet_id cost_entry_id amount s = elim (active_wallet s wallet_id) [
    | none ↦ err (no_wallet wallet_id)
    | some w ↦ ok (deduct_found w cost_entry_id amount s)
  ]

  unfoldable pub adjust_found :
      WalletRecord D → D → String → Store D → WalletLedgerEntry D × Store D
  unfolding insert_ledger_entry
  adjust_found w amount reason s =
      insert_ledger_entry
        (ledger_row w adjustment amount (scale_6 (add w.balance amount)) none "" reason)
        (record s {
          wallets =
              update_rows (λ r. has_id w.id r && is_active r)
                (λ r. record r { balance = scale_6 (add r.balance amount) }) s.wallets;
        })

  unfoldable pub adjust_wallet :
      String → D → String → Store D → Result WalletError (WalletLedgerEntry D × Store D)
  unfolding adjust_found
  adjust_wallet wallet_id amount reason s = elim (active_wallet s wallet_id) [
    | none ↦ err (no_wallet wallet_id)
    | some w ↦ ok (adjust_found w amount reason s)
  ]
