-- ===== src/Rating/Wallets/Accounted.antt =====
-- `DeductWallets`: what is applied to the cost entries is what the ledger takes for them.
use cost_ai_grid_poc.Prelude.{
  ℕ, ◌≡◌, refl, inl, inr, String, Bool, false, ◌&&◌, ◌||◌, none, some, List, [], ◌∷◌, str_eq,
  Bool-cases, Option-cases, where_rows, find_row, any_row, All,
}
use cost_ai_grid_poc.Prelude.Rows.{where_rows-All}
use cost_ai_grid_poc.Prelude.Keys.{
  nat_key, has_key, IsKeyedBy, where_rows-IsKeyedBy, find_row-own, rest_found,
}
use cost_ai_grid_poc.Prelude.Keys.Order.{order_by-All, order_by-IsKeyedBy}
use cost_ai_grid_poc.Decimal.{Decimals, Columns}
use cost_ai_grid_poc.Models.{CostEntry, WalletRecord}
use cost_ai_grid_poc.Store.{
  Store, is_active, get_wallet, get_wallet_for_tenant, all_tenants_with_wallets,
  unapplied_cost_entries, active_wallet, deduct_found, deduct_from_wallet, insert_ledger_entry,
}
use cost_ai_grid_poc.Rating.Wallets.{
  debit_of, deduct_entries, deduct_tenant, deduct_tenants, deduct_wallets,
}
use cost_ai_grid_poc.Rating.Wallets.Applied.{
  cost_id, AreAccounted, debit_le, debit_nonneg, applied, step-AreAccounted,
}

module _ {D : Type 0} {dec : Decimals D} (col : Columns dec) where
  open dec use {
    add, sub, amount, is_zero, is_negative, greater_than, greater_than_lem, amount-sub, amount-add,
  }
  open col use {scale_6, millionth}

  abbrev AreFound : Store D → List (CostEntry D) → Type 0
  AreFound s es = All (λ e. find_row (has_key cost_id e.id) s.cost_entries ≡ some e) es

  rest_after :
      (v : WalletRecord D) (ce : CostEntry D) (rest : List (CostEntry D)) (debit : D) (s : Store D)
      → any_row (has_key cost_id ce.id) rest ≡ false
      → AreFound s rest
      → AreFound (deduct_found col v ce.id debit s).1 rest
  unfolding deduct_found insert_ledger_entry
  rest_after v ce rest debit s k f =
      rest_found cost_id ce rest s.cost_entries (applied col debit) (λ _. refl) k f

  after_refresh :
      (w : WalletRecord D) (rest : List (CostEntry D)) (s : Store D)
      → ((w' : WalletRecord D) → AreAccounted col (deduct_entries col w' rest s))
      → AreAccounted col s
      → AreAccounted col
          (elim (get_wallet s w.id) [ none ↦ s | some w' ↦ deduct_entries col w' rest s ])
  after_refresh w rest s i h = elim (Option-cases (get_wallet s w.id)) [
    | inl e ↦ rw e h
    | inr (w', e) ↦ rw e (i w')
  ]

  deduct_entries-AreAccounted :
      (es : List (CostEntry D)) (w : WalletRecord D) (s : Store D)
      → IsKeyedBy cost_id es
      → AreFound s es
      → AreAccounted col s
      → AreAccounted col (deduct_entries col w es s)
  unfolding deduct_entries deduct_from_wallet
  deduct_entries-AreAccounted [] w s k f h = h
  deduct_entries-AreAccounted (ce ∷ rest) w s k f h =
      let remaining = sub ce.cost_amount ce.wallet_applied in
      let available = sub w.balance w.balance_floor in
      let debit = debit_of col remaining available in
      elim (Bool-cases (is_zero remaining || is_negative remaining)) [
        | inl t ↦ rw t (deduct_entries-AreAccounted rest w s k.1 f.1 h)
        | inr n ↦ elim (Bool-cases (is_zero available || is_negative available)) [
          | inl t ↦ rw (n, t) h
          | inr m ↦
              rw (n, m)
                (elim (Option-cases (active_wallet s w.id)) [
                  | inl e ↦ rw e (deduct_entries-AreAccounted rest w s k.1 f.1 h)
                  | inr (v, e) ↦
                      let h' =
                        step-AreAccounted col v ce debit s f.0
                          (debit_nonneg col remaining available n m)
                          (debit_le col remaining available) h in
                      rw e (
                        after_refresh w rest (deduct_found col v ce.id debit s).1
                          (λ w'.
                            deduct_entries-AreAccounted rest w' (deduct_found col v ce.id debit s).1
                              k.1 (rest_after v ce rest debit s k.0 f.1) h')
                          h')
                ])
        ]
      ]

  unapplied_found :
      (s : Store D) (tenant : String)
      → IsKeyedBy cost_id s.cost_entries
      → IsKeyedBy cost_id (unapplied_cost_entries dec s tenant)
        × AreFound s (unapplied_cost_entries dec s tenant)
  unfolding unapplied_cost_entries
  unapplied_found s tenant k =
      let p : CostEntry D → Bool =
        λ e. str_eq e.tenant_id tenant && dec.less_than e.wallet_applied e.cost_amount in
      let start : CostEntry D → ℕ = λ e. e.period_start in
      (
        order_by-IsKeyedBy cost_id start (where_rows p s.cost_entries)
            (where_rows-IsKeyedBy cost_id p s.cost_entries k),
        order_by-All cost_id start (λ e. find_row (has_key cost_id e.id) s.cost_entries ≡ some e)
            (where_rows p s.cost_entries)
            (where_rows-All (λ e. find_row (has_key cost_id e.id) s.cost_entries ≡ some e) p
              s.cost_entries (find_row-own cost_id s.cost_entries k)),
      )

  deduct_tenant-AreAccounted :
      (tenant : String) (s : Store D)
      → AreAccounted col s
      → AreAccounted col (deduct_tenant col tenant s)
  unfolding deduct_tenant
  deduct_tenant-AreAccounted tenant s h =
      let (k, f) = unapplied_found s tenant h.0 in
      elim (Option-cases (get_wallet_for_tenant s tenant)) [
        | inl e ↦ rw (e, deduct_tenant) h
        | inr (w, e) ↦
            rw (e, deduct_tenant)
              (elim (Bool-cases (is_active w)) [
                | inl t ↦
                    rw t
                      (deduct_entries-AreAccounted (unapplied_cost_entries dec s tenant) w s k f h)
                | inr n ↦ rw n h
              ])
      ]

  deduct_tenants-AreAccounted :
      (ts : List String) (s : Store D)
      → AreAccounted col s
      → AreAccounted col (deduct_tenants col ts s)
  unfolding deduct_tenants
  deduct_tenants-AreAccounted [] s h = h
  deduct_tenants-AreAccounted (t ∷ ts) s h =
      deduct_tenants-AreAccounted ts (deduct_tenant col t s) (deduct_tenant-AreAccounted t s h)

  -- When no two cost entries have one id and, for each, the ledger takes together what is applied to
  -- it, which is what its column holds, not negative and no more than the cost rounded to six
  -- decimals, all this is so after a sweep of deductions: the deductions that the ledger lists for a
  -- cost sum to what is applied to it, and never to more than the rounded cost.
  pub deduct_wallets-AreAccounted :
      (s : Store D) → AreAccounted col s → AreAccounted col (deduct_wallets col s)
  unfolding deduct_wallets
  deduct_wallets-AreAccounted s h = deduct_tenants-AreAccounted (all_tenants_with_wallets s) s h
