-- ===== src/Rating/Wallets/Floor.antt =====
-- `DeductWallets` and the floors of the wallets.
use cost_ai_grid_poc.Prelude.{
  ℕ, ◌≡◌, refl, sym, ap, ◌∙◌, inl, inr, String, ◌&&◌, ◌||◌, Option, none, some, List, [], ◌∷◌, leb,
  str_eq, if◌then◌else◌, Bool-cases, Option-cases, where_rows, find_row, All, arith,
}
use cost_ai_grid_poc.Prelude.Int.{◌≤ℤ◌, int_laws, parts_of_eq, ltb_ℤ→ge}
use cost_ai_grid_poc.Prelude.Rows.{where_rows-All}
use cost_ai_grid_poc.Decimal.{Decimals, Columns}
use cost_ai_grid_poc.Decimal.Rounding.{IsStored, round_to_mono}
use cost_ai_grid_poc.Models.{CostEntry, WalletRecord}
use cost_ai_grid_poc.Store.{
  Store, has_id, is_active, latest, get_wallet, get_wallet_for_tenant, all_tenants_with_wallets,
  unapplied_cost_entries, active_wallet, deduct_found, deduct_from_wallet, insert_ledger_entry,
}
use cost_ai_grid_poc.Rating.Wallets.{
  debit_of, deduct_entries, deduct_tenant, deduct_tenants, deduct_wallets,
}
use cost_ai_grid_poc.Store.Wallets.Keyed.{IsKeyed, active_id, keyed_update}
use cost_ai_grid_poc.Prelude.Keys.{string_key, update_rows-IsKeyedBy, found_key, find_row-own}

latest-All :
    {D : Type 0} (P : WalletRecord D → Type 0) (o : Option (WalletRecord D))
    (ws : List (WalletRecord D)) {w : WalletRecord D}
    → ((v : WalletRecord D) → o ≡ some v → P v)
    → All P ws
    → latest o ws ≡ some w
    → P w
latest-All P o [] i h e = i _ e
latest-All P none (v ∷ vs) i h e =
    latest-All P (some v) vs (λ u e'. let q : u ≡ v = cc e' in rw q h.0) h.1 e
latest-All P (some b) (v ∷ vs) i h e =
    latest-All P (some (if leb v.created_at b.created_at then b else v)) vs
      (λ u e'. elim (Bool-cases (leb v.created_at b.created_at)) [
        | inl t ↦ i u (rw t at e')
        | inr n ↦ let e'' : some v ≡ some u = rw n at e' in let q : u ≡ v = cc e'' in rw q h.0
      ])
      h.1 e

module _ {D : Type 0} {dec : Decimals D} (col : Columns dec) where
  open dec use {sub, amount, is_zero, is_negative, greater_than, greater_than_lem, amount-sub}
  open col use {scale_6, millionth}

  -- the balance is not below the floor, which the column of the floor holds
  abbrev pub HasFunds : WalletRecord D → Type 0
  HasFunds w =
      (amount w.balance_floor ≤ℤ amount w.balance) × IsStored millionth (amount w.balance_floor)

  -- what the table of the wallets is and stays
  abbrev pub IsSolvent : Store D → Type 0
  IsSolvent s = IsKeyed s.wallets × All HasFunds s.wallets

  debit_le :
      (remaining available : D) → amount (debit_of col remaining available) ≤ℤ amount available
  debit_le remaining available = elim (Bool-cases (greater_than remaining available)) [
    | inl t ↦ rw t (omega arith)
    | inr n ↦ rw n (
        ltb_ℤ→ge (amount available) (amount remaining)
          (sym (greater_than_lem remaining available) ∙ n))
  ]

  after_debit :
      (w : WalletRecord D) (debit : D)
      → amount debit ≤ℤ amount (sub w.balance w.balance_floor)
      → HasFunds w
      → HasFunds (record w { balance = scale_6 (sub w.balance debit) })
  after_debit w debit h (f, s) = (
    rw (col.scale_6_lem (sub w.balance debit)) (
        omega (
          arith,
          parts_of_eq s,
          round_to_mono millionth (amount w.balance_floor) (amount (sub w.balance debit))
              col.millionth_pos
              (omega (
                int_laws,
                h,
                parts_of_eq (amount-sub w.balance debit),
                parts_of_eq (amount-sub w.balance w.balance_floor),
              )),
        )),
    s,
  )

  deduct_found-IsSolvent :
      (w v : WalletRecord D) (id : ℕ) (debit : D) (s : Store D)
      → v.id ≡ w.id
      → get_wallet s w.id ≡ some w
      → amount debit ≤ℤ amount (sub w.balance w.balance_floor)
      → IsSolvent s
      → IsSolvent (deduct_found col v id debit s).1
  unfolding deduct_found insert_ledger_entry get_wallet
  deduct_found-IsSolvent w v id debit s e g h (k, q) = rw e (
    update_rows-IsKeyedBy (λ (w : WalletRecord D). w.id) (λ r. has_id w.id r && is_active r)
        (λ r. record r { balance = scale_6 (sub r.balance debit) }) s.wallets (λ _. refl) k,
    keyed_update HasFunds (λ r. record r { balance = scale_6 (sub r.balance debit) }) w.id s.wallets
        k g (after_debit w debit h) q,
  )

  refreshed :
      (w : WalletRecord D) (s : Store D) {w' : WalletRecord D}
      → get_wallet s w.id ≡ some w'
      → w'.id ≡ w.id
  unfolding get_wallet
  refreshed w s e = found_key (λ (w : WalletRecord D). w.id) w.id s.wallets e

  after_refresh :
      (w : WalletRecord D) (rest : List (CostEntry D)) (s : Store D)
      → ((w' : WalletRecord D)
          → get_wallet s w'.id ≡ some w'
          → IsSolvent (deduct_entries col w' rest s))
      → IsSolvent s
      → IsSolvent (elim (get_wallet s w.id) [ none ↦ s | some w' ↦ deduct_entries col w' rest s ])
  after_refresh w rest s i h = elim (Option-cases (get_wallet s w.id)) [
    | inl e ↦ rw e h
    | inr (w', e) ↦ rw e (i w' (ap (λ id. get_wallet s id) (refreshed w s e) ∙ e))
  ]

  deduct_entries-IsSolvent :
      (es : List (CostEntry D)) (w : WalletRecord D) (s : Store D)
      → get_wallet s w.id ≡ some w
      → IsSolvent s
      → IsSolvent (deduct_entries col w es s)
  unfolding deduct_entries deduct_from_wallet
  deduct_entries-IsSolvent [] w s g h = h
  deduct_entries-IsSolvent (ce ∷ rest) w s g h =
      let remaining = sub ce.cost_amount ce.wallet_applied in
      let available = sub w.balance w.balance_floor in
      let debit = debit_of col remaining available in
      elim (Bool-cases (is_zero remaining || is_negative remaining)) [
        | inl t ↦ rw t (deduct_entries-IsSolvent rest w s g h)
        | inr n ↦ elim (Bool-cases (is_zero available || is_negative available)) [
          | inl t ↦ rw (n, t) h
          | inr m ↦
              rw (n, m)
                (elim (Option-cases (active_wallet s w.id)) [
                  | inl e ↦ rw e (deduct_entries-IsSolvent rest w s g h)
                  | inr (v, e) ↦ rw e (
                      after_refresh w rest (deduct_found col v ce.id debit s).1
                        (λ w' g'.
                          deduct_entries-IsSolvent rest w' (deduct_found col v ce.id debit s).1 g' (
                            deduct_found-IsSolvent w v ce.id debit s (active_id w.id s.wallets e) g
                              (debit_le remaining available) h))
                        (deduct_found-IsSolvent w v ce.id debit s (active_id w.id s.wallets e) g
                          (debit_le remaining available) h))
                ])
        ]
      ]

  tenant_found :
      (tenant : String) (s : Store D) {w : WalletRecord D}
      → IsKeyed s.wallets
      → get_wallet_for_tenant s tenant ≡ some w
      → get_wallet s w.id ≡ some w
  unfolding get_wallet get_wallet_for_tenant
  tenant_found tenant s {w} k e =
      latest-All (λ v. find_row (has_id v.id) s.wallets ≡ some v) none
        (where_rows (λ v. str_eq v.tenant_id tenant && is_active v) s.wallets)
        (λ v e'. absurd (cc e'))
        (where_rows-All (λ v. find_row (has_id v.id) s.wallets ≡ some v)
          (λ v. str_eq v.tenant_id tenant && is_active v) s.wallets
          (find_row-own (λ (w : WalletRecord D). w.id) s.wallets k))
        e

  deduct_tenant-IsSolvent :
      (tenant : String) (s : Store D) → IsSolvent s → IsSolvent (deduct_tenant col tenant s)
  unfolding deduct_tenant
  deduct_tenant-IsSolvent tenant s h = elim (Option-cases (get_wallet_for_tenant s tenant)) [
    | inl e ↦ rw (e, deduct_tenant) h
    | inr (w, e) ↦
        rw (e, deduct_tenant)
          (elim (Bool-cases (is_active w)) [
            | inl t ↦ rw t (
                deduct_entries-IsSolvent (unapplied_cost_entries dec s tenant) w s
                  (tenant_found tenant s h.0 e) h)
            | inr n ↦ rw n h
          ])
  ]

  deduct_tenants-IsSolvent :
      (ts : List String) (s : Store D) → IsSolvent s → IsSolvent (deduct_tenants col ts s)
  unfolding deduct_tenants
  deduct_tenants-IsSolvent [] s h = h
  deduct_tenants-IsSolvent (t ∷ ts) s h =
      deduct_tenants-IsSolvent ts (deduct_tenant col t s) (deduct_tenant-IsSolvent t s h)

  -- When no two wallets have one id, no balance is below its floor and each floor is what its
  -- column holds, this is so after a sweep of deductions: no wallet is taken below its floor,
  -- whatever the cost entries are.
  pub deduct_wallets-IsSolvent : (s : Store D) → IsSolvent s → IsSolvent (deduct_wallets col s)
  unfolding deduct_wallets
  deduct_wallets-IsSolvent s h = deduct_tenants-IsSolvent (all_tenants_with_wallets s) s h
