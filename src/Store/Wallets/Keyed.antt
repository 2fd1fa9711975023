-- ===== src/Store/Wallets/Keyed.antt =====
-- The primary key of `wallets`: an update of the active wallet with an id reaches no other row.
use cost_ai_grid_poc.Prelude.{
  ◌≡◌, refl, inl, inr, String, true, false, ◌&&◌, some, List, eq_iff, Bool-cases, find_row,
  update_rows, All,
}
use cost_ai_grid_poc.Prelude.Rows.{find_row-holds}
use cost_ai_grid_poc.Prelude.Keys
use cost_ai_grid_poc.Prelude.Keys.{string_key, IsKeyedBy}
use cost_ai_grid_poc.Models.{WalletRecord}
use cost_ai_grid_poc.Store.Wallets.{has_id, is_active}

module _ {D : Type 0} where
  -- no two wallets have one id
  abbrev pub IsKeyed : List (WalletRecord D) → Type 0
  IsKeyed ws = IsKeyedBy (λ (w : WalletRecord D). w.id) ws

  pub active_id :
      (id : String) (ws : List (WalletRecord D)) {w : WalletRecord D}
      → find_row (λ r. has_id id r && is_active r) ws ≡ some w
      → w.id ≡ id
  active_id id ws {w} h = elim (Bool-cases (has_id id w)) [
    | inl t ↦ (eq_iff _ _).0 t
    | inr n ↦
        let e : (has_id id w && is_active w) ≡ true =
          find_row-holds (λ r. has_id id r && is_active r) ws h in
        let e' : false ≡ true = rw n at e in absurd (cc e')
  ]

  -- An update of the active wallet with an id keeps what it keeps of that wallet.
  pub keyed_update :
      (Q : WalletRecord D → Type 0) (f : WalletRecord D → WalletRecord D) (id : String)
      (ws : List (WalletRecord D)) {w : WalletRecord D}
      → IsKeyed ws
      → find_row (has_id id) ws ≡ some w
      → (Q w → Q (f w))
      → All Q ws
      → All Q (update_rows (λ r. has_id id r && is_active r) f ws)
  keyed_update Q f id ws {w} k h i q =
      Keys.keyed_update (λ (w : WalletRecord D). w.id) Q Q (λ r. has_id id r && is_active r) f id ws
        k h (λ x n. rw n refl)
        (λ p. elim (Bool-cases (has_id id w && is_active w)) [
          | inl t ↦ rw t (i p)
          | inr n ↦ rw n p
        ])
        (λ x n p. p) q
