-- ===== src/Api/Wallets/Credit.antt =====
-- What the requests of `TopUpWallet` and `AdjustWallet` that are accepted do to the balance.
use mathlib.Core.Path.{subst}
use cost_ai_grid_poc.Prelude.{
  zero, suc, ◌≡◌, refl, sym, ap, ◌∙◌, inl, inr, String, true, false, ◌||◌, some, List, ◌++◌, str_eq,
  Bool-cases, Result, ok, err, arith,
}
use cost_ai_grid_poc.Prelude.Int.{ℤ, pos, negsuc, ltb_ℤ, ◌+ℤ◌, ◌≤ℤ◌, int_laws, ltb_ℤ→lt}
use cost_ai_grid_poc.Decimal.{Decimals, Columns, is_zero_ℤ, round_to}
use cost_ai_grid_poc.Decimal.Rounding.{IsStored, round_to_mono}
use cost_ai_grid_poc.Models.{WalletRecord, WalletLedgerEntry}
use cost_ai_grid_poc.Api.Errors.{ApiError, bad_request, internal_server_error, not_implemented}
use cost_ai_grid_poc.Api.Wallets.{with_status, handle_top_up_wallet, handle_adjust_wallet}
use cost_ai_grid_poc.Store.{
  Store, WalletError, get_wallet, top_up_found, top_up_wallet, insert_ledger_entry,
}
use cost_ai_grid_poc.Store.Wallets.TopUp.{top_up_wallet_once}
use cost_ai_grid_poc.Store.Wallets.Ledger.{
  IsRecorded, stored_again, top_up_wallet-ok, top_up_wallet-IsRecorded,
}

with_status-ok :
    {R : Type 0} (status : ApiError) (r : Result WalletError R) {x : R}
    → with_status status r ≡ ok x
    → r ≡ ok x
with_status-ok status (ok y) {x = x} h = let e : ok y ≡ ok x = h in cc e
with_status-ok status (err y) {x = x} h = let e : err status ≡ ok x = h in absurd (cc e)

sign : (z : ℤ) → (is_zero_ℤ z || ltb_ℤ z (pos 0)) ≡ false → ltb_ℤ (pos 0) z ≡ true
sign (pos zero) h = absurd (cc h)
sign (pos (suc n)) h = ground arith
sign (negsuc n) h = ground arith

positive_nonzero : (z : ℤ) → ltb_ℤ (pos 0) z ≡ true → is_zero_ℤ z ≡ false
positive_nonzero (pos zero) h = absurd (cc h)
positive_nonzero (pos (suc n)) h = ground arith
positive_nonzero (negsuc n) h = ground arith

sign_positive : (z : ℤ) → ltb_ℤ (pos 0) z ≡ true → (is_zero_ℤ z || ltb_ℤ z (pos 0)) ≡ false
sign_positive (pos zero) h = absurd (cc h)
sign_positive (pos (suc n)) h = ground arith
sign_positive (negsuc n) h = ground arith

module _ {D : Type 0} {dec : Decimals D} (col : Columns dec) where
  open dec use {amount, add, is_zero, is_negative, is_positive}
  open col use {millionth}

  -- the amount is positive, the row has a balance that is not below that of the wallet, and it is
  -- recorded
  abbrev pub IsCredit :
      String → D → WalletRecord D → Store D → WalletLedgerEntry D × Store D → Type 0
  IsCredit id a w s r =
      (is_positive a ≡ true)
      × (amount w.balance ≤ℤ amount r.0.balance_after)
      × IsRecorded col get_wallet id s r

  positive : (b : ℤ) (x : D) → is_positive x ≡ true → b ≤ℤ b +ℤ amount x
  positive b x p =
      let l = ltb_ℤ→lt (pos 0) (amount x) (sym (dec.is_positive_lem x) ∙ p) in omega (int_laws, l)

  balance_raised :
      (w : WalletRecord D) (a : D) (ref : String) (s : Store D)
      → is_positive a ≡ true
      → IsStored millionth (amount w.balance)
      → amount w.balance ≤ℤ amount (top_up_found col w a ref s).0.balance_after
  unfolding top_up_found insert_ledger_entry
  balance_raised w a ref s p h =
      let m =
        round_to_mono millionth (amount w.balance) (amount w.balance +ℤ amount a) col.millionth_pos
          (positive (amount w.balance) a p) in
      rw
        (
          stored_again col (add w.balance a),
          col.scale_6_lem (add w.balance a),
          dec.amount-add w.balance a,
        )
        (subst (λ b. b ≤ℤ round_to millionth (amount w.balance +ℤ amount a)) h m)

  top_up-IsCredit :
      (id : String) (a : D) (ref : String) (s : Store D) (w : WalletRecord D)
      {r : WalletLedgerEntry D × Store D}
      → is_positive a ≡ true
      → get_wallet s id ≡ some w
      → IsStored millionth (amount w.balance)
      → top_up_wallet col id a ref s ≡ ok r
      → IsCredit id a w s r
  top_up-IsCredit id a ref s w {r} p g h t =
      let (w', g', e) = top_up_wallet-ok col id a ref s t in
      let same : w ≡ w' = cc (sym g ∙ g') in
      (
        p,
        subst (λ q. amount w.balance ≤ℤ amount q.0.balance_after)
            (ap (λ v. top_up_found col v a ref s) same ∙ e) (balance_raised w a ref s p h),
        top_up_wallet-IsRecorded col id a ref s t,
      )

  not_zero : (b : D) → is_positive b ≡ true → is_zero b ≡ false
  not_zero b p = dec.is_zero_lem b ∙ positive_nonzero (amount b) (sym (dec.is_positive_lem b) ∙ p)

  pub not_refused : (b : D) → is_positive b ≡ true → (is_zero b || is_negative b) ≡ false
  not_refused b p =
      rw (dec.is_zero_lem b, dec.is_negative_lem b)
        (sign_positive (amount b) (sym (dec.is_positive_lem b) ∙ p))

  handle_top_up_wallet-ok :
      (id : String) (a : D) (ref : String) (s : Store D) {r : WalletLedgerEntry D × Store D}
      → handle_top_up_wallet col id a ref s ≡ ok r
      → (is_positive a ≡ true) × (top_up_wallet col id a ref s ≡ ok r)
  unfolding handle_top_up_wallet
  handle_top_up_wallet-ok id a ref s {r} h = elim (Bool-cases (is_zero a || is_negative a)) [
    | inl t ↦ let e : err bad_request ≡ ok r = rw t at h in absurd (cc e)
    | inr n ↦
        let e : with_status bad_request (top_up_wallet col id a ref s) ≡ ok r = rw n at h in
        let n' : (is_zero_ℤ (amount a) || ltb_ℤ (amount a) (pos 0)) ≡ false =
          rw (sym (dec.is_zero_lem a), sym (dec.is_negative_lem a)) n in
        (dec.is_positive_lem a ∙ sign (amount a) n', with_status-ok _ _ e)
  ]

  handle_adjust_wallet-ok :
      (id : String) (a : D) (ref : String) (s : Store D) {r : WalletLedgerEntry D × Store D}
      → handle_adjust_wallet col id a ref s ≡ ok r
      → (is_positive a ≡ true) × (top_up_wallet col id a ref s ≡ ok r)
  unfolding handle_adjust_wallet
  handle_adjust_wallet-ok id a ref s {r} h = elim (Bool-cases (is_zero a)) [
    | inl t ↦ let e : err bad_request ≡ ok r = rw t at h in absurd (cc e)
    | inr n ↦ elim (Bool-cases (is_positive a)) [
      | inl p ↦
          let e : with_status internal_server_error (top_up_wallet col id a ref s) ≡ ok r =
            rw (n, p) at h in
          (p, with_status-ok _ _ e)
      | inr m ↦ let e : err not_implemented ≡ ok r = rw (n, m) at h in absurd (cc e)
    ]
  ]

  -- A request of TopUpWallet that is accepted has a positive amount and does not lower the balance
  -- of the wallet, which is what its column holds: the row that it appends to the ledger has the
  -- new balance of the wallet, and this is not below the old one.
  pub handle_top_up_wallet-IsCredit :
      (id : String) (a : D) (ref : String) (s : Store D) (w : WalletRecord D)
      {r : WalletLedgerEntry D × Store D}
      → get_wallet s id ≡ some w
      → IsStored millionth (amount w.balance)
      → handle_top_up_wallet col id a ref s ≡ ok r
      → IsCredit id a w s r
  handle_top_up_wallet-IsCredit id a ref s w g h t =
      let (p, e) = handle_top_up_wallet-ok id a ref s t in top_up-IsCredit id a ref s w p g h e

  -- A request of AdjustWallet that is accepted has a positive amount and does not lower the balance
  -- of the wallet, which is what its column holds: the row that it appends to the ledger has the
  -- new balance of the wallet, and this is not below the old one.
  pub handle_adjust_wallet-IsCredit :
      (id : String) (a : D) (ref : String) (s : Store D) (w : WalletRecord D)
      {r : WalletLedgerEntry D × Store D}
      → get_wallet s id ≡ some w
      → IsStored millionth (amount w.balance)
      → handle_adjust_wallet col id a ref s ≡ ok r
      → IsCredit id a w s r
  handle_adjust_wallet-IsCredit id a ref s w g h t =
      let (p, e) = handle_adjust_wallet-ok id a ref s t in top_up-IsCredit id a ref s w p g h e

  -- A reference that is not empty is credited once to a wallet, through whichever endpoint: after a
  -- request of AdjustWallet that is accepted, in every later store, whose ledger begins with the one
  -- after it, TopUpWallet and AdjustWallet refuse each request for the wallet with the reference and
  -- a positive amount, TopUpWallet as a bad request and AdjustWallet as an internal error.
  pub handle_adjust_wallet_once :
      (id ref : String) (a b : D) (s later : Store D) (more : List (WalletLedgerEntry D))
      {r : WalletLedgerEntry D × Store D}
      → str_eq ref "" ≡ false
      → handle_adjust_wallet col id a ref s ≡ ok r
      → later.wallet_ledger ≡ r.1.wallet_ledger ++ more
      → is_positive b ≡ true
      → (handle_top_up_wallet col id b ref later ≡ err bad_request)
        × (handle_adjust_wallet col id b ref later ≡ err internal_server_error)
  unfolding handle_top_up_wallet handle_adjust_wallet
  handle_adjust_wallet_once id ref a b s later more {r} n t l p =
      let (q, e) = handle_adjust_wallet-ok id a ref s t in
      let o = top_up_wallet_once col id ref a b s later more n e l in
      let z : is_zero b ≡ false = not_zero b p in (rw (not_refused b p, o) refl, rw (z, p, o) refl)
