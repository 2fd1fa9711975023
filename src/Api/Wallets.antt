-- ===== src/Api/Wallets.antt =====
-- `CreateWallet`, `TopUpWallet` and `AdjustWallet`. An error is the status that is written.
pub mod Credit
pub mod Created
use cost_ai_grid_poc.Prelude.{
  ℕ, String, ◌||◌, Option, List, [], str_eq, if◌then◌else◌, Result, ok, err,
}
use cost_ai_grid_poc.Prelude.Int.{ℤ}
use cost_ai_grid_poc.Decimal.{Decimals, Columns}
use cost_ai_grid_poc.Models.{WalletRecord, WalletLedgerEntry}
use cost_ai_grid_poc.Api.Errors.{ApiError, bad_request, internal_server_error, not_implemented}
use cost_ai_grid_poc.Store.{Store, WalletError, create_wallet, get_wallet, top_up_wallet}

-- the body of `POST /api/v1/wallets`
pub record CreateWalletRequest : Type 0 where
  pub tenant_id : String
  pub project_id : String
  pub currency : String
  pub thresholds : List ℤ

-- a failure of the store, under the status that the handler gives it
abbrev pub with_status : {R : Type 0} → ApiError → Result WalletError R → Result ApiError R
with_status status r = elim r [ ok x ↦ ok x | err _ ↦ err status ]

module _ {D : Type 0} (dec : Decimals D) where
  open dec use {zero}

  -- `id` is what `uuid.New` gives, `now` the default of `created_at`
  abbrev pub new_wallet : String → ℕ → CreateWalletRequest → WalletRecord D
  new_wallet id now req = record {
    id = id;
    tenant_id = req.tenant_id;
    project_id = req.project_id;
    currency = if str_eq req.currency "" then "USD" else req.currency;
    balance = zero;
    balance_floor = zero;
    reference_balance = zero;
    lifecycle_state = "active";
    thresholds = req.thresholds;
    created_at = now;
  }

module _ {D : Type 0} {dec : Decimals D} (col : Columns dec) where
  open dec use {is_zero, is_negative, is_positive}

  unfoldable pub handle_create_wallet :
      String
      → ℕ
      → CreateWalletRequest
      → Store D
      → Result ApiError (Option (WalletRecord D) × Store D)
  handle_create_wallet id now req s =
      if str_eq req.tenant_id ""
      then err bad_request
      else elim (create_wallet col (new_wallet dec id now req) s) [
        | err _ ↦ err internal_server_error
        | ok s' ↦ ok (get_wallet s' id, s')
      ]

  unfoldable pub handle_top_up_wallet :
      String → D → String → Store D → Result ApiError (WalletLedgerEntry D × Store D)
  handle_top_up_wallet id amount external_ref s =
      if is_zero amount || is_negative amount
      then err bad_request
      else with_status bad_request (top_up_wallet col id amount external_ref s)

  unfoldable pub handle_adjust_wallet :
      String → D → String → Store D → Result ApiError (WalletLedgerEntry D × Store D)
  handle_adjust_wallet id amount external_ref s =
      if is_zero amount
      then err bad_request
      else if is_positive amount
      then with_status internal_server_error (top_up_wallet col id amount external_ref s)
      else err not_implemented
