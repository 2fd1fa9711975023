-- ===== src/Store/Tests.antt =====
-- Runs of the wallet operations on the fixtures.
use cost_ai_grid_poc.Prelude.{◌≡◌, refl, String, true, false, [], ◌∷◌, ok, err, str_eq}
use cost_ai_grid_poc.Prelude.Int.{ℤ, pos}
use cost_ai_grid_poc.Decimal.{whole_columns}
use cost_ai_grid_poc.Models.{WalletLedgerEntry}
use cost_ai_grid_poc.Store.Tables.{Store}
use cost_ai_grid_poc.Store.Wallets.{get_wallet, top_up_found, top_up_wallet}
use cost_ai_grid_poc.Store.Events.{receipt_collision, claim_ingestion_receipt}
use cost_ai_grid_poc.Store.Events.Receipts.{claim_ingestion_receipt_once}
use cost_ai_grid_poc.Fixtures.{wallet, store}

abbrev topped : WalletLedgerEntry ℤ × Store ℤ
topped = top_up_found whole_columns wallet (pos 20000) "payment-7" store

topped_runs :
    top_up_wallet whole_columns "w1" (pos 20000) "payment-7" store ≡ ok (topped.0, topped.1)
unfolding top_up_wallet get_wallet
topped_runs = refl

abbrev received : Store ℤ
received = record store {
  receipts = record { source = "osac"; event_id = "e1"; digest = "d1" } ∷ [];
}

receipt_runs : claim_ingestion_receipt "osac" "e1" "d1" store ≡ ok (true, received)
unfolding claim_ingestion_receipt
receipt_runs = refl

claim_ingestion_receipt_once_example :
    (claim_ingestion_receipt "osac" "e1" "d1" received ≡ ok (false, received))
    × ((e : String)
        → str_eq "d1" e ≡ false
        → claim_ingestion_receipt "osac" "e1" e received ≡ err (receipt_collision "osac" "e1"))
claim_ingestion_receipt_once_example =
    claim_ingestion_receipt_once "osac" "e1" "d1" store receipt_runs
