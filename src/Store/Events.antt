-- ===== src/Store/Events.antt =====
-- `ingestion_receipts`, `raw_events` and `splunk_cursor`.
pub mod Receipts
use cost_ai_grid_poc.Prelude.{
  ℕ, suc, ltb, take, order_by, where_rows, String, Bool, true, false, ◌&&◌, Option, none, some,
  List, [], ◌∷◌, ◌++◌, str_eq, if◌then◌else◌, find_row, Result, ok, err,
}
use cost_ai_grid_poc.Models.{RawEvent}
use cost_ai_grid_poc.Store.Tables.{Store, Receipt}

-- `ErrReceiptCollision`, with the source and the id of the event
pub data ReceiptError : Type 0 where
  receipt_collision : String → String → ReceiptError

abbrev pub same_event : String → String → Receipt → Bool
same_event source id r = str_eq r.source source && str_eq r.event_id id

module _ {D : Type 0} where
  -- `true` if the receipt is new
  unfoldable pub claim_ingestion_receipt :
      String → String → String → Store D → Result ReceiptError (Bool × Store D)
  claim_ingestion_receipt source id digest s = elim (find_row (same_event source id) s.receipts) [
    | none ↦ ok (
      true,
      record s {
        receipts = s.receipts ++ record { source = source; event_id = id; digest = digest } ∷ [];
      },
    )
    | some r ↦ if str_eq r.digest digest then ok (false, s) else err (receipt_collision source id)
  ]

  unfoldable pub insert_raw_event : RawEvent → Store D → Store D
  insert_raw_event ev s = record s {
    raw_events = s.raw_events ++ record ev { id = s.next_raw_id } ∷ [];
    next_raw_id = suc s.next_raw_id;
  }

  unfoldable pub splunk_cursor : Store D → ℕ
  splunk_cursor s = s.splunk_cursor

  unfoldable pub advance_splunk_cursor : ℕ → Store D → Store D
  advance_splunk_cursor last_sent_id s = record s { splunk_cursor = last_sent_id }

  unfoldable pub raw_events_since : Store D → ℕ → ℕ → List RawEvent
  raw_events_since s after_id limit =
      take limit
        (order_by (λ e. e.id) (where_rows (λ (e : RawEvent). ltb after_id e.id) s.raw_events))
