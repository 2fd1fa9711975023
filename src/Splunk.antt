-- ===== src/Splunk.antt =====
-- The forwarder of the raw events to Splunk: inventory-watcher/internal/splunk/forwarder.go. The
-- HTTP event collector is a parameter, `answers`: the status code of the nth answer in a sweep, or
-- `none` if the request fails. A batch is posted as its rows.
pub mod Pending
pub mod Rounds
pub mod Delivered
mod Tests
use cost_ai_grid_poc.Prelude.{
  ℕ, zero, suc, ◌+◌, ◌*◌, Bool, false, ◌||◌, ◌==◌, Option, none, some, List, [], ◌∷◌, ◌++◌, ltb,
  leb, length, if◌then◌else◌,
}
use cost_ai_grid_poc.Models.{RawEvent}
use cost_ai_grid_poc.Store.{Store, splunk_cursor, advance_splunk_cursor, raw_events_since}

-- `rows[len(rows)-1].ID`
abbrev pub last_id : ℕ → List RawEvent → ℕ
last_id id [] = id
last_id id (e ∷ es) = last_id e.id es

-- whether `post` returns no error
unfoldable pub post : Option ℕ → Bool
post none = false
post (some status) = status == 200 || status == 201

module _ {D : Type 0} (batch_size : ℕ) (answers : ℕ → Option ℕ) where
  -- The loop of the sweep: the posts made, the errors in a row, the cursor, and what was accepted.
  -- `none` means that the fuel ran out.
  unfoldable pub forward_rounds :
      ℕ → ℕ → ℕ → ℕ → List RawEvent → Store D → Option (List RawEvent × Store D)
  forward_rounds zero posts errors cursor accepted s = none
  forward_rounds (suc fuel) posts errors cursor accepted s =
      elim (raw_events_since s cursor batch_size) [
        | [] ↦ some (accepted, s)
        | e ∷ es ↦
            let max_id = last_id e.id es in
            let s' = advance_splunk_cursor max_id s in
            let retry = forward_rounds fuel (suc posts) (suc errors) cursor accepted s in
            let next = forward_rounds fuel (suc posts) 0 max_id (accepted ++ e ∷ es) s' in
            let forwarded : Option (List RawEvent × Store D) =
              if ltb (length (e ∷ es)) batch_size then some (accepted ++ e ∷ es, s') else next in
            let failed : Option (List RawEvent × Store D) =
              if leb 3 (suc errors) then some (accepted, s) else retry in
            if post (answers posts) then forwarded else failed
      ]

  -- a sweep with fuel for three posts of each raw event
  unfoldable pub forward_sweep : Store D → Option (List RawEvent × Store D)
  unfolding forward_rounds
  forward_sweep s = forward_rounds (4 + 3 * length s.raw_events) 0 0 (splunk_cursor s) [] s
