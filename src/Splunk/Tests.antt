-- ===== src/Splunk/Tests.antt =====
-- Runs of the forwarder.
use cost_ai_grid_poc.Prelude.{
  ℕ, zero, suc, ◌≤◌, ◌≡◌, refl, true, Option, none, some, List, [], ◌∷◌, ◌++◌, arith,
}
use cost_ai_grid_poc.Prelude.Int.{ℤ}
use cost_ai_grid_poc.Models.{RawEvent}
use cost_ai_grid_poc.Store.{Store, splunk_cursor, raw_events_since, advance_splunk_cursor}
use cost_ai_grid_poc.Fixtures.{store}
use cost_ai_grid_poc.Splunk.{post, forward_sweep}
use cost_ai_grid_poc.Splunk.Pending.{IsAscending, pending}
use cost_ai_grid_poc.Splunk.Delivered.{forward_sweep_delivers, forward_sweep_complete}

abbrev raw : ℕ → RawEvent
raw n = record {
  id = n;
  event_id = "e";
  event_type = "osac.vm";
  event_source = "osac";
  event_time = n;
  tenant_id = "acme";
  resource_type = "compute_instance";
  resource_id = "i1";
}

-- four events, the first of which is sent
abbrev sending : Store ℤ
sending = record store {
  raw_events = raw 1 ∷ raw 2 ∷ raw 5 ∷ raw 6 ∷ [];
  next_raw_id = 7;
  splunk_cursor = 1;
}

-- a collector that fails once and is busy once
abbrev shaky : ℕ → Option ℕ
shaky zero = none
shaky (suc zero) = some 503
shaky (suc (suc k)) = some 200

abbrev up : ℕ → Option ℕ
up k = some 201

sent_after_errors :
    forward_sweep 2 shaky sending
    ≡ some (raw 2 ∷ raw 5 ∷ raw 6 ∷ [], record sending { splunk_cursor = 6 })
unfolding forward_sweep raw_events_since splunk_cursor advance_splunk_cursor post
sent_after_errors = refl

given_up : forward_sweep 2 (λ _. some 503) sending ≡ some ([], sending)
unfolding forward_sweep raw_events_since splunk_cursor advance_splunk_cursor post
given_up = refl

sending_ascends : IsAscending 0 sending.raw_events
sending_ascends = (omega arith, (omega arith, (omega arith, (omega arith, tt))))

forward_sweep_delivers_example :
    (accepted : List RawEvent) × (cursor : ℕ) × (forward_sweep 2 shaky sending
      ≡ some (accepted, record sending { splunk_cursor = cursor }))
    × (accepted ++ pending cursor sending.raw_events ≡ pending 1 sending.raw_events)
    × (1 ≤ cursor)
forward_sweep_delivers_example =
    forward_sweep_delivers 2 shaky sending sending_ascends (omega arith)

up_accepts : (k : ℕ) → post (up k) ≡ true
unfolding post
up_accepts k = refl

forward_sweep_complete_example :
    (cursor : ℕ) × (forward_sweep 2 up sending
      ≡ some (raw 2 ∷ raw 5 ∷ raw 6 ∷ [], record sending { splunk_cursor = cursor }))
    × (pending cursor sending.raw_events ≡ [])
forward_sweep_complete_example =
    forward_sweep_complete 2 up sending sending_ascends (omega arith) up_accepts
