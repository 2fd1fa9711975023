-- ===== src/Agent/Emitter.antt =====
-- The delivery of the agent's events: kube-cost-agent/internal/emitter/emitter.go. The channel is
-- a queue of at most twice the batch size. Which case of the loop of Start runs is the choice of the
-- runtime, so the states that it comes to are a relation. The answers of the consumer, to each
-- attempt to send an event, are a parameter.
pub mod Conserved
use cost_ai_grid_poc.Prelude.{
  ℕ, zero, suc, ◌+◌, ◌*◌, ◌≡◌, Bool, true, false, ◌&&◌, Option, none, some, List, [], ◌∷◌, ◌++◌,
  ltb, leb, length, map, if◌then◌else◌,
}

-- whether a response is one of success, 2xx
unfoldable pub is_success : Option ℕ → Bool
is_success none = false
is_success (some status) = leb 200 status && ltb status 300

-- The attempts of `sendWithRetry` from one of them on: whether the event was accepted, and how many
-- attempts were made.
unfoldable pub send_attempts : (ℕ → Option ℕ) → ℕ → ℕ → Bool × ℕ
send_attempts answer zero made = (false, made)
send_attempts answer (suc left) made =
    let retry = send_attempts answer left (suc made) in
    if is_success (answer made) then (true, suc made) else retry

abbrev pub max_attempts : ℕ
max_attempts = 3

unfoldable pub send_with_retry : (ℕ → Option ℕ) → Bool × ℕ
unfolding send_attempts
send_with_retry answer = send_attempts answer max_attempts 0

-- the channel, the batch, the events that were sent, each with whether it was accepted, and those
-- that were dropped
pub record Emitter (E : Type 0) : Type 0 where
  pub event_ch : List E
  pub batch : List E
  pub sent : List (E × Bool)
  pub dropped : List E

module _ {E : Type 0} (batch_size : ℕ) (answers : E → ℕ → Option ℕ) where
  -- `New` and the start of `Start`
  abbrev pub new_emitter : Emitter E
  new_emitter = record { event_ch = []; batch = []; sent = []; dropped = [] }

  -- an event is dropped when the channel is full
  unfoldable pub emit : E → Emitter E → Emitter E
  emit ce e =
      if ltb (length e.event_ch) (batch_size * 2)
      then record e { event_ch = e.event_ch ++ ce ∷ [] }
      else record e { dropped = e.dropped ++ ce ∷ [] }

  -- each event of the batch is sent, in its order
  unfoldable pub flush : Emitter E → Emitter E
  unfolding send_with_retry
  flush e = record e {
    sent = e.sent ++ map (λ ce. (ce, (send_with_retry (answers ce)).0)) e.batch;
    batch = [];
  }

  -- `case ev := <-e.eventCh`, on the event that was received and the rest of the channel
  unfoldable pub receive : E → List E → Emitter E → Emitter E
  unfolding flush
  receive ev rest e =
      let e1 = record e { event_ch = rest; batch = e.batch ++ ev ∷ [] } in
      if leb batch_size (length e1.batch) then flush e1 else e1

  -- `case <-ticker.C`, and the flush before the exit
  unfoldable pub tick : Emitter E → Emitter E
  unfolding flush
  tick e = if ltb 0 (length e.batch) then flush e else e

  -- the states that the emitter comes to, with the events that were emitted until then
  pub data Reaches : List E → Emitter E → Type 0 where
    starts : Reaches [] new_emitter
    emitted :
        (ces : List E) (ce : E) (e : Emitter E)
        → Reaches ces e
        → Reaches (ces ++ ce ∷ []) (emit ce e)
    received :
        (ces : List E) (ev : E) (rest : List E) (e : Emitter E)
        → e.event_ch ≡ ev ∷ rest
        → Reaches ces e
        → Reaches ces (receive ev rest e)
    ticked : (ces : List E) (e : Emitter E) → Reaches ces e → Reaches ces (tick e)
