-- ===== src/Api/Events/Recorded.antt =====
-- The raw events that a batch leaves in the store.
use mathlib.Core.List.{append-nil, append_assoc}
use cost_ai_grid_poc.Prelude.{
  ℕ, ◌≡◌, sym, ap, ◌∙◌, inl, inr, Bool, true, false, none, some, List, [], ◌∷◌, ◌++◌, Option-cases,
  Result-cases, All, ok,
}
use cost_ai_grid_poc.Models.{RawEvent}
use cost_ai_grid_poc.Store.{Store, claim_ingestion_receipt, insert_raw_event}
use cost_ai_grid_poc.Api.Events.CloudEvents.{CloudEvent, EventHandler, invalid, collision}
use cost_ai_grid_poc.Api.Events.Validate.{Identity, identify, validate_cloud_event}
use cost_ai_grid_poc.Api.Events.Validate.Accepted.{
  IsIdentified, IsTimely, validate_cloud_event-IsTimely,
}
use cost_ai_grid_poc.Api.Events.Process.{
  raw_event, process_event, process_claimed, validate_all, process_events,
}
use cost_ai_grid_poc.Api.Events.Process.Keeps.{dispatch-Leaves}
use cost_ai_grid_poc.Api.Events.Process.Loop.{claim_cases, loop-nil, accepted}

-- the identity that a raw event has
abbrev pub identity_of : RawEvent → Identity
identity_of e = record {
  resource_type = e.resource_type;
  resource_id = e.resource_id;
  tenant_id = e.tenant_id;
}

-- a raw event of an event that was accepted at an instant
abbrev pub IsAccepted : ℕ → RawEvent → Type 0
IsAccepted now e = IsTimely now e.event_time × IsIdentified (identity_of e)

no_more : (a b c new : List RawEvent) → b ≡ a → c ≡ b ++ new → c ≡ a ++ new
no_more a b c new p q = q ∙ ap (λ es. es ++ new) p

one_more :
    (a b c d : List RawEvent) (raw : RawEvent) (new : List RawEvent)
    → b ≡ a
    → c ≡ b ++ raw ∷ []
    → d ≡ c ++ new
    → d ≡ a ++ raw ∷ new
one_more a b c d raw new p q r =
    r ∙ ap (λ es. es ++ new) (q ∙ ap (λ es. es ++ raw ∷ []) p) ∙ append_assoc a (raw ∷ []) new

module _ (h : EventHandler) where
  claim_keeps :
      {D : Type 0} (ce : CloudEvent) (s : Store D) {new : Bool} {s' : Store D}
      → claim_ingestion_receipt ce.source ce.id (h.digest ce) s ≡ ok (new, s')
      → s'.raw_events ≡ s.raw_events
  claim_keeps ce s c = elim (claim_cases ce.source ce.id (h.digest ce) s c) [
    | inl (_, e, _, _, _) ↦ ap (λ u. u.raw_events) e
    | inr (_, _, e) ↦ ap (λ u. u.raw_events) e
  ]

  pub process_event-raw :
      {D : Type 0} (ce : CloudEvent) (s : Store D)
      → (process_event h ce s).1.raw_events
        ≡ s.raw_events ++ record (raw_event ce (identify h ce)) { id = s.next_raw_id } ∷ []
  unfolding process_event insert_raw_event
  process_event-raw ce s =
      ap (λ r. r.0) (dispatch-Leaves h ce (insert_raw_event (raw_event ce (identify h ce)) s))

  -- what a loop that succeeds leaves, after what was there
  abbrev Extends : {D : Type 0} → ℕ → Store D → Store D → Type 0
  Extends now s s' =
      (new : List RawEvent) × (s'.raw_events ≡ s.raw_events ++ new) × All (IsAccepted now) new

  -- the rest of a valid list
  rest_valid :
      (now : ℕ) (ce : CloudEvent) (ces : List CloudEvent)
      → validate_all h now (ce ∷ ces) ≡ none
      → (validate_cloud_event h now ce ≡ none) × (validate_all h now ces ≡ none)
  unfolding validate_all
  rest_valid now ce ces v = elim (Option-cases (validate_cloud_event h now ce)) [
    | inr (e, m) ↦ let q : some (invalid e) ≡ none = rw (m, validate_all) at v in absurd (cc q)
    | inl m ↦ let q : validate_all h now ces ≡ none = rw (m, validate_all) at v in (m, q)
  ]

  loop-Extends :
      {D : Type 0} (now : ℕ) (ces : List CloudEvent) (s : Store D) {s' : Store D}
      → validate_all h now ces ≡ none
      → process_claimed h ces s ≡ (none, s')
      → Extends now s s'
  unfolding process_claimed
  loop-Extends now [] s v c =
      ([], ap (λ u. u.raw_events) (sym (loop-nil h s c)) ∙ sym (append-nil s.raw_events), tt)
  loop-Extends now (ce ∷ ces) s {s' = s'} v c =
      let (valid, rest) = rest_valid now ce ces v in
      elim (Result-cases (claim_ingestion_receipt ce.source ce.id (h.digest ce) s)) [
        | inr (e, m) ↦
            let q : (some (collision e), s) ≡ (none, s') = rw (m, process_claimed) at c in
            absurd (cc q)
        | inl ((false, t), m) ↦
            let q : process_claimed h ces t ≡ (none, s') = rw (m, process_claimed) at c in
            let (new, e, a) = loop-Extends now ces t rest q in
            (new, no_more s.raw_events t.raw_events s'.raw_events new (claim_keeps ce s m) e, a)
        | inl ((true, t), m) ↦ elim (Option-cases (process_event h ce t).0) [
          | inr (y, f) ↦
              let q : (some y, (process_event h ce t).1) ≡ (none, s') =
                rw (m, process_claimed, f) at c in
              absurd (cc q)
          | inl f ↦
              let u = (process_event h ce t).1 in
              let q : process_claimed h ces u ≡ (none, s') = rw (m, process_claimed, f) at c in
              let (new, e, a) = loop-Extends now ces u rest q in
              (
                record (raw_event ce (identify h ce)) { id = t.next_raw_id } ∷ new,
                one_more s.raw_events t.raw_events u.raw_events s'.raw_events
                    (record (raw_event ce (identify h ce)) { id = t.next_raw_id }) new
                    (claim_keeps ce s m) (process_event-raw ce t) e,
                (validate_cloud_event-IsTimely h now ce valid, a),
              )
        ]
      ]

  -- A batch that is accepted adds raw events at the end of the table, each of which has a resource
  -- and a tenant, of at most 256 bytes, and a time from two hours before to five minutes after the
  -- batch came.
  pub process_events-Extends :
      {D : Type 0} (now : ℕ) (ces : List CloudEvent) (s : Store D) {s' : Store D}
      → process_events h now ces s ≡ (none, s')
      → (new : List RawEvent) × (s'.raw_events ≡ s.raw_events ++ new) × All (IsAccepted now) new
  process_events-Extends now ces s e =
      let (v, c) = accepted h now ces s e in loop-Extends now ces s v c
