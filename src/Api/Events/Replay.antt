-- ===== src/Api/Events/Replay.antt =====
-- An event that is delivered again is not processed again.
use mathlib.Core.Path.{subst}
use cost_ai_grid_poc.Prelude.{
  ℕ, ◌≡◌, refl, sym, ap, ap₂, eq_iff, ◌∙◌, inl, inr, ◌⊎◌, false, none, some, List, [], ◌∷◌, str_eq,
  find_row, All,
}
use cost_ai_grid_poc.Store.{Store, receipt_collision, same_event}
use cost_ai_grid_poc.Store.Events.Receipts.{refused}
use cost_ai_grid_poc.Api.Events.CloudEvents.{CloudEvent, EventHandler, collision}
use cost_ai_grid_poc.Api.Events.Validate.{validate_cloud_event}
use cost_ai_grid_poc.Api.Events.Process.{
  roll_back, in_transaction, validate_all, process_events, ingest_event,
}
use cost_ai_grid_poc.Api.Events.Process.Loop.{
  IsClaimed, loop-IsClaimed, loop_idle, loop_collides, accepted, accepts,
}

module _ (h : EventHandler) where
  -- an event of a list
  abbrev pub Among : List CloudEvent → CloudEvent → Type 0
  Among [] ce = ⊥
  Among (x ∷ xs) ce = (ce ≡ x) ⊎ Among xs ce

  pub from_batch :
      (P : CloudEvent → Type 0) (xs : List CloudEvent) (ce : CloudEvent)
      → All P xs
      → Among xs ce
      → P ce
  from_batch P [] ce a m = absurd m
  from_batch P (x ∷ xs) ce a (inl e) = subst P (sym e) a.0
  from_batch P (x ∷ xs) ce a (inr m) = from_batch P xs ce a.1 m

  All-Among :
      (P : CloudEvent → Type 0) (xs ys : List CloudEvent) → All P xs → All (Among xs) ys → All P ys
  All-Among P xs [] a m = tt
  All-Among P xs (y ∷ ys) a m = (from_batch P xs y a m.0, All-Among P xs ys a m.1)

  -- Once a batch is accepted, a later batch of events of it, in any number and order, is accepted
  -- if its events are still valid at that time, and changes nothing.
  pub process_events_replayed :
      {D : Type 0} (now later : ℕ) (ces again : List CloudEvent) (s : Store D) {s' : Store D}
      → process_events h now ces s ≡ (none, s')
      → All (Among ces) again
      → validate_all h later again ≡ none
      → process_events h later again s' ≡ (none, s')
  process_events_replayed now later ces again s {s' = s'} e m v =
      let (_, c) = accepted h now ces s e in
      let (claimed, _) = loop-IsClaimed h ces s c in
      accepts h later again s' v
        (loop_idle h again s' (All-Among (IsClaimed h s'.receipts) ces again claimed m))

  one_valid :
      (now : ℕ) (ce : CloudEvent)
      → validate_cloud_event h now ce ≡ none
      → validate_all h now (ce ∷ []) ≡ none
  unfolding validate_all
  one_valid now ce v = rw (v, validate_all) refl

  -- Once a batch is accepted, a valid event with the source and the id of one of its events and
  -- another digest is refused as a collision, and changes nothing.
  pub ingest_event_collides :
      {D : Type 0} (now later : ℕ) (ces : List CloudEvent) (ce other : CloudEvent) (s : Store D)
      {s' : Store D}
      → process_events h now ces s ≡ (none, s')
      → Among ces ce
      → other.source ≡ ce.source
      → other.id ≡ ce.id
      → str_eq (h.digest ce) (h.digest other) ≡ false
      → validate_cloud_event h later other ≡ none
      → ingest_event h later other s'
        ≡ (some (collision (receipt_collision other.source other.id)), s')
  unfolding ingest_event process_events in_transaction
  ingest_event_collides now later ces ce other s {s' = s'} e m p q n v =
      let (_, c) = accepted h now ces s e in
      let (claimed, _) = loop-IsClaimed h ces s c in
      let (r, f, t) = from_batch (IsClaimed h s'.receipts) ces ce claimed m in
      let g : find_row (same_event other.source other.id) s'.receipts ≡ some r =
        ap₂ (λ a b. find_row (same_event a b) s'.receipts) p q ∙ f in
      let d : str_eq r.digest (h.digest other) ≡ false =
        ap (λ i. str_eq i (h.digest other)) ((eq_iff _ _).0 t) ∙ n in
      let l = loop_collides h other s' (refused other.source other.id (h.digest other) s' g d) in
      rw (one_valid later other v, process_events) (ap (roll_back s') l)
