-- ===== src/Api/Events/Once.antt =====
-- Each event that is ingested has one raw event.
use mathlib.Core.Path.{subst}
use cost_ai_grid_poc.Prelude.{
  ℕ, ◌+◌, ◌≡◌, refl, sym, ap₂, ◌∙◌, eq_iff, inl, inr, String, Bool, true, false, ◌&&◌, none, List,
  [], ◌∷◌, ◌++◌, str_eq, length, if◌then◌else◌, where_rows, find_row, any_row, Bool-cases,
  Option-cases, Result-cases, ok, arith,
}
use cost_ai_grid_poc.Prelude.Rows.{find_row-none, find_row-any, any_row-last}
use cost_ai_grid_poc.Models.{RawEvent}
use cost_ai_grid_poc.Store.{Store, Receipt, same_event, claim_ingestion_receipt}
use cost_ai_grid_poc.Store.Events.Receipts.{new_receipt}
use cost_ai_grid_poc.Api.Events.CloudEvents.{CloudEvent, EventHandler}
use cost_ai_grid_poc.Api.Events.Validate.{identify}
use cost_ai_grid_poc.Api.Events.Process.{
  raw_event, process_event, process_claimed, validate_all, in_transaction, process_events,
}
use cost_ai_grid_poc.Api.Events.Process.Loop.{
  claim_cases, IsClaimed, process_event-receipts, loop-IsClaimed, accepted,
}
use cost_ai_grid_poc.Api.Events.Recorded.{process_event-raw}
use cost_ai_grid_poc.Api.Events.Replay.{Among, from_batch}

abbrev pub is_record : String → String → RawEvent → Bool
is_record source id e = str_eq e.event_source source && str_eq e.event_id id

-- how many raw events an event has
abbrev pub records : String → String → List RawEvent → ℕ
records source id es = length (where_rows (is_record source id) es)

abbrev pub claims : String → String → List Receipt → ℕ
claims source id rs = if any_row (same_event source id) rs then 1 else 0

-- an event has one raw event if it has a receipt, and else none
abbrev pub IsRecorded : {D : Type 0} → String → String → Store D → Type 0
IsRecorded source id s = records source id s.raw_events ≡ claims source id s.receipts

module _ {A : Type 0} where
  length-where_last :
      (p : A → Bool) (xs : List A) (x : A)
      → length (where_rows p (xs ++ x ∷ [])) ≡ length (where_rows p xs) + (if p x then 1 else 0)
  length-where_last p [] x = ground arith
  length-where_last p (y ∷ ys) x = elim (Bool-cases (p y)) [
    | inl t ↦ rw t (omega (arith, length-where_last p ys x))
    | inr n ↦ rw n (length-where_last p ys x)
  ]

  any_row-other :
      (p : A → Bool) (xs : List A) (x : A) → p x ≡ false → any_row p (xs ++ x ∷ []) ≡ any_row p xs
  any_row-other p [] x n = rw n refl
  any_row-other p (y ∷ ys) x n = rw (any_row-other p ys x n) refl

same_names :
    (a b source id : String) → (str_eq a source && str_eq b id) ≡ true → (a ≡ source) × (b ≡ id)
same_names a b source id h = elim (Bool-cases (str_eq a source)) [
  | inr n ↦ let e : false ≡ true = rw n at h in absurd (cc e)
  | inl t ↦ let e : str_eq b id ≡ true = rw t at h in ((eq_iff _ _).0 t, (eq_iff _ _).0 e)
]

-- a raw event and a receipt of one event, at the ends of their tables
record_more :
    (es : List RawEvent) (rs : List Receipt) (raw : RawEvent) (row : Receipt) (source id : String)
    → raw.event_source ≡ row.source
    → raw.event_id ≡ row.event_id
    → find_row (same_event row.source row.event_id) rs ≡ none
    → records source id es ≡ claims source id rs
    → records source id (es ++ raw ∷ []) ≡ claims source id (rs ++ row ∷ [])
record_more es rs raw row source id a b f h =
    let same : is_record source id raw ≡ same_event source id row =
      ap₂ (λ x y. str_eq x source && str_eq y id) a b in
    let m = length-where_last (is_record source id) es raw in
    elim (Bool-cases (same_event source id row)) [
      | inr n ↦
          let m' : records source id (es ++ raw ∷ []) ≡ records source id es + 0 =
            rw (same ∙ n) at m in
          rw (any_row-other (same_event source id) rs row n) (omega (arith, m', h))
      | inl t ↦
          let m' : records source id (es ++ raw ∷ []) ≡ records source id es + 1 =
            rw (same ∙ t) at m in
          let (p, q) = same_names row.source row.event_id source id t in
          let new : any_row (same_event source id) rs ≡ false =
            ap₂ (λ x y. any_row (same_event x y) rs) (sym p) (sym q)
            ∙ find_row-none (same_event row.source row.event_id) rs f in
          let h' : records source id es ≡ 0 = rw new at h in
          rw (any_row-last (same_event source id) rs row t) (omega (arith, m', h'))
    ]

module _ {D : Type 0} (h : EventHandler) (source id : String) where
  process_event-IsRecorded :
      (ce : CloudEvent) (s : Store D)
      → find_row (same_event ce.source ce.id) s.receipts ≡ none
      → IsRecorded source id s
      → IsRecorded source id
          (process_event h ce (record s {
            receipts = s.receipts ++ new_receipt ce.source ce.id (h.digest ce) ∷ [];
          })).1
  process_event-IsRecorded ce s f r =
      let row = new_receipt ce.source ce.id (h.digest ce) in
      let t : Store D = record s { receipts = s.receipts ++ row ∷ [] } in
      let raw : RawEvent = record (raw_event ce (identify h ce)) { id = t.next_raw_id } in
      rw (process_event-raw h ce t, process_event-receipts h ce t)
        (record_more s.raw_events s.receipts raw row source id refl refl f r)

  -- a claim that is replayed or new
  claim_replayed :
      (ce : CloudEvent) (s : Store D) {t : Store D}
      → claim_ingestion_receipt ce.source ce.id (h.digest ce) s ≡ ok (false, t)
      → t ≡ s
  claim_replayed ce s m = elim (claim_cases ce.source ce.id (h.digest ce) s m) [
    | inl (_, e, _, _, _) ↦ e
    | inr (b, _, _) ↦ absurd (cc b)
  ]

  claim_new :
      (ce : CloudEvent) (s : Store D) {t : Store D}
      → claim_ingestion_receipt ce.source ce.id (h.digest ce) s ≡ ok (true, t)
      → (find_row (same_event ce.source ce.id) s.receipts ≡ none)
        × (t ≡ record s { receipts = s.receipts ++ new_receipt ce.source ce.id (h.digest ce) ∷ [] })
  claim_new ce s m = elim (claim_cases ce.source ce.id (h.digest ce) s m) [
    | inl (b, _, _, _, _) ↦ absurd (cc b)
    | inr (_, n, e) ↦ (n, e)
  ]

  process_claimed-IsRecorded :
      (ces : List CloudEvent) (s : Store D)
      → IsRecorded source id s
      → IsRecorded source id (process_claimed h ces s).1
  unfolding process_claimed
  process_claimed-IsRecorded [] s r = r
  process_claimed-IsRecorded (ce ∷ ces) s r =
      elim (Result-cases (claim_ingestion_receipt ce.source ce.id (h.digest ce) s)) [
        | inr (e, m) ↦ rw (m, process_claimed) r
        | inl ((false, t), m) ↦
            rw (m, process_claimed)
              (process_claimed-IsRecorded ces t
                (subst (IsRecorded source id) (sym (claim_replayed ce s m)) r))
        | inl ((true, t), m) ↦
            let (n, e) = claim_new ce s m in
            let k : IsRecorded source id (process_event h ce t).1 =
              subst (λ u. IsRecorded source id (process_event h ce u).1) (sym e)
                (process_event-IsRecorded ce s n r) in
            elim (Option-cases (process_event h ce t).0) [
              | inr (x, f) ↦ rw (m, process_claimed, f) k
              | inl f ↦
                  rw (m, process_claimed, f)
                    (process_claimed-IsRecorded ces (process_event h ce t).1 k)
            ]
      ]

  -- If the raw events of a source and an id are one where there is a receipt of them, and else none,
  -- this is so after a batch, be it accepted or not.
  pub process_events-IsRecorded :
      (now : ℕ) (ces : List CloudEvent) (s : Store D)
      → IsRecorded source id s
      → IsRecorded source id (process_events h now ces s).1
  unfolding process_events in_transaction
  process_events-IsRecorded now ces s r = elim (Option-cases (validate_all h now ces)) [
    | inr (e, v) ↦ rw (v, process_events) r
    | inl v ↦ elim (Option-cases (process_claimed h ces s).0) [
      | inr (e, f) ↦ rw (v, process_events, f) r
      | inl f ↦ rw (v, process_events, f) (process_claimed-IsRecorded ces s r)
    ]
  ]

-- After a batch is accepted, each event of it has exactly one raw event with its source and id,
-- however often the batch has it, if before the batch there was one or none, as there was a receipt
-- of it or not.
pub process_events_once :
    {D : Type 0} (h : EventHandler) (now : ℕ) (ces : List CloudEvent) (ce : CloudEvent)
    (s : Store D) {s' : Store D}
    → process_events h now ces s ≡ (none, s')
    → Among h ces ce
    → IsRecorded ce.source ce.id s
    → records ce.source ce.id s'.raw_events ≡ 1
process_events_once h now ces ce s {s' = s'} e m r =
    let (_, c) = accepted h now ces s e in
    let (claimed, _) = loop-IsClaimed h ces s c in
    let (row, f, _) = from_batch h (IsClaimed h s'.receipts) ces ce claimed m in
    let there : any_row (same_event ce.source ce.id) s'.receipts ≡ true =
      find_row-any (same_event ce.source ce.id) s'.receipts f in
    let k : IsRecorded ce.source ce.id s' =
      subst (λ x. IsRecorded ce.source ce.id x.1) e
        (process_events-IsRecorded h ce.source ce.id now ces s r) in
    rw there at k
