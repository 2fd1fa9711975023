-- ===== src/Api/Events/Process/Loop.antt =====
-- The loop of `processEvents`: what it claims, and what it does to claimed events.
use mathlib.Core.Path.{subst}
use cost_ai_grid_poc.Prelude.{
  ℕ, ◌≡◌, refl, sym, ap, inl, inr, ◌⊎◌, String, Bool, true, false, Option, none, some, List, [],
  ◌∷◌, ◌++◌, str_eq, eq_refl, find_row, Bool-cases, Option-cases, Result-cases, All, ok, err,
}
use cost_ai_grid_poc.Prelude.Rows.{find_row-last, find_row-append}
use cost_ai_grid_poc.Store.{
  Store, Receipt, receipt_collision, same_event, claim_ingestion_receipt, insert_raw_event,
}
use cost_ai_grid_poc.Store.Events.Receipts.{new_receipt}
use cost_ai_grid_poc.Api.Events.CloudEvents.{CloudEvent, EventHandler, EventError, collision}
use cost_ai_grid_poc.Api.Events.Validate.{identify}
use cost_ai_grid_poc.Api.Events.Process.{
  raw_event, process_event, process_claimed, roll_back, in_transaction, validate_all,
  process_events,
}
use cost_ai_grid_poc.Api.Events.Process.Keeps.{dispatch-Leaves}

-- what a claim that succeeds does to the receipts
pub claim_cases :
    {D : Type 0} (source id d : String) (s : Store D) {new : Bool} {s' : Store D}
    → claim_ingestion_receipt source id d s ≡ ok (new, s')
    → ((new ≡ false)
        × (s' ≡ s)
        × (r : Receipt) × (find_row (same_event source id) s.receipts ≡ some r)
        × (str_eq r.digest d ≡ true))
      ⊎ ((new ≡ true)
          × (find_row (same_event source id) s.receipts ≡ none)
          × (s' ≡ record s { receipts = s.receipts ++ new_receipt source id d ∷ [] }))
unfolding claim_ingestion_receipt
claim_cases source id d s {new} {s'} h =
    elim (Option-cases (find_row (same_event source id) s.receipts)) [
      | inl n ↦
          let e : ok (true, record s { receipts = s.receipts ++ new_receipt source id d ∷ [] })
              ≡ ok (new, s') =
            rw (n, claim_ingestion_receipt) at h in
          inr (cc e, n, cc e)
      | inr (r, m) ↦ elim (Bool-cases (str_eq r.digest d)) [
        | inl t ↦
            let e : ok (false, s) ≡ ok (new, s') = rw (m, claim_ingestion_receipt, t) at h in
            inl (cc e, cc e, r, m, t)
        | inr n ↦
            let e : err (receipt_collision source id) ≡ ok (new, s') =
              rw (m, claim_ingestion_receipt, n) at h in
            absurd (cc e)
      ]
    ]

module _ (h : EventHandler) where
  -- the receipt of an event is among those of a table
  abbrev pub IsClaimed : List Receipt → CloudEvent → Type 0
  IsClaimed rs ce =
      (r : Receipt) × (find_row (same_event ce.source ce.id) rs ≡ some r)
      × (str_eq r.digest (h.digest ce) ≡ true)

  claim_again :
      {D : Type 0} (ce : CloudEvent) (s : Store D)
      → IsClaimed s.receipts ce
      → claim_ingestion_receipt ce.source ce.id (h.digest ce) s ≡ ok (false, s)
  unfolding claim_ingestion_receipt
  claim_again ce s (r, f, t) = rw (claim_ingestion_receipt, f, t) refl

  pub process_event-receipts :
      {D : Type 0} (ce : CloudEvent) (s : Store D) → (process_event h ce s).1.receipts ≡ s.receipts
  unfolding process_event insert_raw_event
  process_event-receipts ce s =
      ap (λ r. r.1.0) (dispatch-Leaves h ce (insert_raw_event (raw_event ce (identify h ce)) s))

  -- a claim makes the event claimed, and leaves the others so
  claim-IsClaimed :
      {D : Type 0} (ce : CloudEvent) (s : Store D) {new : Bool} {s' : Store D}
      → claim_ingestion_receipt ce.source ce.id (h.digest ce) s ≡ ok (new, s')
      → IsClaimed s'.receipts ce
        × ((x : CloudEvent) → IsClaimed s.receipts x → IsClaimed s'.receipts x)
  claim-IsClaimed ce s {s' = s'} c = elim (claim_cases ce.source ce.id (h.digest ce) s c) [
    | inl (_, e, r, f, t) ↦ rw e ((r, f, t), λ x k. k)
    | inr (_, n, e) ↦
        let row = new_receipt ce.source ce.id (h.digest ce) in
        rw e (
          (
            row,
            find_row-last (same_event ce.source ce.id) s.receipts row n
                (rw (eq_refl ce.source, eq_refl ce.id) refl),
            eq_refl (h.digest ce),
          ),
          λ x k. (k.0, find_row-append (same_event x.source x.id) s.receipts (row ∷ []) k.1, k.2),
        )
  ]

  -- one round of a loop that succeeds
  loop_step :
      {D : Type 0} (ce : CloudEvent) (ces : List CloudEvent) (s : Store D) {s' : Store D}
      → process_claimed h (ce ∷ ces) s ≡ (none, s')
      → (new : Bool) × (s1 : Store D) × (s2 : Store D) × (claim_ingestion_receipt ce.source ce.id
            (h.digest ce)
            s
          ≡ ok (new, s1))
        × (s2.receipts ≡ s1.receipts)
        × (process_claimed h ces s2 ≡ (none, s'))
  unfolding process_claimed
  loop_step ce ces s {s' = s'} c =
      elim (Result-cases (claim_ingestion_receipt ce.source ce.id (h.digest ce) s)) [
        | inr (e, m) ↦
            let q : (some (collision e), s) ≡ (none, s') = rw (m, process_claimed) at c in
            absurd (cc q)
        | inl ((false, s1), m) ↦
            let q : process_claimed h ces s1 ≡ (none, s') = rw (m, process_claimed) at c in
            (false, s1, s1, m, refl, q)
        | inl ((true, s1), m) ↦ elim (Option-cases (process_event h ce s1).0) [
          | inr (x, f) ↦
              let q : (some x, (process_event h ce s1).1) ≡ (none, s') =
                rw (m, process_claimed, f) at c in
              absurd (cc q)
          | inl f ↦
              let s2 = (process_event h ce s1).1 in
              let q : process_claimed h ces s2 ≡ (none, s') = rw (m, process_claimed, f) at c in
              (true, s1, s2, m, process_event-receipts ce s1, q)
        ]
      ]

  -- what the loop claims
  pub loop-IsClaimed :
      {D : Type 0} (ces : List CloudEvent) (s : Store D) {s' : Store D}
      → process_claimed h ces s ≡ (none, s')
      → All (IsClaimed s'.receipts) ces
        × ((x : CloudEvent) → IsClaimed s.receipts x → IsClaimed s'.receipts x)
  unfolding process_claimed
  loop-IsClaimed [] s {s' = s'} c =
      let e : s ≡ s' = cc c in (tt, λ x k. subst (λ u. IsClaimed u.receipts x) e k)
  loop-IsClaimed (ce ∷ ces) s {s' = s'} c =
      let (b, s1, s2, claim, here, rest) = loop_step ce ces s c in
      let (own, others) = claim-IsClaimed ce s claim in
      let (all, later) = loop-IsClaimed ces s2 rest in
      (
        (later ce (subst (λ rs. IsClaimed rs ce) (sym here) own), all),
        λ x k. later x (subst (λ rs. IsClaimed rs x) (sym here) (others x k)),
      )

  -- a loop over claimed events does nothing
  pub loop_idle :
      {D : Type 0} (ces : List CloudEvent) (s : Store D)
      → All (IsClaimed s.receipts) ces
      → process_claimed h ces s ≡ (none, s)
  unfolding process_claimed
  loop_idle [] s a = refl
  loop_idle (ce ∷ ces) s a = rw (process_claimed, claim_again ce s a.0) (loop_idle ces s a.1)

  -- a transaction that succeeds
  committed :
      {D : Type 0} (s : Store D) (r : Option EventError × Store D) {s' : Store D}
      → roll_back s r ≡ (none, s')
      → r ≡ (none, s')
  committed s (none, t) e = e
  committed s (some x, t) e = absurd (cc e)

  pub loop-nil :
      {D : Type 0} (s : Store D) {s1 : Store D} → process_claimed h [] s ≡ (none, s1) → s ≡ s1
  unfolding process_claimed
  loop-nil s c = cc c

  pub loop_collides :
      {D : Type 0} (ce : CloudEvent) (s : Store D)
      → claim_ingestion_receipt ce.source ce.id (h.digest ce) s
        ≡ err (receipt_collision ce.source ce.id)
      → process_claimed h (ce ∷ []) s ≡ (some (collision (receipt_collision ce.source ce.id)), s)
  unfolding process_claimed
  loop_collides ce s c = rw (c, process_claimed) refl

  -- the parts of a batch that is accepted
  pub accepted :
      {D : Type 0} (now : ℕ) (ces : List CloudEvent) (s : Store D) {s' : Store D}
      → process_events h now ces s ≡ (none, s')
      → (validate_all h now ces ≡ none) × (process_claimed h ces s ≡ (none, s'))
  unfolding process_events in_transaction
  accepted now ces s {s' = s'} e = elim (Option-cases (validate_all h now ces)) [
    | inr (x, v) ↦ let q : (some x, s) ≡ (none, s') = rw (v, process_events) at e in absurd (cc q)
    | inl v ↦
        let q : roll_back s (process_claimed h ces s) ≡ (none, s') = rw (v, process_events) at e in
        (v, committed s (process_claimed h ces s) q)
  ]

  pub accepts :
      {D : Type 0} (now : ℕ) (ces : List CloudEvent) (s : Store D) {s' : Store D}
      → validate_all h now ces ≡ none
      → process_claimed h ces s ≡ (none, s')
      → process_events h now ces s ≡ (none, s')
  unfolding process_events in_transaction
  accepts now ces s v c = rw (v, process_events) (ap (roll_back s) c)
