-- ===== src/Store/Events/Receipts.antt =====
-- An event is processed at most once: a receipt is claimed at most once.
use mathlib.Core.Path.{subst}
use cost_ai_grid_poc.Prelude.{
  ◌≡◌, refl, sym, ap, ◌∙◌, inl, inr, String, Bool, true, false, none, some, [], ◌∷◌, ◌++◌, str_eq,
  eq_iff, eq_refl, find_row, ok, err, Bool-cases, Option-cases,
}
use cost_ai_grid_poc.Prelude.Rows.{find_row-last}
use cost_ai_grid_poc.Store.Tables.{Store, Receipt}
use cost_ai_grid_poc.Store.Events.{receipt_collision, same_event, claim_ingestion_receipt}

abbrev pub new_receipt : String → String → String → Receipt
new_receipt source id d = record { source = source; event_id = id; digest = d }

module _ {D : Type 0} where
  -- what a table with a receipt answers
  answers :
      (source id d : String) (s : Store D) {r : Receipt}
      → find_row (same_event source id) s.receipts ≡ some r
      → str_eq r.digest d ≡ true
      → (claim_ingestion_receipt source id d s ≡ ok (false, s))
        × ((e : String)
            → str_eq r.digest e ≡ false
            → claim_ingestion_receipt source id e s ≡ err (receipt_collision source id))
  unfolding claim_ingestion_receipt
  answers source id d s f t =
      (rw (claim_ingestion_receipt, f, t) refl, λ e n. rw (claim_ingestion_receipt, f, n) refl)

  claimed_new :
      (source id d : String) (s : Store D)
      → find_row (same_event source id) s.receipts ≡ none
      → claim_ingestion_receipt source id d s
        ≡ ok (true, record s { receipts = s.receipts ++ new_receipt source id d ∷ [] })
  unfolding claim_ingestion_receipt
  claimed_new source id d s f = rw (claim_ingestion_receipt, f) refl

  kept :
      (source id d : String) (s : Store D)
      → find_row (same_event source id) s.receipts ≡ none
      → find_row (same_event source id) (s.receipts ++ new_receipt source id d ∷ [])
        ≡ some (new_receipt source id d)
  kept source id d s f =
      find_row-last (same_event source id) s.receipts (new_receipt source id d) f
        (rw (eq_refl source, eq_refl id) refl)

  pub refused :
      (source id d : String) (s : Store D) {r : Receipt}
      → find_row (same_event source id) s.receipts ≡ some r
      → str_eq r.digest d ≡ false
      → claim_ingestion_receipt source id d s ≡ err (receipt_collision source id)
  unfolding claim_ingestion_receipt
  refused source id d s f n = rw (claim_ingestion_receipt, f, n) refl

  abbrev IsReplayed : String → String → String → Store D → Type 0
  IsReplayed source id d s =
      (claim_ingestion_receipt source id d s ≡ ok (false, s))
      × ((e : String)
          → str_eq d e ≡ false
          → claim_ingestion_receipt source id e s ≡ err (receipt_collision source id))

  -- Once a claim of a receipt has succeeded, as a new receipt or as a replay, every later claim
  -- with the digest is a replay that changes nothing, and a claim with another digest is refused
  -- as a collision.
  pub claim_ingestion_receipt_once :
      (source id d : String) (s : Store D) {new : Bool} {s' : Store D}
      → claim_ingestion_receipt source id d s ≡ ok (new, s')
      → (claim_ingestion_receipt source id d s' ≡ ok (false, s'))
        × ((e : String)
            → str_eq d e ≡ false
            → claim_ingestion_receipt source id e s' ≡ err (receipt_collision source id))
  claim_ingestion_receipt_once source id d s {new} {s'} h =
      elim (Option-cases (find_row (same_event source id) s.receipts)) [
        | inl f ↦
            let s1 : Store D = record s { receipts = s.receipts ++ new_receipt source id d ∷ [] } in
            let e : ok (true, s1) ≡ ok (new, s') = sym (claimed_new source id d s f) ∙ h in
            let q : s1 ≡ s' = cc e in
            subst (IsReplayed source id d) q
              (answers source id d s1 (kept source id d s f) (eq_refl d))
        | inr (r, f) ↦ elim (Bool-cases (str_eq r.digest d)) [
          | inl t ↦
              let (again, other) = answers source id d s f t in
              let e : ok (false, s) ≡ ok (new, s') = sym again ∙ h in
              let q : s ≡ s' = cc e in
              let same : r.digest ≡ d = (eq_iff _ _).0 t in
              subst (IsReplayed source id d) q
                (again, λ e n. other e (ap (λ i. str_eq i e) same ∙ n))
          | inr n ↦
              let e : err (receipt_collision source id) ≡ ok (new, s') =
                sym (refused source id d s f n) ∙ h in
              absurd (cc e)
        ]
      ]
