-- ===== src/Agent/Emitter/Conserved.antt =====
-- The emitter keeps the order of the events, and its bounds.
use mathlib.Core.List.{append_assoc}
use cost_ai_grid_poc.Prelude.{
  ℕ, ◌*◌, ◌≤◌, ◌<◌, ◌≡◌, refl, sym, ap, ◌∙◌, inl, inr, Bool, Option, map, List, [], ◌∷◌, ◌++◌, ltb,
  leb, length, length-append, Bool-cases, arith,
}
use cost_ai_grid_poc.Agent.Emitter.{
  Emitter, send_with_retry, emit, flush, receive, tick, Reaches, starts, emitted, received, ticked,
}

-- the events `zs` in their order are those of `xs` and those of `ys`, each in their order
pub data Merges {E : Type 0} : List E → List E → List E → Type 0 where
  merges_nothing : Merges [] [] []
  merges_left :
      (x : E) (xs ys zs : List E) → Merges xs ys zs → Merges (xs ++ x ∷ []) ys (zs ++ x ∷ [])
  merges_right :
      (y : E) (xs ys zs : List E) → Merges xs ys zs → Merges xs (ys ++ y ∷ []) (zs ++ y ∷ [])

module _ {E : Type 0} (batch_size : ℕ) (answers : E → ℕ → Option ℕ) where
  -- the events that were not dropped: those sent, those of the batch, those in the channel
  abbrev pub accepted : Emitter E → List E
  accepted e = map (λ r. r.0) e.sent ++ (e.batch ++ e.event_ch)

  abbrev pub IsConserved : List E → Emitter E → Type 0
  IsConserved ces e =
      Merges (accepted e) e.dropped ces
      × (length e.event_ch ≤ batch_size * 2)
      × (length e.batch < batch_size)

  one_more : (a b c : List E) (x : E) → (a ++ (b ++ c)) ++ x ∷ [] ≡ a ++ (b ++ (c ++ x ∷ []))
  one_more a b c x =
      append_assoc a (b ++ c) (x ∷ []) ∙ ap (λ ys. a ++ ys) (append_assoc b c (x ∷ []))

  -- whether the consumer accepts an event
  abbrev outcome : E → Bool
  outcome ce = (send_with_retry (answers ce)).0

  -- a batch that is sent is added to what was sent
  sent_more :
      (sent : List (E × Bool)) (batch : List E)
      → map (λ r. r.0) (sent ++ map (λ ce. (ce, outcome ce)) batch) ≡ map (λ r. r.0) sent ++ batch
  sent_more [] [] = refl
  sent_more [] (ce ∷ batch) = ap (λ ces. ce ∷ ces) (sent_more [] batch)
  sent_more (r ∷ sent) batch = ap (λ ces. r.0 ∷ ces) (sent_more sent batch)

  emit-IsConserved :
      (ces : List E) (ce : E) (e : Emitter E)
      → IsConserved ces e
      → IsConserved (ces ++ ce ∷ []) (emit batch_size answers ce e)
  unfolding emit
  emit-IsConserved ces ce e (m, l, b) =
      elim (Bool-cases (ltb (length e.event_ch) (batch_size * 2))) [
        | inl t ↦
            let k = merges_left ce (accepted e) e.dropped ces m in
            rw t (
              (rw (one_more (map (λ r. r.0) e.sent) e.batch e.event_ch ce) at k),
              ground (arith, length-append e.event_ch (ce ∷ [])),
              b,
            )
        | inr n ↦ rw n (merges_right ce (accepted e) e.dropped ces m, l, b)
      ]

  receive-IsConserved :
      (ces : List E) (ev : E) (rest : List E) (e : Emitter E)
      → e.event_ch ≡ ev ∷ rest
      → 1 ≤ batch_size
      → IsConserved ces e
      → IsConserved ces (receive batch_size answers ev rest e)
  unfolding receive flush
  receive-IsConserved ces ev rest e q p (m, l, b) =
      let batch = e.batch ++ ev ∷ [] in
      let r : length (ev ∷ rest) ≤ batch_size * 2 = rw q at l in
      let k : Merges (map (λ r. r.0) e.sent ++ (batch ++ rest)) e.dropped ces =
        rw (sym (append_assoc e.batch (ev ∷ []) rest)) at (rw q at m) in
      elim (Bool-cases (leb batch_size (length batch))) [
        | inl t ↦
            rw (t, sent_more e.sent batch)
              (
                (rw (sym (append_assoc (map (λ r. r.0) e.sent) batch rest)) at k),
                omega (arith, r),
                p,
              )
        | inr n ↦ rw n (k, omega (arith, r), ground arith)
      ]

  tick-IsConserved :
      (ces : List E) (e : Emitter E)
      → 1 ≤ batch_size
      → IsConserved ces e
      → IsConserved ces (tick batch_size answers e)
  unfolding tick flush
  tick-IsConserved ces e p (m, l, b) = elim (Bool-cases (ltb 0 (length e.batch))) [
    | inl t ↦
        rw (t, sent_more e.sent e.batch)
          ((rw (sym (append_assoc (map (λ r. r.0) e.sent) e.batch e.event_ch)) at m), l, p)
    | inr n ↦ rw n (m, l, b)
  ]

  -- With a batch size of one at least, in each state that the emitter comes to, the events that
  -- were emitted are, in their order, those that were sent, those of the batch and those in the
  -- channel, merged with those that were dropped; the channel has at most twice the batch size,
  -- and the batch is not full.
  pub Reaches-IsConserved :
      (ces : List E) (e : Emitter E)
      → 1 ≤ batch_size
      → Reaches batch_size answers ces e
      → Merges (map (λ r. r.0) e.sent ++ (e.batch ++ e.event_ch)) e.dropped ces
        × (length e.event_ch ≤ batch_size * 2)
        × (length e.batch < batch_size)
  Reaches-IsConserved _ _ p starts = (merges_nothing, omega arith, p)
  Reaches-IsConserved _ _ p (emitted ces ce e r) =
      emit-IsConserved ces ce e (Reaches-IsConserved ces e p r)
  Reaches-IsConserved ces _ p (received _ ev rest e q r) =
      receive-IsConserved ces ev rest e q p (Reaches-IsConserved ces e p r)
  Reaches-IsConserved ces _ p (ticked _ e r) =
      tick-IsConserved ces e p (Reaches-IsConserved ces e p r)
