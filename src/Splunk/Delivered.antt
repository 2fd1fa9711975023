-- ===== src/Splunk/Delivered.antt =====
-- What the collector accepts of a sweep, and that it ends.
use mathlib.Core.List.{append-nil, append_assoc}
use cost_ai_grid_poc.Prelude.{
  ℕ, zero, suc, ◌+◌, ◌*◌, ◌≤◌, ◌≡◌, refl, sym, ap, ◌∙◌, inl, inr, true, Option, some, List, [], ◌∷◌,
  ◌++◌, ltb, leb, length, Bool-cases, arith,
}
use cost_ai_grid_poc.Models.{RawEvent}
use cost_ai_grid_poc.Store.{Store, splunk_cursor, advance_splunk_cursor, raw_events_since}
use cost_ai_grid_poc.Splunk.{last_id, post, forward_rounds, forward_sweep}
use cost_ai_grid_poc.Splunk.Pending.{IsAscending, pending, length-pending, drop_short}
use cost_ai_grid_poc.Splunk.Rounds.{List-cases, raw_events_since-pending, take_none, take-IsBatch}

module _ {D : Type 0} (batch_size : ℕ) (answers : ℕ → Option ℕ) where
  -- The rounds end, what is accepted of them on top of `accepted` is what is pending no more, and that is all
  -- of it if every post is accepted.
  abbrev Delivers : ℕ → ℕ → ℕ → List RawEvent → Store D → Type 0
  Delivers fuel posts errors accepted s =
      (batch : List RawEvent) × (cursor : ℕ) × (forward_rounds batch_size answers fuel posts errors
          s.splunk_cursor accepted s
        ≡ some (accepted ++ batch, record s { splunk_cursor = cursor }))
      × (batch ++ pending cursor s.raw_events ≡ pending s.splunk_cursor s.raw_events)
      × (s.splunk_cursor ≤ cursor)
      × (((k : ℕ) → post (answers k) ≡ true) → pending cursor s.raw_events ≡ [])

  stopped :
      (accepted : List RawEvent) (s : Store D)
      → ◌≡◌ {A = Option (List RawEvent × Store D)}
          (some (accepted, s))
          (some (accepted ++ [], record s { splunk_cursor = s.splunk_cursor }))
  stopped accepted s = ap (λ xs. some (xs, s)) (sym (append-nil accepted))

  forward_rounds-Delivers :
      (fuel posts errors : ℕ) (accepted : List RawEvent) (s : Store D)
      → IsAscending 0 s.raw_events
      → 1 ≤ batch_size
      → errors ≤ 2
      → 3 * length (pending s.splunk_cursor s.raw_events) + 3 ≤ fuel + errors
      → Delivers fuel posts errors accepted s
  unfolding forward_rounds advance_splunk_cursor
  forward_rounds-Delivers zero posts errors accepted s h p l m = absurd (omega arith)
  forward_rounds-Delivers (suc fuel) posts errors accepted s h p l m =
      let es = s.raw_events in
      elim (List-cases (raw_events_since s s.splunk_cursor batch_size)) [
        | inl n ↦
            let z =
              take_none batch_size (pending s.splunk_cursor es) p
                (sym (raw_events_since-pending s s.splunk_cursor batch_size h) ∙ n) in
            rw (n, forward_rounds)
              ([], s.splunk_cursor, stopped accepted s, refl, omega arith, λ _. z)
        | inr (e, xs, q) ↦
            let b = sym (raw_events_since-pending s s.splunk_cursor batch_size h) ∙ q in
            let (r, a, d, c) = take-IsBatch batch_size s.splunk_cursor es e xs h p b in
            let max_id = last_id e.id xs in
            let s' : Store D = record s { splunk_cursor = max_id } in
            elim (Bool-cases (post (answers posts))) [
              | inl t ↦ elim (Bool-cases (ltb (length (e ∷ xs)) batch_size)) [
                | inl u ↦
                    rw (q, forward_rounds, t, u)
                      (
                        e ∷ xs,
                        max_id,
                        refl,
                        a,
                        c,
                        λ _. r ∙ drop_short batch_size (pending s.splunk_cursor es) (rw b u),
                      )
                | inr u ↦
                    let (b, c', i, j, k, z) =
                      forward_rounds-Delivers fuel (suc posts) 0 (accepted ++ e ∷ xs) s' h p
                        (omega arith) (omega (arith, d)) in
                    rw (q, forward_rounds, t, u)
                      (
                        (e ∷ xs) ++ b,
                        c',
                        i
                            ∙ ap (λ ys. some (ys, record s { splunk_cursor = c' }))
                                (append_assoc accepted (e ∷ xs) b),
                        append_assoc (e ∷ xs) b (pending c' es) ∙ ap (λ ys. (e ∷ xs) ++ ys) j ∙ a,
                        omega (arith, c, k),
                        z,
                      )
              ]
              | inr t ↦ elim (Bool-cases (leb 3 (suc errors))) [
                | inl u ↦
                    rw (q, forward_rounds, t, u)
                      (
                        [],
                        s.splunk_cursor,
                        stopped accepted s,
                        refl,
                        omega arith,
                        λ f. absurd (cc (t, f posts)),
                      )
                | inr u ↦
                    rw (q, forward_rounds, t, u)
                      (forward_rounds-Delivers fuel (suc posts) (suc errors) accepted s h p
                        (ground arith) (omega arith))
              ]
            ]
      ]

  sweep-Delivers :
      (s : Store D)
      → IsAscending 0 s.raw_events
      → 1 ≤ batch_size
      → Delivers (4 + 3 * length s.raw_events) 0 0 [] s
  sweep-Delivers s h p =
      forward_rounds-Delivers (4 + 3 * length s.raw_events) 0 0 [] s h p (omega arith)
        (omega (arith, length-pending s.splunk_cursor s.raw_events))

-- A sweep over raw events whose ids ascend, in batches of one event at least, ends, whatever the
-- collector answers. It only moves the cursor, forward, and the events that the collector accepted,
-- by an answer of 200 or 201, followed by those that are pending behind the new cursor are those
-- that were pending, in the order of the ids. A batch that is not accepted is posted again.
pub forward_sweep_delivers :
    {D : Type 0} (batch_size : ℕ) (answers : ℕ → Option ℕ) (s : Store D)
    → IsAscending 0 s.raw_events
    → 1 ≤ batch_size
    → (accepted : List RawEvent) × (cursor : ℕ) × (forward_sweep batch_size answers s
        ≡ some (accepted, record s { splunk_cursor = cursor }))
      × (accepted ++ pending cursor s.raw_events ≡ pending s.splunk_cursor s.raw_events)
      × (s.splunk_cursor ≤ cursor)
unfolding forward_sweep splunk_cursor
forward_sweep_delivers batch_size answers s h p =
    let (accepted, c, e, d, l, _) = sweep-Delivers batch_size answers s h p in
    (accepted, c, e, d, l)

-- If the collector accepts every post, a sweep over raw events whose ids ascend, in batches of one
-- event at least, sends all events behind the cursor, and none is pending afterwards.
pub forward_sweep_complete :
    {D : Type 0} (batch_size : ℕ) (answers : ℕ → Option ℕ) (s : Store D)
    → IsAscending 0 s.raw_events
    → 1 ≤ batch_size
    → ((k : ℕ) → post (answers k) ≡ true)
    → (cursor : ℕ) × (forward_sweep batch_size answers s
        ≡ some (pending s.splunk_cursor s.raw_events, record s { splunk_cursor = cursor }))
      × (pending cursor s.raw_events ≡ [])
unfolding forward_sweep splunk_cursor
forward_sweep_complete batch_size answers s h p f =
    let (accepted, c, e, d, l, z) = sweep-Delivers batch_size answers s h p in
    let q : accepted ≡ pending s.splunk_cursor s.raw_events =
      sym (append-nil accepted) ∙ sym (ap (λ ys. accepted ++ ys) (z f)) ∙ d in
    (c, e ∙ ap (λ ys. some (ys, record s { splunk_cursor = c })) q, z f)
