-- ===== src/Rating/Sweep/Drained.antt =====
-- The rating sweep empties the queue of unrated metering entries.
use cost_ai_grid_poc.Prelude.{
  ℕ, zero, suc, ◌+◌, ◌≤◌, ◌<◌, ◌≡◌, refl, ap, inl, inr, Bool, true, false, ◌||◌, not, List, [], ◌∷◌,
  map, arith, length, take, where_rows, update_rows, ltb, ◌==◌, Bool-cases, All,
}
use cost_ai_grid_poc.Prelude.Rows.{All-map}
use cost_ai_grid_poc.Decimal.{Decimals, Columns}
use cost_ai_grid_poc.Models.{MeteringEntry, CostEntry}
use cost_ai_grid_poc.Store.{
  Store, MeteringRow, any_id, unrated_metering_entries, mark_metering_entries_rated,
  insert_cost_entry, insert_cost_entry_batch, all_active_rates,
}
use cost_ai_grid_poc.Rating.Index.{RateIndex, build_rate_index}
use cost_ai_grid_poc.Rating.Sweep.{
  Rules, UsageCache, rate_entry, rate_entries, rate_batch, rate_batches, rate_queue,
}

abbrev is_unrated : MeteringRow → Bool
is_unrated r = not r.rated

abbrev unrated : List MeteringRow → ℕ
unrated rows = length (where_rows is_unrated rows)

abbrev marked : List ℕ → List MeteringRow → List MeteringRow
marked ids rows = update_rows (λ r. any_id ids r.entry.id) (λ r. record r { rated = true }) rows

-- marking rates at least the rows that it names, of the first ones
marked_le :
    (rows : List MeteringRow) (ids : List ℕ) (n : ℕ)
    → All (λ r. any_id ids r.entry.id ≡ true) (take n (where_rows is_unrated rows))
    → unrated (marked ids rows) + length (take n (where_rows is_unrated rows)) ≤ unrated rows
marked_le [] ids zero h = omega arith
marked_le [] ids (suc n) h = omega arith
marked_le (r ∷ rows) ids zero h = elim (Bool-cases (any_id ids r.entry.id)) [
  | inl t ↦ rw t (elim (Bool-cases r.rated) [
    | inl e ↦ rw e (marked_le rows ids zero tt)
    | inr e ↦ rw e (omega (arith, marked_le rows ids zero tt))
  ])
  | inr t ↦ rw t (elim (Bool-cases r.rated) [
    | inl e ↦ rw e (marked_le rows ids zero tt)
    | inr e ↦ rw e (omega (arith, marked_le rows ids zero tt))
  ])
]
marked_le (r ∷ rows) ids (suc n) h = elim (Bool-cases r.rated) [
  | inl e ↦ elim (Bool-cases (any_id ids r.entry.id)) [
    | inl t ↦ rw (t, e) (marked_le rows ids (suc n) (rw e at h))
    | inr t ↦ rw (t, e) (marked_le rows ids (suc n) (rw e at h))
  ]
  | inr e ↦ let (t, l) = rw e at h in rw (t, e) (omega (arith, marked_le rows ids n l))
]

named :
    (xs : List MeteringRow)
    → All
        (λ r.
          any_id
            (map (λ (e : MeteringEntry). e.id) (map (λ (r : MeteringRow). r.entry) xs))
            r.entry.id
          ≡ true)
        xs
named [] = tt
named (x ∷ xs) =
    let ids = map (λ (e : MeteringEntry). e.id) (map (λ (r : MeteringRow). r.entry) xs) in
    (
      self x.entry.id ids,
      All-map (λ r. any_id ids r.entry.id ≡ true) (λ r. any_id (x.entry.id ∷ ids) r.entry.id ≡ true)
          xs (λ r h. rw h (or_true (r.entry.id == x.entry.id))) (named xs),
    )
  where
    self : (i : ℕ) (is : List ℕ) → (i == i || any_id is i) ≡ true
    self i is = ground arith

    or_true : (b : Bool) → (b || true) ≡ true
    or_true true = refl
    or_true false = refl

length-map : {A B : Type 0} (f : A → B) (xs : List A) → length (map f xs) ≡ length xs
length-map f [] = refl
length-map f (x ∷ xs) = ap suc (length-map f xs)

take_none : {A : Type 0} (n : ℕ) (xs : List A) → 1 ≤ n → length (take n xs) ≡ 0 → xs ≡ []
take_none n [] p h = refl
take_none zero (x ∷ xs) p h = absurd (omega arith)
take_none (suc n) (x ∷ xs) p h = absurd (omega arith)

take_all :
    {A : Type 0} (n : ℕ) (xs : List A) → length (take n xs) < n → length (take n xs) ≡ length xs
take_all zero xs h = absurd (omega arith)
take_all (suc n) [] h = refl
take_all (suc n) (x ∷ xs) h = ap suc (take_all n xs (omega arith))

unrated_le : (rows : List MeteringRow) → unrated rows ≤ length rows
unrated_le [] = omega arith
unrated_le (r ∷ rows) = elim (Bool-cases r.rated) [
  | inl e ↦ rw e (omega (arith, unrated_le rows))
  | inr e ↦ rw e (omega (arith, unrated_le rows))
]

no_rows : {A : Type 0} (xs : List A) → length xs ≡ 0 → xs ≡ []
no_rows [] h = refl
no_rows (x ∷ xs) h = absurd (omega arith)

module _ {D : Type 0} {dec : Decimals D} (col : Columns dec) where
  rate_entries-ids :
      (rules : Rules) (idx : RateIndex D) (s : Store D) (es : List MeteringEntry)
      (cache : UsageCache)
      → (rate_entries col rules idx s cache es).1 ≡ map (λ (e : MeteringEntry). e.id) es
  unfolding rate_entries
  rate_entries-ids rules idx s [] cache = refl
  rate_entries-ids rules idx s (me ∷ es) cache =
      ap (λ is. me.id ∷ is)
        (rate_entries-ids rules idx s es (rate_entry col rules idx s cache me).1)

  insert_keeps :
      (costs : List (CostEntry D)) (s : Store D)
      → (insert_cost_entry_batch col costs s).metering_entries ≡ s.metering_entries
  unfolding insert_cost_entry_batch insert_cost_entry
  insert_keeps [] s = refl
  insert_keeps (c ∷ costs) s = insert_keeps costs (insert_cost_entry col c s)

  abbrev taken : ℕ → Store D → List MeteringRow
  taken n s = take n (where_rows is_unrated s.metering_entries)

  rate_batch-rows :
      (rules : Rules) (idx : RateIndex D) (es : List MeteringEntry) (s : Store D)
      → (rate_batch col rules idx es s).metering_entries
        ≡ marked (map (λ (e : MeteringEntry). e.id) es) s.metering_entries
  unfolding rate_batch mark_metering_entries_rated
  rate_batch-rows rules idx es s =
      rw (rate_entries-ids rules idx s es [], insert_keeps (rate_entries col rules idx s [] es).0 s)
        refl

  length-unrated :
      (n : ℕ) (s : Store D) → length (unrated_metering_entries s n) ≡ length (taken n s)
  unfolding unrated_metering_entries
  length-unrated n s =
      length-map (λ (r : MeteringRow). r.entry) (take n (where_rows is_unrated s.metering_entries))

  batch_le :
      (n : ℕ) (rules : Rules) (idx : RateIndex D) (s : Store D)
      → unrated (rate_batch col rules idx (unrated_metering_entries s n) s).metering_entries
          + length (taken n s)
        ≤ unrated s.metering_entries
  unfolding unrated_metering_entries
  batch_le n rules idx s =
      let xs = take n (where_rows is_unrated s.metering_entries) in
      let ids = map (λ (e : MeteringEntry). e.id) (map (λ (r : MeteringRow). r.entry) xs) in
      rw (rate_batch-rows rules idx (map (λ (r : MeteringRow). r.entry) xs) s)
        (marked_le s.metering_entries ids n (named xs))

  rate_batches_drain :
      (fuel n : ℕ) (rules : Rules) (idx : RateIndex D) (s : Store D)
      → 1 ≤ n
      → unrated s.metering_entries < fuel
      → unrated (rate_batches col fuel n rules idx s).metering_entries ≡ 0
  unfolding rate_batches
  rate_batches_drain zero n rules idx s p h = absurd (omega arith)
  rate_batches_drain (suc fuel) n rules idx s p h =
      let es = unrated_metering_entries s n in
      let s' = rate_batch col rules idx es s in
      let l = length-unrated n s in
      let b = batch_le n rules idx s in
      elim (Bool-cases (length es == 0)) [
        | inl t ↦ rw t (
            ap length
              (take_none n (where_rows is_unrated s.metering_entries) p (ground (arith, l))))
        | inr f ↦ elim (Bool-cases (ltb (length es) n)) [
          | inl t ↦
              rw (f, t)
                (omega (
                  arith,
                  b,
                  take_all n (where_rows is_unrated s.metering_entries) (ground (arith, l)),
                ))
          | inr g ↦ rw (f, g) (rate_batches_drain fuel n rules idx s' p (ground (arith, b, l)))
        ]
      ]

  -- With a batch size of one at least, after the loop over the batches no metering entry is left to rate, whatever the rules and the
  -- rates are: an entry without a rate is passed over once, and the loop ends.
  pub rate_queue_drained :
      (batch : ℕ) (rules : Rules) (now limit : ℕ) (s : Store D)
      → 1 ≤ batch
      → unrated_metering_entries (rate_queue col batch rules now s) limit ≡ []
  unfolding rate_queue unrated_metering_entries
  rate_queue_drained batch rules now limit s p =
      let z =
        rate_batches_drain (suc (length s.metering_entries)) batch rules
          (build_rate_index (all_active_rates s now)) s p
          (omega (arith, unrated_le s.metering_entries)) in
      rw (no_rows _ z) (none_of limit)
    where
      none_of : (k : ℕ) → map (λ (r : MeteringRow). r.entry) (take k []) ≡ []
      none_of zero = refl
      none_of (suc k) = refl
