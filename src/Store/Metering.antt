-- ===== src/Store/Metering.antt =====
-- `metering_entries`, `rates` and `cost_entries`.
use cost_ai_grid_poc.Prelude.{
  ℕ, suc, String, Bool, true, false, ◌&&◌, ◌||◌, not, Option, none, some, List, [], ◌∷◌, ◌++◌, ltb,
  leb, ◌==◌, str_eq, where_rows, update_rows, take, map,
}
use cost_ai_grid_poc.Prelude.Int.{ℤ, pos, ◌+ℤ◌}
use cost_ai_grid_poc.Decimal.{Decimals, Columns}
use cost_ai_grid_poc.Models.{MeteringEntry, RateRecord, CostEntry}
use cost_ai_grid_poc.Store.Tables.{Store, MeteringRow}

-- the sum of a column, 0 of no rows
abbrev pub sum_of {ℓ} : {A : Type ℓ} → (A → ℤ) → List A → ℤ
sum_of f [] = pos 0
sum_of f (x ∷ xs) = f x +ℤ sum_of f xs

-- `effective_from <= at AND (effective_to IS NULL OR effective_to > at)`
abbrev pub in_effect : ℕ → Option ℕ → ℕ → Bool
in_effect from none at = leb from at
in_effect from (some to) at = leb from at && ltb at to

-- `id = ANY(ids)`
abbrev pub any_id : List ℕ → ℕ → Bool
any_id [] i = false
any_id (j ∷ ids) i = i == j || any_id ids i

-- `tenant_id = … AND meter_name = … AND period_start >= … AND period_end <= …`
abbrev pub in_window : String → String → ℕ → ℕ → MeteringEntry → Bool
in_window tenant meter from to e =
    str_eq e.tenant_id tenant
    && str_eq e.meter_name meter
    && leb from e.period_start
    && leb e.period_end to

module _ {D : Type 0} where
  unfoldable pub insert_metering_entry : MeteringEntry → Store D → Store D
  insert_metering_entry e s = record s {
    metering_entries =
        s.metering_entries
        ++ record { entry = record e { id = s.next_metering_id }; rated = false } ∷ [];
    next_metering_id = suc s.next_metering_id;
  }

  -- one statement inserts all the rows, in their order
  unfoldable pub insert_metering_entry_batch : List MeteringEntry → Store D → Store D
  unfolding insert_metering_entry
  insert_metering_entry_batch [] s = s
  insert_metering_entry_batch (e ∷ es) s =
      insert_metering_entry_batch es (insert_metering_entry e s)

  -- The rows are in the order of insertion, which is that of the ids: `ORDER BY id`.
  unfoldable pub unrated_metering_entries : Store D → ℕ → List MeteringEntry
  unrated_metering_entries s limit =
      map (λ (r : MeteringRow). r.entry)
        (take limit (where_rows (λ r. not r.rated) s.metering_entries))

  unfoldable pub mark_metering_entries_rated : List ℕ → Store D → Store D
  mark_metering_entries_rated ids s = record s {
    metering_entries =
        update_rows (λ r. any_id ids r.entry.id) (λ r. record r { rated = true })
          s.metering_entries;
  }

  unfoldable pub metering_sum : Store D → String → String → ℕ → ℕ → ℤ
  metering_sum s tenant meter from to =
      sum_of (λ r. r.entry.value)
        (where_rows (λ (r : MeteringRow). in_window tenant meter from to r.entry)
          s.metering_entries)

  unfoldable pub metering_sum_by_project : Store D → String → String → String → ℕ → ℕ → ℤ
  metering_sum_by_project s tenant project meter from to =
      sum_of (λ r. r.entry.value)
        (where_rows
          (λ (r : MeteringRow).
            in_window tenant meter from to r.entry && str_eq r.entry.project_id project)
          s.metering_entries)

  unfoldable pub metering_sum_before : Store D → String → String → ℕ → ℕ → ℕ → ℤ
  metering_sum_before s tenant meter from to before_id =
      sum_of (λ r. r.entry.value)
        (where_rows
          (λ (r : MeteringRow). in_window tenant meter from to r.entry && ltb r.entry.id before_id)
          s.metering_entries)

  -- the rates in effect; the query puts those of a tenant before those of none, and its order by
  -- resource type and meter comes first, which rates of one type and one meter do not show
  unfoldable pub all_active_rates : Store D → ℕ → List (RateRecord D)
  all_active_rates s at =
      let active =
        where_rows (λ (r : RateRecord D). in_effect r.effective_from r.effective_to at) s.rates in
      where_rows (λ r. has_tenant r) active ++ where_rows (λ r. not (has_tenant r)) active
    where
      has_tenant : RateRecord D → Bool
      has_tenant r = elim r.tenant_id [ none ↦ false | some t ↦ not (str_eq t "") ]

module _ {D : Type 0} {dec : Decimals D} (col : Columns dec) where
  -- `cost_amount` is NUMERIC(18,10); the new row has nothing applied yet
  unfoldable pub insert_cost_entry : CostEntry D → Store D → Store D
  insert_cost_entry e s = record s {
    cost_entries =
        s.cost_entries
        ++ record e {
          id = s.next_cost_id;
          cost_amount = col.scale_10 e.cost_amount;
          wallet_applied = dec.zero;
        }
          ∷ [];
    next_cost_id = suc s.next_cost_id;
  }

  unfoldable pub insert_cost_entry_batch : List (CostEntry D) → Store D → Store D
  unfolding insert_cost_entry
  insert_cost_entry_batch [] s = s
  insert_cost_entry_batch (e ∷ es) s = insert_cost_entry_batch es (insert_cost_entry e s)

  unfoldable pub cost_sum : Store D → String → String → ℕ → ℕ → ℤ
  cost_sum s tenant meter from to =
      sum_of (λ (e : CostEntry D). dec.amount e.cost_amount)
        (where_rows
          (λ (e : CostEntry D).
            str_eq e.tenant_id tenant
            && str_eq e.meter_name meter
            && leb from e.period_start
            && leb e.period_end to)
          s.cost_entries)

  unfoldable pub tenant_cost_sum : Store D → String → ℕ → ℕ → ℤ
  tenant_cost_sum s tenant from to =
      sum_of (λ (e : CostEntry D). dec.amount e.cost_amount)
        (where_rows
          (λ (e : CostEntry D).
            str_eq e.tenant_id tenant && leb from e.period_start && leb e.period_end to)
          s.cost_entries)
