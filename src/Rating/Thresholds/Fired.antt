-- ===== src/Rating/Thresholds/Fired.antt =====
-- Alerts that are inserted unless they have fired.
use cost_ai_grid_poc.Prelude.{
  ℕ, ◌≡◌, refl, inl, inr, true, List, [], ◌∷◌, ◌++◌, eq_refl, arith, if◌then◌else◌, any_row,
  Bool-cases, All,
}
use cost_ai_grid_poc.Prelude.Int.{ℤ}
use cost_ai_grid_poc.Prelude.Rows.{any_row-last, any_row-append}
use cost_ai_grid_poc.Models.{AlertRecord}
use cost_ai_grid_poc.Store.{same_alert, same_label, same_amount}

unfoldable pub add_alert : AlertRecord → List AlertRecord → List AlertRecord
add_alert a xs = if any_row (λ b. same_alert b a) xs then xs else xs ++ a ∷ []

unfoldable pub add_alerts : List AlertRecord → List AlertRecord → List AlertRecord
unfolding add_alert
add_alerts [] xs = xs
add_alerts (d ∷ due) xs = add_alerts due (add_alert d xs)

pub same_label_refl : (l : List ℕ) → same_label l l ≡ true
same_label_refl [] = refl
same_label_refl (c ∷ l) = rw (same_label_refl l) (ground arith)

same_amount_refl : (a : ℤ) → same_amount a a ≡ true
same_amount_refl a = ground arith

same_alert_refl : (a : AlertRecord) → same_alert a a ≡ true
same_alert_refl a =
    rw
      (
        eq_refl a.tenant_id,
        eq_refl a.meter_name,
        same_amount_refl a.threshold_pct,
        same_label_refl a.period,
      )
      refl

-- the alert has fired
abbrev pub Fired : List AlertRecord → AlertRecord → Type 0
Fired xs a = any_row (λ b. same_alert b a) xs ≡ true

pub add_alert-Fired :
    (a d : AlertRecord) (xs : List AlertRecord) → Fired xs a → Fired (add_alert d xs) a
unfolding add_alert
add_alert-Fired a d xs h = elim (Bool-cases (any_row (λ b. same_alert b d) xs)) [
  | inl t ↦ rw t h
  | inr n ↦ rw n (any_row-append (λ b. same_alert b a) xs (d ∷ []) h)
]

pub add_alert_fires : (d : AlertRecord) (xs : List AlertRecord) → Fired (add_alert d xs) d
unfolding add_alert
add_alert_fires d xs = elim (Bool-cases (any_row (λ b. same_alert b d) xs)) [
  | inl t ↦ rw t t
  | inr n ↦ rw n (any_row-last (λ b. same_alert b d) xs d (same_alert_refl d))
]

pub add_alerts-Fired :
    (due : List AlertRecord) (a : AlertRecord) (xs : List AlertRecord)
    → Fired xs a
    → Fired (add_alerts due xs) a
unfolding add_alerts
add_alerts-Fired [] a xs h = h
add_alerts-Fired (d ∷ due) a xs h =
    add_alerts-Fired due a (add_alert d xs) (add_alert-Fired a d xs h)

pub add_alerts_fire : (due xs : List AlertRecord) → All (Fired (add_alerts due xs)) due
unfolding add_alerts
add_alerts_fire [] xs = tt
add_alerts_fire (d ∷ due) xs = (
  add_alerts-Fired due d (add_alert d xs) (add_alert_fires d xs),
  add_alerts_fire due (add_alert d xs),
)

pub add_alerts_settled : (due xs : List AlertRecord) → All (Fired xs) due → add_alerts due xs ≡ xs
unfolding add_alerts add_alert
add_alerts_settled [] xs h = refl
add_alerts_settled (d ∷ due) xs h = rw h.0 (add_alerts_settled due xs h.1)

pub add_alerts-append :
    (d e xs : List AlertRecord) → add_alerts e (add_alerts d xs) ≡ add_alerts (d ++ e) xs
unfolding add_alerts
add_alerts-append [] e xs = refl
add_alerts-append (a ∷ d) e xs = add_alerts-append d e (add_alert a xs)
