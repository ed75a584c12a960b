-- ===== src/Payments/RevenueCat/Rows.antt =====
-- Rows of the log that share a name.
use Prim.Native.String.{String}
use rental_application_nest.Prelude.{
  ℕ, ◌+◌, ◌≡◌, ◌∙◌, refl, inl, inr, ap, true, Option, List, [], ◌∷◌, map, if◌then◌else◌, count_if,
  In, In-map, arith, Bool-cases,
}
use rental_application_nest.Payments.Stripe.{ProcessingStatus}
use rental_application_nest.Payments.RevenueCat.{
  EventName, PurchaseEvent, PurchaseLog, has_name, with_processing,
}

-- One row has the name; it keeps the event `first` and counts `n` attempts.
abbrev pub IsOnly : EventName → PurchaseEvent → ℕ → List PurchaseLog → Type 0
IsOnly name first n rows =
    (count_if (has_name name) rows ≡ 1)
    × ((r : PurchaseLog)
        → In r rows
        → has_name name r ≡ true
        → (r.event_data ≡ first) × (r.attempts ≡ n))

module _ (unset : Option String → Option String) (status : ProcessingStatus)
    (message : Option String) where
  abbrev pub change : EventName → PurchaseLog → PurchaseLog
  change name r = if has_name name r then with_processing unset status message r else r

  count_if-change :
      (name : EventName) (rows : List PurchaseLog)
      → count_if (has_name name) (map (change name) rows) ≡ count_if (has_name name) rows
  count_if-change name [] = refl
  count_if-change name (r ∷ rows) = elim (Bool-cases (has_name name r)) [
    | inl hit ↦ rw hit (rw hit (omega (arith, count_if-change name rows)))
    | inr miss ↦ rw miss (rw miss (omega (arith, count_if-change name rows)))
  ]

  pub change-IsOnly :
      (name : EventName) (first : PurchaseEvent) (n : ℕ) (rows : List PurchaseLog)
      → IsOnly name first n rows
      → IsOnly name first (n + 1) (map (change name) rows)
  change-IsOnly name first n rows (one, all) = (
    count_if-change name rows ∙ one,
    λ r k h.
        let (x, i, e) = In-map (change name) rows r k in
        elim (Bool-cases (has_name name x)) [
          | inl hit ↦
              let (of_first, attempts) = all x i hit in
              let same : r ≡ with_processing unset status message x = e ∙ rw hit refl in
              (
                ap (λ y. y.event_data) same ∙ of_first,
                omega (arith, ap (λ y. y.attempts) same, attempts),
              )
          | inr miss ↦
              let same : r ≡ x = e ∙ rw miss refl in absurd (cc (ap (has_name name) same, miss, h))
        ],
  )
