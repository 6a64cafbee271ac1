-- ===== src/Billing/Draft/Numbers.antt =====
-- The numbers that `BillingSettings.next_invoice_number` of crm/billing/models.py gives.
use open_immigration_crm.Prelude.{ℕ, refl, ◌≡◌, ◌≢◌, ◌≤◌, ◌<◌, ◌⊎◌, ap, List, [], ◌∷◌, All, arith}
use open_immigration_crm.Billing.Records.{Number, BillingSettings}
use open_immigration_crm.Billing.Draft.{next_invoice_number}

-- The numbers given one after another, each in its year.
unfoldable pub numbers : List ℕ → BillingSettings → List Number
numbers [] settings = []
numbers (year ∷ years) settings =
    let (number, after) = next_invoice_number year settings in number ∷ numbers years after

-- The years do not go back.
abbrev pub AreOrdered : ℕ → List ℕ → Type 0
AreOrdered from [] = Unit
AreOrdered from (year ∷ years) = (from ≤ year) × AreOrdered year years

abbrev pub AreDistinct : List Number → Type 0
AreDistinct [] = Unit
AreDistinct (n ∷ ns) = All (λ (m : Number). n ≢ m) ns × AreDistinct ns

-- A number of a later year, or of the same year with a larger value.
abbrev IsAfter : ℕ → ℕ → Number → Type 0
IsAfter year value n = (year < n.year) ⊎ ((year ≡ n.year) × (value < n.value))

IsAfter-trans :
    (y v y' v' : ℕ) (n : Number)
    → (y < y') ⊎ ((y ≡ y') × (v ≤ v'))
    → IsAfter y' v' n
    → IsAfter y v n
IsAfter-trans y v y' v' n before after = ground arith

All-map :
    {P Q : Number → Type 0} (ns : List Number) → ((n : Number) → P n → Q n) → All P ns → All Q ns
All-map [] f h = tt
All-map (n ∷ ns) f h = (f n h.0, All-map ns f h.1)

next-IsAfter :
    (year : ℕ) (settings : BillingSettings)
    → settings.invoice_sequence_year ≤ year
    → IsAfter settings.invoice_sequence_year settings.invoice_sequence_value
        (next_invoice_number year settings).0
unfolding next_invoice_number
next-IsAfter year settings h = ground arith

next_settings :
    (year : ℕ) (settings : BillingSettings)
    → ((next_invoice_number year settings).1.invoice_sequence_year ≡ year)
      × ((next_invoice_number year settings).0.year ≡ year)
      × ((next_invoice_number year settings).1.invoice_sequence_value
          ≡ (next_invoice_number year settings).0.value)
unfolding next_invoice_number
next_settings year settings = (refl, refl, refl)

next_ordered :
    (year : ℕ) (years : List ℕ) (settings : BillingSettings)
    → AreOrdered year years
    → AreOrdered (next_invoice_number year settings).1.invoice_sequence_year years
unfolding next_invoice_number
next_ordered year years settings h = h

next_step :
    (year : ℕ) (settings : BillingSettings)
    → settings.invoice_sequence_year ≤ year
    → let after = (next_invoice_number year settings).1 in
      (settings.invoice_sequence_year < after.invoice_sequence_year)
      ⊎ ((settings.invoice_sequence_year ≡ after.invoice_sequence_year)
          × (settings.invoice_sequence_value ≤ after.invoice_sequence_value))
unfolding next_invoice_number
next_step year settings h = ground arith

-- A number after the one just given is another one.
next_differs :
    (year : ℕ) (settings : BillingSettings) (n : Number)
    → IsAfter
        (next_invoice_number year settings).1.invoice_sequence_year
        (next_invoice_number year settings).1.invoice_sequence_value
        n
    → (next_invoice_number year settings).0 ≢ n
unfolding next_invoice_number
next_differs year settings n after same =
    let years_agree : (next_invoice_number year settings).0.year ≡ n.year =
      ap (λ (m : Number). m.year) same in
    let values_agree : (next_invoice_number year settings).0.value ≡ n.value =
      ap (λ (m : Number). m.value) same in
    ground (arith, years_agree, values_agree)

numbers-IsAfter :
    (years : List ℕ) (settings : BillingSettings)
    → AreOrdered settings.invoice_sequence_year years
    → All
        (IsAfter settings.invoice_sequence_year settings.invoice_sequence_value)
        (numbers years settings)
unfolding numbers
numbers-IsAfter [] settings h = tt
numbers-IsAfter (year ∷ years) settings h =
    let after = (next_invoice_number year settings).1 in
    (
      next-IsAfter year settings h.0,
      All-map (numbers years after)
          (λ n.
            IsAfter-trans settings.invoice_sequence_year settings.invoice_sequence_value
              after.invoice_sequence_year after.invoice_sequence_value n
              (next_step year settings h.0))
          (numbers-IsAfter years after (next_ordered year years settings h.1)),
    )

-- The numbers given one after another are all different, if the years of the clock start at the
-- sequence's year or later and do not go back.
pub numbers-AreDistinct :
    (years : List ℕ) (settings : BillingSettings)
    → AreOrdered settings.invoice_sequence_year years
    → AreDistinct (numbers years settings)
unfolding numbers
numbers-AreDistinct [] settings h = tt
numbers-AreDistinct (year ∷ years) settings h =
    let after = (next_invoice_number year settings).1 in
    (
      All-map (numbers years after) (next_differs year settings)
          (numbers-IsAfter years after (next_ordered year years settings h.1)),
      numbers-AreDistinct years after (next_ordered year years settings h.1),
    )
