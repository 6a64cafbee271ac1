-- ===== src/Billing/Records/Schedule.antt =====
-- What `PaymentPlan.schedule` applies to the installments of a plan.
use mathlib.Core.Path.{ap₂}
use open_immigration_crm.Prelude.{
  ◌≡◌, ◌⊎◌, refl, List, [], ◌∷◌, Bool, ℤ, pos, ◌+ℤ◌, ◌-ℤ◌, ◌≤ℤ◌, ◌<ℤ◌, ◌=ℤ◌, leb_ℤ, min_ℤ, int_laws,
  arith, All, inl, inr, Bool-cases, map, sym, ◌∙◌,
}
use open_immigration_crm.Billing.Calendar.{Date}
use open_immigration_crm.Billing.Records.{
  Installment, Row, row_state, row_is_paid, schedule_from, schedule, PaymentPlan, Invoice,
  amount_paid,
}

-- The sums of the installments' amounts and of what is applied to them.
unfoldable pub scheduled : List Installment → ℤ
scheduled [] = pos 0
scheduled (i ∷ is) = i.amount +ℤ scheduled is

pub applied : List Row → ℤ
applied [] = pos 0
applied (row ∷ rows) = row.applied +ℤ applied rows

abbrev pub ArePositive : List Installment → Type 0
ArePositive is = All (λ (i : Installment). pos 0 <ℤ i.amount) is

scheduled_nonneg : (is : List Installment) → ArePositive is → pos 0 ≤ℤ scheduled is
unfolding scheduled
scheduled_nonneg [] h = omega arith
scheduled_nonneg (i ∷ is) h = omega (int_laws, scheduled_nonneg is h.1, h.0)

applied-schedule_from :
    (r : ℤ) (today : Date) (is : List Installment)
    → pos 0 ≤ℤ r
    → ArePositive is
    → applied (schedule_from r today is) ≡ min_ℤ r (scheduled is)
unfolding applied scheduled schedule_from
applied-schedule_from r today [] h p = ground arith
applied-schedule_from r today (i ∷ is) h p =
    grind
      (int_laws, scheduled_nonneg is p.1, applied-schedule_from (r -ℤ min_ℤ r i.amount) today is)

-- If what is paid is not negative and the installments are positive, the rows together apply what
-- is paid, up to what is scheduled.
pub applied-schedule :
    (invoice : Invoice) (p : PaymentPlan) (today : Date)
    → pos 0 ≤ℤ amount_paid invoice
    → ArePositive p.installments
    → applied (schedule invoice p today) ≡ min_ℤ (amount_paid invoice) (scheduled p.installments)
unfolding schedule
applied-schedule invoice p today h pos_amounts =
    applied-schedule_from (amount_paid invoice) today p.installments h pos_amounts

-- For each installment, whether those up to and including it come to no more than what is paid.
pub covered : ℤ → ℤ → List Installment → List Bool
covered paid before [] = []
covered paid before (i ∷ is) =
    leb_ℤ (before +ℤ i.amount) paid ∷ covered paid (before +ℤ i.amount) is

-- What is left to apply, against what is paid and what came before.
abbrev IsLeft : ℤ → ℤ → ℤ → Type 0
IsLeft r paid before = (pos 0 ≤ℤ r) × ((paid =ℤ before +ℤ r) ⊎ ((r ≤ℤ pos 0) × (paid ≤ℤ before)))

IsLeft-step :
    (r paid before a : ℤ)
    → pos 0 <ℤ a
    → IsLeft r paid before
    → IsLeft (r -ℤ min_ℤ r a) paid (before +ℤ a)
IsLeft-step r paid before a h (left, inl e) = elim (Bool-cases (leb_ℤ r a)) [
  | inl le ↦ rw le (omega int_laws, inr (omega int_laws, grind int_laws))
  | inr gt ↦ rw gt (grind int_laws, inl (omega int_laws))
]
IsLeft-step r paid before a h (left, inr (e, le)) = elim (Bool-cases (leb_ℤ r a)) [
  | inl small ↦ rw small (omega int_laws, inr (omega int_laws, omega int_laws))
  | inr large ↦ absurd (grind int_laws)
]

covered-head :
    (r paid before a : ℤ)
    → pos 0 <ℤ a
    → IsLeft r paid before
    → leb_ℤ (before +ℤ a) paid ≡ leb_ℤ a (min_ℤ r a)
covered-head r paid before a h (left, inl e) = grind int_laws
covered-head r paid before a h (left, inr (e, le)) = grind int_laws

module _ (today : Date) where
  row_is_paid-row :
      (i : Installment) (a : ℤ)
      → row_is_paid (record { installment = i; applied = a; state = row_state i a today })
        ≡ leb_ℤ i.amount a
  unfolding row_is_paid row_state
  row_is_paid-row i a = ground arith

  map-row_is_paid :
      (r paid before : ℤ) (is : List Installment)
      → IsLeft r paid before
      → ArePositive is
      → map row_is_paid (schedule_from r today is) ≡ covered paid before is
  unfolding covered schedule_from
  map-row_is_paid r paid before [] h p = refl
  map-row_is_paid r paid before (i ∷ is) h p =
      ap₂ (λ (b : Bool) (bs : List Bool). b ∷ bs)
        (row_is_paid-row i (min_ℤ r i.amount) ∙ sym (covered-head r paid before i.amount p.0 h))
        (map-row_is_paid (r -ℤ min_ℤ r i.amount) paid (before +ℤ i.amount) is
          (IsLeft-step r paid before i.amount p.0 h) p.1)

-- If what is paid is not negative and the installments are positive, an installment's row is paid
-- exactly when what is paid covers it and all before it.
pub map-row_is_paid-schedule :
    (invoice : Invoice) (p : PaymentPlan) (today : Date)
    → pos 0 ≤ℤ amount_paid invoice
    → ArePositive p.installments
    → map row_is_paid (schedule invoice p today)
      ≡ covered (amount_paid invoice) (pos 0) p.installments
unfolding schedule
map-row_is_paid-schedule invoice p today h pos_amounts =
    map-row_is_paid today (amount_paid invoice) (amount_paid invoice) (pos 0) p.installments
      (h, inl (omega int_laws)) pos_amounts
