-- ===== src/Billing/Plans/Created.antt =====
-- The plan that `create_plan` makes.
use mathlib.Core.Path.{subst}
use open_immigration_crm.Prelude.{
  ℕ, zero, suc, ◌≡◌, refl, ap, sym, ◌∙◌, List, [], ◌∷◌, ◌++◌, ◌+◌, Option, none, is_some, Bool,
  true, false, ◌&&◌, leb, length, ℤ, pos, negsuc, ◌+ℤ◌, ltb_ℤ, arith,
}
use open_immigration_crm.Billing.Money.{split_amount}
use open_immigration_crm.Billing.Money.Split.{sum_ℤ, sum_ℤ-split_amount}
use open_immigration_crm.Billing.Calendar.{Date, Frequency, before, installment_dates}
use open_immigration_crm.Billing.Calendar.Order.{
  IsDate, AreIncreasing, installment_dates_increasing,
}
use open_immigration_crm.Billing.Records.{
  Installment, PaymentPlan, Invoice, active, is_open, plan, balance,
}
use open_immigration_crm.Billing.Records.Schedule.{scheduled}
use open_immigration_crm.Billing.Store.{Env, Store, ok, plan_created}
use open_immigration_crm.Billing.Plans.{
  max_installments, new_installment, new_installments, create_plan,
}

abbrev due_dates : List Installment → List Date
due_dates [] = []
due_dates (i ∷ is) = i.due_date ∷ due_dates is

module _ (env : Env) (actor : Option ℕ) (days : ℕ) where
  scheduled-new_installments :
      (n : ℕ) (ds : List Date) (as' : List ℤ)
      → length ds ≡ length as'
      → (scheduled (new_installments env actor days n ds as') ≡ sum_ℤ as')
        × (due_dates (new_installments env actor days n ds as') ≡ ds)
  unfolding new_installments new_installment scheduled sum_ℤ
  scheduled-new_installments n [] [] h = (refl, refl)
  scheduled-new_installments n [] (a ∷ rest) h = absurd (omega arith)
  scheduled-new_installments n (d ∷ ds) [] h = absurd (omega arith)
  scheduled-new_installments n (d ∷ ds) (a ∷ rest) h =
      let (amounts, dates) = scheduled-new_installments (suc n) ds rest (omega arith) in
      (ap (λ (t : ℤ). a +ℤ t) amounts, ap (λ (t : List Date). d ∷ t) dates)

split_of_positive :
    (b : ℤ) (count : ℕ)
    → ltb_ℤ (pos 0) b ≡ true
    → leb 2 count ≡ true
    → (length (split_amount b count) ≡ count) × (sum_ℤ (split_amount b count) ≡ b)
split_of_positive (pos t) zero h k = absurd (ground arith)
split_of_positive (pos t) (suc m) h k = sum_ℤ-split_amount t m
split_of_positive (negsuc n) count h k = absurd (ground arith)

-- The plan `p` splits the balance of the invoice `i`.
pub record IsSplit (i : Invoice) (count : ℕ) (p : PaymentPlan) : Type 0 where
  pub is_active : p.status ≡ active
  pub adds_up : scheduled p.installments ≡ balance i
  pub as_many : length (due_dates p.installments) ≡ count
  pub in_order : AreIncreasing (due_dates p.installments)

module _ (env : Env) (s : Store) (actor : Option ℕ) (count : ℕ) (first : Date)
    (frequency : Frequency) (days : ℕ) (email : Bool) where
  made : PaymentPlan
  made = record {
    id = s.next_id;
    status = active;
    frequency = frequency;
    reminder_days_before = days;
    email_reminders = email;
    created_by = actor;
    canceled_at = none;
    installments =
        new_installments env actor days 1 (installment_dates first count frequency)
          (split_amount (balance s.invoice) count);
  }

  -- An open invoice with a balance and without a plan in force gets one, for 2 to 60 installments
  -- from a calendar day that is not past, if the contact can be emailed or need not be. Its
  -- installments add up to the balance, to the cent, and fall due on as many days as asked for,
  -- each before the next. Nothing else changes but the next key and the audit log.
  pub create_plan_splits :
      IsDate first
      → is_open s.invoice.status ≡ true
      → ltb_ℤ (pos 0) (balance s.invoice) ≡ true
      → is_some (plan s.invoice) ≡ false
      → leb 2 count ≡ true
      → leb count max_installments ≡ true
      → before first env.today ≡ false
      → (email && env.address_problem s.invoice.contact) ≡ false
      → (p : PaymentPlan) × (create_plan env actor count first frequency days email s
          ≡ ok (
            s.next_id,
            record s {
              invoice = record (s.invoice) { plans = p ∷ s.invoice.plans };
              next_id = s.next_id + 1;
              audit = s.audit ++ record { user = actor; action = plan_created } ∷ [];
            },
          ))
        × IsSplit s.invoice count p
  unfolding create_plan made
  create_plan_splits valid open_now owing free least most later addressed =
      let (amounts, sums) = split_of_positive (balance s.invoice) count owing least in
      let (many, days_valid, ordered) = installment_dates_increasing first count frequency valid in
      let (adds_up, dates) =
        scheduled-new_installments env actor days 1 (installment_dates first count frequency)
          (split_amount (balance s.invoice) count) (many ∙ sym amounts) in
      (
        made,
        rw (open_now, owing, free, least, most, later, addressed) refl,
        record {
          is_active = refl;
          adds_up = adds_up ∙ sums;
          as_many = ap length dates ∙ many;
          in_order = subst AreIncreasing (sym dates) ordered;
        },
      )
