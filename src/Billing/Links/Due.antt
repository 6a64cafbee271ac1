-- ===== src/Billing/Links/Due.antt =====
-- The amounts that crm/billing/links.py asks for, against the invoice's balance.
use open_immigration_crm.Prelude.{
  ◌≡◌, refl, List, [], ◌∷◌, Option, none, some, true, ◌&&◌, select, ℤ, pos, ◌+ℤ◌, ◌-ℤ◌, ◌<ℤ◌,
  int_laws, arith, All, inl, inr, Bool-cases, ltb_ℤ, min_ℤ,
}
use open_immigration_crm.Billing.Records.{
  Account, operating, trust, earned, advance, InvoiceLine, Payment, Invoice, funds_eq, account_eq,
  is_open, is_live, total, collected, subtotal, subtotal_for, amount_paid, balance,
}
use open_immigration_crm.Billing.Links.{paid_into, if_positive, due_into, put_due, amounts_due}

lines_by_funds :
    (lines : List InvoiceLine)
    → total lines
      ≡ total (select (λ l. funds_eq l.funds earned) lines)
        +ℤ total (select (λ l. funds_eq l.funds advance) lines)
unfolding total funds_eq
lines_by_funds [] = omega int_laws
lines_by_funds (l ∷ lines) = grind (int_laws, lines_by_funds lines)

payments_by_account :
    (payments : List Payment)
    → collected (select is_live payments)
      ≡ collected
          (select (λ p. is_live p && account_eq p.fields.deposit_account operating) payments)
        +ℤ collected (select (λ p. is_live p && account_eq p.fields.deposit_account trust) payments)
unfolding collected account_eq
payments_by_account [] = omega int_laws
payments_by_account (p ∷ payments) = grind (int_laws, payments_by_account payments)

-- An open invoice's balance is what is owed into the two accounts together.
balance_by_account :
    (invoice : Invoice)
    → is_open invoice.status ≡ true
    → balance invoice
      ≡ (subtotal_for invoice advance -ℤ paid_into trust invoice)
        +ℤ (subtotal_for invoice earned -ℤ paid_into operating invoice)
unfolding is_open balance subtotal subtotal_for amount_paid paid_into
balance_by_account invoice h =
    grind (int_laws, lines_by_funds invoice.lines, payments_by_account invoice.payments)

pub amounts : List (Account × ℤ) → ℤ
amounts [] = pos 0
amounts (d ∷ due) = d.1 +ℤ amounts due

-- The larger of an amount and zero, as the code keeps it in its dictionary.
kept : Option ℤ → ℤ
kept none = pos 0
kept (some a) = a

amounts-put_due :
    (account : Account) (o : Option ℤ) (due : List (Account × ℤ))
    → amounts (put_due account o due) ≡ kept o +ℤ amounts due
unfolding put_due amounts kept
amounts-put_due account none due = omega int_laws
amounts-put_due account (some a) due = refl

IsDue : Option ℤ → Type 0
IsDue none = Unit
IsDue (some a) = pos 0 <ℤ a

All-put_due :
    (account : Account) (o : Option ℤ) (due : List (Account × ℤ))
    → IsDue o
    → All (λ d. pos 0 <ℤ d.1) due
    → All (λ d. pos 0 <ℤ d.1) (put_due account o due)
unfolding put_due IsDue
All-put_due account none due h hs = hs
All-put_due account (some a) due h hs = (h, hs)

if_positive-IsDue : (a : ℤ) → IsDue (if_positive a)
unfolding if_positive IsDue
if_positive-IsDue a = elim (Bool-cases (ltb_ℤ (pos 0) a)) [
  | inl e ↦ rw e (ground arith)
  | inr e ↦ rw e tt
]

due_into-IsDue : (account : Account) (invoice : Invoice) → IsDue (due_into account invoice)
unfolding due_into
due_into-IsDue account invoice = if_positive-IsDue _

-- Two parts of a positive sum, each capped at the sum and dropped unless positive, give the sum.
kept_parts :
    (x y b : ℤ)
    → b ≡ x +ℤ y
    → pos 0 <ℤ b
    → kept (if_positive (min_ℤ x b)) +ℤ (kept (if_positive (min_ℤ y b)) +ℤ amounts []) ≡ b
unfolding kept if_positive amounts
kept_parts x y b e h = grind int_laws

-- Whatever went into which account, and whatever discounts there are, the amounts due of an open
-- invoice with a balance are positive and add up to the balance.
pub amounts-amounts_due :
    (invoice : Invoice)
    → is_open invoice.status ≡ true
    → pos 0 <ℤ balance invoice
    → (amounts (amounts_due invoice) ≡ balance invoice)
      × All (λ d. pos 0 <ℤ d.1) (amounts_due invoice)
unfolding amounts_due
amounts-amounts_due invoice open_now owed = rw open_now (
  simp (amounts-put_due)
      (kept_parts _ _ (balance invoice) (balance_by_account invoice open_now) owed),
  All-put_due trust (due_into trust invoice) (put_due operating (due_into operating invoice) [])
      (due_into-IsDue trust invoice)
      (All-put_due operating (due_into operating invoice) [] (due_into-IsDue operating invoice) tt),
)
