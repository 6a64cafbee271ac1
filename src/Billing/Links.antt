-- ===== src/Billing/Links.antt =====
-- What is owed into each account, after crm/billing/links.py: advances go into trust, earned fees
-- into operating, and each is asked for by a link of its own.
pub mod Due
pub mod Creation
use open_immigration_crm.Prelude.{
  List, [], ◌∷◌, Option, none, some, Bool, not, ◌&&◌, any, select, ℤ, pos, ◌-ℤ◌, ltb_ℤ, leb_ℤ,
  min_ℤ, if◌then◌else◌,
}
use open_immigration_crm.Billing.Records.{
  Account, operating, trust, Funds, earned, advance, Payment, PaymentLink, Invoice, account_eq,
  is_open, is_live, collected, subtotal_for, balance,
}

-- `FUNDS`
unfoldable pub funds_of : Account → Funds
funds_of trust = advance
funds_of operating = earned

-- The live payments into an account.
unfoldable pub paid_into : Account → Invoice → ℤ
unfolding is_live account_eq
paid_into account invoice = collected (
    select (λ (p : Payment). is_live p && account_eq p.fields.deposit_account account)
      invoice.payments)

-- The amount due into one account, if it is above zero.
unfoldable pub if_positive : ℤ → Option ℤ
if_positive amount = if ltb_ℤ (pos 0) amount then some amount else none

unfoldable pub due_into : Account → Invoice → Option ℤ
unfolding funds_of if_positive
due_into account invoice =
    if_positive (
      min_ℤ (subtotal_for invoice (funds_of account) -ℤ paid_into account invoice)
        (balance invoice))

unfoldable pub put_due : Account → Option ℤ → List (Account × ℤ) → List (Account × ℤ)
put_due account none due = due
put_due account (some amount) due = (account, amount) ∷ due

-- `amounts_due`, a dictionary in the order of `FUNDS`.
unfoldable pub amounts_due : Invoice → List (Account × ℤ)
unfolding is_open due_into put_due
amounts_due invoice =
    if is_open invoice.status
    then put_due trust (due_into trust invoice) (put_due operating (due_into operating invoice) [])
    else []

unfoldable pub eq_ℤ : ℤ → ℤ → Bool
eq_ℤ a b = leb_ℤ a b && leb_ℤ b a

unfoldable pub asks_for : Account → ℤ → PaymentLink → Bool
unfolding account_eq eq_ℤ
asks_for account amount link = account_eq link.deposit_account account && eq_ℤ link.amount amount

-- `links_needed`
unfoldable pub links_needed : Invoice → List (Account × ℤ)
unfolding asks_for
links_needed invoice =
    select (λ (d : Account × ℤ). not (any (asks_for d.0 d.1) invoice.links)) (amounts_due invoice)
