-- ===== src/Billing/Store.antt =====
-- The database as a service of crm/billing/services.py sees it: one invoice with its rows, the
-- settings, and of the rest what its constraints read. A raise rolls the transaction back, so an
-- error carries no store.
pub mod Holds
use open_immigration_crm.Prelude.{
  ℕ, ◌+◌, List, [], ◌∷◌, ◌++◌, Option, some, Bool, false, ◌&&◌, ◌==◌, any, is_empty, not, text_eq,
  if◌then◌else◌,
}
use open_immigration_crm.Billing.Calendar.{Date}
use open_immigration_crm.Billing.Records.{
  Invoice, Payment, PaymentFields, BillingSettings, StaffRate,
}

-- The `ValidationError`s, the `IntegrityError` of a unique constraint, and `DoesNotExist`.
pub data Error : Type 0 where
  not_draft no_rate no_amount not_open not_positive above_balance : Error
  already_void no_reason has_payments no_balance has_plan bad_count : Error
  past_date bad_address plan_not_active already_canceled : Error
  integrity not_found : Error

pub data Result (A : Type 0) : Type 0 where
  ok : A → Result A
  err : Error → Result A

-- `AuditLog.action`
pub data AuditAction : Type 0 where
  invoice_issued invoice_voided invoice_draft_deleted : AuditAction
  payment_recorded payment_voided : AuditAction
  plan_created plan_canceled plan_email_reminders_on plan_email_reminders_off : AuditAction

pub record AuditLog : Type 0 where
  pub user : Option ℕ
  pub action : AuditAction

pub record Store : Type 0 where
  pub settings : BillingSettings
  pub rates : List StaffRate
  pub invoice : Invoice
  -- The payments and the billed time entries of the other invoices, which unique constraints read.
  pub other_payments : List Payment
  pub billed_elsewhere : List ℕ
  pub next_id : ℕ
  pub audit : List AuditLog

-- What the services read of the clock, the time zone and the contact: Django's, not the source's.
pub record Env : Type 0 where
  pub now : ℕ
  pub today : Date
  -- `timezone.make_aware(datetime.combine(day, time(hour)))`
  pub aware : Date → ℕ → ℕ
  -- Whether `validate_email` refuses the contact's address.
  pub address_problem : ℕ → Bool

abbrev pub Action : Type 0 → Type 0
Action A = Store → Result (A × Store)

infixl 5 ◌>>=◌ ◌>>◌
abbrev pub ◌>>=◌ : {A B : Type 0} → Action A → (A → Action B) → Action B
◌>>=◌ m f s = elim (m s) [ ok (a, t) ↦ f a t | err e ↦ err e ]

abbrev pub ◌>>◌ : {A B : Type 0} → Action A → Action B → Action B
m >> k = m >>= λ _. k

abbrev pub pure : {A : Type 0} → A → Action A
pure a s = ok (a, s)

abbrev pub gets : {A : Type 0} → (Store → A) → Action A
gets f s = ok (f s, s)

abbrev pub require : Bool → Error → Action (Unit {0})
require b e s = if b then ok (tt, s) else err e

-- Save the invoice or a row that hangs off it.
abbrev pub save : (Invoice → Invoice) → Action (Unit {0})
save f s = ok (tt, record s { invoice = f s.invoice })

abbrev pub put_settings : BillingSettings → Action (Unit {0})
put_settings settings s = ok (tt, record s { settings = settings })

-- A new primary key.
abbrev pub fresh : Action ℕ
fresh s = ok (s.next_id, record s { next_id = s.next_id + 1 })

-- `record` of services.py
abbrev pub log : Option ℕ → AuditAction → Action (Unit {0})
log user action s =
    ok (tt, record s { audit = s.audit ++ record { user = user; action = action } ∷ [] })

-- What is in the database after a request: a refused one has changed nothing.
abbrev pub commit : {A : Type 0} → Action A → Store → Store
commit m s = elim (m s) [ ok (_, t) ↦ t | err _ ↦ s ]

abbrev pub option_eq : Option ℕ → Option ℕ → Bool
option_eq (some a) (some b) = a == b
option_eq _ _ = false

-- `billing_one_payment_per_provider_id`: SQL compares no null source.
unfoldable pub clashes : PaymentFields → List Payment → Bool
clashes fields payments =
    not (is_empty fields.external_id)
    && any
        (λ p.
          option_eq p.fields.source_connection fields.source_connection
          && text_eq p.fields.external_id fields.external_id)
        payments
