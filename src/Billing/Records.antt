-- ===== src/Billing/Records.antt =====
-- The rows of crm/billing/models.py that hang off one invoice, with their properties, and the
-- `TimeEntry` and `WorkItem` fields of crm/models.py that billing reads. Primary keys, users and
-- moments are numbers; texts are code points.
pub mod Schedule
use open_immigration_crm.Prelude.{
  ℕ, List, [], ◌∷◌, Option, none, some, Bool, true, false, not, ◌&&◌, if◌then◌else◌, Text, select,
  find, is_some, ℤ, pos, ◌+ℤ◌, ◌-ℤ◌, leb_ℤ, ltb_ℤ, min_ℤ, scale,
}
use open_immigration_crm.Billing.Money.{money}
use open_immigration_crm.Billing.Calendar.{Date, before, Frequency}

-- `Invoice.Status`
pub data Status : Type 0 where
  draft issued partially_paid paid void : Status

-- `InvoiceLine.Kind`
pub data Kind : Type 0 where
  legal_fee consultation filing_fee translation court_fee other : Kind

-- `InvoiceLine.Funds`
pub data Funds : Type 0 where
  earned advance : Funds

-- `Payment.Method`
pub data Method : Type 0 where
  check card bank_transfer cash money_order other : Method

-- `Payment.Account`
pub data Account : Type 0 where
  operating trust : Account

-- The quantity is in hundredths, the price in cents and of either sign.
pub record InvoiceLine : Type 0 where
  pub position : ℕ
  pub kind : Kind
  pub funds : Funds
  pub description : Text
  pub quantity : ℕ
  pub unit_price : ℤ
  pub time_entry : Option ℕ

unfoldable pub amount : InvoiceLine → ℤ
amount line = money (scale line.quantity line.unit_price)

pub record PaymentFields : Type 0 where
  pub received_on : Date
  pub method : Method
  pub deposit_account : Account
  pub reference : Text
  pub note : Text
  pub source_connection : Option ℕ
  pub external_id : Text

pub record Payment : Type 0 where
  pub id : ℕ
  pub amount : ℤ
  pub recorded_by : Option ℕ
  pub fields : PaymentFields
  pub voided_at : Option ℕ
  pub void_reason : Text

-- The parts of `number`, which are printed with dashes and the value padded to four digits.
pub record Number : Type 0 where
  pub prefix : Text
  pub year : ℕ
  pub value : ℕ

-- The staff reminder of an installment. `WorkItem.save` keeps `completed_at` in step.
pub record WorkItem : Type 0 where
  pub assigned_to : Option ℕ
  pub scheduled_for : ℕ
  pub description : Text
  pub is_completed : Bool
  pub completed_at : Option ℕ

pub record Installment : Type 0 where
  pub sequence : ℕ
  pub due_date : Date
  pub amount : ℤ
  pub reminder : Option WorkItem
  pub reminder_emailed_at : Option ℕ
  pub reminder_email_error : Text

-- `PaymentPlan.Status`
pub data PlanStatus : Type 0 where
  active completed canceled : PlanStatus

pub record PaymentPlan : Type 0 where
  pub id : ℕ
  pub status : PlanStatus
  pub frequency : Frequency
  pub reminder_days_before : ℕ
  pub email_reminders : Bool
  pub created_by : Option ℕ
  pub canceled_at : Option ℕ
  pub installments : List Installment

pub record PaymentLink : Type 0 where
  pub deposit_account : Account
  pub amount : ℤ
  pub url : Text
  pub source_connection : Option ℕ
  pub created_by : Option ℕ

-- One invoice and the rows that belong to it.
pub record Invoice : Type 0 where
  pub number : Option Number
  pub contact : ℕ
  pub matter : Option ℕ
  pub status : Status
  pub issue_date : Option Date
  pub due_date : Option Date
  pub void_reason : Text
  pub lines : List InvoiceLine
  pub payments : List Payment
  pub plans : List PaymentPlan
  pub links : List PaymentLink

pub record BillingSettings : Type 0 where
  pub invoice_prefix : Text
  pub invoice_sequence_year : ℕ
  pub invoice_sequence_value : ℕ
  pub default_hourly_rate : Option ℤ
  pub payment_terms_days : ℕ
  pub time_increment_minutes : ℕ

pub record StaffRate : Type 0 where
  pub user : ℕ
  pub hourly_rate : ℤ

-- A stopped time entry, its duration in microseconds.
pub record TimeEntry : Type 0 where
  pub id : ℕ
  pub user : ℕ
  pub duration : ℕ
  pub description : Text

unfoldable pub funds_eq : Funds → Funds → Bool
funds_eq earned earned = true
funds_eq advance advance = true
funds_eq _ _ = false

unfoldable pub account_eq : Account → Account → Bool
account_eq operating operating = true
account_eq trust trust = true
account_eq _ _ = false

unfoldable pub status_is_draft : Status → Bool
status_is_draft draft = true
status_is_draft _ = false

-- `OPEN_STATUSES`
unfoldable pub is_open : Status → Bool
is_open issued = true
is_open partially_paid = true
is_open _ = false

unfoldable pub is_paid : Status → Bool
is_paid paid = true
is_paid _ = false

unfoldable pub is_canceled : PlanStatus → Bool
is_canceled canceled = true
is_canceled _ = false

unfoldable pub is_active : PlanStatus → Bool
is_active active = true
is_active _ = false

-- The sum of a list of lines. `money` leaves a whole number of cents as it is.
unfoldable pub total : List InvoiceLine → ℤ
total [] = pos 0
total (line ∷ lines) = amount line +ℤ total lines

unfoldable pub subtotal : Invoice → ℤ
subtotal invoice = total invoice.lines

unfoldable pub subtotal_for : Invoice → Funds → ℤ
unfolding funds_eq
subtotal_for invoice funds = total (select (λ line. funds_eq line.funds funds) invoice.lines)

unfoldable pub is_live : Payment → Bool
is_live payment = not (is_some payment.voided_at)

unfoldable pub collected : List Payment → ℤ
collected [] = pos 0
collected (payment ∷ payments) = payment.amount +ℤ collected payments

unfoldable pub amount_paid : Invoice → ℤ
unfolding is_live
amount_paid invoice = collected (select is_live invoice.payments)

unfoldable pub balance : Invoice → ℤ
balance invoice = elim (invoice.status) [
  | void ↦ pos 0
  | _ ↦ subtotal invoice -ℤ amount_paid invoice
]

unfoldable pub in_force : PaymentPlan → Bool
unfolding is_canceled
in_force p = not (is_canceled p.status)

-- `Invoice.plan`
unfoldable pub plan : Invoice → Option PaymentPlan
plan invoice = find in_force invoice.plans

-- `Invoice.is_overdue`, on the date `today`.
unfoldable pub is_overdue : Invoice → Date → Bool
unfolding is_open before
is_overdue invoice today =
    is_open invoice.status && elim (invoice.due_date) [ none ↦ false | some due ↦ before due today ]

-- `PaymentPlan.schedule`: payments are applied to the oldest installments first.
pub data RowState : Type 0 where
  paid overdue partially_paid due : RowState

pub record Row : Type 0 where
  pub installment : Installment
  pub applied : ℤ
  pub state : RowState

unfoldable pub row_state : Installment → ℤ → Date → RowState
unfolding before
row_state installment applied today =
    if leb_ℤ installment.amount applied
    then RowState.paid
    else if before installment.due_date today
    then overdue
    else if ltb_ℤ (pos 0) applied
    then RowState.partially_paid
    else due

unfoldable pub schedule_from : ℤ → Date → List Installment → List Row
unfolding row_state
schedule_from remaining today [] = []
schedule_from remaining today (installment ∷ installments) =
    let applied = min_ℤ remaining installment.amount in
    record {
      installment = installment;
      applied = applied;
      state = row_state installment applied today;
    }
    ∷ schedule_from (remaining -ℤ applied) today installments

unfoldable pub schedule : Invoice → PaymentPlan → Date → List Row
unfolding schedule_from
schedule invoice p today = schedule_from (amount_paid invoice) today p.installments

unfoldable pub row_is_paid : Row → Bool
row_is_paid row = elim (row.state) [ RowState.paid ↦ true | _ ↦ false ]

-- `PaymentPlan.next_due`
unfoldable pub next_due : Invoice → PaymentPlan → Date → Option Row
unfolding schedule row_is_paid
next_due invoice p today = find (λ row. not (row_is_paid row)) (schedule invoice p today)
