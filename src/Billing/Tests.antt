-- ===== src/Billing/Tests.antt =====
-- The theorems on billing at one invoice of $300.00 that is issued, put on a plan and paid in part.
mod Payments
mod Figures
mod Schedules
mod Links
use open_immigration_crm.Prelude.{
  ℕ, ◌*◌, ◌+◌, ◌≡◌, refl, List, [], ◌∷◌, Option, none, some, true, false, ℤ, pos, codes, Text, ◌≤ℤ◌,
  ◌<ℤ◌, arith, int_laws, find, is_some, ◌+ℤ◌, ◌-ℤ◌, ◌↔◌, is_space,
}
use open_immigration_crm.Billing.Money.{split_amount}
use open_immigration_crm.Billing.Calendar.{Date, monthly}
use open_immigration_crm.Billing.Calendar.Order.{
  IsDate, add_months_date, installment_dates_increasing,
}
use open_immigration_crm.Billing.Records
use open_immigration_crm.Billing.Records.{
  legal_fee, filing_fee, earned, advance, trust, operating, PaymentFields, Invoice, issued, void,
}
use open_immigration_crm.Billing.Store.{Env, Store}
use open_immigration_crm.Billing.Sync.Invariant.{IsValid, is_out}
use open_immigration_crm.Billing.Money
use open_immigration_crm.Billing.Calendar
use open_immigration_crm.Billing.Store
use open_immigration_crm.Billing.Sync
use open_immigration_crm.Billing.Draft
use open_immigration_crm.Billing.Plans
use open_immigration_crm.Billing.Service
use open_immigration_crm.Billing.Operations
use open_immigration_crm.Billing.Operations.{Request, run, serve, new_draft}
use open_immigration_crm.Billing.Operations.History.{run-IsValid, is_paid-run}
use open_immigration_crm.Billing.Operations.Final.{serve_void}

abbrev today : Date
today = record { year = 2024; month = 1; day = 31 }

abbrev env : Env
env = record {
  now = 1000;
  today = today;
  aware = λ d hour. d.year * 10000 + d.month * 500 + d.day * 24 + hour;
  address_problem = λ contact. false;
}

abbrev fields : PaymentFields
fields = record {
  received_on = today;
  method = Records.check;
  deposit_account = trust;
  reference = codes "1042";
  note = [];
  source_connection = none;
  external_id = [];
}

abbrev empty_store : Store
empty_store = record {
  settings = record {
    invoice_prefix = codes "INV";
    invoice_sequence_year = 2023;
    invoice_sequence_value = 41;
    default_hourly_rate = none;
    payment_terms_days = 30;
    time_increment_minutes = 6;
  };
  rates = [];
  invoice = new_draft 7 none;
  other_payments = [];
  billed_elsewhere = [];
  next_id = 100;
  audit = [];
}

-- A fee of $200.00 and an advance of $100.00, issued, in three installments, $150.00 paid.
abbrev history : List (Env × Option ℕ × Request)
history =
    (env, some 1, Request.add_line legal_fee earned (codes "Fee") 100 (pos 20000))
    ∷ (env, some 1, Request.add_line filing_fee advance (codes "Filing") 100 (pos 10000))
    ∷ (env, some 1, Request.issue)
    ∷ (env, some 1, Request.create_plan 3 today monthly 7 false)
    ∷ (env, some 1, Request.pay (pos 1500000) fields)
    ∷ []

run-IsValid_example : IsValid (run history empty_store).invoice
run-IsValid_example = run-IsValid history empty_store 7 none refl

out_at_end : is_out (run history empty_store).invoice.status ≡ true
unfolding run Records.is_open Service.record_payment Plans.create_plan Draft.issue_invoice
    Draft.add_line new_draft Records.subtotal Records.total ◌+ℤ◌ Records.amount Money.money
    Records.balance ◌-ℤ◌ Records.amount_paid Records.collected Sync.sync_plan Sync.refresh_status
    Calendar.add_days Calendar.add_months Calendar.before Calendar.days_in_month
    Calendar.installment_date Calendar.installment_dates Calendar.is_leap Calendar.next_day
    Calendar.previous_day Calendar.sub_days Calendar.tabulate_from Draft.create_line
    Draft.next_invoice_number Draft.next_position Draft.require_draft Draft.top_position
    Draft.is_billed Money.half_up Money.half_up_ℤ split_amount Operations.action serve
    Plans.new_installment Plans.new_installments Plans.reminder_moment Plans.reminder_time
    Records.in_force Records.is_active Records.is_canceled Records.is_live Records.is_paid
    Records.plan Records.row_is_paid Records.row_state Records.schedule Records.schedule_from
    Records.status_is_draft Service.void_invoice Service.cancel_plan_in_force Service.cancel_first
    Store.clashes Sync.bool_eq Sync.modify_first Sync.settled_status Sync.sync_reminder
    Sync.sync_row Sync.synced Sync.canceled_plan Sync.drop_open_reminder is_space
out_at_end = refl

is_paid-run_example :
    (Records.is_paid (run history empty_store).invoice.status ≡ true)
    ↔ (Records.balance (run history empty_store).invoice ≡ pos 0)
is_paid-run_example = is_paid-run history empty_store 7 none refl out_at_end

-- An invoice that is issued and voided.
abbrev voided_history : List (Env × Option ℕ × Request)
voided_history =
    (env, some 1, Request.add_line legal_fee earned (codes "Fee") 100 (pos 20000))
    ∷ (env, some 1, Request.issue)
    ∷ (env, some 1, Request.void_invoice (codes "Duplicate"))
    ∷ []

voided_history_is_void : (run voided_history empty_store).invoice.status ≡ void
unfolding run Records.is_open Service.record_payment Plans.create_plan Draft.issue_invoice
    Draft.add_line new_draft Records.subtotal Records.total ◌+ℤ◌ Records.amount Money.money
    Records.balance ◌-ℤ◌ Records.amount_paid Records.collected Sync.sync_plan Sync.refresh_status
    Calendar.add_days Calendar.add_months Calendar.before Calendar.days_in_month
    Calendar.installment_date Calendar.installment_dates Calendar.is_leap Calendar.next_day
    Calendar.previous_day Calendar.sub_days Calendar.tabulate_from Draft.create_line
    Draft.next_invoice_number Draft.next_position Draft.require_draft Draft.top_position
    Draft.is_billed Money.half_up Money.half_up_ℤ split_amount Operations.action serve
    Plans.new_installment Plans.new_installments Plans.reminder_moment Plans.reminder_time
    Records.in_force Records.is_active Records.is_canceled Records.is_live Records.is_paid
    Records.plan Records.row_is_paid Records.row_state Records.schedule Records.schedule_from
    Records.status_is_draft Service.void_invoice Service.cancel_plan_in_force Service.cancel_first
    Store.clashes Sync.bool_eq Sync.modify_first Sync.settled_status Sync.sync_reminder
    Sync.sync_row Sync.synced Sync.canceled_plan Sync.drop_open_reminder is_space
voided_history_is_void = refl

serve_void_example :
    ((e : Store.Error) × (Operations.action env
          (some 1)
          (Request.pay (pos 100) fields)
          (run voided_history empty_store)
        ≡ Store.err e))
    × (serve env (some 1) (Request.pay (pos 100) fields) (run voided_history empty_store)
        ≡ run voided_history empty_store)
serve_void_example =
    serve_void env (some 1) (Request.pay (pos 100) fields) (run voided_history empty_store)
      (run-IsValid voided_history empty_store 7 none refl) voided_history_is_void
