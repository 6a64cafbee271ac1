-- ===== src/Billing/Tests/Payments.antt =====
-- A payment, its voiding and a plan for an invoice of $300.00 that is just issued.
use open_immigration_crm.Prelude.{
  ℕ, ◌+◌, ◌≡◌, refl, List, [], ◌∷◌, ◌++◌, Option, none, some, true, false, pos, codes, ◌<ℤ◌, arith,
  find, is_some, ◌==◌, ◌+ℤ◌, ◌-ℤ◌, is_space, ltb_ℤ, leb_ℤ, is_empty, strip, All,
}
use open_immigration_crm.Billing.Money.{split_amount, money}
use open_immigration_crm.Billing.Calendar.{monthly}
use open_immigration_crm.Billing.Calendar.Order.{IsDate}
use open_immigration_crm.Billing.Records.{
  legal_fee, filing_fee, earned, advance, Payment, PaymentPlan, Invoice, is_open, balance, plan,
}
use open_immigration_crm.Billing.Store.{Env, Store, ok, clashes, plan_created}
use open_immigration_crm.Billing.Service.{record_payment, void_payment}
use open_immigration_crm.Billing.Plans.{create_plan}
use open_immigration_crm.Billing.Operations.{Request, run, serve, new_draft}
use open_immigration_crm.Billing.Operations.History.{run-IsValid}
use open_immigration_crm.Billing.Service.RoundTrip.{void_payment-record_payment}
use open_immigration_crm.Billing.Plans.Created.{IsSplit, create_plan_splits}
use open_immigration_crm.Billing.Links.{amounts_due}
use open_immigration_crm.Billing.Links.Due.{amounts, amounts-amounts_due}
use open_immigration_crm.Billing.Reported
use open_immigration_crm.Billing.Reported.{PaymentRecord, store_records}
use open_immigration_crm.Billing.Reported.Once.{AreOnce, IsKept, store_records-IsKept}
use open_immigration_crm.Billing.Tests.{today, env, fields, empty_store}
use open_immigration_crm.Billing.Money
use open_immigration_crm.Billing.Calendar
use open_immigration_crm.Billing.Records
use open_immigration_crm.Billing.Store
use open_immigration_crm.Billing.Sync
use open_immigration_crm.Billing.Draft
use open_immigration_crm.Billing.Plans
use open_immigration_crm.Billing.Service
use open_immigration_crm.Billing.Operations

abbrev issued_history : List (Env × Option ℕ × Request)
issued_history =
    (env, some 1, Request.add_line legal_fee earned (codes "Fee") 100 (pos 20000))
    ∷ (env, some 1, Request.add_line filing_fee advance (codes "Filing") 100 (pos 10000))
    ∷ (env, some 1, Request.issue)
    ∷ []

abbrev issued_store : Store
issued_store = run issued_history empty_store

-- What the theorems ask of the invoice, by computation.
issued_facts :
    (is_open issued_store.invoice.status ≡ true)
    × ((balance issued_store.invoice ≡ pos 30000)
        × ((clashes fields (issued_store.other_payments ++ issued_store.invoice.payments) ≡ false)
            × ((find (λ (p : Payment). p.id == issued_store.next_id) issued_store.invoice.payments
                  ≡ none)
                × (is_some (plan issued_store.invoice) ≡ false))))
unfolding run Records.is_open Service.record_payment Plans.create_plan Draft.issue_invoice
    Draft.add_line new_draft Records.subtotal Records.total ◌+ℤ◌ Records.amount Money.money
    Records.balance ◌-ℤ◌ Records.amount_paid Records.collected Sync.sync_plan Sync.refresh_status
    Calendar.add_days Calendar.add_months Calendar.before Calendar.days_in_month
    Calendar.installment_date Calendar.installment_dates Calendar.is_leap Calendar.next_day
    Calendar.previous_day Calendar.sub_days Calendar.tabulate_from Draft.create_line
    Draft.next_invoice_number Draft.next_position Draft.require_draft Draft.top_position
    Draft.is_billed Money.half_up Money.half_up_ℤ split_amount Operations.action serve
    Plans.new_installment Plans.new_installments Plans.reminder_moment Plans.reminder_time
    Records.in_force Records.is_active Records.is_canceled Records.is_live Records.is_paid
    Records.plan Records.row_is_paid Records.row_state Records.schedule Records.schedule_from
    Records.status_is_draft Service.void_invoice Service.cancel_plan_in_force Service.cancel_first
    Store.clashes Sync.bool_eq Sync.modify_first Sync.settled_status Sync.sync_reminder
    Sync.sync_row Sync.synced Sync.canceled_plan Sync.drop_open_reminder is_space
issued_facts = (refl, (refl, (refl, (refl, refl))))

affordable :
    (ltb_ℤ (pos 0) (money (pos 1000000)) ≡ true)
    × (leb_ℤ (money (pos 1000000)) (balance issued_store.invoice) ≡ true)
unfolding Money.money Money.half_up Money.half_up_ℤ
affordable = (refl, rw (issued_facts.1.0) refl)

given : is_empty (strip (codes "Bounced")) ≡ false
unfolding is_space
given = refl

void_payment-record_payment_example :
    (t u : Store) × (record_payment env none (pos 1000000) fields issued_store
      ≡ ok (issued_store.next_id, t))
    × (void_payment env issued_store.next_id (some 2) (codes "Bounced") t ≡ ok (tt, u))
    × (balance u.invoice ≡ balance issued_store.invoice)
    × (u.invoice.status ≡ issued_store.invoice.status)
void_payment-record_payment_example =
    void_payment-record_payment env issued_store none (pos 1000000) fields issued_facts.0
      affordable.0 affordable.1 issued_facts.1.1.0
      (run-IsValid issued_history empty_store 7 none refl) env (some 2) (codes "Bounced") given
      issued_facts.1.1.1.0

pub today-IsDate : IsDate today
unfolding Calendar.days_in_month Calendar.is_leap
today-IsDate = record {
  month_from = omega (arith);
  month_to = omega (arith);
  day_from = omega (arith);
  day_to = omega (arith);
}

not_past : Calendar.before today env.today ≡ false
unfolding Calendar.before
not_past = refl

create_plan_splits_example :
    (p : PaymentPlan) × (create_plan env (some 1) 3 today monthly 7 false issued_store
      ≡ ok (
        issued_store.next_id,
        record issued_store {
          invoice = record (issued_store.invoice) { plans = p ∷ issued_store.invoice.plans };
          next_id = issued_store.next_id + 1;
          audit = issued_store.audit ++ record { user = some 1; action = plan_created } ∷ [];
        },
      ))
    × IsSplit issued_store.invoice 3 p
create_plan_splits_example =
    create_plan_splits env issued_store (some 1) 3 today monthly 7 false today-IsDate issued_facts.0
      (rw (issued_facts.1.0) refl) issued_facts.1.1.1.1 refl refl not_past refl

amounts-amounts_due_example :
    (amounts (amounts_due issued_store.invoice) ≡ balance issued_store.invoice)
    × All (λ d. pos 0 <ℤ d.1) (amounts_due issued_store.invoice)
amounts-amounts_due_example =
    amounts-amounts_due issued_store.invoice issued_facts.0 (rw (issued_facts.1.0) (omega (arith)))

no_payments_yet : AreOnce issued_store.invoice.payments
unfolding run Records.is_open Service.record_payment Plans.create_plan Draft.issue_invoice
    Draft.add_line new_draft Records.subtotal Records.total ◌+ℤ◌ Records.amount Money.money
    Records.balance ◌-ℤ◌ Records.amount_paid Records.collected Sync.sync_plan Sync.refresh_status
    Calendar.add_days Calendar.add_months Calendar.before Calendar.days_in_month
    Calendar.installment_date Calendar.installment_dates Calendar.is_leap Calendar.next_day
    Calendar.previous_day Calendar.sub_days Calendar.tabulate_from Draft.create_line
    Draft.next_invoice_number Draft.next_position Draft.require_draft Draft.top_position
    Draft.is_billed Money.half_up Money.half_up_ℤ split_amount Operations.action serve
    Plans.new_installment Plans.new_installments Plans.reminder_moment Plans.reminder_time
    Records.in_force Records.is_active Records.is_canceled Records.is_live Records.is_paid
    Records.plan Records.row_is_paid Records.row_state Records.schedule Records.schedule_from
    Records.status_is_draft Service.void_invoice Service.cancel_plan_in_force Service.cancel_first
    Store.clashes Sync.bool_eq Sync.modify_first Sync.settled_status Sync.sync_reminder
    Sync.sync_row Sync.synced Sync.canceled_plan Sync.drop_open_reminder is_space
no_payments_yet = tt

abbrev reports : List PaymentRecord
reports =
    record {
      external_id = codes "ch_1";
      status = Reported.completed;
      amount = pos 1000000;
      method = none;
      deposit_account = some Records.operating;
      received_on = today;
      names_invoice = true;
    }
    ∷ record {
      external_id = codes "ch_1";
      status = Reported.refunded;
      amount = pos 1000000;
      method = none;
      deposit_account = none;
      received_on = today;
      names_invoice = false;
    }
    ∷ []

store_records-IsKept_example : IsKept (store_records env 3 (codes "Processor") reports issued_store)
store_records-IsKept_example =
    store_records-IsKept env 3 (codes "Processor") reports issued_store (record {
      valid = run-IsValid issued_history empty_store 7 none refl;
      once = no_payments_yet;
    })
