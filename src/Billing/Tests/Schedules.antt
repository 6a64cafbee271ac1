-- ===== src/Billing/Tests/Schedules.antt =====
-- The theorems on schedules at an invoice with $150.00 paid on a plan of three times $100.00.
use open_immigration_crm.Prelude.{
  ℕ, ◌≡◌, [], ◌∷◌, none, some, false, pos, ◌+ℤ◌, ◌≤ℤ◌, arith, codes, map,
}
use open_immigration_crm.Billing.Calendar.{monthly}
use open_immigration_crm.Billing.Records
use open_immigration_crm.Billing.Records.{
  WorkItem, Installment, PaymentPlan, Invoice, amount_paid, schedule, row_is_paid,
}
use open_immigration_crm.Billing.Records.Schedule.{ArePositive, covered, map-row_is_paid-schedule}
use open_immigration_crm.Billing.Sync.{synced}
use open_immigration_crm.Billing.Sync.Reminders.{Agree, synced-Agree}
use open_immigration_crm.Billing.Tests.{today, env, fields}

abbrev installment : ℕ → Installment
installment n = record {
  sequence = n;
  due_date = record { year = 2024; month = n; day = 29 };
  amount = pos 10000;
  reminder = some record {
    assigned_to = none;
    scheduled_for = 0;
    description = [];
    is_completed = false;
    completed_at = none;
  };
  reminder_emailed_at = none;
  reminder_email_error = [];
}

abbrev pub three_parts : PaymentPlan
three_parts = record {
  id = 5;
  status = Records.PlanStatus.active;
  frequency = monthly;
  reminder_days_before = 3;
  email_reminders = false;
  created_by = none;
  canceled_at = none;
  installments = installment 1 ∷ installment 2 ∷ installment 3 ∷ [];
}

abbrev pub part_paid : Invoice
part_paid = record {
  number = some record { prefix = codes "INV"; year = 2024; value = 1 };
  contact = 7;
  matter = none;
  status = Records.Status.partially_paid;
  issue_date = some today;
  due_date = some today;
  void_reason = [];
  lines =
      record {
        position = 1;
        kind = Records.legal_fee;
        funds = Records.earned;
        description = codes "Fee";
        quantity = 100;
        unit_price = pos 30000;
        time_entry = none;
      }
      ∷ [];
  payments =
      record {
        id = 9;
        amount = pos 15000;
        recorded_by = none;
        fields = fields;
        voided_at = none;
        void_reason = [];
      }
      ∷ [];
  plans = three_parts ∷ [];
  links = [];
}

three_parts-ArePositive : ArePositive three_parts.installments
three_parts-ArePositive = (omega (arith), (omega (arith), (omega (arith), tt)))

part_paid_nonneg : pos 0 ≤ℤ amount_paid part_paid
unfolding amount_paid Records.collected Records.is_live ◌+ℤ◌
part_paid_nonneg = omega (arith)

map-row_is_paid-schedule_example :
    map row_is_paid (schedule part_paid three_parts today)
    ≡ covered (amount_paid part_paid) (pos 0) three_parts.installments
map-row_is_paid-schedule_example =
    map-row_is_paid-schedule part_paid three_parts today part_paid_nonneg three_parts-ArePositive

synced-Agree_example :
    Agree
      (synced env part_paid three_parts).installments
      (covered (amount_paid part_paid) (pos 0) three_parts.installments)
synced-Agree_example =
    synced-Agree env part_paid three_parts part_paid_nonneg three_parts-ArePositive
