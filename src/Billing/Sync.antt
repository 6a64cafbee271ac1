-- ===== src/Billing/Sync.antt =====
-- What a payment changes besides its own row: the invoice's status (`refresh_status`) and the
-- plan in force with its reminders (`sync_plan`), after crm/billing/services.py.
pub mod Invariant
pub mod Reminders
use open_immigration_crm.Prelude.{
  ℕ, List, [], ◌∷◌, none, some, Bool, true, false, not, ◌||◌, map, ℤ, pos, ltb_ℤ, leb_ℤ,
  if◌then◌else◌,
}
use open_immigration_crm.Billing.Records.{
  Status, issued, partially_paid, WorkItem, Installment, active, completed, canceled, PaymentPlan,
  Invoice, is_open, is_paid, in_force, subtotal, amount_paid, Row, schedule, row_is_paid,
}
use open_immigration_crm.Billing.Store.{Env}

-- The status that what has been paid gives an invoice that is out.
unfoldable pub settled_status : ℤ → ℤ → Status
settled_status paid owed =
    if leb_ℤ owed paid then Status.paid else if ltb_ℤ (pos 0) paid then partially_paid else issued

unfoldable pub refresh_status : Invoice → Invoice
unfolding is_open is_paid settled_status
refresh_status invoice =
    if is_open invoice.status || is_paid invoice.status
    then record invoice { status = settled_status (amount_paid invoice) (subtotal invoice) }
    else invoice

unfoldable pub bool_eq : Bool → Bool → Bool
bool_eq true b = b
bool_eq false b = not b

-- A reminder is completed when its installment is paid, and open again when it is not.
unfoldable pub sync_reminder : ℕ → Bool → WorkItem → WorkItem
unfolding bool_eq
sync_reminder now paid reminder =
    if bool_eq reminder.is_completed paid
    then reminder
    else record reminder { is_completed = paid; completed_at = if paid then some now else none }

unfoldable pub sync_row : ℕ → Row → Installment
unfolding sync_reminder row_is_paid
sync_row now row = record (row.installment) {
  reminder = elim (row.installment.reminder) [
    | none ↦ none
    | some reminder ↦ some (sync_reminder now (row_is_paid row) reminder)
  ];
}

-- Save the first row that a query finds.
unfoldable pub modify_first {ℓ} : {A : Type ℓ} → (A → Bool) → (A → A) → List A → List A
modify_first p f [] = []
modify_first p f (x ∷ xs) = if p x then f x ∷ xs else x ∷ modify_first p f xs

unfoldable pub synced : Env → Invoice → PaymentPlan → PaymentPlan
unfolding sync_row is_paid
synced env invoice p = record p {
  installments = map (sync_row env.now) (schedule invoice p env.today);
  status = if is_paid invoice.status then completed else active;
}

-- `sync_plan`
unfoldable pub sync_plan : Env → Invoice → Invoice
unfolding modify_first synced
sync_plan env invoice = record invoice {
  plans = modify_first in_force (synced env invoice) invoice.plans;
}

unfoldable pub drop_open_reminder : Installment → Installment
drop_open_reminder i = elim (i.reminder) [
  | none ↦ i
  | some r ↦ if r.is_completed then i else record i { reminder = none }
]

unfoldable pub canceled_plan : ℕ → PaymentPlan → PaymentPlan
unfolding drop_open_reminder
canceled_plan now p = record p {
  installments = map drop_open_reminder p.installments;
  status = canceled;
  canceled_at = some now;
}
