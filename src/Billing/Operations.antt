-- ===== src/Billing/Operations.antt =====
-- Every request that crm/billing/services.py serves for one invoice, and what any sequence of them
-- leaves in the database.
pub mod History
pub mod Final
use open_immigration_crm.Prelude.{
  ℕ, ◌≡◌, refl, List, [], ◌∷◌, Option, none, some, Bool, true, false, Text, ℤ, pos, ◌≤ℤ◌, arith,
}
use open_immigration_crm.Billing.Calendar.{Date, Frequency}
use open_immigration_crm.Billing.Records.{
  Status, draft, issued, partially_paid, void, Kind, Funds, PaymentFields, TimeEntry, Invoice,
}
use open_immigration_crm.Billing.Store.{Env, Store, Action, ◌>>=◌, pure, commit}
use open_immigration_crm.Billing.Store.Holds.{commit-keeps}
use open_immigration_crm.Billing.Sync.Invariant.{IsSound, IsValid}
use open_immigration_crm.Billing.Draft
use open_immigration_crm.Billing.Draft.{add_time_to_invoice, issue_invoice}
use open_immigration_crm.Billing.Draft.Invariant.{
  add_line-IsValid, add_time_to_invoice-IsValid, issue_invoice-IsValid,
}
use open_immigration_crm.Billing.Service
use open_immigration_crm.Billing.Service.{record_payment}
use open_immigration_crm.Billing.Service.Payments.{record_payment-IsValid}
use open_immigration_crm.Billing.Service.Voided.{void_payment-IsValid}
use open_immigration_crm.Billing.Service.Plans.{cancel_plan-IsValid, void_invoice-IsValid}
use open_immigration_crm.Billing.Plans
use open_immigration_crm.Billing.Plans.Invariant.{create_plan-IsValid, set_email_reminders-IsValid}

pub data Request : Type 0 where
  add_line : Kind → Funds → Text → ℕ → ℤ → Request
  add_time : List TimeEntry → Request
  issue : Request
  pay : ℤ → PaymentFields → Request
  void_payment : ℕ → Text → Request
  void_invoice : Text → Request
  create_plan : ℕ → Date → Frequency → ℕ → Bool → Request
  cancel_plan : ℕ → Request
  set_email_reminders : ℕ → Bool → Request

-- The service that a request calls, its result dropped.
unfoldable pub action : Env → Option ℕ → Request → Action (Unit {0})
action env actor (Request.add_line k f d q u) = Draft.add_line k f d q u
action env actor (add_time entries) = add_time_to_invoice entries
action env actor issue = issue_invoice env actor
action env actor (pay value fields) = record_payment env actor value fields >>= λ _. pure tt
action env actor (Request.void_payment id reason) = Service.void_payment env id actor reason
action env actor (Request.void_invoice reason) = Service.void_invoice env actor reason
action env actor (Request.create_plan n day f before email) =
    Plans.create_plan env actor n day f before email >>= λ _. pure tt
action env actor (Request.cancel_plan id) = Service.cancel_plan env id actor
action env actor (Request.set_email_reminders id on) = Plans.set_email_reminders env id actor on

-- One request by a user, at the time and place that the environment gives.
unfoldable pub serve : Env → Option ℕ → Request → Store → Store
unfolding action
serve env actor request s = commit (action env actor request) s

-- A history: the requests in the order in which they are served.
unfoldable pub run : List (Env × Option ℕ × Request) → Store → Store
unfolding serve
run [] s = s
run ((env, actor, request) ∷ later) s = run later (serve env actor request s)

-- A draft as the invoice form makes it.
unfoldable pub new_draft : ℕ → Option ℕ → Invoice
new_draft contact matter = record {
  number = none;
  contact = contact;
  matter = matter;
  status = draft;
  issue_date = none;
  due_date = none;
  void_reason = [];
  lines = [];
  payments = [];
  plans = [];
  links = [];
}
