-- ===== src/Billing/Draft.antt =====
-- Drafting and issuing an invoice, after crm/billing/services.py.
pub mod Invariant
pub mod Numbers
use open_immigration_crm.Prelude.{
  ℕ, ◌+◌, max, List, [], ◌∷◌, ◌++◌, Option, none, some, Bool, false, not, ◌&&◌, ◌||◌, ◌==◌, any,
  find, Text, take, is_empty, is_some, ℤ, pos, ltb_ℤ, if◌then◌else◌,
}
use open_immigration_crm.Billing.Money.{billable_hours}
use open_immigration_crm.Billing.Calendar.{add_days}
use open_immigration_crm.Billing.Records.{
  issued, Kind, legal_fee, Funds, earned, InvoiceLine, Number, Invoice, BillingSettings, StaffRate,
  TimeEntry, status_is_draft, subtotal,
}
use open_immigration_crm.Billing.Store.{
  err, not_draft, no_rate, no_amount, integrity, invoice_issued, Store, Env, Action, ◌>>=◌, ◌>>◌,
  pure, gets, require, save, put_settings, log,
}

-- `next_invoice_number`: the sequence starts again each year. Saving keeps the prefix stripped and
-- upper-case, so it is read as it is stored.
unfoldable pub next_invoice_number : ℕ → BillingSettings → Number × BillingSettings
next_invoice_number year settings =
    let value =
      if settings.invoice_sequence_year == year then settings.invoice_sequence_value + 1 else 1 in
    (
      record { prefix = settings.invoice_prefix; year = year; value = value },
      record settings { invoice_sequence_year = year; invoice_sequence_value = value },
    )

unfoldable pub hourly_rate_for : Store → ℕ → Option ℤ
hourly_rate_for s user = elim (find (λ (r : StaffRate). r.user == user) s.rates) [
  | some rate ↦ some rate.hourly_rate
  | none ↦ s.settings.default_hourly_rate
]

unfoldable pub require_draft : Action (Unit {0})
unfolding status_is_draft
require_draft s = require (status_is_draft s.invoice.status) not_draft s

-- The largest position in use, or 0.
unfoldable pub top_position : List InvoiceLine → ℕ
top_position [] = 0
top_position (line ∷ lines) = max line.position (top_position lines)

unfoldable pub next_position : Invoice → ℕ
unfolding top_position
next_position invoice = top_position invoice.lines + 1

unfoldable pub is_billed : ℕ → Store → Bool
is_billed entry s =
    any (λ e. e == entry) s.billed_elsewhere
    || any (λ (l : InvoiceLine). elim (l.time_entry) [ some e ↦ e == entry | none ↦ false ])
        s.invoice.lines

-- `InvoiceLine.objects.create`; a time entry is billed once.
unfoldable pub create_line : InvoiceLine → Action (Unit {0})
unfolding is_billed
create_line line = do
  billed ← gets (λ s. elim (line.time_entry) [ some e ↦ is_billed e s | none ↦ false ])
  require (not billed) integrity
  save (λ invoice. record invoice { lines = invoice.lines ++ line ∷ [] })

-- The line of a time entry, at its rate and for its time rounded up to the increment.
unfoldable pub line_of_time : ℕ → TimeEntry → ℕ → ℤ → InvoiceLine
line_of_time position entry increment rate = record {
  position = position;
  kind = legal_fee;
  funds = earned;
  description = take 255 entry.description;
  quantity = billable_hours entry.duration increment;
  unit_price = rate;
  time_entry = some entry.id;
}

-- One round of the loop in `add_time_to_invoice`. The rate is there: that was checked before.
unfoldable pub time_line : ℕ → TimeEntry → Action (Unit {0})
unfolding hourly_rate_for create_line line_of_time
time_line position entry = do
  rate ← gets (λ s. hourly_rate_for s entry.user)
  increment ← gets (λ s. s.settings.time_increment_minutes)
  elim rate [
    | none ↦ λ _. err no_rate
    | some price ↦ create_line (line_of_time position entry increment price)
  ]

unfoldable pub time_lines : ℕ → List TimeEntry → Action (Unit {0})
unfolding time_line
time_lines position [] = pure tt
time_lines position (entry ∷ entries) =
    time_line position entry >> time_lines (position + 1) entries

unfoldable pub add_time_to_invoice : List TimeEntry → Action (Unit {0})
unfolding require_draft time_lines next_position hourly_rate_for
add_time_to_invoice entries = do
  require_draft
  missing ← gets (λ s. any (λ (e : TimeEntry). not (is_some (hourly_rate_for s e.user))) entries)
  require (not missing) no_rate
  position ← gets (λ s. next_position s.invoice)
  time_lines position entries

-- The caller's fields, the position aside.
unfoldable pub add_line : Kind → Funds → Text → ℕ → ℤ → Action (Unit {0})
unfolding require_draft next_position create_line
add_line kind funds description quantity unit_price = do
  require_draft
  position ← gets (λ s. next_position s.invoice)
  create_line (record {
    position = position;
    kind = kind;
    funds = funds;
    description = description;
    quantity = quantity;
    unit_price = unit_price;
    time_entry = none;
  })

module _ (env : Env) where
  unfoldable pub issue_invoice : Option ℕ → Action (Unit {0})
  unfolding require_draft next_invoice_number
  issue_invoice actor = do
    require_draft
    billable ← gets (λ s. not (is_empty s.invoice.lines) && ltb_ℤ (pos 0) (subtotal s.invoice))
    require billable no_amount
    settings ← gets (λ s. s.settings)
    let numbered = next_invoice_number env.today.year settings
    put_settings numbered.1
    save (λ invoice. record invoice {
      number = some numbered.0;
      issue_date = some env.today;
      due_date = some (add_days env.today settings.payment_terms_days);
      status = issued;
    })
    log actor invoice_issued
