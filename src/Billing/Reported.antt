-- ===== src/Billing/Reported.antt =====
-- Payments that payment connectors report, after crm/billing/records.py, at one invoice. What refunds
-- a payment on another invoice is a step at that invoice.
pub mod Once
use open_immigration_crm.Prelude.{
  ℕ, List, [], ◌∷◌, ◌++◌, Option, none, some, Bool, true, false, not, ◌&&◌, ◌||◌, any, find, take,
  Text, text_eq, codes, is_some, ℤ, if◌then◌else◌,
}
use open_immigration_crm.Billing.Calendar.{Date}
use open_immigration_crm.Billing.Records.{
  Method, Account, operating, advance, funds_eq, InvoiceLine, PaymentFields, Payment, Invoice,
  is_live,
}
use open_immigration_crm.Billing.Store.{
  Env, Store, Error, integrity, Result, ok, err, Action, ◌>>=◌, pure, option_eq,
}
use open_immigration_crm.Billing.Service.{record_payment, void_payment}

-- `PAYMENT_STATUSES`
pub data ReportStatus : Type 0 where
  completed failed refunded partially_refunded : ReportStatus

-- `PaymentRecord`, with the date it occurred on in the site's time zone, and whether its reference names
-- the invoice, or none at all. A method that is none of ours is `none`.
pub record PaymentRecord : Type 0 where
  pub external_id : Text
  pub status : ReportStatus
  pub amount : ℤ
  pub method : Option Method
  pub deposit_account : Option Account
  pub received_on : Date
  pub names_invoice : Bool

-- The notes left for staff.
pub data Note : Type 0 where
  partly_refunded unmatched needs_review not_recorded : Note

unfoldable pub is_from : ℕ → Text → Payment → Bool
is_from connection external_id p =
    option_eq p.fields.source_connection (some connection)
    && text_eq p.fields.external_id external_id

-- `deposit_account`
unfoldable pub deposit_account : PaymentRecord → Invoice → Option Account
deposit_account report invoice = elim (report.deposit_account) [
  | some account ↦ some account
  | none ↦
      if any (λ (l : InvoiceLine). funds_eq l.funds advance) invoice.lines
      then none
      else some operating
]

unfoldable pub fields_of : ℕ → Text → Account → PaymentRecord → PaymentFields
fields_of connection label account report = record {
  received_on = report.received_on;
  method = elim (report.method) [ none ↦ Method.other | some method ↦ method ];
  deposit_account = account;
  reference = take 120 report.external_id;
  note = take 255 (codes "Recorded from " ++ label);
  source_connection = some connection;
  external_id = report.external_id;
}

unfoldable pub is_integrity : Error → Bool
is_integrity integrity = true
is_integrity _ = false

-- A `ValidationError` of `record_payment` is left as a note; another error goes on.
unfoldable pub noted : Store → Result (ℕ × Store) → Result (Option Note × Store)
unfolding is_integrity
noted s (ok (id, t)) = ok (none, t)
noted s (err e) = if is_integrity e then err e else ok (some not_recorded, s)

module _ (env : Env) (connection : ℕ) (label : Text) where
  -- A completed payment that is not recorded yet.
  unfoldable pub record_new : PaymentRecord → Action (Option Note)
  unfolding deposit_account fields_of noted
  record_new report s =
      if report.names_invoice
      then elim (deposit_account report s.invoice) [
        | none ↦ ok (some needs_review, s)
        | some account ↦
            noted s
              (record_payment env none report.amount (fields_of connection label account report) s)
      ]
      else ok (some unmatched, s)

  -- A refund of the whole payment.
  unfoldable pub refund : Payment → Action (Option Note)
  refund payment =
      if is_live payment
      then (void_payment env payment.id none (codes "Refunded at " ++ label) >>= (λ _. pure none))
      else pure none

  -- The payment on this invoice that was recorded from the report.
  unfoldable pub existing : PaymentRecord → Store → Option Payment
  unfolding is_from
  existing report s = find (is_from connection report.external_id) s.invoice.payments

  -- `store_one`, for each status.
  unfoldable pub store_as : ReportStatus → PaymentRecord → Action (Option Note)
  unfolding is_from existing record_new refund
  store_as failed report s = ok (none, s)
  store_as refunded report s = elim (existing report s) [
    | none ↦ ok (none, s)
    | some payment ↦ refund payment s
  ]
  store_as partially_refunded report s = elim (existing report s) [
    | none ↦ ok (none, s)
    | some payment ↦ ok (if is_live payment then some partly_refunded else none, s)
  ]
  store_as completed report s =
      if any (is_from connection report.external_id) (s.other_payments ++ s.invoice.payments)
      then ok (none, s)
      else record_new report s

  unfoldable pub store_one : PaymentRecord → Action (Option Note)
  unfolding store_as
  store_one report s = store_as report.status report s

  -- `store_records`; an exception is logged, and its transaction is rolled back.
  unfoldable pub store_records : List PaymentRecord → Store → Store
  unfolding store_one
  store_records [] s = s
  store_records (report ∷ reports) s =
      store_records reports (elim (store_one report s) [ ok (_, t) ↦ t | err _ ↦ s ])
