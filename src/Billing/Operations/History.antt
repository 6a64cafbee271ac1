-- ===== src/Billing/Operations/History.antt =====
-- What holds of an invoice after any history of requests.
use open_immigration_crm.Prelude.{
  ℕ, ◌≡◌, ◌↔◌, refl, List, [], ◌∷◌, Option, true, ℤ, pos, ◌≤ℤ◌, ◌-ℤ◌, arith, int_laws, parts_of_eq,
  leb_ℤ, leb_ℤ-≤ℤ, ≤ℤ-leb_ℤ, ap, sym, ◌∙◌,
}
use open_immigration_crm.Billing.Records.{
  Invoice, status_is_draft, is_open, is_paid, subtotal, amount_paid, balance,
}
use open_immigration_crm.Billing.Store.{Env, Store, pure}
use open_immigration_crm.Billing.Store.Holds.{Holds, >>=-Holds, commit-keeps}
use open_immigration_crm.Billing.Sync.{settled_status}
use open_immigration_crm.Billing.Sync.Invariant.{IsValid, Keeps, is_out}
use open_immigration_crm.Billing.Draft.Invariant.{
  add_line-IsValid, add_time_to_invoice-IsValid, issue_invoice-IsValid,
}
use open_immigration_crm.Billing.Service.Payments.{record_payment-IsValid}
use open_immigration_crm.Billing.Service.Voided.{void_payment-IsValid}
use open_immigration_crm.Billing.Service.Plans.{cancel_plan-IsValid, void_invoice-IsValid}
use open_immigration_crm.Billing.Plans.Invariant.{create_plan-IsValid, set_email_reminders-IsValid}
use open_immigration_crm.Billing.Service.{record_payment}
use open_immigration_crm.Billing.Plans.{create_plan}
use open_immigration_crm.Billing.Operations.{Request, action, serve, run, new_draft}

module _ (env : Env) (actor : Option ℕ) (s : Store) (h : IsValid s.invoice) where
  action-IsValid : (request : Request) → Holds Keeps (action env actor request s)
  unfolding action
  action-IsValid (Request.add_line k f d q u) = add_line-IsValid s h k f d q u
  action-IsValid (Request.add_time entries) = add_time_to_invoice-IsValid s h entries
  action-IsValid Request.issue = issue_invoice-IsValid s h env actor
  action-IsValid (Request.pay value fields) =
      >>=-Holds Keeps Keeps (record_payment env actor value fields) (λ _. pure tt) s
        (record_payment-IsValid env s h actor value fields) (λ _ t k. k)
  action-IsValid (Request.void_payment id reason) = void_payment-IsValid env s h id actor reason
  action-IsValid (Request.void_invoice reason) = void_invoice-IsValid env s h actor reason
  action-IsValid (Request.create_plan n day f before email) =
      >>=-Holds Keeps Keeps (create_plan env actor n day f before email) (λ _. pure tt) s
        (create_plan-IsValid env s h actor n day f before email) (λ _ t k. k)
  action-IsValid (Request.cancel_plan id) = cancel_plan-IsValid env s h id actor
  action-IsValid (Request.set_email_reminders id on) =
      set_email_reminders-IsValid env s h id actor on

  pub serve-IsValid : (request : Request) → IsValid (serve env actor request s).invoice
  unfolding serve
  serve-IsValid request =
      commit-keeps (λ t. IsValid t.invoice) (action env actor request) s h (action-IsValid request)

run-IsValid_from :
    (history : List (Env × Option ℕ × Request)) (s : Store)
    → IsValid s.invoice
    → IsValid (run history s).invoice
unfolding run
run-IsValid_from [] s h = h
run-IsValid_from ((env, actor, request) ∷ later) s h =
    run-IsValid_from later (serve env actor request s) (serve-IsValid env actor s h request)

new_draft-IsValid : (contact : ℕ) (matter : Option ℕ) → IsValid (new_draft contact matter)
unfolding new_draft is_open is_paid status_is_draft
new_draft-IsValid contact matter = record {
  sound = record {
    positive = tt;
    numbered = λ h. cc;
    one_plan = omega arith;
    not_overpaid = λ h. absurd (cc);
    owes = λ h. absurd (cc);
    no_payments = λ h. refl;
    no_plan = λ h. refl;
  };
  settled = λ h. cc;
  planned = tt;
}

-- Whatever requests are served for a new draft, and in whatever order, the invoice is valid:
-- payments are positive and those that are live come to the subtotal at most, the status says what
-- is paid, an invoice that is not a draft has a number, one that is out owes a positive amount, a
-- draft or void invoice has no live payment and no plan in force, at most one plan is in force,
-- and that plan is completed exactly on a paid invoice.
pub run-IsValid :
    (history : List (Env × Option ℕ × Request)) (s : Store) (contact : ℕ) (matter : Option ℕ)
    → s.invoice ≡ new_draft contact matter
    → IsValid (run history s).invoice
run-IsValid history s contact matter e =
    run-IsValid_from history s (rw e (new_draft-IsValid contact matter))

pub balance_of_out :
    (i : Invoice) → is_out i.status ≡ true → balance i ≡ subtotal i -ℤ amount_paid i
unfolding balance is_open is_paid
balance_of_out i out = ground arith

is_paid-settled_status : (paid owed : ℤ) → is_paid (settled_status paid owed) ≡ leb_ℤ owed paid
unfolding settled_status is_paid
is_paid-settled_status paid owed = ground arith

-- An invoice that is out, after any history from a new draft, is marked paid exactly when its
-- balance is zero.
pub is_paid-run :
    (history : List (Env × Option ℕ × Request)) (s : Store) (contact : ℕ) (matter : Option ℕ)
    → s.invoice ≡ new_draft contact matter
    → is_out (run history s).invoice.status ≡ true
    → (is_paid (run history s).invoice.status ≡ true) ↔ (balance (run history s).invoice ≡ pos 0)
is_paid-run history s contact matter e out =
    let i : Invoice = (run history s).invoice in
    let h = run-IsValid history s contact matter e in
    let marked : is_paid i.status ≡ leb_ℤ (subtotal i) (amount_paid i) =
      ap is_paid (h.settled out) ∙ is_paid-settled_status (amount_paid i) (subtotal i) in
    let owed = balance_of_out i out in
    (
      (λ (p : is_paid i.status ≡ true).
          let reached : leb_ℤ (subtotal i) (amount_paid i) ≡ true = sym marked ∙ p in
          let above : subtotal i ≤ℤ amount_paid i = leb_ℤ-≤ℤ (subtotal i) (amount_paid i) reached in
          owed ∙ omega (int_laws, h.not_overpaid out, above)),
      (λ (z : balance i ≡ pos 0).
          marked
          ∙ ≤ℤ-leb_ℤ (subtotal i) (amount_paid i) (omega (int_laws, parts_of_eq (sym owed ∙ z)))),
    )
