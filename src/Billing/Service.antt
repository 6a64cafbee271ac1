-- ===== src/Billing/Service.antt =====
-- Payments, their voiding, and the voiding of invoices, after crm/billing/services.py.
pub mod Payments
pub mod Voided
pub mod RoundTrip
pub mod Plans
use open_immigration_crm.Prelude.{
  ℕ, [], ◌∷◌, ◌++◌, Option, none, some, Bool, false, not, ◌==◌, any, find, map, Text, strip, take,
  is_empty, is_some, ℤ, pos, ltb_ℤ, leb_ℤ, if◌then◌else◌,
}
use open_immigration_crm.Billing.Money.{money}
use open_immigration_crm.Billing.Records.{
  void, InvoiceLine, PaymentFields, Payment, PaymentPlan, is_open, is_canceled, plan, in_force,
  balance, is_live,
}
use open_immigration_crm.Billing.Store.{
  not_open, not_positive, above_balance, already_void, no_reason, has_payments, already_canceled,
  integrity, not_found, invoice_voided, payment_recorded, payment_voided, plan_canceled, Env,
  Action, ◌>>=◌, ◌>>◌, pure, gets, require, save, fresh, log, clashes,
}
use open_immigration_crm.Billing.Sync.{refresh_status, sync_plan, modify_first, canceled_plan}

module _ (env : Env) where
  unfoldable pub record_payment : Option ℕ → ℤ → PaymentFields → Action ℕ
  unfolding is_open clashes
  record_payment actor value fields = do
    invoice ← gets (λ s. s.invoice)
    require (is_open invoice.status) not_open
    let paying = money value
    require (ltb_ℤ (pos 0) paying) not_positive
    require (leb_ℤ paying (balance invoice)) above_balance
    taken ← gets (λ s. clashes fields (s.other_payments ++ s.invoice.payments))
    require (not taken) integrity
    id ← fresh
    let payment : Payment = record {
      id = id;
      amount = paying;
      recorded_by = actor;
      fields = fields;
      voided_at = none;
      void_reason = [];
    }
    save (λ i. record i { payments = i.payments ++ payment ∷ [] })
    save refresh_status
    save (sync_plan env)
    log actor payment_recorded
    pure id

  -- The payment is named by its key.
  unfoldable pub void_payment : ℕ → Option ℕ → Text → Action (Unit {0})
  unfolding modify_first
  void_payment id actor reason = do
    found ← gets (λ s. find (λ (p : Payment). p.id == id) s.invoice.payments)
    require (is_some found) not_found
    let live : Bool = elim found [ none ↦ false | some payment ↦ is_live payment ]
    require live already_void
    require (not (is_empty (strip reason))) no_reason
    save (λ i. record i {
      payments =
          modify_first (λ (p : Payment). p.id == id)
            (λ p. record p { voided_at = some env.now; void_reason = take 255 (strip reason) })
            i.payments;
    })
    save refresh_status
    save (sync_plan env)
    log actor payment_voided

  -- `cancel_plan` of the plan that a query finds.
  unfoldable pub cancel_first : (PaymentPlan → Bool) → Option ℕ → Action (Unit {0})
  unfolding modify_first canceled_plan is_canceled
  cancel_first wanted actor = do
    found ← gets (λ s. find wanted s.invoice.plans)
    require (is_some found) not_found
    let standing : Bool = elim found [ none ↦ false | some p ↦ not (is_canceled p.status) ]
    require standing already_canceled
    save (λ i. record i { plans = modify_first wanted (canceled_plan env.now) i.plans })
    log actor plan_canceled

  -- The plan is named by its key.
  unfoldable pub cancel_plan : ℕ → Option ℕ → Action (Unit {0})
  unfolding cancel_first
  cancel_plan id actor = cancel_first (λ p. p.id == id) actor

  -- The cancellation inside `void_invoice`, of the plan in force, if there is one.
  unfoldable pub cancel_plan_in_force : Option ℕ → Action (Unit {0})
  unfolding cancel_first plan
  cancel_plan_in_force actor = do
    found ← gets (λ s. plan s.invoice)
    if is_some found then cancel_first in_force actor else pure tt

  unfoldable pub void_invoice : Option ℕ → Text → Action (Unit {0})
  unfolding is_open is_live cancel_plan_in_force
  void_invoice actor reason = do
    invoice ← gets (λ s. s.invoice)
    require (is_open invoice.status) not_open
    require (not (any is_live invoice.payments)) has_payments
    require (not (is_empty (strip reason))) no_reason
    cancel_plan_in_force actor
    save (λ i. record i {
      lines = map (λ (l : InvoiceLine). record l { time_entry = none }) i.lines;
      status = void;
      void_reason = take 255 (strip reason);
    })
    log actor invoice_voided
