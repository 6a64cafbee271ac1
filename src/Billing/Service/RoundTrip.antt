-- ===== src/Billing/Service/RoundTrip.antt =====
-- Recording a payment and voiding it again, and what that leaves of the balance and the status.
use mathlib.Core.Path.{ap₂}
use open_immigration_crm.Prelude.{
  ℕ, ◌≡◌, refl, ap, sym, ◌∙◌, List, [], ◌∷◌, ◌++◌, Option, none, some, Bool, true, false, ◌==◌,
  ==_refl, ◌+◌, ℤ, pos, ◌+ℤ◌, ◌-ℤ◌, int_laws, arith, find, select, Bool-cases, inl, inr, leb_ℤ,
  ltb_ℤ, Text, strip, is_empty, take, parts_of_eq,
}
use open_immigration_crm.Billing.Money.{money}
use open_immigration_crm.Billing.Records.{
  Payment, PaymentFields, Invoice, is_open, is_paid, is_live, collected, subtotal, amount_paid,
  balance,
}
use open_immigration_crm.Billing.Store.{Env, Store, ok, clashes, payment_recorded, payment_voided}
use open_immigration_crm.Billing.Sync.{modify_first, settled_status, refresh_status, sync_plan}
use open_immigration_crm.Billing.Sync.Invariant.{
  IsValid, is_out, is_out-is_open, refresh_status_out, settled_status-is_out,
}
use open_immigration_crm.Billing.Service.{record_payment, void_payment}
use open_immigration_crm.Billing.Service.Payments.{collected-append}
use open_immigration_crm.Billing.Service.Voided.{voided, collected-voided}

-- What `refresh_status` and `sync_plan` leave: the payments and the lines; and the status says what
-- is paid.
module _ (env : Env) (i : Invoice) (out : is_out i.status ≡ true) where
  settled-payments : (sync_plan env (refresh_status i)).payments ≡ i.payments
  unfolding sync_plan
  settled-payments = rw (refresh_status_out i out) refl

  settled-lines : (sync_plan env (refresh_status i)).lines ≡ i.lines
  unfolding sync_plan
  settled-lines = rw (refresh_status_out i out) refl

  settled-status :
      (sync_plan env (refresh_status i)).status ≡ settled_status (amount_paid i) (subtotal i)
  unfolding sync_plan
  settled-status = rw (refresh_status_out i out) refl

  settled-is_out : is_out (sync_plan env (refresh_status i)).status ≡ true
  settled-is_out = rw settled-status (settled_status-is_out (amount_paid i) (subtotal i))

  settled-amount_paid : amount_paid (sync_plan env (refresh_status i)) ≡ amount_paid i
  unfolding amount_paid
  settled-amount_paid = ap (λ ps. collected (select is_live ps)) settled-payments

  settled-subtotal : subtotal (sync_plan env (refresh_status i)) ≡ subtotal i
  unfolding subtotal
  settled-subtotal = ap (λ ls. open_immigration_crm.Billing.Records.total ls) settled-lines

balance_of_out : (i : Invoice) → is_out i.status ≡ true → balance i ≡ subtotal i -ℤ amount_paid i
unfolding balance is_open is_paid
balance_of_out i out = ground arith

find-append :
    (q : Payment → Bool) (ps : List Payment) (p : Payment)
    → find q ps ≡ none
    → q p ≡ true
    → find q (ps ++ p ∷ []) ≡ some p
find-append q [] p free h = rw h refl
find-append q (x ∷ ps) p free h = elim (Bool-cases (q x)) [
  | inl e ↦ absurd (ground arith)
  | inr e ↦ rw e (find-append q ps p (ground arith) h)
]

-- The payment that a request makes.
abbrev pub made : Option ℕ → ℤ → PaymentFields → ℕ → Payment
made actor paying fields id = record {
  id = id;
  amount = paying;
  recorded_by = actor;
  fields = fields;
  voided_at = none;
  void_reason = [];
}

-- The store that `record_payment` leaves.
paid_store : Env → Store → Option ℕ → ℤ → PaymentFields → Store
paid_store env s actor value fields = record s {
  next_id = s.next_id + 1;
  invoice = sync_plan env (
      refresh_status (record (s.invoice) {
        payments = s.invoice.payments ++ made actor (money value) fields s.next_id ∷ [];
      }));
  audit = s.audit ++ record { user = actor; action = payment_recorded } ∷ [];
}

module _ (env : Env) (s : Store) (actor : Option ℕ) (value : ℤ) (fields : PaymentFields)
    (open_now : is_open s.invoice.status ≡ true) (positive : ltb_ℤ (pos 0) (money value) ≡ true)
    (within : leb_ℤ (money value) (balance s.invoice) ≡ true)
    (free : clashes fields (s.other_payments ++ s.invoice.payments) ≡ false) where
  payment : Payment
  payment = made actor (money value) fields s.next_id

  with_payment : Invoice
  with_payment = record (s.invoice) { payments = s.invoice.payments ++ payment ∷ [] }

  out : is_out s.invoice.status ≡ true
  out = is_out-is_open s.invoice.status open_now

  recorded :
      record_payment env actor value fields s ≡ ok (s.next_id, paid_store env s actor value fields)
  unfolding record_payment paid_store
  recorded = rw (open_now, positive, within, free) refl

  live : is_live payment ≡ true
  unfolding is_live payment
  live = refl

  amount_paid-recorded :
      amount_paid (paid_store env s actor value fields).invoice
      ≡ amount_paid s.invoice +ℤ money value
  unfolding paid_store payment with_payment amount_paid
  amount_paid-recorded =
      settled-amount_paid env with_payment out ∙ collected-append s.invoice.payments payment live

  subtotal-recorded : subtotal (paid_store env s actor value fields).invoice ≡ subtotal s.invoice
  unfolding paid_store payment with_payment subtotal
  subtotal-recorded = settled-subtotal env with_payment out

  out-recorded : is_out (paid_store env s actor value fields).invoice.status ≡ true
  unfolding paid_store payment with_payment
  out-recorded = settled-is_out env with_payment out

  -- On an open invoice a positive amount within the balance, not known from its source, is
  -- recorded, and lowers the balance by that amount.
  pub record_payment_lowers :
      (t : Store) × (record_payment env actor value fields s ≡ ok (s.next_id, t))
      × (balance t.invoice ≡ balance s.invoice -ℤ money value)
  record_payment_lowers =
      let t : Store = paid_store env s actor value fields in
      (
        t,
        recorded,
        balance_of_out t.invoice out-recorded
            ∙ omega (
              int_laws,
              parts_of_eq amount_paid-recorded,
              parts_of_eq subtotal-recorded,
              parts_of_eq (balance_of_out s.invoice out),
            ),
      )

  module _ (h : IsValid s.invoice) (later : Env) (voider : Option ℕ) (reason : Text)
      (given : is_empty (strip reason) ≡ false)
      (new : find (λ (p : Payment). p.id == s.next_id) s.invoice.payments ≡ none) where
    t : Store
    t = paid_store env s actor value fields

    is_it : Payment → Bool
    is_it p = p.id == s.next_id

    found : find is_it t.invoice.payments ≡ some payment
    unfolding t is_it paid_store payment with_payment
    found =
        rw (settled-payments env with_payment out)
          (find-append is_it s.invoice.payments payment new (==_refl s.next_id))

    without : Invoice
    without = record (t.invoice) {
      payments =
          modify_first is_it (voided is_it later.now (take 255 (strip reason))) t.invoice.payments;
    }

    voided_store : Store
    voided_store = record t {
      invoice = sync_plan later (refresh_status without);
      audit = t.audit ++ record { user = voider; action = payment_voided } ∷ [];
    }

    out-without : is_out without.status ≡ true
    unfolding without t
    out-without = out-recorded

    voids : void_payment later s.next_id voider reason t ≡ ok (tt, voided_store)
    unfolding void_payment voided_store without is_it
    voids = rw (found, live, given) refl

    amount_paid-without : amount_paid without ≡ amount_paid s.invoice
    unfolding amount_paid without payment t
    amount_paid-without =
        let less : amount_paid without ≡ amount_paid t.invoice -ℤ money value =
          collected-voided is_it later.now (take 255 (strip reason)) t.invoice.payments found
            live in
        let recorded_amount : amount_paid t.invoice ≡ amount_paid s.invoice +ℤ money value =
          amount_paid-recorded in
        omega (int_laws, parts_of_eq less, parts_of_eq recorded_amount)

    subtotal-without : subtotal without ≡ subtotal s.invoice
    unfolding subtotal without t
    subtotal-without = subtotal-recorded

    -- On a valid open invoice a positive amount within the balance, not known from its source and
    -- under a new key, is recorded; and voiding that payment afterwards, with a reason, succeeds
    -- and gives back the balance and the status from before the payment.
    pub void_payment-record_payment :
        (t u : Store) × (record_payment env actor value fields s ≡ ok (s.next_id, t))
        × (void_payment later s.next_id voider reason t ≡ ok (tt, u))
        × (balance u.invoice ≡ balance s.invoice)
        × (u.invoice.status ≡ s.invoice.status)
    unfolding t voided_store sync_plan
    void_payment-record_payment =
        let paid_back : amount_paid voided_store.invoice ≡ amount_paid s.invoice =
          settled-amount_paid later without out-without ∙ amount_paid-without in
        let owed : subtotal voided_store.invoice ≡ subtotal s.invoice =
          settled-subtotal later without out-without ∙ subtotal-without in
        (
          t,
          voided_store,
          recorded,
          voids,
          balance_of_out voided_store.invoice (settled-is_out later without out-without)
              ∙ ap₂ (λ (a b : ℤ). a -ℤ b) owed paid_back
              ∙ sym (balance_of_out s.invoice out),
          settled-status later without out-without
              ∙ ap₂ settled_status amount_paid-without subtotal-without
              ∙ sym (h.settled out),
        )
