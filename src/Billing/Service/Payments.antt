-- ===== src/Billing/Service/Payments.antt =====
-- `record_payment` keeps the invoice's invariant.
use open_immigration_crm.Prelude.{
  ℕ, ◌≡◌, refl, List, [], ◌∷◌, ◌++◌, Option, none, true, false, ℤ, pos, ◌+ℤ◌, ◌-ℤ◌, ◌≤ℤ◌, ◌<ℤ◌,
  int_laws, arith, All-append, select, Bool-cases, inl, inr, leb_ℤ, ltb_ℤ, parts_of_eq,
}
use open_immigration_crm.Billing.Money.{money}
use open_immigration_crm.Billing.Records.{
  Payment, PaymentFields, Invoice, is_open, is_live, collected, subtotal, amount_paid, balance,
}
use open_immigration_crm.Billing.Store.{Env, Store, clashes}
use open_immigration_crm.Billing.Store.Holds.{Holds}
use open_immigration_crm.Billing.Sync.{refresh_status, sync_plan}
use open_immigration_crm.Billing.Sync.Invariant.{
  IsSound, IsValid, Keeps, is_out, is_out-is_open, sync_plan-refresh_status-IsValid,
}
use open_immigration_crm.Billing.Service.{record_payment}

pub collected-append :
    (ps : List Payment) (p : Payment)
    → is_live p ≡ true
    → collected (select is_live (ps ++ p ∷ [])) ≡ collected (select is_live ps) +ℤ p.amount
unfolding collected
collected-append [] p h = rw h (omega int_laws)
collected-append (q ∷ ps) p h = grind (int_laws, collected-append ps p h)

pub balance_of_open :
    (i : Invoice) → is_open i.status ≡ true → balance i ≡ subtotal i -ℤ amount_paid i
unfolding balance is_open
balance_of_open i h = ground arith

-- A payment within the balance leaves the tables sound, before the status is refreshed.
added-IsSound :
    (i : Invoice) (p : Payment)
    → IsSound i
    → is_open i.status ≡ true
    → is_live p ≡ true
    → pos 0 <ℤ p.amount
    → p.amount ≤ℤ balance i
    → IsSound (record i { payments = i.payments ++ p ∷ [] })
unfolding amount_paid subtotal
added-IsSound i p h open_now live positive within = record {
  positive =
      All-append (λ (p : Payment). pos 0 <ℤ p.amount) i.payments (p ∷ []) h.positive (positive, tt);
  numbered = h.numbered;
  one_plan = h.one_plan;
  not_overpaid = λ out.
      rw (collected-append i.payments p live)
        (omega (int_laws, parts_of_eq (balance_of_open i open_now)));
  owes = h.owes;
  no_payments = λ (shut : is_out i.status ≡ false). cc (is_out-is_open i.status open_now);
  no_plan = λ (shut : is_out i.status ≡ false). cc (is_out-is_open i.status open_now);
}

-- The payment that `record_payment` makes.
made : Option ℕ → ℤ → PaymentFields → ℕ → Payment
made actor paying fields id = record {
  id = id;
  amount = paying;
  recorded_by = actor;
  fields = fields;
  voided_at = none;
  void_reason = [];
}

made-is_live :
    (actor : Option ℕ) (a : ℤ) (fields : PaymentFields) (id : ℕ)
    → is_live (made actor a fields id) ≡ true
unfolding made is_live
made-is_live actor a fields id = refl

module _ (env : Env) (s : Store) (h : IsValid s.invoice) where
  paying-IsValid :
      (p : Payment)
      → is_open s.invoice.status ≡ true
      → is_live p ≡ true
      → ltb_ℤ (pos 0) p.amount ≡ true
      → leb_ℤ p.amount (balance s.invoice) ≡ true
      → IsValid (
          sync_plan env
            (refresh_status (record (s.invoice) { payments = s.invoice.payments ++ p ∷ [] })))
  paying-IsValid p open_now live positive within =
      sync_plan-refresh_status-IsValid env _ (is_out-is_open s.invoice.status open_now)
        (added-IsSound s.invoice p h.sound open_now live (ground arith) (ground arith))

  -- Whatever the amount and the fields, a payment that is recorded keeps the invariant.
  pub record_payment-IsValid :
      (actor : Option ℕ) (value : ℤ) (fields : PaymentFields)
      → Holds Keeps (record_payment env actor value fields s)
  unfolding record_payment made
  record_payment-IsValid actor value fields = elim (Bool-cases (is_open s.invoice.status)) [
    | inr e ↦ rw e tt
    | inl open_now ↦ rw open_now (elim (Bool-cases (ltb_ℤ (pos 0) (money value))) [
      | inr e ↦ rw e tt
      | inl positive ↦ rw positive (elim (Bool-cases (leb_ℤ (money value) (balance s.invoice))) [
        | inr e ↦ rw e tt
        | inl within ↦
            rw within (elim (Bool-cases (clashes fields (s.other_payments ++ s.invoice.payments))) [
              | inl e ↦ rw e tt
              | inr free ↦ rw free (
                  paying-IsValid (made actor (money value) fields s.next_id) open_now
                    (made-is_live actor (money value) fields s.next_id) positive within)
            ])
      ])
    ])
  ]
