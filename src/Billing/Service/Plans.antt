-- ===== src/Billing/Service/Plans.antt =====
-- `cancel_plan` and `void_invoice` keep the invoice's invariant.
use native.Mathlib.Nat.{le_trans}
use open_immigration_crm.Prelude.{
  ℕ, ◌≤◌, ◌≡◌, refl, List, [], ◌∷◌, ◌++◌, Option, some, Bool, true, false, ◌==◌, arith, All, any,
  find, select, length, Bool-cases, Option-cases, inl, inr, Text, is_empty, strip, nothing_passes,
  find_passes,
}
use open_immigration_crm.Billing.Records.{
  void, InvoiceLine, PaymentPlan, PlanStatus, Invoice, is_open, is_paid, is_canceled, in_force,
  is_live, plan, amount_paid, subtotal,
}
use open_immigration_crm.Billing.Store.{Env, Store, ok, plan_canceled}
use open_immigration_crm.Billing.Store.Holds.{Holds}
use open_immigration_crm.Billing.Sync.{modify_first, canceled_plan}
use open_immigration_crm.Billing.Sync.Invariant.{
  IsSound, IsValid, Keeps, is_out, is_out-is_open, plan_status, All-refuted, is_out-not_draft,
}
use open_immigration_crm.Billing.Service.{cancel_first, cancel_plan, void_invoice}

module _ (at : ℕ) where
  canceled-in_force : (p : PaymentPlan) → in_force (canceled_plan at p) ≡ false
  unfolding canceled_plan in_force
  canceled-in_force p = refl

  module _ (q : PaymentPlan → Bool) where
    length-canceled :
        (ps : List PaymentPlan)
        → length (select in_force (modify_first q (canceled_plan at) ps))
          ≤ length (select in_force ps)
    unfolding modify_first
    length-canceled [] = omega arith
    length-canceled (p ∷ ps) = ground (arith, canceled-in_force p, length-canceled ps)

    none-canceled :
        (ps : List PaymentPlan)
        → any in_force ps ≡ false
        → any in_force (modify_first q (canceled_plan at) ps) ≡ false
    unfolding modify_first
    none-canceled [] h = refl
    none-canceled (p ∷ ps) h = ground (arith, canceled-in_force p, none-canceled ps)

    planned-canceled :
        (Q : PlanStatus → Type 0) (ps : List PaymentPlan)
        → All (λ (p : PaymentPlan). in_force p ≡ true → Q p.status) ps
        → All
            (λ (p : PaymentPlan). in_force p ≡ true → Q p.status)
            (modify_first q (canceled_plan at) ps)
    unfolding modify_first
    planned-canceled Q [] h = tt
    planned-canceled Q (p ∷ ps) h = elim (Bool-cases (q p)) [
      | inl e ↦ rw e ((λ t. cc (canceled-in_force p)), h.1)
      | inr e ↦ rw e (h.0, planned-canceled Q ps h.1)
    ]

  -- Of at most one plan in force none is left.
  no_plan_left :
      (ps : List PaymentPlan)
      → length (select in_force ps) ≤ 1
      → any in_force (modify_first in_force (canceled_plan at) ps) ≡ false
  unfolding modify_first
  no_plan_left [] h = refl
  no_plan_left (p ∷ ps) h = elim (Bool-cases (in_force p)) [
    | inl e ↦ rw (e, canceled-in_force p) (none_of_length ps (ground arith))
    | inr e ↦ rw (e, e) (no_plan_left ps (ground arith))
  ]
    where
      none_of_length :
          (qs : List PaymentPlan) → length (select in_force qs) ≤ 0 → any in_force qs ≡ false
      none_of_length [] h = refl
      none_of_length (x ∷ qs) h = elim (Bool-cases (in_force x)) [
        | inl e ↦ absurd (ground arith)
        | inr e ↦ rw e (none_of_length qs (ground arith))
      ]

canceled-IsSound :
    (i : Invoice) (q : PaymentPlan → Bool) (at : ℕ)
    → IsSound i
    → IsSound (record i { plans = modify_first q (canceled_plan at) i.plans })
unfolding amount_paid subtotal
canceled-IsSound i q at h = record {
  positive = h.positive;
  numbered = h.numbered;
  one_plan = le_trans (length-canceled at q i.plans) h.one_plan;
  not_overpaid = h.not_overpaid;
  owes = h.owes;
  no_payments = h.no_payments;
  no_plan = λ shut. none-canceled at q i.plans (h.no_plan shut);
}

canceled-IsValid :
    (i : Invoice) (q : PaymentPlan → Bool) (at : ℕ)
    → IsValid i
    → IsValid (record i { plans = modify_first q (canceled_plan at) i.plans })
unfolding amount_paid subtotal
canceled-IsValid i q at h = record {
  sound = canceled-IsSound i q at h.sound;
  settled = h.settled;
  planned = planned-canceled at q (λ st. st ≡ plan_status i.status) i.plans h.planned;
}

-- A void invoice without live payments and without a plan in force.
void-IsValid :
    (i : Invoice) (ls : List InvoiceLine) (reason : Text)
    → IsSound i
    → is_out i.status ≡ true
    → any is_live i.payments ≡ false
    → any in_force i.plans ≡ false
    → IsValid (record i { lines = ls; status = void; void_reason = reason })
unfolding is_open is_paid
void-IsValid i ls reason h out unpaid unplanned = record {
  sound = record {
    positive = h.positive;
    numbered = λ _. h.numbered (is_out-not_draft i.status out);
    one_plan = h.one_plan;
    not_overpaid = λ (o : is_out void ≡ true). absurd (cc);
    owes = λ (o : is_out void ≡ true). absurd (cc);
    no_payments = λ _. unpaid;
    no_plan = λ _. unplanned;
  };
  settled = λ (o : is_out void ≡ true). cc;
  planned = All-refuted (λ st. st ≡ plan_status void) i.plans unplanned;
}

module _ (env : Env) (s : Store) (h : IsValid s.invoice) where
  -- A plan in force that is found is ended.
  cancel_first-in_force :
      (actor : Option ℕ) {p : PaymentPlan}
      → find in_force s.invoice.plans ≡ some p
      → cancel_first env in_force actor s
        ≡ ok (
          tt,
          record s {
            invoice = record (s.invoice) {
              plans = modify_first in_force (canceled_plan env.now) s.invoice.plans;
            };
            audit = s.audit ++ record { user = actor; action = plan_canceled } ∷ [];
          },
        )
  unfolding cancel_first in_force
  cancel_first-in_force actor f = rw (f, find_passes in_force s.invoice.plans f) refl

  -- Ending a plan keeps the invariant.
  pub cancel_first-IsValid :
      (q : PaymentPlan → Bool) (actor : Option ℕ) → Holds Keeps (cancel_first env q actor s)
  unfolding cancel_first
  cancel_first-IsValid q actor = elim (Option-cases (find q s.invoice.plans)) [
    | inl e ↦ rw e tt
    | inr (p, f) ↦ rw f (elim (Bool-cases (is_canceled p.status)) [
      | inl e ↦ rw e tt
      | inr e ↦ rw e (canceled-IsValid s.invoice q env.now h)
    ])
  ]

  pub cancel_plan-IsValid : (id : ℕ) (actor : Option ℕ) → Holds Keeps (cancel_plan env id actor s)
  unfolding cancel_plan
  cancel_plan-IsValid id actor = cancel_first-IsValid (λ p. p.id == id) actor

  -- Voiding an invoice keeps the invariant.
  pub void_invoice-IsValid :
      (actor : Option ℕ) (reason : Text) → Holds Keeps (void_invoice env actor reason s)
  unfolding void_invoice plan in_force
  void_invoice-IsValid actor reason = elim (Bool-cases (is_open s.invoice.status)) [
    | inr e ↦ rw e tt
    | inl open_now ↦ rw open_now (elim (Bool-cases (any is_live s.invoice.payments)) [
      | inl e ↦ rw e tt
      | inr unpaid ↦ rw unpaid (elim (Bool-cases (is_empty (strip reason))) [
        | inl e ↦ rw e tt
        | inr given ↦ rw given (elim (Option-cases (find in_force s.invoice.plans)) [
          | inl no_plan ↦
              rw (no_plan, Holds)
                (void-IsValid s.invoice _ _ h.sound (is_out-is_open s.invoice.status open_now)
                  unpaid (nothing_passes in_force s.invoice.plans no_plan))
          | inr (p, f) ↦
              rw (f, Holds)
                (rw (cancel_first-in_force actor f, Holds)
                  (void-IsValid _ _ _ (canceled-IsSound s.invoice in_force env.now h.sound)
                    (is_out-is_open s.invoice.status open_now) unpaid
                    (no_plan_left env.now s.invoice.plans h.one_plan)))
        ])
      ])
    ])
  ]
