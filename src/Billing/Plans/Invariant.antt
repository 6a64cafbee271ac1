-- ===== src/Billing/Plans/Invariant.antt =====
-- `create_plan` and `set_email_reminders` keep the invoice's invariant.
use open_immigration_crm.Prelude.{
  ℕ, ◌≡◌, refl, ◌∙◌, List, [], ◌∷◌, Option, is_some, Bool, true, false, ◌&&◌, ◌==◌, leb, arith, All,
  any, find, select, length, Bool-cases, Option-cases, inl, inr, nothing_passes, pos, ltb_ℤ,
}
use open_immigration_crm.Billing.Calendar.{Date, Frequency, before}
use open_immigration_crm.Billing.Records.{
  Status, PaymentPlan, PlanStatus, active, Invoice, is_open, is_paid, is_active, is_canceled,
  in_force, plan, amount_paid, subtotal, balance,
}
use open_immigration_crm.Billing.Store.{Env, Store}
use open_immigration_crm.Billing.Store.Holds.{Holds}
use open_immigration_crm.Billing.Sync.{modify_first}
use open_immigration_crm.Billing.Sync.Invariant.{
  IsValid, Keeps, is_out, is_out-is_open, plan_status, All-refuted,
}
use open_immigration_crm.Billing.Plans.{max_installments, create_plan, set_email_reminders}

length_of_none : (ps : List PaymentPlan) → any in_force ps ≡ false → length (select in_force ps) ≡ 0
length_of_none [] h = refl
length_of_none (p ∷ ps) h = elim (Bool-cases (in_force p)) [
  | inl e ↦ absurd (ground arith)
  | inr e ↦ rw e (length_of_none ps (rw e at h))
]

plan_status_of_open : (s : Status) → is_open s ≡ true → plan_status s ≡ active
unfolding plan_status is_open is_paid
plan_status_of_open s h = ground arith

active-in_force : (p : PaymentPlan) → p.status ≡ active → in_force p ≡ true
unfolding in_force is_canceled
active-in_force p h = ground arith

-- A new active plan on an open invoice without one.
planned-IsValid :
    (i : Invoice) (p : PaymentPlan)
    → IsValid i
    → is_open i.status ≡ true
    → any in_force i.plans ≡ false
    → p.status ≡ active
    → IsValid (record i { plans = p ∷ i.plans })
unfolding amount_paid subtotal
planned-IsValid i p h open_now free fresh_plan =
    let out = is_out-is_open i.status open_now in
    record {
      sound = record {
        positive = h.positive;
        numbered = h.numbered;
        one_plan = rw (active-in_force p fresh_plan, length_of_none i.plans free) (omega arith);
        not_overpaid = h.not_overpaid;
        owes = h.owes;
        no_payments = h.no_payments;
        no_plan = λ (shut : is_out i.status ≡ false). absurd (cc);
      };
      settled = h.settled;
      planned = (
        (λ _. cc (plan_status_of_open i.status open_now)),
        All-refuted (λ st. st ≡ plan_status i.status) i.plans free,
      );
    }

module _ (q : PaymentPlan → Bool) (on : Bool) where
  abbrev switched : PaymentPlan → PaymentPlan
  switched p = record p { email_reminders = on }

  select-switched :
      (ps : List PaymentPlan)
      → length (select in_force (modify_first q switched ps)) ≡ length (select in_force ps)
  unfolding modify_first in_force
  select-switched [] = refl
  select-switched (p ∷ ps) = ground (arith, select-switched ps)

  any-switched :
      (ps : List PaymentPlan) → any in_force (modify_first q switched ps) ≡ any in_force ps
  unfolding modify_first in_force
  any-switched [] = refl
  any-switched (p ∷ ps) = ground (arith, any-switched ps)

  planned-switched :
      (Q : PlanStatus → Type 0) (ps : List PaymentPlan)
      → All (λ (p : PaymentPlan). in_force p ≡ true → Q p.status) ps
      → All (λ (p : PaymentPlan). in_force p ≡ true → Q p.status) (modify_first q switched ps)
  unfolding modify_first in_force
  planned-switched Q [] h = tt
  planned-switched Q (p ∷ ps) h = elim (Bool-cases (q p)) [
    | inl e ↦ rw e h
    | inr e ↦ rw e (h.0, planned-switched Q ps h.1)
  ]

  switched-IsValid :
      (i : Invoice) → IsValid i → IsValid (record i { plans = modify_first q switched i.plans })
  unfolding amount_paid subtotal
  switched-IsValid i h = record {
    sound = record {
      positive = h.positive;
      numbered = h.numbered;
      one_plan = rw (select-switched i.plans) h.one_plan;
      not_overpaid = h.not_overpaid;
      owes = h.owes;
      no_payments = h.no_payments;
      no_plan = λ shut. any-switched i.plans ∙ h.no_plan shut;
    };
    settled = h.settled;
    planned = planned-switched (λ st. st ≡ plan_status i.status) i.plans h.planned;
  }

none_in_force : (i : Invoice) → is_some (plan i) ≡ false → any in_force i.plans ≡ false
unfolding plan
none_in_force i h = elim (Option-cases (find in_force i.plans)) [
  | inl e ↦ nothing_passes in_force i.plans e
  | inr (p, e) ↦ absurd (ground arith)
]

module _ (env : Env) (s : Store) (h : IsValid s.invoice) where
  -- A plan that is made keeps the invariant.
  pub create_plan-IsValid :
      (actor : Option ℕ) (count : ℕ) (first : Date) (frequency : Frequency) (days : ℕ)
      (email : Bool)
      → Holds Keeps (create_plan env actor count first frequency days email s)
  unfolding create_plan
  create_plan-IsValid actor count first frequency days email =
      elim (Bool-cases (is_open s.invoice.status && ltb_ℤ (pos 0) (balance s.invoice))) [
        | inr e ↦ rw e tt
        | inl owing ↦ rw owing (elim (Bool-cases (is_some (plan s.invoice))) [
          | inl e ↦ rw e tt
          | inr free ↦ rw free (elim (Bool-cases (leb 2 count && leb count max_installments)) [
            | inr e ↦ rw e tt
            | inl counted ↦ rw counted (elim (Bool-cases (before first env.today)) [
              | inl e ↦ rw e tt
              | inr later ↦
                  rw later (elim (Bool-cases (email && env.address_problem s.invoice.contact)) [
                    | inl e ↦ rw e tt
                    | inr addressed ↦ rw addressed (
                        planned-IsValid s.invoice _ h (ground arith) (none_in_force s.invoice free)
                          refl)
                  ])
            ])
          ])
        ])
      ]

  -- Switching a plan's email reminders keeps the invariant.
  pub set_email_reminders-IsValid :
      (id : ℕ) (actor : Option ℕ) (on : Bool) → Holds Keeps (set_email_reminders env id actor on s)
  unfolding set_email_reminders
  set_email_reminders-IsValid id actor on =
      elim (Option-cases (find (λ (p : PaymentPlan). p.id == id) s.invoice.plans)) [
        | inl e ↦ rw e tt
        | inr (p, f) ↦ rw f (elim (Bool-cases (is_active p.status)) [
          | inr e ↦ rw e tt
          | inl e ↦ rw e (elim (Bool-cases (on && env.address_problem s.invoice.contact)) [
            | inl e' ↦ rw e' tt
            | inr e' ↦ rw e' (switched-IsValid (λ p. p.id == id) on s.invoice h)
          ])
        ])
      ]
