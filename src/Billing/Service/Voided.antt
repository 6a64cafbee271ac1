-- ===== src/Billing/Service/Voided.antt =====
-- `void_payment` keeps the invoice's invariant.
use open_immigration_crm.Prelude.{
  ℕ, ◌≡◌, refl, ap, ◌∙◌, List, [], ◌∷◌, Option, some, Bool, true, false, ◌==◌, pos, ◌-ℤ◌, ◌<ℤ◌,
  ◌=ℤ◌, int_laws, arith, All, any, find, select, Bool-cases, inl, inr, Text, parts_of_eq,
  Option-cases, is_empty, strip, take,
}
use open_immigration_crm.Billing.Records.{
  Payment, Invoice, is_live, collected, subtotal, amount_paid,
}
use open_immigration_crm.Billing.Store.{Env, Store}
use open_immigration_crm.Billing.Store.Holds.{Holds}
use open_immigration_crm.Billing.Sync.{modify_first}
use open_immigration_crm.Billing.Sync.Invariant.{
  IsSound, IsValid, Keeps, is_out, sync_plan-refresh_status-IsValid,
}
use open_immigration_crm.Billing.Service.{void_payment}

module _ (q : Payment → Bool) (at : ℕ) (reason : Text) where
  abbrev pub voided : Payment → Payment
  voided p = record p { voided_at = some at; void_reason = reason }

  voided-not_live : (p : Payment) → is_live (voided p) ≡ false
  unfolding is_live
  voided-not_live p = refl

  positive-voided :
      (ps : List Payment)
      → All (λ (p : Payment). pos 0 <ℤ p.amount) ps
      → All (λ (p : Payment). pos 0 <ℤ p.amount) (modify_first q voided ps)
  unfolding modify_first
  positive-voided [] h = tt
  positive-voided (p ∷ ps) h = elim (Bool-cases (q p)) [
    | inl e ↦ rw e h
    | inr e ↦ rw e (h.0, positive-voided ps h.1)
  ]

  pub collected-voided :
      (ps : List Payment) {p : Payment}
      → find q ps ≡ some p
      → is_live p ≡ true
      → collected (select is_live (modify_first q voided ps))
        ≡ collected (select is_live ps) -ℤ p.amount
  unfolding modify_first collected
  collected-voided [] f live = cc
  collected-voided (x ∷ ps) {p} f live = elim (Bool-cases (q x)) [
    | inl e ↦
        rw (e, voided-not_live x)
          (let same : x ≡ p = ground arith in
            let amounts : x.amount =ℤ p.amount =
              parts_of_eq (ap (λ (y : Payment). y.amount) same) in
            rw (ap is_live same ∙ live) (omega int_laws))
    | inr e ↦ rw e (
        let rest : find q ps ≡ some p = ground arith in
        let known = parts_of_eq (collected-voided ps rest live) in
        elim (Bool-cases (is_live x)) [
          | inl here ↦ rw here (omega (int_laws, known))
          | inr gone ↦ rw gone (omega (int_laws, known))
        ])
  ]

any_of_find :
    (q r : Payment → Bool) (ps : List Payment) (p : Payment)
    → find q ps ≡ some p
    → r p ≡ true
    → any r ps ≡ true
any_of_find q r [] p f live = cc
any_of_find q r (x ∷ ps) p f live = grind (arith, any_of_find q r ps p)

find-All {ℓ} :
    {A : Type ℓ} (q : A → Bool) (P : A → Type 0) (xs : List A) {x : A}
    → find q xs ≡ some x
    → All P xs
    → P x
find-All q P [] f h = absurd (cc)
find-All q P (y ∷ ys) {x} f h = elim (Bool-cases (q y)) [
  | inl e ↦ (let same : y ≡ x = ground arith in rw same at (h.0))
  | inr e ↦ find-All q P ys (ground arith) h.1
]

voided-IsSound :
    (i : Invoice) (q : Payment → Bool) (at : ℕ) (reason : Text) (p : Payment)
    → IsSound i
    → is_out i.status ≡ true
    → find q i.payments ≡ some p
    → is_live p ≡ true
    → IsSound (record i { payments = modify_first q (voided q at reason) i.payments })
unfolding amount_paid subtotal
voided-IsSound i q at reason p h out f live = record {
  positive = positive-voided q at reason i.payments h.positive;
  numbered = h.numbered;
  one_plan = h.one_plan;
  not_overpaid = λ _. rw (collected-voided q at reason i.payments f live) (
      omega (
        int_laws,
        h.not_overpaid out,
        find-All q (λ (p : Payment). pos 0 <ℤ p.amount) i.payments f h.positive,
      ));
  owes = h.owes;
  no_payments = λ (shut : is_out i.status ≡ false). cc;
  no_plan = λ (shut : is_out i.status ≡ false). cc;
}

module _ (env : Env) (s : Store) (h : IsValid s.invoice) where
  -- An invoice with a live payment is out.
  out_of_live :
      (q : Payment → Bool) (p : Payment)
      → find q s.invoice.payments ≡ some p
      → is_live p ≡ true
      → is_out s.invoice.status ≡ true
  out_of_live q p f live = elim (Bool-cases (is_out s.invoice.status)) [
    | inl out ↦ out
    | inr shut ↦ cc (any_of_find q is_live s.invoice.payments p f live, h.no_payments shut)
  ]

  -- A payment that is voided keeps the invariant.
  pub void_payment-IsValid :
      (id : ℕ) (actor : Option ℕ) (reason : Text) → Holds Keeps (void_payment env id actor reason s)
  unfolding void_payment
  void_payment-IsValid id actor reason =
      elim (Option-cases (find (λ (p : Payment). p.id == id) s.invoice.payments)) [
        | inl e ↦ rw e tt
        | inr (p, f) ↦ rw f (elim (Bool-cases (is_live p)) [
          | inr e ↦ rw e tt
          | inl live ↦ rw live (elim (Bool-cases (is_empty (strip reason))) [
            | inl e ↦ rw e tt
            | inr given ↦ rw given (
                let out = out_of_live (λ p. p.id == id) p f live in
                sync_plan-refresh_status-IsValid env _ out (
                  voided-IsSound s.invoice (λ p. p.id == id) env.now (take 255 (strip reason)) p
                    h.sound out f live))
          ])
        ])
      ]
