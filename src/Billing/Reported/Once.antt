-- ===== src/Billing/Reported/Once.antt =====
-- A reported payment is recorded once, and the invoice stays valid.
use mathlib.Core.Path.{subst}
use open_immigration_crm.Prelude.{
  ℕ, ◌≡◌, inl, inr, refl, sym, ap, ◌∙◌, List, [], ◌∷◌, ◌++◌, Option, none, Option-cases, Bool,
  false, ◌||◌, ◌==◌, Bool-cases, any, find, All, All-map, All-append, Text, codes, strip, is_empty,
  ℤ, pos, ltb_ℤ, leb_ℤ, arith,
}
use open_immigration_crm.Billing.Money.{money}
use open_immigration_crm.Billing.Records.{
  Payment, PaymentFields, Invoice, is_open, is_paid, is_live, balance,
}
use open_immigration_crm.Billing.Store.{Env, Store, Result, ok, err, clashes}
use open_immigration_crm.Billing.Store.Holds.{Holds, >>=-Holds, commit-keeps}
use open_immigration_crm.Billing.Sync.{modify_first, refresh_status, sync_plan}
use open_immigration_crm.Billing.Sync.Invariant.{IsValid, Keeps}
use open_immigration_crm.Billing.Service.{record_payment, void_payment}
use open_immigration_crm.Billing.Service.Payments.{record_payment-IsValid}
use open_immigration_crm.Billing.Service.Voided.{void_payment-IsValid}
use open_immigration_crm.Billing.Reported.{
  PaymentRecord, ReportStatus, deposit_account, fields_of, is_integrity, noted, record_new, refund,
  completed, failed, refunded, partially_refunded, existing, store_as, store_one, store_records,
  is_from,
}

-- No later payment has the source and the provider's key of an earlier one.
abbrev pub AreOnce : List Payment → Type 0
AreOnce [] = Unit
AreOnce (p ∷ ps) = All (λ (q : Payment). clashes q.fields (p ∷ []) ≡ false) ps × AreOnce ps

clashes_tail :
    (fields : PaymentFields) (p : Payment) (ps : List Payment)
    → clashes fields (p ∷ ps) ≡ false
    → (clashes fields (p ∷ []) ≡ false) × (clashes fields ps ≡ false)
unfolding clashes
clashes_tail fields p ps h = (ground arith, ground arith)

append-AreOnce :
    (ps : List Payment) (new : Payment)
    → clashes new.fields ps ≡ false
    → AreOnce ps
    → AreOnce (ps ++ new ∷ [])
append-AreOnce [] new free h = (tt, tt)
append-AreOnce (p ∷ ps) new free h =
    let (own, rest) = clashes_tail new.fields p ps free in
    (
      All-append (λ (q : Payment). clashes q.fields (p ∷ []) ≡ false) ps (new ∷ []) h.0 (own, tt),
      append-AreOnce ps new rest h.1,
    )

settled-payments_any :
    (env : Env) (i : Invoice) → (sync_plan env (refresh_status i)).payments ≡ i.payments
unfolding sync_plan refresh_status
settled-payments_any env i = elim (Bool-cases (is_open i.status || is_paid i.status)) [
  | inl e ↦ rw (e, refresh_status) refl
  | inr e ↦ rw (e, refresh_status) refl
]

module _ (q : Payment → Bool) (f : Payment → Payment)
    (same : (p : Payment) → (f p).fields ≡ p.fields) where
  modify_first-All :
      (p : Payment) (ps : List Payment)
      → All (λ (r : Payment). clashes r.fields (p ∷ []) ≡ false) ps
      → All (λ (r : Payment). clashes r.fields (p ∷ []) ≡ false) (modify_first q f ps)
  unfolding modify_first
  modify_first-All p [] hs = tt
  modify_first-All p (x ∷ ps) hs = elim (Bool-cases (q x)) [
    | inl e ↦ rw e (ap (λ fields. clashes fields (p ∷ [])) (same x) ∙ hs.0, hs.1)
    | inr e ↦ rw e (hs.0, modify_first-All p ps hs.1)
  ]

  clash_same :
      (x : Payment) (fields : PaymentFields) → clashes fields (f x ∷ []) ≡ clashes fields (x ∷ [])
  unfolding clashes
  clash_same x fields = rw (same x) refl

  modify_first-AreOnce : (ps : List Payment) → AreOnce ps → AreOnce (modify_first q f ps)
  unfolding modify_first
  modify_first-AreOnce [] h = tt
  modify_first-AreOnce (x ∷ ps) h = elim (Bool-cases (q x)) [
    | inl e ↦ rw e (All-map ps (λ r k. clash_same x r.fields ∙ k) h.0, h.1)
    | inr e ↦ rw e (modify_first-All x ps h.0, modify_first-AreOnce ps h.1)
  ]

clashes_behind :
    (fields : PaymentFields) (ps qs : List Payment)
    → clashes fields (ps ++ qs) ≡ false
    → clashes fields qs ≡ false
clashes_behind fields [] qs h = h
clashes_behind fields (p ∷ ps) qs h =
    clashes_behind fields ps qs (clashes_tail fields p (ps ++ qs) h).1

-- What the reports keep.
pub record IsKept (s : Store) : Type 0 where
  pub valid : IsValid s.invoice
  pub once : AreOnce s.invoice.payments

abbrev Kept : {A : Type 0} → A → Store → Type 0
Kept a t = IsKept t

both_hold :
    {A : Type 0} (r : Result (A × Store))
    → Holds Keeps r
    → Holds (λ _ t. AreOnce t.invoice.payments) r
    → Holds Kept r
both_hold (ok (a, t)) valid once = record { valid = valid; once = once }
both_hold (err e) valid once = tt

noted-Holds :
    (s : Store) (r : Result (ℕ × Store)) → IsKept s → Holds Kept r → Holds Kept (noted s r)
unfolding noted
noted-Holds s (ok (id, t)) h kept = kept
noted-Holds s (err e) h kept = elim (Bool-cases (is_integrity e)) [
  | inl f ↦ rw f tt
  | inr f ↦ rw f h
]

module _ (env : Env) (s : Store) where
  record_payment-AreOnce :
      (actor : Option ℕ) (value : ℤ) (fields : PaymentFields)
      → AreOnce s.invoice.payments
      → Holds (λ _ t. AreOnce t.invoice.payments) (record_payment env actor value fields s)
  unfolding record_payment
  record_payment-AreOnce actor value fields once = elim (Bool-cases (is_open s.invoice.status)) [
    | inr e ↦ rw e tt
    | inl open_now ↦ rw open_now (elim (Bool-cases (ltb_ℤ (pos 0) (money value))) [
      | inr e ↦ rw e tt
      | inl positive ↦ rw positive (elim (Bool-cases (leb_ℤ (money value) (balance s.invoice))) [
        | inr e ↦ rw e tt
        | inl within ↦
            rw within (elim (Bool-cases (clashes fields (s.other_payments ++ s.invoice.payments))) [
              | inl e ↦ rw e tt
              | inr free ↦ rw free (
                  subst AreOnce (sym (settled-payments_any env _)) (
                    append-AreOnce s.invoice.payments _
                      (clashes_behind fields s.other_payments s.invoice.payments free) once))
            ])
      ])
    ])
  ]

  void_payment-AreOnce :
      (id : ℕ) (actor : Option ℕ) (reason : Text)
      → AreOnce s.invoice.payments
      → Holds (λ _ t. AreOnce t.invoice.payments) (void_payment env id actor reason s)
  unfolding void_payment
  void_payment-AreOnce id actor reason once =
      elim (Option-cases (find (λ (p : Payment). p.id == id) s.invoice.payments)) [
        | inl e ↦ rw e tt
        | inr (p, f) ↦ rw f (elim (Bool-cases (is_live p)) [
          | inr e ↦ rw e tt
          | inl live ↦ rw live (elim (Bool-cases (is_empty (strip reason))) [
            | inl e ↦ rw e tt
            | inr given ↦ rw given (
                subst AreOnce (sym (settled-payments_any env _)) (
                  modify_first-AreOnce (λ (p : Payment). p.id == id) _ (λ p. refl)
                    s.invoice.payments once))
          ])
        ])
      ]

module _ (env : Env) (connection : ℕ) (label : Text) where
  record_new-Kept :
      (report : PaymentRecord) (s : Store)
      → IsKept s
      → Holds Kept (record_new env connection label report s)
  unfolding record_new
  record_new-Kept report s h = elim (Bool-cases (report.names_invoice)) [
    | inr e ↦ rw (e, record_new) h
    | inl e ↦ elim (Option-cases (deposit_account report s.invoice)) [
      | inl f ↦ rw (e, f, record_new) h
      | inr (account, f) ↦
          let fields = fields_of connection label account report in
          rw (e, f, record_new)
            (noted-Holds s (record_payment env none report.amount fields s) h (
              both_hold (record_payment env none report.amount fields s)
                (record_payment-IsValid env s h.valid none report.amount fields)
                (record_payment-AreOnce env s none report.amount fields h.once)))
    ]
  ]

  refund-Kept : (p : Payment) (s : Store) → IsKept s → Holds Kept (refund env connection label p s)
  unfolding refund
  refund-Kept p s h = elim (Bool-cases (is_live p)) [
    | inr e ↦ rw (e, refund) h
    | inl e ↦
        let reason = codes "Refunded at " ++ label in
        rw (e, refund)
          (>>=-Holds Kept Kept (void_payment env p.id none reason) _ s
            (both_hold (void_payment env p.id none reason s)
              (void_payment-IsValid env s h.valid p.id none reason)
              (void_payment-AreOnce env s p.id none reason h.once))
            (λ b t kept. kept))
  ]

  store_as-Kept :
      (status : ReportStatus) (report : PaymentRecord) (s : Store)
      → IsKept s
      → Holds Kept (store_as env connection label status report s)
  unfolding store_as
  store_as-Kept failed report s h = h
  store_as-Kept refunded report s h = elim (Option-cases (existing env connection label report s)) [
    | inl e ↦ rw (e, store_as) h
    | inr (p, e) ↦ rw (e, store_as) (refund-Kept p s h)
  ]
  store_as-Kept partially_refunded report s h =
      elim (Option-cases (existing env connection label report s)) [
        | inl e ↦ rw (e, store_as) h
        | inr (p, e) ↦ rw (e, store_as) h
      ]
  store_as-Kept completed report s h =
      elim (Bool-cases
        (any (is_from connection report.external_id) (s.other_payments ++ s.invoice.payments))) [
          | inl e ↦ rw (e, store_as) h
          | inr e ↦ rw (e, store_as) (record_new-Kept report s h)
        ]

  -- Where an invoice is valid and no two of its payments have the same provider's key, that is so after
  -- whatever payments and refunds a connector reports of it, however often and in whatever order.
  pub store_records-IsKept :
      (reports : List PaymentRecord) (s : Store)
      → IsKept s
      → IsKept (store_records env connection label reports s)
  unfolding store_records store_one
  store_records-IsKept [] s h = h
  store_records-IsKept (report ∷ reports) s h = store_records-IsKept reports _ (
      commit-keeps IsKept (store_one env connection label report) s h
        (store_as-Kept report.status report s h))
