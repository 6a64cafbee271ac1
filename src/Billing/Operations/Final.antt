-- ===== src/Billing/Operations/Final.antt =====
-- A void invoice is final: no request on it is served.
use open_immigration_crm.Prelude.{
  ℕ, ◌≡◌, inl, inr, refl, List, [], ◌∷◌, Option, some, Bool, true, false, ◌==◌, Text, ℤ, arith, any,
  find, Bool-cases, Option-cases,
}
use open_immigration_crm.Billing.Calendar.{Date, Frequency}
use open_immigration_crm.Billing.Records.{
  void, Payment, PaymentFields, PaymentPlan, status_is_draft, is_open, is_paid, is_active,
  is_canceled, in_force, is_live,
}
use open_immigration_crm.Billing.Store.{
  Env, Store, Error, Result, ok, err, Action, ◌>>◌, ◌>>=◌, pure, commit,
}
use open_immigration_crm.Billing.Sync.Invariant.{IsValid, is_out}
use open_immigration_crm.Billing.Draft.{require_draft, add_line, add_time_to_invoice, issue_invoice}
use open_immigration_crm.Billing.Service.{record_payment, void_payment, cancel_plan, void_invoice}
use open_immigration_crm.Billing.Plans.{create_plan, set_email_reminders}
use open_immigration_crm.Billing.Operations.{Request, action, serve}

-- An element that is found fails a test that none passes.
fails_of_find {ℓ} :
    {A : Type ℓ} (q r : A → Bool) (xs : List A) {x : A}
    → any r xs ≡ false
    → find q xs ≡ some x
    → r x ≡ false
fails_of_find q r [] none_pass f = absurd (cc)
fails_of_find q r (y ∷ ys) {x} none_pass f = elim (Bool-cases (q y)) [
  | inl e ↦ (let same : y ≡ x = ground arith in rw (← same) (ground arith))
  | inr e ↦ fails_of_find q r ys (ground arith) (ground arith)
]

abbrev raises : {A : Type 0} → Result (A × Store) → Bool
raises (ok _) = false
raises (err _) = true

abbrev Raises : {A : Type 0} → Result (A × Store) → Type 0
Raises r = raises r ≡ true

>>=-Raises :
    {A B : Type 0} (m : Action A) (k : A → Action B) (s : Store)
    → Raises (m s)
    → Raises ((m >>= k) s)
>>=-Raises {A} {B} m k s h = go (m s) h
  where
    go :
        (r : Result (A × Store))
        → Raises r
        → Raises {A = B} (elim r [ ok (a, t) ↦ k a t | err e ↦ err e ])
    go (ok x) h = absurd (cc)
    go (err e) h = refl

not_canceled_of_active : (p : PaymentPlan) → in_force p ≡ false → is_active p.status ≡ false
unfolding in_force is_canceled is_active
not_canceled_of_active p h = ground arith

module _ (env : Env) (actor : Option ℕ) (s : Store) (h : IsValid s.invoice)
    (final : s.invoice.status ≡ void) where
  shut : is_out s.invoice.status ≡ false
  unfolding is_open is_paid
  shut = rw final

  closed : is_open s.invoice.status ≡ false
  unfolding is_open
  closed = rw final

  drafting-Raises : (m : Action (Unit {0})) → Raises ((require_draft >> m) s)
  unfolding require_draft status_is_draft
  drafting-Raises m = rw (final, require_draft, raises) refl

  void_payment-Raises : (id : ℕ) (reason : Text) → Raises (void_payment env id actor reason s)
  unfolding void_payment
  void_payment-Raises id reason =
      elim (Option-cases (find (λ (p : Payment). p.id == id) s.invoice.payments)) [
        | inl e ↦ rw e refl
        | inr (p, f) ↦
            rw
              (f, fails_of_find (λ p. p.id == id) is_live s.invoice.payments (h.no_payments shut) f)
              refl
      ]

  cancel_plan-Raises : (id : ℕ) → Raises (cancel_plan env id actor s)
  unfolding cancel_plan in_force
  cancel_plan-Raises id =
      elim (Option-cases (find (λ (p : PaymentPlan). p.id == id) s.invoice.plans)) [
        | inl e ↦ rw e refl
        | inr (p, f) ↦
            rw (f, fails_of_find (λ p. p.id == id) in_force s.invoice.plans (h.no_plan shut) f) refl
      ]

  set_email_reminders-Raises : (id : ℕ) (on : Bool) → Raises (set_email_reminders env id actor on s)
  unfolding set_email_reminders
  set_email_reminders-Raises id on =
      elim (Option-cases (find (λ (p : PaymentPlan). p.id == id) s.invoice.plans)) [
        | inl e ↦ rw e refl
        | inr (p, f) ↦
            rw
              (
                f,
                not_canceled_of_active p
                    (fails_of_find (λ p. p.id == id) in_force s.invoice.plans (h.no_plan shut) f),
              )
              refl
      ]

  record_payment-Raises :
      (value : ℤ) (fields : PaymentFields) → Raises (record_payment env actor value fields s)
  unfolding record_payment
  record_payment-Raises value fields = rw (closed, raises) refl

  void_invoice-Raises : (reason : Text) → Raises (void_invoice env actor reason s)
  unfolding void_invoice
  void_invoice-Raises reason = rw (closed, raises) refl

  create_plan-Raises :
      (n : ℕ) (day : Date) (f : Frequency) (days : ℕ) (email : Bool)
      → Raises (create_plan env actor n day f days email s)
  unfolding create_plan
  create_plan-Raises n day f days email = rw (closed, raises) refl

  action-Raises : (request : Request) → Raises (action env actor request s)
  unfolding action add_line add_time_to_invoice issue_invoice
  action-Raises (Request.add_line k f d q u) = drafting-Raises _
  action-Raises (Request.add_time entries) = drafting-Raises _
  action-Raises Request.issue = drafting-Raises _
  action-Raises (Request.pay value fields) =
      >>=-Raises (record_payment env actor value fields) (λ _. pure tt) s
        (record_payment-Raises value fields)
  action-Raises (Request.void_payment id reason) = void_payment-Raises id reason
  action-Raises (Request.void_invoice reason) = void_invoice-Raises reason
  action-Raises (Request.create_plan n day f before email) =
      >>=-Raises (create_plan env actor n day f before email) (λ _. pure tt) s
        (create_plan-Raises n day f before email)
  action-Raises (Request.cancel_plan id) = cancel_plan-Raises id
  action-Raises (Request.set_email_reminders id on) = set_email_reminders-Raises id on

commit_of_Raises : (m : Action (Unit {0})) (s : Store) → Raises (m s) → commit m s ≡ s
commit_of_Raises m s h = go (m s) h
  where
    go : (r : Result (Unit {0} × Store)) → Raises r → (elim r [ ok (_, t) ↦ t | err _ ↦ s ]) ≡ s
    go (ok x) h = cc
    go (err e) h = refl

error_of_Raises : (r : Result (Unit {0} × Store)) → Raises r → (e : Error) × (r ≡ err e)
error_of_Raises (ok x) h = absurd (cc)
error_of_Raises (err e) h = (e, refl)

-- Every request on a valid invoice that is void is refused with an error, and the database stays as
-- it is.
pub serve_void :
    (env : Env) (actor : Option ℕ) (request : Request) (s : Store)
    → IsValid s.invoice
    → s.invoice.status ≡ void
    → ((e : Error) × (action env actor request s ≡ err e)) × (serve env actor request s ≡ s)
unfolding serve
serve_void env actor request s h final =
    let refused = action-Raises env actor s h final request in
    (
      error_of_Raises (action env actor request s) refused,
      commit_of_Raises (action env actor request) s refused,
    )
