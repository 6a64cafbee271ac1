-- ===== src/Billing/Sync/Invariant.antt =====
-- The invariant of an invoice with its payments and plans, and how `refresh_status` and
-- `sync_plan` restore it.
use open_immigration_crm.Prelude.{
  ◌≤◌, ◌≡◌, refl, List, [], ◌∷◌, is_some, Bool, true, false, ◌||◌, ℤ, pos, ◌≤ℤ◌, ◌<ℤ◌, arith, All,
  any, select, length, Bool-cases, inl, inr, if◌then◌else◌,
}
use open_immigration_crm.Billing.Records.{
  Status, Payment, PlanStatus, active, completed, PaymentPlan, Invoice, status_is_draft, is_open,
  is_paid, in_force, is_live, subtotal, amount_paid,
}
use open_immigration_crm.Billing.Store.{Env, Store}
use open_immigration_crm.Billing.Sync.{
  settled_status, refresh_status, modify_first, synced, sync_plan,
}

-- Issued, and not void.
abbrev pub is_out : Status → Bool
is_out status = is_open status || is_paid status

unfoldable pub plan_status : Status → PlanStatus
plan_status status = if is_paid status then completed else active

-- What the tables satisfy between the two steps of a service call.
pub record IsSound (i : Invoice) : Type 0 where
  pub positive : All (λ (p : Payment). pos 0 <ℤ p.amount) i.payments
  pub numbered : status_is_draft i.status ≡ false → is_some i.number ≡ true
  pub one_plan : length (select in_force i.plans) ≤ 1
  pub not_overpaid : is_out i.status ≡ true → amount_paid i ≤ℤ subtotal i
  pub owes : is_out i.status ≡ true → pos 0 <ℤ subtotal i
  pub no_payments : is_out i.status ≡ false → any is_live i.payments ≡ false
  pub no_plan : is_out i.status ≡ false → any in_force i.plans ≡ false

-- At the end of a call the status and the plan in force say what has been paid.
pub record IsValid (i : Invoice) : Type 0 where
  pub sound : IsSound i
  pub open sound use *
  pub settled : is_out i.status ≡ true → i.status ≡ settled_status (amount_paid i) (subtotal i)
  pub planned :
      All (λ (p : PaymentPlan). in_force p ≡ true → p.status ≡ plan_status i.status) i.plans

-- An action's result keeps the invariant.
abbrev pub Keeps : {A : Type 0} → A → Store → Type 0
Keeps _ t = IsValid t.invoice

pub settled_status-is_out : (paid owed : ℤ) → is_out (settled_status paid owed) ≡ true
unfolding settled_status is_open is_paid
settled_status-is_out paid owed = ground arith

pub is_out-not_draft : (s : Status) → is_out s ≡ true → status_is_draft s ≡ false
unfolding status_is_draft is_open is_paid
is_out-not_draft s h = ground arith

pub refresh_status_out :
    (i : Invoice)
    → is_out i.status ≡ true
    → refresh_status i ≡ record i { status = settled_status (amount_paid i) (subtotal i) }
unfolding refresh_status
refresh_status_out i h = rw h

-- Modifying the first plan in force, with a function that keeps it in force.
select-modify_first :
    (f : PaymentPlan → PaymentPlan) (ps : List PaymentPlan)
    → ((p : PaymentPlan) → in_force (f p) ≡ true)
    → length (select in_force (modify_first in_force f ps)) ≡ length (select in_force ps)
unfolding modify_first
select-modify_first f [] h = refl
select-modify_first f (p ∷ ps) h = ground (arith, h p, select-modify_first f ps h)

pub All-vacuous :
    (Q : PlanStatus → Type 0) (ps : List PaymentPlan)
    → length (select in_force ps) ≤ 0
    → All (λ (p : PaymentPlan). in_force p ≡ true → Q p.status) ps
All-vacuous Q [] h = tt
All-vacuous Q (p ∷ ps) h = elim (Bool-cases (in_force p)) [
  | inl e ↦ absurd (ground arith)
  | inr e ↦ ((λ t. cc), All-vacuous Q ps (ground arith))
]

All-modify_first :
    (Q : PlanStatus → Type 0) (f : PaymentPlan → PaymentPlan) (ps : List PaymentPlan)
    → length (select in_force ps) ≤ 1
    → ((p : PaymentPlan) → Q (f p).status)
    → All (λ (p : PaymentPlan). in_force p ≡ true → Q p.status) (modify_first in_force f ps)
unfolding modify_first
All-modify_first Q f [] h q = tt
All-modify_first Q f (p ∷ ps) h q = elim (Bool-cases (in_force p)) [
  | inl e ↦ rw e ((λ _. q p), All-vacuous Q ps (ground arith))
  | inr e ↦ rw e ((λ t. cc), All-modify_first Q f ps (ground arith) q)
]

synced-status :
    (env : Env) (i : Invoice) (p : PaymentPlan) → (synced env i p).status ≡ plan_status i.status
unfolding synced plan_status
synced-status env i p = refl

in_force_of_out : (env : Env) (i : Invoice) (p : PaymentPlan) → in_force (synced env i p) ≡ true
unfolding synced in_force
in_force_of_out env i p = ground arith

restored :
    (env : Env) (i : Invoice) (s : Status)
    → is_out i.status ≡ true
    → is_out s ≡ true
    → s ≡ settled_status (amount_paid i) (subtotal i)
    → IsSound i
    → IsValid (sync_plan env (record i { status = s }))
unfolding sync_plan amount_paid subtotal
restored env i s out out' e h =
    let j : Invoice = record i { status = s } in
    record {
      sound = record {
        positive = h.positive;
        numbered = λ _. h.numbered (is_out-not_draft i.status out);
        one_plan =
            rw (select-modify_first (synced env j) i.plans (in_force_of_out env j)) h.one_plan;
        not_overpaid = λ _. h.not_overpaid out;
        owes = λ _. h.owes out;
        no_payments = λ (shut : is_out s ≡ false). cc;
        no_plan = λ (shut : is_out s ≡ false). cc;
      };
      settled = λ _. e;
      planned =
          All-modify_first (λ q. q ≡ plan_status s) (synced env j) i.plans h.one_plan
            (synced-status env j);
    }

-- After a change to the payments of an invoice that is out, the two steps restore the invariant.
pub sync_plan-refresh_status-IsValid :
    (env : Env) (i : Invoice)
    → is_out i.status ≡ true
    → IsSound i
    → IsValid (sync_plan env (refresh_status i))
sync_plan-refresh_status-IsValid env i out h = rw (refresh_status_out i out) (
    restored env i (settled_status (amount_paid i) (subtotal i)) out
      (settled_status-is_out (amount_paid i) (subtotal i)) refl h)

pub is_out-is_open : (s : Status) → is_open s ≡ true → is_out s ≡ true
unfolding is_open is_paid
is_out-is_open s h = ground arith

pub All-refuted :
    (Q : PlanStatus → Type 0) (ps : List PaymentPlan)
    → any in_force ps ≡ false
    → All (λ (p : PaymentPlan). in_force p ≡ true → Q p.status) ps
All-refuted Q [] h = tt
All-refuted Q (p ∷ ps) h = elim (Bool-cases (in_force p)) [
  | inl e ↦ absurd (ground arith)
  | inr e ↦ ((λ t. absurd (cc)), All-refuted Q ps (rw e at h))
]
