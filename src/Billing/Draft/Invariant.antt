-- ===== src/Billing/Draft/Invariant.antt =====
-- Drafting and issuing keep the invoice's invariant.
use open_immigration_crm.Prelude.{
  ℕ, ◌+◌, ◌≡◌, refl, sym, List, [], ◌∷◌, Option, none, some, is_some, true, false, not, ◌&&◌, arith,
  any, select, Bool-cases, inl, inr, is_empty, ℤ, pos, ◌<ℤ◌, ltb_ℤ, Text, Option-cases,
}
use open_immigration_crm.Billing.Calendar.{Date}
use open_immigration_crm.Billing.Records.{
  Status, issued, Kind, Funds, InvoiceLine, Number, Payment, TimeEntry, Invoice, status_is_draft,
  is_open, is_paid, is_live, collected, amount_paid, subtotal,
}
use open_immigration_crm.Billing.Store.{Env, Store, Action, ◌>>◌, Result, ok, err}
use open_immigration_crm.Billing.Store.Holds.{Holds, >>=-Holds}
use open_immigration_crm.Billing.Sync.{settled_status}
use open_immigration_crm.Billing.Sync.Invariant.{IsValid, Keeps, is_out, plan_status, All-refuted}
use open_immigration_crm.Billing.Draft.{
  hourly_rate_for, is_billed, create_line, line_of_time, time_line, time_lines, add_time_to_invoice,
  require_draft, next_position, add_line, issue_invoice,
}

draft-not_out : (s : Status) → status_is_draft s ≡ true → is_out s ≡ false
unfolding status_is_draft is_open is_paid
draft-not_out s h = ground arith

-- A valid draft, whose lines do not matter yet.
pub record IsDraft (i : Invoice) : Type 0 where
  pub is_draft : status_is_draft i.status ≡ true
  pub valid : IsValid i

abbrev KeepsDraft : {A : Type 0} → A → Store → Type 0
KeepsDraft _ t = IsDraft t.invoice

lines-IsDraft :
    (i : Invoice) (ls : List InvoiceLine) → IsDraft i → IsDraft (record i { lines = ls })
lines-IsDraft i ls h =
    let shut = draft-not_out i.status h.is_draft in
    record {
      is_draft = h.is_draft;
      valid = record {
        sound = record {
          positive = h.valid.positive;
          numbered = h.valid.numbered;
          one_plan = h.valid.one_plan;
          not_overpaid = λ (out : is_out i.status ≡ true). absurd (cc);
          owes = λ (out : is_out i.status ≡ true). absurd (cc);
          no_payments = h.valid.no_payments;
          no_plan = h.valid.no_plan;
        };
        settled = λ (out : is_out i.status ≡ true). absurd (cc);
        planned = h.valid.planned;
      };
    }

module _ (s : Store) (h : IsDraft s.invoice) where
  create_line-IsDraft : (line : InvoiceLine) → Holds KeepsDraft (create_line line s)
  unfolding create_line
  create_line-IsDraft line = elim (Option-cases line.time_entry) [
    | inl e ↦ rw e (lines-IsDraft s.invoice _ h)
    | inr (entry, e) ↦ rw e (elim (Bool-cases (is_billed entry s)) [
      | inl b ↦ rw b tt
      | inr b ↦ rw b (lines-IsDraft s.invoice _ h)
    ])
  ]

  time_line-IsDraft : (n : ℕ) (entry : TimeEntry) → Holds KeepsDraft (time_line n entry s)
  unfolding time_line
  time_line-IsDraft n entry = elim (Option-cases (hourly_rate_for s entry.user)) [
    | inl e ↦ rw e tt
    | inr (rate, e) ↦
        rw e (create_line-IsDraft (line_of_time n entry s.settings.time_increment_minutes rate))
  ]

time_lines-IsDraft :
    (n : ℕ) (entries : List TimeEntry) (s : Store)
    → IsDraft s.invoice
    → Holds KeepsDraft (time_lines n entries s)
unfolding time_lines
time_lines-IsDraft n [] s h = h
time_lines-IsDraft n (entry ∷ entries) s h =
    >>=-Holds KeepsDraft KeepsDraft (time_line n entry) (λ _. time_lines (n + 1) entries) s
      (time_line-IsDraft s h n entry) (λ _ t k. time_lines-IsDraft (n + 1) entries t k)

no_live_collected :
    (ps : List Payment) → any is_live ps ≡ false → collected (select is_live ps) ≡ pos 0
unfolding collected
no_live_collected [] h = refl
no_live_collected (p ∷ ps) h = elim (Bool-cases (is_live p)) [
  | inl e ↦ absurd (ground arith)
  | inr e ↦ rw e (no_live_collected ps (rw e at h))
]

settled_status_unpaid : (owed : ℤ) → pos 0 <ℤ owed → settled_status (pos 0) owed ≡ issued
unfolding settled_status
settled_status_unpaid owed h = ground arith

issued-IsValid :
    (i : Invoice) (n : Number) (on due : Date)
    → IsDraft i
    → pos 0 <ℤ subtotal i
    → IsValid
        (record i { number = some n; issue_date = some on; due_date = some due; status = issued })
unfolding amount_paid subtotal plan_status is_open is_paid
issued-IsValid i n on due h owes =
    let shut = draft-not_out i.status h.is_draft in
    let unpaid = no_live_collected i.payments (h.valid.no_payments shut) in
    record {
      sound = record {
        positive = h.valid.positive;
        numbered = λ _. refl;
        one_plan = h.valid.one_plan;
        not_overpaid = λ _. rw unpaid (omega arith);
        owes = λ _. owes;
        no_payments = λ (no_longer : is_out issued ≡ false). absurd (cc);
        no_plan = λ (no_longer : is_out issued ≡ false). absurd (cc);
      };
      settled = λ _. rw unpaid (sym (settled_status_unpaid (subtotal i) owes));
      planned = All-refuted (λ st. st ≡ plan_status issued) i.plans (h.valid.no_plan shut);
    }

module _ (s : Store) (h : IsValid s.invoice) where
  -- An action behind `require_draft` starts from a valid draft.
  draft_first :
      (Q : Unit {0} → Store → Type 0) (m : Action (Unit {0}))
      → (IsDraft s.invoice → Holds Q (m s))
      → Holds Q ((require_draft >> m) s)
  unfolding require_draft
  draft_first Q m k = elim (Bool-cases (status_is_draft s.invoice.status)) [
    | inr e ↦ rw (e, Holds) tt
    | inl e ↦ rw (e, Holds) (k (record { is_draft = e; valid = h }))
  ]

  weaken : (r : Result (Unit {0} × Store)) → Holds KeepsDraft r → Holds Keeps r
  weaken (ok (a, t)) k = k.valid
  weaken (err e) k = tt

  pub add_line-IsValid :
      (kind : Kind) (funds : Funds) (description : Text) (quantity : ℕ) (price : ℤ)
      → Holds Keeps (add_line kind funds description quantity price s)
  unfolding add_line
  add_line-IsValid kind funds description quantity price =
      let line : InvoiceLine = record {
        position = next_position s.invoice;
        kind = kind;
        funds = funds;
        description = description;
        quantity = quantity;
        unit_price = price;
        time_entry = none;
      } in
      draft_first Keeps _ (λ d. weaken (create_line line s) (create_line-IsDraft s d line))

  pub add_time_to_invoice-IsValid :
      (entries : List TimeEntry) → Holds Keeps (add_time_to_invoice entries s)
  unfolding add_time_to_invoice
  add_time_to_invoice-IsValid entries = draft_first Keeps _ (λ d.
      elim (Bool-cases
        (any (λ (e : TimeEntry). not (is_some (hourly_rate_for s e.user))) entries)) [
          | inl e ↦ rw e tt
          | inr e ↦ rw e (weaken _ (time_lines-IsDraft (next_position s.invoice) entries s d))
        ])

  pub issue_invoice-IsValid :
      (env : Env) (actor : Option ℕ) → Holds Keeps (issue_invoice env actor s)
  unfolding issue_invoice
  issue_invoice-IsValid env actor = draft_first Keeps _ (λ d.
      elim (Bool-cases (not (is_empty s.invoice.lines) && ltb_ℤ (pos 0) (subtotal s.invoice))) [
        | inr e ↦ rw e tt
        | inl e ↦ rw e (issued-IsValid s.invoice _ _ _ d (ground arith))
      ])
