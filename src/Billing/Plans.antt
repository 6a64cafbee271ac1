-- ===== src/Billing/Plans.antt =====
-- Payment plans: `create_plan`, `set_email_reminders` and the reminder times of
-- crm/billing/services.py.
pub mod Invariant
pub mod Created
use open_immigration_crm.Prelude.{
  ℕ, suc, max, List, [], ◌∷◌, Option, none, some, Bool, false, not, ◌&&◌, ◌==◌, find, is_some, ℤ,
  pos, ltb_ℤ, leb, if◌then◌else◌, codes,
}
use open_immigration_crm.Billing.Money.{split_amount}
use open_immigration_crm.Billing.Calendar.{Date, Frequency, before, sub_days, installment_dates}
use open_immigration_crm.Billing.Records.{
  Installment, active, PaymentPlan, is_open, is_active, plan, balance,
}
use open_immigration_crm.Billing.Store.{
  no_balance, has_plan, bad_count, past_date, bad_address, plan_not_active, not_found, plan_created,
  plan_email_reminders_on, plan_email_reminders_off, Env, Action, ◌>>=◌, ◌>>◌, pure, gets, require,
  save, fresh, log,
}
use open_immigration_crm.Billing.Sync.{modify_first}

-- `MAX_INSTALLMENTS`
abbrev pub max_installments : ℕ
max_installments = 60

module _ (env : Env) where
  -- 9 a.m. on the reminder day.
  unfoldable pub reminder_moment : Date → ℕ → ℕ
  unfolding sub_days
  reminder_moment due_date days_before = env.aware (sub_days due_date days_before) 9

  unfoldable pub reminder_time : Date → ℕ → ℕ
  unfolding reminder_moment
  reminder_time due_date days_before = max (reminder_moment due_date days_before) env.now

  -- One round of the loop in `create_plan`, with the reminder's text left to its first line.
  unfoldable pub new_installment : Option ℕ → ℕ → ℕ → Date → ℤ → Installment
  unfolding reminder_time
  new_installment actor days_before sequence due amount = record {
    sequence = sequence;
    due_date = due;
    amount = amount;
    reminder = some (record {
      assigned_to = actor;
      scheduled_for = reminder_time due days_before;
      description =
          codes
            "Remind the client of this payment plan installment. This reminder completes itself when the installment is paid.";
      is_completed = false;
      completed_at = none;
    });
    reminder_emailed_at = none;
    reminder_email_error = [];
  }

  -- The loop over `zip(dates, amounts, strict=True)`, which has lists of one length.
  unfoldable pub new_installments : Option ℕ → ℕ → ℕ → List Date → List ℤ → List Installment
  unfolding new_installment
  new_installments actor days_before sequence (due ∷ dates) (amount ∷ amounts) =
      new_installment actor days_before sequence due amount
      ∷ new_installments actor days_before (suc sequence) dates amounts
  new_installments _ _ _ _ _ = []

  unfoldable pub create_plan : Option ℕ → ℕ → Date → Frequency → ℕ → Bool → Action ℕ
  unfolding is_open plan before split_amount installment_dates new_installments
  create_plan actor count first_due_date frequency reminder_days_before email_reminders = do
    invoice ← gets (λ s. s.invoice)
    require (is_open invoice.status && ltb_ℤ (pos 0) (balance invoice)) no_balance
    require (not (is_some (plan invoice))) has_plan
    require (leb 2 count && leb count max_installments) bad_count
    require (not (before first_due_date env.today)) past_date
    require (not (email_reminders && env.address_problem invoice.contact)) bad_address
    id ← fresh
    let dates = installment_dates first_due_date count frequency
    let amounts = split_amount (balance invoice) count
    let created : PaymentPlan = record {
      id = id;
      status = active;
      frequency = frequency;
      reminder_days_before = reminder_days_before;
      email_reminders = email_reminders;
      created_by = actor;
      canceled_at = none;
      installments = new_installments actor reminder_days_before 1 dates amounts;
    }
    save (λ i. record i { plans = created ∷ i.plans })
    log actor plan_created
    pure id

  -- The plan is named by its key.
  unfoldable pub set_email_reminders : ℕ → Option ℕ → Bool → Action (Unit {0})
  unfolding modify_first is_active
  set_email_reminders id actor on = do
    found ← gets (λ s. find (λ (p : PaymentPlan). p.id == id) s.invoice.plans)
    require (is_some found) not_found
    let in_effect : Bool = elim found [ none ↦ false | some p ↦ is_active p.status ]
    require in_effect plan_not_active
    contact ← gets (λ s. s.invoice.contact)
    require (not (on && env.address_problem contact)) bad_address
    save (λ i. record i {
      plans =
          modify_first (λ (p : PaymentPlan). p.id == id) (λ p. record p { email_reminders = on })
            i.plans;
    })
    log actor (if on then plan_email_reminders_on else plan_email_reminders_off)
