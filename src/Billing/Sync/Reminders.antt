-- ===== src/Billing/Sync/Reminders.antt =====
-- The staff reminders of a plan after `sync_plan`.
use open_immigration_crm.Prelude.{
  ◌≡◌, refl, List, [], ◌∷◌, Option, none, some, Bool, true, false, map, pos, ◌≤ℤ◌, arith,
}
use open_immigration_crm.Billing.Records.{
  WorkItem, Installment, PaymentPlan, Invoice, Row, amount_paid, schedule, row_is_paid,
}
use open_immigration_crm.Billing.Records.Schedule.{ArePositive, covered, map-row_is_paid-schedule}
use open_immigration_crm.Billing.Store.{Env}
use open_immigration_crm.Billing.Sync.{bool_eq, sync_reminder, sync_row, synced}

abbrev pub IsDone : Bool → Option WorkItem → Type 0
IsDone b none = Unit
IsDone b (some r) = r.is_completed ≡ b

-- Each reminder that is left is completed exactly if its flag says so.
abbrev pub Agree : List Installment → List Bool → Type 0
Agree [] [] = Unit
Agree (i ∷ is) (b ∷ bs) = IsDone b i.reminder × Agree is bs
Agree _ _ = ⊥

sync_reminder-is_completed :
    (now : _) (b : Bool) (r : WorkItem) → (sync_reminder now b r).is_completed ≡ b
unfolding sync_reminder bool_eq
sync_reminder-is_completed now true r = ground arith
sync_reminder-is_completed now false r = ground arith

rows-Agree :
    (env : Env) (rows : List Row) → Agree (map (sync_row env.now) rows) (map row_is_paid rows)
unfolding sync_row
rows-Agree env [] = tt
rows-Agree env (row ∷ rows) = (head row.installment.reminder refl, rows-Agree env rows)
  where
    head :
        (o : Option WorkItem)
        → row.installment.reminder ≡ o
        → IsDone (row_is_paid row) (sync_row env.now row).reminder
    head none e = rw e tt
    head (some r) e = rw e (sync_reminder-is_completed env.now (row_is_paid row) r)

-- If what is paid is not negative and the installments are positive, after a plan is synced each
-- reminder that is there is completed exactly if what is paid covers its installment and all
-- before it, and the plan has as many installments as before.
pub synced-Agree :
    (env : Env) (i : Invoice) (p : PaymentPlan)
    → pos 0 ≤ℤ amount_paid i
    → ArePositive p.installments
    → Agree (synced env i p).installments (covered (amount_paid i) (pos 0) p.installments)
unfolding synced
synced-Agree env i p h amounts =
    rw (← map-row_is_paid-schedule i p env.today h amounts)
      (rows-Agree env (schedule i p env.today))
