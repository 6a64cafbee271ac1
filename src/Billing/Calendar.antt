-- ===== src/Billing/Calendar.antt =====
-- Calendar dates (`datetime.date`, which is Python's) and the date arithmetic of
-- crm/billing/services.py.
pub mod Order
use open_immigration_crm.Prelude.{
  ℕ, zero, suc, ◌+◌, ◌-◌, ◌*◌, ◌/◌, ◌%◌, min, List, [], ◌∷◌, Bool, if◌then◌else◌, ◌==◌, ltb, ◌&&◌,
  ◌||◌, not,
}

pub record Date : Type 0 where
  pub year : ℕ
  pub month : ℕ
  pub day : ℕ

unfoldable pub is_leap : ℕ → Bool
is_leap y = y % 4 == 0 && (not (y % 100 == 0) || y % 400 == 0)

-- `calendar.monthrange(year, month)[1]`
unfoldable pub days_in_month : ℕ → ℕ → ℕ
unfolding is_leap
days_in_month y m =
    if m == 2
    then (if is_leap y then 29 else 28)
    else if m == 4 || m == 6 || m == 9 || m == 11
    then 30
    else 31

-- `a < b` of two dates.
unfoldable pub before : Date → Date → Bool
before a b =
    ltb a.year b.year
    || a.year == b.year && (ltb a.month b.month || a.month == b.month && ltb a.day b.day)

-- The day after, and so on: `day + timedelta(days=n)`.
unfoldable pub next_day : Date → Date
unfolding days_in_month
next_day d =
    if ltb d.day (days_in_month d.year d.month)
    then record d { day = d.day + 1 }
    else if ltb d.month 12
    then record { year = d.year; month = d.month + 1; day = 1 }
    else record { year = d.year + 1; month = 1; day = 1 }

unfoldable pub add_days : Date → ℕ → Date
unfolding next_day
add_days d zero = d
add_days d (suc n) = next_day (add_days d n)

-- The day before, and so on: `day - timedelta(days=n)`.
unfoldable pub previous_day : Date → Date
unfolding days_in_month
previous_day d =
    if ltb 1 d.day
    then record d { day = d.day - 1 }
    else if ltb 1 d.month
    then record { year = d.year; month = d.month - 1; day = days_in_month d.year (d.month - 1) }
    else record { year = d.year - 1; month = 12; day = 31 }

unfoldable pub sub_days : Date → ℕ → Date
unfolding previous_day
sub_days d zero = d
sub_days d (suc n) = previous_day (sub_days d n)

unfoldable pub add_months : Date → ℕ → Date
unfolding days_in_month
add_months d months =
    let month_index = d.month - 1 + months in
    let year = d.year + month_index / 12 in
    let month = month_index % 12 + 1 in
    record { year = year; month = month; day = min d.day (days_in_month year month) }

pub data Frequency : Type 0 where
  monthly biweekly weekly : Frequency

-- `f 0`, `f 1`, and so on: a comprehension over `range(n, n + count)`.
unfoldable pub tabulate_from {ℓ} : {A : Type ℓ} → (ℕ → A) → ℕ → ℕ → List A
tabulate_from f n zero = []
tabulate_from f n (suc count) = f n ∷ tabulate_from f (suc n) count

unfoldable pub installment_date : Date → Frequency → ℕ → Date
unfolding add_months add_days
installment_date first_due monthly n = add_months first_due n
installment_date first_due biweekly n = add_days first_due (14 * n)
installment_date first_due weekly n = add_days first_due (7 * n)

unfoldable pub installment_dates : Date → ℕ → Frequency → List Date
unfolding tabulate_from installment_date
installment_dates first_due count frequency =
    tabulate_from (installment_date first_due frequency) 0 count
