-- ===== src/Billing/Calendar/Order.antt =====
-- The order of dates, and the dates of a plan's installments.
use native.Mathlib.Decide.{dec_le}
use open_immigration_crm.Prelude.{
  ℕ, zero, suc, ◌+◌, ◌-◌, ◌*◌, ◌/◌, ◌%◌, min, ◌≤◌, ◌<◌, ◌≡◌, ◌↔◌, refl, ap, List, [], ◌∷◌, length,
  true, arith, All,
}
use open_immigration_crm.Billing.Calendar.{
  Date, days_in_month, before, next_day, add_days, add_months, Frequency, monthly, biweekly, weekly,
  tabulate_from, installment_date, installment_dates,
}

-- A day of the calendar.
pub record IsDate (d : Date) : Type 0 where
  pub month_from : 1 ≤ d.month
  pub month_to : d.month ≤ 12
  pub day_from : 1 ≤ d.day
  pub day_to : d.day ≤ days_in_month d.year d.month

-- A number that orders dates.
pub rank : Date → ℕ
rank d = d.year * 372 + d.month * 31 + d.day

days_in_month_bounds : (y m : ℕ) → (28 ≤ days_in_month y m) × (days_in_month y m ≤ 31)
unfolding days_in_month
days_in_month_bounds y m = ground arith

pub before_iff : (a b : Date) → IsDate a → IsDate b → (before a b ≡ true) ↔ (rank a < rank b)
unfolding before rank
before_iff a b ha hb =
    ground (arith, days_in_month_bounds a.year a.month, days_in_month_bounds b.year b.month)

next_day-IsDate : (d : Date) → IsDate d → IsDate (next_day d)
unfolding next_day
next_day-IsDate d h = ground (
  arith,
  days_in_month_bounds d.year d.month,
  days_in_month_bounds d.year (d.month + 1),
  days_in_month_bounds (d.year + 1) 1,
)

rank-next_day : (d : Date) → IsDate d → rank d < rank (next_day d)
unfolding next_day rank
rank-next_day d h = ground (arith, days_in_month_bounds d.year d.month)

add_days-IsDate : (n : ℕ) (d : Date) → IsDate d → IsDate (add_days d n)
unfolding add_days
add_days-IsDate zero d h = h
add_days-IsDate (suc n) d h = next_day-IsDate (add_days d n) (add_days-IsDate n d h)

rank-add_days :
    (d : Date) (n m : ℕ) → IsDate d → n ≤ m → rank (add_days d n) + m ≤ rank (add_days d m) + n
unfolding add_days
rank-add_days d zero zero h le = omega arith
rank-add_days d (suc n) zero h le = absurd (omega arith)
rank-add_days d n (suc m) h le = elim (dec_le n m) [
  | yes before_m ↦
      omega (
        arith,
        rank-add_days d n m h before_m,
        rank-next_day (add_days d m) (add_days-IsDate m d h),
      )
  | no beyond ↦ (let same : n ≡ suc m = omega arith in rw same (omega arith))
]

-- From a day of the calendar `add_months` gives a day of the calendar that many months later, on
-- the same day of the month or on the month's last one.
pub add_months_date :
    (d : Date) (n : ℕ)
    → IsDate d
    → IsDate (add_months d n)
      × ((add_months d n).year * 12 + (add_months d n).month ≡ d.year * 12 + d.month + n)
      × ((add_months d n).day
          ≡ min d.day (days_in_month (add_months d n).year (add_months d n).month))
unfolding add_months
add_months_date d n h =
    let y : ℕ = d.year + (d.month - 1 + n) / 12 in
    let m : ℕ = (d.month - 1 + n) % 12 + 1 in
    let (least, most) = days_in_month_bounds y m in
    (
      record {
        month_from = omega arith;
        month_to = omega arith;
        day_from = omega (arith, h.day_from, least);
        day_to = omega arith;
      },
      omega (arith, h.month_from),
      refl,
    )

rank-add_months :
    (d : Date) (n : ℕ) → IsDate d → rank (add_months d n) < rank (add_months d (suc n))
unfolding rank
rank-add_months d n h =
    let (a, index_a, _) = add_months_date d n h in
    let (b, index_b, _) = add_months_date d (suc n) h in
    omega (
      arith,
      a.day_to,
      days_in_month_bounds (add_months d n).year (add_months d n).month,
      b.day_from,
      index_a,
      index_b,
    )

installment_date-IsDate :
    (d : Date) (f : Frequency) (n : ℕ) → IsDate d → IsDate (installment_date d f n)
unfolding installment_date
installment_date-IsDate d monthly n h = (add_months_date d n h).0
installment_date-IsDate d biweekly n h = add_days-IsDate (14 * n) d h
installment_date-IsDate d weekly n h = add_days-IsDate (7 * n) d h

rank-installment_date :
    (d : Date) (f : Frequency) (n : ℕ)
    → IsDate d
    → rank (installment_date d f n) < rank (installment_date d f (suc n))
unfolding installment_date
rank-installment_date d monthly n h = rank-add_months d n h
rank-installment_date d biweekly n h =
    omega (arith, rank-add_days d (14 * n) (14 * suc n) h (omega arith))
rank-installment_date d weekly n h =
    omega (arith, rank-add_days d (7 * n) (7 * suc n) h (omega arith))

-- Each date is before the next.
abbrev pub AreIncreasing : List Date → Type 0
AreIncreasing [] = Unit
AreIncreasing (d ∷ []) = Unit
AreIncreasing (d ∷ e ∷ ds) = (before d e ≡ true) × AreIncreasing (e ∷ ds)

module _ (f : ℕ → Date) (dates : (n : ℕ) → IsDate (f n))
    (grows : (n : ℕ) → rank (f n) < rank (f (suc n))) where
  tabulate-AreIncreasing : (n count : ℕ) → AreIncreasing (tabulate_from f n count)
  unfolding tabulate_from
  tabulate-AreIncreasing n zero = tt
  tabulate-AreIncreasing n (suc zero) = tt
  tabulate-AreIncreasing n (suc (suc count)) = (
    (before_iff (f n) (f (suc n)) (dates n) (dates (suc n))).1 (grows n),
    tabulate-AreIncreasing (suc n) (suc count),
  )

  tabulate-All : (n count : ℕ) → All IsDate (tabulate_from f n count)
  unfolding tabulate_from
  tabulate-All n zero = tt
  tabulate-All n (suc count) = (dates n, tabulate-All (suc n) count)

length-tabulate_from {ℓ} :
    {A : Type ℓ} (f : ℕ → A) (n count : ℕ) → length (tabulate_from f n count) ≡ count
unfolding tabulate_from
length-tabulate_from f n zero = refl
length-tabulate_from f n (suc count) = ap suc (length-tabulate_from f (suc n) count)

-- From a day of the calendar the due dates are as many as asked for, are days of the calendar, and
-- each is before the next, whatever the frequency.
pub installment_dates_increasing :
    (first : Date) (count : ℕ) (f : Frequency)
    → IsDate first
    → (length (installment_dates first count f) ≡ count)
      × All IsDate (installment_dates first count f)
      × AreIncreasing (installment_dates first count f)
unfolding installment_dates
installment_dates_increasing first count f h = (
  length-tabulate_from (installment_date first f) 0 count,
  tabulate-All (installment_date first f) (λ n. installment_date-IsDate first f n h)
      (λ n. rank-installment_date first f n h) 0 count,
  tabulate-AreIncreasing (installment_date first f) (λ n. installment_date-IsDate first f n h)
      (λ n. rank-installment_date first f n h) 0 count,
)
