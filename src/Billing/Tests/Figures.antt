-- ===== src/Billing/Tests/Figures.antt =====
-- The theorems on amounts, hours and dates at concrete figures.
use open_immigration_crm.Prelude.{
  List, ℤ, ◌++◌, ◌<ℤ◌, refl, ◌+◌, ◌*◌, ◌≡◌, min, [], ◌∷◌, length, pos, arith, All,
}
use open_immigration_crm.Billing.Money.{split_amount, billable_increments, billable_hours}
use open_immigration_crm.Billing.Money.Split.{sum_ℤ, sum_ℤ-split_amount, split_amount_short}
use open_immigration_crm.Billing.Calendar.{monthly, days_in_month, add_months, installment_dates}
use open_immigration_crm.Billing.Calendar.Order.{
  IsDate, AreIncreasing, add_months_date, installment_dates_increasing,
}
use open_immigration_crm.Billing.Draft.Numbers.{numbers, AreDistinct, numbers-AreDistinct}
use open_immigration_crm.Billing.Tests.{today, empty_store}
use open_immigration_crm.Billing.Tests.Payments.{today-IsDate}

-- $100.00 in three parts.
sum_ℤ-split_amount_example :
    (length (split_amount (pos 10000) 3) ≡ 3) × (sum_ℤ (split_amount (pos 10000) 3) ≡ pos 10000)
sum_ℤ-split_amount_example = sum_ℤ-split_amount 10000 2

-- $0.30 in sixty parts.
split_amount_short_example :
    (front : List ℤ) × ((last : ℤ) × ((split_amount (pos 30) 60 ≡ front ++ last ∷ [])
        × (All (λ a. pos 0 <ℤ a) front × (last <ℤ pos 0))))
split_amount_short_example = split_amount_short 30 59 (omega (arith)) (omega (arith))

-- Twenty minutes at an increment of six; and five hours and three microseconds at one of fifty.
twenty_minutes : billable_increments 1_200_000_000 6 ≡ 4
unfolding billable_increments
twenty_minutes = refl

five_hours : billable_increments 18_000_000_003 50 ≡ 7
unfolding billable_increments
five_hours = refl

half_an_hour : billable_hours 1_799_999_999 6 ≡ 50
unfolding billable_hours
half_an_hour = refl

-- From January 31 of a leap year.
installment_dates_increasing_example :
    (length (installment_dates today 3 monthly) ≡ 3)
    × All IsDate (installment_dates today 3 monthly)
    × AreIncreasing (installment_dates today 3 monthly)
installment_dates_increasing_example = installment_dates_increasing today 3 monthly today-IsDate

add_months_date_example :
    IsDate (add_months today 1)
    × ((add_months today 1).year * 12 + (add_months today 1).month
        ≡ today.year * 12 + today.month + 1)
    × ((add_months today 1).day
        ≡ min today.day (days_in_month (add_months today 1).year (add_months today 1).month))
add_months_date_example = add_months_date today 1 today-IsDate

numbers-AreDistinct_example : AreDistinct (numbers (2023 ∷ 2024 ∷ 2024 ∷ []) empty_store.settings)
numbers-AreDistinct_example =
    numbers-AreDistinct (2023 ∷ 2024 ∷ 2024 ∷ []) empty_store.settings
      (omega (arith), (omega (arith), (omega (arith), tt)))
