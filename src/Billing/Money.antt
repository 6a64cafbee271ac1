-- ===== src/Billing/Money.antt =====
-- Amounts of money and billed time, as crm/billing/models.py and services.py compute them with
-- `Decimal`. An amount of money is a whole number of cents; what `money` rounds is given in
-- ten-thousandths of a unit, the product of a quantity and a price of two decimals each.
pub mod Split
mod Doubles
use open_immigration_crm.Prelude.{
  ℕ, zero, suc, ◌+◌, ◌-◌, ◌*◌, ◌/◌, ◌%◌, max, List, [], ◌∷◌, ◌++◌, if◌then◌else◌, ◌==◌, leb, ltb,
  replicate, ℤ, pos, negsuc, ◌-ℤ◌, scale,
}

-- The nearest multiple, a half going away from zero (`ROUND_HALF_UP`), of a fraction n / d.
unfoldable pub half_up : ℕ → ℕ → ℕ
half_up n d = (2 * n + d) / (2 * d)

-- The same for a signed numerator: `Decimal` rounds the magnitude and keeps the sign.
unfoldable pub half_up_ℤ : ℤ → ℕ → ℤ
unfolding half_up
half_up_ℤ (pos n) d = pos (half_up n d)
half_up_ℤ (negsuc n) d = pos 0 -ℤ pos (half_up (suc n) d)

-- `money`, from ten-thousandths to cents.
unfoldable pub money : ℤ → ℤ
unfolding half_up_ℤ
money v = half_up_ℤ v 100

-- The nearest multiple, a half going to the even one: `quantize` with the default context.
unfoldable pub half_even : ℕ → ℕ → ℕ
half_even n d =
    if ltb (2 * (n % d)) d
    then n / d
    else if ltb d (2 * (n % d))
    then n / d + 1
    else if n / d % 2 == 0
    then n / d
    else n / d + 1

-- `math.ceil` of a fraction.
unfoldable pub ceil_div : ℕ → ℕ → ℕ
ceil_div n d = (n + d - 1) / d

-- A quotient as a double: its 53 bits, rounded half to even, over a power of two. It is doubled at
-- most `fuel` times until it has 53 bits; it is below 2 ^ 53.
unfoldable pub to_double : ℕ → ℕ → ℕ → ℕ → ℕ × ℕ
unfolding half_even
to_double zero n d unit = (half_even n d, unit)
to_double (suc fuel) n d unit =
    if leb (4503599627370496 * d) n
    then (half_even n d, unit)
    else to_double fuel (2 * n) d (2 * unit)

-- Enough for every quotient from 2 ^ -75 on.
unfoldable pub doublings : ℕ
doublings = 128

-- `float` division by a whole number.
unfoldable pub divided : ℕ × ℕ → ℕ → ℕ × ℕ
unfolding to_double doublings
divided (m, unit) n = to_double doublings m (unit * n) 1

-- `x - 1e-9`; what would be below zero is 0, which is billed like it. The double 1e-9 is
-- 4835703278458517 / 2 ^ 82.
unfoldable pub forgiven : ℕ × ℕ → ℕ × ℕ
unfolding to_double doublings
forgiven (m, unit) =
    to_double doublings (m * 4835703278458516698824704 - 4835703278458517 * unit)
      (unit * 4835703278458516698824704) 1

-- The increments of `billable_hours` in a duration in microseconds, in the order of the source's
-- operations on doubles: `total_seconds()`, `/ 60`, `/ increment_minutes`, `- 1e-9`.
unfoldable pub billable_increments : ℕ → ℕ → ℕ
unfolding ceil_div divided forgiven
billable_increments microseconds increment_minutes =
    let seconds = divided (microseconds, 1) 1000000 in
    let quotient = forgiven (divided (divided seconds 60) increment_minutes) in
    max 1 (ceil_div quotient.0 quotient.1)

-- `billable_hours`, in hundredths of an hour.
unfoldable pub billable_hours : ℕ → ℕ → ℕ
unfolding billable_increments half_even
billable_hours microseconds increment_minutes =
    half_even (100 * (billable_increments microseconds increment_minutes * increment_minutes)) 60

-- `split_amount`, for a total in cents.
unfoldable pub split_amount : ℤ → ℕ → List ℤ
unfolding half_up_ℤ
split_amount total count =
    let each = half_up_ℤ total count in
    replicate (count - 1) each ++ (total -ℤ scale (count - 1) each) ∷ []
