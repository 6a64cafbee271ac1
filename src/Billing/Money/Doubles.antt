-- ===== src/Billing/Money/Doubles.antt =====
-- The fuel of `to_double`, in the floating-point arithmetic of `billable_hours` in
-- crm/billing/services.py.
use native.Mathlib.Nat.{le-div_iff_mul-le, pow-suc}
use Prim.Native.Nat.{◌^◌}
use open_immigration_crm.Prelude.{
  ℕ, zero, suc, ◌*◌, ◌/◌, ◌≤◌, ◌<◌, ◌≡◌, leb, Bool-cases, inl, inr, arith,
}
use open_immigration_crm.Billing.Money.{half_even, to_double}

floor_le-half_even : (n d : ℕ) → n / d ≤ half_even n d
unfolding half_even
floor_le-half_even n d = ground arith

has_bits : (n d : ℕ) → 0 < d → 4503599627370496 * d ≤ n → 4503599627370496 ≤ half_even n d
has_bits n d positive enough =
    let below : 4503599627370496 ≤ n / d = (le-div_iff_mul-le positive).1 enough in
    omega (below, floor_le-half_even n d, arith)

-- A quotient that reaches 2 ^ 52 after as many doublings as there is fuel is given 53 bits.
pub to_double_enough :
    (fuel n d unit : ℕ)
    → 0 < d
    → 4503599627370496 * d ≤ n * 2 ^ fuel
    → 4503599627370496 ≤ (to_double fuel n d unit).0
unfolding to_double
to_double_enough zero n d unit positive enough = has_bits n d positive (omega (enough, arith))
to_double_enough (suc fuel) n d unit positive enough =
    elim (Bool-cases (leb (4503599627370496 * d) n)) [
      | inl e ↦ rw e (has_bits n d positive (ground (arith, e)))
      | inr e ↦
          let doubled : n * 2 ^ suc fuel ≡ 2 * n * 2 ^ fuel = rw (pow-suc 2 fuel) (grind arith) in
          rw e
            (to_double_enough fuel (2 * n) d (2 * unit) positive (omega (enough, doubled, arith)))
    ]
