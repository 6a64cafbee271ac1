-- ===== src/Billing/Money/Split.antt =====
-- `split_amount` of crm/billing/services.py: its sum, its size, and its parts when the total is too
-- small for them.
use native.Mathlib.Decide.{dec_lt}
use native.Mathlib.Nat.{mul-le-mul_left}
use open_immigration_crm.Prelude.{
  ℕ, zero, suc, ◌+◌, ◌-◌, ◌*◌, ◌≤◌, ◌<◌, ◌≡◌, refl, List, [], ◌∷◌, ◌++◌, replicate, length,
  length-append, length-replicate, All, All-append, ℤ, pos, ◌+ℤ◌, ◌-ℤ◌, ◌<ℤ◌, ◌=ℤ◌, scale, int_laws,
  arith,
}
use open_immigration_crm.Billing.Money.{half_up, split_amount}

unfoldable pub sum_ℤ : List ℤ → ℤ
sum_ℤ [] = pos 0
sum_ℤ (a ∷ rest) = a +ℤ sum_ℤ rest

sum_ℤ-replicate : (n : ℕ) (a b : ℤ) → sum_ℤ (replicate n a ++ b ∷ []) =ℤ scale n a +ℤ b
unfolding sum_ℤ
sum_ℤ-replicate zero a b = grind int_laws
sum_ℤ-replicate (suc n) a b = grind (int_laws, sum_ℤ-replicate n a b)

-- The first installments, for a total of `t` cents in `suc m` parts.
abbrev part : ℕ → ℕ → ℕ
part t m = half_up t (suc m)

part_bounds :
    (t m : ℕ) → (2 * (part t m * suc m) ≤ 2 * t + suc m) × (2 * t < 2 * (part t m * suc m) + suc m)
unfolding half_up
part_bounds t m = (grind arith, grind arith)

-- The first parts leave something for the last one if the total is large enough.
part_leaves : (t m : ℕ) → suc m * m < 2 * t → m * part t m < t
part_leaves t m h = go t m (part t m) (part_bounds t m).0 h
  where
    go : (t m e : ℕ) → 2 * (e * suc m) ≤ 2 * t + suc m → suc m * m < 2 * t → m * e < t
    go t m e b h = elim (dec_lt (m * e) t) [
      | yes lt ↦ lt
      | no ge ↦ absurd (
          omega (
            arith,
            mul-le-mul_left m b,
            mul-le-mul_left (suc m) (let above : t ≤ m * e = omega arith in above),
          ))
    ]

minus_one : (m : ℕ) → suc m - 1 ≡ m
minus_one m = omega arith

split_of_suc :
    (t m : ℕ)
    → split_amount (pos t) (suc m)
      ≡ replicate m (pos (part t m)) ++ (pos t -ℤ scale m (pos (part t m))) ∷ []
unfolding split_amount
split_of_suc t m = rw (minus_one m) refl

-- For a balance that is not negative and at least one installment, the installments are as many as
-- asked for and add up to the balance, to the cent.
pub sum_ℤ-split_amount :
    (t m : ℕ)
    → (length (split_amount (pos t) (suc m)) ≡ suc m)
      × (sum_ℤ (split_amount (pos t) (suc m)) ≡ pos t)
sum_ℤ-split_amount t m = rw (split_of_suc t m) (
  omega (
    arith,
    length-append (replicate m (pos (part t m))) ((pos t -ℤ scale m (pos (part t m))) ∷ []),
    length-replicate m (pos (part t m)),
  ),
  omega (int_laws, sum_ℤ-replicate m (pos (part t m)) (pos t -ℤ scale m (pos (part t m)))),
)

All-replicate {ℓ} : {A : Type ℓ} (P : A → Type 0) (n : ℕ) (a : A) → P a → All P (replicate n a)
All-replicate P zero a h = tt
All-replicate P (suc n) a h = (h, All-replicate P n a h)

-- If twice a balance in cents is more than count * (count - 1), every installment of its split
-- into count parts is above zero: $17.71 is enough for 60 parts.
pub split_amount_positive :
    (t m : ℕ) → suc m * m < 2 * t → All (λ a. pos 0 <ℤ a) (split_amount (pos t) (suc m))
split_amount_positive t m h = rw (split_of_suc t m) (
    All-append (λ a. pos 0 <ℤ a) (replicate m (pos (part t m)))
      ((pos t -ℤ scale m (pos (part t m))) ∷ []) (parts m h)
      (grind (int_laws, part_leaves t m h), tt))
  where
    parts : (k : ℕ) → suc k * k < 2 * t → All (λ a. pos 0 <ℤ a) (replicate k (pos (part t k)))
    parts zero k = tt
    parts (suc k) big =
        All-replicate (λ a. pos 0 <ℤ a) (suc k) (pos (part t (suc k)))
          (grind (arith, part_bounds t (suc k)))

-- If a balance in cents is below count - 1, and count is at most twice the balance, the last of the
-- count installments that it is split into is below zero, and all before it are above.
pub split_amount_short :
    (t m : ℕ)
    → suc m ≤ 2 * t
    → t < m
    → (front : List ℤ) × ((last : ℤ) × ((split_amount (pos t) (suc m) ≡ front ++ last ∷ [])
          × (All (λ a. pos 0 <ℤ a) front × (last <ℤ pos 0))))
split_amount_short t m rounds small =
    let e : ℕ = part t m in
    let one : 1 ≤ e = grind (arith, part_bounds t m) in
    let product : m * 1 ≤ m * e = mul-le-mul_left m one in
    (
      replicate m (pos e),
      (
        pos t -ℤ scale m (pos e),
        (
          split_of_suc t m,
          (
            All-replicate (λ a. pos 0 <ℤ a) m (pos e) (grind (int_laws, one)),
            grind (int_laws, product),
          ),
        ),
      ),
    )
