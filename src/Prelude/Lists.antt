-- ===== src/Prelude/Lists.antt =====
-- Lists measured by native numbers, and predicates on their elements.
use Prim.Native.Nat.{ℕ, zero, suc, ◌+◌}
use mathlib.Core.Path.{◌≡◌, refl, ap, sym, subst, ◌∙◌}
use mathlib.Core.Logic.{inl, inr}
use mathlib.Core.Bool.{Bool, true, false, ◌||◌}
use mathlib.Core.Option.{Option, none, some}
use mathlib.Core.List.{List, [], ◌∷◌, ◌++◌}
use native.Mathlib.Omega.{arith}
use open_immigration_crm.Prelude.Tests.{if◌then◌else◌, Bool-cases}

module _ {ℓ} {A : Type ℓ} where
  abbrev pub length : List A → ℕ
  length [] = 0
  length (x ∷ xs) = suc (length xs)

  abbrev pub replicate : ℕ → A → List A
  replicate zero a = []
  replicate (suc n) a = a ∷ replicate n a

  -- The elements that pass a Boolean test, as a query's filter keeps them.
  abbrev pub select : (A → Bool) → List A → List A
  select p [] = []
  select p (x ∷ xs) = if p x then x ∷ select p xs else select p xs

  abbrev pub any : (A → Bool) → List A → Bool
  any p [] = false
  any p (x ∷ xs) = p x || any p xs

  -- The first element that passes, as `.first()` after a filter gives it.
  abbrev pub find : (A → Bool) → List A → Option A
  find p [] = none
  find p (x ∷ xs) = if p x then some x else find p xs

  abbrev pub All {κ} : (A → Type κ) → List A → Type κ
  All P [] = Unit
  All P (x ∷ xs) = P x × All P xs

  pub length-append : (xs ys : List A) → length (xs ++ ys) ≡ length xs + length ys
  length-append [] ys = omega arith
  length-append (x ∷ xs) ys = omega (arith, length-append xs ys)

  pub length-replicate : (n : ℕ) (a : A) → length (replicate n a) ≡ n
  length-replicate zero a = refl
  length-replicate (suc n) a = ap suc (length-replicate n a)

module _ {ℓ} {A : Type ℓ} where
  pub All-append {κ} : (P : A → Type κ) (xs ys : List A) → All P xs → All P ys → All P (xs ++ ys)
  All-append P [] ys hx hy = hy
  All-append P (x ∷ xs) ys hx hy = (hx.0, All-append P xs ys hx.1 hy)

module _ {ℓ} {A : Type ℓ} where
  pub All-map {κ μ} :
      {P : A → Type κ} {Q : A → Type μ} (xs : List A) → ((x : A) → P x → Q x) → All P xs → All Q xs
  All-map [] f h = tt
  All-map (x ∷ xs) f h = (f x h.0, All-map xs f h.1)

module _ {ℓ} {A : Type ℓ} where
  pub All-both {κ μ} :
      (P : A → Type κ) (Q : A → Type μ) (xs : List A)
      → All P xs
      → All Q xs
      → All (λ x. P x × Q x) xs
  All-both P Q [] hs ks = tt
  All-both P Q (x ∷ xs) hs ks = ((hs.0, ks.0), All-both P Q xs hs.1 ks.1)

abbrev pub sum : List ℕ → ℕ
sum [] = 0
sum (x ∷ xs) = x + sum xs

pub sum-append : (xs ys : List ℕ) → sum (xs ++ ys) ≡ sum xs + sum ys
sum-append [] ys = omega arith
sum-append (x ∷ xs) ys = omega (arith, sum-append xs ys)

module _ {ℓ} {A : Type ℓ} (q : A → Bool) where
  -- What is found passes the test.
  pub find_passes : (xs : List A) {x : A} → find q xs ≡ some x → q x ≡ true
  find_passes [] f = absurd (cc)
  find_passes (y ∷ ys) {x} f = elim (Bool-cases (q y)) [
    | inl e ↦ (let same : y ≡ x = ground arith in ap q (sym same) ∙ e)
    | inr e ↦ find_passes ys (rw e at f)
  ]

  pub select_passes : (xs : List A) → All (λ x. q x ≡ true) (select q xs)
  select_passes [] = tt
  select_passes (x ∷ xs) = elim (Bool-cases (q x)) [
    | inl e ↦ rw e (e, select_passes xs)
    | inr e ↦ rw e (select_passes xs)
  ]

  pub select-All {κ} : (P : A → Type κ) (xs : List A) → All P xs → All P (select q xs)
  select-All P [] hs = tt
  select-All P (x ∷ xs) hs = elim (Bool-cases (q x)) [
    | inl e ↦ rw e (hs.0, select-All P xs hs.1)
    | inr e ↦ rw e (select-All P xs hs.1)
  ]

  pub nothing_passes : (xs : List A) → find q xs ≡ none → any q xs ≡ false
  nothing_passes [] f = refl
  nothing_passes (y ∷ ys) f = elim (Bool-cases (q y)) [
    | inl e ↦ absurd (ground arith)
    | inr e ↦ rw e (nothing_passes ys (rw e at f))
  ]

  pub any-All : (xs : List A) → any q xs ≡ false → All (λ x. q x ≡ false) xs
  any-All [] h = tt
  any-All (x ∷ xs) h = (ground arith, any-All xs (ground arith))

  -- What holds of every element holds of one that is found.
  pub find-All {κ} : (P : A → Type κ) (xs : List A) {x : A} → All P xs → find q xs ≡ some x → P x
  find-All P [] hs f = absurd (cc)
  find-All P (y ∷ ys) hs f = elim (Bool-cases (q y)) [
    | inl e ↦ (let same : y ≡ _ = ground arith in subst P same hs.0)
    | inr e ↦ find-All P ys hs.1 (rw e at f)
  ]
