-- ===== src/Prelude/Results.antt =====
-- Results of calls that may raise: the value, or which error was raised.

pub data Result (E A : Type 0) : Type 0 where
  ok : A → Result E A
  err : E → Result E A

-- What holds of a result's value, if there is one.
abbrev pub IfOk {ℓ} : {E A : Type 0} → (A → Type ℓ) → Result E A → Type ℓ
IfOk P (ok a) = P a
IfOk P (err e) = Unit

-- The state after a call: an error has rolled back its transaction.
abbrev pub commit_or : {E S : Type 0} → S → Result E S → S
commit_or s (ok t) = t
commit_or s (err e) = s

pub commit_or-keeps :
    {E S : Type 0} (P : S → Type 0) (s : S) (r : Result E S) → P s → IfOk P r → P (commit_or s r)
commit_or-keeps P s (ok t) h kept = kept
commit_or-keeps P s (err e) h kept = h

-- What holds of the first value holds of what is made of it.
pub IfOk-then {ℓ κ} :
    {E A B : Type 0} (P : A → Type ℓ) (Q : B → Type κ) (r : Result E A) (f : A → Result E B)
    → ((a : A) → P a → IfOk Q (f a))
    → IfOk P r
    → IfOk Q (elim r [ err e ↦ err e | ok a ↦ f a ])
IfOk-then P Q (ok a) f step h = step a h
IfOk-then P Q (err e) f step h = tt
