-- ===== src/Billing/Store/Holds.antt =====
-- What holds of an action's result when it does not raise, and the rules for a guard.
use open_immigration_crm.Prelude.{◌≡◌, refl, Bool, true, false}
use open_immigration_crm.Billing.Store.{
  Error, Result, ok, err, Store, Action, ◌>>=◌, ◌>>◌, require, commit,
}

abbrev pub Holds : {A : Type 0} → (A → Store → Type 0) → Result (A × Store) → Type 0
Holds Q (ok (a, t)) = Q a t
Holds Q (err e) = Unit

module _ {A : Type 0} (Q : A → Store → Type 0) where
  -- Behind a guard its test holds.
  pub require-Holds :
      (b : Bool) (e : Error) (k : Action A) (s : Store)
      → (b ≡ true → Holds Q (k s))
      → Holds Q ((require b e >> k) s)
  require-Holds true e k s h = h refl
  require-Holds false e k s h = tt

  pub >>=-Holds :
      {B : Type 0} (P : B → Store → Type 0) (m : Action B) (k : B → Action A) (s : Store)
      → Holds P (m s)
      → ((b : B) (t : Store) → P b t → Holds Q (k b t))
      → Holds Q ((m >>= k) s)
  >>=-Holds {B} P m k s h next = go (m s) h
    where
      go :
          (r : Result (B × Store))
          → Holds P r
          → Holds Q (elim r [ ok (b, t) ↦ k b t | err e ↦ err e ])
      go (ok (b, t)) h = next b t h
      go (err e) h = tt

-- A request keeps what every successful run of its action keeps.
pub commit-keeps :
    {A : Type 0} (P : Store → Type 0) (m : Action A) (s : Store)
    → P s
    → Holds (λ _ t. P t) (m s)
    → P (commit m s)
commit-keeps {A} P m s h kept = go (m s) kept
  where
    go : (r : Result (A × Store)) → Holds (λ _ t. P t) r → P (elim r [ ok (_, t) ↦ t | err _ ↦ s ])
    go (ok (a, t)) kept = kept
    go (err e) kept = h
