-- ===== src/TwoFactor/Replay.antt =====
-- The authenticator codes that `match_counter` of crm/two_factor.py matches.
use open_immigration_crm.Prelude.{
  ℕ, ◌+◌, ◌-◌, ◌≡◌, ◌≤◌, ◌<◌, List, [], ◌∷◌, some, Bool, Bool-cases, true, find, find_passes,
  is_some, Text, text_eq, inl, inr, arith,
}
use open_immigration_crm.TwoFactor.{
  Library, hotp, candidates, is_match, is_code, without_spaces, current_counter, match_counter,
}

-- A step that `match_counter` may answer with.
pub record IsFresh (library : Library) (secret raw : Text) (after now step : ℕ) : Type 0 where
  pub well_formed : is_code (without_spaces raw) ≡ true
  pub is_later : after < step
  pub not_early : current_counter now ≤ step + 1
  pub not_late : step ≤ current_counter now + 1
  pub right : text_eq (hotp library secret step) (without_spaces raw) ≡ true

candidate_bounds :
    (p : ℕ → Bool) (counter : ℕ) {step : ℕ}
    → find p (candidates counter) ≡ some step
    → (counter ≤ step + 1) × (step ≤ counter + 1)
unfolding candidates
candidate_bounds p counter e = (ground arith, ground arith)

-- A code is matched only if it is well-formed, and then with a step that is later than the last
-- one used, at most one from the current step, and whose code it is.
pub match_counter-IsFresh :
    (library : Library) (secret raw : Text) (after now step : ℕ)
    → match_counter library secret raw after now ≡ some step
    → IsFresh library secret raw after now step
unfolding match_counter is_match
match_counter-IsFresh library secret raw after now step e =
    elim (Bool-cases (is_code (without_spaces raw))) [
      | inr f ↦ absurd (ground arith)
      | inl f ↦
          let found : find (is_match library secret (without_spaces raw) after)
                (candidates (current_counter now))
              ≡ some step =
            rw f at e in
          let near =
            candidate_bounds (is_match library secret (without_spaces raw) after)
              (current_counter now) found in
          let passes =
            find_passes (is_match library secret (without_spaces raw) after)
              (candidates (current_counter now)) found in
          record {
            well_formed = f;
            is_later = ground arith;
            not_early = near.0;
            not_late = near.1;
            right = ground arith;
          }
    ]

find_second :
    (p : ℕ → Bool) (a b : ℕ) (rest : List ℕ) → p b ≡ true → is_some (find p (a ∷ b ∷ rest)) ≡ true
find_second p a b rest hit = ground arith

current_counter_mono :
    (now finish : ℕ) → now ≤ finish → current_counter now ≤ current_counter finish
unfolding current_counter
current_counter_mono now finish before = omega (before, arith)

-- A well-formed code that is the current step's is matched, if the step last used is before the
-- current one.
pub current_code_matches :
    (library : Library) (secret raw : Text) (after now : ℕ)
    → is_code (without_spaces raw) ≡ true
    → after < current_counter now
    → text_eq (hotp library secret (current_counter now)) (without_spaces raw) ≡ true
    → is_some (match_counter library secret raw after now) ≡ true
unfolding match_counter is_match candidates
current_code_matches library secret raw after now well later right =
    let p = is_match library secret (without_spaces raw) after in
    let counter = current_counter now in
    let hit : p counter ≡ true = rw right (ground arith) in
    rw well (find_second p (counter - 1) counter ((counter + 1) ∷ []) hit)
