-- ===== src/TwoFactor/Lockout.antt =====
-- The lockout of crm/two_factor.py after wrong codes: how many are rejected and looked at.
use open_immigration_crm.Prelude.{
  ℕ, suc, ◌+◌, ◌≡◌, ◌≤◌, ◌<◌, refl, List, [], ◌∷◌, some, Option-cases, Bool, Bool-cases, true,
  false, not, none, if◌then◌else◌, ◌||◌, All, any, select, length, is_some, Text, inl, inr, arith,
  leb,
}
use open_immigration_crm.TwoFactor.{
  Library, Device, Account, Limits, Outcome, rejected, locked, match_counter, confirmed_device,
  is_locked, has_recovery, refuse, check_device, check_second_factor, checks, is_accepted,
  is_recovery, is_rejected,
}

-- Signed in by either kind of code.
unfoldable pub is_in : Outcome → Bool
is_in outcome = is_accepted outcome || is_recovery outcome

-- Whether the code of a check is looked at: the device is confirmed and not locked.
unfoldable pub is_examined : ℕ → Account → Bool
is_examined now account = elim (confirmed_device account) [
  | none ↦ false
  | some device ↦ not (is_locked now device)
]

-- How many of the codes are looked at.
unfoldable pub examined : Library → Limits → List (ℕ × Text) → Account → ℕ
unfolding is_examined
examined library limits [] account = 0
examined library limits ((now, code) ∷ attempts) account =
    let rest =
      examined library limits attempts (check_second_factor library limits now code account).1 in
    (if is_examined now account then 1 else 0) + rest

held_check :
    (library : Library) (limits : Limits) (now : ℕ) (code : Text) (account : Account)
    (device : Device)
    → confirmed_device account ≡ some device
    → is_locked now device ≡ true
    → check_second_factor library limits now code account ≡ (locked, account)
unfolding check_second_factor
held_check library limits now code account device here held =
    rw (here, held, check_second_factor) refl

open_check :
    (library : Library) (limits : Limits) (now : ℕ) (code : Text) (account : Account)
    (device : Device)
    → confirmed_device account ≡ some device
    → is_locked now device ≡ false
    → check_second_factor library limits now code account
      ≡ check_device library limits now code device account
unfolding check_second_factor
open_check library limits now code account device here free =
    rw (here, free, check_second_factor) refl

looked_at :
    (now : ℕ) (account : Account) (device : Device) (held : Bool)
    → confirmed_device account ≡ some device
    → is_locked now device ≡ held
    → is_examined now account ≡ not held
unfolding is_examined
looked_at now account device held here e = rw (here, is_examined) (rw e refl)

-- What a code does to a device that is not locked: it is right, it is the last wrong one that is
-- allowed, or it is counted.
data Checked (limits : Limits) (now : ℕ) (device : Device) (result : Outcome × Account)
    : Type 0 where
  signed_in : is_in result.0 ≡ true → Checked limits now device result
  shut_out :
      (after : Device)
      → result.0 ≡ locked
      → confirmed_device result.1 ≡ some after
      → after.locked_until ≡ some (now + limits.cooloff)
      → Checked limits now device result
  counted :
      (after : Device)
      → result.0 ≡ rejected
      → confirmed_device result.1 ≡ some after
      → after.failed_attempts ≡ suc device.failed_attempts
      → suc device.failed_attempts < limits.failure_limit
      → Checked limits now device result

check_device-Checked :
    (library : Library) (limits : Limits) (now : ℕ) (code : Text) (device : Device)
    (account : Account)
    → is_some device.confirmed_at ≡ true
    → Checked limits now device (check_device library limits now code device account)
unfolding check_device is_in is_accepted is_recovery confirmed_device refuse
check_device-Checked library limits now code device account confirmed =
    elim (Option-cases (match_counter library device.secret code device.last_used_counter now)) [
      | inr (counter, e) ↦ rw (e, check_device) (signed_in refl)
      | inl e ↦
          rw (e, check_device)
            (elim (Bool-cases (has_recovery library code account)) [
              | inl f ↦ rw f (signed_in refl)
              | inr f ↦
                  rw f (elim (Bool-cases (leb limits.failure_limit (device.failed_attempts + 1))) [
                    | inl g ↦ rw g (
                        shut_out
                          record device {
                            failed_attempts = 0;
                            locked_until = some (now + limits.cooloff);
                          }
                          refl (rw confirmed refl) refl)
                    | inr g ↦ rw g (
                        counted record device { failed_attempts = device.failed_attempts + 1 } refl
                          (rw confirmed refl) (omega (arith)) (ground arith))
                  ])
            ])
    ]

confirmed_device-is_some :
    (account : Account) (device : Device)
    → confirmed_device account ≡ some device
    → is_some device.confirmed_at ≡ true
unfolding confirmed_device
confirmed_device-is_some account device e = ground arith

locked_checks :
    (library : Library) (limits : Limits) (until : ℕ) (attempts : List (ℕ × Text))
    (account : Account) (device : Device)
    → confirmed_device account ≡ some device
    → device.locked_until ≡ some until
    → All (λ (attempt : ℕ × Text). attempt.0 < until) attempts
    → (length (select is_rejected (checks library limits attempts account).0) ≡ 0)
      × (examined library limits attempts account ≡ 0)
unfolding checks is_locked is_rejected examined is_examined
locked_checks library limits until [] account device here shut before = (refl, refl)
locked_checks library limits until ((now, code) ∷ attempts) account device here shut before =
    let held : is_locked now device ≡ true = rw (shut, is_locked) (ground arith) in
    let rest = locked_checks library limits until attempts account device here shut before.1 in
    rw
      (
        held_check library limits now code account device here held,
        looked_at now account device true here held,
      )
      (rest.0, omega (rest.1, arith))

before_All :
    (start now cooloff : ℕ) (attempts : List (ℕ × Text))
    → start ≤ now
    → All (λ (attempt : ℕ × Text). (start ≤ attempt.0) × (attempt.0 < start + cooloff)) attempts
    → All (λ (attempt : ℕ × Text). attempt.0 < now + cooloff) attempts
before_All start now cooloff [] le within = tt
before_All start now cooloff (attempt ∷ attempts) le within =
    (omega (within.0.1, le, arith), before_All start now cooloff attempts le within.1)

-- For a confirmed device whose count of failures is below the limit: within one cool-off time and
-- without a sign-in, the codes that are answered as rejected and the failures counted before are
-- together fewer than the limit, and the codes that are looked at at all and those failures are
-- together at most the limit, the code that locks the device among them.
pub checks-is_rejected :
    (library : Library) (limits : Limits) (start : ℕ) (attempts : List (ℕ × Text))
    (account : Account) (device : Device)
    → confirmed_device account ≡ some device
    → device.failed_attempts < limits.failure_limit
    → All
        (λ (attempt : ℕ × Text). (start ≤ attempt.0) × (attempt.0 < start + limits.cooloff))
        attempts
    → any is_in (checks library limits attempts account).0 ≡ false
    → (length (select is_rejected (checks library limits attempts account).0)
          + device.failed_attempts
        < limits.failure_limit)
      × (examined library limits attempts account + device.failed_attempts ≤ limits.failure_limit)
unfolding checks is_rejected is_in is_accepted is_recovery examined is_examined
checks-is_rejected library limits start [] account device here few within out =
    (omega (few, arith), omega (few, arith))
checks-is_rejected library limits start ((now, code) ∷ attempts) account device here few within
      out =
    elim (Bool-cases (is_locked now device)) [
      | inl held ↦
          let same = held_check library limits now code account device here held in
          let rest =
            checks-is_rejected library limits start attempts account device here few within.1
              (rw same at out) in
          rw (same, looked_at now account device true here held) (rest.0, omega (rest.1, arith))
      | inr free ↦
          let first = check_second_factor library limits now code account in
          let result : Checked limits now device first =
            rw (open_check library limits now code account device here free) (
              check_device-Checked library limits now code device account
                (confirmed_device-is_some account device here)) in
          elim result [
            | signed_in s ↦ absurd (ground arith)
            | shut_out after o h u ↦
                let none_left =
                  locked_checks library limits (now + limits.cooloff) attempts first.1 after h u
                    (before_All start now limits.cooloff attempts within.0.0 within.1) in
                rw (o, looked_at now account device false here free)
                  (omega (none_left.0, few, arith), omega (none_left.1, few, arith))
            | counted after o h c l ↦
                let rest =
                  checks-is_rejected library limits start attempts first.1 after h (rw c l) within.1
                    (ground arith) in
                rw (o, looked_at now account device false here free)
                  (omega (rest.0, c, arith), omega (rest.1, c, arith))
          ]
    ]
