-- ===== src/TwoFactor/Recovery.antt =====
-- How many recovery codes of crm/two_factor.py the sign-ins by them use up.
use open_immigration_crm.Prelude.{
  ℕ, suc, ◌+◌, ◌≡◌, List, [], ◌∷◌, Option-cases, Bool-cases, true, false, not, any, select, length,
  is_some, Text, if◌then◌else◌, inl, inr, arith,
}
use open_immigration_crm.TwoFactor.{
  Library, Device, RecoveryCode, Account, Limits, Outcome, match_counter, hash_recovery_code,
  confirmed_device, remaining_recovery_codes, is_locked, is_usable, has_recovery, use_first, refuse,
  check_device, check_second_factor, checks, is_recovery,
}

use_first-remaining :
    (hash : Text) (now : ℕ) (cs : List RecoveryCode)
    → any (is_usable hash) cs ≡ true
    → suc (length (select (λ (c : RecoveryCode). not (is_some c.used_at)) (use_first hash now cs)))
      ≡ length (select (λ (c : RecoveryCode). not (is_some c.used_at)) cs)
unfolding use_first is_usable
use_first-remaining hash now [] found = absurd (cc)
use_first-remaining hash now (c ∷ cs) found = elim (Bool-cases (is_usable hash c)) [
  | inl e ↦ rw e (ground arith)
  | inr e ↦ let rest = use_first-remaining hash now cs (rw e at found) in rw e (ground arith)
]

-- A sign-in by a recovery code leaves one code fewer, any other outcome leaves as many.
record IsBalanced (account : Account) (result : Outcome × Account) : Type 0 where
  balance :
      (if is_recovery result.0 then 1 else 0) + remaining_recovery_codes result.1
      ≡ remaining_recovery_codes account

refuse-is_recovery :
    (limits : Limits) (now : ℕ) (device : Device) → is_recovery (refuse limits now device).0 ≡ false
unfolding refuse is_recovery
refuse-is_recovery limits now device = ground arith

check_device-IsBalanced :
    (library : Library) (limits : Limits) (now : ℕ) (code : Text) (device : Device)
    (account : Account)
    → IsBalanced account (check_device library limits now code device account)
unfolding check_device remaining_recovery_codes is_recovery has_recovery
check_device-IsBalanced library limits now code device account =
    elim (Option-cases (match_counter library device.secret code device.last_used_counter now)) [
      | inr (counter, e) ↦ rw (e, check_device) record { balance = omega (arith) }
      | inl e ↦
          rw (e, check_device)
            (elim (Bool-cases (has_recovery library code account)) [
              | inl f ↦ rw f record {
                balance = omega (
                  use_first-remaining (hash_recovery_code library code) now account.recovery_codes
                      (ground arith),
                  arith,
                );
              }
              | inr f ↦
                  rw f
                    record { balance = rw (refuse-is_recovery limits now device) (omega (arith)) }
            ])
    ]

check-IsBalanced :
    (library : Library) (limits : Limits) (now : ℕ) (code : Text) (account : Account)
    → IsBalanced account (check_second_factor library limits now code account)
unfolding check_second_factor is_recovery
check-IsBalanced library limits now code account = elim (Option-cases (confirmed_device account)) [
  | inl e ↦ rw (e, check_second_factor) record { balance = omega (arith) }
  | inr (device, e) ↦
      rw (e, check_second_factor)
        (elim (Bool-cases (is_locked now device)) [
          | inl f ↦ rw f record { balance = omega (arith) }
          | inr f ↦ rw f (check_device-IsBalanced library limits now code device account)
        ])
]

-- Over any checks, every sign-in by a recovery code uses up one code that was not used, and nothing
-- else does.
pub checks-remaining_recovery_codes :
    (library : Library) (limits : Limits) (attempts : List (ℕ × Text)) (account : Account)
    → length (select is_recovery (checks library limits attempts account).0)
        + remaining_recovery_codes (checks library limits attempts account).1
      ≡ remaining_recovery_codes account
unfolding checks
checks-remaining_recovery_codes library limits [] account = omega (arith)
checks-remaining_recovery_codes library limits ((now, code) ∷ attempts) account =
    let first = check_second_factor library limits now code account in
    let one = check-IsBalanced library limits now code account in
    let others = checks-remaining_recovery_codes library limits attempts first.1 in ground arith
