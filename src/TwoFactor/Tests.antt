-- ===== src/TwoFactor/Tests.antt =====
-- The theorems on second factors at one device and one recovery code.
use open_immigration_crm.Prelude.{
  ℕ, ◌+◌, ◌≡◌, ◌≤◌, ◌<◌, refl, List, [], ◌∷◌, none, some, true, false, Text, codes, any, select,
  length, arith, is_some, text_eq, is_space,
}
use open_immigration_crm.TwoFactor
use open_immigration_crm.TwoFactor.{
  Library, Device, Account, Limits, match_counter, hotp, is_code, without_spaces, current_counter,
  remaining_recovery_codes, confirmed_device, checks, is_recovery, is_accepted, is_rejected,
}
use open_immigration_crm.TwoFactor.Recovery.{checks-remaining_recovery_codes}
use open_immigration_crm.TwoFactor.Replay.{IsFresh, match_counter-IsFresh, current_code_matches}
use open_immigration_crm.TwoFactor.SignIns.{AreFresh, used_counter, sign_ins, sign_ins-AreFresh}
use open_immigration_crm.TwoFactor.Lockout.{is_in, examined, checks-is_rejected}

-- A digest of twenty bytes that tells the counters apart, and hashes that keep the text.
abbrev library : Library
library = record {
  hmac_sha1 = λ secret counter.
      0 ∷ 0 ∷ 0 ∷ counter ∷ 0 ∷ 0 ∷ 0 ∷ 0 ∷ 0 ∷ 0 ∷ 0 ∷ 0 ∷ 0 ∷ 0 ∷ 0 ∷ 0 ∷ 0 ∷ 0 ∷ 0 ∷ 0 ∷ [];
  sha256_hex = λ text. text;
  upper = λ text. text;
}

abbrev device : Device
device = record {
  secret = codes "JBSWY3DP";
  confirmed_at = some 10;
  last_used_counter = 6;
  failed_attempts = 1;
  locked_until = none;
}

abbrev account : Account
account = record {
  device = some device;
  recovery_codes = record { code_hash = codes "ABCDE23456"; used_at = none } ∷ [];
}

abbrev limits : Limits
limits = record { failure_limit = 3; cooloff = 900 }

-- The code of step 7, with a space; the recovery code; and wrong codes.
abbrev attempts : List (ℕ × Text)
attempts =
    (215, codes "000 007")
    ∷ (216, codes "000007")
    ∷ (217, codes "ABCDE-23456")
    ∷ (218, codes "ABCDE-23456")
    ∷ []

abbrev guesses : List (ℕ × Text)
guesses = (215, codes "123456") ∷ (216, codes "123457") ∷ (217, codes "123458") ∷ []

checks-remaining_recovery_codes_example :
    length (select is_recovery (checks library limits attempts account).0)
      + remaining_recovery_codes (checks library limits attempts account).1
    ≡ remaining_recovery_codes account
checks-remaining_recovery_codes_example =
    checks-remaining_recovery_codes library limits attempts account

step_7 : match_counter library (codes "JBSWY3DP") (codes "000 007") 6 215 ≡ some 7
unfolding match_counter is_space
step_7 = refl

match_counter-IsFresh_example : IsFresh library (codes "JBSWY3DP") (codes "000 007") 6 215 7
match_counter-IsFresh_example =
    match_counter-IsFresh library (codes "JBSWY3DP") (codes "000 007") 6 215 7 step_7

step_7_facts :
    (is_code (without_spaces (codes "000 007")) ≡ true)
    × ((current_counter 215 ≡ 7)
        × (text_eq (hotp library (codes "JBSWY3DP") 7) (without_spaces (codes "000 007")) ≡ true))
unfolding is_code without_spaces is_space current_counter hotp
step_7_facts = (refl, (refl, refl))

current_code_matches_example :
    is_some (match_counter library (codes "JBSWY3DP") (codes "000 007") 6 215) ≡ true
current_code_matches_example =
    current_code_matches library (codes "JBSWY3DP") (codes "000 007") 6 215 step_7_facts.0
      (rw (step_7_facts.1.0) (omega (arith))) (rw (step_7_facts.1.0) step_7_facts.1.1)

here : account.device ≡ some device
here = refl

sign_ins-AreFresh_example :
    AreFresh library (codes "JBSWY3DP") 6 (sign_ins library limits attempts account)
sign_ins-AreFresh_example = sign_ins-AreFresh library limits attempts account device here

one_sign_in : sign_ins library limits attempts account ≡ (215, (codes "000 007", 7)) ∷ []
unfolding sign_ins TwoFactor.check_second_factor is_space is_accepted used_counter
one_sign_in = refl

guesses_facts :
    (confirmed_device account ≡ some device)
    × (any is_in (checks library limits guesses account).0 ≡ false)
unfolding confirmed_device checks is_in is_accepted TwoFactor.check_second_factor is_space
    is_recovery
guesses_facts = (refl, refl)

checks-is_rejected_example :
    (length (select is_rejected (checks library limits guesses account).0) + device.failed_attempts
      < limits.failure_limit)
    × (examined library limits guesses account + device.failed_attempts ≤ limits.failure_limit)
checks-is_rejected_example =
    checks-is_rejected library limits 215 guesses account device guesses_facts.0 (omega (arith))
      (
        (omega (arith), omega (arith)),
        ((omega (arith), omega (arith)), ((omega (arith), omega (arith)), tt)),
      )
      guesses_facts.1
