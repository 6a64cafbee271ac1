-- ===== src/TwoFactor/SignIns.antt =====
-- The steps that sign-ins by authenticator codes use, after `check_second_factor` of
-- crm/two_factor.py.
use mathlib.Core.Path.{subst}
use open_immigration_crm.Prelude.{
  ℕ, ◌≡◌, refl, List, [], ◌∷◌, none, some, Option-cases, Bool-cases, true, false, Text,
  if◌then◌else◌, inl, inr, arith,
}
use open_immigration_crm.TwoFactor.{
  Library, Device, Account, Limits, Outcome, rejected, locked, match_counter, confirmed_device,
  is_locked, has_recovery, refuse, check_device, check_second_factor, is_accepted,
}
use open_immigration_crm.TwoFactor.Replay.{IsFresh, match_counter-IsFresh}

unfoldable pub used_counter : Account → ℕ
used_counter account = elim (account.device) [ none ↦ 0 | some device ↦ device.last_used_counter ]

-- The sign-ins by authenticator codes among some checks: the moment, the code that was typed, and the
-- step that is kept as the last one used.
unfoldable pub sign_ins : Library → Limits → List (ℕ × Text) → Account → List (ℕ × (Text × ℕ))
unfolding used_counter is_accepted
sign_ins library limits [] account = []
sign_ins library limits ((now, code) ∷ attempts) account =
    let first = check_second_factor library limits now code account in
    let rest = sign_ins library limits attempts first.1 in
    if is_accepted first.0 then (now, (code, used_counter first.1)) ∷ rest else rest

-- Each sign-in is by the code of the step that is kept, a step near its moment and later than the
-- steps of all sign-ins before.
abbrev pub AreFresh : Library → Text → ℕ → List (ℕ × (Text × ℕ)) → Type 0
AreFresh library secret after [] = Unit
AreFresh library secret after ((now, (code, step)) ∷ later) =
    IsFresh library secret code after now step × AreFresh library secret step later

-- What a check does to the device.
record IsNext (library : Library) (now : ℕ) (code : Text) (device : Device)
    (result : Outcome × Account) : Type 0 where
  after : Device
  kept : result.1.device ≡ some after
  same_secret : after.secret ≡ device.secret
  fresh :
      is_accepted result.0 ≡ true
      → IsFresh library device.secret code device.last_used_counter now after.last_used_counter
  same_step : is_accepted result.0 ≡ false → after.last_used_counter ≡ device.last_used_counter

confirmed_device-device :
    (account : Account) (device confirmed : Device)
    → account.device ≡ some device
    → confirmed_device account ≡ some confirmed
    → confirmed ≡ device
unfolding confirmed_device
confirmed_device-device account device confirmed here e = ground (arith, here, e)

refuse-keeps :
    (limits : Limits) (now : ℕ) (device : Device)
    → ((refuse limits now device).1.last_used_counter ≡ device.last_used_counter)
      × (((refuse limits now device).1.secret ≡ device.secret)
          × (is_accepted (refuse limits now device).0 ≡ false))
unfolding refuse is_accepted
refuse-keeps limits now device = (ground arith, (ground arith, ground arith))

check_device-IsNext :
    (library : Library) (limits : Limits) (now : ℕ) (code : Text) (device : Device)
    (account : Account)
    → IsNext library now code device (check_device library limits now code device account)
unfolding check_device is_accepted
check_device-IsNext library limits now code device account =
    elim (Option-cases (match_counter library device.secret code device.last_used_counter now)) [
      | inr (counter, e) ↦
          rw (e, check_device)
            record {
              after = record device {
                failed_attempts = 0;
                locked_until = none;
                last_used_counter = counter;
              };
              kept = refl;
              same_secret = refl;
              fresh = λ _.
                  (match_counter-IsFresh library device.secret code device.last_used_counter now
                    counter e);
              same_step = λ f. absurd (ground (arith, f));
            }
      | inl e ↦
          rw (e, check_device)
            (elim (Bool-cases (has_recovery library code account)) [
              | inl f ↦ rw f record {
                after = record device { failed_attempts = 0; locked_until = none };
                kept = refl;
                same_secret = refl;
                fresh = λ g. absurd (ground (arith, g));
                same_step = λ _. refl;
              }
              | inr f ↦
                  let keeps = refuse-keeps limits now device in
                  rw f record {
                    after = (refuse limits now device).1;
                    kept = refl;
                    same_secret = keeps.1.0;
                    fresh = λ g. absurd (ground (arith, g, keeps.1.1));
                    same_step = λ _. keeps.0;
                  }
            ])
    ]

-- A check that does not come to the device leaves it.
unchanged :
    (library : Library) (now : ℕ) (code : Text) (device : Device) (account : Account)
    (outcome : Outcome)
    → account.device ≡ some device
    → is_accepted outcome ≡ false
    → IsNext library now code device (outcome, account)
unchanged library now code device account outcome here out = record {
  after = device;
  kept = here;
  same_secret = refl;
  fresh = λ e. absurd (ground (arith, e, out));
  same_step = λ _. refl;
}

check-IsNext :
    (library : Library) (limits : Limits) (now : ℕ) (code : Text) (account : Account)
    (device : Device)
    → account.device ≡ some device
    → IsNext library now code device (check_second_factor library limits now code account)
unfolding check_second_factor is_accepted
check-IsNext library limits now code account device here =
    elim (Option-cases (confirmed_device account)) [
      | inl e ↦
          rw (e, check_second_factor) (unchanged library now code device account rejected here refl)
      | inr (confirmed, e) ↦
          rw (e, check_second_factor)
            (elim (Bool-cases (is_locked now confirmed)) [
              | inl f ↦ rw f (unchanged library now code device account locked here refl)
              | inr f ↦
                  let same = confirmed_device-device account device confirmed here e in
                  rw f (
                    subst
                      (λ d.
                        IsNext library now code d
                          (check_device library limits now code confirmed account))
                      same (check_device-IsNext library limits now code confirmed account))
            ])
    ]

-- For a user with a device, in any sequence of checks: each sign-in by an authenticator code is by
-- the code of one time step, within one of the current step and later than the step last used and
-- the steps of all such sign-ins before; and that step is the one kept as last used.
pub sign_ins-AreFresh :
    (library : Library) (limits : Limits) (attempts : List (ℕ × Text)) (account : Account)
    (device : Device)
    → account.device ≡ some device
    → AreFresh library device.secret device.last_used_counter
        (sign_ins library limits attempts account)
unfolding sign_ins used_counter
sign_ins-AreFresh library limits [] account device here = tt
sign_ins-AreFresh library limits ((now, code) ∷ attempts) account device here =
    let first = check_second_factor library limits now code account in
    let next = check-IsNext library limits now code account device here in
    let rest : AreFresh library device.secret next.after.last_used_counter
        (sign_ins library limits attempts first.1) =
      subst
        (λ k.
          AreFresh library k next.after.last_used_counter
            (sign_ins library limits attempts first.1))
        next.same_secret (sign_ins-AreFresh library limits attempts first.1 next.after next.kept) in
    let used : used_counter first.1 ≡ next.after.last_used_counter =
      rw (next.kept, used_counter) refl in
    elim (Bool-cases (is_accepted first.0)) [
      | inl e ↦ rw e (rw used (next.fresh e, rest))
      | inr e ↦ rw e (
          subst (λ k. AreFresh library device.secret k (sign_ins library limits attempts first.1))
            (next.same_step e) rest)
    ]
