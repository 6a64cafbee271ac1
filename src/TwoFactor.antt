-- ===== src/TwoFactor.antt =====
-- Staff sign-in codes, after crm/two_factor.py and its rows in crm/models.py. Times are in seconds.
pub mod Replay
pub mod SignIns
pub mod Recovery
pub mod Lockout
mod Tests
use open_immigration_crm.Prelude.{
  ℕ, zero, suc, ◌+◌, ◌-◌, ◌*◌, ◌/◌, ◌%◌, List, [], ◌∷◌, ◌++◌, Option, none, some, Bool, true, false,
  not, ◌&&◌, leb, ltb, ◌==◌, find, map, select, length, is_some, Text, codes, text_eq, is_space,
  any, if◌then◌else◌,
}

-- What the code takes from Python's libraries: the HMAC-SHA1 digest of a counter under a base32
-- secret, the SHA-256 hash of a text in hexadecimal, and `str.upper`.
pub record Library : Type 0 where
  pub hmac_sha1 : Text → ℕ → List ℕ
  pub sha256_hex : Text → Text
  pub upper : Text → Text

-- `TwoFactorDevice`
pub record Device : Type 0 where
  pub secret : Text
  pub confirmed_at : Option ℕ
  pub last_used_counter : ℕ
  pub failed_attempts : ℕ
  pub locked_until : Option ℕ

pub record RecoveryCode : Type 0 where
  pub code_hash : Text
  pub used_at : Option ℕ

-- The rows of one user.
pub record Account : Type 0 where
  pub device : Option Device
  pub recovery_codes : List RecoveryCode

-- `TWO_FACTOR_FAILURE_LIMIT` and `AXES_COOLOFF_TIME`
pub record Limits : Type 0 where
  pub failure_limit : ℕ
  pub cooloff : ℕ

pub data Outcome : Type 0 where
  accepted accepted_recovery rejected locked : Outcome

abbrev pub recovery_code_length : ℕ
recovery_code_length = 10

abbrev pub recovery_code_count : ℕ
recovery_code_count = 10

-- `digest[index]`; a digest has twenty bytes.
unfoldable pub byte_at : List ℕ → ℕ → ℕ
byte_at [] index = 0
byte_at (b ∷ digest) zero = b
byte_at (b ∷ digest) (suc index) = byte_at digest index

-- The decimal digits of a number, as many as asked for: `str(n).zfill(count)` of an `n` with no more.
unfoldable pub digits : ℕ → ℕ → Text
digits zero n = []
digits (suc count) n = digits count (n / 10) ++ (48 + n % 10) ∷ []

unfoldable pub hotp : Library → Text → ℕ → Text
unfolding byte_at digits
hotp library secret counter =
    let digest = library.hmac_sha1 secret counter in
    let offset = byte_at digest (length digest - 1) % 16 in
    let value =
      (byte_at digest offset * 16777216
        + byte_at digest (offset + 1) * 65536
        + byte_at digest (offset + 2) * 256
        + byte_at digest (offset + 3))
      % 2147483648 in
    digits 6 (value % 1000000)

-- `current_counter`
unfoldable pub current_counter : ℕ → ℕ
current_counter now = now / 30

-- `"".join(text.split())`
unfoldable pub without_spaces : Text → Text
without_spaces text = select (λ c. not (is_space c)) text

unfoldable pub is_digit : ℕ → Bool
is_digit c = leb 48 c && leb c 57

unfoldable pub is_code : Text → Bool
unfolding is_digit
is_code code = (length code == 6) && not (any (λ c. not (is_digit c)) code)

-- The steps that may be tried; step 0 is never after another one.
unfoldable pub candidates : ℕ → List ℕ
candidates counter = (counter - 1) ∷ counter ∷ (counter + 1) ∷ []

unfoldable pub is_match : Library → Text → Text → ℕ → ℕ → Bool
unfolding hotp
is_match library secret code after candidate =
    ltb after candidate && text_eq (hotp library secret candidate) code

unfoldable pub match_counter : Library → Text → Text → ℕ → ℕ → Option ℕ
unfolding without_spaces is_code candidates current_counter is_match
match_counter library secret raw after now =
    let code = without_spaces raw in
    if is_code code
    then find (is_match library secret code after) (candidates (current_counter now))
    else none

unfoldable pub normalize_recovery_code : Library → Text → Text
unfolding without_spaces
normalize_recovery_code library raw =
    library.upper (select (λ c. not (c == 45)) (without_spaces raw))

unfoldable pub hash_recovery_code : Library → Text → Text
unfolding normalize_recovery_code
hash_recovery_code library raw = library.sha256_hex (normalize_recovery_code library raw)

-- `confirmed_device`
unfoldable pub confirmed_device : Account → Option Device
confirmed_device account = elim (account.device) [
  | none ↦ none
  | some device ↦ if is_some device.confirmed_at then some device else none
]

unfoldable pub remaining_recovery_codes : Account → ℕ
remaining_recovery_codes account =
    length (select (λ (c : RecoveryCode). not (is_some c.used_at)) account.recovery_codes)

-- `replace_recovery_codes`, with the fresh codes that `generate_recovery_codes` drew.
unfoldable pub replace_recovery_codes : Library → List Text → Account → Account
unfolding hash_recovery_code
replace_recovery_codes library fresh account = record account {
  recovery_codes =
      map (λ code. record { code_hash = hash_recovery_code library code; used_at = none }) fresh;
}

-- `confirm_device`, on the device that the user has; `none` if the code is wrong.
unfoldable pub confirm_device : Library → ℕ → List Text → Text → Device → Account → Option Account
unfolding match_counter replace_recovery_codes
confirm_device library now fresh code device account =
    elim (match_counter library device.secret code 0 now) [
      | none ↦ none
      | some counter ↦ some (
          replace_recovery_codes library fresh (record account {
            device = some record device { confirmed_at = some now; last_used_counter = counter };
          }))
    ]

unfoldable pub is_locked : ℕ → Device → Bool
is_locked now device = elim (device.locked_until) [ none ↦ false | some until ↦ ltb now until ]

unfoldable pub is_usable : Text → RecoveryCode → Bool
is_usable hash c = text_eq c.code_hash hash && not (is_some c.used_at)

-- Whether the code is a recovery code of the user that was not used.
unfoldable pub has_recovery : Library → Text → Account → Bool
unfolding normalize_recovery_code hash_recovery_code is_usable
has_recovery library code account =
    (length (normalize_recovery_code library code) == recovery_code_length)
    && any (is_usable (hash_recovery_code library code)) account.recovery_codes

-- The first such row, used now.
unfoldable pub use_first : Text → ℕ → List RecoveryCode → List RecoveryCode
unfolding is_usable
use_first hash now [] = []
use_first hash now (c ∷ cs) =
    if is_usable hash c then record c { used_at = some now } ∷ cs else c ∷ use_first hash now cs

unfoldable pub refuse : Limits → ℕ → Device → Outcome × Device
refuse limits now device =
    if leb limits.failure_limit (device.failed_attempts + 1)
    then (locked, record device { failed_attempts = 0; locked_until = some (now + limits.cooloff) })
    else (rejected, record device { failed_attempts = device.failed_attempts + 1 })

-- `check_second_factor` for a confirmed device that is not locked.
unfoldable pub check_device : Library → Limits → ℕ → Text → Device → Account → Outcome × Account
unfolding match_counter has_recovery use_first refuse
check_device library limits now code device account =
    elim (match_counter library device.secret code device.last_used_counter now) [
      | some counter ↦ (
        accepted,
        record account {
          device = some record device {
            failed_attempts = 0;
            locked_until = none;
            last_used_counter = counter;
          };
        },
      )
      | none ↦ elim (has_recovery library code account) [
        | true ↦ (
          accepted_recovery,
          record {
            device = some record device { failed_attempts = 0; locked_until = none };
            recovery_codes = use_first (hash_recovery_code library code) now account.recovery_codes;
          },
        )
        | false ↦
            let result = refuse limits now device in
            (result.0, record account { device = some result.1 })
      ]
    ]

unfoldable pub check_second_factor : Library → Limits → ℕ → Text → Account → Outcome × Account
unfolding confirmed_device is_locked check_device
check_second_factor library limits now code account = elim (confirmed_device account) [
  | none ↦ (rejected, account)
  | some device ↦ elim (is_locked now device) [
    | true ↦ (locked, account)
    | false ↦ check_device library limits now code device account
  ]
]

-- `reset_two_factor`: whether a device was removed, and the account without its rows.
unfoldable pub reset_two_factor : Account → Bool × Account
reset_two_factor account = (is_some account.device, record { device = none; recovery_codes = [] })

-- Checks one after another, each with its moment and the code that was typed.
unfoldable pub checks : Library → Limits → List (ℕ × Text) → Account → List Outcome × Account
checks library limits [] account = ([], account)
checks library limits ((now, code) ∷ attempts) account =
    let first = check_second_factor library limits now code account in
    let rest = checks library limits attempts first.1 in (first.0 ∷ rest.0, rest.1)

unfoldable pub is_accepted : Outcome → Bool
is_accepted accepted = true
is_accepted _ = false

unfoldable pub is_recovery : Outcome → Bool
is_recovery accepted_recovery = true
is_recovery _ = false

unfoldable pub is_rejected : Outcome → Bool
is_rejected rejected = true
is_rejected _ = false
