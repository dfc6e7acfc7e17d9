-- ===== src/Outbox/Config.antt =====
-- DrainerFromEnv of pkg/outbox/config.go. The environment and the two parsers of the standard library
-- (time.ParseDuration and strconv.Atoi, `none` for an error) are arguments.
use ifritah_go.Prelude.{
  Text, codes, [], ◌∷◌, ◌+◌, ℕ, ◌-◌, ◌*◌, ◌^◌, ◌≤◌, String, str_eq, true, false, ◌||◌, Option, none,
  some, ◌≡◌, arith, ltb, if◌then◌else◌, ℤ, pos, negsuc, leb_ℤ, ltb_ℤ, ◌≤ℤ◌, pos_part, to_uint32,
  to_int32, Result, ok, err,
}
use ifritah_go.Outbox.Drain.{Drainer, second, is_usable}

pub data ConfigError : Type 0 where
  bad_value : String → ConfigError
  bad_owner bad_interval bad_batch_size bad_lease bad_max_attempts : ConfigError

abbrev pub default_interval : ℤ
default_interval = pos 500000000

abbrev pub default_batch_size : ℤ
default_batch_size = pos 50

abbrev pub default_lease : ℤ
default_lease = pos (60 * second)

abbrev pub default_max_attempts : ℤ
default_max_attempts = pos 10

abbrev pub max_batch_size : ℤ
max_batch_size = pos 1000

abbrev pub max_attempts : ℤ
max_attempts = pos 1000

abbrev pub max_owner_len : ℕ
max_owner_len = 128

-- durationEnv and intEnv, which differ in the parser alone.
abbrev pub parsed : String → Option ℤ → Result ConfigError ℤ
parsed key none = err (bad_value key)
parsed key (some d) = ok d

unfoldable pub duration_env :
    (String → String) → (String → Option ℤ) → String → ℤ → Result ConfigError ℤ
duration_env getenv parse key fallback =
    let raw = getenv key in if str_eq raw "" then ok fallback else parsed key (parse raw)

unfoldable pub int_env : (String → String) → (String → Option ℤ) → String → ℤ → Result ConfigError ℤ
int_env getenv atoi key fallback =
    let raw = getenv key in if str_eq raw "" then ok fallback else parsed key (atoi raw)

infixl 5 ◌>>=◌
abbrev pub ◌>>=◌ :
    {A B : Type 0} → Result ConfigError A → (A → Result ConfigError B) → Result ConfigError B
ok a >>= f = f a
err e >>= f = err e

-- `len` of a text: the bytes of its code points in UTF-8.
abbrev pub utf8_width : ℕ → ℕ
utf8_width c = if ltb c 128 then 1 else if ltb c 2048 then 2 else if ltb c 65536 then 3 else 4

abbrev pub byte_length : Text → ℕ
byte_length [] = 0
byte_length (c ∷ text) = utf8_width c + byte_length text

-- The switch of DrainerFromEnv and the checks behind it.
unfoldable pub checked : String → ℤ → ℤ → ℤ → ℤ → Result ConfigError (Drainer × ℤ)
checked owner interval batch lease attempts =
    if str_eq owner "" || ltb max_owner_len (byte_length (codes owner))
    then err bad_owner
    else if leb_ℤ interval (pos 0)
    then err bad_interval
    else if leb_ℤ batch (pos 0) || ltb_ℤ max_batch_size batch
    then err bad_batch_size
    else if leb_ℤ lease (pos 0)
    then err bad_lease
    else if leb_ℤ attempts (pos 0) || ltb_ℤ max_attempts attempts
    then err bad_max_attempts
    else if ltb_ℤ (pos (2 ^ 31 - 1)) batch
    then err bad_batch_size
    else if ltb_ℤ (pos (2 ^ 32 - 1)) attempts
    then err bad_max_attempts
    else ok (
      record {
        owner = owner;
        batch_size = to_int32 batch;
        lease = lease;
        max_attempts = to_uint32 attempts;
      },
      interval,
    )

unfoldable pub drainer_from_env :
    (String → String)
    → (String → Option ℤ)
    → (String → Option ℤ)
    → String
    → Result ConfigError (Drainer × ℤ)
drainer_from_env getenv parse_duration atoi owner = do
  interval ← duration_env getenv parse_duration "OUTBOX_INTERVAL" default_interval
  batch ← int_env getenv atoi "OUTBOX_BATCH_SIZE" default_batch_size
  lease ← duration_env getenv parse_duration "OUTBOX_LEASE" default_lease
  attempts ← int_env getenv atoi "OUTBOX_MAX_ATTEMPTS" default_max_attempts
  checked owner interval batch lease attempts

-- What DrainerFromEnv promises of the drainer and of the interval.
pub record IsConfigured (d : Drainer) (interval : ℤ) : Type 0 where
  pub usable : is_usable d ≡ true
  pub ticking : pos 1 ≤ℤ interval
  pub batched : (pos 1 ≤ℤ d.batch_size) × (d.batch_size ≤ℤ max_batch_size)
  pub leased : pos 1 ≤ℤ d.lease
  pub bounded : (1 ≤ d.max_attempts) × (d.max_attempts ≤ 1000)

-- Within the limits both conversions are exact.
to_int32_small : (x : ℤ) → leb_ℤ x (pos 0) ≡ false → ltb_ℤ max_batch_size x ≡ false → to_int32 x ≡ x
unfolding to_int32
to_int32_small (pos n) h k = ground arith
to_int32_small (negsuc n) h k = absurd (ground arith)

to_uint32_small :
    (x : ℤ) → leb_ℤ x (pos 0) ≡ false → ltb_ℤ max_attempts x ≡ false → to_uint32 x ≡ pos_part x
unfolding to_uint32
to_uint32_small (pos n) h k = ground arith
to_uint32_small (negsuc n) h k = absurd (ground arith)

checked_lem :
    (owner : String) (interval batch lease attempts : ℤ) {d : Drainer} {i : ℤ}
    → checked owner interval batch lease attempts ≡ ok (d, i)
    → IsConfigured d i
unfolding checked
checked_lem owner interval batch lease attempts h =
    ground (arith, to_int32_small batch, to_uint32_small attempts)

-- The four settings, each read or in error.
abbrev assembled :
    String
    → Result ConfigError ℤ
    → Result ConfigError ℤ
    → Result ConfigError ℤ
    → Result ConfigError ℤ
    → Result ConfigError (Drainer × ℤ)
assembled owner ri rb rl ra = do
  interval ← ri
  batch ← rb
  lease ← rl
  attempts ← ra
  checked owner interval batch lease attempts

assembled_lem :
    (owner : String) (ri rb rl ra : Result ConfigError ℤ) {d : Drainer} {i : ℤ}
    → assembled owner ri rb rl ra ≡ ok (d, i)
    → IsConfigured d i
assembled_lem owner (err e) rb rl ra h = cc
assembled_lem owner (ok i) (err e) rl ra h = cc
assembled_lem owner (ok i) (ok b) (err e) ra h = cc
assembled_lem owner (ok i) (ok b) (ok l) (err e) h = cc
assembled_lem owner (ok i) (ok b) (ok l) (ok a) h = checked_lem owner i b l a h

-- Whatever the environment holds, a drainer that is returned meets the test of DrainOnce: it has an
-- owner, its batch is 1 to 1000 rows, its lease is positive and its attempts are 1 to 1000; the
-- interval is positive.
pub drainer_from_env-IsConfigured :
    (getenv : String → String) (parse_duration atoi : String → Option ℤ) (owner : String)
    {d : Drainer} {i : ℤ}
    → drainer_from_env getenv parse_duration atoi owner ≡ ok (d, i)
    → IsConfigured d i
unfolding drainer_from_env
drainer_from_env-IsConfigured getenv parse_duration atoi owner h =
    assembled_lem owner (duration_env getenv parse_duration "OUTBOX_INTERVAL" default_interval)
      (int_env getenv atoi "OUTBOX_BATCH_SIZE" default_batch_size)
      (duration_env getenv parse_duration "OUTBOX_LEASE" default_lease)
      (int_env getenv atoi "OUTBOX_MAX_ATTEMPTS" default_max_attempts) h
