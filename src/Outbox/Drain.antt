-- ===== src/Outbox/Drain.antt =====
-- The drainer of pkg/outbox/outbox.go: DrainOnce, claim, recordFailure, backoff and truncate.
-- Every database call can fail: `Faults` says which do, and in what state a failed commit leaves the
-- table. The publisher is a parameter, its answer `none` for success or the text of its error.
use ifritah_go.Prelude.{
  ℕ, zero, suc, ◌+◌, ◌-◌, ◌*◌, ◌%◌, ◌^◌, min, String, str_eq, Text, Bool, true, false, not, ◌||◌,
  Option, none, some, List, [], ◌∷◌, ◌++◌, ltb, leb, ◌==◌, if◌then◌else◌, take, length, ℤ, pos,
  leb_ℤ, pos_part, Result, ok, err,
}
use ifritah_go.Outbox.Table.{
  OutboxRow, Table, list_due_pending, list_expired, ids, lease_events, mark_published, mark_retry,
  mark_dead_letter,
}

-- Durations in nanoseconds.
abbrev pub second : ℕ
second = 1000000000

abbrev pub max_backoff : ℕ
max_backoff = 300 * second

abbrev pub max_error_len : ℕ
max_error_len = 1024

-- The loop of backoff over the rounds left; it leaves as soon as the wait reaches the cap.
unfoldable pub doublings : ℕ → ℕ → ℕ
doublings zero wait = wait
doublings (suc rounds) wait = elim (ltb wait max_backoff) [
  | true ↦ doublings rounds (wait * 2)
  | false ↦ wait
]

unfoldable pub backoff : ℕ → ℕ
unfolding doublings
backoff attempts = min (doublings (attempts - 1) second) max_backoff

-- `utf8.RuneStart`: not a continuation byte 10xxxxxx.
abbrev pub rune_start : ℕ → Bool
rune_start b = ltb b 128 || leb 192 b

-- `s[n]` of a text longer than n.
abbrev pub byte_at : Text → ℕ → ℕ
byte_at [] n = 0
byte_at (b ∷ s) zero = b
byte_at (b ∷ s) (suc n) = byte_at s n

-- The loop of truncate: back to a byte that starts a rune.
unfoldable pub cut_point : Text → ℕ → ℕ
cut_point s zero = zero
cut_point s (suc n) = elim (rune_start (byte_at s (suc n))) [ true ↦ suc n | false ↦ cut_point s n ]

unfoldable pub truncate : Text → ℕ → Text
unfolding cut_point
truncate s n = if leb (length s) n then s else take (cut_point s n) s

pub record Drainer : Type 0 where
  pub owner : String
  pub batch_size : ℤ  -- int32
  pub lease : ℤ  -- time.Duration
  pub max_attempts : ℕ  -- uint32

-- What a commit comes to. An unacknowledged one is in force, but the caller sees an error.
pub data Commit : Type 0 where
  committed rolled_back unacknowledged : Commit

pub record Faults : Type 0 where
  pub begin : Bool
  pub list_due : Bool
  pub list_expired : Bool
  pub lease : Bool
  pub commit : Commit
  pub record_failure : ℕ → Bool
  pub mark_published : Bool

pub data DrainError : Type 0 where
  bad_drainer database : DrainError

abbrev pub Publisher : Type 0
Publisher = String → String → String → Option Text

-- The rows that a claim selects, `none` if a read fails. The room is never negative, since the first
-- read returns at most the batch.
unfoldable pub claim_batch : Drainer → Faults → (ℕ → Bool) → ℕ → Table → Option Table
claim_batch d f locked now table =
    let events = list_due_pending locked now (pos_part d.batch_size) table in
    let room = pos_part d.batch_size - length events in
    if f.list_due
    then none
    else if ltb 0 room
    then if f.list_expired then none else some (events ++ list_expired locked now room table)
    else some events

abbrev pub commit_claim : Commit → Table → Table → Table → Result DrainError Table × Table
commit_claim committed events old new = (ok events, new)
commit_claim rolled_back events old new = (err database, old)
commit_claim unacknowledged events old new = (err database, new)

unfoldable pub lease_batch : Drainer → Faults → ℕ → Table → Table → Result DrainError Table × Table
lease_batch d f now [] table = (ok [], table)
lease_batch d f now (e ∷ events) table =
    if f.lease
    then (err database, table)
    else commit_claim f.commit (e ∷ events) table
        (lease_events (ids (e ∷ events)) d.owner (now + pos_part d.lease) table)

-- What claim does with the outcome of its reads.
unfoldable pub lease_claimed :
    Drainer → Faults → ℕ → Option Table → Table → Result DrainError Table × Table
unfolding lease_batch
lease_claimed d f now none table = (err database, table)
lease_claimed d f now (some events) table = lease_batch d f now events table

unfoldable pub claim : Drainer → Faults → (ℕ → Bool) → ℕ → Table → Result DrainError Table × Table
unfolding claim_batch lease_claimed
claim d f locked now table =
    if f.begin
    then (err database, table)
    else lease_claimed d f now (claim_batch d f locked now table) table

-- The attempt counter is a uint32.
unfoldable pub record_failure : Drainer → OutboxRow → ℕ → Text → Table → Table
unfolding truncate backoff
record_failure d ev now cause table =
    let last_error = truncate cause max_error_len in
    let attempt = (ev.attempt_count + 1) % 2 ^ 32 in
    if leb d.max_attempts attempt
    then mark_dead_letter ev.id d.owner last_error table
    else mark_retry ev.id d.owner (now + backoff attempt) last_error table

-- The loop of DrainOnce over the claimed events; `sent` are the ids published so far.
unfoldable pub publish_all :
    Drainer → Faults → Publisher → ℕ → Table → List ℕ → Table → Result DrainError (List ℕ) × Table
publish_all d f publish now [] sent table = (ok sent, table)
publish_all d f publish now (ev ∷ events) sent table =
    elim (publish ev.subject ev.payload ev.event_id) [
      | none ↦ publish_all d f publish now events (sent ++ (ev.id ∷ [])) table
      | some cause ↦ elim (f.record_failure ev.id) [
        | true ↦ (err database, table)
        | false ↦ publish_all d f publish now events sent (record_failure d ev now cause table)
      ]
    ]

unfoldable pub mark_sent :
    Drainer → Faults → ℕ → Result DrainError (List ℕ) × Table → Result DrainError ℕ × Table
mark_sent d f now (err e, table) = (err e, table)
mark_sent d f now (ok [], table) = (ok 0, table)
mark_sent d f now (ok (i ∷ sent), table) =
    if f.mark_published
    then (err database, table)
    else (ok (length (i ∷ sent)), mark_published now d.owner (i ∷ sent) table)

unfoldable pub publish_claimed :
    Drainer → Faults → Publisher → ℕ → Result DrainError Table × Table → Result DrainError ℕ × Table
unfolding publish_all mark_sent
publish_claimed d f publish now (err e, table) = (err e, table)
publish_claimed d f publish now (ok events, table) =
    mark_sent d f now (publish_all d f publish now events [] table)

abbrev pub is_usable : Drainer → Bool
is_usable d = not (
    str_eq d.owner "" || leb_ℤ d.batch_size (pos 0) || leb_ℤ d.lease (pos 0) || d.max_attempts == 0)

unfoldable pub drain_once :
    Drainer → Faults → Publisher → (ℕ → Bool) → ℕ → Table → Result DrainError ℕ × Table
unfolding claim publish_claimed
drain_once d f publish locked now table =
    if is_usable d
    then publish_claimed d f publish now (claim d f locked now table)
    else (err bad_drainer, table)
