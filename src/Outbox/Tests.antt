-- ===== src/Outbox/Tests.antt =====
-- Tests of the outbox model (pkg/outbox), and its theorems at concrete inputs.
use mathlib.Core.List.{Memᴰ}
use ifritah_go.Prelude.{
  ℕ, ◌*◌, ◌^◌, ◌≤◌, ◌<◌, min, String, str_eq, Text, codes, Bool, true, false, Option, none, some,
  [], ◌∷◌, ◌++◌, ◌≡◌, refl, inl, arith, length, take, ℤ, pos, to_int32, ok, All, if◌then◌else◌,
}
use ifritah_go.Identity.Uuid.{is_lower_uuid, hex_run}
use ifritah_go.Outbox.Table.{pending, in_flight, published, OutboxRow, Table}
use ifritah_go.Outbox.Drain.{
  second, max_backoff, backoff, truncate, rune_start, byte_at, Drainer, Publisher, drain_once,
}
use ifritah_go.Outbox.Backoff.{IsBoundary, backoff_lem, truncate_lem}
use ifritah_go.Outbox.Outcome.{no_faults}
use ifritah_go.Outbox.Keys.{IsKeyed}
use ifritah_go.Outbox.Invariant.{IsConsistent, drain_once-IsConsistent}
use ifritah_go.Outbox.Settled.{drain_once-settled}
use ifritah_go.Outbox.Append.{Event, append, event_row, has_event, IsAppended, append_lem}
use ifritah_go.Outbox.Config.{
  IsConfigured, duration_env, int_env, checked, drainer_from_env, drainer_from_env-IsConfigured,
}

-- A pending row that is due, a row whose lease has run out and a published row.
abbrev due_row : OutboxRow
due_row = record {
  id = 1;
  event_id = "e1";
  document_key = "k1";
  subject = "zatca.bill.a.1";
  payload = "1";
  status = pending;
  attempt_count = 0;
  next_attempt_at = 5 * second;
  lease_owner = none;
  lease_expires_at = none;
  last_error = none;
  published_at = none;
}

abbrev expired_row : OutboxRow
expired_row = record {
  id = 2;
  event_id = "e2";
  document_key = "k2";
  subject = "down";
  payload = "2";
  status = in_flight;
  attempt_count = 1;
  next_attempt_at = 5 * second;
  lease_owner = some "other";
  lease_expires_at = some (8 * second);
  last_error = none;
  published_at = none;
}

abbrev sent_row : OutboxRow
sent_row = record {
  id = 3;
  event_id = "e3";
  document_key = "k3";
  subject = "zatca.bill.a.1";
  payload = "3";
  status = published;
  attempt_count = 1;
  next_attempt_at = 2 * second;
  lease_owner = none;
  lease_expires_at = none;
  last_error = none;
  published_at = some (3 * second);
}

abbrev three_rows : Table
three_rows = due_row ∷ expired_row ∷ sent_row ∷ []

abbrev claimed : Table
claimed = due_row ∷ expired_row ∷ []

abbrev drainer : Drainer
drainer = record { owner = "me"; batch_size = pos 10; lease = pos (60 * second); max_attempts = 5 }

-- A publisher that refuses the subject "down".
abbrev publisher : Publisher
publisher subject payload event_id = if str_eq subject "down" then some (codes "no route") else none

abbrev unlocked : ℕ → Bool
unlocked i = false

three_rows-IsKeyed : IsKeyed three_rows
three_rows-IsKeyed i = ground arith

three_rows-IsConsistent : All IsConsistent three_rows
three_rows-IsConsistent = (ground arith, (ground arith, (ground arith, tt)))

drain_once-IsConsistent_example :
    All IsConsistent (drain_once drainer no_faults publisher unlocked (10 * second) three_rows).1
drain_once-IsConsistent_example =
    drain_once-IsConsistent drainer no_faults publisher unlocked (10 * second) three_rows
      three_rows-IsConsistent

drain_once-settled_example :
    Memᴰ sent_row (drain_once drainer no_faults publisher unlocked (10 * second) three_rows).1
drain_once-settled_example =
    drain_once-settled drainer no_faults publisher unlocked (10 * second) three_rows sent_row
      three_rows-IsKeyed (Memᴰ.tail (Memᴰ.tail (Memᴰ.head refl))) (ground arith) (inl refl)

-- Another drainer, ten seconds later: the rows that the first one took are not free.
abbrev rival : Drainer
rival = record { owner = "rival"; batch_size = pos 10; lease = pos (60 * second); max_attempts = 5 }

abbrev after_claim : Table
after_claim =
    record due_row {
      status = in_flight;
      lease_owner = some "me";
      lease_expires_at = some (70 * second);
      attempt_count = 1;
    }
    ∷ record expired_row {
      lease_owner = some "me";
      lease_expires_at = some (70 * second);
      attempt_count = 2;
    }
    ∷ record sent_row { status = pending; published_at = none; next_attempt_at = 15 * second }
    ∷ []

abbrev pending_rows : Table
pending_rows =
    due_row
    ∷ expired_row
    ∷ record sent_row { status = pending; published_at = none; next_attempt_at = 15 * second }
    ∷ []

abbrev rival_events : Table
rival_events =
    record sent_row { status = pending; published_at = none; next_attempt_at = 15 * second } ∷ []

backoff_lem_example :
    (backoff 4 ≡ min (second * 2 ^ 3) max_backoff)
    × (second ≤ backoff 4)
    × (backoff 4 ≤ max_backoff)
backoff_lem_example = backoff_lem 4

backoff_test : (backoff 4 ≡ 8 * second) × (backoff 20 ≡ max_backoff)
unfolding backoff
backoff_test = (refl, refl)

-- "aé" in UTF-8: the byte at 2 continues a rune, so a cut at 2 falls back to 1.
abbrev two_runes : Text
two_runes = 97 ∷ 195 ∷ 169 ∷ []

truncate_test : truncate two_runes 2 ≡ 97 ∷ []
unfolding truncate
truncate_test = refl

truncate_lem_example :
    let k = length (truncate two_runes 2) in
    (k ≤ 2)
    × (truncate two_runes 2 ≡ take k two_runes)
    × IsBoundary two_runes k
    × ((i : ℕ) → k < i → i ≤ 2 → rune_start (byte_at two_runes i) ≡ false)
truncate_lem_example = truncate_lem two_runes 2 (omega arith)

abbrev event : Event
event = record {
  event_id = "0b1e7c2a-0000-4000-8000-00000000000a";
  document_key = "t:1:bill:4";
  subject = "zatca.bill.a.1";
  payload = "{}";
}

append_test :
    append (λ p. true) false 10 4 event three_rows
    ≡ (ok tt, three_rows ++ (event_row 4 10 event ∷ []))
unfolding append is_lower_uuid hex_run
append_test = refl

append_lem_example :
    let t = three_rows ++ (event_row 4 10 event ∷ []) in
    IsAppended 4 10 event three_rows t
    × All IsConsistent t
    × IsKeyed t
    × (is_lower_uuid (codes event.event_id) ≡ true)
    × (has_event event.event_id three_rows ≡ false)
append_lem_example =
    append_lem (λ p. true) false 10 4 event three_rows append_test three_rows-IsConsistent
      three_rows-IsKeyed refl

abbrev environment : String → String
environment key = if str_eq key "OUTBOX_BATCH_SIZE" then "200" else ""

abbrev parse_200 : String → Option ℤ
parse_200 raw = if str_eq raw "200" then some (pos 200) else none

abbrev configured : Drainer
configured = record {
  owner = "me";
  batch_size = pos 200;
  lease = pos (60 * second);
  max_attempts = 10;
}

drainer_from_env_test :
    drainer_from_env environment parse_200 parse_200 "me" ≡ ok (configured, pos 500000000)
unfolding drainer_from_env duration_env int_env checked to_int32
drainer_from_env_test = refl

drainer_from_env-IsConfigured_example : IsConfigured configured (pos 500000000)
drainer_from_env-IsConfigured_example =
    drainer_from_env-IsConfigured environment parse_200 parse_200 "me" drainer_from_env_test
