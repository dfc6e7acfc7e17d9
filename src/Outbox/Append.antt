-- ===== src/Outbox/Append.antt =====
-- Append of pkg/outbox/outbox.go. Whether a payload is JSON is the argument `json_valid`
-- (encoding/json), and `failing` says whether the insert meets a database error. A second row of one
-- event id is refused by the key uq_outbox_event.
use ifritah_go.Prelude.{
  ℕ, ◌≤◌, String, str_eq, codes, Bool, true, false, not, ◌||◌, none, [], ◌∷◌, ◌++◌, ◌≡◌, refl, inl,
  inr, arith, ◌==◌, if◌then◌else◌, Result, ok, err, Bool-cases, All, All-append,
}
use ifritah_go.Identity.Uuid.{is_lower_uuid}
use ifritah_go.Outbox.Table.{OutboxRow, Table, pending, is_due, round_seconds}
use ifritah_go.Outbox.Invariant.{IsConsistent}
use ifritah_go.Outbox.Keys.{IsKeyed, count_id, count_id-append}

pub record Event : Type 0 where
  pub event_id : String
  pub document_key : String
  pub subject : String
  pub payload : String

pub data AppendError : Type 0 where
  bad_event_id incomplete database : AppendError

unfoldable pub has_event : String → Table → Bool
has_event e [] = false
has_event e (r ∷ table) = str_eq r.event_id e || has_event e table

-- The row that InsertOutboxEvent writes, with the column defaults.
unfoldable pub event_row : ℕ → ℕ → Event → OutboxRow
event_row id now e = record {
  id = id;
  event_id = e.event_id;
  document_key = e.document_key;
  subject = e.subject;
  payload = e.payload;
  status = pending;
  attempt_count = 0;
  next_attempt_at = round_seconds now;
  lease_owner = none;
  lease_expires_at = none;
  last_error = none;
  published_at = none;
}

-- `next` is the id that AUTO_INCREMENT gives.
unfoldable pub append :
    (String → Bool) → Bool → ℕ → ℕ → Event → Table → Result AppendError (Unit {0}) × Table
unfolding has_event
append json_valid failing now next e table =
    if not (is_lower_uuid (codes e.event_id))
    then (err bad_event_id, table)
    else if str_eq e.document_key "" || (str_eq e.subject "" || not (json_valid e.payload))
    then (err incomplete, table)
    else if failing || has_event e.event_id table
    then (err database, table)
    else (ok tt, table ++ (event_row next now e ∷ []))

event_row-IsConsistent : (id now : ℕ) (e : Event) → IsConsistent (event_row id now e)
unfolding event_row
event_row-IsConsistent id now e = ground arith

event_row-id : (id now : ℕ) (e : Event) → (event_row id now e).id ≡ id
unfolding event_row
event_row-id id now e = refl

event_row-is_due :
    (id now later : ℕ) (e : Event)
    → round_seconds now ≤ later
    → is_due later (event_row id now e) ≡ true
unfolding event_row is_due
event_row-is_due id now later e h = ground arith

append-eq_ok :
    (json_valid : String → Bool) (failing : Bool) (now next : ℕ) (e : Event) (table : Table)
    {t : Table}
    → append json_valid failing now next e table ≡ (ok tt, t)
    → (t ≡ table ++ (event_row next now e ∷ []))
      × (is_lower_uuid (codes e.event_id) ≡ true)
      × (has_event e.event_id table ≡ false)
unfolding append
append-eq_ok json_valid failing now next e table h = (ground arith, ground arith, ground arith)

row-IsKeyed :
    (table : Table) (r : OutboxRow)
    → IsKeyed table
    → count_id r.id table ≡ 0
    → IsKeyed (table ++ (r ∷ []))
row-IsKeyed table r keyed fresh i = elim (Bool-cases (r.id == i)) [
  | inl e ↦ ground (arith, count_id-append i table (r ∷ []), keyed i)
  | inr e ↦ ground (arith, count_id-append i table (r ∷ []), keyed i)
]

-- The row of an event: the only new one, waiting, with the event's own texts, and due from the second
-- to which its time is rounded.
pub record IsAppended (next now : ℕ) (e : Event) (table t : Table) : Type 0 where
  pub row : OutboxRow
  pub added : t ≡ table ++ (row ∷ [])
  pub id : row.id ≡ next
  pub event_id : row.event_id ≡ e.event_id
  pub document_key : row.document_key ≡ e.document_key
  pub subject : row.subject ≡ e.subject
  pub payload : row.payload ≡ e.payload
  pub waiting : row.status ≡ pending
  pub attempts : row.attempt_count ≡ 0
  pub due : (later : ℕ) → round_seconds now ≤ later → is_due later row ≡ true

event_row-IsAppended :
    (next now : ℕ) (e : Event) (table : Table)
    → IsAppended next now e table (table ++ (event_row next now e ∷ []))
unfolding event_row
event_row-IsAppended next now e table = record {
  row = event_row next now e;
  added = refl;
  id = refl;
  event_id = refl;
  document_key = refl;
  subject = refl;
  payload = refl;
  waiting = refl;
  attempts = refl;
  due = λ later le. event_row-is_due next now later e le;
}

-- An event that is appended under a fresh id stands at the end of the table in one new row, with that
-- id, the event's own id, document key, subject and payload, and no attempt yet; the event id is a
-- lowercase UUID that no earlier row bears; the row is due from its time, rounded to whole seconds, on,
-- and the table stays consistent with unique ids.
pub append_lem :
    (json_valid : String → Bool) (failing : Bool) (now next : ℕ) (e : Event) (table : Table)
    {t : Table}
    → append json_valid failing now next e table ≡ (ok tt, t)
    → All IsConsistent table
    → IsKeyed table
    → count_id next table ≡ 0
    → IsAppended next now e table t
      × All IsConsistent t
      × IsKeyed t
      × (is_lower_uuid (codes e.event_id) ≡ true)
      × (has_event e.event_id table ≡ false)
append_lem json_valid failing now next e table h consistent keyed fresh =
    let r = event_row next now e in
    let (same, uuid, new) = append-eq_ok json_valid failing now next e table h in
    let id = event_row-id next now e in
    rw same (
      event_row-IsAppended next now e table,
      All-append IsConsistent table (r ∷ []) consistent (event_row-IsConsistent next now e, tt),
      row-IsKeyed table r keyed (rw id fresh),
      uuid,
      new,
    )
