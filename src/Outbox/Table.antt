-- ===== src/Outbox/Table.antt =====
-- The outbox table and the statements of pkg/db/queries/outbox.sql. A table is the list of its rows.
-- Times are nanoseconds from the clock's origin, and a DATETIME column rounds what it stores to whole
-- seconds. The payload stands for its JSON value. created_at and updated_at are written
-- by the database alone and left out.
use ifritah_go.Prelude.{
  ℕ, ◌+◌, ◌*◌, ◌/◌, String, str_eq, Text, Bool, true, false, not, ◌&&◌, ◌||◌, Option, none, some,
  List, [], ◌∷◌, ltb, leb, ◌==◌, if◌then◌else◌, take, select, contains,
}

pub data Status : Type 0 where
  pending in_flight published dead_letter : Status

pub record OutboxRow : Type 0 where
  pub id : ℕ
  pub event_id : String
  pub document_key : String
  pub subject : String
  pub payload : String
  pub status : Status
  pub attempt_count : ℕ
  pub next_attempt_at : ℕ
  pub lease_owner : Option String
  pub lease_expires_at : Option ℕ
  pub last_error : Option Text
  pub published_at : Option ℕ

abbrev pub Table : Type 0
Table = List OutboxRow

abbrev pub is_pending : Status → Bool
is_pending pending = true
is_pending _ = false

abbrev pub is_in_flight : Status → Bool
is_in_flight in_flight = true
is_in_flight _ = false

-- What a DATETIME column keeps of a time: the nearest whole second, a half upwards.
abbrev pub round_seconds : ℕ → ℕ
round_seconds t = (t + 500000000) / 1000000000 * 1000000000

-- `status = 'pending' AND next_attempt_at <= now`
unfoldable pub is_due : ℕ → OutboxRow → Bool
is_due now r = is_pending r.status && leb r.next_attempt_at now

-- A comparison with NULL does not hold.
abbrev pub passed : ℕ → Option ℕ → Bool
passed now none = false
passed now (some t) = leb t now

-- `status = 'in_flight' AND lease_expires_at <= now`
unfoldable pub is_expired : ℕ → OutboxRow → Bool
is_expired now r = is_in_flight r.status && passed now r.lease_expires_at

abbrev pub expiry_key : OutboxRow → ℕ
expiry_key r = elim r.lease_expires_at [ none ↦ 0 | some t ↦ t ]

-- `ORDER BY key, id`
abbrev pub precedes : (OutboxRow → ℕ) → OutboxRow → OutboxRow → Bool
precedes key r s = ltb (key r) (key s) || (key r == key s && leb r.id s.id)

unfoldable pub insert_by : (OutboxRow → ℕ) → OutboxRow → Table → Table
insert_by key r [] = r ∷ []
insert_by key r (s ∷ rows) =
    let rest = insert_by key r rows in if precedes key r s then r ∷ (s ∷ rows) else s ∷ rest

unfoldable pub order_by : (OutboxRow → ℕ) → Table → Table
unfolding insert_by
order_by key [] = []
order_by key (r ∷ rows) = insert_by key r (order_by key rows)

-- `locked` holds the ids that another transaction has locked; SKIP LOCKED passes over them.
unfoldable pub list_due_pending : (ℕ → Bool) → ℕ → ℕ → Table → Table
unfolding is_due order_by
list_due_pending locked now limit table =
    take limit
      (order_by (λ r. r.next_attempt_at) (select (λ r. is_due now r && not (locked r.id)) table))

unfoldable pub list_expired : (ℕ → Bool) → ℕ → ℕ → Table → Table
unfolding is_expired order_by
list_expired locked now limit table =
    take limit (order_by expiry_key (select (λ r. is_expired now r && not (locked r.id)) table))

abbrev pub ids : Table → List ℕ
ids [] = []
ids (r ∷ rows) = r.id ∷ ids rows

-- `UPDATE outbox SET … WHERE …`
abbrev pub update_where : (OutboxRow → Bool) → (OutboxRow → OutboxRow) → Table → Table
update_where test change [] = []
update_where test change (r ∷ rows) =
    (if test r then change r else r) ∷ update_where test change rows

-- `lease_owner = owner`, which does not hold of NULL.
abbrev pub is_owner : String → OutboxRow → Bool
is_owner owner r = elim r.lease_owner [ none ↦ false | some o ↦ str_eq o owner ]

unfoldable pub lease_row : String → ℕ → OutboxRow → OutboxRow
lease_row owner expires r = record r {
  status = in_flight;
  lease_owner = some owner;
  lease_expires_at = some (round_seconds expires);
  attempt_count = r.attempt_count + 1;
}

unfoldable pub lease_events : List ℕ → String → ℕ → Table → Table
unfolding lease_row
lease_events leased owner expires =
    update_where (λ r. contains leased r.id) (lease_row owner expires)

unfoldable pub publish_row : ℕ → OutboxRow → OutboxRow
publish_row now r = record r {
  status = published;
  published_at = some (round_seconds now);
  lease_owner = none;
  lease_expires_at = none;
  last_error = none;
}

unfoldable pub mark_published : ℕ → String → List ℕ → Table → Table
unfolding publish_row
mark_published now owner sent =
    update_where (λ r. is_owner owner r && contains sent r.id) (publish_row now)

unfoldable pub retry_row : ℕ → Text → OutboxRow → OutboxRow
retry_row next cause r = record r {
  status = pending;
  next_attempt_at = round_seconds next;
  last_error = some cause;
  lease_owner = none;
  lease_expires_at = none;
}

unfoldable pub mark_retry : ℕ → String → ℕ → Text → Table → Table
unfolding retry_row
mark_retry id owner next cause =
    update_where (λ r. r.id == id && is_owner owner r) (retry_row next cause)

unfoldable pub bury_row : Text → OutboxRow → OutboxRow
bury_row cause r = record r {
  status = dead_letter;
  last_error = some cause;
  lease_owner = none;
  lease_expires_at = none;
}

unfoldable pub mark_dead_letter : ℕ → String → Text → Table → Table
unfolding bury_row
mark_dead_letter id owner cause =
    update_where (λ r. r.id == id && is_owner owner r) (bury_row cause)
