-- ===== src/Outbox/Drained.antt =====
-- What one drain does when no database call fails (DrainOnce of pkg/outbox/outbox.go).
use ifritah_go.Prelude.{
  ℕ, ◌+◌, Text, false, ◌&&◌, Option, none, some, List, [], ◌∷◌, ◌≡◌, refl, arith, if◌then◌else◌,
  pos_part, contains,
}
use ifritah_go.Outbox.Table.{OutboxRow, Table, is_owner, ids, lease_row, publish_row}
use ifritah_go.Outbox.Drain.{Drainer, Publisher}
use ifritah_go.Outbox.Keys.{count_id}
use ifritah_go.Outbox.Outcome.{answer, is_none, sent_of, fail_one, fail_all}

absent_not_taken :
    (i : ℕ) (events : Table) → count_id i events ≡ 0 → contains (ids events) i ≡ false
absent_not_taken i [] h = refl
absent_not_taken i (e ∷ events) h = ground (arith, absent_not_taken i events)

module _ (d : Drainer) (publish : Publisher) (now : ℕ) where
  -- What the loop does to a row `x` whose own event is `r`.
  abbrev own_event : OutboxRow → Option Text → OutboxRow → OutboxRow
  own_event r none x = x
  own_event r (some cause) x = fail_one d now r cause x

  abbrev OwnOnly : Table → OutboxRow → OutboxRow → Type 0
  OwnOnly events r x =
      (fail_all d publish now events x ≡ own_event r (answer publish r) x)
      × (contains (sent_of publish events) r.id ≡ is_none (answer publish r))

  -- The statements of a drain, seen from one row.
  abbrev row_step : Table → OutboxRow → OutboxRow
  row_step events r =
      let leased =
        if contains (ids events) r.id then lease_row d.owner (now + pos_part d.lease) r else r in
      let failed = fail_all d publish now events leased in
      if is_owner d.owner failed && contains (sent_of publish events) failed.id
      then publish_row now failed
      else failed

  abbrev mark_step : List ℕ → OutboxRow → OutboxRow
  mark_step sent y = if is_owner d.owner y && contains sent y.id then publish_row now y else y
