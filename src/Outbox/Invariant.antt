-- ===== src/Outbox/Invariant.antt =====
-- What every row of the outbox satisfies between two statements (pkg/outbox/outbox.go).
use ifritah_go.Prelude.{
  ℕ, String, Text, Bool, true, false, Option, none, some, List, [], ◌∷◌, ◌≡◌, arith, leb, ◌+◌, ◌%◌,
  ◌^◌, Bool-cases, All, inl, inr,
}
use ifritah_go.Outbox.Table.{
  Status, published, OutboxRow, Table, is_in_flight, ids, update_where, lease_row, lease_events,
  publish_row, mark_published, retry_row, mark_retry, bury_row, mark_dead_letter,
}
use ifritah_go.Outbox.Rules.{drain_rule}
use ifritah_go.Outbox.Drain.{Drainer, Faults, Publisher, record_failure, drain_once}

abbrev pub is_some {ℓ} : {A : Type ℓ} → Option A → Bool
is_some none = false
is_some (some _) = true

abbrev pub is_published : Status → Bool
is_published published = true
is_published _ = false

-- A row has a lease exactly while it is in flight, and a published row has its time.
pub record IsConsistent (r : OutboxRow) : Type 0 where
  pub owned : is_some r.lease_owner ≡ is_in_flight r.status
  pub expiring : is_some r.lease_expires_at ≡ is_in_flight r.status
  pub timed : is_published r.status ≡ true → is_some r.published_at ≡ true

module _ {ℓ} (P : OutboxRow → Type ℓ) where
  All-update_where :
      (test : OutboxRow → Bool) (change : OutboxRow → OutboxRow) (table : Table)
      → ((r : OutboxRow) → P r → P (change r))
      → All P table
      → All P (update_where test change table)
  All-update_where test change [] keep h = tt
  All-update_where test change (r ∷ table) keep h =
      let rest = All-update_where test change table keep h.1 in
      elim (Bool-cases (test r)) [ inl e ↦ rw e (keep r h.0, rest) | inr e ↦ rw e (h.0, rest) ]

lease-IsConsistent :
    (leased : List ℕ) (owner : String) (expires : ℕ) (table : Table)
    → All IsConsistent table
    → All IsConsistent (lease_events leased owner expires table)
unfolding lease_events
lease-IsConsistent leased owner expires table h =
    All-update_where IsConsistent _ (lease_row owner expires) table (λ r c. ground arith) h

record_failure-IsConsistent :
    (d : Drainer) (now : ℕ) (ev : OutboxRow) (cause : Text) (table : Table)
    → All IsConsistent table
    → All IsConsistent (record_failure d ev now cause table)
unfolding record_failure mark_dead_letter mark_retry
record_failure-IsConsistent d now ev cause table h =
    elim (Bool-cases (leb d.max_attempts ((ev.attempt_count + 1) % 2 ^ 32))) [
      | inl e ↦ rw e (All-update_where IsConsistent _ (bury_row _) table (λ r c. ground arith) h)
      | inr e ↦ rw e (All-update_where IsConsistent _ (retry_row _ _) table (λ r c. ground arith) h)
    ]

mark_published-IsConsistent :
    (now : ℕ) (owner : String) (sent : List ℕ) (table : Table)
    → All IsConsistent table
    → All IsConsistent (mark_published now owner sent table)
unfolding mark_published
mark_published-IsConsistent now owner sent table h =
    All-update_where IsConsistent _ (publish_row now) table (λ r c. ground arith) h

-- A drain keeps every row consistent, whichever database calls fail and whatever the publisher
-- answers.
pub drain_once-IsConsistent :
    (d : Drainer) (f : Faults) (publish : Publisher) (locked : ℕ → Bool) (now : ℕ) (table : Table)
    → All IsConsistent table
    → All IsConsistent (drain_once d f publish locked now table).1
drain_once-IsConsistent d f publish locked now table h =
    drain_rule (All IsConsistent) d f now publish (record_failure-IsConsistent d now)
      (λ sent t c. mark_published-IsConsistent now d.owner sent t c) locked table h
      (λ events e. lease-IsConsistent (ids events) d.owner _ table h)
