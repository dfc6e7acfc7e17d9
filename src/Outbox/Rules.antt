-- ===== src/Outbox/Rules.antt =====
-- Rules for the drain of pkg/outbox/outbox.go: what its statements keep, a whole drain keeps,
-- whichever database calls fail.
use ifritah_go.Prelude.{
  ℕ, ◌+◌, Text, Bool, Option, none, some, List, [], ◌∷◌, ◌++◌, ◌≡◌, refl, Result, ok, err,
  Bool-cases, Option-cases, inl, inr, pos_part,
}
use ifritah_go.Outbox.Table.{OutboxRow, Table, ids, lease_events, mark_published}
use ifritah_go.Outbox.Drain.{
  Drainer, Faults, Commit, committed, rolled_back, unacknowledged, DrainError, Publisher,
  claim_batch, lease_claimed, commit_claim, lease_batch, claim, record_failure, publish_all,
  mark_sent, publish_claimed, is_usable, drain_once,
}

module _ {ℓ} (T : Table → Type ℓ) (d : Drainer) (f : Faults) (now : ℕ) where
  commit_rule :
      (c : Commit) (events old new : Table) → T old → T new → T (commit_claim c events old new).1
  commit_rule committed events old new h k = k
  commit_rule rolled_back events old new h k = h
  commit_rule unacknowledged events old new h k = k

  lease_batch_rule :
      (events table : Table)
      → T table
      → T (lease_events (ids events) d.owner (now + pos_part d.lease) table)
      → T (lease_batch d f now events table).1
  unfolding lease_batch
  lease_batch_rule [] table h k = h
  lease_batch_rule (e ∷ events) table h k = elim (Bool-cases f.lease) [
    | inl p ↦ rw p h
    | inr p ↦ rw p (commit_rule f.commit (e ∷ events) table _ h k)
  ]

  lease_claimed_rule :
      (batch : Option Table) (table : Table)
      → T table
      → ((events : Table)
          → batch ≡ some events
          → T (lease_events (ids events) d.owner (now + pos_part d.lease) table))
      → T (lease_claimed d f now batch table).1
  unfolding lease_claimed
  lease_claimed_rule none table h k = h
  lease_claimed_rule (some events) table h k = lease_batch_rule events table h (k events refl)

  claim_rule :
      (locked : ℕ → Bool) (table : Table)
      → T table
      → ((events : Table)
          → claim_batch d f locked now table ≡ some events
          → T (lease_events (ids events) d.owner (now + pos_part d.lease) table))
      → T (claim d f locked now table).1
  unfolding claim
  claim_rule locked table h k = elim (Bool-cases f.begin) [
    | inl p ↦ rw p h
    | inr p ↦ rw p (lease_claimed_rule (claim_batch d f locked now table) table h k)
  ]

  module _ (publish : Publisher)
      (failing : (ev : OutboxRow) (cause : Text) (t : Table)
        → T t
        → T (record_failure d ev now cause t))
      (marking : (sent : List ℕ) (t : Table) → T t → T (mark_published now d.owner sent t)) where
    publish_all_rule :
        (events : Table) (sent : List ℕ) (table : Table)
        → T table
        → T (publish_all d f publish now events sent table).1
    unfolding publish_all
    publish_all_rule [] sent table h = h
    publish_all_rule (ev ∷ events) sent table h =
        elim (Option-cases (publish ev.subject ev.payload ev.event_id)) [
          | inl e ↦ rw (e, publish_all) (publish_all_rule events (sent ++ (ev.id ∷ [])) table h)
          | inr (cause, e) ↦
              rw (e, publish_all)
                (elim (Bool-cases (f.record_failure ev.id)) [
                  | inl p ↦ rw (p, publish_all) h
                  | inr p ↦
                      rw (p, publish_all)
                        (publish_all_rule events sent (record_failure d ev now cause table)
                          (failing ev cause table h))
                ])
        ]

    mark_sent_rule : (r : Result DrainError (List ℕ) × Table) → T r.1 → T (mark_sent d f now r).1
    unfolding mark_sent
    mark_sent_rule (err e, table) h = h
    mark_sent_rule (ok [], table) h = h
    mark_sent_rule (ok (i ∷ sent), table) h = elim (Bool-cases f.mark_published) [
      | inl p ↦ rw p h
      | inr p ↦ rw p (marking (i ∷ sent) table h)
    ]

    publish_claimed_rule :
        (r : Result DrainError Table × Table) → T r.1 → T (publish_claimed d f publish now r).1
    unfolding publish_claimed
    publish_claimed_rule (err e, table) h = h
    publish_claimed_rule (ok events, table) h =
        mark_sent_rule (publish_all d f publish now events [] table)
          (publish_all_rule events [] table h)

    pub drain_rule :
        (locked : ℕ → Bool) (table : Table)
        → T table
        → ((events : Table)
            → claim_batch d f locked now table ≡ some events
            → T (lease_events (ids events) d.owner (now + pos_part d.lease) table))
        → T (drain_once d f publish locked now table).1
    unfolding drain_once
    drain_rule locked table h k = elim (Bool-cases (is_usable d)) [
      | inl p ↦
          rw p (publish_claimed_rule (claim d f locked now table) (claim_rule locked table h k))
      | inr p ↦ rw p h
    ]
