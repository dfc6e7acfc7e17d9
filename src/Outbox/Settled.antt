-- ===== src/Outbox/Settled.antt =====
-- A row that is published or dead stays as it is (the claims and guarded updates of
-- pkg/outbox/outbox.go).
use mathlib.Core.List.{Memᴰ}
use mathlib.Core.Path.{subst}
use ifritah_go.Prelude.{
  ℕ, ◌+◌, ◌%◌, ◌^◌, Text, Bool, false, ◌&&◌, List, [], ◌∷◌, ◌≡◌, refl, ◌⊎◌, inl, inr, arith, String,
  ◌==◌, ==_iff, leb, contains, Bool-cases, All,
}
use ifritah_go.Outbox.Table.{
  OutboxRow, Table, published, dead_letter, is_due, is_expired, is_owner, ids, update_where,
  bury_row, retry_row, publish_row, lease_row, lease_events, mark_published, mark_retry,
  mark_dead_letter,
}
use ifritah_go.Outbox.Drain.{Drainer, Faults, Publisher, record_failure, drain_once}
use ifritah_go.Outbox.Selection.{IsClaimable, claim_batch-IsClaimable, claim_batch-All_of_table}
use ifritah_go.Outbox.Rules.{drain_rule}
use ifritah_go.Outbox.Keys.{IsKeyed, row_of_id}
use ifritah_go.Outbox.Invariant.{IsConsistent}

update_where-mem :
    (r : OutboxRow) (test : OutboxRow → Bool) (change : OutboxRow → OutboxRow) (table : Table)
    → test r ≡ false
    → Memᴰ r table
    → Memᴰ r (update_where test change table)
update_where-mem r test change [] h m = elim m [ ]
update_where-mem r test change (x ∷ table) h (Memᴰ.head e) =
    Memᴰ.head (rw (subst (λ y. test y ≡ false) e h) e)
update_where-mem r test change (x ∷ table) h (Memᴰ.tail m) =
    Memᴰ.tail (update_where-mem r test change table h m)

abbrev pub IsSettled : OutboxRow → Type 0
IsSettled r = (r.status ≡ published) ⊎ (r.status ≡ dead_letter)

settled-unowned :
    (r : OutboxRow) (owner : String) → IsConsistent r → IsSettled r → is_owner owner r ≡ false
settled-unowned r owner c s = ground arith

settled-not-IsClaimable : (r : OutboxRow) (now : ℕ) → IsSettled r → ¬ (IsClaimable now r)
unfolding is_due is_expired
settled-not-IsClaimable r now s h = ground arith

-- An id is in a claim only if the row that bears it is.
not_taken :
    (r : OutboxRow) (now : ℕ) (events : Table)
    → ¬ (IsClaimable now r)
    → All (λ e. e.id ≡ r.id → e ≡ r) events
    → All (IsClaimable now) events
    → contains (ids events) r.id ≡ false
not_taken r now [] n same c = refl
not_taken r now (e ∷ events) n same c = elim (Bool-cases (e.id == r.id)) [
  | inl p ↦ absurd (n (subst (IsClaimable now) (same.0 ((==_iff e.id r.id).0 p)) c.0))
  | inr p ↦ rw p (not_taken r now events n same.1 c.1)
]

record_failure-mem :
    (r : OutboxRow) (d : Drainer) (now : ℕ) (ev : OutboxRow) (cause : Text) (table : Table)
    → is_owner d.owner r ≡ false
    → Memᴰ r table
    → Memᴰ r (record_failure d ev now cause table)
unfolding record_failure mark_retry mark_dead_letter
record_failure-mem r d now ev cause table h m =
    elim (Bool-cases (leb d.max_attempts ((ev.attempt_count + 1) % 2 ^ 32))) [
      | inl e ↦ rw e (
          update_where-mem r (λ x. x.id == ev.id && is_owner d.owner x) (bury_row _) table
            (ground arith) m)
      | inr e ↦ rw e (
          update_where-mem r (λ x. x.id == ev.id && is_owner d.owner x) (retry_row _ _) table
            (ground arith) m)
    ]

mark_published-mem :
    (r : OutboxRow) (now : ℕ) (owner : String) (sent : List ℕ) (table : Table)
    → is_owner owner r ≡ false
    → Memᴰ r table
    → Memᴰ r (mark_published now owner sent table)
unfolding mark_published
mark_published-mem r now owner sent table h m =
    update_where-mem r (λ x. is_owner owner x && contains sent x.id) (publish_row now) table
      (ground arith) m

lease_events-mem :
    (r : OutboxRow) (taken : List ℕ) (owner : String) (expires : ℕ) (table : Table)
    → contains taken r.id ≡ false
    → Memᴰ r table
    → Memᴰ r (lease_events taken owner expires table)
unfolding lease_events
lease_events-mem r taken owner expires table h m =
    update_where-mem r (λ x. contains taken x.id) (lease_row owner expires) table h m

-- In a table whose ids are unique, a consistent row that is published or dead is still there,
-- unchanged, after any drain, whichever database calls fail and whatever the publisher answers.
pub drain_once-settled :
    (d : Drainer) (f : Faults) (publish : Publisher) (locked : ℕ → Bool) (now : ℕ) (table : Table)
    (r : OutboxRow)
    → IsKeyed table
    → Memᴰ r table
    → IsConsistent r
    → IsSettled r
    → Memᴰ r (drain_once d f publish locked now table).1
drain_once-settled d f publish locked now table r keyed m c s =
    let unowned = settled-unowned r d.owner c s in
    drain_rule (Memᴰ r) d f now publish
      (λ ev cause t h. record_failure-mem r d now ev cause t unowned h)
      (λ sent t h. mark_published-mem r now d.owner sent t unowned h) locked table m
      (λ events e.
        lease_events-mem r (ids events) d.owner _ table
          (not_taken r now events (settled-not-IsClaimable r now s)
            (claim_batch-All_of_table (λ o. o.id ≡ r.id → o ≡ r) d f locked now table e
              (row_of_id r table (keyed r.id) m))
            (claim_batch-IsClaimable d f locked now table e))
          m)
