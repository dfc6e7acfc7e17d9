-- ===== src/Outbox/Exclusion.antt =====
-- Two drainers do not hold one event at the same time, and a settled event is never touched again
-- (claim and the guarded updates of pkg/outbox/outbox.go).
use mathlib.Core.Path.{subst}
use ifritah_go.Prelude.{
  ℕ, ◌+◌, String, ap, ◌∙◌, Bool, true, false, Option, none, some, List, [], ◌∷◌, ◌≡◌, refl, arith,
  if◌then◌else◌, pos_part, contains, ok, err,
}
use ifritah_go.Outbox.Table.{OutboxRow, Table, in_flight, ids, lease_events, round_seconds}
use ifritah_go.Outbox.Drain.{
  Drainer, Faults, Commit, committed, rolled_back, unacknowledged, database, claim_batch,
  lease_claimed, commit_claim, lease_batch, claim,
}

commit_claim-eq_ok :
    (c : Commit) (events old new : Table) {es t : Table}
    → commit_claim c events old new ≡ (ok es, t)
    → (events ≡ es) × (new ≡ t)
commit_claim-eq_ok committed events old new h = ground arith
commit_claim-eq_ok rolled_back events old new h = cc
commit_claim-eq_ok unacknowledged events old new h = cc

lease_none :
    (owner : String) (expires : ℕ) (table : Table) → lease_events [] owner expires table ≡ table
unfolding lease_events
lease_none owner expires [] = refl
lease_none owner expires (r ∷ table) = ap (λ (t : Table). r ∷ t) (lease_none owner expires table)

-- What a claim that returns the rows `es` makes of the table.
abbrev pub leased_table : Drainer → ℕ → Table → Table → Table
leased_table d now table es = lease_events (ids es) d.owner (now + pos_part d.lease) table

unless_failed :
    (failed : Bool) (c : Commit) (events old new : Table) {es t : Table}
    → (if failed then (err database, old) else commit_claim c events old new) ≡ (ok es, t)
    → (events ≡ es) × (new ≡ t)
unless_failed true c events old new h = cc
unless_failed false c events old new h = commit_claim-eq_ok c events old new h

lease_batch-eq_ok :
    (d : Drainer) (f : Faults) (now : ℕ) (events table : Table) {es t : Table}
    → lease_batch d f now events table ≡ (ok es, t)
    → (events ≡ es) × (leased_table d now table es ≡ t)
unfolding lease_batch
lease_batch-eq_ok d f now [] table {es} {t} h =
    let e : [] ≡ es = ground arith in
    let e' : table ≡ t = ground arith in
    (e, subst (λ l. leased_table d now table l ≡ t) e (lease_none d.owner _ table ∙ e'))
lease_batch-eq_ok d f now (e ∷ events) table {es} {t} h =
    let (same, leased) = unless_failed f.lease f.commit (e ∷ events) table _ h in
    (same, subst (λ l. leased_table d now table l ≡ t) same leased)

lease_claimed-eq_ok :
    (d : Drainer) (f : Faults) (now : ℕ) (batch : Option Table) (table : Table) {es t : Table}
    → lease_claimed d f now batch table ≡ (ok es, t)
    → (batch ≡ some es) × (leased_table d now table es ≡ t)
unfolding lease_claimed
lease_claimed-eq_ok d f now none table h = cc
lease_claimed-eq_ok d f now (some events) table h =
    let (same, leased) = lease_batch-eq_ok d f now events table h in (ap some same, leased)

claim_begun-eq_ok :
    (failed : Bool) (d : Drainer) (f : Faults) (now : ℕ) (batch : Option Table) (table : Table)
    {es t : Table}
    → (if failed then (err database, table) else lease_claimed d f now batch table) ≡ (ok es, t)
    → (batch ≡ some es) × (leased_table d now table es ≡ t)
claim_begun-eq_ok true d f now batch table h = cc
claim_begun-eq_ok false d f now batch table h = lease_claimed-eq_ok d f now batch table h

-- What a claim that succeeds has done: it has leased the rows that its reads selected.
pub claim-eq_ok :
    (d : Drainer) (f : Faults) (locked : ℕ → Bool) (now : ℕ) (table : Table) {es t : Table}
    → claim d f locked now table ≡ (ok es, t)
    → (claim_batch d f locked now table ≡ some es) × (leased_table d now table es ≡ t)
unfolding claim
claim-eq_ok d f locked now table h =
    claim_begun-eq_ok f.begin d f now (claim_batch d f locked now table) table h

-- A row that the first claim took is in flight under its lease.
abbrev IsHeld : List ℕ → ℕ → OutboxRow → Type 0
IsHeld taken expires r =
    contains taken r.id ≡ true
    → (r.status ≡ in_flight) × (r.lease_expires_at ≡ some (round_seconds expires))
