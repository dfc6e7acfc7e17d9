-- ===== src/Outbox/Outcome.antt =====
-- A drain that meets no database error, row by row (DrainOnce of pkg/outbox/outbox.go).
use mathlib.Core.List.{append-nil, append_assoc, map-map, map-id}
use mathlib.Core.Path.{fun_ext, ap₂}
use ifritah_go.Prelude.{
  ℕ, ◌+◌, ◌%◌, ◌^◌, Text, Bool, true, false, ◌&&◌, Option, none, some, List, [], ◌∷◌, ◌++◌, ◌≡◌,
  refl, sym, ap, ◌∙◌, inl, inr, leb, ◌==◌, if◌then◌else◌, pos_part, contains, map, ok, Bool-cases,
  Option-cases, All,
}
use ifritah_go.Outbox.Table.{
  OutboxRow, Table, is_owner, ids, update_where, lease_row, publish_row, retry_row, mark_retry,
  bury_row, mark_dead_letter,
}
use ifritah_go.Outbox.Drain.{
  Drainer, Faults, committed, Publisher, max_error_len, backoff, truncate, record_failure,
  publish_all,
}

-- No database call fails.
abbrev pub no_faults : Faults
no_faults = record {
  begin = false;
  list_due = false;
  list_expired = false;
  lease = false;
  commit = committed;
  record_failure = λ i. false;
  mark_published = false;
}

abbrev pub answer : Publisher → OutboxRow → Option Text
answer publish r = publish r.subject r.payload r.event_id

abbrev pub is_none {ℓ} : {A : Type ℓ} → Option A → Bool
is_none none = true
is_none (some _) = false

-- What a failed publish makes of a leased row: dead after the last allowed attempt, else due again
-- after the delay. `seen` is the row as it was claimed.
abbrev pub failed_row : Drainer → ℕ → OutboxRow → Text → OutboxRow → OutboxRow
failed_row d now seen cause r =
    let attempt = (seen.attempt_count + 1) % 2 ^ 32 in
    if leb d.max_attempts attempt
    then bury_row (truncate cause max_error_len) r
    else retry_row (now + backoff attempt) (truncate cause max_error_len) r

-- What the publisher's answer makes of a leased row.
abbrev pub after_answer : Drainer → ℕ → OutboxRow → Option Text → OutboxRow → OutboxRow
after_answer d now seen none r = publish_row now r
after_answer d now seen (some cause) r = failed_row d now seen cause r

-- What a drain makes of a row that it claimed.
abbrev pub outcome : Drainer → Publisher → ℕ → OutboxRow → OutboxRow
outcome d publish now r =
    after_answer d now r (answer publish r) (lease_row d.owner (now + pos_part d.lease) r)

abbrev pub settle : Drainer → Publisher → ℕ → Table → OutboxRow → OutboxRow
settle d publish now events r = if contains (ids events) r.id then outcome d publish now r else r

-- The ids of the events that the publisher takes.
abbrev pub sent_of : Publisher → Table → List ℕ
sent_of publish [] = []
sent_of publish (e ∷ events) =
    let rest = sent_of publish events in if is_none (answer publish e) then e.id ∷ rest else rest

-- The loop of DrainOnce, seen from one row.
abbrev pub fail_one : Drainer → ℕ → OutboxRow → Text → OutboxRow → OutboxRow
fail_one d now ev cause r =
    if r.id == ev.id && is_owner d.owner r then failed_row d now ev cause r else r

abbrev pub fail_all : Drainer → Publisher → ℕ → Table → OutboxRow → OutboxRow
fail_all d publish now [] r = r
fail_all d publish now (e ∷ events) r =
    fail_all d publish now events
      (elim (answer publish e) [ none ↦ r | some cause ↦ fail_one d now e cause r ])

map-pointwise :
    (f g : OutboxRow → OutboxRow) (table : Table)
    → ((r : OutboxRow) → f r ≡ g r)
    → map f table ≡ map g table
map-pointwise f g table h = ap (λ k. map k table) (fun_ext h)

pub map-All :
    (f g : OutboxRow → OutboxRow) (table : Table)
    → All (λ r. f r ≡ g r) table
    → map f table ≡ map g table
map-All f g [] h = refl
map-All f g (r ∷ table) h = ap₂ (λ (o : OutboxRow) (t : Table). o ∷ t) h.0 (map-All f g table h.1)

pub update_where-map :
    (test : OutboxRow → Bool) (change : OutboxRow → OutboxRow) (table : Table)
    → update_where test change table ≡ map (λ r. if test r then change r else r) table
update_where-map test change [] = refl
update_where-map test change (r ∷ table) = rw (update_where-map test change table)

record_failure-map :
    (d : Drainer) (ev : OutboxRow) (now : ℕ) (cause : Text) (table : Table)
    → record_failure d ev now cause table ≡ map (fail_one d now ev cause) table
unfolding record_failure mark_dead_letter mark_retry
record_failure-map d ev now cause table =
    elim (Bool-cases (leb d.max_attempts ((ev.attempt_count + 1) % 2 ^ 32))) [
      | inl e ↦ rw e (
          update_where-map _ (bury_row (truncate cause max_error_len)) table
          ∙ map-pointwise _ _ table (λ r. rw e))
      | inr e ↦ rw e (
          update_where-map _
            (retry_row (now + backoff ((ev.attempt_count + 1) % 2 ^ 32))
              (truncate cause max_error_len))
            table
          ∙ map-pointwise _ _ table (λ r. rw e))
    ]

pub publish_all-map :
    (d : Drainer) (publish : Publisher) (now : ℕ) (events : Table) (sent : List ℕ) (table : Table)
    → publish_all d no_faults publish now events sent table
      ≡ (ok (sent ++ sent_of publish events), map (fail_all d publish now events) table)
unfolding publish_all
publish_all-map d publish now [] sent table =
    ap₂ (λ (l : List ℕ) (t : Table). (ok l, t)) (sym (append-nil sent)) (sym (map-id table))
publish_all-map d publish now (e ∷ events) sent table = elim (Option-cases (answer publish e)) [
  | inl p ↦
      rw (p, publish_all)
        (publish_all-map d publish now events (sent ++ (e.id ∷ [])) table
          ∙ ap₂ (λ (l : List ℕ) (t : Table). (ok l, t))
              (append_assoc sent (e.id ∷ []) (sent_of publish events))
              (map-pointwise _ _ table (λ r. rw p)))
  | inr (cause, p) ↦
      rw (p, publish_all)
        (publish_all-map d publish now events sent (record_failure d e now cause table)
          ∙ ap (λ (t : Table). (ok (sent ++ sent_of publish events), t))
              (ap (map (fail_all d publish now events)) (record_failure-map d e now cause table)
                ∙ map-map _ _ table
                ∙ map-pointwise _ _ table (λ r. rw p)))
]
