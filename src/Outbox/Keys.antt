-- ===== src/Outbox/Keys.antt =====
-- The primary key of the outbox table: how often an id occurs in a table and in a claim.
use mathlib.Core.List.{Memᴰ}
use ifritah_go.Prelude.{
  ℕ, zero, suc, ◌+◌, ◌-◌, ◌≤◌, Bool, true, false, not, ◌&&◌, some, [], ◌∷◌, ◌++◌, ◌≡◌, refl, sym,
  ap, inl, inr, arith, ◌==◌, if◌then◌else◌, take, select, length, pos_part, contains, Bool-cases,
  ==_refl, All,
}
use ifritah_go.Outbox.Table.{
  OutboxRow, Table, is_due, is_expired, expiry_key, precedes, insert_by, order_by, list_due_pending,
  list_expired, ids,
}
use ifritah_go.Outbox.Selection.{claim_batch-rows}
use ifritah_go.Outbox.Drain.{Drainer, Faults, claim_batch}

abbrev pub count_id : ℕ → Table → ℕ
count_id i [] = 0
count_id i (r ∷ table) = (if r.id == i then 1 else 0) + count_id i table

-- The primary key: no id occurs twice.
abbrev pub IsKeyed : Table → Type 0
IsKeyed table = (i : ℕ) → count_id i table ≤ 1

pub count_id-append :
    (i : ℕ) (xs ys : Table) → count_id i (xs ++ ys) ≡ count_id i xs + count_id i ys
count_id-append i [] ys = omega arith
count_id-append i (x ∷ xs) ys = omega (arith, count_id-append i xs ys)

count_id-take : (i n : ℕ) (xs : Table) → count_id i (take n xs) ≤ count_id i xs
count_id-take i zero xs = omega arith
count_id-take i (suc n) [] = omega arith
count_id-take i (suc n) (x ∷ xs) = omega (arith, count_id-take i n xs)

count_id-insert_by :
    (i : ℕ) (key : OutboxRow → ℕ) (r : OutboxRow) (rows : Table)
    → count_id i (insert_by key r rows) ≡ count_id i (r ∷ rows)
unfolding insert_by
count_id-insert_by i key r [] = refl
count_id-insert_by i key r (s ∷ rows) = elim (Bool-cases (precedes key r s)) [
  | inl e ↦ rw e refl
  | inr e ↦ rw e (omega (arith, count_id-insert_by i key r rows))
]

count_id-order_by :
    (i : ℕ) (key : OutboxRow → ℕ) (rows : Table) → count_id i (order_by key rows) ≡ count_id i rows
unfolding order_by
count_id-order_by i key [] = refl
count_id-order_by i key (r ∷ rows) =
    omega (arith, count_id-insert_by i key r (order_by key rows), count_id-order_by i key rows)

-- Two tests that exclude one another select different rows.
count_id-select :
    (i : ℕ) (p q : OutboxRow → Bool) (rows : Table)
    → ((r : OutboxRow) → (p r && q r) ≡ false)
    → count_id i (select p rows) + count_id i (select q rows) ≤ count_id i rows
count_id-select i p q [] h = omega arith
count_id-select i p q (r ∷ rows) h = ground (arith, h r, count_id-select i p q rows h)

due-expired_disjoint :
    (now : ℕ) (l : Bool) (r : OutboxRow)
    → ((is_due now r && not l) && (is_expired now r && not l)) ≡ false
unfolding is_due is_expired
due-expired_disjoint now l r = ground arith

count_id-list_due_pending :
    (i : ℕ) (locked : ℕ → Bool) (now limit : ℕ) (table : Table)
    → count_id i (list_due_pending locked now limit table)
      ≤ count_id i (select (λ r. is_due now r && not (locked r.id)) table)
unfolding list_due_pending
count_id-list_due_pending i locked now limit table =
    let due = select (λ r. is_due now r && not (locked r.id)) table in
    omega (
      arith,
      count_id-take i limit (order_by (λ r. r.next_attempt_at) due),
      count_id-order_by i (λ r. r.next_attempt_at) due,
    )

count_id-list_expired :
    (i : ℕ) (locked : ℕ → Bool) (now limit : ℕ) (table : Table)
    → count_id i (list_expired locked now limit table)
      ≤ count_id i (select (λ r. is_expired now r && not (locked r.id)) table)
unfolding list_expired
count_id-list_expired i locked now limit table =
    let expired = select (λ r. is_expired now r && not (locked r.id)) table in
    omega (
      arith,
      count_id-take i limit (order_by expiry_key expired),
      count_id-order_by i expiry_key expired,
    )

-- A claim takes each id at most as often as the table holds it.
pub claim_batch-count_id :
    (d : Drainer) (f : Faults) (locked : ℕ → Bool) (now i : ℕ) (table : Table) {events : Table}
    → claim_batch d f locked now table ≡ some events
    → count_id i events ≤ count_id i table
claim_batch-count_id d f locked now i table e =
    let due = list_due_pending locked now (pos_part d.batch_size) table in
    let room = pos_part d.batch_size - length due in
    let expired = list_expired locked now room table in
    let split =
      count_id-select i (λ r. is_due now r && not (locked r.id))
        (λ r. is_expired now r && not (locked r.id)) table
        (λ r. due-expired_disjoint now (locked r.id) r) in
    let few_due = count_id-list_due_pending i locked now (pos_part d.batch_size) table in
    let few_expired = count_id-list_expired i locked now room table in
    elim (claim_batch-rows d f locked now table e) [
      | inl p ↦ rw p (omega arith)
      | inr p ↦ rw (p, count_id-append i due expired) (omega arith)
    ]

pub contains-count_id :
    (i : ℕ) (events : Table) → contains (ids events) i ≡ true → 1 ≤ count_id i events
contains-count_id i [] h = cc
contains-count_id i (e ∷ events) h = ground (arith, contains-count_id i events)

mem-count_id : (r : OutboxRow) (table : Table) → Memᴰ r table → 1 ≤ count_id r.id table
mem-count_id r [] m = elim m [ ]
mem-count_id r (x ∷ table) (Memᴰ.head e) =
    ground (arith, ==_refl x.id, ap (λ (o : OutboxRow). o.id) e)
mem-count_id r (x ∷ table) (Memᴰ.tail m) = omega (arith, mem-count_id r table m)

absent_of_count_id :
    (r : OutboxRow) (table : Table) → count_id r.id table ≡ 0 → All (λ e. e.id ≡ r.id → e ≡ r) table
absent_of_count_id r [] h = tt
absent_of_count_id r (x ∷ table) h =
    (λ same. absurd (ground arith), absent_of_count_id r table (omega arith))

-- In a keyed table two rows of one id are one row.
pub row_of_id :
    (r : OutboxRow) (table : Table)
    → count_id r.id table ≤ 1
    → Memᴰ r table
    → All (λ e. e.id ≡ r.id → e ≡ r) table
row_of_id r [] u m = tt
row_of_id r (x ∷ table) u (Memᴰ.head e) = (
  λ same. sym e,
  absent_of_count_id r table (ground (arith, ==_refl x.id, ap (λ (o : OutboxRow). o.id) e)),
)
row_of_id r (x ∷ table) u (Memᴰ.tail m) =
    (λ same. absurd (ground (arith, mem-count_id r table m)), row_of_id r table (omega arith) m)
