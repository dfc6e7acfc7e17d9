-- ===== src/Outbox/Selection.antt =====
-- Which rows a claim selects (the reads of Outbox/Table.antt and claim of pkg/outbox/outbox.go).
use mathlib.Core.Path.{subst}
use ifritah_go.Prelude.{
  ℕ, ◌-◌, Bool, true, not, ◌&&◌, ◌||◌, some, [], ◌∷◌, ◌++◌, ◌≡◌, sym, ◌⊎◌, inl, inr, arith, select,
  length, pos_part, Bool-cases, All, All-take, All-append, All-select, All-map, select_sound,
}
use ifritah_go.Outbox.Table.{
  OutboxRow, Table, is_due, is_expired, expiry_key, precedes, insert_by, order_by, list_due_pending,
  list_expired,
}
use ifritah_go.Outbox.Drain.{Drainer, Faults, claim_batch}

-- A claim is the due rows, with expired ones behind them where there is room.
pub claim_batch-rows :
    (d : Drainer) (f : Faults) (locked : ℕ → Bool) (now : ℕ) (table : Table) {events : Table}
    → claim_batch d f locked now table ≡ some events
    → let batch = pos_part d.batch_size in
      let due = list_due_pending locked now batch table in
      (events ≡ due) ⊎ (events ≡ due ++ list_expired locked now (batch - length due) table)
unfolding claim_batch
claim_batch-rows d f locked now table e = ground arith

module _ {ℓ} (P : OutboxRow → Type ℓ) where
  All-insert_by :
      (key : OutboxRow → ℕ) (r : OutboxRow) (rows : Table)
      → P r
      → All P rows
      → All P (insert_by key r rows)
  unfolding insert_by
  All-insert_by key r [] p h = (p, tt)
  All-insert_by key r (s ∷ rows) p h = elim (Bool-cases (precedes key r s)) [
    | inl e ↦ rw e (p, h)
    | inr e ↦ rw e (h.0, All-insert_by key r rows p h.1)
  ]

  pub All-order_by : (key : OutboxRow → ℕ) (rows : Table) → All P rows → All P (order_by key rows)
  unfolding order_by
  All-order_by key [] h = tt
  All-order_by key (r ∷ rows) h =
      All-insert_by key r (order_by key rows) h.0 (All-order_by key rows h.1)

  -- Both reads return rows of the table, in some order.
  pub All-list_due_pending :
      (locked : ℕ → Bool) (now limit : ℕ) (table : Table)
      → All P (select (λ r. is_due now r && not (locked r.id)) table)
      → All P (list_due_pending locked now limit table)
  unfolding list_due_pending
  All-list_due_pending locked now limit table h =
      All-take P limit _ (All-order_by (λ r. r.next_attempt_at) _ h)

  pub All-list_expired :
      (locked : ℕ → Bool) (now limit : ℕ) (table : Table)
      → All P (select (λ r. is_expired now r && not (locked r.id)) table)
      → All P (list_expired locked now limit table)
  unfolding list_expired
  All-list_expired locked now limit table h = All-take P limit _ (All-order_by expiry_key _ h)

  claim_batch-All :
      (d : Drainer) (f : Faults) (locked : ℕ → Bool) (now : ℕ) (table : Table) {events : Table}
      → claim_batch d f locked now table ≡ some events
      → ((room : ℕ) → All P (list_due_pending locked now room table))
      → ((room : ℕ) → All P (list_expired locked now room table))
      → All P events
  claim_batch-All d f locked now table e due expired =
      elim (claim_batch-rows d f locked now table e) [
        | inl p ↦ subst (All P) (sym p) (due _)
        | inr p ↦ subst (All P) (sym p) (All-append P _ _ (due _) (expired _))
      ]

  -- What holds of every row holds of every claimed event.
  pub claim_batch-All_of_table :
      (d : Drainer) (f : Faults) (locked : ℕ → Bool) (now : ℕ) (table : Table) {events : Table}
      → claim_batch d f locked now table ≡ some events
      → All P table
      → All P events
  claim_batch-All_of_table d f locked now table e h =
      claim_batch-All d f locked now table e
        (λ room. All-list_due_pending locked now room table (All-select P _ table h))
        (λ room. All-list_expired locked now room table (All-select P _ table h))

-- A claimed event was due, or its lease had expired.
abbrev pub IsClaimable : ℕ → OutboxRow → Type 0
IsClaimable now r = (is_due now r || is_expired now r) ≡ true

due→IsClaimable :
    (now : ℕ) (l : Bool) (r : OutboxRow) → (is_due now r && not l) ≡ true → IsClaimable now r
due→IsClaimable now l r h = ground arith

expired→IsClaimable :
    (now : ℕ) (l : Bool) (r : OutboxRow) → (is_expired now r && not l) ≡ true → IsClaimable now r
expired→IsClaimable now l r h = ground arith

pub claim_batch-IsClaimable :
    (d : Drainer) (f : Faults) (locked : ℕ → Bool) (now : ℕ) (table : Table) {events : Table}
    → claim_batch d f locked now table ≡ some events
    → All (IsClaimable now) events
claim_batch-IsClaimable d f locked now table e =
    claim_batch-All (IsClaimable now) d f locked now table e
      (λ room.
        All-list_due_pending (IsClaimable now) locked now room table
          (All-map _ _ _ (λ r. due→IsClaimable now (locked r.id) r) (select_sound _ table)))
      (λ room.
        All-list_expired (IsClaimable now) locked now room table
          (All-map _ _ _ (λ r. expired→IsClaimable now (locked r.id) r) (select_sound _ table)))
