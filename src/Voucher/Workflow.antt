-- ===== src/Voucher/Workflow.antt =====
-- The requests of pkg/handlers/cash_vouchar.go against one another: a request is checked against the
-- table as it is then, and its write runs later, after any writes of other requests.
use mathlib.Core.List.{Memᴰ}
use mathlib.Core.Path.{subst}
use ifritah_go.Prelude.{
  ℕ, String, Bool, true, false, Option, List, [], ◌∷◌, ◌++◌, ◌≡◌, refl, sym, ◌⊎◌, inl, inr, arith,
  if_rule, ℤ, Bool-cases, if◌then◌else◌,
}
use ifritah_go.Voucher.Table.{
  CashVoucherCreateRequest, Voucher, Table, is_in, update_where, delete_where, edit_voucher,
  approve_voucher, post_voucher,
}
use ifritah_go.Voucher.Handlers.{
  Session, CheckFaults, Checked, proceed, Write, insert, update, delete, approve, post,
  check_create, check_update, check_delete, check_approve, check_post, execute, perform,
}

pub data Request : Type 0 where
  create_request : (String → String) → Bool → Option CashVoucherCreateRequest → Request
  update_request : (String → String) → Option ℕ → Option CashVoucherCreateRequest → Request
  delete_request : Option ℕ → Request
  approve_request : Option ℕ → ℕ → Request
  post_request : Option ℕ → Request

-- The route of a request to its handler, up to the handler's write.
unfoldable pub check : Session → CheckFaults → Request → Table → Checked
check session f (create_request to_lower store_exists body) table =
    check_create to_lower session f store_exists body table
check session f (update_request to_lower param body) table =
    check_update to_lower session f param body table
check session f (delete_request param) table = check_delete session f param table
check session f (approve_request param now) table = check_approve session f param now table
check session f (post_request param) table = check_post session f param table

-- The table, and the writes of the requests that have passed their checks.
pub record System : Type 0 where
  pub table : Table
  pub pending : List Write

-- `Issued id role` says that a session of user `id` carries the claim `role`; a user may hold sessions
-- with different roles, as after a change of role.
pub data Step (Issued : ℤ → String → Type 0) : System → System → Type 0 where
  admit :
      {s : System} {w : Write} (session : Session) (f : CheckFaults) (request : Request)
      → Issued session.id session.role
      → check session f request s.table ≡ proceed w
      → Step Issued s (record s { pending = w ∷ s.pending })
  write :
      {s : System} (before after : List Write) (w : Write) (failing : Bool) (next : ℕ)
      → s.pending ≡ before ++ (w ∷ after)
      → Step Issued s
          (record { table = (perform failing next w s.table).1; pending = before ++ after })

pub data Reach (Issued : ℤ → String → Type 0) (s : System) : System → Type 0 where
  here : Reach Issued s s
  then_step : {t u : System} → Reach Issued s t → Step Issued t u → Reach Issued s u

-- What a step may make of a voucher of the table s in the table t: an edge of the diagram draft,
-- approved, posted, or none. A removal takes the voucher out and puts nothing in.
pub data Fate (v : Voucher) (s t : Table) : Type 0 where
  kept : Memᴰ v t → Fate v s t
  edited : (req : CashVoucherCreateRequest) → v.state ≡ 0 → Memᴰ (edit_voucher req v) t → Fate v s t
  removed : v.state ≡ 0 → (Memᴰ v t → ⊥) → ((w : Voucher) → Memᴰ w t → Memᴰ w s) → Fate v s t
  approved : (now : ℕ) (user : ℤ) → v.state ≡ 0 → Memᴰ (approve_voucher user now v) t → Fate v s t
  posted : v.state ≡ 1 → Memᴰ (post_voucher v) t → Fate v s t

-- An update leaves a row, or it passes the test and is changed.
update_where-mem :
    (v : Voucher) (test : Voucher → Bool) (change : Voucher → Voucher) (table : Table)
    → Memᴰ v table
    → Memᴰ v (update_where test change table)
      ⊎ ((test v ≡ true) × Memᴰ (change v) (update_where test change table))
update_where-mem v test change [] m = elim m [ ]
update_where-mem v test change (x ∷ table) (Memᴰ.head e) = elim (Bool-cases (test x)) [
  | inl hit ↦ inr (
    subst (λ y. test y ≡ true) (sym e) hit,
    Memᴰ.head (rw hit (subst (λ y. change v ≡ change y) e refl)),
  )
  | inr miss ↦ inl (Memᴰ.head (rw miss e))
]
update_where-mem v test change (x ∷ table) (Memᴰ.tail m) =
    elim (update_where-mem v test change table m) [
      | inl k ↦ inl (Memᴰ.tail k)
      | inr (hit, k) ↦ inr (hit, Memᴰ.tail k)
    ]

delete_where-mem :
    (v : Voucher) (test : Voucher → Bool) (table : Table)
    → Memᴰ v table
    → Memᴰ v (delete_where test table) ⊎ (test v ≡ true)
delete_where-mem v test [] m = elim m [ ]
delete_where-mem v test (x ∷ table) (Memᴰ.head e) = elim (Bool-cases (test x)) [
  | inl hit ↦ inr (subst (λ y. test y ≡ true) (sym e) hit)
  | inr miss ↦ inl (rw miss (Memᴰ.head e))
]
delete_where-mem v test (x ∷ table) (Memᴰ.tail m) = elim (delete_where-mem v test table m) [
  | inl k ↦ inl (if_rule (Memᴰ v) (test x) _ _ k (Memᴰ.tail k))
  | inr hit ↦ inr hit
]

kept_or_gone :
    (w x : Voucher) (b : Bool) (rest : Table)
    → Memᴰ w (if b then rest else x ∷ rest)
    → Memᴰ w rest ⊎ ((b ≡ false) × (w ≡ x))
kept_or_gone w x true rest m = inl m
kept_or_gone w x false rest (Memᴰ.head e) = inr (refl, e)
kept_or_gone w x false rest (Memᴰ.tail m) = inl m

-- A row that passes the test is no longer there.
deleted_out :
    (v : Voucher) (test : Voucher → Bool) (table : Table)
    → test v ≡ true
    → Memᴰ v (delete_where test table)
    → ⊥
deleted_out v test [] hit m = elim m [ ]
deleted_out v test (x ∷ table) hit m =
    elim (kept_or_gone v x (test x) (delete_where test table) m) [
      | inl k ↦ deleted_out v test table hit k
      | inr (miss, e) ↦ cc
    ]

-- What is left was there.
delete_where-part :
    (w : Voucher) (test : Voucher → Bool) (table : Table)
    → Memᴰ w (delete_where test table)
    → Memᴰ w table
delete_where-part w test [] m = elim m [ ]
delete_where-part w test (x ∷ table) m =
    elim (kept_or_gone w x (test x) (delete_where test table) m) [
      | inl k ↦ Memᴰ.tail (delete_where-part w test table k)
      | inr (miss, e) ↦ Memᴰ.head e
    ]

append-mem : (v : Voucher) (xs ys : Table) → Memᴰ v xs → Memᴰ v (xs ++ ys)
append-mem v [] ys m = elim m [ ]
append-mem v (x ∷ xs) ys (Memᴰ.head e) = Memᴰ.head e
append-mem v (x ∷ xs) ys (Memᴰ.tail m) = Memᴰ.tail (append-mem v xs ys m)

in_state-lem :
    (id : ℕ) (merchant : ℤ) (state : ℕ) (v : Voucher)
    → is_in id merchant state v ≡ true
    → v.state ≡ state
in_state-lem id merchant state v h = ground arith

execute-Fate :
    (next : ℕ) (w : Write) (v : Voucher) (table : Table)
    → Memᴰ v table
    → Fate v table (execute next w table)
unfolding execute
execute-Fate next (insert number merchant req) v table m = kept (append-mem v table _ m)
execute-Fate next (update id merchant req) v table m =
    elim (update_where-mem v (is_in id merchant 0) (edit_voucher req) table m) [
      | inl k ↦ kept k
      | inr (hit, k) ↦ edited req (in_state-lem id merchant 0 v hit) k
    ]
execute-Fate next (delete id merchant) v table m =
    elim (delete_where-mem v (is_in id merchant 0) table m) [
      | inl k ↦ kept k
      | inr hit ↦
          removed (in_state-lem id merchant 0 v hit) (deleted_out v (is_in id merchant 0) table hit)
            (λ w. delete_where-part w (is_in id merchant 0) table)
    ]
execute-Fate next (approve id merchant user now) v table m =
    elim (update_where-mem v (is_in id merchant 0) (approve_voucher user now) table m) [
      | inl k ↦ kept k
      | inr (hit, k) ↦ approved now user (in_state-lem id merchant 0 v hit) k
    ]
execute-Fate next (post id merchant) v table m =
    elim (update_where-mem v (is_in id merchant 1) post_voucher table m) [
      | inl k ↦ kept k
      | inr (hit, k) ↦ posted (in_state-lem id merchant 1 v hit) k
    ]

perform-Fate :
    (failing : Bool) (next : ℕ) (w : Write) (v : Voucher) (table : Table)
    → Memᴰ v table
    → Fate v table (perform failing next w table).1
unfolding perform
perform-Fate true next w v table m = kept m
perform-Fate false next w v table m = execute-Fate next w v table m

pub Step-Fate :
    (Issued : ℤ → String → Type 0) (v : Voucher) {s t : System}
    → Step Issued s t
    → Memᴰ v s.table
    → Fate v s.table t.table
Step-Fate Issued v (admit session f request role e) m = kept m
Step-Fate Issued v {s} (write before after w failing next e) m =
    perform-Fate failing next w v s.table m

posted_kept : (v : Voucher) (s t : Table) → v.state ≡ 2 → Fate v s t → Memᴰ v t
posted_kept v s t h (kept m) = m
posted_kept v s t h (edited req e m) = absurd (omega arith)
posted_kept v s t h (removed e out part) = absurd (omega arith)
posted_kept v s t h (approved now user e m) = absurd (omega arith)
posted_kept v s t h (posted e m) = absurd (omega arith)

-- A posted voucher stays as it is, field by field, whatever of the five requests on vouchers follow and
-- however they overlap.
pub Reach-posted :
    (Issued : ℤ → String → Type 0) (v : Voucher) {s t : System}
    → Reach Issued s t
    → Memᴰ v s.table
    → v.state ≡ 2
    → Memᴰ v t.table
Reach-posted Issued v here m h = m
Reach-posted Issued v (then_step {t} {u} r st) m h =
    posted_kept v t.table u.table h (Step-Fate Issued v st (Reach-posted Issued v r m h))
