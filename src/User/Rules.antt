-- ===== src/User/Rules.antt =====
-- What a request may do to the table user, and the rules of the table that this keeps.
use mathlib.Core.Path.{subst}
use ifritah_go.Prelude.{
  ◌≤◌, ◌+◌, String, true, false, none, some, List, [], ◌∷◌, ◌≡◌, refl, sym, ◌∙◌, inl, inr, arith, ℤ,
  pos, ltb_ℤ, eq_ℤ, eq_ℤ-sound, Bool-cases, ltb, All, All-map, AreDistinct, count_rows, update_rows,
  find_row, map, map-update_rows, All-of_map, All-to_map, count_rows_zero, update_rows_absent,
  All-update_rows,
}
use ifritah_go.User.Table.{User, Db, Services, has_id, is_named, is_active_admin}
use ifritah_go.User.Accounts.{is_allowed_role}

abbrev pub id_of : User → ℤ
id_of u = u.id

abbrev pub name_of : User → String
name_of u = u.username

-- The ids and the names of the users differ, the next id is above all, each role is in the list, and a
-- user who is an active admin is there.
pub record IsGuarded (s : Services) (db : Db) : Type 0 where
  pub ids : AreDistinct eq_ℤ (map id_of db.users)
  pub below : All (λ id. ltb_ℤ id (pos db.next_user) ≡ true) (map id_of db.users)
  pub names : AreDistinct s.same_text (map name_of db.users)
  pub roles : All (λ u. is_allowed_role u.role ≡ true) db.users
  pub admin : 1 ≤ count_rows is_active_admin db.users

-- Why the change of the row of an id leaves an active admin.
pub data LeavesAdmin (id : ℤ) (change : User → User) (users : List User) : Type 0 where
  same_admins :
      ((u : User) → is_active_admin u ≡ true → is_active_admin (change u) ≡ true)
      → LeavesAdmin id change users
  other_admin : 2 ≤ count_rows is_active_admin users → LeavesAdmin id change users
  no_row : find_row (has_id id) users ≡ none → LeavesAdmin id change users
  no_admin :
      (u : User)
      → find_row (has_id id) users ≡ some u
      → is_active_admin u ≡ false
      → LeavesAdmin id change users

pub data Becomes (s : Services) (db : Db) (after : Db) : Type 0 where
  kept : after.users ≡ db.users → after.next_user ≡ db.next_user → Becomes s db after
  inserted :
      (u : User)
      → u.id ≡ pos db.next_user
      → is_allowed_role u.role ≡ true
      → ltb 0 (count_rows (is_named s u.username) db.users) ≡ false
      → after.users ≡ u ∷ db.users
      → after.next_user ≡ 1 + db.next_user
      → Becomes s db after
  changed :
      (id : ℤ) (change : User → User)
      → ((u : User) → (change u).id ≡ u.id)
      → ((u : User) → (change u).username ≡ u.username)
      → ((u : User) → is_allowed_role u.role ≡ true → is_allowed_role (change u).role ≡ true)
      → LeavesAdmin id change db.users
      → after.users ≡ update_rows (has_id id) change db.users
      → after.next_user ≡ db.next_user
      → Becomes s db after

-- The rows behind one with the id have other ids.
others_absent :
    (id : ℤ) (x : User) (xs : List User)
    → has_id id x ≡ true
    → All (λ k. eq_ℤ k x.id ≡ false) (map id_of xs)
    → All (λ u. has_id id u ≡ false) xs
others_absent id x xs hit h =
    All-of_map id_of (λ k. eq_ℤ k id ≡ false) xs
      (subst (λ i. All (λ k. eq_ℤ k i ≡ false) (map id_of xs)) (eq_ℤ-sound x.id id hit) h)

module _ (id : ℤ) (change : User → User) where
  -- One row changes, so the count goes down by one at most.
  count_down :
      (xs : List User)
      → AreDistinct eq_ℤ (map id_of xs)
      → count_rows is_active_admin xs
        ≤ 1 + count_rows is_active_admin (update_rows (has_id id) change xs)
  count_down [] d = omega arith
  count_down (x ∷ xs) d = elim (Bool-cases (has_id id x)) [
    | inl hit ↦
        rw (hit, update_rows_absent (has_id id) change xs (others_absent id x xs hit d.0))
          (ground arith)
    | inr miss ↦ rw miss (omega (arith, count_down xs d.1))
  ]

  -- The row of an id that is not the one of an active admin.
  count_kept :
      (xs : List User) (u : User)
      → AreDistinct eq_ℤ (map id_of xs)
      → find_row (has_id id) xs ≡ some u
      → is_active_admin u ≡ false
      → count_rows is_active_admin xs
        ≤ count_rows is_active_admin (update_rows (has_id id) change xs)
  count_kept [] u d e h = absurd cc
  count_kept (x ∷ xs) u d e h = elim (Bool-cases (has_id id x)) [
    | inl hit ↦
        let same : x ≡ u = cc in
        rw
          (
            hit,
            update_rows_absent (has_id id) change xs (others_absent id x xs hit d.0),
            subst (λ y. is_active_admin y ≡ false) (sym same) h,
          )
          (ground arith)
    | inr miss ↦ rw miss (omega (arith, count_kept xs u d.1 (sym (rw miss refl) ∙ e) h))
  ]

  count_same :
      (xs : List User)
      → ((u : User) → is_active_admin u ≡ true → is_active_admin (change u) ≡ true)
      → count_rows is_active_admin xs
        ≤ count_rows is_active_admin (update_rows (has_id id) change xs)
  count_same [] keep = omega arith
  count_same (x ∷ xs) keep = ground (arith, count_same xs keep, keep x)

  count_missing :
      (xs : List User)
      → find_row (has_id id) xs ≡ none
      → count_rows is_active_admin xs
        ≤ count_rows is_active_admin (update_rows (has_id id) change xs)
  count_missing [] e = omega arith
  count_missing (x ∷ xs) e = elim (Bool-cases (has_id id x)) [
    | inl hit ↦ absurd cc
    | inr miss ↦ rw miss (omega (arith, count_missing xs (sym (rw miss refl) ∙ e)))
  ]

  LeavesAdmin-admin :
      (xs : List User)
      → AreDistinct eq_ℤ (map id_of xs)
      → 1 ≤ count_rows is_active_admin xs
      → LeavesAdmin id change xs
      → 1 ≤ count_rows is_active_admin (update_rows (has_id id) change xs)
  LeavesAdmin-admin xs d h (same_admins keep) = omega (arith, count_same xs keep)
  LeavesAdmin-admin xs d h (other_admin two) = omega (arith, count_down xs d)
  LeavesAdmin-admin xs d h (no_row e) = omega (arith, count_missing xs e)
  LeavesAdmin-admin xs d h (no_admin u e off) = omega (arith, count_kept xs u d e off)

inserted-IsGuarded :
    (s : Services) (db after : Db) (u : User)
    → u.id ≡ pos db.next_user
    → is_allowed_role u.role ≡ true
    → ltb 0 (count_rows (is_named s u.username) db.users) ≡ false
    → after.users ≡ u ∷ db.users
    → after.next_user ≡ 1 + db.next_user
    → IsGuarded s db
    → IsGuarded s after
inserted-IsGuarded s db after u own role new e n g = record {
  ids = rw e (rw own (All-map _ _ (map id_of db.users) (λ id h. ground arith) g.below, g.ids));
  below =
      rw (e, n)
        (rw own (ground arith), All-map _ _ (map id_of db.users) (λ id h. ground arith) g.below);
  names = rw e (
    All-to_map name_of (λ t. s.same_text t u.username ≡ false) db.users
        (count_rows_zero (is_named s u.username) db.users new),
    g.names,
  );
  roles = rw e (role, g.roles);
  admin = rw e (let h = g.admin in omega arith);
}

changed-IsGuarded :
    (s : Services) (db after : Db) (id : ℤ) (change : User → User)
    → ((u : User) → (change u).id ≡ u.id)
    → ((u : User) → (change u).username ≡ u.username)
    → ((u : User) → is_allowed_role u.role ≡ true → is_allowed_role (change u).role ≡ true)
    → LeavesAdmin id change db.users
    → after.users ≡ update_rows (has_id id) change db.users
    → after.next_user ≡ db.next_user
    → IsGuarded s db
    → IsGuarded s after
changed-IsGuarded s db after id change own name role leaves e n g =
    let same_ids = map-update_rows id_of (has_id id) change db.users own in
    record {
      ids = rw (e, same_ids) g.ids;
      below = rw (e, n, same_ids) g.below;
      names = rw (e, map-update_rows name_of (has_id id) change db.users name) g.names;
      roles = rw e (All-update_rows _ (has_id id) change db.users (λ u hit h. role u h) g.roles);
      admin = rw e (LeavesAdmin-admin id change db.users g.ids g.admin leaves);
    }

pub Becomes-IsGuarded :
    (s : Services) (db after : Db) → Becomes s db after → IsGuarded s db → IsGuarded s after
Becomes-IsGuarded s db after (kept e n) g = record {
  ids = rw e g.ids;
  below = rw (e, n) g.below;
  names = rw e g.names;
  roles = rw e g.roles;
  admin = rw e g.admin;
}
Becomes-IsGuarded s db after (inserted u own role new e n) g =
    inserted-IsGuarded s db after u own role new e n g
Becomes-IsGuarded s db after (changed id change own name role leaves e n) g =
    changed-IsGuarded s db after id change own name role leaves e n g
