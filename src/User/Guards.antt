-- ===== src/User/Guards.antt =====
-- What CreateUser, Register, UpdateUser and DeleteUser do to the table user.
use ifritah_go.Prelude.{
  eq_ℤ, ◌≤◌, String, str_eq, Bool, true, false, not, ◌&&◌, ◌||◌, Option, none, some, ◌≡◌, refl, sym,
  ◌==◌, ◌∙◌, inl, inr, arith, if_rule, ℤ, pos, find_row, count_rows, ltb, leb, Bool-cases,
  Option-cases,
}
use ifritah_go.User.Table.{
  User, Db, Services, Query, Faults, has_id, is_named, has_email, is_active_admin,
}
use ifritah_go.User.Sessions.{Reply}
use ifritah_go.User.Accounts.{
  is_allowed_role, CreateUserRequest, RegisterRequest, insert_user, unless_fault, with_free_names,
  with_free_name, admin_row, created_reply, create_hashed, create_user, employee_row,
  registered_reply, register_hashed, register, company_for,
}
use ifritah_go.User.Changes.{
  deactivate_user, delete_found, delete_user, UpdateUserRequest, edit_user, update_params,
  is_bad_role, is_demotion, is_deactivation, guards_last_admin, role_or_empty, active_admins,
  update_user_admin, update_user, has_update, rows_affected,
}
use ifritah_go.User.Rules.{
  Becomes, kept, inserted, changed, LeavesAdmin, same_admins, other_admin, no_row, no_admin,
}
use ifritah_go.User.Effects.{Handled, unchanged}

-- The test of the other admins in UpdateUser and DeleteUser.
two_admins :
    (f : Faults) (db : Db)
    → leb (active_admins f db) 1 ≡ false
    → 2 ≤ count_rows is_active_admin db.users
two_admins f db h = elim (Bool-cases (f Query.count_active_admins)) [
  | inl e ↦ absurd (ground (arith, e))
  | inr e ↦ ground (arith, e)
]

module _ (s : Services) (db : Db) where
  inserted-Handled :
      (row : ℤ → User) (reply : Option Db → Reply × Db) (failing : Bool)
      → (row (pos db.next_user)).id ≡ pos db.next_user
      → is_allowed_role (row (pos db.next_user)).role ≡ true
      → Becomes s db (reply none).1
      → ((after : Db) → Becomes s db after → Becomes s db (reply (some after)).1)
      → Becomes s db (reply (unless_fault failing (insert_user s row db))).1
  unfolding insert_user
  inserted-Handled row reply true own role refuse accept = refuse
  inserted-Handled row reply false own role refuse accept =
      elim (Bool-cases
        (ltb 0 (count_rows (is_named s (row (pos db.next_user)).username) db.users))) [
          | inl taken ↦ rw taken refuse
          | inr free ↦
              rw free (accept _ (inserted (row (pos db.next_user)) own role free refl refl))
        ]

  create_hashed-Handled :
      (f : Faults) (req : CreateUserRequest) (company : Option ℤ) (hash : Option String)
      → is_allowed_role req.role ≡ true
      → Handled s db (create_hashed s f req company hash db)
  unfolding admin_row
  create_hashed-Handled f req company none role = unchanged s db
  create_hashed-Handled f req company (some hash) role =
      inserted-Handled (admin_row s req company hash) (created_reply req db)
        (f Query.create_user_admin) refl role (unchanged s db) (λ after h. h)

  with_free_names-Handled :
      (f : Faults) (username email : String) (go : Reply × Db)
      → Handled s db go
      → Handled s db (with_free_names s f username email db go)
  with_free_names-Handled f username email go h =
      if_rule (Handled s db) (f Query.count_users_by_username) _ _ (unchanged s db) (
        if_rule (Handled s db) (ltb 0 (count_rows (is_named s username) db.users)) _ _
          (unchanged s db)
          (if_rule (Handled s db) (f Query.count_users_by_email) _ _ (unchanged s db) (
            if_rule (Handled s db) (ltb 0 (count_rows (has_email s email) db.users)) _ _
              (unchanged s db) h)))

  with_free_name-Handled :
      (f : Faults) (username : String) (go : Reply × Db)
      → Handled s db go
      → Handled s db (with_free_name s f username db go)
  with_free_name-Handled f username go h =
      if_rule (Handled s db) (f Query.count_users_by_username) _ _ (unchanged s db) (
        if_rule (Handled s db) (ltb 0 (count_rows (is_named s username) db.users)) _ _
          (unchanged s db) h)

  pub create_user-Handled :
      (f : Faults) (caller : ℤ) (body : Option CreateUserRequest)
      → Handled s db (create_user s f caller body db)
  unfolding create_user
  create_user-Handled f caller none = unchanged s db
  create_user-Handled f caller (some req) = elim (Bool-cases (is_allowed_role req.role)) [
    | inl role ↦
        let go =
          create_hashed-Handled f req (company_for f caller req.company_id db)
            (s.hash_password req.password) role in
        rw role (
          if_rule (Handled s db) (not (str_eq req.email "")) _ _
            (with_free_names-Handled f req.username req.email _ go)
            (with_free_name-Handled f req.username _ go))
    | inr other ↦ rw other (unchanged s db)
  ]

  registered-Becomes :
      (f : Faults) (req : RegisterRequest) (after : Db)
      → Becomes s db after
      → Handled s db (registered_reply f req db (some after))
  registered-Becomes f req after (kept e n) = kept e n
  registered-Becomes f req after (inserted u own role new e n) = inserted u own role new e n
  registered-Becomes f req after (changed id change own name role leaves e n) =
      changed id change own name role leaves e n

  register_hashed-Handled :
      (f : Faults) (req : RegisterRequest) (hash : Option String)
      → Handled s db (register_hashed s f req hash db)
  unfolding employee_row is_allowed_role
  register_hashed-Handled f req none = unchanged s db
  register_hashed-Handled f req (some hash) =
      inserted-Handled (employee_row req hash) (registered_reply f req db) (f Query.register_user)
        refl refl (unchanged s db) (registered-Becomes f req)

  pub register-Handled :
      (f : Faults) (body : Option RegisterRequest) → Handled s db (register s f body db)
  unfolding register
  register-Handled f none = unchanged s db
  register-Handled f (some req) =
      with_free_names-Handled f req.username req.email _
        (register_hashed-Handled f req (s.hash_password req.password))

  -- A user who is not an admin, or one of two admins, may lose the role.
  leaves_admin :
      (f : Faults) (id : ℤ) (change : User → User)
      → str_eq (role_or_empty (find_row (has_id id) db.users)) "admin" && leb (active_admins f db) 1
        ≡ false
      → LeavesAdmin id change db.users
  leaves_admin f id change h = elim (Option-cases (find_row (has_id id) db.users)) [
    | inl e ↦ no_row e
    | inr (u, e) ↦ elim (Bool-cases (str_eq u.role "admin")) [
      | inl admin ↦ other_admin (two_admins f db (sym (rw (e, admin) refl) ∙ h))
      | inr other ↦ no_admin u e (rw other refl)
    ]
  ]

  edit_same_admins :
      (req : UpdateUserRequest) (u : User)
      → (is_demotion req.role || is_deactivation req.is_active) ≡ false
      → is_active_admin u ≡ true
      → is_active_admin (edit_user (update_params req) u) ≡ true
  unfolding edit_user update_params
  edit_same_admins req u h k = ground arith

  edit_role :
      (req : UpdateUserRequest) (u : User)
      → is_bad_role req.role ≡ false
      → is_allowed_role u.role ≡ true
      → is_allowed_role (edit_user (update_params req) u).role ≡ true
  unfolding edit_user update_params
  edit_role req u h k = ground arith

  guard-LeavesAdmin :
      (f : Faults) (id : ℤ) (req : UpdateUserRequest)
      → f Query.get_user_role ≡ false
      → guards_last_admin f id req db ≡ false
      → LeavesAdmin id (edit_user (update_params req)) db.users
  guard-LeavesAdmin f id req runs h =
      elim (Bool-cases (is_demotion req.role || is_deactivation req.is_active)) [
        | inl risky ↦
            leaves_admin f id (edit_user (update_params req)) (sym (rw (risky, runs) refl) ∙ h)
        | inr harmless ↦ same_admins (λ u k. edit_same_admins req u harmless k)
      ]

  edited-Becomes :
      (f : Faults) (id : ℤ) (req : UpdateUserRequest)
      → is_bad_role req.role ≡ false
      → LeavesAdmin id (edit_user (update_params req)) db.users
      → Becomes s db (update_user_admin id (update_params req) db)
  unfolding update_user_admin edit_user
  edited-Becomes f id req role leaves =
      changed id (edit_user (update_params req)) (λ u. refl) (λ u. refl)
        (λ u k. edit_role req u role k) leaves refl refl

  pub update_user-Handled :
      (f : Faults) (param : Option ℤ) (body : Option UpdateUserRequest)
      → f Query.get_user_role ≡ false
      → Handled s db (update_user f param body db)
  unfolding update_user
  update_user-Handled f none body runs = unchanged s db
  update_user-Handled f (some id) none runs = unchanged s db
  update_user-Handled f (some id) (some req) runs = elim (Bool-cases (is_bad_role req.role)) [
    | inl bad ↦ rw bad (unchanged s db)
    | inr role ↦ elim (Bool-cases (guards_last_admin f id req db)) [
      | inl guarded ↦ rw (role, guarded) (unchanged s db)
      | inr free ↦
          let edited = edited-Becomes f id req role (guard-LeavesAdmin f id req runs free) in
          rw (role, free)
            (if_rule (Handled s db) (not (has_update req)) _ _ (unchanged s db) (
              if_rule (Handled s db) (f Query.update_user_admin) _ _ (unchanged s db) (
                if_rule (Handled s db) (rows_affected id (update_params req) db == 0) _ _ edited
                  edited)))
    ]
  ]

  delete_found-Handled :
      (f : Faults) (id : ℤ) → Handled s db (delete_found f id (find_row (has_id id) db.users) db)
  unfolding deactivate_user
  delete_found-Handled f id = elim (Option-cases (find_row (has_id id) db.users)) [
    | inl e ↦ rw e (unchanged s db)
    | inr (u, e) ↦ elim (Bool-cases (str_eq u.role "admin" && leb (active_admins f db) 1)) [
      | inl guarded ↦ rw (e, guarded) (unchanged s db)
      | inr free ↦
          rw (e, free)
            (if_rule (Handled s db) (f Query.deactivate_user) _ _ (unchanged s db) (
              changed id (λ u. record u { is_active = false }) (λ u. refl) (λ u. refl) (λ u k. k)
                (leaves_admin f id _ (rw e free)) refl refl))
    ]
  ]

  pub delete_user-Handled :
      (f : Faults) (caller : ℤ) (param : Option ℤ) → Handled s db (delete_user f caller param db)
  unfolding delete_user
  delete_user-Handled f caller none = unchanged s db
  delete_user-Handled f caller (some id) =
      if_rule (Handled s db) (eq_ℤ caller id) _ _ (unchanged s db) (
        if_rule (Handled s db) (f Query.get_user_role) _ _ (unchanged s db)
          (delete_found-Handled f id))
