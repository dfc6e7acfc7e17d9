-- ===== src/User/Changes.antt =====
-- UpdateUser and DeleteUser of pkg/handlers/user_admin.go.
use ifritah_go.Prelude.{
  ℕ, String, str_eq, Bool, true, false, not, ◌&&◌, ◌||◌, Option, none, some, ◌==◌, if◌then◌else◌, ℤ,
  eq_ℤ, to_int32, find_row, count_rows, update_rows, leb,
}
use ifritah_go.User.Table.{User, Db, Query, Faults, has_id, is_active_admin}
use ifritah_go.User.Sessions.{
  Reply, done, refused, invalid_request, invalid_role, invalid_user_id, last_admin,
  no_fields_to_update, update_user_error, user_not_found, updated, own_account, delete_user_error,
  deactivated,
}
use ifritah_go.User.Accounts.{is_allowed_role}

-- adminUpdateUserRequest, and UpdateUserAdminParams where its email and phone are not empty.
pub record UpdateUserRequest : Type 0 where
  pub full_name : Option String
  pub email : Option String
  pub phone : Option String
  pub role : Option String
  pub is_active : Option Bool
  pub company_id : Option ℤ

-- A text that is empty is left out of the parameters.
abbrev pub unless_empty : Option String → Option String
unless_empty none = none
unless_empty (some t) = if str_eq t "" then none else some t

abbrev pub to_company : Option ℤ → Option ℤ
to_company none = none
to_company (some company) = some (to_int32 company)

unfoldable pub update_params : UpdateUserRequest → UpdateUserRequest
update_params req = record req {
  email = unless_empty req.email;
  phone = unless_empty req.phone;
  company_id = to_company req.company_id;
}

abbrev pub is_given {ℓ} : {A : Type ℓ} → Option A → Bool
is_given none = false
is_given (some a) = true

abbrev pub has_update : UpdateUserRequest → Bool
has_update req =
    is_given req.full_name
    || (is_given req.email
        || (is_given req.phone
            || (is_given req.role || (is_given req.is_active || is_given req.company_id))))

-- `COALESCE(new, old)`, for a column that may be NULL and for one that may not.
abbrev pub coalesce_null {ℓ} : {A : Type ℓ} → Option A → Option A → Option A
coalesce_null none old = old
coalesce_null (some new) old = some new

abbrev pub coalesce {ℓ} : {A : Type ℓ} → Option A → A → A
coalesce none old = old
coalesce (some new) old = new

-- The SET of UpdateUserAdmin.
unfoldable pub edit_user : UpdateUserRequest → User → User
edit_user p u = record u {
  full_name = coalesce_null p.full_name u.full_name;
  email = coalesce_null p.email u.email;
  phone = coalesce_null p.phone u.phone;
  role = coalesce p.role u.role;
  is_active = coalesce p.is_active u.is_active;
  company_id = coalesce_null p.company_id u.company_id;
}

abbrev pub same_optional {ℓ} : {A : Type ℓ} → (A → A → Bool) → Option A → Option A → Bool
same_optional same none none = true
same_optional same (some a) (some b) = same a b
same_optional same none (some b) = false
same_optional same (some a) none = false

abbrev pub same_bool : Bool → Bool → Bool
same_bool true b = b
same_bool false b = not b

-- A row that an UPDATE leaves as it was does not count as affected.
abbrev pub is_same_row : User → User → Bool
is_same_row u v =
    same_optional str_eq u.full_name v.full_name
    && (same_optional str_eq u.email v.email
        && (same_optional str_eq u.phone v.phone
            && (str_eq u.role v.role
                && (same_bool u.is_active v.is_active
                    && same_optional eq_ℤ u.company_id v.company_id))))

unfoldable pub rows_affected : ℤ → UpdateUserRequest → Db → ℕ
unfolding edit_user
rows_affected id p db =
    count_rows (λ u. has_id id u && not (is_same_row u (edit_user p u))) db.users

abbrev pub is_demotion : Option String → Bool
is_demotion none = false
is_demotion (some role) = not (str_eq role "admin")

abbrev pub is_deactivation : Option Bool → Bool
is_deactivation none = false
is_deactivation (some active) = not active

abbrev pub is_bad_role : Option String → Bool
is_bad_role none = false
is_bad_role (some role) = not (is_allowed_role role)

-- What GetUserRole finds; "" where it fails or finds no user.
abbrev pub role_or_empty : Option User → String
role_or_empty none = ""
role_or_empty (some u) = u.role

-- CountActiveAdmins, with 0 where it fails.
abbrev pub active_admins : Faults → Db → ℕ
active_admins f db = if f Query.count_active_admins then 0 else count_rows is_active_admin db.users

-- The guard of UpdateUser: the user is an admin, and there is no other active one.
abbrev pub guards_last_admin : Faults → ℤ → UpdateUserRequest → Db → Bool
guards_last_admin f id req db =
    (is_demotion req.role || is_deactivation req.is_active)
    && (str_eq
          (role_or_empty (if f Query.get_user_role then none else find_row (has_id id) db.users))
          "admin"
        && leb (active_admins f db) 1)

unfoldable pub update_user_admin : ℤ → UpdateUserRequest → Db → Db
unfolding edit_user
update_user_admin id p db = record db { users = update_rows (has_id id) (edit_user p) db.users }

unfoldable pub update_user : Faults → Option ℤ → Option UpdateUserRequest → Db → Reply × Db
unfolding update_params rows_affected update_user_admin is_allowed_role
update_user f none body db = (refused 400 invalid_user_id, db)
update_user f (some id) none db = (refused 400 invalid_request, db)
update_user f (some id) (some req) db =
    if is_bad_role req.role
    then (refused 400 invalid_role, db)
    else if guards_last_admin f id req db
    then (refused 400 last_admin, db)
    else if not (has_update req)
    then (refused 400 no_fields_to_update, db)
    else if f Query.update_user_admin
    then (refused 500 update_user_error, db)
    else if rows_affected id (update_params req) db == 0
    then (refused 404 user_not_found, update_user_admin id (update_params req) db)
    else (done updated, update_user_admin id (update_params req) db)

-- DeactivateUser
unfoldable pub deactivate_user : ℤ → Db → Db
deactivate_user id db = record db {
  users = update_rows (has_id id) (λ u. record u { is_active = false }) db.users;
}

abbrev pub delete_found : Faults → ℤ → Option User → Db → Reply × Db
delete_found f id none db = (refused 404 user_not_found, db)
delete_found f id (some u) db =
    if str_eq u.role "admin" && leb (active_admins f db) 1
    then (refused 400 last_admin, db)
    else if f Query.deactivate_user
    then (refused 500 delete_user_error, db)
    else (done deactivated, deactivate_user id db)

unfoldable pub delete_user : Faults → ℤ → Option ℤ → Db → Reply × Db
unfolding deactivate_user
delete_user f caller none db = (refused 400 invalid_user_id, db)
delete_user f caller (some id) db =
    if eq_ℤ caller id
    then (refused 400 own_account, db)
    else if f Query.get_user_role
    then (refused 500 delete_user_error, db)
    else delete_found f id (find_row (has_id id) db.users) db
