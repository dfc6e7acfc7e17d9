-- ===== src/User/Accounts.antt =====
-- CreateUser, UpdateUser and DeleteUser of pkg/handlers/user_admin.go, and Register of auth.go. A body
-- and a path id are arguments, `none` where they do not parse.
use ifritah_go.Prelude.{
  String, str_eq, Bool, true, false, not, ◌||◌, ◌+◌, Option, none, some, List, [], ◌∷◌,
  if◌then◌else◌, ℤ, pos, to_int32, find_row, count_rows, ltb,
}
use ifritah_go.User.Table.{
  User, Permission, Db, Services, Query, Faults, has_id, is_named, has_email,
}
use ifritah_go.User.Sessions.{
  Reply, refused, created, registered, invalid_request, invalid_role, database_error,
  username_exists, email_exists, hash_password_error, create_user_error,
}

-- allowedRoles
unfoldable pub is_allowed_role : String → Bool
is_allowed_role role = str_eq role "admin" || (str_eq role "manager" || str_eq role "employee")

pub record CreateUserRequest : Type 0 where
  pub username : String
  pub password : String
  pub role : String
  pub full_name : String
  pub email : String
  pub phone : String
  pub company_id : Option ℤ
  pub is_active : Option Bool

-- `NULLIF(…, '')`
abbrev pub nullif_empty : Services → String → Option String
nullif_empty s text = if s.same_text text "" then none else some text

-- CreateUserAdmin and RegisterUser, which the unique key of username refuses for a name that is taken.
unfoldable pub insert_user : Services → (ℤ → User) → Db → Option Db
insert_user s row db =
    let u = row (pos db.next_user) in
    if ltb 0 (count_rows (is_named s u.username) db.users)
    then none
    else some (record db { users = u ∷ db.users; next_user = 1 + db.next_user })

abbrev pub unless_fault {ℓ} : {A : Type ℓ} → Bool → Option A → Option A
unless_fault failing result = if failing then none else result

-- The check of CreateUser and of Register that a name and an address are not taken.
abbrev pub with_free_names : Services → Faults → String → String → Db → Reply × Db → Reply × Db
with_free_names s f username email db go =
    if f Query.count_users_by_username
    then (refused 500 database_error, db)
    else if ltb 0 (count_rows (is_named s username) db.users)
    then (refused 409 username_exists, db)
    else if f Query.count_users_by_email
    then (refused 500 database_error, db)
    else if ltb 0 (count_rows (has_email s email) db.users)
    then (refused 409 email_exists, db)
    else go

-- The check without an address.
abbrev pub with_free_name : Services → Faults → String → Db → Reply × Db → Reply × Db
with_free_name s f username db go =
    if f Query.count_users_by_username
    then (refused 500 database_error, db)
    else if ltb 0 (count_rows (is_named s username) db.users)
    then (refused 409 username_exists, db)
    else go

abbrev pub company_of : Option User → Option ℤ
company_of none = none
company_of (some u) = u.company_id

-- The company of the request, or the caller's.
abbrev pub company_for : Faults → ℤ → Option ℤ → Db → Option ℤ
company_for f caller (some company) db = some (to_int32 company)
company_for f caller none db =
    company_of
      (if f Query.get_user_company_id then none else find_row (has_id (to_int32 caller)) db.users)

abbrev pub active_or_default : Option Bool → Bool
active_or_default none = true
active_or_default (some active) = active

unfoldable pub admin_row : Services → CreateUserRequest → Option ℤ → String → ℤ → User
admin_row s req company hash id = record {
  id = id;
  username = req.username;
  full_name = some req.full_name;
  password = hash;
  company_id = company;
  email = nullif_empty s req.email;
  phone = nullif_empty s req.phone;
  is_active = active_or_default req.is_active;
  last_login = none;
  role = req.role;
}

abbrev pub created_reply : CreateUserRequest → Db → Option Db → Reply × Db
created_reply req db none = (refused 500 create_user_error, db)
created_reply req db (some stored) = (
  created (pos db.next_user) req.username req.role (active_or_default req.is_active) req.company_id,
  stored,
)

abbrev pub create_hashed :
    Services → Faults → CreateUserRequest → Option ℤ → Option String → Db → Reply × Db
create_hashed s f req company none db = (refused 500 hash_password_error, db)
create_hashed s f req company (some hash) db =
    created_reply req db
      (unless_fault (f Query.create_user_admin) (insert_user s (admin_row s req company hash) db))

unfoldable pub create_user : Services → Faults → ℤ → Option CreateUserRequest → Db → Reply × Db
unfolding is_allowed_role insert_user admin_row
create_user s f caller none db = (refused 400 invalid_request, db)
create_user s f caller (some req) db =
    let go =
      create_hashed s f req (company_for f caller req.company_id db) (s.hash_password req.password)
        db in
    if not (is_allowed_role req.role)
    then (refused 400 invalid_role, db)
    else if not (str_eq req.email "")
    then with_free_names s f req.username req.email db go
    else with_free_name s f req.username db go

pub record RegisterRequest : Type 0 where
  pub username : String
  pub email : String
  pub password : String
  pub full_name : String
  pub phone : String

unfoldable pub employee_row : RegisterRequest → String → ℤ → User
employee_row req hash id = record {
  id = id;
  username = req.username;
  full_name = some req.full_name;
  password = hash;
  company_id = none;
  email = some req.email;
  phone = some req.phone;
  is_active = true;
  last_login = none;
  role = "employee";
}

-- SeedUserPermission; the id is new, so that no unique key refuses the row.
abbrev pub seed_user_permission : Faults → ℤ → String → List Permission → List Permission
seed_user_permission f id resource perms =
    if f Query.seed_user_permission
    then perms
    else record {
      user_id = id;
      resource = resource;
      can_view = true;
      can_add = false;
      can_edit = false;
      can_delete = false;
    }
      ∷ perms

-- defaultPerms
abbrev pub default_perms : List String
default_perms = "invoices" ∷ "products" ∷ "clients" ∷ "suppliers" ∷ "stores" ∷ "orders" ∷ []

abbrev pub seed_permissions : Faults → ℤ → List String → List Permission → List Permission
seed_permissions f id [] perms = perms
seed_permissions f id (r ∷ resources) perms =
    seed_permissions f id resources (seed_user_permission f id r perms)

abbrev pub registered_reply : Faults → RegisterRequest → Db → Option Db → Reply × Db
registered_reply f req db none = (refused 500 create_user_error, db)
registered_reply f req db (some stored) = (
  registered (pos db.next_user) req.username req.email,
  record stored {
    permissions = seed_permissions f (pos db.next_user) default_perms stored.permissions;
  },
)

abbrev pub register_hashed : Services → Faults → RegisterRequest → Option String → Db → Reply × Db
register_hashed s f req none db = (refused 500 hash_password_error, db)
register_hashed s f req (some hash) db =
    registered_reply f req db
      (unless_fault (f Query.register_user) (insert_user s (employee_row req hash) db))

unfoldable pub register : Services → Faults → Option RegisterRequest → Db → Reply × Db
unfolding insert_user employee_row
register s f none db = (refused 400 invalid_request, db)
register s f (some req) db =
    with_free_names s f req.username req.email db
      (register_hashed s f req (s.hash_password req.password) db)
