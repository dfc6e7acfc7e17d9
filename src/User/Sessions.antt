-- ===== src/User/Sessions.antt =====
-- Login, Refresh, Logout, ForgotPassword and ResetPassword of pkg/handlers/auth.go. A body, a token of
-- the Authorization header and a random text are arguments, `none` where there is none.
use ifritah_go.Prelude.{
  ℕ, String, str_eq, Bool, false, not, ◌||◌, ◌+◌, Option, none, some, List, ◌∷◌, ◌==◌, ◌&&◌,
  if◌then◌else◌, ℤ, pos, eq_ℤ, to_int32, Result, ok, err, find_row, count_rows, update_rows,
  delete_rows, ltb,
}
use ifritah_go.User.Table.{
  User, RefreshToken, Db, Claims, Services, Query, Faults, has_id, is_named, is_usable_token,
}

pub data Detail : Type 0 where
  invalid_request invalid_credentials database_error account_deactivated : Detail
  generate_access_tok generate_refresh_tok no_refresh_token invalid_refresh_token : Detail
  not_a_refresh_token invalid_token_claims revoked_or_not_found user_inactive : Detail
  failed_to_generate link_sent invalid_reset_token hash_password_error : Detail
  update_password_error password_updated logged_out invalid_role username_exists : Detail
  email_exists create_user_error invalid_user_id last_admin no_fields_to_update : Detail
  update_user_error user_not_found updated own_account delete_user_error deactivated : Detail
  reset_password_error password_reset fetch_user_error : Detail

-- A resource with the actions that a user may take on it.
pub record Granted : Type 0 where
  pub resource : String
  pub actions : List String

-- userResponse, with the actions of GetMe.
pub record UserResponse : Type 0 where
  pub id : ℤ
  pub username : String
  pub full_name : String
  pub email : String
  pub phone : String
  pub role : String
  pub is_active : Bool
  pub company_id : Option ℤ
  pub last_login : Option ℕ

pub data Reply : Type 0 where
  tokens : String → String → Reply  -- 200, access_token and refresh_token
  done : Detail → Reply  -- 200
  created : ℤ → String → String → Bool → Option ℤ → Reply  -- 201
  registered : ℤ → String → String → Reply  -- 201, with the role employee
  profile : UserResponse → List Granted → Reply  -- 200
  refused : ℕ → Detail → Reply  -- a status and its detail

-- GenerateAccessToken
unfoldable pub access_claims : Services → ℕ → ℤ → String → String → Claims
access_claims s now id username role = record {
  user_id = id;
  username = username;
  role = role;
  exp = now + s.access_expiration;
  iat = now;
  token_type = "access";
}

-- GenerateRefreshToken
unfoldable pub refresh_claims : Services → ℕ → ℤ → String → Claims
refresh_claims s now id username = record {
  user_id = id;
  username = username;
  role = "";
  exp = now + s.refresh_expiration;
  iat = now;
  token_type = "refresh";
}

abbrev pub both_signed : Option String → Option String → Result Detail (String × String)
both_signed none refresh = err generate_access_tok
both_signed (some access) none = err generate_refresh_tok
both_signed (some access) (some refresh) = ok (access, refresh)

-- The two new tokens of Login and of Refresh.
abbrev pub issue : Services → ℕ → ℤ → String → String → Result Detail (String × String)
issue s now id username role =
    both_signed (s.sign (access_claims s now id username role))
      (s.sign (refresh_claims s now id username))

-- A statement whose failure is only logged.
abbrev pub attempt {ℓ} : {A : Type ℓ} → Bool → A → A → A
attempt failing before after = if failing then before else after

pub record LoginRequest : Type 0 where
  pub username : String
  pub password : String
  pub device_name : String  -- the User-Agent header
  pub ip_address : String

-- InsertRefreshToken, which the unique key of token_hash refuses for a hash that is stored.
unfoldable pub insert_refresh_token : ℤ → String → String → String → ℕ → Db → Db
insert_refresh_token user hash device ip expires db =
    if ltb 0 (count_rows (λ t. str_eq t.token_hash hash) db.refresh_tokens) then db else record db {
      refresh_tokens =
          record {
            id = db.next_token;
            user_id = user;
            token_hash = hash;
            device_name = device;
            ip_address = ip;
            revoked = false;
            expires_at = expires;
          }
          ∷ db.refresh_tokens;
      next_token = 1 + db.next_token;
    }

-- UpdateLastLogin
unfoldable pub update_last_login : ℕ → ℤ → Db → Db
update_last_login now id db = record db {
  users = update_rows (has_id id) (λ u. record u { last_login = some now }) db.users;
}

abbrev pub login_issued :
    Services → Faults → ℕ → LoginRequest → User → Result Detail (String × String) → Db → Reply × Db
login_issued s f now req u (err e) db = (refused 500 e, db)
login_issued s f now req u (ok (access, refresh)) db =
    let stored = attempt (f Query.insert_refresh_token) db (
      insert_refresh_token u.id (s.sha256_hex refresh) req.device_name req.ip_address
        (now + s.refresh_expiration) db) in
    (
      tokens access refresh,
      attempt (f Query.update_last_login) stored (update_last_login now u.id stored),
    )

abbrev pub login_found : Services → Faults → ℕ → LoginRequest → Option User → Db → Reply × Db
login_found s f now req none db = (refused 401 invalid_credentials, db)
login_found s f now req (some u) db =
    if not u.is_active
    then (refused 403 account_deactivated, db)
    else if not (s.password_matches u.password req.password)
    then (refused 401 invalid_credentials, db)
    else login_issued s f now req u (issue s now u.id req.username u.role) db

unfoldable pub login : Services → Faults → ℕ → Option LoginRequest → Db → Reply × Db
unfolding insert_refresh_token update_last_login
login s f now none db = (refused 400 invalid_request, db)
login s f now (some req) db =
    if f Query.get_user_for_login
    then (refused 500 database_error, db)
    else login_found s f now req (find_row (is_named s req.username) db.users) db

-- RotateRefreshToken, which the unique key of token_hash refuses for a hash that another row has.
unfoldable pub rotate_refresh_token : ℕ → String → ℕ → Db → Db
rotate_refresh_token id hash expires db =
    if ltb 0 (count_rows (λ t. str_eq t.token_hash hash && not (t.id == id)) db.refresh_tokens)
    then db
    else record db {
      refresh_tokens =
          update_rows (λ t. t.id == id) (λ t. record t { token_hash = hash; expires_at = expires })
            db.refresh_tokens;
    }

abbrev pub refresh_issued :
    Services → Faults → ℕ → RefreshToken → Result Detail (String × String) → Db → Reply × Db
refresh_issued s f now row (err e) db = (refused 500 e, db)
refresh_issued s f now row (ok (access, refresh)) db = (
  tokens access refresh,
  attempt (f Query.rotate_refresh_token) db
      (rotate_refresh_token row.id (s.sha256_hex refresh) (now + s.refresh_expiration) db),
)

abbrev pub refresh_user :
    Services → Faults → ℕ → Claims → RefreshToken → Option User → Db → Reply × Db
refresh_user s f now c row none db = (refused 401 user_inactive, db)
refresh_user s f now c row (some u) db =
    if not u.is_active
    then (refused 401 user_inactive, db)
    else refresh_issued s f now row (issue s now c.user_id c.username u.role) db

abbrev pub refresh_row : Services → Faults → ℕ → Claims → Option RefreshToken → Db → Reply × Db
refresh_row s f now c none db = (refused 401 revoked_or_not_found, db)
refresh_row s f now c (some row) db =
    refresh_user s f now c row
      (if f Query.get_user_auth_state
        then none
        else find_row (has_id (to_int32 c.user_id)) db.users)
      db

abbrev pub refresh_verified : Services → Faults → ℕ → String → Option Claims → Db → Reply × Db
refresh_verified s f now token none db = (refused 401 invalid_refresh_token, db)
refresh_verified s f now token (some c) db =
    if not (str_eq c.token_type "refresh")
    then (refused 401 not_a_refresh_token, db)
    else if str_eq c.username "" || eq_ℤ c.user_id (pos 0)
    then (refused 401 invalid_token_claims, db)
    else refresh_row s f now c
        (if f Query.get_active_refresh_token_id
          then none
          else find_row (is_usable_token now (s.sha256_hex token)) db.refresh_tokens)
        db

unfoldable pub refresh : Services → Faults → ℕ → Option String → Db → Reply × Db
unfolding rotate_refresh_token
refresh s f now none db = (refused 401 no_refresh_token, db)
refresh s f now (some token) db = refresh_verified s f now token (s.verified now token) db

-- DeleteRefreshTokensForUser
unfoldable pub delete_refresh_tokens_for_user : ℤ → Db → Db
delete_refresh_tokens_for_user id db = record db {
  refresh_tokens = delete_rows (λ t. eq_ℤ t.user_id id) db.refresh_tokens;
}

-- The user id of the access token, from the JWT middleware, is `user`.
unfoldable pub logout : Faults → ℤ → Db → Reply × Db
unfolding delete_refresh_tokens_for_user
logout f user db = (
  done logged_out,
  attempt (f Query.delete_refresh_tokens_for_user) db
      (delete_refresh_tokens_for_user (to_int32 user) db),
)
