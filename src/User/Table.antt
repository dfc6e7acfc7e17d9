-- ===== src/User/Table.antt =====
-- The tables user, refresh_token, password_reset_tokens, sessions and user_permission, and what
-- pkg/handlers/auth.go and user_admin.go take from third-party code. A time is a count of seconds. An id
-- that the database makes up is the next value of a counter. created_at and updated_at are written by
-- the database alone and left out.
use ifritah_go.Prelude.{
  ℕ, String, Bool, true, false, Option, none, some, List, ℤ, eq_ℤ, str_eq, ◌&&◌, not, ltb,
}

pub record User : Type 0 where
  pub id : ℤ
  pub username : String
  pub full_name : Option String
  pub password : String
  pub company_id : Option ℤ
  pub email : Option String
  pub phone : Option String
  pub is_active : Bool
  pub last_login : Option ℕ
  pub role : String

pub record RefreshToken : Type 0 where
  pub id : ℕ
  pub user_id : ℤ
  pub token_hash : String
  pub device_name : String
  pub ip_address : String
  pub revoked : Bool
  pub expires_at : ℕ

pub record ResetToken : Type 0 where
  pub id : ℕ
  pub user_id : ℤ
  pub token : String
  pub expires_at : ℕ
  pub used_at : Option ℕ

pub record Permission : Type 0 where
  pub user_id : ℤ
  pub resource : String
  pub can_view : Bool
  pub can_add : Bool
  pub can_edit : Bool
  pub can_delete : Bool

pub record Db : Type 0 where
  pub users : List User
  pub refresh_tokens : List RefreshToken
  pub reset_tokens : List ResetToken
  pub session_users : List ℤ  -- the user_id column of sessions
  pub permissions : List Permission
  pub next_user : ℕ
  pub next_token : ℕ

-- The claims of a signed token; a refresh token has no role, and "" is read there.
pub record Claims : Type 0 where
  pub user_id : ℤ
  pub username : String
  pub role : String
  pub exp : ℕ
  pub iat : ℕ
  pub token_type : String

-- The collation of the user table, bcrypt, SHA-256 and the JWT library with its key. `verified` reads a
-- token at a time: the claims of a token that the key signed with an HMAC method and whose time is not
-- over.
pub record Services : Type 0 where
  pub same_text : String → String → Bool
  pub hash_password : String → Option String
  pub password_matches : String → String → Bool
  pub sha256_hex : String → String
  pub sign : Claims → Option String
  pub verified : ℕ → String → Option Claims
  pub access_expiration : ℕ
  pub refresh_expiration : ℕ

-- The statements of pkg/db/queries/users.sql, and the source of random bytes.
pub data Query : Type 0 where
  get_user_for_login get_user_auth_state update_last_login insert_refresh_token : Query
  get_active_refresh_token_id rotate_refresh_token delete_refresh_tokens_for_user : Query
  count_users_by_username count_users_by_email register_user seed_user_permission : Query
  get_user_id_by_email_active insert_password_reset_token get_active_reset_token : Query
  mark_reset_token_used update_user_password delete_sessions_for_user : Query
  get_user_admin get_user_company_id get_user_role count_active_admins create_user_admin : Query
  update_user_admin deactivate_user get_user_self list_user_permissions : Query

-- The statements that fail during a request.
abbrev pub Faults : Type 0
Faults = Query → Bool

abbrev pub has_id : ℤ → User → Bool
has_id id u = eq_ℤ u.id id

abbrev pub is_named : Services → String → User → Bool
is_named s name u = s.same_text u.username name

-- `email = ?`, which NULL never meets.
abbrev pub same_option : Services → Option String → String → Bool
same_option s none text = false
same_option s (some t) text = s.same_text t text

abbrev pub has_email : Services → String → User → Bool
has_email s email u = same_option s u.email email

-- `role = 'admin' AND is_active = 1`
abbrev pub is_active_admin : User → Bool
is_active_admin u = str_eq u.role "admin" && u.is_active

-- `token_hash = ? AND revoked = 0 AND expires_at > NOW()`
abbrev pub is_usable_token : ℕ → String → RefreshToken → Bool
is_usable_token now hash t = str_eq t.token_hash hash && (not t.revoked && ltb now t.expires_at)

abbrev pub is_unused : Option ℕ → Bool
is_unused none = true
is_unused (some at) = false

-- `token = ? AND expires_at > NOW() AND used_at IS NULL`
abbrev pub is_usable_reset : ℕ → String → ResetToken → Bool
is_usable_reset now hash t = str_eq t.token hash && (ltb now t.expires_at && is_unused t.used_at)
