-- ===== src/User/Fixtures.antt =====
-- Test data for users and sessions: services, rows and requests.
use ifritah_go.Prelude.{
  String, str_append, str_eq, Bool, true, false, ◌&&◌, Option, none, some, List, [], ◌∷◌, pos, eq_ℤ,
  if◌then◌else◌, ◌==◌,
}
use ifritah_go.User.Table.{User, RefreshToken, ResetToken, Db, Claims, Services, Query, Faults}
use ifritah_go.User.Sessions.{LoginRequest}
use ifritah_go.User.Passwords.{ResetRequest}
use ifritah_go.User.Accounts.{CreateUserRequest}
use ifritah_go.User.Changes.{UpdateUserRequest}

-- The claims of the one refresh token that these tests sign as "r7"; any others are signed as "a7".
abbrev pub is_first : Claims → Bool
is_first c =
    eq_ℤ c.user_id (pos 7)
    && (str_eq c.username "amal"
        && (str_eq c.role "" && (c.exp == 1100 && (c.iat == 100 && str_eq c.token_type "refresh"))))

abbrev pub token_for : Bool → Option String
token_for true = some "r7"
token_for false = some "a7"

abbrev pub first : Claims
first = record {
  user_id = pos 7;
  username = "amal";
  role = "";
  exp = 1100;
  iat = 100;
  token_type = "refresh";
}

abbrev pub hash_of : String → String
hash_of text = str_append "#" text

abbrev pub services : Services
services = record {
  same_text = str_eq;
  hash_password = λ p. some (hash_of p);
  password_matches = λ h p. str_eq h (hash_of p);
  sha256_hex = hash_of;
  sign = λ c. token_for (is_first c);
  verified = λ now token. if str_eq token "r7" then some first else none;
  access_expiration = 60;
  refresh_expiration = 1000;
}

abbrev pub amal : User
amal = record {
  id = pos 7;
  username = "amal";
  full_name = none;
  password = "#secret";
  company_id = some (pos 1);
  email = some "amal@example.org";
  phone = none;
  is_active = true;
  last_login = none;
  role = "admin";
}

abbrev pub db_of : List RefreshToken → List ResetToken → Db
db_of refresh_tokens reset_tokens = record {
  users = amal ∷ [];
  refresh_tokens = refresh_tokens;
  reset_tokens = reset_tokens;
  session_users = [];
  permissions = [];
  next_user = 8;
  next_token = 5;
}

abbrev pub session_token : RefreshToken
session_token = record {
  id = 4;
  user_id = pos 7;
  token_hash = "#r7";
  device_name = "phone";
  ip_address = "192.0.2.1";
  revoked = false;
  expires_at = 1100;
}

abbrev pub credentials : LoginRequest
credentials = record {
  username = "amal";
  password = "secret";
  device_name = "phone";
  ip_address = "192.0.2.1";
}

abbrev pub no_update : UpdateUserRequest
no_update = record {
  full_name = none;
  email = none;
  phone = none;
  role = none;
  is_active = none;
  company_id = none;
}

abbrev pub demotion : UpdateUserRequest
demotion = record no_update { role = some "employee" }

abbrev pub lookup_fails : Faults
lookup_fails Query.get_user_role = true
lookup_fails query = false

abbrev pub sara : CreateUserRequest
sara = record {
  username = "sara";
  password = "secret2";
  role = "manager";
  full_name = "Sara";
  email = "sara@example.org";
  phone = "";
  company_id = none;
  is_active = none;
}

abbrev pub reset_token : ResetToken
reset_token = record { id = 3; user_id = pos 7; token = "#link"; expires_at = 3700; used_at = none }

abbrev pub reset_body : ResetRequest
reset_body = record { token = "link"; new_password = "fresh" }
