-- ===== src/User/Access.antt =====
-- JWTVerifyMiddleware, RequireRole and GetMe of pkg/handlers/auth.go, and GetUserByID of user_admin.go.
use ifritah_go.Prelude.{
  ℕ, String, str_eq, Bool, true, false, ◌&&◌, ◌||◌, Option, none, some, List, [], ◌∷◌, ◌++◌,
  if◌then◌else◌, ℤ, to_int32, find_row, select, map, ltb, eq_ℤ,
}
use ifritah_go.User.Table.{User, Permission, Db, Claims, Services, Query, Faults, has_id}
use ifritah_go.User.Sessions.{
  Granted, UserResponse, Reply, profile, refused, invalid_user_id, user_not_found, fetch_user_error,
}

-- What JWTVerifyMiddleware makes of a request: the claims for the handlers, or a 401.
pub data Verified : Type 0 where
  missing_auth_header invalid_or_expired token_expired : Verified
  with_claims : Claims → Verified

abbrev pub check_expiration : ℕ → Claims → Verified
check_expiration now c = if ltb 0 c.exp && ltb c.exp now then token_expired else with_claims c

abbrev pub verified_claims : ℕ → Option Claims → Verified
verified_claims now none = invalid_or_expired
verified_claims now (some c) = check_expiration now c

unfoldable pub jwt_verify : Services → ℕ → Option String → Verified
jwt_verify s now none = missing_auth_header
jwt_verify s now (some token) = verified_claims now (s.verified now token)

-- RequireRole: whether the role of the claims is in the list.
unfoldable pub require_role : List String → String → Bool
require_role [] role = false
require_role (a ∷ allowed) role = str_eq a role || require_role allowed role

-- RequireAdmin and RequireManagerOrAbove
abbrev pub require_admin : String → Bool
require_admin role = require_role ("admin" ∷ []) role

abbrev pub require_manager_or_above : String → Bool
require_manager_or_above role = require_role ("admin" ∷ "manager" ∷ []) role

-- A route behind the middleware and RequireRole: which claims reach its handler.
abbrev pub admitted : List String → Verified → Option Claims
admitted allowed (with_claims c) = if require_role allowed c.role then some c else none
admitted allowed missing_auth_header = none
admitted allowed invalid_or_expired = none
admitted allowed token_expired = none

abbrev pub action_if : Bool → String → List String
action_if true action = action ∷ []
action_if false action = []

unfoldable pub granted : Permission → Granted
granted p = record {
  resource = p.resource;
  actions =
      action_if p.can_view "view"
      ++ (action_if p.can_add "add"
          ++ (action_if p.can_edit "edit" ++ action_if p.can_delete "delete"));
}

-- `COALESCE(…, '')`
abbrev pub or_empty : Option String → String
or_empty none = ""
or_empty (some t) = t

-- buildUserResponse
abbrev pub user_response : User → UserResponse
user_response u = record {
  id = u.id;
  username = u.username;
  full_name = or_empty u.full_name;
  email = or_empty u.email;
  phone = or_empty u.phone;
  role = u.role;
  is_active = u.is_active;
  company_id = u.company_id;
  last_login = u.last_login;
}

abbrev pub profile_of : List Granted → Option User → Reply
profile_of permissions none = refused 404 user_not_found
profile_of permissions (some u) =
    profile (record (user_response u) { company_id = none; last_login = none }) permissions

-- The reply of GetMe has no company and no last login.
unfoldable pub get_me : Faults → ℤ → Db → Reply
unfolding granted
get_me f user db =
    profile_of
      (if f Query.list_user_permissions
        then []
        else map granted (select (λ p. eq_ℤ p.user_id (to_int32 user)) db.permissions))
      (if f Query.get_user_self then none else find_row (has_id (to_int32 user)) db.users)

abbrev pub found_profile : Option User → Reply
found_profile none = refused 404 user_not_found
found_profile (some u) = profile (user_response u) []

unfoldable pub get_user_by_id : Faults → Option ℤ → Db → Reply
get_user_by_id f none db = refused 400 invalid_user_id
get_user_by_id f (some id) db =
    if f Query.get_user_admin
    then refused 500 fetch_user_error
    else found_profile (find_row (has_id id) db.users)
