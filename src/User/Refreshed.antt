-- ===== src/User/Refreshed.antt =====
-- Which requests Refresh of pkg/handlers/auth.go answers with tokens.
use mathlib.Core.List.{Memᴰ}
use ifritah_go.Prelude.{ℕ, String, str_eq, true, Option, none, some, ◌≡◌, to_int32, ok}
use ifritah_go.User.Table.{User, RefreshToken, Db, Claims, Services, has_id, is_usable_token}
use ifritah_go.User.Sessions.{access_claims, refresh_claims, both_signed, refresh}

-- The access token and the refresh token that a request with this token is entitled to.
pub record IsEntitled (s : Services) (now : ℕ) (token : String) (db : Db) (access next : String)
    : Type 0 where
  pub claims : Claims
  pub row : RefreshToken
  pub user : User
  pub signed : s.verified now token ≡ some claims
  pub typed : str_eq claims.token_type "refresh" ≡ true
  pub stored : Memᴰ row db.refresh_tokens
  pub usable : is_usable_token now (s.sha256_hex token) row ≡ true
  pub known : Memᴰ user db.users
  pub own : has_id (to_int32 claims.user_id) user ≡ true
  pub active : user.is_active ≡ true
  pub access_token :
      s.sign (access_claims s now claims.user_id claims.username user.role) ≡ some access
  pub refresh_token : s.sign (refresh_claims s now claims.user_id claims.username) ≡ some next

pub both_signed-ok :
    (access refresh : Option String) (a r : String)
    → both_signed access refresh ≡ ok (a, r)
    → (access ≡ some a) × (refresh ≡ some r)
both_signed-ok none refresh a r h = absurd cc
both_signed-ok (some x) none a r h = absurd cc
both_signed-ok (some x) (some y) a r h = (cc, cc)
