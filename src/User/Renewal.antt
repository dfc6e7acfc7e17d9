-- ===== src/User/Renewal.antt =====
-- A login whose refresh token is taken to Refresh (pkg/handlers/auth.go).
use ifritah_go.Prelude.{
  ℕ, ◌<◌, ◌+◌, String, str_eq, false, some, ◌≡◌, refl, pos, eq_ℤ, to_int32, ltb, count_rows, All,
  All-mem, map, AreDistinct,
}
use ifritah_go.User.Table.{Db, Claims, Services, Query, Faults}
use ifritah_go.User.Sessions.{tokens, LoginRequest, access_claims, refresh_claims, login, refresh}
use ifritah_go.User.Rules.{id_of}
use ifritah_go.User.LoggedIn.{IsLoggedIn, login-IsLoggedIn}

-- The JWT library: any claims can be signed, and the token reads back as the claims that it was signed
-- for, until they expire.
pub record IsSigning (s : Services) (token : String) : Type 0 where
  pub signs : (c : Claims) → (t : String) × (s.sign c ≡ some t)
  pub reads :
      (c : Claims) (now : ℕ) → s.sign c ≡ some token → now < c.exp → s.verified now token ≡ some c

-- Nothing fails.
abbrev pub no_faults : Faults
no_faults query = false

-- Refresh succeeds from a state that a login has left.
logged_in-refresh :
    (s : Services) (now later : ℕ) (req : LoginRequest) (db after : Db) (token : String)
    → IsSigning s token
    → AreDistinct eq_ℤ (map id_of db.users)
    → All (λ u. (to_int32 u.id ≡ u.id) × (eq_ℤ u.id (pos 0) ≡ false)) db.users
    → str_eq req.username "" ≡ false
    → later < now + s.refresh_expiration
    → IsLoggedIn s now req db after token
    → (access : String) × (next : String) × ((refresh s no_faults later (some token) after).0
        ≡ tokens access next)
unfolding refresh refresh_claims access_claims
logged_in-refresh s now later req db after token j distinct ids name early l =
    let (fits, nonzero) =
      All-mem (λ u. (to_int32 u.id ≡ u.id) × (eq_ℤ u.id (pos 0) ≡ false)) l.user db.users ids
        l.known in
    let (row, stored) = l.stored later early in
    let (u, found, on) = l.found distinct in
    let (access, first) = j.signs (access_claims s later l.user.id req.username u.role) in
    let (next, second) = j.signs (refresh_claims s later l.user.id req.username) in
    let read = j.reads (refresh_claims s now l.user.id req.username) later l.signed early in
    (access, next, rw (read, name, nonzero, stored, fits, found, on, first, second) refl)

-- A login lasts: when Login answers with tokens and its refresh token is stored, which needs that the
-- insert does not fail and that no stored token has the same hash, Refresh answers with new tokens to
-- that refresh token, at any time before it expires and when nothing fails then. The ids of the users
-- are distinct int32 numbers other than 0, the name is not empty, and the JWT library signs and reads
-- the token back.
pub login-refresh :
    (s : Services) (f : Faults) (now later : ℕ) (req : LoginRequest) (db : Db)
    (access token : String)
    → IsSigning s token
    → AreDistinct eq_ℤ (map id_of db.users)
    → All (λ u. (to_int32 u.id ≡ u.id) × (eq_ℤ u.id (pos 0) ≡ false)) db.users
    → str_eq req.username "" ≡ false
    → f Query.insert_refresh_token ≡ false
    → ltb 0 (count_rows (λ t. str_eq t.token_hash (s.sha256_hex token)) db.refresh_tokens) ≡ false
    → (login s f now (some req) db).0 ≡ tokens access token
    → later < now + s.refresh_expiration
    → (a : String) × (r : String) × ((refresh s no_faults later
          (some token)
          (login s f now (some req) db).1).0
        ≡ tokens a r)
login-refresh s f now later req db access token j distinct ids name runs new h early =
    logged_in-refresh s now later req db _ token j distinct ids name early
      (login-IsLoggedIn s f now req db access token runs new h)
