-- ===== src/User/Tests.antt =====
-- Tests of users and sessions (pkg/handlers/auth.go, user_admin.go), and their theorems at concrete
-- inputs.
use ifritah_go.Prelude.{
  sym, ap, String, str_eq, str_eq_iff, Bool, true, false, Option, none, some, List, [], ◌∷◌, ◌≡◌,
  refl, arith, pos, eq_ℤ-sound, to_int32, to_uint32,
}
use ifritah_go.User.Table.{Claims}
use ifritah_go.User.Sessions.{
  tokens, refused, done, last_admin, password_updated, password_reset, invalid_reset_token,
  user_not_found, login, refresh, logout, access_claims, refresh_claims,
}
use ifritah_go.User.Passwords.{reset_password, admin_reset_user_password}
use ifritah_go.User.Accounts.{is_allowed_role}
use ifritah_go.User.Changes.{
  update_user, update_params, rows_affected, update_user_admin, edit_user,
}
use ifritah_go.User.Access.{jwt_verify, with_claims}
use ifritah_go.User.Requests.{create_request, update_request, delete_request, Call, run}
use ifritah_go.User.Rules.{IsGuarded}
use ifritah_go.User.Guarded.{run-IsGuarded}
use ifritah_go.User.Revoked.{IsUnauthorized, logout-refresh, admin_reset_user_password-refresh}
use ifritah_go.User.OneReset.{reset_password-once}
use ifritah_go.User.Renewal.{IsSigning, no_faults, login-refresh}
use ifritah_go.User.Fixtures.{
  is_first, token_for, first, services, amal, db_of, session_token, credentials, no_update,
  demotion, lookup_fails, sara, reset_token, reset_body,
}

demotion_test :
    (update_user no_faults (some (pos 7)) (some demotion) (db_of [] [])).0 ≡ refused 400 last_admin
unfolding update_user is_allowed_role
demotion_test = refl

-- Where GetUserRole fails, the last admin is demoted.
lost_admin_test :
    (update_user lookup_fails (some (pos 7)) (some demotion) (db_of [] [])).1.users
    ≡ (record amal { role = "employee" }) ∷ []
unfolding update_user is_allowed_role update_params rows_affected update_user_admin edit_user
lost_admin_test = refl

-- An empty email leaves the old one, and is answered like an unknown user.
empty_email_test :
    (update_user no_faults
      (some (pos 7))
      (some (record no_update { email = some "" }))
      (db_of [] [])).0
    ≡ refused 404 user_not_found
unfolding update_user is_allowed_role update_params rows_affected update_user_admin edit_user
empty_email_test = refl

-- The middleware takes a refresh token for an access token.
jwt_verify_test : jwt_verify services 200 (some "r7") ≡ with_claims first
unfolding jwt_verify
jwt_verify_test = refl

abbrev calls : List Call
calls =
    record { now = 10; failing = no_faults; request = create_request (pos 7) (some sara) }
    ∷ record {
      now = 20;
      failing = no_faults;
      request = update_request (some (pos 7)) (some demotion);
    }
    ∷ record { now = 30; failing = no_faults; request = delete_request (pos 7) (some (pos 8)) }
    ∷ []

seven_fits : to_int32 (pos 7) ≡ pos 7
unfolding to_int32 to_uint32
seven_fits = refl

start : IsGuarded services (db_of [] [])
unfolding is_allowed_role
start = record {
  ids = (tt, tt);
  below = (refl, tt);
  names = (tt, tt);
  roles = (refl, tt);
  admin = omega arith;
}

run-IsGuarded_example : IsGuarded services (run services calls (db_of [] []))
run-IsGuarded_example = run-IsGuarded services calls (db_of [] []) (refl, (refl, (refl, tt))) start

logout-refresh_example :
    IsUnauthorized
      (refresh services no_faults 200
        (some "r7")
        (logout no_faults (pos 7) (db_of (session_token ∷ []) [])).1).0
logout-refresh_example =
    logout-refresh services no_faults no_faults 200 (pos 7) "r7" (db_of (session_token ∷ []) [])
      refl ((λ same. rw seven_fits refl), tt)

admin_reset_test :
    (admin_reset_user_password services no_faults
      (some (pos 7))
      (some "fresh")
      (db_of (session_token ∷ []) [])).0
    ≡ done password_reset
unfolding admin_reset_user_password
admin_reset_test = refl

admin_reset_user_password-refresh_example :
    IsUnauthorized
      (refresh services no_faults 200
        (some "r7")
        (admin_reset_user_password services no_faults
          (some (pos 7))
          (some "fresh")
          (db_of (session_token ∷ []) [])).1).0
admin_reset_user_password-refresh_example =
    admin_reset_user_password-refresh services no_faults no_faults 200 (pos 7) "fresh" "r7"
      (db_of (session_token ∷ []) []) refl admin_reset_test ((λ same. refl), tt)

reset_test :
    (reset_password services no_faults 100 (some reset_body) (db_of [] (reset_token ∷ []))).0
    ≡ done password_updated
unfolding reset_password
reset_test = refl

reset_password-once_example :
    (reset_password services no_faults 200
      (some (record { token = "link"; new_password = "again" }))
      (reset_password services no_faults 100 (some reset_body) (db_of [] (reset_token ∷ []))).1).0
    ≡ refused 400 invalid_reset_token
reset_password-once_example =
    reset_password-once services no_faults 100 reset_body (db_of [] (reset_token ∷ [])) no_faults
      200 "again" refl (tt, tt) reset_test

-- The first refresh token is signed for no other claims.
is_first_sound : (c : Claims) → is_first c ≡ true → c ≡ first
is_first_sound c h =
    let user : c.user_id ≡ pos 7 = eq_ℤ-sound c.user_id (pos 7) (ground arith) in
    let name : c.username ≡ "amal" = (str_eq_iff c.username "amal").0 (ground arith) in
    let role : c.role ≡ "" = (str_eq_iff c.role "").0 (ground arith) in
    let exp : c.exp ≡ 1100 = ground arith in
    let iat : c.iat ≡ 100 = ground arith in
    let type : c.token_type ≡ "refresh" = (str_eq_iff c.token_type "refresh").0 (ground arith) in
    λ i. record {
      user_id = user i;
      username = name i;
      role = role i;
      exp = exp i;
      iat = iat i;
      token_type = type i;
    }

signed : (b : Bool) → (t : String) × (token_for b ≡ some t)
signed true = ("r7", refl)
signed false = ("a7", refl)

abbrev is_refresh_text : Option String → Bool
is_refresh_text none = false
is_refresh_text (some t) = str_eq t "r7"

signed-is_first : (b : Bool) → token_for b ≡ some "r7" → b ≡ true
signed-is_first true h = refl
signed-is_first false h = ap is_refresh_text h

signing : IsSigning services "r7"
signing = record {
  signs = λ c. signed (is_first c);
  reads = λ c now e early. ap some (sym (is_first_sound c (signed-is_first (is_first c) e)));
}

login_test : (login services no_faults 100 (some credentials) (db_of [] [])).0 ≡ tokens "a7" "r7"
unfolding login access_claims refresh_claims
login_test = refl

login-refresh_example :
    (a : String) × (r : String) × ((refresh services no_faults 200
        (some "r7")
        (login services no_faults 100 (some credentials) (db_of [] [])).1).0
      ≡ tokens a r)
login-refresh_example =
    login-refresh services no_faults 100 200 credentials (db_of [] []) "a7" "r7" signing (tt, tt)
      ((seven_fits, refl), tt) refl refl refl login_test (omega arith)
