-- ===== src/User/Effects.antt =====
-- What Login, Refresh, Logout, ForgotPassword, ResetPassword and AdminResetUserPassword do to the table
-- user.
use ifritah_go.Prelude.{
  ℕ, String, str_eq, not, ◌&&◌, ◌||◌, ◌+◌, Option, none, some, ◌≡◌, refl, ◌==◌, if_rule, ℤ, pos,
  eq_ℤ, Result, ok, err, find_row, count_rows, ltb,
}
use ifritah_go.User.Table.{
  User, RefreshToken, ResetToken, Db, Claims, Services, Query, Faults, is_named,
}
use ifritah_go.User.Sessions.{
  Reply, Detail, LoginRequest, attempt, insert_refresh_token, update_last_login, login_issued,
  login_found, login, issue, rotate_refresh_token, refresh_issued, refresh_user, refresh_row,
  refresh_verified, refresh, delete_refresh_tokens_for_user, logout,
}
use ifritah_go.User.Passwords.{
  insert_password_reset_token, forgot_found, forgot_password, update_user_password,
  mark_reset_token_used, delete_sessions_for_user, ResetRequest, reset_hashed, reset_found,
  reset_password, passwords_changed, admin_reset_hashed, admin_reset_user_password,
}
use ifritah_go.User.Rules.{Becomes, kept, changed, same_admins}

-- Two databases with the same users.
pub record HasSameUsers (db after : Db) : Type 0 where
  pub users : after.users ≡ db.users
  pub next_user : after.next_user ≡ db.next_user

same_users : {db : Db} → HasSameUsers db db
same_users = record { users = refl; next_user = refl }

module _ (s : Services) (db : Db) where
  -- What a handler returns with its database.
  abbrev pub Handled : Reply × Db → Type 0
  Handled r = Becomes s db r.1

  pub of_same_users : {after : Db} → HasSameUsers db after → Becomes s db after
  of_same_users h = kept h.users h.next_user

  pub unchanged : Becomes s db db
  unchanged = kept refl refl

  insert_refresh_token-HasSameUsers :
      (user : ℤ) (hash device ip : String) (expires : ℕ)
      → HasSameUsers db (insert_refresh_token user hash device ip expires db)
  unfolding insert_refresh_token
  insert_refresh_token-HasSameUsers user hash device ip expires =
      if_rule (HasSameUsers db)
        (ltb 0 (count_rows (λ t. str_eq t.token_hash hash) db.refresh_tokens)) _ _ same_users
        (record { users = refl; next_user = refl })

  rotate_refresh_token-HasSameUsers :
      (id : ℕ) (hash : String) (expires : ℕ)
      → HasSameUsers db (rotate_refresh_token id hash expires db)
  unfolding rotate_refresh_token
  rotate_refresh_token-HasSameUsers id hash expires =
      if_rule (HasSameUsers db)
        (ltb 0 (count_rows (λ t. str_eq t.token_hash hash && not (t.id == id)) db.refresh_tokens)) _
        _ same_users (record { users = refl; next_user = refl })

  insert_password_reset_token-HasSameUsers :
      (user : ℤ) (hash : String) (expires : ℕ)
      → HasSameUsers db (insert_password_reset_token user hash expires db)
  unfolding insert_password_reset_token
  insert_password_reset_token-HasSameUsers user hash expires =
      if_rule (HasSameUsers db) (ltb 0 (count_rows (λ t. str_eq t.token hash) db.reset_tokens)) _ _
        same_users (record { users = refl; next_user = refl })

  update_last_login-Becomes :
      (now : ℕ) (id : ℤ) (stored : Db)
      → HasSameUsers db stored
      → Becomes s db (update_last_login now id stored)
  unfolding update_last_login
  update_last_login-Becomes now id stored h =
      changed id (λ u. record u { last_login = some now }) (λ u. refl) (λ u. refl) (λ u k. k)
        (same_admins λ u k. k) (rw h.users refl) h.next_user

  login_issued-Handled :
      (f : Faults) (now : ℕ) (req : LoginRequest) (u : User) (r : Result Detail (String × String))
      → Handled (login_issued s f now req u r db)
  login_issued-Handled f now req u (err e) = unchanged
  login_issued-Handled f now req u (ok (access, refresh)) =
      let stored = attempt (f Query.insert_refresh_token) db (
        insert_refresh_token u.id (s.sha256_hex refresh) req.device_name req.ip_address
          (now + s.refresh_expiration) db) in
      let same : HasSameUsers db stored =
        if_rule (HasSameUsers db) (f Query.insert_refresh_token) _ _ same_users
          (insert_refresh_token-HasSameUsers _ _ _ _ _) in
      if_rule (Becomes s db) (f Query.update_last_login) _ _ (of_same_users same)
        (update_last_login-Becomes now u.id stored same)

  login_found-Handled :
      (f : Faults) (now : ℕ) (req : LoginRequest) (found : Option User)
      → Handled (login_found s f now req found db)
  login_found-Handled f now req none = unchanged
  login_found-Handled f now req (some u) = if_rule Handled (not u.is_active) _ _ unchanged (
      if_rule Handled (not (s.password_matches u.password req.password)) _ _ unchanged
        (login_issued-Handled f now req u (issue s now u.id req.username u.role)))

  pub login-Handled :
      (f : Faults) (now : ℕ) (body : Option LoginRequest) → Handled (login s f now body db)
  unfolding login
  login-Handled f now none = unchanged
  login-Handled f now (some req) =
      if_rule Handled (f Query.get_user_for_login) _ _ unchanged
        (login_found-Handled f now req (find_row (is_named s req.username) db.users))

  refresh_issued-Handled :
      (f : Faults) (now : ℕ) (row : RefreshToken) (r : Result Detail (String × String))
      → Handled (refresh_issued s f now row r db)
  refresh_issued-Handled f now row (err e) = unchanged
  refresh_issued-Handled f now row (ok (access, refresh)) =
      if_rule (Becomes s db) (f Query.rotate_refresh_token) _ _ unchanged
        (of_same_users (rotate_refresh_token-HasSameUsers _ _ _))

  refresh_user-Handled :
      (f : Faults) (now : ℕ) (c : Claims) (row : RefreshToken) (found : Option User)
      → Handled (refresh_user s f now c row found db)
  refresh_user-Handled f now c row none = unchanged
  refresh_user-Handled f now c row (some u) =
      if_rule Handled (not u.is_active) _ _ unchanged
        (refresh_issued-Handled f now row (issue s now c.user_id c.username u.role))

  refresh_row-Handled :
      (f : Faults) (now : ℕ) (c : Claims) (found : Option RefreshToken)
      → Handled (refresh_row s f now c found db)
  refresh_row-Handled f now c none = unchanged
  refresh_row-Handled f now c (some row) = refresh_user-Handled f now c row _

  refresh_verified-Handled :
      (f : Faults) (now : ℕ) (token : String) (c : Option Claims)
      → Handled (refresh_verified s f now token c db)
  refresh_verified-Handled f now token none = unchanged
  refresh_verified-Handled f now token (some c) =
      if_rule Handled (not (str_eq c.token_type "refresh")) _ _ unchanged (
        if_rule Handled (str_eq c.username "" || eq_ℤ c.user_id (pos 0)) _ _ unchanged
          (refresh_row-Handled f now c _))

  pub refresh-Handled :
      (f : Faults) (now : ℕ) (token : Option String) → Handled (refresh s f now token db)
  unfolding refresh
  refresh-Handled f now none = unchanged
  refresh-Handled f now (some token) = refresh_verified-Handled f now token (s.verified now token)

  pub logout-Handled : (f : Faults) (user : ℤ) → Handled (logout f user db)
  unfolding logout delete_refresh_tokens_for_user
  logout-Handled f user =
      if_rule (Becomes s db) (f Query.delete_refresh_tokens_for_user) _ _ unchanged (kept refl refl)

  forgot_found-Handled :
      (f : Faults) (now : ℕ) (random : Option String) (found : Option User)
      → Handled (forgot_found s f now random found db)
  forgot_found-Handled f now random none = unchanged
  forgot_found-Handled f now none (some u) = unchanged
  forgot_found-Handled f now (some random) (some u) =
      if_rule (Becomes s db) (f Query.insert_password_reset_token) _ _ unchanged
        (of_same_users (insert_password_reset_token-HasSameUsers _ _ _))

  pub forgot_password-Handled :
      (f : Faults) (now : ℕ) (random email : Option String)
      → Handled (forgot_password s f now random email db)
  unfolding forgot_password
  forgot_password-Handled f now random none = unchanged
  forgot_password-Handled f now random (some email) = forgot_found-Handled f now random _

  -- A change of the password, after which other tables may change.
  new_password-Becomes :
      (hash : String) (id : ℤ) (after : Db)
      → HasSameUsers (update_user_password hash id db) after
      → Becomes s db after
  unfolding update_user_password
  new_password-Becomes hash id after h =
      changed id (λ u. record u { password = hash }) (λ u. refl) (λ u. refl) (λ u k. k)
        (same_admins λ u k. k) h.users h.next_user

  reset_hashed-Handled :
      (f : Faults) (now : ℕ) (row : ResetToken) (hash : Option String)
      → Handled (reset_hashed f now row hash db)
  unfolding mark_reset_token_used delete_sessions_for_user
  reset_hashed-Handled f now row none = unchanged
  reset_hashed-Handled f now row (some hash) =
      let changed = update_user_password hash row.user_id db in
      let marked =
        attempt (f Query.mark_reset_token_used) changed
          (mark_reset_token_used now row.id changed) in
      let same : HasSameUsers changed marked =
        if_rule (HasSameUsers changed) (f Query.mark_reset_token_used) _ _ same_users
          (record { users = refl; next_user = refl }) in
      if_rule Handled (f Query.update_user_password) _ _ unchanged (
        new_password-Becomes hash row.user_id _ (
          if_rule (HasSameUsers changed) (f Query.delete_sessions_for_user) _ _ same
            (record { users = same.users; next_user = same.next_user })))

  reset_found-Handled :
      (f : Faults) (now : ℕ) (req : ResetRequest) (found : Option ResetToken)
      → Handled (reset_found s f now req found db)
  reset_found-Handled f now req none = unchanged
  reset_found-Handled f now req (some row) =
      reset_hashed-Handled f now row (s.hash_password req.new_password)

  pub reset_password-Handled :
      (f : Faults) (now : ℕ) (body : Option ResetRequest) → Handled (reset_password s f now body db)
  unfolding reset_password
  reset_password-Handled f now none = unchanged
  reset_password-Handled f now (some req) = reset_found-Handled f now req _

  admin_reset_hashed-Handled :
      (f : Faults) (id : ℤ) (hash : Option String) → Handled (admin_reset_hashed f id hash db)
  unfolding delete_refresh_tokens_for_user
  admin_reset_hashed-Handled f id none = unchanged
  admin_reset_hashed-Handled f id (some hash) =
      let changed = update_user_password hash id db in
      if_rule Handled (f Query.update_user_password) _ _ unchanged (
        if_rule Handled (passwords_changed hash id db == 0) _ _
          (new_password-Becomes hash id _ same_users)
          (new_password-Becomes hash id _ (
            if_rule (HasSameUsers changed) (f Query.delete_refresh_tokens_for_user) _ _ same_users
              (record { users = refl; next_user = refl }))))

  pub admin_reset_user_password-Handled :
      (f : Faults) (param : Option ℤ) (body : Option String)
      → Handled (admin_reset_user_password s f param body db)
  unfolding admin_reset_user_password
  admin_reset_user_password-Handled f none body = unchanged
  admin_reset_user_password-Handled f (some id) none = unchanged
  admin_reset_user_password-Handled f (some id) (some new_password) =
      admin_reset_hashed-Handled f id (s.hash_password new_password)
