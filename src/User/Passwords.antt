-- ===== src/User/Passwords.antt =====
-- ForgotPassword and ResetPassword of pkg/handlers/auth.go, and AdminResetUserPassword of user_admin.go.
-- A body, a path id and the random text of a token are arguments, `none` where they do not parse or
-- cannot be made.
use ifritah_go.Prelude.{
  ℕ, String, str_eq, not, ◌&&◌, ◌+◌, Option, none, some, ◌∷◌, ◌==◌, if◌then◌else◌, ℤ, eq_ℤ,
  find_row, count_rows, update_rows, delete_rows, ltb,
}
use ifritah_go.User.Table.{
  User, ResetToken, Db, Services, Query, Faults, has_id, has_email, is_usable_reset,
}
use ifritah_go.User.Sessions.{
  Reply, done, refused, attempt, delete_refresh_tokens_for_user, invalid_request, link_sent,
  failed_to_generate, invalid_reset_token, hash_password_error, update_password_error,
  password_updated, invalid_user_id, reset_password_error, user_not_found, password_reset,
}

-- InsertPasswordResetToken, which the unique key of token refuses for a hash that is stored.
unfoldable pub insert_password_reset_token : ℤ → String → ℕ → Db → Db
insert_password_reset_token user hash expires db =
    if ltb 0 (count_rows (λ t. str_eq t.token hash) db.reset_tokens) then db else record db {
      reset_tokens =
          record {
            id = db.next_token;
            user_id = user;
            token = hash;
            expires_at = expires;
            used_at = none;
          }
          ∷ db.reset_tokens;
      next_token = 1 + db.next_token;
    }

abbrev pub forgot_found : Services → Faults → ℕ → Option String → Option User → Db → Reply × Db
forgot_found s f now random none db = (done link_sent, db)
forgot_found s f now none (some u) db = (refused 500 failed_to_generate, db)
forgot_found s f now (some random) (some u) db = (
  done link_sent,
  attempt (f Query.insert_password_reset_token) db
      (insert_password_reset_token u.id (s.sha256_hex random) (now + 3600) db),
)

-- The token is sent nowhere yet.
unfoldable pub forgot_password :
    Services → Faults → ℕ → Option String → Option String → Db → Reply × Db
unfolding insert_password_reset_token
forgot_password s f now random none db = (refused 400 invalid_request, db)
forgot_password s f now random (some email) db =
    forgot_found s f now random
      (if f Query.get_user_id_by_email_active
        then none
        else find_row (λ u. has_email s email u && u.is_active) db.users)
      db

-- UpdateUserPassword
unfoldable pub update_user_password : String → ℤ → Db → Db
update_user_password hash id db = record db {
  users = update_rows (has_id id) (λ u. record u { password = hash }) db.users;
}

-- MarkResetTokenUsed
unfoldable pub mark_reset_token_used : ℕ → ℕ → Db → Db
mark_reset_token_used now id db = record db {
  reset_tokens =
      update_rows (λ t. t.id == id) (λ t. record t { used_at = some now }) db.reset_tokens;
}

-- DeleteSessionsForUser
unfoldable pub delete_sessions_for_user : ℤ → Db → Db
delete_sessions_for_user id db = record db {
  session_users = delete_rows (λ user. eq_ℤ user id) db.session_users;
}

pub record ResetRequest : Type 0 where
  pub token : String
  pub new_password : String

abbrev pub reset_hashed : Faults → ℕ → ResetToken → Option String → Db → Reply × Db
reset_hashed f now row none db = (refused 500 hash_password_error, db)
reset_hashed f now row (some hash) db =
    if f Query.update_user_password
    then (refused 500 update_password_error, db)
    else let changed = update_user_password hash row.user_id db in
      let marked =
        attempt (f Query.mark_reset_token_used) changed
          (mark_reset_token_used now row.id changed) in
      (
        done password_updated,
        attempt (f Query.delete_sessions_for_user) marked
            (delete_sessions_for_user row.user_id marked),
      )

abbrev pub reset_found : Services → Faults → ℕ → ResetRequest → Option ResetToken → Db → Reply × Db
reset_found s f now req none db = (refused 400 invalid_reset_token, db)
reset_found s f now req (some row) db = reset_hashed f now row (s.hash_password req.new_password) db

unfoldable pub reset_password : Services → Faults → ℕ → Option ResetRequest → Db → Reply × Db
unfolding update_user_password mark_reset_token_used delete_sessions_for_user
reset_password s f now none db = (refused 400 invalid_request, db)
reset_password s f now (some req) db =
    reset_found s f now req
      (if f Query.get_active_reset_token
        then none
        else find_row (is_usable_reset now (s.sha256_hex req.token)) db.reset_tokens)
      db

-- How many rows UpdateUserPassword changes: a row that has the hash already does not count.
abbrev pub passwords_changed : String → ℤ → Db → ℕ
passwords_changed hash id db =
    count_rows (λ u. has_id id u && not (str_eq u.password hash)) db.users

abbrev pub admin_reset_hashed : Faults → ℤ → Option String → Db → Reply × Db
admin_reset_hashed f id none db = (refused 500 hash_password_error, db)
admin_reset_hashed f id (some hash) db =
    let changed = update_user_password hash id db in
    if f Query.update_user_password
    then (refused 500 reset_password_error, db)
    else if passwords_changed hash id db == 0
    then (refused 404 user_not_found, changed)
    else (
      done password_reset,
      attempt (f Query.delete_refresh_tokens_for_user) changed
          (delete_refresh_tokens_for_user id changed),
    )

unfoldable pub admin_reset_user_password :
    Services → Faults → Option ℤ → Option String → Db → Reply × Db
unfolding update_user_password delete_refresh_tokens_for_user
admin_reset_user_password s f none body db = (refused 400 invalid_user_id, db)
admin_reset_user_password s f (some id) none db = (refused 400 invalid_request, db)
admin_reset_user_password s f (some id) (some new_password) db =
    admin_reset_hashed f id (s.hash_password new_password) db
