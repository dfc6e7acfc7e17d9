-- ===== src/User/Revoked.antt =====
-- What Logout and AdminResetUserPassword take away (pkg/handlers/auth.go, user_admin.go).
use ifritah_go.Prelude.{
  ℕ, List, String, str_eq, true, false, not, ◌||◌, Option, none, some, ◌≡◌, refl, inl, inr, ℤ, ◌==◌,
  pos, eq_ℤ, to_int32, Bool-cases, if_rule, if_same, find_row-none, All, delete_rows,
  delete_rows_sound, All-delete_rows, All-zip,
}
use ifritah_go.User.Table.{RefreshToken, Db, Claims, Services, Query, Faults, is_usable_token}
use ifritah_go.User.Sessions.{
  Detail, Reply, refused, done, refresh_verified, refresh, delete_refresh_tokens_for_user, logout,
  password_reset, invalid_refresh_token, not_a_refresh_token, invalid_token_claims,
  revoked_or_not_found,
}
use ifritah_go.User.Passwords.{
  admin_reset_hashed, admin_reset_user_password, update_user_password, passwords_changed,
}

-- A refusal with 401.
abbrev pub IsUnauthorized : Reply → Type 0
IsUnauthorized r = (d : Detail) × (r ≡ refused 401 d)

abbrev Refuses : Reply × Db → Type 0
Refuses r = IsUnauthorized r.0

unauthorized : (d : Detail) → IsUnauthorized (refused 401 d)
unauthorized d = (d, refl)

module _ (s : Services) (f : Faults) (now : ℕ) (token : String) (db : Db) where
  verified-unusable :
      (found : Option Claims)
      → All (λ t. is_usable_token now (s.sha256_hex token) t ≡ false) db.refresh_tokens
      → Refuses (refresh_verified s f now token found db)
  verified-unusable none h = unauthorized invalid_refresh_token
  verified-unusable (some c) h =
      if_rule Refuses (not (str_eq c.token_type "refresh")) _ _ (unauthorized not_a_refresh_token) (
        if_rule Refuses (str_eq c.username "" || eq_ℤ c.user_id (pos 0)) _ _
          (unauthorized invalid_token_claims)
          (rw
            (
              find_row-none (is_usable_token now (s.sha256_hex token)) db.refresh_tokens h,
              if_same {A = Option RefreshToken} (f Query.get_active_refresh_token_id) none,
            )
            (unauthorized revoked_or_not_found)))

  -- Where no stored token is usable, Refresh refuses.
  pub refresh-unusable :
      All (λ t. is_usable_token now (s.sha256_hex token) t ≡ false) db.refresh_tokens
      → IsUnauthorized (refresh s f now (some token) db).0
  unfolding refresh
  refresh-unusable h = verified-unusable (s.verified now token) h

-- Every stored token of this text is the user's.
abbrev pub IsOwnToken : Services → String → ℤ → RefreshToken → Type 0
IsOwnToken s token user t =
    str_eq t.token_hash (s.sha256_hex token) ≡ true → eq_ℤ t.user_id user ≡ true

own_token-unusable :
    (s : Services) (later : ℕ) (token : String) (user : ℤ) (t : RefreshToken)
    → IsOwnToken s token user t
    → eq_ℤ t.user_id user ≡ false
    → is_usable_token later (s.sha256_hex token) t ≡ false
own_token-unusable s later token user t own gone =
    elim (Bool-cases (str_eq t.token_hash (s.sha256_hex token))) [
      | inl same ↦ absurd (let k = own same in cc)
      | inr other ↦ rw other refl
    ]

deleted-unusable :
    (s : Services) (later : ℕ) (token : String) (user : ℤ) (xs : List RefreshToken)
    → All (IsOwnToken s token user) xs
    → All
        (λ t. is_usable_token later (s.sha256_hex token) t ≡ false)
        (delete_rows (λ t. eq_ℤ t.user_id user) xs)
deleted-unusable s later token user xs own =
    All-zip (IsOwnToken s token user) (λ t. eq_ℤ t.user_id user ≡ false)
      (λ t. is_usable_token later (s.sha256_hex token) t ≡ false)
      (delete_rows (λ t. eq_ℤ t.user_id user) xs)
      (λ t o gone. own_token-unusable s later token user t o gone)
      (All-delete_rows (IsOwnToken s token user) (λ t. eq_ℤ t.user_id user) xs own)
      (delete_rows_sound (λ t. eq_ℤ t.user_id user) xs)

-- After a Logout whose delete does not fail, Refresh answers 401 to each token whose stored rows are the
-- user's, at any later time and whatever fails then.
pub logout-refresh :
    (s : Services) (f g : Faults) (later : ℕ) (user : ℤ) (token : String) (db : Db)
    → f Query.delete_refresh_tokens_for_user ≡ false
    → All (IsOwnToken s token (to_int32 user)) db.refresh_tokens
    → IsUnauthorized (refresh s g later (some token) (logout f user db).1).0
unfolding logout delete_refresh_tokens_for_user
logout-refresh s f g later user token db runs own = rw runs (
    refresh-unusable s g later token _
      (deleted-unusable s later token (to_int32 user) db.refresh_tokens own))

admin_reset_hashed-refresh :
    (s : Services) (f g : Faults) (later : ℕ) (id : ℤ) (hash : Option String) (token : String)
    (db : Db)
    → f Query.delete_refresh_tokens_for_user ≡ false
    → (admin_reset_hashed f id hash db).0 ≡ done password_reset
    → All (IsOwnToken s token id) db.refresh_tokens
    → IsUnauthorized (refresh s g later (some token) (admin_reset_hashed f id hash db).1).0
unfolding delete_refresh_tokens_for_user update_user_password
admin_reset_hashed-refresh s f g later id none token db runs h own = absurd cc
admin_reset_hashed-refresh s f g later id (some hash) token db runs h own =
    elim (Bool-cases (f Query.update_user_password)) [
      | inl failed ↦ absurd (let k = rw failed at h in cc)
      | inr ran ↦ elim (Bool-cases (passwords_changed hash id db == 0)) [
        | inl missing ↦ absurd (let k = rw (ran, missing) at h in cc)
        | inr met ↦
            rw (ran, met, runs)
              (refresh-unusable s g later token _
                (deleted-unusable s later token id db.refresh_tokens own))
      ]
    ]

-- After an AdminResetUserPassword that is answered with "password reset" and whose delete does not fail,
-- Refresh answers 401 to each token whose stored rows are the user's, at any later time and whatever
-- fails then.
pub admin_reset_user_password-refresh :
    (s : Services) (f g : Faults) (later : ℕ) (id : ℤ) (new_password token : String) (db : Db)
    → f Query.delete_refresh_tokens_for_user ≡ false
    → (admin_reset_user_password s f (some id) (some new_password) db).0 ≡ done password_reset
    → All (IsOwnToken s token id) db.refresh_tokens
    → IsUnauthorized
        (refresh s g later
          (some token)
          (admin_reset_user_password s f (some id) (some new_password) db).1).0
unfolding admin_reset_user_password
admin_reset_user_password-refresh s f g later id new_password token db runs h own =
    admin_reset_hashed-refresh s f g later id (s.hash_password new_password) token db runs h own
