-- ===== src/User/LoggedIn.antt =====
-- What Login of pkg/handlers/auth.go leaves behind.
use mathlib.Core.Path.{subst}
use mathlib.Core.List.{Memᴰ}
use ifritah_go.Prelude.{
  ℕ, ◌<◌, ◌+◌, List, [], ◌∷◌, String, str_eq, str_eq_iff, true, false, Option, none, some, ◌≡◌,
  refl, sym, ap, ◌∙◌, inl, inr, arith, Bool-cases, Result, ok, err, ℤ, eq_ℤ, eq_ℤ_refl, ltb,
  count_rows, find_row, find_row_sound, All-mem, map, All-of_map, AreDistinct, update_rows,
}
use ifritah_go.User.Table.{
  User, RefreshToken, Db, Services, Query, Faults, has_id, is_named, is_usable_token,
}
use ifritah_go.User.Sessions.{
  Detail, tokens, LoginRequest, refresh_claims, issue, insert_refresh_token, update_last_login,
  login_issued, login_found, login,
}
use ifritah_go.User.Rules.{id_of}
use ifritah_go.User.Refreshed.{both_signed-ok}

-- The row of an id, where no other has it.
find_row-of_mem :
    (u : User) (xs : List User)
    → AreDistinct eq_ℤ (map id_of xs)
    → Memᴰ u xs
    → find_row (has_id u.id) xs ≡ some u
find_row-of_mem u [] d m = elim m [ ]
find_row-of_mem u (x ∷ xs) d (Memᴰ.head e) =
    subst (λ y. find_row (has_id u.id) (y ∷ xs) ≡ some u) e (rw (eq_ℤ_refl u.id) refl)
find_row-of_mem u (x ∷ xs) d (Memᴰ.tail m) =
    let apart =
      All-mem (λ y. eq_ℤ y.id x.id ≡ false) u xs
        (All-of_map id_of (λ k. eq_ℤ k x.id ≡ false) xs d.0) m in
    let other : has_id u.id x ≡ false = ground arith in rw (other, find_row-of_mem u xs d.1 m) refl

abbrev seen : ℕ → User → User
seen now u = record u { last_login = some now }

find_row-seen :
    (now : ℕ) (id : ℤ) (u : User) (xs : List User)
    → find_row (has_id id) xs ≡ some u
    → find_row (has_id id) (update_rows (has_id id) (seen now) xs) ≡ some (seen now u)
find_row-seen now id u [] e = absurd cc
find_row-seen now id u (x ∷ xs) e = elim (Bool-cases (has_id id x)) [
  | inl hit ↦
      let this : x ≡ u = let k = rw hit at e in cc in rw hit (rw hit (ap some (ap (seen now) this)))
  | inr miss ↦ rw miss (rw miss (find_row-seen now id u xs (rw miss at e)))
]

-- What a login that is answered with tokens leaves: an active row for the user, and a token that is
-- usable until it expires.
pub record IsLoggedIn (s : Services) (now : ℕ) (req : LoginRequest) (db after : Db) (token : String)
    : Type 0 where
  pub user : User
  pub known : Memᴰ user db.users
  pub signed : s.sign (refresh_claims s now user.id req.username) ≡ some token
  pub found :
      AreDistinct eq_ℤ (map id_of db.users)
      → (u : User) × (find_row (has_id user.id) after.users ≡ some u) × (u.is_active ≡ true)
  pub stored :
      (later : ℕ)
      → later < now + s.refresh_expiration
      → (row : RefreshToken) × (find_row
            (is_usable_token later (s.sha256_hex token))
            after.refresh_tokens
          ≡ some row)

module _ (s : Services) (f : Faults) (now : ℕ) (req : LoginRequest) (db : Db)
    (access token : String) (runs : f Query.insert_refresh_token ≡ false)
    (new : ltb 0 (count_rows (λ t. str_eq t.token_hash (s.sha256_hex token)) db.refresh_tokens)
      ≡ false) where
  abbrev new_row : User → RefreshToken
  new_row u = record {
    id = db.next_token;
    user_id = u.id;
    token_hash = s.sha256_hex token;
    device_name = req.device_name;
    ip_address = req.ip_address;
    revoked = false;
    expires_at = now + s.refresh_expiration;
  }

  new_row-found :
      (u : User) (later : ℕ)
      → later < now + s.refresh_expiration
      → find_row (is_usable_token later (s.sha256_hex token)) (new_row u ∷ db.refresh_tokens)
        ≡ some (new_row u)
  new_row-found u later early =
      let same = (str_eq_iff (s.sha256_hex token) (s.sha256_hex token)).1 refl in
      let before : ltb later (now + s.refresh_expiration) ≡ true = ground arith in
      rw (same, before) refl

  login_issued-IsLoggedIn :
      (u : User)
      → Memᴰ u db.users
      → u.is_active ≡ true
      → issue s now u.id req.username u.role ≡ ok (access, token)
      → IsLoggedIn s now req db (login_issued s f now req u (ok (access, token)) db).1 token
  unfolding insert_refresh_token update_last_login
  login_issued-IsLoggedIn u m on issued = elim (Bool-cases (f Query.update_last_login)) [
    | inl failed ↦ record {
      user = u;
      known = m;
      signed = (both_signed-ok _ _ access token issued).1;
      found = λ d. (u, rw (runs, new, failed) (find_row-of_mem u db.users d m), on);
      stored = λ later early. (new_row u, rw (runs, new, failed) (new_row-found u later early));
    }
    | inr ran ↦ record {
      user = u;
      known = m;
      signed = (both_signed-ok _ _ access token issued).1;
      found = λ d. (
        seen now u,
        rw (runs, new, ran) (find_row-seen now u.id u db.users (find_row-of_mem u db.users d m)),
        on,
      );
      stored = λ later early. (new_row u, rw (runs, new, ran) (new_row-found u later early));
    }
  ]

  login_result-IsLoggedIn :
      (u : User) (issued : Result Detail (String × String))
      → Memᴰ u db.users
      → u.is_active ≡ true
      → issue s now u.id req.username u.role ≡ issued
      → (login_issued s f now req u issued db).0 ≡ tokens access token
      → IsLoggedIn s now req db (login_issued s f now req u issued db).1 token
  login_result-IsLoggedIn u (err e) m on issued h = absurd cc
  login_result-IsLoggedIn u (ok (a, r)) m on issued h =
      let same : (a, r) ≡ (access, token) = cc in
      subst (λ p. IsLoggedIn s now req db (login_issued s f now req u (ok p) db).1 token) (sym same)
        (login_issued-IsLoggedIn u m on (issued ∙ ap ok same))

  login_found-IsLoggedIn :
      (found : Option User)
      → ((u : User) → found ≡ some u → Memᴰ u db.users)
      → (login_found s f now req found db).0 ≡ tokens access token
      → IsLoggedIn s now req db (login_found s f now req found db).1 token
  login_found-IsLoggedIn none known h = absurd cc
  login_found-IsLoggedIn (some u) known h = elim (Bool-cases u.is_active) [
    | inr off ↦ absurd (let k = rw off at h in cc)
    | inl on ↦ elim (Bool-cases (s.password_matches u.password req.password)) [
      | inr wrong ↦ absurd (let k = rw (on, wrong) at h in cc)
      | inl right ↦
          rw (on, right)
            (login_result-IsLoggedIn u (issue s now u.id req.username u.role) (known u refl) on refl
              (rw (on, right) at h))
    ]
  ]

  pub login-IsLoggedIn :
      (login s f now (some req) db).0 ≡ tokens access token
      → IsLoggedIn s now req db (login s f now (some req) db).1 token
  unfolding login
  login-IsLoggedIn h = elim (Bool-cases (f Query.get_user_for_login)) [
    | inl failed ↦ absurd (let k = rw failed at h in cc)
    | inr ran ↦ rw ran (
        login_found-IsLoggedIn (find_row (is_named s req.username) db.users)
          (λ u e. (find_row_sound (is_named s req.username) db.users e).0) (rw ran at h))
  ]
