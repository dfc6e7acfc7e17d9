-- ===== src/User/OneReset.antt =====
-- How often the token of a password reset serves (ResetPassword of pkg/handlers/auth.go).
use mathlib.Core.Path.{subst}
use ifritah_go.Prelude.{
  if_rule, ==_refl, ℕ, List, [], ◌∷◌, String, str_eq, str_eq_iff, true, false, Option, none, some,
  ◌≡◌, refl, sym, ◌∙◌, inl, inr, arith, if◌then◌else◌, ◌==◌, Bool-cases, if_same, find_row,
  find_row_sound, find_row-none, All, All-map, All-mem, map, All-of_map, AreDistinct, update_rows,
  All-update_rows, found_unless,
}
use ifritah_go.User.Table.{ResetToken, Db, Services, Query, Faults, is_usable_reset}
use ifritah_go.User.Sessions.{refused, done, password_updated, invalid_reset_token}
use ifritah_go.User.Passwords.{
  ResetRequest, reset_hashed, reset_found, reset_password, update_user_password,
  mark_reset_token_used, delete_sessions_for_user,
}

abbrev token_of : ResetToken → String
token_of t = t.token

module _ (now later : ℕ) (hash : String) where
  abbrev IsDead : ResetToken → Type 0
  IsDead t = is_usable_reset later hash t ≡ false

  other-IsDead : (t : ResetToken) → str_eq t.token hash ≡ false → IsDead t
  other-IsDead t h = rw h refl

  marked-IsDead : (t : ResetToken) → IsDead (record t { used_at = some now })
  marked-IsDead t = ground arith

  abbrev marked : ℕ → List ResetToken → List ResetToken
  marked id xs = update_rows (λ t. t.id == id) (λ t. record t { used_at = some now }) xs

  others-IsDead :
      (id : ℕ) (xs : List ResetToken)
      → All (λ t. str_eq t.token hash ≡ false) xs
      → All IsDead (marked id xs)
  others-IsDead id xs h =
      All-update_rows IsDead (λ t. t.id == id) (λ t. record t { used_at = some now }) xs
        (λ t hit d. marked-IsDead t) (All-map _ IsDead xs other-IsDead h)

  usable_token : (t : ResetToken) → is_usable_reset now hash t ≡ true → t.token ≡ hash
  usable_token t h = (str_eq_iff t.token hash).0 (ground arith)

  own-IsDead :
      (x : ResetToken) → IsDead (if x.id == x.id then record x { used_at = some now } else x)
  own-IsDead x = rw (==_refl x.id) (marked-IsDead x)

  apart-IsDead :
      (x row : ResetToken) → row.token ≡ hash → str_eq row.token x.token ≡ false → IsDead x
  apart-IsDead x row same apart = elim (Bool-cases (str_eq x.token hash)) [
    | inr other ↦ other-IsDead x other
    | inl equal ↦
        let back =
          (str_eq_iff row.token x.token).1 (same ∙ sym ((str_eq_iff x.token hash).0 equal)) in
        absurd cc
  ]

  -- The row that serves is marked, and no other row has its text.
  marked-IsUsedUp :
      (xs : List ResetToken) (row : ResetToken)
      → AreDistinct str_eq (map token_of xs)
      → find_row (is_usable_reset now hash) xs ≡ some row
      → All IsDead (marked row.id xs)
  marked-IsUsedUp [] row d e = absurd cc
  marked-IsUsedUp (x ∷ xs) row d e = elim (Bool-cases (is_usable_reset now hash x)) [
    | inl hit ↦
        let same : x ≡ row = let k = rw hit at e in cc in
        let rest =
          subst (λ h. All (λ t. str_eq t.token h ≡ false) xs) (usable_token x hit)
            (All-of_map token_of (λ k. str_eq k x.token ≡ false) xs d.0) in
        subst (λ r. All IsDead (marked r.id (x ∷ xs))) same
          (own-IsDead x, others-IsDead x.id xs rest)
    | inr miss ↦
        let k = rw miss at e in
        let (m, hit) = find_row_sound (is_usable_reset now hash) xs k in
        let apart =
          All-mem (λ t. str_eq t.token x.token ≡ false) row xs
            (All-of_map token_of (λ k. str_eq k x.token ≡ false) xs d.0) m in
        (
          if_rule IsDead (x.id == row.id) _ _ (marked-IsDead x)
              (apart-IsDead x row (usable_token row hit) apart),
          marked-IsUsedUp xs row d.1 k,
        )
  ]

module _ (s : Services) (f : Faults) (now : ℕ) (req : ResetRequest) (db : Db) where
  -- What a reset that is answered with "password updated" does to the reset tokens.
  reset_hashed-tokens :
      (row : ResetToken) (hash : Option String)
      → f Query.mark_reset_token_used ≡ false
      → (reset_hashed f now row hash db).0 ≡ done password_updated
      → (reset_hashed f now row hash db).1.reset_tokens
        ≡ update_rows (λ t. t.id == row.id) (λ t. record t { used_at = some now }) db.reset_tokens
  unfolding update_user_password mark_reset_token_used delete_sessions_for_user
  reset_hashed-tokens row none runs h = absurd cc
  reset_hashed-tokens row (some hash) runs h = elim (Bool-cases (f Query.update_user_password)) [
    | inl failed ↦ absurd (let k = rw failed at h in cc)
    | inr ran ↦ elim (Bool-cases (f Query.delete_sessions_for_user)) [
      | inl stuck ↦ rw (ran, runs, stuck) refl
      | inr gone ↦ rw (ran, runs, gone) refl
    ]
  ]

  reset_found-IsDead :
      (later : ℕ) (found : Option ResetToken)
      → f Query.mark_reset_token_used ≡ false
      → AreDistinct str_eq (map token_of db.reset_tokens)
      → ((row : ResetToken)
          → found ≡ some row
          → find_row (is_usable_reset now (s.sha256_hex req.token)) db.reset_tokens ≡ some row)
      → (reset_found s f now req found db).0 ≡ done password_updated
      → All
          (IsDead now later (s.sha256_hex req.token))
          (reset_found s f now req found db).1.reset_tokens
  reset_found-IsDead later none runs d from h = absurd cc
  reset_found-IsDead later (some row) runs d from h =
      rw (reset_hashed-tokens row (s.hash_password req.new_password) runs h)
        (marked-IsUsedUp now later (s.sha256_hex req.token) db.reset_tokens row d (from row refl))

  -- A token that has set a password sets no other: where ResetPassword has answered "password updated",
  -- and the statement that marks the token has not failed, each later ResetPassword with that token is
  -- refused, the texts of the stored tokens being distinct.
  pub reset_password-once :
      (g : Faults) (later : ℕ) (new_password : String)
      → f Query.mark_reset_token_used ≡ false
      → AreDistinct str_eq (map token_of db.reset_tokens)
      → (reset_password s f now (some req) db).0 ≡ done password_updated
      → (reset_password s g later
          (some (record { token = req.token; new_password = new_password }))
          (reset_password s f now (some req) db).1).0
        ≡ refused 400 invalid_reset_token
  unfolding reset_password
  reset_password-once g later new_password runs d h =
      let dead =
        reset_found-IsDead later _ runs d
          (λ row e. found_unless (f Query.get_active_reset_token) _ e) h in
      rw
        (
          find_row-none (is_usable_reset later (s.sha256_hex req.token)) _ dead,
          if_same {A = Option ResetToken} (g Query.get_active_reset_token) none,
        )
        refl
