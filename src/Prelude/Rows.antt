-- ===== src/Prelude/Rows.antt =====
-- The rows of a table that a WHERE clause, as a Boolean test, finds, counts, changes or deletes.
use Prim.Native.Nat.{ℕ, ◌+◌}
use mathlib.Core.Path.{◌≡◌, refl, sym, subst, ◌∙◌}
use mathlib.Core.Logic.{inl, inr}
use mathlib.Core.Bool.{Bool, true, false}
use mathlib.Core.Option.{Option, none, some}
use mathlib.Core.List.{map, List, [], ◌∷◌, Memᴰ}
use ifritah_go.Prelude.Tests.{if◌then◌else◌, Bool-cases, ltb}
use native.Mathlib.Omega.{arith}
use ifritah_go.Prelude.Lists.{All}

module _ {ℓ} {A : Type ℓ} where
  -- SELECT … LIMIT 1
  abbrev pub find_row : (A → Bool) → List A → Option A
  find_row p [] = none
  find_row p (x ∷ xs) = let rest = find_row p xs in if p x then some x else rest

  -- SELECT COUNT(*)
  abbrev pub count_rows : (A → Bool) → List A → ℕ
  count_rows p [] = 0
  count_rows p (x ∷ xs) = (if p x then 1 else 0) + count_rows p xs

  abbrev pub update_rows : (A → Bool) → (A → A) → List A → List A
  update_rows p change [] = []
  update_rows p change (x ∷ xs) = (if p x then change x else x) ∷ update_rows p change xs

  abbrev pub delete_rows : (A → Bool) → List A → List A
  delete_rows p [] = []
  delete_rows p (x ∷ xs) = let rest = delete_rows p xs in if p x then rest else x ∷ rest

  pub find_row_sound :
      (p : A → Bool) (xs : List A) {a : A} → find_row p xs ≡ some a → Memᴰ a xs × (p a ≡ true)
  find_row_sound p [] h = absurd cc
  find_row_sound p (x ∷ xs) {a} h = elim (Bool-cases (p x)) [
    | inl e ↦ let same : x ≡ a = cc in (Memᴰ.head (sym same), subst (λ y. p y ≡ true) same e)
    | inr e ↦ let (m, hit) = find_row_sound p xs (sym (rw e refl) ∙ h) in (Memᴰ.tail m, hit)
  ]

  pub All-update_rows {κ} :
      (P : A → Type κ) (p : A → Bool) (change : A → A) (xs : List A)
      → ((a : A) → p a ≡ true → P a → P (change a))
      → All P xs
      → All P (update_rows p change xs)
  All-update_rows P p change [] keep h = tt
  All-update_rows P p change (x ∷ xs) keep h =
      let rest = All-update_rows P p change xs keep h.1 in
      elim (Bool-cases (p x)) [
        | inl hit ↦ rw hit (keep x hit h.0, rest)
        | inr miss ↦ rw miss (h.0, rest)
      ]

  pub All-updated {κ} :
      (P : A → Type κ) (p : A → Bool) (change : A → A) (xs : List A)
      → All (λ a. P (if p a then change a else a)) xs
      → All P (update_rows p change xs)
  All-updated P p change [] h = tt
  All-updated P p change (x ∷ xs) h = (h.0, All-updated P p change xs h.1)

  pub All-delete_rows {κ} :
      (P : A → Type κ) (p : A → Bool) (xs : List A) → All P xs → All P (delete_rows p xs)
  All-delete_rows P p [] h = tt
  All-delete_rows P p (x ∷ xs) h = elim (Bool-cases (p x)) [
    | inl hit ↦ rw hit (All-delete_rows P p xs h.1)
    | inr miss ↦ rw miss (h.0, All-delete_rows P p xs h.1)
  ]

  -- No row that a DELETE has met is left.
  pub delete_rows_sound : (p : A → Bool) (xs : List A) → All (λ a. p a ≡ false) (delete_rows p xs)
  delete_rows_sound p [] = tt
  delete_rows_sound p (x ∷ xs) = elim (Bool-cases (p x)) [
    | inl hit ↦ rw hit (delete_rows_sound p xs)
    | inr miss ↦ rw miss (miss, delete_rows_sound p xs)
  ]

-- No later key is the same as an earlier one.
abbrev pub AreDistinct {ℓ} : {K : Type ℓ} → (K → K → Bool) → List K → Type 0
AreDistinct same [] = Unit
AreDistinct same (k ∷ ks) = All (λ l. same l k ≡ false) ks × AreDistinct same ks

module _ {ℓ κ} {A : Type ℓ} {K : Type κ} (key : A → K) where
  -- An UPDATE that leaves a column alone.
  pub map-update_rows :
      (p : A → Bool) (change : A → A) (xs : List A)
      → ((a : A) → key (change a) ≡ key a)
      → map key (update_rows p change xs) ≡ map key xs
  map-update_rows p change [] same = refl
  map-update_rows p change (x ∷ xs) same = elim (Bool-cases (p x)) [
    | inl hit ↦ rw (hit, same x, map-update_rows p change xs same)
    | inr miss ↦ rw (miss, map-update_rows p change xs same)
  ]

  pub All-of_map {η} : (P : K → Type η) (xs : List A) → All P (map key xs) → All (λ a. P (key a)) xs
  All-of_map P [] h = tt
  All-of_map P (x ∷ xs) h = (h.0, All-of_map P xs h.1)

  pub All-to_map {η} : (P : K → Type η) (xs : List A) → All (λ a. P (key a)) xs → All P (map key xs)
  All-to_map P [] h = tt
  All-to_map P (x ∷ xs) h = (h.0, All-to_map P xs h.1)

module _ {ℓ} {A : Type ℓ} (p : A → Bool) where
  -- A table without a row that passes the test.
  pub count_rows_zero : (xs : List A) → ltb 0 (count_rows p xs) ≡ false → All (λ a. p a ≡ false) xs
  count_rows_zero [] h = tt
  count_rows_zero (x ∷ xs) h = elim (Bool-cases (p x)) [
    | inl hit ↦ absurd (ground arith)
    | inr miss ↦ (miss, count_rows_zero xs (ground arith))
  ]

  pub update_rows_absent :
      (change : A → A) (xs : List A) → All (λ a. p a ≡ false) xs → update_rows p change xs ≡ xs
  update_rows_absent change [] h = refl
  update_rows_absent change (x ∷ xs) h = rw (h.0, update_rows_absent change xs h.1)

  pub find_row-none : (xs : List A) → All (λ a. p a ≡ false) xs → find_row p xs ≡ none
  find_row-none [] h = refl
  find_row-none (x ∷ xs) h = rw h.0 (find_row-none xs h.1)
