-- ===== src/Prelude/Transaction.antt =====
-- A database transaction as a function on the state: a result, and the state that its statements have
-- written when it ends. The handler commits the state or rolls it back.
use mathlib.Core.Path.{◌≡◌, refl, subst}
use mathlib.Core.Bool.{Bool, true, false}
use mathlib.Core.Option.{Option, none, some}
use ifritah_go.Prelude.Tests.{Result, ok, err, if◌then◌else◌}

abbrev pub Tx {ℓ κ η} : Type ℓ → Type κ → Type η → Type (ℓ ⊔ κ ⊔ η)
Tx S E A = S → Result E A × S

module _ {ℓ κ} {S : Type ℓ} {E : Type κ} where
  abbrev pub pure {η} : {A : Type η} → A → Tx S E A
  pure a s = (ok a, s)

  abbrev pub refuse {η} : {A : Type η} → E → Tx S E A
  refuse e s = (err e, s)

  infixl 5 ◌>>=◌ ◌>>◌
  unfoldable pub ◌>>=◌ {η ν} : {A : Type η} {B : Type ν} → Tx S E A → (A → Tx S E B) → Tx S E B
  ◌>>=◌ m f s = let (r, t) = m s in elim r [ ok a ↦ f a t | err e ↦ (err e, t) ]

  unfoldable pub ◌>>◌ {η ν} : {A : Type η} {B : Type ν} → Tx S E A → Tx S E B → Tx S E B
  unfolding ◌>>=◌
  m >> k = m >>= λ _. k

  -- A statement that can fail, and then writes nothing.
  abbrev pub statement : Bool → E → (S → S) → Tx S E (Unit {0})
  statement failing e write s = if failing then (err e, s) else (ok tt, write s)

  abbrev pub of_option {η} : {A : Type η} → E → Option A → Tx S E A
  of_option e none = refuse e
  of_option e (some a) = pure a

  -- What holds of the value and the state of a transaction that does not fail.
  unfoldable pub Post {η ν} : {A : Type η} → (A → S → Type ν) → Result E A × S → Type ν
  Post Q (ok a, t) = Q a t
  Post Q (err e, t) = Unit

  pub of_post {η ν} :
      {A : Type η} (Q : A → S → Type ν) {v : Result E A × S} {a : A} {t : S}
      → v ≡ (ok a, t)
      → Post Q v
      → Q a t
  unfolding Post
  of_post Q e h = subst (Post Q) e h

  bound {η η' ν ν'} :
      {A : Type η} {B : Type η'} (Q : A → S → Type ν) (R : B → S → Type ν') (f : A → Tx S E B)
      (v : Result E A × S)
      → Post Q v
      → ((a : A) (t : S) → Q a t → Post R (f a t))
      → Post R
          (let (r, t) = v in elim r as (λ _. Result E B × S) [ ok a ↦ f a t | err e ↦ (err e, t) ])
  unfolding Post
  bound Q R f (ok a, t) h k = k a t h
  bound Q R f (err e, t) h k = tt

  pub bind_rule {η η' ν ν'} :
      {A : Type η} {B : Type η'} (Q : A → S → Type ν) (R : B → S → Type ν') (m : Tx S E A)
      (f : A → Tx S E B) (s : S)
      → Post Q (m s)
      → ((a : A) (t : S) → Q a t → Post R (f a t))
      → Post R ((m >>= f) s)
  unfolding ◌>>=◌
  bind_rule Q R m f s h k = bound Q R f (m s) h k

  pub then_rule {η η' ν ν'} :
      {A : Type η} {B : Type η'} (Q : A → S → Type ν) (R : B → S → Type ν') (m : Tx S E A)
      (k : Tx S E B) (s : S)
      → Post Q (m s)
      → ((a : A) (t : S) → Q a t → Post R (k t))
      → Post R ((m >> k) s)
  unfolding ◌>>◌
  then_rule Q R m k s h next = bind_rule Q R m (λ _. k) s h next

  pub statement_rule {ν} :
      (Q : Unit {0} → S → Type ν) (failing : Bool) (e : E) (write : S → S) (s : S)
      → (failing ≡ false → Q tt (write s))
      → Post Q (statement failing e write s)
  unfolding Post
  statement_rule Q true e write s h = tt
  statement_rule Q false e write s h = h refl

  pub of_option_rule {η ν} :
      {A : Type η} (Q : A → S → Type ν) (e : E) (found : Option A) (s : S)
      → ((a : A) → found ≡ some a → Q a s)
      → Post Q (of_option e found s)
  unfolding Post
  of_option_rule Q e none s h = tt
  of_option_rule Q e (some a) s h = h a refl

-- What holds after a transaction may be weakened.
pub weaken_rule {ℓ κ η ν ν'} :
    {S : Type ℓ} {E : Type κ} {A : Type η} (Q : A → S → Type ν) (R : A → S → Type ν')
    (v : Result E A × S)
    → ((a : A) (t : S) → Q a t → R a t)
    → Post Q v
    → Post R v
unfolding Post
weaken_rule Q R (ok a, t) h k = h a t k
weaken_rule Q R (err e, t) h k = tt

-- A result without error.
pub pure_rule {ℓ κ η ν} :
    {S : Type ℓ} (E : Type κ) {A : Type η} (Q : A → S → Type ν) (a : A) (s : S)
    → Q a s
    → Post {E = E} Q (pure a s)
unfolding Post
pure_rule E Q a s h = h

pub refuse_rule {ℓ κ η ν} :
    {S : Type ℓ} {E : Type κ} {A : Type η} (Q : A → S → Type ν) (e : E) (s : S)
    → Post Q (refuse e s)
unfolding Post
refuse_rule Q e s = tt

-- What holds of the error of a transaction that fails.
unfoldable pub OnError {ℓ κ η ν} :
    {S : Type ℓ} {E : Type κ} {A : Type η} → (E → Type ν) → Result E A × S → Type ν
OnError P (ok a, t) = Unit
OnError P (err e, t) = P e

-- The rules for a predicate on errors.
module _ {ℓ κ ν} {S : Type ℓ} {E : Type κ} (P : E → Type ν) where
  error_bound {η η'} :
      {A : Type η} {B : Type η'} (f : A → Tx S E B) (v : Result E A × S)
      → OnError P v
      → ((a : A) (t : S) → OnError P (f a t))
      → OnError P
          (let (r, t) = v in elim r as (λ _. Result E B × S) [ ok a ↦ f a t | err e ↦ (err e, t) ])
  unfolding OnError
  error_bound f (ok a, t) h k = k a t
  error_bound f (err e, t) h k = h

  pub bind_error {η η'} :
      {A : Type η} {B : Type η'} (m : Tx S E A) (f : A → Tx S E B) (s : S)
      → OnError P (m s)
      → ((a : A) (t : S) → OnError P (f a t))
      → OnError P ((m >>= f) s)
  unfolding ◌>>=◌
  bind_error m f s h k = error_bound f (m s) h k

  pub then_error {η η'} :
      {A : Type η} {B : Type η'} (m : Tx S E A) (k : Tx S E B) (s : S)
      → OnError P (m s)
      → ((t : S) → OnError P (k t))
      → OnError P ((m >> k) s)
  unfolding ◌>>◌
  then_error m k s h next = bind_error m (λ _. k) s h (λ a t. next t)

  pub statement_error :
      (failing : Bool) (e : E) (write : S → S) (s : S)
      → P e
      → OnError P (statement failing e write s)
  unfolding OnError
  statement_error true e write s h = h
  statement_error false e write s h = tt

  pub of_option_error {η} :
      {A : Type η} (e : E) (found : Option A) (s : S) → P e → OnError P (of_option e found s)
  unfolding OnError
  of_option_error e none s h = h
  of_option_error e (some a) s h = tt

  pub pure_error {η} : {A : Type η} (a : A) (s : S) → OnError {E = E} P (pure a s)
  unfolding OnError
  pure_error a s = tt

  pub refuse_error {η} : (A : Type η) (e : E) (s : S) → P e → OnError {A = A} P (refuse e s)
  unfolding OnError
  refuse_error A e s h = h
