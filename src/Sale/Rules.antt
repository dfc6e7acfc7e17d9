-- ===== src/Sale/Rules.antt =====
-- Rules for the steps of a sale's transaction.
use mathlib.Core.Path.{subst}
use ifritah_go.Prelude.{Bool, true, false, ◌≡◌, refl, Option, none, some, Result, ok, err}
use ifritah_go.Sale.Table.{Sales}
use ifritah_go.Sale.Request.{Refusal}
use ifritah_go.Sale.Step.{Failure, Step, ◌>>=◌, ◌>>◌, statement, of_option}

-- What holds of the value and the tables of a step that does not fail.
unfoldable pub Post {ℓ κ} : {A : Type ℓ} → (A → Sales → Type κ) → Result Failure A × Sales → Type κ
Post Q (ok a, t) = Q a t
Post Q (err e, t) = Unit

pub of_post {ℓ κ} :
    {A : Type ℓ} (Q : A → Sales → Type κ) {v : Result Failure A × Sales} {a : A} {t : Sales}
    → v ≡ (ok a, t)
    → Post Q v
    → Q a t
unfolding Post
of_post Q e h = subst (Post Q) e h

bound {ℓ ℓ' κ κ'} :
    {A : Type ℓ} {B : Type ℓ'} (Q : A → Sales → Type κ) (R : B → Sales → Type κ') (f : A → Step B)
    (v : Result Failure A × Sales)
    → Post Q v
    → ((a : A) (t : Sales) → Q a t → Post R (f a t))
    → Post R (
        let (r, t) = v in
        elim r as (λ _. Result Failure B × Sales) [ ok a ↦ f a t | err e ↦ (err e, t) ])
unfolding Post
bound Q R f (ok a, t) h k = k a t h
bound Q R f (err e, t) h k = tt

pub bind_rule {ℓ ℓ' κ κ'} :
    {A : Type ℓ} {B : Type ℓ'} (Q : A → Sales → Type κ) (R : B → Sales → Type κ') (m : Step A)
    (f : A → Step B) (s : Sales)
    → Post Q (m s)
    → ((a : A) (t : Sales) → Q a t → Post R (f a t))
    → Post R ((m >>= f) s)
unfolding ◌>>=◌
bind_rule Q R m f s h k = bound Q R f (m s) h k

pub then_rule {ℓ ℓ' κ κ'} :
    {A : Type ℓ} {B : Type ℓ'} (Q : A → Sales → Type κ) (R : B → Sales → Type κ') (m : Step A)
    (k : Step B) (s : Sales)
    → Post Q (m s)
    → ((a : A) (t : Sales) → Q a t → Post R (k t))
    → Post R ((m >> k) s)
unfolding ◌>>◌
then_rule Q R m k s h next = bind_rule Q R m (λ _. k) s h next

pub statement_rule {κ} :
    (Q : Unit {0} → Sales → Type κ) (failing : Bool) (r : Refusal) (write : Sales → Sales)
    (s : Sales)
    → Q tt (write s)
    → Post Q (statement failing r write s)
unfolding Post
statement_rule Q true r write s h = tt
statement_rule Q false r write s h = h

pub of_option_rule {ℓ κ} :
    {A : Type ℓ} (Q : A → Sales → Type κ) (r : Refusal) (found : Option A) (s : Sales)
    → ((a : A) → found ≡ some a → Q a s)
    → Post Q (of_option r found s)
unfolding Post
of_option_rule Q r none s h = tt
of_option_rule Q r (some a) s h = h a refl

pub impossible_rule {ℓ κ} :
    {A : Type ℓ} (R : A → Sales → Type κ) (v : Result Failure A × Sales)
    → Post (λ a t. ⊥) v
    → Post R v
unfolding Post
impossible_rule R (ok a, t) h = absurd h
impossible_rule R (err e, t) h = tt

pub weaken_rule {ℓ κ κ'} :
    {A : Type ℓ} (Q : A → Sales → Type κ) (R : A → Sales → Type κ') (v : Result Failure A × Sales)
    → ((a : A) (t : Sales) → Q a t → R a t)
    → Post Q v
    → Post R v
unfolding Post
weaken_rule Q R (ok a, t) h k = h a t k
weaken_rule Q R (err e, t) h k = tt
