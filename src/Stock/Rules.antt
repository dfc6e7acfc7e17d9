-- ===== src/Stock/Rules.antt =====
-- Rules for the loops of pkg/handlers/stock.go: what each line that ends without error does, in a
-- reflexive and transitive relation, the loop does.
use mathlib.Core.Path.{subst}
use ifritah_go.Prelude.{◌≡◌, List, [], ◌∷◌, Result, ok, err}
use ifritah_go.Stock.Table.{Stock}
use ifritah_go.Stock.Movements.{StockError, bind, each}

-- What holds of the state of a result without error.
abbrev pub OnOk {ℓ κ} : {A : Type ℓ} → (Stock → Type κ) → Result StockError A × Stock → Type κ
OnOk P (ok a, s) = P s
OnOk P (err e, s) = Unit

pub of_ok {ℓ κ} :
    {A : Type ℓ} (P : Stock → Type κ) (v : Result StockError A × Stock) {a : A} {t : Stock}
    → v ≡ (ok a, t)
    → OnOk P v
    → P t
of_ok P v e h = subst (OnOk P) e h

module _ (R : Stock → Stock → Type 0) (R_trans : (s t u : Stock) → R s t → R t u → R s u) where
  extend {κ} :
      {B : Type κ} (s t : Stock) (w : Result StockError B × Stock)
      → R s t
      → OnOk (R t) w
      → OnOk (R s) w
  extend s t (ok b, u) h m = R_trans s t u h m
  extend s t (err e, u) h m = tt

  pub bind_rule {ℓ κ} :
      {A : Type ℓ} {B : Type κ} (s : Stock) (v : Result StockError A × Stock)
      (f : A → Stock → Result StockError B × Stock)
      → OnOk (R s) v
      → ((a : A) (t : Stock) → OnOk (R t) (f a t))
      → OnOk (R s) (bind v f)
  bind_rule s (ok a, t) f h k = extend s t (f a t) h (k a t)
  bind_rule s (err e, t) f h k = tt

  pub each_rule {ℓ} :
      {L : Type ℓ} (line : L → Stock → Result StockError (Unit {0}) × Stock)
      → ((s : Stock) → R s s)
      → ((l : L) (s : Stock) → OnOk (R s) (line l s))
      → (ls : List L) (s : Stock) → OnOk (R s) (each line ls s)
  unfolding each
  each_rule line same h [] s = same s
  each_rule line same h (l ∷ ls) s =
      bind_rule s (line l s) _ (h l s) (λ u t. each_rule line same h ls t)
