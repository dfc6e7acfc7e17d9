-- ===== src/Sale/Step.antt =====
-- A step of a sale's transaction: it works on the tables, and it can fail. What it has written is still
-- there when it fails, until the transaction is rolled back.
use ifritah_go.Prelude.{Bool, Option, none, some, Result, ok, err, if◌then◌else◌}
use ifritah_go.Sale.Table.{Sales}
use ifritah_go.Sale.Request.{Refusal}

-- `lost_race` is the error of the key uq_bill_pos_request.
pub data Failure : Type 0 where
  refused : Refusal → Failure
  lost_race : Failure

abbrev pub Step {ℓ} : Type ℓ → Type ℓ
Step A = Sales → Result Failure A × Sales

abbrev pub pure {ℓ} : {A : Type ℓ} → A → Step A
pure a s = (ok a, s)

abbrev pub refuse {ℓ} : {A : Type ℓ} → Refusal → Step A
refuse r s = (err (refused r), s)

infixl 5 ◌>>=◌ ◌>>◌
unfoldable pub ◌>>=◌ {ℓ κ} : {A : Type ℓ} {B : Type κ} → Step A → (A → Step B) → Step B
◌>>=◌ m f s = let (r, t) = m s in elim r [ ok a ↦ f a t | err e ↦ (err e, t) ]

unfoldable pub ◌>>◌ {ℓ κ} : {A : Type ℓ} {B : Type κ} → Step A → Step B → Step B
unfolding ◌>>=◌
m >> k = m >>= λ _. k

-- A statement that can fail, and then writes nothing.
abbrev pub statement : Bool → Refusal → (Sales → Sales) → Step (Unit {0})
statement failing r write s = if failing then (err (refused r), s) else (ok tt, write s)

abbrev pub of_option {ℓ} : {A : Type ℓ} → Refusal → Option A → Step A
of_option r none = refuse r
of_option r (some a) = pure a

abbrev pub of_result {ℓ} : {A : Type ℓ} → Result Refusal A → Step A
of_result (ok a) = pure a
of_result (err r) = refuse r
