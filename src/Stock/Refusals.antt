-- ===== src/Stock/Refusals.antt =====
-- In enforce mode: what a sale and a reversal of a purchase refuse (recordSaleMovements and
-- reversePurchaseMovements of pkg/handlers/stock.go).
use ifritah_go.Prelude.{
  ℕ, Bool, true, false, Option, none, some, List, [], ◌∷◌, ◌||◌, ◌≡◌, ltb_ℤ, Result, ok, err,
}
use ifritah_go.Stock.Table.{Stock}
use ifritah_go.Stock.Movements.{
  LineFaults, StockError, insufficient, cannot_delete, update_failed, insert_failed, load_failed,
}
use ifritah_go.Stock.Levels.{InStock}

-- Why a transaction stops: a level is below what is asked for, or a statement failed. `update`, `insert`
-- and `load` say whether a statement of that kind fails.
abbrev pub IsExplained : Bool → Bool → Bool → StockError → Type 0
IsExplained update insert load (insufficient id available requested) =
    ltb_ℤ available requested ≡ true
IsExplained update insert load (cannot_delete id available requested) =
    ltb_ℤ available requested ≡ true
IsExplained update insert load (update_failed id) = update ≡ true
IsExplained update insert load (insert_failed id) = insert ≡ true
IsExplained update insert load load_failed = load ≡ true

abbrev OnErr {ℓ} : {A : Type ℓ} → (StockError → Type 0) → Result StockError A × Stock → Type 0
OnErr P (ok a, s) = Unit {0}
OnErr P (err e, s) = P e

abbrev pub any_update {ℓ} : {L : Type ℓ} → List (L × LineFaults) → Bool
any_update [] = false
any_update ((l, f) ∷ ls) = f.update || any_update ls

abbrev pub any_insert {ℓ} : {L : Type ℓ} → List (L × LineFaults) → Bool
any_insert [] = false
any_insert ((l, f) ∷ ls) = f.insert || any_insert ls

-- The product is in stock, or the transaction stops for a reason.
abbrev pub StaysOrStops {ℓ} :
    {A : Type ℓ} → ℕ → Bool → Bool → Bool → Result StockError A × Stock → Type 0
StaysOrStops id update insert load (ok a, t) = InStock id t
StaysOrStops id update insert load (err e, t) = IsExplained update insert load e

-- What the rows of a reversal are, if they load.
abbrev pub rows_of {ℓ} : {L : Type ℓ} → Option (List L) → List L
rows_of none = []
rows_of (some ls) = ls

abbrev pub fails_to_load {ℓ} : {L : Type ℓ} → Option L → Bool
fails_to_load none = true
fails_to_load (some ls) = false
