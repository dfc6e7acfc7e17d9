-- ===== src/Stock/Table.antt =====
-- The tables product and stock_movements as pkg/handlers/stock.go uses them, with the statements of
-- pkg/db/queries/stock.sql and product.sql. A quantity is an integer count of thousandths, the last
-- place of the columns: a request that gives more than three places, which the columns would round, is
-- outside the model.
use ifritah_go.Prelude.{
  ℕ, String, Bool, not, false, ◌&&◌, Option, none, some, List, [], ◌∷◌, ◌==◌, if◌then◌else◌, ℤ, pos,
  ◌+ℤ◌, ltb_ℤ,
}

-- The constants of pkg/model/stock.go.
abbrev pub movement_type_purchase : String
movement_type_purchase = "purchase"

abbrev pub movement_type_sale : String
movement_type_sale = "sale"

abbrev pub movement_type_adjustment : String
movement_type_adjustment = "adjustment"

abbrev pub movement_type_deletion : String
movement_type_deletion = "deletion"

abbrev pub reference_type_purchase_bill : String
reference_type_purchase_bill = "purchase_bill"

abbrev pub reference_type_bill : String
reference_type_bill = "bill"

abbrev pub reference_type_manual : String
reference_type_manual = "manual"

abbrev pub stock_enforcement_disable : String
stock_enforcement_disable = "disable"

abbrev pub stock_enforcement_enforce : String
stock_enforcement_enforce = "enforce"

pub record Product : Type 0 where
  pub id : ℕ
  pub store_id : ℕ
  pub quantity : ℤ
  pub price : ℤ
  pub cost_price : ℤ
  pub shelf_number : Option String
  pub name : Option String
  pub is_deleted : Bool

-- The note of a movement: an Arabic label with the number of the document behind a '#', or the text of
-- the request.
pub data Note : Type 0 where
  sale_invoice sale_invoice_cancelled purchase_invoice_cancelled : ℤ → Note
  purchase_invoice : ℕ → Note
  plain : String → Note

pub record Movement : Type 0 where
  pub product_id : ℕ
  pub store_id : ℕ
  pub quantity : ℤ
  pub movement_type : String
  pub reference_type : String
  pub reference_id : Option ℕ
  pub item_id : Option ℕ
  pub reason : Option String
  pub note : Option Note
  pub created_by : ℤ
  pub created_at : ℕ

pub record Stock : Type 0 where
  pub products : List Product
  pub movements : List Movement

-- UpdateProductQuantity, where it is not refused: `SET quantity = quantity + ? WHERE id = ?`.
unfoldable pub add_quantity : ℕ → ℤ → List Product → List Product
add_quantity id delta [] = []
add_quantity id delta (p ∷ ps) =
    (if p.id == id then record p { quantity = p.quantity +ℤ delta } else p)
    ∷ add_quantity id delta ps

-- SearchQuantityByID: `SELECT quantity FROM product WHERE id = ?`.
unfoldable pub quantity_of : ℕ → List Product → Option ℤ
quantity_of id [] = none
quantity_of id (p ∷ ps) =
    let rest = quantity_of id ps in if p.id == id then some p.quantity else rest

-- The constraint ch_product_quantity: an UPDATE that would take the row below zero is refused. `id` is
-- the primary key, so the row is the one that the query above finds.
abbrev pub below_zero : Option ℤ → ℤ → Bool
below_zero none delta = false
below_zero (some quantity) delta = ltb_ℤ (quantity +ℤ delta) (pos 0)

abbrev pub breaks_check : ℕ → ℤ → List Product → Bool
breaks_check id delta ps = below_zero (quantity_of id ps) delta

-- GetProductQuantity: the store and quantity of a product that is not deleted.
unfoldable pub product_quantity : ℕ → List Product → Option (ℕ × ℤ)
product_quantity id [] = none
product_quantity id (p ∷ ps) =
    let rest = product_quantity id ps in
    if p.id == id && not p.is_deleted then some (p.store_id, p.quantity) else rest

-- GetStockLedgerSum: the sum of a product's movements.
unfoldable pub ledger : ℕ → List Movement → ℤ
ledger id [] = pos 0
ledger id (m ∷ ms) = (if m.product_id == id then m.quantity else pos 0) +ℤ ledger id ms

-- updateProductQuantity, where the statement is not refused.
unfoldable pub update_product_quantity : ℕ → ℤ → Stock → Stock
unfolding add_quantity
update_product_quantity id delta s = record s { products = add_quantity id delta s.products }

unfoldable pub insert_stock_movement : Movement → Stock → Stock
insert_stock_movement m s = record s { movements = m ∷ s.movements }
