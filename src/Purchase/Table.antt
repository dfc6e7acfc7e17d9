-- ===== src/Purchase/Table.antt =====
-- The tables of purchase bills (pkg/db/goose/00001_baseline.sql) with the statements of
-- pkg/db/queries/purchase_bill.sql and product.sql. Money is an integer count of hundredths, a quantity
-- one of thousandths, and a time a natural number. An id that the database makes up is the next value
-- of a counter. Columns that no purchase handler reads or writes are left out.
use ifritah_go.Prelude.{
  ℕ, ◌+◌, ◌*◌, ◌/◌, String, Bool, false, not, ◌&&◌, ◌||◌, Option, none, some, List, [], ◌∷◌, ◌==◌,
  if◌then◌else◌, ℤ, pos, ◌+ℤ◌, eq_ℤ, leb_ℤ, ltb_ℤ, pos_part, find_row, count_rows, update_rows,
  delete_rows, ltb,
}
use ifritah_go.Stock.Table.{Product, Stock}

pub record PurchaseBill : Type 0 where
  pub id : ℕ
  pub effective_date : ℕ
  pub payment_due_date : Option ℕ
  pub state : ℤ
  pub discount : ℤ
  pub supplier_id : ℤ
  pub sequence_number : Option ℕ
  pub supplier_sequence_number : Option ℕ
  pub store_id : ℕ
  pub merchant_id : ℤ
  pub pdf_link : Option String
  pub payment_method : ℤ
  pub deliver_date : Option ℕ
  pub total_before_vat : ℤ
  pub total_vat : ℤ
  pub total : ℤ

-- A row of purchase_bill_product; the column type is 0 with a product and 1 without.
pub record PurchaseLine : Type 0 where
  pub id : ℕ
  pub product_id : Option ℕ
  pub bill_id : ℕ
  pub name : String
  pub price : ℤ
  pub cost_price : ℤ
  pub shelf_number : Option String
  pub quantity : ℤ

pub record Purchases : Type 0 where
  pub bills : List PurchaseBill
  pub lines : List PurchaseLine
  pub stock : Stock
  pub next_bill : ℕ
  pub next_line : ℕ
  pub next_product : ℕ

abbrev pub has_number : ℤ → Option ℕ → PurchaseBill → Bool
has_number supplier none b = false
has_number supplier (some n) b =
    eq_ℤ b.supplier_id supplier
    && (elim b.supplier_sequence_number [ none ↦ false | some m ↦ m == n ])

-- The key uq_pb_supplier_seq: another bill of the supplier has the number.
abbrev pub is_number_taken : ℕ → ℤ → Option ℕ → List PurchaseBill → Bool
is_number_taken id supplier number bills =
    ltb 0 (count_rows (λ b. has_number supplier number b && not (b.id == id)) bills)

abbrev pub live_product : Option Product → Option Product
live_product none = none
live_product (some p) = if p.is_deleted then none else some p

-- GetProduct: a product that is not deleted.
abbrev pub get_product : ℕ → List Product → Option Product
get_product id products = live_product (find_row (λ p. p.id == id) products)

-- UpdateProduct
unfoldable pub update_product : ℕ → ℤ → ℤ → Option String → ℤ → List Product → List Product
update_product id price cost shelf quantity products =
    update_rows (λ p. p.id == id)
      (λ p. record p {
        price = price;
        cost_price = cost;
        shelf_number = shelf;
        quantity = quantity;
      })
      products

-- ch_product_price and ch_product_quantity
abbrev pub is_bad_product : ℤ → ℤ → Bool
is_bad_product price quantity = leb_ℤ price (pos 0) || ltb_ℤ quantity (pos 0)

-- The generated columns of purchase_bill_product at the default vat of 15, for the positive price and
-- quantity that its constraints ask for.
abbrev pub line_before_vat : PurchaseLine → ℤ
line_before_vat l = pos ((pos_part l.price * pos_part l.quantity + 500) / 1000)

abbrev pub line_vat : PurchaseLine → ℤ
line_vat l = pos ((pos_part (line_before_vat l) * 15 + 50) / 100)

abbrev pub line_including_vat : PurchaseLine → ℤ
line_including_vat l = line_before_vat l +ℤ line_vat l

-- `SELECT SUM(…) … WHERE bill_id = ?`
unfoldable pub sum_lines : (PurchaseLine → ℤ) → ℕ → List PurchaseLine → ℤ
sum_lines amount id [] = pos 0
sum_lines amount id (l ∷ lines) =
    (if l.bill_id == id then amount l else pos 0) +ℤ sum_lines amount id lines

-- RefreshPurchaseBillTotals
unfoldable pub refresh_purchase_bill_totals : ℕ → Purchases → Purchases
unfolding sum_lines
refresh_purchase_bill_totals id db = record db {
  bills =
      update_rows (λ b. b.id == id)
        (λ b. record b {
          total_before_vat = sum_lines line_before_vat id db.lines;
          total_vat = sum_lines line_vat id db.lines;
          total = sum_lines line_including_vat id db.lines;
        })
        db.bills;
}

-- DeleteProductPurchaseBill
unfoldable pub delete_product_purchase_bill : ℕ → Purchases → Purchases
delete_product_purchase_bill id db = record db {
  lines = delete_rows (λ l. l.bill_id == id) db.lines;
}
