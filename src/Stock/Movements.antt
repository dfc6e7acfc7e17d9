-- ===== src/Stock/Movements.antt =====
-- The movement recorders of pkg/handlers/stock.go. Each statement of a loop can fail, and a line
-- carries the outcomes of its own statements; what the queries over the bill tables return, `none`
-- for an error, is an argument.
use ifritah_go.Prelude.{
  ℕ, String, str_eq, Bool, ◌&&◌, ◌||◌, Option, none, some, List, [], ◌∷◌, ◌++◌, if◌then◌else◌, ℤ,
  neg_ℤ, ltb_ℤ, Result, ok, err,
}
use ifritah_go.Stock.Table.{
  Stock, Movement, Note, breaks_check, quantity_of, update_product_quantity, insert_stock_movement,
  movement_type_sale, movement_type_purchase, movement_type_deletion, reference_type_bill,
  reference_type_purchase_bill, stock_enforcement_disable, stock_enforcement_enforce,
}

-- `none` when the query fails or finds no setting.
unfoldable pub get_stock_enforcement_mode : Option String → String
get_stock_enforcement_mode none = stock_enforcement_disable
get_stock_enforcement_mode (some mode) = mode

-- Which statements of one line fail.
pub record LineFaults : Type 0 where
  pub search : Bool
  pub update : Bool
  pub insert : Bool

pub data StockError : Type 0 where
  insufficient : ℕ → ℤ → ℤ → StockError
  cannot_delete : ℕ → ℤ → ℤ → StockError
  update_failed : ℕ → StockError
  insert_failed : ℕ → StockError
  load_failed : StockError

pub record StockWarning : Type 0 where
  pub product_id : ℕ
  pub available : ℤ
  pub requested : ℤ

-- Who acts and when: userID and time.Now().
pub record Actor : Type 0 where
  pub user_id : ℤ
  pub now : ℕ

-- tx.SearchQuantityByID: `none` for any error, a missing row included.
abbrev pub search_quantity : LineFaults → ℕ → Stock → Option ℤ
search_quantity f id s = if f.search then none else quantity_of id s.products

-- The two writes that end every line: the quantity, then the movement.
unfoldable pub move {ℓ} :
    {A : Type ℓ} → LineFaults → ℕ → ℤ → Movement → A → Stock → Result StockError A × Stock
move f id delta m result s =
    if f.update || breaks_check id delta s.products
    then (err (update_failed id), s)
    else if f.insert
    then (err (insert_failed id), update_product_quantity id delta s)
    else (ok result, insert_stock_movement m (update_product_quantity id delta s))

-- The next statement runs only if the one before met no error.
abbrev pub bind {ℓ κ} :
    {A : Type ℓ} {B : Type κ}
    → Result StockError A × Stock
    → (A → Stock → Result StockError B × Stock)
    → Result StockError B × Stock
bind (ok a, s) f = f a s
bind (err e, s) f = (err e, s)

-- A loop that stops at the first error.
unfoldable pub each {ℓ} :
    {L : Type ℓ}
    → (L → Stock → Result StockError (Unit {0}) × Stock)
    → List L
    → Stock
    → Result StockError (Unit {0}) × Stock
each line [] s = (ok tt, s)
each line (l ∷ ls) s = bind (line l s) (λ u t. each line ls t)

-- model.BillProduct, with at most two places in a price and three in a quantity.
pub record BillProduct : Type 0 where
  pub product_id : Option ℕ
  pub name : String
  pub part_name : String
  pub price : ℤ
  pub quantity : ℤ
  pub discount : ℤ

unfoldable pub sale_movement : Actor → ℕ → ℤ → ℕ → ℤ → Movement
sale_movement actor store_id seq_number id quantity = record {
  product_id = id;
  store_id = store_id;
  quantity = neg_ℤ quantity;
  movement_type = movement_type_sale;
  reference_type = reference_type_bill;
  reference_id = none;
  item_id = none;
  reason = none;
  note = some (Note.sale_invoice seq_number);
  created_by = actor.user_id;
  created_at = actor.now;
}

-- The body of the loop of recordSaleMovements from the stock check on.
unfoldable pub sale_product :
    Actor
    → ℕ
    → ℤ
    → String
    → LineFaults
    → ℕ
    → ℤ
    → Option ℤ
    → Stock
    → Result StockError (Option StockWarning) × Stock
sale_product actor store_id seq_number enforcement f id quantity none s = (ok none, s)
sale_product actor store_id seq_number enforcement f id quantity (some current) s =
    let short = ltb_ℤ current quantity in
    if short && str_eq enforcement stock_enforcement_enforce
    then (err (insufficient id current quantity), s)
    else move f id (neg_ℤ quantity) (sale_movement actor store_id seq_number id quantity)
        (if short
          then some (record { product_id = id; available = current; requested = quantity })
          else none)
        s

unfoldable pub sale_line :
    Actor
    → ℕ
    → ℤ
    → String
    → BillProduct × LineFaults
    → Stock
    → Result StockError (Option StockWarning) × Stock
unfolding sale_product
sale_line actor store_id seq_number enforcement (p, f) s = elim p.product_id [
  | none ↦ (ok none, s)
  | some id ↦
      sale_product actor store_id seq_number enforcement f id p.quantity (search_quantity f id s) s
]

abbrev pub add_warning : List StockWarning → Option StockWarning → List StockWarning
add_warning warnings none = warnings
add_warning warnings (some w) = warnings ++ (w ∷ [])

unfoldable pub sale_lines :
    Actor
    → ℕ
    → ℤ
    → String
    → List (BillProduct × LineFaults)
    → List StockWarning
    → Stock
    → Result StockError (List StockWarning) × Stock
sale_lines actor store_id seq_number enforcement [] warnings s = (ok warnings, s)
sale_lines actor store_id seq_number enforcement (l ∷ ls) warnings s =
    bind (sale_line actor store_id seq_number enforcement l s)
      (λ w t. sale_lines actor store_id seq_number enforcement ls (add_warning warnings w) t)

unfoldable pub record_sale_movements :
    Actor
    → ℕ
    → ℤ
    → String
    → List (BillProduct × LineFaults)
    → Stock
    → Result StockError (List StockWarning) × Stock
unfolding sale_lines
record_sale_movements actor store_id seq_number enforcement lines s =
    if str_eq enforcement stock_enforcement_disable
    then (ok [], s)
    else sale_lines actor store_id seq_number enforcement lines [] s

-- A line of a saved bill or purchase bill, joined with its bill.
pub record SavedLine : Type 0 where
  pub id : ℕ
  pub product_id : Option ℕ
  pub quantity : ℤ
  pub store_id : ℕ
  pub sequence_number : ℤ

unfoldable pub deletion_movement : Actor → String → (ℤ → Note) → ℕ → ℕ → ℤ → SavedLine → Movement
deletion_movement actor reference_type label bill_id id quantity row = record {
  product_id = id;
  store_id = row.store_id;
  quantity = quantity;
  movement_type = movement_type_deletion;
  reference_type = reference_type;
  reference_id = some bill_id;
  item_id = some row.id;
  reason = none;
  note = some (label row.sequence_number);
  created_by = actor.user_id;
  created_at = actor.now;
}

unfoldable pub reverse_sale_line :
    Actor → ℕ → SavedLine × LineFaults → Stock → Result StockError (Unit {0}) × Stock
reverse_sale_line actor bill_id (row, f) s = elim row.product_id [
  | none ↦ (ok tt, s)
  | some id ↦
      move f id row.quantity
        (deletion_movement actor reference_type_bill Note.sale_invoice_cancelled bill_id id
          row.quantity row)
        tt s
]

-- reverseSaleMovements; `rows` is what GetProductOfBill returns.
unfoldable pub reverse_sale_movements :
    Actor
    → ℕ
    → Option String
    → Option (List (SavedLine × LineFaults))
    → Stock
    → Result StockError (Unit {0}) × Stock
unfolding get_stock_enforcement_mode reverse_sale_line
reverse_sale_movements actor bill_id mode rows s =
    if str_eq (get_stock_enforcement_mode mode) stock_enforcement_disable
    then (ok tt, s)
    else elim rows [
      | none ↦ (err load_failed, s)
      | some lines ↦ each (reverse_sale_line actor bill_id) lines s
    ]

unfoldable pub purchase_movement : Actor → ℕ → ℕ → ℕ → ℕ → ℤ → Movement
purchase_movement actor pb_id store_id seq_number id quantity = record {
  product_id = id;
  store_id = store_id;
  quantity = quantity;
  movement_type = movement_type_purchase;
  reference_type = reference_type_purchase_bill;
  reference_id = some pb_id;
  item_id = none;
  reason = none;
  note = some (Note.purchase_invoice seq_number);
  created_by = actor.user_id;
  created_at = actor.now;
}

unfoldable pub purchase_line :
    Actor → ℕ → ℕ → ℕ → SavedLine × LineFaults → Stock → Result StockError (Unit {0}) × Stock
purchase_line actor pb_id store_id seq_number (row, f) s = elim row.product_id [
  | none ↦ (ok tt, s)
  | some id ↦
      move f id row.quantity (purchase_movement actor pb_id store_id seq_number id row.quantity) tt
        s
]

-- recordPurchaseMovements; `rows` is what GetPurchaseBillProducts returns.
unfoldable pub record_purchase_movements :
    Actor
    → ℕ
    → ℕ
    → ℕ
    → String
    → Option (List (SavedLine × LineFaults))
    → Stock
    → Result StockError (Unit {0}) × Stock
unfolding purchase_line
record_purchase_movements actor pb_id store_id seq_number enforcement rows s =
    if str_eq enforcement stock_enforcement_disable then (ok tt, s) else elim rows [
      | none ↦ (err load_failed, s)
      | some lines ↦ each (purchase_line actor pb_id store_id seq_number) lines s
    ]

-- What the check of reversePurchaseMovements in enforce mode decides.
pub data Check : Type 0 where
  pass skip : Check
  block : ℤ → Check

abbrev pub check_quantity : Option ℤ → ℤ → Check
check_quantity none quantity = skip
check_quantity (some current) quantity = if ltb_ℤ current quantity then block current else pass

abbrev pub check_reversal : String → LineFaults → ℕ → ℤ → Stock → Check
check_reversal enforcement f id quantity s =
    if str_eq enforcement stock_enforcement_enforce
    then check_quantity (search_quantity f id s) quantity
    else pass

unfoldable pub reverse_purchase_product :
    Actor → ℕ → SavedLine → LineFaults → ℕ → Check → Stock → Result StockError (Unit {0}) × Stock
reverse_purchase_product actor pb_id row f id skip s = (ok tt, s)
reverse_purchase_product actor pb_id row f id (block current) s =
    (err (cannot_delete id current row.quantity), s)
reverse_purchase_product actor pb_id row f id pass s =
    move f id (neg_ℤ row.quantity)
      (deletion_movement actor reference_type_purchase_bill Note.purchase_invoice_cancelled pb_id id
        (neg_ℤ row.quantity) row)
      tt s

-- The query returns no row without a product, so the first case does not arise.
unfoldable pub reverse_purchase_line :
    Actor → ℕ → String → SavedLine × LineFaults → Stock → Result StockError (Unit {0}) × Stock
unfolding reverse_purchase_product
reverse_purchase_line actor pb_id enforcement (row, f) s = elim row.product_id [
  | none ↦ (ok tt, s)
  | some id ↦
      reverse_purchase_product actor pb_id row f id (check_reversal enforcement f id row.quantity s)
        s
]

-- reversePurchaseMovements; `rows` is what GetPurchaseBillProductsByBillIDForStock returns.
unfoldable pub reverse_purchase_movements :
    Actor
    → ℕ
    → Option String
    → Option (List (SavedLine × LineFaults))
    → Stock
    → Result StockError (Unit {0}) × Stock
unfolding get_stock_enforcement_mode reverse_purchase_line
reverse_purchase_movements actor pb_id mode rows s =
    let enforcement = get_stock_enforcement_mode mode in
    if str_eq enforcement stock_enforcement_disable then (ok tt, s) else elim rows [
      | none ↦ (err load_failed, s)
      | some lines ↦ each (reverse_purchase_line actor pb_id enforcement) lines s
    ]
