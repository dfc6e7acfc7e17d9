-- ===== src/Purchase/Tests.antt =====
-- Tests of the purchase bills (pkg/handlers/purchase_bill.go), and their theorems at concrete inputs.
use ifritah_go.Prelude.{
  String, Bool, false, true, Option, none, some, List, [], ◌∷◌, ◌≡◌, refl, ℤ, pos, ◌+ℤ◌, neg_ℤ,
}
use ifritah_go.Prelude.Transaction.{◌>>=◌, ◌>>◌}
use ifritah_go.Outbox.Drain.{Commit}
use ifritah_go.Stock.Table.{
  Product, quantity_of, update_product_quantity, add_quantity, insert_stock_movement,
}
use ifritah_go.Stock.Movements.{
  LineFaults, get_stock_enforcement_mode, record_purchase_movements, each, purchase_line,
  purchase_movement, move, reverse_purchase_movements, reverse_purchase_line,
  reverse_purchase_product, deletion_movement,
}
use ifritah_go.Stock.Ledger.{HasMoved}
use ifritah_go.Purchase.Table.{
  Purchases, update_product, refresh_purchase_bill_totals, sum_lines, delete_product_purchase_bill,
}
use ifritah_go.Purchase.Products.{
  add_product_to_bill_purchase, purchase_inventory_product, update_purchase_inventory_product,
  update_existing,
}
use ifritah_go.Purchase.Bill.{
  add_transaction, finalize_purchase_bill, record_purchase_bill_stock_movements,
}
use ifritah_go.Purchase.Request.{
  validate_purchase_bill_pdf_requirement, purchase_bill_products, PurchaseBillProduct,
  AddPurchaseBillRequest, PurchaseContext, ProductFaults, PurchaseFaults, created,
}
use ifritah_go.Purchase.Handlers.{add_purchase_bill, update_purchase_bill, update_transaction}
use ifritah_go.Purchase.Runs.{
  add, update, PurchaseCall, purchase_reply, run_purchases, run_purchases-HasMoved,
}

abbrev bolt : Product
bolt = record {
  id = 1;
  store_id = 3;
  quantity = pos 5000;
  price = pos 500;
  cost_price = pos 300;
  shelf_number = none;
  name = some "bolt";
  is_deleted = false;
}

abbrev shop : Purchases
shop = record {
  bills = [];
  lines = [];
  stock = record { products = bolt ∷ []; movements = [] };
  next_bill = 10;
  next_line = 20;
  next_product = 2;
}

abbrev context_in : Option String → PurchaseContext
context_in mode = record {
  user_id = pos 7;
  role = "manager";
  now = 100;
  stores = 3 ∷ [];
  mode = mode;
  reversal_mode = mode;
  pdf_setting = "optional";
  markup = some (pos 2000);
  printed = λ n. pos 0;
  trim = λ t. t;
}

abbrev line_faults : LineFaults
line_faults = record { search = false; update = false; insert = false }

abbrev product_faults : ProductFaults
product_faults = record { get = false; update = false; add = false; insert = false }

abbrev nothing_fails : PurchaseFaults
nothing_fails = record {
  begin = false;
  pdf_setting = false;
  insert_bill = false;
  edit_bill = false;
  reversal_rows = false;
  reversal = λ i. line_faults;
  delete_lines = false;
  product = λ i. product_faults;
  totals = false;
  stock_rows = false;
  stock = λ i. line_faults;
  remove_bill = false;
  commit = Commit.committed;
}

abbrev product_of : Option ℤ → Bool → PurchaseBillProduct
product_of id track = record {
  product_id = id;
  price = pos 400;
  name = "bolt";
  cost_price = pos 350;
  shelf_number = none;
  quantity = pos 2000;
  track_stock = track;
  selling_price = none;
}

abbrev bill_request : AddPurchaseBillRequest
bill_request = record {
  store_id = 3;
  state = pos 3;
  effective_date = none;
  payment_due_date = none;
  discount = pos 0;
  products = product_of (some (pos 1)) true ∷ [];
  manual_products = product_of (some (pos 9)) true ∷ [];
  supplier_id = pos 4;
  supplier_sequence_number = 77;
  pdf_link = none;
  payment_method = pos 10;
  deliver_date = none;
}

abbrev call_in : Option String → List PurchaseCall
call_in mode =
    record { context = context_in mode; failing = nothing_fails; request = add (some bill_request) }
    ∷ record {
      context = context_in mode;
      failing = nothing_fails;
      request = update (some 10) (some bill_request);
    }
    ∷ []

created_test :
    (add_purchase_bill (context_in (some "track")) nothing_fails (some bill_request) shop).0
    ≡ created
unfolding quantity_of add_purchase_bill validate_purchase_bill_pdf_requirement add_transaction
    finalize_purchase_bill get_stock_enforcement_mode purchase_bill_products
    add_product_to_bill_purchase purchase_inventory_product update_purchase_inventory_product
    update_existing update_product refresh_purchase_bill_totals sum_lines
    record_purchase_bill_stock_movements record_purchase_movements each purchase_line
    purchase_movement move update_product_quantity add_quantity insert_stock_movement ◌>>=◌ ◌>>◌
    ◌+ℤ◌
created_test = refl

-- With the stock disabled nothing reverses the first quantity, and an edit without a change adds it
-- again: 5 + 2 + 2.
edited_quantity_test :
    quantity_of 1 (run_purchases (call_in none) shop).stock.products ≡ some (pos 9000)
unfolding run_purchases purchase_reply add_purchase_bill update_purchase_bill update_transaction
    validate_purchase_bill_pdf_requirement add_transaction finalize_purchase_bill
    get_stock_enforcement_mode purchase_bill_products add_product_to_bill_purchase
    purchase_inventory_product update_purchase_inventory_product update_existing update_product
    refresh_purchase_bill_totals sum_lines record_purchase_bill_stock_movements
    delete_product_purchase_bill ◌>>=◌ ◌>>◌ ◌+ℤ◌ quantity_of
edited_quantity_test = refl

-- With it on, the edit takes out what the first request put in.
tracked_quantity_test :
    quantity_of 1 (run_purchases (call_in (some "track")) shop).stock.products ≡ some (pos 7000)
unfolding run_purchases purchase_reply add_purchase_bill update_purchase_bill update_transaction
    validate_purchase_bill_pdf_requirement add_transaction finalize_purchase_bill
    get_stock_enforcement_mode purchase_bill_products add_product_to_bill_purchase
    purchase_inventory_product update_purchase_inventory_product update_existing update_product
    refresh_purchase_bill_totals sum_lines record_purchase_bill_stock_movements
    record_purchase_movements each purchase_line purchase_movement move update_product_quantity
    add_quantity insert_stock_movement reverse_purchase_movements reverse_purchase_line
    reverse_purchase_product deletion_movement delete_product_purchase_bill ◌>>=◌ ◌>>◌ ◌+ℤ◌ neg_ℤ
    quantity_of
tracked_quantity_test = refl

run_purchases-HasMoved_example :
    HasMoved 1 shop.stock (pos 5000) (run_purchases (call_in (some "track")) shop).stock
unfolding quantity_of get_stock_enforcement_mode
run_purchases-HasMoved_example =
    run_purchases-HasMoved 1 (pos 5000) (call_in (some "track")) shop (refl, ((refl, refl), tt))
      refl
