-- ===== src/Purchase/Refusals.antt =====
-- The errors of AddPurchaseBill's transaction are refusals (pkg/handlers/purchase_bill.go).
use ifritah_go.Prelude.{
  ℕ, suc, String, Bool, true, false, not, Option, none, some, List, [], ◌∷◌, ◌≡◌, refl, Result, ok,
  err, if_rule, pos, ◌==◌, if◌then◌else◌,
}
use ifritah_go.Prelude.Transaction.{
  pure, statement, OnError, bind_error, then_error, statement_error, of_option_error, pure_error,
  refuse_error,
}
use ifritah_go.Stock.Table.{Stock, Product}
use ifritah_go.Stock.Movements.{StockError, get_stock_enforcement_mode}
use ifritah_go.Purchase.Table.{Purchases, is_number_taken, refresh_purchase_bill_totals}
use ifritah_go.Purchase.Request.{
  PurchaseBillProduct, AddPurchaseBillRequest, PurchaseContext, PurchaseFaults, ProductFaults,
  PurchaseReply, created, updated, deleted, database, bad_request, number_exists, stock_failed,
  purchase_bill_products,
}
use ifritah_go.Purchase.Products.{
  linked_id, save_product, overridden_price, or_existing, kept_or_raised, add_product, append_line,
  found_product, check_store, written_existing, update_existing, update_purchase_inventory_product,
  new_product, insert_product, create_purchase_inventory_product, linked_product,
  purchase_inventory_product, insert_purchase_line, product_line, add_product_to_bill_purchase,
}
use ifritah_go.Purchase.Bill.{
  stocked, is_tracked, record_purchase_bill_stock_movements, recorded, finalize_purchase_bill,
  new_purchase_bill, append_bill, store_bill, finalized, add_transaction,
}

-- The answers of a request that has been carried out.
abbrev pub is_success : PurchaseReply → Bool
is_success created = true
is_success updated = true
is_success deleted = true
is_success _ = false

abbrev pub IsRefusal : PurchaseReply → Type 0
IsRefusal reply = is_success reply ≡ false

module _ (c : PurchaseContext) (f : ProductFaults) (store : ℕ) (movement : Bool)
    (p : PurchaseBillProduct) where
  update_existing-IsRefusal :
      (existing : Product) (db : Purchases)
      → OnError IsRefusal (update_existing c f movement p existing db)
  unfolding update_existing
  update_existing-IsRefusal existing db =
      then_error IsRefusal (written_existing c f movement p existing) (pure (some existing.id)) db
        (statement_error IsRefusal _ bad_request
          (save_product existing (overridden_price c p existing) p.cost_price
            (or_existing p.shelf_number existing.shelf_number) (kept_or_raised movement p existing))
          db refl)
        (λ t. pure_error IsRefusal (some existing.id) t)

  update_purchase_inventory_product-IsRefusal :
      (id : ℕ) (db : Purchases)
      → OnError IsRefusal (update_purchase_inventory_product c f store movement p id db)
  unfolding update_purchase_inventory_product
  update_purchase_inventory_product-IsRefusal id db =
      bind_error IsRefusal (found_product f id) (check_store c f store movement p) db
        (of_option_error IsRefusal bad_request _ db refl)
        (λ existing t.
          if_rule
            (λ (m : Purchases → Result PurchaseReply (Option ℕ) × Purchases).
              OnError IsRefusal (m t))
            (not (existing.store_id == store)) _ _ (refuse_error IsRefusal _ bad_request t refl)
            (update_existing-IsRefusal existing t))

  create_purchase_inventory_product-IsRefusal :
      (db : Purchases)
      → OnError IsRefusal (create_purchase_inventory_product c f store movement p db)
  unfolding create_purchase_inventory_product
  create_purchase_inventory_product-IsRefusal db =
      let row = new_product c store (if movement then pos 0 else p.quantity) p db.next_product in
      then_error IsRefusal (insert_product f row) (pure (some db.next_product)) db
        (statement_error IsRefusal _ bad_request (add_product row) db refl)
        (λ t. pure_error IsRefusal (some db.next_product) t)

  linked_product-IsRefusal :
      (linked : Option ℕ) (db : Purchases)
      → OnError IsRefusal (linked_product c f store movement p linked db)
  linked_product-IsRefusal none db = create_purchase_inventory_product-IsRefusal db
  linked_product-IsRefusal (some id) db = update_purchase_inventory_product-IsRefusal id db

  purchase_inventory_product-IsRefusal :
      (db : Purchases) → OnError IsRefusal (purchase_inventory_product c f store movement p db)
  unfolding purchase_inventory_product
  purchase_inventory_product-IsRefusal db =
      if_rule
        (λ (m : Purchases → Result PurchaseReply (Option ℕ) × Purchases). OnError IsRefusal (m db))
        (not p.track_stock) _ _ (pure_error IsRefusal none db)
        (linked_product-IsRefusal (linked_id p.product_id) db)

add_product_to_bill_purchase-IsRefusal :
    (c : PurchaseContext) (f : ℕ → ProductFaults) (i bill store : ℕ) (movement : Bool)
    (products : List PurchaseBillProduct) (db : Purchases)
    → OnError IsRefusal (add_product_to_bill_purchase c f i bill store movement products db)
unfolding add_product_to_bill_purchase
add_product_to_bill_purchase-IsRefusal c f i bill store movement [] db = pure_error IsRefusal tt db
add_product_to_bill_purchase-IsRefusal c f i bill store movement (p ∷ products) db =
    then_error IsRefusal (product_line c (f i) bill store movement p)
      (add_product_to_bill_purchase c f (suc i) bill store movement products) db
      (bind_error IsRefusal (purchase_inventory_product c (f i) store movement p)
        (insert_purchase_line (f i) bill p) db
        (purchase_inventory_product-IsRefusal c (f i) store movement p db)
        (λ product t. statement_error IsRefusal _ bad_request (append_line bill p product) t refl))
      (λ t. add_product_to_bill_purchase-IsRefusal c f (suc i) bill store movement products t)

module _ (c : PurchaseContext) (f : PurchaseFaults) (request : AddPurchaseBillRequest) where
  stocked-IsRefusal :
      (db : Purchases) (v : Result StockError (Unit {0}) × Stock)
      → OnError IsRefusal (stocked stock_failed db v)
  stocked-IsRefusal db (err e, stock) = refuse_error IsRefusal _ (stock_failed e) _ refl
  stocked-IsRefusal db (ok u, stock) = pure_error IsRefusal tt (record db { stock = stock })

  record-IsRefusal :
      (id : ℕ) (enforcement : String) (db : Purchases)
      → OnError IsRefusal (record_purchase_bill_stock_movements c f id request enforcement db)
  unfolding record_purchase_bill_stock_movements
  record-IsRefusal id enforcement db =
      if_rule (OnError IsRefusal) (not (is_tracked enforcement request.state)) _ _
        (pure_error IsRefusal tt db) (stocked-IsRefusal db _)

  finalized-IsRefusal : (id : ℕ) (db : Purchases) → OnError IsRefusal (finalized c f request id db)
  unfolding finalize_purchase_bill
  finalized-IsRefusal id db =
      let enforcement = get_stock_enforcement_mode c.mode in
      then_error IsRefusal
        (add_product_to_bill_purchase c f.product 0 id request.store_id
          (is_tracked enforcement request.state) (purchase_bill_products request))
        (recorded c f id request enforcement) db
        (add_product_to_bill_purchase-IsRefusal c f.product 0 id request.store_id
          (is_tracked enforcement request.state) (purchase_bill_products request) db)
        (λ t.
          then_error IsRefusal (statement f.totals database (refresh_purchase_bill_totals id))
            (record_purchase_bill_stock_movements c f id request enforcement) t
            (statement_error IsRefusal f.totals database (refresh_purchase_bill_totals id) t refl)
            (λ u. record-IsRefusal id enforcement u))

  store_bill-IsRefusal : (db : Purchases) → OnError IsRefusal (store_bill c f request db)
  store_bill-IsRefusal db =
      if_rule (OnError IsRefusal)
        (is_number_taken db.next_bill request.supplier_id (some request.supplier_sequence_number)
          db.bills)
        _ _ (refuse_error IsRefusal _ number_exists db refl)
        (then_error IsRefusal
          (statement f.insert_bill bad_request
            (append_bill (new_purchase_bill c request db.next_bill)))
          (pure db.next_bill) db
          (statement_error IsRefusal f.insert_bill bad_request
            (append_bill (new_purchase_bill c request db.next_bill)) db refl)
          (λ t. pure_error IsRefusal db.next_bill t))

  -- Whatever stops the transaction of a new bill is answered with a refusal.
  pub add_transaction-IsRefusal :
      (db : Purchases) → OnError IsRefusal (add_transaction c f request db)
  unfolding add_transaction
  add_transaction-IsRefusal db =
      bind_error IsRefusal (store_bill c f request) (finalized c f request) db
        (store_bill-IsRefusal db) (λ id t. finalized-IsRefusal id t)
