-- ===== src/Purchase/History.antt =====
-- Committed purchase bills, their edits and deletions, one after another, against the ledger of
-- movements (pkg/handlers/purchase_bill.go).
use ifritah_go.Prelude.{
  ℕ, String, str_eq, true, not, Option, none, some, ◌≡◌, ◌==◌, refl, Result, ok, err, if_rule,
  contains,
}
use ifritah_go.Prelude.Transaction.{
  pure, ◌>>◌, statement, Post, bind_rule, then_rule, pure_rule, refuse_rule, statement_rule,
}
use ifritah_go.Stock.Table.{Stock, stock_enforcement_disable}
use ifritah_go.Stock.Movements.{
  StockError, get_stock_enforcement_mode, purchase_line, reverse_purchase_line,
  record_purchase_movements, reverse_purchase_movements,
}
use ifritah_go.Stock.Ledger.{Keeps, Keeps-refl}
use ifritah_go.Stock.Rules.{OnOk}
use ifritah_go.Stock.Conservation.{purchase_line-Keeps, reverse_purchase_line-Keeps}
use ifritah_go.Outbox.Drain.{Commit}
use ifritah_go.Stock.History.{loaded-Keeps}
use ifritah_go.Purchase.Table.{
  Purchases, is_number_taken, refresh_purchase_bill_totals, delete_product_purchase_bill,
}
use ifritah_go.Purchase.Request.{
  AddPurchaseBillRequest, PurchaseContext, PurchaseFaults, PurchaseReply, stock_refused,
  stock_failed, database, bad_request, number_exists, purchase_bill_products,
}
use ifritah_go.Purchase.Products.{add_product_to_bill_purchase}
use ifritah_go.Purchase.Bill.{
  purchase_actor, stocked, is_tracked, record_purchase_bill_stock_movements, recorded,
  finalize_purchase_bill, new_purchase_bill, append_bill, store_bill, finalized, add_transaction,
}
use ifritah_go.Purchase.Handlers.{
  committed, with_setup, unless_refused, write_edit, reversed, reversed_if_enforced, rewritten,
  update_transaction, delete_softly, live_bills, edited, marked_deleted, delete_transaction,
}
use ifritah_go.Purchase.Ledger.{Holds, from_earlier, add_product_to_bill_purchase-Holds}

module _ (id : ℕ) where
  stocked-Holds :
      (refusal : StockError → PurchaseReply) (db : Purchases)
      (v : Result StockError (Unit {0}) × Stock)
      → OnOk (Keeps id db.stock) v
      → Post (Holds id db) (stocked refusal db v)
  stocked-Holds refusal db (err e, stock) h = refuse_rule (Holds id db) (refusal e) _
  stocked-Holds refusal db (ok u, stock) h =
      pure_rule PurchaseReply (Holds id db) tt (record db { stock = stock }) h

  record-Holds :
      (c : PurchaseContext) (f : PurchaseFaults) (bill : ℕ) (request : AddPurchaseBillRequest)
      (enforcement : String) (db : Purchases)
      → Post (Holds id db) (record_purchase_bill_stock_movements c f bill request enforcement db)
  unfolding record_purchase_bill_stock_movements record_purchase_movements
  record-Holds c f bill request enforcement db =
      if_rule (Post (Holds id db)) (not (is_tracked enforcement request.state)) _ _
        (pure_rule PurchaseReply (Holds id db) tt db (Keeps-refl id db.stock))
        (stocked-Holds stock_failed db _ (
          loaded-Keeps id
            (purchase_line (purchase_actor c) bill request.store_id
              request.supplier_sequence_number)
            _ _ db.stock
            (purchase_line-Keeps id (purchase_actor c) bill request.store_id
              request.supplier_sequence_number)))

  finalize-Holds :
      (c : PurchaseContext) (f : PurchaseFaults) (bill : ℕ) (request : AddPurchaseBillRequest)
      (enforcement : String) (db : Purchases)
      → is_tracked enforcement request.state ≡ true
      → Post (Holds id db) (finalize_purchase_bill c f bill request enforcement db)
  unfolding finalize_purchase_bill refresh_purchase_bill_totals
  finalize-Holds c f bill request enforcement db tracked = rw tracked (
      then_rule (Holds id db) (Holds id db)
        (add_product_to_bill_purchase c f.product 0 bill request.store_id true
          (purchase_bill_products request))
        (recorded c f bill request enforcement) db
        (add_product_to_bill_purchase-Holds id c f.product 0 bill request.store_id
          (purchase_bill_products request) db)
        (λ a t h.
          then_rule (Holds id db) (Holds id db)
            (statement f.totals database (refresh_purchase_bill_totals bill))
            (record_purchase_bill_stock_movements c f bill request enforcement) t
            (statement_rule (Holds id db) f.totals database (refresh_purchase_bill_totals bill) t
              λ runs. h)
            (λ b u k. from_earlier id db u _ k (record-Holds c f bill request enforcement u))))

  reversed-Holds :
      (c : PurchaseContext) (f : PurchaseFaults) (bill : ℕ) (db : Purchases)
      → Post (Holds id db) (reversed c f bill db)
  unfolding reverse_purchase_movements
  reversed-Holds c f bill db = stocked-Holds stock_refused db _ (
      loaded-Keeps id
        (reverse_purchase_line (purchase_actor c) bill (get_stock_enforcement_mode c.reversal_mode))
        _ _ db.stock
        (reverse_purchase_line-Keeps id (purchase_actor c) bill
          (get_stock_enforcement_mode c.reversal_mode)))

  store_bill-Holds :
      (c : PurchaseContext) (f : PurchaseFaults) (request : AddPurchaseBillRequest) (db : Purchases)
      → Post (Holds id db) (store_bill c f request db)
  store_bill-Holds c f request db =
      if_rule (Post (Holds id db))
        (is_number_taken db.next_bill request.supplier_id (some request.supplier_sequence_number)
          db.bills)
        _ _ (refuse_rule (Holds id db) number_exists db)
        (then_rule (Holds id db) (Holds id db)
          (statement f.insert_bill bad_request
            (append_bill (new_purchase_bill c request db.next_bill)))
          (pure db.next_bill) db
          (statement_rule (Holds id db) f.insert_bill bad_request
            (append_bill (new_purchase_bill c request db.next_bill)) db
            λ runs. Keeps-refl id db.stock)
          (λ a t h. pure_rule PurchaseReply (Holds id db) db.next_bill t h))

  pub add_transaction-Holds :
      (c : PurchaseContext) (f : PurchaseFaults) (request : AddPurchaseBillRequest) (db : Purchases)
      → is_tracked (get_stock_enforcement_mode c.mode) request.state ≡ true
      → Post (Holds id db) (add_transaction c f request db)
  unfolding add_transaction
  add_transaction-Holds c f request db tracked =
      bind_rule (Holds id db) (Holds id db) (store_bill c f request) (finalized c f request) db
        (store_bill-Holds c f request db)
        (λ bill t h.
          from_earlier id db t _ h
            (finalize-Holds c f bill request (get_stock_enforcement_mode c.mode) t tracked))

  write_edit-Holds :
      (c : PurchaseContext) (f : PurchaseFaults) (bill : ℕ) (request : AddPurchaseBillRequest)
      (db : Purchases)
      → Post (Holds id db) (write_edit c f bill request db)
  write_edit-Holds c f bill request db =
      if_rule (Post (Holds id db))
        (is_number_taken bill request.supplier_id (some request.supplier_sequence_number) db.bills)
        _ _ (refuse_rule (Holds id db) number_exists db)
        (statement_rule (Holds id db) f.edit_bill bad_request (edited c bill request) db
          λ runs. Keeps-refl id db.stock)

  reversed_if_enforced-Holds :
      (c : PurchaseContext) (f : PurchaseFaults) (bill : ℕ) (db : Purchases)
      → Post (Holds id db) (reversed_if_enforced c f bill db)
  reversed_if_enforced-Holds c f bill db =
      if_rule (Post (Holds id db))
        (str_eq (get_stock_enforcement_mode c.mode) stock_enforcement_disable) _ _
        (pure_rule PurchaseReply (Holds id db) tt db (Keeps-refl id db.stock))
        (reversed-Holds c f bill db)

  rewritten-Holds :
      (c : PurchaseContext) (f : PurchaseFaults) (bill : ℕ) (request : AddPurchaseBillRequest)
      (db : Purchases)
      → is_tracked (get_stock_enforcement_mode c.mode) request.state ≡ true
      → Post (Holds id db) (rewritten c f bill request db)
  unfolding delete_product_purchase_bill
  rewritten-Holds c f bill request db tracked =
      then_rule (Holds id db) (Holds id db)
        (statement f.delete_lines bad_request (delete_product_purchase_bill bill))
        (finalized c f request bill) db
        (statement_rule (Holds id db) f.delete_lines bad_request (delete_product_purchase_bill bill)
          db λ runs. Keeps-refl id db.stock)
        (λ a t h.
          from_earlier id db t _ h
            (finalize-Holds c f bill request (get_stock_enforcement_mode c.mode) t tracked))

  pub update_transaction-Holds :
      (c : PurchaseContext) (f : PurchaseFaults) (bill : ℕ) (request : AddPurchaseBillRequest)
      (db : Purchases)
      → is_tracked (get_stock_enforcement_mode c.mode) request.state ≡ true
      → Post (Holds id db) (update_transaction c f bill request db)
  unfolding update_transaction
  update_transaction-Holds c f bill request db tracked =
      then_rule (Holds id db) (Holds id db) (write_edit c f bill request)
        (reversed_if_enforced c f bill >> rewritten c f bill request) db
        (write_edit-Holds c f bill request db)
        (λ a t h.
          then_rule (Holds id db) (Holds id db) (reversed_if_enforced c f bill)
            (rewritten c f bill request) t
            (from_earlier id db t _ h (reversed_if_enforced-Holds c f bill t))
            (λ b u k. from_earlier id db u _ k (rewritten-Holds c f bill request u tracked)))

  delete_softly-Holds :
      (f : PurchaseFaults) (bill : ℕ) (db : Purchases)
      → Post (Holds id db) (delete_softly f bill db)
  delete_softly-Holds f bill db =
      if_rule (Post (Holds id db)) (live_bills bill db == 0) _ _
        (refuse_rule (Holds id db) bad_request db)
        (statement_rule (Holds id db) f.remove_bill bad_request (marked_deleted bill) db
          λ runs. Keeps-refl id db.stock)

  pub delete_transaction-Holds :
      (c : PurchaseContext) (f : PurchaseFaults) (bill : ℕ) (db : Purchases)
      → Post (Holds id db) (delete_transaction c f bill db)
  unfolding delete_transaction
  delete_transaction-Holds c f bill db =
      then_rule (Holds id db) (Holds id db) (reversed c f bill) (delete_softly f bill) db
        (reversed-Holds c f bill db)
        (λ a t h. from_earlier id db t _ h (delete_softly-Holds f bill t))

  -- A handler's database after the commit or the rollback.
  pub committed-Keeps :
      (commit : Commit) (reply : PurchaseReply) (db : Purchases)
      (v : Result PurchaseReply (Unit {0}) × Purchases)
      → Post (Holds id db) v
      → Keeps id db.stock (committed commit reply db v).1.stock
  unfolding Post
  committed-Keeps commit reply db (err e, after) h = Keeps-refl id db.stock
  committed-Keeps Commit.committed reply db (ok u, after) h = h
  committed-Keeps Commit.rolled_back reply db (ok u, after) h = Keeps-refl id db.stock
  committed-Keeps Commit.unacknowledged reply db (ok u, after) h = h

  abbrev pub KeepsStock : Purchases → PurchaseReply × Purchases → Type 0
  KeepsStock db r = Keeps id db.stock r.1.stock

  pub with_setup-Keeps :
      (c : PurchaseContext) (f : PurchaseFaults) (body : Option AddPurchaseBillRequest)
      (db : Purchases) (go : AddPurchaseBillRequest → PurchaseReply × Purchases)
      → ((request : AddPurchaseBillRequest) → body ≡ some request → KeepsStock db (go request))
      → KeepsStock db (with_setup c f body db go)
  with_setup-Keeps c f none db go h = Keeps-refl id db.stock
  with_setup-Keeps c f (some request) db go h =
      if_rule (KeepsStock db) (not (contains c.stores request.store_id)) _ _
        (Keeps-refl id db.stock)
        (if_rule (KeepsStock db) f.begin _ _ (Keeps-refl id db.stock) (h request refl))

  pub unless_refused-Keeps :
      (reply : Option PurchaseReply) (db : Purchases) (go : PurchaseReply × Purchases)
      → KeepsStock db go
      → KeepsStock db (unless_refused reply db go)
  unless_refused-Keeps none db go h = h
  unless_refused-Keeps (some reply) db go h = Keeps-refl id db.stock
