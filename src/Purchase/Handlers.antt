-- ===== src/Purchase/Handlers.antt =====
-- AddPurchaseBill, UpdatePurchaseBill, DeletePurchaseBillDetail and CheckPurchaseBillDuplicate of
-- pkg/handlers/purchase_bill.go. A body and a path id are arguments, `none` where they do not parse.
-- savePurchaseBillAttachments, which runs after the commit and whose errors are dropped, is left out.
use ifritah_go.Prelude.{
  ℕ, str_eq, not, ◌&&◌, Option, none, some, ◌==◌, if◌then◌else◌, ℤ, pos, eq_ℤ, contains, Result, ok,
  err, find_row, count_rows, update_rows,
}
use ifritah_go.Prelude.Transaction.{◌>>◌, statement}
use ifritah_go.Stock.Table.{stock_enforcement_disable}
use ifritah_go.Stock.Movements.{get_stock_enforcement_mode, reverse_purchase_movements}
use ifritah_go.Purchase.Table.{
  PurchaseBill, Purchases, is_number_taken, delete_product_purchase_bill,
}
use ifritah_go.Purchase.Request.{
  AddPurchaseBillRequest, PurchaseContext, PurchaseFaults, PurchaseReply, created, updated, deleted,
  bad_id, bad_body, no_store_access, bad_request, stock_refused, number_exists, database,
  validate_purchase_bill_pdf_requirement,
}
use ifritah_go.Outbox.Drain.{Commit}
use ifritah_go.Purchase.Products.{PurchaseStep}
use ifritah_go.Purchase.Bill.{
  linked_lines, loaded, purchase_actor, stocked, finalize_purchase_bill, edit_purchase_bill,
  finalized, add_transaction,
}

-- The commit. One that is in force without an acknowledgement is answered as a failed one.
abbrev pub commit_purchase :
    Commit → PurchaseReply → Purchases → Purchases → PurchaseReply × Purchases
commit_purchase Commit.committed reply old new = (reply, new)
commit_purchase Commit.rolled_back reply old new = (database, old)
commit_purchase Commit.unacknowledged reply old new = (database, new)

-- The commit, or the rollback.
abbrev pub committed :
    Commit
    → PurchaseReply
    → Purchases
    → Result PurchaseReply (Unit {0}) × Purchases
    → PurchaseReply × Purchases
committed commit reply db (err e, after) = (e, db)
committed commit reply db (ok u, after) = commit_purchase commit reply db after

-- beginPurchaseBillTx
abbrev pub with_setup :
    PurchaseContext
    → PurchaseFaults
    → Option AddPurchaseBillRequest
    → Purchases
    → (AddPurchaseBillRequest → PurchaseReply × Purchases)
    → PurchaseReply × Purchases
with_setup c f none db go = (bad_body, db)
with_setup c f (some request) db go =
    if not (contains c.stores request.store_id)
    then (no_store_access, db)
    else if f.begin
    then (database, db)
    else go request

abbrev pub unless_refused :
    Option PurchaseReply → Purchases → PurchaseReply × Purchases → PurchaseReply × Purchases
unless_refused none db go = go
unless_refused (some reply) db go = (reply, db)

-- A new bill is saved in state 3, whatever the request says.
abbrev pub received : AddPurchaseBillRequest → AddPurchaseBillRequest
received request = record request { state = pos 3 }

abbrev pub add_received :
    PurchaseContext
    → PurchaseFaults
    → Purchases
    → AddPurchaseBillRequest
    → PurchaseReply × Purchases
add_received c f db request =
    unless_refused (validate_purchase_bill_pdf_requirement c f (received request)) db
      (committed f.commit created db (add_transaction c f (received request) db))

unfoldable pub add_purchase_bill :
    PurchaseContext
    → PurchaseFaults
    → Option AddPurchaseBillRequest
    → Purchases
    → PurchaseReply × Purchases
unfolding validate_purchase_bill_pdf_requirement add_transaction
add_purchase_bill c f body db = with_setup c f body db (add_received c f db)

abbrev pub edited : PurchaseContext → ℕ → AddPurchaseBillRequest → Purchases → Purchases
edited c id request db = record db {
  bills = update_rows (λ b. b.id == id) (edit_purchase_bill c request) db.bills;
}

-- The UPDATE of the bill, which the unique key may refuse, and which meets no row for an unknown id.
abbrev pub write_edit :
    PurchaseContext → PurchaseFaults → ℕ → AddPurchaseBillRequest → PurchaseStep (Unit {0})
write_edit c f id request db =
    if is_number_taken id request.supplier_id (some request.supplier_sequence_number) db.bills
    then (err number_exists, db)
    else statement f.edit_bill bad_request (edited c id request) db

abbrev pub reversed : PurchaseContext → PurchaseFaults → ℕ → PurchaseStep (Unit {0})
reversed c f id db = stocked stock_refused db (
    reverse_purchase_movements (purchase_actor c) id c.reversal_mode
      (loaded f.reversal_rows f.reversal
        (linked_lines c id (find_row (λ b. b.id == id) db.bills) db.lines))
      db.stock)

abbrev pub reversed_if_enforced : PurchaseContext → PurchaseFaults → ℕ → PurchaseStep (Unit {0})
reversed_if_enforced c f id db =
    if str_eq (get_stock_enforcement_mode c.mode) stock_enforcement_disable
    then (ok tt, db)
    else reversed c f id db

abbrev pub rewritten :
    PurchaseContext → PurchaseFaults → ℕ → AddPurchaseBillRequest → PurchaseStep (Unit {0})
rewritten c f id request =
    statement f.delete_lines bad_request (delete_product_purchase_bill id)
    >> finalized c f request id

unfoldable pub update_transaction :
    PurchaseContext → PurchaseFaults → ℕ → AddPurchaseBillRequest → PurchaseStep (Unit {0})
unfolding ◌>>◌ get_stock_enforcement_mode finalize_purchase_bill delete_product_purchase_bill
update_transaction c f id request =
    write_edit c f id request >> (reversed_if_enforced c f id >> rewritten c f id request)

unfoldable pub update_purchase_bill :
    PurchaseContext
    → PurchaseFaults
    → Option ℕ
    → Option AddPurchaseBillRequest
    → Purchases
    → PurchaseReply × Purchases
unfolding update_transaction
update_purchase_bill c f none body db = (bad_id, db)
update_purchase_bill c f (some id) body db =
    with_setup c f body db
      λ request. committed f.commit updated db (update_transaction c f id request db)

-- SoftDeletePurchaseBill, and how many rows it changes.
abbrev pub soft_deleted : PurchaseBill → PurchaseBill
soft_deleted b = record b { state = ℤ.negsuc 0 }

abbrev pub live_bills : ℕ → Purchases → ℕ
live_bills id db = count_rows (λ b. b.id == id && not (eq_ℤ b.state (ℤ.negsuc 0))) db.bills

abbrev pub marked_deleted : ℕ → Purchases → Purchases
marked_deleted id db = record db { bills = update_rows (λ b. b.id == id) soft_deleted db.bills }

abbrev pub delete_softly : PurchaseFaults → ℕ → PurchaseStep (Unit {0})
delete_softly f id db =
    if live_bills id db == 0
    then (err bad_request, db)
    else statement f.remove_bill bad_request (marked_deleted id) db

unfoldable pub delete_transaction : PurchaseContext → PurchaseFaults → ℕ → PurchaseStep (Unit {0})
unfolding ◌>>◌
delete_transaction c f id = reversed c f id >> delete_softly f id

unfoldable pub delete_purchase_bill_detail :
    PurchaseContext → PurchaseFaults → Option ℕ → Purchases → PurchaseReply × Purchases
unfolding delete_transaction
delete_purchase_bill_detail c f none db = (bad_id, db)
delete_purchase_bill_detail c f (some id) db =
    if f.begin then (database, db) else committed f.commit deleted db (delete_transaction c f id db)
