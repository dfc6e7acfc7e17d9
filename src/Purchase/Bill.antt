-- ===== src/Purchase/Bill.antt =====
-- The transaction of a new purchase bill: its row, its lines, the totals and the stock
-- (pkg/handlers/purchase_bill.go, finalizePurchaseBill and AddPurchaseBill).
use ifritah_go.Prelude.{
  false, true, ℕ, suc, String, str_eq, Bool, not, ◌&&◌, Option, none, some, List, [], ◌∷◌, ◌++◌,
  ◌==◌, if◌then◌else◌, ℤ, pos, ltb_ℤ, Result, ok, err, select, map,
}
use ifritah_go.Prelude.Transaction.{pure, ◌>>=◌, ◌>>◌, statement}
use ifritah_go.Stock.Table.{Stock, stock_enforcement_disable}
use ifritah_go.Stock.Movements.{
  LineFaults, StockError, Actor, SavedLine, get_stock_enforcement_mode, record_purchase_movements,
}
use ifritah_go.Purchase.Table.{
  PurchaseBill, PurchaseLine, Purchases, is_number_taken, refresh_purchase_bill_totals,
}
use ifritah_go.Purchase.Request.{
  AddPurchaseBillRequest, PurchaseContext, PurchaseFaults, PurchaseReply, bad_request,
  number_exists, database, stock_failed, purchase_bill_products,
}
use ifritah_go.Purchase.Products.{PurchaseStep, add_product_to_bill_purchase}

abbrev pub or_now : ℕ → Option ℕ → ℕ
or_now now none = now
or_now now (some date) = date

-- A row of a bill, as the stock recorders read it: with a store and a sequence number.
abbrev pub saved_line : ℕ → ℤ → PurchaseLine → SavedLine
saved_line store number l = record {
  id = l.id;
  product_id = l.product_id;
  quantity = l.quantity;
  store_id = store;
  sequence_number = number;
}

abbrev pub is_linked : PurchaseLine → Bool
is_linked l = elim l.product_id [ none ↦ false | some id ↦ true ]

-- GetPurchaseBillProducts, which returns no store and no number: recordPurchaseMovements takes those of
-- the request.
abbrev pub bill_lines : ℕ → Purchases → List SavedLine
bill_lines id db = map (saved_line 0 (pos 0)) (select (λ l. l.bill_id == id) db.lines)

-- GetPurchaseBillProductsByBillIDForStock, with the store and the number of the bill.
abbrev pub linked_lines :
    PurchaseContext → ℕ → Option PurchaseBill → List PurchaseLine → List SavedLine
linked_lines c id none lines = []
linked_lines c id (some b) lines =
    map (saved_line b.store_id (c.printed b.sequence_number))
      (select (λ l. l.bill_id == id && is_linked l) lines)

abbrev pub with_line_faults {ℓ} :
    {A : Type ℓ} → (ℕ → LineFaults) → ℕ → List A → List (A × LineFaults)
with_line_faults f i [] = []
with_line_faults f i (a ∷ rows) = (a, f i) ∷ with_line_faults f (suc i) rows

abbrev pub loaded :
    Bool → (ℕ → LineFaults) → List SavedLine → Option (List (SavedLine × LineFaults))
loaded failing f rows = if failing then none else some (with_line_faults f 0 rows)

abbrev pub purchase_actor : PurchaseContext → Actor
purchase_actor c = record { user_id = c.user_id; now = c.now }

abbrev pub stocked :
    (StockError → PurchaseReply)
    → Purchases
    → Result StockError (Unit {0}) × Stock
    → Result PurchaseReply (Unit {0}) × Purchases
stocked refusal db (err e, stock) = (err (refusal e), record db { stock = stock })
stocked refusal db (ok u, stock) = (ok tt, record db { stock = stock })

-- Whether the request's lines move the stock by recorded movements.
abbrev pub is_tracked : String → ℤ → Bool
is_tracked enforcement state =
    not (str_eq enforcement stock_enforcement_disable) && ltb_ℤ (pos 0) state

-- recordPurchaseBillStockMovements
unfoldable pub record_purchase_bill_stock_movements :
    PurchaseContext → PurchaseFaults → ℕ → AddPurchaseBillRequest → String → PurchaseStep (Unit {0})
record_purchase_bill_stock_movements c f id request enforcement db =
    if not (is_tracked enforcement request.state)
    then (ok tt, db)
    else stocked stock_failed db (
        record_purchase_movements (purchase_actor c) id request.store_id
          request.supplier_sequence_number enforcement
          (loaded f.stock_rows f.stock (bill_lines id db)) db.stock)

abbrev pub recorded :
    PurchaseContext → PurchaseFaults → ℕ → AddPurchaseBillRequest → String → PurchaseStep (Unit {0})
recorded c f id request enforcement =
    statement f.totals database (refresh_purchase_bill_totals id)
    >> record_purchase_bill_stock_movements c f id request enforcement

-- finalizePurchaseBill up to the commit.
unfoldable pub finalize_purchase_bill :
    PurchaseContext → PurchaseFaults → ℕ → AddPurchaseBillRequest → String → PurchaseStep (Unit {0})
unfolding ◌>>◌ add_product_to_bill_purchase purchase_bill_products refresh_purchase_bill_totals
    record_purchase_bill_stock_movements
finalize_purchase_bill c f id request enforcement =
    add_product_to_bill_purchase c f.product 0 id request.store_id
      (is_tracked enforcement request.state) (purchase_bill_products request)
    >> recorded c f id request enforcement

-- AddPurchaseBillParams; the sequence numbers of the bill itself are never given.
abbrev pub new_purchase_bill : PurchaseContext → AddPurchaseBillRequest → ℕ → PurchaseBill
new_purchase_bill c request id = record {
  id = id;
  effective_date = or_now c.now request.effective_date;
  payment_due_date = request.payment_due_date;
  state = request.state;
  discount = request.discount;
  supplier_id = request.supplier_id;
  sequence_number = none;
  supplier_sequence_number = some request.supplier_sequence_number;
  store_id = request.store_id;
  merchant_id = c.user_id;
  pdf_link = request.pdf_link;
  payment_method = request.payment_method;
  deliver_date = request.deliver_date;
  total_before_vat = pos 0;
  total_vat = pos 0;
  total = pos 0;
}

-- The SET of UpdatePurchaseBill.
abbrev pub edit_purchase_bill :
    PurchaseContext → AddPurchaseBillRequest → PurchaseBill → PurchaseBill
edit_purchase_bill c request b = record b {
  effective_date = or_now c.now request.effective_date;
  payment_due_date = request.payment_due_date;
  state = request.state;
  discount = request.discount;
  store_id = request.store_id;
  merchant_id = c.user_id;
  supplier_id = request.supplier_id;
  supplier_sequence_number = some request.supplier_sequence_number;
  payment_method = request.payment_method;
  deliver_date = request.deliver_date;
}

abbrev pub append_bill : PurchaseBill → Purchases → Purchases
append_bill b db = record db { bills = db.bills ++ (b ∷ []); next_bill = suc db.next_bill }

-- The insert of the bill, which the unique key may refuse.
abbrev pub store_bill : PurchaseContext → PurchaseFaults → AddPurchaseBillRequest → PurchaseStep ℕ
store_bill c f request db =
    if is_number_taken db.next_bill request.supplier_id (some request.supplier_sequence_number)
      db.bills
    then (err number_exists, db)
    else (statement f.insert_bill bad_request
            (append_bill (new_purchase_bill c request db.next_bill))
          >> pure db.next_bill)
        db

abbrev pub finalized :
    PurchaseContext → PurchaseFaults → AddPurchaseBillRequest → ℕ → PurchaseStep (Unit {0})
finalized c f request id = finalize_purchase_bill c f id request (get_stock_enforcement_mode c.mode)

unfoldable pub add_transaction :
    PurchaseContext → PurchaseFaults → AddPurchaseBillRequest → PurchaseStep (Unit {0})
unfolding ◌>>=◌ ◌>>◌ get_stock_enforcement_mode finalize_purchase_bill
add_transaction c f request = store_bill c f request >>= finalized c f request
