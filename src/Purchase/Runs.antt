-- ===== src/Purchase/Runs.antt =====
-- Sequences of requests to pkg/handlers/purchase_bill.go against the ledger of movements.
use mathlib.Core.Path.{subst}
use ifritah_go.Prelude.{
  ℕ, str_eq, true, false, Option, none, some, List, [], ◌∷◌, ◌≡◌, refl, ℤ, pos, ltb_ℤ, All, if_rule,
}
use ifritah_go.Stock.Table.{quantity_of, stock_enforcement_disable}
use ifritah_go.Stock.Movements.{get_stock_enforcement_mode}
use ifritah_go.Stock.Ledger.{HasMoved, Keeps, Keeps-refl, Keeps-trans}
use ifritah_go.Purchase.Table.{Purchases}
use ifritah_go.Purchase.Request.{
  AddPurchaseBillRequest, PurchaseContext, PurchaseFaults, PurchaseReply, created, updated, deleted,
  validate_purchase_bill_pdf_requirement,
}
use ifritah_go.Purchase.Handlers.{
  received, add_received, add_purchase_bill, update_purchase_bill, delete_purchase_bill_detail,
}
use ifritah_go.Purchase.History.{
  KeepsStock, with_setup-Keeps, unless_refused-Keeps, committed-Keeps, add_transaction-Holds,
  update_transaction-Holds, delete_transaction-Holds,
}

pub data PurchaseRequest : Type 0 where
  add : Option AddPurchaseBillRequest → PurchaseRequest
  update : Option ℕ → Option AddPurchaseBillRequest → PurchaseRequest
  delete : Option ℕ → PurchaseRequest

-- A request with what it reads elsewhere and the statements that fail during it.
pub record PurchaseCall : Type 0 where
  pub context : PurchaseContext
  pub failing : PurchaseFaults
  pub request : PurchaseRequest

unfoldable pub purchase_reply :
    PurchaseContext → PurchaseFaults → PurchaseRequest → Purchases → PurchaseReply × Purchases
purchase_reply c f (add body) db = add_purchase_bill c f body db
purchase_reply c f (update param body) db = update_purchase_bill c f param body db
purchase_reply c f (delete param) db = delete_purchase_bill_detail c f param db

unfoldable pub run_purchases : List PurchaseCall → Purchases → Purchases
unfolding purchase_reply
run_purchases [] db = db
run_purchases (call ∷ calls) db =
    run_purchases calls (purchase_reply call.context call.failing call.request db).1

abbrev pub IsOn : PurchaseContext → Type 0
IsOn c = str_eq (get_stock_enforcement_mode c.mode) stock_enforcement_disable ≡ false

-- The state that a request asks for is not that of a draft.
abbrev pub IsFinal : Option AddPurchaseBillRequest → Type 0
IsFinal none = Unit {0}
IsFinal (some request) = ltb_ℤ (pos 0) request.state ≡ true

-- The stock is tracked, and an edit does not make the bill a draft.
abbrev pub IsRecorded : PurchaseCall → Type 0
IsRecorded call = elim call.request [
  | add body ↦ IsOn call.context
  | update param body ↦ IsOn call.context × IsFinal body
  | delete param ↦ Unit {0}
]

module _ (id : ℕ) where
  add_purchase_bill-Keeps :
      (c : PurchaseContext) (f : PurchaseFaults) (body : Option AddPurchaseBillRequest)
      (db : Purchases)
      → IsOn c
      → KeepsStock id db (add_purchase_bill c f body db)
  unfolding add_purchase_bill
  add_purchase_bill-Keeps c f body db on =
      with_setup-Keeps id c f body db (add_received c f db) λ request e.
        unless_refused-Keeps id (validate_purchase_bill_pdf_requirement c f (received request)) db _
          (committed-Keeps id f.commit created db _
            (add_transaction-Holds id c f (received request) db (rw on refl)))

  update_purchase_bill-Keeps :
      (c : PurchaseContext) (f : PurchaseFaults) (param : Option ℕ)
      (body : Option AddPurchaseBillRequest) (db : Purchases)
      → IsOn c
      → IsFinal body
      → KeepsStock id db (update_purchase_bill c f param body db)
  unfolding update_purchase_bill
  update_purchase_bill-Keeps c f none body db on up = Keeps-refl id db.stock
  update_purchase_bill-Keeps c f (some bill) body db on up =
      with_setup-Keeps id c f body db _ λ request e.
        committed-Keeps id f.commit updated db _
          (update_transaction-Holds id c f bill request db (rw (on, subst IsFinal e up) refl))

  delete_purchase_bill_detail-Keeps :
      (c : PurchaseContext) (f : PurchaseFaults) (param : Option ℕ) (db : Purchases)
      → KeepsStock id db (delete_purchase_bill_detail c f param db)
  unfolding delete_purchase_bill_detail
  delete_purchase_bill_detail-Keeps c f none db = Keeps-refl id db.stock
  delete_purchase_bill_detail-Keeps c f (some bill) db =
      if_rule (KeepsStock id db) f.begin _ _ (Keeps-refl id db.stock)
        (committed-Keeps id f.commit deleted db _ (delete_transaction-Holds id c f bill db))

  purchase_reply-Keeps :
      (c : PurchaseContext) (f : PurchaseFaults) (request : PurchaseRequest) (db : Purchases)
      → IsRecorded (record { context = c; failing = f; request = request })
      → KeepsStock id db (purchase_reply c f request db)
  unfolding purchase_reply
  purchase_reply-Keeps c f (add body) db on = add_purchase_bill-Keeps c f body db on
  purchase_reply-Keeps c f (update param body) db on =
      update_purchase_bill-Keeps c f param body db on.0 on.1
  purchase_reply-Keeps c f (delete param) db on = delete_purchase_bill_detail-Keeps c f param db

  run_purchases-Keeps :
      (calls : List PurchaseCall) (db : Purchases)
      → All IsRecorded calls
      → Keeps id db.stock (run_purchases calls db).stock
  unfolding run_purchases
  run_purchases-Keeps [] db on = Keeps-refl id db.stock
  run_purchases-Keeps (call ∷ calls) db on =
      Keeps-trans id db.stock _ _
        (purchase_reply-Keeps call.context call.failing call.request db on.0)
        (run_purchases-Keeps calls _ on.1)

-- Through any sequence of requests that add, edit and delete purchase bills, whatever statements fail,
-- the stock level of a product that is there moves by exactly the sum of the movements recorded for it,
-- provided that the stock is tracked when a bill is added or edited and that no edit makes a bill a
-- draft. Prices have at most two places and quantities three.
pub run_purchases-HasMoved :
    (id : ℕ) (q : ℤ) (calls : List PurchaseCall) (db : Purchases)
    → All IsRecorded calls
    → quantity_of id db.stock.products ≡ some q
    → HasMoved id db.stock q (run_purchases calls db).stock
run_purchases-HasMoved id q calls db on h = run_purchases-Keeps id calls db on q h
