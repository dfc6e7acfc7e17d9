-- ===== src/Purchase/Saved.antt =====
-- AddPurchaseBill as a whole: the bill that an answer 201 stands for, and that any other answer leaves
-- the tables alone (pkg/handlers/purchase_bill.go).
use ifritah_go.Prelude.{false, Option, some, List, [], ◌∷◌, ◌++◌, map, ◌≡◌, ◌⊎◌, All, ◌==◌}
use ifritah_go.Stock.Table.{Stock}
use ifritah_go.Purchase.Table.{
  PurchaseLine, Purchases, sum_lines, line_before_vat, line_vat, line_including_vat,
}
use ifritah_go.Purchase.Request.{
  AddPurchaseBillRequest, PurchaseContext, PurchaseFaults, PurchaseReply, created, database,
  purchase_bill_products,
}
use ifritah_go.Purchase.Bill.{new_purchase_bill}
use ifritah_go.Purchase.Handlers.{received}
use ifritah_go.Outbox.Drain.{Commit}
use ifritah_go.Purchase.Refusals.{IsRefusal}
use ifritah_go.Purchase.Created.{line_content, product_content}

-- The bill of a request with the totals of its lines is the only new row, and its lines are the new
-- lines.
pub record IsSaved (c : PurchaseContext) (request : AddPurchaseBillRequest) (db after : Purchases)
    : Type 0 where
  pub added : List PurchaseLine
  pub lines : after.lines ≡ db.lines ++ added
  pub contents :
      map line_content added ≡ map (product_content db.next_bill) (purchase_bill_products request)
  pub bills :
      after.bills
      ≡ db.bills
        ++ ((record (new_purchase_bill c request db.next_bill) {
          total_before_vat = sum_lines line_before_vat db.next_bill after.lines;
          total_vat = sum_lines line_vat db.next_bill after.lines;
          total = sum_lines line_including_vat db.next_bill after.lines;
        })
            ∷ [])

module _ (c : PurchaseContext) (f : PurchaseFaults) (request : AddPurchaseBillRequest)
    (db : Purchases) (fresh : All (λ b. (b.id == db.next_bill) ≡ false) db.bills) where
  abbrev Saves : {A : Type 0} → A → Purchases → Type 0
  Saves a after = IsSaved c request db after

  -- The row, before its lines.
  pub record IsInserted (t : Purchases) : Type 0 where
    pub bills : t.bills ≡ db.bills ++ (new_purchase_bill c request db.next_bill ∷ [])
    pub lines : t.lines ≡ db.lines

-- Created with its bill, or not answered 201: then nothing is written, unless the commit is in force
-- without an acknowledgement.
abbrev pub IsCreatedOrSame :
    PurchaseContext
    → PurchaseFaults
    → Option AddPurchaseBillRequest
    → Purchases
    → PurchaseReply × Purchases
    → Type 0
IsCreatedOrSame c f body db r =
    ((request : AddPurchaseBillRequest) × (body ≡ some request)
      × ((r.0 ≡ created) ⊎ ((r.0 ≡ database) × (f.commit ≡ Commit.unacknowledged)))
      × IsSaved c (received request) db r.1)
    ⊎ (IsRefusal r.0 × (r.1 ≡ db))
