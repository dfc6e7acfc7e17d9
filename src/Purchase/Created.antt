-- ===== src/Purchase/Created.antt =====
-- What AddPurchaseBill leaves behind (pkg/handlers/purchase_bill.go).
use mathlib.Core.List.{append_assoc, append-nil, map-append}
use ifritah_go.Stock.Table.{Product}
use ifritah_go.Prelude.{
  ℕ, suc, String, Bool, not, Option, none, some, List, [], ◌∷◌, ◌++◌, map, ◌≡◌, refl, sym, ap, ◌∙◌,
  inl, inr, if◌then◌else◌, ℤ, pos, Bool-cases, ◌==◌,
}
use ifritah_go.Prelude.Transaction.{
  pure, Post, bind_rule, then_rule, pure_rule, refuse_rule, statement_rule, weaken_rule,
  of_option_rule,
}
use ifritah_go.Purchase.Table.{PurchaseLine, Purchases}
use ifritah_go.Purchase.Request.{
  PurchaseBillProduct, PurchaseContext, ProductFaults, PurchaseReply, bad_request,
}
use ifritah_go.Purchase.Products.{
  update_existing, written_existing, save_product, overridden_price, or_existing, kept_or_raised,
  found_product, check_store, update_purchase_inventory_product, new_product, insert_product,
  add_product, create_purchase_inventory_product, linked_product, linked_id,
  purchase_inventory_product, insert_purchase_line, append_line, product_line, line_of_product,
  add_product_to_bill_purchase,
}

-- What a line of a bill has of its product in the request.
pub record LineContent : Type 0 where
  pub bill_id : ℕ
  pub name : String
  pub price : ℤ
  pub cost_price : ℤ
  pub shelf_number : Option String
  pub quantity : ℤ

abbrev pub line_content : PurchaseLine → LineContent
line_content l = record {
  bill_id = l.bill_id;
  name = l.name;
  price = l.price;
  cost_price = l.cost_price;
  shelf_number = l.shelf_number;
  quantity = l.quantity;
}

abbrev pub product_content : ℕ → PurchaseBillProduct → LineContent
product_content bill p = record {
  bill_id = bill;
  name = p.name;
  price = p.price;
  cost_price = p.cost_price;
  shelf_number = p.shelf_number;
  quantity = p.quantity;
}

-- The bills stay, and lines with this content come to the end.
pub record Appends (db : Purchases) (content : List LineContent) (after : Purchases) : Type 0 where
  pub bills : after.bills ≡ db.bills
  pub next_bill : after.next_bill ≡ db.next_bill
  pub added : List PurchaseLine
  pub lines : after.lines ≡ db.lines ++ added
  pub contents : map line_content added ≡ content

-- The stock may change, the bills and lines do not.
pub record SameBills (db : Purchases) (after : Purchases) : Type 0 where
  pub bills : after.bills ≡ db.bills
  pub next_bill : after.next_bill ≡ db.next_bill
  pub lines : after.lines ≡ db.lines

abbrev LeavesBills : Purchases → {A : Type 0} → A → Purchases → Type 0
LeavesBills db a after = SameBills db after

module _ (c : PurchaseContext) (f : ProductFaults) (store : ℕ) (movement : Bool)
    (p : PurchaseBillProduct) (db : Purchases) where
  update_existing-LeavesBills :
      (existing : Product) (t : Purchases)
      → SameBills db t
      → Post (LeavesBills db) (update_existing c f movement p existing t)
  unfolding update_existing
  update_existing-LeavesBills existing t h =
      then_rule (LeavesBills db) (LeavesBills db) (written_existing c f movement p existing)
        (pure (some existing.id)) t
        (statement_rule (LeavesBills db) _ bad_request
          (save_product existing (overridden_price c p existing) p.cost_price
            (or_existing p.shelf_number existing.shelf_number) (kept_or_raised movement p existing))
          t λ runs. record { bills = h.bills; next_bill = h.next_bill; lines = h.lines })
        (λ a u k. pure_rule PurchaseReply (LeavesBills db) (some existing.id) u k)

  update_purchase_inventory_product-LeavesBills :
      (j : ℕ) → Post (LeavesBills db) (update_purchase_inventory_product c f store movement p j db)
  unfolding update_purchase_inventory_product
  update_purchase_inventory_product-LeavesBills j =
      bind_rule (LeavesBills db) (LeavesBills db) (found_product f j)
        (check_store c f store movement p) db
        (of_option_rule (LeavesBills db) bad_request _ db
          λ existing e. record { bills = refl; next_bill = refl; lines = refl })
        (λ existing t h. elim (Bool-cases (not (existing.store_id == store))) [
          | inl foreign ↦ rw foreign (refuse_rule (LeavesBills db) bad_request t)
          | inr own ↦ rw own (update_existing-LeavesBills existing t h)
        ])

  create_purchase_inventory_product-LeavesBills :
      Post (LeavesBills db) (create_purchase_inventory_product c f store movement p db)
  unfolding create_purchase_inventory_product
  create_purchase_inventory_product-LeavesBills =
      let row = new_product c store (if movement then pos 0 else p.quantity) p db.next_product in
      then_rule (LeavesBills db) (LeavesBills db) (insert_product f row)
        (pure (some db.next_product)) db
        (statement_rule (LeavesBills db) _ bad_request (add_product row) db
          λ runs. record { bills = refl; next_bill = refl; lines = refl })
        (λ a t h. pure_rule PurchaseReply (LeavesBills db) (some db.next_product) t h)

  linked_product-LeavesBills :
      (j : Option ℕ) → Post (LeavesBills db) (linked_product c f store movement p j db)
  linked_product-LeavesBills none = create_purchase_inventory_product-LeavesBills
  linked_product-LeavesBills (some j) = update_purchase_inventory_product-LeavesBills j

  purchase_inventory_product-LeavesBills :
      Post (LeavesBills db) (purchase_inventory_product c f store movement p db)
  unfolding purchase_inventory_product
  purchase_inventory_product-LeavesBills = elim (Bool-cases (not p.track_stock)) [
    | inl manual ↦ rw manual (
        pure_rule PurchaseReply (LeavesBills db) none db
          (record { bills = refl; next_bill = refl; lines = refl }))
    | inr tracked ↦ rw tracked (linked_product-LeavesBills (linked_id p.product_id))
  ]

  -- The line of one product.
  product_line-Appends :
      (bill : ℕ)
      → Post {A = Unit {0}}
          (λ a t. Appends db (product_content bill p ∷ []) t)
          (product_line c f bill store movement p db)
  product_line-Appends bill =
      bind_rule (LeavesBills db) (λ a t. Appends db (product_content bill p ∷ []) t)
        (purchase_inventory_product c f store movement p) (insert_purchase_line f bill p) db
        purchase_inventory_product-LeavesBills
        (λ product t h.
          statement_rule (λ a u. Appends db (product_content bill p ∷ []) u) _ bad_request
            (append_line bill p product) t
            λ runs. record {
              bills = h.bills;
              next_bill = h.next_bill;
              added = line_of_product bill p product t.next_line ∷ [];
              lines =
                  ap
                    (λ (ls : List PurchaseLine).
                      ls ++ (line_of_product bill p product t.next_line ∷ []))
                    h.lines;
              contents = refl;
            })

Appends-trans :
    (db t u : Purchases) (xs ys : List LineContent)
    → Appends db xs t
    → Appends t ys u
    → Appends db (xs ++ ys) u
Appends-trans db t u xs ys h k = record {
  bills = k.bills ∙ h.bills;
  next_bill = k.next_bill ∙ h.next_bill;
  added = h.added ++ k.added;
  lines =
      k.lines
      ∙ ap (λ (ls : List PurchaseLine). ls ++ k.added) h.lines
      ∙ append_assoc db.lines h.added k.added;
  contents = map-append line_content h.added k.added ∙ rw (h.contents, k.contents) refl;
}

-- The lines of all products, in the order of the request.
pub add_product_to_bill_purchase-Appends :
    (c : PurchaseContext) (f : ℕ → ProductFaults) (i bill store : ℕ) (movement : Bool)
    (products : List PurchaseBillProduct) (db : Purchases)
    → Post {A = Unit {0}}
        (λ a t. Appends db (map (product_content bill) products) t)
        (add_product_to_bill_purchase c f i bill store movement products db)
unfolding add_product_to_bill_purchase
add_product_to_bill_purchase-Appends c f i bill store movement [] db =
    pure_rule PurchaseReply (λ a t. Appends db [] t) tt db
      (record {
        bills = refl;
        next_bill = refl;
        added = [];
        lines = sym (append-nil db.lines);
        contents = refl;
      })
add_product_to_bill_purchase-Appends c f i bill store movement (p ∷ products) db =
    then_rule (λ a t. Appends db (product_content bill p ∷ []) t)
      (λ a t. Appends db (map (product_content bill) (p ∷ products)) t)
      (product_line c (f i) bill store movement p)
      (add_product_to_bill_purchase c f (suc i) bill store movement products) db
      (product_line-Appends c (f i) store movement p db bill)
      (λ a t h.
        weaken_rule (λ b u. Appends t (map (product_content bill) products) u)
          (λ b u. Appends db (map (product_content bill) (p ∷ products)) u) _
          (λ b u k.
            Appends-trans db t u (product_content bill p ∷ []) (map (product_content bill) products)
              h k)
          (add_product_to_bill_purchase-Appends c f (suc i) bill store movement products t))
