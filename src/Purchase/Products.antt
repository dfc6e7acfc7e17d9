-- ===== src/Purchase/Products.antt =====
-- addProductToBillPurchase of pkg/handlers/purchase_bill.go: the line of each product, and the product
-- in the stock that a tracked line updates or creates.
use ifritah_go.Prelude.{
  ℕ, suc, String, Bool, false, not, ◌||◌, Option, none, some, List, [], ◌∷◌, ◌++◌, ◌==◌,
  if◌then◌else◌, ℤ, pos, ◌+ℤ◌, leb_ℤ, ltb_ℤ, pos_part,
}
use ifritah_go.Prelude.Transaction.{Tx, pure, refuse, ◌>>=◌, ◌>>◌, statement, of_option}
use ifritah_go.Stock.Table.{Product}
use ifritah_go.Purchase.Table.{PurchaseLine, Purchases, get_product, update_product, is_bad_product}
use ifritah_go.Purchase.Request.{
  PurchaseBillProduct, PurchaseContext, ProductFaults, PurchaseReply, bad_request,
  can_override_selling_price, selling_price_or, resolve_new_product_selling_price,
}

abbrev pub PurchaseStep : Type 0 → Type 0
PurchaseStep A = Tx Purchases PurchaseReply A

-- `*product.ProductId > 0`
abbrev pub linked_id : Option ℤ → Option ℕ
linked_id none = none
linked_id (some id) = if ltb_ℤ (pos 0) id then some (pos_part id) else none

abbrev pub or_existing : Option String → Option String → Option String
or_existing none existing = existing
or_existing (some shelf) existing = some shelf

abbrev pub set_products : List Product → Purchases → Purchases
set_products products db = record db { stock = record db.stock { products = products } }

abbrev pub save_product : Product → ℤ → ℤ → Option String → ℤ → Purchases → Purchases
save_product existing price cost shelf quantity db =
    set_products (update_product existing.id price cost shelf quantity db.stock.products) db

abbrev pub overridden_price : PurchaseContext → PurchaseBillProduct → Product → ℤ
overridden_price c p existing =
    selling_price_or (can_override_selling_price c.role) p.selling_price existing.price

abbrev pub kept_or_raised : Bool → PurchaseBillProduct → Product → ℤ
kept_or_raised movement p existing =
    if movement then existing.quantity else existing.quantity +ℤ p.quantity

-- The UpdateProduct of updatePurchaseInventoryProduct. Where a movement will be recorded, the quantity
-- stays.
abbrev pub written_existing :
    PurchaseContext → ProductFaults → Bool → PurchaseBillProduct → Product → PurchaseStep (Unit {0})
written_existing c f movement p existing =
    statement
      (f.update
        || is_bad_product (overridden_price c p existing) (kept_or_raised movement p existing))
      bad_request
      (save_product existing (overridden_price c p existing) p.cost_price
        (or_existing p.shelf_number existing.shelf_number) (kept_or_raised movement p existing))

unfoldable pub update_existing :
    PurchaseContext → ProductFaults → Bool → PurchaseBillProduct → Product → PurchaseStep (Option ℕ)
unfolding ◌>>◌ update_product
update_existing c f movement p existing =
    written_existing c f movement p existing >> pure (some existing.id)

abbrev pub check_store :
    PurchaseContext
    → ProductFaults
    → ℕ
    → Bool
    → PurchaseBillProduct
    → Product
    → PurchaseStep (Option ℕ)
check_store c f store movement p existing =
    if not (existing.store_id == store)
    then refuse bad_request
    else update_existing c f movement p existing

abbrev pub found_product : ProductFaults → ℕ → PurchaseStep Product
found_product f id db =
    of_option bad_request (if f.get then none else get_product id db.stock.products) db

unfoldable pub update_purchase_inventory_product :
    PurchaseContext → ProductFaults → ℕ → Bool → PurchaseBillProduct → ℕ → PurchaseStep (Option ℕ)
unfolding ◌>>=◌ update_existing
update_purchase_inventory_product c f store movement p id =
    found_product f id >>= check_store c f store movement p

-- The row of AddProduct; without an article no row is its duplicate.
abbrev pub new_product : PurchaseContext → ℕ → ℤ → PurchaseBillProduct → ℕ → Product
new_product c store quantity p id = record {
  id = id;
  store_id = store;
  quantity = quantity;
  price = resolve_new_product_selling_price c p;
  cost_price = p.cost_price;
  shelf_number = p.shelf_number;
  name = some p.name;
  is_deleted = false;
}

abbrev pub add_product : Product → Purchases → Purchases
add_product row db = record (set_products (db.stock.products ++ (row ∷ [])) db) {
  next_product = suc db.next_product;
}

abbrev pub insert_product : ProductFaults → Product → PurchaseStep (Unit {0})
insert_product f row =
    statement (f.add || is_bad_product row.price row.quantity) bad_request (add_product row)

unfoldable pub create_purchase_inventory_product :
    PurchaseContext → ProductFaults → ℕ → Bool → PurchaseBillProduct → PurchaseStep (Option ℕ)
unfolding ◌>>◌ resolve_new_product_selling_price
create_purchase_inventory_product c f store movement p db =
    (insert_product f
          (new_product c store (if movement then pos 0 else p.quantity) p db.next_product)
        >> pure (some db.next_product))
      db

abbrev pub linked_product :
    PurchaseContext
    → ProductFaults
    → ℕ
    → Bool
    → PurchaseBillProduct
    → Option ℕ
    → PurchaseStep (Option ℕ)
linked_product c f store movement p none = create_purchase_inventory_product c f store movement p
linked_product c f store movement p (some id) =
    update_purchase_inventory_product c f store movement p id

unfoldable pub purchase_inventory_product :
    PurchaseContext → ProductFaults → ℕ → Bool → PurchaseBillProduct → PurchaseStep (Option ℕ)
unfolding create_purchase_inventory_product update_purchase_inventory_product
purchase_inventory_product c f store movement p =
    if not p.track_stock
    then pure none
    else linked_product c f store movement p (linked_id p.product_id)

abbrev pub line_of_product : ℕ → PurchaseBillProduct → Option ℕ → ℕ → PurchaseLine
line_of_product bill p product id = record {
  id = id;
  product_id = product;
  bill_id = bill;
  name = p.name;
  price = p.price;
  cost_price = p.cost_price;
  shelf_number = p.shelf_number;
  quantity = p.quantity;
}

abbrev pub append_line : ℕ → PurchaseBillProduct → Option ℕ → Purchases → Purchases
append_line bill p product db = record db {
  lines = db.lines ++ (line_of_product bill p product db.next_line ∷ []);
  next_line = suc db.next_line;
}

-- The statement AddProductToBillPurchase: chpk_price and chpk_quantity refuse what is not positive.
abbrev pub insert_purchase_line :
    ProductFaults → ℕ → PurchaseBillProduct → Option ℕ → PurchaseStep (Unit {0})
insert_purchase_line f bill p product =
    statement (f.insert || (leb_ℤ p.price (pos 0) || leb_ℤ p.quantity (pos 0))) bad_request
      (append_line bill p product)

abbrev pub product_line :
    PurchaseContext → ProductFaults → ℕ → ℕ → Bool → PurchaseBillProduct → PurchaseStep (Unit {0})
product_line c f bill store movement p =
    purchase_inventory_product c f store movement p >>= insert_purchase_line f bill p

-- `i` is the position of the first product.
unfoldable pub add_product_to_bill_purchase :
    PurchaseContext
    → (ℕ → ProductFaults)
    → ℕ
    → ℕ
    → ℕ
    → Bool
    → List PurchaseBillProduct
    → PurchaseStep (Unit {0})
unfolding ◌>>=◌ ◌>>◌ purchase_inventory_product
add_product_to_bill_purchase c f i bill store movement [] = pure tt
add_product_to_bill_purchase c f i bill store movement (p ∷ products) =
    product_line c (f i) bill store movement p
    >> add_product_to_bill_purchase c f (suc i) bill store movement products
