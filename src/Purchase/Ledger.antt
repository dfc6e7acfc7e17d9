-- ===== src/Purchase/Ledger.antt =====
-- The stock that purchase bills move, against the ledger of movements (pkg/handlers/purchase_bill.go).
use mathlib.Core.Path.{subst}
use ifritah_go.Prelude.{
  ℕ, suc, String, true, false, not, Option, none, some, List, [], ◌∷◌, ◌++◌, ◌≡◌, refl, sym, ap,
  ◌∙◌, inl, inr, arith, ◌==◌, ==_iff, ℤ, pos, Result, Bool-cases, Option-cases, find_row,
  find_row_sound, found_unless,
}
use ifritah_go.Prelude.Transaction.{
  weaken_rule, pure, Post, bind_rule, then_rule, pure_rule, refuse_rule, statement_rule,
  of_option_rule,
}
use ifritah_go.Stock.Table.{Product, Stock, quantity_of}
use ifritah_go.Stock.Ledger.{Keeps, Keeps-refl, Keeps-trans}
use ifritah_go.Purchase.Table.{Purchases, get_product, update_product}
use ifritah_go.Purchase.Request.{
  PurchaseBillProduct, PurchaseContext, ProductFaults, PurchaseReply, bad_request,
}
use ifritah_go.Purchase.Products.{
  linked_id, or_existing, update_existing, written_existing, save_product, overridden_price,
  check_store, found_product, update_purchase_inventory_product, new_product, add_product,
  insert_product, create_purchase_inventory_product, linked_product, purchase_inventory_product,
  insert_purchase_line, append_line, product_line, add_product_to_bill_purchase,
}

quantity_of-append :
    (id : ℕ) (q : ℤ) (ps rows : List Product)
    → quantity_of id ps ≡ some q
    → quantity_of id (ps ++ rows) ≡ some q
unfolding quantity_of
quantity_of-append id q [] rows h = absurd cc
quantity_of-append id q (p ∷ ps) rows h = ground (arith, quantity_of-append id q ps rows)

-- An update of another product.
quantity_of-update_product_ne :
    (id j : ℕ) (price cost : ℤ) (shelf : Option String) (quantity : ℤ) (ps : List Product)
    → (j == id) ≡ false
    → quantity_of id (update_product j price cost shelf quantity ps) ≡ quantity_of id ps
unfolding quantity_of update_product
quantity_of-update_product_ne id j price cost shelf quantity [] h = refl
quantity_of-update_product_ne id j price cost shelf quantity (p ∷ ps) h =
    ground (arith, quantity_of-update_product_ne id j price cost shelf quantity ps h)

-- An update that writes the quantity that the product has.
quantity_of-update_product_self :
    (id : ℕ) (price cost : ℤ) (shelf : Option String) (p : Product) (ps : List Product)
    → find_row (λ r. r.id == id) ps ≡ some p
    → quantity_of id (update_product id price cost shelf p.quantity ps) ≡ quantity_of id ps
unfolding quantity_of update_product
quantity_of-update_product_self id price cost shelf p [] h = absurd cc
quantity_of-update_product_self id price cost shelf p (x ∷ ps) h = elim (Bool-cases (x.id == id)) [
  | inl hit ↦
      let this : x ≡ p = let k = rw hit at h in cc in
      rw hit (rw hit (ap (λ (r : Product). some r.quantity) (sym this)))
  | inr miss ↦
      rw miss (rw miss (quantity_of-update_product_self id price cost shelf p ps (rw miss at h)))
]

get_product-find_row :
    (id : ℕ) (ps : List Product) (p : Product)
    → get_product id ps ≡ some p
    → (find_row (λ r. r.id == id) ps ≡ some p) × ((p.id == id) ≡ true)
get_product-find_row id ps p h = elim (Option-cases (find_row (λ r. r.id == id) ps)) [
  | inl e ↦ absurd (let k = rw e at h in cc)
  | inr (r, e) ↦
      let k = rw e at h in
      elim (Bool-cases r.is_deleted) [
        | inl gone ↦ absurd (let l = rw gone at k in cc)
        | inr live ↦
            let same : r ≡ p = let l = rw live at k in cc in
            let found : find_row (λ r. r.id == id) ps ≡ some p = e ∙ ap some same in
            (found, (find_row_sound (λ r. r.id == id) ps found).1)
      ]
]

-- A level that stays while no movement is recorded.
level-Keeps :
    (id : ℕ) (s t : Stock)
    → t.movements ≡ s.movements
    → ((q : ℤ) → quantity_of id s.products ≡ some q → quantity_of id t.products ≡ some q)
    → Keeps id s t
level-Keeps id s t same keep q h = (q, keep q h, rw same refl)

-- What a transaction that ends well does to a product's stock.
abbrev pub Holds : ℕ → Purchases → {A : Type 0} → A → Purchases → Type 0
Holds id db a after = Keeps id db.stock after.stock

-- Which product a level is asked for does not matter.
updated-Keeps :
    (id : ℕ) (price cost : ℤ) (shelf : Option String) (p : Product) (s : Stock)
    → find_row (λ r. r.id == p.id) s.products ≡ some p
    → Keeps id s
        (record s { products = update_product p.id price cost shelf p.quantity s.products })
updated-Keeps id price cost shelf p s found = level-Keeps id s _ refl λ q h.
    elim (Bool-cases (p.id == id)) [
      | inl own ↦
          let same = (==_iff p.id id).0 own in
          subst
            (λ k.
              quantity_of k (update_product p.id price cost shelf p.quantity s.products) ≡ some q)
            same
            (quantity_of-update_product_self p.id price cost shelf p s.products found
              ∙ subst (λ k. quantity_of k s.products ≡ some q) (sym same) h)
      | inr other ↦
          quantity_of-update_product_ne id p.id price cost shelf p.quantity s.products other ∙ h
    ]

module _ (id : ℕ) (db : Purchases) where
  update_existing-Holds :
      (c : PurchaseContext) (f : ProductFaults) (p : PurchaseBillProduct) (existing : Product)
      → find_row (λ r. r.id == existing.id) db.stock.products ≡ some existing
      → Post (Holds id db) (update_existing c f true p existing db)
  unfolding update_existing
  update_existing-Holds c f p existing found =
      then_rule (Holds id db) (Holds id db) (written_existing c f true p existing)
        (pure (some existing.id)) db
        (statement_rule (Holds id db) _ bad_request
          (save_product existing (overridden_price c p existing) p.cost_price
            (or_existing p.shelf_number existing.shelf_number) existing.quantity)
          db
          λ runs.
            updated-Keeps id (overridden_price c p existing) p.cost_price
              (or_existing p.shelf_number existing.shelf_number) existing db.stock found)
        (λ a t h. pure_rule PurchaseReply (Holds id db) (some existing.id) t h)

-- What holds from a later state holds from an earlier one.
pub from_earlier :
    (id : ℕ) (db t : Purchases) {A : Type 0} (v : Result PurchaseReply A × Purchases)
    → Keeps id db.stock t.stock
    → Post (Holds id t) v
    → Post (Holds id db) v
from_earlier id db t v h k =
    weaken_rule (Holds id t) (Holds id db) v (λ a u m. Keeps-trans id db.stock t.stock u.stock h m)
      k

module _ (id : ℕ) where
  found_row :
      (j : ℕ) (ps : List Product) (p : Product)
      → get_product j ps ≡ some p
      → find_row (λ r. r.id == p.id) ps ≡ some p
  found_row j ps p h =
      let (found, hit) = get_product-find_row j ps p h in
      subst (λ k. find_row (λ r. r.id == k) ps ≡ some p) (sym ((==_iff p.id j).0 hit)) found

  update_purchase_inventory_product-Holds :
      (c : PurchaseContext) (f : ProductFaults) (store : ℕ) (p : PurchaseBillProduct) (j : ℕ)
      (db : Purchases)
      → Post (Holds id db) (update_purchase_inventory_product c f store true p j db)
  unfolding update_purchase_inventory_product
  update_purchase_inventory_product-Holds c f store p j db =
      bind_rule
        (λ existing t.
          (find_row (λ r. r.id == existing.id) t.stock.products ≡ some existing)
          × Keeps id db.stock t.stock)
        (Holds id db) (found_product f j) (check_store c f store true p) db
        (of_option_rule _ bad_request _ db λ existing e.
          (found_row j db.stock.products existing (found_unless f.get _ e), Keeps-refl id db.stock))
        (λ existing t h. elim (Bool-cases (not (existing.store_id == store))) [
          | inl foreign ↦ rw foreign (refuse_rule (Holds id db) bad_request t)
          | inr own ↦
              rw own (from_earlier id db t _ h.1 (update_existing-Holds id t c f p existing h.0))
        ])

  create_purchase_inventory_product-Holds :
      (c : PurchaseContext) (f : ProductFaults) (store : ℕ) (p : PurchaseBillProduct)
      (db : Purchases)
      → Post (Holds id db) (create_purchase_inventory_product c f store true p db)
  unfolding create_purchase_inventory_product
  create_purchase_inventory_product-Holds c f store p db =
      let row = new_product c store (pos 0) p db.next_product in
      then_rule (Holds id db) (Holds id db) (insert_product f row) (pure (some db.next_product)) db
        (statement_rule (Holds id db) _ bad_request (add_product row) db λ runs.
          level-Keeps id db.stock _ refl
            (λ q h. quantity_of-append id q db.stock.products (row ∷ []) h))
        (λ a t h. pure_rule PurchaseReply (Holds id db) (some db.next_product) t h)

  linked_product-Holds :
      (c : PurchaseContext) (f : ProductFaults) (store : ℕ) (p : PurchaseBillProduct) (j : Option ℕ)
      (db : Purchases)
      → Post (Holds id db) (linked_product c f store true p j db)
  linked_product-Holds c f store p none db = create_purchase_inventory_product-Holds c f store p db
  linked_product-Holds c f store p (some j) db =
      update_purchase_inventory_product-Holds c f store p j db

  purchase_inventory_product-Holds :
      (c : PurchaseContext) (f : ProductFaults) (store : ℕ) (p : PurchaseBillProduct)
      (db : Purchases)
      → Post (Holds id db) (purchase_inventory_product c f store true p db)
  unfolding purchase_inventory_product
  purchase_inventory_product-Holds c f store p db = elim (Bool-cases (not p.track_stock)) [
    | inl manual ↦
        rw manual (pure_rule PurchaseReply (Holds id db) none db (Keeps-refl id db.stock))
    | inr tracked ↦ rw tracked (linked_product-Holds c f store p (linked_id p.product_id) db)
  ]

  product_line-Holds :
      (c : PurchaseContext) (f : ProductFaults) (bill store : ℕ) (p : PurchaseBillProduct)
      (db : Purchases)
      → Post (Holds id db) (product_line c f bill store true p db)
  product_line-Holds c f bill store p db =
      bind_rule (Holds id db) (Holds id db) (purchase_inventory_product c f store true p)
        (insert_purchase_line f bill p) db (purchase_inventory_product-Holds c f store p db)
        (λ product t h.
          statement_rule (Holds id db) _ bad_request (append_line bill p product) t λ runs. h)

  -- Where movements are recorded, saving the lines of a purchase bill leaves the levels of the products
  -- that are there.
  pub add_product_to_bill_purchase-Holds :
      (c : PurchaseContext) (f : ℕ → ProductFaults) (i bill store : ℕ)
      (products : List PurchaseBillProduct) (db : Purchases)
      → Post (Holds id db) (add_product_to_bill_purchase c f i bill store true products db)
  unfolding add_product_to_bill_purchase
  add_product_to_bill_purchase-Holds c f i bill store [] db =
      pure_rule PurchaseReply (Holds id db) tt db (Keeps-refl id db.stock)
  add_product_to_bill_purchase-Holds c f i bill store (p ∷ products) db =
      then_rule (Holds id db) (Holds id db) (product_line c (f i) bill store true p)
        (add_product_to_bill_purchase c f (suc i) bill store true products) db
        (product_line-Holds c (f i) bill store p db)
        (λ a t h.
          from_earlier id db t _ h
            (add_product_to_bill_purchase-Holds c f (suc i) bill store products t))
