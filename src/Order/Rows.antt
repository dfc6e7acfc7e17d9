-- ===== src/Order/Rows.antt =====
-- The rows that a new, an edited and a deleted order leave, and the totals of the orders
-- (pkg/handlers/order.go).
use mathlib.Core.Path.{subst}
use ifritah_go.Prelude.{
  ℕ, suc, ◌+◌, ◌<◌, String, Bool, false, ◌||◌, List, [], ◌∷◌, ◌≡◌, refl, sym, ap, ◌∙◌, inl, inr,
  arith, ◌==◌, ==_iff, ==_refl, if◌then◌else◌, ℤ, Bool-cases, delete_rows, All, All-map,
  All-updated, delete_rows_sound, All-zip, All-delete_rows, All-update_rows,
}
use ifritah_go.Prelude.Transaction.{
  statement, Post, then_rule, pure_rule, statement_rule, weaken_rule,
}
use ifritah_go.Order.Table.{
  OrderItemRequest, OrderRequest, Order, OrderItem, Orders, order_row, edit_order, insert_order,
  change_order, insert_item, delete_items, delete_row,
}
use ifritah_go.Order.Handlers.{OrderReply, order_refused, insert_order_items}
use ifritah_go.Order.Totals.{
  sum_items, line_sum, insert_all, IsInHundredths, sum_items-insert_all, sum_items-delete_rows,
  sum_items-above, rounded-compute_order_total,
}

abbrev pub HaveTotals : List OrderItem → List Order → Type 0
HaveTotals items orders = All (λ o. o.total ≡ sum_items o.id items) orders

-- Each order has the total of its items, and the ids of orders are below the next one.
pub record IsSummed (db : Orders) : Type 0 where
  pub totals : HaveTotals db.items db.orders
  pub orders_below : All (λ o. o.id < db.next_order) db.orders
  pub items_below : All (λ i. i.order_id < db.next_order) db.items

-- What insertOrderItems writes when it meets no error.
pub record HasItems (id : ℕ) (items : List OrderItemRequest) (db after : Orders) : Type 0 where
  pub orders : after.orders ≡ db.orders
  pub next_order : after.next_order ≡ db.next_order
  pub rows : after.items ≡ insert_all id items db.items

pub insert_order_items-HasItems :
    (f : ℕ → Bool) (i id : ℕ) (items : List OrderItemRequest) (db : Orders)
    → Post {A = Unit {0}} (λ a t. HasItems id items db t) (insert_order_items f i id items db)
unfolding insert_order_items
insert_order_items-HasItems f i id [] db =
    pure_rule OrderReply (λ a t. HasItems id [] db t) tt db
      (record { orders = refl; next_order = refl; rows = refl })
insert_order_items-HasItems f i id (it ∷ items) db =
    then_rule (λ a t. t ≡ insert_item id it db) (λ a t. HasItems id (it ∷ items) db t)
      (statement (f i || it.quantity == 0) (order_refused 500) (insert_item id it))
      (insert_order_items f (suc i) id items) db
      (statement_rule (λ a t. t ≡ insert_item id it db) _ (order_refused 500) (insert_item id it) db
        λ runs. refl)
      (λ a t e.
        weaken_rule (λ b u. HasItems id items t u) (λ b u. HasItems id (it ∷ items) db u) _
          (λ b u h. record {
            orders = h.orders ∙ ap (λ (d : Orders). d.orders) e;
            next_order = h.next_order ∙ ap (λ (d : Orders). d.next_order) e;
            rows = h.rows ∙ ap (λ (d : Orders). insert_all id items d.items) e;
          })
          (insert_order_items-HasItems f (suc i) id items t))

insert_all-below :
    (n id : ℕ) (items : List OrderItemRequest) (old : List OrderItem)
    → id < n
    → All (λ i. i.order_id < n) old
    → All (λ i. i.order_id < n) (insert_all id items old)
insert_all-below n id [] old h k = k
insert_all-below n id (it ∷ items) old h k = insert_all-below n id items _ h (h, k)

sum_items-own :
    (id : ℕ) (items : List OrderItemRequest) (old : List OrderItem)
    → sum_items id (insert_all id items old) ≡ line_sum items + sum_items id old
sum_items-own id items old = sum_items-insert_all id id items old ∙ rw (==_refl id) refl

sum_items-other :
    (j id : ℕ) (items : List OrderItemRequest) (old : List OrderItem)
    → (id == j) ≡ false
    → sum_items j (insert_all id items old) ≡ sum_items j old
sum_items-other j id items old other = sum_items-insert_all j id items old ∙ rw other (omega arith)

sum_items-gone :
    (id : ℕ) (items : List OrderItem) → sum_items id (delete_rows (λ i. i.order_id == id) items) ≡ 0
sum_items-gone id items = sum_items-delete_rows id id items ∙ rw (==_refl id) refl

sum_items-kept :
    (j id : ℕ) (items : List OrderItem)
    → (id == j) ≡ false
    → sum_items j (delete_rows (λ i. i.order_id == id) items) ≡ sum_items j items
sum_items-kept j id items other = sum_items-delete_rows j id items ∙ rw other refl

HasItems-totals :
    (id : ℕ) (items : List OrderItemRequest) (db t : Orders)
    → HasItems id items db t
    → HaveTotals (insert_all id items db.items) db.orders
    → HaveTotals t.items t.orders
HasItems-totals id items db t h k =
    subst (λ rows. HaveTotals rows t.orders) (sym h.rows)
      (subst (λ orders. HaveTotals (insert_all id items db.items) orders) (sym h.orders) k)

-- The new order with its items.
pub inserted-IsSummed :
    (user : ℤ) (req : OrderRequest) (status : String) (db t : Orders)
    → All IsInHundredths req.items
    → HasItems db.next_order req.items (insert_order (order_row user req status) db) t
    → IsSummed db
    → IsSummed t
inserted-IsSummed user req status db t cents h g = record {
  totals =
      HasItems-totals db.next_order req.items (insert_order (order_row user req status) db) t h (
        rounded-compute_order_total req.items cents
            ∙ omega (
              arith,
              sum_items-own db.next_order req.items db.items,
              sum_items-above db.next_order db.items g.items_below,
            ),
        All-zip _ _ _ db.orders
            (λ o k below.
              k ∙ sym (sum_items-other o.id db.next_order req.items db.items (ground arith)))
            g.totals g.orders_below,
      );
  orders_below =
      rw (h.orders, h.next_order)
        (omega arith, All-map _ _ db.orders (λ o k. omega (arith, k)) g.orders_below);
  items_below =
      rw (h.rows, h.next_order)
        (insert_all-below (suc db.next_order) db.next_order req.items db.items (omega arith)
          (All-map _ _ db.items (λ i k. omega (arith, k)) g.items_below));
}

-- An order before and after an edit of the order `id`.
edited-total :
    (id : ℕ) (req : OrderRequest) (status : String) (items : List OrderItem) (o : Order)
    → All IsInHundredths req.items
    → o.total ≡ sum_items o.id items
    → let o' = if o.id == id then edit_order req status o else o in
      o'.total
      ≡ sum_items o'.id (insert_all id req.items (delete_rows (λ i. i.order_id == id) items))
edited-total id req status items o cents same = elim (Bool-cases (o.id == id)) [
  | inl hit ↦
      let own = (==_iff o.id id).0 hit in
      rw hit (
        rounded-compute_order_total req.items cents
        ∙ subst
            (λ j.
              line_sum req.items
              ≡ sum_items j (insert_all id req.items (delete_rows (λ i. i.order_id == id) items)))
            (sym own)
            (omega (
              arith,
              sum_items-own id req.items (delete_rows (λ i. i.order_id == id) items),
              sum_items-gone id items,
            )))
  | inr miss ↦
      let other : (id == o.id) ≡ false = ground arith in
      rw miss (
        same
        ∙ sym (
            sum_items-other o.id id req.items (delete_rows (λ i. i.order_id == id) items) other
            ∙ sum_items-kept o.id id items other))
]

-- The rows of an order after an edit.
pub edited-IsSummed :
    (id : ℕ) (req : OrderRequest) (status : String) (db t : Orders)
    → id < db.next_order
    → All IsInHundredths req.items
    → HasItems id req.items (delete_items id (change_order id req status db)) t
    → IsSummed db
    → IsSummed t
edited-IsSummed id req status db t known cents h g = record {
  totals = HasItems-totals id req.items (delete_items id (change_order id req status db)) t h (
      All-updated _ (λ o. o.id == id) (edit_order req status) db.orders
        (All-map _ _ db.orders (λ o k. edited-total id req status db.items o cents k) g.totals));
  orders_below =
      rw (h.orders, h.next_order)
        (All-update_rows _ (λ o. o.id == id) (edit_order req status) db.orders (λ o hit k. k)
          g.orders_below);
  items_below =
      rw (h.rows, h.next_order)
        (insert_all-below db.next_order id req.items _ known
          (All-delete_rows _ (λ i. i.order_id == id) db.items g.items_below));
}

pub deleted-IsSummed : (id : ℕ) (db : Orders) → IsSummed db → IsSummed (delete_row id db)
deleted-IsSummed id db g = record {
  totals =
      All-zip _ _ _ (delete_rows (λ o. o.id == id) db.orders)
        (λ o k other. k ∙ sym (sum_items-kept o.id id db.items (ground arith)))
        (All-delete_rows _ (λ o. o.id == id) db.orders g.totals)
        (delete_rows_sound (λ o. o.id == id) db.orders);
  orders_below = All-delete_rows _ (λ o. o.id == id) db.orders g.orders_below;
  items_below = All-delete_rows _ (λ i. i.order_id == id) db.items g.items_below;
}
