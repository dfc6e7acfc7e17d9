-- ===== src/Order/Totals.antt =====
-- The total of an order against the lines of its items (pkg/handlers/order.go).
use ifritah_go.Prelude.{
  ℕ, zero, suc, ◌+◌, ◌*◌, ◌%◌, ◌<◌, List, [], ◌∷◌, ◌≡◌, refl, arith, ◌==◌, if◌then◌else◌,
  delete_rows, All,
}
use ifritah_go.Order.Table.{
  OrderItemRequest, OrderItem, rounded, line_amount, compute_order_total, item_row,
}

-- The sum of the stored lines of an order.
unfoldable pub sum_items : ℕ → List OrderItem → ℕ
sum_items id [] = 0
sum_items id (i ∷ items) = (if i.order_id == id then i.line_total else 0) + sum_items id items

abbrev pub line_sum : List OrderItemRequest → ℕ
line_sum [] = 0
line_sum (it ∷ items) = rounded (line_amount it) + line_sum items

-- The items of an order as insertOrderItems leaves them.
abbrev pub insert_all : ℕ → List OrderItemRequest → List OrderItem → List OrderItem
insert_all id [] old = old
insert_all id (it ∷ items) old = insert_all id items (item_row id it ∷ old)

pub sum_items-insert_all :
    (j id : ℕ) (items : List OrderItemRequest) (old : List OrderItem)
    → sum_items j (insert_all id items old)
      ≡ (if id == j then line_sum items else 0) + sum_items j old
unfolding sum_items
sum_items-insert_all j id [] old = ground arith
sum_items-insert_all j id (it ∷ items) old =
    ground (arith, sum_items-insert_all j id items (item_row id it ∷ old))

pub sum_items-delete_rows :
    (j id : ℕ) (items : List OrderItem)
    → sum_items j (delete_rows (λ i. i.order_id == id) items)
      ≡ (if id == j then 0 else sum_items j items)
unfolding sum_items
sum_items-delete_rows j id [] = ground arith
sum_items-delete_rows j id (i ∷ items) = ground (arith, sum_items-delete_rows j id items)

-- An order without items.
pub sum_items-above :
    (n : ℕ) (items : List OrderItem) → All (λ i. i.order_id < n) items → sum_items n items ≡ 0
unfolding sum_items
sum_items-above n [] h = refl
sum_items-above n (i ∷ items) h = ground (arith, h.0, sum_items-above n items h.1)

-- A price of two places.
abbrev pub IsInHundredths : OrderItemRequest → Type 0
IsInHundredths it = it.unit_price % 100 ≡ 0

product_hundredths : (q p : ℕ) → p % 100 ≡ 0 → q * p % 100 ≡ 0
product_hundredths zero p h = omega arith
product_hundredths (suc q) p h = omega (arith, product_hundredths q p h)

total_hundredths :
    (items : List OrderItemRequest)
    → All IsInHundredths items
    → compute_order_total items ≡ 100 * line_sum items
unfolding compute_order_total
total_hundredths [] h = refl
total_hundredths (it ∷ items) h =
    omega (arith, product_hundredths it.quantity it.unit_price h.0, total_hundredths items h.1)

-- Where each price has two places, rounding the total is adding up the rounded lines.
pub rounded-compute_order_total :
    (items : List OrderItemRequest)
    → All IsInHundredths items
    → rounded (compute_order_total items) ≡ line_sum items
rounded-compute_order_total items h = omega (arith, total_hundredths items h)
