-- ===== src/Order/Table.antt =====
-- The tables orders and order_items with the statements of pkg/db/queries/order.sql, and the requests of
-- pkg/model/order.go. The unit price of a request is an integer count of ten-thousandths, a stored
-- amount one of hundredths. created_at and updated_at are left out.
use ifritah_go.Prelude.{
  ℕ, suc, ◌+◌, ◌*◌, ◌/◌, String, str_eq, Option, none, some, List, [], ◌∷◌, ◌==◌, if◌then◌else◌, ℤ,
  update_rows, delete_rows,
}

-- The binding tags ask for a quantity of at least 1 and a price of at least 0.
pub record OrderItemRequest : Type 0 where
  pub part_id : Option ℕ
  pub part_name : String
  pub quantity : ℕ
  pub unit_price : ℕ

-- CreateOrderRequest and UpdateOrderRequest, whose fields are the same.
pub record OrderRequest : Type 0 where
  pub sequence_number : String
  pub client_id : Option ℕ
  pub customer_name : String
  pub store_id : Option ℤ
  pub status : String
  pub note : String
  pub items : List OrderItemRequest

pub record Order : Type 0 where
  pub id : ℕ
  pub sequence_number : String
  pub client_id : Option ℕ
  pub customer_name : Option String
  pub store_id : Option ℤ
  pub status : String
  pub total : ℕ
  pub note : Option String
  pub created_by : ℤ

pub record OrderItem : Type 0 where
  pub order_id : ℕ
  pub part_id : Option ℕ
  pub part_name : String
  pub quantity : ℕ
  pub unit_price : ℕ
  pub line_total : ℕ

pub record Orders : Type 0 where
  pub orders : List Order
  pub items : List OrderItem
  pub next_order : ℕ

-- A DECIMAL(12,2) of a value in ten-thousandths: halves go up.
abbrev pub rounded : ℕ → ℕ
rounded n = (n + 50) / 100

abbrev pub line_amount : OrderItemRequest → ℕ
line_amount it = it.quantity * it.unit_price

-- computeOrderTotal
unfoldable pub compute_order_total : List OrderItemRequest → ℕ
compute_order_total [] = 0
compute_order_total (it ∷ items) = line_amount it + compute_order_total items

-- The row of CreateOrderItem.
abbrev pub item_row : ℕ → OrderItemRequest → OrderItem
item_row id it = record {
  order_id = id;
  part_id = it.part_id;
  part_name = it.part_name;
  quantity = it.quantity;
  unit_price = rounded it.unit_price;
  line_total = rounded (line_amount it);
}

-- optionalString
abbrev pub optional_string : String → Option String
optional_string s = if str_eq s "" then none else some s

-- The row of CreateOrder.
abbrev pub order_row : ℤ → OrderRequest → String → ℕ → Order
order_row user req status id = record {
  id = id;
  sequence_number = req.sequence_number;
  client_id = req.client_id;
  customer_name = optional_string req.customer_name;
  store_id = req.store_id;
  status = status;
  total = rounded (compute_order_total req.items);
  note = optional_string req.note;
  created_by = user;
}

-- The SET of UpdateOrder.
abbrev pub edit_order : OrderRequest → String → Order → Order
edit_order req status o = record o {
  sequence_number = req.sequence_number;
  client_id = req.client_id;
  customer_name = optional_string req.customer_name;
  store_id = req.store_id;
  status = status;
  total = rounded (compute_order_total req.items);
  note = optional_string req.note;
}

abbrev pub insert_order : (ℕ → Order) → Orders → Orders
insert_order row db = record db {
  orders = row db.next_order ∷ db.orders;
  next_order = suc db.next_order;
}

abbrev pub change_order : ℕ → OrderRequest → String → Orders → Orders
change_order id req status db = record db {
  orders = update_rows (λ o. o.id == id) (edit_order req status) db.orders;
}

abbrev pub insert_item : ℕ → OrderItemRequest → Orders → Orders
insert_item id it db = record db { items = item_row id it ∷ db.items }

-- DeleteOrderItemsByOrderID
abbrev pub delete_items : ℕ → Orders → Orders
delete_items id db = record db { items = delete_rows (λ i. i.order_id == id) db.items }

-- DeleteOrderByID, with the items that the foreign key deletes.
abbrev pub delete_row : ℕ → Orders → Orders
delete_row id db = record (delete_items id db) { orders = delete_rows (λ o. o.id == id) db.orders }
