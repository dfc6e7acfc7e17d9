-- ===== src/Order/Handlers.antt =====
-- CreateOrder, UpdateOrder and DeleteOrder of pkg/handlers/order.go. A body and a path id are arguments,
-- `none` where they do not parse.
use ifritah_go.Prelude.{
  ℕ, suc, String, str_eq, Bool, true, false, not, ◌&&◌, ◌||◌, Option, none, some, List, [], ◌∷◌,
  ◌==◌, if◌then◌else◌, ℤ, Result, ok, err, find_row, count_rows, ltb,
}
use ifritah_go.Prelude.Transaction.{Tx, pure, ◌>>◌, statement}
use ifritah_go.Outbox.Drain.{Commit}
use ifritah_go.Order.Table.{
  OrderItemRequest, OrderRequest, Order, Orders, compute_order_total, order_row, insert_order,
  change_order, insert_item, delete_items, delete_row,
}

-- What the handlers read from other tables: the clients that are not deleted and their names, and the
-- stores of the user's company; the collation of orders; and strings.TrimSpace.
pub record OrderContext : Type 0 where
  pub user_id : ℤ
  pub is_client : ℕ → Bool
  pub client_name : ℕ → String
  pub is_store : ℤ → Bool
  pub same_text : String → String → Bool
  pub trim : String → String

pub record OrderFaults : Type 0 where
  pub count_client : Bool
  pub client_name : Bool
  pub count_store : Bool
  pub count_sequence : Bool
  pub lookup : Bool
  pub begin : Bool
  pub write_order : Bool
  pub delete_old : Bool
  pub item : ℕ → Bool
  pub delete_order : Bool
  pub commit : Commit

pub data OrderReply : Type 0 where
  order_created : ℕ → String → ℕ → OrderReply  -- 201, with id, sequence_number and total
  order_updated order_deleted : OrderReply  -- 200
  order_refused : ℕ → OrderReply  -- a status

-- resolveOrderStatus
unfoldable pub resolve_order_status : String → Option String
resolve_order_status s =
    if str_eq s ""
    then some "pending"
    else if str_eq s "pending"
        || (str_eq s "processing" || (str_eq s "completed" || str_eq s "cancelled"))
    then some s
    else none

abbrev pub is_known_client : OrderContext → OrderFaults → Option ℕ → Bool
is_known_client c f none = true
is_known_client c f (some id) = not f.count_client && c.is_client id

abbrev pub is_known_store : OrderContext → OrderFaults → Option ℤ → Bool
is_known_store c f none = true
is_known_store c f (some id) = not f.count_store && c.is_store id

-- The name of the client where the request gives none.
abbrev pub named : OrderContext → OrderFaults → Option ℕ → OrderRequest → OrderRequest
named c f none req = req
named c f (some id) req =
    if str_eq req.customer_name ""
    then record req { customer_name = if f.client_name then "" else c.client_name id }
    else req

-- Whether another order has the number.
abbrev pub is_sequence_taken : OrderContext → ℕ → String → Orders → Bool
is_sequence_taken c id number db =
    ltb 0 (count_rows (λ o. c.same_text o.sequence_number number && not (o.id == id)) db.orders)

abbrev pub OrderStep : Type 0
OrderStep = Tx Orders OrderReply (Unit {0})

-- insertOrderItems; `i` is the position of the first item.
unfoldable pub insert_order_items : (ℕ → Bool) → ℕ → ℕ → List OrderItemRequest → OrderStep
unfolding ◌>>◌
insert_order_items f i id [] = pure tt
insert_order_items f i id (it ∷ items) =
    statement (f i || it.quantity == 0) (order_refused 500) (insert_item id it)
    >> insert_order_items f (suc i) id items

-- The constraints uq_orders_seq and chk_order_seq.
abbrev pub is_bad_number : OrderContext → ℕ → String → Orders → Bool
is_bad_number c id number db = is_sequence_taken c id number db || str_eq (c.trim number) ""

unfoldable pub create_transaction : OrderContext → OrderFaults → OrderRequest → String → OrderStep
unfolding ◌>>◌ insert_order_items
create_transaction c f req status db =
    (statement (f.write_order || is_bad_number c db.next_order req.sequence_number db)
          (order_refused 500) (insert_order (order_row c.user_id req status))
        >> insert_order_items f.item 0 db.next_order req.items)
      db

abbrev pub rewrite_items : OrderFaults → ℕ → OrderRequest → OrderStep
rewrite_items f id req =
    statement f.delete_old (order_refused 500) (delete_items id)
    >> insert_order_items f.item 0 id req.items

unfoldable pub update_order_transaction :
    OrderContext → OrderFaults → ℕ → OrderRequest → String → OrderStep
unfolding ◌>>◌ insert_order_items
update_order_transaction c f id req status db =
    (statement (f.write_order || is_bad_number c id req.sequence_number db) (order_refused 500)
          (change_order id req status)
        >> rewrite_items f id req)
      db

-- The commit. One that is in force without an acknowledgement is answered as a failed one.
abbrev pub commit_order : Commit → OrderReply → Orders → Orders → OrderReply × Orders
commit_order Commit.committed reply old new = (reply, new)
commit_order Commit.rolled_back reply old new = (order_refused 500, old)
commit_order Commit.unacknowledged reply old new = (order_refused 500, new)

abbrev pub order_committed :
    Commit → OrderReply → Orders → Result OrderReply (Unit {0}) × Orders → OrderReply × Orders
order_committed commit reply db (err e, after) = (e, db)
order_committed commit reply db (ok u, after) = commit_order commit reply db after

-- The checks of the client, the store, the status and the number, in the handlers' order.
abbrev pub with_status :
    OrderContext
    → OrderFaults
    → ℕ
    → OrderRequest
    → Orders
    → Option String
    → (String → OrderReply × Orders)
    → OrderReply × Orders
with_status c f id req db none go = (order_refused 400, db)
with_status c f id req db (some status) go =
    if not f.count_sequence && is_sequence_taken c id req.sequence_number db
    then (order_refused 409, db)
    else if f.begin
    then (order_refused 500, db)
    else go status

abbrev pub checked_order :
    OrderContext
    → OrderFaults
    → ℕ
    → OrderRequest
    → Orders
    → (String → OrderReply × Orders)
    → OrderReply × Orders
checked_order c f id req db go =
    if not (is_known_client c f req.client_id)
    then (order_refused 400, db)
    else if not (is_known_store c f req.store_id)
    then (order_refused 400, db)
    else with_status c f id req db (resolve_order_status req.status) go

abbrev pub is_nameless : OrderContext → OrderRequest → Bool
is_nameless c req = elim req.client_id [
  | none ↦ str_eq (c.trim req.customer_name) ""
  | some id ↦ false
]

unfoldable pub create_order :
    OrderContext → OrderFaults → Option OrderRequest → Orders → OrderReply × Orders
unfolding resolve_order_status create_transaction compute_order_total
create_order c f none db = (order_refused 400, db)
create_order c f (some req) db =
    if is_nameless c req
    then (order_refused 400, db)
    else checked_order c f db.next_order req db λ status.
      order_committed f.commit
        (order_created db.next_order req.sequence_number (compute_order_total req.items)) db
        (create_transaction c f (named c f req.client_id req) status db)

-- GetOrderForCompany: an order in a store of the company.
abbrev pub is_own_order : OrderContext → ℕ → Order → Bool
is_own_order c id o = o.id == id && (elim o.store_id [ none ↦ false | some s ↦ c.is_store s ])

abbrev pub own_order : OrderContext → OrderFaults → ℕ → Orders → Option Order
own_order c f id db = if f.lookup then none else find_row (is_own_order c id) db.orders

abbrev pub update_found :
    OrderContext → OrderFaults → ℕ → OrderRequest → Option Order → Orders → OrderReply × Orders
update_found c f id req none db = (order_refused 404, db)
update_found c f id req (some o) db = checked_order c f id req db λ status.
    order_committed f.commit order_updated db (update_order_transaction c f id req status db)

unfoldable pub update_order :
    OrderContext → OrderFaults → Option ℕ → Option OrderRequest → Orders → OrderReply × Orders
unfolding resolve_order_status update_order_transaction
update_order c f none body db = (order_refused 400, db)
update_order c f (some id) none db = (order_refused 400, db)
update_order c f (some id) (some req) db = update_found c f id req (own_order c f id db) db

abbrev pub delete_found_order : OrderFaults → ℕ → Option Order → Orders → OrderReply × Orders
delete_found_order f id none db = (order_refused 404, db)
delete_found_order f id (some o) db =
    if f.delete_order then (order_refused 500, db) else (order_deleted, delete_row id db)

unfoldable pub delete_order : OrderContext → OrderFaults → Option ℕ → Orders → OrderReply × Orders
delete_order c f none db = (order_refused 400, db)
delete_order c f (some id) db = delete_found_order f id (own_order c f id db) db
