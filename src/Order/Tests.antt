-- ===== src/Order/Tests.antt =====
-- Tests of the orders (pkg/handlers/order.go), and their theorem at concrete inputs.
use ifritah_go.Prelude.{
  ℕ, str_eq, false, true, Option, none, some, List, [], ◌∷◌, ◌≡◌, refl, ℤ, pos, map,
}
use ifritah_go.Prelude.Transaction.{◌>>=◌, ◌>>◌}
use ifritah_go.Outbox.Drain.{Commit}
use ifritah_go.Order.Table.{OrderItemRequest, OrderRequest, Order, Orders, compute_order_total}
use ifritah_go.Order.Handlers.{
  OrderContext, OrderFaults, order_refused, resolve_order_status, insert_order_items,
  create_transaction, create_order, update_order,
}
use ifritah_go.Order.Totals.{sum_items}
use ifritah_go.Order.Rows.{IsSummed}
use ifritah_go.Order.Runs.{create, update, OrderCall, order_answer, run_orders, run_orders-IsSummed}

abbrev context : OrderContext
context = record {
  user_id = pos 7;
  is_client = λ id. false;
  client_name = λ id. "";
  is_store = λ id. true;
  same_text = str_eq;
  trim = λ t. t;
}

abbrev fine : OrderFaults
fine = record {
  count_client = false;
  client_name = false;
  count_store = false;
  count_sequence = false;
  lookup = false;
  begin = false;
  write_order = false;
  delete_old = false;
  item = λ i. false;
  delete_order = false;
  commit = Commit.committed;
}

abbrev item_at : ℕ → OrderItemRequest
item_at price = record { part_id = none; part_name = "bolt"; quantity = 1; unit_price = price }

abbrev order_for : Option ℤ → List OrderItemRequest → OrderRequest
order_for store items = record {
  sequence_number = "ORD-1";
  client_id = none;
  customer_name = "Sami";
  store_id = store;
  status = "";
  note = "";
  items = items;
}

abbrev call_of : OrderRequest → OrderCall
call_of req = record { context = context; failing = fine; body = create (some req) }

abbrev empty : Orders
empty = record { orders = []; items = []; next_order = 1 }

abbrev totals_of : Orders → List ℕ
totals_of db = map (λ (o : Order). o.total) db.orders

-- Two items at half a cent: the total is one cent, the two lines one cent each.
half_cent_test :
    let db =
      run_orders (call_of (order_for (some (pos 3)) (item_at 50 ∷ item_at 50 ∷ [])) ∷ []) empty in
    (totals_of db ≡ 1 ∷ []) × (sum_items 1 db.items ≡ 2)
unfolding run_orders order_answer create_order resolve_order_status create_transaction
    insert_order_items compute_order_total sum_items ◌>>=◌ ◌>>◌
half_cent_test = (refl, refl)

-- An order without a store is created and then never found again.
no_store_test :
    (update_order context fine
      (some 1)
      (some (order_for none []))
      (run_orders (call_of (order_for none []) ∷ []) empty)).0
    ≡ order_refused 404
unfolding run_orders order_answer create_order update_order resolve_order_status create_transaction
    insert_order_items compute_order_total ◌>>=◌ ◌>>◌
no_store_test = refl

abbrev calls : List OrderCall
calls =
    call_of (order_for (some (pos 3)) (item_at 1500 ∷ item_at 2000 ∷ []))
    ∷ record {
      context = context;
      failing = fine;
      body = update (some 1) (some (order_for (some (pos 3)) (item_at 700 ∷ [])));
    }
    ∷ []

run_orders-IsSummed_example : IsSummed (run_orders calls empty)
run_orders-IsSummed_example =
    run_orders-IsSummed calls empty ((refl, (refl, tt)), ((refl, tt), tt))
      (record { totals = tt; orders_below = tt; items_below = tt })
