-- ===== src/Order/Runs.antt =====
-- Sequences of requests to pkg/handlers/order.go, and the totals of the orders that they leave.
use mathlib.Core.Path.{subst}
use ifritah_go.Prelude.{
  ℕ, ◌<◌, String, str_eq, not, ◌&&◌, ◌||◌, Option, none, some, List, [], ◌∷◌, ◌≡◌, refl, sym, ap,
  arith, Result, ok, err, if_rule, find_row_sound, found_unless, All, All-mem,
}
use ifritah_go.Prelude.Transaction.{statement, Post, then_rule, statement_rule, weaken_rule}
use ifritah_go.Order.Table.{
  OrderRequest, Order, Orders, order_row, insert_order, change_order, delete_items,
}
use ifritah_go.Outbox.Drain.{Commit}
use ifritah_go.Order.Handlers.{
  commit_order, OrderContext, OrderFaults, OrderReply, order_updated, order_refused, named,
  insert_order_items, is_bad_number, create_transaction, rewrite_items, update_order_transaction,
  order_committed, with_status, checked_order, resolve_order_status, is_nameless, is_known_client,
  is_known_store, is_sequence_taken, create_order, own_order, is_own_order, update_found,
  update_order, delete_found_order, delete_order,
}
use ifritah_go.Order.Totals.{IsInHundredths}
use ifritah_go.Order.Rows.{
  IsSummed, insert_order_items-HasItems, inserted-IsSummed, edited-IsSummed, deleted-IsSummed,
}

pub data OrderCallBody : Type 0 where
  create : Option OrderRequest → OrderCallBody
  update : Option ℕ → Option OrderRequest → OrderCallBody
  delete : Option ℕ → OrderCallBody

-- A request with what it reads elsewhere and the statements that fail during it.
pub record OrderCall : Type 0 where
  pub context : OrderContext
  pub failing : OrderFaults
  pub body : OrderCallBody

unfoldable pub order_answer :
    OrderContext → OrderFaults → OrderCallBody → Orders → OrderReply × Orders
order_answer c f (create body) db = create_order c f body db
order_answer c f (update param body) db = update_order c f param body db
order_answer c f (delete param) db = delete_order c f param db

unfoldable pub run_orders : List OrderCall → Orders → Orders
unfolding order_answer
run_orders [] db = db
run_orders (call ∷ calls) db =
    run_orders calls (order_answer call.context call.failing call.body db).1

abbrev pub HasTwoPlaces : Option OrderRequest → Type 0
HasTwoPlaces none = Unit {0}
HasTwoPlaces (some req) = All IsInHundredths req.items

-- The prices of a request have two places.
abbrev pub IsPriced : OrderCallBody → Type 0
IsPriced (create body) = HasTwoPlaces body
IsPriced (update param body) = HasTwoPlaces body
IsPriced (delete param) = Unit {0}

abbrev LeavesSummed : OrderReply × Orders → Type 0
LeavesSummed r = IsSummed r.1

module _ (c : OrderContext) (f : OrderFaults) (db : Orders) (g : IsSummed db) where
  commit_order-LeavesSummed :
      (commit : Commit) (reply : OrderReply) (after : Orders)
      → IsSummed after
      → LeavesSummed (commit_order commit reply db after)
  commit_order-LeavesSummed Commit.committed reply after h = h
  commit_order-LeavesSummed Commit.rolled_back reply after h = g
  commit_order-LeavesSummed Commit.unacknowledged reply after h = h

  order_committed-LeavesSummed :
      (reply : OrderReply) (v : Result OrderReply (Unit {0}) × Orders)
      → Post (λ a t. IsSummed t) v
      → LeavesSummed (order_committed f.commit reply db v)
  unfolding Post
  order_committed-LeavesSummed reply (err e, after) h = g
  order_committed-LeavesSummed reply (ok u, after) h =
      commit_order-LeavesSummed f.commit reply after h

  with_status-LeavesSummed :
      (id : ℕ) (req : OrderRequest) (status : Option String) (go : String → OrderReply × Orders)
      → ((s : String) → LeavesSummed (go s))
      → LeavesSummed (with_status c f id req db status go)
  with_status-LeavesSummed id req none go h = g
  with_status-LeavesSummed id req (some s) go h =
      if_rule LeavesSummed (not f.count_sequence && is_sequence_taken c id req.sequence_number db) _
        _ g (if_rule LeavesSummed f.begin _ _ g (h s))

  checked_order-LeavesSummed :
      (id : ℕ) (req : OrderRequest) (go : String → OrderReply × Orders)
      → ((s : String) → LeavesSummed (go s))
      → LeavesSummed (checked_order c f id req db go)
  checked_order-LeavesSummed id req go h =
      if_rule LeavesSummed (not (is_known_client c f req.client_id)) _ _ g (
        if_rule LeavesSummed (not (is_known_store c f req.store_id)) _ _ g
          (with_status-LeavesSummed id req (resolve_order_status req.status) go h))

  create_transaction-IsSummed :
      (req : OrderRequest) (status : String)
      → All IsInHundredths req.items
      → Post {A = Unit {0}} (λ a t. IsSummed t) (create_transaction c f req status db)
  unfolding create_transaction
  create_transaction-IsSummed req status cents =
      then_rule (λ a t. t ≡ insert_order (order_row c.user_id req status) db) (λ a t. IsSummed t)
        (statement (f.write_order || is_bad_number c db.next_order req.sequence_number db)
          (order_refused 500) (insert_order (order_row c.user_id req status)))
        (insert_order_items f.item 0 db.next_order req.items) db
        (statement_rule (λ a t. t ≡ insert_order (order_row c.user_id req status) db) _
          (order_refused 500) (insert_order (order_row c.user_id req status)) db λ runs. refl)
        (λ a t e.
          subst
            (λ d.
              Post {A = Unit {0}} (λ b u. IsSummed u)
                (insert_order_items f.item 0 db.next_order req.items d))
            (sym e)
            (weaken_rule _ (λ b u. IsSummed u) _
              (λ b u h. inserted-IsSummed c.user_id req status db u cents h g)
              (insert_order_items-HasItems f.item 0 db.next_order req.items
                (insert_order (order_row c.user_id req status) db))))

  update_order_transaction-IsSummed :
      (id : ℕ) (req : OrderRequest) (status : String)
      → id < db.next_order
      → All IsInHundredths req.items
      → Post {A = Unit {0}} (λ a t. IsSummed t) (update_order_transaction c f id req status db)
  unfolding update_order_transaction
  update_order_transaction-IsSummed id req status known cents =
      then_rule (λ a t. t ≡ change_order id req status db) (λ a t. IsSummed t)
        (statement (f.write_order || is_bad_number c id req.sequence_number db) (order_refused 500)
          (change_order id req status))
        (rewrite_items f id req) db
        (statement_rule (λ a t. t ≡ change_order id req status db) _ (order_refused 500)
          (change_order id req status) db λ runs. refl)
        (λ a t e.
          then_rule (λ b u. u ≡ delete_items id (change_order id req status db)) (λ b u. IsSummed u)
            (statement f.delete_old (order_refused 500) (delete_items id))
            (insert_order_items f.item 0 id req.items) t
            (statement_rule (λ b u. u ≡ delete_items id (change_order id req status db))
              f.delete_old (order_refused 500) (delete_items id) t λ runs. ap (delete_items id) e)
            (λ b u k.
              subst
                (λ d.
                  Post {A = Unit {0}} (λ x v. IsSummed v)
                    (insert_order_items f.item 0 id req.items d))
                (sym k)
                (weaken_rule _ (λ x v. IsSummed v) _
                  (λ x v h. edited-IsSummed id req status db v known cents h g)
                  (insert_order_items-HasItems f.item 0 id req.items
                    (delete_items id (change_order id req status db))))))

  named-items : (client : Option ℕ) (req : OrderRequest) → (named c f client req).items ≡ req.items
  named-items none req = refl
  named-items (some id) req =
      if_rule (λ (r : OrderRequest). r.items ≡ req.items) (str_eq req.customer_name "") _ _ refl
        refl

  create_order-LeavesSummed :
      (body : Option OrderRequest) → HasTwoPlaces body → LeavesSummed (create_order c f body db)
  unfolding create_order
  create_order-LeavesSummed none cents = g
  create_order-LeavesSummed (some req) cents = if_rule LeavesSummed (is_nameless c req) _ _ g (
      checked_order-LeavesSummed db.next_order req _ λ status. order_committed-LeavesSummed _ _ (
        create_transaction-IsSummed (named c f req.client_id req) status
          (subst (All IsInHundredths) (sym (named-items req.client_id req)) cents)))

  update_found-LeavesSummed :
      (id : ℕ) (req : OrderRequest) (found : Option Order)
      → ((o : Order) → found ≡ some o → id < db.next_order)
      → All IsInHundredths req.items
      → LeavesSummed (update_found c f id req found db)
  update_found-LeavesSummed id req none known cents = g
  update_found-LeavesSummed id req (some o) known cents =
      checked_order-LeavesSummed id req _ λ status.
        order_committed-LeavesSummed order_updated _
          (update_order_transaction-IsSummed id req status (known o refl) cents)

  own_order-below : (id : ℕ) (o : Order) → own_order c f id db ≡ some o → id < db.next_order
  own_order-below id o e =
      let (m, hit) = find_row_sound (is_own_order c id) db.orders (found_unless f.lookup _ e) in
      let below = All-mem (λ r. r.id < db.next_order) o db.orders g.orders_below m in ground arith

  update_order-LeavesSummed :
      (param : Option ℕ) (body : Option OrderRequest)
      → HasTwoPlaces body
      → LeavesSummed (update_order c f param body db)
  unfolding update_order
  update_order-LeavesSummed none body cents = g
  update_order-LeavesSummed (some id) none cents = g
  update_order-LeavesSummed (some id) (some req) cents =
      update_found-LeavesSummed id req (own_order c f id db) (own_order-below id) cents

  delete_found_order-LeavesSummed :
      (id : ℕ) (found : Option Order) → LeavesSummed (delete_found_order f id found db)
  delete_found_order-LeavesSummed id none = g
  delete_found_order-LeavesSummed id (some o) =
      if_rule LeavesSummed f.delete_order _ _ g (deleted-IsSummed id db g)

  order_answer-LeavesSummed :
      (body : OrderCallBody) → IsPriced body → LeavesSummed (order_answer c f body db)
  unfolding order_answer delete_order
  order_answer-LeavesSummed (create body) cents = create_order-LeavesSummed body cents
  order_answer-LeavesSummed (update param body) cents = update_order-LeavesSummed param body cents
  order_answer-LeavesSummed (delete none) cents = g
  order_answer-LeavesSummed (delete (some id)) cents =
      delete_found_order-LeavesSummed id (own_order c f id db)

-- Requests that create, update and delete orders, one after another and whatever statements fail, leave
-- each order with the total of its stored item lines, provided that the unit prices have at most two
-- places.
pub run_orders-IsSummed :
    (calls : List OrderCall) (db : Orders)
    → All (λ call. IsPriced call.body) calls
    → IsSummed db
    → IsSummed (run_orders calls db)
unfolding run_orders
run_orders-IsSummed [] db priced g = g
run_orders-IsSummed (call ∷ calls) db priced g =
    run_orders-IsSummed calls _ priced.1
      (order_answer-LeavesSummed call.context call.failing db g call.body priced.0)
