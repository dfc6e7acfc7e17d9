-- ===== src/Stock/Adjust.antt =====
-- StockAdjust, StockCheck and the paging of GetStockMovements of pkg/handlers/stock.go. A handler
-- answers with a status and, where it is no success, a detail. The bound request is an argument,
-- `none` if the binding fails, and `AdjustFaults` says which statements fail.
use ifritah_go.Prelude.{
  ℕ, ◌*◌, String, str_eq, Bool, true, false, ◌&&◌, ◌||◌, Option, none, some, List, [], ◌∷◌, ◌++◌,
  if◌then◌else◌, ℤ, pos, ◌+ℤ◌, abs_ℤ, ltb_ℤ, leb_ℤ, pos_part,
}
use ifritah_go.Stock.Table.{
  Stock, Movement, Note, breaks_check, product_quantity, update_product_quantity,
  insert_stock_movement, movement_type_adjustment, reference_type_manual, stock_enforcement_disable,
  stock_enforcement_enforce,
}
use ifritah_go.Outbox.Drain.{Commit}
use ifritah_go.Stock.Movements.{Actor, get_stock_enforcement_mode}

-- model.StockAdjustRequest, with at most three places in the change.
pub record StockAdjustRequest : Type 0 where
  pub product_id : ℕ
  pub store_id : ℕ
  pub quantity_change : ℤ
  pub reason : String
  pub note : String

pub record AdjustFaults : Type 0 where
  pub product : Bool
  pub begin : Bool
  pub update : Bool
  pub insert : Bool
  pub commit : Commit

pub data AdjustReply : Type 0 where
  adjusted : ℕ → ℤ → AdjustReply  -- 200, with product_id and new_quantity
  insufficient_stock : ℤ → ℤ → AdjustReply  -- 400, with available and requested
  refused : ℕ → String → AdjustReply  -- a status and its detail

unfoldable pub adjust_movement : Actor → StockAdjustRequest → Movement
adjust_movement actor req = record {
  product_id = req.product_id;
  store_id = req.store_id;
  quantity = req.quantity_change;
  movement_type = movement_type_adjustment;
  reference_type = reference_type_manual;
  reference_id = none;
  item_id = none;
  reason = some req.reason;
  note = some (Note.plain req.note);
  created_by = actor.user_id;
  created_at = actor.now;
}

-- The commit. One that is in force without an acknowledgement is answered as a failed one.
abbrev pub commit_adjust : Commit → AdjustReply → Stock → Stock → AdjustReply × Stock
commit_adjust Commit.committed reply old new = (reply, new)
commit_adjust Commit.rolled_back reply old new = (refused 500 "commit error", old)
commit_adjust Commit.unacknowledged reply old new = (refused 500 "commit error", new)

-- The transaction of StockAdjust: every error before the commit rolls back.
unfoldable pub adjust_product :
    Actor → String → AdjustFaults → StockAdjustRequest → ℤ → Stock → AdjustReply × Stock
adjust_product actor enforcement f req current s =
    let new_qty = current +ℤ req.quantity_change in
    if str_eq enforcement stock_enforcement_enforce && ltb_ℤ new_qty (pos 0)
    then (insufficient_stock current (abs_ℤ req.quantity_change), s)
    else if f.begin
    then (refused 500 "transaction error", s)
    else if f.update || breaks_check req.product_id req.quantity_change s.products
    then (refused 500 "failed to update stock", s)
    else if f.insert
    then (refused 500 "failed to record movement", s)
    else commit_adjust f.commit (adjusted req.product_id new_qty) s (
        insert_stock_movement (adjust_movement actor req)
          (update_product_quantity req.product_id req.quantity_change s))

-- h.getProductStock: `none` for any error, a missing row included.
abbrev pub get_product_stock : Bool → ℕ → Stock → Option (ℕ × ℤ)
get_product_stock failing id s = if failing then none else product_quantity id s.products

unfoldable pub adjust_found :
    Actor
    → String
    → AdjustFaults
    → StockAdjustRequest
    → Option (ℕ × ℤ)
    → Stock
    → AdjustReply × Stock
unfolding adjust_product
adjust_found actor enforcement f req none s = (refused 404 "product not found", s)
adjust_found actor enforcement f req (some (store, current)) s =
    adjust_product actor enforcement f req current s

unfoldable pub stock_adjust :
    Actor → Option String → AdjustFaults → Option StockAdjustRequest → Stock → AdjustReply × Stock
unfolding adjust_found
stock_adjust actor mode f none s = (refused 400 "invalid request", s)
stock_adjust actor mode f (some req) s =
    let enforcement = get_stock_enforcement_mode mode in
    if str_eq enforcement stock_enforcement_disable
    then (refused 400 "stock tracking is disabled", s)
    else adjust_found actor enforcement f req (get_product_stock f.product req.product_id s) s

pub record StockCheckItem : Type 0 where
  pub product_id : ℕ
  pub quantity : ℤ

pub record StockCheckResult : Type 0 where
  pub product_id : ℕ
  pub store_id : ℕ
  pub available : ℤ
  pub requested : ℤ
  pub sufficient : Bool

abbrev pub check_found : StockCheckItem → Option (ℕ × ℤ) → StockCheckResult
check_found item none = record {
  product_id = item.product_id;
  store_id = 0;
  available = pos 0;
  requested = item.quantity;
  sufficient = false;
}
check_found item (some (store, available)) = record {
  product_id = item.product_id;
  store_id = store;
  available = available;
  requested = item.quantity;
  sufficient = leb_ℤ item.quantity available;
}

-- The loop of StockCheck over its two accumulators; an item carries whether its query fails.
unfoldable pub check_items :
    Stock
    → List (StockCheckItem × Bool)
    → List StockCheckResult
    → Bool
    → List StockCheckResult × Bool
check_items s [] items all_sufficient = (items, all_sufficient)
check_items s ((item, failing) ∷ rest) items all_sufficient =
    let result = check_found item (get_product_stock failing item.product_id s) in
    check_items s rest (items ++ (result ∷ [])) (all_sufficient && result.sufficient)

unfoldable pub stock_check : Stock → List (StockCheckItem × Bool) → List StockCheckResult × Bool
unfolding check_items
stock_check s items = check_items s items [] true

-- The page and page size of GetStockMovements, from the two query parameters as Atoi reads them (0
-- where it fails): limit and offset.
unfoldable pub movements_page : ℤ → ℤ → ℕ × ℕ
movements_page page page_size =
    let size =
      if leb_ℤ page_size (pos 0) || ltb_ℤ (pos 200) page_size then 50 else pos_part page_size in
    let number = if ltb_ℤ page (pos 0) then 0 else pos_part page in (size, number * size)
