-- ===== src/Stock/Tests.antt =====
-- Tests of the stock model (pkg/handlers/stock.go), and its theorems at concrete inputs.
use ifritah_go.Prelude.{
  ℕ, ℤ, Option, false, none, some, List, [], ◌∷◌, ◌≡◌, refl, pos, negsuc, ◌+ℤ◌, neg_ℤ, all, ok,
}
use ifritah_go.Stock.Table.{
  Stock, Product, Movement, quantity_of, ledger, stock_enforcement_enforce, update_product_quantity,
  insert_stock_movement, product_quantity, add_quantity,
}
use ifritah_go.Stock.Movements.{
  Actor, LineFaults, StockError, insufficient, cannot_delete, BillProduct, SavedLine, move,
  sale_movement, sale_product, sale_line, deletion_movement, record_sale_movements,
  reverse_purchase_movements, each,
}
use ifritah_go.Outbox.Drain.{Commit}
use ifritah_go.Stock.Adjust.{
  AdjustFaults, StockAdjustRequest, stock_adjust, stock_check, movements_page,
}
use ifritah_go.Stock.Ledger.{HasMoved}
use ifritah_go.Stock.History.{History, start, next, sale, adjust, History-ledger}
use ifritah_go.Stock.Replies.{AnswersAll, Answers, stock_adjust-Answers, stock_check_lem}

abbrev actor : Actor
actor = record { user_id = pos 7; now = 100 }

abbrev bolt : Product
bolt = record {
  id = 1;
  store_id = 3;
  quantity = pos 5;
  price = pos 500;
  cost_price = pos 300;
  shelf_number = none;
  name = none;
  is_deleted = false;
}

abbrev nut : Product
nut = record {
  id = 2;
  store_id = 3;
  quantity = pos 9;
  price = pos 500;
  cost_price = pos 300;
  shelf_number = none;
  name = none;
  is_deleted = false;
}

abbrev shelf : Stock
shelf = record { products = bolt ∷ nut ∷ []; movements = [] }

abbrev fine : LineFaults
fine = record { search = false; update = false; insert = false }

abbrev item : Option ℕ → ℤ → BillProduct
item id quantity = record {
  product_id = id;
  name = "";
  part_name = "";
  price = pos 100;
  quantity = quantity;
  discount = pos 0;
}

abbrev sold : List (BillProduct × LineFaults)
sold =
    (item (some 1) (pos 3), fine) ∷ (item none (pos 4), fine) ∷ (item (some 1) (pos 2), fine) ∷ []

abbrev after_sale : Stock
after_sale = record {
  products = record bolt { quantity = pos 0 } ∷ nut ∷ [];
  movements =
      sale_movement actor 3 (pos 12) 1 (pos 2) ∷ sale_movement actor 3 (pos 12) 1 (pos 3) ∷ [];
}

record_sale_movements_test :
    record_sale_movements actor 3 (pos 12) stock_enforcement_enforce sold shelf
    ≡ (ok [], after_sale)
unfolding record_sale_movements sale_line move insert_stock_movement update_product_quantity
    quantity_of neg_ℤ ◌+ℤ◌
record_sale_movements_test = refl

abbrev bought : List (SavedLine × LineFaults)
bought =
    (
      record {
        id = 40;
        product_id = some 2;
        quantity = pos 4;
        store_id = 3;
        sequence_number = pos 8;
      },
      fine,
    )
    ∷ []

abbrev after_reversal : Stock
after_reversal = record {
  products = bolt ∷ record nut { quantity = pos 5 } ∷ [];
  movements =
      record {
        product_id = 2;
        store_id = 3;
        quantity = negsuc 3;
        movement_type = "deletion";
        reference_type = "purchase_bill";
        reference_id = some 6;
        item_id = some 40;
        reason = none;
        note = some (ifritah_go.Stock.Table.Note.purchase_invoice_cancelled (pos 8));
        created_by = pos 7;
        created_at = 100;
      }
      ∷ [];
}

reverse_purchase_movements_test :
    reverse_purchase_movements actor 6 (some "enforce") (some bought) shelf
    ≡ (ok tt, after_reversal)
unfolding reverse_purchase_movements each move deletion_movement insert_stock_movement
    update_product_quantity quantity_of neg_ℤ ◌+ℤ◌
reverse_purchase_movements_test = refl

abbrev no_adjust_faults : AdjustFaults
no_adjust_faults = record {
  product = false;
  begin = false;
  update = false;
  insert = false;
  commit = Commit.committed;
}

abbrev damaged : StockAdjustRequest
damaged = record {
  product_id = 2;
  store_id = 3;
  quantity_change = negsuc 0;
  reason = "damaged";
  note = "";
}

stock_adjust-Answers_example :
    Answers no_adjust_faults "enforce" damaged shelf
      (stock_adjust actor (some "enforce") no_adjust_faults (some damaged) shelf)
unfolding ifritah_go.Stock.Movements.get_stock_enforcement_mode
stock_adjust-Answers_example =
    stock_adjust-Answers actor (some "enforce") no_adjust_faults damaged shelf

-- A sale, then a correction of the same product.
abbrev recount : StockAdjustRequest
recount = record {
  product_id = 1;
  store_id = 3;
  quantity_change = pos 2;
  reason = "count_correction";
  note = "";
}

two_changes :
    History shelf (stock_adjust actor (some "enforce") no_adjust_faults (some recount) after_sale).1
two_changes =
    next
      (next start (sale actor 3 (pos 12) stock_enforcement_enforce sold record_sale_movements_test))
      (adjust actor (some "enforce") no_adjust_faults (some recount) refl)

History-ledger_example :
    HasMoved 1 shelf
      (pos 5)
      (stock_adjust actor (some "enforce") no_adjust_faults (some recount) after_sale).1
unfolding quantity_of
History-ledger_example = History-ledger 1 (pos 5) two_changes refl

stock_check_lem_example :
    let (results, all_sufficient) = stock_check shelf (
      (record { product_id = 1; quantity = pos 6 }, false)
      ∷ (record { product_id = 2; quantity = pos 9 }, false)
      ∷ []) in
    AnswersAll shelf
      ((record { product_id = 1; quantity = pos 6 }, false)
        ∷ (record { product_id = 2; quantity = pos 9 }, false)
        ∷ [])
      results
    × (all_sufficient ≡ all (λ r. r.sufficient) results)
stock_check_lem_example = stock_check_lem shelf (
    (record { product_id = 1; quantity = pos 6 }, false)
    ∷ (record { product_id = 2; quantity = pos 9 }, false)
    ∷ [])

movements_page_test :
    (movements_page (pos 2) (pos 50) ≡ (50, 100)) × (movements_page (negsuc 0) (pos 500) ≡ (50, 0))
unfolding movements_page
movements_page_test = (refl, refl)
