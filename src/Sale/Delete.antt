-- ===== src/Sale/Delete.antt =====
-- DeleteBillDetail of pkg/handlers/bill.go.
use ifritah_go.Prelude.{
  suc, false, true, ◌&&◌, ◌==◌, [], ◌∷◌, find_row, ℕ, Bool, not, Option, none, some, List,
  if◌then◌else◌, ℤ, pos, negsuc, eq_ℤ, Result, ok, err,
}
use ifritah_go.Stock.Table.{Stock}
use ifritah_go.Stock.Movements.{LineFaults, StockError, SavedLine, reverse_sale_movements}
use ifritah_go.Outbox.Drain.{Commit, committed, rolled_back, unacknowledged}
use ifritah_go.Sale.Table.{Bill, BillLine, Sales, bill_state, update_bill}
use ifritah_go.Sale.Write.{Context}

pub record DeleteFaults : Type 0 where
  pub begin : Bool
  pub lock : Bool
  pub rows : Bool
  pub delete : Bool
  pub commit : Commit

-- What the reversal reads beside the tables: the id of the line at a position of the table, which the
-- database gives, how a note shows the bill's number, and which statements of a line fail.
pub record LineReads : Type 0 where
  pub line_id : ℕ → ℕ
  pub printed : Option ℕ → ℤ
  pub failing : ℕ → LineFaults

abbrev pub is_catalog_line : BillLine → Bool
is_catalog_line l = elim l.product_id [ none ↦ false | some id ↦ true ]

-- A row of GetProductOfBill.
abbrev pub product_row : LineReads → Bill → ℕ → BillLine → SavedLine
product_row r b i l = record {
  id = r.line_id i;
  product_id = l.product_id;
  quantity = l.quantity;
  store_id = b.store_id;
  sequence_number = r.printed b.sequence_number;
}

-- The lines of a bill that name a product, from position i of the table on.
unfoldable pub product_lines : LineReads → Bill → ℕ → List BillLine → List (SavedLine × LineFaults)
product_lines r b i [] = []
product_lines r b i (l ∷ lines) =
    let rest = product_lines r b (suc i) lines in
    if l.bill_id == b.id && is_catalog_line l
    then (product_row r b i l, r.failing i) ∷ rest
    else rest

abbrev pub lines_of_bill : LineReads → Option Bill → List BillLine → List (SavedLine × LineFaults)
lines_of_bill r none lines = []
lines_of_bill r (some b) lines = product_lines r b 0 lines

-- GetProductOfBill, `none` if it fails.
unfoldable pub get_product_of_bill :
    LineReads → Bool → ℕ → Sales → Option (List (SavedLine × LineFaults))
unfolding product_lines
get_product_of_bill r failing id s =
    if failing then none else some (lines_of_bill r (find_row (λ b. b.id == id) s.bills) s.lines)

pub data DeleteReply : Type 0 where
  deleted : DeleteReply  -- 200
  refused : ℕ → DeleteReply  -- a status

-- SoftDeleteBill
abbrev pub soft_delete : Bill → Bill
soft_delete b = record b { state = negsuc 0 }

abbrev pub without_bill : ℕ → Stock → Sales → Sales
without_bill id stock s = record s { bills = update_bill id soft_delete s.bills; stock = stock }

abbrev pub commit_delete : Commit → Sales → Sales → DeleteReply × Sales
commit_delete committed old new = (deleted, new)
commit_delete rolled_back old new = (refused 500, old)
commit_delete unacknowledged old new = (refused 500, new)

-- The end of the handler, from what reverseSaleMovements returns on.
unfoldable pub delete_reversed :
    DeleteFaults → ℕ → Sales → Result StockError (Unit {0}) × Stock → DeleteReply × Sales
delete_reversed f id s (err e, stock) = (refused 400, s)
delete_reversed f id s (ok u, stock) =
    if f.delete then (refused 400, s) else commit_delete f.commit s (without_bill id stock s)

-- The check that the bill is a draft.
unfoldable pub delete_in_state :
    Context → DeleteFaults → LineReads → ℕ → Sales → Option ℤ → DeleteReply × Sales
unfolding delete_reversed get_product_of_bill
delete_in_state c f r id s none = (refused (if f.lock then 500 else 400), s)
delete_in_state c f r id s (some state) =
    if f.lock
    then (refused 500, s)
    else if not (eq_ℤ state (pos 0))
    then (refused 409, s)
    else delete_reversed f id s (
        reverse_sale_movements (record { user_id = c.user_id; now = c.now }) id c.enforcement
          (get_product_of_bill r f.rows id s) s.stock)

-- `param` is the id of the path, `none` if it does not parse.
unfoldable pub delete_bill_detail :
    Context → DeleteFaults → LineReads → Option ℕ → Sales → DeleteReply × Sales
unfolding delete_in_state
delete_bill_detail c f r none s = (refused 400, s)
delete_bill_detail c f r (some id) s =
    if f.begin then (refused 500, s) else delete_in_state c f r id s (bill_state id s.bills)
