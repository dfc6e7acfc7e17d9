-- ===== src/Sale/Complete.antt =====
-- What a sale writes after its bill row: the lines, the totals, the stock, the event and the payment
-- (pkg/handlers/sale.go and bill_sale.go).
use ifritah_go.Prelude.{
  ℕ, suc, str_eq, Bool, true, false, not, ◌||◌, Option, none, some, List, [], ◌∷◌, ◌++◌,
  if◌then◌else◌, ℤ, pos, to_int32, ltb_ℤ, leb_ℤ, Result, ok, err,
}
use ifritah_go.Stock.Table.{Stock, stock_enforcement_disable}
use ifritah_go.Stock.Movements.{
  LineFaults, StockError, StockWarning, BillProduct, get_stock_enforcement_mode,
  record_sale_movements,
}
use ifritah_go.Outbox.Table.{OutboxRow}
use ifritah_go.Outbox.Append.{Event, AppendError, append}
use ifritah_go.Sale.Table.{
  Bill, BillLine, Payment, Sales, update_bill, bill_total, sum_of_lines, payments_without,
}
use ifritah_go.Sale.Request.{
  AddBillRequest, BillIdentity, line_failed, overpaid, stock_failed, database, event_failed,
  is_final, hundredths, sale_products,
}
use ifritah_go.Sale.Event.{bill_event}
use ifritah_go.Sale.Step.{Failure, refused, Step, pure, refuse, ◌>>=◌, ◌>>◌, statement, of_option}
use ifritah_go.Sale.Write.{Context, SaleFaults, effective_date_or}

abbrev pub bill_line : ℕ → BillProduct → BillLine
bill_line id p = record {
  bill_id = id;
  product_id = p.product_id;
  name = p.name;
  part_name = p.part_name;
  price = p.price;
  quantity = p.quantity;
  discount = p.discount;
}

abbrev pub insert_line : ℕ → BillProduct → Sales → Sales
insert_line id p s = record s { lines = s.lines ++ (bill_line id p ∷ []) }

-- AddProductToBill: the constraints chk_price and chk_quantity refuse what is not positive.
abbrev pub add_line : Bool → ℕ → BillProduct → Step (Unit {0})
add_line failing id p =
    statement (failing || (leb_ℤ p.price (pos 0) || leb_ℤ p.quantity (pos 0))) line_failed
      (insert_line id p)

-- `i` is the position of the first product.
unfoldable pub add_product_to_bill : (ℕ → Bool) → ℕ → ℕ → List BillProduct → Step (Unit {0})
unfolding ◌>>◌
add_product_to_bill f i id [] = pure tt
add_product_to_bill f i id (p ∷ products) =
    add_line (f i) id p >> add_product_to_bill f (suc i) id products

abbrev pub write_total : ℤ → Bill → Bill
write_total total b = record b { total = total }

abbrev pub refresh : ℕ → Sales → Sales
refresh id s = record s { bills = update_bill id (write_total (sum_of_lines id s.lines)) s.bills }

unfoldable pub refresh_bill_totals : Bool → ℕ → Step (Unit {0})
refresh_bill_totals failing id = statement failing database (refresh id)

abbrev pub with_faults : (ℕ → LineFaults) → ℕ → List BillProduct → List (BillProduct × LineFaults)
with_faults f i [] = []
with_faults f i (p ∷ products) = (p, f i) ∷ with_faults f (suc i) products

-- Whether a product was short, from what recordSaleMovements returns.
abbrev pub stock_recorded :
    Sales → Result StockError (List StockWarning) × Stock → Result Failure Bool × Sales
stock_recorded s (err e, stock) = (err (refused (stock_failed e)), record s { stock = stock })
stock_recorded s (ok [], stock) = (ok false, record s { stock = stock })
stock_recorded s (ok (w ∷ warnings), stock) = (ok true, record s { stock = stock })

abbrev pub or_zero : Option ℕ → ℕ
or_zero none = 0
or_zero (some n) = n

unfoldable pub record_sale_stock : Context → SaleFaults → AddBillRequest → Option ℕ → Step Bool
unfolding get_stock_enforcement_mode
record_sale_stock c f request number s =
    let enforcement = get_stock_enforcement_mode c.enforcement in
    if str_eq enforcement stock_enforcement_disable || not (is_final request)
    then (ok false, s)
    else stock_recorded s (
        record_sale_movements (record { user_id = c.user_id; now = c.now }) request.store_id
          (to_int32 (pos (or_zero number))) enforcement (with_faults f.stock 0 request.products)
          s.stock)

abbrev pub appended :
    Sales → Result AppendError (Unit {0}) × List OutboxRow → Result Failure (Unit {0}) × Sales
appended s (err e, outbox) = (err (refused event_failed), record s { outbox = outbox })
appended s (ok u, outbox) = (ok tt, record s { outbox = outbox })

abbrev pub queue_event : Context → SaleFaults → Option Event → Step (Unit {0})
queue_event c f none s = (err (refused event_failed), s)
queue_event c f (some event) s =
    appended s (append c.json_valid f.append c.now c.next_event event s.outbox)

unfoldable pub queue_sale_event :
    Context → SaleFaults → AddBillRequest → ℕ → BillIdentity → Step (Unit {0})
unfolding bill_event
queue_sale_event c f request id ident s =
    if str_eq ident.invoice_uuid ""
    then (ok tt, s)
    else queue_event c f (bill_event c.publisher c.event_bytes id request.branch_id ident) s

abbrev pub complete_event :
    Context → SaleFaults → AddBillRequest → ℕ → BillIdentity → Bool → Step Bool
complete_event c f request id ident warned = queue_sale_event c f request id ident >> pure warned

abbrev pub complete_stock :
    Context → SaleFaults → AddBillRequest → ℕ → Option ℕ → BillIdentity → Step Bool
complete_stock c f request id number ident =
    record_sale_stock c f request number >>= complete_event c f request id ident

-- completeSale: the lines, the totals, the stock and the event.
unfoldable pub complete_sale :
    Context → SaleFaults → AddBillRequest → ℕ → Option ℕ → BillIdentity → Step Bool
unfolding add_product_to_bill refresh_bill_totals record_sale_stock queue_sale_event ◌>>=◌ ◌>>◌
complete_sale c f request id number ident =
    add_product_to_bill f.line 0 id (sale_products request)
    >> (refresh_bill_totals f.totals id >> complete_stock c f request id number ident)

abbrev pub sale_payment : Context → AddBillRequest → ℕ → ℕ → Payment
sale_payment c request id currency = record {
  bill_id = id;
  date = effective_date_or c.now request.effective_date;
  paid_at = effective_date_or c.now request.effective_date;
  amount = hundredths request.paid_amount;
  currency_id = currency;
  payment_method = request.payment_method;
  recorded_by = some c.user_id;
}

abbrev pub drop_payments : ℕ → Sales → Sales
drop_payments id s = record s { payments = payments_without id s.payments }

-- A draft's earlier payment goes.
abbrev pub clear_payments : Bool → ℕ → Option ℕ → Step (Unit {0})
clear_payments failing id none = pure tt
clear_payments failing id (some d) = statement failing database (drop_payments id)

abbrev pub total_of : Bool → ℕ → Step ℤ
total_of failing id s = of_option database (if failing then none else bill_total id s.bills) s

abbrev pub write_payment : Payment → Sales → Sales
write_payment payment s = record s { payments = s.payments ++ (payment ∷ []) }

abbrev pub insert_payment : Context → SaleFaults → AddBillRequest → ℕ → ℕ → Step (Unit {0})
insert_payment c f request id currency =
    statement f.insert_payment database (write_payment (sale_payment c request id currency))

-- recordSalePayment once the total is read.
abbrev pub pay_total : Context → SaleFaults → AddBillRequest → ℕ → ℤ → Step (Unit {0})
pay_total c f request id total =
    if ltb_ℤ total (hundredths request.paid_amount)
    then refuse overpaid
    else of_option database c.currency >>= insert_payment c f request id

abbrev pub pay : Context → SaleFaults → AddBillRequest → ℕ → Step (Unit {0})
pay c f request id = total_of f.total id >>= pay_total c f request id

unfoldable pub record_sale_payment :
    Context → SaleFaults → AddBillRequest → ℕ → Option ℕ → Step (Unit {0})
unfolding ◌>>=◌ ◌>>◌
record_sale_payment c f request id draft =
    clear_payments f.delete_payments id draft
    >> (if ltb_ℤ (pos 0) request.paid_amount.coefficient then pay c f request id else pure tt)
