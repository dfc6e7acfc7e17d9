-- ===== src/Sale/Tests.antt =====
-- Runs of the sales of pkg/handlers/sale.go and bill_sale.go: a final sale, and the same sale again.
use mathlib.Core.Path.{subst}
use ifritah_go.Prelude.{
  String, str_eq, true, false, Option, none, some, [], ◌∷◌, ◌≡◌, refl, arith, pos, ok, neg_ℤ,
  to_int32, ◌+ℤ◌, string_of,
}
use ifritah_go.Identity.Uuid.{
  validate_bill_request_id, hex_run, format_uuid, hex_bytes, variant_byte, version_byte,
}
use ifritah_go.Stock.Table.{Product, quantity_of, insert_stock_movement, update_product_quantity}
use ifritah_go.Stock.Movements.{
  each, reverse_sale_movements, LineFaults, BillProduct, record_sale_movements, sale_line, move,
}
use ifritah_go.Outbox.Drain.{committed}
use ifritah_go.Sale.Table.{
  Bill, Sales, find_request, bill_state, last_value, number_taken, new_bill, request_taken, advance,
  bill_total, sum_of_lines, update_bill,
}
use ifritah_go.Sale.Request.{AddBillRequest, BillIdentity, sale_products}
use ifritah_go.Sale.Event.{ZatcaPublisher}
use ifritah_go.Sale.Write.{
  Context, SaleFaults, open_sale_bill, number_sale, update_sale_bill, allocate_bill_number,
  sale_bill,
}
use ifritah_go.Sale.Complete.{complete_sale, record_sale_payment, record_sale_stock}
use ifritah_go.Sale.Handler.{recorded, written, check_sale, save_sale, finish_sale}
use ifritah_go.Sale.Identified.{OnOk}
use ifritah_go.Sale.Answers.{IsOriginal}
use ifritah_go.Sale.Replay.{save_sale-recorded}
use ifritah_go.Sale.Retry.{IsUntouched, save_sale-IsUntouched, save_sale-retry}
use ifritah_go.Identity.Keys.{validate_pos_id, document_key}
use ifritah_go.Identity.Decimal.{format_uint}
use ifritah_go.Outbox.Append.{append}
use ifritah_go.Sale.Step.{◌>>=◌, ◌>>◌}
use ifritah_go.Sale.Delete.{DeleteFaults, LineReads, delete_bill_detail}
use ifritah_go.Sale.Deleted.{IsTold, delete_bill_detail-IsTold}

abbrev bolt : Product
bolt = record {
  id = 1;
  store_id = 3;
  quantity = pos 5000;
  price = pos 500;
  cost_price = pos 300;
  shelf_number = none;
  name = none;
  is_deleted = false;
}

abbrev empty : Sales
empty = record {
  bills = [];
  lines = [];
  payments = [];
  sequences = [];
  stock = record { products = bolt ∷ []; movements = [] };
  outbox = [];
}

abbrev no_line_faults : LineFaults
no_line_faults = record { search = false; update = false; insert = false }

abbrev no_faults : SaleFaults
no_faults = record {
  store_branch = false;
  begin = false;
  lookup = false;
  reread = false;
  create = false;
  allocate = false;
  update = false;
  delete_lines = false;
  line = λ i. false;
  totals = false;
  stock = λ i. no_line_faults;
  append = false;
  delete_payments = false;
  total = false;
  insert_payment = false;
  commit = committed;
}

abbrev publisher : ZatcaPublisher
publisher = record { db_name = "tenant"; tenant_key = "acme"; marshal = λ m. some "{}" }

abbrev fingerprint : AddBillRequest → Option String
fingerprint request = some "9f2c"

abbrev context : Context
context = record {
  user_id = pos 7;
  store_ids = 3 ∷ [];
  store_branch = λ store. some 12;
  now = 100;
  enforcement = some "enforce";
  currency = some 1;
  publisher = publisher;
  json_valid = λ payload. true;
  fingerprint = fingerprint;
  invoice_bytes = some (λ i. 255);
  event_bytes = some (λ i. 17);
  next_bill = 40;
  next_event = 90;
  view = [];
}

abbrev item : BillProduct
item = record {
  product_id = some 1;
  name = "bolt";
  part_name = "";
  price = pos 10000;
  quantity = pos 1000;
  discount = pos 0;
}

abbrev sale : AddBillRequest
sale = record {
  store_id = 3;
  state = pos 1;
  effective_date = none;
  payment_due_date = none;
  discount = pos 0;
  paid_amount = record { coefficient = pos 115; places = 0 };
  maintenance_cost = pos 0;
  user_name = none;
  user_phone_number = none;
  note = none;
  products = item ∷ [];
  manual_products = [];
  client_id = none;
  payment_method = pos 10;
  branch_id = 12;
  deliver_date = none;
  pos_id = "till-1";
  bill_request_id = "0b1e7c2a-0000-4000-8000-00000000000a";
}

abbrev after_sale : Sales
after_sale = (save_sale context no_faults sale none empty).1

save_sale_test : save_sale context no_faults sale none empty ≡ (ok (written 40 false), after_sale)
unfolding save_sale validate_pos_id validate_bill_request_id hex_run find_request open_sale_bill
    number_sale last_value update_sale_bill number_taken new_bill request_taken finish_sale
    complete_sale sale_products record_sale_movements sale_line quantity_of format_uint document_key
    format_uuid hex_bytes variant_byte version_byte append neg_ℤ to_int32 ◌+ℤ◌ string_of advance
    bill_total sum_of_lines update_bill allocate_bill_number record_sale_payment record_sale_stock
    sale_bill move insert_stock_movement update_product_quantity ◌>>=◌ ◌>>◌
save_sale_test = refl

abbrev ident : BillIdentity
ident = record {
  pos_id = "till-1";
  bill_request_id = "0b1e7c2a-0000-4000-8000-00000000000a";
  invoice_uuid = "ffffffff-ffff-4fff-bfff-ffffffffffff";
  fingerprint = "9f2c";
}

printed :
    (r : AddBillRequest) (print : String) → fingerprint r ≡ some print → str_eq print "" ≡ false
printed r print h =
    let same : "9f2c" ≡ print = ground arith in subst (λ p. str_eq p "" ≡ false) same refl

-- The second request comes later, when the table has the first bill.
abbrev later : Context
later = record context { next_bill = 41; view = after_sale.bills }

later_passes : check_sale later no_faults sale ≡ ok ident
unfolding check_sale validate_pos_id validate_bill_request_id hex_run format_uuid hex_bytes
    variant_byte version_byte string_of
later_passes = refl

save_sale-retry_example :
    save_sale later no_faults sale none after_sale ≡ (ok (recorded 40), after_sale)
save_sale-retry_example =
    save_sale-retry context later no_faults no_faults sale none empty {id = 40} {warned = false}
      {t = after_sale} {ident = ident} refl printed refl save_sale_test refl refl refl later_passes

abbrev failing : SaleFaults
failing = record no_faults { totals = true }

save_sale-IsUntouched_example :
    IsUntouched failing empty (save_sale context failing sale none empty)
save_sale-IsUntouched_example = save_sale-IsUntouched context failing sale none empty

abbrev recorded_bill : Bill
recorded_bill = record (new_bill 40 100 3 (pos 7)) {
  state = pos 1;
  sequence_number = some 1;
  branch_id = some 12;
  pos_id = some "till-1";
  bill_request_id = some "0b1e7c2a-0000-4000-8000-00000000000a";
  request_fingerprint = some "9f2c";
}

abbrev recorded_sales : Sales
recorded_sales = record empty { bills = recorded_bill ∷ []; sequences = (12, 1) ∷ [] }

-- The reads of the second request see no bill, as in a race.
abbrev racing : Context
racing = record context { next_bill = 41 }

recorded_stands :
    find_request (some sale.pos_id) (some sale.bill_request_id) recorded_sales.bills
    ≡ some recorded_bill
unfolding find_request new_bill
recorded_stands = refl

racing_sees_none :
    (o : Bill)
    → find_request (some sale.pos_id) (some sale.bill_request_id) racing.view ≡ some o
    → o ≡ recorded_bill
unfolding find_request
racing_sees_none o h = cc

racing_fresh : bill_state racing.next_bill recorded_sales.bills ≡ none
unfolding bill_state new_bill
racing_fresh = refl

save_sale-recorded_example :
    ((save_sale racing no_faults sale none recorded_sales).1 ≡ recorded_sales)
    × OnOk
        (IsOriginal racing sale recorded_bill)
        (save_sale racing no_faults sale none recorded_sales).0
save_sale-recorded_example =
    save_sale-recorded racing no_faults sale recorded_sales recorded_bill refl recorded_stands
      racing_sees_none racing_fresh

abbrev no_delete_faults : DeleteFaults
no_delete_faults = record {
  begin = false;
  lock = false;
  rows = false;
  delete = false;
  commit = committed;
}

abbrev reads : LineReads
reads = record { line_id = λ i. i; printed = λ n. pos 0; failing = λ i. no_line_faults }

-- A draft with one line, which has taken nothing from stock.
abbrev draft_sales : Sales
draft_sales = record empty {
  bills = new_bill 40 100 3 (pos 7) ∷ [];
  lines =
      record {
        bill_id = 40;
        product_id = some 1;
        name = "bolt";
        part_name = "";
        price = pos 500;
        quantity = pos 1000;
        discount = pos 0;
      }
      ∷ [];
}

delete_bill_detail-IsTold_example :
    IsTold context no_delete_faults 40 draft_sales
      (delete_bill_detail context no_delete_faults reads (some 40) draft_sales)
delete_bill_detail-IsTold_example =
    delete_bill_detail-IsTold context no_delete_faults reads 40 draft_sales

-- The deletion of a draft puts its lines into stock, though the draft took none out.
delete_draft_test :
    (delete_bill_detail context no_delete_faults reads (some 40) draft_sales).1.stock.products
    ≡ record bolt { quantity = pos 6000 } ∷ []
unfolding quantity_of delete_bill_detail bill_state new_bill reverse_sale_movements each move
    insert_stock_movement update_product_quantity ◌+ℤ◌
delete_draft_test = refl
