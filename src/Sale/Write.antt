-- ===== src/Sale/Write.antt =====
-- The bill row of a sale: what a sale reads, and how its bill is opened, numbered and written (pkg/handlers/sale.go and bill_sale.go).
use ifritah_go.Prelude.{
  ℕ, ◌+◌, ◌^◌, String, str_eq, Bool, false, ◌||◌, Option, none, some, List, ◌∷◌, leb, if◌then◌else◌,
  ℤ, pos, ltb_ℤ, ok, err,
}
use ifritah_go.Identity.Uuid.{Bytes16}
use ifritah_go.Stock.Movements.{LineFaults}
use ifritah_go.Outbox.Drain.{Commit}
use ifritah_go.Sale.Table.{
  Bill, new_bill, bill_state, request_taken, number_taken, update_bill, last_value, advance,
}
use ifritah_go.Sale.Request.{
  AddBillRequest, BillIdentity, not_found, database, is_final, hundredths,
}
use ifritah_go.Sale.Event.{ZatcaPublisher}
use ifritah_go.Sale.Step.{refused, lost_race, Step, pure, refuse, ◌>>=◌}

-- What a sale reads besides the tables that it writes. `view` is the bills that the transaction's
-- consistent reads see: they may be older than the table. The next ids are those of AUTO_INCREMENT.
pub record Context : Type 0 where
  pub user_id : ℤ
  pub store_ids : List ℕ
  pub store_branch : ℕ → Option ℕ
  pub now : ℕ
  pub enforcement : Option String
  pub currency : Option ℕ
  pub publisher : ZatcaPublisher
  pub json_valid : String → Bool
  pub fingerprint : AddBillRequest → Option String
  pub invoice_bytes : Option Bytes16
  pub event_bytes : Option Bytes16
  pub next_bill : ℕ
  pub next_event : ℕ
  pub view : List Bill

-- Which statements fail; `line` and `stock` by the position of the line.
pub record SaleFaults : Type 0 where
  pub store_branch : Bool
  pub begin : Bool
  pub lookup : Bool
  pub reread : Bool
  pub create : Bool
  pub allocate : Bool
  pub update : Bool
  pub delete_lines : Bool
  pub line : ℕ → Bool
  pub totals : Bool
  pub stock : ℕ → LineFaults
  pub append : Bool
  pub delete_payments : Bool
  pub total : Bool
  pub insert_payment : Bool
  pub commit : Commit

abbrev pub effective_date_or : ℕ → Option ℕ → ℕ
effective_date_or now none = now
effective_date_or now (some date) = date

abbrev pub nil_if_empty : String → Option String
nil_if_empty s = if str_eq s "" then none else some s

-- The case of a draft in openSaleBill: its id, and whether it is already final.
abbrev pub open_draft : Bool → ℕ → Option ℤ → Step (ℕ × Bool)
open_draft failing id none = refuse (if failing then database else not_found)
open_draft failing id (some state) =
    if failing then refuse database else pure (id, ltb_ℤ (pos 0) state)

unfoldable pub open_sale_bill : Context → SaleFaults → AddBillRequest → Option ℕ → Step (ℕ × Bool)
open_sale_bill c f request none s = if f.create then (err (refused database), s) else (
  ok (c.next_bill, false),
  record s { bills = new_bill c.next_bill c.now request.store_id c.user_id ∷ s.bills },
)
open_sale_bill c f request (some id) s = open_draft f.create id (bill_state id s.bills) s

-- The driver reads the number as an int64, so from 2^63 on it is below 1.
unfoldable pub allocate_bill_number : SaleFaults → ℕ → Step ℕ
allocate_bill_number f branch s =
    if f.allocate
    then (err (refused database), s)
    else if leb (2 ^ 63) (last_value branch s.sequences + 1)
    then (err (refused database), record s { sequences = advance branch s.sequences })
    else (
      ok (last_value branch s.sequences + 1),
      record s { sequences = advance branch s.sequences },
    )

unfoldable pub number_sale : SaleFaults → AddBillRequest → Step (Option ℕ)
unfolding allocate_bill_number ◌>>=◌
number_sale f request =
    if is_final request
    then allocate_bill_number f request.branch_id >>= (λ n. pure (some n))
    else pure none

-- The SET of UpdateBillByID.
unfoldable pub sale_bill : Context → AddBillRequest → Option ℕ → BillIdentity → Bill → Bill
sale_bill c request sequence ident b = record b {
  effective_date = effective_date_or c.now request.effective_date;
  payment_due_date = request.payment_due_date;
  state = request.state;
  discount = request.discount;
  store_id = request.store_id;
  sequence_number = sequence;
  merchant_id = c.user_id;
  maintenance_cost = request.maintenance_cost;
  note = request.note;
  username = request.user_name;
  client_id = request.client_id;
  user_phone_number = request.user_phone_number;
  payment_method = request.payment_method;
  branch_id = some request.branch_id;
  deliver_date = request.deliver_date;
  pos_id = nil_if_empty ident.pos_id;
  bill_request_id = nil_if_empty ident.bill_request_id;
  invoice_uuid = nil_if_empty ident.invoice_uuid;
  request_fingerprint = nil_if_empty ident.fingerprint;
  request_fingerprint_version = 1;
  amount_paid = hundredths request.paid_amount;
}

-- The unique keys are checked in their order: uq_bill_branch_seq, then uq_bill_pos_request.
unfoldable pub update_sale_bill :
    Context → SaleFaults → AddBillRequest → ℕ → Option ℕ → BillIdentity → Step (Unit {0})
update_sale_bill c f request id sequence ident s =
    if f.update || number_taken id (some request.branch_id) sequence s.bills
    then (err (refused database), s)
    else if request_taken id (nil_if_empty ident.pos_id) (nil_if_empty ident.bill_request_id)
        s.bills
    then (err lost_race, s)
    else (ok tt, record s { bills = update_bill id (sale_bill c request sequence ident) s.bills })
