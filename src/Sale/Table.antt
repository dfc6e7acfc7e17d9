-- ===== src/Sale/Table.antt =====
-- The tables that a sale writes, with the statements of pkg/db/queries/bill.sql, payment.sql and
-- sequence.sql: bills, their lines and payments, the number series of the branches, and the tables of
-- the stock and of the outbox. Money is an integer count of hundredths (DECIMAL(12,2)), a quantity one
-- of thousandths (DECIMAL(10,3)), and a time a natural number.
use ifritah_go.Prelude.{
  ℕ, ◌+◌, ◌*◌, ◌/◌, String, str_eq, Bool, false, not, ◌&&◌, ◌||◌, Option, none, some, List, [], ◌∷◌,
  ◌==◌, if◌then◌else◌, ℤ, pos, ◌+ℤ◌, neg_ℤ, abs_ℤ, ltb_ℤ, pos_part,
}
use ifritah_go.Stock.Table.{Stock}
use ifritah_go.Outbox.Table.{Table as Outbox}

pub record Bill : Type 0 where
  pub id : ℕ
  pub effective_date : ℕ
  pub payment_due_date : Option ℕ
  pub state : ℤ
  pub discount : ℤ
  pub store_id : ℕ
  pub sequence_number : Option ℕ
  pub merchant_id : ℤ
  pub maintenance_cost : ℤ
  pub note : Option String
  pub username : Option String
  pub client_id : Option ℤ
  pub user_phone_number : Option String
  pub payment_method : ℤ
  pub branch_id : Option ℕ
  pub deliver_date : Option ℕ
  pub pos_id : Option String
  pub bill_request_id : Option String
  pub invoice_uuid : Option String
  pub request_fingerprint : Option String
  pub request_fingerprint_version : ℕ
  pub amount_paid : ℤ
  pub total : ℤ

-- A row of bill_product.
pub record BillLine : Type 0 where
  pub bill_id : ℕ
  pub product_id : Option ℕ
  pub name : String
  pub part_name : String
  pub price : ℤ
  pub quantity : ℤ
  pub discount : ℤ

-- A row of bill_payment.
pub record Payment : Type 0 where
  pub bill_id : ℕ
  pub date : ℕ
  pub paid_at : ℕ
  pub amount : ℤ
  pub currency_id : ℕ
  pub payment_method : ℤ
  pub recorded_by : Option ℤ

-- `sequences` is branch_sequence in the scope of bills: a branch and its last value.
pub record Sales : Type 0 where
  pub bills : List Bill
  pub lines : List BillLine
  pub payments : List Payment
  pub sequences : List (ℕ × ℕ)
  pub stock : Stock
  pub outbox : Outbox

-- The row of CreateBill: a draft without number and identity.
unfoldable pub new_bill : ℕ → ℕ → ℕ → ℤ → Bill
new_bill id now store_id merchant = record {
  id = id;
  effective_date = now;
  payment_due_date = none;
  state = pos 0;
  discount = pos 0;
  store_id = store_id;
  sequence_number = none;
  merchant_id = merchant;
  maintenance_cost = pos 0;
  note = none;
  username = none;
  client_id = none;
  user_phone_number = none;
  payment_method = pos 0;
  branch_id = none;
  deliver_date = none;
  pos_id = none;
  bill_request_id = none;
  invoice_uuid = none;
  request_fingerprint = none;
  request_fingerprint_version = 1;
  amount_paid = pos 0;
  total = pos 0;
}

-- Equality of two values that may be NULL, which equals nothing.
abbrev pub both_eq : Option String → Option String → Bool
both_eq none y = false
both_eq (some x) none = false
both_eq (some x) (some y) = str_eq x y

abbrev pub both_== : Option ℕ → Option ℕ → Bool
both_== none y = false
both_== (some x) none = false
both_== (some x) (some y) = x == y

-- `pos_id = ? AND bill_request_id = ?`
abbrev pub bears : Option String → Option String → Bill → Bool
bears till request b = both_eq b.pos_id till && both_eq b.bill_request_id request

-- GetBillByRequestIdentity
unfoldable pub find_request : Option String → Option String → List Bill → Option Bill
find_request till request [] = none
find_request till request (b ∷ bills) =
    let rest = find_request till request bills in if bears till request b then some b else rest

-- GetBillStateForUpdate
unfoldable pub bill_state : ℕ → List Bill → Option ℤ
bill_state id [] = none
bill_state id (b ∷ bills) =
    let rest = bill_state id bills in if b.id == id then some b.state else rest

-- Whether another bill has the value that a unique key wants to give to the bill `id`.
unfoldable pub request_taken : ℕ → Option String → Option String → List Bill → Bool
request_taken id till request [] = false
request_taken id till request (b ∷ bills) =
    (not (b.id == id) && bears till request b) || request_taken id till request bills

unfoldable pub number_taken : ℕ → Option ℕ → Option ℕ → List Bill → Bool
number_taken id branch number [] = false
number_taken id branch number (b ∷ bills) =
    (not (b.id == id) && (both_== b.branch_id branch && both_== b.sequence_number number))
    || number_taken id branch number bills

unfoldable pub update_bill : ℕ → (Bill → Bill) → List Bill → List Bill
update_bill id change [] = []
update_bill id change (b ∷ bills) =
    (if b.id == id then change b else b) ∷ update_bill id change bills

-- GetBillTotal
unfoldable pub bill_total : ℕ → List Bill → Option ℤ
bill_total id [] = none
bill_total id (b ∷ bills) =
    let rest = bill_total id bills in if b.id == id then some b.total else rest

-- AllocateBranchSequence: 1 for a branch without a row, or one more than the last value.
unfoldable pub last_value : ℕ → List (ℕ × ℕ) → ℕ
last_value branch [] = 0
last_value branch ((b, n) ∷ rows) =
    let rest = last_value branch rows in if b == branch then n else rest

unfoldable pub advance : ℕ → List (ℕ × ℕ) → List (ℕ × ℕ)
advance branch [] = (branch, 1) ∷ []
advance branch ((b, n) ∷ rows) =
    let rest = advance branch rows in if b == branch then (b, n + 1) ∷ rows else (b, n) ∷ rest

-- The generated columns of bill_product: rounded to hundredths, halves away from zero, at the default
-- vat of 15. A row has a positive price and quantity.
abbrev pub total_before_vat : BillLine → ℤ
total_before_vat l = pos ((pos_part l.price * pos_part l.quantity + 500) / 1000) +ℤ neg_ℤ l.discount

abbrev pub round_vat : ℤ → ℤ
round_vat amount =
    let vat = pos ((pos_part (abs_ℤ amount) * 15 + 50) / 100) in
    if ltb_ℤ amount (pos 0) then neg_ℤ vat else vat

abbrev pub total_including_vat : BillLine → ℤ
total_including_vat l = total_before_vat l +ℤ round_vat (total_before_vat l)

unfoldable pub sum_of_lines : ℕ → List BillLine → ℤ
sum_of_lines id [] = pos 0
sum_of_lines id (l ∷ lines) =
    (if l.bill_id == id then total_including_vat l else pos 0) +ℤ sum_of_lines id lines

unfoldable pub lines_without : ℕ → List BillLine → List BillLine
lines_without id [] = []
lines_without id (l ∷ lines) =
    let rest = lines_without id lines in if l.bill_id == id then rest else l ∷ rest

unfoldable pub payments_without : ℕ → List Payment → List Payment
payments_without id [] = []
payments_without id (p ∷ payments) =
    let rest = payments_without id payments in if p.bill_id == id then rest else p ∷ rest
