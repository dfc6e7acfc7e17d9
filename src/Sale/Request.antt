-- ===== src/Sale/Request.antt =====
-- The request of a sale, and what is checked and derived from it before the transaction
-- (pkg/handlers/sale.go and bill_sale.go). The fingerprint of a request (SHA-256 of its JSON) and the
-- random bytes of a UUID are arguments, `none` if they fail.
use mathlib.Core.Option.{map as map_option}
use ifritah_go.Prelude.{
  ℕ, suc, ◌+◌, ◌*◌, ◌/◌, ◌%◌, ◌^◌, String, codes, string_of, Bool, not, ◌&&◌, Option, none, some,
  List, [], ◌∷◌, ◌++◌, map, ◌==◌, if◌then◌else◌, ℤ, pos, ltb_ℤ, leb_ℤ, pos_part, length, Result, ok,
  err,
}
use ifritah_go.Identity.Keys.{validate_pos_id}
use ifritah_go.Identity.Uuid.{validate_bill_request_id, Bytes16, new_uuid}
use ifritah_go.Stock.Movements.{StockError, BillProduct}

-- A decimal.Decimal: coefficient / 10^places.
pub record Decimal : Type 0 where
  pub coefficient : ℤ
  pub places : ℕ

-- model.AddBillRequest. Amounts other than paid_amount are in the units of their columns.
pub record AddBillRequest : Type 0 where
  pub store_id : ℕ
  pub state : ℤ
  pub effective_date : Option ℕ
  pub payment_due_date : Option ℕ
  pub discount : ℤ
  pub paid_amount : Decimal
  pub maintenance_cost : ℤ
  pub user_name : Option String
  pub user_phone_number : Option String
  pub note : Option String
  pub products : List BillProduct
  pub manual_products : List BillProduct
  pub client_id : Option ℤ
  pub payment_method : ℤ
  pub branch_id : ℕ
  pub deliver_date : Option ℕ
  pub pos_id : String
  pub bill_request_id : String

-- billIdentity
pub record BillIdentity : Type 0 where
  pub pos_id : String
  pub bill_request_id : String
  pub invoice_uuid : String
  pub fingerprint : String

-- The answers of a sale that is not saved.
pub data Refusal : Type 0 where
  bad_id bad_body : Refusal  -- 400
  bad_pos_id bad_request_id no_uuid no_fingerprint : Refusal  -- 400
  negative_paid paid_places : Refusal  -- 400
  no_lines : Refusal  -- 400
  quantity_not_positive negative_price : ℕ → Refusal  -- 400
  no_store_access wrong_branch : Refusal  -- 400
  line_failed overpaid : Refusal  -- 400
  stock_failed : StockError → Refusal  -- 400
  not_found : Refusal  -- 404
  already_final request_conflict duplicate_sale : Refusal  -- 409
  database event_failed : Refusal  -- 500

abbrev pub is_final : AddBillRequest → Bool
is_final request = ltb_ℤ (pos 0) request.state

abbrev pub no_identity : BillIdentity
no_identity = record { pos_id = ""; bill_request_id = ""; invoice_uuid = ""; fingerprint = "" }

-- saleFingerprint: the request without its point-of-sale identity.
abbrev pub sale_fingerprint : (AddBillRequest → Option String) → AddBillRequest → Option String
sale_fingerprint fingerprint request =
    fingerprint (record request { pos_id = ""; bill_request_id = "" })

abbrev pub identified : AddBillRequest → Option String → Option String → Result Refusal BillIdentity
identified request none print = err no_uuid
identified request (some uuid) none = err no_fingerprint
identified request (some uuid) (some print) = ok (record {
  pos_id = request.pos_id;
  bill_request_id = request.bill_request_id;
  invoice_uuid = uuid;
  fingerprint = print;
})

unfoldable pub final_sale_identity :
    (AddBillRequest → Option String) → Option Bytes16 → AddBillRequest → Result Refusal BillIdentity
final_sale_identity fingerprint bytes request =
    if not (is_final request)
    then ok no_identity
    else if not (validate_pos_id (codes request.pos_id))
    then err bad_pos_id
    else if not (validate_bill_request_id (codes request.bill_request_id))
    then err bad_request_id
    else identified request (map_option string_of (new_uuid bytes))
        (sale_fingerprint fingerprint request)

-- paid.Round(2).Equal(paid), of a paid amount that is not negative.
abbrev pub is_in_hundredths : Decimal → Bool
is_in_hundredths d = pos_part d.coefficient * 100 % 10 ^ d.places == 0

-- A decimal that is_in_hundredths, as a count of hundredths.
abbrev pub hundredths : Decimal → ℤ
hundredths d = pos (pos_part d.coefficient * 100 / 10 ^ d.places)

unfoldable pub paid_amount_error : Decimal → Result Refusal (Unit {0})
paid_amount_error paid =
    if ltb_ℤ paid.coefficient (pos 0)
    then err negative_paid
    else if not (is_in_hundredths paid)
    then err paid_places
    else ok tt

-- The loop of verifyFinalSale; `i` is the index of the first line.
unfoldable pub verify_lines : ℕ → List BillProduct → Result Refusal (Unit {0})
verify_lines i [] = ok tt
verify_lines i (line ∷ lines) =
    let rest = verify_lines (suc i) lines in
    if leb_ℤ line.quantity (pos 0)
    then err (quantity_not_positive (i + 1))
    else if ltb_ℤ line.price (pos 0)
    then err (negative_price (i + 1))
    else rest

unfoldable pub verify_final_sale : AddBillRequest → Result Refusal (Unit {0})
unfolding verify_lines
verify_final_sale request =
    if not (is_final request)
    then ok tt
    else if (length request.products + length request.manual_products == 0)
        && leb_ℤ request.maintenance_cost (pos 0)
    then err no_lines
    else verify_lines 0 (request.products ++ request.manual_products)

abbrev pub without_product : BillProduct → BillProduct
without_product p = record p { product_id = none }

abbrev pub maintenance_line : ℤ → BillProduct
maintenance_line cost = record {
  product_id = none;
  name = "maintenance_cost";
  part_name = "";
  price = cost;
  quantity = pos 1000;
  discount = pos 0;
}

unfoldable pub sale_products : AddBillRequest → List BillProduct
sale_products request =
    let products = request.products ++ map without_product request.manual_products in
    if ltb_ℤ (pos 0) request.maintenance_cost
    then products ++ (maintenance_line request.maintenance_cost ∷ [])
    else products
