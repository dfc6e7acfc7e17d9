-- ===== src/Purchase/Request.antt =====
-- The request of a purchase bill, its context and its answers (pkg/handlers/purchase_bill.go and
-- pkg/model/purchase_bill.go).
use ifritah_go.Prelude.{
  ℕ, ◌+◌, ◌*◌, ◌/◌, String, str_eq, Bool, true, false, not, ◌||◌, Option, none, some, List, ◌++◌,
  map, if◌then◌else◌, ℤ, pos, ltb_ℤ, pos_part,
}
use ifritah_go.Stock.Movements.{LineFaults, StockError}
use ifritah_go.Outbox.Drain.{Commit}

-- model.PurchaseBillProduct, with at most two places in a price and three in a quantity: what the
-- columns would round is outside the model.
pub record PurchaseBillProduct : Type 0 where
  pub product_id : Option ℤ
  pub price : ℤ
  pub name : String
  pub cost_price : ℤ
  pub shelf_number : Option String
  pub quantity : ℤ
  pub track_stock : Bool
  pub selling_price : Option ℤ

-- model.AddPurchaseBillRequest, less the fields that no handler reads.
pub record AddPurchaseBillRequest : Type 0 where
  pub store_id : ℕ
  pub state : ℤ
  pub effective_date : Option ℕ
  pub payment_due_date : Option ℕ
  pub discount : ℤ
  pub products : List PurchaseBillProduct
  pub manual_products : List PurchaseBillProduct
  pub supplier_id : ℤ
  pub supplier_sequence_number : ℕ
  pub pdf_link : Option String
  pub payment_method : ℤ
  pub deliver_date : Option ℕ

-- The user, the time, and what the handlers read from other tables: the stores of the user, and the
-- settings of the stock (read once more for a reversal), of the PDF (in lower case and trimmed, "" for
-- none) and of the markup (in hundredths of a percent, `none` where it does not parse). `printed` is
-- how the note of a movement shows a bill's sequence number, and `trim` is strings.TrimSpace.
pub record PurchaseContext : Type 0 where
  pub user_id : ℤ
  pub role : String
  pub now : ℕ
  pub stores : List ℕ
  pub mode : Option String
  pub reversal_mode : Option String
  pub pdf_setting : String
  pub markup : Option ℤ
  pub printed : Option ℕ → ℤ
  pub trim : String → String

-- The statements for one line that fail.
pub record ProductFaults : Type 0 where
  pub get : Bool
  pub update : Bool
  pub add : Bool
  pub insert : Bool

pub record PurchaseFaults : Type 0 where
  pub begin : Bool
  pub pdf_setting : Bool
  pub insert_bill : Bool
  pub edit_bill : Bool
  pub reversal_rows : Bool
  pub reversal : ℕ → LineFaults
  pub delete_lines : Bool
  pub product : ℕ → ProductFaults
  pub totals : Bool
  pub stock_rows : Bool
  pub stock : ℕ → LineFaults
  pub remove_bill : Bool
  pub commit : Commit

pub data PurchaseReply : Type 0 where
  created updated deleted : PurchaseReply  -- 201, 200, 200
  bad_id bad_body no_store_access pdf_required bad_request : PurchaseReply  -- 400
  stock_refused : StockError → PurchaseReply  -- 400
  number_exists : PurchaseReply  -- 409
  pdf_setting_unavailable database : PurchaseReply  -- 500
  stock_failed : StockError → PurchaseReply  -- 500
  exists : Option ℕ → PurchaseReply  -- 200, whether and which bill has the number

-- A manual line is made one without a product.
abbrev pub manual_product : PurchaseBillProduct → PurchaseBillProduct
manual_product p = record p { product_id = none; track_stock = false }

unfoldable pub purchase_bill_products : AddPurchaseBillRequest → List PurchaseBillProduct
purchase_bill_products request = request.products ++ map manual_product request.manual_products

abbrev pub is_blank_link : (String → String) → Option String → Bool
is_blank_link trim none = true
is_blank_link trim (some link) = str_eq (trim link) ""

-- validatePurchaseBillPDFRequirement: the answer of a refusal, if any.
unfoldable pub validate_purchase_bill_pdf_requirement :
    PurchaseContext → PurchaseFaults → AddPurchaseBillRequest → Option PurchaseReply
validate_purchase_bill_pdf_requirement c f request =
    if f.pdf_setting
    then some pdf_setting_unavailable
    else if not (str_eq c.pdf_setting "" || str_eq c.pdf_setting "required")
    then none
    else if not (is_blank_link c.trim request.pdf_link)
    then none
    else some pdf_required

abbrev pub can_override_selling_price : String → Bool
can_override_selling_price role = str_eq role "admin" || str_eq role "manager"

-- getDefaultMarkupPercentage
abbrev pub default_markup_percentage : Option ℤ → ℕ
default_markup_percentage none = 0
default_markup_percentage (some pct) = if ltb_ℤ pct (pos 0) then 0 else pos_part pct

-- The cost with the markup, rounded to the column; a cost that is not positive gives no positive price.
abbrev pub marked_up : ℕ → ℤ → ℤ
marked_up pct cost = pos ((pos_part cost * (10000 + pct) + 5000) / 10000)

abbrev pub selling_price_or : Bool → Option ℤ → ℤ → ℤ
selling_price_or allowed none price = price
selling_price_or allowed (some override) price = if allowed then override else price

-- resolveNewProductSellingPrice
unfoldable pub resolve_new_product_selling_price : PurchaseContext → PurchaseBillProduct → ℤ
resolve_new_product_selling_price c p =
    selling_price_or (can_override_selling_price c.role) p.selling_price
      (marked_up (default_markup_percentage c.markup) p.cost_price)
