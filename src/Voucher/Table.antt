-- ===== src/Voucher/Table.antt =====
-- The table cash_voucher and the statements that pkg/handlers/cash_vouchar.go and
-- pkg/db/queries/cash_vouchar.sql run on it. An amount is an integer count of its last place, a time a
-- count from the origin of the clock. created_at and updated_at are written by the database alone and
-- left out. The keys that set branch_id or approved_by to NULL when a branch or a user is deleted are
-- left out too: no such request is modelled.
use ifritah_go.Prelude.{
  ℕ, String, Bool, true, false, ◌&&◌, Option, none, some, List, [], ◌∷◌, ltb_ℤ, ◌==◌, if◌then◌else◌,
  ℤ, pos, ◌+ℤ◌, eq_ℤ, to_int32,
}

-- cashVoucherCreateRequest
pub record CashVoucherCreateRequest : Type 0 where
  pub voucher_type : String
  pub effective_date : ℕ
  pub amount : ℤ
  pub payment_method : String
  pub recipient_type : String
  pub recipient_id : Option ℤ
  pub recipient_name : String
  pub reference_type : Option String
  pub reference_id : Option ℤ
  pub description : Option String
  pub note : Option String
  pub bank_name : Option String
  pub bank_account : Option String
  pub transaction_reference : Option String
  pub store_id : ℤ
  pub branch_id : ℕ

pub record Voucher : Type 0 where
  pub id : ℕ
  pub voucher_number : ℤ  -- int
  pub voucher_type : String
  pub effective_date : ℕ
  pub amount : ℤ
  pub payment_method : String
  pub state : ℕ  -- 0 draft, 1 approved, 2 posted
  pub reference_type : Option String
  pub reference_id : Option ℤ
  pub recipient_type : String
  pub recipient_id : Option ℤ
  pub recipient_name : String
  pub description : Option String
  pub note : Option String
  pub bank_name : Option String
  pub bank_account : Option String
  pub transaction_reference : Option String
  pub store_id : ℤ
  pub merchant_id : ℤ
  pub branch_id : Option ℕ
  pub created_by : ℤ
  pub approved_by : Option ℤ
  pub approved_at : Option ℕ

abbrev pub Table : Type 0
Table = List Voucher

-- `WHERE id = ? AND merchant_id = ?`
abbrev pub is_of : ℕ → ℤ → Voucher → Bool
is_of id merchant v = v.id == id && eq_ℤ v.merchant_id merchant

-- `… AND state = ?`
abbrev pub is_in : ℕ → ℤ → ℕ → Voucher → Bool
is_in id merchant state v = is_of id merchant v && v.state == state

-- `SELECT state FROM cash_voucher WHERE id = ? AND merchant_id = ?`, `none` for no row.
unfoldable pub state_of : ℕ → ℤ → Table → Option ℕ
state_of id merchant [] = none
state_of id merchant (v ∷ table) =
    let rest = state_of id merchant table in if is_of id merchant v then some v.state else rest

-- The greater of a number, if it counts, and of the maximum of the rest.
abbrev pub greater : Bool → ℤ → Option ℤ → Option ℤ
greater false n rest = rest
greater true n none = some n
greater true n (some m) = if ltb_ℤ m n then some n else some m

abbrev pub coalesce : Option ℤ → ℤ → ℤ
coalesce none n = n
coalesce (some m) n = m

-- `MAX(voucher_number) … WHERE merchant_id = ?`, `none` for NULL.
unfoldable pub max_number : ℤ → Table → Option ℤ
max_number merchant [] = none
max_number merchant (v ∷ table) =
    greater (eq_ℤ v.merchant_id merchant) v.voucher_number (max_number merchant table)

-- `SELECT COALESCE(MAX(voucher_number), 0) + 1`
unfoldable pub next_number : ℤ → Table → ℤ
unfolding max_number
next_number merchant table = coalesce (max_number merchant table) (pos 0) +ℤ pos 1

abbrev pub update_where : (Voucher → Bool) → (Voucher → Voucher) → Table → Table
update_where test change [] = []
update_where test change (v ∷ table) =
    (if test v then change v else v) ∷ update_where test change table

abbrev pub delete_where : (Voucher → Bool) → Table → Table
delete_where test [] = []
delete_where test (v ∷ table) =
    let rest = delete_where test table in if test v then rest else v ∷ rest

-- CreateCashVoucher: the new row is a draft.
unfoldable pub new_voucher : ℕ → ℤ → ℤ → CashVoucherCreateRequest → Voucher
new_voucher id number merchant req = record {
  id = id;
  voucher_number = to_int32 number;
  voucher_type = req.voucher_type;
  effective_date = req.effective_date;
  amount = req.amount;
  payment_method = req.payment_method;
  state = 0;
  reference_type = req.reference_type;
  reference_id = req.reference_id;
  recipient_type = req.recipient_type;
  recipient_id = req.recipient_id;
  recipient_name = req.recipient_name;
  description = req.description;
  note = req.note;
  bank_name = req.bank_name;
  bank_account = req.bank_account;
  transaction_reference = req.transaction_reference;
  store_id = req.store_id;
  merchant_id = merchant;
  branch_id = some req.branch_id;
  created_by = merchant;
  approved_by = none;
  approved_at = none;
}

-- The SET of UpdateCashVoucher, which leaves the branch alone.
unfoldable pub edit_voucher : CashVoucherCreateRequest → Voucher → Voucher
edit_voucher req v = record v {
  voucher_type = req.voucher_type;
  effective_date = req.effective_date;
  amount = req.amount;
  payment_method = req.payment_method;
  reference_type = req.reference_type;
  reference_id = req.reference_id;
  recipient_type = req.recipient_type;
  recipient_id = req.recipient_id;
  recipient_name = req.recipient_name;
  description = req.description;
  note = req.note;
  bank_name = req.bank_name;
  bank_account = req.bank_account;
  transaction_reference = req.transaction_reference;
  store_id = req.store_id;
}

-- The SET of ApproveCashVoucher.
unfoldable pub approve_voucher : ℤ → ℕ → Voucher → Voucher
approve_voucher user now v = record v { state = 1; approved_by = some user; approved_at = some now }

-- The SET of PostCashVoucher.
unfoldable pub post_voucher : Voucher → Voucher
post_voucher v = record v { state = 2 }
