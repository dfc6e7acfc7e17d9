-- ===== src/Supplier/Ledger.antt =====
-- The supplier ledger (pkg/handlers/supplier_ledger.go): bills and payments grouped by supplier, sorted by
-- date, with running balances. An amount is a natural number of hundredths and exact, where the code has
-- float64; a date is a count of days. The texts of a reference and of a link are those of their numbers
-- and left out, as are the query parameters.
use ifritah_go.Prelude.{
  ℕ, ◌+◌, String, Bool, true, false, Option, none, some, List, [], ◌∷◌, ◌++◌, if◌then◌else◌, ℤ, pos,
  ◌+ℤ◌, neg_ℤ, eq_ℤ, leb, length,
}

-- GetLedgerBillsForMerchantRow
pub record LedgerBill : Type 0 where
  pub id : ℕ
  pub supplier_id : ℤ
  pub supplier_name : Option String
  pub supplier_sequence_number : Option ℕ
  pub effective_date : ℕ
  pub total : ℕ

-- GetLedgerPaymentsForMerchantRow
pub record LedgerPayment : Type 0 where
  pub id : ℕ
  pub supplier_id : Option ℤ
  pub supplier_name : String
  pub voucher_number : ℤ
  pub effective_date : ℕ
  pub amount : ℕ

-- supplierLedgerEntry
pub record LedgerEntry : Type 0 where
  pub date : ℕ
  pub is_payment : Bool
  pub system_id : ℕ
  pub supplier_id : ℤ
  pub supplier_no : Option ℕ
  pub description : String
  pub debit : ℕ
  pub credit : ℕ
  pub balance : ℤ

-- The map from suppliers to entries.
abbrev pub Groups : Type 0
Groups = List (ℤ × List LedgerEntry)

abbrev pub name_or_empty : Option String → String
name_or_empty none = ""
name_or_empty (some name) = name

unfoldable pub bill_entry : LedgerBill → LedgerEntry
bill_entry b = record {
  date = b.effective_date;
  is_payment = false;
  system_id = b.id;
  supplier_id = b.supplier_id;
  supplier_no = b.supplier_sequence_number;
  description = name_or_empty b.supplier_name;
  debit = b.total;
  credit = 0;
  balance = pos 0;
}

unfoldable pub payment_entry : ℤ → LedgerPayment → LedgerEntry
payment_entry supplier p = record {
  date = p.effective_date;
  is_payment = true;
  system_id = p.id;
  supplier_id = supplier;
  supplier_no = none;
  description = p.supplier_name;
  debit = 0;
  credit = p.amount;
  balance = pos 0;
}

-- `bySupplier[id] = append(bySupplier[id], entry)`
unfoldable pub add_entry : ℤ → LedgerEntry → Groups → Groups
add_entry id entry [] = (id, entry ∷ []) ∷ []
add_entry id entry ((k, entries) ∷ groups) =
    let rest = add_entry id entry groups in
    if eq_ℤ k id then (k, entries ++ (entry ∷ [])) ∷ groups else (k, entries) ∷ rest

unfoldable pub add_bills : List LedgerBill → Groups → Groups
unfolding add_entry bill_entry
add_bills [] groups = groups
add_bills (b ∷ bills) groups = add_bills bills (add_entry b.supplier_id (bill_entry b) groups)

abbrev pub add_payment : LedgerPayment → Option ℤ → Groups → Groups
add_payment p none groups = groups
add_payment p (some id) groups = add_entry id (payment_entry id p) groups

-- A payment without a supplier is passed over.
unfoldable pub add_payments : List LedgerPayment → Groups → Groups
unfolding add_entry payment_entry
add_payments [] groups = groups
add_payments (p ∷ payments) groups = add_payments payments (add_payment p p.supplier_id groups)

-- sort.SliceStable by date: an entry goes before the first later entry whose date is
-- not earlier, so that entries of one date keep their order.
unfoldable pub insert_by_date : LedgerEntry → List LedgerEntry → List LedgerEntry
insert_by_date e [] = e ∷ []
insert_by_date e (x ∷ entries) =
    let rest = insert_by_date e entries in if leb e.date x.date then e ∷ x ∷ entries else x ∷ rest

unfoldable pub sort_by_date : List LedgerEntry → List LedgerEntry
unfolding insert_by_date
sort_by_date [] = []
sort_by_date (e ∷ entries) = insert_by_date e (sort_by_date entries)

-- withRunningBalance, from a balance on.
unfoldable pub with_running_balance : ℤ → List LedgerEntry → List LedgerEntry
with_running_balance balance [] = []
with_running_balance balance (e ∷ entries) =
    let next = balance +ℤ pos e.debit +ℤ neg_ℤ (pos e.credit) in
    record e { balance = next } ∷ with_running_balance next entries

unfoldable pub finish_groups : Groups → Groups
unfolding sort_by_date with_running_balance
finish_groups [] = []
finish_groups ((k, entries) ∷ groups) =
    (k, with_running_balance (pos 0) (sort_by_date entries)) ∷ finish_groups groups

-- buildSupplierLedgerEntries
unfoldable pub build_supplier_ledger_entries : List LedgerBill → List LedgerPayment → Groups
unfolding add_bills add_payments finish_groups
build_supplier_ledger_entries bills payments =
    finish_groups (add_payments payments (add_bills bills []))

unfoldable pub all_entries : Groups → List LedgerEntry
all_entries [] = []
all_entries ((k, entries) ∷ groups) = entries ++ all_entries groups

unfoldable pub total_debit : List LedgerEntry → ℕ
total_debit [] = 0
total_debit (e ∷ entries) = e.debit + total_debit entries

unfoldable pub total_credit : List LedgerEntry → ℕ
total_credit [] = 0
total_credit (e ∷ entries) = e.credit + total_credit entries

pub record LedgerSummary : Type 0 where
  pub bill_count : ℕ
  pub payment_count : ℕ
  pub debit : ℕ
  pub credit : ℕ
  pub closing_balance : ℤ

-- The combined feed of GetSupplierLedger; `visit` is the order in which the map is walked.
unfoldable pub combined_ledger :
    (Groups → Groups) → List LedgerBill → List LedgerPayment → List LedgerEntry
unfolding build_supplier_ledger_entries sort_by_date with_running_balance all_entries
combined_ledger visit bills payments =
    with_running_balance (pos 0)
      (sort_by_date (all_entries (visit (build_supplier_ledger_entries bills payments))))

unfoldable pub ledger_summary :
    (Groups → Groups) → List LedgerBill → List LedgerPayment → LedgerSummary
unfolding combined_ledger total_debit total_credit
ledger_summary visit bills payments =
    let combined = combined_ledger visit bills payments in
    record {
      bill_count = length bills;
      payment_count = length payments;
      debit = total_debit combined;
      credit = total_credit combined;
      closing_balance = pos (total_debit combined) +ℤ neg_ℤ (pos (total_credit combined));
    }
