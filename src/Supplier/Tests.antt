-- ===== src/Supplier/Tests.antt =====
-- Runs of the supplier ledger (pkg/handlers/supplier_ledger.go).
use ifritah_go.Prelude.{◌+ℤ◌, neg_ℤ, ℕ, Option, none, some, List, [], ◌∷◌, ◌≡◌, refl, ℤ, pos}
use ifritah_go.Supplier.Ledger.{
  LedgerBill, LedgerPayment, Groups, ledger_summary, combined_ledger, add_bills, add_payments,
  add_entry, bill_entry, payment_entry, insert_by_date, sort_by_date, with_running_balance,
  finish_groups, build_supplier_ledger_entries, all_entries, total_debit, total_credit,
}
use ifritah_go.Supplier.Balance.{ledger_summary-balance}

abbrev bill : ℕ → ℤ → ℕ → ℕ → LedgerBill
bill id supplier date total = record {
  id = id;
  supplier_id = supplier;
  supplier_name = some "parts";
  supplier_sequence_number = none;
  effective_date = date;
  total = total;
}

abbrev payment : ℕ → Option ℤ → ℕ → ℕ → LedgerPayment
payment id supplier date amount = record {
  id = id;
  supplier_id = supplier;
  supplier_name = "parts";
  voucher_number = pos id;
  effective_date = date;
  amount = amount;
}

abbrev bills : List LedgerBill
bills = bill 1 (pos 7) 30 500 ∷ bill 2 (pos 8) 10 250 ∷ []

abbrev payments : List LedgerPayment
payments = payment 4 (some (pos 7)) 20 300 ∷ payment 5 none 25 90 ∷ []

abbrev walk_in_order : Groups → Groups
walk_in_order groups = groups

-- The payment without a supplier counts in the number of payments and in no sum.
summary_test :
    let summary = ledger_summary walk_in_order bills payments in
    (summary.payment_count ≡ 2) × (summary.debit ≡ 750) × (summary.credit ≡ 300)
unfolding ledger_summary combined_ledger add_bills add_payments add_entry bill_entry payment_entry
    insert_by_date sort_by_date with_running_balance finish_groups build_supplier_ledger_entries
    all_entries total_debit total_credit
summary_test = (refl, refl, refl)

ledger_summary-balance_example :
    ((ledger_summary walk_in_order bills payments).debit ≡ 750)
    × ((ledger_summary walk_in_order bills payments).credit ≡ 300)
    × ((ledger_summary walk_in_order bills payments).closing_balance ≡ pos 450)
unfolding ◌+ℤ◌ neg_ℤ
ledger_summary-balance_example =
    ledger_summary-balance walk_in_order (λ amount groups. refl) bills payments
