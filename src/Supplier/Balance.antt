-- ===== src/Supplier/Balance.antt =====
-- The closing balance of the supplier ledger (pkg/handlers/supplier_ledger.go).
use ifritah_go.Prelude.{
  ℕ, ◌+◌, Option, none, some, List, [], ◌∷◌, ◌++◌, ◌≡◌, refl, ◌∙◌, inl, inr, arith, ℤ, pos, ◌+ℤ◌,
  neg_ℤ, eq_ℤ, Bool-cases, leb,
}
use ifritah_go.Supplier.Ledger.{
  LedgerBill, LedgerPayment, LedgerEntry, Groups, bill_entry, payment_entry, add_entry, add_bills,
  add_payment, add_payments, insert_by_date, sort_by_date, with_running_balance, finish_groups,
  build_supplier_ledger_entries, all_entries, total_debit, total_credit, combined_ledger,
  ledger_summary,
}

-- An amount of each entry, added up: the debit or the credit.
abbrev sum_of : (LedgerEntry → ℕ) → List LedgerEntry → ℕ
sum_of amount [] = 0
sum_of amount (e ∷ entries) = amount e + sum_of amount entries

abbrev sum_groups : (LedgerEntry → ℕ) → Groups → ℕ
sum_groups amount [] = 0
sum_groups amount ((k, entries) ∷ groups) = sum_of amount entries + sum_groups amount groups

-- A walk over the map meets each group once, so that it adds up to the same.
abbrev pub IsWalk : (Groups → Groups) → Type 0
IsWalk visit =
    (amount : LedgerEntry → ℕ) (groups : Groups)
    → sum_groups amount (visit groups) ≡ sum_groups amount groups

total_debit-sum_of :
    (entries : List LedgerEntry) → total_debit entries ≡ sum_of (λ e. e.debit) entries
unfolding total_debit
total_debit-sum_of [] = refl
total_debit-sum_of (e ∷ entries) = rw (total_debit-sum_of entries) refl

total_credit-sum_of :
    (entries : List LedgerEntry) → total_credit entries ≡ sum_of (λ e. e.credit) entries
unfolding total_credit
total_credit-sum_of [] = refl
total_credit-sum_of (e ∷ entries) = rw (total_credit-sum_of entries) refl

module _ (amount : LedgerEntry → ℕ) where
  sum_of-append :
      (xs ys : List LedgerEntry) → sum_of amount (xs ++ ys) ≡ sum_of amount xs + sum_of amount ys
  sum_of-append [] ys = omega arith
  sum_of-append (x ∷ xs) ys = omega (arith, sum_of-append xs ys)

  sum_of-insert_by_date :
      (e : LedgerEntry) (xs : List LedgerEntry)
      → sum_of amount (insert_by_date e xs) ≡ amount e + sum_of amount xs
  unfolding insert_by_date
  sum_of-insert_by_date e [] = refl
  sum_of-insert_by_date e (x ∷ xs) = elim (Bool-cases (leb e.date x.date)) [
    | inl before ↦ rw before refl
    | inr after ↦ rw after (omega (arith, sum_of-insert_by_date e xs))
  ]

  sum_of-sort_by_date : (xs : List LedgerEntry) → sum_of amount (sort_by_date xs) ≡ sum_of amount xs
  unfolding sort_by_date
  sum_of-sort_by_date [] = refl
  sum_of-sort_by_date (x ∷ xs) =
      sum_of-insert_by_date x (sort_by_date xs) ∙ omega (arith, sum_of-sort_by_date xs)

  sum_of-all_entries :
      (groups : Groups) → sum_of amount (all_entries groups) ≡ sum_groups amount groups
  unfolding all_entries
  sum_of-all_entries [] = refl
  sum_of-all_entries ((k, entries) ∷ groups) =
      sum_of-append entries (all_entries groups) ∙ omega (arith, sum_of-all_entries groups)

  sum_groups-add_entry :
      (id : ℤ) (entry : LedgerEntry) (groups : Groups)
      → sum_groups amount (add_entry id entry groups) ≡ amount entry + sum_groups amount groups
  unfolding add_entry
  sum_groups-add_entry id entry [] = omega arith
  sum_groups-add_entry id entry ((k, entries) ∷ groups) = elim (Bool-cases (eq_ℤ k id)) [
    | inl own ↦ rw own (omega (arith, sum_of-append entries (entry ∷ [])))
    | inr other ↦ rw other (omega (arith, sum_groups-add_entry id entry groups))
  ]

  -- An amount that the balance does not change.
  module _ (steady : (e : LedgerEntry) (b : ℤ) → amount (record e { balance = b }) ≡ amount e) where
    sum_of-with_running_balance :
        (b : ℤ) (xs : List LedgerEntry)
        → sum_of amount (with_running_balance b xs) ≡ sum_of amount xs
    unfolding with_running_balance
    sum_of-with_running_balance b [] = refl
    sum_of-with_running_balance b (x ∷ xs) = omega (
      arith,
      steady x (b +ℤ pos x.debit +ℤ neg_ℤ (pos x.credit)),
      sum_of-with_running_balance (b +ℤ pos x.debit +ℤ neg_ℤ (pos x.credit)) xs,
    )

    sum_groups-finish_groups :
        (groups : Groups) → sum_groups amount (finish_groups groups) ≡ sum_groups amount groups
    unfolding finish_groups
    sum_groups-finish_groups [] = refl
    sum_groups-finish_groups ((k, entries) ∷ groups) = omega (
      arith,
      sum_of-with_running_balance (pos 0) (sort_by_date entries),
      sum_of-sort_by_date entries,
      sum_groups-finish_groups groups,
    )

-- What the bills come to, and what the payments that have a supplier do.
abbrev pub bills_total : List LedgerBill → ℕ
bills_total [] = 0
bills_total (b ∷ bills) = b.total + bills_total bills

abbrev pub paid : Option ℤ → ℕ → ℕ
paid none amount = 0
paid (some supplier) amount = amount

abbrev pub paid_total : List LedgerPayment → ℕ
paid_total [] = 0
paid_total (p ∷ payments) = paid p.supplier_id p.amount + paid_total payments

debit-add_bills :
    (bills : List LedgerBill) (groups : Groups)
    → sum_groups (λ e. e.debit) (add_bills bills groups)
      ≡ bills_total bills + sum_groups (λ e. e.debit) groups
unfolding add_bills bill_entry
debit-add_bills [] groups = omega arith
debit-add_bills (b ∷ bills) groups = omega (
  arith,
  debit-add_bills bills (add_entry b.supplier_id (bill_entry b) groups),
  sum_groups-add_entry (λ e. e.debit) b.supplier_id (bill_entry b) groups,
)

credit-add_bills :
    (bills : List LedgerBill) (groups : Groups)
    → sum_groups (λ e. e.credit) (add_bills bills groups) ≡ sum_groups (λ e. e.credit) groups
unfolding add_bills bill_entry
credit-add_bills [] groups = refl
credit-add_bills (b ∷ bills) groups = omega (
  arith,
  credit-add_bills bills (add_entry b.supplier_id (bill_entry b) groups),
  sum_groups-add_entry (λ e. e.credit) b.supplier_id (bill_entry b) groups,
)

debit-add_payment :
    (p : LedgerPayment) (supplier : Option ℤ) (groups : Groups)
    → sum_groups (λ e. e.debit) (add_payment p supplier groups) ≡ sum_groups (λ e. e.debit) groups
unfolding payment_entry
debit-add_payment p none groups = refl
debit-add_payment p (some id) groups =
    omega (arith, sum_groups-add_entry (λ e. e.debit) id (payment_entry id p) groups)

credit-add_payment :
    (p : LedgerPayment) (supplier : Option ℤ) (groups : Groups)
    → sum_groups (λ e. e.credit) (add_payment p supplier groups)
      ≡ paid supplier p.amount + sum_groups (λ e. e.credit) groups
unfolding payment_entry
credit-add_payment p none groups = omega arith
credit-add_payment p (some id) groups =
    sum_groups-add_entry (λ e. e.credit) id (payment_entry id p) groups

debit-add_payments :
    (payments : List LedgerPayment) (groups : Groups)
    → sum_groups (λ e. e.debit) (add_payments payments groups) ≡ sum_groups (λ e. e.debit) groups
unfolding add_payments
debit-add_payments [] groups = refl
debit-add_payments (p ∷ payments) groups =
    debit-add_payments payments (add_payment p p.supplier_id groups)
    ∙ debit-add_payment p p.supplier_id groups

credit-add_payments :
    (payments : List LedgerPayment) (groups : Groups)
    → sum_groups (λ e. e.credit) (add_payments payments groups)
      ≡ paid_total payments + sum_groups (λ e. e.credit) groups
unfolding add_payments
credit-add_payments [] groups = omega arith
credit-add_payments (p ∷ payments) groups = omega (
  arith,
  credit-add_payments payments (add_payment p p.supplier_id groups),
  credit-add_payment p p.supplier_id groups,
)

-- The feed carries what the groups were filled with.
module _ (visit : Groups → Groups) (walk : IsWalk visit) where
  sum_of-combined_ledger :
      (amount : LedgerEntry → ℕ)
      (steady : (e : LedgerEntry) (b : ℤ) → amount (record e { balance = b }) ≡ amount e)
      (bills : List LedgerBill) (payments : List LedgerPayment)
      → sum_of amount (combined_ledger visit bills payments)
        ≡ sum_groups amount (add_payments payments (add_bills bills []))
  unfolding combined_ledger build_supplier_ledger_entries
  sum_of-combined_ledger amount steady bills payments =
      let filled = add_payments payments (add_bills bills []) in
      let fed = all_entries (visit (finish_groups filled)) in
      sum_of-with_running_balance amount steady (pos 0) (sort_by_date fed)
      ∙ sum_of-sort_by_date amount fed
      ∙ sum_of-all_entries amount (visit (finish_groups filled))
      ∙ walk amount (finish_groups filled)
      ∙ sum_groups-finish_groups amount steady filled

  debit-combined_ledger :
      (bills : List LedgerBill) (payments : List LedgerPayment)
      → total_debit (combined_ledger visit bills payments) ≡ bills_total bills
  debit-combined_ledger bills payments = omega (
    arith,
    total_debit-sum_of (combined_ledger visit bills payments),
    sum_of-combined_ledger (λ e. e.debit) (λ e b. refl) bills payments,
    debit-add_payments payments (add_bills bills []),
    debit-add_bills bills [],
  )

  credit-combined_ledger :
      (bills : List LedgerBill) (payments : List LedgerPayment)
      → total_credit (combined_ledger visit bills payments) ≡ paid_total payments
  credit-combined_ledger bills payments = omega (
    arith,
    total_credit-sum_of (combined_ledger visit bills payments),
    sum_of-combined_ledger (λ e. e.credit) (λ e b. refl) bills payments,
    credit-add_payments payments (add_bills bills []),
    credit-add_bills bills [],
  )

-- In whatever order the map of suppliers is walked, the summary's debit is the sum of the bills' totals,
-- its credit is the sum of the payments that have a supplier, and its closing balance is the first less
-- the second: grouping by supplier, sorting and the running balances lose and repeat no amount. Amounts
-- are exact hundredths.
pub ledger_summary-balance :
    (visit : Groups → Groups) (walk : IsWalk visit) (bills : List LedgerBill)
    (payments : List LedgerPayment)
    → ((ledger_summary visit bills payments).debit ≡ bills_total bills)
      × ((ledger_summary visit bills payments).credit ≡ paid_total payments)
      × ((ledger_summary visit bills payments).closing_balance
          ≡ pos (bills_total bills) +ℤ neg_ℤ (pos (paid_total payments)))
unfolding ledger_summary
ledger_summary-balance visit walk bills payments =
    let debit = debit-combined_ledger visit walk bills payments in
    let credit = credit-combined_ledger visit walk bills payments in
    (debit, credit, rw debit (rw credit refl))
