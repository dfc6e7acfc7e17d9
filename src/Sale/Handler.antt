-- ===== src/Sale/Handler.antt =====
-- AddBill, SubmitDraftBill, saveSale and writeSale of pkg/handlers/bill_sale.go: the checks of a sale,
-- its transaction, and the answers to a request that is already recorded.
use ifritah_go.Prelude.{
  ℕ, String, str_eq, Bool, true, false, not, ◌&&◌, Option, none, some, List, ◌==◌, if◌then◌else◌,
  contains, Result, ok, err,
}
use ifritah_go.Outbox.Drain.{Commit, committed, rolled_back, unacknowledged}
use ifritah_go.Sale.Table.{Bill, Sales, find_request, lines_without}
use ifritah_go.Sale.Request.{
  AddBillRequest, BillIdentity, Refusal, bad_id, bad_body, no_store_access, wrong_branch,
  line_failed, already_final, request_conflict, duplicate_sale, database, final_sale_identity,
  paid_amount_error, verify_final_sale,
}
use ifritah_go.Sale.Step.{
  Failure, refused, lost_race, Step, pure, refuse, ◌>>=◌, ◌>>◌, statement, of_result,
}
use ifritah_go.Sale.Write.{
  Context, SaleFaults, nil_if_empty, open_sale_bill, number_sale, update_sale_bill,
}
use ifritah_go.Sale.Complete.{complete_sale, record_sale_payment}

-- A sale that is saved: recorded before, or written now, with whether a product was short.
pub data Saved : Type 0 where
  recorded : ℕ → Saved
  written : ℕ → Bool → Saved

unfoldable pub request_record : Bool → List Bill → BillIdentity → Result Refusal (Option Bill)
request_record failing bills ident =
    if str_eq ident.pos_id ""
    then ok none
    else if failing
    then err database
    else ok (find_request (nil_if_empty ident.pos_id) (nil_if_empty ident.bill_request_id) bills)

abbrev pub is_same_bill : Option ℕ → ℕ → Bool
is_same_bill none id = true
is_same_bill (some d) id = d == id

abbrev pub is_fingerprint : Option String → String → Bool
is_fingerprint none print = false
is_fingerprint (some p) print = str_eq p print

abbrev pub is_same_content : Bill → BillIdentity → Bool
is_same_content b ident =
    is_fingerprint b.request_fingerprint ident.fingerprint && b.request_fingerprint_version == 1

unfoldable pub answer_recorded_request : BillIdentity → Option ℕ → Bill → Result Refusal Saved
answer_recorded_request ident draft b =
    if is_same_bill draft b.id && is_same_content b ident
    then ok (recorded b.id)
    else err request_conflict

-- The answer of answerFinalDraft and answerLostRace to what they read, `other` if it is no record.
unfoldable pub answer_record :
    Refusal → BillIdentity → Option ℕ → Result Refusal (Option Bill) → Result Refusal Saved
unfolding answer_recorded_request
answer_record other ident draft (err r) = err r
answer_record other ident draft (ok none) = err other
answer_record other ident draft (ok (some b)) = answer_recorded_request ident draft b

abbrev pub drop_lines : ℕ → Sales → Sales
drop_lines id s = record s { lines = lines_without id s.lines }

abbrev pub delete_old_lines : Bool → ℕ → Option ℕ → Step (Unit {0})
delete_old_lines failing id none = pure tt
delete_old_lines failing id (some d) = statement failing line_failed (drop_lines id)

-- finishSale after the lines, totals, stock and event of completeSale.
abbrev pub finish_completed :
    Context → SaleFaults → AddBillRequest → ℕ → Option ℕ → Bool → Step Bool
finish_completed c f request id draft warned =
    record_sale_payment c f request id draft >> pure warned

-- finishSale up to its commit.
unfoldable pub finish_sale :
    Context → SaleFaults → AddBillRequest → ℕ → Option ℕ → BillIdentity → Option ℕ → Step Bool
unfolding ◌>>=◌ ◌>>◌
finish_sale c f request id number ident draft =
    delete_old_lines f.delete_lines id draft
    >> (complete_sale c f request id number ident >>= finish_completed c f request id draft)

-- writeSale from finishSale on.
abbrev pub write_finished :
    Context → SaleFaults → AddBillRequest → BillIdentity → Option ℕ → ℕ → Option ℕ → Step Saved
write_finished c f request ident draft id number =
    finish_sale c f request id number ident draft >>= (λ warned. pure (written id warned))

-- writeSale from updateSaleBill on.
abbrev pub write_numbered :
    Context → SaleFaults → AddBillRequest → BillIdentity → Option ℕ → ℕ → Option ℕ → Step Saved
write_numbered c f request ident draft id number =
    update_sale_bill c f request id number ident >> write_finished c f request ident draft id number

-- writeSale from numberSale on.
unfoldable pub write_opened :
    Context → SaleFaults → AddBillRequest → BillIdentity → Option ℕ → ℕ → Step Saved
unfolding ◌>>=◌ ◌>>◌
write_opened c f request ident draft id =
    number_sale f request >>= write_numbered c f request ident draft id

-- writeSale once its bill is open; whether a draft is already final.
unfoldable pub write_draft :
    Context → SaleFaults → AddBillRequest → BillIdentity → Option ℕ → ℕ × Bool → Step Saved
unfolding write_opened
write_draft c f request ident draft (id, true) =
    of_result (answer_record already_final ident draft (request_record f.lookup c.view ident))
write_draft c f request ident draft (id, false) = write_opened c f request ident draft id

-- writeSale from openSaleBill on.
unfoldable pub write_bill :
    Context → SaleFaults → AddBillRequest → BillIdentity → Option ℕ → Step Saved
unfolding ◌>>=◌ write_draft
write_bill c f request ident draft =
    open_sale_bill c f request draft >>= write_draft c f request ident draft

abbrev pub answer_or : BillIdentity → Step Saved → Result Refusal (Option Bill) → Step Saved
answer_or ident write (err r) = refuse r
answer_or ident write (ok none) = write
answer_or ident write (ok (some b)) = of_result (answer_recorded_request ident none b)

-- The statements of writeSale in its transaction.
unfoldable pub sale_transaction :
    Context → SaleFaults → AddBillRequest → BillIdentity → Option ℕ → Step Saved
unfolding request_record write_bill
sale_transaction c f request ident none =
    answer_or ident (write_bill c f request ident none) (request_record f.lookup c.view ident)
sale_transaction c f request ident (some d) = write_bill c f request ident (some d)

abbrev pub commit_sale : Commit → Saved → Sales → Sales → Result Refusal Saved × Sales
commit_sale committed saved old new = (ok saved, new)
commit_sale rolled_back saved old new = (err database, old)
commit_sale unacknowledged saved old new = (err database, new)

-- How the transaction ends: a refusal and a recorded request roll it back. After a lost race the record
-- is read again from the table.
unfoldable pub end_sale :
    SaleFaults
    → BillIdentity
    → Option ℕ
    → Sales
    → Result Failure Saved × Sales
    → Result Refusal Saved × Sales
end_sale f ident draft old (ok (recorded id), new) = (ok (recorded id), old)
end_sale f ident draft old (ok (written id warned), new) =
    commit_sale f.commit (written id warned) old new
end_sale f ident draft old (err (refused r), new) = (err r, old)
end_sale f ident draft old (err lost_race, new) =
    (answer_record duplicate_sale ident draft (request_record f.reread old.bills ident), old)

unfoldable pub write_sale :
    Context
    → SaleFaults
    → AddBillRequest
    → BillIdentity
    → Option ℕ
    → Sales
    → Result Refusal Saved × Sales
unfolding sale_transaction end_sale
write_sale c f request ident draft s =
    end_sale f ident draft s (sale_transaction c f request ident draft s)

-- checkStoreBelongsToBranch
abbrev pub is_in_branch : Option ℕ → ℕ → Bool
is_in_branch none branch = false
is_in_branch (some b) branch = b == branch

abbrev pub and_then {ℓ κ} :
    {A : Type ℓ} {B : Type κ} → Result Refusal A → (A → Result Refusal B) → Result Refusal B
and_then (err r) next = err r
and_then (ok a) next = next a

-- The store and the branch, and the begin of the transaction.
abbrev pub check_access :
    Context → SaleFaults → AddBillRequest → BillIdentity → Result Refusal BillIdentity
check_access c f request ident =
    if not (contains c.store_ids request.store_id)
    then err no_store_access
    else if f.store_branch
    then err database
    else if not (is_in_branch (c.store_branch request.store_id) request.branch_id)
    then err wrong_branch
    else if f.begin
    then err database
    else ok ident

-- What saveSale checks before its transaction.
unfoldable pub check_sale : Context → SaleFaults → AddBillRequest → Result Refusal BillIdentity
unfolding final_sale_identity paid_amount_error verify_final_sale
check_sale c f request =
    and_then (final_sale_identity c.fingerprint c.invoice_bytes request) λ ident.
      and_then (paid_amount_error request.paid_amount)
        λ u. and_then (verify_final_sale request) λ u. check_access c f request ident

abbrev pub save_checked :
    Context
    → SaleFaults
    → AddBillRequest
    → Option ℕ
    → Sales
    → Result Refusal BillIdentity
    → Result Refusal Saved × Sales
save_checked c f request draft s (err r) = (err r, s)
save_checked c f request draft s (ok ident) = write_sale c f request ident draft s

unfoldable pub save_sale :
    Context → SaleFaults → AddBillRequest → Option ℕ → Sales → Result Refusal Saved × Sales
unfolding check_sale write_sale
save_sale c f request draft s = save_checked c f request draft s (check_sale c f request)

-- The body of a request, `none` if it does not bind.
unfoldable pub add_bill :
    Context → SaleFaults → Option AddBillRequest → Sales → Result Refusal Saved × Sales
add_bill c f none s = (err bad_body, s)
add_bill c f (some request) s = save_sale c f request none s

-- `param` is what parseBillID makes of the path.
unfoldable pub submit_draft_bill :
    Context → SaleFaults → Option ℕ → Option AddBillRequest → Sales → Result Refusal Saved × Sales
submit_draft_bill c f none body s = (err bad_id, s)
submit_draft_bill c f (some id) none s = (err bad_body, s)
submit_draft_bill c f (some id) (some request) s = save_sale c f request (some id) s
