-- ===== src/Sale/Retry.antt =====
-- The answers of saveSale (pkg/handlers/bill_sale.go): a sale that is written, one that is refused, and
-- the same sale sent again.
use ifritah_go.Prelude.{
  ℕ, String, str_eq, Bool, true, false, ◌&&◌, Option, none, some, List, ◌≡◌, ◌⊎◌, refl, ap, arith,
  inl, inr, Bool-cases, Result, ok, err,
}
use text.Mathlib.TextPositions.{eq_refl as str_eq_refl}
use mathlib.Core.Path.{subst}
use ifritah_go.Outbox.Drain.{Commit, committed, rolled_back, unacknowledged}
use ifritah_go.Sale.Table.{Bill, Sales, find_request}
use ifritah_go.Sale.Request.{AddBillRequest, BillIdentity, Refusal, is_final, sale_fingerprint}
use ifritah_go.Sale.Step.{Failure}
use ifritah_go.Sale.Write.{Context, SaleFaults, nil_if_empty}
use ifritah_go.Sale.Handler.{
  Saved, recorded, written, request_record, answer_record, answer_recorded_request, is_same_content,
  is_same_bill, sale_transaction, commit_sale, end_sale, write_sale, check_sale, save_checked,
  save_sale,
}
use ifritah_go.Sale.Rules.{of_post}
use ifritah_go.Sale.Identified.{Identifies, of_ok, check_sale-Identifies}
use ifritah_go.Sale.Paid.{IsClear}
use ifritah_go.Sale.Record.{Stands}
use ifritah_go.Sale.Opened.{opened_id}
use ifritah_go.Sale.Written.{IsWritten, AreWritten, sale_transaction-AreWritten}

-- A refusal leaves the tables alone, unless it is a commit in force that was not acknowledged.
abbrev pub IsUntouched : SaleFaults → Sales → Result Refusal Saved × Sales → Type 0
IsUntouched f s (ok (written id warned), t) = f.commit ≡ committed
IsUntouched f s (ok (recorded id), t) = t ≡ s
IsUntouched f s (err r, t) = (t ≡ s) ⊎ (f.commit ≡ unacknowledged)

commit_sale-IsUntouched :
    (f : SaleFaults) (commit : Commit) (id : ℕ) (warned : Bool) (s t : Sales)
    → f.commit ≡ commit
    → IsUntouched f s (commit_sale commit (written id warned) s t)
commit_sale-IsUntouched f committed id warned s t h = h
commit_sale-IsUntouched f rolled_back id warned s t h = inl refl
commit_sale-IsUntouched f unacknowledged id warned s t h = inr h

answered-IsUntouched :
    (f : SaleFaults) (ident : BillIdentity) (draft : Option ℕ) (other : Refusal)
    (found : Result Refusal (Option Bill)) (s : Sales)
    → IsUntouched f s (answer_record other ident draft found, s)
unfolding answer_record answer_recorded_request
answered-IsUntouched f ident draft other (err r) s = inl refl
answered-IsUntouched f ident draft other (ok none) s = inl refl
answered-IsUntouched f ident draft other (ok (some b)) s =
    elim (Bool-cases (is_same_bill draft b.id && is_same_content b ident)) [
      | inl e ↦ rw e refl
      | inr e ↦ rw e (inl refl)
    ]

end_sale-IsUntouched :
    (f : SaleFaults) (ident : BillIdentity) (draft : Option ℕ) (s : Sales)
    (v : Result Failure Saved × Sales)
    → IsUntouched f s (end_sale f ident draft s v)
unfolding end_sale
end_sale-IsUntouched f ident draft s (ok (recorded id), t) = refl
end_sale-IsUntouched f ident draft s (ok (written id warned), t) =
    commit_sale-IsUntouched f f.commit id warned s t refl
end_sale-IsUntouched f ident draft s (err (Failure.refused r), t) = inl refl
end_sale-IsUntouched f ident draft s (err Failure.lost_race, t) =
    answered-IsUntouched f ident draft _ _ s

checked-IsUntouched :
    (c : Context) (f : SaleFaults) (request : AddBillRequest) (draft : Option ℕ) (s : Sales)
    (checked : Result Refusal BillIdentity)
    → IsUntouched f s (save_checked c f request draft s checked)
unfolding write_sale
checked-IsUntouched c f request draft s (err r) = inl refl
checked-IsUntouched c f request draft s (ok ident) =
    end_sale-IsUntouched f ident draft s (sale_transaction c f request ident draft s)

-- A sale is all or nothing: one that is refused, by a check, a failing statement, a short product or a
-- key, and one that was recorded before, leave every table as it was. Only a commit that is in force
-- without an acknowledgement is answered by an error after it has written.
pub save_sale-IsUntouched :
    (c : Context) (f : SaleFaults) (request : AddBillRequest) (draft : Option ℕ) (s : Sales)
    → IsUntouched f s (save_sale c f request draft s)
unfolding save_sale
save_sale-IsUntouched c f request draft s =
    checked-IsUntouched c f request draft s (check_sale c f request)

commit_sale-written :
    (commit : Commit) (saved : Saved) (s u : Sales) {id : ℕ} {warned : Bool} {t : Sales}
    → commit_sale commit saved s u ≡ (ok (written id warned), t)
    → (saved ≡ written id warned) × (u ≡ t)
commit_sale-written committed saved s u h = (ground arith, cc)
commit_sale-written rolled_back saved s u h = cc
commit_sale-written unacknowledged saved s u h = cc

answer_record-written :
    (other : Refusal) (ident : BillIdentity) (draft : Option ℕ)
    (found : Result Refusal (Option Bill)) {id : ℕ} {warned : Bool}
    → answer_record other ident draft found ≡ ok (written id warned)
    → ⊥
unfolding answer_record answer_recorded_request
answer_record-written other ident draft (err r) h = cc
answer_record-written other ident draft (ok none) h = cc
answer_record-written other ident draft (ok (some b)) h = ground arith

end_sale-written :
    (f : SaleFaults) (ident : BillIdentity) (draft : Option ℕ) (s : Sales)
    (v : Result Failure Saved × Sales) {id : ℕ} {warned : Bool} {t : Sales}
    → end_sale f ident draft s v ≡ (ok (written id warned), t)
    → v ≡ (ok (written id warned), t)
unfolding end_sale
end_sale-written f ident draft s (ok (recorded id'), u) h = cc
end_sale-written f ident draft s (ok (written id' warned'), u) h =
    let (e, k) = commit_sale-written f.commit (written id' warned') s u h in cc (e, k)
end_sale-written f ident draft s (err (Failure.refused r), u) h = cc
end_sale-written f ident draft s (err Failure.lost_race, u) h =
    absurd (answer_record-written _ ident draft _ (ap (λ x. x.0) h))

checked-IsWritten :
    (c : Context) (f : SaleFaults) (request : AddBillRequest) (draft : Option ℕ) (s : Sales)
    (checked : Result Refusal BillIdentity) {id : ℕ} {warned : Bool} {t : Sales}
    → check_sale c f request ≡ checked
    → is_final request ≡ true
    → ((r : AddBillRequest) (print : String)
        → c.fingerprint r ≡ some print
        → str_eq print "" ≡ false)
    → IsClear draft (opened_id c draft) s
    → save_checked c f request draft s checked ≡ (ok (written id warned), t)
    → IsWritten c request draft id t
unfolding write_sale
checked-IsWritten c f request draft s (err r) e final printed clear h = cc
checked-IsWritten c f request draft s (ok ident) e final printed clear h =
    let found = of_ok (Identifies c request) e (check_sale-Identifies c f request final) in
    of_post (AreWritten c request draft)
      (end_sale-written f ident draft s (sale_transaction c f request ident draft s) h)
      (sale_transaction-AreWritten c request f ident draft s found
        (printed _ ident.fingerprint found.2) clear)

record_found :
    (bills : List Bill) (ident : BillIdentity) (o : Bill)
    → str_eq ident.pos_id "" ≡ false
    → find_request (nil_if_empty ident.pos_id) (nil_if_empty ident.bill_request_id) bills ≡ some o
    → request_record false bills ident ≡ ok (some o)
unfolding request_record
record_found bills ident o given h = ground arith

answer_same :
    (ident : BillIdentity) (o : Bill) (id : ℕ) (print : String)
    → print ≡ ident.fingerprint
    → o.id ≡ id
    → o.request_fingerprint ≡ some print
    → o.request_fingerprint_version ≡ 1
    → answer_recorded_request ident none o ≡ ok (recorded id)
unfolding answer_recorded_request
answer_same ident o id print same e p v =
    rw (p, v, e) (rw same (rw (str_eq_refl ident.fingerprint) refl))

retry_checked :
    (c : Context) (f : SaleFaults) (request : AddBillRequest) (t : Sales) (id : ℕ) (print : String)
    (checked : Result Refusal BillIdentity) {ident : BillIdentity}
    → checked ≡ ok ident
    → Identifies c request ident
    → sale_fingerprint c.fingerprint request ≡ some print
    → Stands (some request.pos_id) (some request.bill_request_id) id print c.view
    → f.lookup ≡ false
    → save_checked c f request none t checked ≡ (ok (recorded id), t)
unfolding write_sale sale_transaction end_sale
retry_checked c f request t id print (err r) e ids same stands working = cc
retry_checked c f request t id print (ok ident') {ident} e ids same (o, found, marks) working =
    let equal : ident ≡ ident' = ground arith in
    let (p, r, k, given) = subst (Identifies c request) equal ids in
    let first : request_record f.lookup c.view ident' ≡ ok (some o) =
      rw working (record_found c.view ident' o given (rw (p, r) found)) in
    let answer : answer_recorded_request ident' none o ≡ ok (recorded id) =
      answer_same ident' o id print (cc (same, k)) marks.0 marks.1 marks.2 in
    rw (first, answer) refl

-- A final sale sent again as a new sale, after it was written, gets the original bill and writes
-- nothing: it answers the id of the first, and every table stays. The second request passes its checks,
-- its first read works and sees the table, and its fingerprints are computed as before and never empty;
-- the bill of the first, if it was new, had no payment before.
-- Prices have at most two places and quantities three.
pub save_sale-retry :
    (c c' : Context) (f f' : SaleFaults) (request : AddBillRequest) (draft : Option ℕ) (s : Sales)
    {id : ℕ} {warned : Bool} {t : Sales} {ident : BillIdentity}
    → is_final request ≡ true
    → ((r : AddBillRequest) (print : String)
        → c.fingerprint r ≡ some print
        → str_eq print "" ≡ false)
    → IsClear draft (opened_id c draft) s
    → save_sale c f request draft s ≡ (ok (written id warned), t)
    → c'.fingerprint ≡ c.fingerprint
    → c'.view ≡ t.bills
    → f'.lookup ≡ false
    → check_sale c' f' request ≡ ok ident
    → save_sale c' f' request none t ≡ (ok (recorded id), t)
unfolding save_sale
save_sale-retry c c' f f' request draft s {id} {warned} {t} {ident} final printed clear h same seen
      working passed =
    let (e, (print, printed', stands), settled) =
      checked-IsWritten c f request draft s (check_sale c f request) refl final printed clear h in
    retry_checked c' f' request t id print (check_sale c' f' request) passed
      (of_ok (Identifies c' request) passed (check_sale-Identifies c' f' request final))
      (rw same printed') (rw seen stands) working
