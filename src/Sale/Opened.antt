-- ===== src/Sale/Opened.antt =====
-- The first steps of a sale that is written: the bill it opens, its number and the draft's old lines
-- (openSaleBill, numberSale and finishSale of pkg/handlers/bill_sale.go).
use ifritah_go.Prelude.{
  ℕ, Bool, true, false, ◌&&◌, Option, none, some, List, ◌≡◌, refl, arith, inl, inr, ==_refl, ℤ, pos,
  Bool-cases, Result, ok, err,
}
use ifritah_go.Sale.Table.{Bill, Sales, bill_state, new_bill}
use ifritah_go.Sale.Request.{AddBillRequest, BillIdentity, Refusal, line_failed}
use ifritah_go.Sale.Step.{◌>>=◌, of_result}
use ifritah_go.Sale.Write.{
  Context, SaleFaults, open_draft, open_sale_bill, allocate_bill_number, number_sale,
}
use ifritah_go.Sale.Handler.{
  is_same_bill, is_same_content, Saved, recorded, written, drop_lines, delete_old_lines,
  answer_record, answer_recorded_request,
}
use ifritah_go.Sale.Rules.{Post, statement_rule}
use ifritah_go.Sale.Paid.{IsClear}

-- The bill that a sale opens: a fresh one, or the draft.
abbrev pub opened_id : Context → Option ℕ → ℕ
opened_id c none = c.next_bill
opened_id c (some d) = d

abbrev pub Opened : Context → Option ℕ → ℕ → Sales → Type 0
Opened c draft id s =
    (id ≡ opened_id c draft) × IsClear draft id s × ((st : ℤ) × (bill_state id s.bills ≡ some st))

pub open_draft-Opened :
    (c : Context) (failing : Bool) (d : ℕ) (state : Option ℤ) (s : Sales)
    → bill_state d s.bills ≡ state
    → Post (λ (o : ℕ × Bool) t. Opened c (some d) o.0 t) (open_draft failing d state s)
unfolding Post
open_draft-Opened c failing d none s h = tt
open_draft-Opened c true d (some state) s h = tt
open_draft-Opened c false d (some state) s h = (refl, tt, (state, h))

pub open_sale_bill-Opened :
    (c : Context) (f : SaleFaults) (request : AddBillRequest) (draft : Option ℕ) (s : Sales)
    → IsClear draft (opened_id c draft) s
    → Post (λ (o : ℕ × Bool) t. Opened c draft o.0 t) (open_sale_bill c f request draft s)
unfolding open_sale_bill bill_state new_bill
open_sale_bill-Opened c f request none s clear = elim (Bool-cases f.create) [
  | inl e ↦ rw e (unfold Post in tt)
  | inr e ↦ rw e (unfold Post in (refl, clear, (pos 0, rw (==_refl c.next_bill) refl)))
]
open_sale_bill-Opened c f request (some d) s clear = open_draft-Opened c f.create d _ s refl

pub IsClear-same :
    (draft : Option ℕ) (id : ℕ) (s t : Sales)
    → t.payments ≡ s.payments
    → IsClear draft id s
    → IsClear draft id t
IsClear-same none id s t e h = rw e h
IsClear-same (some d) id s t e h = tt

pub number_sale-bills :
    (f : SaleFaults) (request : AddBillRequest) (s : Sales)
    → Post
        (λ (n : Option ℕ) t. (t.bills ≡ s.bills) × (t.payments ≡ s.payments))
        (number_sale f request s)
unfolding number_sale allocate_bill_number ◌>>=◌ Post
number_sale-bills f request s = ground arith

pub delete_old_lines-Keeps :
    (P : List Bill → Type 0) (failing : Bool) (id : ℕ) (draft : Option ℕ) (s : Sales)
    → P s.bills
    → Post (λ u t. P t.bills × (t.payments ≡ s.payments)) (delete_old_lines failing id draft s)
delete_old_lines-Keeps P failing id none s h = unfold Post in (h, refl)
delete_old_lines-Keeps P failing id (some d) s h =
    statement_rule (λ u t. P t.bills × (t.payments ≡ s.payments)) failing line_failed
      (drop_lines id) s (h, refl)

-- No answer to a request that is recorded is a written sale.
abbrev pub NotWritten : Saved → Type 0
NotWritten (recorded id) = Unit
NotWritten (written id warned) = ⊥

pub answer_recorded_request-NotWritten :
    (ident : BillIdentity) (draft : Option ℕ) (b : Bill) (s : Sales)
    → Post (λ a t. NotWritten a) (of_result (answer_recorded_request ident draft b) s)
unfolding answer_recorded_request
answer_recorded_request-NotWritten ident draft b s =
    elim (Bool-cases (is_same_bill draft b.id && is_same_content b ident)) [
      | inl e ↦ rw e (unfold Post in tt)
      | inr e ↦ rw e (unfold Post in tt)
    ]

pub answer_record-NotWritten :
    (other : Refusal) (ident : BillIdentity) (draft : Option ℕ)
    (found : Result Refusal (Option Bill)) (s : Sales)
    → Post (λ a t. NotWritten a) (of_result (answer_record other ident draft found) s)
unfolding answer_record
answer_record-NotWritten other ident draft (err r) s = unfold Post in tt
answer_record-NotWritten other ident draft (ok none) s = unfold Post in tt
answer_record-NotWritten other ident draft (ok (some b)) s =
    answer_recorded_request-NotWritten ident draft b s
