-- ===== src/Sale/Answers.antt =====
-- The answers to a request that is already recorded (requestRecord and answerRecordedRequest of
-- pkg/handlers/bill_sale.go), and the bill that a new sale opens beside the record.
use mathlib.Core.Path.{subst}
use ifritah_go.Prelude.{
  ℕ, ℤ, String, Bool, true, false, ◌&&◌, Option, none, some, List, [], ◌∷◌, ◌≡◌, refl, sym, arith,
  inl, inr, ◌==◌, Result, ok, err, Bool-cases,
}
use ifritah_go.Sale.Table.{Bill, Sales, bears, find_request, bill_state, request_taken, new_bill}
use ifritah_go.Sale.Request.{AddBillRequest, BillIdentity, Refusal, sale_fingerprint}
use ifritah_go.Sale.Step.{of_result}
use ifritah_go.Sale.Write.{Context, SaleFaults, nil_if_empty, open_sale_bill}
use ifritah_go.Sale.Handler.{
  Saved, recorded, written, request_record, is_same_content, is_same_bill, answer_recorded_request,
  answer_record,
}
use ifritah_go.Sale.Rules.{Post}
use ifritah_go.Sale.Identified.{OnOk}

-- The recorded bill itself, and nothing that is written.
abbrev pub Replays : Bill → BillIdentity → Saved → Type 0
Replays b ident (recorded id) = (id ≡ b.id) × (is_same_content b ident ≡ true)
Replays b ident (written id warned) = ⊥

-- The answer is the recorded bill, and the request has the content that the bill records.
abbrev pub IsOriginal : Context → AddBillRequest → Bill → Saved → Type 0
IsOriginal c request b (recorded id) =
    (id ≡ b.id)
    × (b.request_fingerprint ≡ sale_fingerprint c.fingerprint request)
    × (b.request_fingerprint_version ≡ 1)
IsOriginal c request b (written id warned) = ⊥

pub find-request_taken :
    (id : ℕ) (till request : Option String) (bills : List Bill) {b : Bill}
    → bill_state id bills ≡ none
    → find_request till request bills ≡ some b
    → request_taken id till request bills ≡ true
unfolding bill_state find_request request_taken
find-request_taken id till request [] {b} fresh h = cc
find-request_taken id till request (x ∷ bills) {b} fresh h = elim (Bool-cases (x.id == id)) [
  | inl e ↦ absurd (ground arith)
  | inr e ↦ elim (Bool-cases (bears till request x)) [
    | inl k ↦ rw (e, k) refl
    | inr k ↦
        rw (e, k) (find-request_taken id till request bills {b = b} (ground arith) (ground arith))
  ]
]

pub record_lem :
    (failing : Bool) (bills : List Bill) (ident : BillIdentity) {o : Bill}
    → request_record failing bills ident ≡ ok (some o)
    → find_request (nil_if_empty ident.pos_id) (nil_if_empty ident.bill_request_id) bills ≡ some o
unfolding request_record
record_lem failing bills ident h = ground arith

pub answer_recorded_request-Replays :
    (b : Bill) (ident : BillIdentity) (draft : Option ℕ)
    → OnOk (Replays b ident) (answer_recorded_request ident draft b)
unfolding answer_recorded_request
answer_recorded_request-Replays b ident draft =
    elim (Bool-cases (is_same_bill draft b.id && is_same_content b ident)) [
      | inl e ↦ rw e (refl, ground arith)
      | inr e ↦ rw e tt
    ]

pub answer_record-Replays :
    (b : Bill) (ident : BillIdentity) (draft : Option ℕ) (other : Refusal)
    (found : Result Refusal (Option Bill))
    → ((o : Bill) → found ≡ ok (some o) → o ≡ b)
    → OnOk (Replays b ident) (answer_record other ident draft found)
unfolding answer_record
answer_record-Replays b ident draft other (err r) h = tt
answer_record-Replays b ident draft other (ok none) h = tt
answer_record-Replays b ident draft other (ok (some o)) h =
    subst (λ x. OnOk (Replays b ident) (answer_recorded_request ident draft x)) (sym (h o refl))
      (answer_recorded_request-Replays b ident draft)

pub of_result_rule :
    (b : Bill) (ident : BillIdentity) (r : Result Refusal Saved) (s : Sales)
    → OnOk (Replays b ident) r
    → Post (λ a t. Replays b ident a) (of_result r s)
unfolding Post
of_result_rule b ident (ok a) s h = h
of_result_rule b ident (err r) s h = tt

pub open_sale_bill-new :
    (c : Context) (f : SaleFaults) (request : AddBillRequest) (s : Sales)
    → Post
        (λ (o : ℕ × Bool) t.
          (o ≡ (c.next_bill, false))
          × (t.bills ≡ new_bill c.next_bill c.now request.store_id c.user_id ∷ s.bills))
        (open_sale_bill c f request none s)
unfolding open_sale_bill Post
open_sale_bill-new c f request s = elim (Bool-cases f.create) [
  | inl e ↦ rw e tt
  | inr e ↦ rw e (refl, refl)
]

pub new-request_taken :
    (id now store : ℕ) (user : ℤ) (till request : Option String) (bills : List Bill)
    → request_taken id till request bills ≡ true
    → request_taken id till request (new_bill id now store user ∷ bills) ≡ true
unfolding request_taken new_bill
new-request_taken id now store user till request bills h = ground arith
