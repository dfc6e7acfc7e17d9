-- ===== src/Sale/Replay.antt =====
-- A sale whose request id is already recorded (writeSale of pkg/handlers/bill_sale.go), when the
-- record is seen at once and when only the unique key finds it.
use mathlib.Core.Path.{subst}
use ifritah_go.Prelude.{
  ℕ, str_eq_iff, Bool, true, false, Option, none, some, ◌∷◌, ◌≡◌, refl, sym, ap, ◌∙◌, arith, inl,
  inr, Result, ok, err, Option-cases,
}
use ifritah_go.Sale.Table.{Bill, Sales, find_request, bill_state, request_taken, new_bill}
use ifritah_go.Sale.Request.{
  AddBillRequest, BillIdentity, Refusal, is_final, sale_fingerprint, duplicate_sale,
}
use ifritah_go.Sale.Step.{Failure, of_result}
use ifritah_go.Sale.Write.{
  Context, SaleFaults, nil_if_empty, open_sale_bill, number_sale, update_sale_bill,
}
use ifritah_go.Sale.Handler.{
  Saved, recorded, written, request_record, answer_recorded_request, write_finished, write_numbered,
  write_opened, write_draft, write_bill, answer_or, sale_transaction, end_sale, write_sale,
  save_sale, check_sale, save_checked,
}
use ifritah_go.Sale.Rules.{impossible_rule, Post, bind_rule, then_rule}
use ifritah_go.Sale.Identified.{Identifies, OnOk, of_ok, check_sale-Identifies}
use ifritah_go.Sale.Opened.{number_sale-bills}
use ifritah_go.Sale.Answers.{
  Replays, IsOriginal, find-request_taken, record_lem, answer_recorded_request-Replays,
  answer_record-Replays, of_result_rule, open_sale_bill-new, new-request_taken,
}

module _ (c : Context) (f : SaleFaults) (request : AddBillRequest) (ident : BillIdentity)
    (id : ℕ) where
  update-taken :
      (sequence : Option ℕ) (s : Sales)
      → request_taken id (nil_if_empty ident.pos_id) (nil_if_empty ident.bill_request_id) s.bills
        ≡ true
      → Post (λ (u : Unit {0}) t. ⊥) (update_sale_bill c f request id sequence ident s)
  unfolding update_sale_bill Post
  update-taken sequence s h = rw h (ground arith)

  write_opened-taken :
      (draft : Option ℕ) (s : Sales)
      → request_taken id (nil_if_empty ident.pos_id) (nil_if_empty ident.bill_request_id) s.bills
        ≡ true
      → Post (λ (a : Saved) t. ⊥) (write_opened c f request ident draft id s)
  unfolding write_opened
  write_opened-taken draft s h =
      bind_rule (λ (n : Option ℕ) t. (t.bills ≡ s.bills) × (t.payments ≡ s.payments))
        (λ (a : Saved) t. ⊥) (number_sale f request) (write_numbered c f request ident draft id) s
        (number_sale-bills f request s)
        (λ n t same.
          then_rule (λ (u : Unit {0}) t. ⊥) (λ (a : Saved) t. ⊥)
            (update_sale_bill c f request id n ident) (write_finished c f request ident draft id n)
            t (update-taken n t (rw same.0 h)) (λ u t no. absurd no))

module _ (c : Context) (f : SaleFaults) (request : AddBillRequest) (ident : BillIdentity) (b : Bill)
    (s : Sales) (fresh : bill_state c.next_bill s.bills ≡ none)
    (stands : find_request (nil_if_empty ident.pos_id) (nil_if_empty ident.bill_request_id) s.bills
      ≡ some b)
    (seen : (o : Bill)
      → find_request (nil_if_empty ident.pos_id) (nil_if_empty ident.bill_request_id) c.view
        ≡ some o
      → o ≡ b) where
  write_draft-Replays :
      (o : ℕ × Bool) (t : Sales)
      → o ≡ (c.next_bill, false)
      → t.bills ≡ new_bill c.next_bill c.now request.store_id c.user_id ∷ s.bills
      → Post (λ a t. Replays b ident a) (write_draft c f request ident none o t)
  unfolding write_draft
  write_draft-Replays o t e same = rw e (
      impossible_rule (λ a t. Replays b ident a) (write_opened c f request ident none c.next_bill t)
        (write_opened-taken c f request ident c.next_bill none t (
          rw same (
            new-request_taken c.next_bill c.now request.store_id c.user_id _ _ s.bills
              (find-request_taken c.next_bill _ _ s.bills {b = b} fresh stands)))))

  write_bill-Replays : Post (λ a t. Replays b ident a) (write_bill c f request ident none s)
  unfolding write_bill
  write_bill-Replays =
      bind_rule
        (λ (o : ℕ × Bool) t.
          (o ≡ (c.next_bill, false))
          × (t.bills ≡ new_bill c.next_bill c.now request.store_id c.user_id ∷ s.bills))
        (λ a t. Replays b ident a) (open_sale_bill c f request none)
        (write_draft c f request ident none) s (open_sale_bill-new c f request s)
        (λ o t h. write_draft-Replays o t h.0 h.1)

  recorded-Replays :
      (found : Result Refusal (Option Bill))
      → request_record f.lookup c.view ident ≡ found
      → Post
          (λ a t. Replays b ident a)
          (answer_or ident (write_bill c f request ident none) found s)
  unfolding Post
  recorded-Replays (err r) e = tt
  recorded-Replays (ok none) e = write_bill-Replays
  recorded-Replays (ok (some o)) e =
      subst
        (λ x. Post (λ a t. Replays b ident a) (of_result (answer_recorded_request ident none x) s))
        (sym (seen o (record_lem f.lookup c.view ident e)))
        (of_result_rule b ident _ s (answer_recorded_request-Replays b ident none))

  same_bill :
      (o : Bill)
      → find_request (nil_if_empty ident.pos_id) (nil_if_empty ident.bill_request_id) s.bills
        ≡ some o
      → o ≡ b
  same_bill o e = cc

  end_sale-Replays :
      (v : Result Failure Saved × Sales)
      → Post (λ a t. Replays b ident a) v
      → let (answer, t) = end_sale f ident none s v in (t ≡ s) × OnOk (Replays b ident) answer
  unfolding end_sale Post
  end_sale-Replays (ok (recorded id), t) h = (refl, h)
  end_sale-Replays (ok (written id warned), t) h = absurd h
  end_sale-Replays (err (Failure.refused r), t) h = (refl, tt)
  end_sale-Replays (err Failure.lost_race, t) h = (
    refl,
    answer_record-Replays b ident none duplicate_sale _
        (λ o e. same_bill o (record_lem f.reread s.bills ident e)),
  )

Replays-IsOriginal :
    (c : Context) (request : AddBillRequest) (b : Bill) (ident : BillIdentity)
    (answer : Result Refusal Saved)
    → sale_fingerprint c.fingerprint request ≡ some ident.fingerprint
    → OnOk (Replays b ident) answer
    → OnOk (IsOriginal c request b) answer
Replays-IsOriginal c request b ident (err r) print h = tt
Replays-IsOriginal c request b ident (ok (written id warned)) print h = h
Replays-IsOriginal c request b ident (ok (recorded id)) print h =
    elim (Option-cases b.request_fingerprint) [
      | inl e ↦ absurd (ground arith)
      | inr (p, e) ↦ (
        h.0,
        e ∙ (ap some ((str_eq_iff p ident.fingerprint).0 (ground arith)) ∙ sym print),
        ground arith,
      )
    ]

checked-IsOriginal :
    (c : Context) (f : SaleFaults) (request : AddBillRequest) (s : Sales) (b : Bill)
    (checked : Result Refusal BillIdentity)
    → check_sale c f request ≡ checked
    → is_final request ≡ true
    → find_request (some request.pos_id) (some request.bill_request_id) s.bills ≡ some b
    → ((o : Bill)
        → find_request (some request.pos_id) (some request.bill_request_id) c.view ≡ some o
        → o ≡ b)
    → bill_state c.next_bill s.bills ≡ none
    → let (answer, t) = save_checked c f request none s checked in
      (t ≡ s) × OnOk (IsOriginal c request b) answer
unfolding write_sale sale_transaction
checked-IsOriginal c f request s b (err r) e final stands seen fresh = (refl, tt)
checked-IsOriginal c f request s b (ok ident) e final stands seen fresh =
    let (p, r, print, given) =
      of_ok (Identifies c request) e (check_sale-Identifies c f request final) in
    let stands' : find_request (nil_if_empty ident.pos_id) (nil_if_empty ident.bill_request_id)
          s.bills
        ≡ some b =
      rw (p, r) stands in
    let seen' : (o : Bill)
        → find_request (nil_if_empty ident.pos_id) (nil_if_empty ident.bill_request_id) c.view
          ≡ some o
        → o ≡ b =
      λ o h. seen o (cc (p, r, h)) in
    let (same, answer) =
      end_sale-Replays c f request ident b s fresh stands' seen'
        (sale_transaction c f request ident none s)
        (recorded-Replays c f request ident b s fresh stands' seen' _ refl) in
    (same, Replays-IsOriginal c request b ident _ print answer)

-- A new final sale whose request id is recorded on a bill writes nothing, whether its reads see that
-- bill or only the unique key finds it, and whatever fails: the tables stay as they are, and the answer,
-- if it is no refusal, is that bill, which then has the same content. Its reads are to see that bill or
-- none, and the id that a new bill would get is to be fresh.
-- Prices have at most two places and quantities three.
pub save_sale-recorded :
    (c : Context) (f : SaleFaults) (request : AddBillRequest) (s : Sales) (b : Bill)
    → is_final request ≡ true
    → find_request (some request.pos_id) (some request.bill_request_id) s.bills ≡ some b
    → ((o : Bill)
        → find_request (some request.pos_id) (some request.bill_request_id) c.view ≡ some o
        → o ≡ b)
    → bill_state c.next_bill s.bills ≡ none
    → let (answer, t) = save_sale c f request none s in
      (t ≡ s) × OnOk (IsOriginal c request b) answer
unfolding save_sale
save_sale-recorded c f request s b final stands seen fresh =
    checked-IsOriginal c f request s b _ refl final stands seen fresh
