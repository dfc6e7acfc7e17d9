-- ===== src/Sale/Written.antt =====
-- What a sale that is written leaves in the tables (writeSale of pkg/handlers/bill_sale.go).
use ifritah_go.Prelude.{
  ℕ, String, str_eq, Bool, true, false, ◌||◌, Option, none, some, List, ◌≡◌, refl, ◌∙◌, arith, inl,
  inr, ℤ, Bool-cases, Result, ok, err,
}
use ifritah_go.Sale.Table.{Bill, Sales, bill_state, request_taken, number_taken, update_bill}
use ifritah_go.Sale.Request.{AddBillRequest, BillIdentity, Refusal, sale_fingerprint, already_final}
use ifritah_go.Sale.Step.{Step, pure, ◌>>=◌}
use ifritah_go.Sale.Write.{
  Context, SaleFaults, nil_if_empty, open_sale_bill, number_sale, sale_bill, update_sale_bill,
}
use ifritah_go.Sale.Complete.{write_total, complete_sale, record_sale_payment}
use ifritah_go.Sale.Handler.{
  Saved, recorded, written, delete_old_lines, finish_completed, finish_sale, write_finished,
  write_numbered, write_opened, write_draft, write_bill, answer_or, request_record,
  sale_transaction,
}
use ifritah_go.Sale.Rules.{Post, bind_rule, then_rule, weaken_rule}
use ifritah_go.Sale.Finish.{complete_sale-Keeps}
use ifritah_go.Sale.Record.{
  Stands, Stands-write_total, Stands-update, sale_bill-bears, sale_bill-Marks,
}
use ifritah_go.Sale.Identified.{Identifies}
use ifritah_go.Sale.Paid.{IsClear, IsSettled, record_sale_payment-IsSettled}
use ifritah_go.Sale.Opened.{
  opened_id, Opened, open_sale_bill-Opened, IsClear-same, number_sale-bills, delete_old_lines-Keeps,
  NotWritten, answer_recorded_request-NotWritten, answer_record-NotWritten,
}

module _ (c : Context) (request : AddBillRequest) (draft : Option ℕ)
    (P : ℕ → List Bill → Type 0) where
  abbrev pub Ends : ℕ → Sales → Type 0
  Ends id t = P id t.bills × IsSettled c request id t

  -- The statement of a written sale; a recorded one is another theorem's.
  abbrev pub WrittenEnds : Saved → Sales → Type 0
  WrittenEnds (recorded id) t = Unit
  WrittenEnds (written id warned) t = (id ≡ opened_id c draft) × Ends id t

-- A property of the bills that the update gives and new totals keep, of the sale of one identity.
module _ (c : Context) (f : SaleFaults) (request : AddBillRequest) (ident : BillIdentity)
    (draft : Option ℕ) (P : ℕ → List Bill → Type 0)
    (kept : (id other : ℕ) (total : ℤ) (bills : List Bill)
      → P id bills
      → P id (update_bill other (write_total total) bills))
    (given : (id : ℕ) (n : Option ℕ) (bills : List Bill) (st : ℤ)
      → bill_state id bills ≡ some st
      → number_taken id (some request.branch_id) n bills ≡ false
      → request_taken id (nil_if_empty ident.pos_id) (nil_if_empty ident.bill_request_id) bills
        ≡ false
      → P id (update_bill id (sale_bill c request n ident) bills)) where
  finish_sale-Ends :
      (id : ℕ) (number : Option ℕ) (s : Sales)
      → P id s.bills
      → IsClear draft id s
      → Post
          (λ (w : Bool) t. Ends c request draft P id t)
          (finish_sale c f request id number ident draft s)
  unfolding finish_sale
  finish_sale-Ends id number s h clear =
      then_rule (λ u t. P id t.bills × (t.payments ≡ s.payments))
        (λ (w : Bool) t. Ends c request draft P id t) (delete_old_lines f.delete_lines id draft)
        (complete_sale c f request id number ident >>= finish_completed c f request id draft) s
        (delete_old_lines-Keeps (P id) f.delete_lines id draft s h)
        (λ u t k.
          bind_rule (λ (w : Bool) v. P id v.bills × (v.payments ≡ t.payments))
            (λ (w : Bool) v. Ends c request draft P id v)
            (complete_sale c f request id number ident) (finish_completed c f request id draft) t
            (complete_sale-Keeps (P id) (kept id) c f request id number ident t k.0)
            (λ w v k'.
              then_rule (λ u x. (x.bills ≡ v.bills) × IsSettled c request id x)
                (λ (w : Bool) x. Ends c request draft P id x)
                (record_sale_payment c f request id draft) (pure w) v
                (record_sale_payment-IsSettled c f request id draft v
                  (IsClear-same draft id s v (k'.1 ∙ k.1) clear))
                (λ u x k''. unfold Post in (rw k''.0 k'.0, k''.1))))

  of_NotWritten : (a : Saved) (t : Sales) → NotWritten a → WrittenEnds c request draft P a t
  of_NotWritten (recorded id) t h = tt
  of_NotWritten (written id warned) t h = absurd h

  write_finished-Ends :
      (id : ℕ) (number : Option ℕ) (s : Sales)
      → id ≡ opened_id c draft
      → P id s.bills
      → IsClear draft id s
      → Post (WrittenEnds c request draft P) (write_finished c f request ident draft id number s)
  write_finished-Ends id number s e h clear =
      bind_rule (λ (w : Bool) t. Ends c request draft P id t) (WrittenEnds c request draft P)
        (finish_sale c f request id number ident draft) (λ warned. pure (written id warned)) s
        (finish_sale-Ends id number s h clear) (λ w t k. unfold Post in (e, k))

  update_sale_bill-Given :
      (id : ℕ) (number : Option ℕ) (s : Sales) (st : ℤ)
      → bill_state id s.bills ≡ some st
      → Post
          (λ u t. P id t.bills × (t.payments ≡ s.payments))
          (update_sale_bill c f request id number ident s)
  unfolding update_sale_bill
  update_sale_bill-Given id number s st there =
      elim (Bool-cases (f.update || number_taken id (some request.branch_id) number s.bills)) [
        | inl e ↦ rw e (unfold Post in tt)
        | inr e ↦
            elim (Bool-cases (
              request_taken id (nil_if_empty ident.pos_id) (nil_if_empty ident.bill_request_id)
                s.bills)) [
                  | inl k ↦ rw (e, k) (unfold Post in tt)
                  | inr k ↦
                      rw (e, k)
                        (unfold Post in (given id number s.bills st there (ground arith) k, refl))
                ]
      ]

  write_opened-Ends :
      (id : ℕ) (s : Sales)
      → Opened c draft id s
      → Post (WrittenEnds c request draft P) (write_opened c f request ident draft id s)
  unfolding write_opened
  write_opened-Ends id s (e, clear, (st, there)) =
      bind_rule (λ n t. (t.bills ≡ s.bills) × (t.payments ≡ s.payments))
        (WrittenEnds c request draft P) (number_sale f request)
        (write_numbered c f request ident draft id) s (number_sale-bills f request s)
        (λ n t h.
          then_rule (λ u v. P id v.bills × (v.payments ≡ t.payments))
            (WrittenEnds c request draft P) (update_sale_bill c f request id n ident)
            (write_finished c f request ident draft id n) t
            (update_sale_bill-Given id n t st (rw h.0 there))
            (λ u v k.
              write_finished-Ends id n v e k.0 (IsClear-same draft id s v (k.1 ∙ h.1) clear)))

  write_draft-Ends :
      (o : ℕ × Bool) (s : Sales)
      → Opened c draft o.0 s
      → Post (WrittenEnds c request draft P) (write_draft c f request ident draft o s)
  unfolding write_draft
  write_draft-Ends (id, true) s h =
      weaken_rule (λ a t. NotWritten a) (WrittenEnds c request draft P) _ of_NotWritten
        (answer_record-NotWritten already_final ident draft (request_record f.lookup c.view ident)
          s)
  write_draft-Ends (id, false) s h = write_opened-Ends id s h

  pub write_bill-Ends :
      (s : Sales)
      → IsClear draft (opened_id c draft) s
      → Post (WrittenEnds c request draft P) (write_bill c f request ident draft s)
  unfolding write_bill
  write_bill-Ends s clear =
      bind_rule (λ o t. Opened c draft o.0 t) (WrittenEnds c request draft P)
        (open_sale_bill c f request draft) (write_draft c f request ident draft) s
        (open_sale_bill-Opened c f request draft s clear) write_draft-Ends

answered_rule :
    (ident : BillIdentity) (write : Step Saved) (found : Result Refusal (Option Bill)) (s : Sales)
    (Q : Saved → Sales → Type 0)
    → ((a : Saved) (t : Sales) → NotWritten a → Q a t)
    → Post Q (write s)
    → Post Q (answer_or ident write found s)
answered_rule ident write (err r) s Q other h = unfold Post in tt
answered_rule ident write (ok none) s Q other h = h
answered_rule ident write (ok (some b)) s Q other h =
    weaken_rule (λ a t. NotWritten a) Q _ other (answer_recorded_request-NotWritten ident none b s)

-- The answer to a record that the first read finds, or the write.
transaction_rule :
    (c : Context) (f : SaleFaults) (request : AddBillRequest) (ident : BillIdentity)
    (draft : Option ℕ) (s : Sales) (Q : Saved → Sales → Type 0)
    → ((a : Saved) (t : Sales) → NotWritten a → Q a t)
    → Post Q (write_bill c f request ident draft s)
    → Post Q (sale_transaction c f request ident draft s)
unfolding sale_transaction
transaction_rule c f request ident none s Q other h =
    answered_rule ident (write_bill c f request ident none) (request_record f.lookup c.view ident) s
      Q other h
transaction_rule c f request ident (some d) s Q other h = h

module _ (c : Context) (request : AddBillRequest) where
  -- What a sale that is written leaves: its request id stands on its bill with the fingerprint of its
  -- content, and the bill's payments are as the request says.
  abbrev pub IsWritten : Option ℕ → ℕ → Sales → Type 0
  IsWritten draft id t =
      (id ≡ opened_id c draft)
      × ((print : String) × (sale_fingerprint c.fingerprint request ≡ some print)
          × Stands (some request.pos_id) (some request.bill_request_id) id print t.bills)
      × IsSettled c request id t

  abbrev pub AreWritten : Option ℕ → Saved → Sales → Type 0
  AreWritten draft (recorded id) t = Unit
  AreWritten draft (written id warned) t = IsWritten draft id t

  of_NotWritten' : (draft : Option ℕ) (a : Saved) (t : Sales) → NotWritten a → AreWritten draft a t
  of_NotWritten' draft (recorded id) t h = tt
  of_NotWritten' draft (written id warned) t h = absurd h

  of_WrittenEnds :
      (draft : Option ℕ) (ident : BillIdentity)
      → sale_fingerprint c.fingerprint request ≡ some ident.fingerprint
      → (a : Saved) (t : Sales)
      → WrittenEnds c request draft
          (λ id bills.
            Stands (some request.pos_id) (some request.bill_request_id) id ident.fingerprint bills)
          a
          t
      → AreWritten draft a t
  of_WrittenEnds draft ident print (recorded id) t h = tt
  of_WrittenEnds draft ident print (written id warned) t (e, (stands, settled)) =
      (e, (ident.fingerprint, print, stands), settled)

  pub sale_transaction-AreWritten :
      (f : SaleFaults) (ident : BillIdentity) (draft : Option ℕ) (s : Sales)
      → Identifies c request ident
      → str_eq ident.fingerprint "" ≡ false
      → IsClear draft (opened_id c draft) s
      → Post (AreWritten draft) (sale_transaction c f request ident draft s)
  sale_transaction-AreWritten f ident draft s (p, r, print, given) printed clear =
      let P : ℕ → List Bill → Type 0 = λ id bills.
        Stands (some request.pos_id) (some request.bill_request_id) id ident.fingerprint bills in
      transaction_rule c f request ident draft s (AreWritten draft) (of_NotWritten' draft) (
        weaken_rule (WrittenEnds c request draft P) (AreWritten draft)
          (write_bill c f request ident draft s) (of_WrittenEnds draft ident print)
          (write_bill-Ends c f request ident draft P
            (λ id other total bills h.
              Stands-write_total (some request.pos_id) (some request.bill_request_id) id
                ident.fingerprint other total bills h)
            (λ id n bills st there numbered free.
              Stands-update (some request.pos_id) (some request.bill_request_id) id
                ident.fingerprint (sale_bill c request n ident) bills {st = st}
                (λ b. sale_bill-bears c request n ident b p r)
                (λ b e. sale_bill-Marks c request n ident id b e printed) (cc (p, r, free)) there)
            s clear))
