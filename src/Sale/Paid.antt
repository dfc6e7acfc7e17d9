-- ===== src/Sale/Paid.antt =====
-- The payment of a sale (recordSalePayment of pkg/handlers/bill_sale.go).
use ifritah_go.Prelude.{
  ℕ, Bool, true, false, Option, none, some, List, [], ◌∷◌, ◌++◌, ◌≡◌, refl, ◌∙◌, arith, inl, inr,
  ◌==◌, ==_refl, if◌then◌else◌, ℤ, pos, ltb_ℤ, Bool-cases, select, found_unless,
}
use ifritah_go.Sale.Table.{Payment, Sales, bill_total, payments_without}
use ifritah_go.Sale.Request.{AddBillRequest, hundredths, database}
use ifritah_go.Sale.Step.{pure, of_option}
use ifritah_go.Sale.Write.{Context, SaleFaults}
use ifritah_go.Sale.Complete.{
  drop_payments, write_payment, sale_payment, clear_payments, total_of, insert_payment, pay_total,
  pay, record_sale_payment,
}
use ifritah_go.Sale.Rules.{Post, bind_rule, then_rule, statement_rule, of_option_rule, weaken_rule}

abbrev pub payments_of : ℕ → List Payment → List Payment
payments_of id payments = select (λ p. p.bill_id == id) payments

abbrev pub is_paid : AddBillRequest → Bool
is_paid request = ltb_ℤ (pos 0) request.paid_amount.coefficient

-- The payment that a request asks for is the only one of its bill, and the bill's total covers it.
abbrev pub IsPaid : Context → AddBillRequest → ℕ → Sales → Type 0
IsPaid c request id t =
    (total : ℤ) × (currency : ℕ) × (bill_total id t.bills ≡ some total)
    × (ltb_ℤ total (hundredths request.paid_amount) ≡ false)
    × (payments_of id t.payments ≡ sale_payment c request id currency ∷ [])

-- A paid amount of zero is no payment.
abbrev pub IsSettled : Context → AddBillRequest → ℕ → Sales → Type 0
IsSettled c request id t =
    (is_paid request ≡ true → IsPaid c request id t)
    × (is_paid request ≡ false → payments_of id t.payments ≡ [])

-- A new bill has no payment yet, and a draft's are dropped.
abbrev pub IsClear : Option ℕ → ℕ → Sales → Type 0
IsClear none id s = payments_of id s.payments ≡ []
IsClear (some d) id s = Unit

payments_of-payments_without :
    (id : ℕ) (payments : List Payment) → payments_of id (payments_without id payments) ≡ []
unfolding payments_without
payments_of-payments_without id [] = refl
payments_of-payments_without id (p ∷ payments) = elim (Bool-cases (p.bill_id == id)) [
  | inl e ↦ rw e (payments_of-payments_without id payments)
  | inr e ↦ rw e (rw e (payments_of-payments_without id payments))
]

payments_of-append :
    (p : Payment) (payments : List Payment)
    → payments_of p.bill_id payments ≡ []
    → payments_of p.bill_id (payments ++ (p ∷ [])) ≡ p ∷ []
payments_of-append p [] h = rw (==_refl p.bill_id) refl
payments_of-append p (x ∷ payments) h = elim (Bool-cases (x.bill_id == p.bill_id)) [
  | inl e ↦ absurd (ground arith)
  | inr e ↦ rw e (payments_of-append p payments (ground arith))
]

abbrev Cleared : ℕ → Sales → Sales → Type 0
Cleared id s t = (t.bills ≡ s.bills) × (payments_of id t.payments ≡ [])

clear_payments-Cleared :
    (failing : Bool) (id : ℕ) (draft : Option ℕ) (s : Sales)
    → IsClear draft id s
    → Post (λ u t. Cleared id s t) (clear_payments failing id draft s)
clear_payments-Cleared failing id none s h = unfold Post in (refl, h)
clear_payments-Cleared failing id (some d) s h =
    statement_rule (λ u t. Cleared id s t) failing database (drop_payments id) s
      (refl, payments_of-payments_without id s.payments)

module _ (c : Context) (f : SaleFaults) (request : AddBillRequest) (id : ℕ) where
  pay_total-IsPaid :
      (total : ℤ) (s : Sales)
      → bill_total id s.bills ≡ some total
      → payments_of id s.payments ≡ []
      → Post (λ u t. (t.bills ≡ s.bills) × IsPaid c request id t) (pay_total c f request id total s)
  pay_total-IsPaid total s found none_yet =
      elim (Bool-cases (ltb_ℤ total (hundredths request.paid_amount))) [
        | inl e ↦ rw e (unfold Post in tt)
        | inr e ↦ rw e (
            bind_rule (λ n t. t ≡ s) (λ u t. (t.bills ≡ s.bills) × IsPaid c request id t)
              (of_option database c.currency) (insert_payment c f request id) s
              (of_option_rule (λ n t. t ≡ s) database c.currency s (λ n h. refl))
              (λ n t same.
                statement_rule (λ u t. (t.bills ≡ s.bills) × IsPaid c request id t) f.insert_payment
                  database (write_payment (sale_payment c request id n)) t
                  (rw same (
                    refl,
                    (
                      total,
                      n,
                      found,
                      e,
                      payments_of-append (sale_payment c request id n) s.payments none_yet,
                    ),
                  ))))
      ]

  pay-IsPaid :
      (s : Sales)
      → payments_of id s.payments ≡ []
      → Post (λ u t. (t.bills ≡ s.bills) × IsPaid c request id t) (pay c f request id s)
  pay-IsPaid s none_yet =
      bind_rule (λ total t. (t ≡ s) × (bill_total id s.bills ≡ some total))
        (λ u t. (t.bills ≡ s.bills) × IsPaid c request id t) (total_of f.total id)
        (pay_total c f request id) s
        (of_option_rule (λ total t. (t ≡ s) × (bill_total id s.bills ≡ some total)) database _ s
          (λ total h. (refl, found_unless f.total (bill_total id s.bills) h)))
        (λ total t h. rw h.0 (pay_total-IsPaid total s h.1 none_yet))

  paid-IsSettled :
      (paid : Bool) (s t : Sales)
      → is_paid request ≡ paid
      → Cleared id s t
      → Post
          (λ u v. (v.bills ≡ s.bills) × IsSettled c request id v)
          ((if paid then pay c f request id else pure tt) t)
  paid-IsSettled true s t e h =
      weaken_rule (λ u v. (v.bills ≡ t.bills) × IsPaid c request id v)
        (λ u v. (v.bills ≡ s.bills) × IsSettled c request id v) (pay c f request id t)
        (λ u v k. (k.0 ∙ h.0, ((λ yes. k.1), λ no. absurd (ground arith)))) (pay-IsPaid t h.1)
  paid-IsSettled false s t e h = unfold Post in (h.0, ((λ yes. absurd (ground arith)), λ no. h.1))

  pub record_sale_payment-IsSettled :
      (draft : Option ℕ) (s : Sales)
      → IsClear draft id s
      → Post
          (λ u t. (t.bills ≡ s.bills) × IsSettled c request id t)
          (record_sale_payment c f request id draft s)
  unfolding record_sale_payment
  record_sale_payment-IsSettled draft s clear =
      then_rule (λ u t. Cleared id s t) (λ u t. (t.bills ≡ s.bills) × IsSettled c request id t)
        (clear_payments f.delete_payments id draft)
        (if is_paid request then pay c f request id else pure tt) s
        (clear_payments-Cleared f.delete_payments id draft s clear)
        (λ u t h. paid-IsSettled (is_paid request) s t refl h)
