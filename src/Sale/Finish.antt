-- ===== src/Sale/Finish.antt =====
-- What the statements after a sale's bill row leave of the bills and payments (completeSale and
-- recordSalePayment of pkg/handlers/sale.go and bill_sale.go).
use ifritah_go.Prelude.{
  ℕ, suc, str_eq, Bool, not, ◌||◌, Option, none, some, List, [], ◌∷◌, ◌≡◌, refl, ◌∙◌, inl, inr, ℤ,
  pos, leb_ℤ, Result, ok, err, Bool-cases,
}
use ifritah_go.Stock.Table.{Stock, stock_enforcement_disable}
use ifritah_go.Stock.Movements.{StockError, StockWarning, BillProduct, get_stock_enforcement_mode}
use ifritah_go.Outbox.Table.{OutboxRow}
use ifritah_go.Outbox.Append.{AppendError, Event}
use ifritah_go.Sale.Table.{Bill, Sales, update_bill, sum_of_lines}
use ifritah_go.Sale.Request.{
  AddBillRequest, BillIdentity, is_final, line_failed, database, sale_products,
}
use ifritah_go.Sale.Step.{pure, ◌>>◌}
use ifritah_go.Sale.Write.{Context, SaleFaults}
use ifritah_go.Sale.Complete.{
  insert_line, add_line, refresh, write_total, add_product_to_bill, refresh_bill_totals,
  stock_recorded, record_sale_stock, appended, queue_event, queue_sale_event, complete_event,
  complete_stock, complete_sale,
}
use ifritah_go.Sale.Rules.{Post, bind_rule, then_rule, statement_rule, weaken_rule}

-- The bills and the payments stay.
abbrev pub Apart : Sales → Sales → Type 0
Apart s t = (t.bills ≡ s.bills) × (t.payments ≡ s.payments)

Apart-trans : (s t u : Sales) → Apart s t → Apart t u → Apart s u
Apart-trans s t u h k = (k.0 ∙ h.0, k.1 ∙ h.1)

add_product_to_bill-Apart :
    (f : ℕ → Bool) (i id : ℕ) (products : List BillProduct) (s : Sales)
    → Post (λ u t. Apart s t) (add_product_to_bill f i id products s)
unfolding add_product_to_bill
add_product_to_bill-Apart f i id [] s = unfold Post in (refl, refl)
add_product_to_bill-Apart f i id (p ∷ products) s =
    then_rule (λ u t. Apart s t) (λ u t. Apart s t) (add_line (f i) id p)
      (add_product_to_bill f (suc i) id products) s
      (statement_rule (λ u t. Apart s t)
        (f i || (leb_ℤ p.price (pos 0) || leb_ℤ p.quantity (pos 0))) line_failed (insert_line id p)
        s (refl, refl))
      (λ u t h.
        weaken_rule (λ u v. Apart t v) (λ u v. Apart s v) _ (λ u v. Apart-trans s t v h)
          (add_product_to_bill-Apart f (suc i) id products t))

stock_recorded-Apart :
    (s : Sales) (r : Result StockError (List StockWarning) × Stock)
    → Post (λ w t. Apart s t) (stock_recorded s r)
unfolding Post
stock_recorded-Apart s (err e, stock) = tt
stock_recorded-Apart s (ok [], stock) = (refl, refl)
stock_recorded-Apart s (ok (w ∷ warnings), stock) = (refl, refl)

record_sale_stock-Apart :
    (c : Context) (f : SaleFaults) (request : AddBillRequest) (number : Option ℕ) (s : Sales)
    → Post (λ w t. Apart s t) (record_sale_stock c f request number s)
unfolding record_sale_stock
record_sale_stock-Apart c f request number s =
    elim (Bool-cases (
      str_eq (get_stock_enforcement_mode c.enforcement) stock_enforcement_disable
      || not (is_final request))) [
        | inl e ↦ rw e (unfold Post in (refl, refl))
        | inr e ↦ rw e (stock_recorded-Apart s _)
      ]

appended-Apart :
    (s : Sales) (r : Result AppendError (Unit {0}) × List OutboxRow)
    → Post (λ u t. Apart s t) (appended s r)
unfolding Post
appended-Apart s (err e, outbox) = tt
appended-Apart s (ok u, outbox) = (refl, refl)

queue_event-Apart :
    (c : Context) (f : SaleFaults) (event : Option Event) (s : Sales)
    → Post (λ u t. Apart s t) (queue_event c f event s)
queue_event-Apart c f none s = unfold Post in tt
queue_event-Apart c f (some event) s = appended-Apart s _

queue_sale_event-Apart :
    (c : Context) (f : SaleFaults) (request : AddBillRequest) (id : ℕ) (ident : BillIdentity)
    (s : Sales)
    → Post (λ u t. Apart s t) (queue_sale_event c f request id ident s)
unfolding queue_sale_event
queue_sale_event-Apart c f request id ident s = elim (Bool-cases (str_eq ident.invoice_uuid "")) [
  | inl e ↦ rw e (unfold Post in (refl, refl))
  | inr e ↦ rw e (queue_event-Apart c f _ s)
]

-- A property of the bills that new totals keep.
module _ (P : List Bill → Type 0)
    (kept : (id : ℕ) (total : ℤ) (bills : List Bill)
      → P bills
      → P (update_bill id (write_total total) bills)) where
  abbrev pub Keeps : Sales → Sales → Type 0
  Keeps s t = P t.bills × (t.payments ≡ s.payments)

  pub complete_sale-Keeps :
      (c : Context) (f : SaleFaults) (request : AddBillRequest) (id : ℕ) (number : Option ℕ)
      (ident : BillIdentity) (s : Sales)
      → P s.bills
      → Post (λ (w : Bool) t. Keeps s t) (complete_sale c f request id number ident s)
  unfolding complete_sale refresh_bill_totals
  complete_sale-Keeps c f request id number ident s h =
      then_rule (λ u t. Keeps s t) (λ w t. Keeps s t)
        (add_product_to_bill f.line 0 id (sale_products request))
        (refresh_bill_totals f.totals id >> complete_stock c f request id number ident) s
        (weaken_rule (λ u t. Apart s t) (λ u t. Keeps s t) _ (λ u t e. (rw e.0 h, e.1))
          (add_product_to_bill-Apart f.line 0 id (sale_products request) s))
        (λ u t k.
          then_rule (λ u v. Keeps s v) (λ w v. Keeps s v) (refresh_bill_totals f.totals id)
            (complete_stock c f request id number ident) t
            (statement_rule (λ u v. Keeps s v) f.totals database (refresh id) t
              (kept id (sum_of_lines id t.lines) t.bills k.0, k.1))
            (λ u v k.
              bind_rule (λ w x. Keeps s x) (λ w x. Keeps s x) (record_sale_stock c f request number)
                (complete_event c f request id ident) v
                (weaken_rule (λ w x. Apart v x) (λ w x. Keeps s x) _
                  (λ w x e. (rw e.0 k.0, e.1 ∙ k.1)) (record_sale_stock-Apart c f request number v))
                (λ w x k.
                  then_rule (λ u y. Keeps s y) (λ w y. Keeps s y)
                    (queue_sale_event c f request id ident) (pure w) x
                    (weaken_rule (λ u y. Apart x y) (λ u y. Keeps s y) _
                      (λ u y e. (rw e.0 k.0, e.1 ∙ k.1))
                      (queue_sale_event-Apart c f request id ident x))
                    (λ u y k. unfold Post in k))))
