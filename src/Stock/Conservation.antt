-- ===== src/Stock/Conservation.antt =====
-- The four recorders of pkg/handlers/stock.go, against the ledger.
use ifritah_go.Prelude.{
  ℕ, String, str_eq, ◌&&◌, Option, none, some, List, [], ◌∷◌, refl, inl, inr, ℤ, neg_ℤ, ltb_ℤ,
  Bool-cases, Option-cases,
}
use ifritah_go.Stock.Table.{
  Stock, reference_type_bill, stock_enforcement_disable, stock_enforcement_enforce, Note,
}
use ifritah_go.Stock.Movements.{
  LineFaults, StockWarning, Actor, BillProduct, sale_movement, sale_product, sale_line, add_warning,
  sale_lines, record_sale_movements, SavedLine, deletion_movement, reverse_sale_line,
  purchase_movement, purchase_line, Check, pass, skip, block, check_reversal,
  reverse_purchase_product, reverse_purchase_line,
}
use ifritah_go.Stock.Ledger.{Keeps, Keeps-refl, Keeps-trans, move-Keeps}
use ifritah_go.Stock.Rules.{OnOk, bind_rule}

sale_product-Keeps :
    (id : ℕ) (actor : Actor) (store_id : ℕ) (seq_number : ℤ) (enforcement : String) (f : LineFaults)
    (j : ℕ) (quantity : ℤ) (found : Option ℤ) (s : Stock)
    → OnOk (Keeps id s) (sale_product actor store_id seq_number enforcement f j quantity found s)
unfolding sale_product
sale_product-Keeps id actor store_id seq_number enforcement f j quantity none s = Keeps-refl id s
sale_product-Keeps id actor store_id seq_number enforcement f j quantity (some current) s =
    elim (Bool-cases (ltb_ℤ current quantity && str_eq enforcement stock_enforcement_enforce)) [
      | inl e ↦ rw e tt
      | inr e ↦ rw e (
          move-Keeps id f j (neg_ℤ quantity) (sale_movement actor store_id seq_number j quantity) _
            s (unfold sale_movement in refl) (unfold sale_movement in refl))
    ]

sale_line-Keeps :
    (id : ℕ) (actor : Actor) (store_id : ℕ) (seq_number : ℤ) (enforcement : String)
    (p : BillProduct) (f : LineFaults) (s : Stock)
    → OnOk (Keeps id s) (sale_line actor store_id seq_number enforcement (p, f) s)
unfolding sale_line
sale_line-Keeps id actor store_id seq_number enforcement p f s = elim (Option-cases p.product_id) [
  | inl e ↦ rw (e, sale_line) (Keeps-refl id s)
  | inr (j, e) ↦
      rw (e, sale_line)
        (sale_product-Keeps id actor store_id seq_number enforcement f j p.quantity _ s)
]

sale_lines-Keeps :
    (id : ℕ) (actor : Actor) (store_id : ℕ) (seq_number : ℤ) (enforcement : String)
    (ls : List (BillProduct × LineFaults)) (warnings : List StockWarning) (s : Stock)
    → OnOk (Keeps id s) (sale_lines actor store_id seq_number enforcement ls warnings s)
unfolding sale_lines
sale_lines-Keeps id actor store_id seq_number enforcement [] warnings s = Keeps-refl id s
sale_lines-Keeps id actor store_id seq_number enforcement ((p, f) ∷ ls) warnings s =
    bind_rule (Keeps id) (Keeps-trans id) s
      (sale_line actor store_id seq_number enforcement (p, f) s) _
      (sale_line-Keeps id actor store_id seq_number enforcement p f s)
      (λ w t.
        sale_lines-Keeps id actor store_id seq_number enforcement ls (add_warning warnings w) t)

pub record_sale-Keeps :
    (id : ℕ) (actor : Actor) (store_id : ℕ) (seq_number : ℤ) (enforcement : String)
    (ls : List (BillProduct × LineFaults)) (s : Stock)
    → OnOk (Keeps id s) (record_sale_movements actor store_id seq_number enforcement ls s)
unfolding record_sale_movements
record_sale-Keeps id actor store_id seq_number enforcement ls s =
    elim (Bool-cases (str_eq enforcement stock_enforcement_disable)) [
      | inl e ↦ rw e (Keeps-refl id s)
      | inr e ↦ rw e (sale_lines-Keeps id actor store_id seq_number enforcement ls [] s)
    ]

pub reverse_sale_line-Keeps :
    (id : ℕ) (actor : Actor) (bill_id : ℕ) (l : SavedLine × LineFaults) (s : Stock)
    → OnOk (Keeps id s) (reverse_sale_line actor bill_id l s)
unfolding reverse_sale_line
reverse_sale_line-Keeps id actor bill_id (row, f) s = elim (Option-cases row.product_id) [
  | inl e ↦ rw (e, reverse_sale_line) (Keeps-refl id s)
  | inr (j, e) ↦
      rw (e, reverse_sale_line)
        (move-Keeps id f j row.quantity
          (deletion_movement actor reference_type_bill Note.sale_invoice_cancelled bill_id j
            row.quantity row)
          tt s (unfold deletion_movement in refl) (unfold deletion_movement in refl))
]

pub purchase_line-Keeps :
    (id : ℕ) (actor : Actor) (pb_id store_id seq_number : ℕ) (l : SavedLine × LineFaults)
    (s : Stock)
    → OnOk (Keeps id s) (purchase_line actor pb_id store_id seq_number l s)
unfolding purchase_line
purchase_line-Keeps id actor pb_id store_id seq_number (row, f) s =
    elim (Option-cases row.product_id) [
      | inl e ↦ rw (e, purchase_line) (Keeps-refl id s)
      | inr (j, e) ↦
          rw (e, purchase_line)
            (move-Keeps id f j row.quantity
              (purchase_movement actor pb_id store_id seq_number j row.quantity) tt s
              (unfold purchase_movement in refl) (unfold purchase_movement in refl))
    ]

reverse_purchase_product-Keeps :
    (id : ℕ) (actor : Actor) (pb_id : ℕ) (row : SavedLine) (f : LineFaults) (j : ℕ) (c : Check)
    (s : Stock)
    → OnOk (Keeps id s) (reverse_purchase_product actor pb_id row f j c s)
unfolding reverse_purchase_product
reverse_purchase_product-Keeps id actor pb_id row f j skip s = Keeps-refl id s
reverse_purchase_product-Keeps id actor pb_id row f j (block current) s = tt
reverse_purchase_product-Keeps id actor pb_id row f j pass s =
    move-Keeps id f j (neg_ℤ row.quantity) _ tt s (unfold deletion_movement in refl)
      (unfold deletion_movement in refl)

pub reverse_purchase_line-Keeps :
    (id : ℕ) (actor : Actor) (pb_id : ℕ) (enforcement : String) (l : SavedLine × LineFaults)
    (s : Stock)
    → OnOk (Keeps id s) (reverse_purchase_line actor pb_id enforcement l s)
unfolding reverse_purchase_line
reverse_purchase_line-Keeps id actor pb_id enforcement (row, f) s =
    elim (Option-cases row.product_id) [
      | inl e ↦ rw (e, reverse_purchase_line) (Keeps-refl id s)
      | inr (j, e) ↦
          rw (e, reverse_purchase_line)
            (reverse_purchase_product-Keeps id actor pb_id row f j
              (check_reversal enforcement f j row.quantity s) s)
    ]
