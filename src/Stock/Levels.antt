-- ===== src/Stock/Levels.antt =====
-- In enforce mode no sale and no reversal of a purchase takes a stock level below zero
-- (recordSaleMovements and reversePurchaseMovements of pkg/handlers/stock.go).
use mathlib.Core.Path.{subst}
use ifritah_go.Prelude.{
  ℕ, String, ◌||◌, str_eq, true, false, Option, none, some, List, [], ◌∷◌, ◌≡◌, refl, ◌∙◌, inl, inr,
  arith, ◌==◌, ==_iff, ℤ, pos, ◌+ℤ◌, neg_ℤ, ltb_ℤ, ◌≤ℤ◌, +ℤ_parts, neg_ℤ_parts, ok, Bool-cases,
  found_unless, Option-cases, if_rule,
}
use ifritah_go.Stock.Table.{
  Stock, Movement, breaks_check, quantity_of, add_quantity, update_product_quantity,
  insert_stock_movement, stock_enforcement_enforce,
}
use ifritah_go.Stock.Movements.{
  LineFaults, StockWarning, Actor, search_quantity, move, BillProduct, sale_movement, sale_product,
  sale_line, add_warning, sale_lines, record_sale_movements, SavedLine, check_quantity,
  reverse_purchase_product, reverse_purchase_line, reverse_purchase_movements,
}
use ifritah_go.Stock.Ledger.{quantity_of-add_quantity_self, quantity_of-add_quantity_ne}
use ifritah_go.Stock.Rules.{OnOk, of_ok, bind_rule, each_rule}

-- The product is still there, at a level of zero or more.
abbrev pub InStock : ℕ → Stock → Type 0
InStock id s = (q : ℤ) × (quantity_of id s.products ≡ some q) × (pos 0 ≤ℤ q)

abbrev StaysUp : ℕ → Stock → Stock → Type 0
StaysUp id s t = InStock id s → InStock id t

StaysUp-trans : (id : ℕ) (s t u : Stock) → StaysUp id s t → StaysUp id t u → StaysUp id s u
StaysUp-trans id s t u h k e = k (h e)

covered :
    (current quantity : ℤ) → ltb_ℤ current quantity ≡ false → pos 0 ≤ℤ current +ℤ neg_ℤ quantity
covered current quantity h = ground (arith, +ℤ_parts current (neg_ℤ quantity), neg_ℤ_parts quantity)

moved-StaysUp :
    (id j : ℕ) (current quantity : ℤ) (m : Movement) (s : Stock)
    → quantity_of j s.products ≡ some current
    → ltb_ℤ current quantity ≡ false
    → StaysUp id s (insert_stock_movement m (update_product_quantity j (neg_ℤ quantity) s))
unfolding insert_stock_movement update_product_quantity
moved-StaysUp id j current quantity m s found enough (q, e, up) = elim (Bool-cases (j == id)) [
  | inl own ↦
      let level : quantity_of j (add_quantity j (neg_ℤ quantity) s.products)
          ≡ some (current +ℤ neg_ℤ quantity) =
        quantity_of-add_quantity_self j (neg_ℤ quantity) current s.products found in
      (
        current +ℤ neg_ℤ quantity,
        subst
            (λ k.
              quantity_of k (add_quantity j (neg_ℤ quantity) s.products)
              ≡ some (current +ℤ neg_ℤ quantity))
            ((==_iff j id).0 own) level,
        covered current quantity enough,
      )
  | inr other ↦ (q, quantity_of-add_quantity_ne id j (neg_ℤ quantity) s.products other ∙ e, up)
]

move-StaysUp {ℓ} :
    {A : Type ℓ} (id : ℕ) (f : LineFaults) (j : ℕ) (current quantity : ℤ) (m : Movement) (a : A)
    (s : Stock)
    → quantity_of j s.products ≡ some current
    → ltb_ℤ current quantity ≡ false
    → OnOk (StaysUp id s) (move f j (neg_ℤ quantity) m a s)
unfolding move
move-StaysUp id f j current quantity m a s found enough =
    if_rule (OnOk (StaysUp id s)) (f.update || breaks_check j (neg_ℤ quantity) s.products) _ _ tt (
      if_rule (OnOk (StaysUp id s)) f.insert _ _ tt
        (moved-StaysUp id j current quantity m s found enough))

-- In enforce mode: what a step that ends without error does to the level of `id`.
module _ (id : ℕ) (actor : Actor) (enforcement : String)
    (enforced : str_eq enforcement stock_enforcement_enforce ≡ true) where
  sale_product-StaysUp :
      (store_id : ℕ) (seq_number : ℤ) (f : LineFaults) (j : ℕ) (quantity : ℤ) (found : Option ℤ)
      (s : Stock)
      → search_quantity f j s ≡ found
      → OnOk
          (StaysUp id s)
          (sale_product actor store_id seq_number enforcement f j quantity found s)
  unfolding sale_product
  sale_product-StaysUp store_id seq_number f j quantity none s h = λ e. e
  sale_product-StaysUp store_id seq_number f j quantity (some current) s h =
      elim (Bool-cases (ltb_ℤ current quantity)) [
        | inl short ↦ rw (short, enforced) tt
        | inr enough ↦ rw enough (
            move-StaysUp id f j current quantity
              (sale_movement actor store_id seq_number j quantity) none s
              (found_unless f.search (quantity_of j s.products) h) enough)
      ]

  sale_line-StaysUp :
      (store_id : ℕ) (seq_number : ℤ) (p : BillProduct) (f : LineFaults) (s : Stock)
      → OnOk (StaysUp id s) (sale_line actor store_id seq_number enforcement (p, f) s)
  unfolding sale_line
  sale_line-StaysUp store_id seq_number p f s = elim (Option-cases p.product_id) [
    | inl e ↦ rw (e, sale_line) (λ h. h)
    | inr (j, e) ↦
        rw (e, sale_line) (sale_product-StaysUp store_id seq_number f j p.quantity _ s refl)
  ]

  sale_lines-StaysUp :
      (store_id : ℕ) (seq_number : ℤ) (ls : List (BillProduct × LineFaults))
      (warnings : List StockWarning) (s : Stock)
      → OnOk (StaysUp id s) (sale_lines actor store_id seq_number enforcement ls warnings s)
  unfolding sale_lines
  sale_lines-StaysUp store_id seq_number [] warnings s = λ h. h
  sale_lines-StaysUp store_id seq_number ((p, f) ∷ ls) warnings s =
      bind_rule (StaysUp id) (StaysUp-trans id) s
        (sale_line actor store_id seq_number enforcement (p, f) s) _
        (sale_line-StaysUp store_id seq_number p f s)
        (λ w t. sale_lines-StaysUp store_id seq_number ls (add_warning warnings w) t)

  -- The check of a reversal lets a line through only where the level covers it.
  reversed-StaysUp :
      (pb_id : ℕ) (row : SavedLine) (f : LineFaults) (j : ℕ) (found : Option ℤ) (s : Stock)
      → search_quantity f j s ≡ found
      → OnOk
          (StaysUp id s)
          (reverse_purchase_product actor pb_id row f j (check_quantity found row.quantity) s)
  unfolding reverse_purchase_product
  reversed-StaysUp pb_id row f j none s h = λ e. e
  reversed-StaysUp pb_id row f j (some current) s h =
      elim (Bool-cases (ltb_ℤ current row.quantity)) [
        | inl short ↦ rw (short, reverse_purchase_product) tt
        | inr enough ↦
            rw (enough, reverse_purchase_product)
              (move-StaysUp id f j current row.quantity _ tt s
                (found_unless f.search (quantity_of j s.products) h) enough)
      ]

  reverse_purchase_line-StaysUp :
      (pb_id : ℕ) (l : SavedLine × LineFaults) (s : Stock)
      → OnOk (StaysUp id s) (reverse_purchase_line actor pb_id enforcement l s)
  unfolding reverse_purchase_line
  reverse_purchase_line-StaysUp pb_id (row, f) s = elim (Option-cases row.product_id) [
    | inl e ↦ rw (e, reverse_purchase_line) (λ h. h)
    | inr (j, e) ↦
        rw (e, reverse_purchase_line)
          (rw enforced (reversed-StaysUp pb_id row f j (search_quantity f j s) s refl))
  ]

-- In enforce mode a sale that ends without error leaves at zero or more the level of every product
-- that was at zero or more, whatever its lines are and however often they name the product.
pub record_sale_movements-InStock :
    (id : ℕ) (actor : Actor) (store_id : ℕ) (seq_number : ℤ) (ls : List (BillProduct × LineFaults))
    (s : Stock) {warnings : List StockWarning} {t : Stock}
    → record_sale_movements actor store_id seq_number stock_enforcement_enforce ls s
      ≡ (ok warnings, t)
    → InStock id s
    → InStock id t
unfolding record_sale_movements
record_sale_movements-InStock id actor store_id seq_number ls s h =
    of_ok (StaysUp id s) _ h
      (sale_lines-StaysUp id actor stock_enforcement_enforce refl store_id seq_number ls [] s)

each_reversal-StaysUp :
    (id : ℕ) (actor : Actor) (pb_id : ℕ) (rows : Option (List (SavedLine × LineFaults))) (s : Stock)
    → OnOk
        (StaysUp id s)
        (reverse_purchase_movements actor pb_id (some stock_enforcement_enforce) rows s)
unfolding reverse_purchase_movements
each_reversal-StaysUp id actor pb_id none s = tt
each_reversal-StaysUp id actor pb_id (some ls) s =
    each_rule (StaysUp id) (StaysUp-trans id)
      (reverse_purchase_line actor pb_id stock_enforcement_enforce) (λ t h. h)
      (reverse_purchase_line-StaysUp id actor stock_enforcement_enforce refl pb_id) ls s

-- In enforce mode the reversal of a purchase that ends without error leaves at zero or more the level
-- of every product that was at zero or more.
pub reverse_purchase_movements-InStock :
    (id : ℕ) (actor : Actor) (pb_id : ℕ) (rows : Option (List (SavedLine × LineFaults))) (s : Stock)
    {t : Stock}
    → reverse_purchase_movements actor pb_id (some stock_enforcement_enforce) rows s ≡ (ok tt, t)
    → InStock id s
    → InStock id t
reverse_purchase_movements-InStock id actor pb_id rows s h =
    of_ok (StaysUp id s) _ h (each_reversal-StaysUp id actor pb_id rows s)
