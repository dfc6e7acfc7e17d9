-- ===== src/Sale/Deleted.antt =====
-- What the deletion of a bill (DeleteBillDetail of pkg/handlers/bill.go) does to its row and to the stock.
use mathlib.Core.Path.{subst}
use ifritah_go.Prelude.{
  ℕ, suc, str_eq, Bool, true, false, ◌||◌, Option, none, some, List, [], ◌∷◌, ◌≡◌, ◌⊎◌, refl, sym,
  ◌∙◌, ap, inl, inr, if◌then◌else◌, ◌==◌, ==_iff, ℤ, pos, negsuc, ◌+ℤ◌, eq_ℤ, eq_ℤ-sound, int_laws,
  Bool-cases, Option-cases, Result, ok, err, map, find_row, if_rule,
}
use ifritah_go.Outbox.Drain.{Commit, committed, rolled_back, unacknowledged}
use ifritah_go.Stock.Table.{
  Stock, Movement, quantity_of, add_quantity, breaks_check, update_product_quantity,
  insert_stock_movement,
}
use ifritah_go.Stock.Movements.{
  Actor, LineFaults, StockError, SavedLine, bind, each, move, reverse_sale_line,
  reverse_sale_movements, get_stock_enforcement_mode,
}
use ifritah_go.Stock.Ledger.{quantity_of-add_quantity_self, quantity_of-add_quantity_ne}
use ifritah_go.Stock.Rules.{OnOk}
use ifritah_go.Sale.Table.{Bill, BillLine, Sales, bill_state, update_bill}
use ifritah_go.Sale.Write.{Context}
use ifritah_go.Sale.Delete.{
  DeleteFaults, LineReads, is_catalog_line, product_lines, get_product_of_bill, DeleteReply,
  deleted, refused, soft_delete, without_bill, commit_delete, delete_reversed, delete_in_state,
  delete_bill_detail,
}

-- What the lines of a bill hold of a product.
abbrev pub held : Option ℕ → ℕ → ℤ → ℤ
held none k quantity = pos 0
held (some j) k quantity = if j == k then quantity else pos 0

abbrev pub sold_of : ℕ → ℕ → List BillLine → ℤ
sold_of id k [] = pos 0
sold_of id k (l ∷ lines) =
    (if l.bill_id == id then held l.product_id k l.quantity else pos 0) +ℤ sold_of id k lines

-- The same of the rows that the reversal reads.
abbrev returned : ℕ → List (SavedLine × LineFaults) → ℤ
returned k [] = pos 0
returned k ((row, f) ∷ ls) = held row.product_id k row.quantity +ℤ returned k ls

+ℤ_zero_left : (a : ℤ) → pos 0 +ℤ a ≡ a
+ℤ_zero_left a = omega int_laws

+ℤ_zero_right : (a : ℤ) → a +ℤ pos 0 ≡ a
+ℤ_zero_right a = omega int_laws

+ℤ_assoc_right : (a b c : ℤ) → a +ℤ b +ℤ c ≡ a +ℤ (b +ℤ c)
+ℤ_assoc_right a b c = omega int_laws

-- The level of a product rises by an amount.
abbrev Raises : ℕ → ℤ → Stock → Stock → Type 0
Raises k amount s t =
    (q : ℤ) → quantity_of k s.products ≡ some q → quantity_of k t.products ≡ some (q +ℤ amount)

Raises-refl : (k : ℕ) (s : Stock) → Raises k (pos 0) s s
Raises-refl k s q h = h ∙ ap some (sym (+ℤ_zero_right q))

moved-Raises :
    (k j : ℕ) (delta : ℤ) (m : Movement) (s : Stock)
    → Raises k
        (held (some j) k delta)
        s
        (insert_stock_movement m (update_product_quantity j delta s))
unfolding insert_stock_movement update_product_quantity
moved-Raises k j delta m s q h = elim (Bool-cases (j == k)) [
  | inl own ↦ rw own (
      subst (λ i. quantity_of i (add_quantity j delta s.products) ≡ some (q +ℤ delta))
        ((==_iff j k).0 own)
        (quantity_of-add_quantity_self j delta q s.products
          (subst (λ i. quantity_of i s.products ≡ some q) (sym ((==_iff j k).0 own)) h)))
  | inr other ↦
      rw other (
        quantity_of-add_quantity_ne k j delta s.products other
        ∙ h
        ∙ ap some (sym (+ℤ_zero_right q)))
]

move-Raises :
    (k : ℕ) (f : LineFaults) (j : ℕ) (delta : ℤ) (m : Movement) (s : Stock)
    → OnOk (Raises k (held (some j) k delta) s) (move f j delta m (tt {0}) s)
unfolding move
move-Raises k f j delta m s =
    if_rule (OnOk (Raises k (held (some j) k delta) s))
      (f.update || breaks_check j delta s.products) _ _ tt
      (if_rule (OnOk (Raises k (held (some j) k delta) s)) f.insert _ _ tt
        (moved-Raises k j delta m s))

reverse_sale_line-Raises :
    (k : ℕ) (actor : Actor) (bill_id : ℕ) (row : SavedLine) (f : LineFaults) (s : Stock)
    → OnOk
        (Raises k (held row.product_id k row.quantity) s)
        (reverse_sale_line actor bill_id (row, f) s)
unfolding reverse_sale_line
reverse_sale_line-Raises k actor bill_id row f s = elim (Option-cases row.product_id) [
  | inl e ↦ rw (e, reverse_sale_line) (Raises-refl k s)
  | inr (j, e) ↦ rw (e, reverse_sale_line) (move-Raises k f j row.quantity _ s)
]

bind_ok {ℓ κ} :
    {A : Type ℓ} {B : Type κ} (Q R : Stock → Type 0) (v : Result StockError A × Stock)
    (g : A → Stock → Result StockError B × Stock)
    → OnOk Q v
    → ((a : A) (t : Stock) → Q t → OnOk R (g a t))
    → OnOk R (bind v g)
bind_ok Q R (ok a, t) g h k = k a t h
bind_ok Q R (err e, t) g h k = tt

on_ok {ℓ} :
    {A : Type ℓ} (Q R : Stock → Type 0) (v : Result StockError A × Stock)
    → ((t : Stock) → Q t → R t)
    → OnOk Q v
    → OnOk R v
on_ok Q R (ok a, t) k h = k t h
on_ok Q R (err e, t) k h = tt

each-Raises :
    (k : ℕ) (actor : Actor) (bill_id : ℕ) (ls : List (SavedLine × LineFaults)) (s : Stock)
    → OnOk (Raises k (returned k ls) s) (each (reverse_sale_line actor bill_id) ls s)
unfolding each
each-Raises k actor bill_id [] s = Raises-refl k s
each-Raises k actor bill_id ((row, f) ∷ ls) s =
    bind_ok (Raises k (held row.product_id k row.quantity) s)
      (Raises k (held row.product_id k row.quantity +ℤ returned k ls) s)
      (reverse_sale_line actor bill_id (row, f) s) _
      (reverse_sale_line-Raises k actor bill_id row f s)
      (λ a t up.
        on_ok (Raises k (returned k ls) t)
          (Raises k (held row.product_id k row.quantity +ℤ returned k ls) s) _
          (λ u more q h.
            more (q +ℤ held row.product_id k row.quantity) (up q h)
            ∙ ap some (+ℤ_assoc_right q (held row.product_id k row.quantity) (returned k ls)))
          (each-Raises k actor bill_id ls t))

-- The rows that are read hold what the bill's lines hold.
held_unlinked :
    (l : BillLine) (k : ℕ) → is_catalog_line l ≡ false → held l.product_id k l.quantity ≡ pos 0
held_unlinked l k h = elim (Option-cases l.product_id) [
  | inl e ↦ rw e refl
  | inr (j, e) ↦
      let clash : true ≡ false =
        subst (λ (o : Option ℕ). (elim o as (λ _. Bool) [ none ↦ false | some i ↦ true ]) ≡ false) e
          h in
      absurd cc
]

returned-product_lines :
    (r : LineReads) (b : Bill) (k i : ℕ) (lines : List BillLine)
    → returned k (product_lines r b i lines) ≡ sold_of b.id k lines
unfolding product_lines
returned-product_lines r b k i [] = refl
returned-product_lines r b k i (l ∷ lines) = elim (Bool-cases (l.bill_id == b.id)) [
  | inl own ↦ elim (Bool-cases (is_catalog_line l)) [
    | inl linked ↦
        rw (own, linked)
          (ap (λ (a : ℤ). held l.product_id k l.quantity +ℤ a)
            (returned-product_lines r b k (suc i) lines))
    | inr bare ↦
        rw (own, bare)
          (returned-product_lines r b k (suc i) lines
            ∙ sym (+ℤ_zero_left (sold_of b.id k lines))
            ∙ ap (λ (a : ℤ). a +ℤ sold_of b.id k lines) (sym (held_unlinked l k bare)))
  ]
  | inr other ↦
      rw other
        (returned-product_lines r b k (suc i) lines ∙ sym (+ℤ_zero_left (sold_of b.id k lines)))
]

-- The bill whose state is read is the one whose lines are.
bill_state-find_row :
    (id : ℕ) (state : ℤ) (bills : List Bill)
    → bill_state id bills ≡ some state
    → (b : Bill) × (find_row (λ o. o.id == id) bills ≡ some b) × (b.id ≡ id)
unfolding bill_state
bill_state-find_row id state [] h = absurd cc
bill_state-find_row id state (o ∷ bills) h = elim (Bool-cases (o.id == id)) [
  | inl own ↦ (o, rw own refl, (==_iff o.id id).0 own)
  | inr other ↦
      let (b, found, same) = bill_state-find_row id state bills (sym (rw other refl) ∙ h) in
      (b, rw other found, same)
]

update_bill-map :
    (id : ℕ) (change : Bill → Bill) (bills : List Bill)
    → update_bill id change bills ≡ map (λ b. if b.id == id then change b else b) bills
unfolding update_bill
update_bill-map id change [] = refl
update_bill-map id change (b ∷ bills) = rw (update_bill-map id change bills) refl

abbrev pub is_off : Context → Bool
is_off c = str_eq (get_stock_enforcement_mode c.enforcement) "disable"

-- Nothing, where the stock is not tracked; else every product rises by what the bill's lines hold of it.
abbrev pub IsRestored : Context → ℕ → Sales → Stock → Type 0
IsRestored c id s stock =
    ((is_off c ≡ true) × (stock ≡ s.stock))
    ⊎ ((is_off c ≡ false)
        × ((k : ℕ) (q : ℤ)
            → quantity_of k s.stock.products ≡ some q
            → quantity_of k stock.products ≡ some (q +ℤ sold_of id k s.lines)))

-- A draft has been marked as deleted, in state -1, its stock is restored, and nothing else is changed.
pub record IsDeleted (c : Context) (id : ℕ) (s t : Sales) : Type 0 where
  pub draft : bill_state id s.bills ≡ some (pos 0)
  pub bills : t.bills ≡ map (λ b. if b.id == id then record b { state = negsuc 0 } else b) s.bills
  pub stock : IsRestored c id s t.stock
  pub lines : t.lines ≡ s.lines
  pub payments : t.payments ≡ s.payments
  pub sequences : t.sequences ≡ s.sequences
  pub outbox : t.outbox ≡ s.outbox

abbrev pub IsTold : Context → DeleteFaults → ℕ → Sales → DeleteReply × Sales → Type 0
IsTold c f id s (deleted, t) = IsDeleted c id s t
IsTold c f id s (refused status, t) = (t ≡ s) ⊎ ((f.commit ≡ unacknowledged) × IsDeleted c id s t)

module _ (c : Context) (f : DeleteFaults) (r : LineReads) (id : ℕ) (s : Sales) where
  each-IsRestored :
      (actor : Actor) (b : Bill)
      → b.id ≡ id
      → is_off c ≡ false
      → OnOk
          (IsRestored c id s)
          (each (reverse_sale_line actor id) (product_lines r b 0 s.lines) s.stock)
  each-IsRestored actor b same on =
      all_raise (each (reverse_sale_line actor id) (product_lines r b 0 s.lines) s.stock)
        (λ k. each-Raises k actor id (product_lines r b 0 s.lines) s.stock)
    where
      all_raise :
          (v : Result StockError (Unit {0}) × Stock)
          → ((k : ℕ) → OnOk (Raises k (returned k (product_lines r b 0 s.lines)) s.stock) v)
          → OnOk (IsRestored c id s) v
      all_raise (err e, t) h = tt
      all_raise (ok u, t) h = inr (
        on,
        λ k q found.
            h k q found
            ∙ ap (λ (a : ℤ). some (q +ℤ a))
                (returned-product_lines r b k 0 s.lines ∙ ap (λ i. sold_of i k s.lines) same),
      )

  reversed-IsRestored :
      (actor : Actor)
      → bill_state id s.bills ≡ some (pos 0)
      → OnOk (IsRestored c id s) (
          reverse_sale_movements actor id c.enforcement (get_product_of_bill r f.rows id s) s.stock)
  unfolding reverse_sale_movements get_product_of_bill
  reversed-IsRestored actor draft = elim (Bool-cases (is_off c)) [
    | inl off ↦ rw off (inl (off, refl))
    | inr on ↦ rw on (elim (Bool-cases f.rows) [
      | inl e ↦ rw e tt
      | inr e ↦
          let (b, found, same) = bill_state-find_row id (pos 0) s.bills draft in
          rw e (rw found (each-IsRestored actor b same on))
    ])
  ]

  commit_delete-IsTold :
      (commit : Commit) (stock : Stock)
      → f.commit ≡ commit
      → bill_state id s.bills ≡ some (pos 0)
      → IsRestored c id s stock
      → IsTold c f id s (commit_delete commit s (without_bill id stock s))
  commit_delete-IsTold commit stock e draft back =
      let done : IsDeleted c id s (without_bill id stock s) = record {
        draft = draft;
        bills = update_bill-map id soft_delete s.bills;
        stock = back;
        lines = refl;
        payments = refl;
        sequences = refl;
        outbox = refl;
      } in
      elim commit
          as (λ k. f.commit ≡ k → IsTold c f id s (commit_delete k s (without_bill id stock s))) [
            | committed ↦ λ same. done
            | rolled_back ↦ λ same. inl refl
            | unacknowledged ↦ λ same. inr (same, done)
          ]
        e

  delete_reversed-IsTold :
      (v : Result StockError (Unit {0}) × Stock)
      → bill_state id s.bills ≡ some (pos 0)
      → OnOk (IsRestored c id s) v
      → IsTold c f id s (delete_reversed f id s v)
  unfolding delete_reversed
  delete_reversed-IsTold (err e, stock) draft back = inl refl
  delete_reversed-IsTold (ok u, stock) draft back =
      if_rule (IsTold c f id s) f.delete _ _ (inl refl)
        (commit_delete-IsTold f.commit stock refl draft back)

  delete_in_state-IsTold :
      (state : Option ℤ)
      → bill_state id s.bills ≡ state
      → IsTold c f id s (delete_in_state c f r id s state)
  unfolding delete_in_state
  delete_in_state-IsTold none e = inl refl
  delete_in_state-IsTold (some state) e = elim (Bool-cases f.lock) [
    | inl k ↦ rw k (inl refl)
    | inr k ↦ elim (Bool-cases (eq_ℤ state (pos 0))) [
      | inl z ↦
          let draft = e ∙ ap some (eq_ℤ-sound state (pos 0) z) in
          rw (k, z) (delete_reversed-IsTold _ draft (reversed-IsRestored _ draft))
      | inr z ↦ rw (k, z) (inl refl)
    ]
  ]

-- Only a draft is deleted: after the answer 200 the bill was a draft and is in state -1, no other bill
-- and no line, payment, number or event is changed, and, unless the stock is not tracked, the level of
-- every product has risen by the sum of the bill's lines that name it, which happens though a draft has
-- taken nothing out. After any other answer, that for a final sale included, every table is as it was,
-- unless the commit is in force without an acknowledgement, and then the same has been done.
pub delete_bill_detail-IsTold :
    (c : Context) (f : DeleteFaults) (r : LineReads) (id : ℕ) (s : Sales)
    → IsTold c f id s (delete_bill_detail c f r (some id) s)
unfolding delete_bill_detail
delete_bill_detail-IsTold c f r id s =
    if_rule (IsTold c f id s) f.begin _ _ (inl refl)
      (delete_in_state-IsTold c f r id s (bill_state id s.bills) refl)
