-- ===== src/Stock/History.antt =====
-- The committed changes of stock by sales, by reversals of sales and by adjustments, in any order,
-- against the ledger (pkg/handlers/stock.go). Purchases, which also write quantities themselves, are
-- under Purchase.
use mathlib.Core.Path.{subst}
use ifritah_go.Prelude.{
  ℕ, String, Bool, true, false, Option, none, some, List, ◌≡◌, refl, if◌then◌else◌, ℤ, Result, ok,
  err, if_rule,
}
use ifritah_go.Stock.Table.{Stock, quantity_of}
use ifritah_go.Stock.Movements.{
  LineFaults, StockError, StockWarning, Actor, BillProduct, SavedLine, each, reverse_sale_line,
  record_sale_movements, reverse_sale_movements, get_stock_enforcement_mode,
}
use ifritah_go.Outbox.Drain.{Commit}
use ifritah_go.Stock.Adjust.{
  commit_adjust, AdjustFaults, StockAdjustRequest, AdjustReply, stock_adjust, adjust_found,
  adjust_product, adjust_movement,
}
use ifritah_go.Stock.Ledger.{HasMoved, Keeps, Keeps-refl, Keeps-trans, moved-Keeps}
use ifritah_go.Stock.Rules.{OnOk, of_ok, each_rule}
use ifritah_go.Stock.Conservation.{record_sale-Keeps, reverse_sale_line-Keeps}

-- One change that its transaction commits, outside the purchases.
pub data Change : Stock → Stock → Type 0 where
  sale :
      {s t : Stock} {w : List StockWarning} (actor : Actor) (store_id : ℕ) (seq_number : ℤ)
      (enforcement : String) (ls : List (BillProduct × LineFaults))
      → record_sale_movements actor store_id seq_number enforcement ls s ≡ (ok w, t)
      → Change s t
  reverse_sale :
      {s t : Stock} (actor : Actor) (bill_id : ℕ) (mode : Option String)
      (rows : Option (List (SavedLine × LineFaults)))
      → reverse_sale_movements actor bill_id mode rows s ≡ (ok tt, t)
      → Change s t
  adjust :
      {s t : Stock} {reply : AdjustReply} (actor : Actor) (mode : Option String) (f : AdjustFaults)
      (req : Option StockAdjustRequest)
      → stock_adjust actor mode f req s ≡ (reply, t)
      → Change s t

pub data History (s : Stock) : Stock → Type 0 where
  start : History s s
  next : {t u : Stock} → History s t → Change t u → History s u

pub loaded-Keeps :
    (id : ℕ) (line : SavedLine × LineFaults → Stock → Result StockError (Unit {0}) × Stock)
    (skipped : Bool) (rows : Option (List (SavedLine × LineFaults))) (s : Stock)
    → ((l : SavedLine × LineFaults) (t : Stock) → OnOk (Keeps id t) (line l t))
    → OnOk (Keeps id s) (
        if skipped
        then (ok tt, s)
        else elim rows [ none ↦ (err StockError.load_failed, s) | some lines ↦ each line lines s ])
loaded-Keeps id line true rows s h = Keeps-refl id s
loaded-Keeps id line false none s h = tt
loaded-Keeps id line false (some ls) s h =
    each_rule (Keeps id) (Keeps-trans id) line (Keeps-refl id) h ls s

commit_adjust-Keeps :
    (id : ℕ) (commit : Commit) (reply : AdjustReply) (s t : Stock)
    → Keeps id s t
    → Keeps id s (commit_adjust commit reply s t).1
commit_adjust-Keeps id Commit.committed reply s t h = h
commit_adjust-Keeps id Commit.rolled_back reply s t h = Keeps-refl id s
commit_adjust-Keeps id Commit.unacknowledged reply s t h = h

adjust_product-Keeps :
    (id : ℕ) (actor : Actor) (enforcement : String) (f : AdjustFaults) (req : StockAdjustRequest)
    (current : ℤ) (s : Stock)
    → Keeps id s (adjust_product actor enforcement f req current s).1
unfolding adjust_product
adjust_product-Keeps id actor enforcement f req current s =
    let P : AdjustReply × Stock → Type 0 = λ r. Keeps id s r.1 in
    let same = Keeps-refl id s in
    if_rule P _ _ _ same (
      if_rule P f.begin _ _ same (
        if_rule P _ _ _ same (
          if_rule P f.insert _ _ same (
            commit_adjust-Keeps id f.commit _ s _ (
              moved-Keeps id req.product_id req.quantity_change (adjust_movement actor req) s
                (unfold adjust_movement in refl) (unfold adjust_movement in refl))))))

adjust_found-Keeps :
    (id : ℕ) (actor : Actor) (enforcement : String) (f : AdjustFaults) (req : StockAdjustRequest)
    (found : Option (ℕ × ℤ)) (s : Stock)
    → Keeps id s (adjust_found actor enforcement f req found s).1
unfolding adjust_found
adjust_found-Keeps id actor enforcement f req none s = Keeps-refl id s
adjust_found-Keeps id actor enforcement f req (some (store, current)) s =
    adjust_product-Keeps id actor enforcement f req current s

stock_adjust-Keeps :
    (id : ℕ) (actor : Actor) (mode : Option String) (f : AdjustFaults)
    (req : Option StockAdjustRequest) (s : Stock)
    → Keeps id s (stock_adjust actor mode f req s).1
unfolding stock_adjust
stock_adjust-Keeps id actor mode f none s = Keeps-refl id s
stock_adjust-Keeps id actor mode f (some req) s =
    if_rule (λ (r : AdjustReply × Stock). Keeps id s r.1) _ _ _ (Keeps-refl id s)
      (adjust_found-Keeps id actor (get_stock_enforcement_mode mode) f req _ s)

Change-Keeps : (id : ℕ) {s t : Stock} → Change s t → Keeps id s t
unfolding reverse_sale_movements
Change-Keeps id {s} (sale actor store_id seq_number enforcement ls e) =
    of_ok (Keeps id s) _ e (record_sale-Keeps id actor store_id seq_number enforcement ls s)
Change-Keeps id {s} (reverse_sale actor bill_id mode rows e) = of_ok (Keeps id s) _ e (
    loaded-Keeps id (reverse_sale_line actor bill_id) _ rows s
      (reverse_sale_line-Keeps id actor bill_id))
Change-Keeps id {s} (adjust actor mode f req e) =
    subst (λ (r : AdjustReply × Stock). Keeps id s r.1) e (stock_adjust-Keeps id actor mode f req s)

History-Keeps : (id : ℕ) {s t : Stock} → History s t → Keeps id s t
History-Keeps id {s} start = Keeps-refl id s
History-Keeps id {s} {t} (next {t = u} h c) =
    Keeps-trans id s u t (History-Keeps id h) (Change-Keeps id c)

-- Through any history of committed sales, reversals of sales, and adjustments, in any mode, the stock
-- level of a product moves by exactly the sum of the movements recorded for it. No purchase comes in
-- between, and quantities have at most three places.
pub History-ledger :
    (id : ℕ) (q : ℤ) {s t : Stock}
    → History s t
    → quantity_of id s.products ≡ some q
    → HasMoved id s q t
History-ledger id q h e = History-Keeps id h q e
