-- ===== src/Stock/Replies.antt =====
-- What the replies of StockAdjust and StockCheck of pkg/handlers/stock.go say of the stock.
use mathlib.Core.List.{append-nil, append_assoc}
use mathlib.Core.Path.{subst}
use ifritah_go.Stock.Ledger.{quantity_of-add_quantity_ne}
use ifritah_go.Prelude.{
  ◌||◌, ◌⊎◌, ◌≤ℤ◌, ◌==◌, ℕ, String, str_eq, Bool, true, false, ◌&&◌, Option, none, some, List, [],
  ◌∷◌, ◌++◌, ◌≡◌, refl, sym, ap, ◌∙◌, arith, ℤ, pos, ◌+ℤ◌, ltb_ℤ, all, Bool-cases, if_rule,
  all-append, and_true, found_unless, inl, inr,
}
use ifritah_go.Stock.Table.{
  Stock, Product, Movement, breaks_check, quantity_of, add_quantity, product_quantity,
  update_product_quantity, insert_stock_movement, stock_enforcement_disable,
  stock_enforcement_enforce,
}
use ifritah_go.Stock.Movements.{Actor, get_stock_enforcement_mode}
use ifritah_go.Outbox.Drain.{Commit}
use ifritah_go.Stock.Adjust.{
  commit_adjust, AdjustFaults, StockAdjustRequest, AdjustReply, adjusted, insufficient_stock,
  refused, adjust_movement, adjust_product, get_product_stock, adjust_found, stock_adjust,
  StockCheckItem, StockCheckResult, check_found, check_items, stock_check,
}

product_quantity-add_quantity :
    (id store : ℕ) (delta q : ℤ) (ps : List Product)
    → product_quantity id ps ≡ some (store, q)
    → product_quantity id (add_quantity id delta ps) ≡ some (store, q +ℤ delta)
unfolding product_quantity add_quantity
product_quantity-add_quantity id store delta q [] h = cc
product_quantity-add_quantity id store delta q (p ∷ ps) h =
    ground (arith, product_quantity-add_quantity id store delta q ps)

-- What `adjusted` says: the product, which is not deleted, had a level, and has moved by the change that
-- was asked for to the level of the answer, in enforce mode not below zero; every other product is as it
-- was; and one movement is new, an adjustment of that product by that change.
pub record IsAdjusted (enforcement : String) (req : StockAdjustRequest) (s t : Stock) (level : ℤ)
    : Type 0 where
  pub store : ℕ
  pub before : ℤ
  pub found : product_quantity req.product_id s.products ≡ some (store, before)
  pub sum : level ≡ before +ℤ req.quantity_change
  pub moved : product_quantity req.product_id t.products ≡ some (store, level)
  pub enough : (str_eq enforcement stock_enforcement_enforce && ltb_ℤ level (pos 0)) ≡ false
  pub others :
      (k : ℕ) → (req.product_id == k) ≡ false → quantity_of k t.products ≡ quantity_of k s.products
  pub movement : Movement
  pub recorded : t.movements ≡ movement ∷ s.movements
  pub product : movement.product_id ≡ req.product_id
  pub change : movement.quantity ≡ req.quantity_change
  pub kind : movement.movement_type ≡ "adjustment"

-- Any other reply says that nothing has changed, unless the commit is in force without an
-- acknowledgement.
abbrev pub Answers :
    AdjustFaults → String → StockAdjustRequest → Stock → AdjustReply × Stock → Type 0
Answers f enforcement req s (adjusted id level, t) =
    (id ≡ req.product_id) × IsAdjusted enforcement req s t level
Answers f enforcement req s (insufficient_stock available requested, t) = t ≡ s
Answers f enforcement req s (refused status detail, t) =
    (t ≡ s)
    ⊎ ((f.commit ≡ Commit.unacknowledged) × (level : ℤ) × IsAdjusted enforcement req s t level)

commit_adjust-Answers :
    (f : AdjustFaults) (enforcement : String) (req : StockAdjustRequest) (s t : Stock) (level : ℤ)
    (commit : Commit)
    → f.commit ≡ commit
    → IsAdjusted enforcement req s t level
    → Answers f enforcement req s (commit_adjust commit (adjusted req.product_id level) s t)
commit_adjust-Answers f enforcement req s t level Commit.committed e h = (refl, h)
commit_adjust-Answers f enforcement req s t level Commit.rolled_back e h = inl refl
commit_adjust-Answers f enforcement req s t level Commit.unacknowledged e h = inr (e, level, h)

adjust_movement-IsAdjusted :
    (actor : Actor) (enforcement : String) (req : StockAdjustRequest) (store : ℕ) (current : ℤ)
    (s : Stock)
    → product_quantity req.product_id s.products ≡ some (store, current)
    → (str_eq enforcement stock_enforcement_enforce
        && ltb_ℤ (current +ℤ req.quantity_change) (pos 0))
      ≡ false
    → IsAdjusted enforcement req s
        (insert_stock_movement
          (adjust_movement actor req)
          (update_product_quantity req.product_id req.quantity_change s))
        (current +ℤ req.quantity_change)
unfolding insert_stock_movement update_product_quantity adjust_movement
adjust_movement-IsAdjusted actor enforcement req store current s found enough = record {
  store = store;
  before = current;
  found = found;
  sum = refl;
  moved =
      product_quantity-add_quantity req.product_id store req.quantity_change current s.products
        found;
  enough = enough;
  others =
      λ k other. quantity_of-add_quantity_ne k req.product_id req.quantity_change s.products other;
  movement = adjust_movement actor req;
  recorded = refl;
  product = refl;
  change = refl;
  kind = refl;
}

adjust_product-Answers :
    (actor : Actor) (enforcement : String) (f : AdjustFaults) (req : StockAdjustRequest) (store : ℕ)
    (current : ℤ) (s : Stock)
    → product_quantity req.product_id s.products ≡ some (store, current)
    → Answers f enforcement req s (adjust_product actor enforcement f req current s)
unfolding adjust_product
adjust_product-Answers actor enforcement f req store current s found =
    let P : AdjustReply × Stock → Type 0 = Answers f enforcement req s in
    let new_qty = current +ℤ req.quantity_change in
    elim (Bool-cases (str_eq enforcement stock_enforcement_enforce && ltb_ℤ new_qty (pos 0))) [
      | inl low ↦ rw low refl
      | inr enough ↦ rw enough (
          if_rule P f.begin _ _ (inl refl) (
            if_rule P (f.update || breaks_check req.product_id req.quantity_change s.products) _ _
              (inl refl)
              (if_rule P f.insert _ _ (inl refl) (
                commit_adjust-Answers f enforcement req s _ new_qty f.commit refl (
                  adjust_movement-IsAdjusted actor enforcement req store current s found enough)))))
    ]

adjust_found-Answers :
    (actor : Actor) (enforcement : String) (f : AdjustFaults) (req : StockAdjustRequest)
    (found : Option (ℕ × ℤ)) (s : Stock)
    → get_product_stock f.product req.product_id s ≡ found
    → Answers f enforcement req s (adjust_found actor enforcement f req found s)
unfolding adjust_found
adjust_found-Answers actor enforcement f req none s h = inl refl
adjust_found-Answers actor enforcement f req (some (store, current)) s h =
    adjust_product-Answers actor enforcement f req store current s
      (found_unless f.product (product_quantity req.product_id s.products) h)

-- StockAdjust tells the caller what it did: after `adjusted` the product, which is not deleted, has
-- moved by the change that was asked for to the level that is answered, in enforce mode not below zero,
-- every other product keeps its level, and one new movement, an adjustment, records that product and
-- that change; after any other reply the stock is as it was, unless the commit is in force without an
-- acknowledgement, and then the same has been done. The change has at most three places.
pub stock_adjust-Answers :
    (actor : Actor) (mode : Option String) (f : AdjustFaults) (req : StockAdjustRequest) (s : Stock)
    → Answers f (get_stock_enforcement_mode mode) req s (stock_adjust actor mode f (some req) s)
unfolding stock_adjust
stock_adjust-Answers actor mode f req s =
    let enforcement = get_stock_enforcement_mode mode in
    if_rule (Answers f enforcement req s) (str_eq enforcement stock_enforcement_disable) _ _
      (inl refl) (adjust_found-Answers actor enforcement f req _ s refl)

-- What an answer says of its item. `failing` says whether the item's query fails.
pub record IsAnswer (s : Stock) (item : StockCheckItem) (failing : Bool) (r : StockCheckResult)
    : Type 0 where
  pub product : r.product_id ≡ item.product_id
  pub requested : r.requested ≡ item.quantity
  pub covered :
      r.sufficient ≡ true
      → (product_quantity item.product_id s.products ≡ some (r.store_id, r.available))
        × (item.quantity ≤ℤ r.available)
  pub lacking :
      r.sufficient ≡ false
      → (failing ≡ true)
        ⊎ ((product_quantity item.product_id s.products ≡ none)
            ⊎ ((product_quantity item.product_id s.products ≡ some (r.store_id, r.available))
                × (ltb_ℤ r.available item.quantity ≡ true)))

-- One answer for each item, in order.
abbrev pub AnswersAll : Stock → List (StockCheckItem × Bool) → List StockCheckResult → Type 0
AnswersAll s [] [] = Unit {0}
AnswersAll s [] (r ∷ rs) = ⊥
AnswersAll s (i ∷ is) [] = ⊥
AnswersAll s ((item, failing) ∷ is) (r ∷ rs) = IsAnswer s item failing r × AnswersAll s is rs

check_found-IsAnswer :
    (s : Stock) (item : StockCheckItem) (failing : Bool) (found : Option (ℕ × ℤ))
    → get_product_stock failing item.product_id s ≡ found
    → IsAnswer s item failing (check_found item found)
check_found-IsAnswer s item true found h =
    rw (sym h)
      record { product = refl; requested = refl; covered = λ e. cc; lacking = λ e. inl refl }
check_found-IsAnswer s item false none h = record {
  product = refl;
  requested = refl;
  covered = λ e. cc;
  lacking = λ e. inr (inl h);
}
check_found-IsAnswer s item false (some (store, available)) h = record {
  product = refl;
  requested = refl;
  covered = λ e. (h, ground arith);
  lacking = λ e. inr (inr (h, ground arith));
}

-- The loop appends the answers of the items that are left.
check_items_lem :
    (s : Stock) (rest : List (StockCheckItem × Bool)) (items : List StockCheckResult)
    (so_far : Bool)
    → so_far ≡ all (λ r. r.sufficient) items
    → let (results, all_sufficient) = check_items s rest items so_far in
      (added : List StockCheckResult) × (results ≡ items ++ added)
      × AnswersAll s rest added
      × (all_sufficient ≡ all (λ r. r.sufficient) results)
unfolding check_items
check_items_lem s [] items so_far h = ([], sym (append-nil items), tt, h)
check_items_lem s ((item, failing) ∷ rest) items so_far h =
    let result = check_found item (get_product_stock failing item.product_id s) in
    let (added, same, answers, sound) =
      check_items_lem s rest (items ++ (result ∷ [])) (so_far && result.sufficient) (
        rw h (
          sym (
            all-append (λ r. r.sufficient) items (result ∷ [])
            ∙ ap (λ b. all (λ r. r.sufficient) items && b) (and_true result.sufficient)))) in
    (
      result ∷ added,
      same ∙ append_assoc items (result ∷ []) added,
      (check_found-IsAnswer s item failing _ refl, answers),
      sound,
    )

-- StockCheck answers every item, in order: with its product and quantity, and as sufficient with the
-- level of that product, if it is not deleted, which covers the quantity; an answer is insufficient only
-- if the query failed, there is no such product, or its level is below the quantity. It reports that
-- all are sufficient exactly when each answer is.
pub stock_check_lem :
    (s : Stock) (items : List (StockCheckItem × Bool))
    → let (results, all_sufficient) = stock_check s items in
      AnswersAll s items results × (all_sufficient ≡ all (λ r. r.sufficient) results)
unfolding stock_check
stock_check_lem s items =
    let (added, same, answers, sound) = check_items_lem s items [] true refl in
    (subst (AnswersAll s items) (sym same) answers, sound)
