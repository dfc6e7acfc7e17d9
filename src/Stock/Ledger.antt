-- ===== src/Stock/Ledger.antt =====
-- The stock level of a product moves by what the ledger records (pkg/handlers/stock.go).
use ifritah_go.Prelude.{
  ◌||◌, ℕ, false, some, List, [], ◌∷◌, ◌≡◌, refl, sym, ap, ◌∙◌, inl, inr, arith, ◌==◌, ==_iff, ℤ,
  pos, pos_part, neg_part, ◌+ℤ◌, int_laws, Bool-cases,
}
use mathlib.Core.Path.{subst}
use ifritah_go.Stock.Table.{
  Product, Movement, Stock, breaks_check, add_quantity, quantity_of, ledger,
  update_product_quantity, insert_stock_movement,
}
use ifritah_go.Stock.Movements.{LineFaults, move}
use ifritah_go.Stock.Rules.{OnOk}

pub quantity_of-add_quantity_self :
    (id : ℕ) (delta q : ℤ) (ps : List Product)
    → quantity_of id ps ≡ some q
    → quantity_of id (add_quantity id delta ps) ≡ some (q +ℤ delta)
unfolding quantity_of add_quantity
quantity_of-add_quantity_self id delta q [] h = cc
quantity_of-add_quantity_self id delta q (p ∷ ps) h =
    ground (arith, quantity_of-add_quantity_self id delta q ps)

pub quantity_of-add_quantity_ne :
    (id j : ℕ) (delta : ℤ) (ps : List Product)
    → (j == id) ≡ false
    → quantity_of id (add_quantity j delta ps) ≡ quantity_of id ps
unfolding quantity_of add_quantity
quantity_of-add_quantity_ne id j delta [] h = refl
quantity_of-add_quantity_ne id j delta (p ∷ ps) h =
    ground (arith, quantity_of-add_quantity_ne id j delta ps h)

-- A product has moved from its level q by as much as its ledger.
abbrev pub HasMoved : ℕ → Stock → ℤ → Stock → Type 0
HasMoved id s q s' =
    (q' : ℤ) × (quantity_of id s'.products ≡ some q')
    × (q' +ℤ ledger id s.movements ≡ q +ℤ ledger id s'.movements)

abbrev pub Keeps : ℕ → Stock → Stock → Type 0
Keeps id s s' = (q : ℤ) → quantity_of id s.products ≡ some q → HasMoved id s q s'

drift_trans :
    (q q' q'' l l' l'' : ℤ) → q' +ℤ l ≡ q +ℤ l' → q'' +ℤ l' ≡ q' +ℤ l'' → q'' +ℤ l ≡ q +ℤ l''
drift_trans q q' q'' l l' l'' e k =
    omega (int_laws, ap pos_part e, ap neg_part e, ap pos_part k, ap neg_part k)

+ℤ_assoc : (a b c : ℤ) → a +ℤ b +ℤ c ≡ a +ℤ (b +ℤ c)
+ℤ_assoc a b c = omega int_laws

+ℤ_zero : (a : ℤ) → a ≡ pos 0 +ℤ a
+ℤ_zero a = omega int_laws

pub Keeps-refl : (id : ℕ) (s : Stock) → Keeps id s s
Keeps-refl id s q h = (q, h, refl)

pub Keeps-trans : (id : ℕ) (s t u : Stock) → Keeps id s t → Keeps id t u → Keeps id s u
Keeps-trans id s t u h k q e =
    let (q', e', m) = h q e in
    let (q'', e'', m') = k q' e' in (q'', e'', drift_trans q q' q'' _ _ _ m m')

pub moved-Keeps :
    (id j : ℕ) (delta : ℤ) (m : Movement) (s : Stock)
    → m.product_id ≡ j
    → m.quantity ≡ delta
    → Keeps id s (insert_stock_movement m (update_product_quantity j delta s))
unfolding insert_stock_movement update_product_quantity ledger
moved-Keeps id j delta m s hj hd q h = elim (Bool-cases (j == id)) [
  | inl own ↦
      let same = (==_iff j id).0 own in
      (
        q +ℤ delta,
        subst (λ k. quantity_of id (add_quantity k delta s.products) ≡ some (q +ℤ delta)) (sym same)
            (quantity_of-add_quantity_self id delta q s.products h),
        rw (hj, own, hd) (+ℤ_assoc q delta (ledger id s.movements)),
      )
  | inr other ↦ (
    q,
    quantity_of-add_quantity_ne id j delta s.products other ∙ h,
    rw (hj, other) (ap (λ (l : ℤ). q +ℤ l) (+ℤ_zero (ledger id s.movements))),
  )
]

pub move-Keeps {ℓ} :
    {A : Type ℓ} (id : ℕ) (f : LineFaults) (j : ℕ) (delta : ℤ) (m : Movement) (a : A) (s : Stock)
    → m.product_id ≡ j
    → m.quantity ≡ delta
    → OnOk (Keeps id s) (move f j delta m a s)
unfolding move
move-Keeps id f j delta m a s hj hd =
    elim (Bool-cases (f.update || breaks_check j delta s.products)) [
      | inl e ↦ rw e tt
      | inr e ↦ elim (Bool-cases f.insert) [
        | inl e' ↦ rw (e, e') tt
        | inr e' ↦ rw (e, e') (moved-Keeps id j delta m s hj hd)
      ]
    ]
