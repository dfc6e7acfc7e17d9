-- ===== src/Voucher/Numbers.antt =====
-- The numbers that CreateCashVoucher gives (pkg/handlers/cash_vouchar.go).
use mathlib.Core.List.{Memᴰ}
use mathlib.Core.Path.{subst}
use ifritah_go.Prelude.{
  ℕ, ◌^◌, ◌≤◌, ◌<◌, Bool, true, false, Option, none, some, [], ◌∷◌, ◌≡◌, refl, sym, inl, inr, arith,
  ℤ, pos, pos_part, neg_part, ◌+ℤ◌, ◌≤ℤ◌, ltb_ℤ, eq_ℤ, +ℤ_parts, to_int32-eq_self, Bool-cases,
}
use ifritah_go.Voucher.Table.{
  CashVoucherCreateRequest, Voucher, Table, greater, max_number, next_number, new_voucher,
}

greater_self : (n : ℤ) (rest : Option ℤ) → (m : ℤ) × (greater true n rest ≡ some m) × (n ≤ℤ m)
greater_self n none = (n, refl, omega arith)
greater_self n (some m) = elim (Bool-cases (ltb_ℤ m n)) [
  | inl above ↦ (n, rw above refl, omega arith)
  | inr below ↦ (m, rw below refl, ground arith)
]

greater_rest :
    (b : Bool) (n : ℤ) (rest : Option ℤ) {m : ℤ}
    → rest ≡ some m
    → (k : ℤ) × (greater b n rest ≡ some k) × (m ≤ℤ k)
greater_rest false n rest {m} h = (m, h, omega arith)
greater_rest true n none h = cc
greater_rest true n (some m') {m} h = elim (Bool-cases (ltb_ℤ m' n)) [
  | inl above ↦ (n, rw above refl, ground arith)
  | inr below ↦ (m', rw below refl, ground arith)
]

max_number_lem :
    (merchant : ℤ) (v : Voucher) (table : Table)
    → Memᴰ v table
    → eq_ℤ v.merchant_id merchant ≡ true
    → (m : ℤ) × (max_number merchant table ≡ some m) × (v.voucher_number ≤ℤ m)
unfolding max_number
max_number_lem merchant v [] m h = elim m [ ]
max_number_lem merchant v (x ∷ table) (Memᴰ.head e) h =
    subst
      (λ y.
        eq_ℤ y.merchant_id merchant ≡ true
        → (m : ℤ) × (greater (eq_ℤ x.merchant_id merchant) x.voucher_number
              (max_number merchant table)
            ≡ some m)
          × (y.voucher_number ≤ℤ m))
      (sym e) (λ own. rw own (greater_self x.voucher_number (max_number merchant table))) h
max_number_lem merchant v (x ∷ table) (Memᴰ.tail m) h =
    let (n, e, le) = max_number_lem merchant v table m h in
    let (k, e', le') =
      greater_rest (eq_ℤ x.merchant_id merchant) x.voucher_number (max_number merchant table) e in
    (k, e', omega arith)

-- The number that a create reads is above every number of its merchant in the table that it reads,
-- and, below the limit of the column, so is the number that the new voucher carries.
pub next_number_fresh :
    (merchant : ℤ) (v : Voucher) (table : Table) (id : ℕ) (req : CashVoucherCreateRequest)
    → Memᴰ v table
    → eq_ℤ v.merchant_id merchant ≡ true
    → pos_part (next_number merchant table) < 2 ^ 31
    → neg_part (next_number merchant table) ≤ 2 ^ 31
    → v.voucher_number +ℤ pos 1
      ≤ℤ (new_voucher id (next_number merchant table) merchant req).voucher_number
unfolding next_number new_voucher
next_number_fresh merchant v table id req m h up down =
    let (n, e, le) = max_number_lem merchant v table m h in
    rw (to_int32-eq_self _ up down)
      (rw e (omega (arith, +ℤ_parts v.voucher_number (pos 1), +ℤ_parts n (pos 1))))
