-- ===== src/Sale/Record.antt =====
-- The record of a request id on the bill that UpdateBillByID writes.
use text.Mathlib.TextPositions.{eq_refl as str_eq_refl}
use mathlib.Core.Path.{subst}
use ifritah_go.Prelude.{
  ℕ, String, str_eq, true, false, Option, some, List, [], ◌∷◌, ◌≡◌, refl, arith, inl, inr, ◌==◌,
  ==_iff, ℤ, Bool-cases,
}
use ifritah_go.Sale.Table.{Bill, bears, find_request, bill_state, request_taken, update_bill}
use ifritah_go.Sale.Request.{AddBillRequest, BillIdentity}
use ifritah_go.Sale.Write.{Context, nil_if_empty, sale_bill}
use ifritah_go.Sale.Complete.{write_total}

-- A bill that records a fingerprint, of the version that is current.
abbrev pub Marks : ℕ → String → Bill → Type 0
Marks id print o =
    (o.id ≡ id) × (o.request_fingerprint ≡ some print) × (o.request_fingerprint_version ≡ 1)

-- The bill that a request id is found on.
abbrev pub Stands : Option String → Option String → ℕ → String → List Bill → Type 0
Stands till request id print bills =
    (o : Bill) × (find_request till request bills ≡ some o) × Marks id print o

found-Marks :
    (till request : Option String) (id : ℕ) (print : String) (x : Bill) (bills : List Bill)
    {o : Bill}
    → bears till request x ≡ true
    → find_request till request (x ∷ bills) ≡ some o
    → Marks id print o
    → Marks id print x
unfolding find_request
found-Marks till request id print x bills {o} k e marks =
    let same : o ≡ x = ground arith in subst (Marks id print) same marks

pub Stands-write_total :
    (till request : Option String) (id : ℕ) (print : String) (other : ℕ) (total : ℤ)
    (bills : List Bill)
    → Stands till request id print bills
    → Stands till request id print (update_bill other (write_total total) bills)
unfolding find_request update_bill
Stands-write_total till request id print other total [] (o, e, marks) = cc
Stands-write_total till request id print other total (x ∷ bills) (o, e, marks) =
    elim (Bool-cases (bears till request x)) [
      | inl k ↦ elim (Bool-cases (x.id == other)) [
        | inl i ↦
            rw (i, k)
              (write_total total x, refl, found-Marks till request id print x bills k e marks)
        | inr i ↦ rw (i, k) (x, refl, found-Marks till request id print x bills k e marks)
      ]
      | inr k ↦
          let rest =
            Stands-write_total till request id print other total bills (o, ground arith, marks) in
          elim (Bool-cases (x.id == other)) [ inl i ↦ rw (i, k) rest | inr i ↦ rw (i, k) rest ]
    ]

pub Stands-update :
    (till request : Option String) (id : ℕ) (print : String) (change : Bill → Bill)
    (bills : List Bill) {st : ℤ}
    → ((b : Bill) → bears till request (change b) ≡ true)
    → ((b : Bill) → b.id ≡ id → Marks id print (change b))
    → request_taken id till request bills ≡ false
    → bill_state id bills ≡ some st
    → Stands till request id print (update_bill id change bills)
unfolding find_request update_bill request_taken bill_state
Stands-update till request id print change [] borne marked free there = cc
Stands-update till request id print change (x ∷ bills) {st} borne marked free there =
    elim (Bool-cases (x.id == id)) [
      | inl i ↦ rw (i, borne x) (change x, refl, marked x ((==_iff x.id id).0 i))
      | inr i ↦
          let rest =
            Stands-update till request id print change bills {st = st} borne marked (ground arith)
              (ground arith) in
          let k : bears till request x ≡ false = ground arith in rw (i, k) rest
    ]

pub sale_bill-bears :
    (c : Context) (request : AddBillRequest) (sequence : Option ℕ) (ident : BillIdentity) (b : Bill)
    {till id : String}
    → nil_if_empty ident.pos_id ≡ some till
    → nil_if_empty ident.bill_request_id ≡ some id
    → bears (some till) (some id) (sale_bill c request sequence ident b) ≡ true
unfolding sale_bill
sale_bill-bears c request sequence ident b {till} {id} p r =
    rw (p, r) (rw (str_eq_refl till, str_eq_refl id) refl)

pub sale_bill-Marks :
    (c : Context) (request : AddBillRequest) (sequence : Option ℕ) (ident : BillIdentity) (id : ℕ)
    (b : Bill)
    → b.id ≡ id
    → str_eq ident.fingerprint "" ≡ false
    → Marks id ident.fingerprint (sale_bill c request sequence ident b)
unfolding sale_bill
sale_bill-Marks c request sequence ident id b e given = (e, rw given refl, refl)
