-- ===== src/Sale/Identified.antt =====
-- What the checks before a sale's transaction give of a final request.
use ifritah_go.Prelude.{
  String, str_eq, str_eq_iff, codes, true, false, not, Option, none, some, ◌≡◌, refl, arith, inl,
  inr, Result, ok, err, Bool-cases, contains,
}
use mathlib.Core.Path.{subst}
use ifritah_go.Identity.Keys.{validate_pos_id}
use ifritah_go.Identity.Uuid.{validate_bill_request_id, hex_run}
use ifritah_go.Sale.Request.{
  AddBillRequest, BillIdentity, Refusal, is_final, sale_fingerprint, identified,
  final_sale_identity, paid_amount_error, verify_final_sale,
}
use ifritah_go.Sale.Write.{Context, SaleFaults, nil_if_empty}
use ifritah_go.Sale.Handler.{and_then, is_in_branch, check_access, check_sale}

-- An identity that is the request's: neither of its keys is NULL.
abbrev pub Identifies : Context → AddBillRequest → BillIdentity → Type 0
Identifies c request ident =
    (nil_if_empty ident.pos_id ≡ some request.pos_id)
    × (nil_if_empty ident.bill_request_id ≡ some request.bill_request_id)
    × (sale_fingerprint c.fingerprint request ≡ some ident.fingerprint)
    × (str_eq ident.pos_id "" ≡ false)

-- What holds of a result that is no error.
abbrev pub OnOk {ℓ} : {A : Type 0} → (A → Type ℓ) → Result Refusal A → Type ℓ
OnOk P (ok a) = P a
OnOk P (err e) = Unit

pub of_ok {ℓ} :
    {A : Type 0} (P : A → Type ℓ) {r : Result Refusal A} {a : A} → r ≡ ok a → OnOk P r → P a
of_ok P e h = subst (OnOk P) e h

absurd_bool {ℓ} : {A : Type ℓ} → false ≡ true → A
absurd_bool h = absurd (ground arith)

nil_if_empty-some : (s : String) → str_eq s "" ≡ false → nil_if_empty s ≡ some s
nil_if_empty-some s h = rw h refl

valid_pos-nonempty : (s : String) → validate_pos_id (codes s) ≡ true → str_eq s "" ≡ false
unfolding validate_pos_id
valid_pos-nonempty s h = elim (Bool-cases (str_eq s "")) [
  | inl e ↦ absurd_bool (subst (λ t. validate_pos_id (codes t) ≡ true) ((str_eq_iff s "").0 e) h)
  | inr e ↦ e
]

valid_request-nonempty :
    (s : String) → validate_bill_request_id (codes s) ≡ true → str_eq s "" ≡ false
unfolding validate_bill_request_id hex_run
valid_request-nonempty s h = elim (Bool-cases (str_eq s "")) [
  | inl e ↦
      absurd_bool (subst (λ t. validate_bill_request_id (codes t) ≡ true) ((str_eq_iff s "").0 e) h)
  | inr e ↦ e
]

identified-Identifies :
    (c : Context) (request : AddBillRequest) (uuid print : Option String)
    → sale_fingerprint c.fingerprint request ≡ print
    → str_eq request.pos_id "" ≡ false
    → str_eq request.bill_request_id "" ≡ false
    → OnOk (Identifies c request) (identified request uuid print)
identified-Identifies c request none print h p r = tt
identified-Identifies c request (some uuid) none h p r = tt
identified-Identifies c request (some uuid) (some print) h p r =
    (nil_if_empty-some request.pos_id p, nil_if_empty-some request.bill_request_id r, h, p)

final_sale_identity-Identifies :
    (c : Context) (request : AddBillRequest)
    → is_final request ≡ true
    → OnOk (Identifies c request) (final_sale_identity c.fingerprint c.invoice_bytes request)
unfolding final_sale_identity
final_sale_identity-Identifies c request final =
    rw final (elim (Bool-cases (validate_pos_id (codes request.pos_id))) [
      | inl p ↦ elim (Bool-cases (validate_bill_request_id (codes request.bill_request_id))) [
        | inl r ↦
            rw (p, r)
              (identified-Identifies c request _ _ refl (valid_pos-nonempty _ p)
                (valid_request-nonempty _ r))
        | inr r ↦ rw (p, r) tt
      ]
      | inr p ↦ rw p tt
    ])

and_then-OnOk {ℓ} :
    {A B : Type 0} (P : B → Type ℓ) (r : Result Refusal A) (next : A → Result Refusal B)
    → ((a : A) → r ≡ ok a → OnOk P (next a))
    → OnOk P (and_then r next)
and_then-OnOk P (err e) next h = tt
and_then-OnOk P (ok a) next h = h a refl

check_access-OnOk {ℓ} :
    (P : BillIdentity → Type ℓ) (c : Context) (f : SaleFaults) (request : AddBillRequest)
    (ident : BillIdentity)
    → P ident
    → OnOk P (check_access c f request ident)
check_access-OnOk P c f request ident h =
    elim (Bool-cases (not (contains c.store_ids request.store_id))) [
      | inl e ↦ rw e tt
      | inr e ↦ rw e (elim (Bool-cases f.store_branch) [
        | inl e ↦ rw e tt
        | inr e ↦
            rw e
              (elim (Bool-cases
                (not (is_in_branch (c.store_branch request.store_id) request.branch_id))) [
                  | inl e ↦ rw e tt
                  | inr e ↦ rw e (elim (Bool-cases f.begin) [ inl e ↦ rw e tt | inr e ↦ rw e h ])
                ])
      ])
    ]

pub check_sale-Identifies :
    (c : Context) (f : SaleFaults) (request : AddBillRequest)
    → is_final request ≡ true
    → OnOk (Identifies c request) (check_sale c f request)
unfolding check_sale
check_sale-Identifies c f request final =
    and_then-OnOk (Identifies c request) (final_sale_identity c.fingerprint c.invoice_bytes request)
      _
      (λ ident e.
        and_then-OnOk (Identifies c request) (paid_amount_error request.paid_amount) _ (λ u paid.
          and_then-OnOk (Identifies c request) (verify_final_sale request) _ (λ v verified.
            check_access-OnOk (Identifies c request) c f request ident
              (of_ok (Identifies c request) e (final_sale_identity-Identifies c request final)))))
