-- ===== src/Voucher/Validation.antt =====
-- Which requests validateCashVoucherRequest of pkg/handlers/cash_vouchar.go accepts.
use ifritah_go.Prelude.{
  List, [], ◌∷◌, Option, none, some, String, str_eq, str_eq_iff, Bool, true, false, not, ◌&&◌, ◌||◌,
  ◌≡◌, refl, arith, pos, ltb_ℤ, Result, ok, err, Bool-cases, inl, inr,
}
use ifritah_go.Voucher.Table.{CashVoucherCreateRequest}
use ifritah_go.Voucher.Handlers.{is_blank, check_method, validate_cash_voucher_request}

abbrev pub is_ok {ℓ κ} : {E : Type ℓ} {A : Type κ} → Result E A → Bool
is_ok (ok a) = true
is_ok (err e) = false

-- What the messages of the validation ask for, written out apart from it.
abbrev pub one_of : List String → String → Bool
one_of [] s = false
one_of (t ∷ texts) s = str_eq s t || one_of texts s

-- A text that is given and not empty.
abbrev pub is_given : Option String → Bool
is_given none = false
is_given (some s) = not (str_eq s "")

-- The method, in lower case, is absent or cash, or it is a bank transfer with both bank fields.
abbrev pub has_method : String → CashVoucherCreateRequest → Bool
has_method pm req =
    one_of ("" ∷ "cash" ∷ []) pm
    || (str_eq pm "bank_transfer" && (is_given req.bank_name && is_given req.bank_account))

abbrev pub is_complete : (String → String) → CashVoucherCreateRequest → Bool
is_complete to_lower req =
    ltb_ℤ (pos 0) req.amount
    && (one_of ("disbursement" ∷ "receipt" ∷ "cash_box" ∷ []) req.voucher_type
        && (one_of ("supplier" ∷ "client" ∷ "employee" ∷ "other" ∷ []) req.recipient_type
            && has_method (to_lower req.payment_method) req))

is_given-not : (s : Option String) → is_given s ≡ not (is_blank s)
is_given-not none = refl
is_given-not (some s) = refl

check_method-is_ok :
    (pm : String) (req : CashVoucherCreateRequest)
    → str_eq pm "" ≡ false
    → is_ok (check_method pm req) ≡ has_method pm req
check_method-is_ok pm req h = elim (Bool-cases (str_eq pm "cash")) [
  | inl cash ↦ rw ((str_eq_iff pm "cash").0 cash) refl
  | inr other ↦ rw (is_given-not req.bank_name, is_given-not req.bank_account) (ground arith)
]

-- A request is accepted exactly when its amount is positive, its voucher type is disbursement, receipt
-- or cash_box, its recipient type is supplier, client, employee or other, and its payment method is, in
-- lower case, empty, cash, or a bank transfer for which the bank and the account are given and not
-- empty.
pub validate_cash_voucher_request-is_ok :
    (to_lower : String → String) (req : CashVoucherCreateRequest)
    → is_ok (validate_cash_voucher_request to_lower req) ≡ is_complete to_lower req
unfolding validate_cash_voucher_request
validate_cash_voucher_request-is_ok to_lower req =
    elim (Bool-cases (str_eq (to_lower req.payment_method) "")) [
      | inl blank ↦ rw blank (ground arith)
      | inr given ↦ ground (arith, check_method-is_ok (to_lower req.payment_method) req given)
    ]
