-- ===== src/Voucher/Handlers.antt =====
-- CreateCashVoucher, UpdateCashVoucher, DeleteCashVoucher, ApproveCashVoucher and PostCashVoucher of
-- pkg/handlers/cash_vouchar.go. A handler reads the table and then writes it in a statement of its
-- own, and other requests can write in between: `check` is a handler up to its write, and `perform` is
-- the write with the answer. The path id and the body are arguments, `none` where they do not parse.
-- strings.ToLower is the argument `to_lower`.
use ifritah_go.Prelude.{
  ℕ, String, str_eq, Bool, true, not, ◌&&◌, ◌||◌, Option, none, some, ◌∷◌, [], ◌++◌, ◌==◌,
  if◌then◌else◌, ℤ, pos, leb_ℤ, to_int32, Result, ok, err,
}
use ifritah_go.Voucher.Table.{
  CashVoucherCreateRequest, Table, is_in, state_of, next_number, update_where, delete_where,
  new_voucher, edit_voucher, approve_voucher, post_voucher,
}

-- The messages of validateCashVoucherRequest.
pub data Invalid : Type 0 where
  amount voucher_type recipient_type payment_method bank_name bank_account : Invalid

abbrev pub is_voucher_type : String → Bool
is_voucher_type t = str_eq t "disbursement" || (str_eq t "receipt" || str_eq t "cash_box")

abbrev pub is_recipient_type : String → Bool
is_recipient_type t =
    str_eq t "supplier" || (str_eq t "client" || (str_eq t "employee" || str_eq t "other"))

-- A pointer that is nil, or points to the empty text.
abbrev pub is_blank : Option String → Bool
is_blank none = true
is_blank (some s) = str_eq s ""

abbrev pub check_bank : String → CashVoucherCreateRequest → Result Invalid CashVoucherCreateRequest
check_bank pm req =
    if str_eq pm "bank_transfer" && is_blank req.bank_name
    then err bank_name
    else if str_eq pm "bank_transfer" && is_blank req.bank_account
    then err bank_account
    else ok req

abbrev pub check_method :
    String → CashVoucherCreateRequest → Result Invalid CashVoucherCreateRequest
check_method pm req =
    if not (str_eq pm "cash") && not (str_eq pm "bank_transfer")
    then err payment_method
    else check_bank pm req

-- The request comes back because the check fills in an empty payment method.
unfoldable pub validate_cash_voucher_request :
    (String → String) → CashVoucherCreateRequest → Result Invalid CashVoucherCreateRequest
validate_cash_voucher_request to_lower req =
    if leb_ℤ req.amount (pos 0)
    then err amount
    else if not (is_voucher_type req.voucher_type)
    then err voucher_type
    else if not (is_recipient_type req.recipient_type)
    then err recipient_type
    else if str_eq (to_lower req.payment_method) ""
    then check_method "cash" (record req { payment_method = "cash" })
    else check_method (to_lower req.payment_method) req

-- The id and the role in the claims of the request.
pub record Session : Type 0 where
  pub id : ℤ
  pub role : String

pub data Detail : Type 0 where
  bad_id bad_body no_store no_voucher not_draft not_approved no_permission database : Detail
  invalid : Invalid → Detail

pub data Reply : Type 0 where
  created : ℕ → ℤ → Reply  -- 201, with id and voucher_number
  updated deleted posted : Reply  -- 200
  approved : ℤ → ℕ → Reply  -- 200, with approved_by and approved_at
  refused : ℕ → Detail → Reply  -- a status and its detail

-- The write that a request goes on to.
pub data Write : Type 0 where
  insert : ℤ → ℤ → CashVoucherCreateRequest → Write
  update : ℕ → ℤ → CashVoucherCreateRequest → Write
  delete : ℕ → ℤ → Write
  approve : ℕ → ℤ → ℤ → ℕ → Write
  post : ℕ → ℤ → Write

pub data Checked : Type 0 where
  answer : Reply → Checked
  proceed : Write → Checked

-- The default payment method of CreateCashVoucher and UpdateCashVoucher.
abbrev pub with_method : CashVoucherCreateRequest → CashVoucherCreateRequest
with_method req = record req {
  payment_method = if str_eq req.payment_method "" then "cash" else req.payment_method;
}

abbrev pub validated :
    (String → String)
    → Option CashVoucherCreateRequest
    → (CashVoucherCreateRequest → Checked)
    → Checked
validated to_lower none go = answer (refused 400 bad_body)
validated to_lower (some req) go = elim (validate_cash_voucher_request to_lower req) [
  | err e ↦ answer (refused 400 (invalid e))
  | ok req ↦ go req
]

-- Which statements before the write fail.
pub record CheckFaults : Type 0 where
  pub begin : Bool
  pub query : Bool

-- CreateCashVoucher from the store check up to the insert. The merchant is the session's id as an
-- int32.
abbrev pub numbered : Session → CheckFaults → Bool → CashVoucherCreateRequest → Table → Checked
numbered session f store_exists req table =
    let merchant = to_int32 session.id in
    if not store_exists
    then answer (refused 400 no_store)
    else if f.begin
    then answer (refused 500 database)
    else if f.query
    then answer (refused 500 database)
    else proceed (insert (next_number merchant table) merchant (with_method req))

unfoldable pub check_create :
    (String → String)
    → Session
    → CheckFaults
    → Bool
    → Option CashVoucherCreateRequest
    → Table
    → Checked
unfolding validate_cash_voucher_request
check_create to_lower session f store_exists body table =
    validated to_lower body λ req. numbered session f store_exists req table

-- The check that the voucher exists and is in the state that the handler wants.
abbrev pub in_state : CheckFaults → ℕ → Detail → Option ℕ → Write → Checked
in_state f wanted detail none w =
    if f.query then answer (refused 500 database) else answer (refused 404 no_voucher)
in_state f wanted detail (some current) w =
    if f.query
    then answer (refused 500 database)
    else if not (current == wanted)
    then answer (refused 400 detail)
    else proceed w

abbrev pub with_id : Option ℕ → (ℕ → Checked) → Checked
with_id none go = answer (refused 400 bad_id)
with_id (some id) go = go id

unfoldable pub check_update :
    (String → String)
    → Session
    → CheckFaults
    → Option ℕ
    → Option CashVoucherCreateRequest
    → Table
    → Checked
unfolding validate_cash_voucher_request
check_update to_lower session f param body table = with_id param λ id.
    validated to_lower body λ req.
      in_state f 0 not_draft (state_of id session.id table) (update id session.id (with_method req))

unfoldable pub check_delete : Session → CheckFaults → Option ℕ → Table → Checked
check_delete session f param table =
    with_id param λ id. in_state f 0 not_draft (state_of id session.id table) (delete id session.id)

abbrev pub is_manager : String → Bool
is_manager role = str_eq role "admin" || str_eq role "manager"

unfoldable pub check_approve : Session → CheckFaults → Option ℕ → ℕ → Table → Checked
check_approve session f param now table = with_id param λ id.
    if not (is_manager session.role)
    then answer (refused 403 no_permission)
    else in_state f 0 not_draft (state_of id session.id table)
        (approve id session.id session.id now)

unfoldable pub check_post : Session → CheckFaults → Option ℕ → Table → Checked
check_post session f param table =
    with_id param
      λ id. in_state f 1 not_approved (state_of id session.id table) (post id session.id)

-- The statement of a write; `next` is the id that AUTO_INCREMENT gives.
unfoldable pub execute : ℕ → Write → Table → Table
execute next (insert number merchant req) table =
    table ++ (new_voucher next number merchant req ∷ [])
execute next (update id merchant req) table =
    update_where (is_in id merchant 0) (edit_voucher req) table
execute next (delete id merchant) table = delete_where (is_in id merchant 0) table
execute next (approve id merchant user now) table =
    update_where (is_in id merchant 0) (approve_voucher user now) table
execute next (post id merchant) table = update_where (is_in id merchant 1) post_voucher table

abbrev pub reply_to : ℕ → Write → Reply
reply_to next (insert number merchant req) = created next number
reply_to next (update id merchant req) = updated
reply_to next (delete id merchant) = deleted
reply_to next (approve id merchant user now) = approved user now
reply_to next (post id merchant) = posted

-- The write of a handler, and its answer; how many rows the statement met is not looked at.
unfoldable pub perform : Bool → ℕ → Write → Table → Reply × Table
unfolding execute
perform failing next w table =
    if failing then (refused 500 database, table) else (reply_to next w, execute next w table)
