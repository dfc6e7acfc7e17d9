-- ===== src/Voucher/Tests.antt =====
-- Tests of the cash vouchers (pkg/handlers/cash_vouchar.go), and their theorems at concrete inputs.
use mathlib.Core.List.{Memᴰ}
use ifritah_go.Prelude.{
  ℕ, ◌^◌, ◌≤◌, ◌<◌, String, str_eq, Bool, true, false, Option, none, some, List, [], ◌∷◌, ◌≡◌, refl,
  arith, ℤ, pos, pos_part, neg_part, ◌+ℤ◌, ◌≤ℤ◌, eq_ℤ, neg_ℤ, to_int32,
}
use ifritah_go.Voucher.Table.{
  CashVoucherCreateRequest, Voucher, new_voucher, approve_voucher, next_number, state_of,
}
use ifritah_go.Voucher.Handlers.{
  Session, CheckFaults, proceed, Write, insert, update, approve, updated, bank_account,
  check_create, check_approve, perform, validate_cash_voucher_request, with_method,
}
use ifritah_go.Voucher.Workflow.{
  create_request, approve_request, check, System, admit, write, Reach, here, then_step,
  Reach-posted,
}
use ifritah_go.Voucher.Approval.{IsManaged, empty_system, Reach-approval}
use ifritah_go.Voucher.Numbers.{next_number_fresh}
use ifritah_go.Voucher.Validation.{is_ok, is_complete, validate_cash_voucher_request-is_ok}

-- The texts of these tests are in lower case.
abbrev lower : String → String
lower s = s

abbrev receipt : CashVoucherCreateRequest
receipt = record {
  voucher_type = "receipt";
  effective_date = 20;
  amount = pos 1500;
  payment_method = "";
  recipient_type = "client";
  recipient_id = some (pos 4);
  recipient_name = "client four";
  reference_type = none;
  reference_id = none;
  description = none;
  note = none;
  bank_name = none;
  bank_account = none;
  transaction_reference = none;
  store_id = pos 2;
  branch_id = 1;
}

abbrev fine : CheckFaults
fine = record { begin = false; query = false }

abbrev manager : Session
manager = record { id = pos 7; role = "manager" }

-- Every session carries the role of a manager.
abbrev Issued : ℤ → String → Type 0
Issued id role = role ≡ "manager"

abbrev first_write : Write
first_write = insert (pos 1) (pos 7) (with_method receipt)

check_create_test :
    check manager fine (create_request lower true (some receipt)) [] ≡ proceed first_write
unfolding check check_create next_number to_int32 ◌+ℤ◌
check_create_test = refl

validate_test :
    validate_cash_voucher_request lower
      (record receipt { payment_method = "bank_transfer"; bank_name = some "SNB" })
    ≡ ifritah_go.Prelude.err bank_account
unfolding validate_cash_voucher_request
validate_test = refl

validate_cash_voucher_request-is_ok_example :
    is_ok (validate_cash_voucher_request lower receipt) ≡ is_complete lower receipt
validate_cash_voucher_request-is_ok_example = validate_cash_voucher_request-is_ok lower receipt

abbrev drafted : Voucher
drafted = record {
  id = 1;
  voucher_number = pos 1;
  voucher_type = "receipt";
  effective_date = 20;
  amount = pos 1500;
  payment_method = "cash";
  state = 0;
  reference_type = none;
  reference_id = none;
  recipient_type = "client";
  recipient_id = some (pos 4);
  recipient_name = "client four";
  description = none;
  note = none;
  bank_name = none;
  bank_account = none;
  transaction_reference = none;
  store_id = pos 2;
  merchant_id = pos 7;
  branch_id = some 1;
  created_by = pos 7;
  approved_by = none;
  approved_at = none;
}

abbrev signed : Voucher
signed = record drafted { state = 1; approved_by = some (pos 7); approved_at = some 21 }

abbrev paid : Voucher
paid = record signed { state = 2 }

-- A voucher is created, approved and posted.
abbrev created_system : System
created_system = record { table = drafted ∷ []; pending = [] }

to_created : Reach Issued empty_system created_system
unfolding perform new_voucher to_int32
to_created =
    then_step
      (then_step here
        (admit manager fine (create_request lower true (some receipt)) refl check_create_test))
      (write [] [] first_write false 1 refl)

abbrev approval : Write
approval = approve 1 (pos 7) (pos 7) 21

check_approve_test :
    check manager fine (approve_request (some 1) 21) (drafted ∷ []) ≡ proceed approval
unfolding check check_approve state_of
check_approve_test = refl

abbrev signed_system : System
signed_system = record { table = signed ∷ []; pending = [] }

to_signed : Reach Issued empty_system signed_system
unfolding perform approve_voucher
to_signed =
    then_step
      (then_step to_created
        (admit manager fine (approve_request (some 1) 21) refl check_approve_test))
      (write [] [] approval false 2 refl)

Reach-approval_example :
    (signed.approved_by ≡ some signed.created_by) × IsManaged Issued signed.created_by
Reach-approval_example = Reach-approval Issued signed to_signed (Memᴰ.head refl) (omega arith)

abbrev posted_system : System
posted_system = record { table = paid ∷ []; pending = [] }

abbrev second_write : Write
second_write = insert (pos 2) (pos 7) (with_method receipt)

second_test :
    check manager fine (create_request lower true (some receipt)) (paid ∷ []) ≡ proceed second_write
unfolding check check_create next_number to_int32 ◌+ℤ◌
second_test = refl

abbrev overlapped_system : System
overlapped_system = record {
  table = paid ∷ record drafted { id = 2; voucher_number = pos 2 } ∷ [];
  pending = [];
}

overlapping : Reach Issued posted_system overlapped_system
unfolding perform new_voucher to_int32
overlapping =
    then_step
      (then_step here
        (admit manager fine (create_request lower true (some receipt)) refl second_test))
      (write [] [] second_write false 2 refl)

Reach-posted_example : Memᴰ paid overlapped_system.table
Reach-posted_example = Reach-posted Issued paid overlapping (Memᴰ.head refl) refl

-- The voucher is approved between the check of an update and its write: the update is answered with
-- 200, and changes nothing.
late_update : perform false 2 (update 1 (pos 7) receipt) (signed ∷ []) ≡ (updated, signed ∷ [])
unfolding perform
late_update = refl

next_number_fresh_example :
    drafted.voucher_number +ℤ pos 1
    ≤ℤ (new_voucher 2 (next_number (pos 7) (drafted ∷ [])) (pos 7) receipt).voucher_number
next_number_fresh_example =
    next_number_fresh (pos 7) drafted (drafted ∷ []) 2 receipt (Memᴰ.head refl) refl
      (unfold next_number ◌+ℤ◌ in omega arith) (unfold next_number ◌+ℤ◌ in omega arith)
