-- ===== src/Voucher/Approval.antt =====
-- Who approves a voucher (ApproveCashVoucher, getMerchantID and getUserID of
-- pkg/handlers/cash_vouchar.go).
use mathlib.Core.List.{Memᴰ}
use mathlib.Core.Path.{subst}
use ifritah_go.Prelude.{
  ℕ, ◌≤◌, String, Bool, true, false, not, Option, none, some, List, [], ◌∷◌, ◌++◌, ◌≡◌, refl, sym,
  ap, ◌∙◌, inl, inr, arith, if_rule, ◌==◌, ℤ, eq_ℤ-sound, Result, ok, err, Bool-cases, All,
  All-append, All-mem,
}
use ifritah_go.Voucher.Table.{
  CashVoucherCreateRequest, Voucher, Table, is_in, state_of, update_where, delete_where,
  new_voucher, edit_voucher, approve_voucher, post_voucher,
}
use ifritah_go.Voucher.Handlers.{
  Session, CheckFaults, Checked, answer, proceed, Write, insert, update, delete, approve, post,
  Invalid, Detail, validated, validate_cash_voucher_request, in_state, with_id, is_manager,
  check_create, check_update, check_delete, check_approve, check_post, execute, perform, refused,
  invalid, not_draft, not_approved,
}
use ifritah_go.Voucher.Workflow.{
  Request, create_request, update_request, delete_request, approve_request, post_request, check,
  System, Step, admit, write, Reach, here, then_step,
}

module _ (Issued : ℤ → String → Type 0) where
  -- A session of the user carries the role of a manager or of an admin.
  abbrev pub IsManaged : ℤ → Type 0
  IsManaged user = (role : String) × Issued user role × (is_manager role ≡ true)

  -- An approval that is under way was asked for by a manager, for a voucher of their own.
  abbrev IsLicensed : Write → Type 0
  IsLicensed (approve id merchant user now) = (user ≡ merchant) × (IsManaged user)
  IsLicensed (insert number merchant req) = Unit {0}
  IsLicensed (update id merchant req) = Unit {0}
  IsLicensed (delete id merchant) = Unit {0}
  IsLicensed (post id merchant) = Unit {0}

  abbrev Licenses : Checked → Type 0
  Licenses (answer r) = Unit {0}
  Licenses (proceed w) = IsLicensed w

  in_state-Licenses :
      (f : CheckFaults) (wanted : ℕ) (detail : Detail) (found : Option ℕ) (w : Write)
      → IsLicensed w
      → Licenses (in_state f wanted detail found w)
  in_state-Licenses f wanted detail none w h = if_rule Licenses f.query _ _ tt tt
  in_state-Licenses f wanted detail (some current) w h =
      if_rule Licenses f.query _ _ tt (if_rule Licenses (not (current == wanted)) _ _ tt h)

  checked-Licenses :
      (r : Result Invalid CashVoucherCreateRequest) (go : CashVoucherCreateRequest → Checked)
      → ((req : CashVoucherCreateRequest) → Licenses (go req))
      → Licenses (elim r [ err e ↦ answer (refused 400 (invalid e)) | ok req ↦ go req ])
  checked-Licenses (err e) go h = tt
  checked-Licenses (ok req) go h = h req

  validated-Licenses :
      (to_lower : String → String) (body : Option CashVoucherCreateRequest)
      (go : CashVoucherCreateRequest → Checked)
      → ((req : CashVoucherCreateRequest) → Licenses (go req))
      → Licenses (validated to_lower body go)
  validated-Licenses to_lower none go h = tt
  validated-Licenses to_lower (some req) go h =
      checked-Licenses (validate_cash_voucher_request to_lower req) go h

  with_id-Licenses :
      (param : Option ℕ) (go : ℕ → Checked)
      → ((id : ℕ) → Licenses (go id))
      → Licenses (with_id param go)
  with_id-Licenses none go h = tt
  with_id-Licenses (some id) go h = h id

  check-Licenses :
      (session : Session) (f : CheckFaults) (request : Request) (table : Table)
      → Issued session.id session.role
      → Licenses (check session f request table)
  unfolding check check_create check_update check_delete check_approve check_post
  check-Licenses session f (create_request to_lower store_exists body) table e =
      validated-Licenses to_lower body _ λ req.
        if_rule Licenses (not store_exists) _ _ tt
          (if_rule Licenses f.begin _ _ tt (if_rule Licenses f.query _ _ tt tt))
  check-Licenses session f (update_request to_lower param body) table e =
      with_id-Licenses param _
        λ id. validated-Licenses to_lower body _ λ req. in_state-Licenses f 0 not_draft _ _ tt
  check-Licenses session f (delete_request param) table e =
      with_id-Licenses param _ λ id. in_state-Licenses f 0 not_draft _ _ tt
  check-Licenses session f (approve_request param now) table e = with_id-Licenses param _ λ id.
      elim (Bool-cases (is_manager session.role)) [
        | inl manager ↦ rw manager (
            in_state-Licenses f 0 not_draft (state_of id session.id table) _
              (refl, (session.role, e, manager)))
        | inr other ↦ rw other tt
      ]
  check-Licenses session f (post_request param) table e =
      with_id-Licenses param _ λ id. in_state-Licenses f 1 not_approved _ _ tt

  -- What holds of every voucher at every moment.
  pub record IsTracked (v : Voucher) : Type 0 where
    pub known : v.state ≤ 2
    pub own : v.created_by ≡ v.merchant_id
    pub drafted : v.state ≡ 0 → v.approved_by ≡ none
    pub signed : 1 ≤ v.state → (v.approved_by ≡ some v.merchant_id) × (IsManaged v.merchant_id)

  All-update_where :
      (test : Voucher → Bool) (change : Voucher → Voucher) (table : Table)
      → ((v : Voucher) → test v ≡ true → IsTracked v → IsTracked (change v))
      → All IsTracked table
      → All IsTracked (update_where test change table)
  All-update_where test change [] keep h = tt
  All-update_where test change (v ∷ table) keep h =
      let rest = All-update_where test change table keep h.1 in
      elim (Bool-cases (test v)) [
        | inl hit ↦ rw hit (keep v hit h.0, rest)
        | inr miss ↦ rw miss (h.0, rest)
      ]

  All-delete_where :
      (test : Voucher → Bool) (table : Table)
      → All IsTracked table
      → All IsTracked (delete_where test table)
  All-delete_where test [] h = tt
  All-delete_where test (v ∷ table) h =
      if_rule (All IsTracked) (test v) _ _ (All-delete_where test table h.1)
        (h.0, All-delete_where test table h.1)

  approve-IsTracked :
      (id : ℕ) (merchant user : ℤ) (now : ℕ) (v : Voucher)
      → user ≡ merchant
      → IsManaged user
      → is_in id merchant 0 v ≡ true
      → IsTracked v
      → IsTracked (approve_voucher user now v)
  unfolding approve_voucher
  approve-IsTracked id merchant user now v same manager hit c =
      let owner : v.merchant_id ≡ user =
        eq_ℤ-sound v.merchant_id merchant (ground arith) ∙ sym same in
      record {
        known = omega arith;
        own = c.own;
        drafted = λ e. absurd (omega arith);
        signed = λ e. (ap some (sym owner), subst IsManaged (sym owner) manager);
      }

  execute-IsTracked :
      (next : ℕ) (w : Write) (table : Table)
      → IsLicensed w
      → All IsTracked table
      → All IsTracked (execute next w table)
  unfolding execute new_voucher edit_voucher post_voucher
  execute-IsTracked next (insert number merchant req) table l h =
      All-append IsTracked table _ h (ground arith, tt)
  execute-IsTracked next (update id merchant req) table l h =
      All-update_where _ (edit_voucher req) table (λ v hit c. ground arith) h
  execute-IsTracked next (delete id merchant) table l h = All-delete_where _ table h
  execute-IsTracked next (approve id merchant user now) table l h =
      All-update_where _ (approve_voucher user now) table
        (λ v hit c. approve-IsTracked id merchant user now v l.0 l.1 hit c) h
  execute-IsTracked next (post id merchant) table l h =
      All-update_where _ post_voucher table
        (λ v hit c. record {
          known = omega arith;
          own = c.own;
          drafted = λ e. absurd (omega arith);
          signed = λ e. c.signed (ground arith);
        })
        h

  abbrev IsSound : System → Type 0
  IsSound s = All IsTracked s.table × All IsLicensed s.pending

  taken_out :
      (before after : List Write) (w : Write)
      → All IsLicensed (before ++ (w ∷ after))
      → IsLicensed w × All IsLicensed (before ++ after)
  taken_out [] after w h = (h.0, h.1)
  taken_out (x ∷ before) after w h =
      let (l, rest) = taken_out before after w h.1 in (l, (h.0, rest))

  perform-IsTracked :
      (failing : Bool) (next : ℕ) (w : Write) (table : Table)
      → IsLicensed w
      → All IsTracked table
      → All IsTracked (perform failing next w table).1
  unfolding perform
  perform-IsTracked true next w table l h = h
  perform-IsTracked false next w table l h = execute-IsTracked next w table l h

  Step-IsSound : {s t : System} → Step Issued s t → IsSound s → IsSound t
  Step-IsSound {s} (admit session f request role e) h =
      (h.0, (subst Licenses e (check-Licenses session f request s.table role), h.1))
  Step-IsSound {s} (write before after w failing next e) h =
      let (l, rest) = taken_out before after w (subst (All IsLicensed) e h.1) in
      (perform-IsTracked failing next w s.table l h.0, rest)

  Reach-IsSound : {s t : System} → Reach Issued s t → IsSound s → IsSound t
  Reach-IsSound here h = h
  Reach-IsSound (then_step r st) h = Step-IsSound st (Reach-IsSound r h)

-- No voucher, and no request under way.
abbrev pub empty_system : System
empty_system = record { table = []; pending = [] }

-- However the five requests on vouchers overlap, a voucher that is approved or posted was approved by
-- the user who created it, and a session of that user carried the role of a manager or of an admin: the
-- merchant of a session is its user, so nobody approves another user's voucher. A user's sessions may
-- carry different roles.
pub Reach-approval :
    (Issued : ℤ → String → Type 0) (v : Voucher) {s : System}
    → Reach Issued empty_system s
    → Memᴰ v s.table
    → 1 ≤ v.state
    → (v.approved_by ≡ some v.created_by) × IsManaged Issued v.created_by
Reach-approval Issued v {s} r m h =
    let sound = Reach-IsSound Issued r (tt, tt) in
    let c = All-mem (IsTracked Issued) v s.table sound.0 m in
    let (by, manager) = c.signed h in
    (by ∙ ap some (sym c.own), subst (IsManaged Issued) (sym c.own) manager)
