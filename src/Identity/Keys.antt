-- ===== src/Identity/Keys.antt =====
-- pkg/identity/documentkey.go, and the point-of-sale id of pkg/identity/requestid.go. A text is the
-- list of its characters, which utf8.RuneCountInString counts.
use ifritah_go.Prelude.{
  ℕ, Text, codes, text_eq, Bool, not, ◌&&◌, ◌||◌, [], ◌∷◌, ◌++◌, ltb, ◌==◌, if◌then◌else◌, length,
  contains, Result, ok, err,
}
use ifritah_go.Identity.Decimal.{format_uint}

pub data KeyError : Type 0 where
  bad_length has_colon no_branch no_source unknown_type : KeyError

abbrev pub doc_bill : Text
doc_bill = codes "bill"

abbrev pub doc_credit_note : Text
doc_credit_note = codes "credit_note"

abbrev pub doc_debit_note : Text
doc_debit_note = codes "debit_note"

abbrev pub max_tenant_key_len : ℕ
max_tenant_key_len = 64

unfoldable pub validate_tenant_key : Text → Result KeyError (Unit {0})
validate_tenant_key key =
    if text_eq key [] || ltb max_tenant_key_len (length key)
    then err bad_length
    else if contains key b':'
    then err has_colon
    else ok tt

-- strings.Join(parts, ":") of the four parts.
abbrev pub join : Text → Text → Text → Text → Text
join a b c d = a ++ (b':' ∷ (b ++ (b':' ∷ (c ++ (b':' ∷ d)))))

abbrev pub after_tenant : Result KeyError (Unit {0}) → Result KeyError Text → Result KeyError Text
after_tenant (ok u) r = r
after_tenant (err e) r = err e

unfoldable pub document_key : Text → ℕ → Text → ℕ → Result KeyError Text
unfolding validate_tenant_key
document_key tenant_key branch_id doc_type source_id =
    after_tenant (validate_tenant_key tenant_key) (
      if branch_id == 0
      then err no_branch
      else if source_id == 0
      then err no_source
      else if not (text_eq doc_type doc_bill)
          && (not (text_eq doc_type doc_credit_note) && not (text_eq doc_type doc_debit_note))
      then err unknown_type
      else ok (join tenant_key (format_uint branch_id) doc_type (format_uint source_id)))

abbrev pub max_pos_id_len : ℕ
max_pos_id_len = 64

-- The white space of strings.TrimSpace: the ASCII spaces, U+0085, U+00A0 and the spaces of Unicode.
abbrev pub is_space : ℕ → Bool
is_space c =
    contains
      (9 ∷ 10 ∷ 11 ∷ 12 ∷ 13 ∷ 32 ∷ 0x85 ∷ 0xa0 ∷ 0x1680 ∷ 0x2028 ∷ 0x2029 ∷ 0x202f ∷ 0x205f
        ∷ 0x3000 ∷ [])
      c
    || (not (ltb c 0x2000) && ltb c 0x200b)

abbrev pub trim_left : Text → Text
trim_left [] = []
trim_left (c ∷ s) = let rest = trim_left s in if is_space c then rest else c ∷ s

-- Trailing spaces are dropped from the right.
abbrev pub trim_right : Text → Text
trim_right [] = []
trim_right (c ∷ s) =
    let rest = trim_right s in if text_eq rest [] && is_space c then [] else c ∷ rest

unfoldable pub trim_space : Text → Text
trim_space s = trim_right (trim_left s)

unfoldable pub validate_pos_id : Text → Bool
unfolding trim_space
validate_pos_id pos_id = not (
    text_eq pos_id []
    || (not (text_eq (trim_space pos_id) pos_id) || ltb max_pos_id_len (length pos_id)))
