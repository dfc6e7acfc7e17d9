-- ===== src/Identity/Injective.antt =====
-- One document key stands for one document (DocumentKey of pkg/identity/documentkey.go).
use ifritah_go.Prelude.{
  ℕ, ◌^◌, ◌<◌, Text, text_eq, text_eq_sound, true, false, not, ◌&&◌, [], ◌∷◌, ◌++◌, ◌≡◌, refl, sym,
  ◌∙◌, inl, inr, arith, contains, ok, Bool-cases, All,
}
use ifritah_go.Identity.Decimal.{format_uint, is_digit, format_uint-is_digit, format_uint-injective}
use ifritah_go.Identity.Keys.{doc_bill, doc_credit_note, doc_debit_note, join, document_key}

-- Texts free of a separator are read off before it.
join_cancel :
    (c : ℕ) (s t r r' : Text)
    → contains s c ≡ false
    → contains t c ≡ false
    → s ++ (c ∷ r) ≡ t ++ (c ∷ r')
    → (s ≡ t) × (r ≡ r')
join_cancel c [] [] r r' h k e = (refl, ground arith)
join_cancel c [] (y ∷ t) r r' h k e = absurd (ground arith)
join_cancel c (x ∷ s) [] r r' h k e = absurd (ground arith)
join_cancel c (x ∷ s) (y ∷ t) r r' h k e = ground (arith, join_cancel c s t r r')

digits_no_colon : (s : Text) → All (λ c. is_digit c ≡ true) s → contains s b':' ≡ false
digits_no_colon [] h = refl
digits_no_colon (c ∷ s) h = ground (arith, digits_no_colon s h.1)

known_type :
    (t : Text)
    → (not (text_eq t doc_bill)
        && (not (text_eq t doc_credit_note) && not (text_eq t doc_debit_note)))
      ≡ false
    → contains t b':' ≡ false
known_type t h = elim (Bool-cases (text_eq t doc_bill)) [
  | inl e ↦ rw (text_eq_sound t doc_bill e) refl
  | inr n ↦ elim (Bool-cases (text_eq t doc_credit_note)) [
    | inl e ↦ rw (text_eq_sound t doc_credit_note e) refl
    | inr n' ↦ rw (text_eq_sound t doc_debit_note (ground arith)) refl
  ]
]

-- What a key that is returned says of its parts.
abbrev IsKeyOf : Text → ℕ → Text → ℕ → Text → Type 0
IsKeyOf tenant branch type source key =
    (contains tenant b':' ≡ false)
    × (contains type b':' ≡ false)
    × (key ≡ join tenant (format_uint branch) type (format_uint source))

document_key-eq_ok :
    (tenant : Text) (branch : ℕ) (type : Text) (source : ℕ) {key : Text}
    → document_key tenant branch type source ≡ ok key
    → IsKeyOf tenant branch type source key
unfolding document_key
document_key-eq_ok tenant branch type source h =
    (ground arith, known_type type (ground arith), ground arith)

-- Two documents that get the same key are the same document: the tenant, the branch, the type and
-- the source id agree. Branch and source ids are uint64.
pub document_key-injective :
    (tenant tenant' : Text) (branch branch' : ℕ) (type type' : Text) (source source' : ℕ)
    {key : Text}
    → branch < 2 ^ 64
    → branch' < 2 ^ 64
    → source < 2 ^ 64
    → source' < 2 ^ 64
    → document_key tenant branch type source ≡ ok key
    → document_key tenant' branch' type' source' ≡ ok key
    → (tenant ≡ tenant') × (branch ≡ branch') × (type ≡ type') × (source ≡ source')
document_key-injective tenant tenant' branch branch' type type' source source' hb hb' hs hs' h h' =
    let (no_tenant, no_type, k) = document_key-eq_ok tenant branch type source h in
    let (no_tenant', no_type', k') = document_key-eq_ok tenant' branch' type' source' h' in
    let no_digits = λ (n : ℕ). digits_no_colon (format_uint n) (format_uint-is_digit n) in
    let (same_tenant, rest) =
      join_cancel b':' tenant tenant' _ _ no_tenant no_tenant' (sym k ∙ k') in
    let (same_branch, rest') =
      join_cancel b':' _ _ _ _ (no_digits branch) (no_digits branch') rest in
    let (same_type, rest'') = join_cancel b':' type type' _ _ no_type no_type' rest' in
    (
      same_tenant,
      format_uint-injective branch branch' hb hb' same_branch,
      same_type,
      format_uint-injective source source' hs hs' rest'',
    )
