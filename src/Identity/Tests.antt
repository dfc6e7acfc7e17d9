-- ===== src/Identity/Tests.antt =====
-- Tests of the identity model (pkg/identity), and its theorems at concrete inputs.
use ifritah_go.Prelude.{
  ℕ, ◌≡◌, refl, arith, codes, Text, true, false, take, drop, contains, ok, err,
}
use ifritah_go.Identity.Decimal.{format_uint}
use ifritah_go.Identity.Keys.{
  has_colon, no_branch, no_source, unknown_type, doc_bill, document_key, validate_pos_id,
}
use ifritah_go.Identity.Injective.{document_key-injective}
use ifritah_go.Identity.Uuid.{
  Bytes16, format_uuid, hex_bytes, version_byte, variant_byte, is_lower_uuid,
  validate_bill_request_id, hex_run,
}
use ifritah_go.Identity.Generated.{char_of, format_uuid_lem}

abbrev key_test : Text
key_test = codes "acme:12:bill:407"

document_key_test : document_key (codes "acme") 12 doc_bill 407 ≡ ok key_test
unfolding document_key format_uint
document_key_test = refl

document_key_errors :
    (document_key (codes "a:b") 12 doc_bill 407 ≡ err has_colon)
    × (document_key (codes "acme") 0 doc_bill 407 ≡ err no_branch)
    × (document_key (codes "acme") 12 doc_bill 0 ≡ err no_source)
    × (document_key (codes "acme") 12 (codes "receipt") 407 ≡ err unknown_type)
unfolding document_key
document_key_errors = (refl, refl, refl, refl)

document_key-injective_example :
    (codes "acme" ≡ codes "acme")
    × (◌≡◌ {A = ℕ} 12 12)
    × (doc_bill ≡ doc_bill)
    × (◌≡◌ {A = ℕ} 407 407)
document_key-injective_example =
    document_key-injective (codes "acme") (codes "acme") 12 12 doc_bill doc_bill 407 407
      (omega arith) (omega arith) (omega arith) (omega arith) document_key_test document_key_test

abbrev bytes : Bytes16
bytes i = 255

format_uuid_test : format_uuid bytes ≡ codes "ffffffff-ffff-4fff-bfff-ffffffffffff"
unfolding format_uuid hex_bytes version_byte variant_byte
format_uuid_test = refl

format_uuid_lem_example :
    (is_lower_uuid (format_uuid bytes) ≡ true)
    × (take 1 (drop 14 (format_uuid bytes)) ≡ codes "4")
    × (contains (codes "89ab") (char_of (drop 19 (format_uuid bytes))) ≡ true)
format_uuid_lem_example = format_uuid_lem bytes (λ j. omega arith)

validate_bill_request_id_test :
    (validate_bill_request_id (codes "0b1e7c2a-0000-4000-8000-00000000000a") ≡ true)
    × (validate_bill_request_id (codes "0B1e7c2a-0000-4000-8000-00000000000a") ≡ false)
unfolding validate_bill_request_id hex_run
validate_bill_request_id_test = (refl, refl)

validate_pos_id_test :
    (validate_pos_id (codes "pos 1") ≡ true) × (validate_pos_id (codes "pos 1 ") ≡ false)
unfolding validate_pos_id
validate_pos_id_test = (refl, refl)
