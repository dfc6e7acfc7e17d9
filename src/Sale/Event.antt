-- ===== src/Sale/Event.antt =====
-- BillEvent of pkg/handlers/pub.go: the outbox event of a final sale. The JSON of a message is an
-- argument, `none` if it fails.
use mathlib.Core.Option.{map as map_option}
use ifritah_go.Prelude.{
  ℕ, ◌^◌, List, String, str_append, codes, string_of, Option, none, some, leb, if◌then◌else◌,
  Result, ok, err,
}
use ifritah_go.Identity.Decimal.{format_uint}
use ifritah_go.Identity.Keys.{document_key, doc_bill, KeyError}
use ifritah_go.Identity.Uuid.{Bytes16, new_uuid}
use ifritah_go.Outbox.Append.{Event}
use ifritah_go.Sale.Request.{BillIdentity}

-- The envelope that the ZATCA daemon reads.
pub record Message : Type 0 where
  pub doc_type : String
  pub id : ℕ
  pub branch_id : ℕ
  pub db_name : String
  pub tenant_key : String
  pub pos_id : String
  pub bill_request_id : String
  pub event_id : String
  pub egs_sequence_id : String
  pub invoice_uuid : String
  pub request_fingerprint : String

-- ZatcaPublisher, without its connection; `marshal` is json.Marshal.
pub record ZatcaPublisher : Type 0 where
  pub db_name : String
  pub tenant_key : String
  pub marshal : Message → Option String

abbrev pub bill_message : ZatcaPublisher → ℕ → ℕ → BillIdentity → String → Message
bill_message p bill_id branch_id ident event_id = record {
  doc_type = string_of doc_bill;
  id = bill_id;
  branch_id = branch_id;
  db_name = p.db_name;
  tenant_key = p.tenant_key;
  pos_id = ident.pos_id;
  bill_request_id = ident.bill_request_id;
  event_id = event_id;
  egs_sequence_id = string_of (format_uint branch_id);
  invoice_uuid = ident.invoice_uuid;
  request_fingerprint = ident.fingerprint;
}

abbrev pub dotted : String → String → String
dotted a b = str_append a (str_append "." b)

-- `none` where BillEvent returns an error.
abbrev pub keyed_event :
    ZatcaPublisher → ℕ → String → Result KeyError (List ℕ) → Option String → Option Event
keyed_event p branch_id event_id (err e) payload = none
keyed_event p branch_id event_id (ok key) none = none
keyed_event p branch_id event_id (ok key) (some payload) = some (record {
  event_id = event_id;
  document_key = string_of key;
  subject =
      dotted "zatca"
        (dotted (string_of doc_bill) (dotted p.db_name (string_of (format_uint branch_id))));
  payload = payload;
})

abbrev pub identified_event : ZatcaPublisher → ℕ → ℕ → BillIdentity → Option String → Option Event
identified_event p bill_id branch_id ident none = none
identified_event p bill_id branch_id ident (some event_id) =
    keyed_event p branch_id event_id (document_key (codes p.tenant_key) branch_id doc_bill bill_id)
      (p.marshal (bill_message p bill_id branch_id ident event_id))

unfoldable pub bill_event : ZatcaPublisher → Option Bytes16 → ℕ → ℕ → BillIdentity → Option Event
bill_event p bytes bill_id branch_id ident =
    if leb (2 ^ 63) bill_id
    then none
    else identified_event p bill_id branch_id ident (map_option string_of (new_uuid bytes))
