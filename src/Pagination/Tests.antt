-- ===== src/Pagination/Tests.antt =====
-- Runs of pkg/pagination.
use ifritah_go.Prelude.{
  arith, take, ◌==◌, if◌then◌else◌, String, str_eq, codes, Bool, true, false, Option, none, some,
  List, [], ◌∷◌, ◌≡◌, refl, ℤ, pos, ◌≤ℤ◌, ok, err,
}
use ifritah_go.Pagination.Cursor.{
  Key, number, text, Cursor, sort_mismatch, direction_after, last_id, sort_value, decode,
}
use ifritah_go.Pagination.ListQuery.{
  max_limit, ListRequest, effective_limit, validate, sort_column, build_envelope,
}
use ifritah_go.Pagination.Pages.{RoundTrips, effective_limit_lem, row_at, next_cursor-decode}

abbrev key_of : Bool → List Key
key_of true = number (pos 1) ∷ []
key_of false = number (pos 2) ∷ []

abbrev cursor_at : Bool → Cursor
cursor_at row = record { k = key_of row; s = "-id"; d = direction_after }

abbrev first_number : List Key → Option ℤ
first_number [] = none
first_number (number n ∷ keys) = some n
first_number (text t ∷ keys) = none
first_number (Key.other ∷ keys) = none

abbrev name_of : Option ℤ → String
name_of none = "none"
name_of (some (pos n)) = if n == 1 then "one" else "two"
name_of (some (ℤ.negsuc n)) = "none"

abbrev encoder : Cursor → Option String
encoder c = some (name_of (first_number c.k))

abbrev decoder : String → Option Cursor
decoder raw = some (cursor_at (str_eq raw "one"))

trips : (row : Bool) → RoundTrips encoder decoder (cursor_at row)
trips true = ("one", refl, refl, refl)
trips false = ("two", refl, refl, refl)

keyed : (row : Bool) → (key : Key) × (keys : List Key) × (key_of row ≡ key ∷ keys)
keyed true = (number (pos 1), [], refl)
keyed false = (number (pos 2), [], refl)

abbrev rows : List Bool
rows = true ∷ false ∷ true ∷ []

next_cursor-decode_example :
    let e = build_envelope encoder rows 2 "-id" key_of in
    (e.has_more ≡ true)
    × (e.items ≡ take 2 rows)
    × (row : Bool) × (row_at 1 rows ≡ some row)
    × (decode decoder e.next_cursor
        ≡ ok (record { k = key_of row; s = "-id"; d = direction_after }))
next_cursor-decode_example =
    next_cursor-decode encoder decoder "-id" key_of 1 rows trips keyed (omega arith)

abbrev request : ListRequest
request = record {
  limit = pos 40;
  cursor = "two";
  sort = "";
  dir = "";
  query = none;
  page_number = pos 0;
  page_size = pos 0;
}

effective_limit_lem_example :
    (pos 1 ≤ℤ effective_limit request)
    × (effective_limit request ≤ℤ max_limit)
    × (validate decoder request "-id" ≡ ok tt
        → pos 1 ≤ℤ request.limit
        → effective_limit request ≡ request.limit)
effective_limit_lem_example = effective_limit_lem decoder request "-id"

validate_test :
    (validate decoder request "-id" ≡ ok tt)
    × (validate decoder (record request { sort = "-date" }) "-name" ≡ err sort_mismatch)
unfolding validate decode
validate_test = (refl, refl)

cursor_test :
    (last_id (text "2024-01-01" ∷ (number (pos 7) ∷ [])) ≡ some (pos 7))
    × (sort_value (cursor_at true) ≡ none)
    × (sort_column (codes "-id") ≡ (codes "id", true))
unfolding last_id sort_value sort_column
cursor_test = (refl, refl, refl)
