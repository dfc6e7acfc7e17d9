-- ===== src/Pagination/Cursor.antt =====
-- pkg/pagination/cursor.go. The base64 JSON of a cursor is a pair of arguments, `encoder` (json.Marshal
-- and base64) and `decoder` (either base64 variant, then JSON; `none` if they fail).
use ifritah_go.Prelude.{
  String, str_eq, Option, none, some, List, [], ◌∷◌, if◌then◌else◌, ℤ, Result, ok, err,
}

-- A component of a keyset tuple: a number that fits an int64, a text, or another value.
pub data Key : Type 0 where
  number : ℤ → Key
  text : String → Key
  other : Key

pub record Cursor : Type 0 where
  pub k : List Key
  pub s : String
  pub d : String

pub data CursorError : Type 0 where
  invalid_cursor limit_too_large sort_mismatch : CursorError

abbrev pub direction_after : String
direction_after = "after"

abbrev pub zero_cursor : Cursor
zero_cursor = record { k = []; s = ""; d = "" }

unfoldable pub direction : Cursor → String
direction c = if str_eq c.d "" then direction_after else c.d

-- The last component of the tuple, if it is a number.
unfoldable pub last_id : List Key → Option ℤ
last_id [] = none
last_id (number n ∷ []) = some n
last_id (text t ∷ []) = none
last_id (other ∷ []) = none
last_id (key ∷ (next ∷ keys)) = last_id (next ∷ keys)

-- The first component of a tuple of at least two.
unfoldable pub sort_value : Cursor → Option Key
sort_value c = elim c.k [
  | [] ↦ none
  | key ∷ keys ↦ elim keys [ [] ↦ none | next ∷ rest ↦ some key ]
]

unfoldable pub encode : (Cursor → Option String) → Cursor → String
encode encoder c = elim c.k [
  | [] ↦ ""
  | key ∷ keys ↦ elim (encoder c) [ none ↦ "" | some raw ↦ raw ]
]

abbrev pub of_decoder : Option Cursor → Result CursorError Cursor
of_decoder none = err invalid_cursor
of_decoder (some c) = ok c

unfoldable pub decode : (String → Option Cursor) → String → Result CursorError Cursor
decode decoder s = if str_eq s "" then ok zero_cursor else of_decoder (decoder s)
