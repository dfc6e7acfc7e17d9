-- ===== src/Pagination/ListQuery.antt =====
-- pkg/pagination/listquery.go.
use ifritah_go.Prelude.{
  ℕ, String, str_eq, Text, Bool, true, false, not, ◌&&◌, Option, none, some, List, [], ◌∷◌, ltb,
  ◌==◌, if◌then◌else◌, length, take, ℤ, pos, ltb_ℤ, leb_ℤ, Result, ok, err,
}
use ifritah_go.Pagination.Cursor.{
  Key, Cursor, CursorError, limit_too_large, sort_mismatch, direction_after, encode, decode,
}

abbrev pub max_limit : ℤ
max_limit = pos 10000

abbrev pub default_limit : ℤ
default_limit = pos 25

pub record ListRequest : Type 0 where
  pub limit : ℤ
  pub cursor : String
  pub sort : String
  pub dir : String
  pub query : Option String
  pub page_number : ℤ
  pub page_size : ℤ

unfoldable pub effective_limit : ListRequest → ℤ
effective_limit r =
    let n = if leb_ℤ r.limit (pos 0) then r.page_size else r.limit in
    if leb_ℤ n (pos 0) then default_limit else if ltb_ℤ max_limit n then max_limit else n

unfoldable pub sort_spec : ListRequest → String → String
sort_spec r default_sort = if str_eq r.sort "" then default_sort else r.sort

-- The sort consistency of a decoded cursor.
unfoldable pub validate_cursor :
    ListRequest → String → Result CursorError Cursor → Result CursorError (Unit {0})
unfolding sort_spec
validate_cursor r expected (err e) = err e
validate_cursor r expected (ok c) =
    let want = sort_spec r expected in
    if not (str_eq c.s "") && (not (str_eq c.s want) && not (str_eq want expected))
    then err sort_mismatch
    else ok tt

unfoldable pub validate :
    (String → Option Cursor) → ListRequest → String → Result CursorError (Unit {0})
unfolding validate_cursor
validate decoder r expected =
    if ltb_ℤ max_limit r.limit
    then err limit_too_large
    else if str_eq r.cursor ""
    then ok tt
    else validate_cursor r expected (decode decoder r.cursor)

-- The column, and whether the order is descending.
unfoldable pub sort_column : Text → Text × Bool
sort_column [] = ([], false)
sort_column (c ∷ spec) = if c == b'-' then (spec, true) else (c ∷ spec, false)

pub record Envelope {ℓ} (T : Type ℓ) : Type ℓ where
  pub items : List T
  pub next_cursor : String
  pub prev_cursor : String
  pub has_more : Bool

abbrev pub cursor_of : (Cursor → Option String) → String → List Key → String
cursor_of encoder spec [] = ""
cursor_of encoder spec (key ∷ keys) =
    encode encoder (record { k = key ∷ keys; s = spec; d = direction_after })

module _ {ℓ} {T : Type ℓ} where
  abbrev pub last : List T → Option T
  last [] = none
  last (x ∷ xs) = elim (last xs) [ none ↦ some x | some y ↦ some y ]

  abbrev pub next_of : (Cursor → Option String) → String → (T → List Key) → Option T → String
  next_of encoder spec key_fn none = ""
  next_of encoder spec key_fn (some row) = cursor_of encoder spec (key_fn row)

  -- BuildEnvelope; `key_fn` is not nil.
  unfoldable pub build_envelope :
      (Cursor → Option String) → List T → ℕ → String → (T → List Key) → Envelope T
  build_envelope encoder rows limit spec key_fn =
      let has_more = ltb limit (length rows) in
      let items = if has_more then take limit rows else rows in
      record {
        items = items;
        next_cursor = if has_more then next_of encoder spec key_fn (last items) else "";
        prev_cursor = "";
        has_more = has_more;
      }
