-- ===== src/Pagination/Pages.antt =====
-- Limits, and the rows and the cursor of a page that BuildEnvelope of pkg/pagination/listquery.go makes.
use ifritah_go.Prelude.{
  none, ℕ, zero, suc, ◌<◌, String, str_eq, true, false, Option, some, List, [], ◌∷◌, ◌≡◌, refl,
  arith, ltb, length, take, pos, ◌≤ℤ◌, ok,
}
use ifritah_go.Pagination.Cursor.{Key, Cursor, direction_after, encode, decode}
use ifritah_go.Pagination.ListQuery.{
  max_limit, ListRequest, effective_limit, validate, last, cursor_of, build_envelope,
}

-- The page size is from 1 to the maximum, and a limit that is asked for and passes the validation is
-- taken as it is.
pub effective_limit_lem :
    (decoder : String → Option Cursor) (r : ListRequest) (expected : String)
    → (pos 1 ≤ℤ effective_limit r)
      × (effective_limit r ≤ℤ max_limit)
      × (validate decoder r expected ≡ ok tt → pos 1 ≤ℤ r.limit → effective_limit r ≡ r.limit)
unfolding effective_limit validate
effective_limit_lem decoder r expected = (ground arith, ground arith, λ h k. ground arith)

-- A cursor whose JSON decodes to it, and is not empty.
abbrev pub RoundTrips : (Cursor → Option String) → (String → Option Cursor) → Cursor → Type 0
RoundTrips encoder decoder c =
    (raw : String) × (encoder c ≡ some raw) × (decoder raw ≡ some c) × (str_eq raw "" ≡ false)

cursor_of-decode :
    (encoder : Cursor → Option String) (decoder : String → Option Cursor) (spec : String)
    (key : List Key)
    → RoundTrips encoder decoder (record { k = key; s = spec; d = direction_after })
    → (first : Key) × (keys : List Key) × (key ≡ first ∷ keys)
    → decode decoder (cursor_of encoder spec key)
      ≡ ok (record { k = key; s = spec; d = direction_after })
unfolding encode decode
cursor_of-decode encoder decoder spec [] trip (first, keys, e) = cc
cursor_of-decode encoder decoder spec (key ∷ rest) (raw, e, back, given) keyed =
    rw (e, encode) (rw (given, back, decode) refl)

module _ {ℓ} {T : Type ℓ} where
  -- The row at a position, counted from 0.
  abbrev pub row_at : ℕ → List T → Option T
  row_at n [] = none
  row_at zero (x ∷ xs) = some x
  row_at (suc n) (x ∷ xs) = row_at n xs

  last-take :
      (n : ℕ) (xs : List T)
      → n < length xs
      → (y : T) × (row_at n xs ≡ some y) × (last (take (suc n) xs) ≡ some y)
  last-take n [] h = absurd (omega arith)
  last-take zero (x ∷ xs) h = (x, refl, refl)
  last-take (suc n) (x ∷ xs) h = let (y, at, e) = last-take n xs (omega arith) in (y, at, rw e refl)

  -- A page of more rows than the limit holds the first `limit` of them, and its cursor decodes to the
  -- key of the row at position limit - 1, the last of them, with the sort and the direction. The limit
  -- is positive, the JSON of a row's cursor is to decode to it and not to be empty, and every row is to
  -- have a key.
  pub next_cursor-decode :
      (encoder : Cursor → Option String) (decoder : String → Option Cursor) (spec : String)
      (key_fn : T → List Key) (n : ℕ) (rows : List T)
      → ((row : T)
          → RoundTrips encoder decoder (record { k = key_fn row; s = spec; d = direction_after }))
      → ((row : T) → (key : Key) × (keys : List Key) × (key_fn row ≡ key ∷ keys))
      → suc n < length rows
      → let e = build_envelope encoder rows (suc n) spec key_fn in
        (e.has_more ≡ true)
        × (e.items ≡ take (suc n) rows)
        × (row : T) × (row_at n rows ≡ some row)
        × (decode decoder e.next_cursor
            ≡ ok (record { k = key_fn row; s = spec; d = direction_after }))
  unfolding build_envelope
  next_cursor-decode encoder decoder spec key_fn n rows trip keyed h =
      let more : ltb (suc n) (length rows) ≡ true = ground arith in
      let (row, at, found) = last-take n rows (omega arith) in
      (
        more,
        rw more refl,
        row,
        at,
        rw more
            (rw found (cursor_of-decode encoder decoder spec (key_fn row) (trip row) (keyed row))),
      )
