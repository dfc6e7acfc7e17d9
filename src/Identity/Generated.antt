-- ===== src/Identity/Generated.antt =====
-- A generated UUID is one that the validators accept (NewUUID of pkg/identity/uuid.go).
use mathlib.Core.List.{append-nil}
use ifritah_go.Prelude.{
  ℕ, zero, suc, ◌/◌, ◌%◌, ◌<◌, ◌≤◌, take, drop, contains, codes, Text, Bool, true, ◌&&◌, some, [],
  ◌∷◌, ◌++◌, ◌≡◌, refl, arith, ltb, leb, ◌==◌, ==_iff, if◌then◌else◌, false, inl, inr, Bool-cases,
}
use ifritah_go.Identity.Uuid.{
  is_hex, hex_run, is_lower_uuid, Bytes16, set_byte, version_byte, variant_byte, hex_digit,
  hex_bytes, format_uuid,
}

-- A test that holds of `count` numbers in a row, the greatest first.
passes : (ℕ → Bool) → ℕ → Bool
passes test zero = true
passes test (suc count) = let rest = passes test count in if test count then rest else false

passes_lem : (test : ℕ → Bool) (count i : ℕ) → i < count → passes test count ≡ true → test i ≡ true
unfolding passes
passes_lem test zero i lt h = absurd (omega arith)
passes_lem test (suc count) i lt h = elim (Bool-cases (i == count)) [
  | inl last ↦ rw ((==_iff i count).0 last) (ground arith)
  | inr other ↦ passes_lem test count i (ground arith) (ground arith)
]

version_table : passes (λ x. version_byte x / 16 == 4 && ltb (version_byte x) 256) 256 ≡ true
unfolding passes version_byte
version_table = refl

variant_table :
    passes
      (λ x.
        leb 8 (variant_byte x / 16) && (leb (variant_byte x / 16) 11 && ltb (variant_byte x) 256))
      256
    ≡ true
unfolding passes variant_byte
variant_table = refl

version_lem : (x : ℕ) → x < 256 → (version_byte x / 16 ≡ 4) × (version_byte x < 256)
version_lem x h =
    let t =
      passes_lem (λ x. version_byte x / 16 == 4 && ltb (version_byte x) 256) 256 x h
        version_table in
    (ground arith, ground arith)

variant_lem :
    (x : ℕ)
    → x < 256
    → (8 ≤ variant_byte x / 16) × (variant_byte x / 16 ≤ 11) × (variant_byte x < 256)
variant_lem x h =
    let t =
      passes_lem
        (λ x.
          leb 8 (variant_byte x / 16) && (leb (variant_byte x / 16) 11 && ltb (variant_byte x) 256))
        256 x h variant_table in
    (ground arith, ground arith, ground arith)

hex_digit-is_hex : (n : ℕ) → n < 16 → is_hex (hex_digit n) ≡ true
unfolding hex_digit is_hex
hex_digit-is_hex n h = ground arith

abbrev doubled : ℕ → ℕ
doubled zero = zero
doubled (suc n) = suc (suc (doubled n))

hex_run-hex_bytes :
    (b : Bytes16) (i n : ℕ) (rest : Text)
    → ((j : ℕ) → b j < 256)
    → hex_run (doubled n) (hex_bytes b i n ++ rest) ≡ some rest
unfolding hex_run hex_bytes
hex_run-hex_bytes b i zero rest h = refl
hex_run-hex_bytes b i (suc n) rest h =
    rw (hex_digit-is_hex (b i / 16) (omega (arith, h i)), hex_digit-is_hex (b i % 16) (omega arith))
      (hex_run-hex_bytes b (suc i) n rest h)

-- The first character of a text that is not empty.
abbrev pub char_of : Text → ℕ
char_of [] = 0
char_of (c ∷ s) = c

set_byte-lt :
    (i v : ℕ) (b : Bytes16) → v < 256 → ((j : ℕ) → b j < 256) → (j : ℕ) → set_byte i v b j < 256
set_byte-lt i v b lt h j = ground (arith, h j)

-- The bytes that NewUUID formats.
abbrev stamped : Bytes16 → Bytes16
stamped b = set_byte 8 (variant_byte (b 8)) (set_byte 6 (version_byte (b 6)) b)

stamped-lt : (b : Bytes16) → ((j : ℕ) → b j < 256) → (j : ℕ) → stamped b j < 256
stamped-lt b h =
    set_byte-lt 8 (variant_byte (b 8)) _ (variant_lem (b 8) (h 8)).2
      (set_byte-lt 6 (version_byte (b 6)) b (version_lem (b 6) (h 6)).1 h)

format_uuid-is_lower_uuid :
    (b : Bytes16) → ((j : ℕ) → b j < 256) → is_lower_uuid (format_uuid b) ≡ true
unfolding is_lower_uuid format_uuid
format_uuid-is_lower_uuid b h =
    let c = stamped b in
    let r5 = hex_bytes c 10 6 in
    let r4 = hex_bytes c 8 2 ++ (b'-' ∷ r5) in
    let r3 = hex_bytes c 6 2 ++ (b'-' ∷ r4) in
    let r2 = hex_bytes c 4 2 ++ (b'-' ∷ r3) in
    let run = λ (i n : ℕ) (rest : Text). hex_run-hex_bytes c i n rest (stamped-lt b h) in
    rw (run 0 4 (b'-' ∷ r2), run 4 2 (b'-' ∷ r3), run 6 2 (b'-' ∷ r4), run 8 2 (b'-' ∷ r5))
      (rw (← append-nil r5) (rw (run 10 6 [])))

version_digit : (b : Bytes16) → ((j : ℕ) → b j < 256) → take 1 (drop 14 (format_uuid b)) ≡ codes "4"
unfolding format_uuid hex_bytes hex_digit
version_digit b h = rw ((version_lem (b 6) (h 6)).0)

variant_digit :
    (b : Bytes16)
    → ((j : ℕ) → b j < 256)
    → contains (codes "89ab") (char_of (drop 19 (format_uuid b))) ≡ true
unfolding format_uuid hex_bytes hex_digit
variant_digit b h = let v = variant_lem (b 8) (h 8) in ground arith

-- From any sixteen random bytes NewUUID makes a lowercase UUID of version 4 and of the variant of
-- RFC 4122, which the pattern of the request ids and of the outbox event ids accepts.
pub format_uuid_lem :
    (b : Bytes16)
    → ((j : ℕ) → b j < 256)
    → (is_lower_uuid (format_uuid b) ≡ true)
      × (take 1 (drop 14 (format_uuid b)) ≡ codes "4")
      × (contains (codes "89ab") (char_of (drop 19 (format_uuid b))) ≡ true)
format_uuid_lem b h = (format_uuid-is_lower_uuid b h, version_digit b h, variant_digit b h)
