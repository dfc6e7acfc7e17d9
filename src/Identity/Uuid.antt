-- ===== src/Identity/Uuid.antt =====
-- The lowercase UUIDs of pkg/identity: the pattern of requestid.go (pkg/outbox/outbox.go has the same
-- one) and NewUUID of uuid.go. The sixteen random bytes are an argument, `none` if rand.Read fails.
use Prim.Native.Nat.{bit_and, bit_or}
use ifritah_go.Prelude.{
  ℕ, zero, suc, ◌+◌, ◌/◌, ◌%◌, Text, Bool, true, false, ◌&&◌, ◌||◌, Option, none, some, [], ◌∷◌,
  ◌++◌, ltb, leb, ◌==◌, if◌then◌else◌,
}

-- [0-9a-f]
unfoldable pub is_hex : ℕ → Bool
is_hex c = (leb b'0' c && leb c b'9') || (leb b'a' c && leb c b'f')

-- [0-9a-f]{n} at the front of a text; the rest of the text.
unfoldable pub hex_run : ℕ → Text → Option Text
unfolding is_hex
hex_run zero s = some s
hex_run (suc n) [] = none
hex_run (suc n) (c ∷ s) = let rest = hex_run n s in if is_hex c then rest else none

abbrev pub dash : Text → Option Text
dash [] = none
dash (c ∷ s) = if c == b'-' then some s else none

infixl 5 ◌>>=◌
abbrev pub ◌>>=◌ : Option Text → (Text → Option Text) → Option Text
none >>= f = none
some s >>= f = f s

abbrev pub at_end : Option Text → Bool
at_end none = false
at_end (some []) = true
at_end (some (c ∷ s)) = false

-- ^[0-9a-f]{8}-[0-9a-f]{4}-[0-9a-f]{4}-[0-9a-f]{4}-[0-9a-f]{12}$
unfoldable pub is_lower_uuid : Text → Bool
is_lower_uuid s = at_end (
    hex_run 8 s
    >>= dash
    >>= hex_run 4
    >>= dash
    >>= hex_run 4
    >>= dash
    >>= hex_run 4
    >>= dash
    >>= hex_run 12)

-- ValidateBillRequestID: true where it returns no error.
unfoldable pub validate_bill_request_id : Text → Bool
unfolding is_lower_uuid
validate_bill_request_id request_id = is_lower_uuid request_id

abbrev pub Bytes16 : Type 0
Bytes16 = ℕ → ℕ

abbrev pub set_byte : ℕ → ℕ → Bytes16 → Bytes16
set_byte i v b j = if j == i then v else b j

-- b[6] = b[6]&0x0f | 0x40
unfoldable pub version_byte : ℕ → ℕ
version_byte b = bit_or (bit_and b 0x0f) 0x40

-- b[8] = b[8]&0x3f | 0x80
unfoldable pub variant_byte : ℕ → ℕ
variant_byte b = bit_or (bit_and b 0x3f) 0x80

unfoldable pub hex_digit : ℕ → ℕ
hex_digit n = if ltb n 10 then 48 + n else 87 + n

-- `%x` of the n bytes from i on.
unfoldable pub hex_bytes : Bytes16 → ℕ → ℕ → Text
unfolding hex_digit
hex_bytes b i zero = []
hex_bytes b i (suc n) = hex_digit (b i / 16) ∷ (hex_digit (b i % 16) ∷ hex_bytes b (suc i) n)

unfoldable pub format_uuid : Bytes16 → Text
format_uuid b =
    let b = set_byte 8 (variant_byte (b 8)) (set_byte 6 (version_byte (b 6)) b) in
    hex_bytes b 0 4
    ++ (b'-'
        ∷ (hex_bytes b 4 2
            ++ (b'-'
                ∷ (hex_bytes b 6 2 ++ (b'-' ∷ (hex_bytes b 8 2 ++ (b'-' ∷ hex_bytes b 10 6)))))))

abbrev pub new_uuid : Option Bytes16 → Option Text
new_uuid none = none
new_uuid (some b) = some (format_uuid b)
