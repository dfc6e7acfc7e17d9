-- ===== src/Identity/Decimal.antt =====
-- strconv.FormatUint(n, 10) on a uint64, and the value of its digits.
use native.Mathlib.Nat.{pow-suc}
use ifritah_go.Prelude.{
  ℕ, zero, suc, ◌+◌, ◌-◌, ◌*◌, ◌/◌, ◌%◌, ◌^◌, ◌<◌, Text, Bool, true, false, [], ◌∷◌, ◌++◌, ◌≡◌,
  refl, sym, ap, ◌∙◌, inl, inr, arith, ltb, leb, ◌&&◌, Bool-cases, All, All-append,
}

-- The digits of n, at most `fuel` of them.
unfoldable pub digits : ℕ → ℕ → Text
digits zero n = []
digits (suc fuel) n = elim (ltb n 10) [
  | true ↦ (48 + n) ∷ []
  | false ↦ digits fuel (n / 10) ++ ((48 + n % 10) ∷ [])
]

-- A uint64 has at most 20 digits.
unfoldable pub format_uint : ℕ → Text
unfolding digits
format_uint n = digits 20 n

-- The value of a run of digits.
value_from : ℕ → Text → ℕ
value_from acc [] = acc
value_from acc (c ∷ s) = value_from (acc * 10 + (c - 48)) s

value_from-append :
    (acc : ℕ) (s : Text) (c : ℕ) → value_from acc (s ++ (c ∷ [])) ≡ value_from acc s * 10 + (c - 48)
unfolding value_from
value_from-append acc [] c = refl
value_from-append acc (x ∷ s) c = value_from-append (acc * 10 + (x - 48)) s c

value_digits : (fuel n : ℕ) → n < 10 ^ fuel → value_from 0 (digits fuel n) ≡ n
unfolding digits value_from
value_digits zero n h = omega arith
value_digits (suc fuel) n h = elim (Bool-cases (ltb n 10)) [
  | inl small ↦ rw (small, digits) (omega arith)
  | inr large ↦
      rw (large, digits)
        (value_from-append 0 (digits fuel (n / 10)) (48 + n % 10)
          ∙ rw (value_digits fuel (n / 10) (omega (arith, pow-suc 10 fuel))) (omega arith))
]

-- Two uint64 with the same digits are equal.
pub format_uint-injective :
    (m n : ℕ) → m < 2 ^ 64 → n < 2 ^ 64 → format_uint m ≡ format_uint n → m ≡ n
unfolding format_uint
format_uint-injective m n hm hn e =
    sym (value_digits 20 m (omega arith)) ∙ ap (value_from 0) e ∙ value_digits 20 n (omega arith)

abbrev pub is_digit : ℕ → Bool
is_digit c = leb b'0' c && leb c b'9'

digits-is_digit : (fuel n : ℕ) → All (λ c. is_digit c ≡ true) (digits fuel n)
unfolding digits
digits-is_digit zero n = tt
digits-is_digit (suc fuel) n = elim (Bool-cases (ltb n 10)) [
  | inl small ↦ rw (small, digits) (ground arith, tt)
  | inr large ↦
      rw (large, digits)
        (All-append (λ c. is_digit c ≡ true) (digits fuel (n / 10)) _
          (digits-is_digit fuel (n / 10)) (ground arith, tt))
]

pub format_uint-is_digit : (n : ℕ) → All (λ c. is_digit c ≡ true) (format_uint n)
unfolding format_uint
format_uint-is_digit n = digits-is_digit 20 n
