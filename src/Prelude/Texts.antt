-- ===== src/Prelude/Texts.antt =====
-- Texts: the native `String` where the program compares whole texts, and a list of code points (or
-- bytes, where it counts bytes) where it walks them.
use Prim.Native.Char.{Char, char, code, nul, IsScalar}
use Prim.Native.Nat.{ℕ, compare, Ordering}
use Prim.Native.String.{String}
use mathlib.Core.Path.{◌≡◌, refl}
use native.Mathlib.Omega.{arith}
use mathlib.Core.Bool.{Bool, true, false, ◌&&◌}
use mathlib.Core.List.{List, [], ◌∷◌}
use ifritah_go.Prelude.Tests.{◌==◌, ltb}

abbrev pub Text : Type 0
Text = List ℕ

-- The code points of a text: its bytes, if it is ASCII.
abbrev pub codes : String → Text
codes String.[] = []
codes (String.◌∷◌ c s) = code c ∷ codes s

below_surrogates-IsScalar : (n : ℕ) → compare n 55296 ≡ Ordering.lt → IsScalar n
below_surrogates-IsScalar n h = rw h tt

pub ascii-IsScalar : (n : ℕ) → ltb n 128 ≡ true → IsScalar n
ascii-IsScalar n h = below_surrogates-IsScalar n (ground arith)

-- The character of an ASCII code.
abbrev pub tested_ascii : (n : ℕ) (b : Bool) → ltb n 128 ≡ b → Char
tested_ascii n true e = char n (ascii-IsScalar n e)
tested_ascii n false e = nul

abbrev pub ascii : ℕ → Char
ascii n = tested_ascii n (ltb n 128) refl

-- The string of a text in ASCII.
unfoldable pub string_of : Text → String
string_of [] = String.[]
string_of (c ∷ s) = String.◌∷◌ (ascii c) (string_of s)

-- Equality of two texts, as `==` of the language decides it.
abbrev pub text_eq : Text → Text → Bool
text_eq [] [] = true
text_eq [] (y ∷ ys) = false
text_eq (x ∷ xs) [] = false
text_eq (x ∷ xs) (y ∷ ys) = x == y && text_eq xs ys

pub text_eq_sound : (s t : Text) → text_eq s t ≡ true → s ≡ t
text_eq_sound [] [] h = refl
text_eq_sound [] (y ∷ t) h = cc
text_eq_sound (x ∷ s) [] h = cc
text_eq_sound (x ∷ s) (y ∷ t) h = ground (arith, text_eq_sound s t)

pub text_eq_refl : (s : Text) → text_eq s s ≡ true
text_eq_refl [] = refl
text_eq_refl (x ∷ s) = ground (arith, text_eq_refl s)
