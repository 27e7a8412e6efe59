-- ===== src/Text.antt =====
-- Go strings as lists of bytes, and the functions of `strings`, `strconv` and `unicode/utf8` that
-- the client calls. The table of `unicode.ToLower` above ASCII is an argument, `lower`.
pub mod Search
pub mod Order
pub mod Trim
pub mod Case
pub mod Number
pub mod Base64
pub mod Hex
pub mod Ip
use Prim.Native.Char.{code}
use pinus_smart_awg.Common.{
  Bool, List, String, [], arith, false, leb, refl, true, ℕ, ◌&&◌, ◌==◌, ◌||◌, ◌↔◌, ◌∷◌, ◌≡◌,
}

abbrev pub Bytes : Type 0
Bytes = List ℕ

-- The code points of a literal: its bytes, as every literal here is ASCII.
abbrev pub codes : String → Bytes
codes String.[] = []
codes (String.◌∷◌ c s) = code c ∷ codes s

-- `a == b` on strings
unfoldable pub equal : Bytes → Bytes → Bool
equal [] [] = true
equal (x ∷ xs) (y ∷ ys) = x == y && equal xs ys
equal _ _ = false

pub equal_iff : (s t : Bytes) → (equal s t ≡ true) ↔ (s ≡ t)
unfolding equal
equal_iff [] [] = ground arith
equal_iff [] (d ∷ t) = ground arith
equal_iff (c ∷ s) [] = ground arith
equal_iff (c ∷ s) (d ∷ t) = ground (equal_iff s t, arith)

pub equal_refl : (a : Bytes) → equal a a ≡ true
equal_refl a = (equal_iff a a).1 refl

-- a `case` with several strings
unfoldable pub one_of : Bytes → List Bytes → Bool
unfolding equal
one_of s [] = false
one_of s (t ∷ ts) = equal s t || one_of s ts

abbrev pub is_digit : ℕ → Bool
is_digit c = leb b'0' c && leb c b'9'

abbrev pub is_letter : ℕ → Bool
is_letter c = (leb b'a' c && leb c b'z') || (leb b'A' c && leb c b'Z')
