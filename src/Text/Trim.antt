-- ===== src/Text/Trim.antt =====
-- `strings.TrimSpace`, `Fields` and `Trim`, with the white space of Unicode in UTF-8.
use pinus_smart_awg.Common.{
  Bool, List, [], arith, if◌then◌else◌, leb, length, length-reverse, reverse, suc, zero, ℕ, ◌&&◌,
  ◌++◌, ◌==◌, ◌||◌, ◌∷◌, ◌≤◌,
}
use pinus_smart_awg.Text.{Bytes}

-- `unicode.IsSpace` on a byte below 128
abbrev pub is_space : ℕ → Bool
is_space c = (leb 9 c && leb c 13) || c == 32

-- U+0085 and U+00A0
abbrev space_2 : ℕ → ℕ → Bool
space_2 a b = a == 0xC2 && (b == 0x85 || b == 0xA0)

-- U+1680, U+2000 to U+200A, U+2028, U+2029, U+202F, U+205F, U+3000
abbrev space_3 : ℕ → ℕ → ℕ → Bool
space_3 a b c =
    (a == 0xE1 && b == 0x9A && c == 0x80)
    || (a == 0xE2
        && b == 0x80
        && ((leb 0x80 c && leb c 0x8A) || c == 0xA8 || c == 0xA9 || c == 0xAF))
    || (a == 0xE2 && b == 0x81 && c == 0x9F)
    || (a == 0xE3 && b == 0x80 && c == 0x80)

-- The bytes of the space that the text begins with, 0 for none.
space_width : Bytes → ℕ
space_width [] = 0
space_width (a ∷ []) = if is_space a then 1 else 0
space_width (a ∷ b ∷ []) = if is_space a then 1 else if space_2 a b then 2 else 0
space_width (a ∷ b ∷ c ∷ r) =
    if is_space a then 1 else if space_2 a b then 2 else if space_3 a b c then 3 else 0

-- The same for the reversed text, which begins with the last byte.
last_width : Bytes → ℕ
last_width [] = 0
last_width (a ∷ []) = if is_space a then 1 else 0
last_width (a ∷ b ∷ []) = if is_space a then 1 else if space_2 b a then 2 else 0
last_width (a ∷ b ∷ c ∷ r) =
    if is_space a then 1 else if space_2 b a then 2 else if space_3 c b a then 3 else 0

-- Drops `n` bytes, then spaces as `width` measures them.
trim_by : (Bytes → ℕ) → ℕ → Bytes → Bytes
trim_by width n [] = []
trim_by width (suc n) (x ∷ xs) = trim_by width n xs
trim_by width zero (x ∷ xs) = elim (width (x ∷ xs)) [ zero ↦ x ∷ xs | suc k ↦ trim_by width k xs ]

trim_left : Bytes → Bytes
unfolding trim_by space_width
trim_left = trim_by space_width 0

trim_right : Bytes → Bytes
unfolding trim_by last_width
trim_right s = reverse (trim_by last_width 0 (reverse s))

-- `strings.TrimSpace`
unfoldable pub trim_space : Bytes → Bytes
unfolding trim_left trim_right
trim_space s = trim_right (trim_left s)

abbrev word : Bytes → List Bytes → List Bytes
word [] ws = ws
word (c ∷ cs) ws = (c ∷ cs) ∷ ws

-- `n` bytes of a space are still to be skipped; `cur` is the word read so far.
fields_by : ℕ → Bytes → Bytes → List Bytes
fields_by n cur [] = word cur []
fields_by (suc n) cur (x ∷ xs) = fields_by n cur xs
fields_by zero cur (x ∷ xs) = elim (space_width (x ∷ xs)) [
  | zero ↦ fields_by zero (cur ++ x ∷ []) xs
  | suc k ↦ word cur (fields_by k [] xs)
]

-- `strings.Fields`
unfoldable pub fields : Bytes → List Bytes
unfolding fields_by space_width
fields = fields_by 0 []

length-trim_by : (width : Bytes → ℕ) (n : ℕ) (s : Bytes) → length (trim_by width n s) ≤ length s
unfolding trim_by
length-trim_by width n [] = omega arith
length-trim_by width (suc n) (x ∷ xs) = omega (arith, length-trim_by width n xs)
length-trim_by width zero (x ∷ xs) =
    elim (width (x ∷ xs))
      as (λ w. length (elim w [ zero ↦ x ∷ xs | suc k ↦ trim_by width k xs ]) ≤ suc (length xs)) [
        | zero ↦ omega arith
        | suc k ↦ omega (arith, length-trim_by width k xs)
      ]

pub length-trim_space : (s : Bytes) → length (trim_space s) ≤ length s
unfolding trim_space trim_left trim_right
length-trim_space s = omega (
  arith,
  length-trim_by space_width 0 s,
  length-trim_by last_width 0 (reverse (trim_by space_width 0 s)),
  length-reverse {0} (trim_by space_width 0 s),
  length-reverse {0} (trim_by last_width 0 (reverse (trim_by space_width 0 s))),
)
