-- ===== src/Text/Case.antt =====
-- `utf8.DecodeRune`, `utf8.AppendRune`, `strings.ToLower` and `strings.EqualFold`.
use pinus_smart_awg.Common.{
  Bool, [], all, ap, arith, if◌then◌else◌, leb, length, ltb, map, refl, suc, true, zero, ℕ, ◌%◌,
  ◌&&◌, ◌*◌, ◌++◌, ◌+◌, ◌-◌, ◌/◌, ◌==◌, ◌||◌, ◌∷◌, ◌≡◌,
}
use pinus_smart_awg.Text.{Bytes, equal}

abbrev cont : ℕ → Bool
cont b = leb 0x80 b && leb b 0xBF

-- The second byte that may follow the first one of a sequence of three or four bytes.
abbrev second_of : ℕ → ℕ → Bool
second_of a b =
    if a == 0xE0
    then leb 0xA0 b && leb b 0xBF
    else if a == 0xED
    then leb 0x80 b && leb b 0x9F
    else if a == 0xF0
    then leb 0x90 b && leb b 0xBF
    else if a == 0xF4
    then leb 0x80 b && leb b 0x8F
    else cont b

abbrev rune_error : ℕ
rune_error = 0xFFFD

abbrev invalid : ℕ × ℕ
invalid = (rune_error, 1)

decode_2 : ℕ → Bytes → ℕ × ℕ
decode_2 a [] = invalid
decode_2 a (b ∷ r) = if cont b then ((a - 0xC0) * 64 + (b - 0x80), 2) else invalid

decode_3 : ℕ → Bytes → ℕ × ℕ
decode_3 a (b ∷ c ∷ r) =
    if second_of a b && cont c
    then (((a - 0xE0) * 64 + (b - 0x80)) * 64 + (c - 0x80), 3)
    else invalid
decode_3 a _ = invalid

decode_4 : ℕ → Bytes → ℕ × ℕ
decode_4 a (b ∷ c ∷ d ∷ r) =
    if second_of a b && cont c && cont d
    then ((((a - 0xF0) * 64 + (b - 0x80)) * 64 + (c - 0x80)) * 64 + (d - 0x80), 4)
    else invalid
decode_4 a _ = invalid

-- The rune that the text begins with and its width; an invalid byte is U+FFFD of width 1.
unfoldable pub decode_rune : Bytes → ℕ × ℕ
unfolding decode_2 decode_3 decode_4
decode_rune [] = (rune_error, 0)
decode_rune (a ∷ r) =
    if ltb a 0x80
    then (a, 1)
    else if leb 0xC2 a && leb a 0xDF
    then decode_2 a r
    else if leb 0xE0 a && leb a 0xEF
    then decode_3 a r
    else if leb 0xF0 a && leb a 0xF4
    then decode_4 a r
    else invalid

unfoldable pub encode_rune : ℕ → Bytes
encode_rune r =
    if ltb r 0x80
    then r ∷ []
    else if ltb r 0x800
    then (0xC0 + r / 64) ∷ (0x80 + r % 64) ∷ []
    else if (leb 0xD800 r && leb r 0xDFFF) || ltb 0x10FFFF r
    then 0xEF ∷ 0xBF ∷ 0xBD ∷ []
    else if ltb r 0x10000
    then (0xE0 + r / 4096) ∷ (0x80 + r / 64 % 64) ∷ (0x80 + r % 64) ∷ []
    else (0xF0 + r / 262144) ∷ (0x80 + r / 4096 % 64) ∷ (0x80 + r / 64 % 64) ∷ (0x80 + r % 64) ∷ []

-- `strings.Map`, with `n` bytes of the current rune still to be skipped.
map_runes : (ℕ → ℕ) → ℕ → Bytes → Bytes
map_runes f n [] = []
map_runes f (suc n) (x ∷ xs) = map_runes f n xs
map_runes f zero (x ∷ xs) =
    let (r, w) = decode_rune (x ∷ xs) in encode_rune (f r) ++ map_runes f (w - 1) xs

abbrev pub lower_byte : ℕ → ℕ
lower_byte c = if leb b'A' c && leb c b'Z' then c + 32 else c

-- `unicode.ToLower`: `lower` is its table above ASCII.
abbrev lower_rune : (ℕ → ℕ) → ℕ → ℕ
lower_rune lower r = if ltb r 0x80 then lower_byte r else lower r

abbrev pub is_ascii : Bytes → Bool
is_ascii = all (λ c. ltb c 0x80)

-- `strings.ToLower`
unfoldable pub to_lower : (ℕ → ℕ) → Bytes → Bytes
unfolding map_runes decode_rune encode_rune
to_lower lower s =
    let mapped = map_runes (lower_rune lower) 0 s in if is_ascii s then map lower_byte s else mapped

-- `strings.EqualFold(s, t)` for a `t` of ASCII bytes other than `k` and `s`, which alone fold to
-- runes above ASCII.
unfoldable pub equal_fold : Bytes → Bytes → Bool
unfolding equal
equal_fold s t = equal (map lower_byte s) (map lower_byte t)

pub to_lower_ascii :
    (lower : ℕ → ℕ) (s : Bytes) → is_ascii s ≡ true → to_lower lower s ≡ map lower_byte s
unfolding to_lower
to_lower_ascii lower s h = rw h

pub lower_byte_idem : (c : ℕ) → lower_byte (lower_byte c) ≡ lower_byte c
lower_byte_idem c = ground arith

pub length-map_lower : (s : Bytes) → length (map lower_byte s) ≡ length s
length-map_lower [] = refl
length-map_lower (x ∷ s) = ap suc (length-map_lower s)

-- The Kelvin sign, three bytes, becomes the letter k.
to_lower_kelvin :
    to_lower (λ r. if r == 0x212A then b'k' else r) (b'A' ∷ 0xE2 ∷ 0x84 ∷ 0xAA ∷ 0xFF ∷ [])
    ≡ b'a' ∷ b'k' ∷ 0xEF ∷ 0xBF ∷ 0xBD ∷ []
unfolding to_lower
to_lower_kelvin = refl
