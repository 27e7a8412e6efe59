-- ===== src/Text/Hex.antt =====
-- `hex.EncodeToString` and `hex.DecodeString`.
use pinus_smart_awg.Common.{
  All, Option, [], arith, if◌then◌else◌, leb, ltb, none, refl, some, ℕ, ◌%◌, ◌&&◌, ◌*◌, ◌+◌, ◌-◌,
  ◌/◌, ◌<◌, ◌∷◌, ◌≡◌,
}
use pinus_smart_awg.Text.{Bytes}
use pinus_smart_awg.Text.Base64.{IsByte}

unfoldable pub hex_digit : ℕ → ℕ
hex_digit v = if ltb v 10 then b'0' + v else b'a' + (v - 10)

unfoldable pub hex_value : ℕ → Option ℕ
hex_value c =
    if leb b'0' c && leb c b'9'
    then some (c - b'0')
    else if leb b'a' c && leb c b'f'
    then some (c - b'a' + 10)
    else if leb b'A' c && leb c b'F'
    then some (c - b'A' + 10)
    else none

unfoldable pub to_hex : Bytes → Bytes
unfolding hex_digit
to_hex [] = []
to_hex (b ∷ r) = hex_digit (b / 16) ∷ hex_digit (b % 16) ∷ to_hex r

abbrev pub hex_byte : Option ℕ → Option ℕ → Option Bytes → Option Bytes
hex_byte (some h) (some l) (some r) = some ((h * 16 + l) ∷ r)
hex_byte _ _ _ = none

unfoldable pub from_hex : Bytes → Option Bytes
unfolding hex_value
from_hex [] = some []
from_hex (c ∷ []) = none
from_hex (c ∷ d ∷ r) = hex_byte (hex_value c) (hex_value d) (from_hex r)

pub hex_value-hex_digit : (v : ℕ) → v < 16 → hex_value (hex_digit v) ≡ some v
unfolding hex_value hex_digit
hex_value-hex_digit v h = ground arith

pub from_hex-to_hex : (s : Bytes) → All IsByte s → from_hex (to_hex s) ≡ some s
unfolding from_hex to_hex hex_digit
from_hex-to_hex [] h = refl
from_hex-to_hex (b ∷ r) h =
    ground
      (arith, hex_value-hex_digit (b / 16), hex_value-hex_digit (b % 16), from_hex-to_hex r h.1)
