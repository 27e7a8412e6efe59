-- ===== src/Conf/Values/Laws.antt =====
-- Keys as text: `Key.String` and `Key.HexString` against `parseKeyBase64` and `parseKeyHex`.
use pinus_smart_awg.Common.{==_iff, All, Option, arith, length, none, ok, refl, some, ◌↔◌, ◌≡◌}
use pinus_smart_awg.Conf.{Key, key_length}
use pinus_smart_awg.Conf.Values.{key_of, parse_key_base64, parse_key_hex}
use pinus_smart_awg.Text.{Bytes}
use pinus_smart_awg.Text.Base64.{IsByte, decode, decode-encode, encode}
use pinus_smart_awg.Text.Hex.{from_hex-to_hex, to_hex}

-- Every key of 32 bytes is read back from its Base64 text and from its hexadecimal one.
pub parse_key-encode :
    (k : Key)
    → All IsByte k
    → length k ≡ key_length
    → (parse_key_base64 (encode k) ≡ ok k) × (parse_key_hex (to_hex k) ≡ ok k)
unfolding parse_key_base64 parse_key_hex
parse_key-encode k h n =
    let sized = (==_iff (length k) key_length).1 n in
    (rw (decode-encode k h, sized) refl, rw (from_hex-to_hex k h, sized) refl)

-- A text is read as a key exactly if its Base64 code gives 32 bytes, which are the key.
pub parse_key_base64_iff :
    (s : Bytes) (k : Key)
    → (parse_key_base64 s ≡ ok k) ↔ ((decode s ≡ some k) × (length k ≡ key_length))
unfolding parse_key_base64
parse_key_base64_iff s k = go (decode s)
  where
    go : (o : Option Bytes) → (key_of s o ≡ ok k) ↔ ((o ≡ some k) × (length k ≡ key_length))
    go none = (λ h. cc, λ h. cc)
    go (some x) = ground (arith, ==_iff (length x) key_length)
