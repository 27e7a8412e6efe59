-- ===== src/Text/Base64.antt =====
-- `base64.StdEncoding` and `hex`, and their round trips on bytes.
use pinus_smart_awg.Common.{
  All, Option, [], append-nil, arith, false, if◌then◌else◌, leb, ltb, none, refl, some, ℕ, ◌%◌,
  ◌&&◌, ◌*◌, ◌++◌, ◌+◌, ◌-◌, ◌/◌, ◌<◌, ◌==◌, ◌||◌, ◌∷◌, ◌≡◌,
}
use pinus_smart_awg.Text.{Bytes, codes}

abbrev pub IsByte : ℕ → Type 0
IsByte b = b < 256

symbol : ℕ → ℕ
symbol v =
    if ltb v 26
    then b'A' + v
    else if ltb v 52
    then b'a' + (v - 26)
    else if ltb v 62
    then b'0' + (v - 52)
    else if v == 62
    then b'+'
    else b'/'

sextet : ℕ → Option ℕ
sextet c =
    if leb b'A' c && leb c b'Z'
    then some (c - b'A')
    else if leb b'a' c && leb c b'z'
    then some (c - b'a' + 26)
    else if leb b'0' c && leb c b'9'
    then some (c - b'0' + 52)
    else if c == b'+'
    then some 62
    else if c == b'/'
    then some 63
    else none

-- `StdEncoding.EncodeToString`
unfoldable pub encode : Bytes → Bytes
unfolding symbol
encode [] = []
encode (a ∷ []) = symbol (a / 4) ∷ symbol (a % 4 * 16) ∷ b'=' ∷ b'=' ∷ []
encode (a ∷ b ∷ []) =
    symbol (a / 4) ∷ symbol (a % 4 * 16 + b / 16) ∷ symbol (b % 16 * 4) ∷ b'=' ∷ []
encode (a ∷ b ∷ c ∷ r) =
    symbol (a / 4)
    ∷ symbol (a % 4 * 16 + b / 16)
    ∷ symbol (b % 16 * 4 + c / 64)
    ∷ symbol (c % 64)
    ∷ encode r

-- the first two symbols of a group, and the last one
first_byte : ℕ → ℕ → ℕ
first_byte v w = v * 4 + w / 16

second_byte : ℕ → ℕ → ℕ
second_byte w x = w % 16 * 16 + x / 4

third_byte : ℕ → ℕ → ℕ
third_byte x y = x % 4 * 64 + y

abbrev both {ℓ κ} :
    {A : Type ℓ} {B : Type ℓ} {C : Type κ} → (A → B → C) → Option A → Option B → Option C
both f (some a) (some b) = some (f a b)
both f _ _ = none

-- `s1 == '=' && s2 == '='` ends the text after one byte, `s2 == '='` after two.
decode_last : ℕ → ℕ → ℕ → ℕ → Option Bytes
unfolding first_byte second_byte third_byte
decode_last a b c d =
    if c == b'=' && d == b'='
    then both (λ v w. first_byte v w ∷ []) (sextet a) (sextet b)
    else if d == b'='
    then both (◌++◌) (both (λ v w. first_byte v w ∷ []) (sextet a) (sextet b))
        (both (λ w x. second_byte w x ∷ []) (sextet b) (sextet c))
    else both (◌++◌) (both (λ v w. first_byte v w ∷ []) (sextet a) (sextet b)) (
        both (◌++◌) (both (λ w x. second_byte w x ∷ []) (sextet b) (sextet c))
          (both (λ x y. third_byte x y ∷ []) (sextet c) (sextet d)))

decode_groups : Bytes → Option Bytes
decode_groups [] = some []
decode_groups (a ∷ b ∷ c ∷ d ∷ []) = decode_last a b c d
decode_groups (a ∷ b ∷ c ∷ d ∷ e ∷ r) =
    let rest = decode_groups (e ∷ r) in
    if d == b'=' then none else both (◌++◌) (decode_last a b c d) rest
decode_groups _ = none

abbrev drop_newlines : Bytes → Bytes
drop_newlines [] = []
drop_newlines (c ∷ cs) =
    let rest = drop_newlines cs in if c == b'\r' || c == b'\n' then rest else c ∷ rest

-- `StdEncoding.DecodeString`, with `none` for a `CorruptInputError`
unfoldable pub decode : Bytes → Option Bytes
unfolding decode_groups decode_last sextet
decode s = decode_groups (drop_newlines s)

decode_key : decode (codes "aGVsbG8=") ≡ some (codes "hello")
unfolding decode
decode_key = refl

sextet-symbol : (v : ℕ) → v < 64 → sextet (symbol v) ≡ some v
unfolding sextet symbol
sextet-symbol v h = ground arith

abbrev IsPlain : ℕ → Type 0
IsPlain c = ((c == b'\r' || c == b'\n') ≡ false) × ((c == b'=') ≡ false)

symbol-IsPlain : (v : ℕ) → v < 64 → IsPlain (symbol v)
unfolding symbol
symbol-IsPlain v h = ground arith

module _ (a b c : ℕ) (ha : a < 256) (hb : b < 256) (hc : c < 256) where
  decode_last_1 : decode_last (symbol (a / 4)) (symbol (a % 4 * 16)) b'=' b'=' ≡ some (a ∷ [])
  unfolding decode_last
  decode_last_1 = ground (arith, sextet-symbol (a / 4), sextet-symbol (a % 4 * 16))

  decode_last_2 :
      decode_last (symbol (a / 4)) (symbol (a % 4 * 16 + b / 16)) (symbol (b % 16 * 4)) b'='
      ≡ some (a ∷ b ∷ [])
  unfolding decode_last
  decode_last_2 = ground (
    arith,
    sextet-symbol (a / 4),
    sextet-symbol (a % 4 * 16 + b / 16),
    sextet-symbol (b % 16 * 4),
    symbol-IsPlain (b % 16 * 4),
  )

  decode_last_3 :
      decode_last
        (symbol (a / 4))
        (symbol (a % 4 * 16 + b / 16))
        (symbol (b % 16 * 4 + c / 64))
        (symbol (c % 64))
      ≡ some (a ∷ b ∷ c ∷ [])
  unfolding decode_last
  decode_last_3 = ground (
    arith,
    sextet-symbol (a / 4),
    sextet-symbol (a % 4 * 16 + b / 16),
    sextet-symbol (b % 16 * 4 + c / 64),
    sextet-symbol (c % 64),
    symbol-IsPlain (c % 64),
  )

decode_groups-cons :
    (a b c d : ℕ) (r : Bytes) {s t : Bytes}
    → (d == b'=') ≡ false
    → decode_last a b c d ≡ some s
    → decode_groups r ≡ some t
    → decode_groups (a ∷ b ∷ c ∷ d ∷ r) ≡ some (s ++ t)
unfolding decode_groups
decode_groups-cons a b c d [] {s} n h k = ground (arith, append-nil s)
decode_groups-cons a b c d (e ∷ r) n h k = rw (n, h, k)

decode_groups-encode : (s : Bytes) → All IsByte s → decode_groups (encode s) ≡ some s
unfolding encode
decode_groups-encode [] h = unfold decode_groups in refl
decode_groups-encode (a ∷ []) h =
    unfold decode_groups in decode_last_1 a 0 0 h.0 (omega arith) (omega arith)
decode_groups-encode (a ∷ b ∷ []) h =
    unfold decode_groups in decode_last_2 a b 0 h.0 h.1.0 (omega arith)
decode_groups-encode (a ∷ b ∷ c ∷ r) h =
    decode_groups-cons _ _ _ _ (encode r) (symbol-IsPlain (c % 64) (omega arith)).1
      (decode_last_3 a b c h.0 h.1.0 h.1.1.0) (decode_groups-encode r h.1.1.1)

drop_newlines-cons :
    (c : ℕ) (s : Bytes)
    → (c == b'\r' || c == b'\n') ≡ false
    → drop_newlines s ≡ s
    → drop_newlines (c ∷ s) ≡ c ∷ s
drop_newlines-cons c s n h = rw (n, h)

drop_newlines-symbol :
    (v : ℕ) (s : Bytes) → v < 64 → drop_newlines s ≡ s → drop_newlines (symbol v ∷ s) ≡ symbol v ∷ s
drop_newlines-symbol v s h = drop_newlines-cons (symbol v) s (symbol-IsPlain v h).0

drop_newlines-encode : (s : Bytes) → All IsByte s → drop_newlines (encode s) ≡ encode s
unfolding encode
drop_newlines-encode [] h = refl
drop_newlines-encode (a ∷ []) h =
    drop_newlines-symbol (a / 4) _ (omega arith)
      (drop_newlines-symbol (a % 4 * 16) _ (omega arith) refl)
drop_newlines-encode (a ∷ b ∷ []) h = drop_newlines-symbol (a / 4) _ (omega arith) (
    drop_newlines-symbol (a % 4 * 16 + b / 16) _ (omega arith)
      (drop_newlines-symbol (b % 16 * 4) _ (omega arith) refl))
drop_newlines-encode (a ∷ b ∷ c ∷ r) h = drop_newlines-symbol (a / 4) _ (omega arith) (
    drop_newlines-symbol (a % 4 * 16 + b / 16) _ (omega arith) (
      drop_newlines-symbol (b % 16 * 4 + c / 64) _ (omega arith)
        (drop_newlines-symbol (c % 64) _ (omega arith) (drop_newlines-encode r h.1.1.1))))

pub decode-encode : (s : Bytes) → All IsByte s → decode (encode s) ≡ some s
unfolding decode
decode-encode s h = rw (drop_newlines-encode s h) (decode_groups-encode s h)
