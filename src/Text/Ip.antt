-- ===== src/Text/Ip.antt =====
-- `net.ParseIP`, `IP.To4` and `IP.String`. An address is its 4 or 16 bytes; `ParseIP` returns 16,
-- an IPv4 address behind the prefix `::ffff:`.
pub mod Laws
pub mod Sizes
use mathlib.Core.Option
use pinus_smart_awg.Common.{
  Bool, List, Option, [], drop, false, if◌then◌else◌, is_empty, leb, length, ltb, map, none, not,
  refl, replicate, some, suc, take, true, zero, ℕ, ◌%◌, ◌&&◌, ◌*◌, ◌++◌, ◌+◌, ◌-◌, ◌/◌, ◌==◌, ◌||◌,
  ◌∷◌, ◌≡◌,
}
use pinus_smart_awg.Text.{Bytes, codes, equal}
use pinus_smart_awg.Text.Hex.{hex_digit, hex_value, to_hex}
use pinus_smart_awg.Text.Number.{itoa, parse_uint}
use pinus_smart_awg.Text.Search.{contains_byte, join, split}

abbrev pub v4_prefix : Bytes
v4_prefix = 0 ∷ 0 ∷ 0 ∷ 0 ∷ 0 ∷ 0 ∷ 0 ∷ 0 ∷ 0 ∷ 0 ∷ 0xFF ∷ 0xFF ∷ []

-- one field of a dotted address: no leading zero, at most 255
parse_octet : Bytes → Option ℕ
parse_octet [] = none
parse_octet (c ∷ []) = parse_uint 8 (c ∷ [])
parse_octet (c ∷ d ∷ r) = if c == b'0' then none else parse_uint 8 (c ∷ d ∷ r)

abbrev quad : Option ℕ → Option ℕ → Option ℕ → Option ℕ → Option Bytes
quad (some a) (some b) (some c) (some d) = some (a ∷ b ∷ c ∷ d ∷ [])
quad _ _ _ _ = none

octets : List Bytes → Option Bytes
octets (a ∷ b ∷ c ∷ d ∷ []) = quad (parse_octet a) (parse_octet b) (parse_octet c) (parse_octet d)
octets _ = none

unfoldable pub parse_v4 : Bytes → Option Bytes
unfolding octets parse_octet split parse_uint
parse_v4 s = octets (split b'.' s)

-- The hexadecimal field that the text begins with, its number of digits, and the rest.
hex_field : ℕ → ℕ → Bytes → ℕ × ℕ × Bytes
hex_field acc n [] = (acc, n, [])
hex_field acc n (c ∷ cs) = elim (hex_value c) [
  | some v ↦ hex_field (acc * 16 + v) (n + 1) cs
  | none ↦ (acc, n, c ∷ cs)
]

-- The state of the loop of `parseIPv6`: the bytes so far, and where `::` stands among them.
record V6 : Type 0 where
  bytes : Bytes
  ellipsis : Option ℕ

abbrev begins_with : ℕ → Bytes → Bool
begins_with c [] = false
begins_with c (x ∷ xs) = x == c

-- Behind the last field: zeros fill the place of `::`.
finish_v6 : V6 → Option Bytes
finish_v6 v =
    let have = length v.bytes in
    elim v.ellipsis [
      | none ↦ if have == 16 then some v.bytes else none
      | some at ↦
          if ltb have 16
          then some (take at v.bytes ++ (replicate (16 - have) 0 ++ drop at v.bytes))
          else none
    ]

abbrev is_some {ℓ} : {A : Type ℓ} → Option A → Bool
is_some none = false
is_some (some a) = true

-- a dotted IPv4 address at the end
trailing_v4 : V6 → Bytes → Option Bytes
trailing_v4 v s =
    let have = length v.bytes in
    if not (is_some v.ellipsis) && not (have == 12) || ltb 16 (have + 4)
    then none
    else elim (parse_v4 s) [ none ↦ none | some q ↦ finish_v6 (record v { bytes = v.bytes ++ q }) ]

-- Behind a field: the end, or a colon and more, of which a second colon is `::`.
abbrev separator : V6 → Bytes → Option (V6 × Bytes)
separator v (c ∷ d ∷ r) =
    if not (c == b':')
    then none
    else if not (d == b':')
    then some (v, d ∷ r)
    else if is_some v.ellipsis
    then none
    else some (record v { ellipsis = some (length v.bytes) }, r)
separator v _ = none

-- At most eight fields are read; text behind them is refused.
fields_v6 : ℕ → V6 → Bytes → Option Bytes
fields_v6 zero v s = none
fields_v6 (suc fuel) v s =
    let (acc, n, rest) = hex_field 0 0 s in
    let next = record v { bytes = v.bytes ++ (acc / 256) ∷ (acc % 256) ∷ [] } in
    let more : Option Bytes = elim (separator next rest) [
      | none ↦ none
      | some (w, r) ↦ let again = fields_v6 fuel w r in if is_empty r then finish_v6 w else again
    ] in
    if n == 0 || ltb 4 n
    then none
    else if begins_with b'.' rest
    then trailing_v4 v s
    else if is_empty rest
    then finish_v6 next
    else more

parse_v6 : Bytes → Option Bytes
parse_v6 (c ∷ d ∷ r) =
    if c == b':' && d == b':'
    then if is_empty r
      then some (replicate 16 0)
      else fields_v6 8 (record { bytes = []; ellipsis = some 0 }) r
    else fields_v6 8 (record { bytes = []; ellipsis = none }) (c ∷ d ∷ r)
parse_v6 s = fields_v6 8 (record { bytes = []; ellipsis = none }) s

-- The first of `.`, `:` and `%` says what the text is. An address with a zone is refused.
dispatch : Bytes → Bytes → Option Bytes
dispatch s [] = none
dispatch s (c ∷ cs) =
    let later = dispatch s cs in
    if c == b'.'
    then Option.map (◌++◌ v4_prefix) (parse_v4 s)
    else if c == b':'
    then (if contains_byte b'%' s then none else parse_v6 s)
    else if c == b'%'
    then none
    else later

-- `net.ParseIP`
unfoldable pub parse_ip : Bytes → Option Bytes
unfolding dispatch parse_v4 parse_v6 fields_v6 trailing_v4 finish_v6 hex_field hex_value
    contains_byte
parse_ip s = dispatch s s

-- `IP.To4`, with `none` for nil
unfoldable pub to_4 : Bytes → Option Bytes
unfolding equal
to_4 ip =
    if length ip == 4
    then some ip
    else if length ip == 16 && equal (take 12 ip) v4_prefix
    then some (drop 12 ip)
    else none

-- `IP.To16() != nil`
abbrev pub has_16 : Bytes → Bool
has_16 ip = length ip == 4 || length ip == 16

words : Bytes → List ℕ
words (a ∷ b ∷ r) = (a * 256 + b) ∷ words r
words _ = []

zero_run : List ℕ → ℕ
zero_run [] = 0
zero_run (w ∷ ws) = let n = zero_run ws in if w == 0 then suc n else 0

-- The first longest run of at least two zero fields: where it begins, and its length.
longest : ℕ → ℕ × ℕ → List ℕ → ℕ × ℕ
longest i best [] = best
longest i best (w ∷ ws) =
    let n = zero_run (w ∷ ws) in
    longest (i + 1) (if leb 2 n && ltb best.1 n then (i, n) else best) ws

hex_word : ℕ → ℕ → Bytes → Bytes
hex_word zero n acc = acc
hex_word (suc f) n acc =
    let out = hex_digit (n % 16) ∷ acc in
    let rest = hex_word f (n / 16) out in if ltb n 16 then out else rest

abbrev colons : List ℕ → Bytes
colons ws = join (b':' ∷ []) (map (λ w. hex_word 4 w []) ws)

v6_string : List ℕ → Bytes
v6_string ws =
    let (at, n) = longest 0 (0, 0) ws in
    if n == 0 then colons ws else colons (take at ws) ++ (b':' ∷ b':' ∷ colons (drop (at + n) ws))

pub v4_string : Bytes → Bytes
v4_string q = join (b'.' ∷ []) (map itoa q)

-- `IP.String`
unfoldable pub ip_string : Bytes → Bytes
unfolding to_4 v4_string v6_string words longest zero_run hex_word hex_digit join itoa to_hex
ip_string ip = elim (to_4 ip) [
  | some q ↦ v4_string q
  | none ↦
      if is_empty ip
      then codes "<nil>"
      else if length ip == 16
      then v6_string (words ip)
      else b'?' ∷ to_hex ip
]

parse_ip_tests :
    (parse_ip (codes "10.8.0.1") ≡ some (v4_prefix ++ 10 ∷ 8 ∷ 0 ∷ 1 ∷ []))
    × (parse_ip (codes "10.08.0.1") ≡ none)
    × (parse_ip (codes "::") ≡ some (replicate 16 0))
    × (parse_ip (codes "fe80::1%eth0") ≡ none)
    × (parse_ip (codes "1:2:3:4:5:6:7:8::") ≡ none)
    × (Option.map ip_string (parse_ip (codes "2606:4700:4700:0:0::1111"))
        ≡ some (codes "2606:4700:4700::1111"))
    × (Option.map ip_string (parse_ip (codes "::ffff:1.2.3.4")) ≡ some (codes "1.2.3.4"))
    × (Option.map ip_string (parse_ip (codes "1:0:0:2::")) ≡ some (codes "1:0:0:2::"))
unfolding parse_ip ip_string
parse_ip_tests = (refl, refl, refl, refl, refl, refl, refl, refl)
