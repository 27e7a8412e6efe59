-- ===== src/Conf/Cps.antt =====
-- `ValidateCPS` of core/conf/awg_validation.go. Each round of the loop reads one `<tag>` element
-- and accounts for it; the counters of the loop are a record.
pub mod Grammar
pub mod Tags
pub mod Elements
pub mod Laws
pub mod Termination
use pinus_smart_awg.Common.{
  List, Result, [], err, if◌then◌else◌, is_empty, length, ltb, none, not, of_option, ok, some, suc,
  zero, ℕ, ◌%◌, ◌*◌, ◌+◌, ◌/◌, ◌==◌, ◌>>=◌, ◌||◌, ◌∷◌,
}
use pinus_smart_awg.Conf.Range.{parse_awg_range}
use pinus_smart_awg.Text.{Bytes, codes, equal, one_of}
use pinus_smart_awg.Text.Hex.{from_hex}
use pinus_smart_awg.Text.Search.{contains_byte, cut, trim_prefix}
use pinus_smart_awg.Text.Trim.{fields, trim_space}

pub data CpsError : Type 0 where
  cps_too_large not_a_tag unclosed_tag invalid_tag bad_length bad_hex : CpsError
  stamp_argument second_stamp data_argument : CpsError
  unsupported_tag : Bytes → CpsError
  over_payload too_many_tags empty_packet out_of_fuel : CpsError

-- What a tag adds to the packet: filler of a length, bytes, a time stamp or the payload.
pub data CpsTag : Type 0 where
  filler : ℕ → CpsTag
  raw : ℕ → CpsTag
  stamp : CpsTag
  payload : CpsTag

-- `r`, `rc`, `rd` and `dz`
pub filler_tag : Bytes → Result CpsError CpsTag
filler_tag arg = elim (parse_awg_range arg 16) [
  | ok (low, high) ↦
      if not (low == high) || contains_byte b'-' arg then err bad_length else ok (filler low)
  | err e ↦ err bad_length
]

-- `b`
pub raw_tag : Bytes → Result CpsError CpsTag
raw_tag arg =
    let text = trim_prefix arg (codes "0x") in
    if is_empty text || not (length text % 2 == 0)
    then err bad_hex
    else elim (from_hex text) [ some bs ↦ ok (raw (length text / 2)) | none ↦ err bad_hex ]

-- the `switch tag`, up to the counters
read_tag : Bytes → Bytes → Result CpsError CpsTag
unfolding filler_tag raw_tag
read_tag tag arg =
    if one_of tag (codes "r" ∷ codes "rc" ∷ codes "rd" ∷ codes "dz" ∷ [])
    then filler_tag arg
    else if equal tag (codes "b")
    then raw_tag arg
    else if equal tag (codes "t")
    then (if is_empty arg then ok stamp else err stamp_argument)
    else if one_of tag (codes "d" ∷ codes "ds" ∷ [])
    then (if is_empty arg then ok payload else err data_argument)
    else err (unsupported_tag tag)

-- `strings.Fields(rest[1:end])` and the tag with its argument
read_parts : List Bytes → Result CpsError CpsTag
unfolding read_tag
read_parts (tag ∷ []) = read_tag tag []
read_parts (tag ∷ arg ∷ []) = read_tag tag arg
read_parts _ = err invalid_tag

pub record Counters : Type 0 where
  pub size : ℕ
  pub count : ℕ
  pub timestamps : ℕ

abbrev pub max_payload : ℕ
max_payload = 65507

abbrev pub max_tags : ℕ
max_tags = 4096

abbrev grow : Counters → ℕ → Counters
grow s n = record s { size = s.size + n }

-- the counters of the `switch`
add_tag : Counters → CpsTag → Result CpsError Counters
add_tag s (filler n) = ok (grow s n)
add_tag s (raw n) = ok (grow s n)
add_tag s stamp =
    let t = record s { size = s.size + 4; timestamps = s.timestamps + 1 } in
    if ltb 1 t.timestamps then err second_stamp else ok t
add_tag s payload = ok s

-- behind the `switch`
check_counters : Counters → Result CpsError Counters
check_counters s =
    if ltb max_payload s.size
    then err over_payload
    else if ltb max_tags (s.count + 1)
    then err too_many_tags
    else ok (record s { count = s.count + 1 })

pub account : Counters → CpsTag → Result CpsError Counters
unfolding add_tag check_counters
account s tag = do t ← add_tag s tag; check_counters t

-- The first element of a text that is not empty, and the text behind it.
pub next_tag : Bytes → Result CpsError (CpsTag × Bytes)
unfolding read_parts
next_tag [] = err empty_packet
next_tag (c ∷ cs) = if not (c == b'<') then err not_a_tag else do
  (inside, behind) ← of_option unclosed_tag (cut b'>' cs)
  tag ← read_parts (fields inside)
  ok (tag, trim_space behind)

pub cps_loop : ℕ → Counters → Bytes → Result CpsError Counters
cps_loop fuel s [] = if s.count == 0 then err empty_packet else ok s
cps_loop zero s (c ∷ cs) = err out_of_fuel
cps_loop (suc fuel) s (c ∷ cs) = do
  (tag, rest) ← next_tag (c ∷ cs)
  t ← account s tag
  cps_loop fuel t rest

abbrev pub max_spec : ℕ
max_spec = 256 * 1024

abbrev pub no_tags : Counters
no_tags = record { size = 0; count = 0; timestamps = 0 }

-- Every round takes at least two bytes off the text, so that its length is fuel enough.
unfoldable pub validate_cps : Bytes → Result CpsError (Unit {0})
unfolding cps_loop next_tag account trim_space cut fields one_of equal trim_prefix from_hex
    parse_awg_range contains_byte
validate_cps spec =
    if ltb max_spec (length spec)
    then err cps_too_large
    else do s ← cps_loop (length spec) no_tags (trim_space spec); ok tt
