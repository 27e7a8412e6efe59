-- ===== src/Conf/Validation.antt =====
-- `Config.ValidateAWG` and `ProtocolDescription` of core/conf/awg_validation.go, and
-- `parsePersistentKeepalive` of core/conf/parser.go. Go ranges over the maps of settings in an
-- unspecified order, which decides only which of several errors is returned.
pub mod Laws
pub mod Headers
use pinus_smart_awg.Common.{
  Bool, List, Result, [], any, err, for_each, if◌then◌else◌, is_empty, leb, ltb, map_err, not,
  of_option, ok, refuse_if, ℕ, ◌&&◌, ◌++◌, ◌+◌, ◌==◌, ◌>>=◌, ◌>>◌, ◌||◌, ◌∷◌,
}
use pinus_smart_awg.Conf.{Config, Interface, Peer, is_zero}
use pinus_smart_awg.Conf.Cps.{CpsError, max_payload, validate_cps}
use pinus_smart_awg.Conf.Range.{RangeError, parse_awg_bool, parse_awg_range}
use pinus_smart_awg.Text.{Bytes, codes, one_of}
use pinus_smart_awg.Text.Case.{equal_fold}
use pinus_smart_awg.Text.Number.{itoa}
use pinus_smart_awg.Text.Search.{contains_byte}

pub data AwgError : Type 0 where
  jmin_exceeds_jmax jmax_exceeds_payload : AwgError
  padding_exceeds_payload padding_too_small : ℕ → AwgError
  bad_header : ℕ → RangeError → AwgError
  headers_overlap : ℕ → ℕ → AwgError
  bad_setting : RangeError → AwgError
  bad_switch : AwgError
  bad_keepalive : RangeError → AwgError
  unknown_packet : AwgError
  bad_packet : CpsError → AwgError

-- one round of the loop over S1 to S4; `base` is `payload[n]`
pub record Padding : Type 0 where
  pub index : ℕ
  pub size : ℕ
  pub base : ℕ

pub check_padding : Bool → Padding → Result AwgError (Unit {0})
check_padding protected p =
    if ltb max_payload (p.size + p.base)
    then err (padding_exceeds_payload p.index)
    else if protected && ltb p.size 12
    then err (padding_too_small p.index)
    else ok tt

abbrev default_mtu : ℕ
default_mtu = 1420

abbrev effective_mtu : ℕ → ℕ
effective_mtu mtu = if mtu == 0 then default_mtu else mtu

abbrev pub paddings : Interface → List Padding
paddings i =
    record { index = 1; size = i.init_packet_junk_size; base = 148 }
    ∷ record { index = 2; size = i.response_packet_junk_size; base = 92 }
    ∷ record { index = 3; size = i.cookie_reply_packet_junk_size; base = 64 }
    ∷ record {
      index = 4;
      size = i.transport_packet_junk_size;
      base = effective_mtu i.mtu + 32 + 15;
    }
    ∷ []

abbrev pub is_protected : Interface → Bool
is_protected i = not (is_zero i.header_protection_key)

-- `lo <= ranges[prev][1] && hi >= ranges[prev][0]`
abbrev overlaps : ℕ × ℕ → ℕ × ℕ → Bool
overlaps prev r = leb r.0 prev.1 && leb prev.0 r.1

-- the inner loop; `k` is `prev + 1` and `n` the number of the new header
check_overlap : ℕ → ℕ → List (ℕ × ℕ) → ℕ × ℕ → Result AwgError (Unit {0})
check_overlap k n [] r = ok tt
check_overlap k n (prev ∷ rest) r =
    let later = check_overlap (k + 1) n rest r in
    if overlaps prev r then err (headers_overlap k n) else later

-- an unset header has its number for a value
abbrev pub header_text : ℕ → Bytes → Bytes
header_text n [] = itoa n
header_text n (c ∷ cs) = c ∷ cs

pub check_headers : ℕ → List (ℕ × ℕ) → List Bytes → Result AwgError (Unit {0})
check_headers n seen [] = ok tt
check_headers n seen (h ∷ hs) = do
  r ← map_err (bad_header n) (parse_awg_range (header_text n h) 32)
  check_overlap 1 n seen r
  check_headers (n + 1) (seen ++ r ∷ []) hs

abbrev pub headers : Interface → List Bytes
headers i =
    i.init_packet_magic_header ∷ i.response_packet_magic_header ∷ i.underload_packet_magic_header
    ∷ i.transport_packet_magic_header ∷ []

abbrev pub settings : Interface → List Bytes
settings i =
    i.content_padding_addition ∷ i.rekey_after_time ∷ i.rekey_timeout ∷ i.reject_after_time
    ∷ i.keepalive_timeout ∷ i.max_handshake_attempts ∷ []

abbrev pub switches : Interface → List Bytes
switches i = i.random_trailers ∷ i.disable_cookies ∷ []

-- forgets the value of a call that is made for its error
abbrev checked {ℓ} : {A : Type ℓ} → Result AwgError A → Result AwgError (Unit {0})
checked (ok a) = ok tt
checked (err e) = err e

check_setting : Bytes → Result AwgError (Unit {0})
check_setting v = if is_empty v then ok tt else checked (map_err bad_setting (parse_awg_range v 16))

check_switch : (ℕ → ℕ) → Bytes → Result AwgError (Unit {0})
check_switch lower v =
    if is_empty v then ok tt else checked (of_option bad_switch (parse_awg_bool lower v))

unfoldable pub parse_persistent_keepalive : Bytes → Result RangeError Bytes
unfolding equal_fold
parse_persistent_keepalive s =
    if equal_fold s (codes "off") then ok (codes "0") else do r ← parse_awg_range s 16; ok s

check_peer : Peer → Result AwgError (Unit {0})
check_peer p =
    if is_empty p.persistent_keepalive
    then ok tt
    else checked (map_err bad_keepalive (parse_persistent_keepalive p.persistent_keepalive))

abbrev pub packet_keys : List Bytes
packet_keys = codes "i1" ∷ codes "i2" ∷ codes "i3" ∷ codes "i4" ∷ codes "i5" ∷ []

check_packet : Bytes × Bytes → Result AwgError (Unit {0})
check_packet (key, spec) =
    if not (one_of key packet_keys)
    then err unknown_packet
    else map_err bad_packet (validate_cps spec)

unfoldable pub validate_awg : (ℕ → ℕ) → Config → Result AwgError (Unit {0})
unfolding check_padding check_headers check_overlap check_setting check_switch check_peer
    check_packet
validate_awg lower c = do
  let i = c.interface
  refuse_if (ltb i.junk_packet_max_size i.junk_packet_min_size) jmin_exceeds_jmax
  refuse_if (ltb max_payload i.junk_packet_max_size) jmax_exceeds_payload
  for_each (check_padding (is_protected i)) (paddings i)
  check_headers 1 [] (headers i)
  for_each check_setting (settings i)
  for_each (check_switch lower) (switches i)
  for_each check_peer c.peers
  for_each check_packet i.i_packets

pub data Protocol : Type 0 where
  awg_3_1 compatible : Protocol

-- `ProtocolDescription`, with a constructor for each of the two texts
unfoldable pub protocol_description : Config → Protocol
unfolding contains_byte
protocol_description c =
    if is_protected c.interface
      || any (λ v. not (is_empty v)) (settings c.interface)
      || any (λ v. not (is_empty v)) (switches c.interface)
    then awg_3_1
    else if any (λ (p : Peer). contains_byte b'-' p.persistent_keepalive) c.peers
    then awg_3_1
    else compatible
