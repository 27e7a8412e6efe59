-- ===== src/Conf/Values.antt =====
-- The value parsers of core/conf/parser.go, from `parseIPCidr` to `splitList`, and the printers of
-- addresses, endpoints and keys of core/conf/config.go.
pub mod Laws
pub mod Bounds
use pinus_smart_awg.Common.{
  Bool, List, Option, Result, [], drop, err, false, if◌then◌else◌, is_empty, length, ltb, none,
  of_option, ok, refl, refuse_if, reverse, some, suc, take, true, ℕ, ◌&&◌, ◌++◌, ◌-◌, ◌==◌, ◌>>=◌,
  ◌>>◌, ◌||◌, ◌∷◌, ◌≡◌,
}
use pinus_smart_awg.Conf.{Endpoint, Ip, IpCidr, Key, key_length}
use pinus_smart_awg.Conf.Range.{RangeError}
use pinus_smart_awg.Conf.Validation.{AwgError}
use pinus_smart_awg.Text.{Bytes, codes, equal}
use pinus_smart_awg.Text.Base64.{decode}
use pinus_smart_awg.Text.Hex.{from_hex}
use pinus_smart_awg.Text.Ip.{ip_string, parse_ip, to_4}
use pinus_smart_awg.Text.Number.{atoi, itoa, negsuc, parse_uint, pos, ℤ}
use pinus_smart_awg.Text.Search.{contains_byte, cut, cut_last, index_byte, split}
use pinus_smart_awg.Text.Trim.{trim_space}

-- the localised texts of a `ParseError`
pub data Why : Type 0 where
  invalid_ip invalid_prefix missing_port invalid_host need_brackets invalid_mtu invalid_port : Why
  invalid_number invalid_key wrong_key_length two_commas invalid_stamp : Why
  invalid_name no_section no_equals no_value bad_interface_key bad_peer_key : Why
  no_private_key no_public_key config_error bad_protocol : Why

pub data ConfError : Type 0 where
  parse_error : Why → Bytes → ConfError
  num_error : Bytes → ConfError
  bad_header_key : ConfError
  keepalive_error : RangeError → ConfError
  awg_error : AwgError → ConfError
  end_of_input : ConfError
  slice_panic : ConfError

abbrev pub fails {ℓ} : {A : Type ℓ} → Why → Bytes → Result ConfError A
fails why s = err (parse_error why s)

-- `maybeV4` if it is not nil, or the address as it was parsed
abbrev prefer_4 : Option Ip → Ip → Ip
prefer_4 none ip = ip
prefer_4 (some q) ip = q

abbrev is_v4 : Option Ip → Bool
is_v4 none = false
is_v4 (some q) = true

-- the length of the prefix behind the slash
abbrev prefix_length : Bool → Bytes → Option ℤ → Result ConfError ℕ
prefix_length v4 s none = fails invalid_prefix s
prefix_length v4 s (some (negsuc n)) = fails invalid_prefix s
prefix_length v4 s (some (pos n)) =
    if ltb 128 n || (ltb 32 n && v4) then fails invalid_prefix s else ok n

unfoldable pub parse_ip_cidr : Bytes → Result ConfError IpCidr
unfolding cut
parse_ip_cidr s = elim (cut b'/' s) [
  | none ↦ do
    ip ← of_option (parse_error invalid_ip s) (parse_ip s)
    ok (record { ip = prefer_4 (to_4 ip) ip; cidr = if is_v4 (to_4 ip) then 32 else 128 })
  | some (addr, bits) ↦ do
    ip ← of_option (parse_error invalid_ip s) (parse_ip addr)
    n ← prefix_length (is_v4 (to_4 ip)) s (atoi bits)
    ok (record { ip = prefer_4 (to_4 ip) ip; cidr = n })
]

-- a number between `lo` and `hi`, where `Atoi` reads one
abbrev within : ℕ → ℕ → Why → Bytes → Option ℤ → Result ConfError ℕ
within lo hi why s none = err (num_error s)
within lo hi why s (some (negsuc n)) = fails why s
within lo hi why s (some (pos n)) = if ltb n lo || ltb hi n then fails why s else ok n

unfoldable pub parse_mtu : Bytes → Result ConfError ℕ
parse_mtu s = within 576 65535 invalid_mtu s (atoi s)

unfoldable pub parse_port : Bytes → Result ConfError ℕ
parse_port s = within 0 65535 invalid_port s (atoi s)

unfoldable pub parse_uint16 : Bytes → Result ConfError ℕ
parse_uint16 s = within 0 65535 invalid_number s (atoi s)

unfoldable pub parse_uint32 : Bytes → Result ConfError ℕ
parse_uint32 s = within 0 4294967295 invalid_number s (atoi s)

abbrev first_is : ℕ → Bytes → Bool
first_is c [] = false
first_is c (x ∷ xs) = x == c

-- `IndexByte(host, ':') > 0`
abbrev inner_colon : Bytes → Bool
inner_colon host = elim (index_byte b':' host) [ some (suc i) ↦ true | _ ↦ false ]

-- `host[1:end]`, with `end` before the last `%` if that stands behind the second byte
abbrev inside_brackets : Bytes → Bytes
inside_brackets host = elim (cut_last b'%' host) [
  | some (address, zone) ↦
      if ltb 1 (length address) then drop 1 address else take (length host - 2) (drop 1 host)
  | none ↦ take (length host - 2) (drop 1 host)
]

abbrev is_16_bytes : Option Ip → Bool
is_16_bytes none = false
is_16_bytes (some ip) = length ip == 16

unfoldable pub endpoint_host : Bytes → Result ConfError Bytes
unfolding index_byte cut_last
endpoint_host host =
    if first_is b'[' host || first_is b']' (reverse host) || inner_colon host
    then if ltb 3 (length host)
        && first_is b'[' host
        && first_is b']' (reverse host)
        && inner_colon host
        && is_16_bytes (parse_ip (inside_brackets host))
      then ok (take (length host - 2) (drop 1 host))
      else fails need_brackets host
    else ok host

unfoldable pub parse_endpoint : Bytes → Result ConfError Endpoint
unfolding cut_last parse_port endpoint_host
parse_endpoint s = do
  (host, port_str) ← of_option (parse_error missing_port s) (cut_last b':' s)
  refuse_if (is_empty host) (parse_error invalid_host host)
  port ← parse_port port_str
  inner ← endpoint_host host
  ok (record { host = inner; port = port })

unfoldable pub parse_table_off : Bytes → Result ConfError Bool
unfolding equal parse_uint
parse_table_off s =
    if equal s (codes "off")
    then ok true
    else if equal s (codes "auto") || equal s (codes "main")
    then ok false
    else do n ← of_option (num_error s) (parse_uint 32 s); ok false

abbrev key_of : Bytes → Option Bytes → Result ConfError Key
key_of s none = fails invalid_key s
key_of s (some k) = if length k == key_length then ok k else fails wrong_key_length s

unfoldable pub parse_key_base64 : Bytes → Result ConfError Key
parse_key_base64 s = key_of s (decode s)

unfoldable pub parse_key_hex : Bytes → Result ConfError Key
parse_key_hex s = key_of s (from_hex s)

unfoldable pub parse_bytes_or_stamp : Bytes → Result ConfError ℕ
parse_bytes_or_stamp s = of_option (parse_error invalid_stamp s) (parse_uint 64 s)

trim_items : Bytes → List Bytes → Result ConfError (List Bytes)
trim_items s [] = ok []
trim_items s (p ∷ ps) =
    let rest = trim_items s ps in
    if is_empty (trim_space p) then fails two_commas s else do ts ← rest; ok (trim_space p ∷ ts)

unfoldable pub split_list : Bytes → Result ConfError (List Bytes)
unfolding trim_items split trim_space
split_list s = trim_items s (split b',' s)

-- `IPCidr.String`
unfoldable pub ip_cidr_string : IpCidr → Bytes
unfolding ip_string itoa
ip_cidr_string r = ip_string r.ip ++ b'/' ∷ itoa r.cidr

-- `Endpoint.String`
unfoldable pub endpoint_string : Endpoint → Bytes
unfolding itoa contains_byte
endpoint_string e =
    if contains_byte b':' e.host
    then b'[' ∷ (e.host ++ b']' ∷ b':' ∷ itoa e.port)
    else e.host ++ b':' ∷ itoa e.port

parse_endpoint_tests :
    (parse_endpoint (codes "vpn.example.com:51820")
      ≡ ok (record { host = codes "vpn.example.com"; port = 51820 }))
    × (parse_endpoint (codes "[2001:db8::1]:443")
        ≡ ok (record { host = codes "2001:db8::1"; port = 443 }))
    × (parse_endpoint (codes "2001:db8::1:443") ≡ fails need_brackets (codes "2001:db8::1"))
    × (parse_endpoint (codes "host:65536") ≡ fails invalid_port (codes "65536"))
unfolding parse_endpoint parse_ip atoi
parse_endpoint_tests = (refl, refl, refl, refl)
