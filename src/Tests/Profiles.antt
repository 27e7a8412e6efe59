-- ===== src/Tests/Profiles.antt =====
-- The theorems on profiles, at the sample profile and its parts.
use pinus_smart_awg.Common.{
  All, Ensures, List, Result, [], arith, false, ok, refl, replicate, suc, true, zero, ℕ, ◌↔◌, ◌∷◌,
  ◌≡◌,
}
use pinus_smart_awg.Conf.{Config, zero_interface}
use pinus_smart_awg.Conf.Cps.{CpsTag, validate_cps}
use pinus_smart_awg.Conf.Cps.Laws.{IsCps, validate_cps_iff}
use pinus_smart_awg.Conf.Cps.Termination.{runs_out, validate_cps-ends}
use pinus_smart_awg.Conf.Name.{tunnel_name_is_less, tunnel_name_is_valid}
use pinus_smart_awg.Conf.Name.Laws.{IsTunnelName, tunnel_name_is_valid_iff}
use pinus_smart_awg.Conf.Name.Order.{tunnel_name_is_less_order}
use pinus_smart_awg.Conf.Quick.{from_wg_quick}
use pinus_smart_awg.Conf.Quick.Checked.{IsChecked, from_wg_quick-IsChecked}
use pinus_smart_awg.Conf.Range.{parse_awg_range}
use pinus_smart_awg.Conf.Range.Laws.{IsRange, parse_awg_range_iff}
use pinus_smart_awg.Conf.Uapi.{from_uapi, set_uapi, set_uapi_interface, uapi_line, uapi_lines}
use pinus_smart_awg.Conf.Uapi.Laws.{Keeps, from_uapi-Keeps}
use pinus_smart_awg.Conf.Validation.{check_headers, validate_awg}
use pinus_smart_awg.Conf.Validation.Headers.{AllDisjoint, AreHeaders, check_headers_iff}
use pinus_smart_awg.Conf.Validation.Laws.{IsAwg, validate_awg_iff}
use pinus_smart_awg.Conf.Values.{
  ConfError, parse_ip_cidr, parse_key_base64, parse_key_hex, parse_port, parse_uint16,
}
use pinus_smart_awg.Conf.Values.Bounds.{IsPrefix, parse_ip_cidr-IsPrefix}
use pinus_smart_awg.Conf.Values.Laws.{parse_key-encode}
use pinus_smart_awg.Tests.{name, plain_case, sample, sample_text, value_of}
use pinus_smart_awg.Text.{Bytes, codes, equal}
use pinus_smart_awg.Text.Base64.{IsByte, encode}
use pinus_smart_awg.Text.Hex.{to_hex}
use pinus_smart_awg.Text.Number.{atoi}
use pinus_smart_awg.Text.Search.{cut, split}

abbrev tag : Bytes
tag = codes "<b 0xc6ff><t><r 16>"

abbrev key_bytes : Bytes
key_bytes = replicate 32 1

sample_read : from_wg_quick plain_case sample_text name ≡ ok (value_of sample)
unfolding sample
sample_read = refl

from_wg_quick-IsChecked_example : IsChecked plain_case name (value_of sample)
from_wg_quick-IsChecked_example = from_wg_quick-IsChecked plain_case sample_text name sample_read

validate_awg_iff_example :
    (validate_awg plain_case (value_of sample) ≡ ok tt) ↔ IsAwg plain_case (value_of sample)
validate_awg_iff_example = validate_awg_iff plain_case (value_of sample)

check_headers_iff_example :
    (check_headers 1 [] (codes "5-9" ∷ [] ∷ codes "10" ∷ codes "4" ∷ []) ≡ ok tt) ↔ (
      (rs : List (ℕ × ℕ)) × AreHeaders 1 (codes "5-9" ∷ [] ∷ codes "10" ∷ codes "4" ∷ []) rs
      × AllDisjoint rs)
check_headers_iff_example = check_headers_iff (codes "5-9" ∷ [] ∷ codes "10" ∷ codes "4" ∷ [])

validate_cps_iff_example : (validate_cps tag ≡ ok tt) ↔ ((tags : List CpsTag) × IsCps tag tags)
validate_cps_iff_example = validate_cps_iff tag

validate_cps-ends_example : runs_out (validate_cps (codes "<b 0xff><t>")) ≡ false
validate_cps-ends_example = validate_cps-ends (codes "<b 0xff><t>")

parse_awg_range_iff_example :
    (parse_awg_range (codes "20-25") 16 ≡ ok (20, 25)) ↔ IsRange 16 (codes "20-25") 20 25
parse_awg_range_iff_example = parse_awg_range_iff (codes "20-25") 16 20 25

tunnel_name_is_valid_iff_example :
    (tunnel_name_is_valid (codes "home+1") ≡ true) ↔ IsTunnelName (codes "home+1")
tunnel_name_is_valid_iff_example = tunnel_name_is_valid_iff (codes "home+1")

less_9 : tunnel_name_is_less plain_case (codes "wg9") (codes "wg10") ≡ true
unfolding tunnel_name_is_less
less_9 = refl

less_10 : tunnel_name_is_less plain_case (codes "wg10") (codes "wg11") ≡ true
unfolding tunnel_name_is_less
less_10 = refl

tunnel_name_is_less_order_example :
    (tunnel_name_is_less plain_case (codes "wg9") (codes "wg11") ≡ true)
    × (tunnel_name_is_less plain_case (codes "wg11") (codes "wg9") ≡ false)
    × (tunnel_name_is_less plain_case (codes "wg9") (codes "wg9") ≡ false)
tunnel_name_is_less_order_example =
    tunnel_name_is_less_order plain_case (codes "wg9") (codes "wg10") (codes "wg11") less_9 less_10

parse_ip_cidr-IsPrefix_example : Ensures IsPrefix (parse_ip_cidr (codes "10.8.0.2/24"))
parse_ip_cidr-IsPrefix_example = parse_ip_cidr-IsPrefix (codes "10.8.0.2/24")

ones-IsByte : (n : ℕ) → All IsByte (replicate n 1)
ones-IsByte zero = tt
ones-IsByte (suc n) = (omega arith, ones-IsByte n)

parse_key-encode_example :
    (parse_key_base64 (encode key_bytes) ≡ ok key_bytes)
    × (parse_key_hex (to_hex key_bytes) ≡ ok key_bytes)
parse_key-encode_example = parse_key-encode key_bytes (ones-IsByte 32) refl

abbrev driver_text : Bytes
driver_text = codes "listen_port=51820\njc=4\nerrno=0\n\n"

abbrev home : Config
home = record {
  name = name;
  interface = record zero_interface { mtu = 1380; dns_search = codes "lan" ∷ [] };
  peers = [];
}

driver_config : Result ConfError Config
unfolding from_uapi uapi_lines uapi_line set_uapi set_uapi_interface parse_port parse_uint16 atoi
    cut split equal
driver_config = from_uapi driver_text home

driver_read : from_uapi driver_text home ≡ ok (value_of driver_config)
unfolding driver_config
driver_read = refl

from_uapi-Keeps_example :
    ((value_of driver_config).name ≡ name) × Keeps home.interface (value_of driver_config).interface
from_uapi-Keeps_example = from_uapi-Keeps driver_text home driver_read
