-- ===== src/Tests.antt =====
-- Runs of the code on concrete inputs, and each theorem at an input that meets its hypotheses.
mod Profiles
mod Routing
mod Service
mod Runtime
mod Engine
use pinus_smart_awg.Common.{
  Result, String, [], err, if◌then◌else◌, is_ok, ok, refl, true, ℕ, ◌++◌, ◌==◌, ◌≡◌,
}
use pinus_smart_awg.Conf.{Config, is_zero, zero_interface}
use pinus_smart_awg.Conf.Cps.{validate_cps}
use pinus_smart_awg.Conf.Name.{tunnel_name_is_valid}
use pinus_smart_awg.Conf.Quick.{from_wg_quick}
use pinus_smart_awg.Conf.QuickKeys.{interface_key, peer_key, set_interface, set_peer}
use pinus_smart_awg.Conf.Range.{parse_awg_range}
use pinus_smart_awg.Conf.Validation.{parse_persistent_keepalive, validate_awg}
use pinus_smart_awg.Conf.Values.{
  ConfError, endpoint_host, parse_endpoint, parse_ip_cidr, parse_key_base64, parse_mtu, parse_port,
  parse_table_off, parse_uint16, split_list,
}
use pinus_smart_awg.Conf.Writer.{to_wg_quick}
use pinus_smart_awg.Text.{Bytes, codes}
use pinus_smart_awg.Text.Base64.{decode}
use pinus_smart_awg.Text.Case.{equal_fold, to_lower}
use pinus_smart_awg.Text.Ip.{parse_ip, to_4}
use pinus_smart_awg.Text.Number.{atoi, itoa}
use pinus_smart_awg.Text.Search.{index_byte}
use pinus_smart_awg.Text.Trim.{trim_space}

-- no rune above ASCII changes its case
abbrev pub plain_case : ℕ → ℕ
plain_case r = r

-- the Kelvin sign becomes a letter
abbrev pub kelvin_case : ℕ → ℕ
kelvin_case r = if r == 0x212A then b'k' else r

abbrev pub key_text : String
key_text = "AQEBAQEBAQEBAQEBAQEBAQEBAQEBAQEBAQEBAQEBAQE="

abbrev pub sample_text : Bytes
sample_text =
    codes "# home\n[Interface]\nPrivateKey = "
    ++ codes key_text
    ++ codes
        "\nAddress = 10.8.0.2/24, fd00::2/64\nDNS = 1.1.1.1, lan\nJc = 4\nJmin = 40\nJmax = 70\n"
    ++ codes "H1 = 5-9\nMTU = 1380\nI1 = <b 0xc6ff><t><r 16>\n\n[Peer]\nPublicKey = "
    ++ codes key_text
    ++ codes
        "\nAllowedIPs = 0.0.0.0/0\nEndpoint = vpn.example.com:51820\nPersistentKeepalive = 20-25\n"

abbrev pub name : Bytes
name = codes "home"

pub sample : Result ConfError Config
unfolding from_wg_quick tunnel_name_is_valid trim_space to_lower index_byte interface_key peer_key
    set_interface set_peer parse_key_base64 decode split_list parse_ip_cidr parse_ip to_4
    parse_uint16 parse_mtu parse_port parse_endpoint endpoint_host parse_table_off
    parse_persistent_keepalive equal_fold parse_awg_range validate_awg validate_cps is_zero atoi
    itoa
sample = from_wg_quick plain_case sample_text name

abbrev pub value_of : Result ConfError Config → Config
value_of (ok c) = c
value_of (err e) = record { name = []; interface = zero_interface; peers = [] }

pub sample_ok : is_ok sample ≡ true
unfolding sample
sample_ok = refl

again : from_wg_quick plain_case (to_wg_quick (value_of sample)) name ≡ sample
unfolding sample to_wg_quick
again = refl
