-- ===== src/Conf/Writer.antt =====
-- core/conf/writer.go: `ToWgQuick` and `ToUAPI`. Each `WriteString` ends its lines, so the output is
-- a list of lines. `resolve` stands for `resolveHostname`, which asks the system's resolver.
use pinus_smart_awg.Common.{
  List, Option, Result, String, [], false, flatten, if◌then◌else◌, is_empty, map, map_err,
  of_option, ok, true, ℕ, ◌++◌, ◌==◌, ◌>>=◌, ◌>>◌, ◌||◌, ◌∷◌,
}
use pinus_smart_awg.Conf.{Config, Endpoint, Interface, IpCidr, Key, Peer, is_unset, is_zero}
use pinus_smart_awg.Conf.Range.{bool_to_uapi}
use pinus_smart_awg.Conf.Validation.{validate_awg}
use pinus_smart_awg.Conf.Values.{ConfError, awg_error, endpoint_string, ip_cidr_string, num_error}
use pinus_smart_awg.Text.{Bytes, codes, equal}
use pinus_smart_awg.Text.Base64.{encode}
use pinus_smart_awg.Text.Hex.{to_hex}
use pinus_smart_awg.Text.Ip.{ip_string}
use pinus_smart_awg.Text.Number.{itoa}
use pinus_smart_awg.Text.Search.{join}

-- the lines, each with its newline
unfoldable pub unlines : List Bytes → Bytes
unlines [] = []
unlines (l ∷ ls) = l ++ b'\n' ∷ unlines ls

-- `key = value`
abbrev pub setting : String → Bytes → Bytes
setting key v = codes key ++ (codes " = " ++ v)

abbrev number_line : String → ℕ → List Bytes
number_line key n = if n == 0 then [] else setting key (itoa n) ∷ []

abbrev text_line : String → Bytes → List Bytes
text_line key v = if is_empty v then [] else setting key v ∷ []

abbrev key_line : String → Key → List Bytes
key_line key k = if is_zero k then [] else setting key (encode k) ∷ []

abbrev list_line : String → List Bytes → List Bytes
list_line key vs = if is_empty vs then [] else setting key (join (codes ", ") vs) ∷ []

-- `IPackets[key]`, empty if it is not there
pub packet : Bytes → List (Bytes × Bytes) → Bytes
packet k [] = []
packet k ((j, v) ∷ m) = elim (equal j k) [ true ↦ v | false ↦ packet k m ]

interface_lines : Interface → List Bytes
interface_lines i =
    codes "[Interface]"
    ∷ setting "PrivateKey" (encode i.private_key)
    ∷ flatten (
        number_line "ListenPort" i.listen_port
        ∷ number_line "Jc" i.junk_packet_count
        ∷ number_line "Jmin" i.junk_packet_min_size
        ∷ number_line "Jmax" i.junk_packet_max_size
        ∷ number_line "S1" i.init_packet_junk_size
        ∷ number_line "S2" i.response_packet_junk_size
        ∷ number_line "S3" i.cookie_reply_packet_junk_size
        ∷ number_line "S4" i.transport_packet_junk_size
        ∷ text_line "H1" i.init_packet_magic_header
        ∷ text_line "H2" i.response_packet_magic_header
        ∷ text_line "H3" i.underload_packet_magic_header
        ∷ text_line "H4" i.transport_packet_magic_header
        ∷ text_line "I1" (packet (codes "i1") i.i_packets)
        ∷ text_line "I2" (packet (codes "i2") i.i_packets)
        ∷ text_line "I3" (packet (codes "i3") i.i_packets)
        ∷ text_line "I4" (packet (codes "i4") i.i_packets)
        ∷ text_line "I5" (packet (codes "i5") i.i_packets)
        ∷ key_line "HeaderProtectionKey" i.header_protection_key
        ∷ text_line "ContentPaddingAddition" i.content_padding_addition
        ∷ text_line "RekeyAfterTime" i.rekey_after_time
        ∷ text_line "RekeyTimeout" i.rekey_timeout
        ∷ text_line "RejectAfterTime" i.reject_after_time
        ∷ text_line "KeepaliveTimeout" i.keepalive_timeout
        ∷ text_line "MaxHandshakeAttempts" i.max_handshake_attempts
        ∷ text_line "RandomTrailers" i.random_trailers
        ∷ text_line "DisableCookies" i.disable_cookies
        ∷ list_line "Address" (map ip_cidr_string i.addresses)
        ∷ list_line "DNS" (map ip_string i.dns ++ i.dns_search)
        ∷ number_line "MTU" i.mtu
        ∷ text_line "PreUp" i.pre_up
        ∷ text_line "PostUp" i.post_up
        ∷ text_line "PreDown" i.pre_down
        ∷ text_line "PostDown" i.post_down
        ∷ (if i.table_off then codes "Table = off" ∷ [] else [])
        ∷ [])

-- a keepalive that is neither unset nor turned off
abbrev keepalive_line : Bytes → List Bytes
keepalive_line v =
    if is_empty v || equal v (codes "0") || equal v (codes "off")
    then []
    else setting "PersistentKeepalive" v ∷ []

abbrev endpoint_line : Endpoint → List Bytes
endpoint_line e = if is_unset e then [] else setting "Endpoint" (endpoint_string e) ∷ []

pub peer_lines : Peer → List Bytes
peer_lines p =
    []
    ∷ codes "[Peer]"
    ∷ setting "PublicKey" (encode p.public_key)
    ∷ (key_line "PresharedKey" p.preshared_key
        ++ (list_line "AllowedIPs" (map ip_cidr_string p.allowed_ips)
            ++ (endpoint_line p.endpoint ++ keepalive_line p.persistent_keepalive)))

pub all_peer_lines : List Peer → List Bytes
all_peer_lines [] = []
all_peer_lines (p ∷ ps) = peer_lines p ++ all_peer_lines ps

unfoldable pub to_wg_quick : Config → Bytes
unfolding interface_lines peer_lines all_peer_lines packet unlines equal is_zero encode itoa join
    ip_cidr_string ip_string endpoint_string
to_wg_quick c = unlines (interface_lines c.interface ++ all_peer_lines c.peers)

-- `key=value`
abbrev pub uapi : String → Bytes → Bytes
uapi key v = codes key ++ (b'=' ∷ v)

abbrev uapi_number : String → ℕ → List Bytes
uapi_number key n = if n == 0 then [] else uapi key (itoa n) ∷ []

abbrev uapi_text : String → Bytes → List Bytes
uapi_text key v = if is_empty v then [] else uapi key v ∷ []

abbrev uapi_key : String → Key → List Bytes
uapi_key key k = if is_zero k then [] else uapi key (to_hex k) ∷ []

abbrev uapi_switch : (ℕ → ℕ) → String → Bytes → List Bytes
uapi_switch lower key v = if is_empty v then [] else uapi key (bool_to_uapi lower v) ∷ []

uapi_interface : (ℕ → ℕ) → Interface → List Bytes
uapi_interface lower i =
    uapi "private_key" (to_hex i.private_key)
    ∷ flatten (
        uapi_number "listen_port" i.listen_port
        ∷ uapi_number "jc" i.junk_packet_count
        ∷ uapi_number "jmin" i.junk_packet_min_size
        ∷ uapi_number "jmax" i.junk_packet_max_size
        ∷ uapi_number "s1" i.init_packet_junk_size
        ∷ uapi_number "s2" i.response_packet_junk_size
        ∷ uapi_number "s3" i.cookie_reply_packet_junk_size
        ∷ uapi_number "s4" i.transport_packet_junk_size
        ∷ uapi_text "h1" i.init_packet_magic_header
        ∷ uapi_text "h2" i.response_packet_magic_header
        ∷ uapi_text "h3" i.underload_packet_magic_header
        ∷ uapi_text "h4" i.transport_packet_magic_header
        ∷ uapi_text "i1" (packet (codes "i1") i.i_packets)
        ∷ uapi_text "i2" (packet (codes "i2") i.i_packets)
        ∷ uapi_text "i3" (packet (codes "i3") i.i_packets)
        ∷ uapi_text "i4" (packet (codes "i4") i.i_packets)
        ∷ uapi_text "i5" (packet (codes "i5") i.i_packets)
        ∷ uapi_key "header_protection_key" i.header_protection_key
        ∷ uapi_text "content_padding_addition" i.content_padding_addition
        ∷ uapi_text "rekey_after_time" i.rekey_after_time
        ∷ uapi_text "rekey_timeout" i.rekey_timeout
        ∷ uapi_text "reject_after_time" i.reject_after_time
        ∷ uapi_text "keepalive_timeout" i.keepalive_timeout
        ∷ uapi_text "max_handshake_attempts" i.max_handshake_attempts
        ∷ uapi_switch lower "random_trailers" i.random_trailers
        ∷ uapi_switch lower "disable_cookies" i.disable_cookies
        ∷ [])

-- the endpoint line of a peer, with the host resolved
uapi_endpoint : (Bytes → Option Bytes) → Endpoint → Result ConfError (List Bytes)
uapi_endpoint resolve e = if is_unset e then ok [] else do
  address ← of_option (num_error e.host) (resolve e.host)
  ok (uapi "endpoint" (endpoint_string (record { host = address; port = e.port })) ∷ [])

abbrev uapi_keepalive : Bytes → Bytes
uapi_keepalive v = if is_empty v || equal v (codes "off") then codes "0" else v

uapi_allowed : List IpCidr → List Bytes
uapi_allowed [] = []
uapi_allowed (a ∷ more) =
    codes "replace_allowed_ips=true" ∷ map (λ r. uapi "allowed_ip" (ip_cidr_string r)) (a ∷ more)

uapi_peer : (Bytes → Option Bytes) → Peer → Result ConfError (List Bytes)
unfolding uapi_endpoint uapi_allowed
uapi_peer resolve p = do
  at ← uapi_endpoint resolve p.endpoint
  ok (
      uapi "public_key" (to_hex p.public_key)
      ∷ (uapi_key "preshared_key" p.preshared_key
          ++ (at
              ++ (uapi "persistent_keepalive_interval" (uapi_keepalive p.persistent_keepalive)
                  ∷ uapi_allowed p.allowed_ips))))

uapi_peers : (Bytes → Option Bytes) → List Peer → Result ConfError (List Bytes)
unfolding uapi_peer
uapi_peers resolve [] = ok []
uapi_peers resolve (p ∷ ps) = do
  ls ← uapi_peer resolve p
  rest ← uapi_peers resolve ps
  ok (ls ++ rest)

unfoldable pub to_uapi : (ℕ → ℕ) → (Bytes → Option Bytes) → Config → Result ConfError Bytes
unfolding uapi_interface uapi_peers packet unlines equal
to_uapi lower resolve c = do
  map_err awg_error (validate_awg lower c)
  peers ← uapi_peers resolve c.peers
  let replace = if is_empty c.peers then [] else codes "replace_peers=true" ∷ []
  ok (unlines (uapi_interface lower c.interface ++ (replace ++ peers)))
