-- ===== src/Conf/Uapi.antt =====
-- `FromUAPI` of core/conf/parser.go: the state of a running device read over its configuration.
-- Go adds packets to the map of the configuration that is passed in; here a new one is returned.
pub mod Laws
use pinus_smart_awg.Common.{
  List, Option, Result, String, [], err, false, if◌then◌else◌, is_empty, map_err, none, of_option,
  ok, refuse_if, some, true, ℕ, ◌%◌, ◌*◌, ◌++◌, ◌+◌, ◌>>=◌, ◌>>◌, ◌^◌, ◌∷◌,
}
use pinus_smart_awg.Conf.{Config, Interface, Peer, zero_key, zero_peer}
use pinus_smart_awg.Conf.QuickKeys.{hidden_key, put}
use pinus_smart_awg.Conf.Validation.{parse_persistent_keepalive}
use pinus_smart_awg.Conf.Values.{
  ConfError, bad_interface_key, bad_peer_key, bad_protocol, config_error, end_of_input, fails,
  keepalive_error, no_equals, no_value, parse_bytes_or_stamp, parse_endpoint, parse_error,
  parse_ip_cidr, parse_key_hex, parse_port, parse_uint16,
}
use pinus_smart_awg.Text.{Bytes, codes, equal}
use pinus_smart_awg.Text.Search.{cut, split}

pub data UapiInterfaceKey : Type 0 where
  private_key listen_port jc jmin jmax s1 s2 s3 s4 h1 h2 h3 h4 : UapiInterfaceKey
  i_packet : Bytes → UapiInterfaceKey
  header_protection_key content_padding_addition rekey_after_time rekey_timeout : UapiInterfaceKey
  reject_after_time keepalive_timeout max_handshake_attempts : UapiInterfaceKey
  random_trailers disable_cookies fwmark : UapiInterfaceKey

pub data UapiPeerKey : Type 0 where
  public_key preshared_key protocol_version allowed_ip persistent_keepalive_interval : UapiPeerKey
  endpoint tx_bytes rx_bytes last_handshake_time_sec last_handshake_time_nsec : UapiPeerKey

abbrev select {ℓ} : {A : Type ℓ} → Bytes → List (String × A) → Option A
select s [] = none
select s ((t, a) ∷ rest) = elim (equal s (codes t)) [ true ↦ some a | false ↦ select s rest ]

abbrev uapi_interface_keys : List (String × UapiInterfaceKey)
uapi_interface_keys =
    ("private_key", private_key)
    ∷ ("listen_port", listen_port)
    ∷ ("jc", jc)
    ∷ ("jmin", jmin)
    ∷ ("jmax", jmax)
    ∷ ("s1", s1)
    ∷ ("s2", s2)
    ∷ ("s3", s3)
    ∷ ("s4", s4)
    ∷ ("h1", h1)
    ∷ ("h2", h2)
    ∷ ("h3", h3)
    ∷ ("h4", h4)
    ∷ ("i1", i_packet (codes "i1"))
    ∷ ("i2", i_packet (codes "i2"))
    ∷ ("i3", i_packet (codes "i3"))
    ∷ ("i4", i_packet (codes "i4"))
    ∷ ("i5", i_packet (codes "i5"))
    ∷ ("header_protection_key", header_protection_key)
    ∷ ("content_padding_addition", content_padding_addition)
    ∷ ("rekey_after_time", rekey_after_time)
    ∷ ("rekey_timeout", rekey_timeout)
    ∷ ("reject_after_time", reject_after_time)
    ∷ ("keepalive_timeout", keepalive_timeout)
    ∷ ("max_handshake_attempts", max_handshake_attempts)
    ∷ ("random_trailers", random_trailers)
    ∷ ("disable_cookies", disable_cookies)
    ∷ ("fwmark", fwmark)
    ∷ []

abbrev uapi_peer_keys : List (String × UapiPeerKey)
uapi_peer_keys =
    ("public_key", public_key)
    ∷ ("preshared_key", preshared_key)
    ∷ ("protocol_version", protocol_version)
    ∷ ("allowed_ip", allowed_ip)
    ∷ ("persistent_keepalive_interval", persistent_keepalive_interval)
    ∷ ("endpoint", endpoint)
    ∷ ("tx_bytes", tx_bytes)
    ∷ ("rx_bytes", rx_bytes)
    ∷ ("last_handshake_time_sec", last_handshake_time_sec)
    ∷ ("last_handshake_time_nsec", last_handshake_time_nsec)
    ∷ []

unfoldable pub set_uapi_interface :
    UapiInterfaceKey → Bytes → Interface → Result ConfError Interface
set_uapi_interface private_key v i = do k ← parse_key_hex v; ok (record i { private_key = k })
set_uapi_interface listen_port v i = do n ← parse_port v; ok (record i { listen_port = n })
set_uapi_interface jc v i = do n ← parse_uint16 v; ok (record i { junk_packet_count = n })
set_uapi_interface jmin v i = do n ← parse_uint16 v; ok (record i { junk_packet_min_size = n })
set_uapi_interface jmax v i = do n ← parse_uint16 v; ok (record i { junk_packet_max_size = n })
set_uapi_interface s1 v i = do n ← parse_uint16 v; ok (record i { init_packet_junk_size = n })
set_uapi_interface s2 v i = do n ← parse_uint16 v; ok (record i { response_packet_junk_size = n })
set_uapi_interface s3 v i = do
  n ← parse_uint16 v
  ok (record i { cookie_reply_packet_junk_size = n })
set_uapi_interface s4 v i = do n ← parse_uint16 v; ok (record i { transport_packet_junk_size = n })
set_uapi_interface h1 v i = ok (record i { init_packet_magic_header = v })
set_uapi_interface h2 v i = ok (record i { response_packet_magic_header = v })
set_uapi_interface h3 v i = ok (record i { underload_packet_magic_header = v })
set_uapi_interface h4 v i = ok (record i { transport_packet_magic_header = v })
set_uapi_interface (i_packet k) v i = ok (record i { i_packets = put k v i.i_packets })
set_uapi_interface header_protection_key v i = do
  k ← hidden_key (parse_key_hex v)
  ok (record i { header_protection_key = k })
set_uapi_interface content_padding_addition v i = ok (record i { content_padding_addition = v })
set_uapi_interface rekey_after_time v i = ok (record i { rekey_after_time = v })
set_uapi_interface rekey_timeout v i = ok (record i { rekey_timeout = v })
set_uapi_interface reject_after_time v i = ok (record i { reject_after_time = v })
set_uapi_interface keepalive_timeout v i = ok (record i { keepalive_timeout = v })
set_uapi_interface max_handshake_attempts v i = ok (record i { max_handshake_attempts = v })
set_uapi_interface random_trailers v i = ok (record i { random_trailers = v })
set_uapi_interface disable_cookies v i = ok (record i { disable_cookies = v })
set_uapi_interface fwmark v i = ok i

-- `LastHandshakeTime += ...` on 64 bits
abbrev add_time : ℕ → ℕ → ℕ
add_time old t = (old + t) % 2 ^ 64

set_uapi_peer : UapiPeerKey → Bytes → Peer → Result ConfError Peer
set_uapi_peer public_key v p = do k ← parse_key_hex v; ok (record p { public_key = k })
set_uapi_peer preshared_key v p = do k ← parse_key_hex v; ok (record p { preshared_key = k })
set_uapi_peer protocol_version v p = if equal v (codes "1") then ok p else fails bad_protocol v
set_uapi_peer allowed_ip v p = do
  a ← parse_ip_cidr v
  ok (record p { allowed_ips = p.allowed_ips ++ a ∷ [] })
set_uapi_peer persistent_keepalive_interval v p = do
  k ← map_err keepalive_error (parse_persistent_keepalive v)
  ok (record p { persistent_keepalive = k })
set_uapi_peer endpoint v p = do e ← parse_endpoint v; ok (record p { endpoint = e })
set_uapi_peer tx_bytes v p = do n ← parse_bytes_or_stamp v; ok (record p { tx_bytes = n })
set_uapi_peer rx_bytes v p = do n ← parse_bytes_or_stamp v; ok (record p { rx_bytes = n })
set_uapi_peer last_handshake_time_sec v p = do
  t ← parse_bytes_or_stamp v
  ok (record p { last_handshake_time = add_time p.last_handshake_time (t * 1000000000) })
set_uapi_peer last_handshake_time_nsec v p = do
  t ← parse_bytes_or_stamp v
  ok (record p { last_handshake_time = add_time p.last_handshake_time t })

-- `parserState` with `peer`: a peer is open exactly in the section of one.
pub record UapiState : Type 0 where
  pub open_peer : Option Peer
  pub interface : Interface
  pub peers : List Peer

-- `maybeAddPeer`
abbrev pub add_open : Option Peer → List Peer → List Peer
add_open none peers = peers
add_open (some p) peers = peers ++ p ∷ []

-- the second `switch key`, in the section of the interface or of a peer
unfoldable pub set_uapi : Option Peer → Bytes → Bytes → UapiState → Result ConfError UapiState
unfolding set_uapi_interface set_uapi_peer
set_uapi none key v s = do
  k ← of_option (parse_error bad_interface_key key) (select key uapi_interface_keys)
  i ← set_uapi_interface k v s.interface
  ok (record s { interface = i })
set_uapi (some p) key v s = do
  k ← of_option (parse_error bad_peer_key key) (select key uapi_peer_keys)
  q ← set_uapi_peer k v p
  ok (record s { open_peer = some q })

-- a line that is not empty
unfoldable pub uapi_line : Bytes → UapiState → Result ConfError UapiState
unfolding set_uapi cut equal
uapi_line line s = do
  (key, v) ← of_option (parse_error no_equals line) (cut b'=' line)
  refuse_if (is_empty v) (parse_error no_value line)
  if equal key (codes "public_key")
      then set_uapi (some zero_peer) key v
          (record s { open_peer = some zero_peer; peers = add_open s.open_peer s.peers })
      else if equal key (codes "errno")
      then (if equal v (codes "0") then ok s else fails config_error v)
      else set_uapi s.open_peer key v s

-- The loop ends at an empty line; a last line without its newline is the end of the input.
unfoldable pub uapi_lines : List Bytes → UapiState → Result ConfError UapiState
uapi_lines [] s = err end_of_input
uapi_lines (l ∷ []) s = err end_of_input
uapi_lines (l ∷ m ∷ ls) s =
    let rest = uapi_lines (m ∷ ls) in if is_empty l then ok s else do t ← uapi_line l s; rest t

-- What is kept of the configuration: all but the private key and the port.
abbrev pub uapi_start : Config → UapiState
uapi_start c = record {
  open_peer = none;
  interface = record c.interface { private_key = zero_key; listen_port = 0 };
  peers = [];
}

unfoldable pub from_uapi : Bytes → Config → Result ConfError Config
unfolding uapi_lines uapi_line split
from_uapi text existing = do
  s ← uapi_lines (split b'\n' text) (uapi_start existing)
  ok (record {
    name = existing.name;
    interface = s.interface;
    peers = add_open s.open_peer s.peers;
  })
