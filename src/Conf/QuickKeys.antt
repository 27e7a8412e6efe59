-- ===== src/Conf/QuickKeys.antt =====
-- The `switch key` of `FromWgQuick` in core/conf/parser.go: the keys of both sections, and what a
-- line with such a key does to the interface or to the peer.
pub mod Bounds
use pinus_smart_awg.Common.{
  List, Option, Result, String, [], err, false, if◌then◌else◌, is_empty, map_err, none, ok, some,
  true, ◌++◌, ◌>>=◌, ◌>>◌, ◌∷◌,
}
use pinus_smart_awg.Conf.{Interface, Ip, IpCidr, Key, Peer}
use pinus_smart_awg.Conf.Validation.{parse_persistent_keepalive}
use pinus_smart_awg.Conf.Values.{
  ConfError, bad_header_key, keepalive_error, parse_endpoint, parse_ip_cidr, parse_key_base64,
  parse_mtu, parse_port, parse_table_off, parse_uint16, split_list,
}
use pinus_smart_awg.Text.{Bytes, codes, equal}
use pinus_smart_awg.Text.Ip.{parse_ip}

pub data InterfaceKey : Type 0 where
  private_key listen_port jc jmin jmax s1 s2 s3 s4 h1 h2 h3 h4 : InterfaceKey
  i_packet : Bytes → InterfaceKey
  header_protection_key content_padding_addition rekey_after_time rekey_timeout : InterfaceKey
  reject_after_time keepalive_timeout max_handshake_attempts : InterfaceKey
  random_trailers disable_cookies mtu address dns : InterfaceKey
  pre_up post_up pre_down post_down table : InterfaceKey

pub data PeerKey : Type 0 where
  public_key preshared_key allowed_ips persistent_keepalive endpoint : PeerKey

abbrev choose {ℓ} : {A : Type ℓ} → Bytes → List (String × A) → Option A
choose s [] = none
choose s ((t, a) ∷ rest) = elim (equal s (codes t)) [ true ↦ some a | false ↦ choose s rest ]

abbrev interface_keys : List (String × InterfaceKey)
interface_keys =
    ("privatekey", private_key)
    ∷ ("listenport", listen_port)
    ∷ ("jc", jc)
    ∷ ("jmin", jmin)
    ∷ ("jmax", jmax)
    ∷ ("s1", s1)
    ∷ ("s2", s2)
    ∷ ("s3", s3)
    ∷ ("s4", s4)
    ∷ ("h1", h1)
    ∷ ("h2", h2)
    ∷ ("h3", h3)
    ∷ ("h4", h4)
    ∷ ("i1", i_packet (codes "i1"))
    ∷ ("i2", i_packet (codes "i2"))
    ∷ ("i3", i_packet (codes "i3"))
    ∷ ("i4", i_packet (codes "i4"))
    ∷ ("i5", i_packet (codes "i5"))
    ∷ ("headerprotectionkey", header_protection_key)
    ∷ ("contentpaddingaddition", content_padding_addition)
    ∷ ("rekeyaftertime", rekey_after_time)
    ∷ ("rekeytimeout", rekey_timeout)
    ∷ ("rejectaftertime", reject_after_time)
    ∷ ("keepalivetimeout", keepalive_timeout)
    ∷ ("maxhandshakeattempts", max_handshake_attempts)
    ∷ ("randomtrailers", random_trailers)
    ∷ ("disablecookies", disable_cookies)
    ∷ ("mtu", mtu)
    ∷ ("address", address)
    ∷ ("dns", dns)
    ∷ ("preup", pre_up)
    ∷ ("postup", post_up)
    ∷ ("predown", pre_down)
    ∷ ("postdown", post_down)
    ∷ ("table", table)
    ∷ []

abbrev peer_keys : List (String × PeerKey)
peer_keys =
    ("publickey", public_key)
    ∷ ("presharedkey", preshared_key)
    ∷ ("allowedips", allowed_ips)
    ∷ ("persistentkeepalive", persistent_keepalive)
    ∷ ("endpoint", endpoint)
    ∷ []

-- the `case` that a key selects, `none` for `default`
unfoldable pub interface_key : Bytes → Option InterfaceKey
unfolding equal
interface_key s = choose s interface_keys

unfoldable pub peer_key : Bytes → Option PeerKey
unfolding equal
peer_key s = choose s peer_keys

-- `m[key] = val`
pub put : Bytes → Bytes → List (Bytes × Bytes) → List (Bytes × Bytes)
unfolding equal
put k v [] = (k, v) ∷ []
put k v ((j, w) ∷ m) = let rest = put k v m in if equal j k then (k, v) ∷ m else (j, w) ∷ rest

-- the loop over the addresses of a list
pub parse_ip_cidrs : List Bytes → Result ConfError (List IpCidr)
parse_ip_cidrs [] = ok []
parse_ip_cidrs (s ∷ ss) = do a ← parse_ip_cidr s; rest ← parse_ip_cidrs ss; ok (a ∷ rest)

-- one round of the loop of `dns`: what is no address is a search domain
abbrev pub add_server : Option Ip → Bytes → Interface → Interface
add_server none s i = record i { dns_search = i.dns_search ++ s ∷ [] }
add_server (some ip) s i = record i { dns = i.dns ++ ip ∷ [] }

pub add_dns : List Bytes → Interface → Interface
add_dns [] i = i
add_dns (s ∷ ss) i = add_dns ss (add_server (parse_ip s) s i)

abbrev pub hidden_key : Result ConfError Key → Result ConfError Key
hidden_key (ok k) = ok k
hidden_key (err e) = err bad_header_key

unfoldable pub set_interface : InterfaceKey → Bytes → Interface → Result ConfError Interface
unfolding put parse_ip_cidrs add_dns
set_interface private_key v i = do k ← parse_key_base64 v; ok (record i { private_key = k })
set_interface listen_port v i = do n ← parse_port v; ok (record i { listen_port = n })
set_interface jc v i = do n ← parse_uint16 v; ok (record i { junk_packet_count = n })
set_interface jmin v i = do n ← parse_uint16 v; ok (record i { junk_packet_min_size = n })
set_interface jmax v i = do n ← parse_uint16 v; ok (record i { junk_packet_max_size = n })
set_interface s1 v i = do n ← parse_uint16 v; ok (record i { init_packet_junk_size = n })
set_interface s2 v i = do n ← parse_uint16 v; ok (record i { response_packet_junk_size = n })
set_interface s3 v i = do n ← parse_uint16 v; ok (record i { cookie_reply_packet_junk_size = n })
set_interface s4 v i = do n ← parse_uint16 v; ok (record i { transport_packet_junk_size = n })
set_interface h1 v i = ok (record i { init_packet_magic_header = v })
set_interface h2 v i = ok (record i { response_packet_magic_header = v })
set_interface h3 v i = ok (record i { underload_packet_magic_header = v })
set_interface h4 v i = ok (record i { transport_packet_magic_header = v })
set_interface (i_packet k) v i =
    ok (if is_empty v then i else record i { i_packets = put k v i.i_packets })
set_interface header_protection_key v i = do
  k ← hidden_key (parse_key_base64 v)
  ok (record i { header_protection_key = k })
set_interface content_padding_addition v i = ok (record i { content_padding_addition = v })
set_interface rekey_after_time v i = ok (record i { rekey_after_time = v })
set_interface rekey_timeout v i = ok (record i { rekey_timeout = v })
set_interface reject_after_time v i = ok (record i { reject_after_time = v })
set_interface keepalive_timeout v i = ok (record i { keepalive_timeout = v })
set_interface max_handshake_attempts v i = ok (record i { max_handshake_attempts = v })
set_interface random_trailers v i = ok (record i { random_trailers = v })
set_interface disable_cookies v i = ok (record i { disable_cookies = v })
set_interface mtu v i = do n ← parse_mtu v; ok (record i { mtu = n })
set_interface address v i = do
  parts ← split_list v
  found ← parse_ip_cidrs parts
  ok (record i { addresses = i.addresses ++ found })
set_interface dns v i = do parts ← split_list v; ok (add_dns parts i)
set_interface pre_up v i = ok (record i { pre_up = v })
set_interface post_up v i = ok (record i { post_up = v })
set_interface pre_down v i = ok (record i { pre_down = v })
set_interface post_down v i = ok (record i { post_down = v })
set_interface table v i = do b ← parse_table_off v; ok (record i { table_off = b })

unfoldable pub set_peer : PeerKey → Bytes → Peer → Result ConfError Peer
unfolding parse_ip_cidrs
set_peer public_key v p = do k ← parse_key_base64 v; ok (record p { public_key = k })
set_peer preshared_key v p = do k ← parse_key_base64 v; ok (record p { preshared_key = k })
set_peer allowed_ips v p = do
  parts ← split_list v
  found ← parse_ip_cidrs parts
  ok (record p { allowed_ips = p.allowed_ips ++ found })
set_peer persistent_keepalive v p = do
  k ← map_err keepalive_error (parse_persistent_keepalive v)
  ok (record p { persistent_keepalive = k })
set_peer endpoint v p = do e ← parse_endpoint v; ok (record p { endpoint = e })
