-- ===== src/Smart/Profile.antt =====
-- client/smart/smart.go: what BuildConfig takes from the profile: its address families, the servers
-- for names, and the endpoint of the engine.
pub mod Laws
use pinus_smart_awg.Common.{
  Bool, List, Option, Result, [], any, false, if◌then◌else◌, is_empty, length, ltb, map, map_err,
  none, not, ok, refuse_if, some, true, ℕ, ◌&&◌, ◌++◌, ◌==◌, ◌>>=◌, ◌>>◌, ◌||◌, ◌∷◌,
}
use pinus_smart_awg.Conf.{Config, Interface, Ip, IpCidr, Peer, is_unset, is_zero}
use pinus_smart_awg.Conf.Range.{parse_awg_bool}
use pinus_smart_awg.Conf.Validation.{AwgError, validate_awg}
use pinus_smart_awg.Conf.Values.{ip_cidr_string}
use pinus_smart_awg.Smart.Rules.{Families}
use pinus_smart_awg.Text.{Bytes, codes, equal}
use pinus_smart_awg.Text.Base64.{encode}
use pinus_smart_awg.Text.Case.{to_lower}
use pinus_smart_awg.Text.Ip.{ip_string, to_4}
use pinus_smart_awg.Text.Number.{itoa}

abbrev is_address : Option Bytes → Bool
is_address none = false
is_address (some q) = true

abbrev pub is_v4_address : Ip → Bool
is_v4_address ip = is_address (to_4 ip)

abbrev pub is_default : IpCidr → Bool
is_default a = a.cidr == 0

abbrev pub all_allowed : List Peer → List IpCidr
all_allowed [] = []
all_allowed (p ∷ ps) = p.allowed_ips ++ all_allowed ps

-- one pass over addresses, which sets a flag for each family
unfoldable pub note_families : (IpCidr → Bool) → List IpCidr → Families → Families
note_families wanted [] f = f
note_families wanted (a ∷ rest) f =
    let noted =
      if not (wanted a)
      then f
      else if is_v4_address a.ip
      then record f { ipv4 = true }
      else if length a.ip == 16
      then record f { ipv6 = true }
      else f in
    note_families wanted rest noted

abbrev pub no_families : Families
no_families = record { ipv4 = false; ipv6 = false }

unfoldable pub detect_profile_families : Config → Families
detect_profile_families config =
    let own = note_families (λ a. true) config.interface.addresses no_families in
    let routed = note_families is_default (all_allowed config.peers) no_families in
    record { ipv4 = own.ipv4 && routed.ipv4; ipv6 = own.ipv6 && routed.ipv6 }

unfoldable pub dns_strategy : Families → Bytes
dns_strategy f =
    if f.ipv4 && f.ipv6
    then codes "prefer_ipv4"
    else if f.ipv4
    then codes "ipv4_only"
    else codes "ipv6_only"

unfoldable pub accepts_address : Families → Ip → Bool
accepts_address f ip = if is_v4_address ip then f.ipv4 else length ip == 16 && f.ipv6

-- A server for names; the other fields are the same for all of them.
pub record DnsServer : Type 0 where
  pub tag : Bytes
  pub address : Bytes

-- `addServer`, where the addresses of the servers are those seen
unfoldable pub add_server : Bytes → Bytes → List DnsServer → List DnsServer
add_server tag address servers =
    if is_empty address || any (λ s. equal address s.address) servers
    then servers
    else servers ++ record { tag = tag; address = address } ∷ []

unfoldable pub add_profile_servers : Families → List Ip → List DnsServer → List DnsServer
add_profile_servers f [] servers = servers
add_profile_servers f (ip ∷ ips) servers = add_profile_servers f ips (
    if accepts_address f ip
    then add_server (codes "profile-dns-" ++ itoa (length servers)) (ip_string ip) servers
    else servers)

unfoldable pub dns_servers : Config → Families → List DnsServer
dns_servers config f =
    let own = add_profile_servers f config.interface.dns [] in
    let with_4 = if f.ipv4 then add_server (codes "cloudflare-ipv4") (codes "1.1.1.1") [] else [] in
    if not (is_empty own)
    then own
    else if f.ipv6
    then add_server (codes "cloudflare-ipv6") (codes "2606:4700:4700::1111") with_4
    else with_4

-- A peer of the endpoint.
pub record PeerObject : Type 0 where
  pub peer_address : Bytes
  pub peer_port : ℕ
  pub peer_key : Bytes
  pub peer_preshared : Option Bytes
  pub peer_allowed : List Bytes
  pub peer_keepalive : Bytes

pub data OptionValue : Type 0 where
  number_value : ℕ → OptionValue
  text_value : Bytes → OptionValue
  flag_value : Bool → OptionValue

-- The endpoint; `options` are the settings of AmneziaWG that are there, by key.
pub record AwgEndpoint : Type 0 where
  pub endpoint_key : Bytes
  pub endpoint_address : List Bytes
  pub endpoint_mtu : ℕ
  pub endpoint_peers : List PeerObject
  pub options : List (Bytes × OptionValue)

pub data EndpointError : Type 0 where
  not_valid : AwgError → EndpointError
  no_address : EndpointError
  no_peer : EndpointError
  no_endpoint : EndpointError

abbrev first_non_zero_mtu : Config → ℕ
first_non_zero_mtu config = if ltb 0 config.interface.mtu then config.interface.mtu else 1408

abbrev allowed_or_all : List Bytes → List Bytes
allowed_or_all [] = codes "0.0.0.0/0" ∷ codes "::/0" ∷ []
allowed_or_all (a ∷ rest) = a ∷ rest

unfoldable pub peer_object : Peer → Result EndpointError PeerObject
peer_object p = do
  refuse_if (is_unset p.endpoint) no_endpoint
  ok (record {
    peer_address = p.endpoint.host;
    peer_port = p.endpoint.port;
    peer_key = encode p.public_key;
    peer_preshared = if is_zero p.preshared_key then none else some (encode p.preshared_key);
    peer_allowed = allowed_or_all (map ip_cidr_string p.allowed_ips);
    peer_keepalive = p.persistent_keepalive;
  })

unfoldable pub peer_objects : List Peer → Result EndpointError (List PeerObject)
peer_objects [] = ok []
peer_objects (p ∷ ps) =
    let rest = peer_objects ps in peer_object p >>= λ o. rest >>= λ os. ok (o ∷ os)

abbrev add_uint16 : Bytes → ℕ → List (Bytes × OptionValue)
add_uint16 key value = if ltb 0 value then (key, number_value value) ∷ [] else []

abbrev add_string : Bytes → Bytes → List (Bytes × OptionValue)
add_string key value = if is_empty value then [] else (key, text_value value) ∷ []

abbrev flag_of : Option Bool → Bool
flag_of (some b) = b
flag_of none = false

abbrev add_flag : (ℕ → ℕ) → Bytes → Bytes → List (Bytes × OptionValue)
add_flag lower key value =
    if is_empty value then [] else (key, flag_value (flag_of (parse_awg_bool lower value))) ∷ []

abbrev add_i_packets : (ℕ → ℕ) → List (Bytes × Bytes) → List (Bytes × OptionValue)
add_i_packets lower [] = []
add_i_packets lower (p ∷ ps) = add_string (to_lower lower p.0) p.1 ++ add_i_packets lower ps

unfoldable pub awg_options : (ℕ → ℕ) → Interface → List (Bytes × OptionValue)
awg_options lower i =
    add_uint16 (codes "jc") i.junk_packet_count
    ++ (add_uint16 (codes "jmin") i.junk_packet_min_size
        ++ (add_uint16 (codes "jmax") i.junk_packet_max_size
            ++ (add_uint16 (codes "s1") i.init_packet_junk_size
                ++ (add_uint16 (codes "s2") i.response_packet_junk_size
                    ++ (add_uint16 (codes "s3") i.cookie_reply_packet_junk_size
                        ++ (add_uint16 (codes "s4") i.transport_packet_junk_size
                            ++ (add_string (codes "h1") i.init_packet_magic_header
                                ++ (add_string (codes "h2") i.response_packet_magic_header
                                    ++ (add_string (codes "h3") i.underload_packet_magic_header
                                        ++ (add_string (codes "h4") i.transport_packet_magic_header
                                            ++ ((if is_zero i.header_protection_key
                                                  then []
                                                  else (
                                                    codes "header_protection_key",
                                                    text_value (encode i.header_protection_key),
                                                  )
                                                    ∷ [])
                                                ++ (add_string (codes "content_padding_addition")
                                                      i.content_padding_addition
                                                    ++ (add_string (codes "rekey_after_time")
                                                          i.rekey_after_time
                                                        ++ (add_string (codes "rekey_timeout")
                                                            i.rekey_timeout
                                                            ++ (add_string
                                                            (codes "reject_after_time")
                                                            i.reject_after_time
                                                            ++ (add_string
                                                            (codes "keepalive_timeout")
                                                            i.keepalive_timeout
                                                            ++ (add_string
                                                            (codes "max_handshake_attempts")
                                                            i.max_handshake_attempts
                                                            ++ (add_flag lower
                                                            (codes "random_trailers")
                                                            i.random_trailers
                                                            ++ (add_flag lower
                                                            (codes "disable_cookies")
                                                            i.disable_cookies
                                                            ++ add_i_packets lower
                                                            i.i_packets)))))))))))))))))))

unfoldable pub awg_endpoint : (ℕ → ℕ) → Config → Result EndpointError AwgEndpoint
awg_endpoint lower config = do
  map_err not_valid (validate_awg lower config)
  refuse_if (is_empty config.interface.addresses) no_address
  refuse_if (is_empty config.peers) no_peer
  peers ← peer_objects config.peers
  ok (record {
    endpoint_key = encode config.interface.private_key;
    endpoint_address = map ip_cidr_string config.interface.addresses;
    endpoint_mtu = first_non_zero_mtu config;
    endpoint_peers = peers;
    options = awg_options lower config.interface;
  })
