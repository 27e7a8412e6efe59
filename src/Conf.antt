-- ===== src/Conf.antt =====
-- The data of core/conf/config.go: keys, addresses, endpoints, peers, the interface and the
-- configuration. A `net.IP` is its 4 or 16 bytes, a `Key` its 32 bytes; `IPackets` is an
-- association list; `uint16` fields are numbers below 65536, which the parsers ensure.
pub mod Range
pub mod Cps
pub mod Validation
pub mod Name
pub mod Values
pub mod QuickKeys
pub mod Quick
pub mod Uapi
pub mod Writer
pub mod Network
use pinus_smart_awg.Common.{Bool, List, [], false, is_empty, replicate, ℕ}
use pinus_smart_awg.Text.{Bytes, equal}

abbrev pub Key : Type 0
Key = Bytes

abbrev pub Ip : Type 0
Ip = Bytes

pub record IpCidr : Type 0 where
  pub ip : Ip
  pub cidr : ℕ

pub record Endpoint : Type 0 where
  pub host : Bytes
  pub port : ℕ

pub record Peer : Type 0 where
  pub public_key : Key
  pub preshared_key : Key
  pub allowed_ips : List IpCidr
  pub endpoint : Endpoint
  pub persistent_keepalive : Bytes
  pub rx_bytes : ℕ
  pub tx_bytes : ℕ
  pub last_handshake_time : ℕ

pub record Interface : Type 0 where
  pub private_key : Key
  pub addresses : List IpCidr
  pub listen_port : ℕ
  pub mtu : ℕ
  pub dns : List Ip
  pub dns_search : List Bytes
  pub pre_up : Bytes
  pub post_up : Bytes
  pub pre_down : Bytes
  pub post_down : Bytes
  pub table_off : Bool
  pub junk_packet_count : ℕ
  pub junk_packet_min_size : ℕ
  pub junk_packet_max_size : ℕ
  pub init_packet_junk_size : ℕ
  pub response_packet_junk_size : ℕ
  pub cookie_reply_packet_junk_size : ℕ
  pub transport_packet_junk_size : ℕ
  pub init_packet_magic_header : Bytes
  pub response_packet_magic_header : Bytes
  pub underload_packet_magic_header : Bytes
  pub transport_packet_magic_header : Bytes
  pub header_protection_key : Key
  pub content_padding_addition : Bytes
  pub rekey_after_time : Bytes
  pub rekey_timeout : Bytes
  pub reject_after_time : Bytes
  pub keepalive_timeout : Bytes
  pub max_handshake_attempts : Bytes
  pub random_trailers : Bytes
  pub disable_cookies : Bytes
  pub i_packets : List (Bytes × Bytes)

pub record Config : Type 0 where
  pub name : Bytes
  pub interface : Interface
  pub peers : List Peer

abbrev pub key_length : ℕ
key_length = 32

-- the zero value of a `Key`
abbrev pub zero_key : Key
zero_key = replicate key_length 0

-- `IsZero`
unfoldable pub is_zero : Key → Bool
unfolding equal
is_zero k = equal k zero_key

abbrev pub zero_endpoint : Endpoint
zero_endpoint = record { host = []; port = 0 }

-- `Endpoint.IsEmpty`
abbrev pub is_unset : Endpoint → Bool
is_unset e = is_empty e.host

-- `Peer{}`
abbrev pub zero_peer : Peer
zero_peer = record {
  public_key = zero_key;
  preshared_key = zero_key;
  allowed_ips = [];
  endpoint = zero_endpoint;
  persistent_keepalive = [];
  rx_bytes = 0;
  tx_bytes = 0;
  last_handshake_time = 0;
}

-- `Interface{}`
abbrev pub zero_interface : Interface
zero_interface = record {
  private_key = zero_key;
  addresses = [];
  listen_port = 0;
  mtu = 0;
  dns = [];
  dns_search = [];
  pre_up = [];
  post_up = [];
  pre_down = [];
  post_down = [];
  table_off = false;
  junk_packet_count = 0;
  junk_packet_min_size = 0;
  junk_packet_max_size = 0;
  init_packet_junk_size = 0;
  response_packet_junk_size = 0;
  cookie_reply_packet_junk_size = 0;
  transport_packet_junk_size = 0;
  init_packet_magic_header = [];
  response_packet_magic_header = [];
  underload_packet_magic_header = [];
  transport_packet_magic_header = [];
  header_protection_key = zero_key;
  content_padding_addition = [];
  rekey_after_time = [];
  rekey_timeout = [];
  reject_after_time = [];
  keepalive_timeout = [];
  max_handshake_attempts = [];
  random_trailers = [];
  disable_cookies = [];
  i_packets = [];
}
