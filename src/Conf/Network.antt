-- ===== src/Conf/Network.antt =====
-- core/conf/config.go: operations on the networks of configurations, and Redact. A slice of bytes
-- is shared by all copies of an `IPCidr`, so that `MaskSelf` on the variable of a loop changes the
-- configuration; the changed configurations are results here.
pub mod Laws
pub mod Distinct
use pinus_smart_awg.Common.{
  Bool, List, Option, [], any, drop, false, if◌then◌else◌, length, ltb, map, none, some, take, true,
  ℕ, ◌%◌, ◌&&◌, ◌*◌, ◌++◌, ◌-◌, ◌/◌, ◌==◌, ◌^◌, ◌∷◌,
}
use pinus_smart_awg.Conf.{Config, IpCidr, Peer, zero_key}
use pinus_smart_awg.Conf.Uapi.{header_protection_key, preshared_key, private_key, public_key}
use pinus_smart_awg.Conf.Values.{ip_cidr_string}
use pinus_smart_awg.Text.{Bytes, equal, one_of}
use pinus_smart_awg.Text.Ip.{ip_string, to_4}

-- `Bits`
abbrev pub bits_of : Option Bytes → ℕ
bits_of none = 128
bits_of (some q) = 32

-- `&=` with the bytes of `net.CIDRMask`: of each byte the leading bits that the mask still covers
-- stay, and the others become 0.
unfoldable pub mask_bytes : ℕ → Bytes → Bytes
mask_bytes ones [] = []
mask_bytes ones (b ∷ bs) =
    (if ltb ones 8 then b - b % 2 ^ (8 - ones) else b) ∷ mask_bytes (ones - 8) bs

-- `MaskSelf` on the first `Bits / 8` bytes, for a prefix of at most `Bits`, which is what the parser
-- lets through; with a longer one the mask of Go is nil and its index panics.
unfoldable pub mask_self : IpCidr → IpCidr
mask_self r =
    let n = bits_of (to_4 r.ip) / 8 in
    record r { ip = mask_bytes r.cidr (take n r.ip) ++ drop n r.ip }

-- `hashableIPCidr`
abbrev pub HashableIpCidr : Type 0
HashableIpCidr = Bytes × ℕ

abbrev pub same_route : HashableIpCidr → HashableIpCidr → Bool
same_route a b = equal a.0 b.0 && a.1 == b.1

abbrev pub host_route : IpCidr → HashableIpCidr
host_route a = (a.ip, length a.ip * 8 % 256)

unfoldable pub masked_route : IpCidr → HashableIpCidr
masked_route a = ((mask_self a).ip, a.cidr)

unfoldable pub address_routes : List IpCidr → List HashableIpCidr
address_routes [] = []
address_routes (a ∷ rest) = host_route a ∷ masked_route a ∷ address_routes rest

unfoldable pub allowed_routes : List Peer → List HashableIpCidr
allowed_routes [] = []
allowed_routes (p ∷ ps) = map masked_route p.allowed_ips ++ allowed_routes ps

-- the routes that IntersectsWith collects from the first configuration
unfoldable pub all_routes : Config → List HashableIpCidr
all_routes c = address_routes c.interface.addresses ++ allowed_routes c.peers

abbrev mask_peer : Peer → Peer
mask_peer p = record p { allowed_ips = map mask_self p.allowed_ips }

-- the first configuration after the collection
unfoldable pub masked_config : Config → Config
masked_config c = record c {
  interface = record c.interface { addresses = map mask_self c.interface.addresses };
  peers = map mask_peer c.peers;
}

abbrev pub has_route : List HashableIpCidr → HashableIpCidr → Bool
has_route routes r = any (same_route r) routes

-- The loops over the second configuration stop at the first route that is there; the networks come
-- back as they are then.
unfoldable pub check_addresses : List HashableIpCidr → List IpCidr → Bool × List IpCidr
check_addresses routes [] = (false, [])
check_addresses routes (a ∷ rest) =
    let later = check_addresses routes rest in
    if has_route routes (host_route a)
    then (true, a ∷ rest)
    else if has_route routes (masked_route a)
    then (true, mask_self a ∷ rest)
    else (later.0, mask_self a ∷ later.1)

unfoldable pub check_allowed : List HashableIpCidr → List IpCidr → Bool × List IpCidr
check_allowed routes [] = (false, [])
check_allowed routes (a ∷ rest) =
    let later = check_allowed routes rest in
    if has_route routes (masked_route a)
    then (true, mask_self a ∷ rest)
    else (later.0, mask_self a ∷ later.1)

unfoldable pub check_peers : List HashableIpCidr → List Peer → Bool × List Peer
check_peers routes [] = (false, [])
check_peers routes (p ∷ ps) =
    let here = check_allowed routes p.allowed_ips in
    let changed = record p { allowed_ips = here.1 } in
    let later = check_peers routes ps in
    if here.0 then (true, changed ∷ ps) else (later.0, changed ∷ later.1)

-- the answer and the two configurations after the call
unfoldable pub intersects_with : Config → Config → Bool × Config × Config
intersects_with c other =
    let routes = all_routes c in
    let addresses = check_addresses routes other.interface.addresses in
    let peers = check_peers routes other.peers in
    let half = record other { interface = record other.interface { addresses = addresses.1 } } in
    if addresses.0
    then (true, masked_config c, half)
    else (peers.0, masked_config c, record half { peers = peers.1 })

-- The entries whose text has not been seen yet, in order.
module _ {A : Type 0} where
  unfoldable pub unseen : (A → Bytes) → List Bytes → List A → List A
  unseen text seen [] = []
  unseen text seen (a ∷ rest) = elim (one_of (text a) seen) [
    | true ↦ unseen text seen rest
    | false ↦ a ∷ unseen text (text a ∷ seen) rest
  ]

unfoldable pub deduplicate_network_entries : Config → Config
deduplicate_network_entries c = record c {
  interface = record c.interface {
    addresses = unseen ip_cidr_string [] c.interface.addresses;
    dns = unseen ip_string [] c.interface.dns;
  };
  peers =
      map (λ (p : Peer). record p { allowed_ips = unseen ip_cidr_string [] p.allowed_ips }) c.peers;
}

abbrev redact_peer : Peer → Peer
redact_peer p = record p { public_key = zero_key; preshared_key = zero_key }

unfoldable pub redact : Config → Config
redact c = record c {
  interface = record c.interface { private_key = zero_key; header_protection_key = zero_key };
  peers = map redact_peer c.peers;
}
