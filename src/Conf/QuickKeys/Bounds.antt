-- ===== src/Conf/QuickKeys/Bounds.antt =====
-- What a setting keeps of an interface and of a peer: sizes of keys, ranges of numbers, prefixes
-- that fit their addresses.
use pinus_smart_awg.Common.{
  All, All-append, Ensures, Ensures-any, Ensures-bind, IfSome, List, Option, Result, [], err,
  is_empty, length, map_err, none, of_option, ok, refuse_if, some, ℕ, ◌++◌, ◌>>=◌, ◌∷◌, ◌≡◌, ◌≤◌,
}
use pinus_smart_awg.Conf.{Endpoint, Interface, Ip, Key, Peer, key_length}
use pinus_smart_awg.Conf.QuickKeys.{
  InterfaceKey, PeerKey, add_dns, add_server, hidden_key, parse_ip_cidrs, set_interface, set_peer,
}
use pinus_smart_awg.Conf.Validation.{parse_persistent_keepalive}
use pinus_smart_awg.Conf.Values.{
  ConfError, endpoint_host, invalid_host, keepalive_error, missing_port, parse_endpoint,
  parse_error, parse_ip_cidr, parse_key_base64, parse_mtu, parse_port, parse_table_off,
  parse_uint16, split_list,
}
use pinus_smart_awg.Conf.Values.Bounds.{
  IsPrefix, parse_ip_cidr-IsPrefix, parse_key_base64-length, parse_mtu_bounds, parse_port_bounds,
  parse_uint16_bounds,
}
use pinus_smart_awg.Text.{Bytes}
use pinus_smart_awg.Text.Ip.{parse_ip}
use pinus_smart_awg.Text.Ip.Sizes.{length-parse_ip}
use pinus_smart_awg.Text.Search.{cut_last}

pub record IsInterface (i : Interface) : Type 0 where
  pub key_sized : length i.private_key ≡ key_length
  pub header_key_sized : length i.header_protection_key ≡ key_length
  pub port_fits : i.listen_port ≤ 65535
  pub mtu_fits : i.mtu ≤ 65535
  pub mtu_usable : 576 ≤ i.mtu
  pub jc_fits : i.junk_packet_count ≤ 65535
  pub jmin_fits : i.junk_packet_min_size ≤ 65535
  pub jmax_fits : i.junk_packet_max_size ≤ 65535
  pub s1_fits : i.init_packet_junk_size ≤ 65535
  pub s2_fits : i.response_packet_junk_size ≤ 65535
  pub s3_fits : i.cookie_reply_packet_junk_size ≤ 65535
  pub s4_fits : i.transport_packet_junk_size ≤ 65535
  pub addresses_fit : All IsPrefix i.addresses
  pub dns_sized : All (λ ip. length ip ≡ 16) i.dns

pub record IsPeer (p : Peer) : Type 0 where
  pub public_sized : length p.public_key ≡ key_length
  pub preshared_sized : length p.preshared_key ≡ key_length
  pub allowed_fit : All IsPrefix p.allowed_ips
  pub endpoint_fits : p.endpoint.port ≤ 65535

parse_ip_cidrs-IsPrefix : (ss : List Bytes) → Ensures (All IsPrefix) (parse_ip_cidrs ss)
unfolding parse_ip_cidrs
parse_ip_cidrs-IsPrefix [] = tt
parse_ip_cidrs-IsPrefix (s ∷ ss) =
    Ensures-bind IsPrefix (All IsPrefix) (parse_ip_cidr s) _ (parse_ip_cidr-IsPrefix s) (λ a h.
      Ensures-bind (All IsPrefix) (All IsPrefix) (parse_ip_cidrs ss) _ (parse_ip_cidrs-IsPrefix ss)
        (λ r k. (h, k)))

add_server-IsInterface :
    (o : Option Ip) (s : Bytes) (i : Interface)
    → IfSome (λ ip. length ip ≡ 16) o
    → IsInterface i
    → IsInterface (add_server o s i)
add_server-IsInterface none s i h w = assumption
add_server-IsInterface (some ip) s i h w =
    let grown : All (λ x. length x ≡ 16) (i.dns ++ ip ∷ []) =
      All-append _ i.dns (ip ∷ []) w.dns_sized (h, tt) in
    assumption

add_dns-IsInterface : (ss : List Bytes) (i : Interface) → IsInterface i → IsInterface (add_dns ss i)
unfolding add_dns
add_dns-IsInterface [] i w = w
add_dns-IsInterface (s ∷ ss) i w =
    add_dns-IsInterface ss (add_server (parse_ip s) s i)
      (add_server-IsInterface (parse_ip s) s i (length-parse_ip s) w)

hidden_key-sized :
    (m : Result ConfError Key)
    → Ensures (λ k. length k ≡ key_length) m
    → Ensures (λ k. length k ≡ key_length) (hidden_key m)
hidden_key-sized (ok k) h = h
hidden_key-sized (err e) h = tt

module _ (v : Bytes) where
  keeps_number :
      (f : ℕ → Interface)
      → ((n : ℕ) → n ≤ 65535 → IsInterface (f n))
      → Ensures IsInterface (do n ← parse_uint16 v; ok (f n))
  keeps_number f h =
      Ensures-bind (λ n. n ≤ 65535) IsInterface (parse_uint16 v) _ (parse_uint16_bounds v) h

pub set_interface-IsInterface :
    (k : InterfaceKey) (v : Bytes) (i : Interface)
    → IsInterface i
    → Ensures IsInterface (set_interface k v i)
unfolding set_interface
set_interface-IsInterface InterfaceKey.private_key v i w =
    Ensures-bind (λ k. length k ≡ key_length) IsInterface (parse_key_base64 v) _
      (parse_key_base64-length v) (λ k h. assumption)
set_interface-IsInterface InterfaceKey.listen_port v i w =
    Ensures-bind (λ n. n ≤ 65535) IsInterface (parse_port v) _ (parse_port_bounds v)
      (λ n h. assumption)
set_interface-IsInterface InterfaceKey.jc v i w = keeps_number v _ (λ n h. assumption)
set_interface-IsInterface InterfaceKey.jmin v i w = keeps_number v _ (λ n h. assumption)
set_interface-IsInterface InterfaceKey.jmax v i w = keeps_number v _ (λ n h. assumption)
set_interface-IsInterface InterfaceKey.s1 v i w = keeps_number v _ (λ n h. assumption)
set_interface-IsInterface InterfaceKey.s2 v i w = keeps_number v _ (λ n h. assumption)
set_interface-IsInterface InterfaceKey.s3 v i w = keeps_number v _ (λ n h. assumption)
set_interface-IsInterface InterfaceKey.s4 v i w = keeps_number v _ (λ n h. assumption)
set_interface-IsInterface (InterfaceKey.i_packet k) [] i w = w
set_interface-IsInterface (InterfaceKey.i_packet k) (c ∷ cs) i w = assumption
set_interface-IsInterface InterfaceKey.header_protection_key v i w =
    Ensures-bind (λ k. length k ≡ key_length) IsInterface (hidden_key (parse_key_base64 v)) _
      (hidden_key-sized (parse_key_base64 v) (parse_key_base64-length v)) (λ k h. assumption)
set_interface-IsInterface InterfaceKey.mtu v i w =
    Ensures-bind (λ n. (576 ≤ n) × (n ≤ 65535)) IsInterface (parse_mtu v) _ (parse_mtu_bounds v)
      (λ n h. assumption)
set_interface-IsInterface InterfaceKey.address v i w =
    Ensures-bind (λ ss. Unit {0}) IsInterface (split_list v) _ (Ensures-any (split_list v))
      (λ ss u.
        Ensures-bind (All IsPrefix) IsInterface (parse_ip_cidrs ss) _ (parse_ip_cidrs-IsPrefix ss)
          (λ found h.
            let grown : All IsPrefix (i.addresses ++ found) =
              All-append IsPrefix i.addresses found w.addresses_fit h in
            assumption))
set_interface-IsInterface InterfaceKey.dns v i w =
    Ensures-bind (λ ss. Unit {0}) IsInterface (split_list v) _ (Ensures-any (split_list v))
      (λ ss h. add_dns-IsInterface ss i w)
set_interface-IsInterface InterfaceKey.table v i w =
    Ensures-bind (λ b. Unit {0}) IsInterface (parse_table_off v) _ (Ensures-any (parse_table_off v))
      (λ b h. assumption)
set_interface-IsInterface _ v i w = assumption

parse_endpoint-fits : (s : Bytes) → Ensures (λ e. e.port ≤ 65535) (parse_endpoint s)
unfolding parse_endpoint
parse_endpoint-fits s =
    let P : Endpoint → Type 0 = λ e. e.port ≤ 65535 in
    Ensures-bind (λ p. Unit {0}) P (of_option (parse_error missing_port s) (cut_last b':' s)) _
      (Ensures-any (of_option (parse_error missing_port s) (cut_last b':' s)))
      (λ p u.
        Ensures-bind (λ _. Unit {0}) P (refuse_if (is_empty p.0) (parse_error invalid_host p.0)) _
          (Ensures-any (refuse_if (is_empty p.0) (parse_error invalid_host p.0)))
          (λ _ _.
            Ensures-bind (λ n. n ≤ 65535) P (parse_port p.1) _ (parse_port_bounds p.1)
              (λ n h.
                Ensures-bind (λ _. Unit {0}) P (endpoint_host p.0) _
                  (Ensures-any (endpoint_host p.0)) (λ host _. h))))

pub set_peer-IsPeer :
    (k : PeerKey) (v : Bytes) (p : Peer) → IsPeer p → Ensures IsPeer (set_peer k v p)
unfolding set_peer
set_peer-IsPeer PeerKey.public_key v p w =
    Ensures-bind (λ k. length k ≡ key_length) IsPeer (parse_key_base64 v) _
      (parse_key_base64-length v) (λ k h. assumption)
set_peer-IsPeer PeerKey.preshared_key v p w =
    Ensures-bind (λ k. length k ≡ key_length) IsPeer (parse_key_base64 v) _
      (parse_key_base64-length v) (λ k h. assumption)
set_peer-IsPeer PeerKey.allowed_ips v p w =
    Ensures-bind (λ ss. Unit {0}) IsPeer (split_list v) _ (Ensures-any (split_list v))
      (λ ss u.
        Ensures-bind (All IsPrefix) IsPeer (parse_ip_cidrs ss) _ (parse_ip_cidrs-IsPrefix ss)
          (λ found h.
            let grown : All IsPrefix (p.allowed_ips ++ found) =
              All-append IsPrefix p.allowed_ips found w.allowed_fit h in
            assumption))
set_peer-IsPeer PeerKey.persistent_keepalive v p w =
    Ensures-bind (λ k. Unit {0}) IsPeer (map_err keepalive_error (parse_persistent_keepalive v)) _
      (Ensures-any (map_err keepalive_error (parse_persistent_keepalive v))) (λ k h. assumption)
set_peer-IsPeer PeerKey.endpoint v p w =
    Ensures-bind (λ e. e.port ≤ 65535) IsPeer (parse_endpoint v) _ (parse_endpoint-fits v)
      (λ e h. assumption)
