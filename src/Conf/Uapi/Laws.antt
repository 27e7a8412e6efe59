-- ===== src/Conf/Uapi/Laws.antt =====
-- What `FromUAPI` of core/conf/parser.go takes over from the existing configuration.
-- The settings that the driver does not report are the same in both.
use pinus_smart_awg.Common.{
  Bool, Ensures, Ensures-any, Ensures-bind, Ensures-ok, Ensures-then, List, Option, Result, [],
  bind-eq-ok, false, if◌then◌else◌, is_empty, none, of_option, ok, refl, refuse_if, some, subst,
  true, ◌>>=◌, ◌∷◌, ◌≡◌,
}
use pinus_smart_awg.Conf.{Config, Interface, Peer, zero_peer}
use pinus_smart_awg.Conf.QuickKeys.{hidden_key}
use pinus_smart_awg.Conf.Uapi.{
  UapiInterfaceKey, UapiState, add_open, from_uapi, select, set_uapi, set_uapi_interface,
  set_uapi_peer, uapi_interface_keys, uapi_line, uapi_lines, uapi_peer_keys, uapi_start,
}
use pinus_smart_awg.Conf.Values.{
  ConfError, bad_interface_key, bad_peer_key, no_equals, no_value, parse_error, parse_key_hex,
  parse_port, parse_uint16,
}
use pinus_smart_awg.Text.{Bytes, codes, equal}
use pinus_smart_awg.Text.Search.{cut, split}

pub record Keeps (o i : Interface) : Type 0 where
  pub same_addresses : i.addresses ≡ o.addresses
  pub same_dns : i.dns ≡ o.dns
  pub same_dns_search : i.dns_search ≡ o.dns_search
  pub same_mtu : i.mtu ≡ o.mtu
  pub same_pre_up : i.pre_up ≡ o.pre_up
  pub same_post_up : i.post_up ≡ o.post_up
  pub same_pre_down : i.pre_down ≡ o.pre_down
  pub same_post_down : i.post_down ≡ o.post_down
  pub same_table : i.table_off ≡ o.table_off

parsed-Keeps {ℓ} :
    {A : Type ℓ} (o : Interface) (m : Result ConfError A) (f : A → Interface)
    → ((a : A) → Keeps o (f a))
    → Ensures (Keeps o) (do a ← m; ok (f a))
parsed-Keeps o m f h = Ensures-bind (λ _. Unit {0}) (Keeps o) m _ (Ensures-any m) (λ a _. h a)

set_uapi_interface-Keeps :
    (o : Interface) (k : UapiInterfaceKey) (v : Bytes) (i : Interface)
    → Keeps o i
    → Ensures (Keeps o) (set_uapi_interface k v i)
unfolding set_uapi_interface
set_uapi_interface-Keeps o UapiInterfaceKey.private_key v i w =
    parsed-Keeps o (parse_key_hex v) _ (λ a. assumption)
set_uapi_interface-Keeps o UapiInterfaceKey.listen_port v i w =
    parsed-Keeps o (parse_port v) _ (λ a. assumption)
set_uapi_interface-Keeps o UapiInterfaceKey.jc v i w =
    parsed-Keeps o (parse_uint16 v) _ (λ a. assumption)
set_uapi_interface-Keeps o UapiInterfaceKey.jmin v i w =
    parsed-Keeps o (parse_uint16 v) _ (λ a. assumption)
set_uapi_interface-Keeps o UapiInterfaceKey.jmax v i w =
    parsed-Keeps o (parse_uint16 v) _ (λ a. assumption)
set_uapi_interface-Keeps o UapiInterfaceKey.s1 v i w =
    parsed-Keeps o (parse_uint16 v) _ (λ a. assumption)
set_uapi_interface-Keeps o UapiInterfaceKey.s2 v i w =
    parsed-Keeps o (parse_uint16 v) _ (λ a. assumption)
set_uapi_interface-Keeps o UapiInterfaceKey.s3 v i w =
    parsed-Keeps o (parse_uint16 v) _ (λ a. assumption)
set_uapi_interface-Keeps o UapiInterfaceKey.s4 v i w =
    parsed-Keeps o (parse_uint16 v) _ (λ a. assumption)
set_uapi_interface-Keeps o UapiInterfaceKey.h1 v i w = assumption
set_uapi_interface-Keeps o UapiInterfaceKey.h2 v i w = assumption
set_uapi_interface-Keeps o UapiInterfaceKey.h3 v i w = assumption
set_uapi_interface-Keeps o UapiInterfaceKey.h4 v i w = assumption
set_uapi_interface-Keeps o (UapiInterfaceKey.i_packet k) v i w = assumption
set_uapi_interface-Keeps o UapiInterfaceKey.header_protection_key v i w =
    parsed-Keeps o (hidden_key (parse_key_hex v)) _ (λ a. assumption)
set_uapi_interface-Keeps o UapiInterfaceKey.content_padding_addition v i w = assumption
set_uapi_interface-Keeps o UapiInterfaceKey.rekey_after_time v i w = assumption
set_uapi_interface-Keeps o UapiInterfaceKey.rekey_timeout v i w = assumption
set_uapi_interface-Keeps o UapiInterfaceKey.reject_after_time v i w = assumption
set_uapi_interface-Keeps o UapiInterfaceKey.keepalive_timeout v i w = assumption
set_uapi_interface-Keeps o UapiInterfaceKey.max_handshake_attempts v i w = assumption
set_uapi_interface-Keeps o UapiInterfaceKey.random_trailers v i w = assumption
set_uapi_interface-Keeps o UapiInterfaceKey.disable_cookies v i w = assumption
set_uapi_interface-Keeps o UapiInterfaceKey.fwmark v i w = assumption

abbrev StateKeeps : Interface → UapiState → Type 0
StateKeeps o s = Keeps o s.interface

set_uapi-Keeps :
    (o : Interface) (p : Option Peer) (key v : Bytes) (s : UapiState)
    → StateKeeps o s
    → Ensures (StateKeeps o) (set_uapi p key v s)
unfolding set_uapi
set_uapi-Keeps o none key v s w =
    let m = of_option (parse_error bad_interface_key key) (select key uapi_interface_keys) in
    Ensures-bind (λ _. Unit {0}) (StateKeeps o) m _ (Ensures-any m)
      (λ k _.
        Ensures-bind (Keeps o) (StateKeeps o) (set_uapi_interface k v s.interface) _
          (set_uapi_interface-Keeps o k v s.interface w) (λ i h. h))
set_uapi-Keeps o (some p) key v s w =
    let m = of_option (parse_error bad_peer_key key) (select key uapi_peer_keys) in
    Ensures-bind (λ _. Unit {0}) (StateKeeps o) m _ (Ensures-any m)
      (λ k _.
        Ensures-bind (λ _. Unit {0}) (StateKeeps o) (set_uapi_peer k v p) _
          (Ensures-any (set_uapi_peer k v p)) (λ i h. w))

Ensures-if {ℓ} :
    {A : Type 0} (P : A → Type ℓ) (b : Bool) (m k : Result ConfError A)
    → Ensures P m
    → Ensures P k
    → Ensures P (if b then m else k)
Ensures-if P true m k h l = h
Ensures-if P false m k h l = l

uapi_line-Keeps :
    (o : Interface) (line : Bytes) (s : UapiState)
    → StateKeeps o s
    → Ensures (StateKeeps o) (uapi_line line s)
unfolding uapi_line
uapi_line-Keeps o line s w =
    let m = of_option (parse_error no_equals line) (cut b'=' line) in
    Ensures-bind (λ _. Unit {0}) (StateKeeps o) m _ (Ensures-any m)
      (λ p _. Ensures-then (StateKeeps o) (refuse_if (is_empty p.1) (parse_error no_value line)) _ (
        Ensures-if (StateKeeps o) (equal p.0 (codes "public_key")) _ _
          (set_uapi-Keeps o (some zero_peer) p.0 p.1
            (record s { open_peer = some zero_peer; peers = add_open s.open_peer s.peers }) w)
          (Ensures-if (StateKeeps o) (equal p.0 (codes "errno")) _ _
            (Ensures-if (StateKeeps o) (equal p.1 (codes "0")) (ok s) _ w tt)
            (set_uapi-Keeps o s.open_peer p.0 p.1 s w))))

uapi_lines-Keeps :
    (o : Interface) (ls : List Bytes) (s : UapiState)
    → StateKeeps o s
    → Ensures (StateKeeps o) (uapi_lines ls s)
unfolding uapi_lines
uapi_lines-Keeps o [] s w = tt
uapi_lines-Keeps o (l ∷ []) s w = tt
uapi_lines-Keeps o (l ∷ m ∷ ls) s w = Ensures-if (StateKeeps o) (is_empty l) (ok s) _ w (
    Ensures-bind (StateKeeps o) (StateKeeps o) (uapi_line l s) _ (uapi_line-Keeps o l s w)
      (λ t h. uapi_lines-Keeps o (m ∷ ls) t h))

-- Whatever the driver reports, a configuration that is read from it keeps the name and the
-- settings that only the file has: addresses, DNS, MTU, scripts and the table.
pub from_uapi-Keeps :
    (text : Bytes) (existing : Config) {c : Config}
    → from_uapi text existing ≡ ok c
    → (c.name ≡ existing.name) × Keeps existing.interface c.interface
unfolding from_uapi
from_uapi-Keeps text existing {c} h =
    let (s, read, g) = bind-eq-ok (uapi_lines (split b'\n' text) (uapi_start existing)) _ h in
    let o = existing.interface in
    let kept : StateKeeps o s =
      Ensures-ok (StateKeeps o)
        (uapi_lines-Keeps o (split b'\n' text) (uapi_start existing) (record {
          same_addresses = refl;
          same_dns = refl;
          same_dns_search = refl;
          same_mtu = refl;
          same_pre_up = refl;
          same_post_up = refl;
          same_pre_down = refl;
          same_post_down = refl;
          same_table = refl;
        }))
        read in
    let made : Config = record {
      name = existing.name;
      interface = s.interface;
      peers = add_open s.open_peer s.peers;
    } in
    let same : made ≡ c = cc g in
    subst (λ (d : Config). (d.name ≡ existing.name) × Keeps o d.interface) same (refl, kept)
