-- ===== src/Conf/Values/Bounds.antt =====
-- The sizes and ranges of what the value parsers of core/conf/parser.go return.

use pinus_smart_awg.Common.{
  ==_iff, Bool, Bool-cases, Ensures, Ensures-bind, Ensures-of_option, IfSome, IfSome-some, Option,
  arith, if◌then◌else◌, inl, inr, length, none, of_option, ok, refl, some, true, ℕ, ◌*◌, ◌==◌,
  ◌>>=◌, ◌≡◌, ◌≤◌, ◌⊎◌,
}
use pinus_smart_awg.Conf.{Ip, IpCidr, key_length}
use pinus_smart_awg.Conf.Values.{
  Why, invalid_ip, invalid_mtu, invalid_number, invalid_port, is_v4, key_of, parse_error,
  parse_ip_cidr, parse_key_base64, parse_key_hex, parse_mtu, parse_port, parse_uint16, prefer_4,
  prefix_length, within,
}
use pinus_smart_awg.Text.{Bytes}
use pinus_smart_awg.Text.Base64.{decode}
use pinus_smart_awg.Text.Hex.{from_hex}
use pinus_smart_awg.Text.Ip.{parse_ip, to_4}
use pinus_smart_awg.Text.Ip.Sizes.{length-parse_ip, length-to_4}
use pinus_smart_awg.Text.Number.{atoi, negsuc, pos, ℤ}
use pinus_smart_awg.Text.Search.{cut}

-- A prefix is an address of 4 or 16 bytes and a length that fits it.
pub record IsPrefix (r : IpCidr) : Type 0 where
  pub sized : (length r.ip ≡ 4) ⊎ (length r.ip ≡ 16)
  pub fits : r.cidr ≤ 8 * length r.ip

within_bounds :
    (lo hi : ℕ) (why : Why) (s : Bytes) (o : Option ℤ)
    → Ensures (λ n. (lo ≤ n) × (n ≤ hi)) (within lo hi why s o)
within_bounds lo hi why s none = tt
within_bounds lo hi why s (some (pos n)) = ground arith
within_bounds lo hi why s (some (negsuc n)) = tt

pub parse_mtu_bounds : (s : Bytes) → Ensures (λ n. (576 ≤ n) × (n ≤ 65535)) (parse_mtu s)
unfolding parse_mtu
parse_mtu_bounds s = within_bounds 576 65535 invalid_mtu s (atoi s)

pub parse_port_bounds : (s : Bytes) → Ensures (λ n. n ≤ 65535) (parse_port s)
unfolding parse_port
parse_port_bounds s = go (atoi s)
  where
    go : (o : Option ℤ) → Ensures (λ n. n ≤ 65535) (within 0 65535 invalid_port s o)
    go none = tt
    go (some (pos n)) = ground arith
    go (some (negsuc n)) = tt

pub parse_uint16_bounds : (s : Bytes) → Ensures (λ n. n ≤ 65535) (parse_uint16 s)
unfolding parse_uint16
parse_uint16_bounds s = go (atoi s)
  where
    go : (o : Option ℤ) → Ensures (λ n. n ≤ 65535) (within 0 65535 invalid_number s o)
    go none = tt
    go (some (pos n)) = ground arith
    go (some (negsuc n)) = tt

key_of-length : (s : Bytes) (o : Option Bytes) → Ensures (λ k. length k ≡ key_length) (key_of s o)
key_of-length s none = tt
key_of-length s (some k) = elim (Bool-cases (length k == key_length)) [
  | inl e ↦ rw e ((==_iff (length k) key_length).0 e)
  | inr e ↦ rw e tt
]

pub parse_key_base64-length :
    (s : Bytes) → Ensures (λ k. length k ≡ key_length) (parse_key_base64 s)
unfolding parse_key_base64
parse_key_base64-length s = key_of-length s (decode s)

pub parse_key_hex-length : (s : Bytes) → Ensures (λ k. length k ≡ key_length) (parse_key_hex s)
unfolding parse_key_hex
parse_key_hex-length s = key_of-length s (from_hex s)

prefer_4-IsPrefix :
    (ip : Ip) (o : Option Ip) (n : ℕ)
    → length ip ≡ 16
    → IfSome (λ q. length q ≡ 4) o
    → n ≤ 128
    → (is_v4 o ≡ true → n ≤ 32)
    → IsPrefix (record { ip = prefer_4 o ip; cidr = n })
prefer_4-IsPrefix ip none n h k l m = record { sized = inr h; fits = omega arith }
prefer_4-IsPrefix ip (some q) n h k l m = record { sized = inl k; fits = omega (arith, m refl) }

prefix_length_bounds :
    (v4 : Bool) (s : Bytes) (o : Option ℤ)
    → Ensures (λ n. (n ≤ 128) × (v4 ≡ true → n ≤ 32)) (prefix_length v4 s o)
prefix_length_bounds v4 s none = tt
prefix_length_bounds v4 s (some (negsuc n)) = tt
prefix_length_bounds v4 s (some (pos n)) = ground arith

whole_length :
    (v4 : Bool) → ((if v4 then 32 else 128) ≤ 128) × (v4 ≡ true → (if v4 then 32 else 128) ≤ 32)
whole_length v4 = ground arith

-- Whatever text an address is read from, its prefix length fits it.
pub parse_ip_cidr-IsPrefix : (s : Bytes) → Ensures IsPrefix (parse_ip_cidr s)
unfolding parse_ip_cidr
parse_ip_cidr-IsPrefix s = go (cut b'/' s)
  where
    parsed :
        (addr : Bytes)
        → Ensures (λ ip. length ip ≡ 16) (of_option (parse_error invalid_ip s) (parse_ip addr))
    parsed addr =
        Ensures-of_option (λ ip. length ip ≡ 16) _ (parse_ip addr)
          (λ ip e. IfSome-some (λ x. length x ≡ 16) (length-parse_ip addr) e)

    go :
        (o : Option (Bytes × Bytes))
        → Ensures IsPrefix (elim o [
          | none ↦ do
            ip ← of_option (parse_error invalid_ip s) (parse_ip s)
            ok (record { ip = prefer_4 (to_4 ip) ip; cidr = if is_v4 (to_4 ip) then 32 else 128 })
          | some (addr, bits) ↦ do
            ip ← of_option (parse_error invalid_ip s) (parse_ip addr)
            n ← prefix_length (is_v4 (to_4 ip)) s (atoi bits)
            ok (record { ip = prefer_4 (to_4 ip) ip; cidr = n })
        ])
    go none =
        Ensures-bind (λ ip. length ip ≡ 16) IsPrefix _ _ (parsed s)
          (λ ip h.
            let (l, m) = whole_length (is_v4 (to_4 ip)) in
            prefer_4-IsPrefix ip (to_4 ip) (if is_v4 (to_4 ip) then 32 else 128) h
              (length-to_4 ip h) l m)
    go (some (addr, bits)) =
        Ensures-bind (λ ip. length ip ≡ 16) IsPrefix _ _ (parsed addr)
          (λ ip h.
            Ensures-bind (λ n. (n ≤ 128) × (is_v4 (to_4 ip) ≡ true → n ≤ 32)) IsPrefix _ _
              (prefix_length_bounds (is_v4 (to_4 ip)) s (atoi bits))
              (λ n k. prefer_4-IsPrefix ip (to_4 ip) n h (length-to_4 ip h) k.0 k.1))
