-- ===== src/Conf/Name/Laws.antt =====
-- `TunnelNameIsValid` of core/conf/name.go, against what a valid name is.

use pinus_smart_awg.Common.{
  All, All-all, Bool, [], all, all-All, and_true, arith, false, if◌then◌else◌, leb, leb→le, length,
  not, refl, true, ◌&&◌, ◌||◌, ◌↔◌, ◌∷◌, ◌≡◌, ◌≤◌,
}
use pinus_smart_awg.Conf.Name.{
  allowed_name_format, has_special_chars, is_name_byte, is_reserved, netshell_dll_forbidden,
  service_name_forbidden, special_chars, tunnel_name_is_valid,
}
use pinus_smart_awg.Text.{Bytes}
use pinus_smart_awg.Text.Search.{contains_any, contains_byte-all}

-- Between 1 and 32 bytes that are letters, digits or `_=+.-`, and no name of a DOS device.
pub record IsTunnelName (name : Bytes) : Type 0 where
  pub not_empty : 1 ≤ length name
  pub short : length name ≤ 32
  pub plain : All (λ c. is_name_byte c ≡ true) name
  pub not_reserved : is_reserved name ≡ false

contains_any_plain :
    (chars name : Bytes)
    → all (λ c. not (is_name_byte c)) chars ≡ true
    → All (λ c. is_name_byte c ≡ true) name
    → contains_any chars name ≡ false
unfolding contains_any
contains_any_plain chars [] h k = refl
contains_any_plain chars (x ∷ name) h k =
    rw (contains_byte-all is_name_byte chars x h k.0, contains_any)
      (contains_any_plain chars name h k.1)

-- The search for special characters refuses nothing that the format lets through.
has_special_chars_plain :
    (name : Bytes) → All (λ c. is_name_byte c ≡ true) name → has_special_chars name ≡ false
unfolding has_special_chars
has_special_chars_plain name h = rw (
  contains_any_plain special_chars name refl h,
  contains_any_plain netshell_dll_forbidden name refl h,
  contains_any_plain service_name_forbidden name refl h,
)

to_IsTunnelName : (name : Bytes) → tunnel_name_is_valid name ≡ true → IsTunnelName name
unfolding tunnel_name_is_valid
to_IsTunnelName name h =
    let (r, _, f) =
      passes (is_reserved name) (has_special_chars name) (allowed_name_format name) h in
    let (sized, plain) =
      and_true (leb 1 (length name) && leb (length name) 32) (all is_name_byte name) f in
    let (some_bytes, short) = and_true (leb 1 (length name)) (leb (length name) 32) sized in
    record {
      not_empty = leb→le 1 _ some_bytes;
      short = leb→le _ 32 short;
      plain = all-All is_name_byte name plain;
      not_reserved = r;
    }
  where
    passes :
        (r s f : Bool)
        → (if r || s then false else f) ≡ true
        → (r ≡ false) × (s ≡ false) × (f ≡ true)
    passes r s f h = ground arith

of_IsTunnelName : (name : Bytes) → IsTunnelName name → tunnel_name_is_valid name ≡ true
unfolding tunnel_name_is_valid
of_IsTunnelName name v =
    rw (v.not_reserved, has_special_chars_plain name v.plain, All-all is_name_byte name v.plain)
      (ground arith)

-- A name is valid exactly if it has 1 to 32 bytes, all of them letters, digits or one of `_=+.-`,
-- and is no device name in any case.
pub tunnel_name_is_valid_iff :
    (name : Bytes) → (tunnel_name_is_valid name ≡ true) ↔ IsTunnelName name
tunnel_name_is_valid_iff name = (to_IsTunnelName name, of_IsTunnelName name)
