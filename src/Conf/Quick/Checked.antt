-- ===== src/Conf/Quick/Checked.antt =====
-- The configurations that `FromWgQuick` of core/conf/parser.go returns.
use pinus_smart_awg.Common.{
  All, All-append, All-weaken, Bool, Ensures, Ensures-any, Ensures-bind, Ensures-ok, Ensures-then,
  List, Result, [], arith, bind-eq-ok, drop, false, for_each, for_each_iff, if◌then◌else◌, is_empty,
  map_err, map_err-eq-ok, not, not-false, of_option, ok, refl, refuse_if, refuse_if-eq-ok, subst,
  sym, true, ℕ, ◌&&◌, ◌+◌, ◌∷◌, ◌≡◌,
}
use pinus_smart_awg.Conf.{Config, Peer, is_zero, zero_peer}
use pinus_smart_awg.Conf.Name.{tunnel_name_is_valid}
use pinus_smart_awg.Conf.Name.Laws.{IsTunnelName, tunnel_name_is_valid_iff}
use pinus_smart_awg.Conf.Quick.{
  Section, State, check_public_key, finish, from_wg_quick, in_interface, in_peer, maybe_add_peer,
  not_in_a_section, outside, read_content, read_key, read_line, read_lines, read_setting, slice_to,
  special_handshake_tags, start, strip_comment,
}
use pinus_smart_awg.Conf.QuickKeys.{interface_key, peer_key, set_interface, set_peer}
use pinus_smart_awg.Conf.QuickKeys.Bounds.{
  IsInterface, IsPeer, set_interface-IsInterface, set_peer-IsPeer,
}
use pinus_smart_awg.Conf.Validation.{validate_awg}
use pinus_smart_awg.Conf.Validation.Laws.{IsAwg, validate_awg_iff}
use pinus_smart_awg.Conf.Values.{
  ConfError, awg_error, bad_interface_key, bad_peer_key, invalid_name, no_equals, no_private_key,
  no_public_key, no_value, parse_error,
}
use pinus_smart_awg.Text.{Bytes, codes, equal, one_of}
use pinus_smart_awg.Text.Case.{to_lower}
use pinus_smart_awg.Text.Search.{index_byte, split}
use pinus_smart_awg.Text.Trim.{trim_space}

abbrev SectionFits : Section → Type 0
SectionFits (in_peer p) = IsPeer p
SectionFits _ = Unit

record IsState (s : State) : Type 0 where
  interface_fits : IsInterface s.interface
  peers_fit : All IsPeer s.peers
  section_fits : SectionFits s.section

-- `section_fits` for a section that is given apart from the state
record Open (x : Section) (s : State) : Type 0 where
  same : s.section ≡ x
  interface_fits : IsInterface s.interface
  peers_fit : All IsPeer s.peers
  open_fits : SectionFits x

read_setting-IsState :
    (x : Section) (key v : Bytes) (s : State) → Open x s → Ensures IsState (read_setting x key v s)
unfolding read_setting
read_setting-IsState in_interface key v s w =
    Ensures-bind (λ k. Unit {0}) IsState
      (of_option (parse_error bad_interface_key key) (interface_key key)) _ (Ensures-any _)
      (λ k u.
        Ensures-bind IsInterface IsState (set_interface k v s.interface) _
          (set_interface-IsInterface k v s.interface w.interface_fits)
          (λ i h. record {
            interface_fits = h;
            peers_fit = w.peers_fit;
            section_fits = subst SectionFits (sym w.same) tt;
          }))
read_setting-IsState (in_peer p) key v s w =
    Ensures-bind (λ k. Unit {0}) IsState (of_option (parse_error bad_peer_key key) (peer_key key)) _
      (Ensures-any _)
      (λ k u.
        Ensures-bind IsPeer IsState (set_peer k v p) _ (set_peer-IsPeer k v p w.open_fits) (λ q h.
          record { interface_fits = w.interface_fits; peers_fit = w.peers_fit; section_fits = h }))
read_setting-IsState not_in_a_section key v s w = record {
  interface_fits = w.interface_fits;
  peers_fit = w.peers_fit;
  section_fits = subst SectionFits (sym w.same) tt;
}

read_key-IsState :
    (lower : ℕ → ℕ) (line : Bytes) (s : State) → IsState s → Ensures IsState (read_key lower line s)
unfolding read_key
read_key-IsState lower line s w =
    Ensures-bind (λ n. Unit {0}) IsState
      (of_option (parse_error no_equals line) (index_byte b'=' line)) _ (Ensures-any _)
      (λ n _.
        Ensures-bind (λ k. Unit {0}) IsState (slice_to n (to_lower lower line)) _ (Ensures-any _)
          (λ key _.
            let v = trim_space (drop (n + 1) line) in
            let empty = not (one_of (trim_space key) special_handshake_tags) && is_empty v in
            Ensures-then IsState (refuse_if empty (parse_error no_value line))
              (read_setting s.section (trim_space key) v s)
              (read_setting-IsState s.section (trim_space key) v s (record {
                same = refl;
                interface_fits = w.interface_fits;
                peers_fit = w.peers_fit;
                open_fits = w.section_fits;
              }))))

maybe_add_peer-fits :
    (x : Section) (ps : List Peer)
    → SectionFits x
    → All IsPeer ps
    → All IsPeer (maybe_add_peer x ps)
maybe_add_peer-fits in_interface ps h k = k
maybe_add_peer-fits (in_peer p) ps h k = All-append IsPeer ps (p ∷ []) k (h, tt)
maybe_add_peer-fits not_in_a_section ps h k = k

zero_peer-IsPeer : IsPeer zero_peer
zero_peer-IsPeer = record {
  public_sized = refl;
  preshared_sized = refl;
  allowed_fit = tt;
  endpoint_fits = omega arith;
}

Ensures-if {ℓ} :
    {A : Type 0} (P : A → Type ℓ) (b : Bool) (m k : Result ConfError A)
    → Ensures P m
    → Ensures P k
    → Ensures P (if b then m else k)
Ensures-if P true m k h l = h
Ensures-if P false m k h l = l

read_content-IsState :
    (lower : ℕ → ℕ) (line : Bytes) (s : State)
    → IsState s
    → Ensures IsState (read_content lower line s)
unfolding read_content
read_content-IsState lower line s w =
    let added = maybe_add_peer-fits s.section s.peers w.section_fits w.peers_fit in
    Ensures-if IsState (is_empty line) _ _ w (
      Ensures-if IsState (equal (to_lower lower line) (codes "[interface]")) _ _
        (record { interface_fits = w.interface_fits; peers_fit = added; section_fits = tt })
        (Ensures-if IsState (equal (to_lower lower line) (codes "[peer]")) _ _
          (record {
            interface_fits = w.interface_fits;
            peers_fit = added;
            section_fits = zero_peer-IsPeer;
          })
          (Ensures-if IsState (outside s.section) _ _ tt (read_key-IsState lower line s w))))

read_lines-IsState :
    (lower : ℕ → ℕ) (ls : List Bytes) (s : State)
    → IsState s
    → Ensures IsState (read_lines lower ls s)
unfolding read_lines
read_lines-IsState lower [] s w = w
read_lines-IsState lower (l ∷ ls) s w =
    Ensures-bind IsState IsState (read_line lower l s) _
      (unfold read_line in read_content-IsState lower (trim_space (strip_comment l)) s w)
      (λ t h. read_lines-IsState lower ls t h)

start-IsState : IsState start
start-IsState = record {
  interface_fits = record {
    key_sized = refl;
    header_key_sized = refl;
    port_fits = omega arith;
    mtu_fits = omega arith;
    mtu_usable = omega arith;
    jc_fits = omega arith;
    jmin_fits = omega arith;
    jmax_fits = omega arith;
    s1_fits = omega arith;
    s2_fits = omega arith;
    s3_fits = omega arith;
    s4_fits = omega arith;
    addresses_fit = tt;
    dns_sized = tt;
  };
  peers_fit = tt;
  section_fits = tt;
}

-- What `FromWgQuick` promises of its result.
pub record IsChecked (lower : ℕ → ℕ) (name : Bytes) (c : Config) : Type 0 where
  pub named : c.name ≡ name
  pub name_valid : IsTunnelName name
  pub interface_fits : IsInterface c.interface
  pub peers_fit : All IsPeer c.peers
  pub peers_keyed : All (λ p. is_zero p.public_key ≡ false) c.peers
  pub valid : IsAwg lower c

finish-IsChecked :
    (lower : ℕ → ℕ) (name : Bytes) (s : State) {c : Config}
    → tunnel_name_is_valid name ≡ true
    → IsState s
    → finish lower name s ≡ ok c
    → IsChecked lower name c
unfolding finish
finish-IsChecked lower name s {c} n w h =
    let peers = maybe_add_peer s.section s.peers in
    let made : Config = record { name = name; interface = s.interface; peers = peers } in
    let (_, _, h1) =
      bind-eq-ok (refuse_if (not s.saw_private_key) (parse_error no_private_key [])) _ h in
    let (_, keyed, h2) = bind-eq-ok (for_each check_public_key peers) _ h1 in
    let (_, valid, h3) = bind-eq-ok (map_err awg_error (validate_awg lower made)) _ h2 in
    let same : made ≡ c = cc h3 in
    subst (IsChecked lower name) same (record {
      named = refl;
      name_valid = (tunnel_name_is_valid_iff name).0 n;
      interface_fits = w.interface_fits;
      peers_fit = maybe_add_peer-fits s.section s.peers w.section_fits w.peers_fit;
      peers_keyed =
          All-weaken
            (λ p k. refuse_if-eq-ok (is_zero p.public_key) (parse_error no_public_key []) k) peers
            ((for_each_iff check_public_key peers).0 keyed);
      valid = (validate_awg_iff lower made).0 (map_err-eq-ok awg_error _ valid);
    })

-- Every configuration that `FromWgQuick` returns has the name that was asked for, which is valid;
-- keys of 32 bytes; ports, sizes and junk counts of 16 bits; an MTU of at least 576; prefixes that
-- fit their addresses; a public key that is not zero for each peer; and passes `ValidateAWG`.
pub from_wg_quick-IsChecked :
    (lower : ℕ → ℕ) (s name : Bytes) {c : Config}
    → from_wg_quick lower s name ≡ ok c
    → IsChecked lower name c
unfolding from_wg_quick
from_wg_quick-IsChecked lower s name {c} h =
    let (_, g, h1) =
      bind-eq-ok (refuse_if (not (tunnel_name_is_valid name)) (parse_error invalid_name name)) _
        h in
    let (t, r, h2) = bind-eq-ok (read_lines lower (split b'\n' s) start) _ h1 in
    finish-IsChecked lower name t {c = c} (not-false _ (refuse_if-eq-ok _ _ g))
      (Ensures-ok IsState (read_lines-IsState lower (split b'\n' s) start start-IsState) r) h2
