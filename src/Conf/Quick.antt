-- ===== src/Conf/Quick.antt =====
-- `FromWgQuick` of core/conf/parser.go: the loop over the lines and the checks behind it. `lower` is
-- the table of `unicode.ToLower` above ASCII.
pub mod Checked
use pinus_smart_awg.Common.{
  Bool, List, Result, [], drop, err, false, for_each, if◌then◌else◌, is_empty, length, ltb, map_err,
  none, not, of_option, ok, refuse_if, some, take, true, ℕ, ◌&&◌, ◌++◌, ◌+◌, ◌>>=◌, ◌>>◌, ◌||◌, ◌∷◌,
}
use pinus_smart_awg.Conf.{Config, Interface, Peer, is_zero, zero_interface, zero_peer}
use pinus_smart_awg.Conf.Name.{tunnel_name_is_valid}
use pinus_smart_awg.Conf.QuickKeys.{InterfaceKey, interface_key, peer_key, set_interface, set_peer}
use pinus_smart_awg.Conf.Validation.{validate_awg}
use pinus_smart_awg.Conf.Values.{
  ConfError, awg_error, bad_interface_key, bad_peer_key, fails, invalid_name, no_equals,
  no_private_key, no_public_key, no_section, no_value, parse_error, slice_panic,
}
use pinus_smart_awg.Text.{Bytes, codes, equal, one_of}
use pinus_smart_awg.Text.Case.{to_lower}
use pinus_smart_awg.Text.Search.{cut, index_byte, split}
use pinus_smart_awg.Text.Trim.{trim_space}

-- `parserState` with `peer`, which is a pointer to a peer exactly in the section of one.
pub data Section : Type 0 where
  in_interface : Section
  in_peer : Peer → Section
  not_in_a_section : Section

pub record State : Type 0 where
  pub section : Section
  pub interface : Interface
  pub peers : List Peer
  pub saw_private_key : Bool

-- `maybeAddPeer`
abbrev pub maybe_add_peer : Section → List Peer → List Peer
maybe_add_peer (in_peer p) peers = peers ++ p ∷ []
maybe_add_peer _ peers = peers

-- `_specialHandshakeTags`, whose values may be empty
abbrev special_handshake_tags : List Bytes
special_handshake_tags =
    codes "i1"
    ∷ codes "i2"
    ∷ codes "i3"
    ∷ codes "i4"
    ∷ codes "i5"
    ∷ codes "j1"
    ∷ codes "j2"
    ∷ codes "j3"
    ∷ codes "itime"
    ∷ []

abbrev is_private_key : InterfaceKey → Bool
is_private_key InterfaceKey.private_key = true
is_private_key _ = false

-- the two `switch key`
pub read_setting : Section → Bytes → Bytes → State → Result ConfError State
read_setting in_interface key v s = do
  k ← of_option (parse_error bad_interface_key key) (interface_key key)
  i ← set_interface k v s.interface
  ok (record s { interface = i; saw_private_key = s.saw_private_key || is_private_key k })
read_setting (in_peer p) key v s = do
  k ← of_option (parse_error bad_peer_key key) (peer_key key)
  q ← set_peer k v p
  ok (record s { section = in_peer q })
read_setting not_in_a_section key v s = ok s

-- `line[:equals]` of the line in lower case, which panics if that line has become too short
pub slice_to : ℕ → Bytes → Result ConfError Bytes
slice_to n s = if ltb (length s) n then err slice_panic else ok (take n s)

-- a line in a section that is no header
pub read_key : (ℕ → ℕ) → Bytes → State → Result ConfError State
unfolding read_setting slice_to one_of
read_key lower line s = do
  equals ← of_option (parse_error no_equals line) (index_byte b'=' line)
  key ← slice_to equals (to_lower lower line)
  let v = trim_space (drop (equals + 1) line)
  refuse_if (not (one_of (trim_space key) special_handshake_tags) && is_empty v)
      (parse_error no_value line)
  read_setting s.section (trim_space key) v s

abbrev outside : Section → Bool
outside not_in_a_section = true
outside _ = false

-- a line with its comment cut off and no space around it
pub read_content : (ℕ → ℕ) → Bytes → State → Result ConfError State
unfolding read_key equal
read_content lower line s =
    if is_empty line
    then ok s
    else if equal (to_lower lower line) (codes "[interface]")
    then ok (record s { peers = maybe_add_peer s.section s.peers; section = in_interface })
    else if equal (to_lower lower line) (codes "[peer]")
    then ok (record s { peers = maybe_add_peer s.section s.peers; section = in_peer zero_peer })
    else if outside s.section
    then fails no_section line
    else read_key lower line s

-- `line[:pound]`
pub strip_comment : Bytes → Bytes
unfolding cut
strip_comment line = elim (cut b'#' line) [ some (before, comment) ↦ before | none ↦ line ]

pub read_line : (ℕ → ℕ) → Bytes → State → Result ConfError State
unfolding read_content strip_comment
read_line lower line s = read_content lower (trim_space (strip_comment line)) s

pub read_lines : (ℕ → ℕ) → List Bytes → State → Result ConfError State
read_lines lower [] s = ok s
read_lines lower (l ∷ ls) s = do t ← read_line lower l s; read_lines lower ls t

abbrev pub start : State
start = record {
  section = not_in_a_section;
  interface = record zero_interface { mtu = 1420 };
  peers = [];
  saw_private_key = false;
}

check_public_key : Peer → Result ConfError (Unit {0})
check_public_key p = refuse_if (is_zero p.public_key) (parse_error no_public_key [])

-- behind the loop
pub finish : (ℕ → ℕ) → Bytes → State → Result ConfError Config
unfolding check_public_key
finish lower name s = do
  let peers = maybe_add_peer s.section s.peers
  let c : Config = record { name = name; interface = s.interface; peers = peers }
  refuse_if (not s.saw_private_key) (parse_error no_private_key [])
  for_each check_public_key peers
  map_err awg_error (validate_awg lower c)
  ok c

unfoldable pub from_wg_quick : (ℕ → ℕ) → Bytes → Bytes → Result ConfError Config
unfolding finish read_lines read_line split
from_wg_quick lower s name = do
  refuse_if (not (tunnel_name_is_valid name)) (parse_error invalid_name name)
  t ← read_lines lower (split b'\n' s) start
  finish lower name t
