-- ===== src/Conf/Name.antt =====
-- core/conf/name.go: which tunnel names are valid, and the natural order in which they are listed.
pub mod Laws
pub mod Order
use Prim.Native.Nat.{compare, Ordering}
use pinus_smart_awg.Common.{
  Bool, List, [], all, any, false, if◌then◌else◌, is_empty, leb, length, ltb, map, not, some, suc,
  true, zero, ℕ, ◌&&◌, ◌++◌, ◌==◌, ◌||◌, ◌∷◌,
}
use pinus_smart_awg.Text.{Bytes, codes, equal, is_digit, is_letter}
use pinus_smart_awg.Text.Case.{equal_fold, to_lower}
use pinus_smart_awg.Text.Number.{atoi, pos}
use pinus_smart_awg.Text.Order.{compare_bytes, is_gt, is_lt}
use pinus_smart_awg.Text.Search.{contains_any, join}
use pinus_smart_awg.Text.Trim.{fields}

abbrev reserved_names : List Bytes
reserved_names =
    codes "CON"
    ∷ codes "PRN"
    ∷ codes "AUX"
    ∷ codes "NUL"
    ∷ codes "COM1"
    ∷ codes "COM2"
    ∷ codes "COM3"
    ∷ codes "COM4"
    ∷ codes "COM5"
    ∷ codes "COM6"
    ∷ codes "COM7"
    ∷ codes "COM8"
    ∷ codes "COM9"
    ∷ codes "LPT1"
    ∷ codes "LPT2"
    ∷ codes "LPT3"
    ∷ codes "LPT4"
    ∷ codes "LPT5"
    ∷ codes "LPT6"
    ∷ codes "LPT7"
    ∷ codes "LPT8"
    ∷ codes "LPT9"
    ∷ []

abbrev service_name_forbidden : Bytes
service_name_forbidden = codes "$"

abbrev netshell_dll_forbidden : Bytes
netshell_dll_forbidden = codes "\\/:*?\"<>|\t"

-- the bytes from `n - 1` down to 0
abbrev below_byte : ℕ → Bytes
below_byte zero = []
below_byte (suc n) = n ∷ below_byte n

abbrev special_chars : Bytes
special_chars = codes "/\\<>:\"|?*" ++ below_byte 32

unfoldable pub is_reserved : Bytes → Bool
unfolding equal_fold
is_reserved name = not (is_empty name) && any (equal_fold name) reserved_names

unfoldable pub has_special_chars : Bytes → Bool
unfolding contains_any
has_special_chars name =
    contains_any special_chars name
    || contains_any netshell_dll_forbidden name
    || contains_any service_name_forbidden name

-- `[a-zA-Z0-9_=+.-]`
abbrev pub is_name_byte : ℕ → Bool
is_name_byte c =
    is_letter c || is_digit c || c == b'_' || c == b'=' || c == b'+' || c == b'.' || c == b'-'

-- `^[a-zA-Z0-9_=+.-]{1,32}$`
abbrev pub allowed_name_format : Bytes → Bool
allowed_name_format name = leb 1 (length name) && leb (length name) 32 && all is_name_byte name

unfoldable pub tunnel_name_is_valid : Bytes → Bool
unfolding is_reserved has_special_chars
tunnel_name_is_valid name =
    if is_reserved name || has_special_chars name then false else allowed_name_format name

-- A run of digits that fits an `int` is a number, with an empty `maybe_string`.
pub record NaturalSortToken : Type 0 where
  pub maybe_string : Bytes
  pub maybe_number : ℕ

abbrev first_run : ℕ → List Bytes → List Bytes
first_run x [] = (x ∷ []) ∷ []
first_run x ([] ∷ rs) = (x ∷ []) ∷ rs
first_run x ((y ∷ r) ∷ rs) =
    if is_digit x && is_digit y || not (is_digit x) && not (is_digit y)
    then (x ∷ y ∷ r) ∷ rs
    else (x ∷ []) ∷ (y ∷ r) ∷ rs

-- `FindAllString` of `\d+|\D+`
runs : Bytes → List Bytes
runs [] = []
runs (x ∷ xs) = first_run x (runs xs)

token : Bytes → NaturalSortToken
token run = elim (atoi run) [
  | some (pos n) ↦ record { maybe_string = []; maybe_number = n }
  | _ ↦ record { maybe_string = run; maybe_number = 0 }
]

-- the tokens of `newNaturalSortString`
natural_tokens : (ℕ → ℕ) → Bytes → List NaturalSortToken
unfolding runs token fields join to_lower atoi
natural_tokens lower s = map token (runs (to_lower lower (join (codes " ") (fields s))))

-- `Cmp`, with an `Ordering` for -1, 0 and 1
pub cmp : NaturalSortToken → NaturalSortToken → Ordering
cmp f1 f2 =
    if is_empty f1.maybe_string
    then if not (is_empty f2.maybe_string) || ltb f1.maybe_number f2.maybe_number
      then Ordering.lt
      else if ltb f2.maybe_number f1.maybe_number
      then Ordering.gt
      else Ordering.eq
    else if is_empty f2.maybe_string || is_gt (compare_bytes f1.maybe_string f2.maybe_string)
    then Ordering.gt
    else if is_lt (compare_bytes f1.maybe_string f2.maybe_string)
    then Ordering.lt
    else Ordering.eq

-- the loop over the tokens of `b`
pub tokens_less : List NaturalSortToken → List NaturalSortToken → Bool
tokens_less a [] = false
tokens_less [] (t ∷ b) = true
tokens_less (s ∷ a) (t ∷ b) = elim (cmp s t) [
  | Ordering.lt ↦ true
  | Ordering.gt ↦ false
  | Ordering.eq ↦ tokens_less a b
]

unfoldable pub tunnel_name_is_less : (ℕ → ℕ) → Bytes → Bytes → Bool
unfolding natural_tokens tokens_less cmp compare_bytes equal
tunnel_name_is_less lower a b =
    if equal a b then false else tokens_less (natural_tokens lower a) (natural_tokens lower b)
