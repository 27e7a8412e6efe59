-- ===== src/Conf/Range.antt =====
-- `ParseAWGRange` and `ParseAWGBool` of core/conf/awg_validation.go, `boolToUAPI` and
-- `boolFromUAPI` of core/conf/writer.go.
pub mod Laws
use pinus_smart_awg.Common.{
  Bool, List, Option, Result, [], all, err, false, if◌then◌else◌, ltb, none, of_option, ok, some,
  true, ℕ, ◌>>=◌, ◌∷◌,
}
use pinus_smart_awg.Text.{Bytes, codes, is_digit, one_of}
use pinus_smart_awg.Text.Case.{to_lower}
use pinus_smart_awg.Text.Number.{parse_uint}
use pinus_smart_awg.Text.Search.{split}
use pinus_smart_awg.Text.Trim.{trim_space}

pub data RangeError : Type 0 where
  bad_shape empty_boundary not_decimal too_large inverted : RangeError

-- the body of the loop over the parts
range_bound : ℕ → Bytes → Result RangeError ℕ
range_bound bits [] = err empty_boundary
range_bound bits (c ∷ cs) =
    if all is_digit (c ∷ cs)
    then of_option too_large (parse_uint bits (c ∷ cs))
    else err not_decimal

range_parts : ℕ → List Bytes → Result RangeError (ℕ × ℕ)
unfolding range_bound
range_parts bits (p ∷ []) = do lo ← range_bound bits p; ok (lo, lo)
range_parts bits (p ∷ q ∷ []) = do
  lo ← range_bound bits p
  hi ← range_bound bits q
  if ltb hi lo then err inverted else ok (lo, hi)
range_parts bits _ = err bad_shape

unfoldable pub parse_awg_range : Bytes → ℕ → Result RangeError (ℕ × ℕ)
unfolding range_parts split
parse_awg_range value bits = range_parts bits (split b'-' value)

abbrev on_words : List Bytes
on_words = codes "on" ∷ codes "true" ∷ codes "1" ∷ codes "yes" ∷ codes "t" ∷ []

abbrev off_words : List Bytes
off_words = codes "off" ∷ codes "false" ∷ codes "0" ∷ codes "no" ∷ codes "f" ∷ []

-- `none` is the error
unfoldable pub parse_awg_bool : (ℕ → ℕ) → Bytes → Option Bool
unfolding one_of to_lower
parse_awg_bool lower value =
    if one_of (to_lower lower value) on_words
    then some true
    else if one_of (to_lower lower value) off_words
    then some false
    else none

unfoldable pub bool_to_uapi : (ℕ → ℕ) → Bytes → Bytes
unfolding one_of to_lower trim_space
bool_to_uapi lower v =
    if one_of (to_lower lower (trim_space v)) on_words then codes "1" else codes "0"

unfoldable pub bool_from_uapi : (ℕ → ℕ) → Bytes → Bytes
unfolding one_of to_lower trim_space
bool_from_uapi lower v =
    if one_of (to_lower lower (trim_space v)) on_words then codes "on" else codes "off"
