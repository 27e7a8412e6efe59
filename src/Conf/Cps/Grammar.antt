-- ===== src/Conf/Cps/Grammar.antt =====
-- The grammar of the descriptions that `ValidateCPS` of core/conf/awg_validation.go reads,
-- independently of how it reads them.
use pinus_smart_awg.Common.{List, [], length, some, ℕ, ◌++◌, ◌<◌, ◌∷◌, ◌≡◌}
use pinus_smart_awg.Conf.Cps.{CpsTag, filler, payload, raw, stamp}
use pinus_smart_awg.Conf.Range.Laws.{IsBound}
use pinus_smart_awg.Text.{Bytes, codes}
use pinus_smart_awg.Text.Hex.{from_hex}
use pinus_smart_awg.Text.Search.{Free, trim_prefix}
use pinus_smart_awg.Text.Trim.{fields, trim_space}

-- the names of the tags of a given length
pub data IsFiller : Bytes → Type 0 where
  random_bytes : IsFiller (codes "r")
  random_letters : IsFiller (codes "rc")
  random_digits : IsFiller (codes "rd")
  size_field : IsFiller (codes "dz")

pub data IsPayload : Bytes → Type 0 where
  data_bytes : IsPayload (codes "d")
  data_text : IsPayload (codes "ds")

-- A name with its argument, which is empty if there is none: a length is one decimal number of 16
-- bits; bytes are pairs of hexadecimal digits, perhaps behind `0x`; the others have no argument.
pub data Means : Bytes → Bytes → CpsTag → Type 0 where
  filled : {word arg : Bytes} {n : ℕ} → IsFiller word → IsBound 16 arg n → Means word arg (filler n)
  hex_given :
      {arg bs : Bytes}
      → from_hex (trim_prefix arg (codes "0x")) ≡ some bs
      → 0 < length bs
      → Means (codes "b") arg (raw (length bs))
  timed : Means (codes "t") [] stamp
  carried : {word : Bytes} → IsPayload word → Means word [] payload

-- the words between the brackets
pub data AreWords : List Bytes → CpsTag → Type 0 where
  alone : {word : Bytes} {tag : CpsTag} → Means word [] tag → AreWords (word ∷ []) tag
  both : {word arg : Bytes} {tag : CpsTag} → Means word arg tag → AreWords (word ∷ arg ∷ []) tag

-- An element in angle brackets, and the text behind it without blanks at its ends.
pub data IsElement : Bytes → CpsTag → Bytes → Type 0 where
  bracketed :
      (inside behind : Bytes) {tag : CpsTag}
      → Free b'>' inside
      → AreWords (fields inside) tag
      → IsElement (b'<' ∷ (inside ++ b'>' ∷ behind)) tag (trim_space behind)

-- The text is a sequence of elements with these tags.
pub data Reads : Bytes → List CpsTag → Type 0 where
  nothing : Reads [] []
  one_more :
      {s rest : Bytes} {tag : CpsTag} {tags : List CpsTag}
      → IsElement s tag rest
      → Reads rest tags
      → Reads s (tag ∷ tags)
