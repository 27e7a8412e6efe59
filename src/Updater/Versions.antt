-- ===== src/Updater/Versions.antt =====
-- client/updater/versions.go: whether an installer on offer is newer than this program.
pub mod Laws
use pinus_smart_awg.Common.{
  Bool, List, Option, Result, [], false, if◌then◌else◌, is_empty, length, ltb, none, of_option, ok,
  refuse_if, some, ℕ, ◌&&◌, ◌++◌, ◌==◌, ◌>>=◌, ◌>>◌, ◌∷◌,
}
use pinus_smart_awg.Text.{Bytes, codes}
use pinus_smart_awg.Text.Number.{parse_uint}
use pinus_smart_awg.Text.Search.{has_prefix, has_suffix, split, trim_prefix, trim_suffix}

pub data VersionError : Type 0 where
  empty_part : VersionError
  invalid_part : VersionError
  version_too_long : VersionError

abbrev dot : ℕ
dot = 46

-- one part between the dots
unfoldable pub version_part : Bytes → Result VersionError ℕ
version_part s = refuse_if (is_empty s) empty_part >> of_option invalid_part (parse_uint 16 s)

-- the rest of the loop, unless two parts differ
abbrev pub decide_part : Result VersionError Bool → ℕ → ℕ → Result VersionError Bool
decide_part rest c o = if c == o then rest else ok (ltb o c)

-- The loop over the parts of the candidate and of this program; a part that is not there is 0.
unfoldable pub compare_parts : List Bytes → List Bytes → Result VersionError Bool
compare_parts [] [] = ok false
compare_parts (c ∷ cs) [] = version_part c >>= λ x. decide_part (compare_parts cs []) x 0
compare_parts [] (o ∷ os) = version_part o >>= λ y. decide_part (compare_parts [] os) 0 y
compare_parts (c ∷ cs) (o ∷ os) =
    version_part c >>= λ x. version_part o >>= λ y. decide_part (compare_parts cs os) x y

-- `ours` is `version.Number`.
unfoldable pub version_newer_than : Bytes → Bytes → Result VersionError Bool
version_newer_than ours candidate = compare_parts (split dot candidate) (split dot ours)

-- A name of the list with its hash.
abbrev pub UpdateFound : Type 0
UpdateFound = Bytes × Bytes

abbrev pub msi_suffix : Bytes
msi_suffix = codes ".msi"

abbrev msi_arch_start : Bytes
msi_arch_start = codes "wireguard-"

-- `fmt.Sprintf(msiArchPrefix, arch)`
abbrev pub msi_arch_prefix : Bytes → Bytes
msi_arch_prefix arch = msi_arch_start ++ (arch ++ codes "-")

abbrev pub is_installer : Bytes → Bytes → Bool
is_installer arch name = has_prefix name (msi_arch_prefix arch) && has_suffix name msi_suffix

unfoldable pub installer_version : Bytes → Bytes → Bytes
installer_version arch name = trim_suffix (trim_prefix name (msi_arch_prefix arch)) msi_suffix

unfoldable pub is_newer_installer : Bytes → Bytes → Bytes → Result VersionError Bool
is_newer_installer ours arch name =
    if is_installer arch name
    then (refuse_if (ltb 128 (length (installer_version arch name))) version_too_long
        >> version_newer_than ours (installer_version arch name))
    else ok false

-- the loop over the list, in the order in which the map is visited
unfoldable pub find_candidate :
    Bytes → Bytes → List UpdateFound → Result VersionError (Option UpdateFound)
find_candidate ours arch [] = ok none
find_candidate ours arch (found ∷ rest) =
    let later = find_candidate ours arch rest in
    is_newer_installer ours arch found.0 >>= λ newer. if newer then ok (some found) else later
