-- ===== src/Smart/Values.antt =====
-- client/smart/settings.go: the values of a user's rules, with `none` for the errors. What these
-- take from other packages is the interface `Normalizers`.
-- `hostname` is what `url.Parse` and `Hostname` make of a text, none on an error or with a user;
-- `to_ascii` is `idna.Lookup.ToASCII`; `clean`, `base` and `extension` are `filepath.Clean`, `Base`
-- and `Ext`; `masked` is the network of `net.ParseCIDR` as a text; `catalog` is
-- `verifiedSettingsCatalog`.
pub mod Laws
use pinus_smart_awg.Common.{
  Bool, List, Option, [], false, if◌then◌else◌, is_empty, length, ltb, none, not, reverse, some,
  true, ℕ, ◌++◌, ◌==◌, ◌||◌, ◌∷◌,
}
use pinus_smart_awg.Smart.{Service}
use pinus_smart_awg.Text.{Bytes, codes}
use pinus_smart_awg.Text.Case.{to_lower}
use pinus_smart_awg.Text.Ip.{ip_string, parse_ip, to_4}
use pinus_smart_awg.Text.Search.{contains, contains_any, has_suffix, trim_prefix, trim_suffix}
use pinus_smart_awg.Text.Trim.{trim_space}

pub record Normalizers : Type 0 where
  pub lower : ℕ → ℕ
  pub hostname : Bytes → Option Bytes
  pub to_ascii : Bytes → Option Bytes
  pub clean : Bytes → Bytes
  pub base : Bytes → Bytes
  pub extension : Bytes → Bytes
  pub equal_fold : Bytes → Bytes → Bool
  pub masked : Bytes → Option Bytes
  pub catalog : Bytes → Option (List Service)

abbrev pub is_found {ℓ} : {A : Type ℓ} → Option A → Bool
is_found none = false
is_found (some a) = true

-- the checks of a name that is in ASCII
abbrev pub checked_host : Option Bytes → Option Bytes
checked_host none = none
checked_host (some h) =
    if is_empty h || (ltb 253 (length h) || (not (contains h (codes ".")) || is_found (parse_ip h)))
    then none
    else some h

abbrev pub ascii_host : Normalizers → Option Bytes → Option Bytes
ascii_host n none = none
ascii_host n (some h) =
    if is_empty h
    then none
    else checked_host
        (n.to_ascii (trim_prefix (trim_suffix (to_lower n.lower h) (codes ".")) (codes "*.")))

unfoldable pub normalize_domain : Normalizers → Bytes → Option Bytes
unfolding trim_space trim_prefix trim_suffix contains to_lower parse_ip
normalize_domain n value =
    let t = trim_prefix (trim_space value) (codes "*.") in
    if is_empty t
    then none
    else ascii_host n (n.hostname (if contains t (codes "://") then t else codes "//" ++ t))

abbrev with_bits : Bytes → Bytes
with_bits ip = ip_string ip ++ (if is_found (to_4 ip) then codes "/32" else codes "/128")

abbrev network_of : Normalizers → Bytes → Option Bytes → Option Bytes
network_of n t none = n.masked t
network_of n t (some ip) = some (with_bits ip)

unfoldable pub normalize_cidr : Normalizers → Bytes → Option Bytes
unfolding trim_space parse_ip ip_string to_4
normalize_cidr n value = let t = trim_space value in network_of n t (parse_ip t)

pub drop_quotes : Bytes → Bytes
drop_quotes [] = []
drop_quotes (c ∷ cs) = let rest = drop_quotes cs in if c == b'"' then rest else c ∷ cs

unfoldable pub normalize_application : Normalizers → Bytes → Option Bytes
unfolding trim_space drop_quotes contains_any has_suffix to_lower
normalize_application n value =
    let t = reverse (drop_quotes (reverse (drop_quotes (trim_space value)))) in
    let file = n.clean t in
    let name = n.base t in
    if is_empty t || contains_any (codes "\r\n") t
    then none
    else if contains_any (codes "\\/:") t
    then (if n.equal_fold (n.extension file) (codes ".exe") then some file else none)
    else some
        (if has_suffix (to_lower n.lower name) (codes ".exe") then name else name ++ codes ".exe")
