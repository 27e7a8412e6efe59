-- ===== src/Smart.antt =====
-- The data of client/smart: routing settings, custom rules and services. A `Mode` is the text that
-- the settings file holds; a Go map is an association list.
pub mod Catalog
pub mod Values
pub mod Settings
pub mod Regional
pub mod Rules
pub mod Explain
pub mod Dns
pub mod Profile
pub mod Build
use pinus_smart_awg.Common.{
  Bool, List, Option, [], arith, false, if◌then◌else◌, none, some, true, ◌∷◌, ◌≡◌,
}
use pinus_smart_awg.Text.{Bytes, codes, equal, equal_iff}
use pinus_smart_awg.Text.Number.{ℤ}

abbrev pub Mode : Type 0
Mode = Bytes

abbrev pub mode_all : Mode
mode_all = codes "all"

abbrev pub mode_selected : Mode
mode_selected = codes "selected"

abbrev pub mode_bypass : Mode
mode_bypass = codes "bypass"

abbrev pub mode_native : Mode
mode_native = codes "native"

abbrev pub mode_social : Mode
mode_social = codes "social"

pub data RuleKind : Type 0 where
  rule_application rule_domain rule_cidr : RuleKind
  rule_unknown : Bytes → RuleKind

pub data RouteTarget : Type 0 where
  target_vpn target_direct : RouteTarget
  target_unknown : Bytes → RouteTarget

pub record CustomRule : Type 0 where
  pub id : Bytes
  pub name : Bytes
  pub kind : RuleKind
  pub value : Bytes
  pub target : RouteTarget
  pub enabled : Bool

pub record RoutingSettings : Type 0 where
  pub service_routes : List (Bytes × List (Bytes × Bool))
  pub catalog_envelope : Bytes
  pub fallback_profiles : List Bytes
  pub protection : Bytes
  pub version : ℤ
  pub mode : Mode
  pub selected_apps : Option (List Bytes)
  pub custom_rules : List CustomRule

-- a nil slice is empty
abbrev pub items {ℓ} : {A : Type ℓ} → Option (List A) → List A
items none = []
items (some xs) = xs

pub record Service : Type 0 where
  pub id : Bytes
  pub name : Bytes
  pub process_names : List Bytes
  pub domains : List Bytes
  pub domain_suffixes : List Bytes

-- `m[key]` and `m[key] = value` on a map
module _ {ℓ} {V : Type ℓ} where
  pub lookup : Bytes → List (Bytes × V) → Option V
  unfolding equal
  lookup k [] = none
  lookup k ((j, v) ∷ m) = elim (equal j k) [ true ↦ some v | false ↦ lookup k m ]

  unfoldable pub insert : Bytes → V → List (Bytes × V) → List (Bytes × V)
  unfolding equal
  insert k v [] = (k, v) ∷ []
  insert k v ((j, w) ∷ m) =
      let rest = insert k v m in if equal j k then (k, v) ∷ m else (j, w) ∷ rest

  pub lookup-insert :
      (k j : Bytes) (v : V) (m : List (Bytes × V))
      → lookup j (insert k v m) ≡ (if equal k j then some v else lookup j m)
  unfolding lookup insert
  lookup-insert k j v [] = ground arith
  lookup-insert k j v ((i, w) ∷ m) =
      ground (arith, equal_iff k j, equal_iff i k, equal_iff i j, lookup-insert k j v m)

-- membership in a set of names
pub member : Bytes → List Bytes → Bool
unfolding equal
member s [] = false
member s (t ∷ ts) = elim (equal t s) [ true ↦ true | false ↦ member s ts ]
