-- ===== src/Smart/Settings.antt =====
-- client/smart/settings.go: modes and the normalisation of settings. The values of
-- rules are in Smart/Values.
pub mod Laws
use pinus_smart_awg.Common.{
  Bool, List, Option, Result, [], all, false, if◌then◌else◌, is_empty, length, ltb, none, not,
  of_option, ok, refuse_if, some, true, ℕ, ◌&&◌, ◌++◌, ◌+◌, ◌==◌, ◌>>=◌, ◌>>◌, ◌||◌, ◌∷◌,
}
use pinus_smart_awg.Conf.Name.{tunnel_name_is_valid}
use pinus_smart_awg.Smart.{
  CustomRule, Mode, RouteTarget, RoutingSettings, RuleKind, Service, items, member, mode_all,
  mode_bypass, mode_native, mode_selected, mode_social, rule_application, rule_cidr, rule_domain,
  rule_unknown, target_unknown,
}
use pinus_smart_awg.Smart.Catalog.{ai_service_id, builtin_service_catalog, service_ids}
use pinus_smart_awg.Smart.Values.{
  Normalizers, normalize_application, normalize_cidr, normalize_domain,
}
use pinus_smart_awg.Text.{Bytes, codes, equal}
use pinus_smart_awg.Text.Case.{to_lower}
use pinus_smart_awg.Text.Number.{itoa, negsuc, pos, ℤ}
use pinus_smart_awg.Text.Trim.{trim_space}

pub data SettingsError : Type 0 where
  unsupported_version unknown_protection too_many_fallbacks bad_fallback_name : SettingsError
  bad_catalog : SettingsError
  bad_rule : ℕ → SettingsError

abbrev pub settings_version : ℕ
settings_version = 5

unfoldable pub normalize_mode : (ℕ → ℕ) → Bytes → Mode
unfolding equal
normalize_mode lower m =
    let t = to_lower lower (trim_space m) in
    if equal t mode_selected || equal t mode_social
    then mode_selected
    else if equal t mode_bypass
    then mode_all
    else if equal t mode_native
    then mode_selected
    else mode_all

abbrev legacy_default_service_ids : List Bytes
legacy_default_service_ids =
    codes "discord" ∷ codes "youtube" ∷ codes "telegram" ∷ codes "instagram" ∷ []

-- the names met, once each, or `none` at one that is not wanted
pub collect : (ℕ → ℕ) → List Bytes → List Bytes → List Bytes → Option (List Bytes)
collect lower wanted seen [] = some seen
collect lower wanted seen (v ∷ vs) =
    let t = to_lower lower (trim_space v) in
    let rest = collect lower wanted (if member t seen then seen else t ∷ seen) vs in
    if member t wanted then rest else none

-- `selectedExactlyMatches`, for an `expected` without repetition
unfoldable pub selected_exactly_matches : (ℕ → ℕ) → List Bytes → List Bytes → Bool
unfolding collect member
selected_exactly_matches lower values expected = elim (collect lower expected [] values) [
  | none ↦ false
  | some seen ↦ length seen == length expected
]

-- the loop over `SelectedApps`: known names in lower case, once each, in order
unfoldable pub keep_known : (ℕ → ℕ) → List Bytes → List Bytes → List Bytes → List Bytes
unfolding member
keep_known lower known seen [] = []
keep_known lower known seen (v ∷ vs) =
    let t = to_lower lower (trim_space v) in
    let kept = t ∷ keep_known lower known (t ∷ seen) vs in
    let dropped = keep_known lower known seen vs in
    if member t known && not (member t seen) then kept else dropped

abbrev pub is_unknown_target : RouteTarget → Bool
is_unknown_target (target_unknown t) = true
is_unknown_target _ = false

abbrev pub rule_value : Normalizers → RuleKind → Bytes → Option Bytes
rule_value n rule_application v = normalize_application n v
rule_value n rule_domain v = normalize_domain n v
rule_value n rule_cidr v = normalize_cidr n v
rule_value n (rule_unknown k) v = none

-- the rest of `CustomRule.normalized`, for a normalised value
abbrev pub finished_rule : CustomRule → ℕ → Option Bytes → Option CustomRule
finished_rule r index none = none
finished_rule r index (some value) =
    let id = trim_space r.id in
    let name = trim_space r.name in
    if is_unknown_target r.target
    then none
    else some (record r {
      id = if is_empty id then codes "rule-" ++ itoa (index + 1) else id;
      name = if is_empty name then value else name;
      value = value;
    })

-- `CustomRule.normalized`
unfoldable pub normalized_rule : Normalizers → CustomRule → ℕ → Option CustomRule
normalized_rule n r index = finished_rule r index (rule_value n r.kind r.value)

-- An identifier that an earlier rule has gets the number of the rule.
abbrev pub fresh_id : List Bytes → Bytes → ℕ → Bytes
fresh_id ids id number = if member id ids then id ++ b'-' ∷ itoa number else id

-- the loop over `CustomRules`; `number` is `i + 1`
unfoldable pub normalized_rules :
    Normalizers → List Bytes → ℕ → List CustomRule → Result SettingsError (List CustomRule)
unfolding normalized_rule
normalized_rules n ids index [] = ok []
normalized_rules n ids index (r ∷ rs) = do
  t ← of_option (bad_rule (index + 1)) (normalized_rule n r index)
  let id = fresh_id ids t.id (index + 1)
  rest ← normalized_rules n (id ∷ ids) (index + 1) rs
  ok (record t { id = id } ∷ rest)

-- `verifiedSettingsCatalog`: no envelope means the built-in catalog
abbrev pub settings_catalog : Normalizers → Bytes → Option (List Service)
settings_catalog n [] = some builtin_service_catalog
settings_catalog n (c ∷ cs) = n.catalog (c ∷ cs)

abbrev pub is_newer : ℤ → Bool
is_newer (pos v) = ltb settings_version v
is_newer (negsuc v) = false

abbrev is_unversioned : ℤ → Bool
is_unversioned (pos v) = v == 0
is_unversioned (negsuc v) = false

abbrev is_older : ℤ → Bool
is_older (pos v) = ltb 0 v && ltb v settings_version
is_older (negsuc v) = false

abbrev is_nil {ℓ} : {A : Type ℓ} → Option A → Bool
is_nil none = true
is_nil (some a) = false

-- The selection before it is checked against the catalog. `default_ids` is `DefaultServiceIDs()`.
abbrev pub migrated_apps : (ℕ → ℕ) → List Bytes → RoutingSettings → List Bytes
migrated_apps lower default_ids s =
    let legacy = equal s.mode mode_social || equal s.mode mode_native in
    let apps = items s.selected_apps in
    if is_unversioned s.version && (is_nil s.selected_apps || legacy)
    then default_ids
    else if is_older s.version && selected_exactly_matches lower apps legacy_default_service_ids
    then apps ++ ai_service_id ∷ []
    else apps

unfoldable pub normalized :
    Normalizers → List Bytes → RoutingSettings → Result SettingsError RoutingSettings
unfolding normalized_rules keep_known selected_exactly_matches
normalized n default_ids s = do
  refuse_if (is_newer s.version) unsupported_version
  refuse_if (not (is_empty s.protection) && not (equal s.protection (codes "all")))
      unknown_protection
  refuse_if (ltb 8 (length s.fallback_profiles)) too_many_fallbacks
  refuse_if (not (all tunnel_name_is_valid s.fallback_profiles)) bad_fallback_name
  services ← of_option bad_catalog (settings_catalog n s.catalog_envelope)
  let apps = keep_known n.lower (service_ids services) [] (migrated_apps n.lower default_ids s)
  rules ← normalized_rules n [] 0 s.custom_rules
  ok (record s {
    mode = normalize_mode n.lower s.mode;
    version = pos settings_version;
    selected_apps = some apps;
    custom_rules = rules;
  })
