-- ===== src/Smart/Settings/Laws.antt =====
-- The settings that `Normalized` of client/smart/settings.go returns.
use pinus_smart_awg.Common.{
  All, All-weaken, Bool, Ensures, Ensures-bind, Ensures-of_option, Ensures-ok, IfSome, IfSome-any,
  IfSome-if, IfSome-some, List, Option, [], all, all-All, and_true, arith, bind-eq-ok, false,
  if◌then◌else◌, inl, inr, is_empty, length, ltb, ltb-false→le, none, not, not-false, of_option,
  of_option-eq-ok, ok, refl, refuse_if, refuse_if-eq-ok, some, subst, true, ℕ, ◌&&◌, ◌+◌, ◌||◌, ◌∷◌,
  ◌≡◌, ◌≤◌, ◌⊎◌,
}
use pinus_smart_awg.Conf.Name.{tunnel_name_is_valid}
use pinus_smart_awg.Smart.{
  CustomRule, RoutingSettings, RuleKind, Service, items, member, mode_all, mode_bypass, mode_native,
  mode_selected, mode_social, rule_application, rule_cidr, rule_domain, rule_unknown,
}
use pinus_smart_awg.Smart.Catalog.{service_ids}
use pinus_smart_awg.Smart.Settings.{
  bad_catalog, bad_fallback_name, bad_rule, finished_rule, fresh_id, is_newer, is_unknown_target,
  keep_known, migrated_apps, normalize_mode, normalized, normalized_rule, normalized_rules,
  rule_value, settings_catalog, settings_version, too_many_fallbacks, unknown_protection,
  unsupported_version,
}
use pinus_smart_awg.Smart.Values.{Normalizers, normalize_application, normalize_cidr}
use pinus_smart_awg.Smart.Values.Laws.{AreStoredRules, IsStoredRule, normalize_domain-IsStored}
use pinus_smart_awg.Text.{Bytes, codes, equal, equal_iff}
use pinus_smart_awg.Text.Case.{to_lower}
use pinus_smart_awg.Text.Number.{pos}
use pinus_smart_awg.Text.Trim.{trim_space}

abbrev pub Distinct : List Bytes → Type 0
Distinct [] = Unit
Distinct (x ∷ xs) = (member x xs ≡ false) × Distinct xs

member-cons : (s t : Bytes) (ts : List Bytes) → member s (t ∷ ts) ≡ (equal t s || member s ts)
unfolding member
member-cons s t ts = go (equal t s)
  where
    go : (b : Bool) → elim b [ true ↦ true | false ↦ member s ts ] ≡ (b || member s ts)
    go true = refl
    go false = refl

not-member : (t : Bytes) (xs : List Bytes) → All (λ a. equal t a ≡ false) xs → member t xs ≡ false
unfolding member
not-member t [] h = refl
not-member t (x ∷ xs) h =
    rw member-cons (ground (arith, not-member t xs h.1, h.0, equal_iff x t, equal_iff t x))

if-Holds {ℓ κ} :
    {A : Type ℓ} (P : A → Type κ) (b : Bool) {x y : A}
    → (b ≡ true → P x)
    → P y
    → P (if b then x else y)
if-Holds P true h k = h refl
if-Holds P false h k = k

keep_known-All :
    (lower : ℕ → ℕ) (known seen vs : List Bytes)
    → All (λ a. (member a known ≡ true) × (member a seen ≡ false)) (keep_known lower known seen vs)
unfolding keep_known
keep_known-All lower known seen [] = tt
keep_known-All lower known seen (v ∷ vs) =
    let t = to_lower lower (trim_space v) in
    if-Holds (All (λ a. (member a known ≡ true) × (member a seen ≡ false)))
      (member t known && not (member t seen))
      (λ h.
        let (inside, new) = and_true (member t known) (not (member t seen)) h in
        (
          (inside, ground (arith, new)),
          All-weaken (λ a k. (k.0, ground (arith, member-cons a t seen, k.1)))
              (keep_known lower known (t ∷ seen) vs) (keep_known-All lower known (t ∷ seen) vs),
        ))
      (keep_known-All lower known seen vs)

keep_known-Distinct :
    (lower : ℕ → ℕ) (known seen vs : List Bytes) → Distinct (keep_known lower known seen vs)
unfolding keep_known
keep_known-Distinct lower known seen [] = tt
keep_known-Distinct lower known seen (v ∷ vs) =
    let t = to_lower lower (trim_space v) in
    if-Holds Distinct (member t known && not (member t seen))
      (λ h. (
        not-member t (keep_known lower known (t ∷ seen) vs) (
            All-weaken (λ a k. ground (arith, member-cons a t seen, k.1))
              (keep_known lower known (t ∷ seen) vs) (keep_known-All lower known (t ∷ seen) vs)),
        keep_known-Distinct lower known (t ∷ seen) vs,
      ))
      (keep_known-Distinct lower known seen vs)

normalize_mode-cases :
    (lower : ℕ → ℕ) (m : Bytes)
    → (normalize_mode lower m ≡ mode_all) ⊎ (normalize_mode lower m ≡ mode_selected)
unfolding normalize_mode
normalize_mode-cases lower m =
    let t = to_lower lower (trim_space m) in
    go (equal t mode_selected || equal t mode_social) (equal t mode_bypass) (equal t mode_native)
  where
    go :
        (a b c : Bool)
        → ((if a
              then mode_selected
              else if b
              then mode_all
              else if c
              then mode_selected
              else mode_all)
            ≡ mode_all)
          ⊎ ((if a
                then mode_selected
                else if b
                then mode_all
                else if c
                then mode_selected
                else mode_all)
              ≡ mode_selected)
    go true b c = inr refl
    go false true c = inl refl
    go false false true = inr refl
    go false false false = inl refl

rule_value-known :
    (n : Normalizers) (kind : RuleKind) (v : Bytes)
    → IfSome (IsStoredRule kind) (rule_value n kind v)
rule_value-known n rule_application v = IfSome-any (normalize_application n v)
rule_value-known n rule_domain v = normalize_domain-IsStored n v
rule_value-known n rule_cidr v = IfSome-any (normalize_cidr n v)
rule_value-known n (rule_unknown k) v = tt

normalized_rule-known :
    (n : Normalizers) (r : CustomRule) (index : ℕ)
    → IfSome (λ t. IsStoredRule t.kind t.value) (normalized_rule n r index)
unfolding normalized_rule
normalized_rule-known n r index =
    go (rule_value n r.kind r.value) (rule_value-known n r.kind r.value)
  where
    go :
        (o : Option Bytes)
        → IfSome (IsStoredRule r.kind) o
        → IfSome (λ t. IsStoredRule t.kind t.value) (finished_rule r index o)
    go none k = tt
    go (some v) k =
        IfSome-if (λ t. IsStoredRule t.kind t.value) (is_unknown_target r.target) none _ tt k

normalized_rules-known :
    (n : Normalizers) (ids : List Bytes) (index : ℕ) (rs : List CustomRule)
    → Ensures (AreStoredRules) (normalized_rules n ids index rs)
unfolding normalized_rules
normalized_rules-known n ids index [] = tt
normalized_rules-known n ids index (r ∷ rs) =
    Ensures-bind (λ t. IsStoredRule t.kind t.value) (AreStoredRules)
      (of_option (bad_rule (index + 1)) (normalized_rule n r index)) _
      (Ensures-of_option (λ t. IsStoredRule t.kind t.value) _ (normalized_rule n r index)
        (λ t e. IfSome-some (λ u. IsStoredRule u.kind u.value) (normalized_rule-known n r index) e))
      (λ t k.
        let id = fresh_id ids t.id (index + 1) in
        Ensures-bind (AreStoredRules) (AreStoredRules)
          (normalized_rules n (id ∷ ids) (index + 1) rs) _
          (normalized_rules-known n (id ∷ ids) (index + 1) rs) (λ rest j. (k, j)))

-- Settings in the current form, for a catalog that is verified.
pub record IsNormal (n : Normalizers) (t : RoutingSettings) : Type 0 where
  pub current : t.version ≡ pos settings_version
  pub known_mode : (t.mode ≡ mode_all) ⊎ (t.mode ≡ mode_selected)
  pub few_fallbacks : length t.fallback_profiles ≤ 8
  pub valid_fallbacks : All (λ f. tunnel_name_is_valid f ≡ true) t.fallback_profiles
  pub services : List Service
  pub catalog : settings_catalog n t.catalog_envelope ≡ some services
  pub known_apps : All (λ a. member a (service_ids services) ≡ true) (items t.selected_apps)
  pub distinct_apps : Distinct (items t.selected_apps)
  pub known_rules : AreStoredRules t.custom_rules

-- Settings that are normalised without an error have the current version; a mode that is `all` or
-- `selected`; at most eight fallback profiles, with valid names; services of the verified catalog,
-- each once; and rules of known kinds, whose domains are not empty, have at most 253 bytes, hold a
-- dot and are no IP addresses.
pub normalized-IsNormal :
    (n : Normalizers) (default_ids : List Bytes) (s : RoutingSettings) {t : RoutingSettings}
    → normalized n default_ids s ≡ ok t
    → IsNormal n t
unfolding normalized
normalized-IsNormal n default_ids s {t} h =
    let (_, _, g1) = bind-eq-ok (refuse_if (is_newer s.version) unsupported_version) _ h in
    let (_, _, g2) =
      bind-eq-ok
        (refuse_if (not (is_empty s.protection) && not (equal s.protection (codes "all")))
          unknown_protection)
        _ g1 in
    let (_, few, g3) =
      bind-eq-ok (refuse_if (ltb 8 (length s.fallback_profiles)) too_many_fallbacks) _ g2 in
    let (_, named, g4) =
      bind-eq-ok (refuse_if (not (all tunnel_name_is_valid s.fallback_profiles)) bad_fallback_name)
        _ g3 in
    let (services, verified, g5) =
      bind-eq-ok (of_option bad_catalog (settings_catalog n s.catalog_envelope)) _ g4 in
    let apps = migrated_apps n.lower default_ids s in
    let (rules, ruled, g6) = bind-eq-ok (normalized_rules n [] 0 s.custom_rules) _ g5 in
    let normal : RoutingSettings = record s {
      mode = normalize_mode n.lower s.mode;
      version = pos settings_version;
      selected_apps = some (keep_known n.lower (service_ids services) [] apps);
      custom_rules = rules;
    } in
    let same : normal ≡ t = cc g6 in
    subst (IsNormal n) same (record {
      current = refl;
      known_mode = normalize_mode-cases n.lower s.mode;
      few_fallbacks = ltb-false→le 8 _ (refuse_if-eq-ok _ _ few);
      valid_fallbacks =
          all-All tunnel_name_is_valid s.fallback_profiles
            (not-false _ (refuse_if-eq-ok _ _ named));
      services = services;
      catalog = of_option-eq-ok bad_catalog _ verified;
      known_apps =
          All-weaken (λ a k. k.0) _ (keep_known-All n.lower (service_ids services) [] apps);
      distinct_apps = keep_known-Distinct n.lower (service_ids services) [] apps;
      known_rules =
          Ensures-ok (AreStoredRules) (normalized_rules-known n [] 0 s.custom_rules) ruled;
    })
