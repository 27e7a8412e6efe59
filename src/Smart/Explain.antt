-- ===== src/Smart/Explain.antt =====
-- client/smart/explain.go: the expected route of a connection, from normalised settings. A query is
-- what its application, domain and address answer: whether a process has a name or a path
-- (`EqualFold` of `filepath.Base` and `Clean`), and whether a network contains the address.
pub mod Engine
pub mod Segments
pub mod Merged
pub mod Fallback
pub mod Catalogs
pub mod Agreement
use pinus_smart_awg.Common.{
  Bool, List, Option, [], any, false, if◌then◌else◌, is_empty, not, ℕ, ◌&&◌, ◌++◌, ◌||◌, ◌∷◌,
}
use pinus_smart_awg.Smart.{
  CustomRule, RouteTarget, RoutingSettings, RuleKind, Service, mode_selected, rule_application,
  rule_cidr, rule_domain, rule_unknown, target_direct, target_vpn,
}
use pinus_smart_awg.Smart.Catalog.{utf8}
use pinus_smart_awg.Smart.Regional.{regional_services, service_uses_vpn}
use pinus_smart_awg.Smart.Rules.{dotted, is_path, local_cidrs, root_of}
use pinus_smart_awg.Text.{Bytes, codes, equal}
use pinus_smart_awg.Text.Case.{to_lower}
use pinus_smart_awg.Text.Search.{has_suffix, trim_suffix}

pub record Query : Type 0 where
  pub has_name : Bytes → Bool
  pub has_path : Bytes → Bool
  pub domain : Bytes
  pub is_in : Bytes → Bool
  pub version : Option ℕ

-- `domainMatches`, of the rule in lower case with no dot at its ends
abbrev pub plain_rule : (ℕ → ℕ) → Bytes → Bytes
plain_rule lower rule = root_of (trim_suffix (to_lower lower rule) (codes "."))

unfoldable pub domain_matches : (ℕ → ℕ) → Bytes → Bytes → Bool
domain_matches lower d rule = let r = plain_rule lower rule in equal d r || has_suffix d (dotted r)

pub record Explanation : Type 0 where
  pub target : RouteTarget
  pub rule : Bytes
  pub matched_rules : List Bytes

-- the closure `match`
abbrev pub match : RouteTarget → Bytes → Explanation → Explanation
match target label e =
    if is_empty e.matched_rules
    then record { target = target; rule = label; matched_rules = label ∷ [] }
    else record e { matched_rules = e.matched_rules ++ label ∷ [] }

abbrev pub match_if : Bool → RouteTarget → Bytes → Explanation → Explanation
match_if b target label e = if b then match target label e else e

abbrev pub custom_matches : (ℕ → ℕ) → Query → RuleKind → Bytes → Bool
custom_matches lower q rule_application v = if is_path v then q.has_path v else q.has_name v
custom_matches lower q rule_domain v = not (is_empty q.domain) && domain_matches lower q.domain v
custom_matches lower q rule_cidr v = q.is_in v
custom_matches lower q (rule_unknown k) v = false

pub explain_custom : (ℕ → ℕ) → Query → List CustomRule → Explanation → Explanation
explain_custom lower q [] e = e
explain_custom lower q (r ∷ rs) e =
    explain_custom lower q rs
      (match_if (r.enabled && custom_matches lower q r.kind r.value) r.target r.name e)

-- a service by its processes, domains and suffixes
abbrev pub service_matches : (ℕ → ℕ) → Query → Service → Bool
service_matches lower q s =
    any q.has_name s.process_names
    || any (equal q.domain) s.domains
    || any (λ suffix. not (is_empty q.domain) && domain_matches lower q.domain suffix)
        s.domain_suffixes

abbrev pub vpn_or_direct : Bool → RouteTarget
vpn_or_direct b = if b then target_vpn else target_direct

pub explain_regional : (ℕ → ℕ) → RoutingSettings → Query → List Service → Explanation → Explanation
explain_regional lower s q [] e = e
explain_regional lower s q (x ∷ xs) e =
    explain_regional lower s q xs (
      match_if (service_matches lower q x) (vpn_or_direct (service_uses_vpn lower x.id s)) x.name e)

pub explain_services : (ℕ → ℕ) → Query → List Service → Explanation → Explanation
explain_services lower q [] e = e
explain_services lower q (x ∷ xs) e =
    explain_services lower q xs (match_if (service_matches lower q x) target_vpn x.name e)

abbrev pub is_update : Bytes → Bool
is_update d = equal d (codes "github.com") || equal d (codes "raw.githubusercontent.com")

pub explain_selected : (ℕ → ℕ) → Bool → Query → List Service → Explanation → Explanation
explain_selected lower selected q services e =
    if selected
    then match_if (is_update q.domain) target_vpn (utf8 "Обновления пресетов")
        (explain_services lower q services e)
    else e

abbrev pub nothing_matched : Bool → Explanation
nothing_matched selected =
    if selected
    then record {
      target = target_direct;
      rule = utf8 "Не входит в выбранное для VPN";
      matched_rules = [];
    }
    else record { target = target_vpn; rule = utf8 "Весь интернет через VPN"; matched_rules = [] }

-- `ExplainRoute` behind the checks of the query
pub explain_route : (ℕ → ℕ) → RoutingSettings → List Service → Query → Explanation
explain_route lower s services q =
    let selected = equal s.mode mode_selected in
    let e = explain_custom lower q s.custom_rules (nothing_matched selected) in
    let r = explain_regional lower s q regional_services e in
    let l = match_if (any q.is_in local_cidrs) target_direct (utf8 "Локальная сеть") r in
    explain_selected lower selected q services l
