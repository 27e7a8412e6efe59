-- ===== src/Tests/Routing.antt =====
-- The theorems on routing settings, at concrete settings.
use mathlib.Core.Option
use pinus_smart_awg.Common.{
  Bool, List, Option, Result, [], any, any-cons, drop, err, false, if◌then◌else◌, none, ok, refl,
  some, true, ℕ, ◌&&◌, ◌++◌, ◌==◌, ◌||◌, ◌∷◌, ◌≡◌,
}
use pinus_smart_awg.Smart.{
  CustomRule, RoutingSettings, mode_all, mode_selected, rule_domain, target_direct,
}
use pinus_smart_awg.Smart.Catalog.{builtin_service_catalog}
use pinus_smart_awg.Smart.Dns.{policy_dns_rules}
use pinus_smart_awg.Smart.Dns.Routes.{
  KnowsOnlyName, found_action, found_server, policy_dns_rules-found, server_for,
}
use pinus_smart_awg.Smart.Explain.{Query, explain_route}
use pinus_smart_awg.Smart.Explain.Agreement.{expected_outcome, explain_route-build_rules, refused}
use pinus_smart_awg.Smart.Explain.Catalogs.{is_catalog-IsCatalog}
use pinus_smart_awg.Smart.Explain.Engine.{
  AnswersPlace, AreKnownRules, IsCatalog, NoApplication, first_match,
}
use pinus_smart_awg.Smart.Regional.{
  is_regional_service, regional_services, service_uses_vpn, vk_service_id, with_service_vpn,
}
use pinus_smart_awg.Smart.Regional.Laws.{service_uses_vpn-with_service_vpn}
use pinus_smart_awg.Smart.Rules.{
  Families, Matcher, build_rules, custom_rules_of, dns_protocol, domain, everything, final_outbound,
  ip_cidr, ip_version, process_name, process_path, regional_rule_objects,
}
use pinus_smart_awg.Smart.Settings.{
  SettingsError, keep_known, normalize_mode, normalized, normalized_rule, normalized_rules,
  selected_exactly_matches,
}
use pinus_smart_awg.Smart.Settings.Laws.{IsNormal, normalized-IsNormal}
use pinus_smart_awg.Smart.Values.{Normalizers, normalize_domain}
use pinus_smart_awg.Tests.{plain_case}
use pinus_smart_awg.Text.{Bytes, codes, equal}
use pinus_smart_awg.Text.Case.{to_lower}
use pinus_smart_awg.Text.Ip.{parse_ip}
use pinus_smart_awg.Text.Number.{pos}
use pinus_smart_awg.Text.Search.{contains, has_suffix, trim_prefix, trim_suffix}
use pinus_smart_awg.Text.Trim.{trim_space}

abbrev sample_settings : RoutingSettings
sample_settings = record {
  service_routes = [];
  catalog_envelope = [];
  fallback_profiles = [];
  protection = [];
  version = pos 5;
  mode = codes " All";
  selected_apps = some [];
  custom_rules = [];
}

vk_is_regional : is_regional_service vk_service_id ≡ true
unfolding equal
vk_is_regional = refl

service_uses_vpn-with_service_vpn_example :
    service_uses_vpn plain_case vk_service_id
      (record (with_service_vpn plain_case vk_service_id false sample_settings) { mode = mode_all })
    ≡ (if equal (normalize_mode plain_case (codes " All")) (normalize_mode plain_case mode_all)
          && equal vk_service_id vk_service_id
        then false
        else service_uses_vpn plain_case vk_service_id (record sample_settings { mode = mode_all }))
service_uses_vpn-with_service_vpn_example =
    service_uses_vpn-with_service_vpn plain_case vk_service_id false sample_settings vk_service_id
      mode_all vk_is_regional

abbrev is_version : ℕ → Option ℕ → Bool
is_version n none = false
is_version n (some v) = n == v

abbrev answer : Query → Matcher → Bool
answer q everything = true
answer q dns_protocol = false
answer q (process_name ns) = any q.has_name ns
answer q (process_path ps) = any q.has_path ps
answer q (ip_cidr cs) = any q.is_in cs
answer q (domain ds ss) = any (equal q.domain) ds || any (has_suffix q.domain) ss
answer q (ip_version n) = is_version n q.version

-- Discord, at a domain of its own
abbrev sample_query : Query
sample_query = record {
  has_name = λ n. false;
  has_path = λ p. false;
  domain = codes "cdn.discord.com";
  is_in = λ c. false;
  version = none;
}

abbrev sample_rule : CustomRule
sample_rule = record {
  id = codes "a";
  name = codes "bank";
  kind = rule_domain;
  value = codes "bank.example";
  target = target_direct;
  enabled = true;
}

abbrev selected_settings : RoutingSettings
selected_settings = record sample_settings { mode = mode_selected; custom_rules = sample_rule ∷ [] }

abbrev only_4 : Families
only_4 = record { ipv4 = true; ipv6 = false }

rules-AreKnown : AreKnownRules plain_case (sample_rule ∷ [])
unfolding to_lower trim_suffix
rules-AreKnown = (record { plain = refl; not_empty = refl }, tt)

builtin-IsCatalog : IsCatalog plain_case builtin_service_catalog
unfolding equal to_lower trim_suffix
builtin-IsCatalog = is_catalog-IsCatalog plain_case builtin_service_catalog refl

any-false : (xs : List Bytes) → any (λ x. false) xs ≡ false
any-false [] = refl
any-false (x ∷ xs) = rw (any-cons, any-false xs) refl

sample-NoApplication : NoApplication sample_query
sample-NoApplication = record { unnamed = λ n. refl; without_path = λ p. refl }

place_answers : AnswersPlace sample_query (answer sample_query)
place_answers = record {
  not_dns = refl;
  no_name = λ ns. any-false ns;
  no_path = λ ps. any-false ps;
  by_domain = λ ds ss. refl;
  by_cidr = λ cs. refl;
}

explain_route-build_rules_example :
    first_match
      (answer sample_query)
      (final_outbound (equal mode_selected mode_selected))
      (build_rules plain_case selected_settings builtin_service_catalog only_4)
    ≡ expected_outcome
        (equal mode_selected mode_selected)
        (refused only_4 (answer sample_query))
        (explain_route plain_case selected_settings builtin_service_catalog sample_query)
explain_route-build_rules_example =
    explain_route-build_rules plain_case selected_settings builtin_service_catalog only_4
      sample_query (answer sample_query) sample-NoApplication place_answers rules-AreKnown
      builtin-IsCatalog

abbrev plain_normalizers : Normalizers
plain_normalizers = record {
  lower = plain_case;
  hostname = λ v. some (drop 2 v);
  to_ascii = λ v. some v;
  clean = λ v. v;
  base = λ v. v;
  extension = λ v. v;
  equal_fold = equal;
  masked = λ v. none;
  catalog = λ e. none;
}

abbrev stored_settings : RoutingSettings
stored_settings = record selected_settings {
  selected_apps = some (codes "Discord" ∷ codes "discord" ∷ []);
}

abbrev settings_of : Result SettingsError RoutingSettings → RoutingSettings
settings_of (ok t) = t
settings_of (err e) = sample_settings

current_settings : Result SettingsError RoutingSettings
current_settings = normalized plain_normalizers [] stored_settings

settings_normalized :
    normalized plain_normalizers [] stored_settings ≡ ok (settings_of current_settings)
unfolding current_settings normalized normalized_rules normalized_rule keep_known
    selected_exactly_matches normalize_mode trim_space to_lower equal normalize_domain trim_prefix
    trim_suffix contains parse_ip
settings_normalized = refl

normalized-IsNormal_example : IsNormal plain_normalizers (settings_of current_settings)
normalized-IsNormal_example =
    normalized-IsNormal plain_normalizers [] stored_settings settings_normalized

-- the user's own domain, asked for by name only
abbrev bank_query : Query
bank_query = record {
  has_name = λ n. false;
  has_path = λ p. false;
  domain = codes "www.bank.example";
  is_in = λ c. false;
  version = none;
}

bank_only_name : KnowsOnlyName (answer bank_query)
bank_only_name = record {
  no_name = λ ns. any-false ns;
  no_path = λ ps. any-false ps;
  no_address = λ cs. any-false cs;
}

policy_dns_rules-found_example :
    found_server
      (answer bank_query)
      (policy_dns_rules plain_case selected_settings (codes "cloudflare") (codes "ipv4_only"))
    ≡ Option.map (server_for (codes "cloudflare") (codes "ipv4_only")) (
        found_action (answer bank_query) (
          custom_rules_of (sample_rule ∷ [])
          ++ regional_rule_objects plain_case selected_settings regional_services))
policy_dns_rules-found_example =
    policy_dns_rules-found plain_case (answer bank_query) bank_only_name (codes "cloudflare")
      (codes "ipv4_only") selected_settings (refl, tt)
