-- ===== src/Smart/Dns.antt =====
-- client/smart/dns_policy.go: the DNS rules that follow the domains of the route rules.
pub mod Routes
use pinus_smart_awg.Common.{Bool, List, [], false, if◌then◌else◌, true, ℕ, ◌&&◌, ◌∷◌}
use pinus_smart_awg.Smart.{
  CustomRule, RouteTarget, RoutingSettings, RuleKind, rule_domain, target_vpn,
}
use pinus_smart_awg.Smart.Regional.{regional_services}
use pinus_smart_awg.Smart.Rules.{
  Action, Matcher, RouteRule, awg_out, custom_matcher, domain, regional_rule_objects, route,
}
use pinus_smart_awg.Text.{Bytes, codes}

pub record DnsRule : Type 0 where
  pub domains : List Bytes
  pub suffixes : List Bytes
  pub server : Bytes
  pub strategy : Bytes

abbrev pub direct_dns : Bytes
direct_dns = codes "direct-dns"

-- the closure `add`: a rule without domains adds nothing
abbrev pub add_dns_rule : Bytes → Bytes → Matcher → Bool → List DnsRule → List DnsRule
add_dns_rule server strategy (domain ds ss) vpn rest =
    record {
      domains = ds;
      suffixes = ss;
      server = if vpn then server else direct_dns;
      strategy = if vpn then strategy else codes "prefer_ipv4";
    }
    ∷ rest
add_dns_rule server strategy _ vpn rest = rest

abbrev pub is_domain_rule : RuleKind → Bool
is_domain_rule rule_domain = true
is_domain_rule _ = false

abbrev pub is_vpn : RouteTarget → Bool
is_vpn target_vpn = true
is_vpn _ = false

abbrev pub is_awg : Action → Bool
is_awg (route awg_out) = true
is_awg _ = false

unfoldable pub custom_dns_rules : Bytes → Bytes → List CustomRule → List DnsRule → List DnsRule
custom_dns_rules server strategy [] regional = regional
custom_dns_rules server strategy (r ∷ rs) regional =
    let rest = custom_dns_rules server strategy rs regional in
    if r.enabled && is_domain_rule r.kind
    then add_dns_rule server strategy (custom_matcher r.kind r.value) (is_vpn r.target) rest
    else rest

unfoldable pub regional_dns_rules : Bytes → Bytes → List RouteRule → List DnsRule
regional_dns_rules server strategy [] = []
regional_dns_rules server strategy (r ∷ rs) =
    add_dns_rule server strategy r.matcher (is_awg r.action) (regional_dns_rules server strategy rs)

-- `policyDNSRules`
unfoldable pub policy_dns_rules : (ℕ → ℕ) → RoutingSettings → Bytes → Bytes → List DnsRule
policy_dns_rules lower s server strategy =
    custom_dns_rules server strategy s.custom_rules
      (regional_dns_rules server strategy (regional_rule_objects lower s regional_services))
