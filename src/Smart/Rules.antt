-- ===== src/Smart/Rules.antt =====
-- The routing rules that `BuildConfig` of client/smart/smart.go hands to the engine, with
-- `customRuleObject`, `serviceRuleObjects` and `regionalRuleObjects`.
use pinus_smart_awg.Common.{Bool, List, [], if◌then◌else◌, is_empty, map, ℕ, ◌&&◌, ◌++◌, ◌==◌, ◌∷◌}
use pinus_smart_awg.Smart.{
  CustomRule, RouteTarget, RoutingSettings, RuleKind, Service, member, mode_selected,
  rule_application, rule_cidr, rule_domain, rule_unknown, target_vpn,
}
use pinus_smart_awg.Smart.Catalog.{texts}
use pinus_smart_awg.Smart.Regional.{regional_services, service_uses_vpn}
use pinus_smart_awg.Text.{Bytes, codes, equal}
use pinus_smart_awg.Text.Search.{contains_any}

pub data Outbound : Type 0 where
  awg_out direct : Outbound

-- What a rule matches; the engine reads a `map[string]any` with these keys.
pub data Matcher : Type 0 where
  everything dns_protocol : Matcher
  process_name process_path ip_cidr : List Bytes → Matcher
  domain : List Bytes → List Bytes → Matcher
  ip_version : ℕ → Matcher

pub data Action : Type 0 where
  sniff hijack_dns reject : Action
  route : Outbound → Action

pub record RouteRule : Type 0 where
  pub matcher : Matcher
  pub action : Action

abbrev pub outbound_of : RouteTarget → Outbound
outbound_of target_vpn = awg_out
outbound_of _ = direct

-- `strings.ContainsAny(rule.Value, "\\/:")`
unfoldable pub is_path : Bytes → Bool
is_path = contains_any (codes "\\/:")

abbrev pub dotted : Bytes → Bytes
dotted v = b'.' ∷ v

-- `customRuleObject`; a rule of another kind has no matcher
abbrev pub custom_matcher : RuleKind → Bytes → Matcher
custom_matcher rule_application v =
    if is_path v then process_path (v ∷ []) else process_name (v ∷ [])
custom_matcher rule_domain v = domain (v ∷ []) (dotted v ∷ [])
custom_matcher rule_cidr v = ip_cidr (v ∷ [])
custom_matcher (rule_unknown k) v = everything

abbrev pub custom_rule_object : CustomRule → RouteRule
custom_rule_object r = record {
  matcher = custom_matcher r.kind r.value;
  action = route (outbound_of r.target);
}

-- the loop over the enabled rules
unfoldable pub custom_rules_of : List CustomRule → List RouteRule
custom_rules_of [] = []
custom_rules_of (r ∷ rs) =
    let rest = custom_rules_of rs in if r.enabled then custom_rule_object r ∷ rest else rest

-- appends what is not there yet, as the `...Set` maps do
abbrev pub add_new : List Bytes → Bytes → List Bytes
add_new xs x = if member x xs then xs else xs ++ x ∷ []

unfoldable pub add_all_new : List Bytes → List Bytes → List Bytes
add_all_new xs [] = xs
add_all_new xs (y ∷ ys) = add_all_new (add_new xs y) ys

-- `strings.TrimPrefix(suffix, ".")`
abbrev pub root_of : Bytes → Bytes
root_of [] = []
root_of (c ∷ cs) = if c == b'.' then cs else c ∷ cs

-- the roots that `serviceRuleObjects` adds to the domains
unfoldable pub add_roots : List Bytes → List Bytes → List Bytes
add_roots ds [] = ds
add_roots ds (s ∷ ss) = add_roots (if is_empty (root_of s) then ds else add_new ds (root_of s)) ss

pub record Names : Type 0 where
  pub processes : List Bytes
  pub domains : List Bytes
  pub suffixes : List Bytes

unfoldable pub collect_names : Names → List Service → Names
collect_names n [] = n
collect_names n (s ∷ ss) =
    collect_names
      (record {
        processes = add_all_new n.processes s.process_names;
        domains = add_roots (add_all_new n.domains s.domains) s.domain_suffixes;
        suffixes = add_all_new n.suffixes s.domain_suffixes;
      })
      ss

abbrev pub no_names : Names
no_names = record { processes = []; domains = []; suffixes = [] }

unfoldable pub service_rule_objects : List Service → Outbound → List RouteRule
service_rule_objects services out =
    let n = collect_names no_names services in
    (if is_empty n.processes
      then []
      else record { matcher = process_name n.processes; action = route out } ∷ [])
    ++ (if is_empty n.domains && is_empty n.suffixes
        then []
        else record { matcher = domain n.domains n.suffixes; action = route out } ∷ [])

abbrev pub service_outbound : (ℕ → ℕ) → RoutingSettings → Service → Outbound
service_outbound lower s service = if service_uses_vpn lower service.id s then awg_out else direct

abbrev pub regional_rules_of : Outbound → Service → List RouteRule
regional_rules_of out service =
    let named =
      record {
        matcher =
            domain (service.domains ++ map root_of service.domain_suffixes) service.domain_suffixes;
        action = route out;
      }
      ∷ [] in
    if is_empty service.process_names
    then named
    else record { matcher = process_name service.process_names; action = route out } ∷ named

unfoldable pub regional_rule_objects : (ℕ → ℕ) → RoutingSettings → List Service → List RouteRule
regional_rule_objects lower s [] = []
regional_rule_objects lower s (x ∷ xs) =
    regional_rules_of (service_outbound lower s x) x ++ regional_rule_objects lower s xs

abbrev pub local_cidrs : List Bytes
local_cidrs = texts (
    "10.0.0.0/8" ∷ "172.16.0.0/12" ∷ "192.168.0.0/16" ∷ "169.254.0.0/16" ∷ "127.0.0.0/8"
    ∷ "224.0.0.0/4" ∷ "255.255.255.255/32" ∷ "::1/128" ∷ "fc00::/7" ∷ "fe80::/10" ∷ "ff00::/8" ∷ [])

abbrev pub update_domains : List Bytes
update_domains = texts ("raw.githubusercontent.com" ∷ "github.com" ∷ [])

pub record Families : Type 0 where
  pub ipv4 : Bool
  pub ipv6 : Bool

abbrev pub reject_version : ℕ → RouteRule
reject_version v = record { matcher = ip_version v; action = reject }

-- the rules behind the exceptions, and `finalOutbound`
unfoldable pub policy_rules : Bool → List Service → Families → List RouteRule
policy_rules selected services f =
    if selected
    then service_rule_objects services awg_out
      ++ record { matcher = domain update_domains []; action = route awg_out } ∷ []
    else (if f.ipv4 then [] else reject_version 4 ∷ [])
      ++ (if f.ipv6 then [] else reject_version 6 ∷ [])

abbrev pub final_outbound : Bool → Outbound
final_outbound selected = if selected then direct else awg_out

-- `rules` of `BuildConfig` for normalised settings with these selected services
unfoldable pub build_rules : (ℕ → ℕ) → RoutingSettings → List Service → Families → List RouteRule
build_rules lower s services f =
    record { matcher = everything; action = sniff }
    ∷ record { matcher = dns_protocol; action = hijack_dns }
    ∷ (custom_rules_of s.custom_rules
        ++ (regional_rule_objects lower s regional_services
            ++ (record { matcher = ip_cidr local_cidrs; action = route direct }
                ∷ policy_rules (equal s.mode mode_selected) services f)))
