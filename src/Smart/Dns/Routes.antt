-- ===== src/Smart/Dns/Routes.antt =====
-- Where client/smart/dns_policy.go resolves a name, against the rules that route the name.
use mathlib.Core.Option
use pinus_smart_awg.Common.{
  All, Bool, Bool-cases, List, Option, [], false, if◌then◌else◌, inl, inr, map, none, refl, some,
  true, ℕ, ◌&&◌, ◌++◌, ◌∷◌, ◌≡◌,
}
use pinus_smart_awg.Smart.{
  CustomRule, RouteTarget, RoutingSettings, RuleKind, Service, rule_application, rule_cidr,
  rule_domain, rule_unknown, target_direct, target_unknown, target_vpn,
}
use pinus_smart_awg.Smart.Dns.{
  DnsRule, add_dns_rule, custom_dns_rules, direct_dns, is_awg, is_domain_rule, is_vpn,
  policy_dns_rules, regional_dns_rules,
}
use pinus_smart_awg.Smart.Regional.{regional_services}
use pinus_smart_awg.Smart.Rules.{
  Action, Matcher, Outbound, RouteRule, awg_out, custom_matcher, custom_rules_of, direct, domain,
  ip_cidr, is_path, outbound_of, process_name, process_path, regional_rule_objects,
  regional_rules_of, root_of, route, service_outbound,
}
use pinus_smart_awg.Text.{Bytes, codes}

-- the server and the strategy of the first rule that matches
unfoldable pub found_server : (Matcher → Bool) → List DnsRule → Option (Bytes × Bytes)
found_server m [] = none
found_server m (r ∷ rs) =
    let rest = found_server m rs in
    if m (domain r.domains r.suffixes) then some (r.server, r.strategy) else rest

-- the action of the first rule that matches
unfoldable pub found_action : (Matcher → Bool) → List RouteRule → Option Action
found_action m [] = none
found_action m (r ∷ rs) =
    let rest = found_action m rs in if m r.matcher then some r.action else rest

-- The engine's matchers for a name of which neither process nor address is known.
pub record KnowsOnlyName (m : Matcher → Bool) : Type 0 where
  pub no_name : (ns : List Bytes) → m (process_name ns) ≡ false
  pub no_path : (ps : List Bytes) → m (process_path ps) ≡ false
  pub no_address : (cs : List Bytes) → m (ip_cidr cs) ≡ false

-- the server and the strategy for connections through an outbound
abbrev pub server_for : Bytes → Bytes → Action → Bytes × Bytes
server_for server strategy (route awg_out) = (server, strategy)
server_for server strategy _ = (direct_dns, codes "prefer_ipv4")

abbrev pub is_known_kind : RuleKind → Bool
is_known_kind (rule_unknown k) = false
is_known_kind _ = true

map-if {ℓ κ} :
    {A : Type ℓ} {B : Type κ} (f : A → B) (b : Bool) (a : A) (x : Option B) (o : Option A)
    → x ≡ Option.map f o
    → (if b then some (f a) else x) ≡ Option.map f (if b then some a else o)
map-if f true a x o h = refl
map-if f false a x o h = h

server_for-target :
    (server strategy : Bytes) (t : RouteTarget)
    → (if is_vpn t then server else direct_dns, if is_vpn t then strategy else codes "prefer_ipv4")
      ≡ server_for server strategy (route (outbound_of t))
server_for-target server strategy target_vpn = refl
server_for-target server strategy target_direct = refl
server_for-target server strategy (target_unknown x) = refl

server_for-outbound :
    (server strategy : Bytes) (out : Outbound)
    → (
      if is_awg (route out) then server else direct_dns,
      if is_awg (route out) then strategy else codes "prefer_ipv4",
    )
      ≡ server_for server strategy (route out)
server_for-outbound server strategy awg_out = refl
server_for-outbound server strategy direct = refl

module _ (lower : ℕ → ℕ) (m : Matcher → Bool) (only : KnowsOnlyName m)
    (server strategy : Bytes) where
  custom_dns_rules-follow :
      (rs : List CustomRule) (regional : List DnsRule) (rest : List RouteRule)
      → All (λ r. is_known_kind r.kind ≡ true) rs
      → found_server m regional ≡ Option.map (server_for server strategy) (found_action m rest)
      → found_server m (custom_dns_rules server strategy rs regional)
        ≡ Option.map (server_for server strategy) (found_action m (custom_rules_of rs ++ rest))
  unfolding custom_dns_rules found_server found_action custom_rules_of
  custom_dns_rules-follow [] regional rest k h = h
  custom_dns_rules-follow (r ∷ rs) regional rest k h =
      go r.enabled r.kind k.0 (custom_dns_rules-follow rs regional rest k.1 h)
    where
      later : Option Action
      later = found_action m (custom_rules_of rs ++ rest)

      go :
          (on : Bool) (kind : RuleKind)
          → is_known_kind kind ≡ true
          → found_server m (custom_dns_rules server strategy rs regional)
            ≡ Option.map (server_for server strategy) later
          → found_server m (
              if on && is_domain_rule kind
              then add_dns_rule server strategy
                  (custom_matcher kind r.value)
                  (is_vpn r.target)
                  (custom_dns_rules server strategy rs regional)
              else custom_dns_rules server strategy rs regional)
            ≡ Option.map (server_for server strategy) (
                found_action m (
                  (if on
                    then record {
                      matcher = custom_matcher kind r.value;
                      action = route (outbound_of r.target);
                    }
                      ∷ custom_rules_of rs
                    else custom_rules_of rs)
                  ++ rest))
      go false kind x i = i
      go true rule_application x i = elim (Bool-cases (is_path r.value)) [
        | inl e ↦ rw (e, only.no_path) i
        | inr e ↦ rw (e, only.no_name) i
      ]
      go true rule_domain x i = rw (server_for-target server strategy r.target) (
          map-if (server_for server strategy) (m (custom_matcher rule_domain r.value))
            (route (outbound_of r.target)) _ later i)
      go true rule_cidr x i = rw only.no_address i
      go true (rule_unknown u) x i = cc x

  regional_dns_rules-follow :
      (s : RoutingSettings) (xs : List Service)
      → found_server m (regional_dns_rules server strategy (regional_rule_objects lower s xs))
        ≡ Option.map
            (server_for server strategy)
            (found_action m (regional_rule_objects lower s xs))
  unfolding regional_dns_rules regional_rule_objects found_server found_action
  regional_dns_rules-follow s [] = refl
  regional_dns_rules-follow s (x ∷ xs) =
      go x.process_names (service_outbound lower s x) (regional_dns_rules-follow s xs)
    where
      named : Bool
      named = m (domain (x.domains ++ map root_of x.domain_suffixes) x.domain_suffixes)

      go :
          (ps : List Bytes) (out : Outbound)
          → found_server m (regional_dns_rules server strategy (regional_rule_objects lower s xs))
            ≡ Option.map
                (server_for server strategy)
                (found_action m (regional_rule_objects lower s xs))
          → found_server m (
              regional_dns_rules server strategy (
                regional_rules_of out (record x { process_names = ps })
                ++ regional_rule_objects lower s xs))
            ≡ Option.map (server_for server strategy) (
                found_action m (
                  regional_rules_of out (record x { process_names = ps })
                  ++ regional_rule_objects lower s xs))
      go [] out i = rw (server_for-outbound server strategy out) (
          map-if (server_for server strategy) named (route out) _
            (found_action m (regional_rule_objects lower s xs)) i)
      go (p ∷ ps) out i =
          rw (only.no_name, server_for-outbound server strategy out)
            (map-if (server_for server strategy) named (route out) _
              (found_action m (regional_rule_objects lower s xs)) i)

  -- For a name of which neither process nor address is known, the first rule for DNS that matches
  -- has the server of the first route rule that matches among the user's rules and those of the
  -- regional services: the server inside the VPN with its strategy if that rule leads into the VPN,
  -- the direct one if it leads out directly, and no rule for DNS matches if no such route rule
  -- does.  The user's rules are of known kinds; the matchers for domains answer anything.
  pub policy_dns_rules-found :
      (s : RoutingSettings)
      → All (λ r. is_known_kind r.kind ≡ true) s.custom_rules
      → found_server m (policy_dns_rules lower s server strategy)
        ≡ Option.map (server_for server strategy) (
            found_action m
              (custom_rules_of s.custom_rules ++ regional_rule_objects lower s regional_services))
  unfolding policy_dns_rules
  policy_dns_rules-found s k =
      custom_dns_rules-follow s.custom_rules _ (regional_rule_objects lower s regional_services) k
        (regional_dns_rules-follow s regional_services)
