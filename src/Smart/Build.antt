-- ===== src/Smart/Build.antt =====
-- client/smart/smart.go: BuildConfig, up to the text of its JSON.
pub mod Laws
use pinus_smart_awg.Common.{
  Bool, List, Option, Result, [], false, if◌then◌else◌, map_err, none, not, of_option, ok,
  refuse_if, some, ◌&&◌, ◌>>=◌, ◌>>◌, ◌∷◌,
}
use pinus_smart_awg.Conf.{Config}
use pinus_smart_awg.Smart.{RoutingSettings, Service, items, mode_selected}
use pinus_smart_awg.Smart.Catalog.{selected_services}
use pinus_smart_awg.Smart.Dns.{DnsRule, policy_dns_rules}
use pinus_smart_awg.Smart.Profile.{
  AwgEndpoint, DnsServer, EndpointError, awg_endpoint, detect_profile_families, dns_servers,
  dns_strategy, is_v4_address,
}
use pinus_smart_awg.Smart.Rules.{Outbound, RouteRule, build_rules, final_outbound}
use pinus_smart_awg.Smart.Settings.{SettingsError, normalized, settings_catalog}
use pinus_smart_awg.Smart.Values.{Normalizers}
use pinus_smart_awg.Text.{Bytes, equal}
use pinus_smart_awg.Text.Ip.{parse_ip}

pub data BuildError : Type 0 where
  settings_error : SettingsError → BuildError
  endpoint_error : EndpointError → BuildError
  no_family : BuildError
  first_server_panic : BuildError

-- What BuildConfig puts into the configuration of the engine. The fields of the engine that do not
-- depend on the arguments are left out, and so is the server `direct-dns`, which is always added.
pub record BoxConfig : Type 0 where
  pub box_endpoint : AwgEndpoint
  pub fallback_resolver : Option Bytes
  pub box_servers : List DnsServer
  pub box_dns_rules : List DnsRule
  pub final_dns : Bytes
  pub strategy : Bytes
  pub box_rules : List RouteRule
  pub box_final : Outbound

-- `servers[0]["tag"]`
abbrev pub first_tag : List DnsServer → Option Bytes
first_tag [] = none
first_tag (s ∷ servers) = some s.tag

abbrev is_v4_text : Option Bytes → Bool
is_v4_text none = false
is_v4_text (some ip) = is_v4_address ip

-- the tag of the first server with an IPv4 address, or the default
unfoldable pub resolver_tag : Bytes → List DnsServer → Bytes
resolver_tag default [] = default
resolver_tag default (s ∷ servers) =
    let rest = resolver_tag default servers in
    if is_v4_text (parse_ip s.address) then s.tag else rest

abbrev services_in : List Bytes → Option (List Service) → List Service
services_in ids none = []
services_in ids (some services) = selected_services ids services

-- `SelectedServices`
unfoldable pub chosen_services : Normalizers → RoutingSettings → List Service
chosen_services n s = services_in (items s.selected_apps) (settings_catalog n s.catalog_envelope)

-- `default_ids` are the default services of the current catalog.
unfoldable pub build_config :
    Normalizers → List Bytes → Config → RoutingSettings → Result BuildError BoxConfig
build_config n default_ids config given = do
  s ← map_err settings_error (normalized n default_ids given)
  peer_side ← map_err endpoint_error (awg_endpoint n.lower config)
  let f = detect_profile_families config
  refuse_if (not f.ipv4 && not f.ipv6) no_family
  let servers = dns_servers config f
  tag ← of_option first_server_panic (first_tag servers)
  ok (record {
    box_endpoint = peer_side;
    fallback_resolver = if f.ipv4 then some (resolver_tag tag servers) else none;
    box_servers = servers;
    box_dns_rules = policy_dns_rules n.lower s tag (dns_strategy f);
    final_dns = tag;
    strategy = dns_strategy f;
    box_rules = build_rules n.lower s (chosen_services n s) f;
    box_final = final_outbound (equal s.mode mode_selected);
  })
