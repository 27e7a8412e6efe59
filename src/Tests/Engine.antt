-- ===== src/Tests/Engine.antt =====
-- The theorems on what BuildConfig makes of a profile, at a concrete profile.
use pinus_smart_awg.Common.{
  [], all, any, count, false, is_empty, is_ok, none, not, refl, some, true, ◌&&◌, ◌++◌, ◌||◌, ◌∷◌,
  ◌≡◌, ◌≤◌,
}
use pinus_smart_awg.Conf.{Config, is_unset, zero_interface, zero_peer}
use pinus_smart_awg.Conf.Network.{all_routes, deduplicate_network_entries, intersects_with}
use pinus_smart_awg.Conf.Network.Distinct.{
  ArePeersDistinct, IsDistinct, deduplicate_network_entries-IsDistinct,
}
use pinus_smart_awg.Conf.Network.Laws.{have_common, intersects_with_comm}
use pinus_smart_awg.Conf.Validation.{validate_awg}
use pinus_smart_awg.Conf.Values.{ip_cidr_string}
use pinus_smart_awg.Smart.{RoutingSettings, mode_all}
use pinus_smart_awg.Smart.Build.{build_config}
use pinus_smart_awg.Smart.Build.Laws.{build_config-is_ok}
use pinus_smart_awg.Smart.Profile.{
  all_allowed, awg_endpoint, detect_profile_families, dns_servers, is_default, is_v4_address,
}
use pinus_smart_awg.Smart.Profile.Laws.{
  awg_endpoint-is_ok, detect_profile_families_iff, dns_servers_lem, is_v6_address,
}
use pinus_smart_awg.Smart.Settings.{normalized}
use pinus_smart_awg.Smart.Values.{Normalizers}
use pinus_smart_awg.Tests.{plain_case}
use pinus_smart_awg.Text.{Bytes, codes, equal}
use pinus_smart_awg.Text.Ip.{ip_string, v4_prefix}
use pinus_smart_awg.Text.Number.{pos}

abbrev ten_zero : Bytes
ten_zero = v4_prefix ++ 10 ∷ 0 ∷ 0 ∷ 2 ∷ []

abbrev any_v4 : Bytes
any_v4 = v4_prefix ++ 0 ∷ 0 ∷ 0 ∷ 0 ∷ []

abbrev sample_profile : Config
sample_profile = record {
  name = codes "home";
  interface = record zero_interface {
    addresses = record { ip = ten_zero; cidr = 24 } ∷ [];
    dns = ten_zero ∷ ten_zero ∷ [];
  };
  peers =
      record zero_peer {
        allowed_ips = record { ip = any_v4; cidr = 0 } ∷ [];
        endpoint = record { host = codes "a.example"; port = 51820 };
      }
      ∷ [];
}

abbrev no_normalizers : Normalizers
no_normalizers = record {
  lower = plain_case;
  hostname = λ v. none;
  to_ascii = λ v. some v;
  clean = λ v. v;
  base = λ v. v;
  extension = λ v. v;
  equal_fold = equal;
  masked = λ v. none;
  catalog = λ e. none;
}

abbrev current_settings : RoutingSettings
current_settings = record {
  service_routes = [];
  catalog_envelope = [];
  fallback_profiles = [];
  protection = [];
  version = pos 5;
  mode = mode_all;
  selected_apps = some [];
  custom_rules = [];
}

detect_profile_families_iff_example :
    ((detect_profile_families sample_profile).ipv4 ≡ (
      any (λ a. is_v4_address a.ip) sample_profile.interface.addresses
      && any (λ a. is_default a && is_v4_address a.ip) (all_allowed sample_profile.peers)))
    × ((detect_profile_families sample_profile).ipv6 ≡ (
        any (λ a. is_v6_address a.ip) sample_profile.interface.addresses
        && any (λ a. is_default a && is_v6_address a.ip) (all_allowed sample_profile.peers)))
detect_profile_families_iff_example = detect_profile_families_iff sample_profile

dns_servers_lem_example :
    (is_empty (dns_servers sample_profile (record { ipv4 = true; ipv6 = false })) ≡ false)
    × (count
          (λ s. equal (codes "10.0.0.2") s.address)
          (dns_servers sample_profile (record { ipv4 = true; ipv6 = false }))
        ≤ 1)
dns_servers_lem_example =
    dns_servers_lem sample_profile (record { ipv4 = true; ipv6 = false }) (codes "10.0.0.2") refl

awg_endpoint-is_ok_example : is_ok (awg_endpoint plain_case sample_profile) ≡ (
    is_ok (validate_awg plain_case sample_profile)
    && (not (is_empty sample_profile.interface.addresses)
        && (not (is_empty sample_profile.peers)
            && all (λ p. not (is_unset p.endpoint)) sample_profile.peers)))
awg_endpoint-is_ok_example = awg_endpoint-is_ok plain_case sample_profile

build_config-is_ok_example :
    is_ok (build_config no_normalizers [] sample_profile current_settings) ≡ (
      is_ok (normalized no_normalizers [] current_settings)
      && (is_ok (awg_endpoint plain_case sample_profile)
          && ((detect_profile_families sample_profile).ipv4
              || (detect_profile_families sample_profile).ipv6)))
build_config-is_ok_example = build_config-is_ok no_normalizers [] sample_profile current_settings

intersects_with_comm_example :
    ((intersects_with sample_profile sample_profile).0
      ≡ have_common (all_routes sample_profile) (all_routes sample_profile))
    × ((intersects_with sample_profile sample_profile).0
        ≡ (intersects_with sample_profile sample_profile).0)
intersects_with_comm_example = intersects_with_comm sample_profile sample_profile

deduplicate_network_entries-IsDistinct_example :
    IsDistinct ip_cidr_string
      (codes "10.0.0.2/24")
      sample_profile.interface.addresses
      (deduplicate_network_entries sample_profile).interface.addresses
    × IsDistinct ip_string
        (codes "10.0.0.2/24")
        sample_profile.interface.dns
        (deduplicate_network_entries sample_profile).interface.dns
    × ArePeersDistinct
        (codes "10.0.0.2/24")
        sample_profile.peers
        (deduplicate_network_entries sample_profile).peers
deduplicate_network_entries-IsDistinct_example =
    deduplicate_network_entries-IsDistinct sample_profile (codes "10.0.0.2/24")
