-- ===== src/Smart/Build/Laws.antt =====
-- When a profile and settings have a configuration of the engine.
use pinus_smart_awg.Common.{
  Bool, Bool-cases, List, [], ap, arith, false, inl, inr, is_empty, is_ok, is_ok-bind,
  is_ok-map_err, is_ok-refuse_if, map_err, not, of_option, refl, refuse_if, true, ◌&&◌, ◌||◌, ◌∙◌,
  ◌∷◌, ◌≡◌,
}
use pinus_smart_awg.Conf.{Config}
use pinus_smart_awg.Smart.{RoutingSettings}
use pinus_smart_awg.Smart.Build.{
  build_config, endpoint_error, first_server_panic, first_tag, no_family, settings_error,
}
use pinus_smart_awg.Smart.Profile.{DnsServer, awg_endpoint, detect_profile_families, dns_servers}
use pinus_smart_awg.Smart.Profile.Laws.{dns_servers_lem}
use pinus_smart_awg.Smart.Rules.{Families}
use pinus_smart_awg.Smart.Settings.{normalized}
use pinus_smart_awg.Smart.Values.{Normalizers}
use pinus_smart_awg.Text.{Bytes}

of_option-first_tag :
    (servers : List DnsServer)
    → is_ok (of_option first_server_panic (first_tag servers)) ≡ not (is_empty servers)
of_option-first_tag [] = refl
of_option-first_tag (s ∷ servers) = refl

and_yes : (b : Bool) → (b && true) ≡ b
and_yes b = ground arith

has_family :
    (config : Config) (f : Families)
    → (not (not f.ipv4 && not f.ipv6)
        && is_ok (of_option first_server_panic (first_tag (dns_servers config f))))
      ≡ (f.ipv4 || f.ipv6)
has_family config f = elim (Bool-cases (f.ipv4 || f.ipv6)) [
  | inl e ↦
      rw (of_option-first_tag (dns_servers config f), (dns_servers_lem config f [] e).0)
        (both f.ipv4 f.ipv6)
  | inr e ↦
      none_left f.ipv4 f.ipv6
        (is_ok (of_option first_server_panic (first_tag (dns_servers config f)))) e
]
  where
    both : (a b : Bool) → (not (not a && not b) && true) ≡ (a || b)
    both a b = ground arith

    none_left : (a b c : Bool) → (a || b) ≡ false → (not (not a && not b) && c) ≡ (a || b)
    none_left a b c h = ground arith

-- BuildConfig succeeds exactly if the settings can be normalised, the profile has an endpoint, and
-- it carries an address family; in particular its access to the first server never panics.
pub build_config-is_ok :
    (n : Normalizers) (default_ids : List Bytes) (config : Config) (given : RoutingSettings)
    → is_ok (build_config n default_ids config given) ≡ (
        is_ok (normalized n default_ids given)
        && (is_ok (awg_endpoint n.lower config)
            && ((detect_profile_families config).ipv4 || (detect_profile_families config).ipv6)))
unfolding build_config
build_config-is_ok n default_ids config given =
    let f = detect_profile_families config in
    let tag = of_option first_server_panic (first_tag (dns_servers config f)) in
    is_ok-bind (map_err settings_error (normalized n default_ids given)) _
      (is_ok (awg_endpoint n.lower config) && (f.ipv4 || f.ipv6))
      (λ s.
        is_ok-bind (map_err endpoint_error (awg_endpoint n.lower config)) _ (f.ipv4 || f.ipv6) (λ e.
          is_ok-bind (refuse_if (not f.ipv4 && not f.ipv6) no_family) _ (is_ok tag)
            (λ u. is_ok-bind tag _ true (λ t. refl) ∙ and_yes (is_ok tag))
          ∙ ap (λ b. b && is_ok tag) (is_ok-refuse_if (not f.ipv4 && not f.ipv6) no_family)
          ∙ has_family config f)
        ∙ rw (is_ok-map_err endpoint_error (awg_endpoint n.lower config)) refl)
    ∙ rw (is_ok-map_err settings_error (normalized n default_ids given)) refl
