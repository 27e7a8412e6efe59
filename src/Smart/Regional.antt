-- ===== src/Smart/Regional.antt =====
-- client/smart/regional.go: the regional services, and which services use the VPN.
pub mod Laws
use pinus_smart_awg.Common.{
  Bool, List, Option, [], false, if◌then◌else◌, none, not, some, true, ℕ, ◌||◌, ◌∷◌,
}
use pinus_smart_awg.Smart.{Mode, RoutingSettings, Service, insert, items, lookup, member, mode_all}
use pinus_smart_awg.Smart.Catalog.{texts, utf8}
use pinus_smart_awg.Smart.Settings.{normalize_mode}
use pinus_smart_awg.Text.{Bytes, codes, equal}

abbrev pub vk_service_id : Bytes
vk_service_id = codes "vk"

abbrev pub russian_service_id : Bytes
russian_service_id = codes "russian-services"

abbrev pub vk_service : Service
vk_service = record {
  id = codes "vk";
  name = utf8 "VK";
  process_names =
      texts ("vk-calls.exe" ∷ "vk-messenger.exe" ∷ "vk-messenger-x64.exe" ∷ "VKMessenger.exe" ∷ []);
  domains = texts (
      "api.ok.ru" ∷ "api.mycdn.me" ∷ "st.mycdn.me" ∷ "vkcalls.production.vklanding.ru"
      ∷ "vkcalls-native-ac.vk-apps.com" ∷ "upload.object2.vk-apps.com" ∷ []);
  domain_suffixes = texts (
      ".vk.ru" ∷ ".vk.com" ∷ ".vk.me" ∷ ".vkvideo.ru" ∷ ".vkvideo.com" ∷ ".vk.cc"
      ∷ ".vkuserphoto.ru" ∷ ".vkuserdocs.ru" ∷ ".userapi.com" ∷ ".vkuseraudio.net"
      ∷ ".vkuseraudio.ru" ∷ ".vkuseraudio.com" ∷ ".vkuservideo.net" ∷ ".vkuservideo.ru"
      ∷ ".vkuservideo.com" ∷ ".vkuserlive.net" ∷ ".vk-cdn.net" ∷ ".vk-portal.net" ∷ ".vkclips.app"
      ∷ ".vkcombo.ru" ∷ ".vkpay.com" ∷ ".calls.okcdn.ru" ∷ ".calls-sdk.cdn-vk.ru" ∷ []);
}

abbrev pub russian_services_service : Service
russian_services_service = record {
  id = codes "russian-services";
  name = utf8 "Белые списки";
  process_names = [];
  domains = [];
  domain_suffixes = texts (
      ".ya.ru" ∷ ".yandex.ru" ∷ ".yandex.com" ∷ ".yandex.net" ∷ ".yastatic.net" ∷ ".kinopoisk.ru"
      ∷ ".mail.ru" ∷ ".imgsmail.ru" ∷ ".ok.ru" ∷ ".okcdn.ru" ∷ ".dzen.ru" ∷ ".dzeninfra.ru"
      ∷ ".max.ru" ∷ ".ozon.ru" ∷ ".ozon.com" ∷ ".ozone.ru" ∷ ".ozonusercontent.com"
      ∷ ".wildberries.ru" ∷ ".wb.ru" ∷ ".wbbasket.ru" ∷ ".wbstatic.net" ∷ ".wbcontent.net"
      ∷ ".avito.ru" ∷ ".avito.st" ∷ ".gosuslugi.ru" ∷ ".mos.ru" ∷ ".nalog.ru" ∷ ".nalog.gov.ru"
      ∷ ".sberbank.ru" ∷ ".sber.ru" ∷ ".tbank.ru" ∷ ".tinkoff.ru" ∷ ".tinkoffcdn.ru"
      ∷ ".cdn-tinkoff.ru" ∷ ".t-static.ru" ∷ ".alfabank.ru" ∷ ".vtb.ru" ∷ ".gazprombank.ru"
      ∷ ".nspk.ru" ∷ ".rshb.ru" ∷ ".2gis.ru" ∷ ".2gis.com" ∷ ".2gisapis.ru" ∷ ".rzd.ru" ∷ ".tutu.ru"
      ∷ ".aviasales.ru" ∷ ".hh.ru" ∷ ".superjob.ru" ∷ ".rutube.ru" ∷ ".rutubelist.ru" ∷ ".ivi.ru"
      ∷ ".ivi.tv" ∷ ".okko.tv" ∷ []);
}

abbrev pub regional_services : List Service
regional_services = vk_service ∷ russian_services_service ∷ []

abbrev pub is_regional_service : Bytes → Bool
is_regional_service id = equal id vk_service_id || equal id russian_service_id

-- the choice that is stored for a service in a mode
abbrev pub route_in : Bytes → Option (List (Bytes × Bool)) → Option Bool
route_in id none = none
route_in id (some values) = lookup id values

abbrev pub stored_route : Bytes → Mode → RoutingSettings → Option Bool
stored_route id mode s = route_in id (lookup mode s.service_routes)

abbrev pub chosen_route : Bool → Option Bool → Bool
chosen_route by_default none = by_default
chosen_route by_default (some enabled) = enabled

unfoldable pub service_uses_vpn : (ℕ → ℕ) → Bytes → RoutingSettings → Bool
service_uses_vpn lower id s =
    let mode = normalize_mode lower s.mode in
    if is_regional_service id
    then chosen_route (equal mode mode_all) (stored_route id mode s)
    else if equal mode mode_all
    then true
    else member id (items s.selected_apps)

abbrev pub values_of : Option (List (Bytes × Bool)) → List (Bytes × Bool)
values_of none = []
values_of (some m) = m

unfoldable pub with_service_vpn : (ℕ → ℕ) → Bytes → Bool → RoutingSettings → RoutingSettings
with_service_vpn lower id enabled s =
    let mode = normalize_mode lower s.mode in
    let values = insert id enabled (values_of (lookup mode s.service_routes)) in
    record s { service_routes = insert mode values s.service_routes }

unfoldable pub has_direct_service_exceptions : (ℕ → ℕ) → RoutingSettings → Bool
unfolding service_uses_vpn
has_direct_service_exceptions lower s =
    if not (equal (normalize_mode lower s.mode) mode_all)
    then false
    else not (service_uses_vpn lower vk_service_id s)
      || not (service_uses_vpn lower russian_service_id s)
