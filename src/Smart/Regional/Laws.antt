-- ===== src/Smart/Regional/Laws.antt =====
-- What setting a service's route does to the routes of every service and mode.
use pinus_smart_awg.Common.{
  Bool, Bool-cases, List, Option, ap, arith, false, if◌then◌else◌, inl, inr, none, refl, some, true,
  ℕ, ◌&&◌, ◌∙◌, ◌≡◌,
}
use pinus_smart_awg.Smart.{
  Mode, RoutingSettings, insert, items, lookup, lookup-insert, member, mode_all,
}
use pinus_smart_awg.Smart.Regional.{
  chosen_route, is_regional_service, route_in, service_uses_vpn, stored_route, values_of,
  with_service_vpn,
}
use pinus_smart_awg.Smart.Settings.{normalize_mode}
use pinus_smart_awg.Text.{Bytes, equal, equal_iff}

lookup-values_of :
    (j : Bytes) (o : Option (List (Bytes × Bool))) → lookup j (values_of o) ≡ route_in j o
unfolding lookup
lookup-values_of j none = refl
lookup-values_of j (some m) = refl

stored_route-with_service_vpn :
    (lower : ℕ → ℕ) (id : Bytes) (enabled : Bool) (s : RoutingSettings) (j : Bytes) (m : Mode)
    → stored_route j m (with_service_vpn lower id enabled s) ≡ (
        if equal (normalize_mode lower s.mode) m && equal id j
        then some enabled
        else stored_route j m s)
unfolding with_service_vpn
stored_route-with_service_vpn lower id enabled s j m =
    ap (route_in j) (lookup-insert n m values s.service_routes) ∙ go (equal n m) refl
  where
    n : Mode
    n = normalize_mode lower s.mode

    values : List (Bytes × Bool)
    values = insert id enabled (values_of (lookup n s.service_routes))

    go :
        (b : Bool)
        → equal n m ≡ b
        → route_in j (if b then some values else lookup m s.service_routes)
          ≡ (if b && equal id j then some enabled else stored_route j m s)
    go false e = refl
    go true e =
        lookup-insert id j enabled (values_of (lookup n s.service_routes))
        ∙ rw (lookup-values_of, (equal_iff n m).0 e) refl

-- After the route of a regional service is set, that service has the new route in the mode of
-- the settings, however that is spelled; each other service, and each service in another mode,
-- has the route that it had.
pub service_uses_vpn-with_service_vpn :
    (lower : ℕ → ℕ) (id : Bytes) (enabled : Bool) (s : RoutingSettings) (j : Bytes) (m : Mode)
    → is_regional_service id ≡ true
    → service_uses_vpn lower j (record (with_service_vpn lower id enabled s) { mode = m }) ≡ (
        if equal (normalize_mode lower s.mode) (normalize_mode lower m) && equal id j
        then enabled
        else service_uses_vpn lower j (record s { mode = m }))
unfolding service_uses_vpn with_service_vpn
service_uses_vpn-with_service_vpn lower id enabled s j m h = go (is_regional_service j) refl
  where
    n : Mode
    n = normalize_mode lower m

    all : Bool
    all = equal n mode_all

    now : Bool
    now = equal (normalize_mode lower s.mode) n

    plain : Bool
    plain = if all then true else member j (items s.selected_apps)

    chosen :
        (b : Bool) (o : Option Bool)
        → chosen_route all (if b then some enabled else o)
          ≡ (if b then enabled else chosen_route all o)
    chosen true o = refl
    chosen false o = refl

    go :
        (r : Bool)
        → is_regional_service j ≡ r
        → (if r
            then chosen_route all (stored_route j n (with_service_vpn lower id enabled s))
            else plain)
          ≡ (if now && equal id j
              then enabled
              else if r
              then chosen_route all (stored_route j n s)
              else plain)
    go true e =
        ap (chosen_route all) (stored_route-with_service_vpn lower id enabled s j n)
        ∙ chosen (now && equal id j) (stored_route j n s)
    go false e = elim (Bool-cases (equal id j)) [
      | inl k ↦ cc (h, e, (equal_iff id j).0 k)
      | inr k ↦ rw k (ground arith)
    ]
