-- ===== src/Manager/Routes.antt =====
-- client/manager/smart_supervisor.go: the interfaces of the default routes with the lowest metric.
pub mod Laws
use pinus_smart_awg.Common.{
  Bool, List, [], false, if◌then◌else◌, ltb, not, ℕ, ◌%◌, ◌&&◌, ◌+◌, ◌-◌, ◌==◌, ◌^◌, ◌∷◌,
}
use pinus_smart_awg.Text.Number.{negsuc, pos, ℤ}

-- The metrics are 32-bit numbers.
pub record SmartDefaultRouteCandidate : Type 0 where
  pub interface_index : ℤ
  pub route_metric : ℕ
  pub interface_metric : ℕ
  pub is_up : Bool
  pub excluded : Bool

abbrev is_positive : ℤ → Bool
is_positive (pos n) = ltb 0 n
is_positive (negsuc n) = false

abbrev pub is_candidate : SmartDefaultRouteCandidate → Bool
is_candidate c = is_positive c.interface_index && (c.is_up && not c.excluded)

abbrev pub total_metric : SmartDefaultRouteCandidate → ℕ
total_metric c = (c.route_metric + c.interface_metric) % 2 ^ 64

-- `InterfaceIndex` of a candidate, which is positive
abbrev pub index_of : ℤ → ℕ
index_of (pos n) = n
index_of (negsuc n) = 0

-- The loop with the lowest metric so far and the set of its interfaces; a set keeps one entry of
-- each index, so that only membership in the list matters.
unfoldable pub select_routes : List SmartDefaultRouteCandidate → ℕ → List ℕ → List ℕ
select_routes [] lowest selected = selected
select_routes (c ∷ cs) lowest selected =
    let m = total_metric c in
    let lower = ltb m lowest in
    let reached = if lower then m else lowest in
    let remaining = if lower then [] else selected in
    let added = if m == reached then index_of c.interface_index ∷ remaining else remaining in
    select_routes cs (if is_candidate c then reached else lowest)
      (if is_candidate c then added else selected)

unfoldable pub select_smart_default_route_indexes : List SmartDefaultRouteCandidate → List ℕ
select_smart_default_route_indexes candidates = select_routes candidates (2 ^ 64 - 1) []
