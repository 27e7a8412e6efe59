-- ===== src/Tests/Service.antt =====
-- The theorems on the manager, the updater and the log, at concrete inputs.
use mathlib.Core.List.{Permᴰ}
use pinus_smart_awg.Common.{
  All, List, [], any, arith, count, false, if◌then◌else◌, is_empty, length, ltb, map, none, not, ok,
  refl, replicate, reverse, some, suc, true, zero, ℕ, ◌&&◌, ◌++◌, ◌==◌, ◌||◌, ◌∷◌, ◌≡◌,
}
use pinus_smart_awg.Manager.Fallback.{recover_with_fallbacks}
use pinus_smart_awg.Manager.Fallback.Laws.{Outcome, distinct, recover_with_fallbacks-Outcome}
use pinus_smart_awg.Manager.Power.{PowerInput, power_event, power_run, power_start, run_pause}
use pinus_smart_awg.Manager.Power.Laws.{plan_run, plan_start, power_run-plan}
use pinus_smart_awg.Manager.Switch.{
  Answer, TunnelState, call, call_all, execute_native_switch, forgiving, install_tunnel,
  plan_native_switch, plan_state, plan_states, stop_native_tunnels_locked, stop_tunnel,
  tunnel_started, tunnel_stopping, wait_tunnel,
}
use pinus_smart_awg.Manager.Switch.Execute.{
  calls_before, execute_native_switch-plan, execute_native_switch_lem, is_nil, is_stop_of,
  is_wait_of, succeed,
}
use pinus_smart_awg.Manager.Switch.Laws.{
  holds_target, must_stop, must_wait, plan_native_switch-Perm, plan_native_switch_iff,
}
use pinus_smart_awg.Manager.Switch.Stop.{stop_native_tunnels_locked_lem}
use pinus_smart_awg.Smart.{RoutingSettings, insert, mode_all}
use pinus_smart_awg.Tests.{plain_case}
use pinus_smart_awg.Text.{Bytes, codes, equal}
use pinus_smart_awg.Text.Base64.{IsByte, decode}
use pinus_smart_awg.Text.Hex.{from_hex, hex_digit, hex_value, to_hex}
use pinus_smart_awg.Text.Number.{parse_digits, parse_uint, pos}
use pinus_smart_awg.Text.Order.{compare_bytes, insert_sorted, sort_strings}
use pinus_smart_awg.Text.Order.Sorted.{IsSorted}
use pinus_smart_awg.Text.Search.{cut, has_prefix, has_suffix, split, trim_prefix, trim_suffix}
use pinus_smart_awg.Updater.Signify.{
  Verify, cut_text, decoded_key, hash_line, hash_lines, newline, read_file_list, three_lines,
}
use pinus_smart_awg.Updater.Signify.Laws.{IsSigned, read_file_list-IsSigned}
use pinus_smart_awg.Updater.Signify.RoundTrip.{
  hash_lines-text, hash_list_text, hash_text, insert_all,
}
use pinus_smart_awg.Updater.Versions.{
  UpdateFound, compare_parts, find_candidate, installer_version, is_newer_installer,
  version_newer_than, version_part,
}
use pinus_smart_awg.Updater.Versions.Laws.{
  Chosen, find_candidate-Chosen, is_newer_version, version_newer_than-text,
  version_newer_than_order, version_text,
}

abbrev home : Bytes
home = codes "home"

abbrev work : Bytes
work = codes "work"

abbrev two_states : List (Bytes × TunnelState)
two_states = (home, tunnel_started) ∷ (work, tunnel_stopping) ∷ []

abbrev all_fine : Answer ℕ
all_fine calls = none

plan_native_switch_iff_example :
    (any (equal home) (plan_native_switch work two_states).stop
      ≡ any (λ e. equal home e.0 && must_stop work e) two_states)
    × (any (equal home) (plan_native_switch work two_states).wait
        ≡ any (λ e. equal home e.0 && must_wait work e) two_states)
    × ((plan_native_switch work two_states).install ≡ not (any (holds_target work) two_states))
    × IsSorted (plan_native_switch work two_states).stop
    × IsSorted (plan_native_switch work two_states).wait
plan_native_switch_iff_example = plan_native_switch_iff work home two_states

plan_native_switch-Perm_example :
    plan_native_switch work two_states
    ≡ plan_native_switch work ((work, tunnel_stopping) ∷ (home, tunnel_started) ∷ [])
plan_native_switch-Perm_example = plan_native_switch-Perm work (Permᴰ.swap refl refl)

execute_native_switch_lem_example :
    ((execute_native_switch (plan_native_switch work two_states) all_fine).calls ≡ (
      if succeed all_fine [] (calls_before (plan_native_switch work two_states))
        && (plan_native_switch work two_states).install
      then install_tunnel ∷ reverse (calls_before (plan_native_switch work two_states))
      else reverse (calls_before (plan_native_switch work two_states))))
    × (is_empty (execute_native_switch (plan_native_switch work two_states) all_fine).failures ≡ (
        succeed all_fine [] (calls_before (plan_native_switch work two_states))
        && (not (plan_native_switch work two_states).install
            || is_nil (
                all_fine
                  (install_tunnel ∷ reverse (calls_before (plan_native_switch work two_states)))))))
execute_native_switch_lem_example =
    execute_native_switch_lem (plan_native_switch work two_states) all_fine

execute_native_switch-plan_example :
    (any
        (is_stop_of home)
        (execute_native_switch (plan_native_switch work two_states) all_fine).calls
      ≡ true)
    × (any
          (is_wait_of home)
          (execute_native_switch (plan_native_switch work two_states) all_fine).calls
        ≡ true)
    × (succeed all_fine [] (calls_before (plan_native_switch work two_states)) ≡ true)
    × (any (holds_target work) two_states ≡ false)
unfolding equal execute_native_switch plan_native_switch plan_states plan_state call_all call
    sort_strings insert_sorted compare_bytes
execute_native_switch-plan_example =
    execute_native_switch-plan work home two_states all_fine refl refl

stop_native_tunnels_locked_lem_example :
    (ordered : List Bytes) × ((stop_native_tunnels_locked
        (λ (e : ℕ). e == 5)
        (work ∷ home ∷ work ∷ [])
        all_fine).calls
      ≡ reverse (map stop_tunnel ordered ++ map wait_tunnel ordered))
    × (is_empty
          (stop_native_tunnels_locked
            (λ (e : ℕ). e == 5)
            (work ∷ home ∷ work ∷ [])
            all_fine).failures
        ≡ succeed
            (forgiving (λ (e : ℕ). e == 5) all_fine)
            []
            (map stop_tunnel ordered ++ map wait_tunnel ordered))
    × IsSorted ordered
    × ((name : Bytes)
        → count (equal name) ordered
          ≡ (if not (is_empty name) && any (equal name) (work ∷ home ∷ work ∷ []) then 1 else 0))
stop_native_tunnels_locked_lem_example =
    stop_native_tunnels_locked_lem (λ (e : ℕ). e == 5) (work ∷ home ∷ work ∷ []) all_fine

-- a suspend, a resume, and only then the pause of the suspend
abbrev asleep_again : List PowerInput
asleep_again = power_event 4 ∷ power_event 7 ∷ power_event 4 ∷ run_pause 0 ∷ run_pause 0 ∷ []

power_run-plan_example :
    ((power_run asleep_again power_start).power_calls
      ≡ (plan_run asleep_again plan_start).calls_made)
    × ((power_run asleep_again power_start).suspended ≡ (plan_run asleep_again plan_start).sleeping)
power_run-plan_example = power_run-plan asleep_again (omega arith)

abbrev plain_routing : RoutingSettings
plain_routing = record {
  service_routes = [];
  catalog_envelope = [];
  fallback_profiles = codes "HOME" ∷ work ∷ [];
  protection = [];
  version = pos 5;
  mode = mode_all;
  selected_apps = some [];
  custom_rules = [];
}

recover_with_fallbacks-Outcome_example :
    Outcome {E = ℕ}
      (λ made. if ltb (length made) 2 then some 1 else none)
      []
      (distinct plain_case [] (home ∷ plain_routing.fallback_profiles))
      (recover_with_fallbacks plain_case home plain_routing
        (λ made. if ltb (length made) 2 then some 1 else none))
recover_with_fallbacks-Outcome_example =
    recover_with_fallbacks-Outcome plain_case home plain_routing
      (λ made. if ltb (length made) 2 then some 1 else none)

version_newer_than_order_example :
    (version_newer_than (codes "3.9") (codes "4") ≡ ok true)
    × (version_newer_than (codes "3.10") (codes "3.9") ≡ ok false)
unfolding version_newer_than compare_parts version_part split parse_uint parse_digits
version_newer_than_order_example =
    version_newer_than_order (codes "3.9") (codes "3.10") (codes "4") refl refl

version_newer_than-text_example :
    version_newer_than (version_text (3 ∷ 9 ∷ [])) (version_text (3 ∷ 10 ∷ []))
    ≡ ok (is_newer_version (3 ∷ 10 ∷ []) (3 ∷ 9 ∷ []))
version_newer_than-text_example =
    version_newer_than-text 3 3 (10 ∷ []) (9 ∷ []) (omega arith, (omega arith, tt))
      (omega arith, (omega arith, tt))

abbrev two_installers : List UpdateFound
two_installers = (codes "wireguard-amd64-0.4.msi", []) ∷ (codes "wireguard-amd64-0.6.msi", []) ∷ []

find_candidate-Chosen_example :
    Chosen (codes "0.5") (codes "amd64") two_installers (some (codes "wireguard-amd64-0.6.msi", []))
unfolding find_candidate is_newer_installer installer_version trim_suffix trim_prefix has_suffix
    has_prefix version_newer_than compare_parts version_part split parse_uint parse_digits
find_candidate-Chosen_example =
    find_candidate-Chosen (codes "0.5") (codes "amd64") two_installers refl

abbrev pair_of_bytes : Bytes
pair_of_bytes = replicate 32 7

sevens-All : (n : ℕ) → All IsByte (replicate n 7)
sevens-All zero = tt
sevens-All (suc n) = (omega arith, sevens-All n)

hash_lines-text_example :
    hash_lines (split newline (hash_list_text ((codes "a.msi", pair_of_bytes) ∷ []))) []
    ≡ ok (insert_all ((codes "a.msi", pair_of_bytes) ∷ []) [])
hash_lines-text_example =
    hash_lines-text ((codes "a.msi", pair_of_bytes) ∷ []) []
      ((sevens-All 32, refl, (refl, (refl, (refl, (refl, (refl, tt)))))), tt)

-- a list with a signature that the stand-in for ed25519 accepts: it checks that the message is there
abbrev accepts : Verify
accepts key message signature = length signature == 64 && not (is_empty message)

abbrev signed_input : Bytes
signed_input =
    codes "untrusted comment: x\n"
    ++ (codes
          "RWRNqGKtBXftKQAAAAAAAAAAAAAAAAAAAAAAAAAAAAAAAAAAAAAAAAAAAAAAAAAAAAAAAAAAAAAAAAAAAAAAAAAAAAAAAAAAAAA="
        ++ (codes "\n" ++ hash_list_text ((codes "a.msi", pair_of_bytes) ∷ [])))

read_file_list-IsSigned_example :
    IsSigned accepts signed_input ((codes "a.msi", pair_of_bytes) ∷ [])
unfolding read_file_list decoded_key decode three_lines cut has_prefix equal hash_lines split
    hash_line cut_text from_hex hex_value insert hash_list_text hash_text to_hex hex_digit
read_file_list-IsSigned_example = read_file_list-IsSigned accepts signed_input refl
