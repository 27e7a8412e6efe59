-- ===== src/Tests/Runtime.antt =====
-- The theorems on the supervisor and the log, at concrete inputs.
use pinus_smart_awg.Common.{
  All, Bool, List, [], any, arith, drop, false, length, length-replicate, map, none, not, ok, refl,
  some, true, ℕ, ◌*◌, ◌-◌, ◌==◌, ◌^◌, ◌||◌, ◌∷◌, ◌≡◌,
}
use pinus_smart_awg.Manager.Routes.{SmartDefaultRouteCandidate, select_smart_default_route_indexes}
use pinus_smart_awg.Manager.Routes.Laws.{is_best, select_smart_default_route_indexes_iff}
use pinus_smart_awg.Manager.Supervisor.{
  SmartRecoveryRequest, SmartSupervisorConfig, SupervisorState, Surroundings, effective_config,
  requested, second, start_supervisor, supervise, supervise_all, ticked, timer_fired,
}
use pinus_smart_awg.Manager.Supervisor.Health.{supervise_all-unhealthy}
use pinus_smart_awg.Manager.Supervisor.Recovery.{
  supervise_all-IsTimed, supervise_all-requested, supervise_all-retried,
}
use pinus_smart_awg.Manager.Supervisor.Timer.{IsTimed}
use pinus_smart_awg.Ringlogger.{follow_from_cursor, zero_mem}
use pinus_smart_awg.Ringlogger.Contents.{
  IsShown, logged, logged_lem, message_line, open_logger, trimmed,
}
use pinus_smart_awg.Ringlogger.Follow.{follow_from_cursor-write_all}
use pinus_smart_awg.Ringlogger.Window.{Message, write_all}
use pinus_smart_awg.Text.{Bytes, codes}
use pinus_smart_awg.Text.Number.{pos}
use pinus_smart_awg.Text.Search.{Free}
use pinus_smart_awg.Text.Trim.{trim_space}

abbrev calm_place : Surroundings
calm_place = record {
  signature = codes "a";
  online = true;
  network_fails = false;
  desired_name = codes "home";
  desired_exists = true;
  desired_fails = false;
  healthy = λ name. false;
  recover_fails = λ force reason. true;
}

abbrev no_config : SmartSupervisorConfig
no_config = record {
  poll_interval = pos 0;
  network_settle = pos 0;
  unhealthy_polls = pos 2;
  retry_delay = none;
}

abbrev resumed : SmartRecoveryRequest
resumed = record { reason = codes "system resumed"; force = true; delay = pos (2 * second) }

supervise_all-IsTimed_example : IsTimed (
    supervise_all no_config ((0, calm_place, requested resumed) ∷ []) (start_supervisor calm_place))
supervise_all-IsTimed_example =
    supervise_all-IsTimed no_config calm_place ((0, calm_place, requested resumed) ∷ [])

supervise_all-requested_example :
    (f : Bool) × (x : Bytes) × ((supervise no_config (3 * second) calm_place timer_fired (
        supervise_all no_config ((second, calm_place, ticked) ∷ []) (
          supervise no_config 0 calm_place
            (requested resumed)
            (start_supervisor calm_place)))).recovered
      ≡ (f, x) ∷ (start_supervisor calm_place).recovered)
    × ((not true || f) ≡ true)
unfolding start_supervisor
supervise_all-requested_example =
    supervise_all-requested no_config 0 (3 * second) calm_place calm_place resumed
      ((second, calm_place, ticked) ∷ []) (start_supervisor calm_place) refl (refl, tt)
      (omega arith)

-- the state after a request whose timer is due
abbrev armed : SupervisorState
armed = record {
  last_signature = [];
  last_online = true;
  have_signature = true;
  unhealthy_count = 0;
  attempts = 0;
  timer = some 5;
  pending_reason = codes "network changed";
  pending_force = true;
  pending_at = 5;
  has_pending = true;
  stopped = false;
  recovered = [];
}

supervise_all-retried_example :
    (f : Bool) × (x : Bytes) × ((supervise
        (effective_config no_config)
        (90 * second)
        calm_place
        timer_fired
        (supervise_all
          (effective_config no_config)
          ((second, calm_place, ticked) ∷ [])
          (supervise (effective_config no_config) 9 calm_place timer_fired armed))).recovered
      ≡ (f, x) ∷ (true, codes "network changed") ∷ [])
    × ((not true || f) ≡ true)
supervise_all-retried_example =
    supervise_all-retried no_config 9 (90 * second) calm_place calm_place
      ((second, calm_place, ticked) ∷ []) armed refl refl refl (refl, tt) (omega arith)

supervise_all-unhealthy_example :
    (supervise_all no_config
      ((5, calm_place, ticked) ∷ (6, calm_place, ticked) ∷ [])
      (start_supervisor calm_place)).has_pending
    ≡ true
unfolding start_supervisor
supervise_all-unhealthy_example =
    supervise_all-unhealthy no_config 2 ((5, calm_place, ticked) ∷ (6, calm_place, ticked) ∷ [])
      (start_supervisor calm_place) refl (omega arith) refl
      ((refl, refl, refl, refl, refl), ((refl, refl, refl, refl, refl), tt)) (omega arith)

abbrev two_messages : List Message
two_messages = (codes "started", pos 7) ∷ (codes "stopped", pos 9) ∷ []

plain_tag : Free 0 (codes "TUN")
plain_tag = (refl, (refl, (refl, tt)))

plain_messages : All IsShown two_messages
plain_messages = (
  ((refl, (refl, (refl, (refl, (refl, (refl, (refl, tt))))))), refl),
  (((refl, (refl, (refl, (refl, (refl, (refl, (refl, tt))))))), refl), tt),
)

abbrev raw_messages : List Message
raw_messages = (codes " started", pos 7) ∷ (codes "  ", pos 8) ∷ (codes "stopped ", pos 9) ∷ []

logged_lem_example :
    logged raw_messages (open_logger (codes "TUN") zero_mem)
    ≡ ok (
        map
          (message_line (codes "TUN"))
          (drop (length (trimmed raw_messages) - 2048) (trimmed raw_messages)))
unfolding trimmed trim_space
logged_lem_example = logged_lem (codes "TUN") raw_messages (omega arith) plain_tag plain_messages

follow_from_cursor-write_all_example :
    follow_from_cursor 0 (write_all (codes "TUN") two_messages zero_mem)
    ≡ (map (message_line (codes "TUN")) two_messages, 2)
follow_from_cursor-write_all_example =
    follow_from_cursor-write_all (codes "TUN") two_messages zero_mem (omega arith) plain_tag
      plain_messages (λ i. length-replicate {A = ℕ} 512 0) (omega arith)

abbrev a_route : ℕ → ℕ → ℕ → Bool → SmartDefaultRouteCandidate
a_route index metric link excluded = record {
  interface_index = pos index;
  route_metric = metric;
  interface_metric = link;
  is_up = true;
  excluded = excluded;
}

abbrev three_routes : List SmartDefaultRouteCandidate
three_routes = a_route 4 20 5 false ∷ a_route 7 0 10 true ∷ a_route 9 5 10 false ∷ []

select_smart_default_route_indexes_iff_example :
    any (◌==◌ 9) (select_smart_default_route_indexes three_routes)
    ≡ any (is_best 9 (2 ^ 64 - 1) three_routes) three_routes
select_smart_default_route_indexes_iff_example =
    select_smart_default_route_indexes_iff 9 three_routes
