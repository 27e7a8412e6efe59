-- ===== src/Manager/Switch.antt =====
-- client/manager/native_switch.go: which native tunnels stop before another one starts, and the
-- calls that do it.
pub mod Laws
pub mod Execute
pub mod Stop
use pinus_smart_awg.Common.{
  Bool, List, Option, [], false, if◌then◌else◌, is_empty, map, none, not, some, true, ◌++◌, ◌||◌,
  ◌∷◌,
}
use pinus_smart_awg.Text.{Bytes, equal, one_of}
use pinus_smart_awg.Text.Order.{sort_strings}

-- client/manager/ipc_client.go
pub data TunnelState : Type 0 where
  tunnel_unknown : TunnelState
  tunnel_started : TunnelState
  tunnel_stopped : TunnelState
  tunnel_starting : TunnelState
  tunnel_stopping : TunnelState

pub record NativeSwitchPlan : Type 0 where
  pub stop : List Bytes
  pub wait : List Bytes
  pub install : Bool

abbrev pub is_stopped : TunnelState → Bool
is_stopped tunnel_stopped = true
is_stopped _ = false

abbrev pub is_stopping : TunnelState → Bool
is_stopping tunnel_stopping = true
is_stopping _ = false

-- the states in which the target needs no installation
abbrev pub is_running : TunnelState → Bool
is_running tunnel_started = true
is_running tunnel_starting = true
is_running tunnel_unknown = true
is_running _ = false

-- the body of the loop over the states
unfoldable pub plan_state : Bytes → Bytes → TunnelState → NativeSwitchPlan → NativeSwitchPlan
plan_state target name state plan =
    if equal name target
    then if is_running state
      then record plan { install = false }
      else if is_stopping state
      then record plan { wait = plan.wait ++ name ∷ [] }
      else plan
    else if is_stopped state
    then plan
    else record plan { stop = plan.stop ++ name ∷ []; wait = plan.wait ++ name ∷ [] }

unfoldable pub plan_states :
    Bytes → List (Bytes × TunnelState) → NativeSwitchPlan → NativeSwitchPlan
plan_states target [] plan = plan
plan_states target (entry ∷ entries) plan =
    plan_states target entries (plan_state target entry.0 entry.1 plan)

abbrev pub empty_plan : NativeSwitchPlan
empty_plan = record { stop = []; wait = []; install = true }

unfoldable pub plan_native_switch : Bytes → List (Bytes × TunnelState) → NativeSwitchPlan
plan_native_switch target states =
    let plan = plan_states target states empty_plan in
    record plan { stop = sort_strings plan.stop; wait = sort_strings plan.wait }

-- the names in the order of their first appearance, without the empty one
unfoldable pub unique_names : List Bytes → List Bytes → List Bytes
unique_names seen [] = []
unique_names seen (n ∷ ns) = elim (is_empty n || one_of n seen) [
  | true ↦ unique_names seen ns
  | false ↦ n ∷ unique_names (n ∷ seen) ns
]

unfoldable pub not_stopped : List (Bytes × TunnelState) → List Bytes
not_stopped [] = []
not_stopped (entry ∷ entries) =
    let rest = not_stopped entries in if is_stopped entry.1 then rest else entry.0 ∷ rest

-- A call that changes the tunnels of the system.
pub data SwitchCall : Type 0 where
  stop_tunnel : Bytes → SwitchCall
  wait_tunnel : Bytes → SwitchCall
  install_tunnel : SwitchCall

-- What the system answers to the last of the calls made so far, newest first.
abbrev pub Answer : Type 0 → Type 0
Answer E = List SwitchCall → Option E

-- The calls made, newest first, and the errors joined so far with the calls that returned them.
pub record SwitchRun (E : Type 0) : Type 0 where
  pub calls : List SwitchCall
  pub failures : List (SwitchCall × E)

module _ {E : Type 0} where
  abbrev join_error : SwitchCall → Option E → List (SwitchCall × E) → List (SwitchCall × E)
  join_error c none joined = joined
  join_error c (some e) joined = joined ++ (c, e) ∷ []

  -- one call, whose error is joined to the others
  unfoldable pub call : Answer E → SwitchCall → SwitchRun E → SwitchRun E
  call answer c run =
      let made = c ∷ run.calls in
      record { calls = made; failures = join_error c (answer made) run.failures }

  unfoldable pub call_all : Answer E → List SwitchCall → SwitchRun E → SwitchRun E
  call_all answer [] run = run
  call_all answer (c ∷ cs) run = call_all answer cs (call answer c run)

  abbrev pub start_run : SwitchRun E
  start_run = record { calls = []; failures = [] }

  unfoldable pub execute_native_switch : NativeSwitchPlan → Answer E → SwitchRun E
  execute_native_switch plan answer =
      let stopped = call_all answer (map stop_tunnel plan.stop) start_run in
      let waited = call_all answer (map wait_tunnel plan.wait) stopped in
      if not (is_empty waited.failures) || not plan.install
      then waited
      else call answer install_tunnel waited

  -- `normalizeNativeUninstallError`: `gone` tells the two errors of a service that no longer exists.
  unfoldable pub normalize_native_uninstall_error : (E → Bool) → Option E → Option E
  normalize_native_uninstall_error gone none = none
  normalize_native_uninstall_error gone (some e) = if gone e then none else some e

  -- the answers of `UninstallTunnel` as `stopNativeTunnelsLocked` reads them
  abbrev pub forgiving : (E → Bool) → Answer E → Answer E
  forgiving gone answer (stop_tunnel n ∷ cs) =
      normalize_native_uninstall_error gone (answer (stop_tunnel n ∷ cs))
  forgiving gone answer cs = answer cs

  unfoldable pub stop_native_tunnels_locked : (E → Bool) → List Bytes → Answer E → SwitchRun E
  stop_native_tunnels_locked gone names answer =
      let ordered = sort_strings (unique_names [] names) in
      let stopped = call_all (forgiving gone answer) (map stop_tunnel ordered) start_run in
      call_all (forgiving gone answer) (map wait_tunnel ordered) stopped

  unfoldable pub stop_native_tunnel : (E → Bool) → Bytes → Answer E → SwitchRun E
  stop_native_tunnel gone name answer = stop_native_tunnels_locked gone (name ∷ []) answer

  -- `states` is what `nativeTunnelStates` returns.
  unfoldable pub stop_all_native_tunnels :
      (E → Bool) → List (Bytes × TunnelState) → Answer E → SwitchRun E
  stop_all_native_tunnels gone states answer =
      stop_native_tunnels_locked gone (not_stopped states) answer
