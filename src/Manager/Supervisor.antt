-- ===== src/Manager/Supervisor.antt =====
-- client/manager/smart_supervisor.go: the loop that recovers smart routing after changes of the
-- network, failures and requests. A step of the loop is a function of the event that it selects, of
-- the time and of what its dependencies answer. Times and durations are nanoseconds.
pub mod Timer
pub mod Health
pub mod Recovery
use pinus_smart_awg.Common.{
  Bool, List, Option, [], count, false, if◌then◌else◌, is_empty, leb, length, ltb, none, not, some,
  suc, true, ℕ, ◌&&◌, ◌*◌, ◌++◌, ◌+◌, ◌-◌, ◌==◌, ◌||◌, ◌∷◌,
}
use pinus_smart_awg.Text.{Bytes, codes, equal}
use pinus_smart_awg.Text.Number.{negsuc, pos, ℤ}

abbrev pub millisecond : ℕ
millisecond = 1000000

abbrev pub second : ℕ
second = 1000000000

unfoldable pub smart_recovery_delay : ℤ → ℕ
smart_recovery_delay (negsuc n) = second
smart_recovery_delay (pos attempt) =
    if attempt == 0
    then second
    else if attempt == 1
    then 2 * second
    else if attempt == 2
    then 5 * second
    else if attempt == 3
    then 10 * second
    else if attempt == 4
    then 30 * second
    else 60 * second

pub record SmartRecoveryRequest : Type 0 where
  pub reason : Bytes
  pub force : Bool
  pub delay : ℤ

pub record SmartSupervisorConfig : Type 0 where
  pub poll_interval : ℤ
  pub network_settle : ℤ
  pub unhealthy_polls : ℤ
  pub retry_delay : Option (ℤ → ℕ)

abbrev positive_or : ℕ → ℤ → ℤ
positive_or default (pos n) = if n == 0 then pos default else pos n
positive_or default (negsuc n) = pos default

abbrev retry_or : Option (ℤ → ℕ) → Option (ℤ → ℕ)
retry_or none = some smart_recovery_delay
retry_or (some f) = some f

-- the defaults of `newSmartRecoverySupervisor`
unfoldable pub effective_config : SmartSupervisorConfig → SmartSupervisorConfig
effective_config config = record {
  poll_interval = positive_or (5 * second) config.poll_interval;
  network_settle = positive_or (2500 * millisecond) config.network_settle;
  unhealthy_polls = positive_or 2 config.unhealthy_polls;
  retry_delay = retry_or config.retry_delay;
}

abbrev not_negative : ℤ → ℤ
not_negative (pos n) = pos n
not_negative (negsuc n) = pos 0

abbrev pub queue_size : ℕ
queue_size = 8

-- `request`: the queue of the requests that the loop has not received yet
unfoldable pub request :
    SmartRecoveryRequest → List SmartRecoveryRequest → List SmartRecoveryRequest
request r queue =
    if ltb (length queue) queue_size
    then queue ++ (record r { delay = not_negative r.delay }) ∷ []
    else queue

-- What the dependencies answer; `recover` tells whether it fails.
pub record Surroundings : Type 0 where
  pub signature : Bytes
  pub online : Bool
  pub network_fails : Bool
  pub desired_name : Bytes
  pub desired_exists : Bool
  pub desired_fails : Bool
  pub healthy : Bytes → Bool
  pub recover_fails : Bool → Bytes → Bool

-- The variables of `run`. `timer` is the time at which the channel of the timer becomes ready, if
-- there is a timer; `recovered` are the calls of `recover`, newest first.
pub record SupervisorState : Type 0 where
  pub last_signature : Bytes
  pub last_online : Bool
  pub have_signature : Bool
  pub unhealthy_count : ℕ
  pub attempts : ℕ
  pub timer : Option ℕ
  pub pending_reason : Bytes
  pub pending_force : Bool
  pub pending_at : ℕ
  pub has_pending : Bool
  pub stopped : Bool
  pub recovered : List (Bool × Bytes)

pub data SupervisorEvent : Type 0 where
  requested : SmartRecoveryRequest → SupervisorEvent
  reset : SupervisorEvent
  ticked : SupervisorEvent
  timer_fired : SupervisorEvent
  stop_requested : SupervisorEvent

-- `time.Now().Add(delay)`
abbrev pub due_at : ℕ → ℤ → ℕ
due_at now (pos d) = now + d
due_at now (negsuc d) = now - suc d

-- the first reason that is not empty
abbrev keep_reason : Bytes → Bytes → Bytes
keep_reason old new = if is_empty old then new else old

unfoldable pub start_timer : ℕ → SupervisorState → SupervisorState
start_timer due s = record s { pending_at = due; timer = some due }

-- `schedule`; a due time in the past fires at once
unfoldable pub schedule : ℕ → Bytes → Bool → ℤ → SupervisorState → SupervisorState
schedule now reason force delay s =
    let due = due_at now delay in
    let merged = record s {
      pending_force = s.pending_force || force;
      pending_reason = keep_reason s.pending_reason reason;
    } in
    let fresh = record s { pending_force = force; pending_reason = reason; has_pending = true } in
    if s.has_pending
    then if ltb due s.pending_at then start_timer due merged else merged
    else start_timer due fresh

unfoldable pub cancel_pending : SupervisorState → SupervisorState
cancel_pending s = record s {
  timer = none;
  has_pending = false;
  pending_reason = [];
  pending_force = false;
  pending_at = 0;
}

abbrev pub network_changed : Bytes
network_changed = codes "network changed"

abbrev pub health_check_failed : Bytes
health_check_failed = codes "health check failed"

-- the first half of a tick: the signature of the network
unfoldable pub observe_network :
    SmartSupervisorConfig → ℕ → Surroundings → SupervisorState → SupervisorState
observe_network config now env s =
    let changed =
      s.have_signature
      && env.online
      && (not s.last_online || not (equal env.signature s.last_signature)) in
    let scheduled =
      if changed then schedule now network_changed true config.network_settle s else s in
    if env.network_fails then s else record scheduled {
      last_signature = env.signature;
      last_online = env.online;
      have_signature = true;
    }

abbrev reaches : ℤ → ℕ → Bool
reaches (pos polls) count = leb polls count
reaches (negsuc polls) count = true

-- the end of a tick that finds the tunnel unhealthy
unfoldable pub count_unhealthy : SmartSupervisorConfig → ℕ → SupervisorState → SupervisorState
count_unhealthy config now s =
    let counted = record s { unhealthy_count = s.unhealthy_count + 1 } in
    if reaches config.unhealthy_polls counted.unhealthy_count && not counted.has_pending
    then record (schedule now health_check_failed false (pos 0) counted) { unhealthy_count = 0 }
    else counted

-- the second half of a tick: the health of the tunnel
unfoldable pub check_health :
    SmartSupervisorConfig → ℕ → Surroundings → SupervisorState → SupervisorState
check_health config now env s =
    if env.desired_fails
    then s
    else if not env.desired_exists
    then record s { unhealthy_count = 0; attempts = 0 }
    else if env.online && env.healthy env.desired_name
    then record s { unhealthy_count = 0; attempts = 0 }
    else if not env.online
    then record s { unhealthy_count = 0 }
    else count_unhealthy config now s

abbrev retry_time : Option (ℤ → ℕ) → ℕ → ℤ
retry_time none attempts = pos 0
retry_time (some f) attempts = pos (f (pos attempts))

-- The timer has fired. `finished` is the time when `recover` returns.
unfoldable pub run_recovery :
    SmartSupervisorConfig → ℕ → Surroundings → SupervisorState → SupervisorState
run_recovery config finished env s =
    let reason = s.pending_reason in
    let force = s.pending_force in
    let taken = record s {
      timer = none;
      has_pending = false;
      recovered = (force, reason) ∷ s.recovered;
    } in
    let retried = record taken { attempts = s.attempts + 1 } in
    if env.recover_fails force reason
    then schedule finished reason force (retry_time config.retry_delay s.attempts) retried
    else record taken { attempts = 0; unhealthy_count = 0 }

abbrev is_ready : ℕ → Option ℕ → Bool
is_ready now none = false
is_ready now (some due) = leb due now

-- One round of the loop. The channel of the timer is selected only when it is ready.
unfoldable pub supervise :
    SmartSupervisorConfig → ℕ → Surroundings → SupervisorEvent → SupervisorState → SupervisorState
supervise config now env (requested r) s = schedule now r.reason r.force r.delay s
supervise config now env reset s = cancel_pending (record s { attempts = 0; unhealthy_count = 0 })
supervise config now env ticked s = check_health config now env (observe_network config now env s)
supervise config now env timer_fired s =
    if is_ready now s.timer then run_recovery config now env s else s
supervise config now env stop_requested s = record (cancel_pending s) { stopped = true }

-- an event, its time and the answers at that time
abbrev pub Round : Type 0
Round = ℕ × Surroundings × SupervisorEvent

-- the loop over a sequence of events; it ends with a stop
unfoldable pub supervise_all :
    SmartSupervisorConfig → List Round → SupervisorState → SupervisorState
supervise_all config [] s = s
supervise_all config (r ∷ rs) s =
    let next = supervise config r.0 r.1 r.2 s in
    if s.stopped then s else supervise_all config rs next

-- the variables before the loop
unfoldable pub start_supervisor : Surroundings → SupervisorState
start_supervisor env = record {
  last_signature = env.signature;
  last_online = env.online;
  have_signature = not env.network_fails;
  unhealthy_count = 0;
  attempts = 0;
  timer = none;
  pending_reason = [];
  pending_force = false;
  pending_at = 0;
  has_pending = false;
  stopped = false;
  recovered = [];
}
