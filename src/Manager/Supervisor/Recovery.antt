-- ===== src/Manager/Supervisor/Recovery.antt =====
-- When the supervisor calls for a recovery.
use pinus_smart_awg.Common.{
  All, Bool, Bool-cases, List, [], ap, arith, false, if◌then◌else◌, inl, inr, leb, none, not, refl,
  some, true, ℕ, ◌*◌, ◌+◌, ◌||◌, ◌∙◌, ◌∷◌, ◌≡◌, ◌≤◌,
}
use pinus_smart_awg.Conf.Values.{fails}
use pinus_smart_awg.Manager.Supervisor.{
  Round, SmartRecoveryRequest, SmartSupervisorConfig, SupervisorState, Surroundings, cancel_pending,
  due_at, effective_config, is_ready, requested, reset, retry_time, run_recovery, schedule, second,
  smart_recovery_delay, start_supervisor, stop_requested, supervise, supervise_all, ticked,
  timer_fired,
}
use pinus_smart_awg.Manager.Supervisor.Timer.{
  IsPromised, IsTimed, quiet, schedule-Scheduled, supervise-Kept, supervise_all-Kept,
}
use pinus_smart_awg.Text.{Bytes}
use pinus_smart_awg.Text.Number.{negsuc, pos, ℤ}

run_recovery-IsTimed :
    (config : SmartSupervisorConfig) (now : ℕ) (env : Surroundings) (s : SupervisorState)
    → IsTimed (run_recovery config now env s)
unfolding run_recovery
run_recovery-IsTimed config now env s =
    let taken = record s {
      timer = none;
      has_pending = false;
      recovered = (s.pending_force, s.pending_reason) ∷ s.recovered;
    } in
    let retried = record taken { attempts = s.attempts + 1 } in
    elim (Bool-cases (env.recover_fails s.pending_force s.pending_reason)) [
      | inl e ↦ rw e (
          (schedule-Scheduled now s.pending_reason s.pending_force
              (retry_time config.retry_delay s.attempts) retried).0
            refl)
      | inr e ↦ rw e refl
    ]

supervise-IsTimed :
    (config : SmartSupervisorConfig) (r : Round) (s : SupervisorState)
    → IsTimed s
    → IsTimed (supervise config r.0 r.1 r.2 s)
unfolding supervise cancel_pending
supervise-IsTimed config (now, env, requested r) s h =
    (supervise-Kept config (now, env, requested r) s refl).0 h
supervise-IsTimed config (now, env, ticked) s h =
    (supervise-Kept config (now, env, ticked) s refl).0 h
supervise-IsTimed config (now, env, reset) s h = refl
supervise-IsTimed config (now, env, stop_requested) s h = refl
supervise-IsTimed config (now, env, timer_fired) s h = elim (Bool-cases (is_ready now s.timer)) [
  | inl e ↦ rw e (run_recovery-IsTimed config now env s)
  | inr e ↦ rw e h
]

IsTimed-if :
    (b : Bool) (s t : SupervisorState) → IsTimed s → IsTimed t → IsTimed (if b then s else t)
IsTimed-if true s t h k = h
IsTimed-if false s t h k = k

supervise_all-IsTimed_from :
    (config : SmartSupervisorConfig) (rs : List Round) (s : SupervisorState)
    → IsTimed s
    → IsTimed (supervise_all config rs s)
unfolding supervise_all
supervise_all-IsTimed_from config [] s h = h
supervise_all-IsTimed_from config (r ∷ rs) s h =
    IsTimed-if s.stopped s (supervise_all config rs (supervise config r.0 r.1 r.2 s)) h (
      supervise_all-IsTimed_from config rs (supervise config r.0 r.1 r.2 s)
        (supervise-IsTimed config r s h))

-- Whatever happens, the loop has a timer exactly while a recovery is pending, and it is set for the
-- time at which that recovery is due.
pub supervise_all-IsTimed :
    (config : SmartSupervisorConfig) (env : Surroundings) (rs : List Round)
    → IsTimed (supervise_all config rs (start_supervisor env))
unfolding start_supervisor
supervise_all-IsTimed config env rs =
    supervise_all-IsTimed_from config rs (start_supervisor env) refl

run_recovery-recovered :
    (config : SmartSupervisorConfig) (now : ℕ) (env : Surroundings) (s : SupervisorState)
    → (run_recovery config now env s).recovered ≡ (s.pending_force, s.pending_reason) ∷ s.recovered
unfolding run_recovery
run_recovery-recovered config now env s =
    let taken = record s {
      timer = none;
      has_pending = false;
      recovered = (s.pending_force, s.pending_reason) ∷ s.recovered;
    } in
    let retried = record taken { attempts = s.attempts + 1 } in
    elim (Bool-cases (env.recover_fails s.pending_force s.pending_reason)) [
      | inl e ↦ rw e (
          (schedule-Scheduled now s.pending_reason s.pending_force
            (retry_time config.retry_delay s.attempts) retried).3)
      | inr e ↦ rw e refl
    ]

timer_ready :
    (later latest : ℕ) (force : Bool) (t : SupervisorState)
    → IsTimed t
    → IsPromised force latest t
    → latest ≤ later
    → is_ready later t.timer ≡ true
timer_ready later latest force t timed h late =
    let set : t.timer ≡ some t.pending_at =
      timed ∙ ap (λ b. if b then some t.pending_at else none) h.is_pending in
    rw set (le→leb t.pending_at later (omega (arith, h.in_time, late)))
  where
    le→leb : (a b : ℕ) → a ≤ b → leb a b ≡ true
    le→leb a b h = ground arith

supervise-ready :
    (config : SmartSupervisorConfig) (now : ℕ) (env : Surroundings) (s : SupervisorState)
    → is_ready now s.timer ≡ true
    → supervise config now env timer_fired s ≡ run_recovery config now env s
unfolding supervise
supervise-ready config now env s h = rw h refl

-- the next call of `recover` comes when the timer fires at the promised time
fires :
    (config : SmartSupervisorConfig) (later latest : ℕ) (env : Surroundings) (force : Bool)
    (t : SupervisorState)
    → IsTimed t
    → IsPromised force latest t
    → latest ≤ later
    → (f : Bool) × (x : Bytes) × ((supervise config later env timer_fired t).recovered
        ≡ (f, x) ∷ t.recovered)
      × ((not force || f) ≡ true)
fires config later latest env force t timed h late = (
  t.pending_force,
  t.pending_reason,
  ap (λ u. u.recovered)
        (supervise-ready config later env t (timer_ready later latest force t timed h late))
      ∙ run_recovery-recovered config later env t,
  h.forced,
)

-- A recovery that is requested is attempted as soon as its delay has passed, with force if it was
-- requested with force, whatever other requests and ticks come in between: the timer is ready then,
-- and the call that it leads to is the next one.
pub supervise_all-requested :
    (config : SmartSupervisorConfig) (now later : ℕ) (env env' : Surroundings)
    (r : SmartRecoveryRequest) (rs : List Round) (s : SupervisorState)
    → IsTimed s
    → All (λ r. quiet r.2 ≡ true) rs
    → due_at now r.delay ≤ later
    → (f : Bool) × (x : Bytes) × ((supervise config later env' timer_fired
          (supervise_all config rs (supervise config now env (requested r) s))).recovered
        ≡ (f, x) ∷ s.recovered)
      × ((not r.force || f) ≡ true)
unfolding supervise
supervise_all-requested config now later env env' r rs s timed calm late =
    let asked = schedule-Scheduled now r.reason r.force r.delay s in
    let t = schedule now r.reason r.force r.delay s in
    let kept = supervise_all-Kept config rs t calm in
    let call =
      fires config later (due_at now r.delay) env' r.force (supervise_all config rs t)
        (kept.0 (asked.0 timed)) (kept.1 r.force (due_at now r.delay) asked.1) late in
    (call.0, call.1, call.2 ∙ ap (◌∷◌ (call.0, call.1)) (kept.2 ∙ asked.3), call.3)

smart_recovery_delay_bound : (n : ℤ) → smart_recovery_delay n ≤ 60 * second
unfolding smart_recovery_delay
smart_recovery_delay_bound (pos n) = ground arith
smart_recovery_delay_bound (negsuc n) = ground arith

failed_again :
    (config : SmartSupervisorConfig) (now : ℕ) (env : Surroundings) (s : SupervisorState)
    → config.retry_delay ≡ none
    → env.recover_fails s.pending_force s.pending_reason ≡ true
    → IsPromised s.pending_force
        (now + 60 * second)
        (run_recovery (effective_config config) now env s)
unfolding run_recovery effective_config
failed_again config now env s plain fails =
    rw (fails, plain)
      (sooner
        (schedule-Scheduled now s.pending_reason s.pending_force
          (pos (smart_recovery_delay (pos s.attempts)))
          (record s {
            attempts = s.attempts + 1;
            timer = none;
            has_pending = false;
            recovered = (s.pending_force, s.pending_reason) ∷ s.recovered;
          })).1)
  where
    sooner :
        {t : SupervisorState}
        → IsPromised s.pending_force (now + smart_recovery_delay (pos s.attempts)) t
        → IsPromised s.pending_force (now + 60 * second) t
    sooner h = record {
      is_pending = h.is_pending;
      in_time = omega (arith, h.in_time, smart_recovery_delay_bound (pos s.attempts));
      forced = h.forced;
    }

-- With the default delays, a recovery that fails is attempted again, with force if it was attempted
-- with force, once 60 seconds have passed, whatever other requests and ticks come in between.
pub supervise_all-retried :
    (config : SmartSupervisorConfig) (now later : ℕ) (env env' : Surroundings) (rs : List Round)
    (s : SupervisorState)
    → config.retry_delay ≡ none
    → is_ready now s.timer ≡ true
    → env.recover_fails s.pending_force s.pending_reason ≡ true
    → All (λ r. quiet r.2 ≡ true) rs
    → now + 60 * second ≤ later
    → (f : Bool) × (x : Bytes) × ((supervise (effective_config config) later env' timer_fired (
          supervise_all
            (effective_config config)
            rs
            (supervise (effective_config config) now env timer_fired s))).recovered
        ≡ (f, x) ∷ (s.pending_force, s.pending_reason) ∷ s.recovered)
      × ((not s.pending_force || f) ≡ true)
supervise_all-retried config now later env env' rs s plain ready fails calm late =
    let eff = effective_config config in
    let t = run_recovery eff now env s in
    let kept = supervise_all-Kept eff rs t calm in
    let again = failed_again config now env s plain fails in
    let call =
      fires eff later (now + 60 * second) env' s.pending_force (supervise_all eff rs t)
        (kept.0 (run_recovery-IsTimed eff now env s))
        (kept.1 s.pending_force (now + 60 * second) again) late in
    rw (supervise-ready eff now env s ready) (
      call.0,
      call.1,
      call.2 ∙ ap (◌∷◌ (call.0, call.1)) (kept.2 ∙ run_recovery-recovered eff now env s),
      call.3,
    )
