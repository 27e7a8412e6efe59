-- ===== src/Manager/Supervisor/Timer.antt =====
-- The timer of the supervisor: a recovery that is asked for is attempted in time.
use pinus_smart_awg.Common.{
  All, Bool, Bool-cases, List, [], arith, count, false, if◌then◌else◌, inl, inr, ltb, ltb-false→le,
  ltb→lt, none, not, refl, some, true, ℕ, ◌&&◌, ◌+◌, ◌||◌, ◌∙◌, ◌∷◌, ◌≡◌, ◌≤◌,
}
use pinus_smart_awg.Manager.Supervisor.{
  Round, SmartSupervisorConfig, SupervisorEvent, SupervisorState, Surroundings, check_health,
  count_unhealthy, due_at, health_check_failed, network_changed, observe_network, reaches,
  requested, reset, schedule, start_timer, stop_requested, supervise, supervise_all, ticked,
  timer_fired,
}
use pinus_smart_awg.Text.{Bytes, equal}
use pinus_smart_awg.Text.Number.{pos, ℤ}

-- there is a timer exactly while a recovery is pending, and it is set for the pending time
abbrev pub IsTimed : SupervisorState → Type 0
IsTimed s = s.timer ≡ (if s.has_pending then some s.pending_at else none)

-- A recovery is pending that starts by `latest`, and as forcefully as `force` asks.
pub record IsPromised (force : Bool) (latest : ℕ) (s : SupervisorState) : Type 0 where
  pub is_pending : s.has_pending ≡ true
  pub in_time : s.pending_at ≤ latest
  pub forced : (not force || s.pending_force) ≡ true

-- the four ways of `schedule`
abbrev pub Scheduled : ℕ → Bool → SupervisorState → SupervisorState → Type 0
Scheduled due force s t =
    (IsTimed s → IsTimed t)
    × IsPromised force due t
    × ((f : Bool) (latest : ℕ) → IsPromised f latest s → IsPromised f latest t)
    × (t.recovered ≡ s.recovered)
    × (t.stopped ≡ s.stopped)
    × (t.unhealthy_count ≡ s.unhealthy_count)

implies_refl : (a : Bool) → (not a || a) ≡ true
implies_refl a = ground arith

implies_right : (a b : Bool) → (not b || (a || b)) ≡ true
implies_right a b = ground arith

implies_left : (a b c : Bool) → (not c || a) ≡ true → (not c || (a || b)) ≡ true
implies_left a b c h = ground arith

pub schedule-Scheduled :
    (now : ℕ) (reason : Bytes) (force : Bool) (delay : ℤ) (s : SupervisorState)
    → Scheduled (due_at now delay) force s (schedule now reason force delay s)
unfolding schedule start_timer
schedule-Scheduled now reason force delay s = elim (Bool-cases s.has_pending) [
  | inr e ↦ rw e (
    λ h. refl,
    record { is_pending = refl; in_time = omega arith; forced = implies_refl force },
    λ f latest h. cc (h.is_pending),
    refl,
    refl,
    refl,
  )
  | inl e ↦ elim (Bool-cases (ltb (due_at now delay) s.pending_at)) [
    | inl k ↦
        rw (e, k)
          (
            λ h. refl,
            record {
              is_pending = refl;
              in_time = omega arith;
              forced = implies_right s.pending_force force;
            },
            λ f latest h. record {
              is_pending = refl;
              in_time = omega (arith, h.in_time, ltb→lt (due_at now delay) s.pending_at k);
              forced = implies_left s.pending_force force f h.forced;
            },
            refl,
            refl,
            refl,
          )
    | inr k ↦
        rw (e, k)
          (
            λ h. h,
            record {
              is_pending = refl;
              in_time = ltb-false→le (due_at now delay) s.pending_at k;
              forced = implies_right s.pending_force force;
            },
            λ f latest h. record {
              is_pending = refl;
              in_time = h.in_time;
              forced = implies_left s.pending_force force f h.forced;
            },
            refl,
            refl,
            refl,
          )
  ]
]

-- What a tick keeps: the timer, what is promised, and the calls made so far.
abbrev pub Kept : SupervisorState → SupervisorState → Type 0
Kept s t =
    (IsTimed s → IsTimed t)
    × ((f : Bool) (latest : ℕ) → IsPromised f latest s → IsPromised f latest t)
    × (t.recovered ≡ s.recovered)
    × (t.stopped ≡ s.stopped)

Kept-trans : (s t u : SupervisorState) → Kept s t → Kept t u → Kept s u
Kept-trans s t u (a, b, c, d) (a', b', c', d') =
    (λ h. a' (a h), λ f l h. b' f l (b f l h), c' ∙ c, d' ∙ d)

Kept-if : (s t u : SupervisorState) (b : Bool) → Kept s t → Kept s u → Kept s (if b then t else u)
Kept-if s t u true h k = h
Kept-if s t u false h k = k

Kept-schedule :
    (now : ℕ) (reason : Bytes) (force : Bool) (delay : ℤ) (s : SupervisorState)
    → Kept s (schedule now reason force delay s)
Kept-schedule now reason force delay s =
    let (timed, promised, kept, calls, ends, count) = schedule-Scheduled now reason force delay s in
    (timed, kept, calls, ends)

-- other fields may change
Kept-same :
    (s t : SupervisorState)
    → t.timer ≡ s.timer
    → t.has_pending ≡ s.has_pending
    → t.pending_at ≡ s.pending_at
    → t.pending_force ≡ s.pending_force
    → t.recovered ≡ s.recovered
    → t.stopped ≡ s.stopped
    → Kept s t
Kept-same s t a b c d e f = (
  λ h. rw (a, b, c) h,
  λ force latest h. record {
    is_pending = b ∙ h.is_pending;
    in_time = rw c h.in_time;
    forced = rw d h.forced;
  },
  e,
  f,
)

pub observe_network-Kept :
    (config : SmartSupervisorConfig) (now : ℕ) (env : Surroundings) (s : SupervisorState)
    → Kept s (observe_network config now env s)
unfolding observe_network
observe_network-Kept config now env s =
    let changed =
      s.have_signature
      && env.online
      && (not s.last_online || not (equal env.signature s.last_signature)) in
    let planned = schedule now network_changed true config.network_settle s in
    let scheduled = if changed then planned else s in
    let noted = record scheduled {
      last_signature = env.signature;
      last_online = env.online;
      have_signature = true;
    } in
    let same = Kept-same s s refl refl refl refl refl refl in
    Kept-if s s noted env.network_fails same (
      Kept-trans s scheduled noted
        (Kept-if s planned s changed
          (Kept-schedule now network_changed true config.network_settle s) same)
        (Kept-same scheduled noted refl refl refl refl refl refl))

check_health-Kept :
    (config : SmartSupervisorConfig) (now : ℕ) (env : Surroundings) (s : SupervisorState)
    → Kept s (check_health config now env s)
unfolding check_health count_unhealthy
check_health-Kept config now env s =
    let counted = record s { unhealthy_count = s.unhealthy_count + 1 } in
    let cleared = record s { unhealthy_count = 0; attempts = 0 } in
    let zeroed = record s { unhealthy_count = 0 } in
    let planned = schedule now health_check_failed false (pos 0) counted in
    let begun = record planned { unhealthy_count = 0 } in
    let full = reaches config.unhealthy_polls counted.unhealthy_count && not counted.has_pending in
    let counts = if full then begun else counted in
    let fine = env.online && env.healthy env.desired_name in
    let on_cleared = Kept-same s cleared refl refl refl refl refl refl in
    let on_counted = Kept-same s counted refl refl refl refl refl refl in
    let on_counts =
      Kept-if s begun counted full
        (Kept-trans s counted begun on_counted (
          Kept-trans counted planned begun
            (Kept-schedule now health_check_failed false (pos 0) counted)
            (Kept-same planned begun refl refl refl refl refl refl)))
        on_counted in
    let last = if not env.online then zeroed else counts in
    let on_last =
      Kept-if s zeroed counts (not env.online) (Kept-same s zeroed refl refl refl refl refl refl)
        on_counts in
    Kept-if s s (if not env.desired_exists then cleared else if fine then cleared else last)
      env.desired_fails (Kept-same s s refl refl refl refl refl refl)
      (Kept-if s cleared (if fine then cleared else last) (not env.desired_exists) on_cleared
        (Kept-if s cleared last fine on_cleared on_last))

abbrev pub quiet : SupervisorEvent → Bool
quiet (requested r) = true
quiet ticked = true
quiet _ = false

pub supervise-Kept :
    (config : SmartSupervisorConfig) (r : Round) (s : SupervisorState)
    → quiet r.2 ≡ true
    → Kept s (supervise config r.0 r.1 r.2 s)
unfolding supervise
supervise-Kept config (now, env, requested r) s q = Kept-schedule now r.reason r.force r.delay s
supervise-Kept config (now, env, ticked) s q =
    Kept-trans s (observe_network config now env s)
      (check_health config now env (observe_network config now env s))
      (observe_network-Kept config now env s)
      (check_health-Kept config now env (observe_network config now env s))
supervise-Kept config (now, env, reset) s q = cc
supervise-Kept config (now, env, timer_fired) s q = cc
supervise-Kept config (now, env, stop_requested) s q = cc

pub supervise_all-Kept :
    (config : SmartSupervisorConfig) (rs : List Round) (s : SupervisorState)
    → All (λ r. quiet r.2 ≡ true) rs
    → Kept s (supervise_all config rs s)
unfolding supervise_all
supervise_all-Kept config [] s q = Kept-same s s refl refl refl refl refl refl
supervise_all-Kept config (r ∷ rs) s q =
    let next = supervise config r.0 r.1 r.2 s in
    Kept-if s s (supervise_all config rs next) s.stopped
      (Kept-same s s refl refl refl refl refl refl)
      (Kept-trans s next (supervise_all config rs next) (supervise-Kept config r s q.0)
        (supervise_all-Kept config rs next q.1))
