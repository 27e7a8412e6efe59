-- ===== src/Manager/Supervisor/Health.antt =====
-- Ticks that find the tunnel unhealthy lead to a recovery.
use native.Mathlib.Nat
use pinus_smart_awg.Common.{
  All, Bool, Bool-cases, List, [], ap, arith, false, if◌then◌else◌, inl, inr, leb, length, not,
  refl, subst, sym, true, ℕ, ◌&&◌, ◌+◌, ◌<◌, ◌||◌, ◌∙◌, ◌∷◌, ◌≡◌, ◌≤◌, ◌⊎◌,
}
use pinus_smart_awg.Manager.Supervisor.{
  Round, SmartSupervisorConfig, SupervisorEvent, SupervisorState, Surroundings, check_health,
  count_unhealthy, health_check_failed, network_changed, observe_network, reaches, schedule,
  supervise, supervise_all, ticked,
}
use pinus_smart_awg.Manager.Supervisor.Timer.{
  IsPromised, observe_network-Kept, quiet, schedule-Scheduled, supervise-Kept,
}
use pinus_smart_awg.Text.{equal}
use pinus_smart_awg.Text.Number.{pos, ℤ}

-- a tick at which the network is there and the desired tunnel is not healthy
abbrev pub IsUnhealthy : Round → Type 0
IsUnhealthy (now, env, event) =
    (event ≡ ticked)
    × (env.online ≡ true)
    × (env.desired_fails ≡ false)
    × (env.desired_exists ≡ true)
    × (env.healthy env.desired_name ≡ false)

-- a recovery is pending, or the ticks are counted and have not reached the limit
abbrev pub Progress : ℕ → ℕ → SupervisorState → Type 0
Progress polls k s =
    (s.has_pending ≡ true) ⊎ ((k ≤ s.unhealthy_count) × (s.unhealthy_count < polls))

Progress-if :
    (polls k : ℕ) (b : Bool) (t u : SupervisorState)
    → (b ≡ true → Progress polls k t)
    → (b ≡ false → Progress polls k u)
    → Progress polls k (if b then t else u)
Progress-if polls k true t u h l = h refl
Progress-if polls k false t u h l = l refl

leb-false→lt : (a b : ℕ) → leb a b ≡ false → b < a
leb-false→lt a b h = ground arith

and_yes : (b : Bool) → (b && true) ≡ b
and_yes b = ground arith

count_unhealthy-Progress :
    (config : SmartSupervisorConfig) (polls k now : ℕ) (s : SupervisorState)
    → config.unhealthy_polls ≡ pos polls
    → (s.has_pending ≡ true) ⊎ (k ≤ s.unhealthy_count)
    → Progress polls (k + 1) (count_unhealthy config now s)
unfolding count_unhealthy
count_unhealthy-Progress config polls k now s e h =
    let counted = record s { unhealthy_count = s.unhealthy_count + 1 } in
    let planned = schedule now health_check_failed false (pos 0) counted in
    let full = reaches config.unhealthy_polls counted.unhealthy_count && not counted.has_pending in
    Progress-if polls (k + 1) full (record planned { unhealthy_count = 0 }) counted
      (λ b. inl ((schedule-Scheduled now health_check_failed false (pos 0) counted).1.is_pending))
      (λ b. go h (Bool-cases s.has_pending) b)
  where
    below_limit :
        (limit : ℤ) (c : ℕ) (p : Bool)
        → limit ≡ pos polls
        → p ≡ false
        → (reaches limit c && not p) ≡ false
        → c < polls
    below_limit limit c p e q b = leb-false→lt polls c (rw (e, q, and_yes) at b)

    go :
        (s.has_pending ≡ true) ⊎ (k ≤ s.unhealthy_count)
        → (s.has_pending ≡ true) ⊎ (s.has_pending ≡ false)
        → (reaches config.unhealthy_polls (s.unhealthy_count + 1) && not s.has_pending) ≡ false
        → Progress polls (k + 1) (record s { unhealthy_count = s.unhealthy_count + 1 })
    go (inl p) q b = inl p
    go (inr l) (inl p) b = inl p
    go (inr l) (inr p) b = inr (
      omega (arith, l),
      below_limit config.unhealthy_polls (s.unhealthy_count + 1) s.has_pending e p b,
    )

count_if :
    (b : Bool) (t u : SupervisorState) (n : ℕ)
    → t.unhealthy_count ≡ n
    → u.unhealthy_count ≡ n
    → (if b then t else u).unhealthy_count ≡ n
count_if true t u n h k = h
count_if false t u n h k = k

observe_network-counts :
    (config : SmartSupervisorConfig) (now : ℕ) (env : Surroundings) (s : SupervisorState)
    → (observe_network config now env s).unhealthy_count ≡ s.unhealthy_count
unfolding observe_network
observe_network-counts config now env s =
    let changed =
      s.have_signature
      && env.online
      && (not s.last_online || not (equal env.signature s.last_signature)) in
    let planned = schedule now network_changed true config.network_settle s in
    let scheduled = if changed then planned else s in
    count_if env.network_fails s
      (record scheduled {
        last_signature = env.signature;
        last_online = env.online;
        have_signature = true;
      })
      s.unhealthy_count refl
      (count_if changed planned s s.unhealthy_count
        ((schedule-Scheduled now network_changed true config.network_settle s).5) refl)

if_false : {A : Type 0} (b : Bool) (x y : A) → b ≡ false → (if b then x else y) ≡ y
if_false true x y h = cc
if_false false x y h = refl

check_health-unhealthy :
    (config : SmartSupervisorConfig) (now : ℕ) (env : Surroundings) (s : SupervisorState)
    → env.online ≡ true
    → env.desired_fails ≡ false
    → env.desired_exists ≡ true
    → env.healthy env.desired_name ≡ false
    → check_health config now env s ≡ count_unhealthy config now s
unfolding check_health
check_health-unhealthy config now env s on reads exists bad = rw (reads, exists, on, bad) refl

supervise-Progress :
    (config : SmartSupervisorConfig) (polls k : ℕ) (r : Round) (s : SupervisorState)
    → config.unhealthy_polls ≡ pos polls
    → IsUnhealthy r
    → (s.has_pending ≡ true) ⊎ (k ≤ s.unhealthy_count)
    → Progress polls (k + 1) (supervise config r.0 r.1 r.2 s)
unfolding supervise
supervise-Progress config polls k (now, env, event) s e (ev, on, reads, exists, bad) h = rw ev (
    subst (Progress polls (k + 1))
      (sym (
        check_health-unhealthy config now env (observe_network config now env s) on reads exists
          bad))
      (count_unhealthy-Progress config polls k now (observe_network config now env s) e
        (before_check h)))
  where
    before_check :
        (s.has_pending ≡ true) ⊎ (k ≤ s.unhealthy_count)
        → ((observe_network config now env s).has_pending ≡ true)
          ⊎ (k ≤ (observe_network config now env s).unhealthy_count)
    before_check (inl p) =
        let promised : IsPromised false s.pending_at s = record {
          is_pending = p;
          in_time = omega arith;
          forced = refl;
        } in
        inl ((observe_network-Kept config now env s).1 false s.pending_at promised).is_pending
    before_check (inr l) = inr (rw (observe_network-counts config now env s) l)

supervise_all-Progress :
    (config : SmartSupervisorConfig) (polls k : ℕ) (rs : List Round) (s : SupervisorState)
    → config.unhealthy_polls ≡ pos polls
    → All IsUnhealthy rs
    → s.stopped ≡ false
    → Progress polls k s
    → Progress polls (k + length rs) (supervise_all config rs s)
unfolding supervise_all
supervise_all-Progress config polls k [] s e bad go h = rw (Nat.add-zero k) h
supervise_all-Progress config polls k (r ∷ rs) s e bad go h =
    let next = supervise config r.0 r.1 r.2 s in
    rw (if_false s.stopped s (supervise_all config rs next) go) (
      subst (λ n. Progress polls n (supervise_all config rs next)) (omega arith)
        (supervise_all-Progress config polls (k + 1) rs next e bad.1
          ((supervise-Kept config r s (is_quiet bad.0.0)).3 ∙ go)
          (supervise-Progress config polls k r s e bad.0 (weaker h))))
  where
    is_quiet : {e : SupervisorEvent} → e ≡ ticked → quiet e ≡ true
    is_quiet h = ap quiet h

    weaker : Progress polls k s → (s.has_pending ≡ true) ⊎ (k ≤ s.unhealthy_count)
    weaker (inl p) = inl p
    weaker (inr (l, b)) = inr l

-- If as many ticks in a row as the configuration says find the network there and the desired tunnel
-- not healthy, a recovery is pending after them.
pub supervise_all-unhealthy :
    (config : SmartSupervisorConfig) (polls : ℕ) (rs : List Round) (s : SupervisorState)
    → config.unhealthy_polls ≡ pos polls
    → 0 < polls
    → s.stopped ≡ false
    → All IsUnhealthy rs
    → polls ≤ length rs
    → (supervise_all config rs s).has_pending ≡ true
unfolding supervise_all
supervise_all-unhealthy config polls [] s e some_polls go bad enough =
    absurd (omega (arith, some_polls, enough))
supervise_all-unhealthy config polls (r ∷ rs) s e some_polls go bad enough =
    let next = supervise config r.0 r.1 r.2 s in
    let first = supervise-Progress config polls 0 r s e bad.0 (inr (omega arith)) in
    rw (if_false s.stopped s (supervise_all config rs next) go) (
      reached (supervise_all config rs next) (
        supervise_all-Progress config polls 1 rs next e bad.1
          ((supervise-Kept config r s (ap quiet bad.0.0)).3 ∙ go) first))
  where
    reached : (t : SupervisorState) → Progress polls (1 + length rs) t → t.has_pending ≡ true
    reached t (inl p) = p
    reached t (inr (l, b)) = absurd (omega (arith, l, b, enough))
