-- ===== src/Manager/Switch/Laws.antt =====
-- What a switch of native tunnels does, against a description that is independent of the loops.
use mathlib.Core.List.{Permᴰ}
use mathlib.Core.List.Permᴰ
use pinus_smart_awg.Common.{
  Bool, Bool-cases, List, [], any, any-cons, append-nil, append_assoc, arith, false, if◌then◌else◌,
  inl, inr, not, refl, sym, true, ◌&&◌, ◌++◌, ◌||◌, ◌∙◌, ◌∷◌, ◌≡◌,
}
use pinus_smart_awg.Manager.Switch.{
  NativeSwitchPlan, TunnelState, is_running, is_stopped, is_stopping, plan_native_switch,
  plan_state, plan_states, tunnel_started, tunnel_starting, tunnel_stopped, tunnel_stopping,
  tunnel_unknown,
}
use pinus_smart_awg.Text.{Bytes, equal}
use pinus_smart_awg.Text.Order.{sort_strings}
use pinus_smart_awg.Text.Order.Sorted.{
  IsSorted, any-sort_strings, sort_strings-IsSorted, sort_strings-Perm,
}

-- the tunnels other than the target that are not stopped
abbrev pub must_stop : Bytes → Bytes × TunnelState → Bool
must_stop target entry = not (equal entry.0 target) && not (is_stopped entry.1)

-- these, and the target while it is stopping
abbrev pub must_wait : Bytes → Bytes × TunnelState → Bool
must_wait target entry = must_stop target entry || (equal entry.0 target && is_stopping entry.1)

abbrev pub holds_target : Bytes → Bytes × TunnelState → Bool
holds_target target entry = equal entry.0 target && is_running entry.1

unfoldable pub names_where : (Bytes × TunnelState → Bool) → List (Bytes × TunnelState) → List Bytes
names_where p [] = []
names_where p (entry ∷ entries) =
    let rest = names_where p entries in if p entry then entry.0 ∷ rest else rest

any-names_where :
    (q : Bytes → Bool) (p : Bytes × TunnelState → Bool) (entries : List (Bytes × TunnelState))
    → any q (names_where p entries) ≡ any (λ e. q e.0 && p e) entries
unfolding names_where
any-names_where q p [] = refl
any-names_where q p (entry ∷ entries) = elim (Bool-cases (p entry)) [
  | inl e ↦ rw (e, any-cons, any-cons, any-names_where q p entries, e) (ground arith)
  | inr e ↦ rw (e, any-cons, any-names_where q p entries, e) (ground arith)
]

if-Perm :
    (b : Bool) (n : Bytes) {ns ms : List Bytes}
    → Permᴰ ns ms
    → Permᴰ (if b then n ∷ ns else ns) (if b then n ∷ ms else ms)
if-Perm true n h = Permᴰ.cons refl h
if-Perm false n h = h

if-Perm-swap :
    (b c : Bool) (n m : Bytes) (ns : List Bytes)
    → Permᴰ
        (if b then n ∷ (if c then m ∷ ns else ns) else if c then m ∷ ns else ns)
        (if c then m ∷ (if b then n ∷ ns else ns) else if b then n ∷ ns else ns)
if-Perm-swap true true n m ns = Permᴰ.swap refl refl
if-Perm-swap true false n m ns = Permᴰ.refl (n ∷ ns)
if-Perm-swap false true n m ns = Permᴰ.refl (m ∷ ns)
if-Perm-swap false false n m ns = Permᴰ.refl ns

names_where-Perm :
    (p : Bytes × TunnelState → Bool) {es fs : List (Bytes × TunnelState)}
    → Permᴰ es fs
    → Permᴰ (names_where p es) (names_where p fs)
unfolding names_where
names_where-Perm p Permᴰ.nil = Permᴰ.nil
names_where-Perm p (Permᴰ.cons {a} {b} {l₂ = l₂} e h) =
    rw e (if-Perm (p b) b.0 (names_where-Perm p h))
names_where-Perm p (Permᴰ.swap {a} {b} {l = l} e f) =
    rw (sym e, sym f) (if-Perm-swap (p a) (p b) a.0 b.0 (names_where p l))
names_where-Perm p (Permᴰ.trans h k) = Permᴰ.trans (names_where-Perm p h) (names_where-Perm p k)

and_false : (b : Bool) → (b && false) ≡ false
and_false b = ground arith

and_yes : (b : Bool) → (b && true) ≡ b
and_yes b = ground arith

plan_state-eq :
    (target : Bytes) (entry : Bytes × TunnelState) (plan : NativeSwitchPlan)
    → plan_state target entry.0 entry.1 plan ≡ record {
      stop = plan.stop ++ (if must_stop target entry then entry.0 ∷ [] else []);
      wait = plan.wait ++ (if must_wait target entry then entry.0 ∷ [] else []);
      install = plan.install && not (holds_target target entry);
    }
unfolding plan_state
plan_state-eq target (name, state) plan = elim (Bool-cases (equal name target)) [
  | inl e ↦ rw e (go_target state)
  | inr e ↦ rw e (go_other state)
]
  where
    go_target :
        (s : TunnelState)
        → (if is_running s
            then record plan { install = false }
            else if is_stopping s
            then record plan { wait = plan.wait ++ name ∷ [] }
            else plan)
          ≡ record {
            stop = plan.stop ++ [];
            wait = plan.wait ++ (if is_stopping s then name ∷ [] else []);
            install = plan.install && not (is_running s);
          }
    go_target tunnel_unknown = rw (append-nil, append-nil, and_false) refl
    go_target tunnel_started = rw (append-nil, append-nil, and_false) refl
    go_target tunnel_starting = rw (append-nil, append-nil, and_false) refl
    go_target tunnel_stopping = rw (append-nil, and_yes) refl
    go_target tunnel_stopped = rw (append-nil, append-nil, and_yes) refl

    go_other :
        (s : TunnelState)
        → (if is_stopped s
            then plan
            else record plan { stop = plan.stop ++ name ∷ []; wait = plan.wait ++ name ∷ [] })
          ≡ record {
            stop = plan.stop ++ (if not (is_stopped s) then name ∷ [] else []);
            wait = plan.wait ++ (if not (is_stopped s) || false then name ∷ [] else []);
            install = plan.install && true;
          }
    go_other tunnel_unknown = rw and_yes refl
    go_other tunnel_started = rw and_yes refl
    go_other tunnel_starting = rw and_yes refl
    go_other tunnel_stopping = rw and_yes refl
    go_other tunnel_stopped = rw (append-nil, append-nil, and_yes) refl

append-if :
    (b : Bool) (ms : List Bytes) (n : Bytes) (ns : List Bytes)
    → (ms ++ (if b then n ∷ [] else [])) ++ ns ≡ ms ++ (if b then n ∷ ns else ns)
append-if true ms n ns = append_assoc ms (n ∷ []) ns
append-if false ms n ns = rw append-nil refl

and_not_or : (a b c : Bool) → ((a && not b) && not c) ≡ (a && not (b || c))
and_not_or a b c = ground arith

plan_states-eq :
    (target : Bytes) (entries : List (Bytes × TunnelState)) (plan : NativeSwitchPlan)
    → plan_states target entries plan ≡ record {
      stop = plan.stop ++ names_where (must_stop target) entries;
      wait = plan.wait ++ names_where (must_wait target) entries;
      install = plan.install && not (any (holds_target target) entries);
    }
unfolding plan_states names_where
plan_states-eq target [] plan = rw (append-nil, append-nil, and_yes) refl
plan_states-eq target (entry ∷ entries) plan =
    rw
      (
        plan_states-eq target entries (plan_state target entry.0 entry.1 plan),
        plan_state-eq target entry plan,
        any-cons,
      )
      rw
      (
        append-if (must_stop target entry) plan.stop entry.0,
        append-if (must_wait target entry) plan.wait entry.0,
        and_not_or plan.install (holds_target target entry),
      )
      refl

pub plan_native_switch-eq :
    (target : Bytes) (states : List (Bytes × TunnelState))
    → plan_native_switch target states ≡ record {
      stop = sort_strings (names_where (must_stop target) states);
      wait = sort_strings (names_where (must_wait target) states);
      install = not (any (holds_target target) states);
    }
unfolding plan_native_switch
plan_native_switch-eq target states = rw plan_states-eq refl

-- The plan stops exactly the tunnels other than the target that are not stopped, waits for exactly
-- these and for a target that is stopping, each in ascending order, and installs the target unless
-- it is started, starting or in an unknown state.
pub plan_native_switch_iff :
    (target name : Bytes) (states : List (Bytes × TunnelState))
    → (any (equal name) (plan_native_switch target states).stop
        ≡ any (λ e. equal name e.0 && must_stop target e) states)
      × (any (equal name) (plan_native_switch target states).wait
          ≡ any (λ e. equal name e.0 && must_wait target e) states)
      × ((plan_native_switch target states).install ≡ not (any (holds_target target) states))
      × IsSorted (plan_native_switch target states).stop
      × IsSorted (plan_native_switch target states).wait
plan_native_switch_iff target name states = rw plan_native_switch-eq (
  any-sort_strings (equal name) (names_where (must_stop target) states)
      ∙ any-names_where (equal name) (must_stop target) states,
  any-sort_strings (equal name) (names_where (must_wait target) states)
      ∙ any-names_where (equal name) (must_wait target) states,
  refl,
  sort_strings-IsSorted (names_where (must_stop target) states),
  sort_strings-IsSorted (names_where (must_wait target) states),
)

any-Perm :
    (p : Bytes × TunnelState → Bool) {es fs : List (Bytes × TunnelState)}
    → Permᴰ es fs
    → any p es ≡ any p fs
any-Perm p Permᴰ.nil = refl
any-Perm p (Permᴰ.cons {a} {b} {l₁ = l₁} {l₂ = l₂} e h) =
    rw (e, any-cons, any-cons, any-Perm p h) refl
any-Perm p (Permᴰ.swap {a} {b} {l = l} e f) =
    rw (sym e, sym f, any-cons, any-cons, any-cons, any-cons) (ground arith)
any-Perm p (Permᴰ.trans h k) = any-Perm p h ∙ any-Perm p k

-- The plan does not depend on the order in which the map of the states is visited.
pub plan_native_switch-Perm :
    (target : Bytes) {states visited : List (Bytes × TunnelState)}
    → Permᴰ states visited
    → plan_native_switch target states ≡ plan_native_switch target visited
plan_native_switch-Perm target {states} {visited} h =
    rw
      (
        plan_native_switch-eq target states,
        plan_native_switch-eq target visited,
        sort_strings-Perm (names_where-Perm (must_stop target) h),
        sort_strings-Perm (names_where-Perm (must_wait target) h),
        any-Perm (holds_target target) h,
      )
      refl
