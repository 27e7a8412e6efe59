-- ===== src/Manager/Power/Laws.antt =====
-- The generations of client/manager/power_events.go, against a machine that marks its pauses.
use native.Mathlib.Nat
use mathlib.Core.Option
use pinus_smart_awg.Common.{
  ==_iff, All, All-append, All-weaken, Bool, Bool-cases, List, Option, Option-cases, [], ap, arith,
  false, get_elem?, if◌then◌else◌, inl, inr, length, map, none, refl, some, suc, true, zero, ℕ,
  ◌++◌, ◌+◌, ◌<◌, ◌==◌, ◌^◌, ◌∙◌, ◌∷◌, ◌≡◌, ◌≤◌,
}
use pinus_smart_awg.Manager.Power.{
  PowerCall, PowerInput, PowerState, handle_smart_power_event, is_resume, is_suspend,
  next_generation, pause_call, pause_now, power_event, power_run, power_start, power_step,
  remove_at, resume, resume_call, run_pause, suspend,
}

-- What is meant, without generations: each pause that waits is marked as wanted or not.
pub record PausePlan : Type 0 where
  pub wanted : List Bool
  pub sleeping : Bool
  pub calls_made : List PowerCall

-- a new event makes every pause unwanted that waits
abbrev pub forget : List Bool → List Bool
forget = map (λ w. false)

abbrev pub plan_start : PausePlan
plan_start = record { wanted = []; sleeping = false; calls_made = [] }

-- a pause that gets its turn is made if it is wanted
abbrev pub turn : ℕ → Option Bool → PausePlan → PausePlan
turn i none p = p
turn i (some w) p =
    if w
    then record {
      wanted = remove_at i p.wanted;
      sleeping = true;
      calls_made = pause_call ∷ p.calls_made;
    }
    else record p { wanted = remove_at i p.wanted }

unfoldable pub plan_step : PowerInput → PausePlan → PausePlan
plan_step (power_event e) p =
    if is_suspend e
    then record p { wanted = forget p.wanted ++ true ∷ []; sleeping = true }
    else if is_resume e
    then record {
      wanted = forget p.wanted;
      sleeping = false;
      calls_made = resume_call ∷ p.calls_made;
    }
    else p
plan_step (run_pause i) p = turn i (get_elem? p.wanted i) p

unfoldable pub plan_run : List PowerInput → PausePlan → PausePlan
plan_run [] p = p
plan_run (i ∷ is) p = plan_run is (plan_step i p)

-- the pauses of a state, each marked by whether it has the current generation
abbrev seen_as : PowerState → PausePlan
seen_as s = record {
  wanted = map (λ g. g == s.generation) s.pauses;
  sleeping = s.suspended;
  calls_made = s.power_calls;
}

-- after `n` inputs: no pause is of a later generation
record IsOrdered (n : ℕ) (s : PowerState) : Type 0 where
  few : s.generation ≤ n
  started : All (λ g. g ≤ s.generation) s.pauses

All-remove_at {ℓ} : (P : ℕ → Type ℓ) (i : ℕ) (xs : List ℕ) → All P xs → All P (remove_at i xs)
unfolding remove_at
All-remove_at P i [] h = tt
All-remove_at P zero (x ∷ xs) h = h.1
All-remove_at P (suc i) (x ∷ xs) h = (h.0, All-remove_at P i xs h.1)

remove_at-map :
    (f : ℕ → Bool) (i : ℕ) (xs : List ℕ) → remove_at i (map f xs) ≡ map f (remove_at i xs)
unfolding remove_at
remove_at-map f i [] = refl
remove_at-map f zero (x ∷ xs) = refl
remove_at-map f (suc i) (x ∷ xs) = ap (◌∷◌ (f x)) (remove_at-map f i xs)

get_elem?-map :
    (f : ℕ → Bool) (i : ℕ) (xs : List ℕ) → get_elem? (map f xs) i ≡ Option.map f (get_elem? xs i)
get_elem?-map f i [] = refl
get_elem?-map f zero (x ∷ xs) = refl
get_elem?-map f (suc i) (x ∷ xs) = get_elem?-map f i xs

next_generation_lem : (g n : ℕ) → g ≤ n → n + 1 < 2 ^ 64 → next_generation g ≡ g + 1
next_generation_lem g n h k = Nat.mod-eq_of_lt (omega (arith, h, k))

All-later : (g : ℕ) (xs : List ℕ) → All (λ x. x ≤ g) xs → All (λ x. x ≤ g + 1) xs
All-later g xs h = All-weaken (λ x k. omega (arith, k)) xs h

-- with the next generation every pause that waits is unwanted
forget-older :
    (g : ℕ) (f : ℕ → Bool) (xs : List ℕ)
    → All (λ x. x ≤ g) xs
    → map (λ x. x == g + 1) xs ≡ forget (map f xs)
forget-older g f [] h = refl
forget-older g f (x ∷ xs) h = rw (differs x h.0, forget-older g f xs h.1) refl
  where
    differs : (x : ℕ) → x ≤ g → (x == g + 1) ≡ false
    differs x h = ground arith

same_number : (a : ℕ) → (a == a) ≡ true
same_number a = (==_iff a a).1 refl

record Follows (n : ℕ) (i : PowerInput) (s : PowerState) : Type 0 where
  ordered : IsOrdered (n + 1) (power_step i s)
  same_view : seen_as (power_step i s) ≡ plan_step i (seen_as s)

map-append : (f : ℕ → Bool) (xs ys : List ℕ) → map f (xs ++ ys) ≡ map f xs ++ map f ys
map-append f [] ys = refl
map-append f (x ∷ xs) ys = ap (◌∷◌ (f x)) (map-append f xs ys)

suspended_view :
    (n : ℕ) (s : PowerState)
    → n + 1 < 2 ^ 64
    → IsOrdered n s
    → seen_as (suspend s) ≡ record {
      wanted = forget (seen_as s).wanted ++ true ∷ [];
      sleeping = true;
      calls_made = s.power_calls;
    }
unfolding suspend
suspended_view n s small h = rw (next_generation_lem s.generation n h.few small) (
    ap (λ w. record { wanted = w; sleeping = true; calls_made = s.power_calls })
      (map-append (λ x. x == s.generation + 1) s.pauses ((s.generation + 1) ∷ [])
        ∙ rw
            (
              forget-older s.generation (λ g. g == s.generation) s.pauses h.started,
              same_number (s.generation + 1),
            )
            refl))

resumed_view :
    (n : ℕ) (s : PowerState)
    → n + 1 < 2 ^ 64
    → IsOrdered n s
    → seen_as (resume s) ≡ record {
      wanted = forget (seen_as s).wanted;
      sleeping = false;
      calls_made = resume_call ∷ s.power_calls;
    }
unfolding resume
resumed_view n s small h = rw (next_generation_lem s.generation n h.few small) (
    ap (λ w. record { wanted = w; sleeping = false; calls_made = resume_call ∷ s.power_calls })
      (forget-older s.generation (λ g. g == s.generation) s.pauses h.started))

suspend-IsOrdered :
    (n : ℕ) (s : PowerState) → n + 1 < 2 ^ 64 → IsOrdered n s → IsOrdered (n + 1) (suspend s)
unfolding suspend
suspend-IsOrdered n s small h = rw (next_generation_lem s.generation n h.few small) record {
  few = omega (arith, h.few);
  started =
      All-append (λ x. x ≤ s.generation + 1) s.pauses ((s.generation + 1) ∷ [])
        (All-later s.generation s.pauses h.started) (omega arith, tt);
}

resume-IsOrdered :
    (n : ℕ) (s : PowerState) → n + 1 < 2 ^ 64 → IsOrdered n s → IsOrdered (n + 1) (resume s)
unfolding resume
resume-IsOrdered n s small h =
    rw (next_generation_lem s.generation n h.few small)
      record { few = omega (arith, h.few); started = All-later s.generation s.pauses h.started }

event-Follows :
    (n e : ℕ) (s : PowerState) → n + 1 < 2 ^ 64 → IsOrdered n s → Follows n (power_event e) s
unfolding power_step handle_smart_power_event plan_step
event-Follows n e s small h = elim (Bool-cases (is_suspend e)) [
  | inl a ↦ record {
    ordered = rw (power_step, a) (suspend-IsOrdered n s small h);
    same_view = rw (power_step, plan_step, a) (suspended_view n s small h);
  }
  | inr a ↦ elim (Bool-cases (is_resume e)) [
    | inl b ↦ record {
      ordered = rw (power_step, a, b) (resume-IsOrdered n s small h);
      same_view = rw (power_step, plan_step, a, b) (resumed_view n s small h);
    }
    | inr b ↦ record {
      ordered = rw (power_step, a, b) record { few = omega (arith, h.few); started = h.started };
      same_view = rw (power_step, plan_step, a, b) refl;
    }
  ]
]

turn-Follows : (n i : ℕ) (s : PowerState) → IsOrdered n s → Follows n (run_pause i) s
unfolding power_step plan_step pause_now
turn-Follows n i s h = elim (Option-cases (get_elem? s.pauses i)) [
  | inl e ↦ record {
    ordered = rw (power_step, e) record { few = omega (arith, h.few); started = h.started };
    same_view = rw (get_elem?-map (λ g. g == s.generation) i s.pauses, e) refl;
  }
  | inr (g, e) ↦
      let less = All-remove_at (λ x. x ≤ s.generation) i s.pauses h.started in
      let left = remove_at-map (λ x. x == s.generation) i s.pauses in
      elim (Bool-cases (g == s.generation)) [
        | inl k ↦ record {
          ordered =
              rw (power_step, e, pause_now, k)
                record { few = omega (arith, h.few); started = less };
          same_view = rw (get_elem?-map (λ x. x == s.generation) i s.pauses, e, k, left) refl;
        }
        | inr k ↦ record {
          ordered =
              rw (power_step, e, pause_now, k)
                record { few = omega (arith, h.few); started = less };
          same_view = rw (get_elem?-map (λ x. x == s.generation) i s.pauses, e, k, left) refl;
        }
      ]
]

step-Follows :
    (n : ℕ) (i : PowerInput) (s : PowerState) → n + 1 < 2 ^ 64 → IsOrdered n s → Follows n i s
step-Follows n (power_event e) s small h = event-Follows n e s small h
step-Follows n (run_pause i) s small h = turn-Follows n i s h

power_run-seen :
    (n : ℕ) (is : List PowerInput) (s : PowerState)
    → n + length is < 2 ^ 64
    → IsOrdered n s
    → seen_as (power_run is s) ≡ plan_run is (seen_as s)
unfolding power_run plan_run
power_run-seen n [] s small h = refl
power_run-seen n (i ∷ is) s small h =
    let step = step-Follows n i s (omega (arith, small)) h in
    power_run-seen (n + 1) is (power_step i s) (omega (arith, small)) step.ordered
    ∙ ap (plan_run is) step.same_view

-- In any interleaving of fewer than 2^64 power events and turns of the pauses they start, the
-- generations of the code decide as marks on the pauses would: an event makes every pause that
-- waits unwanted, a suspend starts a wanted one, and a pause that gets its turn is made if it is
-- wanted and dropped if not.  The calls, in order, and the mark of the suspended system are the same.
pub power_run-plan :
    (is : List PowerInput)
    → length is < 2 ^ 64
    → ((power_run is power_start).power_calls ≡ (plan_run is plan_start).calls_made)
      × ((power_run is power_start).suspended ≡ (plan_run is plan_start).sleeping)
power_run-plan is small =
    let same =
      power_run-seen 0 is power_start (omega (arith, small))
        record { few = omega arith; started = tt } in
    (ap (λ p. p.calls_made) same, ap (λ p. p.sleeping) same)
