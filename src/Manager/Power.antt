-- ===== src/Manager/Power.antt =====
-- client/manager/power_events.go: suspend and resume of the machine, with the pauses that run later
-- on goroutines of their own, and what they call in smart_supervisor.go.
pub mod Laws
use pinus_smart_awg.Common.{
  Bool, List, Option, [], false, get_elem?, if◌then◌else◌, none, some, suc, true, zero, ℕ, ◌%◌,
  ◌++◌, ◌+◌, ◌==◌, ◌^◌, ◌||◌, ◌∷◌,
}

abbrev pub pbt_apm_suspend : ℕ
pbt_apm_suspend = 4

abbrev pub pbt_apm_resume_suspend : ℕ
pbt_apm_resume_suspend = 7

abbrev pub pbt_apm_resume_auto : ℕ
pbt_apm_resume_auto = 18

-- The calls of a power event, newest first: `pauseSmartForSuspend` and the recovery that
-- `resumeSmartAfterSuspend` requests.
pub data PowerCall : Type 0 where
  pause_call : PowerCall
  resume_call : PowerCall

-- `pauses` are the generations of the pauses that have been started and have not run yet.
pub record PowerState : Type 0 where
  pub generation : ℕ
  pub suspended : Bool
  pub pauses : List ℕ
  pub power_calls : List PowerCall

-- What happens: an event of the system, or the pause at a position gets the lock.
pub data PowerInput : Type 0 where
  power_event : ℕ → PowerInput
  run_pause : ℕ → PowerInput

abbrev pub next_generation : ℕ → ℕ
next_generation g = (g + 1) % 2 ^ 64

abbrev pub is_suspend : ℕ → Bool
is_suspend event_type = event_type == pbt_apm_suspend

abbrev pub is_resume : ℕ → Bool
is_resume event_type = event_type == pbt_apm_resume_suspend || event_type == pbt_apm_resume_auto

unfoldable pub suspend : PowerState → PowerState
suspend s =
    let g = next_generation s.generation in
    record s { generation = g; suspended = true; pauses = s.pauses ++ g ∷ [] }

-- `resume` stores that the system is not suspended and requests a recovery.
unfoldable pub resume : PowerState → PowerState
resume s = record s {
  generation = next_generation s.generation;
  suspended = false;
  power_calls = resume_call ∷ s.power_calls;
}

-- the new state, and whether the event was one of these
unfoldable pub handle_smart_power_event : ℕ → PowerState → PowerState × Bool
handle_smart_power_event event_type s =
    if is_suspend event_type
    then (suspend s, true)
    else if is_resume event_type
    then (resume s, true)
    else (s, false)

unfoldable pub remove_at {ℓ} : {A : Type ℓ} → ℕ → List A → List A
remove_at i [] = []
remove_at zero (x ∷ xs) = xs
remove_at (suc i) (x ∷ xs) = x ∷ remove_at i xs

-- the body of the goroutine; `pause` stores that the system is suspended
unfoldable pub pause_now : ℕ → PowerState → PowerState
pause_now g s =
    if g == s.generation
    then record s { suspended = true; power_calls = pause_call ∷ s.power_calls }
    else s

-- the pause at position `i`, if there is one, runs and is gone
abbrev pub run_at : ℕ → Option ℕ → PowerState → PowerState
run_at i none s = s
run_at i (some g) s = pause_now g (record s { pauses = remove_at i s.pauses })

unfoldable pub power_step : PowerInput → PowerState → PowerState
power_step (power_event event_type) s = (handle_smart_power_event event_type s).0
power_step (run_pause i) s = run_at i (get_elem? s.pauses i) s

unfoldable pub power_run : List PowerInput → PowerState → PowerState
power_run [] s = s
power_run (i ∷ is) s = power_run is (power_step i s)

abbrev pub power_start : PowerState
power_start = record { generation = 0; suspended = false; pauses = []; power_calls = [] }
