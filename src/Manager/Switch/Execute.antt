-- ===== src/Manager/Switch/Execute.antt =====
-- The calls of a switch of native tunnels, for every way in which the system may answer.
use pinus_smart_awg.Common.{
  Bool, List, Option, [], and_true, any, any-append, any-cons, any-map, any-reverse, any-weaken, ap,
  append-nil, arith, false, if◌then◌else◌, is_empty, map, none, not, refl, reverse, reverse-cons,
  some, sym, true, ◌&&◌, ◌++◌, ◌||◌, ◌∙◌, ◌∷◌, ◌≡◌,
}
use pinus_smart_awg.Manager.Switch.{
  Answer, NativeSwitchPlan, SwitchCall, SwitchRun, TunnelState, call, call_all,
  execute_native_switch, install_tunnel, is_stopping, join_error, plan_native_switch, start_run,
  stop_tunnel, wait_tunnel,
}
use pinus_smart_awg.Manager.Switch.Laws.{holds_target, must_stop, plan_native_switch_iff}
use pinus_smart_awg.Text.{Bytes, equal}

-- the calls that come before the installation
abbrev pub calls_before : NativeSwitchPlan → List SwitchCall
calls_before plan = map stop_tunnel plan.stop ++ map wait_tunnel plan.wait

abbrev pub is_install : SwitchCall → Bool
is_install install_tunnel = true
is_install _ = false

abbrev pub is_stop_of : Bytes → SwitchCall → Bool
is_stop_of name (stop_tunnel n) = equal name n
is_stop_of name _ = false

abbrev pub is_wait_of : Bytes → SwitchCall → Bool
is_wait_of name (wait_tunnel n) = equal name n
is_wait_of name _ = false

wait_of_stop : (a b c : Bool) → (a && b) ≡ true → (a && (b || c)) ≡ true
wait_of_stop a b c h = ground arith

not-true : (b : Bool) → not b ≡ true → b ≡ false
not-true true h = cc
not-true false h = refl

any-never : {A : Type 0} (xs : List A) → any (λ x. false) xs ≡ false
any-never [] = refl
any-never (x ∷ xs) = any-never xs

any-stops :
    (name : Bytes) (plan : NativeSwitchPlan)
    → any (is_stop_of name) (calls_before plan) ≡ any (equal name) plan.stop
any-stops name plan = rw (any-append, any-map, any-map) (rw (any-never plan.wait) (ground arith))

any-waits :
    (name : Bytes) (plan : NativeSwitchPlan)
    → any (is_wait_of name) (calls_before plan) ≡ any (equal name) plan.wait
any-waits name plan = rw (any-append, any-map, any-map) (rw (any-never plan.stop) refl)

any-installs : (plan : NativeSwitchPlan) → any is_install (calls_before plan) ≡ false
any-installs plan =
    rw (any-append, any-map, any-map) (rw (any-never plan.stop, any-never plan.wait) refl)

any-calls :
    (p : SwitchCall → Bool) (b : Bool) (plan : NativeSwitchPlan)
    → p install_tunnel ≡ false
    → any p
        (if b then install_tunnel ∷ reverse (calls_before plan) else reverse (calls_before plan))
      ≡ any p (calls_before plan)
any-calls p true plan h = rw (any-cons, h) (any-reverse p (calls_before plan))
any-calls p false plan h = any-reverse p (calls_before plan)

only_then :
    (b : Bool) (plan : NativeSwitchPlan)
    → any is_install
        (if b then install_tunnel ∷ reverse (calls_before plan) else reverse (calls_before plan))
      ≡ true
    → b ≡ true
only_then true plan h = refl
only_then false plan h =
    ground (arith, any-reverse is_install (calls_before plan), any-installs plan)

module _ {E : Type 0} where
  abbrev pub is_nil : Option E → Bool
  is_nil none = true
  is_nil (some e) = false

  -- all of these calls succeed, after those already made
  unfoldable pub succeed : Answer E → List SwitchCall → List SwitchCall → Bool
  succeed answer made [] = true
  succeed answer made (c ∷ cs) = is_nil (answer (c ∷ made)) && succeed answer (c ∷ made) cs

  pub call_all-calls :
      (answer : Answer E) (cs : List SwitchCall) (run : SwitchRun E)
      → (call_all answer cs run).calls ≡ reverse cs ++ run.calls
  unfolding call_all call
  call_all-calls answer [] run = refl
  call_all-calls answer (c ∷ cs) run =
      call_all-calls answer cs (call answer c run) ∙ sym (reverse-cons c cs run.calls)

  is_empty-join_error :
      (c : SwitchCall) (o : Option E) (joined : List (SwitchCall × E))
      → is_empty (join_error c o joined) ≡ (is_nil o && is_empty joined)
  is_empty-join_error c none joined = refl
  is_empty-join_error c (some e) [] = refl
  is_empty-join_error c (some e) (x ∷ joined) = refl

  pub call_all-failures :
      (answer : Answer E) (cs : List SwitchCall) (run : SwitchRun E)
      → is_empty (call_all answer cs run).failures
        ≡ (is_empty run.failures && succeed answer run.calls cs)
  unfolding call_all call succeed
  call_all-failures answer [] run = ground arith
  call_all-failures answer (c ∷ cs) run =
      call_all-failures answer cs (call answer c run)
      ∙ rw (is_empty-join_error c (answer (c ∷ run.calls)) run.failures) (ground arith)

  pub call_all-append :
      (answer : Answer E) (cs ds : List SwitchCall) (run : SwitchRun E)
      → call_all answer (cs ++ ds) run ≡ call_all answer ds (call_all answer cs run)
  unfolding call_all
  call_all-append answer [] ds run = refl
  call_all-append answer (c ∷ cs) ds run = call_all-append answer cs ds (call answer c run)

  -- Every stop and then every wait of the plan is called, whatever the earlier calls answer. The
  -- target is installed, last, if and only if all of them succeed and the plan asks for it, and the
  -- result is no error if and only if every call made succeeds.
  pub execute_native_switch_lem :
      (plan : NativeSwitchPlan) (answer : Answer E)
      → ((execute_native_switch plan answer).calls ≡ (
          if succeed answer [] (calls_before plan) && plan.install
          then install_tunnel ∷ reverse (calls_before plan)
          else reverse (calls_before plan)))
        × (is_empty (execute_native_switch plan answer).failures ≡ (
            succeed answer [] (calls_before plan)
            && (not plan.install
                || is_nil (answer (install_tunnel ∷ reverse (calls_before plan))))))
  unfolding execute_native_switch call
  execute_native_switch_lem plan answer =
      let waited = call_all answer (calls_before plan) start_run in
      rw
        (sym (
          call_all-append answer (map stop_tunnel plan.stop) (map wait_tunnel plan.wait) start_run))
        (go waited plan.install (succeed answer [] (calls_before plan))
          (reverse (calls_before plan))
          (call_all-calls answer (calls_before plan) start_run
            ∙ append-nil (reverse (calls_before plan)))
          (call_all-failures answer (calls_before plan) start_run))
    where
      go :
          (waited : SwitchRun E) (install fine : Bool) (made : List SwitchCall)
          → waited.calls ≡ made
          → is_empty waited.failures ≡ fine
          → ((if not (is_empty waited.failures) || not install
                then waited
                else call answer install_tunnel waited).calls
              ≡ (if fine && install then install_tunnel ∷ made else made))
            × (is_empty
                  (if not (is_empty waited.failures) || not install
                    then waited
                    else call answer install_tunnel waited).failures
                ≡ (fine && (not install || is_nil (answer (install_tunnel ∷ made)))))
      go waited true true made h k = rw (k, h, is_empty-join_error, k) (refl, ground arith)
      go waited true false made h k = rw k (h, k)
      go waited false true made h k = rw k (h, k)
      go waited false false made h k = rw k (h, k)

  -- The target is installed only after every other tunnel that was not stopped has been asked to
  -- stop and been waited for, with success, and only if the target is not running.
  pub execute_native_switch-plan :
      (target name : Bytes) (states : List (Bytes × TunnelState)) (answer : Answer E)
      → any is_install (execute_native_switch (plan_native_switch target states) answer).calls
        ≡ true
      → any (λ e. equal name e.0 && must_stop target e) states ≡ true
      → (any
            (is_stop_of name)
            (execute_native_switch (plan_native_switch target states) answer).calls
          ≡ true)
        × (any
              (is_wait_of name)
              (execute_native_switch (plan_native_switch target states) answer).calls
            ≡ true)
        × (succeed answer [] (calls_before (plan_native_switch target states)) ≡ true)
        × (any (holds_target target) states ≡ false)
  execute_native_switch-plan target name states answer h k =
      let plan = plan_native_switch target states in
      let fine = succeed answer [] (calls_before plan) in
      let both = execute_native_switch_lem plan answer in
      let iff = plan_native_switch_iff target name states in
      let asked = only_then (fine && plan.install) plan (ap (any is_install) (sym both.0) ∙ h) in
      let parts = and_true fine plan.install asked in
      rw both.0 (
        any-calls (is_stop_of name) (fine && plan.install) plan refl
            ∙ any-stops name plan
            ∙ iff.0
            ∙ k,
        any-calls (is_wait_of name) (fine && plan.install) plan refl
            ∙ any-waits name plan
            ∙ iff.1
            ∙ any-weaken
                (λ e w.
                  wait_of_stop (equal name e.0) (must_stop target e)
                    (equal e.0 target && is_stopping e.1) w)
                states k,
        parts.0,
        not-true (any (holds_target target) states) (sym iff.2 ∙ parts.1),
      )
