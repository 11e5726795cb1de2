-- ===== src/Harness/Contained.antt =====
-- Which exceptions each step of a test catches.
use sev_certify.Prelude.{
  ℕ, ◌≡◌, refl, String, Bool, List, Option, none, some, Result, ok, err, ℤ, pos, if◌then◌else◌,
  if_both,
}
use sev_certify.Models.Step.{
  BaseStep, StepKind, vm_launch, vm_stop, host, guest, guest_pull, callable, other_kind, post_init,
}
use sev_certify.Models.Definitions.{Status, StepResult}
use sev_certify.Runner.Expected.{check_expected_values, check_expected_values-Meets}
use sev_certify.Harness.Profile.{VmProfile, VmLaunchResult}
use sev_certify.Harness.World.{
  Exc, vm_profile_error, guest_vsock_error, os_error, timeout_expired, value_error, other_exception,
  CompletedProcess, GuestCommandResult, StepContext, HandlerEnd, returned, returned_other, raised,
  timed_out, Attribute, missing, not_callable, function, Host,
}
use sev_certify.Harness.Steps.{
  judge, process_result, launch_result, stop_result, guest_result, pull_result, handler_result,
  run_attribute, run_step, run_vm_launch_step, run_vm_stop_step, run_guest_step,
  run_guest_pull_step, run_callable_step,
}
use sev_certify.Harness.Loop.{
  Config, Vm, Ran, ran_of, finish_launch, do_launch, exec_vm_launch, finish_stop, stop_logged,
  do_stop, exec_vm_stop, fetch_journal, on_guest, finish_implicit, exec_on_guest, exec_host,
  exec_callable, exec_step, is_error, context,
}
use sev_certify.Harness.Escapes.{
  process_error, profile_error, vsock_error, os_only, Contained, Raises, Returns, process-Raises,
  launch-Raises, stop-Raises, command-Raises, pull-Raises, journal-Raises,
}

module _ {W : Type 0} (h : Host W) (c : Config) where
  module _ (step : BaseStep) (accepted : post_init step ≡ ok step) where
    judged :
        (code : ℤ) (out : String) (otherwise : Status) (build : Status → StepResult)
        → Contained h (judge (check_expected_values step code out) otherwise build)
    judged code out otherwise build =
        let (b, known, meets) = check_expected_values-Meets step code out accepted in rw known tt

    process-Returns :
        (ms : ℕ) (out : Result Exc CompletedProcess)
        → Raises h process_error out
        → Contained h (process_result h step ms out)
    unfolding process_result
    process-Returns ms (ok proc) r = judged _ _ _ _
    process-Returns ms (err timeout_expired) r = tt
    process-Returns ms (err (os_error m)) r = tt
    process-Returns ms (err (vm_profile_error m)) r = r refl
    process-Returns ms (err (guest_vsock_error m)) r = r refl
    process-Returns ms (err value_error) r = r refl
    process-Returns ms (err (other_exception m)) r = r refl

    launched :
        (b : Option Bool) (x : Bool)
        → b ≡ some x
        → (launch : Option VmLaunchResult) (build : Bool → StepResult)
        → Contained h (elim b as (λ y. Result Exc (StepResult × Option VmLaunchResult)) [
          | none ↦ err value_error
          | some passed ↦ ok (build passed, launch)
        ])
    launched b x e launch build = rw e tt

    launch-Returns :
        (ms : ℕ) (line : Option String) (out : Result Exc VmLaunchResult)
        → Raises h profile_error out
        → Contained h (launch_result h step ms line out)
    unfolding launch_result
    launch-Returns ms line (ok launch) r =
        let (b, known, meets) =
          check_expected_values-Meets step (if launch.ok then pos 0 else pos 1) launch.message
            accepted in
        launched _ b known _ _
    launch-Returns ms line (err (vm_profile_error m)) r =
        let (b, known, meets) = check_expected_values-Meets step (pos 1) m accepted in
        launched _ b known _ _
    launch-Returns ms line (err timeout_expired) r = r refl
    launch-Returns ms line (err (os_error m)) r = r refl
    launch-Returns ms line (err (guest_vsock_error m)) r = r refl
    launch-Returns ms line (err value_error) r = r refl
    launch-Returns ms line (err (other_exception m)) r = r refl

    stop-Returns :
        (ms : ℕ) (out : Result Exc (Unit {0}))
        → Raises h os_only out
        → Contained h (stop_result h step ms out)
    unfolding stop_result
    stop-Returns ms (ok done) r = judged _ _ _ _
    stop-Returns ms (err (os_error m)) r = tt
    stop-Returns ms (err timeout_expired) r = r refl
    stop-Returns ms (err (vm_profile_error m)) r = r refl
    stop-Returns ms (err (guest_vsock_error m)) r = r refl
    stop-Returns ms (err value_error) r = r refl
    stop-Returns ms (err (other_exception m)) r = r refl

    guest-Returns :
        (ms : ℕ) (out : Result Exc GuestCommandResult)
        → Raises h vsock_error out
        → Contained h (guest_result h step ms out)
    unfolding guest_result
    guest-Returns ms (ok gcr) r = judged _ _ _ _
    guest-Returns ms (err (guest_vsock_error m)) r = tt
    guest-Returns ms (err timeout_expired) r = r refl
    guest-Returns ms (err (os_error m)) r = r refl
    guest-Returns ms (err (vm_profile_error m)) r = r refl
    guest-Returns ms (err value_error) r = r refl
    guest-Returns ms (err (other_exception m)) r = r refl

    pull-Returns :
        (path : String) (ms : ℕ) (out : Result Exc (Unit {0}))
        → Raises h vsock_error out
        → Contained h (pull_result h step path ms out)
    unfolding pull_result
    pull-Returns path ms (ok done) r = judged _ _ _ _
    pull-Returns path ms (err (guest_vsock_error m)) r = tt
    pull-Returns path ms (err timeout_expired) r = r refl
    pull-Returns path ms (err (os_error m)) r = r refl
    pull-Returns path ms (err (vm_profile_error m)) r = r refl
    pull-Returns path ms (err value_error) r = r refl
    pull-Returns path ms (err (other_exception m)) r = r refl

    handler-Returns : (ms : ℕ) (end : HandlerEnd) → Contained h (handler_result h step ms end)
    unfolding handler_result
    handler-Returns ms (returned hr) = judged _ _ _ _
    handler-Returns ms (returned_other t) = tt
    handler-Returns ms (raised m) = tt
    handler-Returns ms timed_out = tt

    attribute-Returns :
        (ctx : StepContext) (a : Attribute W) (w : W) → Contained h (run_attribute h step ctx a w).0
    unfolding run_attribute
    attribute-Returns ctx missing w = tt
    attribute-Returns ctx not_callable w = tt
    attribute-Returns ctx (function f) w = handler-Returns _ (f ctx step.timeout w).end

    ran_of-Returns : (out : Result Exc StepResult) → Contained h out → Contained h (ran_of h c out)
    ran_of-Returns (ok sr) r = tt
    ran_of-Returns (err e) r = r

    finish_launch-Returns :
        (profile : VmProfile) (out : Result Exc (StepResult × Option VmLaunchResult)) (w : W)
        → Contained h out
        → Returns h (finish_launch h c profile (out, w))
    unfolding finish_launch
    finish_launch-Returns profile (ok (sr, launch)) w r = tt
    finish_launch-Returns profile (err e) w r = r

    vm_launch-Returns :
        (launch : Option VmLaunchResult) (profile : Option VmProfile) (w : W)
        → Returns h
            (exec_vm_launch h c step (record { launch = launch; profile = profile; world = w }))
    unfolding exec_vm_launch do_launch run_vm_launch_step
    vm_launch-Returns launch none w = tt
    vm_launch-Returns (some launch) (some profile) w = tt
    vm_launch-Returns none (some profile) w =
        finish_launch-Returns _ _ _ (launch-Returns _ _ _ (launch-Raises h _ _))

    finish_stop-Returns :
        (launch : VmLaunchResult) (text : Option String) (profile : Option VmProfile)
        (out : Result Exc StepResult) (w : W)
        → Contained h out
        → Returns h (finish_stop h c launch text profile (out, w))
    unfolding finish_stop
    finish_stop-Returns launch text profile (ok sr) w r =
        if_both {A = Result Exc Ran × Vm W} (Returns h) (is_error h c sr) tt tt
    finish_stop-Returns launch text profile (err e) w r = r

    logged-Returns :
        (launch : VmLaunchResult) (profile : Option VmProfile)
        (journal : Result Exc (Option String)) (w : W)
        → Contained h journal
        → Returns h (stop_logged h c step launch profile (journal, w))
    unfolding stop_logged run_vm_stop_step
    logged-Returns launch profile (ok text) w r =
        finish_stop-Returns launch text profile _ _
          (stop-Returns _ _ (stop-Raises h launch step.timeout w))
    logged-Returns launch profile (err e) w r = r

    journal_end :
        (out : Result Exc GuestCommandResult)
        → Raises h vsock_error out
        → Contained h (elim out as (λ o. Result Exc (Option String)) [
          | ok gcr ↦ ok (some gcr.stdout)
          | err e ↦ elim e [ guest_vsock_error m ↦ ok none | other ↦ err other ]
        ])
    journal_end (ok gcr) r = tt
    journal_end (err (guest_vsock_error m)) r = tt
    journal_end (err timeout_expired) r = r refl
    journal_end (err (os_error m)) r = r refl
    journal_end (err (vm_profile_error m)) r = r refl
    journal_end (err value_error) r = r refl
    journal_end (err (other_exception m)) r = r refl

    journal-Returns : (launch : VmLaunchResult) (w : W) → Contained h (fetch_journal h c launch w).0
    unfolding fetch_journal
    journal-Returns launch w =
        if_both {A = Result Exc (Option String) × W} (Returns h) c.debug
          (journal_end _ (journal-Raises h launch.profile w)) tt

    vm_stop-Returns :
        (launch : Option VmLaunchResult) (profile : Option VmProfile) (w : W)
        → Returns h
            (exec_vm_stop h c step (record { launch = launch; profile = profile; world = w }))
    unfolding exec_vm_stop do_stop
    vm_stop-Returns none profile w = tt
    vm_stop-Returns (some launch) profile w =
        logged-Returns launch profile _ _ (journal-Returns launch w)

    module _ (run : VmProfile → W → Result Exc StepResult × W)
        (good : (p : VmProfile) (w : W) → Contained h (run p w).0) where
      on_guest-Returns :
          (launch : VmLaunchResult) (profile : Option VmProfile) (w : W)
          → Returns h (on_guest h c run step launch profile w)
      unfolding on_guest
      on_guest-Returns launch profile w =
          if_both {A = Result Exc Ran × Vm W} (Returns h) launch.ok
            (ran_of-Returns (run launch.profile w).0 (good launch.profile w)) tt

      implicit-Returns :
          (profile : VmProfile) (out : Result Exc VmLaunchResult) (w : W)
          → Raises h profile_error out
          → Returns h (finish_implicit h c run step profile (out, w))
      unfolding finish_implicit
      implicit-Returns profile (ok launch) w r = on_guest-Returns launch (some profile) _
      implicit-Returns profile (err (vm_profile_error m)) w r = tt
      implicit-Returns profile (err (guest_vsock_error m)) w r = r refl
      implicit-Returns profile (err (os_error m)) w r = r refl
      implicit-Returns profile (err timeout_expired) w r = r refl
      implicit-Returns profile (err value_error) w r = r refl
      implicit-Returns profile (err (other_exception m)) w r = r refl

      on_vm-Returns :
          (launch : Option VmLaunchResult) (profile : Option VmProfile) (w : W)
          → Returns h (
              exec_on_guest h c run step (record { launch = launch; profile = profile; world = w }))
      unfolding exec_on_guest
      on_vm-Returns launch none w = tt
      on_vm-Returns none (some profile) w = implicit-Returns profile _ _ (launch-Raises h profile w)
      on_vm-Returns (some launch) (some profile) w = on_guest-Returns launch (some profile) w

    pub exec_step-Returns :
        (kind : StepKind) (results : List StepResult) (vm : Vm W)
        → Returns h (exec_step h c kind step results vm)
    unfolding exec_step exec_host exec_callable run_step run_callable_step run_guest_step
        run_guest_pull_step
    exec_step-Returns vm_launch results vm = vm_launch-Returns vm.launch vm.profile vm.world
    exec_step-Returns vm_stop results vm = vm_stop-Returns vm.launch vm.profile vm.world
    exec_step-Returns host results vm =
        ran_of-Returns _ (process-Returns _ _ (process-Raises h _ vm.world))
    exec_step-Returns guest results vm =
        on_vm-Returns _ (λ p w. guest-Returns _ _ (command-Raises h p step.command step.timeout w))
          vm.launch vm.profile vm.world
    exec_step-Returns guest_pull results vm =
        on_vm-Returns _
          (λ p w. pull-Returns _ _ _ (pull-Raises h p step.guest_src _ step.timeout w)) vm.launch
          vm.profile vm.world
    exec_step-Returns callable results vm =
        ran_of-Returns _
          (attribute-Returns (context h c results vm) (h.attribute step.handler) vm.world)
    exec_step-Returns (other_kind k) results vm = tt
