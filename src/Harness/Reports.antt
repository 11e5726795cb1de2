-- ===== src/Harness/Reports.antt =====
-- Every kind of step reports on the step that it was given, and never as skipped.
use sev_certify.Prelude.{
  if_both, ℕ, ◌≡◌, refl, String, Bool, true, false, List, Option, none, some, Result, ok, err,
  if◌then◌else◌, pos,
}
use sev_certify.Models.Step.{
  BaseStep, StepKind, vm_launch, vm_stop, host, guest, guest_pull, callable, other_kind,
}
use sev_certify.Models.Definitions.{Status, pass, fail, skip, StepResult}
use sev_certify.Runner.Expected.{check_expected_values}
use sev_certify.Harness.Profile.{VmProfile, VmLaunchResult}
use sev_certify.Harness.World.{
  Exc, vm_profile_error, guest_vsock_error, os_error, timeout_expired, value_error, other_exception,
  CompletedProcess, GuestCommandResult, StepContext, HandlerEnd, returned, returned_other, raised,
  timed_out, Attribute, missing, not_callable, function, Host,
}
use sev_certify.Harness.Steps.{
  judge, process_result, launch_result, stop_result, guest_result, pull_result, handler_result,
  run_attribute, run_step, run_vm_launch_step, run_vm_stop_step, run_guest_step,
  run_guest_pull_step, run_callable_step,
}
use sev_certify.Harness.Loop.{
  Config, Vm, Ran, exec_vm_launch, do_launch, finish_launch, exec_vm_stop, do_stop, finish_stop,
  on_guest, finish_implicit, exec_on_guest, exec_host, exec_callable, exec_step, is_error, ran_of,
  stop_logged, context,
}

abbrev pub is_skip : StepResult → Bool
is_skip sr = elim sr.result [ skip ↦ true | _ ↦ false ]

pub record About (step : BaseStep) (sr : StepResult) : Type 0 where
  pub same : sr.step ≡ step
  pub ran : is_skip sr ≡ false

abbrev pub Reports : BaseStep → Result Exc StepResult → Type 0
Reports step (ok sr) = About step sr
Reports step (err e) = Unit

abbrev pub ReportsRan : BaseStep → Result Exc Ran → Type 0
ReportsRan step (ok r) = About step r.result
ReportsRan step (err e) = Unit

abbrev ReportsLaunch : BaseStep → Result Exc (StepResult × Option VmLaunchResult) → Type 0
ReportsLaunch step (ok (sr, launch)) = About step sr
ReportsLaunch step (err e) = Unit

-- `pass` or the given status, neither of which is `skip`.
judge-Reports :
    {step : BaseStep} (b : Option Bool) (otherwise : Status) (build : Status → StepResult)
    → About step (build pass)
    → About step (build otherwise)
    → Reports step (judge b otherwise build)
judge-Reports none otherwise build p q = tt
judge-Reports (some true) otherwise build p q = p
judge-Reports (some false) otherwise build p q = q

launched-Reports :
    {step : BaseStep} (b : Option Bool) (launch : Option VmLaunchResult) (build : Bool → StepResult)
    → About step (build true)
    → About step (build false)
    → ReportsLaunch step (elim b as (λ x. Result Exc (StepResult × Option VmLaunchResult)) [
      | none ↦ err value_error
      | some passed ↦ ok (build passed, launch)
    ])
launched-Reports none launch build p q = tt
launched-Reports (some true) launch build p q = p
launched-Reports (some false) launch build p q = q

module _ {W : Type 0} (h : Host W) (step : BaseStep) where
  process-Reports :
      (ms : ℕ) (out : Result Exc CompletedProcess) → Reports step (process_result h step ms out)
  unfolding process_result
  process-Reports ms (ok proc) =
      judge-Reports (check_expected_values step proc.returncode proc.stdout) fail _
        (record { same = refl; ran = refl }) (record { same = refl; ran = refl })
  process-Reports ms (err timeout_expired) = record { same = refl; ran = refl }
  process-Reports ms (err (os_error m)) = record { same = refl; ran = refl }
  process-Reports ms (err (vm_profile_error m)) = tt
  process-Reports ms (err (guest_vsock_error m)) = tt
  process-Reports ms (err value_error) = tt
  process-Reports ms (err (other_exception m)) = tt

  launch-Reports :
      (ms : ℕ) (line : Option String) (out : Result Exc VmLaunchResult)
      → ReportsLaunch step (launch_result h step ms line out)
  unfolding launch_result
  launch-Reports ms line (ok launch) =
      launched-Reports
        (check_expected_values step (if launch.ok then pos 0 else pos 1) launch.message) _ _
        (record { same = refl; ran = refl }) (record { same = refl; ran = refl })
  launch-Reports ms line (err (vm_profile_error m)) =
      launched-Reports (check_expected_values step (pos 1) m) _ _
        (record { same = refl; ran = refl }) (record { same = refl; ran = refl })
  launch-Reports ms line (err (guest_vsock_error m)) = tt
  launch-Reports ms line (err (os_error m)) = tt
  launch-Reports ms line (err timeout_expired) = tt
  launch-Reports ms line (err value_error) = tt
  launch-Reports ms line (err (other_exception m)) = tt

  stop-Reports : (ms : ℕ) (out : Result Exc (Unit {0})) → Reports step (stop_result h step ms out)
  unfolding stop_result
  stop-Reports ms (ok done) =
      judge-Reports (check_expected_values step (pos 0) "Guest VM stopped") fail _
        (record { same = refl; ran = refl }) (record { same = refl; ran = refl })
  stop-Reports ms (err (os_error m)) = record { same = refl; ran = refl }
  stop-Reports ms (err timeout_expired) = tt
  stop-Reports ms (err (vm_profile_error m)) = tt
  stop-Reports ms (err (guest_vsock_error m)) = tt
  stop-Reports ms (err value_error) = tt
  stop-Reports ms (err (other_exception m)) = tt

  guest-Reports :
      (ms : ℕ) (out : Result Exc GuestCommandResult) → Reports step (guest_result h step ms out)
  unfolding guest_result
  guest-Reports ms (ok gcr) =
      judge-Reports (check_expected_values step gcr.exit_code gcr.stdout) fail _
        (record { same = refl; ran = refl }) (record { same = refl; ran = refl })
  guest-Reports ms (err (guest_vsock_error m)) = record { same = refl; ran = refl }
  guest-Reports ms (err timeout_expired) = tt
  guest-Reports ms (err (vm_profile_error m)) = tt
  guest-Reports ms (err (os_error m)) = tt
  guest-Reports ms (err value_error) = tt
  guest-Reports ms (err (other_exception m)) = tt

  pull-Reports :
      (path : String) (ms : ℕ) (out : Result Exc (Unit {0}))
      → Reports step (pull_result h step path ms out)
  unfolding pull_result
  pull-Reports path ms (ok done) =
      judge-Reports (check_expected_values step (pos 0) "") fail _
        (record { same = refl; ran = refl }) (record { same = refl; ran = refl })
  pull-Reports path ms (err (guest_vsock_error m)) = record { same = refl; ran = refl }
  pull-Reports path ms (err timeout_expired) = tt
  pull-Reports path ms (err (vm_profile_error m)) = tt
  pull-Reports path ms (err (os_error m)) = tt
  pull-Reports path ms (err value_error) = tt
  pull-Reports path ms (err (other_exception m)) = tt

  handler-Reports : (ms : ℕ) (end : HandlerEnd) → Reports step (handler_result h step ms end)
  unfolding handler_result
  handler-Reports ms (returned hr) =
      judge-Reports (check_expected_values step hr.exit_code hr.stdout) fail _
        (record { same = refl; ran = refl }) (record { same = refl; ran = refl })
  handler-Reports ms (returned_other t) = record { same = refl; ran = refl }
  handler-Reports ms (raised m) = record { same = refl; ran = refl }
  handler-Reports ms timed_out = record { same = refl; ran = refl }

  attribute-Reports :
      (ctx : StepContext) (a : Attribute W) (w : W) → Reports step (run_attribute h step ctx a w).0
  unfolding run_attribute
  attribute-Reports ctx missing w = record { same = refl; ran = refl }
  attribute-Reports ctx not_callable w = record { same = refl; ran = refl }
  attribute-Reports ctx (function handler) w = handler-Reports _ (handler ctx step.timeout w).end

abbrev pub at : {A : Type 0} {W : Type 0} → Result Exc A × Vm W → Result Exc A
at (out, vm) = out

module _ {W : Type 0} (h : Host W) (c : Config) (step : BaseStep) where
  ran-Reports : (out : Result Exc StepResult) → Reports step out → ReportsRan step (ran_of h c out)
  ran-Reports (ok sr) p = p
  ran-Reports (err e) p = tt

  ran_launch-Reports :
      (profile : VmProfile) (out : Result Exc (StepResult × Option VmLaunchResult)) (w : W)
      → ReportsLaunch step out
      → ReportsRan step (at (finish_launch h c profile (out, w)))
  unfolding finish_launch
  ran_launch-Reports profile (ok (sr, launch)) w p = p
  ran_launch-Reports profile (err e) w p = tt

  vm_launch-Reports :
      (launch : Option VmLaunchResult) (profile : Option VmProfile) (w : W)
      → ReportsRan step
          (at (exec_vm_launch h c step (record { launch = launch; profile = profile; world = w })))
  unfolding exec_vm_launch do_launch run_vm_launch_step
  vm_launch-Reports launch none w = record { same = refl; ran = refl }
  vm_launch-Reports (some launch) (some profile) w = record { same = refl; ran = refl }
  vm_launch-Reports none (some profile) w = ran_launch-Reports _ _ _ (launch-Reports h step _ _ _)

  finish_stop-Reports :
      (launch : VmLaunchResult) (text : Option String) (profile : Option VmProfile)
      (out : Result Exc StepResult) (w : W)
      → Reports step out
      → ReportsRan step (at (finish_stop h c launch text profile (out, w)))
  unfolding finish_stop
  finish_stop-Reports launch text profile (err e) w p = tt
  finish_stop-Reports launch text profile (ok sr) w p =
      if_both {A = Result Exc Ran × Vm W} (λ x. ReportsRan step (at x)) (is_error h c sr) p p

  logged-Reports :
      (launch : VmLaunchResult) (profile : Option VmProfile)
      (journal : Result Exc (Option String) × W)
      → ReportsRan step (at (stop_logged h c step launch profile journal))
  unfolding stop_logged run_vm_stop_step
  logged-Reports launch profile (ok text, w) =
      finish_stop-Reports launch text profile _ _ (stop-Reports h step _ _)
  logged-Reports launch profile (err e, w) = tt

  vm_stop-Reports :
      (launch : Option VmLaunchResult) (profile : Option VmProfile) (w : W)
      → ReportsRan step
          (at (exec_vm_stop h c step (record { launch = launch; profile = profile; world = w })))
  unfolding exec_vm_stop do_stop
  vm_stop-Reports none profile w = record { same = refl; ran = refl }
  vm_stop-Reports (some launch) profile w = logged-Reports launch profile _

  -- What a step does on the guest, by its own profile.
  module _ (run : VmProfile → W → Result Exc StepResult × W)
      (good : (p : VmProfile) (w : W) → Reports step (run p w).0) where
    on_guest-Reports :
        (launch : VmLaunchResult) (profile : Option VmProfile) (w : W)
        → ReportsRan step (at (on_guest h c run step launch profile w))
    unfolding on_guest
    on_guest-Reports launch profile w =
        if_both {A = Result Exc Ran × Vm W} (λ x. ReportsRan step (at x)) launch.ok
          (ran-Reports (run launch.profile w).0 (good launch.profile w))
          (record { same = refl; ran = refl })

    implicit-Reports :
        (profile : VmProfile) (out : Result Exc VmLaunchResult) (w : W)
        → ReportsRan step (at (finish_implicit h c run step profile (out, w)))
    unfolding finish_implicit
    implicit-Reports profile (ok launch) w = on_guest-Reports launch (some profile) _
    implicit-Reports profile (err (vm_profile_error m)) w = record { same = refl; ran = refl }
    implicit-Reports profile (err (guest_vsock_error m)) w = tt
    implicit-Reports profile (err (os_error m)) w = tt
    implicit-Reports profile (err timeout_expired) w = tt
    implicit-Reports profile (err value_error) w = tt
    implicit-Reports profile (err (other_exception m)) w = tt

    guest-ReportsRan :
        (launch : Option VmLaunchResult) (profile : Option VmProfile) (w : W)
        → ReportsRan step (
            at (
              exec_on_guest h c run step
                (record { launch = launch; profile = profile; world = w })))
    unfolding exec_on_guest
    guest-ReportsRan launch none w = record { same = refl; ran = refl }
    guest-ReportsRan none (some profile) w = implicit-Reports _ _ _
    guest-ReportsRan (some launch) (some profile) w = on_guest-Reports _ _ _

  pub exec_step-Reports :
      (kind : StepKind) (results : List StepResult) (vm : Vm W)
      → ReportsRan step (at (exec_step h c kind step results vm))
  unfolding exec_step exec_host exec_callable run_step run_callable_step run_guest_step
      run_guest_pull_step
  exec_step-Reports vm_launch results vm = vm_launch-Reports vm.launch vm.profile vm.world
  exec_step-Reports vm_stop results vm = vm_stop-Reports vm.launch vm.profile vm.world
  exec_step-Reports host results vm = ran-Reports _ (process-Reports h step _ _)
  exec_step-Reports guest results vm =
      guest-ReportsRan _ (λ p w. guest-Reports h step _ _) vm.launch vm.profile vm.world
  exec_step-Reports guest_pull results vm =
      guest-ReportsRan _ (λ p w. pull-Reports h step _ _ _) vm.launch vm.profile vm.world
  exec_step-Reports callable results vm =
      ran-Reports _
        (attribute-Reports h step (context h c results vm) (h.attribute step.handler) vm.world)
  exec_step-Reports (other_kind k) results vm = record { same = refl; ran = refl }
