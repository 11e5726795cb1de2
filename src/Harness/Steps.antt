-- ===== src/Harness/Steps.antt =====
-- runner.py: one function for each kind of step. A step's own failures come back as a `StepResult`;
-- an exception that the source lets through comes back as `err`. Messages leave out the numbers and
-- the quotes around names.
use Prim.Native.String.{◌++◌}
use sev_certify.Prelude.{
  ℕ, String, Bool, not, List, [], ◌∷◌, Option, none, some, Result, ok, err, pos, if◌then◌else◌,
  starts_with,
}
use sev_certify.Prelude.Texts.{is_empty}
use sev_certify.Models.Step.{BaseStep}
use sev_certify.Models.Definitions.{Status, pass, fail, error, StepResult}
use sev_certify.Runner.Expected.{check_expected_values}
use sev_certify.Harness.Profile.{VmProfile, VmLaunchResult}
use sev_certify.Harness.Shell
use sev_certify.Harness.World.{
  Exc, vm_profile_error, guest_vsock_error, os_error, timeout_expired, value_error, ProcessCall,
  CompletedProcess, GuestCommandResult, StepContext, HandlerEnd, returned, returned_other, raised,
  timed_out, Attribute, missing, not_callable, function, Host, elapsed,
}

-- `StepResult(step=step, result=status)`, with the other fields at their defaults.
abbrev pub plain_result : BaseStep → Status → StepResult
plain_result step status = record {
  step = step;
  result = status;
  exit_code = none;
  stdout = none;
  stderr = none;
  duration_ms = none;
  command = none;
}

abbrev pub error_result : BaseStep → String → Option ℕ → StepResult
error_result step message ms = record (plain_result step error) {
  stderr = some message;
  duration_ms = ms;
}

-- The result of a check: `pass`, or the given status; the check may raise a ValueError.
abbrev pub judge : Option Bool → Status → (Status → StepResult) → Result Exc StepResult
judge none otherwise build = err value_error
judge (some passed) otherwise build = ok (build (if passed then pass else otherwise))

module _ {W : Type 0} (host : Host W) where
  abbrev step_env : String → Option String → W → List (String × String)
  step_env guest_path none w = ("GUEST_PATH", guest_path) ∷ host.environ w
  step_env guest_path (some dir) w =
      ("SEV_VERIFY_ARTIFACT_DIR", dir) ∷ ("GUEST_PATH", guest_path) ∷ host.environ w

  -- An executable file is run with the guest path as its argument, any other command by the shell.
  unfoldable pub process_call : BaseStep → String → Option String → W → ProcessCall
  process_call step guest_path dir w =
      let is_file = host.is_file step.command w in
      record {
        args = if is_file then step.command ∷ guest_path ∷ [] else step.command ∷ [];
        shell = not is_file;
        timeout = step.timeout;
        env = step_env guest_path dir w;
      }

  unfoldable pub process_result : BaseStep → ℕ → Result Exc CompletedProcess → Result Exc StepResult
  process_result step ms (ok proc) =
      judge (check_expected_values step proc.returncode proc.stdout) fail λ status.
        record (plain_result step status) {
          exit_code = some proc.returncode;
          stdout = some proc.stdout;
          stderr = some proc.stderr;
          duration_ms = some ms;
        }
  process_result step ms (err timeout_expired) = ok (error_result step "Timed out" (some ms))
  process_result step ms (err (os_error message)) = ok (error_result step message (some ms))
  process_result step ms (err e) = err e

  unfoldable pub run_step : BaseStep → String → Option String → W → Result Exc StepResult × W
  unfolding process_call process_result
  run_step step guest_path dir w =
      let (out, w') = host.run_process (process_call step guest_path dir w) w in
      (process_result step (elapsed host w w') out, w')

  abbrev command_line_of : Result Exc (List String) → Option String
  command_line_of (ok command) = some (Shell.join command)
  command_line_of (err e) = none

  -- The result of a launch step, and the launch that it leaves.
  unfoldable pub launch_result :
      BaseStep
      → ℕ
      → Option String
      → Result Exc VmLaunchResult
      → Result Exc (StepResult × Option VmLaunchResult)
  launch_result step ms line (err (vm_profile_error message)) =
      elim (check_expected_values step (pos 1) message) [
        | none ↦ err value_error
        | some passed ↦ ok (
          record (plain_result step (if passed then pass else error)) {
            exit_code = some (pos 1);
            stderr = some message;
            duration_ms = some ms;
            command = line;
          },
          none,
        )
      ]
  launch_result step ms line (err e) = err e
  launch_result step ms line (ok launch) =
      let exit_code = if launch.ok then pos 0 else pos 1 in
      elim (check_expected_values step exit_code launch.message) [
        | none ↦ err value_error
        | some passed ↦ ok (
          record (plain_result step (if passed then pass else fail)) {
            exit_code = some exit_code;
            stdout = if launch.ok then some launch.message else none;
            stderr = if launch.ok then none else some launch.message;
            duration_ms = some ms;
            command = some (Shell.join launch.command);
          },
          some launch,
        )
      ]

  unfoldable pub run_vm_launch_step :
      BaseStep → VmProfile → W → Result Exc (StepResult × Option VmLaunchResult) × W
  unfolding launch_result
  run_vm_launch_step step profile w =
      let line = command_line_of (host.build_qemu_command profile w) in
      let (out, w') = host.vm_launch profile w in
      (launch_result step (elapsed host w w') line out, w')

  unfoldable pub stop_result : BaseStep → ℕ → Result Exc (Unit {0}) → Result Exc StepResult
  stop_result step ms (ok done) =
      judge (check_expected_values step (pos 0) "Guest VM stopped") fail λ status.
        record (plain_result step status) {
          exit_code = some (elim status [ pass ↦ pos 0 | _ ↦ pos 1 ]);
          stdout = some "Guest VM stopped";
          duration_ms = some ms;
        }
  stop_result step ms (err (os_error message)) = ok (error_result step message (some ms))
  stop_result step ms (err e) = err e

  unfoldable pub run_vm_stop_step : BaseStep → VmLaunchResult → W → Result Exc StepResult × W
  unfolding stop_result
  run_vm_stop_step step launch w =
      let (out, w') = host.stop_vm launch step.timeout w in
      (stop_result step (elapsed host w w') out, w')

  unfoldable pub guest_result : BaseStep → ℕ → Result Exc GuestCommandResult → Result Exc StepResult
  guest_result step ms (ok gcr) =
      judge (check_expected_values step gcr.exit_code gcr.stdout) fail λ status.
        record (plain_result step status) {
          exit_code = some gcr.exit_code;
          stdout = some gcr.stdout;
          stderr = some gcr.stderr;
          duration_ms = some gcr.duration_ms;
        }
  guest_result step ms (err (guest_vsock_error message)) = ok (error_result step message (some ms))
  guest_result step ms (err e) = err e

  unfoldable pub run_guest_step : BaseStep → VmProfile → W → Result Exc StepResult × W
  unfolding guest_result
  run_guest_step step profile w =
      let (out, w') = host.run_guest_command profile step.command step.timeout w in
      (guest_result step (elapsed host w w') out, w')

  unfoldable pub pull_path : BaseStep → Option String → String
  pull_path step none = step.host_dest
  pull_path step (some dir) =
      if starts_with step.host_dest "/" then step.host_dest else Shell.path_join dir step.host_dest

  unfoldable pub pull_result : BaseStep → String → ℕ → Result Exc (Unit {0}) → Result Exc StepResult
  pull_result step path ms (ok done) = judge (check_expected_values step (pos 0) "") fail λ status.
      record (plain_result step status) {
        exit_code = some (pos 0);
        stdout = some ("Pulled " ++ (step.guest_src ++ (" -> " ++ path)));
        duration_ms = some ms;
      }
  pull_result step path ms (err (guest_vsock_error message)) =
      ok (error_result step message (some ms))
  pull_result step path ms (err e) = err e

  unfoldable pub run_guest_pull_step :
      BaseStep → VmProfile → Option String → W → Result Exc StepResult × W
  unfolding pull_path pull_result
  run_guest_pull_step step profile dir w =
      let path = pull_path step dir in
      let (out, w') = host.pull_guest_file profile step.guest_src path step.timeout w in
      (pull_result step path (elapsed host w w') out, w')

  abbrev nonempty : String → Option String
  nonempty s = if is_empty s then none else some s

  unfoldable pub handler_result : BaseStep → ℕ → HandlerEnd → Result Exc StepResult
  handler_result step ms timed_out =
      ok (error_result step ("Callable " ++ (step.handler ++ " timed out")) (some ms))
  handler_result step ms (raised message) = ok (error_result step message (some ms))
  handler_result step ms (returned_other type_name) =
      ok (error_result step ("Handler must return StepHandlerResult, got " ++ type_name) (some ms))
  handler_result step ms (returned hr) =
      judge (check_expected_values step hr.exit_code hr.stdout) fail λ status.
        record (plain_result step status) {
          exit_code = some hr.exit_code;
          stdout = nonempty hr.stdout;
          stderr = nonempty hr.stderr;
          duration_ms = some ms;
          command = hr.command;
        }

  -- The handler may replace the profile of its context, which comes back with the result.
  unfoldable pub run_attribute :
      BaseStep → StepContext → Attribute W → W → Result Exc StepResult × Option VmProfile × W
  unfolding handler_result
  run_attribute step ctx missing w = (
    ok (error_result step ("Test module has no attribute " ++ step.handler) (some 0)),
    ctx.profile,
    w,
  )
  run_attribute step ctx not_callable w = (
    ok (error_result step ("Module attribute " ++ (step.handler ++ " is not callable")) (some 0)),
    ctx.profile,
    w,
  )
  run_attribute step ctx (function handler) w =
      let run = handler ctx step.timeout w in
      (handler_result step (elapsed host w run.world) run.end, run.profile, run.world)

  unfoldable pub run_callable_step :
      BaseStep → StepContext → W → Result Exc StepResult × Option VmProfile × W
  unfolding run_attribute
  run_callable_step step ctx w = run_attribute step ctx (host.attribute step.handler) w
