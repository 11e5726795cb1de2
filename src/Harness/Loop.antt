-- ===== src/Harness/Loop.antt =====
-- cli.py: `execute_test`, the loop that runs the steps of one test. What it prints is left out.
use sev_certify.Prelude.{
  String, Bool, true, false, ◌&&◌, List, Option, none, some, Result, ok, err, if◌then◌else◌,
}
use sev_certify.Prelude.Texts.{is_empty}
use sev_certify.Models.Step.{
  BaseStep, StepKind, vm_launch, vm_stop, host, guest, guest_pull, callable, other_kind,
}
use sev_certify.Models.Definitions.{error, StepResult, TestDefinition}
use sev_certify.Harness.Profile.{VmProfile, VmLaunchResult}
use sev_certify.Harness.Shell
use sev_certify.Harness.World.{Exc, vm_profile_error, guest_vsock_error, StepContext, Host}
use sev_certify.Harness.Steps.{
  error_result, run_step, run_vm_launch_step, run_vm_stop_step, run_guest_step, run_guest_pull_step,
  run_callable_step,
}

-- The arguments of `execute_test`. `environment` says whether a dictionary was passed, which is part
-- of the world; `plan` is the outcome of importing the module: its steps and its VM profile.
pub record Config : Type 0 where
  pub test : TestDefinition
  pub guest_path : String
  pub artifact_dir : String
  pub qemu_binary : Option String
  pub ovmf_path : Option String
  pub environment : Bool
  pub allow_host_changes : Bool
  pub debug : Bool
  pub plan : Option (List BaseStep × Option VmProfile)

-- The variables `launch` and `ctx.profile`, and the world.
pub record Vm (W : Type 0) : Type 0 where
  pub launch : Option VmLaunchResult
  pub profile : Option VmProfile
  pub world : W

-- What one pass of the loop hands to the logger.
pub record Ran : Type 0 where
  pub result : StepResult
  pub stopped : Option VmLaunchResult
  pub journal : Option String

abbrev pub ran : StepResult → Ran
ran sr = record { result = sr; stopped = none; journal = none }

-- `a or b`, at an optional text.
abbrev or_else : Option String → Option String → Option String
or_else none b = b
or_else (some s) b = if is_empty s then b else some s

module _ {W : Type 0} (h : Host W) (c : Config) where
  -- `step.guest_id or profile.guest_id or str(uuid.uuid4())`.
  unfoldable pub choose_guest_id : BaseStep → VmProfile → W → String × W
  choose_guest_id step profile w =
      elim (or_else (some step.guest_id) (or_else profile.guest_id none)) [
        | none ↦ h.uuid4 w
        | some id ↦ (id, w)
      ]

  -- In debug mode the logs of the guest go to a directory of its own.
  unfoldable pub debug_profile : String → VmProfile → VmProfile
  debug_profile guest_id profile =
      let dir = Shell.path_join c.artifact_dir guest_id in
      record profile {
        guest_id = some guest_id;
        guest_error_log = Shell.path_join dir "qemu-error.log";
        guest_boot_log = Shell.path_join dir "qemu-boot.log";
      }

  unfoldable pub greet : VmLaunchResult → W → W
  greet launch w = if launch.ok && c.environment then h.update_guest_os launch.profile w else w

  abbrev greet_new : Option VmLaunchResult → W → W
  greet_new none w = w
  greet_new (some launch) w = greet launch w

  unfoldable pub finish_launch :
      VmProfile → Result Exc (StepResult × Option VmLaunchResult) × W → Result Exc Ran × Vm W
  unfolding greet
  finish_launch profile (err e, w) =
      (err e, record { launch = none; profile = some profile; world = w })
  finish_launch profile (ok (sr, new_launch), w) = (
    ok (ran sr),
    record { launch = new_launch; profile = some profile; world = greet_new new_launch w },
  )

  unfoldable pub do_launch : BaseStep → VmProfile → W → Result Exc Ran × Vm W
  unfolding choose_guest_id debug_profile finish_launch
  do_launch step profile w =
      let (guest_id, w1) = choose_guest_id step profile w in
      let profile' = if c.debug then debug_profile guest_id profile else profile in
      let w2 = if c.debug then h.mkdir (Shell.path_join c.artifact_dir guest_id) w1 else w1 in
      finish_launch profile' (run_vm_launch_step h step profile' w2)

  unfoldable pub exec_vm_launch : BaseStep → Vm W → Result Exc Ran × Vm W
  unfolding do_launch
  exec_vm_launch step vm = elim vm.profile [
    | none ↦ (
      ok (ran (error_result step "vm_launch step requires guest image / VM profile context" none)),
      vm,
    )
    | some profile ↦ elim vm.launch [
      | some launch ↦ (
        ok (ran (error_result step "Duplicate vm_launch step (guest is already running)" (some 0))),
        vm,
      )
      | none ↦ do_launch step profile vm.world
    ]
  ]

  -- The journal is fetched in debug mode; a guest that cannot be reached has none.
  unfoldable pub fetch_journal : VmLaunchResult → W → Result Exc (Option String) × W
  fetch_journal launch w =
      let (out, w') = h.fetch_guest_journal launch.profile w in
      if c.debug
      then (
        elim out [
          | ok gcr ↦ ok (some gcr.stdout)
          | err e ↦ elim e [ guest_vsock_error m ↦ ok none | other ↦ err other ]
        ],
        w',
      )
      else (ok none, w)

  abbrev pub is_error : StepResult → Bool
  is_error sr = elim sr.result [ error ↦ true | _ ↦ false ]

  unfoldable pub finish_stop :
      VmLaunchResult
      → Option String
      → Option VmProfile
      → Result Exc StepResult × W
      → Result Exc Ran × Vm W
  finish_stop launch journal profile (err e, w) =
      (err e, record { launch = some launch; profile = profile; world = w })
  finish_stop launch journal profile (ok sr, w) =
      if is_error sr
      then (
        ok (record { result = sr; stopped = none; journal = journal }),
        record { launch = some launch; profile = profile; world = w },
      )
      else (
        ok (record { result = sr; stopped = some launch; journal = journal }),
        record { launch = none; profile = profile; world = w },
      )

  unfoldable pub stop_logged :
      BaseStep
      → VmLaunchResult
      → Option VmProfile
      → Result Exc (Option String) × W
      → Result Exc Ran × Vm W
  unfolding finish_stop
  stop_logged step launch profile (err e, w) =
      (err e, record { launch = some launch; profile = profile; world = w })
  stop_logged step launch profile (ok text, w) =
      finish_stop launch text profile (run_vm_stop_step h step launch w)

  unfoldable pub do_stop : BaseStep → VmLaunchResult → Option VmProfile → W → Result Exc Ran × Vm W
  unfolding fetch_journal stop_logged
  do_stop step launch profile w = stop_logged step launch profile (fetch_journal launch w)

  unfoldable pub exec_vm_stop : BaseStep → Vm W → Result Exc Ran × Vm W
  unfolding do_stop
  exec_vm_stop step vm = elim vm.launch [
    | none ↦ (
      ok (
          ran (
            error_result step "vm_stop: no running guest (run vm_launch or a guest step first)"
              (some 0))),
      vm,
    )
    | some launch ↦ do_stop step launch vm.profile vm.world
  ]

  -- A guest or guest_pull step on a launched guest.
  unfoldable pub on_guest :
      (VmProfile → W → Result Exc StepResult × W)
      → BaseStep
      → VmLaunchResult
      → Option VmProfile
      → W
      → Result Exc Ran × Vm W
  on_guest run step launch profile w =
      let (out, w') = run launch.profile w in
      if launch.ok
      then (
        elim out [ ok sr ↦ ok (ran sr) | err e ↦ err e ],
        record { launch = some launch; profile = profile; world = w' },
      )
      else (
        ok (ran (error_result step launch.message (some 0))),
        record { launch = some launch; profile = profile; world = w },
      )

  -- Without a running guest, such a step launches one.
  unfoldable pub finish_implicit :
      (VmProfile → W → Result Exc StepResult × W)
      → BaseStep
      → VmProfile
      → Result Exc VmLaunchResult × W
      → Result Exc Ran × Vm W
  unfolding greet on_guest
  finish_implicit run step profile (ok launch, w) =
      on_guest run step launch (some profile) (greet launch w)
  finish_implicit run step profile (err (vm_profile_error message), w) = (
    ok (ran (error_result step message (some 0))),
    record { launch = none; profile = some profile; world = w },
  )
  finish_implicit run step profile (err e, w) =
      (err e, record { launch = none; profile = some profile; world = w })

  unfoldable pub exec_on_guest :
      (VmProfile → W → Result Exc StepResult × W) → BaseStep → Vm W → Result Exc Ran × Vm W
  unfolding finish_implicit
  exec_on_guest run step vm = elim vm.profile [
    | none ↦ (
      ok (ran (error_result step "Guest steps require a guest image path and VM profile" none)),
      vm,
    )
    | some profile ↦ elim vm.launch [
      | none ↦ finish_implicit run step profile (h.vm_launch profile vm.world)
      | some launch ↦ on_guest run step launch (some profile) vm.world
    ]
  ]

  abbrev pub ran_of : Result Exc StepResult → Result Exc Ran
  ran_of (ok sr) = ok (ran sr)
  ran_of (err e) = err e

  unfoldable pub exec_host : BaseStep → Vm W → Result Exc Ran × Vm W
  exec_host step vm =
      let (out, w') = run_step h step c.guest_path (some c.artifact_dir) vm.world in
      (ran_of out, record vm { world = w' })

  abbrev pub context : List StepResult → Vm W → StepContext
  context results vm = record {
    test = c.test;
    guest_path = c.guest_path;
    step_results = results;
    artifact_dir = c.artifact_dir;
    profile = vm.profile;
    launch = vm.launch;
    cli_qemu_binary = c.qemu_binary;
    cli_ovmf_path = c.ovmf_path;
    allow_host_changes = c.allow_host_changes;
  }

  unfoldable pub exec_callable : BaseStep → List StepResult → Vm W → Result Exc Ran × Vm W
  exec_callable step results vm =
      let (out, profile, w') = run_callable_step h step (context results vm) vm.world in
      (ran_of out, record vm { profile = profile; world = w' })

  -- The ladder on `step.kind`.
  unfoldable pub exec_step : StepKind → BaseStep → List StepResult → Vm W → Result Exc Ran × Vm W
  exec_step vm_launch step results vm = exec_vm_launch step vm
  exec_step vm_stop step results vm = exec_vm_stop step vm
  exec_step host step results vm = exec_host step vm
  exec_step guest step results vm = exec_on_guest (run_guest_step h step) step vm
  exec_step guest_pull step results vm =
      exec_on_guest (λ p w. run_guest_pull_step h step p (some c.artifact_dir) w) step vm
  exec_step callable step results vm = exec_callable step results vm
  exec_step (other_kind k) step results vm =
      (ok (ran (error_result step "Unsupported step kind" none)), vm)
