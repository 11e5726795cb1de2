-- ===== src/Harness/World.antt =====
-- What the harness calls outside its own loop: the operating system, QEMU and the guest, with the
-- exceptions that these calls raise. `W` is the state of that world.
use sev_certify.Prelude.{ℕ, ◌-◌, String, Bool, List, Option, Result, ℤ}
use sev_certify.Models.Step.{BaseStep}
use sev_certify.Models.Definitions.{TestDefinition, StepResult, StepHandlerResult}
use sev_certify.Harness.Profile.{VmProfile, VmLaunchResult}

-- Exceptions, by the classes that the harness tells apart, with their messages. VMLaunchError is a
-- VmProfileError.
pub data Exc : Type 0 where
  vm_profile_error guest_vsock_error os_error : String → Exc
  timeout_expired : Exc
  value_error : Exc
  other_exception : String → Exc

-- The arguments of `subprocess.run`.
pub record ProcessCall : Type 0 where
  pub args : List String
  pub shell : Bool
  pub timeout : ℤ
  pub env : List (String × String)

pub record CompletedProcess : Type 0 where
  pub returncode : ℤ
  pub stdout : String
  pub stderr : String

-- guest_vsock.py's `GuestCommandResult`.
pub record GuestCommandResult : Type 0 where
  pub command : String
  pub exit_code : ℤ
  pub stdout : String
  pub stderr : String
  pub duration_ms : ℕ

-- models.py's `StepContext`. The module is the argument `attribute` of `Host` below.
pub record StepContext : Type 0 where
  pub test : TestDefinition
  pub guest_path : String
  pub step_results : List StepResult
  pub artifact_dir : String
  pub profile : Option VmProfile
  pub launch : Option VmLaunchResult
  pub cli_qemu_binary : Option String
  pub cli_ovmf_path : Option String
  pub allow_host_changes : Bool

-- How a handler ends. On a timeout the thread pool still waits for the handler, so that its effects
-- are those of the whole call.
pub data HandlerEnd : Type 0 where
  returned : StepHandlerResult → HandlerEnd
  returned_other : (type_name : String) → HandlerEnd
  raised : (message : String) → HandlerEnd
  timed_out : HandlerEnd

-- What a handler leaves: its end, the profile of the context, and the world.
pub record HandlerRun (W : Type 0) : Type 0 where
  pub end : HandlerEnd
  pub profile : Option VmProfile
  pub world : W

-- `getattr(module, name)`.
pub data Attribute (W : Type 0) : Type 0 where
  missing not_callable : Attribute W
  function : (StepContext → (timeout : ℤ) → W → HandlerRun W) → Attribute W

-- What `StepLogger.log_step` is told.
pub record LogEntry : Type 0 where
  pub step : BaseStep
  pub result : StepResult
  pub command : Option String
  pub guest_id : Option String
  pub guest_journal : Option String
  pub process_id : Option ℕ

pub record Host (W : Type 0) : Type 0 where
  pub now_ms : W → ℕ
  pub is_file : String → W → Bool
  pub run_process : ProcessCall → W → Result Exc CompletedProcess × W
  pub environ : W → List (String × String)
  pub build_qemu_command : VmProfile → W → Result Exc (List String)
  pub vm_launch : VmProfile → W → Result Exc VmLaunchResult × W
  pub stop_vm : VmLaunchResult → (timeout : ℤ) → W → Result Exc (Unit {0}) × W
  pub run_guest_command : VmProfile → String → (timeout : ℤ) → W → Result Exc GuestCommandResult × W
  pub pull_guest_file :
      VmProfile → (guest_src host_dest : String) → (timeout : ℤ) → W → Result Exc (Unit {0}) × W
  pub fetch_guest_journal : VmProfile → W → Result Exc GuestCommandResult × W
  pub attribute : String → Attribute W
  pub uuid4 : W → String × W
  pub mkdir : String → W → W
  pub update_guest_os : VmProfile → W → W
  pub log_step : LogEntry → W → W

-- `int((time.monotonic() - start) * 1000)`.
abbrev pub elapsed : {W : Type 0} → Host W → W → W → ℕ
elapsed host before after = host.now_ms after - host.now_ms before
