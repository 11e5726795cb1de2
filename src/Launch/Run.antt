-- ===== src/Launch/Run.antt =====
-- vm_profile.py: `VMProfile.vm_launch`, `_read_guest_errors` and `stop_vm`.
use Prim.Native.String.{◌++◌}
use sev_certify.Prelude.{
  ℕ, suc, ◌-◌, ◌*◌, String, Bool, true, false, List, Option, none, some, Result, ok, err, and_then,
  if◌then◌else◌, ltb, length, drop, ℤ,
}
use sev_certify.Prelude.Texts.{is_empty, strip}
use sev_certify.Prelude.Decimal.{show_ℤ}
use sev_certify.Harness.World.{Exc, vm_profile_error, timeout_expired}
use sev_certify.Harness.Profile.{VmProfile, VmLaunchResult}
use sev_certify.Channel.Wire.{Wire}
use sev_certify.Channel.Wait.{check_guest_ready}
use sev_certify.Launch.HostData.{ProfileError}
use sev_certify.Launch.Command.{build_qemu_command}

-- The operating system: `spawn` opens the error log and starts QEMU, and `describe` is the text of an
-- error of a profile. `decode` is UTF-8 with replacement characters.
pub record Machine (W : Type 0) : Type 0 where
  pub wire : Wire W
  pub is_file : String → W → Bool
  pub describe : ProfileError → String
  pub make_parent : (path : String) → W → Result Exc (Unit {0}) × W
  pub write_empty : (path : String) → W → Result Exc (Unit {0}) × W
  pub spawn : (command : List String) → (error_log : String) → W → Result Exc ℕ × W
  pub read_bytes : (path : String) → W → List ℕ
  pub decode : List ℕ → String
  pub uuid4 : W → String × W

abbrev last_bytes : (max_bytes : ℕ) → List ℕ → List ℕ
last_bytes max_bytes bytes =
    if ltb max_bytes (length bytes) then drop (length bytes - max_bytes) bytes else bytes

abbrev with_tail : String → String → String → String
with_tail message separator tail = if is_empty tail then message else message ++ (separator ++ tail)

module _ {W : Type 0} (m : Machine W) where
  unfoldable pub read_guest_errors : (path : String) → (max_bytes : ℕ) → W → String
  read_guest_errors path max_bytes w =
      if m.is_file path w then m.decode (last_bytes max_bytes (m.read_bytes path w)) else ""

  -- The logs that QEMU writes.
  abbrev pub prepare : VmProfile → W → Result Exc (Unit {0}) × W
  prepare p w = and_then (m.make_parent p.guest_error_log w) λ done w1.
      if p.debug
      then and_then (m.make_parent p.guest_boot_log w1)
          (λ done w2. m.write_empty p.guest_boot_log w2)
      else (ok tt, w1)

  abbrev pub command_of : VmProfile → W → Result Exc (List String)
  command_of p w = elim (build_qemu_command (λ path. m.is_file path w) p) [
    | ok command ↦ ok command
    | err e ↦ err (vm_profile_error (m.describe e))
  ]

  abbrev pub ended_at_once : VmProfile → ℤ → W → Exc
  ended_at_once p code w = vm_profile_error (
      with_tail ("QEMU exited immediately with code " ++ show_ℤ code) ": "
        (strip (m.decode (m.read_bytes p.guest_error_log w))))

  -- The message of a guest that did not boot, with what QEMU wrote if it has ended.
  abbrev not_booted : VmProfile → String → Option ℤ × W → String × W
  not_booted p boot_error (none, w) = ("Guest did not boot: " ++ boot_error, w)
  not_booted p boot_error (some code, w) = (
    with_tail ("Guest did not boot: " ++ boot_error) "\nQEMU stderr:\n"
        (strip (read_guest_errors p.guest_error_log 8192 w)),
    w,
  )

  abbrev boot_message : VmProfile → (pid : ℕ) → Bool × String → W → String × W
  boot_message p pid (true, boot_error) w = ("VM launched and guest booted", w)
  boot_message p pid (false, boot_error) w = not_booted p boot_error (m.wire.poll pid w)

  abbrev named : VmProfile → W → String × W
  named p w = elim p.guest_id [
    | none ↦ m.uuid4 w
    | some guest_id ↦ if is_empty guest_id then m.uuid4 w else (guest_id, w)
  ]

  abbrev pub finished_launch :
      VmProfile → (pid : ℕ) → List String → Bool × String → W → VmLaunchResult × W
  finished_launch p pid command ready w =
      let (message, w1) = boot_message p pid ready w in
      let (guest_id, w2) = named p w1 in
      (
        record {
          pid = pid;
          command = command;
          profile = p;
          ok = ready.0;
          message = message;
          guest_id = guest_id;
        },
        w2,
      )

  abbrev pub after_wait :
      VmProfile
      → (pid : ℕ) → List String
      → Result Exc (Bool × String) × W
      → Result Exc VmLaunchResult × W
  after_wait p pid command (ok ready, w) =
      let (result, w1) = finished_launch p pid command ready w in (ok result, w1)
  after_wait p pid command (err e, w) = (err e, w)

  -- As long as the wait needs.
  abbrev pub boot_fuel : VmProfile → ℕ
  boot_fuel p = suc (p.vsock_boot_timeout * 1000)

  -- Behind the sleep: QEMU has ended, or the guest is waited for.
  abbrev pub after_start :
      VmProfile → (pid : ℕ) → List String → Option ℤ × W → Option (Result Exc VmLaunchResult × W)
  after_start p pid command (some code, w) = some (err (ended_at_once p code w), w)
  after_start p pid command (none, w) =
      elim (check_guest_ready m.wire p none 2000 (some pid) (boot_fuel p) w) [
        | none ↦ none
        | some outcome ↦ some (after_wait p pid command outcome)
      ]

  abbrev pub after_spawn :
      VmProfile → List String → Result Exc ℕ × W → Option (Result Exc VmLaunchResult × W)
  after_spawn p command (err e, w) = some (err e, w)
  after_spawn p command (ok pid, w) =
      after_start p pid command (m.wire.poll pid (m.wire.sleep_ms 2000 w))

  abbrev pub after_prepare :
      VmProfile → List String → Result Exc (Unit {0}) × W → Option (Result Exc VmLaunchResult × W)
  after_prepare p command (err e, w) = some (err e, w)
  after_prepare p command (ok made, w) = after_spawn p command (m.spawn command p.guest_error_log w)

  abbrev pub with_command :
      VmProfile → Result Exc (List String) → W → Option (Result Exc VmLaunchResult × W)
  with_command p (err e) w = some (err e, w)
  with_command p (ok command) w = after_prepare p command (prepare p w)

  -- With the defaults of its arguments. `build_qemu_command` checks the profile first, as `vm_launch`
  -- itself does. What is printed is left out; `none` is a wait that has run out of fuel.
  unfoldable pub vm_launch : VmProfile → W → Option (Result Exc VmLaunchResult × W)
  unfolding build_qemu_command check_guest_ready read_guest_errors
  vm_launch p w = with_command p (command_of p w) w

-- `Popen.terminate`, `wait` and `kill`.
pub record Process (W : Type 0) : Type 0 where
  pub terminate : ℕ → W → W
  pub wait : ℕ → (timeout : ℕ) → W → Result Exc (Unit {0}) × W
  pub kill : ℕ → W → W

module _ {W : Type 0} (process : Process W) where
  abbrev pub or_kill : ℕ → (timeout : ℕ) → Result Exc (Unit {0}) × W → Result Exc (Unit {0}) × W
  or_kill pid timeout (err timeout_expired, w) = process.wait pid timeout (process.kill pid w)
  or_kill pid timeout ended = ended

  -- A launch that has its process.
  unfoldable pub stop_vm : VmLaunchResult → (timeout : ℕ) → W → Result Exc (Unit {0}) × W
  stop_vm launch timeout w =
      or_kill launch.pid timeout (process.wait launch.pid timeout (process.terminate launch.pid w))
