-- ===== src/Launch/RunLaws.antt =====
-- How a launch ends.
use sev_certify.Prelude.{
  ℕ, ◌+◌, ◌*◌, ◌≤◌, ◌≡◌, refl, ap, ◌∙◌, String, Bool, true, List, Option, none, some, Result, ok,
  err, arith, ℤ,
}
use sev_certify.Harness.World.{Exc, os_error}
use sev_certify.Harness.Profile.{VmProfile, VmLaunchResult}
use sev_certify.Channel.Wire.{IsClock}
use sev_certify.Channel.Request.{ping_guest}
use sev_certify.Channel.Wait.{check_guest_ready, readiness}
use sev_certify.Channel.BootLaws.{
  IsBooting, check_guest_ready-IsBooting, check_guest_ready-os_error,
}
use sev_certify.Channel.WaitLaws.{wait_for_guest-ends}
use sev_certify.Launch.Run.{
  Machine, finished_launch, ended_at_once, prepare, command_of, after_wait, boot_fuel, after_start,
  after_spawn, after_prepare, with_command, vm_launch,
}

module _ {W : Type 0} (m : Machine W) where
  after_start-waited :
      (p : VmProfile) (pid : ℕ) (command : List String) (w : W)
      (outcome : Result Exc (Bool × String) × W)
      → check_guest_ready m.wire p none 2000 (some pid) (boot_fuel m p) w ≡ some outcome
      → after_start m p pid command (none, w) ≡ some (after_wait m p pid command outcome)
  after_start-waited p pid command w outcome e = ground (arith, e)

  check_guest_ready-ends :
      IsClock m.wire
      → (p : VmProfile) (pid : ℕ) (w : W)
      → (outcome : Result Exc (Bool × String) × W) × (check_guest_ready m.wire p none 2000
            (some pid)
            (boot_fuel m p)
            w
          ≡ some outcome)
  unfolding check_guest_ready
  check_guest_ready-ends clock p pid w =
      let (outcome, e) = wait_for_guest-ends m.wire clock p none 2000 (some pid) w (omega arith) in
      (readiness m.wire outcome, ground (arith, e))

  abbrev Ends : Option (Result Exc VmLaunchResult × W) → Type 0
  Ends run = (outcome : Result Exc VmLaunchResult × W) × (run ≡ some outcome)

  after_start-Ends :
      IsClock m.wire
      → (p : VmProfile) (pid : ℕ) (command : List String) (polled : Option ℤ × W)
      → Ends (after_start m p pid command polled)
  after_start-Ends clock p pid command (some code, w) = ((err (ended_at_once m p code w), w), refl)
  after_start-Ends clock p pid command (none, w) =
      let (outcome, e) = check_guest_ready-ends clock p pid w in
      (after_wait m p pid command outcome, after_start-waited p pid command w outcome e)

  after_spawn-Ends :
      IsClock m.wire
      → (p : VmProfile) (command : List String) (spawned : Result Exc ℕ × W)
      → Ends (after_spawn m p command spawned)
  after_spawn-Ends clock p command (err e, w) = ((err e, w), refl)
  after_spawn-Ends clock p command (ok pid, w) =
      after_start-Ends clock p pid command (m.wire.poll pid (m.wire.sleep_ms 2000 w))

  after_prepare-Ends :
      IsClock m.wire
      → (p : VmProfile) (command : List String) (prepared : Result Exc (Unit {0}) × W)
      → Ends (after_prepare m p command prepared)
  after_prepare-Ends clock p command (err e, w) = ((err e, w), refl)
  after_prepare-Ends clock p command (ok made, w) =
      after_spawn-Ends clock p command (m.spawn command p.guest_error_log w)

  with_command-Ends :
      IsClock m.wire
      → (p : VmProfile) (command : Result Exc (List String)) (w : W)
      → Ends (with_command m p command w)
  with_command-Ends clock p (err e) w = ((err e, w), refl)
  with_command-Ends clock p (ok command) w = after_prepare-Ends clock p command (prepare m p w)

  -- A launch always ends, by returning or by raising: its fuel is enough for the wait.
  pub vm_launch-ends :
      IsClock m.wire
      → (p : VmProfile) (w : W)
      → (outcome : Result Exc VmLaunchResult × W) × (vm_launch m p w ≡ some outcome)
  unfolding vm_launch
  vm_launch-ends clock p w = with_command-Ends clock p (command_of m p w) w

module _ {W : Type 0} (m : Machine W) (p : VmProfile) (command : List String) (pid : ℕ)
    (w : W) where
  -- QEMU was started, and runs on behind the sleep: `w3` is the world then.
  pub record IsStarted (w3 : W) : Type 0 where
    pub prepared : W
    pub spawned : W
    pub built : command_of m p w ≡ ok command
    pub logs : prepare m p w ≡ (ok tt, prepared)
    pub spawn : m.spawn command p.guest_error_log prepared ≡ (ok pid, spawned)
    pub alive : m.wire.poll pid (m.wire.sleep_ms 2000 spawned) ≡ (none, w3)

  vm_launch-started :
      (w3 : W) → IsStarted w3 → vm_launch m p w ≡ after_start m p pid command (none, w3)
  unfolding vm_launch
  vm_launch-started w3 s =
      ap (λ c. with_command m p c w) s.built
      ∙ ap (after_prepare m p command) s.logs
      ∙ ap (after_spawn m p command) s.spawn
      ∙ ap (after_start m p pid command) s.alive

  -- A guest that boots in time is launched: where QEMU was started and runs on, and the guest answers
  -- from some time on that lies one round at least before the deadline, the launch returns a result
  -- that is ok, with the process and the command line of this QEMU.
  pub vm_launch-IsBooting :
      IsClock m.wire
      → (w3 : W) (ready step : ℕ) → IsStarted w3
      → IsBooting m.wire p (some pid) 2000 ready step
      → 1 ≤ p.vsock_boot_timeout
      → ready + step ≤ m.wire.now_ms w3 + p.vsock_boot_timeout * 1000
      → (result : VmLaunchResult) × (w4 : W) × (vm_launch m p w ≡ some (ok result, w4))
        × (result.ok ≡ true)
        × (result.pid ≡ pid)
        × (result.command ≡ command)
  vm_launch-IsBooting clock w3 ready step started booting some_time in_time =
      let (w4, e) =
        check_guest_ready-IsBooting m.wire clock p none 2000 (some pid) ready step w3 booting
          (omega arith) some_time in_time in
      let ready_now : Bool × String = (true, "") in
      let (result, w5) = finished_launch m p pid command ready_now w4 in
      (
        result,
        w5,
        vm_launch-started w3 started ∙ after_start-waited m p pid command w3 (ok ready_now, w4) e,
        refl,
        refl,
        refl,
      )

  -- A connection that breaks while the guest boots: the OSError of the ping leaves the launch, although
  -- QEMU was started and runs on, and the caller gets no process to stop.
  pub vm_launch-os_error :
      (w3 : W) (message : String)
      → IsStarted w3
      → 1 ≤ p.vsock_boot_timeout
      → (ping_guest m.wire p w3).0 ≡ err (os_error message)
      → (w4 : W) × (vm_launch m p w ≡ some (err (os_error message), w4))
  vm_launch-os_error w3 message started some_time broken =
      let (w4, e) = check_guest_ready-os_error m.wire p pid w3 message some_time broken in
      (
        w4,
        vm_launch-started w3 started
            ∙ after_start-waited m p pid command w3 (err (os_error message), w4) e,
      )
