-- ===== src/Channel/Wait.antt =====
-- guest_vsock.py: the wait for the guest's agent.
use Prim.Native.String.{◌++◌}
use sev_certify.Prelude.{
  ℕ, zero, suc, ◌+◌, ◌*◌, String, Bool, true, false, Option, none, some, Result, ok, err, ltb, ℤ,
}
use sev_certify.Prelude.Texts.{is_empty}
use sev_certify.Prelude.Decimal.{show_ℕ, show_ℤ}
use sev_certify.Harness.World.{Exc, guest_vsock_error, GuestCommandResult}
use sev_certify.Harness.Profile.{VmProfile}
use sev_certify.Channel.Wire.{Wire}
use sev_certify.Channel.Request.{ping_guest}

abbrev exited_text : ℤ → String
exited_text code = "QEMU exited with code " ++ (show_ℤ code ++ " before the guest became ready")

-- `boot_timeout` is a number of seconds that prints with its fraction, which is 0.
abbrev pub not_ready_text : VmProfile → (boot_timeout : ℕ) → (last_error : String) → String
not_ready_text p boot_timeout last_error =
    "Vsock agent on CID "
    ++ (show_ℤ p.vsock_cid
        ++ (":"
            ++ (show_ℤ p.vsock_port
                ++ (" not ready after "
                    ++ (show_ℕ boot_timeout
                        ++ (".0s" ++ (elim (is_empty last_error) [
                          | true ↦ ""
                          | false ↦ ": " ++ last_error
                        ])))))))

module _ {W : Type 0} (wire : Wire W) where
  -- `process is not None and process.poll() is not None`: the exit code.
  abbrev pub poll_process : (process : Option ℕ) → W → Option ℤ × W
  poll_process none w = (none, w)
  poll_process (some process) w = wire.poll process w

  -- How the loop goes on behind a ping.
  pub data Next : Type 0 where
    done : Result Exc (Unit {0}) → W → Next
    again : (last_error : String) → W → Next

  abbrev pub after_poll : (poll_ms : ℕ) → (last_error : String) → Option ℤ × W → Next
  after_poll poll_ms last_error (some code, w) = done (err (guest_vsock_error (exited_text code))) w
  after_poll poll_ms last_error (none, w) = again last_error (wire.sleep_ms poll_ms w)

  abbrev pub after_ping :
      (process : Option ℕ) → (poll_ms : ℕ) → Result Exc GuestCommandResult × W → Next
  after_ping process poll_ms (ok answer, w) = done (ok tt) w
  after_ping process poll_ms (err (guest_vsock_error message), w) =
      after_poll poll_ms message (poll_process process w)
  after_ping process poll_ms (err e, w) = done (err e) w

  unfoldable pub round : VmProfile → (process : Option ℕ) → (poll_ms : ℕ) → W → Next
  unfolding ping_guest
  round p process poll_ms w = after_ping process poll_ms (ping_guest wire p w)

  -- The loop, on fuel; `none` if the fuel runs out.
  unfoldable pub wait_loop :
      VmProfile
      → (process : Option ℕ) → (poll_ms boot_timeout deadline : ℕ) → (fuel : ℕ)
      → (last_error : String) → W
      → Option (Result Exc (Unit {0}) × W)
  unfolding round show_ℕ
  wait_loop p process poll_ms boot_timeout deadline zero last_error w = none
  wait_loop p process poll_ms boot_timeout deadline (suc fuel) last_error w =
      elim (ltb (wire.now_ms w) deadline) [
        | false ↦ some (err (guest_vsock_error (not_ready_text p boot_timeout last_error)), w)
        | true ↦ elim (round p process poll_ms w) [
          | done result w1 ↦ some (result, w1)
          | again message w1 ↦ wait_loop p process poll_ms boot_timeout deadline fuel message w1
        ]
      ]

  -- The timeout that is given, or the one of the profile, in seconds.
  abbrev pub boot_seconds : VmProfile → Option ℕ → ℕ
  boot_seconds p none = p.vsock_boot_timeout
  boot_seconds p (some timeout) = timeout

  unfoldable pub wait_for_guest :
      VmProfile
      → (timeout : Option ℕ) → (poll_ms : ℕ) → (process : Option ℕ) → (fuel : ℕ) → W
      → Option (Result Exc (Unit {0}) × W)
  unfolding wait_loop
  wait_for_guest p timeout poll_ms process fuel w =
      let seconds = boot_seconds p timeout in
      wait_loop p process poll_ms seconds (wire.now_ms w + seconds * 1000) fuel "" w

  -- Whether the guest is ready, and why it is not; other exceptions pass.
  abbrev pub readiness : Result Exc (Unit {0}) × W → Result Exc (Bool × String) × W
  readiness (ok ready, w) = (ok (true, ""), w)
  readiness (err (guest_vsock_error message), w) = (ok (false, message), w)
  readiness (err e, w) = (err e, w)

  unfoldable pub check_guest_ready :
      VmProfile
      → (timeout : Option ℕ) → (poll_ms : ℕ) → (process : Option ℕ) → (fuel : ℕ) → W
      → Option (Result Exc (Bool × String) × W)
  unfolding wait_for_guest
  check_guest_ready p timeout poll_ms process fuel w =
      elim (wait_for_guest p timeout poll_ms process fuel w) [
        | none ↦ none
        | some outcome ↦ some (readiness outcome)
      ]
