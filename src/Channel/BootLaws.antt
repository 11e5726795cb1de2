-- ===== src/Channel/BootLaws.antt =====
-- A guest that boots in time is found ready.
use sev_certify.Prelude.{
  ℕ, zero, suc, ◌+◌, ◌-◌, ◌*◌, ◌≤◌, ◌<◌, ◌≡◌, ap, ◌∙◌, String, true, Option, none, some, ok, err,
  ltb, lt→ltb, ltb→lt, arith, Bool-cases, inl, inr, ◌⊎◌,
}
use sev_certify.Harness.World.{os_error, GuestCommandResult}
use sev_certify.Harness.Profile.{VmProfile}
use sev_certify.Channel.Wire.{Wire, IsClock}
use sev_certify.Channel.Request.{ping_guest}
use sev_certify.Channel.Wait.{
  done, again, after_ping, round, wait_loop, wait_for_guest, check_guest_ready, boot_seconds,
}
use sev_certify.Channel.WaitLaws.{wait_loop-done, wait_loop-again, round-later}

module _ {W : Type 0} (wire : Wire W) where
  -- From the time `ready` on, each ping is answered. Before, a ping is answered, or fails as the
  -- guest's channel does while QEMU runs, and its round takes `step` milliseconds at most.
  pub record IsBooting (p : VmProfile) (process : Option ℕ) (poll_ms ready step : ℕ) : Type 0 where
    pub answers :
        (w : W)
        → ready ≤ wire.now_ms w
        → (answer : GuestCommandResult) × ((ping_guest wire p w).0 ≡ ok answer)
    pub waits :
        (w : W)
        → wire.now_ms w < ready
        → ((answer : GuestCommandResult) × ((ping_guest wire p w).0 ≡ ok answer))
          ⊎ ((message : String) × (w1 : W) × (round wire p process poll_ms w ≡ again message w1)
              × (wire.now_ms w1 ≤ wire.now_ms w + step))

  round-answered :
      (p : VmProfile) (process : Option ℕ) (poll_ms : ℕ) (w : W) (answer : GuestCommandResult)
      → (ping_guest wire p w).0 ≡ ok answer
      → round wire p process poll_ms w ≡ done (ok tt) (ping_guest wire p w).1
  unfolding round
  round-answered p process poll_ms w answer e =
      ap (λ r. after_ping wire process poll_ms (r, (ping_guest wire p w).1)) e

  module _ (clock : IsClock wire) (p : VmProfile) (process : Option ℕ)
      (poll_ms boot_timeout deadline ready step : ℕ)
      (booting : IsBooting p process poll_ms ready step) (positive : 1 ≤ poll_ms)
      (in_time : ready + step ≤ deadline) where
    wait_loop-ready :
        (fuel : ℕ) (last : String) (w : W)
        → wire.now_ms w < deadline
        → deadline - wire.now_ms w < fuel
        → (w1 : W) × (wait_loop wire p process poll_ms boot_timeout deadline fuel last w
            ≡ some (ok tt, w1))
    wait_loop-ready zero last w early enough = absurd (omega (arith, enough))
    wait_loop-ready (suc fuel) last w early enough =
        let test = lt→ltb (wire.now_ms w) deadline early in
        let answered_now =
          λ (answer : GuestCommandResult) (e : (ping_guest wire p w).0 ≡ ok answer).
            wait_loop-done wire p process poll_ms boot_timeout deadline fuel last w test (ok tt)
              (ping_guest wire p w).1 (round-answered p process poll_ms w answer e) in
        elim (Bool-cases (ltb (wire.now_ms w) ready)) [
          | inr e ↦
              let (answer, e1) = booting.answers w (ground (arith, e)) in
              ((ping_guest wire p w).1, answered_now answer e1)
          | inl e ↦ elim (booting.waits w (ltb→lt (wire.now_ms w) ready e)) [
            | inl (answer, e1) ↦ ((ping_guest wire p w).1, answered_now answer e1)
            | inr (m, w1, e1, soon) ↦
                let before = ltb→lt (wire.now_ms w) ready e in
                let later = round-later wire clock p process poll_ms w m w1 e1 in
                let (end, rest) =
                  wait_loop-ready fuel m w1 (omega (arith, soon, before, in_time))
                    (omega (arith, later, positive, enough, early)) in
                (
                  end,
                  wait_loop-again wire p process poll_ms boot_timeout deadline fuel last w test m w1
                        e1
                      ∙ rest,
                )
          ]
        ]

  -- A guest that boots in time is found ready: if from some time on each ping is answered, until then
  -- failed pings are those of a guest that boots, and that time and one more round end before the
  -- deadline, then the guest is reported as ready.
  pub check_guest_ready-IsBooting :
      IsClock wire
      → (p : VmProfile) (timeout : Option ℕ) (poll_ms : ℕ) (process : Option ℕ) (ready step : ℕ)
        (w : W)
      → IsBooting p process poll_ms ready step
      → 1 ≤ poll_ms
      → 1 ≤ boot_seconds wire p timeout
      → ready + step ≤ wire.now_ms w + boot_seconds wire p timeout * 1000
      → (w1 : W) × (check_guest_ready wire p timeout poll_ms process
            (suc (boot_seconds wire p timeout * 1000))
            w
          ≡ some (ok (true, ""), w1))
  unfolding check_guest_ready wait_for_guest
  check_guest_ready-IsBooting clock p timeout poll_ms process ready step w booting positive
        some_time in_time =
      let seconds = boot_seconds wire p timeout in
      let (w1, e) =
        wait_loop-ready clock p process poll_ms seconds (wire.now_ms w + seconds * 1000) ready step
          booting positive in_time (suc (seconds * 1000)) "" w (omega (arith, some_time))
          (omega arith) in
      (w1, ground (arith, e))

  round-os_error :
      (p : VmProfile) (process : Option ℕ) (poll_ms : ℕ) (w : W) (message : String)
      → (ping_guest wire p w).0 ≡ err (os_error message)
      → round wire p process poll_ms w ≡ done (err (os_error message)) (ping_guest wire p w).1
  unfolding round
  round-os_error p process poll_ms w message e =
      ap (λ r. after_ping wire process poll_ms (r, (ping_guest wire p w).1)) e

  -- An OSError of the first ping is not caught.
  pub check_guest_ready-os_error :
      (p : VmProfile) (pid : ℕ) (w : W) (message : String)
      → 1 ≤ p.vsock_boot_timeout
      → (ping_guest wire p w).0 ≡ err (os_error message)
      → (w1 : W) × (check_guest_ready wire p none 2000
            (some pid)
            (suc (p.vsock_boot_timeout * 1000))
            w
          ≡ some (err (os_error message), w1))
  unfolding check_guest_ready wait_for_guest
  check_guest_ready-os_error p pid w message some_time broken =
      let deadline = wire.now_ms w + p.vsock_boot_timeout * 1000 in
      let w1 = (ping_guest wire p w).1 in
      let early : wire.now_ms w < deadline = omega (arith, some_time) in
      let looped =
        wait_loop-done wire p (some pid) 2000 p.vsock_boot_timeout deadline
          (p.vsock_boot_timeout * 1000) "" w (lt→ltb (wire.now_ms w) deadline early)
          (err (os_error message)) w1 (round-os_error p (some pid) 2000 w message broken) in
      (w1, ground (arith, looped))
