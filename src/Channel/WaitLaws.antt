-- ===== src/Channel/WaitLaws.antt =====
-- The wait for the guest ends, and when it finds the guest ready.
use sev_certify.Prelude.{
  ℕ, zero, suc, ◌+◌, ◌-◌, ◌*◌, ◌≤◌, ◌<◌, ◌≡◌, refl, ap, ◌∙◌, String, true, false, Option, none,
  some, Result, ok, err, and_then, ltb, ltb→lt, arith, Bool-cases, inl, inr, ◌⊎◌, ℤ,
}
use sev_certify.Harness.World.{
  Exc, guest_vsock_error, vm_profile_error, os_error, timeout_expired, value_error, other_exception,
  GuestCommandResult,
}
use sev_certify.Harness.Profile.{VmProfile}
use sev_certify.Channel.Wire.{Wire, IsClock, ping}
use sev_certify.Channel.Request.{request, ping_guest, parse_command_response}
use sev_certify.Channel.Wait.{
  Next, done, again, after_ping, after_poll, poll_process, round, wait_loop, wait_for_guest,
  boot_seconds, not_ready_text,
}

module _ {W : Type 0} (wire : Wire W) where
  Next-cases :
      (next : Next wire)
      → ((r : Result Exc (Unit {0})) × (w : W) × (next ≡ done r w))
        ⊎ ((message : String) × (w : W) × (next ≡ again message w))
  Next-cases (done r w) = inl (r, w, refl)
  Next-cases (again message w) = inr (message, w, refl)

  and_then_world :
      {A B : Type 0} (m : Result Exc A × W) (f : A → W → Result Exc B)
      → (and_then m (λ a v. (f a v, v))).1 ≡ m.1
  and_then_world (ok a, w) f = refl
  and_then_world (err e, w) f = refl

  -- A ping leaves the world that its exchange leaves.
  ping_guest-world :
      (p : VmProfile) (w : W)
      → (ping_guest wire p w).1
        ≡ (wire.exchange p.vsock_cid p.vsock_port p.vsock_connect_timeout (wire.dumps ping) w).1
  unfolding ping_guest request
  ping_guest-world p w =
      and_then_world (request wire p ping p.vsock_connect_timeout w)
        (λ response v. parse_command_response wire "ping" response (wire.now_ms v - wire.now_ms w))

  module _ (p : VmProfile) (process : Option ℕ) (poll_ms boot_timeout deadline : ℕ) (fuel : ℕ)
      (last : String) (w : W) where
    wait_loop-late :
        ltb (wire.now_ms w) deadline ≡ false
        → wait_loop wire p process poll_ms boot_timeout deadline (suc fuel) last w
          ≡ some (err (guest_vsock_error (not_ready_text p boot_timeout last)), w)
    unfolding wait_loop
    wait_loop-late e = rw (e, wait_loop) refl

    module _ (early : ltb (wire.now_ms w) deadline ≡ true) where
      pub wait_loop-done :
          (r : Result Exc (Unit {0})) (w1 : W)
          → round wire p process poll_ms w ≡ done r w1
          → wait_loop wire p process poll_ms boot_timeout deadline (suc fuel) last w ≡ some (r, w1)
      unfolding wait_loop
      wait_loop-done r w1 e = ground (arith, early, e)

      pub wait_loop-again :
          (m : String) (w1 : W)
          → round wire p process poll_ms w ≡ again m w1
          → wait_loop wire p process poll_ms boot_timeout deadline (suc fuel) last w
            ≡ wait_loop wire p process poll_ms boot_timeout deadline fuel m w1
      unfolding wait_loop
      wait_loop-again m w1 e = ground (arith, early, e)

  -- Time passes in a round after which the loop goes on.
  module _ (clock : IsClock wire) where
    poll_process-later :
        (process : Option ℕ) (w : W) → wire.now_ms w ≤ wire.now_ms (poll_process wire process w).1
    poll_process-later none w = omega arith
    poll_process-later (some process) w = clock.polled process w

    after_poll-later :
        (poll_ms : ℕ) (message : String) (polled : Option ℤ × W) (last : String) (w' : W)
        → after_poll wire poll_ms message polled ≡ again last w'
        → wire.now_ms polled.1 + poll_ms ≤ wire.now_ms w'
    after_poll-later poll_ms message (some code, w) last w' h = absurd (cc h)
    after_poll-later poll_ms message (none, w) last w' h =
        let same : wire.sleep_ms poll_ms w ≡ w' = cc h in
        omega (arith, clock.slept poll_ms w, ap (λ v. wire.now_ms v) same)

    after_ping-later :
        (process : Option ℕ) (poll_ms : ℕ) (pinged : Result Exc GuestCommandResult × W)
        (last : String) (w' : W)
        → after_ping wire process poll_ms pinged ≡ again last w'
        → wire.now_ms pinged.1 + poll_ms ≤ wire.now_ms w'
    after_ping-later process poll_ms (ok answer, w) last w' h = absurd (cc h)
    after_ping-later process poll_ms (err (guest_vsock_error m), w) last w' h = omega (
      arith,
      poll_process-later process w,
      after_poll-later poll_ms m (poll_process wire process w) last w' h,
    )
    after_ping-later process poll_ms (err (vm_profile_error m), w) last w' h = absurd (cc h)
    after_ping-later process poll_ms (err (os_error m), w) last w' h = absurd (cc h)
    after_ping-later process poll_ms (err timeout_expired, w) last w' h = absurd (cc h)
    after_ping-later process poll_ms (err value_error, w) last w' h = absurd (cc h)
    after_ping-later process poll_ms (err (other_exception m), w) last w' h = absurd (cc h)

    pub round-later :
        (p : VmProfile) (process : Option ℕ) (poll_ms : ℕ) (w : W) (last : String) (w' : W)
        → round wire p process poll_ms w ≡ again last w'
        → wire.now_ms w + poll_ms ≤ wire.now_ms w'
    unfolding round
    round-later p process poll_ms w last w' h =
        let later = after_ping-later process poll_ms (ping_guest wire p w) last w' h in
        let pinged =
          clock.exchanged p.vsock_cid p.vsock_port p.vsock_connect_timeout (wire.dumps ping) w in
        omega (arith, later, pinged, ap (λ v. wire.now_ms v) (ping_guest-world p w))

    wait_loop-ends :
        (p : VmProfile) (process : Option ℕ) (poll_ms boot_timeout deadline : ℕ) (fuel : ℕ)
        (last : String) (w : W)
        → 1 ≤ poll_ms
        → deadline - wire.now_ms w < fuel
        → (outcome : Result Exc (Unit {0}) × W) × (wait_loop wire p process poll_ms boot_timeout
              deadline fuel last w
            ≡ some outcome)
    wait_loop-ends p process poll_ms boot_timeout deadline zero last w positive enough =
        absurd (omega (arith, enough))
    wait_loop-ends p process poll_ms boot_timeout deadline (suc fuel) last w positive enough =
        elim (Bool-cases (ltb (wire.now_ms w) deadline)) [
          | inr e ↦ (
            (err (guest_vsock_error (not_ready_text p boot_timeout last)), w),
            wait_loop-late p process poll_ms boot_timeout deadline fuel last w e,
          )
          | inl e ↦ elim (Next-cases (round wire p process poll_ms w)) [
            | inl (r, w1, e1) ↦ (
              (r, w1),
              wait_loop-done p process poll_ms boot_timeout deadline fuel last w e r w1 e1,
            )
            | inr (m, w1, e1) ↦
                let later = round-later p process poll_ms w m w1 e1 in
                let early : wire.now_ms w < deadline = ltb→lt (wire.now_ms w) deadline e in
                let (outcome, rest) =
                  wait_loop-ends p process poll_ms boot_timeout deadline fuel m w1 positive
                    (omega (arith, later, positive, enough, early)) in
                (
                  outcome,
                  wait_loop-again p process poll_ms boot_timeout deadline fuel last w e m w1 e1
                      ∙ rest,
                )
          ]
        ]

    -- The wait ends: one more round than the milliseconds of the timeout is enough, since each round
    -- that fails sleeps a millisecond at least.
    pub wait_for_guest-ends :
        (p : VmProfile) (timeout : Option ℕ) (poll_ms : ℕ) (process : Option ℕ) (w : W)
        → 1 ≤ poll_ms
        → (outcome : Result Exc (Unit {0}) × W) × (wait_for_guest wire p timeout poll_ms process
              (suc (boot_seconds wire p timeout * 1000))
              w
            ≡ some outcome)
    unfolding wait_for_guest
    wait_for_guest-ends p timeout poll_ms process w positive =
        let seconds = boot_seconds wire p timeout in
        wait_loop-ends p process poll_ms seconds (wire.now_ms w + seconds * 1000)
          (suc (seconds * 1000)) "" w positive (omega arith)
