-- ===== src/Harness/Escapes.antt =====
-- The exceptions that leave `execute_test`.
use sev_certify.Prelude.{◌≡◌, refl, String, Bool, true, false, Result, ok, err, ℤ, pos}
use sev_certify.Harness.Profile.{VmProfile, VmLaunchResult}
use sev_certify.Harness.World.{
  Exc, vm_profile_error, guest_vsock_error, os_error, timeout_expired, ProcessCall, Host,
}

abbrev pub process_error : Exc → Bool
process_error e = elim e [ timeout_expired ↦ true | os_error m ↦ true | _ ↦ false ]

abbrev pub os_only : Exc → Bool
os_only e = elim e [ os_error m ↦ true | _ ↦ false ]

abbrev pub profile_error : Exc → Bool
profile_error e = elim e [ vm_profile_error m ↦ true | _ ↦ false ]

abbrev pub vsock_error : Exc → Bool
vsock_error e = elim e [ guest_vsock_error m ↦ true | _ ↦ false ]

-- An exception that an operation of the host raises and that its caller does not catch. A process may
-- time out or raise an OSError, a launch raise a VMProfileError, the stop of a stop step an OSError, the
-- guest's channel a GuestVsockError; of the stop of the cleanup nothing is caught.
pub data Escapes {W : Type 0} (h : Host W) (e : Exc) : Type 0 where
  of_process :
      (call : ProcessCall) (w : W)
      → (h.run_process call w).0 ≡ err e
      → process_error e ≡ false
      → Escapes h e
  of_launch :
      (p : VmProfile) (w : W) → (h.vm_launch p w).0 ≡ err e → profile_error e ≡ false → Escapes h e
  of_stop :
      (l : VmLaunchResult) (t : ℤ) (w : W)
      → (h.stop_vm l t w).0 ≡ err e
      → os_only e ≡ false
      → Escapes h e
  of_cleanup : (l : VmLaunchResult) (w : W) → (h.stop_vm l (pos 10) w).0 ≡ err e → Escapes h e
  of_command :
      (p : VmProfile) (s : String) (t : ℤ) (w : W)
      → (h.run_guest_command p s t w).0 ≡ err e
      → vsock_error e ≡ false
      → Escapes h e
  of_pull :
      (p : VmProfile) (s d : String) (t : ℤ) (w : W)
      → (h.pull_guest_file p s d t w).0 ≡ err e
      → vsock_error e ≡ false
      → Escapes h e
  of_journal :
      (p : VmProfile) (w : W)
      → (h.fetch_guest_journal p w).0 ≡ err e
      → vsock_error e ≡ false
      → Escapes h e

-- What ends with an exception ends with one that escapes.
abbrev pub Contained : {W : Type 0} (h : Host W) {A : Type 0} → Result Exc A → Type 0
Contained h (ok a) = Unit
Contained h (err e) = Escapes h e

-- An operation's end: an exception escapes unless it is one of those caught.
abbrev pub Raises : {W : Type 0} (h : Host W) {A : Type 0} → (Exc → Bool) → Result Exc A → Type 0
Raises h caught (ok a) = Unit
Raises h caught (err e) = caught e ≡ false → Escapes h e

uncaught :
    {W : Type 0} (h : Host W) {A : Type 0} (caught : Exc → Bool) (out : Result Exc A)
    → ((e : Exc) → out ≡ err e → caught e ≡ false → Escapes h e)
    → Raises h caught out
uncaught h caught (ok a) f = tt
uncaught h caught (err e) f = f e refl

abbrev pub Returns : {W : Type 0} (h : Host W) {A B : Type 0} → Result Exc A × B → Type 0
Returns h (out, b) = Contained h out

module _ {W : Type 0} (h : Host W) where
  pub process-Raises :
      (call : ProcessCall) (w : W) → Raises h process_error (h.run_process call w).0
  process-Raises call w = uncaught h process_error _ λ e. of_process call w

  pub launch-Raises : (p : VmProfile) (w : W) → Raises h profile_error (h.vm_launch p w).0
  launch-Raises p w = uncaught h profile_error _ λ e. of_launch p w

  pub command-Raises :
      (p : VmProfile) (s : String) (t : ℤ) (w : W)
      → Raises h vsock_error (h.run_guest_command p s t w).0
  command-Raises p s t w = uncaught h vsock_error _ λ e. of_command p s t w

  pub pull-Raises :
      (p : VmProfile) (s d : String) (t : ℤ) (w : W)
      → Raises h vsock_error (h.pull_guest_file p s d t w).0
  pull-Raises p s d t w = uncaught h vsock_error _ λ e. of_pull p s d t w

  pub journal-Raises : (p : VmProfile) (w : W) → Raises h vsock_error (h.fetch_guest_journal p w).0
  journal-Raises p w = uncaught h vsock_error _ λ e. of_journal p w

  pub stop-Raises : (l : VmLaunchResult) (t : ℤ) (w : W) → Raises h os_only (h.stop_vm l t w).0
  stop-Raises l t w = uncaught h os_only _ λ e. of_stop l t w

  stopped :
      (l : VmLaunchResult) (w : W) (out : Result Exc (Unit {0}))
      → (h.stop_vm l (pos 10) w).0 ≡ out
      → Contained h out
  stopped l w (ok done) e = tt
  stopped l w (err e) raises = of_cleanup l w raises

  pub cleanup_stop-Contained : (l : VmLaunchResult) (w : W) → Contained h (h.stop_vm l (pos 10) w).0
  cleanup_stop-Contained l w = stopped l w _ refl
