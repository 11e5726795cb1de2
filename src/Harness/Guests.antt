-- ===== src/Harness/Guests.antt =====
-- How the steps of a test count the guests that they launch and stop.
use sev_certify.Prelude.{
  if_cases, if_both, ℕ, ◌+◌, ◌-◌, ◌≡◌, refl, ap, ◌∙◌, String, Bool, true, false, not, List, Option,
  none, some, Result, ok, err, is_ok, ℤ, pos, arith, if◌then◌else◌,
}
use sev_certify.Models.Step.{
  BaseStep, StepKind, vm_launch, vm_stop, host, guest, guest_pull, callable, other_kind, post_init,
}
use sev_certify.Models.Definitions.{Status, pass, fail, StepResult}
use sev_certify.Runner.Expected.{check_expected_values-Meets}
use sev_certify.Harness.Profile.{VmProfile, VmLaunchResult}
use sev_certify.Harness.World.{
  Exc, vm_profile_error, guest_vsock_error, os_error, timeout_expired, value_error, other_exception,
  ProcessCall, StepContext, HandlerRun, Attribute, missing, not_callable, function, LogEntry, Host,
}
use sev_certify.Harness.Steps.{
  judge, launch_result, stop_result, run_vm_launch_step, run_vm_stop_step, run_guest_step,
  run_guest_pull_step, run_step, run_attribute, run_callable_step,
}
use sev_certify.Harness.Loop.{
  Config, Vm, Ran, greet, finish_launch, do_launch, choose_guest_id, exec_vm_launch, finish_stop,
  stop_logged, do_stop, exec_vm_stop, fetch_journal, on_guest, finish_implicit, exec_on_guest,
  exec_host, exec_callable, exec_step, is_error, context,
}

abbrev pub one_if : Bool → ℕ
one_if true = 1
one_if false = 0

one_if-not : (b : Bool) → one_if (not b) + one_if b ≡ 1
one_if-not true = refl
one_if-not false = refl

-- What a count of the running guests does: a launch that returns adds one, a stop that returns takes
-- one away, and nothing else changes the count.
pub record Counts {W : Type 0} (h : Host W) (running : W → ℕ) : Type 0 where
  pub launch :
      (p : VmProfile) (w : W)
      → running (h.vm_launch p w).1 ≡ running w + one_if (is_ok (h.vm_launch p w).0)
  pub stop :
      (l : VmLaunchResult) (t : ℤ) (w : W)
      → running (h.stop_vm l t w).1 ≡ running w - one_if (is_ok (h.stop_vm l t w).0)
  pub process : (call : ProcessCall) (w : W) → running (h.run_process call w).1 ≡ running w
  pub command :
      (p : VmProfile) (s : String) (t : ℤ) (w : W)
      → running (h.run_guest_command p s t w).1 ≡ running w
  pub pull :
      (p : VmProfile) (s d : String) (t : ℤ) (w : W)
      → running (h.pull_guest_file p s d t w).1 ≡ running w
  pub journal : (p : VmProfile) (w : W) → running (h.fetch_guest_journal p w).1 ≡ running w
  pub handler :
      (name : String) (f : StepContext → ℤ → W → HandlerRun W)
      → h.attribute name ≡ function f
      → (ctx : StepContext) (t : ℤ) (w : W) → running (f ctx t w).world ≡ running w
  pub uuid : (w : W) → running (h.uuid4 w).1 ≡ running w
  pub mkdir : (path : String) (w : W) → running (h.mkdir path w) ≡ running w
  pub update : (p : VmProfile) (w : W) → running (h.update_guest_os p w) ≡ running w
  pub log : (entry : LogEntry) (w : W) → running (h.log_step entry w) ≡ running w

abbrev pub held : Option VmLaunchResult → ℕ
held none = 0
held (some l) = 1

-- The guests that run are those of before the test, `n`, and the one that the test holds.
abbrev pub Holds : {A W : Type 0} → (W → ℕ) → ℕ → A × Vm W → Type 0
Holds running n (out, vm) = running vm.world ≡ n + held vm.launch

abbrev held_by : Result Exc (StepResult × Option VmLaunchResult) → ℕ
held_by (ok (sr, launch)) = held launch
held_by (err e) = 0

module _ {W : Type 0} (h : Host W) (c : Config) (running : W → ℕ) (law : Counts h running)
    (n : ℕ) where
  module _ (step : BaseStep) (accepted : post_init step ≡ ok step) where
    launched-held :
        (b : Option Bool) (x : Bool) (e : b ≡ some x) (launch : Option VmLaunchResult)
        (build : Bool → StepResult)
        → held_by (elim b as (λ y. Result Exc (StepResult × Option VmLaunchResult)) [
          | none ↦ err value_error
          | some passed ↦ ok (build passed, launch)
        ])
          ≡ held launch
    launched-held b x e launch build = rw e refl

    launch_result-held :
        (ms : ℕ) (line : Option String) (out : Result Exc VmLaunchResult)
        → held_by (launch_result h step ms line out) ≡ one_if (is_ok out)
    unfolding launch_result
    launch_result-held ms line (ok launch) =
        let (b, known, meets) =
          check_expected_values-Meets step (if launch.ok then pos 0 else pos 1) launch.message
            accepted in
        launched-held _ b known _ _
    launch_result-held ms line (err (vm_profile_error m)) =
        let (b, known, meets) = check_expected_values-Meets step (pos 1) m accepted in
        launched-held _ b known _ _
    launch_result-held ms line (err (guest_vsock_error m)) = refl
    launch_result-held ms line (err (os_error m)) = refl
    launch_result-held ms line (err timeout_expired) = refl
    launch_result-held ms line (err value_error) = refl
    launch_result-held ms line (err (other_exception m)) = refl

    greet-count : (launch : VmLaunchResult) (w : W) → running (greet h c launch w) ≡ running w
    unfolding greet
    greet-count launch w = ground (arith, law.update launch.profile w)

    finish_launch-Holds :
        (profile : VmProfile) (out : Result Exc (StepResult × Option VmLaunchResult)) (w : W)
        → running w ≡ n + held_by out
        → Holds running n (finish_launch h c profile (out, w))
    unfolding finish_launch
    finish_launch-Holds profile (ok (sr, none)) w e = e
    finish_launch-Holds profile (ok (sr, some launch)) w e = greet-count launch w ∙ e
    finish_launch-Holds profile (err x) w e = e

    choose_guest_id-count :
        (profile : VmProfile) (w : W) → running (choose_guest_id h c step profile w).1 ≡ running w
    unfolding choose_guest_id
    choose_guest_id-count profile w = ground (arith, law.uuid w)

    launched-Holds :
        (profile : VmProfile) (w : W)
        → running w ≡ n
        → Holds running n (finish_launch h c profile (run_vm_launch_step h step profile w))
    unfolding run_vm_launch_step
    launched-Holds profile w e =
        finish_launch-Holds profile _ _
          (omega (arith, law.launch profile w, launch_result-held _ _ (h.vm_launch profile w).0, e))

    do_launch-Holds :
        (profile : VmProfile) (w : W)
        → running w ≡ n
        → Holds running n (do_launch h c step profile w)
    unfolding do_launch
    do_launch-Holds profile w e = launched-Holds _ _ (
        if_both {A = W} (λ v. running v ≡ n) c.debug
          (law.mkdir _ _ ∙ choose_guest_id-count profile w ∙ e)
          (choose_guest_id-count profile w ∙ e))

    vm_launch-Holds :
        (launch : Option VmLaunchResult) (profile : Option VmProfile) (w : W)
        → running w ≡ n + held launch
        → Holds running n
            (exec_vm_launch h c step (record { launch = launch; profile = profile; world = w }))
    unfolding exec_vm_launch
    vm_launch-Holds launch none w e = e
    vm_launch-Holds (some launch) (some profile) w e = e
    vm_launch-Holds none (some profile) w e = do_launch-Holds profile w (omega (arith, e))

    -- Whether a stop step leaves the guest with the test.
    abbrev keeps : Result Exc StepResult → Bool
    keeps (ok sr) = is_error h c sr
    keeps (err e) = true

    judge-keeps :
        (b : Option Bool) (x : Bool)
        → b ≡ some x
        → (build : Status → StepResult) → is_error h c (build pass) ≡ false
        → is_error h c (build fail) ≡ false
        → keeps (judge b fail build) ≡ false
    judge-keeps b true e build p q = rw e p
    judge-keeps b false e build p q = rw e q

    stop_result-keeps :
        (ms : ℕ) (out : Result Exc (Unit {0})) → keeps (stop_result h step ms out) ≡ not (is_ok out)
    unfolding stop_result
    stop_result-keeps ms (ok done) =
        let (b, known, meets) =
          check_expected_values-Meets step (pos 0) "Guest VM stopped" accepted in
        judge-keeps _ b known _ refl refl
    stop_result-keeps ms (err (vm_profile_error m)) = refl
    stop_result-keeps ms (err (guest_vsock_error m)) = refl
    stop_result-keeps ms (err (os_error m)) = refl
    stop_result-keeps ms (err timeout_expired) = refl
    stop_result-keeps ms (err value_error) = refl
    stop_result-keeps ms (err (other_exception m)) = refl

    finish_stop-Holds :
        (launch : VmLaunchResult) (text : Option String) (profile : Option VmProfile)
        (out : Result Exc StepResult) (w : W)
        → running w ≡ n + one_if (keeps out)
        → Holds running n (finish_stop h c launch text profile (out, w))
    unfolding finish_stop
    finish_stop-Holds launch text profile (err x) w e = e
    finish_stop-Holds launch text profile (ok sr) w e =
        if_cases {A = Result Exc Ran × Vm W} (Holds running n) (is_error h c sr)
          (λ t. omega (arith, e, ap one_if t)) λ t. omega (arith, e, ap one_if t)

    stop_logged-Holds :
        (launch : VmLaunchResult) (profile : Option VmProfile)
        (journal : Result Exc (Option String)) (w : W)
        → running w ≡ n + 1
        → Holds running n (stop_logged h c step launch profile (journal, w))
    unfolding stop_logged run_vm_stop_step
    stop_logged-Holds launch profile (err x) w e = e
    stop_logged-Holds launch profile (ok text) w e = finish_stop-Holds launch text profile _ _ (
        omega (
          arith,
          law.stop launch step.timeout w,
          ap one_if (stop_result-keeps _ (h.stop_vm launch step.timeout w).0),
          one_if-not (is_ok (h.stop_vm launch step.timeout w).0),
          e,
        ))

    journal-count :
        (launch : VmLaunchResult) (w : W) → running (fetch_journal h c launch w).1 ≡ running w
    unfolding fetch_journal
    journal-count launch w = ground (arith, law.journal launch.profile w)

    vm_stop-Holds :
        (launch : Option VmLaunchResult) (profile : Option VmProfile) (w : W)
        → running w ≡ n + held launch
        → Holds running n
            (exec_vm_stop h c step (record { launch = launch; profile = profile; world = w }))
    unfolding exec_vm_stop do_stop fetch_journal
    vm_stop-Holds none profile w e = e
    vm_stop-Holds (some launch) profile w e =
        stop_logged-Holds launch profile _ _ (journal-count launch w ∙ e)

    module _ (run : VmProfile → W → Result Exc StepResult × W)
        (same : (p : VmProfile) (w : W) → running (run p w).1 ≡ running w) where
      on_guest-Holds :
          (launch : VmLaunchResult) (profile : Option VmProfile) (w : W)
          → running w ≡ n + 1
          → Holds running n (on_guest h c run step launch profile w)
      unfolding on_guest
      on_guest-Holds launch profile w e =
          if_both {A = Result Exc Ran × Vm W} (Holds running n) launch.ok
            (same launch.profile w ∙ e) e

      implicit-Holds :
          (profile : VmProfile) (out : Result Exc VmLaunchResult) (w : W)
          → running w ≡ n + one_if (is_ok out)
          → Holds running n (finish_implicit h c run step profile (out, w))
      unfolding finish_implicit
      implicit-Holds profile (ok launch) w e =
          on_guest-Holds launch (some profile) _ (greet-count launch w ∙ e)
      implicit-Holds profile (err (vm_profile_error m)) w e = e
      implicit-Holds profile (err (guest_vsock_error m)) w e = e
      implicit-Holds profile (err (os_error m)) w e = e
      implicit-Holds profile (err timeout_expired) w e = e
      implicit-Holds profile (err value_error) w e = e
      implicit-Holds profile (err (other_exception m)) w e = e

      guest-Holds :
          (launch : Option VmLaunchResult) (profile : Option VmProfile) (w : W)
          → running w ≡ n + held launch
          → Holds running n (
              exec_on_guest h c run step (record { launch = launch; profile = profile; world = w }))
      unfolding exec_on_guest
      guest-Holds launch none w e = e
      guest-Holds none (some profile) w e =
          implicit-Holds profile _ _ (omega (arith, law.launch profile w, e))
      guest-Holds (some launch) (some profile) w e = on_guest-Holds launch (some profile) w e

    attribute-count :
        (ctx : StepContext) (a : Attribute W) (w : W)
        → h.attribute step.handler ≡ a
        → running (run_attribute h step ctx a w).2 ≡ running w
    unfolding run_attribute
    attribute-count ctx missing w found = refl
    attribute-count ctx not_callable w found = refl
    attribute-count ctx (function f) w found = law.handler step.handler f found ctx step.timeout w

    pub exec_step-Holds :
        (kind : StepKind) (results : List StepResult) (vm : Vm W)
        → running vm.world ≡ n + held vm.launch
        → Holds running n (exec_step h c kind step results vm)
    unfolding exec_step exec_host exec_callable run_step run_callable_step run_guest_step
        run_guest_pull_step
    exec_step-Holds vm_launch results vm e = vm_launch-Holds vm.launch vm.profile vm.world e
    exec_step-Holds vm_stop results vm e = vm_stop-Holds vm.launch vm.profile vm.world e
    exec_step-Holds host results vm e = law.process _ vm.world ∙ e
    exec_step-Holds guest results vm e =
        guest-Holds _ (λ p w. law.command p step.command step.timeout w) vm.launch vm.profile
          vm.world e
    exec_step-Holds guest_pull results vm e =
        guest-Holds _ (λ p w. law.pull p step.guest_src _ step.timeout w) vm.launch vm.profile
          vm.world e
    exec_step-Holds callable results vm e =
        attribute-count (context h c results vm) (h.attribute step.handler) vm.world refl ∙ e
    exec_step-Holds (other_kind k) results vm e = e
