-- ===== src/Harness/Tests.antt =====
-- A host that counts what is asked of it, a test on it, and the theorems of the harness at that run.
use sev_certify.Prelude.{
  ℕ, suc, ◌≡◌, refl, String, true, false, List, [], ◌∷◌, none, some, ok, err, pos, map, any,
  if◌then◌else◌,
}
use sev_certify.Models.Step.{
  BaseStep, StepSeverity, setup, info, StepKind, vm_launch, guest, vm_stop,
}
use sev_certify.Models.Definitions.{guest as guest_scope, pass, fail, skip, StepResult, requires_vm}
use sev_certify.Runner.Expected.{check_expected_values}
use sev_certify.Prelude.Texts.{partition, int}
use sev_certify.Harness.Shell
use sev_certify.Harness.Profile.{VmProfile, VmLaunchResult, effective_vm_profile}
use sev_certify.Harness.World.{guest_vsock_error, timeout_expired, missing, Host}
use sev_certify.Harness.Steps.{plain_result, error_result, run_vm_launch_step, run_guest_step}
use sev_certify.Harness.Loop.{Config, exec_vm_launch, exec_on_guest}
use sev_certify.Harness.Run.{execute_test}
use sev_certify.Prelude.{◌-◌, ◌⊎◌, Each, arith}
use sev_certify.Models.Step.{post_init, check_kind, validate_expected_result_format}
use sev_certify.Harness.World.{Exc}
use sev_certify.Harness.Escapes.{Escapes}
use sev_certify.Harness.Guests.{Counts}
use sev_certify.Harness.NoLeak.{execute_test-Settled}
use sev_certify.Harness.Outcome.{Gated, counts, execute_test-outcome}

abbrev launch_of : VmProfile → VmLaunchResult
launch_of profile = record {
  guest_id = "guest";
  message = "Guest VM is up";
  ok = true;
  profile = profile;
  command = "qemu-system-x86_64" ∷ [];
  pid = 7;
}

-- The world counts the calls. No guest answers.
abbrev pub counting : Host ℕ
counting = record {
  now_ms = λ w. w;
  is_file = λ path w. false;
  run_process = λ call w. (ok (record { returncode = pos 0; stdout = "done"; stderr = "" }), suc w);
  environ = λ w. [];
  build_qemu_command = λ profile w. ok ("qemu-system-x86_64" ∷ []);
  vm_launch = λ profile w. (ok (launch_of profile), suc w);
  stop_vm = λ launch timeout w. (ok tt, suc w);
  run_guest_command = λ profile command timeout w. (err (guest_vsock_error "no answer"), suc w);
  pull_guest_file = λ profile src dest timeout w. (err (guest_vsock_error "no answer"), suc w);
  fetch_guest_journal = λ profile w. (err (guest_vsock_error "no answer"), suc w);
  attribute = λ name. missing;
  uuid4 = λ w. ("uuid", w);
  mkdir = λ path w. w;
  update_guest_os = λ profile w. w;
  log_step = λ entry w. w;
}

abbrev pub a_step : String → StepSeverity → StepKind → String → BaseStep
a_step name type kind command = record {
  name = name;
  type = type;
  kind = kind;
  expected_result = "exit_code:0";
  timeout = pos 10;
  command = command;
  handler = "";
  guest_src = "";
  host_dest = "";
  guest_id = "";
  hints = [];
}

abbrev plan : List BaseStep
plan =
    a_step "Launch" setup vm_launch ""
    ∷ a_step "Ask the guest" setup guest "snpguest ok"
    ∷ a_step "Stop" info vm_stop ""
    ∷ []

abbrev pub config : Config
config = record {
  test = record {
    name = "launch";
    module_path = "sev_verify.cert_tests";
    scope = guest_scope;
    description = "";
    level = "3.0.0-0";
    host_changes = false;
  };
  guest_path = "guest.efi";
  artifact_dir = "artifacts";
  qemu_binary = none;
  ovmf_path = none;
  environment = false;
  allow_host_changes = false;
  debug = false;
  plan = some (plan, none);
}

-- The guest does not answer, which fails a setup step: the stop step is skipped, and the cleanup stops
-- the guest.
abbrev three_results : List StepResult
three_results =
    record (plain_result (a_step "Launch" setup vm_launch "") pass) {
      exit_code = some (pos 0);
      stdout = some "Guest VM is up";
      duration_ms = some 1;
      command = some "qemu-system-x86_64";
    }
    ∷ error_result (a_step "Ask the guest" setup guest "snpguest ok") "no answer" (some 1)
    ∷ plain_result (a_step "Stop" info vm_stop "") skip
    ∷ []

three_steps :
    execute_test counting config 0
    ≡ (ok (record { test = config.test; result = fail; step_results = three_results }), 3)
unfolding execute_test exec_vm_launch requires_vm run_vm_launch_step check_expected_values partition
    int exec_on_guest run_guest_step effective_vm_profile Shell.join
three_steps = refl

execute_test-outcome_example :
    (map (λ sr. sr.step) three_results ≡ plan)
    × Gated false three_results
    × (fail ≡ (if any counts three_results then fail else pass))
execute_test-outcome_example =
    execute_test-outcome counting config 0 3 plan none
      (record { test = config.test; result = fail; step_results = three_results }) refl three_steps

-- A world that is the number of running guests.
abbrev tracking : Host ℕ
tracking = record counting {
  run_process = λ call w. (ok (record { returncode = pos 0; stdout = "done"; stderr = "" }), w);
  stop_vm = λ launch timeout w. (ok tt, w - 1);
  run_guest_command = λ profile command timeout w. (err (guest_vsock_error "no answer"), w);
  pull_guest_file = λ profile src dest timeout w. (err (guest_vsock_error "no answer"), w);
  fetch_guest_journal = λ profile w. (err (guest_vsock_error "no answer"), w);
}

tracking-Counts : Counts tracking (λ w. w)
tracking-Counts = record {
  launch = λ p w. omega arith;
  stop = λ l t w. refl;
  process = λ call w. refl;
  command = λ p s t w. refl;
  pull = λ p s d t w. refl;
  journal = λ p w. refl;
  handler = λ name f e ctx t w. absurd (cc e);
  uuid = λ w. refl;
  mkdir = λ path w. refl;
  update = λ p w. refl;
  log = λ entry w. refl;
}

plan_accepted : Each (λ s. post_init s ≡ ok s) plan
unfolding post_init check_kind validate_expected_result_format partition int
plan_accepted = (refl, (refl, (refl, tt)))

execute_test-Settled_example :
    ((execute_test tracking config 0).1 ≡ 0)
    ⊎ ((launch : VmLaunchResult) × (w1 : ℕ) × (e : Exc) × (tracking.stop_vm launch (pos 10) w1
          ≡ (err e, (execute_test tracking config 0).1)))
execute_test-Settled_example =
    execute_test-Settled tracking config (λ w. w) 0 plan none tracking-Counts refl plan_accepted

-- A stop that times out.
abbrev stuck : Host ℕ
stuck = record counting { stop_vm = λ launch timeout w. (err timeout_expired, suc w) }
