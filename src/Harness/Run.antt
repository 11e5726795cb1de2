-- ===== src/Harness/Run.antt =====
-- cli.py: the loop of `execute_test` over the steps, and its frame: loading, logging and cleanup.
use sev_certify.Prelude.{
  String, Bool, true, false, ◌&&◌, List, [], ◌∷◌, ◌++◌, Option, none, some, Result, ok, err, pos,
  if◌then◌else◌, map,
}
use sev_certify.Prelude.Texts.{is_empty}
use sev_certify.Models.Step.{BaseStep, setup, required, vm_launch, vm_stop}
use sev_certify.Models.Definitions.{
  Status, pass, fail, error, skip, StepResult, TestResult, requires_vm,
}
use sev_certify.Harness.Profile.{VmProfile, VmLaunchResult, effective_vm_profile}
use sev_certify.Harness.Shell
use sev_certify.Harness.World.{Exc, LogEntry, Host}
use sev_certify.Harness.Steps.{plain_result}
use sev_certify.Harness.Loop.{Config, Vm, Ran, exec_step}

-- `step_results` and `overall`, beside the variables of `Vm`.
pub record St (W : Type 0) : Type 0 where
  pub results : List StepResult
  pub overall : Status
  pub vm : Vm W

abbrev pub is_failing : StepResult → Bool
is_failing sr = elim sr.result [ fail ↦ true | error ↦ true | _ ↦ false ]

abbrev pub is_setup : BaseStep → Bool
is_setup step = elim step.type [ setup ↦ true | _ ↦ false ]

abbrev pub is_required : BaseStep → Bool
is_required step = elim step.type [ required ↦ true | _ ↦ false ]

abbrev is_vm_stop : BaseStep → Bool
is_vm_stop step = elim step.kind [ vm_stop ↦ true | _ ↦ false ]

abbrev is_vm_launch : BaseStep → Bool
is_vm_launch step = elim step.kind [ vm_launch ↦ true | _ ↦ false ]

abbrev or_launch : Option VmLaunchResult → Option VmLaunchResult → Option VmLaunchResult
or_launch (some l) other = some l
or_launch none other = other

abbrev field_of {ℓ} : {A : Type ℓ} → (VmLaunchResult → A) → Option VmLaunchResult → Option A
field_of f none = none
field_of f (some l) = some (f l)

abbrev or_step : {A : Type 0} → Bool → Option A → Option A → Option A
or_step use_step (some a) other = some a
or_step true none other = other
or_step false none other = none

abbrev truthy : Option String → Option String
truthy none = none
truthy (some s) = if is_empty s then none else some s

-- The arguments of `log_step`.
unfoldable pub log_entry : BaseStep → Ran → Option VmLaunchResult → LogEntry
log_entry step r launch =
    let active = if is_vm_stop step then or_launch r.stopped launch else launch in
    record {
      step = step;
      result = r.result;
      command =
          or_step (is_vm_launch step) (field_of (λ l. Shell.join l.command) active)
            (truthy r.result.command);
      guest_id =
          or_step (is_vm_launch step) (field_of (λ l. l.guest_id) active)
            (truthy (some step.guest_id));
      guest_journal = if is_vm_stop step then r.journal else none;
      process_id = if is_vm_stop step then field_of (λ l. l.pid) active else none;
    }

module _ {W : Type 0} (h : Host W) (c : Config) where
  abbrev pub log : BaseStep → Ran → Vm W → Vm W
  log step r vm =
      if c.debug then record vm { world = h.log_step (log_entry step r vm.launch) vm.world } else vm

  abbrev pub skipped : BaseStep → StepResult
  skipped step = plain_result step skip

  -- What follows a step: a failed setup step marks the later steps as skipped and ends the loop, a
  -- failed required step fails the test, and `resume` goes on with the later steps.
  unfoldable pub advance :
      BaseStep
      → List BaseStep
      → (St W → Result Exc (Unit {0}) × St W)
      → St W
      → Result Exc Ran × Vm W
      → Result Exc (Unit {0}) × St W
  unfolding log_entry
  advance step steps resume st (err e, vm) = (err e, record st { vm = vm })
  advance step steps resume st (ok r, vm) =
      let results = st.results ++ r.result ∷ [] in
      let vm' = log step r vm in
      if is_failing r.result && is_setup step
      then (ok tt, record { results = results ++ map skipped steps; overall = fail; vm = vm' })
      else resume (record {
        results = results;
        overall = if is_failing r.result && is_required step then fail else st.overall;
        vm = vm';
      })

  unfoldable pub run_steps : List BaseStep → St W → Result Exc (Unit {0}) × St W
  unfolding exec_step advance
  run_steps [] st = (ok tt, st)
  run_steps (step ∷ steps) st =
      advance step steps (run_steps steps) st (exec_step h c step.kind step st.results st.vm)

  -- The profile that the context starts with.
  unfoldable pub initial_profile : Option VmProfile → Option VmProfile
  initial_profile declared =
      if requires_vm c.test
      then some (effective_vm_profile declared c.guest_path c.qemu_binary c.ovmf_path c.debug)
      else none

  abbrev pub start : Option VmProfile → W → St W
  start declared w = record {
    results = [];
    overall = pass;
    vm = record {
      launch = none;
      profile = initial_profile declared;
      world = h.mkdir c.artifact_dir w;
    };
  }

  abbrev pub after_stop :
      Result Exc TestResult → Result Exc (Unit {0}) × W → Result Exc TestResult × W
  after_stop out (ok done, w) = (out, w)
  after_stop out (err e, w) = (err e, w)

  -- The `finally` clause: a guest that still runs is stopped, and an exception there replaces what
  -- the body returned or raised.
  unfoldable pub cleanup : Result Exc TestResult × Vm W → Result Exc TestResult × W
  cleanup (out, vm) = elim vm.launch [
    | none ↦ (out, vm.world)
    | some launch ↦ after_stop out (h.stop_vm launch (pos 10) vm.world)
  ]

  abbrev pub conclude : Result Exc (Unit {0}) × St W → Result Exc TestResult × Vm W
  conclude (ok done, st) =
      (ok (record { test = c.test; result = st.overall; step_results = st.results }), st.vm)
  conclude (err e, st) = (err e, st.vm)

  unfoldable pub execute_test : W → Result Exc TestResult × W
  unfolding run_steps initial_profile cleanup
  execute_test w = elim c.plan [
    | none ↦ (ok (record { test = c.test; result = error; step_results = [] }), w)
    | some (steps, declared) ↦ cleanup (conclude (run_steps steps (start declared w)))
  ]
