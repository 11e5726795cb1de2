-- ===== src/Harness/Outcome.antt =====
-- The record that a test leaves: one result for each step of the plan, in order; when a step is
-- skipped; and which failures fail the test.
use sev_certify.Prelude.{
  if_cases, ◌≡◌, refl, Bool, true, false, ◌&&◌, ◌||◌, List, [], ◌∷◌, ◌++◌, Option, none, some,
  Result, ok, err, if◌then◌else◌, map, any, pos, ap, sym, ◌∙◌,
}
use mathlib.Core.List.{append_assoc, append-nil}
use sev_certify.Models.Step.{BaseStep}
use sev_certify.Models.Definitions.{Status, pass, fail, StepResult, TestResult}
use sev_certify.Harness.Profile.{VmProfile, VmLaunchResult}
use sev_certify.Harness.World.{Exc, Host}
use sev_certify.Harness.Loop.{Config, Vm, Ran}
use sev_certify.Harness.Run.{
  St, is_failing, is_setup, is_required, skipped, advance, run_steps, start, conclude, cleanup,
  after_stop, execute_test,
}
use sev_certify.Harness.Reports.{is_skip, About, ReportsRan, exec_step-Reports}

-- A failed setup step.
abbrev pub stops : StepResult → Bool
stops sr = is_failing sr && is_setup sr.step

-- A failure that fails the test.
abbrev pub counts : StepResult → Bool
counts sr = stops sr || is_failing sr && is_required sr.step

-- A result is skipped exactly when a setup step failed before it, `stopped` telling of the results
-- before the list.
abbrev pub Gated : (stopped : Bool) → List StepResult → Type 0
Gated stopped [] = Unit
Gated stopped (sr ∷ srs) = (is_skip sr ≡ stopped) × Gated (stopped || stops sr) srs

record Trace (steps : List BaseStep) (srs : List StepResult) (before after : Status) : Type 0 where
  of_steps : map (λ sr. sr.step) srs ≡ steps
  gated : Gated false srs
  overall : after ≡ (if any counts srs then fail else before)

-- What a run from `st` has added to it.
abbrev Recorded :
    {W : Type 0} → List BaseStep → List StepResult → Status → Result Exc (Unit {0}) × St W → Type 0
Recorded steps results overall (err e, st) = Unit
Recorded steps results overall (ok done, st) =
    (srs : List StepResult) × (st.results ≡ results ++ srs) × Trace steps srs overall st.overall

failing_once :
    (one more : Bool) (before : Status)
    → (if more then fail else if one then fail else before) ≡ (if one || more then fail else before)
failing_once true true before = refl
failing_once true false before = refl
failing_once false more before = refl

module _ {W : Type 0} (h : Host W) (c : Config) where
  skipped-Gated : (steps : List BaseStep) → Gated true (map (skipped h c) steps)
  skipped-Gated [] = tt
  skipped-Gated (step ∷ steps) = (refl, skipped-Gated steps)

  skipped-steps : (steps : List BaseStep) → map (λ sr. sr.step) (map (skipped h c) steps) ≡ steps
  skipped-steps [] = refl
  skipped-steps (step ∷ steps) = ap (λ xs. step ∷ xs) (skipped-steps steps)

  skipped-counts : (steps : List BaseStep) → any counts (map (skipped h c) steps) ≡ false
  skipped-counts [] = refl
  skipped-counts (step ∷ steps) = skipped-counts steps

  stopped-Trace :
      (step : BaseStep) (steps : List BaseStep) (sr : StepResult) (before : Status)
      → About step sr
      → (is_failing sr && is_setup step) ≡ true
      → Trace (step ∷ steps) (sr ∷ map (skipped h c) steps) before fail
  stopped-Trace step steps sr before about e =
      let stops_sr : stops sr ≡ true = rw about.same e in
      record {
        of_steps = cc (about.same, skipped-steps steps);
        gated = (about.ran, rw stops_sr (skipped-Gated steps));
        overall = rw stops_sr refl;
      }

  resumed-Trace :
      (step : BaseStep) (steps : List BaseStep) (sr : StepResult) (srs : List StepResult)
      (before after : Status)
      → About step sr
      → (is_failing sr && is_setup step) ≡ false
      → Trace steps srs (if is_failing sr && is_required step then fail else before) after
      → Trace (step ∷ steps) (sr ∷ srs) before after
  resumed-Trace step steps sr srs before after about e trace =
      let no_stop : stops sr ≡ false = rw about.same e in
      let counted : counts sr ≡ (is_failing sr && is_required step) =
        rw no_stop (ap (λ s. is_failing sr && is_required s) about.same) in
      record {
        of_steps = cc (about.same, trace.of_steps);
        gated = (about.ran, rw no_stop trace.gated);
        overall =
            trace.overall
            ∙ failing_once (is_failing sr && is_required step) (any counts srs) before
            ∙ ap (λ b. if b || any counts srs then fail else before) (sym counted);
      }

  resumed-Recorded :
      (step : BaseStep) (steps : List BaseStep) (sr : StepResult) (results : List StepResult)
      (before : Status) (out : Result Exc (Unit {0}) × St W)
      → About step sr
      → (is_failing sr && is_setup step) ≡ false
      → Recorded steps
          (results ++ sr ∷ [])
          (if is_failing sr && is_required step then fail else before)
          out
      → Recorded (step ∷ steps) results before out
  resumed-Recorded step steps sr results before (err e, st) about no_stop later = tt
  resumed-Recorded step steps sr results before (ok done, st) about no_stop (srs, more, trace) = (
    sr ∷ srs,
    more ∙ append_assoc results (sr ∷ []) srs,
    resumed-Trace step steps sr srs before st.overall about no_stop trace,
  )

  advance-Recorded :
      (step : BaseStep) (steps : List BaseStep) (resume : St W → Result Exc (Unit {0}) × St W)
      (st : St W) (out : Result Exc Ran × Vm W)
      → ReportsRan step out.0
      → ((st' : St W) → Recorded steps st'.results st'.overall (resume st'))
      → Recorded (step ∷ steps) st.results st.overall (advance h c step steps resume st out)
  unfolding advance
  advance-Recorded step steps resume st (err e, vm) about later = tt
  advance-Recorded step steps resume st (ok r, vm) about later =
      if_cases (Recorded (step ∷ steps) st.results st.overall)
        (is_failing r.result && is_setup step)
        (λ e. (
          r.result ∷ map (skipped h c) steps,
          append_assoc st.results (r.result ∷ []) (map (skipped h c) steps),
          stopped-Trace step steps r.result st.overall about e,
        ))
        λ e. resumed-Recorded step steps r.result st.results st.overall _ about e (later _)

  run_steps-Recorded :
      (steps : List BaseStep) (st : St W)
      → Recorded steps st.results st.overall (run_steps h c steps st)
  unfolding run_steps
  run_steps-Recorded [] st =
      ([], sym (append-nil st.results), record { of_steps = refl; gated = tt; overall = refl })
  run_steps-Recorded (step ∷ steps) st =
      advance-Recorded step steps (run_steps h c steps) st _
        (exec_step-Reports h c step step.kind st.results st.vm) (run_steps-Recorded steps)

  after_stop-eq-ok :
      (out : Result Exc TestResult) (stopped : Result Exc (Unit {0}) × W) (w' : W) (tr : TestResult)
      → after_stop h c out stopped ≡ (ok tr, w')
      → out ≡ ok tr
  after_stop-eq-ok out (ok done, w) w' tr e = cc
  after_stop-eq-ok out (err x, w) w' tr e = cc

  -- What the cleanup returns, the loop has returned.
  pub cleanup-eq-ok :
      (out : Result Exc TestResult) (launch : Option VmLaunchResult) (profile : Option VmProfile)
      (w w' : W) (tr : TestResult)
      → cleanup h c (out, record { launch = launch; profile = profile; world = w }) ≡ (ok tr, w')
      → out ≡ ok tr
  unfolding cleanup
  cleanup-eq-ok out none profile w w' tr e = cc
  cleanup-eq-ok out (some launch) profile w w' tr e =
      after_stop-eq-ok out (h.stop_vm launch (pos 10) w) w' tr e

  concluded :
      (steps : List BaseStep) (ran : Result Exc (Unit {0}) × St W) (w' : W) (tr : TestResult)
      → Recorded steps [] pass ran
      → cleanup h c (conclude h c ran) ≡ (ok tr, w')
      → (map (λ sr. sr.step) tr.step_results ≡ steps)
        × Gated false tr.step_results
        × (tr.result ≡ (if any counts tr.step_results then fail else pass))
  concluded steps (ok done, st) w' tr (srs, all, trace) e =
      let same = cleanup-eq-ok _ st.vm.launch st.vm.profile st.vm.world w' tr e in
      let results : tr.step_results ≡ srs = cc (same, all) in
      let overall : tr.result ≡ st.overall = cc same in
      rw results (trace.of_steps, trace.gated, overall ∙ trace.overall)
  concluded steps (err x, st) w' tr recorded e =
      absurd (cc (cleanup-eq-ok _ st.vm.launch st.vm.profile st.vm.world w' tr e))

  -- Where `execute_test` returns a result: it holds one result for each step of the plan, in order; a
  -- result is skipped exactly when a setup step failed before it; and the test passes, or fails when
  -- a setup or required step failed.
  pub execute_test-outcome :
      (w w' : W) (steps : List BaseStep) (declared : Option VmProfile) (tr : TestResult)
      → c.plan ≡ some (steps, declared)
      → execute_test h c w ≡ (ok tr, w')
      → (map (λ sr. sr.step) tr.step_results ≡ steps)
        × Gated false tr.step_results
        × (tr.result ≡ (if any counts tr.step_results then fail else pass))
  unfolding execute_test cleanup
  execute_test-outcome w w' steps declared tr planned returned =
      concluded steps (run_steps h c steps (start h c declared w)) w' tr
        (run_steps-Recorded steps _) (cc (planned, returned))
