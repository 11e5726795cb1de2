-- ===== src/Cli/ProgramLaws.antt =====
-- `main` over `execute_test`: what an exit code of 0 says of the steps of the tests.
use sev_certify.Prelude.{
  ◌≡◌, refl, Bool, true, false, List, [], ◌∷◌, ◌++◌, Option, none, some, Result, ok, err, any, all,
  arith, map, ap, ◌∙◌, and_then, and_then-eq-ok, Bool-cases, Option-cases, inl, inr, String, Each,
  if◌then◌else◌,
}
use sev_certify.Models.Step.{BaseStep}
use sev_certify.Models.Definitions.{
  Status, pass, fail, error, TestDefinition, TestResult, CertificationDefinition,
  CertificationResult,
}
use sev_certify.Harness.Profile.{VmProfile}
use sev_certify.Harness.World.{Exc, Host}
use sev_certify.Harness.Loop.{Config}
use sev_certify.Harness.Run.{St, run_steps, start, conclude, cleanup, execute_test}
use sev_certify.Harness.Outcome.{counts, cleanup-eq-ok, execute_test-outcome}
use sev_certify.Cli.Certified.{passed}
use sev_certify.Cli.Certify.{Runner, run_tests, execute_certification, run_certifications, main_run}
use sev_certify.Cli.CertifyLaws.{certifications_of, IsComplete, main_run-zero}
use sev_certify.Cli.Select.{filter_tests, is_nil}

Each-snoc :
    {A : Type 0} (P : A → Type 0) (done : List A) (a : A)
    → Each P done
    → P a
    → Each P (done ++ a ∷ [])
Each-snoc P [] a each one = (one, tt)
Each-snoc P (x ∷ done) a each one = (each.0, Each-snoc P done a each.1 one)

-- What holds of the result of each run of a test holds of all results of the program.
module _ {E W : Type 0} (run : Runner E W) (P : TestResult → Type 0)
    (good : (test : TestDefinition) (w w' : W) (tr : TestResult)
      → run test w ≡ (ok tr, w')
      → P tr) where
  run_tests-Each :
      (done : List TestResult) (tests : List TestDefinition) (w w' : W) (trs : List TestResult)
      → Each P done
      → run_tests run done tests w ≡ (ok trs, w')
      → Each P trs
  unfolding run_tests
  run_tests-Each done [] w w' trs each e = let same : trs ≡ done = cc in rw same each
  run_tests-Each done (test ∷ tests) w w' trs each e =
      let (tr, w1, one, rest) = and_then-eq-ok (run test w) _ e in
      run_tests-Each (done ++ tr ∷ []) tests w1 w' trs
        (Each-snoc P done tr each (good test w w1 tr one)) rest

  execute_certification-Each :
      (cert : CertificationDefinition) (w w' : W) (cr : CertificationResult)
      → execute_certification run cert w ≡ (ok cr, w')
      → Each P cr.test_results
  unfolding execute_certification
  execute_certification-Each cert w w' cr e =
      let (trs, w1, ran, last) = and_then-eq-ok (run_tests run [] cert.tests w) _ e in
      let results : cr.test_results ≡ trs = cc last in
      rw results (run_tests-Each [] cert.tests w w1 trs tt ran)

  run_certifications-Each :
      (done : List CertificationResult) (entries : List (CertificationDefinition × List String))
      (w w' : W) (crs : List CertificationResult)
      → Each (λ cr. Each P cr.test_results) done
      → run_certifications run done entries w ≡ (ok crs, w')
      → Each (λ cr. Each P cr.test_results) crs
  unfolding run_certifications
  run_certifications-Each done [] w w' crs each e = let same : crs ≡ done = cc in rw same each
  run_certifications-Each done ((cert, fs) ∷ entries) w w' crs each e =
      elim (Bool-cases (is_nil (filter_tests cert fs).tests)) [
        | inl none_left ↦ run_certifications-Each done entries w w' crs each (cc (none_left, e))
        | inr some_left ↦
            let run_on : and_then (execute_certification run (filter_tests cert fs) w)
                  (λ cr w1. run_certifications run (done ++ cr ∷ []) entries w1)
                ≡ (ok crs, w') =
              cc (some_left, e) in
            let (cr, w1, one, later) =
              and_then-eq-ok (execute_certification run (filter_tests cert fs) w) _ run_on in
            run_certifications-Each (done ++ cr ∷ []) entries w1 w' crs
              (Each-snoc (λ r. Each P r.test_results) done cr each
                (execute_certification-Each _ _ _ _ one))
              later
      ]

module _ {W : Type 0} (h : Host W) where
  conclude-test :
      (c : Config) (done : Result Exc (Unit {0}) × St W) (tr : TestResult) (w' : W)
      → cleanup h c (conclude h c done) ≡ (ok tr, w')
      → tr.test ≡ c.test
  conclude-test c (ok u, st) tr w' e =
      let same = cleanup-eq-ok h c _ st.vm.launch st.vm.profile st.vm.world w' tr e in cc same
  conclude-test c (err x, st) tr w' e =
      absurd (cc (cleanup-eq-ok h c _ st.vm.launch st.vm.profile st.vm.world w' tr e))

  execute_test-test :
      (c : Config) (w w' : W) (tr : TestResult)
      → execute_test h c w ≡ (ok tr, w')
      → tr.test ≡ c.test
  unfolding execute_test
  execute_test-test c w w' tr e = elim (Option-cases c.plan) [
    | inl unplanned ↦ cc (unplanned, e)
    | inr ((steps, declared), planned) ↦
        conclude-test c (run_steps h c steps (start h c declared w)) tr w' (cc (planned, e))
  ]

  -- The configuration of each test, from the command line and its module.
  module _ (configure : TestDefinition → Config)
      (configured : (test : TestDefinition) → (configure test).test ≡ test) where
    abbrev pub run_test : Runner Exc W
    run_test test w = execute_test h (configure test) w

    -- Each step of the test's plan has its result, in order, and no failed step counts.
    abbrev pub IsClean : TestResult → Type 0
    IsClean tr =
        (steps : List BaseStep) × (declared : Option VmProfile) × ((configure tr.test).plan
          ≡ some (steps, declared))
        × (map (λ sr. sr.step) tr.step_results ≡ steps)
        × (any counts tr.step_results ≡ false)

    run_test-test :
        (test : TestDefinition) (w w' : W) (tr : TestResult)
        → run_test test w ≡ (ok tr, w')
        → tr.test ≡ test
    run_test-test test w w' tr e = execute_test-test (configure test) w w' tr e ∙ configured test

    planned_only :
        (c : Config) (w w' : W) (tr : TestResult)
        → c.plan ≡ none
        → execute_test h c w ≡ (ok tr, w')
        → passed tr ≡ true
        → ⊥
    unfolding execute_test
    planned_only c w w' tr unplanned e pass_it =
        let result : tr.result ≡ error = cc (unplanned, e) in
        absurd (ground (arith, result, pass_it))

    uncounted : (b : Bool) (r : Status) → r ≡ (if b then fail else pass) → r ≡ pass → b ≡ false
    uncounted true r e e' = absurd (cc (e, e'))
    uncounted false r e e' = refl

    passed-pass : (tr : TestResult) → passed tr ≡ true → tr.result ≡ pass
    passed-pass tr e = ground (arith, e)

    run_test-IsClean :
        (test : TestDefinition) (w w' : W) (tr : TestResult)
        → run_test test w ≡ (ok tr, w')
        → passed tr ≡ true
        → IsClean tr
    run_test-IsClean test w w' tr e pass_it = elim (Option-cases (configure test).plan) [
      | inl unplanned ↦ absurd (planned_only (configure test) w w' tr unplanned e pass_it)
      | inr ((steps, declared), planned) ↦
          let (in_order, gated, verdict) =
            execute_test-outcome h (configure test) w w' steps declared tr planned e in
          let same = run_test-test test w w' tr e in
          (
            steps,
            declared,
            ap (λ t. (configure t).plan) same ∙ planned,
            in_order,
            uncounted (any counts tr.step_results) tr.result verdict (passed-pass tr pass_it),
          )
    ]

    abbrev IfPassed : TestResult → Type 0
    IfPassed tr = passed tr ≡ true → IsClean tr

    passed_only :
        (trs : List TestResult) → Each IfPassed trs → all passed trs ≡ true → Each IsClean trs
    passed_only [] each e = tt
    passed_only (tr ∷ trs) each e =
        (each.0 (ground (arith, e)), passed_only trs each.1 (ground (arith, e)))

    all-IsClean :
        (crs : List CertificationResult)
        → Each (λ cr. Each IfPassed cr.test_results) crs
        → all (λ cr. all passed cr.test_results) crs ≡ true
        → Each (λ cr. Each IsClean cr.test_results) crs
    all-IsClean [] each e = tt
    all-IsClean (cr ∷ crs) each e = (
      passed_only cr.test_results each.0 (ground (arith, e)),
      all-IsClean crs each.1 (ground (arith, e)),
    )

    -- Over `execute_test`, with a configuration for each test: the program exits with 0 only if each
    -- prerequisite, and each selected test of each certification that a filter selects a test of, in
    -- order, has a plan, holds one result for each step of its plan, in order, and none of its setup
    -- and required steps failed.
    pub main_run-IsClean :
        (prereqs : List TestDefinition) (entries : List (CertificationDefinition × List String))
        (w w' : W)
        → main_run run_test prereqs entries w ≡ (ok 0, w')
        → (trs : List TestResult) × (crs : List CertificationResult) × (map (λ tr. tr.test) trs
            ≡ prereqs)
          × Each IsClean trs
          × (map (λ cr. cr.certification) crs ≡ certifications_of entries)
          × Each IsComplete crs
          × Each (λ cr. Each IsClean cr.test_results) crs
    main_run-IsClean prereqs entries w w' e =
        let (trs, w1, crs, first, second, tests, clean, order, complete, all_passed) =
          main_run-zero run_test run_test-test prereqs entries w w' e in
        let before =
          run_tests-Each run_test IfPassed run_test-IsClean [] prereqs w w1 trs tt first in
        let within =
          run_certifications-Each run_test IfPassed run_test-IsClean [] entries w1 w' crs tt
            second in
        (
          trs,
          crs,
          tests,
          passed_only trs before clean,
          order,
          complete,
          all-IsClean crs within all_passed,
        )
