-- ===== src/Cli/Certify.antt =====
-- cli.py: `_worse_result`, `execute_certification` and the order of work of `main`.
use sev_certify.Prelude.{
  ℕ, String, Bool, true, false, not, List, [], ◌∷◌, ◌++◌, Result, ok, if◌then◌else◌, ltb, any,
  and_then,
}
use sev_certify.Models.Definitions.{
  Status, pass, fail, error, skip, TestDefinition, TestResult, CertificationDefinition,
  CertificationResult,
}
use sev_certify.Cli.Certified.{passed}
use sev_certify.Cli.Select.{filter_tests, is_nil}

-- `_RESULT_SEVERITY`.
abbrev pub severity : Status → ℕ
severity pass = 0
severity skip = 1
severity fail = 2
severity error = 3

unfoldable pub worse_result : Status → Status → Status
worse_result current candidate =
    if ltb (severity current) (severity candidate) then candidate else current

-- The run of one test, `execute_test` with the arguments of the command line; it may raise.
abbrev pub Runner : Type 0 → Type 0 → Type 0
Runner E W = TestDefinition → W → Result E TestResult × W

module _ {E W : Type 0} (run : Runner E W) where
  -- Tests in order; an exception ends the loop.
  unfoldable pub run_tests :
      List TestResult → List TestDefinition → W → Result E (List TestResult) × W
  run_tests done [] w = (ok done, w)
  run_tests done (test ∷ tests) w =
      and_then (run test w) (λ tr w'. run_tests (done ++ tr ∷ []) tests w')

  unfoldable pub fold_worse : Status → List TestResult → Status
  unfolding worse_result
  fold_worse overall [] = overall
  fold_worse overall (tr ∷ trs) = fold_worse (worse_result overall tr.result) trs

  unfoldable pub execute_certification :
      CertificationDefinition → W → Result E CertificationResult × W
  unfolding run_tests fold_worse
  execute_certification cert w = and_then (run_tests [] cert.tests w) λ trs w'.
      (ok (record { certification = cert; result = fold_worse pass trs; test_results = trs }), w')

  -- The certifications of `main`, each loaded from its manifest, in order; one that no filter selects a test of is left out.
  unfoldable pub run_certifications :
      List CertificationResult
      → List (CertificationDefinition × List String)
      → W
      → Result E (List CertificationResult) × W
  unfolding execute_certification
  run_certifications done [] w = (ok done, w)
  run_certifications done ((cert, level_filters) ∷ entries) w =
      let selected = filter_tests cert level_filters in
      if is_nil selected.tests
      then run_certifications done entries w
      else and_then (execute_certification selected w)
          λ cr w'. run_certifications (done ++ cr ∷ []) entries w'

  abbrev pub certified : CertificationResult → Bool
  certified cr = elim cr.result [ pass ↦ true | _ ↦ false ]

  abbrev pub exit_code : List CertificationResult → ℕ
  exit_code crs = if any (λ cr. not (certified cr)) crs then 1 else 0

  -- `main` from the prerequisites on: they gate every certification. The result is the exit code.
  unfoldable pub main_run :
      List TestDefinition → List (CertificationDefinition × List String) → W → Result E ℕ × W
  unfolding run_tests run_certifications
  main_run prereqs entries w = and_then (run_tests [] prereqs w) λ trs w1.
      if any (λ tr. not (passed tr)) trs
      then (ok 1, w1)
      else and_then (run_certifications [] entries w1) λ crs w2. (ok (exit_code crs), w2)
