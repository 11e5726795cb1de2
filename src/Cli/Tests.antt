-- ===== src/Cli/Tests.antt =====
-- A run of the program over `execute_test` that ends with 0.
use sev_certify.Prelude.{◌≡◌, refl, String, false, List, [], ◌∷◌, none, some, ok, map, Each}
use sev_certify.Prelude.Texts.{partition, int}
use sev_certify.Models.Step.{BaseStep, required, host}
use sev_certify.Models.Definitions.{
  guest as guest_scope, TestDefinition, CertificationDefinition, TestResult, CertificationResult,
  requires_vm,
}
use sev_certify.Runner.Expected.{check_expected_values}
use sev_certify.Harness.Loop.{Config, exec_host}
use sev_certify.Harness.Run.{execute_test}
use sev_certify.Harness.Steps.{run_step}
use sev_certify.Harness.Tests.{a_step, counting, config}
use sev_certify.Cli.Select.{filter_tests}
use sev_certify.Cli.Certify.{main_run, run_tests, run_certifications, fold_worse, worse_result}
use sev_certify.Cli.CertifyLaws.{certifications_of, IsComplete}
use sev_certify.Cli.ProgramLaws.{run_test, IsClean, main_run-IsClean}

abbrev one_step : List BaseStep
one_step = a_step "Show the TCB" required host "snphost show tcb" ∷ []

abbrev configure : TestDefinition → Config
configure test = record config { test = test; plan = some (one_step, none) }

configured : (test : TestDefinition) → (configure test).test ≡ test
configured test = refl

abbrev a_test : String → TestDefinition
a_test name = record {
  name = name;
  module_path = "sev_verify.cert_tests";
  scope = guest_scope;
  description = "";
  level = "3.0.0-0";
  host_changes = false;
}

abbrev entries : List (CertificationDefinition × List String)
entries =
    (
      record {
        version = "3.0";
        description = "";
        tests = a_test "attestation" ∷ [];
        all_levels = "3.0.0-0" ∷ [];
        max_certification_level = none;
      },
      [],
    )
    ∷ []

main_zero :
    main_run (run_test counting configure configured) (a_test "SNP ok" ∷ []) entries 0 ≡ (ok 0, 2)
unfolding main_run run_tests run_certifications filter_tests fold_worse worse_result execute_test
    requires_vm exec_host run_step check_expected_values partition int
main_zero = refl

main_run-IsClean_example :
    (trs : List TestResult) × (crs : List CertificationResult) × (map (λ tr. tr.test) trs
      ≡ a_test "SNP ok" ∷ [])
    × Each (IsClean counting configure configured) trs
    × (map (λ cr. cr.certification) crs ≡ certifications_of entries)
    × Each IsComplete crs
    × Each (λ cr. Each (IsClean counting configure configured) cr.test_results) crs
main_run-IsClean_example =
    main_run-IsClean counting configure configured (a_test "SNP ok" ∷ []) entries 0 2 main_zero
