-- ===== src/Examples.antt =====
-- The theorems of the step model, the runner and the command line at inputs that meet their
-- hypotheses, and the runs that these inputs give.
use sev_certify.Prelude.{
  ℕ, suc, ◌≡◌, refl, ◌≢◌, ◌↔◌, String, Bool, true, false, ◌&&◌, not, List, [], ◌∷◌, some, ok, pos,
  map, any, all, Each, str_eq, if◌then◌else◌,
}
use sev_certify.Prelude.Texts.{partition, int, is_empty}
use sev_certify.Models.Step.{
  BaseStep, StepSeverity, setup, StepKind, host, post_init, check_kind,
  validate_expected_result_format,
}
use sev_certify.Models.Factory.{default_expected, default_timeout}
use sev_certify.Models.Validity.{IsValid, post_init-IsValid}
use sev_certify.Models.Definitions.{
  guest as guest_scope, TestDefinition, CertificationDefinition, certification_post_init,
  collect_levels, member, Status, pass, fail, error, TestResult, CertificationResult,
}
use sev_certify.Models.Levels.{IsDistinct, certification_post_init-levels}
use sev_certify.Runner.Expected.{check_expected_values, Meets, check_expected_values-Meets}
use sev_certify.Cli.Certified.{highest_certified_level}
use sev_certify.Cli.CertifiedLaws.{last?, passed_run, capped, highest_certified_level-passed_run}
use sev_certify.Cli.Certify.{
  Runner, run_tests, execute_certification, run_certifications, main_run, severity, fold_worse,
  worse_result,
}
use sev_certify.Cli.CertifyLaws.{
  worst, certifications_of, IsComplete, execute_certification-worst, main_run-zero,
}
use sev_certify.Cli.Certified.{passed}
use sev_certify.Cli.Select.{
  filter_tests, Disk, discover_manifests, manifest_path, keep, distinct_from, manifest_version,
}
use sev_certify.Cli.SelectLaws.{selected, discover_manifests-selected}

abbrev a_step : String → StepSeverity → StepKind → String → BaseStep
a_step name type kind command = record {
  name = name;
  type = type;
  kind = kind;
  expected_result = default_expected;
  timeout = default_timeout;
  command = command;
  handler = "";
  guest_src = "";
  host_dest = "";
  guest_id = "";
  hints = [];
}

abbrev show : BaseStep
show = a_step "show-tcb" setup host "snphost show tcb"

show_accepted : post_init show ≡ ok show
unfolding post_init check_kind validate_expected_result_format partition int
show_accepted = refl

post_init-IsValid_example : (post_init show ≡ ok show) ↔ ((show ≡ show) × IsValid show)
post_init-IsValid_example = post_init-IsValid show show

check_expected_values-Meets_example :
    (b : Bool) × (check_expected_values show (pos 1) "no" ≡ some b)
    × ((b ≡ true) ↔ Meets show (pos 1) "no")
check_expected_values-Meets_example = check_expected_values-Meets show (pos 1) "no" show_accepted

abbrev a_test : String → String → TestDefinition
a_test name level = record {
  name = name;
  module_path = "sev_verify.cert_tests";
  scope = guest_scope;
  description = "";
  level = level;
  host_changes = false;
}

abbrev a_cert : List TestDefinition → List String → CertificationDefinition
a_cert tests levels = record {
  version = "3.0";
  description = "";
  tests = tests;
  all_levels = levels;
  max_certification_level = some "3.0.0-1";
}

abbrev two_tests : List TestDefinition
two_tests = a_test "attestation" "3.0.0-0" ∷ a_test "id block" "3.0.0-1" ∷ []

abbrev two_levels : List String
two_levels = "3.0.0-0" ∷ "3.0.0-1" ∷ []

two_accepted : certification_post_init (a_cert two_tests []) ≡ ok (a_cert two_tests two_levels)
unfolding certification_post_init collect_levels
two_accepted = refl

certification_post_init-levels_example :
    IsDistinct two_levels
    × ((k : String)
        → member k two_levels ≡ (not (is_empty k) && any (λ t. str_eq t.level k) two_tests))
    × ((cap : String) → some "3.0.0-1" ≡ some cap → two_levels ≢ [] → member cap two_levels ≡ true)
    × (a_cert two_tests two_levels ≡ a_cert two_tests two_levels)
certification_post_init-levels_example =
    certification_post_init-levels (a_cert two_tests []) (a_cert two_tests two_levels) refl
      (λ e. cc) two_accepted

abbrev a_result : Status → TestDefinition → TestResult
a_result status test = record { test = test; result = status; step_results = [] }

-- The second level has not passed.
abbrev one_passed : CertificationResult
one_passed = record {
  certification = a_cert two_tests two_levels;
  result = fail;
  test_results =
      a_result pass (a_test "attestation" "3.0.0-0")
      ∷ a_result fail (a_test "id block" "3.0.0-1")
      ∷ [];
}

only_cap : (top : String) → some "3.0.0-1" ≡ some top → member top two_levels ≡ true
only_cap top e = let same : top ≡ "3.0.0-1" = cc e in rw same refl

highest_certified_level-passed_run_example :
    highest_certified_level one_passed
    ≡ some (last? (passed_run one_passed.test_results (capped (some "3.0.0-1") two_levels)))
highest_certified_level-passed_run_example =
    highest_certified_level-passed_run one_passed (refl, (refl, tt)) only_cap

-- Each test passes and adds one to the world; the second never does.
abbrev count_run : Runner (Unit {0}) ℕ
count_run test w = (ok (a_result (if str_eq test.name "id block" then error else pass) test), suc w)

abbrev two_results : List TestResult
two_results =
    a_result pass (a_test "attestation" "3.0.0-0")
    ∷ a_result error (a_test "id block" "3.0.0-1")
    ∷ []

abbrev two_ran : CertificationResult
two_ran = record {
  certification = a_cert two_tests two_levels;
  result = error;
  test_results = two_results;
}

execute_two : execute_certification count_run (a_cert two_tests two_levels) 0 ≡ (ok two_ran, 2)
unfolding execute_certification run_tests fold_worse worse_result
execute_two = refl

count_run-reports :
    (test : TestDefinition) (w w' : ℕ) (tr : TestResult)
    → count_run test w ≡ (ok tr, w')
    → tr.test ≡ test
count_run-reports test w w' tr e = cc e

execute_certification-worst_example :
    (map (λ tr. tr.test) two_results ≡ two_tests) × (severity error ≡ worst two_results)
execute_certification-worst_example =
    execute_certification-worst count_run count_run-reports (a_cert two_tests two_levels) 0 2
      two_ran execute_two

abbrev entries : List (CertificationDefinition × List String)
entries = (a_cert (a_test "attestation" "3.0.0-0" ∷ []) two_levels, []) ∷ []

main_zero : main_run count_run (a_test "SNP ok" "" ∷ []) entries 0 ≡ (ok 0, 2)
unfolding main_run run_tests run_certifications filter_tests fold_worse worse_result
main_zero = refl

main_run-zero_example :
    (trs : List TestResult) × (w1 : ℕ) × (crs : List CertificationResult) × (run_tests count_run []
        (a_test "SNP ok" "" ∷ [])
        0
      ≡ (ok trs, w1))
    × (run_certifications count_run [] entries w1 ≡ (ok crs, 2))
    × (map (λ tr. tr.test) trs ≡ a_test "SNP ok" "" ∷ [])
    × (all passed trs ≡ true)
    × (map (λ cr. cr.certification) crs ≡ certifications_of entries)
    × Each IsComplete crs
    × (all (λ cr. all passed cr.test_results) crs ≡ true)
main_run-zero_example =
    main_run-zero count_run count_run-reports (a_test "SNP ok" "" ∷ []) entries 0 2 main_zero

abbrev a_disk : Disk
a_disk = record {
  is_dir = λ path. true;
  exists = λ path. str_eq path "cert_tests/c3_0/manifest.toml";
  all_manifests = λ path. [];
}

-- A level of version 3.0, a whole version that has no manifest, and another level of 3.0.
abbrev filters : List String
filters = "3.0.0-0" ∷ "4.1" ∷ "3.0.1" ∷ []

discover_manifests-selected_example :
    discover_manifests a_disk "cert_tests" filters
    ≡ map
        (λ mv. (manifest_path "cert_tests" mv, selected mv filters))
        (keep
          (λ mv. a_disk.exists (manifest_path "cert_tests" mv))
          (distinct_from [] (map manifest_version filters)))
discover_manifests-selected_example =
    discover_manifests-selected a_disk "cert_tests" filters refl λ e. cc e
