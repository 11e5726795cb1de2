-- ===== src/Models/Definitions.antt =====
-- models.py: `TestDefinition`, `CertificationDefinition` and the result records.
use sev_certify.Prelude.{
  ℕ, String, Bool, true, false, ◌&&◌, not, List, [], ◌∷◌, ◌++◌, Option, none, some, Result, ok, err,
  ◌>>◌, if◌then◌else◌, ℤ, str_eq, any,
}
use sev_certify.Prelude.Texts.{is_empty}
use sev_certify.Models.Step.{BaseStep}

pub data Scope : Type 0 where
  host guest mixed : Scope
  other_scope : String → Scope

pub record TestDefinition : Type 0 where
  pub name : String
  pub module_path : String
  pub scope : Scope
  pub description : String
  pub level : String
  pub host_changes : Bool

pub data DefinitionError : Type 0 where
  empty_test_name empty_module empty_version : DefinitionError
  invalid_scope : String → DefinitionError
  unknown_cap : String → DefinitionError

abbrev check_scope : Scope → Result DefinitionError (Unit {0})
check_scope (other_scope s) = err (invalid_scope s)
check_scope _ = ok tt

abbrev require : Bool → DefinitionError → Result DefinitionError (Unit {0})
require true e = ok tt
require false e = err e

unfoldable pub test_post_init : TestDefinition → Result DefinitionError TestDefinition
test_post_init t = do
  require (not (is_empty t.name)) empty_test_name
  require (not (is_empty t.module_path)) empty_module
  check_scope t.scope
  ok t

unfoldable pub requires_vm : TestDefinition → Bool
requires_vm t = elim t.scope [ guest ↦ true | mixed ↦ true | _ ↦ false ]

pub record CertificationDefinition : Type 0 where
  pub version : String
  pub description : String
  pub tests : List TestDefinition
  pub all_levels : List String
  pub max_certification_level : Option String

abbrev pub member : String → List String → Bool
member k xs = any (λ x. str_eq x k) xs

-- The loop over the tests: `seen` and `all_levels` hold the same levels, kept here in one list.
unfoldable pub collect_levels : List String → List TestDefinition → List String
collect_levels seen [] = seen
collect_levels seen (t ∷ ts) =
    collect_levels
      (if not (is_empty t.level) && not (member t.level seen) then seen ++ t.level ∷ [] else seen)
      ts

abbrev is_nil {ℓ} : {A : Type ℓ} → List A → Bool
is_nil [] = true
is_nil (x ∷ xs) = false

abbrev check_cap : List String → Option String → Result DefinitionError (Unit {0})
check_cap levels none = ok tt
check_cap levels (some cap) =
    if not (is_nil levels) && not (member cap levels) then err (unknown_cap cap) else ok tt

unfoldable pub certification_post_init :
    CertificationDefinition → Result DefinitionError CertificationDefinition
unfolding collect_levels
certification_post_init c = do
  require (not (is_empty c.version)) empty_version
  let levels =
      if is_nil c.all_levels && not (is_nil c.tests)
      then collect_levels [] c.tests
      else c.all_levels
  check_cap levels c.max_certification_level
  ok (record c { all_levels = levels })

-- The states of a step and of a test.
pub data Status : Type 0 where
  pass fail error skip : Status

pub record StepResult : Type 0 where
  pub step : BaseStep
  pub result : Status
  pub exit_code : Option ℤ
  pub stdout : Option String
  pub stderr : Option String
  pub duration_ms : Option ℕ
  pub command : Option String

pub record StepHandlerResult : Type 0 where
  pub exit_code : ℤ
  pub stdout : String
  pub stderr : String
  pub command : Option String

-- `started_at` and `completed_at` are left out.
pub record TestResult : Type 0 where
  pub test : TestDefinition
  pub result : Status
  pub step_results : List StepResult

pub record CertificationResult : Type 0 where
  pub certification : CertificationDefinition
  pub result : Status
  pub test_results : List TestResult
