-- ===== src/Models/Step.antt =====
-- models.py: `BaseStep` with the checks of `__post_init__`, and the factory `Step`.
use sev_certify.Prelude.{
  String, Bool, true, false, ◌||◌, not, List, [], ◌∷◌, ◌++◌, none, some, Result, ok, err, ◌>>◌,
  if◌then◌else◌, ℤ, is_positive, str_eq,
}
use sev_certify.Prelude.Texts.{is_empty, partition, int}

-- The members of `StepSeverity` and `StepKind`, and any other string that a caller passes.
pub data StepSeverity : Type 0 where
  setup required info : StepSeverity
  other_severity : String → StepSeverity

pub data StepKind : Type 0 where
  vm_launch vm_stop host guest guest_pull callable : StepKind
  other_kind : String → StepKind

pub record BaseStep : Type 0 where
  pub name : String
  pub type : StepSeverity
  pub kind : StepKind
  pub expected_result : String
  pub timeout : ℤ
  pub command : String
  pub handler : String
  pub guest_src : String
  pub host_dest : String
  pub guest_id : String
  pub hints : List (String × String)

-- The ValueErrors, one for each `raise`.
pub data StepError : Type 0 where
  empty_name : StepError
  invalid_type : StepSeverity → StepError
  invalid_kind : StepKind → StepError
  timeout_not_positive : ℤ → StepError
  command_not_empty paths_set handler_set guest_id_set : StepKind → StepError
  command_required only_command : StepKind → StepError
  guest_src_required host_dest_required only_paths : StepError
  handler_required only_handler : StepError
  invalid_expected_result : String → StepError
  exit_code_not_integer : String → StepError

abbrev pub set : String → Bool
set s = not (is_empty s)

abbrev require : Bool → StepError → Result StepError (Unit {0})
require true e = ok tt
require false e = err e

unfoldable pub validate_expected_result_format : String → Result StepError (Unit {0})
validate_expected_result_format expected =
    let (result_kind, sep, value) = partition b':' expected in
    if not (str_eq result_kind "exit_code" || str_eq result_kind "stdout_contains") || not sep
    then err (invalid_expected_result expected)
    else if str_eq result_kind "exit_code"
    then elim (int value) [ none ↦ err (exit_code_not_integer value) | some n ↦ ok tt ]
    else ok tt

abbrev pub known_severity : StepSeverity → Bool
known_severity (other_severity s) = false
known_severity _ = true

abbrev pub known_kind : StepKind → Bool
known_kind (other_kind s) = false
known_kind _ = true

-- The branches on `self.kind`. The last clause is the `elif` ladder without an `else`.
unfoldable pub check_kind : StepKind → BaseStep → Result StepError (Unit {0})
check_kind vm_launch s = do
  require (is_empty s.command) (command_not_empty vm_launch)
  require (not (set s.guest_src || set s.host_dest)) (paths_set vm_launch)
  require (is_empty s.handler) (handler_set vm_launch)
check_kind vm_stop s = do
  require (is_empty s.command) (command_not_empty vm_stop)
  require (not (set s.guest_src || set s.host_dest)) (paths_set vm_stop)
  require (is_empty s.handler) (handler_set vm_stop)
  require (is_empty s.guest_id) (guest_id_set vm_stop)
check_kind host s = do
  require (set s.command) (command_required host)
  require (not (set s.guest_src || set s.host_dest || set s.handler || set s.guest_id))
      (only_command host)
check_kind guest s = do
  require (set s.command) (command_required guest)
  require (not (set s.guest_src || set s.host_dest || set s.handler || set s.guest_id))
      (only_command guest)
check_kind guest_pull s = do
  require (set s.guest_src) guest_src_required
  require (set s.host_dest) host_dest_required
  require (not (set s.command || set s.handler || set s.guest_id)) only_paths
check_kind callable s = do
  require (set s.handler) handler_required
  require (not (set s.command || set s.guest_src || set s.host_dest || set s.guest_id)) only_handler
check_kind (other_kind k) s = ok tt

-- `__post_init__`: the step itself, or the ValueError.
unfoldable pub post_init : BaseStep → Result StepError BaseStep
post_init s = do
  require (set s.name) empty_name
  require (known_severity s.type) (invalid_type s.type)
  require (known_kind s.kind) (invalid_kind s.kind)
  require (is_positive s.timeout) (timeout_not_positive s.timeout)
  check_kind s.kind s
  validate_expected_result_format s.expected_result
  ok s

unfoldable pub add_hint : BaseStep → String → String → BaseStep
add_hint s pattern message = record s { hints = s.hints ++ (pattern, message) ∷ [] }
