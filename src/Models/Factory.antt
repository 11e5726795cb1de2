-- ===== src/Models/Factory.antt =====
-- models.py: the factory `Step`. Each method builds a `BaseStep`, whose `__post_init__` checks it.
use sev_certify.Prelude.{String, [], Result, ℤ, pos}
use sev_certify.Models.Step.{
  StepSeverity, StepKind, vm_launch, vm_stop, host, guest, guest_pull, callable, BaseStep,
  StepError, post_init,
}

pub record Step : Type 0 where
  pub name : String
  pub type : StepSeverity
  pub expected_result : String
  pub timeout : ℤ

-- `BaseStep(kind=kind, **self._common())`, with the other fields at their defaults.
abbrev pub common : Step → StepKind → BaseStep
common s kind = record {
  name = s.name;
  type = s.type;
  kind = kind;
  expected_result = s.expected_result;
  timeout = s.timeout;
  command = "";
  handler = "";
  guest_src = "";
  host_dest = "";
  guest_id = "";
  hints = [];
}

unfoldable pub host_step : Step → String → Result StepError BaseStep
unfolding post_init
host_step s command = post_init (record (common s host) { command = command })

unfoldable pub guest_step : Step → String → Result StepError BaseStep
unfolding post_init
guest_step s command = post_init (record (common s guest) { command = command })

unfoldable pub vm_launch_step : Step → String → Result StepError BaseStep
unfolding post_init
vm_launch_step s guest_id = post_init (record (common s vm_launch) { guest_id = guest_id })

unfoldable pub vm_stop_step : Step → Result StepError BaseStep
unfolding post_init
vm_stop_step s = post_init (common s vm_stop)

unfoldable pub guest_pull_step : Step → String → String → Result StepError BaseStep
unfolding post_init
guest_pull_step s guest_src host_dest =
    post_init (record (common s guest_pull) { guest_src = guest_src; host_dest = host_dest })

unfoldable pub call_step : Step → String → Result StepError BaseStep
unfolding post_init
call_step s handler = post_init (record (common s callable) { handler = handler })

-- The defaults of the keyword arguments.
abbrev pub default_expected : String
default_expected = "exit_code:0"

abbrev pub default_timeout : ℤ
default_timeout = pos 10

abbrev step_of : String → StepSeverity → String → ℤ → Step
step_of name type expected timeout = record {
  name = name;
  type = type;
  expected_result = expected;
  timeout = timeout;
}

module _ (name : String) (type : StepSeverity) where
  unfoldable pub for_host : String → String → ℤ → Result StepError BaseStep
  unfolding host_step
  for_host command expected timeout = host_step (step_of name type expected timeout) command

  unfoldable pub for_guest : String → String → ℤ → Result StepError BaseStep
  unfolding guest_step
  for_guest command expected timeout = guest_step (step_of name type expected timeout) command

  unfoldable pub for_vm_launch : String → ℤ → String → Result StepError BaseStep
  unfolding vm_launch_step
  for_vm_launch expected timeout guest_id =
      vm_launch_step (step_of name type expected timeout) guest_id

  unfoldable pub for_vm_stop : String → ℤ → Result StepError BaseStep
  unfolding vm_stop_step
  for_vm_stop expected timeout = vm_stop_step (step_of name type expected timeout)

  unfoldable pub for_guest_pull : String → String → String → ℤ → Result StepError BaseStep
  unfolding guest_pull_step
  for_guest_pull guest_src host_dest expected timeout =
      guest_pull_step (step_of name type expected timeout) guest_src host_dest

  unfoldable pub for_callable : String → String → ℤ → Result StepError BaseStep
  unfolding call_step
  for_callable handler expected timeout = call_step (step_of name type expected timeout) handler
