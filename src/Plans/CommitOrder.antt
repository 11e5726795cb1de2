-- ===== src/Plans/CommitOrder.antt =====
-- The order of the steps of the commit test: what precedes a step whose failure skips the rest, and
-- what precedes the commit.
use Prim.Native.Char.{Char}
use text.Mathlib.TextLemmas.{cons-append}
use sev_certify.Prelude.{
  String, Bool, true, false, ◌&&◌, ◌||◌, not, List, [], ◌∷◌, ok, pos, Option, str_eq, if◌then◌else◌,
  ◌≡◌, refl, ap, ◌∙◌, arith, ℤ,
}
use sev_certify.Prelude.Texts.{int, partition}
use sev_certify.Prelude.Dicts.{Dict}
use sev_certify.Models.Step.{
  BaseStep, setup, vm_launch, vm_stop, add_hint, check_kind, validate_expected_result_format,
}
use sev_certify.Models.Factory.{
  for_host, for_guest, for_vm_launch, for_vm_stop, for_guest_pull, for_callable,
}
use sev_certify.Plans.Plan.{sequence, is_paired}
use sev_certify.Plans.ConfigCommit.{
  TcbValues, lower, tcb_values, fmc_value, config_set, entries, config_commit_steps,
}

abbrev is_setup : BaseStep → Bool
is_setup step = elim step.type [ setup ↦ true | _ ↦ false ]

abbrev lowered_after : Bool → BaseStep → Bool
lowered_after lowered step =
    if str_eq step.name "config-set-lower"
    then true
    else if str_eq step.command "snphost config reset"
    then false
    else lowered

abbrev running_after : Bool → BaseStep → Bool
running_after running step = elim step.kind [ vm_launch ↦ true | vm_stop ↦ false | _ ↦ running ]

abbrev is_gate : BaseStep → Bool
is_gate step = is_setup step && str_eq step.handler "verify_committed_equals_current"

-- At every setup step and at the end, the TCB is not lowered and no guest runs, so that nothing is
-- left to undo where a failed setup step skips the rest; and the commit comes after the gate.
abbrev pub is_guarded : (lowered running gated : Bool) → List BaseStep → Bool
is_guarded lowered running gated [] = not lowered && not running
is_guarded lowered running gated (step ∷ steps) =
    (not (is_setup step) || (not lowered && not running))
    && (not (str_eq step.handler "commit_current_tcb") || gated)
    && is_guarded (lowered_after lowered step) (running_after running step) (gated || is_gate step)
        steps

abbrev pub IsGuarded : List BaseStep → Type 0
IsGuarded steps = (is_paired false steps ≡ true) × (is_guarded false false false steps ≡ true)

entries-IsGuarded :
    (c : Char) (s : String)
    → (steps : List BaseStep) × (sequence (entries (String.◌∷◌ c s)) ≡ ok steps) × IsGuarded steps
unfolding sequence for_host for_guest for_vm_launch for_vm_stop for_guest_pull for_callable
    check_kind validate_expected_result_format partition int add_hint
entries-IsGuarded c s = (_, refl, (refl, refl))

config_set-cons :
    (t : TcbValues) (fmc : Option ℤ) (mask : ℤ)
    → (s : String) × (config_set t fmc mask ≡ String.◌∷◌ "s" s)
unfolding config_set
config_set-cons t fmc mask = (_, cons-append "s" "nphost config set " _)

-- For every platform TCB whose values are integers and one of which can be lowered: the list is built
-- without an error, its launches and stops are paired, at each of its setup steps and at its end the
-- TCB has been reset and no guest runs, and the commit comes after the gate.
pub config_commit_steps-IsGuarded :
    (tcb : Dict String) (values lowered : TcbValues) (fmc : Option ℤ)
    → tcb_values tcb ≡ ok values
    → fmc_value tcb ≡ ok fmc
    → lower values ≡ ok lowered
    → (steps : List BaseStep) × (config_commit_steps tcb ≡ ok steps) × IsGuarded steps
unfolding config_commit_steps
config_commit_steps-IsGuarded tcb values lowered fmc read_values read_fmc chosen =
    let (s, command) = config_set-cons lowered fmc (pos 0) in
    let (steps, built, guarded) = entries-IsGuarded "s" s in
    let built_here : sequence (entries (config_set lowered fmc (pos 0))) ≡ ok steps =
      ap (λ text. sequence (entries text)) command ∙ built in
    (steps, ground (arith, read_values, read_fmc, chosen, built_here), guarded)
