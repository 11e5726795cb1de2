-- ===== src/Plans/Plan.antt =====
-- A test's plan: the list that its `steps` builds, whose entries `__post_init__` checks one by one.
use sev_certify.Prelude.{String, Bool, true, false, ◌&&◌, not, List, [], ◌∷◌, Result, ok, err}
use sev_certify.Models.Step.{BaseStep, StepError, vm_launch, vm_stop, guest, guest_pull, add_hint}

abbrev pub Entry : Type 0
Entry = Result StepError BaseStep

abbrev pub hinted : Entry → String → String → Entry
hinted (ok step) pattern message = ok (add_hint step pattern message)
hinted (err e) pattern message = err e

-- The list display: the first entry that raises ends it.
unfoldable pub sequence : List Entry → Result StepError (List BaseStep)
sequence [] = ok []
sequence (err e ∷ entries) = err e
sequence (ok step ∷ entries) = elim (sequence entries) [
  | ok steps ↦ ok (step ∷ steps)
  | err e ↦ err e
]

-- Whether every launch finds no guest, every stop and every guest step finds one, and none is left.
abbrev pub is_paired : (running : Bool) → List BaseStep → Bool
is_paired running [] = not running
is_paired running (step ∷ steps) = elim step.kind [
  | vm_launch ↦ not running && is_paired true steps
  | vm_stop ↦ running && is_paired false steps
  | guest ↦ running && is_paired running steps
  | guest_pull ↦ running && is_paired running steps
  | _ ↦ is_paired running steps
]
