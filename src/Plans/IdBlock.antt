-- ===== src/Plans/IdBlock.antt =====
-- c3_0_0_1/id_block_test.py: the list that `steps` builds.
use sev_certify.Prelude.{Bool, List, [], ◌∷◌, ◌++◌, Result, pos, if◌then◌else◌}
use sev_certify.Models.Step.{BaseStep, StepError, setup, required, info}
use sev_certify.Models.Factory.{
  default_expected, for_guest, for_vm_launch, for_vm_stop, for_guest_pull, for_callable,
}
use sev_certify.Plans.Plan.{Entry, hinted, sequence}

abbrev first : List Entry
first =
    for_callable "Calculate measurement" setup "calculate_measurement" default_expected (pos 60)
    ∷ for_callable "Generate ID block" setup "generate_id_block" default_expected (pos 30)
    ∷ hinted
        (for_vm_launch "Launch with valid ID block" setup default_expected (pos 300)
          "positive-valid-id-block-vm")
        "Address already in use"
        "A previous VM may still be running. Try: sudo kill $(pgrep -f 'qemu.*guest-cid')"
    ∷ for_guest "Get attestation report" required "snpguest report report.bin request.bin --random"
        default_expected (pos 60)
    ∷ for_guest_pull "Pull attestation report" required "report.bin" "report.bin" default_expected
        (pos 120)
    ∷ for_vm_stop "Stop VM" info default_expected (pos 60)
    ∷ for_callable "Verify ID block fields in report" required "verify_id_block_fields"
        default_expected (pos 30)
    ∷ for_callable "Set bad measurement in ID block" required "set_bad_measurement" default_expected
        (pos 30)
    ∷ for_vm_launch "Launch with bad measurement (expect rejection)" required
        "stdout_contains:Bad measurement" (pos 300) "negative-bad-measurement-vm"
    ∷ for_vm_stop "Stop VM (after bad measurement)" info default_expected (pos 60)
    ∷ []

abbrev smt_case : List Entry
smt_case =
    for_callable "Set incompatible policy (SMT)" required "set_incompatible_policy" default_expected
      (pos 30)
    ∷ for_vm_launch "Launch with SMT-incompatible policy (expect rejection)" required
        "stdout_contains:SNP_LAUNCH_START" (pos 300) "negative-smt-policy-vm"
    ∷ for_vm_stop "Stop VM (after SMT policy)" info default_expected (pos 60)
    ∷ []

abbrev smt_info : List Entry
smt_info =
    for_callable "SMT policy case not applicable" info "smt_case_not_applicable" default_expected
      (pos 10)
    ∷ []

abbrev last : List Entry
last =
    for_callable "Set impossible ABI version" required "set_bad_abi_version" default_expected
      (pos 30)
    ∷ for_vm_launch "Launch with impossible ABI version (expect rejection)" required
        "stdout_contains:Policy is not allowed" (pos 300) "negative-abi-version-vm"
    ∷ for_vm_stop "Stop VM (after ABI version)" info default_expected (pos 60)
    ∷ []

-- `smt_active` is what `_smt_status` read.
unfoldable pub id_block_steps : (smt_active : Bool) → Result StepError (List BaseStep)
unfolding sequence
id_block_steps smt_active =
    sequence (first ++ ((if smt_active then smt_case else smt_info) ++ last))
