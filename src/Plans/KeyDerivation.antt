-- ===== src/Plans/KeyDerivation.antt =====
-- c3_0_0_1/key_derivation_test.py: the list that `steps` builds.
use sev_certify.Prelude.{List, [], ◌∷◌, Result, pos}
use sev_certify.Models.Step.{BaseStep, StepError, setup, required, info}
use sev_certify.Models.Factory.{
  default_expected, for_guest, for_vm_launch, for_vm_stop, for_guest_pull, for_callable,
}
use sev_certify.Plans.Plan.{Entry, hinted, sequence}

abbrev entries : List Entry
entries =
    for_callable "Calculate measurement" setup "calculate_measurement" default_expected (pos 60)
    ∷ for_callable "Generate ID block" setup "generate_id_block" default_expected (pos 30)
    ∷ hinted (for_vm_launch "Launch SEV-SNP guest" setup default_expected (pos 300) "")
        "Address already in use"
        "A previous VM may still be running. Try: sudo kill $(pgrep -f 'qemu.*guest-cid')"
    ∷ for_guest "Get attestation report" setup "snpguest report report.bin request.bin --random"
        default_expected (pos 60)
    ∷ for_guest_pull "Pull attestation report" setup "report.bin" "report.bin" default_expected
        (pos 30)
    ∷ for_callable "Parse attestation report" required "parse_report" default_expected (pos 30)
    ∷ for_callable "Detect running VMPL" setup "detect_vmpl" default_expected (pos 60)
    ∷ for_callable "Test determinism" required "test_determinism" default_expected (pos 60)
    ∷ for_callable "Test VMPL isolation" required "test_vmpl_isolation" default_expected (pos 60)
    ∷ for_callable "Test root key difference" required "test_root_key_difference" default_expected
        (pos 60)
    ∷ for_callable "Test SVN bound enforcement and sensitivity" required "test_svn" default_expected
        (pos 120)
    ∷ for_callable "Test TCB bound enforcement and sensitivity" required "test_tcb" default_expected
        (pos 120)
    ∷ for_callable "Test GFS sensitivity" required "test_gfs" default_expected (pos 60)
    ∷ for_callable "Test GFS field mixing" required "test_gfs_field_mixing" default_expected
        (pos 60)
    ∷ for_callable "Save reference key from CVM 1" required "save_cross_cvm_key" default_expected
        (pos 30)
    ∷ for_vm_stop "Stop CVM 1" info default_expected (pos 60)
    ∷ hinted (for_vm_launch "Launch CVM 2" setup default_expected (pos 300) "")
        "Address already in use"
        "A previous VM may still be running. Try: sudo kill $(pgrep -f 'qemu.*guest-cid')"
    ∷ for_callable "Verify key matches across CVMs" required "verify_cross_cvm_key" default_expected
        (pos 30)
    ∷ for_vm_stop "Stop CVM 2" info default_expected (pos 60)
    ∷ []

unfoldable pub key_derivation_steps : Result StepError (List BaseStep)
unfolding sequence
key_derivation_steps = sequence entries
