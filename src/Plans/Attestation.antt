-- ===== src/Plans/Attestation.antt =====
-- c3_0_0_0/attestation_test.py: the list that `steps` builds.
use sev_certify.Prelude.{List, [], ◌∷◌, Result, pos}
use sev_certify.Models.Step.{BaseStep, StepError, setup, required, info}
use sev_certify.Models.Factory.{
  default_expected, for_host, for_guest, for_vm_launch, for_vm_stop, for_guest_pull, for_callable,
}
use sev_certify.Plans.Plan.{Entry, hinted, sequence}

abbrev entries : List Entry
entries =
    for_callable "Calculate measurement" setup "calculate_measurement" default_expected (pos 60)
    ∷ hinted
        (for_vm_launch "Launch SEV-SNP guest" setup default_expected (pos 300)
          "regular-guest-attestation-test-vm")
        "Address already in use"
        "A previous VM may still be running. Try: sudo kill $(pgrep -f 'qemu.*guest-cid')"
    ∷ for_guest "Get attestation report with snpguest" required
        "snpguest report report.bin request.bin --random" default_expected (pos 300)
    ∷ for_guest_pull "Pull report from guest" required "report.bin" "report.bin" default_expected
        (pos 120)
    ∷ for_guest_pull "Pull request file from guest" required "request.bin" "request.bin"
        default_expected (pos 120)
    ∷ for_host "Fetch certificate chain from kds" setup
        "snpguest fetch ca pem \"$SEV_VERIFY_ARTIFACT_DIR\" -r \"$SEV_VERIFY_ARTIFACT_DIR/report.bin\""
        default_expected (pos 60)
    ∷ hinted
        (for_host "Fetch VCEK from kds" setup
          "snpguest fetch vcek pem \"$SEV_VERIFY_ARTIFACT_DIR\" \"$SEV_VERIFY_ARTIFACT_DIR/report.bin\""
          default_expected (pos 60))
        "429" "Rate limited by KDS, re-run in a minute"
    ∷ for_host "Verify certificate chain" required
        "snpguest verify certs \"$SEV_VERIFY_ARTIFACT_DIR\"" default_expected (pos 60)
    ∷ for_host "Verify report signature and TCB values" required
        "snpguest verify attestation \"$SEV_VERIFY_ARTIFACT_DIR\" \"$SEV_VERIFY_ARTIFACT_DIR/report.bin\""
        default_expected (pos 60)
    ∷ for_callable "Verify Request data and Measurement" required "verify_report_fields"
        default_expected (pos 30)
    ∷ for_vm_stop "Stop VM" info default_expected (pos 60)
    ∷ []

unfoldable pub attestation_steps : Result StepError (List BaseStep)
unfolding sequence
attestation_steps = sequence entries
