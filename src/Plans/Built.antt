-- ===== src/Plans/Built.antt =====
-- The step lists of four test modules are built: the checks of the steps refuse none of them.
use sev_certify.Prelude.{◌≡◌, refl, Bool, true, false, List, Result, ok}
use sev_certify.Prelude.Texts.{partition, int}
use sev_certify.Models.Step.{
  BaseStep, StepError, add_hint, check_kind, validate_expected_result_format,
}
use sev_certify.Models.Factory.{
  for_host, for_guest, for_vm_launch, for_vm_stop, for_guest_pull, for_callable,
}
use sev_certify.Plans.SnpOk.{snp_ok_steps}
use sev_certify.Plans.Attestation.{attestation_steps}
use sev_certify.Plans.KeyDerivation.{key_derivation_steps}
use sev_certify.Plans.IdBlock.{id_block_steps}

-- The test modules whose lists take no TCB.
pub data TestModule : Type 0 where
  snp_ok attestation_test key_derivation_test id_block_test : TestModule

abbrev pub module_steps : TestModule → Bool → Result StepError (List BaseStep)
module_steps snp_ok smt_active = snp_ok_steps
module_steps attestation_test smt_active = attestation_steps
module_steps key_derivation_test smt_active = key_derivation_steps
module_steps id_block_test smt_active = id_block_steps smt_active

-- For these four test modules, and whether or not the host runs two threads on a core, the list of
-- steps is built without an error.
pub module_steps-built :
    (m : TestModule) (smt_active : Bool)
    → (steps : List BaseStep) × (module_steps m smt_active ≡ ok steps)
unfolding snp_ok_steps attestation_steps key_derivation_steps id_block_steps for_host for_guest
    for_vm_launch for_vm_stop for_guest_pull for_callable check_kind validate_expected_result_format
    partition int add_hint
module_steps-built snp_ok smt_active = (_, refl)
module_steps-built attestation_test smt_active = (_, refl)
module_steps-built key_derivation_test smt_active = (_, refl)
module_steps-built id_block_test true = (_, refl)
module_steps-built id_block_test false = (_, refl)
