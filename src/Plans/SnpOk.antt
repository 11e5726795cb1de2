-- ===== src/Plans/SnpOk.antt =====
-- common/snp_ok.py: the list that `steps` builds.
use sev_certify.Prelude.{List, [], ◌∷◌, Result}
use sev_certify.Models.Step.{BaseStep, StepError, required, info}
use sev_certify.Models.Factory.{default_expected, default_timeout, for_host, for_callable}
use sev_certify.Plans.Plan.{Entry, sequence}

abbrev entries : List Entry
entries =
    for_host "snphost ok" required "snphost ok" default_expected default_timeout
    ∷ for_host "snphost show guests" info "snphost show guests" default_expected default_timeout
    ∷ for_callable "verify OVMF" info "verify_ovmf" default_expected default_timeout
    ∷ []

unfoldable pub snp_ok_steps : Result StepError (List BaseStep)
unfolding sequence
snp_ok_steps = sequence entries
