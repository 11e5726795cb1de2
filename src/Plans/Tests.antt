-- ===== src/Plans/Tests.antt =====
-- The theorems on the commit test for a Turin processor whose boot loader is at 0.
use sev_certify.Prelude.{
  ◌≡◌, refl, String, false, List, [], ◌∷◌, some, ok, err, pos, is_positive, ◌⊎◌, Each,
}
use sev_certify.Prelude.Dicts.{Dict}
use sev_certify.Prelude.Texts.{int}
use sev_certify.Models.Step.{BaseStep}
use sev_certify.Plans.ConfigCommit.{
  TcbValues, tcb_values, fmc_value, int_field, lower, nothing_to_lower, config_commit_steps,
}
use sev_certify.Plans.ConfigCommitLaws.{
  Component, boot_loader, tee, snp, microcode, component, LowersAt, lower-LowersAt,
}
use sev_certify.Plans.CommitOrder.{IsGuarded, config_commit_steps-IsGuarded}

abbrev tcb : Dict String
tcb = ("FMC", "1") ∷ ("Boot Loader", "0") ∷ ("TEE", "1") ∷ ("SNP", "2") ∷ ("Microcode", "72") ∷ []

abbrev values : TcbValues
values = record { bl = pos 0; tee = pos 1; snp = pos 2; ucode = pos 72 }

abbrev lowered : TcbValues
lowered = record { bl = pos 0; tee = pos 1; snp = pos 1; ucode = pos 72 }

read_values : tcb_values tcb ≡ ok values
unfolding tcb_values int_field int
read_values = refl

read_fmc : fmc_value tcb ≡ ok (some (pos 1))
unfolding fmc_value int
read_fmc = refl

chosen : lower values ≡ ok lowered
unfolding lower
chosen = refl

lower-LowersAt_example :
    ((low : TcbValues) × (c : Component) × (lower values ≡ ok low) × LowersAt c values low)
    ⊎ ((lower values ≡ err nothing_to_lower)
        × Each
            (λ c. is_positive (component c values) ≡ false)
            (boot_loader ∷ snp ∷ tee ∷ microcode ∷ []))
lower-LowersAt_example = lower-LowersAt values

config_commit_steps-IsGuarded_example :
    (steps : List BaseStep) × (config_commit_steps tcb ≡ ok steps) × IsGuarded steps
config_commit_steps-IsGuarded_example =
    config_commit_steps-IsGuarded tcb values lowered (some (pos 1)) read_values read_fmc chosen
