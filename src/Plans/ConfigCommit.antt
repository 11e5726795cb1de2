-- ===== src/Plans/ConfigCommit.antt =====
-- c3_0_0_1/snphost_config_commit.py: the choice of the TCB component to lower, and the list that
-- `steps` builds around it.
use Prim.Native.String.{◌++◌}
use sev_certify.Prelude.{
  suc, String, ◌||◌, List, [], ◌∷◌, Option, none, some, Result, ok, err, ◌>>=◌, ℤ, pos, is_positive,
  str_eq, if◌then◌else◌,
}
use sev_certify.Prelude.Texts.{int, is_empty}
use sev_certify.Prelude.Dicts.{Dict, get}
use sev_certify.Prelude.Decimal.{show_ℤ}
use sev_certify.Models.Step.{BaseStep, StepError, setup, required, info}
use sev_certify.Models.Factory.{
  default_expected, default_timeout, for_host, for_guest, for_vm_launch, for_vm_stop,
  for_guest_pull, for_callable,
}
use sev_certify.Plans.Plan.{Entry, hinted, sequence}

-- KeyError, ValueError, RuntimeError, and what `__post_init__` raises.
pub data PlanError : Type 0 where
  no_field not_integer : String → PlanError
  nothing_to_lower : PlanError
  refused : StepError → PlanError

pub record TcbValues : Type 0 where
  pub bl : ℤ
  pub tee : ℤ
  pub snp : ℤ
  pub ucode : ℤ

-- `x - 1`, of a positive integer.
abbrev pub before : ℤ → ℤ
before (pos (suc n)) = pos n
before x = x

-- The first positive component, in the order bl, snp, tee, ucode, lowered by one.
unfoldable pub lower : TcbValues → Result PlanError TcbValues
lower t =
    if is_positive t.bl
    then ok (record t { bl = before t.bl })
    else if is_positive t.snp
    then ok (record t { snp = before t.snp })
    else if is_positive t.tee
    then ok (record t { tee = before t.tee })
    else if is_positive t.ucode
    then ok (record t { ucode = before t.ucode })
    else err nothing_to_lower

unfoldable pub int_field : Dict String → String → Result PlanError ℤ
unfolding int
int_field tcb name = elim (get name tcb) [
  | none ↦ err (no_field name)
  | some text ↦ elim (int text) [ none ↦ err (not_integer name) | some n ↦ ok n ]
]

unfoldable pub tcb_values : Dict String → Result PlanError TcbValues
unfolding int_field
tcb_values tcb = do
  bl ← int_field tcb "Boot Loader"
  tee ← int_field tcb "TEE"
  snp ← int_field tcb "SNP"
  ucode ← int_field tcb "Microcode"
  ok (record { bl = bl; tee = tee; snp = snp; ucode = ucode })

abbrev raw_fmc : Option String → String
raw_fmc none = ""
raw_fmc (some text) = text

unfoldable pub fmc_value : Dict String → Result PlanError (Option ℤ)
unfolding int
fmc_value tcb =
    let raw = raw_fmc (get "FMC" tcb) in
    if is_empty raw || str_eq raw "None"
    then ok none
    else elim (int raw) [ none ↦ err (not_integer "FMC") | some n ↦ ok (some n) ]

abbrev fmc_argument : Option ℤ → String
fmc_argument none = ""
fmc_argument (some n) = " " ++ show_ℤ n

unfoldable pub config_set : TcbValues → Option ℤ → ℤ → String
unfolding show_ℤ
config_set t fmc mask =
    "snphost config set "
    ++ (show_ℤ t.bl
        ++ (" "
            ++ (show_ℤ t.tee
                ++ (" "
                    ++ (show_ℤ t.snp
                        ++ (" "
                            ++ (show_ℤ t.ucode ++ (" " ++ (show_ℤ mask ++ fmc_argument fmc)))))))))

abbrev pub entries : (lower_command : String) → List Entry
entries lower_command =
    for_host "show-tcb" setup "snphost show tcb" default_expected default_timeout
    ∷ for_host "config-set-lower" required lower_command default_expected default_timeout
    ∷ for_callable "verify-differ after config-set-lower" required "verify_differ" default_expected
        (pos 30)
    ∷ hinted
        (for_vm_launch "Launch SEV-SNP guest" required default_expected (pos 300)
          "tcb-config-lowered-vm")
        "Address already in use"
        "A previous VM may still be running. Try: sudo kill $(pgrep -f 'qemu.*guest-cid')"
    ∷ for_guest "guest-report-after-lower" required
        "snpguest report report.bin request.bin --random" default_expected (pos 300)
    ∷ for_guest_pull "pull-report-after-lower" required "report.bin" "report.bin" default_expected
        (pos 120)
    ∷ for_callable "verify-guest-report-lowered" required "verify_guest_report_lowered"
        default_expected (pos 30)
    ∷ hinted
        (for_callable "verify-lowered-report-signature" required "verify_lowered_report_signature"
          default_expected (pos 270))
        "429" "Rate limited by KDS, re-run in a minute"
    ∷ for_host "config-reset" required "snphost config reset" default_expected default_timeout
    ∷ for_callable "verify-match after config-reset" required "verify_match" default_expected
        (pos 30)
    ∷ for_guest "guest-report-after-reset" required
        "snpguest report report_after_reset.bin request_after_reset.bin --random" default_expected
        (pos 300)
    ∷ for_guest_pull "pull-report-after-reset" required "report_after_reset.bin"
        "report_after_reset.bin" default_expected (pos 120)
    ∷ for_callable "verify-guest-report-restored" required "verify_guest_report_restored"
        default_expected (pos 30)
    ∷ for_vm_stop "Stop VM" info default_expected (pos 60)
    ∷ for_host "teardown-config-reset" info "snphost config reset" default_expected default_timeout
    ∷ for_callable "verify-committed-equals-current" setup "verify_committed_equals_current"
        default_expected (pos 30)
    ∷ for_callable "commit-current-tcb" required "commit_current_tcb" default_expected (pos 60)
    ∷ []

abbrev refuse : {A : Type 0} → Result StepError A → Result PlanError A
refuse (ok a) = ok a
refuse (err e) = err (refused e)

-- `steps`, from the platform's TCB on.
unfoldable pub config_commit_steps : Dict String → Result PlanError (List BaseStep)
unfolding tcb_values fmc_value lower config_set sequence
config_commit_steps tcb = do
  values ← tcb_values tcb
  fmc ← fmc_value tcb
  lowered ← lower values
  refuse (sequence (entries (config_set lowered fmc (pos 0))))
