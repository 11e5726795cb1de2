-- ===== src/IdBlock/Negative.antt =====
-- id_block_test.py: the ID blocks that the firmware must reject, and the state of SMT.
use Prim.Native.String.{◌++◌}
use sev_certify.Prelude.{
  ℕ, String, Bool, true, false, List, [], ◌∷◌, Option, none, some, Result, ok, err, and_then, pos,
  eq_ℤ, str_eq, if◌then◌else◌,
}
use sev_certify.Prelude.Texts.{strip}
use sev_certify.Prelude.Quoting.{shell_join}
use sev_certify.Prelude.Decimal.{show_ℕ, hex}
use sev_certify.Prelude.Bytes.{take_text}
use sev_certify.Prelude.Dicts.{Dict, get}
use sev_certify.Models.Definitions.{StepHandlerResult}
use sev_certify.Harness.World.{CompletedProcess}
use sev_certify.IdBlock.Metadata.{IdBlockMetadata, read_id_block_metadata}
use sev_certify.IdBlock.Measurement.{MeasurementError, flipped, incompatible_policy, bad_policy}
use sev_certify.IdBlock.Generate.{
  Bench, Bound, Ran, failure, success, run_here, with_keys, id_block_args, adopt, measurement_of,
}

abbrev pub smt_active_path : String
smt_active_path = "/sys/devices/system/cpu/smt/active"

abbrev pub smt_control_path : String
smt_control_path = "/sys/devices/system/cpu/smt/control"

abbrev smt_control_reasons : Dict String
smt_control_reasons =
    ("off", "SMT is disabled on this host")
    ∷ ("forceoff", "SMT is force-disabled and cannot be re-enabled without a reboot")
    ∷ ("notsupported", "this processor does not support SMT")
    ∷ ("notimplemented", "this architecture does not implement SMT runtime control")
    ∷ []

abbrev reads : Option String → String → Bool
reads none text = false
reads (some s) text = str_eq s text

abbrev text_or_empty : Option String → String
text_or_empty none = ""
text_or_empty (some s) = s

abbrev inactive_reason : (active control : Option String) → Option String → String
inactive_reason active control (some reason) = reason
inactive_reason none control none =
    smt_active_path ++ " is not present, so SMT state cannot be determined"
inactive_reason (some s) control none = "SMT is not active on this host"

-- `_smt_status`, of the stripped contents of the two files.
unfoldable pub smt_status : (active control : Option String) → Bool × String
smt_status active control =
    if reads active "1"
    then (true, "SMT is active on this host")
    else (false, inactive_reason active control (get (text_or_empty control) smt_control_reasons))

abbrev pub stripped : Option String → Option String
stripped none = none
stripped (some s) = some (strip s)

module _ {W : Type 0} (b : Bench W) where
  abbrev read_sysfs : String → W → Option String
  read_sysfs path w = stripped (b.read_text path w)

  abbrev pub smt_here : W → Bool × String
  smt_here w = smt_status (read_sysfs smt_active_path w) (read_sysfs smt_control_path w)

  abbrev pub regenerated :
      (artifact_dir : String)
      → (args : List String) → (policy : ℕ) → CompletedProcess
      → Bound W
      → Ran W
  regenerated artifact_dir args policy result s =
      if eq_ℤ result.returncode (pos 0)
      then adopt b (artifact_dir ++ "/neg-id-block.b64") (artifact_dir ++ "/neg-id-auth.b64") policy
          (success "" (some (shell_join args))) s
      else (
        ok (
            failure (pos 1) "" ("snpguest generate id-block failed:\n" ++ result.stderr)
              (some (shell_join args))),
        s,
      )

  abbrev pub regenerate_with :
      (artifact_dir measurement : String) → (policy : ℕ) → IdBlockMetadata → Bound W → Ran W
  regenerate_with artifact_dir measurement policy meta s =
      let (keys, s1) = with_keys b s in
      let args =
        id_block_args b keys measurement meta policy (artifact_dir ++ "/neg-id-block.b64")
          (artifact_dir ++ "/neg-id-auth.b64") in
      and_then (run_here b args s1) (regenerated artifact_dir args policy)

  unfoldable pub regenerate_id_block :
      (artifact_dir measurement : String) → (policy : ℕ) → Bound W → Ran W
  unfolding read_id_block_metadata show_ℕ hex strip
  regenerate_id_block artifact_dir measurement policy s = elim (read_id_block_metadata b.environ) [
    | err e ↦ (ok (failure (pos 1) "" (b.metadata_text e) none), s)
    | ok meta ↦ regenerate_with artifact_dir measurement policy meta s
  ]

  -- The result of the regeneration if it failed, and else the text.
  abbrev pub told : (stdout : String) → StepHandlerResult → StepHandlerResult
  told stdout hr = if eq_ℤ hr.exit_code (pos 0) then success stdout none else hr

  -- A measurement and the metadata, in this order, and what is done with them.
  abbrev pub with_both :
      Result MeasurementError String
      → (String → IdBlockMetadata → Bound W → Ran W)
      → Bound W
      → Ran W
  with_both (err e) next s = (ok (failure (pos 1) "" (b.measurement_text e) none), s)
  with_both (ok measurement) next s = elim (read_id_block_metadata b.environ) [
    | err e ↦ (ok (failure (pos 1) "" (b.metadata_text e) none), s)
    | ok meta ↦ next measurement meta s
  ]

  abbrev pub regenerate_and_tell :
      (artifact_dir : String)
      → (measurement : String) → (policy : ℕ) → (stdout : String) → Bound W
      → Ran W
  regenerate_and_tell artifact_dir measurement policy stdout s =
      and_then (regenerate_id_block artifact_dir ("0x" ++ measurement) policy s)
        λ hr s1. (ok (told stdout hr), s1)

  unfoldable pub set_bad_measurement : (artifact_dir : String) → Bound W → Ran W
  unfolding regenerate_id_block flipped
  set_bad_measurement artifact_dir s =
      with_both (measurement_of b artifact_dir s)
        (λ real meta. regenerate_and_tell artifact_dir (flipped real) meta.policy (
          "Set bad measurement: "
          ++ (take_text 16 (flipped real) ++ ("... (real: " ++ (take_text 16 real ++ "...)")))))
        s

  unfoldable pub smt_case_not_applicable : Bound W → Ran W
  unfolding smt_status
  smt_case_not_applicable s =
      (ok (success ("SMT policy rejection case not run: " ++ (smt_here s.world).1) none), s)

  unfoldable pub set_incompatible_policy : (artifact_dir : String) → Bound W → Ran W
  unfolding regenerate_id_block incompatible_policy smt_status
  set_incompatible_policy artifact_dir s =
      if (smt_here s.world).0
      then with_both (measurement_of b artifact_dir s)
          (λ measurement meta.
            regenerate_and_tell artifact_dir measurement (incompatible_policy meta.policy) (
              "Set incompatible policy "
              ++ (hex (incompatible_policy meta.policy) ++ " (SMT=0, host SMT active)")))
          s
      else (
        ok (
            failure (pos 1) "" ("Cannot test SMT policy incompatibility: " ++ (smt_here s.world).1)
              none),
        s,
      )

  unfoldable pub set_bad_abi_version : (artifact_dir : String) → Bound W → Ran W
  unfolding regenerate_id_block bad_policy
  set_bad_abi_version artifact_dir s =
      with_both (measurement_of b artifact_dir s)
        (λ measurement meta.
          regenerate_and_tell artifact_dir measurement (bad_policy meta.policy)
            ("Set policy " ++ (hex (bad_policy meta.policy) ++ " (ABI_MAJOR=255)")))
        s
