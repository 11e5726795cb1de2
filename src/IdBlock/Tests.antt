-- ===== src/IdBlock/Tests.antt =====
-- The theorems on ID blocks in an environment without ID_BLOCK_* variables.
use sev_certify.Prelude.{
  ◌≡◌, ◌↔◌, refl, String, true, List, [], ◌∷◌, Option, some, none, ok, err, pos, replicate,
}
use sev_certify.Prelude.Texts.{strip, int}
use sev_certify.Harness.Profile.{default_profile}
use sev_certify.Models.Definitions.{StepHandlerResult}
use sev_certify.Report.Tcb.{ReportError}
use sev_certify.Report.Parse.{AttestationReport, ReportFile, file_bytes}
use sev_certify.IdBlock.Metadata.{
  IdBlockMetadata, read_id_block_metadata, read_id_field, read_int, ascii_bytes, int_any_base,
  digits_in,
}
use sev_certify.IdBlock.Measurement.{bad_policy, read_measurement, check_body}
use sev_certify.IdBlock.MeasurementLaws.{FlippedAs, flipped-bytes}
use sev_certify.IdBlock.Generate.{Bench, Bound, generate_id_block}
use sev_certify.IdBlock.Fields.{
  Wording, report_here, Carries, IsForeign, verify_id_block_fields, verify_id_block_fields-Carries,
}
use sev_certify.IdBlock.FrameLaws.{Frames, generate_id_block-Frames, negative-Frames}
use sev_certify.IdBlock.Negative.{set_bad_measurement, set_bad_abi_version}

abbrev digest_text : String
digest_text =
    "00112233445566778899aabbccddeeff00112233445566778899aabbccddeeff00112233445566778899aabbccddeeff"

measurement_read :
    read_measurement (
      some
        "0x00112233445566778899aabbccddeeff00112233445566778899aabbccddeeff00112233445566778899aabbccddeeff\n")
    ≡ ok digest_text
unfolding read_measurement check_body strip
measurement_read = refl

flipped-bytes_example : FlippedAs digest_text
flipped-bytes_example =
    flipped-bytes
      (some
        "0x00112233445566778899aabbccddeeff00112233445566778899aabbccddeeff00112233445566778899aabbccddeeff\n")
      digest_text measurement_read

abbrev defaults : IdBlockMetadata
defaults = record {
  family_id = "sev-certify-fam0";
  image_id = "sev-certify-img0";
  guest_svn = 48;
  policy = 720896;
}

metadata_read : read_id_block_metadata (λ variable. none) ≡ ok defaults
unfolding read_id_block_metadata read_id_field read_int ascii_bytes int_any_base digits_in int strip
metadata_read = refl

abbrev wording : Wording
wording = record { report_text = λ e. ""; metadata_text = λ e. ""; summary = λ report meta. "" }

abbrev cpuinfo : Option (List String)
cpuinfo = some ("cpu family\t: 26" ∷ "model\t\t: 2" ∷ [])

abbrev file : ReportFile
file = file_bytes (replicate 1184 0)

verify_id_block_fields-Carries_example :
    (((r : StepHandlerResult) × (verify_id_block_fields wording (λ variable. none) cpuinfo file
          ≡ ok r)
        × (r.exit_code ≡ pos 0))
      ↔ ((report : AttestationReport) × (meta : IdBlockMetadata) × (report_here cpuinfo file
            ≡ ok report)
          × (read_id_block_metadata (λ variable. none) ≡ ok meta)
          × Carries report meta))
    × ((e : ReportError)
        → (verify_id_block_fields wording (λ variable. none) cpuinfo file ≡ err e)
          ↔ ((report_here cpuinfo file ≡ err e) × IsForeign e))
verify_id_block_fields-Carries_example =
    verify_id_block_fields-Carries wording (λ variable. none) cpuinfo file

abbrev bench : Bench (Unit {0})
bench = record {
  run = λ args w. (ok (record { returncode = pos 0; stdout = ""; stderr = "" }), w);
  is_file = λ path w. true;
  read_text = λ path w. some digest_text;
  environ = λ variable. none;
  new_keys = λ w. (("/tmp/k/id-key.pem", "/tmp/k/auth-key.pem"), w);
  profile_text = λ e. "";
  metadata_text = λ e. "";
  measurement_text = λ e. "";
}

abbrev start : Bound (Unit {0})
start = record { profile = default_profile "/boot/guest.efi"; world = tt }

generate_id_block-Frames_example :
    Frames start.profile defaults.policy (generate_id_block bench "/tmp" start)
generate_id_block-Frames_example =
    generate_id_block-Frames bench "/tmp" defaults start metadata_read

negative-Frames_example :
    Frames start.profile defaults.policy (set_bad_measurement bench "/tmp" start)
    × Frames start.profile (bad_policy defaults.policy) (set_bad_abi_version bench "/tmp" start)
negative-Frames_example = negative-Frames bench "/tmp" defaults start metadata_read
