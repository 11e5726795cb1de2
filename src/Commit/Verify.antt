-- ===== src/Commit/Verify.antt =====
-- snphost_config_commit.py: the checks of the host's TCB values and of those in the guest's reports.
use Prim.Native.String.{◌++◌}
use mathlib.Core.List.{◌++◌ as append}
use sev_certify.Prelude.{
  String, Bool, true, false, ◌&&◌, not, List, [], ◌∷◌, none, some, Result, ok, err, and_then,
  if◌then◌else◌, ℤ, str_eq,
}
use sev_certify.Prelude.Texts.{strip}
use sev_certify.Prelude.Dicts.{get}
use sev_certify.Prelude.Quoting.{join, shell_join}
use sev_certify.Models.Definitions.{StepHandlerResult}
use sev_certify.Harness.World.{CompletedProcess}
use sev_certify.Commit.Sections.{parse_tcb_sections, fields_of}
use sev_certify.Commit.Fields.{tcb_fields_match}
use sev_certify.Commit.Tools.{
  Raised, name_error, Tools, succeeded, failure, success, show_tcb, HostTcb, ReportTcb,
  unbound_on_runtime, run_tool, read_host_tcb, parse_report_tcb_sections,
}

abbrev line : String → String → List String → List String
line label text lines = (label ++ text) ∷ lines

abbrev when : Bool → String → List String
when true message = message ∷ []
when false message = []

abbrev pub errors_of :
    (guest_reported_matches_host guest_current_matches_platform reported_matches_platform
      expect_match_reported : Bool)
    → List String
errors_of reported current platform expect =
    append (when (not reported) "FAIL: guest Reported != host Reported") (
      append (when (not current) "FAIL: guest Current != host Platform") (
        append
          (when (expect && not platform) "FAIL: host Reported should match Platform after reset")
          (when (not expect && platform)
            "FAIL: host Reported should differ from Platform after config set")))

abbrev pub guest_report_result :
    (errors dump : List String) → (expect : Bool) → (cmd : String) → StepHandlerResult
guest_report_result [] dump expect cmd =
    let label = if expect then "matches" else "differs from" in
    success (join "\n" (("Guest TCB matches host (Reported " ++ (label ++ " Platform)")) ∷ dump))
      cmd
guest_report_result (e ∷ errors) dump expect cmd =
    failure "" (join "\n" (append (e ∷ errors) dump)) (some cmd)

-- `_verify_result` behind the process. A failed match reads `cmd`, which no scope defines.
unfoldable pub compare_result : String → CompletedProcess → Result Raised StepHandlerResult
compare_result mode proc =
    let sections = parse_tcb_sections proc.stdout in
    let same =
      tcb_fields_match (fields_of (get "Reported" sections))
        (fields_of (get "Platform" sections)) in
    if not (succeeded proc)
    then ok
        (failure "" ("snphost show tcb failed: " ++ strip proc.stderr) (some (shell_join show_tcb)))
    else if str_eq mode "verify-match" && not same
    then err (name_error "cmd")
    else if str_eq mode "verify-differ" && same
    then ok (
        failure "" "FAIL: Reported should differ from Platform after config set"
          (some (shell_join show_tcb)))
    else ok (success "" (shell_join show_tcb))

module _ {W : Type 0} (tools : Tools W) where
  unfoldable pub verify_result : String → W → Result Raised StepHandlerResult × W
  unfolding compare_result
  verify_result mode w =
      and_then (run_tool tools show_tcb 10 w) λ proc w1. (compare_result mode proc, w1)

  unfoldable pub verify_match : W → Result Raised StepHandlerResult × W
  unfolding verify_result
  verify_match w = verify_result "verify-match" w

  unfoldable pub verify_differ : W → Result Raised StepHandlerResult × W
  unfolding verify_result
  verify_differ w = verify_result "verify-differ" w

  -- The comparison in `_verify_guest_tcb`.
  unfoldable pub guest_tcb_result :
      (expect : Bool) → ReportTcb × String → HostTcb × String → StepHandlerResult
  guest_tcb_result expect (guest, guest_cmd) (host, host_cmd) =
      guest_report_result
        (errors_of (tcb_fields_match guest.reported host.reported)
          (tcb_fields_match guest.current host.platform)
          (tcb_fields_match host.reported host.platform) expect)
        (line "  guest Reported: " (tools.repr guest.reported) (
          line "  guest Current:  " (tools.repr guest.current) (
            line "  host Reported:  " (tools.repr host.reported)
              (line "  host Platform:  " (tools.repr host.platform) []))))
        expect (guest_cmd ++ ("; " ++ host_cmd))

  unfoldable pub verify_guest_tcb :
      String → (expect : Bool) → W → Result Raised StepHandlerResult × W
  unfolding parse_report_tcb_sections read_host_tcb guest_tcb_result
  verify_guest_tcb path expect w =
      let (guest_read, w1) = parse_report_tcb_sections tools path w in
      and_then (unbound_on_runtime "guest_cmd" guest_read, w1)
        λ guest w2.
          let (host_read, w3) = read_host_tcb tools w2 in
          and_then (unbound_on_runtime "host_cmd" host_read, w3)
            λ host w4. (ok (guest_tcb_result expect guest host), w4)

  -- `_verify_cli`: the exit code. What it prints is left out.
  unfoldable pub verify_cli : String → W → Result Raised ℤ × W
  unfolding verify_result
  verify_cli mode w = and_then (verify_result mode w) λ r w1. (ok r.exit_code, w1)

  abbrev pub report_missing : String → Result Raised StepHandlerResult
  report_missing path = ok (failure "" ("report not found: " ++ path) none)

  unfoldable pub verify_guest_report_lowered :
      (artifact_dir : String) → W → Result Raised StepHandlerResult × W
  unfolding verify_guest_tcb
  verify_guest_report_lowered artifact_dir w =
      let path = artifact_dir ++ "/report.bin" in
      if tools.exists path w then verify_guest_tcb path false w else (report_missing path, w)

  unfoldable pub verify_guest_report_restored :
      (artifact_dir : String) → W → Result Raised StepHandlerResult × W
  unfolding verify_guest_tcb
  verify_guest_report_restored artifact_dir w =
      let path = artifact_dir ++ "/report_after_reset.bin" in
      if tools.exists path w then verify_guest_tcb path true w else (report_missing path, w)
