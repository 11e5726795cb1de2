-- ===== src/Commit/Gate.antt =====
-- snphost_config_commit.py: the signature of the lowered report, the gate before the commit, and the
-- commit.
use Prim.Native.String.{◌++◌}
use sev_certify.Prelude.{String, Bool, List, [], ◌∷◌, some, Result, ok, and_then, if◌then◌else◌}
use sev_certify.Prelude.Texts.{strip, contains}
use sev_certify.Prelude.Quoting.{shell_join}
use sev_certify.Models.Definitions.{StepHandlerResult}
use sev_certify.Harness.World.{CompletedProcess}
use sev_certify.Commit.Fields.{tcb_fields_match}
use sev_certify.Commit.Tools.{
  Raised, Tools, succeeded, failure, success, ReportTcb, unbound_on_runtime, run_tool,
  parse_report_tcb_sections,
}
use sev_certify.Commit.Verify.{report_missing}

module _ {W : Type 0} (tools : Tools W) where
  abbrev pub fetch_vcek : (certs_dir path : String) → List String
  fetch_vcek certs_dir path = "snpguest" ∷ "fetch" ∷ "vcek" ∷ "pem" ∷ certs_dir ∷ path ∷ []

  abbrev pub verify_attestation : (certs_dir path : String) → List String
  verify_attestation certs_dir path =
      "snpguest" ∷ "verify" ∷ "attestation" ∷ "--signature" ∷ certs_dir ∷ path ∷ []

  abbrev fetch_failure : (args : List String) → (stderr : String) → StepHandlerResult
  fetch_failure args stderr =
      let hint = if contains "429" stderr then " (KDS rate-limited; re-run in a minute)" else "" in
      failure "" ("snpguest fetch vcek failed" ++ (hint ++ (": " ++ stderr)))
        (some (shell_join args))

  abbrev signature_result : (args : List String) → CompletedProcess → StepHandlerResult
  signature_result args verify =
      if succeeded verify
      then success ("Lowered-TCB report signature verified\n  " ++ strip verify.stdout)
          (shell_join args)
      else failure verify.stdout
          ("FAIL: lowered-TCB report not signed by its VCEK: " ++ strip verify.stderr)
          (some (shell_join args))

  -- Behind the fetch: the signature is verified only if the fetch succeeded.
  unfoldable pub after_fetch :
      (certs_dir path : String) → CompletedProcess → W → Result Raised StepHandlerResult × W
  after_fetch certs_dir path fetch w =
      let args = verify_attestation certs_dir path in
      if succeeded fetch
      then and_then (run_tool tools args 120 w)
          (λ verify w1. (ok (signature_result args verify), w1))
      else (ok (fetch_failure (fetch_vcek certs_dir path) (strip fetch.stderr)), w)

  unfoldable pub verify_lowered_report_signature :
      (artifact_dir : String) → W → Result Raised StepHandlerResult × W
  unfolding after_fetch
  verify_lowered_report_signature artifact_dir w =
      let path = artifact_dir ++ "/report.bin" in
      let certs_dir = artifact_dir ++ "/vcek_lowered" in
      if tools.exists path w
      then and_then (run_tool tools (fetch_vcek certs_dir path) 120 (tools.mkdir certs_dir w))
          (after_fetch certs_dir path)
      else (report_missing tools path, w)

  -- The precondition of the commit, behind the reading of the report. The warning is also printed.
  unfoldable pub gate_result : (allow_host_changes : Bool) → ReportTcb × String → StepHandlerResult
  gate_result allow_host_changes (sections, cmd) =
      let dump =
        "  Committed: "
        ++ (tools.repr sections.committed ++ ("\n  Current:   " ++ tools.repr sections.current)) in
      if tcb_fields_match sections.committed sections.current
      then success ("Committed == Current - commit is a no-op on the floor.\n" ++ dump) cmd
      else if allow_host_changes
      then success
          ("WARNING: provisional firmware (Committed < Current). --allow-host-changes set; commit will ADVANCE the floor this boot (resets on reboot).\n"
            ++ dump)
          cmd
      else failure ""
          ("FAIL: provisional firmware (Committed < Current). Committing would advance the floor and bless the provisional image, blocking rollback. Pass --allow-host-changes for a host that will be rebooted.\n"
            ++ dump)
          (some cmd)

  unfoldable pub verify_committed_equals_current :
      (allow_host_changes : Bool)
      → (artifact_dir : String) → W
      → Result Raised StepHandlerResult × W
  unfolding parse_report_tcb_sections gate_result
  verify_committed_equals_current allow_host_changes artifact_dir w =
      let path = artifact_dir ++ "/report_after_reset.bin" in
      let (read, w1) = parse_report_tcb_sections tools path w in
      if tools.exists path w
      then and_then (unbound_on_runtime "cmd" read, w1)
          (λ sections w2. (ok (gate_result allow_host_changes sections), w2))
      else (report_missing tools path, w)

  abbrev pub commit : List String
  commit = "snphost" ∷ "commit" ∷ []

  unfoldable pub commit_current_tcb : W → Result Raised StepHandlerResult × W
  commit_current_tcb w = and_then (run_tool tools commit 30 w) λ proc w1.
      if succeeded proc
      then (ok (success "snphost commit succeeded" (shell_join commit)), w1)
      else (
        ok (
            failure proc.stdout ("snphost commit failed: " ++ strip proc.stderr)
              (some (shell_join commit))),
        w1,
      )
