-- ===== src/Commit/Tests.antt =====
-- The theorems on the TCB checks at a host and a report of a Milan processor.
use Prim.Native.String.{◌++◌}
use sev_certify.Prelude.{
  ◌≡◌, ◌↔◌, refl, String, Bool, true, false, List, [], ◌∷◌, ok, err, pos, Each,
}
use sev_certify.Prelude.Dicts.{Dict, get}
use sev_certify.Prelude.Lines.{unlines}
use sev_certify.Harness.World.{CompletedProcess}
use sev_certify.Commit.Sections.{parse_tcb_sections}
use sev_certify.Commit.LineLaws.{IsEntry}
use sev_certify.Commit.SectionLaws.{printed_lines, parse_tcb_sections-unlines}
use sev_certify.Commit.Fields.{Agrees}
use sev_certify.Commit.Tools.{Tools, name_error, ReportTcb, HostTcb, display_report}
use sev_certify.Commit.Verify.{verify_match, verify_differ, verify_guest_tcb}
use sev_certify.Commit.Gate.{verify_committed_equals_current}
use sev_certify.Commit.GateLaws.{Passes, Displays, Harmless, verify_committed_equals_current-Passes}
use sev_certify.Commit.VerifyLaws.{shown, verify_result-Agrees}
use sev_certify.Commit.GuestLaws.{
  Carries, HostShows, verify_guest_tcb-Carries, verify_guest_tcb-name_error,
}

abbrev fields : Dict String
fields = ("Microcode", "25") ∷ ("SNP", "27") ∷ ("TEE", "0") ∷ ("Boot Loader", "4") ∷ []

abbrev sections : Dict (Dict String)
sections = ("Reported", fields) ∷ ("Platform", fields) ∷ []

-- The report has its three sections in another order.
abbrev report_output : String
report_output =
    "Current TCB: TCB Version:\n  Microcode:   25\n  SNP: 27\n  TEE: 0\n  Boot Loader: 4\nReported TCB:\n  SNP: 26\nCommitted TCB:\n  Microcode: 25\n  SNP: 27\n  TEE: 0\n  Boot Loader: 4\n"

abbrev is_display : List String → Bool
is_display (tool ∷ action ∷ what ∷ path ∷ args) = true
is_display args = false

abbrev output_of : Bool → String
output_of true = report_output
output_of false = unlines (printed_lines sections)

abbrev tools : Tools (Unit {0})
tools = record {
  run = λ args timeout w.
      (ok (record { returncode = pos 0; stdout = output_of (is_display args); stderr = "" }), w);
  exists = λ path w. true;
  mkdir = λ path w. w;
  repr = λ d. "";
}

-- Each tool fails.
abbrev failing : Tools (Unit {0})
failing = record tools {
  run = λ args timeout w.
      (ok (record { returncode = pos 1; stdout = ""; stderr = "no such file" }), w);
}

fields_good : Each IsEntry fields
fields_good = (
  ((refl, refl), (refl, refl)),
  (
    ((refl, refl), (refl, refl)),
    (((refl, refl), (refl, refl)), (((refl, refl), (refl, refl)), tt)),
  ),
)

parse_tcb_sections-unlines_example :
    parse_tcb_sections (unlines (printed_lines sections)) ≡ sections
parse_tcb_sections-unlines_example =
    parse_tcb_sections-unlines sections
      (
        ((refl, refl), fields_good, (refl, (refl, (refl, (refl, tt))))),
        (((refl, refl), fields_good, (refl, (refl, (refl, (refl, tt))))), tt),
      )
      (refl, (refl, tt))

report_parsed :
    get "Committed" (parse_tcb_sections report_output)
    ≡ get "Current" (parse_tcb_sections report_output)
unfolding parse_tcb_sections
report_parsed = refl

verify_committed_equals_current-Passes_example :
    Passes (verify_committed_equals_current tools false "/tmp" tt).0 ↔ (
      (tools.exists ("/tmp" ++ "/report_after_reset.bin") tt ≡ true)
      × (tcb : ReportTcb) × Displays tools ("/tmp" ++ "/report_after_reset.bin") tt tcb
      × Harmless tools false tcb)
verify_committed_equals_current-Passes_example =
    verify_committed_equals_current-Passes tools false "/tmp" tt

verify_guest_tcb-Carries_example : Passes (verify_guest_tcb tools "report.bin" true tt).0 ↔ (
    (guest : ReportTcb) × (host : HostTcb) × Displays tools "report.bin" tt guest
    × HostShows tools (tools.run (display_report "report.bin") 10 tt).1 host
    × Carries true guest host)
verify_guest_tcb-Carries_example = verify_guest_tcb-Carries tools "report.bin" true tt

abbrev refused : CompletedProcess
refused = record { returncode = pos 1; stdout = ""; stderr = "no such file" }

verify_guest_tcb-name_error_example :
    (verify_guest_tcb failing "report.bin" true tt).0 ≡ err (name_error "guest_cmd")
verify_guest_tcb-name_error_example =
    verify_guest_tcb-name_error failing "report.bin" true tt refused refl (λ e. cc e)

abbrev host_shown : CompletedProcess
host_shown = record { returncode = pos 0; stdout = unlines (printed_lines sections); stderr = "" }

verify_result-Agrees_example :
    (Passes (verify_match tools tt).0
      ↔ Agrees (shown "Reported" host_shown.stdout) (shown "Platform" host_shown.stdout))
    × (((verify_match tools tt).0 ≡ err (name_error "cmd"))
        ↔ (¬ Agrees (shown "Reported" host_shown.stdout) (shown "Platform" host_shown.stdout)))
    × (Passes (verify_differ tools tt).0
        ↔ (¬ Agrees (shown "Reported" host_shown.stdout) (shown "Platform" host_shown.stdout)))
verify_result-Agrees_example = verify_result-Agrees tools tt host_shown refl refl
