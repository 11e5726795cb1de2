-- ===== src/Report/Gate.antt =====
-- Which inputs `parse` refuses, and with which exception.
use sev_certify.Prelude.{ℕ, ◌≤◌, ◌<◌, ◌≡◌, ◌≢◌, List, Option, ok, err, length, ◌⊎◌}
use sev_certify.Report.Tcb.{ReportError, malformed, unsupported_version}
use sev_certify.Report.Generation.{Generation}
use sev_certify.Report.Parse.{AttestationReport, report_size, report_version, report_cpuid, parse}
use sev_certify.Report.Known.{ForeignTo}

-- The reason to refuse a byte string: its size, then its version, then its processor.
abbrev pub RefusedAs : List ℕ → Option Generation → ReportError → Type 0
RefusedAs bytes generation e =
    ((length bytes ≢ report_size) × (e ≡ malformed (length bytes)))
    ⊎ (((length bytes ≡ report_size)
          × (report_version bytes < 2)
          × (e ≡ unsupported_version (report_version bytes)))
        ⊎ ((length bytes ≡ report_size)
            × (2 ≤ report_version bytes)
            × ForeignTo generation (report_cpuid (report_version bytes) bytes) e))

-- What `parse` does: it returns a report and there is no reason, or raises the one exception there is a
-- reason for.
abbrev Decided : List ℕ → Option Generation → Type 0
Decided bytes generation =
    ((r : AttestationReport) × (parse bytes generation ≡ ok r)
      × ((e : ReportError) → ¬ RefusedAs bytes generation e))
    ⊎ ((e : ReportError) × (parse bytes generation ≡ err e) × RefusedAs bytes generation e)
