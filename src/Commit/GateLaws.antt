-- ===== src/Commit/GateLaws.antt =====
-- When the gate before the commit lets it through.
use Prim.Native.String.{◌++◌}
use sev_certify.Prelude.{
  String, Bool, true, some, Result, ok, err, pos, ◌≡◌, ◌≢◌, refl, ap, ◌∙◌, ◌↔◌, ◌⊎◌, inl, inr,
  arith, Bool-cases, Option-cases, Result-cases, eq_ℤ_iff,
}
use sev_certify.Prelude.Dicts.{Dict, get}
use sev_certify.Prelude.Quoting.{shell_join}
use sev_certify.Models.Definitions.{StepHandlerResult}
use sev_certify.Harness.World.{CompletedProcess}
use sev_certify.Commit.Sections.{parse_tcb_sections}
use sev_certify.Commit.Fields.{tcb_fields_match, Agrees, tcb_fields_match-Agrees}
use sev_certify.Commit.Tools.{
  Raised, runtime_error, name_error, process_error, Tools, succeeded, display_report, ReportTcb,
  report_sections, report_tcb_of, parse_report_tcb_sections,
}
use sev_certify.Commit.Gate.{gate_result, verify_committed_equals_current}

-- A step whose handler returns the exit code 0.
abbrev pub Passes : Result Raised StepHandlerResult → Type 0
Passes run = (r : StepHandlerResult) × (run ≡ ok r) × (r.exit_code ≡ pos 0)

-- The sections of a report, in the text that `snpguest display report` prints.
abbrev pub Shows : String → ReportTcb → Type 0
Shows output tcb =
    (get "Current" (parse_tcb_sections output) ≡ some tcb.current)
    × (get "Committed" (parse_tcb_sections output) ≡ some tcb.committed)
    × (get "Reported" (parse_tcb_sections output) ≡ some tcb.reported)

report_sections-ok :
    (sections : Dict (Dict String)) (current committed reported : Dict String)
    → (report_sections sections
        ≡ ok (record { current = current; committed = committed; reported = reported }))
      ↔ ((get "Current" sections ≡ some current)
          × (get "Committed" sections ≡ some committed)
          × (get "Reported" sections ≡ some reported))
unfolding report_sections
report_sections-ok sections current committed reported =
    elim (Option-cases (get "Current" sections)) [
      | inl e ↦ (λ h. absurd (ground (arith, e, h)), λ h. absurd (ground (arith, e, h.0)))
      | inr (a, e) ↦ elim (Option-cases (get "Committed" sections)) [
        | inl e1 ↦ (λ h. absurd (ground (arith, e, e1, h)), λ h. absurd (ground (arith, e1, h.1)))
        | inr (b, e1) ↦ elim (Option-cases (get "Reported" sections)) [
          | inl e2 ↦
              (λ h. absurd (ground (arith, e, e1, e2, h)), λ h. absurd (ground (arith, e2, h.2)))
          | inr (c, e2) ↦ (
            λ h. (
              ground (arith, e, e1, e2, h),
              ground (arith, e, e1, e2, h),
              ground (arith, e, e1, e2, h),
            ),
            λ h. ground (arith, e, e1, e2, h.0, h.1, h.2),
          )
        ]
      ]
    ]

report_tcb_of-Shows :
    (proc : CompletedProcess) (tcb : ReportTcb)
    → (report_tcb_of proc ≡ ok tcb) ↔ ((proc.returncode ≡ pos 0) × Shows proc.stdout tcb)
unfolding report_tcb_of
report_tcb_of-Shows proc tcb =
    let sections =
      report_sections-ok (parse_tcb_sections proc.stdout) tcb.current tcb.committed tcb.reported in
    let zero = eq_ℤ_iff proc.returncode (pos 0) in
    elim (Bool-cases (succeeded proc)) [
      | inl e ↦ (λ h. (zero.0 e, sections.0 (rw e at h)), λ h. rw e (sections.1 h.1))
      | inr e ↦ (λ h. absurd (ground (arith, e, h)), λ h. absurd (ground (arith, e, zero, h.0)))
    ]

module _ {W : Type 0} (tools : Tools W) where
  -- `snpguest display report` succeeds and shows these sections.
  abbrev pub Displays : String → W → ReportTcb → Type 0
  Displays path w tcb =
      (proc : CompletedProcess) × ((tools.run (display_report path) 10 w).0 ≡ ok proc)
      × (proc.returncode ≡ pos 0)
      × Shows proc.stdout tcb

  pub parse_report-Displays :
      (path : String) (w : W) (tcb : ReportTcb) (cmd : String)
      → (parse_report_tcb_sections tools path w).0 ≡ ok (tcb, cmd)
      → Displays path w tcb
  unfolding parse_report_tcb_sections
  parse_report-Displays path w tcb cmd h =
      elim (Result-cases (tools.run (display_report path) 10 w).0) [
        | inr (raised, e) ↦ absurd (ground (arith, e, h))
        | inl (proc, e) ↦ elim (Result-cases (report_tcb_of proc)) [
          | inr (raised, e1) ↦ absurd (ground (arith, e, e1, h))
          | inl (read, e1) ↦
              let same : read ≡ tcb = ground (arith, e, e1, h) in
              let shown = (report_tcb_of-Shows proc tcb).0 (e1 ∙ ap (λ t. ok t) same) in
              (proc, e, shown.0, shown.1)
        ]
      ]

  pub Displays-parse_report :
      (path : String) (w : W) (tcb : ReportTcb)
      → Displays path w tcb
      → (parse_report_tcb_sections tools path w).0 ≡ ok (tcb, shell_join (display_report path))
  unfolding parse_report_tcb_sections
  Displays-parse_report path w tcb (proc, e, zero, shows) =
      let read = (report_tcb_of-Shows proc tcb).1 (zero, shows) in ground (arith, e, read)

  -- The committed TCB is the current one, or the operator allowed changes of the host.
  abbrev pub Harmless : Bool → ReportTcb → Type 0
  Harmless allow tcb = Agrees tcb.committed tcb.current ⊎ (allow ≡ true)

  gate_result-Harmless :
      (allow : Bool) (tcb : ReportTcb) (cmd : String)
      → ((gate_result tools allow (tcb, cmd)).exit_code ≡ pos 0) ↔ Harmless allow tcb
  unfolding gate_result
  gate_result-Harmless allow tcb cmd =
      let same = tcb_fields_match-Agrees tcb.committed tcb.current in
      elim (Bool-cases (tcb_fields_match tcb.committed tcb.current)) [
        | inl e ↦ (λ h. inl (same.0 e), λ h. rw e refl)
        | inr e ↦ elim (Bool-cases allow) [
          | inl e1 ↦ (λ h. inr e1, λ h. rw (e, e1) refl)
          | inr e1 ↦ (
            λ h. absurd (ground (arith, e, e1, h)),
            λ h. elim h [
              | inl agrees ↦ absurd (ground (arith, e, same.1 agrees))
              | inr allowed ↦ absurd (ground (arith, e1, allowed))
            ],
          )
        ]
      ]

  reading_failed :
      (allow : Bool) (artifact_dir : String) (w : W) {r : StepHandlerResult} (raised : Raised)
      → tools.exists (artifact_dir ++ "/report_after_reset.bin") w ≡ true
      → (parse_report_tcb_sections tools (artifact_dir ++ "/report_after_reset.bin") w).0
        ≡ err raised
      → (verify_committed_equals_current tools allow artifact_dir w).0 ≢ ok r
  unfolding verify_committed_equals_current
  reading_failed allow artifact_dir w (runtime_error m) e e1 = λ h. ground (arith, e, e1, h)
  reading_failed allow artifact_dir w (name_error m) e e1 = λ h. ground (arith, e, e1, h)
  reading_failed allow artifact_dir w (process_error x) e e1 = λ h. ground (arith, e, e1, h)

  -- The gate lets the commit through exactly if the report is there, `snpguest display report` succeeds
  -- on it and shows the three TCB sections, and the committed and the current TCB agree or changes of
  -- the host are allowed.
  pub verify_committed_equals_current-Passes :
      (allow : Bool) (artifact_dir : String) (w : W)
      → Passes (verify_committed_equals_current tools allow artifact_dir w).0 ↔ (
          (tools.exists (artifact_dir ++ "/report_after_reset.bin") w ≡ true)
          × (tcb : ReportTcb) × Displays (artifact_dir ++ "/report_after_reset.bin") w tcb
          × Harmless allow tcb)
  unfolding verify_committed_equals_current
  verify_committed_equals_current-Passes allow artifact_dir w =
      let path = artifact_dir ++ "/report_after_reset.bin" in
      elim (Bool-cases (tools.exists path w)) [
        | inr e ↦ (λ h. absurd (ground (arith, e, h.1, h.2)), λ h. absurd (ground (arith, e, h.0)))
        | inl e ↦ (
          λ h. elim (Result-cases (parse_report_tcb_sections tools path w).0) [
            | inr (raised, e1) ↦ absurd (reading_failed allow artifact_dir w raised e e1 h.1)
            | inl ((tcb, cmd), e1) ↦
                let passed : (gate_result tools allow (tcb, cmd)).exit_code ≡ pos 0 =
                  ground (arith, e, e1, h.1, h.2) in
                (
                  e,
                  tcb,
                  parse_report-Displays path w tcb cmd e1,
                  (gate_result-Harmless allow tcb cmd).0 passed,
                )
          ],
          λ h.
              let cmd = shell_join (display_report path) in
              let tcb = h.1 in
              let read = Displays-parse_report path w tcb h.2 in
              let passed = (gate_result-Harmless allow tcb cmd).1 h.3 in
              (gate_result tools allow (tcb, cmd), ground (arith, e, read), passed),
        )
      ]
