-- ===== src/Commit/VerifyLaws.antt =====
-- What the checks of the TCB values report.
use sev_certify.Prelude.{
  String, Bool, true, false, Result, ok, err, pos, ◌≡◌, refl, ◌↔◌, inl, inr, arith, Bool-cases,
  eq_ℤ_iff,
}
use sev_certify.Prelude.Dicts.{Dict, get}
use sev_certify.Prelude.Quoting.{shell_join}
use sev_certify.Harness.World.{CompletedProcess}
use sev_certify.Commit.Sections.{parse_tcb_sections, fields_of}
use sev_certify.Commit.Fields.{tcb_fields_match, Agrees, tcb_fields_match-Agrees}
use sev_certify.Models.Definitions.{StepHandlerResult}
use sev_certify.Commit.Tools.{name_error, Raised, Tools, succeeded, success, show_tcb}
use sev_certify.Commit.Verify.{compare_result, verify_result, verify_match, verify_differ}
use sev_certify.Commit.GateLaws.{Passes}

-- The text of the host's TCB, as `_verify_result` reads it.
abbrev pub shown : String → String → Dict String
shown name output = fields_of (get name (parse_tcb_sections output))

compare_result-match :
    (proc : CompletedProcess)
    → proc.returncode ≡ pos 0
    → (Passes (compare_result "verify-match" proc)
        ↔ (tcb_fields_match (shown "Reported" proc.stdout) (shown "Platform" proc.stdout) ≡ true))
      × ((tcb_fields_match (shown "Reported" proc.stdout) (shown "Platform" proc.stdout) ≡ false)
          → compare_result "verify-match" proc ≡ err (name_error "cmd"))
unfolding compare_result
compare_result-match proc zero =
    let good : succeeded proc ≡ true = (eq_ℤ_iff proc.returncode (pos 0)).1 zero in
    let same = tcb_fields_match (shown "Reported" proc.stdout) (shown "Platform" proc.stdout) in
    elim (Bool-cases same) [
      | inl e ↦ (
        (λ h. e, λ h. (success "" (shell_join show_tcb), ground (arith, good, e), refl)),
        λ h. absurd (ground (arith, e, h)),
      )
      | inr e ↦ (
        (λ h. absurd (ground (arith, good, e, h.1, h.2)), λ h. absurd (ground (arith, e, h))),
        λ h. ground (arith, good, e),
      )
    ]

compare_result-differ :
    (proc : CompletedProcess)
    → proc.returncode ≡ pos 0
    → Passes (compare_result "verify-differ" proc)
      ↔ (tcb_fields_match (shown "Reported" proc.stdout) (shown "Platform" proc.stdout) ≡ false)
unfolding compare_result
compare_result-differ proc zero =
    let good : succeeded proc ≡ true = (eq_ℤ_iff proc.returncode (pos 0)).1 zero in
    let same = tcb_fields_match (shown "Reported" proc.stdout) (shown "Platform" proc.stdout) in
    elim (Bool-cases same) [
      | inl e ↦
          (λ h. absurd (ground (arith, good, e, h.1, h.2)), λ h. absurd (ground (arith, e, h)))
      | inr e ↦ (λ h. e, λ h. (success "" (shell_join show_tcb), ground (arith, good, e), refl))
    ]

false_iff : (b : Bool) {P : Type 0} → ((b ≡ true) ↔ P) → (b ≡ false) ↔ (¬ P)
false_iff true h = (λ e. absurd (cc), λ n. absurd (n (h.0 refl)))
false_iff false h = (λ e p. absurd (cc (h.1 p)), λ n. refl)

raised_or_passed :
    {run : Result Raised StepHandlerResult} {e : Raised} → run ≡ err e → Passes run → ⊥
raised_or_passed raised passed = cc (raised, passed.1)

module _ {W : Type 0} (tools : Tools W) where
  verify_match-ran :
      (w : W) (proc : CompletedProcess)
      → (tools.run show_tcb 10 w).0 ≡ ok proc
      → (verify_match tools w).0 ≡ compare_result "verify-match" proc
  unfolding verify_match verify_result
  verify_match-ran w proc ran = ground (arith, ran)

  verify_differ-ran :
      (w : W) (proc : CompletedProcess)
      → (tools.run show_tcb 10 w).0 ≡ ok proc
      → (verify_differ tools w).0 ≡ compare_result "verify-differ" proc
  unfolding verify_differ verify_result
  verify_differ-ran w proc ran = ground (arith, ran)

  -- After `snphost show tcb` has succeeded: the check after a reset passes exactly if the reported
  -- and the platform TCB agree, and raises a NameError for `cmd` exactly if they do not; the check
  -- after a lowering passes exactly if they do not agree.
  pub verify_result-Agrees :
      (w : W) (proc : CompletedProcess)
      → (tools.run show_tcb 10 w).0 ≡ ok proc
      → proc.returncode ≡ pos 0
      → (Passes (verify_match tools w).0
          ↔ Agrees (shown "Reported" proc.stdout) (shown "Platform" proc.stdout))
        × (((verify_match tools w).0 ≡ err (name_error "cmd"))
            ↔ (¬ Agrees (shown "Reported" proc.stdout) (shown "Platform" proc.stdout)))
        × (Passes (verify_differ tools w).0
            ↔ (¬ Agrees (shown "Reported" proc.stdout) (shown "Platform" proc.stdout)))
  verify_result-Agrees w proc ran zero =
      let agrees =
        tcb_fields_match-Agrees (shown "Reported" proc.stdout) (shown "Platform" proc.stdout) in
      let differs =
        false_iff (tcb_fields_match (shown "Reported" proc.stdout) (shown "Platform" proc.stdout))
          agrees in
      let m = compare_result-match proc zero in
      let d = compare_result-differ proc zero in
      rw (verify_match-ran w proc ran, verify_differ-ran w proc ran)
        (
          (λ h. agrees.0 (m.0.0 h), λ h. m.0.1 (agrees.1 h)),
          (λ e a. raised_or_passed e (m.0.1 (agrees.1 a)), λ h. m.1 (differs.1 h)),
          (λ h. differs.0 (d.0 h), λ h. d.1 (differs.1 h)),
        )
