-- ===== src/Runner/Expected.antt =====
-- runner.py: `_check_expected_values`. The ValueError of `int` is `none`.
use mathlib.Core.Path.{subst}
use sev_certify.Prelude.{
  sym, ◌≡◌, ◌↔◌, ◌⊎◌, inl, inr, String, Bool, true, false, Option, none, some, ℤ, eq_ℤ, eq_ℤ_iff,
  ok, str_eq, if◌then◌else◌,
}
use sev_certify.Prelude.Texts.{partition, int, contains}
use sev_certify.Prelude.TextLaws.{Found, contains_iff}
use sev_certify.Models.Step.{BaseStep, post_init}
use sev_certify.Models.Expected.{
  ExpectsExit, ExpectsOutput, partition_exit, partition_output, kinds_differ,
}
use sev_certify.Models.Validity.{post_init-IsValid}

unfoldable pub check_expected_values : BaseStep → ℤ → String → Option Bool
check_expected_values step exit_code stdout =
    let (kind, sep, value) = partition b':' step.expected_result in
    if str_eq kind "exit_code"
    then elim (int value) [ none ↦ none | some n ↦ some (eq_ℤ exit_code n) ]
    else if str_eq kind "stdout_contains"
    then some (contains value stdout)
    else some false

-- The form of an expected result determines it.
exit_unique : (e : String) (m n : ℤ) → ExpectsExit e m → ExpectsExit e n → m ≡ n
exit_unique e m n p q =
    let (v, parts, parsed) = partition_exit e m p in
    let (w, parts', parsed') = partition_exit e n q in let same : v ≡ w = cc in cc

exit_not_output : (e : String) (n : ℤ) (value : String) → ExpectsExit e n → ¬ ExpectsOutput e value
exit_not_output e n value p q =
    let (v, parts, parsed) = partition_exit e n p in
    kinds_differ (cc (parts, partition_output e value q))

output_unique : (e v w : String) → ExpectsOutput e v → ExpectsOutput e w → v ≡ w
output_unique e v w p q = cc (partition_output e v p, partition_output e w q)

-- The step's expectation holds of an exit code and an output.
abbrev pub Meets : BaseStep → ℤ → String → Type 0
Meets step exit_code stdout =
    ExpectsExit step.expected_result exit_code
    ⊎ ((value : String) × ExpectsOutput step.expected_result value × Found value stdout)

-- For a step that `__post_init__` accepts, the check never raises, and passes exactly if the step
-- expects this exit code, or expects a text that stands in the output.
pub check_expected_values-Meets :
    (step : BaseStep) (exit_code : ℤ) (stdout : String)
    → post_init step ≡ ok step
    → (b : Bool) × (check_expected_values step exit_code stdout ≡ some b)
      × ((b ≡ true) ↔ Meets step exit_code stdout)
unfolding check_expected_values
check_expected_values-Meets step exit_code stdout accepted =
    elim (((post_init-IsValid step step).0 accepted).1.expected) [
      | inl (n, form) ↦
          let (value, parts, parsed) = partition_exit step.expected_result n form in
          (
            eq_ℤ exit_code n,
            rw (parts, parsed),
            (
              λ b. inl (
                  subst (ExpectsExit step.expected_result) (sym ((eq_ℤ_iff exit_code n).0 b)) form),
              λ m. elim m [
                | inl other ↦
                    (eq_ℤ_iff exit_code n).1
                      (exit_unique step.expected_result exit_code n other form)
                | inr (text, output, found) ↦
                    absurd (exit_not_output step.expected_result n text form output)
              ],
            ),
          )
      | inr (value, form) ↦
          let parts = partition_output step.expected_result value form in
          (
            contains value stdout,
            rw parts,
            (
              λ b. inr (value, form, (contains_iff value stdout).0 b),
              λ m. elim m [
                | inl other ↦
                    absurd (exit_not_output step.expected_result exit_code value other form)
                | inr (text, output, found) ↦ (contains_iff value stdout).1 (
                    subst (λ v. Found v stdout)
                      (output_unique step.expected_result text value output form) found)
              ],
            ),
          )
    ]
