-- ===== src/Models/Expected.antt =====
-- The `expected_result` of a step: what the format check of models.py lets through, and what
-- runner.py makes of it.
use sev_certify.Prelude.{
  ◌≡◌, refl, ◌≢◌, ◌⊎◌, inl, inr, String, true, some, ok, ℤ, arith, eq_iff, Option-cases, str_eq,
  Bool-cases,
}
use sev_certify.Prelude.Texts.{partition, int}
use sev_certify.Prelude.TextLaws.{partition-split, partition-append}
use sev_certify.Models.Step.{validate_expected_result_format}

abbrev pub colon : String → String
colon s = String.◌∷◌ ":" s

-- "exit_code:<int>" and "stdout_contains:<string>".
abbrev pub ExpectsExit : String → ℤ → Type 0
ExpectsExit e n =
    (value : String) × (e ≡ Prim.Native.String.◌++◌ "exit_code" (colon value))
    × (int value ≡ some n)

abbrev pub ExpectsOutput : String → String → Type 0
ExpectsOutput e value = e ≡ Prim.Native.String.◌++◌ "stdout_contains" (colon value)

pub partition_exit :
    (e : String) (n : ℤ)
    → ExpectsExit e n
    → (value : String) × (partition b':' e ≡ ("exit_code", true, value)) × (int value ≡ some n)
partition_exit e n (value, form, parsed) =
    (value, rw form (partition-append ":" "exit_code" value refl), parsed)

pub partition_output :
    (e value : String) → ExpectsOutput e value → partition b':' e ≡ ("stdout_contains", true, value)
partition_output e value form = rw form (partition-append ":" "stdout_contains" value refl)

pub kinds_differ : ◌≢◌ {A = String} "stdout_contains" "exit_code"
kinds_differ = ground (arith, eq_iff "stdout_contains" "exit_code")

pub validate_expected-Expects :
    (e : String)
    → validate_expected_result_format e ≡ ok tt
    → ((n : ℤ) × ExpectsExit e n) ⊎ ((value : String) × ExpectsOutput e value)
unfolding validate_expected_result_format
validate_expected-Expects e h =
    let (kind, sep, value) = partition b':' e in
    let found : sep ≡ true = ground arith in
    let split : e ≡ Prim.Native.String.◌++◌ kind (colon value) =
      partition-split ":" e kind value (λ i. (kind, found i, value)) in
    elim (Bool-cases (str_eq kind "exit_code")) [
      | inl k ↦
          let named : kind ≡ "exit_code" = (eq_iff kind "exit_code").0 k in
          elim (Option-cases (int value)) [
            | inl bad ↦ absurd (ground (arith, k, bad))
            | inr (n, good) ↦ inl (n, (value, cc (split, named), good))
          ]
      | inr k ↦
          let named : kind ≡ "stdout_contains" =
            (eq_iff kind "stdout_contains").0 (ground (arith, k)) in
          inr (value, cc (split, named))
    ]

pub Expects-validate_expected :
    (e : String)
    → ((n : ℤ) × ExpectsExit e n) ⊎ ((value : String) × ExpectsOutput e value)
    → validate_expected_result_format e ≡ ok tt
unfolding validate_expected_result_format
Expects-validate_expected e (inl (n, form)) =
    let (value, parts, parsed) = partition_exit e n form in rw (parts, parsed) refl
Expects-validate_expected e (inr (value, form)) = rw (partition_output e value form) refl
