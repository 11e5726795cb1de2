-- ===== src/Models/Validity.antt =====
-- Which steps `__post_init__` accepts, and what the factory builds.
use sev_certify.Prelude.{
  ℕ, zero, suc, negsuc, ◌≡◌, refl, ◌≢◌, ◌↔◌, ◌⊎◌, String, true, false, ok, ℤ, pos, is_positive,
  arith,
}
use sev_certify.Prelude.Texts.{is_empty}
use sev_certify.Prelude.TextLaws.{is_empty_iff}
use sev_certify.Models.Step.{
  StepSeverity, setup, other_severity, StepKind, vm_launch, vm_stop, host, guest, guest_pull,
  callable, other_kind, known_severity, known_kind, BaseStep, post_init, check_kind,
  validate_expected_result_format,
}
use sev_certify.Models.Expected.{
  ExpectsExit, ExpectsOutput, validate_expected-Expects, Expects-validate_expected,
}

-- The fields that a step of each kind may and must set.
abbrev pub FieldsFit : StepKind → BaseStep → Type 0
FieldsFit vm_launch s =
    (s.command ≡ "") × (s.handler ≡ "") × (s.guest_src ≡ "") × (s.host_dest ≡ "")
FieldsFit vm_stop s =
    (s.command ≡ "")
    × (s.handler ≡ "")
    × (s.guest_src ≡ "")
    × (s.host_dest ≡ "")
    × (s.guest_id ≡ "")
FieldsFit host s =
    (s.command ≢ "")
    × (s.handler ≡ "")
    × (s.guest_src ≡ "")
    × (s.host_dest ≡ "")
    × (s.guest_id ≡ "")
FieldsFit guest s =
    (s.command ≢ "")
    × (s.handler ≡ "")
    × (s.guest_src ≡ "")
    × (s.host_dest ≡ "")
    × (s.guest_id ≡ "")
FieldsFit guest_pull s =
    (s.command ≡ "")
    × (s.handler ≡ "")
    × (s.guest_src ≢ "")
    × (s.host_dest ≢ "")
    × (s.guest_id ≡ "")
FieldsFit callable s =
    (s.command ≡ "")
    × (s.handler ≢ "")
    × (s.guest_src ≡ "")
    × (s.host_dest ≡ "")
    × (s.guest_id ≡ "")
FieldsFit (other_kind k) s = ⊥

check_kind-FieldsFit :
    (k : StepKind) (s : BaseStep)
    → ((t : String) → k ≢ other_kind t)
    → (check_kind k s ≡ ok tt) ↔ FieldsFit k s
unfolding check_kind
check_kind-FieldsFit vm_launch s n = (
  ground (
    arith,
    is_empty_iff s.command,
    is_empty_iff s.handler,
    is_empty_iff s.guest_src,
    is_empty_iff s.host_dest,
  ),
  ground (
    arith,
    is_empty_iff s.command,
    is_empty_iff s.handler,
    is_empty_iff s.guest_src,
    is_empty_iff s.host_dest,
  ),
)
check_kind-FieldsFit (other_kind t) s n = absurd (n t refl)
check_kind-FieldsFit _ s n = (
  ground (
    arith,
    is_empty_iff s.command,
    is_empty_iff s.handler,
    is_empty_iff s.guest_src,
    is_empty_iff s.host_dest,
    is_empty_iff s.guest_id,
  ),
  ground (
    arith,
    is_empty_iff s.command,
    is_empty_iff s.handler,
    is_empty_iff s.guest_src,
    is_empty_iff s.host_dest,
    is_empty_iff s.guest_id,
  ),
)

abbrev pub Known : StepSeverity → Type 0
Known (other_severity s) = ⊥
Known _ = Unit

-- What `__post_init__` promises of a step.
pub record IsValid (s : BaseStep) : Type 0 where
  pub name : s.name ≢ ""
  pub severity : Known s.type
  pub timeout : (n : ℕ) × (s.timeout ≡ pos (suc n))
  pub fields : FieldsFit s.kind s
  pub expected :
      ((n : ℤ) × ExpectsExit s.expected_result n)
      ⊎ ((value : String) × ExpectsOutput s.expected_result value)

severity_cases : (t : StepSeverity) → (known_severity t ≡ true) ↔ Known t
severity_cases (other_severity s) = (λ h. cc, λ h. absurd h)
severity_cases setup = (λ h. tt, λ h. refl)
severity_cases _ = (λ h. tt, λ h. refl)

timeout_cases : (t : ℤ) → (is_positive t ≡ true) ↔ ((n : ℕ) × (t ≡ pos (suc n)))
timeout_cases (pos zero) = (λ h. absurd (cc), λ h. absurd (ground arith))
timeout_cases (pos (suc n)) = (λ h. (n, refl), λ h. refl)
timeout_cases (negsuc n) = (λ h. absurd (cc), λ h. absurd (ground arith))

kind_known : (k : StepKind) → known_kind k ≡ true → (t : String) → k ≢ other_kind t
kind_known (other_kind s) h t e = cc
kind_known vm_launch h t e = cc
kind_known _ h t e = cc

FieldsFit-known : (k : StepKind) (s : BaseStep) → FieldsFit k s → known_kind k ≡ true
FieldsFit-known (other_kind t) s h = absurd h
FieldsFit-known vm_launch s h = refl
FieldsFit-known _ s h = refl

post_init-parts :
    (s : BaseStep)
    → post_init s ≡ ok s
    → (is_empty s.name ≡ false)
      × (known_severity s.type ≡ true)
      × (known_kind s.kind ≡ true)
      × (is_positive s.timeout ≡ true)
      × (check_kind s.kind s ≡ ok tt)
      × (validate_expected_result_format s.expected_result ≡ ok tt)
unfolding post_init
post_init-parts s h =
    (ground arith, ground arith, ground arith, ground arith, ground arith, ground arith)

accepts-IsValid : (s : BaseStep) → (post_init s ≡ ok s) ↔ IsValid s
unfolding post_init
accepts-IsValid s = (
  λ h.
      let (n, t, k, m, f, e) = post_init-parts s h in
      record {
        name = λ blank. ground (arith, is_empty_iff s.name);
        severity = (severity_cases s.type).0 t;
        timeout = (timeout_cases s.timeout).0 m;
        fields = (check_kind-FieldsFit s.kind s (kind_known s.kind k)).0 f;
        expected = validate_expected-Expects s.expected_result e;
      },
  λ v.
      let k = FieldsFit-known s.kind s v.fields in
      let n : is_empty s.name ≡ false = ground (arith, v.name, is_empty_iff s.name) in
      rw (
        n,
        (severity_cases s.type).1 v.severity,
        k,
        (timeout_cases s.timeout).1 v.timeout,
        (check_kind-FieldsFit s.kind s (kind_known s.kind k)).1 v.fields,
        Expects-validate_expected s.expected_result v.expected,
      ),
)

post_init-same : (s s' : BaseStep) → post_init s ≡ ok s' → s' ≡ s
unfolding post_init
post_init-same s s' h = ground arith

-- `__post_init__` accepts exactly the steps that have a name, a known severity and kind, a positive
-- timeout, the fields that their kind takes and no others, and a well-formed expected result, and it
-- never changes the step: whatever it returns is the step itself.
pub post_init-IsValid : (s s' : BaseStep) → (post_init s ≡ ok s') ↔ ((s' ≡ s) × IsValid s)
post_init-IsValid s s' = (
  λ h. let same = post_init-same s s' h in (same, (accepts-IsValid s).0 (cc (h, same))),
  λ v. cc ((accepts-IsValid s).1 v.1, v.0),
)
