-- ===== src/IdBlock/Fields.antt =====
-- id_block_test.py: `verify_id_block_fields`.
use Prim.Native.String.{◌++◌}
use mathlib.Core.List.{◌++◌ as append}
use sev_certify.Prelude.{
  ℕ, ◌≡◌, ◌↔◌, refl, String, Bool, true, false, ◌&&◌, List, [], ◌∷◌, Option, none, some, Result, ok,
  err, ◌>>=◌, if◌then◌else◌, ◌==◌, ==_iff, pos, arith, Result-cases, Bool-cases, inl, inr,
}
use sev_certify.Prelude.Quoting.{join}
use sev_certify.Prelude.Decimal.{show_ℕ, hex}
use sev_certify.Prelude.Bytes.{to_hex}
use sev_certify.Models.Definitions.{StepHandlerResult}
use sev_certify.Report.Tcb.{
  ReportError, os_error, index_error, value_error, malformed, not_found, unsupported_version,
  unknown_cpu, foreign_cpu, unknown_layout, unreadable_cpuinfo, no_family_or_model,
}
use sev_certify.Report.Generation.{host_generation}
use sev_certify.Report.Parse.{AttestationReport, ReportFile, id_block_used, read}
use sev_certify.IdBlock.Metadata.{MetadataError, IdBlockMetadata, id_bytes, read_id_block_metadata}
use sev_certify.IdBlock.Generate.{failure, success}

abbrev pub eq_bytes : List ℕ → List ℕ → Bool
eq_bytes [] [] = true
eq_bytes (x ∷ xs) (y ∷ ys) = x == y && eq_bytes xs ys
eq_bytes _ _ = false

abbrev unless : Bool → String → List String
unless true message = []
unless false message = message ∷ []

unfoldable pub field_errors : AttestationReport → IdBlockMetadata → List String
unfolding id_bytes id_block_used show_ℕ hex
field_errors report meta =
    append
      (unless (report.guest_svn == meta.guest_svn) (
        "guest_svn: expected " ++ (show_ℕ meta.guest_svn ++ (", got " ++ show_ℕ report.guest_svn))))
      (append
        (unless (report.policy == meta.policy)
          ("policy: expected " ++ (hex meta.policy ++ (", got " ++ hex report.policy))))
        (append
          (unless (eq_bytes report.family_id (id_bytes meta.family_id)) (
            "family_id: expected "
            ++ (to_hex (id_bytes meta.family_id) ++ (", got " ++ to_hex report.family_id))))
          (append
            (unless (eq_bytes report.image_id (id_bytes meta.image_id)) (
              "image_id: expected "
              ++ (to_hex (id_bytes meta.image_id) ++ (", got " ++ to_hex report.image_id))))
            (unless (id_block_used report)
              "id_key_digest is all zero — the guest launched without an ID block"))))

-- The texts of the errors, and of the fields that match.
pub record Wording : Type 0 where
  pub report_text : ReportError → String
  pub metadata_text : MetadataError → String
  pub summary : AttestationReport → IdBlockMetadata → String

abbrev pub field_result :
    Wording → AttestationReport → IdBlockMetadata → List String → StepHandlerResult
field_result wording report meta [] = success (wording.summary report meta) none
field_result wording report meta (e ∷ errors) = failure (pos 1) "" (join "\n" (e ∷ errors)) none

abbrev compared :
    Wording → AttestationReport → Result MetadataError IdBlockMetadata → StepHandlerResult
compared wording report (err e) = failure (pos 1) "" (wording.metadata_text e) none
compared wording report (ok meta) = field_result wording report meta (field_errors report meta)

-- Python's own exceptions are not ReportErrors.
abbrev pub is_report_error : ReportError → Bool
is_report_error e = elim e [
  | os_error ↦ false
  | index_error ↦ false
  | value_error ↦ false
  | _ ↦ true
]

abbrev examined :
    Wording
    → Result ReportError AttestationReport
    → Result MetadataError IdBlockMetadata
    → Result ReportError StepHandlerResult
examined wording (err e) metadata =
    if is_report_error e then ok (failure (pos 1) "" (wording.report_text e) none) else err e
examined wording (ok report) metadata = ok (compared wording report metadata)

-- Of the lines of /proc/cpuinfo, if it can be read, and of report.bin.
abbrev pub report_here : Option (List String) → ReportFile → Result ReportError AttestationReport
report_here cpuinfo file = host_generation cpuinfo >>= λ generation. read file (some generation)

unfoldable pub verify_id_block_fields :
    Wording
    → (environ : String → Option String) → (cpuinfo : Option (List String)) → (file : ReportFile)
    → Result ReportError StepHandlerResult
unfolding host_generation read read_id_block_metadata field_errors
verify_id_block_fields wording environ cpuinfo file =
    examined wording (report_here cpuinfo file) (read_id_block_metadata environ)

pub eq_bytes_iff : (xs ys : List ℕ) → (eq_bytes xs ys ≡ true) ↔ (xs ≡ ys)
eq_bytes_iff [] [] = (λ h. refl, λ h. refl)
eq_bytes_iff [] (y ∷ ys) = (λ h. absurd (cc h), λ h. absurd (cc h))
eq_bytes_iff (x ∷ xs) [] = (λ h. absurd (cc h), λ h. absurd (cc h))
eq_bytes_iff (x ∷ xs) (y ∷ ys) =
    let rest = eq_bytes_iff xs ys in
    let first = ==_iff x y in
    (
      λ h. cc (first.0 (ground (arith, h)), rest.0 (ground (arith, h))),
      λ h. ground (arith, first.1 (cc h), rest.1 (cc h)),
    )

-- The report carries the ID block.
pub record Carries (report : AttestationReport) (meta : IdBlockMetadata) : Type 0 where
  pub guest_svn : report.guest_svn ≡ meta.guest_svn
  pub policy : report.policy ≡ meta.policy
  pub family_id : report.family_id ≡ id_bytes meta.family_id
  pub image_id : report.image_id ≡ id_bytes meta.image_id
  pub used : id_block_used report ≡ true

all_match :
    (a b c d e : Bool) (m0 m1 m2 m3 m4 : String)
    → (append
          (unless a m0)
          (append (unless b m1) (append (unless c m2) (append (unless d m3) (unless e m4))))
        ≡ [])
      ↔ ((a ≡ true) × (b ≡ true) × (c ≡ true) × (d ≡ true) × (e ≡ true))
all_match true true true true true m0 m1 m2 m3 m4 = (λ h. (refl, refl, refl, refl, refl), λ h. refl)
all_match false b c d e m0 m1 m2 m3 m4 = (λ h. absurd (cc h), λ h. absurd (cc h.0))
all_match true false c d e m0 m1 m2 m3 m4 = (λ h. absurd (cc h), λ h. absurd (cc h.1))
all_match true true false d e m0 m1 m2 m3 m4 = (λ h. absurd (cc h), λ h. absurd (cc h.2))
all_match true true true false e m0 m1 m2 m3 m4 = (λ h. absurd (cc h), λ h. absurd (cc h.3))
all_match true true true true false m0 m1 m2 m3 m4 = (λ h. absurd (cc h), λ h. absurd (cc h.4))

field_errors-Carries :
    (report : AttestationReport) (meta : IdBlockMetadata)
    → (field_errors report meta ≡ []) ↔ Carries report meta
unfolding field_errors
field_errors-Carries report meta =
    let matches =
      all_match (report.guest_svn == meta.guest_svn) (report.policy == meta.policy)
        (eq_bytes report.family_id (id_bytes meta.family_id))
        (eq_bytes report.image_id (id_bytes meta.image_id)) (id_block_used report) _ _ _ _ _ in
    let svn = ==_iff report.guest_svn meta.guest_svn in
    let policy = ==_iff report.policy meta.policy in
    let family = eq_bytes_iff report.family_id (id_bytes meta.family_id) in
    let image = eq_bytes_iff report.image_id (id_bytes meta.image_id) in
    (
      λ h.
          let m = matches.0 h in
          record {
            guest_svn = svn.0 m.0;
            policy = policy.0 m.1;
            family_id = family.0 m.2;
            image_id = image.0 m.3;
            used = m.4;
          },
      λ c.
          matches.1 (
            svn.1 c.guest_svn,
            policy.1 c.policy,
            family.1 c.family_id,
            image.1 c.image_id,
            c.used,
          ),
    )

field_result-none :
    (wording : Wording) (report : AttestationReport) (meta : IdBlockMetadata) (errors : List String)
    → ((field_result wording report meta errors).exit_code ≡ pos 0) ↔ (errors ≡ [])
field_result-none wording report meta [] = (λ h. refl, λ h. refl)
field_result-none wording report meta (e ∷ errors) = (λ h. absurd (cc h), λ h. absurd (cc h))

subst2 :
    {r r' : AttestationReport} {m m' : IdBlockMetadata}
    → r ≡ r'
    → m ≡ m'
    → Carries r m
    → Carries r' m'
subst2 p q c = coe 0 1 (i. Carries (p i) (q i)) c

-- The exceptions that are no ReportErrors.
abbrev pub IsForeign : ReportError → Type 0
IsForeign os_error = Unit
IsForeign index_error = Unit
IsForeign value_error = Unit
IsForeign _ = ⊥

uncaught_iff : (e : ReportError) → (is_report_error e ≡ false) ↔ IsForeign e
uncaught_iff os_error = (λ h. tt, λ h. refl)
uncaught_iff index_error = (λ h. tt, λ h. refl)
uncaught_iff value_error = (λ h. tt, λ h. refl)
uncaught_iff (malformed size) = (λ h. cc h, λ h. absurd h)
uncaught_iff not_found = (λ h. cc h, λ h. absurd h)
uncaught_iff (unsupported_version version) = (λ h. cc h, λ h. absurd h)
uncaught_iff (unknown_cpu family model) = (λ h. cc h, λ h. absurd h)
uncaught_iff (foreign_cpu report_name host_name) = (λ h. cc h, λ h. absurd h)
uncaught_iff (unknown_layout name) = (λ h. cc h, λ h. absurd h)
uncaught_iff unreadable_cpuinfo = (λ h. cc h, λ h. absurd h)
uncaught_iff no_family_or_model = (λ h. cc h, λ h. absurd h)

reported_only :
    (wording : Wording) (e : ReportError) (metadata : Result MetadataError IdBlockMetadata)
    (r : StepHandlerResult)
    → examined wording (err e) metadata ≡ ok r
    → r.exit_code ≡ pos 0
    → ⊥
reported_only wording e metadata r h passed = ground (arith, h, passed)

compared-Carries :
    (wording : Wording) (report : AttestationReport)
    (metadata : Result MetadataError IdBlockMetadata)
    → ((compared wording report metadata).exit_code ≡ pos 0)
      ↔ ((meta : IdBlockMetadata) × (metadata ≡ ok meta) × Carries report meta)
compared-Carries wording report (err e) = (λ h. absurd (cc h), λ h. absurd (cc h.1))
compared-Carries wording report (ok meta) =
    let result = field_result-none wording report meta (field_errors report meta) in
    let fields = field_errors-Carries report meta in
    (
      λ h. (meta, refl, fields.0 (result.0 h)),
      λ h.
          let same : h.0 ≡ meta = cc h.1 in
          let carried : Carries report meta = subst2 refl same h.2 in result.1 (fields.1 carried),
    )

-- The check of a guest's ID block passes exactly if the host's generation is known, the report is parsed
-- for it, the metadata are well-formed, and the report carries them and shows that an ID block was used.
-- It raises exactly if reading the generation or the report raises an exception that is no ReportError,
-- such as the ValueError of a CPU family that is no number or the OSError of a report that cannot be
-- read, and then raises that exception.
pub verify_id_block_fields-Carries :
    (wording : Wording) (environ : String → Option String) (cpuinfo : Option (List String))
    (file : ReportFile)
    → (((r : StepHandlerResult) × (verify_id_block_fields wording environ cpuinfo file ≡ ok r)
          × (r.exit_code ≡ pos 0))
        ↔ ((report : AttestationReport) × (meta : IdBlockMetadata) × (report_here cpuinfo file
              ≡ ok report)
            × (read_id_block_metadata environ ≡ ok meta)
            × Carries report meta))
      × ((e : ReportError)
          → (verify_id_block_fields wording environ cpuinfo file ≡ err e)
            ↔ ((report_here cpuinfo file ≡ err e) × IsForeign e))
unfolding verify_id_block_fields
verify_id_block_fields-Carries wording environ cpuinfo file =
    elim (Result-cases (report_here cpuinfo file)) [
      | inr (e, failed) ↦ (
        (
          λ h.
              absurd (
                reported_only wording e (read_id_block_metadata environ) h.0 (cc (failed, h.1))
                  h.2),
          λ h. absurd (cc (failed, h.2)),
        ),
        λ e'. elim (Bool-cases (is_report_error e)) [
          | inl caught ↦ (
            λ h. absurd (cc (failed, caught, h)),
            λ h.
                let same : e ≡ e' = cc (failed, h.0) in
                absurd (cc (caught, same, (uncaught_iff e').1 h.1)),
          )
          | inr uncaught ↦ (
            λ h.
                let same : e ≡ e' = cc (failed, uncaught, h) in
                (cc (failed, same), (uncaught_iff e').0 (cc (same, uncaught))),
            λ h. let same : e ≡ e' = cc (failed, h.0) in cc (failed, uncaught, same),
          )
        ],
      )
      | inl (report, e) ↦
          let carries = compared-Carries wording report (read_id_block_metadata environ) in
          (
            (
              λ h.
                  let (meta, known, carried) = carries.0 (cc (e, h.1, h.2)) in
                  (report, meta, e, known, carried),
              λ h.
                  let same : h.0 ≡ report = cc (h.2, e) in
                  let carried : Carries report h.1 = subst2 same refl h.4 in
                  (
                    compared wording report (read_id_block_metadata environ),
                    rw e refl,
                    carries.1 (h.1, h.3, carried),
                  ),
            ),
            λ e'. (λ h. absurd (cc (e, h)), λ h. absurd (cc (e, h.0))),
          )
    ]
