-- ===== src/Report/Layouts.antt =====
-- With which layout a parsed report was decoded, and the sizes of its fields.
use mathlib.Core.Path.{subst}
use sev_certify.Prelude.{
  Option-cases, ℕ, ◌≤◌, ◌<◌, ◌≡◌, refl, ◌⊎◌, ◌↔◌, inl, inr, Bool, true, false, List, Option, none,
  some, Result, ok, err, >>=-eq-ok, arith, length, Bool-cases, leb, ◌==◌,
}
use sev_certify.Report.Off
use sev_certify.Report.Tcb.{TcbVersion, ReportError, from_bytes}
use sev_certify.Report.Generation.{Generation, resolve_generation}
use sev_certify.Report.Known.{length-field}
use sev_certify.Report.Parse.{
  AttestationReport, Cpuid, Choice, Tcbs, report_size, report_version, report_cpuid, check_version,
  choose_generation, cross_check, from_report, decode_tcbs, decode_launch, parse_sized, parse,
  build_report, field,
}

-- Where the generation that decides the layout comes from: the host's, or the report's own CPUID
-- where the caller gave none.
abbrev pub Source : Option Generation → Option Cpuid → Generation → Type 0
Source (some host) cpuid g = host ≡ g
Source none none g = ⊥
Source none (some c) g = resolve_generation c.family c.model ≡ ok g

-- LAUNCH_TCB is read from version 3 on, with the same layout.
abbrev pub LaunchRead : Bool → List ℕ → Generation → Option TcbVersion → Type 0
LaunchRead false bytes g launch = launch ≡ none
LaunchRead true bytes g launch =
    (t : TcbVersion) × (launch ≡ some t)
    × (from_bytes (field bytes Off.launch_tcb 8) g.layout ≡ ok t)

pub record DecodedAs (bytes : List ℕ) (report : AttestationReport) (g : Generation) : Type 0 where
  pub tcb : TcbVersion
  pub reported : report.reported_tcb ≡ some tcb
  pub decoded : from_bytes (field bytes Off.reported_tcb 8) g.layout ≡ ok tcb
  pub named : report.generation ≡ g.name
  pub launch : LaunchRead (leb 3 (report_version bytes)) bytes g report.launch_tcb

pub record Undecoded (generation : Option Generation) (report : AttestationReport) : Type 0 where
  pub no_host : generation ≡ none
  pub reported : report.reported_tcb ≡ none
  pub launch : report.launch_tcb ≡ none
  pub named : report.generation ≡ "unknown"

-- The parts of a run of `parse` that returned.
record Run (bytes : List ℕ) (generation : Option Generation) (report : AttestationReport)
    : Type 0 where
  sized : length bytes ≡ report_size
  note : Option ℕ
  gate : check_version (report_version bytes) ≡ ok note
  choice : Choice
  chosen : choose_generation generation (report_cpuid (report_version bytes) bytes) ≡ ok choice
  tcbs : Tcbs
  decoded : decode_tcbs (report_version bytes) choice.generation bytes ≡ ok tcbs
  built : build_report bytes note choice tcbs ≡ report

parse-Run :
    (bytes : List ℕ) (generation : Option Generation) (report : AttestationReport)
    → parse bytes generation ≡ ok report
    → Run bytes generation report
unfolding parse parse_sized
parse-Run bytes generation report h = elim (Bool-cases (length bytes == report_size)) [
  | inl e ↦
      let (note, gate, h1) = >>=-eq-ok (check_version (report_version bytes)) _ (rw e at h) in
      let (choice, chosen, h2) = >>=-eq-ok (choose_generation generation _) _ h1 in
      let (tcbs, decoded, h3) =
        >>=-eq-ok (decode_tcbs (report_version bytes) choice.generation bytes) _ h2 in
      record {
        sized = ground (arith, e);
        note = note;
        gate = gate;
        choice = choice;
        chosen = chosen;
        tcbs = tcbs;
        decoded = decoded;
        built = cc;
      }
  | inr e ↦ absurd (ground (arith, e))
]

cross_check-some :
    (host : Generation) (c : Cpuid) (r : Result ReportError Generation) (choice : Choice)
    → cross_check host c r ≡ ok choice
    → choice.generation ≡ some host
unfolding cross_check
cross_check-some host c (err e) choice h = ground arith
cross_check-some host c (ok g) choice h = ground arith

from_report-Source :
    (c : Cpuid) (r : Result ReportError Generation) (g : Generation)
    → (from_report c r).generation ≡ some g
    → r ≡ ok g
unfolding from_report
from_report-Source c (ok x) g h = ground arith
from_report-Source c (err e) g h = cc

choose-Source :
    (generation : Option Generation) (cpuid : Option Cpuid) (choice : Choice) (g : Generation)
    → choose_generation generation cpuid ≡ ok choice
    → choice.generation ≡ some g
    → Source generation cpuid g
unfolding choose_generation
choose-Source none none choice g h e = ground arith
choose-Source none (some c) choice g h e = from_report-Source c _ g (ground arith)
choose-Source (some host) none choice g h e = ground arith
choose-Source (some host) (some c) choice g h e =
    ground (arith, cross_check-some host c (resolve_generation c.family c.model) choice h)

choose-no_host :
    (generation : Option Generation) (cpuid : Option Cpuid) (choice : Choice)
    → choose_generation generation cpuid ≡ ok choice
    → choice.generation ≡ none
    → generation ≡ none
unfolding choose_generation
choose-no_host none cpuid choice h e = refl
choose-no_host (some host) none choice h e = ground arith
choose-no_host (some host) (some c) choice h e =
    ground (arith, cross_check-some host c (resolve_generation c.family c.model) choice h)

decode_launch-LaunchRead :
    (version : ℕ) (g : Generation) (bytes : List ℕ) (launch : Option TcbVersion)
    → decode_launch version g bytes ≡ ok launch
    → LaunchRead (leb 3 version) bytes g launch
unfolding decode_launch
decode_launch-LaunchRead version g bytes launch h = elim (Bool-cases (leb 3 version)) [
  | inl e ↦
      let (t, read, same) =
        >>=-eq-ok (from_bytes (field bytes Off.launch_tcb 8) g.layout) _ (rw e at h) in
      rw e (t, ground arith, read)
  | inr e ↦ rw e (ground (arith, e))
]

module _ (bytes : List ℕ) (generation : Option Generation) (report : AttestationReport)
    (run : Run bytes generation report) where
  Run-DecodedAs : (g : Generation) → run.choice.generation ≡ some g → DecodedAs bytes report g
  unfolding decode_tcbs build_report
  Run-DecodedAs g e =
      let (t, read, h1) =
        >>=-eq-ok (from_bytes (field bytes Off.reported_tcb 8) g.layout) _
          (rw (e, decode_tcbs) at run.decoded) in
      let (l, launch, h2) = >>=-eq-ok (decode_launch (report_version bytes) g bytes) _ h1 in
      let same : run.tcbs ≡ record { gen_name = g.name; reported_tcb = some t; launch_tcb = l } =
        cc in
      record {
        tcb = t;
        reported = ground (arith, run.built);
        decoded = read;
        named = ground (arith, run.built);
        launch =
            subst (LaunchRead (leb 3 (report_version bytes)) bytes g) (ground (arith, run.built))
              (decode_launch-LaunchRead (report_version bytes) g bytes l launch);
      }

  Run-Undecoded : run.choice.generation ≡ none → Undecoded generation report
  unfolding decode_tcbs build_report
  Run-Undecoded e =
      let plain : decode_tcbs (report_version bytes) none bytes ≡ ok run.tcbs =
        rw e at run.decoded in
      record {
        no_host = choose-no_host generation _ run.choice run.chosen e;
        reported = ground (arith, run.built, plain);
        launch = ground (arith, run.built, plain);
        named = ground (arith, run.built, plain);
      }

-- If `parse` returns, then either the TCB versions were decoded with the layout of a single
-- generation, which is the host's where the caller gave one and otherwise the one that the report's
-- CPUID resolves to, and the report carries that generation's name, REPORTED_TCB decoded from its
-- eight bytes and LAUNCH_TCB exactly from version 3 on; or no host generation was given, both are
-- left out, and the generation is "unknown".
pub parse-DecodedAs :
    (bytes : List ℕ) (generation : Option Generation) (report : AttestationReport)
    → parse bytes generation ≡ ok report
    → ((g : Generation) × Source generation (report_cpuid (report_version bytes) bytes) g
        × DecodedAs bytes report g)
      ⊎ Undecoded generation report
parse-DecodedAs bytes generation report h =
    let run = parse-Run bytes generation report h in
    elim (Option-cases run.choice.generation) [
      | inl e ↦ inr (Run-Undecoded bytes generation report run e)
      | inr (g, e) ↦ inl (
        g,
        choose-Source generation _ run.choice g run.chosen e,
        Run-DecodedAs bytes generation report run g e,
      )
    ]

-- The sizes that the SNP ABI gives the byte fields.
pub record HasAbiSizes (r : AttestationReport) : Type 0 where
  pub family_id : length r.family_id ≡ 16
  pub image_id : length r.image_id ≡ 16
  pub report_data : length r.report_data ≡ 64
  pub measurement : length r.measurement ≡ 48
  pub host_data : length r.host_data ≡ 32
  pub id_key_digest : length r.id_key_digest ≡ 48
  pub author_key_digest : length r.author_key_digest ≡ 48
  pub report_id : length r.report_id ≡ 32

-- Which versions carry a note: those above 2 that are neither 3 nor 5.
abbrev pub VersionNoted : AttestationReport → Type 0
VersionNoted r =
    (2 ≤ r.version)
    × ((r.version_note ≡ none) ⊎ (r.version_note ≡ some r.version) × (2 < r.version))
    × ((r.version_note ≡ none) ↔ ((r.version ≡ 2) ⊎ (r.version ≡ 3) ⊎ (r.version ≡ 5)))

check_version-note :
    (v : ℕ) (note : Option ℕ)
    → check_version v ≡ ok note
    → (2 ≤ v)
      × ((note ≡ none) ⊎ (note ≡ some v) × (2 < v))
      × ((note ≡ none) ↔ ((v ≡ 2) ⊎ (v ≡ 3) ⊎ (v ≡ 5)))
unfolding check_version
check_version-note v noted h = (ground arith, ground arith, (ground arith, ground arith))

-- A report that `parse` accepts has 1184 bytes, every byte field has its ABI size, its version is 2
-- or later, it has
-- no version note exactly for the versions 2, 3 and 5, and any other note holds the version itself.
pub parse-HasAbiSizes :
    (bytes : List ℕ) (generation : Option Generation) (report : AttestationReport)
    → parse bytes generation ≡ ok report
    → (length bytes ≡ report_size) × HasAbiSizes report × VersionNoted report
unfolding build_report report_version
parse-HasAbiSizes bytes generation report h =
    let run = parse-Run bytes generation report h in
    let n = run.sized in
    (
      n,
      subst HasAbiSizes run.built (record {
        family_id = length-field bytes Off.family_id Off.len_id (omega arith);
        image_id = length-field bytes Off.image_id Off.len_id (omega arith);
        report_data = length-field bytes Off.report_data Off.len_report_data (omega arith);
        measurement = length-field bytes Off.measurement Off.len_measurement (omega arith);
        host_data = length-field bytes Off.host_data Off.len_host_data (omega arith);
        id_key_digest = length-field bytes Off.id_key_digest Off.len_digest (omega arith);
        author_key_digest = length-field bytes Off.author_key_digest Off.len_digest (omega arith);
        report_id = length-field bytes Off.report_id Off.len_report_id (omega arith);
      }),
      subst VersionNoted run.built (check_version-note (report_version bytes) run.note run.gate),
    )
